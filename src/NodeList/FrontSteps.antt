-- ===== src/NodeList/FrontSteps.antt =====
-- The change of one List object by emplace_front and pop_front: include/doost/list.hpp.
use doost.Base.{
  ℕ, ◌<◌, ◌≤◌, ◌≡◌, ◌≢◌, refl, sym, ap, ◌∙◌, subst, arith, List, [], ◌∷◌, length, some, Bool-cases,
  inl, inr, Outcome, returned, thrown,
}
use doost.Word.{word_mod}
use doost.NodeList.{
  Heap, Handle, Answer, made, no_memory, element_throws, emplace_front, create_node, emplaced,
  pop_front, put_node,
}
use doost.NodeList.Cells.{has, Holds, Fresh, emplace_front-Emplaced, Popped, pop_front-Popped}
use doost.NodeList.Filling.{values}
use doost.NodeList.Objects.{Store, put_nodes}
use doost.NodeList.Contents.{without_first}
use doost.NodeList.Programs.{at_front, pop_at}
use doost.NodeList.Steps.{ChangedOne, unchanged, either, PopAnswered, returned_inj, thrown_inj}

module _ {A Alloc : Type 0} (s : Store A Alloc) where
  module _ (k this : ℕ) (ys : List (ℕ × A)) (holds : Holds s.heap (s.objects this).nodes ys)
      (few : length ys < k) (small : k < word_mod) where
    pub emplaced-ChangedOne :
        (answer : Answer) (x : A)
        → Fresh s.heap answer
        → let (r, t) = at_front this s (emplace_front answer x (s.objects this).nodes s.heap) in
          ChangedOne k this ys (either r (x ∷ values ys) (values ys)) s t
    unfolding emplace_front create_node emplaced
    emplaced-ChangedOne (made a) x (object, free) =
        let (m, e, held) =
          emplace_front-Emplaced (made a) x (s.objects this).nodes s.heap ys holds (object, free)
            (omega (arith, few, small)) in
        let node =
          put_node a (some (record { next = (s.objects this).nodes.head; value = x })) s.heap in
        let same : (at_front this s
                (emplace_front (made a) x (s.objects this).nodes s.heap)).1.objects
              this
            ≡ record (s.objects this) { nodes = m } =
          ground arith ∙ ap (λ l. record (s.objects this) { nodes = l }) (returned_inj e) in
        let now = subst (λ o. Holds node o.nodes ((a, x) ∷ ys)) (sym same) held in
        (
          (a, x) ∷ ys,
          record {
            mine = now;
            theirs = now;
            others = λ u out away. ground (arith, out);
            disjoint = λ n. absurd (n refl);
            one = λ e. refl;
            new = λ b i. elim (Bool-cases (has b ys)) [
              | inl old ↦ inl (ground (arith, old))
              | inr away ↦ inr (ap s.heap (ground (arith, i, away)) ∙ free)
            ];
            freed = λ b i o. absurd (ground (arith, i, o));
            outside = λ b i o. ground (arith, o);
          },
          omega (arith, few),
          refl,
        )
    emplaced-ChangedOne no_memory x fresh =
        unchanged s k this ys _ holds (omega (arith, few)) (λ u. refl) (λ b. refl)
    emplaced-ChangedOne (element_throws a e) x (object, free) =
        unchanged s k this ys _ holds (omega (arith, few)) (λ u. refl) (λ b. ground (arith, free))

    pop_keeps : (l : Handle) (b : ℕ) → b ≢ l.head → (pop_front l s.heap).1 b ≡ s.heap b
    unfolding pop_front
    pop_keeps l b ne = ground (arith, ne)

  Popped-ChangedOne :
      (k this : ℕ) (ys : List (ℕ × A))
      → Holds s.heap (s.objects this).nodes ys
      → length ys ≤ k
      → (r : Outcome Handle × Heap A)
      → ((b : ℕ) → b ≢ (s.objects this).nodes.head → r.1 b ≡ s.heap b)
      → Popped s.heap ys r
      → let (a, t) = at_front this s r in
        ChangedOne k this ys (without_first (values ys)) s t × PopAnswered (values ys) a
  Popped-ChangedOne k this [] holds few (returned l, g) keeps (e, same) = absurd (ground (arith, e))
  Popped-ChangedOne k this [] holds few (thrown x, g) keeps (e, same) =
      (unchanged s k this [] _ holds few (λ u. refl) (λ b. ap (λ h. h b) same), thrown_inj e)
  Popped-ChangedOne k this (c ∷ cs) holds few (thrown x, g) keeps (m, e, held, freed) =
      absurd (ground (arith, e))
  Popped-ChangedOne k this (c ∷ cs) holds few (returned l, g) keeps (m, e, held, freed) =
      let same : (put_nodes this l s).objects this ≡ record (s.objects this) { nodes = m } =
        ground arith ∙ ap (λ l. record (s.objects this) { nodes = l }) (returned_inj e) in
      let now = subst (λ o. Holds g o.nodes cs) (sym same) held in
      let head : (s.objects this).nodes.head ≡ c.0 = holds.0.1 in
      (
        (
          cs,
          record {
            mine = now;
            theirs = now;
            others = λ u out away. ground (arith, out);
            disjoint = λ n. absurd (n refl);
            one = λ e. refl;
            new = λ b i. inl (ground (arith, i));
            freed = λ b i o. ap g (ground (arith, i, o)) ∙ freed;
            outside = λ b i o. keeps b (ground (arith, i, head));
          },
          omega (arith, few),
          refl,
        ),
        tt,
      )

  pub pop_at-ChangedOne :
      (k this : ℕ) (ys : List (ℕ × A))
      → Holds s.heap (s.objects this).nodes ys
      → length ys < k
      → k < word_mod
      → let (a, t) = pop_at this s in
        ChangedOne k this ys (without_first (values ys)) s t × PopAnswered (values ys) a
  unfolding pop_at
  pop_at-ChangedOne k this ys holds few small =
      Popped-ChangedOne k this ys holds (omega (arith, few))
        (pop_front (s.objects this).nodes s.heap)
        (pop_keeps k this ys holds few small (s.objects this).nodes)
        (pop_front-Popped (s.objects this).nodes s.heap ys holds (omega (arith, few, small)))
