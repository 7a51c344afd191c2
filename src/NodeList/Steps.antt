-- ===== src/NodeList/Steps.antt =====
-- The change of one List object by an operation.
use doost.Base.{
  ℕ, suc, ◌<◌, ◌≤◌, ◌≡◌, refl, sym, ap, subst, arith, List, [], ◌∷◌, length, some, inl, inr,
  Outcome, returned, thrown, Exception, out_of_range,
}
use doost.NodeList.Cells.{Holds}
use doost.NodeList.Copy.{no_nodes}
use doost.NodeList.Filling.{values}
use doost.NodeList.Apart.{Holds-agree, clear_object-Freed}
use doost.NodeList.Objects.{Store, put_nodes}
use doost.NodeList.CopyObjects.{CopyAssigned}
use doost.NodeList.Owned.{Owned, Changed}
use doost.NodeList.Programs.{clear_at}

pub length-values : {A : Type 0} (cs : List (ℕ × A)) → length (values cs) ≡ length cs
length-values [] = refl
length-values (c ∷ cs) = ap suc (length-values cs)

pub returned_inj : {A : Type 0} {x y : A} → returned x ≡ returned y → x ≡ y
returned_inj e = cc

pub thrown_inj : {A : Type 0} {x y : Exception} → ◌≡◌ {A = Outcome A} (thrown x) (thrown y) → x ≡ y
thrown_inj e = cc

module _ {A Alloc : Type 0} (k : ℕ) where
  -- The store has owners for its nodes, in lists of at most `k` cells.
  pub record Kept (t : Store A Alloc) : Type 0 where
    pub cells : ℕ → List (ℕ × A)
    pub owned : Owned t cells
    pub bounded : (o : ℕ) → length (cells o) ≤ k

  -- A change of one list, which has the values `vs` then, or none.
  abbrev pub ChangedOne :
      (this : ℕ) (ys : List (ℕ × A)) (vs : List A) (s t : Store A Alloc) → Type 0
  ChangedOne this ys vs s t =
      (ds : List (ℕ × A)) × Changed this this ys ys ds ds s t × (length ds ≤ k) × (values ds ≡ vs)

-- What the list holds after an operation that may throw, and then keeps the old values.
abbrev pub either : {A : Type 0} → Outcome ℕ → (done old : List A) → List A
either (returned r) done old = done
either (thrown e) done old = old

-- Whether a pop answers as a list with these values lets it.
abbrev pub PopAnswered : {A : Type 0} → List A → Outcome ℕ → Type 0
PopAnswered [] (returned r) = ⊥
PopAnswered [] (thrown e) = e ≡ out_of_range
PopAnswered (x ∷ xs) (returned r) = Unit
PopAnswered (x ∷ xs) (thrown e) = ⊥

module _ {A Alloc : Type 0} (s : Store A Alloc) where
  pub unchanged :
      (k this : ℕ) (ys : List (ℕ × A)) (t : Store A Alloc)
      → Holds s.heap (s.objects this).nodes ys
      → length ys ≤ k
      → ((u : ℕ) → t.objects u ≡ s.objects u)
      → ((b : ℕ) → t.heap b ≡ s.heap b)
      → ChangedOne k this ys (values ys) s t
  unchanged k this ys t holds few objects heap =
      let now =
        subst (λ o. Holds t.heap o.nodes ys) (sym (objects this))
          (Holds-agree s.heap t.heap (s.objects this).nodes ys (λ b i. heap b) holds) in
      (
        ys,
        record {
          mine = now;
          theirs = now;
          others = λ u out away. ap (λ o. o.nodes) (objects u);
          disjoint = λ n. absurd (n refl);
          one = λ e. refl;
          new = λ b i. inl i;
          freed = λ b i o. absurd (ground (arith, i, o));
          outside = λ b i o. heap b;
        },
        few,
        refl,
      )

  pub clear_at-ChangedOne :
      (fuel k this : ℕ) (ys : List (ℕ × A))
      → Holds s.heap (s.objects this).nodes ys
      → length ys < fuel
      → (t : Store A Alloc) × (clear_at fuel this s ≡ some (returned this, t))
        × ChangedOne k this ys [] s t
  unfolding clear_at
  clear_at-ChangedOne fuel k this ys holds enough =
      let (g, run, freed) = clear_object-Freed fuel this s ys holds enough in
      let empty : Holds g ((put_nodes this no_nodes s).objects this).nodes [] =
        (ground arith, ground arith) in
      (
        record (put_nodes this no_nodes s) { heap = g },
        rw run refl,
        (
          [],
          record {
            mine = empty;
            theirs = empty;
            others = λ u out away. ground (arith, out);
            disjoint = λ n. absurd (n refl);
            one = λ e. refl;
            new = λ b i. absurd (ground (arith, i));
            freed = λ b i o. freed.inside b (ground (arith, i));
            outside = λ b i o. freed.outside b (ground (arith, i));
          },
          omega arith,
          refl,
        ),
      )

  pub copied-ChangedOne :
      (k this : ℕ) (ys xs : List (ℕ × A))
      → Holds s.heap (s.objects this).nodes ys
      → length ys ≤ k
      → length xs ≤ k
      → (r : Outcome ℕ × Store A Alloc) → CopyAssigned this ys xs s r
      → ChangedOne k this ys (either r.0 (values xs) (values ys)) s r.1
  copied-ChangedOne k this ys xs holds few short (thrown e, t) (objects, heap) =
      unchanged k this ys t holds few objects heap
  copied-ChangedOne k this ys xs holds few short (returned r, t)
        (ds, _, now, same, _, others, freed, outside, new) =
      (
        ds,
        record {
          mine = now;
          theirs = now;
          others = λ u out away. ap (λ o. o.nodes) (others u out);
          disjoint = λ n. absurd (n refl);
          one = λ e. refl;
          new = λ b i. inr (new b (ground (arith, i)));
          freed = λ b i o. freed b (ground (arith, i));
          outside = λ b i o. outside b (ground (arith, i)) (ground (arith, o));
        },
        omega (arith, short, length-values ds, length-values xs, ap length same),
        same,
      )
