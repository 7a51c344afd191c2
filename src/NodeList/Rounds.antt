-- ===== src/NodeList/Rounds.antt =====
-- A round of the loop of copy_from and move_values_from.
use mathlib.Core.List.{map-append, append_assoc}
use doost.Base.{
  ℕ, ◌<◌, ◌≡◌, ◌≢◌, refl, sym, ap, ◌∙◌, subst, true, false, ◌==◌, arith, List, [], ◌∷◌, ◌++◌,
  length, Option, none, some, Bool-cases, inl, inr, ==_iff, length-append,
}
use doost.Word.{word_mod, add_word}
use doost.NodeList.{Node, Heap, Handle, node_next}
use doost.NodeList.Cells.{has, Chain, free-has}
use doost.NodeList.Append.{
  last_of, has-append, last_of-append, has-last_of, last_of-cons, has_apart, Chain-append,
}
use doost.NodeList.Copy.{Cursor, Taking, set_tail, advance}
use doost.NodeList.Filling.{
  Takes, Beside, Filling, with_node, with_link, with_node_new, with_node_same, with_node_source,
  with_link-Linked, relinked_elsewhere,
}

-- The node `a` with the value `x` stands behind the cells `ds`; of the other nodes at most that of
-- `source` has changed.
abbrev pub Behind :
    {A : Type 0} (R : Option (Node A) → Option (Node A) → Type 0) (h : Heap A) (source a : ℕ)
    (x : A)
    → Handle
    → List (ℕ × A)
    → Handle × Heap A
    → Type 0
Behind R h source a x l ds (m, g) =
    Chain g m.head (ds ++ (a, x) ∷ [])
    × R (h source) (g source)
    × ((b : ℕ) → b ≢ source → has b (ds ++ (a, x) ∷ []) ≡ false → g b ≡ h b)
    × (m.size ≡ l.size)

-- The new node stands behind the others, whether there are some or not.
pub set_tail-Chain :
    {A : Type 0} {R : Option (Node A) → Option (Node A) → Type 0} {take : Taking A}
    (law : Takes R take) (h : Heap A) (source a : ℕ) (x : A) (apart : source ≢ a) (l : Handle)
    (ds : List (ℕ × A))
    → a ≢ 0
    → has a ds ≡ false
    → has source ds ≡ false
    → Chain h l.head ds
    → Behind R h source a x l ds (set_tail (last_of ds) a l (with_node law h source a x apart))
unfolding set_tail
set_tail-Chain law h source a x apart l [] object out source_out chain = (
  (0, refl, object, with_node_new law h source a x apart, refl, refl),
  with_node_source law h source a x apart,
  λ b ne o. with_node_same law h source a x apart b (ground (arith, o)) ne,
  refl,
)
set_tail-Chain {R = R} law h source a x apart l (d ∷ ds) object out source_out chain =
    let (t, last) = last_of-cons d ds in
    let t_in = has-last_of d ds t last in
    let link = with_link-Linked law h source a x apart (d ∷ ds) t object out source_out t_in in
    let away =
      relinked_elsewhere t a (with_node law h source a x apart t)
        (with_node law h source a x apart) in
    subst
      (λ o. Behind R h source a x l (d ∷ ds) (set_tail o a l (with_node law h source a x apart)))
      (sym last)
      (
        Chain-append h (with_link law h source a x apart t) l.head d ds t a x last chain link,
        subst (R (h source))
            (sym (away source (λ e. has_apart t source (d ∷ ds) t_in source_out (sym e))))
            (with_node_source law h source a x apart),
        λ b ne o.
            away b (λ e. has_apart t b (d ∷ ds) t_in (outside b o).0 (sym e))
            ∙ with_node_same law h source a x apart b (outside b o).1 ne,
        refl,
      )
  where
    outside : (b : ℕ) → has b ((d ∷ ds) ++ (a, x) ∷ []) ≡ false → (has b (d ∷ ds) ≡ false) × (b ≢ a)
    outside b o = ground (arith, o, has-append b (d ∷ ds) ((a, x) ∷ []))

module _ {A : Type 0} {R : Option (Node A) → Option (Node A) → Type 0} {take : Taking A}
    (law : Takes R take) (h₀ : Heap A) (xs : List (ℕ × A)) (c : Cursor A) (ps rs ds : List (ℕ × A))
    (r : ℕ × A) (f : Filling R h₀ xs c ps (r ∷ rs) ds) where
  pub source_at : h₀ c.source ≡ some (record { next = f.rest.0; value = r.1 })
  source_at = ap h₀ f.rest.1 ∙ f.rest.3

  pub source_old : has c.source ds ≡ false
  source_old = elim (Bool-cases (has c.source ds)) [
    | inl old ↦ absurd (ground (arith, f.beside.new c.source old, source_at))
    | inr new ↦ new
  ]

  pub source_listed : (has c.source ps ≡ false) × (has c.source xs ≡ true)
  source_listed = f.unseen c.source (ground (arith, f.rest.1))

  pub source_same : c.heap c.source ≡ h₀ c.source
  source_same = f.untouched c.source source_old source_listed.0

  -- A round that makes the node `a`.
  module _ (a : ℕ) (object : a ≢ 0) (free : c.heap a ≡ none) (fits : length xs < word_mod) where
    pub apart : c.source ≢ a
    apart e = absurd (ground (arith, ap c.heap e, free, source_same, source_at))

    pub not_new : has a ds ≡ false
    not_new = free-has c.heap a c.list.head ds free f.beside.list.0

    was_free : h₀ a ≡ none
    was_free = law.allocated (h₀ a) (subst (R (h₀ a)) free (f.beside.touched a not_new))

    outside_old : (b : ℕ) → has b (ds ++ (a, r.1) ∷ []) ≡ false → (has b ds ≡ false) × (b ≢ a)
    outside_old b o = ground (arith, o, has-append b ds ((a, r.1) ∷ []))

    module _ (m : Handle) (g : Heap A)
        (behind : Behind R c.heap c.source a r.1 c.list ds (m, g)) where
      linked_new : (b : ℕ) → has b (ds ++ (a, r.1) ∷ []) ≡ true → h₀ b ≡ none
      linked_new b i = elim (Bool-cases (has b ds)) [
        | inl old ↦ f.beside.new b old
        | inr other ↦ ap h₀ (ground (arith, i, other, has-append b ds ((a, r.1) ∷ []))) ∙ was_free
      ]

      source_left : R (h₀ c.source) (g c.source)
      source_left = subst (λ n. R n (g c.source)) source_same behind.1

      linked_touched : (b : ℕ) → has b (ds ++ (a, r.1) ∷ []) ≡ false → R (h₀ b) (g b)
      linked_touched b o = elim (Bool-cases (b == c.source)) [
        | inl here ↦ subst (λ d. R (h₀ d) (g d)) (sym ((==_iff b c.source).0 here)) source_left
        | inr away ↦
            subst (R (h₀ b)) (sym (behind.2 b (ground (arith, away)) o))
              (f.beside.touched b (outside_old b o).0)
      ]

      linked_Beside : Beside R h₀ xs g (record m { size = add_word m.size 1 }) (ds ++ (a, r.1) ∷ [])
      linked_Beside = record {
        list = (
          behind.0,
          ground
              (arith, behind.3, f.beside.list.1, f.count, fits, length-append ds ((a, r.1) ∷ [])),
        );
        new = linked_new;
        touched = linked_touched;
        outside = λ b o u.
            behind.2 b (λ e. has_apart c.source b xs source_listed.1 u (sym e)) o
            ∙ f.beside.outside b (outside_old b o).0 u;
      }

      pub linked_Filling : Filling R h₀ xs (advance a (m, g) c) (r ∷ ps) rs (ds ++ (a, r.1) ∷ [])
      unfolding advance
      linked_Filling = record {
        beside = linked_Beside;
        rest =
            subst (λ p. Chain h₀ p rs) (sym (law.next _ _ source_left ∙ ap node_next source_at))
              f.rest.5;
        filled = simp (map-append, append_assoc) f.filled;
        count = ground (arith, f.count, length-append ds ((a, r.1) ∷ []));
        tail = sym (last_of-append ds (a, r.1));
        seen = λ b i. ground (arith, i, f.seen b, f.unseen b);
        unseen = λ b i. ground (arith, f.unseen b, has_apart b r.0 rs i f.rest.4);
        untouched = λ b o u.
            behind.2 b (ground (arith, u, f.rest.1)) o
            ∙ f.untouched b (outside_old b o).0 (ground (arith, u));
      }
