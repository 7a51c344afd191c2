-- ===== src/NodeList/Owned.antt =====
-- Which List object a node belongs to.
use doost.Base.{
  ℕ, ◌≡◌, ◌≢◌, ◌⊎◌, sym, ap, ◌∙◌, subst, true, false, ◌||◌, ◌==◌, arith, List, none, Bool-cases,
  inl, inr, if◌then◌else◌, ℕ_discrete,
}
use doost.NodeList.Cells.{has, Holds, free-has}
use doost.NodeList.Apart.{Apart, Holds-agree}
use doost.NodeList.Objects.{Store}

abbrev pub put_cells :
    {A : Type 0} (this other : ℕ) (ds zs : List (ℕ × A)) → (ℕ → List (ℕ × A)) → ℕ → List (ℕ × A)
put_cells this other ds zs cells u = if u == this then ds else if u == other then zs else cells u

module _ {A Alloc : Type 0} where
  -- The object at an address holds its cells; no node is in two of the lists, and none outside of them.
  pub record Owned (s : Store A Alloc) (cells : ℕ → List (ℕ × A)) : Type 0 where
    pub holds : (o : ℕ) → Holds s.heap (s.objects o).nodes (cells o)
    pub apart : (o u : ℕ) → o ≢ u → Apart (cells o) (cells u)
    pub owned : (b : ℕ) → ((o : ℕ) × (has b (cells o) ≡ true)) ⊎ (s.heap b ≡ none)

  -- The objects `this` and `other` have changed from the cells `ys` and `xs` to `ds` and `zs`.
  pub record Changed (this other : ℕ) (ys xs ds zs : List (ℕ × A)) (s t : Store A Alloc)
      : Type 0 where
    pub mine : Holds t.heap (t.objects this).nodes ds
    pub theirs : Holds t.heap (t.objects other).nodes zs
    pub others : (u : ℕ) → u ≢ this → u ≢ other → (t.objects u).nodes ≡ (s.objects u).nodes
    pub disjoint : this ≢ other → Apart ds zs
    pub one : this ≡ other → zs ≡ ds
    pub new :
        (b : ℕ)
        → (has b ds || has b zs) ≡ true
        → ((has b ys || has b xs) ≡ true) ⊎ (s.heap b ≡ none)
    pub freed :
        (b : ℕ) → (has b ys || has b xs) ≡ true → (has b ds || has b zs) ≡ false → t.heap b ≡ none
    pub outside :
        (b : ℕ)
        → (has b ys || has b xs) ≡ false
        → (has b ds || has b zs) ≡ false
        → t.heap b ≡ s.heap b

  module _ (this other : ℕ) (ds zs : List (ℕ × A)) (s t : Store A Alloc) (cells : ℕ → List (ℕ × A))
      (w : Owned s cells) (c : Changed this other (cells this) (cells other) ds zs s t) where
    -- A node of another object is in neither of the two, before and after.
    old_apart :
        (u b : ℕ)
        → u ≢ this
        → u ≢ other
        → has b (cells u) ≡ true
        → (has b (cells this) || has b (cells other)) ≡ false
    old_apart u b out away i = ground (arith, w.apart u this out b i, w.apart u other away b i)

    new_apart :
        (u b : ℕ) → u ≢ this → u ≢ other → has b (cells u) ≡ true → (has b ds || has b zs) ≡ false
    new_apart u b out away i = elim (Bool-cases (has b ds || has b zs)) [
      | inr apart ↦ apart
      | inl found ↦ elim (c.new b found) [
        | inl old ↦ absurd (ground (arith, old, old_apart u b out away i))
        | inr free ↦ absurd (
            ground
              (arith, i, free-has s.heap b (s.objects u).nodes.head (cells u) free (w.holds u).0))
      ]
    ]

    same_holds : (u : ℕ) → u ≢ this → u ≢ other → Holds t.heap (t.objects u).nodes (cells u)
    same_holds u out away =
        subst (λ l. Holds t.heap l (cells u)) (sym (c.others u out away))
          (Holds-agree s.heap t.heap (s.objects u).nodes (cells u)
            (λ b i. c.outside b (old_apart u b out away i) (new_apart u b out away i)) (w.holds u))

    changed_holds : (u : ℕ) → Holds t.heap (t.objects u).nodes (put_cells this other ds zs cells u)
    changed_holds u = elim (ℕ_discrete u this) [
      | yes here ↦
          subst (λ v. Holds t.heap (t.objects v).nodes (put_cells this other ds zs cells v))
            (sym here) (subst (Holds t.heap (t.objects this).nodes) (ground arith) c.mine)
      | no out ↦ elim (ℕ_discrete u other) [
        | yes there ↦
            subst (Holds t.heap (t.objects u).nodes) (ground (arith, out, there))
              (subst (λ v. Holds t.heap (t.objects v).nodes zs) (sym there) c.theirs)
        | no away ↦
            subst (Holds t.heap (t.objects u).nodes) (ground (arith, out, away))
              (same_holds u out away)
      ]
    ]

    changed_apart :
        (o u : ℕ)
        → o ≢ u
        → Apart (put_cells this other ds zs cells o) (put_cells this other ds zs cells u)
    changed_apart o u ne b i = ground (
      arith,
      ne,
      i,
      λ (n : this ≢ other). c.disjoint n b,
      w.apart o u ne b,
      new_apart o b,
      new_apart u b,
    )

    other_has :
        (b : ℕ)
        → has b ds ≡ false
        → has b zs ≡ true
        → has b (put_cells this other ds zs cells other) ≡ true
    other_has b out i = elim (ℕ_discrete this other) [
      | yes same ↦ absurd (ground (arith, out, i, ap (has b) (c.one same)))
      | no apart ↦ ground (arith, apart, i)
    ]

    -- The node of an object is in one of its lists afterwards, or it is given back.
    changed_owned :
        (b : ℕ)
        → ((o : ℕ) × (has b (put_cells this other ds zs cells o) ≡ true)) ⊎ (t.heap b ≡ none)
    changed_owned b = elim (Bool-cases (has b ds)) [
      | inl mine ↦ inl (this, ground (arith, mine))
      | inr not_mine ↦ elim (Bool-cases (has b zs)) [
        | inl theirs ↦ inl (other, other_has b not_mine theirs)
        | inr not_theirs ↦ elim (Bool-cases (has b (cells this) || has b (cells other))) [
          | inl old ↦ inr (c.freed b old (ground (arith, not_mine, not_theirs)))
          | inr not_old ↦ elim (w.owned b) [
            | inl (o, i) ↦ inl (o, ground (arith, i, not_old, ap (λ u. has b (cells u))))
            | inr free ↦ inr (c.outside b not_old (ground (arith, not_mine, not_theirs)) ∙ free)
          ]
        ]
      ]
    ]

    pub Changed-Owned : Owned t (put_cells this other ds zs cells)
    Changed-Owned = record { holds = changed_holds; apart = changed_apart; owned = changed_owned }
