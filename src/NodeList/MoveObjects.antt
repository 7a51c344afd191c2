-- ===== src/NodeList/MoveObjects.antt =====
-- The move assignment of List, in its three ways.
use doost.Base.{
  ◌⊎◌, ℕ, ◌<◌, ◌≡◌, ◌≢◌, refl, sym, ◌∙◌, subst, true, false, ◌||◌, arith, List, [], length, Option,
  none, some, Bool-cases, inl, inr, if◌then◌else◌, Outcome, returned, thrown,
}
use doost.NodeList.{Heap, Handle}
use doost.NodeList.Cells.{has, Holds}
use doost.NodeList.Clear.{Freed, clear-Freed}
use doost.NodeList.Copy.{no_nodes}
use doost.NodeList.Filling.{Beside, values}
use doost.NodeList.Copied.{Emptied}
use doost.NodeList.Apart.{
  Apart, Holds-agree, Freed-Holds, new-Apart, Emptied-Chain, clear_object-Freed,
}
use doost.NodeList.Objects.{
  Traits, Store, put_nodes, stolen, propagated, move_propagated, move_nodes, moved_swapped,
}

module _ {A Alloc : Type 0} (traits : Traits A Alloc) where
  -- Which allocator the object has afterwards.
  abbrev pub kept : (this other : ℕ) → Store A Alloc → Alloc
  kept this other s =
      if traits.propagate_on_container_move_assignment
      then (s.objects other).allocator
      else (s.objects this).allocator

  -- The object holds the values of `xs`, in their nodes or in new ones, the other one is empty, and no
  -- node of either is left over.
  pub record Moved (this other : ℕ) (ys xs : List (ℕ × A)) (s t : Store A Alloc) : Type 0 where
    pub cells : List (ℕ × A)
    pub list : Holds t.heap (t.objects this).nodes cells
    pub same : values cells ≡ values xs
    pub origin : (b : ℕ) → has b cells ≡ true → (has b xs ≡ true) ⊎ (s.heap b ≡ none)
    pub allocator : (t.objects this).allocator ≡ kept this other s
    pub other_empty : (t.objects other).nodes ≡ no_nodes
    pub elsewhere : (b : ℕ) → b ≢ this → b ≢ other → t.objects b ≡ s.objects b
    pub freed : (b : ℕ) → (has b ys || has b xs) ≡ true → has b cells ≡ false → t.heap b ≡ none
    pub outside :
        (b : ℕ) → (has b ys || has b xs) ≡ false → has b cells ≡ false → t.heap b ≡ s.heap b

  -- An exception leaves both objects and all nodes as they were but for the values of `xs`.
  abbrev pub MoveAssigned :
      (this other : ℕ) (ys xs : List (ℕ × A)) (s : Store A Alloc)
      → Outcome ℕ × Store A Alloc
      → Type 0
  MoveAssigned this other ys xs s (returned r, t) = (r ≡ this) × Moved this other ys xs s t
  MoveAssigned this other ys xs s (thrown e, t) =
      ((b : ℕ) → t.objects b ≡ s.objects b)
      × ((b : ℕ) → Emptied (s.heap b) (t.heap b))
      × ((b : ℕ) → has b xs ≡ false → t.heap b ≡ s.heap b)

  module _ (fuel this other : ℕ) (s : Store A Alloc) (ys xs : List (ℕ × A))
      (different : this ≢ other) (mine : Holds s.heap (s.objects this).nodes ys)
      (theirs : Holds s.heap (s.objects other).nodes xs) (apart : Apart ys xs)
      (enough_mine : length ys < fuel) where
    unfoldable pub EndsWith : Option (Outcome ℕ × Store A Alloc) → Type 0
    EndsWith o = (t : Outcome ℕ × Store A Alloc) × (o ≡ some t) × MoveAssigned this other ys xs s t

    theirs-Apart : Apart xs ys
    theirs-Apart b i = elim (Bool-cases (has b ys)) [
      | inl old ↦ absurd (ground (arith, i, apart b old))
      | inr not_old ↦ not_old
    ]

    -- The nodes have changed their list.
    stolen-Moved :
        (t : Store A Alloc)
        → Freed s.heap ys t.heap
        → (t.objects this).nodes ≡ (s.objects other).nodes
        → (t.objects this).allocator ≡ kept this other s
        → (t.objects other).nodes ≡ no_nodes
        → ((b : ℕ) → b ≢ this → b ≢ other → t.objects b ≡ s.objects b)
        → Moved this other ys xs s t
    stolen-Moved t freed got allocator emptied elsewhere = record {
      cells = xs;
      list =
          subst (λ l. Holds t.heap l xs) (sym got)
            (Freed-Holds s.heap t.heap (s.objects other).nodes xs ys freed theirs-Apart theirs);
      same = refl;
      origin = λ b i. inl i;
      allocator = allocator;
      other_empty = emptied;
      elsewhere = elsewhere;
      freed = λ b i o. freed.inside b (ground (arith, i, o));
      outside = λ b i o. freed.outside b (ground (arith, i));
    }

    pub move_propagated-Moved :
        traits.propagate_on_container_move_assignment ≡ true
        → EndsWith (move_propagated traits fuel this other s)
    unfolding EndsWith move_propagated
    move_propagated-Moved propagates =
        let (g, run, freed) = clear_object-Freed fuel this s ys mine enough_mine in
        let t =
          stolen this other
            (propagated traits this other (record (put_nodes this no_nodes s) { heap = g })) in
        (
          (returned this, t),
          rw run refl,
          (
            refl,
            stolen-Moved t freed (ground (arith, different)) (ground (arith, different, propagates))
                (ground (arith, different)) (λ b out away. ground (arith, out, away)),
          ),
        )

    pub move_nodes-Moved :
        traits.propagate_on_container_move_assignment ≡ false
        → EndsWith (move_nodes traits fuel this other s)
    unfolding EndsWith move_nodes
    move_nodes-Moved stays =
        let (g, run, freed) = clear_object-Freed fuel this s ys mine enough_mine in
        let t = stolen this other (record (put_nodes this no_nodes s) { heap = g }) in
        (
          (returned this, t),
          rw run refl,
          (
            refl,
            stolen-Moved t freed (ground (arith, different)) (ground (arith, different, stays))
                (ground (arith, different)) (λ b out away. ground (arith, out, away)),
          ),
        )

    -- The values have moved into the nodes of `ds`.
    module _ (g : Heap A) (moved : Handle) (ds : List (ℕ × A))
        (beside : Beside Emptied s.heap xs g moved ds) where
      mine_new : Apart ys ds
      mine_new = new-Apart s.heap (s.objects this).nodes ys ds beside.new mine

      theirs_new : Apart xs ds
      theirs_new = new-Apart s.heap (s.objects other).nodes xs ds beside.new theirs

      mine_still : Holds g (s.objects this).nodes ys
      mine_still =
          Holds-agree s.heap g (s.objects this).nodes ys
            (λ b i. beside.outside b (mine_new b i) (apart b i)) mine

      -- The nodes of the other list still lead through it, with what the moves have left.
      theirs_left :
          (zs : List (ℕ × A)) × Holds g (s.objects other).nodes zs
          × ((b : ℕ) → has b zs ≡ has b xs)
          × (length zs ≡ length xs)
      theirs_left =
          let (zs, chain, listed, count) =
            Emptied-Chain s.heap g (s.objects other).nodes.head xs theirs.0
              (λ b i. beside.touched b (theirs_new b i)) in
          (zs, (chain, theirs.1 ∙ sym count), listed, count)

      module _ (zs : List (ℕ × A)) (listed : (b : ℕ) → has b zs ≡ has b xs) (f₁ f₂ f₃ : Heap A)
          (freed₁ : Freed g ys f₁) (freed₂ : Freed f₁ zs f₂) (freed₃ : Freed f₂ [] f₃) where
        moved-Holds : Holds f₃ moved ds
        moved-Holds =
            Holds-agree g f₃ moved ds
              (λ b i.
                freed₃.outside b refl
                ∙ freed₂.outside b (ground (arith, i, listed b, theirs_new b))
                ∙ freed₁.outside b (ground (arith, i, mine_new b)))
              beside.list

        moved_freed : (b : ℕ) → (has b ys || has b xs) ≡ true → f₃ b ≡ none
        moved_freed b i = freed₃.outside b refl ∙ elim (Bool-cases (has b zs)) [
          | inl theirs_in ↦ freed₂.inside b theirs_in
          | inr out ↦ freed₂.outside b out ∙ freed₁.inside b (ground (arith, i, out, listed b))
        ]

        moved_outside :
            (b : ℕ) → (has b ys || has b xs) ≡ false → has b ds ≡ false → f₃ b ≡ s.heap b
        moved_outside b out o =
            freed₃.outside b refl
            ∙ freed₂.outside b (ground (arith, out, listed b))
            ∙ freed₁.outside b (ground (arith, out))
            ∙ beside.outside b o (ground (arith, out))

      pub moved_swapped-Moved :
          traits.propagate_on_container_move_assignment ≡ false
          → length xs < fuel
          → values ds ≡ values xs
          → EndsWith (moved_swapped traits fuel this other s (returned moved, g))
      unfolding EndsWith moved_swapped
      moved_swapped-Moved stays enough same =
          let (f₁, run₁, freed₁) =
            clear_object-Freed fuel this (record s { heap = g }) ys mine_still enough_mine in
          let c = record (put_nodes this no_nodes s) { heap = f₁ } in
          let (zs, holds, listed, count) = theirs_left in
          let apart_left : Apart zs ys = λ b i. theirs-Apart b (sym (listed b) ∙ i) in
          let (f₂, run₂, freed₂) =
            clear_object-Freed fuel other (put_nodes this moved c) zs
              (subst (λ l. Holds f₁ l zs) (ground (arith, different))
                (Freed-Holds g f₁ (s.objects other).nodes zs ys freed₁ apart_left holds))
              (omega (arith, enough, count)) in
          let d = record (put_nodes other no_nodes (put_nodes this moved c)) { heap = f₂ } in
          let (f₃, run₃, freed₃) =
            clear-Freed fuel (c.objects this).nodes f₂ [] (ground arith, ground arith)
              (omega (arith, enough)) in
          (
            (returned this, record d { heap = f₃ }),
            rw (run₁, run₂, run₃) refl,
            (
              refl,
              record {
                cells = ds;
                list =
                    subst (λ l. Holds f₃ l ds) (ground (arith, different))
                      (moved-Holds zs listed f₁ f₂ f₃ freed₁ freed₂ freed₃);
                same = same;
                origin = λ b i. inr (beside.new b i);
                allocator = ground (arith, different, stays);
                other_empty = ground (arith, different);
                elsewhere = λ b out away. ground (arith, out, away);
                freed = λ b i _. moved_freed zs listed f₁ f₂ f₃ freed₁ freed₂ freed₃ b i;
                outside = λ b out o. moved_outside zs listed f₁ f₂ f₃ freed₁ freed₂ freed₃ b out o;
              },
            ),
          )
