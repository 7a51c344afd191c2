-- ===== src/NodeList/CopyObjects.antt =====
-- The copy constructor and the copy assignment of List.
use doost.Base.{
  ℕ, ◌<◌, ◌≡◌, ◌≢◌, refl, sym, ◌∙◌, subst, true, false, ◌==◌, arith, List, length, none, some,
  Bool-cases, inl, inr, Outcome, returned, thrown,
}
use doost.Word.{word_mod}
use doost.NodeList.{Heap, Handle}
use doost.NodeList.Cells.{has, Holds, Fresh}
use doost.NodeList.Clear.{clear-Freed}
use doost.NodeList.Filling.{values}
use doost.NodeList.Copied.{Fills, fill_from-Fills, copied_value-Takes}
use doost.NodeList.Apart.{Apart, Holds-agree, Freed-Holds, new-Apart}
use doost.NodeList.Objects.{
  Traits, Object, Store, put_nodes, copy_with, constructed, copy_construct, copy_swapped,
  copy_assign,
}

-- A copy of the cells: their values in nodes that were free, beside the heap of before; or an exception
-- and that heap.
abbrev pub Copied :
    {A Alloc : Type 0} → Heap A → List (ℕ × A) → Alloc → Outcome (Object Alloc) × Heap A → Type 0
Copied h xs allocator (returned o, g) =
    (ds : List _) × Holds g o.nodes ds
    × (values ds ≡ values xs)
    × (o.allocator ≡ allocator)
    × ((b : ℕ) → has b ds ≡ true → h b ≡ none)
    × ((b : ℕ) → has b ds ≡ false → g b ≡ h b)
Copied h xs allocator (thrown e, g) = (b : ℕ) → g b ≡ h b

module _ {A Alloc : Type 0} where
  -- The object holds the values of `xs` in new nodes, its old nodes `ys` are given back, and all else is
  -- as it was, the other object too; or an exception has left everything as it was.
  abbrev pub CopyAssigned :
      (this : ℕ) (ys xs : List (ℕ × A)) (s : Store A Alloc) → Outcome ℕ × Store A Alloc → Type 0
  CopyAssigned this ys xs s (returned r, t) =
      (ds : List (ℕ × A)) × (r ≡ this)
      × Holds t.heap (t.objects this).nodes ds
      × (values ds ≡ values xs)
      × ((t.objects this).allocator ≡ (s.objects this).allocator)
      × ((b : ℕ) → b ≢ this → t.objects b ≡ s.objects b)
      × ((b : ℕ) → has b ys ≡ true → t.heap b ≡ none)
      × ((b : ℕ) → has b ys ≡ false → has b ds ≡ false → t.heap b ≡ s.heap b)
      × ((b : ℕ) → has b ds ≡ true → s.heap b ≡ none)
  CopyAssigned this ys xs s (thrown e, t) =
      ((b : ℕ) → t.objects b ≡ s.objects b) × ((b : ℕ) → t.heap b ≡ s.heap b)

module _ {A Alloc : Type 0} (traits : Traits A Alloc)
    (fresh : (a : Alloc) (h : Heap A) → Fresh h (traits.new_node a h)) where
  constructed-Copied :
      (h : Heap A) (xs : List (ℕ × A)) (allocator : Alloc) (r : Outcome Handle) (g : Heap A)
      → Fills ◌≡◌ h xs (r, g)
      → Copied h xs allocator (constructed traits allocator r, g)
  constructed-Copied h xs allocator (returned l) g (ds, beside, same, _) =
      (ds, beside.list, same, refl, beside.new, λ b o. sym (beside.touched b o))
  constructed-Copied h xs allocator (thrown e) g beside = λ b. sym (beside.touched b refl)

  -- With more fuel than nodes and an allocator that hands out free addresses, the copy constructor ends
  -- with the values of the list in the same order in nodes that were free, all other nodes as they
  -- were, and the allocator that select_on_container_copy_construction gives; or with an exception and
  -- every node as it was.
  pub copy_construct-Copied :
      (fuel : ℕ) (other : Object Alloc) (h : Heap A) (xs : List (ℕ × A))
      → Holds h other.nodes xs
      → length xs < word_mod
      → length xs < fuel
      → (r : Outcome (Object Alloc) × Heap A) × (copy_construct traits fuel other h ≡ some r)
        × Copied h xs (traits.select_on_container_copy_construction other.allocator) r
  unfolding copy_construct copy_with
  copy_construct-Copied fuel other h xs holds fits enough =
      let allocator = traits.select_on_container_copy_construction other.allocator in
      let ((r, g), run, fills) =
        fill_from-Fills copied_value-Takes h xs (traits.new_node allocator) (fresh allocator) fuel
          other.nodes holds fits enough in
      (
        (constructed traits allocator r, g),
        rw run refl,
        constructed-Copied h xs allocator r g fills,
      )

  copy_swapped-CopyAssigned :
      (fuel this : ℕ) (s : Store A Alloc) (ys xs : List (ℕ × A))
      → Holds s.heap (s.objects this).nodes ys
      → length ys < fuel
      → (r : Outcome Handle × Heap A) → Fills ◌≡◌ s.heap xs r
      → (t : Outcome ℕ × Store A Alloc) × (copy_swapped traits fuel this s r ≡ some t)
        × CopyAssigned this ys xs s t
  unfolding copy_swapped
  copy_swapped-CopyAssigned fuel this s ys xs holds enough (thrown e, g) beside =
      (_, refl, (λ b. refl, λ b. sym (beside.touched b refl)))
  copy_swapped-CopyAssigned fuel this s ys xs holds enough (returned copy, g)
        (ds, beside, same, _) =
      let old_new = new-Apart s.heap (s.objects this).nodes ys ds beside.new holds in
      let new_old : Apart ds ys = λ b i. elim (Bool-cases (has b ys)) [
        | inl old ↦ absurd (ground (arith, i, old_new b old))
        | inr not_old ↦ not_old
      ] in
      let still =
        Holds-agree s.heap g (s.objects this).nodes ys (λ b i. sym (beside.touched b (old_new b i)))
          holds in
      let (f, run, freed) = clear-Freed fuel (s.objects this).nodes g ys still enough in
      (
        (returned this, record (put_nodes this copy s) { heap = f }),
        rw run refl,
        (
          ds,
          refl,
          subst (λ l. Holds f l ds) (ground arith)
              (Freed-Holds g f copy ds ys freed new_old beside.list),
          same,
          ground arith,
          λ b ne. ground (arith, ne),
          freed.inside,
          λ b out o. freed.outside b out ∙ sym (beside.touched b o),
          beside.new,
        ),
      )

  -- With more fuel than nodes and an allocator that hands out free addresses, the copy assignment to
  -- another object ends with the values of the other list in new nodes, the old nodes given back and
  -- all else as it was; or with an exception and everything as it was.
  pub copy_assign-CopyAssigned :
      (fuel this other : ℕ) (s : Store A Alloc) (ys xs : List (ℕ × A))
      → this ≢ other
      → Holds s.heap (s.objects this).nodes ys
      → Holds s.heap (s.objects other).nodes xs
      → length xs < word_mod
      → length xs < fuel
      → length ys < fuel
      → (t : Outcome ℕ × Store A Alloc) × (copy_assign traits fuel this other s ≡ some t)
        × CopyAssigned this ys xs s t
  unfolding copy_assign copy_with
  copy_assign-CopyAssigned fuel this other s ys xs different mine theirs fits enough enough_mine =
      let allocator = (s.objects this).allocator in
      let (r, run, fills) =
        fill_from-Fills copied_value-Takes s.heap xs (traits.new_node allocator) (fresh allocator)
          fuel (s.objects other).nodes theirs fits enough in
      let (t, end, assigned) =
        copy_swapped-CopyAssigned fuel this s ys xs mine enough_mine r fills in
      let other_object : (this == other) ≡ false = ground (arith, different) in
      (t, rw (other_object, run) end, assigned)
