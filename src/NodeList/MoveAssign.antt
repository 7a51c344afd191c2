-- ===== src/NodeList/MoveAssign.antt =====
-- operator=(List&&): what it leaves, whichever way it takes.
use doost.Base.{
  ℕ, ◌<◌, ◌≡◌, ◌≢◌, refl, Bool, true, false, ◌==◌, arith, List, length, some, if◌then◌else◌,
  Outcome, returned, thrown,
}
use doost.Word.{word_mod}
use doost.NodeList.{Heap, Handle}
use doost.NodeList.Cells.{Holds, Fresh}
use doost.NodeList.Copied.{Emptied, Fills, fill_from-Fills, moved_value-Takes}
use doost.NodeList.Apart.{Apart}
use doost.NodeList.Objects.{Traits, Store, moved_swapped, move_values, move_assign}
use doost.NodeList.MoveObjects.{
  MoveAssigned, EndsWith, move_propagated-Moved, move_nodes-Moved, moved_swapped-Moved,
}

-- What holds of each of three ways holds of the one that is taken between different objects.
any_way :
    {X : Type 0} (P : X → Type 0) (same propagates equal : Bool) (d : X) {a b c : X}
    → same ≡ false
    → (propagates ≡ true → P a)
    → (propagates ≡ false → P b)
    → (propagates ≡ false → P c)
    → P (if same then d else if propagates then a else if equal then b else c)
any_way P true propagates equal d n p q r = cc
any_way P false true equal d n p q r = p refl
any_way P false false true d n p q r = q refl
any_way P false false false d n p q r = r refl

module _ {A Alloc : Type 0} (traits : Traits A Alloc)
    (fresh : (a : Alloc) (h : Heap A) → Fresh h (traits.new_node a h)) (fuel this other : ℕ)
    (s : Store A Alloc) (ys xs : List (ℕ × A)) (different : this ≢ other)
    (mine : Holds s.heap (s.objects this).nodes ys)
    (theirs : Holds s.heap (s.objects other).nodes xs) (apart : Apart ys xs)
    (fits : length xs < word_mod) (enough : length xs < fuel) (enough_mine : length ys < fuel) where
  moved_swapped-MoveAssigned :
      traits.propagate_on_container_move_assignment ≡ false
      → (r : Outcome Handle × Heap A) → Fills Emptied s.heap xs r
      → (t : Outcome ℕ × Store A Alloc) × (moved_swapped traits fuel this other s r ≡ some t)
        × MoveAssigned traits this other ys xs s t
  unfolding moved_swapped EndsWith
  moved_swapped-MoveAssigned stays (thrown e, g) beside = (
    (thrown e, record s { heap = g }),
    refl,
    (λ b. refl, λ b. beside.touched b refl, λ b o. beside.outside b refl o),
  )
  moved_swapped-MoveAssigned stays (returned moved, g) (ds, beside, same, _) =
      moved_swapped-Moved traits fuel this other s ys xs different mine theirs apart enough_mine g
        moved ds beside stays enough same

  move_values-MoveAssigned :
      traits.propagate_on_container_move_assignment ≡ false
      → (t : Outcome ℕ × Store A Alloc) × (move_values traits fuel this other s ≡ some t)
        × MoveAssigned traits this other ys xs s t
  unfolding move_values
  move_values-MoveAssigned stays =
      let allocator = (s.objects this).allocator in
      let (r, run, fills) =
        fill_from-Fills (moved_value-Takes traits.left traits.lost) s.heap xs
          (traits.new_node allocator) (fresh allocator) fuel (s.objects other).nodes theirs fits
          enough in
      let (t, end, moved) = moved_swapped-MoveAssigned stays r fills in (t, rw run end, moved)

  -- With more fuel than nodes and an allocator that hands out free addresses, the move assignment from
  -- another list with other nodes ends, whichever of its three ways it takes: the object holds the values
  -- of the other list in the same order and the allocator that the trait tells, the other list is empty,
  -- and of the nodes of both those that do not hold the values now are given back. Where it throws, both
  -- objects and all nodes are as they were but for values in the nodes of the other list.
  pub move_assign-MoveAssigned :
      (t : Outcome ℕ × Store A Alloc) × (move_assign traits fuel this other s ≡ some t)
      × MoveAssigned traits this other ys xs s t
  unfolding move_assign EndsWith
  move_assign-MoveAssigned =
      any_way
        (λ o.
          (t : Outcome ℕ × Store A Alloc) × (o ≡ some t) × MoveAssigned traits this other ys xs s t)
        (this == other) traits.propagate_on_container_move_assignment
        (traits.equal (s.objects this).allocator (s.objects other).allocator)
        (some (returned this, s)) (ground (arith, different))
        (move_propagated-Moved traits fuel this other s ys xs different mine theirs apart
          enough_mine)
        (move_nodes-Moved traits fuel this other s ys xs different mine theirs apart enough_mine)
        move_values-MoveAssigned
