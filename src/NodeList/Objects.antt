-- ===== src/NodeList/Objects.antt =====
-- include/doost/list.hpp: List objects with their allocators, by the addresses of the objects; the
-- constructors, the assignments and the destructor.
use doost.Base.{ℕ, Bool, if◌then◌else◌, ◌==◌, Option, some, ◌>>=◌, Outcome, returned, thrown}
use doost.NodeList.{Heap, Handle, Answer, clear, steal_nodes_from, swap_nodes}
use doost.NodeList.Copy.{no_nodes, copied_value, moved_value, fill_from}

-- What List takes from std::allocator_traits and its allocator, and what a move leaves of an element
-- and of an allocator, and of an element whose move constructor has thrown.
pub record Traits (A Alloc : Type 0) : Type 0 where
  pub new_node : Alloc → Heap A → Answer
  pub select_on_container_copy_construction : Alloc → Alloc
  pub equal : Alloc → Alloc → Bool
  pub propagate_on_container_move_assignment : Bool
  pub moved_from : Alloc → Alloc
  pub left : A → A
  pub lost : A → A

pub record Object (Alloc : Type 0) : Type 0 where
  pub nodes : Handle
  pub allocator : Alloc

abbrev pub get_allocator : {Alloc : Type 0} → Object Alloc → Alloc
get_allocator o = o.allocator

pub record Store (A Alloc : Type 0) : Type 0 where
  pub objects : ℕ → Object Alloc
  pub heap : Heap A

module _ {A Alloc : Type 0} where
  abbrev pub put_object : ℕ → Object Alloc → Store A Alloc → Store A Alloc
  put_object this o s = record s { objects = λ b. if b == this then o else s.objects b }

  abbrev pub put_nodes : ℕ → Handle → Store A Alloc → Store A Alloc
  put_nodes this l s = put_object this (record (s.objects this) { nodes = l }) s

  -- clear on the object, and so its destructor.
  unfoldable pub clear_object : (fuel this : ℕ) → Store A Alloc → Option (Store A Alloc)
  clear_object fuel this s = do
    (l, g) ← clear fuel (s.objects this).nodes s.heap
    some (record (put_nodes this l s) { heap = g })

  abbrev pub stolen : (this other : ℕ) → Store A Alloc → Store A Alloc
  stolen this other s =
      let (mine, theirs) = steal_nodes_from (s.objects this).nodes (s.objects other).nodes in
      put_nodes other theirs (put_nodes this mine s)

module _ {A Alloc : Type 0} (traits : Traits A Alloc) where
  -- List(const List&, const Allocator&)
  unfoldable pub copy_with : (fuel : ℕ) → Handle → Alloc → Heap A → Option (Outcome Handle × Heap A)
  copy_with fuel other allocator h = fill_from (traits.new_node allocator) copied_value fuel other h

  abbrev pub constructed : Alloc → Outcome Handle → Outcome (Object Alloc)
  constructed allocator (returned l) = returned (record { nodes = l; allocator = allocator })
  constructed allocator (thrown e) = thrown e

  -- List(const List&)
  unfoldable pub copy_construct :
      (fuel : ℕ) → Object Alloc → Heap A → Option (Outcome (Object Alloc) × Heap A)
  unfolding copy_with
  copy_construct fuel other h = do
    let allocator = traits.select_on_container_copy_construction other.allocator
    (r, g) ← copy_with fuel other.nodes allocator h
    some (constructed allocator r, g)

  -- List(List&&): the new object, and the other one as it is left.
  abbrev pub move_construct : Object Alloc → Object Alloc × Object Alloc
  move_construct other =
      (other, record { nodes = no_nodes; allocator = traits.moved_from other.allocator })

  -- After `List copy(other, get_allocator())`: `swap_nodes(copy)`, and the end of `copy`.
  unfoldable pub copy_swapped :
      (fuel this : ℕ) → Store A Alloc → Outcome Handle × Heap A → Option (Outcome ℕ × Store A Alloc)
  copy_swapped fuel this s (thrown e, g) = some (thrown e, record s { heap = g })
  copy_swapped fuel this s (returned copy, g) = do
    let (mine, theirs) = swap_nodes (s.objects this).nodes copy
    (_, f) ← clear fuel theirs g
    some (returned this, record (put_nodes this mine s) { heap = f })

  -- operator=(const List&), which returns the object at the address.
  unfoldable pub copy_assign :
      (fuel this other : ℕ) → Store A Alloc → Option (Outcome ℕ × Store A Alloc)
  unfolding copy_with copy_swapped
  copy_assign fuel this other s = if this == other then some (returned this, s) else (do
    copy ← copy_with fuel (s.objects other).nodes (get_allocator (s.objects this)) s.heap
    copy_swapped fuel this s copy)

  -- `allocator_ = std::move(other.allocator_)`
  abbrev pub propagated : (this other : ℕ) → Store A Alloc → Store A Alloc
  propagated this other s =
      let there = s.objects other in
      put_object other (record there { allocator = traits.moved_from there.allocator })
        (put_object this (record (s.objects this) { allocator = there.allocator }) s)

  -- The allocator moves with the nodes.
  unfoldable pub move_propagated :
      (fuel this other : ℕ) → Store A Alloc → Option (Outcome ℕ × Store A Alloc)
  unfolding clear_object
  move_propagated fuel this other s = do
    c ← clear_object fuel this s
    some (returned this, stolen this other (propagated this other c))

  -- Equal allocators: only the nodes move.
  unfoldable pub move_nodes :
      (fuel this other : ℕ) → Store A Alloc → Option (Outcome ℕ × Store A Alloc)
  unfolding clear_object
  move_nodes fuel this other s = do
    c ← clear_object fuel this s
    some (returned this, stolen this other c)

  -- After `moved.move_values_from(other)`: `clear()`, `swap_nodes(moved)`, `other.clear()`, and the end
  -- of `moved`.
  unfoldable pub moved_swapped :
      (fuel this other : ℕ)
      → Store A Alloc
      → Outcome Handle × Heap A
      → Option (Outcome ℕ × Store A Alloc)
  unfolding clear_object
  moved_swapped fuel this other s (thrown e, g) = some (thrown e, record s { heap = g })
  moved_swapped fuel this other s (returned moved, g) = do
    c ← clear_object fuel this (record s { heap = g })
    let (mine, theirs) = swap_nodes (c.objects this).nodes moved
    d ← clear_object fuel other (put_nodes this mine c)
    (_, f) ← clear fuel theirs d.heap
    some (returned this, record d { heap = f })

  -- Different allocators: the values move into new nodes.
  unfoldable pub move_values :
      (fuel this other : ℕ) → Store A Alloc → Option (Outcome ℕ × Store A Alloc)
  unfolding moved_swapped
  move_values fuel this other s = do
    moved ←
        fill_from (traits.new_node (s.objects this).allocator) (moved_value traits.left traits.lost)
          fuel (s.objects other).nodes s.heap
    moved_swapped fuel this other s moved

  -- operator=(List&&)
  unfoldable pub move_assign :
      (fuel this other : ℕ) → Store A Alloc → Option (Outcome ℕ × Store A Alloc)
  unfolding move_propagated move_nodes move_values
  move_assign fuel this other s =
      if this == other
      then some (returned this, s)
      else if traits.propagate_on_container_move_assignment
      then move_propagated fuel this other s
      else if traits.equal (s.objects this).allocator (s.objects other).allocator
      then move_nodes fuel this other s
      else move_values fuel this other s
