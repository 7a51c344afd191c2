-- ===== src/NodeList.antt =====
-- include/doost/list.hpp: the class template List, a singly linked list of nodes from an allocator.
pub mod Cells
pub mod Clear
pub mod Required
pub mod Copy
pub mod Append
pub mod Filling
pub mod Rounds
pub mod Filled
pub mod Copied
pub mod Objects
pub mod Apart
pub mod CopyObjects
pub mod MoveObjects
pub mod MoveAssign
pub mod Programs
pub mod Contents
pub mod Owned
pub mod Steps
pub mod FrontSteps
pub mod Described
pub mod Done
pub mod Ends
pub mod NoLeaks
pub mod Iterators
pub mod Traversal
use doost.Base.{
  ℕ, zero, suc, ◌+◌, ◌-◌, ◌*◌, ◌/◌, Bool, if◌then◌else◌, ◌==◌, ltb, Option, none, some, Outcome,
  returned, thrown, length_error, out_of_range, bad_alloc, Exception,
}
use doost.Word.{word_mod, mul_word, add_word, sub_word}

-- List::required_storage; the size of a node is its argument.
unfoldable pub required_storage : (node_size node_count : ℕ) → Outcome ℕ
required_storage node_size node_count =
    if ltb ((word_mod - 1) / node_size) node_count
    then thrown length_error
    else returned (mul_word node_count node_size)

pub record Node {ℓ} (A : Type ℓ) : Type ℓ where
  pub next : ℕ
  pub value : A

-- The nodes that are allocated, by address.
abbrev pub Heap {ℓ} : Type ℓ → Type ℓ
Heap A = ℕ → Option (Node A)

-- A List object; the allocator is given to the functions that use it.
pub record Handle : Type 0 where
  pub head : ℕ
  pub size : ℕ

-- How the allocator and the constructor of the element answer a call of create_node.
pub data Answer : Type 0 where
  made : (address : ℕ) → Answer
  no_memory : Answer
  element_throws : (address : ℕ) → Exception → Answer

module _ {ℓ} {A : Type ℓ} where
  abbrev pub put_node : ℕ → Option (Node A) → Heap A → Heap A
  put_node a n h b = if b == a then n else h b

  -- The block of a node is in the heap from its allocation on, as the node that is made in it.
  abbrev pub allocate_node : ℕ → (next : ℕ) → A → Heap A → Heap A
  allocate_node a next x h = put_node a (some (record { next = next; value = x })) h

  abbrev pub destroy_node : ℕ → Heap A → Heap A
  destroy_node a h = put_node a none h

  -- Where the element throws, the block is given back.
  unfoldable pub create_node : Answer → (next : ℕ) → A → Heap A → Outcome ℕ × Heap A
  create_node (made a) next x h = (returned a, allocate_node a next x h)
  create_node no_memory next x h = (thrown bad_alloc, h)
  create_node (element_throws a e) next x h = (thrown e, destroy_node a (allocate_node a next x h))

  emplaced : Handle → Outcome ℕ × Heap A → Outcome Handle × Heap A
  emplaced l (returned a, h) = (returned (record { head = a; size = add_word l.size 1 }), h)
  emplaced l (thrown e, h) = (thrown e, h)

  unfoldable pub emplace_front : Answer → A → Handle → Heap A → Outcome Handle × Heap A
  unfolding create_node emplaced
  emplace_front answer x l h = emplaced l (create_node answer l.head x h)

  abbrev pub node_next : Option (Node A) → ℕ
  node_next none = 0
  node_next (some n) = n.next

  -- The `next` of a node; nothing is promised at another address.
  abbrev pub next_of : Heap A → ℕ → ℕ
  next_of h a = node_next (h a)

  unfoldable pub pop_front : Handle → Heap A → Outcome Handle × Heap A
  pop_front l h = if l.head == 0 then (thrown out_of_range, h) else (
    returned (record { head = next_of h l.head; size = sub_word l.size 1 }),
    destroy_node l.head h,
  )

  clear_nodes : (fuel head : ℕ) → Heap A → Option (Heap A)
  clear_nodes zero head h = none
  clear_nodes (suc fuel) head h =
      let rest = clear_nodes fuel (next_of h head) (destroy_node head h) in
      if head == 0 then some h else rest

  abbrev pub cleared : Option (Heap A) → Option (Handle × Heap A)
  cleared none = none
  cleared (some h) = some (record { head = 0; size = 0 }, h)

  -- `none` is a loop that has not come to its end with the fuel.
  unfoldable pub clear : (fuel : ℕ) → Handle → Heap A → Option (Handle × Heap A)
  unfolding clear_nodes
  clear fuel l h = cleared (clear_nodes fuel l.head h)

abbrev pub release_nodes : Handle → Handle
release_nodes l = record { head = 0; size = 0 }

abbrev pub empty : Handle → Bool
empty l = l.head == 0

-- What the two objects are afterwards: `this`, then `other`.
abbrev pub steal_nodes_from : (this other : Handle) → Handle × Handle
steal_nodes_from this other = (other, record { head = 0; size = 0 })

abbrev pub swap_nodes : (this other : Handle) → Handle × Handle
swap_nodes this other = (other, this)
