-- ===== src/NodeList/Iterators.antt =====
-- include/doost/list.hpp: iterator and const_iterator, which are pointers to nodes, and the begin and
-- end of a List.
use doost.Base.{ℕ, Bool, not, ◌==◌, Option, none, some}
use doost.NodeList.{Node, Heap, Handle, next_of}

pub record Iterator : Type 0 where
  pub node : ℕ

pub record ConstIterator : Type 0 where
  pub node : ℕ

-- The null pointer.
abbrev pub no_node : Iterator
no_node = record { node = 0 }

abbrev pub no_const_node : ConstIterator
no_const_node = record { node = 0 }

-- const_iterator(iterator)
abbrev pub to_const : Iterator → ConstIterator
to_const it = record { node = it.node }

abbrev pub equal : Iterator → Iterator → Bool
equal lhs rhs = lhs.node == rhs.node

abbrev pub unequal : Iterator → Iterator → Bool
unequal lhs rhs = not (equal lhs rhs)

abbrev pub const_equal : ConstIterator → ConstIterator → Bool
const_equal lhs rhs = lhs.node == rhs.node

abbrev pub const_unequal : ConstIterator → ConstIterator → Bool
const_unequal lhs rhs = not (const_equal lhs rhs)

-- iterator(Node*), const_iterator(const Node*)
abbrev pub at_node : ℕ → Iterator
at_node node = record { node = node }

abbrev pub at_const_node : ℕ → ConstIterator
at_const_node node = record { node = node }

abbrev pub begin : Handle → Iterator
begin l = at_node l.head

abbrev pub size : Handle → ℕ
size l = l.size

abbrev pub end : Handle → Iterator
end l = no_node

abbrev pub const_begin : Handle → ConstIterator
const_begin l = at_const_node l.head

abbrev pub const_end : Handle → ConstIterator
const_end l = no_const_node

-- `none` is a read where there is no node.
abbrev pub node_value {ℓ} : {A : Type ℓ} → Option (Node A) → Option A
node_value none = none
node_value (some n) = some n.value

module _ {ℓ} {A : Type ℓ} (h : Heap A) where
  -- operator*
  unfoldable pub deref : Iterator → Option A
  deref it = node_value (h it.node)

  -- operator->, by the value that it leads to.
  unfoldable pub arrow : Iterator → Option A
  arrow it = node_value (h it.node)

  -- operator++()
  unfoldable pub increment : Iterator → Iterator
  increment it = record { node = next_of h it.node }

  -- operator++(int): what it returns, and the iterator afterwards.
  abbrev pub post_increment : Iterator → Iterator × Iterator
  post_increment it = (it, increment it)

  unfoldable pub const_deref : ConstIterator → Option A
  const_deref it = node_value (h it.node)

  unfoldable pub const_arrow : ConstIterator → Option A
  const_arrow it = node_value (h it.node)

  unfoldable pub const_increment : ConstIterator → ConstIterator
  const_increment it = record { node = next_of h it.node }

  abbrev pub const_post_increment : ConstIterator → ConstIterator × ConstIterator
  const_post_increment it = (it, const_increment it)

  -- front
  abbrev pub front : Handle → Option A
  front l = node_value (h l.head)
