-- ===== src/NodeList/Copy.antt =====
-- include/doost/list.hpp: copy_from and move_values_from of List. `new_node` is the allocator with the
-- element's constructor, which answer by the nodes that are allocated.
use doost.Base.{
  ℕ, zero, suc, Bool, true, false, if◌then◌else◌, ◌==◌, Option, none, some, Outcome, returned,
  thrown, Exception,
}
use doost.Word.{add_word}
use doost.NodeList.{
  Node, Heap, Handle, Answer, made, no_memory, element_throws, put_node, create_node, next_of,
  clear,
}

abbrev pub no_nodes : Handle
no_nodes = record { head = 0; size = 0 }

-- The variables of the loop; `tail` is the node whose `next` is written, none for `head_`.
pub record Cursor {ℓ} (A : Type ℓ) : Type ℓ where
  pub source : ℕ
  pub list : Handle
  pub tail : Option ℕ
  pub heap : Heap A

-- A round goes on, or the loop is left, by an exception or at the end; `faults` reads a node that is
-- not there.
pub data Round {ℓ} (A : Type ℓ) : Type ℓ where
  goes_on : Cursor A → Round A
  leaves : Option Exception → Cursor A → Round A
  faults : Round A

-- What a construction from the value of a node does to that value, and whether it has thrown: a copy
-- leaves it, a move puts what the element's move constructor leaves there.
abbrev pub Taking {ℓ} : Type ℓ → Type ℓ
Taking A = (throws : Bool) (source : ℕ) → Heap A → Heap A

module _ {ℓ} {A : Type ℓ} where
  abbrev pub copied_value : Taking A
  copied_value throws source h = h

  -- `*tail = a`
  abbrev pub relinked : ℕ → ℕ → Option (Node A) → Heap A → Heap A
  relinked t a none h = h
  relinked t a (some n) h = put_node t (some (record n { next = a })) h

  abbrev pub put_value : ℕ → (A → A) → Option (Node A) → Heap A → Heap A
  put_value source f none h = h
  put_value source f (some n) h = put_node source (some (record n { value = f n.value })) h

  abbrev pub moved_value : (left lost : A → A) → Taking A
  moved_value left lost true source h = put_value source lost (h source) h
  moved_value left lost false source h = put_value source left (h source) h

  unfoldable pub set_tail : Option ℕ → ℕ → Handle → Heap A → Handle × Heap A
  set_tail none a l h = (record l { head = a }, h)
  set_tail (some t) a l h = (l, relinked t a (h t) h)

  -- After the node has been made: `*tail = copy; tail = &copy->next; ++size_` and the next source.
  unfoldable pub advance : ℕ → Handle × Heap A → Cursor A → Cursor A
  advance a (l, h) c = record {
    source = next_of h c.source;
    list = record l { size = add_word l.size 1 };
    tail = some a;
    heap = h;
  }

module _ {ℓ} {A : Type ℓ} where
  -- `none` is a loop without an end within the fuel, or a fault.
  abbrev pub after_round :
      (Cursor A → Option (Option Exception × Cursor A))
      → Round A
      → Option (Option Exception × Cursor A)
  after_round later (goes_on c) = later c
  after_round later (leaves e c) = some (e, c)
  after_round later faults = none

  abbrev pub start : (source : ℕ) → Heap A → Cursor A
  start source h = record { source = source; list = no_nodes; tail = none; heap = h }

  abbrev pub give_up : Exception → Option (Handle × Heap A) → Option (Outcome Handle × Heap A)
  give_up e none = none
  give_up e (some (l, h)) = some (thrown e, h)

  -- `catch (...) { clear(); throw; }`
  unfoldable pub settle :
      ℕ → Option (Option Exception × Cursor A) → Option (Outcome Handle × Heap A)
  settle fuel none = none
  settle fuel (some (none, c)) = some (returned c.list, c.heap)
  settle fuel (some (some e, c)) = give_up e (clear fuel c.list c.heap)

module _ {ℓ} {A : Type ℓ} (new_node : Heap A → Answer) (take : Taking A) where
  unfoldable pub linked : Cursor A → Outcome ℕ × Heap A → Round A
  unfolding set_tail advance
  linked c (thrown e, h) = leaves (some e) (record c { heap = h })
  linked c (returned a, h) = goes_on (advance a (set_tail c.tail a c.list h) c)

  -- The value is taken while the node is made; without memory no constructor runs.
  unfoldable pub taken : ℕ → Outcome ℕ × Heap A → Answer → Outcome ℕ × Heap A
  taken source (r, h) (made _) = (r, take false source h)
  taken source (r, h) no_memory = (r, h)
  taken source (r, h) (element_throws _ _) = (r, take true source h)

  unfoldable pub visited : Cursor A → Option (Node A) → Round A
  unfolding create_node taken linked
  visited c none = faults
  visited c (some n) =
      let answer = new_node c.heap in
      linked c (taken c.source (create_node answer 0 n.value c.heap) answer)

  unfoldable pub round : Cursor A → Round A
  unfolding visited
  round c = if c.source == 0 then leaves none c else visited c (c.heap c.source)

  unfoldable pub rounds : ℕ → Cursor A → Option (Option Exception × Cursor A)
  rounds zero c = none
  rounds (suc fuel) c = after_round (rounds fuel) (round c)

  -- copy_from and move_values_from of an empty list, by what `take` does.
  unfoldable pub fill_from : (fuel : ℕ) (other : Handle) → Heap A → Option (Outcome Handle × Heap A)
  unfolding rounds round settle
  fill_from fuel other h = settle fuel (rounds fuel (start other.head h))
