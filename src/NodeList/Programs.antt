-- ===== src/NodeList/Programs.antt =====
-- Programs that use List objects: include/doost/list.hpp, one operation after the other.
use doost.Base.{ℕ, List, [], ◌∷◌, Option, none, some, ◌>>=◌, Outcome, returned, thrown}
use doost.NodeList.{Heap, Handle, emplace_front, pop_front}
use doost.NodeList.Copy.{no_nodes}
use doost.NodeList.Objects.{Traits, Store, put_nodes, clear_object, copy_assign, move_assign}

pub data Operation (A : Type 0) : Type 0 where
  emplace : (this : ℕ) → A → Operation A
  pop : (this : ℕ) → Operation A
  clear_all : (this : ℕ) → Operation A
  copy_to : (this other : ℕ) → Operation A
  move_to : (this other : ℕ) → Operation A

module _ {A Alloc : Type 0} where
  -- The store after an operation at the front, which leaves the object as it was where it throws.
  abbrev pub at_front :
      (this : ℕ) → Store A Alloc → Outcome Handle × Heap A → Outcome ℕ × Store A Alloc
  at_front this s (returned l, h) = (returned this, record (put_nodes this l s) { heap = h })
  at_front this s (thrown e, h) = (thrown e, record s { heap = h })

  unfoldable pub emplace_at :
      Traits A Alloc → (this : ℕ) → A → Store A Alloc → Outcome ℕ × Store A Alloc
  emplace_at traits this x s =
      let o = s.objects this in
      at_front this s (emplace_front (traits.new_node o.allocator s.heap) x o.nodes s.heap)

  unfoldable pub pop_at : (this : ℕ) → Store A Alloc → Outcome ℕ × Store A Alloc
  pop_at this s = at_front this s (pop_front (s.objects this).nodes s.heap)

  unfoldable pub clear_at : (fuel this : ℕ) → Store A Alloc → Option (Outcome ℕ × Store A Alloc)
  clear_at fuel this s = do t ← clear_object fuel this s; some (returned this, t)

  unfoldable pub perform :
      Traits A Alloc → (fuel : ℕ) → Operation A → Store A Alloc → Option (Outcome ℕ × Store A Alloc)
  perform traits fuel (emplace this x) s = some (emplace_at traits this x s)
  perform traits fuel (pop this) s = some (pop_at this s)
  perform traits fuel (clear_all this) s = clear_at fuel this s
  perform traits fuel (copy_to this other) s = copy_assign traits fuel this other s
  perform traits fuel (move_to this other) s = move_assign traits fuel this other s

  -- A program that catches every exception and goes on; it collects the answers.
  unfoldable pub perform_all :
      Traits A Alloc
      → (fuel : ℕ) → List (Operation A)
      → Store A Alloc
      → Option (List (Outcome ℕ) × Store A Alloc)
  perform_all traits fuel [] s = some ([], s)
  perform_all traits fuel (o ∷ os) s = do
    (answer, t) ← perform traits fuel o s
    (answers, u) ← perform_all traits fuel os t
    some (answer ∷ answers, u)

  -- No node is there, and every object is an empty list.
  abbrev pub no_lists : (ℕ → Alloc) → Store A Alloc
  no_lists allocators = record {
    objects = λ o. record { nodes = no_nodes; allocator = allocators o };
    heap = λ b. none;
  }
