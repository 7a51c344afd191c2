-- ===== src/Examples/Lists.antt =====
-- Instances for the list of nodes.
use mathlib.Core.Option
use doost.Base.{
  returned, thrown, bad_alloc, ◌==◌, ℕ, ◌≡◌, refl, arith, if◌then◌else◌, List, [], ◌∷◌, Option,
  none, some, Outcome, false,
}
use doost.NodeList.{Node, Heap, Handle, Answer, made, no_memory, emplace_front, clear}
use doost.NodeList.Cells.{Holds, Fresh}
use doost.NodeList.Objects.{Traits, Object, Store, copy_construct, copy_assign, move_assign}
use doost.NodeList.CopyObjects.{
  Copied, copy_construct-Copied, CopyAssigned, copy_assign-CopyAssigned,
}
use doost.NodeList.MoveObjects.{MoveAssigned}
use doost.NodeList.MoveAssign.{move_assign-MoveAssigned}
use doost.NodeList.Programs.{
  Operation, emplace, pop, clear_all, copy_to, move_to, perform_all, no_lists,
}
use doost.NodeList.Filling.{values}
use doost.NodeList.Contents.{DescribedAll}
use doost.NodeList.Owned.{Owned}
use doost.NodeList.NoLeaks.{perform_all-Owned}
use doost.NodeList.Iterators.{begin, const_begin}
use doost.NodeList.Traversal.{At, incremented, const_incremented, incremented-begin}

-- One node at 16 with the value 7.
abbrev one_node : Heap ℕ
one_node a = if a == 16 then some (record { next = 0; value = 7 }) else none

abbrev list : Handle
list = record { head = 16; size = 1 }

abbrev seven : List (ℕ × ℕ)
seven = (16, 7) ∷ []

list-Holds : Holds one_node list seven
list-Holds = ((0, refl, ground arith, refl, refl, refl), refl)

-- An allocator with one node, at 32.
abbrev answer : Option (Node ℕ) → Answer
answer none = made 32
answer (some n) = no_memory

abbrev traits : Traits ℕ ℕ
traits = record {
  new_node = λ _ h. answer (h 32);
  select_on_container_copy_construction = λ a. a;
  equal = λ a b. a == b;
  propagate_on_container_move_assignment = false;
  moved_from = λ a. a;
  left = λ _. 0;
  lost = λ _. 0;
}

answer-Fresh : (h : Heap ℕ) (o : Option (Node ℕ)) → h 32 ≡ o → Fresh h (answer o)
answer-Fresh h none e = (ground arith, e)
answer-Fresh h (some n) e = tt

traits-Fresh : (a : ℕ) (h : Heap ℕ) → Fresh h (traits.new_node a h)
traits-Fresh a h = answer-Fresh h (h 32) refl

-- Two lists, the one at 1 with the node at 16 and the one at 2 with the node at 64.
abbrev two_nodes : Heap ℕ
two_nodes a = if a == 64 then some (record { next = 0; value = 9 }) else one_node a

abbrev two_lists : Store ℕ ℕ
two_lists = record {
  objects = λ b.
      if b == 1
      then record { nodes = list; allocator = 1 }
      else record { nodes = record { head = 64; size = 1 }; allocator = 2 };
  heap = two_nodes;
}

abbrev nine : List (ℕ × ℕ)
nine = (64, 9) ∷ []

mine-Holds : Holds two_nodes list seven
mine-Holds = ((0, refl, ground arith, refl, refl, refl), refl)

theirs-Holds : Holds two_nodes (record { head = 64; size = 1 }) nine
theirs-Holds = ((0, refl, ground arith, refl, refl, refl), refl)

copy_construct-Copied_example :
    (r : Outcome (Object ℕ) × Heap ℕ) × (copy_construct traits 2
        (record { nodes = list; allocator = 1 })
        one_node
      ≡ some r)
    × Copied one_node seven 1 r
copy_construct-Copied_example =
    copy_construct-Copied traits traits-Fresh 2 (record { nodes = list; allocator = 1 }) one_node
      seven list-Holds (omega arith) (omega arith)

copy_assign-CopyAssigned_example :
    (t : Outcome ℕ × Store ℕ ℕ) × (copy_assign traits 2 1 2 two_lists ≡ some t)
    × CopyAssigned 1 seven nine two_lists t
copy_assign-CopyAssigned_example =
    copy_assign-CopyAssigned traits traits-Fresh 2 1 2 two_lists seven nine (ground arith)
      mine-Holds theirs-Holds (omega arith) (omega arith) (omega arith)

move_assign-MoveAssigned_example :
    (t : Outcome ℕ × Store ℕ ℕ) × (move_assign traits 2 1 2 two_lists ≡ some t)
    × MoveAssigned traits 1 2 seven nine two_lists t
move_assign-MoveAssigned_example =
    move_assign-MoveAssigned traits traits-Fresh 2 1 2 two_lists seven nine (ground arith)
      mine-Holds theirs-Holds (λ b i. ground (arith, i)) (omega arith) (omega arith) (omega arith)

incremented-begin_example :
    At one_node list
      (incremented one_node 0 (begin list))
      (const_incremented one_node 0 (const_begin list))
      (some 7)
incremented-begin_example = incremented-begin one_node 0 list seven list-Holds (omega arith)

-- The copy finds no memory, the move takes the node.
abbrev program : List (Operation ℕ)
program = emplace 1 7 ∷ copy_to 2 1 ∷ move_to 3 1 ∷ pop 3 ∷ clear_all 1 ∷ []

perform_all-Owned_example :
    (answers : List (Outcome ℕ)) × (t : Store ℕ ℕ) × (cells : ℕ → List (ℕ × ℕ)) × (perform_all
        traits 5 program
        (no_lists (λ o. 0))
      ≡ some (answers, t))
    × Owned t cells
    × DescribedAll program answers (λ u. []) (λ u. values (cells u))
perform_all-Owned_example =
    perform_all-Owned traits traits-Fresh 5 program (λ o. 0) (omega arith) (omega arith)

program_answers :
    Option.map (λ r. r.0) (perform_all traits 5 program (no_lists (λ o. 0)))
    ≡ some (returned 1 ∷ thrown bad_alloc ∷ returned 3 ∷ returned 3 ∷ returned 1 ∷ [])
unfolding perform_all doost.NodeList.Programs.perform copy_assign doost.NodeList.Copy.fill_from
    doost.NodeList.Programs.emplace_at emplace_front clear move_assign
    doost.NodeList.Programs.clear_at doost.NodeList.Programs.pop_at doost.NodeList.pop_front
program_answers = refl
