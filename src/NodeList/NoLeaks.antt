-- ===== src/NodeList/NoLeaks.antt =====
-- Programs of operations on List objects, run from empty lists.
use doost.Base.{ℕ, suc, ◌+◌, ◌<◌, ◌≤◌, ◌≡◌, refl, subst, arith, List, [], ◌∷◌, length, some, inr}
use doost.Word.{word_mod}
use doost.NodeList.{Heap}
use doost.NodeList.Cells.{Fresh}
use doost.NodeList.Objects.{Traits, Store}
use doost.NodeList.Owned.{Owned}
use doost.NodeList.Steps.{Kept}
use doost.NodeList.Filling.{values}
use doost.NodeList.Contents.{Contents, DescribedAll}
use doost.Base.{Option, Outcome}
use doost.NodeList.Ends.{perform-Ends}
use doost.NodeList.Programs.{Operation, perform_all, no_lists}

abbrev no_lists-Kept :
    (A : Type 0) {Alloc : Type 0} (allocators : ℕ → Alloc) → Kept {A = A} 0 (no_lists allocators)
no_lists-Kept A allocators = record {
  cells = λ o. [];
  owned = record { holds = λ o. (refl, refl); apart = λ o u ne b i. refl; owned = λ b. inr refl };
  bounded = λ o. omega arith;
}

module _ {A Alloc : Type 0} (traits : Traits A Alloc)
    (fresh : (a : Alloc) (h : Heap A) → Fresh h (traits.new_node a h)) (fuel : ℕ) where
  -- How a program ends.
  abbrev ProgramEnds :
      (program : List (Operation A)) (k : ℕ) (f : Contents A)
      → Option (List (Outcome ℕ) × Store A Alloc)
      → Type 0
  ProgramEnds program k f result =
      (answers : List (Outcome ℕ)) × (t : Store A Alloc) × (kept : Kept k t) × (result
        ≡ some (answers, t))
      × DescribedAll program answers f (λ u. values (kept.cells u))

  perform_all-Ends :
      (program : List (Operation A)) (k : ℕ) (s : Store A Alloc)
      → (kept : Kept k s) → k + length program ≤ fuel
      → k + length program < word_mod
      → ProgramEnds program
          (k + length program)
          (λ u. values (kept.cells u))
          (perform_all traits fuel program s)
  unfolding perform_all DescribedAll
  perform_all-Ends [] k s kept enough small =
      subst (λ n. ProgramEnds [] n (λ u. values (kept.cells u)) (some ([], s))) (omega arith)
        ([], s, kept, refl, λ u. refl)
  perform_all-Ends (o ∷ program) k s kept enough small =
      let ((answer, t), run, (after, one)) =
        perform-Ends k s kept.cells kept.owned kept.bounded traits fresh fuel
          (omega (arith, enough)) (omega (arith, small)) o in
      let (answers, u, last, end, rest) =
        perform_all-Ends program (suc k) t after (omega (arith, enough)) (omega (arith, small)) in
      subst
        (λ n.
          ProgramEnds (o ∷ program) n (λ u. values (kept.cells u))
            (perform_all traits fuel (o ∷ program) s))
        (omega arith)
        (answer ∷ answers, u, last, rw (run, end) refl, ((λ v. values (after.cells v)), one, rest))

  -- A program of operations on List objects, run from empty lists with an allocator that hands out free
  -- addresses and with at least as much fuel as operations, of which there are fewer than 2 ^ 64, ends.
  -- Then every node belongs to exactly one of the lists, whichever operations have thrown, each list has
  -- the nodes and the size of its cells, and its values are what the operations say, one after the other:
  -- an operation sets the lists it names and no other.
  pub perform_all-Owned :
      (program : List (Operation A)) (allocators : ℕ → Alloc)
      → length program ≤ fuel
      → length program < word_mod
      → (answers : List (Outcome ℕ)) × (t : Store A Alloc) × (cells : ℕ → List (ℕ × A))
        × (perform_all traits fuel program (no_lists allocators) ≡ some (answers, t))
        × Owned t cells
        × DescribedAll program answers (λ u. []) (λ u. values (cells u))
  perform_all-Owned program allocators enough small =
      let (answers, t, kept, run, described) =
        perform_all-Ends program 0 (no_lists allocators) (no_lists-Kept A allocators)
          (omega (arith, enough)) (omega (arith, small)) in
      (answers, t, kept.cells, run, kept.owned, described)
