-- ===== src/Examples/Strings.antt =====
-- Instances for the strings.
use mathlib.Core.Option
use doost.Base.{
  ℕ, ap, subst, ◌≡◌, ◌≢◌, ◌==◌, ◌&&◌, ◌||◌, not, ◌++◌, if◌then◌else◌, ◌↔◌, refl, arith, true, false,
  List, [], ◌∷◌, Option, some, none, All,
}
use doost.String.{Store, attach, detach, swap, block_of, unique_bit}
use doost.String.Text.{print_escaped, parse_quoted, parse_quoted-print_escaped}
use doost.String.Ring.{Ring}
use doost.String.Operations.{unique, make_block, assign_copy, assign_move, assign_view}
use doost.String.Values.{value, assign_copy-value}
use doost.String.Detach.{live-detach}
use doost.String.Assign.{Given, Allocates, GivenOrThrown, own-Given, assign_view-value}
use doost.String.Programs.{
  no_strings, perform_all, chars_construction, copy_construction, view_assignment, move_assignment,
  resetting, Operation,
}
use doost.String.Texts.{Allowed, AnsweredAll, described_all}
use doost.String.Independent.{
  no_strings-Ring, perform_all-Texts, perform_all-Unique, perform_all-NoLeaks,
}
use doost.String.Compare.{equals, less, less-order}

abbrev hi : List ℕ
hi = 104 ∷ 105 ∷ []

-- The string at 16 has the block at 64.
abbrev one_string : Store
one_string = attach 16 64 (make_block 64 hi no_strings)

block_64 : Allocates no_strings 64
block_64 = record { not_null = ground arith; aligned = refl; unused = refl }

one_string-Given : Given 16 hi no_strings one_string
one_string-Given = own-Given no_strings no_strings-Ring 16 64 hi (ground arith) refl block_64

one_string-owns : block_of one_string 16 ≢ 0
unfolding attach
one_string-owns = ground arith

live-detach_example : (detach true 16 one_string).live 64 ≡ (
    one_string.live 64 && not (64 == block_of one_string 16 && unique_bit (one_string.tagged 16)))
live-detach_example = live-detach one_string true 16 64 one_string-Given.0

assign_copy-value_example :
    Ring (assign_copy true 32 16 one_string)
    × ((x : ℕ)
        → value (assign_copy true 32 16 one_string) x
          ≡ (if x == 32 then value one_string 16 else value one_string x))
assign_copy-value_example =
    assign_copy-value true one_string 32 16 one_string-Given.0 (ground arith)

-- An array that operator new[] puts at 128.
abbrev at_128 : ℕ → Option ℕ
at_128 _ = some 128

block_128 : (b : ℕ) → some 128 ≡ some b → Allocates no_strings b
block_128 b e =
    subst (Allocates no_strings) (ap (λ o. Option.get_or o 0) e)
      (record { not_null = ground arith; aligned = refl; unused = refl })

assign_view-value_example :
    GivenOrThrown 16 hi no_strings (some 128) (assign_view true at_128 16 32 hi no_strings)
assign_view-value_example =
    assign_view-value true at_128 no_strings 16 32 hi no_strings-Ring (ground arith) (ground arith)
      (ground arith) refl block_128

less-order_example :
    ((equals one_string 16 32 ≡ true) ↔ (value one_string 16 ≡ value one_string 32))
    × (less one_string 32 16 ≡ not (equals one_string 16 32 || less one_string 16 32))
    × (less one_string 16 48 ≡ true → less one_string 48 32 ≡ true → less one_string 16 32 ≡ true)
less-order_example = less-order one_string 16 48 32

parse_quoted-print_escaped_example :
    parse_quoted false (print_escaped (34 ∷ 10 ∷ []) ++ 34 ∷ 125 ∷ []) ≡ (34 ∷ 10 ∷ [], 125 ∷ [])
parse_quoted-print_escaped_example = parse_quoted-print_escaped (34 ∷ 10 ∷ []) (125 ∷ [])

-- operator new[] with memory for two arrays, at 64 and 128.
abbrev two_arrays : Store → ℕ → Option ℕ
two_arrays s _ = if s.live 64 then if s.live 128 then none else some 128 else some 64

two_arrays-Allocates : (s : Store) (n b : ℕ) → two_arrays s n ≡ some b → Allocates s b
two_arrays-Allocates s n b e = record {
  not_null = ground (arith, e);
  aligned = ground (arith, e);
  unused = ground (arith, e);
}

-- A copy of a text is assigned another text, the text moves on, and an assignment finds no memory.
abbrev sharing : List Operation
sharing =
    chars_construction 16 (some hi)
    ∷ copy_construction 24 16
    ∷ view_assignment 24 (66 ∷ [])
    ∷ view_assignment 32 (67 ∷ [])
    ∷ move_assignment 40 16
    ∷ resetting 24
    ∷ []

sharing-Allowed : All (Allowed 8) sharing
unfolding Allowed
sharing-Allowed = ground arith

perform_all-Texts_example :
    let (answers, t) = perform_all true two_arrays 8 sharing no_strings in
    ((x : ℕ) → value t x ≡ described_all sharing answers (λ _. none) x)
    × AnsweredAll sharing answers
perform_all-Texts_example =
    perform_all-Texts two_arrays two_arrays-Allocates true 8 (ground arith) sharing sharing-Allowed

perform_all-Unique_example :
    let t = (perform_all true two_arrays 8 sharing no_strings).1 in
    (unique t 40 ≡ true) ↔ ((block_of t 40 ≢ 0) × ((y : ℕ) → block_of t y ≡ block_of t 40 → y ≡ 40))
perform_all-Unique_example =
    perform_all-Unique two_arrays two_arrays-Allocates true 8 (ground arith) sharing 40
      sharing-Allowed

perform_all-NoLeaks_example :
    let (answers, t) = perform_all true two_arrays 8 sharing no_strings in
    (t.live 64 ≡ true)
    ↔ ((x : ℕ) × (block_of t x ≡ 64) × (described_all sharing answers (λ _. none) x ≢ none))
perform_all-NoLeaks_example =
    perform_all-NoLeaks two_arrays two_arrays-Allocates true 8 (ground arith) sharing 64
      sharing-Allowed (ground arith)

-- The text has moved to the string at 40, and the block of the other text is deleted.
sharing_run :
    let t = (perform_all true two_arrays 8 sharing no_strings).1 in
    (value t 40 ≡ some hi) × (value t 16 ≡ none) × (value t 24 ≡ none) × (t.live 128 ≡ false)
unfolding perform_all doost.String.Programs.perform doost.String.Operations.reset assign_move
    assign_view doost.String.Operations.copy_construct doost.String.Operations.construct_chars
sharing_run = (refl, refl, refl, refl)
