-- ===== src/String/Texts.antt =====
-- What include/doost/string.hpp promises of a program of operations: each object is a text of its own,
-- or null.
use doost.Base.{
  ℕ, Bool, true, false, List, [], ◌∷◌, Option, none, some, Outcome, returned, thrown, bad_alloc,
  ◌≡◌, ◌≢◌,
}
use doost.String.{update}
use doost.String.Text.{c_string}
use doost.String.Programs.{
  Operation, chars_construction, view_construction, copy_construction, move_construction,
  chars_assignment, view_assignment, copy_assignment, move_assignment, swapping, resetting,
}

abbrev pub Texts : Type 0
Texts = ℕ → Option (List ℕ)

abbrev pub read_chars : Option (List ℕ) → Option (List ℕ)
read_chars none = none
read_chars (some value) = some (c_string value)

-- The value of `other` goes to `this`; a string that is moved to itself keeps it.
abbrev pub hand_over : (this other : ℕ) → Texts → Texts
hand_over this other f = update (update f other none) this (f other)

unfoldable pub completed : Operation → Texts → Texts
completed (chars_construction this value) f = update f this (read_chars value)
completed (view_construction this value) f = update f this (some (c_string value))
completed (copy_construction this other) f = update f this (f other)
completed (move_construction this other) f = hand_over this other f
completed (chars_assignment this value) f = update f this (read_chars value)
completed (view_assignment this value) f = update f this (some (c_string value))
completed (copy_assignment this other) f = update f this (f other)
completed (move_assignment this other) f = hand_over this other f
completed (swapping this other) f = update (update f other (f this)) this (f other)
completed (resetting this) f = update f this none

-- A construction that throws leaves no object.
unfoldable pub abandoned : Operation → Texts → Texts
abandoned (chars_construction this value) f = update f this none
abandoned (view_construction this value) f = update f this none
abandoned o f = f

unfoldable pub described : Operation → Outcome ℕ → Texts → Texts
unfolding completed abandoned
described o (returned this) f = completed o f
described o (thrown e) f = abandoned o f

unfoldable pub described_all : List Operation → List (Outcome ℕ) → Texts → Texts
unfolding described
described_all (o ∷ os) (answer ∷ answers) f = described_all os answers (described o answer f)
described_all os answers f = f

unfoldable pub allocates : Operation → Bool
allocates (chars_construction this (some value)) = true
allocates (view_construction this value) = true
allocates (chars_assignment this (some value)) = true
allocates (view_assignment this value) = true
allocates o = false

-- Only what allocates throws, and it throws bad_alloc.
unfoldable pub Answered : Operation → Outcome ℕ → Type 0
unfolding allocates
Answered o (returned this) = Unit
Answered o (thrown e) = (e ≡ bad_alloc) × (allocates o ≡ true)

unfoldable pub AnsweredAll : List Operation → List (Outcome ℕ) → Type 0
unfolding Answered
AnsweredAll [] [] = Unit
AnsweredAll (o ∷ os) (answer ∷ answers) = Answered o answer × AnsweredAll os answers
AnsweredAll os answers = ⊥

-- The program's objects are neither nullptr nor the local of the assignments, and no object is
-- constructed from itself.
unfoldable pub Allowed : (replacement : ℕ) → Operation → Type 0
Allowed replacement (chars_construction this value) = (this ≢ 0) × (this ≢ replacement)
Allowed replacement (view_construction this value) = (this ≢ 0) × (this ≢ replacement)
Allowed replacement (copy_construction this other) =
    (this ≢ 0) × (this ≢ replacement) × (other ≢ 0) × (other ≢ replacement) × (this ≢ other)
Allowed replacement (move_construction this other) =
    (this ≢ 0) × (this ≢ replacement) × (other ≢ 0) × (other ≢ replacement) × (this ≢ other)
Allowed replacement (chars_assignment this value) = (this ≢ 0) × (this ≢ replacement)
Allowed replacement (view_assignment this value) = (this ≢ 0) × (this ≢ replacement)
Allowed replacement (copy_assignment this other) =
    (this ≢ 0) × (this ≢ replacement) × (other ≢ 0) × (other ≢ replacement)
Allowed replacement (move_assignment this other) =
    (this ≢ 0) × (this ≢ replacement) × (other ≢ 0) × (other ≢ replacement)
Allowed replacement (swapping this other) =
    (this ≢ 0) × (this ≢ replacement) × (other ≢ 0) × (other ≢ replacement)
Allowed replacement (resetting this) = (this ≢ 0) × (this ≢ replacement)
