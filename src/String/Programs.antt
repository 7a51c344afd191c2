-- ===== src/String/Programs.antt =====
-- Programs that use String objects: include/doost/string.hpp, one operation after the other. A
-- construction at an address first ends the life of the object that is there.
use doost.Base.{ℕ, Bool, false, List, [], ◌∷◌, Option, Outcome, returned}
use doost.String.{Store, swap}
use doost.String.Operations.{
  construct_chars, construct_view, copy_construct, move_construct, reset, destroy, assign_chars,
  assign_view, assign_copy, assign_move,
}

-- Characters may be nullptr.
pub data Operation : Type 0 where
  chars_construction : (this : ℕ) → Option (List ℕ) → Operation
  view_construction : (this : ℕ) → List ℕ → Operation
  copy_construction : (this other : ℕ) → Operation
  move_construction : (this other : ℕ) → Operation
  chars_assignment : (this : ℕ) → Option (List ℕ) → Operation
  view_assignment : (this : ℕ) → List ℕ → Operation
  copy_assignment : (this other : ℕ) → Operation
  move_assignment : (this other : ℕ) → Operation
  swapping : (this other : ℕ) → Operation
  resetting : (this : ℕ) → Operation

-- `new_array` is operator new[], `replacement` the address of the local of the assignments.
module _ (debug : Bool) (new_array : Store → ℕ → Option ℕ) (replacement : ℕ) where
  unfoldable pub perform : Operation → Store → Outcome ℕ × Store
  perform (chars_construction this value) s =
      let ended = destroy debug this s in construct_chars (new_array ended) this value ended
  perform (view_construction this value) s =
      let ended = destroy debug this s in construct_view (new_array ended) this value ended
  perform (copy_construction this other) s =
      (returned this, copy_construct this other (destroy debug this s))
  perform (move_construction this other) s =
      (returned this, move_construct this other (destroy debug this s))
  perform (chars_assignment this value) s =
      assign_chars debug (new_array s) this replacement value s
  perform (view_assignment this value) s = assign_view debug (new_array s) this replacement value s
  perform (copy_assignment this other) s = (returned this, assign_copy debug this other s)
  perform (move_assignment this other) s = (returned this, assign_move debug this other s)
  perform (swapping this other) s = (returned this, swap this other s)
  perform (resetting this) s = (returned this, reset debug this s)

  -- A program that catches every exception and goes on.
  unfoldable pub perform_all : List Operation → Store → List (Outcome ℕ) × Store
  perform_all [] s = ([], s)
  perform_all (o ∷ os) s =
      let (answer, t) = perform o s in let (answers, u) = perform_all os t in (answer ∷ answers, u)

-- No string holds anything, no block is there.
abbrev pub no_strings : Store
no_strings = record {
  tagged = λ _. 0;
  previous = λ _. 0;
  next = λ _. 0;
  first = λ _. 0;
  chars = λ _. [];
  live = λ _. false;
  debug_trace_stream = 0;
  written = λ _. [];
}
