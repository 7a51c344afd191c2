-- ===== src/String/Independent.antt =====
-- Programs that use String objects, from null strings to their end.
use std.Path.{fun_ext}
use doost.Base.{
  ℕ, ◌≡◌, ◌≢◌, ◌↔◌, refl, ap, ◌∙◌, subst, Bool, true, arith, List, [], ◌∷◌, Option, none, some,
  Outcome, returned, thrown, All,
}
use doost.String.{Store, block_of}
use doost.String.Ring.{Ring, unique-sole}
use doost.String.Operations.{unique}
use doost.String.Values.{value}
use doost.String.Assign.{Allocates}
use doost.String.Programs.{
  Operation, chars_construction, view_construction, copy_construction, move_construction,
  chars_assignment, view_assignment, copy_assignment, move_assignment, swapping, resetting, perform,
  perform_all, no_strings,
}
use doost.String.Texts.{Texts, completed, abandoned, described, described_all, AnsweredAll, Allowed}
use doost.String.Performed.{perform-Performed}

-- No operation of the program touches the local of the assignments.
completed_elsewhere :
    (replacement : ℕ) (o : Operation) (f : Texts)
    → Allowed replacement o
    → completed o f replacement ≡ f replacement
unfolding completed Allowed
completed_elsewhere replacement (chars_construction this v) f allowed = ground (arith, allowed)
completed_elsewhere replacement (view_construction this v) f allowed = ground (arith, allowed)
completed_elsewhere replacement (copy_construction this other) f allowed = ground (arith, allowed)
completed_elsewhere replacement (move_construction this other) f allowed = ground (arith, allowed)
completed_elsewhere replacement (chars_assignment this v) f allowed = ground (arith, allowed)
completed_elsewhere replacement (view_assignment this v) f allowed = ground (arith, allowed)
completed_elsewhere replacement (copy_assignment this other) f allowed = ground (arith, allowed)
completed_elsewhere replacement (move_assignment this other) f allowed = ground (arith, allowed)
completed_elsewhere replacement (swapping this other) f allowed = ground (arith, allowed)
completed_elsewhere replacement (resetting this) f allowed = ground (arith, allowed)

abandoned_elsewhere :
    (replacement : ℕ) (o : Operation) (f : Texts)
    → Allowed replacement o
    → abandoned o f replacement ≡ f replacement
unfolding abandoned Allowed
abandoned_elsewhere replacement (chars_construction this v) f allowed = ground (arith, allowed)
abandoned_elsewhere replacement (view_construction this v) f allowed = ground (arith, allowed)
abandoned_elsewhere replacement o f allowed = refl

described_elsewhere :
    (replacement : ℕ) (o : Operation) (answer : Outcome ℕ) (f : Texts)
    → Allowed replacement o
    → described o answer f replacement ≡ f replacement
unfolding described
described_elsewhere replacement o (returned this) f allowed =
    completed_elsewhere replacement o f allowed
described_elsewhere replacement o (thrown e) f allowed = abandoned_elsewhere replacement o f allowed

pub no_strings-Ring : Ring no_strings
no_strings-Ring = record {
  height = λ _. 0;
  bound = 0;
  bounded = λ x. ground arith;
  void = refl;
  linked = λ x. record {
    detached = ground arith;
    owns = ground arith;
    top = ground arith;
    before = ground arith;
    after = ground arith;
    bit = ground arith;
  };
  headed = λ c. record {
    even = ground arith;
    owner = ground arith;
    block = ground arith;
    top = ground arith;
  };
}

-- What a program leaves that starts with the texts `f`.
record Independent (program : List Operation) (f : Texts) (after : List (Outcome ℕ) × Store)
    : Type 0 where
  pub ring : Ring after.1
  pub texts : (x : ℕ) → value after.1 x ≡ described_all program after.0 f x
  pub answered : AnsweredAll program after.0

module _ (new_array : Store → ℕ → Option ℕ)
    (allocator : (s : Store) (n b : ℕ) → new_array s n ≡ some b → Allocates s b) (debug : Bool)
    (replacement : ℕ) (local : replacement ≢ 0) where
  perform_all-Independent :
      (program : List Operation) (s : Store)
      → Ring s
      → value s replacement ≡ none
      → All (Allowed replacement) program
      → Independent program (value s) (perform_all debug new_array replacement program s)
  unfolding perform_all described_all AnsweredAll
  perform_all-Independent [] s r free allowed = record {
    ring = r;
    texts = λ x. refl;
    answered = tt;
  }
  perform_all-Independent (o ∷ os) s r free (here, later) =
      let (answer, t) = perform debug new_array replacement o s in
      let first = perform-Performed new_array allocator debug replacement local o s r free here in
      let texts : value t ≡ described o answer (value s) = fun_ext first.texts in
      let rest =
        perform_all-Independent os t first.ring
          (first.texts replacement
            ∙ (described_elsewhere replacement o answer (value s) here ∙ free))
          later in
      let answers = (perform_all debug new_array replacement os t).0 in
      record {
        ring = rest.ring;
        texts = λ x. rest.texts x ∙ ap (λ f. described_all os answers f x) texts;
        answered = (first.answered, rest.answered);
      }

  -- In a program of operations on distinct String objects, run from null strings, the value of each
  -- string is what the operations say, whichever of them share blocks: an operation sets the strings it
  -- names and no other; only one that makes a block throws, bad_alloc, and then a construction leaves no
  -- object and an assignment the old value.
  pub perform_all-Texts :
      (program : List Operation)
      → All (Allowed replacement) program
      → let (answers, t) = perform_all debug new_array replacement program no_strings in
        ((x : ℕ) → value t x ≡ described_all program answers (λ _. none) x)
        × AnsweredAll program answers
  perform_all-Texts program allowed =
      let end = perform_all-Independent program no_strings no_strings-Ring refl allowed in
      (end.texts, end.answered)

  -- After a program of operations on distinct String objects, run from null strings, a string is unique,
  -- as its bit says, exactly when it holds a block that no other string holds.
  pub perform_all-Unique :
      (program : List Operation) (x : ℕ)
      → All (Allowed replacement) program
      → let t = (perform_all debug new_array replacement program no_strings).1 in
        (unique t x ≡ true) ↔ ((block_of t x ≢ 0) × ((y : ℕ) → block_of t y ≡ block_of t x → y ≡ x))
  perform_all-Unique program x allowed =
      let end = perform_all-Independent program no_strings no_strings-Ring refl allowed in
      let t = (perform_all debug new_array replacement program no_strings).1 in
      (
        λ bit.
            let own : block_of t x ≢ 0 = ground (arith, bit) in
            (own, (unique-sole end.ring x own).0 (ground (arith, bit))),
        λ (own, sole). ground (arith, own, (unique-sole end.ring x own).1 sole),
      )

  -- After such a program a block is live exactly when it belongs to a string, which has a text then: where
  -- all texts are null at the end, no block is left.
  pub perform_all-NoLeaks :
      (program : List Operation) (b : ℕ)
      → All (Allowed replacement) program
      → b ≢ 0
      → let (answers, t) = perform_all debug new_array replacement program no_strings in
        (t.live b ≡ true)
        ↔ ((x : ℕ) × (block_of t x ≡ b) × (described_all program answers (λ _. none) x ≢ none))
  perform_all-NoLeaks program b allowed block =
      let end = perform_all-Independent program no_strings no_strings-Ring refl allowed in
      let t = (perform_all debug new_array replacement program no_strings).1 in
      (
        λ alive.
            let at = (end.ring.headed b).block alive in
            (t.first b, at, λ e. ground (arith, end.texts (t.first b), e, at, block)),
        λ (x, owner, _).
            subst (λ c. t.live c ≡ true) owner
              ((end.ring.linked x).owns (ground (arith, owner, block))),
      )
