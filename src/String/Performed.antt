-- ===== src/String/Performed.antt =====
-- One operation of a program that uses String objects.
use doost.Base.{
  ℕ, ◌≡◌, ◌≢◌, refl, sym, ap, subst, ◌∙◌, Bool, true, ◌==◌, if◌then◌else◌, arith, List, [], ◌∷◌,
  Option, none, some, Outcome, returned, thrown, length,
}
use doost.String.{Store, block_of, detach}
use doost.String.Text.{c_string}
use doost.String.Operations.{
  construct_chars, construct_view, reset, assign_chars, assign_view, block_size,
}
use doost.String.Ring.{Ring}
use doost.String.Detach.{detach-Ring}
use doost.String.Values.{
  value, value-detach, block_of-detach, copy_construct-value, assign_copy-value,
}
use doost.String.MovedValues.{assign_move-value, move_construct-Moved}
use doost.String.Assign.{
  Allocates, GivenOrThrown, construct_view-value, assign_view-value, swap-value,
}
use doost.String.Programs.{
  Operation, chars_construction, view_construction, copy_construction, move_construction,
  chars_assignment, view_assignment, copy_assignment, move_assignment, swapping, resetting, perform,
}
use doost.String.Texts.{completed, abandoned, described, allocates, Answered, Allowed}

-- What an operation on `s` answers and leaves.
pub record Performed (o : Operation) (s : Store) (after : Outcome ℕ × Store) : Type 0 where
  pub ring : Ring after.1
  pub texts : (x : ℕ) → value after.1 x ≡ described o after.0 (value s) x
  pub answered : Answered o after.0

-- A text that operator new[] gets a block for, or does not.
given-Performed :
    (o : Operation) (s u : Store) (this : ℕ) (v : List ℕ) (answer : Option ℕ)
    → Ring u
    → ((x : ℕ) → (if x == this then some (c_string v) else value u x) ≡ completed o (value s) x)
    → ((x : ℕ) → value u x ≡ abandoned o (value s) x)
    → allocates o ≡ true
    → (result : Outcome ℕ × Store) → GivenOrThrown this v u answer result
    → Performed o s result
unfolding described Answered
given-Performed o s u this v answer r done kept may (returned x, t) (_, (ring, values)) = record {
  ring = ring;
  texts = λ x. values x ∙ done x;
  answered = tt;
}
given-Performed o s u this v answer r done kept may (thrown e, t) (bad, refused, same) = record {
  ring = subst Ring (sym same) r;
  texts = λ x. ap (λ z. value z x) same ∙ kept x;
  answered = (bad, may);
}

none-free : (s : Store) (x : ℕ) → value s x ≡ none → block_of s x ≡ 0
none-free s x free = ground (arith, free)

c_string_idempotent : (v : List ℕ) → c_string (c_string v) ≡ c_string v
c_string_idempotent [] = refl
c_string_idempotent (x ∷ xs) = ground (arith, c_string_idempotent xs)

module _ (debug : Bool) (s : Store) (r : Ring s) (this : ℕ) where
  ended-free : block_of (detach debug this s) this ≡ 0
  ended-free = ground (arith, block_of-detach s debug this this)

  reset-Performed :
      (o : Operation)
      → ((x : ℕ) → (if x == this then none else value s x) ≡ completed o (value s) x)
      → Performed o s (returned this, detach debug this s)
  unfolding described Answered
  reset-Performed o done = record {
    ring = detach-Ring s debug this r;
    texts = λ x. value-detach s debug this x ∙ done x;
    answered = tt;
  }

module _ (new_array : Store → ℕ → Option ℕ)
    (allocator : (s : Store) (n b : ℕ) → new_array s n ≡ some b → Allocates s b) (debug : Bool)
    (replacement : ℕ) (local : replacement ≢ 0) where
  constructed-Performed :
      (o : Operation) (s : Store) (r : Ring s) (this : ℕ) (v : List ℕ)
      → this ≢ 0
      → ((x : ℕ) → (if x == this then some (c_string v) else value s x) ≡ completed o (value s) x)
      → ((x : ℕ) → (if x == this then none else value s x) ≡ abandoned o (value s) x)
      → allocates o ≡ true
      → Performed o s
          (construct_view (new_array (detach debug this s)) this v (detach debug this s))
  constructed-Performed o s r this v object done kept may =
      let ended = detach debug this s in
      let ring = detach-Ring s debug this r in
      given-Performed o s ended this v (new_array ended (block_size (length v))) ring
        (λ x. ground (arith, value-detach s debug this x, done x))
        (λ x. value-detach s debug this x ∙ kept x) may
        (construct_view (new_array ended) this v ended)
        (construct_view-value (new_array ended) ended this v ring object (ended-free debug s r this)
          (allocator ended (block_size (length v))))

  assigned-Performed :
      (o : Operation) (s : Store) (r : Ring s)
      → value s replacement ≡ none
      → (this : ℕ) (v : List ℕ) → this ≢ 0
      → this ≢ replacement
      → ((x : ℕ) → (if x == this then some (c_string v) else value s x) ≡ completed o (value s) x)
      → ((x : ℕ) → value s x ≡ abandoned o (value s) x)
      → allocates o ≡ true
      → Performed o s (assign_view debug (new_array s) this replacement v s)
  assigned-Performed o s r free this v object ne done kept may =
      given-Performed o s s this v (new_array s (block_size (length v))) r done kept may
        (assign_view debug (new_array s) this replacement v s)
        (assign_view-value debug (new_array s) s this replacement v r object local (λ e. ne (sym e))
          (none-free s replacement free) (allocator s (block_size (length v))))

  pub perform-Performed :
      (o : Operation) (s : Store)
      → Ring s
      → value s replacement ≡ none
      → Allowed replacement o
      → Performed o s (perform debug new_array replacement o s)
  unfolding perform Allowed completed abandoned described allocates Answered construct_chars
      assign_chars reset assign_view
  perform-Performed (chars_construction this none) s r free allowed =
      reset-Performed debug s r this (chars_construction this none) (λ x. refl)
  perform-Performed (chars_construction this (some v)) s r free (object, ne) =
      constructed-Performed (chars_construction this (some v)) s r this (c_string v) object
        (λ x. ground (arith, c_string_idempotent v)) (λ x. refl) refl
  perform-Performed (view_construction this v) s r free (object, ne) =
      constructed-Performed (view_construction this v) s r this v object (λ x. refl) (λ x. refl)
        refl
  perform-Performed (copy_construction this other) s r free (object, _, _, _, differ) =
      let ended = detach debug this s in
      let (ring, values) =
        copy_construct-value ended this other (detach-Ring s debug this r) object
          (ended-free debug s r this) in
      record {
        ring = ring;
        texts = λ x.
            ground (
              arith,
              differ,
              values x,
              value-detach s debug this x,
              value-detach s debug this other,
            );
        answered = tt;
      }
  perform-Performed (move_construction this other) s r free (object, _, other_object, _, differ) =
      let ended = detach debug this s in
      let (ring, values) =
        move_construct-Moved ended this other (detach-Ring s debug this r) object other_object
          (ended-free debug s r this) differ in
      record {
        ring = ring;
        texts = λ x.
            ground (
              arith,
              differ,
              values x,
              value-detach s debug this x,
              value-detach s debug this other,
            );
        answered = tt;
      }
  perform-Performed (chars_assignment this none) s r free allowed =
      reset-Performed debug s r this (chars_assignment this none) (λ x. refl)
  perform-Performed (chars_assignment this (some v)) s r free (object, ne) =
      assigned-Performed (chars_assignment this (some v)) s r free this (c_string v) object ne
        (λ x. ground (arith, c_string_idempotent v)) (λ x. refl) refl
  perform-Performed (view_assignment this v) s r free (object, ne) =
      assigned-Performed (view_assignment this v) s r free this v object ne (λ x. refl) (λ x. refl)
        refl
  perform-Performed (copy_assignment this other) s r free (object, _, _, _) =
      let (ring, values) = assign_copy-value debug s this other r object in
      record { ring = ring; texts = values; answered = tt }
  perform-Performed (move_assignment this other) s r free (object, _, other_object, _) =
      let (ring, values) = assign_move-value debug s this other r object other_object in
      record { ring = ring; texts = values; answered = tt }
  perform-Performed (swapping this other) s r free (object, _, other_object, _) =
      let (ring, values) = swap-value s this other r object other_object in
      record { ring = ring; texts = values; answered = tt }
  perform-Performed (resetting this) s r free allowed =
      reset-Performed debug s r this (resetting this) (λ x. refl)
