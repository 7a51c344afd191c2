-- ===== src/String/Assign.antt =====
-- What the operations that make a block do to the values of the strings.
use doost.Base.{
  ℕ, ◌≡◌, ◌≢◌, ◌%◌, refl, Bool, false, ◌==◌, if◌then◌else◌, arith, List, [], ◌∷◌, ◌++◌, length,
  Option, none, some, Outcome, returned, thrown, bad_alloc,
}
use doost.String.{Store, block_of, attach, swap, replace_owner}
use doost.String.Text.{c_string}
use doost.String.Operations.{make_block, construct_view, assign_view, block_size, own_new, swap_in}
use doost.String.Ring.{Ring}
use doost.String.Attach.{own_Ring}
use doost.String.Detach.{detach-Ring}
use doost.String.Moves.{swap-Ring}
use doost.String.Values.{value, value-attach, value-detach}

-- An address that operator new[] may answer: it is aligned and not in use.
pub record Allocates (s : Store) (b : ℕ) : Type 0 where
  pub not_null : b ≢ 0
  pub aligned : b % 2 ≡ 0
  pub unused : s.live b ≡ false

c_string-terminated : (xs : List ℕ) → c_string (xs ++ 0 ∷ []) ≡ c_string xs
c_string-terminated [] = refl
c_string-terminated (x ∷ xs) = rw (c_string-terminated xs) refl

value-make_block :
    (s : Store) (r : Ring s) (b x : ℕ) (text : List ℕ)
    → Allocates s b
    → value (make_block b text s) x ≡ value s x
value-make_block s r b x text new = ground (arith, (r.linked x).owns, new.unused)

-- `t` is `s` after `this` has got the value of `text`.
abbrev pub Given : (this : ℕ) (text : List ℕ) → Store → Store → Type 0
Given this text s t =
    Ring t × ((x : ℕ) → value t x ≡ (if x == this then some (c_string text) else value s x))

-- What a call leaves where operator new[] answers `answer`.
abbrev pub GivenOrThrown :
    (this : ℕ) (text : List ℕ) → Store → (answer : Option ℕ) → Outcome ℕ × Store → Type 0
GivenOrThrown this text s answer (returned x, t) = (x ≡ this) × Given this text s t
GivenOrThrown this text s answer (thrown e, t) = (e ≡ bad_alloc) × (answer ≡ none) × (t ≡ s)

pub own-Given :
    (s : Store) (r : Ring s) (this b : ℕ) (text : List ℕ)
    → this ≢ 0
    → block_of s this ≡ 0
    → Allocates s b
    → Given this text s (attach this b (make_block b text s))
own-Given s r this b text object free new = (
  own_Ring s r this b text object free new.not_null new.aligned new.unused,
  λ x. ground (
    arith,
    value-attach (make_block b text s) this b x new.aligned,
    value-make_block s r b x text new,
    c_string-terminated text,
    new.not_null,
  ),
)

chars-swap : (s : Store) (this other c : ℕ) → (swap this other s).chars c ≡ s.chars c
unfolding swap replace_owner
chars-swap s this other c = ground arith

block_of-swap :
    (s : Store) (this other x : ℕ)
    → block_of (swap this other s) x ≡ (
        if x == this
        then block_of s other
        else if x == other
        then block_of s this
        else block_of s x)
unfolding swap replace_owner
block_of-swap s this other x = ground arith

-- The two strings have each other's values.
value-swap :
    (s : Store) (this other x : ℕ)
    → value (swap this other s) x
      ≡ (if x == this then value s other else if x == other then value s this else value s x)
value-swap s this other x =
    ground (
      arith,
      block_of-swap s this other x,
      chars-swap s this other (block_of (swap this other s) x),
    )

-- Either the string is made with a block of its own and reads as the text up to its first 0, or
-- operator new[] has thrown, and nothing has changed.
pub construct_view-value :
    (new_array : ℕ → Option ℕ) (s : Store) (this : ℕ) (text : List ℕ)
    → Ring s
    → this ≢ 0
    → block_of s this ≡ 0
    → ((b : ℕ) → new_array (block_size (length text)) ≡ some b → Allocates s b)
    → GivenOrThrown this text s
        (new_array (block_size (length text)))
        (construct_view new_array this text s)
unfolding construct_view own_new
construct_view-value new_array s this text r object free new =
    answered (new_array (block_size (length text))) refl
  where
    answered :
        (o : Option ℕ)
        → new_array (block_size (length text)) ≡ o
        → GivenOrThrown this text s (new_array (block_size (length text))) (own_new this text o s)
    answered none e = (refl, e, refl)
    answered (some b) e = (refl, own-Given s r this b text object free (new b e))

-- An assignment of text gives the string the text up to its first 0, and leaves every other string
-- its value, and answers the string; where operator new[] throws, it throws bad_alloc and leaves all
-- strings and blocks as they were. The local of the assignment holds no text before.
pub assign_view-value :
    (debug : Bool) (new_array : ℕ → Option ℕ) (s : Store) (this replacement : ℕ) (text : List ℕ)
    → Ring s
    → this ≢ 0
    → replacement ≢ 0
    → replacement ≢ this
    → block_of s replacement ≡ 0
    → ((b : ℕ) → new_array (block_size (length text)) ≡ some b → Allocates s b)
    → GivenOrThrown this text s
        (new_array (block_size (length text)))
        (assign_view debug new_array this replacement text s)
unfolding assign_view swap_in
assign_view-value debug new_array s this replacement text r object local distinct free new =
    swapped (construct_view new_array replacement text s)
      (construct_view-value new_array s replacement text r local free new)
  where
    swapped :
        (o : Outcome ℕ × Store)
        → GivenOrThrown replacement text s (new_array (block_size (length text))) (o)
        → GivenOrThrown this text s
            (new_array (block_size (length text)))
            (swap_in debug this replacement o)
    swapped (thrown e, t) made = made
    swapped (returned made, t) (_, (ring, values)) = (
      refl,
      (
        detach-Ring (swap this replacement t) debug replacement
            (swap-Ring t ring this replacement object local),
        λ x. ground (
          arith,
          free,
          value-detach (swap this replacement t) debug replacement x,
          value-swap t this replacement x,
          values replacement,
          values x,
        ),
      ),
    )

-- A swap gives the two strings each other's values, and leaves every other string its value.
pub swap-value :
    (s : Store) (this other : ℕ)
    → Ring s
    → this ≢ 0
    → other ≢ 0
    → Ring (swap this other s)
      × ((x : ℕ)
          → value (swap this other s) x
            ≡ (if x == this then value s other else if x == other then value s this else value s x))
swap-value s this other r object other_object =
    (swap-Ring s r this other object other_object, λ x. value-swap s this other x)
