-- ===== src/String/MovedValues.antt =====
-- What a move does to the values of the strings.
use doost.Base.{
  both_branches, ℕ, ◌≡◌, ◌≢◌, refl, ap, Bool, true, false, ◌==◌, if◌then◌else◌, arith, none, subst,
}
use doost.String.{Store, block_of, detach, move_from, replace_owner}
use doost.String.Operations.{assign_move, move_construct}
use doost.String.Ring.{Ring}
use doost.String.Detach.{detach-Ring}
use doost.String.Moves.{move_from-Ring}
use doost.String.Values.{value, value-detach, block_of-detach}

block_of-move_from :
    (s : Store) (this other x : ℕ)
    → block_of (move_from this other s) x
      ≡ (if x == other then 0 else if x == this then block_of s other else block_of s x)
unfolding move_from replace_owner
block_of-move_from s this other x = ground arith

chars-move_from : (s : Store) (this other c : ℕ) → (move_from this other s).chars c ≡ s.chars c
unfolding move_from replace_owner
chars-move_from s this other c = ground arith

value-move_from :
    (s : Store) (this other x : ℕ)
    → value (move_from this other s) x
      ≡ (if x == other then none else if x == this then value s other else value s x)
value-move_from s this other x = ground (
  arith,
  block_of-move_from s this other x,
  chars-move_from s this other (block_of (move_from this other s) x),
)

value_self :
    (s : Store) (this other x : ℕ)
    → (this == other) ≡ true
    → value s x ≡ (if x == this then value s other else if x == other then none else value s x)
value_self s this other x same =
    subst (λ y. value s x ≡ (if x == this then value s y else if x == y then none else value s x))
      (ground (arith, same)) (itself (x == this) refl)
  where
    itself :
        (c : Bool)
        → (x == this) ≡ c
        → value s x ≡ (if c then value s this else if c then none else value s x)
    itself true e = ap (value s) (ground (arith, e))
    itself false e = refl

-- `t` is `s` after the value of `other` has gone to `this`.
abbrev pub Moved : (this other : ℕ) → Store → Store → Type 0
Moved this other s t =
    Ring t
    × ((x : ℕ)
        → value t x ≡ (if x == this then value s other else if x == other then none else value s x))

-- A move assignment gives the value of the other, which is null then, or the string itself; every
-- other string keeps its value.
pub assign_move-value :
    (debug : Bool) (s : Store) (this other : ℕ)
    → Ring s
    → this ≢ 0
    → other ≢ 0
    → Moved this other s (assign_move debug this other s)
unfolding assign_move
assign_move-value debug s this other r object other_object =
    both_branches (Moved this other s) (this == other)
      (λ stays. (r, λ x. value_self s this other x stays))
      (λ goes. (
        move_from-Ring (detach debug this s) (detach-Ring s debug this r) this other object
            other_object (ground (arith, block_of-detach s debug this this)) (ground (arith, goes)),
        λ x. ground (
          arith,
          goes,
          value-move_from (detach debug this s) this other x,
          value-detach s debug this x,
          value-detach s debug this other,
        ),
      ))

-- A string that is constructed from another one gets its value, which is null then.
pub move_construct-Moved :
    (s : Store) (this other : ℕ)
    → Ring s
    → this ≢ 0
    → other ≢ 0
    → block_of s this ≡ 0
    → this ≢ other
    → Moved this other s (move_construct this other s)
unfolding move_construct
move_construct-Moved s this other r object other_object free distinct = (
  move_from-Ring s r this other object other_object free distinct,
  λ x. ground (arith, distinct, value-move_from s this other x),
)
