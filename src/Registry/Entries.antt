-- ===== src/Registry/Entries.antt =====
-- Which ranges are in the registry, by their begin.
use doost.Base.{
  ℕ, ◌≡◌, ◌≢◌, refl, Bool, false, ◌&&◌, ◌||◌, not, inl, inr, Bool-cases, [], ◌∷◌, arith, ◌==◌,
}
use doost.Registry.{Registry, register_pool_guard, clear_first, unregister_pool_guard}
use doost.Registry.Lookup.{has_free}

unfoldable pub begins : Registry → ℕ → Bool
begins [] b = false
begins (x ∷ xs) b = x.guard_begin == b || begins xs b

-- No two ranges have one begin.
unfoldable pub Single : Registry → Type 0
unfolding begins
Single [] = Unit
Single (x ∷ xs) = (x.guard_begin ≢ 0 → begins xs x.guard_begin ≡ false) × Single xs

pub begins-register :
    (b e : ℕ) (r : Registry) (a : ℕ)
    → a ≢ 0
    → begins (register_pool_guard b e r) a ≡ (begins r a || (has_free r && b == a))
unfolding begins register_pool_guard has_free
begins-register b e [] a some_range = refl
begins-register b e (x ∷ xs) a some_range = ground (arith, begins-register b e xs a some_range)

pub register-Single :
    (b e : ℕ) (r : Registry)
    → Single r
    → begins r b ≡ false
    → b ≢ 0
    → Single (register_pool_guard b e r)
unfolding begins register_pool_guard Single
register-Single b e [] one new some_range = one
register-Single b e (x ∷ xs) one new some_range = elim (Bool-cases (x.guard_begin == 0)) [
  | inl free ↦ rw free ((λ given. ground (arith, new)), one.1)
  | inr used ↦ rw used (
    (λ given. ground (arith, begins-register b e xs x.guard_begin given, one.0 given, new)),
    register-Single b e xs one.1 (ground (arith, new)) some_range,
  )
]

begins-clear :
    (b : ℕ) (r : Registry) (a : ℕ)
    → Single r
    → a ≢ 0
    → b ≢ 0
    → begins (clear_first b r) a ≡ (begins r a && not (a == b))
unfolding begins clear_first Single
begins-clear b [] a one some_range given = refl
begins-clear b (x ∷ xs) a one some_range given =
    ground (arith, begins-clear b xs a one.1 some_range given)

clear-Single : (b : ℕ) (r : Registry) → Single r → b ≢ 0 → Single (clear_first b r)
unfolding begins clear_first Single
clear-Single b [] one given = one
clear-Single b (x ∷ xs) one given = elim (Bool-cases (x.guard_begin == b)) [
  | inl found ↦ rw found ((λ zero. ground (arith, zero)), one.1)
  | inr other ↦ rw other (
    (λ some_range.
        ground (arith, begins-clear b xs x.guard_begin one.1 some_range given, one.0 some_range)),
    clear-Single b xs one.1 given,
  )
]

pub begins-unregister :
    (b : ℕ) (r : Registry) (a : ℕ)
    → Single r
    → a ≢ 0
    → b ≢ 0
    → begins (unregister_pool_guard b r) a ≡ (begins r a && not (a == b))
unfolding unregister_pool_guard
begins-unregister b r a one some_range given =
    ground (arith, given, begins-clear b r a one some_range given)

pub unregister-Single : (b : ℕ) (r : Registry) → Single r → Single (unregister_pool_guard b r)
unfolding unregister_pool_guard
unregister-Single b r one = elim (Bool-cases (b == 0)) [
  | inl none_given ↦ rw none_given one
  | inr given ↦ rw given (clear-Single b r one (ground (arith, given)))
]
