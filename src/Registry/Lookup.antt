-- ===== src/Registry/Lookup.antt =====
-- What the registry answers after a range is registered or taken off.
use doost.Base.{
  ℕ, suc, ◌+◌, ◌≡◌, ◌≢◌, refl, Bool, true, false, ◌&&◌, ◌||◌, some, [], ◌∷◌, arith, ◌==◌, ℤ, pos,
  negsuc, get_elem?, take, All, Bool-cases, inl, inr,
}
use doost.Registry.{
  Entry, entry, Registry, register_pool_guard, clear_first, unregister_pool_guard, entry_contains,
  find_from, find_pool_index,
}

-- Whether some entry contains the address.
unfoldable pub guarded : Registry → ℕ → Bool
guarded [] a = false
guarded (x ∷ xs) a = entry_contains x a || guarded xs a

unfoldable pub has_free : Registry → Bool
has_free [] = false
has_free (x ∷ xs) = x.guard_begin == 0 || has_free xs

-- The answer of a search: the index of the first entry that contains the address, or -1 where no
-- entry does.
abbrev pub Finds : ℕ → Registry → ℕ → ℤ → Type 0
Finds i r a (pos k) =
    (d : ℕ) × (x : Entry) × (k ≡ i + d)
    × (get_elem? r d ≡ some x)
    × (entry_contains x a ≡ true)
    × (guarded (take d r) a ≡ false)
Finds i r a (negsuc n) = (n ≡ 0) × (guarded r a ≡ false)

find_from-Finds : (i : ℕ) (r : Registry) (a : ℕ) → Finds i r a (find_from i r a)
unfolding find_from guarded
find_from-Finds i [] a = (refl, refl)
find_from-Finds i (x ∷ xs) a = elim (Bool-cases (entry_contains x a)) [
  | inl hit ↦ rw hit (0, x, omega arith, refl, hit, refl)
  | inr miss ↦ rw miss (later miss (find_from (i + 1) xs a) (find_from-Finds (i + 1) xs a))
]
  where
    later : entry_contains x a ≡ false → (z : ℤ) → Finds (i + 1) xs a z → Finds i (x ∷ xs) a z
    later miss (pos k) (d, y, e, g, c, none_before) =
        (suc d, y, omega arith, g, c, rw (miss, none_before))
    later miss (negsuc n) (minus_one, h) = (minus_one, rw (miss, h))

-- The search of the signal handler answers the first entry that contains the address, or -1 where
-- no entry contains it.
pub find_pool_index-Finds : (r : Registry) (a : ℕ) → Finds 0 r a (find_pool_index r a)
unfolding find_pool_index
find_pool_index-Finds r a = find_from-Finds 0 r a

-- After a registration an address is guarded where it was guarded before, or where it lies in the
-- new range and the registry had a free entry.
pub guarded-register :
    (b e : ℕ) (r : Registry) (a : ℕ)
    → guarded (register_pool_guard b e r) a
      ≡ (guarded r a || (has_free r && entry_contains (entry b e) a))
unfolding guarded has_free register_pool_guard
guarded-register b e [] a = refl
guarded-register b e (x ∷ xs) a = ground (arith, guarded-register b e xs a)

-- The free entries hold no end, and the live ones begin elsewhere.
abbrev pub Unregistered : ℕ → Registry → Type 0
Unregistered b r = All (λ x. (x.guard_begin ≢ b) × (x.guard_begin ≡ 0 → x.guard_end ≡ 0)) r

clear_first-register :
    (b e : ℕ) (r : Registry) → Unregistered b r → clear_first b (register_pool_guard b e r) ≡ r
unfolding clear_first register_pool_guard
clear_first-register b e [] u = refl
clear_first-register b e (x ∷ xs) u = ground (arith, clear_first-register b e xs u.1)

-- Unregistering a range straight after its registration gives the registry back, whether it was
-- full or not.
pub unregister-register :
    (b e : ℕ) (r : Registry)
    → Unregistered b r
    → b ≢ 0
    → unregister_pool_guard b (register_pool_guard b e r) ≡ r
unfolding unregister_pool_guard
unregister-register b e r u ne = ground (arith, clear_first-register b e r u)
