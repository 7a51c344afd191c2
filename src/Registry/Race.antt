-- ===== src/Registry/Race.antt =====
-- Two threads in register_pool_guard at a time: each looks for a free entry and then stores to it.
use doost.Base.{ℕ, zero, suc, ◌≡◌, ◌≢◌, refl, ap, ◌∙◌, subst, false, some, [], ◌∷◌, arith}
use doost.Registry.{Registry, register_pool_guard, entry, entry_contains}
use doost.Registry.Lookup.{guarded, guarded-register}
use doost.Registry.Stores.{index_of, store_end, store_begin, Registers, stores-find_pool_index}

-- The second store to an entry is the one that stays.
store_end_twice : (i d e : ℕ) (r : Registry) → store_end i e (store_end i d r) ≡ store_end i e r
unfolding store_end
store_end_twice i d e [] = refl
store_end_twice zero d e (x ∷ xs) = refl
store_end_twice (suc i) d e (x ∷ xs) = ap (λ ys. x ∷ ys) (store_end_twice i d e xs)

store_begin_twice :
    (i a b : ℕ) (r : Registry) → store_begin i b (store_begin i a r) ≡ store_begin i b r
unfolding store_begin
store_begin_twice i a b [] = refl
store_begin_twice zero a b (x ∷ xs) = refl
store_begin_twice (suc i) a b (x ∷ xs) = ap (λ ys. x ∷ ys) (store_begin_twice i a b xs)

-- The two stores of an entry go to members of their own.
store_end-store_begin :
    (i e b : ℕ) (r : Registry)
    → store_end i e (store_begin i b r) ≡ store_begin i b (store_end i e r)
unfolding store_end store_begin
store_end-store_begin i e b [] = refl
store_end-store_begin zero e b (x ∷ xs) = refl
store_end-store_begin (suc i) e b (x ∷ xs) = ap (λ ys. x ∷ ys) (store_end-store_begin i e b xs)

stored-register :
    (i b e : ℕ) (r : Registry)
    → b ≢ 0
    → index_of 0 r ≡ some i
    → store_begin i b (store_end i e r) ≡ register_pool_guard b e r
stored-register i b e r pointer found =
    (subst (Registers b e r 0) found (stores-find_pool_index 0 b e r pointer).0).1

-- Two threads register ranges and both find the same free entry before either has stored to it; the end
-- of the second is stored after that of the first. If the begin of the second is the last store, whether
-- the first has stored its begin before the end of the second or after it, the registry is that of the
-- second registration alone, and no address that only the first range holds is guarded. If the begin of
-- the first is the last store, the entry goes from the begin of the first to the end of the second.
pub race-register :
    (first_begin first_end second_begin second_end i : ℕ) (r : Registry)
    → first_begin ≢ 0
    → second_begin ≢ 0
    → index_of 0 r ≡ some i
    → let ends = store_end i second_end (store_end i first_end r) in
      let lost = store_begin i second_begin (store_begin i first_begin ends) in
      (lost ≡ register_pool_guard second_begin second_end r)
      × (store_begin i second_begin
            (store_end i second_end (store_begin i first_begin (store_end i first_end r)))
          ≡ lost)
      × ((a : ℕ)
          → guarded r a ≡ false
          → entry_contains (entry second_begin second_end) a ≡ false
          → guarded lost a ≡ false)
      × (store_begin i first_begin (store_begin i second_begin ends)
          ≡ register_pool_guard first_begin second_end r)
race-register first_begin first_end second_begin second_end i r first second found =
    let ends = store_end_twice i first_end second_end r in
    let lost =
      store_begin_twice i first_begin second_begin _
      ∙ ap (store_begin i second_begin) ends
      ∙ stored-register i second_begin second_end r second found in
    (
      lost,
      ap (store_begin i second_begin) (store_end-store_begin i second_end first_begin _),
      λ a free out.
          ap (λ q. guarded q a) lost
          ∙ ground (arith, guarded-register second_begin second_end r a, free, out),
      store_begin_twice i second_begin first_begin _
          ∙ ap (store_begin i first_begin) ends
          ∙ stored-register i first_begin second_end r first found,
    )
