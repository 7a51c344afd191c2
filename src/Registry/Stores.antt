-- ===== src/Registry/Stores.antt =====
-- register_pool_guard and unregister_pool_guard store by store, as a signal that comes between two
-- stores finds the registry.
use doost.Base.{
  ℕ, zero, suc, ◌+◌, ◌≡◌, refl, ap, ◌∙◌, Bool, true, false, Option, none, some, [], ◌∷◌, arith,
  ◌==◌, if◌then◌else◌, pos, ◌≢◌, sym,
}
use doost.Registry.{
  Entry, Registry, register_pool_guard, clear_first, unregister_pool_guard, entry_contains,
  find_from, find_pool_index,
}

next_index : Option ℕ → Option ℕ
next_index none = none
next_index (some i) = some (suc i)

-- Where the loops stop: the first entry that begins at `b`, which is 0 for a free one.
unfoldable pub index_of : ℕ → Registry → Option ℕ
unfolding next_index
index_of b [] = none
index_of b (x ∷ xs) =
    let later = next_index (index_of b xs) in if x.guard_begin == b then some 0 else later

unfoldable pub store_end : (index guard_end : ℕ) → Registry → Registry
store_end i e [] = []
store_end zero e (x ∷ xs) = record x { guard_end = e } ∷ xs
store_end (suc i) e (x ∷ xs) = x ∷ store_end i e xs

unfoldable pub store_begin : (index guard_begin : ℕ) → Registry → Registry
store_begin i b [] = []
store_begin zero b (x ∷ xs) = record x { guard_begin = b } ∷ xs
store_begin (suc i) b (x ∷ xs) = x ∷ store_begin i b xs

-- The registry after the store of the end answers as before, after both it is the one of the call.
abbrev pub Registers : (b e : ℕ) → Registry → ℕ → Option ℕ → Type 0
Registers b e r a none = register_pool_guard b e r ≡ r
Registers b e r a (some i) =
    (find_pool_index (store_end i e r) a ≡ find_pool_index r a)
    × (store_begin i b (store_end i e r) ≡ register_pool_guard b e r)

-- The registry after the store of the begin answers as after the call, which is after both.
abbrev pub Unregisters : (b : ℕ) → Registry → ℕ → Option ℕ → Type 0
Unregisters b r a none = unregister_pool_guard b r ≡ r
Unregisters b r a (some i) =
    (find_pool_index (store_begin i 0 r) a ≡ find_pool_index (unregister_pool_guard b r) a)
    × (store_end i 0 (store_begin i 0 r) ≡ unregister_pool_guard b r)

module _ (a : ℕ) where
  RegistersFrom : (b e n : ℕ) → Registry → Option ℕ → Type 0
  RegistersFrom b e n r none = register_pool_guard b e r ≡ r
  RegistersFrom b e n r (some i) =
      (find_from n (store_end i e r) a ≡ find_from n r a)
      × (store_begin i b (store_end i e r) ≡ register_pool_guard b e r)

  UnregistersFrom : (b n : ℕ) → Registry → Option ℕ → Type 0
  UnregistersFrom b n r none = clear_first b r ≡ r
  UnregistersFrom b n r (some i) =
      (find_from n (store_begin i 0 r) a ≡ find_from n (clear_first b r) a)
      × (store_end i 0 (store_begin i 0 r) ≡ clear_first b r)

  module _ (b n : ℕ) (x : Entry) (xs : Registry) where
    registers_cons :
        (e : ℕ) (t : Bool)
        → (x.guard_begin == 0) ≡ t
        → (o : Option ℕ) → RegistersFrom b e (n + 1) xs o
        → RegistersFrom b e n (x ∷ xs) (if t then some 0 else next_index o)
    unfolding RegistersFrom register_pool_guard store_end store_begin find_from next_index
    registers_cons e true free o later = (ground (arith, free), rw free refl)
    registers_cons e false taken none later = rw taken (ap (λ ys. x ∷ ys) later)
    registers_cons e false taken (some i) later = (
      ap (λ z. if entry_contains x a then pos n else z) later.0,
      rw taken (ap (λ ys. x ∷ ys) later.1),
    )

    unregisters_cons :
        (t : Bool)
        → (x.guard_begin == b) ≡ t
        → (o : Option ℕ) → UnregistersFrom b (n + 1) xs o
        → UnregistersFrom b n (x ∷ xs) (if t then some 0 else next_index o)
    unfolding UnregistersFrom clear_first store_end store_begin find_from next_index
    unregisters_cons true here o later = (rw here refl, rw here refl)
    unregisters_cons false away none later = rw away (ap (λ ys. x ∷ ys) later)
    unregisters_cons false away (some i) later = (
      rw away (ap (λ z. if entry_contains x a then pos n else z) later.0),
      rw away (ap (λ ys. x ∷ ys) later.1),
    )

  registers : (b e n : ℕ) (r : Registry) → RegistersFrom b e n r (index_of 0 r)
  unfolding index_of RegistersFrom register_pool_guard
  registers b e n [] = refl
  registers b e n (x ∷ xs) =
      registers_cons b n x xs e (x.guard_begin == 0) refl (index_of 0 xs) (registers b e (n + 1) xs)

  unregisters : (b n : ℕ) (r : Registry) → UnregistersFrom b n r (index_of b r)
  unfolding index_of UnregistersFrom clear_first
  unregisters b n [] = refl
  unregisters b n (x ∷ xs) =
      unregisters_cons b n x xs (x.guard_begin == b) refl (index_of b xs) (unregisters b (n + 1) xs)

  RegistersFrom-Registers :
      (b e : ℕ) (r : Registry) (o : Option ℕ) → RegistersFrom b e 0 r o → Registers b e r a o
  unfolding RegistersFrom find_pool_index
  RegistersFrom-Registers b e r none stored = stored
  RegistersFrom-Registers b e r (some i) stored = stored

  UnregistersFrom-Unregisters :
      (b : ℕ) (r : Registry) (o : Option ℕ)
      → clear_first b r ≡ unregister_pool_guard b r
      → UnregistersFrom b 0 r o
      → Unregisters b r a o
  unfolding UnregistersFrom find_pool_index
  UnregistersFrom-Unregisters b r none same stored = sym same ∙ stored
  UnregistersFrom-Unregisters b r (some i) same stored =
      (stored.0 ∙ ap (λ q. find_from 0 q a) same, stored.1 ∙ same)

  -- A handler that comes between the two stores of a registration finds what it would have found before
  -- the call, and one that comes between the two stores of an unregistration finds what it finds after
  -- the call; both stores together are the call, and with no entry to store to the call changes nothing.
  pub stores-find_pool_index :
      (b e : ℕ) (r : Registry)
      → b ≢ 0
      → Registers b e r a (index_of 0 r) × Unregisters b r a (index_of b r)
  unfolding unregister_pool_guard
  stores-find_pool_index b e r pointer = (
    RegistersFrom-Registers b e r (index_of 0 r) (registers b e 0 r),
    UnregistersFrom-Unregisters b r (index_of b r) (ground (arith, pointer)) (unregisters b 0 r),
  )
