-- ===== src/Registry.antt =====
-- src/downward_pool_storage.cpp, the registry of guard ranges (g_pool_registry) that the signal
-- handler searches. An entry whose begin is 0 is free.
pub mod Lookup
pub mod Stores
pub mod Entries
pub mod Race
use doost.Base.{
  ℕ, zero, suc, ◌+◌, ◌≡◌, Bool, ◌&&◌, List, [], ◌∷◌, ltb, leb, ◌==◌, if◌then◌else◌, not, ℤ, pos,
  negsuc,
}

-- PoolRegistryEntry
pub record Entry : Type 0 where
  pub guard_begin : ℕ
  pub guard_end : ℕ

abbrev pub entry : ℕ → ℕ → Entry
entry b e = record { guard_begin = b; guard_end = e }

abbrev pub Registry : Type 0
Registry = List Entry

abbrev pub max_registered_pools : ℕ
max_registered_pools = 1024

-- The first free entry takes the range; a full registry drops it.
unfoldable pub register_pool_guard : (guard_begin guard_end : ℕ) → Registry → Registry
register_pool_guard b e [] = []
register_pool_guard b e (x ∷ xs) =
    if x.guard_begin == 0 then entry b e ∷ xs else x ∷ register_pool_guard b e xs

pub clear_first : ℕ → Registry → Registry
clear_first b [] = []
clear_first b (x ∷ xs) = if x.guard_begin == b then entry 0 0 ∷ xs else x ∷ clear_first b xs

unfoldable pub unregister_pool_guard : (guard_begin : ℕ) → Registry → Registry
unfolding clear_first
unregister_pool_guard b r = if b == 0 then r else clear_first b r

-- The test of one entry in the loop of find_pool_index.
abbrev pub entry_contains : Entry → ℕ → Bool
entry_contains x a = not (x.guard_begin == 0) && (leb x.guard_begin a && ltb a x.guard_end)

find_from : ℕ → Registry → ℕ → ℤ
find_from index [] a = negsuc 0
find_from index (x ∷ xs) a = if entry_contains x a then pos index else find_from (index + 1) xs a

-- -1 is the answer where no entry contains the address.
unfoldable pub find_pool_index : Registry → (fault_address : ℕ) → ℤ
unfolding find_from
find_pool_index r a = find_from 0 r a
