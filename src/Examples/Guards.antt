-- ===== src/Examples/Guards.antt =====
-- Instances for the registry of guard ranges, and two threads that register at the same time.
use doost.Base.{ℕ, false, ◌≡◌, refl, some, [], ◌∷◌, arith, pos, negsuc}
use doost.Registry.{Registry, entry, find_pool_index, register_pool_guard, entry_contains}
use doost.Registry.Lookup.{guarded}
use doost.Registry.Race.{race-register}
use doost.Registry.Stores.{
  Registers, Unregisters, index_of, store_end, store_begin, stores-find_pool_index,
}

-- One entry is taken, two are free.
abbrev registry : Registry
registry = entry 4096 8192 ∷ entry 0 0 ∷ entry 0 0 ∷ []

stores-find_pool_index_example :
    Registers 12288 16384 registry 13000 (index_of 0 registry)
    × Unregisters 12288 registry 13000 (index_of 12288 registry)
stores-find_pool_index_example = stores-find_pool_index 13000 12288 16384 registry (omega arith)

-- Two threads find the same free entry before either stores to it.
same_entry : index_of 0 registry ≡ some 1
unfolding index_of
same_entry = refl

race-register_example :
    let ends = store_end 1 24576 (store_end 1 16384 registry) in
    let lost = store_begin 1 20480 (store_begin 1 12288 ends) in
    (lost ≡ register_pool_guard 20480 24576 registry)
    × (store_begin 1 20480 (store_end 1 24576 (store_begin 1 12288 (store_end 1 16384 registry)))
        ≡ lost)
    × ((a : ℕ)
        → guarded registry a ≡ false
        → entry_contains (entry 20480 24576) a ≡ false
        → guarded lost a ≡ false)
    × (store_begin 1 12288 (store_begin 1 20480 ends) ≡ register_pool_guard 12288 24576 registry)
race-register_example =
    race-register 12288 16384 20480 24576 1 registry (omega arith) (omega arith) same_entry

-- The one guard range is lost, although there is another free entry.
abbrev one_lost : Registry
one_lost =
    store_begin 1 20480 (store_begin 1 12288 (store_end 1 24576 (store_end 1 16384 registry)))

lost_answer : find_pool_index one_lost 13000 ≡ negsuc 0
unfolding find_pool_index store_begin store_end
lost_answer = refl

-- The entry leads from the begin of the one to the end of the other.
abbrev torn : Registry
torn = store_begin 1 12288 (store_begin 1 20480 (store_end 1 24576 (store_end 1 16384 registry)))

torn_answer : find_pool_index torn 17000 ≡ pos 1
unfolding find_pool_index store_begin store_end
torn_answer = refl
