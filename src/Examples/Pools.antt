-- ===== src/Examples/Pools.antt =====
-- Tests and instances for the word operations, the registry, the storage and DownwardPool.
use doost.Base.{
  ℕ, ◌+◌, ◌-◌, ◌^◌, ◌≤◌, ◌<◌, ◌≡◌, refl, false, true, List, [], ◌∷◌, arith, returned, thrown,
  length_error, pos, negsuc, get_elem?, some,
}
use doost.Word.{IsPowerOfTwo}
use doost.Posix.{simple_posix, simple_laws, simple_start}
use doost.Registry.{entry, find_pool_index}
use doost.Storage.{
  storage, Process, round_up, make_downward_pool_storage, downward_pool_mapping_end,
}
use doost.Storage.Make.{Made, make-Made}
use doost.Blocks.{Block, block, Request, request, Answers, Aligned, demand}
use doost.DownwardPool.{
  DownwardPool, pool, construct, allocate, usable_bytes, release, put, Pools, empty_pool,
}
use doost.DownwardPool.Room.{floor, ceiling}
use doost.DownwardPool.Allocate.{IsPool, allocate_all}
use doost.DownwardPool.Construct.{
  Constructed, construct-Construction, construct-allocate_all, usable_bytes-guarded,
}
use doost.DownwardPool.Release.{release-construct}
use doost.DownwardPool.Moves.{Exclusive}

abbrev pub sixteen : IsPowerOfTwo 16
sixteen = record { exponent = 4; exponent_lt = omega arith; is_power = refl }

abbrev pub started : Process simple_posix
started = record { system = simple_start; registry = entry 0 0 ∷ entry 0 0 ∷ [] }

round_up_example : round_up 8193 4096 ≡ 12288
unfolding round_up
round_up_example = refl

find_pool_index_example :
    (find_pool_index (entry 0 0 ∷ entry 4096 8192 ∷ []) 5000 ≡ pos 1)
    × (find_pool_index (entry 0 0 ∷ entry 4096 8192 ∷ []) 8192 ≡ negsuc 0)
unfolding find_pool_index
find_pool_index_example = (refl, refl)

abbrev pub made_pool : DownwardPool
made_pool = pool (storage (2 ^ 32) 12288) (2 ^ 32 + 12288)

construct_example : (construct simple_posix 8192 64 started).0 ≡ returned made_pool
unfolding construct make_downward_pool_storage downward_pool_mapping_end
construct_example = refl

construct_too_large : (construct simple_posix (2 ^ 64 - 4096) 4096 started).0 ≡ thrown length_error
unfolding construct make_downward_pool_storage downward_pool_mapping_end
construct_too_large = refl

make-Made_example :
    Made simple_posix simple_laws 8192 64 started
      (make_downward_pool_storage simple_posix 8192 64 started)
make-Made_example = make-Made simple_posix simple_laws 8192 64 started (omega arith) (omega arith)

-- The process after the pool is made.
abbrev pub made_process : Process simple_posix
made_process = (construct simple_posix 8192 64 started).1

pub made : Constructed simple_posix simple_laws 8192 64 started made_pool made_process
unfolding construct make_downward_pool_storage downward_pool_mapping_end
made = construct-Construction simple_posix simple_laws 8192 64 started (omega arith) (omega arith)

abbrev requests : List Request
requests = request 24 8 ∷ request 100 16 ∷ []

requests-Aligned : Aligned requests
requests-Aligned =
    (record { exponent = 3; exponent_lt = omega arith; is_power = refl }, (sixteen, tt))

construct-allocate_all_example :
    Answers
      (floor made.layout.guard made_pool.storage)
      (ceiling made_pool.storage)
      requests
      (allocate_all requests made_pool).0
    × ((i : ℕ) (b : Block) (a : ℕ)
        → get_elem? (allocate_all requests made_pool).0 i ≡ some b
        → b.address ≤ a
        → a < b.address + b.bytes
        → simple_posix.accessible made_process.system a ≡ true)
construct-allocate_all_example =
    construct-allocate_all simple_posix simple_laws requests made requests-Aligned
      (unfold demand in omega arith)

allocate_all_example :
    (allocate_all requests made_pool).0
    ≡ block (2 ^ 32 + 12264) 24 ∷ block (2 ^ 32 + 12160) 100 ∷ []
unfolding allocate_all allocate
allocate_all_example = refl

made_pool-IsPool : IsPool 4096 4096 made_pool
made_pool-IsPool = record {
  laid = record {
    begin_pos = omega arith;
    begin_page = refl;
    guard_page = refl;
    guard_le = omega arith;
    in_space = omega arith;
  };
  above = omega arith;
  below = omega arith;
}

-- A pool for requests of up to 5000 bytes has two guard pages.
abbrev large_pool : DownwardPool
large_pool = pool (storage (2 ^ 32) 16384) (2 ^ 32 + 16384)

abbrev large_process : Process simple_posix
large_process = (construct simple_posix 8192 5000 started).1

large : Constructed simple_posix simple_laws 8192 5000 started large_pool large_process
unfolding construct make_downward_pool_storage downward_pool_mapping_end
large =
    construct-Construction simple_posix simple_laws 8192 5000 started (omega arith) (omega arith)

usable_bytes-guarded_example :
    simple_posix.accessible large_process.system
      (ceiling large_pool.storage - usable_bytes simple_posix large_process.system large_pool)
    ≡ false
usable_bytes-guarded_example =
    usable_bytes-guarded simple_posix simple_laws large_process.system large refl (omega arith)

release-construct_example :
    let after = (release simple_posix made_pool made_process).1 in
    (after.system.regions ≡ [])
    × (after.registry ≡ started.registry)
    × ((a : ℕ)
        → made_pool.storage.mapping_begin ≤ a
        → a < ceiling made_pool.storage
        → after.system.accessible a ≡ false)
release-construct_example = release-construct simple_posix simple_laws made (omega arith)

-- The pool objects 1 and 2, with nothing in 2.
abbrev two_pools : Pools
two_pools = put (λ _. empty_pool) 1 made_pool

two_pools-Exclusive : Exclusive two_pools
two_pools-Exclusive i j e ne = ground arith
