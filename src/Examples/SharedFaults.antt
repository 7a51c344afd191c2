-- ===== src/Examples/SharedFaults.antt =====
-- Instances for a NonblockingDownwardPool from its construction to its overflow.
use doost.Base.{
  ℕ, ◌+◌, ◌-◌, ◌%◌, ◌^◌, ◌≤◌, ◌<◌, ◌≡◌, ◌≢◌, refl, arith, true, [], ◌∷◌, some, get_elem?,
}
use doost.Posix.{simple_posix, simple_laws}
use doost.Storage.{storage, Process}
use doost.Blocks.{Block, Request, request, Apart}
use doost.NonblockingPool.{
  NonblockingPool, pool, construct, allocate, fetch_sub, reservation, used_bytes,
}
use doost.NonblockingPool.Reservation.{IsAsked, reserved_by, block_at}
use doost.NonblockingPool.Threads
use doost.NonblockingPool.Construct.{SharedPool, construct-Construction, threads_accessible}
use doost.Examples.Pools.{started}

abbrev fresh_pool : NonblockingPool
fresh_pool = pool (storage (2 ^ 32) 12288) (2 ^ 32 + 12288)

abbrev fresh_process : Process simple_posix
fresh_process = (construct simple_posix 8192 64 started).1

fresh_pool-SharedPool : SharedPool simple_posix simple_laws 8192 64 started fresh_pool fresh_process
unfolding construct doost.Storage.make_downward_pool_storage doost.Storage.downward_pool_mapping_end
fresh_pool-SharedPool =
    construct-Construction simple_posix simple_laws 8192 64 started (omega arith) (omega arith)

abbrev large_request : Request
large_request = request 8150 1

large-IsAsked : IsAsked large_request
large-IsAsked = record {
  power = record { exponent = 0; exponent_lt = omega arith; is_power = refl };
  fits = omega arith;
}

abbrev last_request : Request
last_request = request 64 16

-- Thread 0 has reserved all but 32 of the usable bytes.
abbrev nearly_full : Threads.System
nearly_full = record {
  shared = (fetch_sub 8150 1 fresh_pool).1;
  pc =
      Threads.update (λ _. Threads.Pc.outside) 0
        (Threads.Pc.fetched (fetch_sub 8150 1 fresh_pool).0 large_request);
  returned_blocks = [];
  requests = large_request ∷ [];
  reserved = 0 + reserved_by large_request;
}

nearly_full-Reach : Threads.Reach fresh_pool nearly_full
nearly_full-Reach =
    Threads.Reach.later Threads.Reach.start (Threads.Step.fetch 0 large_request refl)

threads_accessible_example :
    ((k : ℕ) (b : Block) (a : ℕ)
      → get_elem? nearly_full.returned_blocks k ≡ some b
      → b.address ≤ a
      → a < b.address + b.bytes
      → simple_posix.accessible fresh_process.system a ≡ true)
    × ((k l : ℕ) (b d : Block)
        → k ≢ l
        → get_elem? nearly_full.returned_blocks k ≡ some b
        → get_elem? nearly_full.returned_blocks l ≡ some d
        → Apart b d)
    × ((i k e : ℕ) (r : Request) (b : Block)
        → nearly_full.pc i ≡ Threads.Pc.fetched e r
        → get_elem? nearly_full.returned_blocks k ≡ some b
        → Apart (block_at e r) b)
    × ((i e : ℕ) (r : Request)
        → nearly_full.pc i ≡ Threads.Pc.fetched e r
        → ((block_at e r).address % r.alignment ≡ 0)
          × ((a : ℕ)
              → (block_at e r).address ≤ a
              → a < (block_at e r).address + r.bytes
              → simple_posix.accessible fresh_process.system a ≡ true))
    × ((i j e d : ℕ) (r t : Request)
        → i ≢ j
        → nearly_full.pc i ≡ Threads.Pc.fetched e r
        → nearly_full.pc j ≡ Threads.Pc.fetched d t
        → Apart (block_at e r) (block_at d t))
    × (used_bytes nearly_full.shared ≡ nearly_full.reserved)
threads_accessible_example =
    threads_accessible simple_posix simple_laws fresh_pool-SharedPool (omega arith)
      nearly_full-Reach (unfold reservation in omega arith) (large-IsAsked, tt)

-- A pool for requests of up to 4096 bytes looks the same, with one guard page. Where two threads ask for that
-- much before the first touches its block, the first block begins in the guard page, the second one below
-- the mapping.
overflow_run :
    let (first, p) = allocate 4096 16 nearly_full.shared in
    let (second, q) = allocate 4096 16 p in (first ≡ 2 ^ 32 + 32) × (second ≡ 2 ^ 32 - 4064)
unfolding allocate fetch_sub
overflow_run = (refl, refl)
