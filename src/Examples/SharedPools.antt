-- ===== src/Examples/SharedPools.antt =====
-- Instances for the pools that several threads use.
use doost.Base.{ℕ, ◌+◌, ◌^◌, ◌≤◌, ◌<◌, ◌≡◌, refl, true, [], ◌∷◌, arith, get_elem?, some}
use doost.Posix.{simple_posix, simple_laws, simple_start}
use doost.Storage.{storage}
use doost.Blocks.{Block, Request, request, Answers, demand}
use doost.DownwardPool
use doost.NonblockingPool.{NonblockingPool, pool, allocate, fetch_sub, reservation}
use doost.NonblockingPool.Reservation.{IsAsked, block_at, reserved_by}
use doost.NonblockingPool.Threads
use doost.MutexPool.{Call, Protected, perform}
use doost.MutexPool.Blocks.{asked, given, keeps_blocks, threads-Answers}
use doost.Examples.Pools.{made, made_pool, made_process}
use doost.DownwardPool.Room.{floor, ceiling}
use doost.MutexPool.Threads.{in_turn, answers_in_turn}
use doost.MutexPool.Threads as MutexThreads
use doost.MutexPool.Linear.{inside, methods_in_turn}

-- 64 KiB above one guard page.
abbrev shared_pool : NonblockingPool
shared_pool = pool (storage (2 ^ 32) 69632) (2 ^ 32 + 69632)

abbrev small_request : Request
small_request = request 24 8

abbrev wide_request : Request
wide_request = request 100 64

small-IsAsked : IsAsked small_request
small-IsAsked = record {
  power = record { exponent = 3; exponent_lt = omega arith; is_power = refl };
  fits = omega arith;
}

wide-IsAsked : IsAsked wide_request
wide-IsAsked = record {
  power = record { exponent = 6; exponent_lt = omega arith; is_power = refl };
  fits = omega arith;
}

allocate_wide : (allocate 100 64 shared_pool).0 ≡ 2 ^ 32 + 69504
unfolding allocate
allocate_wide = refl

reservation_wide : reservation 100 64 ≡ 176
unfolding reservation
reservation_wide = refl

-- Thread 0 fetches, thread 1 fetches and finishes.
abbrev both_fetched : Threads.System
both_fetched = record {
  shared = (fetch_sub 100 64 (fetch_sub 24 8 shared_pool).1).1;
  pc =
      Threads.update
        (Threads.update (λ _. Threads.Pc.outside) 0
          (Threads.Pc.fetched (fetch_sub 24 8 shared_pool).0 small_request))
        1 (Threads.Pc.fetched (fetch_sub 100 64 (fetch_sub 24 8 shared_pool).1).0 wide_request);
  returned_blocks = [];
  requests = wide_request ∷ small_request ∷ [];
  reserved = 0 + reserved_by small_request + reserved_by wide_request;
}

both_fetched-Reach : Threads.Reach shared_pool both_fetched
both_fetched-Reach =
    Threads.Reach.later
      (Threads.Reach.later Threads.Reach.start (Threads.Step.fetch 0 small_request refl))
      (Threads.Step.fetch 1 wide_request refl)

-- Then thread 1 finishes while thread 0 is under way.
abbrev one_finished : Threads.System
one_finished = record both_fetched {
  pc = Threads.update both_fetched.pc 1 Threads.Pc.outside;
  returned_blocks = block_at (fetch_sub 100 64 (fetch_sub 24 8 shared_pool).1).0 wide_request ∷ [];
}

one_finished-Reach : Threads.Reach shared_pool one_finished
one_finished-Reach =
    Threads.Reach.later both_fetched-Reach (Threads.Step.finish 1 _ wide_request refl)

abbrev protected_pool : Protected simple_posix
protected_pool = (
  DownwardPool.pool (storage (2 ^ 32) 69632) (2 ^ 32 + 69632),
  record { system = simple_start; registry = [] },
)

-- Threads 0 and 1 call `allocate`; thread 0 has the mutex.
abbrev contended : MutexThreads.System simple_posix
contended = record {
  shared = protected_pool;
  owner = some 0;
  pc =
      MutexThreads.update simple_posix
        (MutexThreads.update simple_posix
          (MutexThreads.update simple_posix (λ _. MutexThreads.Pc.outside) 0
            (MutexThreads.Pc.waiting (Call.allocate 24 8)))
          1 (MutexThreads.Pc.waiting (Call.allocate 100 16)))
        0 (MutexThreads.Pc.holding (Call.allocate 24 8));
  history = [];
  answers = [];
}

contended-Reach : MutexThreads.Reach simple_posix protected_pool contended
contended-Reach =
    MutexThreads.Reach.later
      (MutexThreads.Reach.later
        (MutexThreads.Reach.later MutexThreads.Reach.start
          (MutexThreads.Step.call 0 (Call.allocate 24 8) refl))
        (MutexThreads.Step.call 1 (Call.allocate 100 16) refl))
      (MutexThreads.Step.lock 0 (Call.allocate 24 8) refl refl)

methods_in_turn_example :
    ((i j : ℕ)
      → inside simple_posix (contended.pc i) ≡ true
      → inside simple_posix (contended.pc j) ≡ true
      → i ≡ j)
    × (contended.shared ≡ in_turn simple_posix protected_pool contended.history)
    × (contended.answers ≡ answers_in_turn simple_posix protected_pool contended.history)
methods_in_turn_example = methods_in_turn simple_posix contended-Reach

-- Thread 0 has called `allocate` on a pool just made and has written the pool.
abbrev wanted : Call
wanted = Call.allocate 24 8

abbrev made_protected : Protected simple_posix
made_protected = (made_pool, made_process)

abbrev written : MutexThreads.System simple_posix
written = record {
  shared = (perform simple_posix wanted made_protected).1;
  owner = some 0;
  pc =
      MutexThreads.update simple_posix
        (MutexThreads.update simple_posix
          (MutexThreads.update simple_posix
            (MutexThreads.update simple_posix (λ _. MutexThreads.Pc.outside) 0
              (MutexThreads.Pc.waiting wanted))
            0 (MutexThreads.Pc.holding wanted))
          0 (MutexThreads.Pc.working wanted made_protected))
        0 MutexThreads.Pc.leaving;
  history = wanted ∷ [];
  answers = (perform simple_posix wanted made_protected).0 ∷ [];
}

written-Reach : MutexThreads.Reach simple_posix made_protected written
written-Reach =
    MutexThreads.Reach.later
      (MutexThreads.Reach.later
        (MutexThreads.Reach.later
          (MutexThreads.Reach.later MutexThreads.Reach.start (MutexThreads.Step.call 0 wanted refl))
          (MutexThreads.Step.lock 0 wanted refl refl))
        (MutexThreads.Step.read 0 wanted refl))
      (MutexThreads.Step.write 0 wanted made_protected refl)

threads-Answers_example :
    let bs = given written.history written.answers in
    Answers
      (floor made.layout.guard made_pool.storage)
      (ceiling made_pool.storage)
      (asked written.history)
      bs
    × ((i : ℕ) (b : Block) (a : ℕ)
        → get_elem? bs i ≡ some b
        → b.address ≤ a
        → a < b.address + b.bytes
        → simple_posix.accessible written.shared.1.system a ≡ true)
threads-Answers_example =
    threads-Answers simple_posix simple_laws made written-Reach (unfold keeps_blocks in (refl, tt))
      (unfold asked in (small-IsAsked.power, tt)) (unfold asked demand in omega arith)
