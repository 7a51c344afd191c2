-- ===== src/ParallelMemcpy.antt =====
-- src/parallel_memcpy.cpp: ParallelMemcpyPool, one copying thread and its workers, step by step.
-- `std::atomic` loads and stores are steps; a worker that waits on an atomic is blocked until the value
-- differs, the caller, which waits for a worker, looks again in each step. The module Notified adds the sleep
-- of a thread that waits, and the notifications.
pub mod State
pub mod Tasks
pub mod Invariant
pub mod ThreadMoves
pub mod CallerMoves
pub mod RestMoves
pub mod WorkerMoves
pub mod PhaseMoves
pub mod Result
pub mod Loops
pub mod Completion
pub mod Races
pub mod Fairness
pub mod Turns
pub mod Notified
pub mod WakeUps
use doost.Base.{
  ℕ, ◌+◌, ◌-◌, ◌*◌, ◌/◌, ◌<◌, ◌≡◌, ◌≢◌, ◌⊎◌, Bool, true, false, if◌then◌else◌, ◌==◌, leb, ltb,
}
use doost.Word.{add_word}
pub use doost.ParallelMemcpy.State.{
  Memory, memcpy, WorkerState, Job, CallerPc, starting, idle, assigning, publishing, waiting,
  finished, stop_publishing, joining, stopped, WorkerPc, unstarted, observing, checking, blocked,
  woken, copying, copied, exited, System, update, part,
}

-- A step of the caller.
pub data CallerStep (s : System) : System → Type 0 where
  start_thread :
      (index : ℕ)
      → s.caller ≡ starting index
      → index ≢ s.worker_count
      → CallerStep s (record s {
        threads = s.threads + 1;
        workers = update s.workers index (observing 0);
        caller = starting (index + 1);
      })
  -- The allocations before the first thread, or the start of a thread, have thrown.
  start_failed :
      (index : ℕ)
      → s.caller ≡ starting index
      → ((index ≡ 0) ⊎ (index ≢ s.worker_count))
      → CallerStep s (record s { stopping = true; caller = stop_publishing })
  start_end :
      (index : ℕ)
      → s.caller ≡ starting index
      → index ≡ s.worker_count
      → CallerStep s (record s { caller = idle })
  copy_nothing :
      (job : Job)
      → s.caller ≡ idle
      → job.before ≡ s.memory
      → job.size ≡ 0
      → CallerStep s (record s { caller = finished job })
  copy_alone :
      (job : Job)
      → s.caller ≡ idle
      → job.before ≡ s.memory
      → job.size ≢ 0
      → s.worker_count ≡ 0
      → CallerStep s
          (record s { memory = memcpy job.dst job.src job.size s.memory; caller = finished job })
  copy_parts :
      (job : Job)
      → s.caller ≡ idle
      → job.before ≡ s.memory
      → job.size ≢ 0
      → s.worker_count ≢ 0
      → CallerStep s (record s { caller = assigning job 0 0 })
  assign :
      (job : Job) (index offset : ℕ)
      → s.caller ≡ assigning job index offset
      → index ≢ s.worker_count - 1
      → CallerStep s (record s {
        worker_states =
            update s.worker_states index
              (part job offset (job.size / s.worker_count) (s.worker_states index));
        caller = assigning job (index + 1) (offset + job.size / s.worker_count);
      })
  assign_last :
      (job : Job) (index offset : ℕ)
      → s.caller ≡ assigning job index offset
      → index ≡ s.worker_count - 1
      → CallerStep s (record s {
        worker_states =
            update s.worker_states index
              (part job offset (job.size - offset) (s.worker_states index));
        caller = publishing job;
      })
  publish :
      (job : Job)
      → s.caller ≡ publishing job
      → CallerStep s (record s {
        start_generation = add_word s.start_generation 1;
        caller = waiting job (add_word s.start_generation 1) 0;
      })
  wait :
      (job : Job) (generation index : ℕ)
      → s.caller ≡ waiting job generation index
      → index ≢ s.worker_count
      → (s.worker_states index).completed_generation ≢ generation
      → CallerStep s s
  wait_next :
      (job : Job) (generation index : ℕ)
      → s.caller ≡ waiting job generation index
      → index ≢ s.worker_count
      → (s.worker_states index).completed_generation ≡ generation
      → CallerStep s (record s { caller = waiting job generation (index + 1) })
  wait_end :
      (job : Job) (generation index : ℕ)
      → s.caller ≡ waiting job generation index
      → index ≡ s.worker_count
      → CallerStep s (record s { caller = finished job })
  return : (job : Job) → s.caller ≡ finished job → CallerStep s (record s { caller = idle })
  stop : s.caller ≡ idle → CallerStep s (record s { stopping = true; caller = stop_publishing })
  stop_publish :
      s.caller ≡ stop_publishing
      → CallerStep s
          (record s { start_generation = add_word s.start_generation 1; caller = joining 0 })
  join :
      (index : ℕ)
      → s.caller ≡ joining index
      → index ≢ s.threads
      → s.workers index ≡ exited
      → CallerStep s (record s { caller = joining (index + 1) })
  joined :
      (index : ℕ)
      → s.caller ≡ joining index
      → index ≡ s.threads
      → CallerStep s
          (record s { worker_count = 0; threads = 0; stopping = false; caller = stopped })

-- What a worker copies.
abbrev pub copy_state : WorkerState → Memory → Memory
copy_state w = memcpy w.dst w.src w.size

-- A step of worker `i`.
pub data WorkerStep (s : System) (i : ℕ) : System → Type 0 where
  see_new :
      (observed : ℕ)
      → s.workers i ≡ observing observed
      → s.start_generation ≢ observed
      → WorkerStep s i (record s { workers = update s.workers i (woken s.start_generation) })
  see_old :
      (observed : ℕ)
      → s.workers i ≡ observing observed
      → s.start_generation ≡ observed
      → WorkerStep s i (record s { workers = update s.workers i (checking observed) })
  keep_waiting :
      (observed : ℕ)
      → s.workers i ≡ checking observed
      → s.stopping ≡ false
      → WorkerStep s i (record s { workers = update s.workers i (blocked observed) })
  wake :
      (observed : ℕ)
      → s.workers i ≡ blocked observed
      → s.start_generation ≢ observed
      → WorkerStep s i (record s { workers = update s.workers i (observing observed) })
  exit_waiting :
      (observed : ℕ)
      → s.workers i ≡ checking observed
      → s.stopping ≡ true
      → WorkerStep s i (record s { workers = update s.workers i exited })
  exit_woken :
      (generation : ℕ)
      → s.workers i ≡ woken generation
      → s.stopping ≡ true
      → WorkerStep s i (record s { workers = update s.workers i exited })
  start_copy :
      (generation : ℕ)
      → s.workers i ≡ woken generation
      → s.stopping ≡ false
      → WorkerStep s i (record s { workers = update s.workers i (copying generation) })
  copy_part :
      (generation : ℕ)
      → s.workers i ≡ copying generation
      → WorkerStep s i (record s {
        memory = copy_state (s.worker_states i) s.memory;
        workers = update s.workers i (copied generation);
      })
  complete :
      (generation : ℕ)
      → s.workers i ≡ copied generation
      → WorkerStep s i (record s {
        worker_states =
            update s.worker_states i
              (record (s.worker_states i) { completed_generation = generation });
        workers = update s.workers i (observing generation);
      })

pub data Step (s : System) : System → Type 0 where
  caller_step : {t : System} → CallerStep s t → Step s t
  worker_step : (i : ℕ) {t : System} → i < s.threads → WorkerStep s i t → Step s t

-- hardware_concurrency is the argument.
unfoldable pub default_thread_count : (hardware_threads : ℕ) → ℕ
default_thread_count hardware_threads =
    if leb hardware_threads 1
    then 0
    else let worker_threads = hardware_threads - 1 in
      if ltb worker_threads 8 then worker_threads else 8

-- The pool before `start_workers(thread_count)` starts a thread.
abbrev pub init : (thread_count : ℕ) → Memory → System
init n m = record {
  worker_count = n;
  threads = 0;
  worker_states = λ _. record { dst = 0; src = 0; size = 0; completed_generation = 0 };
  start_generation = 0;
  stopping = false;
  memory = m;
  caller = starting 0;
  workers = λ _. unstarted;
}

abbrev pub thread_count : System → ℕ
thread_count s = s.worker_count

-- ParallelMemcpyPool()
abbrev pub default_construct : (hardware_threads : ℕ) → Memory → System
default_construct hardware_threads = init (default_thread_count hardware_threads)

-- The pool of the functions `parallel_memcpy` and `parallel_memcpy_thread_count`, which forward to it.
abbrev pub default_pool : (hardware_threads : ℕ) → Memory → System
default_pool = default_construct

abbrev pub parallel_memcpy_thread_count : (hardware_threads : ℕ) → Memory → ℕ
parallel_memcpy_thread_count hardware_threads m = thread_count (default_pool hardware_threads m)

pub data Reach (n : ℕ) (m : Memory) : System → Type 0 where
  start : Reach n m (init n m)
  later : {s t : System} → Reach n m s → Step s t → Reach n m t
