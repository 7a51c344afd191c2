-- ===== src/ParallelMemcpy/State.antt =====
-- src/parallel_memcpy.cpp: the state of ParallelMemcpyPool, that is Impl and WorkerState, and where the
-- caller and the workers stand in their functions.
use doost.Base.{ℕ, ◌+◌, ◌-◌, Bool, if◌then◌else◌, ◌==◌}
use doost.Posix.{in_range}

-- The bytes by address.
abbrev pub Memory : Type 0
Memory = ℕ → ℕ

-- std::memcpy
abbrev pub memcpy : (dst src size : ℕ) → Memory → Memory
memcpy dst src size m a = if in_range dst size a then m (src + (a - dst)) else m a

pub record WorkerState : Type 0 where
  pub dst : ℕ
  pub src : ℕ
  pub size : ℕ
  pub completed_generation : ℕ

-- A call of `copy`, with the memory when it was made.
pub record Job : Type 0 where
  pub dst : ℕ
  pub src : ℕ
  pub size : ℕ
  pub before : Memory

-- Where the thread that owns the pool stands. The loop of `copy` that hands out the parts has done
-- `index` of them and is at `offset`; the loop that waits is at worker `index`; `starting` is the loop of
-- `start_workers` and `joining` that of `stop_workers`.
pub data CallerPc : Type 0 where
  starting : (index : ℕ) → CallerPc
  idle : CallerPc
  assigning : Job → (index offset : ℕ) → CallerPc
  publishing : Job → CallerPc
  waiting : Job → (generation index : ℕ) → CallerPc
  finished : Job → CallerPc
  stop_publishing : CallerPc
  joining : (index : ℕ) → CallerPc
  stopped : CallerPc

-- Where a worker stands in `worker_loop`.
pub data WorkerPc : Type 0 where
  unstarted : WorkerPc
  observing : (observed_generation : ℕ) → WorkerPc
  checking : (observed_generation : ℕ) → WorkerPc
  blocked : (observed_generation : ℕ) → WorkerPc
  woken : (generation : ℕ) → WorkerPc
  copying : (generation : ℕ) → WorkerPc
  copied : (generation : ℕ) → WorkerPc
  exited : WorkerPc

-- Impl, the memory and where the threads stand. Workers are numbered below `worker_count`;
-- `threads` is the size of the vector `workers`.
pub record System : Type 0 where
  pub worker_count : ℕ
  pub threads : ℕ
  pub worker_states : ℕ → WorkerState
  pub start_generation : ℕ
  pub stopping : Bool
  pub memory : Memory
  pub caller : CallerPc
  pub workers : ℕ → WorkerPc

abbrev pub update {ℓ} : {A : Type ℓ} → (ℕ → A) → ℕ → A → ℕ → A
update f i x j = if i == j then x else f j

-- The part of a job that begins at `offset`.
abbrev pub part : Job → (offset size : ℕ) → WorkerState → WorkerState
part job offset size w = record w { dst = job.dst + offset; src = job.src + offset; size = size }
