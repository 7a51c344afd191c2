-- ===== src/ParallelMemcpy/Invariant.antt =====
-- What holds in every state that the caller and the workers reach.
use doost.Base.{ℕ, ◌+◌, ◌-◌, ◌≤◌, ◌<◌, ◌≡◌, ◌≢◌, ◌⊎◌, Bool, true, false, arith}
use doost.Word.{word_mod}
use doost.Posix.{in_range}
use doost.ParallelMemcpy.{
  Memory, memcpy, WorkerState, Job, CallerPc, starting, idle, assigning, publishing, waiting,
  finished, stop_publishing, joining, stopped, WorkerPc, observing, checking, blocked, woken,
  copying, copied, exited, System,
}
use doost.ParallelMemcpy.Tasks.{part_offset, part_size}

-- Source and destination do not overlap, as std::memcpy asks.
abbrev pub Separate : Job → Type 0
Separate job = (job.dst + job.size ≤ job.src) ⊎ (job.src + job.size ≤ job.dst)

-- A worker with nothing to do has seen the generation `g`.
abbrev pub AtRest : ℕ → WorkerPc → Type 0
AtRest g (observing o) = o ≡ g
AtRest g (checking o) = o ≡ g
AtRest g (blocked o) = o ≡ g
AtRest g _ = ⊥

-- All workers rest, and have completed the last generation.
pub record Quiet (n : ℕ) (s : System) : Type 0 where
  pub count : s.worker_count ≡ n
  pub threads : s.threads ≡ n
  pub running : s.stopping ≡ false
  pub small : s.start_generation < word_mod
  pub rest : (i : ℕ) → i < n → AtRest s.start_generation (s.workers i)
  pub complete : (i : ℕ) → i < n → (s.worker_states i).completed_generation ≡ s.start_generation

-- Worker `i` has been handed its part.
abbrev pub Assigned : ℕ → Job → ℕ → WorkerState → Type 0
Assigned n job i w =
    (w.dst ≡ job.dst + part_offset job.size n i)
    × (w.src ≡ job.src + part_offset job.size n i)
    × (w.size ≡ part_size job.size n i)

-- A worker in generation `g`, where the one before is `p`: it has not copied yet, or it has.
abbrev pub Pending : (p g : ℕ) → WorkerPc → WorkerState → Type 0
Pending p g (observing o) w = (o ≡ p) × (w.completed_generation ≡ p)
Pending p g (checking o) w = (o ≡ p) × (w.completed_generation ≡ p)
Pending p g (blocked o) w = (o ≡ p) × (w.completed_generation ≡ p)
Pending p g (woken q) w = (q ≡ g) × (w.completed_generation ≡ p)
Pending p g (copying q) w = (q ≡ g) × (w.completed_generation ≡ p)
Pending p g _ w = ⊥

abbrev pub Written : (p g : ℕ) → WorkerPc → WorkerState → Type 0
Written p g (observing o) w = (o ≡ g) × (w.completed_generation ≡ g)
Written p g (checking o) w = (o ≡ g) × (w.completed_generation ≡ g)
Written p g (blocked o) w = (o ≡ g) × (w.completed_generation ≡ g)
Written p g (copied q) w = (q ≡ g) × (w.completed_generation ≡ p)
Written p g _ w = ⊥

-- What the memory holds at an address of the part of worker `i`.
abbrev pub copied_byte : Job → ℕ → ℕ
copied_byte job a = job.before (job.src + (a - job.dst))

abbrev pub in_part : ℕ → Job → ℕ → ℕ → Bool
in_part n job i a = in_range (job.dst + part_offset job.size n i) (part_size job.size n i) a

pub record Waiting (n p : ℕ) (job : Job) (g k : ℕ) (s : System) : Type 0 where
  pub count : s.worker_count ≡ n
  pub threads : s.threads ≡ n
  pub running : s.stopping ≡ false
  pub generation : s.start_generation ≡ g
  pub small : g < word_mod
  pub fresh : p ≢ g
  pub some_workers : n ≢ 0
  pub passed : (i : ℕ) → i < k → (s.worker_states i).completed_generation ≡ g
  pub index : k ≤ n
  pub assigned : (i : ℕ) → i < n → Assigned n job i (s.worker_states i)
  pub progress :
      (i : ℕ)
      → i < n
      → Pending p g (s.workers i) (s.worker_states i)
        ⊎ Written p g (s.workers i) (s.worker_states i)
  pub outside :
      (a : ℕ) → Separate job → in_range job.dst job.size a ≡ false → s.memory a ≡ job.before a
  pub untouched :
      (i a : ℕ)
      → Separate job
      → i < n
      → Pending p g (s.workers i) (s.worker_states i)
      → in_part n job i a ≡ true
      → s.memory a ≡ job.before a
  pub written :
      (i a : ℕ)
      → Separate job
      → i < n
      → Written p g (s.workers i) (s.worker_states i)
      → in_part n job i a ≡ true
      → s.memory a ≡ copied_byte job a

-- The memory after a job, byte by byte.
abbrev pub Copied : Job → Memory → Type 0
Copied job m = (a : ℕ) → Separate job → m a ≡ memcpy job.dst job.src job.size job.before a

pub record Assigning (n : ℕ) (job : Job) (k offset : ℕ) (s : System) : Type 0 where
  pub quiet : Quiet n s
  pub some_workers : n ≢ 0
  pub same : job.before ≡ s.memory
  pub at : offset ≡ part_offset job.size n k
  pub index : k < n
  pub assigned : (i : ℕ) → i < k → Assigned n job i (s.worker_states i)

pub record Publishing (n : ℕ) (job : Job) (s : System) : Type 0 where
  pub quiet : Quiet n s
  pub some_workers : n ≢ 0
  pub same : job.before ≡ s.memory
  pub assigned : (i : ℕ) → i < n → Assigned n job i (s.worker_states i)

-- `k` threads have been started.
pub record Starting (n k : ℕ) (s : System) : Type 0 where
  pub count : s.worker_count ≡ n
  pub threads : s.threads ≡ k
  pub index : k ≤ n
  pub running : s.stopping ≡ false
  pub generation : s.start_generation ≡ 0
  pub rest : (i : ℕ) → i < k → AtRest 0 (s.workers i)
  pub complete : (i : ℕ) → i < n → (s.worker_states i).completed_generation ≡ 0

-- A worker that has seen the generation `g`, or has gone.
abbrev pub Leaving : ℕ → WorkerPc → Type 0
Leaving g exited = Unit
Leaving g pc = AtRest g pc

pub record Stopping (n : ℕ) (s : System) : Type 0 where
  pub threads : s.threads ≤ n
  pub stopping : s.stopping ≡ true
  pub small : s.start_generation < word_mod
  pub leaving : (i : ℕ) → i < s.threads → Leaving s.start_generation (s.workers i)

-- A worker that has seen the generation `p`, or is on its way out.
abbrev pub Going : ℕ → WorkerPc → Type 0
Going p (woken o) = Unit
Going p pc = Leaving p pc

-- The first `k` threads have been joined; `p` is the generation before the last one.
pub record Joining (n p k : ℕ) (s : System) : Type 0 where
  pub threads : s.threads ≤ n
  pub stopping : s.stopping ≡ true
  pub fresh : p ≢ s.start_generation
  pub index : k ≤ s.threads
  pub going : (i : ℕ) → i < s.threads → Going p (s.workers i)
  pub joined : (i : ℕ) → i < k → s.workers i ≡ exited

abbrev pub Phase : ℕ → System → CallerPc → Type 0
Phase n s (starting k) = Starting n k s
Phase n s idle = Quiet n s
Phase n s (assigning job k offset) = Assigning n job k offset s
Phase n s (publishing job) = Publishing n job s
Phase n s (waiting job g k) = (p : ℕ) × Waiting n p job g k s
Phase n s (finished job) = Quiet n s × Copied job s.memory
Phase n s stop_publishing = Stopping n s
Phase n s (joining k) = (p : ℕ) × Joining n p k s
Phase n s stopped = s.threads ≡ 0

abbrev pub Inv : ℕ → System → Type 0
Inv n s = Phase n s s.caller

pub thread-le : {n : ℕ} (s : System) (c : CallerPc) → Phase n s c → s.threads ≤ n
thread-le s idle ph = omega (arith, ph.threads)
thread-le s (assigning job k offset) ph = omega (arith, ph.quiet.threads)
thread-le s (publishing job) ph = omega (arith, ph.quiet.threads)
thread-le s (waiting job g k) (p, w) = omega (arith, w.threads)
thread-le s (finished job) ph = omega (arith, ph.0.threads)
thread-le s (starting k) ph = omega (arith, ph.threads, ph.index)
thread-le s stop_publishing ph = ph.threads
thread-le s (joining k) (p, j) = j.threads
thread-le s stopped ph = omega (arith, ph)
