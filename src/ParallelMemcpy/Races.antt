-- ===== src/ParallelMemcpy/Races.antt =====
-- What the threads of ParallelMemcpyPool in src/parallel_memcpy.cpp touch at the same time: a worker that
-- copies reads its part of `worker_states` and moves bytes that are not atomic.
use doost.Base.{
  ℕ, ◌+◌, ◌≤◌, ◌<◌, ◌≡◌, ◌≢◌, ◌⊎◌, refl, arith, subst, Bool, false, ◌&&◌, ◌||◌, dec_lt, inl, inr,
}
use doost.Posix.{in_range}
use doost.ParallelMemcpy.{
  Memory, WorkerState, Job, CallerPc, starting, idle, assigning, publishing, waiting, finished,
  stop_publishing, joining, stopped, copying, System, Reach,
}
use doost.ParallelMemcpy.Tasks.{part_within, parts_in_order, part_offset, part_size}
use doost.ParallelMemcpy.Invariant.{Separate, Quiet, AtRest, Leaving, Going, Assigned, Phase}
use doost.ParallelMemcpy.Result.{Reach-Inv}

-- Whether two workers may touch one byte that one of them writes.
abbrev pub clash_at : WorkerState → WorkerState → ℕ → Bool
clash_at v w a = in_range v.dst v.size a && (in_range w.dst w.size a || in_range w.src w.size a)

-- The parts of two workers do not meet, and neither does the source of one the target of the other.
parts_apart :
    (n : ℕ) (job : Job) (i j a : ℕ) (v w : WorkerState)
    → Separate job
    → i < n
    → j < n
    → i ≢ j
    → Assigned n job i v
    → Assigned n job j w
    → clash_at v w a ≡ false
parts_apart n job i j a v w apart lt lt' differ x y =
    ground (arith, apart, x, y, part_within job.size n i lt, part_within job.size n j lt', orders)
  where
    orders :
        (part_offset job.size n i + part_size job.size n i ≤ part_offset job.size n j)
        ⊎ (part_offset job.size n j + part_size job.size n j ≤ part_offset job.size n i)
    orders = elim (dec_lt i j) [
      | yes first ↦ inl (parts_in_order job.size n i j first lt')
      | no later ↦ inr (parts_in_order job.size n j i (omega (arith, later, differ)) lt)
    ]

-- No thread copies where all rest.
quiet_idle :
    {n : ℕ} {s : System} {i g : ℕ} {A : Type 0}
    → Quiet n s
    → i < s.threads
    → s.workers i ≡ copying g
    → A
quiet_idle {s = s} {i} q lt e =
    absurd (subst (AtRest s.start_generation) e (q.rest i (omega (arith, lt, q.threads))))

module _ (n : ℕ) where
  copying_waits :
      (s : System) {i g : ℕ} (pc : CallerPc)
      → Phase n s pc
      → i < s.threads
      → s.workers i ≡ copying g
      → (job : Job) × (h k : ℕ) × (pc ≡ waiting job h k)
  copying_waits s (waiting job h k) ph lt e = (job, h, k, refl)
  copying_waits s {i} (starting k) ph lt e =
      absurd (subst (AtRest 0) e (ph.rest i (omega (arith, lt, ph.threads))))
  copying_waits s idle ph lt e = quiet_idle ph lt e
  copying_waits s (assigning job k offset) ph lt e = quiet_idle ph.quiet lt e
  copying_waits s (publishing job) ph lt e = quiet_idle ph.quiet lt e
  copying_waits s (finished job) ph lt e = quiet_idle ph.0 lt e
  copying_waits s {i} stop_publishing ph lt e =
      absurd (subst (Leaving s.start_generation) e (ph.leaving i lt))
  copying_waits s {i} (joining k) (p, j) lt e = absurd (subst (Going p) e (j.going i lt))
  copying_waits s stopped ph lt e = absurd (omega (arith, lt, ph))

  -- While two workers copy, in every interleaving, the caller is in the loop that waits, so that it
  -- writes neither the parts nor the memory, and no byte that one of the workers writes is read or
  -- written by the other, if source and destination of the job do not overlap.
  pub copying-apart :
      {m : Memory} {s : System} (i j : ℕ) {g h : ℕ}
      → Reach n m s
      → i < s.threads
      → j < s.threads
      → i ≢ j
      → s.workers i ≡ copying g
      → s.workers j ≡ copying h
      → ((job : Job) (l k : ℕ) → s.caller ≡ waiting job l k → Separate job)
      → (job : Job) × (l k : ℕ) × (s.caller ≡ waiting job l k)
        × ((a : ℕ) → clash_at (s.worker_states i) (s.worker_states j) a ≡ false)
  copying-apart {s} i j reach lt lt' differ e f apart =
      let inv = Reach-Inv n reach in
      let (job, l, k, at) = copying_waits s s.caller inv lt e in
      let (p, w) = subst (Phase n s) at inv in
      let small : i < n = omega (arith, lt, w.threads) in
      let small' : j < n = omega (arith, lt', w.threads) in
      (
        job,
        l,
        k,
        at,
        λ a.
            parts_apart n job i j a (s.worker_states i) (s.worker_states j) (apart job l k at) small
              small' differ (w.assigned i small) (w.assigned j small'),
      )
