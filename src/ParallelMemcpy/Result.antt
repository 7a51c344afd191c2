-- ===== src/ParallelMemcpy/Result.antt =====
-- What a caller of the pool may rely on.
use doost.Base.{
  ℕ_discrete, ℕ, ◌≤◌, ◌<◌, ◌≡◌, ◌≢◌, ◌⊎◌, inl, inr, refl, sym, arith, subst, ◌-◌, ◌↔◌, ◌==◌,
  if◌then◌else◌,
}
use doost.ParallelMemcpy.{
  Memory, memcpy, Job, finished, waiting, System, Step, caller_step, worker_step, Reach, start,
  later, default_thread_count, parallel_memcpy_thread_count, WorkerPc, unstarted, observing,
  checking, blocked, woken, copying, copied, exited, see_new, keep_waiting, wake, exit_waiting,
  exit_woken, joining, start_copy, copy_part, complete,
}
use doost.ParallelMemcpy.Invariant.{
  Separate, Phase, Inv, thread-le, Waiting, Pending, Written, Joining, Going,
}
use doost.ParallelMemcpy.CallerMoves.{Phase-caller}
use doost.ParallelMemcpy.RestMoves.{caller_kept}
use doost.ParallelMemcpy.PhaseMoves.{Phase-worker}

-- The steps that a worker still has to make to complete the generation `g`.
abbrev pub distance : ℕ → WorkerPc → ℕ
distance g unstarted = 0
distance g (observing o) = if o == g then 0 else 4
distance g (checking o) = if o == g then 0 else 6
distance g (blocked o) = if o == g then 0 else 5
distance g (woken o) = 3
distance g (copying o) = 2
distance g (copied o) = 1
distance g exited = 0

module _ (n : ℕ) where
  Step-Inv : {s t : System} → Step s t → Inv n s → Inv n t
  Step-Inv (caller_step st) inv = Phase-caller n st inv
  Step-Inv {s} {t} (worker_step i lt st) inv =
      let small : i < n = omega (arith, thread-le s s.caller inv) in
      subst (Phase n t) (sym (caller_kept st)) (Phase-worker small lt s.caller st inv)

  pub Reach-Inv : {m : Memory} {s : System} → Reach n m s → Inv n s
  Reach-Inv start = record {
    count = refl;
    threads = refl;
    index = omega arith;
    running = refl;
    generation = refl;
    rest = λ i lt. absurd (omega (arith, lt));
    complete = λ i lt. refl;
  }
  Reach-Inv (later r st) = Step-Inv st (Reach-Inv r)

  -- When a call of `copy` is about to return, whatever the interleaving and the number of workers,
  -- every byte of the memory is as after one std::memcpy of the whole range, if source and destination
  -- do not overlap.
  pub copy-memcpy :
      {m : Memory} {s : System} {job : Job}
      → Reach n m s
      → s.caller ≡ finished job
      → Separate job
      → (a : ℕ) → s.memory a ≡ memcpy job.dst job.src job.size job.before a
  copy-memcpy {s} reach e sep a = (subst (Phase n s) e (Reach-Inv reach)).1 a sep

  -- While the caller waits for worker `k`, that worker is not stuck and has not gone: it has a step
  -- that brings it nearer to completing the generation.
  pub waited_worker-steps :
      {m : Memory} {s : System} {job : Job} {g k : ℕ}
      → Reach n m s
      → s.caller ≡ waiting job g k
      → k < n
      → (s.worker_states k).completed_generation ≢ g
      → (t : System) × Step s t
        × (distance g (t.workers k) < distance g (s.workers k))
        × (t.caller ≡ s.caller)
  waited_worker-steps {s} {job} {g} {k} reach e lt late =
      let (p, w) = subst (Phase n s) e (Reach-Inv reach) in
      go w (s.workers k) refl (w.progress k lt)
    where
      go :
          {p : ℕ}
          → Waiting n p job g k s
          → (pc : WorkerPc) → s.workers k ≡ pc
          → (Pending p g (s.workers k) (s.worker_states k)
              ⊎ Written p g (s.workers k) (s.worker_states k))
          → (t : System) × Step s t
            × (distance g (t.workers k) < distance g (s.workers k))
            × (t.caller ≡ s.caller)
      go w (observing o) at side = (
        _,
        worker_step k (omega (arith, w.threads))
            (see_new o at (ground (arith, w.generation, w.fresh))),
        ground (arith, w.generation, w.fresh),
        refl,
      )
      go w (checking o) at side = (
        _,
        worker_step k (omega (arith, w.threads)) (keep_waiting o at w.running),
        ground (arith, w.fresh),
        refl,
      )
      go w (blocked o) at side = (
        _,
        worker_step k (omega (arith, w.threads))
            (wake o at (ground (arith, w.generation, w.fresh))),
        ground (arith, w.generation, w.fresh),
        refl,
      )
      go w unstarted at side = absurd (ground arith)
      go w (woken o) at side = (
        _,
        worker_step k (omega (arith, w.threads)) (start_copy o at w.running),
        ground arith,
        refl,
      )
      go w (copying o) at side =
          (_, worker_step k (omega (arith, w.threads)) (copy_part o at), ground arith, refl)
      go w (copied o) at side =
          (_, worker_step k (omega (arith, w.threads)) (complete o at), ground arith, refl)
      go w exited at side = absurd (ground arith)

-- The steps that a worker still has to make to exit once it is told to.
abbrev pub to_exit : WorkerPc → ℕ
to_exit (checking o) = 1
to_exit (woken o) = 1
to_exit (observing o) = 2
to_exit (blocked o) = 3
to_exit _ = 0

module _ (n : ℕ) where
  -- While stop_workers joins thread `k`, in the destructor or after a failed start, it is past the last
  -- thread, or that thread has exited or has a step that brings it nearer to its exit, even if it was
  -- blocked when it was told to stop; and all threads before `k` have exited.
  pub joined_worker-steps :
      {m : Memory} {s : System} {k : ℕ}
      → Reach n m s
      → s.caller ≡ joining k
      → ((k ≡ s.threads)
          ⊎ (s.workers k ≡ exited)
          ⊎ ((t : System) × Step s t
              × (to_exit (t.workers k) < to_exit (s.workers k))
              × (t.caller ≡ s.caller)
              × (t.threads ≡ s.threads)))
        × ((i : ℕ) → i < k → s.workers i ≡ exited)
  joined_worker-steps {s} {k} reach e =
      let (p, j) = subst (Phase n s) e (Reach-Inv n reach) in
      (
        elim (ℕ_discrete k s.threads) [
          | yes end ↦ inl end
          | no more ↦
              let lt : k < s.threads = omega (arith, j.index, more) in
              inr (go j lt (s.workers k) refl (j.going k lt))
        ],
        j.joined,
      )
    where
      go :
          {p : ℕ}
          → Joining n p k s
          → k < s.threads
          → (pc : WorkerPc) → s.workers k ≡ pc
          → Going p pc
          → (s.workers k ≡ exited)
            ⊎ ((t : System) × Step s t
                × (to_exit (t.workers k) < to_exit (s.workers k))
                × (t.caller ≡ s.caller)
                × (t.threads ≡ s.threads))
      go j lt exited at side = inl at
      go j lt (observing o) at side =
          inr
            (_, worker_step k lt (see_new o at (ground (arith, j.fresh))), ground arith, refl, refl)
      go j lt (blocked o) at side =
          inr (_, worker_step k lt (wake o at (ground (arith, j.fresh))), ground arith, refl, refl)
      go j lt (checking o) at side =
          inr (_, worker_step k lt (exit_waiting o at j.stopping), ground arith, refl, refl)
      go j lt (woken o) at side =
          inr (_, worker_step k lt (exit_woken o at j.stopping), ground arith, refl, refl)
      go j lt unstarted at side = absurd side
      go j lt (copying o) at side = absurd side
      go j lt (copied o) at side = absurd side

-- The default number of workers leaves one hardware thread to the caller, is at most 8, and is 0
-- exactly where there is at most one hardware thread.
default_thread_count_bounds :
    (hardware_threads : ℕ) (m : Memory)
    → (parallel_memcpy_thread_count hardware_threads m ≤ 8)
      × (parallel_memcpy_thread_count hardware_threads m ≤ hardware_threads - 1)
      × ((parallel_memcpy_thread_count hardware_threads m ≡ 0) ↔ (hardware_threads ≤ 1))
unfolding default_thread_count
default_thread_count_bounds hardware_threads m = ground arith
