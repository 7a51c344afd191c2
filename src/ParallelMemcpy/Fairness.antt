-- ===== src/ParallelMemcpy/Fairness.antt =====
-- What the steps of any thread do to the worker that `copy` in src/parallel_memcpy.cpp waits for.
use doost.Base.{ℕ, ◌≤◌, ◌<◌, ◌≡◌, ◌≢◌, ◌⊎◌, inl, inr, refl, sym, ap, ◌∙◌, arith, subst, ℕ_discrete}
use doost.ParallelMemcpy.{
  Memory, Job, waiting, starting, WorkerPc, unstarted, observing, checking, blocked, woken, copying,
  copied, exited, System, Step, caller_step, worker_step, CallerStep, WorkerStep, Reach,
  start_thread, start_failed, start_end, copy_nothing, copy_alone, copy_parts, assign, assign_last,
  publish, wait, wait_next, wait_end, return, stop, stop_publish, join, joined, see_new, see_old,
  keep_waiting, wake, exit_waiting, exit_woken, start_copy, copy_part, complete,
}
use doost.ParallelMemcpy.Invariant.{Phase, Waiting, Pending, Written}
use doost.ParallelMemcpy.Result.{Reach-Inv, distance}

-- A caller that waits moves no worker.
caller_keeps :
    {s t : System} {job : Job} {g k : ℕ}
    → CallerStep s t
    → s.caller ≡ waiting job g k
    → t.workers ≡ s.workers
caller_keeps (start_thread i e h) at = absurd (starting_apart (sym e ∙ at))
  where
    starting_apart : {i : ℕ} {job : Job} {g k : ℕ} → starting i ≡ waiting job g k → ⊥
    starting_apart e = cc
caller_keeps (start_failed i e h) at = refl
caller_keeps (start_end i e h) at = refl
caller_keeps (copy_nothing j e b h) at = refl
caller_keeps (copy_alone j e b h l) at = refl
caller_keeps (copy_parts j e b h l) at = refl
caller_keeps (assign j i o e h) at = refl
caller_keeps (assign_last j i o e h) at = refl
caller_keeps (publish j e) at = refl
caller_keeps (wait j g i e h c) at = refl
caller_keeps (wait_next j g i e h c) at = refl
caller_keeps (wait_end j g i e h) at = refl
caller_keeps (return j e) at = refl
caller_keeps (stop e) at = refl
caller_keeps (stop_publish e) at = refl
caller_keeps (join i e h x) at = refl
caller_keeps (joined i e h) at = refl

module _ {n p : ℕ} {job : Job} {g k : ℕ} {s : System} (w : Waiting n p job g k s) (lt : k < n)
    (late : (s.worker_states k).completed_generation ≢ g) where
  -- Where the worker stands, it has not completed the generation.
  pub side :
      (pc : WorkerPc)
      → s.workers k ≡ pc
      → Pending p g pc (s.worker_states k) ⊎ Written p g pc (s.worker_states k)
  side pc at =
      subst (λ q. Pending p g q (s.worker_states k) ⊎ Written p g q (s.worker_states k)) at
        (w.progress k lt)

  pub own_step :
      {t : System} → WorkerStep s k t → distance g (t.workers k) < distance g (s.workers k)
  own_step (see_new o at ne) = ground (arith, at, ne, w.generation)
  own_step (see_old o at eq) =
      absurd (ground (arith, side (observing o) at, late, w.fresh, eq, w.generation))
  own_step (keep_waiting o at running) = ground (arith, at, side (checking o) at, late, w.fresh)
  own_step (wake o at ne) = ground (arith, at, side (blocked o) at, late, w.fresh)
  own_step (exit_waiting o at stopping) = absurd (ground (arith, stopping, w.running))
  own_step (exit_woken o at stopping) = absurd (ground (arith, stopping, w.running))
  own_step (start_copy o at running) = ground (arith, at)
  own_step (copy_part o at) = ground (arith, at)
  own_step (complete o at) = ground (arith, at, side (copied o) at, late, w.fresh)

other_step : {i k : ℕ} {s t : System} → i ≢ k → WorkerStep s i t → t.workers k ≡ s.workers k
other_step apart (see_new o at ne) = ground (arith, apart)
other_step apart (see_old o at eq) = ground (arith, apart)
other_step apart (keep_waiting o at running) = ground (arith, apart)
other_step apart (wake o at ne) = ground (arith, apart)
other_step apart (exit_waiting o at stopping) = ground (arith, apart)
other_step apart (exit_woken o at stopping) = ground (arith, apart)
other_step apart (start_copy o at running) = ground (arith, apart)
other_step apart (copy_part o at) = ground (arith, apart)
other_step apart (complete o at) = ground (arith, apart)

pub distance_bound : (g : ℕ) (pc : WorkerPc) → distance g pc ≤ 6
distance_bound g unstarted = omega arith
distance_bound g (observing o) = ground arith
distance_bound g (checking o) = ground arith
distance_bound g (blocked o) = ground arith
distance_bound g (woken o) = omega arith
distance_bound g (copying o) = omega arith
distance_bound g (copied o) = omega arith
distance_bound g exited = omega arith

-- While the caller waits for worker `k`, every step of any thread leaves that worker where it is or
-- brings it nearer to completing the generation, from which it is at most 6 steps away: it needs no
-- more than 6 steps of its own, in whatever order the threads run.
pub waited_worker-nearer :
    (n : ℕ) {m : Memory} {s t : System} {job : Job} {g k : ℕ}
    → Reach n m s
    → s.caller ≡ waiting job g k
    → k < n
    → (s.worker_states k).completed_generation ≢ g
    → Step s t
    → (distance g (s.workers k) ≤ 6)
      × ((t.workers k ≡ s.workers k) ⊎ (distance g (t.workers k) < distance g (s.workers k)))
waited_worker-nearer n {s = s} {g = g} {k} reach e lt late (caller_step st) =
    (distance_bound g (s.workers k), inl (ap (λ f. f k) (caller_keeps st e)))
waited_worker-nearer n {m} {s} {t} {job} {g} {k} reach e lt late (worker_step i running st) = (
  distance_bound g (s.workers k),
  elim (ℕ_discrete i k) [
    | no apart ↦ inl (other_step apart st)
    | yes same ↦
        let (p, w) = subst (Phase n s) e (Reach-Inv n reach) in
        inr (own_step w lt late (subst (λ j. WorkerStep s j t) same st))
  ],
)
