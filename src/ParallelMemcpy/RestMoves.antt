-- ===== src/ParallelMemcpy/RestMoves.antt =====
-- A step of a worker leaves the caller where it is, and a worker of a pool at rest stays at rest.
use doost.Base.{ℕ, ◌<◌, ◌≡◌, ◌≢◌, refl, arith}
use doost.ParallelMemcpy.{
  WorkerState, WorkerPc, unstarted, observing, checking, blocked, woken, copying, copied, exited,
  System, WorkerStep, see_new, see_old, keep_waiting, wake, exit_waiting, exit_woken, start_copy,
  copy_part, complete,
}
use doost.ParallelMemcpy.Invariant.{Quiet, Pending, Written}

pub record SameData (s t : System) : Type 0 where
  pub memory : t.memory ≡ s.memory
  pub states : t.worker_states ≡ s.worker_states

-- A worker that still has to copy has not copied.
pub Pending-Written :
    {p g : ℕ} → p ≢ g → (pc : WorkerPc) (w : WorkerState) → Pending p g pc w → Written p g pc w → ⊥
Pending-Written ne (observing o) w a b = ground arith
Pending-Written ne (checking o) w a b = ground arith
Pending-Written ne (blocked o) w a b = ground arith
Pending-Written ne unstarted w a b = b
Pending-Written ne (woken o) w a b = b
Pending-Written ne (copying o) w a b = b
Pending-Written ne (copied o) w a b = a
Pending-Written ne exited w a b = a

pub count_kept : {i : ℕ} {s t : System} → WorkerStep s i t → t.threads ≡ s.threads
count_kept (see_new o e h) = refl
count_kept (see_old o e h) = refl
count_kept (keep_waiting o e h) = refl
count_kept (wake o e h) = refl
count_kept (exit_waiting o e h) = refl
count_kept (exit_woken o e h) = refl
count_kept (start_copy o e h) = refl
count_kept (copy_part o e) = refl
count_kept (complete o e) = refl

pub caller_kept : {i : ℕ} {s t : System} → WorkerStep s i t → t.caller ≡ s.caller
caller_kept (see_new o e h) = refl
caller_kept (see_old o e h) = refl
caller_kept (keep_waiting o e h) = refl
caller_kept (wake o e h) = refl
caller_kept (exit_waiting o e h) = refl
caller_kept (exit_woken o e h) = refl
caller_kept (start_copy o e h) = refl
caller_kept (copy_part o e) = refl
caller_kept (complete o e) = refl

module _ {n i : ℕ} {s : System} (lt : i < n) where
  pub Quiet-worker : {t : System} → WorkerStep s i t → Quiet n s → Quiet n t × SameData s t
  Quiet-worker (see_old o e h) q = (
    record {
      count = q.count;
      threads = q.threads;
      running = q.running;
      small = q.small;
      rest = λ j lj. ground (arith, q.rest j, q.rest i);
      complete = q.complete;
    },
    record { memory = refl; states = refl },
  )
  Quiet-worker (keep_waiting o e h) q = (
    record {
      count = q.count;
      threads = q.threads;
      running = q.running;
      small = q.small;
      rest = λ j lj. ground (arith, q.rest j, q.rest i);
      complete = q.complete;
    },
    record { memory = refl; states = refl },
  )
  Quiet-worker (wake o e h) q = absurd (ground (arith, q.rest i lt))
  Quiet-worker (see_new o e h) q = absurd (ground (arith, q.rest i lt))
  Quiet-worker (exit_waiting o e h) q = absurd (ground (arith, q.running))
  Quiet-worker (exit_woken o e h) q = absurd (ground (arith, q.rest i lt))
  Quiet-worker (start_copy o e h) q = absurd (ground (arith, q.rest i lt))
  Quiet-worker (copy_part o e) q = absurd (ground (arith, q.rest i lt))
  Quiet-worker (complete o e) q = absurd (ground (arith, q.rest i lt))
