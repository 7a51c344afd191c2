-- ===== src/ParallelMemcpy/PhaseMoves.antt =====
-- A step of a worker while threads are started or joined, and in every phase of the caller.
use doost.Base.{ℕ, ◌<◌, ◌≢◌, sym, ◌∙◌, arith}
use doost.ParallelMemcpy.{
  CallerPc, starting, idle, assigning, publishing, waiting, finished, stop_publishing, joining,
  stopped, WorkerPc, observing, checking, blocked, woken, exited, System, update, WorkerStep,
  see_new, see_old, keep_waiting, wake, exit_waiting, exit_woken, start_copy, copy_part, complete,
}
use doost.ParallelMemcpy.Invariant.{AtRest, Leaving, Going, Starting, Stopping, Joining, Phase}
use doost.ParallelMemcpy.RestMoves.{Quiet-worker, count_kept}
use doost.ParallelMemcpy.WorkerMoves.{Waiting-worker}

module _ {n i : ℕ} {s : System} (live : i < s.threads) where
  Starting-move :
      {k : ℕ} (pc : WorkerPc)
      → AtRest 0 pc
      → Starting n k s
      → Starting n k (record s { workers = update s.workers i pc })
  Starting-move pc r q = record {
    count = q.count;
    threads = q.threads;
    index = q.index;
    running = q.running;
    generation = q.generation;
    rest = λ j lj. ground (arith, q.rest j lj, r);
    complete = q.complete;
  }

  Starting-worker : {k : ℕ} {t : System} → WorkerStep s i t → Starting n k s → Starting n k t
  Starting-worker (see_old o e h) q = Starting-move (checking o) (ground (arith, q.generation)) q
  Starting-worker (keep_waiting o e h) q =
      Starting-move (blocked o) (ground (arith, q.rest i, q.threads)) q
  Starting-worker (see_new o e h) q = absurd (ground (arith, q.rest i, q.threads, q.generation))
  Starting-worker (wake o e h) q = absurd (ground (arith, q.rest i, q.threads, q.generation))
  Starting-worker (exit_waiting o e h) q = absurd (ground (arith, q.running))
  Starting-worker (exit_woken o e h) q = absurd (ground (arith, q.running))
  Starting-worker (start_copy o e h) q = absurd (ground (arith, q.rest i, q.threads))
  Starting-worker (copy_part o e) q = absurd (ground (arith, q.rest i, q.threads))
  Starting-worker (complete o e) q = absurd (ground (arith, q.rest i, q.threads))

  Stopping-move :
      (pc : WorkerPc)
      → Leaving s.start_generation pc
      → Stopping n s
      → Stopping n (record s { workers = update s.workers i pc })
  Stopping-move pc r q = record {
    threads = q.threads;
    stopping = q.stopping;
    small = q.small;
    leaving = λ j lj. ground (arith, q.leaving j lj, r);
  }

  Stopping-worker : {t : System} → WorkerStep s i t → Stopping n s → Stopping n t
  Stopping-worker (see_old o e h) q = Stopping-move (checking o) (sym h) q
  Stopping-worker (exit_waiting o e h) q = Stopping-move exited tt q
  Stopping-worker (keep_waiting o e h) q = absurd (ground (arith, q.stopping))
  Stopping-worker (see_new o e h) q = absurd (ground (arith, q.leaving i))
  Stopping-worker (wake o e h) q = absurd (ground (arith, q.leaving i))
  Stopping-worker (exit_woken o e h) q = absurd (ground (arith, q.leaving i))
  Stopping-worker (start_copy o e h) q = absurd (ground (arith, q.leaving i))
  Stopping-worker (copy_part o e) q = absurd (ground (arith, q.leaving i))
  Stopping-worker (complete o e) q = absurd (ground (arith, q.leaving i))

  Joining-move :
      {p k : ℕ} (pc : WorkerPc)
      → Going p pc
      → s.workers i ≢ exited
      → Joining n p k s
      → Joining n p k (record s { workers = update s.workers i pc })
  Joining-move pc r still q = record {
    threads = q.threads;
    stopping = q.stopping;
    fresh = q.fresh;
    index = q.index;
    going = λ j lj. ground (arith, q.going j lj, r);
    joined = λ j lj. ground (arith, q.joined j lj, still);
  }

  Joining-worker : {p k : ℕ} {t : System} → WorkerStep s i t → Joining n p k s → Joining n p k t
  Joining-worker (see_new o e h) q =
      Joining-move (woken s.start_generation) tt (λ x. ground arith) q
  Joining-worker (wake o e h) q =
      Joining-move (observing o) (ground (arith, q.going i)) (λ x. ground arith) q
  Joining-worker (exit_waiting o e h) q = Joining-move exited tt (λ x. ground arith) q
  Joining-worker (exit_woken o e h) q = Joining-move exited tt (λ x. ground arith) q
  Joining-worker (see_old o e h) q = absurd (ground (arith, q.going i, q.fresh))
  Joining-worker (keep_waiting o e h) q = absurd (ground (arith, q.stopping))
  Joining-worker (start_copy o e h) q = absurd (ground (arith, q.stopping))
  Joining-worker (copy_part o e) q = absurd (ground (arith, q.going i))
  Joining-worker (complete o e) q = absurd (ground (arith, q.going i))

module _ {n i : ℕ} {s : System} (lt : i < n) (live : i < s.threads) where
  -- A step of worker `i` keeps the phase of the caller.
  pub Phase-worker : {t : System} (c : CallerPc) → WorkerStep s i t → Phase n s c → Phase n t c
  Phase-worker idle st ph = (Quiet-worker lt st ph).0
  Phase-worker (assigning job k offset) st ph =
      let (quiet, same) = Quiet-worker lt st ph.quiet in
      record {
        quiet = quiet;
        some_workers = ph.some_workers;
        same = ph.same ∙ sym same.memory;
        at = ph.at;
        index = ph.index;
        assigned = λ j lj. rw same.states (ph.assigned j lj);
      }
  Phase-worker (publishing job) st ph =
      let (quiet, same) = Quiet-worker lt st ph.quiet in
      record {
        quiet = quiet;
        some_workers = ph.some_workers;
        same = ph.same ∙ sym same.memory;
        assigned = λ j lj. rw same.states (ph.assigned j lj);
      }
  Phase-worker (waiting job g k) st (p, w) = (p, Waiting-worker lt w st)
  Phase-worker (finished job) st (quiet, done) =
      let (after, same) = Quiet-worker lt st quiet in (after, λ a sep. rw same.memory (done a sep))
  Phase-worker (starting k) st ph = Starting-worker live st ph
  Phase-worker stop_publishing st ph = Stopping-worker live st ph
  Phase-worker (joining k) st (p, j) = (p, Joining-worker live st j)
  Phase-worker stopped st ph = rw (count_kept st) ph
