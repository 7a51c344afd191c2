-- ===== src/ParallelMemcpy/CallerMoves.antt =====
-- A step of the caller keeps what holds of the system.
use doost.Base.{ℕ, ◌-◌, ◌/◌, ◌<◌, ◌≡◌, ◌⊎◌, inl, inr, refl, sym, ap, ◌∙◌, arith, Bool-cases, subst}
use doost.Word.{add_word}
use doost.Posix.{in_range}
use doost.ParallelMemcpy.{
  Memory, memcpy, WorkerState, Job, CallerPc, waiting, WorkerPc, unstarted, observing, checking,
  blocked, woken, copying, copied, exited, System, update, CallerStep, start_thread, start_failed,
  start_end, copy_nothing, copy_alone, copy_parts, assign, assign_last, publish, wait, wait_next,
  wait_end, return, stop, stop_publish, join, joined,
}
use doost.ParallelMemcpy.Tasks.{parts_cover}
use doost.ParallelMemcpy.RestMoves.{Pending-Written}
use doost.ParallelMemcpy.ThreadMoves.{started, all_started, stopping_now, told, joined_one}
use doost.ParallelMemcpy.Invariant.{
  AtRest, Quiet, Pending, Written, Waiting, Copied, Publishing, Phase, Inv,
}

module _ {n : ℕ} {s : System} where
  -- Quiet holds of a state with the same threads and generations.
  still : {c : CallerPc} {m : Memory} → Quiet n s → Quiet n (record s { memory = m; caller = c })
  still q = record {
    count = q.count;
    threads = q.threads;
    running = q.running;
    small = q.small;
    rest = q.rest;
    complete = q.complete;
  }

  -- Handing out a part leaves the completed generations alone.
  handed :
      {c : CallerPc} (k : ℕ) (w : WorkerState)
      → Quiet n s
      → w.completed_generation ≡ (s.worker_states k).completed_generation
      → Quiet n (record s { worker_states = update s.worker_states k w; caller = c })
  handed k w q e = record {
    count = q.count;
    threads = q.threads;
    running = q.running;
    small = q.small;
    rest = q.rest;
    complete = λ j lj. ground (arith, q.complete j lj);
  }

  publish-Waiting :
      (job : Job)
      → Publishing n job s
      → Waiting n s.start_generation job (add_word s.start_generation 1) 0 (record s {
        start_generation = add_word s.start_generation 1;
        caller = waiting job (add_word s.start_generation 1) 0;
      })
  publish-Waiting job ph = record {
    count = ph.quiet.count;
    threads = ph.quiet.threads;
    running = ph.quiet.running;
    generation = refl;
    small = omega arith;
    fresh = omega (arith, ph.quiet.small);
    some_workers = ph.some_workers;
    passed = λ j lj. absurd (omega arith);
    index = omega arith;
    assigned = ph.assigned;
    progress = λ j lj. inl (
        rest-Pending (s.workers j) (s.worker_states j) (ph.quiet.rest j lj)
          (ph.quiet.complete j lj));
    outside = λ a sep o. ap (λ m. m a) (sym ph.same);
    untouched = λ j a sep lj h inp. ap (λ m. m a) (sym ph.same);
    written = λ j a sep lj h inp. absurd (
        Pending-Written (omega (arith, ph.quiet.small)) (s.workers j) (s.worker_states j)
          (rest-Pending (s.workers j) (s.worker_states j) (ph.quiet.rest j lj)
            (ph.quiet.complete j lj))
          h);
  }
    where
      rest-Pending :
          (pc : WorkerPc) (w : WorkerState)
          → AtRest s.start_generation pc
          → w.completed_generation ≡ s.start_generation
          → Pending s.start_generation (add_word s.start_generation 1) pc w
      rest-Pending (observing o) w r e = (r, e)
      rest-Pending (checking o) w r e = (r, e)
      rest-Pending (blocked o) w r e = (r, e)
      rest-Pending unstarted w r e = absurd r
      rest-Pending (woken o) w r e = absurd r
      rest-Pending (copying o) w r e = absurd r
      rest-Pending (copied o) w r e = absurd r
      rest-Pending exited w r e = absurd r

  module _ {p g : ℕ} (job : Job) (w : Waiting n p job g n s) where
    -- A worker that has completed the generation has copied, and rests.
    completed-Written :
        (pc : WorkerPc) (v : WorkerState)
        → (Pending p g pc v ⊎ Written p g pc v)
        → v.completed_generation ≡ g
        → AtRest g pc × Written p g pc v
    completed-Written (observing o) v h e = ground (arith, w.fresh)
    completed-Written (checking o) v h e = ground (arith, w.fresh)
    completed-Written (blocked o) v h e = ground (arith, w.fresh)
    completed-Written unstarted v h e = absurd (ground arith)
    completed-Written (woken o) v h e = absurd (ground (arith, w.fresh))
    completed-Written (copying o) v h e = absurd (ground (arith, w.fresh))
    completed-Written (copied o) v h e = absurd (ground (arith, w.fresh))
    completed-Written exited v h e = absurd (ground arith)

    all-Written :
        (i : ℕ) → i < n → AtRest g (s.workers i) × Written p g (s.workers i) (s.worker_states i)
    all-Written i lt = completed-Written _ _ (w.progress i lt) (w.passed i lt)

    waited-Quiet : {c : CallerPc} → Quiet n (record s { caller = c })
    waited-Quiet = record {
      count = w.count;
      threads = w.threads;
      running = w.running;
      small = rw w.generation w.small;
      rest = λ i lt. rw w.generation (all-Written i lt).0;
      complete = λ i lt. w.passed i lt ∙ sym w.generation;
    }

    waited-Copied : Copied job s.memory
    waited-Copied a sep = elim (Bool-cases (in_range job.dst job.size a)) [
      | inr out ↦ rw out (w.outside a sep out)
      | inl inside ↦
          let (i, lt, lo, hi) =
            parts_cover job.size n (a - job.dst) (ground arith) (ground (arith, w.some_workers)) in
          rw inside (w.written i a sep lt (all-Written i lt).1 (ground arith))
    ]

module _ (n : ℕ) {s : System} where
  -- A step of the caller keeps its phase.
  pub Phase-caller : {t : System} → CallerStep s t → Inv n s → Inv n t
  Phase-caller (copy_nothing job e same zero_size) inv =
      (still (subst (Phase n s) e inv), λ a sep. ground (arith, ap (λ m. m a) same))
  Phase-caller (copy_alone job e same positive alone) inv = (
    still (subst (Phase n s) e inv),
    λ a sep. ap (λ m. memcpy job.dst job.src job.size m a) (sym same),
  )
  Phase-caller (copy_parts job e same positive several) inv =
      let q = subst (Phase n s) e inv in
      record {
        quiet = still q;
        some_workers = ground (arith, q.count);
        same = same;
        at = omega arith;
        index = ground (arith, q.count);
        assigned = λ i lt. absurd (omega arith);
      }
  Phase-caller (assign job k offset e more) inv =
      let ph = subst (Phase n s) e inv in
      record {
        quiet = handed k _ ph.quiet refl;
        some_workers = ph.some_workers;
        same = ph.same;
        at = omega (arith, ph.at, ap (λ c. job.size / c) ph.quiet.count);
        index = omega (arith, ph.index, ph.quiet.count);
        assigned = λ i lt. ground (
          arith,
          ph.assigned i,
          ph.at,
          ph.index,
          ph.quiet.count,
          ap (λ c. job.size / c) ph.quiet.count,
        );
      }
  Phase-caller (assign_last job k offset e last) inv =
      let ph = subst (Phase n s) e inv in
      record {
        quiet = handed k _ ph.quiet refl;
        some_workers = ph.some_workers;
        same = ph.same;
        assigned = λ i lt. ground (arith, ph.assigned i, ph.at, ph.index, ph.quiet.count);
      }
  Phase-caller (publish job e) inv =
      (s.start_generation, publish-Waiting job (subst (Phase n s) e inv))
  Phase-caller (wait job g k e more late) inv = inv
  Phase-caller (wait_next job g k e more done) inv =
      let (p, w) = subst (Phase n s) e inv in
      (
        p,
        record {
          count = w.count;
          threads = w.threads;
          running = w.running;
          generation = w.generation;
          small = w.small;
          fresh = w.fresh;
          some_workers = w.some_workers;
          passed = λ i lt. ground (arith, w.passed i);
          index = omega (arith, w.index, w.count);
          assigned = w.assigned;
          progress = w.progress;
          outside = w.outside;
          untouched = w.untouched;
          written = w.written;
        },
      )
  Phase-caller (wait_end job g k e end) inv =
      let (p, w) = subst (Phase n s) e inv in
      let all = subst (λ x. Waiting n p job g x s) (end ∙ w.count) w in
      (waited-Quiet job all, waited-Copied job all)
  Phase-caller (return job e) inv = still (subst (Phase n s) e inv).0
  Phase-caller (start_thread k e more) inv = started k (subst (Phase n s) e inv) more
  Phase-caller (start_failed k e throws) inv =
      let ph = subst (Phase n s) e inv in
      stopping_now n s (omega (arith, ph.threads, ph.index)) (omega (arith, ph.generation))
        (λ i lt. rw ph.generation (ph.rest i (omega (arith, ph.threads, lt))))
  Phase-caller (start_end k e end) inv = all_started k (subst (Phase n s) e inv) end
  Phase-caller (stop e) inv =
      let q = subst (Phase n s) e inv in
      stopping_now n s (omega (arith, q.threads)) q.small
        (λ i lt. q.rest i (omega (arith, q.threads, lt)))
  Phase-caller (stop_publish e) inv = (s.start_generation, told (subst (Phase n s) e inv))
  Phase-caller (join k e more gone) inv =
      let (p, j) = subst (Phase n s) e inv in (p, joined_one k j more gone)
  Phase-caller (joined k e end) inv = refl
