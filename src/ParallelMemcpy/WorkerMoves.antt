-- ===== src/ParallelMemcpy/WorkerMoves.antt =====
-- A step of a worker keeps what holds while the caller waits.
use doost.Base.{
  ℕ, ◌+◌, ◌-◌, ◌<◌, ◌≡◌, ◌≢◌, ◌⊎◌, inr, refl, ap, ◌∙◌, true, false, arith, dec_lt, ℕ_discrete,
  subst,
}
use doost.ParallelMemcpy.{
  Memory, WorkerState, Job, WorkerPc, observing, checking, blocked, woken, copying, copied, System,
  update, copy_state, WorkerStep, see_new, see_old, keep_waiting, wake, exit_waiting, exit_woken,
  start_copy, copy_part, complete,
}
use doost.ParallelMemcpy.Tasks.{part_within, parts_in_order}
use doost.ParallelMemcpy.Invariant.{
  Separate, Assigned, Pending, Written, copied_byte, in_part, Waiting,
}
use doost.ParallelMemcpy.RestMoves.{Pending-Written}

module _ {n i : ℕ} {s : System} (lt : i < n) where
  module _ {p g k : ℕ} {job : Job} (w : Waiting n p job g k s) where
    -- Worker `i` goes on to `pc` with the state `v`; nothing else changes but the memory.
    record MovesOn (pc : WorkerPc) (v : WorkerState) (t : System) : Type 0 where
      count : t.worker_count ≡ s.worker_count
      threads : t.threads ≡ s.threads
      running : t.stopping ≡ s.stopping
      generation : t.start_generation ≡ s.start_generation
      pcs : (j : ℕ) → t.workers j ≡ update s.workers i pc j
      states : (j : ℕ) → t.worker_states j ≡ update s.worker_states i v j
      keeps : (s.worker_states i).completed_generation ≡ g → v.completed_generation ≡ g
      handed : Assigned n job i v

    -- A move that leaves the worker's state alone.
    quiet_move :
        (pc : WorkerPc) {m : Memory}
        → MovesOn pc (s.worker_states i) (record s { memory = m; workers = update s.workers i pc })
    quiet_move pc = record {
      count = refl;
      threads = refl;
      running = refl;
      generation = refl;
      pcs = λ j. refl;
      states = λ j. ground arith;
      keeps = λ h. h;
      handed = w.assigned i lt;
    }

    module _ {pc : WorkerPc} {v : WorkerState} {t : System} (m : MovesOn pc v t) where
      -- A move that writes no memory, and does not change whether the worker has copied.
      move_on :
          t.memory ≡ s.memory
          → ((Pending p g (s.workers i) (s.worker_states i) × Pending p g pc v)
              ⊎ (Written p g (s.workers i) (s.worker_states i) × Written p g pc v))
          → Waiting n p job g k t
      move_on same side = record {
        count = m.count ∙ w.count;
        threads = m.threads ∙ w.threads;
        running = m.running ∙ w.running;
        generation = m.generation ∙ w.generation;
        small = w.small;
        fresh = w.fresh;
        some_workers = w.some_workers;
        passed = λ j lj. rw (m.states j) (ground (arith, w.passed j lj, m.keeps));
        index = w.index;
        assigned = λ j lj. rw (m.states j) (ground (arith, w.assigned j lj, m.handed));
        progress = λ j lj. rw (m.states j, m.pcs j) (ground (arith, w.progress j lj));
        outside = λ a sep o. rw same (w.outside a sep o);
        untouched = λ j a sep lj h inp.
            rw same (w.untouched j a sep lj (ground (arith, m.states j, m.pcs j)) inp);
        written = λ j a sep lj h inp.
            rw same (w.written j a sep lj (ground (arith, m.states j, m.pcs j)) inp);
      }

      module _ (copied_now : t.memory ≡ copy_state (s.worker_states i) s.memory)
          (before : Pending p g (s.workers i) (s.worker_states i)) (after : Written p g pc v) where
        -- The bytes of the part of worker `i` now hold the source; no other byte changes.
        part_byte :
            (a : ℕ) → Separate job → in_part n job i a ≡ true → t.memory a ≡ copied_byte job a
        part_byte a sep inp =
            ap (λ f. f a) copied_now
            ∙ ground (
              arith,
              w.assigned i lt,
              part_within job.size n i lt,
              w.outside (job.src + (a - job.dst)) sep,
            )

        other_byte : (a : ℕ) → in_part n job i a ≡ false → t.memory a ≡ s.memory a
        other_byte a out = ap (λ f. f a) copied_now ∙ ground (arith, w.assigned i lt)

        parts_differ :
            (j a : ℕ) → j < n → j ≢ i → in_part n job j a ≡ true → in_part n job i a ≡ false
        parts_differ j a lj ne inp = elim (dec_lt i j) [
          | yes below ↦ ground (arith, parts_in_order job.size n i j below lj)
          | no above ↦ ground (arith, parts_in_order job.size n j i (omega arith) lt)
        ]

        write_on : Waiting n p job g k t
        write_on = record {
          count = m.count ∙ w.count;
          threads = m.threads ∙ w.threads;
          running = m.running ∙ w.running;
          generation = m.generation ∙ w.generation;
          small = w.small;
          fresh = w.fresh;
          some_workers = w.some_workers;
          passed = λ j lj. rw (m.states j) (ground (arith, w.passed j lj, m.keeps));
          index = w.index;
          assigned = λ j lj. rw (m.states j) (ground (arith, w.assigned j lj, m.handed));
          progress = λ j lj. rw (m.states j, m.pcs j) (ground (arith, w.progress j lj));
          outside = λ a sep o.
              other_byte a (ground (arith, part_within job.size n i lt)) ∙ w.outside a sep o;
          untouched = write_untouched;
          written = write_written;
        }
          where
            write_untouched :
                (j a : ℕ)
                → Separate job
                → j < n
                → Pending p g (t.workers j) (t.worker_states j)
                → in_part n job j a ≡ true
                → t.memory a ≡ job.before a
            write_untouched j a sep lj h inp = elim (ℕ_discrete j i) [
              | yes e ↦
                  absurd (Pending-Written w.fresh pc v (ground (arith, m.states j, m.pcs j)) after)
              | no ne ↦
                  other_byte a (parts_differ j a lj ne inp)
                  ∙ w.untouched j a sep lj (ground (arith, m.states j, m.pcs j)) inp
            ]

            write_written :
                (j a : ℕ)
                → Separate job
                → j < n
                → Written p g (t.workers j) (t.worker_states j)
                → in_part n job j a ≡ true
                → t.memory a ≡ copied_byte job a
            write_written j a sep lj h inp = elim (ℕ_discrete j i) [
              | yes e ↦ part_byte a sep (subst (λ x. in_part n job x a ≡ true) e inp)
              | no ne ↦
                  other_byte a (parts_differ j a lj ne inp)
                  ∙ w.written j a sep lj (ground (arith, m.states j, m.pcs j)) inp
            ]

    -- Each step of worker `i` while the caller waits.
    pub Waiting-worker : {t : System} → WorkerStep s i t → Waiting n p job g k t
    Waiting-worker (see_new o e h) =
        move_on (quiet_move (woken s.start_generation)) refl
          (ground (arith, w.progress i lt, w.generation))
    Waiting-worker (see_old o e h) =
        move_on (quiet_move (checking o)) refl (ground (arith, w.progress i lt, w.generation))
    Waiting-worker (keep_waiting o e h) =
        move_on (quiet_move (blocked o)) refl (ground (arith, w.progress i lt))
    Waiting-worker (wake o e h) =
        move_on (quiet_move (observing o)) refl (ground (arith, w.progress i lt))
    Waiting-worker (exit_waiting o e h) = absurd (ground (arith, w.running))
    Waiting-worker (exit_woken o e h) = absurd (ground (arith, w.running))
    Waiting-worker (start_copy o e h) =
        move_on (quiet_move (copying o)) refl (ground (arith, w.progress i lt))
    Waiting-worker (copy_part o e) =
        write_on (quiet_move (copied o)) refl (ground (arith, w.progress i lt))
          (ground (arith, w.progress i lt))
    Waiting-worker (complete o e) =
        move_on {pc = observing o} {v = record (s.worker_states i) { completed_generation = o }}
          (record {
            count = refl;
            threads = refl;
            running = refl;
            generation = refl;
            pcs = λ j. refl;
            states = λ j. refl;
            keeps = λ h. ground (arith, w.progress i lt);
            handed = w.assigned i lt;
          })
          refl (inr (ground (arith, w.progress i lt), ground (arith, w.progress i lt)))
