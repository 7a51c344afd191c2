-- ===== src/ParallelMemcpy/WakeUps.antt =====
-- No notification of ParallelMemcpyPool is lost: src/parallel_memcpy.cpp.
use doost.Base.{
  ℕ, ◌<◌, ◌≡◌, ◌≢◌, ◌⊎◌, inl, inr, refl, sym, ap, ◌∙◌, subst, arith, Bool, true, false, Bool-cases,
  ◌==◌,
}
use doost.ParallelMemcpy.{
  Memory, Job, Reach, waiting, joining, WorkerPc, blocked, copied, System, update, CallerStep,
  start_thread, start_failed, start_end, copy_nothing, copy_alone, copy_parts, assign, assign_last,
  publish, wait, wait_next, wait_end, return, stop, stop_publish, join, joined, WorkerStep, see_new,
  see_old, keep_waiting, wake, exit_waiting, exit_woken, start_copy, copy_part, complete,
}
use doost.ParallelMemcpy.Invariant.{Pending, Written, Waiting, Going, Joining, Phase, Inv}
use doost.ParallelMemcpy.Result.{Reach-Inv}
use doost.ParallelMemcpy.Notified.{
  Notified, NotifiedStep, caller_runs, caller_publishes, notify_all, caller_sleeps, worker_runs,
  worker_completes, worker_sleeps, notify_one, NotifiedReach, start_notified, later_notified,
  NotifiedReach-Reach, waits_for,
}

-- No step of the caller moves a worker that is blocked.
caller_keeps :
    (n : ℕ) {s t : System} (i o : ℕ)
    → CallerStep s t
    → Inv n s
    → i < s.threads
    → s.workers i ≡ blocked o
    → (t.workers i ≡ blocked o) × (i < t.threads)
caller_keeps n {s} i o (start_thread k e more) inv lt at =
    let ph = subst (Phase n s) e inv in (ground (arith, at, ph.threads, lt), omega (arith, lt))
caller_keeps n i o (start_failed k e may) inv lt at = (at, lt)
caller_keeps n i o (start_end k e all) inv lt at = (at, lt)
caller_keeps n i o (copy_nothing job e same zero_size) inv lt at = (at, lt)
caller_keeps n i o (copy_alone job e same positive alone) inv lt at = (at, lt)
caller_keeps n i o (copy_parts job e same positive several) inv lt at = (at, lt)
caller_keeps n i o (assign job k offset e more) inv lt at = (at, lt)
caller_keeps n i o (assign_last job k offset e last) inv lt at = (at, lt)
caller_keeps n i o (publish job e) inv lt at = (at, lt)
caller_keeps n i o (wait job g k e more other) inv lt at = (at, lt)
caller_keeps n i o (wait_next job g k e more done) inv lt at = (at, lt)
caller_keeps n i o (wait_end job g k e all) inv lt at = (at, lt)
caller_keeps n i o (return job e) inv lt at = (at, lt)
caller_keeps n i o (stop e) inv lt at = (at, lt)
caller_keeps n i o (stop_publish e) inv lt at = (at, lt)
caller_keeps n i o (join k e more gone) inv lt at = (at, lt)
caller_keeps n {s} i o (joined k e all) inv lt at =
    let (p, j) = subst (Phase n s) e inv in
    absurd (ground (arith, at, j.joined i (omega (arith, lt, all)), all))

-- What a step of worker `i` leaves alone.
record Kept (s : System) (i : ℕ) (t : System) : Type 0 where
  pub threads : t.threads ≡ s.threads
  pub count : t.worker_count ≡ s.worker_count
  pub generation : t.start_generation ≡ s.start_generation
  pub caller : t.caller ≡ s.caller
  pub others : (j : ℕ) → j ≢ i → t.workers j ≡ s.workers j
  pub states : (j : ℕ) → j ≢ i → t.worker_states j ≡ s.worker_states j
  pub own : ((g : ℕ) → s.workers i ≢ copied g) → t.worker_states ≡ s.worker_states

moved :
    {s : System} (i : ℕ) (pc : WorkerPc) → Kept s i (record s { workers = update s.workers i pc })
moved i pc = record {
  threads = refl;
  count = refl;
  generation = refl;
  caller = refl;
  others = λ j ne. ground (arith, ne);
  states = λ j ne. refl;
  own = λ away. refl;
}

worker_keeps : (i : ℕ) {s t : System} → WorkerStep s i t → Kept s i t
worker_keeps i (see_new o e new) = moved i _
worker_keeps i (see_old o e same) = moved i _
worker_keeps i (keep_waiting o e on) = moved i _
worker_keeps i (wake o e new) = moved i _
worker_keeps i (exit_waiting o e off) = moved i _
worker_keeps i (exit_woken g e off) = moved i _
worker_keeps i (start_copy g e on) = moved i _
worker_keeps i (copy_part g e) = record {
  threads = refl;
  count = refl;
  generation = refl;
  caller = refl;
  others = λ j ne. ground (arith, ne);
  states = λ j ne. refl;
  own = λ away. refl;
}
worker_keeps i (complete g e) = record {
  threads = refl;
  count = refl;
  generation = refl;
  caller = refl;
  others = λ j ne. ground (arith, ne);
  states = λ j ne. ground (arith, ne);
  own = λ away. absurd (away g e);
}

-- A worker that sleeps has seen the last generation, or notify_all is still to come. A caller that sleeps waits
-- for a worker that has not completed the generation, or whose notify_one is still to come.
record Woken (s : Notified) : Type 0 where
  pub worker :
      (i : ℕ)
      → s.asleep i ≡ true
      → (i < s.system.threads)
        × (o : ℕ) × (s.system.workers i ≡ blocked o)
        × ((s.system.start_generation ≡ o) ⊎ (s.notify_all_due ≡ true))
  pub caller :
      s.caller_asleep ≡ true
      → (s.notify_all_due ≡ false)
        × (job : Job) × (g : ℕ) × (k : ℕ) × (s.system.caller ≡ waiting job g k)
        × (((s.system.worker_states k).completed_generation ≢ g) ⊎ (s.notify_one_due k ≡ true))

-- A step of worker `i`, which does not sleep, leaves the others as they are.
worker-Woken :
    (s : Notified) (i : ℕ) {t : System} (due : ℕ → Bool)
    → WorkerStep s.system i t
    → s.asleep i ≡ false
    → ((k : ℕ) → s.notify_one_due k ≡ true → due k ≡ true)
    → (((g : ℕ) → s.system.workers i ≢ copied g) ⊎ (due i ≡ true))
    → Woken s
    → Woken (record s { system = t; notify_one_due = due })
worker-Woken s i {t} due step up kept own w =
    let k = worker_keeps i step in
    record {
      worker = λ j down.
          let (lt, o, at, seen) = w.worker j down in
          let ne : j ≢ i = λ e. ground (arith, up, down, e) in
          (
            omega (arith, lt, k.threads),
            o,
            k.others j ne ∙ at,
            elim seen [ inl same ↦ inl (k.generation ∙ same) | inr told ↦ inr told ],
          );
      caller = λ down.
          let (quiet, job, g, j, at, seen) = w.caller down in
          (
            quiet,
            job,
            g,
            j,
            k.caller ∙ at,
            elim seen [
              | inr told ↦ inr (kept j told)
              | inl wants ↦ elim (Bool-cases (j == i)) [
                | inr other ↦ inl (λ e. wants (
                    ap (λ v. v.completed_generation) (sym (k.states j (ground (arith, other))))
                    ∙ e))
                | inl here ↦ elim own [
                  | inl away ↦
                      inl (λ e. wants (ap (λ v. (v j).completed_generation) (sym (k.own away)) ∙ e))
                  | inr told ↦ inr (subst (λ l. due l ≡ true) (ground (arith, here)) told)
                ]
              ]
            ],
          );
    }

Step-Woken : (n : ℕ) {s t : Notified} → NotifiedStep s t → Inv n s.system → Woken s → Woken t
Step-Woken n {s} (caller_runs step same up quiet) inv w = record {
  worker = λ i down.
      let (lt, o, at, seen) = w.worker i down in
      let (kept, below) = caller_keeps n i o step inv lt at in
      (below, o, kept, elim seen [ inl old ↦ inl (same ∙ old) | inr told ↦ inr told ]);
  caller = λ down. absurd (ground (arith, down, up));
}
Step-Woken n {s} (caller_publishes step new up quiet) inv w = record {
  worker = λ i down.
      let (lt, o, at, seen) = w.worker i down in
      let (kept, below) = caller_keeps n i o step inv lt at in (below, o, kept, inr refl);
  caller = λ down. absurd (ground (arith, down, up));
}
Step-Woken n {s} (notify_all due) inv w = record {
  worker = λ i down. absurd (ground (arith, down));
  caller = λ down. absurd (ground (arith, due, (w.caller down).0));
}
Step-Woken n {s} (caller_sleeps job g k at more wants up quiet) inv w = record {
  worker = w.worker;
  caller = λ down. (quiet, job, g, k, at, inl wants);
}
Step-Woken n {s} (worker_runs i lt step away up quiet) inv w =
    worker-Woken s i s.notify_one_due step up (λ k told. told) (inl away) w
Step-Woken n {s} (worker_completes i g lt step at up quiet) inv w =
    worker-Woken s i (update s.notify_one_due i true) step up (λ k told. ground (arith, told))
      (inr (ground arith)) w
Step-Woken n {s} (worker_sleeps i o lt at same up quiet) inv w = record {
  worker = λ j down. elim (Bool-cases (i == j)) [
    | inl here ↦
        let e : i ≡ j = ground (arith, here) in
        (
          subst (λ l. l < s.system.threads) e lt,
          o,
          subst (λ l. s.system.workers l ≡ blocked o) e at,
          inl same,
        )
    | inr other ↦ w.worker j (ground (arith, other, down))
  ];
  caller = w.caller;
}
Step-Woken n {s} (notify_one i due) inv w = record {
  worker = w.worker;
  caller = λ down.
      let (quiet, job, g, k, at, seen) = w.caller (ground (arith, down)) in
      let away : (k == i) ≡ false = ground (arith, down, ap (λ c. waits_for c i) at) in
      (
        quiet,
        job,
        g,
        k,
        at,
        elim seen [ inl wants ↦ inl wants | inr told ↦ inr (ground (arith, told, away)) ],
      );
}

NotifiedReach-Woken : {n : ℕ} {m : Memory} {s : Notified} → NotifiedReach n m s → Woken s
NotifiedReach-Woken start_notified = record {
  worker = λ i down. absurd (ground (arith, down));
  caller = λ down. absurd (ground (arith, down));
}
NotifiedReach-Woken {n} (later_notified r step) =
    Step-Woken n step (Reach-Inv n (NotifiedReach-Reach r)) (NotifiedReach-Woken r)

module _ (n : ℕ) {m : Memory} {s : Notified} (reach : NotifiedReach n m s) where
  asleep_blocked :
      (i : ℕ)
      → s.asleep i ≡ true
      → (i < s.system.threads)
        × (o : ℕ) × (s.system.workers i ≡ blocked o)
        × ((s.system.start_generation ≡ o) ⊎ (s.notify_all_due ≡ true))
  asleep_blocked i down = (NotifiedReach-Woken reach).worker i down

  -- A worker that sleeps while the caller waits for it has completed the generation.
  waited :
      (k o g p : ℕ) {job : Job}
      → Waiting n p job g k s.system
      → k < n
      → (s.system.worker_states k).completed_generation ≢ g
      → s.system.workers k ≡ blocked o
      → s.system.start_generation ≡ o
      → ⊥
  waited k o g p {job} w lt late at same =
      let side =
        subst
          (λ pc.
            Pending p g pc (s.system.worker_states k) ⊎ Written p g pc (s.system.worker_states k))
          at (w.progress k lt) in
      elim side [
        | inl pending ↦ w.fresh (sym pending.0 ∙ sym same ∙ w.generation)
        | inr written ↦ late written.1
      ]

  -- No worker that has seen the last generation sleeps while the threads are joined.
  going :
      (i k o p : ℕ)
      → Joining n p k s.system
      → i < s.system.threads
      → s.system.workers i ≡ blocked o
      → s.system.start_generation ≡ o
      → ⊥
  going i k o p j lt at same = j.fresh (sym (subst (Going p) at (j.going i lt)) ∙ sym same)

  -- In every state that the pool comes to with threads that sleep in their waits until they are notified, which
  -- is one that it comes to without: a worker that the caller waits for and that has not completed the
  -- generation is awake, and so is every worker while the threads are joined, or else the caller is
  -- just before its notify_all; and where the worker has completed the generation the caller is awake, or else
  -- the worker is just before its notify_one.
  pub no_lost_wakeups :
      Reach n m s.system
      × ((job : Job) (g k : ℕ)
          → s.system.caller ≡ waiting job g k
          → k < n
          → (s.system.worker_states k).completed_generation ≢ g
          → (s.asleep k ≡ false) ⊎ (s.notify_all_due ≡ true))
      × ((k i : ℕ)
          → s.system.caller ≡ joining k
          → i < s.system.threads
          → (s.asleep i ≡ false) ⊎ (s.notify_all_due ≡ true))
      × ((job : Job) (g k : ℕ)
          → s.system.caller ≡ waiting job g k
          → (s.system.worker_states k).completed_generation ≡ g
          → (s.caller_asleep ≡ false) ⊎ (s.notify_one_due k ≡ true))
  no_lost_wakeups = (
    NotifiedReach-Reach reach,
    λ job g k e lt late. elim (Bool-cases (s.asleep k)) [
      | inr up ↦ inl up
      | inl down ↦
          let (p, w) = subst (Phase n s.system) e (Reach-Inv n (NotifiedReach-Reach reach)) in
          let (_, o, at, seen) = asleep_blocked k down in
          elim seen [ inl same ↦ absurd (waited k o g p w lt late at same) | inr told ↦ inr told ]
    ],
    λ k i e lt. elim (Bool-cases (s.asleep i)) [
      | inr up ↦ inl up
      | inl down ↦
          let (p, j) = subst (Phase n s.system) e (Reach-Inv n (NotifiedReach-Reach reach)) in
          let (_, o, at, seen) = asleep_blocked i down in
          elim seen [ inl same ↦ absurd (going i k o p j lt at same) | inr told ↦ inr told ]
    ],
    λ job g k e done. elim (Bool-cases s.caller_asleep) [
      | inr up ↦ inl up
      | inl down ↦
          let (_, other, h, l, at, seen) = (NotifiedReach-Woken reach).caller down in
          inr (ground (arith, sym e ∙ at, seen, done))
    ],
  )
