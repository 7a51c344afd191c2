-- ===== src/ParallelMemcpy/Completion.antt =====
-- Where calls of ParallelMemcpyPool in src/parallel_memcpy.cpp can come to: the end of `copy`, and of
-- the destructor.
use doost.Base.{ℕ, ◌-◌, ◌≡◌, refl, arith, subst}
use doost.ParallelMemcpy.{
  Memory, memcpy, Job, CallerPc, starting, idle, assigning, publishing, waiting, finished,
  stop_publishing, joining, stopped, System, caller_step, Reach, later, publish, return, stop,
  stop_publish,
}
use doost.ParallelMemcpy.Invariant.{Phase, Separate}
use doost.ParallelMemcpy.Result.{Reach-Inv, copy-memcpy}
use doost.ParallelMemcpy.Loops.{
  Steps, done, one, follow, CanReach, Reach-Steps, onward, waits_end, assigns_end, joins_end,
  starts_end,
}

-- The caller is in a call of `copy` that hands out parts.
abbrev pub Copying : Job → CallerPc → Type 0
Copying job (assigning j index offset) = j ≡ job
Copying job (publishing j) = j ≡ job
Copying job (waiting j generation index) = j ≡ job
Copying job _ = ⊥

module _ (n : ℕ) {m : Memory} where
  waiting_ends :
      {s : System} {job : Job} {g k : ℕ}
      → Reach n m s
      → s.caller ≡ waiting job g k
      → CanReach s (finished job)
  waiting_ends {s} {job} {g} {k} reach e =
      let (p, w) = subst (Phase n s) e (Reach-Inv n reach) in
      waits_end n (n - k) k reach e (omega (arith, w.index))

  publishing_ends :
      {s : System} {job : Job} → Reach n m s → s.caller ≡ publishing job → CanReach s (finished job)
  publishing_ends {s} {job} reach e =
      let next = caller_step (publish job e) in
      let (t, steps, end) = waiting_ends (later reach next) refl in
      (t, follow (one next) steps, end)

  assigning_ends :
      {s : System} {job : Job} {k offset : ℕ}
      → Reach n m s
      → s.caller ≡ assigning job k offset
      → CanReach s (finished job)
  assigning_ends {s} {job} {k} {offset} reach e =
      let a = subst (Phase n s) e (Reach-Inv n reach) in
      onward n reach (assigns_end n (n - k - 1) k offset reach e (omega (arith, a.index)))
        (λ t. publishing_ends)

  joining_ends : {s : System} {k : ℕ} → Reach n m s → s.caller ≡ joining k → CanReach s stopped
  joining_ends {s} {k} reach e =
      let (p, j) = subst (Phase n s) e (Reach-Inv n reach) in
      joins_end n (s.threads - k) k reach e (omega (arith, j.index))

  stop_publishing_ends :
      {s : System} → Reach n m s → s.caller ≡ stop_publishing → CanReach s stopped
  stop_publishing_ends reach e =
      let next = caller_step (stop_publish e) in
      let (t, steps, end) = joining_ends (later reach next) refl in
      (t, follow (one next) steps, end)

  idle_ends : {s : System} → Reach n m s → s.caller ≡ idle → CanReach s stopped
  idle_ends reach e =
      let next = caller_step (stop e) in
      let (t, steps, end) = stop_publishing_ends (later reach next) refl in
      (t, follow (one next) steps, end)

  finished_ends :
      {s : System} {job : Job} → Reach n m s → s.caller ≡ finished job → CanReach s stopped
  finished_ends {s} {job} reach e =
      let next = caller_step (return job e) in
      let (t, steps, end) = idle_ends (later reach next) refl in (t, follow (one next) steps, end)

  starting_ends : {s : System} {k : ℕ} → Reach n m s → s.caller ≡ starting k → CanReach s stopped
  starting_ends {s} {k} reach e =
      let a = subst (Phase n s) e (Reach-Inv n reach) in
      onward n reach (starts_end n (n - k) k reach e (omega (arith, a.index))) (λ t. idle_ends)

  -- Wherever a call of `copy` of a job with more than one part stands, with the workers wherever they
  -- may be, the threads have steps that bring it to its end, and there the memory is as after one
  -- std::memcpy, if source and destination do not overlap.
  pub copy-ends :
      {s : System} {job : Job}
      → Reach n m s
      → Copying job s.caller
      → Separate job
      → (t : System) × Steps s t
        × (t.caller ≡ finished job)
        × ((a : ℕ) → t.memory a ≡ memcpy job.dst job.src job.size job.before a)
  copy-ends {s} {job} reach busy apart =
      let (t, steps, end) = at s.caller refl busy in
      (t, steps, end, copy-memcpy n (Reach-Steps n reach steps) end apart)
    where
      at : (pc : CallerPc) → s.caller ≡ pc → Copying job pc → CanReach s (finished job)
      at (assigning j k offset) e same =
          subst (λ x. CanReach s (finished x)) same (assigning_ends reach e)
      at (publishing j) e same = subst (λ x. CanReach s (finished x)) same (publishing_ends reach e)
      at (waiting j g k) e same = subst (λ x. CanReach s (finished x)) same (waiting_ends reach e)
      at (starting index) e same = absurd same
      at idle e same = absurd same
      at (finished j) e same = absurd same
      at stop_publishing e same = absurd same
      at (joining index) e same = absurd same
      at stopped e same = absurd same

  -- From every state that the pool can come to, while it starts, copies, rests or stops, the threads
  -- have steps after which the pool is destroyed and every thread has been joined.
  pub pool-ends : {s : System} → Reach n m s → CanReach s stopped
  pool-ends {s} reach = at s.caller refl
    where
      at : (pc : CallerPc) → s.caller ≡ pc → CanReach s stopped
      at (starting k) e = starting_ends reach e
      at idle e = idle_ends reach e
      at (assigning job k offset) e = onward n reach (assigning_ends reach e) (λ t. finished_ends)
      at (publishing job) e = onward n reach (publishing_ends reach e) (λ t. finished_ends)
      at (waiting job g k) e = onward n reach (waiting_ends reach e) (λ t. finished_ends)
      at (finished job) e = finished_ends reach e
      at stop_publishing e = stop_publishing_ends reach e
      at (joining k) e = joining_ends reach e
      at stopped e = (s, done, e)
