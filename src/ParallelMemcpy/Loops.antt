-- ===== src/ParallelMemcpy/Loops.antt =====
-- The loops of ParallelMemcpyPool and of `copy` in src/parallel_memcpy.cpp, from a turn to the end.
use doost.Base.{ℕ_discrete, ℕ, zero, suc, ◌+◌, ◌≤◌, ◌<◌, ◌≡◌, inl, inr, refl, ◌∙◌, arith, subst}
use doost.ParallelMemcpy.{
  Memory, Job, CallerPc, starting, idle, assigning, publishing, waiting, finished, joining, stopped,
  System, Step, caller_step, Reach, later, exited, start_thread, start_end, assign, assign_last,
  wait_next, wait_end, join, joined,
}
use doost.ParallelMemcpy.Invariant.{Phase}
use doost.ParallelMemcpy.Result.{
  Reach-Inv, distance, to_exit, waited_worker-steps, joined_worker-steps,
}

-- Steps of any threads, one after the other.
pub data Steps (s : System) : System → Type 0 where
  done : Steps s s
  and_then : {t u : System} → Steps s t → Step t u → Steps s u

abbrev pub one : {s t : System} → Step s t → Steps s t
one st = and_then done st

pub follow : {s t u : System} → Steps s t → Steps t u → Steps s u
follow first done = first
follow first (and_then rest st) = and_then (follow first rest) st

-- The system can go on to a state with this place of the caller.
abbrev pub CanReach : System → CallerPc → Type 0
CanReach s pc = (t : System) × Steps s t × (t.caller ≡ pc)

module _ (n : ℕ) {m : Memory} where
  pub Reach-Steps : {s t : System} → Reach n m s → Steps s t → Reach n m t
  Reach-Steps reach done = reach
  Reach-Steps reach (and_then rest st) = later (Reach-Steps reach rest) st

  -- What can be reached from a state that can be reached.
  pub onward :
      {s : System} {pc after : CallerPc}
      → Reach n m s
      → CanReach s pc
      → ((t : System) → Reach n m t → t.caller ≡ pc → CanReach t after)
      → CanReach s after
  onward reach (t, steps, at) next =
      let (u, rest, end) = next t (Reach-Steps reach steps) at in (u, follow steps rest, end)

  module _ (job : Job) (g k : ℕ) (lt : k < n) where
    -- The worker that the caller waits for completes the generation.
    completes :
        (d : ℕ) {s : System}
        → Reach n m s
        → s.caller ≡ waiting job g k
        → distance g (s.workers k) ≤ d
        → (t : System) × Steps s t
          × (t.caller ≡ waiting job g k)
          × ((t.worker_states k).completed_generation ≡ g)
    completes zero {s} reach e le = elim (ℕ_discrete (s.worker_states k).completed_generation g) [
      | yes is ↦ (s, done, e, is)
      | no late ↦
          let (t, st, nearer, kept) = waited_worker-steps n reach e lt late in
          absurd (omega (arith, le, nearer))
    ]
    completes (suc d) {s} reach e le =
        elim (ℕ_discrete (s.worker_states k).completed_generation g) [
          | yes is ↦ (s, done, e, is)
          | no late ↦
              let (t, st, nearer, kept) = waited_worker-steps n reach e lt late in
              let (u, steps, at, is) =
                completes d (later reach st) (kept ∙ e) (omega (arith, le, nearer)) in
              (u, follow (one st) steps, at, is)
        ]

  module _ (k : ℕ) where
    -- The thread that the caller joins exits.
    exits :
        (d : ℕ) {s : System}
        → Reach n m s
        → s.caller ≡ joining k
        → k < s.threads
        → to_exit (s.workers k) ≤ d
        → (t : System) × Steps s t
          × (t.caller ≡ joining k)
          × (t.workers k ≡ exited)
          × (t.threads ≡ s.threads)
    exits zero {s} reach e lt le = elim (joined_worker-steps n reach e).0 [
      | inl end ↦ absurd (omega (arith, end, lt))
      | inr (inl is) ↦ (s, done, e, is, refl)
      | inr (inr (t, st, nearer, _, _)) ↦ absurd (omega (arith, le, nearer))
    ]
    exits (suc d) {s} reach e lt le = elim (joined_worker-steps n reach e).0 [
      | inl end ↦ absurd (omega (arith, end, lt))
      | inr (inl is) ↦ (s, done, e, is, refl)
      | inr (inr (t, st, nearer, kept, same)) ↦
          let (u, steps, at, is, as_many) =
            exits d (later reach st) (kept ∙ e) (omega (arith, lt, same))
              (omega (arith, le, nearer)) in
          (u, follow (one st) steps, at, is, as_many ∙ same)
    ]

  -- The loops of the caller, by how much of them is left.
  pub waits_end :
      (left k : ℕ) {s : System} {job : Job} {g : ℕ}
      → Reach n m s
      → s.caller ≡ waiting job g k
      → k + left ≡ n
      → CanReach s (finished job)
  waits_end zero k {s} {job} {g} reach e all =
      let (p, w) = subst (Phase n s) e (Reach-Inv n reach) in
      (_, one (caller_step (wait_end job g k e (omega (arith, all, w.count)))), refl)
  waits_end (suc left) k {s} {job} {g} reach e all =
      let lt : k < n = omega (arith, all) in
      let (t, steps, at, is) =
        completes job g k lt (distance g (s.workers k)) reach e (omega arith) in
      let reached = Reach-Steps reach steps in
      let (p, w) = subst (Phase n t) at (Reach-Inv n reached) in
      let rest_left : k + 1 + left ≡ n = omega (arith, all) in
      let next = caller_step (wait_next job g k at (omega (arith, lt, w.count)) is) in
      let (u, rest, end) = waits_end left (k + 1) (later reached next) refl rest_left in
      (u, follow (and_then steps next) rest, end)

  pub assigns_end :
      (left k offset : ℕ) {s : System} {job : Job}
      → Reach n m s
      → s.caller ≡ assigning job k offset
      → k + suc left ≡ n
      → CanReach s (publishing job)
  assigns_end zero k offset {s} {job} reach e all =
      let a = subst (Phase n s) e (Reach-Inv n reach) in
      (_, one (caller_step (assign_last job k offset e (omega (arith, all, a.quiet.count)))), refl)
  assigns_end (suc left) k offset {s} {job} reach e all =
      let a = subst (Phase n s) e (Reach-Inv n reach) in
      let rest_left : k + 1 + suc left ≡ n = omega (arith, all) in
      let next = caller_step (assign job k offset e (omega (arith, all, a.quiet.count))) in
      let (u, rest, end) = assigns_end left (k + 1) _ (later reach next) refl rest_left in
      (u, follow (one next) rest, end)

  pub joins_end :
      (left k : ℕ) {s : System}
      → Reach n m s
      → s.caller ≡ joining k
      → k + left ≡ s.threads
      → CanReach s stopped
  joins_end zero k {s} reach e all = (_, one (caller_step (joined k e (omega (arith, all)))), refl)
  joins_end (suc left) k {s} reach e all =
      let lt : k < s.threads = omega (arith, all) in
      let (t, steps, at, is, same) = exits k (to_exit (s.workers k)) reach e lt (omega arith) in
      let rest_left : k + 1 + left ≡ t.threads = omega (arith, all, same) in
      let next = caller_step (join k at (omega (arith, lt, same)) is) in
      let (u, rest, end) =
        joins_end left (k + 1) (later (Reach-Steps reach steps) next) refl rest_left in
      (u, follow (and_then steps next) rest, end)

  pub starts_end :
      (left k : ℕ) {s : System}
      → Reach n m s
      → s.caller ≡ starting k
      → k + left ≡ n
      → CanReach s idle
  starts_end zero k {s} reach e all =
      let a = subst (Phase n s) e (Reach-Inv n reach) in
      (_, one (caller_step (start_end k e (omega (arith, all, a.count)))), refl)
  starts_end (suc left) k {s} reach e all =
      let a = subst (Phase n s) e (Reach-Inv n reach) in
      let rest_left : k + 1 + left ≡ n = omega (arith, all) in
      let next = caller_step (start_thread k e (omega (arith, all, a.count))) in
      let (u, rest, end) = starts_end left (k + 1) (later reach next) refl rest_left in
      (u, follow (one next) rest, end)
