-- ===== src/ParallelMemcpy/Turns.antt =====
-- How often the worker that `copy` in src/parallel_memcpy.cpp waits for has its turn before it completes.
use doost.Base.{
  ℕ, ◌≤◌, ◌<◌, ◌≡◌, ◌≢◌, ◌⊎◌, refl, ◌∙◌, arith, subst, ℕ_discrete, ◌+◌, ◌==◌, if◌then◌else◌,
}
use doost.ParallelMemcpy.{
  Memory, Job, WorkerState, waiting, WorkerPc, unstarted, observing, checking, blocked, woken,
  copying, copied, exited, System, caller_step, worker_step, CallerStep, WorkerStep, Reach,
  start_thread, start_failed, start_end, copy_nothing, copy_alone, copy_parts, assign, assign_last,
  publish, wait, wait_next, wait_end, return, stop, stop_publish, join, joined,
}
use doost.ParallelMemcpy.Invariant.{Phase, Pending, Written}
use doost.ParallelMemcpy.Result.{Reach-Inv, distance}
use doost.ParallelMemcpy.RestMoves.{caller_kept}
use doost.ParallelMemcpy.Loops.{Steps, done, and_then, Reach-Steps}
use doost.ParallelMemcpy.Fairness.{side, own_step, distance_bound, waited_worker-nearer}

-- The steps of worker `k` in a run.
unfoldable pub turns : {s t : System} (k : ℕ) → Steps s t → ℕ
turns k done = 0
turns k (and_then rest (caller_step st)) = turns k rest
turns k (and_then rest (worker_step i running st)) =
    let before = turns k rest in if i == k then before + 1 else before

-- In every state of the run worker `k` has not completed the generation.
unfoldable pub Late : {s t : System} (k g : ℕ) → Steps s t → Type 0
Late {t} k g done = (t.worker_states k).completed_generation ≢ g
Late {t} k g (and_then rest st) = Late k g rest × ((t.worker_states k).completed_generation ≢ g)

Late-end :
    {s t : System} {k g : ℕ} (run : Steps s t)
    → Late k g run
    → (t.worker_states k).completed_generation ≢ g
unfolding Late
Late-end done late = late
Late-end (and_then rest st) late = late.1

-- The caller waits on for a worker that has not completed.
caller_waits :
    {s t : System} {job : Job} {g k : ℕ}
    → CallerStep s t
    → s.caller ≡ waiting job g k
    → k ≢ s.worker_count
    → (s.worker_states k).completed_generation ≢ g
    → t.caller ≡ waiting job g k
caller_waits (start_thread i e h) at ne late = cc
caller_waits (start_failed i e h) at ne late = cc
caller_waits (start_end i e h) at ne late = cc
caller_waits (copy_nothing j e b h) at ne late = cc
caller_waits (copy_alone j e b h l) at ne late = cc
caller_waits (copy_parts j e b h l) at ne late = cc
caller_waits (assign j i o e h) at ne late = cc
caller_waits (assign_last j i o e h) at ne late = cc
caller_waits (publish j e) at ne late = cc
caller_waits (wait j g i e h c) at ne late = at
caller_waits (wait_next j g i e h c) at ne late = absurd (late cc)
caller_waits (wait_end j g i e h) at ne late = absurd (ne cc)
caller_waits (return j e) at ne late = cc
caller_waits (stop e) at ne late = cc
caller_waits (stop_publish e) at ne late = cc
caller_waits (join i e h x) at ne late = cc
caller_waits (joined i e h) at ne late = cc

late_distance :
    {p g : ℕ}
    → p ≢ g
    → (pc : WorkerPc) (w : WorkerState) → w.completed_generation ≢ g
    → Pending p g pc w ⊎ Written p g pc w
    → 0 < distance g pc
late_distance fresh unstarted w late where_it_is = ground arith
late_distance fresh (observing o) w late where_it_is = ground (arith, fresh)
late_distance fresh (checking o) w late where_it_is = ground (arith, fresh)
late_distance fresh (blocked o) w late where_it_is = ground (arith, fresh)
late_distance fresh (woken o) w late where_it_is = omega arith
late_distance fresh (copying o) w late where_it_is = omega arith
late_distance fresh (copied o) w late where_it_is = omega arith
late_distance fresh exited w late where_it_is = ground arith

module _ (n : ℕ) {m : Memory} {s : System} {job : Job} {g k : ℕ} (reach : Reach n m s)
    (at : s.caller ≡ waiting job g k) (lt : k < n) where
  waits : {t : System} (run : Steps s t) → Late k g run → t.caller ≡ waiting job g k
  unfolding Late
  waits done late = at
  waits (and_then rest (caller_step st)) (late, _) =
      let (p, w) = subst (Phase n _) (waits rest late) (Reach-Inv n (Reach-Steps n reach rest)) in
      caller_waits st (waits rest late) (ground (arith, w.count)) (Late-end rest late)
  waits (and_then rest (worker_step i running st)) (late, _) = caller_kept st ∙ waits rest late

  turns-distance :
      {t : System} (run : Steps s t)
      → Late k g run
      → turns k run + distance g (t.workers k) ≤ distance g (s.workers k)
  unfolding turns Late
  turns-distance done late = ground arith
  turns-distance (and_then rest (caller_step st)) (late, _) = ground (
    arith,
    waited_worker-nearer n (Reach-Steps n reach rest) (waits rest late) lt (Late-end rest late)
        (caller_step st),
    turns-distance rest late,
  )
  turns-distance {t} (and_then {t = u} rest (worker_step i running st)) (late, _) =
      elim (ℕ_discrete i k) [
        | no apart ↦ ground (
          arith,
          apart,
          waited_worker-nearer n (Reach-Steps n reach rest) (waits rest late) lt
              (Late-end rest late) (worker_step i running st),
          turns-distance rest late,
        )
        | yes same ↦
            let (p, w) =
              subst (Phase n u) (waits rest late) (Reach-Inv n (Reach-Steps n reach rest)) in
            ground (
              arith,
              same,
              own_step w lt (Late-end rest late) (subst (λ j. WorkerStep u j t) same st),
              turns-distance rest late,
            )
      ]

  -- A worker that has not completed stands at some distance.
  far : {t : System} (run : Steps s t) → Late k g run → 0 < distance g (t.workers k)
  far {t} run late =
      let (p, w) = subst (Phase n t) (waits run late) (Reach-Inv n (Reach-Steps n reach run)) in
      late_distance w.fresh (t.workers k) (t.worker_states k) (Late-end run late)
        (side w lt (Late-end run late) (t.workers k) refl)

  -- From a state in which the caller waits for worker `k`, threads run in any order. As long as worker `k`
  -- has not completed the generation, the caller waits for it, and the worker has made fewer than 6 steps.
  pub Late-turns :
      {t : System} (run : Steps s t)
      → Late k g run
      → (turns k run < 6) × (t.caller ≡ waiting job g k)
  Late-turns run late = (
    omega (arith, turns-distance run late, far run late, distance_bound g (s.workers k)),
    waits run late,
  )
