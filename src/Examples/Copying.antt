-- ===== src/Examples/Copying.antt =====
-- Instances for the parallel copy.
use doost.Base.{ℕ, ◌<◌, ◌≡◌, inr, refl, arith}
use doost.ParallelMemcpy.{
  Memory, memcpy, Job, System, caller_step, worker_step, Reach, start, later, copy_parts,
  start_thread, start_failed, start_end, stop_publish, joining, keep_waiting, see_old, assign,
  assign_last, publish, wait_next, wait_end, see_new, start_copy, copy_part, complete, finished,
  waiting, idle,
}
use doost.Base.{subst, false}
use doost.ParallelMemcpy.{CallerPc, copying}
use doost.ParallelMemcpy.Invariant.{Separate}
use doost.ParallelMemcpy.Races.{clash_at, copying-apart}
use doost.ParallelMemcpy.Turns.{Late, turns, Late-turns}
use doost.ParallelMemcpy.Loops.{Steps, done, and_then}
use doost.ParallelMemcpy.Completion.{copy-ends, pool-ends}
use doost.ParallelMemcpy.{stopped}
use doost.ParallelMemcpy.Result.{copy-memcpy}

-- Every byte is its address.
abbrev addresses : Memory
addresses a = a

-- Three bytes from 100 to 200.
abbrev three_bytes : Job
three_bytes = record { dst = 200; src = 100; size = 3; before = addresses }

-- The two workers of a pool run.
started : (s : System) × Reach 2 addresses s × (s.caller ≡ idle)
started = (
  _,
  later
      (later (later start (caller_step (start_thread 0 refl (omega arith))))
        (caller_step (start_thread 1 refl (omega arith))))
      (caller_step (start_end 2 refl refl)),
  refl,
)

-- A worker waits for its first generation when the start of the second thread fails.
failed : (s : System) × Reach 2 addresses s × (s.caller ≡ joining 0)
failed = (
  _,
  later
      (later
        (later
          (later (later start (caller_step (start_thread 0 refl (omega arith))))
            (worker_step 0 (omega arith) (see_old 0 refl refl)))
          (worker_step 0 (omega arith) (keep_waiting 0 refl refl)))
        (caller_step (start_failed 1 refl (inr (omega arith)))))
      (caller_step (stop_publish refl)),
  refl,
)

-- Two workers have their parts, and the generation is published.
published : (s : System) × Reach 2 addresses s × (s.caller ≡ waiting three_bytes 1 0)
unfolding started
published = (
  _,
  later
      (later
        (later
          (later started.1
            (caller_step (copy_parts three_bytes refl refl (omega arith) (omega arith))))
          (caller_step (assign three_bytes 0 0 refl (omega arith))))
        (caller_step (assign_last three_bytes 1 1 refl refl)))
      (caller_step (publish three_bytes refl)),
  refl,
)

-- Worker 1 copies first, then worker 0, and the caller has seen both.
copied_all : (s : System) × Reach 2 addresses s × (s.caller ≡ finished three_bytes)
unfolding started published
copied_all = (
  _,
  later
      (later
        (later
          (later
            (later
              (later
                (later
                  (later
                    (later
                      (later
                        (later published.1
                          (worker_step 1 (omega arith) (see_new 0 refl (omega arith))))
                        (worker_step 1 (omega arith) (start_copy 1 refl refl)))
                      (worker_step 0 (omega arith) (see_new 0 refl (omega arith))))
                    (worker_step 1 (omega arith) (copy_part 1 refl)))
                  (worker_step 0 (omega arith) (start_copy 1 refl refl)))
                (worker_step 1 (omega arith) (complete 1 refl)))
              (worker_step 0 (omega arith) (copy_part 1 refl)))
            (worker_step 0 (omega arith) (complete 1 refl)))
          (caller_step (wait_next three_bytes 1 0 refl (omega arith) refl)))
        (caller_step (wait_next three_bytes 1 1 refl (omega arith) refl)))
      (caller_step (wait_end three_bytes 1 2 refl refl)),
  refl,
)

copied_all_bytes : (copied_all.0.memory 199 ≡ 199) × (copied_all.0.memory 202 ≡ 102)
unfolding started published copied_all
copied_all_bytes = (refl, refl)

copy-memcpy_example : copied_all.0.memory 201 ≡ memcpy 200 100 3 addresses 201
copy-memcpy_example = copy-memcpy 2 copied_all.1 copied_all.2 (inr (omega arith)) 201

copy-ends_example :
    (t : System) × Steps published.0 t
    × (t.caller ≡ finished three_bytes)
    × ((a : ℕ)
        → t.memory a ≡ memcpy three_bytes.dst three_bytes.src three_bytes.size three_bytes.before a)
unfolding started published
copy-ends_example = copy-ends 2 published.1 refl (inr (omega arith))

pool-ends_example : (t : System) × Steps published.0 t × (t.caller ≡ stopped)
unfolding started published
pool-ends_example = pool-ends 2 published.1

-- Both workers copy at the same time.
both_copy :
    (s : System) × Reach 2 addresses s
    × (s.caller ≡ waiting three_bytes 1 0)
    × (s.workers 0 ≡ copying 1)
    × (s.workers 1 ≡ copying 1)
unfolding started published
both_copy = (
  _,
  later
      (later
        (later (later published.1 (worker_step 1 (omega arith) (see_new 0 refl (omega arith))))
          (worker_step 1 (omega arith) (start_copy 1 refl refl)))
        (worker_step 0 (omega arith) (see_new 0 refl (omega arith))))
      (worker_step 0 (omega arith) (start_copy 1 refl refl)),
  refl,
  refl,
  refl,
)

-- The job that the caller waits for does not overlap.
abbrev AwaitedSeparate : CallerPc → Type 0
AwaitedSeparate (waiting job l k) = Separate job
AwaitedSeparate _ = Unit

three_bytes-Separate : (job : Job) (l k : ℕ) → both_copy.0.caller ≡ waiting job l k → Separate job
unfolding started published both_copy
three_bytes-Separate job l k e = subst AwaitedSeparate e (inr (omega arith))

copying-apart_example :
    (job : Job) × (l k : ℕ) × (both_copy.0.caller ≡ waiting job l k)
    × ((a : ℕ) → clash_at (both_copy.0.worker_states 0) (both_copy.0.worker_states 1) a ≡ false)
unfolding started published both_copy
copying-apart_example =
    copying-apart 2 0 1 both_copy.1 (omega arith) (omega arith) (omega arith) both_copy.4
      both_copy.3 three_bytes-Separate

-- Worker 1 sees the new generation, then worker 0 does.
both_see : (t : System) × Steps published.0 t
unfolding started published
both_see = (
  _,
  and_then (and_then done (worker_step 1 (omega arith) (see_new 0 refl (omega arith))))
      (worker_step 0 (omega arith) (see_new 0 refl (omega arith))),
)

both_see-Late : Late 0 1 both_see.1
unfolding Late both_see started published
both_see-Late = ((omega arith, omega arith), omega arith)

Late-turns_example : (turns 0 both_see.1 < 6) × (both_see.0.caller ≡ waiting three_bytes 1 0)
Late-turns_example = Late-turns 2 published.1 published.2 (omega arith) both_see.1 both_see-Late
