-- ===== src/Examples/Sleepers.antt =====
-- An instance for the threads of the parallel copy that sleep.
use doost.Base.{ℕ, ◌<◌, ◌≡◌, ◌≢◌, ◌⊎◌, refl, arith, true, false}
use doost.ParallelMemcpy.{
  Memory, Job, Reach, joining, waiting, start_thread, start_end, copy_parts, assign_last, publish,
  see_old, keep_waiting,
}
use doost.ParallelMemcpy.Notified.{
  Notified, NotifiedReach, start_notified, later_notified, caller_runs, caller_publishes,
  worker_runs, worker_sleeps,
}
use doost.ParallelMemcpy.WakeUps.{no_lost_wakeups}

abbrev zeros : Memory
zeros a = 0

abbrev three_zeros : Job
three_zeros = record { dst = 200; src = 100; size = 3; before = zeros }

-- The worker sleeps, the job is published, and the caller has not called notify_all yet.
asleep :
    (s : Notified) × NotifiedReach 1 zeros s
    × (s.system.caller ≡ waiting three_zeros 1 0)
    × (s.asleep 0 ≡ true)
    × (s.notify_all_due ≡ true)
asleep = (
  _,
  later_notified
      (later_notified
        (later_notified
          (later_notified
            (later_notified
              (later_notified
                (later_notified
                  (later_notified start_notified
                    (caller_runs (start_thread 0 refl (omega arith)) refl refl refl))
                  (caller_runs (start_end 1 refl refl) refl refl refl))
                (worker_runs 0 (omega arith) (see_old 0 refl refl) (λ g e. ground (arith, e)) refl
                  refl))
              (worker_runs 0 (omega arith) (keep_waiting 0 refl refl) (λ g e. ground (arith, e))
                refl refl))
            (worker_sleeps 0 0 (omega arith) refl refl refl refl))
          (caller_runs (copy_parts three_zeros refl refl (omega arith) (omega arith)) refl refl
            refl))
        (caller_runs (assign_last three_zeros 0 0 refl refl) refl refl refl))
      (caller_publishes (publish three_zeros refl) (omega arith) refl refl),
  refl,
  refl,
  refl,
)

no_lost_wakeups_example :
    Reach 1 zeros asleep.0.system
    × ((job : Job) (g k : ℕ)
        → asleep.0.system.caller ≡ waiting job g k
        → k < 1
        → (asleep.0.system.worker_states k).completed_generation ≢ g
        → (asleep.0.asleep k ≡ false) ⊎ (asleep.0.notify_all_due ≡ true))
    × ((k i : ℕ)
        → asleep.0.system.caller ≡ joining k
        → i < asleep.0.system.threads
        → (asleep.0.asleep i ≡ false) ⊎ (asleep.0.notify_all_due ≡ true))
    × ((job : Job) (g k : ℕ)
        → asleep.0.system.caller ≡ waiting job g k
        → (asleep.0.system.worker_states k).completed_generation ≡ g
        → (asleep.0.caller_asleep ≡ false) ⊎ (asleep.0.notify_one_due k ≡ true))
no_lost_wakeups_example = no_lost_wakeups 1 asleep.1
