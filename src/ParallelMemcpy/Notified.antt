-- ===== src/ParallelMemcpy/Notified.antt =====
-- src/parallel_memcpy.cpp: ParallelMemcpyPool with the sleep of `std::atomic::wait` and the calls of notify_all
-- and notify_one that end it. A thread that finds the value it waits on unchanged sleeps, and a thread that
-- sleeps has no step until it is notified; then it looks again. A notification is a step of its own, the
-- next one of the thread that has changed the value.
use doost.Base.{ℕ, ◌<◌, ◌≡◌, ◌≢◌, ◌==◌, Bool, true, false, if◌then◌else◌}
use doost.ParallelMemcpy.{
  Memory, Job, CallerPc, waiting, blocked, copied, System, update, CallerStep, WorkerStep, init,
  Reach, start, later, caller_step, worker_step,
}

-- The pool; which workers sleep on start_generation; whether the caller sleeps on the completed_generation
-- that it waits for; whether it, or a worker, is before its notification.
pub record Notified : Type 0 where
  pub system : System
  pub asleep : ℕ → Bool
  pub caller_asleep : Bool
  pub notify_all_due : Bool
  pub notify_one_due : ℕ → Bool

-- Whether the caller waits for the worker.
abbrev pub waits_for : CallerPc → ℕ → Bool
waits_for (waiting job generation index) i = index == i
waits_for pc i = false

-- The caller after notify_one on the completed_generation of worker `i`.
abbrev pub caller_after : ℕ → Notified → Bool
caller_after i s = if waits_for s.system.caller i then false else s.caller_asleep

pub data NotifiedStep (s : Notified) : Notified → Type 0 where
  caller_runs :
      {t : System}
      → CallerStep s.system t
      → t.start_generation ≡ s.system.start_generation
      → s.caller_asleep ≡ false
      → s.notify_all_due ≡ false
      → NotifiedStep s (record s { system = t })
  caller_publishes :
      {t : System}
      → CallerStep s.system t
      → t.start_generation ≢ s.system.start_generation
      → s.caller_asleep ≡ false
      → s.notify_all_due ≡ false
      → NotifiedStep s (record s { system = t; notify_all_due = true })
  notify_all :
      s.notify_all_due ≡ true
      → NotifiedStep s (record s { asleep = λ _. false; notify_all_due = false })
  caller_sleeps :
      (job : Job) (generation index : ℕ)
      → s.system.caller ≡ waiting job generation index
      → index ≢ s.system.worker_count
      → (s.system.worker_states index).completed_generation ≢ generation
      → s.caller_asleep ≡ false
      → s.notify_all_due ≡ false
      → NotifiedStep s (record s { caller_asleep = true })
  worker_runs :
      (i : ℕ) {t : System}
      → i < s.system.threads
      → WorkerStep s.system i t
      → ((generation : ℕ) → s.system.workers i ≢ copied generation)
      → s.asleep i ≡ false
      → s.notify_one_due i ≡ false
      → NotifiedStep s (record s { system = t })
  worker_completes :
      (i generation : ℕ) {t : System}
      → i < s.system.threads
      → WorkerStep s.system i t
      → s.system.workers i ≡ copied generation
      → s.asleep i ≡ false
      → s.notify_one_due i ≡ false
      → NotifiedStep s (record s { system = t; notify_one_due = update s.notify_one_due i true })
  worker_sleeps :
      (i observed : ℕ)
      → i < s.system.threads
      → s.system.workers i ≡ blocked observed
      → s.system.start_generation ≡ observed
      → s.asleep i ≡ false
      → s.notify_one_due i ≡ false
      → NotifiedStep s (record s { asleep = update s.asleep i true })
  notify_one :
      (i : ℕ)
      → s.notify_one_due i ≡ true
      → NotifiedStep s (record s {
        caller_asleep = caller_after i s;
        notify_one_due = update s.notify_one_due i false;
      })

-- The pool before `start_workers(thread_count)` starts a thread; nobody sleeps.
abbrev pub init_notified : (thread_count : ℕ) → Memory → Notified
init_notified n m = record {
  system = init n m;
  asleep = λ _. false;
  caller_asleep = false;
  notify_all_due = false;
  notify_one_due = λ _. false;
}

pub data NotifiedReach (n : ℕ) (m : Memory) : Notified → Type 0 where
  start_notified : NotifiedReach n m (init_notified n m)
  later_notified : {s t : Notified} → NotifiedReach n m s → NotifiedStep s t → NotifiedReach n m t

-- Without the sleep and the notifications it is a run of the pool.
pub NotifiedReach-Reach :
    {n : ℕ} {m : Memory} {s : Notified} → NotifiedReach n m s → Reach n m s.system
NotifiedReach-Reach start_notified = start
NotifiedReach-Reach (later_notified r (caller_runs step same up due)) =
    later (NotifiedReach-Reach r) (caller_step step)
NotifiedReach-Reach (later_notified r (caller_publishes step new up due)) =
    later (NotifiedReach-Reach r) (caller_step step)
NotifiedReach-Reach (later_notified r (notify_all due)) = NotifiedReach-Reach r
NotifiedReach-Reach (later_notified r (caller_sleeps job g k e more other up due)) =
    NotifiedReach-Reach r
NotifiedReach-Reach (later_notified r (worker_runs i lt step away up due)) =
    later (NotifiedReach-Reach r) (worker_step i lt step)
NotifiedReach-Reach (later_notified r (worker_completes i g lt step at up due)) =
    later (NotifiedReach-Reach r) (worker_step i lt step)
NotifiedReach-Reach (later_notified r (worker_sleeps i o lt at same up due)) = NotifiedReach-Reach r
NotifiedReach-Reach (later_notified r (notify_one i due)) = NotifiedReach-Reach r
