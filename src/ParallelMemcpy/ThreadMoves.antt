-- ===== src/ParallelMemcpy/ThreadMoves.antt =====
-- Steps of the caller that start threads, tell them to stop and join them.
use doost.Base.{ℕ, ◌+◌, ◌<◌, ◌≤◌, ◌≡◌, ◌≢◌, refl, true, arith}
use doost.Word.{add_word, word_mod}
use doost.ParallelMemcpy.{
  starting, idle, stop_publishing, joining, WorkerPc, unstarted, observing, checking, blocked,
  woken, copying, copied, exited, System, update,
}
use doost.ParallelMemcpy.Invariant.{AtRest, Leaving, Going, Starting, Stopping, Joining, Quiet}

AtRest-Leaving : (g : ℕ) (pc : WorkerPc) → AtRest g pc → Leaving g pc
AtRest-Leaving g unstarted r = r
AtRest-Leaving g (observing o) r = r
AtRest-Leaving g (checking o) r = r
AtRest-Leaving g (blocked o) r = r
AtRest-Leaving g (woken o) r = r
AtRest-Leaving g (copying o) r = r
AtRest-Leaving g (copied o) r = r
AtRest-Leaving g exited r = tt

Leaving-Going : (g : ℕ) (pc : WorkerPc) → Leaving g pc → Going g pc
Leaving-Going g unstarted r = r
Leaving-Going g (observing o) r = r
Leaving-Going g (checking o) r = r
Leaving-Going g (blocked o) r = r
Leaving-Going g (woken o) r = tt
Leaving-Going g (copying o) r = r
Leaving-Going g (copied o) r = r
Leaving-Going g exited r = tt

pub stopping_now :
    (n : ℕ) (s : System)
    → s.threads ≤ n
    → s.start_generation < word_mod
    → ((i : ℕ) → i < s.threads → AtRest s.start_generation (s.workers i))
    → Stopping n (record s { stopping = true; caller = stop_publishing })
stopping_now n s threads small rest = record {
  threads = threads;
  stopping = refl;
  small = small;
  leaving = λ i lt. AtRest-Leaving s.start_generation (s.workers i) (rest i lt);
}

-- Threads are started, told to stop and joined.
module _ {n : ℕ} {s : System} where
  pub started :
      (k : ℕ)
      → Starting n k s
      → k ≢ s.worker_count
      → Starting n (k + 1) (record s {
        threads = s.threads + 1;
        workers = update s.workers k (observing 0);
        caller = starting (k + 1);
      })
  started k ph more = record {
    count = ph.count;
    threads = omega (arith, ph.threads);
    index = omega (arith, ph.index, ph.count);
    running = ph.running;
    generation = ph.generation;
    rest = λ i lt. ground (arith, ph.rest i);
    complete = ph.complete;
  }

  pub all_started :
      (k : ℕ) → Starting n k s → k ≡ s.worker_count → Quiet n (record s { caller = idle })
  all_started k ph end = record {
    count = ph.count;
    threads = omega (arith, ph.threads, ph.count);
    running = ph.running;
    small = omega (arith, ph.generation);
    rest = λ i lt. rw ph.generation (ph.rest i (omega (arith, ph.count)));
    complete = λ i lt. rw ph.generation (ph.complete i lt);
  }

  pub told :
      Stopping n s
      → Joining n s.start_generation 0
          (record s { start_generation = add_word s.start_generation 1; caller = joining 0 })
  told q = record {
    threads = q.threads;
    stopping = q.stopping;
    fresh = omega (arith, q.small);
    index = omega arith;
    going = λ i lt. Leaving-Going s.start_generation (s.workers i) (q.leaving i lt);
    joined = λ i lt. absurd (omega (arith, lt));
  }

  pub joined_one :
      {p : ℕ} (k : ℕ)
      → Joining n p k s
      → k ≢ s.threads
      → s.workers k ≡ exited
      → Joining n p (k + 1) (record s { caller = joining (k + 1) })
  joined_one k j more gone = record {
    threads = j.threads;
    stopping = j.stopping;
    fresh = j.fresh;
    index = omega (arith, j.index, more);
    going = j.going;
    joined = λ i lt. ground (arith, j.joined i, gone);
  }
