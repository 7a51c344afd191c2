-- ===== src/MutexPool/Linear.antt =====
-- The mutex makes the methods one after the other, in the order of their writes.
use doost.Base.{ℕ, ◌≡◌, refl, ap, ◌∙◌, arith, ◌∷◌, some, Bool, true, false}
use mathlib.Core.Path.{ap₂}
use doost.Posix.{Posix}
use doost.MutexPool.{Call, Protected, perform}
use doost.MutexPool.Threads.{
  Pc, outside, waiting, working, System, Step, call, lock, read, write, unlock, Reach, start, later,
  in_turn, answers_in_turn,
}

module _ (os : Posix) where
  -- Between the return of lock and the call of unlock.
  abbrev pub inside : Pc os → Bool
  inside outside = false
  inside (waiting c) = false
  inside _ = true

  record Inv (x : Protected os) (s : System os) : Type 0 where
    owned : (i : ℕ) → inside (s.pc i) ≡ true → s.owner ≡ some i
    fresh : (i : ℕ) (c : Call) (seen : Protected os) → s.pc i ≡ working c seen → seen ≡ s.shared
    linear : s.shared ≡ in_turn os x s.history
    answered : s.answers ≡ answers_in_turn os x s.history

  Step-Inv : {x : Protected os} {s t : System os} → Step os s t → Inv x s → Inv x t
  unfolding in_turn answers_in_turn
  Step-Inv (call i c e) inv = record {
    owned = λ j h. ground (arith, inv.owned j);
    fresh = λ j d seen f. ground (arith, inv.fresh j d seen);
    linear = inv.linear;
    answered = inv.answered;
  }
  Step-Inv (lock i c e free) inv = record {
    owned = λ j h. ground (arith, inv.owned j);
    fresh = λ j d seen f. ground (arith, inv.fresh j d seen);
    linear = inv.linear;
    answered = inv.answered;
  }
  Step-Inv (read i c e) inv = record {
    owned = λ j h. ground (arith, inv.owned j, inv.owned i);
    fresh = λ j d seen f. ground (arith, inv.fresh j d seen);
    linear = inv.linear;
    answered = inv.answered;
  }
  Step-Inv (write i c seen e) inv = record {
    owned = λ j h. ground (arith, inv.owned j, inv.owned i);
    fresh = λ j d seen' f. ground (arith, inv.owned j, inv.owned i);
    linear = ap (λ y. (perform os c y).1) (inv.fresh i c seen e ∙ inv.linear);
    answered = ap₂ (λ y a. (perform os c y).0 ∷ a) (inv.fresh i c seen e ∙ inv.linear) inv.answered;
  }
  Step-Inv (unlock i e) inv = record {
    owned = λ j h. ground (arith, inv.owned j, inv.owned i);
    fresh = λ j d seen f. ground (arith, inv.fresh j d seen);
    linear = inv.linear;
    answered = inv.answered;
  }

  Reach-Inv : {x : Protected os} {s : System os} → Reach os x s → Inv x s
  unfolding in_turn answers_in_turn
  Reach-Inv start = record {
    owned = λ i h. cc;
    fresh = λ i c seen e. cc;
    linear = refl;
    answered = refl;
  }
  Reach-Inv (later r st) = Step-Inv st (Reach-Inv r)

  -- In every reachable state at most one thread is inside a method, and the pool and the answers are
  -- those of the same calls made one after the other, in the order of their writes.
  pub methods_in_turn :
      {x : Protected os} {s : System os}
      → Reach os x s
      → ((i j : ℕ) → inside (s.pc i) ≡ true → inside (s.pc j) ≡ true → i ≡ j)
        × (s.shared ≡ in_turn os x s.history)
        × (s.answers ≡ answers_in_turn os x s.history)
  methods_in_turn reach =
      let inv = Reach-Inv reach in
      (λ i j h k. ground (arith, inv.owned i h, inv.owned j k), inv.linear, inv.answered)
