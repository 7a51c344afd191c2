-- ===== src/MutexPool/Threads.antt =====
-- Threads that call the methods of one MutexDownwardPool, interleaved in any order. A method takes
-- the mutex, reads the pool, writes it and lets the mutex go, and other threads may step in between.
use doost.Base.{ℕ, ◌≡◌, List, [], ◌∷◌, if◌then◌else◌, ◌==◌, Option, none, some}
use doost.Posix.{Posix}
use doost.MutexPool.{Call, Answer, Protected, perform}

module _ (os : Posix) where
  -- Where a thread stands, with what it has read.
  pub data Pc : Type 0 where
    outside : Pc
    waiting : Call → Pc
    holding : Call → Pc
    working : Call → Protected os → Pc
    leaving : Pc

  -- `history` and `answers` list the calls that have written, the latest first.
  pub record System : Type 0 where
    pub shared : Protected os
    pub owner : Option ℕ
    pub pc : ℕ → Pc
    pub history : List Call
    pub answers : List Answer

  abbrev pub update : (ℕ → Pc) → ℕ → Pc → ℕ → Pc
  update f i p j = if i == j then p else f j

  pub data Step (s : System) : System → Type 0 where
    call :
        (i : ℕ) (c : Call) → s.pc i ≡ outside → Step s (record s { pc = update s.pc i (waiting c) })
    lock :
        (i : ℕ) (c : Call)
        → s.pc i ≡ waiting c
        → s.owner ≡ none
        → Step s (record s { owner = some i; pc = update s.pc i (holding c) })
    read :
        (i : ℕ) (c : Call)
        → s.pc i ≡ holding c
        → Step s (record s { pc = update s.pc i (working c s.shared) })
    write :
        (i : ℕ) (c : Call) (seen : Protected os)
        → s.pc i ≡ working c seen
        → Step s (record s {
          shared = (perform os c seen).1;
          pc = update s.pc i leaving;
          history = c ∷ s.history;
          answers = (perform os c seen).0 ∷ s.answers;
        })
    unlock :
        (i : ℕ) → s.pc i ≡ leaving → Step s (record s { owner = none; pc = update s.pc i outside })

  abbrev pub init : Protected os → System
  init x = record { shared = x; owner = none; pc = λ _. outside; history = []; answers = [] }

  pub data Reach (x : Protected os) : System → Type 0 where
    start : Reach x (init x)
    later : {s t : System} → Reach x s → Step s t → Reach x t

  -- The calls one after the other, the first at the end of the list.
  unfoldable pub in_turn : Protected os → List Call → Protected os
  in_turn x [] = x
  in_turn x (c ∷ cs) = (perform os c (in_turn x cs)).1

  unfoldable pub answers_in_turn : Protected os → List Call → List Answer
  unfolding in_turn
  answers_in_turn x [] = []
  answers_in_turn x (c ∷ cs) = (perform os c (in_turn x cs)).0 ∷ answers_in_turn x cs
