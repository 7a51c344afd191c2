-- ===== src/NonblockingPool/Threads.antt =====
-- Threads that call `allocate` on one NonblockingDownwardPool, interleaved in any order: a call is
-- the atomic fetch_sub, then the computation of the block from the old cursor.
use doost.Base.{ℕ, ◌+◌, ◌≡◌, List, [], ◌∷◌, if◌then◌else◌, ◌==◌}
use doost.Blocks.{Request, Block}
use doost.NonblockingPool.{NonblockingPool, fetch_sub}
use doost.NonblockingPool.Reservation.{reserved_by, block_at}

-- Where a thread stands: outside of `allocate`, or past the fetch_sub with the old cursor.
pub data Pc : Type 0 where
  outside : Pc
  fetched : (current : ℕ) (r : Request) → Pc

-- The pool, the threads, the blocks returned and the requests that were made (the latest first), and the
-- bytes reserved in all.
pub record System : Type 0 where
  pub shared : NonblockingPool
  pub pc : ℕ → Pc
  pub returned_blocks : List Block
  pub requests : List Request
  pub reserved : ℕ

abbrev pub update : (ℕ → Pc) → ℕ → Pc → ℕ → Pc
update f i p j = if i == j then p else f j

pub data Step (s : System) : System → Type 0 where
  fetch :
      (i : ℕ) (r : Request)
      → s.pc i ≡ outside
      → Step s (record {
        shared = (fetch_sub r.bytes r.alignment s.shared).1;
        pc = update s.pc i (fetched (fetch_sub r.bytes r.alignment s.shared).0 r);
        returned_blocks = s.returned_blocks;
        requests = r ∷ s.requests;
        reserved = s.reserved + reserved_by r;
      })
  finish :
      (i current : ℕ) (r : Request)
      → s.pc i ≡ fetched current r
      → Step s (record s {
        pc = update s.pc i outside;
        returned_blocks = block_at current r ∷ s.returned_blocks;
      })

-- A pool just constructed, and no thread inside a call.
abbrev pub init : NonblockingPool → System
init p = record { shared = p; pc = λ _. outside; returned_blocks = []; requests = []; reserved = 0 }

pub data Reach (p : NonblockingPool) : System → Type 0 where
  start : Reach p (init p)
  later : {s t : System} → Reach p s → Step s t → Reach p t
