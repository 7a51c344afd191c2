-- ===== src/MutexPool.antt =====
-- include/doost/mutex_downward_pool.hpp: a DownwardPool whose every method holds a mutex. The mutex
-- of the standard library is the thread that owns it, if any.
pub mod Threads
pub mod Linear
pub mod Blocks
use doost.Base.{ℕ, Outcome, returned, thrown}
use doost.Posix.{Posix}
use doost.Storage.{Process}
use doost.Blocks.{Request}
use doost.DownwardPool
use doost.DownwardPool.{DownwardPool}

-- A method with its arguments.
pub data Call : Type 0 where
  allocate : (bytes alignment : ℕ) → Call
  reset : Call
  release : Call
  usable_bytes : Call
  used_bytes : Call

-- What a method returns.
pub data Answer : Type 0 where
  address : ℕ → Answer
  done : Answer
  size : ℕ → Answer

module _ (os : Posix) where
  -- The pool that the mutex protects, and what the pools of the process share.
  abbrev pub Protected : Type 0
  Protected = DownwardPool × Process os

  -- What each method does while it holds the mutex.
  unfoldable pub perform : Call → Protected → Answer × Protected
  perform (allocate bytes alignment) (x, p) =
      let (a, y) = DownwardPool.allocate bytes alignment x in (address a, (y, p))
  perform reset (x, p) = (done, (DownwardPool.reset x, p))
  perform release (x, p) = (done, DownwardPool.release os x p)
  perform usable_bytes (x, p) = (size (DownwardPool.usable_bytes os p.system x), (x, p))
  perform used_bytes (x, p) = (size (DownwardPool.used_bytes x), (x, p))

  unfoldable pub construct :
      (usable_bytes max_alloc_size : ℕ) → Process os → Outcome DownwardPool × Process os
  construct usable max_alloc p = DownwardPool.construct os usable max_alloc p
