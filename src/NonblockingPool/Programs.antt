-- ===== src/NonblockingPool/Programs.antt =====
-- Programs that use NonblockingDownwardPool objects: include/doost/nonblocking_downward_pool.hpp, one
-- operation after the other, which are those of the class DownwardPool. A construction at an address first
-- ends the life of the object that is there.
use doost.Base.{ℕ, List, [], ◌∷◌, Outcome, returned, thrown}
use doost.Posix.{Posix}
use doost.Storage.{Process}
use doost.DownwardPool.Programs.{
  PoolOperation, construction, move_construction, move_assignment, allocation, resetting, releasing,
}
use doost.NonblockingPool.{
  NonblockingPool, Pools, put, empty_pool, allocate, reset, construct, move_construct, move_assign,
  release,
}

abbrev pub no_pools : Pools
no_pools i = empty_pool

module _ (os : Posix) where
  -- `release`, and the destructor.
  unfoldable pub release_at : (this : ℕ) → Pools × Process os → Pools × Process os
  unfolding release
  release_at this (pools, p) =
      let (released, q) = release os (pools this) p in (put pools this released, q)

  -- An exception leaves no object.
  unfoldable pub hold :
      (this : ℕ) → Pools → Outcome NonblockingPool × Process os → Pools × Process os
  hold this pools (returned x, q) = (put pools this x, q)
  hold this pools (thrown e, q) = (pools, q)

  unfoldable pub construct_at :
      (this usable_bytes max_alloc_size : ℕ) → Pools × Process os → Pools × Process os
  unfolding construct hold
  construct_at this usable max_alloc (pools, p) = hold this pools (construct os usable max_alloc p)

  unfoldable pub run : PoolOperation → Pools × Process os → Pools × Process os
  unfolding release_at construct_at move_construct move_assign
  run (construction this usable max_alloc) s =
      construct_at this usable max_alloc (release_at this s)
  run (move_construction this other) s =
      let (pools, p) = release_at this s in (move_construct this other pools, p)
  run (move_assignment this other) s = move_assign os this other s
  run (allocation this bytes alignment) (pools, p) =
      (put pools this (allocate bytes alignment (pools this)).1, p)
  run (resetting this) (pools, p) = (put pools this (reset (pools this)), p)
  run (releasing this) s = release_at this s

  -- A program that catches every exception and goes on.
  unfoldable pub run_all : List PoolOperation → Pools × Process os → Pools × Process os
  unfolding run
  run_all [] s = s
  run_all (o ∷ os') s = run_all os' (run o s)
