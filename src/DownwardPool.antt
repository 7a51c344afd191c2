-- ===== src/DownwardPool.antt =====
-- include/doost/downward_pool.hpp and src/downward_pool.cpp: the pool that one thread uses.
pub mod Room
pub mod Allocate
pub mod Construct
pub mod Release
pub mod Moves
pub mod Programs
pub mod Regions
pub mod Accounts
pub mod NoLeaks
use doost.Base.{ℕ, if◌then◌else◌, ◌==◌, Outcome, returned, thrown}
use doost.Posix.{Posix, null}
use doost.Storage.{
  Storage, no_storage, Process, downward_pool_mapping_end, align_downward_pool_cursor,
  downward_pool_used_bytes, downward_pool_usable_bytes, make_downward_pool_storage,
  release_downward_pool_storage,
}

pub record DownwardPool : Type 0 where
  pub storage : Storage
  pub cursor : ℕ

abbrev pub pool : Storage → ℕ → DownwardPool
pool s c = record { storage = s; cursor = c }

abbrev pub empty_pool : DownwardPool
empty_pool = pool no_storage null

-- The block's address is the new cursor.
unfoldable pub allocate : (bytes alignment : ℕ) → DownwardPool → ℕ × DownwardPool
unfolding align_downward_pool_cursor
allocate bytes alignment p =
    let c = align_downward_pool_cursor p.cursor bytes alignment in (c, pool p.storage c)

unfoldable pub reset : DownwardPool → DownwardPool
unfolding downward_pool_mapping_end
reset p = pool p.storage (downward_pool_mapping_end p.storage)

unfoldable pub used_bytes : DownwardPool → ℕ
unfolding downward_pool_used_bytes
used_bytes p = downward_pool_used_bytes p.cursor p.storage

-- The pool objects of a process, by address.
abbrev pub Pools : Type 0
Pools = ℕ → DownwardPool

abbrev pub put : Pools → ℕ → DownwardPool → Pools
put pools i p j = if i == j then p else pools j

unfoldable pub move_from : (this other : ℕ) → Pools → Pools
move_from this other pools =
    put (put pools this (pool (pools other).storage (pools other).cursor)) other empty_pool

-- The move constructor: `this` holds no pool yet.
unfoldable pub move_construct : (this other : ℕ) → Pools → Pools
unfolding move_from
move_construct this other pools = move_from this other (put pools this empty_pool)

module _ (os : Posix) where
  unfoldable pub start_pool : Outcome Storage × Process os → Outcome DownwardPool × Process os
  start_pool (returned s, p) = (returned (pool s (downward_pool_mapping_end s)), p)
  start_pool (thrown e, p) = (thrown e, p)

  unfoldable pub construct :
      (usable_bytes max_alloc_size : ℕ) → Process os → Outcome DownwardPool × Process os
  unfolding start_pool
  construct usable max_alloc p = start_pool (make_downward_pool_storage os usable max_alloc p)

  -- Also what the destructor does.
  unfoldable pub release : DownwardPool → Process os → DownwardPool × Process os
  unfolding release_downward_pool_storage
  release x p = let (s, q) = release_downward_pool_storage os x.storage p in (pool s null, q)

  unfoldable pub usable_bytes : os.State → DownwardPool → ℕ
  unfolding downward_pool_usable_bytes
  usable_bytes system p = downward_pool_usable_bytes os system p.storage

  unfoldable pub move_assign : (this other : ℕ) → Pools × Process os → Pools × Process os
  unfolding release move_from
  move_assign this other (pools, p) =
      if this == other
      then (pools, p)
      else let (released, q) = release (pools this) p in
        (move_from this other (put pools this released), q)
