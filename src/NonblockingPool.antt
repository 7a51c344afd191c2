-- ===== src/NonblockingPool.antt =====
-- include/doost/nonblocking_downward_pool.hpp and src/nonblocking_downward_pool.cpp: the pool whose
-- cursor several threads lower by an atomic subtraction.
pub mod Reservation
pub mod Threads
pub mod Interleaving
pub mod Construct
pub mod Programs
pub mod Alike
use doost.Base.{ℕ, ◌-◌, if◌then◌else◌, ltb, ◌==◌, Outcome, returned, thrown}
use doost.Word.{add_word, sub_word, and_word, not_word}
use doost.Posix.{Posix, null}
use doost.Storage.{
  Storage, no_storage, Process, downward_pool_mapping_end, align_downward_pool_cursor,
  downward_pool_used_bytes, downward_pool_usable_bytes, make_downward_pool_storage,
  release_downward_pool_storage,
}

-- `cursor` is the atomic.
pub record NonblockingPool : Type 0 where
  pub storage : Storage
  pub cursor : ℕ

abbrev pub pool : Storage → ℕ → NonblockingPool
pool s c = record { storage = s; cursor = c }

abbrev pub empty_pool : NonblockingPool
empty_pool = pool no_storage 0

-- alignof(std::max_align_t)
abbrev pub cursor_alignment : ℕ
cursor_alignment = 16

-- How far a call lowers the cursor.
unfoldable pub reservation : (bytes alignment : ℕ) → ℕ
reservation bytes alignment =
    let padding = if ltb cursor_alignment alignment then sub_word alignment 1 else 0 in
    let reservation_mask = sub_word cursor_alignment 1 in
    and_word (add_word (add_word bytes padding) reservation_mask) (not_word reservation_mask)

-- The atomic fetch_sub: the old cursor, and the pool after it.
unfoldable pub fetch_sub : (bytes alignment : ℕ) → NonblockingPool → ℕ × NonblockingPool
unfolding reservation
fetch_sub bytes alignment p =
    (p.cursor, pool p.storage (sub_word p.cursor (reservation bytes alignment)))

-- A whole call that no other thread interrupts.
unfoldable pub allocate : (bytes alignment : ℕ) → NonblockingPool → ℕ × NonblockingPool
unfolding fetch_sub align_downward_pool_cursor
allocate bytes alignment p =
    let (current, q) = fetch_sub bytes alignment p in
    (align_downward_pool_cursor current bytes alignment, q)

unfoldable pub reset : NonblockingPool → NonblockingPool
unfolding downward_pool_mapping_end
reset p = pool p.storage (downward_pool_mapping_end p.storage)

unfoldable pub used_bytes : NonblockingPool → ℕ
unfolding downward_pool_used_bytes
used_bytes p = downward_pool_used_bytes p.cursor p.storage

-- The pool objects of a process, by address.
abbrev pub Pools : Type 0
Pools = ℕ → NonblockingPool

abbrev pub put : Pools → ℕ → NonblockingPool → Pools
put pools i p j = if i == j then p else pools j

unfoldable pub move_from : (this other : ℕ) → Pools → Pools
move_from this other pools =
    put (put pools this (pool (pools other).storage (pools other).cursor)) other empty_pool

-- The move constructor: `this` holds no pool yet.
unfoldable pub move_construct : (this other : ℕ) → Pools → Pools
unfolding move_from
move_construct this other pools = move_from this other (put pools this empty_pool)

module _ (os : Posix) where
  unfoldable pub start_pool : Outcome Storage × Process os → Outcome NonblockingPool × Process os
  start_pool (returned s, p) = (returned (pool s (downward_pool_mapping_end s)), p)
  start_pool (thrown e, p) = (thrown e, p)

  unfoldable pub construct :
      (usable_bytes max_alloc_size : ℕ) → Process os → Outcome NonblockingPool × Process os
  unfolding start_pool
  construct usable max_alloc p = start_pool (make_downward_pool_storage os usable max_alloc p)

  -- Also what the destructor does.
  unfoldable pub release : NonblockingPool → Process os → NonblockingPool × Process os
  unfolding release_downward_pool_storage
  release x p = let (s, q) = release_downward_pool_storage os x.storage p in (pool s 0, q)

  unfoldable pub usable_bytes : os.State → NonblockingPool → ℕ
  unfolding downward_pool_usable_bytes
  usable_bytes system p = downward_pool_usable_bytes os system p.storage

  unfoldable pub move_assign : (this other : ℕ) → Pools × Process os → Pools × Process os
  unfolding release move_from
  move_assign this other (pools, p) =
      if this == other
      then (pools, p)
      else let (released, q) = release (pools this) p in
        (move_from this other (put pools this released), q)
