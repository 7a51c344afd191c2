-- ===== src/PoolAllocator.antt =====
-- include/doost/downward_pool_allocator.hpp: the allocators that take the memory of a container from a
-- pool. SequentialPoolAllocator is generic in the pool, DownwardPoolAllocator is for a DownwardPool.
pub mod Blocks
pub mod PoolList
pub mod ListBlocks
pub mod Capacity
pub mod Serves
pub mod SequentialList
pub mod SequentialNodes
pub mod Served
pub mod SequentialCapacity
pub mod SharedLists
pub mod SharedNodes
pub mod SharedMemory
use doost.Base.{ℕ, Bool, not, ◌==◌, Option, none, some, if◌then◌else◌}
use doost.Word.{mul_word}
use doost.Posix.{null}
use doost.DownwardPool.{DownwardPool, allocate}

-- An allocator is the address of its pool; one without a pool has the null pointer.
pub record Allocator : Type 0 where
  pub pool : ℕ

abbrev pub no_pool : Allocator
no_pool = record { pool = null }

abbrev pub on_pool : ℕ → Allocator
on_pool p = record { pool = p }

-- The converting constructor, from an allocator for another type.
abbrev pub rebound : Allocator → Allocator
rebound other = on_pool other.pool

abbrev pub same_pool : Allocator → Allocator → Bool
same_pool lhs rhs = lhs.pool == rhs.pool

abbrev pub different_pool : Allocator → Allocator → Bool
different_pool lhs rhs = not (same_pool lhs rhs)

-- SequentialPoolAllocator, with the allocate of the pool's class. `none` is a call through the null
-- pointer.
module _ {Pool : Type 0} (pool_allocate : (bytes alignment : ℕ) → Pool → ℕ × Pool) where
  abbrev pub allocated : ℕ → (ℕ → Pool) → ℕ × Pool → ℕ × (ℕ → Pool)
  allocated at pools (block, p) = (block, λ i. if i == at then p else pools i)

  unfoldable pub sequential_allocate :
      (size_of align_of : ℕ) → Allocator → (n : ℕ) → (ℕ → Pool) → Option (ℕ × (ℕ → Pool))
  sequential_allocate size_of align_of a n pools =
      if a.pool == null
      then none
      else some
          (allocated a.pool pools (pool_allocate (mul_word n size_of) align_of (pools a.pool)))

abbrev pub deallocate : {A : Type 0} → Allocator → (block n : ℕ) → A → A
deallocate a block n memory = memory

-- DownwardPoolAllocator, whose members are those of its class.
pub record DownwardPoolAllocator : Type 0 where
  pub pool : ℕ

abbrev pub no_downward_pool : DownwardPoolAllocator
no_downward_pool = record { pool = null }

abbrev pub on_downward_pool : ℕ → DownwardPoolAllocator
on_downward_pool p = record { pool = p }

-- The converting constructor.
abbrev pub rebound_downward : DownwardPoolAllocator → DownwardPoolAllocator
rebound_downward other = record { pool = other.pool }

abbrev pub same_downward_pool : DownwardPoolAllocator → DownwardPoolAllocator → Bool
same_downward_pool lhs rhs = lhs.pool == rhs.pool

abbrev pub different_downward_pool : DownwardPoolAllocator → DownwardPoolAllocator → Bool
different_downward_pool lhs rhs = not (same_downward_pool lhs rhs)

unfoldable pub downward_allocate :
    (size_of align_of : ℕ)
    → DownwardPoolAllocator
    → (n : ℕ) → (ℕ → DownwardPool)
    → Option (ℕ × (ℕ → DownwardPool))
unfolding allocate
downward_allocate size_of align_of a n pools =
    if a.pool == null
    then none
    else let (block, p) = allocate (mul_word n size_of) align_of (pools a.pool) in
      some (block, λ i. if i == a.pool then p else pools i)

abbrev pub downward_deallocate : {A : Type 0} → DownwardPoolAllocator → (block n : ℕ) → A → A
downward_deallocate a block n memory = memory
