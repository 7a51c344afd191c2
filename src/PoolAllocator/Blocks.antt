-- ===== src/PoolAllocator/Blocks.antt =====
-- The blocks that an allocator gets for a number of objects.
use native.Mathlib.Nat.{mod-eq_of_lt}
use doost.Base.{ℕ, ◌+◌, ◌-◌, ◌*◌, ◌%◌, ◌≤◌, ◌≡◌, ◌≢◌, sym, ap, ◌∙◌, subst, false, ◌==◌, some, arith}
use doost.Word.{mul_word, IsPowerOfTwo}
use doost.Posix.{null}
use doost.DownwardPool.{DownwardPool, allocate}
use doost.DownwardPool.Room.{floor}
use doost.DownwardPool.Allocate.{IsPool, allocate_lem}
use doost.PoolAllocator.{DownwardPoolAllocator, downward_allocate, allocated}

-- Where the pool has room for `n` objects, the allocator gets an aligned block for all of them, below
-- the blocks that were handed out before, and no other pool changes.
downward_allocate-IsPool :
    {page guard : ℕ} (size_of align_of n : ℕ) (a : DownwardPoolAllocator) (pools : ℕ → DownwardPool)
    → a.pool ≢ null
    → IsPool page guard (pools a.pool)
    → IsPowerOfTwo align_of
    → floor guard (pools a.pool).storage + n * size_of + (align_of - 1) ≤ (pools a.pool).cursor
    → (block : ℕ) × (after : ℕ → DownwardPool) × (downward_allocate size_of align_of a n pools
        ≡ some (block, after))
      × IsPool page guard (after a.pool)
      × (block % align_of ≡ 0)
      × (floor guard (pools a.pool).storage ≤ block)
      × (block + n * size_of ≤ (pools a.pool).cursor)
      × ((after a.pool).cursor ≡ block)
      × ((i : ℕ) → i ≢ a.pool → after i ≡ pools i)
unfolding downward_allocate
downward_allocate-IsPool {page} {guard} size_of align_of n a pools not_null is power room =
    let whole : mul_word n size_of ≡ n * size_of =
      mod-eq_of_lt (omega (arith, is.below, is.laid.in_space)) in
    let (is_pool, aligned, above, ends, _, at, _) =
      allocate_lem (pools a.pool) (n * size_of) align_of is power room in
    let p = allocate (n * size_of) align_of (pools a.pool) in
    let after = (allocated allocate a.pool pools p).1 in
    let here : after a.pool ≡ p.1 = ground arith in
    (
      p.0,
      after,
      answer whole,
      subst (IsPool page guard) (sym here) is_pool,
      aligned,
      above,
      ends,
      ap (λ q. q.cursor) here ∙ at,
      λ i other. ground (arith, other),
    )
  where
    answer :
        mul_word n size_of ≡ n * size_of
        → downward_allocate size_of align_of a n pools
          ≡ some (allocated allocate a.pool pools (allocate (n * size_of) align_of (pools a.pool)))
    answer whole =
        let present : (a.pool == null) ≡ false = ground arith in
        rw present (
          ap (λ m. some (allocated allocate a.pool pools (allocate m align_of (pools a.pool))))
            whole)
