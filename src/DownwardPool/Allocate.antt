-- ===== src/DownwardPool/Allocate.antt =====
-- What `allocate` hands out, one call and many.
use doost.Base.{ℕ, ◌+◌, ◌-◌, ◌%◌, ◌≤◌, ◌<◌, ◌≡◌, ◌⊎◌, refl, true, List, [], ◌∷◌, arith, dec_lt}
use doost.Word.{IsPowerOfTwo, power_pos, multiple_of_larger, multiple_gap}
use doost.Posix.{in_range}
use doost.Storage.{align_downward_pool_cursor}
use doost.Blocks.{Block, block, Request, Aligned, demand, Placed, Answers, Placed-Answers}
use doost.DownwardPool.{DownwardPool, allocate, used_bytes}
use doost.DownwardPool.Room.{IsLaid, floor, ceiling, align_cursor-RoundsDown, used_bytes_laid}

-- A pool that a program uses: laid out, with the cursor between the guard pages and the end.
pub record IsPool (page guard : ℕ) (p : DownwardPool) : Type 0 where
  pub laid : IsLaid page guard p.storage
  pub above : floor guard p.storage ≤ p.cursor
  pub below : p.cursor ≤ ceiling p.storage

-- Calls of `allocate` in a row.
unfoldable pub allocate_all : List Request → DownwardPool → List Block × DownwardPool
allocate_all [] p = ([], p)
allocate_all (r ∷ rs) p =
    let (a, q) = allocate r.bytes r.alignment p in
    let (bs, end) = allocate_all rs q in (block a r.bytes ∷ bs, end)

pub allocate_all-storage :
    (rs : List Request) (p : DownwardPool) → (allocate_all rs p).1.storage ≡ p.storage
unfolding allocate_all allocate
allocate_all-storage [] p = refl
allocate_all-storage (r ∷ rs) p = allocate_all-storage rs (allocate r.bytes r.alignment p).1

module _ {page guard : ℕ} where
  -- One call: the block is aligned, ends at or below the old cursor and wastes less than the
  -- alignment.
  pub allocate_lem :
      (p : DownwardPool) (bytes alignment : ℕ)
      → IsPool page guard p
      → IsPowerOfTwo alignment
      → floor guard p.storage + bytes + (alignment - 1) ≤ p.cursor
      → let (a, q) = allocate bytes alignment p in
        IsPool page guard q
        × (a % alignment ≡ 0)
        × (floor guard p.storage ≤ a)
        × (a + bytes ≤ p.cursor)
        × (p.cursor < a + bytes + alignment)
        × (q.cursor ≡ a)
        × (q.storage ≡ p.storage)
  unfolding allocate
  allocate_lem p bytes alignment is power room =
      let d =
        align_cursor-RoundsDown p.cursor bytes power (omega arith)
          (omega (arith, is.below, is.laid.in_space)) in
      (
        record {
          laid = is.laid;
          above = omega (arith, d.close, power_pos power);
          below = omega (arith, d.le, is.below);
        },
        d.multiple,
        omega (arith, d.close, power_pos power),
        omega (arith, d.le),
        omega (arith, d.close),
        refl,
        refl,
      )

  pub allocate_all-Placed :
      (rs : List Request) (p : DownwardPool)
      → IsPool page guard p
      → Aligned rs
      → floor guard p.storage + demand rs ≤ p.cursor
      → Placed (floor guard p.storage) p.cursor rs (allocate_all rs p).0
        × IsPool page guard (allocate_all rs p).1
  unfolding allocate_all demand allocate
  allocate_all-Placed [] p is aligned room = (is.above, is)
  allocate_all-Placed (r ∷ rs) p is aligned room =
      let one = allocate_lem p r.bytes r.alignment is aligned.0 (omega arith) in
      let rest =
        allocate_all-Placed rs (allocate r.bytes r.alignment p).1 one.0 aligned.1
          (omega (arith, one.4, power_pos aligned.0)) in
      ((refl, one.1, one.3, rest.0), rest.1)

  -- Calls in a row, with room for all of them, give disjoint aligned blocks between the guard pages
  -- and the old cursor.
  pub allocate_all-Answers :
      (rs : List Request) (p : DownwardPool)
      → IsPool page guard p
      → Aligned rs
      → floor guard p.storage + demand rs ≤ p.cursor
      → Answers (floor guard p.storage) p.cursor rs (allocate_all rs p).0
        × IsPool page guard (allocate_all rs p).1
  allocate_all-Answers rs p is aligned room =
      let (placed, end) = allocate_all-Placed rs p is aligned room in
      (Placed-Answers rs _ placed, end)

  -- Where there is room for the block and its alignment, the bytes in use grow by the block and by
  -- less than its alignment.
  pub used_bytes-allocate :
      (p : DownwardPool) (bytes alignment : ℕ)
      → IsPool page guard p
      → IsPowerOfTwo alignment
      → floor guard p.storage + bytes + (alignment - 1) ≤ p.cursor
      → (used_bytes p + bytes ≤ used_bytes (allocate bytes alignment p).1)
        × (used_bytes (allocate bytes alignment p).1 < used_bytes p + bytes + alignment)
  unfolding used_bytes allocate
  used_bytes-allocate p bytes alignment is power room =
      let (after, multiple, above, ends, close, _, _) =
        allocate_lem p bytes alignment is power room in
      let before_used = used_bytes_laid p.cursor is.laid (omega (arith, is.above)) is.below in
      let after_used =
        used_bytes_laid (allocate bytes alignment p).0 is.laid (omega arith)
          (omega (arith, is.below)) in
      (
        omega (arith, before_used, after_used, is.below),
        omega (arith, before_used, after_used, is.below),
      )

  -- A block above the guard pages ends at or below the old cursor.
  pub allocate_ends :
      (p : DownwardPool) (bytes alignment : ℕ)
      → IsPool page guard p
      → IsPowerOfTwo alignment
      → bytes ≤ guard
      → (allocate bytes alignment p).0 + bytes ≤ p.cursor
  unfolding allocate
  allocate_ends p bytes alignment is power fits =
      let d =
        align_cursor-RoundsDown p.cursor bytes power (omega (arith, is.above))
          (omega (arith, is.below, is.laid.in_space)) in
      omega (arith, d.le, is.above)

  -- A call that asks for no more than the guard pages hold, from a cursor above them, gives a block
  -- that lies above them too, or one whose address is in the guard pages: it never lands below the
  -- mapping.
  pub allocate_overflow :
      (p : DownwardPool) (bytes alignment : ℕ)
      → IsPool page guard p
      → IsPowerOfTwo page
      → IsPowerOfTwo alignment
      → alignment ≤ page
      → bytes ≤ guard
      → let a = (allocate bytes alignment p).0 in
        (floor guard p.storage ≤ a) ⊎ (in_range p.storage.mapping_begin guard a ≡ true)
  unfolding allocate
  allocate_overflow p bytes alignment is page_power power small fits =
      let d =
        align_cursor-RoundsDown p.cursor bytes power (omega (arith, is.above))
          (omega (arith, is.below, is.laid.in_space)) in
      let begin_aligned =
        multiple_of_larger power page_power small p.storage.mapping_begin is.laid.begin_page in
      elim (dec_lt (align_downward_pool_cursor p.cursor bytes alignment) p.storage.mapping_begin) [
        | yes lt ↦ absurd (
            omega
              (arith, d.close, is.above, multiple_gap alignment _ _ d.multiple begin_aligned lt))
        | no ge ↦ ground arith
      ]
