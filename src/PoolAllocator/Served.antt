-- ===== src/PoolAllocator/Served.antt =====
-- DownwardPool and NonblockingDownwardPool serve a List.
use native.Mathlib.Nat.{suc-mul}
use doost.Base.{ℕ, suc, ◌+◌, ◌-◌, ◌*◌, ◌%◌, ◌≤◌, ◌<◌, ◌≡◌, arith, ap, ◌∙◌}
use doost.Word.{word_mod, sub_word, IsPowerOfTwo, power_pos, multiple_sub}
use doost.Blocks.{request}
use doost.Storage.{Storage}
use doost.DownwardPool
use doost.DownwardPool.{DownwardPool}
use doost.DownwardPool.Room.{floor}
use doost.DownwardPool.Allocate.{IsPool, allocate_lem}
use doost.NonblockingPool
use doost.NonblockingPool.{NonblockingPool, cursor_alignment, reservation, fetch_sub}
use doost.NonblockingPool.Reservation.{IsAsked, block_at-inside, reservation_lem}
use doost.PoolAllocator.Serves.{Serves}

module _ (size_of align_of : ℕ) where
  -- A DownwardPool takes a block and less than its alignment for each.
  abbrev pub HasRoom : (page guard : ℕ) (st : Storage) (count : ℕ) → DownwardPool → Type 0
  HasRoom page guard st count p =
      IsPool page guard p
      × (p.storage ≡ st)
      × (floor guard st + count * (size_of + (align_of - 1)) ≤ p.cursor)

  pub HasRoom-allocate :
      (page guard : ℕ) (st : Storage) (k : ℕ) (p : DownwardPool)
      → IsPowerOfTwo align_of
      → HasRoom page guard st (suc k) p
      → let (block, q) = DownwardPool.allocate size_of align_of p in
        HasRoom page guard st k q
        × (floor guard st ≤ block)
        × (block % align_of ≡ 0)
        × (q.cursor ≤ block)
        × (block + size_of ≤ p.cursor)
  HasRoom-allocate page guard st k p power (is, here, room) =
      let each = size_of + (align_of - 1) in
      let one : floor guard st + k * each + size_of + (align_of - 1) ≤ p.cursor =
        omega (arith, room, suc-mul k each) in
      let base : floor guard p.storage ≡ floor guard st = ap (floor guard) here in
      let (after, aligned, above, ends, close, at, stored) =
        allocate_lem p size_of align_of is power (omega (arith, base, one)) in
      (
        (after, stored ∙ here, omega (arith, one, close, at, power_pos power)),
        omega (arith, base, above),
        aligned,
        omega (arith, at),
        ends,
      )

  unfoldable pub downward_serves :
      (page guard : ℕ) (st : Storage)
      → 0 < st.mapping_begin
      → IsPowerOfTwo align_of
      → Serves DownwardPool.allocate size_of align_of
  downward_serves page guard st positive power = record {
    Ready = HasRoom page guard st;
    edge = λ p. p.cursor;
    lowest = floor guard st;
    above = λ k p (is, here, room). omega (arith, room);
    serve = λ k p ready.
        let (after, above, aligned, lower, ends) = HasRoom-allocate page guard st k p power ready in
        (after, omega (arith, above, positive), aligned, lower, ends);
  }

  -- A NonblockingDownwardPool that is at least `count` reservations above `lowest`.
  abbrev pub Reserves : (lowest count : ℕ) → NonblockingPool → Type 0
  Reserves lowest count p =
      (p.cursor % cursor_alignment ≡ 0)
      × (p.cursor < word_mod)
      × (lowest + count * reservation size_of align_of ≤ p.cursor)

  pub Reserves-allocate :
      (lowest k : ℕ) (p : NonblockingPool)
      → IsAsked (request size_of align_of)
      → Reserves lowest (suc k) p
      → let (block, q) = NonblockingPool.allocate size_of align_of p in
        Reserves lowest k q
        × (lowest ≤ block)
        × (block % align_of ≡ 0)
        × (q.cursor ≤ block)
        × (block + size_of ≤ p.cursor)
  unfolding NonblockingPool.allocate fetch_sub
  Reserves-allocate lowest k p asked (multiple, small, room) =
      let r = reservation size_of align_of in
      let one : lowest + k * r + r ≤ p.cursor = omega (arith, room, suc-mul k r) in
      let (aligned, above, ends) =
        block_at-inside p.cursor (request size_of align_of) asked multiple small
          (omega (arith, one)) in
      let lower : sub_word p.cursor r ≡ p.cursor - r = omega (arith, one, small) in
      (
        (
          rw lower (multiple_sub cursor_alignment _ _ multiple (reservation_lem _ asked).0),
          omega (arith, lower, small),
          omega (arith, lower, one),
        ),
        omega (arith, above, one),
        aligned,
        omega (arith, lower, above),
        ends,
      )

  -- It takes what it reserves for each.
  unfoldable pub nonblocking_serves :
      (lowest : ℕ)
      → 0 < lowest
      → IsAsked (request size_of align_of)
      → Serves NonblockingPool.allocate size_of align_of
  nonblocking_serves lowest positive asked = record {
    Ready = Reserves lowest;
    edge = λ p. p.cursor;
    lowest = lowest;
    above = λ k p (multiple, small, room). omega (arith, room);
    serve = λ k p ready.
        let (after, above, aligned, lower, ends) = Reserves-allocate lowest k p asked ready in
        (after, omega (arith, above, positive), aligned, lower, ends);
  }
