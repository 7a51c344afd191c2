-- ===== src/NonblockingPool/Reservation.antt =====
-- A call's block lies inside the bytes that it reserved.
use doost.Base.{
  ℕ, ◌+◌, ◌-◌, ◌%◌, ◌≤◌, ◌<◌, ◌≡◌, refl, arith, inl, inr, Bool-cases, dec_lt, ltb, if◌then◌else◌,
}
use doost.Word.{
  word_mod, add_word, sub_word, IsPowerOfTwo, power_pos, power_lt, mask_rounds_up, RoundsDown,
  multiple_of_larger, multiple_sub, multiple_gap,
}
use doost.Storage.{align_downward_pool_cursor}
use doost.Blocks.{Request, Block, block}
use doost.DownwardPool.Room.{align_cursor-RoundsDown}
use doost.NonblockingPool.{cursor_alignment, reservation}

-- What callers may ask for: a power of two, and a size that rounding up does not wrap around.
pub record IsAsked (r : Request) : Type 0 where
  pub power : IsPowerOfTwo r.alignment
  pub fits : r.bytes + r.alignment + cursor_alignment ≤ word_mod

abbrev pub reserved_by : Request → ℕ
reserved_by r = reservation r.bytes r.alignment

abbrev pub block_at : ℕ → Request → Block
block_at current r = block (align_downward_pool_cursor current r.bytes r.alignment) r.bytes

pub sixteen : IsPowerOfTwo cursor_alignment
sixteen = record { exponent = 4; exponent_lt = omega arith; is_power = refl }

-- The padding of a request: what aligning its block down may cost beyond the cursor's alignment.
abbrev pub padding : Request → ℕ
padding r = if ltb cursor_alignment r.alignment then r.alignment - 1 else 0

pub reservation_lem :
    (r : Request)
    → IsAsked r
    → (reserved_by r % cursor_alignment ≡ 0)
      × (r.bytes + padding r ≤ reserved_by r)
      × (reserved_by r < r.bytes + padding r + cursor_alignment)
unfolding reservation
reservation_lem r asked =
    let pad = if ltb cursor_alignment r.alignment then sub_word r.alignment 1 else 0 in
    let pad_lem : pad ≡ padding r = ground (arith, power_pos asked.power, power_lt asked.power) in
    let small : padding r ≤ r.alignment = ground arith in
    let sum : add_word r.bytes pad ≡ r.bytes + padding r =
      omega (arith, pad_lem, asked.fits, small, power_pos asked.power) in
    let (multiple, ge, lt) =
      mask_rounds_up sixteen (add_word r.bytes pad) (omega (arith, sum, small, asked.fits)) in
    (multiple, omega (arith, sum), omega (arith, sum))

-- The greatest multiple is not below a multiple that is at most as large.
RoundsDown-ge : {m a r : ℕ} (b : ℕ) → RoundsDown m a r → b % m ≡ 0 → b ≤ a → b ≤ r
RoundsDown-ge {m} {r} b d h le = elim (dec_lt r b) [
  | yes lt ↦ absurd (omega (arith, d.close, multiple_gap m r b d.multiple h lt))
  | no ge ↦ omega arith
]

-- From a cursor that is a multiple of 16, the block lies in the reserved bytes and is aligned.
pub block_at-inside :
    (current : ℕ) (r : Request)
    → IsAsked r
    → current % cursor_alignment ≡ 0
    → current < word_mod
    → reserved_by r ≤ current
    → ((block_at current r).address % r.alignment ≡ 0)
      × (current - reserved_by r ≤ (block_at current r).address)
      × ((block_at current r).address + r.bytes ≤ current)
block_at-inside current r asked multiple small room =
    let (whole, enough, close) = reservation_lem r asked in
    let d = align_cursor-RoundsDown current r.bytes asked.power (omega arith) small in
    let reserved_multiple = multiple_sub cursor_alignment current (reserved_by r) multiple whole in
    (
      d.multiple,
      elim (Bool-cases (ltb cursor_alignment r.alignment)) [
        | inl large ↦ ground (arith, d.close)
        | inr within ↦
            RoundsDown-ge (current - reserved_by r) d
              (multiple_of_larger asked.power sixteen (ground arith) _ reserved_multiple)
              (omega arith)
      ],
      omega (arith, d.le),
    )
