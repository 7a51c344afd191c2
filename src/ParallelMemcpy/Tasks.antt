-- ===== src/ParallelMemcpy/Tasks.antt =====
-- How `copy` divides a job among the workers.
use doost.Base.{ℕ, zero, suc, ◌+◌, ◌-◌, ◌*◌, ◌/◌, ◌≤◌, ◌<◌, ◌≡◌, arith, if◌then◌else◌, ◌==◌, dec_lt}
use native.Mathlib.Nat.{div-add-mod', mod-lt, div-mul-le_self}

-- Where the part of worker `i` begins in the job, and its size; `n` is the number of workers.
abbrev pub part_offset : (size n i : ℕ) → ℕ
part_offset size n i = i * (size / n)

abbrev pub part_size : (size n i : ℕ) → ℕ
part_size size n i = if i == n - 1 then size - part_offset size n i else size / n

mul_le : (i j w : ℕ) → i ≤ j → i * w ≤ j * w
mul_le i j w h = grind arith

pub next_part : (i w : ℕ) → suc i * w ≡ i * w + w
next_part i w = omega arith

module _ (size n : ℕ) where
  -- No part reaches past the end of the job.
  pub part_within : (i : ℕ) → i < n → part_offset size n i + part_size size n i ≤ size
  part_within i lt =
      ground (arith, next_part i (size / n), mul_le (suc i) n (size / n) lt, div-mul-le_self size n)

  -- The parts lie one behind the other.
  pub parts_in_order :
      (i j : ℕ) → i < j → j < n → part_offset size n i + part_size size n i ≤ part_offset size n j
  parts_in_order i j lt below =
      ground (arith, next_part i (size / n), mul_le (suc i) j (size / n) lt)

  -- Every byte of the job is in a part.
  pub parts_cover :
      (o : ℕ)
      → o < size
      → 0 < n
      → (i : ℕ) × (i < n)
        × (part_offset size n i ≤ o)
        × (o < part_offset size n i + part_size size n i)
  parts_cover o lt pos = elim (dec_lt o (part_offset size n (n - 1))) [
    | no last ↦ (n - 1, omega arith, omega arith, ground arith)
    | yes early ↦
        let w = size / n in
        let w_pos : 0 < w = w_positive (n - 1) w early in
        let below : o / w < n - 1 = quotient_below w early in
        (o / w, omega arith, div-mul-le_self o w, ground (arith, div-add-mod' o w, mod-lt o w_pos))
  ]
    where
      w_positive : (k w : ℕ) → o < k * w → 0 < w
      w_positive k zero h = absurd (omega arith)
      w_positive k (suc w) h = omega arith

      quotient_below : (w : ℕ) → o < (n - 1) * w → o / w < n - 1
      quotient_below w h = elim (dec_lt (o / w) (n - 1)) [
        | yes q ↦ q
        | no q ↦ absurd (omega (arith, div-mul-le_self o w, mul_le (n - 1) (o / w) w (omega arith)))
      ]
