-- ===== src/Word/Align.antt =====
-- Rounding a word down and up to a multiple of a power of two by a mask.
use Prim.Native.Nat.{◌∣◌}
use native.Mathlib.Nat.{
  div-add-mod', mod-lt, mod-eq_of_lt, pow-le-pow_right, mul-mod_left, mod-add-mod, zero-add,
  suc-add, dvd-sub, mod-eq-zero_of_dvd, dvd_of_mod-eq-zero, dvd-mul_left, mod-mod_of_dvd, zero-mod,
}
use mathlib.Core.Path.{◌≡⟨◌⟩◌, ◌∎}
use doost.Base.{
  ℕ, zero, suc, ◌+◌, ◌-◌, ◌*◌, ◌/◌, ◌%◌, ◌^◌, ◌≤◌, ◌<◌, ◌≡◌, sym, ap, ◌∙◌, arith, dec_lt,
}
use doost.Word.Ops.{word_mod, add_word, sub_word, not_word, and_word}
use doost.Word.Masks.{bit_and-high, pow_pos, pow_suc}

-- A power of two that a word can hold.
pub record IsPowerOfTwo (m : ℕ) : Type 0 where
  pub exponent : ℕ
  pub exponent_lt : exponent < 64
  pub is_power : m ≡ 2 ^ exponent

-- `r` is the greatest multiple of `m` that is at most `a`.
pub record RoundsDown (m a r : ℕ) : Type 0 where
  pub multiple : r % m ≡ 0
  pub le : r ≤ a
  pub close : a < r + m

pub multiple_lt : (m a : ℕ) → a % m ≡ 0 → a < m → a ≡ 0
multiple_lt m a h lt = sym (mod-eq_of_lt lt) ∙ h

-- Two multiples of `m` are equal or at least `m` apart.
pub multiple_gap : (m a b : ℕ) → a % m ≡ 0 → b % m ≡ 0 → a < b → a + m ≤ b
multiple_gap m a b ha hb lt = grind (arith, div-add-mod' a m, div-add-mod' b m)

module _ {m : ℕ} (p : IsPowerOfTwo m) where
  pub power_pos : 0 < m
  power_pos = omega (arith, p.is_power, pow_pos p.exponent)

  pub power_lt : m < word_mod
  power_lt =
      omega
        (arith, p.is_power, pow-le-pow_right {n = 2} (omega arith) {j = 63} (pred_lt p.exponent_lt))
    where
      pred_lt : p.exponent < 64 → p.exponent ≤ 63
      pred_lt h = omega arith

  -- Clearing the low bits by the mask `~(m - 1)`.
  pub mask-div : (a : ℕ) → a < word_mod → and_word a (not_word (sub_word m 1)) ≡ a / m * m
  mask-div a h =
      bit_and-high p.exponent 64 a _ (omega arith) (omega (arith, p.is_power, power_pos, power_lt))
        h
      ∙ ap (λ q. a / q * q) (sym p.is_power)

  pub mask_RoundsDown :
      (a : ℕ) → a < word_mod → RoundsDown m a (and_word a (not_word (sub_word m 1)))
  mask_RoundsDown a h = record {
    multiple = rw (mask-div a h) (mul-mod_left (a / m) m);
    le = omega (arith, mask-div a h, div-add-mod' a m);
    close = omega (arith, mask-div a h, div-add-mod' a m, mod-lt a power_pos);
  }

  -- Rounding up adds the mask first; the sum must not wrap around.
  pub mask_rounds_up :
      (a : ℕ)
      → a + m ≤ word_mod
      → let r = and_word (add_word a (sub_word m 1)) (not_word (sub_word m 1)) in
        (r % m ≡ 0) × (a ≤ r) × (r < a + m)
  mask_rounds_up a h =
      let sum : add_word a (sub_word m 1) ≡ a + (m - 1) = omega (arith, power_pos, power_lt) in
      rw sum (
        let d = mask_RoundsDown (a + (m - 1)) (omega (arith, power_pos)) in
        (d.multiple, omega (arith, d.close), omega (arith, d.le, power_pos)))

pub multiple_add : (m a b : ℕ) → a % m ≡ 0 → b % m ≡ 0 → (a + b) % m ≡ 0
multiple_add m a b ha hb = ground (arith, mod-add-mod a m b)

pub multiple_sub : (m a b : ℕ) → a % m ≡ 0 → b % m ≡ 0 → (a - b) % m ≡ 0
multiple_sub m a b ha hb =
    mod-eq-zero_of_dvd m (dvd-sub m (dvd_of_mod-eq-zero m ha) (dvd_of_mod-eq-zero m hb))

pow_two_add : (d i : ℕ) → 2 ^ (d + i) ≡ 2 ^ d * 2 ^ i
pow_two_add zero i = omega (arith, ap (λ n. 2 ^ n) (zero-add i))
pow_two_add (suc d) i =
    2 ^ (suc d + i)
    ≡⟨ ap (λ n. 2 ^ n) (suc-add d i) ⟩ 2 ^ suc (d + i)
    ≡⟨ omega (arith, pow_suc (d + i), pow_two_add d i) ⟩ 2 * (2 ^ d * 2 ^ i)
    ≡⟨ omega (arith, ap (λ q. q * 2 ^ i) (pow_suc d)) ⟩ 2 ^ suc d * 2 ^ i ∎

exponent_le : {m n : ℕ} (p : IsPowerOfTwo m) (q : IsPowerOfTwo n) → m ≤ n → p.exponent ≤ q.exponent
exponent_le p q le = elim (dec_lt q.exponent p.exponent) [
  | yes lt ↦ absurd (
      omega (
        arith,
        p.is_power,
        q.is_power,
        pow_suc q.exponent,
        pow_pos q.exponent,
        pow-le-pow_right {n = 2} (omega arith) lt,
      ))
  | no ge ↦ omega arith
]

larger_power :
    {m n : ℕ} (p : IsPowerOfTwo m) (q : IsPowerOfTwo n)
    → m ≤ n
    → n ≡ 2 ^ (q.exponent - p.exponent) * m
larger_power p q le =
    q.is_power
    ∙ ap (λ e. 2 ^ e) (omega (arith, exponent_le p q le))
    ∙ pow_two_add (q.exponent - p.exponent) p.exponent
    ∙ ap (λ t. 2 ^ (q.exponent - p.exponent) * t) (sym p.is_power)

-- A multiple of the larger of two powers of two is a multiple of the smaller one.
pub multiple_of_larger :
    {m n : ℕ} → IsPowerOfTwo m → IsPowerOfTwo n → m ≤ n → (a : ℕ) → a % n ≡ 0 → a % m ≡ 0
multiple_of_larger {m} {n} p q le a h =
    let divides : m ∣ n =
      rw (larger_power p q le) (dvd-mul_left m (2 ^ (q.exponent - p.exponent))) in
    sym (mod-mod_of_dvd m a divides) ∙ ap (λ t. t % m) h ∙ zero-mod m
