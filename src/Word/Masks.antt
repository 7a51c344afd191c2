-- ===== src/Word/Masks.antt =====
-- The mask that clears the low bits of a word: `a & ~(2 ^ k - 1)`.
use Prim.Native.Nat.{min, bit_and, digits, bit_and-bitwise}
use doost.Base.{ℕ, zero, suc, ◌-◌, ◌*◌, ◌/◌, ◌^◌, ◌≤◌, ◌<◌, ◌≡◌, sym, ap, ◌∙◌, arith}
use native.Mathlib.Nat.{pow-suc, div-div-eq-div-mul, zero-div}
use mathlib.Core.Path.{◌≡⟨◌⟩◌, ◌∎}

pub pow_suc : (k : ℕ) → 2 ^ suc k ≡ 2 * 2 ^ k
pow_suc k = omega (arith, pow-suc 2 k)

pub pow_pos : (k : ℕ) → 0 < 2 ^ k
pow_pos zero = omega arith
pow_pos (suc k) = omega (arith, pow_suc k, pow_pos k)

-- Dividing by the next power of two halves first.
halve_first : (k a : ℕ) → a / 2 / 2 ^ k * 2 ^ k * 2 ≡ a / 2 ^ suc k * 2 ^ suc k
halve_first k a =
    a / 2 / 2 ^ k * 2 ^ k * 2
    ≡⟨ ap (λ q. q * 2 ^ k * 2) (div-div-eq-div-mul a 2 (2 ^ k)) ⟩ a / (2 * 2 ^ k) * 2 ^ k * 2
    ≡⟨ ap (λ q. a / q * 2 ^ k * 2) (sym (pow_suc k)) ⟩ a / 2 ^ suc k * 2 ^ k * 2
    ≡⟨ omega (arith, ap (λ q. a / 2 ^ suc k * q) (pow_suc k)) ⟩ a / 2 ^ suc k * 2 ^ suc k ∎

-- The digit loop of `bit_and` against a mask with bits `k` to `w - 1` set.
mask_loop :
    (rounds k w a m : ℕ)
    → a ≤ rounds
    → k ≤ w
    → m ≡ 2 ^ w - 2 ^ k
    → a < 2 ^ w
    → digits (λ _. 0) min rounds a m ≡ a / 2 ^ k * 2 ^ k
mask_loop zero k w zero m enough le e lt = omega (arith, ap (λ q. q * 2 ^ k) (zero-div (2 ^ k)))
mask_loop zero k w (suc a) m enough le e lt = absurd (omega arith)
mask_loop (suc rounds) k w zero m enough le e lt =
    omega (arith, ap (λ q. q * 2 ^ k) (zero-div (2 ^ k)))
mask_loop (suc rounds) zero zero (suc a) m enough le e lt = absurd (omega arith)
mask_loop (suc rounds) (suc k) zero (suc a) m enough le e lt = absurd (omega arith)
mask_loop (suc rounds) zero (suc w) (suc a) m enough le e lt = omega (
  arith,
  pow_suc w,
  pow_pos w,
  mask_loop rounds zero w (suc a / 2) (m / 2) (omega arith) (omega arith)
      (omega (arith, pow_suc w, pow_pos w)) (omega (arith, pow_suc w)),
)
mask_loop (suc rounds) (suc k) (suc w) (suc a) m enough le e lt =
    omega (
      arith,
      pow_suc w,
      pow_suc k,
      mask_loop rounds k w (suc a / 2) (m / 2) (omega arith) (omega arith)
          (omega (arith, pow_suc w, pow_suc k)) (omega (arith, pow_suc w)),
    )
    ∙ halve_first k (suc a)

-- A mask whose low `k` bits are clear rounds down to a multiple of `2 ^ k`.
pub bit_and-high :
    (k w a m : ℕ) → k ≤ w → m ≡ 2 ^ w - 2 ^ k → a < 2 ^ w → bit_and a m ≡ a / 2 ^ k * 2 ^ k
bit_and-high k w a m le e lt = bit_and-bitwise a m ∙ mask_loop a k w a m (omega arith) le e lt
