-- ===== src/Base/Int.antt =====
-- Signed integers as values: what `long` and `int` results stand for.
use Prim.Native.Nat.{ℕ}

-- `negsuc n` is -(n + 1).
pub data ℤ : Type 0 where
  pos : ℕ → ℤ
  negsuc : ℕ → ℤ
