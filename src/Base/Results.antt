-- ===== src/Base/Results.antt =====
-- Results of code that may throw.
use Prim.Native.Nat.{ℕ}
use mathlib.Core.Option.{Option, none, some}

-- The exceptions that the library throws, and `std::bad_alloc` of an allocator.
pub data Exception : Type 0 where
  system_error : (code : ℕ) → Exception
  length_error : Exception
  out_of_range : Exception
  bad_alloc : Exception

pub data Outcome {ℓ} (A : Type ℓ) : Type ℓ where
  returned : A → Outcome A
  thrown : Exception → Outcome A

-- A chain of loops that come to their ends.
infixl 5 ◌>>=◌
abbrev pub ◌>>=◌ {ℓ κ} : {A : Type ℓ} {B : Type κ} → Option A → (A → Option B) → Option B
none >>= f = none
some a >>= f = f a
