-- ===== src/Word/Ops.antt =====
-- The operations of a 64-bit machine word.
use Prim.Native.Nat.{bit_and}
use doost.Base.{ℕ, ◌+◌, ◌-◌, ◌*◌, ◌%◌, ◌^◌}

-- The number of values of a machine word.
abbrev pub word_mod : ℕ
word_mod = 2 ^ 64

-- a + b, a - b and a * b on a machine word.
abbrev pub add_word : ℕ → ℕ → ℕ
add_word a b = (a + b) % word_mod

abbrev pub sub_word : ℕ → ℕ → ℕ
sub_word a b = (a + word_mod - b) % word_mod

abbrev pub mul_word : ℕ → ℕ → ℕ
mul_word a b = (a * b) % word_mod

-- ~a
abbrev pub not_word : ℕ → ℕ
not_word a = word_mod - 1 - a

-- a & b
abbrev pub and_word : ℕ → ℕ → ℕ
and_word a b = bit_and a b
