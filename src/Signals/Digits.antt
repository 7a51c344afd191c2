-- ===== src/Signals/Digits.antt =====
-- write_size prints the decimal digits of its value.
use doost.Base.{
  ℕ, zero, suc, ◌+◌, ◌-◌, ◌*◌, ◌/◌, ◌%◌, ◌^◌, ◌<◌, ◌≡◌, refl, ap, ◌∙◌, arith, inl, inr, false, List,
  [], ◌∷◌, some, Bool-cases, ◌==◌,
}
use native.Mathlib.Nat.{pow-suc}
use doost.Signals.{write_digits, write_size, buffer_size}
use doost.Word.{word_mod}

-- Reading decimal digits, the first first, behind a number already read.
unfoldable pub parse_digits : ℕ → List ℕ → ℕ
parse_digits acc [] = acc
parse_digits acc (d ∷ ds) = parse_digits (acc * 10 + (d - 48)) ds

room_pos : (room value : ℕ) → value < 10 ^ suc room → (value / 10 == 0) ≡ false → 0 < room
room_pos zero value lt more = absurd (ground arith)
room_pos (suc room) value lt more = omega arith

-- Printing puts digits in front that read as the value.
write_digits-parse :
    (room value : ℕ) (written : List ℕ)
    → value < 10 ^ room
    → 0 < room
    → (ds : List ℕ) × (write_digits room value written ≡ some ds)
      × (parse_digits 0 ds ≡ parse_digits value written)
unfolding write_digits parse_digits
write_digits-parse zero value written lt pos = absurd (omega arith)
write_digits-parse (suc room) value written lt pos = elim (Bool-cases (value / 10 == 0)) [
  | inl last ↦
      ((48 + value % 10) ∷ written, rw last refl, ap (λ x. parse_digits x written) (ground arith))
  | inr more ↦
      let (ds, e, p) =
        write_digits-parse room (value / 10) ((48 + value % 10) ∷ written)
          (omega (arith, pow-suc 10 room)) (room_pos room value lt more) in
      (ds, rw more e, p ∙ ap (λ x. parse_digits x written) (omega arith))
]

pub write_size-parse :
    (value : ℕ)
    → value < word_mod
    → (ds : List ℕ) × (write_size value ≡ some ds) × (parse_digits 0 ds ≡ value)
unfolding write_size parse_digits
write_size-parse value lt = write_digits-parse buffer_size value [] (omega arith) (omega arith)
