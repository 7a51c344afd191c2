-- ===== src/String/Ring.antt =====
-- What holds of the list of the owners of every block, between two operations on strings.
use doost.Base.{
  ℕ, zero, suc, ◌↔◌, Bool-cases, inl, inr, ◌+◌, ◌≤◌, ◌<◌, ◌≡◌, ◌≢◌, ◌%◌, true, ◌==◌, ◌&&◌, arith,
}
use doost.String.{Store, block_of, unique_bit}

-- An object that owns a block is linked both ways with its neighbours, `first` leads to the one
-- without a predecessor, and the bit of the pointer is set exactly where there are no neighbours. Heights
-- decrease along `next`, so the list has no cycle.
pub record Linked (s : Store) (height : ℕ → ℕ) (x : ℕ) : Type 0 where
  pub detached : block_of s x ≡ 0 → (s.tagged x ≡ 0) × (s.previous x ≡ 0) × (s.next x ≡ 0)
  pub owns : block_of s x ≢ 0 → s.live (block_of s x) ≡ true
  pub top : block_of s x ≢ 0 → s.previous x ≡ 0 → s.first (block_of s x) ≡ x
  pub before :
      block_of s x ≢ 0
      → s.previous x ≢ 0
      → (s.next (s.previous x) ≡ x) × (block_of s (s.previous x) ≡ block_of s x)
  pub after :
      block_of s x ≢ 0
      → s.next x ≢ 0
      → (s.previous (s.next x) ≡ x)
        × (block_of s (s.next x) ≡ block_of s x)
        × (height (s.next x) < height x)
  pub bit : block_of s x ≢ 0 → unique_bit (s.tagged x) ≡ (s.previous x == 0 && s.next x == 0)

-- A live block has an owner, and `first` is one without a predecessor.
pub record Headed (s : Store) (b : ℕ) : Type 0 where
  pub even : s.live b ≡ true → (b ≢ 0) × (b % 2 ≡ 0)
  pub owner : s.live b ≡ true → s.first b ≢ 0
  pub block : s.live b ≡ true → block_of s (s.first b) ≡ b
  pub top : s.live b ≡ true → s.previous (s.first b) ≡ 0

-- `void` is the address that is no object.
pub record Ring (s : Store) : Type 0 where
  pub height : ℕ → ℕ
  pub bound : ℕ
  pub bounded : (x : ℕ) → height x ≤ bound
  pub void : s.tagged 0 ≡ 0
  pub linked : (x : ℕ) → Linked s height x
  pub headed : (b : ℕ) → Headed s b

-- Going up from any owner of a block leads to the first one, so one without neighbours is the only one.
pub only_owner :
    {s : Store} (r : Ring s) (x y fuel : ℕ)
    → block_of s x ≢ 0
    → block_of s y ≡ block_of s x
    → s.previous x ≡ 0
    → s.next x ≡ 0
    → r.bound < r.height y + fuel
    → y ≡ x
only_owner r x y zero own same p n enough = absurd (omega (arith, r.bounded y))
only_owner {s} r x y (suc fuel) own same p n enough = elim (Bool-cases (s.previous y == 0)) [
  | inl none_before ↦ ground (arith, (r.linked x).top, (r.linked y).top)
  | inr some_before ↦
      let up =
        only_owner r x (s.previous y) fuel own (ground (arith, r.linked y, some_before)) p n
          (ground (arith, r.linked y, r.linked (s.previous y), some_before)) in
      ground (arith, up, some_before, (r.linked y).before)
]

-- Where the lists of owners are in order, the bit of an owner of a block is set exactly when it is
-- the only one.
pub unique-sole :
    {s : Store} (r : Ring s) (x : ℕ)
    → block_of s x ≢ 0
    → (unique_bit (s.tagged x) ≡ true) ↔ ((y : ℕ) → block_of s y ≡ block_of s x → y ≡ x)
unique-sole {s} r x own = (
  λ bit y same.
      only_owner r x y (r.bound + 1) own same (ground (arith, bit, (r.linked x).bit))
        (ground (arith, bit, (r.linked x).bit)) (omega arith),
  λ sole. ground (arith, r.linked x, sole (s.next x), sole (s.previous x)),
)
