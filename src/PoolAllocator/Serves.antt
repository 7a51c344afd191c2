-- ===== src/PoolAllocator/Serves.antt =====
-- What a List asks of the class of its pool, and where its nodes lie then.
use doost.Base.{
  ℕ, suc, ◌+◌, ◌%◌, ◌≤◌, ◌<◌, ◌≡◌, true, inl, inr, Bool-cases, ◌==◌, arith, List, [], ◌∷◌,
}
use doost.NodeList.Cells.{has}

-- A class of pools that hands out blocks of one size and alignment, each below the blocks before it.
-- `Ready k p` says that the pool has room for `k` more; `edge` is where its blocks begin, which is
-- never below `lowest`.
pub record Serves {Pool : Type 0} (pool_allocate : (bytes alignment : ℕ) → Pool → ℕ × Pool)
    (size_of align_of : ℕ) : Type 1 where
  pub Ready : (count : ℕ) → Pool → Type 0
  pub edge : Pool → ℕ
  pub lowest : ℕ
  pub above : (k : ℕ) (p : Pool) → Ready k p → lowest ≤ edge p
  pub serve :
      (k : ℕ) (p : Pool)
      → Ready (suc k) p
      → let (block, q) = pool_allocate size_of align_of p in
        Ready k q
        × (0 < block)
        × (block % align_of ≡ 0)
        × (edge q ≤ block)
        × (block + size_of ≤ edge p)

-- The cells are aligned and lie one behind the other, from `lo` to `hi`.
abbrev pub Spaced {ℓ} : {A : Type ℓ} → (size_of align_of lo hi : ℕ) → List (ℕ × A) → Type 0
Spaced size_of align_of lo hi [] = lo ≤ hi
Spaced size_of align_of lo hi (c ∷ cs) =
    (lo ≤ c.0) × (c.0 % align_of ≡ 0) × Spaced size_of align_of (c.0 + size_of) hi cs

pub Spaced-lower :
    {A : Type 0} (size_of align_of lo low hi : ℕ) (cs : List (ℕ × A))
    → low ≤ lo
    → Spaced size_of align_of lo hi cs
    → Spaced size_of align_of low hi cs
Spaced-lower size_of align_of lo low hi [] le spaced = omega (arith, le, spaced)
Spaced-lower size_of align_of lo low hi (c ∷ cs) le (above, aligned, rest) =
    (omega (arith, le, above), aligned, rest)

Spaced-le :
    {A : Type 0} (size_of align_of lo hi : ℕ) (cs : List (ℕ × A))
    → Spaced size_of align_of lo hi cs
    → lo ≤ hi
Spaced-le size_of align_of lo hi [] spaced = spaced
Spaced-le size_of align_of lo hi (c ∷ cs) (above, aligned, rest) =
    omega (arith, above, Spaced-le size_of align_of (c.0 + size_of) hi cs rest)

pub Spaced-inside :
    {A : Type 0} (size_of align_of lo hi b : ℕ) (cs : List (ℕ × A))
    → Spaced size_of align_of lo hi cs
    → has b cs ≡ true
    → (lo ≤ b) × (b + size_of ≤ hi) × (b % align_of ≡ 0)
Spaced-inside size_of align_of lo hi b [] spaced found = cc
Spaced-inside size_of align_of lo hi b (c ∷ cs) (above, aligned, rest) found =
    elim (Bool-cases (c.0 == b)) [
      | inl here ↦
          ground
            (arith, here, above, aligned, Spaced-le size_of align_of (c.0 + size_of) hi cs rest)
      | inr there ↦ ground (
        arith,
        above,
        Spaced-inside size_of align_of (c.0 + size_of) hi b cs rest (ground (arith, there, found)),
      )
    ]
