-- ===== src/Blocks.antt =====
-- Blocks of memory that a pool hands out, and the requests for them.
use doost.Base.{
  ℕ, zero, suc, ◌+◌, ◌-◌, ◌%◌, ◌≤◌, ◌≡◌, ◌≢◌, ◌⊎◌, inl, inr, refl, arith, List, [], ◌∷◌, some,
  length, get_elem?, All,
}
use doost.Word.{IsPowerOfTwo}

pub record Block : Type 0 where
  pub address : ℕ
  pub bytes : ℕ

abbrev pub block : ℕ → ℕ → Block
block a n = record { address = a; bytes = n }

-- What a call of `allocate` asks for.
pub record Request : Type 0 where
  pub bytes : ℕ
  pub alignment : ℕ

abbrev pub request : ℕ → ℕ → Request
request n a = record { bytes = n; alignment = a }

abbrev pub Aligned : List Request → Type 0
Aligned = All (λ r. IsPowerOfTwo r.alignment)

-- The bytes that the requests take at most, with what rounding down may add.
unfoldable pub demand : List Request → ℕ
demand [] = 0
demand (r ∷ rs) = r.bytes + (r.alignment - 1) + demand rs

-- Each block answers its request and lies below the one before it, all of them from `lo` to `hi`.
abbrev pub Placed : (lo hi : ℕ) → List Request → List Block → Type 0
Placed lo hi [] [] = lo ≤ hi
Placed lo hi (r ∷ rs) (b ∷ bs) =
    (b.bytes ≡ r.bytes)
    × (b.address % r.alignment ≡ 0)
    × (b.address + b.bytes ≤ hi)
    × Placed lo b.address rs bs
Placed lo hi _ _ = ⊥

abbrev pub Apart : Block → Block → Type 0
Apart b c = (b.address + b.bytes ≤ c.address) ⊎ (c.address + c.bytes ≤ b.address)

-- The block at index `i` of the answers to the requests.
pub record Answers (lo hi : ℕ) (rs : List Request) (bs : List Block) : Type 0 where
  pub answered : length bs ≡ length rs
  pub inside :
      (i : ℕ) (b : Block) → get_elem? bs i ≡ some b → (lo ≤ b.address) × (b.address + b.bytes ≤ hi)
  pub suits :
      (i : ℕ) (r : Request) (b : Block)
      → get_elem? rs i ≡ some r
      → get_elem? bs i ≡ some b
      → (b.bytes ≡ r.bytes) × (b.address % r.alignment ≡ 0)
  pub disjoint :
      (i j : ℕ) (b c : Block)
      → i ≢ j
      → get_elem? bs i ≡ some b
      → get_elem? bs j ≡ some c
      → Apart b c

pub Placed-le : (lo hi : ℕ) (rs : List Request) (bs : List Block) → Placed lo hi rs bs → lo ≤ hi
Placed-le lo hi [] [] p = p
Placed-le lo hi [] (b ∷ bs) p = absurd p
Placed-le lo hi (r ∷ rs) [] p = absurd p
Placed-le lo hi (r ∷ rs) (b ∷ bs) p = omega (arith, Placed-le lo b.address rs bs p.3)

Placed-inside :
    (lo hi : ℕ) (rs : List Request) (bs : List Block)
    → Placed lo hi rs bs
    → (i : ℕ) (b : Block) → get_elem? bs i ≡ some b
    → (lo ≤ b.address) × (b.address + b.bytes ≤ hi)
Placed-inside lo hi [] [] p i b e = cc
Placed-inside lo hi [] (c ∷ bs) p i b e = absurd p
Placed-inside lo hi (r ∷ rs) [] p i b e = absurd p
Placed-inside lo hi (r ∷ rs) (c ∷ bs) p zero b e = ground (arith, Placed-le lo c.address rs bs p.3)
Placed-inside lo hi (r ∷ rs) (c ∷ bs) p (suc i) b e =
    let below = Placed-inside lo c.address rs bs p.3 i b e in (below.0, omega arith)

Placed-suits :
    (lo hi : ℕ) (rs : List Request) (bs : List Block)
    → Placed lo hi rs bs
    → (i : ℕ) (r : Request) (b : Block) → get_elem? rs i ≡ some r
    → get_elem? bs i ≡ some b
    → (b.bytes ≡ r.bytes) × (b.address % r.alignment ≡ 0)
Placed-suits lo hi [] [] p i r b d e = cc
Placed-suits lo hi [] (c ∷ bs) p i r b d e = absurd p
Placed-suits lo hi (q ∷ rs) [] p i r b d e = absurd p
Placed-suits lo hi (q ∷ rs) (c ∷ bs) p zero r b d e = ground arith
Placed-suits lo hi (q ∷ rs) (c ∷ bs) p (suc i) r b d e =
    Placed-suits lo c.address rs bs p.3 i r b d e

Placed-disjoint :
    (lo hi : ℕ) (rs : List Request) (bs : List Block)
    → Placed lo hi rs bs
    → (i j : ℕ) (b c : Block) → i ≢ j
    → get_elem? bs i ≡ some b
    → get_elem? bs j ≡ some c
    → Apart b c
Placed-disjoint lo hi [] [] p i j b c ne d e = cc
Placed-disjoint lo hi [] (a ∷ bs) p i j b c ne d e = absurd p
Placed-disjoint lo hi (r ∷ rs) [] p i j b c ne d e = absurd p
Placed-disjoint lo hi (r ∷ rs) (a ∷ bs) p zero zero b c ne d e = absurd (ne refl)
Placed-disjoint lo hi (r ∷ rs) (a ∷ bs) p zero (suc j) b c ne d e =
    let below = Placed-inside lo a.address rs bs p.3 j c e in inr (ground arith)
Placed-disjoint lo hi (r ∷ rs) (a ∷ bs) p (suc i) zero b c ne d e =
    let below = Placed-inside lo a.address rs bs p.3 i b d in inl (ground arith)
Placed-disjoint lo hi (r ∷ rs) (a ∷ bs) p (suc i) (suc j) b c ne d e =
    Placed-disjoint lo a.address rs bs p.3 i j b c (λ q. ne (omega arith)) d e

Placed-length :
    (lo hi : ℕ) (rs : List Request) (bs : List Block) → Placed lo hi rs bs → length bs ≡ length rs
Placed-length lo hi [] [] p = refl
Placed-length lo hi [] (c ∷ bs) p = absurd p
Placed-length lo hi (r ∷ rs) [] p = absurd p
Placed-length lo hi (r ∷ rs) (c ∷ bs) p = omega (arith, Placed-length lo c.address rs bs p.3)

pub Placed-Answers :
    {lo hi : ℕ} (rs : List Request) (bs : List Block) → Placed lo hi rs bs → Answers lo hi rs bs
Placed-Answers {lo} {hi} rs bs p = record {
  answered = Placed-length lo hi rs bs p;
  inside = Placed-inside lo hi rs bs p;
  suits = Placed-suits lo hi rs bs p;
  disjoint = Placed-disjoint lo hi rs bs p;
}
