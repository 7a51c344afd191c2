-- ===== src/DownwardPool/Regions.antt =====
-- The mappings of a process by the address where they begin, with one that is given back.
use doost.Base.{
  ℕ, ◌≡◌, true, if◌then◌else◌, inl, inr, Bool-cases, [], ◌∷◌, arith, ◌==◌, List, none, some,
}
use doost.Posix.{Region, remove_region, size_at}

-- No two mappings begin at one address.
unfoldable pub Distinct : List Region → Type 0
Distinct [] = Unit
Distinct (r ∷ rs) = (size_at rs r.begin ≡ none) × Distinct rs

pub size_at-remove :
    (rs : List Region) (b n a : ℕ)
    → Distinct rs
    → size_at rs b ≡ some n
    → size_at (remove_region b n rs) a ≡ (if a == b then none else size_at rs a)
unfolding Distinct
size_at-remove [] b n a apart found = ground (arith, found)
size_at-remove (r ∷ rs) b n a apart found =
    ground (arith, apart, found, size_at-remove rs b n a apart.1)

pub remove-Distinct :
    (rs : List Region) (b n : ℕ)
    → Distinct rs
    → size_at rs b ≡ some n
    → Distinct (remove_region b n rs)
unfolding Distinct
remove-Distinct [] b n apart found = apart
remove-Distinct (r ∷ rs) b n apart found = elim (Bool-cases (r.begin == b)) [
  | inl here ↦
      let same : (r.bytes == n) ≡ true = ground (arith, here, found) in rw (here, same) apart.1
  | inr later ↦ rw later (
    ground (arith, apart, later, found, size_at-remove rs b n r.begin apart.1),
    remove-Distinct rs b n apart.1 (ground (arith, later, found)),
  )
]
