-- ===== src/Posix/Defs.antt =====
-- The system calls of the pools, and their documented behaviour.
use doost.Base.{
  ℕ, ◌+◌, ◌%◌, ◌<◌, ◌≡◌, Bool, true, false, ◌&&◌, Option, none, some, List, [], ◌∷◌, ltb, leb, ◌==◌,
  if◌then◌else◌, ℤ, pos,
}
use doost.Word.{word_mod, IsPowerOfTwo}

-- The null pointer. Addresses are words.
abbrev pub null : ℕ
null = 0

-- A mapping of `bytes` bytes from the address `begin`.
pub record Region : Type 0 where
  pub begin : ℕ
  pub bytes : ℕ

abbrev pub region : ℕ → ℕ → Region
region b n = record { begin = b; bytes = n }

-- Whether `a` is one of the `n` addresses from `b`.
abbrev pub in_range : ℕ → ℕ → ℕ → Bool
in_range b n a = leb b a && ltb a (b + n)

-- Drops the first mapping with this begin and size.
abbrev pub remove_region : ℕ → ℕ → List Region → List Region
remove_region b n [] = []
remove_region b n (r ∷ rs) = if r.begin == b && r.bytes == n then rs else r ∷ remove_region b n rs

-- The size of the first mapping that begins at an address.
abbrev pub size_at : List Region → ℕ → Option ℕ
size_at [] b = none
size_at (r ∷ rs) b = if r.begin == b then some r.bytes else size_at rs b

-- PROT_NONE, or PROT_READ | PROT_WRITE.
pub data Protection : Type 0 where
  prot_none : Protection
  prot_read_write : Protection

-- What mmap gives: an address, or MAP_FAILED with errno.
pub data MmapResult : Type 0 where
  mapped : ℕ → MmapResult
  map_failed : (errno : ℕ) → MmapResult

-- `sysconf(_SC_PAGESIZE)` gives a `long` and errno, which the caller has set to 0. `mmap` is the
-- anonymous private mapping of the given size at an address of the system's choice. `mprotect` gives
-- errno where it fails.
pub record Posix : Type 1 where
  pub State : Type 0
  pub sysconf_page_size : State → ℤ × ℕ
  pub mmap : (bytes : ℕ) → Protection → State → MmapResult × State
  pub mprotect : (begin bytes : ℕ) → Protection → State → Option ℕ × State
  pub munmap : (begin bytes : ℕ) → State → State
  -- the mappings of the process, and the addresses that it may read and write
  pub regions : State → List Region
  pub accessible : State → ℕ → Bool

abbrev pub protection_allows : Protection → Bool
protection_allows prot_none = false
protection_allows prot_read_write = true

module _ (os : Posix) where
  open os use {State, sysconf_page_size, mmap, mprotect, munmap, regions, accessible}

  pub record PosixLaws : Type 0 where
    pub page : ℕ
    pub page_power : IsPowerOfTwo page
    -- where sysconf succeeds, it gives the page size
    pub sysconf_page : (s : State) (v : ℕ) → (sysconf_page_size s).0 ≡ pos v → 0 < v → v ≡ page
    -- a new mapping lies at a page boundary inside the address space and is protected as asked
    pub mmap_address :
        (n : ℕ) (p : Protection) (s : State) (b : ℕ)
        → (mmap n p s).0 ≡ mapped b
        → (b % page ≡ 0) × (0 < b) × (b + n < word_mod)
    -- where no other mapping begins
    pub mmap_apart :
        (n : ℕ) (p : Protection) (s : State) (b : ℕ)
        → (mmap n p s).0 ≡ mapped b
        → size_at (regions s) b ≡ none
    pub mmap_regions :
        (n : ℕ) (p : Protection) (s : State) (b : ℕ)
        → (mmap n p s).0 ≡ mapped b
        → regions (mmap n p s).1 ≡ region b n ∷ regions s
    pub mmap_accessible :
        (n : ℕ) (p : Protection) (s : State) (b a : ℕ)
        → (mmap n p s).0 ≡ mapped b
        → accessible (mmap n p s).1 a
          ≡ (if in_range b n a then protection_allows p else accessible s a)
    pub mmap_failure :
        (n : ℕ) (p : Protection) (s : State) (e : ℕ)
        → (mmap n p s).0 ≡ map_failed e
        → regions (mmap n p s).1 ≡ regions s
    -- mprotect changes no mapping; where it succeeds it sets the protection of the range
    pub mprotect_regions :
        (b n : ℕ) (p : Protection) (s : State) → regions (mprotect b n p s).1 ≡ regions s
    pub mprotect_accessible :
        (b n : ℕ) (p : Protection) (s : State) (a : ℕ)
        → (mprotect b n p s).0 ≡ none
        → accessible (mprotect b n p s).1 a
          ≡ (if in_range b n a then protection_allows p else accessible s a)
    -- munmap of a whole mapping removes it
    pub munmap_regions :
        (b n : ℕ) (s : State) → regions (munmap b n s) ≡ remove_region b n (regions s)
    pub munmap_accessible :
        (b n : ℕ) (s : State) (a : ℕ)
        → accessible (munmap b n s) a ≡ (if in_range b n a then false else accessible s a)
