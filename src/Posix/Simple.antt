-- ===== src/Posix/Simple.antt =====
-- A small system that meets the laws: a mapping takes the next slot of 2 ^ 32 bytes.
use doost.Base.{
  ℕ, ◌+◌, ◌*◌, ◌%◌, ◌^◌, ◌<◌, ◌≡◌, refl, Bool, true, false, ◌&&◌, Option, none, some, List, [], ◌∷◌,
  arith, ltb, if◌then◌else◌, pos,
}
use doost.Posix.Defs.{
  Region, region, in_range, remove_region, size_at, Protection, protection_allows, MmapResult,
  mapped, map_failed, Posix, PosixLaws,
}

pub record SimpleState : Type 0 where
  pub slots : ℕ
  pub regions : List Region
  pub accessible : ℕ → Bool

abbrev pub vacant : Option ℕ → Bool
vacant none = true
vacant (some n) = false

abbrev pub simple_mmap : ℕ → Protection → SimpleState → MmapResult × SimpleState
simple_mmap n p s =
    if ltb s.slots 1000 && (ltb n (2 ^ 32) && vacant (size_at s.regions ((s.slots + 1) * 2 ^ 32)))
    then (
      mapped ((s.slots + 1) * 2 ^ 32),
      record {
        slots = s.slots + 1;
        regions = region ((s.slots + 1) * 2 ^ 32) n ∷ s.regions;
        accessible = λ a.
            if in_range ((s.slots + 1) * 2 ^ 32) n a then protection_allows p else s.accessible a;
      },
    )
    else (map_failed 12, s)

abbrev pub simple_posix : Posix
simple_posix = record {
  State = SimpleState;
  sysconf_page_size = λ s. (pos 4096, 0);
  mmap = simple_mmap;
  mprotect = λ b n p s. (
    none,
    record s { accessible = λ a. if in_range b n a then protection_allows p else s.accessible a },
  );
  munmap = λ b n s. record s {
    regions = remove_region b n s.regions;
    accessible = λ a. if in_range b n a then false else s.accessible a;
  };
  regions = λ s. s.regions;
  accessible = λ s. s.accessible;
}

pub simple_mmap_address :
    (n : ℕ) (p : Protection) (s : SimpleState) (b : ℕ)
    → (simple_mmap n p s).0 ≡ mapped b
    → (b % 4096 ≡ 0) × (0 < b) × (b + n < 2 ^ 64)
simple_mmap_address n p s b h = ground arith

vacant-none : (o : Option ℕ) → vacant o ≡ true → o ≡ none
vacant-none none e = refl
vacant-none (some n) e = ground (arith, e)

pub simple_mmap_apart :
    (n : ℕ) (p : Protection) (s : SimpleState) (b : ℕ)
    → (simple_mmap n p s).0 ≡ mapped b
    → size_at s.regions b ≡ none
simple_mmap_apart n p s b h =
    ground (arith, h, vacant-none (size_at s.regions ((s.slots + 1) * 2 ^ 32)))

pub simple_mmap_regions :
    (n : ℕ) (p : Protection) (s : SimpleState) (b : ℕ)
    → (simple_mmap n p s).0 ≡ mapped b
    → (simple_mmap n p s).1.regions ≡ region b n ∷ s.regions
simple_mmap_regions n p s b h = ground arith

pub simple_mmap_accessible :
    (n : ℕ) (p : Protection) (s : SimpleState) (b a : ℕ)
    → (simple_mmap n p s).0 ≡ mapped b
    → (simple_mmap n p s).1.accessible a
      ≡ (if in_range b n a then protection_allows p else s.accessible a)
simple_mmap_accessible n p s b a h = ground arith

pub simple_mmap_failure :
    (n : ℕ) (p : Protection) (s : SimpleState) (e : ℕ)
    → (simple_mmap n p s).0 ≡ map_failed e
    → (simple_mmap n p s).1.regions ≡ s.regions
simple_mmap_failure n p s e h = ground arith

pub simple_sysconf : (v : ℕ) → pos 4096 ≡ pos v → 0 < v → v ≡ 4096
simple_sysconf v h lt = ground arith

abbrev pub simple_laws : PosixLaws simple_posix
simple_laws = record {
  page = 4096;
  page_power = record { exponent = 12; exponent_lt = omega arith; is_power = refl };
  sysconf_page = λ s v h lt. simple_sysconf v h lt;
  mmap_address = simple_mmap_address;
  mmap_apart = simple_mmap_apart;
  mmap_regions = simple_mmap_regions;
  mmap_accessible = simple_mmap_accessible;
  mmap_failure = simple_mmap_failure;
  mprotect_regions = λ b n p s. refl;
  mprotect_accessible = λ b n p s a h. refl;
  munmap_regions = λ b n s. refl;
  munmap_accessible = λ b n s a. refl;
}

-- A process that has mapped nothing.
abbrev pub simple_start : SimpleState
simple_start = record { slots = 0; regions = []; accessible = λ a. false }
