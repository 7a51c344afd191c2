-- ===== src/Storage/Make.antt =====
-- Making and giving back the storage of a pool.
use doost.Base.{
  ℕ, zero, suc, ◌+◌, ◌-◌, ◌%◌, ◌≤◌, ◌<◌, ◌≡◌, refl, sym, ap, ◌∙◌, subst, true, false, inl, inr,
  arith, if◌then◌else◌, ltb, ℤ, pos, negsuc, Outcome, returned, thrown, Option, none, some, ◌∷◌,
  Bool-cases,
}
use doost.Word.{
  word_mod, add_word, sub_word, IsPowerOfTwo, power_pos, power_lt, mask_rounds_up, mask_RoundsDown,
  multiple_lt,
}
use doost.Posix.{
  Posix, PosixLaws, region, in_range, remove_region, size_at, prot_none, prot_read_write,
  MmapResult, mapped, map_failed,
}
use doost.Registry.{register_pool_guard}
use doost.Storage.{
  Storage, round_up, Process, page_size_of, protected, map_guarded, make_with_page_size,
  make_after_page_size, make_downward_pool_storage,
}

-- `r` is the least multiple of `m` that is at least `a`.
pub record RoundsUp (m a r : ℕ) : Type 0 where
  pub multiple : r % m ≡ 0
  pub ge : a ≤ r
  pub close : r < a + m

-- Rounding up by a mask, where the sum does not wrap around.
pub round_up-RoundsUp :
    {m : ℕ} → IsPowerOfTwo m → (a : ℕ) → a + m ≤ word_mod → RoundsUp m a (round_up a m)
unfolding round_up
round_up-RoundsUp p a h =
    let (multiple, ge, close) = mask_rounds_up p a h in
    record { multiple = multiple; ge = ge; close = close }

-- Rounding up a size in the last page of the address space gives 0.
pub round_up-wraps :
    {m : ℕ} → IsPowerOfTwo m → (a : ℕ) → a < word_mod → word_mod < a + m → round_up a m ≡ 0
unfolding round_up
round_up-wraps {m} p a lt h =
    let mask : sub_word m 1 ≡ m - 1 = omega (arith, power_pos p, power_lt p) in
    let sum : add_word a (sub_word m 1) ≡ a + m - 1 - word_mod =
      omega (arith, mask, power_pos p, power_lt p) in
    let d = mask_RoundsDown p (a + m - 1 - word_mod) (omega (arith, power_lt p)) in
    rw sum (multiple_lt m _ d.multiple (omega (arith, d.le, power_lt p)))

module _ (os : Posix) (laws : PosixLaws os) where
  open os use {State, sysconf_page_size, mmap, mprotect, munmap, regions, accessible}
  open laws use {
    page, page_power, sysconf_page, mmap_address, mmap_apart, mmap_regions, mmap_accessible,
    mmap_failure, mprotect_regions, mprotect_accessible, munmap_regions,
  }

  -- The storage `st` made from the process `p`, which is `q` afterwards.
  pub record LaidOut (usable max_alloc : ℕ) (p : Process os) (st : Storage) (q : Process os)
      : Type 0 where
    pub guard : ℕ
    pub guard_rounds : RoundsUp page max_alloc guard
    pub usable_rounds : RoundsUp page usable (st.mapping_bytes - guard)
    pub guard_le : guard ≤ st.mapping_bytes
    pub begin_pos : 0 < st.mapping_begin
    pub begin_page : st.mapping_begin % page ≡ 0
    pub in_space : st.mapping_begin + st.mapping_bytes < word_mod
    pub fresh : size_at (regions p.system) st.mapping_begin ≡ none
    pub owns : regions q.system ≡ region st.mapping_begin st.mapping_bytes ∷ regions p.system
    pub access :
        (a : ℕ)
        → accessible q.system a ≡ (
            if in_range st.mapping_begin guard a
            then false
            else if in_range st.mapping_begin st.mapping_bytes a
            then true
            else accessible p.system a)
    pub registers :
        q.registry ≡ register_pool_guard st.mapping_begin (st.mapping_begin + guard) p.registry

  -- The two outcomes: the storage is laid out, or an exception leaves nothing mapped or registered.
  abbrev pub Made : (usable max_alloc : ℕ) → Process os → Outcome Storage × Process os → Type 0
  Made usable max_alloc p (returned st, q) = LaidOut usable max_alloc p st q
  Made usable max_alloc p (thrown e, q) =
      (regions q.system ≡ regions p.system) × (q.registry ≡ p.registry)

  module _ (usable max_alloc : ℕ) (p : Process os) {n guard : ℕ}
      (guard_rounds : RoundsUp page max_alloc guard)
      (usable_rounds : RoundsUp page usable (n - guard)) (fits : guard ≤ n) where
    -- The state after mmap has given the address `b`.
    record Mapped (b : ℕ) (s : State) : Type 0 where
      address : (b % page ≡ 0) × (0 < b) × (b + n < word_mod)
      apart : size_at (regions p.system) b ≡ none
      owned : regions s ≡ region b n ∷ regions p.system
      opened : (a : ℕ) → accessible s a ≡ (if in_range b n a then true else accessible p.system a)

    protected-Made :
        (b : ℕ) (s : State) (r : Option ℕ × State)
        → Mapped b s
        → mprotect b guard prot_none s ≡ r
        → Made usable max_alloc p (protected os b n guard p.registry r)
    unfolding protected
    protected-Made b s (some error, t) m e = (
      munmap_regions b n t
          ∙ ap (remove_region b n)
              (ap (λ r. regions r.1) (sym e) ∙ mprotect_regions b guard prot_none s ∙ m.owned)
          ∙ ground arith,
      refl,
    )
    protected-Made b s (none, t) m e = record {
      guard = guard;
      guard_rounds = guard_rounds;
      usable_rounds = usable_rounds;
      guard_le = fits;
      begin_pos = m.address.1;
      begin_page = m.address.0;
      in_space = m.address.2;
      fresh = m.apart;
      owns = ap (λ r. regions r.1) (sym e) ∙ mprotect_regions b guard prot_none s ∙ m.owned;
      access = λ a.
          ap (λ r. accessible r.1 a) (sym e)
          ∙ mprotect_accessible b guard prot_none s a (ap (λ r. r.0) e)
          ∙ rw (m.opened a);
      registers = ap (λ g. register_pool_guard b g p.registry) (omega (arith, m.address.2));
    }

    map_guarded-Made :
        (r : MmapResult × State)
        → mmap n prot_read_write p.system ≡ r
        → Made usable max_alloc p (map_guarded os n guard p.registry r)
    unfolding map_guarded
    map_guarded-Made (map_failed error, s) e = (
      ap (λ r. regions r.1) (sym e)
          ∙ mmap_failure n prot_read_write p.system error (ap (λ r. r.0) e),
      refl,
    )
    map_guarded-Made (mapped b, s) e =
        let ok = ap (λ r. r.0) e in
        protected-Made b s (mprotect b guard prot_none s)
          (record {
            address = mmap_address n prot_read_write p.system b ok;
            apart = mmap_apart n prot_read_write p.system b ok;
            owned = ap (λ r. regions r.1) (sym e) ∙ mmap_regions n prot_read_write p.system b ok;
            opened = λ a.
                ap (λ r. accessible r.1 a) (sym e)
                ∙ mmap_accessible n prot_read_write p.system b a ok;
          })
          refl

  module _ (usable max_alloc : ℕ) (p : Process os) (usable_small : usable + page ≤ word_mod)
      (max_alloc_small : max_alloc + page ≤ word_mod) where
    with_page_size-Made : Made usable max_alloc p (make_with_page_size os usable max_alloc page p)
    unfolding make_with_page_size
    with_page_size-Made =
        let up = round_up-RoundsUp page_power usable usable_small in
        let guard_up = round_up-RoundsUp page_power max_alloc max_alloc_small in
        let guard = round_up max_alloc page in
        let rounded = round_up usable page in
        elim (Bool-cases (ltb (word_mod - 1 - guard) rounded)) [
          | inl over ↦ rw over (refl, refl)
          | inr fits ↦ rw fits (
              map_guarded-Made usable max_alloc p guard_up
                (subst (RoundsUp page usable) (omega arith) up) (omega arith) _ refl)
        ]

    after_page_size-Made :
        (r : Outcome ℕ)
        → ((v : ℕ) → r ≡ returned v → v ≡ page)
        → Made usable max_alloc p (make_after_page_size os usable max_alloc r p)
    unfolding make_after_page_size
    after_page_size-Made (thrown e) h = (refl, refl)
    after_page_size-Made (returned v) h = rw (h v refl) with_page_size-Made

    page_size_of-page :
        (z : ℤ) (errno v : ℕ)
        → ((w : ℕ) → z ≡ pos w → 0 < w → w ≡ page)
        → page_size_of os z errno ≡ returned v
        → v ≡ page
    unfolding page_size_of
    page_size_of-page (pos zero) errno v h e = cc
    page_size_of-page (pos (suc w)) errno v h e = ground (arith, h (suc w) refl)
    page_size_of-page (negsuc w) errno v h e = cc

    -- Of sizes to which a page can be added below 2 ^ 64, making a storage either lays it out (whole pages, guard pages at the low end that no access
    -- reaches, everything above them accessible, the guard range registered), or throws, and then
    -- no mapping and no registration is left behind.
    pub make-Made : Made usable max_alloc p (make_downward_pool_storage os usable max_alloc p)
    unfolding make_downward_pool_storage
    make-Made = after_page_size-Made _ λ v e. page_size_of-page _ _ v (sysconf_page p.system) e
