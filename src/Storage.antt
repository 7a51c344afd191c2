-- ===== src/Storage.antt =====
-- src/downward_pool_storage.cpp and include/doost/detail/downward_pool_storage.hpp: the mapping
-- below which a pool grows, with guard pages at its low end. The build has mmap's anonymous mappings
-- and DOOST_ENABLE_SIGSEGV_HANDLER.
pub mod Make
use doost.Base.{
  ℕ, zero, suc, ◌+◌, ◌-◌, ◌<◌, ◌||◌, if◌then◌else◌, ltb, leb, ◌==◌, ℤ, pos, negsuc, Outcome,
  returned, thrown, Exception, system_error, length_error, Option, none, some,
}
use doost.Word.{word_mod, add_word, sub_word, and_word, not_word}
use doost.Posix.{
  Posix, null, Protection, prot_none, prot_read_write, MmapResult, mapped, map_failed,
}
use doost.Registry.{Registry, register_pool_guard, unregister_pool_guard}

-- DownwardPoolStorage; `no_storage` is its initial value.
pub record Storage : Type 0 where
  pub mapping_begin : ℕ
  pub mapping_bytes : ℕ

abbrev pub storage : ℕ → ℕ → Storage
storage b n = record { mapping_begin = b; mapping_bytes = n }

abbrev pub no_storage : Storage
no_storage = storage null 0

-- EINVAL
abbrev pub einval : ℕ
einval = 22

unfoldable pub round_up : (value multiple : ℕ) → ℕ
round_up value multiple =
    let mask = sub_word multiple 1 in and_word (add_word value mask) (not_word mask)

unfoldable pub downward_pool_mapping_end : Storage → ℕ
downward_pool_mapping_end s =
    if s.mapping_begin == null then null else add_word s.mapping_begin s.mapping_bytes

unfoldable pub align_downward_pool_cursor : (current bytes alignment : ℕ) → ℕ
align_downward_pool_cursor current bytes alignment =
    let raw = sub_word current bytes in and_word raw (not_word (sub_word alignment 1))

unfoldable pub downward_pool_used_bytes : (cursor : ℕ) → Storage → ℕ
unfolding downward_pool_mapping_end
downward_pool_used_bytes cursor s =
    let upper = downward_pool_mapping_end s in
    if cursor == 0 || (upper == 0 || leb upper cursor) then 0 else upper - cursor

module _ (os : Posix) where
  open os use {State, sysconf_page_size, mmap, mprotect, munmap}

  -- What the pools of a process share: the system and the registry of guard ranges.
  pub record Process : Type 0 where
    pub system : State
    pub registry : Registry

  -- `system_page_size` throws where sysconf answers at most 0.
  page_size_of : ℤ → (errno : ℕ) → Outcome ℕ
  page_size_of (pos (suc v)) errno = returned (suc v)
  page_size_of _ errno = thrown (system_error (if errno == 0 then einval else errno))

  unfoldable pub system_page_size : State → Outcome ℕ
  unfolding page_size_of
  system_page_size s = let (value, errno) = sysconf_page_size s in page_size_of value errno

  positive_part : ℤ → ℕ
  positive_part (pos v) = v
  positive_part (negsuc v) = 0

  unfoldable pub system_page_size_noexcept : State → ℕ
  unfolding positive_part
  system_page_size_noexcept s = positive_part (sysconf_page_size s).0

  -- After mprotect: on failure the mapping is given back.
  protected : (b n guard : ℕ) → Registry → Option ℕ × State → Outcome Storage × Process
  protected b n guard registry (some error, s) =
      (thrown (system_error error), record { system = munmap b n s; registry = registry })
  protected b n guard registry (none, s) = (
    returned (storage b n),
    record { system = s; registry = register_pool_guard b (add_word b guard) registry },
  )

  -- After mmap.
  map_guarded : (n guard : ℕ) → Registry → MmapResult × State → Outcome Storage × Process
  unfolding protected
  map_guarded n guard registry (map_failed errno, s) =
      (thrown (system_error errno), record { system = s; registry = registry })
  map_guarded n guard registry (mapped b, s) =
      protected b n guard registry (mprotect b guard prot_none s)

  -- After the page size is known.
  make_with_page_size :
      (usable_bytes max_alloc_size page_size : ℕ) → Process → Outcome Storage × Process
  unfolding map_guarded round_up
  make_with_page_size usable max_alloc page_size p =
      let rounded = round_up usable page_size in
      let guard = round_up max_alloc page_size in
      if ltb (word_mod - 1 - guard) rounded
      then (thrown length_error, p)
      else map_guarded (rounded + guard) guard p.registry
          (mmap (rounded + guard) prot_read_write p.system)

  make_after_page_size :
      (usable_bytes max_alloc_size : ℕ) → Outcome ℕ → Process → Outcome Storage × Process
  unfolding make_with_page_size
  make_after_page_size usable max_alloc (thrown e) p = (thrown e, p)
  make_after_page_size usable max_alloc (returned page_size) p =
      make_with_page_size usable max_alloc page_size p

  unfoldable pub make_downward_pool_storage :
      (usable_bytes max_alloc_size : ℕ) → Process → Outcome Storage × Process
  unfolding make_after_page_size system_page_size
  make_downward_pool_storage usable max_alloc p =
      make_after_page_size usable max_alloc (system_page_size p.system) p

  unfoldable pub downward_pool_usable_bytes : State → Storage → ℕ
  unfolding system_page_size_noexcept
  downward_pool_usable_bytes system s =
      if s.mapping_bytes == 0
      then 0
      else let guard = system_page_size_noexcept system in
        if guard == 0 || leb s.mapping_bytes guard then 0 else s.mapping_bytes - guard

  -- The storage is left in its initial state.
  unfoldable pub release_downward_pool_storage : Storage → Process → Storage × Process
  release_downward_pool_storage s p = (
    no_storage,
    record {
      system =
          if s.mapping_begin == null
          then p.system
          else munmap s.mapping_begin s.mapping_bytes p.system;
      registry = unregister_pool_guard s.mapping_begin p.registry;
    },
  )
