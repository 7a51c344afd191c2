-- ===== src/DownwardPool/Room.antt =====
-- The shape of a pool: guard pages, then free bytes up to the cursor, then blocks.
use doost.Base.{ℕ, ◌+◌, ◌-◌, ◌%◌, ◌≤◌, ◌<◌, ◌≡◌, arith}
use doost.Word.{word_mod, sub_word, IsPowerOfTwo, RoundsDown, mask_RoundsDown}
use doost.Storage.{
  Storage, downward_pool_mapping_end, align_downward_pool_cursor, downward_pool_used_bytes,
}

-- A storage whose lowest `guard` bytes are guard pages.
pub record IsLaid (page guard : ℕ) (s : Storage) : Type 0 where
  pub begin_pos : 0 < s.mapping_begin
  pub begin_page : s.mapping_begin % page ≡ 0
  pub guard_page : guard % page ≡ 0
  pub guard_le : guard ≤ s.mapping_bytes
  pub in_space : s.mapping_begin + s.mapping_bytes < word_mod

-- Where the guard pages end, the lowest address that a block may have.
abbrev pub floor : ℕ → Storage → ℕ
floor guard s = s.mapping_begin + guard

abbrev pub ceiling : Storage → ℕ
ceiling s = s.mapping_begin + s.mapping_bytes

pub mapping_end_laid :
    {page guard : ℕ} {s : Storage} → IsLaid page guard s → downward_pool_mapping_end s ≡ ceiling s
unfolding downward_pool_mapping_end
mapping_end_laid l = ground arith

-- The cursor goes down to the greatest multiple of the alignment that leaves room for the block.
pub align_cursor-RoundsDown :
    {alignment : ℕ} (current bytes : ℕ)
    → IsPowerOfTwo alignment
    → bytes ≤ current
    → current < word_mod
    → RoundsDown alignment (current - bytes) (align_downward_pool_cursor current bytes alignment)
unfolding align_downward_pool_cursor
align_cursor-RoundsDown {alignment} current bytes p le lt =
    let raw : sub_word current bytes ≡ current - bytes = omega arith in
    rw raw (mask_RoundsDown p (current - bytes) (omega arith))

-- The bytes in use are those between the cursor and the end of the mapping.
pub used_bytes_laid :
    {page guard : ℕ} {s : Storage} (c : ℕ)
    → IsLaid page guard s
    → s.mapping_begin ≤ c
    → c ≤ ceiling s
    → downward_pool_used_bytes c s ≡ ceiling s - c
unfolding downward_pool_used_bytes
used_bytes_laid {s} c l ge le = ground (arith, mapping_end_laid l)
