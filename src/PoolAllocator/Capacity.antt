-- ===== src/PoolAllocator/Capacity.antt =====
-- A List in a pool of the size that List::required_storage gives.
use native.Mathlib.Nat.{mul-le-mul_right, zero-mul}
use doost.Base.{
  ℕ, ◌+◌, ◌-◌, ◌*◌, ◌%◌, ◌≤◌, ◌<◌, ◌≡◌, ◌≢◌, refl, sym, ap, ◌∙◌, subst, true, arith, List, [],
  length, none, some, returned,
}
use doost.Word.{IsPowerOfTwo, multiple_of_larger}
use doost.Posix.{Posix, PosixLaws, null, in_range}
use doost.Storage.{Process}
use doost.NodeList.{required_storage}
use doost.NodeList.Required.{required_storage_fits}
use doost.NodeList.Copy.{no_nodes}
use doost.NodeList.Filling.{values}
use doost.DownwardPool.{DownwardPool}
use doost.DownwardPool.Room.{floor, ceiling}
use doost.DownwardPool.Allocate.{IsPool}
use doost.DownwardPool.Construct.{Constructed, layout-accessible}
use doost.PoolAllocator.{DownwardPoolAllocator}
use doost.PoolAllocator.PoolList.{PoolList, pool_emplace_all}
use doost.PoolAllocator.ListBlocks.{Stands, pushed, sum_multiple, emplace_all-Stands}

module _ (os : Posix) (laws : PosixLaws os) where
  open os use {accessible}
  open laws use {page, page_power}

  module _ (A : Type 0) (n usable size_of align_of : ℕ) (p q : Process os) (x : DownwardPool)
      (asked : required_storage size_of n ≡ returned usable)
      (c : Constructed os laws usable size_of p x q) (power : IsPowerOfTwo align_of)
      (small : align_of ≤ page) (multiple : size_of % align_of ≡ 0) (positive : 0 < size_of)
      (a : DownwardPoolAllocator) (not_null : a.pool ≢ null) (pools : ℕ → DownwardPool)
      (there : pools a.pool ≡ x) where
    abbrev empty_list : PoolList A
    empty_list = record { nodes = no_nodes; heap = λ b. none; pools = pools }

    usable_bytes : usable ≡ n * size_of
    usable_bytes = ground (arith, asked, required_storage_fits size_of n positive)

    start_aligned : x.cursor % align_of ≡ 0
    start_aligned =
        ap (λ k. k % align_of) (c.full ∙ omega (arith, c.layout.guard_le))
        ∙ multiple_of_larger power page_power small
            (x.storage.mapping_begin
              + (c.layout.guard + (x.storage.mapping_bytes - c.layout.guard)))
            (sum_multiple page x.storage.mapping_begin _ c.layout.begin_page (
              sum_multiple page c.layout.guard _ c.layout.guard_rounds.multiple
                c.layout.usable_rounds.multiple))

    start-Stands : Stands page c.layout.guard size_of align_of a empty_list []
    start-Stands = record {
      is_pool = subst (IsPool page c.layout.guard) (sym there) c.ready;
      holds = (refl, refl);
      free = λ b lt. refl;
      packed = tt;
      aligned = ap (λ y. y.cursor % align_of) there ∙ start_aligned;
      bounded = subst (λ y. y.cursor + 0 ≤ ceiling y.storage) (sym there) (omega (arith, c.full));
      ends =
          subst (λ y. y.cursor + 0 * size_of ≤ ceiling y.storage) (sym there)
            (omega (arith, c.full, zero-mul size_of));
    }

    -- A pool of `required_storage` bytes for `n` nodes, constructed for blocks of a node, serves a list
    -- that up to `n` elements are put in front of: the list holds them, the last one in front, in nodes
    -- that lie aligned one behind the other from the cursor of the pool, and every byte from there to the
    -- end of the mapping, which the nodes are within, can be read and written.
    pub emplace_all-required_storage :
        (xs : List A)
        → length xs ≤ n
        → (t : PoolList A) × (ds : List (ℕ × A)) × (pool_emplace_all size_of align_of a xs
              empty_list
            ≡ some t)
          × Stands page c.layout.guard size_of align_of a t ds
          × (values ds ≡ pushed xs [])
          × ((b : ℕ)
              → in_range (t.pools a.pool).cursor (ceiling x.storage - (t.pools a.pool).cursor) b
                ≡ true
              → accessible q.system b ≡ true)
    emplace_all-required_storage xs few =
        let enough : length xs * size_of ≤ usable =
          omega (arith, usable_bytes, mul-le-mul_right size_of few) in
        let (t, ds, run, stands, order, storage) =
          emplace_all-Stands page c.layout.guard size_of align_of a power multiple positive not_null
            xs empty_list [] start-Stands
            (subst (λ y. floor c.layout.guard y.storage + length xs * size_of ≤ y.cursor)
              (sym there)
              (omega (arith, enough, c.full, c.layout.usable_rounds.ge, c.layout.guard_le))) in
        let above : floor c.layout.guard x.storage ≤ (t.pools a.pool).cursor =
          subst (λ st. floor c.layout.guard st ≤ (t.pools a.pool).cursor)
            (storage ∙ ap (λ y. y.storage) there) stands.is_pool.above in
        (
          t,
          ds,
          run,
          stands,
          order,
          λ b inside.
              layout-accessible os laws c.layout b (ground (arith, above, inside))
                (ground (arith, above, inside)),
        )
