-- ===== src/DownwardPool/Release.antt =====
-- Giving a pool back, and starting it over.
use doost.Base.{ℕ, ◌+◌, ◌≤◌, ◌<◌, ◌≡◌, false, refl, ap, ◌∙◌, arith, ◌==◌}
use doost.Posix.{Posix, PosixLaws, null, remove_region}
use doost.Registry.{unregister_pool_guard}
use doost.Registry.Lookup.{Unregistered, unregister-register}
use doost.Storage.{Process}
use doost.DownwardPool.{DownwardPool, empty_pool, reset, used_bytes, release}
use doost.DownwardPool.Room.{ceiling, mapping_end_laid, used_bytes_laid}
use doost.DownwardPool.Allocate.{IsPool}
use doost.DownwardPool.Construct.{Constructed}

module _ (os : Posix) where
  open os use {regions, accessible}

  -- Releasing twice is releasing once: the pool is empty after the first time.
  release-release :
      (x : DownwardPool) (p : Process os)
      → let (y, q) = release os x p in (y ≡ empty_pool) × (release os y q ≡ (empty_pool, q))
  unfolding release unregister_pool_guard
  release-release x p = (refl, refl)

  -- A released pool reports no bytes in use.
  pub used_bytes-release : (x : DownwardPool) (p : Process os) → used_bytes (release os x p).0 ≡ 0
  unfolding release used_bytes
  used_bytes-release x p = refl

  module _ (laws : PosixLaws os) where
    -- Releasing a pool just constructed gives the mappings and the registry back as they were before
    -- it was constructed, and no address of the mapping can be accessed any more.
    pub release-construct :
        {usable max_alloc : ℕ} {p q : Process os} {x : DownwardPool}
        → Constructed os laws usable max_alloc p x q
        → Unregistered x.storage.mapping_begin p.registry
        → let after = (release os x q).1 in
          (regions after.system ≡ regions p.system)
          × (after.registry ≡ p.registry)
          × ((a : ℕ)
              → x.storage.mapping_begin ≤ a
              → a < ceiling x.storage
              → accessible after.system a ≡ false)
    unfolding release
    release-construct {p} {q} {x} c new =
        let open_storage : (x.storage.mapping_begin == null) ≡ false =
          ground (arith, c.layout.begin_pos) in
        let b = x.storage.mapping_begin in
        let n = x.storage.mapping_bytes in
        rw open_storage (
          laws.munmap_regions b n q.system ∙ ap (remove_region b n) c.layout.owns ∙ ground arith,
          ap (unregister_pool_guard b) c.layout.registers
              ∙ unregister-register b (b + c.layout.guard) p.registry new
                  (omega (arith, c.layout.begin_pos)),
          λ a ge lt. laws.munmap_accessible b n q.system a ∙ ground arith,
        )

module _ {page guard : ℕ} {x : DownwardPool} (is : IsPool page guard x) where
  -- `reset` keeps the mapping and frees all blocks: nothing is in use and the pool is well formed.
  reset-IsPool :
      IsPool page guard (reset x)
      × (used_bytes (reset x) ≡ 0)
      × ((reset x).storage ≡ x.storage)
      × ((reset x).cursor ≡ ceiling x.storage)
  unfolding reset used_bytes
  reset-IsPool =
      let end = mapping_end_laid is.laid in
      (
        record {
          laid = is.laid;
          above = omega (arith, end, is.above, is.below);
          below = omega (arith, end);
        },
        ground (
          arith,
          end,
          used_bytes_laid (ceiling x.storage) is.laid (omega arith) (omega arith),
          is.laid.begin_pos,
        ),
        refl,
        end,
      )
