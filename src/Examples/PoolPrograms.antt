-- ===== src/Examples/PoolPrograms.antt =====
-- Instances for the programs of pool objects.
use doost.Base.{All, ◌+◌, ◌*◌, ◌^◌, ◌≡◌, refl, arith, List, [], ◌∷◌}
use doost.Posix.{region, simple_posix, simple_laws}
use doost.Registry.{entry, register_pool_guard, unregister_pool_guard}
use doost.Storage.{storage, make_downward_pool_storage}
use doost.DownwardPool.{allocate}
use doost.DownwardPool.Programs.{
  PoolOperation, construction, allocation, move_assignment, move_construction, releasing, no_pools,
  run_all,
}
use doost.DownwardPool.Regions.{Distinct}
use doost.DownwardPool.Accounts.{Accounted}
use doost.DownwardPool.NoLeaks.{Sized, run_all-Accounted}
use doost.NonblockingPool.Programs as Shared
use doost.NonblockingPool.Alike.{as_plain, run_all-no_leaks}
use doost.Examples.Pools.{started}

-- Three pools are constructed, of which the last finds no free entry in the registry; one is
-- moved over another, and one is released.
abbrev moving : List PoolOperation
moving =
    construction 1 8192 64
    ∷ construction 2 4096 64
    ∷ construction 3 4096 64
    ∷ allocation 2 100 16
    ∷ move_assignment 1 2
    ∷ move_construction 4 1
    ∷ releasing 3
    ∷ []

moving-Sized : All (Sized 4096) moving
unfolding Sized
moving-Sized = omega arith

run_all-Accounted_example :
    let (pools, q) = run_all simple_posix moving (no_pools, started) in
    Accounted simple_posix [] pools q
run_all-Accounted_example =
    run_all-Accounted simple_posix simple_laws moving started moving-Sized (unfold Distinct in tt)
      (refl, (refl, tt))

-- The mapping of the second construction is left, in the hands of the fourth object.
moving_run :
    let (pools, q) = run_all simple_posix moving (no_pools, started) in
    (q.system.regions ≡ region (2 * 2 ^ 32) 8192 ∷ [])
    × ((pools 4).storage ≡ storage (2 * 2 ^ 32) 8192)
    × (q.registry ≡ entry 0 0 ∷ entry (2 * 2 ^ 32) (2 * 2 ^ 32 + 4096) ∷ [])
unfolding run_all make_downward_pool_storage allocate unregister_pool_guard register_pool_guard
moving_run = (refl, refl, refl)

run_all-no_leaks_example :
    let (pools, q) = Shared.run_all simple_posix moving (Shared.no_pools, started) in
    Accounted simple_posix [] (as_plain pools) q
run_all-no_leaks_example =
    run_all-no_leaks simple_posix simple_laws moving started moving-Sized (unfold Distinct in tt)
      (refl, (refl, tt))
