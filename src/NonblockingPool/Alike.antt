-- ===== src/NonblockingPool/Alike.antt =====
-- Programs that use NonblockingDownwardPool objects have the mappings of those that use DownwardPool objects.
use doost.Base.{
  ℕ, ◌≡◌, refl, sym, ap, subst, [], ◌∷◌, arith, ◌==◌, List, Outcome, returned, thrown, All, Bool,
  true, false, if◌then◌else◌,
}
use doost.Posix.{Posix, PosixLaws}
use doost.Storage.{Storage, Process, release_downward_pool_storage}
use doost.DownwardPool
use doost.DownwardPool.Programs as Plain
use doost.DownwardPool.Programs.{
  PoolOperation, construction, move_construction, move_assignment, allocation, resetting, releasing,
}
use doost.DownwardPool.Regions.{Distinct}
use doost.DownwardPool.Accounts.{Accounted, kept-Accounted}
use doost.DownwardPool.NoLeaks.{Sized, run_all-Accounted}
use doost.NonblockingPool.{
  Pools, put, empty_pool, start_pool, construct, release, allocate, reset, fetch_sub, move_from,
  move_construct, move_assign,
}
use doost.NonblockingPool.Programs.{no_pools, release_at, hold, construct_at, run, run_all}

module _ (os : Posix) where
  -- The objects at one address have one storage, and the processes are the same.
  abbrev Alike : Pools × Process os → DownwardPool.Pools × Process os → Type 0
  Alike (pools, p) (plain, q) = ((i : ℕ) → (pools i).storage ≡ (plain i).storage) × (p ≡ q)

  module _ (pools : Pools) (plain : DownwardPool.Pools) (p : Process os)
      (same : (i : ℕ) → (pools i).storage ≡ (plain i).storage) where
    release_at-Alike :
        (this : ℕ) → Alike (release_at os this (pools, p)) (Plain.release_at os this (plain, p))
    unfolding release_at Plain.release_at release DownwardPool.release release_downward_pool_storage
    release_at-Alike this = (
      λ i. ground (arith, same i),
      ap (λ s. (release_downward_pool_storage os s p).1) (same this),
    )

    hold-Alike :
        (this : ℕ) (r : Outcome Storage × Process os)
        → Alike
            (hold os this pools (start_pool os r))
            (Plain.hold os this plain (DownwardPool.start_pool os r))
    unfolding hold Plain.hold start_pool DownwardPool.start_pool
    hold-Alike this (returned s, q) = (λ i. ground (arith, same i), refl)
    hold-Alike this (thrown e, q) = (same, refl)

    construct_at-Alike :
        (this usable max_alloc : ℕ)
        → Alike
            (construct_at os this usable max_alloc (pools, p))
            (Plain.construct_at os this usable max_alloc (plain, p))
    unfolding construct_at Plain.construct_at construct DownwardPool.construct
    construct_at-Alike this usable max_alloc = hold-Alike this _

    move_from-Alike :
        (this other i : ℕ)
        → (move_from this other pools i).storage
          ≡ (DownwardPool.move_from this other plain i).storage
    unfolding move_from DownwardPool.move_from
    move_from-Alike this other i = ground (arith, same i, same other)

  -- After an operation on the one side and on the other, given what follows where the processes are the same.
  then-Alike :
      (f : Pools × Process os → Pools × Process os)
      (g : DownwardPool.Pools × Process os → DownwardPool.Pools × Process os)
      → ((pools : Pools) (plain : DownwardPool.Pools) (p : Process os)
          → ((i : ℕ) → (pools i).storage ≡ (plain i).storage)
          → Alike (f (pools, p)) (g (plain, p)))
      → (a : Pools × Process os) (b : DownwardPool.Pools × Process os) → Alike a b
      → Alike (f a) (g b)
  then-Alike f g step (pools, p) (plain, q) (same, e) =
      subst (λ z. Alike (f (pools, p)) (g (plain, z))) e (step pools plain p same)

  either_way :
      (c : Bool) (a d : Pools × Process os) (b e : DownwardPool.Pools × Process os)
      → Alike a b
      → Alike d e
      → Alike (if c then a else d) (if c then b else e)
  either_way true a d b e x y = x
  either_way false a d b e x y = y

  run-Alike :
      (o : PoolOperation) (pools : Pools) (plain : DownwardPool.Pools) (p : Process os)
      → ((i : ℕ) → (pools i).storage ≡ (plain i).storage)
      → Alike (run os o (pools, p)) (Plain.run os o (plain, p))
  unfolding run Plain.run release_at Plain.release_at move_construct DownwardPool.move_construct
      move_assign DownwardPool.move_assign allocate DownwardPool.allocate fetch_sub reset
      DownwardPool.reset
  run-Alike (construction this usable max_alloc) pools plain p same =
      then-Alike (construct_at os this usable max_alloc)
        (Plain.construct_at os this usable max_alloc)
        (λ a b q e. construct_at-Alike a b q e this usable max_alloc)
        (release_at os this (pools, p)) (Plain.release_at os this (plain, p))
        (release_at-Alike pools plain p same this)
  run-Alike (move_construction this other) pools plain p same =
      then-Alike (λ (a, q). (move_construct this other a, q))
        (λ (a, q). (DownwardPool.move_construct this other a, q))
        (λ a b q e. (
          λ i.
              move_from-Alike (put a this empty_pool)
                (DownwardPool.put b this DownwardPool.empty_pool) q (λ j. ground (arith, e j)) this
                other i,
          refl,
        ))
        (release_at os this (pools, p)) (Plain.release_at os this (plain, p))
        (release_at-Alike pools plain p same this)
  run-Alike (move_assignment this other) pools plain p same =
      either_way (this == other) _ _ _ _ (same, refl)
        (then-Alike (λ (a, q). (move_from this other a, q))
          (λ (a, q). (DownwardPool.move_from this other a, q))
          (λ a b q e. (move_from-Alike a b q e this other, refl)) (release_at os this (pools, p))
          (Plain.release_at os this (plain, p)) (release_at-Alike pools plain p same this))
  run-Alike (allocation this bytes alignment) pools plain p same =
      (λ i. ground (arith, same i, same this), refl)
  run-Alike (resetting this) pools plain p same = (λ i. ground (arith, same i, same this), refl)
  run-Alike (releasing this) pools plain p same = release_at-Alike pools plain p same this

  run_all-kept :
      (program : List PoolOperation) (pools : Pools) (plain : DownwardPool.Pools) (p : Process os)
      → ((i : ℕ) → (pools i).storage ≡ (plain i).storage)
      → Alike (run_all os program (pools, p)) (Plain.run_all os program (plain, p))
  unfolding run_all Plain.run_all
  run_all-kept [] pools plain p same = (same, refl)
  run_all-kept (o ∷ os') pools plain p same =
      then-Alike (run_all os os') (Plain.run_all os os') (run_all-kept os') (run os o (pools, p))
        (Plain.run os o (plain, p)) (run-Alike o pools plain p same)

  -- A program of operations on NonblockingDownwardPool objects, run from none, leaves the same mappings and
  -- the same registry as the same program on DownwardPool objects, and the objects at one address have the
  -- same storage.
  run_all-Alike :
      (program : List PoolOperation) (p : Process os)
      → Alike (run_all os program (no_pools, p)) (Plain.run_all os program (Plain.no_pools, p))
  run_all-Alike program p = run_all-kept program no_pools Plain.no_pools p (λ i. refl)

-- The storages of the objects, as DownwardPool objects.
abbrev pub as_plain : Pools → DownwardPool.Pools
as_plain pools i = DownwardPool.pool (pools i).storage (pools i).cursor

-- A program of operations on NonblockingDownwardPool objects, with constructions of sizes to which a page
-- can be added below 2 ^ 64, is run in a process whose mappings begin apart
-- and whose registry is free. At the end, whatever has thrown, every object with a mapping is the only owner
-- of it, the other mappings are those of the start, and the registry holds ranges of owners only.
pub run_all-no_leaks :
    (os : Posix) (laws : PosixLaws os) (program : List PoolOperation) (p : Process os)
    → All (Sized laws.page) program
    → Distinct (os.regions p.system)
    → All (λ x. x.guard_begin ≡ 0) p.registry
    → let (pools, q) = run_all os program (no_pools, p) in
      Accounted os (os.regions p.system) (as_plain pools) q
run_all-no_leaks os laws program p sized distinct free =
    let (same, e) = run_all-Alike os program p in
    let (plain, q) = Plain.run_all os program (Plain.no_pools, p) in
    subst (Accounted os (os.regions p.system) (as_plain (run_all os program (no_pools, p)).0))
      (sym e)
      (kept-Accounted os laws (os.regions p.system) plain q
        (run_all-Accounted os laws program p sized distinct free) _
        (λ i. ap (λ s. s.mapping_begin) (same i))
        (λ i some_mapping. ap (λ s. s.mapping_bytes) (same i)))
