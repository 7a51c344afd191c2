-- ===== src/DownwardPool/NoLeaks.antt =====
-- Programs that use DownwardPool objects, from a process without pools to their end.
use doost.Base.{
  ℕ, ◌+◌, ◌≤◌, ◌≡◌, ◌≢◌, refl, false, inl, inr, Bool-cases, both_branches, [], ◌∷◌, arith, ◌==◌,
  List, All, Outcome, returned, thrown,
}
use doost.Word.{word_mod}
use doost.Posix.{Posix, PosixLaws, Region, null}
use doost.Registry.{Registry, unregister_pool_guard}
use doost.Registry.Entries.{begins, Single}
use doost.Storage.{Process}
use doost.DownwardPool.{
  DownwardPool, Pools, put, empty_pool, allocate, reset, construct, move_construct, move_assign,
  release, move_from,
}
use doost.DownwardPool.Construct.{Construction, construct-Construction}
use doost.DownwardPool.Programs.{
  PoolOperation, construction, move_construction, move_assignment, allocation, resetting, releasing,
  no_pools, release_at, hold, construct_at, run, run_all,
}
use doost.DownwardPool.Regions.{Distinct}
use doost.DownwardPool.Accounts.{
  Accounted, begin_of, given_back-Accounted, taken-Accounted, moved-Accounted, kept-Accounted,
  restored-Accounted, emptied-Accounted,
}

-- The sizes that a construction asks for can be rounded up to whole pages.
unfoldable pub Sized : (page : ℕ) → PoolOperation → Type 0
Sized page (construction this usable max_alloc) =
    (usable + page ≤ word_mod) × (max_alloc + page ≤ word_mod)
Sized page o = Unit

unregister-null : {b : ℕ} (r : Registry) → b ≡ null → unregister_pool_guard b r ≡ r
unfolding unregister_pool_guard
unregister-null r none_given = ground (arith, none_given)

module _ (os : Posix) (laws : PosixLaws os) (base : List Region) where
  -- What is released leaves an object without a mapping.
  release_at-Accounted :
      (this : ℕ) (pools : Pools) (p : Process os)
      → Accounted os base pools p
      → let (after, q) = release_at os this (pools, p) in
        Accounted os base after q × (begin_of after this ≡ null)
  unfolding release_at release
  release_at-Accounted this pools p a = elim (Bool-cases (begin_of pools this == null)) [
    | inl absent ↦ rw absent (
      restored-Accounted os laws base (put pools this empty_pool) p
          (emptied-Accounted os laws base pools p a this (ground (arith, absent))) _ refl
          (unregister-null p.registry (ground (arith, absent))),
      ground arith,
    )
    | inr present ↦
        rw present
          (given_back-Accounted os laws base pools p a this (ground (arith, present)), ground arith)
  ]

  construct_at-Accounted :
      (this usable max_alloc : ℕ) (pools : Pools) (p : Process os)
      → usable + laws.page ≤ word_mod
      → max_alloc + laws.page ≤ word_mod
      → Accounted os base pools p
      → begin_of pools this ≡ null
      → let (after, q) = construct_at os this usable max_alloc (pools, p) in
        Accounted os base after q
  unfolding construct_at hold
  construct_at-Accounted this usable max_alloc pools p usable_small max_alloc_small a free =
      held (construct os usable max_alloc p)
        (construct-Construction os laws usable max_alloc p usable_small max_alloc_small)
    where
      held :
          (r : Outcome DownwardPool × Process os)
          → Construction os laws usable max_alloc p r
          → let (after, q) = hold os this pools r in Accounted os base after q
      held (returned x, q) c =
          taken-Accounted os laws base pools p a this x q _ free
            (ground (arith, c.layout.begin_pos)) c.layout.fresh c.layout.owns c.layout.registers
      held (thrown e, q) (regions, registry) =
          restored-Accounted os laws base pools p a q regions registry

  -- A move to an object without a mapping, from another one or from itself.
  move_from-Accounted :
      (this other : ℕ) (pools : Pools) (p : Process os)
      → Accounted os base pools p
      → begin_of pools this ≡ null
      → Accounted os base (move_from this other pools) p
  unfolding move_from
  move_from-Accounted this other pools p a free = elim (Bool-cases (this == other)) [
    | inl same ↦
        kept-Accounted os laws base pools p a _ (λ i. ground (arith, same, free))
          (λ i some_mapping. ground (arith, same, free, some_mapping))
    | inr differ ↦ moved-Accounted os laws base pools p a this other free (ground (arith, differ))
  ]

  run-Accounted :
      (o : PoolOperation) (pools : Pools) (p : Process os)
      → Sized laws.page o
      → Accounted os base pools p
      → let (after, q) = run os o (pools, p) in Accounted os base after q
  unfolding run Sized move_construct move_assign release_at allocate reset
  run-Accounted (construction this usable max_alloc) pools p (usable_small, max_alloc_small) a =
      let (after, q) = release_at os this (pools, p) in
      let (b, free) = release_at-Accounted this pools p a in
      construct_at-Accounted this usable max_alloc after q usable_small max_alloc_small b free
  run-Accounted (move_construction this other) pools p sized a =
      let (after, q) = release_at os this (pools, p) in
      let (b, free) = release_at-Accounted this pools p a in
      move_from-Accounted this other (put after this empty_pool) q
        (emptied-Accounted os laws base after q b this free) (ground arith)
  run-Accounted (move_assignment this other) pools p sized a =
      let (b, free) = release_at-Accounted this pools p a in
      both_branches (λ (after, q). Accounted os base after q) (this == other) (λ same. a)
        (λ differ. move_from-Accounted this other _ _ b free)
  run-Accounted (allocation this bytes alignment) pools p sized a =
      kept-Accounted os laws base pools p a _ (λ i. ground arith) (λ i some_mapping. ground arith)
  run-Accounted (resetting this) pools p sized a =
      kept-Accounted os laws base pools p a _ (λ i. ground arith) (λ i some_mapping. ground arith)
  run-Accounted (releasing this) pools p sized a = (release_at-Accounted this pools p a).0

  run_all-kept :
      (program : List PoolOperation) (pools : Pools) (p : Process os)
      → All (Sized laws.page) program
      → Accounted os base pools p
      → let (after, q) = run_all os program (pools, p) in Accounted os base after q
  unfolding run_all
  run_all-kept [] pools p sized a = a
  run_all-kept (o ∷ os') pools p (one, rest) a =
      let (after, q) = run os o (pools, p) in
      run_all-kept os' after q rest (run-Accounted o pools p one a)

free-begins :
    (r : Registry) (b : ℕ) → All (λ x. x.guard_begin ≡ 0) r → b ≢ null → begins r b ≡ false
unfolding begins
free-begins [] b free some_address = refl
free-begins (x ∷ xs) b free some_address = ground (arith, free.0, free-begins xs b free.1)

free-Single : (r : Registry) → All (λ x. x.guard_begin ≡ 0) r → Single r
unfolding Single
free-Single [] free = tt
free-Single (x ∷ xs) free = (λ given. absurd (given free.0), free-Single xs free.1)

-- A program of operations on DownwardPool objects, with constructions of sizes to which a page can be added
-- below 2 ^ 64, is run in a process whose mappings begin apart and whose registry is free. At the end, whatever has thrown, every object with a mapping is the only owner of it,
-- the other mappings are those of the start, and the registry holds ranges of owners only: where every
-- object is released, mappings and registry are back.
pub run_all-Accounted :
    (os : Posix) (laws : PosixLaws os) (program : List PoolOperation) (p : Process os)
    → All (Sized laws.page) program
    → Distinct (os.regions p.system)
    → All (λ x. x.guard_begin ≡ 0) p.registry
    → let (pools, q) = run_all os program (no_pools, p) in
      Accounted os (os.regions p.system) pools q
run_all-Accounted os laws program p sized distinct free =
    run_all-kept os laws (os.regions p.system) program no_pools p sized (record {
      owner = λ b. b;
      owned = λ i. ground arith;
      sizes = λ b. ground arith;
      apart = λ i. ground arith;
      distinct = distinct;
      entries = λ b some_address. ground (arith, free-begins p.registry b free some_address);
      single = free-Single p.registry free;
    })
