-- ===== src/DownwardPool/Accounts.antt =====
-- Which pool objects own the mappings of a process and the ranges in the registry.
use doost.Base.{
  ℕ, ◌≡◌, ◌≢◌, ◌⊎◌, sym, ◌∙◌, ap, subst, true, false, if◌then◌else◌, ◌∷◌, arith, ◌==◌, List, none,
  some,
}
use doost.Posix.{Posix, PosixLaws, Region, region, size_at, null}
use doost.Registry.{register_pool_guard, unregister_pool_guard}
use doost.Registry.Entries.{
  begins, Single, begins-register, register-Single, begins-unregister, unregister-Single,
}
use doost.DownwardPool.Regions.{Distinct, size_at-remove, remove-Distinct}
use doost.Storage.{Process}
use doost.DownwardPool.{DownwardPool, Pools, put, empty_pool, move_from}

-- The address where the mapping of a pool object begins.
abbrev pub begin_of : Pools → ℕ → ℕ
begin_of pools i = (pools i).storage.mapping_begin

-- Every pool object that has a mapping is the owner of it. The mappings are those of the owners and
-- `base`, and the registry holds ranges of owners only.
pub record Accounted (os : Posix) (base : List Region) (pools : Pools) (p : Process os)
    : Type 0 where
  pub owner : ℕ → ℕ
  pub owned : (i : ℕ) → begin_of pools i ≢ null → owner (begin_of pools i) ≡ i
  pub sizes :
      (b : ℕ)
      → b ≢ null
      → size_at (os.regions p.system) b ≡ (
          if begin_of pools (owner b) == b
          then some (pools (owner b)).storage.mapping_bytes
          else size_at base b)
  pub apart : (i : ℕ) → begin_of pools i ≢ null → size_at base (begin_of pools i) ≡ none
  pub distinct : Distinct (os.regions p.system)
  pub entries : (b : ℕ) → b ≢ null → begins p.registry b ≡ true → begin_of pools (owner b) ≡ b
  pub single : Single p.registry

module _ (os : Posix) (laws : PosixLaws os) (base : List Region) (pools : Pools) (p : Process os)
    (a : Accounted os base pools p) where
  -- What belongs to an object that is released is given back.
  module _ (this : ℕ) (held : begin_of pools this ≢ null) where
    abbrev b : ℕ
    b = begin_of pools this

    abbrev n : ℕ
    n = (pools this).storage.mapping_bytes

    abbrev given_back : Process os
    given_back = record {
      system = os.munmap b n p.system;
      registry = unregister_pool_guard b p.registry;
    }

    mapped_here : size_at (os.regions p.system) b ≡ some n
    mapped_here = ground (arith, a.sizes b held, a.owned this held)

    given_back-size_at :
        (x : ℕ)
        → size_at (os.regions given_back.system) x
          ≡ (if x == b then none else size_at (os.regions p.system) x)
    given_back-size_at x =
        ap (λ rs. size_at rs x) (laws.munmap_regions b n p.system)
        ∙ size_at-remove (os.regions p.system) b n x a.distinct mapped_here

    pub given_back-Accounted : Accounted os base (put pools this empty_pool) given_back
    given_back-Accounted = record {
      owner = a.owner;
      owned = λ i. ground (arith, a.owned i);
      sizes = λ x some_address. ground (
        arith,
        given_back-size_at x,
        a.sizes x some_address,
        a.apart this held,
        a.owned this held,
      );
      apart = λ i. ground (arith, a.apart i);
      distinct =
          subst Distinct (sym (laws.munmap_regions b n p.system))
            (remove-Distinct (os.regions p.system) b n a.distinct mapped_here);
      entries = λ x some_address. ground (
        arith,
        begins-unregister b p.registry x a.single some_address held,
        a.entries x some_address,
        a.owned this held,
      );
      single = unregister-Single b p.registry a.single;
    }

  -- A construction makes its object the owner of the new mapping.
  module _ (this : ℕ) (x : DownwardPool) (q : Process os) (guard_end : ℕ)
      (free : begin_of pools this ≡ null) (made : x.storage.mapping_begin ≢ null)
      (fresh : size_at (os.regions p.system) x.storage.mapping_begin ≡ none)
      (owns : os.regions q.system
        ≡ region x.storage.mapping_begin x.storage.mapping_bytes ∷ os.regions p.system)
      (registers : q.registry
        ≡ register_pool_guard x.storage.mapping_begin guard_end p.registry) where
    abbrev owner : ℕ → ℕ
    owner y = if y == x.storage.mapping_begin then this else a.owner y

    unowned : begin_of pools (a.owner x.storage.mapping_begin) ≢ x.storage.mapping_begin
    unowned e = ground (arith, e, fresh, a.sizes x.storage.mapping_begin made)

    unregistered : begins p.registry x.storage.mapping_begin ≡ false
    unregistered = ground (arith, unowned, a.entries x.storage.mapping_begin made)

    unheld : (i : ℕ) → begin_of pools i ≢ x.storage.mapping_begin
    unheld i e = ground (arith, e, unowned, made, a.owned i)

    taken-size_at :
        (y : ℕ)
        → size_at (os.regions q.system) y ≡ (
            if x.storage.mapping_begin == y
            then some x.storage.mapping_bytes
            else size_at (os.regions p.system) y)
    taken-size_at y = ap (λ rs. size_at rs y) owns

    taken-begins :
        (y : ℕ)
        → y ≢ null
        → begins q.registry y ≡ true
        → begins p.registry y ≡ true ⊎ (y ≡ x.storage.mapping_begin)
    taken-begins y some_address found = ground (
      arith,
      begins-register x.storage.mapping_begin guard_end p.registry y some_address,
      sym (ap (λ r. begins r y) registers) ∙ found,
    )

    pub taken-Accounted : Accounted os base (put pools this x) q
    taken-Accounted = record {
      owner = owner;
      owned = λ i. ground (arith, a.owned i, unheld i);
      sizes =
          λ y some_address. ground (arith, taken-size_at y, a.sizes y some_address, free, unowned);
      apart = λ i. ground (arith, a.apart i, fresh, unowned, a.sizes x.storage.mapping_begin made);
      distinct = subst Distinct (sym owns) (unfold Distinct in (fresh, a.distinct));
      entries = λ y some_address found.
          ground (arith, taken-begins y some_address found, a.entries y some_address, free);
      single =
          subst Single (sym registers) (
            register-Single x.storage.mapping_begin guard_end p.registry a.single unregistered
              made);
    }

  -- A move makes `this` the owner of what `other` had.
  pub moved-Accounted :
      (this other : ℕ)
      → begin_of pools this ≡ null
      → this ≢ other
      → Accounted os base (move_from this other pools) p
  unfolding move_from
  moved-Accounted this other free differ = record {
    owner = λ y. if y == begin_of pools other then this else a.owner y;
    owned = λ i. ground (arith, a.owned i, a.owned other, free, differ);
    sizes = λ y some_address. ground (arith, a.sizes y some_address, a.owned other, free, differ);
    apart = λ i. ground (arith, a.apart i, a.apart other);
    distinct = a.distinct;
    entries =
        λ y some_address. ground (arith, a.entries y some_address, a.owned other, free, differ);
    single = a.single;
  }

  -- What keeps every mapping keeps the owners.
  pub kept-Accounted :
      (after : Pools)
      → ((i : ℕ) → begin_of after i ≡ begin_of pools i)
      → ((i : ℕ)
          → begin_of pools i ≢ null
          → (after i).storage.mapping_bytes ≡ (pools i).storage.mapping_bytes)
      → Accounted os base after p
  kept-Accounted after begins_same bytes_same = record {
    owner = a.owner;
    owned = λ i. ground (arith, a.owned i, begins_same i);
    sizes = λ y some_address.
        ground (arith, a.sizes y some_address, begins_same (a.owner y), bytes_same (a.owner y));
    apart = λ i. ground (arith, a.apart i, begins_same i);
    distinct = a.distinct;
    entries = λ y some_address. ground (arith, a.entries y some_address, begins_same (a.owner y));
    single = a.single;
  }

  -- So does a process whose mappings and registry are those of before.
  pub restored-Accounted :
      (q : Process os)
      → os.regions q.system ≡ os.regions p.system
      → q.registry ≡ p.registry
      → Accounted os base pools q
  restored-Accounted q regions_same registry_same = record {
    owner = a.owner;
    owned = a.owned;
    sizes = λ y some_address. ap (λ rs. size_at rs y) regions_same ∙ a.sizes y some_address;
    apart = a.apart;
    distinct = subst Distinct (sym regions_same) a.distinct;
    entries = λ y some_address found.
        a.entries y some_address (sym (ap (λ r. begins r y) registry_same) ∙ found);
    single = subst Single (sym registry_same) a.single;
  }

  -- An object without a mapping may be replaced by an empty pool.
  pub emptied-Accounted :
      (this : ℕ) → begin_of pools this ≡ null → Accounted os base (put pools this empty_pool) p
  emptied-Accounted this free =
      kept-Accounted (put pools this empty_pool) (λ i. ground (arith, free))
        (λ i some_mapping. ground (arith, free, some_mapping))
