-- ===== src/PoolAllocator/SequentialCapacity.antt =====
-- A List whose nodes come from a new NonblockingDownwardPool or a new DownwardPool, through a
-- SequentialPoolAllocator.
use native.Mathlib.Nat.{mul-le-mul_right}
use doost.Base.{
  ℕ, ◌+◌, ◌-◌, ◌*◌, ◌≤◌, ◌<◌, ◌≡◌, ◌≢◌, refl, sym, ap, ◌∙◌, subst, true, arith, List, [], length,
  none, some,
}
use doost.Word.{word_mod, IsPowerOfTwo}
use doost.Posix.{Posix, PosixLaws, null}
use doost.Storage.{Storage, Process}
use doost.Storage.Make.{LaidOut}
use doost.Blocks.{request}
use doost.NodeList.Copy.{no_nodes}
use doost.NodeList.Cells.{has, Holds}
use doost.NodeList.Filling.{values}
use doost.DownwardPool
use doost.DownwardPool.{DownwardPool}
use doost.DownwardPool.Room.{floor, ceiling}
use doost.DownwardPool.Construct.{Constructed, layout-accessible}
use doost.NonblockingPool
use doost.NonblockingPool.{NonblockingPool, cursor_alignment, reservation}
use doost.NonblockingPool.Reservation.{IsAsked}
use doost.NonblockingPool.Construct.{SharedPool, first_cursor_multiple, first_cursor_small}
use doost.PoolAllocator.{Allocator}
use doost.PoolAllocator.ListBlocks.{pushed}
use doost.PoolAllocator.SequentialList.{SequentialList, list_emplace_all}
use doost.PoolAllocator.Serves.{Spaced, Spaced-inside}
use doost.PoolAllocator.SequentialNodes.{list_emplace_all-Spaced}
use doost.PoolAllocator.Served.{Reserves, HasRoom, nonblocking_serves, downward_serves}

abbrev pub empty_list : (A : Type 0) {Pool : Type 0} → (ℕ → Pool) → SequentialList A Pool
empty_list A pools = record { nodes = no_nodes; heap = λ b. none; pools = pools }

module _ (os : Posix) (laws : PosixLaws os) where
  open os use {accessible}
  open laws use {page}

  -- The cells are the nodes of the list, and lie spaced and aligned in memory that can be read and written.
  pub record InMemory {A Pool : Type 0} (size_of align_of lo hi : ℕ) (q : Process os)
      (t : SequentialList A Pool) (ds : List (ℕ × A)) : Type 0 where
    pub holds : Holds t.heap t.nodes ds
    pub spaced : Spaced size_of align_of lo hi ds
    pub usable :
        (b i : ℕ) → has b ds ≡ true → b ≤ i → i < b + size_of → accessible q.system i ≡ true

  Spaced-InMemory :
      {A Pool : Type 0} {usable size_of align_of : ℕ} {p q : Process os} {st : Storage}
      (l : LaidOut os laws usable size_of p st q) (t : SequentialList A Pool) (ds : List (ℕ × A))
      → Holds t.heap t.nodes ds
      → Spaced size_of align_of (floor l.guard st) (ceiling st) ds
      → InMemory size_of align_of (floor l.guard st) (ceiling st) q t ds
  Spaced-InMemory {size_of} {align_of} {st} l t ds holds spaced = record {
    holds = holds;
    spaced = spaced;
    usable = λ b i found ge lt.
        let (low, high, _) =
          Spaced-inside size_of align_of (floor l.guard st) (ceiling st) b ds spaced found in
        layout-accessible os laws l i (omega (arith, low, ge)) (omega (arith, high, lt));
  }

  -- A new NonblockingDownwardPool with room for `n` reservations of a node, of a system whose pages are at
  -- least 16 bytes, serves a list that up to `n` elements are put in front of: it holds them, the last one in
  -- front, in nodes that do not overlap and are aligned, all of whose bytes can be read and written.
  pub list_emplace_all-reservations :
      {A : Type 0} (n usable size_of align_of : ℕ) {p q : Process os} {x : NonblockingPool}
      (c : SharedPool os laws usable size_of p x q) (a : Allocator) (pools : ℕ → NonblockingPool)
      (xs : List A)
      → cursor_alignment ≤ page
      → IsAsked (request size_of align_of)
      → 0 < size_of
      → n * reservation size_of align_of ≤ usable
      → a.pool ≢ null
      → pools a.pool ≡ x
      → length xs ≤ n
      → (t : SequentialList A NonblockingPool) × (ds : List (ℕ × A)) × (list_emplace_all
            NonblockingPool.allocate size_of align_of a xs
            (empty_list A pools)
          ≡ some t)
        × (values ds ≡ pushed xs [])
        × InMemory size_of align_of (floor c.layout.guard x.storage) (ceiling x.storage) q t ds
  unfolding nonblocking_serves
  list_emplace_all-reservations n usable size_of align_of {q = q} {x} c a pools xs pages asked
        positive enough not_null there few =
      let lo = floor c.layout.guard x.storage in
      let room : length xs * reservation size_of align_of ≤ usable =
        omega (arith, enough, mul-le-mul_right (reservation size_of align_of) few) in
      let (t, ds, run, holds, order, spaced) =
        list_emplace_all-Spaced NonblockingPool.allocate size_of align_of
          (nonblocking_serves size_of align_of lo (omega (arith, c.layout.begin_pos)) asked) a
          (ceiling x.storage) positive (omega (arith, asked.fits)) not_null xs pools
          (subst (Reserves size_of align_of lo (length xs)) (sym there) (
            first_cursor_multiple os laws c pages,
            first_cursor_small os laws c pages,
            omega (arith, room, c.full, c.layout.usable_rounds.ge, c.layout.guard_le),
          ))
          (ap (λ y. y.cursor) there ∙ c.full) (omega (arith, c.layout.in_space)) in
      (t, ds, run, order, Spaced-InMemory c.layout t ds holds spaced)

  -- A new DownwardPool with room for `n` nodes and what aligning each of them may cost serves a list that up
  -- to `n` elements are put in front of: it holds them, the last one in front, in nodes that do not overlap
  -- and are aligned, all of whose bytes can be read and written.
  pub list_emplace_all-demand :
      {A : Type 0} (n usable size_of align_of : ℕ) {p q : Process os} {x : DownwardPool}
      (c : Constructed os laws usable size_of p x q) (a : Allocator) (pools : ℕ → DownwardPool)
      (xs : List A)
      → IsPowerOfTwo align_of
      → 0 < size_of
      → size_of < word_mod
      → n * (size_of + (align_of - 1)) ≤ usable
      → a.pool ≢ null
      → pools a.pool ≡ x
      → length xs ≤ n
      → (t : SequentialList A DownwardPool) × (ds : List (ℕ × A)) × (list_emplace_all
            DownwardPool.allocate size_of align_of a xs
            (empty_list A pools)
          ≡ some t)
        × (values ds ≡ pushed xs [])
        × InMemory size_of align_of (floor c.layout.guard x.storage) (ceiling x.storage) q t ds
  unfolding downward_serves
  list_emplace_all-demand n usable size_of align_of {q = q} {x} c a pools xs power positive small
        enough not_null there few =
      let room : length xs * (size_of + (align_of - 1)) ≤ usable =
        omega (arith, enough, mul-le-mul_right (size_of + (align_of - 1)) few) in
      let (t, ds, run, holds, order, spaced) =
        list_emplace_all-Spaced DownwardPool.allocate size_of align_of
          (downward_serves size_of align_of page c.layout.guard x.storage c.layout.begin_pos power)
          a (ceiling x.storage) positive small not_null xs pools
          (subst (HasRoom size_of align_of page c.layout.guard x.storage (length xs)) (sym there) (
            c.ready,
            refl,
            omega (arith, room, c.full, c.layout.usable_rounds.ge, c.layout.guard_le),
          ))
          (ap (λ y. y.cursor) there ∙ c.full) (omega (arith, c.layout.in_space)) in
      (t, ds, run, order, Spaced-InMemory c.layout t ds holds spaced)
