-- ===== src/NonblockingPool/Construct.antt =====
-- A NonblockingDownwardPool from its construction on: src/nonblocking_downward_pool.cpp.
use doost.Base.{
  ℕ, ◌+◌, ◌-◌, ◌%◌, ◌≢◌, subst, ◌≤◌, ◌<◌, ◌≡◌, true, refl, ap, ◌∙◌, arith, Outcome, returned,
  thrown, get_elem?, some, All,
}
use doost.Word.{word_mod, multiple_add, multiple_of_larger}
use doost.Posix.{Posix, PosixLaws}
use doost.Storage.{Storage, Process, downward_pool_used_bytes}
use doost.Storage.Make.{LaidOut, Made, make-Made}
use doost.Blocks.{Request, Block, Apart}
use doost.DownwardPool.Room.{floor, ceiling, mapping_end_laid, used_bytes_laid}
use doost.DownwardPool.Construct.{LaidOut-IsLaid, layout-accessible}
use doost.NonblockingPool.{
  NonblockingPool, cursor_alignment, construct, start_pool, fetch_sub, used_bytes,
}
use doost.NonblockingPool.Reservation.{IsAsked, block_at, sixteen}
use doost.NonblockingPool.Threads.{fetched, System, Reach, start, later, fetch, finish}
use doost.NonblockingPool.Interleaving.{Inv, Within, Reach-Inv, threads_disjoint}

-- No call of `allocate` changes the storage.
Reach-storage : {p : NonblockingPool} {s : System} → Reach p s → s.shared.storage ≡ p.storage
unfolding fetch_sub
Reach-storage start = refl
Reach-storage (later r (fetch i q out)) = Reach-storage r
Reach-storage (later r (finish i d q e)) = Reach-storage r

module _ (os : Posix) (laws : PosixLaws os) where
  open os use {regions, accessible}
  open laws use {page, page_power}

  -- A pool just constructed.
  pub record SharedPool (usable max_alloc : ℕ) (p : Process os) (x : NonblockingPool)
      (q : Process os) : Type 0 where
    pub layout : LaidOut os laws usable max_alloc p x.storage q
    pub full : x.cursor ≡ ceiling x.storage

  abbrev pub Construction :
      (usable max_alloc : ℕ) → Process os → Outcome NonblockingPool × Process os → Type 0
  Construction usable max_alloc p (returned x, q) = SharedPool usable max_alloc p x q
  Construction usable max_alloc p (thrown e, q) =
      (regions q.system ≡ regions p.system) × (q.registry ≡ p.registry)

  start_pool-Construction :
      (usable max_alloc : ℕ) (p : Process os) (r : Outcome Storage × Process os)
      → Made os laws usable max_alloc p r
      → Construction usable max_alloc p (start_pool os r)
  unfolding start_pool
  start_pool-Construction usable max_alloc p (returned s, q) l = record {
    layout = l;
    full = mapping_end_laid (LaidOut-IsLaid os laws l);
  }
  start_pool-Construction usable max_alloc p (thrown e, q) h = h

  pub construct-Construction :
      (usable max_alloc : ℕ) (p : Process os)
      → usable + page ≤ word_mod
      → max_alloc + page ≤ word_mod
      → Construction usable max_alloc p (construct os usable max_alloc p)
  unfolding construct
  construct-Construction usable max_alloc p usable_small max_alloc_small =
      start_pool-Construction usable max_alloc p _
        (make-Made os laws usable max_alloc p usable_small max_alloc_small)

  module _ {usable max_alloc : ℕ} {p q : Process os} {x : NonblockingPool}
      (c : SharedPool usable max_alloc p x q) (pages : cursor_alignment ≤ page) where
    -- The first cursor is a multiple of the cursor's alignment.
    pub first_cursor_multiple : x.cursor % cursor_alignment ≡ 0
    first_cursor_multiple = multiple_of_larger sixteen page_power pages x.cursor (
        subst (λ e. e % page ≡ 0) (omega (arith, c.full, c.layout.guard_le))
          (multiple_add page (floor c.layout.guard x.storage)
            (x.storage.mapping_bytes - c.layout.guard)
            (multiple_add page x.storage.mapping_begin c.layout.guard c.layout.begin_page
              c.layout.guard_rounds.multiple)
            c.layout.usable_rounds.multiple))

    pub first_cursor_small : x.cursor < word_mod
    first_cursor_small = omega (arith, c.full, c.layout.in_space)

    module _ {s : System} (reach : Reach x s) (room : s.reserved ≤ usable)
        (asked : All IsAsked s.requests) where
      fits : floor c.layout.guard x.storage + s.reserved ≤ x.cursor
      fits = omega (arith, room, c.full, c.layout.usable_rounds.ge, c.layout.guard_le)

      pub constructed-Inv : Inv x.cursor s
      constructed-Inv =
          Reach-Inv first_cursor_small first_cursor_multiple reach (omega (arith, fits)) asked

      -- The cursor is still above the guard pages.
      pub cursor_above : floor c.layout.guard x.storage ≤ s.shared.cursor
      cursor_above = omega (arith, fits, constructed-Inv.lowered)

      used-reserved : used_bytes s.shared ≡ s.reserved
      unfolding used_bytes
      used-reserved =
          let laid = LaidOut-IsLaid os laws c.layout in
          let stays = Reach-storage reach in
          ap (downward_pool_used_bytes s.shared.cursor) stays
          ∙ used_bytes_laid s.shared.cursor laid (omega (arith, cursor_above))
              (omega (arith, c.full, constructed-Inv.lowered))
          ∙ omega (arith, c.full, constructed-Inv.lowered)

      Within-accessible :
          (b : Block) (a : ℕ)
          → Within s.shared.cursor x.cursor b
          → b.address ≤ a
          → a < b.address + b.bytes
          → accessible q.system a ≡ true
      Within-accessible b a (lo, hi) ge lt =
          layout-accessible os laws c.layout a (omega (arith, cursor_above, lo, ge))
            (omega (arith, c.full, hi, lt))

      -- Threads call `allocate` on a NonblockingDownwardPool just constructed, of a system whose pages are at
      -- least 16 bytes. In every state that they reach while their reservations fit the asked size, and all
      -- that they have asked for are alignments that are powers of two and sizes that do not wrap around
      -- when the alignment and 16 are added, all
      -- bytes of the returned blocks and of those of calls under way can be read and written, no two of
      -- these blocks overlap, those of calls under way are aligned, and used_bytes answers the bytes
      -- reserved.
      pub threads_accessible :
          ((k : ℕ) (b : Block) (a : ℕ)
            → get_elem? s.returned_blocks k ≡ some b
            → b.address ≤ a
            → a < b.address + b.bytes
            → accessible q.system a ≡ true)
          × ((k l : ℕ) (b d : Block)
              → k ≢ l
              → get_elem? s.returned_blocks k ≡ some b
              → get_elem? s.returned_blocks l ≡ some d
              → Apart b d)
          × ((i k e : ℕ) (r : Request) (b : Block)
              → s.pc i ≡ fetched e r
              → get_elem? s.returned_blocks k ≡ some b
              → Apart (block_at e r) b)
          × ((i e : ℕ) (r : Request)
              → s.pc i ≡ fetched e r
              → ((block_at e r).address % r.alignment ≡ 0)
                × ((a : ℕ)
                    → (block_at e r).address ≤ a
                    → a < (block_at e r).address + r.bytes
                    → accessible q.system a ≡ true))
          × ((i j e d : ℕ) (r t : Request)
              → i ≢ j
              → s.pc i ≡ fetched e r
              → s.pc j ≡ fetched d t
              → Apart (block_at e r) (block_at d t))
          × (used_bytes s.shared ≡ s.reserved)
      threads_accessible =
          let (_, apart, pending_apart, _) =
            threads_disjoint (floor c.layout.guard x.storage) first_cursor_small
              first_cursor_multiple reach fits asked in
          (
            λ k b a e. Within-accessible b a (constructed-Inv.done k b e),
            apart,
            pending_apart,
            λ i e r f.
                let (within, aligned) = constructed-Inv.pending i e r f in
                (aligned, λ a. Within-accessible (block_at e r) a within),
            constructed-Inv.pending_apart,
            used-reserved,
          )
