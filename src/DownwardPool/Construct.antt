-- ===== src/DownwardPool/Construct.antt =====
-- A pool from its construction to its blocks, and the sizes that it reports.
use doost.Base.{
  ℕ, ◌+◌, ◌-◌, ◌≤◌, ◌<◌, ◌≡◌, ◌∙◌, true, false, List, arith, pos, dec_lt, Outcome, returned, thrown,
  get_elem?, some, subst,
}
use native.Mathlib.Nat.{mod_self, zero-mod}
use doost.Word.{word_mod, power_pos, multiple_gap}
use doost.Posix.{Posix, PosixLaws}
use doost.Storage.{Storage, Process}
use doost.Storage.Make.{LaidOut, RoundsUp, make-Made, Made}
use doost.Blocks.{Block, Request, Aligned, demand, Answers}
use doost.DownwardPool.{DownwardPool, start_pool, construct, usable_bytes}
use doost.DownwardPool.Room.{IsLaid, floor, ceiling, mapping_end_laid}
use doost.DownwardPool.Allocate.{IsPool, allocate_all, allocate_all-Answers}

module _ (os : Posix) (laws : PosixLaws os) where
  open os use {State, sysconf_page_size, regions, accessible}
  open laws use {page, page_power}

  -- A pool just constructed.
  pub record Constructed (usable max_alloc : ℕ) (p : Process os) (x : DownwardPool) (q : Process os)
      : Type 0 where
    pub layout : LaidOut os laws usable max_alloc p x.storage q
    pub ready : IsPool page layout.guard x
    pub full : x.cursor ≡ ceiling x.storage

  abbrev pub Construction :
      (usable max_alloc : ℕ) → Process os → Outcome DownwardPool × Process os → Type 0
  Construction usable max_alloc p (returned x, q) = Constructed usable max_alloc p x q
  Construction usable max_alloc p (thrown e, q) =
      (regions q.system ≡ regions p.system) × (q.registry ≡ p.registry)

  pub LaidOut-IsLaid :
      {usable max_alloc : ℕ} {p q : Process os} {s : Storage}
      (l : LaidOut os laws usable max_alloc p s q)
      → IsLaid page l.guard s
  LaidOut-IsLaid l = record {
    begin_pos = l.begin_pos;
    begin_page = l.begin_page;
    guard_page = l.guard_rounds.multiple;
    guard_le = l.guard_le;
    in_space = l.in_space;
  }

  start_pool-Constructed :
      (usable max_alloc : ℕ) (p : Process os) (r : Outcome Storage × Process os)
      → Made os laws usable max_alloc p r
      → Construction usable max_alloc p (start_pool os r)
  unfolding start_pool
  start_pool-Constructed usable max_alloc p (returned s, q) l =
      let laid = LaidOut-IsLaid l in
      record {
        layout = l;
        ready = record {
          laid = laid;
          above = omega (arith, mapping_end_laid laid, l.guard_le);
          below = omega (arith, mapping_end_laid laid);
        };
        full = mapping_end_laid laid;
      }
  start_pool-Constructed usable max_alloc p (thrown e, q) h = h

  module _ (usable max_alloc : ℕ) (p : Process os) (usable_small : usable + page ≤ word_mod)
      (max_alloc_small : max_alloc + page ≤ word_mod) where
    pub construct-Construction : Construction usable max_alloc p (construct os usable max_alloc p)
    unfolding construct
    construct-Construction =
        start_pool-Constructed usable max_alloc p _
          (make-Made os laws usable max_alloc p usable_small max_alloc_small)

  -- An address between the guard pages and the end of a new mapping can be read and written.
  pub layout-accessible :
      {usable max_alloc : ℕ} {p q : Process os} {s : Storage}
      (l : LaidOut os laws usable max_alloc p s q) (a : ℕ)
      → floor l.guard s ≤ a
      → a < ceiling s
      → accessible q.system a ≡ true
  layout-accessible l a ge lt = l.access a ∙ ground arith

  -- From construction to use: requests that the asked size can hold get disjoint aligned blocks, and
  -- every byte of every block can be read and written.
  pub construct-allocate_all :
      {usable max_alloc : ℕ} {p q : Process os} {x : DownwardPool} (rs : List Request)
      (c : Constructed usable max_alloc p x q)
      → Aligned rs
      → demand rs ≤ usable
      → let bs = (allocate_all rs x).0 in
        Answers (floor c.layout.guard x.storage) (ceiling x.storage) rs bs
        × ((i : ℕ) (b : Block) (a : ℕ)
            → get_elem? bs i ≡ some b
            → b.address ≤ a
            → a < b.address + b.bytes
            → accessible q.system a ≡ true)
  construct-allocate_all {x} rs c aligned room =
      let answers =
        subst (λ hi. Answers (floor c.layout.guard x.storage) hi rs (allocate_all rs x).0) c.full
          (allocate_all-Answers rs x c.ready aligned
            (omega (arith, c.full, c.layout.usable_rounds.ge, c.layout.guard_le))).0 in
      (
        answers,
        λ i b a e ge lt.
            let (lo, hi) = answers.inside i b e in
            layout-accessible c.layout a (omega arith) (omega arith),
      )

  -- What `usable_bytes` answers where sysconf works: the mapping without one page.
  usable_bytes-page :
      (x : DownwardPool) (s : State)
      → (sysconf_page_size s).0 ≡ pos page
      → page ≤ x.storage.mapping_bytes
      → usable_bytes os s x ≡ x.storage.mapping_bytes - page
  unfolding usable_bytes
  usable_bytes-page x s e le = rw e (ground (arith, power_pos page_power))

  page_guard :
      {max_alloc guard : ℕ}
      → RoundsUp page max_alloc guard
      → 0 < max_alloc
      → max_alloc ≤ page
      → guard ≡ page
  page_guard {guard} g positive small = elim (dec_lt page guard) [
    | yes lt ↦
        absurd (omega (arith, g.close, multiple_gap page page guard (mod_self page) g.multiple lt))
    | no ge ↦
        omega
          (arith, g.ge, multiple_gap page 0 guard (zero-mod page) g.multiple (omega (arith, g.ge)))
  ]

  -- For requests of 1 to `page` bytes, `usable_bytes` is the asked size rounded up to whole pages.
  usable_bytes-construct :
      {usable max_alloc : ℕ} {p q : Process os} {x : DownwardPool} (s : State)
      → Constructed usable max_alloc p x q
      → (sysconf_page_size s).0 ≡ pos page
      → 0 < max_alloc
      → max_alloc ≤ page
      → RoundsUp page usable (usable_bytes os s x)
  usable_bytes-construct {usable} {x} s c e positive small =
      let one_page = page_guard c.layout.guard_rounds positive small in
      subst (RoundsUp page usable)
        (omega (
          arith,
          one_page,
          c.layout.guard_le,
          usable_bytes-page x s e (omega (arith, one_page, c.layout.guard_le)),
        ))
        c.layout.usable_rounds

  -- Where a request may be larger than a page, the guard pages are several, and `usable_bytes` takes
  -- off one: the lowest address that it counts as usable is in a guard page.
  pub usable_bytes-guarded :
      {usable max_alloc : ℕ} {p q : Process os} {x : DownwardPool} (s : State)
      → Constructed usable max_alloc p x q
      → (sysconf_page_size s).0 ≡ pos page
      → page < max_alloc
      → accessible q.system (ceiling x.storage - usable_bytes os s x) ≡ false
  usable_bytes-guarded {x} s c e large =
      let known =
        usable_bytes-page x s e (omega (arith, c.layout.guard_le, c.layout.guard_rounds.ge)) in
      let lowest : ceiling x.storage - usable_bytes os s x ≡ x.storage.mapping_begin + page =
        omega (arith, known, c.layout.guard_le, c.layout.guard_rounds.ge) in
      rw lowest (
        c.layout.access (x.storage.mapping_begin + page) ∙ ground (arith, c.layout.guard_rounds.ge))
