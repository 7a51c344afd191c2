-- ===== src/MutexPool/Blocks.antt =====
-- The blocks that threads get from one MutexDownwardPool: include/doost/mutex_downward_pool.hpp.
use doost.Base.{
  ℕ, zero, suc, ◌+◌, ◌-◌, ◌%◌, ◌≤◌, ◌<◌, ◌≡◌, ◌≢◌, ◌⊎◌, refl, sym, ap, ◌∙◌, subst, Bool, true,
  false, arith, inl, inr, List, [], ◌∷◌, All, some, get_elem?,
}
use doost.Posix.{Posix, PosixLaws}
use doost.Storage.{Process}
use doost.Blocks.{Request, request, Block, block, Aligned, demand, Answers}
use doost.DownwardPool.{DownwardPool}
use doost.DownwardPool
use doost.DownwardPool.Room.{floor, ceiling}
use doost.DownwardPool.Allocate.{IsPool, allocate_lem}
use doost.DownwardPool.Construct.{Constructed, layout-accessible}
use doost.MutexPool.{
  Call, allocate, reset, release, usable_bytes, used_bytes, Answer, address, Protected, perform,
}
use doost.MutexPool.Threads.{Reach, System, in_turn, answers_in_turn}
use doost.MutexPool.Linear.{methods_in_turn}

-- What the calls have asked for, and the blocks that they have got.
unfoldable pub asked : List Call → List Request
asked [] = []
asked (allocate bytes alignment ∷ cs) = request bytes alignment ∷ asked cs
asked (c ∷ cs) = asked cs

unfoldable pub given : List Call → List Answer → List Block
given (allocate bytes alignment ∷ cs) (address a ∷ answers) = block a bytes ∷ given cs answers
given (c ∷ cs) (_ ∷ answers) = given cs answers
given _ _ = []

-- A call that takes no block back.
unfoldable pub keeps_blocks : Call → Bool
keeps_blocks reset = false
keeps_blocks release = false
keeps_blocks _ = true

wider-Answers :
    {lo hi low high : ℕ} {rs : List Request} {bs : List Block}
    → low ≤ lo
    → hi ≤ high
    → Answers lo hi rs bs
    → Answers low high rs bs
wider-Answers le ge a = record {
  answered = a.answered;
  inside = λ i b e. ground (arith, a.inside i b e);
  suits = a.suits;
  disjoint = a.disjoint;
}

-- A further block below the others.
below-Answers :
    {lo mid hi : ℕ} {rs : List Request} {bs : List Block} (r : Request) (b : Block)
    → Answers mid hi rs bs
    → b.bytes ≡ r.bytes
    → b.address % r.alignment ≡ 0
    → lo ≤ b.address
    → b.address + b.bytes ≤ mid
    → mid ≤ hi
    → Answers lo hi (r ∷ rs) (b ∷ bs)
below-Answers {lo} {mid} {hi} {rs} {bs} r b a size aligned above below le = record {
  answered = ap suc a.answered;
  inside = inside;
  suits = suits;
  disjoint = disjoint;
}
  where
    inside :
        (i : ℕ) (d : Block)
        → get_elem? (b ∷ bs) i ≡ some d
        → (lo ≤ d.address) × (d.address + d.bytes ≤ hi)
    inside zero d e = ground arith
    inside (suc i) d e = ground (arith, a.inside i d e)

    suits :
        (i : ℕ) (q : Request) (d : Block)
        → get_elem? (r ∷ rs) i ≡ some q
        → get_elem? (b ∷ bs) i ≡ some d
        → (d.bytes ≡ q.bytes) × (d.address % q.alignment ≡ 0)
    suits zero q d e f = ground arith
    suits (suc i) q d e f = a.suits i q d e f

    disjoint :
        (i j : ℕ) (d e : Block)
        → i ≢ j
        → get_elem? (b ∷ bs) i ≡ some d
        → get_elem? (b ∷ bs) j ≡ some e
        → (d.address + d.bytes ≤ e.address) ⊎ (e.address + e.bytes ≤ d.address)
    disjoint zero zero d e ne f g = absurd (ne refl)
    disjoint zero (suc j) d e ne f g = inl (ground (arith, a.inside j e g))
    disjoint (suc i) zero d e ne f g = inr (ground (arith, a.inside i d f))
    disjoint (suc i) (suc j) d e ne f g = a.disjoint i j d e (λ h. ne (ap suc h)) f g

module _ (os : Posix) (page guard : ℕ) where
  -- The calls so far have left a pool whose blocks lie above the cursor.
  record Standing (x : Protected os) (cs : List Call) : Type 0 where
    ready : IsPool page guard (in_turn os x cs).0
    storage : (in_turn os x cs).0.storage ≡ x.0.storage
    system : (in_turn os x cs).1 ≡ x.1
    room : x.0.cursor ≤ (in_turn os x cs).0.cursor + demand (asked cs)
    lower : (in_turn os x cs).0.cursor ≤ x.0.cursor
    blocks :
        Answers
          (in_turn os x cs).0.cursor
          x.0.cursor
          (asked cs)
          (given cs (answers_in_turn os x cs))

  standing :
      (x : Protected os) (cs : List Call)
      → IsPool page guard x.0
      → All (λ c. keeps_blocks c ≡ true) cs
      → Aligned (asked cs)
      → floor guard x.0.storage + demand (asked cs) ≤ x.0.cursor
      → Standing x cs
  unfolding in_turn answers_in_turn asked given keeps_blocks demand perform
  standing x [] is kept aligned room = record {
    ready = is;
    storage = refl;
    system = refl;
    room = omega arith;
    lower = omega arith;
    blocks = record {
      answered = refl;
      inside = λ i b e. cc;
      suits = λ i r b d e. cc;
      disjoint = λ i j b c ne d e. cc;
    };
  }
  standing x (allocate bytes alignment ∷ cs) is (_, kept) (power, aligned) room =
      let st = standing x cs is kept aligned (omega arith) in
      let y = (in_turn os x cs).0 in
      let (ready, multiple, above, ends, close, moved, stored) =
        allocate_lem y bytes alignment st.ready power (
          subst (λ s. floor guard s + bytes + (alignment - 1) ≤ y.cursor) (sym st.storage)
            (omega (arith, room, st.room))) in
      record {
        ready = ready;
        storage = stored ∙ st.storage;
        system = st.system;
        room = omega (arith, st.room, close, moved);
        lower = omega (arith, st.lower, ends, moved);
        blocks =
            below-Answers (request bytes alignment)
              (block (DownwardPool.allocate bytes alignment y).0 bytes) st.blocks refl multiple
              (omega (arith, moved)) ends st.lower;
      }
  standing x (reset ∷ cs) is kept aligned room = absurd (ground (arith, kept.0))
  standing x (release ∷ cs) is kept aligned room = absurd (ground (arith, kept.0))
  standing x (usable_bytes ∷ cs) is (_, kept) aligned room =
      let st = standing x cs is kept aligned room in
      record {
        ready = st.ready;
        storage = st.storage;
        system = st.system;
        room = st.room;
        lower = st.lower;
        blocks = st.blocks;
      }
  standing x (used_bytes ∷ cs) is (_, kept) aligned room =
      let st = standing x cs is kept aligned room in
      record {
        ready = st.ready;
        storage = st.storage;
        system = st.system;
        room = st.room;
        lower = st.lower;
        blocks = st.blocks;
      }

module _ (os : Posix) (laws : PosixLaws os) where
  open os use {accessible}

  -- Threads call methods of a MutexDownwardPool that was just constructed, interleaved in any order, none of
  -- them `reset` or `release` so far, with powers of two as alignments, and what they have asked for fits the
  -- asked size. In every state that they reach the answers are disjoint aligned blocks above the guard pages,
  -- of the sizes asked for, all of whose bytes can be read and written.
  pub threads-Answers :
      {usable max_alloc : ℕ} {p q : Process os} {x : DownwardPool} {s : System os}
      (c : Constructed os laws usable max_alloc p x q)
      → Reach os (x, q) s
      → All (λ c. keeps_blocks c ≡ true) s.history
      → Aligned (asked s.history)
      → demand (asked s.history) ≤ usable
      → let bs = given s.history s.answers in
        Answers (floor c.layout.guard x.storage) (ceiling x.storage) (asked s.history) bs
        × ((i : ℕ) (b : Block) (a : ℕ)
            → get_elem? bs i ≡ some b
            → b.address ≤ a
            → a < b.address + b.bytes
            → accessible s.shared.1.system a ≡ true)
  threads-Answers {q} {x} {s} c reach kept aligned room =
      let (_, shared, answers) = methods_in_turn os reach in
      let st =
        standing os laws.page c.layout.guard (x, q) s.history c.ready kept aligned
          (omega (arith, c.full, c.layout.usable_rounds.ge, c.layout.guard_le, room)) in
      let above =
        subst (λ t. floor c.layout.guard t ≤ (in_turn os (x, q) s.history).0.cursor) st.storage
          st.ready.above in
      let bs =
        subst (Answers (floor c.layout.guard x.storage) (ceiling x.storage) (asked s.history))
          (ap (given s.history) (sym answers))
          (wider-Answers above (omega (arith, c.full)) st.blocks) in
      (
        bs,
        λ i b a e ge lt.
            let (lo, hi) = bs.inside i b e in
            ap (λ t. accessible t.system a) (ap (λ t. t.1) shared ∙ st.system)
            ∙ layout-accessible os laws c.layout a (omega (arith, lo, ge)) (omega (arith, hi, lt)),
      )
