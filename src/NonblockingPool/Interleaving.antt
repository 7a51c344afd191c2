-- ===== src/NonblockingPool/Interleaving.antt =====
-- Whatever the interleaving, no two calls get overlapping blocks.
use doost.Base.{
  ℕ, zero, suc, ◌+◌, ◌-◌, ◌%◌, ◌≤◌, ◌<◌, ◌≡◌, ◌≢◌, refl, ap, arith, ◌∷◌, some, get_elem?, All,
}
use doost.Word.{word_mod, sub_word, multiple_sub}
use doost.Blocks.{Request, Block, Apart}
use doost.NonblockingPool.{NonblockingPool, cursor_alignment, fetch_sub}
use doost.NonblockingPool.Reservation.{
  IsAsked, reserved_by, block_at, block_at-inside, reservation_lem,
}
use doost.NonblockingPool.Threads.{
  outside, fetched, System, update, Step, fetch, finish, Reach, start, later,
}

-- A block between two addresses.
abbrev pub Within : ℕ → ℕ → Block → Type 0
Within lo hi b = (lo ≤ b.address) × (b.address + b.bytes ≤ hi)

-- The invariant of the threads on a pool whose cursor started at `top`.
pub record Inv (top : ℕ) (s : System) : Type 0 where
  pub lowered : s.shared.cursor + s.reserved ≡ top
  pub multiple : s.shared.cursor % cursor_alignment ≡ 0
  pub pending :
      (i c : ℕ) (r : Request)
      → s.pc i ≡ fetched c r
      → Within s.shared.cursor top (block_at c r) × ((block_at c r).address % r.alignment ≡ 0)
  pub done :
      (k : ℕ) (b : Block) → get_elem? s.returned_blocks k ≡ some b → Within s.shared.cursor top b
  pub pending_apart :
      (i j c d : ℕ) (r q : Request)
      → i ≢ j
      → s.pc i ≡ fetched c r
      → s.pc j ≡ fetched d q
      → Apart (block_at c r) (block_at d q)
  pub pending_done :
      (i k c : ℕ) (r : Request) (b : Block)
      → s.pc i ≡ fetched c r
      → get_elem? s.returned_blocks k ≡ some b
      → Apart (block_at c r) b
  pub done_apart :
      (k l : ℕ) (b c : Block)
      → k ≢ l
      → get_elem? s.returned_blocks k ≡ some b
      → get_elem? s.returned_blocks l ≡ some c
      → Apart b c

module _ {top : ℕ} (s : System) (inv : Inv top s) where
  open inv use {lowered, multiple, pending, done, pending_apart, pending_done, done_apart}

  module _ (i : ℕ) (r : Request) (asked : IsAsked r) (room : s.reserved + reserved_by r ≤ top)
      (small : top < word_mod) where
    -- The block of the call that fetches now lies between the new cursor and the old one.
    new_block :
        ((block_at s.shared.cursor r).address % r.alignment ≡ 0)
        × (s.shared.cursor - reserved_by r ≤ (block_at s.shared.cursor r).address)
        × ((block_at s.shared.cursor r).address + r.bytes ≤ s.shared.cursor)
    new_block =
        block_at-inside s.shared.cursor r asked multiple (omega (arith, lowered))
          (omega (arith, lowered))

    fetch-Inv :
        s.pc i ≡ outside
        → Inv top (record {
          shared = (fetch_sub r.bytes r.alignment s.shared).1;
          pc = update s.pc i (fetched (fetch_sub r.bytes r.alignment s.shared).0 r);
          returned_blocks = s.returned_blocks;
          requests = r ∷ s.requests;
          reserved = s.reserved + reserved_by r;
        })
    unfolding fetch_sub
    fetch-Inv out = record {
      lowered = omega (arith, lower, lowered);
      multiple = rw lower (multiple_sub cursor_alignment _ _ multiple (reservation_lem r asked).0);
      pending = λ j c q e. ground (arith, lower, lowered, new_block, pending j c q);
      done = λ k b e. ground (arith, lower, done k b);
      pending_apart = λ j k c d q t ne e f.
          ground (arith, new_block, pending j c q, pending k d t, pending_apart j k c d q t);
      pending_done = λ j k c q b e f. ground (arith, new_block, done k b, pending_done j k c q b);
      done_apart = done_apart;
    }
      where
        lower : sub_word s.shared.cursor (reserved_by r) ≡ s.shared.cursor - reserved_by r
        lower = omega (arith, lowered)

  finish-Inv :
      (i current : ℕ) (r : Request)
      → s.pc i ≡ fetched current r
      → Inv top (record s {
        pc = update s.pc i outside;
        returned_blocks = block_at current r ∷ s.returned_blocks;
      })
  finish-Inv i current r e = record {
    lowered = lowered;
    multiple = multiple;
    pending = λ j c q f. ground (arith, pending j c q);
    done = finish-done;
    pending_apart = λ j k c d q t ne f g. ground (arith, pending_apart j k c d q t);
    pending_done = finish-pending_done;
    done_apart = finish-done_apart;
  }
    where
      finish-done :
          (k : ℕ) (b : Block)
          → get_elem? (block_at current r ∷ s.returned_blocks) k ≡ some b
          → Within s.shared.cursor top b
      finish-done zero b f = ground (arith, pending i current r e)
      finish-done (suc k) b f = done k b f

      finish-pending_done :
          (j k c : ℕ) (q : Request) (b : Block)
          → update s.pc i outside j ≡ fetched c q
          → get_elem? (block_at current r ∷ s.returned_blocks) k ≡ some b
          → Apart (block_at c q) b
      finish-pending_done j zero c q b f g = ground (arith, pending_apart j i c current q r)
      finish-pending_done j (suc k) c q b f g = ground (arith, pending_done j k c q b)

      finish-done_apart :
          (k l : ℕ) (b c : Block)
          → k ≢ l
          → get_elem? (block_at current r ∷ s.returned_blocks) k ≡ some b
          → get_elem? (block_at current r ∷ s.returned_blocks) l ≡ some c
          → Apart b c
      finish-done_apart zero zero b c ne f g = absurd (ne refl)
      finish-done_apart zero (suc l) b c ne f g = ground (arith, pending_done i l current r c)
      finish-done_apart (suc k) zero b c ne f g = ground (arith, pending_done i k current r b)
      finish-done_apart (suc k) (suc l) b c ne f g = done_apart k l b c (λ h. ne (ap suc h)) f g

-- A step of the threads keeps the invariant while the reservations fit below `top` and the requests are
-- for a power of two and a size that does not wrap around.
pub Step-Inv :
    {top : ℕ} {s t : System}
    → top < word_mod
    → Step s t
    → t.reserved ≤ top
    → All IsAsked t.requests
    → Inv top s
    → Inv top t
Step-Inv {s} small (fetch i r out) room asked inv = fetch-Inv s inv i r asked.0 room small out
Step-Inv {s} small (finish i c r e) room asked inv = finish-Inv s inv i c r e

Step-reserved : {s t : System} → Step s t → s.reserved ≤ t.reserved
Step-reserved (fetch i r out) = omega arith
Step-reserved (finish i c r e) = omega arith

Step-requests : {s t : System} → Step s t → All IsAsked t.requests → All IsAsked s.requests
Step-requests (fetch i r out) asked = asked.1
Step-requests (finish i c r e) asked = asked

pub Reach-Inv :
    {p : NonblockingPool} {s : System}
    → p.cursor < word_mod
    → p.cursor % cursor_alignment ≡ 0
    → Reach p s
    → s.reserved ≤ p.cursor
    → All IsAsked s.requests
    → Inv p.cursor s
Reach-Inv small multiple start room asked = record {
  lowered = omega arith;
  multiple = multiple;
  pending = λ i c r e. cc;
  done = λ k b e. cc;
  pending_apart = λ i j c d r q ne e f. cc;
  pending_done = λ i k c r b e f. cc;
  done_apart = λ k l b c ne e f. cc;
}
Reach-Inv small multiple (later r st) room asked =
    Step-Inv small st room asked
      (Reach-Inv small multiple r (omega (arith, Step-reserved st)) (Step-requests st asked))

-- In every state that the threads reach with requests for a power of two and a size that does not wrap
-- around, while their reservations fit between `floor` and the first cursor, the returned blocks lie between the two, no two of them overlap, none overlaps the block of
-- a call still under way, and the block of a call under way is aligned as asked.
pub threads_disjoint :
    {p : NonblockingPool} {s : System} (floor : ℕ)
    → p.cursor < word_mod
    → p.cursor % cursor_alignment ≡ 0
    → Reach p s
    → floor + s.reserved ≤ p.cursor
    → All IsAsked s.requests
    → ((k : ℕ) (b : Block)
        → get_elem? s.returned_blocks k ≡ some b
        → (floor ≤ b.address) × (b.address + b.bytes ≤ p.cursor))
      × ((k l : ℕ) (b c : Block)
          → k ≢ l
          → get_elem? s.returned_blocks k ≡ some b
          → get_elem? s.returned_blocks l ≡ some c
          → Apart b c)
      × ((i k c : ℕ) (r : Request) (b : Block)
          → s.pc i ≡ fetched c r
          → get_elem? s.returned_blocks k ≡ some b
          → Apart (block_at c r) b)
      × ((i c : ℕ) (r : Request) → s.pc i ≡ fetched c r → (block_at c r).address % r.alignment ≡ 0)
threads_disjoint {p} {s} floor small multiple reach room asked =
    let inv = Reach-Inv small multiple reach (omega arith) asked in
    (
      λ k b e. let (lo, hi) = inv.done k b e in (omega (arith, inv.lowered), hi),
      inv.done_apart,
      inv.pending_done,
      λ i c r e. (inv.pending i c r e).1,
    )
