-- ===== src/String/Attach.antt =====
-- attach keeps the lists of owners.
use doost.Base.{ℕ, List, ◌+◌, ◌<◌, ◌≡◌, ◌≢◌, ◌%◌, true, false, arith}
use doost.String.{Store, block_of, attach, update}
use doost.String.Operations.{make_block}
use doost.String.Ring.{Linked, Headed, Ring}

-- A further owner of a live block.
module _ (s : Store) (r : Ring s) (this b : ℕ) (object : this ≢ 0) (free : block_of s this ≡ 0)
    (alive : s.live b ≡ true) where
  abbrev risen : ℕ → ℕ
  risen = update r.height this (r.height (s.first b) + 1)

  attach-after :
      (x : ℕ)
      → block_of (attach this b s) x ≢ 0
      → (attach this b s).next x ≢ 0
      → ((attach this b s).previous ((attach this b s).next x) ≡ x)
        × (block_of (attach this b s) ((attach this b s).next x) ≡ block_of (attach this b s) x)
        × (risen ((attach this b s).next x) < risen x)
  unfolding attach
  attach-after x own n = (
    ground (arith, r.linked x, r.headed b),
    ground (arith, r.linked x, r.headed b),
    ground (arith, r.linked x, r.headed b),
  )

  attach-Linked : (x : ℕ) → Linked (attach this b s) risen x
  unfolding attach
  attach-Linked x = record {
    detached = ground (arith, r.linked x, r.headed b);
    owns = ground (arith, r.linked x, r.headed b);
    top = ground (arith, r.linked x, r.headed b, r.linked (s.first b));
    before = ground (arith, r.linked x, r.headed b, r.linked (s.first b));
    after = attach-after x;
    bit = ground (arith, r.linked x, r.headed b, r.linked (s.first b));
  }

  attach-Headed : (c : ℕ) → Headed (attach this b s) c
  unfolding attach
  attach-Headed c = record {
    even = ground (arith, r.headed b, r.headed c);
    owner = ground (arith, r.headed b, r.headed c);
    block = ground (arith, r.headed b, r.headed c);
    top = ground (arith, r.headed b, r.headed c);
  }

  pub attach-Ring : Ring (attach this b s)
  unfolding attach
  attach-Ring = record {
    height = risen;
    bound = r.bound + 1;
    bounded = λ x. ground (arith, r.bounded x, r.bounded (s.first b));
    void = ground (arith, r.headed b, r.void);
    linked = attach-Linked;
    headed = attach-Headed;
  }

-- The first owner of a new block.
module _ (s : Store) (r : Ring s) (this b : ℕ) (value : List ℕ) (object : this ≢ 0)
    (free : block_of s this ≡ 0) (block : b ≢ 0) (even : b % 2 ≡ 0)
    (unused : s.live b ≡ false) where
  abbrev made : Store
  made = make_block b value s

  own_Linked : (x : ℕ) → Linked (attach this b made) r.height x
  unfolding attach
  own_Linked x = record {
    detached = ground (arith, r.linked x);
    owns = ground (arith, r.linked x);
    top = ground (arith, r.linked x);
    before = ground (arith, r.linked x, r.linked (s.previous x));
    after = ground (arith, r.linked x, r.linked (s.next x));
    bit = ground (arith, r.linked x);
  }

  own_Headed : (c : ℕ) → Headed (attach this b made) c
  unfolding attach
  own_Headed c = record {
    even = ground (arith, r.headed c);
    owner = ground (arith, r.headed c);
    block = ground (arith, r.headed c);
    top = ground (arith, r.headed c);
  }

  pub own_Ring : Ring (attach this b made)
  unfolding attach
  own_Ring = record {
    height = r.height;
    bound = r.bound;
    bounded = r.bounded;
    void = ground (arith, r.void);
    linked = own_Linked;
    headed = own_Headed;
  }
