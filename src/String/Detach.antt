-- ===== src/String/Detach.antt =====
-- detach keeps the lists of owners, and frees a block with its last owner.
use doost.Base.{
  ℕ, sym, ◌∙◌, ◌+◌, ◌≤◌, ◌<◌, ◌≡◌, ◌≢◌, refl, Bool, true, false, ◌==◌, ◌&&◌, not, if◌then◌else◌,
  arith,
}
use doost.String.{
  Store, block_of, unique_bit, detach, unlink, mark_single, delete_block, trace_release,
}
use doost.String.Ring.{Linked, Headed, Ring, only_owner}

-- What holds after an object is taken out of the list of the owners of `b`: the bit of one that is
-- left alone is not set yet.
record Unlinked (s : Store) (height : ℕ → ℕ) (b x : ℕ) : Type 0 where
  pub detached : block_of s x ≡ 0 → (s.tagged x ≡ 0) × (s.previous x ≡ 0) × (s.next x ≡ 0)
  pub owns : block_of s x ≢ 0 → s.live (block_of s x) ≡ true
  pub top : block_of s x ≢ 0 → s.previous x ≡ 0 → s.first (block_of s x) ≡ x
  pub before :
      block_of s x ≢ 0
      → s.previous x ≢ 0
      → (s.next (s.previous x) ≡ x) × (block_of s (s.previous x) ≡ block_of s x)
  pub after :
      block_of s x ≢ 0
      → s.next x ≢ 0
      → (s.previous (s.next x) ≡ x)
        × (block_of s (s.next x) ≡ block_of s x)
        × (height (s.next x) < height x)
  pub bit :
      block_of s x ≢ 0
      → block_of s x ≢ b
      → unique_bit (s.tagged x) ≡ (s.previous x == 0 && s.next x == 0)
  pub bit_before : block_of s x ≢ 0 → s.previous x ≢ 0 → unique_bit (s.tagged x) ≡ false
  pub bit_after : block_of s x ≢ 0 → s.next x ≢ 0 → unique_bit (s.tagged x) ≡ false

mark_single-Ring :
    (s : Store) (height : ℕ → ℕ) (bound b : ℕ)
    → ((x : ℕ) → height x ≤ bound)
    → s.tagged 0 ≡ 0
    → ((x : ℕ) → Unlinked s height b x)
    → ((c : ℕ) → Headed s c)
    → s.live b ≡ true
    → Ring (mark_single b s)
mark_single-Ring s height bound b bounded void unlinked headed alive = record {
  height = height;
  bound = bound;
  bounded = bounded;
  void = ground (arith, headed b);
  linked = λ x. record {
    detached = ground (arith, unlinked x, headed b);
    owns = ground (arith, unlinked x);
    top = ground (arith, unlinked x);
    before = ground (arith, unlinked x);
    after = ground (arith, unlinked x);
    bit = ground (arith, unlinked x, headed b);
  };
  headed = λ c. record {
    even = ground (arith, headed c);
    owner = ground (arith, headed c);
    block = ground (arith, headed c);
    top = ground (arith, headed c);
  };
}

module _ (s : Store) (r : Ring s) (this b : ℕ) (own : b ≢ 0) (at : block_of s this ≡ b) where
  -- One of several owners goes.
  unlink-Unlinked :
      (s.previous this ≡ 0 → s.next this ≢ 0) → (x : ℕ) → Unlinked (unlink this b s) r.height b x
  unlink-Unlinked several x = record {
    detached = ground (arith, r.linked x, r.linked this);
    owns = ground (arith, r.linked x, r.linked this);
    top = ground (arith, r.linked x, r.linked this);
    before = ground (arith, r.linked x, r.linked this);
    after = ground (arith, r.linked x, r.linked this);
    bit = ground (arith, r.linked x, r.linked this);
    bit_before = ground (arith, r.linked x, r.linked this);
    bit_after = ground (arith, r.linked x, r.linked this);
  }

  unlink-Headed : (s.previous this ≡ 0 → s.next this ≢ 0) → (c : ℕ) → Headed (unlink this b s) c
  unlink-Headed several c = record {
    even = ground (arith, r.headed c);
    owner = ground (arith, r.headed c, r.linked this);
    block = ground (arith, r.headed c, r.linked this);
    top = ground (arith, r.headed c, r.linked this);
  }

  unlink-first :
      (unlink this b s).first b ≡ (if s.previous this == 0 then s.next this else s.first b)
  unlink-first = ground arith

  -- The last owner goes, and the block with it.
  module _ (debug : Bool) (none_before : s.previous this ≡ 0) (none_after : s.next this ≡ 0) where
    abbrev freed : Store
    freed = delete_block b (trace_release debug b (unlink this b s))

    was_sole : (x : ℕ) → block_of s x ≡ b → x ≡ this
    was_sole x e =
        only_owner r this x (r.bound + 1) (ground (arith, at)) (e ∙ sym at) none_before none_after
          (omega arith)

    freed-Linked : (x : ℕ) → Linked freed r.height x
    freed-Linked x = record {
      detached = ground (arith, r.linked x, was_sole x);
      owns = ground (arith, r.linked x, was_sole x);
      top = ground (arith, r.linked x, was_sole x);
      before = ground (arith, r.linked x, was_sole x);
      after = ground (arith, r.linked x, was_sole x);
      bit = ground (arith, r.linked x, was_sole x);
    }

    freed-Headed : (c : ℕ) → Headed freed c
    freed-Headed c = record {
      even = ground (arith, r.headed c);
      owner = ground (arith, r.headed c);
      block = ground (arith, r.headed c);
      top = ground (arith, r.headed c);
    }

    freed-Ring : Ring freed
    freed-Ring = record {
      height = r.height;
      bound = r.bound;
      bounded = r.bounded;
      void = ground (arith, r.void);
      linked = freed-Linked;
      headed = freed-Headed;
    }

if-Ring :
    (c d : Bool) {s t u : Store}
    → (c ≡ true → Ring s)
    → (c ≡ false → d ≡ true → Ring t)
    → (c ≡ false → d ≡ false → Ring u)
    → Ring (if c then s else if d then t else u)
if-Ring true d f g h = f refl
if-Ring false true f g h = g refl refl
if-Ring false false f g h = h refl refl

-- Whatever object is detached, the lists of owners stay in order.
pub detach-Ring : (s : Store) (debug : Bool) (this : ℕ) → Ring s → Ring (detach debug this s)
unfolding detach
detach-Ring s debug this r =
    let b = block_of s this in
    if-Ring (b == 0) ((unlink this b s).first b == 0) (λ _. r)
      (λ some gone.
        let own : b ≢ 0 = ground (arith, some) in
        freed-Ring s r this b own refl debug (ground (arith, gone, r.headed b, r.linked this))
          (ground (arith, gone, r.headed b, r.linked this)))
      (λ some left.
        let own : b ≢ 0 = ground (arith, some) in
        let several : s.previous this ≡ 0 → s.next this ≢ 0 = λ p. ground (arith, left, p) in
        mark_single-Ring (unlink this b s) r.height r.bound b r.bounded
          (ground (arith, r.void, own)) (unlink-Unlinked s r this b own refl several)
          (unlink-Headed s r this b own refl several) (ground (arith, (r.linked this).owns own)))

-- Where the lists of owners are in order, detaching an object frees a block exactly when it is that
-- of the object and the object has the bit.
pub live-detach :
    (s : Store) (debug : Bool) (this c : ℕ)
    → Ring s
    → (detach debug this s).live c
      ≡ (s.live c && not (c == block_of s this && unique_bit (s.tagged this)))
unfolding detach
live-detach s debug this c r = ground (arith, r.linked this, (r.headed (block_of s this)).owner)
