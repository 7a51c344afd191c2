-- ===== src/String/Moves.antt =====
-- move_from and swap keep the lists of owners: both give two objects each other's places.
use doost.Base.{
  ℕ, subst, Bool-cases, inl, inr, sym, ◌≡◌, ◌≢◌, refl, Bool, true, false, ◌==◌, ◌&&◌, not,
  if◌then◌else◌, arith,
}
use doost.String.{Store, block_of, move_from, swap, replace_owner}
use doost.String.Ring.{Linked, Headed, Ring}

-- Two addresses change places.
abbrev pub exchange : (a b : ℕ) → ℕ → ℕ
exchange a b x = if x == a then b else if x == b then a else x

-- The objects of `t` are those of `s` under the addresses that `a` and `b` have exchanged.
pub record Exchanged (s t : Store) (a b : ℕ) : Type 0 where
  pub tagged : (x : ℕ) → t.tagged x ≡ s.tagged (exchange a b x)
  pub previous : (x : ℕ) → t.previous x ≡ exchange a b (s.previous (exchange a b x))
  pub next : (x : ℕ) → t.next x ≡ exchange a b (s.next (exchange a b x))
  pub first : (c : ℕ) → s.live c ≡ true → t.first c ≡ exchange a b (s.first c)
  pub live : (c : ℕ) → t.live c ≡ s.live c

module _ (s t : Store) (r : Ring s) (a b : ℕ) (object : a ≢ 0) (other_object : b ≢ 0)
    (e : Exchanged s t a b) where
  Exchanged-Linked : (x : ℕ) → Linked t (λ y. r.height (exchange a b y)) x
  Exchanged-Linked x =
      let y = exchange a b x in
      record {
        detached = ground (arith, r.linked y, e.tagged x, e.previous x, e.next x);
        owns = ground (arith, r.linked y, e.tagged x, e.live (block_of s y));
        top = ground (arith, r.linked y, e.tagged x, e.previous x, e.first (block_of s y));
        before = ground (
          arith,
          r.linked y,
          e.tagged x,
          e.previous x,
          e.next (t.previous x),
          e.tagged (t.previous x),
        );
        after =
            ground
              (arith, r.linked y, e.tagged x, e.next x, e.previous (t.next x), e.tagged (t.next x));
        bit = ground (arith, r.linked y, e.tagged x, e.previous x, e.next x);
      }

  Exchanged-Headed : (c : ℕ) → Headed t c
  Exchanged-Headed c = record {
    even = ground (arith, r.headed c, e.live c);
    owner = ground (arith, r.headed c, e.live c, e.first c);
    block = ground (arith, r.headed c, e.live c, e.first c, e.tagged (t.first c));
    top = ground (arith, r.headed c, e.live c, e.first c, e.previous (t.first c));
  }

  Exchanged-Ring : Ring t
  Exchanged-Ring = record {
    height = λ y. r.height (exchange a b y);
    bound = r.bound;
    bounded = λ x. r.bounded (exchange a b x);
    void = ground (arith, r.void, e.tagged 0);
    linked = Exchanged-Linked;
    headed = Exchanged-Headed;
  }

-- Who stands before, after and at the head of what, seen from the other side.
module _ (s : Store) (r : Ring s) where
  previous-next : (x a : ℕ) → a ≢ 0 → (s.previous x == a) ≡ (not (s.next a == 0) && x == s.next a)
  previous-next x a object = ground (arith, r.linked x, r.linked a, r.void)

  next-previous :
      (x a : ℕ) → a ≢ 0 → (s.next x == a) ≡ (not (s.previous a == 0) && x == s.previous a)
  next-previous x a object = ground (arith, r.linked x, r.linked a, r.void)

  first-previous :
      (c a : ℕ) → s.live c ≡ true → (s.first c == a) ≡ (block_of s a == c && s.previous a == 0)
  first-previous c a alive = ground (arith, r.headed c, r.linked a)

  no_loop : (a : ℕ) → a ≢ 0 → (s.next a ≢ a) × (s.previous a ≢ a)
  no_loop a object = ground (arith, r.linked a)

  free_apart : (x a : ℕ) → a ≢ 0 → block_of s a ≡ 0 → (s.next x ≢ a) × (s.previous x ≢ a)
  free_apart x a object free = ground (arith, r.linked x)

  lists_apart :
      (a b : ℕ) → b ≢ 0 → block_of s a ≢ block_of s b → (s.next a ≢ b) × (s.previous a ≢ b)
  lists_apart a b object differ = ground (arith, r.linked a)

-- `this` owns no block and takes over from `other`.
pub move_from-Exchanged :
    (s : Store) (r : Ring s) (this other : ℕ)
    → this ≢ 0
    → other ≢ 0
    → block_of s this ≡ 0
    → this ≢ other
    → Exchanged s (move_from this other s) this other
unfolding move_from replace_owner
move_from-Exchanged s r this other object other_object free distinct =
    let (t₀, p₀, n₀) = (r.linked this).detached free in
    record {
      tagged = λ x. ground arith;
      previous = λ x. ground (
        arith,
        previous-next s r x this object,
        previous-next s r x other other_object,
        free_apart s r other this object free,
        no_loop s r other other_object,
        (r.linked other).detached,
      );
      next = λ x. ground (
        arith,
        next-previous s r x this object,
        next-previous s r x other other_object,
        free_apart s r other this object free,
        no_loop s r other other_object,
        (r.linked other).detached,
      );
      first = λ c alive.
          ground
            (arith, first-previous s r c this alive, first-previous s r c other alive, r.headed c);
      live = λ c. ground arith;
    }

pub swap-Exchanged :
    (s : Store) (r : Ring s) (this other : ℕ)
    → this ≢ 0
    → other ≢ 0
    → block_of s this ≢ block_of s other
    → Exchanged s (swap this other s) this other
unfolding swap replace_owner
swap-Exchanged s r this other object other_object differ = record {
  tagged = λ x. ground arith;
  previous = λ x. ground (
    arith,
    previous-next s r x this object,
    previous-next s r x other other_object,
    no_loop s r this object,
    no_loop s r other other_object,
    lists_apart s r this other other_object differ,
    lists_apart s r other this object (λ e. differ (sym e)),
    (r.linked this).detached,
    (r.linked other).detached,
  );
  next = λ x. ground (
    arith,
    next-previous s r x this object,
    next-previous s r x other other_object,
    no_loop s r this object,
    no_loop s r other other_object,
    lists_apart s r this other other_object differ,
    lists_apart s r other this object (λ e. differ (sym e)),
    (r.linked this).detached,
    (r.linked other).detached,
  );
  first = λ c alive.
      ground (arith, first-previous s r c this alive, first-previous s r c other alive, r.headed c);
  live = λ c. ground arith;
}

swap-same :
    (s : Store) (this other : ℕ) → block_of s this ≡ block_of s other → swap this other s ≡ s
unfolding swap replace_owner
swap-same s this other same =
    stays (this == other) {d = block_of s this == block_of s other} _ (ground (arith, same))
  where
    stays : (c : Bool) {d : Bool} (t : Store) → d ≡ true → (if c then s else if d then s else t) ≡ s
    stays true t e = refl
    stays false t e = rw e refl

-- Two owners of different blocks change places; two of one block, or one and itself, stay.
pub swap-Ring :
    (s : Store) (r : Ring s) (this other : ℕ) → this ≢ 0 → other ≢ 0 → Ring (swap this other s)
swap-Ring s r this other object other_object =
    elim (Bool-cases (block_of s this == block_of s other)) [
      | inl same ↦ subst Ring (sym (swap-same s this other (ground (arith, same)))) r
      | inr differ ↦
          Exchanged-Ring s (swap this other s) r this other object other_object
            (swap-Exchanged s r this other object other_object (ground (arith, differ)))
    ]

pub move_from-Ring :
    (s : Store) (r : Ring s) (this other : ℕ)
    → this ≢ 0
    → other ≢ 0
    → block_of s this ≡ 0
    → this ≢ other
    → Ring (move_from this other s)
move_from-Ring s r this other object other_object free distinct =
    Exchanged-Ring s (move_from this other s) r this other object other_object
      (move_from-Exchanged s r this other object other_object free distinct)
