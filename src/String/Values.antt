-- ===== src/String/Values.antt =====
-- What the operations do to the values of the strings: that blocks are shared cannot be seen.
use doost.Base.{
  ℕ, ◌≡◌, ◌≢◌, ◌%◌, Bool, true, ◌==◌, ◌||◌, if◌then◌else◌, arith, List, Option, none, some, inl,
  inr, Bool-cases, subst,
}
use doost.String.{Store, block_of, pointer, attach, detach}
use doost.String.Text.{c_string}
use doost.String.Operations.{assign_copy, copy_construct}
use doost.String.Ring.{Ring}
use doost.String.Attach.{attach-Ring}
use doost.String.Detach.{detach-Ring}

pub block_of-attach :
    (s : Store) (this b x : ℕ)
    → b % 2 ≡ 0
    → block_of (attach this b s) x ≡ (if x == this then b else block_of s x)
unfolding attach
block_of-attach s this b x even = ground arith

pub chars-attach : (s : Store) (this b c : ℕ) → (attach this b s).chars c ≡ s.chars c
unfolding attach
chars-attach s this b c = ground arith

pub block_of-detach :
    (s : Store) (debug : Bool) (this x : ℕ)
    → block_of (detach debug this s) x ≡ (if x == this then 0 else block_of s x)
unfolding detach
block_of-detach s debug this x = ground arith

pub chars-detach :
    (s : Store) (debug : Bool) (this c : ℕ) → (detach debug this s).chars c ≡ s.chars c
unfolding detach
chars-detach s debug this c = ground arith

-- Attaching to nullptr changes nothing that matters.
attach_null-Ring :
    (s : Store) (r : Ring s) (this : ℕ) → this ≢ 0 → block_of s this ≡ 0 → Ring (attach this 0 s)
unfolding attach
attach_null-Ring s r this object free = record {
  height = r.height;
  bound = r.bound;
  bounded = r.bounded;
  void = ground (arith, r.void);
  linked = λ x. record {
    detached = ground (arith, r.linked x);
    owns = ground (arith, r.linked x);
    top = ground (arith, r.linked x);
    before = ground (arith, r.linked x, (r.linked this).detached);
    after = ground (arith, r.linked x, (r.linked this).detached);
    bit = ground (arith, r.linked x);
  };
  headed = λ c. record {
    even = ground (arith, r.headed c);
    owner = ground (arith, r.headed c);
    block = ground (arith, r.headed c);
    top = ground (arith, r.headed c, (r.linked this).detached);
  };
}

attach_shared-Ring :
    (s : Store) (r : Ring s) (this b : ℕ)
    → this ≢ 0
    → block_of s this ≡ 0
    → (b ≢ 0 → s.live b ≡ true)
    → Ring (attach this b s)
attach_shared-Ring s r this b object free alive = elim (Bool-cases (b == 0)) [
  | inl absent ↦
      subst (λ c. Ring (attach this c s)) (ground (arith, absent))
        (attach_null-Ring s r this object free)
  | inr present ↦ attach-Ring s r this b object free (alive (ground (arith, present)))
]

-- The value of a string: what it holds, or none.
abbrev pub value : Store → ℕ → Option (List ℕ)
value s x = if block_of s x == 0 then none else some (c_string (s.chars (block_of s x)))

pub value-attach :
    (s : Store) (this b x : ℕ)
    → b % 2 ≡ 0
    → value (attach this b s) x
      ≡ (if x == this then if b == 0 then none else some (c_string (s.chars b)) else value s x)
value-attach s this b x even =
    ground
      (arith, block_of-attach s this b x even, chars-attach s this b (block_of (attach this b s) x))

pub value-detach :
    (s : Store) (debug : Bool) (this x : ℕ)
    → value (detach debug this s) x ≡ (if x == this then none else value s x)
value-detach s debug this x = ground (
  arith,
  block_of-detach s debug this x,
  chars-detach s debug this (block_of (detach debug this s) x),
)

pointer_even : (t : ℕ) → pointer t % 2 ≡ 0
pointer_even t = omega arith

-- A copy has the value of the other, every other string keeps its value.
pub copy_construct-value :
    (s : Store) (this other : ℕ)
    → Ring s
    → this ≢ 0
    → block_of s this ≡ 0
    → Ring (copy_construct this other s)
      × ((x : ℕ)
          → value (copy_construct this other s) x
            ≡ (if x == this then value s other else value s x))
unfolding copy_construct
copy_construct-value s this other r object free = (
  attach_shared-Ring s r this (block_of s other) object free (r.linked other).owns,
  λ x. value-attach s this (block_of s other) x (pointer_even (s.tagged other)),
)

-- A copy assignment gives the value of the other, every other string keeps its value; the block of
-- the other is there until it is attached to.
pub assign_copy-value :
    (debug : Bool) (s : Store) (this other : ℕ)
    → Ring s
    → this ≢ 0
    → Ring (assign_copy debug this other s)
      × ((x : ℕ)
          → value (assign_copy debug this other s) x
            ≡ (if x == this then value s other else value s x))
unfolding assign_copy
assign_copy-value debug s this other r object =
    elim (Bool-cases (this == other || block_of s this == block_of s other)) [
      | inl stays ↦ rw stays (r, λ x. ground (arith, stays))
      | inr goes ↦ rw goes (
        attach_shared-Ring (detach debug this s) (detach-Ring s debug this r) this
            (block_of s other) object (ground (arith, block_of-detach s debug this this))
            (ground (
              arith,
              goes,
              ((detach-Ring s debug this r).linked other).owns,
              block_of-detach s debug this other,
            )),
        λ x. ground (
          arith,
          goes,
          value-attach (detach debug this s) this (block_of s other) x
              (pointer_even (s.tagged other)),
          value-detach s debug this x,
          chars-detach s debug this (block_of s other),
        ),
      )
    ]
