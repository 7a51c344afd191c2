-- ===== src/NodeList/Append.antt =====
-- A cell put behind the last one of a list.
use doost.Base.{
  ℕ, ◌≡◌, ◌≢◌, refl, sym, ap, ◌∙◌, true, false, ◌||◌, arith, List, [], ◌∷◌, ◌++◌, Option, none,
  some,
}
use doost.NodeList.{Node, Heap}
use doost.NodeList.Cells.{has, Chain}

the_last : {c t : ℕ} → some c ≡ some t → c ≡ t
the_last e = ground (arith, e)

module _ {A : Type 0} where
  abbrev pub last_of : List (ℕ × A) → Option ℕ
  last_of [] = none
  last_of (c ∷ []) = some c.0
  last_of (c ∷ d ∷ cs) = last_of (d ∷ cs)

  pub has_apart : (a b : ℕ) (cs : List (ℕ × A)) → has a cs ≡ true → has b cs ≡ false → a ≢ b
  has_apart a b cs i o e = cc (ap (λ c. has c cs) e)

  pub has-append : (a : ℕ) (cs ds : List (ℕ × A)) → has a (cs ++ ds) ≡ (has a cs || has a ds)
  has-append a [] ds = refl
  has-append a (c ∷ cs) ds = ground (arith, has-append a cs ds)

  pub last_of-append : (cs : List (ℕ × A)) (c : ℕ × A) → last_of (cs ++ c ∷ []) ≡ some c.0
  last_of-append [] c = refl
  last_of-append (d ∷ []) c = refl
  last_of-append (d ∷ e ∷ cs) c = last_of-append (e ∷ cs) c

  pub last_of-cons : (c : ℕ × A) (cs : List (ℕ × A)) → (t : ℕ) × (last_of (c ∷ cs) ≡ some t)
  last_of-cons c [] = (c.0, refl)
  last_of-cons c (d ∷ cs) = last_of-cons d cs

  pub has-last_of :
      (c : ℕ × A) (cs : List (ℕ × A)) (t : ℕ) → last_of (c ∷ cs) ≡ some t → has t (c ∷ cs) ≡ true
  has-last_of c [] t e = ground (arith, e)
  has-last_of c (d ∷ cs) t e = ground (arith, has-last_of d cs t e)

  -- `g` is `h` with a new node behind the last one.
  pub record Linked (h g : Heap A) (cs : List (ℕ × A)) (t a : ℕ) (x : A) : Type 0 where
    pub object : a ≢ 0
    pub apart : has a cs ≡ false
    pub new : g a ≡ some (record { next = 0; value = x })
    pub link : (n : Node A) → h t ≡ some n → g t ≡ some (record n { next = a })
    pub same : (b : ℕ) → has b cs ≡ true → b ≢ t → g b ≡ h b

  Linked-tail :
      {h g : Heap A} {c : ℕ × A} {cs : List (ℕ × A)} {t a : ℕ} {x : A}
      → Linked h g (c ∷ cs) t a x
      → Linked h g cs t a x
  Linked-tail {c} {cs} {a} l = record {
    object = l.object;
    apart = ground (arith, l.apart);
    new = l.new;
    link = l.link;
    same = λ b i ne. l.same b (ground (arith, i)) ne;
  }

  pub Chain-append :
      (h g : Heap A) (p : ℕ) (c : ℕ × A) (cs : List (ℕ × A)) (t a : ℕ) (x : A)
      → last_of (c ∷ cs) ≡ some t
      → Chain h p (c ∷ cs)
      → Linked h g (c ∷ cs) t a x
      → Chain g p ((c ∷ cs) ++ (a, x) ∷ [])
  Chain-append h g p c [] t a x last (next, e, object, at, distinct, rest) l = (
    a,
    e,
    object,
    ap g (the_last last) ∙ l.link _ (ap h (sym (the_last last)) ∙ at),
    ground (arith, l.apart),
    (0, refl, l.object, l.new, refl, refl),
  )
  Chain-append h g p c (d ∷ cs) t a x last (next, e, object, at, distinct, rest) l = (
    next,
    e,
    object,
    l.same c.0 (ground arith)
          (λ same. has_apart t c.0 (d ∷ cs) (has-last_of d cs t last) distinct (sym same))
        ∙ at,
    rw (has-append c.0 (d ∷ cs) ((a, x) ∷ [])) (ground (arith, l.apart, distinct)),
    Chain-append h g next d cs t a x last rest (Linked-tail l),
  )
