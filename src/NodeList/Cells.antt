-- ===== src/NodeList/Cells.antt =====
-- Which nodes a List object consists of, and its operations at the front.
use doost.Base.{
  ==_iff, ℕ, ◌+◌, ◌<◌, ◌≡◌, ◌≢◌, refl, sym, ap, subst, ◌∙◌, false, ◌==◌, arith, List, [], ◌∷◌,
  length, Bool, true, ◌||◌, Option, none, some, Outcome, returned, thrown, out_of_range, bad_alloc,
}
use doost.Word.{word_mod}
use doost.NodeList.{
  Node, Heap, Handle, Answer, made, no_memory, element_throws, put_node, destroy_node,
  emplace_front, pop_front, next_of, node_next,
}

module _ {A : Type 0} where
  -- Whether some cell is at the address.
  abbrev pub has : ℕ → List (ℕ × A) → Bool
  has a [] = false
  has a (c ∷ cs) = c.0 == a || has a cs

  -- From `p` the nodes lead through the cells, each an address and a value, to the null pointer; no
  -- address comes twice.
  abbrev pub Chain : Heap A → ℕ → List (ℕ × A) → Type 0
  Chain h p [] = p ≡ 0
  Chain h p (c ∷ cs) =
      (next : ℕ) × (p ≡ c.0)
      × (c.0 ≢ 0)
      × (h c.0 ≡ some (record { next = next; value = c.1 }))
      × (has c.0 cs ≡ false)
      × Chain h next cs

  -- A List object with the cells.
  abbrev pub Holds : Heap A → Handle → List (ℕ × A) → Type 0
  Holds h l cs = Chain h l.head cs × (l.size ≡ length cs)

  -- Only the nodes of the cells matter.
  pub Chain-agree :
      (h g : Heap A) (p : ℕ) (cs : List (ℕ × A))
      → ((a : ℕ) → has a cs ≡ true → g a ≡ h a)
      → Chain h p cs
      → Chain g p cs
  Chain-agree h g p [] same e = e
  Chain-agree h g p (c ∷ cs) same (next, e, object, at, distinct, rest) = (
    next,
    e,
    object,
    same c.0 (ground arith) ∙ at,
    distinct,
    Chain-agree h g next cs (λ a i. same a (ground (arith, i))) rest,
  )

  pub Chain-put_node :
      (h : Heap A) (a p : ℕ) (n : Option (Node A)) (cs : List (ℕ × A))
      → has a cs ≡ false
      → Chain h p cs
      → Chain (put_node a n h) p cs
  Chain-put_node h a p n cs out =
      Chain-agree h (put_node a n h) p cs (λ b i. elsewhere b i (b == a) refl)
    where
      elsewhere : (b : ℕ) → has b cs ≡ true → (t : Bool) → (b == a) ≡ t → put_node a n h b ≡ h b
      elsewhere b i true e = cc (ap (λ c. has c cs) ((==_iff b a).0 e))
      elsewhere b i false e = rw e refl

  -- An address that is free is in no cell.
  pub free-has :
      (h : Heap A) (a p : ℕ) (cs : List (ℕ × A)) → h a ≡ none → Chain h p cs → has a cs ≡ false
  free-has h a p [] free e = refl
  free-has h a p (c ∷ cs) free (next, _, _, at, _, rest) =
      ground (arith, free-has h a next cs free rest, at)

  -- What emplace_front leaves, by the answer of the allocator and the element's constructor: a new
  -- front, or the exception with the list and the heap as they were.
  abbrev pub Emplaced :
      Heap A → Handle → A → List (ℕ × A) → Answer → Outcome Handle × Heap A → Type 0
  Emplaced h l x cs (made a) (r, g) = (m : Handle) × (r ≡ returned m) × Holds g m ((a, x) ∷ cs)
  Emplaced h l x cs no_memory (r, g) = (r ≡ thrown bad_alloc) × ((b : ℕ) → g b ≡ h b)
  Emplaced h l x cs (element_throws a e) (r, g) = (r ≡ thrown e) × ((b : ℕ) → g b ≡ h b)

  -- The allocator hands out a free address.
  abbrev pub Fresh : Heap A → Answer → Type 0
  Fresh h (made a) = (a ≢ 0) × (h a ≡ none)
  Fresh h no_memory = Unit
  Fresh h (element_throws a e) = (a ≢ 0) × (h a ≡ none)

  -- emplace_front on a list whose size stays below 2 ^ 64 puts the new cell in front, or throws with
  -- list and heap as they were, whatever the allocator and the constructor answer.
  pub emplace_front-Emplaced :
      (answer : Answer) (x : A) (l : Handle) (h : Heap A) (cs : List (ℕ × A))
      → Holds h l cs
      → Fresh h answer
      → length cs + 1 < word_mod
      → Emplaced h l x cs answer (emplace_front answer x l h)
  unfolding emplace_front
  emplace_front-Emplaced (made a) x l h cs (chain, count) (object, free) fits = (
    _,
    refl,
    (
      (
        l.head,
        refl,
        object,
        ground arith,
        free-has h a l.head cs free chain,
        Chain-put_node h a l.head _ cs (free-has h a l.head cs free chain) chain,
      ),
      ground (arith, count, fits),
    ),
  )
  emplace_front-Emplaced no_memory x l h cs holds fresh fits = (refl, λ b. refl)
  emplace_front-Emplaced (element_throws a e) x l h cs holds (object, free) fits =
      (refl, λ b. ground (arith, free))

  -- What pop_front leaves: the other cells, with the first node given back; out_of_range on an empty
  -- list.
  abbrev pub Popped : Heap A → List (ℕ × A) → Outcome Handle × Heap A → Type 0
  Popped h [] (r, g) = (r ≡ thrown out_of_range) × (g ≡ h)
  Popped h (c ∷ cs) (r, g) = (m : Handle) × (r ≡ returned m) × Holds g m cs × (g c.0 ≡ none)

  -- pop_front takes the first cell off and gives its node back, or throws out_of_range on an empty
  -- list.
  pub pop_front-Popped :
      (l : Handle) (h : Heap A) (cs : List (ℕ × A))
      → Holds h l cs
      → length cs < word_mod
      → Popped h cs (pop_front l h)
  unfolding pop_front
  pop_front-Popped l h [] (chain, count) fits = rw chain (refl, refl)
  pop_front-Popped l h (c ∷ cs) ((next, e, object, at, distinct, rest), count) fits =
      let present : (l.head == 0) ≡ false = ground (arith, e, object) in
      let after : next_of h l.head ≡ next = ap (next_of h) e ∙ next_at in
      rw present (
        _,
        refl,
        (
          subst (λ q. Chain (destroy_node l.head h) q cs) (sym after)
              (Chain-put_node h l.head next none cs (subst (λ p. has p cs ≡ false) (sym e) distinct)
                rest),
          ground (arith, count, fits),
        ),
        ground (arith, e),
      )
    where
      next_at : next_of h c.0 ≡ next
      next_at = ap node_next at
