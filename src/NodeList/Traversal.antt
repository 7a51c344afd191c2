-- ===== src/NodeList/Traversal.antt =====
-- The iterators of a list from begin to end.
use doost.Base.{
  ℕ, zero, suc, ◌≤◌, ◌≡◌, sym, ap, ◌∙◌, subst, true, false, not, ◌==◌, arith, List, [], ◌∷◌, length,
  get_elem?, Option, none, some,
}
use doost.NodeList.{Heap, Handle, node_next, next_of}
use doost.NodeList.Cells.{Chain, Holds}
use doost.NodeList.Filling.{values}
use doost.NodeList.Iterators.{
  Iterator, ConstIterator, begin, deref, arrow, const_arrow, size, increment, unequal, const_begin,
  const_deref, const_increment, const_unequal, node_value, end, const_end,
}

module _ {A : Type 0} (h : Heap A) where
  -- The iterator after a number of increments.
  abbrev pub incremented : ℕ → Iterator → Iterator
  incremented zero it = it
  incremented (suc n) it = incremented n (increment h it)

  abbrev pub const_incremented : ℕ → ConstIterator → ConstIterator
  const_incremented zero it = it
  const_incremented (suc n) it = const_incremented n (const_increment h it)

  -- The iterators are at the value, or at the end of the list.
  abbrev pub At : Handle → Iterator → ConstIterator → Option A → Type 0
  At l it const_it (some x) =
      (unequal it (end l) ≡ true)
      × (const_unequal const_it (const_end l) ≡ true)
      × (deref h it ≡ some x)
      × (arrow h it ≡ some x)
      × (const_deref h const_it ≡ some x)
      × (const_arrow h const_it ≡ some x)
  At l it const_it none =
      (unequal it (end l) ≡ false) × (const_unequal const_it (const_end l) ≡ false)

  abbrev AtAfter : Handle → ℕ → ℕ → Option A → Type 0
  AtAfter l n p =
      At l (incremented n (record { node = p })) (const_incremented n (record { node = p }))

  incremented-Chain :
      (l : Handle) (n p : ℕ) (cs : List (ℕ × A))
      → Chain h p cs
      → n ≤ length cs
      → AtAfter l n p (get_elem? (values cs) n)
  unfolding deref arrow const_arrow increment const_deref const_increment
  incremented-Chain l zero p [] e below = (ground (arith, e), ground (arith, e))
  incremented-Chain l (suc n) p [] e below = absurd (omega (arith, below))
  incremented-Chain l zero p (c ∷ cs) (next, e, object, at, distinct, rest) below =
      let there = ap (λ q. node_value (h q)) e ∙ ap node_value at in
      let away : (p == 0) ≡ false = ground (arith, e, object) in
      (ap not away, ap not away, there, there, there, there)
  incremented-Chain l (suc n) p (c ∷ cs) (next, e, object, at, distinct, rest) below =
      subst (λ q. AtAfter l n q (get_elem? (values cs) n))
        (sym (ap (next_of h) e ∙ ap node_next at))
        (incremented-Chain l n next cs rest (omega (arith, below)))

  -- After at most as many increments as the list has values, the iterator from begin is at the value
  -- with that index and unequal to end, or there is none and it is equal to end; and so with a
  -- const_iterator.
  pub incremented-begin :
      (n : ℕ) (l : Handle) (cs : List (ℕ × A))
      → Holds h l cs
      → n ≤ size l
      → At l
          (incremented n (begin l))
          (const_incremented n (const_begin l))
          (get_elem? (values cs) n)
  incremented-begin n l cs (chain, count) below =
      incremented-Chain l n l.head cs chain (omega (arith, below, count))
