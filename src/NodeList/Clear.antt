-- ===== src/NodeList/Clear.antt =====
-- What clear leaves of the heap.
use doost.Base.{
  ℕ, zero, suc, ◌<◌, ◌≡◌, refl, ap, ◌∙◌, false, ◌==◌, arith, List, [], ◌∷◌, length, Bool-cases, inl,
  inr, true, none, some,
}
use doost.NodeList.{Heap, Handle, destroy_node, next_of, node_next, clear_nodes, clear, cleared}
use doost.NodeList.Cells.{Chain, Holds, Chain-put_node, has}

module _ {A : Type 0} where
  -- The heap `g` after the cells are given back.
  pub record Freed (h : Heap A) (cs : List (ℕ × A)) (g : Heap A) : Type 0 where
    pub inside : (a : ℕ) → has a cs ≡ true → g a ≡ none
    pub outside : (a : ℕ) → has a cs ≡ false → g a ≡ h a

  Freed-destroy_node :
      (h g : Heap A) (c : ℕ × A) (cs : List (ℕ × A))
      → has c.0 cs ≡ false
      → Freed (destroy_node c.0 h) cs g
      → Freed h (c ∷ cs) g
  Freed-destroy_node h g c cs distinct f = record {
    inside = λ a i. elim (Bool-cases (has a cs)) [
      | inl later ↦ f.inside a later
      | inr only ↦ f.outside a only ∙ ground (arith, i, only)
    ];
    outside = λ a o. f.outside a (ground (arith, o)) ∙ ground (arith, o);
  }

  clear_nodes-Freed :
      (fuel p : ℕ) (h : Heap A) (cs : List (ℕ × A))
      → Chain h p cs
      → length cs < fuel
      → (g : Heap A) × (clear_nodes fuel p h ≡ some g) × Freed h cs g
  unfolding clear_nodes
  clear_nodes-Freed zero p h cs chain enough = absurd (omega arith)
  clear_nodes-Freed (suc fuel) p h [] chain enough =
      rw chain (h, refl, record { inside = λ a i. cc; outside = λ a o. refl })
  clear_nodes-Freed (suc fuel) p h (c ∷ cs) (next, e, object, at, distinct, rest) enough =
      let present : (p == 0) ≡ false = ground (arith, e, object) in
      let after : next_of h p ≡ next = ap (next_of h) e ∙ ap node_next at in
      let (g, run, freed) =
        clear_nodes-Freed fuel next (destroy_node c.0 h) cs
          (Chain-put_node h c.0 next none cs distinct rest) (omega (arith, enough)) in
      (g, rw (present, after, e) run, Freed-destroy_node h g c cs distinct freed)

  -- With more fuel than nodes, clear ends with an empty list; every node of it is given back, and
  -- nothing else in the heap has changed.
  pub clear-Freed :
      (fuel : ℕ) (l : Handle) (h : Heap A) (cs : List (ℕ × A))
      → Holds h l cs
      → length cs < fuel
      → (g : Heap A) × (clear fuel l h ≡ some (record { head = 0; size = 0 }, g)) × Freed h cs g
  unfolding clear
  clear-Freed fuel l h cs (chain, _) enough =
      let (g, run, freed) = clear_nodes-Freed fuel l.head h cs chain enough in
      (g, ap cleared run, freed)
