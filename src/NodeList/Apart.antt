-- ===== src/NodeList/Apart.antt =====
-- List objects beside each other: what clear and the loop of a copy leave of the others.
use doost.Base.{
  ℕ, suc, ◌<◌, ◌≡◌, refl, ap, ◌∙◌, subst, true, false, ◌||◌, ◌==◌, arith, List, [], ◌∷◌, length,
  none, some, Bool-cases, inl, inr,
}
use doost.NodeList.{Heap, Handle}
use doost.NodeList.Cells.{has, Chain, Holds, Chain-agree, free-has}
use doost.NodeList.Clear.{Freed, clear-Freed}
use doost.NodeList.Copy.{no_nodes}
use doost.NodeList.Copied.{Emptied}
use doost.NodeList.Objects.{Store, put_nodes, clear_object}

module _ {A : Type 0} where
  -- No address is in both.
  abbrev pub Apart : (cs ds : List (ℕ × A)) → Type 0
  Apart cs ds = (b : ℕ) → has b cs ≡ true → has b ds ≡ false

  pub Holds-agree :
      (h g : Heap A) (l : Handle) (cs : List (ℕ × A))
      → ((b : ℕ) → has b cs ≡ true → g b ≡ h b)
      → Holds h l cs
      → Holds g l cs
  Holds-agree h g l cs same holds = (Chain-agree h g l.head cs same holds.0, holds.1)

  pub Freed-Holds :
      (h g : Heap A) (l : Handle) (cs ds : List (ℕ × A))
      → Freed h ds g
      → Apart cs ds
      → Holds h l cs
      → Holds g l cs
  Freed-Holds h g l cs ds freed apart = Holds-agree h g l cs (λ b i. freed.outside b (apart b i))

  -- The cells of a list that is there, and those that have come later.
  pub new-Apart :
      (h : Heap A) (l : Handle) (cs ds : List (ℕ × A))
      → ((b : ℕ) → has b ds ≡ true → h b ≡ none)
      → Holds h l cs
      → Apart cs ds
  new-Apart h l cs ds new holds b i = elim (Bool-cases (has b ds)) [
    | inl later ↦ absurd (ground (arith, i, free-has h b l.head cs (new b later) holds.0))
    | inr not_later ↦ not_later
  ]

  -- The nodes of a list whose values have been moved are still its nodes.
  pub Emptied-Chain :
      (h g : Heap A) (p : ℕ) (cs : List (ℕ × A))
      → Chain h p cs
      → ((b : ℕ) → has b cs ≡ true → Emptied (h b) (g b))
      → (ds : List (ℕ × A)) × Chain g p ds
        × ((b : ℕ) → has b ds ≡ has b cs)
        × (length ds ≡ length cs)
  Emptied-Chain h g p [] e left = ([], e, λ b. refl, refl)
  Emptied-Chain h g p (c ∷ cs) (next, e, object, at, distinct, rest) left =
      let (x, there) = subst (λ o. Emptied o (g c.0)) at (left c.0 (ground arith)) in
      let (ds, chain, listed, count) =
        Emptied-Chain h g next cs rest (λ b i. left b (ground (arith, i))) in
      (
        (c.0, x) ∷ ds,
        (next, e, object, there, listed c.0 ∙ distinct, chain),
        λ b. ap (λ t. c.0 == b || t) (listed b),
        ap suc count,
      )

module _ {A Alloc : Type 0} where
  pub clear_object-Freed :
      (fuel this : ℕ) (s : Store A Alloc) (cs : List (ℕ × A))
      → Holds s.heap (s.objects this).nodes cs
      → length cs < fuel
      → (g : Heap A) × (clear_object fuel this s
          ≡ some (record (put_nodes this no_nodes s) { heap = g }))
        × Freed s.heap cs g
  unfolding clear_object
  clear_object-Freed fuel this s cs holds enough =
      let (g, run, freed) = clear-Freed fuel (s.objects this).nodes s.heap cs holds enough in
      (g, rw run refl, freed)
