-- ===== src/NodeList/Contents.antt =====
-- What include/doost/list.hpp promises of a program of operations: each List object is a sequence of
-- values of its own.
use doost.Base.{
  ℕ, ◌≡◌, ◌≢◌, ap, arith, Bool-cases, inl, inr, if◌then◌else◌, ◌==◌, List, [], ◌∷◌, length, Outcome,
  returned, thrown, out_of_range,
}
use doost.NodeList.Programs.{Operation, emplace, pop, clear_all, copy_to, move_to}

abbrev pub Contents : Type 0 → Type 0
Contents A = ℕ → List A

module _ {A : Type 0} where
  abbrev pub put_content : Contents A → ℕ → List A → Contents A
  put_content f this xs u = if u == this then xs else f u

  abbrev pub without_first : List A → List A
  without_first [] = []
  without_first (x ∷ xs) = xs

  unfoldable pub completed : Operation A → Contents A → Contents A
  completed (emplace this x) f = put_content f this (x ∷ f this)
  completed (pop this) f = put_content f this (without_first (f this))
  completed (clear_all this) f = put_content f this []
  completed (copy_to this other) f = put_content f this (f other)
  completed (move_to this other) f =
      if this == other then f else put_content (put_content f other []) this (f other)

  -- An empty list has no front to pop.
  unfoldable pub Defined : Operation A → Contents A → Type 0
  Defined (pop this) f = f this ≢ []
  Defined o f = Unit

  -- Where an operation throws, every list keeps its values, but a move assignment that throws may have
  -- moved from values of the other list, which keeps its length.
  unfoldable pub Described : Operation A → Outcome ℕ → Contents A → Contents A → Type 0
  unfolding completed Defined
  Described o (returned r) f g = Defined o f × ((u : ℕ) → g u ≡ completed o f u)
  Described (pop this) (thrown e) f g = (f this ≡ []) × (e ≡ out_of_range) × ((u : ℕ) → g u ≡ f u)
  Described (clear_all this) (thrown e) f g = ⊥
  Described (move_to this other) (thrown e) f g =
      ((u : ℕ) → u ≢ other → g u ≡ f u) × (length (g other) ≡ length (f other))
  Described o (thrown e) f g = (u : ℕ) → g u ≡ f u

  unfoldable pub DescribedAll :
      List (Operation A) → List (Outcome ℕ) → Contents A → Contents A → Type 0
  unfolding Described
  DescribedAll [] [] f g = (u : ℕ) → g u ≡ f u
  DescribedAll (o ∷ os) (answer ∷ answers) f g =
      (h : Contents A) × Described o answer f h × DescribedAll os answers h g
  DescribedAll os answers f g = ⊥

  pub put_same : (f : Contents A) (this u : ℕ) → put_content f this (f this) u ≡ f u
  put_same f this u = elim (Bool-cases (u == this)) [
    | inl here ↦ rw here (ap f (ground (arith, here)))
    | inr away ↦ ground (arith, away)
  ]
