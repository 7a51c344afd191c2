-- ===== src/NodeList/Described.antt =====
-- What each operation on List objects does to their values: include/doost/list.hpp.
use doost.Base.{
  ℕ, ◌≡◌, ◌≢◌, refl, sym, ap, ◌∙◌, subst, true, false, arith, List, [], ◌∷◌, length, ◌==◌, Outcome,
  returned, thrown, Exception, out_of_range,
}
use doost.NodeList.Steps.{either, PopAnswered}
use doost.NodeList.Contents.{
  Contents, put_content, without_first, put_same, Described, completed, Defined,
}
use doost.NodeList.Programs.{emplace, pop, clear_all, copy_to, move_to}

module _ {A : Type 0} (f : Contents A) where
  -- A move from another list is described by the values that both have afterwards.
  pub moved-Described :
      (this other : ℕ)
      → this ≢ other
      → (r : ℕ) (g : Contents A)
      → ((u : ℕ) → g u ≡ put_content (put_content f other []) this (f other) u)
      → Described (move_to this other) (returned r) f g
  unfolding Described completed Defined
  moved-Described this other apart r g now =
      let different : (this == other) ≡ false = ground (arith, apart) in
      (tt, λ u. rw different (now u))

  pub unmoved-Described :
      (this other : ℕ)
      → this ≢ other
      → (e : Exception) (zs : List A) (g : Contents A)
      → ((u : ℕ) → g u ≡ put_content (put_content f other zs) this (f this) u)
      → length zs ≡ length (f other)
      → Described (move_to this other) (thrown e) f g
  unfolding Described
  unmoved-Described this other apart e zs g now count = (
    λ u away. now u ∙ kept_elsewhere u away,
    ap length (now other ∙ ground (arith, apart)) ∙ count,
  )
    where
      kept_elsewhere :
          (u : ℕ) → u ≢ other → put_content (put_content f other zs) this (f this) u ≡ f u
      kept_elsewhere u away = ground (arith, away, put_same f this u)

  pub emplaced-Described :
      (this : ℕ) (x : A) (r : Outcome ℕ) (g : Contents A)
      → ((u : ℕ) → g u ≡ put_content f this (either r (x ∷ f this) (f this)) u)
      → Described (emplace this x) r f g
  unfolding Described completed Defined
  emplaced-Described this x (returned r) g now = (tt, now)
  emplaced-Described this x (thrown e) g now = λ u. now u ∙ put_same f this u

  pub popped-Described :
      (this : ℕ) (r : Outcome ℕ) (g : Contents A)
      → ((u : ℕ) → g u ≡ put_content f this (without_first (f this)) u)
      → PopAnswered (f this) r
      → Described (pop this) r f g
  unfolding Described completed Defined
  popped-Described this (returned r) g now answered =
      ((λ empty. subst (λ vs. PopAnswered vs (returned r)) empty answered), now)
  popped-Described this (thrown e) g now answered = popped (f this) refl answered
    where
      popped :
          (vs : List A)
          → f this ≡ vs
          → PopAnswered vs (thrown e)
          → (f this ≡ []) × (e ≡ out_of_range) × ((u : ℕ) → g u ≡ f u)
      popped [] empty is = (
        empty,
        is,
        λ u.
            now u
            ∙ ap (λ vs. put_content f this vs u) (ap without_first empty ∙ sym empty)
            ∙ put_same f this u,
      )
      popped (x ∷ xs) some_front is = absurd is

  pub cleared-Described :
      (this : ℕ) (g : Contents A)
      → ((u : ℕ) → g u ≡ put_content f this [] u)
      → Described (clear_all this) (returned this) f g
  unfolding Described completed Defined
  cleared-Described this g now = (tt, now)

  pub copied-Described :
      (this other : ℕ) (r : Outcome ℕ) (g : Contents A)
      → ((u : ℕ) → g u ≡ put_content f this (either r (f other) (f this)) u)
      → Described (copy_to this other) r f g
  unfolding Described completed Defined
  copied-Described this other (returned r) g now = (tt, now)
  copied-Described this other (thrown e) g now = λ u. now u ∙ put_same f this u

  pub self_copied-Described :
      (this other : ℕ) → this ≡ other → Described (copy_to this other) (returned this) f f
  unfolding Described completed Defined
  self_copied-Described this other same =
      (tt, λ u. sym (put_same f this u) ∙ ap (λ o. put_content f this (f o) u) same)

  pub self_moved-Described :
      (this other : ℕ) → this ≡ other → Described (move_to this other) (returned this) f f
  unfolding Described completed Defined
  self_moved-Described this other same =
      (tt, λ u. let is : (this == other) ≡ true = ground (arith, same) in rw is refl)
