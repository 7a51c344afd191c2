-- ===== src/NodeList/Ends.antt =====
-- How each operation on List objects ends: include/doost/list.hpp.
use doost.Base.{
  ==_iff, ℕ, suc, ◌<◌, ◌≤◌, ◌≡◌, refl, ap, Bool, true, arith, List, [], length, Option, some,
  if◌then◌else◌, ℕ_discrete, Outcome, returned,
}
use doost.Word.{word_mod}
use doost.NodeList.{Heap}
use doost.NodeList.Cells.{Fresh}
use doost.NodeList.Objects.{Traits, Store, copy_assign, move_assign}
use doost.NodeList.CopyObjects.{copy_assign-CopyAssigned}
use doost.NodeList.MoveAssign.{move_assign-MoveAssigned}
use doost.NodeList.Owned.{Owned}
use doost.NodeList.Steps.{Kept, clear_at-ChangedOne, copied-ChangedOne}
use doost.NodeList.Described.{
  emplaced-Described, popped-Described, cleared-Described, copied-Described, self_copied-Described,
  self_moved-Described,
}
use doost.NodeList.FrontSteps.{emplaced-ChangedOne, pop_at-ChangedOne}
use doost.NodeList.Programs.{
  Operation, emplace, pop, clear_all, copy_to, move_to, emplace_at, perform,
}
use doost.NodeList.Done.{Done, contents, ChangedOne-Kept, moved-Done}

if_true : {X : Type 0} {c : Bool} {x : X} (y : X) → c ≡ true → (if c then x else y) ≡ x
if_true {x} y e = ap (λ c. if c then x else y) e

module _ {A Alloc : Type 0} (k : ℕ) (s : Store A Alloc) (cells : ℕ → List (ℕ × A))
    (w : Owned s cells) (few : (o : ℕ) → length (cells o) ≤ k) where
  module _ (traits : Traits A Alloc)
      (fresh : (a : Alloc) (h : Heap A) → Fresh h (traits.new_node a h)) (fuel : ℕ)
      (enough : suc k ≤ fuel) (small : suc k < word_mod) where
    -- How an operation ends.
    abbrev pub Ends : Operation A → Option (Outcome ℕ × Store A Alloc) → Type 0
    Ends o result =
        (r : Outcome ℕ × Store A Alloc) × (result ≡ some r) × Done k s cells w few o r.0 r.1

    self_copied :
        (this other : ℕ)
        → this ≡ other
        → copy_assign traits fuel this other s ≡ some (returned this, s)
    unfolding copy_assign
    self_copied this other e = if_true _ ((==_iff this other).1 e)

    self_moved :
        (this other : ℕ)
        → this ≡ other
        → move_assign traits fuel this other s ≡ some (returned this, s)
    unfolding move_assign
    self_moved this other e = if_true _ ((==_iff this other).1 e)

    abbrev still : Kept (suc k) s
    still = record { cells = cells; owned = w; bounded = λ o. omega (arith, few o) }

    copied-Ends :
        (this other : ℕ) → Ends (copy_to this other) (copy_assign traits fuel this other s)
    copied-Ends this other = elim (ℕ_discrete this other) [
      | yes same ↦ (
        _,
        self_copied this other same,
        (still, self_copied-Described (contents k s cells w few) this other same),
      )
      | no apart ↦
          let (r, run, assigned) =
            copy_assign-CopyAssigned traits fresh fuel this other s (cells this) (cells other) apart
              (w.holds this) (w.holds other) (omega (arith, small, few other))
              (omega (arith, enough, few other)) (omega (arith, enough, few this)) in
          let (kept, now) = ChangedOne-Kept k s cells w few this r.1 _ (
            copied-ChangedOne s (suc k) this (cells this) (cells other) (w.holds this)
              (omega (arith, few this)) (omega (arith, few other)) r assigned) in
          (r, run, (kept, copied-Described (contents k s cells w few) this other r.0 _ now))
    ]

    moved-Ends : (this other : ℕ) → Ends (move_to this other) (move_assign traits fuel this other s)
    moved-Ends this other = elim (ℕ_discrete this other) [
      | yes same ↦ (
        _,
        self_moved this other same,
        (still, self_moved-Described (contents k s cells w few) this other same),
      )
      | no apart ↦
          let (r, run, assigned) =
            move_assign-MoveAssigned traits fresh fuel this other s (cells this) (cells other) apart
              (w.holds this) (w.holds other) (w.apart this other apart)
              (omega (arith, small, few other)) (omega (arith, enough, few other))
              (omega (arith, enough, few this)) in
          (r, run, moved-Done k s cells w few traits this other apart r assigned)
    ]

    pub perform-Ends : (o : Operation A) → Ends o (perform traits fuel o s)
    unfolding perform emplace_at
    perform-Ends (emplace this x) =
        let (kept, now) = ChangedOne-Kept k s cells w few this _ _ (
          emplaced-ChangedOne s (suc k) this (cells this) (w.holds this) (omega (arith, few this))
            small (traits.new_node (s.objects this).allocator s.heap) x (fresh _ _)) in
        (_, refl, (kept, emplaced-Described (contents k s cells w few) this x _ _ now))
    perform-Ends (pop this) =
        let (changed, answered) =
          pop_at-ChangedOne s (suc k) this (cells this) (w.holds this) (omega (arith, few this))
            small in
        let (kept, now) = ChangedOne-Kept k s cells w few this _ _ changed in
        (_, refl, (kept, popped-Described (contents k s cells w few) this _ _ now answered))
    perform-Ends (clear_all this) =
        let (t, run, changed) =
          clear_at-ChangedOne s fuel (suc k) this (cells this) (w.holds this)
            (omega (arith, enough, few this)) in
        let (kept, now) = ChangedOne-Kept k s cells w few this t [] changed in
        ((returned this, t), run, (kept, cleared-Described (contents k s cells w few) this _ now))
    perform-Ends (copy_to this other) = copied-Ends this other
    perform-Ends (move_to this other) = moved-Ends this other
