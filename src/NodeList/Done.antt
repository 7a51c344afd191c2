-- ===== src/NodeList/Done.antt =====
-- What an operation on List objects has done, from what has changed: include/doost/list.hpp.
use doost.Base.{
  ℕ, suc, ◌≤◌, ◌≡◌, ◌≢◌, refl, sym, ap, ◌∙◌, subst, arith, List, [], length, inl, inr, Outcome,
  Exception, returned, thrown, ◌==◌, Bool-cases,
}
use doost.NodeList.Cells.{Holds}
use doost.NodeList.Apart.{Holds-agree, Emptied-Chain}
use doost.NodeList.Objects.{Traits, Store}
use doost.NodeList.MoveObjects.{MoveAssigned}
use doost.NodeList.Owned.{Owned, Changed, put_cells, Changed-Owned}
use doost.NodeList.Steps.{Kept, ChangedOne, length-values}
use doost.NodeList.Filling.{values}
use doost.NodeList.Contents.{Contents, put_content, Described}
use doost.NodeList.Described.{moved-Described, unmoved-Described}
use doost.NodeList.Programs.{Operation, move_to}

module _ {A Alloc : Type 0} (k : ℕ) (s : Store A Alloc) (cells : ℕ → List (ℕ × A))
    (w : Owned s cells) (few : (o : ℕ) → length (cells o) ≤ k) where
  pub Changed-Kept :
      (this other : ℕ) (ds zs : List (ℕ × A)) (t : Store A Alloc)
      → Changed this other (cells this) (cells other) ds zs s t
      → length ds ≤ suc k
      → length zs ≤ suc k
      → (kept : Kept (suc k) t) × ((u : ℕ)
          → values (kept.cells u) ≡ values (put_cells this other ds zs cells u))
  Changed-Kept this other ds zs t c d z = (
    record {
      cells = put_cells this other ds zs cells;
      owned = Changed-Owned this other ds zs s t cells w c;
      bounded = λ o. ground (arith, d, z, few o);
    },
    λ u. refl,
  )

  -- The values before.
  abbrev pub contents : Contents A
  contents u = values (cells u)

  -- The store `t` after an operation that answers `r` and does to the values what is described.
  abbrev pub Done : Operation A → (r : Outcome ℕ) (t : Store A Alloc) → Type 0
  Done o r t = (kept : Kept (suc k) t) × Described o r contents (λ u. values (kept.cells u))

  pub ChangedOne-Kept :
      (this : ℕ) (t : Store A Alloc) (vs : List A)
      → ChangedOne (suc k) this (cells this) vs s t
      → (kept : Kept (suc k) t) × ((u : ℕ) → values (kept.cells u) ≡ put_content contents this vs u)
  ChangedOne-Kept this t vs (ds, c, d, same) =
      let (kept, now) = Changed-Kept this this ds ds t c d d in (kept, λ u. now u ∙ chosen u)
    where
      chosen : (u : ℕ) → values (put_cells this this ds ds cells u) ≡ put_content contents this vs u
      chosen u = elim (Bool-cases (u == this)) [ inl here ↦ rw here same | inr away ↦ rw away refl ]

  chosen_values :
      (this other : ℕ) (ds zs : List (ℕ × A)) (u : ℕ)
      → values (put_cells this other ds zs cells u)
        ≡ put_content (put_content contents other (values zs)) this (values ds) u
  chosen_values this other ds zs u = elim (Bool-cases (u == this)) [
    | inl here ↦ rw here refl
    | inr out ↦ elim (Bool-cases (u == other)) [
      | inl there ↦ rw (out, there) refl
      | inr away ↦ rw (out, away) refl
    ]
  ]

  moved_returned-Done :
      (traits : Traits A Alloc) (this other : ℕ)
      → this ≢ other
      → (r : ℕ) (t : Store A Alloc)
      → MoveAssigned traits this other (cells this) (cells other) s (returned r, t)
      → Done (move_to this other) (returned r) t
  moved_returned-Done traits this other apart r t (_, m) =
      let (kept, now) =
        Changed-Kept this other m.cells [] t
          (record {
            mine = m.list;
            theirs = (ap (λ l. l.head) m.other_empty, ap (λ l. l.size) m.other_empty);
            others = λ u out away. ap (λ o. o.nodes) (m.elsewhere u out away);
            disjoint = λ n b i. refl;
            one = λ e. absurd (apart e);
            new = λ b i. elim (m.origin b (ground (arith, i))) [
              | inl old ↦ inl (ground (arith, old))
              | inr free ↦ inr free
            ];
            freed = λ b i o. m.freed b i (ground (arith, o));
            outside = λ b i o. m.outside b i (ground (arith, o));
          })
          (omega (
            arith,
            few other,
            length-values m.cells,
            length-values (cells other),
            ap length m.same,
          ))
          (omega arith) in
      (
        kept,
        moved-Described contents this other apart r (λ u. values (kept.cells u))
            (λ u.
              now u
              ∙ chosen_values this other m.cells [] u
              ∙ ap (λ vs. put_content (put_content contents other []) this vs u) m.same),
      )

  moved_thrown-Done :
      (traits : Traits A Alloc) (this other : ℕ)
      → this ≢ other
      → (e : Exception) (t : Store A Alloc)
      → MoveAssigned traits this other (cells this) (cells other) s (thrown e, t)
      → Done (move_to this other) (thrown e) t
  moved_thrown-Done traits this other apart e t (objects, left, outside) =
      let (zs, chain, listed, count) =
        Emptied-Chain s.heap t.heap (s.objects other).nodes.head (cells other) (w.holds other).0
          (λ b i. left b) in
      let mine =
        Holds-agree s.heap t.heap (s.objects this).nodes (cells this)
          (λ b i. outside b (w.apart this other apart b i)) (w.holds this) in
      let theirs : Holds t.heap (s.objects other).nodes zs =
        (chain, (w.holds other).1 ∙ sym count) in
      let (kept, now) =
        Changed-Kept this other (cells this) zs t
          (record {
            mine = subst (λ o. Holds t.heap o.nodes (cells this)) (sym (objects this)) mine;
            theirs = subst (λ o. Holds t.heap o.nodes zs) (sym (objects other)) theirs;
            others = λ u out away. ap (λ o. o.nodes) (objects u);
            disjoint = λ n b i. listed b ∙ w.apart this other apart b i;
            one = λ e. absurd (apart e);
            new = λ b i. inl (ground (arith, i, listed b));
            freed = λ b i o. absurd (ground (arith, i, o, listed b));
            outside = λ b i o. outside b (ground (arith, i));
          })
          (omega (arith, few this)) (omega (arith, count, few other)) in
      (
        kept,
        unmoved-Described contents this other apart e (values zs) (λ u. values (kept.cells u))
            (λ u. now u ∙ chosen_values this other (cells this) zs u)
            (length-values zs ∙ count ∙ sym (length-values (cells other))),
      )

  pub moved-Done :
      (traits : Traits A Alloc) (this other : ℕ)
      → this ≢ other
      → (r : Outcome ℕ × Store A Alloc)
      → MoveAssigned traits this other (cells this) (cells other) s r
      → Done (move_to this other) r.0 r.1
  moved-Done traits this other apart (returned r, t) m =
      moved_returned-Done traits this other apart r t m
  moved-Done traits this other apart (thrown e, t) m =
      moved_thrown-Done traits this other apart e t m
