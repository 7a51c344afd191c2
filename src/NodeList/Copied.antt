-- ===== src/NodeList/Copied.antt =====
-- copy_from and move_values_from: the list that they fill, or the one that they give up.
use doost.Base.{
  ℕ, suc, ◌<◌, ◌≡◌, ◌≢◌, refl, sym, ap, ◌∙◌, subst, Bool, true, false, arith, List, [], length,
  Option, none, some, Bool-cases, inl, inr, Outcome, returned, thrown, Exception,
}
use doost.Word.{word_mod}
use doost.NodeList.{Node, Heap, Handle, Answer, node_next}
use doost.NodeList.Cells.{has, Holds, Fresh}
use doost.NodeList.Clear.{Freed, clear-Freed}
use doost.NodeList.Copy.{
  no_nodes, Cursor, Taking, copied_value, moved_value, put_value, start, settle, give_up, fill_from,
}
use doost.NodeList.Filling.{Takes, values, Beside, Filling}
use doost.NodeList.Filled.{Ended, rounds_Ended}

-- The list is filled with the values of `xs` in new nodes; or an exception has left it without nodes,
-- and all that were allocated are free again.
abbrev pub Fills :
    {A : Type 0} (R : Option (Node A) → Option (Node A) → Type 0) (h : Heap A) (xs : List (ℕ × A))
    → Outcome Handle × Heap A
    → Type 0
Fills R h xs (returned l, g) =
    (ds : List _) × Beside R h xs g l ds × (values ds ≡ values xs) × (length ds < suc (length xs))
Fills R h xs (thrown e, g) = Beside R h xs g no_nodes []

module _ {A : Type 0} {R : Option (Node A) → Option (Node A) → Type 0} {take : Taking A}
    (law : Takes R take) (h : Heap A) (xs : List (ℕ × A)) where
  given_up :
      (g f : Heap A) (l : Handle) (ds : List (ℕ × A))
      → Beside R h xs g l ds
      → Freed g ds f
      → Beside R h xs f no_nodes []
  given_up g f l ds beside freed = record {
    list = (refl, refl);
    new = λ b i. absurd (ground (arith, i));
    touched = λ b _. elim (Bool-cases (has b ds)) [
      | inl i ↦
          subst (λ o. R o (f b)) (sym (beside.new b i))
            (subst (R none) (sym (freed.inside b i)) (law.stays none))
      | inr o ↦ subst (R (h b)) (sym (freed.outside b o)) (beside.touched b o)
    ];
    outside = λ b _ u. elim (Bool-cases (has b ds)) [
      | inl i ↦ freed.inside b i ∙ sym (beside.new b i)
      | inr o ↦ freed.outside b o ∙ beside.outside b o u
    ];
  }

  settled :
      (fuel : ℕ) (e : Option Exception) (d : Cursor A)
      → length xs < fuel
      → Ended R h xs e d
      → (r : Outcome Handle × Heap A) × (settle fuel (some (e, d)) ≡ some r) × Fills R h xs r
  unfolding settle
  settled fuel none d enough ended =
      (_, refl, (ended.cells, ended.beside, ended.filled refl, ended.bounded))
  settled fuel (some e) d enough ended =
      let (f, run, freed) =
        clear-Freed fuel d.list d.heap ended.cells ended.beside.list
          (omega (arith, enough, ended.bounded)) in
      ((thrown e, f), ap (give_up e) run, given_up d.heap f d.list ended.cells ended.beside freed)

  at_start : (other : Handle) → Holds h other xs → Filling R h xs (start other.head h) [] xs []
  at_start other holds = record {
    beside = record {
      list = (refl, refl);
      new = λ b i. absurd (ground (arith, i));
      touched = λ b _. law.stays (h b);
      outside = λ b _ _. refl;
    };
    rest = holds.0;
    filled = refl;
    count = omega arith;
    tail = refl;
    seen = λ b i. absurd (ground (arith, i));
    unseen = λ b i. (refl, i);
    untouched = λ b _ _. refl;
  }

  pub fill_from-Fills :
      (new_node : Heap A → Answer)
      → ((g : Heap A) → Fresh g (new_node g))
      → (fuel : ℕ) (other : Handle) → Holds h other xs
      → length xs < word_mod
      → length xs < fuel
      → (r : Outcome Handle × Heap A) × (fill_from new_node take fuel other h ≡ some r)
        × Fills R h xs r
  unfolding fill_from
  fill_from-Fills new_node fresh fuel other holds fits enough =
      let (e, d, run, ended) =
        rounds_Ended law new_node h xs fits fresh fuel (start other.head h) [] xs []
          (at_start other holds) enough in
      let (r, end, fills) = settled fuel e d enough ended in (r, ap (settle fuel) run ∙ end, fills)

module _ {A : Type 0} where
  pub copied_value-Takes : Takes {A = A} ◌≡◌ copied_value
  copied_value-Takes = record {
    stays = λ o. refl;
    next = λ o u e. ap node_next (sym e);
    allocated = λ o e. e;
    here = λ throws source h. refl;
    elsewhere = λ throws source h b ne. refl;
  }

  -- The node is the same but for its value.
  abbrev pub Emptied : Option (Node A) → Option (Node A) → Type 0
  Emptied none o = o ≡ none
  Emptied (some n) o = (x : A) × (o ≡ some (record n { value = x }))

  Emptied-refl : (o : Option (Node A)) → Emptied o o
  Emptied-refl none = refl
  Emptied-refl (some n) = (n.value, refl)

  Emptied-node_next : (o u : Option (Node A)) → Emptied o u → node_next u ≡ node_next o
  Emptied-node_next none u e = ap node_next e
  Emptied-node_next (some n) u (x, e) = ap node_next e

  Emptied-none : (o : Option (Node A)) → Emptied o none → o ≡ none
  Emptied-none none e = refl
  Emptied-none (some n) (x, e) = absurd (ground (arith, e))

  put_value-Emptied :
      (source : ℕ) (f : A → A) (o : Option (Node A)) (h : Heap A)
      → h source ≡ o
      → Emptied o (put_value source f o h source)
  put_value-Emptied source f none h e = e
  put_value-Emptied source f (some n) h e = (f n.value, ground arith)

  put_value_elsewhere :
      (source : ℕ) (f : A → A) (o : Option (Node A)) (h : Heap A) (b : ℕ)
      → b ≢ source
      → put_value source f o h b ≡ h b
  put_value_elsewhere source f none h b ne = refl
  put_value_elsewhere source f (some n) h b ne = ground (arith, ne)

  module _ (left lost : A → A) where
    moved_value-Emptied :
        (throws : Bool) (source : ℕ) (h : Heap A)
        → Emptied (h source) (moved_value left lost throws source h source)
    moved_value-Emptied true source h = put_value-Emptied source lost (h source) h refl
    moved_value-Emptied false source h = put_value-Emptied source left (h source) h refl

    moved_value_elsewhere :
        (throws : Bool) (source : ℕ) (h : Heap A) (b : ℕ)
        → b ≢ source
        → moved_value left lost throws source h b ≡ h b
    moved_value_elsewhere true source h b = put_value_elsewhere source lost (h source) h b
    moved_value_elsewhere false source h b = put_value_elsewhere source left (h source) h b

    pub moved_value-Takes : Takes Emptied (moved_value left lost)
    moved_value-Takes = record {
      stays = Emptied-refl;
      next = Emptied-node_next;
      allocated = Emptied-none;
      here = moved_value-Emptied;
      elsewhere = moved_value_elsewhere;
    }
