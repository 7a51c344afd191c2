-- ===== src/NodeList/Filled.antt =====
-- How the loop of copy_from and move_values_from ends.
use mathlib.Core.List.{append-nil}
use doost.Base.{
  ℕ, zero, suc, ◌<◌, ◌≡◌, ◌≢◌, refl, sym, ◌∙◌, subst, true, false, ◌==◌, arith, List, [], ◌∷◌, ◌++◌,
  length, Option, none, some, Bool-cases, inl, inr, ==_iff, Exception,
}
use doost.Word.{word_mod}
use doost.NodeList.{
  Node, Heap, Answer, made, no_memory, element_throws, allocate_node, destroy_node, create_node,
}
use doost.NodeList.Cells.{Chain-agree, Fresh}
use doost.NodeList.Append.{last_of, has_apart}
use doost.NodeList.Copy.{
  Cursor, Round, goes_on, leaves, faults, Taking, set_tail, advance, linked, taken, visited, round,
  rounds, after_round,
}
use doost.NodeList.Filling.{Takes, values, Beside, Filling, with_node}
use doost.NodeList.Rounds.{
  source_at, source_old, source_listed, source_same, apart, not_new, set_tail-Chain, linked_Filling,
}

module _ {A : Type 0} (R : Option (Node A) → Option (Node A) → Type 0) (h₀ : Heap A)
    (xs : List (ℕ × A)) where
  -- The loop has ended with the cells `ds`: by an exception, or with all values.
  pub record Ended (e : Option Exception) (d : Cursor A) : Type 0 where
    pub cells : List (ℕ × A)
    pub beside : Beside R h₀ xs d.heap d.list cells
    pub bounded : length cells < suc (length xs)
    pub filled : e ≡ none → values cells ≡ values xs

  abbrev pub Ends : Option (Option Exception × Cursor A) → Type 0
  Ends out = (e : Option Exception) × (d : Cursor A) × (out ≡ some (e, d)) × Ended e d

module _ {A : Type 0} {R : Option (Node A) → Option (Node A) → Type 0} {take : Taking A}
    (law : Takes R take) (new_node : Heap A → Answer) (h₀ : Heap A) (xs : List (ℕ × A))
    (fits : length xs < word_mod) where
  module _ (c : Cursor A) (ps : List (ℕ × A)) (ds : List (ℕ × A)) where
    round_ends : Filling R h₀ xs c ps [] ds → round new_node take c ≡ leaves none c
    unfolding round
    round_ends f = rw f.rest refl

    module _ (r : ℕ × A) (rs : List (ℕ × A)) (f : Filling R h₀ xs c ps (r ∷ rs) ds) where
      round_visits :
          round new_node take c
          ≡ linked new_node take c (
              taken new_node take c.source
                (create_node (new_node c.heap) 0 r.1 c.heap)
                (new_node c.heap))
      unfolding round visited
      round_visits =
          let present : (c.source == 0) ≡ false = ground (arith, f.rest.1, f.rest.2) in
          let at = source_same law h₀ xs c ps rs ds r f ∙ source_at law h₀ xs c ps rs ds r f in
          rw (present, at) refl

      -- The loop goes on with one cell more, or is left.
      abbrev Next : Round A → Type 0
      Next (goes_on d) = (qs : List (ℕ × A)) × (es : List (ℕ × A)) × Filling R h₀ xs d qs rs es
      Next (leaves e d) = Ended R h₀ xs e d
      Next faults = ⊥

      -- What is left where only the node of `source` may have changed.
      left_Beside :
          (g : Heap A)
          → R (c.heap c.source) (g c.source)
          → ((b : ℕ) → b ≢ c.source → g b ≡ c.heap b)
          → Beside R h₀ xs g c.list ds
      left_Beside g at_source away = record {
        list = (
          Chain-agree c.heap g c.list.head ds
              (λ b i. away b (has_apart b c.source ds i (source_old law h₀ xs c ps rs ds r f)))
              f.beside.list.0,
          f.beside.list.1,
        );
        new = f.beside.new;
        touched = λ b o. elim (Bool-cases (b == c.source)) [
          | inl here ↦
              subst (λ d. R (h₀ d) (g d)) (sym ((==_iff b c.source).0 here))
                (subst (λ n. R n (g c.source)) (source_same law h₀ xs c ps rs ds r f) at_source)
          | inr other ↦
              subst (R (h₀ b)) (sym (away b (ground (arith, other)))) (f.beside.touched b o)
        ];
        outside = λ b o u.
            away b
              (λ e. has_apart c.source b xs (source_listed law h₀ xs c ps rs ds r f).1 u (sym e))
            ∙ f.beside.outside b o u;
      }

      -- An exception of the element's constructor, after which the block is given back.
      abbrev thrown_heap : ℕ → Heap A
      thrown_heap a = destroy_node a (allocate_node a 0 r.1 c.heap)

      thrown_Ended :
          (a : ℕ) (e : Exception)
          → c.heap a ≡ none
          → Ended R h₀ xs (some e) (record c { heap = take true c.source (thrown_heap a) })
      thrown_Ended a e free = record {
        cells = ds;
        beside =
            left_Beside (take true c.source (thrown_heap a))
              (subst (λ n. R n (take true c.source (thrown_heap a) c.source)) (given_back c.source)
                (law.here true c.source (thrown_heap a)))
              (λ b ne. law.elsewhere true c.source (thrown_heap a) b ne ∙ given_back b);
        bounded = omega (arith, f.count);
        filled = λ n. cc;
      }
        where
          given_back : (b : ℕ) → thrown_heap a b ≡ c.heap b
          given_back b = ground (arith, free)

      visit-Next :
          (answer : Answer)
          → Fresh c.heap answer
          → Next (
              linked new_node take c
                (taken new_node take c.source (create_node answer 0 r.1 c.heap) answer))
      unfolding linked taken create_node
      visit-Next no_memory fresh = record {
        cells = ds;
        beside = f.beside;
        bounded = omega (arith, f.count);
        filled = λ n. cc;
      }
      visit-Next (element_throws a e) (object, free) = thrown_Ended a e free
      visit-Next (made a) (object, free) =
          let w =
            with_node law c.heap c.source a r.1
              (apart law h₀ xs c ps rs ds r f a object free fits) in
          let link = set_tail (last_of ds) a c.list w in
          (
            r ∷ ps,
            ds ++ (a, r.1) ∷ [],
            subst
                (λ t.
                  Filling R h₀ xs (advance a (set_tail t a c.list w) c) (r ∷ ps) rs
                    (ds ++ (a, r.1) ∷ []))
                (sym f.tail)
                (linked_Filling law h₀ xs c ps rs ds r f a object free fits link.0 link.1 (
                  set_tail-Chain law c.heap c.source a r.1
                    (apart law h₀ xs c ps rs ds r f a object free fits) c.list ds object
                    (not_new law h₀ xs c ps rs ds r f a object free fits)
                    (source_old law h₀ xs c ps rs ds r f) f.beside.list.0)),
          )

    round-Next :
        (r : ℕ × A) (rs : List (ℕ × A)) (f : Filling R h₀ xs c ps (r ∷ rs) ds)
        → Fresh c.heap (new_node c.heap)
        → Next r rs f (round new_node take c)
    round-Next r rs f fresh =
        subst (Next r rs f) (sym (round_visits r rs f)) (visit-Next r rs f (new_node c.heap) fresh)

    -- The rounds after this one.
    go_on :
        (fuel : ℕ) (r : ℕ × A) (rs : List (ℕ × A)) (f : Filling R h₀ xs c ps (r ∷ rs) ds)
        → ((d : Cursor A) (qs es : List (ℕ × A))
            → Filling R h₀ xs d qs rs es
            → Ends R h₀ xs (rounds new_node take fuel d))
        → (o : Round A) → round new_node take c ≡ o
        → Next r rs f o
        → Ends R h₀ xs (rounds new_node take (suc fuel) c)
    unfolding rounds
    go_on fuel r rs f later (goes_on d) e (qs, es, next) =
        subst (λ o. Ends R h₀ xs (after_round (rounds new_node take fuel) o)) (sym e)
          (later d qs es next)
    go_on fuel r rs f later (leaves x d) e ended =
        subst (λ o. Ends R h₀ xs (after_round (rounds new_node take fuel) o)) (sym e)
          (x, d, refl, ended)
    go_on fuel r rs f later faults e ended = elim ended [ ]

  pub rounds_Ended :
      ((h : Heap A) → Fresh h (new_node h))
      → (fuel : ℕ) (c : Cursor A) (ps rs ds : List (ℕ × A)) → Filling R h₀ xs c ps rs ds
      → length rs < fuel
      → Ends R h₀ xs (rounds new_node take fuel c)
  unfolding rounds
  rounds_Ended fresh zero c ps rs ds f enough = absurd (omega arith)
  rounds_Ended fresh (suc fuel) c ps [] ds f enough =
      subst (λ o. Ends R h₀ xs (after_round (rounds new_node take fuel) o))
        (sym (round_ends c ps ds f))
        (
          none,
          c,
          refl,
          record {
            cells = ds;
            beside = f.beside;
            bounded = omega (arith, f.count);
            filled = λ _. sym (append-nil (values ds)) ∙ f.filled;
          },
        )
  rounds_Ended fresh (suc fuel) c ps (r ∷ rs) ds f enough =
      go_on c ps ds fuel r rs f
        (λ d qs es next. rounds_Ended fresh fuel d qs rs es next (omega (arith, enough)))
        (round new_node take c) refl (round-Next c ps ds r rs f (fresh c.heap))
