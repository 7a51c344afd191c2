-- ===== src/NodeList/Filling.antt =====
-- What holds between two rounds of the loop of copy_from and move_values_from.
use doost.Base.{
  ℕ, ◌+◌, ◌≡◌, ◌≢◌, refl, sym, ◌∙◌, subst, Bool, true, false, arith, List, ◌++◌, length, map,
  Option, none, some,
}
use doost.NodeList.{Node, Heap, Handle, put_node, node_next}
use doost.NodeList.Cells.{has, Chain, Holds}
use doost.NodeList.Append.{last_of, has_apart, Linked}
use doost.NodeList.Copy.{Cursor, Taking, relinked}

-- What a construction from a node may do to the heap: it keeps to the node, where `R` tells the node
-- after it from the one before.
pub record Takes {A : Type 0} (R : Option (Node A) → Option (Node A) → Type 0) (take : Taking A)
    : Type 0 where
  pub stays : (o : Option (Node A)) → R o o
  pub next : (o u : Option (Node A)) → R o u → node_next u ≡ node_next o
  pub allocated : (o : Option (Node A)) → R o none → o ≡ none
  pub here : (throws : Bool) (source : ℕ) (h : Heap A) → R (h source) (take throws source h source)
  pub elsewhere :
      (throws : Bool) (source : ℕ) (h : Heap A) (b : ℕ) → b ≢ source → take throws source h b ≡ h b

abbrev pub values : {A : Type 0} → List (ℕ × A) → List A
values = map (λ c. c.1)

module _ {A : Type 0} (R : Option (Node A) → Option (Node A) → Type 0) (h₀ : Heap A)
    (xs : List (ℕ × A)) where
  -- The list `l` of the new cells `ds` stands beside the nodes of before, of which only those of `xs`
  -- may have changed.
  pub record Beside (h : Heap A) (l : Handle) (ds : List (ℕ × A)) : Type 0 where
    pub list : Holds h l ds
    pub new : (b : ℕ) → has b ds ≡ true → h₀ b ≡ none
    pub touched : (b : ℕ) → has b ds ≡ false → R (h₀ b) (h b)
    pub outside : (b : ℕ) → has b ds ≡ false → has b xs ≡ false → h b ≡ h₀ b

  -- `ps` are behind the loop and `rs` before it.
  pub record Filling (c : Cursor A) (ps rs ds : List (ℕ × A)) : Type 0 where
    pub beside : Beside c.heap c.list ds
    pub rest : Chain h₀ c.source rs
    pub filled : values ds ++ values rs ≡ values xs
    pub count : length ds + length rs ≡ length xs
    pub tail : c.tail ≡ last_of ds
    pub seen : (b : ℕ) → has b ps ≡ true → has b xs ≡ true
    pub unseen : (b : ℕ) → has b rs ≡ true → (has b ps ≡ false) × (has b xs ≡ true)
    pub untouched : (b : ℕ) → has b ds ≡ false → has b ps ≡ false → c.heap b ≡ h₀ b

pub relinked_elsewhere :
    {A : Type 0} (t a : ℕ) (o : Option (Node A)) (h : Heap A) (b : ℕ)
    → b ≢ t
    → relinked t a o h b ≡ h b
relinked_elsewhere t a none h b ne = refl
relinked_elsewhere t a (some n) h b ne = ground (arith, ne)

relinked_at :
    {A : Type 0} (t a : ℕ) (n : Node A) (h : Heap A)
    → h t ≡ some n
    → relinked t a (h t) h t ≡ some (record n { next = a })
relinked_at t a n h e = rw e (ground arith)

-- The node of `source` after the loop has linked the node `a` with its value, the other nodes.
module _ {A : Type 0} {R : Option (Node A) → Option (Node A) → Type 0} {take : Taking A}
    (law : Takes R take) (h : Heap A) (source a : ℕ) (x : A) (apart : source ≢ a) where
  abbrev pub with_node : Heap A
  with_node = take false source (put_node a (some (record { next = 0; value = x })) h)

  pub with_node_new : with_node a ≡ some (record { next = 0; value = x })
  with_node_new = law.elsewhere false source _ a (λ e. apart (sym e)) ∙ ground arith

  pub with_node_same : (b : ℕ) → b ≢ a → b ≢ source → with_node b ≡ h b
  with_node_same b ne out = law.elsewhere false source _ b out ∙ ground (arith, ne)

  pub with_node_source : R (h source) (with_node source)
  with_node_source =
      subst (λ o. R o (with_node source)) (ground (arith, apart))
        (law.here false source (put_node a (some (record { next = 0; value = x })) h))

  -- With a tail, its `next` leads to the new node.
  abbrev pub with_link : ℕ → Heap A
  with_link t = relinked t a (with_node t) with_node

  pub with_link-Linked :
      (cs : List (ℕ × A)) (t : ℕ)
      → a ≢ 0
      → has a cs ≡ false
      → has source cs ≡ false
      → has t cs ≡ true
      → Linked h (with_link t) cs t a x
  with_link-Linked cs t object out source_out t_in = record {
    object = object;
    apart = out;
    new =
        relinked_elsewhere t a (with_node t) with_node a (λ e. has_apart t a cs t_in out (sym e))
        ∙ with_node_new;
    link = λ n e.
        relinked_at t a n with_node (
          with_node_same t (has_apart t a cs t_in out) (has_apart t source cs t_in source_out) ∙ e);
    same = λ b i ne.
        relinked_elsewhere t a (with_node t) with_node b ne
        ∙ with_node_same b (has_apart b a cs i out) (has_apart b source cs i source_out);
  }
