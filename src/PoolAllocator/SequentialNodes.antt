-- ===== src/PoolAllocator/SequentialNodes.antt =====
-- Where the nodes of a List lie that come from a pool of any class that serves it.
use native.Mathlib.Nat.{mod-eq_of_lt}
use doost.Base.{
  ℕ, suc, ◌+◌, ◌%◌, ◌≤◌, ◌<◌, ◌≡◌, ◌≢◌, refl, sym, ap, ◌∙◌, subst, false, ◌==◌, arith, List, [],
  ◌∷◌, length, none, some, returned,
}
use doost.Word.{word_mod, add_word, mul_word}
use doost.Posix.{null}
use doost.NodeList.{emplace_front, create_node, put_node}
use doost.NodeList.Copy.{no_nodes}
use doost.NodeList.Cells.{Chain, Holds, free-has, Chain-put_node}
use doost.NodeList.Filling.{values}
use doost.PoolAllocator.{Allocator, allocated, sequential_allocate}
use doost.PoolAllocator.ListBlocks.{pushed}
use doost.PoolAllocator.SequentialList.{SequentialList, list_emplace_front, list_emplace_all}
use doost.PoolAllocator.Serves.{Serves, Spaced, Spaced-lower}

module _ {A Pool : Type 0} (pool_allocate : (bytes alignment : ℕ) → Pool → ℕ × Pool)
    (size_of align_of : ℕ) (c : Serves pool_allocate size_of align_of) (a : Allocator)
    (top : ℕ) where
  open c use {Ready, edge, lowest, above, serve}

  -- The list holds the cells, which lie between the edge of the pool and the top; below the edge no address
  -- is in use.
  pub record Stands (count : ℕ) (s : SequentialList A Pool) (cs : List (ℕ × A)) : Type 0 where
    pub ready : Ready count (s.pools a.pool)
    pub holds : Holds s.heap s.nodes cs
    pub free : (b : ℕ) → b < edge (s.pools a.pool) → s.heap b ≡ none
    pub spaced : Spaced size_of align_of (edge (s.pools a.pool)) top cs
    pub bounded : edge (s.pools a.pool) + length cs < word_mod

  module _ (positive : 0 < size_of) (small : size_of < word_mod) (not_null : a.pool ≢ null) where
    module _ (k : ℕ) (x : A) (s : SequentialList A Pool) (cs : List (ℕ × A))
        (stands : Stands (suc k) s cs) where
      abbrev answer : ℕ × Pool
      answer = pool_allocate size_of align_of (s.pools a.pool)

      abbrev served :
          Ready k answer.1
          × (0 < answer.0)
          × (answer.0 % align_of ≡ 0)
          × (edge answer.1 ≤ answer.0)
          × (answer.0 + size_of ≤ edge (s.pools a.pool))
      served = serve k (s.pools a.pool) stands.ready

      abbrev after : SequentialList A Pool
      after = record {
        nodes = record { head = answer.0; size = add_word s.nodes.size 1 };
        heap = put_node answer.0 (some (record { next = s.nodes.head; value = x })) s.heap;
        pools = (allocated pool_allocate a.pool s.pools answer).1;
      }

      here : after.pools a.pool ≡ answer.1
      here = ground arith

      emplaced_returned :
          list_emplace_front pool_allocate size_of align_of a none x s
          ≡ some (returned after.nodes, after)
      unfolding list_emplace_front sequential_allocate emplace_front create_node
      emplaced_returned =
          let present : (a.pool == null) ≡ false = ground (arith, not_null) in
          let whole : mul_word 1 size_of ≡ size_of =
            ap (λ n. n % word_mod) (omega arith) ∙ mod-eq_of_lt small in
          rw (present, whole) refl

      block_free : s.heap answer.0 ≡ none
      block_free = stands.free answer.0 (omega (arith, served.4, positive))

      new_Chain : Chain after.heap answer.0 ((answer.0, x) ∷ cs)
      new_Chain =
          let out = free-has s.heap answer.0 s.nodes.head cs block_free stands.holds.0 in
          (
            s.nodes.head,
            refl,
            ground (arith, served.1),
            ground arith,
            out,
            Chain-put_node s.heap answer.0 s.nodes.head _ cs out stands.holds.0,
          )

      emplaced-Stands : Stands k after ((answer.0, x) ∷ cs)
      emplaced-Stands =
          let at : edge (after.pools a.pool) ≡ edge answer.1 = ap edge here in
          let (ready, _, aligned, above, below) = served in
          record {
            ready = subst (Ready k) (sym here) ready;
            holds =
                (new_Chain, ground (arith, stands.holds.1, stands.bounded, below, above, positive));
            free = λ b lt.
                ground (arith, stands.free b (omega (arith, lt, at, above, below)), lt, at, above);
            spaced = (
              omega (arith, at, above),
              aligned,
              Spaced-lower size_of align_of (edge (s.pools a.pool)) (answer.0 + size_of) top cs
                  below stands.spaced,
            );
            bounded = omega (arith, at, above, below, positive, stands.bounded);
          }

    -- A pool that is ready serves all elements.
    pub list_emplace_all-Stands :
        (xs : List A) (s : SequentialList A Pool) (cs : List (ℕ × A))
        → Stands (length xs) s cs
        → (t : SequentialList A Pool) × (ds : List (ℕ × A)) × (list_emplace_all pool_allocate
              size_of align_of a xs s
            ≡ some t)
          × Stands 0 t ds
          × (values ds ≡ pushed xs (values cs))
    unfolding list_emplace_all
    list_emplace_all-Stands [] s cs stands = (s, cs, refl, stands, refl)
    list_emplace_all-Stands (x ∷ xs) s cs stands =
        let k = length xs in
        let (t, ds, run, end, order) =
          list_emplace_all-Stands xs (after k x s cs stands) (((answer k x s cs stands).0, x) ∷ cs)
            (emplaced-Stands k x s cs stands) in
        (t, ds, rw (emplaced_returned k x s cs stands) run, end, order)

    -- An empty list whose nodes come from a pool that has room for all elements.
    pub list_emplace_all-Spaced :
        (xs : List A) (pools : ℕ → Pool)
        → Ready (length xs) (pools a.pool)
        → edge (pools a.pool) ≡ top
        → top < word_mod
        → (t : SequentialList A Pool) × (ds : List (ℕ × A)) × (list_emplace_all pool_allocate
              size_of align_of a xs
              (record { nodes = no_nodes; heap = λ b. none; pools = pools })
            ≡ some t)
          × Holds t.heap t.nodes ds
          × (values ds ≡ pushed xs [])
          × Spaced size_of align_of lowest top ds
    list_emplace_all-Spaced xs pools ready at fits =
        let (t, ds, run, end, order) =
          list_emplace_all-Stands xs (record { nodes = no_nodes; heap = λ b. none; pools = pools })
            []
            (record {
              ready = ready;
              holds = (refl, refl);
              free = λ b lt. refl;
              spaced = omega (arith, at);
              bounded = omega (arith, at, fits);
            }) in
        (
          t,
          ds,
          run,
          end.holds,
          order,
          Spaced-lower size_of align_of _ lowest top ds (above 0 _ end.ready) end.spaced,
        )
