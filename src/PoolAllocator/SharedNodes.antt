-- ===== src/PoolAllocator/SharedNodes.antt =====
-- Where the nodes of lists lie that threads fill from one NonblockingDownwardPool.
use doost.Base.{
  ℕ, suc, ◌<◌, ◌≡◌, ◌≢◌, refl, ap, subst, true, false, inl, inr, Bool-cases, ◌==◌, arith, List, ◌∷◌,
  Option, none, some, get_elem?, All,
}
use doost.Blocks.{Request, Block, Apart}
use doost.NodeList.{Node, put_node, emplace_front, create_node}
use doost.NodeList.Cells.{has, Chain, free-has, Chain-put_node}
use doost.NodeList.Filling.{values}
use doost.NonblockingPool.{NonblockingPool}
use doost.NonblockingPool.Reservation.{IsAsked, block_at}
use doost.NonblockingPool.Threads
use doost.PoolAllocator.SharedLists.{
  Lists, set, put_node_in_front, reserve, put_front, Reach, start, later,
}

module _ {A : Type 0} (node : Request) where
  -- The pool and its threads alone.
  pub pool_Reach :
      {p : NonblockingPool} {element : ℕ → A} {s : Lists A}
      → Reach node p element s
      → Threads.Reach p s.threads
  pool_Reach start = Threads.Reach.start
  pool_Reach (later r (reserve i x asked out)) =
      Threads.Reach.later (pool_Reach r) (Threads.Step.fetch i node out)
  pool_Reach (later r (put_front i current at)) =
      Threads.Reach.later (pool_Reach r) (Threads.Step.finish i current node at)

  -- Every request is for a node.
  pub node_requests :
      {p : NonblockingPool} {element : ℕ → A} {s : Lists A}
      → Reach node p element s
      → All IsAsked s.threads.requests
  node_requests start = tt
  node_requests (later r (reserve i x asked out)) = (asked, node_requests r)
  node_requests (later r (put_front i current at)) = node_requests r

  -- The nodes of the lists, and that every node lies in a returned block.
  pub record Nodes (s : Lists A) : Type 0 where
    pub cells : ℕ → List (ℕ × A)
    pub chain : (i : ℕ) → Chain s.heap (s.lists i).head (cells i)
    pub same : (i : ℕ) → values (cells i) ≡ s.contents i
    pub used :
        (b : ℕ) (n : Node A)
        → s.heap b ≡ some n
        → (k : ℕ) × (d : Block) × (get_elem? s.threads.returned_blocks k ≡ some d)
          × (d.address ≡ b)
          × (d.bytes ≡ node.bytes)
    pub apart : (i j b : ℕ) → i ≢ j → has b (cells i) ≡ true → has b (cells j) ≡ false

  module _ (i current : ℕ) (s : Lists A) (nodes : Nodes s) where
    abbrev pub block : ℕ
    block = (block_at current node).address

    pub free_if :
        (o : Option (Node A))
        → s.heap block ≡ o
        → (0 < node.bytes)
        → ((k : ℕ) (d : Block)
            → get_elem? s.threads.returned_blocks k ≡ some d
            → Apart (block_at current node) d)
        → o ≡ none
    free_if none e positive away = refl
    free_if (some n) e positive away =
        let (k, d, at, address, bytes) = nodes.used block n e in
        absurd (ground (arith, away k d at, address, bytes, positive))

    module _ (free : s.heap block ≡ none) (positive : 0 < block) where
      front : ℕ → List (ℕ × A)
      front = set nodes.cells i ((block, s.element i) ∷ nodes.cells i)

      out : (j : ℕ) → has block (nodes.cells j) ≡ false
      out j = free-has s.heap block (s.lists j).head (nodes.cells j) free (nodes.chain j)

      abbrev heap : ℕ → Option (Node A)
      heap = put_node block (some (record { next = (s.lists i).head; value = s.element i })) s.heap

      new_Chain : Chain heap block ((block, s.element i) ∷ nodes.cells i)
      new_Chain = (
        (s.lists i).head,
        refl,
        ground (arith, positive),
        ground arith,
        out i,
        Chain-put_node s.heap block (s.lists i).head _ (nodes.cells i) (out i) (nodes.chain i),
      )

      front-Chain :
          (j size : ℕ)
          → Chain heap (set s.lists i (record { head = block; size = size }) j).head (front j)
      unfolding front
      front-Chain j size = elim (Bool-cases (i == j)) [
        | inl own ↦ rw own new_Chain
        | inr other ↦
            rw other (
              Chain-put_node s.heap block (s.lists j).head _ (nodes.cells j) (out j)
                (nodes.chain j))
      ]

      front_same : (j : ℕ) → values (front j) ≡ set s.contents i (s.element i ∷ s.contents i) j
      unfolding front
      front_same j = elim (Bool-cases (i == j)) [
        | inl own ↦ rw own (ap (λ vs. s.element i ∷ vs) (nodes.same i))
        | inr other ↦ rw other (nodes.same j)
      ]

      front_used :
          (b : ℕ) (n : Node A)
          → heap b ≡ some n
          → (k : ℕ) × (d : Block) × (get_elem? (block_at current node ∷ s.threads.returned_blocks) k
              ≡ some d)
            × (d.address ≡ b)
            × (d.bytes ≡ node.bytes)
      front_used b n e = elim (Bool-cases (b == block)) [
        | inl here ↦ (0, block_at current node, refl, ground (arith, here), refl)
        | inr elsewhere ↦
            let (k, d, at, address, bytes) = nodes.used b n (ground (arith, e, elsewhere)) in
            (suc k, d, at, address, bytes)
      ]

      front_apart : (j k b : ℕ) → j ≢ k → has b (front j) ≡ true → has b (front k) ≡ false
      unfolding front
      front_apart j k b ne = elim (Bool-cases (b == block)) [
        | inl here ↦
            let same : block ≡ b = ground (arith, here) in
            subst (λ a. has a (front j) ≡ true → has a (front k) ≡ false) same
              (ground (arith, out j, out k, ne))
        | inr elsewhere ↦
            ground (arith, elsewhere, nodes.apart j k b, nodes.apart i k b, nodes.apart j i b, ne)
      ]

      pub put_front-Nodes : Nodes (put_node_in_front node i current s)
      unfolding emplace_front create_node
      put_front-Nodes = record {
        cells = front;
        chain = λ j. front-Chain j _;
        same = front_same;
        used = front_used;
        apart = front_apart;
      }
