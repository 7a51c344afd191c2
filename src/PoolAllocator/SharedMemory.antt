-- ===== src/PoolAllocator/SharedMemory.antt =====
-- Lists that threads fill from one new NonblockingDownwardPool, in its memory.
use doost.Base.{
  ℕ, ◌+◌, ◌≤◌, ◌<◌, ◌≡◌, ◌≢◌, ◌⊎◌, refl, true, arith, List, [], Option, none, some, get_elem?,
  ℕ_discrete,
}
use doost.Posix.{Posix, PosixLaws}
use doost.Storage.{Process}
use doost.Blocks.{Request, Block}
use doost.NodeList.{Node}
use doost.NodeList.Cells.{has, Chain, free-has}
use doost.NodeList.Filling.{values}
use doost.NonblockingPool.{NonblockingPool, cursor_alignment}
use doost.NonblockingPool.Construct.{SharedPool, constructed-Inv, cursor_above, threads_accessible}
use doost.PoolAllocator.SharedLists.{Lists, reserve, put_front, Reach, start, later}
use doost.PoolAllocator.SharedNodes.{
  Nodes, pool_Reach, node_requests, block, free_if, put_front-Nodes,
}

module _ (os : Posix) (laws : PosixLaws os) where
  open os use {accessible}
  open laws use {page}

  module _ {A : Type 0} (node : Request) {usable max_alloc : ℕ} {p q : Process os}
      {x : NonblockingPool} (c : SharedPool os laws usable max_alloc p x q)
      (pages : cursor_alignment ≤ page) (positive : 0 < node.bytes) {element : ℕ → A} where
    Reach-Nodes :
        {s : Lists A} → Reach node x element s → s.threads.reserved ≤ usable → Nodes node s
    Reach-Nodes start room = record {
      cells = λ i. [];
      chain = λ i. refl;
      same = λ i. refl;
      used = λ b n e. cc;
      apart = λ i j b ne e. cc;
    }
    Reach-Nodes (later {s} r (reserve i y asked out)) room =
        let nodes = Reach-Nodes r (omega (arith, room)) in
        record {
          cells = nodes.cells;
          chain = nodes.chain;
          same = nodes.same;
          used = nodes.used;
          apart = nodes.apart;
        }
    Reach-Nodes (later {s} r (put_front i current at)) room =
        let nodes = Reach-Nodes r room in
        let inv = constructed-Inv os laws c pages (pool_Reach node r) room (node_requests node r) in
        let ((low, high), aligned) = inv.pending i current node at in
        let free =
          free_if node i current s nodes (s.heap (block node i current s nodes)) refl positive
            (λ k d e. inv.pending_done i k current node d at e) in
        put_front-Nodes node i current s nodes free (
          omega (
            arith,
            low,
            cursor_above os laws c pages (pool_Reach node r) room (node_requests node r),
            c.layout.begin_pos,
          ))

    module _ {s : Lists A} (reach : Reach node x element s)
        (room : s.threads.reserved ≤ usable) where
      listed :
          (o : Option (Node A)) (b i : ℕ)
          → s.heap b ≡ o
          → has b ((Reach-Nodes reach room).cells i) ≡ true
          → (k : ℕ) × (d : Block) × (get_elem? s.threads.returned_blocks k ≡ some d)
            × (d.address ≡ b)
            × (d.bytes ≡ node.bytes)
      listed none b i e found =
          let nodes = Reach-Nodes reach room in
          absurd (
            ground
              (arith, found, free-has s.heap b (s.lists i).head (nodes.cells i) e (nodes.chain i)))
      listed (some n) b i e found = (Reach-Nodes reach room).used b n e

      -- Threads fill lists, each its own, with nodes from a NonblockingDownwardPool just constructed, of a system
      -- whose pages are at least 16 bytes, interleaved in any order. In every state that they reach while
      -- their reservations fit the asked size, each list holds what its thread has put in front of it, no
      -- nodes of different lists overlap, and all bytes of all nodes can be read and written.
      pub lists_apart :
          (cells : ℕ → List (ℕ × A)) × ((i : ℕ)
            → Chain s.heap (s.lists i).head (cells i) × (values (cells i) ≡ s.contents i))
          × ((i j b d : ℕ)
              → i ≢ j
              → has b (cells i) ≡ true
              → has d (cells j) ≡ true
              → (b + node.bytes ≤ d) ⊎ (d + node.bytes ≤ b))
          × ((i b a : ℕ)
              → has b (cells i) ≡ true
              → b ≤ a
              → a < b + node.bytes
              → accessible q.system a ≡ true)
      lists_apart =
          let nodes = Reach-Nodes reach room in
          let (reads, apart, _, _, _, _) =
            threads_accessible os laws c pages (pool_Reach node reach) room
              (node_requests node reach) in
          (
            nodes.cells,
            λ i. (nodes.chain i, nodes.same i),
            λ i j b d ne here there.
                let (k, e, at, address, bytes) = listed (s.heap b) b i refl here in
                let (l, f, at₂, address₂, bytes₂) = listed (s.heap d) d j refl there in
                elim (ℕ_discrete k l) [
                  | yes same ↦ absurd (
                      ground (
                        arith,
                        same,
                        at,
                        at₂,
                        address,
                        address₂,
                        here,
                        there,
                        nodes.apart i j b ne,
                      ))
                  | no differ ↦
                      ground (arith, apart k l e f differ at at₂, address, bytes, address₂, bytes₂)
                ],
            λ i b a found ge lt.
                let (k, d, at, address, bytes) = listed (s.heap b) b i refl found in
                reads k d a at (omega (arith, address, ge)) (omega (arith, address, bytes, lt)),
          )
