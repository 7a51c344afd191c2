-- ===== src/PoolAllocator/SharedLists.antt =====
-- Threads that fill lists from one NonblockingDownwardPool, each a list of its own: include/doost/list.hpp with
-- SequentialPoolAllocator and include/doost/nonblocking_downward_pool.hpp. A thread that puts an element in
-- front of its list reserves a block, and then makes the node in it.
use doost.Base.{ℕ, ◌+◌, ◌≡◌, ◌==◌, if◌then◌else◌, List, [], ◌∷◌, none}
use doost.Blocks.{Request}
use doost.NodeList.{Heap, Handle, made, emplace_front}
use doost.NodeList.Copy.{no_nodes}
use doost.NonblockingPool.{NonblockingPool, fetch_sub}
use doost.NonblockingPool.Reservation.{IsAsked, reserved_by, block_at}
use doost.NonblockingPool.Threads
use doost.PoolAllocator.PoolList.{kept_nodes}

-- The pool with its threads, the element that each puts in front, the lists, the nodes, and what each thread
-- has put in front of its list, the latest first.
pub record Lists (A : Type 0) : Type 0 where
  pub threads : Threads.System
  pub element : ℕ → A
  pub lists : ℕ → Handle
  pub heap : Heap A
  pub contents : ℕ → List A

abbrev pub set {ℓ} : {B : Type ℓ} → (ℕ → B) → ℕ → B → ℕ → B
set f i x j = if i == j then x else f j

module _ {A : Type 0} (node : Request) where
  -- Thread `i` is going to put `x` in front of its list, and has done the fetch_sub of `allocate`.
  abbrev pub reserve_node : (i : ℕ) → A → Lists A → Lists A
  reserve_node i x s =
      let (current, after) = fetch_sub node.bytes node.alignment s.threads.shared in
      record s {
        threads = record {
          shared = after;
          pc = Threads.update s.threads.pc i (Threads.Pc.fetched current node);
          returned_blocks = s.threads.returned_blocks;
          requests = node ∷ s.threads.requests;
          reserved = s.threads.reserved + reserved_by node;
        };
        element = set s.element i x;
      }

  -- The rest of `allocate`, and emplace_front.
  abbrev pub put_node_in_front : (i current : ℕ) → Lists A → Lists A
  put_node_in_front i current s =
      let block = block_at current node in
      let (r, h) = emplace_front (made block.address) (s.element i) (s.lists i) s.heap in
      record {
        threads = record s.threads {
          pc = Threads.update s.threads.pc i Threads.Pc.outside;
          returned_blocks = block ∷ s.threads.returned_blocks;
        };
        element = s.element;
        lists = set s.lists i (kept_nodes (s.lists i) r);
        heap = h;
        contents = set s.contents i (s.element i ∷ s.contents i);
      }

  pub data Step (s : Lists A) : Lists A → Type 0 where
    reserve :
        (i : ℕ) (x : A)
        → IsAsked node
        → s.threads.pc i ≡ Threads.Pc.outside
        → Step s (reserve_node i x s)
    put_front :
        (i current : ℕ)
        → s.threads.pc i ≡ Threads.Pc.fetched current node
        → Step s (put_node_in_front i current s)

  abbrev pub init : NonblockingPool → (ℕ → A) → Lists A
  init p element = record {
    threads = Threads.init p;
    element = element;
    lists = λ i. no_nodes;
    heap = λ b. none;
    contents = λ i. [];
  }

  pub data Reach (p : NonblockingPool) (element : ℕ → A) : Lists A → Type 0 where
    start : Reach p element (init p element)
    later : {s t : Lists A} → Reach p element s → Step s t → Reach p element t
