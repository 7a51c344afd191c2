-- ===== src/PoolAllocator/SequentialList.antt =====
-- A List whose nodes come from a pool of any class: include/doost/list.hpp with the SequentialPoolAllocator of
-- include/doost/downward_pool_allocator.hpp.
use doost.Base.{ℕ, List, [], ◌∷◌, Option, none, some, ◌>>=◌, Outcome, Exception}
use doost.NodeList.{Heap, Handle, emplace_front}
use doost.PoolAllocator.{Allocator, sequential_allocate}
use doost.PoolAllocator.PoolList.{built, kept_nodes}

-- A list, the nodes and the pools.
pub record SequentialList (A Pool : Type 0) : Type 0 where
  pub nodes : Handle
  pub heap : Heap A
  pub pools : ℕ → Pool

module _ {A Pool : Type 0} (pool_allocate : (bytes alignment : ℕ) → Pool → ℕ × Pool)
    (size_of align_of : ℕ) (a : Allocator) where
  -- `none` is a call through the null pointer.
  unfoldable pub list_emplace_front :
      Option Exception → A → SequentialList A Pool → Option (Outcome Handle × SequentialList A Pool)
  unfolding sequential_allocate emplace_front
  list_emplace_front throws x s = do
    (block, after) ← sequential_allocate pool_allocate size_of align_of a 1 s.pools
    let (r, h) = emplace_front (built block throws) x s.nodes s.heap
    some (r, record { nodes = kept_nodes s.nodes r; heap = h; pools = after })

  -- A program that puts the elements in front one after the other.
  unfoldable pub list_emplace_all : List A → SequentialList A Pool → Option (SequentialList A Pool)
  unfolding list_emplace_front
  list_emplace_all [] s = some s
  list_emplace_all (x ∷ xs) s = do (_, t) ← list_emplace_front none x s; list_emplace_all xs t
