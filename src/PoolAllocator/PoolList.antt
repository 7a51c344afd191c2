-- ===== src/PoolAllocator/PoolList.antt =====
-- A List whose nodes come from a pool: include/doost/list.hpp with the allocator of
-- include/doost/downward_pool_allocator.hpp.
use doost.Base.{ℕ, List, [], ◌∷◌, Option, none, some, ◌>>=◌, Outcome, returned, thrown, Exception}
use doost.DownwardPool.{DownwardPool}
use doost.NodeList.{Heap, Handle, Answer, made, element_throws, emplace_front}
use doost.PoolAllocator.{DownwardPoolAllocator, downward_allocate}

-- A list, the nodes and the pools.
pub record PoolList (A : Type 0) : Type 0 where
  pub nodes : Handle
  pub heap : Heap A
  pub pools : ℕ → DownwardPool

-- The answer of create_node for a block: the element's constructor may throw.
abbrev pub built : (block : ℕ) → Option Exception → Answer
built block none = made block
built block (some e) = element_throws block e

-- The nodes of the list after a call that may have thrown.
abbrev pub kept_nodes : Handle → Outcome Handle → Handle
kept_nodes l (returned m) = m
kept_nodes l (thrown e) = l

module _ {A : Type 0} (size_of align_of : ℕ) (a : DownwardPoolAllocator) where
  -- `none` is a call through the null pointer.
  unfoldable pub pool_emplace_front :
      Option Exception → A → PoolList A → Option (Outcome Handle × PoolList A)
  unfolding downward_allocate emplace_front
  pool_emplace_front throws x s = do
    (block, after) ← downward_allocate size_of align_of a 1 s.pools
    let (r, h) = emplace_front (built block throws) x s.nodes s.heap
    some (r, record { nodes = kept_nodes s.nodes r; heap = h; pools = after })

  -- A program that puts the elements in front one after the other.
  unfoldable pub pool_emplace_all : List A → PoolList A → Option (PoolList A)
  unfolding pool_emplace_front
  pool_emplace_all [] s = some s
  pool_emplace_all (x ∷ xs) s = do (_, t) ← pool_emplace_front none x s; pool_emplace_all xs t
