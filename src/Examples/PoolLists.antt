-- ===== src/Examples/PoolLists.antt =====
-- Instances for lists whose nodes come from a pool.
use doost.Base.{
  ℕ, ◌-◌, ◌+◌, ◌^◌, ◌≤◌, ◌<◌, ◌≢◌, ◌⊎◌, ◌≡◌, refl, true, List, [], ◌∷◌, some, none, returned, arith,
}
use doost.Posix.{simple_posix, simple_laws, in_range}
use doost.NodeList.{required_storage}
use doost.NodeList.Filling.{values}
use doost.DownwardPool.Room.{floor, ceiling}
use doost.PoolAllocator.{on_pool, on_downward_pool}
use doost.PoolAllocator.PoolList.{PoolList, pool_emplace_all}
use doost.PoolAllocator.ListBlocks.{Stands, pushed}
use doost.PoolAllocator.Capacity.{emplace_all-required_storage}
use doost.Storage.{storage, Process}
use doost.Blocks.{request}
use doost.DownwardPool
use doost.DownwardPool.{DownwardPool}
use doost.NonblockingPool
use doost.NonblockingPool.{NonblockingPool}
use doost.NonblockingPool.Reservation.{IsAsked}
use doost.NonblockingPool.Construct.{SharedPool, construct-Construction}
use doost.PoolAllocator.SequentialList.{SequentialList, list_emplace_all}
use doost.PoolAllocator.SequentialCapacity.{
  InMemory, empty_list, list_emplace_all-reservations, list_emplace_all-demand,
}
use doost.NodeList.Cells.{has, Chain}
use doost.PoolAllocator.SharedLists.{
  Lists, reserve_node, put_node_in_front, init, Reach, start, later, reserve, put_front,
}
use doost.PoolAllocator.SharedMemory.{lists_apart}
use doost.Examples.Pools.{sixteen, started, made_pool, made_process, made}

-- 128 nodes of 64 bytes.
asked : required_storage 64 128 ≡ returned 8192
unfolding required_storage
asked = refl

abbrev three : List ℕ
three = 1 ∷ 2 ∷ 3 ∷ []

emplace_all-required_storage_example :
    (t : PoolList ℕ) × (ds : List (ℕ × ℕ)) × (pool_emplace_all 64 16
        (on_downward_pool 1)
        three
        (record { nodes = record { head = 0; size = 0 }; heap = λ b. none; pools = λ i. made_pool })
      ≡ some t)
    × Stands 4096 made.layout.guard 64 16 (on_downward_pool 1) t ds
    × (values ds ≡ pushed three [])
    × ((b : ℕ)
        → in_range (t.pools 1).cursor (ceiling made_pool.storage - (t.pools 1).cursor) b ≡ true
        → simple_posix.accessible made_process.system b ≡ true)
emplace_all-required_storage_example =
    emplace_all-required_storage simple_posix simple_laws ℕ 128 8192 64 16 started made_process
      made_pool asked made sixteen (omega arith) refl (omega arith) (on_downward_pool 1)
      (ground arith) (λ i. made_pool) refl three (omega arith)

-- 256 nodes of 24 bytes, for each of which the pool reserves 32.
abbrev node_pool : NonblockingPool
node_pool = NonblockingPool.pool (storage (2 ^ 32) 12288) (2 ^ 32 + 12288)

abbrev node_process : Process simple_posix
node_process = (NonblockingPool.construct simple_posix 8192 24 started).1

node_pool-SharedPool : SharedPool simple_posix simple_laws 8192 24 started node_pool node_process
unfolding NonblockingPool.construct doost.Storage.make_downward_pool_storage
    doost.Storage.downward_pool_mapping_end
node_pool-SharedPool =
    construct-Construction simple_posix simple_laws 8192 24 started (omega arith) (omega arith)

node-IsAsked : IsAsked (request 24 8)
node-IsAsked = record {
  power = record { exponent = 3; exponent_lt = omega arith; is_power = refl };
  fits = omega arith;
}

list_emplace_all-reservations_example :
    (t : SequentialList ℕ NonblockingPool) × (ds : List (ℕ × ℕ)) × (list_emplace_all
        NonblockingPool.allocate 24 8
        (on_pool 1)
        three
        (empty_list ℕ (λ i. node_pool))
      ≡ some t)
    × (values ds ≡ pushed three [])
    × InMemory simple_posix simple_laws 24 8
        (floor node_pool-SharedPool.layout.guard node_pool.storage)
        (ceiling node_pool.storage)
        node_process
        t
        ds
list_emplace_all-reservations_example =
    list_emplace_all-reservations simple_posix simple_laws 256 8192 24 8 node_pool-SharedPool
      (on_pool 1) (λ i. node_pool) three (omega arith) node-IsAsked (omega arith)
      (unfold NonblockingPool.reservation in omega arith) (ground arith) refl (omega arith)

list_emplace_all-demand_example :
    (t : SequentialList ℕ DownwardPool) × (ds : List (ℕ × ℕ)) × (list_emplace_all
        DownwardPool.allocate 64 16
        (on_pool 1)
        three
        (empty_list ℕ (λ i. made_pool))
      ≡ some t)
    × (values ds ≡ pushed three [])
    × InMemory simple_posix simple_laws 64 16
        (floor made.layout.guard made_pool.storage)
        (ceiling made_pool.storage)
        made_process
        t
        ds
list_emplace_all-demand_example =
    list_emplace_all-demand simple_posix simple_laws 100 8192 64 16 made (on_pool 1)
      (λ i. made_pool) three sixteen (omega arith) (omega arith) (omega arith) (ground arith) refl
      (omega arith)

-- The three nodes in the pool that reserves 32 bytes for each.
nodes_run :
    (s : SequentialList ℕ NonblockingPool) × (list_emplace_all NonblockingPool.allocate 24 8
        (on_pool 1)
        three
        (empty_list ℕ (λ i. node_pool))
      ≡ some s)
    × (s.nodes.head ≡ 2 ^ 32 + 12288 - 88)
    × ((s.pools 1).cursor ≡ 2 ^ 32 + 12288 - 96)
unfolding list_emplace_all NonblockingPool.allocate NonblockingPool.fetch_sub
nodes_run = (_, refl, refl, refl)

-- Thread 0 has put 7 in front of its list, and thread 1 is about to put 9 in front of its own.
abbrev filling : Lists ℕ
filling = reserve_node (request 24 8) 1 9 (
    put_node_in_front (request 24 8) 0 (2 ^ 32 + 12288)
      (reserve_node (request 24 8) 0 7 (init (request 24 8) node_pool (λ i. 0))))

filling-Reach : Reach (request 24 8) node_pool (λ i. 0) filling
unfolding NonblockingPool.fetch_sub
filling-Reach =
    later (later (later start (reserve 0 7 node-IsAsked refl)) (put_front 0 (2 ^ 32 + 12288) refl))
      (reserve 1 9 node-IsAsked refl)

lists_apart_example :
    (cells : ℕ → List (ℕ × ℕ)) × ((i : ℕ)
      → Chain filling.heap (filling.lists i).head (cells i)
        × (values (cells i) ≡ filling.contents i))
    × ((i j b d : ℕ)
        → i ≢ j
        → has b (cells i) ≡ true
        → has d (cells j) ≡ true
        → (b + 24 ≤ d) ⊎ (d + 24 ≤ b))
    × ((i b a : ℕ)
        → has b (cells i) ≡ true
        → b ≤ a
        → a < b + 24
        → simple_posix.accessible node_process.system a ≡ true)
lists_apart_example =
    lists_apart simple_posix simple_laws (request 24 8) node_pool-SharedPool (omega arith)
      (omega arith) filling-Reach (unfold NonblockingPool.reservation in omega arith)
