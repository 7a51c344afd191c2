-- ===== src/Lib.antt =====
-- A model of the doost library (include/doost, src): pools that grow downward in a mapping, with
-- what makes them correct.
--
-- The parts and their files:
--   Base, Word       shared names; std::size_t and std::uintptr_t as numbers below 2 ^ 64
--   Posix            sysconf, mmap, mprotect and munmap as an interface with documented laws, and a
--                    small system that meets them
--   Registry         src/downward_pool_storage.cpp: g_pool_registry, register_pool_guard,
--                    unregister_pool_guard, find_pool_index
--   Storage          src/downward_pool_storage.cpp, include/doost/detail/downward_pool_storage.hpp:
--                    make_downward_pool_storage, release_downward_pool_storage and the helpers
--   Blocks           requests to a pool and the blocks that answer them
--   DownwardPool     include/doost/downward_pool.hpp, src/downward_pool.cpp: the class DownwardPool
--   NonblockingPool  include/doost/nonblocking_downward_pool.hpp, src/nonblocking_downward_pool.cpp:
--                    the class NonblockingDownwardPool, and threads that call allocate on it
--   MutexPool        include/doost/mutex_downward_pool.hpp: the class MutexDownwardPool, and threads
--                    that call its methods
--   ParallelMemcpy   src/parallel_memcpy.cpp: the class ParallelMemcpyPool from constructor to
--                    destructor, a thread that copies and its workers, which share atomics
--   SafeMemory       src/safe_memory.cpp: safe_read_uint8 and its temporary signal handlers
--   Signals          src/downward_pool_storage.cpp: pool_signal_handler, what it calls, and
--                    install_pool_overflow_signal_handler
--   String           include/doost/string.hpp, src/string.cpp: the class String, whose objects share
--                    blocks of characters through a doubly linked list of owners
--   NodeList         include/doost/list.hpp: the class template List, its nodes in a heap and its
--                    objects with their allocators at addresses, and its iterators
--   PoolAllocator    include/doost/downward_pool_allocator.hpp: SequentialPoolAllocator and
--                    DownwardPoolAllocator, a List whose nodes come from a pool of either class, and
--                    threads that fill lists from one NonblockingDownwardPool
--   Examples         tests, and the theorems at inputs that meet their hypotheses
--
-- State is passed explicitly: a function that changes an object returns the new one. Objects that
-- are compared by address (moves, self-assignment) live in a store from addresses to objects. An
-- exception is a value of Outcome. What the environment decides (which addresses fault, which
-- calls of sigaction fail, what an allocator answers) is an argument. Loops run over lists, but
-- for some: the one of write_size counts down its buffer of 20 digits, enough for any number below
-- 2 ^ 64 (Signals.Digits), and the ones of List::clear, copy_from and move_values_from count down
-- fuel, where more than the length of the list is enough (NodeList.Clear, NodeList.Filled), for a
-- program at least as much as it has operations (NodeList.NoLeaks). Where threads run together a
-- step relation interleaves them, and each atomic operation is one step. In the step
-- relation of ParallelMemcpy a wait on an atomic goes on as soon as the value differs; ParallelMemcpy.Notified
-- adds the sleep in a wait, and notify_all and notify_one as the steps that end it. DownwardPool.Programs,
-- NonblockingPool.Programs, String.Programs and NodeList.Programs run the public operations of a
-- class in any order and go on after an exception; there a construction first ends the life of the
-- object at its address.
--
-- The build modelled has MAP_ANONYMOUS and DOOST_ENABLE_SIGSEGV_HANDLER on a 64-bit system. Not
-- modelled: benchmark/ and test/ (programs that measure or test the library), but for the calls by
-- which benchmark/ fills its lists, and
-- include/doost/downward_pool_variants.hpp, which only includes headers.
pub mod Base
pub mod Word
pub mod Blocks
pub mod Posix
pub mod Registry
pub mod Storage
pub mod DownwardPool
pub mod NonblockingPool
pub mod MutexPool
pub mod ParallelMemcpy
pub mod SafeMemory
pub mod Signals
pub mod String
pub mod NodeList
pub mod PoolAllocator
pub mod Examples
