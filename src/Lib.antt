-- ===== src/Lib.antt =====
-- A model of custom-memory-allocator, a general-purpose heap allocator in C++17 for Linux on x86-64,
-- and the theorems that it is built on.
--
-- The program. my_malloc sends a request of at most 4096 bytes to the pool of its size class and
-- any larger one to the general path. A pool chains free slots of one size through their headers;
-- an allocated slot carries the address of its pool, by which my_free and my_realloc find it again.
-- The general path carves blocks out of arenas; a block has a header and a footer with its size,
-- free blocks are on a doubly linked list whose links lie in their payloads, and neighbours that
-- are free are merged. Both paths take memory from the operating system by os_acquire. At
-- concurrency stage 3 each thread keeps a cache of free slots in front of each pool.
--
-- The model. Memory is a function from addresses to bytes (Memory); size_t and pointers are words of
-- 64 bits stored with the low byte first. Sums, differences and products of size_t wrap around, and
-- so does a difference that moves a pointer back; a pointer is moved forward by a plain sum, since
-- C++ gives no meaning to one that leaves its area. A function of the program is a command (Run): it
-- takes the memory, the areas that are mapped and the mutexes that the calling thread holds, and
-- ends with a value and new ones, or stops at a failed assert, at a mutex that the thread holds
-- already, at an index out of range, or when its fuel is used up. An object of a C++ class is a
-- record that its methods take and return.
--
-- Which file models which part, with paths from the repository's root:
--   Block: include/block.hpp (BlockHeader, BlockFooter, header_from_footer)
--   FreeList: include/free_list.hpp and src/free_list.cpp (FreeList)
--   Os: include/os_memory.hpp and src/os_memory.cpp (os_acquire, os_release)
--   SizeClass: the size classes of include/memory_pool.hpp, size_class_for of src/memory_pool.cpp and
--     pool_index_for_size_class of src/allocator.cpp
--   Pool: include/memory_pool.hpp and src/memory_pool.cpp (Pool)
--   ThreadCache: the thread-local caches of src/allocator.cpp (pop_from_cache,
--     my_malloc_pooled_stage3, flush_batch_to_pool, my_free_pooled_stage3)
--   Threads: several threads at stage 3, each with its cache, as a step relation
--   General, General/Neighbors, General/Blocks: the general path of src/allocator.cpp (arenas,
--     neighbours, maybe_split, absorb_right_neighbor, and the parts of my_malloc, my_free and
--     my_realloc behind the general path's lock)
--   Allocator: include/allocator.hpp and the public functions of src/allocator.cpp
--   Sites: the allocator as a whole, at stage 3 with one thread, and the programs that use it
--   BasicAllocation: examples/basic_allocation.cpp (check_pattern, main)
--   Base, Memory, Run: shared names, bytes and words, commands
--   Examples: a concrete platform, runs of the whole model, and the theorems at concrete inputs
-- The other modules hold proofs and are named for what they prove. General/Store and General/Heap
-- describe the blocks of the general path from outside: Store those of all arenas as one bag that
-- memory and the free list agree with, Heap the same blocks in their places in each arena. Pool/Slots
-- and ThreadCache/Shared say the same of slots: which are free, cached and live, with none missing of
-- those that were carved. Sites/Whole puts the pools, the caches and the general path together, and
-- Sites/Session a program that uses them, with the abstract memory of byte arrays that it sees.
--
-- Parameters. What mmap, munmap and sysconf answer, and the address of the array of pools, come with
-- a record Os.Platform; Os/Laws and Os/Unmap state what Linux documents of them. The record
-- `machine` of Examples meets the laws.
--
-- Fuel. A walk along the free list takes one round for each block and one for the end; the general
-- path gives it one more than the number of bytes carved so far, and every block takes more than one
-- of them. All other loops recur on a count that the source has as well.
--
-- Not modelled: the tests and the benchmarks. Sites is about one thread at stage 3. Threads
-- takes a scope of a mutex as one step; how the processor orders the accesses of a data race is left
-- out, as is the thread that ends with slots in its cache. The overloads for const pointers are the
-- same functions.
--
-- my_free and my_realloc take the word in front of a payload for the size of a block unless it is the
-- address of a pool; where a payload may come from the general path, a hypothesis says, as the
-- source assumes, that its size is less than these addresses.
pub mod Base
pub mod Memory
pub mod Run
pub mod Block
pub mod FreeList
pub mod Os
pub mod SizeClass
pub mod Pool
pub mod ThreadCache
pub mod General
pub mod Allocator
pub mod Sites
pub mod Threads
pub mod BasicAllocation
mod Examples
