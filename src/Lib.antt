-- ===== src/Lib.antt =====
-- The library tsl: data structures and services for trading systems in C, as far as it is modelled.
--
-- The program's parts. tsl/result.h, tsl/errors.h and tsl/bits.h define the result codes that every
-- function returns. On them stand the data structures: a bounded heap of pointers (tsl/fixed_heap.h,
-- tsl/fixed_heap.c), an intrusive red-black tree (tsl/rbtree.h, tsl/rbtree.c), a circular list
-- (tsl/list.h) and a hash table (tsl/hash_table.c). The services use these: timers (tsl/timer.c, on
-- the heap), the configuration engine, the allocators, the shared-memory queue (tsl/megaqueue) and
-- the worker threads with their queues (tsl/offload).
--
-- The files.
--   Base.antt: numbers, lists, signed integers and `Run`, the result of C code: a value, a fault (an
--     access outside the memory that the model knows, or through NULL, or a failed assertion) or the
--     end of the fuel. `Ends P r` says that `r` is a value with the property `P`.
--   ResultCode.antt: the layout of a result word and the list of errors.
--   FixedHeap.antt: `FixedHeap` is struct fixed_heap, and there is one definition for each function
--     of tsl/fixed_heap.h and tsl/fixed_heap.c, under its name; `heap_insert` with the loop `sift_up`
--     is __fixed_heap_insert, `heapify` with `sift_down` and `larger` is __fixed_heap_heapify. The
--     comparison callback, calloc and realloc are parameters.
--   RbTree.antt: `Tree` is struct rb_tree with the memory of all nodes: each field of struct
--     rb_tree_node is a function of the address. `rotate_left`, `rotate_right` and
--     `insert_rebalance` are the functions __helper_rotate_left, __helper_rotate_right and
--     __helper_rb_tree_insert_rebalance, with the loop `fix_loop` and its round `fix_step`.
--   RbTree/Insert.antt: rb_tree_insert, rb_tree_find and
--     rb_tree_find_or_insert, with their loops. The comparison callback with
--     its state is a parameter, and the theorems ask that it tells a strict order (`IsOrder`).
--   RbTree/Remove.antt: rb_tree_remove, with __helper_rb_tree_swap_node as `swap_node` and
--     __helper_rb_tree_delete_rebalance as `delete_rebalance`, whose loop is `delete_loop` and whose
--     round is `delete_step`. A place in the tree is a subtree and the way up from it (RbTree/Remove/Zip).
--   RbTree/Neighbours.antt: __helper_rb_tree_find_minimum, __helper_rb_tree_find_maximum,
--     __helper_rb_tree_find_successor and __helper_rb_tree_find_predecessor with their twins in
--     tsl/rbtree.h, rb_tree_get_rightmost and rb_tree_traverse, whose callback is a parameter.
--   RbTree/Lifecycle.antt: rb_tree_new_ex, rb_tree_destroy and rb_tree_empty.
--   LinkedList.antt: `Links` is the memory of all struct list_entry of tsl/list.h, and there is one
--     definition for each function, under its name; `list_add`, `list_unlink` and `list_join` are
--     __list_add, __list_del and __list_splice. The iterators list_for_each and list_for_each_safe
--     are loops over a body. LinkedList/Rings.antt says which list the links spell (`IsRing`).
--   HashTable.antt: `Nodes` is the memory of all struct hash_node and `HashTable` struct hash_table, and
--     there is one definition for each function of tsl/hash_table.h and tsl/hash_table.c,
--     under its name; `ht_get_bucket` is _ht_get_bucket. The buckets are list heads of LinkedList.antt,
--     and the chains are its lists. The hash function, the comparison and the answer of calloc are
--     parameters. HashTable/Table.antt says when the buckets make a table (`IsTable`).
--   HashTable/Murmur.antt: ht_murmur_hash_byte_string and ht_murmur_hash_word, on lists of bytes and on
--     64-bit words, with runs in HashTable/Tests.antt.
--   Megaqueue.antt: the ring indices of struct megaqueue_header and the part of struct megaqueue that they use, with
--     one definition for each function of tsl/megaqueue/megaqueue_priv.h, under its name without the
--     leading underscores. Megaqueue/Threads.antt has the same code as steps, one for each load and store of
--     a shared word (`Produces`, `Consumes`, `Deletes`), and beside the words the counts and the objects
--     that no thread reads, which say what was written and read; Megaqueue/Calls.antt has the bounded queue.
--   RefCount.antt: `Refcnt` is struct refcnt, with one definition for each function of tsl/refcnt.h. In
--     RefCount/Threads.antt `get_step` and `release_step` are refcnt_get and refcnt_release, one step for each access
--     to the count. ck_pr_cas_32_value is a parameter.
--   Config.antt: `ConfigAtom` is struct config of tsl/config/engine.h, and there is one definition for each of config_get,
--     config_get_integer, config_array_length, config_array_at and config_array_at_integer of tsl/config/engine.c;
--     `config_from_json` is __config_from_json, and `walk` over the `parts` of a name is the loop of config_get.
--     The Jansson library and the answer of strdup are parameters.
--   CpuMask.antt: struct cpu_mask and one definition for each function of tsl/cpumask.c, under its name; cpu_mask_from_config
--     is `fill_from` with its two branches between create and destroy, over the lookups of Config.antt. The CPU_ macros of
--     the C library, calloc, sysconf and sched_setaffinity are parameters, and the blocks of memory in use are counted.
--   WorkQueue.antt: struct work_queue and one definition for each function of tsl/work_queue.h, under its name, over
--     the rings of Concurrency Kit as a parameter. The size of a ring is an unsigned int, to which work_queue_new cuts its size.
--   Allocator.antt: `Slabs` is the memory of all struct slab and struct slab_item of tsl/alloc/alloc_priv.h, `Allocator` is struct
--     allocator and `SlabClass` struct slab_class of tsl/alloc/allocator.c. There is one definition for each function of
--     that file, under its name without the leading __allocator_, __helper_ or __allocator_subsystem_; allocator_alloc takes
--     an item out of a slab by `take_item` and allocator_free puts it back by `return_item`. Allocator/Slab.antt
--     says when a slab has certain items free (`IsSlab`). Where the list of slabs is empty, allocator_alloc reads the memory of
--     struct allocator at its list's head as a slab (`with_head`, `from_head`). malloc, mmap and the length of a cache line are parameters.
--   Worker.antt: the state word of struct worker_thread, with __worker_thread_function as `worker_step`,
--     worker_thread_request_shutdown as `request_step`, one step for each access, and the test of worker_thread_delete. The work
--     function may return at any time, and does when worker_thread_is_running says no.
--   RbTree/Shape.antt says what tree the pointers spell (`Spells`), RbTree/Balance.antt what makes it a
--     red-black tree, and RbTree/Valid.antt puts both together (`IsRbTree`). The other files below
--     RbTree, FixedHeap, LinkedList and HashTable hold the lemmas, and each Tests.antt holds concrete runs.
--
-- Bounds and fuel. Addresses are numbers, and NULL is 0. The heap's loops get fuel for one round more
-- than there are items: each round moves the index to its parent or to a child. The loops of the tree
-- get their fuel from the caller; they go a level up or down in each round, and a tree has at most as
-- many levels as nodes, so one round more than there are nodes is enough. The loops over
-- the items of a list and over the chain of a bucket get fuel for one round more than there are items.
-- The size in bytes that fixed_heap_resize passes to realloc wraps at 2^64.
-- The theorems on the hash table ask that the offset of the hash is below the number of buckets, as
-- the assert in _ht_get_bucket does.
--
-- The theorems on the queue in shared memory ask for 1 to 2^32 slots, since object_count has 32 bits, and for one producer,
-- one reader and one deleter. The loop of refcnt_get needs one round where no other thread is between its load and its swap.
--
-- The theorem on the work queue asks for a size below 2^32, and those on the queue in shared memory for a region that is new
-- and so filled with zeros, since megaqueue_prepare_superblock stores only the head.
--
-- Not modelled: the timers and clocks, the log allocator, the start of the slab allocator (allocator_subsystem_init), the rest
-- of the configuration engine (building it from files and strings, strings and booleans in it, and writing it out), the
-- creation of threads and the offload pools; opening and closing the queue in shared
-- memory, which are system calls. Logging, signals and diagnostics are input and output only.
pub mod Base
pub mod ResultCode
pub mod FixedHeap
pub mod RbTree
pub mod LinkedList
pub mod HashTable
pub mod Megaqueue
pub mod RefCount
pub mod Config
pub mod CpuMask
pub mod WorkQueue
pub mod Allocator
pub mod Worker
