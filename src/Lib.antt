-- ===== src/Lib.antt =====
-- A model of Uruv, a lock-free B+ tree with range queries over versioned values (Uruv/*.h).
--
-- The program. Internal nodes hold up to MAX keys and MAX + 1 child pointers, leaves hold a linked
-- list of keys, each with a list of versions of its value. A node that is full or nearly empty is
-- frozen, by a mark in the lowest bit of each of its pointers, and replaced by new nodes in a copy
-- of its parent. A range query takes a timestamp from a list of timestamps, and each version
-- carries the timestamp that was the latest one when it was written.
--
-- The parts and their files.
-- Marks (Uruv/util.h): is_marked, set_mark, unset_mark, is_marked_ref, get_unmarked_ref, bit by bit
-- on 64-bit words.
-- Machine: what the programs on shared memory are written in. A program is a tree of atomic steps,
-- each a load, a compare-and-swap or a store of one `std::atomic` access; Machine/Pool runs any
-- number of programs in any interleaving, Machine/Schedule a given one. `none` is undefined
-- behaviour.
-- Tracker (Uruv/TrackerList/TrackerList.h, TrackerNode.h): the list of timestamps over a heap of
-- nodes; get_latest_timestamp, add_timestamp (publish is its first CAS, swing_tail the ones on the
-- tail, help_tail its inner loop) and remove_head. A node that no other thread can see yet is made
-- in the step that publishes it. Tracker/Chain has the invariant, Tracker/Steps and Tracker/Safe
-- what each step keeps, Tracker/Threads the theorems about all threads, Tracker/Alone one thread.
-- Store (Uruv/util.h): the heap of list nodes (ll_Node), versions (Vnode) and announced operations
-- (State, stateArray), beside the timestamps; a null or marked word cannot be read through. The
-- timestamp -1 is `none`.
-- LinkedList (Uruv/LF_LL.h): Linked_List. LinkedList has init_ts, read, vCAS (vcas), find and
-- insert, LinkedList/Walks has search, mark, collect and range_query, LinkedList/Find,
-- LinkedList/Insert, LinkedList/Overwrite and LinkedList/Search what find, insert and search do for a
-- thread that runs alone.
-- LinkedList/Mark is about mark, and LinkedList/Refused, LinkedList/Collected and
-- LinkedList/Unseen about an insert, a collect and a search that follow it.
-- LinkedList/Stamps is about init_ts, LinkedList/Snapshot has what a list held at a timestamp, which
-- LinkedList/EntryAt and LinkedList/RangeQuery compare with range_query; LinkedList/Past is about an
-- insert and a range_query that follow each other, with older and with the latest timestamp.
-- LinkedList/Swaps is about any number of threads that run vCAS on one node. Machine/Turns counts the
-- steps of a thread.
-- LinkedList/Helped has the insert and vCAS of an operation that other threads may help.
-- The argument `left` of insert is how often FAILURE can go up before it reaches MAX_FAILURE; it comes
-- back with the result, as FAILURE stays what it is.
-- Memory (Uruv/Node.h): the nodes by their addresses, the root and the size, around a Store;
-- Memory/Lift runs a program of Store on it, Memory/Fill and Memory/Ordered are about the list of a new
-- leaf. A node that is
-- not published yet is filled in one step.
-- Leaf (Uruv/Leaf_node.h): the leaves that split_leaf, create_new_leaf and merge_leaf build from
-- the entries of frozen ones, as functions on values, with the theorems in Leaf/Kept. Leaf/Replace has
-- the whole of these functions, which publish the new leaves in new_next, with the theorems about runs
-- alone in its child modules, Leaf/Freeze has mark and
-- stabilize, of internal nodes too (Leaf/Freeze/Replaced is about the two and create_new_leaf in a
-- row, Leaf/Freeze/Divided about the two and split_leaf, Leaf/Freeze/Ordered
-- about the list of a new leaf), and Leaf/Change insert_leaf and delete_leaf.
-- Internal (Uruv/Internal_node.h, and the binary search of Uruv/BPTree.h in Internal/Route): nodes
-- as values, split_internal and merge_internal. These functions read frozen nodes and write
-- nodes that only their thread can see, so they are functions; `none` is an access out of an
-- array's bounds.
-- Tree (Uruv/BPTree.h): the two remove_parent functions, and what insert and do_helping build when
-- an internal child or the root is split, or a leaf is replaced.
-- BpTree (Uruv/BPTree.h): the operations of the tree as programs on Memory. BpTree has what they share,
-- BpTree/Search search, BpTree/Merge merge, BpTree/Helping do_helping, BpTree/Descent the loop that goes
-- down in insert and remove, BpTree/Insert and BpTree/Remove these two for a tid and a phase,
-- BpTree/RangeQuery range_query, and BpTree/Operations the insert and remove that a thread calls, with
-- State and HelpRecord. `goto retry` is the result `none` of an attempt. prev_node and prev_idx are a
-- Place, where `none` is the root.
-- Chunks, Benchmark (Uruv/Benchmark.cpp) and DatasetGen (DatasetGen/dataset_generator.cpp): the
-- preparation of the keys and of the table, the loop of a benchmark thread, its processor, and the
-- files of the generator as lists of numbers. The counter of Uruv/Benchmark.cpp's dataset_prep is an int,
-- with its 32 bits; `none` is its overflow there, and in DatasetGen the exception of std::stoll.
-- Examples: runs on small inputs and the theorems at concrete inputs.
--
-- Bounds. Keys, counts and timestamps are natural numbers: a count is at most MAX + 1, and a
-- timestamp would need 2 ^ 63 range queries to leave int64_t. The loop that divides a parent has
-- `count + 2` rounds of fuel and the binary search `count + 1`, which the theorems show to be
-- enough. The retry loops of the lock-free operations take their fuel as an argument: other threads
-- can make them retry without bound, `spin` stands for a retry beyond the fuel, and Tracker/Alone
-- shows that two rounds are enough for a thread that runs alone.
--
-- The fuel of a program of the tree bounds the depth of the descent, the length of the lists and the
-- retries alike; an insert that runs alone needs no more than the depth and the nodes of the list.
--
-- Not modelled: memory that runs out; the deallocation of a node that lost a race; random sleeps;
-- uninitialised fields (node_count of the first leaf is zero); the wrap-around of phases; the main
-- functions, the files, the shuffles, the random numbers and the clock of Uruv/Benchmark.cpp and
-- DatasetGen; Uruv/VersionTracker (the same files as Uruv/TrackerList); vcas_bst and OpenBwTree
-- (other projects that Uruv is measured against).
pub mod Benchmark
pub mod BpTree
pub mod Chunks
pub mod Common
pub mod DatasetGen
pub mod Examples
pub mod Internal
pub mod Leaf
pub mod LinkedList
pub mod Machine
pub mod Marks
pub mod Memory
pub mod Store
pub mod Tracker
pub mod Tree
