-- ===== src/Lib.antt =====
-- The memory workloads of the Trident artifact (trident-workloads/), which stress address translation
-- with pointer chasing and random accesses: a shallow embedding of the code that keeps state.
--
-- Btree is trident-workloads/btree/btree1.c, a B+ tree in memory with its slab allocators and its
-- pseudo-random number generator. Btree/Heap.antt is its memory: a store of nodes and records at
-- addresses, with the globals `order`, `queue`, `free_nodes` and `free_recs`, and commands that end
-- in a value, a fault, a call of `exit`, or out of fuel. Btree/Array.antt has the checked accesses
-- to the `keys` and `pointers` arrays. Btree/Alloc.antt is `alloc_node`, `free_node`, `alloc_record`,
-- `free_record`, `make_record`, `make_node` and `make_leaf`; Btree/Node.antt, Btree/Node/Insert.antt and
-- Btree/Node/Delete.antt are the parts of the functions that work inside nodes, and
-- Btree/Search.antt, Btree/Insert.antt and Btree/Delete.antt the functions that walk the tree.
-- Btree/Node/Entries.antt and Btree/Tree.antt say which entries a node and a tree hold. Walks take fuel,
-- one unit for each level, and the theorem on `find` shows that more than the depth is enough.
-- Btree/Rand.antt is `redisLrand48` and `redisSrand48`.
--
-- HashJoin is trident-workloads/hashjoin/hashjoin.c: the table of slots, its elements in four regions, and the
-- lookups; the hash function is an argument. HashJoin/TwoLevel.antt is hashjoin_2.c beside it: the
-- table of two levels, whose loop also counts in the data table. HashJoin and Gups use the checked
-- accesses of Btree/Array.antt.
--
-- Graph500 is part of trident-workloads/graph500. Graph500/ModArith.antt, Graph500/Seed.antt and
-- Graph500/Mrg.antt are the random number generator under generator/: arithmetic modulo 2 ^ 31 - 1,
-- the seeds, and the states and transition matrices; Graph500/ModArith64.antt is the same arithmetic
-- on 64 bits, from mod_arith_64bit.h, which user_settings.h chooses. Graph500/Mrg/Rows.antt, Product.antt and
-- Compose.antt are about the product of matrices. Graph500/Mrg/Skip.antt has the table
-- `mrg_skip_matrices` the way `dump_mrg_powers` computes it before it prints it into
-- generator/mrg_transitions.c; elsewhere the table is an argument. Graph500/Generator.antt is
-- generator/graph_generator.c and generator/make_graph.c, the edges of a Kronecker graph: nine rounds of fuel
-- are given to each draw and one more round than levels to each edge, and
-- Graph500/Generator/Draw.antt and Edge.antt show that both are enough. Generator/Reverse.antt and
-- Scramble.antt are about the numbers of vertices, Range.antt about the whole graph.
-- Graph500/Csr.antt and Graph500/Bfs.antt are seq-csr/seq-csr.c, the compressed rows of a
-- graph and the search on them, with one round of fuel more than vertices; `qsort` is an argument,
-- and Graph500/Csr/Distinct.antt says what is asked of it. Graph500/Csr/Degrees.antt, Offsets.antt,
-- Scatter.antt, Gather.antt, Squeeze.antt, PackOne.antt, PackRow.antt, Pack.antt and Build.antt follow
-- the construction, Graph500/Bfs/State.antt, Level.antt and Correct.antt the search.
-- Graph500/Verify.antt is verify.c, the check of a search tree, as one thread runs it and with its
-- assertions: an assertion that fails is a fault. Its loops are bounded by what they count with,
-- `nv - nhop`, `nhop` and `lastlvl`. Graph500/Verify/Assign.antt, Levels.antt, Edges.antt, Loops.antt and
-- Sound.antt are about trees that are accepted, Climb.antt, Total.antt and Answers.antt about an answer
-- on every tree.
-- Graph500/SeqList.antt is seq-list/seq-list.c, the same on linked lists, which
-- Graph500/SeqList/Walk.antt, Push.antt, Build.antt and Spans.antt follow, and Graph500/Bitmap.antt is
-- omp-csr/bitmap.h, with the bits of its words in Graph500/Bitmap/Digits.antt. Graph500/TopDown.antt is
-- `bfs_top_down_step` of omp-csr/omp-csr.c, threads that a schedule interleaves; Graph500/TopDown/Move.antt
-- is about one move, Run.antt, Idle.antt and Finish.antt about whole schedules, Shares.antt about the tests
-- that the threads get, and Step.antt about the whole step.
--
-- Ptdump is the words of trident-workloads/common/ptdump.h.
--
-- Gups is trident-workloads/gups/gups.c and gupstoy.c: the generator, `HPCC_starts`, and the updates of
-- the table.
--
-- A `uint64_t` is a natural number with the wrap-around written out where it can occur. What
-- `posix_memalign` returns is a list of addresses in the store. Printing, the command line, files
-- and timing are not modelled, nor are the assertions in generator/mod_arith_32bit.h and
-- mod_arith_64bit.h that operands are below the modulus, and the workloads that other projects own are left out.
pub mod Base
pub mod Btree
pub mod Graph500
pub mod Gups
pub mod HashJoin
pub mod Ptdump
