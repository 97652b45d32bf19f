-- ===== src/Btree.antt =====
-- trident-workloads/btree/btree1.c, the B+ tree of the btree workload, over an explicit heap.
pub mod Heap
pub mod Array
pub mod Node
pub mod Alloc
pub mod Search
pub mod Tree
pub mod Insert
pub mod Delete
pub mod Rand
mod Tests
mod Examples
