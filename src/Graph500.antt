-- ===== src/Graph500.antt =====
-- The parts of trident-workloads/graph500 that its Kronecker generator and its searches stand on.
pub mod ModArith
pub mod ModArith64
pub mod Seed
pub mod Mrg
pub mod Generator
pub mod Csr
pub mod Bfs
pub mod Sorting
pub mod SeqList
pub mod Bitmap
pub mod TopDown
pub mod Verify
mod CsrTests
mod VerifyTests
mod GeneratorTests
mod TopDownTests
mod Examples
