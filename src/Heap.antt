-- ===== src/Heap.antt =====
-- DotNetAnywhere/Heap.c: the managed heap.
pub mod Entry
pub mod Tree
pub mod Sync
pub mod Collect
pub mod Mark
