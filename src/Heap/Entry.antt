-- ===== src/Heap/Entry.antt =====
-- DotNetAnywhere/Heap.c, `struct tHeapEntry_`: the header of a block of the managed heap.
-- The links and the level of the header stand in the tree's nodes (Heap/Tree).
use iron_net.Prelude.{ℕ}

-- `addr` is the address of the header, `total_size` what HEAPENTRY_TOTALSIZE gives for it, and
-- `sync` the pointer to the sync block, 0 for NULL.
pub record HeapEntry : Type 0 where
  pub addr : ℕ
  pub total_size : ℕ
  pub marked : ℕ
  pub need_to_finalize : ℕ
  pub type_def : ℕ
  pub sync : ℕ
