-- ===== src/Heap/Collect/Examples.antt =====
-- A heap of three blocks: the first is in use, the second is not, and the third has a finalizer to run.
use iron_net.Prelude.{ℕ, ◌+◌, ◌≤◌, ◌≡◌, refl, false, [], ◌∷◌, some, arith}
use iron_net.Heap.Entry.{HeapEntry}
use iron_net.Heap.Tree.{nil, node, entries, insert, skew, split}
use iron_net.Heap.Tree.Order.{IsOrdered}
use iron_net.Heap.Collect.{
  HeapState, Swept, gc_sweep, heap_alloc, make_room, garbage_collect, new_limit, sweep_state,
  sweep_tree, delete_all, visit, visit_entry, min_heap_size, max_heap_excess,
}
use iron_net.Heap.Collect.Kept.{gc_sweep-survivors}
use iron_net.Heap.Collect.Limits.{heap_alloc-limits}

abbrev block : ℕ → ℕ → ℕ → HeapEntry
block a marked finalizer = record {
  addr = a;
  total_size = 5;
  marked = marked;
  need_to_finalize = finalizer;
  type_def = 7;
  sync = 0;
}

abbrev three_blocks : HeapState
three_blocks = record {
  root = node (node nil 1 (block 10 1 0) nil) 2 (block 20 0 0) (node nil 1 (block 30 0 1) nil);
  track_heap_size = 15;
  heap_size_max = 10;
  num_nodes = 3;
  num_pinned = 0;
  num_collections = 0;
}

gc_sweep-survivors_example :
    (h' : HeapState) × (s : Swept) × (gc_sweep 40 three_blocks ≡ some (h', s))
    × (entries h'.root ≡ block 10 0 0 ∷ block 30 0 2 ∷ [])
    × IsOrdered h'.root
unfolding visit_entry
gc_sweep-survivors_example =
    gc_sweep-survivors 40 three_blocks refl
      ((omega arith, (omega arith, tt)), ((omega arith, tt), (tt, tt)))

-- One pinned block, and a block of 60 bytes that is allocated.
abbrev pinned : HeapState
pinned = record {
  root = node nil 1 (block 10 255 0) nil;
  track_heap_size = 15;
  heap_size_max = 10;
  num_nodes = 1;
  num_pinned = 0;
  num_collections = 0;
}

heap_alloc-limits_example : (75 + min_heap_size ≤ 1000075) × (1000075 ≤ 75 + max_heap_excess)
unfolding heap_alloc make_room garbage_collect gc_sweep sweep_state sweep_tree visit visit_entry
    delete_all new_limit insert skew split
heap_alloc-limits_example =
    heap_alloc-limits (λ t. t) 40 7 false 100 20 pinned 140
      (record {
        root = node nil 1 (block 10 255 0) (
            node nil 1
              (record {
                addr = 100;
                total_size = 60;
                marked = 0;
                need_to_finalize = 0;
                type_def = 7;
                sync = 0;
              })
              nil);
        track_heap_size = 75;
        heap_size_max = 1000075;
        num_nodes = 2;
        num_pinned = 1;
        num_collections = 1;
      })
      (omega arith) refl (omega arith)
