-- ===== src/Heap/Mark/Examples.antt =====
-- A heap of three blocks: a root leads to the first, that one to the second, and nothing to the third.
use iron_net.Prelude.{
  ℕ, ◌≡◌, refl, false, [], ◌∷◌, some, arith, Memory, if◌then◌else◌, ◌==◌, get_u32,
}
use iron_net.Heap.Entry.{HeapEntry}
use iron_net.Heap.Tree.{Tree, nil, node, search_block}
use iron_net.Heap.Collect.{HeapState}
use iron_net.Heap.Mark.{
  Types, HeapRoots, gc_mark, mark_loop, mark_round, next_roots, visit_range, visit_pointer,
  mark_found, set_mark, mark_entry, set_roots, is_scanned,
}
use iron_net.Heap.Mark.Reach.{Reach}
use iron_net.Heap.Mark.Ends.{mark_loop-returns}
use iron_net.Heap.Mark.Roots.{
  all_roots, thread_get_heap_roots, frames_roots, frame_roots, clifile_get_heap_roots,
}

abbrev block : ℕ → ℕ → HeapEntry
block a marked = record {
  addr = a;
  total_size = 12;
  marked = marked;
  need_to_finalize = 0;
  type_def = 7;
  sync = 0;
}

abbrev blocks : ℕ → ℕ → ℕ → Tree
blocks a b c = node (node nil 1 (block 100 a) nil) 2 (block 200 b) (node nil 1 (block 300 c) nil)

abbrev memory : Memory
memory a = if a == 16 then 100 else if a == 104 then 200 else 0

abbrev types : Types
types = record {
  type_at = λ t. record { stack_type = 5; is_array = false; element_stack_type = 0 };
  string_type = 1;
  weak_reference_type = 2;
}

-- One thread with one method state, which has two slots on its evaluation stack.
abbrev roots : HeapRoots
roots = record {
  capacity = 64;
  roots = (record { num_pointers = 0; mem = 20 }) ∷ (record { num_pointers = 2; mem = 12 }) ∷ [];
}

roots-set :
    all_roots 8
      (((record { addr = 4; max_stack = 8; parameter_stack_size = 0; locals_stack_size = 0 }) ∷ [])
        ∷ [])
      []
    ≡ roots
unfolding all_roots thread_get_heap_roots frames_roots frame_roots clifile_get_heap_roots set_roots
roots-set = refl

gc_mark-blocks : gc_mark types 4 memory roots (blocks 0 0 0) ≡ blocks 1 1 0
unfolding gc_mark mark_loop mark_round next_roots visit_range visit_pointer mark_found set_mark
    mark_entry set_roots is_scanned get_u32 search_block
gc_mark-blocks = refl

mark_loop-returns_example :
    (t' : Tree) × (mark_loop types 4 memory 8 (blocks 0 0 0) roots ≡ some t')
mark_loop-returns_example = mark_loop-returns types 4 memory (blocks 0 0 0) roots 8 (omega arith)

abbrev heap : HeapState
heap = record {
  root = blocks 0 0 0;
  track_heap_size = 36;
  heap_size_max = 10;
  num_nodes = 3;
  num_pinned = 0;
  num_collections = 0;
}
