-- ===== src/Heap/Mark/Roots.antt =====
-- Where GC_Mark starts: Thread_GetHeapRoots of DotNetAnywhere/Thread.c, Generic_GetHeapRoots of Generics.c,
-- MetaData_GetHeapRoots of MetaData.c and CLIFile_GetHeapRoots of CLIFile.c.
use iron_net.Prelude.{ℕ, ◌+◌, Bool, ltb, if◌then◌else◌, List, [], ◌∷◌}
use iron_net.Heap.Mark.{HeapRoots, set_roots}

-- A method state at its address, with the sizes that pMethod and pMethod->pJITted give.
pub record FrameRoots : Type 0 where
  pub addr : ℕ
  pub max_stack : ℕ
  pub parameter_stack_size : ℕ
  pub locals_stack_size : ℕ

-- The two ranges of a method state; `state_size` is sizeof(tMethodState).
unfoldable pub frame_roots : ℕ → FrameRoots → HeapRoots → HeapRoots
frame_roots state_size f h =
    let eval_stack = f.addr + state_size in
    set_roots (set_roots h eval_stack f.max_stack) (eval_stack + f.max_stack)
      (f.parameter_stack_size + f.locals_stack_size)

-- The method states of a thread, from pCurrentMethodState along pCaller.
unfoldable pub frames_roots : ℕ → List FrameRoots → HeapRoots → HeapRoots
frames_roots state_size [] h = h
frames_roots state_size (f ∷ fs) h = frames_roots state_size fs (frame_roots state_size f h)

-- Thread_GetHeapRoots.
unfoldable pub thread_get_heap_roots : ℕ → List (List FrameRoots) → HeapRoots → HeapRoots
thread_get_heap_roots state_size [] h = h
thread_get_heap_roots state_size (fs ∷ threads) h =
    thread_get_heap_roots state_size threads (frames_roots state_size fs h)

-- The static fields of a type.
pub record StaticFields : Type 0 where
  pub static_field_size : ℕ
  pub static_fields : ℕ

-- A row of the table of types: its own static fields, or those of its generic instances.
pub record TypeRow : Type 0 where
  pub is_generic_definition : Bool
  pub own : StaticFields
  pub generic_instances : List StaticFields

unfoldable pub static_roots : StaticFields → HeapRoots → HeapRoots
static_roots s h =
    if ltb 0 s.static_field_size then set_roots h s.static_fields s.static_field_size else h

-- Generic_GetHeapRoots.
unfoldable pub generic_get_heap_roots : List StaticFields → HeapRoots → HeapRoots
generic_get_heap_roots [] h = h
generic_get_heap_roots (s ∷ ss) h = generic_get_heap_roots ss (static_roots s h)

-- MetaData_GetHeapRoots.
unfoldable pub metadata_get_heap_roots : List TypeRow → HeapRoots → HeapRoots
metadata_get_heap_roots [] h = h
metadata_get_heap_roots (t ∷ ts) h = metadata_get_heap_roots ts (
    if t.is_generic_definition
    then generic_get_heap_roots t.generic_instances h
    else static_roots t.own h)

-- CLIFile_GetHeapRoots, on the tables of the files that are loaded.
unfoldable pub clifile_get_heap_roots : List (List TypeRow) → HeapRoots → HeapRoots
clifile_get_heap_roots [] h = h
clifile_get_heap_roots (ts ∷ files) h = clifile_get_heap_roots files (metadata_get_heap_roots ts h)

-- The roots that GC_Mark starts with.
unfoldable pub all_roots : ℕ → List (List FrameRoots) → List (List TypeRow) → HeapRoots
all_roots state_size threads files =
    clifile_get_heap_roots files
      (thread_get_heap_roots state_size threads (record { capacity = 64; roots = [] }))
