-- ===== src/Heap/Mark.antt =====
-- DotNetAnywhere/Heap.c: Heap_SetRoots and GC_Mark. A pointer has 4 bytes. The list of roots holds the
-- first `num` entries of pHeapEntries, the last one first. The types of the blocks are read only, and a
-- parameter, as is the memory that the roots lie in. The functions that collect the roots stand in Roots.
pub mod Roots
pub mod Paint
pub mod Reach
pub mod Scan
pub mod Marked
pub mod Ends
mod Examples
use iron_net.Prelude.{
  ℕ, zero, suc, ◌+◌, ◌*◌, ◌/◌, Bool, true, false, not, ◌==◌, ◌&&◌, ◌||◌, leb, if◌then◌else◌,
  sub_u32, u32, List, [], ◌∷◌, Option, none, some, length, Memory, get_u32,
}
use iron_net.Heap.Entry.{HeapEntry}
use iron_net.Heap.Tree.{Tree, nil, node, search_block, entries}

-- What GC_Mark reads of a tMD_TypeDef; `element_stack_type` is that of pArrayElementType.
pub record TypeDef : Type 0 where
  pub stack_type : ℕ
  pub is_array : Bool
  pub element_stack_type : ℕ

-- The types by their addresses, and types[TYPE_SYSTEM_STRING] and types[TYPE_SYSTEM_WEAKREFERENCE].
pub record Types : Type 0 where
  pub type_at : ℕ → TypeDef
  pub string_type : ℕ
  pub weak_reference_type : ℕ

abbrev pub evalstack_ptr : ℕ
evalstack_ptr = 4

abbrev pub evalstack_o : ℕ
evalstack_o = 5

abbrev pub evalstack_valuetype : ℕ
evalstack_valuetype = 7

abbrev pub may_refer : ℕ → Bool
may_refer stack_type =
    (stack_type == evalstack_o)
    || (stack_type == evalstack_valuetype)
    || (stack_type == evalstack_ptr)

-- Whether the contents of a block are looked at.
unfoldable pub is_scanned : Types → HeapEntry → Bool
is_scanned types e =
    let t = types.type_at e.type_def in
    may_refer t.stack_type
    && not (e.type_def == types.string_type)
    && (not t.is_array || may_refer t.element_stack_type)
    && not (e.type_def == types.weak_reference_type)

pub record RootEntry : Type 0 where
  pub num_pointers : ℕ
  pub mem : ℕ

pub record HeapRoots : Type 0 where
  pub capacity : ℕ
  pub roots : List RootEntry

-- Heap_SetRoots.
unfoldable pub set_roots : HeapRoots → ℕ → ℕ → HeapRoots
set_roots h roots size_in_bytes = record {
  capacity = if leb h.capacity (length h.roots) then u32 (h.capacity * 2) else h.capacity;
  roots = (record { num_pointers = size_in_bytes / 4; mem = roots }) ∷ h.roots;
}

-- `pNode->marked = 1` at the node of the address, where `pNode->marked == 0`.
unfoldable pub mark_entry : ℕ → HeapEntry → HeapEntry
mark_entry a e = if (e.marked == 0) && (e.addr == a) then record e { marked = 1 } else e

unfoldable pub set_mark : ℕ → Tree → Tree
set_mark a nil = nil
set_mark a (node l k e r) = node (set_mark a l) k (mark_entry a e) (set_mark a r)

-- The state of the loop: the tree, the roots, and moreRootsAdded.
pub record Marking : Type 0 where
  pub tree : Tree
  pub heap_roots : HeapRoots
  pub more_roots_added : Bool

-- The size of the memory of a block.
abbrev pub memory_size : ℕ → HeapEntry → ℕ
memory_size header e = sub_u32 e.total_size header

abbrev pub done_entry : RootEntry
done_entry = record { num_pointers = 0; mem = 0 }

-- `heapRoots.num--`
abbrev pub pop_root : HeapRoots → HeapRoots
pop_root h = record h { roots = elim h.roots [ [] ↦ [] | r ∷ rest ↦ rest ] }

-- The roots that the next round has.
unfoldable pub next_roots : Marking → HeapRoots
next_roots m = if m.more_roots_added then m.heap_roots else pop_root m.heap_roots

-- The rounds that the loop has at most.
abbrev pub enough_rounds : Tree → HeapRoots → ℕ
enough_rounds t h = length h.roots + 2 * length (entries t)

module _ (types : Types) (header : ℕ) (memory : Memory) where
  -- What is done with the block that a pointer was found to lead to.
  unfoldable pub mark_found : HeapEntry → Marking → Marking
  mark_found e m =
      if e.marked == 0
      then (if is_scanned types e
          then record {
            tree = set_mark e.addr m.tree;
            heap_roots = set_roots m.heap_roots (e.addr + header) (memory_size header e);
            more_roots_added = true;
          }
          else record m { tree = set_mark e.addr m.tree })
      else m

  -- The body of the loop over the pointers of a range.
  unfoldable pub visit_pointer : ℕ → Marking → Marking
  visit_pointer mem_ref m =
      if mem_ref == 0
      then m
      else (elim (search_block m.tree mem_ref) [ none ↦ m | some e ↦ mark_found e m ])

  -- The loop over the pointers that are left of a range.
  unfoldable pub visit_range : ℕ → ℕ → Marking → Marking
  visit_range zero p m = m
  visit_range (suc left) p m = visit_range left (p + 4) (visit_pointer (get_u32 memory p) m)

  -- One round of the `while` loop, on the roots r and, below it, rest.
  unfoldable pub mark_round : RootEntry → List RootEntry → ℕ → Tree → Marking
  mark_round r rest capacity t = visit_range r.num_pointers r.mem (record {
    tree = t;
    heap_roots = record { capacity = capacity; roots = done_entry ∷ rest };
    more_roots_added = false;
  })

  -- The `while` loop; `none` when the fuel is used up.
  unfoldable pub mark_loop : ℕ → Tree → HeapRoots → Option Tree
  mark_loop zero t h = elim h.roots [ [] ↦ some t | r ∷ rest ↦ none ]
  mark_loop (suc fuel) t h = elim h.roots [
    | [] ↦ some t
    | r ∷ rest ↦ let m = mark_round r rest h.capacity t in mark_loop fuel m.tree (next_roots m)
  ]

  -- GC_Mark, with the roots that Thread_GetHeapRoots and CLIFile_GetHeapRoots have set.
  unfoldable pub gc_mark : HeapRoots → Tree → Tree
  gc_mark h t = elim (mark_loop (enough_rounds t h) t h) [ none ↦ t | some t' ↦ t' ]
