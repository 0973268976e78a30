-- ===== src/Heap/Collect.antt =====
-- DotNetAnywhere/Heap.c: GC_Sweep, GarbageCollect and Heap_Alloc on the tree of the blocks. The
-- marking is a parameter, a function on trees, which is gc_mark of Heap/Mark. What the sweep does
-- elsewhere is a list of calls in order: the objects given to AddFinalizer, and those given to
-- RemoveWeakRefTarget.
pub mod Kept
pub mod Limits
pub mod Survivors
pub mod Reachable
mod Examples
use iron_net.Prelude.{
  ℕ, zero, suc, ◌+◌, ◌*◌, ◌^◌, Bool, true, false, not, ◌==◌, ◌&&◌, ltb, leb, if◌then◌else◌, u32,
  sub_u32, List, [], ◌∷◌, Option, none, some,
}
use iron_net.Heap.Entry.{HeapEntry}
use iron_net.Heap.Tree.{Tree, nil, node, insert, remove}

-- numPinned, pToDelete, and the calls of AddFinalizer and of RemoveWeakRefTarget with its flag, the last
-- one first.
pub record Swept : Type 0 where
  pub num_pinned : ℕ
  pub to_delete : List HeapEntry
  pub finalized : List ℕ
  pub weak_removed : List (ℕ × ℕ)

-- A block that is not in use and has no finalizer to run is deleted.
abbrev pub is_dead : HeapEntry → Bool
is_dead e = (e.marked == 0) && (e.need_to_finalize == 0)

-- The header of a node that the sweep has acted on.
unfoldable pub visit_entry : HeapEntry → HeapEntry
visit_entry e =
    if e.marked == 0
    then (if e.need_to_finalize == 1 then record e { need_to_finalize = 2 } else e)
    else (if e.marked == 255 then e else record e { marked = 0 })

abbrev pub remove_weak : HeapEntry → ℕ → List (ℕ × ℕ) → List (ℕ × ℕ)
remove_weak e flag calls = if e.sync == 0 then calls else (e.addr, flag) ∷ calls

-- What else the sweep does at a node; `header` is sizeof(tHeapEntry).
unfoldable pub visit : ℕ → HeapEntry → Swept → Swept
visit header e s =
    if e.marked == 0
    then (if e.need_to_finalize == 0
        then record s { to_delete = e ∷ s.to_delete; weak_removed = remove_weak e 1 s.weak_removed }
        else (if e.need_to_finalize == 1
            then record s {
              finalized = (e.addr + header) ∷ s.finalized;
              weak_removed = remove_weak e 0 s.weak_removed;
            }
            else s))
    else (if e.marked == 255 then record s { num_pinned = u32 (s.num_pinned + 1) } else s)

-- The traversal of GC_Sweep. The stack pUp gives a node before its left subtree, and that before the
-- right one.
unfoldable pub sweep_state : ℕ → Tree → Swept → Swept
sweep_state header nil s = s
sweep_state header (node l k e r) s = sweep_state header r (sweep_state header l (visit header e s))

unfoldable pub sweep_tree : Tree → Tree
sweep_tree nil = nil
sweep_tree (node l k e r) = node (sweep_tree l) k (visit_entry e) (sweep_tree r)

pub record HeapState : Type 0 where
  pub root : Tree
  pub track_heap_size : ℕ
  pub heap_size_max : ℕ
  pub num_nodes : ℕ
  pub num_pinned : ℕ
  pub num_collections : ℕ

-- The deletion of the nodes that are not used.
unfoldable pub delete_all : List HeapEntry → HeapState → HeapState
delete_all [] h = h
delete_all (e ∷ es) h = delete_all es (record h {
  root = remove h.root e.addr;
  num_nodes = sub_u32 h.num_nodes 1;
  track_heap_size = sub_u32 h.track_heap_size e.total_size;
})

abbrev pub is_empty : Tree → Bool
is_empty nil = true
is_empty (node l k e r) = false

abbrev pub nothing_swept : Swept
nothing_swept = record { num_pinned = 0; to_delete = []; finalized = []; weak_removed = [] }

-- GC_Sweep of a heap that has a block: the sentinel of an empty heap would itself be freed.
unfoldable pub gc_sweep : ℕ → HeapState → Option (HeapState × Swept)
gc_sweep header h =
    let s = sweep_state header h.root nothing_swept in
    if is_empty h.root
    then none
    else some (
      delete_all s.to_delete (record h { root = sweep_tree h.root; num_pinned = s.num_pinned }),
      s,
    )

-- GarbageCollect.
unfoldable pub garbage_collect : (Tree → Tree) → ℕ → HeapState → Option (HeapState × Swept)
garbage_collect gc_mark header h =
    gc_sweep header
      (record h { num_collections = u32 (h.num_collections + 1); root = gc_mark h.root })

abbrev pub min_heap_size : ℕ
min_heap_size = 1000000

abbrev pub max_heap_excess : ℕ
max_heap_excess = 4000000

-- The limit that Heap_Alloc sets after a collection, for the size with the new block.
unfoldable pub new_limit : ℕ → ℕ
new_limit size =
    let doubled = u32 (size * 2) in
    let raised =
      if ltb doubled (u32 (size + min_heap_size)) then u32 (size + min_heap_size) else doubled in
    if ltb (u32 (size + max_heap_excess)) raised then u32 (size + max_heap_excess) else raised

-- The first part of Heap_Alloc.
unfoldable pub make_room : (Tree → Tree) → ℕ → ℕ → HeapState → Option HeapState
make_room gc_mark header total_size h =
    if leb h.heap_size_max h.track_heap_size
    then (elim (garbage_collect gc_mark header h) [
      | none ↦ none
      | some (h', s) ↦
          some (record h' { heap_size_max = new_limit (u32 (h'.track_heap_size + total_size)) })
    ])
    else some h

-- Heap_Alloc of a block that calloc gives at addr, for a type with or without a finalizer.
unfoldable pub heap_alloc :
    (Tree → Tree) → ℕ → ℕ → Bool → ℕ → ℕ → HeapState → Option (ℕ × HeapState)
heap_alloc gc_mark header type_def has_finalizer addr size h =
    let total_size = u32 (header + size) in
    let entry : HeapEntry = record {
      addr = addr;
      total_size = total_size;
      marked = 0;
      need_to_finalize = if has_finalizer then 1 else 0;
      type_def = type_def;
      sync = 0;
    } in
    elim (make_room gc_mark header total_size h) [
      | none ↦ none
      | some h' ↦ some (
        addr + header,
        record h' {
          track_heap_size = u32 (h'.track_heap_size + total_size);
          root = insert h'.root entry;
          num_nodes = u32 (h'.num_nodes + 1);
        },
      )
    ]
