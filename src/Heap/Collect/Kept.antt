-- ===== src/Heap/Collect/Kept.antt =====
-- GC_Sweep as a whole.
use iron_net.Prelude.{
  ℕ, ◌<◌, ◌≡◌, refl, ap, sym, ◌∙◌, List, [], ◌∷◌, map, All, some, ◌==◌, Bool-cases, false, inl, inr,
  sub_u32,
}
use mathlib.Core.List.{append-nil}
use mathlib.Core.Path.{subst}
use iron_net.Heap.Entry.{HeapEntry}
use iron_net.Heap.Tree.{Tree, entries, remove}
use iron_net.Heap.Tree.Order.{IsAscending, IsOrdered}
use iron_net.Heap.Tree.Remove.{erase_entry, entries-remove}
use iron_net.Heap.Collect.{
  HeapState, Swept, sweep_state, sweep_tree, delete_all, gc_sweep, visit_entry, is_empty,
  nothing_swept,
}
use iron_net.Heap.Collect.Survivors.{survivors, dead_entries, entries-sweep_tree, sweep-to_delete}
use iron_net.Heap.Collect.Survivors.Erase.{erase_each, erase_each-dead, map-IsAscending}

erase_entry-All :
    (P : HeapEntry → Type 0) (d : ℕ) (xs : List HeapEntry) → All P xs → All P (erase_entry d xs)
unfolding erase_entry
erase_entry-All P d [] h = tt
erase_entry-All P d (x ∷ xs) (here, h) = elim (Bool-cases (x.addr == d)) [
  | inl e ↦ rw (erase_entry, e) h
  | inr e ↦ rw (erase_entry, e) (here, erase_entry-All P d xs h)
]

erase_entry-IsAscending :
    (d : ℕ) (xs : List HeapEntry) → IsAscending xs → IsAscending (erase_entry d xs)
unfolding erase_entry
erase_entry-IsAscending d [] h = tt
erase_entry-IsAscending d (x ∷ xs) (here, h) = elim (Bool-cases (x.addr == d)) [
  | inl e ↦ rw (erase_entry, e) h
  | inr e ↦
      rw (erase_entry, e)
        (erase_entry-All (λ f. x.addr < f.addr) d xs here, erase_entry-IsAscending d xs h)
]

remove-IsOrdered : (t : Tree) (d : ℕ) → IsOrdered t → IsOrdered (remove t d)
remove-IsOrdered t d h =
    subst IsAscending (sym (entries-remove t d h)) (erase_entry-IsAscending d (entries t) h)

entries-delete_all :
    (ds : List HeapEntry) (h : HeapState)
    → IsOrdered h.root
    → IsOrdered (delete_all ds h).root
      × (entries (delete_all ds h).root ≡ erase_each ds (entries h.root))
unfolding delete_all
entries-delete_all [] h ordered = (ordered, refl)
entries-delete_all (d ∷ ds) h ordered =
    let next : HeapState = record h {
      root = remove h.root d.addr;
      num_nodes = sub_u32 h.num_nodes 1;
      track_heap_size = sub_u32 h.track_heap_size d.total_size;
    } in
    let rest = entries-delete_all ds next (remove-IsOrdered h.root d.addr ordered) in
    (rest.0, rest.1 ∙ ap (erase_each ds) (entries-remove h.root d.addr ordered))

-- GC_Sweep of a heap with at least one block, whose tree is ordered by address, leaves exactly the blocks
-- that are marked or have a finalizer that is still to be run or is in the queue, in their order. The
-- marks of those in use are taken away, but for the pinned ones, and a block whose finalizer was still
-- to be run is noted as queued. The tree is again ordered by address.
pub gc_sweep-survivors :
    (header : ℕ) (h : HeapState)
    → is_empty h.root ≡ false
    → IsOrdered h.root
    → (h' : HeapState) × (s : Swept) × (gc_sweep header h ≡ some (h', s))
      × (entries h'.root ≡ survivors (entries h.root))
      × IsOrdered h'.root
unfolding gc_sweep
gc_sweep-survivors header h has_block ordered =
    let s = sweep_state header h.root nothing_swept in
    let swept : HeapState = record h { root = sweep_tree h.root; num_pinned = s.num_pinned } in
    let entries_swept : map visit_entry (entries h.root) ≡ entries (sweep_tree h.root) =
      sym (entries-sweep_tree h.root) in
    let still_ordered : IsOrdered (sweep_tree h.root) =
      subst IsAscending entries_swept (map-IsAscending (entries h.root) ordered) in
    let deleted = entries-delete_all s.to_delete swept still_ordered in
    let listed : s.to_delete ≡ dead_entries h.root =
      sweep-to_delete header h.root nothing_swept ∙ append-nil (dead_entries h.root) in
    (
      delete_all s.to_delete swept,
      s,
      rw (gc_sweep, has_block) refl,
      deleted.1
          ∙ ap (λ ds. erase_each ds (entries (sweep_tree h.root))) listed
          ∙ ap (erase_each (dead_entries h.root)) (sym entries_swept)
          ∙ erase_each-dead h.root ordered,
      deleted.0,
    )
