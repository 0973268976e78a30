-- ===== src/Heap/Collect/Survivors.antt =====
-- Which blocks are left by a sweep.
pub mod Erase
use iron_net.Prelude.{
  ℕ, ◌<◌, ◌≤◌, ◌≡◌, refl, ap, sym, ◌∙◌, List, [], ◌∷◌, ◌++◌, map, All, true, false, ◌==◌,
  if◌then◌else◌, Bool-cases, inl, inr, arith,
}
use mathlib.Core.List.{append_assoc}
use mathlib.Core.Path.{subst}
use iron_net.Heap.Entry.{HeapEntry}
use iron_net.Heap.Tree.{Tree, nil, node, entries}
use iron_net.Heap.Tree.Order.{IsAscending, IsOrdered, All-append, append-All, Ascending-split}
use iron_net.Heap.Tree.Remove.{erase_entry}
use iron_net.Heap.Collect.{Swept, is_dead, visit_entry, visit, sweep_state, sweep_tree}

-- The blocks that are left of a list: those that are not dead, with the header that the sweep gives them.
abbrev pub survivors : List HeapEntry → List HeapEntry
survivors [] = []
survivors (e ∷ es) = if is_dead e then survivors es else visit_entry e ∷ survivors es

-- The dead blocks, as the sweep puts them on its list.
abbrev pub dead_one : HeapEntry → List HeapEntry
dead_one e = if is_dead e then e ∷ [] else []

abbrev pub dead_entries : Tree → List HeapEntry
dead_entries nil = []
dead_entries (node l k e r) = dead_entries r ++ (dead_entries l ++ dead_one e)

pub visit-to_delete :
    (header : ℕ) (e : HeapEntry) (s : Swept)
    → (visit header e s).to_delete ≡ dead_one e ++ s.to_delete
unfolding visit
visit-to_delete header e s = ground arith

pub sweep-to_delete :
    (header : ℕ) (t : Tree) (s : Swept)
    → (sweep_state header t s).to_delete ≡ dead_entries t ++ s.to_delete
unfolding sweep_state
sweep-to_delete header nil s = refl
sweep-to_delete header (node l k e r) s =
    let s1 = visit header e s in
    let s2 = sweep_state header l s1 in
    sweep-to_delete header r s2
    ∙ ap (λ t. dead_entries r ++ t)
        (sweep-to_delete header l s1 ∙ ap (λ t. dead_entries l ++ t) (visit-to_delete header e s))
    ∙ rw (append_assoc, append_assoc) refl

pub map_append :
    (xs ys : List HeapEntry) → map visit_entry (xs ++ ys) ≡ map visit_entry xs ++ map visit_entry ys
map_append [] ys = refl
map_append (x ∷ xs) ys = ap (◌∷◌ (visit_entry x)) (map_append xs ys)

pub visit_entry-addr : (e : HeapEntry) → (visit_entry e).addr ≡ e.addr
unfolding visit_entry
visit_entry-addr e = ground arith

pub entries-sweep_tree : (t : Tree) → entries (sweep_tree t) ≡ map visit_entry (entries t)
unfolding sweep_tree
entries-sweep_tree nil = refl
entries-sweep_tree (node l k e r) =
    rw (entries-sweep_tree l, entries-sweep_tree r) (sym (map_append (entries l) (e ∷ entries r)))
