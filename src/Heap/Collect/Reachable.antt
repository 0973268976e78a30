-- ===== src/Heap/Collect/Reachable.antt =====
-- A whole collection: GC_Mark and GC_Sweep together.
use iron_net.Prelude.{ℕ, ◌≡◌, ◌⊎◌, false, List}
use mathlib.Core.List.{Memᴰ}
use iron_net.Heap.Entry.{HeapEntry}
use iron_net.Heap.Tree.{Tree, entries}
use iron_net.Heap.Collect.{visit_entry, is_dead}
use iron_net.Heap.Mark.Paint.{paint}
use iron_net.Heap.Mark.Reach.{Reach}

-- A survivor is what the sweep makes of a block that is not dead.
abbrev Survives : List ℕ → HeapEntry → List HeapEntry → Type 0
Survives ms f xs =
    (e : HeapEntry) × Memᴰ e xs × (is_dead (paint ms e) ≡ false) × (f ≡ visit_entry (paint ms e))

-- No block has a mark but the pinned ones, as it is between two collections.
abbrev pub IsUnmarked : Tree → Type 0
IsUnmarked t = (e : HeapEntry) → Memᴰ e (entries t) → (e.marked ≡ 0) ⊎ (e.marked ≡ 255)
