-- ===== src/Heap/Mark/Paint.antt =====
-- The tree of the blocks after some of them have been marked.
use iron_net.Prelude.{
  ℕ, ◌≡◌, refl, ap, Bool, true, false, ◌==◌, ◌&&◌, ◌||◌, if◌then◌else◌, List, [], ◌∷◌, ◌++◌, map,
  Bool-cases, inl, inr, ◌⊎◌, ==_iff, arith, sym,
}
use mathlib.Core.Option
use iron_net.Heap.Entry.{HeapEntry}
use iron_net.Heap.Tree.{Tree, nil, node, search_block, entries}
use iron_net.Heap.Mark.{mark_entry, set_mark}

-- Whether the address is in the list.
abbrev pub has : List ℕ → ℕ → Bool
has [] a = false
has (b ∷ bs) a = (a == b) || has bs a

-- A block's header once the blocks at the addresses have been marked.
unfoldable pub paint : List ℕ → HeapEntry → HeapEntry
paint ms e = if (e.marked == 0) && has ms e.addr then record e { marked = 1 } else e

unfoldable pub paint_tree : List ℕ → Tree → Tree
paint_tree ms nil = nil
paint_tree ms (node l k e r) = node (paint_tree ms l) k (paint ms e) (paint_tree ms r)

pub paint_none : (e : HeapEntry) → paint [] e ≡ e
unfolding paint
paint_none e = ground arith

pub paint_tree_none : (t : Tree) → paint_tree [] t ≡ t
unfolding paint_tree
paint_tree_none nil = refl
paint_tree_none (node l k e r) = rw (paint_tree_none l, paint_tree_none r, paint_none e) refl

mark_entry-paint :
    (ms : List ℕ) (a : ℕ) (e : HeapEntry) → mark_entry a (paint ms e) ≡ paint (a ∷ ms) e
unfolding mark_entry paint
mark_entry-paint ms a e = ground arith

-- Marking one more block.
pub set_mark-paint :
    (ms : List ℕ) (a : ℕ) (t : Tree) → set_mark a (paint_tree ms t) ≡ paint_tree (a ∷ ms) t
unfolding set_mark paint_tree
set_mark-paint ms a nil = refl
set_mark-paint ms a (node l k e r) =
    rw (set_mark-paint ms a l, set_mark-paint ms a r, mark_entry-paint ms a e) refl

pub entries-paint :
    (ms : List ℕ) (t : Tree) → entries (paint_tree ms t) ≡ map (paint ms) (entries t)
unfolding paint_tree
entries-paint ms nil = refl
entries-paint ms (node l k e r) =
    rw (entries-paint ms l, entries-paint ms r) (sym (map_append (entries l) (e ∷ entries r)))
  where
    map_append :
        (xs ys : List HeapEntry)
        → map (paint ms) (xs ++ ys) ≡ map (paint ms) xs ++ map (paint ms) ys
    map_append [] ys = refl
    map_append (x ∷ xs) ys = ap (◌∷◌ (paint ms x)) (map_append xs ys)

pub paint-addr : (ms : List ℕ) (e : HeapEntry) → (paint ms e).addr ≡ e.addr
unfolding paint
paint-addr ms e = ground arith

paint-total_size : (ms : List ℕ) (e : HeapEntry) → (paint ms e).total_size ≡ e.total_size
unfolding paint
paint-total_size ms e = ground arith

-- TreeSearch does not look at the marks.
pub search_block-paint :
    (ms : List ℕ) (t : Tree) (p : ℕ)
    → search_block (paint_tree ms t) p ≡ Option.map (paint ms) (search_block t p)
unfolding search_block paint_tree
search_block-paint ms nil p = refl
search_block-paint ms (node l k e r) p = ground (
  arith,
  paint-addr ms e,
  paint-total_size ms e,
  search_block-paint ms l p,
  search_block-paint ms r p,
)

pub has-cons : (ms : List ℕ) (a b : ℕ) → has ms b ≡ true → has (a ∷ ms) b ≡ true
has-cons ms a b h = ground arith

pub has-here : (ms : List ℕ) (a : ℕ) → has (a ∷ ms) a ≡ true
has-here ms a = ground arith

pub has-cases : (ms : List ℕ) (a b : ℕ) → has (a ∷ ms) b ≡ true → (b ≡ a) ⊎ (has ms b ≡ true)
has-cases ms a b h = elim (Bool-cases (b == a)) [
  | inl e ↦ inl ((==_iff b a).0 e)
  | inr e ↦ inr (rw e at h)
]

pub paint-white :
    (ms : List ℕ) (e : HeapEntry) → e.marked ≡ 0 → has ms e.addr ≡ false → paint ms e ≡ e
unfolding paint
paint-white ms e h n = ground arith

pub paint-black :
    (ms : List ℕ) (e : HeapEntry)
    → ((e.marked ≡ 0) → has ms e.addr ≡ true)
    → ((paint ms e).marked == 0) ≡ false
unfolding paint
paint-black ms e h = elim (Bool-cases (e.marked == 0)) [
  | inl z ↦ ground (arith, h ((==_iff e.marked 0).0 z))
  | inr z ↦ ground arith
]
