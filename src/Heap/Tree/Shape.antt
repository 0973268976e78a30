-- ===== src/Heap/Tree/Shape.antt =====
-- The rotations of Heap/Tree keep the sequence of entries.
use iron_net.Prelude.{ℕ, ◌-◌, ◌≡◌, refl, ◌∙◌, ◌∷◌, arith, ltb, if◌then◌else◌}
use iron_net.Heap.Entry.{HeapEntry}
use iron_net.Heap.Tree.{
  Tree, nil, node, level, on_right, set_level, skew, split, rotate, rebalance, balance, entries,
}
use mathlib.Core.List.{append_assoc}

pub entries-skew : (t : Tree) → entries (skew t) ≡ entries t
unfolding skew
entries-skew nil = refl
entries-skew (node nil k e r) = refl
entries-skew (node (node a j f b) k e r) =
    ground (arith, append_assoc (entries a) (f ∷ entries b) (e ∷ entries r))

pub entries-split : (t : Tree) → entries (split t) ≡ entries t
unfolding split
entries-split nil = refl
entries-split (node l k e nil) = refl
entries-split (node l k e (node a j f b)) =
    ground (arith, append_assoc (entries l) (e ∷ entries a) (f ∷ entries b))

pub entries-on_right :
    (f : Tree → Tree)
    → ((t : Tree) → entries (f t) ≡ entries t)
    → (t : Tree) → entries (on_right f t) ≡ entries t
entries-on_right f keep nil = refl
entries-on_right f keep (node l k e r) = rw (keep r)

entries-set_level : (k : ℕ) (t : Tree) → entries (set_level k t) ≡ entries t
entries-set_level k nil = refl
entries-set_level k (node l j e r) = refl

entries-lowered :
    (l : Tree) (k : ℕ) (e : HeapEntry) (r : Tree)
    → entries (node l k e (if ltb k (level r) then set_level k r else r)) ≡ entries (node l k e r)
entries-lowered l k e r = ground (arith, entries-set_level k r)

entries-rotate : (t : Tree) → entries (rotate t) ≡ entries t
unfolding rotate
entries-rotate t =
    let skewed = on_right skew (skew t) in
    entries-on_right split entries-split (split (on_right (on_right skew) skewed))
    ∙ entries-split (on_right (on_right skew) skewed)
    ∙ entries-on_right (on_right skew) (entries-on_right skew entries-skew) skewed
    ∙ entries-on_right skew entries-skew (skew t)
    ∙ entries-skew t

entries-rebalance :
    (l : Tree) (k : ℕ) (e : HeapEntry) (r : Tree)
    → entries (rebalance l k e r) ≡ entries (node l k e r)
unfolding rebalance
entries-rebalance l k e r = entries-rotate _ ∙ entries-lowered l k e r

-- TreeBalance keeps the sequence of entries, whatever the levels are.
pub entries-balance : (t : Tree) → entries (balance t) ≡ entries t
unfolding balance
entries-balance nil = refl
entries-balance (node l k e r) = ground (arith, entries-rebalance l (k - 1) e r)
