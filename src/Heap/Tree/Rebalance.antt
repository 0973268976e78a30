-- ===== src/Heap/Tree/Rebalance.antt =====
-- The levels of the AA tree: TreeRemove keeps them right.
use iron_net.Prelude.{ℕ, ◌+◌, ◌-◌, ◌<◌, ◌≤◌, ◌≡◌, refl, arith, inl, inr, ◌⊎◌}
use iron_net.Heap.Entry.{HeapEntry}
use iron_net.Heap.Tree.{
  Tree, nil, node, level, right, skew, split, rotate, rebalance, balance, on_right,
}
use iron_net.Heap.Tree.Balance.{
  IsBalanced, skew-id, skew-rotate, split-id, split-rotate, below_or_on, right-le,
}

pub balance-id :
    (l : Tree) (k : ℕ) (e : HeapEntry) (r : Tree)
    → k ≤ level l + 1
    → k ≤ level r + 1
    → balance (node l k e r) ≡ node l k e r
unfolding balance
balance-id l k e r hl hr = ground arith

pub balance-lower :
    (l : Tree) (k : ℕ) (e : HeapEntry) (r : Tree)
    → (level l + 1 < k) ⊎ (level r + 1 < k)
    → balance (node l k e r) ≡ rebalance l (k - 1) e r
unfolding balance
balance-lower l k e r (inl h) = ground arith
balance-lower l k e r (inr h) = ground arith

skew-balanced : (t : Tree) → IsBalanced t → skew t ≡ t
skew-balanced nil h = unfold skew in refl
skew-balanced (node l k e r) h = skew-id l k e r (omega arith)

split-balanced : (t : Tree) → IsBalanced t → split t ≡ t
split-balanced nil h = unfold split in refl
split-balanced (node l k e r) h = split-id l k e r h.3

-- The root comes down to level m, over a right child on that level.
pub rotate-low :
    (u : Tree) (m : ℕ) (e : HeapEntry) (r : Tree)
    → m < 255
    → IsBalanced u
    → IsBalanced r
    → level u + 1 ≡ m
    → level r ≡ m
    → IsBalanced (rotate (node u m e r))
      × (((level (rotate (node u m e r)) ≡ m + 1) × (level (right (rotate (node u m e r))) < m + 1))
          ⊎ (level (rotate (node u m e r)) ≡ m))
unfolding rotate
rotate-low u m e nil small bu br hu hr = absurd (omega arith)
rotate-low u m e (node c j f d) small bu br hu hr =
    rw
      (
        skew-id u m e (node c j f d) (omega arith),
        skew-balanced (node c j f d) br,
        skew-balanced d br.5,
      )
      (elim (below_or_on (level d) m (omega arith)) [
        | inl low ↦
            rw (split-id u m e (node c j f d) low, split-balanced (node c j f d) br)
              ((hu, omega arith, omega arith, low, bu, br), inr refl)
        | inr on ↦
            rw (split-rotate u m e c j f d on (omega arith) (omega arith), split-balanced d br.5)
              (
                (
                  omega arith,
                  omega arith,
                  omega arith,
                  omega arith,
                  (hu, omega arith, omega arith, omega (arith, right-le c br.4), bu, br.4),
                  br.5,
                ),
                inl (omega arith, omega arith),
              )
      ])

-- TreeSplit of a node that has a balanced right child on its own level.
split-level :
    (l : Tree) (m : ℕ) (e : HeapEntry) (d : Tree)
    → m < 255
    → IsBalanced l
    → IsBalanced d
    → level l + 1 ≡ m
    → level d ≡ m
    → IsBalanced (split (node l m e d))
      × (m ≤ level (split (node l m e d)))
      × (level (split (node l m e d)) ≤ m + 1)
      × (level (right (split (node l m e d))) ≤ m)
split-level l m e nil small bl bd hl hd = absurd (omega arith)
split-level l m e (node a j f b) small bl bd hl hd = elim (below_or_on (level b) m (omega arith)) [
  | inl low ↦
      rw (split-id l m e (node a j f b) low)
        ((hl, omega arith, omega arith, low, bl, bd), omega arith, omega arith, omega arith)
  | inr on ↦ rw (split-rotate l m e a j f b on (omega arith) (omega arith)) (
    (
      omega arith,
      omega arith,
      omega arith,
      omega arith,
      (hl, omega arith, omega arith, omega (arith, right-le a bd.4), bl, bd.4),
      bd.5,
    ),
    omega arith,
    omega arith,
    omega arith,
  )
]

-- The right child, of the children c and d, comes down to level m with the root, and its left child
-- ca i g cb is lifted over it. First where cb stays below that level, then where cb rises too.
module _ (u : Tree) (m : ℕ) (e : HeapEntry) (ca : Tree) (i : ℕ) (g : HeapEntry) (f : HeapEntry)
    (d : Tree) (small : m < 255) (bu : IsBalanced u) (bd : IsBalanced d) (hu : level u + 1 ≡ m)
    (hc : i ≡ m) (hd : level d ≡ m) where
  lift-once :
      (cb : Tree)
      → IsBalanced (node ca i g cb)
      → level cb < m
      → IsBalanced (on_right split (split (node u m e (node ca i g (skew (node cb m f d))))))
        × (level (on_right split (split (node u m e (node ca i g (skew (node cb m f d)))))) ≡ m + 1)
  lift-once cb bc low =
      let left : IsBalanced (node u m e ca) =
        (hu, omega arith, omega arith, omega (arith, right-le ca bc.4), bu, bc.4) in
      let (bs, lo, hi, under) = split-level cb m f d small bc.5 bd (omega arith) hd in
      rw
        (
          skew-id cb m f d low,
          split-rotate u m e ca i g (node cb m f d) refl (omega arith) (omega arith),
        )
        ((omega arith, omega arith, omega arith, omega arith, left, bs), omega arith)

  lift-twice :
      (cb : Tree)
      → IsBalanced (node ca i g cb)
      → level cb ≡ m
      → IsBalanced (on_right split (split (node u m e (node ca i g (skew (node cb m f d))))))
        × (level (on_right split (split (node u m e (node ca i g (skew (node cb m f d)))))) ≡ m + 1)
  lift-twice nil bc on = absurd (omega arith)
  lift-twice (node x j p y) bc on =
      let left : IsBalanced (node u m e ca) =
        (hu, omega arith, omega arith, omega (arith, right-le ca bc.4), bu, bc.4) in
      let inner : IsBalanced (node x j p y) = bc.5 in
      rw
        (
          skew-rotate x j p y m f d on (omega arith),
          split-rotate u m e ca i g (node x j p (node y m f d)) on (omega arith) (omega arith),
          split-rotate x j p y m f d (omega arith) (omega arith) (omega arith),
        )
        (
          (
            omega arith,
            omega arith,
            omega arith,
            omega arith,
            left,
            (omega arith, omega arith, omega arith, omega (arith, right-le d bd), inner, bd),
          ),
          omega arith,
        )

pub rotate-twice :
    (u : Tree) (m : ℕ) (e : HeapEntry) (c : Tree) (f : HeapEntry) (d : Tree)
    → m < 255
    → IsBalanced u
    → IsBalanced c
    → IsBalanced d
    → level u + 1 ≡ m
    → level c ≡ m
    → level d ≡ m
    → IsBalanced (rotate (node u m e (node c m f d)))
      × (level (rotate (node u m e (node c m f d))) ≡ m + 1)
unfolding rotate
rotate-twice u m e nil f d small bu bc bd hu hc hd = absurd (omega arith)
rotate-twice u m e (node ca i g cb) f d small bu bc bd hu hc hd =
    rw
      (
        skew-id u m e (node (node ca i g cb) m f d) (omega arith),
        skew-rotate ca i g cb m f d hc (omega arith),
      )
      (elim (below_or_on (level cb) m (omega arith)) [
        | inl low ↦ lift-once u m e ca i g f d small bu bd hu hc hd cb bc low
        | inr on ↦ lift-twice u m e ca i g f d small bu bd hu hc hd cb bc on
      ])

-- The right subtree has dropped: the left child is lifted over the root.
pub rotate-right :
    (l : Tree) (m : ℕ) (e : HeapEntry) (u : Tree)
    → m < 255
    → IsBalanced l
    → IsBalanced u
    → level l ≡ m
    → level u + 1 ≡ m
    → IsBalanced (rotate (node l m e u))
      × (((level (rotate (node l m e u)) ≡ m + 1) × (level (right (rotate (node l m e u))) < m + 1))
          ⊎ (level (rotate (node l m e u)) ≡ m))
unfolding rotate
rotate-right nil m e u small bl bu hl hu = absurd (omega arith)
rotate-right (node a i g nil) m e u small bl bu hl hu =
    rw
      (
        skew-rotate a i g nil m e u hl (omega arith),
        skew-id nil m e u (omega arith),
        skew-balanced u bu,
        split-id a i g (node nil m e u) (omega arith),
        split-id nil m e u (omega (arith, right-le u bu)),
      )
      (
        (
          omega arith,
          omega arith,
          omega arith,
          omega arith,
          bl.4,
          (omega arith, omega arith, omega arith, omega (arith, right-le u bu), tt, bu),
        ),
        inr hl,
      )
rotate-right (node a i g (node x j p y)) m e u small bl bu hl hu =
    rw (skew-rotate a i g (node x j p y) m e u hl (omega arith))
      (elim (below_or_on j m (omega arith)) [
        | inl low ↦
            rw
              (
                skew-id (node x j p y) m e u low,
                skew-balanced u bu,
                split-id a i g (node (node x j p y) m e u) (omega arith),
                split-id (node x j p y) m e u (omega (arith, right-le u bu)),
              )
              (
                (
                  omega arith,
                  omega arith,
                  omega arith,
                  omega arith,
                  bl.4,
                  (omega arith, omega arith, omega arith, omega (arith, right-le u bu), bl.5, bu),
                ),
                inr hl,
              )
        | inr on ↦
            rw
              (
                skew-rotate x j p y m e u on (omega arith),
                skew-id y m e u (omega arith),
                split-rotate a i g x j p (node y m e u) (omega arith) (omega arith) (omega arith),
                split-id y m e u (omega (arith, right-le u bu)),
              )
              (
                (
                  omega arith,
                  omega arith,
                  omega arith,
                  omega arith,
                  (
                    omega arith,
                    omega arith,
                    omega arith,
                    omega (arith, right-le x bl.5.4),
                    bl.4,
                    bl.5.4,
                  ),
                  (omega arith, omega arith, omega arith, omega (arith, right-le u bu), bl.5.5, bu),
                ),
                inl (omega arith, omega arith),
              )
      ])
