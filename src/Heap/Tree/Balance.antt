-- ===== src/Heap/Tree/Balance.antt =====
-- The levels of the AA tree: TreeInsert keeps them right.
use iron_net.Prelude.{ℕ, ◌+◌, ◌<◌, ◌≤◌, ◌≡◌, refl, arith, ltb, Bool-cases, inl, inr, ◌⊎◌}
use iron_net.Heap.Entry.{HeapEntry}
use iron_net.Heap.Tree.{Tree, nil, node, level, right, skew, split, insert}
use iron_net.Heap.Tree.Order.{insert-right, insert-left}

-- A left child is one level down, a right child is on the level or one down, and a right
-- grandchild is below the level.
abbrev pub IsBalanced : Tree → Type 0
IsBalanced nil = Unit
IsBalanced (node l k e r) =
    (level l + 1 ≡ k)
    × (level r ≤ k)
    × (k ≤ level r + 1)
    × (level (right r) < k)
    × IsBalanced l
    × IsBalanced r

-- What an insertion does to a subtree: its level stays, or it grows by one, which takes a right
-- child on the old level and leaves the new right child there.
abbrev Grown : Tree → Tree → Type 0
Grown t u =
    IsBalanced u
    × ((level u ≡ level t)
        ⊎ ((level u ≡ level t + 1) × (level (right t) ≡ level t) × (level (right u) ≡ level t)))

-- When the two rotations act, and what they give.
pub skew-id :
    (l : Tree) (k : ℕ) (e : HeapEntry) (r : Tree) → level l < k → skew (node l k e r) ≡ node l k e r
unfolding skew
skew-id nil k e r h = refl
skew-id (node a j f b) k e r h = ground arith

pub skew-rotate :
    (a : Tree) (j : ℕ) (f : HeapEntry) (b : Tree) (k : ℕ) (e : HeapEntry) (r : Tree)
    → j ≡ k
    → 0 < k
    → skew (node (node a j f b) k e r) ≡ node a j f (node b k e r)
unfolding skew
skew-rotate a j f b k e r h pos = ground arith

pub split-id :
    (l : Tree) (k : ℕ) (e : HeapEntry) (r : Tree)
    → level (right r) < k
    → split (node l k e r) ≡ node l k e r
unfolding split
split-id l k e nil h = refl
split-id l k e (node a j f b) h = ground arith

pub split-rotate :
    (l : Tree) (k : ℕ) (e : HeapEntry) (a : Tree) (j : ℕ) (f : HeapEntry) (b : Tree)
    → level b ≡ k
    → 0 < k
    → j < 255
    → split (node l k e (node a j f b)) ≡ node (node l k e a) (j + 1) f b
unfolding split
split-rotate l k e a j f b h pos small = ground arith

pub below_or_on : (a b : ℕ) → a ≤ b → (a < b) ⊎ (a ≡ b)
below_or_on a b h = grind arith

pub right-le : (t : Tree) → IsBalanced t → level (right t) ≤ level t
right-le nil h = omega arith
right-le (node l k e r) h = h.1

grow-left :
    (l : Tree) (k : ℕ) (e : HeapEntry) (r u : Tree)
    → IsBalanced (node l k e r)
    → k < 255
    → Grown l u
    → Grown (node l k e r) (split (skew (node u k e r)))
grow-left l k e r u h small (bu, inl same) =
    rw (skew-id u k e r (omega arith), split-id u k e r (omega arith))
      ((omega arith, h.1, h.2, h.3, bu, h.5), inl refl)
grow-left l k e r nil h small (bu, inr up) = absurd (omega arith)
grow-left l k e r (node a j f b) h small (bu, inr up) =
    rw (skew-rotate a j f b k e r (omega arith) (omega arith)) (elim (below_or_on (level r) k h.1) [
      | inl low ↦ rw (split-id a j f (node b k e r) (omega arith)) (
        (
          omega arith,
          omega arith,
          omega arith,
          omega arith,
          bu.4,
          (omega arith, h.1, h.2, h.3, bu.5, h.5),
        ),
        inl (omega arith),
      )
      | inr on ↦ rw (split-rotate a j f b k e r (omega arith) (omega arith) (omega arith)) (
        (
          omega arith,
          omega arith,
          omega arith,
          omega arith,
          (omega arith, omega arith, omega arith, omega arith, bu.4, bu.5),
          h.5,
        ),
        inr (refl, on, on),
      )
    ])

grow-right :
    (l : Tree) (k : ℕ) (e : HeapEntry) (r u : Tree)
    → IsBalanced (node l k e r)
    → k < 255
    → Grown r u
    → Grown (node l k e r) (split (skew (node l k e u)))
grow-right l k e r nil h small (bu, g) =
    rw (skew-id l k e nil (omega arith), split-id l k e nil (omega arith))
      ((h.0, omega arith, omega arith, omega arith, h.4, tt), inl refl)
grow-right l k e r (node a j f b) h small (bu, g) =
    rw (skew-id l k e (node a j f b) (omega arith)) (elim (below_or_on (level b) k (omega arith)) [
      | inl low ↦
          rw (split-id l k e (node a j f b) low)
            ((h.0, omega arith, omega arith, low, h.4, bu), inl refl)
      | inr on ↦
          let top : j < 255 = omega arith in
          let under : level (right a) ≤ level a = right-le a bu.4 in
          rw (split-rotate l k e a j f b on (omega arith) top) (
            (
              omega arith,
              omega arith,
              omega arith,
              omega arith,
              (h.0, omega arith, omega arith, omega arith, h.4, bu.4),
              bu.5,
            ),
            inr (omega arith, omega arith, on),
          )
    ])

insert-Grown : (t : Tree) (e : HeapEntry) → IsBalanced t → level t < 255 → Grown t (insert t e)
insert-Grown nil e h small =
    unfold insert in ((refl, omega arith, omega arith, omega arith, tt, tt), inr (refl, refl, refl))
insert-Grown (node l k f r) e h small = elim (Bool-cases (ltb f.addr e.addr)) [
  | inl p ↦
      rw (insert-right l k f r e p)
        (grow-right l k f r (insert r e) h small (insert-Grown r e h.5 (omega arith)))
  | inr p ↦
      rw (insert-left l k f r e p)
        (grow-left l k f r (insert l e) h small (insert-Grown l e h.4 (omega arith)))
]

-- TreeInsert keeps the levels of an AA tree right, and raises the root by one level at most, while
-- the root's U8 level is below 255.
pub insert-IsBalanced :
    (t : Tree) (e : HeapEntry)
    → IsBalanced t
    → level t < 255
    → IsBalanced (insert t e) × (level (insert t e) ≤ level t + 1)
insert-IsBalanced t e h small = let (b, up) = insert-Grown t e h small in (b, omega arith)
