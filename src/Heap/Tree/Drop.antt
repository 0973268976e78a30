-- ===== src/Heap/Tree/Drop.antt =====
-- TreeRemove keeps the levels of the AA tree right: each subtree that loses a node drops by at most
-- one level, and TreeBalance mends the node above it.
use iron_net.Prelude.{ℕ, zero, suc, ◌+◌, ◌-◌, ◌<◌, ◌≤◌, ◌≡◌, refl, arith, inl, inr, ◌⊎◌}
use iron_net.Heap.Entry.{HeapEntry}
use iron_net.Heap.Tree.{
  Tree, nil, node, level, right, height, rotate, rebalance, balance, replace_heir, unlink, heir,
  remove_fuel, remove,
}
use iron_net.Heap.Tree.Balance.{IsBalanced, below_or_on, right-le}
use iron_net.Heap.Tree.Rebalance.{balance-id, balance-lower, rotate-low, rotate-twice, rotate-right}
use iron_net.Heap.Tree.Remove.{remove-here, remove-right, remove-left, compare_cases}
use iron_net.Prelude.{==_iff}

-- The level stays, and no right child rises to it, or it drops by one.
abbrev Shrunk : Tree → Tree → Type 0
Shrunk t u =
    IsBalanced u
    × (((level u ≡ level t) × ((level (right t) ≡ level t) ⊎ (level (right u) < level u)))
        ⊎ (level u + 1 ≡ level t))

rebalance-keep :
    (l : Tree) (m : ℕ) (e : HeapEntry) (r : Tree)
    → level r ≤ m
    → rebalance l m e r ≡ rotate (node l m e r)
unfolding rebalance
rebalance-keep l m e r h = ground arith

rebalance-lowered :
    (l : Tree) (m : ℕ) (e : HeapEntry) (c : Tree) (j : ℕ) (f : HeapEntry) (d : Tree)
    → m < j
    → rebalance l m e (node c j f d) ≡ rotate (node l m e (node c m f d))
unfolding rebalance
rebalance-lowered l m e c j f d h = ground arith

drop-left :
    (l : Tree) (k : ℕ) (e : HeapEntry) (r u : Tree)
    → IsBalanced (node l k e r)
    → k < 256
    → IsBalanced u
    → level u + 1 ≡ level l
    → Shrunk (node l k e r) (balance (node u k e r))
drop-left l k e nil u h small bu down = absurd (omega arith)
drop-left l k e (node c j f d) u h small bu down =
    rw (balance-lower u k e (node c j f d) (inl (omega arith))) (elim (below_or_on j k h.1) [
      | inl low ↦ rw (rebalance-keep u (k - 1) e (node c j f d) (omega arith)) (
          let (b, up) =
            rotate-low u (k - 1) e (node c j f d) (omega arith) bu h.5 (omega arith)
              (omega arith) in
          (b, elim up [ inl s ↦ inl (omega arith, inr (omega arith)) | inr s ↦ inr (omega arith) ]))
      | inr on ↦ rw (rebalance-lowered u (k - 1) e c j f d (omega arith)) (
          let (b, up) =
            rotate-twice u (k - 1) e c f d (omega arith) bu h.5.4 h.5.5 (omega arith) (omega arith)
              (omega arith) in
          (b, inl (omega arith, inl on)))
    ])

shrink-left :
    (l : Tree) (k : ℕ) (e : HeapEntry) (r u : Tree)
    → IsBalanced (node l k e r)
    → k < 256
    → Shrunk l u
    → Shrunk (node l k e r) (balance (node u k e r))
shrink-left l k e r u h small (bu, inr down) = drop-left l k e r u h small bu down
shrink-left l k e r u h small (bu, inl same) = rw (balance-id u k e r (omega arith) (omega arith)) (
  (omega arith, h.1, h.2, h.3, bu, h.5),
  inl (refl, elim (below_or_on (level r) k h.1) [ inl low ↦ inr low | inr on ↦ inl on ]),
)

shrink-right :
    (l : Tree) (k : ℕ) (e : HeapEntry) (r u : Tree)
    → IsBalanced (node l k e r)
    → k < 256
    → Shrunk r u
    → Shrunk (node l k e r) (balance (node l k e u))
shrink-right l k e r u h small (bu, inl same) =
    rw (balance-id l k e u (omega arith) (omega arith)) (
      (h.0, omega arith, omega arith, omega (arith, right-le u bu), h.4, bu),
      inl (
        refl,
        elim (below_or_on (level r) k h.1) [ inl low ↦ inr (omega arith) | inr on ↦ inl on ],
      ),
    )
shrink-right l k e r u h small (bu, inr down) = elim (below_or_on (level r) k h.1) [
  | inl low ↦
      rw (balance-lower l k e u (inr (omega arith)), rebalance-keep l (k - 1) e u (omega arith))
        (let (b, up) =
            rotate-right l (k - 1) e u (omega arith) h.4 bu (omega arith) (omega arith) in
          (b, elim up [ inl s ↦ inl (omega arith, inr (omega arith)) | inr s ↦ inr (omega arith) ]))
  | inr on ↦
      rw (balance-id l k e u (omega arith) (omega arith))
        ((h.0, omega arith, omega arith, omega (arith, right-le u bu), h.4, bu), inl (refl, inl on))
]

level-replace_heir : (t : Tree) (d : HeapEntry) → level (replace_heir t d) ≡ level t
level-replace_heir nil d = refl
level-replace_heir (node l k e nil) d = refl
level-replace_heir (node l k e (node a j f b)) d = refl

right-replace_heir : (t : Tree) (d : HeapEntry) → level (right (replace_heir t d)) ≡ level (right t)
right-replace_heir nil d = refl
right-replace_heir (node l k e nil) d = refl
right-replace_heir (node l k e (node a j f b)) d = level-replace_heir (node a j f b) d

replace_heir-IsBalanced : (t : Tree) (d : HeapEntry) → IsBalanced t → IsBalanced (replace_heir t d)
replace_heir-IsBalanced nil d h = tt
replace_heir-IsBalanced (node l k e nil) d h = h
replace_heir-IsBalanced (node l k e (node a j f b)) d h = (
  h.0,
  omega (arith, level-replace_heir (node a j f b) d, h.1),
  omega (arith, level-replace_heir (node a j f b) d, h.2),
  omega (arith, right-replace_heir (node a j f b) d, h.3),
  h.4,
  replace_heir-IsBalanced (node a j f b) d h.5,
)

balance-balanced : (t : Tree) → IsBalanced t → balance t ≡ t
balance-balanced nil h = unfold balance in refl
balance-balanced (node l k e r) h = balance-id l k e r (omega arith) h.2

shrink-unlink :
    (rest : Tree → Tree) (l : Tree) (k : ℕ) (e : HeapEntry) (r : Tree)
    → IsBalanced (node l k e r)
    → k < 256
    → ((t : Tree) → IsBalanced t → level t < 256 → Shrunk t (rest t))
    → Shrunk (node l k e r) (balance (unlink rest l k e r))
shrink-unlink rest nil k e r h small ih = rw (balance-balanced r h.5) (
  h.5,
  elim (below_or_on (level r) k h.1) [ inl low ↦ inr (omega arith) | inr on ↦ inl (on, inl on) ],
)
shrink-unlink rest (node a j f b) k e nil h small ih = absurd (omega arith)
shrink-unlink rest (node a j f b) k e (node c i g d) h small ih =
    let l : Tree = node a j f b in
    let l' : Tree = replace_heir l e in
    let bl : IsBalanced l' = replace_heir-IsBalanced l e h.4 in
    let same : level l' ≡ j = level-replace_heir l e in
    shrink-left l' k (heir l e) (node c i g d) (rest l') (omega arith, h.1, h.2, h.3, bl, h.5) small
      (ih l' bl (omega arith))

remove_fuel-Shrunk :
    (n : ℕ) (t : Tree) (d : ℕ) → IsBalanced t → level t < 256 → Shrunk t (remove_fuel n t d)
remove_fuel-Shrunk zero t d h small =
    unfold remove_fuel in
    (h, inl (refl, elim (below_or_on _ _ (right-le t h)) [ inl low ↦ inr low | inr on ↦ inl on ]))
remove_fuel-Shrunk (suc n) nil d h small = unfold remove_fuel in (tt, inl (refl, inl refl))
remove_fuel-Shrunk (suc n) (node l k e r) d h small = elim (compare_cases e.addr d) [
  | inl p ↦ rw (remove-right n l k e r d p) (
      shrink-right l k e r (remove_fuel n r d) h small (remove_fuel-Shrunk n r d h.5 (omega arith)))
  | inr (inl q) ↦ rw (remove-here n l k e r d ((==_iff e.addr d).1 q)) (
      shrink-unlink (λ t. remove_fuel n t d) l k e r h small
        (λ t b low. remove_fuel-Shrunk n t d b low))
  | inr (inr p) ↦
      rw (remove-left n l k e r d p) (
        shrink-left l k e r (remove_fuel n l d) h small
          (remove_fuel-Shrunk n l d h.4 (omega arith)))
]

-- TreeRemove keeps the levels of an AA tree right, and the root's level stays or drops by one.
pub remove-IsBalanced :
    (t : Tree) (d : ℕ)
    → IsBalanced t
    → level t < 256
    → IsBalanced (remove t d)
      × ((level (remove t d) ≡ level t) ⊎ (level (remove t d) + 1 ≡ level t))
unfolding remove
remove-IsBalanced t d h small =
    let (b, s) = remove_fuel-Shrunk (height t) t d h small in
    (b, elim s [ inl same ↦ inl same.0 | inr down ↦ inr down ])
