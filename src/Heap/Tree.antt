-- ===== src/Heap/Tree.antt =====
-- DotNetAnywhere/Heap.c, TreeSkew to TreeRemove: the AA tree that tracks the blocks of the heap,
-- ordered by address. The links are owned by one parent each, so a routine that relinks nodes in
-- place is a function from trees to trees. `nil` is the sentinel node, of level 0, whose links
-- lead to itself.
pub mod Shape
pub mod Order
pub mod Search
pub mod Remove
pub mod Balance
pub mod Rebalance
pub mod Drop
mod Examples
use iron_net.Prelude.{
  ℕ, zero, suc, ◌+◌, ◌-◌, Bool, true, false, ◌&&◌, ◌||◌, not, Option, none, some, List, [], ◌∷◌,
  ◌++◌, ltb, leb, ◌==◌, if◌then◌else◌, u8,
}
use iron_net.Heap.Entry.{HeapEntry}
use Prim.Native.Nat.{max}

pub data Tree : Type 0 where
  nil : Tree
  node : Tree → ℕ → HeapEntry → Tree → Tree

abbrev pub level : Tree → ℕ
level nil = 0
level (node l k e r) = k

abbrev pub right : Tree → Tree
right nil = nil
right (node l k e r) = r

-- `pRoot->pLink[1] = f(pRoot->pLink[1])`, for an `f` that leaves the sentinel alone.
abbrev pub on_right : (Tree → Tree) → Tree → Tree
on_right f nil = nil
on_right f (node l k e r) = node l k e (f r)

-- The assignment to `pLink[1]->level` in TreeBalance, which is never made at the sentinel.
abbrev pub set_level : ℕ → Tree → Tree
set_level k nil = nil
set_level k (node l j e r) = node l k e r

-- TreeSkew: a left child on the root's own level is rotated up.
unfoldable pub skew : Tree → Tree
skew nil = nil
skew (node nil k e r) = node nil k e r
skew (node (node a j f b) k e r) =
    if (j == k) && not (k == 0) then node a j f (node b k e r) else node (node a j f b) k e r

-- TreeSplit: a right grandchild on the root's own level lifts the right child, whose U8 level grows.
unfoldable pub split : Tree → Tree
split nil = nil
split (node l k e nil) = node l k e nil
split (node l k e (node a j f b)) =
    if (level b == k) && not (k == 0)
    then node (node l k e a) (u8 (j + 1)) f b
    else node l k e (node a j f b)

-- The five rotations of TreeBalance.
unfoldable pub rotate : Tree → Tree
rotate t = on_right split (split (on_right (on_right skew) (on_right skew (skew t))))

-- The body of TreeBalance's `if`, with the root's level already lowered to `k`.
unfoldable pub rebalance : Tree → ℕ → HeapEntry → Tree → Tree
rebalance l k e r = rotate (node l k e (if ltb k (level r) then set_level k r else r))

-- TreeBalance. The test `level < pRoot->level - 1` is on int, so it fails at the sentinel.
unfoldable pub balance : Tree → Tree
balance nil = nil
balance (node l k e r) =
    if ltb (level l + 1) k || ltb (level r + 1) k then rebalance l (k - 1) e r else node l k e r

-- TreeSearch: the block that holds the address. The end of a block counts as part of it.
unfoldable pub search_block : Tree → ℕ → Option HeapEntry
search_block nil p = none
search_block (node l k e r) p = elim (ltb p e.addr) [
  | true ↦ search_block l p
  | false ↦ elim (ltb (e.addr + e.total_size) p) [ true ↦ search_block r p | false ↦ some e ]
]

-- TreeInsert; a new leaf is on level 1, and not marked.
unfoldable pub insert : Tree → HeapEntry → Tree
insert nil e = node nil 1 (record e { marked = 0 }) nil
insert (node l k f r) e = elim (ltb f.addr e.addr) [
  | true ↦ split (skew (node l k f (insert r e)))
  | false ↦ split (skew (node (insert l e) k f r))
]

-- The entry of the rightmost node, which the `while` loop of TreeRemove walks to.
abbrev pub heir : Tree → HeapEntry → HeapEntry
heir nil d = d
heir (node l k e r) d = heir r e

-- The tree with another entry in its rightmost node: the heir's place is taken, with its level.
abbrev pub replace_heir : Tree → HeapEntry → Tree
replace_heir nil d = nil
replace_heir (node l k e nil) d = node l k d nil
replace_heir (node l k e (node a j f b)) d = node l k e (replace_heir (node a j f b) d)

-- The branch of TreeRemove for the node that is deleted. With two children the node changes places
-- with its heir, and is then removed from the left subtree by the recursive call `rest`; else the
-- link that is not the sentinel, or the sentinel, takes its place.
abbrev pub unlink : (Tree → Tree) → Tree → ℕ → HeapEntry → Tree → Tree
unlink rest nil k e r = r
unlink rest (node a j f b) k e nil = node a j f b
unlink rest (node a j f b) k e (node c i g d) =
    let l = node a j f b in node (rest (replace_heir l e)) k (heir l e) (node c i g d)

-- TreeRemove on fuel: a round for each level of the call stack. A node is named by its address.
unfoldable pub remove_fuel : ℕ → Tree → ℕ → Tree
remove_fuel zero t d = t
remove_fuel (suc n) nil d = nil
remove_fuel (suc n) (node l k e r) d = elim (e.addr == d) [
  | true ↦ balance (unlink (λ t. remove_fuel n t d) l k e r)
  | false ↦ elim (ltb e.addr d) [
    | true ↦ balance (node l k e (remove_fuel n r d))
    | false ↦ balance (node (remove_fuel n l d) k e r)
  ]
]

abbrev pub height : Tree → ℕ
height nil = 0
height (node l k e r) = suc (max (height l) (height r))

-- TreeRemove: the calls go down one path, so the height of the tree is enough fuel.
unfoldable pub remove : Tree → ℕ → Tree
remove t d = remove_fuel (height t) t d

-- The entries from the left to the right.
abbrev pub entries : Tree → List HeapEntry
entries nil = []
entries (node l k e r) = entries l ++ (e ∷ entries r)
