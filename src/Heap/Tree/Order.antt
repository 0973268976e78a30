-- ===== src/Heap/Tree/Order.antt =====
-- TreeInsert on an ordered tree: the entries stay ordered by address, and the new one is added.
use iron_net.Prelude.{
  ℕ, ◌<◌, ◌≡◌, refl, List, [], ◌∷◌, ◌++◌, arith, ltb, ltb→lt, if◌then◌else◌, true, false,
  Bool-cases, inl, inr, All, ◌≢◌,
}
use iron_net.Heap.Entry.{HeapEntry}
use iron_net.Heap.Tree.{Tree, nil, node, skew, split, insert, entries}
use iron_net.Heap.Tree.Shape.{entries-skew, entries-split}

-- Every address is above the ones before it.
abbrev pub IsAscending : List HeapEntry → Type 0
IsAscending [] = Unit
IsAscending (e ∷ es) = All (λ f. e.addr < f.addr) es × IsAscending es

-- The tree is a search tree by address.
abbrev pub IsOrdered : Tree → Type 0
IsOrdered t = IsAscending (entries t)

-- The new entry stands behind the entries of lower addresses, not marked.
pub insert_entry : HeapEntry → List HeapEntry → List HeapEntry
insert_entry e [] = (record e { marked = 0 }) ∷ []
insert_entry e (f ∷ fs) =
    if ltb f.addr e.addr then f ∷ insert_entry e fs else (record e { marked = 0 }) ∷ f ∷ fs

pub All-append {κ} :
    (P : HeapEntry → Type κ) (xs ys : List HeapEntry) → All P (xs ++ ys) → All P xs × All P ys
All-append P [] ys h = (tt, h)
All-append P (x ∷ xs) ys h = let (a, b) = All-append P xs ys h.1 in ((h.0, a), b)

pub append-All {κ} :
    (P : HeapEntry → Type κ) (xs ys : List HeapEntry) → All P xs → All P ys → All P (xs ++ ys)
append-All P [] ys a b = b
append-All P (x ∷ xs) ys a b = (a.0, append-All P xs ys a.1 b)

-- An ascending list, split at an entry.
pub Ascending-split :
    (xs : List HeapEntry) (e : HeapEntry) (ys : List HeapEntry)
    → IsAscending (xs ++ (e ∷ ys))
    → All (λ f. f.addr < e.addr) xs
      × All (λ f. e.addr < f.addr) ys
      × IsAscending xs
      × IsAscending ys
Ascending-split [] e ys h = (tt, h.0, tt, h.1)
Ascending-split (x ∷ xs) e ys h =
    let (lo, hi, axs, ays) = Ascending-split xs e ys h.1 in
    let (above, rest) = All-append (λ f. x.addr < f.addr) xs (e ∷ ys) h.0 in
    ((rest.0, lo), hi, (above, axs), ays)

insert_entry-below :
    (e : HeapEntry) (xs : List HeapEntry) (f : HeapEntry) (ys : List HeapEntry)
    → (ltb f.addr e.addr ≡ false)
    → insert_entry e (xs ++ (f ∷ ys)) ≡ insert_entry e xs ++ (f ∷ ys)
unfolding insert_entry
insert_entry-below e [] f ys h = rw h
insert_entry-below e (x ∷ xs) f ys h = ground (arith, insert_entry-below e xs f ys h)

insert_entry-above :
    (e : HeapEntry) (xs : List HeapEntry) (ys : List HeapEntry)
    → All (λ f. f.addr < e.addr) xs
    → insert_entry e (xs ++ ys) ≡ xs ++ insert_entry e ys
unfolding insert_entry
insert_entry-above e [] ys h = refl
insert_entry-above e (x ∷ xs) ys h = ground (arith, insert_entry-above e xs ys h.1)

All-below :
    (xs : List HeapEntry) (a b : ℕ) → a < b → All (λ f. f.addr < a) xs → All (λ f. f.addr < b) xs
All-below [] a b h all = tt
All-below (x ∷ xs) a b h all = (omega arith, All-below xs a b h all.1)

pub insert-right :
    (l : Tree) (k : ℕ) (f : HeapEntry) (r : Tree) (e : HeapEntry)
    → ltb f.addr e.addr ≡ true
    → insert (node l k f r) e ≡ split (skew (node l k f (insert r e)))
unfolding insert
insert-right l k f r e h = rw (h, insert)

pub insert-left :
    (l : Tree) (k : ℕ) (f : HeapEntry) (r : Tree) (e : HeapEntry)
    → ltb f.addr e.addr ≡ false
    → insert (node l k f r) e ≡ split (skew (node (insert l e) k f r))
unfolding insert
insert-left l k f r e h = rw (h, insert)

-- On an ordered tree TreeInsert adds the entry at its place by address, and nothing else changes.
pub entries-insert :
    (t : Tree) (e : HeapEntry) → IsOrdered t → entries (insert t e) ≡ insert_entry e (entries t)
entries-insert nil e h = unfold insert insert_entry in refl
entries-insert (node l k f r) e h =
    let (lo, hi, ol, or) = Ascending-split (entries l) f (entries r) h in
    elim (Bool-cases (ltb f.addr e.addr)) [
      | inl p ↦
          let far : insert_entry e (f ∷ entries r) ≡ f ∷ insert_entry e (entries r) =
            unfold insert_entry in rw p in
          rw (
            insert-right l k f r e p,
            entries-split,
            entries-skew,
            entries-insert r e or,
            insert_entry-above e (entries l) (f ∷ entries r)
                (All-below (entries l) f.addr e.addr (ltb→lt _ _ p) lo),
            far,
          )
      | inr p ↦ rw (
        insert-left l k f r e p,
        entries-split,
        entries-skew,
        entries-insert l e ol,
        insert_entry-below e (entries l) f (entries r) p,
      )
    ]

All-insert_entry {κ} :
    (P : HeapEntry → Type κ) (e : HeapEntry) (xs : List HeapEntry)
    → P (record e { marked = 0 })
    → All P xs
    → All P (insert_entry e xs)
unfolding insert_entry
All-insert_entry P e [] h all = (h, tt)
All-insert_entry P e (x ∷ xs) h all = elim (Bool-cases (ltb x.addr e.addr)) [
  | inl p ↦ rw p (all.0, All-insert_entry P e xs h all.1)
  | inr p ↦ rw p (h, all)
]

All-above :
    (xs : List HeapEntry) (a b : ℕ) → a < b → All (λ f. b < f.addr) xs → All (λ f. a < f.addr) xs
All-above [] a b h all = tt
All-above (x ∷ xs) a b h all = (omega arith, All-above xs a b h all.1)

insert_entry-IsAscending :
    (e : HeapEntry) (xs : List HeapEntry)
    → IsAscending xs
    → All (λ f. f.addr ≢ e.addr) xs
    → IsAscending (insert_entry e xs)
unfolding insert_entry
insert_entry-IsAscending e [] h new = (tt, tt)
insert_entry-IsAscending e (x ∷ xs) h new = elim (Bool-cases (ltb x.addr e.addr)) [
  | inl p ↦ rw p (
    All-insert_entry (λ f. x.addr < f.addr) e xs (ltb→lt _ _ p) h.0,
    insert_entry-IsAscending e xs h.1 new.1,
  )
  | inr p ↦
      let low : e.addr < x.addr = ground (arith, new.0) in
      rw p ((low, All-above xs e.addr x.addr low h.0), h)
]

-- TreeInsert keeps the tree a search tree, for a block at an address that is not in it.
insert-IsOrdered :
    (t : Tree) (e : HeapEntry)
    → IsOrdered t
    → All (λ f. f.addr ≢ e.addr) (entries t)
    → IsOrdered (insert t e)
insert-IsOrdered t e h new =
    rw (entries-insert t e h) (insert_entry-IsAscending e (entries t) h new)
