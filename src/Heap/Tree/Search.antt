-- ===== src/Heap/Tree/Search.antt =====
-- TreeSearch against a scan of the blocks in the order of their addresses.
use iron_net.Prelude.{
  ℕ, ◌+◌, ◌<◌, ◌≤◌, ◌≡◌, refl, List, [], ◌∷◌, ◌++◌, arith, ltb, ltb→lt, leb, if◌then◌else◌, Bool,
  ◌&&◌, Bool-cases, inl, inr, All, Option, none, some,
}
use iron_net.Heap.Entry.{HeapEntry}
use iron_net.Heap.Tree.{Tree, nil, node, search_block, entries}
use iron_net.Heap.Tree.Order.{All-append}

-- The address lies in the block, its end included.
abbrev pub holds : HeapEntry → ℕ → Bool
holds e p = leb e.addr p && leb p (e.addr + e.total_size)

-- The first block that holds the address.
unfoldable pub find_block : List HeapEntry → ℕ → Option HeapEntry
find_block [] p = none
find_block (e ∷ es) p = if holds e p then some e else find_block es p

-- Each block ends below the start of every later one.
abbrev pub IsSeparated : List HeapEntry → Type 0
IsSeparated [] = Unit
IsSeparated (e ∷ es) = All (λ f. e.addr + e.total_size < f.addr) es × IsSeparated es

Separated-split :
    (xs : List HeapEntry) (e : HeapEntry) (ys : List HeapEntry)
    → IsSeparated (xs ++ (e ∷ ys))
    → All (λ f. f.addr + f.total_size < e.addr) xs
      × All (λ f. e.addr + e.total_size < f.addr) ys
      × IsSeparated xs
      × IsSeparated ys
Separated-split [] e ys h = (tt, h.0, tt, h.1)
Separated-split (x ∷ xs) e ys h =
    let (lo, hi, sxs, sys) = Separated-split xs e ys h.1 in
    let (above, rest) = All-append (λ f. x.addr + x.total_size < f.addr) xs (e ∷ ys) h.0 in
    ((rest.0, lo), hi, (above, sxs), sys)

find_block-above :
    (xs ys : List HeapEntry) (p : ℕ)
    → All (λ f. f.addr + f.total_size < p) xs
    → find_block (xs ++ ys) p ≡ find_block ys p
unfolding find_block
find_block-above [] ys p h = refl
find_block-above (x ∷ xs) ys p h = ground (arith, find_block-above xs ys p h.1)

find_block-below :
    (xs ys : List HeapEntry) (p : ℕ)
    → All (λ f. p < f.addr) ys
    → find_block (xs ++ ys) p ≡ find_block xs p
unfolding find_block
find_block-below [] [] p h = refl
find_block-below [] (y ∷ ys) p h = ground (arith, find_block-below [] ys p h.1)
find_block-below (x ∷ xs) ys p h = ground (arith, find_block-below xs ys p h)

raise :
    (xs : List HeapEntry) (a b : ℕ) → a ≤ b → All (λ f. b < f.addr) xs → All (λ f. a < f.addr) xs
raise [] a b h all = tt
raise (x ∷ xs) a b h all = (omega arith, raise xs a b h all.1)

lift :
    (xs : List HeapEntry) (a b : ℕ)
    → a ≤ b
    → All (λ f. f.addr + f.total_size < a) xs
    → All (λ f. f.addr + f.total_size < b) xs
lift [] a b h all = tt
lift (x ∷ xs) a b h all = (omega arith, lift xs a b h all.1)

search-left :
    (l : Tree) (k : ℕ) (e : HeapEntry) (r : Tree) (p : ℕ)
    → p < e.addr
    → search_block (node l k e r) p ≡ search_block l p
unfolding search_block
search-left l k e r p h = ground arith

search-right :
    (l : Tree) (k : ℕ) (e : HeapEntry) (r : Tree) (p : ℕ)
    → e.addr + e.total_size < p
    → search_block (node l k e r) p ≡ search_block r p
unfolding search_block
search-right l k e r p h = ground arith

search-here :
    (l : Tree) (k : ℕ) (e : HeapEntry) (r : Tree) (p : ℕ)
    → e.addr ≤ p
    → p ≤ e.addr + e.total_size
    → search_block (node l k e r) p ≡ some e
unfolding search_block
search-here l k e r p h h' = ground arith

find-here :
    (e : HeapEntry) (es : List HeapEntry) (p : ℕ)
    → e.addr ≤ p
    → p ≤ e.addr + e.total_size
    → find_block (e ∷ es) p ≡ some e
unfolding find_block
find-here e es p h h' = ground arith

find-skip :
    (e : HeapEntry) (es : List HeapEntry) (p : ℕ)
    → e.addr + e.total_size < p
    → find_block (e ∷ es) p ≡ find_block es p
unfolding find_block
find-skip e es p h = ground arith

-- On a tree whose blocks are in order and apart, TreeSearch finds for every address the block that
-- a scan of all blocks finds, and nothing where no block holds the address.
pub search_block-find_block :
    (t : Tree) (p : ℕ) → IsSeparated (entries t) → search_block t p ≡ find_block (entries t) p
search_block-find_block nil p h = unfold search_block find_block in refl
search_block-find_block (node l k e r) p h =
    let (lo, hi, sl, sr) = Separated-split (entries l) e (entries r) h in
    elim (Bool-cases (ltb p e.addr)) [
      | inl q ↦
          let low = ltb→lt _ _ q in
          rw
            (
              search-left l k e r p low,
              find_block-below (entries l) (e ∷ entries r) p
                  (low, raise (entries r) p (e.addr + e.total_size) (omega arith) hi),
            )
            (search_block-find_block l p sl)
      | inr q ↦
          let high : e.addr ≤ p = ground arith in
          rw (find_block-above (entries l) (e ∷ entries r) p (lift (entries l) e.addr p high lo))
            (elim (Bool-cases (ltb (e.addr + e.total_size) p)) [
              | inl q' ↦
                  let past = ltb→lt _ _ q' in
                  rw (search-right l k e r p past, find-skip e (entries r) p past)
                    (search_block-find_block r p sr)
              | inr q' ↦
                  let inside : p ≤ e.addr + e.total_size = ground arith in
                  rw (search-here l k e r p high inside, find-here e (entries r) p high inside)
            ])
    ]
