-- ===== src/Heap/Tree/Remove.antt =====
-- TreeRemove on an ordered tree takes out the entry with the address, and nothing else.
use iron_net.Prelude.{
  ℕ, zero, suc, ◌<◌, ◌≤◌, ◌≡◌, refl, ap, sym, ◌∙◌, List, [], ◌∷◌, ◌++◌, arith, ◌==◌, ==_iff,
  if◌then◌else◌, true, inl, inr, ◌⊎◌, All,
}
use iron_net.Heap.Entry.{HeapEntry}
use iron_net.Heap.Tree.{
  Tree, nil, node, heir, replace_heir, unlink, remove_fuel, remove, balance, height, entries,
}
use iron_net.Heap.Tree.Order.{IsAscending, IsOrdered, All-append, append-All, Ascending-split}
use iron_net.Heap.Tree.Shape.{entries-balance}
use mathlib.Core.List.{append_assoc, append-nil}

-- The list without its first entry at the address.
unfoldable pub erase_entry : ℕ → List HeapEntry → List HeapEntry
erase_entry d [] = []
erase_entry d (e ∷ es) = if e.addr == d then es else e ∷ erase_entry d es

-- The entries before the rightmost one.
abbrev front : Tree → List HeapEntry
front nil = []
front (node l k e nil) = entries l
front (node l k e (node a j f b)) = entries l ++ (e ∷ front (node a j f b))

entries-heir :
    (l : Tree) (k : ℕ) (e : HeapEntry) (r : Tree) (d : HeapEntry)
    → entries (node l k e r) ≡ front (node l k e r) ++ (heir r e ∷ [])
entries-heir l k e nil d = refl
entries-heir l k e (node a j f b) d = rw (entries-heir a j f b d, append_assoc) refl

entries-replace_heir :
    (l : Tree) (k : ℕ) (e : HeapEntry) (r : Tree) (d : HeapEntry)
    → entries (replace_heir (node l k e r) d) ≡ front (node l k e r) ++ (d ∷ [])
entries-replace_heir l k e nil d = refl
entries-replace_heir l k e (node a j f b) d = rw (entries-replace_heir a j f b d, append_assoc) refl

pub height-replace_heir : (l : Tree) (d : HeapEntry) → height (replace_heir l d) ≡ height l
height-replace_heir nil d = refl
height-replace_heir (node l k e nil) d = refl
height-replace_heir (node l k e (node a j f b)) d = rw (height-replace_heir (node a j f b) d)

erase-append :
    (d : ℕ) (xs ys : List HeapEntry)
    → All (λ f. f.addr < d) xs
    → erase_entry d (xs ++ ys) ≡ xs ++ erase_entry d ys
unfolding erase_entry
erase-append d [] ys h = refl
erase-append d (x ∷ xs) ys h = ground (arith, erase-append d xs ys h.1)

erase-here :
    (d : ℕ) (e : HeapEntry) (es : List HeapEntry) → e.addr ≡ d → erase_entry d (e ∷ es) ≡ es
unfolding erase_entry
erase-here d e es h = ground arith

-- All addresses are above, so none is erased.
erase-above : (d : ℕ) (xs : List HeapEntry) → All (λ f. d < f.addr) xs → erase_entry d xs ≡ xs
unfolding erase_entry
erase-above d [] h = refl
erase-above d (x ∷ xs) h = ground (arith, erase-above d xs h.1)

erase-before :
    (d : ℕ) (xs : List HeapEntry) (e : HeapEntry) (ys : List HeapEntry)
    → d < e.addr
    → All (λ f. e.addr < f.addr) ys
    → erase_entry d (xs ++ (e ∷ ys)) ≡ erase_entry d xs ++ (e ∷ ys)
unfolding erase_entry
erase-before d [] e ys h up = ground (arith, erase-above d ys (raise ys h up))
  where
    raise :
        (zs : List HeapEntry)
        → d < e.addr
        → All (λ f. e.addr < f.addr) zs
        → All (λ f. d < f.addr) zs
    raise [] q all = tt
    raise (z ∷ zs) q all = (omega arith, raise zs q all.1)
erase-before d (x ∷ xs) e ys h up = ground (arith, erase-before d xs e ys h up)

erase-miss :
    (d : ℕ) (e : HeapEntry) (es : List HeapEntry)
    → e.addr < d
    → erase_entry d (e ∷ es) ≡ e ∷ erase_entry d es
unfolding erase_entry
erase-miss d e es h = ground arith

pub compare_cases : (a b : ℕ) → (a < b) ⊎ ((a ≡ b) ⊎ (b < a))
compare_cases a b = grind arith

lower :
    (xs : List HeapEntry) (a b : ℕ) → a < b → All (λ f. f.addr < a) xs → All (λ f. f.addr < b) xs
lower [] a b h all = tt
lower (x ∷ xs) a b h all = (omega arith, lower xs a b h all.1)

Ascending-snoc :
    (xs : List HeapEntry) (e : HeapEntry)
    → IsAscending xs
    → All (λ f. f.addr < e.addr) xs
    → IsAscending (xs ++ (e ∷ []))
Ascending-snoc [] e h up = (tt, tt)
Ascending-snoc (x ∷ xs) e h up =
    (append-All (λ f. x.addr < f.addr) xs (e ∷ []) h.0 (up.0, tt), Ascending-snoc xs e h.1 up.1)

-- The branch for the deleted node, when the recursive call does what it should on the left subtree.
entries-unlink :
    (rest : Tree → Tree) (l : Tree) (k : ℕ) (e : HeapEntry) (r : Tree)
    → IsOrdered (node l k e r)
    → ((t : Tree)
        → height t ≤ height l
        → IsOrdered t
        → entries (rest t) ≡ erase_entry e.addr (entries t))
    → entries (unlink rest l k e r) ≡ entries l ++ entries r
entries-unlink rest nil k e r h ih = refl
entries-unlink rest (node a j f b) k e nil h ih = rw append-nil
entries-unlink rest (node a j f b) k e (node c i g d) h ih =
    let l : Tree = node a j f b in
    let (lo, hi, ol, or) = Ascending-split (entries l) e (entries (node c i g d)) h in
    let ends = entries-heir a j f b e in
    let swapped = entries-replace_heir a j f b e in
    let below = All-append (λ x. x.addr < e.addr) (front l) (heir b f ∷ []) (rw ends at lo) in
    let (_, _, up, _) = Ascending-split (front l) (heir b f) [] (rw ends at ol) in
    let sent : IsOrdered (replace_heir l e) = rw swapped (Ascending-snoc (front l) e up below.0) in
    let taken : entries (rest (replace_heir l e)) ≡ front l =
      ih (replace_heir l e) (omega (arith, height-replace_heir l e)) sent
      ∙ ap (erase_entry e.addr) swapped
      ∙ erase-append e.addr (front l) (e ∷ []) below.0
      ∙ ap (λ t. front l ++ t) (erase-here e.addr e [] refl)
      ∙ append-nil (front l) in
    rw (taken, ends, append_assoc) refl

pub remove-here :
    (n : ℕ) (l : Tree) (k : ℕ) (e : HeapEntry) (r : Tree) (d : ℕ)
    → (e.addr == d) ≡ true
    → remove_fuel (suc n) (node l k e r) d ≡ balance (unlink (λ t. remove_fuel n t d) l k e r)
unfolding remove_fuel
remove-here n l k e r d h = rw (h, remove_fuel)

pub remove-right :
    (n : ℕ) (l : Tree) (k : ℕ) (e : HeapEntry) (r : Tree) (d : ℕ)
    → e.addr < d
    → remove_fuel (suc n) (node l k e r) d ≡ balance (node l k e (remove_fuel n r d))
unfolding remove_fuel
remove-right n l k e r d h = ground arith

pub remove-left :
    (n : ℕ) (l : Tree) (k : ℕ) (e : HeapEntry) (r : Tree) (d : ℕ)
    → d < e.addr
    → remove_fuel (suc n) (node l k e r) d ≡ balance (node (remove_fuel n l d) k e r)
unfolding remove_fuel
remove-left n l k e r d h = ground arith

entries-remove_fuel :
    (n : ℕ) (t : Tree) (d : ℕ)
    → height t ≤ n
    → IsOrdered t
    → entries (remove_fuel n t d) ≡ erase_entry d (entries t)
entries-remove_fuel zero nil d fuel h = unfold remove_fuel erase_entry in refl
entries-remove_fuel zero (node l k e r) d fuel h = absurd (omega arith)
entries-remove_fuel (suc n) nil d fuel h = unfold remove_fuel erase_entry in refl
entries-remove_fuel (suc n) (node l k e r) d fuel h =
    let (lo, hi, ol, or) = Ascending-split (entries l) e (entries r) h in
    elim (compare_cases e.addr d) [
      | inl p ↦
          rw
            (
              remove-right n l k e r d p,
              entries-balance,
              entries-remove_fuel n r d (omega arith) or,
              erase-append d (entries l) (e ∷ entries r) (lower (entries l) e.addr d p lo),
            )
            (sym (ap (λ t. entries l ++ t) (erase-miss d e (entries r) p)))
      | inr (inl q) ↦ rw (
        remove-here n l k e r d ((==_iff e.addr d).1 q),
        entries-balance,
        entries-unlink (λ t. remove_fuel n t d) l k e r h
            (λ t small ord. rw q (entries-remove_fuel n t d (omega arith) ord)),
        ← q,
        erase-append e.addr (entries l) (e ∷ entries r) lo,
        erase-here e.addr e (entries r) refl,
      )
      | inr (inr p) ↦ rw (
        remove-left n l k e r d p,
        entries-balance,
        entries-remove_fuel n l d (omega arith) ol,
        erase-before d (entries l) e (entries r) p hi,
      )
    ]

-- TreeRemove takes the entry at the address out of an ordered tree; the other entries stay, in
-- their order. At an address that is not in the tree it changes nothing.
pub entries-remove :
    (t : Tree) (d : ℕ) → IsOrdered t → entries (remove t d) ≡ erase_entry d (entries t)
unfolding remove
entries-remove t d h = entries-remove_fuel (height t) t d (omega arith) h
