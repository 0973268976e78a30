-- ===== src/Heap/Collect/Survivors/Erase.antt =====
-- Taking the dead blocks out of the list of all blocks leaves the survivors.
use iron_net.Prelude.{
  ℕ, ◌<◌, ◌≤◌, ◌≡◌, refl, ap, sym, ◌∙◌, List, [], ◌∷◌, ◌++◌, map, All, true, false, ◌==◌,
  Bool-cases, inl, inr, arith,
}
use mathlib.Core.Path.{subst}
use iron_net.Heap.Entry.{HeapEntry}
use iron_net.Heap.Tree.{Tree, nil, node, entries}
use iron_net.Heap.Tree.Order.{IsAscending, IsOrdered, All-append, append-All, Ascending-split}
use iron_net.Heap.Tree.Remove.{erase_entry}
use iron_net.Heap.Collect.{is_dead, visit_entry}
use iron_net.Heap.Collect.Survivors.{
  survivors, dead_one, dead_entries, map_append, visit_entry-addr,
}

-- The first entry at each of the addresses is taken out.
abbrev pub erase_each : List HeapEntry → List HeapEntry → List HeapEntry
erase_each [] xs = xs
erase_each (d ∷ ds) xs = erase_each ds (erase_entry d.addr xs)

erase_each-append :
    (ds fs xs : List HeapEntry) → erase_each (ds ++ fs) xs ≡ erase_each fs (erase_each ds xs)
erase_each-append [] fs xs = refl
erase_each-append (d ∷ ds) fs xs = erase_each-append ds fs (erase_entry d.addr xs)

-- No entry of the list is at the address of d.
abbrev NotAmong : List HeapEntry → HeapEntry → Type 0
NotAmong xs d = All (λ e. (e.addr == d.addr) ≡ false) xs

erase_entry-behind :
    (d : HeapEntry) (xs ys : List HeapEntry)
    → NotAmong xs d
    → erase_entry d.addr (xs ++ ys) ≡ xs ++ erase_entry d.addr ys
unfolding erase_entry
erase_entry-behind d [] ys h = refl
erase_entry-behind d (x ∷ xs) ys (e, h) =
    rw (erase_entry, e) (ap (◌∷◌ x) (erase_entry-behind d xs ys h))

erase_entry-none :
    (d : HeapEntry) (xs : List HeapEntry) → NotAmong xs d → erase_entry d.addr xs ≡ xs
unfolding erase_entry
erase_entry-none d [] h = refl
erase_entry-none d (x ∷ xs) (e, h) = rw (erase_entry, e) (ap (◌∷◌ x) (erase_entry-none d xs h))

erase_entry-before :
    (d : HeapEntry) (xs ys : List HeapEntry)
    → NotAmong ys d
    → erase_entry d.addr (xs ++ ys) ≡ erase_entry d.addr xs ++ ys
unfolding erase_entry
erase_entry-before d [] ys h = erase_entry-none d ys h
erase_entry-before d (x ∷ xs) ys h = elim (Bool-cases (x.addr == d.addr)) [
  | inl e ↦ rw (erase_entry, e) refl
  | inr e ↦ rw (erase_entry, e) (ap (◌∷◌ x) (erase_entry-before d xs ys h))
]

erase_each-behind :
    (ds xs ys : List HeapEntry)
    → All (NotAmong xs) ds
    → erase_each ds (xs ++ ys) ≡ xs ++ erase_each ds ys
erase_each-behind [] xs ys h = refl
erase_each-behind (d ∷ ds) xs ys (here, h) =
    ap (erase_each ds) (erase_entry-behind d xs ys here)
    ∙ erase_each-behind ds xs (erase_entry d.addr ys) h

erase_each-before :
    (ds xs ys : List HeapEntry)
    → All (NotAmong ys) ds
    → erase_each ds (xs ++ ys) ≡ erase_each ds xs ++ ys
erase_each-before [] xs ys h = refl
erase_each-before (d ∷ ds) xs ys (here, h) =
    ap (erase_each ds) (erase_entry-before d xs ys here)
    ∙ erase_each-before ds (erase_entry d.addr xs) ys h

-- Properties of addresses.
module _ (P : ℕ → Type 0) where
  abbrev AllAt : List HeapEntry → Type 0
  AllAt = All (λ e. P e.addr)

  map-AllAt : (xs : List HeapEntry) → AllAt xs → AllAt (map visit_entry xs)
  map-AllAt [] h = tt
  map-AllAt (x ∷ xs) (here, h) = (subst P (sym (visit_entry-addr x)) here, map-AllAt xs h)

  survivors-AllAt : (xs : List HeapEntry) → AllAt xs → AllAt (survivors xs)
  survivors-AllAt [] h = tt
  survivors-AllAt (x ∷ xs) (here, h) = elim (Bool-cases (is_dead x)) [
    | inl e ↦ rw (survivors, e) (survivors-AllAt xs h)
    | inr e ↦ rw (survivors, e) (subst P (sym (visit_entry-addr x)) here, survivors-AllAt xs h)
  ]

  dead_one-AllAt : (x : HeapEntry) → P x.addr → AllAt (dead_one x)
  dead_one-AllAt x here = elim (Bool-cases (is_dead x)) [
    | inl e ↦ rw (dead_one, e) (here, tt)
    | inr e ↦ rw (dead_one, e) tt
  ]

  dead_entries-AllAt : (t : Tree) → AllAt (entries t) → AllAt (dead_entries t)
  dead_entries-AllAt nil h = tt
  dead_entries-AllAt (node l k x r) h =
      let (left, rest) = All-append (λ e. P e.addr) (entries l) (x ∷ entries r) h in
      append-All (λ e. P e.addr) (dead_entries r) (dead_entries l ++ dead_one x)
        (dead_entries-AllAt r rest.1)
        (append-All (λ e. P e.addr) (dead_entries l) (dead_one x) (dead_entries-AllAt l left)
          (dead_one-AllAt x rest.0))

-- Addresses on two sides of a number differ.
apart_below :
    (a : ℕ) (d : HeapEntry) (xs : List HeapEntry)
    → a ≤ d.addr
    → All (λ e. e.addr < a) xs
    → NotAmong xs d
apart_below a d [] low h = tt
apart_below a d (x ∷ xs) low (here, h) = (ground arith, apart_below a d xs low h)

apart_above :
    (a : ℕ) (d : HeapEntry) (xs : List HeapEntry)
    → d.addr ≤ a
    → All (λ e. a < e.addr) xs
    → NotAmong xs d
apart_above a d [] low h = tt
apart_above a d (x ∷ xs) low (here, h) = (ground arith, apart_above a d xs low h)

lower_apart :
    (a : ℕ) (ds xs : List HeapEntry)
    → All (λ d. a < d.addr) ds
    → All (λ x. x.addr < a) xs
    → All (NotAmong xs) ds
lower_apart a [] xs hd hx = tt
lower_apart a (d ∷ ds) xs (here, hd) hx =
    (apart_below a d xs (omega arith) hx, lower_apart a ds xs hd hx)

higher_apart :
    (a : ℕ) (ds xs : List HeapEntry)
    → All (λ d. d.addr < a) ds
    → All (λ x. a < x.addr) xs
    → All (NotAmong xs) ds
higher_apart a [] xs hd hx = tt
higher_apart a (d ∷ ds) xs (here, hd) hx =
    (apart_above a d xs (omega arith) hx, higher_apart a ds xs hd hx)

not_one_above :
    (e : HeapEntry) (ds : List HeapEntry)
    → All (λ d. e.addr < d.addr) ds
    → All (NotAmong (visit_entry e ∷ [])) ds
not_one_above e [] h = tt
not_one_above e (d ∷ ds) (here, h) =
    ((ground (arith, visit_entry-addr e), tt), not_one_above e ds h)

not_first_below :
    (e : HeapEntry) (ds xs : List HeapEntry)
    → All (λ d. d.addr < e.addr) ds
    → All (NotAmong xs) ds
    → All (NotAmong (visit_entry e ∷ xs)) ds
not_first_below e [] xs h apart = tt
not_first_below e (d ∷ ds) xs (here, h) (first, apart) =
    ((ground (arith, visit_entry-addr e), first), not_first_below e ds xs h apart)

survivors_append : (xs ys : List HeapEntry) → survivors (xs ++ ys) ≡ survivors xs ++ survivors ys
survivors_append [] ys = refl
survivors_append (x ∷ xs) ys = elim (Bool-cases (is_dead x)) [
  | inl e ↦ rw (survivors, e) (survivors_append xs ys)
  | inr e ↦ rw (survivors, e) (ap (◌∷◌ (visit_entry x)) (survivors_append xs ys))
]

pub map-IsAscending : (xs : List HeapEntry) → IsAscending xs → IsAscending (map visit_entry xs)
map-IsAscending [] h = tt
map-IsAscending (x ∷ xs) (here, h) = (
  subst (λ a. All (λ f. a < f.addr) (map visit_entry xs)) (sym (visit_entry-addr x))
      (map-AllAt (λ n. x.addr < n) xs here),
  map-IsAscending xs h,
)

-- At the entry itself, which is behind the ones that were left of its left subtree.
erase_own :
    (e : HeapEntry) (xs ys : List HeapEntry)
    → All (λ x. x.addr < e.addr) xs
    → erase_each (dead_one e) (xs ++ (visit_entry e ∷ survivors ys)) ≡ xs ++ survivors (e ∷ ys)
unfolding erase_entry
erase_own e xs ys low = elim (Bool-cases (is_dead e)) [
  | inl dead ↦
      let own : ((visit_entry e).addr == e.addr) ≡ true = ground (arith, visit_entry-addr e) in
      rw (dead_one, survivors, dead)
        (erase_entry-behind e xs (visit_entry e ∷ survivors ys)
            (apart_below e.addr e xs (omega arith) low)
          ∙ rw (erase_entry, own) refl)
  | inr alive ↦ rw (dead_one, survivors, alive) refl
]

pub erase_each-dead :
    (t : Tree)
    → IsOrdered t
    → erase_each (dead_entries t) (map visit_entry (entries t)) ≡ survivors (entries t)
erase_each-dead nil h = refl
erase_each-dead (node l k e r) h =
    let (lo, hi, ol, or) = Ascending-split (entries l) e (entries r) h in
    let left = map visit_entry (entries l) in
    let own = visit_entry e in
    let right = map visit_entry (entries r) in
    let left_low = map-AllAt (λ n. n < e.addr) (entries l) lo in
    let dead_high = dead_entries-AllAt (λ n. e.addr < n) r hi in
    let dead_low = dead_entries-AllAt (λ n. n < e.addr) l lo in
    let kept_high = survivors-AllAt (λ n. e.addr < n) (entries r) hi in
    let of_right : erase_each (dead_entries r) (left ++ (own ∷ right))
        ≡ left ++ (own ∷ survivors (entries r)) =
      erase_each-behind (dead_entries r) left (own ∷ right)
        (lower_apart e.addr (dead_entries r) left dead_high left_low)
      ∙ ap (λ t. left ++ t)
          (erase_each-behind (dead_entries r) (own ∷ []) right
              (not_one_above e (dead_entries r) dead_high)
            ∙ ap (◌∷◌ own) (erase_each-dead r or)) in
    let of_left : erase_each (dead_entries l) (left ++ (own ∷ survivors (entries r)))
        ≡ survivors (entries l) ++ (own ∷ survivors (entries r)) =
      erase_each-before (dead_entries l) left (own ∷ survivors (entries r)) (
        not_first_below e (dead_entries l) (survivors (entries r)) dead_low
          (higher_apart e.addr (dead_entries l) (survivors (entries r)) dead_low kept_high))
      ∙ ap (λ t. t ++ (own ∷ survivors (entries r))) (erase_each-dead l ol) in
    ap (erase_each (dead_entries (node l k e r))) (map_append (entries l) (e ∷ entries r))
    ∙ erase_each-append (dead_entries r) (dead_entries l ++ dead_one e) (left ++ (own ∷ right))
    ∙ ap (erase_each (dead_entries l ++ dead_one e)) of_right
    ∙ erase_each-append (dead_entries l) (dead_one e) (left ++ (own ∷ survivors (entries r)))
    ∙ ap (erase_each (dead_one e)) of_left
    ∙ erase_own e (survivors (entries l)) (entries r)
        (survivors-AllAt (λ n. n < e.addr) (entries l) lo)
    ∙ sym (survivors_append (entries l) (e ∷ entries r))
