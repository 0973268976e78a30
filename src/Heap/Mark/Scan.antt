-- ===== src/Heap/Mark/Scan.antt =====
-- One range of roots: the invariant of the marking is kept while its pointers are visited.
use iron_net.Prelude.{
  ℕ, ◌+◌, ◌<◌, ◌≡◌, ◌⊎◌, inl, inr, refl, sym, ap, ◌∙◌, true, false, List, ◌∷◌, Option, Memory,
  Bool-cases, ◌==◌, ==_iff, Option-cases,
}
use mathlib.Core.Path.{subst}
use mathlib.Core.List.{Memᴰ}
use mathlib.Core.Option
use iron_net.Heap.Entry.{HeapEntry}
use iron_net.Heap.Tree.{Tree, search_block, entries}
use iron_net.Heap.Tree.Order.{IsOrdered}
use iron_net.Heap.Mark.{
  Types, RootEntry, Marking, is_scanned, memory_size, mark_found, visit_pointer, set_mark,
  set_roots,
}
use iron_net.Heap.Mark.Paint.{
  has, paint, paint_tree, set_mark-paint, search_block-paint, has-cons, has-here, has-cases,
  paint-white, paint-black,
}
use iron_net.Heap.Mark.Reach.{
  pointer, contents, LeadsTo, Holds, Reach, search_block-Mem, same_block,
}

pub mem-below : (r x q : RootEntry) (rs : List RootEntry) → Memᴰ q (r ∷ rs) → Memᴰ q (r ∷ x ∷ rs)
mem-below r x q rs (Memᴰ.head e) = Memᴰ.head e
mem-below r x q rs (Memᴰ.tail m) = Memᴰ.tail (Memᴰ.tail m)

pub mem-split :
    (r x q : RootEntry) (rs : List RootEntry) → Memᴰ q (r ∷ x ∷ rs) → Memᴰ q (r ∷ rs) ⊎ (q ≡ x)
mem-split r x q rs (Memᴰ.head e) = inl (Memᴰ.head e)
mem-split r x q rs (Memᴰ.tail (Memᴰ.head e)) = inr e
mem-split r x q rs (Memᴰ.tail (Memᴰ.tail m)) = inl (Memᴰ.tail m)

module _ (types : Types) (header : ℕ) (memory : Memory) (t : Tree) (ordered : IsOrdered t)
    (start : List RootEntry) where
  -- Each unmarked block that the pointer leads to is among the marked ones.
  abbrev pub Done : List ℕ → ℕ → Type 0
  Done ms p = (e : HeapEntry) → LeadsTo header memory t p e → e.marked ≡ 0 → has ms e.addr ≡ true

  abbrev pub AllDone : List ℕ → RootEntry → Type 0
  AllDone ms r = (i : ℕ) → i < r.num_pointers → Done ms (pointer header memory t r i)

  -- The range is still on the list, or all its pointers have been followed.
  abbrev pub Waiting : List ℕ → List RootEntry → RootEntry → Type 0
  Waiting ms rs r = Memᴰ r rs ⊎ AllDone ms r

  -- `ms` are the addresses of the blocks that have been marked, `rs` the ranges that are on the list.
  pub record Inv (ms : List ℕ) (rs : List RootEntry) : Type 0 where
    pub sound :
        (e : HeapEntry)
        → Memᴰ e (entries t)
        → has ms e.addr ≡ true
        → Reach header memory t types start e
    pub from_start : (r : RootEntry) → Memᴰ r start → Waiting ms rs r
    pub from_marked :
        (e : HeapEntry)
        → Memᴰ e (entries t)
        → e.marked ≡ 0
        → has ms e.addr ≡ true
        → is_scanned types e ≡ true
        → Waiting ms rs (contents header memory t e)
    pub reached :
        (r : RootEntry) (e : HeapEntry)
        → Memᴰ r rs
        → Holds header memory t r e
        → Reach header memory t types start e

  Done-cons : (ms : List ℕ) (a p : ℕ) → Done ms p → Done (a ∷ ms) p
  Done-cons ms a p h e l z = has-cons ms a e.addr (h e l z)

  Waiting-cons :
      (ms : List ℕ) (rs rs' : List RootEntry) (a : ℕ) (r : RootEntry)
      → ((q : RootEntry) → Memᴰ q rs → Memᴰ q rs')
      → Waiting ms rs r
      → Waiting (a ∷ ms) rs' r
  Waiting-cons ms rs rs' a r sub (inl m) = inl (sub r m)
  Waiting-cons ms rs rs' a r sub (inr d) =
      inr (λ i lt. Done-cons ms a (pointer header memory t r i) (d i lt))

  -- A block that a chain of pointers leads to is marked; where its contents are looked at, they are put
  -- on the list.
  Inv-mark :
      (ms : List ℕ) (rs rs' : List RootEntry) (e : HeapEntry)
      → Inv ms rs
      → ((q : RootEntry) → Memᴰ q rs → Memᴰ q rs')
      → ((q : RootEntry)
          → Memᴰ q rs'
          → Memᴰ q rs ⊎ ((q ≡ contents header memory t e) × (is_scanned types e ≡ true)))
      → (is_scanned types e ≡ true → Memᴰ (contents header memory t e) rs')
      → Reach header memory t types start e
      → Memᴰ e (entries t)
      → e.marked ≡ 0
      → Inv (e.addr ∷ ms) rs'
  Inv-mark ms rs rs' e inv sub sup listed reach m z = record {
    sound = λ f n h. elim (has-cases ms e.addr f.addr h) [
      | inl same ↦
          subst (Reach header memory t types start)
            (same_block (entries t) e f ordered m n (sym same)) reach
      | inr old ↦ inv.sound f n old
    ];
    from_start = λ r n. Waiting-cons ms rs rs' e.addr r sub (inv.from_start r n);
    from_marked = λ f n w h s. elim (has-cases ms e.addr f.addr h) [
      | inl same ↦
          let p = same_block (entries t) e f ordered m n (sym same) in
          inl (
            subst (λ g. Memᴰ (contents header memory t g) rs') p
              (listed (subst (λ g. is_scanned types g ≡ true) (sym p) s)))
      | inr old ↦
          Waiting-cons ms rs rs' e.addr (contents header memory t f) sub
            (inv.from_marked f n w old s)
    ];
    reached = λ r f n h. elim (sup r n) [
      | inl old ↦ inv.reached r f old h
      | inr (p, s) ↦ Reach.from_block reach z s (subst (λ q. Holds header memory t q f) p h)
    ];
  }

  -- How a visit of the pointer p leaves the marking, while the range r is worked on.
  pub record Visited (ms : List ℕ) (r : RootEntry) (p : ℕ) (m : Marking) : Type 0 where
    pub marks : List ℕ
    pub painted : m.tree ≡ paint_tree marks t
    pub inv : Inv marks (r ∷ m.heap_roots.roots)
    pub done : Done marks p
    pub grown : (a : ℕ) → has ms a ≡ true → has marks a ≡ true

  found_black :
      (ms : List ℕ) (m : Marking) (e : HeapEntry)
      → ((e.marked ≡ 0) → has ms e.addr ≡ true)
      → mark_found types header memory (paint ms e) m ≡ m
  unfolding mark_found
  found_black ms m e h = rw (paint-black ms e h) refl

  found_scanned :
      (m : Marking) (e : HeapEntry)
      → e.marked ≡ 0
      → is_scanned types e ≡ true
      → mark_found types header memory e m ≡ (record {
        tree = set_mark e.addr m.tree;
        heap_roots = set_roots m.heap_roots (e.addr + header) (memory_size header e);
        more_roots_added = true;
      })
  unfolding mark_found
  found_scanned m e z s = rw ((==_iff e.marked 0).1 z, s) refl

  found_plain :
      (m : Marking) (e : HeapEntry)
      → e.marked ≡ 0
      → is_scanned types e ≡ false
      → mark_found types header memory e m ≡ record m { tree = set_mark e.addr m.tree }
  unfolding mark_found
  found_plain m e z s = rw ((==_iff e.marked 0).1 z, s) refl

  module _ (ms : List ℕ) (r : RootEntry) (m : Marking) (painted : m.tree ≡ paint_tree ms t)
      (inv : Inv ms (r ∷ m.heap_roots.roots)) (p : ℕ) where
    Visited-as_before : Done ms p → Visited ms r p m
    Visited-as_before d = record {
      marks = ms;
      painted = painted;
      inv = inv;
      done = d;
      grown = λ a h. h;
    }

    Done-marked : (e : HeapEntry) → LeadsTo header memory t p e → Done (e.addr ∷ ms) p
    Done-marked e l f l' z =
        let same : e ≡ f = cc (l.1, l'.1) in
        subst (λ g. has (e.addr ∷ ms) g.addr ≡ true) same (has-here ms e.addr)

    Visited-white :
        (e : HeapEntry)
        → LeadsTo header memory t p e
        → Reach header memory t types start e
        → e.marked ≡ 0
        → Visited ms r p (mark_found types header memory e m)
    unfolding set_roots
    Visited-white e l reach z =
        let m_in = search_block-Mem t p e l.1 in
        let repaint : set_mark e.addr m.tree ≡ paint_tree (e.addr ∷ ms) t =
          ap (set_mark e.addr) painted ∙ set_mark-paint ms e.addr t in
        elim (Bool-cases (is_scanned types e)) [
          | inl s ↦ subst (Visited ms r p) (sym (found_scanned m e z s)) (record {
            marks = e.addr ∷ ms;
            painted = repaint;
            inv =
                Inv-mark ms (r ∷ m.heap_roots.roots)
                  (r ∷ contents header memory t e ∷ m.heap_roots.roots) e inv
                  (λ q. mem-below r (contents header memory t e) q m.heap_roots.roots)
                  (λ q h. elim (mem-split r (contents header memory t e) q m.heap_roots.roots h) [
                    | inl old ↦ inl old
                    | inr new ↦ inr (new, s)
                  ])
                  (λ _. Memᴰ.tail (Memᴰ.head refl)) reach m_in z;
            done = Done-marked e l;
            grown = λ a h. has-cons ms e.addr a h;
          })
          | inr s ↦ subst (Visited ms r p) (sym (found_plain m e z s)) (record {
            marks = e.addr ∷ ms;
            painted = repaint;
            inv =
                Inv-mark ms (r ∷ m.heap_roots.roots) (r ∷ m.heap_roots.roots) e inv (λ q h. h)
                  (λ q h. inl h) (λ s'. cc) reach m_in z;
            done = Done-marked e l;
            grown = λ a h. has-cons ms e.addr a h;
          })
        ]

    Visited-found :
        (e : HeapEntry)
        → LeadsTo header memory t p e
        → Reach header memory t types start e
        → Visited ms r p (mark_found types header memory (paint ms e) m)
    Visited-found e l reach = elim (Bool-cases (e.marked == 0)) [
      | inl z ↦ elim (Bool-cases (has ms e.addr)) [
        | inl old ↦ known (λ _. old)
        | inr new ↦
            subst (λ f. Visited ms r p (mark_found types header memory f m))
              (sym (paint-white ms e ((==_iff e.marked 0).0 z) new))
              (Visited-white e l reach ((==_iff e.marked 0).0 z))
      ]
      | inr z ↦ known (λ h. cc ((==_iff e.marked 0).1 h))
    ]
      where
        known :
            ((e.marked ≡ 0) → has ms e.addr ≡ true)
            → Visited ms r p (mark_found types header memory (paint ms e) m)
        known h = subst (Visited ms r p) (sym (found_black ms m e h)) (
            Visited-as_before (λ f l' z'.
              let same : e ≡ f = cc (l.1, l'.1) in
              subst (λ g. has ms g.addr ≡ true) same (h (subst (λ g. g.marked ≡ 0) (sym same) z'))))

    -- The visit of one pointer.
    pub visit_pointer-Visited :
        ((e : HeapEntry) → LeadsTo header memory t p e → Reach header memory t types start e)
        → Visited ms r p (visit_pointer types header memory p m)
    unfolding visit_pointer
    visit_pointer-Visited from = elim (Bool-cases (p == 0)) [
      | inl null ↦ rw null (Visited-as_before (λ e l z. absurd (l.0 ((==_iff p 0).0 null))))
      | inr some_ref ↦ elim (Option-cases (search_block t p)) [
        | inl nowhere ↦ rw (some_ref, looked nowhere) (Visited-as_before (λ e l z. cc (l.1)))
        | inr (e, found) ↦
            rw (some_ref, looked found)
              (Visited-found e ((λ z. cc ((==_iff p 0).1 z)), found)
                (from e ((λ z. cc ((==_iff p 0).1 z)), found)))
      ]
    ]
      where
        looked :
            {o : Option HeapEntry}
            → search_block t p ≡ o
            → search_block m.tree p ≡ Option.map (paint ms) o
        looked h =
            ap (λ u. search_block u p) painted
            ∙ search_block-paint ms t p
            ∙ ap (Option.map (paint ms)) h
