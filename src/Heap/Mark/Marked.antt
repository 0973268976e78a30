-- ===== src/Heap/Mark/Marked.antt =====
-- GC_Mark as a whole: which blocks are marked when its loop has ended.
use iron_net.Prelude.{
  ℕ, zero, suc, ◌+◌, ◌*◌, ◌<◌, ◌≡◌, inl, inr, refl, sym, ap, ◌∙◌, true, false, List, [], ◌∷◌, some,
  Memory, get_u32, Bool-cases, arith, ◌==◌, ==_iff,
}
use mathlib.Core.Path.{subst}
use mathlib.Core.List.{Memᴰ}
use iron_net.Heap.Entry.{HeapEntry}
use iron_net.Heap.Tree.{Tree, entries}
use iron_net.Heap.Tree.Order.{IsOrdered}
use iron_net.Heap.Mark.{
  Types, RootEntry, HeapRoots, Marking, mark_found, visit_pointer, visit_range, done_entry,
  mark_round, next_roots, mark_loop, pop_root,
}
use iron_net.Heap.Mark.Paint.{has, paint_tree, paint_tree_none}
use iron_net.Heap.Mark.Reach.{pointer, contents, LeadsTo, Reach, search_block-Mem}
use iron_net.Heap.Mark.Scan.{
  Done, AllDone, Waiting, Inv, visit_pointer-Visited, mem-split, mem-below,
}

module _ (types : Types) (header : ℕ) (memory : Memory) where
  pointer_keeps_roots :
      (p : ℕ) (m : Marking)
      → (visit_pointer types header memory p m).more_roots_added ≡ false
      → (m.more_roots_added ≡ false)
        × ((visit_pointer types header memory p m).heap_roots ≡ m.heap_roots)
  unfolding visit_pointer mark_found
  pointer_keeps_roots p m h = ground arith

  -- A range whose visit has added no roots has left the list as it was.
  pub range_keeps_roots :
      (n p : ℕ) (m : Marking)
      → (visit_range types header memory n p m).more_roots_added ≡ false
      → (m.more_roots_added ≡ false)
        × ((visit_range types header memory n p m).heap_roots ≡ m.heap_roots)
  unfolding visit_range
  range_keeps_roots zero p m h = (h, refl)
  range_keeps_roots (suc n) p m h =
      let next = visit_pointer types header memory (get_u32 memory p) m in
      let rest = range_keeps_roots n (p + 4) next h in
      let here = pointer_keeps_roots (get_u32 memory p) m rest.0 in (here.0, rest.1 ∙ here.1)

module _ (types : Types) (header : ℕ) (memory : Memory) (t : Tree) (ordered : IsOrdered t)
    (start : List RootEntry) where
  abbrev Marks : List ℕ → List RootEntry → Type 0
  Marks ms rs = Inv types header memory t ordered start ms rs

  -- How a round leaves the marking, its range r done.
  record Ranged (ms : List ℕ) (r : RootEntry) (m : Marking) : Type 0 where
    marks : List ℕ
    painted : m.tree ≡ paint_tree marks t
    inv : Marks marks (r ∷ m.heap_roots.roots)
    done : AllDone types header memory t ordered start marks r

  -- The first k pointers of r have been followed, n are left.
  visit_range-Ranged :
      (n k p : ℕ) (ms : List ℕ) (r : RootEntry) (m : Marking)
      → m.tree ≡ paint_tree ms t
      → Marks ms (r ∷ m.heap_roots.roots)
      → k + n ≡ r.num_pointers
      → p ≡ r.mem + 4 * k
      → ((i : ℕ)
          → i < k
          → Done types header memory t ordered start ms (pointer header memory t r i))
      → Ranged ms r (visit_range types header memory n p m)
  unfolding visit_range
  visit_range-Ranged zero k p ms r m painted inv count place before = record {
    marks = ms;
    painted = painted;
    inv = inv;
    done = λ i lt. before i (omega arith);
  }
  visit_range-Ranged (suc n) k p ms r m painted inv count place before =
      let w = get_u32 memory p in
      let here : w ≡ pointer header memory t r k = ap (get_u32 memory) place in
      let from = λ (e : HeapEntry) (l : LeadsTo header memory t w e).
        inv.reached r e (Memᴰ.head refl)
          (k, omega arith, subst (λ v. LeadsTo header memory t v e) here l) in
      let v = visit_pointer-Visited types header memory t ordered start ms r m painted inv w from in
      let rest =
        visit_range-Ranged n (suc k) (p + 4) v.marks r (visit_pointer types header memory w m)
          v.painted v.inv (omega arith) (omega arith)
          (λ i lt. elim (Bool-cases (i == k)) [
            | inl e ↦
                subst
                  (λ j.
                    Done types header memory t ordered start v.marks (pointer header memory t r j))
                  (sym ((==_iff i k).0 e))
                  (subst (Done types header memory t ordered start v.marks) here v.done)
            | inr e ↦ λ f l z. v.grown f.addr (before i (ground arith) f l z)
          ]) in
      record { marks = rest.marks; painted = rest.painted; inv = rest.inv; done = rest.done }

  drop_done :
      (ms : List ℕ) (r : RootEntry) (rs : List RootEntry)
      → Marks ms (r ∷ rs)
      → AllDone types header memory t ordered start ms r
      → Marks ms rs
  drop_done ms r rs inv all = record {
    sound = inv.sound;
    from_start = λ q m. still q (inv.from_start q m);
    from_marked = λ e m z h s. still (contents header memory t e) (inv.from_marked e m z h s);
    reached = λ q e m h. inv.reached q e (Memᴰ.tail m) h;
  }
    where
      still :
          (q : RootEntry)
          → Waiting types header memory t ordered start ms (r ∷ rs) q
          → Waiting types header memory t ordered start ms rs q
      still q (inl (Memᴰ.head e)) =
          inr (subst (AllDone types header memory t ordered start ms) (sym e) all)
      still q (inl (Memᴰ.tail m)) = inl m
      still q (inr d) = inr d

  -- The entry that is marked as done is one more that waits.
  with_done :
      (ms : List ℕ) (r : RootEntry) (rs : List RootEntry)
      → Marks ms (r ∷ rs)
      → Marks ms (r ∷ done_entry ∷ rs)
  with_done ms r rs inv = record {
    sound = inv.sound;
    from_start = λ q m. still q (inv.from_start q m);
    from_marked = λ e m z h s. still (contents header memory t e) (inv.from_marked e m z h s);
    reached = λ q e m h. elim (mem-split r done_entry q rs m) [
      | inl old ↦ inv.reached q e old h
      | inr new ↦ absurd (omega (arith, (h.1), ap (λ d. d.num_pointers) new))
    ];
  }
    where
      still :
          (q : RootEntry)
          → Waiting types header memory t ordered start ms (r ∷ rs) q
          → Waiting types header memory t ordered start ms (r ∷ done_entry ∷ rs) q
      still q (inl m) = inl (mem-below r done_entry q rs m)
      still q (inr d) = inr d

  -- The roots of the next round.
  next_roots-Marks :
      (ms : List ℕ) (rest : List RootEntry) (capacity : ℕ) (m : Marking)
      → Marks ms m.heap_roots.roots
      → (m.more_roots_added ≡ false
          → m.heap_roots ≡ record { capacity = capacity; roots = done_entry ∷ rest })
      → Marks ms (next_roots m).roots
  unfolding next_roots
  next_roots-Marks ms rest capacity m inv kept = elim (Bool-cases m.more_roots_added) [
    | inl more ↦ rw more inv
    | inr none_added ↦
        let same = kept none_added in
        rw none_added (
          subst (λ h. Marks ms (pop_root h).roots) (sym same)
            (drop_done ms done_entry rest (subst (λ h. Marks ms h.roots) same inv)
              (λ i lt. absurd (omega arith))))
  ]

  -- One round of the loop.
  round-Marks :
      (ms : List ℕ) (r : RootEntry) (rest : List RootEntry) (capacity : ℕ) (t' : Tree)
      → t' ≡ paint_tree ms t
      → Marks ms (r ∷ rest)
      → (ms' : List ℕ) × ((mark_round types header memory r rest capacity t').tree
          ≡ paint_tree ms' t)
        × Marks ms' (next_roots (mark_round types header memory r rest capacity t')).roots
  unfolding mark_round
  round-Marks ms r rest capacity t' painted inv =
      let m0 : Marking = record {
        tree = t';
        heap_roots = record { capacity = capacity; roots = done_entry ∷ rest };
        more_roots_added = false;
      } in
      let m = visit_range types header memory r.num_pointers r.mem m0 in
      let w =
        visit_range-Ranged r.num_pointers 0 r.mem ms r m0 painted (with_done ms r rest inv)
          (omega arith) (omega arith) (λ i lt. absurd (omega arith)) in
      let left = drop_done w.marks r m.heap_roots.roots w.inv w.done in
      (
        w.marks,
        w.painted,
        next_roots-Marks w.marks rest capacity m left (λ none_added.
            (range_keeps_roots types header memory r.num_pointers r.mem m0 none_added).1),
      )

  -- When the loop has ended, no range is left to look at.
  loop-Marks :
      (fuel : ℕ) (ms : List ℕ) (c : ℕ) (rs : List RootEntry) (t' t'' : Tree)
      → t' ≡ paint_tree ms t
      → Marks ms rs
      → mark_loop types header memory fuel t' (record { capacity = c; roots = rs }) ≡ some t''
      → (ms' : List ℕ) × (t'' ≡ paint_tree ms' t) × Marks ms' []
  unfolding mark_loop
  loop-Marks zero ms c [] t' t'' painted inv h = (ms, cc, inv)
  loop-Marks zero ms c (r ∷ rs) t' t'' painted inv h = cc
  loop-Marks (suc fuel) ms c [] t' t'' painted inv h = (ms, cc, inv)
  loop-Marks (suc fuel) ms c (r ∷ rs) t' t'' painted inv h =
      let m = mark_round types header memory r rs c t' in
      let (ms', painted', inv') = round-Marks ms r rs c t' painted inv in
      loop-Marks fuel ms' (next_roots m).capacity (next_roots m).roots m.tree t'' painted' inv' h

  start-Marks : Marks [] start
  start-Marks = record {
    sound = λ e m h. cc;
    from_start = λ r m. inl m;
    from_marked = λ e m z h s. cc;
    reached = λ r e m h. Reach.from_root m h;
  }

  pub Reach-Mem : (e : HeapEntry) → Reach header memory t types start e → Memᴰ e (entries t)
  Reach-Mem e (Reach.from_root {r} m (i, lt, l)) =
      search_block-Mem t (pointer header memory t r i) e l.1
  Reach-Mem f (Reach.from_block {e} reach white s (i, lt, l)) =
      search_block-Mem t (pointer header memory t (contents header memory t e) i) f l.1

  all_followed :
      (ms : List ℕ) (r : RootEntry)
      → Waiting types header memory t ordered start ms [] r
      → AllDone types header memory t ordered start ms r
  all_followed ms r (inl m) = elim m [ ]
  all_followed ms r (inr d) = d

  -- With no range left, the marked blocks are closed under following pointers.
  complete :
      (ms : List ℕ)
      → Marks ms []
      → (e : HeapEntry) → Reach header memory t types start e
      → e.marked ≡ 0
      → has ms e.addr ≡ true
  complete ms inv e (Reach.from_root {r} m (i, lt, l)) z =
      all_followed ms r (inv.from_start r m) i lt e l z
  complete ms inv f (Reach.from_block {e} reach white s (i, lt, l)) z =
      all_followed ms (contents header memory t e)
        (inv.from_marked e (Reach-Mem e reach) white (complete ms inv e reach white) s) i lt f l z

-- GC_Mark on a tree that is ordered by address marks the blocks that are not pinned and that a chain of
-- pointers leads to from the roots, and no others: where the loop ends, with whatever fuel, each block
-- is left as it was, but for the mark, which is set just on these.
pub mark_loop-Reach :
    (types : Types) (header : ℕ) (memory : Memory) (fuel : ℕ) (t t' : Tree) (h : HeapRoots)
    → IsOrdered t
    → mark_loop types header memory fuel t h ≡ some t'
    → (ms : List ℕ) × (t' ≡ paint_tree ms t)
      × ((e : HeapEntry)
          → Memᴰ e (entries t)
          → has ms e.addr ≡ true
          → Reach header memory t types h.roots e)
      × ((e : HeapEntry)
          → Reach header memory t types h.roots e
          → e.marked ≡ 0
          → has ms e.addr ≡ true)
mark_loop-Reach types header memory fuel t t' h ordered ends =
    let start = start-Marks types header memory t ordered h.roots in
    let (ms, painted, inv) =
      loop-Marks types header memory t ordered h.roots fuel [] h.capacity h.roots t t'
        (sym (paint_tree_none t)) start ends in
    (ms, painted, inv.sound, complete types header memory t ordered h.roots ms inv)
