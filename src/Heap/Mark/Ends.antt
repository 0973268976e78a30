-- ===== src/Heap/Mark/Ends.antt =====
-- The `while` loop of GC_Mark ends: a round that adds roots also marks blocks, and any other takes a root
-- off the list.
use iron_net.Prelude.{
  ℕ, zero, suc, ◌+◌, ◌*◌, ◌≤◌, ◌<◌, ◌≡◌, refl, false, List, [], ◌∷◌, some, Memory, get_u32,
  Bool-cases, inl, inr, arith, ◌==◌, ==_iff, if◌then◌else◌, length, length-append, ltb, Bool,
  Option-cases,
}
use iron_net.Heap.Entry.{HeapEntry}
use iron_net.Heap.Tree.{Tree, nil, node, search_block, entries}
use iron_net.Heap.Mark.{
  Types, RootEntry, HeapRoots, Marking, is_scanned, mark_found, visit_pointer, visit_range,
  set_mark, set_roots, mark_entry, mark_round, next_roots, mark_loop, done_entry, enough_rounds,
}
use iron_net.Heap.Mark.Marked.{range_keeps_roots}

abbrev white_one : HeapEntry → ℕ
white_one e = if e.marked == 0 then 1 else 0

-- The number of blocks that are not marked.
whites : Tree → ℕ
whites nil = 0
whites (node l k e r) = whites l + white_one e + whites r

whites-le : (t : Tree) → whites t ≤ length (entries t)
unfolding whites
whites-le nil = omega arith
whites-le (node l k e r) =
    ground (arith, whites-le l, whites-le r, length-append (entries l) (e ∷ entries r))

mark_entry-white : (a : ℕ) (e : HeapEntry) → white_one (mark_entry a e) ≤ white_one e
unfolding mark_entry
mark_entry-white a e = ground arith

mark_entry-here : (e : HeapEntry) → e.marked ≡ 0 → white_one (mark_entry e.addr e) < white_one e
unfolding mark_entry
mark_entry-here e h = ground arith

set_mark-whites : (a : ℕ) (t : Tree) → whites (set_mark a t) ≤ whites t
unfolding whites set_mark
set_mark-whites a nil = omega arith
set_mark-whites a (node l k e r) =
    omega (arith, set_mark-whites a l, set_mark-whites a r, mark_entry-white a e)

-- Marking a block that was found takes one off.
set_mark-found :
    (t : Tree) (p : ℕ) (e : HeapEntry)
    → search_block t p ≡ some e
    → e.marked ≡ 0
    → whites (set_mark e.addr t) < whites t
unfolding whites set_mark search_block
set_mark-found nil p e h z = cc
set_mark-found (node l k f r) p e h z = elim (Bool-cases (ltb p f.addr)) [
  | inl below ↦ omega (
    arith,
    set_mark-found l p e (rw (below, search_block) at h) z,
    set_mark-whites e.addr r,
    mark_entry-white e.addr f,
  )
  | inr above ↦ elim (Bool-cases (ltb (f.addr + f.total_size) p)) [
    | inl behind ↦ omega (
      arith,
      set_mark-found r p e (rw (above, behind, search_block) at h) z,
      set_mark-whites e.addr l,
      mark_entry-white e.addr f,
    )
    | inr here ↦
        let same : f ≡ e = cc (rw (above, here, search_block) at h) in
        let less : white_one (mark_entry e.addr f) < white_one f = rw same (mark_entry-here e z) in
        omega (arith, set_mark-whites e.addr l, set_mark-whites e.addr r, less)
  ]
]

-- What is left to do: the ranges on the list, and two for each block that is not marked.
abbrev work : Tree → HeapRoots → ℕ
work t h = length h.roots + 2 * whites t

abbrev added : Bool → ℕ
added more = if more then 1 else 0

module _ (types : Types) (header : ℕ) (memory : Memory) where
  found_work :
      (m : Marking) (p : ℕ) (e : HeapEntry)
      → search_block m.tree p ≡ some e
      → let m' = mark_found types header memory e m in
        work m'.tree m'.heap_roots + added m'.more_roots_added
        ≤ work m.tree m.heap_roots + added m.more_roots_added
  unfolding mark_found set_roots
  found_work m p e h = elim (Bool-cases (e.marked == 0)) [
    | inl z ↦ elim (Bool-cases (is_scanned types e)) [
      | inl s ↦ rw (z, s) (ground (arith, set_mark-found m.tree p e h ((==_iff e.marked 0).0 z)))
      | inr s ↦ rw (z, s) (ground (arith, set_mark-found m.tree p e h ((==_iff e.marked 0).0 z)))
    ]
    | inr z ↦ rw z (ground arith)
  ]

  pointer_work :
      (m : Marking) (p : ℕ)
      → let m' = visit_pointer types header memory p m in
        work m'.tree m'.heap_roots + added m'.more_roots_added
        ≤ work m.tree m.heap_roots + added m.more_roots_added
  unfolding visit_pointer
  pointer_work m p = elim (Bool-cases (p == 0)) [
    | inl null ↦ rw null (omega arith)
    | inr some_ref ↦ elim (Option-cases (search_block m.tree p)) [
      | inl nowhere ↦ rw (some_ref, nowhere) (omega arith)
      | inr (e, found) ↦ rw (some_ref, found) (found_work m p e found)
    ]
  ]

  range_work :
      (n p : ℕ) (m : Marking)
      → let m' = visit_range types header memory n p m in
        work m'.tree m'.heap_roots + added m'.more_roots_added
        ≤ work m.tree m.heap_roots + added m.more_roots_added
  unfolding visit_range
  range_work zero p m = omega arith
  range_work (suc n) p m =
      let next = visit_pointer types header memory (get_u32 memory p) m in
      omega (arith, range_work n (p + 4) next, pointer_work m (get_u32 memory p))

  round_work :
      (r : RootEntry) (rest : List RootEntry) (c : ℕ) (t : Tree)
      → let m = mark_round types header memory r rest c t in
        work m.tree (next_roots m) < length (r ∷ rest) + 2 * whites t
  unfolding mark_round next_roots
  round_work r rest c t =
      let m0 : Marking = record {
        tree = t;
        heap_roots = record { capacity = c; roots = done_entry ∷ rest };
        more_roots_added = false;
      } in
      let m = visit_range types header memory r.num_pointers r.mem m0 in
      let less = range_work r.num_pointers r.mem m0 in
      elim (Bool-cases m.more_roots_added) [
        | inl more ↦ ground (arith)
        | inr none_added ↦
            let same =
              (range_keeps_roots types header memory r.num_pointers r.mem m0 none_added).1 in
            rw (none_added, same) (ground arith)
      ]

  loop_ends :
      (fuel : ℕ) (c : ℕ) (rs : List RootEntry) (t : Tree)
      → length rs + 2 * whites t ≤ fuel
      → (t' : Tree) × (mark_loop types header memory fuel t (record { capacity = c; roots = rs })
          ≡ some t')
  unfolding mark_loop
  loop_ends zero c [] t h = (t, refl)
  loop_ends zero c (r ∷ rs) t h = absurd (omega arith)
  loop_ends (suc fuel) c [] t h = (t, refl)
  loop_ends (suc fuel) c (r ∷ rs) t h =
      let m = mark_round types header memory r rs c t in
      loop_ends fuel (next_roots m).capacity (next_roots m).roots m.tree
        (omega (arith, round_work r rs c t))

-- The loop of GC_Mark comes to an end on every heap and every list of roots: it takes no more rounds than
-- there are roots at the start, and two for each block.
pub mark_loop-returns :
    (types : Types) (header : ℕ) (memory : Memory) (t : Tree) (h : HeapRoots) (fuel : ℕ)
    → enough_rounds t h ≤ fuel
    → (t' : Tree) × (mark_loop types header memory fuel t h ≡ some t')
mark_loop-returns types header memory t h fuel enough =
    loop_ends types header memory fuel h.capacity h.roots t (omega (arith, whites-le t))
