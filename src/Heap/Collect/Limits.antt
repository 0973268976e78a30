-- ===== src/Heap/Collect/Limits.antt =====
-- The limit of the heap's size that Heap_Alloc sets.
use iron_net.Prelude.{
  ℕ, ◌+◌, ◌^◌, ◌≤◌, ◌<◌, ◌≡◌, refl, ap, sym, ◌∙◌, Bool, true, leb, u32, Option, none, some,
  Option-cases, inl, inr, arith,
}
use mathlib.Core.Option.{some-injective, none-ne-some}
use iron_net.Heap.Tree.{Tree}
use iron_net.Heap.Collect.{
  HeapState, garbage_collect, make_room, new_limit, heap_alloc, min_heap_size, max_heap_excess,
}

new_limit-bounds :
    (size : ℕ)
    → size + max_heap_excess < 2 ^ 31
    → (size + min_heap_size ≤ new_limit size) × (new_limit size ≤ size + max_heap_excess)
unfolding new_limit
new_limit-bounds size h = (ground arith, ground arith)

-- The size and the limit that Heap_Alloc leaves.
abbrev heap_limit : Option (ℕ × HeapState) → Option (ℕ × ℕ)
heap_limit none = none
heap_limit (some (p, h)) = some (h.track_heap_size, h.heap_size_max)

-- What Heap_Alloc has done once a collection was due and its call comes back.
module _ (gc_mark : Tree → Tree) (header type_def : ℕ) (has_finalizer : Bool) (addr size : ℕ)
    (h : HeapState) where
  -- A Heap_Alloc at the limit collects, and leaves a limit that is at least min_heap_size and at most
  -- max_heap_excess above the size of the heap with the new block, as long as these sums stay below
  -- 2 ^ 31.
  pub heap_alloc-limits :
      (p : ℕ) (h' : HeapState)
      → h.heap_size_max ≤ h.track_heap_size
      → heap_alloc gc_mark header type_def has_finalizer addr size h ≡ some (p, h')
      → h'.track_heap_size + max_heap_excess < 2 ^ 31
      → (h'.track_heap_size + min_heap_size ≤ h'.heap_size_max)
        × (h'.heap_size_max ≤ h'.track_heap_size + max_heap_excess)
  unfolding heap_alloc make_room
  heap_alloc-limits p h' due alloc small =
      let full : leb h.heap_size_max h.track_heap_size ≡ true = ground arith in
      elim (Option-cases (garbage_collect gc_mark header h)) [
        | inl e ↦
            let failed : heap_alloc gc_mark header type_def has_finalizer addr size h ≡ none =
              rw (heap_alloc, make_room, full, e) refl in
            absurd (none-ne-some _ (sym failed ∙ alloc))
        | inr (r, e) ↦
            let grown = u32 (r.0.track_heap_size + u32 (header + size)) in
            let limit : heap_limit (heap_alloc gc_mark header type_def has_finalizer addr size h)
                ≡ some (grown, new_limit grown) =
              rw (heap_alloc, make_room, full, e) refl in
            let sizes : (grown, new_limit grown) ≡ (h'.track_heap_size, h'.heap_size_max) =
              some-injective _ _ (sym limit ∙ ap heap_limit alloc) in
            let track : grown ≡ h'.track_heap_size = ap (λ t. t.0) sizes in
            let set : new_limit grown ≡ h'.heap_size_max = ap (λ t. t.1) sizes in
            omega (arith, new_limit-bounds grown (omega arith))
      ]
