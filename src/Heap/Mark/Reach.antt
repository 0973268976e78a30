-- ===== src/Heap/Mark/Reach.antt =====
-- What GC_Mark is to find: the blocks that a chain of pointers leads to.
use iron_net.Prelude.{
  ℕ, ◌+◌, ◌*◌, ◌/◌, ◌<◌, ◌≡◌, ◌≢◌, inl, inr, sym, ◌∙◌, true, List, [], ◌∷◌, some, Memory, get_u32,
  All, ltb, Bool-cases, arith,
}
use mathlib.Core.Path.{subst}
use mathlib.Core.List.{Memᴰ}
use mathlib.Core.List.Memᴰ
use iron_net.Heap.Entry.{HeapEntry}
use iron_net.Heap.Tree.{Tree, nil, node, search_block, entries}
use iron_net.Heap.Tree.Order.{IsAscending}
use iron_net.Heap.Mark.{Types, RootEntry, is_scanned, memory_size}

module _ (header : ℕ) (memory : Memory) (t : Tree) where
  -- The i-th pointer of a range.
  abbrev pub pointer : RootEntry → ℕ → ℕ
  pointer r i = get_u32 memory (r.mem + 4 * i)

  -- The memory of a block, as a range.
  abbrev pub contents : HeapEntry → RootEntry
  contents e = record { num_pointers = memory_size header e / 4; mem = e.addr + header }

  -- A pointer that is not NULL leads into the block.
  abbrev pub LeadsTo : ℕ → HeapEntry → Type 0
  LeadsTo p e = (p ≢ 0) × (search_block t p ≡ some e)

  -- One of the pointers of the range leads into the block.
  abbrev pub Holds : RootEntry → HeapEntry → Type 0
  Holds r e = (i : ℕ) × (i < r.num_pointers) × LeadsTo (pointer r i) e

  -- A chain of pointers leads from the roots to the block, through blocks that are not pinned and whose
  -- contents are looked at.
  pub data Reach (types : Types) (roots : List RootEntry) : HeapEntry → Type 0 where
    from_root : {r : RootEntry} {e : HeapEntry} → Memᴰ r roots → Holds r e → Reach types roots e
    from_block :
        {e f : HeapEntry}
        → Reach types roots e
        → e.marked ≡ 0
        → is_scanned types e ≡ true
        → Holds (contents e) f
        → Reach types roots f

pub search_block-Mem :
    (t : Tree) (p : ℕ) (e : HeapEntry) → search_block t p ≡ some e → Memᴰ e (entries t)
unfolding search_block
search_block-Mem nil p e h = cc
search_block-Mem (node l k f r) p e h = elim (Bool-cases (ltb p f.addr)) [
  | inl below ↦ Memᴰ.append_left _ (search_block-Mem l p e (rw (below, search_block) at h))
  | inr above ↦ elim (Bool-cases (ltb (f.addr + f.total_size) p)) [
    | inl behind ↦
        Memᴰ.append_right (entries l)
          (Memᴰ.tail (search_block-Mem r p e (rw (above, behind, search_block) at h)))
    | inr here ↦
        Memᴰ.append_right (entries l) (Memᴰ.head (cc (rw (above, here, search_block) at h)))
  ]
]

All-Mem :
    (P : HeapEntry → Type 0) (xs : List HeapEntry) → All P xs → (e : HeapEntry) → Memᴰ e xs → P e
All-Mem P [] h e m = elim m [ ]
All-Mem P (x ∷ xs) h e (Memᴰ.head p) = subst P (sym p) h.0
All-Mem P (x ∷ xs) h e (Memᴰ.tail m) = All-Mem P xs h.1 e m

-- A block is known by its address.
pub same_block :
    (xs : List HeapEntry) (e f : HeapEntry)
    → IsAscending xs
    → Memᴰ e xs
    → Memᴰ f xs
    → e.addr ≡ f.addr
    → e ≡ f
same_block [] e f h m n s = elim m [ ]
same_block (x ∷ xs) e f h (Memᴰ.head p) (Memᴰ.head q) s = p ∙ sym q
same_block (x ∷ xs) e f h (Memᴰ.head p) (Memᴰ.tail n) s =
    absurd
      (omega (arith, All-Mem (λ y. x.addr < y.addr) xs h.0 f n, subst (λ y. y.addr ≡ f.addr) p s))
same_block (x ∷ xs) e f h (Memᴰ.tail m) (Memᴰ.head q) s =
    absurd
      (omega (arith, All-Mem (λ y. x.addr < y.addr) xs h.0 e m, subst (λ y. e.addr ≡ y.addr) q s))
same_block (x ∷ xs) e f h (Memᴰ.tail m) (Memᴰ.tail n) s = same_block xs e f h.1 m n s
