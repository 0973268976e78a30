-- ===== src/Finalizer.antt =====
-- DotNetAnywhere/Finalizer.c: the queue of the objects to finalize. `slots` is the array behind
-- ppToFinalize, by place; a write at or behind the capacity is `none`, and so is a capacity whose bytes, of 4
-- for each pointer, are no U32: there the size that realloc is given wraps around, and soon the int too.
mod Examples
use iron_net.Prelude.{
  ℕ, zero, suc, ◌+◌, ◌-◌, ◌*◌, ◌^◌, ◌≤◌, ◌<◌, ◌≡◌, ◌≢◌, refl, ap, ◌∙◌, List, [], ◌∷◌, ◌++◌, length,
  Option, none, some, Bool, true, false, ◌==◌, ◌&&◌, ◌||◌, ltb, leb, if◌then◌else◌, arith,
  Bool-cases, inl, inr, sym,
}

pub record Queue : Type 0 where
  pub slots : ℕ → ℕ
  pub ofs : ℕ
  pub capacity : ℕ

-- Finalizer_Init and Finalizer_Free; the slots of a new array are arbitrary.
unfoldable pub init : (ℕ → ℕ) → Queue
init slots = record { slots = slots; ofs = 0; capacity = 4 }

unfoldable pub free_queue : Queue → Queue
free_queue q = record { slots = q.slots; ofs = 0; capacity = 0 }

-- Finalizer_Count.
unfoldable pub count : Queue → ℕ
count q = q.ofs

-- AddFinalizer: a full array is doubled first.
unfoldable pub add_finalizer : Queue → ℕ → Option Queue
add_finalizer q ptr =
    let room = (if leb q.capacity q.ofs then q.capacity * 2 else q.capacity) in
    if ltb q.ofs room && (ltb q.ofs q.capacity || ltb (room * 4) (2 ^ 32))
    then some (record {
      slots = λ i. if i == q.ofs then ptr else q.slots i;
      ofs = q.ofs + 1;
      capacity = room;
    })
    else none

-- GetNextFinalizer: 0 is NULL.
unfoldable pub get_next_finalizer : Queue → ℕ × Queue
get_next_finalizer q =
    if q.ofs == 0
    then (0, q)
    else (q.slots (q.ofs - 1), record { slots = q.slots; ofs = q.ofs - 1; capacity = q.capacity })

-- Objects added one after the other.
unfoldable pub add_all : List ℕ → Queue → Option Queue
add_all [] q = some q
add_all (p ∷ ps) q = elim (add_finalizer q p) [ none ↦ none | some q' ↦ add_all ps q' ]

-- So many calls of GetNextFinalizer.
unfoldable pub take_all : ℕ → Queue → List ℕ
take_all zero q = []
take_all (suc n) q = (get_next_finalizer q).0 ∷ take_all n (get_next_finalizer q).1

-- A queue that was not freed has room for something and holds no more than it has room for.
abbrev pub IsOpen : Queue → Type 0
IsOpen q = (0 < q.capacity) × (q.ofs ≤ q.capacity)

-- The entries from the last to the first.
abbrev pub contents : (ℕ → ℕ) → ℕ → List ℕ
contents slots zero = []
contents slots (suc n) = slots n ∷ contents slots n

-- The queue with one more entry.
abbrev pub added : Queue → ℕ → ℕ → Queue
added q p room = record {
  slots = λ i. if i == q.ofs then p else q.slots i;
  ofs = q.ofs + 1;
  capacity = room;
}

add_finalizer-IsOpen :
    (q : Queue) (p : ℕ)
    → IsOpen q
    → q.ofs < 2 ^ 29
    → (room : ℕ) × (add_finalizer q p ≡ some (added q p room)) × IsOpen (added q p room)
unfolding add_finalizer
add_finalizer-IsOpen q p (some_room, held) small = elim (Bool-cases (leb q.capacity q.ofs)) [
  | inl full ↦
      let fits : ltb q.ofs (q.capacity * 2) ≡ true = ground arith in
      let bytes : ltb (q.capacity * 2 * 4) (2 ^ 32) ≡ true = ground arith in
      let no_room : ltb q.ofs q.capacity ≡ false = ground arith in
      (
        q.capacity * 2,
        rw (add_finalizer, full, fits, no_room, bytes) refl,
        (omega arith, ground arith),
      )
  | inr free ↦
      let fits : ltb q.ofs q.capacity ≡ true = ground arith in
      (q.capacity, rw (add_finalizer, free, fits) refl, (omega arith, ground arith))
]

contents-agree : (f g : ℕ → ℕ) (n : ℕ) → ((i : ℕ) → i < n → f i ≡ g i) → contents f n ≡ contents g n
contents-agree f g zero h = refl
contents-agree f g (suc n) h =
    rw (h n (omega arith), contents-agree f g n (λ i below. h i (omega arith))) refl

contents-added :
    (q : Queue) (p room : ℕ)
    → contents (added q p room).slots (q.ofs + 1) ≡ p ∷ contents q.slots q.ofs
contents-added q p room =
    let next : q.ofs + 1 ≡ suc q.ofs = omega arith in
    let self : (q.ofs == q.ofs) ≡ true = ground arith in
    let rest : contents (added q p room).slots q.ofs ≡ contents q.slots q.ofs =
      contents-agree (added q p room).slots q.slots q.ofs
        (λ i below. let other : (i == q.ofs) ≡ false = ground arith in rw other refl) in
    rw (next, self, rest) refl

-- The first list from its end on, in front of the second.
abbrev pub rev_onto : List ℕ → List ℕ → List ℕ
rev_onto [] acc = acc
rev_onto (p ∷ ps) acc = rev_onto ps (p ∷ acc)

add_all-step :
    (p : ℕ) (ps : List ℕ) (q q' : Queue)
    → add_finalizer q p ≡ some q'
    → add_all (p ∷ ps) q ≡ add_all ps q'
unfolding add_all
add_all-step p ps q q' e = rw (add_all, e) refl

add_all-none : (q : Queue) → add_all [] q ≡ some q
unfolding add_all
add_all-none q = refl

add_all-contents :
    (ps : List ℕ) (q : Queue)
    → IsOpen q
    → q.ofs + length ps ≤ 2 ^ 29
    → (q' : Queue) × (add_all ps q ≡ some q')
      × (q'.ofs ≡ q.ofs + length ps)
      × (contents q'.slots q'.ofs ≡ rev_onto ps (contents q.slots q.ofs))
add_all-contents [] q open_q few = (q, add_all-none q, omega arith, refl)
add_all-contents (p ∷ ps) q open_q few =
    let (room, e, open_next) = add_finalizer-IsOpen q p open_q (omega arith) in
    let (q', rest, size, held) = add_all-contents ps (added q p room) open_next (omega arith) in
    (
      q',
      add_all-step p ps q (added q p room) e ∙ rest,
      omega (arith, size),
      held ∙ ap (rev_onto ps) (contents-added q p room),
    )

next_finalizer :
    (q : Queue)
    → 0 < q.ofs
    → get_next_finalizer q
      ≡ (q.slots (q.ofs - 1), record { slots = q.slots; ofs = q.ofs - 1; capacity = q.capacity })
unfolding get_next_finalizer
next_finalizer q h =
    let full : (q.ofs == 0) ≡ false = ground arith in rw (get_next_finalizer, full) refl

take_all-contents : (n : ℕ) (q : Queue) → q.ofs ≡ n → take_all n q ≡ contents q.slots n
unfolding take_all
take_all-contents zero q h = refl
take_all-contents (suc n) q h =
    let last : q.ofs - 1 ≡ n = omega arith in
    let q' : Queue = record { slots = q.slots; ofs = q.ofs - 1; capacity = q.capacity } in
    ap (λ r. r.0 ∷ take_all n r.1) (next_finalizer q (omega arith))
    ∙ ap (λ k. q.slots k ∷ take_all n q') last
    ∙ ap (◌∷◌ (q.slots n)) (take_all-contents n q' last)

-- From Finalizer_Init on AddFinalizer never writes outside its array while at most 2 ^ 29 objects are added,
-- and GetNextFinalizer then gives them all, the last one first.
pub take_all-add_all :
    (slots : ℕ → ℕ) (ps : List ℕ)
    → length ps ≤ 2 ^ 29
    → (q : Queue) × (add_all ps (init slots) ≡ some q) × (take_all (length ps) q ≡ rev_onto ps [])
unfolding init
take_all-add_all slots ps few =
    let (q, added_all, size, held) =
      add_all-contents ps (init slots) (omega arith, omega arith) (omega arith) in
    let n : q.ofs ≡ length ps = omega (arith, size) in
    (q, added_all, take_all-contents (length ps) q n ∙ ap (contents q.slots) (sym n) ∙ held)
