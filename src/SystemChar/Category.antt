-- ===== src/SystemChar/Category.antt =====
-- GetUnicodeCategory: the binary search of UC_Index against a walk along its entries.
use iron_net.Prelude.{
  ℕ, zero, suc, ◌+◌, ◌-◌, ◌*◌, ◌/◌, ◌^◌, ◌<◌, ◌≤◌, ◌≡◌, ◌⊎◌, inl, inr, refl, ap, ◌∙◌, arith, ltb,
  leb, ◌==◌, ==_iff, Bool, true, false, ◌&&◌, Bool-cases, List, [], ◌∷◌, some, get_elem?, get_or,
  length, sub_u32, if◌then◌else◌, ltb→lt, bit_and,
}
use iron_net.SystemChar.{search_index_loop, entry_category, get_unicode_category, index_value}
use iron_net.SystemChar.CategoryTables.{uc_index, uc_runs}
use iron_net.SystemChar.Search.{get_elem?-get_or, get_or-behind, next_place, narrower, room_left}

-- The code point at which the i-th entry starts, and 0xffff behind the end.
abbrev pub start_at : List ℕ → ℕ → ℕ
start_at index i = get_or index (i * 2) 0xffff

module _ (index runs : List ℕ) (n c : ℕ) (even : length index ≡ n * 2) (short : n < 2 ^ 30)
    (last : c < start_at index (n - 1)) (first : start_at index 0 ≤ c) where
  -- The entry of the code point is found, whichever way it is looked for.
  search_index_loop-entry :
      (fuel lower upper cur : ℕ)
      → lower < upper
      → upper ≤ n
      → start_at index lower ≤ c
      → c < start_at index upper
      → cur ≡ lower + (upper - lower) / 2
      → upper - lower ≤ fuel
      → (i : ℕ) × (i + 1 < n)
        × (start_at index i ≤ c)
        × (c < start_at index (i + 1))
        × (search_index_loop fuel index runs c lower upper cur
            ≡ entry_category index runs c (start_at index i) i)
  unfolding search_index_loop
  search_index_loop-entry zero lower upper cur lu un low high mid enough = absurd (omega arith)
  search_index_loop-entry (suc fuel) lower upper cur lu un low high mid enough =
      let here = get_elem?-get_or index (cur * 2) 0xffff (omega arith) in
      elim (Bool-cases (ltb c (start_at index cur))) [
        | inl below ↦
            let under = ltb→lt c (start_at index cur) below in
            let nz = λ (e : cur ≡ 0). absurd (omega (arith, ap (start_at index) e)) in
            let less = narrower (start_at index) c lower cur (omega arith) (inr low) under nz in
            let (i, place, lo, hi, p) =
              search_index_loop-entry fuel lower cur (lower + sub_u32 cur lower / 2) less
                (omega arith) low under (omega arith) (omega arith) in
            (i, place, lo, hi, rw (search_index_loop, here, below) p)
        | inr above ↦
            let at_least : start_at index cur ≤ c = ground arith in
            let place = next_place (start_at index) c n cur last (omega arith) at_least in
            let next = get_elem?-get_or index ((cur + 1) * 2) 0xffff (omega arith) in
            elim (Bool-cases (ltb c (start_at index (cur + 1)))) [
              | inl found ↦ (
                cur,
                place,
                at_least,
                ltb→lt c (start_at index (cur + 1)) found,
                rw (search_index_loop, here, above, next, found) refl,
              )
              | inr further ↦
                  let more =
                    room_left (start_at index) c cur upper (omega arith) high (ground arith) in
                  let (i, place', lo, hi, p) =
                    search_index_loop-entry fuel cur upper (cur + sub_u32 upper cur / 2)
                      (omega arith) un at_least high (omega arith) (omega arith) in
                  (i, place', lo, hi, rw (search_index_loop, here, above, next, further) p)
            ]
      ]

-- The number of categories.
abbrev pub num_categories : ℕ
num_categories = 30

-- An entry and the start of the next one: a category, or a run of them that lies in UC_Runs.
entry_fits : ℕ → ℕ → ℕ → Bool
entry_fits start value next =
    if bit_and value 0x8000 == 0
    then ltb value num_categories
    else leb (bit_and value 0x7fff + (next - start)) 1794

entries_fit : List ℕ → Bool
entries_fit (start ∷ value ∷ next ∷ rest) = entry_fits start value next && entries_fit (next ∷ rest)
entries_fit (start ∷ value ∷ []) = true
entries_fit _ = true

entries_checked : entries_fit uc_index ≡ true
unfolding entries_fit entry_fits uc_index
entries_checked = refl

all_below : List ℕ → ℕ → Bool
all_below [] k = true
all_below (x ∷ xs) k = ltb x k && all_below xs k

runs_checked : (all_below uc_runs num_categories && (length uc_runs == 1794)) ≡ true
unfolding all_below uc_runs
runs_checked = refl

all_below-at :
    (xs : List ℕ) (k i : ℕ)
    → all_below xs k ≡ true
    → i < length xs
    → (v : ℕ) × (get_elem? xs i ≡ some v) × (v < k)
unfolding all_below
all_below-at [] k i h lt = absurd (omega arith)
all_below-at (x ∷ xs) k zero h lt = (x, refl, ground arith)
all_below-at (x ∷ xs) k (suc i) h lt = all_below-at xs k i (ground arith) (omega arith)

-- The check of all entries, at one of them.
entry_fits-at :
    (index : List ℕ) (i : ℕ)
    → entries_fit index ≡ true
    → (i + 1) * 2 < length index
    → (value : ℕ) × (index_value index i ≡ some value)
      × (entry_fits (start_at index i) value (start_at index (i + 1)) ≡ true)
unfolding entries_fit
entry_fits-at [] i h lt = absurd (omega arith)
entry_fits-at (s ∷ []) i h lt = absurd (omega arith)
entry_fits-at (s ∷ v ∷ []) i h lt = absurd (omega arith)
entry_fits-at (s ∷ v ∷ next ∷ rest) zero h lt = (v, refl, ground arith)
entry_fits-at (s ∷ v ∷ next ∷ rest) (suc i) h lt =
    let (value, at, fits) = entry_fits-at (next ∷ rest) i (ground arith) (omega arith) in
    let here : suc i * 2 ≡ suc (suc (i * 2)) = omega arith in
    let value_here : suc i * 2 + 1 ≡ suc (suc (i * 2 + 1)) = omega arith in
    let then_next : (suc i + 1) * 2 ≡ suc (suc ((i + 1) * 2)) = omega arith in
    (value, rw value_here at, rw (here, then_next) fits)

leb→le : (a b : ℕ) → leb a b ≡ true → a ≤ b
leb→le a b h = ground arith

&&_parts : (a b : Bool) → (a && b) ≡ true → (a ≡ true) × (b ≡ true)
&&_parts a b h = ground arith

-- The category that an entry gives a code point that lies in it.
entry_category-total :
    (c start next value i : ℕ)
    → index_value uc_index i ≡ some value
    → entry_fits start value next ≡ true
    → start ≤ c
    → c < next
    → (v : ℕ) × (entry_category uc_index uc_runs c start i ≡ some v) × (v < num_categories)
unfolding entry_category entry_fits
entry_category-total c start next value i at fits lo hi =
    let (runs_below, counted) =
      &&_parts (all_below uc_runs num_categories) (length uc_runs == 1794) runs_checked in
    elim (Bool-cases (bit_and value 0x8000 == 0)) [
      | inl plain ↦ (
        value,
        rw (entry_category, at, plain) refl,
        ltb→lt value 30 (rw (entry_fits, plain) at fits),
      )
      | inr run ↦
          let (v, found, small) =
            all_below-at uc_runs num_categories (bit_and value 0x7fff + (c - start)) runs_below (
              omega (
                arith,
                (==_iff (length uc_runs) 1794).0 counted,
                leb→le (bit_and value 0x7fff + (next - start)) 1794 (rw (entry_fits, run) at fits),
              )) in
          (v, rw (entry_category, at, run) found, small)
    ]

pub length-uc_index : length uc_index ≡ 597 * 2
unfolding uc_index
length-uc_index = refl

uc_index_ends : (start_at uc_index 596 ≡ 0xffff) × (start_at uc_index 0 ≡ 0)
unfolding uc_index
uc_index_ends = (refl, refl)

search_from_middle :
    (c : ℕ)
    → (c == 0xffff) ≡ false
    → get_unicode_category c ≡ search_index_loop 597 uc_index uc_runs c 0 597 (597 / 2)
unfolding get_unicode_category
search_from_middle c below =
    let half : length uc_index / 2 ≡ 597 = omega (arith, length-uc_index) in
    rw (get_unicode_category, below)
      (ap (λ n. search_index_loop n uc_index uc_runs c 0 n (n / 2)) half)

-- GetUnicodeCategory comes to an end for every 16-bit code point and reads inside its tables: below 0xffff
-- it gives the category of the entry of UC_Index that the code point lies in, and for 0xffff it gives 29;
-- the result is one of the 30 categories.
pub get_unicode_category-entry :
    (c : ℕ)
    → c < 2 ^ 16
    → (v : ℕ) × (get_unicode_category c ≡ some v)
      × (v < num_categories)
      × (((c ≡ 0xffff) × (v ≡ 29))
          ⊎ ((i : ℕ) × (start_at uc_index i ≤ c)
              × (c < start_at uc_index (i + 1))
              × (entry_category uc_index uc_runs c (start_at uc_index i) i ≡ some v)))
unfolding get_unicode_category
get_unicode_category-entry c small = elim (Bool-cases (c == 0xffff)) [
  | inl top ↦
      (29, rw (get_unicode_category, top) refl, omega arith, inl ((==_iff c 0xffff).0 top, refl))
  | inr lower ↦
      let last : c < start_at uc_index 596 = ground (arith, uc_index_ends) in
      let behind : start_at uc_index 597 ≡ 0xffff =
        get_or-behind uc_index (597 * 2) 0xffff (omega (arith, length-uc_index)) in
      let (i, place, lo, hi, p) =
        search_index_loop-entry uc_index uc_runs 597 c length-uc_index (omega arith) last
          (omega (arith, uc_index_ends)) 597 0 597 (597 / 2) (omega arith) (omega arith)
          (omega (arith, uc_index_ends)) (ground (arith, behind)) (omega arith) (omega arith) in
      let (value, at, fits) =
        entry_fits-at uc_index i entries_checked (omega (arith, length-uc_index)) in
      let (v, category, known) =
        entry_category-total c (start_at uc_index i) (start_at uc_index (i + 1)) value i at fits lo
          hi in
      (v, search_from_middle c lower ∙ (p ∙ category), known, inr (i, lo, hi, category))
]
