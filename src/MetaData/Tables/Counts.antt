-- ===== src/MetaData/Tables/Counts.antt =====
-- DotNetAnywhere/MetaData.c, MetaData_LoadTables up to the loading itself: the number of rows of each
-- table, and the width of each kind of coded index.
use iron_net.Prelude.{
  ℕ, zero, suc, ◌+◌, ◌-◌, ◌*◌, ◌/◌, ◌%◌, ◌^◌, ◌<◌, ◌≤◌, ◌≡◌, ◌≢◌, ◌↔◌, refl, ap, List, [], ◌∷◌,
  Bool, true, false, ◌==◌, ltb, ltb→lt, lt→ltb, ◌∙◌, ==_iff, ◌&&◌, not, if◌then◌else◌, take, arith,
  Memory, get_u32, All, Bool-cases, inl, inr,
}
use native.Mathlib.Nat.{one-le-pow}
use native.Mathlib.Numerals.{add-one}
use iron_net.MetaData.Tables.Definitions.{coded_tags, coded_tag_bits}

abbrev pub update : (ℕ → ℕ) → ℕ → ℕ → ℕ → ℕ
update f i v j = if i == j then v else f j

-- The loop over the bits of `valid`: `left` bits from `i` on, after `tables` present tables.
unfoldable pub count_rows : Memory → ℕ → ℕ → ℕ → ℕ → ℕ → (ℕ → ℕ) → (ℕ → ℕ) × ℕ
count_rows mem stream valid zero i tables rows = (rows, tables)
count_rows mem stream valid (suc left) i tables rows =
    let present = valid / 2 ^ i % 2 == 1 in
    count_rows mem stream valid left (i + 1) (if present then tables + 1 else tables)
      (update rows i (if present then get_u32 mem (stream + (24 + tables * 4)) else 0))

-- The loop over the tags of one kind of coded index: the length of the longest table.
unfoldable pub max_table_len : (ℕ → ℕ) → List ℕ → ℕ → ℕ
max_table_len rows [] m = m
max_table_len rows (t ∷ ts) m =
    max_table_len rows ts (if not (t == b'z') && ltb m (rows t) then rows t else m)

-- codedIndex32Bit.
unfoldable pub coded_index_32 : (ℕ → ℕ) → ℕ → Bool
unfolding max_table_len
coded_index_32 rows i =
    let bits = coded_tag_bits i in
    not (ltb (max_table_len rows (take (2 ^ bits) (coded_tags i)) 0) (2 ^ (16 - bits)))

max_table_len-lt :
    (rows : ℕ → ℕ) (ts : List ℕ) (m n : ℕ)
    → max_table_len rows ts m < n
    → (m < n) × All (λ t. t ≢ b'z' → rows t < n) ts
unfolding max_table_len
max_table_len-lt rows [] m n h = (h, tt)
max_table_len-lt rows (t ∷ ts) m n h =
    let next = if not (t == b'z') && ltb m (rows t) then rows t else m in
    let (below, rest) = max_table_len-lt rows ts next n h in
    (ground arith, ((λ ne. ground arith), rest))

lt-max_table_len :
    (rows : ℕ → ℕ) (ts : List ℕ) (m n : ℕ)
    → m < n
    → All (λ t. t ≢ b'z' → rows t < n) ts
    → max_table_len rows ts m < n
unfolding max_table_len
lt-max_table_len rows [] m n h all = h
lt-max_table_len rows (t ∷ ts) m n h all = elim (Bool-cases (t == b'z')) [
  | inl z ↦ rw z (lt-max_table_len rows ts m n h all.1)
  | inr other ↦
      let small : rows t < n = all.0 (ground arith) in
      lt-max_table_len rows ts _ n (ground arith) all.1
]

-- A kind of coded index has two bytes exactly when each table that one of its tags names has fewer
-- than 2 ^ (16 - bits) rows.
coded_index_32_iff :
    (rows : ℕ → ℕ) (i : ℕ)
    → (coded_index_32 rows i ≡ false)
      ↔ All
          (λ t. t ≢ b'z' → rows t < 2 ^ (16 - coded_tag_bits i))
          (take (2 ^ coded_tag_bits i) (coded_tags i))
unfolding coded_index_32
coded_index_32_iff rows i =
    let n = 2 ^ (16 - coded_tag_bits i) in
    let ts = take (2 ^ coded_tag_bits i) (coded_tags i) in
    (
      (λ e. (max_table_len-lt rows ts 0 n (ltb→lt _ _ (not_false _ e))).1),
      λ all. rw (
          lt→ltb _ _ (
            lt-max_table_len rows ts 0 n (one-le-pow (16 - coded_tag_bits i) 2 (omega arith)) all)),
    )
  where
    not_false : (b : Bool) → not b ≡ false → b ≡ true
    not_false true e = refl
    not_false false e = cc

-- The table count of a bit mask: table i has the row count of its place among the present ones.
unfoldable pub rank : ℕ → ℕ → ℕ
rank valid zero = 0
rank valid (suc i) = rank valid i + valid / 2 ^ i % 2

count_rows-keep :
    (mem : Memory) (stream valid left i tables j : ℕ) (rows : ℕ → ℕ)
    → j < i
    → (count_rows mem stream valid left i tables rows).0 j ≡ rows j
unfolding count_rows
count_rows-keep mem stream valid zero i tables j rows h = refl
count_rows-keep mem stream valid (suc left) i tables j rows h =
    count_rows-keep mem stream valid left (i + 1) _ j _ (omega arith) ∙ ground arith

rank-add_one :
    (valid i : ℕ)
    → rank valid (i + 1) ≡ (if valid / 2 ^ i % 2 == 1 then rank valid i + 1 else rank valid i)
unfolding rank
rank-add_one valid i = rw (add-one i, rank) (ground arith)

count_rows-from :
    (mem : Memory) (stream valid left i tables j : ℕ) (rows : ℕ → ℕ)
    → tables ≡ rank valid i
    → i ≤ j
    → j < i + left
    → (count_rows mem stream valid left i tables rows).0 j
      ≡ (if valid / 2 ^ j % 2 == 1 then get_u32 mem (stream + (24 + rank valid j * 4)) else 0)
unfolding count_rows
count_rows-from mem stream valid zero i tables j rows e h h' = absurd (omega arith)
count_rows-from mem stream valid (suc left) i tables j rows e h h' = elim (Bool-cases (i == j)) [
  | inl same ↦
      let here : i ≡ j = (==_iff i j).0 same in
      count_rows-keep mem stream valid left (i + 1) _ j _ (omega arith) ∙ rw (same, e, here) refl
  | inr later ↦
      let next : (if valid / 2 ^ i % 2 == 1 then tables + 1 else tables) ≡ rank valid (i + 1) =
        rw (e, rank-add_one valid i) in
      count_rows-from mem stream valid left (i + 1) _ j _ next (ground arith) (omega arith)
]

count_rows-present :
    (mem : Memory) (stream valid left i tables : ℕ) (rows : ℕ → ℕ)
    → tables ≡ rank valid i
    → (count_rows mem stream valid left i tables rows).1 ≡ rank valid (i + left)
unfolding count_rows
count_rows-present mem stream valid zero i tables rows e = e ∙ ap (rank valid) (omega arith)
count_rows-present mem stream valid (suc left) i tables rows e =
    let next : (if valid / 2 ^ i % 2 == 1 then tables + 1 else tables) ≡ rank valid (i + 1) =
      rw (e, rank-add_one valid i) in
    count_rows-present mem stream valid left (i + 1) _ _ next ∙ ap (rank valid) (omega arith)

pub count_rows-all :
    (mem : Memory) (stream valid : ℕ)
    → (count_rows mem stream valid 48 0 0 (λ t. 0)).1 ≡ rank valid 48
count_rows-all mem stream valid =
    count_rows-present mem stream valid 48 0 0 (λ t. 0) (unfold rank in refl)

-- MetaData_LoadTables gives each table that is present the row count at its place among the present
-- ones, and no rows to any other table.
pub count_rows-rank :
    (mem : Memory) (stream valid j : ℕ)
    → j < 48
    → (count_rows mem stream valid 48 0 0 (λ _. 0)).0 j
      ≡ (if valid / 2 ^ j % 2 == 1 then get_u32 mem (stream + (24 + rank valid j * 4)) else 0)
count_rows-rank mem stream valid j h =
    count_rows-from mem stream valid 48 0 0 j (λ _. 0) (unfold rank in refl) (omega arith)
      (omega arith)
