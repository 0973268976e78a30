-- ===== src/MetaData/Tables/Load/Rows.antt =====
-- The layout of a loaded table: rows of one size, each found again by its index.
use iron_net.Prelude.{
  ℕ, zero, suc, ◌+◌, ◌-◌, ◌*◌, ◌<◌, ◌≡◌, refl, List, [], ◌∷◌, ◌++◌, some, length, length-append,
  take, drop, take-append_left, drop-append_right, arith, ◌%◌, ◌^◌, Memory, length-le_bytes,
  Option-cases, inl, inr, Bool, false, ltb, ◌==◌, not, if◌then◌else◌,
}
use iron_net.Rva.{RvaItem}
use iron_net.MetaData.Tables.Definitions.{dest_width, row_len}
use iron_net.MetaData.Tables.Load.{
  MetaData, load_source, load_field, load_row, load_rows, load_single_table, get_table_row,
}
use iron_net.MetaData.Sig.{make_table_index, table_id, table_ofs, table_index_fields}
use native.Mathlib.Nat.{zero-add}

abbrev index_width : Bool → ℕ
index_width wide = if wide then 4 else 2

-- The bytes that a source character takes in the stream.
unfoldable pub source_width : MetaData → ℕ → ℕ
source_width md d =
    if ltb d 48
    then index_width (not (ltb (md.num_rows d) 0x10000))
    else if d == b'c'
    then 1
    else if d == b's'
    then 2
    else if d == b'i'
    then 4
    else if ltb d (b'<' + 1)
    then index_width (md.coded_index32 (d - 48))
    else if d == b'S'
    then index_width md.index32_string
    else if d == b'G'
    then index_width md.index32_guid
    else if d == b'B'
    then index_width md.index32_blob
    else if d == b'^'
    then 4
    else 0

-- The bytes that a row takes in the stream.
pub row_width : MetaData → List ℕ → ℕ
row_width md (src ∷ dst ∷ def) = source_width md src + row_width md def
row_width md def = 0

module _ (mem : Memory) (rvas : List RvaItem) (md : MetaData) (table rows : ℕ) where
  -- A stored value takes the bytes of its destination character.
  length-load_field :
      (row src dst p w : ℕ) (bytes : List ℕ) (p' : ℕ)
      → dest_width dst ≡ some w
      → load_field mem rvas md table rows row src dst p ≡ some (bytes, p')
      → length bytes ≡ w
  unfolding load_field
  length-load_field row src dst p w bytes p' e h =
      elim (Option-cases (load_source mem rvas md table rows row src p)) [
        | inl o ↦ ground arith
        | inr ((v, q), o) ↦ ground (arith, length-le_bytes w v)
      ]

  -- Each loaded row has the length that the definition says.
  length-load_row :
      (row : ℕ) (def : List ℕ) (p n : ℕ) (bytes : List ℕ) (p' : ℕ)
      → row_len def ≡ some n
      → load_row mem rvas md table rows row def p ≡ some (bytes, p')
      → length bytes ≡ n
  unfolding row_len load_row
  length-load_row row [] p n bytes p' e h = ground arith
  length-load_row row (src ∷ []) p n bytes p' e h = ground arith
  length-load_row row (src ∷ dst ∷ def) p n bytes p' e h =
      elim (Option-cases (load_field mem rvas md table rows row src dst p)) [
        | inl o ↦ ground arith
        | inr ((front, q), o) ↦ elim (Option-cases (load_row mem rvas md table rows row def q)) [
          | inl o' ↦ ground arith
          | inr ((back, q'), o') ↦ elim (Option-cases (row_len def)) [
            | inl z ↦ ground arith
            | inr (k, z) ↦ elim (Option-cases (dest_width dst)) [
              | inl z' ↦ ground arith
              | inr (w, z') ↦ ground (
                arith,
                length-append front back,
                length-load_field row src dst p w front q z' o,
                length-load_row row def q k back q' z o',
              )
            ]
          ]
        ]
      ]

  load_source-moves :
      (row d p v p' : ℕ)
      → load_source mem rvas md table rows row d p ≡ some (v, p')
      → p' ≡ p + source_width md d
  unfolding load_source source_width
  load_source-moves row d p v p' h = ground arith

  load_field-moves :
      (row src dst p : ℕ) (bytes : List ℕ) (p' : ℕ)
      → load_field mem rvas md table rows row src dst p ≡ some (bytes, p')
      → p' ≡ p + source_width md src
  unfolding load_field
  load_field-moves row src dst p bytes p' h =
      elim (Option-cases (load_source mem rvas md table rows row src p)) [
        | inl o ↦ ground arith
        | inr ((v, q), o) ↦ ground (arith, load_source-moves row src p v q o)
      ]

  load_row-moves :
      (row : ℕ) (def : List ℕ) (p : ℕ) (bytes : List ℕ) (p' : ℕ)
      → load_row mem rvas md table rows row def p ≡ some (bytes, p')
      → p' ≡ p + row_width md def
  unfolding load_row row_width
  load_row-moves row [] p bytes p' h = ground arith
  load_row-moves row (src ∷ []) p bytes p' h = ground arith
  load_row-moves row (src ∷ dst ∷ def) p bytes p' h =
      elim (Option-cases (load_field mem rvas md table rows row src dst p)) [
        | inl o ↦ ground arith
        | inr ((front, q), o) ↦ elim (Option-cases (load_row mem rvas md table rows row def q)) [
          | inl o' ↦ ground arith
          | inr ((back, q'), o') ↦
              ground (
                arith,
                load_field-moves row src dst p front q o,
                load_row-moves row def q back q' o',
              )
        ]
      ]

  -- A first row in front of a table of the other rows.
  row_of_append :
      (def : List ℕ) (n row p : ℕ) (front back : List ℕ) (q k left : ℕ)
      → length front ≡ n
      → load_row mem rvas md table rows row def p ≡ some (front, q)
      → q ≡ p + row_width md def
      → ((j : ℕ)
          → j < left
          → load_row mem rvas md table rows (row + 1 + j) def (q + j * row_width md def)
            ≡ some (take n (drop (j * n) back), q + suc j * row_width md def))
      → k < suc left
      → load_row mem rvas md table rows (row + k) def (p + k * row_width md def)
        ≡ some (take n (drop (k * n) (front ++ back)), p + suc k * row_width md def)
  row_of_append def n row p front back q zero left size o moved ih small =
      let row0 : row + 0 ≡ row = omega arith in
      let start : p + 0 * row_width md def ≡ p = omega arith in
      let first : 0 * n ≡ 0 = omega arith in
      let next : p + 1 * row_width md def ≡ q = omega arith in
      rw (row0, start, first, take-append_left front back n size, next) o
  row_of_append def n row p front back q (suc k) left size o moved ih small =
      let rows_on : row + suc k ≡ row + 1 + k = omega arith in
      let start : p + suc k * row_width md def ≡ q + k * row_width md def = omega arith in
      let skipped : drop (suc k * n) (front ++ back) ≡ drop (k * n) back =
        drop-append_right front back (suc k * n) (k * n) (omega arith) in
      let next : p + suc (suc k) * row_width md def ≡ q + suc k * row_width md def = omega arith in
      rw (rows_on, start, skipped, next) (ih k (omega arith))

  -- A loaded table holds the rows one after the other.
  load_rows-row :
      (def : List ℕ) (n left row p : ℕ) (bytes : List ℕ) (p' k : ℕ)
      → row_len def ≡ some n
      → load_rows mem rvas md table rows def left row p ≡ some (bytes, p')
      → k < left
      → load_row mem rvas md table rows (row + k) def (p + k * row_width md def)
        ≡ some (take n (drop (k * n) bytes), p + suc k * row_width md def)
  unfolding load_rows
  load_rows-row def n zero row p bytes p' k e h small = absurd (omega arith)
  load_rows-row def n (suc left) row p bytes p' k e h small =
      elim (Option-cases (load_row mem rvas md table rows row def p)) [
        | inl o ↦ absurd (ground arith)
        | inr ((front, q), o) ↦
            elim (Option-cases (load_rows mem rvas md table rows def left (row + 1) q)) [
              | inl o' ↦ absurd (ground arith)
              | inr ((back, q'), o') ↦
                  let whole : bytes ≡ front ++ back = ground arith in
                  let size : length front ≡ n = length-load_row row def p n front q e o in
                  let moved : q ≡ p + row_width md def = load_row-moves row def p front q o in
                  rw whole (
                    row_of_append def n row p front back q k left size o moved
                      (λ j below. load_rows-row def n left (row + 1) q back q' j e o' below) small)
            ]
      ]

load_single_table-parts :
    (mem : Memory) (rvas : List RvaItem) (md : MetaData) (table : ℕ) (def : List ℕ) (p n size : ℕ)
    (bytes : List ℕ) (p' : ℕ)
    → row_len def ≡ some n
    → load_single_table mem rvas md table def p ≡ some (size, bytes, p')
    → (size ≡ n % 2 ^ 8)
      × (load_rows mem rvas md table (md.num_rows table) def (md.num_rows table) 0 p
          ≡ some (bytes, p'))
unfolding load_single_table
load_single_table-parts mem rvas md table def p n size bytes p' e h =
    elim (Option-cases
      (load_rows mem rvas md table (md.num_rows table) def (md.num_rows table) 0 p)) [
        | inl o ↦ absurd (ground arith)
        | inr ((b, q), o) ↦ (ground arith, ground arith)
      ]

row-at :
    (tables : ℕ → List ℕ) (sizes : ℕ → ℕ) (table k n index : ℕ)
    → table_id index ≡ table
    → table_ofs index ≡ k + 1
    → sizes table ≡ n
    → get_table_row tables sizes index ≡ some (drop (k * n) (tables table))
unfolding get_table_row
row-at tables sizes table k n index id ofs size =
    let some_row : (k + 1 == 0) ≡ false = ground arith in
    let before : k + 1 - 1 ≡ k = omega arith in rw (id, ofs, some_row, before, size) refl

-- A table that LoadSingleTable has loaded is laid out as MetaData_GetTableRow reads it: the row of
-- index k, counted from 1, stands at (k - 1) rows of the recorded size, and holds what the columns
-- give at the place of that row in the stream, while a row takes fewer than 256 bytes.
pub get_table_row-load :
    (mem : Memory) (rvas : List RvaItem) (md : MetaData) (table : ℕ) (def : List ℕ) (p n p' k : ℕ)
    (tables : ℕ → List ℕ) (sizes : ℕ → ℕ)
    → row_len def ≡ some n
    → n < 2 ^ 8
    → load_single_table mem rvas md table def p ≡ some (sizes table, tables table, p')
    → table < 2 ^ 8
    → k < md.num_rows table
    → k + 1 < 2 ^ 24
    → (row : List ℕ) × (get_table_row tables sizes (make_table_index table (k + 1)) ≡ some row)
      × (load_row mem rvas md table (md.num_rows table) k def (p + k * row_width md def)
          ≡ some (take n row, p + suc k * row_width md def))
get_table_row-load mem rvas md table def p n p' k tables sizes e small h ht hk hk' =
    let (id, ofs) = table_index_fields table (k + 1) ht hk' in
    let (size, loaded) =
      load_single_table-parts mem rvas md table def p n (sizes table) (tables table) p' e h in
    let kept : sizes table ≡ n = omega arith in
    (
      drop (k * n) (tables table),
      row-at tables sizes table k n _ id ofs kept,
      rw zero-add at (
          load_rows-row mem rvas md table (md.num_rows table) def n (md.num_rows table) 0 p
            (tables table) p' k e loaded hk),
    )
