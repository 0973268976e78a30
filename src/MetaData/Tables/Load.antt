-- ===== src/MetaData/Tables/Load.antt =====
-- DotNetAnywhere/MetaData.c, LoadSingleTable and MetaData_GetTableRow: the rows of one table.
pub mod Rows
use iron_net.Prelude.{
  ℕ, zero, suc, ◌+◌, ◌-◌, ◌*◌, ◌/◌, ◌%◌, ◌^◌, List, [], ◌∷◌, ◌++◌, Option, none, some, Bool, true,
  false, ◌==◌, ltb, if◌then◌else◌, get_or, get_elem?, drop, bit_and, bit_or, u32, Memory, get_u16,
  get_u32, le_bytes,
}
use iron_net.Rva.{RvaItem, rva_find_data}
use iron_net.MetaData.Sig.{make_table_index, table_id, table_ofs}
use iron_net.MetaData.Tables.Definitions.{
  coded_tags, coded_tag_bits, dest_width, row_len, table_defs,
}

-- tMetaData as far as the tables need it: the starts of the heaps, the widths of the indices, and
-- its own address.
pub record MetaData : Type 0 where
  pub address : ℕ
  pub strings : ℕ
  pub blobs : ℕ
  pub guid1 : ℕ
  pub index32_string : Bool
  pub index32_guid : Bool
  pub index32_blob : Bool
  pub num_rows : ℕ → ℕ
  pub coded_index32 : ℕ → Bool

abbrev pub size_mod : ℕ
size_mod = 2 ^ 64

module _ (mem : Memory) (rvas : List RvaItem) (md : MetaData) where
  -- A read of 2 or 4 bytes, and the source pointer behind it.
  unfoldable pub read_index : Bool → ℕ → ℕ × ℕ
  read_index true p = (get_u32 mem p, p + 4)
  read_index false p = (get_u16 mem p, p + 2)

  -- The case of the thirteen kinds of coded index: the tag in the low bits names the table.
  unfoldable pub load_coded : ℕ → ℕ → Option (ℕ × ℕ)
  unfolding read_index coded_tags coded_tag_bits
  load_coded kind p =
      let bits = coded_tag_bits kind in
      let table = get_or (coded_tags kind) (bit_and (mem p) (2 ^ bits - 1)) 0 in
      let (v, p') = read_index (md.coded_index32 kind) p in
      if ltb 48 table then none else some (bit_or (v / 2 ^ bits) (table * 2 ^ 24), p')

  -- The switch over the source character; `rows` is the number of rows of the table, `row` this one.
  unfoldable pub load_source : ℕ → ℕ → ℕ → ℕ → ℕ → Option (ℕ × ℕ)
  unfolding load_coded
  load_source table rows row d p =
      if ltb d 48
      then (let (v, p') = read_index (if ltb (md.num_rows d) 0x10000 then false else true) p in
          some (bit_or v (d * 2 ^ 24), p'))
      else if d == b'c'
      then some (mem p, p + 1)
      else if d == b's'
      then some (get_u16 mem p, p + 2)
      else if d == b'i'
      then some (get_u32 mem p, p + 4)
      else if ltb d (b'<' + 1)
      then load_coded (d - 48) p
      else if d == b'S'
      then (let (v, p') = read_index md.index32_string p in some ((md.strings + v) % size_mod, p'))
      else if d == b'G'
      then (let (v, p') = read_index md.index32_guid p in
          some ((md.guid1 + (v + size_mod - 1) * 16) % size_mod, p'))
      else if d == b'B'
      then (let (v, p') = read_index md.index32_blob p in some ((md.blobs + v) % size_mod, p'))
      else if d == b'^'
      then some (rva_find_data rvas (get_u32 mem p), p + 4)
      else if d == b'm'
      then some (md.address, p)
      else if d == b'l'
      then some (if row + 1 == rows then 1 else 0, p)
      else if d == b'I'
      then some (make_table_index table (row + 1), p)
      else if d == b'x'
      then some (0, p)
      else none

  -- One round of the inner loop: a value is read, and its low bytes are stored.
  unfoldable pub load_field : ℕ → ℕ → ℕ → ℕ → ℕ → ℕ → Option (List ℕ × ℕ)
  unfolding load_source dest_width
  load_field table rows row src dst p = elim (load_source table rows row src p) [
    | none ↦ none
    | some (v, p') ↦ elim (dest_width dst) [ none ↦ none | some w ↦ some (le_bytes w v, p') ]
  ]

  -- The inner loop, over the columns.
  unfoldable pub load_row : ℕ → ℕ → ℕ → List ℕ → ℕ → Option (List ℕ × ℕ)
  load_row table rows row (src ∷ dst ∷ def) p = elim (load_field table rows row src dst p) [
    | none ↦ none
    | some (bytes, p') ↦ elim (load_row table rows row def p') [
      | none ↦ none
      | some (more, p'') ↦ some (bytes ++ more, p'')
    ]
  ]
  load_row table rows row def p = some ([], p)

  -- The outer loop: `left` rows from `row` on.
  unfoldable pub load_rows : ℕ → ℕ → List ℕ → ℕ → ℕ → ℕ → Option (List ℕ × ℕ)
  load_rows table rows def zero row p = some ([], p)
  load_rows table rows def (suc left) row p = elim (load_row table rows row def p) [
    | none ↦ none
    | some (bytes, p') ↦ elim (load_rows table rows def left (row + 1) p') [
      | none ↦ none
      | some (more, p'') ↦ some (bytes ++ more, p'')
    ]
  ]

  -- LoadSingleTable: the row size, the table in memory, and the source pointer behind the table. The
  -- size of a row is kept in an unsigned char.
  unfoldable pub load_single_table : ℕ → List ℕ → ℕ → Option (ℕ × List ℕ × ℕ)
  load_single_table table def p = elim (row_len def) [
    | none ↦ none
    | some n ↦ elim (load_rows table (md.num_rows table) def (md.num_rows table) 0 p) [
      | none ↦ none
      | some (bytes, p') ↦ some (n % 2 ^ 8, bytes, p')
    ]
  ]

-- MetaData_GetTableRow: the bytes from the row on. Row 0 is NULL.
unfoldable pub get_table_row : (ℕ → List ℕ) → (ℕ → ℕ) → ℕ → Option (List ℕ)
get_table_row tables row_size index =
    if table_ofs index == 0
    then none
    else some (drop ((table_ofs index - 1) * row_size (table_id index)) (tables (table_id index)))
