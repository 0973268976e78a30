-- ===== src/MetaData/Tables/LoadAll.antt =====
-- DotNetAnywhere/MetaData.c, MetaData_LoadTables: the widths and the row counts, and then each table
-- behind the one before it. `none` is an `exit` or a Crash.
pub mod Kept
use iron_net.Prelude.{
  ℕ, zero, suc, ◌+◌, ◌*◌, ◌/◌, ◌%◌, ◌^◌, ◌≡◌, refl, List, [], Option, none, some, Bool, true, false,
  ◌==◌, ltb, not, if◌then◌else◌, get_or, bit_and, Memory, get_u32, Option-cases, inl, inr, arith,
}
use iron_net.Rva.{RvaItem}
use iron_net.MetaData.Tables.Definitions.{table_defs}
use iron_net.MetaData.Tables.Counts.{update, count_rows, coded_index_32}
use iron_net.MetaData.Tables.Load.{MetaData, load_single_table}

-- What is known before the tables are loaded: the address of the metadata and of its heaps.
pub record Heaps : Type 0 where
  pub address : ℕ
  pub strings : ℕ
  pub blobs : ℕ
  pub guid1 : ℕ

-- tables.data, and tableRowSize.
pub record Loaded : Type 0 where
  pub tables : ℕ → List ℕ
  pub row_sizes : ℕ → ℕ

abbrev pub set_table : Loaded → ℕ → ℕ → List ℕ → Loaded
set_table l i n bytes = record {
  tables = λ j. if i == j then bytes else l.tables j;
  row_sizes = update l.row_sizes i n;
}

-- The flags, the row counts and the widths of the coded indices.
unfoldable pub read_header : Memory → Heaps → ℕ → MetaData
unfolding count_rows coded_index_32
read_header mem heaps stream =
    let c = mem (stream + 6) in
    let valid = get_u32 mem (stream + 8) + get_u32 mem (stream + 12) * 2 ^ 32 in
    let rows = (count_rows mem stream valid 48 0 0 (λ t. 0)).0 in
    record {
      address = heaps.address;
      strings = heaps.strings;
      blobs = heaps.blobs;
      guid1 = heaps.guid1;
      index32_string = ltb 0 (bit_and c 1);
      index32_guid = ltb 0 (bit_and c 2);
      index32_blob = ltb 0 (bit_and c 4);
      num_rows = rows;
      coded_index32 = coded_index_32 rows;
    }

-- The place of the first table, behind the counts of the present ones.
unfoldable pub first_table : Memory → ℕ → ℕ
unfolding count_rows
first_table mem stream =
    let valid = get_u32 mem (stream + 8) + get_u32 mem (stream + 12) * 2 ^ 32 in
    stream + (24 + (count_rows mem stream valid 48 0 0 (λ t. 0)).1 * 4)

module _ (mem : Memory) (rvas : List RvaItem) (md : MetaData) where
  -- The last loop: `left` tables from `i` on.
  unfoldable pub load_each : ℕ → ℕ → ℕ → Loaded → Option Loaded
  unfolding load_single_table
  load_each zero i p l = some l
  load_each (suc left) i p l = elim (ltb 0 (md.num_rows i)) [
    | false ↦ load_each left (i + 1) p l
    | true ↦ elim (get_or table_defs i none) [
      | none ↦ none
      | some def ↦ elim (load_single_table mem rvas md i def p) [
        | none ↦ none
        | some (n, bytes, p') ↦ load_each left (i + 1) p' (set_table l i n bytes)
      ]
    ]
  ]

-- MetaData_LoadTables.
unfoldable pub load_tables : Memory → List RvaItem → Heaps → ℕ → Option (MetaData × Loaded)
unfolding read_header first_table load_each
load_tables mem rvas heaps stream =
    let md = read_header mem heaps stream in
    elim (load_each mem rvas md 48 0 (first_table mem stream)
      (record { tables = λ t. []; row_sizes = λ t. 0 })) [ none ↦ none | some l ↦ some (md, l) ]
