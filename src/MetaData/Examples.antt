-- ===== src/MetaData/Examples.antt =====
-- The readers of metadata run on a small stream, and their theorems at it.
use iron_net.Prelude.{
  ℕ, ◌+◌, ◌*◌, ◌/◌, ◌%◌, ◌^◌, ◌<◌, ◌≡◌, refl, arith, false, some, List, [], ◌∷◌, ◌++◌, ◌==◌, get_or,
  take, Memory, get_u16, get_u32, if◌then◌else◌,
}
use iron_net.MetaData.Sig.{decode_sig_entry_ext, encode_sig_entry, decode-encode, make_table_index}
use iron_net.MetaData.Tables.Definitions.{
  codes, table_defs, coded_tags, coded_tag_bits, dest_width, row_len,
}
use iron_net.MetaData.Tables.Counts.{
  coded_index_32, max_table_len, count_rows, count_rows-rank, rank,
}
use iron_net.MetaData.Tables.Load.{
  MetaData, read_index, load_coded, load_source, load_field, load_row, load_rows, load_single_table,
  get_table_row,
}
use iron_net.MetaData.Tables.LoadAll.{
  Heaps, Loaded, set_table, read_header, first_table, load_each, load_tables,
}
use iron_net.MetaData.Tables.LoadAll.Kept.{IsLoaded, valid_bits, load_tables-IsLoaded}
use iron_net.MetaData.Tables.Load.Rows.{row_width, get_table_row-load}

decode-encode_example :
    decode_sig_entry_ext (encode_sig_entry 0x1234 ++ (9 ∷ [])) 1 ≡ some (0x1234, 9 ∷ [])
decode-encode_example = decode-encode 0x1234 1 (9 ∷ []) (omega arith)

-- Behind a header of 24 bytes stand the counts 5 and 2.
abbrev heads : Memory
heads a =
    get_or
      (0 ∷ 0 ∷ 0 ∷ 0 ∷ 0 ∷ 0 ∷ 0 ∷ 0 ∷ 0 ∷ 0 ∷ 0 ∷ 0 ∷ 0 ∷ 0 ∷ 0 ∷ 0 ∷ 0 ∷ 0 ∷ 0 ∷ 0 ∷ 0 ∷ 0 ∷ 0 ∷ 0
        ∷ 5 ∷ 0 ∷ 0 ∷ 0 ∷ 2 ∷ 0 ∷ 0 ∷ 0 ∷ [])
      a 0

-- Of the tables 2 and 6 the second has the second count.
count_rows-rank_example :
    (count_rows heads 0 0x44 48 0 0 (λ t. 0)).0 6
    ≡ (if 0x44 / 2 ^ 6 % 2 == 1 then get_u32 heads (0 + (24 + rank 0x44 6 * 4)) else 0)
count_rows-rank_example = count_rows-rank heads 0 0x44 6 (omega arith)

-- Two rows of the Param table, of six bytes each.
abbrev stream : Memory
stream a = get_or (1 ∷ 0 ∷ 2 ∷ 0 ∷ 7 ∷ 0 ∷ 3 ∷ 0 ∷ 4 ∷ 0 ∷ 9 ∷ 0 ∷ []) a 0

abbrev meta : MetaData
meta = record {
  address = 4096;
  strings = 1000;
  blobs = 2000;
  guid1 = 3000;
  index32_string = false;
  index32_guid = false;
  index32_blob = false;
  num_rows = λ t. 2;
  coded_index32 = λ k. false;
}

abbrev param_rows : List ℕ
param_rows =
    (1 ∷ 0 ∷ 2 ∷ 0 ∷ 239 ∷ 3 ∷ 0 ∷ 0 ∷ 0 ∷ 0 ∷ 0 ∷ 0 ∷ 3 ∷ 0 ∷ 4 ∷ 0 ∷ 241 ∷ 3 ∷ 0 ∷ 0 ∷ 0 ∷ 0 ∷ 0
      ∷ 0 ∷ [])

param_width : row_len (codes "ssssSp") ≡ some 12
unfolding row_len dest_width
param_width = refl

param_loaded : load_single_table stream [] meta 8 (codes "ssssSp") 0 ≡ some (12, param_rows, 12)
unfolding load_single_table row_len dest_width load_rows load_row load_field load_source load_coded
    read_index get_u16
param_loaded = refl

get_table_row-load_example :
    (row : List ℕ) × (get_table_row (λ t. param_rows) (λ t. 12) (make_table_index 8 2) ≡ some row)
    × (load_row stream [] meta 8 2 1 (codes "ssssSp") (0 + 1 * row_width meta (codes "ssssSp"))
        ≡ some (take 12 row, 0 + 2 * row_width meta (codes "ssssSp")))
get_table_row-load_example =
    get_table_row-load stream [] meta 8 (codes "ssssSp") 0 12 12 1 (λ t. param_rows) (λ t. 12)
      param_width (omega arith) param_loaded (omega arith) (omega arith) (omega arith)

-- A stream with a Param table of two rows.
abbrev tables_stream : Memory
tables_stream a =
    get_or
      (0 ∷ 0 ∷ 0 ∷ 0 ∷ 0 ∷ 0 ∷ 0 ∷ 0 ∷ 0 ∷ 1 ∷ 0 ∷ 0 ∷ 0 ∷ 0 ∷ 0 ∷ 0 ∷ 0 ∷ 0 ∷ 0 ∷ 0 ∷ 0 ∷ 0 ∷ 0 ∷ 0
        ∷ 2 ∷ 0 ∷ 0 ∷ 0 ∷ 1 ∷ 0 ∷ 2 ∷ 0 ∷ 7 ∷ 0 ∷ 3 ∷ 0 ∷ 4 ∷ 0 ∷ 9 ∷ 0 ∷ [])
      a 0

abbrev heaps : Heaps
heaps = record { address = 4096; strings = 1000; blobs = 2000; guid1 = 3000 }

abbrev loaded : Loaded
loaded = set_table (record { tables = λ t. []; row_sizes = λ t. 0 }) 8 12 param_rows

tables_loaded :
    load_tables tables_stream [] heaps 0 ≡ some (read_header tables_stream heaps 0, loaded)
unfolding load_tables read_header first_table load_each count_rows coded_index_32 max_table_len
    coded_tags coded_tag_bits table_defs load_single_table row_len dest_width load_rows load_row
    load_field load_source load_coded read_index get_u16 get_u32
tables_loaded = refl

param_present : 0 < (read_header tables_stream heaps 0).num_rows 8
unfolding read_header count_rows get_u32
param_present = omega arith

load_tables-IsLoaded_example :
    IsLoaded tables_stream []
      (read_header tables_stream heaps 0)
      (0 + (24 + rank (valid_bits tables_stream 0) 48 * 4))
      loaded
      8
load_tables-IsLoaded_example =
    load_tables-IsLoaded tables_stream [] heaps 0 (read_header tables_stream heaps 0) loaded 8
      tables_loaded (omega arith) param_present
