-- ===== src/SystemChar.antt =====
-- DotNetAnywhere/System.Char.c: the category and the case of a code point. The tables are children. A read
-- outside a table is `none`, and so is a loop that has used up its fuel.
pub mod CaseTables
pub mod CategoryTables
pub mod Search
pub mod Case
pub mod Category
mod Examples
use iron_net.Prelude.{
  ℕ, zero, suc, ◌+◌, ◌-◌, ◌*◌, ◌/◌, ◌%◌, ◌^◌, ◌==◌, ltb, leb, if◌then◌else◌, Option, none, some,
  List, get_elem?, length, sub_u32, u16, bit_and, true, false,
}
use iron_net.SystemChar.CaseTables.{uc_case_lower, uc_case_upper}
use iron_net.SystemChar.CategoryTables.{uc_index, uc_runs}

-- The loop of SearchCaseArray from lower, upper and curOfs on; the inner `none` is the result -1.
unfoldable pub search_case_loop : ℕ → List ℕ → ℕ → ℕ → ℕ → ℕ → Option (Option ℕ)
search_case_loop zero case_array find lower upper cur_ofs = none
search_case_loop (suc fuel) case_array find lower upper cur_ofs =
    elim (get_elem? case_array cur_ofs) [
      | none ↦ none
      | some val ↦ elim (ltb find val) [
        | true ↦ elim (cur_ofs == 0) [
          | true ↦ some none
          | false ↦
              search_case_loop fuel case_array find lower cur_ofs
                (lower + sub_u32 cur_ofs lower / 2)
        ]
        | false ↦ elim (get_elem? case_array (cur_ofs + 1)) [
          | none ↦ none
          | some next ↦ elim (ltb find next) [
            | true ↦ if find == val then some (some cur_ofs) else some none
            | false ↦ elim (upper == 0) [
              | true ↦ some none
              | false ↦
                  search_case_loop fuel case_array find cur_ofs upper
                    (cur_ofs + sub_u32 upper cur_ofs / 2)
            ]
          ]
        ]
      ]
    ]

-- SearchCaseArray; the arrays have one length, n.
unfoldable pub search_case_array : List ℕ → ℕ → Option (Option ℕ)
search_case_array case_array find =
    let n = length case_array in
    if find == 0xffff then some none else search_case_loop n case_array find 0 n (n / 2)

-- The letter at the place that was found, or the code point itself.
unfoldable pub other_case : List ℕ → ℕ → Option (Option ℕ) → Option ℕ
other_case letters c none = none
other_case letters c (some none) = some c
other_case letters c (some (some pos)) = get_elem? letters pos

-- Char_ToLowerInvariant and Char_ToUpperInvariant.
unfoldable pub char_to_lower_invariant : ℕ → Option ℕ
char_to_lower_invariant c = other_case uc_case_lower c (search_case_array uc_case_upper c)

unfoldable pub char_to_upper_invariant : ℕ → Option ℕ
char_to_upper_invariant c = other_case uc_case_upper c (search_case_array uc_case_lower c)

-- The natives, whose parameter is a U32.
unfoldable pub to_lower_invariant : ℕ → Option ℕ
to_lower_invariant param = char_to_lower_invariant (u16 param)

unfoldable pub to_upper_invariant : ℕ → Option ℕ
to_upper_invariant param = char_to_upper_invariant (u16 param)

-- The code point at which an entry of UC_Index starts, and its value.
abbrev pub index_start : List ℕ → ℕ → Option ℕ
index_start index i = get_elem? index (i * 2)

abbrev pub index_value : List ℕ → ℕ → Option ℕ
index_value index i = get_elem? index (i * 2 + 1)

-- The category by the entry that was found.
unfoldable pub entry_category : List ℕ → List ℕ → ℕ → ℕ → ℕ → Option ℕ
entry_category index runs c start cur_ofs = elim (index_value index cur_ofs) [
  | none ↦ none
  | some value ↦
      if bit_and value 0x8000 == 0
      then some value
      else get_elem? runs (bit_and value 0x7fff + (c - start))
]

-- The loop of GetUnicodeCategory. The code point is not below `start` where that is taken off it.
unfoldable pub search_index_loop : ℕ → List ℕ → List ℕ → ℕ → ℕ → ℕ → ℕ → Option ℕ
search_index_loop zero index runs c lower upper cur_ofs = none
search_index_loop (suc fuel) index runs c lower upper cur_ofs = elim (index_start index cur_ofs) [
  | none ↦ none
  | some start ↦ elim (ltb c start) [
    | true ↦ search_index_loop fuel index runs c lower cur_ofs (lower + sub_u32 cur_ofs lower / 2)
    | false ↦ elim (index_start index (cur_ofs + 1)) [
      | none ↦ none
      | some next ↦ elim (ltb c next) [
        | true ↦ entry_category index runs c start cur_ofs
        | false ↦
            search_index_loop fuel index runs c cur_ofs upper (cur_ofs + sub_u32 upper cur_ofs / 2)
      ]
    ]
  ]
]

-- System_Char_GetUnicodeCategory.
unfoldable pub get_unicode_category : ℕ → Option ℕ
get_unicode_category c =
    let n = length uc_index / 2 in
    if c == 0xffff then some 29 else search_index_loop n uc_index uc_runs c 0 n (n / 2)
