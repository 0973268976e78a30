-- ===== src/MetaData/Sig.antt =====
-- DotNetAnywhere/MetaData.c, MetaData_DecodeSigEntryExt and its callers: the compressed numbers of
-- signatures and heap entries. A SIG pointer is the list of the bytes from it on; `none` is a read
-- past them, which the code does not guard against.
use iron_net.Prelude.{
  ℕ, ◌+◌, ◌*◌, ◌/◌, ◌%◌, ◌^◌, ◌<◌, ◌≡◌, refl, List, [], ◌∷◌, ◌++◌, Option, none, some, bit_and,
  bit_or, ◌==◌, ltb, if◌then◌else◌, true, arith, holds_below, holds_below-at, ==_iff, or_shifted,
  and_mask, Bool-cases, inl, inr, ◌∙◌, ap, get_or, u32,
}

decode_four : ℕ → ℕ → List ℕ → Option (ℕ × List ℕ)
decode_four a b (c ∷ d ∷ sig) =
    some (bit_or (bit_or (bit_or (bit_and a 0x1f * 2 ^ 24) (b * 2 ^ 16)) (c * 2 ^ 8)) d, sig)
decode_four a b sig = none

decode_more : ℕ → List ℕ → Option (ℕ × List ℕ)
unfolding decode_four
decode_more a [] = none
decode_more a (b ∷ sig) =
    if bit_and a 0xc0 == 0x80
    then some (bit_or (bit_and a 0x3f * 2 ^ 8) b, sig)
    else decode_four a b sig

-- MetaData_DecodeSigEntryExt: one, two or four bytes by the top bits of the first, and 0xff apart.
unfoldable pub decode_sig_entry_ext : List ℕ → ℕ → Option (ℕ × List ℕ)
unfolding decode_more
decode_sig_entry_ext [] coerce = none
decode_sig_entry_ext (a ∷ sig) coerce =
    if bit_and a 0x80 == 0
    then some (a, sig)
    else if a == 0xff
    then some (if coerce == 1 then 0 else 0xffff_ffff, sig)
    else decode_more a sig

-- MetaData_DecodeSigEntry and MetaData_DecodeHeapEntryLength.
unfoldable pub decode_sig_entry : List ℕ → Option (ℕ × List ℕ)
unfolding decode_sig_entry_ext
decode_sig_entry sig = decode_sig_entry_ext sig 1

-- MAKE_TABLE_INDEX, TABLE_ID and TABLE_OFS.
unfoldable pub make_table_index : ℕ → ℕ → ℕ
make_table_index table index = bit_or (u32 (table * 2 ^ 24)) (bit_and index 0x00ff_ffff)

unfoldable pub table_id : ℕ → ℕ
table_id index = index / 2 ^ 24

unfoldable pub table_ofs : ℕ → ℕ
table_ofs index = bit_and index 0x00ff_ffff

-- MetaData_DecodeSigEntryToken, with the tables TypeDef, TypeRef and TypeSpec.
abbrev pub token_tables : List ℕ
token_tables = 0x02 ∷ 0x01 ∷ 0x1b ∷ 0 ∷ []

unfoldable pub decode_sig_entry_token : List ℕ → Option (ℕ × List ℕ)
unfolding decode_sig_entry make_table_index
decode_sig_entry_token sig = elim (decode_sig_entry sig) [
  | none ↦ none
  | some (entry, rest) ↦
      some (make_table_index (get_or token_tables (bit_and entry 0x3) 0) (entry / 4), rest)
]

-- MetaData_GetBlob: the length of the blob, and the bytes from its start on.
unfoldable pub get_blob : List ℕ → Option (ℕ × List ℕ)
unfolding decode_sig_entry
get_blob blob = decode_sig_entry blob

-- The compressed form of a number below 2 ^ 29, as ECMA-335 (II.23.2) writes it.
pub encode_sig_entry : ℕ → List ℕ
encode_sig_entry v =
    if ltb v 0x80
    then v ∷ []
    else if ltb v 0x4000
    then (0x80 + v / 2 ^ 8) ∷ (v % 2 ^ 8) ∷ []
    else (0xc0 + v / 2 ^ 24) ∷ (v / 2 ^ 16 % 2 ^ 8) ∷ (v / 2 ^ 8 % 2 ^ 8) ∷ (v % 2 ^ 8) ∷ []

-- The masks of the first byte, by a table over all bytes.
short_table : holds_below (λ a. bit_and a 0x80 == 0) 0x80 ≡ true
unfolding holds_below
short_table = refl

long_table : holds_below (λ a. bit_and (0x80 + a) 0x80 == 0x80) 0x80 ≡ true
unfolding holds_below
long_table = refl

two_table : holds_below (λ a. bit_and (0x80 + a) 0xc0 == 0x80) 0x40 ≡ true
unfolding holds_below
two_table = refl

four_table : holds_below (λ a. bit_and (0xc0 + a) 0xc0 == 0xc0) 0x40 ≡ true
unfolding holds_below
four_table = refl

is_short : (a : ℕ) → a < 0x80 → bit_and a 0x80 ≡ 0
is_short a h = (==_iff _ _).0 (holds_below-at _ 0x80 a short_table h)

is_long : (a : ℕ) → a < 0x80 → bit_and (0x80 + a) 0x80 ≡ 0x80
is_long a h = (==_iff _ _).0 (holds_below-at _ 0x80 a long_table h)

is_two : (a : ℕ) → a < 0x40 → bit_and (0x80 + a) 0xc0 ≡ 0x80
is_two a h = (==_iff _ _).0 (holds_below-at _ 0x40 a two_table h)

is_four : (a : ℕ) → a < 0x40 → bit_and (0xc0 + a) 0xc0 ≡ 0xc0
is_four a h = (==_iff _ _).0 (holds_below-at _ 0x40 a four_table h)

decode-one :
    (v coerce : ℕ) (rest : List ℕ)
    → v < 0x80
    → decode_sig_entry_ext (v ∷ rest) coerce ≡ some (v, rest)
unfolding decode_sig_entry_ext
decode-one v coerce rest h = rw (is_short v h) refl

decode-two :
    (x y coerce : ℕ) (rest : List ℕ)
    → x < 0x40
    → y < 2 ^ 8
    → decode_sig_entry_ext ((0x80 + x) ∷ y ∷ rest) coerce ≡ some (x * 2 ^ 8 + y, rest)
unfolding decode_sig_entry_ext
decode-two x y coerce rest hx hy =
    let field : bit_and (0x80 + x) 0x3f ≡ x = and_mask 6 (0x80 + x) ∙ omega arith in
    ground (arith, is_long x (omega arith), is_two x hx, field, or_shifted 8 x y hy)

decode-four :
    (x b c d coerce : ℕ) (rest : List ℕ)
    → x < 0x20
    → b < 2 ^ 8
    → c < 2 ^ 8
    → d < 2 ^ 8
    → decode_sig_entry_ext ((0xc0 + x) ∷ b ∷ c ∷ d ∷ rest) coerce
      ≡ some (((x * 2 ^ 8 + b) * 2 ^ 8 + c) * 2 ^ 8 + d, rest)
unfolding decode_sig_entry_ext
decode-four x b c d coerce rest hx hb hc hd =
    let field : bit_and (0xc0 + x) 0x1f ≡ x = and_mask 5 (0xc0 + x) ∙ omega arith in
    let third : bit_or (x * 2 ^ 24) (b * 2 ^ 16) ≡ (x * 2 ^ 8 + b) * 2 ^ 16 =
      or_shifted 24 x (b * 2 ^ 16) (omega arith) ∙ omega arith in
    let second : bit_or ((x * 2 ^ 8 + b) * 2 ^ 16) (c * 2 ^ 8)
        ≡ ((x * 2 ^ 8 + b) * 2 ^ 8 + c) * 2 ^ 8 =
      or_shifted 16 (x * 2 ^ 8 + b) (c * 2 ^ 8) (omega arith) ∙ omega arith in
    let first : bit_or (((x * 2 ^ 8 + b) * 2 ^ 8 + c) * 2 ^ 8) d
        ≡ ((x * 2 ^ 8 + b) * 2 ^ 8 + c) * 2 ^ 8 + d =
      or_shifted 8 ((x * 2 ^ 8 + b) * 2 ^ 8 + c) d hd in
    let value : bit_or (bit_or (bit_or (bit_and (0xc0 + x) 0x1f * 2 ^ 24) (b * 2 ^ 16)) (c * 2 ^ 8))
          d
        ≡ ((x * 2 ^ 8 + b) * 2 ^ 8 + c) * 2 ^ 8 + d =
      rw (field, third, second, first) in
    ground (arith, is_long (0x40 + x) (omega arith), is_four x (omega arith), value)

-- MetaData_DecodeSigEntryExt reads back every number below 2 ^ 29 from its compressed form, whatever
-- it is to do with 0xff, and stops where the form ends.
pub decode-encode :
    (v coerce : ℕ) (rest : List ℕ)
    → v < 2 ^ 29
    → decode_sig_entry_ext (encode_sig_entry v ++ rest) coerce ≡ some (v, rest)
decode-encode v coerce rest h =
    unfold encode_sig_entry in
    elim (Bool-cases (ltb v 0x80)) [
      | inl one ↦ rw one (decode-one v coerce rest (ground arith))
      | inr more ↦ rw more (elim (Bool-cases (ltb v 0x4000)) [
        | inl two ↦ rw two (
            decode-two (v / 2 ^ 8) (v % 2 ^ 8) coerce rest (ground arith) (omega arith)
            ∙ ap (λ t. some (t, rest)) (omega arith))
        | inr four ↦ rw four (
            decode-four (v / 2 ^ 24) (v / 2 ^ 16 % 2 ^ 8) (v / 2 ^ 8 % 2 ^ 8) (v % 2 ^ 8) coerce
              rest (omega arith) (omega arith) (omega arith) (omega arith)
            ∙ ap (λ t. some (t, rest)) (omega arith))
      ])
    ]

-- A table index gives back its table and its row, while they fit 8 and 24 bits.
pub table_index_fields :
    (table index : ℕ)
    → table < 2 ^ 8
    → index < 2 ^ 24
    → (table_id (make_table_index table index) ≡ table)
      × (table_ofs (make_table_index table index) ≡ index)
unfolding make_table_index table_id table_ofs
table_index_fields table index ht hi =
    let low : bit_and index 0x00ff_ffff ≡ index = and_mask 24 index ∙ omega arith in
    let whole : bit_or (u32 (table * 2 ^ 24)) (bit_and index 0x00ff_ffff) ≡ table * 2 ^ 24 + index =
      rw (low) (
        let small : u32 (table * 2 ^ 24) ≡ table * 2 ^ 24 = omega arith in
        rw small (or_shifted 24 table index hi)) in
    rw whole (omega arith, and_mask 24 (table * 2 ^ 24 + index) ∙ omega arith)
