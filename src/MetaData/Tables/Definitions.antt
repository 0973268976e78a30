-- ===== src/MetaData/Tables/Definitions.antt =====
-- DotNetAnywhere/MetaData.c: tableDefs, codedTags and codedTagBits, and the size of a table's rows.
use Prim.Native.Char.{code}
use Prim.Native.String.{String}
use iron_net.Prelude.{ℕ, ◌+◌, List, [], ◌∷◌, ◌++◌, Option, none, some, ◌==◌, if◌then◌else◌, get_or}

abbrev pub codes : String → List ℕ
codes String.[] = []
codes (String.◌∷◌ c s) = code c ∷ codes s

abbrev pub char : ℕ → List ℕ
char n = n ∷ []

-- tableDefs without its diagnostic columns; `none` is a NULL entry.
unfoldable pub table_defs : List (Option (List ℕ))
table_defs =
    some (codes "sxSpGpGxGx")
    ∷ some (codes "xp;*SpSp")
    ∷ some (
        codes "xpmpi*SpSp0*"
        ++ char 4
        ++ codes "*"
        ++ char 6
        ++ codes "*xclcxcxcx*xpxpx*xpxcxcxcxcxpx*x*x*xpI*xpxpxpxpx*xpx*x*xpxpxpxp")
    ∷ none
    ∷ some (codes "xpmpssxsSpBpxpxpx*x*I*xp")
    ∷ none
    ∷ some (codes "xpmp^pssssSpBp" ++ char 8 ++ codes "*xpxcxcxsxpx*xpxpI*x*x*xpxp")
    ∷ none
    ∷ some (codes "ssssSp")
    ∷ some (char 2 ++ codes "*0*")
    ∷ some (codes "xp5*SpBp")
    ∷ some (codes "ccccxs1*Bp")
    ∷ some (codes "2*:*Bp")
    ∷ none
    ∷ some (codes "ssxs4*Bp")
    ∷ some (codes "ssxsi*" ++ char 2 ++ codes "*")
    ∷ some (codes "i*" ++ char 4 ++ codes "*")
    ∷ some (codes "Bp")
    ∷ some (char 2 ++ codes "*" ++ char 0x14 ++ codes "*")
    ∷ none
    ∷ some (codes "ssxsSp0*")
    ∷ some (char 2 ++ codes "*" ++ char 0x17 ++ codes "*")
    ∷ none
    ∷ some (codes "ssxsSpBp")
    ∷ some (codes "ssxs" ++ char 6 ++ codes "*6*")
    ∷ some (char 2 ++ codes "*7*7*")
    ∷ some (codes "Sp")
    ∷ some (codes "xpmpBp")
    ∷ some (codes "ssxs8*Sp" ++ char 0x1a ++ codes "*")
    ∷ some (codes "^*" ++ char 4 ++ codes "*")
    ∷ none
    ∷ none
    ∷ some (codes "i*ssssssssi*BpSpSp")
    ∷ none
    ∷ none
    ∷ some (codes "ssssssssi*BpSpSpBp")
    ∷ none
    ∷ none
    ∷ none
    ∷ some (codes "i*i*SpSp9*")
    ∷ some (codes "i*i*Sp9*")
    ∷ some (char 2 ++ codes "*" ++ char 2 ++ codes "*")
    ∷ some (codes "ssss<*Sp")
    ∷ some (codes "xpmp7*Bp")
    ∷ some (char 0x2a ++ codes "p0*")
    ∷ []

-- codedTags: the table of each tag of a coded index, 'z' where a tag has none.
unfoldable pub coded_tags : ℕ → List ℕ
coded_tags n =
    get_or
      ((2 ∷ 1 ∷ 0x1b ∷ b'z' ∷ [])
        ∷ (4 ∷ 8 ∷ 0x17 ∷ b'z' ∷ [])
        ∷ (6 ∷ 4 ∷ 1 ∷ 2 ∷ 8 ∷ 9 ∷ 0x0a ∷ 0 ∷ 0x0e ∷ 0x17 ∷ 0x14 ∷ 0x11 ∷ 0x1a ∷ 0x1b ∷ 0x20 ∷ 0x23
            ∷ 0x26 ∷ 0x27 ∷ 0x28 ∷ 0x2a ∷ 0x2c ∷ 0x2b ∷ b'z' ∷ b'z' ∷ b'z' ∷ b'z' ∷ b'z' ∷ b'z'
            ∷ b'z' ∷ b'z' ∷ b'z' ∷ b'z' ∷ [])
        ∷ (4 ∷ 8 ∷ [])
        ∷ (2 ∷ 6 ∷ 0x20 ∷ b'z' ∷ [])
        ∷ (b'z' ∷ 1 ∷ 0x1a ∷ 6 ∷ 0x1b ∷ b'z' ∷ b'z' ∷ b'z' ∷ [])
        ∷ (0x14 ∷ 0x17 ∷ [])
        ∷ (6 ∷ 0x0a ∷ [])
        ∷ (4 ∷ 6 ∷ [])
        ∷ (0x26 ∷ 0x23 ∷ 0x27 ∷ b'z' ∷ [])
        ∷ (b'z' ∷ b'z' ∷ 6 ∷ 0x0a ∷ b'z' ∷ b'z' ∷ b'z' ∷ b'z' ∷ [])
        ∷ (0 ∷ 0x1a ∷ 0x23 ∷ 1 ∷ [])
        ∷ (2 ∷ 6 ∷ [])
        ∷ [])
      n []

-- codedTagBits.
unfoldable pub coded_tag_bits : ℕ → ℕ
coded_tag_bits n = get_or (2 ∷ 2 ∷ 5 ∷ 1 ∷ 2 ∷ 3 ∷ 1 ∷ 1 ∷ 1 ∷ 2 ∷ 3 ∷ 2 ∷ 1 ∷ []) n 0

-- The bytes that a destination character takes in the loaded row.
unfoldable pub dest_width : ℕ → Option ℕ
dest_width c =
    if c == b'p'
    then some 8
    else if c == b'*'
    then some 4
    else if c == b's'
    then some 2
    else if c == b'c'
    then some 1
    else if c == b'x'
    then some 0
    else none

-- The first loop of LoadSingleTable: the length of a row in memory.
unfoldable pub row_len : List ℕ → Option ℕ
unfolding dest_width
row_len (src ∷ dst ∷ def) = elim (dest_width dst) [
  | none ↦ none
  | some w ↦ elim (row_len def) [ none ↦ none | some n ↦ some (w + n) ]
]
row_len def = some 0
