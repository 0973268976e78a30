-- ===== src/MetaData/Tables/LoadAll/Kept.antt =====
-- What MetaData_LoadTables leaves for each table.
use iron_net.Prelude.{
  ℕ, zero, suc, ◌+◌, ◌<◌, ◌≤◌, ◌≡◌, refl, sym, ap, ◌∙◌, List, [], Option, none, some, true, false,
  ◌==◌, ==_iff, ◌≢◌, ltb, get_or, Memory, get_u32, ◌*◌, ◌^◌, Option-cases, Bool-cases, inl, inr,
  ◌⊎◌, arith,
}
use mathlib.Core.Path.{subst}
use native.Mathlib.Numerals.{add-one}
use iron_net.Rva.{RvaItem}
use iron_net.MetaData.Tables.Counts.{rank, count_rows-all}
use iron_net.MetaData.Tables.Definitions.{table_defs}
use iron_net.MetaData.Tables.Load.{MetaData, load_single_table}
use iron_net.MetaData.Tables.LoadAll.{
  Heaps, Loaded, set_table, read_header, first_table, load_each, load_tables,
}

module _ (mem : Memory) (rvas : List RvaItem) (md : MetaData) where
  -- Table i starts at p if the first one starts at `first` and each table that has rows ends where
  -- LoadSingleTable ends, with the next one behind it.
  abbrev pub Starts : ℕ → ℕ → ℕ → Type 0
  Starts first zero p = p ≡ first
  Starts first (suc i) p =
      ((ltb 0 (md.num_rows i) ≡ false) × Starts first i p)
      ⊎ ((def : List ℕ) × (n : ℕ) × (bytes : List ℕ) × (p0 : ℕ) × (get_or table_defs i none
            ≡ some def)
          × (load_single_table mem rvas md i def p0 ≡ some (n, bytes, p))
          × Starts first i p0)

  -- A table is loaded if LoadSingleTable has given its rows and their size, at the place where it starts.
  abbrev pub IsLoaded : ℕ → Loaded → ℕ → Type 0
  IsLoaded first l j =
      (def : List ℕ) × (p : ℕ) × (p' : ℕ) × Starts first j p
      × (get_or table_defs j none ≡ some def)
      × (load_single_table mem rvas md j def p ≡ some (l.row_sizes j, l.tables j, p'))

  module _ (left i p : ℕ) (l : Loaded) where
    step-empty :
        ltb 0 (md.num_rows i) ≡ false
        → load_each mem rvas md (suc left) i p l ≡ load_each mem rvas md left (i + 1) p l
    unfolding load_each
    step-empty e = rw (load_each, e) refl

    step-table :
        (def : List ℕ) (n : ℕ) (bytes : List ℕ) (p' : ℕ)
        → ltb 0 (md.num_rows i) ≡ true
        → get_or table_defs i none ≡ some def
        → load_single_table mem rvas md i def p ≡ some (n, bytes, p')
        → load_each mem rvas md (suc left) i p l
          ≡ load_each mem rvas md left (i + 1) p' (set_table l i n bytes)
    unfolding load_each
    step-table def n bytes p' e d h = rw (load_each, e, d, h) refl

    step-undefined :
        ltb 0 (md.num_rows i) ≡ true
        → get_or table_defs i none ≡ none
        → load_each mem rvas md (suc left) i p l ≡ none
    unfolding load_each
    step-undefined e d = rw (load_each, e, d) refl

    step-crash :
        (def : List ℕ)
        → ltb 0 (md.num_rows i) ≡ true
        → get_or table_defs i none ≡ some def
        → load_single_table mem rvas md i def p ≡ none
        → load_each mem rvas md (suc left) i p l ≡ none
    unfolding load_each
    step-crash def e d h = rw (load_each, e, d, h) refl

    -- A round that the loop survives passes a table without rows over, or loads one.
    abbrev Round : Loaded → Type 0
    Round l' =
        ((ltb 0 (md.num_rows i) ≡ false) × (load_each mem rvas md left (i + 1) p l ≡ some l'))
        ⊎ ((def : List ℕ) × (n : ℕ) × (bytes : List ℕ) × (p' : ℕ) × (get_or table_defs i none
              ≡ some def)
            × (load_single_table mem rvas md i def p ≡ some (n, bytes, p'))
            × (load_each mem rvas md left (i + 1) p' (set_table l i n bytes) ≡ some l'))

    round : (l' : Loaded) → load_each mem rvas md (suc left) i p l ≡ some l' → Round l'
    round l' h = elim (Bool-cases (ltb 0 (md.num_rows i))) [
      | inr e ↦ inl (e, sym (step-empty e) ∙ h)
      | inl e ↦ elim (Option-cases (get_or table_defs i none)) [
        | inl d ↦ absurd (ground (arith, step-undefined e d))
        | inr (def, d) ↦ elim (Option-cases (load_single_table mem rvas md i def p)) [
          | inl s ↦ absurd (ground (arith, step-crash def e d s))
          | inr ((n, bytes, p'), s) ↦
              inr (def, n, bytes, p', d, s, sym (step-table def n bytes p' e d s) ∙ h)
        ]
      ]
    ]

  load_each-zero : (i p : ℕ) (l : Loaded) → load_each mem rvas md 0 i p l ≡ some l
  unfolding load_each
  load_each-zero i p l = refl

  -- The rest of the loop does not touch a table before it.
  load_each-before :
      (left i p : ℕ) (l l' : Loaded) (j : ℕ)
      → load_each mem rvas md left i p l ≡ some l'
      → j < i
      → (l'.tables j ≡ l.tables j) × (l'.row_sizes j ≡ l.row_sizes j)
  load_each-before zero i p l l' j h below =
      let same : some l' ≡ some l = sym h ∙ load_each-zero i p l in
      (
        ap (λ o. elim o [ none ↦ l.tables j | some x ↦ x.tables j ]) same,
        ap (λ o. elim o [ none ↦ l.row_sizes j | some x ↦ x.row_sizes j ]) same,
      )
  load_each-before (suc left) i p l l' j h below = elim (round left i p l l' h) [
    | inl (e, rest) ↦ load_each-before left (i + 1) p l l' j rest (omega arith)
    | inr (def, n, bytes, p', d, s, rest) ↦
        let (t, r) =
          load_each-before left (i + 1) p' (set_table l i n bytes) l' j rest (omega arith) in
        let other : (i == j) ≡ false = ground arith in (t ∙ rw other refl, r ∙ rw other refl)
  ]

  -- The table of a round that loads one is there at the end.
  loaded_here :
      (first left i p : ℕ) (l l' : Loaded) (def : List ℕ) (n : ℕ) (bytes : List ℕ) (p' : ℕ)
      → get_or table_defs i none ≡ some def
      → load_single_table mem rvas md i def p ≡ some (n, bytes, p')
      → load_each mem rvas md left (i + 1) p' (set_table l i n bytes) ≡ some l'
      → Starts first i p
      → IsLoaded first l' i
  loaded_here first left i p l l' def n bytes p' d s rest begins =
      let (t, r) =
        load_each-before left (i + 1) p' (set_table l i n bytes) l' i rest (omega arith) in
      let self : (i == i) ≡ true = ground arith in
      let t' : l'.tables i ≡ bytes = t ∙ rw self refl in
      let r' : l'.row_sizes i ≡ n = r ∙ rw self refl in (def, p, p', begins, d, rw (t', r') s)

  load_each-IsLoaded :
      (first left i p : ℕ) (l l' : Loaded) (j : ℕ)
      → Starts first i p
      → load_each mem rvas md left i p l ≡ some l'
      → i ≤ j
      → j < i + left
      → 0 < md.num_rows j
      → IsLoaded first l' j
  load_each-IsLoaded first zero i p l l' j begins h low high rows = absurd (omega arith)
  load_each-IsLoaded first (suc left) i p l l' j begins h low high rows =
      elim (round left i p l l' h) [
        | inl (e, rest) ↦
            let other : i ≢ j = λ same. absurd (ground arith) in
            load_each-IsLoaded first left (i + 1) p l l' j
              (subst (λ k. Starts first k p) (sym (add-one i)) (inl (e, begins))) rest
              (ground arith) (omega arith) rows
        | inr (def, n, bytes, p', d, s, rest) ↦ elim (Bool-cases (i == j)) [
          | inl here ↦
              subst (IsLoaded first l') ((==_iff i j).0 here)
                (loaded_here first left i p l l' def n bytes p' d s rest begins)
          | inr other ↦
              load_each-IsLoaded first left (i + 1) p' (set_table l i n bytes) l' j
                (subst (λ k. Starts first k p') (sym (add-one i))
                  (inr (def, n, bytes, p, d, s, begins)))
                rest (ground arith) (omega arith) rows
        ]
      ]

module _ (mem : Memory) (rvas : List RvaItem) (heaps : Heaps) (stream : ℕ) where
  abbrev each : Option Loaded
  each =
      load_each mem rvas (read_header mem heaps stream) 48 0 (first_table mem stream)
        (record { tables = λ t. []; row_sizes = λ t. 0 })

  load_tables-none : each ≡ none → load_tables mem rvas heaps stream ≡ none
  unfolding load_tables
  load_tables-none o = rw (load_tables, o) refl

  load_tables-some :
      (l : Loaded)
      → each ≡ some l
      → load_tables mem rvas heaps stream ≡ some (read_header mem heaps stream, l)
  unfolding load_tables
  load_tables-some l o = rw (load_tables, o) refl

  -- How MetaData_LoadTables succeeds.
  load_tables-parts :
      (r : MetaData × Loaded)
      → load_tables mem rvas heaps stream ≡ some r
      → (l : Loaded) × (each ≡ some l) × (some (read_header mem heaps stream, l) ≡ some r)
  load_tables-parts r h = elim (Option-cases each) [
    | inl o ↦ let never : none ≡ some r = sym (load_tables-none o) ∙ h in absurd (ground arith)
    | inr (l, o) ↦ (l, o, sym (load_tables-some l o) ∙ h)
  ]

-- The bits of the tables that are present.
abbrev pub valid_bits : Memory → ℕ → ℕ
valid_bits mem stream = get_u32 mem (stream + 8) + get_u32 mem (stream + 12) * 2 ^ 32

first_table-rank :
    (mem : Memory) (stream : ℕ)
    → first_table mem stream ≡ stream + (24 + rank (valid_bits mem stream) 48 * 4)
unfolding first_table
first_table-rank mem stream =
    ap (λ n. stream + (24 + n * 4)) (count_rows-all mem stream (valid_bits mem stream))

-- When MetaData_LoadTables succeeds, each of the 48 tables that has rows by the header has a
-- definition, and its rows and their size are those that LoadSingleTable gives for that definition at the
-- place where the table starts: the first one behind the row counts of the tables that are present, and each
-- further one where LoadSingleTable comes to the end of the one before it.
pub load_tables-IsLoaded :
    (mem : Memory) (rvas : List RvaItem) (heaps : Heaps) (stream : ℕ) (md : MetaData) (l : Loaded)
    (j : ℕ)
    → load_tables mem rvas heaps stream ≡ some (md, l)
    → j < 48
    → 0 < md.num_rows j
    → IsLoaded mem rvas md (stream + (24 + rank (valid_bits mem stream) 48 * 4)) l j
load_tables-IsLoaded mem rvas heaps stream md l j h small rows =
    let first : ℕ = stream + (24 + rank (valid_bits mem stream) 48 * 4) in
    let (l0, loop, same) = load_tables-parts mem rvas heaps stream (md, l) h in
    let goal : Option (MetaData × Loaded) → Type 0 = λ o. elim o [
      | none ↦ Unit {0}
      | some x ↦ 0 < (x.0).num_rows j → IsLoaded mem rvas (x.0) first (x.1) j
    ] in
    subst goal same
      (load_each-IsLoaded mem rvas (read_header mem heaps stream) first 48 0
        (first_table mem stream) _ l0 j (first_table-rank mem stream) loop (omega arith)
        (omega arith))
      rows
