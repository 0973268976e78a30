-- ===== src/SystemChar/Examples.antt =====
-- Some letters: A and a, the Cyrillic a, and a character of a run.
use iron_net.Prelude.{ℕ, ◌+◌, ◌<◌, ◌≤◌, ◌≡◌, ◌≢◌, ◌⊎◌, refl, true, false, some, arith}
use mathlib.Core.List.{Memᴰ}
use iron_net.SystemChar.{
  char_to_lower_invariant, char_to_upper_invariant, get_unicode_category, entry_category,
}
use iron_net.SystemChar.CaseTables.{uc_case_lower, uc_case_upper}
use iron_net.SystemChar.CategoryTables.{uc_index, uc_runs}
use iron_net.SystemChar.Case.{
  partner, among, hidden_letters, capital, char_to_lower_invariant-partner,
  char_to_upper_invariant-capital,
}
use iron_net.SystemChar.Category.{start_at, num_categories, get_unicode_category-entry}

char_to_lower_invariant-partner_example :
    char_to_lower_invariant 0x41 ≡ some (partner uc_case_upper uc_case_lower 0x41)
char_to_lower_invariant-partner_example = char_to_lower_invariant-partner 0x41 (omega arith)

-- The letter at place 2.
c-listed : Memᴰ 0x63 uc_case_lower
unfolding uc_case_lower
c-listed = Memᴰ.tail (Memᴰ.tail (Memᴰ.head refl))

char_to_upper_invariant-capital_example :
    (among 0x63 hidden_letters ≡ false → char_to_upper_invariant 0x63 ≡ some (capital 0x63))
    × (among 0x63 hidden_letters ≡ true
        → (char_to_upper_invariant 0x63 ≡ some 0x63)
          × (char_to_lower_invariant (capital 0x63) ≡ some 0x63)
          × (capital 0x63 ≢ 0x63))
char_to_upper_invariant-capital_example = char_to_upper_invariant-capital 0x63 c-listed

get_unicode_category-entry_example :
    (v : ℕ) × (get_unicode_category 0x20ac ≡ some v)
    × (v < num_categories)
    × (((◌≡◌ {A = ℕ} 0x20ac 0xffff) × (v ≡ 29))
        ⊎ ((i : ℕ) × (start_at uc_index i ≤ 0x20ac)
            × (0x20ac < start_at uc_index (i + 1))
            × (entry_category uc_index uc_runs 0x20ac (start_at uc_index i) i ≡ some v)))
get_unicode_category-entry_example = get_unicode_category-entry 0x20ac (omega arith)
