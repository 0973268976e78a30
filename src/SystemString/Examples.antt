-- ===== src/SystemString/Examples.antt =====
-- Strings at work, and the theorems on them at these.
use iron_net.Prelude.{◌≡◌, refl, arith, true, false, some, none, [], ◌∷◌}
use iron_net.SystemString.{CharArray}
use iron_net.SystemString.IndexOf.{internal_index_of, internal_index_of-first_place}
use iron_net.SystemString.Trim.{is_white, trim_end, internal_trim, internal_trim-middle}

abbrev white : CharArray
white = 32 ∷ 9 ∷ []

space_white : is_white 32 white ≡ true
unfolding is_white
space_white = refl

tab_white : is_white 9 white ≡ true
unfolding is_white
tab_white = refl

letter_stays : is_white 97 white ≡ false
unfolding is_white
letter_stays = refl

-- The loop at the end of an all-white string leaves the string.
trimmed_outside : internal_trim (32 ∷ 32 ∷ []) white 2 ≡ none
unfolding internal_trim trim_end is_white
trimmed_outside = refl

internal_trim-middle_example :
    internal_trim (32 ∷ 97 ∷ 32 ∷ 97 ∷ 9 ∷ 32 ∷ []) white 3 ≡ some (97 ∷ 32 ∷ 97 ∷ [])
internal_trim-middle_example =
    internal_trim-middle white (32 ∷ []) (32 ∷ 97 ∷ []) (9 ∷ 32 ∷ []) 97 97 (space_white, tt)
      (tab_white, (space_white, tt)) letter_stays refl letter_stays (omega arith)

internal_index_of-first_place_example :
    internal_index_of (5 ∷ 6 ∷ 7 ∷ 5 ∷ 8 ∷ []) 5 1 3 true ≡ some 3
internal_index_of-first_place_example =
    internal_index_of-first_place (5 ∷ []) (6 ∷ 7 ∷ 5 ∷ []) (8 ∷ []) 5 (omega arith)
