-- ===== src/SystemChar/Case.antt =====
-- The change of case: what SearchCaseArray finds in the two tables.
use iron_net.Prelude.{
  ℕ, zero, suc, ◌+◌, ◌-◌, ◌<◌, ◌≡◌, ◌≢◌, inl, inr, refl, sym, ap, ◌∙◌, arith, ltb, ◌==◌, ==_iff,
  Bool, true, false, ◌&&◌, ◌||◌, not, Bool-cases, List, [], ◌∷◌, Option, none, some, get_elem?,
  length, if◌then◌else◌,
}
use mathlib.Core.Path.{subst}
use mathlib.Core.List.{Memᴰ}
use iron_net.SystemChar.{
  char_to_lower_invariant, char_to_upper_invariant, other_case, search_case_array, search_case_loop,
}
use iron_net.SystemChar.CaseTables.{uc_case_lower, uc_case_upper}
use iron_net.SystemChar.Search.{val, IsAnswer, search_case_array-IsAnswer}

-- Each number is below the next one.
is_increasing : List ℕ → Bool
is_increasing [] = true
is_increasing (x ∷ []) = true
is_increasing (x ∷ y ∷ ys) = ltb x y && is_increasing (y ∷ ys)

-- The partner in the second list of the first occurrence in the first list, or the number itself.
pub partner : List ℕ → List ℕ → ℕ → ℕ
partner [] ls c = c
partner (u ∷ us) [] c = c
partner (u ∷ us) (l ∷ ls) c = if u == c then l else partner us ls c

above_first :
    (x : ℕ) (xs : List ℕ) (j : ℕ) → is_increasing (x ∷ xs) ≡ true → j < length xs → x < val xs j
unfolding is_increasing
above_first x [] j h lt = absurd (omega arith)
above_first x (y ∷ ys) zero h lt = ground arith
above_first x (y ∷ ys) (suc j) h lt =
    ground (arith, above_first y ys j (ground arith) (omega arith))

tail_increasing : (x : ℕ) (xs : List ℕ) → is_increasing (x ∷ xs) ≡ true → is_increasing xs ≡ true
unfolding is_increasing
tail_increasing x [] h = refl
tail_increasing x (y ∷ ys) h = ground arith

-- A gap between two neighbours of an increasing list is a gap in the whole list.
no_place :
    (xs : List ℕ) (c i j : ℕ)
    → is_increasing xs ≡ true
    → suc i < length xs
    → val xs i < c
    → c < val xs (suc i)
    → j < length xs
    → val xs j ≢ c
no_place [] c i j h lt lo hi jl e = absurd (omega arith)
no_place (x ∷ []) c i j h lt lo hi jl e = absurd (omega arith)
no_place (x ∷ y ∷ ys) c zero zero h lt lo hi jl e = absurd (omega arith)
no_place (x ∷ y ∷ ys) c zero (suc zero) h lt lo hi jl e = absurd (omega arith)
no_place (x ∷ y ∷ ys) c zero (suc (suc j)) h lt lo hi jl e =
    absurd (omega (arith, above_first y ys j (tail_increasing x (y ∷ ys) h) (omega arith)))
no_place (x ∷ y ∷ ys) c (suc i) zero h lt lo hi jl e =
    absurd (omega (arith, above_first x (y ∷ ys) i h (omega arith)))
no_place (x ∷ y ∷ ys) c (suc i) (suc j) h lt lo hi jl e =
    no_place (y ∷ ys) c i j (tail_increasing x (y ∷ ys) h) (omega arith) lo hi (omega arith) e

below_all :
    (xs : List ℕ) (c j : ℕ) → is_increasing xs ≡ true → c < val xs 0 → j < length xs → val xs j ≢ c
below_all [] c j h lo jl e = absurd (omega arith)
below_all (x ∷ xs) c zero h lo jl e = absurd (omega arith)
below_all (x ∷ xs) c (suc j) h lo jl e = absurd (omega (arith, above_first x xs j h (omega arith)))

partner_at :
    (us ls : List ℕ) (c i : ℕ)
    → is_increasing us ≡ true
    → length ls ≡ length us
    → i < length us
    → val us i ≡ c
    → get_elem? ls i ≡ some (partner us ls c)
unfolding partner
partner_at [] ls c i h same lt e = absurd (omega arith)
partner_at (u ∷ us) [] c i h same lt e = absurd (omega arith)
partner_at (u ∷ us) (l ∷ ls) c zero h same lt e = rw ((==_iff u c).1 e) refl
partner_at (u ∷ us) (l ∷ ls) c (suc i) h same lt e =
    let below = above_first u us i h (omega arith) in
    let other : (u == c) ≡ false = ground arith in
    rw other (partner_at us ls c i (tail_increasing u us h) (omega arith) (omega arith) e)

partner_none :
    (us ls : List ℕ) (c : ℕ) → ((j : ℕ) → j < length us → val us j ≢ c) → partner us ls c ≡ c
unfolding partner
partner_none [] ls c h = refl
partner_none (u ∷ us) [] c h = refl
partner_none (u ∷ us) (l ∷ ls) c h = elim (Bool-cases (u == c)) [
  | inl e ↦ absurd (h 0 (omega arith) ((==_iff u c).0 e))
  | inr e ↦ rw e (partner_none us ls c (λ j lt. h (suc j) (omega arith)))
]

upper_increasing : is_increasing uc_case_upper ≡ true
unfolding is_increasing uc_case_upper
upper_increasing = refl

pub length-upper : length uc_case_upper ≡ 674
unfolding uc_case_upper
length-upper = refl

pub length-lower : length uc_case_lower ≡ 674
unfolding uc_case_lower
length-lower = refl

last-upper : val uc_case_upper 673 ≡ 0xffff
unfolding uc_case_upper
last-upper = refl

-- Char_ToLowerInvariant gives each code point below 0xffff the letter that stands in UC_CaseLower where
-- it stands in UC_CaseUpper, and leaves it as it is where it does not stand there.
pub char_to_lower_invariant-partner :
    (c : ℕ) → c < 0xffff → char_to_lower_invariant c ≡ some (partner uc_case_upper uc_case_lower c)
unfolding char_to_lower_invariant other_case
char_to_lower_invariant-partner c small =
    let last : val uc_case_upper (length uc_case_upper - 1) ≡ 0xffff =
      ap (λ n. val uc_case_upper (n - 1)) length-upper ∙ last-upper in
    let (r, found, answer) =
      search_case_array-IsAnswer uc_case_upper c small (omega (arith, length-upper)) (omega arith)
        (omega (arith, length-upper)) in
    rw found (by_answer r answer)
  where
    by_answer :
        (r : Option ℕ)
        → IsAnswer uc_case_upper c r
        → other_case uc_case_lower c (some r) ≡ some (partner uc_case_upper uc_case_lower c)
    by_answer none (inl below) = ap some (
        sym (
          partner_none uc_case_upper uc_case_lower c
            (λ j lt. below_all uc_case_upper c j upper_increasing below lt)))
    by_answer none (inr (i, lt, lo, hi)) = ap some (
        sym (
          partner_none uc_case_upper uc_case_lower c (λ j jl.
            let next : i + 1 ≡ suc i = omega arith in
            no_place uc_case_upper c i j upper_increasing (omega arith) lo
              (subst (λ k. c < val uc_case_upper k) next hi) jl)))
    by_answer (some i) (lt, e) =
        partner_at uc_case_upper uc_case_lower c i upper_increasing
          (length-lower ∙ sym length-upper) lt e

-- The lower-case letters that SearchCaseArray does not find in UC_CaseLower, whose order they break.
pub hidden_letters : List ℕ
hidden_letters =
    375 ∷ 255 ∷ 595 ∷ 387 ∷ 596 ∷ 392 ∷ 598 ∷ 599 ∷ 396 ∷ 601 ∷ 603 ∷ 402 ∷ 608 ∷ 611 ∷ 617 ∷ 616
    ∷ 409 ∷ 623 ∷ 626 ∷ 629 ∷ 417 ∷ 419 ∷ 421 ∷ 424 ∷ 643 ∷ 429 ∷ 648 ∷ 432 ∷ 650 ∷ 651 ∷ 436 ∷ 438
    ∷ 658 ∷ 441 ∷ 445 ∷ 454 ∷ 457 ∷ 460 ∷ 462 ∷ 464 ∷ 466 ∷ 468 ∷ 470 ∷ 472 ∷ 474 ∷ 476 ∷ 479 ∷ 481
    ∷ 483 ∷ 485 ∷ 972 ∷ 973 ∷ 974 ∷ 945 ∷ 946 ∷ 1105 ∷ 1106 ∷ 1107 ∷ 1108 ∷ 1109 ∷ 1110 ∷ 1111
    ∷ 1112 ∷ 1113 ∷ 1114 ∷ 1115 ∷ 1116 ∷ 1118 ∷ 1119 ∷ 1072 ∷ 1073 ∷ 1074 ∷ 1075 ∷ 1076 ∷ 1077
    ∷ 1078 ∷ 1079 ∷ 8112 ∷ 8113 ∷ 8048 ∷ 8049 ∷ 8050 ∷ 8144 ∷ 8145 ∷ 8160 ∷ 8161 ∷ 8058 ∷ 8165
    ∷ 8056 ∷ 8057 ∷ 8060 ∷ 8061 ∷ []

is_some : Option ℕ → ℕ → Bool
is_some none c = false
is_some (some d) c = d == c

is_some→≡ : (o : Option ℕ) (c : ℕ) → is_some o c ≡ true → o ≡ some c
unfolding is_some
is_some→≡ none c h = cc
is_some→≡ (some d) c h = ap some ((==_iff d c).0 h)

all_of : (ℕ → Bool) → List ℕ → Bool
all_of test [] = true
all_of test (x ∷ xs) = test x && all_of test xs

all_of-Mem :
    (test : ℕ → Bool) (xs : List ℕ) (x : ℕ) → all_of test xs ≡ true → Memᴰ x xs → test x ≡ true
unfolding all_of
all_of-Mem test [] x h m = elim m [ ]
all_of-Mem test (y ∷ ys) x h (Memᴰ.head e) = subst (λ z. test z ≡ true) (sym e) (ground arith)
all_of-Mem test (y ∷ ys) x h (Memᴰ.tail m) = all_of-Mem test ys x (ground arith) m

pub among : ℕ → List ℕ → Bool
among c [] = false
among c (x ∷ xs) = (c == x) || among c xs

-- The upper-case letter that UC_CaseUpper has for the letter of UC_CaseLower.
pub capital : ℕ → ℕ
capital c = partner uc_case_lower uc_case_upper c

-- Whether Char_ToUpperInvariant does what the tables say: a letter that is hidden stays, and its capital
-- is another one that leads back to it; any other is turned into its capital.
upper_as_told : ℕ → Bool
upper_as_told c =
    if among c hidden_letters
    then is_some (char_to_upper_invariant c) c
      && (is_some (char_to_lower_invariant (capital c)) c && not (capital c == c))
    else is_some (char_to_upper_invariant c) (capital c)

upper_checked : all_of upper_as_told uc_case_lower ≡ true
unfolding all_of upper_as_told among hidden_letters is_some char_to_upper_invariant
    char_to_lower_invariant capital partner search_case_array search_case_loop other_case
    uc_case_lower uc_case_upper
upper_checked = refl

&&_parts : (a b c : Bool) → (a && (b && not c)) ≡ true → (a ≡ true) × (b ≡ true) × (c ≡ false)
&&_parts a b c h = ground arith

-- Char_ToUpperInvariant turns a letter of UC_CaseLower into the capital that stands in UC_CaseUpper at its
-- place, if the letter is none of the 92 hidden ones. Each of those it leaves as it is, although its
-- capital is another letter, which Char_ToLowerInvariant turns into it.
pub char_to_upper_invariant-capital :
    (c : ℕ)
    → Memᴰ c uc_case_lower
    → (among c hidden_letters ≡ false → char_to_upper_invariant c ≡ some (capital c))
      × (among c hidden_letters ≡ true
          → (char_to_upper_invariant c ≡ some c)
            × (char_to_lower_invariant (capital c) ≡ some c)
            × (capital c ≢ c))
unfolding upper_as_told
char_to_upper_invariant-capital c m =
    let told = all_of-Mem upper_as_told uc_case_lower c upper_checked m in
    (
      λ plain.
          is_some→≡ (char_to_upper_invariant c) (capital c) (rw (upper_as_told, plain) at told),
      λ hidden.
          let (stays, back, other) =
            &&_parts (is_some (char_to_upper_invariant c) c)
              (is_some (char_to_lower_invariant (capital c)) c) (capital c == c)
              (rw (upper_as_told, hidden) at told) in
          (
            is_some→≡ (char_to_upper_invariant c) c stays,
            is_some→≡ (char_to_lower_invariant (capital c)) c back,
            λ e. cc ((==_iff (capital c) c).1 e),
          ),
    )
