-- ===== src/SystemString/Trim.antt =====
-- DotNetAnywhere/System.String.c, System_String_InternalTrim. The loops run on U32 indices.
use iron_net.Prelude.{
  ℕ, zero, suc, ◌+◌, ◌-◌, ◌/◌, ◌%◌, ◌^◌, ◌≤◌, ◌<◌, ◌≡◌, refl, ap, ◌∙◌, [], ◌∷◌, ◌++◌, Option, none,
  some, Bool, true, false, ◌==◌, ◌||◌, leb, ltb, if◌then◌else◌, length, get_elem?, take, arith,
  sub_u32, length-append, take-append_left, drop-append_right, All,
}
use iron_net.SystemString.{CharArray, slice}

-- The loop over the characters to trim.
unfoldable pub is_white : ℕ → CharArray → Bool
is_white c [] = false
is_white c (w ∷ ws) = (c == w) || is_white c ws

-- The loop that trims the start, over the characters from `i` on: the index of the first character
-- that stays. If there is none, `ofsStart` stays as it was.
unfoldable pub trim_start : CharArray → CharArray → ℕ → ℕ → ℕ
unfolding is_white
trim_start white [] i start = start
trim_start white (c ∷ cs) i start =
    let next = trim_start white cs (i + 1) start in if is_white c white then next else i

-- The loop that trims the end: `for (i = ofsEnd - 1; i >= ofsStart; i--)`, in U32. The characters
-- are read at each index that the loop reaches, the terminating 0 being one of them.
unfoldable pub trim_end : ℕ → CharArray → CharArray → ℕ → ℕ → ℕ → Option ℕ
unfolding is_white
trim_end zero white s i start end = none
trim_end (suc fuel) white s i start end =
    if ltb i start then some end else elim (get_elem? (s ++ (0 ∷ [])) i) [
      | none ↦ none
      | some c ↦ elim (is_white c white) [
        | true ↦ trim_end fuel white s (sub_u32 i 1) start end
        | false ↦ some (i + 1)
      ]
    ]

-- System_String_InternalTrim: bit 0 of `trim_type` asks for the start, bit 1 for the end. A loop of
-- more rounds than the string has characters has left the string.
unfoldable pub internal_trim : CharArray → CharArray → ℕ → Option CharArray
unfolding trim_start trim_end slice
internal_trim s white trim_type =
    let start = (if trim_type % 2 == 1 then trim_start white s 0 0 else 0) in
    let end =
      (if trim_type / 2 % 2 == 1
        then trim_end (length s + 2) white s (sub_u32 (length s) 1) start (length s)
        else some (length s)) in
    elim end [ none ↦ none | some e ↦ slice s start (e - start) ]

abbrev pub IsWhite : CharArray → ℕ → Type 0
IsWhite white c = is_white c white ≡ true

trim_start-skips :
    (white ws : CharArray) (c : ℕ) (rest : CharArray) (i start : ℕ)
    → All (IsWhite white) ws
    → is_white c white ≡ false
    → trim_start white (ws ++ (c ∷ rest)) i start ≡ i + length ws
unfolding trim_start
trim_start-skips white [] c rest i start all h = rw h (omega arith)
trim_start-skips white (w ∷ ws) c rest i start all h =
    rw (all.0) (trim_start-skips white ws c rest (i + 1) start all.1 h ∙ omega arith)

trim_start-white :
    (white s : CharArray) (i start : ℕ) → All (IsWhite white) s → trim_start white s i start ≡ start
unfolding trim_start
trim_start-white white [] i start all = refl
trim_start-white white (c ∷ s) i start all =
    rw (all.0) (trim_start-white white s (i + 1) start all.1)

pub get_elem?-append_right :
    (xs ys : CharArray) (k : ℕ) → get_elem? (xs ++ ys) (length xs + k) ≡ get_elem? ys k
get_elem?-append_right [] ys k = let same : 0 + k ≡ k = omega arith in rw same refl
get_elem?-append_right (x ∷ xs) ys k =
    let same : suc (length xs) + k ≡ suc (length xs + k) = omega arith in
    rw same (get_elem?-append_right xs ys k)

pub get_elem?-append_left :
    (xs ys : CharArray) (k c : ℕ) → get_elem? xs k ≡ some c → get_elem? (xs ++ ys) k ≡ some c
get_elem?-append_left [] ys k c h = absurd (ground arith)
get_elem?-append_left (x ∷ xs) ys zero c h = h
get_elem?-append_left (x ∷ xs) ys (suc k) c h = get_elem?-append_left xs ys k c h

-- A character of a list of white ones is white.
skipped_char :
    (white ws : CharArray) (j : ℕ)
    → All (IsWhite white) ws
    → j < length ws
    → (c : ℕ) × (get_elem? ws j ≡ some c) × IsWhite white c
skipped_char white [] j all h = absurd (omega arith)
skipped_char white (w ∷ ws) zero all h = (w, refl, all.0)
skipped_char white (w ∷ ws) (suc j) all h = skipped_char white ws j all.1 (omega arith)

-- The loop comes down over `k` white characters to the last character that stays.
trim_end-skips :
    (k fuel : ℕ) (white s : CharArray) (m d start end : ℕ)
    → get_elem? (s ++ (0 ∷ [])) m ≡ some d
    → is_white d white ≡ false
    → ((j : ℕ)
        → j < k
        → (c : ℕ) × (get_elem? (s ++ (0 ∷ [])) (m + suc j) ≡ some c) × IsWhite white c)
    → start ≤ m
    → k < fuel
    → m + k < 2 ^ 32
    → trim_end fuel white s (m + k) start end ≡ some (m + 1)
unfolding trim_end
trim_end-skips k zero white s m d start end at h all low enough small = absurd (omega arith)
trim_end-skips zero (suc fuel) white s m d start end at h all low enough small =
    let place : m + 0 ≡ m = omega arith in
    let inside : ltb m start ≡ false = ground arith in
    rw (place, inside, at, h) (ap (λ n. some (n + 1)) place)
trim_end-skips (suc k) (suc fuel) white s m d start end at h all low enough small =
    let (c, there, white_c) = all k (omega arith) in
    let inside : ltb (m + suc k) start ≡ false = ground arith in
    let back : sub_u32 (m + suc k) 1 ≡ m + k = omega arith in
    rw (inside, there, white_c, back)
      (trim_end-skips k fuel white s m d start end at h (λ j below. all j (omega arith)) low
        (omega arith) (omega arith))

slice-middle :
    (front body back : CharArray)
    → slice (front ++ (body ++ back)) (length front) (length body) ≡ some body
unfolding slice
slice-middle front body back =
    let fits : leb (length front + length body) (length (front ++ (body ++ back))) ≡ true =
      ground (arith, length-append front (body ++ back), length-append body back) in
    let found = drop-append_right front (body ++ back) (length front) 0 (omega arith) in
    rw (fits, found, take-append_left body back (length body) refl) refl

take-length : (s : CharArray) → take (length s) s ≡ s
take-length [] = refl
take-length (x ∷ s) = ap (◌∷◌ x) (take-length s)

slice-whole : (s : CharArray) → slice s 0 (length s) ≡ some s
unfolding slice
slice-whole s =
    let fits : leb (0 + length s) (length s) ≡ true = ground arith in
    rw fits (ap some (take-length s))

internal_trim-both :
    (s white : CharArray) (start end : ℕ)
    → trim_start white s 0 0 ≡ start
    → trim_end (length s + 2) white s (sub_u32 (length s) 1) start (length s) ≡ some end
    → internal_trim s white 3 ≡ slice s start (end - start)
unfolding internal_trim
internal_trim-both s white start end first last =
    rw (internal_trim, first, last) (ap (λ i. slice s i (end - i)) first)

-- Trim with both ends asked for gives the characters from the first that is not white to the last
-- that is not white, in a string of fewer than 2 ^ 32 characters with at least one that is not white.
pub internal_trim-middle :
    (white ws middle ws' : CharArray) (c d : ℕ)
    → All (IsWhite white) ws
    → All (IsWhite white) ws'
    → is_white c white ≡ false
    → get_elem? (c ∷ middle) (length middle) ≡ some d
    → is_white d white ≡ false
    → length ws + length middle + length ws' + 1 < 2 ^ 32
    → internal_trim (ws ++ ((c ∷ middle) ++ ws')) white 3 ≡ some (c ∷ middle)
internal_trim-middle white ws middle ws' c d all all' hc last hd small =
    let body = c ∷ middle in
    let s = ws ++ (body ++ ws') in
    let m = length ws + length middle in
    let size : length s ≡ m + length ws' + 1 =
      omega (arith, length-append ws (body ++ ws'), length-append body ws') in
    let first = trim_start-skips white ws c (middle ++ ws') 0 0 all hc in
    let inside : (k x : ℕ)
        → get_elem? (body ++ ws') k ≡ some x
        → get_elem? (s ++ (0 ∷ [])) (length ws + k) ≡ some x =
      λ k x h.
        get_elem?-append_left s (0 ∷ []) (length ws + k) x
          (get_elem?-append_right ws (body ++ ws') k ∙ h) in
    let at : get_elem? (s ++ (0 ∷ [])) m ≡ some d =
      inside (length middle) d (get_elem?-append_left body ws' (length middle) d last) in
    let whites : (j : ℕ)
        → j < length ws'
        → (x : ℕ) × (get_elem? (s ++ (0 ∷ [])) (m + suc j) ≡ some x) × IsWhite white x =
      λ j h.
        let (x, there, wx) = skipped_char white ws' j all' h in
        let place : m + suc j ≡ length ws + (length body + j) = omega arith in
        (
          x,
          ap (get_elem? (s ++ (0 ∷ []))) place
              ∙ inside (length body + j) x (get_elem?-append_right body ws' j ∙ there),
          wx,
        ) in
    let loop =
      trim_end-skips (length ws') (length s + 2) white s m d (length ws) (length s) at hd whites
        (omega arith) (omega arith) (omega arith) in
    let from : sub_u32 (length s) 1 ≡ m + length ws' = omega arith in
    let start : 0 + length ws ≡ length ws = omega arith in
    let ends = ap (λ i. trim_end (length s + 2) white s i (length ws) (length s)) from ∙ loop in
    let cut : m + 1 - length ws ≡ length body = omega arith in
    internal_trim-both s white (length ws) (m + 1) (first ∙ start) ends
    ∙ ap (slice s (length ws)) cut
    ∙ slice-middle ws body ws'

-- Trim of the start alone returns a string of nothing but white characters as it is.
internal_trim-unchanged :
    (white s : CharArray) → All (IsWhite white) s → internal_trim s white 1 ≡ some s
unfolding internal_trim
internal_trim-unchanged white s all =
    let whole : length s - 0 ≡ length s = omega arith in
    rw (internal_trim, trim_start-white white s 0 0 all, whole) (slice-whole s)
