-- ===== src/SystemString/IndexOf.antt =====
-- DotNetAnywhere/System.String.c, InternalIndexOf, InternalIndexOfAny and InternalIndexOfStr. An I32
-- is its 32 bits. The loops run on fuel; -1 is 2 ^ 32 - 1. `none` is a read outside the string object
-- or too little fuel.
use iron_net.Prelude.{
  ℕ, zero, suc, ◌+◌, ◌-◌, ◌^◌, ◌<◌, ◌≡◌, refl, ap, ◌∙◌, [], ◌∷◌, ◌++◌, Option, none, some, Bool,
  true, false, ◌==◌, ◌&&◌, ◌||◌, not, ltb, leb, if◌then◌else◌, length, get_elem?, u32, sub_u32,
  arith, Bool-cases, inl, inr,
}
use iron_net.SystemString.Trim.{get_elem?-append_left, get_elem?-append_right}
use iron_net.SystemString.{CharArray, slice, same_chars}

-- One step of the loops: i += inc.
unfoldable pub advance : Bool → ℕ → ℕ
advance forward i = if forward then u32 (i + 1) else sub_u32 i 1

-- The loop of the three searches, over a test of the characters at an index.
unfoldable pub search_from_loop : ℕ → (ℕ → Option Bool) → Bool → ℕ → ℕ → Option ℕ
unfolding advance
search_from_loop zero test forward i last = none
search_from_loop (suc fuel) test forward i last = elim (i == last) [
  | true ↦ some (2 ^ 32 - 1)
  | false ↦ elim (test i) [
    | none ↦ none
    | some found ↦ elim found [
      | true ↦ some i
      | false ↦ search_from_loop fuel test forward (advance forward i) last
    ]
  ]
]

-- lastIndex.
unfoldable pub last_index : Bool → ℕ → ℕ → ℕ
last_index forward start count = if forward then u32 (start + count) else sub_u32 start count

-- Whether the character at an index is the value, or one of the values, sought from the last on.
unfoldable pub is_value_at : CharArray → ℕ → ℕ → Option Bool
is_value_at s value i = elim (get_elem? (s ++ (0 ∷ [])) i) [
  | none ↦ none
  | some c ↦ some (c == value)
]

unfoldable pub among : CharArray → ℕ → Bool
among [] c = false
among (v ∷ values) c = among values c || (c == v)

unfoldable pub is_any_at : CharArray → CharArray → ℕ → Option Bool
unfolding among
is_any_at s values i = elim (get_elem? (s ++ (0 ∷ [])) i) [
  | none ↦ none
  | some c ↦ some (among values c)
]

-- memcmp of the value with as many characters from an index on, which lie in the object.
unfoldable pub is_str_at : CharArray → CharArray → ℕ → Option Bool
unfolding slice same_chars
is_str_at s value i = elim (slice (s ++ (0 ∷ [])) i (length value)) [
  | none ↦ none
  | some part ↦ some (same_chars part value)
]

-- System_String_InternalIndexOf and System_String_InternalIndexOfAny; the loop takes `count` rounds.
unfoldable pub internal_index_of : CharArray → ℕ → ℕ → ℕ → Bool → Option ℕ
unfolding search_from_loop last_index is_value_at
internal_index_of s value start count forward =
    search_from_loop (suc count) (is_value_at s value) forward start
      (last_index forward start count)

unfoldable pub internal_index_of_any : CharArray → CharArray → ℕ → ℕ → Bool → Option ℕ
unfolding search_from_loop last_index is_any_at
internal_index_of_any s values start count forward =
    search_from_loop (suc count) (is_any_at s values) forward start (last_index forward start count)

-- `startIndex--`, and `count--` if it is above 0 as an I32, for a backward search from the end.
unfoldable pub from_end : Bool → ℕ → ℕ → ℕ → ℕ × ℕ
from_end forward len start count =
    if not forward && (start == len)
    then (sub_u32 start 1, if ltb 0 count && ltb count (2 ^ 31) then count - 1 else count)
    else (start, count)

-- min of two I32, the first one not negative.
unfoldable pub min_i32 : ℕ → ℕ → ℕ
min_i32 a b = if ltb b a || leb (2 ^ 31) b then b else a

-- System_String_InternalIndexOfStr; a loop of more rounds has left the string.
unfoldable pub internal_index_of_str : CharArray → CharArray → ℕ → ℕ → Bool → Option ℕ
unfolding search_from_loop is_str_at from_end min_i32
internal_index_of_str s value start0 count0 forward =
    let (start, count) = from_end forward (length s) start0 count0 in
    let first = (if forward then start else u32 (sub_u32 start (length value) + 1)) in
    let last =
      (if forward
        then u32 (sub_u32 (u32 (start + count)) (length value) + 1)
        else sub_u32 start count) in
    let result = search_from_loop (length s + 2) (is_str_at s value) forward first last in
    if length s == 0
    then some (if length value == 0 then 0 else 2 ^ 32 - 1)
    else if length value == 0
    then some (if forward then start0 else min_i32 (length s - 1) start0)
    else result

search_from_loop-stop :
    (fuel : ℕ) (test : ℕ → Option Bool) (forward : Bool) (i last : ℕ)
    → (i == last) ≡ true
    → search_from_loop (suc fuel) test forward i last ≡ some (2 ^ 32 - 1)
unfolding search_from_loop
search_from_loop-stop fuel test forward i last e = rw (search_from_loop, e) refl

search_from_loop-found :
    (fuel : ℕ) (test : ℕ → Option Bool) (forward : Bool) (i last : ℕ)
    → (i == last) ≡ false
    → test i ≡ some true
    → search_from_loop (suc fuel) test forward i last ≡ some i
unfolding search_from_loop
search_from_loop-found fuel test forward i last e h = rw (search_from_loop, e, h) refl

search_from_loop-next :
    (fuel : ℕ) (test : ℕ → Option Bool) (forward : Bool) (i last : ℕ)
    → (i == last) ≡ false
    → test i ≡ some false
    → search_from_loop (suc fuel) test forward i last
      ≡ search_from_loop fuel test forward (advance forward i) last
unfolding search_from_loop
search_from_loop-next fuel test forward i last e h = rw (search_from_loop, e, h) refl

-- The place of the first element that is the value, counted from `i`, or -1.
abbrev pub first_place : CharArray → ℕ → ℕ → ℕ
first_place [] value i = 2 ^ 32 - 1
first_place (c ∷ cs) value i = if c == value then i else first_place cs value (i + 1)

is_value_at-some :
    (s : CharArray) (value i c : ℕ)
    → get_elem? (s ++ (0 ∷ [])) i ≡ some c
    → is_value_at s value i ≡ some (c == value)
unfolding is_value_at
is_value_at-some s value i c e = rw (is_value_at, e) refl

search_from_loop-part :
    (s : CharArray) (value : ℕ) (part : CharArray) (i last : ℕ)
    → ((j c : ℕ) → get_elem? part j ≡ some c → get_elem? (s ++ (0 ∷ [])) (i + j) ≡ some c)
    → last ≡ i + length part
    → last < 2 ^ 31
    → search_from_loop (suc (length part)) (is_value_at s value) true i last
      ≡ some (first_place part value i)
search_from_loop-part s value [] i last at e small =
    search_from_loop-stop 0 (is_value_at s value) true i last (ground arith)
search_from_loop-part s value (c ∷ cs) i last at e small =
    let here : i + 0 ≡ i = omega arith in
    let away : (i == last) ≡ false = ground arith in
    let test : is_value_at s value i ≡ some (c == value) =
      is_value_at-some s value i c (rw here at (at 0 c refl)) in
    let on : (j x : ℕ) → get_elem? cs j ≡ some x → get_elem? (s ++ (0 ∷ [])) (i + 1 + j) ≡ some x =
      λ j x h. let place : i + suc j ≡ i + 1 + j = omega arith in rw place at (at (suc j) x h) in
    elim (Bool-cases (c == value)) [
      | inl hit ↦ rw hit (
          search_from_loop-found (suc (length cs)) (is_value_at s value) true i last away
            (test ∙ ap some hit))
      | inr miss ↦
          let next : advance true i ≡ i + 1 = unfold advance in omega arith in
          rw miss (
            search_from_loop-next (suc (length cs)) (is_value_at s value) true i last away
              (test ∙ ap some miss)
            ∙ ap (λ k. search_from_loop (suc (length cs)) (is_value_at s value) true k last) next
            ∙ search_from_loop-part s value cs (i + 1) last on (omega arith) small)
    ]

-- InternalIndexOf forward gives the first place of the character in the part of the string that it is
-- to search, and -1 if it is not there, in a string of fewer than 2 ^ 31 characters.
pub internal_index_of-first_place :
    (front part back : CharArray) (value : ℕ)
    → length front + length part < 2 ^ 31
    → internal_index_of (front ++ (part ++ back)) value (length front) (length part) true
      ≡ some (first_place part value (length front))
unfolding internal_index_of last_index
internal_index_of-first_place front part back value small =
    let s = front ++ (part ++ back) in
    let last : u32 (length front + length part) ≡ length front + length part = omega arith in
    rw last (
      search_from_loop-part s value part (length front) (length front + length part)
        (λ j c h.
          get_elem?-append_left s (0 ∷ []) (length front + j) c
            (get_elem?-append_right front (part ++ back) j ∙ get_elem?-append_left part back j c h))
        refl small)
