-- ===== src/SystemString.antt =====
-- DotNetAnywhere/System.String.c: strings of the managed heap. A string is the list of its CHAR2
-- values; behind them the heap object holds one more, which is 0. `none` is a read outside the heap
-- object, which the code does not guard against.
pub mod Trim
pub mod IndexOf
mod Examples
use iron_net.Prelude.{
  ℕ, zero, suc, ◌+◌, ◌-◌, ◌*◌, ◌/◌, ◌%◌, ◌^◌, ◌≤◌, ◌<◌, ◌≡◌, refl, List, [], ◌∷◌, ◌++◌, Option,
  none, some, Bool, true, false, ◌==◌, ◌&&◌, ◌||◌, not, ltb, leb, if◌then◌else◌, length, get_elem?,
  take, drop, replicate, u16, u32, sub_u32, arith, length-append, length-replicate,
  take-append_left, drop-append_right, ap, ◌∙◌,
}
use mathlib.Core.List.{append-nil}

abbrev pub CharArray : Type 0
CharArray = List ℕ

-- memcpy of `n` elements from the place `start` on.
unfoldable pub slice : CharArray → ℕ → ℕ → Option CharArray
slice cs start n = if leb (start + n) (length cs) then some (take n (drop start cs)) else none

-- memcpy of all of `src` to the place `ofs` of `dst`.
unfoldable pub blit : CharArray → ℕ → CharArray → Option CharArray
blit dst ofs src =
    if leb (ofs + length src) (length dst)
    then some (take ofs dst ++ (src ++ drop (ofs + length src) dst))
    else none

-- CreateStringHeapObj: calloc leaves the characters 0.
unfoldable pub create_string : ℕ → CharArray
create_string len = replicate len 0

-- System_String_ctor_CharInt32.
unfoldable pub ctor_char_int32 : ℕ → ℕ → CharArray
ctor_char_int32 c len = replicate len (u16 c)

-- System_String_ctor_CharA, ctor_CharAIntInt and ctor_StringIntInt.
unfoldable pub ctor_char_array : CharArray → Option CharArray
unfolding slice
ctor_char_array chars = slice chars 0 (length chars)

unfoldable pub ctor_char_array_int_int : CharArray → ℕ → ℕ → Option CharArray
unfolding slice
ctor_char_array_int_int chars start len = slice chars start len

unfoldable pub ctor_string_int_int : CharArray → ℕ → ℕ → Option CharArray
unfolding slice
ctor_string_int_int str start len = slice str start len

-- The character at an index, the terminating 0 included.
unfoldable pub get_chars : CharArray → ℕ → Option ℕ
get_chars s i = get_elem? (s ++ (0 ∷ [])) i

-- System_String_InternalConcat: two copies into a new object. The lengths add up in U32.
unfoldable pub internal_concat : CharArray → CharArray → Option CharArray
internal_concat s0 s1 = elim (blit (create_string (u32 (length s0 + length s1))) 0 s0) [
  | none ↦ none
  | some ret ↦ blit ret (length s0) s1
]

-- System_String_InternalCopyTo.
unfoldable pub internal_copy_to : CharArray → ℕ → CharArray → ℕ → ℕ → Option CharArray
unfolding slice blit
internal_copy_to s source_index chars dest_index count = elim (slice s source_index count) [
  | none ↦ none
  | some part ↦ blit chars dest_index part
]

-- memcmp of two strings of one length.
unfoldable pub same_chars : CharArray → CharArray → Bool
same_chars [] [] = true
same_chars (c ∷ cs) (d ∷ ds) = (c == d) && same_chars cs ds
same_chars cs ds = false

-- System_String_Equals: two addresses, 0 for NULL, and what stands there.
unfoldable pub equals : ℕ → CharArray → ℕ → CharArray → ℕ
unfolding same_chars
equals a cs b ds =
    if a == b
    then 1
    else if (a == 0) || (b == 0) || not (length cs == length ds)
    then 0
    else if same_chars cs ds
    then 1
    else 0

blit-fits :
    (dst : CharArray) (ofs : ℕ) (src : CharArray)
    → ofs + length src ≤ length dst
    → blit dst ofs src ≡ some (take ofs dst ++ (src ++ drop (ofs + length src) dst))
unfolding blit
blit-fits dst ofs src h = ground arith

length-drop : (n : ℕ) (xs : CharArray) → length (drop n xs) ≡ length xs - n
length-drop zero xs = omega arith
length-drop (suc n) [] = omega arith
length-drop (suc n) (x ∷ xs) = omega (arith, length-drop n xs)

drop-all : (n : ℕ) (xs : CharArray) → length xs ≡ n → drop n xs ≡ []
drop-all zero [] h = refl
drop-all zero (x ∷ xs) h = absurd (omega arith)
drop-all (suc n) [] h = absurd (omega arith)
drop-all (suc n) (x ∷ xs) h = drop-all n xs (omega arith)

internal_concat-step :
    (s0 s1 ret : CharArray)
    → blit (create_string (u32 (length s0 + length s1))) 0 s0 ≡ some ret
    → internal_concat s0 s1 ≡ blit ret (length s0) s1
unfolding internal_concat
internal_concat-step s0 s1 ret e = rw (internal_concat, e) refl

-- InternalConcat gives the characters of the two strings, one string after the other, while their
-- lengths add up to less than 2 ^ 32.
internal_concat-append :
    (s0 s1 : CharArray) → length s0 + length s1 < 2 ^ 32 → internal_concat s0 s1 ≡ some (s0 ++ s1)
internal_concat-append s0 s1 h =
    let total : u32 (length s0 + length s1) ≡ length s0 + length s1 = omega arith in
    let buffer = create_string (length s0 + length s1) in
    let room : length buffer ≡ length s0 + length s1 =
      unfold create_string in length-replicate _ 0 in
    let rest = drop (0 + length s0) buffer in
    let left : length rest ≡ length s1 = omega (arith, length-drop (0 + length s0) buffer) in
    let first : blit buffer 0 s0 ≡ some (s0 ++ rest) = blit-fits buffer 0 s0 (omega arith) in
    let fits : length s0 + length s1 ≤ length (s0 ++ rest) = omega (arith, length-append s0 rest) in
    let tail : drop (length s0 + length s1) (s0 ++ rest) ≡ [] =
      drop-append_right s0 rest _ (length s1) refl ∙ drop-all (length s1) rest left in
    let written = ap (λ n. blit (create_string n) 0 s0) total ∙ first in
    let second = blit-fits (s0 ++ rest) (length s0) s1 fits in
    internal_concat-step s0 s1 (s0 ++ rest) written
    ∙ second
    ∙ rw (take-append_left s0 rest (length s0) refl, tail, append-nil s1) refl
