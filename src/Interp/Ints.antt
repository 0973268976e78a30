-- ===== src/Interp/Ints.antt =====
-- The signed integers of C: I32 and I64 are words read in two's complement.
use iron_net.Prelude.{
  ℕ, ◌+◌, ◌-◌, ◌*◌, ◌/◌, ◌%◌, ◌^◌, Bool, true, false, ◌&&◌, ◌||◌, ◌==◌, Option, none, some, ltb,
  if◌then◌else◌,
}

pub data ℤ : Type 0 where
  pos : ℕ → ℤ
  negsuc : ℕ → ℤ

-- The difference of two natural numbers.
abbrev pub difference : ℕ → ℕ → ℤ
difference a b = if ltb a b then negsuc (b - a - 1) else pos (a - b)

abbrev pub neg : ℤ → ℤ
neg (pos a) = difference 0 a
neg (negsuc a) = pos (a + 1)

infixl 60 ◌+ℤ◌ ◌-ℤ◌
abbrev pub ◌+ℤ◌ : ℤ → ℤ → ℤ
pos a +ℤ pos b = pos (a + b)
pos a +ℤ negsuc b = difference a (b + 1)
negsuc a +ℤ pos b = difference b (a + 1)
negsuc a +ℤ negsuc b = negsuc (a + b + 1)

abbrev pub ◌-ℤ◌ : ℤ → ℤ → ℤ
x -ℤ y = x +ℤ neg y

abbrev pub abs : ℤ → ℕ
abs (pos a) = a
abs (negsuc a) = a + 1

-- A magnitude with the sign of a product or a quotient.
abbrev pub with_sign : ℤ → ℤ → ℕ → ℤ
with_sign (pos a) (pos b) n = pos n
with_sign (pos a) (negsuc b) n = neg (pos n)
with_sign (negsuc a) (pos b) n = neg (pos n)
with_sign (negsuc a) (negsuc b) n = pos n

infixl 70 ◌*ℤ◌
abbrev pub ◌*ℤ◌ : ℤ → ℤ → ℤ
x *ℤ y = with_sign x y (abs x * abs y)

abbrev pub ltb_ℤ : ℤ → ℤ → Bool
ltb_ℤ (pos a) (pos b) = ltb a b
ltb_ℤ (pos a) (negsuc b) = false
ltb_ℤ (negsuc a) (pos b) = true
ltb_ℤ (negsuc a) (negsuc b) = ltb b a

-- The value of a word below 2 * half in two's complement, and the word of 2 * half values that an
-- integer is cut off to.
unfoldable pub signed : ℕ → ℕ → ℤ
signed half v = if ltb v half then pos v else negsuc (half + half - 1 - v)

unfoldable pub word : ℕ → ℤ → ℕ
word half (pos n) = n % (half + half)
word half (negsuc n) = half + half - 1 - n % (half + half)

abbrev pub i32 : ℕ → ℤ
i32 v = signed (2 ^ 31) v

abbrev pub i64 : ℕ → ℤ
i64 v = signed (2 ^ 63) v

-- A division of C truncates; by 0, and of the least value by -1, it has no meaning.
unfoldable pub div_signed : ℕ → ℕ → ℕ → Option ℕ
div_signed half a b =
    let x = signed half a in
    let y = signed half b in
    if (b == 0) || ((a == half) && (b == half + half - 1))
    then none
    else some (word half (with_sign x y (abs x / abs y)))

unfoldable pub rem_signed : ℕ → ℕ → ℕ → Option ℕ
rem_signed half a b =
    let x = signed half a in
    let y = signed half b in
    if (b == 0) || ((a == half) && (b == half + half - 1))
    then none
    else some (word half (with_sign x (pos 0) (abs x % abs y)))

-- A shift to the right of a signed word repeats its sign.
unfoldable pub shr_signed : ℕ → ℕ → ℕ → ℕ
shr_signed half v shift =
    if ltb v half then v / 2 ^ shift else half + half - 1 - (half + half - 1 - v) / 2 ^ shift
