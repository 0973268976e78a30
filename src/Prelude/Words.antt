-- ===== src/Prelude/Words.antt =====
-- Machine words as native numbers, and the bit masks of the source as arithmetic.
use Prim.Native.Nat.{ℕ, zero, suc, ◌+◌, ◌-◌, ◌%◌, ◌^◌, ◌<◌}
use mathlib.Core.Path.{◌≡◌}
use mathlib.Core.Bool.{Bool, true, ◌&&◌}
use native.Mathlib.Omega.{arith}

-- A U32 and a U16 computed from a natural number.
abbrev pub u32 : ℕ → ℕ
u32 n = n % 2 ^ 32

abbrev pub u16 : ℕ → ℕ
u16 n = n % 2 ^ 16

abbrev pub u8 : ℕ → ℕ
u8 n = n % 2 ^ 8

-- a - b on U32.
abbrev pub sub_u32 : ℕ → ℕ → ℕ
sub_u32 a b = (a + 2 ^ 32 - b) % 2 ^ 32

-- A test that holds of all numbers below a bound.
unfoldable pub holds_below : (ℕ → Bool) → ℕ → Bool
holds_below test zero = true
holds_below test (suc k) = test k && holds_below test k

pub holds_below-at : (test : ℕ → Bool) (k x : ℕ) → holds_below test k ≡ true → x < k → test x ≡ true
unfolding holds_below
holds_below-at test zero x tested small = absurd (omega arith)
holds_below-at test (suc k) x tested small = ground (arith, holds_below-at test k x)
