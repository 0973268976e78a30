-- ===== src/Prelude/Bits.antt =====
-- The masks and the disjoint ors of the source as arithmetic, from the digits of the numbers.
use Prim.Native.Nat.{
  ℕ, zero, suc, ◌+◌, ◌-◌, ◌*◌, ◌/◌, ◌%◌, ◌^◌, ◌≤◌, ◌<◌, min, max, digits, bit_and, bit_or,
  bit_and-bitwise, bit_or-bitwise,
}
use mathlib.Core.Path.{◌≡◌, refl, sym, ap, ◌∙◌}
use native.Mathlib.Omega.{arith}
use native.Mathlib.Nat.{
  pow-suc, one-le-pow, div-add-mod, mod-lt, mul-add-mod_self_left, mod-eq_of_lt,
}

-- More fuel than the first number needs changes nothing.
fuel_free :
    (z : ℕ → ℕ) (f : ℕ → ℕ → ℕ) (n m a b : ℕ) → a ≤ n → a ≤ m → digits z f n a b ≡ digits z f m a b
fuel_free z f n m zero b p q = nothing_left n ∙ sym (nothing_left m)
  where
    nothing_left : (k : ℕ) → digits z f k zero b ≡ z b
    nothing_left zero = refl
    nothing_left (suc k) = refl
fuel_free z f zero m (suc a) b p q = absurd (omega arith)
fuel_free z f (suc n) zero (suc a) b p q = absurd (omega arith)
fuel_free z f (suc n) (suc m) (suc a) b p q =
    rw (fuel_free z f n m (suc a / 2) (b / 2) (omega arith) (omega arith))

or_digit : (a b : ℕ) → bit_or a b ≡ bit_or (a / 2) (b / 2) * 2 + max (a % 2) (b % 2)
or_digit zero b = simp bit_or-bitwise (omega arith)
or_digit (suc a) b = simp bit_or-bitwise (
    omega
      (arith, fuel_free (λ d. d) max a (suc a / 2) (suc a / 2) (b / 2) (omega arith) (omega arith)))

and_digit : (a b : ℕ) → bit_and a b ≡ bit_and (a / 2) (b / 2) * 2 + min (a % 2) (b % 2)
and_digit zero b = simp bit_and-bitwise (omega arith)
and_digit (suc a) b = simp bit_and-bitwise (
    omega
      (arith, fuel_free (λ d. 0) min a (suc a / 2) (suc a / 2) (b / 2) (omega arith) (omega arith)))

or_zero_below : (n a : ℕ) → a ≤ n → bit_or a 0 ≡ a
or_zero_below n zero h = refl
or_zero_below zero (suc a) h = absurd (omega arith)
or_zero_below (suc n) (suc a) h =
    omega (arith, or_digit (suc a) 0, or_zero_below n (suc a / 2) (omega arith))

and_zero_below : (n a : ℕ) → a ≤ n → bit_and a 0 ≡ 0
and_zero_below n zero h = refl
and_zero_below zero (suc a) h = absurd (omega arith)
and_zero_below (suc n) (suc a) h =
    omega (arith, and_digit (suc a) 0, and_zero_below n (suc a / 2) (omega arith))

-- An or with a number below the lowest set bit is a sum.
pub or_shifted : (k x y : ℕ) → y < 2 ^ k → bit_or (x * 2 ^ k) y ≡ x * 2 ^ k + y
or_shifted zero x zero h = omega (arith, or_zero_below (x * 1) (x * 1) (omega arith))
or_shifted zero x (suc y) h = absurd (omega arith)
or_shifted (suc k) x y h =
    let step : 2 ^ suc k ≡ 2 ^ k * 2 = pow-suc 2 k in
    let halved : x * 2 ^ suc k / 2 ≡ x * 2 ^ k = rw step (omega arith) in
    let even : x * 2 ^ suc k % 2 ≡ 0 = rw step (omega arith) in
    let rest : bit_or (x * 2 ^ suc k / 2) (y / 2) ≡ x * 2 ^ k + y / 2 =
      rw halved (or_shifted k x (y / 2) (omega (arith, step))) in
    omega (arith, or_digit (x * 2 ^ suc k) y, rest, even, step, ap (λ (t : ℕ). x * t) step)

mod_twice : (x p : ℕ) → 1 ≤ p → x % (p * 2) ≡ x / 2 % p * 2 + x % 2
mod_twice x p pos =
    let r = x / 2 % p * 2 + x % 2 in
    let split : x ≡ p * 2 * (x / 2 / p) + r = omega (arith, div-add-mod (x / 2) p) in
    let small : r < p * 2 = omega (arith, mod-lt (x / 2) {m = p} pos) in
    ap (λ t. t % (p * 2)) split ∙ mul-add-mod_self_left (p * 2) (x / 2 / p) r ∙ mod-eq_of_lt small

-- An and with k ones is the remainder by 2 ^ k.
pub and_mask : (k x : ℕ) → bit_and x (2 ^ k - 1) ≡ x % 2 ^ k
and_mask zero x = omega (arith, and_zero_below x x (omega arith))
and_mask (suc k) x =
    let step : 2 ^ suc k ≡ 2 ^ k * 2 = pow-suc 2 k in
    let pos : 1 ≤ 2 ^ k = one-le-pow k 2 (omega arith) in
    let half : (2 ^ suc k - 1) / 2 ≡ 2 ^ k - 1 = omega (arith, step) in
    let odd : (2 ^ suc k - 1) % 2 ≡ 1 = omega (arith, step) in
    let rest : bit_and (x / 2) ((2 ^ suc k - 1) / 2) ≡ x / 2 % 2 ^ k =
      rw half (and_mask k (x / 2)) in
    let doubled : x % 2 ^ suc k ≡ x / 2 % 2 ^ k * 2 + x % 2 = rw step (mod_twice x (2 ^ k) pos) in
    omega (arith, and_digit x (2 ^ suc k - 1), rest, odd, doubled)

or_comm_below : (n a b : ℕ) → a ≤ n → bit_or a b ≡ bit_or b a
or_comm_below n zero b h =
    simp bit_or-bitwise (sym (or_zero_below b b (omega arith)) ∙ simp bit_or-bitwise refl)
or_comm_below zero (suc a) b h = absurd (omega arith)
or_comm_below (suc n) (suc a) b h = omega (
  arith,
  or_digit (suc a) b,
  or_digit b (suc a),
  or_comm_below n (suc a / 2) (b / 2) (omega arith),
)

pub or_low : (k x y : ℕ) → y < 2 ^ k → bit_or y (x * 2 ^ k) ≡ x * 2 ^ k + y
or_low k x y h = or_comm_below y y (x * 2 ^ k) (omega arith) ∙ or_shifted k x y h
