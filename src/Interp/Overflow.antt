-- ===== src/Interp/Overflow.antt =====
-- The checked sums, differences and products of the interpreter against exact integers.
use iron_net.Prelude.{
  ℕ, zero, suc, ◌+◌, ◌-◌, ◌*◌, ◌%◌, ◌^◌, ◌≤◌, ◌<◌, ◌≡◌, refl, ap, ◌∙◌, Bool, true, false, ◌||◌, ltb,
  if◌then◌else◌, HoldsBytes, arith, Bool-cases, inl, inr, sub_u32,
}
use native.Mathlib.Nat.{mul-le-mul}
use iron_net.Interp.Ints.{ℤ, pos, negsuc, ◌+ℤ◌, ◌-ℤ◌, ◌*ℤ◌, neg, i32, signed, word, difference}
use iron_net.Interp.Machine.{
  Context, Machine, Exec, aborted, throw, push_word, ◌>>=◌, get_sp, read, pop, overflow_exception,
  check_stack,
}
use iron_net.Interp.Bytes.{load, bytes_end, load-lt-bytes_end}
use iron_net.Interp.Branches.{pop_two}
use iron_net.Interp.Arith.{
  OverflowOp, add_ovf_i32i32, add_ovf_un_i32i32, mul_ovf_i32i32, mul_ovf_un_i32i32, sub_ovf_i32i32,
  sub_ovf_un_i32i32, exec_overflow, checked_signed, checked_unsigned, as_i64,
}

-- The exact result of a checked operation.
abbrev pub exact : OverflowOp → ℕ → ℕ → ℤ
exact add_ovf_i32i32 v1 v2 = i32 v1 +ℤ i32 v2
exact add_ovf_un_i32i32 v1 v2 = pos v1 +ℤ pos v2
exact mul_ovf_i32i32 v1 v2 = i32 v1 *ℤ i32 v2
exact mul_ovf_un_i32i32 v1 v2 = pos v1 *ℤ pos v2
exact sub_ovf_i32i32 v1 v2 = i32 v1 -ℤ i32 v2
exact sub_ovf_un_i32i32 v1 v2 = pos v1 -ℤ pos v2

abbrev pub is_unsigned : OverflowOp → Bool
is_unsigned add_ovf_i32i32 = false
is_unsigned add_ovf_un_i32i32 = true
is_unsigned mul_ovf_i32i32 = false
is_unsigned mul_ovf_un_i32i32 = true
is_unsigned sub_ovf_i32i32 = false
is_unsigned sub_ovf_un_i32i32 = true

-- The integers of U32, and those of I32.
abbrev pub in_range : Bool → ℤ → Bool
in_range true (pos n) = ltb n (2 ^ 32)
in_range true (negsuc n) = false
in_range false (pos n) = ltb n (2 ^ 31)
in_range false (negsuc n) = ltb n (2 ^ 31)

abbrev pub push_in_range : Bool → ℤ → Exec (Unit {0})
push_in_range u z = if in_range u z then push_word 4 (word (2 ^ 31) z) else throw overflow_exception

-- The integers with magnitudes below a bound.
abbrev Below : ℕ → ℤ → Type 0
Below bound (pos n) = n < bound
Below bound (negsuc n) = n < bound

as_i64-small : (z : ℤ) → Below (2 ^ 63) z → as_i64 z ≡ z
unfolding word signed
as_i64-small (pos n) h = ground arith
as_i64-small (negsuc n) h = ground arith

i32-Below : (v : ℕ) → v < 2 ^ 32 → Below (2 ^ 31) (i32 v)
unfolding signed
i32-Below v h = elim (Bool-cases (ltb v (2 ^ 31))) [
  | inl e ↦ rw (Below, e) (ground arith)
  | inr e ↦ rw (Below, e) (ground arith)
]

difference-Below : (bound a b : ℕ) → a < bound → b ≤ bound → Below bound (difference a b)
difference-Below bound a b ha hb = elim (Bool-cases (ltb a b)) [
  | inl e ↦ rw (Below, e) (ground arith)
  | inr e ↦ rw (Below, e) (omega arith)
]

sum-Below : (x y : ℤ) → Below (2 ^ 32) x → Below (2 ^ 32) y → Below (2 ^ 63) (x +ℤ y)
sum-Below (pos a) (pos b) hx hy = omega arith
sum-Below (pos a) (negsuc b) hx hy = difference-Below (2 ^ 63) a (b + 1) (omega arith) (omega arith)
sum-Below (negsuc a) (pos b) hx hy = difference-Below (2 ^ 63) b (a + 1) (omega arith) (omega arith)
sum-Below (negsuc a) (negsuc b) hx hy = omega arith

neg-Below : (x : ℤ) → Below (2 ^ 31) x → Below (2 ^ 32) (neg x)
neg-Below (pos a) h = difference-Below (2 ^ 32) 0 a (omega arith) (omega arith)
neg-Below (negsuc a) h = omega arith

wider : (x : ℤ) → Below (2 ^ 31) x → Below (2 ^ 32) x
wider (pos a) h = omega arith
wider (negsuc a) h = omega arith

product-small : (a b : ℕ) → a ≤ 2 ^ 31 → b ≤ 2 ^ 31 → a * b < 2 ^ 63
product-small a b ha hb = omega (arith, mul-le-mul ha hb)

product-Below : (x y : ℤ) → Below (2 ^ 31) x → Below (2 ^ 31) y → Below (2 ^ 63) (x *ℤ y)
product-Below (pos a) (pos b) hx hy = product-small a b (omega arith) (omega arith)
product-Below (pos a) (negsuc b) hx hy =
    difference-Below (2 ^ 63) 0 (a * (b + 1)) (omega arith)
      (omega (arith, product-small a (b + 1) (omega arith) (omega arith)))
product-Below (negsuc a) (pos b) hx hy =
    difference-Below (2 ^ 63) 0 ((a + 1) * b) (omega arith)
      (omega (arith, product-small (a + 1) b (omega arith) (omega arith)))
product-Below (negsuc a) (negsuc b) hx hy =
    product-small (a + 1) (b + 1) (omega arith) (omega arith)

checked_signed-exact :
    (z : ℤ) → Below (2 ^ 63) z → checked_signed (as_i64 z) ≡ push_in_range false z
unfolding checked_signed
checked_signed-exact z h = ap checked_signed (as_i64-small z h) ∙ compared z
  where
    compared : (z : ℤ) → checked_signed z ≡ push_in_range false z
    compared (pos n) = elim (Bool-cases (ltb n (2 ^ 31))) [
      | inl e ↦ let low : ltb (2 ^ 31 - 1) n ≡ false = ground arith in rw (e, low) refl
      | inr e ↦ let high : ltb (2 ^ 31 - 1) n ≡ true = ground arith in rw (e, high) refl
    ]
    compared (negsuc n) = elim (Bool-cases (ltb n (2 ^ 31))) [
      | inl e ↦ let high : ltb (2 ^ 31 - 1) n ≡ false = ground arith in rw (e, high) refl
      | inr e ↦ let low : ltb (2 ^ 31 - 1) n ≡ true = ground arith in rw (e, low) refl
    ]

checked_unsigned-exact :
    (n m : ℕ) → n < 2 ^ 64 → n ≡ m → checked_unsigned (n % 2 ^ 64) ≡ push_in_range true (pos m)
unfolding checked_unsigned word
checked_unsigned-exact n m h e = elim (Bool-cases (ltb m (2 ^ 32))) [
  | inl small ↦
      let low : ltb (2 ^ 32 - 1) (n % 2 ^ 64) ≡ false = ground arith in
      let value : n % 2 ^ 64 ≡ m % (2 ^ 31 + 2 ^ 31) = ground arith in
      rw (small, low) (ap (push_word 4) value)
  | inr big ↦ let high : ltb (2 ^ 32 - 1) (n % 2 ^ 64) ≡ true = ground arith in rw (big, high) refl
]

minus_pos : (v1 v2 : ℕ) → (pos v1 -ℤ pos v2) ≡ difference v1 v2
minus_pos v1 zero = sum_zero v1
  where
    sum_zero : (v : ℕ) → (pos v +ℤ difference 0 0) ≡ difference v 0
    sum_zero v = ground arith
minus_pos v1 (suc b) =
    let same : suc b - 0 - 1 + 1 ≡ suc b = omega arith in
    let less : ltb 0 (suc b) ≡ true = ground arith in rw (less, same) refl

subtracted :
    (v1 v2 : ℕ)
    → v1 < 2 ^ 32
    → v2 < 2 ^ 32
    → checked_unsigned ((v1 + 2 ^ 64 - v2) % 2 ^ 64) ≡ push_in_range true (pos v1 -ℤ pos v2)
unfolding checked_unsigned word
subtracted v1 v2 h1 h2 = rw (minus_pos v1 v2) (elim (Bool-cases (ltb v1 v2)) [
  | inl e ↦
      let high : ltb (2 ^ 32 - 1) ((v1 + 2 ^ 64 - v2) % 2 ^ 64) ≡ true = ground arith in
      rw (e, high) refl
  | inr e ↦
      let low : ltb (2 ^ 32 - 1) ((v1 + 2 ^ 64 - v2) % 2 ^ 64) ≡ false = ground arith in
      let small : ltb (v1 - v2) (2 ^ 32) ≡ true = ground arith in
      let value : (v1 + 2 ^ 64 - v2) % 2 ^ 64 ≡ (v1 - v2) % (2 ^ 31 + 2 ^ 31) = ground arith in
      rw (e, low, small) (ap (push_word 4) value)
])

unsigned_product : (v1 v2 : ℕ) → v1 < 2 ^ 32 → v2 < 2 ^ 32 → v1 * v2 < 2 ^ 64
unsigned_product v1 v2 h1 h2 =
    let low1 : v1 ≤ 2 ^ 32 - 1 = omega arith in
    let low2 : v2 ≤ 2 ^ 32 - 1 = omega arith in omega (arith, mul-le-mul low1 low2)

-- The code of a checked operation, on its two operands.
abbrev on_operands : OverflowOp → ℕ → ℕ → Exec (Unit {0})
on_operands add_ovf_i32i32 v1 v2 = checked_signed (as_i64 (i32 v1 +ℤ i32 v2))
on_operands add_ovf_un_i32i32 v1 v2 = checked_unsigned ((v1 + v2) % 2 ^ 64)
on_operands mul_ovf_i32i32 v1 v2 = checked_signed (as_i64 (i32 v1 *ℤ i32 v2))
on_operands mul_ovf_un_i32i32 v1 v2 = checked_unsigned (v1 * v2 % 2 ^ 64)
on_operands sub_ovf_i32i32 v1 v2 = checked_signed (as_i64 (i32 v1 -ℤ i32 v2))
on_operands sub_ovf_un_i32i32 v1 v2 = checked_unsigned ((v1 + 2 ^ 64 - v2) % 2 ^ 64)

on_operands-exact :
    (op : OverflowOp) (v1 v2 : ℕ)
    → v1 < 2 ^ 32
    → v2 < 2 ^ 32
    → on_operands op v1 v2 ≡ push_in_range (is_unsigned op) (exact op v1 v2)
on_operands-exact add_ovf_i32i32 v1 v2 h1 h2 = checked_signed-exact (i32 v1 +ℤ i32 v2) (
    sum-Below (i32 v1) (i32 v2) (wider (i32 v1) (i32-Below v1 h1))
      (wider (i32 v2) (i32-Below v2 h2)))
on_operands-exact add_ovf_un_i32i32 v1 v2 h1 h2 =
    checked_unsigned-exact (v1 + v2) (v1 + v2) (omega arith) refl
on_operands-exact mul_ovf_i32i32 v1 v2 h1 h2 =
    checked_signed-exact (i32 v1 *ℤ i32 v2)
      (product-Below (i32 v1) (i32 v2) (i32-Below v1 h1) (i32-Below v2 h2))
on_operands-exact mul_ovf_un_i32i32 v1 v2 h1 h2 =
    checked_unsigned-exact (v1 * v2) (v1 * v2) (unsigned_product v1 v2 h1 h2) refl
on_operands-exact sub_ovf_i32i32 v1 v2 h1 h2 = checked_signed-exact (i32 v1 -ℤ i32 v2) (
    sum-Below (i32 v1) (neg (i32 v2)) (wider (i32 v1) (i32-Below v1 h1))
      (neg-Below (i32 v2) (i32-Below v2 h2)))
on_operands-exact sub_ovf_un_i32i32 v1 v2 h1 h2 = subtracted v1 v2 h1 h2

as_on_operands : (op : OverflowOp) → exec_overflow op ≡ pop_two 4 (on_operands op)
unfolding exec_overflow
as_on_operands add_ovf_i32i32 = refl
as_on_operands _ = refl

-- An operation on the two upper words of the evaluation stack, the first operand below the second: the
-- stack pointer moves down by 8 bytes, and outside the evaluation stack that is an abort().
abbrev pub on_two_words : (ℕ → ℕ → Exec (Unit {0})) → Exec (Unit {0})
on_two_words f c m =
    let p = sub_u32 m.sp 8 in
    if ltb p c.eval_stack || ltb c.params_locals p
    then aborted
    else f (load 4 m.mem p) (load 4 m.mem (p + 4)) c (record { mem = m.mem; sp = p; pc = m.pc })

pop_two-words :
    (f : ℕ → ℕ → Exec (Unit {0})) (c : Context) (m : Machine) → pop_two 4 f c m ≡ on_two_words f c m
unfolding ◌>>=◌ pop check_stack get_sp read
pop_two-words f c m =
    elim (Bool-cases (ltb (sub_u32 m.sp 8) c.eval_stack || ltb c.params_locals (sub_u32 m.sp 8))) [
      | inl e ↦ rw e refl
      | inr e ↦ rw e refl
    ]

on_two_words-congr :
    (f g : ℕ → ℕ → Exec (Unit {0})) (c : Context) (m : Machine)
    → HoldsBytes m.mem
    → ((v1 v2 : ℕ) → v1 < 2 ^ 32 → v2 < 2 ^ 32 → f v1 v2 ≡ g v1 v2)
    → on_two_words f c m ≡ on_two_words g c m
unfolding bytes_end
on_two_words-congr f g c m bytes same =
    let p = sub_u32 m.sp 8 in
    elim (Bool-cases (ltb p c.eval_stack || ltb c.params_locals p)) [
      | inl e ↦ rw e refl
      | inr e ↦ rw e (
          ap (λ h. h c (record { mem = m.mem; sp = p; pc = m.pc }))
            (same (load 4 m.mem p) (load 4 m.mem (p + 4)) (load-lt-bytes_end 4 m.mem p bytes)
              (load-lt-bytes_end 4 m.mem (p + 4) bytes)))
    ]

-- On every stack of bytes the op-codes add.ovf, sub.ovf and mul.ovf and their unsigned variants take two
-- words off, of which the lower one is the first operand, and push the exact integer result if it is an
-- I32, or for the unsigned ones a U32, and throw an OverflowException if it is not; without two words on
-- the stack they abort.
pub exec_overflow-exact :
    (op : OverflowOp) (c : Context) (m : Machine)
    → HoldsBytes m.mem
    → exec_overflow op c m
      ≡ on_two_words (λ v1 v2. push_in_range (is_unsigned op) (exact op v1 v2)) c m
exec_overflow-exact op c m bytes =
    ap (λ e. e c m) (as_on_operands op)
    ∙ pop_two-words (on_operands op) c m
    ∙ on_two_words-congr (on_operands op) (λ v1 v2. push_in_range (is_unsigned op) (exact op v1 v2))
        c m bytes (on_operands-exact op)
