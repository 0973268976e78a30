-- ===== src/Interp/Arith.antt =====
-- JIT_Execute.c: the comparisons, the arithmetic and the logic on two operands, and the operations on
-- one.
use iron_net.Prelude.{
  ℕ, ◌+◌, ◌-◌, ◌*◌, ◌/◌, ◌%◌, ◌^◌, Bool, ◌||◌, ◌==◌, ltb, if◌then◌else◌, sub_u32, bit_and, bit_or,
  bit_xor, Option, none, some,
}
use iron_net.Interp.Ints.{
  ℤ, ltb_ℤ, i32, i64, div_signed, rem_signed, shr_signed, ◌+ℤ◌, ◌-ℤ◌, ◌*ℤ◌, pos, negsuc, word,
  signed,
}
use iron_net.Interp.Machine.{
  Floats, Exec, overflow_exception, ◌>>=◌, ◌>>◌, throw, pop, get_sp, read, write, push_word,
  get_floats, given,
}
use iron_net.Interp.Branches.{pop_two, gt_signed, lt_signed}

-- The arguments of the macro BINARY_OP: the sizes of the result and of the operands, and the operator,
-- which has no result where C gives it no meaning.
pub record Binary : Type 0 where
  pub result_size : ℕ
  pub left_size : ℕ
  pub right_size : ℕ
  pub operator : ℕ → ℕ → Option ℕ

unfoldable pub binary_op : Binary → Exec (Unit {0})
binary_op b = do
  pop (b.left_size + b.right_size - b.result_size)
  p ← get_sp
  v1 ← read b.left_size (sub_u32 p b.result_size)
  v2 ← read b.right_size (sub_u32 p b.result_size + b.left_size)
  v ← given (b.operator v1 v2)
  write b.result_size (sub_u32 p b.result_size) v

-- A comparison of two operands of n bytes, whose result is a U32.
abbrev pub comparison : ℕ → (ℕ → ℕ → Bool) → Binary
comparison n test = record {
  result_size = 4;
  left_size = n;
  right_size = n;
  operator = λ v1 v2. some (if test v1 v2 then 1 else 0);
}

abbrev pub same_size : ℕ → (ℕ → ℕ → Option ℕ) → Binary
same_size n op = record { result_size = n; left_size = n; right_size = n; operator = op }

pub data CompareOp : Type 0 where
  ceq_i32i32 cgt_i32i32 cgt_un_i32i32 clt_i32i32 clt_un_i32i32 : CompareOp
  ceq_i64i64 cgt_i64i64 cgt_un_i64i64 clt_i64i64 clt_un_i64i64 : CompareOp
  ceq_f32f32 ceq_f64f64 cgt_f32f32 cgt_f64f64 clt_f32f32 clt_f64f64 : CompareOp

unfoldable pub compare_macro : Floats → CompareOp → Binary
compare_macro fl ceq_i32i32 = comparison 4 (λ v1 v2. v1 == v2)
compare_macro fl cgt_i32i32 = comparison 4 (gt_signed i32)
compare_macro fl cgt_un_i32i32 = comparison 4 (λ v1 v2. ltb v2 v1)
compare_macro fl clt_i32i32 = comparison 4 (lt_signed i32)
compare_macro fl clt_un_i32i32 = comparison 4 ltb
compare_macro fl ceq_i64i64 = comparison 8 (λ v1 v2. v1 == v2)
compare_macro fl cgt_i64i64 = comparison 8 (gt_signed i64)
compare_macro fl cgt_un_i64i64 = comparison 8 (λ v1 v2. ltb v2 v1)
compare_macro fl clt_i64i64 = comparison 8 (lt_signed i64)
compare_macro fl clt_un_i64i64 = comparison 8 ltb
compare_macro fl ceq_f32f32 = comparison 4 fl.f32.eq
compare_macro fl ceq_f64f64 = comparison 8 fl.f64.eq
compare_macro fl cgt_f32f32 = comparison 4 (λ v1 v2. fl.f32.lt v2 v1)
compare_macro fl cgt_f64f64 = comparison 8 (λ v1 v2. fl.f64.lt v2 v1)
compare_macro fl clt_f32f32 = comparison 4 fl.f32.lt
compare_macro fl clt_f64f64 = comparison 8 fl.f64.lt

pub data ArithOp : Type 0 where
  add_i32i32 add_i64i64 add_f32f32 add_f64f64 sub_i32i32 sub_i64i64 sub_f32f32 sub_f64f64 : ArithOp
  mul_i32i32 mul_i64i64 mul_f32f32 mul_f64f64 div_i32i32 div_i64i64 div_f32f32 div_f64f64 : ArithOp
  div_un_i32i32 div_un_i64i64 rem_i32i32 rem_i64i64 rem_un_i32i32 rem_un_i64i64 : ArithOp
  and_i32i32 and_i64i64 or_i32i32 or_i64i64 xor_i32i32 xor_i64i64 : ArithOp
  shl_i32 shr_i32 shr_un_i32 shl_i64 shr_i64 shr_un_i64 : ArithOp

-- A shift by the width or more has no meaning; on I64 the count is a U32.
abbrev pub shift_below : ℕ → (ℕ → ℕ → ℕ) → ℕ → ℕ → Option ℕ
shift_below width op v shift = if ltb shift width then some (op v shift) else none

abbrev pub shift64 : (ℕ → ℕ → ℕ) → Binary
shift64 op = record { result_size = 8; left_size = 8; right_size = 4; operator = shift_below 64 op }

-- An operation on unsigned words that 0 must not divide.
abbrev pub unless_zero : (ℕ → ℕ → ℕ) → ℕ → ℕ → Option ℕ
unless_zero op v1 v2 = if v2 == 0 then none else some (op v1 v2)

-- Sums, differences and products of integers wrap around.
unfoldable pub arith_macro : Floats → ArithOp → Binary
arith_macro fl add_i32i32 = same_size 4 (λ v1 v2. some ((v1 + v2) % 2 ^ 32))
arith_macro fl add_i64i64 = same_size 8 (λ v1 v2. some ((v1 + v2) % 2 ^ 64))
arith_macro fl add_f32f32 = same_size 4 (λ v1 v2. some (fl.f32.add v1 v2))
arith_macro fl add_f64f64 = same_size 8 (λ v1 v2. some (fl.f64.add v1 v2))
arith_macro fl sub_i32i32 = same_size 4 (λ v1 v2. some ((v1 + 2 ^ 32 - v2) % 2 ^ 32))
arith_macro fl sub_i64i64 = same_size 8 (λ v1 v2. some ((v1 + 2 ^ 64 - v2) % 2 ^ 64))
arith_macro fl sub_f32f32 = same_size 8 (λ v1 v2. some (fl.f64.sub v1 v2))
arith_macro fl sub_f64f64 = same_size 8 (λ v1 v2. some (fl.f64.sub v1 v2))
arith_macro fl mul_i32i32 = same_size 4 (λ v1 v2. some (v1 * v2 % 2 ^ 32))
arith_macro fl mul_i64i64 = same_size 8 (λ v1 v2. some (v1 * v2 % 2 ^ 64))
arith_macro fl mul_f32f32 = same_size 4 (λ v1 v2. some (fl.f32.mul v1 v2))
arith_macro fl mul_f64f64 = same_size 8 (λ v1 v2. some (fl.f64.mul v1 v2))
arith_macro fl div_i32i32 = same_size 4 (div_signed (2 ^ 31))
arith_macro fl div_i64i64 = same_size 8 (div_signed (2 ^ 63))
arith_macro fl div_f32f32 = same_size 4 (λ v1 v2. some (fl.f32.div v1 v2))
arith_macro fl div_f64f64 = same_size 8 (λ v1 v2. some (fl.f64.div v1 v2))
arith_macro fl div_un_i32i32 = same_size 4 (unless_zero (λ v1 v2. v1 / v2))
arith_macro fl div_un_i64i64 = same_size 8 (unless_zero (λ v1 v2. v1 / v2))
arith_macro fl rem_i32i32 = same_size 4 (rem_signed (2 ^ 31))
arith_macro fl rem_i64i64 = same_size 8 (rem_signed (2 ^ 63))
arith_macro fl rem_un_i32i32 = same_size 4 (unless_zero (λ v1 v2. v1 % v2))
arith_macro fl rem_un_i64i64 = same_size 8 (unless_zero (λ v1 v2. v1 % v2))
arith_macro fl and_i32i32 = same_size 4 (λ v1 v2. some (bit_and v1 v2))
arith_macro fl and_i64i64 = same_size 8 (λ v1 v2. some (bit_and v1 v2))
arith_macro fl or_i32i32 = same_size 4 (λ v1 v2. some (bit_or v1 v2))
arith_macro fl or_i64i64 = same_size 8 (λ v1 v2. some (bit_or v1 v2))
arith_macro fl xor_i32i32 = same_size 4 (λ v1 v2. some (bit_xor v1 v2))
arith_macro fl xor_i64i64 = same_size 8 (λ v1 v2. some (bit_xor v1 v2))
arith_macro fl shl_i32 = same_size 4 (shift_below 32 (λ v s. v * 2 ^ s % 2 ^ 32))
arith_macro fl shr_i32 = same_size 4 (shift_below 32 (shr_signed (2 ^ 31)))
arith_macro fl shr_un_i32 = same_size 4 (shift_below 32 (λ v s. v / 2 ^ s))
arith_macro fl shl_i64 = shift64 (λ v s. v * 2 ^ s % 2 ^ 64)
arith_macro fl shr_i64 = shift64 (shr_signed (2 ^ 63))
arith_macro fl shr_un_i64 = shift64 (λ v s. v / 2 ^ s)

pub data UnaryOp : Type 0 where
  neg_i32 neg_i64 neg_f32 neg_f64 not_i32 not_i64 : UnaryOp

-- UNARY_OP: the top of the stack is changed in place.
unfoldable pub unary_in_place : ℕ → (ℕ → ℕ) → Exec (Unit {0})
unary_in_place n op = do p ← get_sp; v ← read n (sub_u32 p n); write n (sub_u32 p n) (op v)

unfoldable pub exec_unary : UnaryOp → Exec (Unit {0})
exec_unary neg_i32 = unary_in_place 4 (λ v. (2 ^ 32 - v) % 2 ^ 32)
exec_unary neg_i64 = unary_in_place 8 (λ v. (2 ^ 64 - v) % 2 ^ 64)
exec_unary neg_f32 = do floats ← get_floats; unary_in_place 4 floats.f32.neg
exec_unary neg_f64 = do floats ← get_floats; unary_in_place 8 floats.f64.neg
exec_unary not_i32 = unary_in_place 4 (λ v. 2 ^ 32 - 1 - v)
exec_unary not_i64 = unary_in_place 8 (λ v. 2 ^ 64 - 1 - v)

pub data OverflowOp : Type 0 where
  add_ovf_i32i32 add_ovf_un_i32i32 mul_ovf_i32i32 : OverflowOp
  mul_ovf_un_i32i32 sub_ovf_i32i32 sub_ovf_un_i32i32 : OverflowOp

-- The value that an I64 variable holds of an integer, and the U64 of one.
abbrev pub as_i64 : ℤ → ℤ
as_i64 z = signed (2 ^ 63) (word (2 ^ 63) z)

-- The I64 result of the signed operations must lie in the range of I32, and the U64 result of the
-- unsigned ones in that of U32.
unfoldable pub checked_signed : ℤ → Exec (Unit {0})
checked_signed res =
    if ltb_ℤ (pos (2 ^ 31 - 1)) res || ltb_ℤ res (negsuc (2 ^ 31 - 1))
    then throw overflow_exception
    else push_word 4 (word (2 ^ 31) res)

unfoldable pub checked_unsigned : ℕ → Exec (Unit {0})
checked_unsigned res = if ltb (2 ^ 32 - 1) res then throw overflow_exception else push_word 4 res

unfoldable pub exec_overflow : OverflowOp → Exec (Unit {0})
exec_overflow add_ovf_i32i32 = pop_two 4 (λ v1 v2. checked_signed (as_i64 (i32 v1 +ℤ i32 v2)))
exec_overflow add_ovf_un_i32i32 = pop_two 4 (λ v1 v2. checked_unsigned ((v1 + v2) % 2 ^ 64))
exec_overflow mul_ovf_i32i32 = pop_two 4 (λ v1 v2. checked_signed (as_i64 (i32 v1 *ℤ i32 v2)))
exec_overflow mul_ovf_un_i32i32 = pop_two 4 (λ v1 v2. checked_unsigned (v1 * v2 % 2 ^ 64))
exec_overflow sub_ovf_i32i32 = pop_two 4 (λ v1 v2. checked_signed (as_i64 (i32 v1 -ℤ i32 v2)))
exec_overflow sub_ovf_un_i32i32 =
    pop_two 4 (λ v1 v2. checked_unsigned ((v1 + 2 ^ 64 - v2) % 2 ^ 64))
