-- ===== src/Interp/Convert.antt =====
-- JIT_Execute.c: the conversions between the number types of the evaluation stack.
use iron_net.Prelude.{ℕ, ◌*◌, ◌^◌, ltb, if◌then◌else◌, u32, sub_u32, bit_and, Option}
use iron_net.Interp.Ints.{i32, shr_signed, word}
use iron_net.Interp.Machine.{
  Exec, ◌>>=◌, give, no_meaning, get_op, get_sp, read, write, push_word, pop_word, get_floats,
  given,
}

-- The name of a conversion gives the type that it is from and the one that it is to.
pub data ConvertOp : Type 0 where
  conv_i32_u32 conv_i32_i32 conv_i32_i64 conv_u32_i64 : ConvertOp
  conv_i32_r32 conv_i32_r64 conv_u32_r32 conv_u32_r64 : ConvertOp
  conv_i64_u32 conv_i64_i32 conv_i64_r32 conv_i64_r64 conv_u64_r32 conv_u64_r64 : ConvertOp
  conv_r32_i32 conv_r32_u32 conv_r32_i64 conv_r32_u64 conv_r32_r64 : ConvertOp
  conv_r64_i32 conv_r64_u32 conv_r64_i64 conv_r64_u64 conv_r64_r32 : ConvertOp

-- (value << shift) >> shift on an I32, which repeats the sign of the bits that are left.
unfoldable pub shift_twice : ℕ → ℕ → ℕ
shift_twice value shift = shr_signed (2 ^ 31) (u32 (value * 2 ^ shift)) shift

abbrev pub narrowed : ℕ → ℕ → Exec ℕ
narrowed value shift = if ltb shift 32 then give (shift_twice value shift) else no_meaning

-- From a word of `from` bytes to one of `to` bytes.
abbrev pub convert : ℕ → ℕ → (ℕ → ℕ) → Exec (Unit {0})
convert from to f = do value ← pop_word from; push_word to (f value)

abbrev pub convert_option : ℕ → ℕ → (ℕ → Option ℕ) → Exec (Unit {0})
convert_option from to f = do value ← pop_word from; v ← given (f value); push_word to v

-- From a float to a small integer, cut off by the mask or the shift that the op-code has.
unfoldable pub to_masked : ℕ → (ℕ → Option ℕ) → Exec (Unit {0})
to_masked from f = do
  mask ← get_op
  value ← pop_word from
  v ← given (f value)
  push_word 4 (bit_and v mask)

unfoldable pub to_narrowed : ℕ → (ℕ → Option ℕ) → Exec (Unit {0})
to_narrowed from f = do
  shift ← get_op
  value ← pop_word from
  v ← given (f value)
  w ← narrowed v shift
  push_word 4 w

unfoldable pub exec_convert : ConvertOp → Exec (Unit {0})
exec_convert conv_i32_u32 = do
  mask ← get_op
  p ← get_sp
  value ← read 4 (sub_u32 p 4)
  write 4 (sub_u32 p 4) (bit_and value mask)
exec_convert conv_i32_i32 = do
  shift ← get_op
  p ← get_sp
  value ← read 4 (sub_u32 p 4)
  v ← narrowed value shift
  write 4 (sub_u32 p 4) v
exec_convert conv_i32_i64 = convert 4 8 (λ value. word (2 ^ 63) (i32 value))
exec_convert conv_u32_i64 = convert 4 8 (λ value. value)
exec_convert conv_i32_r32 = do floats ← get_floats; convert 4 4 floats.f32.of_i32
exec_convert conv_i32_r64 = do floats ← get_floats; convert 4 8 floats.f64.of_i32
exec_convert conv_u32_r32 = do floats ← get_floats; convert 4 4 floats.f32.of_u32
exec_convert conv_u32_r64 = do floats ← get_floats; convert 4 8 floats.f64.of_u32
exec_convert conv_i64_u32 = do mask ← get_op; value ← pop_word 8; push_word 4 (bit_and value mask)
exec_convert conv_i64_i32 = do
  shift ← get_op
  value ← pop_word 8
  v ← narrowed (u32 value) shift
  push_word 4 v
exec_convert conv_i64_r32 = do floats ← get_floats; convert 8 4 floats.f32.of_i64
exec_convert conv_i64_r64 = do floats ← get_floats; convert 8 8 floats.f64.of_i64
exec_convert conv_u64_r32 = do floats ← get_floats; convert 8 4 floats.f32.of_u64
exec_convert conv_u64_r64 = do floats ← get_floats; convert 8 8 floats.f64.of_u64
exec_convert conv_r32_i32 = do floats ← get_floats; to_narrowed 4 floats.f32.to_i32
exec_convert conv_r32_u32 = do floats ← get_floats; to_masked 4 floats.f32.to_u32
exec_convert conv_r32_i64 = do floats ← get_floats; convert_option 4 8 floats.f32.to_i64
exec_convert conv_r32_u64 = do floats ← get_floats; convert_option 4 8 floats.f32.to_u64
exec_convert conv_r32_r64 = do floats ← get_floats; convert 4 8 floats.to_double
exec_convert conv_r64_i32 = do floats ← get_floats; to_narrowed 8 floats.f64.to_i32
exec_convert conv_r64_u32 = do floats ← get_floats; to_masked 8 floats.f64.to_u32
exec_convert conv_r64_i64 = do floats ← get_floats; convert_option 8 8 floats.f64.to_i64
exec_convert conv_r64_u64 = do floats ← get_floats; convert_option 8 8 floats.f64.to_u64
exec_convert conv_r64_r32 = do floats ← get_floats; convert 8 4 floats.to_float
