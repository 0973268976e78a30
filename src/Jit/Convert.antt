-- ===== src/Jit/Convert.antt =====
-- JIT.c, cilConv: the conversions.
use iron_net.Prelude.{
  ℕ, ◌+◌, ◌-◌, ◌^◌, Bool, false, ◌==◌, ◌||◌, if◌then◌else◌, Option, none, some, List, [], ◌∷◌,
}
use iron_net.Jit.{Step, ◌>>=◌, ◌>>◌, give, given, push_op, push_u32, push_type, pop_type}
use iron_net.Jit.Types.{
  JitType, same_type, evalstack_int32, evalstack_int64, evalstack_f32, evalstack_f64, evalstack_ptr,
  system_byte, system_sbyte, system_int16, system_uint16, system_int32, system_uint32, system_int64,
  system_uint64, system_single, system_double, system_uintptr,
}

-- toType, convOpOffset and toBitCount.
pub record Conversion : Type 0 where
  pub to_type : JitType
  pub conv_op_offset : ℕ
  pub to_bit_count : ℕ

abbrev pub to : JitType → ℕ → ℕ → Conversion
to t offset bits = record { to_type = t; conv_op_offset = offset; to_bit_count = bits }

-- The case labels of the conversions: the op-codes of one target, and the target.
abbrev pub conversions : List (List ℕ × Conversion)
conversions =
    (0x67 ∷ 0xb3 ∷ 0x82 ∷ [], to system_sbyte 0 8)
    ∷ (0x68 ∷ 0xb5 ∷ 0x83 ∷ [], to system_int16 0 16)
    ∷ (0x69 ∷ 0xb7 ∷ 0x84 ∷ 0xd3 ∷ 0xd4 ∷ 0x8a ∷ [], to system_int32 0 32)
    ∷ (0xd2 ∷ 0xb4 ∷ 0x86 ∷ [], to system_byte 1 8)
    ∷ (0xd1 ∷ 0xb6 ∷ 0x87 ∷ [], to system_uint16 1 16)
    ∷ (0x6d ∷ 0xb8 ∷ 0x88 ∷ 0xe0 ∷ 0xd5 ∷ 0x8b ∷ [], to system_uint32 1 32)
    ∷ (0x6a ∷ 0xb9 ∷ 0x85 ∷ [], to system_int64 2 0)
    ∷ (0x6e ∷ 0xba ∷ 0x89 ∷ [], to system_uint64 3 0)
    ∷ (0x6b ∷ [], to system_single 4 0)
    ∷ (0x6c ∷ 0x76 ∷ [], to system_double 5 0)
    ∷ []

abbrev pub is_among : ℕ → List ℕ → Bool
is_among op [] = false
is_among op (n ∷ ns) = (op == n) || is_among op ns

abbrev pub find_conversion : ℕ → List (List ℕ × Conversion) → Option Conversion
find_conversion op [] = none
find_conversion op ((ns, conv) ∷ rest) =
    if is_among op ns then some conv else find_conversion op rest

-- opCodeBase, by the type that the conversion is from.
unfoldable pub conv_base : JitType → Option ℕ
conv_base t =
    if t.stack_type == evalstack_int64
    then some (if same_type t system_int64 then 0x14c else 0x152)
    else (if (t.stack_type == evalstack_int32) || (t.stack_type == evalstack_ptr)
        then some (
            if same_type t system_byte
              || same_type t system_uint16
              || same_type t system_uint32
              || same_type t system_uintptr
            then 0x146
            else 0x140)
        else (if t.stack_type == evalstack_f64
            then some 0x15e
            else (if t.stack_type == evalstack_f32 then some 0x158 else none)))

-- The operand of a conversion to an I32 or a U32: the bits to shift by, or the mask.
unfoldable pub conv_param : Conversion → Step (Unit {0})
conv_param conv =
    if conv.conv_op_offset == 0
    then push_u32 (32 - conv.to_bit_count)
    else (if conv.conv_op_offset == 1 then push_u32 (2 ^ conv.to_bit_count - 1) else give tt)

unfoldable pub jit_conv : ℕ → Step (Unit {0})
jit_conv op = do
  conv ← given (find_conversion op conversions)
  t ← pop_type
  base ← given (conv_base t)
  push_op (base + conv.conv_op_offset)
  conv_param conv
  push_type conv.to_type
