-- ===== src/Jit/Types.antt =====
-- The types that the translation itself names, with the stack types and sizes that typeInit of
-- DotNetAnywhere/Type.c gives them; `id` stands for the address of the tMD_TypeDef.
use iron_net.Prelude.{ℕ, Bool, ◌==◌}
pub use iron_net.Heap.Mark.{evalstack_ptr, evalstack_o, evalstack_valuetype}

pub record JitType : Type 0 where
  pub id : ℕ
  pub stack_type : ℕ
  pub stack_size : ℕ

abbrev pub evalstack_int64 : ℕ
evalstack_int64 = 0

abbrev pub evalstack_int32 : ℕ
evalstack_int32 = 1

abbrev pub evalstack_f64 : ℕ
evalstack_f64 = 3

abbrev pub evalstack_f32 : ℕ
evalstack_f32 = 6

abbrev pub known : ℕ → ℕ → ℕ → JitType
known id stack_type stack_size = record {
  id = id;
  stack_type = stack_type;
  stack_size = stack_size;
}

abbrev pub system_object : JitType
system_object = known 0 evalstack_o 4

abbrev pub system_byte : JitType
system_byte = known 4 evalstack_int32 4

abbrev pub system_sbyte : JitType
system_sbyte = known 5 evalstack_int32 4

abbrev pub system_int16 : JitType
system_int16 = known 7 evalstack_int32 4

abbrev pub system_int32 : JitType
system_int32 = known 8 evalstack_int32 4

abbrev pub system_string : JitType
system_string = known 9 evalstack_o 4

abbrev pub system_intptr : JitType
system_intptr = known 10 evalstack_ptr 4

abbrev pub system_uint32 : JitType
system_uint32 = known 13 evalstack_int32 4

abbrev pub system_uint16 : JitType
system_uint16 = known 14 evalstack_int32 4

abbrev pub system_single : JitType
system_single = known 22 evalstack_f32 4

abbrev pub system_double : JitType
system_double = known 23 evalstack_f64 8

abbrev pub system_int64 : JitType
system_int64 = known 24 evalstack_int64 8

abbrev pub system_uint64 : JitType
system_uint64 = known 25 evalstack_int64 8

abbrev pub system_uintptr : JitType
system_uintptr = known 45 evalstack_ptr 4

-- Comparison of two pointers to types.
abbrev pub same_type : JitType → JitType → Bool
same_type a b = a.id == b.id
