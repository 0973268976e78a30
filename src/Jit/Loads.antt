-- ===== src/Jit/Loads.antt =====
-- JIT.c, CIL_NOP to CIL_STIND_R8: constants, parameters and locals, and indirect loads and stores.
use iron_net.Prelude.{ℕ, ◌+◌, ◌-◌, ◌/◌, ◌^◌, ltb, leb, ◌==◌, ◌&&◌, if◌then◌else◌, get_elem?}
use iron_net.Jit.{
  Parameter, Step, ◌>>=◌, ◌>>◌, give, given, get_method, push_u32, push_op, push_op_param,
  push_type, pop_type, pop_types, next_byte, next_u32, sign_extend,
}
use iron_net.Jit.Types.{
  JitType, evalstack_valuetype, system_object, system_byte, system_sbyte, system_int16,
  system_int32, system_intptr, system_uint32, system_uint16, system_single, system_double,
  system_int64,
}

-- cilLdcI4: the value is a U32 here, with the negative ones above 2 ^ 31.
unfoldable pub load_i4 : ℕ → Step (Unit {0})
load_i4 v =
    if leb v 2
    then (do push_op (0x138 + v); push_type system_int32)
    else (if v == 2 ^ 32 - 1
        then (do push_op 0x137; push_type system_int32)
        else (do push_op 0x2; push_u32 v; push_type system_int32))

-- CIL_LDNULL.
unfoldable pub jit_ldnull : Step (Unit {0})
jit_ldnull = do push_op 0x10; push_type system_object

-- CIL_DUP.
unfoldable pub jit_dup : Step (Unit {0})
jit_dup = do
  t ← pop_type
  push_type t
  push_type t
  if t.stack_size == 4
      then push_op 0x2b
      else (if t.stack_size == 8 then push_op 0x2c else push_op_param 0x14 t.stack_size)

-- CIL_POP.
unfoldable pub jit_pop : Step (Unit {0})
jit_pop = do
  t ← pop_type
  if t.stack_size == 4 then push_op 0x2e else push_op_param 0x15 t.stack_size

-- CIL_LDC_I4_M1 to CIL_LDC_I4_8, CIL_LDC_I4_S and CIL_LDC_I4.
unfoldable pub jit_ldc_i4 : ℕ → Step (Unit {0})
jit_ldc_i4 op =
    if op == 0x20
    then (do v ← next_u32; load_i4 v)
    else (if op == 0x1f
        then (do b ← next_byte; load_i4 (sign_extend b))
        else (if op == 0x15 then load_i4 (2 ^ 32 - 1) else load_i4 (op - 0x16)))

-- CIL_LDC_I8, CIL_LDC_R4 and CIL_LDC_R8; the bits of a float stay as they are.
unfoldable pub jit_ldc_i8 : Step (Unit {0})
jit_ldc_i8 = do
  push_op 0x29
  a ← next_u32
  push_u32 a
  b ← next_u32
  push_u32 b
  push_type system_int64

unfoldable pub jit_ldc_r4 : Step (Unit {0})
jit_ldc_r4 = do v ← next_u32; push_type system_single; push_op 0x2f; push_u32 v

unfoldable pub jit_ldc_r8 : Step (Unit {0})
jit_ldc_r8 = do
  a ← next_u32
  b ← next_u32
  push_type system_double
  push_op 0xaf
  push_u32 a
  push_u32 b

-- The op-code for a parameter or local of the type at the offset: `short` is JIT_LOADPARAMLOCAL_0 or
-- JIT_STOREPARAMLOCAL_0, `typed` the TYPEID one.
unfoldable pub push_param_local : ℕ → ℕ → JitType → ℕ → Step (Unit {0})
push_param_local short typed t ofs =
    if (t.stack_size == 4) && ltb ofs 32
    then push_op (short + ofs / 4)
    else (if t.stack_type == evalstack_valuetype
        then (do push_op_param (typed + t.stack_type) ofs; push_u32 t.id)
        else push_op_param (typed + t.stack_type) ofs)

-- pMethodDef->pParams[n] and pLocals[n].
unfoldable pub param_at : ℕ → Step Parameter
param_at n = do c ← get_method; given (get_elem? c.params n)

unfoldable pub local_at : ℕ → Step Parameter
local_at n = do c ← get_method; given (get_elem? c.locals n)

-- parameterStackSize + offset.
unfoldable pub local_offset : Parameter → Step ℕ
local_offset p = do c ← get_method; give (c.parameter_stack_size + p.offset)

-- cilLdArg, CIL_LDARGA_S and CIL_STARG_S.
unfoldable pub load_arg : ℕ → Step (Unit {0})
load_arg n = do
  p ← param_at n
  push_param_local 0x127 0x30 p.type_def p.offset
  push_type p.type_def

unfoldable pub load_arg_address : ℕ → Step (Unit {0})
load_arg_address n = do p ← param_at n; push_op_param 0x9 p.offset; push_type system_intptr

unfoldable pub store_arg : ℕ → Step (Unit {0})
store_arg n = do t ← pop_type; p ← param_at n; push_param_local 0x12f 0x38 t p.offset

-- cilLdLoc, cilStLoc and CIL_LDLOCA_S.
unfoldable pub jit_load_local : ℕ → Step (Unit {0})
jit_load_local n = do
  p ← local_at n
  ofs ← local_offset p
  push_param_local 0x127 0x30 p.type_def ofs
  push_type p.type_def

unfoldable pub jit_store_local : ℕ → Step (Unit {0})
jit_store_local n = do
  t ← pop_type
  p ← local_at n
  ofs ← local_offset p
  push_param_local 0x12f 0x38 t ofs

unfoldable pub load_local_address : ℕ → Step (Unit {0})
load_local_address n = do
  p ← local_at n
  ofs ← local_offset p
  push_op_param 0x9 ofs
  push_type system_intptr

-- CIL_LDARG_S to CIL_STLOC_S, with their number.
unfoldable pub jit_arg_local_s : ℕ → ℕ → Step (Unit {0})
jit_arg_local_s op n =
    if op == 0xe
    then load_arg n
    else (if op == 0xf
        then load_arg_address n
        else (if op == 0x10
            then store_arg n
            else (if op == 0x11
                then jit_load_local n
                else (if op == 0x12 then load_local_address n else jit_store_local n))))

-- CIL_LDARG_0 to CIL_STLOC_S.
unfoldable pub jit_arg_local : ℕ → Step (Unit {0})
jit_arg_local op =
    if ltb op 0x6
    then load_arg (op - 0x2)
    else (if ltb op 0xa
        then jit_load_local (op - 0x6)
        else (if ltb op 0xe
            then jit_store_local (op - 0xa)
            else (do n ← next_byte; jit_arg_local_s op n)))

-- The type that an indirect load pushes, by its place behind CIL_LDIND_I1.
abbrev pub indirect_type : ℕ → JitType
indirect_type k =
    if k == 0
    then system_sbyte
    else (if k == 1
        then system_byte
        else (if k == 2
            then system_int16
            else (if k == 3
                then system_uint16
                else (if k == 4
                    then system_int32
                    else (if k == 5
                        then system_uint32
                        else (if k == 6
                            then system_int64
                            else (if k == 7
                                then system_intptr
                                else (if k == 8
                                    then system_single
                                    else (if k == 9 then system_double else system_object)))))))))

-- CIL_LDIND_I1 to CIL_LDIND_REF.
unfoldable pub jit_ldind : ℕ → Step (Unit {0})
jit_ldind op = do pop_type; push_op (0xb3 + (op - 0x46)); push_type (indirect_type (op - 0x46))

-- CIL_STIND_REF to CIL_STIND_R8.
unfoldable pub jit_stind : ℕ → Step (Unit {0})
jit_stind op = do pop_types 2; push_op (0xbe + (op - 0x51))
