-- ===== src/Jit/Arith.antt =====
-- JIT.c, CIL_ADD to CIL_NOT, CIL_ADD_OVF to CIL_SUB_OVF_UN and CILX_CEQ to CILX_CLT_UN.
use iron_net.Prelude.{ℕ, ◌+◌, ◌-◌, Bool, leb, ◌==◌, ◌&&◌, ◌||◌, if◌then◌else◌, Option, none, some}
use iron_net.Jit.{Step, ◌>>=◌, ◌>>◌, crash, given, push_op, push_type, pop_type}
use iron_net.Jit.Types.{
  JitType, evalstack_int32, evalstack_int64, evalstack_f32, evalstack_f64, evalstack_ptr,
  system_int32, system_int64, system_single, system_double,
}
use iron_net.Jit.Branches.{group_of}

-- Whether the op-code is one of CIL_ADD_OVF to CIL_SUB_OVF_UN.
abbrev pub is_checked : ℕ → Bool
is_checked op = leb 0xd6 op && leb op 0xdb

-- cilBinaryArithOp: the op-code for two operands of the types. The checked ones stand six places before
-- the group, in their own order.
unfoldable pub select_arith : ℕ → JitType → JitType → Option ℕ
select_arith op a b =
    if (a.stack_type == evalstack_ptr) && (b.stack_type == evalstack_ptr)
    then none
    else (if (a.stack_type == evalstack_ptr) && (b.stack_type == evalstack_int32)
        then (if (op == 0x58) || (op == 0x59) then some (0x80 + (op - 0x58)) else none)
        else (elim (group_of 0x80 0xf0 0x109 0x11f a b) [
          | none ↦ none
          | some group ↦
              some (if is_checked op then group + (op - 0x58) - 0x84 else group + (op - 0x58))
        ]))

-- CIL_ADD to CIL_XOR, and CIL_ADD_OVF to CIL_SUB_OVF_UN.
unfoldable pub jit_arith : ℕ → Step (Unit {0})
jit_arith op = do
  b ← pop_type
  a ← pop_type
  n ← given (select_arith op a b)
  push_op n
  push_type a

-- CIL_NEG and CIL_NOT.
unfoldable pub jit_unary : ℕ → Step (Unit {0})
jit_unary op = do
  a ← pop_type
  if a.stack_type == evalstack_int32
      then (do push_op (0x8a + (op - 0x65)); push_type system_int32)
      else (if a.stack_type == evalstack_int64
          then (do push_op (0x8c + (op - 0x65)); push_type system_int64)
          else (if a.stack_type == evalstack_f32
              then (do push_op 0x8e; push_type system_single)
              else (if a.stack_type == evalstack_f64
                  then (do push_op 0x8f; push_type system_double)
                  else crash)))

-- CIL_SHL, CIL_SHR and CIL_SHR_UN.
unfoldable pub jit_shift : ℕ → Step (Unit {0})
jit_shift op = do
  pop_type
  a ← pop_type
  if a.stack_type == evalstack_int32
      then (do push_op (0xa4 + (op - 0x62)); push_type system_int32)
      else (if a.stack_type == evalstack_int64
          then (do push_op (0xa7 + (op - 0x62)); push_type system_int64)
          else crash)

-- CILX_CEQ to CILX_CLT_UN.
unfoldable pub jit_compare : ℕ → Step (Unit {0})
jit_compare op = do
  b ← pop_type
  a ← pop_type
  group ← given (group_of 0x70 0x75 0xfa 0x110 a b)
  push_op (group + (op - 0x1))
  push_type system_int32
