-- ===== src/Jit/Branches.antt =====
-- JIT.c, CIL_RET, CIL_BR_S to CIL_SWITCH, CIL_THROW to CIL_ENDFINALLY: the jumps. The target is put into the
-- code as a place in the CIL, which the last part of JITit replaces.
use iron_net.Prelude.{
  ℕ, zero, suc, ◌+◌, ◌-◌, ◌*◌, Bool, true, false, ltb, ◌==◌, ◌&&◌, if◌then◌else◌, Option, none,
  some, u32,
}
use iron_net.Jit.{
  Step, ◌>>=◌, ◌>>◌, give, crash, given, push_op, push_op_param, push_target, pop_type, next_byte,
  next_u32, sign_extend, target_of, may_copy_type_stack, restore_type_stack,
}
use iron_net.Jit.Types.{
  JitType, evalstack_int32, evalstack_int64, evalstack_f32, evalstack_f64, evalstack_o,
  evalstack_ptr,
}

-- The relative jump that stands behind the op-code, short or long.
unfoldable pub relative_jump : Bool → Step ℕ
relative_jump true = do b ← next_byte; give (sign_extend b)
relative_jump false = next_u32

-- CIL_RET and CIL_ENDFINALLY.
unfoldable pub jit_ret : Step (Unit {0})
jit_ret = do push_op 0x1; restore_type_stack

unfoldable pub jit_endfinally : Step (Unit {0})
jit_endfinally = do push_op 0x1a; restore_type_stack

-- CIL_THROW.
unfoldable pub jit_throw : Step (Unit {0})
jit_throw = do pop_type; push_op 0x1b; restore_type_stack

-- cilBr.
unfoldable pub jit_br : Bool → Step (Unit {0})
jit_br short = do
  relative ← relative_jump short
  target ← target_of relative
  may_copy_type_stack target
  push_op 0x3
  push_target target
  restore_type_stack

-- cilLeave.
unfoldable pub jit_leave : Bool → Step (Unit {0})
jit_leave short = do
  relative ← relative_jump short
  target ← target_of relative
  may_copy_type_stack target
  restore_type_stack
  push_op 0x19
  push_target target

-- The targets of CIL_SWITCH that are left, from the place `base` behind the instruction.
unfoldable pub switch_targets : ℕ → ℕ → Step (Unit {0})
switch_targets zero base = give tt
switch_targets (suc left) base = do
  relative ← next_u32
  may_copy_type_stack (u32 (base + relative))
  push_target (u32 (base + relative))
  switch_targets left base

-- CIL_SWITCH.
unfoldable pub jit_switch : Step (Unit {0})
jit_switch = do
  pop_type
  n ← next_u32
  base ← target_of (n * 4)
  push_op_param 0x1f n
  switch_targets n base

-- cilBrFalseTrue: `which` is 0 for CIL_BRFALSE and 1 for CIL_BRTRUE.
unfoldable pub jit_br_false_true : Bool → ℕ → Step (Unit {0})
jit_br_false_true short which = do
  relative ← relative_jump short
  t ← pop_type
  if ltb 8 t.stack_size then crash else (do
    target ← target_of relative
    may_copy_type_stack target
    push_op ((if t.stack_size == 4 then 0xaa else 0xac) + which)
    push_target target)

-- The first op-code of the group for two operands of these types, from those for two I32, I64, F32 and F64;
-- two objects count as two I32, and on a 32-bit machine so do two pointers.
unfoldable pub group_of : ℕ → ℕ → ℕ → ℕ → JitType → JitType → Option ℕ
group_of i32 i64 f32 f64 a b =
    if (a.stack_type == evalstack_int32) && (b.stack_type == evalstack_int32)
    then some i32
    else (if (a.stack_type == evalstack_int64) && (b.stack_type == evalstack_int64)
        then some i64
        else (if (a.stack_type == evalstack_f32) && (b.stack_type == evalstack_f32)
            then some f32
            else (if (a.stack_type == evalstack_f64) && (b.stack_type == evalstack_f64)
                then some f64
                else (if (a.stack_type == evalstack_o) && (b.stack_type == evalstack_o)
                    then some i32
                    else (if (a.stack_type == evalstack_ptr) && (b.stack_type == evalstack_ptr)
                        then some i32
                        else none)))))

-- The code behind the label cilBrCond: `which` is the place of the op-code behind CIL_BEQ or CIL_BEQ_S.
unfoldable pub cil_br_cond : ℕ → ℕ → Step (Unit {0})
cil_br_cond which relative = do
  b ← pop_type
  a ← pop_type
  target ← target_of relative
  may_copy_type_stack target
  group ← given (group_of 0x90 0x9a 0xff 0x115 a b)
  push_op (group + which)
  push_target target

-- CIL_BEQ_S to CIL_BLT_UN_S and CIL_BEQ to CIL_BLT_UN.
unfoldable pub jit_br_cond : Bool → ℕ → Step (Unit {0})
jit_br_cond short which = do relative ← relative_jump short; cil_br_cond which relative

-- The jumps by their op-codes.
unfoldable pub jit_branch : ℕ → Step (Unit {0})
jit_branch op =
    if op == 0x2b
    then jit_br true
    else (if op == 0x38
        then jit_br false
        else (if ltb op 0x2e
            then jit_br_false_true true (op - 0x2c)
            else (if ltb op 0x38
                then jit_br_cond true (op - 0x2e)
                else (if ltb op 0x3b
                    then jit_br_false_true false (op - 0x39)
                    else (if ltb op 0x45 then jit_br_cond false (op - 0x3b) else jit_switch)))))
