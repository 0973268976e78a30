-- ===== src/Interp/Step.antt =====
-- JIT_Execute.c: all of the modelled op-codes together.
use iron_net.Prelude.{Bool, true, false}
use iron_net.Interp.StackOps.{StackOp, exec_stack}
use iron_net.Interp.Locals.{LocalOp, IndirectOp, exec_local, exec_indirect}
use iron_net.Interp.Branches.{JumpOp, BranchOp, exec_jump, exec_branch_two}
use iron_net.Interp.Arith.{
  CompareOp, ArithOp, UnaryOp, OverflowOp, compare_macro, arith_macro, binary_op, exec_unary,
  exec_overflow,
}
use iron_net.Interp.Convert.{ConvertOp, exec_convert}
use iron_net.Interp.Objects.{VectorOp, FieldOp, ObjectOp, exec_vector, exec_field, exec_object}
use iron_net.Interp.Machine.{Exec, ◌>>=◌, get_floats}

pub data Op : Type 0 where
  stack_op : StackOp → Op
  local_op : LocalOp → Op
  indirect_op : IndirectOp → Op
  jump_op : JumpOp → Op
  branch_op : BranchOp → Op
  compare_op : CompareOp → Op
  arith_op : ArithOp → Op
  unary_op : UnaryOp → Op
  overflow_op : OverflowOp → Op
  convert_op : ConvertOp → Op
  vector_op : VectorOp → Op
  field_op : FieldOp → Op
  object_op : ObjectOp → Op

unfoldable pub exec_op : Op → Exec (Unit {0})
exec_op (stack_op op) = exec_stack op
exec_op (local_op op) = exec_local op
exec_op (indirect_op op) = exec_indirect op
exec_op (jump_op op) = exec_jump op
exec_op (branch_op op) = exec_branch_two op
exec_op (compare_op op) = do floats ← get_floats; binary_op (compare_macro floats op)
exec_op (arith_op op) = do floats ← get_floats; binary_op (arith_macro floats op)
exec_op (unary_op op) = exec_unary op
exec_op (overflow_op op) = exec_overflow op
exec_op (convert_op op) = exec_convert op
exec_op (vector_op op) = exec_vector op
exec_op (field_op op) = exec_field op
exec_op (object_op op) = exec_object op

-- The op-codes that end with GO_NEXT_CHECK are the jumps and branches.
unfoldable pub checks_num_inst : Op → Bool
checks_num_inst (jump_op op) = true
checks_num_inst (branch_op op) = true
checks_num_inst op = false
