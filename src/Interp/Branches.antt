-- ===== src/Interp/Branches.antt =====
-- JIT_Execute.c: the op-codes that branch.
use iron_net.Prelude.{ℕ, ◌+◌, Bool, not, ◌==◌, ltb, leb, if◌then◌else◌}
use iron_net.Interp.Ints.{ℤ, ltb_ℤ, i32, i64}
use iron_net.Interp.Machine.{
  Floats, Exec, ◌>>=◌, ◌>>◌, give, get_op, pop, get_sp, get_pc, set_pc, read, pop_word, get_floats,
}

-- The conditional branches on two operands; the suffix gives their type. The tests of the _UN_ variants
-- on floats are those of the plain ones.
pub data BranchOp : Type 0 where
  beq_i32i32 bge_i32i32 bgt_i32i32 ble_i32i32 blt_i32i32 : BranchOp
  bne_un_i32i32 bge_un_i32i32 bgt_un_i32i32 ble_un_i32i32 blt_un_i32i32 : BranchOp
  beq_i64i64 bge_i64i64 bgt_i64i64 ble_i64i64 blt_i64i64 : BranchOp
  bne_un_i64i64 bge_un_i64i64 bgt_un_i64i64 ble_un_i64i64 blt_un_i64i64 : BranchOp
  beq_f32f32 bge_f32f32 bgt_f32f32 ble_f32f32 blt_f32f32 bne_un_f32f32 : BranchOp
  beq_f64f64 bge_f64f64 bgt_f64f64 ble_f64f64 blt_f64f64 bne_un_f64f64 : BranchOp

-- The bytes of an operand.
unfoldable pub operand_size : BranchOp → ℕ
operand_size beq_i32i32 = 4
operand_size bge_i32i32 = 4
operand_size bgt_i32i32 = 4
operand_size ble_i32i32 = 4
operand_size blt_i32i32 = 4
operand_size bne_un_i32i32 = 4
operand_size bge_un_i32i32 = 4
operand_size bgt_un_i32i32 = 4
operand_size ble_un_i32i32 = 4
operand_size blt_un_i32i32 = 4
operand_size beq_i64i64 = 8
operand_size bge_i64i64 = 8
operand_size bgt_i64i64 = 8
operand_size ble_i64i64 = 8
operand_size blt_i64i64 = 8
operand_size bne_un_i64i64 = 8
operand_size bge_un_i64i64 = 8
operand_size bgt_un_i64i64 = 8
operand_size ble_un_i64i64 = 8
operand_size blt_un_i64i64 = 8
operand_size beq_f32f32 = 4
operand_size bge_f32f32 = 4
operand_size bgt_f32f32 = 4
operand_size ble_f32f32 = 4
operand_size blt_f32f32 = 4
operand_size bne_un_f32f32 = 4
operand_size beq_f64f64 = 8
operand_size bge_f64f64 = 8
operand_size bgt_f64f64 = 8
operand_size ble_f64f64 = 8
operand_size blt_f64f64 = 8
operand_size bne_un_f64f64 = 8

-- The tests on signed words, through the value that `val` gives them, on unsigned words, and on floats.
abbrev pub gt_signed : (ℕ → ℤ) → ℕ → ℕ → Bool
gt_signed val v1 v2 = ltb_ℤ (val v2) (val v1)

abbrev pub lt_signed : (ℕ → ℤ) → ℕ → ℕ → Bool
lt_signed val v1 v2 = ltb_ℤ (val v1) (val v2)

unfoldable pub branch_test : Floats → BranchOp → ℕ → ℕ → Bool
branch_test fl beq_i32i32 v1 v2 = v1 == v2
branch_test fl bge_i32i32 v1 v2 = not (lt_signed i32 v1 v2)
branch_test fl bgt_i32i32 v1 v2 = gt_signed i32 v1 v2
branch_test fl ble_i32i32 v1 v2 = not (gt_signed i32 v1 v2)
branch_test fl blt_i32i32 v1 v2 = lt_signed i32 v1 v2
branch_test fl bne_un_i32i32 v1 v2 = not (v1 == v2)
branch_test fl bge_un_i32i32 v1 v2 = leb v2 v1
branch_test fl bgt_un_i32i32 v1 v2 = ltb v2 v1
branch_test fl ble_un_i32i32 v1 v2 = leb v1 v2
branch_test fl blt_un_i32i32 v1 v2 = ltb v1 v2
branch_test fl beq_i64i64 v1 v2 = v1 == v2
branch_test fl bge_i64i64 v1 v2 = not (lt_signed i64 v1 v2)
branch_test fl bgt_i64i64 v1 v2 = gt_signed i64 v1 v2
branch_test fl ble_i64i64 v1 v2 = not (gt_signed i64 v1 v2)
branch_test fl blt_i64i64 v1 v2 = lt_signed i64 v1 v2
branch_test fl bne_un_i64i64 v1 v2 = not (v1 == v2)
branch_test fl bge_un_i64i64 v1 v2 = leb v2 v1
branch_test fl bgt_un_i64i64 v1 v2 = ltb v2 v1
branch_test fl ble_un_i64i64 v1 v2 = leb v1 v2
branch_test fl blt_un_i64i64 v1 v2 = ltb v1 v2
branch_test fl beq_f32f32 v1 v2 = fl.f32.eq v1 v2
branch_test fl bge_f32f32 v1 v2 = fl.f32.le v2 v1
branch_test fl bgt_f32f32 v1 v2 = fl.f32.lt v2 v1
branch_test fl ble_f32f32 v1 v2 = fl.f32.le v1 v2
branch_test fl blt_f32f32 v1 v2 = fl.f32.lt v1 v2
branch_test fl bne_un_f32f32 v1 v2 = not (fl.f32.eq v1 v2)
branch_test fl beq_f64f64 v1 v2 = fl.f64.eq v1 v2
branch_test fl bge_f64f64 v1 v2 = fl.f64.le v2 v1
branch_test fl bgt_f64f64 v1 v2 = fl.f64.lt v2 v1
branch_test fl ble_f64f64 v1 v2 = fl.f64.le v1 v2
branch_test fl blt_f64f64 v1 v2 = fl.f64.lt v1 v2
branch_test fl bne_un_f64f64 v1 v2 = not (fl.f64.eq v1 v2)

-- POP_U32_U32 and the like: both operands are popped at once.
abbrev pub pop_two : {A : Type 0} → ℕ → (ℕ → ℕ → Exec A) → Exec A
pop_two n f = do pop (n + n); p ← get_sp; v1 ← read n p; v2 ← read n (p + n); f v1 v2

-- Go on at pOps + ofs if the test holds.
abbrev pub jump_if : Bool → ℕ → Exec (Unit {0})
jump_if test ofs = if test then set_pc ofs else give tt

unfoldable pub exec_branch_two : BranchOp → Exec (Unit {0})
exec_branch_two op =
    pop_two (operand_size op)
      (λ v1 v2. do ofs ← get_op; floats ← get_floats; jump_if (branch_test floats op v1 v2) ofs)

pub data JumpOp : Type 0 where
  branch switch branch_true branch_false branch64_true branch64_false : JumpOp

-- JIT_SWITCH with a target that it has: the word behind the number of targets that the target selects.
unfoldable pub jump_table : ℕ → ℕ → Exec (Unit {0})
jump_table num_targets target = do
  p ← get_pc
  if leb num_targets target
      then set_pc (p + num_targets)
      else (do set_pc (p + target); ofs ← get_op; set_pc ofs)

unfoldable pub exec_jump : JumpOp → Exec (Unit {0})
exec_jump branch = do ofs ← get_op; set_pc ofs
exec_jump switch = do num_targets ← get_op; target ← pop_word 4; jump_table num_targets target
exec_jump branch_true = do value ← pop_word 4; ofs ← get_op; jump_if (not (value == 0)) ofs
exec_jump branch_false = do value ← pop_word 4; ofs ← get_op; jump_if (value == 0) ofs
exec_jump branch64_true = do value ← pop_word 8; ofs ← get_op; jump_if (not (value == 0)) ofs
exec_jump branch64_false = do value ← pop_word 8; ofs ← get_op; jump_if (value == 0) ofs
