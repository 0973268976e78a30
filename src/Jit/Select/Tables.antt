-- ===== src/Jit/Select/Tables.antt =====
-- The op-code of the interpreter that has the name of an operation of the CIL and of the stack type of its two
-- operands; two objects or two pointers count as two I32.
use iron_net.Prelude.{ℕ, List, [], ◌∷◌}
use iron_net.Jit.Types.{
  evalstack_int32, evalstack_int64, evalstack_f32, evalstack_f64, evalstack_o, evalstack_ptr,
}
use iron_net.Interp.Arith.{
  add_f32f32, add_f64f64, add_i32i32, add_i64i64, add_ovf_i32i32, add_ovf_un_i32i32, and_i32i32,
  and_i64i64, ceq_f32f32, ceq_f64f64, ceq_i32i32, ceq_i64i64, cgt_f32f32, cgt_f64f64, cgt_i32i32,
  cgt_i64i64, cgt_un_i32i32, cgt_un_i64i64, clt_f32f32, clt_f64f64, clt_i32i32, clt_i64i64,
  clt_un_i32i32, clt_un_i64i64, div_f32f32, div_f64f64, div_i32i32, div_i64i64, div_un_i32i32,
  div_un_i64i64, mul_f32f32, mul_f64f64, mul_i32i32, mul_i64i64, mul_ovf_i32i32, mul_ovf_un_i32i32,
  or_i32i32, or_i64i64, rem_i32i32, rem_i64i64, rem_un_i32i32, rem_un_i64i64, sub_f32f32,
  sub_f64f64, sub_i32i32, sub_i64i64, sub_ovf_i32i32, sub_ovf_un_i32i32, xor_i32i32, xor_i64i64,
}
use iron_net.Interp.Branches.{
  beq_f32f32, beq_f64f64, beq_i32i32, beq_i64i64, bge_f32f32, bge_f64f64, bge_i32i32, bge_i64i64,
  bge_un_i32i32, bge_un_i64i64, bgt_f32f32, bgt_f64f64, bgt_i32i32, bgt_i64i64, bgt_un_i32i32,
  bgt_un_i64i64, ble_f32f32, ble_f64f64, ble_i32i32, ble_i64i64, ble_un_i32i32, ble_un_i64i64,
  blt_f32f32, blt_f64f64, blt_i32i32, blt_i64i64, blt_un_i32i32, blt_un_i64i64, bne_un_f32f32,
  bne_un_f64f64, bne_un_i32i32, bne_un_i64i64,
}
use iron_net.Interp.Step.{Op, arith_op, overflow_op, compare_op, branch_op}

-- CIL_ADD to CIL_XOR on I32, I64 and objects, CIL_ADD to CIL_DIV on floats, and CIL_ADD_OVF to CIL_SUB_OVF_UN on
-- I32.
abbrev pub arith_ops : List (ℕ × ℕ × Op)
arith_ops =
    (0x58, evalstack_int32, arith_op add_i32i32)
    ∷ (0x59, evalstack_int32, arith_op sub_i32i32)
    ∷ (0x5a, evalstack_int32, arith_op mul_i32i32)
    ∷ (0x5b, evalstack_int32, arith_op div_i32i32)
    ∷ (0x5c, evalstack_int32, arith_op div_un_i32i32)
    ∷ (0x5d, evalstack_int32, arith_op rem_i32i32)
    ∷ (0x5e, evalstack_int32, arith_op rem_un_i32i32)
    ∷ (0x5f, evalstack_int32, arith_op and_i32i32)
    ∷ (0x60, evalstack_int32, arith_op or_i32i32)
    ∷ (0x61, evalstack_int32, arith_op xor_i32i32)
    ∷ (0x58, evalstack_int64, arith_op add_i64i64)
    ∷ (0x59, evalstack_int64, arith_op sub_i64i64)
    ∷ (0x5a, evalstack_int64, arith_op mul_i64i64)
    ∷ (0x5b, evalstack_int64, arith_op div_i64i64)
    ∷ (0x5c, evalstack_int64, arith_op div_un_i64i64)
    ∷ (0x5d, evalstack_int64, arith_op rem_i64i64)
    ∷ (0x5e, evalstack_int64, arith_op rem_un_i64i64)
    ∷ (0x5f, evalstack_int64, arith_op and_i64i64)
    ∷ (0x60, evalstack_int64, arith_op or_i64i64)
    ∷ (0x61, evalstack_int64, arith_op xor_i64i64)
    ∷ (0x58, evalstack_o, arith_op add_i32i32)
    ∷ (0x59, evalstack_o, arith_op sub_i32i32)
    ∷ (0x5a, evalstack_o, arith_op mul_i32i32)
    ∷ (0x5b, evalstack_o, arith_op div_i32i32)
    ∷ (0x5c, evalstack_o, arith_op div_un_i32i32)
    ∷ (0x5d, evalstack_o, arith_op rem_i32i32)
    ∷ (0x5e, evalstack_o, arith_op rem_un_i32i32)
    ∷ (0x5f, evalstack_o, arith_op and_i32i32)
    ∷ (0x60, evalstack_o, arith_op or_i32i32)
    ∷ (0x61, evalstack_o, arith_op xor_i32i32)
    ∷ (0x58, evalstack_f32, arith_op add_f32f32)
    ∷ (0x59, evalstack_f32, arith_op sub_f32f32)
    ∷ (0x5a, evalstack_f32, arith_op mul_f32f32)
    ∷ (0x5b, evalstack_f32, arith_op div_f32f32)
    ∷ (0x58, evalstack_f64, arith_op add_f64f64)
    ∷ (0x59, evalstack_f64, arith_op sub_f64f64)
    ∷ (0x5a, evalstack_f64, arith_op mul_f64f64)
    ∷ (0x5b, evalstack_f64, arith_op div_f64f64)
    ∷ (0xd6, evalstack_int32, overflow_op add_ovf_i32i32)
    ∷ (0xd7, evalstack_int32, overflow_op add_ovf_un_i32i32)
    ∷ (0xd8, evalstack_int32, overflow_op mul_ovf_i32i32)
    ∷ (0xd9, evalstack_int32, overflow_op mul_ovf_un_i32i32)
    ∷ (0xda, evalstack_int32, overflow_op sub_ovf_i32i32)
    ∷ (0xdb, evalstack_int32, overflow_op sub_ovf_un_i32i32)
    ∷ []

-- CILX_CEQ to CILX_CLT_UN; on floats the ordered ones.
abbrev pub compare_ops : List (ℕ × ℕ × Op)
compare_ops =
    (0x1, evalstack_int32, compare_op ceq_i32i32)
    ∷ (0x2, evalstack_int32, compare_op cgt_i32i32)
    ∷ (0x3, evalstack_int32, compare_op cgt_un_i32i32)
    ∷ (0x4, evalstack_int32, compare_op clt_i32i32)
    ∷ (0x5, evalstack_int32, compare_op clt_un_i32i32)
    ∷ (0x1, evalstack_int64, compare_op ceq_i64i64)
    ∷ (0x2, evalstack_int64, compare_op cgt_i64i64)
    ∷ (0x3, evalstack_int64, compare_op cgt_un_i64i64)
    ∷ (0x4, evalstack_int64, compare_op clt_i64i64)
    ∷ (0x5, evalstack_int64, compare_op clt_un_i64i64)
    ∷ (0x1, evalstack_o, compare_op ceq_i32i32)
    ∷ (0x2, evalstack_o, compare_op cgt_i32i32)
    ∷ (0x3, evalstack_o, compare_op cgt_un_i32i32)
    ∷ (0x4, evalstack_o, compare_op clt_i32i32)
    ∷ (0x5, evalstack_o, compare_op clt_un_i32i32)
    ∷ (0x1, evalstack_ptr, compare_op ceq_i32i32)
    ∷ (0x2, evalstack_ptr, compare_op cgt_i32i32)
    ∷ (0x3, evalstack_ptr, compare_op cgt_un_i32i32)
    ∷ (0x4, evalstack_ptr, compare_op clt_i32i32)
    ∷ (0x5, evalstack_ptr, compare_op clt_un_i32i32)
    ∷ (0x1, evalstack_f32, compare_op ceq_f32f32)
    ∷ (0x2, evalstack_f32, compare_op cgt_f32f32)
    ∷ (0x4, evalstack_f32, compare_op clt_f32f32)
    ∷ (0x1, evalstack_f64, compare_op ceq_f64f64)
    ∷ (0x2, evalstack_f64, compare_op cgt_f64f64)
    ∷ (0x4, evalstack_f64, compare_op clt_f64f64)
    ∷ []

-- CIL_BEQ to CIL_BLT_UN, by their place behind CIL_BEQ; on floats the tests up to CIL_BNE_UN.
abbrev pub branch_ops : List (ℕ × ℕ × Op)
branch_ops =
    (0x0, evalstack_int32, branch_op beq_i32i32)
    ∷ (0x1, evalstack_int32, branch_op bge_i32i32)
    ∷ (0x2, evalstack_int32, branch_op bgt_i32i32)
    ∷ (0x3, evalstack_int32, branch_op ble_i32i32)
    ∷ (0x4, evalstack_int32, branch_op blt_i32i32)
    ∷ (0x5, evalstack_int32, branch_op bne_un_i32i32)
    ∷ (0x6, evalstack_int32, branch_op bge_un_i32i32)
    ∷ (0x7, evalstack_int32, branch_op bgt_un_i32i32)
    ∷ (0x8, evalstack_int32, branch_op ble_un_i32i32)
    ∷ (0x9, evalstack_int32, branch_op blt_un_i32i32)
    ∷ (0x0, evalstack_int64, branch_op beq_i64i64)
    ∷ (0x1, evalstack_int64, branch_op bge_i64i64)
    ∷ (0x2, evalstack_int64, branch_op bgt_i64i64)
    ∷ (0x3, evalstack_int64, branch_op ble_i64i64)
    ∷ (0x4, evalstack_int64, branch_op blt_i64i64)
    ∷ (0x5, evalstack_int64, branch_op bne_un_i64i64)
    ∷ (0x6, evalstack_int64, branch_op bge_un_i64i64)
    ∷ (0x7, evalstack_int64, branch_op bgt_un_i64i64)
    ∷ (0x8, evalstack_int64, branch_op ble_un_i64i64)
    ∷ (0x9, evalstack_int64, branch_op blt_un_i64i64)
    ∷ (0x0, evalstack_o, branch_op beq_i32i32)
    ∷ (0x1, evalstack_o, branch_op bge_i32i32)
    ∷ (0x2, evalstack_o, branch_op bgt_i32i32)
    ∷ (0x3, evalstack_o, branch_op ble_i32i32)
    ∷ (0x4, evalstack_o, branch_op blt_i32i32)
    ∷ (0x5, evalstack_o, branch_op bne_un_i32i32)
    ∷ (0x6, evalstack_o, branch_op bge_un_i32i32)
    ∷ (0x7, evalstack_o, branch_op bgt_un_i32i32)
    ∷ (0x8, evalstack_o, branch_op ble_un_i32i32)
    ∷ (0x9, evalstack_o, branch_op blt_un_i32i32)
    ∷ (0x0, evalstack_ptr, branch_op beq_i32i32)
    ∷ (0x1, evalstack_ptr, branch_op bge_i32i32)
    ∷ (0x2, evalstack_ptr, branch_op bgt_i32i32)
    ∷ (0x3, evalstack_ptr, branch_op ble_i32i32)
    ∷ (0x4, evalstack_ptr, branch_op blt_i32i32)
    ∷ (0x5, evalstack_ptr, branch_op bne_un_i32i32)
    ∷ (0x6, evalstack_ptr, branch_op bge_un_i32i32)
    ∷ (0x7, evalstack_ptr, branch_op bgt_un_i32i32)
    ∷ (0x8, evalstack_ptr, branch_op ble_un_i32i32)
    ∷ (0x9, evalstack_ptr, branch_op blt_un_i32i32)
    ∷ (0x0, evalstack_f32, branch_op beq_f32f32)
    ∷ (0x1, evalstack_f32, branch_op bge_f32f32)
    ∷ (0x2, evalstack_f32, branch_op bgt_f32f32)
    ∷ (0x3, evalstack_f32, branch_op ble_f32f32)
    ∷ (0x4, evalstack_f32, branch_op blt_f32f32)
    ∷ (0x5, evalstack_f32, branch_op bne_un_f32f32)
    ∷ (0x0, evalstack_f64, branch_op beq_f64f64)
    ∷ (0x1, evalstack_f64, branch_op bge_f64f64)
    ∷ (0x2, evalstack_f64, branch_op bgt_f64f64)
    ∷ (0x3, evalstack_f64, branch_op ble_f64f64)
    ∷ (0x4, evalstack_f64, branch_op blt_f64f64)
    ∷ (0x5, evalstack_f64, branch_op bne_un_f64f64)
    ∷ []
