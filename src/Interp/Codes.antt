-- ===== src/Interp/Codes.antt =====
-- JIT_OpCodes.h: the numbers of the op-codes that are modelled, as the switch of JIT_Execute selects
-- their code. Several numbers may lead to one piece of code.
pub mod Low
pub mod High
use iron_net.Prelude.{ℕ, Option, none, some, List, [], ◌∷◌, ◌++◌, ◌==◌, if◌then◌else◌}
use iron_net.Interp.StackOps.{
  nop, tailcall_prefix, load_null, dup_4, dup_8, dup_general, pop_general, pop_4, load_i32,
  load_i4_m1, load_i4_0, load_i4_1, load_i4_2, load_i64,
}
use iron_net.Interp.Locals.{
  loadparamlocal_int32, loadparamlocal_int64, loadparamlocal_valuetype, loadparamlocal,
  load_paramlocal_addr, storeparamlocal_int32, storeparamlocal_int64, storeparamlocal_valuetype,
  storeparamlocal, loadindirect_u32, loadindirect_i64, storeindirect_u32, storeindirect_u64,
  store_object_valuetype,
}
use iron_net.Interp.Branches.{
  branch, switch, branch_true, branch_false, branch64_true, branch64_false, beq_i32i32, bge_i32i32,
  bgt_i32i32, ble_i32i32, blt_i32i32, bne_un_i32i32, bge_un_i32i32, bgt_un_i32i32, ble_un_i32i32,
  blt_un_i32i32, beq_i64i64, bge_i64i64, bgt_i64i64, ble_i64i64, blt_i64i64, bne_un_i64i64,
  bge_un_i64i64, bgt_un_i64i64, ble_un_i64i64, blt_un_i64i64, beq_f32f32, bge_f32f32, bgt_f32f32,
  ble_f32f32, blt_f32f32, bne_un_f32f32, beq_f64f64, bge_f64f64, bgt_f64f64, ble_f64f64, blt_f64f64,
  bne_un_f64f64,
}
use iron_net.Interp.Arith.{
  ceq_i32i32, cgt_i32i32, cgt_un_i32i32, clt_i32i32, clt_un_i32i32, ceq_i64i64, cgt_i64i64,
  cgt_un_i64i64, clt_i64i64, clt_un_i64i64, ceq_f32f32, ceq_f64f64, cgt_f32f32, cgt_f64f64,
  clt_f32f32, clt_f64f64, add_i32i32, add_i64i64, add_f32f32, add_f64f64, sub_i32i32, sub_i64i64,
  sub_f32f32, sub_f64f64, mul_i32i32, mul_i64i64, mul_f32f32, mul_f64f64, div_i32i32, div_i64i64,
  div_f32f32, div_f64f64, div_un_i32i32, div_un_i64i64, rem_i32i32, rem_i64i64, rem_un_i32i32,
  rem_un_i64i64, and_i32i32, and_i64i64, or_i32i32, or_i64i64, xor_i32i32, xor_i64i64, shl_i32,
  shr_i32, shr_un_i32, shl_i64, shr_i64, shr_un_i64, neg_i32, neg_i64, neg_f32, neg_f64, not_i32,
  not_i64, add_ovf_i32i32, add_ovf_un_i32i32, mul_ovf_i32i32, mul_ovf_un_i32i32, sub_ovf_i32i32,
  sub_ovf_un_i32i32,
}
use iron_net.Interp.Convert.{
  conv_i32_u32, conv_i32_i32, conv_i32_i64, conv_u32_i64, conv_i32_r32, conv_i32_r64, conv_u32_r32,
  conv_u32_r64, conv_i64_u32, conv_i64_i32, conv_i64_r32, conv_i64_r64, conv_u64_r32, conv_u64_r64,
  conv_r32_i32, conv_r32_u32, conv_r32_i64, conv_r32_u64, conv_r32_r64, conv_r64_i32, conv_r64_u32,
  conv_r64_i64, conv_r64_u64, conv_r64_r32,
}
use iron_net.Interp.Objects.{
  load_vector_len, load_element_i8, load_element_u8, load_element_i16, load_element_u16,
  load_element_i32, load_element_i64, load_element_general, load_element_addr, store_element_32,
  store_element_64, store_element_general, storefield_int32, storefield_int64, storefield_valuetype,
  loadfield, loadfield_4, loadfield_8, loadfield_valuetype, load_field_addr, storestaticfield_int32,
  storestaticfield_int64, storestaticfield_valuetype, init_valuetype, init_object, box_o,
  unbox2object, unbox2valuetype, unbox_nullable, box_int32, box_int64, box_valuetype, box_nullable,
  loadtoken_type, loadtoken_field, loadfunction, loadobject,
}
use iron_net.Interp.Step.{
  Op, stack_op, local_op, indirect_op, jump_op, branch_op, compare_op, arith_op, unary_op,
  overflow_op, convert_op, vector_op, field_op, object_op,
}
use iron_net.Interp.Codes.Low.{codes_0, codes_1, codes_2, codes_3}
use iron_net.Interp.Codes.High.{codes_4, codes_5, codes_6}

abbrev pub codes : List (ℕ × Op)
codes = codes_0 ++ codes_1 ++ codes_2 ++ codes_3 ++ codes_4 ++ codes_5 ++ codes_6

abbrev pub find : List (ℕ × Op) → ℕ → Option Op
find [] n = none
find ((k, op) ∷ rest) n = if k == n then some op else find rest n

-- The code that an op-code selects, if it is modelled.
unfoldable pub decode : ℕ → Option Op
decode n = find codes n
