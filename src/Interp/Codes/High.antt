-- ===== src/Interp/Codes/High.antt =====
-- JIT_OpCodes.h: the other numbers of op-codes that are modelled, and their code.
use iron_net.Prelude.{ℕ, List, [], ◌∷◌}
use iron_net.Interp.StackOps.{nop, tailcall_prefix, load_i4_m1, load_i4_0, load_i4_1, load_i4_2}
use iron_net.Interp.Locals.{loadparamlocal, storeparamlocal}
use iron_net.Interp.Branches.{
  beq_f32f32, bge_f32f32, bgt_f32f32, ble_f32f32, blt_f32f32, bne_un_f32f32, beq_f64f64, bge_f64f64,
  bgt_f64f64, ble_f64f64, blt_f64f64, bne_un_f64f64,
}
use iron_net.Interp.Arith.{
  ceq_f32f32, ceq_f64f64, cgt_f32f32, cgt_f64f64, clt_f32f32, clt_f64f64, add_i64i64, add_f32f32,
  add_f64f64, sub_i64i64, sub_f32f32, sub_f64f64, mul_i64i64, mul_f32f32, mul_f64f64, div_i64i64,
  div_f32f32, div_f64f64, div_un_i64i64, rem_i64i64, rem_un_i64i64, and_i64i64, or_i64i64,
  xor_i64i64,
}
use iron_net.Interp.Convert.{
  conv_i32_u32, conv_i32_i32, conv_i32_i64, conv_u32_i64, conv_i32_r32, conv_i32_r64, conv_u32_r32,
  conv_u32_r64, conv_i64_u32, conv_i64_i32, conv_i64_r32, conv_i64_r64, conv_u64_r32, conv_u64_r64,
  conv_r32_i32, conv_r32_u32, conv_r32_i64, conv_r32_u64, conv_r32_r64, conv_r64_i32, conv_r64_u32,
  conv_r64_i64, conv_r64_u64, conv_r64_r32,
}
use iron_net.Interp.Objects.{load_element_i64, loadfield_4, loadfield_8}
use iron_net.Interp.Step.{
  Op, stack_op, local_op, branch_op, compare_op, arith_op, convert_op, vector_op, field_op,
}

abbrev pub codes_4 : List (ℕ × Op)
codes_4 =
    (232, vector_op load_element_i64)
    ∷ (240, arith_op add_i64i64)
    ∷ (241, arith_op sub_i64i64)
    ∷ (242, arith_op mul_i64i64)
    ∷ (243, arith_op div_i64i64)
    ∷ (244, arith_op div_un_i64i64)
    ∷ (245, arith_op rem_i64i64)
    ∷ (246, arith_op rem_un_i64i64)
    ∷ (247, arith_op and_i64i64)
    ∷ (248, arith_op or_i64i64)
    ∷ (249, arith_op xor_i64i64)
    ∷ (250, compare_op ceq_f32f32)
    ∷ (251, compare_op cgt_f32f32)
    ∷ (252, compare_op cgt_f32f32)
    ∷ (253, compare_op clt_f32f32)
    ∷ (254, compare_op clt_f32f32)
    ∷ (255, branch_op beq_f32f32)
    ∷ (256, branch_op bge_f32f32)
    ∷ (257, branch_op bgt_f32f32)
    ∷ (258, branch_op ble_f32f32)
    ∷ (259, branch_op blt_f32f32)
    ∷ (260, branch_op bne_un_f32f32)
    ∷ (261, branch_op bge_f32f32)
    ∷ (262, branch_op bgt_f32f32)
    ∷ (263, branch_op ble_f32f32)
    ∷ (264, branch_op blt_f32f32)
    ∷ (265, arith_op add_f32f32)
    ∷ (266, arith_op sub_f32f32)
    ∷ (267, arith_op mul_f32f32)
    ∷ (268, arith_op div_f32f32)
    ∷ (272, compare_op ceq_f64f64)
    ∷ (273, compare_op cgt_f64f64)
    ∷ (274, compare_op cgt_f64f64)
    ∷ (275, compare_op clt_f64f64)
    ∷ (276, compare_op clt_f64f64)
    ∷ (277, branch_op beq_f64f64)
    ∷ (278, branch_op bge_f64f64)
    ∷ (279, branch_op bgt_f64f64)
    ∷ (280, branch_op ble_f64f64)
    ∷ (281, branch_op blt_f64f64)
    ∷ []

abbrev pub codes_5 : List (ℕ × Op)
codes_5 =
    (282, branch_op bne_un_f64f64)
    ∷ (283, branch_op bge_f64f64)
    ∷ (284, branch_op bgt_f64f64)
    ∷ (285, branch_op ble_f64f64)
    ∷ (286, branch_op blt_f64f64)
    ∷ (287, arith_op add_f64f64)
    ∷ (288, arith_op sub_f64f64)
    ∷ (289, arith_op mul_f64f64)
    ∷ (290, arith_op div_f64f64)
    ∷ (295, local_op (loadparamlocal 0))
    ∷ (296, local_op (loadparamlocal 1))
    ∷ (297, local_op (loadparamlocal 2))
    ∷ (298, local_op (loadparamlocal 3))
    ∷ (299, local_op (loadparamlocal 4))
    ∷ (300, local_op (loadparamlocal 5))
    ∷ (301, local_op (loadparamlocal 6))
    ∷ (302, local_op (loadparamlocal 7))
    ∷ (303, local_op (storeparamlocal 0))
    ∷ (304, local_op (storeparamlocal 1))
    ∷ (305, local_op (storeparamlocal 2))
    ∷ (306, local_op (storeparamlocal 3))
    ∷ (307, local_op (storeparamlocal 4))
    ∷ (308, local_op (storeparamlocal 5))
    ∷ (309, local_op (storeparamlocal 6))
    ∷ (310, local_op (storeparamlocal 7))
    ∷ (311, stack_op load_i4_m1)
    ∷ (312, stack_op load_i4_0)
    ∷ (313, stack_op load_i4_1)
    ∷ (314, stack_op load_i4_2)
    ∷ (315, field_op loadfield_4)
    ∷ (316, field_op loadfield_8)
    ∷ (320, convert_op conv_i32_i32)
    ∷ (321, convert_op conv_i32_u32)
    ∷ (322, convert_op conv_i32_i64)
    ∷ (323, convert_op conv_u32_i64)
    ∷ (324, convert_op conv_i32_r32)
    ∷ (325, convert_op conv_i32_r64)
    ∷ (326, convert_op conv_i32_i32)
    ∷ (327, convert_op conv_i32_u32)
    ∷ (328, convert_op conv_u32_i64)
    ∷ []

abbrev pub codes_6 : List (ℕ × Op)
codes_6 =
    (329, convert_op conv_u32_i64)
    ∷ (330, convert_op conv_u32_r32)
    ∷ (331, convert_op conv_u32_r64)
    ∷ (332, convert_op conv_i64_i32)
    ∷ (333, convert_op conv_i64_u32)
    ∷ (335, stack_op nop)
    ∷ (336, convert_op conv_i64_r32)
    ∷ (337, convert_op conv_i64_r64)
    ∷ (338, convert_op conv_i64_i32)
    ∷ (339, convert_op conv_i64_u32)
    ∷ (340, stack_op nop)
    ∷ (342, convert_op conv_u64_r32)
    ∷ (343, convert_op conv_u64_r64)
    ∷ (344, convert_op conv_r32_i32)
    ∷ (345, convert_op conv_r32_u32)
    ∷ (346, convert_op conv_r32_i64)
    ∷ (347, convert_op conv_r32_u64)
    ∷ (348, stack_op nop)
    ∷ (349, convert_op conv_r32_r64)
    ∷ (350, convert_op conv_r64_i32)
    ∷ (351, convert_op conv_r64_u32)
    ∷ (352, convert_op conv_r64_i64)
    ∷ (353, convert_op conv_r64_u64)
    ∷ (354, convert_op conv_r64_r32)
    ∷ (355, stack_op nop)
    ∷ (358, stack_op tailcall_prefix)
    ∷ []
