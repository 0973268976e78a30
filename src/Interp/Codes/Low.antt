-- ===== src/Interp/Codes/Low.antt =====
-- JIT_OpCodes.h: the first numbers of op-codes that are modelled, and their code.
use iron_net.Prelude.{ℕ, List, [], ◌∷◌}
use iron_net.Interp.StackOps.{
  nop, load_null, dup_4, dup_8, dup_general, pop_general, pop_4, load_i32, load_i64,
}
use iron_net.Interp.Locals.{
  loadparamlocal_int32, loadparamlocal_int64, loadparamlocal_valuetype, load_paramlocal_addr,
  storeparamlocal_int32, storeparamlocal_int64, storeparamlocal_valuetype, loadindirect_u32,
  loadindirect_i64, storeindirect_u32, storeindirect_u64, store_object_valuetype,
}
use iron_net.Interp.Branches.{
  branch, switch, branch_true, branch_false, branch64_true, branch64_false, beq_i32i32, bge_i32i32,
  bgt_i32i32, ble_i32i32, blt_i32i32, bne_un_i32i32, bge_un_i32i32, bgt_un_i32i32, ble_un_i32i32,
  blt_un_i32i32, beq_i64i64, bge_i64i64, bgt_i64i64, ble_i64i64, blt_i64i64, bne_un_i64i64,
  bge_un_i64i64, bgt_un_i64i64, ble_un_i64i64, blt_un_i64i64,
}
use iron_net.Interp.Arith.{
  ceq_i32i32, cgt_i32i32, cgt_un_i32i32, clt_i32i32, clt_un_i32i32, ceq_i64i64, cgt_i64i64,
  cgt_un_i64i64, clt_i64i64, clt_un_i64i64, add_i32i32, sub_i32i32, mul_i32i32, div_i32i32,
  div_un_i32i32, rem_i32i32, rem_un_i32i32, and_i32i32, or_i32i32, xor_i32i32, shl_i32, shr_i32,
  shr_un_i32, shl_i64, shr_i64, shr_un_i64, neg_i32, neg_i64, neg_f32, neg_f64, not_i32, not_i64,
  add_ovf_i32i32, add_ovf_un_i32i32, mul_ovf_i32i32, mul_ovf_un_i32i32, sub_ovf_i32i32,
  sub_ovf_un_i32i32,
}
use iron_net.Interp.Objects.{
  load_vector_len, load_element_i8, load_element_u8, load_element_i16, load_element_u16,
  load_element_i32, load_element_i64, load_element_general, load_element_addr, store_element_32,
  store_element_64, store_element_general, storefield_int32, storefield_int64, storefield_valuetype,
  loadfield, loadfield_valuetype, load_field_addr, storestaticfield_int32, storestaticfield_int64,
  storestaticfield_valuetype, init_valuetype, init_object, box_o, unbox2object, unbox2valuetype,
  unbox_nullable, box_int32, box_int64, box_valuetype, box_nullable, loadtoken_type,
  loadtoken_field, loadfunction, loadobject,
}
use iron_net.Interp.Step.{
  Op, stack_op, local_op, indirect_op, jump_op, branch_op, compare_op, arith_op, unary_op,
  overflow_op, vector_op, field_op, object_op,
}

abbrev pub codes_0 : List (ℕ × Op)
codes_0 =
    (0, stack_op nop)
    ∷ (2, stack_op load_i32)
    ∷ (3, jump_op branch)
    ∷ (9, local_op load_paramlocal_addr)
    ∷ (12, object_op init_valuetype)
    ∷ (16, stack_op load_null)
    ∷ (17, object_op unbox2valuetype)
    ∷ (18, object_op unbox2object)
    ∷ (19, field_op load_field_addr)
    ∷ (20, stack_op dup_general)
    ∷ (21, stack_op pop_general)
    ∷ (22, indirect_op store_object_valuetype)
    ∷ (24, vector_op store_element_general)
    ∷ (29, object_op loadobject)
    ∷ (30, vector_op load_vector_len)
    ∷ (31, jump_op switch)
    ∷ (32, vector_op load_element_addr)
    ∷ (35, vector_op load_element_general)
    ∷ (36, field_op loadfield_valuetype)
    ∷ (37, field_op loadfield)
    ∷ (38, object_op loadfunction)
    ∷ (41, stack_op load_i64)
    ∷ (42, object_op init_object)
    ∷ (43, stack_op dup_4)
    ∷ (44, stack_op dup_8)
    ∷ (46, stack_op pop_4)
    ∷ (47, stack_op load_i32)
    ∷ (48, local_op loadparamlocal_int64)
    ∷ (49, local_op loadparamlocal_int32)
    ∷ (50, local_op loadparamlocal_int32)
    ∷ (51, local_op loadparamlocal_int64)
    ∷ (52, local_op loadparamlocal_int32)
    ∷ (53, local_op loadparamlocal_int32)
    ∷ (54, local_op loadparamlocal_int32)
    ∷ (55, local_op loadparamlocal_valuetype)
    ∷ (56, local_op storeparamlocal_int64)
    ∷ (57, local_op storeparamlocal_int32)
    ∷ (58, local_op storeparamlocal_int32)
    ∷ (59, local_op storeparamlocal_int64)
    ∷ (60, local_op storeparamlocal_int32)
    ∷ []

abbrev pub codes_1 : List (ℕ × Op)
codes_1 =
    (61, local_op storeparamlocal_int32)
    ∷ (62, local_op storeparamlocal_int32)
    ∷ (63, local_op storeparamlocal_valuetype)
    ∷ (72, field_op storefield_int64)
    ∷ (73, field_op storefield_int32)
    ∷ (74, field_op storefield_int32)
    ∷ (75, field_op storefield_int64)
    ∷ (76, field_op storefield_int32)
    ∷ (77, field_op storefield_int32)
    ∷ (78, field_op storefield_int32)
    ∷ (79, field_op storefield_valuetype)
    ∷ (96, field_op storestaticfield_int64)
    ∷ (97, field_op storestaticfield_int32)
    ∷ (98, field_op storestaticfield_int32)
    ∷ (99, field_op storestaticfield_int64)
    ∷ (100, field_op storestaticfield_int32)
    ∷ (101, field_op storestaticfield_int32)
    ∷ (102, field_op storestaticfield_int32)
    ∷ (103, field_op storestaticfield_valuetype)
    ∷ (104, object_op box_int64)
    ∷ (105, object_op box_int32)
    ∷ (106, object_op box_int32)
    ∷ (107, object_op box_int64)
    ∷ (109, object_op box_o)
    ∷ (110, object_op box_int32)
    ∷ (111, object_op box_valuetype)
    ∷ (112, compare_op ceq_i32i32)
    ∷ (113, compare_op cgt_i32i32)
    ∷ (114, compare_op cgt_un_i32i32)
    ∷ (115, compare_op clt_i32i32)
    ∷ (116, compare_op clt_un_i32i32)
    ∷ (117, compare_op ceq_i64i64)
    ∷ (118, compare_op cgt_i64i64)
    ∷ (119, compare_op cgt_un_i64i64)
    ∷ (120, compare_op clt_i64i64)
    ∷ (121, compare_op clt_un_i64i64)
    ∷ (122, overflow_op add_ovf_i32i32)
    ∷ (123, overflow_op add_ovf_un_i32i32)
    ∷ (124, overflow_op mul_ovf_i32i32)
    ∷ (125, overflow_op mul_ovf_un_i32i32)
    ∷ []

abbrev pub codes_2 : List (ℕ × Op)
codes_2 =
    (126, overflow_op sub_ovf_i32i32)
    ∷ (127, overflow_op sub_ovf_un_i32i32)
    ∷ (128, arith_op add_i32i32)
    ∷ (129, arith_op sub_i32i32)
    ∷ (130, arith_op mul_i32i32)
    ∷ (131, arith_op div_i32i32)
    ∷ (132, arith_op div_un_i32i32)
    ∷ (133, arith_op rem_i32i32)
    ∷ (134, arith_op rem_un_i32i32)
    ∷ (135, arith_op and_i32i32)
    ∷ (136, arith_op or_i32i32)
    ∷ (137, arith_op xor_i32i32)
    ∷ (138, unary_op neg_i32)
    ∷ (139, unary_op not_i32)
    ∷ (140, unary_op neg_i64)
    ∷ (141, unary_op not_i64)
    ∷ (142, unary_op neg_f32)
    ∷ (143, unary_op neg_f64)
    ∷ (144, branch_op beq_i32i32)
    ∷ (145, branch_op bge_i32i32)
    ∷ (146, branch_op bgt_i32i32)
    ∷ (147, branch_op ble_i32i32)
    ∷ (148, branch_op blt_i32i32)
    ∷ (149, branch_op bne_un_i32i32)
    ∷ (150, branch_op bge_un_i32i32)
    ∷ (151, branch_op bgt_un_i32i32)
    ∷ (152, branch_op ble_un_i32i32)
    ∷ (153, branch_op blt_un_i32i32)
    ∷ (154, branch_op beq_i64i64)
    ∷ (155, branch_op bge_i64i64)
    ∷ (156, branch_op bgt_i64i64)
    ∷ (157, branch_op ble_i64i64)
    ∷ (158, branch_op blt_i64i64)
    ∷ (159, branch_op bne_un_i64i64)
    ∷ (160, branch_op bge_un_i64i64)
    ∷ (161, branch_op bgt_un_i64i64)
    ∷ (162, branch_op ble_un_i64i64)
    ∷ (163, branch_op blt_un_i64i64)
    ∷ (164, arith_op shl_i32)
    ∷ (165, arith_op shr_i32)
    ∷ []

abbrev pub codes_3 : List (ℕ × Op)
codes_3 =
    (166, arith_op shr_un_i32)
    ∷ (167, arith_op shl_i64)
    ∷ (168, arith_op shr_i64)
    ∷ (169, arith_op shr_un_i64)
    ∷ (170, jump_op branch_false)
    ∷ (171, jump_op branch_true)
    ∷ (172, jump_op branch64_false)
    ∷ (173, jump_op branch64_true)
    ∷ (174, object_op box_nullable)
    ∷ (175, stack_op load_i64)
    ∷ (176, object_op loadtoken_type)
    ∷ (178, object_op loadtoken_field)
    ∷ (179, indirect_op loadindirect_u32)
    ∷ (180, indirect_op loadindirect_u32)
    ∷ (181, indirect_op loadindirect_u32)
    ∷ (182, indirect_op loadindirect_u32)
    ∷ (183, indirect_op loadindirect_u32)
    ∷ (184, indirect_op loadindirect_u32)
    ∷ (185, indirect_op loadindirect_i64)
    ∷ (187, indirect_op loadindirect_u32)
    ∷ (188, indirect_op loadindirect_i64)
    ∷ (189, indirect_op loadindirect_u32)
    ∷ (190, indirect_op storeindirect_u32)
    ∷ (191, indirect_op storeindirect_u32)
    ∷ (192, indirect_op storeindirect_u32)
    ∷ (193, indirect_op storeindirect_u32)
    ∷ (194, indirect_op storeindirect_u64)
    ∷ (195, indirect_op storeindirect_u32)
    ∷ (196, indirect_op storeindirect_u64)
    ∷ (218, object_op unbox_nullable)
    ∷ (222, vector_op store_element_32)
    ∷ (223, vector_op store_element_64)
    ∷ (224, vector_op load_element_i8)
    ∷ (225, vector_op load_element_u8)
    ∷ (226, vector_op load_element_i16)
    ∷ (227, vector_op load_element_u16)
    ∷ (228, vector_op load_element_i32)
    ∷ (229, vector_op load_element_i32)
    ∷ (230, vector_op load_element_i64)
    ∷ (231, vector_op load_element_i32)
    ∷ []
