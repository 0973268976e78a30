-- ===== src/Interp/Keeps.antt =====
-- Every modelled op-code but the jumps keeps the relations of Relation.antt.
use iron_net.Prelude.{ℕ, ◌+◌, ◌≡◌, Option, false, refl, arith}
use iron_net.Interp.Machine.{Context, Machine, ◌>>=◌, get_pc, set_pc}
use iron_net.Interp.StackOps.{StackOp, nop, exec_stack}
use iron_net.Interp.Locals.{
  LocalOp, IndirectOp, load_paramlocal_addr, store_object_valuetype, exec_local, exec_indirect,
  param_local, push_valuetype, pop_valuetype, load_local, store_local, store_indirect,
  load_indirect,
}
use iron_net.Interp.Branches.{JumpOp, BranchOp, switch, exec_jump, exec_branch_two, jump_table}
use iron_net.Interp.Arith.{
  Binary, UnaryOp, OverflowOp, binary_op, unary_in_place, exec_unary, exec_overflow, checked_signed,
  checked_unsigned, neg_i32, add_ovf_i32i32,
}
use iron_net.Interp.Ints.{ℤ}
use iron_net.Interp.Step.{
  Op, stack_op, local_op, indirect_op, jump_op, branch_op, compare_op, arith_op, overflow_op,
  unary_op, convert_op, vector_op, field_op, object_op, exec_op, checks_num_inst,
}
use iron_net.Interp.Convert.{ConvertOp, conv_i32_u32, exec_convert, to_masked, to_narrowed}
use iron_net.Interp.Objects.{
  VectorOp, FieldOp, ObjectOp, load_vector_len, loadfield, exec_vector, exec_field, exec_object,
  element_size, element_value, store_value, store_field, load_field, store_static_field, box_o,
  new_object, box_word,
}
use iron_net.Interp.Relation.{IsStackRelation, Keeps, keeps_rules}

module _ {R : Context → Machine → Machine → Type 0} (r : IsStackRelation R) where
  exec_stack-Keeps : (op : StackOp) → Keeps R (exec_stack op)
  unfolding exec_stack
  exec_stack-Keeps nop = search keeps_rules depth 12
  exec_stack-Keeps _ = search keeps_rules depth 12

  param_local-Keeps : (ofs : ℕ) → Keeps R (param_local ofs)
  unfolding param_local
  param_local-Keeps ofs = record { at = λ c m. r.same c m }

  push_valuetype-Keeps : (p n k : ℕ) → Keeps R (push_valuetype p n k)
  unfolding push_valuetype
  push_valuetype-Keeps p n k = search keeps_rules depth 12

  pop_valuetype-Keeps : (p n k : ℕ) → Keeps R (pop_valuetype p n k)
  unfolding pop_valuetype
  pop_valuetype-Keeps p n k = search keeps_rules depth 12

  load_local-Keeps : (n ofs : ℕ) → Keeps R (load_local n ofs)
  unfolding load_local
  load_local-Keeps n ofs = search (keeps_rules, param_local-Keeps) depth 12

  store_local-Keeps : (n ofs : ℕ) → Keeps R (store_local n ofs)
  unfolding store_local
  store_local-Keeps n ofs = search (keeps_rules, param_local-Keeps) depth 12

  ruleset local_rules = (
    keeps_rules, param_local-Keeps, push_valuetype-Keeps, pop_valuetype-Keeps, load_local-Keeps,
    store_local-Keeps,
  )

  exec_local-Keeps : (op : LocalOp) → Keeps R (exec_local op)
  unfolding exec_local
  exec_local-Keeps load_paramlocal_addr = search (keeps_rules, param_local-Keeps) depth 12
  exec_local-Keeps _ = search local_rules depth 12

  store_indirect-Keeps : (n : ℕ) → Keeps R (store_indirect n)
  unfolding store_indirect
  store_indirect-Keeps n = search keeps_rules depth 12

  load_indirect-Keeps : (n : ℕ) → Keeps R (load_indirect n)
  unfolding load_indirect
  load_indirect-Keeps n = search keeps_rules depth 12

  exec_indirect-Keeps : (op : IndirectOp) → Keeps R (exec_indirect op)
  unfolding exec_indirect
  exec_indirect-Keeps store_object_valuetype = search (keeps_rules, pop_valuetype-Keeps) depth 12
  exec_indirect-Keeps _ = search (keeps_rules, load_indirect-Keeps, store_indirect-Keeps) depth 12

  binary_op-Keeps : (b : Binary) → Keeps R (binary_op b)
  unfolding binary_op
  binary_op-Keeps b = search keeps_rules depth 12

  unary_in_place-Keeps : (n : ℕ) (op : ℕ → ℕ) → Keeps R (unary_in_place n op)
  unfolding unary_in_place
  unary_in_place-Keeps n op = search keeps_rules depth 12

  exec_unary-Keeps : (op : UnaryOp) → Keeps R (exec_unary op)
  unfolding exec_unary
  exec_unary-Keeps neg_i32 = search (keeps_rules, unary_in_place-Keeps) depth 12
  exec_unary-Keeps _ = search (keeps_rules, unary_in_place-Keeps) depth 12

  checked_signed-Keeps : (z : ℤ) → Keeps R (checked_signed z)
  unfolding checked_signed
  checked_signed-Keeps z = search keeps_rules depth 12

  checked_unsigned-Keeps : (n : ℕ) → Keeps R (checked_unsigned n)
  unfolding checked_unsigned
  checked_unsigned-Keeps n = search keeps_rules depth 12

  exec_overflow-Keeps : (op : OverflowOp) → Keeps R (exec_overflow op)
  unfolding exec_overflow
  exec_overflow-Keeps add_ovf_i32i32 = search (keeps_rules, checked_signed-Keeps) depth 12
  exec_overflow-Keeps _ =
      search (keeps_rules, checked_signed-Keeps, checked_unsigned-Keeps) depth 12

  to_masked-Keeps : (n : ℕ) (f : ℕ → Option ℕ) → Keeps R (to_masked n f)
  unfolding to_masked
  to_masked-Keeps n f = search keeps_rules depth 12

  to_narrowed-Keeps : (n : ℕ) (f : ℕ → Option ℕ) → Keeps R (to_narrowed n f)
  unfolding to_narrowed
  to_narrowed-Keeps n f = search keeps_rules depth 12

  exec_convert-Keeps : (op : ConvertOp) → Keeps R (exec_convert op)
  unfolding exec_convert
  exec_convert-Keeps conv_i32_u32 = search keeps_rules depth 12
  exec_convert-Keeps _ = search (keeps_rules, to_masked-Keeps, to_narrowed-Keeps) depth 12

  element_size-Keeps : (obj : ℕ) → Keeps R (element_size obj)
  unfolding element_size
  element_size-Keeps obj = search keeps_rules depth 12

  element_value-Keeps : (n room : ℕ) → Keeps R (element_value n room)
  unfolding element_value
  element_value-Keeps n room = search (keeps_rules, element_size-Keeps) depth 12

  store_value-Keeps : (n : ℕ) → Keeps R (store_value n)
  unfolding store_value
  store_value-Keeps n = search (keeps_rules, element_size-Keeps) depth 12

  exec_vector-Keeps : (op : VectorOp) → Keeps R (exec_vector op)
  unfolding exec_vector
  exec_vector-Keeps load_vector_len = search keeps_rules depth 12
  exec_vector-Keeps _ =
      search (keeps_rules, element_size-Keeps, element_value-Keeps, store_value-Keeps) depth 12

  store_field-Keeps : (n : ℕ) → Keeps R (store_field n)
  unfolding store_field
  store_field-Keeps n = search keeps_rules depth 12

  load_field-Keeps : (n : ℕ) → Keeps R (load_field n)
  unfolding load_field
  load_field-Keeps n = search keeps_rules depth 12

  store_static_field-Keeps : (n : ℕ) → Keeps R (store_static_field n)
  unfolding store_static_field
  store_static_field-Keeps n = search keeps_rules depth 12

  ruleset field_rules = (
    keeps_rules, push_valuetype-Keeps, pop_valuetype-Keeps, store_field-Keeps, load_field-Keeps,
    store_static_field-Keeps,
  )

  exec_field-Keeps : (op : FieldOp) → Keeps R (exec_field op)
  unfolding exec_field
  exec_field-Keeps loadfield = search field_rules depth 12
  exec_field-Keeps _ = search field_rules depth 12

  skip_word-Keeps : Keeps R (get_pc >>= λ p. set_pc (p + 1))
  unfolding ◌>>=◌ get_pc set_pc
  skip_word-Keeps = record { at = λ c m. r.operand c m }

  new_object-Keeps : (t : ℕ) → Keeps R (new_object t)
  unfolding new_object
  new_object-Keeps t = record { at = λ c m. r.memory c m (c.alloc_type t m.mem).1 }

  box_word-Keeps : (n : ℕ) → Keeps R (box_word n)
  unfolding box_word
  box_word-Keeps n = search (keeps_rules, new_object-Keeps) depth 12

  exec_object-Keeps : (op : ObjectOp) → Keeps R (exec_object op)
  unfolding exec_object
  exec_object-Keeps box_o = skip_word-Keeps
  exec_object-Keeps _ =
      search
        (keeps_rules, push_valuetype-Keeps, pop_valuetype-Keeps, new_object-Keeps, box_word-Keeps)
        depth 12

  -- The op-codes that are not jumps.
  pub exec_op-Keeps : (op : Op) → checks_num_inst op ≡ false → Keeps R (exec_op op)
  unfolding exec_op checks_num_inst
  exec_op-Keeps (stack_op op) plain = exec_stack-Keeps op
  exec_op-Keeps (local_op op) plain = exec_local-Keeps op
  exec_op-Keeps (indirect_op op) plain = exec_indirect-Keeps op
  exec_op-Keeps (jump_op op) plain = absurd (ground arith)
  exec_op-Keeps (branch_op op) plain = absurd (ground arith)
  exec_op-Keeps (compare_op op) plain = search (keeps_rules, binary_op-Keeps) depth 12
  exec_op-Keeps (arith_op op) plain = search (keeps_rules, binary_op-Keeps) depth 12
  exec_op-Keeps (unary_op op) plain = exec_unary-Keeps op
  exec_op-Keeps (overflow_op op) plain = exec_overflow-Keeps op
  exec_op-Keeps (convert_op op) plain = exec_convert-Keeps op
  exec_op-Keeps (vector_op op) plain = exec_vector-Keeps op
  exec_op-Keeps (field_op op) plain = exec_field-Keeps op
  exec_op-Keeps (object_op op) plain = exec_object-Keeps op

  -- The jumps, for a relation that the place of the next op-code does not matter to.
  module _
      (jumped : (c : Context) (m : Machine) (p : ℕ)
        → R c m (record { mem = m.mem; sp = m.sp; pc = p })) where
    set_pc-Keeps : (p : ℕ) → Keeps R (set_pc p)
    unfolding set_pc
    set_pc-Keeps p = record { at = λ c m. jumped c m p }

    get_pc-Keeps : Keeps R get_pc
    unfolding get_pc
    get_pc-Keeps = record { at = λ c m. r.same c m }

    ruleset jump_rules = (keeps_rules, set_pc-Keeps, get_pc-Keeps)

    jump_table-Keeps : (n t : ℕ) → Keeps R (jump_table n t)
    unfolding jump_table
    jump_table-Keeps n t = search jump_rules depth 12

    exec_jump-Keeps : (op : JumpOp) → Keeps R (exec_jump op)
    unfolding exec_jump
    exec_jump-Keeps switch = search (jump_rules, jump_table-Keeps) depth 12
    exec_jump-Keeps _ = search jump_rules depth 12

    exec_branch_two-Keeps : (op : BranchOp) → Keeps R (exec_branch_two op)
    unfolding exec_branch_two
    exec_branch_two-Keeps op = search jump_rules depth 12

    pub exec_any-Keeps : (op : Op) → Keeps R (exec_op op)
    unfolding exec_op checks_num_inst
    exec_any-Keeps (jump_op op) = exec_jump-Keeps op
    exec_any-Keeps (branch_op op) = exec_branch_two-Keeps op
    exec_any-Keeps op = exec_op-Keeps op refl
