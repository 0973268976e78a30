-- ===== src/Jit/Translate.antt =====
-- JIT.c, JITit as a whole: the switch on the op-code, the loop over the code, and the replacement of the
-- targets. The loop runs on fuel: the size of the code is enough, for each round reads a byte at least.
use iron_net.Prelude.{
  ℕ, zero, suc, true, false, ltb, leb, ◌==◌, ◌&&◌, ◌||◌, if◌then◌else◌, Option, none, some, List,
  [], ◌∷◌, length, get_elem?,
}
use iron_net.Jit.{
  Method, Jit, Step, ◌>>=◌, ◌>>◌, Outcome, made, crashed, not_modelled, give, crash, other_op,
  push_op, next_byte, next_u16, set_at,
}
use iron_net.Jit.Types.{JitType}
use iron_net.Jit.Loads.{
  jit_ldnull, jit_dup, jit_pop, jit_ldc_i4, jit_ldc_i8, jit_ldc_r4, jit_ldc_r8, jit_arg_local,
  jit_ldind, jit_stind, jit_load_local, jit_store_local,
}
use iron_net.Jit.Branches.{jit_ret, jit_endfinally, jit_throw, jit_leave, jit_branch}
use iron_net.Jit.Arith.{jit_arith, jit_unary, jit_shift, jit_compare, is_checked}
use iron_net.Jit.Convert.{is_among, jit_conv}
use iron_net.Jit.Elements.{
  jit_ldstr, jit_ldlen, jit_ldelema, jit_ldelem, jit_stelem, jit_stelem_any,
}

-- The op-codes behind CIL_EXTENDED. Not modelled are CILX_LOADFUNCTION, CILX_LOADVIRTFN, CILX_INITOBJ and
-- CILX_CONSTRAINED.
unfoldable pub jit_extended : ℕ → Step (Unit {0})
jit_extended op =
    if leb 0x1 op && leb op 0x5
    then jit_compare op
    else (if op == 0xc
        then (do n ← next_u16; jit_load_local n)
        else (if op == 0xe
            then (do n ← next_u16; jit_store_local n)
            else (if op == 0x1a
                then push_op 0x1c
                else (if (op == 0x13) || (op == 0x1e)
                    then give tt
                    else (if op == 0x14
                        then push_op 0x166
                        else (if is_among op (0x6 ∷ 0x7 ∷ 0x15 ∷ 0x16 ∷ [])
                            then other_op
                            else crash))))))

-- The op-codes below CIL_ADD. Not modelled is CIL_CALL.
unfoldable pub jit_low : ℕ → Step (Unit {0})
jit_low op =
    if op == 0x0
    then push_op 0x0
    else (if leb 0x2 op && leb op 0x13
        then jit_arg_local op
        else (if op == 0x14
            then jit_ldnull
            else (if leb 0x15 op && leb op 0x20
                then jit_ldc_i4 op
                else (if op == 0x21
                    then jit_ldc_i8
                    else (if op == 0x22
                        then jit_ldc_r4
                        else (if op == 0x23
                            then jit_ldc_r8
                            else (if op == 0x25
                                then jit_dup
                                else (if op == 0x26
                                    then jit_pop
                                    else (if op == 0x2a
                                        then jit_ret
                                        else (if leb 0x2b op && leb op 0x45
                                            then jit_branch op
                                            else (if leb 0x46 op && leb op 0x50
                                                then jit_ldind op
                                                else (if leb 0x51 op && leb op 0x57
                                                    then jit_stind op
                                                    else (if op == 0x28
                                                        then other_op
                                                        else crash)))))))))))))

-- The op-codes from CIL_ADD on that look names up in the metadata: CIL_CALLVIRT, CIL_LDOBJ, CIL_NEWOBJ,
-- CIL_CASTCLASS, CIL_ISINST, CIL_LDFLD to CIL_STOBJ, CIL_BOX, CIL_NEWARR, CIL_LDELEM_ANY, CIL_UNBOX_ANY and
-- CIL_LDTOKEN.
abbrev pub metadata_ops : List ℕ
metadata_ops =
    0x6f ∷ 0x71 ∷ 0x73 ∷ 0x74 ∷ 0x75 ∷ 0x7b ∷ 0x7c ∷ 0x7d ∷ 0x7e ∷ 0x7f ∷ 0x80 ∷ 0x81 ∷ 0x8c ∷ 0x8d
    ∷ 0xa3 ∷ 0xa5 ∷ 0xd0 ∷ []

-- The op-codes from CIL_ADD on; the conversions are those that are left.
unfoldable pub jit_high : ℕ → Step (Unit {0})
jit_high op =
    if leb op 0x61 || is_checked op
    then jit_arith op
    else (if leb op 0x64
        then jit_shift op
        else (if leb op 0x66
            then jit_unary op
            else (if op == 0x72
                then jit_ldstr
                else (if op == 0x7a
                    then jit_throw
                    else (if op == 0x8e
                        then jit_ldlen
                        else (if op == 0x8f
                            then jit_ldelema
                            else (if leb 0x90 op && leb op 0x9a
                                then jit_ldelem op
                                else (if leb 0x9c op && leb op 0xa2
                                    then jit_stelem op
                                    else (if op == 0xa4
                                        then jit_stelem_any
                                        else (if op == 0xdc
                                            then jit_endfinally
                                            else (if op == 0xdd
                                                then jit_leave false
                                                else (if op == 0xde
                                                    then jit_leave true
                                                    else (if op == 0xfe
                                                        then (do x ← next_byte; jit_extended x)
                                                        else (if is_among op metadata_ops
                                                            then other_op
                                                            else jit_conv op))))))))))))))

-- One instruction, behind its op-code.
unfoldable pub jit_instruction : ℕ → Step (Unit {0})
jit_instruction op = if ltb op 0x58 then jit_low op else jit_high op

-- pJITOffsets[cilOfs] = ops.ofs.
unfoldable pub note_offset : Step (Unit {0})
note_offset c j =
    made (tt, record j { jit_offsets = set_at j.jit_offsets j.cil_ofs (length j.ops) })

unfoldable pub jit_round : Step (Unit {0})
jit_round = do note_offset; op ← next_byte; jit_instruction op

-- The do loop. Where the fuel runs out, what it does is not modelled.
unfoldable pub jit_loop : ℕ → Step (Unit {0})
jit_loop zero c j = not_modelled
jit_loop (suc fuel) c j = elim (jit_round c j) [
  | crashed ↦ crashed
  | not_modelled ↦ not_modelled
  | made (_, j') ↦ elim (ltb j'.cil_ofs c.code_size) [
    | true ↦ jit_loop fuel c j'
    | false ↦ made (tt, j')
  ]
]

abbrev pub set : List ℕ → ℕ → ℕ → List ℕ
set [] i v = []
set (x ∷ xs) zero v = v ∷ xs
set (x ∷ xs) (suc i) v = x ∷ set xs i v

-- The loop that applies the branch offset fixes.
unfoldable pub fix_branches : Method → (ℕ → ℕ) → List ℕ → List ℕ → Option (List ℕ)
fix_branches c jit_offsets [] ops = some ops
fix_branches c jit_offsets (ofs ∷ rest) ops = elim (get_elem? ops ofs) [
  | none ↦ none
  | some target ↦
      if ltb target c.code_size
      then fix_branches c jit_offsets rest (set ops ofs (jit_offsets target))
      else none
]

-- The type stacks at the handlers of catch clauses.
unfoldable pub handler_stacks :
    List (ℕ × JitType) → (ℕ → Option (List JitType)) → ℕ → Option (List JitType)
handler_stacks [] stacks = stacks
handler_stacks ((handler_start, t) ∷ rest) stacks =
    handler_stacks rest (set_at stacks handler_start (some (t ∷ [])))

-- What JITit starts with; `unset` is what TMALLOC leaves in pJITOffsets.
unfoldable pub jit_start : List (ℕ × JitType) → (ℕ → ℕ) → Jit
jit_start handlers unset = record {
  ops = [];
  branch_offsets = [];
  jit_offsets = unset;
  type_stacks = handler_stacks handlers (λ k. none);
  type_stack = [];
  max_bytes = 0;
  cil_ofs = 0;
}

-- JITit: the op-codes, and maxStack, the bytes that the evaluation stack needs.
unfoldable pub jit_it : Method → List (ℕ × JitType) → (ℕ → ℕ) → Outcome (List ℕ × ℕ)
jit_it c handlers unset = elim (jit_loop (suc c.code_size) c (jit_start handlers unset)) [
  | crashed ↦ crashed
  | not_modelled ↦ not_modelled
  | made (_, j) ↦ elim (fix_branches c j.jit_offsets j.branch_offsets j.ops) [
    | none ↦ crashed
    | some ops ↦ made (ops, j.max_bytes)
  ]
]
