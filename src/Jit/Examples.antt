-- ===== src/Jit/Examples.antt =====
-- Three methods: one that adds 1 to itself, one with a jump, and one with a catch clause that drops its exception.
use iron_net.Prelude.{
  ℕ, ◌≤◌, ◌≡◌, refl, false, none, some, List, [], ◌∷◌, Memory, get_u32, arith, get_elem?,
}
use mathlib.Core.List.{Memᴰ}
use iron_net.Interp.Codes.{decode}
use iron_net.Interp.Arith.{add_i32i32}
use iron_net.Interp.Branches.{beq_i32i32}
use iron_net.Interp.Step.{arith_op, branch_op}
use iron_net.Jit.Types.{system_int32, system_object, evalstack_int32}
use iron_net.Jit.Loop.{done, round}
use iron_net.Jit.Whole.{Rounds-covered}
use iron_net.Jit.Select.{jit_arith-selects, jit_br_cond-selects}
use iron_net.Jit.{
  Outcome, made, Method, Jit, set_at, stack_bytes, ◌>>=◌, ◌>>◌, give, crash, given, push_u32,
  push_op, push_target, push_type, pop_type, next_byte, next_u32, target_of, may_copy_type_stack,
  restore_type_stack,
}
use iron_net.Jit.Loads.{load_i4, jit_dup, jit_pop, jit_ldc_i4}
use iron_net.Jit.Branches.{
  jit_br_cond, relative_jump, jit_ret, jit_br, jit_leave, jit_branch, group_of,
}
use iron_net.Jit.Arith.{select_arith, jit_arith}
use iron_net.Jit.Translate.{
  jit_low, jit_high, jit_instruction, note_offset, jit_round, jit_loop, fix_branches,
  handler_stacks, jit_start, jit_it,
}

abbrev byte : List ℕ → Memory
byte bytes k = elim (get_elem? bytes k) [ none ↦ 0 | some b ↦ b ]

abbrev method : List ℕ → ℕ → Method
method bytes size = record {
  cil = byte bytes;
  code_size = size;
  params = [];
  parameter_stack_size = 0;
  locals = [];
  max_stack = 2;
}

-- ldc.i4.1, dup, add, ret.
abbrev doubled : Method
doubled = method (0x17 ∷ 0x25 ∷ 0x58 ∷ 0x2a ∷ []) 4

-- br.s to the ret behind it.
abbrev jumping : Method
jumping = method (0x2b ∷ 0x0 ∷ 0x2a ∷ []) 3

-- leave.s behind the clause; the clause is pop and leave.s; then ret.
abbrev catching : Method
catching = method (0xde ∷ 0x3 ∷ 0x26 ∷ 0xde ∷ 0x0 ∷ 0x2a ∷ []) 6

doubled_code : jit_it doubled [] (λ _. 0) ≡ made (0x139 ∷ 0x2b ∷ 0x80 ∷ 0x1 ∷ [], 8)
unfolding ◌>>=◌ ◌>>◌ give crash given push_u32 push_op push_target push_type pop_type next_byte
    next_u32 target_of may_copy_type_stack restore_type_stack load_i4 jit_dup jit_pop jit_ldc_i4
    relative_jump jit_ret jit_br jit_leave jit_branch group_of select_arith jit_arith jit_low
    jit_high jit_instruction note_offset jit_round jit_loop fix_branches handler_stacks jit_start
    jit_it
doubled_code = refl

jumping_code : jit_it jumping [] (λ _. 0) ≡ made (0x3 ∷ 0x2 ∷ 0x1 ∷ [], 0)
unfolding ◌>>=◌ ◌>>◌ give crash given push_u32 push_op push_target push_type pop_type next_byte
    next_u32 target_of may_copy_type_stack restore_type_stack load_i4 jit_dup jit_pop jit_ldc_i4
    relative_jump jit_ret jit_br jit_leave jit_branch group_of select_arith jit_arith jit_low
    jit_high jit_instruction note_offset jit_round jit_loop fix_branches handler_stacks jit_start
    jit_it
jumping_code = refl

-- The exception takes 4 bytes of an evaluation stack that gets none.
catching_code :
    jit_it catching ((2, system_object) ∷ []) (λ _. 0)
    ≡ made (0x19 ∷ 0x5 ∷ 0x2e ∷ 0x19 ∷ 0x5 ∷ 0x1 ∷ [], 0)
unfolding ◌>>=◌ ◌>>◌ give crash given push_u32 push_op push_target push_type pop_type next_byte
    next_u32 target_of may_copy_type_stack restore_type_stack load_i4 jit_dup jit_pop jit_ldc_i4
    relative_jump jit_ret jit_br jit_leave jit_branch group_of select_arith jit_arith jit_low
    jit_high jit_instruction note_offset jit_round jit_loop fix_branches handler_stacks jit_start
    jit_it
catching_code = refl

abbrev state_of : Outcome (Unit {0} × Jit) → Jit → Jit
state_of (made (u, j)) i = j
state_of _ j = j

abbrev at_start : Jit
at_start = jit_start [] (λ _. 0)

abbrev behind_ldc : Jit
behind_ldc = state_of (jit_round doubled at_start) at_start

abbrev behind_dup : Jit
behind_dup = state_of (jit_round doubled behind_ldc) at_start

first_round : jit_round doubled at_start ≡ made (tt, behind_ldc)
unfolding ◌>>=◌ ◌>>◌ give crash given push_u32 push_op push_target push_type pop_type next_byte
    next_u32 target_of may_copy_type_stack restore_type_stack load_i4 jit_dup jit_pop jit_ldc_i4
    relative_jump jit_ret jit_br jit_leave jit_branch group_of select_arith jit_arith jit_low
    jit_high jit_instruction note_offset jit_round jit_loop fix_branches handler_stacks jit_start
    jit_it
first_round = refl

second_round : jit_round doubled behind_ldc ≡ made (tt, behind_dup)
unfolding ◌>>=◌ ◌>>◌ give crash given push_u32 push_op push_target push_type pop_type next_byte
    next_u32 target_of may_copy_type_stack restore_type_stack load_i4 jit_dup jit_pop jit_ldc_i4
    relative_jump jit_ret jit_br jit_leave jit_branch group_of select_arith jit_arith jit_low
    jit_high jit_instruction note_offset jit_round jit_loop fix_branches handler_stacks jit_start
    jit_it
second_round = refl

Rounds-covered_example : stack_bytes behind_ldc.type_stack ≤ behind_dup.max_bytes
Rounds-covered_example =
    Rounds-covered doubled (λ _. 0) behind_ldc behind_dup
      (round tt at_start behind_ldc done first_round)
      (round tt behind_ldc behind_dup done second_round)

-- Two I32 on the type stack.
abbrev two_ints : Jit
two_ints = record {
  ops = 0x139 ∷ 0x2b ∷ [];
  branch_offsets = [];
  jit_offsets = λ k. k;
  type_stacks = λ k. none;
  type_stack = system_int32 ∷ system_int32 ∷ [];
  max_bytes = 8;
  cil_ofs = 3;
}

jit_arith-selects_example :
    (n : ℕ) × (decode n ≡ some (arith_op add_i32i32))
    × (jit_arith 0x58 doubled two_ints
        ≡ made
            (tt, record two_ints { ops = 0x139 ∷ 0x2b ∷ n ∷ []; type_stack = system_int32 ∷ [] }))
jit_arith-selects_example =
    jit_arith-selects 0x58 evalstack_int32 (arith_op add_i32i32) system_int32 system_int32 []
      doubled two_ints (Memᴰ.head refl)
      (record { stack = refl; left = refl; right = refl; room = omega arith; bytes = omega arith })

-- A beq behind 3 bytes, to the end of the code.
abbrev comparing : Method
comparing = method (0x17 ∷ 0x25 ∷ 0x3b ∷ 0x1 ∷ 0x0 ∷ 0x0 ∷ 0x0 ∷ 0x0 ∷ 0x2a ∷ []) 9

jit_br_cond-selects_example :
    (n : ℕ) × (decode n ≡ some (branch_op beq_i32i32))
    × (jit_br_cond false 0 comparing two_ints
        ≡ made (
          tt,
          record two_ints {
            ops = 0x139 ∷ 0x2b ∷ n ∷ 8 ∷ [];
            branch_offsets = 3 ∷ [];
            cil_ofs = 7;
            type_stack = [];
            type_stacks = set_at two_ints.type_stacks 8 (some []);
          },
        ))
unfolding get_u32
jit_br_cond-selects_example =
    jit_br_cond-selects false 0 evalstack_int32 (branch_op beq_i32i32) system_int32 system_int32 []
      comparing two_ints 8 (Memᴰ.head refl) refl refl refl refl (omega arith)
