-- ===== src/Interp/Examples.antt =====
-- Runs of the interpreter on small pieces of code.
use iron_net.Prelude.{
  ℕ, ◌+◌, ◌≡◌, refl, false, ltb, leb, ◌==◌, List, [], ◌∷◌, some, arith, ◌-◌, ◌^◌, if◌then◌else◌,
}
use iron_net.Interp.Machine.{
  Types, FloatOps, Context, Machine, done, get_op, push, pop, push_word, pop_word, get_sp, set_pc,
  read, change, give, given, get_floats, ◌>>=◌,
}
use iron_net.Interp.Bytes.{store, set_byte, load}
use iron_net.Interp.Run.{Result, running, run, dispatch, select, go_next}
use iron_net.Interp.Codes.{decode}
use iron_net.Interp.Step.{exec_op, stack_op, arith_op, checks_num_inst}
use iron_net.Interp.StackOps.{exec_stack, load_i4_1, load_i4_2}
use iron_net.Interp.Branches.{exec_jump}
use iron_net.Interp.Arith.{
  add_i32i32, sub_i32i32, arith_macro, sub_ovf_i32i32, exec_overflow, sub_f32f32, binary_op,
}
use iron_net.Interp.Bounds.{ResultHas, Inside, run-Inside}
use iron_net.Interp.Termination.{is_out_of_fuel, run-returns}
use iron_net.Interp.Overflow.{exec_overflow-exact}
use iron_net.Interp.Ints.{signed, word}
use iron_net.Interp.Words.{Reaches}
use iron_net.Interp.Words.Steps.{exec_op-Reaches}
use iron_net.Interp.Typing.{Safe, exec_all}
use iron_net.Interp.Typing.Sound.{check_depth_sound}
use iron_net.Interp.FloatBug.{sub_f32f32-below_stack}

abbrev no_types : Types
no_types = record {
  stack_size = λ t. 4;
  array_element_type = λ t. t;
  array_element_size = λ t. 4;
  instance_mem_size = λ t. 4;
  mem_offset = λ t. 0;
  mem_size = λ t. 4;
  p_memory = λ t. 0;
  get_type = λ t. t;
}

-- Floats as natural numbers.
abbrev whole_floats : FloatOps
whole_floats = record {
  eq = λ a b. a == b;
  lt = ltb;
  le = leb;
  add = λ a b. a + b;
  sub = λ a b. a;
  mul = λ a b. a;
  div = λ a b. a;
  neg = λ a. a;
  of_i32 = λ a. a;
  of_u32 = λ a. a;
  of_i64 = λ a. a;
  of_u64 = λ a. a;
  to_i32 = some;
  to_u32 = some;
  to_i64 = some;
  to_u64 = some;
}

-- LOAD_I4_2; LOAD_I4_1; ADD_I32I32; POP_4; BRANCH 0.
abbrev loop_code : List ℕ
loop_code = 314 ∷ 313 ∷ 128 ∷ 46 ∷ 3 ∷ 0 ∷ []

abbrev frame : Context
frame = record {
  eval_stack = 100;
  params_locals = 116;
  ops = loop_code;
  types = no_types;
  floats = record { f32 = whole_floats; f64 = whole_floats; to_double = λ a. a; to_float = λ a. a };
  alloc_type = λ t mem. (0, mem);
}

abbrev start : Machine
start = record { mem = λ a. 0; sp = 100; pc = 0 }

-- Two words on the stack: 5, and 7 at the top.
abbrev five_seven : Machine
five_seven = record { mem = store 4 (store 4 (λ a. 0) 100 5) 104 7; sp = 108; pc = 0 }

run-Inside_example : ResultHas (Inside frame) (run 20 frame 2 start)
run-Inside_example = run-Inside 20 frame 2 start (omega arith, omega arith)

run-returns_example : is_out_of_fuel (run 14 frame 2 start) ≡ false
run-returns_example = run-returns 14 frame 2 start (omega arith) (omega arith)

-- The words 5 and 7, byte by byte.
abbrev low_bytes : Machine
low_bytes = record {
  mem = λ a. if a == 100 then 5 else (if a == 104 then 7 else 0);
  sp = 108;
  pc = 0;
}

-- 5 - 7 is -2.
exec_overflow-exact_example :
    exec_overflow sub_ovf_i32i32 frame low_bytes
    ≡ push_word 4 (2 ^ 32 - 2) frame (record { mem = low_bytes.mem; sp = 100; pc = 0 })
unfolding load signed word
exec_overflow-exact_example = exec_overflow-exact sub_ovf_i32i32 frame low_bytes (λ a. ground arith)

-- 5 - 7 on words.
exec_op-Reaches_example :
    Reaches frame five_seven ((2 ^ 32 - 2) ∷ []) (exec_op (arith_op sub_i32i32) frame five_seven)
unfolding store set_byte load
exec_op-Reaches_example =
    exec_op-Reaches frame (omega arith, omega arith) five_seven (arith_op sub_i32i32) (7 ∷ (5 ∷ []))
      ((2 ^ 32 - 2) ∷ []) refl (omega arith) (refl, (refl, omega arith, (refl, omega arith, tt)))
      (omega arith)

sub_f32f32-below_stack_example :
    exec_op (arith_op sub_f32f32) frame five_seven
    ≡ done tt (record {
      mem =
          store 8 five_seven.mem 92
            (frame.floats.f64.sub (load 8 five_seven.mem 92) (load 8 five_seven.mem 100));
      sp = 100;
      pc = 0;
    })
sub_f32f32-below_stack_example =
    sub_f32f32-below_stack frame five_seven (omega arith, omega arith) (omega arith) refl
      (omega arith)

-- The loop runs twice, and stops at its start with an empty stack.
abbrev final_sp : Result → ℕ
final_sp (running m) = m.sp
final_sp _ = 0

run_loop : final_sp (run 20 frame 2 start) ≡ 100
unfolding run dispatch select go_next decode exec_op exec_stack exec_jump arith_macro binary_op
    checks_num_inst get_op push pop push_word pop_word get_sp set_pc read change give given
    get_floats ◌>>=◌ load store set_byte
run_loop = refl

check_depth_sound_example :
    Safe
      (λ m'. m'.sp ≡ 104)
      (exec_all (stack_op load_i4_2 ∷ stack_op load_i4_1 ∷ arith_op add_i32i32 ∷ []) frame start)
unfolding arith_macro
check_depth_sound_example =
    check_depth_sound frame (stack_op load_i4_2 ∷ stack_op load_i4_1 ∷ arith_op add_i32i32 ∷ [])
      start 0 4 (omega arith, omega arith) refl refl (omega arith)
