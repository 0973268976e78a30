-- ===== src/Interp/Typing.antt =====
-- A checker of the depth of the evaluation stack, and the soundness of it: code that it accepts never
-- runs into the abort() of PUSH and POP.
mod Steps
pub mod Sound
use iron_net.Prelude.{
  ℕ, zero, suc, ◌+◌, ◌-◌, ◌*◌, ◌^◌, ◌%◌, ◌≤◌, ◌<◌, ◌≡◌, ◌≢◌, refl, ap, sym, ◌∙◌, Bool, true, false,
  ◌&&◌, ◌||◌, leb, ltb, not, if◌then◌else◌, List, [], ◌∷◌, Option, none, some, Bool-cases,
  Option-cases, inl, inr, arith, sub_u32, Memory,
}
use mathlib.Core.Option.{some-injective, none-ne-some}
use mathlib.Core.Path.{subst}
use iron_net.Interp.Bytes.{load, store}
use iron_net.Interp.Machine.{
  Context, Machine, Floats, Outcome, done, thrown, aborted, undefined, Exec, ◌>>=◌, ◌>>◌, and_then,
  give, given, throw, no_meaning, pop, push_word, get_sp, read, change, get_floats,
}
use iron_net.Interp.Ints.{ℤ, pos, negsuc, ltb_ℤ, word}
use iron_net.Interp.StackLaws.{IsPlaced, with_sp, push-fits, pop-fits, push_word-fits}
use iron_net.Interp.StackOps.{
  StackOp, nop, tailcall_prefix, load_null, dup_4, dup_8, dup_general, pop_general, pop_4, load_i32,
  load_i4_m1, load_i4_0, load_i4_1, load_i4_2, load_i64, exec_stack,
}
use iron_net.Interp.Branches.{pop_two}
use iron_net.Interp.Arith.{
  Binary, CompareOp, ArithOp, OverflowOp, compare_macro, arith_macro, binary_op, exec_overflow,
  checked_signed, checked_unsigned, add_ovf_i32i32, add_ovf_un_i32i32, mul_ovf_i32i32,
  mul_ovf_un_i32i32, sub_ovf_i32i32, sub_ovf_un_i32i32,
}
use iron_net.Interp.Step.{Op, stack_op, compare_op, arith_op, overflow_op, exec_op}

-- The bytes that an op-code takes from the stack and those that it leaves there, for the op-codes
-- without operands that move the stack pointer and are checked here.
abbrev pub binary_effect : Binary → Option (ℕ × ℕ)
binary_effect b =
    if leb b.result_size (b.left_size + b.right_size)
    then some (b.left_size + b.right_size, b.result_size)
    else none

abbrev pub effect : Floats → Op → Option (ℕ × ℕ)
effect fl (stack_op nop) = some (0, 0)
effect fl (stack_op load_null) = some (0, 4)
effect fl (stack_op pop_4) = some (4, 0)
effect fl (stack_op dup_4) = some (4, 8)
effect fl (stack_op dup_8) = some (8, 16)
effect fl (stack_op load_i4_m1) = some (0, 4)
effect fl (stack_op load_i4_0) = some (0, 4)
effect fl (stack_op load_i4_1) = some (0, 4)
effect fl (stack_op load_i4_2) = some (0, 4)
effect fl (compare_op op) = binary_effect (compare_macro fl op)
effect fl (arith_op op) = binary_effect (arith_macro fl op)
effect fl (overflow_op op) = some (8, 4)
effect fl op = none

-- The depth after a list of op-codes, from depth d, on a stack of `room` bytes.
abbrev pub check_depth : Floats → ℕ → List Op → ℕ → Option ℕ
check_depth fl room [] d = some d
check_depth fl room (op ∷ ops) d = elim (effect fl op) [
  | none ↦ none
  | some (a, b) ↦
      if leb a d && leb (d - a + b) room then check_depth fl room ops (d - a + b) else none
]

abbrev pub exec_all : List Op → Exec (Unit {0})
exec_all [] = give tt
exec_all (op ∷ ops) = exec_op op >> exec_all ops

-- No abort, and P where the code comes to its end.
abbrev pub Safe : {A : Type 0} → (Machine → Type 0) → Outcome A → Type 0
Safe P (done x m) = P m
Safe P (thrown e m) = Unit
Safe P aborted = ⊥
Safe P undefined = Unit

pub Safe-and_then :
    {A B : Type 0} (P Q : Machine → Type 0) (o : Outcome A) (f : A → Machine → Outcome B)
    → Safe P o
    → ((a : A) (m : Machine) → P m → Safe Q (f a m))
    → Safe Q (and_then o f)
Safe-and_then P Q (done a m) f h next = next a m h
Safe-and_then P Q (thrown e m) f h next = tt
Safe-and_then P Q aborted f h next = absurd h
Safe-and_then P Q undefined f h next = tt
