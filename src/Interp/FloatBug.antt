-- ===== src/Interp/FloatBug.antt =====
-- JIT_SUB_F32F32 has the operands of JIT_SUB_F64F64: what this does on a stack of two floats.
use iron_net.Prelude.{◌+◌, ◌-◌, ◌≤◌, ◌≡◌, refl, sub_u32, arith}
use iron_net.Interp.Bytes.{load, store}
use iron_net.Interp.Machine.{
  Context, Machine, done, ◌>>=◌, get_sp, read, change, given, give, get_floats,
}
use iron_net.Interp.StackLaws.{IsPlaced, pop-fits}
use iron_net.Interp.Arith.{sub_f32f32, arith_macro, binary_op}
use iron_net.Interp.Step.{arith_op, exec_op}

-- On an evaluation stack that holds two floats and nothing else, JIT_SUB_F32F32 leaves the stack empty
-- and writes 8 bytes below its start, where the method state stands: a difference of doubles, of the
-- 8 bytes there and the 8 bytes of the two floats. It does not leave their difference on the stack.
pub sub_f32f32-below_stack :
    (c : Context) (m : Machine)
    → IsPlaced c
    → 8 ≤ c.eval_stack
    → m.sp ≡ c.eval_stack + 8
    → c.eval_stack + 8 ≤ c.params_locals
    → exec_op (arith_op sub_f32f32) c m
      ≡ done tt (record {
        mem =
            store 8 m.mem
              (c.eval_stack - 8)
              (c.floats.f64.sub (load 8 m.mem (c.eval_stack - 8)) (load 8 m.mem c.eval_stack));
        sp = c.eval_stack;
        pc = m.pc;
      })
unfolding exec_op arith_macro binary_op ◌>>=◌ get_floats get_sp read change given give
sub_f32f32-below_stack c m placed room full fits =
    let popped : m.sp - 8 ≡ c.eval_stack = omega arith in
    let below : sub_u32 c.eval_stack 8 ≡ c.eval_stack - 8 = omega (arith, placed.1) in
    let above : c.eval_stack - 8 + 8 ≡ c.eval_stack = omega arith in
    rw (pop-fits c placed 8 m (omega arith) (omega arith), popped, below, above) refl
