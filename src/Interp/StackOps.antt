-- ===== src/Interp/StackOps.antt =====
-- JIT_Execute.c: the op-codes that only move values on the evaluation stack, and the
-- constants.
use iron_net.Prelude.{ℕ, ◌+◌, ◌-◌, ◌*◌, ◌^◌, sub_u32}
use iron_net.SystemArray.{memcpy}
use iron_net.Interp.Machine.{
  Exec, ◌>>=◌, ◌>>◌, give, get_op, push, pop, get_sp, read, change, push_word,
}

-- JIT_TAILCALL_PREFIX only makes the call behind it look at the op-code before.
pub data StackOp : Type 0 where
  nop tailcall_prefix load_null dup_4 dup_8 dup_general pop_general pop_4 : StackOp
  load_i32 load_i4_m1 load_i4_0 load_i4_1 load_i4_2 load_i64 : StackOp

-- DUP4 and DUP8 read the top before they push it; DUP copies any number of bytes.
abbrev pub dup_word : ℕ → Exec (Unit {0})
dup_word n = do p ← get_sp; v ← read n (sub_u32 p n); push_word n v

unfoldable pub exec_stack : StackOp → Exec (Unit {0})
exec_stack nop = give tt
exec_stack tailcall_prefix = give tt
exec_stack load_null = push_word 4 0
exec_stack dup_4 = dup_word 4
exec_stack dup_8 = dup_word 8
exec_stack dup_general = do
  dup_size ← get_op
  p ← get_sp
  change (λ mem. memcpy mem p (sub_u32 p dup_size) dup_size)
  push dup_size
exec_stack pop_general = do pop_size ← get_op; pop pop_size
exec_stack pop_4 = pop 4
exec_stack load_i32 = do value ← get_op; push_word 4 value
exec_stack load_i4_m1 = push_word 4 (2 ^ 32 - 1)
exec_stack load_i4_0 = push_word 4 0
exec_stack load_i4_1 = push_word 4 1
exec_stack load_i4_2 = push_word 4 2
exec_stack load_i64 = do low ← get_op; high ← get_op; push_word 8 (low + 2 ^ 32 * high)
