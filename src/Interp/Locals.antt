-- ===== src/Interp/Locals.antt =====
-- JIT_Execute.c: the op-codes that load and store parameters and locals, and those that load and
-- store through a pointer.
use iron_net.Prelude.{ℕ, ◌+◌, ◌*◌, ltb, if◌then◌else◌, u32, sub_u32}
use iron_net.SystemArray.{memcpy}
use iron_net.Interp.Machine.{
  Exec, ◌>>=◌, ◌>>◌, give, get_op, push, pop, get_sp, read, write, change, push_word, pop_word,
  get_types,
}

-- JIT_LOADPARAMLOCAL_0 to _7 and JIT_STOREPARAMLOCAL_0 to _7 have their number as an argument.
pub data LocalOp : Type 0 where
  loadparamlocal_int32 loadparamlocal_int64 loadparamlocal_valuetype : LocalOp
  loadparamlocal : ℕ → LocalOp
  load_paramlocal_addr : LocalOp
  storeparamlocal_int32 storeparamlocal_int64 storeparamlocal_valuetype : LocalOp
  storeparamlocal : ℕ → LocalOp

-- The address of a parameter or local.
unfoldable pub param_local : ℕ → Exec ℕ
unfolding give
param_local ofs c m = give (u32 (c.params_locals + ofs)) c m

-- PUSH_VALUETYPE and POP_VALUETYPE.
unfoldable pub push_valuetype : ℕ → ℕ → ℕ → Exec (Unit {0})
push_valuetype ptr value_size stack_inc = do
  p ← get_sp
  change (λ mem. memcpy mem p ptr value_size)
  push stack_inc

unfoldable pub pop_valuetype : ℕ → ℕ → ℕ → Exec (Unit {0})
pop_valuetype ptr value_size stack_dec = do
  pop stack_dec
  p ← get_sp
  change (λ mem. memcpy mem ptr p value_size)

unfoldable pub load_local : ℕ → ℕ → Exec (Unit {0})
load_local n ofs = do p ← param_local ofs; value ← read n p; push_word n value

unfoldable pub store_local : ℕ → ℕ → Exec (Unit {0})
store_local n ofs = do value ← pop_word n; p ← param_local ofs; write n p value

unfoldable pub exec_local : LocalOp → Exec (Unit {0})
exec_local loadparamlocal_int32 = do ofs ← get_op; load_local 4 ofs
exec_local loadparamlocal_int64 = do ofs ← get_op; load_local 8 ofs
exec_local loadparamlocal_valuetype = do
  ofs ← get_op
  type_def ← get_op
  types ← get_types
  mem ← param_local ofs
  push_valuetype mem (types.stack_size type_def) (types.stack_size type_def)
exec_local (loadparamlocal i) = load_local 4 (4 * i)
exec_local load_paramlocal_addr = do ofs ← get_op; mem ← param_local ofs; push_word 4 mem
exec_local storeparamlocal_int32 = do ofs ← get_op; store_local 4 ofs
exec_local storeparamlocal_int64 = do ofs ← get_op; store_local 8 ofs
exec_local storeparamlocal_valuetype = do
  ofs ← get_op
  type_def ← get_op
  types ← get_types
  mem ← param_local ofs
  pop_valuetype mem (types.stack_size type_def) (types.stack_size type_def)
exec_local (storeparamlocal i) = store_local 4 (4 * i)

pub data IndirectOp : Type 0 where
  loadindirect_u32 loadindirect_i64 storeindirect_u32 storeindirect_u64 : IndirectOp
  store_object_valuetype : IndirectOp

-- JIT_STOREINDIRECT_*: the value is popped, and then the address.
unfoldable pub store_indirect : ℕ → Exec (Unit {0})
store_indirect n = do value ← pop_word n; mem ← pop_word 4; write n mem value

unfoldable pub load_indirect : ℕ → Exec (Unit {0})
load_indirect n = do mem ← pop_word 4; value ← read n mem; push_word n value

-- The loads and stores of 1, 2 and 4 bytes, and of references, are one piece of code.
unfoldable pub exec_indirect : IndirectOp → Exec (Unit {0})
exec_indirect loadindirect_u32 = load_indirect 4
exec_indirect loadindirect_i64 = load_indirect 8
exec_indirect storeindirect_u32 = store_indirect 4
exec_indirect storeindirect_u64 = store_indirect 8
exec_indirect store_object_valuetype = do
  size ← get_op
  let mem_size = if ltb size 4 then 4 else size
  p ← get_sp
  mem ← read 4 (sub_u32 (sub_u32 p mem_size) 4)
  pop_valuetype mem size mem_size
  pop 4
