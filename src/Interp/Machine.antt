-- ===== src/Interp/Machine.antt =====
-- The state of JIT_Execute while it runs one method state, and the macros with which the op-codes
-- read their operands and move the evaluation stack. The machine is the 32-bit one that the op-codes
-- are written for: a U32 of the code may hold a pointer.
use iron_net.Prelude.{
  ℕ, ◌+◌, List, Option, none, some, Bool, ◌||◌, ltb, if◌then◌else◌, get_elem?, u32, sub_u32, Memory,
}
use iron_net.Interp.Bytes.{load, store}

-- What the op-codes read of the metadata: the fields of the tMD_TypeDef or tMD_FieldDef at an
-- address, and Heap_GetType of an object.
pub record Types : Type 0 where
  pub stack_size : ℕ → ℕ
  pub array_element_type : ℕ → ℕ
  pub array_element_size : ℕ → ℕ
  pub instance_mem_size : ℕ → ℕ
  pub mem_offset : ℕ → ℕ
  pub mem_size : ℕ → ℕ
  pub p_memory : ℕ → ℕ
  pub get_type : ℕ → ℕ

-- What the compiler and the processor do with a float or a double, on bit patterns; a conversion to an
-- integer has no meaning out of its range.
pub record FloatOps : Type 0 where
  pub eq : ℕ → ℕ → Bool
  pub lt : ℕ → ℕ → Bool
  pub le : ℕ → ℕ → Bool
  pub add : ℕ → ℕ → ℕ
  pub sub : ℕ → ℕ → ℕ
  pub mul : ℕ → ℕ → ℕ
  pub div : ℕ → ℕ → ℕ
  pub neg : ℕ → ℕ
  pub of_i32 : ℕ → ℕ
  pub of_u32 : ℕ → ℕ
  pub of_i64 : ℕ → ℕ
  pub of_u64 : ℕ → ℕ
  pub to_i32 : ℕ → Option ℕ
  pub to_u32 : ℕ → Option ℕ
  pub to_i64 : ℕ → Option ℕ
  pub to_u64 : ℕ → Option ℕ

pub record Floats : Type 0 where
  pub f32 : FloatOps
  pub f64 : FloatOps
  pub to_double : ℕ → ℕ
  pub to_float : ℕ → ℕ

-- EVAL_STACK_PTR, pParamsLocals, the words at pOps, the metadata, the
-- floating-point operations, and Heap_AllocType: the object of a type, and the memory with it, after
-- a collection that it may make.
pub record Context : Type 0 where
  pub eval_stack : ℕ
  pub params_locals : ℕ
  pub ops : List ℕ
  pub types : Types
  pub floats : Floats
  pub alloc_type : ℕ → Memory → ℕ × Memory

-- The memory, pCurEvalStack, and pCurOp as an index from pOps.
pub record Machine : Type 0 where
  pub mem : Memory
  pub sp : ℕ
  pub pc : ℕ

pub data Exception : Type 0 where
  overflow_exception : Exception

-- How a piece of an op-code ends: with a value, with THROW, in abort(), or in an access or an
-- operation that C gives no meaning.
pub data Outcome (A : Type 0) : Type 0 where
  done : A → Machine → Outcome A
  thrown : Exception → Machine → Outcome A
  aborted : Outcome A
  undefined : Outcome A

abbrev pub Exec : Type 0 → Type 0
Exec A = Context → Machine → Outcome A

abbrev pub and_then : {A B : Type 0} → Outcome A → (A → Machine → Outcome B) → Outcome B
and_then (done a m) f = f a m
and_then (thrown e m) f = thrown e m
and_then aborted f = aborted
and_then undefined f = undefined

infixl 5 ◌>>=◌ ◌>>◌
unfoldable pub ◌>>=◌ : {A B : Type 0} → Exec A → (A → Exec B) → Exec B
e >>= f = λ c m. and_then (e c m) (λ a. f a c)

abbrev pub ◌>>◌ : {B : Type 0} → Exec (Unit {0}) → Exec B → Exec B
e >> f = e >>= λ x. f

unfoldable pub give : {A : Type 0} → A → Exec A
give a c m = done a m

unfoldable pub throw : {A : Type 0} → Exception → Exec A
throw e c m = thrown e m

unfoldable pub no_meaning : {A : Type 0} → Exec A
no_meaning c m = undefined

-- GET_OP.
unfoldable pub get_op : Exec ℕ
get_op c m = elim (get_elem? c.ops m.pc) [
  | none ↦ undefined
  | some word ↦ done (u32 word) (record { mem = m.mem; sp = m.sp; pc = m.pc + 1 })
]

-- The check that PUSH and POP make of the new pCurEvalStack.
unfoldable pub check_stack : Context → Machine → Outcome (Unit {0})
check_stack c m = if ltb m.sp c.eval_stack || ltb c.params_locals m.sp then aborted else done tt m

unfoldable pub push : ℕ → Exec (Unit {0})
unfolding check_stack
push n c m = check_stack c (record { mem = m.mem; sp = u32 (m.sp + n); pc = m.pc })

unfoldable pub pop : ℕ → Exec (Unit {0})
unfolding check_stack
pop n c m = check_stack c (record { mem = m.mem; sp = sub_u32 m.sp n; pc = m.pc })

unfoldable pub get_sp : Exec ℕ
get_sp c m = done m.sp m

unfoldable pub set_sp : ℕ → Exec (Unit {0})
set_sp p c m = done tt (record { mem = m.mem; sp = p; pc = m.pc })

unfoldable pub set_pc : ℕ → Exec (Unit {0})
set_pc ofs c m = done tt (record { mem = m.mem; sp = m.sp; pc = ofs })

unfoldable pub get_pc : Exec ℕ
get_pc c m = done m.pc m

-- A word of n bytes read from an address, and written to it.
unfoldable pub read : ℕ → ℕ → Exec ℕ
read n p c m = done (load n m.mem p) m

unfoldable pub change : (Memory → Memory) → Exec (Unit {0})
change f c m = done tt (record { mem = f m.mem; sp = m.sp; pc = m.pc })

abbrev pub write : ℕ → ℕ → ℕ → Exec (Unit {0})
write n p v = change (λ mem. store n mem p v)

-- PUSH_U32, PUSH_FLOAT, PUSH_O and PUSH_PTR with n = 4; PUSH_U64 and PUSH_DOUBLE with n = 8: the
-- value is written before the new stack pointer is checked.
unfoldable pub push_word : ℕ → ℕ → Exec (Unit {0})
push_word n v = do p ← get_sp; write n p v; push n

-- POP_U32 and the like.
unfoldable pub pop_word : ℕ → Exec ℕ
pop_word n = do pop n; p ← get_sp; read n p

-- POP_ALL.
unfoldable pub pop_all : Exec (Unit {0})
unfolding set_sp
pop_all c m = set_sp c.eval_stack c m

unfoldable pub get_types : Exec Types
get_types c m = done c.types m

unfoldable pub get_floats : Exec Floats
get_floats c m = done c.floats m

-- The result of an operation that may have no meaning.
unfoldable pub given : Option ℕ → Exec ℕ
given none = no_meaning
given (some v) = give v
