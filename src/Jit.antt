-- ===== src/Jit.antt =====
-- DotNetAnywhere/JIT.c: the translation of the CIL of a method into op-codes of the interpreter, on a
-- 32-bit machine. A translation step is an action on the state of JITit; The op-codes that look names up in the
-- metadata are not modelled, and have an outcome of their own.
pub mod Types
pub mod Grows
pub mod Keeps
pub mod Loads
pub mod Branches
pub mod Arith
pub mod Convert
pub mod Elements
pub mod Translate
pub mod Instructions
pub mod Fixups
pub mod Loop
pub mod Select
mod Whole
mod Examples
use iron_net.Prelude.{
  ℕ, zero, suc, ◌+◌, ◌-◌, ◌*◌, ◌%◌, ◌^◌, Bool, true, false, ltb, leb, ◌==◌, if◌then◌else◌, Option,
  none, some, List, [], ◌∷◌, ◌++◌, get_elem?, length, u32, Memory, get_u32, get_u16,
}
use iron_net.Jit.Types.{JitType}

-- A parameter or a local variable: its type and its offset.
pub record Parameter : Type 0 where
  pub type_def : JitType
  pub offset : ℕ

-- What JITit is given: pCIL, codeSize, pMethodDef->pParams and parameterStackSize, pLocals, and the number
-- of entries of the type stack.
pub record Method : Type 0 where
  pub cil : Memory
  pub code_size : ℕ
  pub params : List Parameter
  pub parameter_stack_size : ℕ
  pub locals : List Parameter
  pub max_stack : ℕ

-- The variables of JITit: ops, branchOffsets, pJITOffsets, ppTypeStacks, the type stack with its last
-- entry first, maxBytes, and cilOfs.
pub record Jit : Type 0 where
  pub ops : List ℕ
  pub branch_offsets : List ℕ
  pub jit_offsets : ℕ → ℕ
  pub type_stacks : ℕ → Option (List JitType)
  pub type_stack : List JitType
  pub max_bytes : ℕ
  pub cil_ofs : ℕ

-- What a part of the translation comes to: a result, a Crash or a read or write outside an array, or an op-code
-- that is not modelled.
pub data Outcome (A : Type 0) : Type 0 where
  made : A → Outcome A
  crashed : Outcome A
  not_modelled : Outcome A

abbrev pub Step : Type 0 → Type 0
Step A = Method → Jit → Outcome (A × Jit)

infixl 5 ◌>>=◌ ◌>>◌
unfoldable pub ◌>>=◌ : {A B : Type 0} → Step A → (A → Step B) → Step B
◌>>=◌ m f c j = elim (m c j) [
  | crashed ↦ crashed
  | not_modelled ↦ not_modelled
  | made (a, j') ↦ f a c j'
]

unfoldable pub ◌>>◌ : {A B : Type 0} → Step A → Step B → Step B
unfolding ◌>>=◌
m >> k = m >>= λ _. k

unfoldable pub give : {A : Type 0} → A → Step A
give a c j = made (a, j)

-- An op-code that is not modelled.
unfoldable pub other_op : {A : Type 0} → Step A
other_op c j = not_modelled

-- Crash.
unfoldable pub crash : {A : Type 0} → Step A
crash c j = crashed

unfoldable pub given : {A : Type 0} → Option A → Step A
given none c j = crashed
given (some a) c j = made (a, j)

unfoldable pub get_method : Step Method
get_method c j = made (c, j)

-- PushU32_, with the op-codes as their numbers: PushOp, PushU32, PushI32 and PushPTR.
unfoldable pub push_u32 : ℕ → Step (Unit {0})
push_u32 v c j = made (tt, record j { ops = j.ops ++ (v ∷ []) })

unfoldable pub push_op : ℕ → Step (Unit {0})
push_op op = push_u32 op

-- PushOpParam.
unfoldable pub push_op_param : ℕ → ℕ → Step (Unit {0})
push_op_param op param = do push_op op; push_u32 param

-- PushBranch() and the PushU32 of the target that follows it.
unfoldable pub push_target : ℕ → Step (Unit {0})
push_target target c j = made (
  tt,
  record j {
    branch_offsets = j.branch_offsets ++ (length j.ops ∷ []);
    ops = j.ops ++ (target ∷ []);
  },
)

-- The bytes that the types of a stack take.
abbrev pub stack_bytes : List JitType → ℕ
stack_bytes [] = 0
stack_bytes (t ∷ ts) = t.stack_size + stack_bytes ts

-- PushStackType_; the array of the type stack has max_stack entries.
unfoldable pub push_type : JitType → Step (Unit {0})
push_type t c j =
    let size = stack_bytes (t ∷ j.type_stack) in
    if ltb (length j.type_stack) c.max_stack
    then made (
      tt,
      record j {
        type_stack = t ∷ j.type_stack;
        max_bytes = if ltb j.max_bytes size then size else j.max_bytes;
      },
    )
    else crashed

-- PopStackType.
unfoldable pub pop_type : Step JitType
pop_type c j = elim j.type_stack [ [] ↦ crashed | t ∷ ts ↦ made (t, record j { type_stack = ts }) ]

-- PopStackTypeMulti.
unfoldable pub pop_types : ℕ → Step (Unit {0})
pop_types zero = give tt
pop_types (suc k) = do pop_type; pop_types k

-- A byte of the code, GetUnalignedU16 and GetUnalignedU32.
unfoldable pub next_byte : Step ℕ
next_byte c j = made (c.cil j.cil_ofs, record j { cil_ofs = j.cil_ofs + 1 })

unfoldable pub next_u16 : Step ℕ
next_u16 c j = made (get_u16 c.cil j.cil_ofs, record j { cil_ofs = j.cil_ofs + 2 })

unfoldable pub next_u32 : Step ℕ
next_u32 c j = made (get_u32 c.cil j.cil_ofs, record j { cil_ofs = j.cil_ofs + 4 })

-- An I8 as a U32.
abbrev pub sign_extend : ℕ → ℕ
sign_extend b = if ltb b 128 then b else b + (2 ^ 32 - 256)

-- The place in the CIL that a jump from cilOfs leads to.
unfoldable pub target_of : ℕ → Step ℕ
target_of relative c j = made (u32 (j.cil_ofs + relative), j)

abbrev pub set_at {ℓ} : {A : Type ℓ} → (ℕ → A) → ℕ → A → ℕ → A
set_at f i a k = if k == i then a else f k

-- MayCopyTypeStack; ppTypeStacks has codeSize + 1 entries.
unfoldable pub may_copy_type_stack : ℕ → Step (Unit {0})
may_copy_type_stack target c j =
    if ltb j.cil_ofs target
    then (if leb target c.code_size
        then made (tt, record j { type_stacks = set_at j.type_stacks target (some j.type_stack) })
        else crashed)
    else made (tt, j)

-- RestoreTypeStack(&typeStack, ppTypeStacks[cilOfs]).
unfoldable pub restore_type_stack : Step (Unit {0})
restore_type_stack c j =
    if leb j.cil_ofs c.code_size
    then made
        (tt, record j { type_stack = elim (j.type_stacks j.cil_ofs) [ none ↦ [] | some ts ↦ ts ] })
    else crashed
