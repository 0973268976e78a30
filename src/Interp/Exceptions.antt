-- ===== src/Interp/Exceptions.antt =====
-- JIT_Execute.c: the throwing of exceptions, the search for their handlers, the unwinding of the stack,
-- and the op-codes that leave a protected block and end a finally block. Offsets into code and evaluation
-- stack are those from pOps and from EVAL_STACK_PTR.
mod Catch
mod Finally
mod Examples
use iron_net.Prelude.{
  ℕ, zero, suc, ◌+◌, ◌≡◌, Bool, ◌==◌, ◌&&◌, ltb, leb, if◌then◌else◌, sub_u32, List, [], ◌∷◌, length,
  drop, Option, none, some,
}

-- tExceptionHeader.
pub record Handler : Type 0 where
  pub flags : ℕ
  pub try_start : ℕ
  pub try_end : ℕ
  pub handler_start : ℕ
  pub catch_type_def : ℕ

-- What a tMethodState has of these, with the exception handlers of its method and maxStack, the bytes of its
-- evaluation stack.
pub record MethodState : Type 0 where
  pub handlers : List Handler
  pub ip_offset : ℕ
  pub stack_ofs : ℕ
  pub op_end_finally : ℕ
  pub max_stack : ℕ

-- The method state that runs and those it was called from; the place of the one that the thread takes
-- for the current one, counted from the bottom of the stack; the thread's fields for an exception; and
-- the registers of JIT_Execute, with the word at the bottom of the evaluation stack.
pub record Execution : Type 0 where
  pub current : MethodState
  pub callers : List MethodState
  pub thread_current : ℕ
  pub next_finally : ℕ
  pub catch_state : ℕ
  pub catch_start : ℕ
  pub exception : ℕ
  pub pc : ℕ
  pub eval_ofs : ℕ
  pub first_word : ℕ

-- COR_ILEXCEPTION_CLAUSE_EXCEPTION and COR_ILEXCEPTION_CLAUSE_FINALLY.
abbrev pub clause_exception : ℕ
clause_exception = 0

abbrev pub clause_finally : ℕ
clause_finally = 2

-- The op-code before ipOffset lies in the protected block, on U32.
abbrev pub in_try : ℕ → Handler → Bool
in_try ip h = leb h.try_start (sub_u32 ip 1) && ltb (sub_u32 ip 1) h.try_end

-- The first handler, from index i on, that passes a test, with its index.
unfoldable pub first_handler : (Handler → Bool) → ℕ → List Handler → Option (ℕ × Handler)
first_handler test i [] = none
first_handler test i (h ∷ hs) = if test h then some (i, h) else first_handler test (i + 1) hs

abbrev pub is_finally : ℕ → Handler → Bool
is_finally ip h = (h.flags == clause_finally) && in_try ip h

abbrev pub is_catch : (ℕ → ℕ → Bool) → ℕ → ℕ → Handler → Bool
is_catch derived ex_type ip h =
    (h.flags == clause_exception) && in_try ip h && derived h.catch_type_def ex_type

-- The search for a catch clause in the complete call stack: the method state that has it, by its place
-- from the bottom, and where the clause starts. `derived` is Type_IsDerivedFromOrSame.
unfoldable pub find_catch : (ℕ → ℕ → Bool) → ℕ → List MethodState → Option (ℕ × Handler)
find_catch derived ex_type [] = none
find_catch derived ex_type (m ∷ ms) =
    elim (first_handler (is_catch derived ex_type m.ip_offset) 0 m.handlers) [
      | none ↦ find_catch derived ex_type ms
      | some found ↦ some (length ms, found.1)
    ]

-- SAVE_METHOD_STATE and LOAD_METHOD_STATE.
unfoldable pub save_method_state : Execution → Execution
save_method_state x = record x {
  current = record (x.current) { ip_offset = x.pc; stack_ofs = x.eval_ofs };
}

unfoldable pub load_method_state : Execution → Execution
load_method_state x = record x { pc = x.current.ip_offset; eval_ofs = x.current.stack_ofs }

-- CHANGE_METHOD_STATE(pCurrentMethodState).
unfoldable pub change_method_state : Execution → Execution
unfolding save_method_state load_method_state
change_method_state x = load_method_state (
    if x.thread_current == length x.callers
    then x
    else record (save_method_state x) { thread_current = length x.callers })

-- A finally clause, of the given index, is found while the stack is unwound.
unfoldable pub enter_finally : ℕ → Handler → Execution → Execution
unfolding change_method_state
enter_finally i h x =
    let changed = change_method_state (record x { eval_ofs = 0 }) in
    record changed {
      current = record (changed.current) { ip_offset = h.handler_start };
      next_finally = i + 1;
    }

-- The catch clause is reached: its method state goes on at the clause, with the exception object alone
-- on its evaluation stack. `none`: PUSH_O aborts, for the evaluation stack has no 4 bytes.
unfoldable pub enter_catch : Execution → Option Execution
unfolding load_method_state
enter_catch x =
    let loaded = load_method_state (record x {
      current = record (x.current) { ip_offset = x.catch_start };
      thread_current = length x.callers;
    }) in
    if ltb loaded.current.max_stack 4
    then none
    else some (record loaded { eval_ofs = 4; first_word = x.exception })

-- The first finally clause of the method state, from index next on, around the place where it stands.
unfoldable pub find_finally : ℕ → MethodState → Option (ℕ × Handler)
find_finally next m = first_handler (is_finally m.ip_offset) next (drop next m.handlers)

-- finallyUnwindStack: down to the method state that catches, with a halt at each finally clause. The
-- registers and the thread's fields are those of x. A missing caller is a null pointer.
unfoldable pub unwind_from : Execution → ℕ → MethodState → List MethodState → Option Execution
unwind_from x next m [] =
    if 0 == x.catch_state
    then enter_catch (record x { current = m; callers = []; next_finally = next })
    else (elim (find_finally next m) [
      | none ↦ none
      | some (i, h) ↦
          some (enter_finally i h (record x { current = m; callers = []; next_finally = next }))
    ])
unwind_from x next m (m' ∷ ms) =
    if suc (length ms) == x.catch_state
    then enter_catch (record x { current = m; callers = m' ∷ ms; next_finally = next })
    else (elim (find_finally next m) [
      | none ↦ unwind_from x 0 m' ms
      | some (i, h) ↦
          some
            (enter_finally i h (record x { current = m; callers = m' ∷ ms; next_finally = next }))
    ])

-- JIT_THROW and JIT_RETHROW of an exception object. `none` is a Crash for an exception that nothing catches,
-- or an abort().
unfoldable pub throw_object : (ℕ → ℕ → Bool) → ℕ → Execution → Option Execution
unfolding save_method_state
throw_object derived ex_type x =
    let saved = save_method_state x in
    elim (find_catch derived ex_type (saved.current ∷ saved.callers)) [
      | none ↦ none
      | some (depth, h) ↦
          unwind_from (record saved { catch_state = depth; catch_start = h.handler_start })
            saved.next_finally saved.current saved.callers
    ]

-- JIT_LEAVE to ofs.
unfoldable pub leave : ℕ → Execution → Execution
leave ofs x = elim (first_handler (is_finally x.current.ip_offset) 0 x.current.handlers) [
  | none ↦ record x { eval_ofs = 0; pc = ofs }
  | some (i, h) ↦ record x {
    eval_ofs = 0;
    pc = h.handler_start;
    current = record (x.current) { op_end_finally = ofs };
  }
]

-- The way back to finallyUnwindStack: the rest of the clauses of the current method state, whatever
-- method state catches, and then the loop.
unfoldable pub resume_unwind : Execution → Option Execution
resume_unwind x = elim (find_finally x.next_finally x.current) [
  | none ↦ elim x.callers [ [] ↦ none | m ∷ ms ↦ unwind_from x 0 m ms ]
  | some (i, h) ↦ some (enter_finally i h x)
]

-- JIT_END_FINALLY.
unfoldable pub end_finally : Execution → Option Execution
end_finally x =
    if x.next_finally == 0
    then some (record x { eval_ofs = 0; pc = x.current.op_end_finally })
    else resume_unwind x
