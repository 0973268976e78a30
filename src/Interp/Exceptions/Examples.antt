-- ===== src/Interp/Exceptions/Examples.antt =====
-- An exception of type 5 that is thrown at place 5 of a method, and caught in the one that called it.
use iron_net.Prelude.{◌≡◌, refl, ◌==◌, List, [], ◌∷◌, some, arith}
use iron_net.Interp.Exceptions.{
  Handler, MethodState, Execution, throw_object, leave, find_finally, find_catch, first_handler,
  save_method_state,
}
use iron_net.Interp.Exceptions.Catch.{throw_object-caught}
use iron_net.Interp.Exceptions.Finally.{throw_object-skips_finally, leave-at_start}

abbrev catch_clause : Handler
catch_clause = record {
  flags = 0;
  try_start = 2;
  try_end = 8;
  handler_start = 10;
  catch_type_def = 5;
}

abbrev finally_clause : Handler
finally_clause = record {
  flags = 2;
  try_start = 2;
  try_end = 8;
  handler_start = 20;
  catch_type_def = 0;
}

abbrev caller : MethodState
caller = record {
  handlers = catch_clause ∷ [];
  ip_offset = 6;
  stack_ofs = 8;
  op_end_finally = 0;
  max_stack = 8;
}

abbrev thrower : List Handler → MethodState
thrower handlers = record {
  handlers = handlers;
  ip_offset = 0;
  stack_ofs = 0;
  op_end_finally = 0;
  max_stack = 8;
}

abbrev throwing : List Handler → Execution
throwing handlers = record {
  current = thrower handlers;
  callers = caller ∷ [];
  thread_current = 1;
  next_finally = 0;
  catch_state = 0;
  catch_start = 0;
  exception = 77;
  pc = 5;
  eval_ofs = 4;
  first_word = 0;
}

throw_object-caught_example :
    (x' : Execution) × (throw_object ◌==◌ 5 (throwing []) ≡ some x')
    × (x'.callers ≡ [])
    × (x'.current.handlers ≡ catch_clause ∷ [])
    × (x'.pc ≡ 10)
    × (x'.eval_ofs ≡ 4)
    × (x'.first_word ≡ 77)
    × (x'.thread_current ≡ 0)
unfolding save_method_state
throw_object-caught_example =
    throw_object-caught ◌==◌ 5 caller [] catch_clause (throwing [])
      ((save_method_state (throwing [])).current ∷ []) refl refl ((tt, tt), tt)
      ([], [], refl, tt, refl) (omega arith)

throw_object-skips_finally_example :
    (x' : Execution) × (throw_object ◌==◌ 5 (throwing (finally_clause ∷ [])) ≡ some x')
    × (x'.pc ≡ 5)
    × (x'.eval_ofs ≡ 4)
    × (x'.callers ≡ caller ∷ [])
    × (x'.current.ip_offset ≡ 20)
unfolding save_method_state find_finally find_catch first_handler
throw_object-skips_finally_example =
    throw_object-skips_finally ◌==◌ 5 (throwing (finally_clause ∷ [])) 0 0 finally_clause
      catch_clause refl refl refl refl (omega arith)

leave-at_start_example :
    leave 30 (throwing (finally_clause ∷ []))
    ≡ record (throwing (finally_clause ∷ [])) { eval_ofs = 0; pc = 30 }
leave-at_start_example = leave-at_start 30 (throwing (finally_clause ∷ [])) refl (omega arith, tt)
