-- ===== src/Interp/Exceptions/Finally.antt =====
-- What happens at finally clauses: when an exception passes them, and when a method leaves a protected
-- block.
use iron_net.Prelude.{
  ℕ, ◌+◌, ◌^◌, ◌<◌, ◌≡◌, refl, ap, ◌∙◌, Bool, true, false, ◌==◌, List, [], ◌∷◌, length, All, none,
  some, arith,
}
use iron_net.Interp.Exceptions.{
  Handler, MethodState, Execution, first_handler, is_finally, find_catch, find_finally,
  enter_finally, load_method_state, save_method_state, change_method_state, unwind_from,
  throw_object, leave,
}

halts_here :
    (x : Execution) (m : MethodState) (callers : List MethodState) (i : ℕ) (h : Handler)
    → (length callers == x.catch_state) ≡ false
    → find_finally 0 m ≡ some (i, h)
    → unwind_from x 0 m callers
      ≡ some (enter_finally i h (record x { current = m; callers = callers; next_finally = 0 }))
unfolding unwind_from
halts_here x m [] i h further e = rw (unwind_from, further, e) refl
halts_here x m (b ∷ callers) i h further e = rw (unwind_from, further, e) refl

-- A method throws inside a protected block of its own with a finally clause, and a method state that it
-- was called from catches the exception. Then the interpreter goes on right behind the throw, with the
-- evaluation stack that it had there; the finally clause is only noted as the saved place of the method
-- state, which the registers do not take.
pub throw_object-skips_finally :
    (derived : ℕ → ℕ → Bool) (ex_type : ℕ) (x : Execution) (i depth : ℕ) (h catch : Handler)
    → x.next_finally ≡ 0
    → x.thread_current ≡ length x.callers
    → find_finally 0 (save_method_state x).current ≡ some (i, h)
    → find_catch derived ex_type ((save_method_state x).current ∷ x.callers) ≡ some (depth, catch)
    → depth < length x.callers
    → (x' : Execution) × (throw_object derived ex_type x ≡ some x')
      × (x'.pc ≡ x.pc)
      × (x'.eval_ofs ≡ x.eval_ofs)
      × (x'.callers ≡ x.callers)
      × (x'.current.ip_offset ≡ h.handler_start)
unfolding throw_object save_method_state enter_finally change_method_state load_method_state
throw_object-skips_finally derived ex_type x i depth h catch idle top enclosed found lower =
    let saved = save_method_state x in
    let y : Execution = record saved { catch_state = depth; catch_start = catch.handler_start } in
    let further : (length x.callers == depth) ≡ false = ground arith in
    let same : (x.thread_current == length x.callers) ≡ true = ground arith in
    let idle_first : unwind_from y x.next_finally saved.current x.callers
        ≡ unwind_from y 0 saved.current x.callers =
      ap (λ n. unwind_from y n saved.current x.callers) idle in
    let here : Execution = record y {
      current = saved.current;
      callers = x.callers;
      next_finally = 0;
    } in
    (
      enter_finally i h here,
      rw (throw_object, found)
          (idle_first ∙ halts_here y saved.current x.callers i h further enclosed),
      rw same refl,
      rw same refl,
      rw same refl,
      refl,
    )

no_finally_at_0 :
    (i : ℕ) (hs : List Handler)
    → All (λ h. h.try_end < 2 ^ 32) hs
    → first_handler (is_finally 0) i hs ≡ none
unfolding first_handler
no_finally_at_0 i [] ends = refl
no_finally_at_0 i (h ∷ hs) (e, ends) =
    let outside : is_finally 0 h ≡ false = ground arith in
    rw (first_handler, outside) (no_finally_at_0 (i + 1) hs ends)

-- JIT_LEAVE looks for the finally clause at the place that was saved last, not where the method is: in a
-- method state whose saved place is still 0, where it began, it only branches, in whatever protected
-- block the method has got to.
pub leave-at_start :
    (ofs : ℕ) (x : Execution)
    → x.current.ip_offset ≡ 0
    → All (λ h. h.try_end < 2 ^ 32) x.current.handlers
    → leave ofs x ≡ record x { eval_ofs = 0; pc = ofs }
unfolding leave
leave-at_start ofs x saved ends =
    let nothing : first_handler (is_finally x.current.ip_offset) 0 x.current.handlers ≡ none =
      ap (λ p. first_handler (is_finally p) 0 x.current.handlers) saved
      ∙ no_finally_at_0 0 x.current.handlers ends in
    rw (leave, nothing) refl
