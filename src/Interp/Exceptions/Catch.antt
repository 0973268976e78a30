-- ===== src/Interp/Exceptions/Catch.antt =====
-- An exception that no finally clause stands in the way of reaches the nearest clause that catches it.
use iron_net.Prelude.{
  ℕ, suc, ◌+◌, ◌≡◌, refl, ap, ◌∙◌, Bool, true, false, ◌==◌, List, [], ◌∷◌, ◌++◌, length,
  length-append, All, Option, none, some, arith, ltb, ◌≤◌,
}
use iron_net.Interp.Exceptions.{
  Handler, MethodState, Execution, first_handler, is_finally, is_catch, find_catch, find_finally,
  enter_catch, load_method_state, save_method_state, unwind_from, throw_object,
}

abbrev pub Fails : (Handler → Bool) → List Handler → Type 0
Fails test = All (λ h. test h ≡ false)

first_handler-none :
    (test : Handler → Bool) (i : ℕ) (hs : List Handler)
    → Fails test hs
    → first_handler test i hs ≡ none
unfolding first_handler
first_handler-none test i [] fails = refl
first_handler-none test i (h ∷ hs) (e, fails) =
    rw (first_handler, e) (first_handler-none test (i + 1) hs fails)

first_handler-split :
    (test : Handler → Bool) (i : ℕ) (before after : List Handler) (h : Handler)
    → Fails test before
    → test h ≡ true
    → first_handler test i (before ++ (h ∷ after)) ≡ some (i + length before, h)
unfolding first_handler
first_handler-split test i [] after h fails e =
    rw (first_handler, e) (ap (λ k. some (k, h)) (omega arith))
first_handler-split test i (b ∷ before) after h (f, fails) e =
    rw (first_handler, f)
      (first_handler-split test (i + 1) before after h fails e
        ∙ ap (λ k. some (k, h)) (omega arith))

-- A method state that an exception passes by: no clause of it catches, and none is a finally around the
-- place where it stands.
abbrev pub PassedBy : (ℕ → ℕ → Bool) → ℕ → MethodState → Type 0
PassedBy derived ex_type m =
    Fails (is_catch derived ex_type m.ip_offset) m.handlers
    × Fails (is_finally m.ip_offset) m.handlers

-- The first clause of the method state that catches is h.
abbrev pub CaughtBy : (ℕ → ℕ → Bool) → ℕ → MethodState → Handler → Type 0
CaughtBy derived ex_type m h =
    (before : List Handler) × (after : List Handler) × (m.handlers ≡ before ++ (h ∷ after))
    × Fails (is_catch derived ex_type m.ip_offset) before
    × (is_catch derived ex_type m.ip_offset h ≡ true)

-- From a list of method states on.
abbrev unwind_all : Execution → List MethodState → Option Execution
unwind_all x [] = none
unwind_all x (a ∷ ms) = unwind_from x 0 a ms

passes_by :
    (x : Execution) (a : MethodState) (rest : List MethodState)
    → (length rest == x.catch_state) ≡ false
    → find_finally 0 a ≡ none
    → unwind_from x 0 a rest ≡ unwind_all x rest
unfolding unwind_from
passes_by x a [] further e = rw (unwind_from, further, e) refl
passes_by x a (b ∷ rest) further e = rw (unwind_from, further, e) refl

lands_here :
    (x : Execution) (m : MethodState) (below : List MethodState)
    → x.catch_state ≡ length below
    → unwind_from x 0 m below
      ≡ enter_catch (record x { current = m; callers = below; next_finally = 0 })
unfolding unwind_from
lands_here x m [] at_catch =
    let here : (0 == x.catch_state) ≡ true = ground arith in rw (unwind_from, here) refl
lands_here x m (b ∷ below) at_catch =
    let here : (suc (length below) == x.catch_state) ≡ true = ground arith in
    rw (unwind_from, here) refl

module _ (derived : ℕ → ℕ → Bool) (ex_type : ℕ) (m : MethodState) (below : List MethodState)
    (h : Handler) where
  find_catch-nearest :
      (above : List MethodState)
      → All (PassedBy derived ex_type) above
      → CaughtBy derived ex_type m h
      → find_catch derived ex_type (above ++ (m ∷ below)) ≡ some (length below, h)
  unfolding find_catch
  find_catch-nearest [] passed (before, after, split, fails, catches) =
      rw
        (
          find_catch,
          split,
          first_handler-split (is_catch derived ex_type m.ip_offset) 0 before after h fails catches,
        )
        refl
  find_catch-nearest (a ∷ above) (here, passed) caught =
      rw (find_catch, first_handler-none (is_catch derived ex_type a.ip_offset) 0 a.handlers here.0)
        (find_catch-nearest above passed caught)

  unwind_all-lands :
      (x : Execution) (above : List MethodState)
      → x.catch_state ≡ length below
      → All (PassedBy derived ex_type) above
      → unwind_all x (above ++ (m ∷ below))
        ≡ enter_catch (record x { current = m; callers = below; next_finally = 0 })
  unfolding find_finally
  unwind_all-lands x [] at_catch passed = lands_here x m below at_catch
  unwind_all-lands x (a ∷ above) at_catch (here, passed) =
      let further : (length (above ++ (m ∷ below)) == x.catch_state) ≡ false =
        ground (arith, length-append above (m ∷ below)) in
      passes_by x a (above ++ (m ∷ below)) further
        (first_handler-none (is_finally a.ip_offset) 0 a.handlers here.1)
      ∙ unwind_all-lands x above at_catch passed

  -- If the method states above m pass the exception by, and h is the first clause of m that catches it,
  -- then JIT_THROW takes those method states away and goes on in m at the start of h, with the
  -- exception object alone on the evaluation stack, which has room for it, and m is the current method
  -- state of the thread.
  -- Here the place of the running method state is that of its registers, which are saved first, and no
  -- unwinding is under way.
  pub throw_object-caught :
      (x : Execution) (above : List MethodState)
      → x.next_finally ≡ 0
      → ((save_method_state x).current ∷ x.callers) ≡ above ++ (m ∷ below)
      → All (PassedBy derived ex_type) above
      → CaughtBy derived ex_type m h
      → 4 ≤ m.max_stack
      → (x' : Execution) × (throw_object derived ex_type x ≡ some x')
        × (x'.callers ≡ below)
        × (x'.current.handlers ≡ m.handlers)
        × (x'.pc ≡ h.handler_start)
        × (x'.eval_ofs ≡ 4)
        × (x'.first_word ≡ x.exception)
        × (x'.thread_current ≡ length below)
  unfolding throw_object save_method_state enter_catch load_method_state
  throw_object-caught x above idle stack passed caught room =
      let saved = save_method_state x in
      let found : find_catch derived ex_type (saved.current ∷ saved.callers)
          ≡ some (length below, h) =
        ap (find_catch derived ex_type) stack ∙ find_catch-nearest above passed caught in
      let y : Execution = record saved {
        catch_state = length below;
        catch_start = h.handler_start;
      } in
      let idle_first : unwind_from y x.next_finally saved.current x.callers
          ≡ unwind_from y 0 saved.current x.callers =
        ap (λ n. unwind_from y n saved.current x.callers) idle in
      let roomy : ltb m.max_stack 4 ≡ false = ground arith in
      let y' : Execution = record y { current = m; callers = below; next_finally = 0 } in
      (
        record (load_method_state (record y' {
          current = record m { ip_offset = h.handler_start };
          thread_current = length below;
        })) { eval_ofs = 4; first_word = x.exception },
        rw (throw_object, found)
            (idle_first
              ∙ ap (unwind_all y) stack
              ∙ unwind_all-lands y above refl passed
              ∙ rw (enter_catch, roomy) refl),
        refl,
        refl,
        refl,
        refl,
        refl,
        refl,
      )
