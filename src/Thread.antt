-- ===== src/Thread.antt =====
-- DotNetAnywhere/Thread.c and Thread.h: the green threads of the virtual machine and their scheduler.
-- The list behind pAllThreads is a list, a thread pointer an address, and inside the search for the
-- next thread, where the list stands still, a place in that list. An I32 is its 32 bits. What is not
-- in this file of the program is a parameter: JIT_Execute, msTime and the check functions of the
-- asynchronous calls, which act on the rest of the machine, a `World`.
pub mod Execute
pub mod Search
pub mod RoundRobin
pub mod Stack
mod Examples
use iron_net.Prelude.{
  ℕ, zero, suc, ◌+◌, ◌-◌, ◌%◌, ◌^◌, ◌<◌, ◌≡◌, List, [], ◌∷◌, Option, none, some, Bool, true, false,
  ◌==◌, ◌&&◌, ◌||◌, not, ltb, leb, if◌then◌else◌, length, get_elem?, bit_and, u32, sub_u32,
}

-- The check function of an asynchronous call: Internal_Debugger_Resume_Check or another one.
pub data CheckFn : Type 0 where
  debugger_resume : CheckFn
  other : ℕ → CheckFn

-- tAsyncCall.
pub record AsyncCall : Type 0 where
  pub sleep_time : ℕ
  pub start_time : ℕ
  pub check_fn : CheckFn

-- tThread, the fields that the scheduler reads.
pub record Thread : Type 0 where
  pub addr : ℕ
  pub state : ℕ
  pub exit_value : ℕ
  pub async : Option AsyncCall

-- releaseBreakPoint and waitingOnBreakPoint.
pub record BreakPoint : Type 0 where
  pub release : ℕ
  pub waiting : ℕ

-- Internal_Debugger_Resume_Check.
unfoldable pub debugger_resume_check : BreakPoint → Bool × BreakPoint
debugger_resume_check b =
    if not (b.release == 0) then (true, record { release = 0; waiting = 0 }) else (false, b)

abbrev pub thread_state_background : ℕ
thread_state_background = 0x4

abbrev pub thread_state_unstarted : ℕ
thread_state_unstarted = 0x8

abbrev pub thread_state_suspended : ℕ
thread_state_suspended = 0x40

-- state & ~THREADSTATE_BACKGROUND.
unfoldable pub foreground_state : ℕ → ℕ
foreground_state s = bit_and s (2 ^ 32 - 1 - thread_state_background)

-- What the search does with one thread: it passes over one that is not running, finds one that can
-- run, notes the time to sleep for one that is blocked, or leaves the loop for the debugger.
pub data Visit : Type 0 where
  not_running : Visit
  can_run : Thread → Visit
  blocked : ℕ → Visit
  debugger_blocked : Visit

-- What the search comes to.
pub data Found (W : Type 0) : Type 0 where
  ready : ℕ → List Thread → BreakPoint → W → Found W
  all_blocked : ℕ → List Thread → BreakPoint → W → Found W
  in_debugger : List Thread → BreakPoint → W → Found W

-- msSleepRemaining, and whether it is at most 0 as an I32.
unfoldable pub sleep_remaining : AsyncCall → ℕ → ℕ
sleep_remaining a now = sub_u32 a.sleep_time (u32 (now + 2 ^ 64 - a.start_time))

unfoldable pub is_over : ℕ → Bool
is_over r = (r == 0) || leb (2 ^ 31) r

abbrev pub woken : Thread → Thread
woken t = record { addr = t.addr; state = t.state; exit_value = t.exit_value; async = none }

abbrev pub set_thread : List Thread → ℕ → Thread → List Thread
set_thread [] i t = []
set_thread (x ∷ ts) zero t = t ∷ ts
set_thread (x ∷ ts) (suc i) t = x ∷ set_thread ts i t

-- pNextThread, and pAllThreads behind the last thread.
unfoldable pub next_index : ℕ → ℕ → ℕ
next_index n i = if ltb (i + 1) n then i + 1 else 0

-- Thread_Delete and the unlinking before it: the thread leaves the list. `none`: it is not in it.
unfoldable pub unlink_thread : List Thread → ℕ → Option (List Thread)
unlink_thread [] a = none
unlink_thread (t ∷ ts) a =
    let rest = unlink_thread ts a in
    if t.addr == a then some ts else elim rest [ none ↦ none | some ts' ↦ some (t ∷ ts') ]

-- The loop that sets canExit: background, unstarted and suspended threads do not stop the exit.
unfoldable pub can_exit : List Thread → Bool
unfolding foreground_state
can_exit [] = true
can_exit (t ∷ ts) =
    let rest = can_exit ts in
    if (bit_and t.state thread_state_background == 0)
      && not (foreground_state t.state == thread_state_unstarted)
      && not (foreground_state t.state == thread_state_suspended)
    then false
    else rest

-- The place of a thread in the list.
unfoldable pub index_of_thread : List Thread → ℕ → Option ℕ
index_of_thread [] a = none
index_of_thread (t ∷ ts) a =
    let rest = index_of_thread ts a in
    if t.addr == a then some 0 else elim rest [ none ↦ none | some i ↦ some (i + 1) ]

module _ {W : Type 0} (ms_time : W → ℕ × W) (check : ℕ → Thread → W → Bool × W) where
  -- The body of the search up to its `break`, `continue` and `return`.
  unfoldable pub visit : Thread → ℕ → BreakPoint → W → Visit × BreakPoint × W
  unfolding foreground_state sleep_remaining is_over debugger_resume_check
  visit t min_sleep b w =
      if not (foreground_state t.state == 0) then (not_running, b, w) else elim t.async [
        | none ↦ (can_run t, b, w)
        | some a ↦
            if ltb a.sleep_time (2 ^ 31)
            then (let (now, w') = ms_time w in
                let r = sleep_remaining a now in
                if is_over r
                then (can_run t, b, w')
                else (blocked (if ltb r min_sleep then r else min_sleep), b, w'))
            else elim a.check_fn [
              | debugger_resume ↦
                  let (ok, b') = debugger_resume_check b in
                  if ok then (can_run (woken t), b', w) else (debugger_blocked, b', w)
              | other f ↦
                  let (ok, w') = check f t w in
                  if ok then (can_run (woken t), b, w') else (blocked 5, b, w')
            ]
      ]

  -- The inner loop of Thread_Execute: from the thread at `i` on, round the list.
  unfoldable pub next_thread : ℕ → List Thread → ℕ → ℕ → ℕ → BreakPoint → W → Option (Found W)
  next_thread zero ts i prev min_sleep b w = none
  next_thread (suc fuel) ts i prev min_sleep b w = elim (get_elem? ts (next_index (length ts) i)) [
    | none ↦ none
    | some t ↦
        let (v, b', w') = visit t min_sleep b w in
        elim v [
          | not_running ↦ next_thread fuel ts (next_index (length ts) i) prev min_sleep b' w'
          | can_run t' ↦
              some (
                ready (next_index (length ts) i) (set_thread ts (next_index (length ts) i) t') b'
                  w')
          | blocked m ↦ elim (next_index (length ts) i == prev) [
            | true ↦ some (all_blocked m ts b' w')
            | false ↦ next_thread fuel ts (next_index (length ts) i) prev m b' w'
          ]
          | debugger_blocked ↦ some (in_debugger ts b' w')
        ]
  ]
