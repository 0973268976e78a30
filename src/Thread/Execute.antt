-- ===== src/Thread/Execute.antt =====
-- DotNetAnywhere/Thread.c, Thread_Execute: the loop that runs a slice of one thread after the other.
use iron_net.Prelude.{
  ℕ, zero, suc, ◌-◌, ◌^◌, ◌≡◌, refl, List, [], ◌∷◌, Option, none, some, Bool, false, ◌==◌,
  if◌then◌else◌, get_elem?, ◌++◌, All, length, ap, arith, Bool-cases, inl, inr,
}
use iron_net.Thread.{
  Thread, BreakPoint, ready, all_blocked, in_debugger, next_thread, unlink_thread, can_exit,
  index_of_thread, set_thread,
}

-- THREAD_STATUS_EXIT, _RUNNING, _ASYNC and _LOCK_EXIT.
pub data Status : Type 0 where
  exited : Status
  running : Status
  waiting : Status
  lock_exit : Status

-- After a slice Thread_Execute returns, or looks for the thread behind the one at a place.
pub data Continue (W : Type 0) : Type 0 where
  finish : ℕ → List Thread → W → Continue W
  search_from : ℕ → List Thread → W → Continue W

-- What Thread_Execute returns, with the threads that are left.
pub data Outcome (W : Type 0) : Type 0 where
  returned : ℕ → List Thread → BreakPoint → W → Outcome W

-- The thread that starts or ends the wait of its asynchronous call now.
unfoldable pub start_wait : Thread → ℕ → Option Thread
start_wait t now = elim (t.async) [
  | none ↦ none
  | some a ↦ some (record {
    addr = t.addr;
    state = t.state;
    exit_value = t.exit_value;
    async = some (record { sleep_time = a.sleep_time; start_time = now; check_fn = a.check_fn });
  })
]

module _ {W : Type 0} (ms_time : W → ℕ × W) where
  -- The switch over the status. `none` is a NULL pointer followed.
  unfoldable pub after_slice : Status → List Thread → ℕ → W → Option (Continue W)
  unfolding start_wait unlink_thread can_exit index_of_thread
  after_slice exited ts a w = elim (index_of_thread ts a) [
    | none ↦ none
    | some i ↦ elim (get_elem? ts i) [
      | none ↦ none
      | some t ↦ elim (unlink_thread ts a) [
        | none ↦ none
        | some rest ↦
            if can_exit rest then some (finish t.exit_value rest w) else some (search_from 0 rest w)
      ]
    ]
  ]
  after_slice waiting ts a w = elim (index_of_thread ts a) [
    | none ↦ none
    | some i ↦ elim (get_elem? ts i) [
      | none ↦ none
      | some t ↦
          let (now, w') = ms_time w in
          elim (start_wait t now) [
            | none ↦ none
            | some t' ↦ some (search_from i (set_thread ts i t') w')
          ]
    ]
  ]
  after_slice status ts a w = elim (index_of_thread ts a) [
    | none ↦ none
    | some i ↦ some (search_from i ts w)
  ]

module _ {W : Type 0} (ms_time : W → ℕ × W) (check : ℕ → Thread → W → Bool × W)
    (jit_execute : ℕ → List Thread → BreakPoint → W → Status × List Thread × BreakPoint × W) where
  -- The outer loop, on fuel, with `rounds` for each search.
  unfoldable pub run_slices : ℕ → ℕ → List Thread → ℕ → BreakPoint → W → Option (Outcome W)
  unfolding after_slice next_thread
  run_slices zero rounds ts a b w = none
  run_slices (suc fuel) rounds ts a b w =
      let (status, ts1, b1, w1) = jit_execute a ts b w in
      elim (after_slice ms_time status ts1 a w1) [
        | none ↦ none
        | some next ↦ elim next [
          | finish value rest w2 ↦ some (returned value rest b1 w2)
          | search_from i ts2 w2 ↦
              elim (next_thread ms_time check rounds ts2 i i (2 ^ 32 - 1) b1 w2) [
                | none ↦ none
                | some found ↦ elim found [
                  | ready j ts3 b3 w3 ↦ elim (get_elem? ts3 j) [
                    | none ↦ none
                    | some t ↦ run_slices fuel rounds ts3 t.addr b3 w3
                  ]
                  | all_blocked min_sleep ts3 b3 w3 ↦ some (returned min_sleep ts3 b3 w3)
                  | in_debugger ts3 b3 w3 ↦ some (returned 0 ts3 b3 w3)
                ]
              ]
        ]
      ]

  -- Thread_Execute: the first thread of the list is set to run.
  unfoldable pub execute : ℕ → ℕ → List Thread → BreakPoint → W → Option (Outcome W)
  unfolding run_slices
  execute fuel rounds [] b w = none
  execute fuel rounds (t ∷ ts) b w =
      run_slices fuel rounds
        (record { addr = t.addr; state = 0; exit_value = t.exit_value; async = t.async } ∷ ts)
        t.addr b w

-- The addresses of `ts` are all other than `a`.
abbrev pub Without : ℕ → List Thread → Type 0
Without a ts = All (λ t. (t.addr == a) ≡ false) ts

unlink_thread-found :
    (front : List Thread) (t : Thread) (back : List Thread)
    → Without t.addr front
    → unlink_thread (front ++ (t ∷ back)) t.addr ≡ some (front ++ back)
unfolding unlink_thread
unlink_thread-found [] t back h = ground arith
unlink_thread-found (x ∷ front) t back h = rw (h.0, unlink_thread-found front t back h.1) refl

index_of_thread-found :
    (front : List Thread) (t : Thread) (back : List Thread)
    → Without t.addr front
    → index_of_thread (front ++ (t ∷ back)) t.addr ≡ some (length front)
unfolding index_of_thread
index_of_thread-found [] t back h = ground arith
index_of_thread-found (x ∷ front) t back h =
    rw (h.0, index_of_thread-found front t back h.1) (ap some (omega arith))

get_elem?-middle :
    (front : List Thread) (t : Thread) (back : List Thread)
    → get_elem? (front ++ (t ∷ back)) (length front) ≡ some t
get_elem?-middle [] t back = refl
get_elem?-middle (x ∷ front) t back = get_elem?-middle front t back

-- When a thread's slice ends with THREAD_STATUS_EXIT, the thread is taken from the list and the others
-- keep their order; Thread_Execute then returns its exit value if no thread that is left stops the
-- exit, and else searches from the first of the list. The thread's address is not that of one before it.
after_slice-exited :
    {W : Type 0} (ms_time : W → ℕ × W) (front : List Thread) (t : Thread) (back : List Thread)
    (w : W)
    → Without t.addr front
    → after_slice ms_time exited (front ++ (t ∷ back)) t.addr w
      ≡ some (
          if can_exit (front ++ back)
          then finish t.exit_value (front ++ back) w
          else search_from 0 (front ++ back) w)
unfolding after_slice
after_slice-exited ms_time front t back w h = elim (Bool-cases (can_exit (front ++ back))) [
  | inl e ↦
      rw
        (
          after_slice,
          index_of_thread-found front t back h,
          get_elem?-middle front t back,
          unlink_thread-found front t back h,
          e,
        )
        refl
  | inr e ↦
      rw
        (
          after_slice,
          index_of_thread-found front t back h,
          get_elem?-middle front t back,
          unlink_thread-found front t back h,
          e,
        )
        refl
]
