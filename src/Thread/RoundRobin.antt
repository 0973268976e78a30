-- ===== src/Thread/RoundRobin.antt =====
-- What the scheduler of Thread_Execute promises: the search for the next thread ends, its choice can
-- run, and the threads take their turns.
use iron_net.Prelude.{
  ℕ, zero, suc, ◌<◌, ◌≤◌, ◌≡◌, ◌≢◌, sym, ap, ◌∙◌, List, Option, none, some, Bool, ◌==◌, length,
  get_elem?, arith, Bool-cases, Option-cases, inl, inr, refl, ◌⊎◌,
}
use mathlib.Core.Path.{subst}
use iron_net.Thread.{
  Thread, AsyncCall, CheckFn, other, debugger_blocked, debugger_resume, BreakPoint, Found, ready,
  all_blocked, in_debugger, blocked, next_thread, next_index, visit,
}
use iron_net.Thread.Search.{
  IsRunning, IfReady, Chosen, distance, next_index-below, distance-next_here, distance-positive,
  distance-most, distance-next, get_elem?-inside, same_state, Visit-cases, step-not_running,
  step-can_run, step-blocked, step-in_debugger, visit-running, visit-ready, search-ends,
  search-Chosen,
}

distance-closer :
    (n i k j : ℕ)
    → i < n
    → k < n
    → j < n
    → next_index n i ≢ k
    → distance n (next_index n i) j ≤ distance n (next_index n i) k
    → distance n i j ≤ distance n i k
unfolding distance next_index
distance-closer n i k j hi hk hj away h = ground arith

distance-nearer :
    (n i k j : ℕ)
    → i < n
    → k < n
    → j < n
    → next_index n i ≢ k
    → distance n (next_index n i) j < distance n (next_index n i) k
    → distance n i j < distance n i k
unfolding distance next_index
distance-nearer n i k j hi hk hj away h = ground arith

waits_for_nothing :
    (x t : Thread) (a : AsyncCall) → some x ≡ some t → t.async ≡ none → x.async ≡ some a → ⊥
waits_for_nothing x t a same free waits = let x_free : x.async ≡ none = ground arith in ground arith

CheckFn-cases : (f : CheckFn) → (f ≡ debugger_resume) ⊎ ((n : ℕ) × (f ≡ other n))
CheckFn-cases debugger_resume = inl refl
CheckFn-cases (other n) = inr (n, refl)

distance-round : (n i k : ℕ) → i < n → k < n → distance n i k ≤ distance n i i
unfolding distance
distance-round n i k hi hk = ground arith

module _ {W : Type 0} (ms_time : W → ℕ × W) (check : ℕ → Thread → W → Bool × W) where
  -- A thread of the list nearer than `k` that waits for the debugger to go on.
  abbrev pub DebuggerBefore : ℕ → ℕ → List Thread → Type 0
  DebuggerBefore i k ts =
      (j : ℕ) × (t : Thread) × (a : AsyncCall) × (get_elem? ts j ≡ some t)
      × (t.async ≡ some a)
      × (a.check_fn ≡ debugger_resume)
      × (j < length ts)
      × (distance (length ts) i j < distance (length ts) i k)

  -- The search from `i` on serves the thread at `k`: it finds a thread that is no farther, or comes upon
  -- the debugger before it. It does not fail, and does not take all threads for blocked.
  abbrev pub Serves : ℕ → ℕ → List Thread → Option (Found W) → Type 0
  Serves i k ts none = ⊥
  Serves i k ts (some (ready j ts' b w)) =
      (j < length ts) × (distance (length ts) i j ≤ distance (length ts) i k)
  Serves i k ts (some (all_blocked m ts' b w)) = ⊥
  Serves i k ts (some (in_debugger ts' b w)) = DebuggerBefore i k ts

  -- What serves `k` one place on serves it from here.
  Serves-next :
      (i k : ℕ) (ts : List Thread) (o : Option (Found W))
      → i < length ts
      → k < length ts
      → next_index (length ts) i ≢ k
      → Serves (next_index (length ts) i) k ts o
      → Serves i k ts o
  Serves-next i k ts none hi hk away h = h
  Serves-next i k ts (some (ready j ts' b w)) hi hk away (inside, near) =
      (inside, distance-closer (length ts) i k j hi hk inside away near)
  Serves-next i k ts (some (all_blocked m ts' b w)) hi hk away h = h
  Serves-next i k ts (some (in_debugger ts' b w)) hi hk away
        (j, t, a, at, waits, dbg, inside, nearer) =
      (j, t, a, at, waits, dbg, inside, distance-nearer (length ts) i k j hi hk inside away nearer)

  -- A running thread that waits for nothing is not blocked.
  never_blocked :
      (x t : Thread) (m : ℕ) (b : BreakPoint) (w : W) (s : ℕ) (b' : BreakPoint) (w' : W)
      → some x ≡ some t
      → IsRunning t
      → t.async ≡ none
      → visit ms_time check x m b w ≡ (blocked s, b', w')
      → ⊥
  never_blocked x t m b w s b' w' same run free e =
      let x_run : IsRunning x = same_state same run in
      let x_free : x.async ≡ none = ground arith in
      let go = visit-ready ms_time check x m b w x_run x_free in ground arith

  -- The search stops for the debugger at a thread that waits for it.
  visit-debugger :
      (x : Thread) (m : ℕ) (b : BreakPoint) (w : W) (b' : BreakPoint) (w' : W)
      → visit ms_time check x m b w ≡ (debugger_blocked, b', w')
      → (a : AsyncCall) × (x.async ≡ some a) × (a.check_fn ≡ debugger_resume)
  unfolding visit
  visit-debugger x m b w b' w' e = elim (Option-cases x.async) [
    | inl free ↦ absurd (ground arith)
    | inr (a, waits) ↦ elim (CheckFn-cases a.check_fn) [
      | inl dbg ↦ (a, waits, dbg)
      | inr (n, f) ↦ absurd (ground arith)
    ]
  ]

  search-fair :
      (fuel : ℕ) (ts : List Thread) (i prev m k : ℕ) (b : BreakPoint) (w : W) (t : Thread)
      → i < length ts
      → prev < length ts
      → k < length ts
      → get_elem? ts k ≡ some t
      → IsRunning t
      → t.async ≡ none
      → distance (length ts) i k ≤ distance (length ts) i prev
      → distance (length ts) i k ≤ fuel
      → Serves i k ts (next_thread ms_time check fuel ts i prev m b w)
  search-fair zero ts i prev m k b w t hi hp hk at run free round enough =
      absurd (omega (arith, distance-positive (length ts) i k hi hk))
  search-fair (suc fuel) ts i prev m k b w t hi hp hk at run free round enough =
      let n = length ts in
      let j = next_index n i in
      let hj = next_index-below n i hi in
      let (x, there) = get_elem?-inside ts j hj in
      let r = visit ms_time check x m b w in
      let on : (s : ℕ)
          → j ≢ k
          → Serves i k ts (next_thread ms_time check fuel ts j prev s r.1 r.2) =
        λ s away.
          let nearer = distance-next n i k hi hk away in
          let far : j ≢ prev = λ here. absurd (
            omega (
              arith,
              nearer,
              round,
              distance-positive n j k hj hk,
              distance-next_here n i hi,
              ap (distance n i) here,
            )) in
          Serves-next i k ts _ hi hk away (
            search-fair fuel ts j prev s k r.1 r.2 t hj hp hk at run free
              (omega (arith, nearer, distance-next n i prev hi hp far)) (omega (arith, nearer))) in
      let one : distance n i j ≤ distance n i k =
        omega (arith, distance-next_here n i hi, distance-positive n i k hi hk) in
      let same : j ≡ k → some x ≡ some t = λ here. sym there ∙ ap (get_elem? ts) here ∙ at in
      elim (Visit-cases r) [
        | inl e ↦
            let away : j ≢ k =
              λ here. visit-running ms_time check x m b w r.1 r.2 (same_state (same here) run) e in
            rw (step-not_running ms_time check fuel ts i prev m b w x there r.1 r.2 e) (on m away)
        | inr (inl (t', e)) ↦
            rw (step-can_run ms_time check fuel ts i prev m b w x there r.1 r.2 t' e) (hj, one)
        | inr (inr (inl (s, e))) ↦
            let away : j ≢ k = λ here. never_blocked x t m b w s r.1 r.2 (same here) run free e in
            elim (Bool-cases (j == prev)) [
              | inl here ↦
                  let at_prev : j ≡ prev = ground arith in
                  absurd (
                    omega (
                      arith,
                      distance-next n i k hi hk away,
                      round,
                      distance-positive n j k hj hk,
                      distance-next_here n i hi,
                      ap (distance n i) at_prev,
                    ))
              | inr far ↦
                  rw (step-blocked ms_time check fuel ts i prev m b w x there r.1 r.2 s e far)
                    (on s away)
            ]
        | inr (inr (inr e)) ↦
            let (a, waits, dbg) = visit-debugger x m b w r.1 r.2 e in
            let away : j ≢ k = λ here. waits_for_nothing x t a (same here) free waits in
            rw (step-in_debugger ms_time check fuel ts i prev m b w x there r.1 r.2 e) (
              j,
              x,
              a,
              there,
              waits,
              dbg,
              hj,
              omega (
                arith,
                distance-next n i k hi hk away,
                distance-positive n j k hj hk,
                distance-next_here n i hi,
              ),
            )
      ]

  -- The search behind the thread at `prev` comes to an end within one round of the list, if that
  -- thread is in the running state.
  pub next_thread-ends :
      (ts : List Thread) (prev m : ℕ) (b : BreakPoint) (w : W) (t : Thread)
      → get_elem? ts prev ≡ some t
      → prev < length ts
      → IsRunning t
      → (f : Found W) × (next_thread ms_time check (length ts) ts prev prev m b w ≡ some f)
  next_thread-ends ts prev m b w t at h run =
      search-ends ms_time check (length ts) ts prev prev m b w t h h at run
        (distance-most (length ts) prev prev h h)

  -- A thread that the search finds is one of the list, in the running state, that the visit found able
  -- to run; only that thread of the list is changed, to what the visit made of it.
  pub next_thread-Chosen :
      (fuel : ℕ) (ts : List Thread) (prev m : ℕ) (b : BreakPoint) (w : W) (j : ℕ)
      (ts' : List Thread) (b' : BreakPoint) (w' : W)
      → prev < length ts
      → next_thread ms_time check fuel ts prev prev m b w ≡ some (ready j ts' b' w')
      → Chosen ms_time check ts j ts' b' w'
  next_thread-Chosen fuel ts prev m b w j ts' b' w' h found =
      subst (IfReady ms_time check (Chosen ms_time check ts)) found
        (search-Chosen ms_time check fuel ts prev prev m b w h)

  -- While there is a thread in the running state that waits for nothing, the search does not take all
  -- threads for blocked and does not run on, on fuel for one round of the list: it finds a thread that is at
  -- most as many places behind the last one as any such thread, unless one that comes before waits for the
  -- debugger.
  pub next_thread-fair :
      (ts : List Thread) (prev m : ℕ) (b : BreakPoint) (w : W) (k : ℕ) (t : Thread)
      → prev < length ts
      → k < length ts
      → get_elem? ts k ≡ some t
      → IsRunning t
      → t.async ≡ none
      → Serves prev k ts (next_thread ms_time check (length ts) ts prev prev m b w)
  next_thread-fair ts prev m b w k t h hk at run free =
      search-fair (length ts) ts prev prev m k b w t h h hk at run free
        (omega (arith, distance-round (length ts) prev k h hk))
        (distance-most (length ts) prev k h hk)
