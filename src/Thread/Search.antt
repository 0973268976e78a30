-- ===== src/Thread/Search.antt =====
-- The search of Thread_Execute for the next thread: it ends, it finds a thread that can run, and it
-- passes none over that could.
use iron_net.Prelude.{
  ℕ, zero, suc, ◌+◌, ◌-◌, ◌<◌, ◌≤◌, ◌≡◌, ◌≢◌, ◌⊎◌, refl, sym, ap, ◌∙◌, List, [], ◌∷◌, Option, none,
  some, Bool, true, false, ◌==◌, ltb, if◌then◌else◌, length, get_elem?, arith, Bool-cases, inl, inr,
}
use iron_net.Thread.{
  Thread, BreakPoint, Found, ready, all_blocked, in_debugger, Visit, not_running, can_run, blocked,
  debugger_blocked, foreground_state, visit, next_thread, next_index, set_thread,
}

-- The rounds of the loop from place `i` until it stands at `k`, in a list of `n`.
unfoldable pub distance : ℕ → ℕ → ℕ → ℕ
distance n i k = if ltb i k then k - i else k + n - i

pub next_index-below : (n i : ℕ) → i < n → next_index n i < n
unfolding next_index
next_index-below n i h = ground arith

-- A step brings every other place one nearer.
pub distance-next :
    (n i k : ℕ)
    → i < n
    → k < n
    → next_index n i ≢ k
    → distance n i k ≡ suc (distance n (next_index n i) k)
unfolding distance next_index
distance-next n i k hi hk away = ground arith

pub distance-positive : (n i k : ℕ) → i < n → k < n → 0 < distance n i k
unfolding distance
distance-positive n i k hi hk = ground arith

pub distance-next_here : (n i : ℕ) → i < n → distance n i (next_index n i) ≡ 1
unfolding distance next_index
distance-next_here n i h = ground arith

pub distance-most : (n i k : ℕ) → i < n → k < n → distance n i k ≤ n
unfolding distance
distance-most n i k hi hk = ground arith

pub get_elem?-inside :
    (ts : List Thread) (i : ℕ) → i < length ts → (t : Thread) × (get_elem? ts i ≡ some t)
get_elem?-inside [] i h = absurd (omega arith)
get_elem?-inside (t ∷ ts) zero h = (t, refl)
get_elem?-inside (t ∷ ts) (suc i) h = get_elem?-inside ts i (omega arith)

abbrev pub IsRunning : Thread → Type 0
IsRunning t = foreground_state t.state ≡ 0

pub same_state : {x t : Thread} → some x ≡ some t → IsRunning t → IsRunning x
same_state {x} same run =
    ap (λ o. elim o [ none ↦ 0 | some y ↦ foreground_state y.state ]) same ∙ run

-- The four answers of a visit.
pub Visit-cases :
    {W : Type 0} (r : Visit × BreakPoint × W)
    → (r ≡ (not_running, r.1, r.2))
      ⊎ ((t : Thread) × (r ≡ (can_run t, r.1, r.2)))
      ⊎ ((m : ℕ) × (r ≡ (blocked m, r.1, r.2)))
      ⊎ (r ≡ (debugger_blocked, r.1, r.2))
Visit-cases (not_running, b, w) = inl refl
Visit-cases (can_run t, b, w) = inr (inl (t, refl))
Visit-cases (blocked m, b, w) = inr (inr (inl (m, refl)))
Visit-cases (debugger_blocked, b, w) = inr (inr (inr refl))

module _ {W : Type 0} (ms_time : W → ℕ × W) (check : ℕ → Thread → W → Bool × W) where
  -- One round of the loop, by what `visit` says.
  module _ (fuel : ℕ) (ts : List Thread) (i prev min_sleep : ℕ) (b : BreakPoint) (w : W)
      (t : Thread) (at : get_elem? ts (next_index (length ts) i) ≡ some t) (b' : BreakPoint)
      (w' : W) where
    pub step-not_running :
        visit ms_time check t min_sleep b w ≡ (not_running, b', w')
        → next_thread ms_time check (suc fuel) ts i prev min_sleep b w
          ≡ next_thread ms_time check fuel ts (next_index (length ts) i) prev min_sleep b' w'
    unfolding next_thread
    step-not_running e =
        rw (next_thread, at, e)
          (ap
            (λ r.
              next_thread ms_time check fuel ts (next_index (length ts) i) prev min_sleep r.1 r.2)
            e)

    pub step-can_run :
        (t' : Thread)
        → visit ms_time check t min_sleep b w ≡ (can_run t', b', w')
        → next_thread ms_time check (suc fuel) ts i prev min_sleep b w
          ≡ some
              (ready (next_index (length ts) i) (set_thread ts (next_index (length ts) i) t') b' w')
    unfolding next_thread
    step-can_run t' e =
        rw (next_thread, at, e)
          (ap
            (λ r. some (
              ready (next_index (length ts) i) (set_thread ts (next_index (length ts) i) t') r.1
                r.2))
            e)

    pub step-blocked :
        (m : ℕ)
        → visit ms_time check t min_sleep b w ≡ (blocked m, b', w')
        → (next_index (length ts) i == prev) ≡ false
        → next_thread ms_time check (suc fuel) ts i prev min_sleep b w
          ≡ next_thread ms_time check fuel ts (next_index (length ts) i) prev m b' w'
    unfolding next_thread
    step-blocked m e away =
        rw (next_thread, at, e, away)
          (ap (λ r. next_thread ms_time check fuel ts (next_index (length ts) i) prev m r.1 r.2) e)

    pub step-all_blocked :
        (m : ℕ)
        → visit ms_time check t min_sleep b w ≡ (blocked m, b', w')
        → (next_index (length ts) i == prev) ≡ true
        → next_thread ms_time check (suc fuel) ts i prev min_sleep b w
          ≡ some (all_blocked m ts b' w')
    unfolding next_thread
    step-all_blocked m e here =
        rw (next_thread, at, e, here) (ap (λ r. some (all_blocked m ts r.1 r.2)) e)

    pub step-in_debugger :
        visit ms_time check t min_sleep b w ≡ (debugger_blocked, b', w')
        → next_thread ms_time check (suc fuel) ts i prev min_sleep b w ≡ some (in_debugger ts b' w')
    unfolding next_thread
    step-in_debugger e = rw (next_thread, at, e) (ap (λ r. some (in_debugger ts r.1 r.2)) e)

  -- A running thread is never passed over as one that is not running.
  pub visit-running :
      (t : Thread) (min_sleep : ℕ) (b : BreakPoint) (w : W) (b' : BreakPoint) (w' : W)
      → IsRunning t
      → visit ms_time check t min_sleep b w ≡ (not_running, b', w')
      → ⊥
  unfolding visit
  visit-running t min_sleep b w b' w' run e = ground arith

  pub search-ends :
      (fuel : ℕ) (ts : List Thread) (i prev min_sleep : ℕ) (b : BreakPoint) (w : W) (t : Thread)
      → i < length ts
      → prev < length ts
      → get_elem? ts prev ≡ some t
      → IsRunning t
      → distance (length ts) i prev ≤ fuel
      → (f : Found W) × (next_thread ms_time check fuel ts i prev min_sleep b w ≡ some f)
  search-ends zero ts i prev min_sleep b w t hi hp at run enough =
      absurd (omega (arith, distance-positive (length ts) i prev hi hp))
  search-ends (suc fuel) ts i prev min_sleep b w t hi hp at run enough =
      let j = next_index (length ts) i in
      let hj = next_index-below (length ts) i hi in
      let (x, there) = get_elem?-inside ts j hj in
      let r = visit ms_time check x min_sleep b w in
      let on : (m : ℕ)
          → j ≢ prev
          → (f : Found W) × (next_thread ms_time check fuel ts j prev m r.1 r.2 ≡ some f) =
        λ m away.
          search-ends fuel ts j prev m r.1 r.2 t hj hp at run
            (omega (arith, distance-next (length ts) i prev hi hp away)) in
      elim (Visit-cases r) [
        | inl e ↦
            let away : j ≢ prev = λ here.
              visit-running x min_sleep b w r.1 r.2
                (same_state (sym there ∙ ap (get_elem? ts) here ∙ at) run) e in
            let (f, ends) = on min_sleep away in
            (f, step-not_running fuel ts i prev min_sleep b w x there r.1 r.2 e ∙ ends)
        | inr (inl (t', e)) ↦ (_, step-can_run fuel ts i prev min_sleep b w x there r.1 r.2 t' e)
        | inr (inr (inl (m, e))) ↦ elim (Bool-cases (j == prev)) [
          | inl here ↦ (_, step-all_blocked fuel ts i prev min_sleep b w x there r.1 r.2 m e here)
          | inr away ↦
              let (f, ends) = on m (ground arith) in
              (f, step-blocked fuel ts i prev min_sleep b w x there r.1 r.2 m e away ∙ ends)
        ]
        | inr (inr (inr e)) ↦ (_, step-in_debugger fuel ts i prev min_sleep b w x there r.1 r.2 e)
      ]

  visit-can_run :
      (t : Thread) (min_sleep : ℕ) (b : BreakPoint) (w : W) (t' : Thread) (b' : BreakPoint) (w' : W)
      → visit ms_time check t min_sleep b w ≡ (can_run t', b', w')
      → IsRunning t
  unfolding visit
  visit-can_run t min_sleep b w t' b' w' e = elim (Bool-cases (foreground_state t.state == 0)) [
    | inl h ↦ ground arith
    | inr h ↦ ground arith
  ]

  pub visit-ready :
      (t : Thread) (min_sleep : ℕ) (b : BreakPoint) (w : W)
      → IsRunning t
      → t.async ≡ none
      → visit ms_time check t min_sleep b w ≡ (can_run t, b, w)
  unfolding visit
  visit-ready t min_sleep b w run e = ground arith

  -- A thread that the search finds is one of the list that can run as it was visited.
  abbrev pub Chosen : List Thread → ℕ → List Thread → BreakPoint → W → Type 0
  Chosen ts j ts' b' w' =
      (j < length ts)
      × ((t : Thread) × (t' : Thread) × (get_elem? ts j ≡ some t)
          × IsRunning t
          × ((m : ℕ) × (b : BreakPoint) × (w : W) × (visit ms_time check t m b w
                ≡ (can_run t', b', w')))
          × (ts' ≡ set_thread ts j t'))

  abbrev pub IfReady : (ℕ → List Thread → BreakPoint → W → Type 0) → Option (Found W) → Type 0
  IfReady P (some (ready j ts' b' w')) = P j ts' b' w'
  IfReady P o = Unit {0}

  pub search-no_fuel :
      (ts : List Thread) (i prev min_sleep : ℕ) (b : BreakPoint) (w : W)
      → next_thread ms_time check 0 ts i prev min_sleep b w ≡ none
  unfolding next_thread
  search-no_fuel ts i prev min_sleep b w = refl

  pub search-Chosen :
      (fuel : ℕ) (ts : List Thread) (i prev min_sleep : ℕ) (b : BreakPoint) (w : W)
      → i < length ts
      → IfReady (Chosen ts) (next_thread ms_time check fuel ts i prev min_sleep b w)
  search-Chosen zero ts i prev min_sleep b w hi = rw (search-no_fuel ts i prev min_sleep b w) tt
  search-Chosen (suc fuel) ts i prev min_sleep b w hi =
      let j = next_index (length ts) i in
      let hj = next_index-below (length ts) i hi in
      let (x, there) = get_elem?-inside ts j hj in
      let r = visit ms_time check x min_sleep b w in
      elim (Visit-cases r) [
        | inl e ↦
            rw (step-not_running fuel ts i prev min_sleep b w x there r.1 r.2 e)
              (search-Chosen fuel ts j prev min_sleep r.1 r.2 hj)
        | inr (inl (t', e)) ↦ rw (step-can_run fuel ts i prev min_sleep b w x there r.1 r.2 t' e) (
          hj,
          (x, t', there, visit-can_run x min_sleep b w t' r.1 r.2 e, (min_sleep, b, w, e), refl),
        )
        | inr (inr (inl (m, e))) ↦ elim (Bool-cases (j == prev)) [
          | inl here ↦
              rw (step-all_blocked fuel ts i prev min_sleep b w x there r.1 r.2 m e here) tt
          | inr away ↦
              rw (step-blocked fuel ts i prev min_sleep b w x there r.1 r.2 m e away)
                (search-Chosen fuel ts j prev m r.1 r.2 hj)
        ]
        | inr (inr (inr e)) ↦
            rw (step-in_debugger fuel ts i prev min_sleep b w x there r.1 r.2 e) tt
      ]
