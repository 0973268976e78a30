-- ===== src/Thread/Examples.antt =====
-- The scheduler run on three threads, and its theorems at them.
use iron_net.Prelude.{ℕ, ◌+◌, ◌≡◌, refl, arith, Bool, false, some, none, List, [], ◌∷◌}
use iron_net.Thread.{
  Thread, BreakPoint, Found, ready, other, next_thread, next_index, visit, foreground_state,
  sleep_remaining, is_over,
}
use iron_net.Thread.Search.{Chosen}
use iron_net.Thread.RoundRobin.{Serves, next_thread-ends, next_thread-Chosen, next_thread-fair}
use iron_net.Thread.Stack.{stack_alloc}

-- A clock that counts, and a lock that stays held.
abbrev clock : ℕ → ℕ × ℕ
clock w = (w, w + 1)

abbrev held : ℕ → Thread → ℕ → Bool × ℕ
held f t w = (false, w)

abbrev worker : Thread
worker = record { addr = 1; state = 0; exit_value = 7; async = none }

abbrev sleeper : Thread
sleeper = record {
  addr = 2;
  state = 0;
  exit_value = 0;
  async = some (record { sleep_time = 50; start_time = 0; check_fn = other 0 });
}

abbrev unstarted : Thread
unstarted = record { addr = 3; state = 8; exit_value = 0; async = none }

abbrev threads : List Thread
threads = unstarted ∷ worker ∷ sleeper ∷ []

abbrev breaks : BreakPoint
breaks = record { release = 0; waiting = 0 }

-- Behind the sleeper the unstarted thread is skipped, and the worker found.
found_worker : next_thread clock held 3 threads 2 2 100 breaks 10 ≡ some (ready 1 threads breaks 10)
unfolding next_thread next_index visit foreground_state
found_worker = refl

-- After 60 ms the sleeper is found behind the worker.
found_sleeper :
    next_thread clock held 3 threads 1 1 100 breaks 60 ≡ some (ready 2 threads breaks 61)
unfolding next_thread next_index visit foreground_state sleep_remaining is_over
found_sleeper = refl

worker_runs : foreground_state 0 ≡ 0
unfolding foreground_state
worker_runs = refl

next_thread-ends_example :
    (f : Found ℕ) × (next_thread clock held 3 threads 1 1 100 breaks 10 ≡ some f)
next_thread-ends_example =
    next_thread-ends clock held threads 1 100 breaks 10 worker refl (omega arith) worker_runs

next_thread-Chosen_example : Chosen clock held threads 2 threads breaks 61
next_thread-Chosen_example =
    next_thread-Chosen clock held 3 threads 1 100 breaks 60 2 threads breaks 61 (omega arith)
      found_sleeper

next_thread-fair_example :
    Serves clock held 2 1 threads (next_thread clock held 3 threads 2 2 100 breaks 10)
next_thread-fair_example =
    next_thread-fair clock held threads 2 100 breaks 10 1 worker (omega arith) (omega arith) refl
      worker_runs refl

allocated : stack_alloc 1000 200 300 ≡ some (1200, 500)
unfolding stack_alloc
allocated = refl
