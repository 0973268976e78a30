-- ===== src/Heap/Sync/Examples.antt =====
-- Two threads at the lock of an entry, and the theorems of the lock at them.
use iron_net.Prelude.{◌-◌, ◌^◌, ◌≡◌, refl, Option, some, none, List, [], ◌∷◌, arith}
use iron_net.Heap.Sync.{Sync, try_enter, sync_exit, Op, enter, leave, run}
use iron_net.Heap.Sync.Lock.{lock_run, block, run-lock_run, sync_exit-weak_ref}

-- Thread 3 enters twice, thread 4 has to wait, and gets the lock after the second exit.
abbrev two_threads : List Op
two_threads = enter 3 ∷ enter 4 ∷ enter 3 ∷ leave 3 ∷ enter 4 ∷ leave 4 ∷ leave 3 ∷ enter 4 ∷ []

two_threads_answers : (run two_threads none).0 ≡ 1 ∷ 0 ∷ 1 ∷ 1 ∷ 0 ∷ 0 ∷ 1 ∷ 1 ∷ []
unfolding run
two_threads_answers = refl

run-lock_run_example :
    run two_threads none ≡ ((lock_run two_threads none).0, block (lock_run two_threads none).1)
run-lock_run_example = run-lock_run two_threads (omega arith) (omega arith)

sync_exit-weak_ref_example :
    let s : Option Sync = some (record { thread = 3; count = 1; weak_ref = 9 }) in
    ((sync_exit 3 s).0 ≡ 1)
    × ((try_enter 4 (sync_exit 3 s).1).0 ≡ 0)
    × ((sync_exit 3 (sync_exit 3 s).1).1
        ≡ some (record { thread = 3; count = 2 ^ 32 - 1; weak_ref = 9 }))
sync_exit-weak_ref_example = sync_exit-weak_ref 3 4 9 (omega arith) (omega arith) (omega arith)
