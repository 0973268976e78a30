-- ===== src/Heap/Sync/Lock.antt =====
-- The lock of an entry without weak references is a reentrant lock, and one with weak references is
-- not given back.
use iron_net.Prelude.{
  ℕ, ◌+◌, ◌-◌, ◌^◌, ◌<◌, ◌≤◌, ◌≡◌, ◌≢◌, refl, Option, none, some, ◌==◌, if◌then◌else◌, List, [],
  ◌∷◌, arith, length, All,
}
use iron_net.Heap.Sync.{Sync, try_enter, sync_exit, Op, enter, leave, run}

-- The abstract lock: the thread that holds it, and how often more than once.
abbrev pub Lock : Type 0
Lock = Option (ℕ × ℕ)

pub lock_enter : ℕ → Lock → ℕ × Lock
lock_enter t none = (1, some (t, 0))
lock_enter t (some (owner, more)) =
    if owner == t then (1, some (owner, more + 1)) else (0, some (owner, more))

-- The last exit of the owner gives the lock back.
abbrev pub release : ℕ → ℕ → Lock
release owner more = if more == 0 then none else some (owner, more - 1)

pub lock_exit : ℕ → Lock → ℕ × Lock
lock_exit t none = (0, none)
lock_exit t (some (owner, more)) =
    if owner == t then (1, release owner more) else (0, some (owner, more))

pub lock_run : List Op → Lock → List ℕ × Lock
lock_run [] l = ([], l)
lock_run (enter t ∷ ops) l =
    let (r, l') = lock_enter t l in let (rs, l'') = lock_run ops l' in (r ∷ rs, l'')
lock_run (leave t ∷ ops) l =
    let (r, l') = lock_exit t l in let (rs, l'') = lock_run ops l' in (r ∷ rs, l'')

-- The block that stands for a lock, with no weak reference.
abbrev pub block : Lock → Option Sync
block none = none
block (some (owner, more)) = some (record { thread = owner; count = more + 1; weak_ref = 0 })

abbrev pub depth : Lock → ℕ
depth none = 0
depth (some (owner, more)) = more + 1

-- The owner is a thread.
abbrev pub HasOwner : Lock → Type 0
HasOwner none = Unit
HasOwner (some (owner, more)) = owner ≢ 0

abbrev pub thread_of : Op → ℕ
thread_of (enter t) = t
thread_of (leave t) = t

try_enter-block :
    (t : ℕ) (l : Lock)
    → t ≢ 0
    → HasOwner l
    → depth l + 1 < 2 ^ 32
    → (try_enter t (block l) ≡ ((lock_enter t l).0, block (lock_enter t l).1))
      × HasOwner (lock_enter t l).1
      × (depth (lock_enter t l).1 ≤ depth l + 1)
unfolding try_enter lock_enter
try_enter-block t none ht h small = (refl, ht, omega arith)
try_enter-block t (some (owner, more)) ht h small = ground arith

sync_exit-block :
    (t : ℕ) (l : Lock)
    → HasOwner l
    → depth l < 2 ^ 32
    → (sync_exit t (block l) ≡ ((lock_exit t l).0, block (lock_exit t l).1))
      × HasOwner (lock_exit t l).1
      × (depth (lock_exit t l).1 ≤ depth l)
unfolding sync_exit lock_exit
sync_exit-block t none h small = (refl, tt, omega arith)
sync_exit-block t (some (owner, more)) h small = ground arith

run-from :
    (ops : List Op) (l : Lock)
    → All (λ op. thread_of op ≢ 0) ops
    → HasOwner l
    → depth l + length ops < 2 ^ 32
    → run ops (block l) ≡ ((lock_run ops l).0, block (lock_run ops l).1)
unfolding run lock_run
run-from [] l ts h small = refl
run-from (enter t ∷ ops) l ts h small =
    let (step, h', d) = try_enter-block t l ts.0 h (omega arith) in
    rw (step, run-from ops (lock_enter t l).1 ts.1 h' (omega arith)) refl
run-from (leave t ∷ ops) l ts h small =
    let (step, h', d) = sync_exit-block t l h (omega arith) in
    rw (step, run-from ops (lock_exit t l).1 ts.1 h' (omega arith)) refl

-- On an entry that no weak reference targets, Heap_SyncTryEnter and Heap_SyncExit by any threads in
-- any order answer as a reentrant lock does, and leave a sync block only while a thread holds the
-- lock. There are fewer than 2 ^ 32 calls.
pub run-lock_run :
    (ops : List Op)
    → All (λ op. thread_of op ≢ 0) ops
    → length ops < 2 ^ 32
    → run ops none ≡ ((lock_run ops none).0, block (lock_run ops none).1)
run-lock_run ops ts small = run-from ops none ts tt (omega arith)

-- Where a weak reference targets the entry, the last Heap_SyncExit of the owner keeps the lock: no
-- other thread can enter, although the count is 0, and one more exit of the owner brings the count to
-- 2 ^ 32 - 1.
pub sync_exit-weak_ref :
    (owner other weak : ℕ)
    → owner ≢ 0
    → other ≢ owner
    → weak ≢ 0
    → let s : Option Sync = some (record { thread = owner; count = 1; weak_ref = weak }) in
      ((sync_exit owner s).0 ≡ 1)
      × ((try_enter other (sync_exit owner s).1).0 ≡ 0)
      × ((sync_exit owner (sync_exit owner s).1).1
          ≡ some (record { thread = owner; count = 2 ^ 32 - 1; weak_ref = weak }))
unfolding sync_exit try_enter
sync_exit-weak_ref owner other weak h h' w = ground arith
