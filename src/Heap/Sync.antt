-- ===== src/Heap/Sync.antt =====
-- DotNetAnywhere/Heap.c, EnsureSync to Heap_RemovedWeakRefTarget: the sync block of one heap entry,
-- which holds the entry's lock and the first of its weak references. A thread, and a weak reference,
-- is its address, and 0 is NULL. `none` is an entry with a NULL `pSync`.
pub mod Lock
mod Examples
use iron_net.Prelude.{
  ℕ, ◌+◌, ◌-◌, ◌%◌, ◌^◌, ◌≡◌, Option, none, some, Bool, true, false, ◌==◌, ◌&&◌, not, if◌then◌else◌,
  List, [], ◌∷◌, u32, sub_u32,
}

-- struct tSync_.
pub record Sync : Type 0 where
  pub thread : ℕ
  pub count : ℕ
  pub weak_ref : ℕ

abbrev pub fresh : Sync
fresh = record { thread = 0; count = 0; weak_ref = 0 }

-- EnsureSync: the block, allocated with zeros if there is none.
unfoldable pub ensure_sync : Option Sync → Sync
ensure_sync none = fresh
ensure_sync (some s) = s

-- DeleteSync: a block with no count and no weak reference is freed.
unfoldable pub delete_sync : Option Sync → Option Sync
delete_sync none = none
delete_sync (some s) = if (s.count == 0) && (s.weak_ref == 0) then none else some s

-- Heap_SyncTryEnter by the current thread: 1 if the lock was got.
unfoldable pub try_enter : ℕ → Option Sync → ℕ × Option Sync
unfolding ensure_sync
try_enter thread o =
    let s = ensure_sync o in
    if s.thread == 0
    then (1, some (record s { thread = thread; count = 1 }))
    else if s.thread == thread
    then (1, some (record s { count = u32 (s.count + 1) }))
    else (0, some s)

-- Heap_SyncExit by the current thread: 0 if it does not hold the lock.
unfoldable pub sync_exit : ℕ → Option Sync → ℕ × Option Sync
unfolding delete_sync
sync_exit thread none = (0, none)
sync_exit thread (some s) =
    if not (s.thread == thread)
    then (0, some s)
    else (let left = sub_u32 s.count 1 in
        let s' = record s { count = left } in
        (1, if left == 0 then delete_sync (some s') else some s'))

-- Heap_SetWeakRefTarget: the previous first weak reference, and the block with the new one.
unfoldable pub set_weak_ref_target : ℕ → Option Sync → ℕ × Option Sync
unfolding ensure_sync
set_weak_ref_target weak o =
    let s = ensure_sync o in (s.weak_ref, some (record s { weak_ref = weak }))

-- Heap_RemovedWeakRefTarget, after the list of weak references has been cut short to `weak`.
unfoldable pub removed_weak_ref_target : ℕ → Sync → Option Sync
unfolding delete_sync
removed_weak_ref_target weak s = delete_sync (some (record s { weak_ref = weak }))

-- What threads do with the lock: an entry that is tried, and an exit.
pub data Op : Type 0 where
  enter leave : ℕ → Op

unfoldable pub run : List Op → Option Sync → List ℕ × Option Sync
unfolding try_enter sync_exit
run [] o = ([], o)
run (enter t ∷ ops) o = let (r, o') = try_enter t o in let (rs, o'') = run ops o' in (r ∷ rs, o'')
run (leave t ∷ ops) o = let (r, o') = sync_exit t o in let (rs, o'') = run ops o' in (r ∷ rs, o'')
