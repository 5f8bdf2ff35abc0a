-- ===== src/Latch/Tests.antt =====
-- Runs of the latches, and witnesses of their theorems.
use rust_tikv_client.Prelude.{ℕ, ◌≡◌, refl, Bool, true, Option, none, some, List, [], ◌∷◌, arith}
use rust_tikv_client.Order.{bytes_ord, nat_ord}
use rust_tikv_client.OrdMap
use rust_tikv_client.OrdMap.{get, insert, remove, retain}
use rust_tikv_client.Key.{Key}
use rust_tikv_client.Latch.{
  LatchLock, Latches, Node, SlotInner, gen_lock, sorted_keys, new_lock, recycle_slot, set_commit_ts,
}
use rust_tikv_client.Latch.Step.{
  acquire, acquire_loop, acquire_slot, release, release_loop, release_slot,
}
use rust_tikv_client.Latch.Scheduler.{LatchesScheduler, new_scheduler, lock, wakeup, handle_unlock}
use rust_tikv_client.Latch.Laws.{Finishes, acquire-Finishes}

abbrev hash : Key → ℕ
hash k = 0

abbrev keys : List Key
keys = (7 ∷ []) ∷ (3 ∷ []) ∷ (7 ∷ []) ∷ []

sorted : sorted_keys keys ≡ (3 ∷ []) ∷ (7 ∷ []) ∷ []
unfolding sorted_keys insert
sorted = refl

abbrev first : LatchLock
first = new_lock 5 ((3 ∷ []) ∷ (7 ∷ []) ∷ []) (0 ∷ 0 ∷ [])

abbrev one_lock : Latches
one_lock = record { slots = []; locks = (1, first) ∷ [] }

-- Two transactions want the key 7: the second waits, is woken by the first's release, and is stale
-- because the first committed after the second began.
abbrev waits : Option (LatchesScheduler × Bool) → Option Bool
waits none = none
waits (some p) = some p.1

abbrev then_lock : Option (LatchesScheduler × Bool) → Option (LatchesScheduler × Bool)
then_lock none = none
then_lock (some p) = lock hash 1 2 6 ((7 ∷ []) ∷ []) p.0

abbrev commit_first : Option (LatchesScheduler × Bool) → Option LatchesScheduler
commit_first none = none
commit_first (some p) = handle_unlock 1 (record p.0 { latches = set_commit_ts 1 9 p.0.latches })

abbrev is_stale_of : Option LatchesScheduler → ℕ → Option Bool
is_stale_of none i = none
is_stale_of (some c) i = elim (OrdMap.get i c.latches.locks) [
  | none ↦ none
  | some l ↦ some l.is_stale
]

second_waits : waits (then_lock (lock hash 1 1 5 keys new_scheduler)) ≡ some true
unfolding lock gen_lock sorted_keys new_lock acquire acquire_loop acquire_slot new_scheduler get
    insert retain recycle_slot
second_waits = refl

second_stale :
    is_stale_of (commit_first (then_lock (lock hash 1 1 5 keys new_scheduler))) 2 ≡ some true
unfolding lock gen_lock sorted_keys new_lock acquire acquire_loop acquire_slot new_scheduler get
    insert retain recycle_slot handle_unlock release release_loop release_slot wakeup set_commit_ts
second_stale = refl

acquire-Finishes_example : Finishes one_lock 1 first (acquire 1 first one_lock)
unfolding get new_lock
acquire-Finishes_example = acquire-Finishes 1 one_lock first refl refl (omega arith) tt

abbrev old_node : Node
old_node = record { max_commit_ts = 0; value = none }

abbrev old_slot : SlotInner
old_slot = record { nodes = (3 ∷ [], old_node) ∷ []; waiting = [] }
