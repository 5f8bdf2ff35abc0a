-- ===== src/Latch/Scheduler.antt =====
-- src/transaction/latch.rs: the scheduler. Unlock events are handled one at a time by its task; a
-- recycling is a task of its own, so the handler only notes it.
use rust_tikv_client.Prelude.{
  ℕ, ◌+◌, Bool, true, false, ◌&&◌, ◌||◌, ltb, Option, none, some, List, [], ◌∷◌, ◌++◌,
  if◌then◌else◌,
}
use rust_tikv_client.Order.{nat_ord}
use rust_tikv_client.OrdMap
use rust_tikv_client.OrdMap.{OrdMap}
use rust_tikv_client.Key.{Key}
use rust_tikv_client.Latch.{
  AcquireResult, success, locked, stale, LatchLock, Latches, set_lock, gen_lock, recycle, tso_sub,
  check_interval, check_counter,
}
use rust_tikv_client.Latch.Step.{acquire, release}

-- `pending` lists the timestamps of recyclings that were spawned and have not run.
pub record LatchesScheduler : Type 0 where
  pub latches : Latches
  pub counter : ℕ
  pub last_recycle_ts : ℕ
  pub pending : List ℕ

unfoldable pub new_scheduler : LatchesScheduler
new_scheduler = record {
  latches = record { slots = []; locks = [] };
  counter = 0;
  last_recycle_ts = 0;
  pending = [];
}

-- `lock` up to its wait: `true` when it waits. `id` is the new lock's identity.
abbrev pub waits_after :
    LatchesScheduler → Option (Latches × AcquireResult) → Option (LatchesScheduler × Bool)
waits_after c none = none
waits_after c (some (s, locked)) = some (record c { latches = s }, true)
waits_after c (some (s, success)) = some (record c { latches = s }, false)
waits_after c (some (s, stale)) = some (record c { latches = s }, false)

unfoldable pub lock :
    (Key → ℕ) → ℕ → ℕ → ℕ → List Key → LatchesScheduler → Option (LatchesScheduler × Bool)
unfolding gen_lock acquire
lock hash size id start ks c =
    let l = gen_lock hash size start ks in waits_after c (acquire id l (set_lock c.latches id l))

abbrev pub wake : ℕ → Latches → Latches
wake id s = elim (OrdMap.get id s.locks) [
  | none ↦ s
  | some l ↦ set_lock s id (record l { notified = true })
]

abbrev pub wake_unless_locked : ℕ → Option (Latches × AcquireResult) → Option Latches
wake_unless_locked id none = none
wake_unless_locked id (some (s, locked)) = some s
wake_unless_locked id (some (s, success)) = some (wake id s)
wake_unless_locked id (some (s, stale)) = some (wake id s)

unfoldable pub wakeup : List ℕ → Latches → Option Latches
unfolding acquire
wakeup [] s = some s
wakeup (id ∷ ids) s = elim (OrdMap.get id s.locks) [
  | none ↦ none
  | some l ↦ elim (wake_unless_locked id (acquire id l s)) [ none ↦ none | some s' ↦ wakeup ids s' ]
]

abbrev pub recycle_due : LatchesScheduler → LatchLock → Bool
recycle_due c l =
    ltb l.start_ts l.commit_ts
    && (ltb check_interval (tso_sub l.commit_ts c.last_recycle_ts) || ltb check_counter c.counter)

abbrev pub note_recycle : LatchesScheduler → LatchLock → Latches → LatchesScheduler
note_recycle c l s =
    if recycle_due c l
    then record {
      latches = s;
      counter = 1;
      last_recycle_ts = l.commit_ts;
      pending = c.pending ++ l.commit_ts ∷ [];
    }
    else record c { latches = s; counter = c.counter + 1 }

-- The scheduler's task on one unlock event. The lock's timestamps are not changed meanwhile.
unfoldable pub handle_unlock : ℕ → LatchesScheduler → Option LatchesScheduler
unfolding release wakeup
handle_unlock id c = elim (OrdMap.get id c.latches.locks) [
  | none ↦ none
  | some l ↦ elim (release id l c.latches) [
    | none ↦ none
    | some p ↦ elim (wakeup p.1 p.0) [ none ↦ none | some s ↦ some (note_recycle c l s) ]
  ]
]

abbrev pub recycle_first : LatchesScheduler → List ℕ → LatchesScheduler
recycle_first c [] = c
recycle_first c (ts ∷ rest) = record c { latches = recycle ts c.latches; pending = rest }

unfoldable pub run_recycle : LatchesScheduler → LatchesScheduler
unfolding recycle
run_recycle c = recycle_first c c.pending
