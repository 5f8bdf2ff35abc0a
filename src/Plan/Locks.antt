-- ===== src/Plan/Locks.antt =====
-- src/request/plan.rs: ResolveLock, which resolves the locks that a response holds and asks again. Of
-- the keys that are locked, `L` is the type. The inner plan and resolve_locks are arguments; their
-- number counts the calls and sleeps.
pub mod Laws
pub mod Reroute
use rust_tikv_client.Prelude.{
  ℕ, zero, suc, ◌+◌, Bool, true, false, Option, none, some, List, [], ◌∷◌, if◌then◌else◌,
}
use rust_tikv_client.Backoff.{
  Backoff, BackoffKind, Delay, waits, stopped, panicked, next_delay_duration,
}
use rust_tikv_client.Routing.{ReadRouting, is_stale_read, force_leader}
use rust_tikv_client.Plan.{ErrorPb, PlanError, Answer, ok, err}

pub record Locked (L A : Type 0) : Type 0 where
  pub locks : List L
  pub region_error : Option ErrorPb
  pub body : A

-- How the plan ends; `unresolved` is the error `ResolveLockError`.
pub data Resolved (L A : Type 0) : Type 0 where
  done : Locked L A → Resolved L A
  fails : PlanError → Resolved L A
  unresolved : List L → Resolved L A
  panics pending : Resolved L A

-- `errorpb::Error::default()` with an empty `EpochNotMatch`.
unfoldable pub reroute_error : ErrorPb
reroute_error = record {
  not_leader = none;
  store_not_match = false;
  epoch_not_match = some [];
  region_not_found = false;
  key_not_in_region = false;
  stale_command = false;
  server_is_busy = false;
  max_timestamp_not_synced = false;
  read_index_not_ready = false;
  proposal_in_merging_mode = false;
  raft_entry_too_large = false;
  data_is_not_ready = false;
}

abbrev pub is_none : BackoffKind → Bool
is_none BackoffKind.no_delay = true
is_none _ = false

module _ {L A : Type 0} (inner : ℕ → Answer (Locked L A))
    (resolve_locks : ℕ → List L → Answer (List L)) (blank : A) (gen : ℕ → ℕ → ℕ) where
  -- The routing after the call, and how it ends.
  abbrev pub Ran : Type 0
  Ran = ReadRouting × Resolved L A

  unfoldable pub reroute_to_leader : Locked L A
  unfolding reroute_error
  reroute_to_leader = record { locks = []; region_error = some reroute_error; body = blank }

  abbrev pub after_delay : ReadRouting → List L → Ran → Backoff × Delay → Ran
  after_delay r live rest (b, waits d) = rest
  after_delay r live rest (b, stopped) = (r, unresolved live)
  after_delay r live rest (b, panicked) = (r, panics)

  -- A stale read that has met locks: the region is to be tried again, at its leader.
  abbrev pub reroute : ReadRouting → ℕ → Backoff → List L → Ran
  reroute r t b [] = (r, done reroute_to_leader)
  reroute r t b (l ∷ live) =
      after_delay r (l ∷ live) (r, done reroute_to_leader) (next_delay_duration (gen t) b)

  -- The inner plan anew, and the next turn.
  abbrev pub on_inner :
      (ℕ → Locked L A → Backoff → Ran) → ReadRouting → ℕ → Backoff → Answer (Locked L A) → Ran
  on_inner loop r t b (ok result) = loop t result b
  on_inner loop r t b (err e) = (r, fails e)

  abbrev pub ask_again : (ℕ → Locked L A → Backoff → Ran) → ReadRouting → ℕ → Backoff → Ran
  ask_again loop r t b = on_inner loop r (t + 1) b (inner t)

  abbrev pub ask_after :
      (ℕ → Locked L A → Backoff → Ran) → ReadRouting → ℕ → List L → Backoff × Delay → Ran
  ask_after loop r t live (b, waits d) = ask_again loop r (t + 1) b
  ask_after loop r t live (b, stopped) = (r, unresolved live)
  ask_after loop r t live (b, panicked) = (r, panics)

  abbrev pub retry : (ℕ → Locked L A → Backoff → Ran) → ReadRouting → ℕ → Backoff → List L → Ran
  retry loop r t b [] = ask_again loop r t b
  retry loop r t b (l ∷ live) = ask_after loop r t (l ∷ live) (next_delay_duration (gen t) b)

  abbrev pub on_resolved :
      (ℕ → Locked L A → Backoff → Ran) → Bool → ReadRouting → ℕ → Backoff → Answer (List L) → Ran
  on_resolved loop stale r t b (err e) = (r, fails e)
  on_resolved loop true r t b (ok live) = reroute r t b live
  on_resolved loop false r t b (ok live) = retry loop r t b live

  abbrev pub meet_locks :
      (ℕ → Locked L A → Backoff → Ran) → Bool → ReadRouting → ℕ → Backoff → List L → Ran
  meet_locks loop stale r t b locks =
      on_resolved loop stale (if stale then force_leader r else r) (t + 1) b (resolve_locks t locks)

  abbrev pub on_locks :
      (ℕ → Locked L A → Backoff → Ran) → ReadRouting → ℕ → Locked L A → Backoff → List L → Ran
  on_locks loop r t result b [] = (r, done result)
  on_locks loop r t result b (l ∷ locks) =
      if is_none b.kind
      then (r, unresolved (l ∷ locks))
      else meet_locks loop (is_stale_read r) r t b (l ∷ locks)

  -- The fuel counts the turns of the loop. `take_locks` leaves no lock in the result.
  unfoldable pub resolve_loop : ℕ → ReadRouting → ℕ → Locked L A → Backoff → Ran
  unfolding next_delay_duration reroute_to_leader
  resolve_loop zero r t result b = (r, pending)
  resolve_loop (suc fuel) r t result b =
      on_locks (resolve_loop fuel r) r t (record result { locks = [] }) b result.locks

  unfoldable pub execute : ℕ → ReadRouting → Backoff → Ran
  unfolding resolve_loop
  execute fuel r b = on_inner (resolve_loop fuel r) r 1 b (inner 0)
