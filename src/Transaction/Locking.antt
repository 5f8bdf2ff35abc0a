-- ===== src/Transaction/Locking.antt =====
-- src/transaction/transaction.rs: pessimistic locks and heartbeats.
use rust_tikv_client.Prelude.{
  ℕ, ◌+◌, Bool, true, false, not, ◌&&◌, ◌||◌, ◌==◌, Option, none, some, List, [], ◌∷◌,
  if◌then◌else◌, length,
}
use rust_tikv_client.Key.{Key, Value}
use rust_tikv_client.Flags.{has_presume_key_not_exists}
use rust_tikv_client.Buffer
use rust_tikv_client.Buffer.{Buffer, flags_of, primary_key_or}
use rust_tikv_client.Buffer.Entry.{Assertion}
use rust_tikv_client.Transaction.Results.{
  Result, Error, ok, err, returns, panics, invalid_transaction_type,
  invalid_pessimistic_lock_options, pessimistic_lock_error, no_primary_key,
}
use rust_tikv_client.Transaction.Options.{
  is_pessimistic, push_for_update_ts, HeartbeatOption, no_heartbeat, fixed_time,
}
use rust_tikv_client.Transaction.Status.{TransactionStatus, rolledback, committed, dropped}
use rust_tikv_client.Transaction.Requests.{
  rollback_sent, new_pessimistic_rollback_request, saturating_add,
}
use rust_tikv_client.Transaction.Committer.{max_ttl}
use rust_tikv_client.Transaction.{
  Transaction, World, Event, sends, sends_lock, sends_heart_beat, spawns_heartbeat, Done, done,
  and_then, set_buffer, check_allow_operation, PessimisticLockRequest,
}

unfoldable pub new_pessimistic_lock_request :
    List (Key × Assertion) → Key → ℕ → ℕ → ℕ → Bool → PessimisticLockRequest
new_pessimistic_lock_request locks primary_lock start_version lock_ttl for_update_ts is_first_lock =
    record {
      mutations = locks;
      primary_lock = primary_lock;
      start_version = start_version;
      lock_ttl = lock_ttl;
      for_update_ts = for_update_ts;
      is_first_lock = is_first_lock;
      min_commit_ts = saturating_add for_update_ts 1;
    }

abbrev pub is_auto_heartbeat : HeartbeatOption → Bool
is_auto_heartbeat no_heartbeat = false
is_auto_heartbeat (fixed_time ms) = true

unfoldable pub start_auto_heartbeat : Transaction → Key → Done (Unit {0})
start_auto_heartbeat t p =
    if not (is_auto_heartbeat t.options.heartbeat_option) || t.is_heartbeat_started
    then done t [] (returns (ok tt))
    else done (record t { is_heartbeat_started = true }) (spawns_heartbeat p ∷ []) (returns (ok tt))

-- The test at each turn of the task that sends heartbeats.
unfoldable pub stops_heartbeat : TransactionStatus → Bool
stops_heartbeat rolledback = true
stops_heartbeat committed = true
stops_heartbeat dropped = true
stops_heartbeat _ = false

abbrev pub or_not_exist : Bool → Assertion → Assertion
or_not_exist true Assertion.unasserted = Assertion.not_exist
or_not_exist true a = a
or_not_exist false a = a

unfoldable pub presume_all : Buffer → List (Key × Assertion) → List (Key × Assertion)
unfolding flags_of
presume_all b [] = []
presume_all b ((k, a) ∷ ls) =
    (k, or_not_exist (has_presume_key_not_exists (flags_of b k)) a) ∷ presume_all b ls

unfoldable pub lock_all : Buffer → List (Key × Assertion) → Buffer
unfolding Buffer.lock
lock_all b [] = b
lock_all b ((k, a) ∷ ls) = lock_all (Buffer.lock b k) ls

unfoldable pub unlock_all : Buffer → List Key → Buffer
unfolding Buffer.unlock
unlock_all b [] = b
unlock_all b (k ∷ ks) = unlock_all (Buffer.unlock b k) ks

abbrev pub unlocked : Transaction → List Key → List Event → Result (Unit {0}) → Done (Unit {0})
unlocked t ks es (ok u) = done (set_buffer t (unlock_all t.buffer ks)) es (returns (ok tt))
unlocked t ks es (err e) = done t es (returns (err e))

unfoldable pub pessimistic_lock_rollback : World → Transaction → List Key → ℕ → Done (Unit {0})
unfolding new_pessimistic_rollback_request unlock_all
pessimistic_lock_rollback w t [] for_update_ts = done t [] (returns (ok tt))
pessimistic_lock_rollback w t (k ∷ ks) for_update_ts =
    let req = new_pessimistic_rollback_request (k ∷ ks) t.timestamp for_update_ts in
    unlocked t (k ∷ ks) (sends (rollback_sent req) ∷ []) (w.store.rollbacks req)

abbrev pub heartbeat_for : Transaction → Option Key → Done (Unit {0})
heartbeat_for t none = done t [] panics
heartbeat_for t (some p) = start_auto_heartbeat t p

-- The keys are locked; `first` is the first of them.
unfoldable pub after_lock :
    Transaction → Key → List (Key × Assertion) → List (Key × Value) → Done (List (Key × Value))
unfolding primary_key_or lock_all start_auto_heartbeat
after_lock t first ls pairs =
    let u = record t { buffer = primary_key_or t.buffer first; has_pessimistic_lock = true } in
    and_then (heartbeat_for u u.buffer.primary_key)
      (λ v x. done (set_buffer v (lock_all v.buffer ls)) [] (returns (ok pairs)))

-- An error that some of the keys were locked before: these are unlocked again, and the error is
-- returned unless that fails.
abbrev pub success_keys_of : Error → Option (List Key)
success_keys_of (pessimistic_lock_error inner keys) = some keys
success_keys_of _ = none

abbrev pub lock_failed :
    World → Transaction → ℕ → Error → Option (List Key) → Done (List (Key × Value))
lock_failed w t for_update_ts e (some keys) =
    and_then (pessimistic_lock_rollback w t keys for_update_ts) (λ v x. done v [] (returns (err e)))
lock_failed w t for_update_ts e none = done t [] (returns (err e))

abbrev pub lock_answered :
    World
    → Transaction
    → Key
    → List (Key × Assertion)
    → ℕ
    → Result (List (Key × Value))
    → Done (List (Key × Value))
lock_answered w t first ls for_update_ts (ok pairs) = after_lock t first ls pairs
lock_answered w t first ls for_update_ts (err e) =
    lock_failed w t for_update_ts e (success_keys_of e)

abbrev pub or_key : Option Key → Key → Key
or_key none k = k
or_key (some p) k = p

unfoldable pub lock_request :
    Transaction → Key → List (Key × Assertion) → ℕ → PessimisticLockRequest
unfolding new_pessimistic_lock_request
lock_request t first ls for_update_ts =
    new_pessimistic_lock_request ls (or_key t.buffer.primary_key first) t.timestamp max_ttl
      for_update_ts (not t.has_pessimistic_lock && length ls == 1)

abbrev pub lock_at :
    World → Transaction → Key → List (Key × Assertion) → Result ℕ → Done (List (Key × Value))
lock_at w t first ls (err e) = done t [] (returns (err e))
lock_at w t first ls (ok for_update_ts) =
    let u = record t { options = push_for_update_ts t.options for_update_ts } in
    let req = lock_request u first ls for_update_ts in
    let d = lock_answered w u first ls for_update_ts (w.locks req) in
    done d.txn (sends_lock req ∷ d.events) d.outcome

abbrev pub lock_nonempty :
    World → Transaction → Bool → List (Key × Assertion) → Done (List (Key × Value))
lock_nonempty w t force [] = done t [] (returns (ok []))
lock_nonempty w t force ((k, a) ∷ ls) =
    if force && not (length ((k, a) ∷ ls) == 1)
    then done t [] (returns (err invalid_pessimistic_lock_options))
    else lock_at w t k (presume_all t.buffer ((k, a) ∷ ls)) w.timestamp

-- `force` is the wake-up mode `WakeUpModeForceLock`; the other options only label the request.
unfoldable pub pessimistic_lock :
    World → Transaction → Bool → List (Key × Assertion) → Done (List (Key × Value))
unfolding is_pessimistic presume_all push_for_update_ts lock_request after_lock
    pessimistic_lock_rollback
pessimistic_lock w t force ls =
    if is_pessimistic t.options
    then lock_nonempty w t force ls
    else done t [] (returns (err invalid_transaction_type))

abbrev pub heart_beat_for : World → Transaction → Option Key → Done ℕ
heart_beat_for w t none = done t [] (returns (err no_primary_key))
heart_beat_for w t (some p) =
    let ttl = w.store.elapsed + max_ttl in
    done t (sends_heart_beat t.timestamp p ttl ∷ []) (returns (w.heart_beats t.timestamp p ttl))

unfoldable pub send_heart_beat : World → Transaction → Done ℕ
unfolding check_allow_operation
send_heart_beat w t =
    and_then (check_allow_operation t) (λ u x. heart_beat_for w u u.buffer.primary_key)
