-- ===== src/Transaction/Calls/Keeps.antt =====
-- src/transaction/transaction.rs: the calls that leave the status of a transaction.
use rust_tikv_client.Prelude.{
  ℕ, ◌≡◌, Bool, true, false, not, ◌&&◌, ◌||◌, Option, none, some, List, [], ◌∷◌, map, if◌then◌else◌,
  length, ◌==◌,
}
use rust_tikv_client.Key.{Key, Value}
use rust_tikv_client.Buffer
use rust_tikv_client.Buffer.{Buffer, primary_key_or}
use rust_tikv_client.Buffer.Entry.{Assertion, Mutation}
use rust_tikv_client.Buffer.Primary.{is_some}
use rust_tikv_client.Transaction.Results.{Result, Outcome, Error, ok, err, returns, panics, pending}
use rust_tikv_client.Transaction.Options.{is_pessimistic, push_for_update_ts}
use rust_tikv_client.Transaction.Status.{TransactionStatus, is_operable}
use rust_tikv_client.Transaction.{
  Transaction, World, Event, Done, done, chain, and_then, check_allow_operation,
  pipelined_record_key_change, pipelined_maybe_flush, set_buffer,
}
use rust_tikv_client.Transaction.Locking.{
  success_keys_of, lock_request, presume_all, pessimistic_lock, lock_nonempty, lock_at,
  lock_answered, lock_failed, after_lock, heartbeat_for, start_auto_heartbeat,
  pessimistic_lock_rollback, unlocked, send_heart_beat, heart_beat_for, is_auto_heartbeat,
}
use rust_tikv_client.Transaction.Writes.{
  encode_mutation, discard, lock_if_pessimistic, write, encoded, unasserted, put, insert, delete,
  batch_mutate, mutate_all, mutation_key, lock_each, lock_keys_with_options,
}

pub record Keeps {ℓ} {A : Type ℓ} (s : TransactionStatus) (d : Done A) : Type 0 where
  pub kept : d.txn.status ≡ s

pub keep {ℓ} :
    {A : Type ℓ} {s : TransactionStatus} {t : Transaction} {es : List Event} {o : Outcome A}
    → t.status ≡ s
    → Keeps s (done t es o)
keep h = record { kept = h }

pub chain-Keeps {ℓ κ} :
    {A : Type ℓ} {B : Type κ} (s : TransactionStatus) (t : Transaction) (es : List Event)
    (o : Outcome A) (f : Transaction → A → Done B)
    → t.status ≡ s
    → ((u : Transaction) (a : A) → u.status ≡ s → Keeps s (f u a))
    → Keeps s (chain t es o f)
chain-Keeps s t es (returns (ok a)) f h g = keep (g t a h).kept
chain-Keeps s t es (returns (err e)) f h g = keep h
chain-Keeps s t es panics f h g = keep h
chain-Keeps s t es pending f h g = keep h

pub and_then-Keeps {ℓ κ} :
    {A : Type ℓ} {B : Type κ} {s : TransactionStatus} {d : Done A} {f : Transaction → A → Done B}
    → Keeps s d
    → ((u : Transaction) (a : A) → u.status ≡ s → Keeps s (f u a))
    → Keeps s (and_then d f)
and_then-Keeps {s = s} {d = d} {f = f} h g = chain-Keeps s d.txn d.events d.outcome f h.kept g

-- Both branches of a test.
pub either {ℓ} :
    {A : Type ℓ} {s : TransactionStatus} (b : Bool) {d e : Done A}
    → Keeps s d
    → Keeps s e
    → Keeps s (if b then d else e)
either true h g = h
either false h g = g

module _ {s : TransactionStatus} where
  pub discard-Keeps {ℓ} : {A : Type ℓ} {d : Done A} → Keeps s d → Keeps s (discard d)
  discard-Keeps h = and_then-Keeps h (λ u a e. keep e)

  pub check_allow_operation-Keeps :
      (t : Transaction) → t.status ≡ s → Keeps s (check_allow_operation t)
  unfolding check_allow_operation
  check_allow_operation-Keeps t h = either (is_operable t.status) (keep h) (keep h)

  pub start_auto_heartbeat-Keeps :
      (t : Transaction) (p : Key) → t.status ≡ s → Keeps s (start_auto_heartbeat t p)
  unfolding start_auto_heartbeat
  start_auto_heartbeat-Keeps t p h =
      either (not (is_auto_heartbeat t.options.heartbeat_option) || t.is_heartbeat_started) (keep h)
        (keep h)

  heartbeat_for-Keeps :
      (t : Transaction) (p : Option Key) → t.status ≡ s → Keeps s (heartbeat_for t p)
  heartbeat_for-Keeps t none h = keep h
  heartbeat_for-Keeps t (some p) h = start_auto_heartbeat-Keeps t p h

  unlocked-Keeps :
      (t : Transaction) (ks : List Key) (es : List Event) (r : Result (Unit {0}))
      → t.status ≡ s
      → Keeps s (unlocked t ks es r)
  unlocked-Keeps t ks es (ok u) h = keep h
  unlocked-Keeps t ks es (err e) h = keep h

  pub pessimistic_lock_rollback-Keeps :
      (w : World) (t : Transaction) (ks : List Key) (ts : ℕ)
      → t.status ≡ s
      → Keeps s (pessimistic_lock_rollback w t ks ts)
  unfolding pessimistic_lock_rollback
  pessimistic_lock_rollback-Keeps w t [] ts h = keep h
  pessimistic_lock_rollback-Keeps w t (k ∷ ks) ts h = unlocked-Keeps t (k ∷ ks) _ _ h

  lock_failed-Keeps :
      (w : World) (t : Transaction) (ts : ℕ) (e : Error) (o : Option (List Key))
      → t.status ≡ s
      → Keeps s (lock_failed w t ts e o)
  lock_failed-Keeps w t ts e none h = keep h
  lock_failed-Keeps w t ts e (some ks) h =
      and_then-Keeps (pessimistic_lock_rollback-Keeps w t ks ts h) (λ u x g. keep g)

  lock_answered-Keeps :
      (w : World) (t : Transaction) (k : Key) (ls : List (Key × Assertion)) (ts : ℕ)
      (r : Result (List (Key × Value)))
      → t.status ≡ s
      → Keeps s (lock_answered w t k ls ts r)
  unfolding after_lock
  lock_answered-Keeps w t k ls ts (ok ps) h =
      let b = primary_key_or t.buffer k in
      and_then-Keeps
        (heartbeat_for-Keeps (record t { buffer = b; has_pessimistic_lock = true }) b.primary_key h)
        (λ u a e. keep e)
  lock_answered-Keeps w t k ls ts (err e) h = lock_failed-Keeps w t ts e (success_keys_of e) h

  lock_at-Keeps :
      (w : World) (t : Transaction) (k : Key) (ls : List (Key × Assertion)) (r : Result ℕ)
      → t.status ≡ s
      → Keeps s (lock_at w t k ls r)
  lock_at-Keeps w t k ls (ok ts) h =
      let u = record t { options = push_for_update_ts t.options ts } in
      keep (lock_answered-Keeps w u k ls ts (w.locks (lock_request u k ls ts)) h).kept
  lock_at-Keeps w t k ls (err e) h = keep h

  lock_nonempty-Keeps :
      (w : World) (t : Transaction) (force : Bool) (ls : List (Key × Assertion))
      → t.status ≡ s
      → Keeps s (lock_nonempty w t force ls)
  lock_nonempty-Keeps w t force [] h = keep h
  lock_nonempty-Keeps w t force ((k, a) ∷ ls) h =
      either (force && not (length ((k, a) ∷ ls) == 1)) (keep h)
        (lock_at-Keeps w t k (presume_all t.buffer ((k, a) ∷ ls)) w.timestamp h)

  pub pessimistic_lock-Keeps :
      (w : World) (t : Transaction) (force : Bool) (ls : List (Key × Assertion))
      → t.status ≡ s
      → Keeps s (pessimistic_lock w t force ls)
  unfolding pessimistic_lock
  pessimistic_lock-Keeps w t force ls h =
      either (is_pessimistic t.options) (lock_nonempty-Keeps w t force ls h) (keep h)

  lock_if_pessimistic-Keeps :
      (w : World) (t : Transaction) (ls : List (Key × Assertion))
      → t.status ≡ s
      → Keeps s (lock_if_pessimistic w t ls)
  lock_if_pessimistic-Keeps w t ls h =
      either (is_pessimistic t.options) (discard-Keeps (pessimistic_lock-Keeps w t false ls h))
        (keep h)

  write-Keeps :
      (w : World) (t : Transaction) (k : Key) (b : Buffer) → t.status ≡ s → Keeps s (write w t k b)
  unfolding pipelined_maybe_flush pipelined_record_key_change
  write-Keeps w t k b h = keep h

  mutate_all-status :
      (ms : List Mutation) (t : Transaction) → t.status ≡ s → (mutate_all t ms).status ≡ s
  unfolding mutate_all pipelined_record_key_change
  mutate_all-status [] t h = h
  mutate_all-status (m ∷ ms) t h =
      mutate_all-status ms
        (pipelined_record_key_change (set_buffer t (Buffer.mutate t.buffer m)) (mutation_key m)) h

  lock_each-status : (ks : List Key) (t : Transaction) → t.status ≡ s → (lock_each t ks).status ≡ s
  unfolding lock_each pipelined_record_key_change
  lock_each-status [] t h = h
  lock_each-status (k ∷ ks) t h =
      lock_each-status ks (pipelined_record_key_change (set_buffer t (Buffer.lock t.buffer k)) k) h

  pub put-Keeps :
      (w : World) (t : Transaction) (k : Key) (v : Value) → t.status ≡ s → Keeps s (put w t k v)
  unfolding put
  put-Keeps w t k v h = and_then-Keeps (check_allow_operation-Keeps t h) (λ u x e.
      and_then-Keeps (lock_if_pessimistic-Keeps w u (unasserted (encoded u k) ∷ []) e)
        (λ y z f. write-Keeps w y (encoded u k) (Buffer.put y.buffer (encoded u k) v) f))

  pub delete-Keeps : (w : World) (t : Transaction) (k : Key) → t.status ≡ s → Keeps s (delete w t k)
  unfolding delete
  delete-Keeps w t k h = and_then-Keeps (check_allow_operation-Keeps t h) (λ u x e.
      and_then-Keeps (lock_if_pessimistic-Keeps w u (unasserted (encoded u k) ∷ []) e)
        (λ y z f. write-Keeps w y (encoded u k) (Buffer.delete y.buffer (encoded u k)) f))

  pub insert-Keeps :
      (w : World) (t : Transaction) (k : Key) (v : Value) → t.status ≡ s → Keeps s (insert w t k v)
  unfolding insert
  insert-Keeps w t k v h = and_then-Keeps (check_allow_operation-Keeps t h) (λ u x e.
      either (is_some (Buffer.get u.buffer (encoded u k))) (keep e) (
        and_then-Keeps (lock_if_pessimistic-Keeps w u ((encoded u k, Assertion.not_exist) ∷ []) e)
          (λ y z f. write-Keeps w y (encoded u k) (Buffer.insert y.buffer (encoded u k) v) f)))

  pub batch_mutate-Keeps :
      (w : World) (t : Transaction) (ms : List Mutation)
      → t.status ≡ s
      → Keeps s (batch_mutate w t ms)
  unfolding batch_mutate pipelined_maybe_flush
  batch_mutate-Keeps w t ms h = and_then-Keeps (check_allow_operation-Keeps t h) (λ u x e.
      let es = map (encode_mutation u.keyspace) ms in
      and_then-Keeps (lock_if_pessimistic-Keeps w u (map (λ m. unasserted (mutation_key m)) es) e)
        (λ y z f. keep (mutate_all-status es y f)))

  pub lock_keys-Keeps :
      (w : World) (t : Transaction) (force : Bool) (ks : List Key)
      → t.status ≡ s
      → Keeps s (lock_keys_with_options w t force ks)
  unfolding lock_keys_with_options pipelined_maybe_flush
  lock_keys-Keeps w t force ks h = and_then-Keeps (check_allow_operation-Keeps t h) (λ u x e.
      let es = map (encoded u) ks in
      and_then-Keeps
        (either (is_pessimistic u.options)
          (discard-Keeps (pessimistic_lock-Keeps w u force (map unasserted es) e))
          (keep (lock_each-status es u e)))
        (λ y z f. keep f))

  heart_beat_for-Keeps :
      (w : World) (t : Transaction) (p : Option Key) → t.status ≡ s → Keeps s (heart_beat_for w t p)
  heart_beat_for-Keeps w t none h = keep h
  heart_beat_for-Keeps w t (some p) h = keep h

  pub send_heart_beat-Keeps :
      (w : World) (t : Transaction) → t.status ≡ s → Keeps s (send_heart_beat w t)
  unfolding send_heart_beat
  send_heart_beat-Keeps w t h =
      and_then-Keeps (check_allow_operation-Keeps t h)
        (λ u x e. heart_beat_for-Keeps w u u.buffer.primary_key e)
