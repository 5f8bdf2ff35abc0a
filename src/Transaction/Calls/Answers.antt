-- ===== src/Transaction/Calls/Answers.antt =====
-- src/transaction/transaction.rs: a pessimistic lock request, whatever it is answered.
use rust_tikv_client.Prelude.{
  ℕ, ◌≡◌, refl, sym, ap, ◌∙◌, subst, arith, if-elim, Bool, true, false, ◌==◌, length, Option, none,
  some, List, [], ◌∷◌, not, ◌&&◌, ◌||◌, if◌then◌else◌,
}
use rust_tikv_client.Order.{bytes_ord}
use rust_tikv_client.OrdMap
use rust_tikv_client.Key.{Key, Value}
use rust_tikv_client.Buffer
use rust_tikv_client.Buffer.{Buffer, primary_key_or}
use rust_tikv_client.Buffer.Entry.{Assertion}
use rust_tikv_client.Transaction.Results.{
  Result, Error, ok, err, returns, invalid_transaction_type, invalid_pessimistic_lock_options,
}
use rust_tikv_client.Transaction.Options.{is_pessimistic, push_for_update_ts}
use rust_tikv_client.Transaction.Requests.{
  RollbackRequest, new_pessimistic_rollback_request, rollback_sent,
}
use rust_tikv_client.Transaction.{
  Transaction, World, Event, sends, sends_lock, spawns_heartbeat, Done, done, set_buffer, and_then,
  PessimisticLockRequest,
}
use rust_tikv_client.Transaction.Locking.{
  pessimistic_lock, lock_nonempty, lock_at, lock_answered, lock_failed, presume_all, lock_all,
  unlocked, pessimistic_lock_rollback, success_keys_of, or_key, heartbeat_for, start_auto_heartbeat,
  is_auto_heartbeat, after_lock,
}
use rust_tikv_client.Transaction.Calls.Entries.{
  taken, freed, among, unlock_all-entry, unlock_all-OnlyEntries, lock_all-entry,
  lock_all-OnlyEntries,
}
use rust_tikv_client.Transaction.Calls.Asks.{
  keys_of, pushed, request_for, AsksLocks, presume_all-keys, request_for-AsksLocks,
}

primary_some : (k : Key) (o : Option Key) → Buffer.or_key o k ≡ some (or_key o k)
primary_some k none = refl
primary_some k (some p) = refl

module _ (w : World) (t : Transaction) (ts : ℕ) (k : Key) (ks : List Key)
    (q : PessimisticLockRequest) where
  -- All locks are there: the entry of each key asked for is locked, and no other entry changes; the
  -- transaction has a primary key and a lock, and its heartbeats are started unless they were.
  abbrev pub IsLocked : List (Key × Value) → Done (List (Key × Value)) → Type 0
  IsLocked pairs d =
      let p = or_key t.buffer.primary_key k in
      let auto = is_auto_heartbeat t.options.heartbeat_option in
      (d.outcome ≡ returns (ok pairs))
      × (d.txn ≡ record (pushed t ts) {
        buffer = record t.buffer { primary_key = some p; entry_map = d.txn.buffer.entry_map };
        has_pessimistic_lock = true;
        is_heartbeat_started = t.is_heartbeat_started || auto;
      })
      × ((j : Key)
          → OrdMap.get j d.txn.buffer.entry_map ≡ (
              if among j ks
              then taken (OrdMap.get j t.buffer.entry_map)
              else OrdMap.get j t.buffer.entry_map))
      × (d.events
          ≡ sends_lock q
            ∷ (if auto && not t.is_heartbeat_started then spawns_heartbeat p ∷ [] else []))

  -- The locks on `us` were given up: these keys are unlocked in the buffer.
  abbrev pub IsUndone : Error → List Key → Result (Unit {0}) → Done (List (Key × Value)) → Type 0
  IsUndone e us (ok u) d =
      (d.outcome ≡ returns (err e))
      × (d.txn ≡ record (pushed t ts) {
        buffer = record t.buffer { entry_map = d.txn.buffer.entry_map };
      })
      × ((j : Key)
          → OrdMap.get j d.txn.buffer.entry_map ≡ (
              if among j us
              then freed (OrdMap.get j t.buffer.entry_map)
              else OrdMap.get j t.buffer.entry_map))
  IsUndone e us (err x) d = (d.outcome ≡ returns (err x)) × (d.txn ≡ pushed t ts)

  abbrev pub undo_for : List Key → RollbackRequest
  undo_for us = record { keys = us; start_version = t.timestamp; for_update_ts = some ts }

  -- The locks were refused, with the keys that were locked before.
  abbrev pub IsRefused : Error → Option (List Key) → Done (List (Key × Value)) → Type 0
  IsRefused e none d =
      (d.outcome ≡ returns (err e)) × (d.txn ≡ pushed t ts) × (d.events ≡ sends_lock q ∷ [])
  IsRefused e (some []) d =
      (d.outcome ≡ returns (err e)) × (d.txn ≡ pushed t ts) × (d.events ≡ sends_lock q ∷ [])
  IsRefused e (some (u ∷ us)) d =
      IsUndone e (u ∷ us) (w.store.rollbacks (undo_for (u ∷ us))) d
      × (d.events ≡ sends_lock q ∷ sends (rollback_sent (undo_for (u ∷ us))) ∷ [])

  abbrev pub IsAnswered : Result (List (Key × Value)) → Done (List (Key × Value)) → Type 0
  IsAnswered (ok pairs) d = IsLocked pairs d
  IsAnswered (err e) d = IsRefused e (success_keys_of e) d

  abbrev after_request : Done (List (Key × Value)) → Done (List (Key × Value))
  after_request d = done d.txn (sends_lock q ∷ d.events) d.outcome

  undone :
      (e : Error) (u : Key) (us : List Key) (r : Result (Unit {0}))
      → let ev = sends (rollback_sent (undo_for (u ∷ us))) in
        let d = after_request (
          and_then
            (unlocked (pushed t ts) (u ∷ us) (ev ∷ []) r)
            (λ v x. done v [] (returns (err e)))) in
        IsUndone e (u ∷ us) r d × (d.events ≡ sends_lock q ∷ ev ∷ [])
  undone e u us (ok tt) = (
    (
      refl,
      ap (λ b. record (pushed t ts) { buffer = b }) (unlock_all-OnlyEntries (u ∷ us) t.buffer),
      unlock_all-entry (u ∷ us) t.buffer,
    ),
    refl,
  )
  undone e u us (err x) = ((refl, refl), refl)

  refused :
      (e : Error) (o : Option (List Key))
      → IsRefused e o (after_request (lock_failed w (pushed t ts) ts e o))
  unfolding pessimistic_lock_rollback new_pessimistic_rollback_request
  refused e none = (refl, refl, refl)
  refused e (some []) = (refl, refl, refl)
  refused e (some (u ∷ us)) = undone e u us (w.store.rollbacks (undo_for (u ∷ us)))

  module _ (ls : List (Key × Assertion)) (same : keys_of ls ≡ ks) (pairs : List (Key × Value)) where
    -- The state after the heartbeats were started or not.
    ended :
        (b : Bool) (es : List Event)
        → b ≡ (t.is_heartbeat_started || is_auto_heartbeat t.options.heartbeat_option)
        → es ≡ (
            if is_auto_heartbeat t.options.heartbeat_option && not t.is_heartbeat_started
            then spawns_heartbeat (or_key t.buffer.primary_key k) ∷ []
            else [])
        → IsLocked pairs (
            done
              (record (pushed t ts) {
                buffer = lock_all (primary_key_or t.buffer k) ls;
                has_pessimistic_lock = true;
                is_heartbeat_started = b;
              })
              (sends_lock q ∷ es)
              (returns (ok pairs)))
    unfolding primary_key_or
    ended b es h g =
        let c = primary_key_or t.buffer k in
        let m = (lock_all c ls).entry_map in
        let some_key = primary_some k t.buffer.primary_key in
        (
          refl,
          ap
                (λ x. record (pushed t ts) {
                  buffer = x;
                  has_pessimistic_lock = true;
                  is_heartbeat_started = b;
                })
                (lock_all-OnlyEntries ls c (or_key t.buffer.primary_key k) some_key
                  ∙ ap (λ o. record t.buffer { primary_key = o; entry_map = m }) some_key)
              ∙ ap
                  (λ x. record (pushed t ts) {
                    buffer = record t.buffer {
                      primary_key = some (or_key t.buffer.primary_key k);
                      entry_map = m;
                    };
                    has_pessimistic_lock = true;
                    is_heartbeat_started = x;
                  })
                  h,
          λ j.
              lock_all-entry ls c j
              ∙ ap
                  (λ is.
                    if among j is
                    then taken (OrdMap.get j t.buffer.entry_map)
                    else OrdMap.get j t.buffer.entry_map)
                  same,
          ap (◌∷◌ (sends_lock q)) g,
        )

    succeeded : IsLocked pairs (after_request (after_lock (pushed t ts) k ls pairs))
    unfolding after_lock start_auto_heartbeat primary_key_or push_for_update_ts
    succeeded =
        let u : Transaction = record (pushed t ts) {
          buffer = primary_key_or t.buffer k;
          has_pessimistic_lock = true;
        } in
        let f : Transaction → Unit {0} → Done (List (Key × Value)) =
          λ v x. done (set_buffer v (lock_all v.buffer ls)) [] (returns (ok pairs)) in
        let auto = is_auto_heartbeat t.options.heartbeat_option in
        subst (λ o. IsLocked pairs (after_request (and_then (heartbeat_for u o) f)))
          (sym (primary_some k t.buffer.primary_key))
          (if-elim (λ d. IsLocked pairs (after_request (and_then d f)))
            (not auto || t.is_heartbeat_started) _ _
            (λ e. ended t.is_heartbeat_started [] (ground (arith, e)) (ground (arith, e)))
            (λ e.
              ended true (spawns_heartbeat (or_key t.buffer.primary_key k) ∷ []) (ground (arith, e))
                (ground (arith, e))))

  answered :
      (ls : List (Key × Assertion))
      → keys_of ls ≡ ks
      → (r : Result (List (Key × Value)))
      → IsAnswered r (after_request (lock_answered w (pushed t ts) k ls ts r))
  answered ls same (ok pairs) = succeeded ls same pairs
  answered ls same (err e) = refused e (success_keys_of e)

-- In a pessimistic transaction, a lock request that is sent asks for its keys, for the start version
-- and the new timestamp. When it succeeds, the entries of exactly these keys are locked in the
-- buffer, and the heartbeats are started. When it fails although some keys were locked, exactly these
-- are asked to be rolled back, once and after the request: if that succeeds, exactly their entries are
-- unlocked in the buffer and the error of the request is returned, otherwise the buffer is as before,
-- and the error of the rollback is returned. After any other error the buffer is as before, and
-- nothing else is sent. The options keep the timestamp; nothing else changes.
pub pessimistic_lock-IsAnswered :
    (w : World) (t : Transaction) (force : Bool) (k : Key) (a : Assertion)
    (ls : List (Key × Assertion)) (ts : ℕ)
    → is_pessimistic t.options ≡ true
    → (force && not (length ((k, a) ∷ ls) == 1)) ≡ false
    → w.timestamp ≡ ok ts
    → let q = request_for t ts k ((k, a) ∷ ls) in
      AsksLocks t ts k (keys_of ((k, a) ∷ ls)) q
      × IsAnswered w t ts k
          (keys_of ((k, a) ∷ ls))
          q
          (w.locks q)
          (pessimistic_lock w t force ((k, a) ∷ ls))
unfolding pessimistic_lock
pessimistic_lock-IsAnswered w t force k a ls ts p q r =
    let all = (k, a) ∷ ls in
    let req = request_for t ts k all in
    let goal =
      λ (d : Done (List (Key × Value))). IsAnswered w t ts k (keys_of all) req (w.locks req) d in
    let locks = presume_all t.buffer all in
    (
      request_for-AsksLocks t ts k all,
      subst
          (λ b. goal (
            if b
            then lock_nonempty w t force all
            else done t [] (returns (err invalid_transaction_type))))
          (sym p)
          (subst
            (λ b. goal (
              if b
              then done t [] (returns (err invalid_pessimistic_lock_options))
              else lock_at w t k locks w.timestamp))
            (sym q)
            (subst (λ o. goal (lock_at w t k locks o)) (sym r)
              (answered w t ts k (keys_of all) req locks (presume_all-keys t.buffer all)
                (w.locks req)))),
    )
