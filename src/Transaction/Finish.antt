-- ===== src/Transaction/Finish.antt =====
-- src/transaction/transaction.rs: the commit and the rollback of a transaction, and its drop.
use rust_tikv_client.Prelude.{
  ℕ, Bool, true, false, not, ◌&&◌, Option, none, some, List, [], ◌∷◌, ◌++◌, if◌then◌else◌, map,
  replicate,
}
use rust_tikv_client.Key.{Key}
use rust_tikv_client.Buffer.Entry.{ProtoMutation}
use rust_tikv_client.Buffer.Lowering.{
  to_proto_mutations, get_write_size, commit_keys, choose_primary, map_option,
}
use rust_tikv_client.Buffer.Primary.{is_some}
use rust_tikv_client.Transaction.Results.{
  Result, Outcome, ok, err, returns, panics, pending, is_grpc, operation_after_commit_error,
  invalid_pipelined_transaction, write_conflict_in_latch, undetermined_error,
}
use rust_tikv_client.Transaction.Options.{CheckLevel, panic, is_pessimistic}
use rust_tikv_client.Transaction.Status.{
  TransactionStatus, active, committed, started_commit, rolledback, started_rollback, dropped,
  transit_loop, can_commit, can_rollback, same_status,
}
use rust_tikv_client.Transaction.Requests.{commit_sent, new_commit_request_with_primary_key}
use rust_tikv_client.Transaction.Committer.{Committer, Run, prewrite}
use rust_tikv_client.Transaction.Committer.Commit
use rust_tikv_client.Transaction.Committer.Commit.{fetch}
use rust_tikv_client.Transaction.{
  Transaction, World, Event, sends, takes_latches, sets_commit_ts, flushes_all, cancels_flush,
  spawns_resolve, Done, done, and_then, set_status,
}
use rust_tikv_client.Transaction.Locking.{start_auto_heartbeat}

-- Nothing else stores into the status while a call runs, and an exchange that fails finds the same.
unfoldable pub transit_status :
    World → Transaction → (TransactionStatus → Bool) → TransactionStatus → TransactionStatus × Bool
unfolding transit_loop
transit_status w t check next = transit_loop check next (replicate w.failures t.status) t.status

-- `Committer::new`.
abbrev pub new_committer : Transaction → Option Key → List ProtoMutation → List Key → Committer
new_committer t p ms ks = record {
  primary_key = p;
  prewrite_mutations = ms;
  commit_keys = ks;
  start_version = t.timestamp;
  options = t.options;
  undetermined = false;
  write_size = get_write_size t.buffer;
}

abbrev pub done_run {ℓ} : {A : Type ℓ} → Transaction → Run A → Done A
done_run t r = done t (map sends r.sent) r.outcome

-- `if res.is_ok() { self.set_status(next) }`.
abbrev pub settle {ℓ} : {A : Type ℓ} → TransactionStatus → Done A → Done A
settle next d = and_then d (λ t a. done (set_status t next) [] (returns (ok a)))

-- `commit_pipelined` after the flush: the commit of the primary, and the task that resolves the
-- range that was flushed.
abbrev pub resolve_range : ℕ → ℕ → Option (Key × Key) → List Event
resolve_range start_ts commit_ts none = []
resolve_range start_ts commit_ts (some (low, high)) =
    spawns_resolve start_ts commit_ts low high ∷ []

abbrev pub pipelined_committed :
    World → Transaction → Event → ℕ → Result (Unit {0}) → Done (Option ℕ)
pipelined_committed w t sent ts (ok u) =
    done t (sent ∷ resolve_range t.timestamp ts w.flushed_range) (returns (ok (some ts)))
pipelined_committed w t sent ts (err e) =
    done t (sent ∷ []) (returns (err (if is_grpc e then undetermined_error e else e)))

abbrev pub pipelined_commit_at : World → Transaction → Key → Outcome ℕ → Done (Option ℕ)
pipelined_commit_at w t p (returns (ok ts)) =
    let req = new_commit_request_with_primary_key (p ∷ []) (some p) t.timestamp ts in
    pipelined_committed w t (sends (commit_sent req)) ts (w.store.commits req)
pipelined_commit_at w t p (returns (err e)) = done t [] (returns (err e))
pipelined_commit_at w t p panics = done t [] panics
pipelined_commit_at w t p pending = done t [] pending

-- The state that a pipelined transaction must have, and its flush.
abbrev pub flush_all_with {ℓ} :
    {A : Type ℓ} → World → Transaction → Key → Option A → Done (Unit {0})
flush_all_with w t p none = done t [] (returns (err invalid_pipelined_transaction))
flush_all_with w t p (some state) = done t (flushes_all p ∷ []) (returns (w.flush_all p))

unfoldable pub commit_pipelined : World → Transaction → Key → Done (Option ℕ)
unfolding new_commit_request_with_primary_key Commit.fetch_loop
commit_pipelined w t p = and_then (flush_all_with w t p t.pipelined) (λ u x.
    let o = u.options in
    pipelined_commit_at w u p
      (fetch w.store o.commit_wait_until_tso_timeout o.commit_wait_until_tso))

abbrev pub first_mutation_key : List ProtoMutation → Option Key
first_mutation_key [] = none
first_mutation_key (pb ∷ pbs) = some pb.key

abbrev pub or_first : Option Key → List ProtoMutation → Option Key
or_first none ms = first_mutation_key ms
or_first (some p) ms = some p

-- The branch of `commit` for pipelined transactions, with the primary key or the first mutation's.
abbrev pub commit_piped : World → Transaction → List Key → Option Key → Done (Option ℕ)
commit_piped w t ks none = done t [] panics
commit_piped w t [] (some p) =
    settle committed
      (and_then (flush_all_with w t p t.pipelined) (λ u x. done u [] (returns (ok none))))
commit_piped w t (k ∷ ks) (some p) = settle committed (commit_pipelined w t p)

-- The branch of `commit` when no key is committed: the prewrite checks.
abbrev pub commit_checks : World → Transaction → Option Key → List ProtoMutation → Done (Option ℕ)
commit_checks w t p ms = settle committed (
    and_then (done_run t (prewrite w.store (new_committer t (or_first p ms) ms [])))
      (λ u x. done u [] (returns (ok none))))

-- The rest of `commit`, after the latches.
abbrev pub commit_with :
    World → Transaction → Option Key → List ProtoMutation → List Key → Done (Option ℕ)
commit_with w t none ms ks = done t [] panics
commit_with w t (some p) ms ks =
    and_then (start_auto_heartbeat t p) (λ u x.
      settle committed (done_run u (Commit.commit w.store (new_committer u (some p) ms ks))))

-- The guard of the latches is told the commit timestamp.
abbrev pub told : Outcome (Option ℕ) → List Event
told (returns (ok (some ts))) = sets_commit_ts ts ∷ []
told _ = []

abbrev pub latched : Bool → ℕ → List Key → Done (Option ℕ) → Done (Option ℕ)
latched false start_ts ks d = d
latched true start_ts ks d =
    done d.txn (takes_latches start_ts ks ∷ (d.events ++ told d.outcome)) d.outcome

-- An optimistic transaction takes its latches, when there are any.
abbrev pub commit_latched :
    World → Transaction → Option Key → List ProtoMutation → List Key → Done (Option ℕ)
commit_latched w t p ms ks =
    let locks = not (is_pessimistic t.options) && t.txn_latches in
    latched locks t.timestamp ks (
      if locks && w.is_stale t.timestamp ks
      then done t [] (returns (err (write_conflict_in_latch t.timestamp)))
      else commit_with w t p ms ks)

abbrev pub commit_keys_of :
    World → Transaction → Option Key → List ProtoMutation → List Key → Done (Option ℕ)
commit_keys_of w t p ms [] = commit_checks w t p ms
commit_keys_of w t p ms (k ∷ ks) = commit_latched w t p ms (k ∷ ks)

abbrev pub commit_mutations : World → Transaction → List ProtoMutation → Done (Option ℕ)
commit_mutations w t [] =
    if is_some t.buffer.primary_key then done t [] panics else done t [] (returns (ok none))
commit_mutations w t (pb ∷ pbs) =
    let ks = commit_keys t.buffer (pb ∷ pbs) in
    let p = choose_primary t.buffer.primary_key ks in
    if is_some (map_option (λ o. []) t.options.pipelined)
    then commit_piped w t ks (or_first p (pb ∷ pbs))
    else commit_keys_of w t p (pb ∷ pbs) ks

unfoldable pub commit : World → Transaction → Done (Option ℕ)
unfolding transit_status can_commit to_proto_mutations commit_keys choose_primary commit_pipelined
    get_write_size prewrite Commit.commit start_auto_heartbeat is_pessimistic
commit w t =
    let moved = transit_status w t can_commit started_commit in
    let u = set_status t moved.0 in
    if moved.1
    then commit_mutations w u (to_proto_mutations u.buffer u.options.assertion_level)
    else done u [] (returns (err operation_after_commit_error))

abbrev pub rollback_piped {ℓ} : {A : Type ℓ} → World → Transaction → Option A → Done (Unit {0})
rollback_piped w t none = done t [] (returns (err invalid_pipelined_transaction))
rollback_piped w t (some state) =
    done t (cancels_flush ∷ resolve_range t.timestamp 0 w.flushed_range) (returns (ok tt))

unfoldable pub rollback_pipelined : World → Transaction → Done (Unit {0})
rollback_pipelined w t = rollback_piped w t t.pipelined

-- `Committer::rollback` sends nothing for no keys, as the early return of `rollback` does.
abbrev pub rollback_mutations : World → Transaction → List ProtoMutation → Done (Unit {0})
rollback_mutations w t ms =
    let ks = commit_keys t.buffer ms in
    done_run t (Commit.rollback w.store (new_committer t t.buffer.primary_key ms ks))

unfoldable pub rollback : World → Transaction → Done (Unit {0})
unfolding transit_status can_rollback to_proto_mutations commit_keys get_write_size
    rollback_pipelined Commit.rollback
rollback w t =
    let moved = transit_status w t can_rollback started_rollback in
    let u = set_status t moved.0 in
    if moved.1
    then (settle rolledback (
        if is_some (map_option (λ o. []) u.options.pipelined)
        then rollback_pipelined w u
        else rollback_mutations w u (to_proto_mutations u.buffer u.options.assertion_level)))
    else done u [] (returns (err operation_after_commit_error))

abbrev pub panics_at : CheckLevel → Bool
panics_at panic = true
panics_at _ = false

-- `Drop`, when the thread is not panicking already.
unfoldable pub drop : Transaction → Done (Unit {0})
drop t =
    if same_status t.status active && panics_at t.options.check_level
    then done t [] panics
    else done (set_status t dropped) [] (returns (ok tt))
