-- ===== src/Transaction/Calls/Moves/Ending.antt =====
-- src/transaction/transaction.rs: the status after a commit or a rollback that has started.
use rust_tikv_client.Prelude.{
  Bool, true, false, ℕ, ◌≡◌, not, ◌&&◌, Option, none, some, List, [], ◌∷◌, map, if◌then◌else◌,
}
use rust_tikv_client.Key.{Key}
use rust_tikv_client.Buffer.Entry.{ProtoMutation}
use rust_tikv_client.Buffer.Lowering.{to_proto_mutations, map_option, commit_keys, choose_primary}
use rust_tikv_client.Buffer.Primary.{is_some}
use rust_tikv_client.Transaction.Results.{Result, Outcome, ok, err, returns, panics, pending}
use rust_tikv_client.Transaction.Options.{is_pessimistic}
use rust_tikv_client.Transaction.Status.{
  TransactionStatus, committed, started_commit, rolledback, started_rollback,
}
use rust_tikv_client.Transaction.Committer.{prewrite}
use rust_tikv_client.Transaction.Committer.Commit
use rust_tikv_client.Transaction.{Transaction, World, Event, sends, Done, done, chain}
use rust_tikv_client.Transaction.Locking.{start_auto_heartbeat}
use rust_tikv_client.Transaction.Finish.{
  latched, new_committer, commit_mutations, settle, rollback_pipelined, rollback_mutations,
  commit_piped, commit_checks, commit_with, commit_keys_of, done_run, flush_all_with, or_first,
  commit_pipelined, pipelined_commit_at, pipelined_committed, rollback_piped,
}
use rust_tikv_client.Transaction.Calls.Keeps.{
  chain-Keeps, either, Keeps, keep, and_then-Keeps, start_auto_heartbeat-Keeps,
}
use rust_tikv_client.Transaction.Calls.Moves.{
  commits_now, rolls_back_now, Leads, Keeps-Leads, settle-Leads, chain-then, either-Leads,
}

module _ (w : World) where
  flush_all_with-Keeps {ℓ} :
      {A : Type ℓ} {s : TransactionStatus} (t : Transaction) (p : Key) (o : Option A)
      → t.status ≡ s
      → Keeps s (flush_all_with w t p o)
  flush_all_with-Keeps t p none h = keep h
  flush_all_with-Keeps t p (some a) h = keep h

  pipelined_committed-Keeps :
      {s : TransactionStatus} (t : Transaction) (e : Event) (ts : ℕ) (r : Result (Unit {0}))
      → t.status ≡ s
      → Keeps s (pipelined_committed w t e ts r)
  pipelined_committed-Keeps t e ts (ok u) h = keep h
  pipelined_committed-Keeps t e ts (err x) h = keep h

  pipelined_commit_at-Keeps :
      {s : TransactionStatus} (t : Transaction) (p : Key) (o : Outcome ℕ)
      → t.status ≡ s
      → Keeps s (pipelined_commit_at w t p o)
  pipelined_commit_at-Keeps t p (returns (ok ts)) h = pipelined_committed-Keeps t _ ts _ h
  pipelined_commit_at-Keeps t p (returns (err e)) h = keep h
  pipelined_commit_at-Keeps t p panics h = keep h
  pipelined_commit_at-Keeps t p pending h = keep h

  commit_pipelined-Keeps :
      {s : TransactionStatus} (t : Transaction) (p : Key)
      → t.status ≡ s
      → Keeps s (commit_pipelined w t p)
  unfolding commit_pipelined
  commit_pipelined-Keeps t p h =
      and_then-Keeps (flush_all_with-Keeps t p t.pipelined h)
        (λ u x e. pipelined_commit_at-Keeps u p _ e)

  latched-Leads :
      {s : TransactionStatus} (b : Bool) (ts : ℕ) (ks : List Key) {d : Done (Option ℕ)}
      → Leads s d
      → Leads s (latched b ts ks d)
  latched-Leads false ts ks h = h
  latched-Leads true ts ks h = record { path = h.path }

  -- The commit of a transaction whose commit has started.
  module _ (t : Transaction) (h : t.status ≡ started_commit) where
    commit_piped-Leads :
        (ks : List Key) (p : Option Key) → Leads started_commit (commit_piped w t ks p)
    commit_piped-Leads ks none = Keeps-Leads (keep h)
    commit_piped-Leads [] (some p) =
        settle-Leads committed _
          (and_then-Keeps (flush_all_with-Keeps t p t.pipelined h) (λ u x e. keep e)) commits_now
    commit_piped-Leads (k ∷ ks) (some p) =
        settle-Leads committed _ (commit_pipelined-Keeps t p h) commits_now

    commit_checks-Leads :
        (p : Option Key) (ms : List ProtoMutation) → Leads started_commit (commit_checks w t p ms)
    commit_checks-Leads p ms =
        let r = prewrite w.store (new_committer t (or_first p ms) ms []) in
        let f : Transaction → Option ℕ → Done (Option ℕ) = λ u x. done u [] (returns (ok none)) in
        settle-Leads committed (chain t (map sends r.sent) r.outcome f)
          (chain-Keeps started_commit t (map sends r.sent) r.outcome f h (λ u x e. keep e))
          commits_now

    commit_with-Leads :
        (p : Option Key) (ms : List ProtoMutation) (ks : List Key)
        → Leads started_commit (commit_with w t p ms ks)
    commit_with-Leads none ms ks = Keeps-Leads (keep h)
    commit_with-Leads (some p) ms ks =
        let d = start_auto_heartbeat t p in
        chain-then d.txn d.events d.outcome
          (λ u x.
            settle committed (done_run u (Commit.commit w.store (new_committer u (some p) ms ks))))
          (start_auto_heartbeat-Keeps t p h).kept
          (λ u x e.
            settle-Leads committed
              (done_run u (Commit.commit w.store (new_committer u (some p) ms ks))) (keep e)
              commits_now)

    commit_keys_of-Leads :
        (p : Option Key) (ms : List ProtoMutation) (ks : List Key)
        → Leads started_commit (commit_keys_of w t p ms ks)
    commit_keys_of-Leads p ms [] = commit_checks-Leads p ms
    commit_keys_of-Leads p ms (k ∷ ks) =
        let locks = not (is_pessimistic t.options) && t.txn_latches in
        latched-Leads locks t.timestamp (k ∷ ks) (
          either-Leads (locks && w.is_stale t.timestamp (k ∷ ks)) (Keeps-Leads (keep h))
            (commit_with-Leads p ms (k ∷ ks)))

    pub commit_mutations-Leads :
        (ms : List ProtoMutation) → Leads started_commit (commit_mutations w t ms)
    commit_mutations-Leads [] =
        either-Leads (is_some t.buffer.primary_key) (Keeps-Leads (keep h)) (Keeps-Leads (keep h))
    commit_mutations-Leads (pb ∷ pbs) =
        let ks = commit_keys t.buffer (pb ∷ pbs) in
        let p = choose_primary t.buffer.primary_key ks in
        either-Leads (is_some (map_option (λ o. []) t.options.pipelined))
          (commit_piped-Leads ks (or_first p (pb ∷ pbs))) (commit_keys_of-Leads p (pb ∷ pbs) ks)

  rollback_piped-Keeps {ℓ} :
      {A : Type ℓ} {s : TransactionStatus} (t : Transaction) (o : Option A)
      → t.status ≡ s
      → Keeps s (rollback_piped w t o)
  rollback_piped-Keeps t none h = keep h
  rollback_piped-Keeps t (some a) h = keep h

  pub rolled-Leads :
      (t : Transaction)
      → t.status ≡ started_rollback
      → Leads started_rollback (
          settle rolledback (
            if is_some (map_option (λ o. []) t.options.pipelined)
            then rollback_pipelined w t
            else rollback_mutations w t (to_proto_mutations t.buffer t.options.assertion_level)))
  unfolding rollback_pipelined
  rolled-Leads t h =
      settle-Leads rolledback _
        (either (is_some (map_option (λ o. []) t.options.pipelined))
          (rollback_piped-Keeps t t.pipelined h) (keep h))
        rolls_back_now
