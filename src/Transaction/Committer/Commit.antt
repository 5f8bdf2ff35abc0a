-- ===== src/Transaction/Committer/Commit.antt =====
-- src/transaction/transaction.rs: the commit and the rollback of a `Committer`. A task that the code
-- spawns for the secondary keys sends its request last here.
use rust_tikv_client.Prelude.{
  ℕ, zero, suc, Bool, false, ◌||◌, ◌==◌, leb, Option, none, some, List, [], ◌∷◌, ◌++◌,
  if◌then◌else◌, length,
}
use rust_tikv_client.Key.{Key}
use rust_tikv_client.Transaction.Results.{
  Result, Outcome, ok, err, returns, panics, pending, is_grpc, commit_ts_lag, undetermined_error,
}
use rust_tikv_client.Transaction.Options.{TransactionKind, optimistic, pessimistic}
use rust_tikv_client.Transaction.Requests.{
  CommitRequest, RollbackRequest, Store, Sent, commit_sent, rollback_sent, new_commit_request,
  new_commit_request_with_primary_key, new_batch_rollback_request, new_pessimistic_rollback_request,
}
use rust_tikv_client.Transaction.Committer.{
  Committer, Run, ran, prewrite, without, set_async_commit,
}

-- One turn of the loop of `fetch_commit_timestamp`: what is waited for, the timeout, the time that
-- has passed, the timestamp, and the rest of the loop.
abbrev pub polled : ℕ → ℕ → ℕ → Result ℕ → Outcome ℕ → Outcome ℕ
polled target timeout waited (ok ts) again =
    if leb target ts
    then returns (ok ts)
    else if leb timeout waited
    then returns (err (commit_ts_lag ts target))
    else again
polled target timeout waited (err e) again = returns (err e)

unfoldable pub fetch_loop : Store → ℕ → ℕ → ℕ → ℕ → Outcome ℕ
fetch_loop st target timeout zero n = pending
fetch_loop st target timeout (suc fuel) n =
    polled target timeout (st.waited n) (st.timestamps n)
      (fetch_loop st target timeout fuel (suc n))

abbrev pub fetch : Store → ℕ → Option ℕ → Outcome ℕ
fetch st timeout none = returns (st.timestamps 0)
fetch st timeout (some target) = fetch_loop st target timeout st.patience 0

unfoldable pub fetch_commit_timestamp : Store → Committer → Outcome ℕ
unfolding fetch_loop
fetch_commit_timestamp st c =
    fetch st c.options.commit_wait_until_tso_timeout c.options.commit_wait_until_tso

abbrev pub option_keys : Option Key → List Key
option_keys none = []
option_keys (some p) = p ∷ []

unfoldable pub primary_request : Committer → ℕ → CommitRequest
unfolding new_commit_request_with_primary_key
primary_request c ts =
    new_commit_request_with_primary_key (option_keys c.primary_key) c.primary_key c.start_version ts

abbrev pub answered : Committer → List Sent → ℕ → Result (Unit {0}) → Run ℕ
answered c s ts (ok u) = ran c s (returns (ok ts))
answered c s ts (err e) =
    ran (record c { undetermined = is_grpc e || c.undetermined }) s (returns (err e))

abbrev pub commit_at : Store → Committer → Outcome ℕ → Run ℕ
commit_at st c (returns (ok ts)) =
    answered c (commit_sent (primary_request c ts) ∷ []) ts (st.commits (primary_request c ts))
commit_at st c (returns (err e)) = ran c [] (returns (err e))
commit_at st c panics = ran c [] panics
commit_at st c pending = ran c [] pending

unfoldable pub commit_primary : Store → Committer → Run ℕ
unfolding fetch_commit_timestamp primary_request
commit_primary st c = commit_at st c (fetch_commit_timestamp st c)

abbrev pub checked : Bool → Outcome ℕ → Outcome ℕ
checked undetermined (returns (ok ts)) = returns (ok ts)
checked undetermined (returns (err e)) =
    returns (err (if undetermined then undetermined_error e else e))
checked undetermined panics = panics
checked undetermined pending = pending

unfoldable pub commit_primary_checked : Store → Committer → Run ℕ
unfolding commit_primary
commit_primary_checked st c =
    let r = commit_primary st c in record r { outcome = checked r.committer.undetermined r.outcome }

-- The request of `commit_secondary`, when there is one. `primary_key.unwrap()` panics in the task.
abbrev pub secondary_sent : Committer → Option Key → ℕ → List Sent
secondary_sent c none ts = []
secondary_sent c (some p) ts =
    commit_sent (new_commit_request (without p c.commit_keys) c.start_version ts) ∷ []

unfoldable pub commit_secondary : Committer → ℕ → List Sent
unfolding new_commit_request
commit_secondary c ts =
    if c.options.async_commit
    then commit_sent (new_commit_request c.commit_keys c.start_version ts) ∷ []
    else if length c.commit_keys == 1
    then []
    else secondary_sent c c.primary_key ts

-- The end of `commit`, after the requests `s`.
abbrev pub finished : List Sent → Committer → List Sent → Outcome ℕ → Run (Option ℕ)
finished s c t (returns (ok ts)) =
    ran c (s ++ (t ++ commit_secondary c ts)) (returns (ok (some ts)))
finished s c t (returns (err e)) = ran c (s ++ t) (returns (err e))
finished s c t panics = ran c (s ++ t) panics
finished s c t pending = ran c (s ++ t) pending

abbrev pub finish : List Sent → Run ℕ → Run (Option ℕ)
finish s r = finished s r.committer r.sent r.outcome

abbrev pub fix_commit_ts : Store → Committer → Option ℕ → Run ℕ
fix_commit_ts st c (some ts) = ran c [] (returns (ok ts))
fix_commit_ts st c none = commit_primary_checked st (set_async_commit c false)

abbrev pub after_prewrite : Store → Committer → List Sent → Outcome (Option ℕ) → Run (Option ℕ)
after_prewrite st c s (returns (ok min_ts)) =
    if c.options.try_one_pc
    then ran c s (returns (ok min_ts))
    else if c.options.async_commit
    then finish s (fix_commit_ts st c min_ts)
    else finish s (commit_primary_checked st c)
after_prewrite st c s (returns (err e)) = ran c s (returns (err e))
after_prewrite st c s panics = ran c s panics
after_prewrite st c s pending = ran c s pending

unfoldable pub commit : Store → Committer → Run (Option ℕ)
unfolding prewrite commit_primary_checked commit_secondary
commit st c = let p = prewrite st c in after_prewrite st p.committer p.sent p.outcome

abbrev pub rollback_request : Committer → TransactionKind → RollbackRequest
rollback_request c optimistic = new_batch_rollback_request c.commit_keys c.start_version
rollback_request c (pessimistic for_update_ts) =
    new_pessimistic_rollback_request c.commit_keys c.start_version for_update_ts

abbrev pub rollback_keys : Store → Committer → List Key → Run (Unit {0})
rollback_keys st c [] = ran c [] (returns (ok tt))
rollback_keys st c (k ∷ ks) =
    let req = rollback_request c c.options.kind in
    ran c (rollback_sent req ∷ []) (returns (st.rollbacks req))

unfoldable pub rollback : Store → Committer → Run (Unit {0})
unfolding new_batch_rollback_request new_pessimistic_rollback_request
rollback st c = rollback_keys st c c.commit_keys
