-- ===== src/Transaction/Calls/Moves/Laws.antt =====
-- src/transaction/transaction.rs: the status after any sequence of calls.
use rust_tikv_client.Prelude.{
  ◌≡◌, ◌≢◌, ◌⊎◌, inl, inr, refl, sym, subst, Bool, true, List, [], ◌∷◌, if◌then◌else◌, if-elim,
  arith,
}
use rust_tikv_client.Buffer.Lowering.{to_proto_mutations}
use rust_tikv_client.Transaction.Results.{
  Outcome, ok, err, returns, panics, pending, operation_after_commit_error,
}
use rust_tikv_client.Transaction.Status.{
  TransactionStatus, read_only, active, committed, started_commit, rolledback, started_rollback,
  dropped, can_commit, can_rollback,
}
use rust_tikv_client.Transaction.{
  Transaction, World, Event, Done, done, set_status, pipelined_record_key_change,
}
use rust_tikv_client.Transaction.Locking.{send_heart_beat}
use rust_tikv_client.Transaction.Writes.{discard, set_key_assertion, update_key_flags}
use rust_tikv_client.Transaction.Finish.{commit, rollback, transit_status, commit_mutations}
use rust_tikv_client.Transaction.Calls.{
  TxnCall, puts, inserts, deletes, mutates, locks, asserts, marks, commits, rolls_back, beats, step,
  run,
}
use rust_tikv_client.Transaction.Calls.Keeps.{
  discard-Keeps, put-Keeps, insert-Keeps, delete-Keeps, batch_mutate-Keeps, lock_keys-Keeps,
  send_heart_beat-Keeps,
}
use rust_tikv_client.Transaction.Calls.Over.{transit_status-moves}
use rust_tikv_client.Transaction.Calls.Moves.{
  starts_commit, commits_now, starts_rollback, gives_up, rolls_back_now, Moves, stays, moves,
  Moves-trans, Leads, Keeps-Leads,
}
use rust_tikv_client.Transaction.Calls.Moves.Ending.{commit_mutations-Leads, rolled-Leads}

can_commit-Moves : (s : TransactionStatus) → can_commit s ≡ true → Moves s started_commit
unfolding can_commit
can_commit-Moves started_commit h = stays
can_commit-Moves active h = moves starts_commit stays
can_commit-Moves read_only h = absurd (ground (arith, h))
can_commit-Moves committed h = absurd (ground (arith, h))
can_commit-Moves rolledback h = absurd (ground (arith, h))
can_commit-Moves started_rollback h = absurd (ground (arith, h))
can_commit-Moves dropped h = absurd (ground (arith, h))

can_rollback-Moves : (s : TransactionStatus) → can_rollback s ≡ true → Moves s started_rollback
unfolding can_rollback
can_rollback-Moves started_rollback h = stays
can_rollback-Moves active h = moves starts_rollback stays
can_rollback-Moves started_commit h = moves gives_up stays
can_rollback-Moves read_only h = absurd (ground (arith, h))
can_rollback-Moves committed h = absurd (ground (arith, h))
can_rollback-Moves rolledback h = absurd (ground (arith, h))
can_rollback-Moves dropped h = absurd (ground (arith, h))

-- The rest of `commit` and of `rollback` after the move of the status.
abbrev rest {ℓ} :
    {A : Type ℓ} → Transaction → (Transaction → Done A) → TransactionStatus × Bool → Done A
rest t f moved =
    let u = set_status t moved.0 in
    if moved.1 then f u else done u [] (returns (err operation_after_commit_error))

rest-Moves {ℓ} :
    {A : Type ℓ} (w : World) (t : Transaction) (check : TransactionStatus → Bool)
    (next : TransactionStatus) (f : Transaction → Done A)
    → (check t.status ≡ true → Moves t.status next)
    → ((u : Transaction) → u.status ≡ next → Leads next (f u))
    → Moves t.status (rest t f (transit_status w t check next)).txn.status
rest-Moves w t check next f m g =
    subst (λ moved. Moves t.status (rest t f moved).txn.status)
      (sym (transit_status-moves w t check next))
      (if-elim (λ moved. Moves t.status (rest t f moved).txn.status) (check t.status) _ _
        (λ e. Moves-trans (m e) (g (set_status t next) refl).path) (λ e. stays))

commit-Moves : (w : World) (t : Transaction) → Moves t.status (commit w t).txn.status
unfolding commit
commit-Moves w t =
    rest-Moves w t can_commit started_commit
      (λ u. commit_mutations w u (to_proto_mutations u.buffer u.options.assertion_level))
      (can_commit-Moves t.status) (λ u e. commit_mutations-Leads w u e _)

rollback-Moves : (w : World) (t : Transaction) → Moves t.status (rollback w t).txn.status
unfolding rollback
rollback-Moves w t =
    rest-Moves w t can_rollback started_rollback _ (can_rollback-Moves t.status) (rolled-Leads w)

discard-status {ℓ} :
    {A : Type ℓ} (t : Transaction) (es : List Event) (o : Outcome A)
    → (discard (done t es o)).txn.status ≡ t.status
discard-status t es (returns (ok a)) = refl
discard-status t es (returns (err e)) = refl
discard-status t es panics = refl
discard-status t es pending = refl

step-Moves : (w : World) (c : TxnCall) (t : Transaction) → Moves t.status (step w c t).txn.status
unfolding step
step-Moves w (puts k v) t = (Keeps-Leads (put-Keeps w t k v refl)).path
step-Moves w (inserts k v) t = (Keeps-Leads (insert-Keeps w t k v refl)).path
step-Moves w (deletes k) t = (Keeps-Leads (delete-Keeps w t k refl)).path
step-Moves w (mutates ms) t = (Keeps-Leads (batch_mutate-Keeps w t ms refl)).path
step-Moves w (locks force ks) t = (Keeps-Leads (lock_keys-Keeps w t force ks refl)).path
step-Moves w (asserts k a) t = unfold set_key_assertion pipelined_record_key_change in stays
step-Moves w (marks k ops) t = unfold update_key_flags pipelined_record_key_change in stays
step-Moves w commits t =
    let d = commit w t in
    subst (λ s. Moves t.status s) (sym (discard-status d.txn d.events d.outcome)) (commit-Moves w t)
step-Moves w rolls_back t = rollback-Moves w t
step-Moves w beats t =
    (Keeps-Leads (discard-Keeps {d = send_heart_beat w t} (send_heart_beat-Keeps w t refl))).path

-- Whatever a sequence of calls is answered, the status of the transaction moves along these steps:
-- the commit starts, it has committed, the rollback starts, also after the commit has started, it
-- has rolled back.
pub run-Moves : (t : Transaction) (cs : List (World × TxnCall)) → Moves t.status (run t cs).0.status
unfolding run
run-Moves t [] = stays
run-Moves t ((w, c) ∷ cs) = Moves-trans (step-Moves w c t) (run-Moves (step w c t).txn cs)

not_back :
    {s : TransactionStatus} → Moves s committed → (s ≡ started_rollback) ⊎ (s ≡ rolledback) → ⊥
not_back stays (inl e) = ground (arith, e)
not_back stays (inr e) = ground (arith, e)
not_back (moves starts_commit g) (inl e) = ground (arith, e)
not_back (moves starts_commit g) (inr e) = ground (arith, e)
not_back (moves commits_now g) (inl e) = ground (arith, e)
not_back (moves commits_now g) (inr e) = ground (arith, e)
not_back (moves starts_rollback g) (inl e) = ground (arith, e)
not_back (moves starts_rollback g) (inr e) = ground (arith, e)
not_back (moves gives_up g) (inl e) = ground (arith, e)
not_back (moves gives_up g) (inr e) = ground (arith, e)
not_back (moves rolls_back_now g) (inl e) = not_back g (inr refl)
not_back (moves rolls_back_now g) (inr e) = ground (arith, e)

-- A transaction whose rollback has started never commits, whatever the calls after it and their
-- answers.
pub run-not_committed :
    (t : Transaction) (cs : List (World × TxnCall))
    → (t.status ≡ started_rollback) ⊎ (t.status ≡ rolledback)
    → (run t cs).0.status ≢ committed
run-not_committed t cs h e = not_back (subst (λ s. Moves t.status s) e (run-Moves t cs)) h
