-- ===== src/Transaction/Calls/Over.antt =====
-- src/transaction/transaction.rs: a transaction that is over.
use rust_tikv_client.Prelude.{
  sym, subst, arith, ℕ, zero, suc, ◌≡◌, refl, ap, ◌∙◌, Bool, true, false, List, [], ◌∷◌, ◌++◌,
  if◌then◌else◌, All, replicate,
}
use rust_tikv_client.Order.{bytes_ord}
use rust_tikv_client.Key.{Key}
use rust_tikv_client.Flags.{FlagsOp}
use rust_tikv_client.Buffer.{flags_of}
use rust_tikv_client.Buffer.Lowering.{to_proto_mutations, map_option}
use rust_tikv_client.Buffer.Primary.{is_some}
use rust_tikv_client.Transaction.Results.{ok, err, returns, operation_after_commit_error}
use rust_tikv_client.Transaction.Status.{
  TransactionStatus, committed, started_commit, rolledback, started_rollback, dropped, is_operable,
  can_commit, can_rollback, transit_loop-alone,
}
use rust_tikv_client.Transaction.{
  Transaction, World, Event, Done, done, check_allow_operation, set_status,
}
use rust_tikv_client.Transaction.Locking.{send_heart_beat}
use rust_tikv_client.Transaction.Writes.{
  put, insert, delete, batch_mutate, lock_keys_with_options, discard,
}
use rust_tikv_client.Transaction.Finish.{
  commit, rollback, transit_status, commit_mutations, settle, rollback_pipelined,
  rollback_mutations,
}
use rust_tikv_client.Transaction.Calls.{
  TxnCall, puts, inserts, deletes, mutates, locks, asserts, marks, commits, rolls_back, beats, step,
  run,
}
use rust_tikv_client.Transaction.Calls.Marks.{
  IsUnmoved, assertion_ops, marked, asserts-marks, marks-IsUnmoved, marks-flags, marked-cons,
}

pub data IsOver : TransactionStatus → Type 0 where
  over_committed : IsOver committed
  over_rolledback : IsOver rolledback
  over_dropped : IsOver dropped

over-not_operable : {s : TransactionStatus} → IsOver s → is_operable s ≡ false
unfolding is_operable
over-not_operable over_committed = refl
over-not_operable over_rolledback = refl
over-not_operable over_dropped = refl

over-no_commit : {s : TransactionStatus} → IsOver s → can_commit s ≡ false
unfolding can_commit
over-no_commit over_committed = refl
over-no_commit over_rolledback = refl
over-no_commit over_dropped = refl

over-no_rollback : {s : TransactionStatus} → IsOver s → can_rollback s ≡ false
unfolding can_rollback
over-no_rollback over_committed = refl
over-no_rollback over_rolledback = refl
over-no_rollback over_dropped = refl

replicate-All : (n : ℕ) (s : TransactionStatus) → All (λ t. t ≡ s) (replicate n s)
replicate-All zero s = tt
replicate-All (suc n) s = (refl, replicate-All n s)

-- The status moves when the check allows it, however often the exchange fails.
pub transit_status-moves :
    (w : World) (t : Transaction) (check : TransactionStatus → Bool) (next : TransactionStatus)
    → transit_status w t check next ≡ (if check t.status then (next, true) else (t.status, false))
unfolding transit_status
transit_status-moves w t check next =
    transit_loop-alone check next t.status (replicate w.failures t.status)
      (replicate-All w.failures t.status)

-- A call that is refused: nothing changes and nothing is sent.
abbrev pub refusal {ℓ} : {A : Type ℓ} → Transaction → Done A
refusal t = done t [] (returns (err operation_after_commit_error))

-- The calls that are refused.
abbrev is_checked : TxnCall → Bool
is_checked (asserts k a) = false
is_checked (marks k ops) = false
is_checked _ = true

module _ (w : World) (t : Transaction) (h : IsOver t.status) where
  check-over : check_allow_operation t ≡ refusal t
  unfolding check_allow_operation
  check-over = ap (λ b. if b then done t [] (returns (ok tt)) else refusal t) (over-not_operable h)

  stuck :
      (check : TransactionStatus → Bool) (next : TransactionStatus)
      → check t.status ≡ false
      → transit_status w t check next ≡ (t.status, false)
  stuck check next e =
      transit_status-moves w t check next
      ∙ ap (λ b. if b then (next, true) else (t.status, false)) e

  commit-over : commit w t ≡ refusal t
  unfolding commit
  commit-over =
      ap
        (λ (moved : TransactionStatus × Bool).
          let u = set_status t moved.0 in
          if moved.1
          then commit_mutations w u (to_proto_mutations u.buffer u.options.assertion_level)
          else refusal u)
        (stuck can_commit started_commit (over-no_commit h))

  rollback-over : rollback w t ≡ refusal t
  unfolding rollback
  rollback-over =
      ap
        (λ (moved : TransactionStatus × Bool).
          let u = set_status t moved.0 in
          if moved.1
          then (settle rolledback (
              if is_some (map_option (λ o. []) u.options.pipelined)
              then rollback_pipelined w u
              else rollback_mutations w u (to_proto_mutations u.buffer u.options.assertion_level)))
          else refusal u)
        (stuck can_rollback started_rollback (over-no_rollback h))

  step-over : (c : TxnCall) → is_checked c ≡ true → step w c t ≡ refusal t
  unfolding step put insert delete batch_mutate lock_keys_with_options send_heart_beat
  step-over (puts k v) e = rw check-over
  step-over (inserts k v) e = rw check-over
  step-over (deletes k) e = rw check-over
  step-over (mutates ms) e = rw check-over
  step-over (locks force ks) e = rw check-over
  step-over (asserts k a) e = absurd (ground (arith, e))
  step-over (marks k ops) e = absurd (ground (arith, e))
  step-over commits e = ap discard commit-over
  step-over rolls_back e = rollback-over
  step-over beats e = rw check-over

-- What the calls do to a transaction that is over.
abbrev pub OnlyMarks : Transaction → List (World × TxnCall) → Transaction × List Event → Type 0
OnlyMarks t cs r =
    IsUnmoved t r.0
    × (r.1 ≡ [])
    × ((j : Key) → flags_of r.0.buffer j ≡ marked t.keyspace j cs (flags_of t.buffer j))

one-over :
    (w : World) (c : TxnCall) (t : Transaction)
    → IsOver t.status
    → let d = step w c t in OnlyMarks t ((w, c) ∷ []) (d.txn, d.events)
one-over w c t h = go c
  where
    refused :
        (c : TxnCall)
        → is_checked c ≡ true
        → let d = step w c t in
          IsUnmoved t d.txn
          × (d.events ≡ [])
          × ((j : Key) → flags_of d.txn.buffer j ≡ flags_of t.buffer j)
    refused c e =
        subst
          (λ (d : Done (Unit {0})).
            IsUnmoved t d.txn
            × (d.events ≡ [])
            × ((j : Key) → flags_of d.txn.buffer j ≡ flags_of t.buffer j))
          (sym (step-over w t h c e)) (refl, refl, λ j. refl)

    marking :
        (k : Key) (ops : List FlagsOp)
        → let d = step w (marks k ops) t in OnlyMarks t ((w, marks k ops) ∷ []) (d.txn, d.events)
    marking k ops = (marks-IsUnmoved w t k ops, unfold step in refl, marks-flags w t k ops)

    go : (c : TxnCall) → let d = step w c t in OnlyMarks t ((w, c) ∷ []) (d.txn, d.events)
    go (puts k v) = refused (puts k v) refl
    go (inserts k v) = refused (inserts k v) refl
    go (deletes k) = refused (deletes k) refl
    go (mutates ms) = refused (mutates ms) refl
    go (locks force ks) = refused (locks force ks) refl
    go (asserts k a) =
        subst
          (λ (d : Done (Unit {0})).
            OnlyMarks t ((w, marks k (assertion_ops a)) ∷ []) (d.txn, d.events))
          (sym (asserts-marks w t k a)) (marking k (assertion_ops a))
    go (marks k ops) = marking k ops
    go commits = refused commits refl
    go rolls_back = refused rolls_back refl
    go beats = refused beats refl

-- Once a transaction has committed, rolled back or been dropped, no sequence of the calls of
-- `TxnCall` sends a request or changes it, whatever they are answered, but for the flags of its
-- keys, and for what a pipelined transaction records of them: `set_key_assertion` and
-- `update_key_flags` are not refused, and the flags of each key are what these calls alone make of
-- them.
pub run-over :
    (t : Transaction) (cs : List (World × TxnCall)) → IsOver t.status → OnlyMarks t cs (run t cs)
unfolding run
run-over t [] h = (refl, refl, λ j. refl)
run-over t ((w, c) ∷ cs) h =
    let d = step w c t in
    let rest = run d.txn cs in
    let (same, quiet, flags) = one-over w c t h in
    let (same', quiet', flags') =
      run-over d.txn cs (subst IsOver (sym (ap (λ (u : Transaction). u.status) same)) h) in
    (
      same'
          ∙ ap
              (λ (u : Transaction). record u {
                buffer = record u.buffer { key_flags = rest.0.buffer.key_flags };
                pipelined = rest.0.pipelined;
              })
              same,
      ap (λ es. es ++ rest.1) quiet ∙ quiet',
      λ j.
          flags' j
          ∙ ap (λ ks. marked ks j cs (flags_of d.txn.buffer j))
              (ap (λ (u : Transaction). u.keyspace) same)
          ∙ ap (marked t.keyspace j cs) (flags j)
          ∙ marked-cons t.keyspace j w c cs (flags_of t.buffer j),
    )
