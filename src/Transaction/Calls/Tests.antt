-- ===== src/Transaction/Calls/Tests.antt =====
-- Runs of a transaction, and witnesses of the theorems on its calls.
use rust_tikv_client.Key.{Key}
use rust_tikv_client.Buffer.Entry.{Assertion, unasserted, exist}
use rust_tikv_client.Prelude.{◌≡◌, ◌≢◌, refl, inl, true, false, none, List, [], ◌∷◌}
use rust_tikv_client.Order.{bytes_ord}
use rust_tikv_client.OrdMap
use rust_tikv_client.Flags.{apply, has_presume_key_not_exists, has_prewrite_only}
use rust_tikv_client.Buffer.Entry.{to_proto_with_key}
use rust_tikv_client.Keyspace.{disable}
use rust_tikv_client.Transaction.Results.{Error, ok, err, failed, pessimistic_lock_error}
use rust_tikv_client.Transaction.Locking.{pessimistic_lock}
use rust_tikv_client.Transaction.Calls.Asks.{keys_of, request_for, AsksLocks}
use rust_tikv_client.Transaction.Calls.Answers.{IsAnswered, pessimistic_lock-IsAnswered}
use rust_tikv_client.Transaction.Options.{optimistic, pessimistic, is_pessimistic}
use rust_tikv_client.Transaction.Status.{active, committed, started_rollback}
use rust_tikv_client.Transaction.{Transaction, World, new, set_status}
use rust_tikv_client.Transaction.Calls.{TxnCall, puts, deletes, commits, asserts, run}
use rust_tikv_client.Transaction.Calls.Over.{OnlyMarks, over_committed, run-over}
use rust_tikv_client.Transaction.Calls.Moves.{Moves}
use rust_tikv_client.Transaction.Calls.Moves.Laws.{run-Moves, run-not_committed}
use rust_tikv_client.Transaction.Committer.Tests.{store, options}

abbrev world : World
world = record {
  store = store (ok tt);
  timestamp = ok 830;
  locks = λ q. ok [];
  heart_beats = λ ts k ttl. ok ttl;
  is_stale = λ ts ks. false;
  failures = 1;
  maybe_flush = ok tt;
  flush_all = λ k. ok tt;
  flushed_range = none;
}

abbrev fresh : Transaction
fresh = record (new 800 (options optimistic false) disable false) { status = active }

abbrev history : List (World × TxnCall)
history =
    (world, puts (3 ∷ []) (1 ∷ []))
    ∷ (world, deletes (7 ∷ []))
    ∷ (world, commits)
    ∷ (world, puts (9 ∷ []) [])
    ∷ []

run_commits : (run fresh history).0.status ≡ committed
unfolding run new OrdMap.get apply OrdMap.insert OrdMap.remove to_proto_with_key
    has_presume_key_not_exists has_prewrite_only
run_commits = refl

run-Moves_example : Moves active (run fresh history).0.status
run-Moves_example = run-Moves fresh history

-- The history, with a key marked in it.
abbrev marking : List (World × TxnCall)
marking = (world, asserts (3 ∷ []) exist) ∷ history

run-over_example :
    OnlyMarks (set_status fresh committed) marking (run (set_status fresh committed) marking)
run-over_example = run-over (set_status fresh committed) marking over_committed

run-not_committed_example : (run (set_status fresh started_rollback) history).0.status ≢ committed
run-not_committed_example = run-not_committed (set_status fresh started_rollback) history (inl refl)

-- The transaction that locks two keys of which one is taken.
abbrev locker : Transaction
locker = record fresh { options = options (pessimistic 820) false }

abbrev taken : Error
taken = pessimistic_lock_error (failed 1) ((5 ∷ []) ∷ [])

abbrev contended : World
contended = record world { locks = λ q. err taken }

abbrev wanted : List (Key × Assertion)
wanted = (4 ∷ [], unasserted) ∷ (5 ∷ [], unasserted) ∷ []

locker_pessimistic : is_pessimistic locker.options ≡ true
unfolding is_pessimistic new
locker_pessimistic = refl

pessimistic_lock-IsAnswered_example :
    let q = request_for locker 830 (4 ∷ []) wanted in
    AsksLocks locker 830 (4 ∷ []) (keys_of wanted) q
    × IsAnswered contended locker 830
        (4 ∷ [])
        (keys_of wanted)
        q
        (contended.locks q)
        (pessimistic_lock contended locker false wanted)
pessimistic_lock-IsAnswered_example =
    pessimistic_lock-IsAnswered contended locker false (4 ∷ []) unasserted
      ((5 ∷ [], unasserted) ∷ []) 830 locker_pessimistic refl refl
