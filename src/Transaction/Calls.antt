-- ===== src/Transaction/Calls.antt =====
-- src/transaction/transaction.rs: the calls on a transaction, in sequences.
pub mod Entries
pub mod Keeps
pub mod Marks
pub mod Over
pub mod Moves
pub mod Tests
pub mod Asks
pub mod Answers
use rust_tikv_client.Prelude.{Bool, List, [], ◌∷◌, ◌++◌}
use rust_tikv_client.Key.{Key, Value}
use rust_tikv_client.Flags.{FlagsOp}
use rust_tikv_client.Buffer.Entry.{Mutation, Assertion}
use rust_tikv_client.Transaction.Results.{returns, ok}
use rust_tikv_client.Transaction.{Transaction, World, Event, Done, done}
use rust_tikv_client.Transaction.Locking.{send_heart_beat}
use rust_tikv_client.Transaction.Writes.{
  discard, put, insert, delete, batch_mutate, lock_keys_with_options, set_key_assertion,
  update_key_flags,
}
use rust_tikv_client.Transaction.Finish.{commit, rollback}

-- The calls that write, lock and mark keys, that end the transaction, and that keep its lock alive. The
-- reads and the setters of options are left out.
pub data TxnCall : Type 0 where
  puts inserts : Key → Value → TxnCall
  deletes : Key → TxnCall
  mutates : List Mutation → TxnCall
  locks : Bool → List Key → TxnCall
  asserts : Key → Assertion → TxnCall
  marks : Key → List FlagsOp → TxnCall
  commits rolls_back beats : TxnCall

unfoldable pub step : World → TxnCall → Transaction → Done (Unit {0})
unfolding put insert delete batch_mutate lock_keys_with_options set_key_assertion update_key_flags
    commit rollback send_heart_beat
step w (puts k v) t = put w t k v
step w (inserts k v) t = insert w t k v
step w (deletes k) t = delete w t k
step w (mutates ms) t = batch_mutate w t ms
step w (locks force ks) t = lock_keys_with_options w t force ks
step w (asserts k a) t = done (set_key_assertion t k a) [] (returns (ok tt))
step w (marks k ops) t = done (update_key_flags t k ops) [] (returns (ok tt))
step w commits t = discard (commit w t)
step w rolls_back t = rollback w t
step w beats t = discard (send_heart_beat w t)

-- The transaction after calls that are answered differently, whatever the outcomes, and what the
-- calls have done outside.
unfoldable pub run : Transaction → List (World × TxnCall) → Transaction × List Event
unfolding step
run t [] = (t, [])
run t ((w, c) ∷ cs) = let d = step w c t in let rest = run d.txn cs in (rest.0, d.events ++ rest.1)
