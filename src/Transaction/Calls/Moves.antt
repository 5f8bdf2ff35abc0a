-- ===== src/Transaction/Calls/Moves.antt =====
-- src/transaction/transaction.rs: how the status of a transaction moves.
pub mod Ending
pub mod Laws
use rust_tikv_client.Prelude.{
  ℕ, ◌≡◌, ◌≢◌, ◌⊎◌, inl, inr, refl, sym, ap, subst, ◌∙◌, Bool, true, false, not, ◌&&◌, Option, none,
  some, List, [], ◌∷◌, ◌++◌, map, if◌then◌else◌, if-elim, arith,
}
use rust_tikv_client.Key.{Key}
use rust_tikv_client.Buffer.Entry.{ProtoMutation}
use rust_tikv_client.Buffer.Lowering.{to_proto_mutations, map_option, commit_keys, choose_primary}
use rust_tikv_client.Buffer.Primary.{is_some}
use rust_tikv_client.Transaction.Results.{
  Result, Outcome, ok, err, returns, panics, pending, operation_after_commit_error,
}
use rust_tikv_client.Transaction.Options.{is_pessimistic}
use rust_tikv_client.Transaction.Status.{
  TransactionStatus, read_only, active, committed, started_commit, rolledback, started_rollback,
  dropped, is_operable, can_commit, can_rollback,
}
use rust_tikv_client.Transaction.Committer.{prewrite}
use rust_tikv_client.Transaction.{
  Transaction, World, Event, sends, Done, done, chain, and_then, set_status,
}
use rust_tikv_client.Transaction.Locking.{send_heart_beat, start_auto_heartbeat}
use rust_tikv_client.Transaction.Writes.{
  put, insert, delete, batch_mutate, lock_keys_with_options, discard,
}
use rust_tikv_client.Transaction.Finish.{
  new_committer, commit, rollback, transit_status, commit_mutations, settle, rollback_pipelined,
  rollback_mutations, commit_piped, commit_checks, commit_with, commit_latched, commit_keys_of,
  done_run, flush_all_with, or_first, commit_pipelined, pipelined_commit_at, pipelined_committed,
  rollback_piped,
}
use rust_tikv_client.Transaction.Calls.{
  TxnCall, puts, inserts, deletes, mutates, locks, commits, rolls_back, beats, step, run,
}
use rust_tikv_client.Transaction.Calls.Keeps.{
  chain-Keeps, either, Keeps, keep, and_then-Keeps, discard-Keeps, start_auto_heartbeat-Keeps,
  put-Keeps, insert-Keeps, delete-Keeps, batch_mutate-Keeps, lock_keys-Keeps, send_heart_beat-Keeps,
}
use rust_tikv_client.Transaction.Calls.Over.{transit_status-moves}

-- One move of the status.
pub data Move : TransactionStatus → TransactionStatus → Type 0 where
  starts_commit : Move active started_commit
  commits_now : Move started_commit committed
  starts_rollback : Move active started_rollback
  gives_up : Move started_commit started_rollback
  rolls_back_now : Move started_rollback rolledback

pub data Moves : TransactionStatus → TransactionStatus → Type 0 where
  stays : {s : TransactionStatus} → Moves s s
  moves : {s t u : TransactionStatus} → Move s t → Moves t u → Moves s u

pub Moves-trans : {s t u : TransactionStatus} → Moves s t → Moves t u → Moves s u
Moves-trans stays h = h
Moves-trans (moves m g) h = moves m (Moves-trans g h)

-- The status after a call.
pub record Leads {ℓ} {A : Type ℓ} (s : TransactionStatus) (d : Done A) : Type 0 where
  pub path : Moves s d.txn.status

pub Keeps-Leads {ℓ} : {A : Type ℓ} {s : TransactionStatus} {d : Done A} → Keeps s d → Leads s d
Keeps-Leads {s = s} h = record { path = subst (λ t. Moves s t) (sym h.kept) stays }

pub chain-Leads {ℓ} :
    {A : Type ℓ} {s : TransactionStatus} (next : TransactionStatus) (t : Transaction)
    (es : List Event) (o : Outcome A)
    → t.status ≡ s
    → Move s next
    → Leads s (chain t es o (λ u a. done (set_status u next) [] (returns (ok a))))
chain-Leads {s = s} next t es (returns (ok a)) h m = record { path = moves m stays }
chain-Leads {s = s} next t es (returns (err e)) h m = record {
  path = subst (λ u. Moves s u) (sym h) stays;
}
chain-Leads {s = s} next t es panics h m = record { path = subst (λ u. Moves s u) (sym h) stays }
chain-Leads {s = s} next t es pending h m = record { path = subst (λ u. Moves s u) (sym h) stays }

pub settle-Leads {ℓ} :
    {A : Type ℓ} {s : TransactionStatus} (next : TransactionStatus) (d : Done A)
    → Keeps s d
    → Move s next
    → Leads s (settle next d)
settle-Leads next d h m = chain-Leads next d.txn d.events d.outcome h.kept m

pub chain-then {ℓ κ} :
    {A : Type ℓ} {B : Type κ} {s : TransactionStatus} (t : Transaction) (es : List Event)
    (o : Outcome A) (f : Transaction → A → Done B)
    → t.status ≡ s
    → ((u : Transaction) (a : A) → u.status ≡ s → Leads s (f u a))
    → Leads s (chain t es o f)
chain-then t es (returns (ok a)) f h g = record { path = (g t a h).path }
chain-then {s = s} t es (returns (err e)) f h g = record {
  path = subst (λ u. Moves s u) (sym h) stays;
}
chain-then {s = s} t es panics f h g = record { path = subst (λ u. Moves s u) (sym h) stays }
chain-then {s = s} t es pending f h g = record { path = subst (λ u. Moves s u) (sym h) stays }

pub either-Leads {ℓ} :
    {A : Type ℓ} {s : TransactionStatus} (b : Bool) {d e : Done A}
    → Leads s d
    → Leads s e
    → Leads s (if b then d else e)
either-Leads true h g = h
either-Leads false h g = g
