-- ===== src/Transaction.antt =====
-- src/transaction/transaction.rs: a transaction, what its calls are answered, and how they chain.
pub mod Results
pub mod Options
pub mod Status
pub mod Requests
pub mod Committer
pub mod Locking
pub mod Writes
pub mod Finish
pub mod Calls
use rust_tikv_client.Prelude.{
  ℕ, Bool, false, Option, none, some, List, [], ◌∷◌, ◌++◌, if◌then◌else◌,
}
use rust_tikv_client.Key.{Key, Value}
use rust_tikv_client.Keyspace.{Keyspace}
use rust_tikv_client.Buffer
use rust_tikv_client.Buffer.{Buffer}
use rust_tikv_client.Buffer.Entry.{ProtoMutation, Assertion}
use rust_tikv_client.Buffer.Lowering.{mutation_for_key}
use rust_tikv_client.Transaction.Results.{
  Result, Outcome, ok, err, returns, panics, pending, operation_after_commit_error,
}
use rust_tikv_client.Transaction.Options.{TransactionOptions, is_pessimistic, PipelinedTxnOptions}
use rust_tikv_client.Transaction.Status.{TransactionStatus, read_only, active, is_operable}
use rust_tikv_client.Transaction.Requests.{Store, Sent}

-- The state of a pipelined transaction is the list of the mutations that were recorded in it.
pub record Transaction : Type 0 where
  pub status : TransactionStatus
  pub timestamp : ℕ
  pub buffer : Buffer
  pub options : TransactionOptions
  pub keyspace : Keyspace
  pub txn_latches : Bool
  pub pipelined : Option (List (Key × Option ProtoMutation))
  pub is_heartbeat_started : Bool
  pub has_pessimistic_lock : Bool

abbrev pub first_recorded : Option PipelinedTxnOptions → Option (List (Key × Option ProtoMutation))
first_recorded none = none
first_recorded (some o) = some []

unfoldable pub new : ℕ → TransactionOptions → Keyspace → Bool → Transaction
unfolding Buffer.new is_pessimistic
new timestamp options keyspace txn_latches = record {
  status = if options.read_only then read_only else active;
  timestamp = timestamp;
  buffer = Buffer.new (is_pessimistic options);
  options = options;
  keyspace = keyspace;
  txn_latches = txn_latches;
  pipelined = first_recorded options.pipelined;
  is_heartbeat_started = false;
  has_pessimistic_lock = false;
}

-- The mutations of a lock request have the operation `PessimisticLock` and no value.
pub record PessimisticLockRequest : Type 0 where
  pub mutations : List (Key × Assertion)
  pub primary_lock : Key
  pub start_version : ℕ
  pub lock_ttl : ℕ
  pub for_update_ts : ℕ
  pub is_first_lock : Bool
  pub min_commit_ts : ℕ

-- What the calls are answered from outside: the store, the timestamp, the pairs and the error of a
-- lock request, the answer to a heartbeat, whether the latches find the transaction stale, how
-- often a weak exchange of the status fails, and the answers of the pipelined state.
pub record World : Type 0 where
  pub store : Store
  pub timestamp : Result ℕ
  pub locks : PessimisticLockRequest → Result (List (Key × Value))
  pub heart_beats : ℕ → Key → ℕ → Result ℕ
  pub is_stale : ℕ → List Key → Bool
  pub failures : ℕ
  pub maybe_flush : Result (Unit {0})
  pub flush_all : Key → Result (Unit {0})
  pub flushed_range : Option (Key × Key)

-- What a call does outside, in order. `takes_latches` and `sets_commit_ts` are calls of the latches. `spawns_heartbeat` and `spawns_resolve` start a task.
pub data Event : Type 0 where
  sends : Sent → Event
  sends_lock : PessimisticLockRequest → Event
  sends_heart_beat : ℕ → Key → ℕ → Event
  spawns_heartbeat : Key → Event
  takes_latches : ℕ → List Key → Event
  sets_commit_ts : ℕ → Event
  flushes_all : Key → Event
  cancels_flush : Event
  spawns_resolve : ℕ → ℕ → Key → Key → Event

pub record Done {ℓ} (A : Type ℓ) : Type ℓ where
  pub txn : Transaction
  pub events : List Event
  pub outcome : Outcome A

abbrev pub done {ℓ} : {A : Type ℓ} → Transaction → List Event → Outcome A → Done A
done t es o = record { txn = t; events = es; outcome = o }

-- `?` after a call: the rest runs when the call has returned a value.
abbrev pub chain {ℓ κ} :
    {A : Type ℓ} {B : Type κ}
    → Transaction
    → List Event
    → Outcome A
    → (Transaction → A → Done B)
    → Done B
chain t es (returns (ok a)) f = let d = f t a in done d.txn (es ++ d.events) d.outcome
chain t es (returns (err e)) f = done t es (returns (err e))
chain t es panics f = done t es panics
chain t es pending f = done t es pending

abbrev pub and_then {ℓ κ} : {A : Type ℓ} {B : Type κ} → Done A → (Transaction → A → Done B) → Done B
and_then d f = chain d.txn d.events d.outcome f

abbrev pub set_status : Transaction → TransactionStatus → Transaction
set_status t s = record t { status = s }

abbrev pub set_buffer : Transaction → Buffer → Transaction
set_buffer t b = record t { buffer = b }

unfoldable pub check_allow_operation : Transaction → Done (Unit {0})
unfolding is_operable
check_allow_operation t =
    if is_operable t.status
    then done t [] (returns (ok tt))
    else done t [] (returns (err operation_after_commit_error))

abbrev pub recorded :
    Transaction
    → Key
    → Option (List (Key × Option ProtoMutation))
    → Option (List (Key × Option ProtoMutation))
recorded t k none = none
recorded t k (some ms) =
    some (ms ++ (k, mutation_for_key t.buffer k t.options.assertion_level) ∷ [])

unfoldable pub pipelined_record_key_change : Transaction → Key → Transaction
unfolding mutation_for_key
pipelined_record_key_change t k = record t { pipelined = recorded t k t.pipelined }

abbrev pub flush_with :
    World → Option (List (Key × Option ProtoMutation)) → Option Key → Result (Unit {0})
flush_with w none p = ok tt
flush_with w (some ms) none = ok tt
flush_with w (some ms) (some p) = w.maybe_flush

unfoldable pub pipelined_maybe_flush : World → Transaction → Done (Unit {0})
pipelined_maybe_flush w t = done t [] (returns (flush_with w t.pipelined t.buffer.primary_key))
