-- ===== src/Transaction/Options.antt =====
-- src/transaction/transaction.rs: the options that the commit protocol reads, and their check.
-- Timestamps stand as their `u64` versions and durations as milliseconds.
use rust_tikv_client.Prelude.{
  ℕ, max, Bool, true, false, not, ◌||◌, ◌==◌, Option, none, some, if◌then◌else◌,
}
use rust_tikv_client.Buffer.Entry.{AssertionLevel}
use rust_tikv_client.Transaction.Results.{Result, ok, err, invalid_pipelined_transaction}

pub data TransactionKind : Type 0 where
  optimistic : TransactionKind
  pessimistic : ℕ → TransactionKind

pub data CheckLevel : Type 0 where
  panic warn unchecked : CheckLevel

pub data HeartbeatOption : Type 0 where
  no_heartbeat : HeartbeatOption
  fixed_time : ℕ → HeartbeatOption

-- The throttle ratio is a float; `ratio_in_range` is whether it is finite and in [0, 1).
pub record PipelinedTxnOptions : Type 0 where
  pub flush_concurrency : ℕ
  pub resolve_lock_concurrency : ℕ
  pub ratio_in_range : Bool
  pub min_flush_keys : ℕ

pub record TransactionOptions : Type 0 where
  pub kind : TransactionKind
  pub try_one_pc : Bool
  pub async_commit : Bool
  pub read_only : Bool
  pub assertion_level : AssertionLevel
  pub check_level : CheckLevel
  pub max_commit_ts_safe_window : ℕ
  pub commit_wait_until_tso : Option ℕ
  pub commit_wait_until_tso_timeout : ℕ
  pub heartbeat_option : HeartbeatOption
  pub pipelined : Option PipelinedTxnOptions

abbrev pub is_pessimistic_kind : TransactionKind → Bool
is_pessimistic_kind optimistic = false
is_pessimistic_kind (pessimistic ts) = true

unfoldable pub is_pessimistic : TransactionOptions → Bool
is_pessimistic o = is_pessimistic_kind o.kind

unfoldable pub validate : TransactionOptions → Result (Unit {0})
unfolding is_pessimistic
validate o = elim o.pipelined [
  | none ↦ ok tt
  | some p ↦
      if is_pessimistic o
      then err invalid_pipelined_transaction
      else if o.try_one_pc || o.async_commit
      then err invalid_pipelined_transaction
      else if p.flush_concurrency == 0
      then err invalid_pipelined_transaction
      else if p.resolve_lock_concurrency == 0
      then err invalid_pipelined_transaction
      else if not p.ratio_in_range
      then err invalid_pipelined_transaction
      else if p.min_flush_keys == 0
      then err invalid_pipelined_transaction
      else ok tt
]

abbrev pub push : TransactionKind → ℕ → TransactionKind
push optimistic ts = pessimistic ts
push (pessimistic old) ts = pessimistic (max old ts)

unfoldable pub push_for_update_ts : TransactionOptions → ℕ → TransactionOptions
push_for_update_ts o ts = record o { kind = push o.kind ts }
