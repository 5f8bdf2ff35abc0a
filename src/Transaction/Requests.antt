-- ===== src/Transaction/Requests.antt =====
-- src/transaction/requests.rs and src/transaction/lowering.rs: the requests of the commit protocol
-- and what answers them. Fields that no code here sets or reads are left out; a field that a
-- constructor leaves at its default is 0, false or empty.
use rust_tikv_client.Prelude.{
  replicate, length, ℕ, ◌+◌, ◌-◌, ◌^◌, min, Bool, false, List, [], Option, none, some,
}
use rust_tikv_client.Key.{Key}
use rust_tikv_client.Buffer.Entry.{ProtoMutation, AssertionLevel}
use rust_tikv_client.Transaction.Results.{Result}

abbrev pub u64_max : ℕ
u64_max = 2 ^ 64 - 1

abbrev pub saturating_add : ℕ → ℕ → ℕ
saturating_add a b = min (a + b) u64_max

pub data PessimisticAction : Type 0 where
  do_pessimistic_check : PessimisticAction

pub record PrewriteRequest : Type 0 where
  pub mutations : List ProtoMutation
  pub primary_lock : Key
  pub start_version : ℕ
  pub lock_ttl : ℕ
  pub for_update_ts : ℕ
  pub use_async_commit : Bool
  pub try_one_pc : Bool
  pub min_commit_ts : ℕ
  pub max_commit_ts : ℕ
  pub secondaries : List Key
  pub pessimistic_actions : List PessimisticAction
  pub txn_size : ℕ
  pub assertion_level : AssertionLevel

pub record PrewriteResponse : Type 0 where
  pub one_pc_commit_ts : ℕ
  pub min_commit_ts : ℕ

pub record CommitRequest : Type 0 where
  pub keys : List Key
  pub primary_key : Key
  pub start_version : ℕ
  pub commit_version : ℕ

-- `BatchRollbackRequest`, and `PessimisticRollbackRequest` when there is a `for_update_ts`.
pub record RollbackRequest : Type 0 where
  pub keys : List Key
  pub start_version : ℕ
  pub for_update_ts : Option ℕ

unfoldable pub new_prewrite_request : List ProtoMutation → Key → ℕ → ℕ → PrewriteRequest
new_prewrite_request mutations primary_lock start_version lock_ttl = record {
  mutations = mutations;
  primary_lock = primary_lock;
  start_version = start_version;
  lock_ttl = lock_ttl;
  for_update_ts = 0;
  use_async_commit = false;
  try_one_pc = false;
  min_commit_ts = 0;
  max_commit_ts = 0;
  secondaries = [];
  pessimistic_actions = [];
  txn_size = 0;
  assertion_level = AssertionLevel.off;
}

unfoldable pub new_pessimistic_prewrite_request :
    List ProtoMutation → Key → ℕ → ℕ → ℕ → PrewriteRequest
unfolding new_prewrite_request
new_pessimistic_prewrite_request mutations primary_lock start_version lock_ttl for_update_ts =
    record (new_prewrite_request mutations primary_lock start_version lock_ttl) {
      for_update_ts = for_update_ts;
      pessimistic_actions = replicate (length mutations) do_pessimistic_check;
    }

unfoldable pub new_commit_request : List Key → ℕ → ℕ → CommitRequest
new_commit_request keys start_version commit_version = record {
  keys = keys;
  primary_key = [];
  start_version = start_version;
  commit_version = commit_version;
}

abbrev pub with_primary : Option Key → CommitRequest → CommitRequest
with_primary none req = req
with_primary (some p) req = record req { primary_key = p }

unfoldable pub new_commit_request_with_primary_key : List Key → Option Key → ℕ → ℕ → CommitRequest
unfolding new_commit_request
new_commit_request_with_primary_key keys primary_key start_version commit_version =
    with_primary primary_key (new_commit_request keys start_version commit_version)

unfoldable pub new_batch_rollback_request : List Key → ℕ → RollbackRequest
new_batch_rollback_request keys start_version = record {
  keys = keys;
  start_version = start_version;
  for_update_ts = none;
}

unfoldable pub new_pessimistic_rollback_request : List Key → ℕ → ℕ → RollbackRequest
new_pessimistic_rollback_request keys start_version for_update_ts = record {
  keys = keys;
  start_version = start_version;
  for_update_ts = some for_update_ts;
}

-- What the requests are sent to: the answer of the plan that carries each request, the timestamps
-- of the placement driver with the milliseconds that have passed when each is here, the
-- milliseconds since the transaction began, how many timestamps are asked for at most, and the
-- milliseconds that the floating-point formula for the time to live gives for a size in bytes.
pub record Store : Type 0 where
  pub prewrites : PrewriteRequest → Result (List PrewriteResponse)
  pub commits : CommitRequest → Result (Unit {0})
  pub rollbacks : RollbackRequest → Result (Unit {0})
  pub timestamps : ℕ → Result ℕ
  pub waited : ℕ → ℕ
  pub elapsed : ℕ
  pub patience : ℕ
  pub ttl_of_size : ℕ → ℕ

-- The requests in the order in which they are sent.
pub data Sent : Type 0 where
  prewrite_sent : PrewriteRequest → Sent
  commit_sent : CommitRequest → Sent
  rollback_sent : RollbackRequest → Sent
