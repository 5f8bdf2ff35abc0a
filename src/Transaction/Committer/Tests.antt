-- ===== src/Transaction/Committer/Tests.antt =====
-- Runs of a committer against a store, and witnesses of its theorems.
use rust_tikv_client.Prelude.{
  ℕ, ◌+◌, ◌*◌, ◌≡◌, ◌≤◌, refl, Bool, true, false, none, some, List, [], ◌∷◌, arith,
}
use rust_tikv_client.Order.{bytes_ord}
use rust_tikv_client.Buffer.Entry.{ProtoMutation, Op, Assertion, AssertionLevel}
use rust_tikv_client.Transaction.Results.{Result, ok, err, returns, grpc, undetermined_error}
use rust_tikv_client.Transaction.Options.{
  TransactionOptions, TransactionKind, optimistic, unchecked, no_heartbeat,
}
use rust_tikv_client.Transaction.Requests.{Store, PrewriteResponse, prewrite_sent}
use rust_tikv_client.Transaction.Committer.{Committer, prewrite_request, no_one_pc}
use rust_tikv_client.Transaction.Committer.Commit.{commit, fetch_commit_timestamp}
use rust_tikv_client.Transaction.Committer.Protocol.{Follows}
use rust_tikv_client.Transaction.Committer.Protocol.Laws.{commit-Follows}
use rust_tikv_client.Transaction.Committer.Protocol.Async.{IsAsync, commit-IsAsync}
use rust_tikv_client.Transaction.Committer.Timestamp.{Reaches, fetch_commit_timestamp-Reaches}

abbrev pub options : TransactionKind → Bool → TransactionOptions
options kind async = record {
  kind = kind;
  try_one_pc = false;
  async_commit = async;
  read_only = false;
  assertion_level = AssertionLevel.off;
  check_level = unchecked;
  max_commit_ts_safe_window = 2000;
  commit_wait_until_tso = some 900;
  commit_wait_until_tso_timeout = 20;
  heartbeat_option = no_heartbeat;
  pipelined = none;
}

abbrev change : ℕ → ProtoMutation
change n = record { op = Op.put; key = n ∷ []; value = []; assertion = Assertion.unasserted }

abbrev two_keys : TransactionKind → Bool → Committer
two_keys kind async = record {
  primary_key = some (3 ∷ []);
  prewrite_mutations = change 3 ∷ change 7 ∷ [];
  commit_keys = (3 ∷ []) ∷ (7 ∷ []) ∷ [];
  start_version = 800;
  options = options kind async;
  undetermined = false;
  write_size = 2;
}

-- Two regions answer the prewrite: the first with a `min_commit_ts` of 0, the second with 801. The
-- placement driver gives 850, 880, 910 and so on, ten milliseconds apart.
abbrev pub answers : List PrewriteResponse
answers =
    record { one_pc_commit_ts = 0; min_commit_ts = 0 }
    ∷ record { one_pc_commit_ts = 0; min_commit_ts = 801 }
    ∷ []

abbrev pub store : Result (Unit {0}) → Store
store committed = record {
  prewrites = λ q. ok answers;
  commits = λ q. committed;
  rollbacks = λ q. ok tt;
  timestamps = λ n. ok (850 + 30 * n);
  waited = λ n. 10 * n;
  elapsed = 5;
  patience = 3;
  ttl_of_size = λ n. n;
}

commits : (commit (store (ok tt)) (two_keys optimistic false)).outcome ≡ returns (ok (some 910))
unfolding commit
commits = refl

fails :
    (commit (store (err (grpc 1))) (two_keys optimistic false)).outcome
    ≡ returns (err (undetermined_error (grpc 1)))
unfolding commit
fails = refl

commit-Follows_example :
    let r = commit (store (ok tt)) (two_keys optimistic false) in
    Follows (store (ok tt)) (two_keys optimistic false) r.sent r.outcome
commit-Follows_example = commit-Follows (store (ok tt)) (two_keys optimistic false) refl

commit-IsAsync_example :
    let c = two_keys optimistic true in
    let st = store (ok tt) in
    (ts : ℕ) × IsAsync c (prewrite_sent (prewrite_request st c (3 ∷ [])) ∷ []) ts (commit st c)
    × (801 ≤ ts)
unfolding no_one_pc
commit-IsAsync_example =
    commit-IsAsync (store (ok tt)) (two_keys optimistic true) (3 ∷ [])
      (record { one_pc_commit_ts = 0; min_commit_ts = 0 } ∷ [])
      (record { one_pc_commit_ts = 0; min_commit_ts = 801 }) [] refl refl refl refl refl
      (λ e. omega (arith, e))

fetch_commit_timestamp-Reaches_example :
    Reaches 900 (fetch_commit_timestamp (store (ok tt)) (two_keys optimistic false))
fetch_commit_timestamp-Reaches_example =
    fetch_commit_timestamp-Reaches (store (ok tt)) (two_keys optimistic false) 900 refl
      (λ n. omega arith) (omega arith)
