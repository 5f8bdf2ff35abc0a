-- ===== src/Transaction/Committer.antt =====
-- src/transaction/transaction.rs: `Committer`. The keyspace and the request context, which only
-- label requests, are left out.
pub mod Commit
pub mod Protocol
pub mod Request
pub mod Timestamp
pub mod Tests
use rust_tikv_client.Prelude.{
  ℕ, ◌-◌, ◌*◌, ◌/◌, ◌^◌, min, max, Bool, true, false, not, ◌&&◌, ◌||◌, ◌==◌, ltb, leb, Option, none,
  some, List, [], ◌∷◌, ◌++◌, if◌then◌else◌, length,
}
use rust_tikv_client.Order.{bytes_ord, eqb}
use rust_tikv_client.Key.{Key}
use rust_tikv_client.Buffer.Entry.{ProtoMutation}
use rust_tikv_client.Transaction.Results.{
  Result, Outcome, ok, err, returns, panics, pending, is_grpc, commit_ts_lag, string_error,
  undetermined_error, prewrite_error,
}
use rust_tikv_client.Transaction.Options.{
  TransactionOptions, TransactionKind, optimistic, pessimistic, is_pessimistic,
}
use rust_tikv_client.Transaction.Requests.{
  u64_max, saturating_add, PrewriteRequest, PrewriteResponse, CommitRequest, Store, Sent,
  prewrite_sent, commit_sent, rollback_sent, new_prewrite_request, new_pessimistic_prewrite_request,
  new_commit_request, new_commit_request_with_primary_key, new_batch_rollback_request,
  new_pessimistic_rollback_request,
}

pub record Committer : Type 0 where
  pub primary_key : Option Key
  pub prewrite_mutations : List ProtoMutation
  pub commit_keys : List Key
  pub start_version : ℕ
  pub options : TransactionOptions
  pub undetermined : Bool
  pub write_size : ℕ

-- The committer after a call, the requests that the call has sent, and how it ended.
pub record Run {ℓ} (A : Type ℓ) : Type ℓ where
  pub committer : Committer
  pub sent : List Sent
  pub outcome : Outcome A

abbrev pub ran {ℓ} : {A : Type ℓ} → Committer → List Sent → Outcome A → Run A
ran c s o = record { committer = c; sent = s; outcome = o }

abbrev pub max_ttl : ℕ
max_ttl = 20000

abbrev pub default_lock_ttl : ℕ
default_lock_ttl = 3000

abbrev pub txn_commit_batch_size : ℕ
txn_commit_batch_size = 16 * 1024

abbrev pub clamp : ℕ → ℕ → ℕ → ℕ
clamp n low high = if ltb n low then low else if ltb high n then high else n

unfoldable pub calc_txn_lock_ttl : Store → Committer → ℕ
calc_txn_lock_ttl st c =
    if ltb txn_commit_batch_size c.write_size
    then clamp (st.ttl_of_size c.write_size) default_lock_ttl max_ttl
    else default_lock_ttl

unfoldable pub add_physical_ms : ℕ → ℕ → ℕ
add_physical_ms version delta_ms = saturating_add version (min (delta_ms * 2 ^ 18) u64_max)

unfoldable pub extract_physical_ms : ℕ → ℕ
extract_physical_ms version = version / 2 ^ 18

abbrev pub after_for_update : TransactionKind → ℕ → ℕ
after_for_update optimistic ts = ts
after_for_update (pessimistic for_update_ts) ts = max ts (saturating_add for_update_ts 1)

unfoldable pub min_commit_ts : Committer → ℕ
min_commit_ts c = after_for_update c.options.kind (saturating_add c.start_version 1)

unfoldable pub max_commit_ts : Committer → ℕ → ℕ
unfolding add_physical_ms
max_commit_ts c elapsed_ms =
    add_physical_ms (add_physical_ms c.start_version elapsed_ms)
      (min c.options.max_commit_ts_safe_window u64_max)

-- `self.commit_keys` without the primary key.
unfoldable pub without : Key → List Key → List Key
without p [] = []
without p (k ∷ ks) = if eqb p k then without p ks else k ∷ without p ks

abbrev pub base_request : Store → Committer → Key → ℕ → TransactionKind → PrewriteRequest
base_request st c p ttl optimistic = new_prewrite_request c.prewrite_mutations p c.start_version ttl
base_request st c p ttl (pessimistic for_update_ts) =
    new_pessimistic_prewrite_request c.prewrite_mutations p c.start_version ttl for_update_ts

abbrev pub safe_ttl : Committer → ℕ → ℕ
safe_ttl c max_ts =
    saturating_add (extract_physical_ms max_ts - extract_physical_ms c.start_version) 1

-- The request of `prewrite`.
unfoldable pub prewrite_request : Store → Committer → Key → PrewriteRequest
unfolding new_prewrite_request new_pessimistic_prewrite_request calc_txn_lock_ttl min_commit_ts
    max_commit_ts without extract_physical_ms is_pessimistic
prewrite_request st c p =
    let o = c.options in
    let ttl = saturating_add (calc_txn_lock_ttl st c) st.elapsed in
    let req = base_request st c p ttl o.kind in
    let max_ts = max_commit_ts c st.elapsed in
    record req {
      use_async_commit = o.async_commit;
      try_one_pc = o.try_one_pc;
      min_commit_ts = min_commit_ts c;
      secondaries = without p c.commit_keys;
      max_commit_ts = if o.async_commit || o.try_one_pc then max_ts else req.max_commit_ts;
      lock_ttl =
          if o.async_commit && is_pessimistic o
          then max req.lock_ttl (safe_ttl c max_ts)
          else req.lock_ttl;
      assertion_level = o.assertion_level;
    }

-- `Timestamp::try_from_version`.
abbrev pub try_from_version : ℕ → Option ℕ
try_from_version n = if n == 0 then none else some n

abbrev pub set_async_commit : Committer → Bool → Committer
set_async_commit c b = record c { options = record c.options { async_commit = b } }

abbrev pub set_try_one_pc : Committer → Bool → Committer
set_try_one_pc c b = record c { options = record c.options { try_one_pc = b } }

-- The `assert_eq!` on every response.
unfoldable pub no_one_pc : List PrewriteResponse → Bool
no_one_pc [] = true
no_one_pc (r ∷ rs) = r.one_pc_commit_ts == 0 && no_one_pc rs

unfoldable pub max_min_commit_ts : List PrewriteResponse → ℕ
max_min_commit_ts [] = 0
max_min_commit_ts (r ∷ rs) = max r.min_commit_ts (max_min_commit_ts rs)

-- `prewrite` from `self.options.try_one_pc = false` on.
abbrev pub two_phases : Committer → List Sent → List PrewriteResponse → Run (Option ℕ)
two_phases c s rs =
    ran (set_try_one_pc c false) s
      (if no_one_pc rs then returns (ok (try_from_version (max_min_commit_ts rs))) else panics)

-- The responses that the test `try_one_pc && response.len() == 1` looks at.
abbrev pub single : Bool → List PrewriteResponse → Option PrewriteResponse
single true (r ∷ []) = some r
single true _ = none
single false rs = none

abbrev pub accept :
    Committer → List Sent → List PrewriteResponse → Option PrewriteResponse → Run (Option ℕ)
accept c s rs none = two_phases c s rs
accept c s rs (some r) =
    if not (r.one_pc_commit_ts == 0)
    then ran c s (returns (ok (try_from_version r.one_pc_commit_ts)))
    else if not (r.min_commit_ts == 0)
    then ran c s (returns (err string_error))
    else two_phases (set_async_commit c false) s rs

abbrev pub prewritten : Committer → List Sent → Result (List PrewriteResponse) → Run (Option ℕ)
prewritten c s (ok rs) = accept c s rs (single c.options.try_one_pc rs)
prewritten c s (err e) = ran c s (returns (err (prewrite_error e)))

abbrev pub prewrite_with : Store → Committer → Option Key → Run (Option ℕ)
prewrite_with st c none = ran c [] panics
prewrite_with st c (some p) =
    let req = prewrite_request st c p in prewritten c (prewrite_sent req ∷ []) (st.prewrites req)

unfoldable pub prewrite : Store → Committer → Run (Option ℕ)
unfolding prewrite_request no_one_pc max_min_commit_ts prewrite_error
prewrite st c = prewrite_with st c c.primary_key
