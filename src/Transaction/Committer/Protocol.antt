-- ===== src/Transaction/Committer/Protocol.antt =====
-- src/transaction/transaction.rs: the requests of a commit as steps of the two-phase commit
-- protocol.
pub mod Commits
pub mod Laws
pub mod Async
use rust_tikv_client.Prelude.{
  ℕ, ◌≡◌, ◌≢◌, refl, sym, ap, subst, ◌∙◌, Bool, true, false, not, ◌==◌, ◌||◌, Bool-cases, inl, inr,
  Option, none, some, Option-cases, List, [], ◌∷◌, ◌++◌, if◌then◌else◌, if-elim, arith, length,
  replicate,
}
use rust_tikv_client.Key.{Key}
use rust_tikv_client.Buffer.Entry.{ProtoMutation}
use rust_tikv_client.Transaction.Options.{TransactionKind, optimistic, pessimistic}
use rust_tikv_client.Transaction.Results.{
  Result, Outcome, ok, err, returns, panics, pending, is_grpc, Error, undetermined_error,
  prewrite_error,
}
use rust_tikv_client.Transaction.Requests.{
  PessimisticAction, do_pessimistic_check, PrewriteRequest, PrewriteResponse, CommitRequest, Store,
  Sent, prewrite_sent, commit_sent, new_commit_request, new_commit_request_with_primary_key,
}
use rust_tikv_client.Transaction.Committer.{
  Committer, Run, ran, prewrite, prewrite_request, prewrite_with, prewritten, accept, single,
  two_phases, max_min_commit_ts, set_async_commit, set_try_one_pc, no_one_pc, try_from_version,
  without,
}
use rust_tikv_client.Transaction.Committer.Commit.{
  commit, commit_primary_checked, commit_primary, commit_at, answered, checked, finish, finished,
  fix_commit_ts, after_prewrite, commit_secondary, secondary_sent, option_keys,
  fetch_commit_timestamp, primary_request,
}

-- What is known of the transaction: nothing is locked, every key is locked as the answers say,
-- a prewrite was refused, it is committed at a timestamp with the secondary keys still locked, all
-- its keys are sent that timestamp, the commit of the primary was refused.
pub data Phase : Type 0 where
  idle : Phase
  locked : List PrewriteResponse → Phase
  refused : Error → Phase
  committed completed : ℕ → Phase
  unsure : Error → Phase

-- The second list has the keys of the first other than `p`, in their order.
pub data Rest (p : Key) : List Key → List Key → Type 0 where
  rest_nil : Rest p [] []
  rest_drop : {k : Key} {ks ss : List Key} → p ≡ k → Rest p ks ss → Rest p (k ∷ ks) ss
  rest_keep : {k : Key} {ks ss : List Key} → p ≢ k → Rest p ks ss → Rest p (k ∷ ks) (k ∷ ss)

-- What a request asks because of the kind of its transaction: a pessimistic one has the lock of
-- every mutation checked.
abbrev pub AsksKind : TransactionKind → List ProtoMutation → ℕ → List PessimisticAction → Type 0
AsksKind optimistic ms for_update_ts actions = (for_update_ts ≡ 0) × (actions ≡ [])
AsksKind (pessimistic ts) ms for_update_ts actions =
    (for_update_ts ≡ ts) × (actions ≡ replicate (length ms) do_pessimistic_check)

-- The request asks to lock every mutation of the committer, under its primary key and its start
-- version, and names the other keys.
pub record LocksAll (c : Committer) (q : PrewriteRequest) : Type 0 where
  pub mutations : q.mutations ≡ c.prewrite_mutations
  pub primary : c.primary_key ≡ some q.primary_lock
  pub version : q.start_version ≡ c.start_version
  pub others : Rest q.primary_lock c.commit_keys q.secondaries
  pub async : q.use_async_commit ≡ c.options.async_commit
  pub one_pc : q.try_one_pc ≡ c.options.try_one_pc
  pub kind : AsksKind c.options.kind q.mutations q.for_update_ts q.pessimistic_actions

-- One request and its answer. The mutations are locked first, and all in one request. Only the primary key may be committed while nothing is decided,
-- except in an asynchronous commit, which the answers to the prewrite decide.
pub data Step (st : Store) (c : Committer) : Phase → Sent → Phase → Type 0 where
  locks :
      {q : PrewriteRequest} {rs : List PrewriteResponse}
      → LocksAll c q
      → st.prewrites q ≡ ok rs
      → Step st c idle (prewrite_sent q) (locked rs)
  refuses :
      {q : PrewriteRequest} {e : Error}
      → LocksAll c q
      → st.prewrites q ≡ err e
      → Step st c idle (prewrite_sent q) (refused e)
  decides :
      {rs : List PrewriteResponse} {r : CommitRequest} {ts : ℕ}
      → r.keys ≡ option_keys c.primary_key
      → r.commit_version ≡ ts
      → r.start_version ≡ c.start_version
      → st.commits r ≡ ok tt
      → Step st c (locked rs) (commit_sent r) (committed ts)
  fails :
      {rs : List PrewriteResponse} {r : CommitRequest} {e : Error}
      → r.keys ≡ option_keys c.primary_key
      → r.start_version ≡ c.start_version
      → st.commits r ≡ err e
      → Step st c (locked rs) (commit_sent r) (unsure e)
  decides_async :
      {rs : List PrewriteResponse} {r : CommitRequest}
      → c.options.async_commit ≡ true
      → r.keys ≡ c.commit_keys
      → r.commit_version ≡ max_min_commit_ts rs
      → r.start_version ≡ c.start_version
      → r.commit_version ≢ 0
      → Step st c (locked rs) (commit_sent r) (completed r.commit_version)
  completes :
      {ts : ℕ} {r : CommitRequest} {p : Key}
      → c.primary_key ≡ some p
      → Rest p c.commit_keys r.keys
      → r.commit_version ≡ ts
      → r.start_version ≡ c.start_version
      → Step st c (committed ts) (commit_sent r) (completed ts)

pub data Steps (st : Store) (c : Committer) : Phase → List Sent → Phase → Type 0 where
  stop : {p : Phase} → Steps st c p [] p
  step :
      {p q r : Phase} {m : Sent} {s : List Sent}
      → Step st c p m q
      → Steps st c q s r
      → Steps st c p (m ∷ s) r

-- What a commit may answer when its requests have led to a phase. A commit in one phase is decided
-- by the one answer to the prewrite.
abbrev pub IsOnePhase : Committer → List PrewriteResponse → ℕ → Type 0
IsOnePhase c [] ts = ⊥
IsOnePhase c (r ∷ []) ts = (c.options.try_one_pc ≡ true) × (r.one_pc_commit_ts ≡ ts) × (ts ≢ 0)
IsOnePhase c (r ∷ q ∷ rs) ts = ⊥

abbrev pub Agrees : Committer → Phase → Outcome (Option ℕ) → Type 0
Agrees c (committed ts) o = (length c.commit_keys ≡ 1) × (o ≡ returns (ok (some ts)))
Agrees c (completed ts) o = o ≡ returns (ok (some ts))
Agrees c (unsure e) o = o ≡ returns (err (if is_grpc e then undetermined_error e else e))
Agrees c (refused e) o = o ≡ returns (err (prewrite_error e))
Agrees c idle o = o ≡ panics
Agrees c (locked rs) (returns (ok (some ts))) = IsOnePhase c rs ts
Agrees c (locked rs) (returns (ok none)) = ⊥
Agrees c (locked rs) (returns (err e)) = Unit
Agrees c (locked rs) panics = Unit
Agrees c (locked rs) pending = Unit

abbrev pub Follows : Store → Committer → List Sent → Outcome (Option ℕ) → Type 0
Follows st c s o = (p : Phase) × Steps st c idle s p × Agrees c p o
