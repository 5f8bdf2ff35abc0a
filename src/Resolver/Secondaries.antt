-- ===== src/Resolver/Secondaries.antt =====
-- src/transaction/lock.rs: `check_all_secondaries`.
pub mod Laws
use rust_tikv_client.Prelude.{
  ℕ, max, Bool, true, false, not, ◌&&◌, ◌==◌, ltb, Option, none, some, List, [], ◌∷◌, if◌then◌else◌,
  length,
}
use rust_tikv_client.Key.{Key}
use rust_tikv_client.Transaction.Results.{Result, Error, ok, err, string_error}
use rust_tikv_client.Resolver.{LockInfo, SecondaryResponse, Servers}

pub record SecondaryLocksStatus : Type 0 where
  pub commit_ts : Option ℕ
  pub min_commit_ts : ℕ
  pub fallback_2pc : Bool

-- The variables of the loop over the responses.
pub record Progress : Type 0 where
  pub min_commit_ts : ℕ
  pub missing_lock : Bool
  pub determined_commit_ts : Option ℕ

-- The loop goes on, returns that the transaction falls back to two phases, or fails.
pub data Verdict : Type 0 where
  going : Progress → Verdict
  falls_back : Verdict
  fails : Error → Verdict

unfoldable pub scan_locks : Progress → List LockInfo → Verdict
scan_locks p [] = going p
scan_locks p (l ∷ ls) =
    let q : Progress = record p {
      min_commit_ts =
          if not p.missing_lock then max p.min_commit_ts l.min_commit_ts else p.min_commit_ts;
    } in
    let rest = scan_locks q ls in if not l.use_async_commit then falls_back else rest

abbrev pub note_missing : Progress → ℕ → Option ℕ → Verdict
note_missing p ts none =
    if not (ts == 0) && ltb ts p.min_commit_ts
    then fails string_error
    else going (record p { missing_lock = true; determined_commit_ts = some ts })
note_missing p ts (some prev) =
    if prev == ts then going (record p { missing_lock = true }) else fails string_error

abbrev pub response_step : Progress → SecondaryResponse → Verdict
response_step p r =
    if ltb (length r.locks) r.expected
    then note_missing p r.commit_ts p.determined_commit_ts
    else scan_locks p r.locks

abbrev pub continue : Verdict → (Progress → Verdict) → Verdict
continue (going p) f = f p
continue falls_back f = falls_back
continue (fails e) f = fails e

unfoldable pub all_responses : Progress → List SecondaryResponse → Verdict
unfolding scan_locks
all_responses p [] = going p
all_responses p (r ∷ rs) = continue (response_step p r) (λ q. all_responses q rs)

abbrev pub try_from_version : ℕ → Option ℕ
try_from_version n = if n == 0 then none else some n

abbrev pub conclude : Progress → Option ℕ → SecondaryLocksStatus
conclude p none = record { commit_ts = none; min_commit_ts = p.min_commit_ts; fallback_2pc = false }
conclude p (some ts) = record {
  commit_ts = try_from_version ts;
  min_commit_ts = ts;
  fallback_2pc = false;
}

abbrev pub judged : ℕ → Verdict → Result SecondaryLocksStatus
judged primary_min (going p) = ok (conclude p p.determined_commit_ts)
judged primary_min falls_back =
    ok (record { commit_ts = none; min_commit_ts = primary_min; fallback_2pc = true })
judged primary_min (fails e) = err e

abbrev pub start : ℕ → Progress
start primary_min = record {
  min_commit_ts = primary_min;
  missing_lock = false;
  determined_commit_ts = none;
}

abbrev pub responded : ℕ → Result (List SecondaryResponse) → Result SecondaryLocksStatus
responded primary_min (ok rs) = judged primary_min (all_responses (start primary_min) rs)
responded primary_min (err e) = err e

unfoldable pub check_all_secondaries : Servers → List Key → ℕ → ℕ → Result SecondaryLocksStatus
unfolding all_responses
check_all_secondaries srv keys txn_id primary_min =
    responded primary_min (srv.secondaries keys txn_id)
