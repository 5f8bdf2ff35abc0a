-- ===== src/Resolver/Cleanup.antt =====
-- src/transaction/lock.rs: `cleanup_locks`, for the locks of one region.
pub mod Stuck
use rust_tikv_client.Prelude.{
  ℕ, ◌-◌, ◌^◌, Bool, true, false, ◌||◌, Option, none, some, List, [], ◌∷◌, if◌then◌else◌, map,
}
use rust_tikv_client.Order.{nat_ord}
use rust_tikv_client.OrdMap
use rust_tikv_client.OrdMap.{OrdMap}
use rust_tikv_client.Key.{Key}
use rust_tikv_client.Region.{RegionVerId}
use rust_tikv_client.Transaction.Results.{Result, Error, ok, err, failed}
use rust_tikv_client.Transaction.Requests.{u64_max}
use rust_tikv_client.Resolver.{
  LockInfo, TransactionStatus, TransactionStatusKind, committed, rolled_back, locked,
  CheckTxnStatusRequest, ResolveLocksContext, Servers, Checked, check_txn_status, is_region_cleaned,
  save_cleaned_region,
}
use rust_tikv_client.Resolver.Secondaries.{SecondaryLocksStatus, check_all_secondaries}

-- The statuses that the loop has found, with the context.
pub record Found : Type 0 where
  pub ctx : ResolveLocksContext
  pub txn_infos : Result (OrdMap ℕ ℕ)

abbrev pub cleanup_request : LockInfo → Bool → CheckTxnStatusRequest
cleanup_request l force = record {
  primary_key = l.primary_lock;
  lock_ts = l.lock_version;
  caller_start_ts = 0;
  current_ts = u64_max;
  rollback_if_not_exist = true;
  force_sync_commit = force;
  resolving_pessimistic_lock = l.is_pessimistic_lock;
}

-- `ResolveLockError`
abbrev pub resolve_lock_error : Error
resolve_lock_error = failed 0

abbrev pub commit_ts_of : SecondaryLocksStatus → Option ℕ → ℕ
commit_ts_of s none = s.min_commit_ts
commit_ts_of s (some ts) = ts

abbrev pub found : ResolveLocksContext → Result (OrdMap ℕ ℕ) → Found
found ctx r = record { ctx = ctx; txn_infos = r }

-- The last match of the loop.
abbrev pub settled : ResolveLocksContext → OrdMap ℕ ℕ → ℕ → TransactionStatusKind → Found
settled ctx infos txn_id (committed ts) = found ctx (ok (OrdMap.insert txn_id ts infos))
settled ctx infos txn_id rolled_back = found ctx (ok (OrdMap.insert txn_id 0 infos))
settled ctx infos txn_id (locked ttl info) = found ctx (err resolve_lock_error)

abbrev pub after_check : OrdMap ℕ ℕ → ℕ → Checked → Result TransactionStatus → Found
after_check infos txn_id c (ok s) = settled c.ctx infos txn_id s.kind
after_check infos txn_id c (err e) = found c.ctx (err e)

-- The second check, which forbids the asynchronous commit.
abbrev pub check_again : Servers → ResolveLocksContext → OrdMap ℕ ℕ → LockInfo → Found
check_again srv ctx infos l =
    let c = check_txn_status srv ctx (cleanup_request l true) in
    after_check infos l.lock_version c c.status

abbrev pub by_secondaries :
    Servers → ResolveLocksContext → OrdMap ℕ ℕ → LockInfo → Result SecondaryLocksStatus → Found
by_secondaries srv ctx infos l (ok s) =
    if s.fallback_2pc
    then check_again srv ctx infos l
    else found ctx (ok (OrdMap.insert l.lock_version (commit_ts_of s s.commit_ts) infos))
by_secondaries srv ctx infos l (err e) = found ctx (err e)

abbrev pub by_kind :
    Servers → ResolveLocksContext → OrdMap ℕ ℕ → LockInfo → TransactionStatusKind → Found
by_kind srv ctx infos l (locked ttl info) =
    by_secondaries srv ctx infos l
      (check_all_secondaries srv info.secondaries l.lock_version info.min_commit_ts)
by_kind srv ctx infos l (committed ts) = settled ctx infos l.lock_version (committed ts)
by_kind srv ctx infos l rolled_back = settled ctx infos l.lock_version rolled_back

abbrev pub by_status :
    Servers → ResolveLocksContext → OrdMap ℕ ℕ → LockInfo → Result TransactionStatus → Found
by_status srv ctx infos l (ok s) = by_kind srv ctx infos l s.kind
by_status srv ctx infos l (err e) = found ctx (err e)

-- One turn of the loop for a lock that is not skipped.
unfoldable pub clean_lock : Servers → ResolveLocksContext → OrdMap ℕ ℕ → LockInfo → Found
unfolding check_txn_status check_all_secondaries
clean_lock srv ctx infos l =
    let c = check_txn_status srv ctx (cleanup_request l false) in
    by_status srv c.ctx infos l c.status

abbrev pub is_known : Option ℕ → Bool
is_known none = false
is_known (some ts) = true

abbrev pub go_on : Found → Result (OrdMap ℕ ℕ) → (ResolveLocksContext → OrdMap ℕ ℕ → Found) → Found
go_on f (ok infos) k = k f.ctx infos
go_on f (err e) k = f

unfoldable pub find_all :
    Servers → RegionVerId → ResolveLocksContext → OrdMap ℕ ℕ → List LockInfo → Found
unfolding clean_lock is_region_cleaned
find_all srv region ctx infos [] = found ctx (ok infos)
find_all srv region ctx infos (l ∷ ls) =
    let skip = find_all srv region ctx infos ls in
    let f = clean_lock srv ctx infos l in
    if is_known (OrdMap.get l.lock_version infos) || is_region_cleaned ctx l.lock_version region
    then skip
    else go_on f f.txn_infos (λ c i. find_all srv region c i ls)

unfoldable pub save_all : ResolveLocksContext → RegionVerId → OrdMap ℕ ℕ → ResolveLocksContext
unfolding save_cleaned_region
save_all ctx region [] = ctx
save_all ctx region ((txn_id, ts) ∷ infos) =
    save_all (save_cleaned_region ctx txn_id region) region infos

abbrev pub resolved :
    ResolveLocksContext
    → RegionVerId
    → OrdMap ℕ ℕ
    → Result (Unit {0})
    → ResolveLocksContext × Result (Unit {0})
resolved ctx region infos (ok u) = (save_all ctx region infos, ok tt)
resolved ctx region infos (err e) = (ctx, err e)

abbrev pub resolve_found :
    Servers
    → RegionVerId
    → ResolveLocksContext
    → Result (OrdMap ℕ ℕ)
    → ResolveLocksContext × Result (Unit {0})
resolve_found srv region ctx (ok infos) = resolved ctx region infos (srv.batch_resolves infos)
resolve_found srv region ctx (err e) = (ctx, err e)

-- The statuses are sent in the order of the transactions here; the code's hash map has none.
unfoldable pub cleanup_locks :
    Servers
    → RegionVerId
    → ResolveLocksContext
    → List LockInfo
    → ResolveLocksContext × Result (Unit {0})
unfolding find_all save_all
cleanup_locks srv region ctx [] = (ctx, ok tt)
cleanup_locks srv region ctx (l ∷ ls) =
    let f = find_all srv region ctx [] (l ∷ ls) in resolve_found srv region f.ctx f.txn_infos
