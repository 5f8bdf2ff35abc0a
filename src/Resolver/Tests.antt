-- ===== src/Resolver/Tests.antt =====
-- Runs of the lock resolver, and witnesses of its theorems.
use rust_tikv_client.Prelude.{ℕ, ◌≡◌, refl, Bool, true, false, none, some, List, [], ◌∷◌}
use rust_tikv_client.Order.{nat_ord}
use rust_tikv_client.OrdMap
use rust_tikv_client.OrdMap.{OrdMap}
use rust_tikv_client.Transaction.Results.{ok, err}
use rust_tikv_client.Resolver.{
  LockInfo, TransactionStatus, committed, locked, no_action, CheckTxnStatusRequest,
  CheckTxnStatusResponse, Servers, SecondaryResponse, check_txn_status, get_resolved, save_resolved,
  is_cacheable, check_ttl, status_of_response, kind_of,
}
use rust_tikv_client.Resolver.Secondaries.{check_all_secondaries, all_responses, scan_locks}
use rust_tikv_client.Resolver.Secondaries.Laws.{
  check_all_secondaries-max, max_of_responses, Recovers, check_all_secondaries-Recovers,
}
use rust_tikv_client.Resolver.Cache.{run_checks, empty, run_checks-stable}
use rust_tikv_client.Resolver.Cleanup.{cleanup_request, clean_lock, resolve_lock_error}
use rust_tikv_client.Resolver.Cleanup.Stuck.{clean_lock-stuck}

abbrev lock : Bool → ℕ → LockInfo
lock async ts = record {
  lock_version = 5;
  primary_lock = 3 ∷ [];
  secondaries = (7 ∷ []) ∷ [];
  min_commit_ts = ts;
  use_async_commit = async;
  is_pessimistic_lock = false;
}

abbrev response : List LockInfo → ℕ → SecondaryResponse
response ls ts = record { locks = ls; commit_ts = ts; expected = 1 }

-- The primary is locked and has expired, unless the asynchronous commit is forbidden: then it is
-- rolled back.
abbrev answer : CheckTxnStatusRequest → CheckTxnStatusResponse
answer req = record {
  commit_version = 0;
  lock_ttl = 0;
  action = no_action;
  lock_info = elim req.force_sync_commit [ true ↦ none | false ↦ some (lock true 8) ];
}

abbrev servers : List SecondaryResponse → Servers
servers rs = record {
  checks = λ req. ok (answer req);
  now = λ req. ok 600;
  secondaries = λ ks ts. ok rs;
  batch_resolves = λ infos. ok tt;
}

abbrev request : ℕ → CheckTxnStatusRequest
request ts = cleanup_request (record (lock true 8) { lock_version = ts }) false

abbrev done : TransactionStatus
done = record { kind = committed 9; action = no_action; is_expired = false }

check_all_secondaries-max_example :
    check_all_secondaries (servers (response (lock true 9 ∷ []) 4 ∷ [])) ((7 ∷ []) ∷ []) 5 8
    ≡ ok (record { commit_ts = none; min_commit_ts = 9; fallback_2pc = false })
unfolding max_of_responses
check_all_secondaries-max_example =
    check_all_secondaries-max (servers (response (lock true 9 ∷ []) 4 ∷ [])) ((7 ∷ []) ∷ []) 5 8
      (response (lock true 9 ∷ []) 4 ∷ []) refl ((refl, (refl, tt)), tt)

check_all_secondaries-Recovers_example : Recovers 12 (
    check_all_secondaries
      (servers (response (lock true 9 ∷ []) 4 ∷ response [] 12 ∷ []))
      ((7 ∷ []) ∷ [])
      5
      8)
check_all_secondaries-Recovers_example =
    check_all_secondaries-Recovers (servers (response (lock true 9 ∷ []) 4 ∷ response [] 12 ∷ []))
      ((7 ∷ []) ∷ []) 5 8 (response (lock true 9 ∷ []) 4 ∷ []) (response [] 12) [] refl refl

run_checks-stable_example :
    get_resolved
      (run_checks
        (save_resolved empty 5 done)
        ((servers [], request 5) ∷ (servers [], request 6) ∷ []))
      5
    ≡ some done
unfolding get_resolved save_resolved OrdMap.get OrdMap.insert
run_checks-stable_example =
    run_checks-stable (save_resolved empty 5 done)
      ((servers [], request 5) ∷ (servers [], request 6) ∷ []) 5 done refl

clean_lock-stuck_example :
    (clean_lock (servers (response (lock false 9 ∷ []) 0 ∷ [])) empty [] (lock true 8)).txn_infos
    ≡ err resolve_lock_error
unfolding get_resolved OrdMap.get OrdMap.insert check_txn_status save_resolved status_of_response
    check_ttl kind_of is_cacheable check_all_secondaries all_responses scan_locks
clean_lock-stuck_example =
    clean_lock-stuck (servers (response (lock false 9 ∷ []) 0 ∷ [])) empty [] (lock true 8)
      (record { kind = locked 0 (lock true 8); action = no_action; is_expired = true }) 0
      (lock true 8) (record { commit_ts = none; min_commit_ts = 8; fallback_2pc = true }) refl refl
      refl refl refl
