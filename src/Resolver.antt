-- ===== src/Resolver.antt =====
-- src/transaction/lock.rs and src/transaction/requests.rs: the status of a transaction whose lock is
-- in the way, and the cache of the statuses. Timestamps stand as their versions below 2^63, and times
-- to live are below 2^63; a difference of physical parts is signed in the code.
pub mod Secondaries
pub mod Cleanup
pub mod Cache
pub mod Tests
use rust_tikv_client.Prelude.{
  ℕ, ◌+◌, ◌/◌, ◌^◌, Bool, true, false, not, ◌==◌, leb, Option, none, some, List, [], ◌∷◌,
  if◌then◌else◌,
}
use rust_tikv_client.Order.{nat_ord, eqb}
use rust_tikv_client.OrdMap
use rust_tikv_client.OrdMap.{OrdMap}
use rust_tikv_client.Key.{Key}
use rust_tikv_client.Region.{RegionVerId, ver_id_ord}
use rust_tikv_client.Transaction.Results.{Result, ok, err}

pub record LockInfo : Type 0 where
  pub lock_version : ℕ
  pub primary_lock : Key
  pub secondaries : List Key
  pub min_commit_ts : ℕ
  pub use_async_commit : Bool
  pub is_pessimistic_lock : Bool

pub data Action : Type 0 where
  no_action ttl_expire_rollback lock_not_exist_rollback min_commit_ts_pushed : Action
  ttl_expire_pessimistic_rollback lock_not_exist_do_nothing : Action

pub data TransactionStatusKind : Type 0 where
  committed : ℕ → TransactionStatusKind
  rolled_back : TransactionStatusKind
  locked : ℕ → LockInfo → TransactionStatusKind

pub record TransactionStatus : Type 0 where
  pub kind : TransactionStatusKind
  pub action : Action
  pub is_expired : Bool

pub record CheckTxnStatusRequest : Type 0 where
  pub primary_key : Key
  pub lock_ts : ℕ
  pub caller_start_ts : ℕ
  pub current_ts : ℕ
  pub rollback_if_not_exist : Bool
  pub force_sync_commit : Bool
  pub resolving_pessimistic_lock : Bool

pub record CheckTxnStatusResponse : Type 0 where
  pub commit_version : ℕ
  pub lock_ttl : ℕ
  pub action : Action
  pub lock_info : Option LockInfo

abbrev pub locked_or : ℕ → Option LockInfo → TransactionStatusKind
locked_or ttl none = rolled_back
locked_or ttl (some info) = locked ttl info

unfoldable pub kind_of : ℕ → ℕ → Option LockInfo → TransactionStatusKind
kind_of ts ttl info = if not (ts == 0) then committed ts else locked_or ttl info

unfoldable pub status_of_response : CheckTxnStatusResponse → TransactionStatus
unfolding kind_of
status_of_response r = record {
  kind = kind_of r.commit_version r.lock_ttl r.lock_info;
  action = r.action;
  is_expired = false;
}

abbrev pub physical : ℕ → ℕ
physical version = version / 2 ^ 18

abbrev pub expires : ℕ → TransactionStatusKind → Bool → Bool
expires current (locked ttl info) was =
    if leb (physical info.lock_version + ttl) (physical current) then true else was
expires current (committed ts) was = was
expires current rolled_back was = was

unfoldable pub check_ttl : TransactionStatus → ℕ → TransactionStatus
check_ttl s current = record s { is_expired = expires current s.kind s.is_expired }

abbrev pub is_final_action : Action → Bool
is_final_action no_action = true
is_final_action lock_not_exist_rollback = true
is_final_action ttl_expire_rollback = true
is_final_action _ = false

abbrev pub cacheable : TransactionStatusKind → Bool → Action → Bool
cacheable rolled_back expired act = true
cacheable (committed ts) expired act = true
cacheable (locked ttl info) true act = is_final_action act
cacheable (locked ttl info) false act = false

unfoldable pub is_cacheable : TransactionStatus → Bool
is_cacheable s = cacheable s.kind s.is_expired s.action

-- `ResolveLocksContext`: the sets of regions are lists.
pub record ResolveLocksContext : Type 0 where
  pub resolved : OrdMap ℕ TransactionStatus
  pub clean_regions : OrdMap ℕ (List RegionVerId)

unfoldable pub get_resolved : ResolveLocksContext → ℕ → Option TransactionStatus
get_resolved ctx txn_id = OrdMap.get txn_id ctx.resolved

unfoldable pub save_resolved : ResolveLocksContext → ℕ → TransactionStatus → ResolveLocksContext
save_resolved ctx txn_id s = record ctx { resolved = OrdMap.insert txn_id s ctx.resolved }

unfoldable pub has_region : RegionVerId → List RegionVerId → Bool
has_region r [] = false
has_region r (s ∷ rs) = if eqb r s then true else has_region r rs

abbrev pub or_empty : Option (List RegionVerId) → List RegionVerId
or_empty none = []
or_empty (some rs) = rs

unfoldable pub is_region_cleaned : ResolveLocksContext → ℕ → RegionVerId → Bool
unfolding has_region
is_region_cleaned ctx txn_id r = has_region r (or_empty (OrdMap.get txn_id ctx.clean_regions))

abbrev pub add_region : RegionVerId → List RegionVerId → List RegionVerId
add_region r rs = if has_region r rs then rs else r ∷ rs

unfoldable pub save_cleaned_region : ResolveLocksContext → ℕ → RegionVerId → ResolveLocksContext
unfolding has_region
save_cleaned_region ctx txn_id r =
    let rs = or_empty (OrdMap.get txn_id ctx.clean_regions) in
    record ctx { clean_regions = OrdMap.insert txn_id (add_region r rs) ctx.clean_regions }

-- One response to the check of the secondary locks, with the number of keys that were asked for.
pub record SecondaryResponse : Type 0 where
  pub locks : List LockInfo
  pub commit_ts : ℕ
  pub expected : ℕ

-- What the resolver's requests are answered.
pub record Servers : Type 0 where
  pub checks : CheckTxnStatusRequest → Result CheckTxnStatusResponse
  pub now : CheckTxnStatusRequest → Result ℕ
  pub secondaries : List Key → ℕ → Result (List SecondaryResponse)
  pub batch_resolves : List (ℕ × ℕ) → Result (Unit {0})

-- The context after a check, whether a request was sent, and the answer.
pub record Checked : Type 0 where
  pub ctx : ResolveLocksContext
  pub asked : Bool
  pub status : Result TransactionStatus

abbrev pub keep_if : Bool → ResolveLocksContext → ℕ → TransactionStatus → ResolveLocksContext
keep_if true ctx txn_id s = save_resolved ctx txn_id s
keep_if false ctx txn_id s = ctx

abbrev pub at_time : ResolveLocksContext → ℕ → TransactionStatus → Result ℕ → Checked
at_time ctx txn_id s (ok current) =
    let t = check_ttl s current in
    record { ctx = keep_if (is_cacheable t) ctx txn_id t; asked = true; status = ok t }
at_time ctx txn_id s (err e) = record { ctx = ctx; asked = true; status = err e }

abbrev pub answered :
    Servers → ResolveLocksContext → CheckTxnStatusRequest → Result CheckTxnStatusResponse → Checked
answered srv ctx req (ok r) = at_time ctx req.lock_ts (status_of_response r) (srv.now req)
answered srv ctx req (err e) = record { ctx = ctx; asked = true; status = err e }

abbrev pub from_cache :
    Servers → ResolveLocksContext → CheckTxnStatusRequest → Option TransactionStatus → Checked
from_cache srv ctx req (some s) = record { ctx = ctx; asked = false; status = ok s }
from_cache srv ctx req none = answered srv ctx req (srv.checks req)

-- The arguments of `check_txn_status` are the fields of its request.
unfoldable pub check_txn_status : Servers → ResolveLocksContext → CheckTxnStatusRequest → Checked
unfolding get_resolved save_resolved status_of_response check_ttl is_cacheable
check_txn_status srv ctx req = from_cache srv ctx req (get_resolved ctx req.lock_ts)
