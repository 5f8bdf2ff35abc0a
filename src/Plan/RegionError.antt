-- ===== src/Plan/RegionError.antt =====
-- src/request/plan.rs: what is done about an error of a region.
pub mod Laws
use rust_tikv_client.Prelude.{
  ℕ, Bool, true, false, ◌||◌, ◌==◌, ltb, Option, none, some, List, [], ◌∷◌, if◌then◌else◌,
}
use rust_tikv_client.Region.{
  Peer, ProtoRegion, RegionEpoch, RegionVerId, RegionWithLeader, ver_id, get_store_id, region_id,
}
use rust_tikv_client.RegionCache.{RegionCache}
use rust_tikv_client.RegionCache.Index.{
  update_leader, invalidate_region_cache, invalidate_store_cache,
}
use rust_tikv_client.Plan.{ErrorPb, PlanError, Answer, ok, err}

-- `PdRpcClient::update_leader`, with the generator and the clock that the cache uses.
abbrev pub pd_update_leader :
    (ℕ → ℕ) → ℕ → RegionVerId → Peer → RegionCache → RegionCache × Answer (Unit {0})
pd_update_leader gen now v l c = (update_leader gen now v l c, ok tt)

-- `Ok(true)`: retry at once; `Ok(false)`: back off and retry.
abbrev pub Handled : Type 0
Handled = RegionCache × Answer Bool

-- The arms of the update of the leader.
abbrev pub leader_updated : RegionVerId → RegionCache × Answer (Unit {0}) → Handled
leader_updated v (c, ok u) = (c, ok true)
leader_updated v (c, err e) = (invalidate_region_cache v c, err e)

abbrev pub on_not_leader : (ℕ → ℕ) → ℕ → RegionVerId → Option Peer → RegionCache → Handled
on_not_leader gen now v none c = (invalidate_region_cache v c, ok false)
on_not_leader gen now v (some l) c = leader_updated v (pd_update_leader gen now v l c)

abbrev pub forget_store : Option ℕ → RegionCache → RegionCache
forget_store none c = c
forget_store (some store) c = invalidate_store_cache store c

-- One of the regions that the error names: `some` is how the function returns early.
abbrev pub compare_epochs :
    RegionVerId → RegionCache → Option RegionEpoch → Option RegionEpoch → Option Handled
compare_epochs v c none current = some (invalidate_region_cache v c, ok true)
compare_epochs v c (some returned) none = some (invalidate_region_cache v c, ok true)
compare_epochs v c (some returned) (some current) =
    if ltb returned.conf_ver current.conf_ver || ltb returned.version current.version
    then some (c, ok false)
    else none

abbrev pub or_after : Option Handled → Handled → Handled
or_after none h = h
or_after (some h) rest = h

unfoldable pub check_regions : RegionWithLeader → RegionCache → List ProtoRegion → Handled
check_regions region c [] = (invalidate_region_cache (ver_id region) c, ok true)
check_regions region c (r ∷ rs) =
    or_after
      (if r.id == region_id region
        then compare_epochs (ver_id region) c r.region_epoch region.region.region_epoch
        else none)
      (check_regions region c rs)

unfoldable pub on_region_epoch_not_match :
    RegionWithLeader → List ProtoRegion → RegionCache → Handled
unfolding check_regions
on_region_epoch_not_match region [] c = (invalidate_region_cache (ver_id region) c, ok false)
on_region_epoch_not_match region (r ∷ rs) c = check_regions region c (r ∷ rs)

-- The arms after `epoch_not_match`.
abbrev pub handle_others : RegionWithLeader → ErrorPb → RegionCache → Handled
handle_others region e c =
    if e.region_not_found || e.key_not_in_region
    then (invalidate_region_cache (ver_id region) c, ok true)
    else if e.stale_command
    then (invalidate_region_cache (ver_id region) c, ok false)
    else if e.server_is_busy || e.max_timestamp_not_synced || e.read_index_not_ready
        || e.proposal_in_merging_mode
    then (c, ok false)
    else if e.raft_entry_too_large
    then (c, err (PlanError.region_error e))
    else (invalidate_region_cache (ver_id region) c, ok false)

abbrev pub handle_epoch :
    RegionWithLeader → ErrorPb → RegionCache → Option (List ProtoRegion) → Handled
handle_epoch region e c (some regions) = on_region_epoch_not_match region regions c
handle_epoch region e c none = handle_others region e c

abbrev pub handle_leader :
    (ℕ → ℕ) → ℕ → RegionWithLeader → ErrorPb → RegionCache → Option (Option Peer) → Handled
handle_leader gen now region e c (some l) = on_not_leader gen now (ver_id region) l c
handle_leader gen now region e c none =
    if e.store_not_match
    then (forget_store (get_store_id region) (invalidate_region_cache (ver_id region) c), ok true)
    else handle_epoch region e c e.epoch_not_match

unfoldable pub handle_region_error :
    (ℕ → ℕ) → ℕ → RegionWithLeader → ErrorPb → RegionCache → Handled
unfolding on_region_epoch_not_match
handle_region_error gen now region e c = handle_leader gen now region e c e.not_leader
