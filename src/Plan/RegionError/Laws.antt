-- ===== src/Plan/RegionError/Laws.antt =====
-- What an error of a region leads to.
use rust_tikv_client.Prelude.{
  ℕ, ◌≡◌, refl, sym, ap, ◌∙◌, ◌⊎◌, inl, inr, true, false, ◌||◌, ◌==◌, ltb, Option, none, some,
  Option-cases, List, [], ◌∷◌, if◌then◌else◌, if-elim, arith,
}
use rust_tikv_client.OrdMap
use rust_tikv_client.Region.{
  Peer, ProtoRegion, RegionEpoch, RegionVerId, RegionWithLeader, ver_id_ord, ver_id, get_store_id,
  region_id,
}
use rust_tikv_client.RegionCache.Ttl.{next_ttl}
use rust_tikv_client.RegionCache.{RegionCache, CachedRegion, with_map}
use rust_tikv_client.RegionCache.Index.{
  update_leader, invalidate_region_cache, invalidate_store_cache, set_leader, drop_region,
}
use rust_tikv_client.Plan.{ErrorPb, PlanError, ok, err}
use rust_tikv_client.Plan.RegionError.{
  Handled, handle_region_error, handle_leader, on_not_leader, handle_epoch, handle_others,
  on_region_epoch_not_match, check_regions, compare_epochs, or_after, forget_store,
}

abbrev pub cached : RegionVerId → RegionCache → Option CachedRegion
cached v c = OrdMap.get v c.region_cache.ver_id_to_region

abbrev pub IsGone : RegionVerId → RegionCache → Type 0
IsGone v c = cached v c ≡ none

-- The leader that the error names is that of the region, if it is cached.
abbrev pub LeaderKnown : RegionVerId → ErrorPb → RegionCache → Type 0
LeaderKnown v e c =
    (l : Peer) × (e.not_leader ≡ some (some l))
    × ((r : CachedRegion) → cached v c ≡ some r → r.region.leader ≡ some l)

-- A retry at once has learned something, a wait leaves the cache alone or forgets the region, and
-- an error is that of the server.
abbrev pub IsHandled : RegionVerId → ErrorPb → RegionCache → Handled → Type 0
IsHandled v e c (c', ok true) = IsGone v c' ⊎ LeaderKnown v e c'
IsHandled v e c (c', ok false) = (c' ≡ c) ⊎ IsGone v c'
IsHandled v e c (c', err x) =
    (c' ≡ c) × (x ≡ PlanError.region_error e) × (e.raft_entry_too_large ≡ true)

pub invalidated-IsGone :
    (v : RegionVerId) (c : RegionCache) → IsGone v (invalidate_region_cache v c)
unfolding invalidate_region_cache
invalidated-IsGone v c = elim (Option-cases (cached v c)) [
  | inl e ↦ ap (λ o. cached v (with_map c (drop_region c.region_cache v o))) e ∙ e
  | inr (r, e) ↦
      ap (λ o. cached v (with_map c (drop_region c.region_cache v o))) e
      ∙ OrdMap.get-remove_self v c.region_cache.ver_id_to_region
]

forget_store-IsGone :
    (v : RegionVerId) (o : Option ℕ) (c : RegionCache) → IsGone v c → IsGone v (forget_store o c)
unfolding invalidate_store_cache
forget_store-IsGone v none c h = h
forget_store-IsGone v (some store) c h = h

updated :
    (gen : ℕ → ℕ) (now : ℕ) (v : RegionVerId) (l : Peer) (c : RegionCache) (r : CachedRegion)
    → cached v (update_leader gen now v l c) ≡ some r
    → r.region.leader ≡ some l
unfolding update_leader
updated gen now v l c r found = elim (Option-cases (cached v c)) [
  | inl e ↦
      let gone =
        ap
          (λ o.
            OrdMap.get v
              (set_leader c.region_cache v l (next_ttl gen c.ttl now) o).ver_id_to_region)
          e
        ∙ e in
      cc
  | inr (r0, e) ↦
      let next : CachedRegion = record {
        region = record r0.region { leader = some l };
        ttl_epoch_sec = next_ttl gen c.ttl now;
      } in
      let held =
        ap
          (λ o.
            OrdMap.get v
              (set_leader c.region_cache v l (next_ttl gen c.ttl now) o).ver_id_to_region)
          e
        ∙ OrdMap.get-insert_self v next c.region_cache.ver_id_to_region in
      let same : some next ≡ some r = sym held ∙ found in ground (arith, same)
]

module _ (region : RegionWithLeader) (e : ErrorPb) (c : RegionCache) where
  abbrev Handles : Handled → Type 0
  Handles h = IsHandled (ver_id region) e c h

  gone : IsGone (ver_id region) (invalidate_region_cache (ver_id region) c)
  gone = invalidated-IsGone (ver_id region) c

  on_not_leader-Handles :
      (gen : ℕ → ℕ) (now : ℕ) (o : Option Peer)
      → e.not_leader ≡ some o
      → Handles (on_not_leader gen now (ver_id region) o c)
  on_not_leader-Handles gen now none h = inr gone
  on_not_leader-Handles gen now (some l) h = inr (l, h, updated gen now (ver_id region) l c)

  compare_epochs-Handles :
      (returned current : Option RegionEpoch) (rest : Handled)
      → Handles rest
      → Handles (or_after (compare_epochs (ver_id region) c returned current) rest)
  compare_epochs-Handles none current rest h = inl gone
  compare_epochs-Handles (some x) none rest h = inl gone
  compare_epochs-Handles (some x) (some y) rest h =
      if-elim (λ o. Handles (or_after o rest))
        (ltb x.conf_ver y.conf_ver || ltb x.version y.version) (some (c, ok false)) none
        (λ _. inl refl) (λ _. h)

  check_regions-Handles : (rs : List ProtoRegion) → Handles (check_regions region c rs)
  unfolding check_regions
  check_regions-Handles [] = inl gone
  check_regions-Handles (r ∷ rs) =
      if-elim (λ o. Handles (or_after o (check_regions region c rs))) (r.id == region_id region)
        (compare_epochs (ver_id region) c r.region_epoch region.region.region_epoch) none
        (λ _.
          compare_epochs-Handles r.region_epoch region.region.region_epoch _
            (check_regions-Handles rs))
        (λ _. check_regions-Handles rs)

  epoch-Handles : (rs : List ProtoRegion) → Handles (on_region_epoch_not_match region rs c)
  unfolding on_region_epoch_not_match
  epoch-Handles [] = inr gone
  epoch-Handles (r ∷ rs) = check_regions-Handles (r ∷ rs)

  handle_others-Handles : Handles (handle_others region e c)
  handle_others-Handles =
      let forgets : Handled = (invalidate_region_cache (ver_id region) c, ok false) in
      let large : Handled =
        if e.raft_entry_too_large then (c, err (PlanError.region_error e)) else forgets in
      let waiting =
        e.server_is_busy || e.max_timestamp_not_synced || e.read_index_not_ready
        || e.proposal_in_merging_mode in
      let busy : Handled = if waiting then (c, ok false) else large in
      let stale : Handled = if e.stale_command then forgets else busy in
      if-elim Handles (e.region_not_found || e.key_not_in_region)
        (invalidate_region_cache (ver_id region) c, ok true) stale (λ _. inl gone)
        (λ _.
          if-elim Handles e.stale_command forgets busy (λ _. inr gone)
            (λ _.
              if-elim Handles waiting (c, ok false) large (λ _. inl refl)
                (λ _.
                  if-elim Handles e.raft_entry_too_large (c, err (PlanError.region_error e)) forgets
                    (λ t. (refl, refl, t)) (λ _. inr gone))))

  handle_epoch-Handles : (o : Option (List ProtoRegion)) → Handles (handle_epoch region e c o)
  handle_epoch-Handles none = handle_others-Handles
  handle_epoch-Handles (some rs) = epoch-Handles rs

  handle_leader-Handles :
      (gen : ℕ → ℕ) (now : ℕ) (o : Option (Option Peer))
      → e.not_leader ≡ o
      → Handles (handle_leader gen now region e c o)
  handle_leader-Handles gen now none h =
      if-elim Handles e.store_not_match
        (forget_store (get_store_id region) (invalidate_region_cache (ver_id region) c), ok true)
        (handle_epoch region e c e.epoch_not_match)
        (λ _. inl (forget_store-IsGone (ver_id region) (get_store_id region) _ gone))
        (λ _. handle_epoch-Handles e.epoch_not_match)
  handle_leader-Handles gen now (some o) h = on_not_leader-Handles gen now o h

-- Whatever an error of a region says: when it is resolved, the region is no longer cached, or its
-- cached leader is the one that the error names; when the caller is to wait, the cache is as before
-- or the region is no longer cached; and otherwise the entry was too large for Raft, the error is
-- that of the server, and the cache is as before.
pub handle_region_error-IsHandled :
    (gen : ℕ → ℕ) (now : ℕ) (region : RegionWithLeader) (e : ErrorPb) (c : RegionCache)
    → IsHandled (ver_id region) e c (handle_region_error gen now region e c)
unfolding handle_region_error
handle_region_error-IsHandled gen now region e c =
    handle_leader-Handles region e c gen now e.not_leader refl

-- What resolve_lock answers to send a read to the leader: an epoch that does not match, with no
-- region. The region is forgotten, and the caller waits.
pub empty_epoch-waits :
    (gen : ℕ → ℕ) (now : ℕ) (region : RegionWithLeader) (e : ErrorPb) (c : RegionCache)
    → e.not_leader ≡ none
    → e.store_not_match ≡ false
    → e.epoch_not_match ≡ some []
    → handle_region_error gen now region e c ≡ (invalidate_region_cache (ver_id region) c, ok false)
unfolding handle_region_error on_region_epoch_not_match
empty_epoch-waits gen now region e c p q r =
    ap (handle_leader gen now region e c) p
    ∙ ap
        (λ b.
          if b
          then (
            forget_store (get_store_id region) (invalidate_region_cache (ver_id region) c),
            ok true,
          )
          else handle_epoch region e c e.epoch_not_match)
        q
    ∙ ap (handle_epoch region e c) r
