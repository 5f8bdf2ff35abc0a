-- ===== src/Plan/Pass/Lost.antt =====
-- One pass of a shard whose store does not have the region.
use rust_tikv_client.Prelude.{
  ℕ, ◌+◌, ◌≡◌, refl, ap, ◌∙◌, true, false, ◌&&◌, ◌||◌, Option, none, some, [], if◌then◌else◌,
  if-elim, arith,
}
use rust_tikv_client.Order.{nat_ord}
use rust_tikv_client.Backoff.{Backoff}
use rust_tikv_client.Region.{RegionWithLeader, ver_id, region_id, get_store_id}
use rust_tikv_client.RegionCache.{RegionCache}
use rust_tikv_client.RegionCache.Index.{invalidate_region_cache}
use rust_tikv_client.Routing.{
  ReadRouting, is_replica_read_mode, pin_store_for_region, clear_pinned_store_for_region,
}
use rust_tikv_client.Plan.{World, State, RegionStore, ErrorPb, PlanError, ok, err}
use rust_tikv_client.Plan.RegionError.{
  Handled, handle_region_error, handle_leader, handle_epoch, forget_store,
}
use rust_tikv_client.Plan.Pass.{
  again, set_routing, Passed, after_handled, try_another, pin_store, pin_or_clear, not_ready,
  on_region_error,
}

-- The server does not have the region, and says nothing else.
pub record IsLost (e : ErrorPb) : Type 0 where
  pub leader_unnamed : e.not_leader ≡ none
  pub store_matches : e.store_not_match ≡ false
  pub epoch_matches : e.epoch_not_match ≡ none
  pub lost : e.region_not_found ≡ true
  pub in_time : e.stale_command ≡ false
  pub ready : e.data_is_not_ready ≡ false

lost_resolved :
    (gen : ℕ → ℕ) (now : ℕ) (region : RegionWithLeader) (e : ErrorPb) (c : RegionCache)
    → IsLost e
    → (handle_region_error gen now region e c).1 ≡ ok true
unfolding handle_region_error
lost_resolved gen now region e c h =
    ap (λ o. (handle_leader gen now region e c o).1) h.leader_unnamed
    ∙ ap
        (λ b.
          let r : Handled =
            if b
            then (
              forget_store (get_store_id region) (invalidate_region_cache (ver_id region) c),
              ok true,
            )
            else handle_epoch region e c e.epoch_not_match in
          r.1)
        h.store_matches
    ∙ ap (λ o. (handle_epoch region e c o).1) h.epoch_matches
    ∙ ap
        (λ b.
          let r : Handled =
            if b || e.key_not_in_region
            then (invalidate_region_cache (ver_id region) c, ok true)
            else if e.stale_command
            then (invalidate_region_cache (ver_id region) c, ok false)
            else if e.server_is_busy || e.max_timestamp_not_synced || e.read_index_not_ready
                || e.proposal_in_merging_mode
            then (c, ok false)
            else if e.raft_entry_too_large
            then (c, err (PlanError.region_error e))
            else (invalidate_region_cache (ver_id region) c, ok false) in
          r.1)
        h.lost

module _ {P A : Type 0} (w : World P A) where
  after_true :
      (s : State) (plan : P) (b : Backoff) (rs : RegionStore) (e : ErrorPb) (h : Handled)
      → h.1 ≡ ok true
      → after_handled w s plan b rs e h ≡ (record s { cache = h.0 }, again plan b (rs.attempt + 1))
  after_true s plan b rs e (c, ok true) q = refl
  after_true s plan b rs e (c, ok false) q = cc
  after_true s plan b rs e (c, err x) q = cc

  -- What a pass leaves when the server does not have the region.
  abbrev pub Spun : State → P → Backoff → ℕ → Passed w → Type 0
  Spun s plan b attempt r =
      (s' : State) × (r ≡ (s', again plan b (attempt + 1)))
      × (s'.routing.pending_backoffs ≡ [])
      × (s'.slept ≡ s.slept)

  pin_store-pending :
      (region : RegionWithLeader) (o : Option ℕ) (r : ReadRouting)
      → (pin_store w region o r).pending_backoffs ≡ r.pending_backoffs
  unfolding pin_store_for_region
  pin_store-pending region none r = refl
  pin_store-pending region (some store) r = refl

  pin_or_clear-pending :
      (rs : RegionStore) (e : ErrorPb) (r : ReadRouting)
      → (pin_or_clear w rs e r).pending_backoffs ≡ r.pending_backoffs
  unfolding clear_pinned_store_for_region
  pin_or_clear-pending rs e r =
      if-elim (λ (r' : ReadRouting). r'.pending_backoffs ≡ r.pending_backoffs)
        (e.max_timestamp_not_synced || e.read_index_not_ready || e.proposal_in_merging_mode)
        (pin_store w rs.region_with_leader (get_store_id rs.region_with_leader) r)
        (clear_pinned_store_for_region (region_id rs.region_with_leader) r)
        (λ _. pin_store-pending rs.region_with_leader (get_store_id rs.region_with_leader) r)
        (λ _. refl)

  pub on_region_error-Spun :
      (s : State) (plan : P) (b : Backoff) (rs : RegionStore) (e : ErrorPb)
      → IsLost e
      → s.routing.pending_backoffs ≡ []
      → Spun s plan b rs.attempt (on_region_error w s plan b rs e)
  unfolding on_region_error
  on_region_error-Spun s plan b rs e h q =
      let pinned = set_routing s (pin_or_clear w rs e s.routing) in
      let cleared =
        set_routing s
          (clear_pinned_store_for_region (region_id rs.region_with_leader) pinned.routing) in
      let handled =
        handle_region_error (w.gen s.ticks) (w.now_epoch_sec s.ticks) rs.region_with_leader e
          pinned.cache in
      let stale = is_replica_read_mode s.routing && e.stale_command in
      let rest =
        if stale
        then try_another w cleared plan b rs e
        else after_handled w pinned plan b rs e handled in
      let resolved =
        lost_resolved (w.gen s.ticks) (w.now_epoch_sec s.ticks) rs.region_with_leader e pinned.cache
          h in
      if-elim (Spun s plan b rs.attempt) (e.data_is_not_ready && rs.stale_read)
        (not_ready w s plan b rs e) rest (λ t. absurd (ground (arith, t, h.ready)))
        (λ _.
          if-elim (Spun s plan b rs.attempt) stale (try_another w cleared plan b rs e)
            (after_handled w pinned plan b rs e handled)
            (λ t. absurd (ground (arith, t, h.in_time)))
            (λ _. (
              record pinned { cache = handled.0 },
              after_true pinned plan b rs e handled resolved,
              pin_or_clear-pending rs e s.routing ∙ q,
              refl,
            )))
