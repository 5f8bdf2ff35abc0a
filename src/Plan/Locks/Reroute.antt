-- ===== src/Plan/Locks/Reroute.antt =====
-- What the handler of a region does with the error that sends a stale read to the leader.
use rust_tikv_client.Prelude.{
  ◌+◌, ◌≤◌, ◌≡◌, refl, subst, true, false, ◌&&◌, ltb, leb, if-elim, arith,
}
use rust_tikv_client.Backoff.{Backoff, next_delay_duration, unless_exhausted}
use rust_tikv_client.Region.{ver_id, region_id, get_store_id}
use rust_tikv_client.RegionCache.Index.{invalidate_region_cache}
use rust_tikv_client.Routing.{is_replica_read_mode, clear_pinned_store_for_region}
use rust_tikv_client.Plan.{World, State, RegionStore, PlanError, err}
use rust_tikv_client.Plan.RegionError.{handle_region_error, on_region_epoch_not_match}
use rust_tikv_client.Plan.Pass
use rust_tikv_client.Plan.Pass.{
  busy_store, Next, Passed, on_region_error, after_handled, back_off, fast_retry_or_back_off,
  try_another, not_ready, pin_or_clear, set_routing, non_witness_peers,
}
use rust_tikv_client.Plan.Locks.{reroute_error}

module _ {P A : Type 0} (w : World P A) (plan : P) (b : Backoff) (rs : RegionStore) where
  abbrev Fails : Passed w → Type 0
  Fails p = p.1 ≡ Next.done (err (PlanError.region_error reroute_error))

  back_off-Fails :
      (s : State)
      → b.max_attempts ≤ b.current_attempts
      → Fails (back_off w s plan b rs reroute_error)
  unfolding next_delay_duration
  back_off-Fails s l =
      let spent : true ≡ leb b.max_attempts b.current_attempts = ground arith in
      subst
        (λ t. Fails (
          Pass.after_delay w s plan (rs.attempt + 1) (PlanError.region_error reroute_error)
            (unless_exhausted (w.gen s.ticks) b t)))
        spent refl

  fast_retry-Fails :
      (s : State)
      → b.max_attempts ≤ b.current_attempts
      → Fails (fast_retry_or_back_off w s plan b rs reroute_error)
  unfolding reroute_error
  fast_retry-Fails s l =
      let peers = non_witness_peers rs.region_with_leader.region.peers in
      if-elim Fails
        (is_replica_read_mode s.routing
          && reroute_error.server_is_busy
          && ltb 1 peers
          && ltb (rs.attempt + 1) peers)
        (
          set_routing s (busy_store w s (get_store_id rs.region_with_leader)),
          Next.again plan b (rs.attempt + 1),
        )
        (back_off w s plan b rs reroute_error) (λ t. absurd (ground (arith, t)))
        (λ _. back_off-Fails s l)

  -- The error that sends a stale read to the leader makes the handler of the region back off: when
  -- no attempt of its backoff is left, the read fails with that error.
  pub reroute_error-backs_off :
      (s : State)
      → b.max_attempts ≤ b.current_attempts
      → (on_region_error w s plan b rs reroute_error).1
        ≡ Next.done (err (PlanError.region_error reroute_error))
  unfolding on_region_error reroute_error handle_region_error on_region_epoch_not_match
  reroute_error-backs_off s l =
      let region = rs.region_with_leader in
      let pinned = set_routing s (clear_pinned_store_for_region (region_id region) s.routing) in
      let cleared =
        set_routing s (clear_pinned_store_for_region (region_id region) pinned.routing) in
      if-elim Fails (is_replica_read_mode s.routing && false)
        (try_another w cleared plan b rs reroute_error)
        (fast_retry_or_back_off w
          (record pinned { cache = invalidate_region_cache (ver_id region) s.cache }) plan b rs
          reroute_error)
        (λ t. absurd (ground (arith, t)))
        (λ _.
          fast_retry-Fails
            (record pinned { cache = invalidate_region_cache (ver_id region) s.cache }) l)
