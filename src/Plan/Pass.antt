-- ===== src/Plan/Pass.antt =====
-- src/request/plan.rs: one pass of RetryableMultiRegion's handler of a shard. It ends with the result
-- of the shard, or with a plan that is cut into shards and handled anew.
pub mod Budget
pub mod Ending
pub mod Lost
pub mod Good
pub mod Recovers
use rust_tikv_client.Prelude.{
  ℕ, zero, suc, ◌+◌, Bool, true, false, not, ◌&&◌, ◌||◌, ltb, leb, length, Option, none, some, List,
  [], ◌∷◌, ◌++◌, if◌then◌else◌,
}
use rust_tikv_client.Backoff.{Backoff, Delay, waits, stopped, panicked, next_delay_duration}
use rust_tikv_client.Region.{Peer, RegionVerId, RegionWithLeader, ver_id, region_id, get_store_id}
use rust_tikv_client.RegionCache.Index.{invalidate_region_cache}
use rust_tikv_client.Routing.{
  ReadRouting, ReadPeer, is_replica_read_mode, take_pending_backoff_for_retry, add_pending_backoff,
  mark_store_slow_for, pin_store_for_region, clear_pinned_store_for_region,
}
use rust_tikv_client.Routing.Select.{select_peer}
use rust_tikv_client.Plan.{
  World, State, RegionStore, Response, ErrorPb, PlanError, Answer, ok, err, Ends, returns,
  is_grpc_error, sleep,
}
use rust_tikv_client.Plan.RegionError.{Handled, handle_region_error, forget_store}

-- How one pass ends.
pub data Next (P A : Type 0) : Type 0 where
  done : Answer (List (Answer (Response A))) → Next P A
  again : P → Backoff → ℕ → Next P A
  panic : Next P A

abbrev pub set_routing : State → ReadRouting → State
set_routing s r = record s { routing = r }

-- The number of peers that are no witnesses.
abbrev pub non_witness_peers : List Peer → ℕ
non_witness_peers [] = 0
non_witness_peers (p ∷ ps) =
    if p.is_witness then non_witness_peers ps else suc (non_witness_peers ps)

abbrev pub max_retries : ℕ
max_retries = 120

module _ {P A : Type 0} (w : World P A) where
  abbrev pub Passed : Type 0
  Passed = State × Next P A

  -- The match on the delay: sleep and retry, or give the error.
  abbrev pub after_delay : State → P → ℕ → PlanError → Backoff × Delay → Passed
  after_delay s plan attempt e (b, waits d) = (sleep d s, again plan b attempt)
  after_delay s plan attempt e (b, stopped) = (s, done (err e))
  after_delay s plan attempt e (b, panicked) = (s, panic)

  unfoldable pub handle_other_error :
      State → P → RegionVerId → Option ℕ → Backoff → ℕ → PlanError → Passed
  unfolding next_delay_duration invalidate_region_cache
  handle_other_error s plan region store b attempt e =
      let cache = invalidate_region_cache region s.cache in
      after_delay (record s { cache = if is_grpc_error e then forget_store store cache else cache })
        plan (attempt + 1) e (next_delay_duration (w.gen s.ticks) b)

  -- After the error of the region was neither resolved nor fatal.
  abbrev pub back_off : State → P → Backoff → RegionStore → ErrorPb → Passed
  back_off s plan b rs e =
      after_delay s plan (rs.attempt + 1) (PlanError.region_error e)
        (next_delay_duration (w.gen s.ticks) b)

  abbrev pub busy_store : State → Option ℕ → ReadRouting
  busy_store s none = s.routing
  busy_store s (some store) =
      mark_store_slow_for (w.now_ms s.ticks) store 500 (add_pending_backoff (some store) s.routing)

  abbrev pub fast_retry_or_back_off : State → P → Backoff → RegionStore → ErrorPb → Passed
  fast_retry_or_back_off s plan b rs e =
      let peers = non_witness_peers rs.region_with_leader.region.peers in
      if is_replica_read_mode s.routing
        && e.server_is_busy
        && ltb 1 peers
        && ltb (rs.attempt + 1) peers
      then (
        set_routing s (busy_store s (get_store_id rs.region_with_leader)),
        again plan b (rs.attempt + 1),
      )
      else back_off s plan b rs e

  abbrev pub after_handled : State → P → Backoff → RegionStore → ErrorPb → Handled → Passed
  after_handled s plan b rs e (c, err e') = (record s { cache = c }, done (err e'))
  after_handled s plan b rs e (c, ok true) = (record s { cache = c }, again plan b (rs.attempt + 1))
  after_handled s plan b rs e (c, ok false) =
      fast_retry_or_back_off (record s { cache = c }) plan b rs e

  -- A stale command met by a read from a replica: another peer, as long as there is one.
  abbrev pub try_another : State → P → Backoff → RegionStore → ErrorPb → Passed
  try_another s plan b rs e =
      if leb (non_witness_peers rs.region_with_leader.region.peers) (rs.attempt + 1)
      then (
        record s { cache = invalidate_region_cache (ver_id rs.region_with_leader) s.cache },
        done (err (PlanError.region_error e)),
      )
      else (s, again plan b (rs.attempt + 1))

  abbrev pub pin_store : RegionWithLeader → Option ℕ → ReadRouting → ReadRouting
  pin_store region none r = r
  pin_store region (some store) r = pin_store_for_region (region_id region) store r

  abbrev pub pin_or_clear : RegionStore → ErrorPb → ReadRouting → ReadRouting
  pin_or_clear rs e r =
      if e.max_timestamp_not_synced || e.read_index_not_ready || e.proposal_in_merging_mode
      then pin_store rs.region_with_leader (get_store_id rs.region_with_leader) r
      else clear_pinned_store_for_region (region_id rs.region_with_leader) r

  abbrev pub not_ready : State → P → Backoff → RegionStore → ErrorPb → Passed
  not_ready s plan b rs e =
      if leb max_retries rs.attempt
      then (s, done (err (PlanError.region_error e)))
      else (sleep 200 s, again plan b (rs.attempt + 1))

  unfoldable pub on_region_error : State → P → Backoff → RegionStore → ErrorPb → Passed
  unfolding handle_region_error invalidate_region_cache next_delay_duration get_store_id
      clear_pinned_store_for_region pin_store_for_region mark_store_slow_for add_pending_backoff
  on_region_error s plan b rs e =
      let pinned = set_routing s (pin_or_clear rs e s.routing) in
      let cleared =
        set_routing s
          (clear_pinned_store_for_region (region_id rs.region_with_leader) pinned.routing) in
      if e.data_is_not_ready && rs.stale_read
      then not_ready s plan b rs e
      else if is_replica_read_mode s.routing && e.stale_command
      then try_another cleared plan b rs e
      else after_handled pinned plan b rs e (
          handle_region_error (w.gen s.ticks) (w.now_epoch_sec s.ticks) rs.region_with_leader e
            pinned.cache)

  abbrev pub on_clean : State → P → Backoff → RegionStore → Response A → Option ErrorPb → Passed
  on_clean s plan b rs resp (some e) = on_region_error s plan b rs e
  on_clean s plan b rs resp none = (
    set_routing s (clear_pinned_store_for_region (region_id rs.region_with_leader) s.routing),
    done (ok (ok resp ∷ [])),
  )

  abbrev pub on_response : State → P → Backoff → RegionStore → Response A → Option ℕ → Passed
  on_response s plan b rs resp (some e) = (s, done (ok (err (PlanError.key_errors e) ∷ [])))
  on_response s plan b rs resp none = on_clean s plan b rs resp resp.region_error

  abbrev pub slow_store : State → Option ℕ → State
  slow_store s none = s
  slow_store s (some store) =
      set_routing s (mark_store_slow_for (w.now_ms s.ticks) store 500 s.routing)

  unfoldable pub on_answer : State → P → Backoff → RegionStore → Answer (Response A) → Passed
  unfolding on_region_error handle_other_error get_store_id mark_store_slow_for
      clear_pinned_store_for_region
  on_answer s plan b rs (ok resp) = on_response s plan b rs resp resp.key_errors
  on_answer s plan b rs (err e) =
      let store = get_store_id rs.region_with_leader in
      if is_grpc_error e
      then handle_other_error (slow_store s store) plan (ver_id rs.region_with_leader) store b
          (rs.attempt + 1) e
      else (s, done (err e))

  abbrev pub send : State → P → Backoff → RegionStore → Passed
  send s plan b rs =
      on_answer (record s { ticks = s.ticks + 1 }) plan b rs (w.execute s.ticks rs plan)

  abbrev pub send_after : State → P → RegionStore → Backoff × Delay → Passed
  send_after s plan rs (b, waits d) = send (sleep d s) plan b rs
  send_after s plan rs (b, stopped) = (s, done (err PlanError.backoff_exhausted))
  send_after s plan rs (b, panicked) = (s, panic)

  -- The backoff that an earlier retry left for this store.
  abbrev pub owed : State → P → Backoff → RegionStore → ReadRouting × Option (Unit {0}) → Passed
  owed s plan b rs (r, none) = send (set_routing s r) plan b rs
  owed s plan b rs (r, some u) =
      send_after (set_routing s r) plan rs (next_delay_duration (w.gen s.ticks) b)

  abbrev pub pay : State → P → Backoff → RegionStore → Option ℕ → Passed
  pay s plan b rs none = send s plan b rs
  pay s plan b rs (some store) =
      owed s plan b rs (take_pending_backoff_for_retry (some store) s.routing)

  -- The arms for a store that cannot be reached.
  abbrev pub no_store : State → P → Backoff → ℕ → PlanError → Passed
  no_store s plan b attempt (PlanError.leader_not_found v) =
      handle_other_error s plan v none b (attempt + 1) (PlanError.leader_not_found v)
  no_store s plan b attempt e = (s, done (err e))

  abbrev pub on_applied : State → P → Backoff → RegionStore → Answer P → Passed
  on_applied s plan b rs (ok applied) = pay s applied b rs (get_store_id rs.region_with_leader)
  on_applied s plan b rs (err e) = no_store s plan b rs.attempt e

  abbrev pub on_store : State → P → Backoff → RegionStore → Answer (Unit {0}) → Passed
  on_store s plan b rs (ok u) = on_applied s plan b rs (w.apply_store rs plan)
  on_store s plan b rs (err e) = no_store s plan b rs.attempt e

  abbrev pub region_store : RegionWithLeader → ReadPeer → ℕ → RegionStore
  region_store region p attempt = record {
    region_with_leader = record region { leader = some p.target_peer };
    replica_read = p.replica_read;
    stale_read = p.stale_read;
    attempt = attempt;
  }

  abbrev pub on_peer : State → P → RegionWithLeader → Backoff → ℕ → Option ReadPeer → Passed
  on_peer s plan region b attempt none =
      handle_other_error s plan (ver_id region) none b (attempt + 1)
        (PlanError.leader_not_found (ver_id region))
  on_peer s plan region b attempt (some p) =
      let rs = region_store region p attempt in
      on_store s plan b rs (w.map_region_to_store s.ticks rs.region_with_leader)

  -- One pass of the handler of a shard. That the region has a leader is asked once: a peer is
  -- chosen only when it has one.
  unfoldable pub single_shard_pass : State → P → RegionWithLeader → Backoff → ℕ → Passed
  unfolding on_answer handle_other_error select_peer take_pending_backoff_for_retry
      next_delay_duration get_store_id
  single_shard_pass s plan region b attempt =
      on_peer s plan region b attempt (select_peer (w.now_ms s.ticks) s.routing region attempt)
