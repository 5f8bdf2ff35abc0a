-- ===== src/Plan/Tests.antt =====
-- Runs of plans, and witnesses of their theorems.
use rust_tikv_client.Prelude.{
  ℕ, ◌≡◌, ◌≢◌, ◌⊎◌, refl, true, false, ltb, none, some, [], ◌∷◌, if◌then◌else◌, if-elim, ltb→lt,
  subst, arith,
}
use rust_tikv_client.Order.{nat_ord}
use rust_tikv_client.OrdMap.{get, remove}
use rust_tikv_client.Backoff.{Backoff, BackoffKind, next_delay_duration, delay_of}
use rust_tikv_client.Region.{Peer, PeerRole, RegionWithLeader, ver_id, get_store_id}
use rust_tikv_client.RegionCache.{RegionCache, new_with_ttl}
use rust_tikv_client.Routing.{
  ReplicaReadType, ReadRouting, is_stale_read, take_pending_backoff_for_retry,
  clear_pinned_store_for_region,
}
use rust_tikv_client.Routing.Select.{select_peer, select_peer_inner, select_with_leader}
use rust_tikv_client.Plan.{
  World, State, RegionStore, Response, ErrorPb, PlanError, Answer, ok, err, Ends, returns,
}
use rust_tikv_client.Plan.RegionError.{handle_region_error}
use rust_tikv_client.Plan.RegionError.Laws.{IsHandled, handle_region_error-IsHandled}
use rust_tikv_client.Plan.Pass.{Next, on_region_error, single_shard_pass, on_answer}
use rust_tikv_client.Plan.Retry.{single_plan_handler, run_shards, execute}
use rust_tikv_client.Plan.Pass.Ending.{Unresolved}
use rust_tikv_client.Plan.Pass.Recovers.{Recovers}
use rust_tikv_client.Plan.Retry.Total.{execute-ne-pending}
use rust_tikv_client.Plan.Retry.Spins.{execute-spins}
use rust_tikv_client.Plan.Pass.Lost.{IsLost}
use rust_tikv_client.Plan.Retry.Succeeds.{Delivered, execute-Delivered}
use rust_tikv_client.Plan.Stores
use rust_tikv_client.Plan.Stores.{requested, slept}
use rust_tikv_client.Plan.Stores.Laws.{IsRetried, single_store_handler-bounds}
use rust_tikv_client.Plan.Locks
use rust_tikv_client.Plan.Locks.{Locked, reroute_error, reroute_to_leader, resolve_loop}
use rust_tikv_client.Plan.Locks.Laws.{execute-leads}
use rust_tikv_client.Plan.Locks.Reroute.{reroute_error-backs_off}

abbrev peer_on : ℕ → Peer
peer_on store = record { id = store; store_id = store; role = PeerRole.voter; is_witness = false }

abbrev one_peer : RegionWithLeader
one_peer = record {
  region = record {
    id = 7;
    start_key = [];
    end_key = [];
    region_epoch = none;
    peers = peer_on 1 ∷ [];
  };
  leader = some (peer_on 1);
}

abbrev no_error : ErrorPb
no_error = record {
  not_leader = none;
  store_not_match = false;
  epoch_not_match = none;
  region_not_found = false;
  key_not_in_region = false;
  stale_command = false;
  server_is_busy = false;
  max_timestamp_not_synced = false;
  read_index_not_ready = false;
  proposal_in_merging_mode = false;
  raft_entry_too_large = false;
  data_is_not_ready = false;
}

abbrev lost_region : ErrorPb
lost_region = record no_error { region_not_found = true }

abbrev busy_server : ErrorPb
busy_server = record no_error { server_is_busy = true }

abbrev clean : ℕ → Response ℕ
clean n = record { key_errors = none; region_error = none; body = n }

abbrev failing : ErrorPb → Response ℕ
failing e = record { key_errors = none; region_error = some e; body = 0 }

abbrev at_leader : ReadRouting
at_leader = record {
  replica_read = ReplicaReadType.leader;
  stale_read = false;
  seed = 0;
  forced_leader = false;
  store_match = [];
  store_health = [];
  pinned_stores = [];
  pending_backoffs = [];
}

abbrev fresh : State
fresh = record {
  cache = new_with_ttl (record { base_sec = 60; jitter_sec = 0 });
  routing = at_leader;
  ticks = 0;
  slept = [];
}

-- One shard, whose store answers by the number of the attempt.
abbrev answering : (ℕ → Answer (Response ℕ)) → World ℕ ℕ
answering f = record {
  shards = λ t plan. ok (plan, one_peer) ∷ [];
  map_region_to_store = λ t r. ok tt;
  apply_store = λ rs plan. ok plan;
  execute = λ t rs plan. f rs.attempt;
  now_ms = λ t. t;
  now_epoch_sec = λ t. t;
  gen = λ t n. 0;
}

abbrev recovering : World ℕ ℕ
recovering = answering (λ a. if ltb a 2 then ok (failing busy_server) else ok (clean 5))

abbrev losing : World ℕ ℕ
losing = answering (λ a. ok (failing lost_region))

abbrev busy : World ℕ ℕ
busy = answering (λ a. ok (failing busy_server))

abbrev no_waits : Backoff
no_waits = record {
  kind = BackoffKind.no_jitter;
  current_attempts = 0;
  max_attempts = 0;
  base_delay_ms = 2;
  current_delay_ms = 2;
  max_delay_ms = 100;
}

abbrev three_waits : Backoff
three_waits = record no_waits { max_attempts = 3 }

-- Two waits, of 2 and 4 milliseconds, and then the response.
recovered : (execute recovering 3 false fresh 0 three_waits).1 ≡ returns (ok (ok (clean 5) ∷ []))
unfolding execute single_plan_handler run_shards single_shard_pass select_peer select_peer_inner
    select_with_leader on_answer on_region_error handle_region_error take_pending_backoff_for_retry
    get remove next_delay_duration delay_of clear_pinned_store_for_region new_with_ttl get_store_id
recovered = refl

two_tries : (a : ℕ) → Recovers 2 a (if ltb a 2 then ok (failing busy_server) else ok (clean 5))
two_tries a =
    if-elim (Recovers 2 a) (ltb a 2) (ok (failing busy_server)) (ok (clean 5))
      (λ t. (refl, (ltb→lt a 2 t, refl, refl))) (λ _. (refl, tt))

execute-Delivered_example : Delivered 1 (execute recovering 3 false fresh 0 three_waits).1
execute-Delivered_example =
    execute-Delivered recovering 2 (λ t plan. ((λ e. cc), tt)) (λ t plan. omega arith) (λ t r. tt)
      (λ rs plan. tt) (λ t rs plan. two_tries rs.attempt) 3 false fresh 0 three_waits (omega arith)
      refl (omega arith) refl refl

busy_waits :
    (gen : ℕ → ℕ) (now : ℕ) (region : RegionWithLeader) (c : RegionCache)
    → (handle_region_error gen now region busy_server c).1 ≢ ok true
unfolding handle_region_error
busy_waits gen now region c e = cc

busy_answer :
    (t : ℕ) (rs : RegionStore) (plan : ℕ) (resp : Response ℕ) (e : ErrorPb)
    → busy.execute t rs plan ≡ ok resp
    → resp.region_error ≡ some e
    → Unresolved 120 rs e
busy_answer t rs plan resp e p q gen now c l =
    let same : some busy_server ≡ some e = ground (arith, p, q) in
    subst (λ x. (handle_region_error gen now rs.region_with_leader x c).1 ≢ ok true)
      (ground (arith, same)) (busy_waits gen now rs.region_with_leader c)

execute-ne-pending_example : (execute busy 124 false fresh 0 three_waits).1 ≢ Ends.pending
execute-ne-pending_example =
    execute-ne-pending busy 120 (omega arith) (λ t plan. (omega arith, tt)) busy_answer 124 false
      fresh 0 three_waits (omega arith)

lost_region-IsLost : IsLost lost_region
lost_region-IsLost = record {
  leader_unnamed = refl;
  store_matches = refl;
  epoch_matches = refl;
  lost = refl;
  in_time = refl;
  ready = refl;
}

execute-spins_example :
    ((execute losing 50 true fresh 0 three_waits).1 ≡ Ends.pending)
    × ((execute losing 50 true fresh 0 three_waits).0.slept ≡ [])
execute-spins_example =
    execute-spins losing 0 one_peer (peer_on 1) (failing lost_region) lost_region refl (λ t. refl)
      (λ t r. refl) (λ rs. refl) (λ t rs. refl) refl refl lost_region-IsLost 50 true fresh
      three_waits refl

handle_region_error-IsHandled_example :
    IsHandled
      (ver_id one_peer)
      lost_region
      fresh.cache
      (handle_region_error (λ n. 0) 0 one_peer lost_region fresh.cache)
handle_region_error-IsHandled_example =
    handle_region_error-IsHandled (λ n. 0) 0 one_peer lost_region fresh.cache

-- A store that cannot be reached: three waits, and then the error.
abbrev unreachable : ℕ → Answer (Response ℕ)
unreachable t = err (PlanError.grpc t)

unreached : Stores.single_store_handler unreachable (λ t n. 0) 4 0 three_waits ≡ (
  requested ∷ slept 2 ∷ requested ∷ slept 4 ∷ requested ∷ slept 8 ∷ requested ∷ [],
  returns (err (PlanError.grpc 6)),
)
unfolding Stores.single_store_handler next_delay_duration delay_of
unreached = refl

single_store_handler-bounds_example :
    let r = Stores.single_store_handler unreachable (λ t n. 0) 4 0 three_waits in
    IsRetried 3 r.0 × (r.1 ≢ Ends.pending)
single_store_handler-bounds_example =
    single_store_handler-bounds unreachable (λ t n. 0) 4 three_waits (omega arith)

abbrev stale : ReadRouting
stale = record at_leader { stale_read = true }

abbrev locked : Locked ℕ ℕ
locked = record { locks = 3 ∷ []; region_error = none; body = 0 }

abbrev rerouted : Locked ℕ ℕ
rerouted = record { locks = []; region_error = some reroute_error; body = 0 }

meets_lock :
    Locks.execute (λ t. ok locked) (λ t ls. ok []) 0 (λ t n. 0) 2 stale three_waits
    ≡ (record stale { forced_leader = true }, Locks.done rerouted)
unfolding Locks.execute resolve_loop reroute_to_leader
meets_lock = refl

execute-leads_example :
    (rerouted.locks ≡ [])
    × (((record stale { forced_leader = true } ≡ stale)
          × (is_stale_read stale ≡ true → (y : Locked ℕ ℕ) × (ok locked ≡ ok y) × (y.locks ≡ [])))
        ⊎ ((is_stale_read stale ≡ true)
            × (rerouted.region_error ≡ some reroute_error)
            × ((now attempt : ℕ) (region : RegionWithLeader) (l : Peer)
                → region.leader ≡ some l
                → select_peer now (record stale { forced_leader = true }) region attempt
                  ≡ some (record { target_peer = l; replica_read = false; stale_read = false }))))
execute-leads_example =
    execute-leads (λ t. ok locked) (λ t ls. ok []) 0 (λ t n. 0) stale
      (record stale { forced_leader = true }) 2 three_waits rerouted meets_lock

abbrev at_one : RegionStore
at_one = record {
  region_with_leader = one_peer;
  replica_read = false;
  stale_read = true;
  attempt = 0;
}

reroute_error-backs_off_example :
    (on_region_error losing fresh 0 no_waits at_one reroute_error).1
    ≡ Next.done (err (PlanError.region_error reroute_error))
reroute_error-backs_off_example =
    reroute_error-backs_off losing 0 no_waits at_one fresh (omega arith)
