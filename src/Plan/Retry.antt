-- ===== src/Plan/Retry.antt =====
-- src/request/plan.rs: RetryableMultiRegion. The shards of a plan are handled one after the other,
-- each to its end, where the code polls them together.
pub mod Succeeds
pub mod Total
pub mod Spins
use rust_tikv_client.Prelude.{
  ℕ, zero, suc, ◌+◌, Bool, true, false, not, ◌&&◌, ◌||◌, ltb, leb, length, Option, none, some, List,
  [], ◌∷◌, ◌++◌, if◌then◌else◌,
}
use rust_tikv_client.Backoff.{Backoff, Delay, waits, stopped, panicked, next_delay_duration}
use rust_tikv_client.Region.{Peer, RegionVerId, RegionWithLeader, ver_id, region_id, get_store_id}
use rust_tikv_client.RegionCache.Index.{invalidate_region_cache}
use rust_tikv_client.Routing.{
  ReadRouting, ReadPeer, is_replica_read_mode, take_pending_backoff_for_retry, add_pending_backoff,
  mark_store_slow_for, pin_store_for_region, clear_pinned_store_for_region,
}
use rust_tikv_client.Routing.Select.{select_peer}
use rust_tikv_client.Plan.{
  World, State, RegionStore, Response, ErrorPb, PlanError, Answer, ok, err, Ends, returns,
  is_grpc_error, sleep,
}
use rust_tikv_client.Plan.RegionError.{Handled, handle_region_error, forget_store}
use rust_tikv_client.Plan.Pass.{
  Next, Passed, after_delay, after_handled, again, back_off, busy_store, done,
  fast_retry_or_back_off, handle_other_error, max_retries, no_store, non_witness_peers, not_ready,
  on_answer, on_applied, on_clean, on_peer, on_region_error, on_response, on_store, owed, panic,
  pay, pin_or_clear, pin_store, region_store, send, send_after, set_routing, single_shard_pass,
  slow_store, try_another,
}

module _ {P A : Type 0} (w : World P A) where
  abbrev pub Results : Type 0
  Results = List (Answer (Response A))

  abbrev pub Ran : Type 0
  Ran = State × Ends Results

  -- `shard?`, for every shard before any of them is handled.
  abbrev pub all_shards :
      List (Answer (P × RegionWithLeader)) → Answer (List (P × RegionWithLeader))
  all_shards [] = ok []
  all_shards (err e ∷ rest) = err e
  all_shards (ok x ∷ rest) = elim (all_shards rest) [ ok xs ↦ ok (x ∷ xs) | err e ↦ err e ]

  -- A retry is what `retry` makes of it.
  abbrev pub follow_pass : (State → P → Backoff → ℕ → Ran) → Passed w → Ran
  follow_pass retry (s, done r) = (s, returns r)
  follow_pass retry (s, again plan b attempt) = retry s plan b attempt
  follow_pass retry (s, panic) = (s, Ends.panics)

  abbrev pub prepend : Results → Ran → Ran
  prepend rs (s, returns (ok more)) = (s, returns (ok (rs ++ more)))
  prepend rs (s, other) = (s, other)

  -- The result of one shard before those of the others: errors are kept, or end the loop.
  abbrev pub add_results : Bool → Ran → (State → Ran) → Ran
  add_results preserve (s, returns (ok rs)) rest = prepend rs (rest s)
  add_results true (s, returns (err e)) rest = prepend (err e ∷ []) (rest s)
  add_results false (s, returns (err e)) rest = (s, returns (err e))
  add_results preserve (s, Ends.panics) rest = (s, Ends.panics)
  add_results preserve (s, Ends.pending) rest = (s, Ends.pending)

  unfoldable pub run_shards :
      (State → P → Backoff → ℕ → Ran)
      → Bool
      → Backoff
      → ℕ
      → List (P × RegionWithLeader)
      → State
      → Ran
  unfolding single_shard_pass
  run_shards retry preserve b attempt [] s = (s, returns (ok []))
  run_shards retry preserve b attempt ((plan, region) ∷ rest) s =
      add_results preserve (follow_pass retry (single_shard_pass w s plan region b attempt))
        (run_shards retry preserve b attempt rest)

  abbrev pub run_all :
      (State → P → Backoff → ℕ → Ran)
      → Bool
      → Backoff
      → ℕ
      → State
      → Answer (List (P × RegionWithLeader))
      → Ran
  run_all retry preserve b attempt s (ok xs) = run_shards retry preserve b attempt xs s
  run_all retry preserve b attempt s (err e) = (s, returns (err e))

  -- The fuel counts the passes of a shard that are retries of one another.
  unfoldable pub single_plan_handler : ℕ → Bool → State → P → Backoff → ℕ → Ran
  unfolding run_shards
  single_plan_handler zero preserve s plan b attempt = (s, Ends.pending)
  single_plan_handler (suc fuel) preserve s plan b attempt =
      run_all (single_plan_handler fuel preserve) preserve b attempt s
        (all_shards (w.shards s.ticks plan))

  unfoldable pub execute : ℕ → Bool → State → P → Backoff → Ran
  unfolding single_plan_handler
  execute fuel preserve s plan b = single_plan_handler fuel preserve s plan b 0
