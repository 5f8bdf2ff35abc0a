-- ===== src/Plan/Pass/Ending.antt =====
-- A plan ends once its errors are no longer resolved without a wait.
use rust_tikv_client.Prelude.{ℕ, ◌+◌, ◌≤◌, ◌≡◌, ◌≢◌, refl, true, Option, none, some, if-elim, arith}
use rust_tikv_client.Backoff.{Backoff, Delay, waits, stopped, panicked, next_delay_duration}
use rust_tikv_client.Region.{RegionWithLeader, ver_id, get_store_id}
use rust_tikv_client.RegionCache.{RegionCache}
use rust_tikv_client.Routing.{ReadRouting, ReadPeer, take_pending_backoff_for_retry}
use rust_tikv_client.Routing.Select.{select_peer}
use rust_tikv_client.Plan.{
  World, State, RegionStore, Response, ErrorPb, PlanError, Answer, ok, err, is_grpc_error, sleep,
}
use rust_tikv_client.Plan.RegionError.{handle_region_error}
use rust_tikv_client.Plan.Pass.{
  Next, done, again, panic, set_routing, non_witness_peers, Passed, handle_other_error, on_clean,
  on_response, slow_store, on_answer, send, send_after, owed, pay, no_store, on_applied, on_store,
  region_store, on_peer, single_shard_pass,
}
use rust_tikv_client.Plan.Pass.Budget.{
  Advances, next_delay_duration-Advances, left, Falls, handle_other_error-Falls,
  on_region_error-Falls,
}

-- The region of a shard has at most n peers that are no witnesses.
abbrev pub Small {ℓ} : {X : Type ℓ} → ℕ → Answer (X × RegionWithLeader) → Type 0
Small n (ok (x, r)) = non_witness_peers r.region.peers ≤ n
Small n (err e) = Unit {0}

-- From attempt n on, the error of a region is not resolved without a wait.
abbrev pub Unresolved : ℕ → RegionStore → ErrorPb → Type 0
Unresolved n rs e =
    (gen : ℕ → ℕ) (now : ℕ) (c : RegionCache)
    → n ≤ rs.attempt
    → (handle_region_error gen now rs.region_with_leader e c).1 ≢ ok true

Falls-le : {P A : Type 0} (n j k : ℕ) (x : Next P A) → j ≤ k → Falls n j x → Falls n k x
Falls-le n j k (done r) l f = tt
Falls-le n j k (again plan b attempt) l f = omega arith
Falls-le n j k panic l f = tt

module _ {P A : Type 0} (w : World P A) (n : ℕ) (late : 120 ≤ n)
    (unresolved : (t : ℕ) (rs : RegionStore) (plan : P) (resp : Response A) (e : ErrorPb)
      → w.execute t rs plan ≡ ok resp
      → resp.region_error ≡ some e
      → Unresolved n rs e) where
  module _ (rs : RegionStore) (few : non_witness_peers rs.region_with_leader.region.peers ≤ n) where
    abbrev Low : Backoff → Passed w → Type 0
    Low b r = Falls n (left n b rs.attempt) r.1

    on_clean-Low :
        (s : State) (plan : P) (b : Backoff) (resp : Response A) (o : Option ErrorPb)
        → ((e : ErrorPb) → o ≡ some e → Unresolved n rs e)
        → Low b (on_clean w s plan b rs resp o)
    on_clean-Low s plan b resp none u = tt
    on_clean-Low s plan b resp (some e) u =
        on_region_error-Falls w n plan b rs e s late few (u e refl)

    on_response-Low :
        (s : State) (plan : P) (b : Backoff) (resp : Response A) (o : Option ℕ)
        → ((e : ErrorPb) → resp.region_error ≡ some e → Unresolved n rs e)
        → Low b (on_response w s plan b rs resp o)
    on_response-Low s plan b resp none u = on_clean-Low s plan b resp resp.region_error u
    on_response-Low s plan b resp (some k) u = tt

    on_answer-Low :
        (s : State) (plan : P) (b : Backoff) (a : Answer (Response A))
        → ((resp : Response A) (e : ErrorPb)
            → a ≡ ok resp
            → resp.region_error ≡ some e
            → Unresolved n rs e)
        → Low b (on_answer w s plan b rs a)
    unfolding on_answer
    on_answer-Low s plan b (ok resp) u =
        on_response-Low s plan b resp resp.key_errors (λ e. u resp e refl)
    on_answer-Low s plan b (err e) u =
        let store = get_store_id rs.region_with_leader in
        let v = ver_id rs.region_with_leader in
        if-elim (Low b) (is_grpc_error e)
          (handle_other_error w (slow_store w s store) plan v store b (rs.attempt + 1) e)
          (s, done (err e))
          (λ _.
            handle_other_error-Falls w n (slow_store w s store) plan v store b rs.attempt
              (rs.attempt + 1) e (omega arith))
          (λ _. tt)

    send-Low : (s : State) (plan : P) (b : Backoff) → Low b (send w s plan b rs)
    send-Low s plan b =
        on_answer-Low (record s { ticks = s.ticks + 1 }) plan b (w.execute s.ticks rs plan)
          (λ resp e. unresolved s.ticks rs plan resp e)

    send_after-Low :
        (s : State) (plan : P) (b : Backoff) (r : Backoff × Delay)
        → Advances b r
        → Low b (send_after w s plan rs r)
    send_after-Low s plan b (b', waits d) a =
        Falls-le n (left n b' rs.attempt) (left n b rs.attempt) _ (omega arith)
          (send-Low (sleep d s) plan b')
    send_after-Low s plan b (b', stopped) a = tt
    send_after-Low s plan b (b', panicked) a = tt

    owed-Low :
        (s : State) (plan : P) (b : Backoff) (r : ReadRouting × Option (Unit {0}))
        → Low b (owed w s plan b rs r)
    owed-Low s plan b (r, none) = send-Low (set_routing s r) plan b
    owed-Low s plan b (r, some u) =
        send_after-Low (set_routing s r) plan b (next_delay_duration (w.gen s.ticks) b)
          (next_delay_duration-Advances (w.gen s.ticks) b)

    pay-Low : (s : State) (plan : P) (b : Backoff) (o : Option ℕ) → Low b (pay w s plan b rs o)
    pay-Low s plan b none = send-Low s plan b
    pay-Low s plan b (some store) =
        owed-Low s plan b (take_pending_backoff_for_retry (some store) s.routing)

    no_store-Low :
        (s : State) (plan : P) (b : Backoff) (e : PlanError)
        → Low b (no_store w s plan b rs.attempt e)
    no_store-Low s plan b (PlanError.leader_not_found v) =
        handle_other_error-Falls w n s plan v none b rs.attempt (rs.attempt + 1)
          (PlanError.leader_not_found v) (omega arith)
    no_store-Low s plan b (PlanError.grpc_api k) = tt
    no_store-Low s plan b (PlanError.grpc k) = tt
    no_store-Low s plan b (PlanError.key_errors k) = tt
    no_store-Low s plan b (PlanError.other k) = tt
    no_store-Low s plan b (PlanError.region_error e) = tt
    no_store-Low s plan b PlanError.backoff_exhausted = tt

    on_applied-Low :
        (s : State) (plan : P) (b : Backoff) (a : Answer P) → Low b (on_applied w s plan b rs a)
    on_applied-Low s plan b (ok applied) = pay-Low s applied b (get_store_id rs.region_with_leader)
    on_applied-Low s plan b (err e) = no_store-Low s plan b e

    on_store-Low :
        (s : State) (plan : P) (b : Backoff) (a : Answer (Unit {0}))
        → Low b (on_store w s plan b rs a)
    on_store-Low s plan b (ok u) = on_applied-Low s plan b (w.apply_store rs plan)
    on_store-Low s plan b (err e) = no_store-Low s plan b e

  module _ (region : RegionWithLeader) (few : non_witness_peers region.region.peers ≤ n) where
    on_peer-Falls :
        (s : State) (plan : P) (b : Backoff) (attempt : ℕ) (o : Option ReadPeer)
        → Falls n (left n b attempt) (on_peer w s plan region b attempt o).1
    on_peer-Falls s plan b attempt none =
        handle_other_error-Falls w n s plan (ver_id region) none b attempt (attempt + 1)
          (PlanError.leader_not_found (ver_id region)) (omega arith)
    on_peer-Falls s plan b attempt (some p) =
        let rs = region_store w region p attempt in
        on_store-Low rs few s plan b (w.map_region_to_store s.ticks rs.region_with_leader)

    pub single_shard_pass-Falls :
        (s : State) (plan : P) (b : Backoff) (attempt : ℕ)
        → Falls n (left n b attempt) (single_shard_pass w s plan region b attempt).1
    unfolding single_shard_pass
    single_shard_pass-Falls s plan b attempt =
        on_peer-Falls s plan b attempt (select_peer (w.now_ms s.ticks) s.routing region attempt)
