-- ===== src/Plan/Retry/Spins.antt =====
-- A plan that never ends: errors that count as resolved are retried at once, without a bound.
use rust_tikv_client.Prelude.{
  ℕ, zero, suc, ◌+◌, ◌≡◌, refl, sym, subst, ◌∙◌, inl, inr, Bool, Option, none, some, [], ◌∷◌,
}
use rust_tikv_client.Order.{nat_ord}
use rust_tikv_client.OrdMap
use rust_tikv_client.Backoff.{Backoff}
use rust_tikv_client.Region.{Peer, RegionWithLeader, get_store_id}
use rust_tikv_client.Routing.{ReadPeer, take_pending_backoff_for_retry}
use rust_tikv_client.Routing.Select.Laws.{select_peer-IsRead}
use rust_tikv_client.Plan.{World, State, RegionStore, Response, ErrorPb, Answer, ok, Ends, returns}
use rust_tikv_client.Plan.Pass.{
  Passed, on_clean, on_response, on_answer, owed, pay, on_applied, on_store, region_store, on_peer,
  single_shard_pass,
}
use rust_tikv_client.Plan.Retry.{
  Ran, all_shards, follow_pass, add_results, run_shards, run_all, single_plan_handler, execute,
}
use rust_tikv_client.Plan.Pass.Lost.{IsLost, Spun, on_region_error-Spun}

module _ {P A : Type 0} (w : World P A) where
  module _ (plan : P) (region : RegionWithLeader) (l : Peer) (resp : Response A) (e : ErrorPb)
      (led : region.leader ≡ some l) (shards : (t : ℕ) → w.shards t plan ≡ ok (plan, region) ∷ [])
      (mapped : (t : ℕ) (r : RegionWithLeader) → w.map_region_to_store t r ≡ ok tt)
      (applied : (rs : RegionStore) → w.apply_store rs plan ≡ ok plan)
      (answered : (t : ℕ) (rs : RegionStore) → w.execute t rs plan ≡ ok resp)
      (clean : resp.key_errors ≡ none) (lost : resp.region_error ≡ some e) (h : IsLost e) where
    on_answer-Spun :
        (s : State) (b : Backoff) (rs : RegionStore) (a : Answer (Response A))
        → a ≡ ok resp
        → s.routing.pending_backoffs ≡ []
        → Spun w s plan b rs.attempt (on_answer w s plan b rs a)
    unfolding on_answer
    on_answer-Spun s b rs a q r =
        subst (λ x. Spun w s plan b rs.attempt (on_answer w s plan b rs x)) (sym q)
          (subst (λ o. Spun w s plan b rs.attempt (on_response w s plan b rs resp o)) (sym clean)
            (subst (λ o. Spun w s plan b rs.attempt (on_clean w s plan b rs resp o)) (sym lost)
              (on_region_error-Spun w s plan b rs e h r)))

    pay-Spun :
        (s : State) (b : Backoff) (rs : RegionStore) (o : Option ℕ)
        → s.routing.pending_backoffs ≡ []
        → Spun w s plan b rs.attempt (pay w s plan b rs o)
    unfolding take_pending_backoff_for_retry OrdMap.get OrdMap.remove
    pay-Spun s b rs none q =
        on_answer-Spun (record s { ticks = s.ticks + 1 }) b rs _ (answered s.ticks rs) q
    pay-Spun s b rs (some store) q =
        subst
          (λ m. Spun w s plan b rs.attempt (
            owed w s plan b rs
              (record s.routing { pending_backoffs = OrdMap.remove store m }, OrdMap.get store m)))
          (sym q)
          (on_answer-Spun
            (record s { ticks = s.ticks + 1; routing = record s.routing { pending_backoffs = [] } })
            b rs _ (answered s.ticks rs) refl)

    on_peer-Spun :
        (s : State) (b : Backoff) (attempt : ℕ) (p : ReadPeer)
        → s.routing.pending_backoffs ≡ []
        → Spun w s plan b attempt (on_peer w s plan region b attempt (some p))
    on_peer-Spun s b attempt p q =
        let rs = region_store w region p attempt in
        subst (λ a. Spun w s plan b attempt (on_store w s plan b rs a))
          (sym (mapped s.ticks rs.region_with_leader))
          (subst (λ a. Spun w s plan b attempt (on_applied w s plan b rs a)) (sym (applied rs))
            (pay-Spun s b rs (get_store_id rs.region_with_leader) q))

    pass-Spun :
        (s : State) (b : Backoff) (attempt : ℕ)
        → s.routing.pending_backoffs ≡ []
        → Spun w s plan b attempt (single_shard_pass w s plan region b attempt)
    unfolding single_shard_pass
    pass-Spun s b attempt q =
        elim (select_peer-IsRead (w.now_ms s.ticks) s.routing region attempt) [
          | inl n ↦ absurd (cc (led, n.0))
          | inr (l', p, led', chosen, serves, stale, replica) ↦
              subst (λ o. Spun w s plan b attempt (on_peer w s plan region b attempt o))
                (sym chosen) (on_peer-Spun s b attempt p q)
        ]

    -- Still running, without a sleep.
    abbrev Runs : State → Ran w → Type 0
    Runs s r = (r.1 ≡ Ends.pending) × (r.0.slept ≡ s.slept)

    add_results-Runs :
        (preserve : Bool) (s : State) (r : Ran w) (rest : State → Ran w)
        → Runs s r
        → Runs s (add_results w preserve r rest)
    add_results-Runs preserve s (s', Ends.pending) rest h = h
    add_results-Runs preserve s (s', Ends.panics) rest h = cc
    add_results-Runs preserve s (s', returns a) rest h = cc

    follow_pass-Runs :
        (retry : State → P → Backoff → ℕ → Ran w) (preserve : Bool) (s : State) (b : Backoff)
        (attempt : ℕ) (r : Passed w) (rest : State → Ran w)
        → ((s' : State)
            → s'.routing.pending_backoffs ≡ []
            → Runs s' (retry s' plan b (attempt + 1)))
        → Spun w s plan b attempt r
        → Runs s (add_results w preserve (follow_pass w retry r) rest)
    follow_pass-Runs retry preserve s b attempt r rest k (s', same, q, slept) =
        let ih = k s' q in
        subst (λ x. Runs s (add_results w preserve (follow_pass w retry x) rest)) (sym same)
          (add_results-Runs preserve s (retry s' plan b (attempt + 1)) rest (ih.0, ih.1 ∙ slept))

    handler-Runs :
        (fuel : ℕ) (preserve : Bool) (s : State) (b : Backoff) (attempt : ℕ)
        → s.routing.pending_backoffs ≡ []
        → Runs s (single_plan_handler w fuel preserve s plan b attempt)
    unfolding single_plan_handler run_shards
    handler-Runs zero preserve s b attempt q = (refl, refl)
    handler-Runs (suc fuel) preserve s b attempt q =
        let retry = single_plan_handler w fuel preserve in
        subst (λ xs. Runs s (run_all w retry preserve b attempt s (all_shards w xs)))
          (sym (shards s.ticks))
          (follow_pass-Runs retry preserve s b attempt (single_shard_pass w s plan region b attempt)
            (run_shards w retry preserve b attempt [])
            (λ s' q'. handler-Runs fuel preserve s' b (attempt + 1) q') (pass-Spun s b attempt q))

-- When the plan is one shard whose region has a leader, and the store answers every request that it
-- does not have the region, the plan does not end however long it runs, and it never sleeps: no
-- attempt of the backoff is used up, even when it has none. No backoff is pending at the start.
pub execute-spins :
    {P A : Type 0} (w : World P A) (plan : P) (region : RegionWithLeader) (l : Peer)
    (resp : Response A) (e : ErrorPb)
    → region.leader ≡ some l
    → ((t : ℕ) → w.shards t plan ≡ ok (plan, region) ∷ [])
    → ((t : ℕ) (r : RegionWithLeader) → w.map_region_to_store t r ≡ ok tt)
    → ((rs : RegionStore) → w.apply_store rs plan ≡ ok plan)
    → ((t : ℕ) (rs : RegionStore) → w.execute t rs plan ≡ ok resp)
    → resp.key_errors ≡ none
    → resp.region_error ≡ some e
    → IsLost e
    → (fuel : ℕ) (preserve : Bool) (s : State) (b : Backoff) → s.routing.pending_backoffs ≡ []
    → ((execute w fuel preserve s plan b).1 ≡ Ends.pending)
      × ((execute w fuel preserve s plan b).0.slept ≡ s.slept)
unfolding execute
execute-spins w plan region l resp e led shards mapped applied answered clean lost h fuel preserve s
      b q =
    handler-Runs w plan region l resp e led shards mapped applied answered clean lost h fuel
      preserve s b 0 q
