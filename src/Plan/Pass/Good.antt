-- ===== src/Plan/Pass/Good.antt =====
-- A whole pass of a shard, when the servers recover.
use rust_tikv_client.Prelude.{ℕ, ◌+◌, ◌≢◌, refl, sym, subst, inl, inr, Option, none, some, []}
use rust_tikv_client.Order.{nat_ord}
use rust_tikv_client.OrdMap
use rust_tikv_client.Backoff.{Backoff}
use rust_tikv_client.Region.{RegionWithLeader, get_store_id}
use rust_tikv_client.Routing.{take_pending_backoff_for_retry}
use rust_tikv_client.Routing.Select.Laws.{select_peer-IsRead}
use rust_tikv_client.Plan.{World, State, RegionStore, Answer, ok, err}
use rust_tikv_client.Plan.Pass.{
  send, owed, pay, on_applied, on_store, region_store, on_peer, single_shard_pass,
}
use rust_tikv_client.Plan.Pass.Recovers.{IsOk, IsCalm, IsReady, Recovers, Good, on_answer-Well}

module _ {P A : Type 0} (w : World P A) (n : ℕ) where
  module _ (mapped : (t : ℕ) (r : RegionWithLeader) → IsOk (w.map_region_to_store t r))
      (applied : (rs : RegionStore) (plan : P) → IsOk (w.apply_store rs plan))
      (answered : (t : ℕ) (rs : RegionStore) (plan : P)
        → Recovers n rs.attempt (w.execute t rs plan)) where
    send-Good :
        (s : State) (plan : P) (b : Backoff) (rs : RegionStore)
        → IsReady n b rs.attempt
        → IsCalm s.routing
        → Good n rs.attempt (send w s plan b rs)
    send-Good s plan b rs r c =
        on_answer-Well w n plan b rs r (record s { ticks = s.ticks + 1 })
          (w.execute s.ticks rs plan) c (answered s.ticks rs plan)

    pay-Good :
        (s : State) (plan : P) (b : Backoff) (rs : RegionStore) (o : Option ℕ)
        → IsReady n b rs.attempt
        → IsCalm s.routing
        → Good n rs.attempt (pay w s plan b rs o)
    unfolding take_pending_backoff_for_retry OrdMap.get OrdMap.remove
    pay-Good s plan b rs none r c = send-Good s plan b rs r c
    pay-Good s plan b rs (some store) r c =
        subst
          (λ m. Good n rs.attempt (
            owed w s plan b rs
              (record s.routing { pending_backoffs = OrdMap.remove store m }, OrdMap.get store m)))
          (sym c.paid)
          (send-Good (record s { routing = record s.routing { pending_backoffs = [] } }) plan b rs r
            (record { at_leader = c.at_leader; paid = refl }))

    on_applied-Good :
        (s : State) (plan : P) (b : Backoff) (rs : RegionStore) (a : Answer P)
        → IsReady n b rs.attempt
        → IsCalm s.routing
        → IsOk a
        → Good n rs.attempt (on_applied w s plan b rs a)
    on_applied-Good s plan b rs (ok plan') r c i =
        pay-Good s plan' b rs (get_store_id rs.region_with_leader) r c
    on_applied-Good s plan b rs (err e) r c i = absurd i

    on_store-Good :
        (s : State) (plan : P) (b : Backoff) (rs : RegionStore) (a : Answer (Unit {0}))
        → IsReady n b rs.attempt
        → IsCalm s.routing
        → IsOk a
        → Good n rs.attempt (on_store w s plan b rs a)
    on_store-Good s plan b rs (ok u) r c i =
        on_applied-Good s plan b rs (w.apply_store rs plan) r c (applied rs plan)
    on_store-Good s plan b rs (err e) r c i = absurd i

    pub single_shard_pass-Good :
        (s : State) (plan : P) (region : RegionWithLeader) (b : Backoff) (attempt : ℕ)
        → IsReady n b attempt
        → IsCalm s.routing
        → region.leader ≢ none
        → Good n attempt (single_shard_pass w s plan region b attempt)
    unfolding single_shard_pass
    single_shard_pass-Good s plan region b attempt r c led =
        elim (select_peer-IsRead (w.now_ms s.ticks) s.routing region attempt) [
          | inl leaderless ↦ absurd (led leaderless.0)
          | inr (l, p, led', chosen, serves, stale, replica) ↦
              let rs = region_store w region p attempt in
              subst (λ o. Good n attempt (on_peer w s plan region b attempt o)) (sym chosen)
                (on_store-Good s plan b rs (w.map_region_to_store s.ticks rs.region_with_leader) r c
                  (mapped s.ticks rs.region_with_leader))
        ]
