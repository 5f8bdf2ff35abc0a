-- ===== src/Routing/Tests.antt =====
-- Runs of the choice of peers, and witnesses of its theorems.
use rust_tikv_client.Prelude.{
  ℕ, ◌≡◌, ◌≢◌, ◌⊎◌, inl, inr, refl, true, false, not, ◌&&◌, ◌==◌, none, some, [], ◌∷◌, arith,
}
use rust_tikv_client.Order.{nat_ord}
use rust_tikv_client.OrdMap.{get, insert}
use rust_tikv_client.Region.{Peer, PeerRole, RegionWithLeader}
use rust_tikv_client.Health.{is_slow, mark_slow_for}
use rust_tikv_client.Routing.{
  ReplicaReadType, ReadRouting, ReadPeer, is_stale_read, pick_peer, calculate_score,
  mark_store_slow_for,
}
use rust_tikv_client.Routing.Select.{
  select_peer, select_peer_inner, select_with_leader, select_peer_by_score, best_peers, replicas_of,
}
use rust_tikv_client.Routing.Select.Among.{Serves}
use rust_tikv_client.Routing.Select.Laws.{select_peer-IsRead}
use rust_tikv_client.Routing.Select.Scores.{select_peer-mixed}

abbrev peer_on : ℕ → Peer
peer_on store = record { id = store; store_id = store; role = PeerRole.voter; is_witness = false }

abbrev three_peers : RegionWithLeader
three_peers = record {
  region = record {
    id = 7;
    start_key = [];
    end_key = [];
    region_epoch = none;
    peers = peer_on 1 ∷ peer_on 2 ∷ record (peer_on 3) { is_witness = true } ∷ [];
  };
  leader = some (peer_on 1);
}

abbrev routing_of : ReplicaReadType → ReadRouting
routing_of t = record {
  replica_read = t;
  stale_read = false;
  seed = 0;
  forced_leader = false;
  store_match = [];
  store_health = [];
  pinned_stores = [];
  pending_backoffs = [];
}

follower_read :
    select_peer 0 (routing_of ReplicaReadType.follower) three_peers 0
    ≡ some (record { target_peer = peer_on 2; replica_read = true; stale_read = false })
unfolding select_peer select_peer_inner select_with_leader replicas_of pick_peer is_slow
follower_read = refl

-- A healthy leader is preferred.
preferred_leader :
    select_peer 0 (routing_of ReplicaReadType.prefer_leader) three_peers 0
    ≡ some (record { target_peer = peer_on 1; replica_read = false; stale_read = false })
unfolding select_peer select_peer_inner select_with_leader select_peer_by_score best_peers
    calculate_score pick_peer is_slow get replicas_of
preferred_leader = refl

-- A slow one is not.
slow_leader :
    select_peer 1000
      (mark_store_slow_for 900 1 500 (routing_of ReplicaReadType.prefer_leader))
      three_peers
      0
    ≡ some (record { target_peer = peer_on 2; replica_read = true; stale_read = false })
unfolding select_peer select_peer_inner select_with_leader select_peer_by_score best_peers
    calculate_score pick_peer is_slow get insert replicas_of mark_store_slow_for mark_slow_for
slow_leader = refl

select_peer-IsRead_example :
    ((three_peers.leader ≡ none)
      × (select_peer 0 (routing_of ReplicaReadType.follower) three_peers 0 ≡ none))
    ⊎ ((l : Peer) × (p : ReadPeer) × (three_peers.leader ≡ some l)
        × (select_peer 0 (routing_of ReplicaReadType.follower) three_peers 0 ≡ some p)
        × Serves l three_peers.region.peers p.target_peer
        × (p.stale_read ≡ is_stale_read (routing_of ReplicaReadType.follower))
        × (p.replica_read ≡ (not false && not (p.target_peer.store_id == l.store_id))))
select_peer-IsRead_example =
    select_peer-IsRead 0 (routing_of ReplicaReadType.follower) three_peers 0

second_store : (peer_on 2).store_id ≢ (peer_on 1).store_id
second_store e = omega arith

never_slow : is_slow [] 2 0 ≡ false
unfolding is_slow get
never_slow = refl

select_peer-mixed_example :
    (p : ReadPeer) × (select_peer 0 (routing_of ReplicaReadType.mixed) three_peers 0 ≡ some p)
    × (p.target_peer.store_id ≢ 1)
    × (p.replica_read ≡ true)
select_peer-mixed_example =
    select_peer-mixed 0 (routing_of ReplicaReadType.mixed) three_peers (peer_on 1) (peer_on 2) refl
      refl refl refl refl (inr (inl (refl, refl))) second_store never_slow
