-- ===== src/Routing/Select.antt =====
-- src/request/read_routing.rs: the choice of a peer. `now` is the clock in milliseconds, which the
-- tests for slow stores read.
pub mod Among
pub mod Laws
pub mod Scores
use rust_tikv_client.Prelude.{
  ℕ, Bool, true, false, not, ◌&&◌, ◌||◌, ◌==◌, ltb, compare, Option, none, some, List, [], ◌∷◌,
  ◌++◌, if◌then◌else◌,
}
use Prim.Native.Nat.Ordering.{lt, eq, gt}
use rust_tikv_client.Order.{nat_ord}
use rust_tikv_client.OrdMap
use rust_tikv_client.Region.{Peer, RegionWithLeader, region_id}
use rust_tikv_client.Health.{is_slow}
use rust_tikv_client.Routing.{
  ReplicaReadType, ReadRouting, ReadPeer, ScoreStrategy, default_strategy, prefer_leader_strategy,
  pick_peer, peer_or, is_empty_list, is_learner, calculate_score,
}

-- The loop that sorts the peers that may serve besides the leader.
abbrev pub sort_peer : Bool → Bool → Peer → List Peer × List Peer → List Peer × List Peer
sort_peer true learns p rest = rest
sort_peer false true p (followers, learners) = (followers, p ∷ learners)
sort_peer false false p (followers, learners) = (p ∷ followers, learners)

unfoldable pub replicas_of : Peer → List Peer → List Peer × List Peer
replicas_of l [] = ([], [])
replicas_of l (p ∷ ps) =
    sort_peer (p.is_witness || p.store_id == l.store_id) (is_learner p.role) p (replicas_of l ps)

-- `max_score`, of which `none` is the -1 at the start, and `max_peers`.
abbrev pub better : Peer → ℕ → Option ℕ × List Peer → Option ℕ × List Peer
better p score (none, best) = (some score, p ∷ [])
better p score (some most, best) = elim (compare score most) [
  | gt ↦ (some score, p ∷ [])
  | eq ↦ (some most, best ++ p ∷ [])
  | lt ↦ (some most, best)
]

unfoldable pub best_peers : (Peer → ℕ) → List Peer → Option ℕ × List Peer → Option ℕ × List Peer
best_peers score [] best = best
best_peers score (p ∷ ps) best =
    best_peers score ps (if p.is_witness then best else better p (score p) best)

abbrev pub score_of : ℕ → ReadRouting → Peer → ScoreStrategy → Peer → ℕ
score_of now r l st p =
    calculate_score now p (p.store_id == l.store_id) r.store_health r.store_match st

unfoldable pub select_peer_by_score :
    ℕ → ReadRouting → ℕ → ℕ → Peer → List Peer → ScoreStrategy → Peer
unfolding best_peers calculate_score pick_peer
select_peer_by_score now r region attempt l peers st =
    peer_or (pick_peer (best_peers (score_of now r l st) peers (none, [])).1 region r.seed attempt)
      l

unfoldable pub find_peer : ℕ → List Peer → Option Peer
find_peer store [] = none
find_peer store (p ∷ ps) =
    if not p.is_witness && p.store_id == store then some p else find_peer store ps

-- The peer pinned by an earlier attempt, if the region still has it.
abbrev pub pinned_peer : ReadRouting → RegionWithLeader → Option ℕ → Option Peer
pinned_peer r region none = none
pinned_peer r region (some store) = find_peer store region.region.peers

module _ (now : ℕ) (r : ReadRouting) (region : RegionWithLeader) (attempt : ℕ) (l : Peer) where
  abbrev pub by_seed : List Peer → Peer
  by_seed peers = peer_or (pick_peer peers (region_id region) r.seed attempt) l

  abbrev pub by_score : List Peer → ScoreStrategy → Peer
  by_score peers st = select_peer_by_score now r (region_id region) attempt l peers st

  abbrev pub stale_target : List Peer × List Peer → Peer
  stale_target (followers, learners) = if attempt == 0 then by_seed (followers ++ learners) else l

  -- A slow leader is left out when there are replicas.
  abbrev pub preferring_leader : List Peer × List Peer → Peer
  preferring_leader (followers, learners) =
      if is_slow r.store_health l.store_id now
        && (not (is_empty_list followers) || not (is_empty_list learners))
      then by_score (followers ++ learners) prefer_leader_strategy
      else by_score region.region.peers prefer_leader_strategy

  abbrev pub first_target : ReplicaReadType → List Peer × List Peer → Peer
  first_target ReplicaReadType.leader rs = l
  first_target ReplicaReadType.prefer_leader rs = preferring_leader rs
  first_target ReplicaReadType.follower (followers, learners) = by_seed followers
  first_target ReplicaReadType.learner (followers, learners) = by_seed learners
  first_target ReplicaReadType.mixed rs = by_score region.region.peers default_strategy

  abbrev pub retry_target : ReplicaReadType → Peer
  retry_target ReplicaReadType.prefer_leader = by_score region.region.peers default_strategy
  retry_target _ = l

  abbrev pub reads_from : Peer → ReadPeer
  reads_from p = record {
    target_peer = p;
    replica_read = not (p.store_id == l.store_id);
    stale_read = false;
  }

  abbrev pub choose_target : ReadPeer
  choose_target =
      if r.stale_read
      then record {
        target_peer = stale_target (replicas_of l region.region.peers);
        replica_read = false;
        stale_read = true;
      }
      else if attempt == 0
      then reads_from (first_target r.replica_read (replicas_of l region.region.peers))
      else reads_from (retry_target r.replica_read)

  abbrev pub reads_pinned : Peer → ReadPeer
  reads_pinned p = record {
    target_peer = p;
    replica_read = not r.stale_read && not (p.store_id == l.store_id);
    stale_read = r.stale_read;
  }

  abbrev pub pinned_or : Option Peer → ReadPeer
  pinned_or none = choose_target
  pinned_or (some p) = reads_pinned p

  abbrev pub read_leader : ReadPeer
  read_leader = record { target_peer = l; replica_read = false; stale_read = false }

  unfoldable pub select_with_leader : Bool → ReadPeer
  unfolding replicas_of select_peer_by_score pick_peer find_peer is_slow
  select_with_leader respect_overrides =
      if respect_overrides && r.forced_leader
      then read_leader
      else if respect_overrides && ltb 0 attempt
      then pinned_or (pinned_peer r region (OrdMap.get (region_id region) r.pinned_stores))
      else choose_target

-- `none` is the error `LeaderNotFound`.
abbrev pub with_leader :
    ℕ → ReadRouting → RegionWithLeader → ℕ → Bool → Option Peer → Option ReadPeer
with_leader now r region attempt respect none = none
with_leader now r region attempt respect (some l) =
    some (select_with_leader now r region attempt l respect)

unfoldable pub select_peer_inner : ℕ → ReadRouting → RegionWithLeader → ℕ → Bool → Option ReadPeer
unfolding select_with_leader
select_peer_inner now r region attempt respect =
    with_leader now r region attempt respect region.leader

unfoldable pub select_peer : ℕ → ReadRouting → RegionWithLeader → ℕ → Option ReadPeer
unfolding select_peer_inner
select_peer now r region attempt = select_peer_inner now r region attempt true

unfoldable pub select_peer_for_request_source : ℕ → ReadRouting → RegionWithLeader → Option ReadPeer
unfolding select_peer_inner
select_peer_for_request_source now r region = select_peer_inner now r region 0 false
