-- ===== src/Routing.antt =====
-- src/request/read_routing.rs, src/request/pending_backoff.rs and src/replica_read.rs: which peer of
-- a region serves a read. The flags, maps and counters behind locks are fields of the state; the
-- source of a request, a text that is passed on, is left out. Scores are the code's i64, which are
-- never negative but for the bound -1 that the search starts from.
pub mod Select
mod Tests
use rust_tikv_client.Prelude.{
  ℕ, ◌+◌, ◌%◌, ◌^◌, Bool, true, false, not, ◌&&◌, ◌||◌, ◌==◌, ltb, length, get_elem?, compare,
  Ordering, Option, none, some, List, [], ◌∷◌, ◌++◌, if◌then◌else◌,
}
use Prim.Native.Nat.Ordering.{lt, eq, gt}
use rust_tikv_client.Order.{nat_ord}
use rust_tikv_client.OrdMap
use rust_tikv_client.OrdMap.{OrdMap}
use rust_tikv_client.Region.{Peer, PeerRole, RegionWithLeader, region_id}
use rust_tikv_client.Health.{StoreHealthMap, is_slow, mark_slow_for}

pub data ReplicaReadType : Type 0 where
  leader follower mixed learner prefer_leader : ReplicaReadType

abbrev pub is_follower_read : ReplicaReadType → Bool
is_follower_read ReplicaReadType.leader = false
is_follower_read _ = true

-- `PendingBackoff`: of the kinds only `TikvServerBusy` is in a build that is not a test. The error
-- that is kept is only printed.
pub record ReadRouting : Type 0 where
  pub replica_read : ReplicaReadType
  pub stale_read : Bool
  pub seed : ℕ
  pub forced_leader : Bool
  pub store_match : List ℕ
  pub store_health : StoreHealthMap
  pub pinned_stores : OrdMap ℕ ℕ
  pub pending_backoffs : OrdMap ℕ (Unit {0})

pub record ReadPeer : Type 0 where
  pub target_peer : Peer
  pub replica_read : Bool
  pub stale_read : Bool

pub record ScoreStrategy : Type 0 where
  pub try_leader : Bool
  pub prefer_leader : Bool
  pub learner_only : Bool

abbrev pub default_strategy : ScoreStrategy
default_strategy = record { try_leader = false; prefer_leader = false; learner_only = false }

abbrev pub prefer_leader_strategy : ScoreStrategy
prefer_leader_strategy = record default_strategy { prefer_leader = true }

unfoldable pub add_pending_backoff : Option ℕ → ReadRouting → ReadRouting
add_pending_backoff store r = record r {
  pending_backoffs = OrdMap.insert (elim store [ none ↦ 0 | some s ↦ s ]) tt r.pending_backoffs;
}

-- What is taken, and the routing after it.
unfoldable pub take_pending_backoff_for_retry :
    Option ℕ → ReadRouting → ReadRouting × Option (Unit {0})
take_pending_backoff_for_retry store r =
    let k = elim store as (λ _. ℕ) [ none ↦ 0 | some s ↦ s ] in
    (
      record r { pending_backoffs = OrdMap.remove k r.pending_backoffs },
      OrdMap.get k r.pending_backoffs,
    )

unfoldable pub mark_store_slow_for : ℕ → ℕ → ℕ → ReadRouting → ReadRouting
unfolding mark_slow_for
mark_store_slow_for now store duration r = record r {
  store_health = mark_slow_for now store duration r.store_health;
}

unfoldable pub pin_store_for_region : ℕ → ℕ → ReadRouting → ReadRouting
pin_store_for_region region store r = record r {
  pinned_stores = OrdMap.insert region store r.pinned_stores;
}

unfoldable pub clear_pinned_store_for_region : ℕ → ReadRouting → ReadRouting
clear_pinned_store_for_region region r = record r {
  pinned_stores = OrdMap.remove region r.pinned_stores;
}

abbrev pub is_replica_read_mode : ReadRouting → Bool
is_replica_read_mode r = is_follower_read r.replica_read || r.stale_read

abbrev pub is_stale_read : ReadRouting → Bool
is_stale_read r = r.stale_read && not r.forced_leader

abbrev pub force_leader : ReadRouting → ReadRouting
force_leader r = record r { forced_leader = true }

-- `index % len` on u32s; a list has less than 2^32 peers.
unfoldable pub pick_peer : List Peer → ℕ → ℕ → ℕ → Option Peer
pick_peer peers region seed attempt =
    if length peers == 0
    then none
    else get_elem? peers ((region + seed + attempt) % 2 ^ 32 % length peers)

abbrev pub peer_or : Option Peer → Peer → Peer
peer_or none p = p
peer_or (some q) p = q

abbrev pub contains_store : List ℕ → ℕ → Bool
contains_store [] s = false
contains_store (t ∷ ts) s = t == s || contains_store ts s

abbrev pub is_empty_list {ℓ} : {A : Type ℓ} → List A → Bool
is_empty_list [] = true
is_empty_list (x ∷ xs) = false

-- The flags of a score, each at its own bit, so that `|=` is an addition.
abbrev pub flag : Bool → ℕ → ℕ
flag true n = n
flag false n = 0

abbrev pub is_learner : PeerRole → Bool
is_learner PeerRole.learner = true
is_learner _ = false

abbrev pub leader_score : ScoreStrategy → Bool → Bool → ℕ
leader_score st slow matching =
    if st.prefer_leader
    then (if slow then 2 else 4)
    else if st.try_leader
    then (if matching then 4 else 2)
    else 0

abbrev pub replica_score : ScoreStrategy → PeerRole → ℕ
replica_score st role = if st.learner_only then flag (is_learner role) 2 else 2

unfoldable pub calculate_score : ℕ → Peer → Bool → StoreHealthMap → List ℕ → ScoreStrategy → ℕ
unfolding is_slow
calculate_score now peer is_leader health store_match st =
    let slow = is_slow health peer.store_id now in
    flag (is_empty_list store_match || contains_store store_match peer.store_id) 8
    + flag (not slow) 16
    + 1
    + (if is_leader
        then leader_score st slow (not (is_empty_list store_match))
        else replica_score st peer.role)
