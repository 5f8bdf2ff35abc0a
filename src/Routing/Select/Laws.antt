-- ===== src/Routing/Select/Laws.antt =====
-- What the peer chosen for a read is.
use rust_tikv_client.Prelude.{
  ℕ, ◌≡◌, refl, sym, ap, subst, ◌⊎◌, inl, inr, true, false, not, ◌&&◌, ◌==◌, All, All-append,
  Option, none, some, Option-cases, List, [], ◌∷◌, ◌++◌, arith, ==_iff, ltb, if-elim,
}
use rust_tikv_client.Order.{nat_ord}
use rust_tikv_client.OrdMap
use rust_tikv_client.Region.{Peer, RegionWithLeader, region_id}
use rust_tikv_client.Routing.{
  ReplicaReadType, ReadRouting, ReadPeer, ScoreStrategy, is_stale_read, default_strategy,
  prefer_leader_strategy,
}
use rust_tikv_client.Routing.Select.{
  replicas_of, best_peers, score_of, select_peer_by_score, pinned_peer, choose_target, by_seed,
  by_score, stale_target, first_target, retry_target, pinned_or, select_with_leader, reads_from,
  read_leader, select_peer, select_peer_inner, with_leader,
}
use rust_tikv_client.Routing.Select.Among.{
  Among, Serves, pick_peer-All, replicas_of-All, best_peers-All, find_peer-All,
}

module _ (now : ℕ) (r : ReadRouting) (region : RegionWithLeader) (attempt : ℕ) (l : Peer) where
  -- A peer that serves, and flags that say what it serves.
  abbrev IsRead : ReadPeer → Type 0
  IsRead p =
      Serves l region.region.peers p.target_peer
      × (p.stale_read ≡ is_stale_read r)
      × (p.replica_read ≡ (not r.stale_read && not (p.target_peer.store_id == l.store_id)))

  abbrev Served : Peer → Type 0
  Served p = Serves l region.region.peers p

  by_seed-Serves : (xs : List Peer) → All Served xs → Served (by_seed now r region attempt l xs)
  by_seed-Serves xs a = pick_peer-All Served xs (region_id region) r.seed attempt l a (inl refl)

  by_score-Serves :
      (xs : List Peer) (st : ScoreStrategy)
      → ((q : Peer) → Among q xs → Served q)
      → Served (by_score now r region attempt l xs st)
  unfolding select_peer_by_score
  by_score-Serves xs st h =
      pick_peer-All Served (best_peers (score_of now r l st) xs (none, [])).1 (region_id region)
        r.seed attempt l (best_peers-All Served (score_of now r l st) xs (none, []) h tt) (inl refl)

  Served-Among : (xs : List Peer) → All Served xs → (q : Peer) → Among q xs → Served q
  Served-Among [] a q m = elim m [ ]
  Served-Among (x ∷ xs) a q m = elim m [
    | inl e ↦ subst Served (sym e.0) a.0
    | inr n ↦ Served-Among xs a.1 q n
  ]

  stale_target-Serves :
      (rs : List Peer × List Peer)
      → All Served rs.0 × All Served rs.1
      → Served (stale_target now r region attempt l rs)
  stale_target-Serves (fs, ls) a =
      if-elim Served (attempt == 0) (by_seed now r region attempt l (fs ++ ls)) l
        (λ _. by_seed-Serves (fs ++ ls) (All-append Served fs ls a.0 a.1)) (λ _. inl refl)

  first_target-Serves :
      (t : ReplicaReadType) (rs : List Peer × List Peer)
      → All Served rs.0 × All Served rs.1
      → Served (first_target now r region attempt l t rs)
  first_target-Serves ReplicaReadType.leader rs a = inl refl
  first_target-Serves ReplicaReadType.prefer_leader (fs, ls) a =
      if-elim Served _ (by_score now r region attempt l (fs ++ ls) prefer_leader_strategy)
        (by_score now r region attempt l region.region.peers prefer_leader_strategy)
        (λ _.
          by_score-Serves (fs ++ ls) prefer_leader_strategy
            (Served-Among (fs ++ ls) (All-append Served fs ls a.0 a.1)))
        (λ _. by_score-Serves region.region.peers prefer_leader_strategy (λ q m. inr m))
  first_target-Serves ReplicaReadType.follower (fs, ls) a = by_seed-Serves fs a.0
  first_target-Serves ReplicaReadType.learner (fs, ls) a = by_seed-Serves ls a.1
  first_target-Serves ReplicaReadType.mixed rs a =
      by_score-Serves region.region.peers default_strategy (λ q m. inr m)

  retry_target-Serves : (t : ReplicaReadType) → Served (retry_target now r region attempt l t)
  retry_target-Serves ReplicaReadType.prefer_leader =
      by_score-Serves region.region.peers default_strategy (λ q m. inr m)
  retry_target-Serves ReplicaReadType.leader = inl refl
  retry_target-Serves ReplicaReadType.follower = inl refl
  retry_target-Serves ReplicaReadType.learner = inl refl
  retry_target-Serves ReplicaReadType.mixed = inl refl

  sorted :
      All Served (replicas_of l region.region.peers).0
      × All Served (replicas_of l region.region.peers).1
  sorted = replicas_of-All Served l region.region.peers (λ q m. inr m)

  reads_from-IsRead :
      (p : Peer) → r.stale_read ≡ false → Served p → IsRead (reads_from now r region attempt l p)
  reads_from-IsRead p s h = (h, ground (arith, s), ground (arith, s))

  stale-IsRead :
      (p : Peer)
      → r.stale_read ≡ true
      → r.forced_leader ≡ false
      → Served p
      → IsRead (record { target_peer = p; replica_read = false; stale_read = true })
  stale-IsRead p s f h = (h, ground (arith, s, f), ground (arith, s))

  choose_target-IsRead : r.forced_leader ≡ false → IsRead (choose_target now r region attempt l)
  choose_target-IsRead f =
      let rs = replicas_of l region.region.peers in
      if-elim IsRead r.stale_read _ _
        (λ s.
          stale-IsRead (stale_target now r region attempt l rs) s f (stale_target-Serves rs sorted))
        (λ s.
          if-elim IsRead (attempt == 0) _ _
            (λ _.
              reads_from-IsRead (first_target now r region attempt l r.replica_read rs) s
                (first_target-Serves r.replica_read rs sorted))
            (λ _.
              reads_from-IsRead (retry_target now r region attempt l r.replica_read) s
                (retry_target-Serves r.replica_read)))

  pinned_or-IsRead :
      (o : Option Peer)
      → ((p : Peer) → o ≡ some p → Served p)
      → r.forced_leader ≡ false
      → IsRead (pinned_or now r region attempt l o)
  pinned_or-IsRead none h f = choose_target-IsRead f
  pinned_or-IsRead (some p) h f = (h p refl, ground (arith, f), refl)

  pinned_peer-Serves : (o : Option ℕ) (p : Peer) → pinned_peer r region o ≡ some p → Served p
  pinned_peer-Serves none p e = cc
  pinned_peer-Serves (some store) p e =
      find_peer-All Served store region.region.peers (λ q m. inr m) e

  read_leader-IsRead : r.forced_leader ≡ true → IsRead (read_leader now r region attempt l)
  read_leader-IsRead f = (inl refl, ground (arith, f), ground (arith, ==_iff l.store_id l.store_id))

  select_with_leader-IsRead : IsRead (select_with_leader now r region attempt l true)
  unfolding select_with_leader
  select_with_leader-IsRead = if-elim IsRead r.forced_leader _ _ read_leader-IsRead (λ f.
      if-elim IsRead (ltb 0 attempt) _ _
        (λ _.
          pinned_or-IsRead _ (pinned_peer-Serves (OrdMap.get (region_id region) r.pinned_stores)) f)
        (λ _. choose_target-IsRead f))

-- A peer is chosen exactly when the region has a leader. It is that leader or a peer of the region
-- that is no witness; the read is a stale one exactly when stale reads are asked for and the leader
-- is not forced, and a replica read exactly when stale reads are not asked for and the peer is on
-- another store than the leader.
pub select_peer-IsRead :
    (now : ℕ) (r : ReadRouting) (region : RegionWithLeader) (attempt : ℕ)
    → ((region.leader ≡ none) × (select_peer now r region attempt ≡ none))
      ⊎ ((l : Peer) × (p : ReadPeer) × (region.leader ≡ some l)
          × (select_peer now r region attempt ≡ some p)
          × Serves l region.region.peers p.target_peer
          × (p.stale_read ≡ is_stale_read r)
          × (p.replica_read ≡ (not r.stale_read && not (p.target_peer.store_id == l.store_id))))
unfolding select_peer select_peer_inner
select_peer-IsRead now r region attempt = elim (Option-cases region.leader) [
  | inl e ↦ inl (e, ap (with_leader now r region attempt true) e)
  | inr (l, e) ↦
      let h = select_with_leader-IsRead now r region attempt l in
      inr (
        l,
        select_with_leader now r region attempt l true,
        e,
        ap (with_leader now r region attempt true) e,
        h.0,
        h.1,
        h.2,
      )
]
