-- ===== src/Routing/Select/Scores.antt =====
-- Which of the peers the scores choose.
use rust_tikv_client.Prelude.{
  ℕ, zero, suc, ◌+◌, ◌%◌, ◌^◌, ◌≤◌, ◌<◌, ◌≡◌, ◌≢◌, refl, sym, ap, subst, ◌∙◌, inl, inr, true, false,
  ◌==◌, length, get_elem?, All, All-append, compare, Option, none, some, List, [], ◌∷◌, ◌++◌,
  length-append, Ordering, arith, if-elim, ==_iff,
}
use native.Mathlib.Nat.{mod-lt}
use Prim.Native.Nat.Ordering.{lt, eq, gt}
use rust_tikv_client.Order.{nat_ord}
use rust_tikv_client.Region.{Peer, RegionWithLeader, region_id}
use rust_tikv_client.Health.{is_slow}
use rust_tikv_client.Routing.{
  ReplicaReadType, ReadRouting, ReadPeer, ScoreStrategy, pick_peer, peer_or, calculate_score,
  default_strategy,
}
use rust_tikv_client.Routing.Select.{
  better, best_peers, score_of, select_peer_by_score, select_peer, select_peer_inner,
  select_with_leader, with_leader, reads_from,
}
use rust_tikv_client.Routing.Select.Among.{Among}

-- The candidates all have the best score so far, and there is one unless no peer was seen.
abbrev IsBest : (Peer → ℕ) → Option ℕ × List Peer → Type 0
IsBest score (none, best) = best ≡ []
IsBest score (some most, best) = (0 < length best) × All (λ q. score q ≡ most) best

abbrev Upto : ℕ → Option ℕ → Type 0
Upto n none = ⊥
Upto n (some m) = n ≤ m

-- The candidates after one more peer.
abbrev Improves : (Peer → ℕ) → Peer → Option ℕ → Option ℕ × List Peer → Type 0
Improves score p o next =
    IsBest score next × ((n : ℕ) → Upto n o → Upto n next.0) × Upto (score p) next.0

abbrev compared : Peer → ℕ → ℕ → List Peer → Ordering → Option ℕ × List Peer
compared p n most b gt = (some n, p ∷ [])
compared p n most b eq = (some most, b ++ p ∷ [])
compared p n most b lt = (some most, b)

compared-Improves :
    (score : Peer → ℕ) (p : Peer) (most : ℕ) (b : List Peer) (c : Ordering)
    → compare (score p) most ≡ c
    → IsBest score (some most, b)
    → Improves score p (some most) (compared p (score p) most b c)
compared-Improves score p most b gt e h =
    ((omega arith, (refl, tt)), (λ n u. ground (arith, e, u)), omega arith)
compared-Improves score p most b eq e h = (
  (
    omega (arith, length-append b (p ∷ [])),
    All-append (λ q. score q ≡ most) b (p ∷ []) h.1 (ground (arith, e), tt),
  ),
  (λ n u. u),
  ground (arith, e),
)
compared-Improves score p most b lt e h = (h, (λ n u. u), ground (arith, e))

better-Improves :
    (score : Peer → ℕ) (p : Peer) (o : Option ℕ) (b : List Peer)
    → IsBest score (o, b)
    → Improves score p o (better p (score p) (o, b))
better-Improves score p none b h = ((omega arith, (refl, tt)), (λ n u. elim u [ ]), omega arith)
better-Improves score p (some most) b h =
    subst (Improves score p (some most)) (ground arith)
      (compared-Improves score p most b (compare (score p) most) refl h)

best_peers-IsBest :
    (score : Peer → ℕ) (ps : List Peer) (best : Option ℕ × List Peer)
    → IsBest score best
    → IsBest score (best_peers score ps best)
      × ((n : ℕ) → Upto n best.0 → Upto n (best_peers score ps best).0)
      × ((q : Peer) → Among q ps → Upto (score q) (best_peers score ps best).0)
unfolding best_peers
best_peers-IsBest score [] best h = (h, (λ n u. u), λ q m. elim m [ ])
best_peers-IsBest score (p ∷ ps) (o, b) h =
    if-elim
      (λ (x : Option ℕ × List Peer).
        IsBest score (best_peers score ps x)
        × ((n : ℕ) → Upto n o → Upto n (best_peers score ps x).0)
        × ((q : Peer) → Among q (p ∷ ps) → Upto (score q) (best_peers score ps x).0))
      p.is_witness (o, b) (better p (score p) (o, b))
      (λ w.
        let ih = best_peers-IsBest score ps (o, b) h in
        (ih.0, ih.1, λ q m. elim m [ inl e ↦ cc | inr n ↦ ih.2 q n ]))
      (λ w.
        let st = better-Improves score p o b h in
        let ih = best_peers-IsBest score ps (better p (score p) (o, b)) st.0 in
        (
          ih.0,
          (λ n u. ih.1 n (st.1 n u)),
          λ q m. elim m [
            | inl e ↦
                subst (λ x. Upto (score x) (best_peers score ps (better p (score p) (o, b))).0)
                  (sym e.0) (ih.1 (score p) st.2)
            | inr n ↦ ih.2 q n
          ],
        ))

get_elem?-All :
    (P : Peer → Type 0) (xs : List Peer) (i : ℕ) (l : Peer)
    → i < length xs
    → All P xs
    → P (peer_or (get_elem? xs i) l)
get_elem?-All P [] i l h a = absurd (omega arith)
get_elem?-All P (x ∷ xs) zero l h a = a.0
get_elem?-All P (x ∷ xs) (suc i) l h a = get_elem?-All P xs i l (omega arith) a.1

-- What is picked from the candidates has the best score.
picked :
    (score : Peer → ℕ) (o : Option ℕ) (b : List Peer) (region seed attempt : ℕ) (l : Peer) (n : ℕ)
    → IsBest score (o, b)
    → Upto n o
    → n ≤ score (peer_or (pick_peer b region seed attempt) l)
unfolding pick_peer
picked score none b region seed attempt l n h u = elim u [ ]
picked score (some most) b region seed attempt l n h u =
    let i = (region + seed + attempt) % 2 ^ 32 % length b in
    if-elim (λ o. n ≤ score (peer_or o l)) (length b == 0) none (get_elem? b i)
      (λ e. absurd (ground (arith, e, h.0)))
      (λ _.
        let same =
          get_elem?-All (λ q. score q ≡ most) b i l
            (mod-lt ((region + seed + attempt) % 2 ^ 32) h.0) h.1 in
        omega (arith, same))

-- No peer that may serve has a higher score than the one chosen by scores.
pub select_peer_by_score-max :
    (now : ℕ) (r : ReadRouting) (region attempt : ℕ) (l : Peer) (peers : List Peer)
    (st : ScoreStrategy) (q : Peer)
    → Among q peers
    → score_of now r l st q
      ≤ score_of now r l st (select_peer_by_score now r region attempt l peers st)
unfolding select_peer_by_score
select_peer_by_score-max now r region attempt l peers st q m =
    let score = score_of now r l st in
    let best = best_peers score peers (none, []) in
    let facts = best_peers-IsBest score peers (none, []) refl in
    picked score best.0 best.1 region r.seed attempt l (score q) facts.0 (facts.2 q m)

score-leader :
    (now : ℕ) (r : ReadRouting) (l p : Peer)
    → p.store_id ≡ l.store_id
    → score_of now r l default_strategy p ≤ 25
unfolding calculate_score
score-leader now r l p e = ground (arith, ==_iff p.store_id l.store_id)

score-replica :
    (now : ℕ) (r : ReadRouting) (l q : Peer)
    → q.store_id ≢ l.store_id
    → r.store_match ≡ []
    → is_slow r.store_health q.store_id now ≡ false
    → score_of now r l default_strategy q ≡ 27
unfolding calculate_score
score-replica now r l q n m s = rw (m, s) (ground (arith, ==_iff q.store_id l.store_id, n))

mixed_target :
    (now : ℕ) (r : ReadRouting) (region : RegionWithLeader) (l : Peer)
    → r.replica_read ≡ ReplicaReadType.mixed
    → r.stale_read ≡ false
    → r.forced_leader ≡ false
    → select_with_leader now r region 0 l true
      ≡ reads_from now r region 0 l
          (select_peer_by_score now r (region_id region) 0 l region.region.peers default_strategy)
unfolding select_with_leader
mixed_target now r region l t s f = ground (arith, t, s, f)

-- The first attempt of a Mixed read never goes to the leader while a peer on another store may serve
-- and is not slow, unless the stores are matched by labels, the read is stale or the leader is forced.
pub select_peer-mixed :
    (now : ℕ) (r : ReadRouting) (region : RegionWithLeader) (l q : Peer)
    → region.leader ≡ some l
    → r.replica_read ≡ ReplicaReadType.mixed
    → r.stale_read ≡ false
    → r.forced_leader ≡ false
    → r.store_match ≡ []
    → Among q region.region.peers
    → q.store_id ≢ l.store_id
    → is_slow r.store_health q.store_id now ≡ false
    → (p : ReadPeer) × (select_peer now r region 0 ≡ some p)
      × (p.target_peer.store_id ≢ l.store_id)
      × (p.replica_read ≡ true)
unfolding select_peer select_peer_inner
select_peer-mixed now r region l q e t s f m among n slow =
    let target =
      select_peer_by_score now r (region_id region) 0 l region.region.peers default_strategy in
    let most =
      select_peer_by_score-max now r (region_id region) 0 l region.region.peers default_strategy q
        among in
    let other : target.store_id ≢ l.store_id = λ same.
      absurd
        (omega (arith, most, score-leader now r l target same, score-replica now r l q n m slow)) in
    (
      reads_from now r region 0 l target,
      ap (with_leader now r region 0 true) e ∙ ap some (mixed_target now r region l t s f),
      other,
      ground (arith, ==_iff target.store_id l.store_id, other),
    )
