-- ===== src/Routing/Select/Among.antt =====
-- The peers that the choice is made from.
use rust_tikv_client.Prelude.{
  ℕ, zero, suc, ◌+◌, ◌%◌, ◌^◌, ◌≡◌, refl, subst, ◌⊎◌, inl, inr, Bool, true, false, not, ◌&&◌, ◌==◌,
  length, get_elem?, All, All-append, compare, Option, none, some, List, [], ◌∷◌, ◌++◌, arith,
  Bool-cases, if-elim, if◌then◌else◌,
}
use Prim.Native.Nat.Ordering.{lt, eq, gt}
use rust_tikv_client.Order.{nat_ord}
use rust_tikv_client.Region.{Peer}
use rust_tikv_client.Routing.{pick_peer, peer_or, is_learner}
use rust_tikv_client.Routing.Select.{sort_peer, replicas_of, better, best_peers, find_peer}

-- A peer of the region that is no witness.
abbrev pub Among : Peer → List Peer → Type 0
Among p [] = ⊥
Among p (q ∷ qs) = ((p ≡ q) × (q.is_witness ≡ false)) ⊎ Among p qs

-- The leader, or a peer of the region that is no witness.
abbrev pub Serves : Peer → List Peer → Peer → Type 0
Serves l peers p = (p ≡ l) ⊎ Among p peers

module _ (P : Peer → Type 0) where
  get_elem?-All :
      (xs : List Peer) (i : ℕ) (l : Peer) → All P xs → P l → P (peer_or (get_elem? xs i) l)
  get_elem?-All [] i l a h = h
  get_elem?-All (x ∷ xs) zero l a h = a.0
  get_elem?-All (x ∷ xs) (suc i) l a h = get_elem?-All xs i l a.1 h

  pub pick_peer-All :
      (xs : List Peer) (region seed attempt : ℕ) (l : Peer)
      → All P xs
      → P l
      → P (peer_or (pick_peer xs region seed attempt) l)
  unfolding pick_peer
  pick_peer-All xs region seed attempt l a h =
      let i = (region + seed + attempt) % 2 ^ 32 % length xs in
      if-elim (λ o. P (peer_or o l)) (length xs == 0) none (get_elem? xs i) (λ _. h)
        (λ _. get_elem?-All xs i l a h)

  sort_peer-All :
      (skip learns : Bool) (p : Peer) (rest : List Peer × List Peer)
      → (skip ≡ false → P p)
      → All P rest.0 × All P rest.1
      → All P (sort_peer skip learns p rest).0 × All P (sort_peer skip learns p rest).1
  sort_peer-All true learns p rest h a = a
  sort_peer-All false true p (fs, ls) h a = (a.0, (h refl, a.1))
  sort_peer-All false false p (fs, ls) h a = ((h refl, a.0), a.1)

  pub replicas_of-All :
      (l : Peer) (ps : List Peer)
      → ((q : Peer) → Among q ps → P q)
      → All P (replicas_of l ps).0 × All P (replicas_of l ps).1
  unfolding replicas_of
  replicas_of-All l [] h = (tt, tt)
  replicas_of-All l (p ∷ ps) h =
      sort_peer-All _ (is_learner p.role) p (replicas_of l ps)
        (λ e. h p (inl (refl, ground (arith, e)))) (replicas_of-All l ps (λ q m. h q (inr m)))

  better-All :
      (p : Peer) (n : ℕ) (o : Option ℕ) (b : List Peer)
      → P p
      → All P b
      → All P (better p n (o, b)).1
  better-All p n none b h a = (h, tt)
  better-All p n (some most) b h a =
      elim (compare n most)
        as (λ c.
          All P
            (elim c as (λ _. Option ℕ × List Peer) [
              | gt ↦ (some n, p ∷ [])
              | eq ↦ (some most, b ++ p ∷ [])
              | lt ↦ (some most, b)
            ]).1) [ gt ↦ (h, tt) | eq ↦ All-append P b (p ∷ []) a (h, tt) | lt ↦ a ]

  pub best_peers-All :
      (score : Peer → ℕ) (ps : List Peer) (best : Option ℕ × List Peer)
      → ((q : Peer) → Among q ps → P q)
      → All P best.1
      → All P (best_peers score ps best).1
  unfolding best_peers
  best_peers-All score [] best h a = a
  best_peers-All score (p ∷ ps) (o, b) h a =
      best_peers-All score ps (if p.is_witness then (o, b) else better p (score p) (o, b))
        (λ q m. h q (inr m))
        (if-elim (λ (x : Option ℕ × List Peer). All P x.1) p.is_witness (o, b)
          (better p (score p) (o, b)) (λ _. a)
          (λ e. better-All p (score p) o b (h p (inl (refl, e))) a))

  pub find_peer-All :
      (store : ℕ) (ps : List Peer) {p : Peer}
      → ((q : Peer) → Among q ps → P q)
      → find_peer store ps ≡ some p
      → P p
  unfolding find_peer
  find_peer-All store [] h e = cc
  find_peer-All store (q ∷ ps) h e = elim (Bool-cases (not q.is_witness && q.store_id == store)) [
    | inl found ↦ subst P (ground (arith, e, found)) (h q (inl (refl, ground (arith, found))))
    | inr other ↦ find_peer-All store ps (λ q m. h q (inr m)) (ground (arith, e, other))
  ]
