-- ===== src/Plan/Locks/Laws.antt =====
-- What a plan that resolves locks returns, and what follows a stale read that has met locks.
use rust_tikv_client.Prelude.{
  ℕ, zero, suc, ◌+◌, ◌≡◌, refl, sym, ap, subst, ◌⊎◌, inl, inr, Bool, true, false, some, List, [],
  ◌∷◌, if◌then◌else◌, if-elim,
}
use rust_tikv_client.Backoff.{Backoff, Delay, waits, stopped, panicked, next_delay_duration}
use rust_tikv_client.Region.{RegionWithLeader, Peer}
use rust_tikv_client.Routing.{ReadRouting, is_stale_read, force_leader}
use rust_tikv_client.Routing.Select.{
  select_peer, select_peer_inner, select_with_leader, with_leader,
}
use rust_tikv_client.Plan.{Answer, ok, err}
use rust_tikv_client.Plan.Locks.{
  Locked, done, fails, unresolved, panics, pending, reroute_error, reroute_to_leader, after_delay,
  reroute, on_inner, ask_after, retry, on_resolved, meet_locks, on_locks, resolve_loop, execute,
  Ran, is_none,
}

module _ {L A : Type 0} (inner : ℕ → Answer (Locked L A))
    (resolve_locks : ℕ → List L → Answer (List L)) (blank : A) (gen : ℕ → ℕ → ℕ)
    (r : ReadRouting) where
  abbrev R : Type 0
  R = Ran inner resolve_locks blank gen

  abbrev Loop : Type 0
  Loop = ℕ → Locked L A → Backoff → R

  -- A response without locks. Either the routing is as before, and then a stale read has met none of
  -- the given locks, or it is the response that sends a stale read to the leader.
  abbrev Settles : List L → R → Type 0
  Settles locks (r', done x) =
      (x.locks ≡ [])
      × (((r' ≡ r) × (is_stale_read r ≡ true → locks ≡ []))
          ⊎ ((is_stale_read r ≡ true)
              × (r' ≡ force_leader r)
              × (x.region_error ≡ some reroute_error)))
  Settles locks (r', fails e) = Unit {0}
  Settles locks (r', unresolved left) = Unit {0}
  Settles locks (r', panics) = Unit {0}
  Settles locks (r', pending) = Unit {0}

  abbrev Loops : Loop → Type 0
  Loops loop = (t : ℕ) (x : Locked L A) (b : Backoff) → Settles x.locks (loop t x b)

  -- Which locks were met does not matter to a read that is not stale.
  not_stale-Settles :
      (locks others : List L) (x : R) → is_stale_read r ≡ false → Settles others x → Settles locks x
  not_stale-Settles locks others (r', done x) n h =
      (h.0, elim h.1 [ inl same ↦ inl (same.0, λ s. cc) | inr forced ↦ inr forced ])
  not_stale-Settles locks others (r', fails e) n h = tt
  not_stale-Settles locks others (r', unresolved left) n h = tt
  not_stale-Settles locks others (r', panics) n h = tt
  not_stale-Settles locks others (r', pending) n h = tt

  module _ (loop : Loop) (h : Loops loop) (locks : List L) where
    on_inner-Settles :
        (t : ℕ) (b : Backoff) (a : Answer (Locked L A))
        → is_stale_read r ≡ false
        → Settles locks (on_inner inner resolve_locks blank gen loop r t b a)
    on_inner-Settles t b (ok x) n = not_stale-Settles locks x.locks (loop t x b) n (h t x b)
    on_inner-Settles t b (err e) n = tt

    ask_after-Settles :
        (t : ℕ) (live : List L) (d : Backoff × Delay)
        → is_stale_read r ≡ false
        → Settles locks (ask_after inner resolve_locks blank gen loop r t live d)
    ask_after-Settles t live (b, waits d) n = on_inner-Settles (t + 1 + 1) b (inner (t + 1)) n
    ask_after-Settles t live (b, stopped) n = tt
    ask_after-Settles t live (b, panicked) n = tt

    retry-Settles :
        (t : ℕ) (b : Backoff) (live : List L)
        → is_stale_read r ≡ false
        → Settles locks (retry inner resolve_locks blank gen loop r t b live)
    retry-Settles t b [] n = on_inner-Settles (t + 1) b (inner t) n
    retry-Settles t b (l ∷ live) n =
        ask_after-Settles t (l ∷ live) (next_delay_duration (gen t) b) n

    delayed-Settles :
        (live : List L) (d : Backoff × Delay)
        → is_stale_read r ≡ true
        → Settles locks (
            after_delay inner resolve_locks blank gen
              (force_leader r)
              live
              (force_leader r, done (reroute_to_leader inner resolve_locks blank gen))
              d)
    unfolding reroute_to_leader
    delayed-Settles live (b, waits d) q = (refl, inr (q, refl, refl))
    delayed-Settles live (b, stopped) q = tt
    delayed-Settles live (b, panicked) q = tt

    reroute-Settles :
        (t : ℕ) (b : Backoff) (live : List L)
        → is_stale_read r ≡ true
        → Settles locks (reroute inner resolve_locks blank gen (force_leader r) t b live)
    unfolding reroute_to_leader
    reroute-Settles t b [] q = (refl, inr (q, refl, refl))
    reroute-Settles t b (l ∷ live) q = delayed-Settles (l ∷ live) (next_delay_duration (gen t) b) q

    on_resolved-Settles :
        (stale : Bool) (t : ℕ) (b : Backoff) (a : Answer (List L))
        → is_stale_read r ≡ stale
        → Settles locks (
            on_resolved inner resolve_locks blank gen loop stale
              (if stale then force_leader r else r)
              t
              b
              a)
    on_resolved-Settles true t b (ok live) q = reroute-Settles t b live q
    on_resolved-Settles true t b (err e) q = tt
    on_resolved-Settles false t b (ok live) q = retry-Settles t b live q
    on_resolved-Settles false t b (err e) q = tt

  on_locks-Settles :
      (loop : Loop) (t : ℕ) (x : Locked L A) (b : Backoff) (locks : List L)
      → x.locks ≡ []
      → Loops loop
      → Settles locks (on_locks inner resolve_locks blank gen loop r t x b locks)
  on_locks-Settles loop t x b [] q h = (q, inl (refl, λ s. refl))
  on_locks-Settles loop t x b (l ∷ locks) q h =
      if-elim (Settles (l ∷ locks)) (is_none b.kind) (r, unresolved (l ∷ locks))
        (meet_locks inner resolve_locks blank gen loop (is_stale_read r) r t b (l ∷ locks))
        (λ _. tt)
        (λ _.
          on_resolved-Settles loop h (l ∷ locks) (is_stale_read r) (t + 1) b
            (resolve_locks t (l ∷ locks)) refl)

  resolve_loop-Settles :
      (fuel t : ℕ) (x : Locked L A) (b : Backoff)
      → Settles x.locks (resolve_loop inner resolve_locks blank gen fuel r t x b)
  unfolding resolve_loop
  resolve_loop-Settles zero t x b = tt
  resolve_loop-Settles (suc fuel) t x b =
      on_locks-Settles (resolve_loop inner resolve_locks blank gen fuel r) t
        (record x { locks = [] }) b x.locks refl (resolve_loop-Settles fuel)

  -- `Settles` for the locks of the first response.
  abbrev First : R → Type 0
  First x = (y : Locked L A) × (inner 0 ≡ ok y) × Settles y.locks x

  abbrev IsDone : R → Type 0
  IsDone (r', done x) = Unit {0}
  IsDone (r', fails e) = ⊥
  IsDone (r', unresolved left) = ⊥
  IsDone (r', panics) = ⊥
  IsDone (r', pending) = ⊥

  on_inner-First :
      (fuel : ℕ) (b : Backoff) (a : Answer (Locked L A))
      → inner 0 ≡ a
      → let x =
          on_inner inner resolve_locks blank gen
            (resolve_loop inner resolve_locks blank gen fuel r)
            r
            1
            b
            a in
        IsDone x → First x
  on_inner-First fuel b (ok y) e d = (y, e, resolve_loop-Settles fuel 1 y b)
  on_inner-First fuel b (err x) e d = absurd d

  pub execute-First :
      (fuel : ℕ) (b : Backoff)
      → IsDone (execute inner resolve_locks blank gen fuel r b)
      → First (execute inner resolve_locks blank gen fuel r b)
  unfolding execute
  execute-First fuel b d = on_inner-First fuel b (inner 0) refl d

-- A read whose leader is forced goes to the leader, and is not stale.
forced_leader-select :
    (now : ℕ) (r : ReadRouting) (region : RegionWithLeader) (attempt : ℕ) (l : Peer)
    → region.leader ≡ some l
    → select_peer now (force_leader r) region attempt
      ≡ some (record { target_peer = l; replica_read = false; stale_read = false })
unfolding select_peer select_peer_inner select_with_leader
forced_leader-select now r region attempt l e =
    ap (with_leader now (force_leader r) region attempt true) e

-- The response of a plan that resolves locks holds no lock. Either the routing is as before, and
-- then a stale read has met no lock in its first response, or a stale read has met locks: then the
-- response asks for a retry, and from then on every read of a region with a leader goes to that
-- leader and is not stale.
pub execute-leads :
    {L A : Type 0} (inner : ℕ → Answer (Locked L A)) (resolve_locks : ℕ → List L → Answer (List L))
    (blank : A) (gen : ℕ → ℕ → ℕ) (r r' : ReadRouting) (fuel : ℕ) (b : Backoff) (x : Locked L A)
    → execute inner resolve_locks blank gen fuel r b ≡ (r', done x)
    → (x.locks ≡ [])
      × (((r' ≡ r)
            × (is_stale_read r ≡ true → (y : Locked L A) × (inner 0 ≡ ok y) × (y.locks ≡ [])))
          ⊎ ((is_stale_read r ≡ true)
              × (x.region_error ≡ some reroute_error)
              × ((now attempt : ℕ) (region : RegionWithLeader) (l : Peer)
                  → region.leader ≡ some l
                  → select_peer now r' region attempt
                    ≡ some (record { target_peer = l; replica_read = false; stale_read = false }))))
execute-leads inner resolve_locks blank gen r r' fuel b x e =
    let ended = subst (IsDone inner resolve_locks blank gen r) (sym e) tt in
    let first =
      subst (First inner resolve_locks blank gen r) e
        (execute-First inner resolve_locks blank gen r fuel b ended) in
    (
      first.2.0,
      elim first.2.1 [
        | inl same ↦ inl (same.0, λ s. (first.0, first.1, same.1 s))
        | inr (stale, forced, error) ↦ inr (
          stale,
          error,
          λ now attempt region l led.
              subst
                (λ q.
                  select_peer now q region attempt
                  ≡ some (record { target_peer = l; replica_read = false; stale_read = false }))
                (sym forced) (forced_leader-select now r region attempt l led),
        )
      ],
    )
