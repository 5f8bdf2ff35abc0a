-- ===== src/Plan/Retry/Succeeds.antt =====
-- A plan succeeds when the servers recover while the backoff lasts.
use rust_tikv_client.Prelude.{
  ℕ, zero, suc, ◌+◌, ◌-◌, ◌≤◌, ◌<◌, ◌≡◌, ◌≢◌, refl, Bool, false, All, All-append, length,
  length-append, ap, subst, none, List, [], ◌∷◌, arith,
}
use rust_tikv_client.Backoff.{Backoff, BackoffKind}
use rust_tikv_client.Region.{RegionWithLeader}
use rust_tikv_client.Routing.{is_replica_read_mode}
use rust_tikv_client.Plan.{World, State, RegionStore, Response, Answer, ok, err, Ends, returns}
use rust_tikv_client.Plan.Pass.{done, again, panic, Passed, single_shard_pass}
use rust_tikv_client.Plan.Retry.{
  Results, Ran, all_shards, follow_pass, prepend, add_results, run_shards, run_all,
  single_plan_handler, execute,
}
use rust_tikv_client.Plan.Pass.Recovers.{IsOk, IsCalm, IsReady, Recovers, Good}
use rust_tikv_client.Plan.Pass.Good.{single_shard_pass-Good}

-- A shard whose region has a leader.
abbrev pub IsLed {ℓ} : {X : Type ℓ} → Answer (X × RegionWithLeader) → Type 0
IsLed (ok (x, r)) = r.leader ≢ none
IsLed (err e) = ⊥

abbrev HasLeader {ℓ} : {X : Type ℓ} → X × RegionWithLeader → Type 0
HasLeader (x, r) = r.leader ≢ none

-- The plan has returned at least k responses and no error, and the routing is as calm as before.
abbrev Succeeds : {A : Type 0} → ℕ → State × Ends (List (Answer (Response A))) → Type 0
Succeeds k (s, returns (ok rs)) = IsCalm s.routing × All IsOk rs × (k ≤ length rs)
Succeeds k (s, returns (err e)) = ⊥
Succeeds k (s, Ends.panics) = ⊥
Succeeds k (s, Ends.pending) = ⊥

module _ {P A : Type 0} (w : World P A) where
  prepend-Succeeds :
      (k j : ℕ) (rs : Results w) (r : Ran w)
      → All IsOk rs
      → k ≤ length rs
      → Succeeds j r
      → Succeeds (k + j) (prepend w rs r)
  prepend-Succeeds k j rs (s, returns (ok more)) a l h =
      (h.0, All-append IsOk rs more a h.1, omega (arith, length-append rs more, h.2))
  prepend-Succeeds k j rs (s, returns (err e)) a l h = h
  prepend-Succeeds k j rs (s, Ends.panics) a l h = h
  prepend-Succeeds k j rs (s, Ends.pending) a l h = h

  add_results-Succeeds :
      (k j : ℕ) (preserve : Bool) (r : Ran w) (rest : State → Ran w)
      → Succeeds k r
      → ((s : State) → IsCalm s.routing → Succeeds j (rest s))
      → Succeeds (k + j) (add_results w preserve r rest)
  add_results-Succeeds k j preserve (s, returns (ok rs)) rest h m =
      prepend-Succeeds k j rs (rest s) h.1 h.2 (m s h.0)
  add_results-Succeeds k j preserve (s, returns (err e)) rest h m = absurd h
  add_results-Succeeds k j preserve (s, Ends.panics) rest h m = h
  add_results-Succeeds k j preserve (s, Ends.pending) rest h m = h

  -- Every retry with fewer attempts left below n succeeds.
  abbrev Retries : ℕ → (State → P → Backoff → ℕ → Ran w) → ℕ → Type 0
  Retries n retry attempt =
      (s : State) (plan : P) (b : Backoff) (later : ℕ)
      → IsCalm s.routing
      → IsReady n b later
      → n - later < n - attempt
      → Succeeds 1 (retry s plan b later)

  follow_pass-Succeeds :
      (n attempt : ℕ) (retry : State → P → Backoff → ℕ → Ran w) (r : Passed w)
      → Retries n retry attempt
      → Good n attempt r
      → Succeeds 1 (follow_pass w retry r)
  follow_pass-Succeeds n attempt retry (s, done (ok rs)) k g = g
  follow_pass-Succeeds n attempt retry (s, done (err e)) k g = g
  follow_pass-Succeeds n attempt retry (s, again plan b later) k g = k s plan b later g.0 g.1 g.2
  follow_pass-Succeeds n attempt retry (s, panic) k g = g

  -- What `all_shards` gives when every shard has a leader.
  abbrev EveryLed : ℕ → Answer (List (P × RegionWithLeader)) → Type 0
  EveryLed k (ok xs) = All HasLeader xs × (length xs ≡ k)
  EveryLed k (err e) = ⊥

  cons-EveryLed :
      (k : ℕ) (x : P × RegionWithLeader) (a : Answer (List (P × RegionWithLeader)))
      → HasLeader x
      → EveryLed k a
      → EveryLed (suc k) (elim a as (λ _. Answer (List (P × RegionWithLeader))) [
        | ok xs ↦ ok (x ∷ xs)
        | err e ↦ err e
      ])
  cons-EveryLed k x (ok xs) h m = ((h, m.0), ap suc m.1)
  cons-EveryLed k x (err e) h m = m

  all_shards-EveryLed :
      (xs : List (Answer (P × RegionWithLeader)))
      → All IsLed xs
      → EveryLed (length xs) (all_shards w xs)
  all_shards-EveryLed [] h = (tt, refl)
  all_shards-EveryLed (err e ∷ xs) h = h.0
  all_shards-EveryLed (ok (p, r) ∷ xs) h =
      cons-EveryLed (length xs) (p, r) (all_shards w xs) h.0 (all_shards-EveryLed xs h.1)

  module _ (n : ℕ) (led : (t : ℕ) (plan : P) → All IsLed (w.shards t plan))
      (cut : (t : ℕ) (plan : P) → 0 < length (w.shards t plan))
      (mapped : (t : ℕ) (r : RegionWithLeader) → IsOk (w.map_region_to_store t r))
      (applied : (rs : RegionStore) (plan : P) → IsOk (w.apply_store rs plan))
      (answered : (t : ℕ) (rs : RegionStore) (plan : P)
        → Recovers n rs.attempt (w.execute t rs plan)) where
    run_shards-Succeeds :
        (retry : State → P → Backoff → ℕ → Ran w) (preserve : Bool) (b : Backoff) (attempt : ℕ)
        (xs : List (P × RegionWithLeader)) (s : State)
        → Retries n retry attempt
        → IsReady n b attempt
        → IsCalm s.routing
        → All HasLeader xs
        → Succeeds (length xs) (run_shards w retry preserve b attempt xs s)
    unfolding run_shards
    run_shards-Succeeds retry preserve b attempt [] s k r c f = (c, tt, omega arith)
    run_shards-Succeeds retry preserve b attempt ((plan, region) ∷ xs) s k r c f =
        subst (λ j. Succeeds j (run_shards w retry preserve b attempt ((plan, region) ∷ xs) s))
          (let e : 1 + length xs ≡ suc (length xs) = omega arith in e)
          (add_results-Succeeds 1 (length xs) preserve _ (run_shards w retry preserve b attempt xs)
            (follow_pass-Succeeds n attempt retry (single_shard_pass w s plan region b attempt) k
              (single_shard_pass-Good w n mapped applied answered s plan region b attempt r c f.0))
            (λ s' c'. run_shards-Succeeds retry preserve b attempt xs s' k r c' f.1))

    run_all-Succeeds :
        (retry : State → P → Backoff → ℕ → Ran w) (preserve : Bool) (b : Backoff) (attempt k : ℕ)
        (s : State) (a : Answer (List (P × RegionWithLeader)))
        → Retries n retry attempt
        → IsReady n b attempt
        → IsCalm s.routing
        → EveryLed k a
        → Succeeds k (run_all w retry preserve b attempt s a)
    run_all-Succeeds retry preserve b attempt k s (ok xs) h r c f =
        subst (λ j. Succeeds j (run_shards w retry preserve b attempt xs s)) f.1
          (run_shards-Succeeds retry preserve b attempt xs s h r c f.0)
    run_all-Succeeds retry preserve b attempt k s (err e) h r c f = f

    fewer-Succeeds : (k j : ℕ) (r : Ran w) → j ≤ k → Succeeds k r → Succeeds j r
    fewer-Succeeds k j (s, returns (ok rs)) l h = (h.0, h.1, omega (arith, h.2))
    fewer-Succeeds k j (s, returns (err e)) l h = h
    fewer-Succeeds k j (s, Ends.panics) l h = h
    fewer-Succeeds k j (s, Ends.pending) l h = h

    handler-Succeeds :
        (fuel : ℕ) (preserve : Bool) (s : State) (plan : P) (b : Backoff) (attempt : ℕ)
        → n - attempt < fuel
        → IsReady n b attempt
        → IsCalm s.routing
        → Succeeds
            (length (w.shards s.ticks plan))
            (single_plan_handler w fuel preserve s plan b attempt)
    unfolding single_plan_handler
    handler-Succeeds zero preserve s plan b attempt l r c = absurd (omega arith)
    handler-Succeeds (suc fuel) preserve s plan b attempt l r c =
        run_all-Succeeds (single_plan_handler w fuel preserve) preserve b attempt
          (length (w.shards s.ticks plan)) s (all_shards w (w.shards s.ticks plan))
          (λ s' plan' b' later c' r' m.
            fewer-Succeeds (length (w.shards s'.ticks plan')) 1
              (single_plan_handler w fuel preserve s' plan' b' later) (cut s'.ticks plan')
              (handler-Succeeds fuel preserve s' plan' b' later (omega arith) r' c'))
          r c (all_shards-EveryLed (w.shards s.ticks plan) (led s.ticks plan))

-- At least k responses, and no error.
abbrev pub Delivered : {A : Type 0} → ℕ → Ends (List (Answer (Response A))) → Type 0
Delivered {A} k r =
    (rs : List (Answer (Response A))) × (r ≡ returns (ok rs)) × All IsOk rs × (k ≤ length rs)

Succeeds-Delivered :
    {A : Type 0} (k : ℕ) (r : State × Ends (List (Answer (Response A))))
    → Succeeds k r
    → Delivered k r.1
Succeeds-Delivered k (s, returns (ok rs)) h = (rs, refl, h.1, h.2)
Succeeds-Delivered k (s, returns (err e)) h = absurd h
Succeeds-Delivered k (s, Ends.panics) h = absurd h
Succeeds-Delivered k (s, Ends.pending) h = absurd h

-- A plan that reads or writes at the leaders, with a backoff without jitter that has n attempts,
-- returns a response for every shard at least, and no error, when the servers recover by attempt n:
-- a plan always has a shard, every region has a leader and every store is reached, and a store
-- answers without an error, or before attempt n with a failed transport or an error of the region,
-- other than an entry too large for Raft and data that is not ready. No backoff is pending at the
-- start, and more fuel than n is enough.
pub execute-Delivered :
    {P A : Type 0} (w : World P A) (n : ℕ)
    → ((t : ℕ) (plan : P) → All IsLed (w.shards t plan))
    → ((t : ℕ) (plan : P) → 0 < length (w.shards t plan))
    → ((t : ℕ) (r : RegionWithLeader) → IsOk (w.map_region_to_store t r))
    → ((rs : RegionStore) (plan : P) → IsOk (w.apply_store rs plan))
    → ((t : ℕ) (rs : RegionStore) (plan : P) → Recovers n rs.attempt (w.execute t rs plan))
    → (fuel : ℕ) (preserve : Bool) (s : State) (plan : P) (b : Backoff) → n < fuel
    → b.kind ≡ BackoffKind.no_jitter
    → b.current_attempts + n ≤ b.max_attempts
    → is_replica_read_mode s.routing ≡ false
    → s.routing.pending_backoffs ≡ []
    → Delivered (length (w.shards s.ticks plan)) (execute w fuel preserve s plan b).1
unfolding execute
execute-Delivered w n led cut mapped applied answered fuel preserve s plan b l k m q z =
    Succeeds-Delivered (length (w.shards s.ticks plan))
      (single_plan_handler w fuel preserve s plan b 0)
      (handler-Succeeds w n led cut mapped applied answered fuel preserve s plan b 0 (omega arith)
        (record { plain = k; enough = omega arith }) (record { at_leader = q; paid = z }))
