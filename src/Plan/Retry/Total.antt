-- ===== src/Plan/Retry/Total.antt =====
-- With enough fuel a plan ends.
use rust_tikv_client.Prelude.{
  ℕ, zero, suc, ◌+◌, ◌-◌, ◌≤◌, ◌<◌, ◌≡◌, ◌≢◌, Bool, true, false, All, some, List, [], ◌∷◌, arith,
}
use rust_tikv_client.Backoff.{Backoff}
use rust_tikv_client.Region.{RegionWithLeader}
use rust_tikv_client.Plan.{
  World, State, RegionStore, Response, ErrorPb, Answer, ok, err, Ends, returns,
}
use rust_tikv_client.Plan.Pass.{done, again, panic, non_witness_peers, Passed, single_shard_pass}
use rust_tikv_client.Plan.Retry.{
  Results, Ran, all_shards, follow_pass, prepend, add_results, run_shards, run_all,
  single_plan_handler, execute,
}
use rust_tikv_client.Plan.Pass.Budget.{left, Falls}
use rust_tikv_client.Plan.Pass.Ending.{Small, Unresolved, single_shard_pass-Falls}

abbrev Stops {ℓ} : {X : Type ℓ} → Ends X → Type 0
Stops (returns a) = Unit {0}
Stops Ends.panics = Unit {0}
Stops Ends.pending = ⊥

abbrev Few {ℓ} : {X : Type ℓ} → ℕ → X × RegionWithLeader → Type 0
Few n (x, r) = non_witness_peers r.region.peers ≤ n

module _ {P A : Type 0} (w : World P A) where
  prepend-Stops : (rs : Results w) (r : Ran w) → Stops r.1 → Stops (prepend w rs r).1
  prepend-Stops rs (s, returns (ok more)) h = tt
  prepend-Stops rs (s, returns (err e)) h = tt
  prepend-Stops rs (s, Ends.panics) h = tt
  prepend-Stops rs (s, Ends.pending) h = h

  add_results-Stops :
      (preserve : Bool) (r : Ran w) (rest : State → Ran w)
      → Stops r.1
      → ((s : State) → Stops (rest s).1)
      → Stops (add_results w preserve r rest).1
  add_results-Stops preserve (s, returns (ok rs)) rest h k = prepend-Stops rs (rest s) (k s)
  add_results-Stops true (s, returns (err e)) rest h k = prepend-Stops (err e ∷ []) (rest s) (k s)
  add_results-Stops false (s, returns (err e)) rest h k = tt
  add_results-Stops preserve (s, Ends.panics) rest h k = tt
  add_results-Stops preserve (s, Ends.pending) rest h k = h

  follow_pass-Stops :
      (n k : ℕ) (retry : State → P → Backoff → ℕ → Ran w) (r : Passed w)
      → ((s : State) (plan : P) (b : Backoff) (attempt : ℕ)
          → left n b attempt < k
          → Stops (retry s plan b attempt).1)
      → Falls n k r.1
      → Stops (follow_pass w retry r).1
  follow_pass-Stops n k retry (s, done a) h f = tt
  follow_pass-Stops n k retry (s, again plan b attempt) h f = h s plan b attempt f
  follow_pass-Stops n k retry (s, panic) h f = tt

  -- What `all_shards` passes on of a condition.
  abbrev Every : ℕ → Answer (List (P × RegionWithLeader)) → Type 0
  Every n (ok xs) = All (Few n) xs
  Every n (err e) = Unit {0}

  cons-Every :
      (n : ℕ) (x : P × RegionWithLeader) (a : Answer (List (P × RegionWithLeader)))
      → Few n x
      → Every n a
      → Every n (elim a as (λ _. Answer (List (P × RegionWithLeader))) [
        | ok xs ↦ ok (x ∷ xs)
        | err e ↦ err e
      ])
  cons-Every n x (ok xs) h k = (h, k)
  cons-Every n x (err e) h k = tt

  all_shards-Every :
      (n : ℕ) (xs : List (Answer (P × RegionWithLeader)))
      → All (Small n) xs
      → Every n (all_shards w xs)
  all_shards-Every n [] h = tt
  all_shards-Every n (err e ∷ xs) h = tt
  all_shards-Every n (ok (p, r) ∷ xs) h =
      cons-Every n (p, r) (all_shards w xs) h.0 (all_shards-Every n xs h.1)

  module _ (n : ℕ) (late : 120 ≤ n) (few : (t : ℕ) (plan : P) → All (Small n) (w.shards t plan))
      (unresolved : (t : ℕ) (rs : RegionStore) (plan : P) (resp : Response A) (e : ErrorPb)
        → w.execute t rs plan ≡ ok resp
        → resp.region_error ≡ some e
        → Unresolved n rs e) where
    run_shards-Stops :
        (retry : State → P → Backoff → ℕ → Ran w) (preserve : Bool) (b : Backoff) (attempt : ℕ)
        (xs : List (P × RegionWithLeader)) (s : State)
        → ((s : State) (plan : P) (b' : Backoff) (attempt' : ℕ)
            → left n b' attempt' < left n b attempt
            → Stops (retry s plan b' attempt').1)
        → All (Few n) xs
        → Stops (run_shards w retry preserve b attempt xs s).1
    unfolding run_shards
    run_shards-Stops retry preserve b attempt [] s h f = tt
    run_shards-Stops retry preserve b attempt ((plan, region) ∷ xs) s h f =
        add_results-Stops preserve _ (run_shards w retry preserve b attempt xs)
          (follow_pass-Stops n (left n b attempt) retry
            (single_shard_pass w s plan region b attempt) h
            (single_shard_pass-Falls w n late unresolved region f.0 s plan b attempt))
          (λ s'. run_shards-Stops retry preserve b attempt xs s' h f.1)

    run_all-Stops :
        (retry : State → P → Backoff → ℕ → Ran w) (preserve : Bool) (b : Backoff) (attempt : ℕ)
        (s : State) (a : Answer (List (P × RegionWithLeader)))
        → ((s : State) (plan : P) (b' : Backoff) (attempt' : ℕ)
            → left n b' attempt' < left n b attempt
            → Stops (retry s plan b' attempt').1)
        → Every n a
        → Stops (run_all w retry preserve b attempt s a).1
    run_all-Stops retry preserve b attempt s (ok xs) h f =
        run_shards-Stops retry preserve b attempt xs s h f
    run_all-Stops retry preserve b attempt s (err e) h f = tt

    handler-Stops :
        (fuel : ℕ) (preserve : Bool) (s : State) (plan : P) (b : Backoff) (attempt : ℕ)
        → left n b attempt < fuel
        → Stops (single_plan_handler w fuel preserve s plan b attempt).1
    unfolding single_plan_handler
    handler-Stops zero preserve s plan b attempt h = absurd (omega arith)
    handler-Stops (suc fuel) preserve s plan b attempt h =
        run_all-Stops (single_plan_handler w fuel preserve) preserve b attempt s
          (all_shards w (w.shards s.ticks plan))
          (λ s' plan' b' attempt' l. handler-Stops fuel preserve s' plan' b' attempt' (omega arith))
          (all_shards-Every n (w.shards s.ticks plan) (few s.ticks plan))

Stops-ne-pending : {X : Type 0} (r : Ends X) → Stops r → r ≢ Ends.pending
Stops-ne-pending (returns a) h = λ e. cc
Stops-ne-pending Ends.panics h = λ e. cc
Stops-ne-pending Ends.pending h = absurd h

-- A plan ends, whatever is answered, when from some attempt n on, at least the 120th, no error of a
-- region is resolved without a wait, and no region has more than n peers that are no witnesses: the
-- fuel is enough when it is more than n and the attempts that the backoff has left.
pub execute-ne-pending :
    {P A : Type 0} (w : World P A) (n : ℕ)
    → 120 ≤ n
    → ((t : ℕ) (plan : P) → All (Small n) (w.shards t plan))
    → ((t : ℕ) (rs : RegionStore) (plan : P) (resp : Response A) (e : ErrorPb)
        → w.execute t rs plan ≡ ok resp
        → resp.region_error ≡ some e
        → Unresolved n rs e)
    → (fuel : ℕ) (preserve : Bool) (s : State) (plan : P) (b : Backoff)
    → n + (b.max_attempts - b.current_attempts) < fuel
    → (execute w fuel preserve s plan b).1 ≢ Ends.pending
unfolding execute
execute-ne-pending w n late few unresolved fuel preserve s plan b h =
    Stops-ne-pending _
      (handler-Stops w n late few unresolved fuel preserve s plan b 0 (omega arith))
