-- ===== src/Plan/Stores/Laws.antt =====
-- The requests to every store end, and keep to the attempts of the backoff.
use rust_tikv_client.Prelude.{
  ℕ, zero, suc, ◌+◌, ◌-◌, ◌≤◌, ◌<◌, ◌≡◌, ◌≢◌, List, [], ◌∷◌, refl, if-elim, arith,
}
use rust_tikv_client.Backoff.{Backoff, Delay, waits, stopped, panicked, next_delay_duration}
use rust_tikv_client.Plan.{Response, PlanError, Answer, ok, err, Ends, returns, is_grpc_error}
use rust_tikv_client.Plan.Pass.Budget.{Advances, next_delay_duration-Advances}
use rust_tikv_client.Plan.Stores.{
  StoreEvent, requested, slept, Handled, after_event, on_delay, on_answer, single_store_handler,
}

-- A request, and then at most `n` times a sleep and a request.
abbrev pub IsRetried : ℕ → List StoreEvent → Type 0
IsRetried n [] = ⊥
IsRetried n (slept d ∷ es) = ⊥
IsRetried n (requested ∷ []) = Unit
IsRetried n (requested ∷ requested ∷ es) = ⊥
IsRetried zero (requested ∷ slept d ∷ es) = ⊥
IsRetried (suc n) (requested ∷ slept d ∷ es) = IsRetried n es

module _ {A : Type 0} (execute : ℕ → Answer (Response A)) (gen : ℕ → ℕ → ℕ) where
  abbrev IsWithin : ℕ → Handled execute gen → Type 0
  IsWithin n r = IsRetried n r.0 × (r.1 ≢ Ends.pending)

  -- The retry that uses one of the attempts that are left.
  abbrev Retries : ℕ → Backoff → (ℕ → Backoff → Handled execute gen) → ℕ → Type 0
  Retries n b retry t =
      (m : ℕ) (b' : Backoff)
      → n ≡ suc m
      → b.current_attempts < b.max_attempts
      → b'.current_attempts ≡ b.current_attempts + 1
      → b'.max_attempts ≡ b.max_attempts
      → IsWithin m (retry (t + 1) b')

  on_delay-IsWithin :
      (retry : ℕ → Backoff → Handled execute gen) (t n : ℕ) (e : PlanError) (b : Backoff)
      (r : Backoff × Delay)
      → b.max_attempts - b.current_attempts ≤ n
      → Advances b r
      → Retries n b retry t
      → IsWithin n (after_event execute gen requested (on_delay execute gen retry t e r))
  on_delay-IsWithin retry t zero e b (b', waits d) l a h = absurd (omega (arith, l, a.0))
  on_delay-IsWithin retry t (suc n) e b (b', waits d) l a h = h n b' refl a.0 a.1 a.2
  on_delay-IsWithin retry t n e b (b', stopped) l a h = (tt, λ q. cc)
  on_delay-IsWithin retry t n e b (b', panicked) l a h = (tt, λ q. cc)

  on_answer-IsWithin :
      (retry : ℕ → Backoff → Handled execute gen) (t n : ℕ) (b : Backoff) (a : Answer (Response A))
      → b.max_attempts - b.current_attempts ≤ n
      → Retries n b retry t
      → IsWithin n (after_event execute gen requested (on_answer execute gen retry t b a))
  on_answer-IsWithin retry t n b (ok resp) l h = (tt, λ q. cc)
  on_answer-IsWithin retry t n b (err e) l h =
      if-elim (λ r. IsWithin n (after_event execute gen requested r)) (is_grpc_error e)
        (on_delay execute gen retry t e (next_delay_duration (gen t) b)) ([], returns (err e))
        (λ _.
          on_delay-IsWithin retry t n e b (next_delay_duration (gen t) b) l
            (next_delay_duration-Advances (gen t) b) h)
        (λ _. (tt, λ q. cc))

  handler-IsWithin :
      (fuel t n : ℕ) (b : Backoff)
      → b.max_attempts - b.current_attempts < fuel
      → b.max_attempts - b.current_attempts ≤ n
      → IsWithin n (single_store_handler execute gen fuel t b)
  unfolding single_store_handler
  handler-IsWithin zero t n b l m = absurd (omega arith)
  handler-IsWithin (suc fuel) t n b l m =
      on_answer-IsWithin (single_store_handler execute gen fuel) (t + 1) n b (execute t) m
        (λ k b' e i p q. handler-IsWithin fuel (t + 1 + 1) k b' (omega arith) (omega arith))

-- Whatever a store answers, its handler ends when the fuel is more than the attempts that the backoff
-- has left. It sends a request, and then at most once for each of these attempts sleeps and sends
-- another: there is one sleep between two requests, and none at an end.
pub single_store_handler-bounds :
    {A : Type 0} (execute : ℕ → Answer (Response A)) (gen : ℕ → ℕ → ℕ) (fuel : ℕ) (b : Backoff)
    → b.max_attempts - b.current_attempts < fuel
    → let r = single_store_handler execute gen fuel 0 b in
      IsRetried (b.max_attempts - b.current_attempts) r.0 × (r.1 ≢ Ends.pending)
single_store_handler-bounds execute gen fuel b l =
    handler-IsWithin execute gen fuel 0 (b.max_attempts - b.current_attempts) b l (omega arith)
