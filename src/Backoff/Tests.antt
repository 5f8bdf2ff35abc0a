-- ===== src/Backoff/Tests.antt =====
-- Runs of the backoff, and witnesses of its theorems.
use rust_tikv_client.Prelude.{ℕ, ◌≡◌, refl, true, [], ◌∷◌, arith}
use rust_tikv_client.Backoff.{
  stopped, waits, next_delay_duration, delay_of, delays, no_jitter_backoff, full_jitter_backoff,
  equal_jitter_backoff,
}
use rust_tikv_client.Backoff.Delays.{InRange}
use rust_tikv_client.Backoff.Panic.{panics, full_jitter-panics}

-- The generator that always draws the least number.
abbrev least : ℕ → ℕ
least n = 0

least-InRange : InRange least
least-InRange n h = h

no_jitter_run :
    delays (λ i. least) 5 (no_jitter_backoff 2 7 3) ≡ waits 2 ∷ waits 4 ∷ waits 7 ∷ stopped ∷ []
unfolding delays next_delay_duration delay_of no_jitter_backoff
no_jitter_run = refl

equal_jitter_run :
    delays (λ i. least) 5 (equal_jitter_backoff 2 7 2) ≡ waits 1 ∷ waits 2 ∷ stopped ∷ []
unfolding delays next_delay_duration delay_of equal_jitter_backoff
equal_jitter_run = refl

full_jitter-panics_example : panics (delays (λ i. least) 65 (full_jitter_backoff 2 500 100)) ≡ true
full_jitter-panics_example = full_jitter-panics (λ i. least) 2 500 100 (omega arith) (omega arith)
