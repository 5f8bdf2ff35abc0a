-- ===== src/Backoff.antt =====
-- src/backoff.rs: the delays between retries. The generator of random numbers is an argument:
-- `gen n` is what `gen_range(0..n)` draws, and that call panics when `n` is 0.
pub mod Delays
pub mod Doubling
pub mod Panic
mod Tests
use rust_tikv_client.Prelude.{
  ℕ, zero, suc, ◌+◌, ◌-◌, ◌*◌, ◌/◌, ◌%◌, ◌^◌, min, max, Bool, true, false, ◌==◌, leb, if◌then◌else◌,
  List, [], ◌∷◌,
}

pub data BackoffKind : Type 0 where
  no_delay no_jitter full_jitter equal_jitter decorrelated_jitter : BackoffKind

pub record Backoff : Type 0 where
  pub kind : BackoffKind
  pub current_attempts : ℕ
  pub max_attempts : ℕ
  pub base_delay_ms : ℕ
  pub current_delay_ms : ℕ
  pub max_delay_ms : ℕ

-- `stopped` is the code's `None`.
pub data Delay : Type 0 where
  stopped panicked : Delay
  waits : ℕ → Delay

-- `gen_range(0..n)`, and the delay made of the number drawn.
abbrev pub gen_range : (ℕ → ℕ) → ℕ → (ℕ → ℕ) → Delay
gen_range gen n f = if n == 0 then panicked else waits (f (gen n))

-- `<<= 1` on a `u64`.
abbrev pub double_delay : Backoff → Backoff
double_delay b = record b { current_delay_ms = b.current_delay_ms * 2 % 2 ^ 64 }

-- The delay is drawn before the shift: after a panic the state is as before it.
abbrev pub shift_after : Backoff → Delay → Backoff × Delay
shift_after b panicked = (b, panicked)
shift_after b d = (double_delay b, d)

abbrev pub store_delay : Backoff → Delay → Backoff × Delay
store_delay b (waits d) = (record b { current_delay_ms = d }, waits d)
store_delay b d = (b, d)

abbrev pub u64_max : ℕ
u64_max = 2 ^ 64 - 1

-- `saturating_mul(3)`, `saturating_sub(base_delay_ms)`, `max(1)`.
abbrev pub upper_exclusive : Backoff → ℕ
upper_exclusive b = max (min (b.current_delay_ms * 3) u64_max - b.base_delay_ms) 1

unfoldable pub delay_of : (ℕ → ℕ) → BackoffKind → Backoff → Backoff × Delay
delay_of gen BackoffKind.no_delay b = (b, stopped)
delay_of gen BackoffKind.no_jitter b = shift_after b (waits (min b.max_delay_ms b.current_delay_ms))
delay_of gen BackoffKind.full_jitter b =
    shift_after b (gen_range gen (min b.max_delay_ms b.current_delay_ms) (λ r. r))
delay_of gen BackoffKind.equal_jitter b =
    let half_delay_ms = min b.max_delay_ms b.current_delay_ms / 2 in
    shift_after b (gen_range gen half_delay_ms (λ r. r + half_delay_ms))
delay_of gen BackoffKind.decorrelated_jitter b =
    store_delay b
      (gen_range gen (upper_exclusive b) (λ r. min ((r + b.base_delay_ms) % 2 ^ 64) b.max_delay_ms))

abbrev pub unless_exhausted : (ℕ → ℕ) → Backoff → Bool → Backoff × Delay
unless_exhausted gen b true = (b, stopped)
unless_exhausted gen b false =
    delay_of gen b.kind (record b { current_attempts = b.current_attempts + 1 })

unfoldable pub next_delay_duration : (ℕ → ℕ) → Backoff → Backoff × Delay
next_delay_duration gen b = unless_exhausted gen b (leb b.max_attempts b.current_attempts)

unfoldable pub no_backoff : Backoff
no_backoff = record {
  kind = BackoffKind.no_delay;
  current_attempts = 0;
  max_attempts = 0;
  base_delay_ms = 0;
  current_delay_ms = 0;
  max_delay_ms = 0;
}

abbrev start : BackoffKind → ℕ → ℕ → ℕ → Backoff
start kind base limit attempts = record {
  kind = kind;
  current_attempts = 0;
  max_attempts = attempts;
  base_delay_ms = base;
  current_delay_ms = base;
  max_delay_ms = limit;
}

unfoldable pub no_jitter_backoff : ℕ → ℕ → ℕ → Backoff
no_jitter_backoff base limit attempts = start BackoffKind.no_jitter base limit attempts

unfoldable pub full_jitter_backoff : ℕ → ℕ → ℕ → Backoff
full_jitter_backoff base limit attempts =
    start BackoffKind.full_jitter (max base 1) (max limit 1) attempts

unfoldable pub equal_jitter_backoff : ℕ → ℕ → ℕ → Backoff
equal_jitter_backoff base limit attempts =
    start BackoffKind.equal_jitter (max base 2) (max limit 2) attempts

unfoldable pub decorrelated_jitter_backoff : ℕ → ℕ → ℕ → Backoff
decorrelated_jitter_backoff base limit attempts =
    start BackoffKind.decorrelated_jitter (max base 1) (max limit (max base 1)) attempts

-- The delays that a caller meets who asks `fuel` times and stops at the first `None` or panic; the
-- generator may differ from call to call.
abbrev pub follow : Delay → List Delay → List Delay
follow (waits d) rest = waits d ∷ rest
follow stopped rest = stopped ∷ []
follow panicked rest = panicked ∷ []

unfoldable pub delays : (ℕ → ℕ → ℕ) → ℕ → Backoff → List Delay
unfolding next_delay_duration
delays gens zero b = []
delays gens (suc n) b = let (b', d) = next_delay_duration (gens n) b in follow d (delays gens n b')
