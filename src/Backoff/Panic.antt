-- ===== src/Backoff/Panic.antt =====
-- The panic of `gen_range` on an empty range, with full jitter.
use rust_tikv_client.Prelude.{
  ℕ, zero, suc, ◌+◌, ◌*◌, ◌/◌, ◌%◌, ◌^◌, ◌≤◌, ◌<◌, min, max, ◌≡◌, refl, ap, Bool, true, false, ◌==◌,
  leb, Bool-cases, ◌⊎◌, inl, inr, List, [], ◌∷◌, arith,
}
use rust_tikv_client.Backoff.{
  BackoffKind, Backoff, Delay, panicked, next_delay_duration, delay_of, delays, follow,
  full_jitter_backoff,
}
use rust_tikv_client.Backoff.Doubling.{doubled, le-scaled, next_step}

double-mul : (c m : ℕ) → c * 2 * 2 ^ m ≡ 2 * (c * 2 ^ m)
double-mul c m = grind arith

-- Whether a run ends in the panic of `gen_range` on an empty range.
abbrev pub panics : List Delay → Bool
panics [] = false
panics (panicked ∷ ds) = true
panics (d ∷ ds) = panics ds

full_step :
    (gen : ℕ → ℕ) (ds : Backoff → List Delay) (b : Backoff)
    → (b.current_delay_ms ≡ 0)
      ⊎ (panics (ds (record b { current_delay_ms = b.current_delay_ms * 2 % 2 ^ 64 })) ≡ true)
    → (let (b', d) = delay_of gen BackoffKind.full_jitter b in panics (follow d (ds b'))) ≡ true
unfolding delay_of
full_step gen ds b h = elim (Bool-cases (min b.max_delay_ms b.current_delay_ms == 0)) [
  | inl e ↦ rw e refl
  | inr e ↦ rw e (elim h [ inl z ↦ ground (arith, e, z) | inr p ↦ p ])
]

overflow :
    (gens : ℕ → ℕ → ℕ) (n m k c : ℕ) (b : Backoff)
    → b.kind ≡ BackoffKind.full_jitter
    → m + n ≡ 64
    → b.current_attempts + n < b.max_attempts
    → b.current_delay_ms < 2 ^ 64
    → b.current_delay_ms + k * 2 ^ 64 ≡ c * 2 ^ m
    → panics (delays gens (suc n) b) ≡ true
unfolding delays
overflow gens zero m k c b q s a l e =
    let top : m ≡ 64 = omega arith in
    let e64 : c * 2 ^ m ≡ c * 2 ^ 64 = ap (λ x. c * 2 ^ x) top in
    rw (next_step (gens zero) BackoffKind.full_jitter b q (omega arith)) (
      full_step (gens zero) (delays gens zero)
        (record b { current_attempts = b.current_attempts + 1 }) (inl (omega arith)))
overflow gens (suc n) m k c b q s a l e =
    let d = b.current_delay_ms in
    let b' : Backoff = record b {
      current_attempts = b.current_attempts + 1;
      current_delay_ms = d * 2 % 2 ^ 64;
    } in
    let ih =
      overflow gens n (suc m) (2 * k + d * 2 / 2 ^ 64) c b' q (omega arith) (omega arith)
        (omega arith) (omega (arith, doubled c m, double-mul c m)) in
    rw (next_step (gens (suc n)) BackoffKind.full_jitter b q (omega arith)) (
      full_step (gens (suc n)) (delays gens (suc n))
        (record b { current_attempts = b.current_attempts + 1 }) (inr ih))

-- With full jitter and more than 64 attempts the shifts leave 0 in the u64, whatever the generator
-- draws and for every base and maximum delay: one of the first 65 calls has the empty range for
-- `gen_range`, and panics.
pub full_jitter-panics :
    (gens : ℕ → ℕ → ℕ) (base limit attempts : ℕ)
    → base < 2 ^ 64
    → 64 < attempts
    → panics (delays gens 65 (full_jitter_backoff base limit attempts)) ≡ true
unfolding full_jitter_backoff
full_jitter-panics gens base limit attempts l h =
    overflow gens 64 0 0 (max base 1) (full_jitter_backoff base limit attempts) refl refl h
      (omega arith) (omega arith)

-- A call with full jitter does not panic when the current and the maximum delay are not 0.
no_panic_step :
    (gen : ℕ → ℕ) (ds : Backoff → List Delay) (b : Backoff)
    → 0 < b.current_delay_ms
    → 0 < b.max_delay_ms
    → panics (ds (record b { current_delay_ms = b.current_delay_ms * 2 % 2 ^ 64 })) ≡ false
    → (let (b', d) = delay_of gen BackoffKind.full_jitter b in panics (follow d (ds b'))) ≡ false
unfolding delay_of
no_panic_step gen ds b c m h =
    let e : (min b.max_delay_ms b.current_delay_ms == 0) ≡ false = ground arith in rw e h

exhausted :
    (gens : ℕ → ℕ → ℕ) (n : ℕ) (b : Backoff)
    → b.max_attempts ≤ b.current_attempts
    → panics (delays gens n b) ≡ false
unfolding delays next_delay_duration
exhausted gens zero b h = refl
exhausted gens (suc n) b h =
    let e : leb b.max_attempts b.current_attempts ≡ true = ground arith in rw e refl

no_panic :
    (gens : ℕ → ℕ → ℕ) (n r : ℕ) (b : Backoff)
    → b.kind ≡ BackoffKind.full_jitter
    → b.max_attempts ≡ b.current_attempts + r
    → (r ≡ 0) ⊎ (0 < b.current_delay_ms)
    → 0 < b.max_delay_ms
    → b.current_delay_ms * 2 ^ r ≤ 2 ^ 64
    → panics (delays gens n b) ≡ false
unfolding delays
no_panic gens n zero b q a c m l = exhausted gens n b (omega arith)
no_panic gens zero (suc r) b q a c m l = refl
no_panic gens (suc n) (suc zero) b q a c m l =
    let d = b.current_delay_ms in
    let b' : Backoff = record b {
      current_attempts = b.current_attempts + 1;
      current_delay_ms = d * 2 % 2 ^ 64;
    } in
    rw (next_step (gens n) BackoffKind.full_jitter b q (omega arith)) (
      no_panic_step (gens n) (delays gens n)
        (record b { current_attempts = b.current_attempts + 1 }) (ground arith) m
        (exhausted gens n b' (omega arith)))
no_panic gens (suc n) (suc (suc r)) b q a c m l =
    let d = b.current_delay_ms in
    let b' : Backoff = record b {
      current_attempts = b.current_attempts + 1;
      current_delay_ms = d * 2 % 2 ^ 64;
    } in
    let pos : 0 < d = ground arith in
    let le : d * 2 * 2 ≤ 2 ^ 64 =
      omega (arith, le-scaled (d * 2 * 2) r, doubled d (suc r), doubled (d * 2) r) in
    let e : d * 2 % 2 ^ 64 ≡ d * 2 = omega arith in
    rw (next_step (gens n) BackoffKind.full_jitter b q (omega arith)) (
      no_panic_step (gens n) (delays gens n)
        (record b { current_attempts = b.current_attempts + 1 }) pos m
        (no_panic gens n (suc r) b' q (omega arith) (inr (omega arith)) m
          (rw e (omega (arith, doubled d (suc r))))))

-- With full jitter no call panics when the base delay, at least 1, times two to the power of the
-- attempts is at most 2 ^ 64.
pub full_jitter-no_panic :
    (gens : ℕ → ℕ → ℕ) (n base limit attempts : ℕ)
    → max base 1 * 2 ^ attempts ≤ 2 ^ 64
    → panics (delays gens n (full_jitter_backoff base limit attempts)) ≡ false
unfolding full_jitter_backoff
full_jitter-no_panic gens n base limit attempts h =
    no_panic gens n attempts (full_jitter_backoff base limit attempts) refl (omega arith)
      (inr (omega arith)) (omega arith) h
