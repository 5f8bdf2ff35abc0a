-- ===== src/Backoff/Doubling.antt =====
-- The delays without jitter double from attempt to attempt.
use rust_tikv_client.Prelude.{
  ℕ, zero, suc, ◌+◌, ◌*◌, ◌%◌, ◌^◌, ◌≤◌, ◌<◌, min, ◌≡◌, refl, sym, ap, ◌∙◌, false, leb, some, arith,
  get_elem?,
}
use native.Mathlib.Nat.{two-pow-succ}
use rust_tikv_client.Backoff.{BackoffKind, Backoff, waits, next_delay_duration, delay_of, delays}

pub doubled : (c n : ℕ) → c * 2 ^ suc n ≡ c * 2 * 2 ^ n
doubled c n = grind (arith, two-pow-succ n)

pub le-scaled : (c n : ℕ) → c ≤ c * 2 ^ n
le-scaled c zero = omega arith
le-scaled c (suc n) = grind (arith, le-scaled c n, two-pow-succ n)

-- What a call does while attempts are left.
pub next_step :
    (gen : ℕ → ℕ) (kind : BackoffKind) (b : Backoff)
    → b.kind ≡ kind
    → b.current_attempts < b.max_attempts
    → next_delay_duration gen b
      ≡ delay_of gen kind (record b { current_attempts = b.current_attempts + 1 })
unfolding next_delay_duration
next_step gen kind b k h =
    let e : leb b.max_attempts b.current_attempts ≡ false = ground arith in rw (e, k) refl

-- While attempts are left and before the u64 overflows, the delay of each attempt without jitter is
-- `min(max_delay, base_delay * 2 ** attempts)`.
pub no_jitter-delay :
    (gens : ℕ → ℕ → ℕ) (n i : ℕ) (b : Backoff)
    → b.kind ≡ BackoffKind.no_jitter
    → i < n
    → b.current_attempts + i < b.max_attempts
    → b.current_delay_ms * 2 ^ i < 2 ^ 64
    → get_elem? (delays gens n b) i ≡ some (waits (min b.max_delay_ms (b.current_delay_ms * 2 ^ i)))
unfolding delays delay_of
no_jitter-delay gens zero i b k h a o = ground (arith, h)
no_jitter-delay gens (suc n) zero b k h a o =
    rw (next_step (gens n) BackoffKind.no_jitter b k (omega arith)) (ground arith)
no_jitter-delay gens (suc n) (suc i) b k h a o =
    let c = b.current_delay_ms in
    let small : c * 2 < 2 ^ 64 = omega (arith, le-scaled (c * 2) i, doubled c i) in
    let b' : Backoff = record b {
      current_attempts = b.current_attempts + 1;
      current_delay_ms = c * 2 % 2 ^ 64;
    } in
    let e : c * 2 % 2 ^ 64 ≡ c * 2 = omega arith in
    let ih =
      no_jitter-delay gens n i b' k (omega arith) (omega arith)
        (rw e (omega (arith, doubled c i))) in
    rw (next_step (gens n) BackoffKind.no_jitter b k (omega arith)) (
      ih
      ∙ ap (λ x. some (waits (min b.max_delay_ms x))) (ap (λ x. x * 2 ^ i) e ∙ sym (doubled c i)))
