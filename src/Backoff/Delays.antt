-- ===== src/Backoff/Delays.antt =====
-- The delays that a backoff gives.
use rust_tikv_client.Prelude.{
  ℕ, zero, suc, ◌+◌, ◌-◌, ◌/◌, ◌≤◌, ◌<◌, min, ◌≡◌, refl, subst, Bool, true, false, leb, List, [],
  ◌∷◌, arith, All,
}
use rust_tikv_client.Backoff.{
  BackoffKind, Backoff, Delay, stopped, panicked, waits, next_delay_duration, delay_of, delays,
  follow, unless_exhausted,
}

-- `gen_range` draws from its range.
abbrev pub InRange : (ℕ → ℕ) → Type 0
InRange gen = (n : ℕ) → 0 < n → gen n < n

-- A delay of at most `limit` milliseconds.
abbrev pub Within : ℕ → Delay → Type 0
Within limit stopped = Unit
Within limit panicked = Unit
Within limit (waits d) = d ≤ limit

delay_of-Within :
    (gen : ℕ → ℕ) (kind : BackoffKind) (b : Backoff)
    → InRange gen
    → Within b.max_delay_ms (delay_of gen kind b).1
      × ((delay_of gen kind b).0.max_delay_ms ≡ b.max_delay_ms)
      × ((delay_of gen kind b).0.max_attempts ≡ b.max_attempts)
      × ((delay_of gen kind b).0.current_attempts ≡ b.current_attempts)
unfolding delay_of
delay_of-Within gen BackoffKind.no_delay b g = (tt, refl, refl, refl)
delay_of-Within gen BackoffKind.no_jitter b g = (omega arith, refl, refl, refl)
delay_of-Within gen BackoffKind.full_jitter b g =
    ground (arith, g (min b.max_delay_ms b.current_delay_ms))
delay_of-Within gen BackoffKind.equal_jitter b g =
    ground (arith, g (min b.max_delay_ms b.current_delay_ms / 2))
delay_of-Within gen BackoffKind.decorrelated_jitter b g = ground arith

-- Where the delays of a run are at most `limit`, and there are at most `n` of them before the end.
abbrev pub waited : List Delay → ℕ
waited [] = 0
waited (waits d ∷ ds) = suc (waited ds)
waited (e ∷ ds) = waited ds

-- A call that waits has used one attempt more.
abbrev Counted : Backoff → Backoff → Delay → Type 0
Counted b b' (waits d) =
    (b.current_attempts < b.max_attempts) × (b'.current_attempts ≡ b.current_attempts + 1)
Counted b b' stopped = Unit
Counted b b' panicked = Unit

Counted-intro :
    (b b' : Backoff) (d : Delay)
    → b.current_attempts < b.max_attempts
    → b'.current_attempts ≡ b.current_attempts + 1
    → Counted b b' d
Counted-intro b b' (waits d) h e = (h, e)
Counted-intro b b' stopped h e = tt
Counted-intro b b' panicked h e = tt

record Step (b b' : Backoff) (d : Delay) : Type 0 where
  within : Within b.max_delay_ms d
  same_delay : b'.max_delay_ms ≡ b.max_delay_ms
  same_attempts : b'.max_attempts ≡ b.max_attempts
  counted : Counted b b' d

next_delay_duration-Step :
    (gen : ℕ → ℕ) (b : Backoff)
    → InRange gen
    → Step b (next_delay_duration gen b).0 (next_delay_duration gen b).1
unfolding next_delay_duration
next_delay_duration-Step gen b g = go (leb b.max_attempts b.current_attempts) refl
  where
    go :
        (full : Bool)
        → leb b.max_attempts b.current_attempts ≡ full
        → Step b (unless_exhausted gen b full).0 (unless_exhausted gen b full).1
    go true e = record { within = tt; same_delay = refl; same_attempts = refl; counted = tt }
    go false e =
        let more : Backoff = record b { current_attempts = b.current_attempts + 1 } in
        let (w, d, m, a) = delay_of-Within gen b.kind more g in
        record {
          within = w;
          same_delay = d;
          same_attempts = m;
          counted =
              Counted-intro b (delay_of gen b.kind more).0 (delay_of gen b.kind more).1
                (ground arith) a;
        }

follow-Within :
    (limit k : ℕ) (b b' : Backoff) (d : Delay) (ds : List Delay)
    → Within limit d
    → Counted b b' d
    → b'.max_attempts ≡ b.max_attempts
    → All (Within limit) ds × (waited ds ≤ b'.max_attempts - b'.current_attempts)
    → All (Within limit) (follow d ds)
      × (waited (follow d ds) ≤ b.max_attempts - b.current_attempts)
follow-Within limit k b b' (waits d) ds w c m h = ((w, h.0), omega arith)
follow-Within limit k b b' stopped ds w c m h = ((tt, tt), omega arith)
follow-Within limit k b b' panicked ds w c m h = ((tt, tt), omega arith)

-- A run waits at most as often as attempts are left, and each time at most `max_delay_ms`, when the
-- generator draws from its range.
pub delays-Within :
    (gens : ℕ → ℕ → ℕ) (n : ℕ) (b : Backoff)
    → ((i : ℕ) → InRange (gens i))
    → All (Within b.max_delay_ms) (delays gens n b)
      × (waited (delays gens n b) ≤ b.max_attempts - b.current_attempts)
unfolding delays
delays-Within gens zero b g = (tt, omega arith)
delays-Within gens (suc n) b g =
    let (b', d) = next_delay_duration (gens n) b in
    let s : Step b b' d = next_delay_duration-Step (gens n) b (g n) in
    let (w, c) = delays-Within gens n b' g in
    follow-Within b.max_delay_ms n b b' d (delays gens n b') s.within s.counted s.same_attempts
      (subst (λ limit. All (Within limit) (delays gens n b')) s.same_delay w, c)
