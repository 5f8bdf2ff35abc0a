-- ===== src/Plan/Pass/Budget.antt =====
-- What one pass leaves of the backoff and of the attempts.
use rust_tikv_client.Prelude.{
  ℕ, ◌+◌, ◌-◌, ◌≤◌, ◌<◌, ◌≡◌, ◌≢◌, refl, Bool, true, false, ◌&&◌, ltb, leb, Option, if◌then◌else◌,
  if-elim, arith, ltb→lt,
}
use native.Mathlib.Decide.{dec_lt}
use rust_tikv_client.RegionCache.{RegionCache}
use rust_tikv_client.Backoff.{
  Backoff, BackoffKind, Delay, waits, stopped, panicked, next_delay_duration, delay_of,
  unless_exhausted, shift_after, store_delay,
}
use rust_tikv_client.Region.{RegionVerId, region_id, get_store_id}
use rust_tikv_client.Routing.{is_replica_read_mode, clear_pinned_store_for_region}
use rust_tikv_client.Plan.{World, State, RegionStore, ErrorPb, PlanError, ok, err}
use rust_tikv_client.Plan.RegionError.{Handled, handle_region_error}
use rust_tikv_client.Plan.Pass.{
  Next, done, again, panic, set_routing, non_witness_peers, max_retries, Passed, after_delay,
  handle_other_error, back_off, busy_store, fast_retry_or_back_off, after_handled, try_another,
  pin_or_clear, not_ready, on_region_error,
}

-- A delay is given only while attempts are left, and uses one up.
abbrev pub Advances : Backoff → Backoff × Delay → Type 0
Advances b (b', waits d) =
    (b.current_attempts < b.max_attempts)
    × (b'.current_attempts ≡ b.current_attempts + 1)
    × (b'.max_attempts ≡ b.max_attempts)
Advances b (b', stopped) = Unit {0}
Advances b (b', panicked) = Unit {0}

-- The same, once the attempt is counted.
abbrev Counted : Backoff → Backoff × Delay → Type 0
Counted b (b', waits d) =
    (b'.current_attempts ≡ b.current_attempts) × (b'.max_attempts ≡ b.max_attempts)
Counted b (b', stopped) = Unit {0}
Counted b (b', panicked) = Unit {0}

shift_after-Counted : (b : Backoff) (d : Delay) → Counted b (shift_after b d)
shift_after-Counted b (waits d) = (refl, refl)
shift_after-Counted b stopped = tt
shift_after-Counted b panicked = tt

store_delay-Counted : (b : Backoff) (d : Delay) → Counted b (store_delay b d)
store_delay-Counted b (waits d) = (refl, refl)
store_delay-Counted b stopped = tt
store_delay-Counted b panicked = tt

delay_of-Counted : (gen : ℕ → ℕ) (k : BackoffKind) (b : Backoff) → Counted b (delay_of gen k b)
unfolding delay_of
delay_of-Counted gen BackoffKind.no_delay b = tt
delay_of-Counted gen BackoffKind.no_jitter b = (refl, refl)
delay_of-Counted gen BackoffKind.full_jitter b = shift_after-Counted b _
delay_of-Counted gen BackoffKind.equal_jitter b = shift_after-Counted b _
delay_of-Counted gen BackoffKind.decorrelated_jitter b = store_delay-Counted b _

Counted-Advances :
    (b : Backoff) (r : Backoff × Delay)
    → b.current_attempts < b.max_attempts
    → Counted (record b { current_attempts = b.current_attempts + 1 }) r
    → Advances b r
Counted-Advances b (b', waits d) l c = (l, c.0, c.1)
Counted-Advances b (b', stopped) l c = tt
Counted-Advances b (b', panicked) l c = tt

unless_exhausted-Advances :
    (gen : ℕ → ℕ) (b : Backoff) (t : Bool)
    → leb b.max_attempts b.current_attempts ≡ t
    → Advances b (unless_exhausted gen b t)
unless_exhausted-Advances gen b true e = tt
unless_exhausted-Advances gen b false e =
    let b' : Backoff = record b { current_attempts = b.current_attempts + 1 } in
    Counted-Advances b (delay_of gen b.kind b') (ground (arith, e)) (delay_of-Counted gen b.kind b')

pub next_delay_duration-Advances :
    (gen : ℕ → ℕ) (b : Backoff) → Advances b (next_delay_duration gen b)
unfolding next_delay_duration
next_delay_duration-Advances gen b =
    unless_exhausted-Advances gen b (leb b.max_attempts b.current_attempts) refl

-- The attempts below `n`, and those that the backoff has left.
abbrev pub left : ℕ → Backoff → ℕ → ℕ
left n b attempt = (n - attempt) + (b.max_attempts - b.current_attempts)

-- A retry has less left.
abbrev pub Falls : {P A : Type 0} → ℕ → ℕ → Next P A → Type 0
Falls n k (done r) = Unit {0}
Falls n k (again plan b attempt) = left n b attempt < k
Falls n k panic = Unit {0}

and_last : (a b c d : Bool) → (a && b && c && d) ≡ true → d ≡ true
and_last a b c d h = ground (arith, h)

module _ {P A : Type 0} (w : World P A) (n : ℕ) where
  after_delay-Falls :
      (s : State) (plan : P) (a attempt : ℕ) (e : PlanError) (b : Backoff) (r : Backoff × Delay)
      → a ≤ attempt
      → Advances b r
      → Falls n (left n b a) (after_delay w s plan attempt e r).1
  after_delay-Falls s plan a attempt e b (b', waits d) l h = omega arith
  after_delay-Falls s plan a attempt e b (b', stopped) l h = tt
  after_delay-Falls s plan a attempt e b (b', panicked) l h = tt

  pub handle_other_error-Falls :
      (s : State) (plan : P) (v : RegionVerId) (store : Option ℕ) (b : Backoff) (a attempt : ℕ)
      (e : PlanError)
      → a ≤ attempt
      → Falls n (left n b a) (handle_other_error w s plan v store b attempt e).1
  unfolding handle_other_error
  handle_other_error-Falls s plan v store b a attempt e l =
      after_delay-Falls _ plan a (attempt + 1) e b (next_delay_duration (w.gen s.ticks) b)
        (omega arith) (next_delay_duration-Advances (w.gen s.ticks) b)

  module _ (plan : P) (b : Backoff) (rs : RegionStore) (e : ErrorPb) where
    abbrev Low : Passed w → Type 0
    Low r = Falls n (left n b rs.attempt) r.1

    back_off-Falls : (s : State) → Low (back_off w s plan b rs e)
    back_off-Falls s =
        after_delay-Falls s plan rs.attempt (rs.attempt + 1) (PlanError.region_error e) b
          (next_delay_duration (w.gen s.ticks) b) (omega arith)
          (next_delay_duration-Advances (w.gen s.ticks) b)

    abbrev peers : ℕ
    peers = non_witness_peers rs.region_with_leader.region.peers

    fast_retry-Falls : (s : State) → peers ≤ n → Low (fast_retry_or_back_off w s plan b rs e)
    fast_retry-Falls s h =
        if-elim Low
          (is_replica_read_mode s.routing
            && e.server_is_busy
            && ltb 1 peers
            && ltb (rs.attempt + 1) peers)
          (
            set_routing s (busy_store w s (get_store_id rs.region_with_leader)),
            again plan b (rs.attempt + 1),
          )
          (back_off w s plan b rs e)
          (λ t.
            let l : rs.attempt + 1 < peers = ltb→lt _ _ (
              and_last (is_replica_read_mode s.routing) e.server_is_busy (ltb 1 peers)
                (ltb (rs.attempt + 1) peers) t) in
            omega arith)
          (λ _. back_off-Falls s)

    after_handled-Falls :
        (s : State) (h : Handled)
        → peers ≤ n
        → (n ≤ rs.attempt → h.1 ≢ ok true)
        → Low (after_handled w s plan b rs e h)
    after_handled-Falls s (c, err x) p u = tt
    after_handled-Falls s (c, ok true) p u = elim (dec_lt rs.attempt n) [
      | yes l ↦ omega arith
      | no l ↦ absurd (u (omega arith) refl)
    ]
    after_handled-Falls s (c, ok false) p u = fast_retry-Falls (record s { cache = c }) p

    try_another-Falls : (s : State) → peers ≤ n → Low (try_another w s plan b rs e)
    try_another-Falls s p =
        if-elim Low (leb peers (rs.attempt + 1)) _ (s, again plan b (rs.attempt + 1)) (λ _. tt)
          (λ f. ground (arith, f, p))

    not_ready-Falls : (s : State) → 120 ≤ n → Low (not_ready w s plan b rs e)
    not_ready-Falls s l =
        if-elim Low (leb max_retries rs.attempt) (s, done (err (PlanError.region_error e))) _
          (λ _. tt) (λ f. let early : rs.attempt < 120 = ground (arith, f) in omega arith)

    pub on_region_error-Falls :
        (s : State)
        → 120 ≤ n
        → peers ≤ n
        → ((gen : ℕ → ℕ) (now : ℕ) (c : RegionCache)
            → n ≤ rs.attempt
            → (handle_region_error gen now rs.region_with_leader e c).1 ≢ ok true)
        → Low (on_region_error w s plan b rs e)
    unfolding on_region_error
    on_region_error-Falls s l p u =
        let pinned = set_routing s (pin_or_clear w rs e s.routing) in
        let cleared =
          set_routing s
            (clear_pinned_store_for_region (region_id rs.region_with_leader) pinned.routing) in
        let handled =
          handle_region_error (w.gen s.ticks) (w.now_epoch_sec s.ticks) rs.region_with_leader e
            pinned.cache in
        let others =
          if is_replica_read_mode s.routing && e.stale_command
          then try_another w cleared plan b rs e
          else after_handled w pinned plan b rs e handled in
        if-elim Low (e.data_is_not_ready && rs.stale_read) (not_ready w s plan b rs e) others
          (λ _. not_ready-Falls s l)
          (λ _.
            if-elim Low (is_replica_read_mode s.routing && e.stale_command)
              (try_another w cleared plan b rs e) (after_handled w pinned plan b rs e handled)
              (λ _. try_another-Falls cleared p)
              (λ _.
                after_handled-Falls pinned handled p
                  (u (w.gen s.ticks) (w.now_epoch_sec s.ticks) pinned.cache)))
