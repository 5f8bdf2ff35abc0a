-- ===== src/RegionCache/Ttl.antt =====
-- src/region_cache.rs: the expiry of a cached region, in seconds since the epoch. All of the
-- code's `i64` values are at least 0 here, as the clock and the durations are. The generator of
-- random numbers is an argument.
use rust_tikv_client.Prelude.{
  ℕ, ◌+◌, ◌-◌, ◌^◌, ◌≤◌, min, ◌≡◌, refl, ◌⊎◌, inl, Bool, true, false, not, ◌&&◌, ◌==◌, ltb,
  if◌then◌else◌, List, [], ◌∷◌, arith,
}

pub record RegionCacheTtl : Type 0 where
  pub base_sec : ℕ
  pub jitter_sec : ℕ

abbrev pub i64_max : ℕ
i64_max = 2 ^ 63 - 1

-- `i64::try_from(secs).unwrap_or(i64::MAX)` of both durations.
unfoldable pub ttl_of_durations : ℕ → ℕ → RegionCacheTtl
ttl_of_durations base jitter = record {
  base_sec = min base i64_max;
  jitter_sec = min jitter i64_max;
}

abbrev pub is_enabled : RegionCacheTtl → Bool
is_enabled t = ltb 0 t.base_sec

abbrev pub saturating_add : ℕ → ℕ → ℕ
saturating_add a b = min (a + b) i64_max

-- The jitter is drawn from `0..jitter_sec` when that range is not empty.
abbrev pub jitter : (ℕ → ℕ) → ℕ → ℕ
jitter gen n = if ltb 0 n then gen n else 0

unfoldable pub next_ttl : (ℕ → ℕ) → RegionCacheTtl → ℕ → ℕ
next_ttl gen t now =
    if is_enabled t
    then saturating_add (saturating_add now t.base_sec) (jitter gen t.jitter_sec)
    else i64_max

-- The loop of `check_and_refresh`. Between the load of the cell and the exchange another thread
-- may store into it: `others` lists what is found in the cell at each exchange. An exchange that
-- finds another value than the one loaded fails, and the loop goes round. `new_ttl` is 0 until it
-- is drawn.
unfoldable pub refresh_loop : (ℕ → ℕ) → RegionCacheTtl → ℕ → ℕ → List ℕ → ℕ → ℕ × Bool
unfolding next_ttl
refresh_loop gen t now new_ttl [] ttl =
    if ltb ttl now
    then (ttl, false)
    else if ltb (saturating_add now t.base_sec) ttl
    then (ttl, true)
    else ((if new_ttl == 0 then next_ttl gen t now else new_ttl), true)
refresh_loop gen t now new_ttl (w ∷ others) ttl =
    let drawn = if new_ttl == 0 then next_ttl gen t now else new_ttl in
    let again = refresh_loop gen t now drawn others w in
    if ltb ttl now
    then (ttl, false)
    else if ltb (saturating_add now t.base_sec) ttl
    then (ttl, true)
    else if w == ttl
    then (drawn, true)
    else again

-- The cell afterwards, and whether the region is still valid.
unfoldable pub check_and_refresh : (ℕ → ℕ) → RegionCacheTtl → ℕ → List ℕ → ℕ → ℕ × Bool
unfolding refresh_loop
check_and_refresh gen t now others ttl =
    if not (is_enabled t) then (ttl, true) else refresh_loop gen t now 0 others ttl

next_ttl-le :
    (gen : ℕ → ℕ) (t : RegionCacheTtl) (now : ℕ) → now ≤ i64_max → now ≤ next_ttl gen t now
unfolding next_ttl
next_ttl-le gen t now h = ground arith

refresh_loop-alive :
    (gen : ℕ → ℕ) (t : RegionCacheTtl) (now new_ttl : ℕ) (others : List ℕ) (ttl : ℕ)
    → now ≤ i64_max
    → (new_ttl ≡ 0) ⊎ (now ≤ new_ttl)
    → (refresh_loop gen t now new_ttl others ttl).1 ≡ true
    → now ≤ (refresh_loop gen t now new_ttl others ttl).0
unfolding refresh_loop
refresh_loop-alive gen t now new_ttl [] ttl h n e = ground (arith, next_ttl-le gen t now h, n)
refresh_loop-alive gen t now new_ttl (w ∷ others) ttl h n e = ground (
  arith,
  next_ttl-le gen t now h,
  n,
  refresh_loop-alive gen t now (if new_ttl == 0 then next_ttl gen t now else new_ttl) others w h,
)

-- Whatever other threads store into the cell meanwhile, an entry that passes the check has an
-- expiry that is not in the past, when the expiry is enabled and the clock is an `i64`.
pub check_and_refresh-alive :
    (gen : ℕ → ℕ) (t : RegionCacheTtl) (now : ℕ) (others : List ℕ) (ttl : ℕ)
    → now ≤ i64_max
    → is_enabled t ≡ true
    → (check_and_refresh gen t now others ttl).1 ≡ true
    → now ≤ (check_and_refresh gen t now others ttl).0
unfolding check_and_refresh
check_and_refresh-alive gen t now others ttl h en e =
    ground (arith, refresh_loop-alive gen t now 0 others ttl h (inl refl))

-- With no other thread, the check refuses exactly an entry whose expiry, when enabled, is past.
pub check_and_refresh-valid :
    (gen : ℕ → ℕ) (t : RegionCacheTtl) (now ttl : ℕ)
    → (check_and_refresh gen t now [] ttl).1 ≡ not (is_enabled t && ltb ttl now)
unfolding check_and_refresh refresh_loop
check_and_refresh-valid gen t now ttl = ground arith
