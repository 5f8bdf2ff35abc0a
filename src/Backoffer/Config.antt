-- ===== src/Backoffer/Config.antt =====
-- src/backoffer.rs: the configurations of a backoff, and the state that each has in a backoffer.
use rust_tikv_client.Prelude.{
  ℕ, ◌+◌, ◌-◌, ◌*◌, ◌/◌, ◌%◌, ◌^◌, min, max, ◌==◌, ltb, Option, none, some, if◌then◌else◌,
}

pub data Jitter : Type 0 where
  no_jitter full equal decorr : Jitter

pub data BackoffErrorKind : Type 0 where
  tikv_server_timeout resolve_lock_timeout region_unavailable region_not_initialized :
      BackoffErrorKind
  region_recovery_in_progress tikv_server_busy is_witness : BackoffErrorKind

pub record BackoffFnCfg : Type 0 where
  pub base_ms : ℕ
  pub cap_ms : ℕ
  pub jitter : Jitter

pub record BackoffConfig : Type 0 where
  pub name : ℕ
  pub fn_cfg : BackoffFnCfg
  pub err_kind : BackoffErrorKind

abbrev config : ℕ → ℕ → ℕ → Jitter → BackoffErrorKind → BackoffConfig
config n base most j kind = record {
  name = n;
  fn_cfg = record { base_ms = base; cap_ms = most; jitter = j };
  err_kind = kind;
}

unfoldable pub bo_tikv_rpc : BackoffConfig
bo_tikv_rpc = config 0 100 2000 equal tikv_server_timeout

unfoldable pub bo_region_miss : BackoffConfig
bo_region_miss = config 1 2 500 no_jitter region_unavailable

unfoldable pub bo_tikv_server_busy : BackoffConfig
bo_tikv_server_busy = config 2 2000 10000 equal tikv_server_busy

unfoldable pub bo_txn_lock_fast : BackoffConfig
bo_txn_lock_fast = config 3 2 3000 equal resolve_lock_timeout

unfoldable pub bo_region_recovery_in_progress : BackoffConfig
bo_region_recovery_in_progress = config 4 100 10000 equal region_recovery_in_progress

unfoldable pub bo_txn_not_found : BackoffConfig
bo_txn_not_found = config 5 2 500 no_jitter resolve_lock_timeout

unfoldable pub bo_max_region_not_initialized : BackoffConfig
bo_max_region_not_initialized = config 6 2 1000 no_jitter region_not_initialized

unfoldable pub bo_is_witness : BackoffConfig
bo_is_witness = config 7 1000 10000 equal is_witness

abbrev pub txn_lock_fast_name : ℕ
txn_lock_fast_name = 3

abbrev pub tikv_server_busy_name : ℕ
tikv_server_busy_name = 2

-- The limit is a variable that only the tests set.
abbrev pub tikv_server_busy_excluded_max_ms : ℕ
tikv_server_busy_excluded_max_ms = 600000

unfoldable pub excluded_sleep_limit_ms : ℕ → Option ℕ
excluded_sleep_limit_ms name =
    if name == tikv_server_busy_name then some tikv_server_busy_excluded_max_ms else none

abbrev pub u64_max : ℕ
u64_max = 2 ^ 64 - 1

abbrev pub saturating_mul : ℕ → ℕ → ℕ
saturating_mul a b = min (a * b) u64_max

-- `1u64.checked_shl(attempts).unwrap_or(u64::MAX)`, multiplied and capped.
unfoldable pub expo : ℕ → ℕ → ℕ → ℕ
expo base most attempts =
    min (saturating_mul base (if ltb attempts 64 then 2 ^ attempts else u64_max)) most

pub record BackoffFnState : Type 0 where
  pub base_ms : ℕ
  pub cap_ms : ℕ
  pub jitter : Jitter
  pub attempts : ℕ
  pub last_sleep_ms : ℕ

unfoldable pub new_state : ℕ → ℕ → Jitter → BackoffFnState
new_state base most j = record {
  base_ms = max base 2;
  cap_ms = max most (max base 2);
  jitter = j;
  attempts = 0;
  last_sleep_ms = max base 2;
}

unfoldable pub sleep_of : (ℕ → ℕ) → Jitter → BackoffFnState → ℕ
unfolding expo
sleep_of gen no_jitter st = expo st.base_ms st.cap_ms st.attempts
sleep_of gen full st = gen (expo st.base_ms st.cap_ms st.attempts)
sleep_of gen equal st = let half = expo st.base_ms st.cap_ms st.attempts / 2 in half + gen half
sleep_of gen decorr st =
    min (st.base_ms + gen (max (saturating_mul st.last_sleep_ms 3 - st.base_ms) 1)) st.cap_ms

abbrev pub at_most : Option ℕ → ℕ → ℕ
at_most none n = n
at_most (some limit) n = min n limit

unfoldable pub backoff_ms : (ℕ → ℕ) → Option ℕ → BackoffFnState → BackoffFnState × ℕ
unfolding sleep_of
backoff_ms gen limit st =
    let sleep = sleep_of gen st.jitter st in
    (
      record st { attempts = (st.attempts + 1) % 2 ^ 32; last_sleep_ms = sleep },
      at_most limit sleep,
    )
