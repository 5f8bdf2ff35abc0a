-- ===== src/Backoffer.antt =====
-- src/backoffer.rs: the backoff with a budget for the total sleep. A configuration's name is a
-- number, as only equality of names matters. A context is the chain of its own number and those of
-- its ancestors, and `canceled` says which are canceled. The generator of random numbers is an
-- argument: `gen n` is what `gen_range(0..n)` draws.
mod Config
pub mod Sleep
pub mod Budget
mod Tests
unfoldable pub use Config.*
use rust_tikv_client.Prelude.{
  ℕ, ◌+◌, ◌-◌, ◌*◌, ◌/◌, ◌%◌, ◌^◌, min, max, Bool, true, false, not, ◌&&◌, ◌||◌, ◌==◌, ltb, leb,
  Option, none, some, List, [], ◌∷◌, ◌++◌, if◌then◌else◌,
}
use rust_tikv_client.Order.{nat_ord}
use rust_tikv_client.OrdMap
use rust_tikv_client.OrdMap.{OrdMap}

pub record Backoffer : Type 0 where
  pub ctx : List ℕ
  pub max_sleep_ms : ℕ
  pub total_sleep_ms : ℕ
  pub excluded_sleep_ms : ℕ
  pub backoff_lock_fast_ms : ℕ
  pub noop : Bool
  pub configs : List BackoffConfig
  pub backoff_sleep_ms : OrdMap ℕ ℕ
  pub backoff_times : OrdMap ℕ ℕ
  pub fns : OrdMap ℕ BackoffFnState

unfoldable pub new_with_vars : List ℕ → ℕ → ℕ → ℕ → Backoffer
new_with_vars ctx most lock_fast weight = record {
  ctx = ctx;
  max_sleep_ms = saturating_mul most weight;
  total_sleep_ms = 0;
  excluded_sleep_ms = 0;
  backoff_lock_fast_ms = lock_fast;
  noop = false;
  configs = [];
  backoff_sleep_ms = [];
  backoff_times = [];
  fns = [];
}

-- `clone`, and `fork` with the number of the child context.
unfoldable pub clone : Backoffer → Backoffer
clone b = record b { fns = [] }

unfoldable pub fork : ℕ → Backoffer → Backoffer
fork child b = record b { ctx = child ∷ b.ctx; fns = [] }

abbrev pub any_canceled : (ℕ → Bool) → List ℕ → Bool
any_canceled canceled [] = false
any_canceled canceled (c ∷ cs) = canceled c || any_canceled canceled cs

abbrev pub mem : ℕ → List ℕ → Bool
mem n [] = false
mem n (c ∷ cs) = n == c || mem n cs

unfoldable pub strict_has_ancestor : List ℕ → List ℕ → Bool
strict_has_ancestor (c ∷ parents) (a ∷ rest) = mem a parents
strict_has_ancestor [] chain = false
strict_has_ancestor (c ∷ parents) [] = false

unfoldable pub update_using_forked : Backoffer → Backoffer → Backoffer
unfolding strict_has_ancestor
update_using_forked b forked =
    if strict_has_ancestor forked.ctx b.ctx
    then record b {
      total_sleep_ms = forked.total_sleep_ms;
      excluded_sleep_ms = forked.excluded_sleep_ms;
      backoff_sleep_ms = forked.backoff_sleep_ms;
      backoff_times = forked.backoff_times;
    }
    else b

-- The longest sleep over the names that are not excluded; a tie keeps the earlier one. The code's
-- order is that of a `HashMap`, which is any order; here it is that of the names.
abbrev pub longest : Option (ℕ × ℕ) → List (ℕ × ℕ) → Option (ℕ × ℕ)
longest best [] = best
longest best ((name, sleep) ∷ es) =
    longest
      (elim (excluded_sleep_limit_ms name) [
        | some limit ↦ best
        | none ↦ elim best [
          | none ↦ some (name, sleep)
          | some p ↦ if ltb p.1 sleep then some (name, sleep) else some p
        ]
      ])
      es

abbrev pub find_config : ℕ → List BackoffConfig → Option BackoffConfig
find_config name [] = none
find_config name (c ∷ cs) =
    let rest = find_config name cs in if c.name == name then some c else rest

unfoldable pub longest_sleep_cfg : Backoffer → Option BackoffConfig
unfolding excluded_sleep_limit_ms
longest_sleep_cfg b = elim (longest none b.backoff_sleep_ms) [
  | none ↦ none
  | some p ↦ find_config p.0 b.configs
]

pub data Outcome : Type 0 where
  slept canceled_error other_error : Outcome
  max_sleep_exceeded : BackoffErrorKind → Outcome

abbrev pub excluded_exceeded : Backoffer → Option ℕ → Bool
excluded_exceeded b none = false
excluded_exceeded b (some limit) =
    leb limit b.excluded_sleep_ms && leb b.max_sleep_ms b.excluded_sleep_ms

-- The budget's test; the difference cannot underflow, which is proved.
abbrev pub exceeded : Backoffer → BackoffConfig → Bool
exceeded b cfg =
    ltb 0 b.max_sleep_ms
    && (leb b.max_sleep_ms (b.total_sleep_ms - b.excluded_sleep_ms)
        || excluded_exceeded b (excluded_sleep_limit_ms cfg.name))

abbrev pub exceeded_error : Option BackoffConfig → Outcome
exceeded_error none = other_error
exceeded_error (some c) = max_sleep_exceeded c.err_kind

abbrev pub or_zero : Option ℕ → ℕ
or_zero none = 0
or_zero (some n) = n

abbrev pub state_or_new : Backoffer → BackoffConfig → Option BackoffFnState → BackoffFnState
state_or_new b cfg none =
    new_state
      (if cfg.name == txn_lock_fast_name then b.backoff_lock_fast_ms else cfg.fn_cfg.base_ms)
      cfg.fn_cfg.cap_ms cfg.fn_cfg.jitter
state_or_new b cfg (some st) = st

abbrev pub if_excluded : Option ℕ → ℕ → ℕ
if_excluded none n = 0
if_excluded (some limit) n = n

abbrev pub record_sleep : Backoffer → BackoffConfig → BackoffFnState × ℕ → Backoffer
record_sleep b cfg (st, real) = record b {
  total_sleep_ms = (b.total_sleep_ms + real) % 2 ^ 64;
  excluded_sleep_ms =
      (b.excluded_sleep_ms + if_excluded (excluded_sleep_limit_ms cfg.name) real) % 2 ^ 64;
  configs = b.configs ++ cfg ∷ [];
  backoff_sleep_ms =
      OrdMap.insert cfg.name ((or_zero (OrdMap.get cfg.name b.backoff_sleep_ms) + real) % 2 ^ 64)
        b.backoff_sleep_ms;
  backoff_times =
      OrdMap.insert cfg.name ((or_zero (OrdMap.get cfg.name b.backoff_times) + 1) % 2 ^ 64)
        b.backoff_times;
  fns = OrdMap.insert cfg.name st b.fns;
}

unfoldable pub backoff :
    (ℕ → ℕ) → (ℕ → Bool) → BackoffConfig → Option ℕ → Backoffer → Backoffer × Outcome
unfolding excluded_sleep_limit_ms longest_sleep_cfg backoff_ms new_state
backoff gen canceled cfg limit b =
    if any_canceled canceled b.ctx
    then (b, canceled_error)
    else if b.noop
    then (b, other_error)
    else if exceeded b cfg
    then (b, exceeded_error (longest_sleep_cfg b))
    else (
      record_sleep b cfg (backoff_ms gen limit (state_or_new b cfg (OrdMap.get cfg.name b.fns))),
      slept,
    )
