-- ===== src/Backoffer/Budget.antt =====
-- The budget of a backoffer.
use rust_tikv_client.Prelude.{
  ℕ, All, ◌%◌, ◌+◌, ◌-◌, ◌*◌, ◌^◌, ◌≤◌, ◌<◌, max, ◌≡◌, refl, subst, Bool, false, ◌==◌, Option, none,
  some, List, [], ◌∷◌, arith, Bool-cases, if-elim, inl, inr,
}
use rust_tikv_client.Order.{nat_ord}
use rust_tikv_client.OrdMap
use rust_tikv_client.OrdMap.{OrdMap, insert-some, get}
use rust_tikv_client.Backoffer.{
  BackoffConfig, BackoffFnState, Backoffer, new_state, sleep_of, backoff_ms, at_most, backoff,
  exceeded, record_sleep, state_or_new, any_canceled, if_excluded, excluded_sleep_limit_ms,
  new_with_vars, saturating_mul, longest_sleep_cfg, exceeded_error, Outcome, canceled_error,
  other_error,
}
use rust_tikv_client.Backoffer.Sleep.{InRange, IsState, sleep_of-le, at_most-le}

-- The sleep that counts lies within the budget and one sleep more, the excluded sleep is part of
-- the total, and every state of a configuration sleeps at most `c`.
pub record IsWithin (c : ℕ) (b : Backoffer) : Type 0 where
  pub part : b.excluded_sleep_ms ≤ b.total_sleep_ms
  pub counted : b.total_sleep_ms - b.excluded_sleep_ms ≤ b.max_sleep_ms + c
  pub excluded : b.excluded_sleep_ms ≤ max b.max_sleep_ms 600000 + c
  pub states : (n : ℕ) (st : BackoffFnState) → OrdMap.get n b.fns ≡ some st → IsState c st

-- The sleeps fit in a `u64`.
abbrev pub Fits : ℕ → Backoffer → Type 0
Fits c b = 2 * b.max_sleep_ms + 2 * c + 600000 < 2 ^ 64

sums :
    (most total excl real c : ℕ) (name : ℕ)
    → 2 * most + 2 * c + 600000 < 2 ^ 64
    → excl ≤ total
    → real ≤ c
    → total - excl < most
    → (name ≡ 2 → excl < max most 600000)
    → excl ≤ max most 600000 + c
    → (let t = (total + real) % 2 ^ 64 in
        let e = (excl + if_excluded (excluded_sleep_limit_ms name) real) % 2 ^ 64 in
        (e ≤ t) × (t - e ≤ most + c) × (e ≤ max most 600000 + c))
unfolding excluded_sleep_limit_ms
sums most total excl real c name f p r n x l = elim (Bool-cases (name == 2)) [
  | inl e ↦ rw e (ground (arith, x, e))
  | inr e ↦ rw e (ground arith)
]

not_exceeded :
    (b : Backoffer) (cfg : BackoffConfig)
    → 0 < b.max_sleep_ms
    → exceeded b cfg ≡ false
    → (b.total_sleep_ms - b.excluded_sleep_ms < b.max_sleep_ms)
      × (cfg.name ≡ 2 → b.excluded_sleep_ms < max b.max_sleep_ms 600000)
unfolding excluded_sleep_limit_ms
not_exceeded b cfg h e = (ground (arith, h, e), λ n. ground (arith, h, e, n))

state_or_new-IsState :
    (c : ℕ) (b : Backoffer) (cfg : BackoffConfig) (o : Option BackoffFnState)
    → 2 ≤ c
    → b.backoff_lock_fast_ms ≤ c
    → cfg.fn_cfg.base_ms ≤ c
    → cfg.fn_cfg.cap_ms ≤ c
    → ((st : BackoffFnState) → o ≡ some st → IsState c st)
    → IsState c (state_or_new b cfg o)
unfolding new_state
state_or_new-IsState c b cfg none h l p q f = record {
  base = ground arith;
  order = ground arith;
  bound = ground arith;
}
state_or_new-IsState c b cfg (some st) h l p q f = f st refl

-- A request for a sleep, by the generator, what is canceled, the configuration and a limit.
pub record Call : Type 0 where
  pub gen : ℕ → ℕ
  pub canceled : ℕ → Bool
  pub cfg : BackoffConfig
  pub limit : Option ℕ

abbrev pub CallFits : ℕ → Call → Type 0
CallFits c call = InRange call.gen × (call.cfg.fn_cfg.base_ms ≤ c) × (call.cfg.fn_cfg.cap_ms ≤ c)

-- The settings do not change.
abbrev Same : Backoffer → Backoffer → Type 0
Same b b' = (b'.max_sleep_ms ≡ b.max_sleep_ms) × (b'.backoff_lock_fast_ms ≡ b.backoff_lock_fast_ms)

slept-IsWithin :
    (c : ℕ) (call : Call) (b : Backoffer)
    → 2 ≤ c
    → CallFits c call
    → b.backoff_lock_fast_ms ≤ c
    → 0 < b.max_sleep_ms
    → Fits c b
    → exceeded b call.cfg ≡ false
    → IsWithin c b
    → IsWithin c (
        record_sleep b call.cfg (
          backoff_ms call.gen call.limit
            (state_or_new b call.cfg (OrdMap.get call.cfg.name b.fns))))
unfolding backoff_ms
slept-IsWithin c call b two f l pos fits e w =
    let st = state_or_new b call.cfg (OrdMap.get call.cfg.name b.fns) in
    let ok : IsState c st =
      state_or_new-IsState c b call.cfg (OrdMap.get call.cfg.name b.fns) two l f.1 f.2
        (λ x. w.states call.cfg.name x) in
    let sleep = sleep_of call.gen st.jitter st in
    let le = at_most-le call.limit sleep c (sleep_of-le call.gen st.jitter st c f.0 ok) in
    let (net, ex) = not_exceeded b call.cfg pos e in
    let (p, q, r) =
      sums b.max_sleep_ms b.total_sleep_ms b.excluded_sleep_ms (at_most call.limit sleep) c
        call.cfg.name fits w.part le net ex w.excluded in
    record {
      part = p;
      counted = q;
      excluded = r;
      states = λ n x h.
          elim (insert-some call.cfg.name n
            (record st { attempts = (st.attempts + 1) % 2 ^ 32; last_sleep_ms = sleep }) x b.fns
            h) [
              | inl (i, same) ↦
                  subst (IsState c) same
                    (record { base = ok.base; order = ok.order; bound = ok.bound })
              | inr (i, old) ↦ w.states n x old
            ];
    }

unfoldable pub backoff_all : List Call → Backoffer → Backoffer
unfolding backoff
backoff_all [] b = b
backoff_all (c ∷ cs) b = backoff_all cs (backoff c.gen c.canceled c.cfg c.limit b).0

backoff-IsWithin :
    (c : ℕ) (call : Call) (b : Backoffer)
    → 2 ≤ c
    → CallFits c call
    → b.backoff_lock_fast_ms ≤ c
    → 0 < b.max_sleep_ms
    → Fits c b
    → IsWithin c b
    → IsWithin c (backoff call.gen call.canceled call.cfg call.limit b).0
      × Same b (backoff call.gen call.canceled call.cfg call.limit b).0
unfolding backoff
backoff-IsWithin c call b two f l pos fits w =
    if-elim P (any_canceled call.canceled b.ctx) (b, canceled_error) _ (λ x. kept)
      (λ x.
        if-elim P b.noop (b, other_error) _ (λ y. kept)
          (λ y.
            if-elim P (exceeded b call.cfg) (b, exceeded_error (longest_sleep_cfg b)) _ (λ z. kept)
              (λ z. (slept-IsWithin c call b two f l pos fits z w, (refl, refl)))))
  where
    P : Backoffer × Outcome → Type 0
    P p = IsWithin c p.0 × Same b p.0

    kept : IsWithin c b × Same b b
    kept = (w, (refl, refl))

backoff_all-IsWithin :
    (c : ℕ) (calls : List Call) (b : Backoffer)
    → 2 ≤ c
    → All (CallFits c) calls
    → b.backoff_lock_fast_ms ≤ c
    → 0 < b.max_sleep_ms
    → Fits c b
    → IsWithin c b
    → IsWithin c (backoff_all calls b)
unfolding backoff_all
backoff_all-IsWithin c [] b two f l pos fits w = w
backoff_all-IsWithin c (call ∷ calls) b two f l pos fits w =
    let (w', (m, k)) = backoff-IsWithin c call b two f.0 l pos fits w in
    backoff_all-IsWithin c calls (backoff call.gen call.canceled call.cfg call.limit b).0 two f.1
      (omega (arith, k, l)) (omega (arith, m, pos)) (omega (arith, m, fits)) w'

new_with_vars-IsWithin :
    (c : ℕ) (ctx : List ℕ) (most lock_fast weight : ℕ)
    → IsWithin c (new_with_vars ctx most lock_fast weight)
unfolding new_with_vars get
new_with_vars-IsWithin c ctx most lock_fast weight = record {
  part = omega arith;
  counted = omega arith;
  excluded = omega arith;
  states = λ n st h. elim (absent n st h) [ ];
}
  where
    absent :
        (n : ℕ) (st : BackoffFnState)
        → ◌≡◌ {A = Option BackoffFnState} (OrdMap.get n []) (some st)
        → ⊥
    absent n st h = ground (arith, h)

-- However often a new backoffer with a budget is asked for a sleep, with configurations of at most
-- `c` milliseconds and sums that fit in a `u64`: the excluded sleep is part of the total, so that
-- their difference does not underflow; the difference exceeds the budget by at most `c`; and the
-- excluded sleep exceeds the larger of its own limit and the budget by at most `c`.
pub backoff_all-budget :
    (c : ℕ) (calls : List Call) (ctx : List ℕ) (most lock_fast weight : ℕ)
    → 2 ≤ c
    → All (CallFits c) calls
    → lock_fast ≤ c
    → 0 < saturating_mul most weight
    → 2 * saturating_mul most weight + 2 * c + 600000 < 2 ^ 64
    → (let b = backoff_all calls (new_with_vars ctx most lock_fast weight) in
        (b.excluded_sleep_ms ≤ b.total_sleep_ms)
        × (b.total_sleep_ms - b.excluded_sleep_ms ≤ b.max_sleep_ms + c)
        × (b.excluded_sleep_ms ≤ max b.max_sleep_ms 600000 + c))
unfolding new_with_vars
backoff_all-budget c calls ctx most lock_fast weight two f l pos fits =
    let w =
      backoff_all-IsWithin c calls (new_with_vars ctx most lock_fast weight) two f l pos fits
        (new_with_vars-IsWithin c ctx most lock_fast weight) in
    (w.part, w.counted, w.excluded)
