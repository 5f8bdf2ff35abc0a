-- ===== src/Backoffer/Sleep.antt =====
-- One sleep lies within the cap of its configuration.
use rust_tikv_client.Prelude.{
  ℕ, zero, suc, ◌*◌, ◌/◌, ◌^◌, ◌≤◌, ◌<◌, ltb, Option, none, some, arith, Bool-cases, inl, inr,
}
use native.Mathlib.Nat.{two-pow-succ}
use rust_tikv_client.Order.{nat_ord}
use rust_tikv_client.Backoffer.{
  Jitter, no_jitter, full, equal, decorr, BackoffFnState, expo, sleep_of, at_most,
}

expo-le : (base most n : ℕ) → expo base most n ≤ most
unfolding expo
expo-le base most n = omega arith

-- `gen_range` draws from its range.
abbrev pub InRange : (ℕ → ℕ) → Type 0
InRange gen = (n : ℕ) → 0 < n → gen n < n

pub record IsState (c : ℕ) (st : BackoffFnState) : Type 0 where
  pub base : 2 ≤ st.base_ms
  pub order : st.base_ms ≤ st.cap_ms
  pub bound : st.cap_ms ≤ c

pub expo-pos : (base most n : ℕ) → 2 ≤ base → 2 ≤ most → 2 ≤ expo base most n
unfolding expo
expo-pos base most n h g = elim (Bool-cases (ltb n 64)) [
  | inl e ↦ rw e (omega (arith, pow-pos n, le-product base n h))
  | inr e ↦ rw e (omega arith)
]
  where
    pow-pos : (k : ℕ) → 1 ≤ 2 ^ k
    pow-pos zero = omega arith
    pow-pos (suc k) = omega (arith, pow-pos k, two-pow-succ k)

    le-product : (a k : ℕ) → 2 ≤ a → 2 ≤ a * 2 ^ k
    le-product a k p = grind (arith, pow-pos k)

pub sleep_of-le :
    (gen : ℕ → ℕ) (j : Jitter) (st : BackoffFnState) (c : ℕ)
    → InRange gen
    → IsState c st
    → sleep_of gen j st ≤ c
unfolding sleep_of
sleep_of-le gen no_jitter st c g h =
    omega (arith, h.bound, expo-le st.base_ms st.cap_ms st.attempts)
sleep_of-le gen full st c g h =
    let v = expo st.base_ms st.cap_ms st.attempts in
    let p = expo-pos st.base_ms st.cap_ms st.attempts h.base (omega (arith, h.base, h.order)) in
    omega (arith, h.bound, expo-le st.base_ms st.cap_ms st.attempts, g v (omega (arith, p)))
sleep_of-le gen equal st c g h =
    let v = expo st.base_ms st.cap_ms st.attempts in
    let p = expo-pos st.base_ms st.cap_ms st.attempts h.base (omega (arith, h.base, h.order)) in
    omega (arith, h.bound, expo-le st.base_ms st.cap_ms st.attempts, g (v / 2) (omega (arith, p)))
sleep_of-le gen decorr st c g h = omega (arith, h.bound)

pub at_most-le : (o : Option ℕ) (n c : ℕ) → n ≤ c → at_most o n ≤ c
at_most-le none n c h = h
at_most-le (some m) n c h = omega arith
