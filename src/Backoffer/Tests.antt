-- ===== src/Backoffer/Tests.antt =====
-- Runs of the backoffer, and a witness of its theorem.
use rust_tikv_client.Prelude.{
  ℕ, ◌+◌, ◌-◌, ◌≤◌, max, ◌≡◌, refl, Bool, false, none, List, [], ◌∷◌, arith,
}
use rust_tikv_client.Order.{nat_ord}
use rust_tikv_client.OrdMap.{get, insert}
use rust_tikv_client.Backoffer.{
  Backoffer, backoff, backoff_ms, sleep_of, expo, new_state, new_with_vars, bo_region_miss,
  bo_tikv_server_busy, excluded_sleep_limit_ms, longest_sleep_cfg,
}
use rust_tikv_client.Backoffer.Sleep.{InRange}
use rust_tikv_client.Backoffer.Budget.{Call, backoff_all, backoff_all-budget}

abbrev least : ℕ → ℕ
least n = 0

least-InRange : InRange least
least-InRange n h = h

abbrev live : ℕ → Bool
live c = false

abbrev fresh : Backoffer
fresh = new_with_vars (0 ∷ []) 3 10 2

abbrev miss : Call
miss = record { gen = least; canceled = live; cfg = bo_region_miss; limit = none }

abbrev busy : Call
busy = record { gen = least; canceled = live; cfg = bo_tikv_server_busy; limit = none }

abbrev calls : List Call
calls = miss ∷ busy ∷ miss ∷ miss ∷ []

-- The budget of 6 allows two sleeps of 2 and 4 milliseconds; the server's busy sleep is excluded.
run_total : (backoff_all calls fresh).total_sleep_ms ≡ 1006
unfolding backoff_all backoff backoff_ms sleep_of expo new_state new_with_vars bo_region_miss
    bo_tikv_server_busy excluded_sleep_limit_ms longest_sleep_cfg get insert
run_total = refl

backoff_all-budget_example :
    let b = backoff_all calls fresh in
    (b.excluded_sleep_ms ≤ b.total_sleep_ms)
    × (b.total_sleep_ms - b.excluded_sleep_ms ≤ b.max_sleep_ms + 10000)
    × (b.excluded_sleep_ms ≤ max b.max_sleep_ms 600000 + 10000)
unfolding bo_region_miss bo_tikv_server_busy
backoff_all-budget_example =
    backoff_all-budget 10000 calls (0 ∷ []) 3 10 2 (omega arith)
      (
        (least-InRange, omega arith, omega arith),
        (
          (least-InRange, omega arith, omega arith),
          (
            (least-InRange, omega arith, omega arith),
            ((least-InRange, omega arith, omega arith), tt),
          ),
        ),
      )
      (omega arith) (omega arith) (omega arith)
