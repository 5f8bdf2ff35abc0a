-- ===== src/Health.antt =====
-- src/store/health.rs: which stores are slow, for the routing of reads. Times are milliseconds since
-- the epoch, which the code has as an i64 and which are not negative; a slow score is any number,
-- of which nothing is asked. The clock is an argument.
use rust_tikv_client.Prelude.{
  ℕ, ◌+◌, ◌-◌, ◌^◌, min, max, Bool, false, ltb, leb, Option, none, some, if◌then◌else◌,
}
use rust_tikv_client.Order.{nat_ord}
use rust_tikv_client.OrdMap
use rust_tikv_client.OrdMap.{OrdMap}

pub record StoreHealthEntry : Type 0 where
  pub slow_until_epoch_ms : ℕ
  pub tikv_side_slow_score : ℕ
  pub tikv_side_feedback_seq_no : ℕ

abbrev pub StoreHealthMap : Type 0
StoreHealthMap = OrdMap ℕ StoreHealthEntry

abbrev pub i64_max : ℕ
i64_max = 2 ^ 63 - 1

-- `entry(store_id).or_default()`.
abbrev pub or_default : Option StoreHealthEntry → StoreHealthEntry
or_default none = record {
  slow_until_epoch_ms = 0;
  tikv_side_slow_score = 0;
  tikv_side_feedback_seq_no = 0;
}
or_default (some e) = e

abbrev pub is_slow_entry : ℕ → Option StoreHealthEntry → Bool
is_slow_entry now none = false
is_slow_entry now (some e) = ltb now e.slow_until_epoch_ms

unfoldable pub is_slow : StoreHealthMap → ℕ → ℕ → Bool
is_slow m store now = is_slow_entry now (OrdMap.get store m)

unfoldable pub mark_slow_for : ℕ → ℕ → ℕ → StoreHealthMap → StoreHealthMap
mark_slow_for now store duration m =
    let slow_until = min (now + min duration i64_max) i64_max in
    let entry = or_default (OrdMap.get store m) in
    OrdMap.insert store
      (record entry { slow_until_epoch_ms = max entry.slow_until_epoch_ms slow_until }) m

abbrev pub newer_score : ℕ → ℕ → StoreHealthEntry → StoreHealthEntry
newer_score seq score e =
    if leb e.tikv_side_feedback_seq_no seq
    then record e { tikv_side_feedback_seq_no = seq; tikv_side_slow_score = score }
    else e

unfoldable pub record_tikv_health_feedback : ℕ → ℕ → ℕ → StoreHealthMap → StoreHealthMap
record_tikv_health_feedback store seq score m =
    OrdMap.insert store (newer_score seq score (or_default (OrdMap.get store m))) m

unfoldable pub clear_slow : ℕ → StoreHealthMap → StoreHealthMap
clear_slow store m = OrdMap.remove store m
