-- ===== src/Timestamp.antt =====
-- src/timestamp.rs: a timestamp is a signed physical and a signed logical part, and its version a
-- `u64`. The conversions from and to the system's clock are not here.
pub mod Tests
use rust_tikv_client.Prelude.{
  ℕ, suc, ◌+◌, ◌-◌, ◌*◌, ◌/◌, ◌%◌, ◌^◌, ◌≤◌, ◌<◌, ◌≡◌, refl, Bool, ltb, leb, ◌==◌, Option, none,
  some, if◌then◌else◌, arith,
}

-- `negsuc n` is -(n + 1).
pub data ℤ : Type 0 where
  pos : ℕ → ℤ
  negsuc : ℕ → ℤ

abbrev pub pos_part : ℤ → ℕ
pos_part (pos n) = n
pos_part (negsuc n) = 0

abbrev pub neg_part : ℤ → ℕ
neg_part (pos n) = 0
neg_part (negsuc n) = suc n

-- a - b, as an integer.
abbrev pub sub_ℕ : ℕ → ℕ → ℤ
sub_ℕ a b = if leb b a then pos (a - b) else negsuc (b - a - 1)

pub record Timestamp : Type 0 where
  pub physical : ℤ
  pub logical : ℤ

-- `(physical << 18) + logical` on an `i128`, which holds it.
abbrev pub joined : ℤ → ℤ → ℤ
joined physical logical =
    sub_ℕ (pos_part physical * 2 ^ 18 + pos_part logical)
      (neg_part physical * 2 ^ 18 + neg_part logical)

abbrev pub to_u64 : ℤ → Option ℕ
to_u64 (pos n) = if ltb n (2 ^ 64) then some n else none
to_u64 (negsuc n) = none

abbrev pub or_zero : Option ℕ → ℕ
or_zero none = 0
or_zero (some n) = n

unfoldable pub compose_ts : ℤ → ℤ → Option ℕ
compose_ts physical_ms logical = to_u64 (joined physical_ms logical)

unfoldable pub extract_physical : ℕ → ℤ
extract_physical ts = pos (ts / 2 ^ 18)

-- The lowest bits of the two's complement.
unfoldable pub extract_logical : ℕ → ℤ
extract_logical ts = pos (ts % 2 ^ 18)

-- `as i64`
abbrev pub as_i64 : ℕ → ℤ
as_i64 n = if ltb n (2 ^ 63) then pos n else negsuc (2 ^ 64 - 1 - n)

-- The arithmetic shift to the right, which rounds down.
abbrev pub shift_right : ℤ → ℤ
shift_right (pos n) = pos (n / 2 ^ 18)
shift_right (negsuc n) = negsuc (n / 2 ^ 18)

unfoldable pub version : Timestamp → ℕ
version t = or_zero (to_u64 (joined t.physical t.logical))

unfoldable pub from_version : ℕ → Timestamp
unfolding extract_logical
from_version v = record { physical = shift_right (as_i64 v); logical = extract_logical v }

unfoldable pub try_from_version : ℕ → Option Timestamp
unfolding from_version
try_from_version v = if v == 0 then none else some (from_version v)

-- Every `u64` is composed of its two parts.
pub compose_ts-extract :
    (v : ℕ) → v < 2 ^ 64 → compose_ts (extract_physical v) (extract_logical v) ≡ some v
unfolding compose_ts extract_physical extract_logical
compose_ts-extract v h = ground (arith, h)

-- A version below 2^63 comes back from its timestamp. The timestamp of a larger one has a negative
-- physical part, and its version is 0.
pub version-from_version :
    (v : ℕ) → v < 2 ^ 64 → version (from_version v) ≡ (if ltb v (2 ^ 63) then v else 0)
unfolding version from_version extract_logical
version-from_version v h = ground (arith, h)
