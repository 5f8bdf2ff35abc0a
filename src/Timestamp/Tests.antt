-- ===== src/Timestamp/Tests.antt =====
-- Runs of the conversions of timestamps, and witnesses of their theorems.
use rust_tikv_client.Prelude.{◌-◌, ◌^◌, ◌≡◌, ltb, if◌then◌else◌, arith}
use rust_tikv_client.Timestamp.{version, from_version, version-from_version}

version-from_version_example :
    version (from_version (2 ^ 64 - 1)) ≡ (if ltb (2 ^ 64 - 1) (2 ^ 63) then 2 ^ 64 - 1 else 0)
version-from_version_example = version-from_version (2 ^ 64 - 1) (omega arith)
