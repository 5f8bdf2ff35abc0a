-- ===== src/Keyspace/Tests.antt =====
-- Keyspaces at concrete inputs.
use rust_tikv_client.Prelude.{◌≡◌, [], ◌∷◌}
use rust_tikv_client.Key.{unbounded}
use rust_tikv_client.Range.{BoundRange, contains}
use rust_tikv_client.Keyspace.{enable, raw, encode_keyspace, encode_range}
use rust_tikv_client.Keyspace.Laws.{encode_range-contains}

abbrev whole : BoundRange
whole = record { from = unbounded; to = unbounded }

encode_range-contains_example :
    contains (encode_range whole (enable 255) raw) (encode_keyspace (7 ∷ []) (enable 255) raw)
    ≡ contains whole (7 ∷ [])
encode_range-contains_example = encode_range-contains whole 255 raw (7 ∷ [])
