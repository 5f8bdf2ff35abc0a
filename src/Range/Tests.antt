-- ===== src/Range/Tests.antt =====
-- Ranges at concrete inputs.
use rust_tikv_client.Prelude.{◌≡◌, refl, true, false, some, [], ◌∷◌}
use rust_tikv_client.Key.{included, excluded, unbounded}
use rust_tikv_client.Range.{BoundRange, KeyRange, into_keys, contains, from_start_and_end}
use rust_tikv_client.Range.Scan.{scan_admits, included_empty_end, into_keys-from_start_and_end}

abbrev closed : BoundRange
closed = record { from = excluded (1 ∷ []); to = included (5 ∷ []) }

abbrev request : KeyRange
request = record { start_key = 1 ∷ 0 ∷ []; end_key = 5 ∷ 0 ∷ [] }

into_keys-from_start_and_end_example :
    into_keys (from_start_and_end (1 ∷ 0 ∷ []) (some (5 ∷ []))) ≡ (1 ∷ 0 ∷ [], some (5 ∷ []))
into_keys-from_start_and_end_example = into_keys-from_start_and_end (1 ∷ 0 ∷ []) (some (5 ∷ []))

included_empty_end_example :
    let r : BoundRange = record { from = unbounded; to = included [] } in
    (contains r (7 ∷ []) ≡ true) × (scan_admits (into_keys r) (7 ∷ []) ≡ false)
included_empty_end_example = included_empty_end unbounded 7 [] refl
