-- ===== src/Buffer/Scan.antt =====
-- src/transaction/buffer.rs: `scan_and_fetch`, which merges a scan of the store with the buffer.
pub mod Merge
pub mod Collect
pub mod Cache
pub mod Laws
use rust_tikv_client.Prelude.{
  ℕ, suc, ◌+◌, ◌-◌, ◌^◌, min, Bool, true, false, Option, none, some, List, [], ◌∷◌, reverse,
  if◌then◌else◌, take,
}
use rust_tikv_client.Order.{bytes_ord}
use rust_tikv_client.OrdMap
use rust_tikv_client.OrdMap.{OrdMap}
use rust_tikv_client.Key.{Key, Value}
use rust_tikv_client.Range.{BoundRange, contains, range_panics}
use rust_tikv_client.Buffer.Entry.{BufferEntry, Error, range_panicked, Result, ok, err}
use rust_tikv_client.Buffer.{Buffer, update_cache}
use rust_tikv_client.Buffer.Fetch.{KvPair, then_ok}

abbrev pub u32_max : ℕ
u32_max = 2 ^ 32 - 1

-- `BTreeMap::range`, for a range that does not panic.
unfoldable pub range {ℓ} : {V : Type ℓ} → BoundRange → OrdMap Key V → OrdMap Key V
range r [] = []
range r ((k, v) ∷ m) = if contains r k then (k, v) ∷ range r m else range r m

unfoldable pub count_deleted : OrdMap Key BufferEntry → ℕ
count_deleted [] = 0
count_deleted ((k, BufferEntry.del) ∷ m) = suc (count_deleted m)
count_deleted ((k, e) ∷ m) = count_deleted m

-- `limit.saturating_add(deleted_count)`, where the count saturates too.
unfoldable pub redundant_limit : ℕ → OrdMap Key BufferEntry → ℕ
unfolding count_deleted
redundant_limit limit m = min u32_max (limit + min u32_max (count_deleted m))

-- `collect::<BTreeMap<Key, Value>>()`
unfoldable pub collect : OrdMap Key Value → List KvPair → OrdMap Key Value
collect acc [] = acc
collect acc (p ∷ ps) = collect (OrdMap.insert p.key p.value acc) ps

abbrev pub override_one : Key → BufferEntry → OrdMap Key Value → OrdMap Key Value
override_one k (BufferEntry.put v) results = OrdMap.insert k v results
override_one k BufferEntry.del results = OrdMap.remove k results
override_one k _ results = results

-- "override using local data"
unfoldable pub override_local : OrdMap Key BufferEntry → OrdMap Key Value → OrdMap Key Value
override_local [] results = results
override_local ((k, e) ∷ m) results = override_local m (override_one k e results)

abbrev pub to_pairs : OrdMap Key Value → List KvPair
to_pairs [] = []
to_pairs ((k, v) ∷ m) = record { key = k; value = v } ∷ to_pairs m

-- The loop that writes the results to the buffer returns at the first mismatch.
unfoldable pub cache_results : Buffer → OrdMap Key Value → Buffer × Result (Unit {0})
cache_results b [] = (b, ok tt)
cache_results b ((k, v) ∷ m) =
    let r = update_cache b k (some v) in
    elim r.1 [ ok _ ↦ cache_results r.0 m | err e ↦ (r.0, err e) ]

unfoldable pub ordered : Bool → OrdMap Key Value → List KvPair
ordered backward m = if backward then reverse (to_pairs m) else to_pairs m

merge_scan :
    Buffer → BoundRange → ℕ → Bool → Bool → Result (List KvPair) → Buffer × Result (List KvPair)
unfolding range collect override_local ordered cache_results
merge_scan b r limit caching backward (err e) = (b, err e)
merge_scan b r limit caching backward (ok fetched) =
    let results = override_local (range r b.entry_map) (collect [] fetched) in
    then_ok (if caching then cache_results b results else (b, ok tt))
      (take limit (ordered backward results))

unfoldable pub scan_and_fetch :
    Buffer
    → BoundRange
    → ℕ
    → Bool
    → Bool
    → (BoundRange → ℕ → Result (List KvPair))
    → Buffer × Result (List KvPair)
unfolding merge_scan redundant_limit
scan_and_fetch b r limit caching backward f =
    if range_panics r
    then (b, err range_panicked)
    else merge_scan b r limit caching backward (f r (redundant_limit limit (range r b.entry_map)))
