-- ===== src/Buffer/Scan/Laws.antt =====
-- A forward scan returns the first entries of the store's range with the local writes over it.
use rust_tikv_client.Prelude.{
  ℕ, ◌≡◌, refl, false, Option, none, some, List, [], ◌∷◌, arith, take, Bool, true, ◌⊎◌, length,
}
use rust_tikv_client.Order.{bytes_ord, eqb_iff}
use rust_tikv_client.OrdMap
use rust_tikv_client.OrdMap.{OrdMap}
use rust_tikv_client.OrdMap.Sorted.{IsSorted, get_below}
use rust_tikv_client.Key.{Key, Value}
use rust_tikv_client.Range.{BoundRange}
use rust_tikv_client.Buffer.Entry.{BufferEntry, EntryKind, cache_mismatch, Result, ok, err}
use rust_tikv_client.Buffer.{Buffer, read_value_state}
use rust_tikv_client.Buffer.Fetch.{KvPair}
use rust_tikv_client.Buffer.Scan.{override_local, to_pairs}
use rust_tikv_client.Buffer.Scan.Cache.{Reads, AllCached}

-- One key of the merged map: a local put or delete wins, else the store's entry stands.
abbrev pub overlay : Option BufferEntry → Option Value → Option Value
overlay (some (BufferEntry.put v)) stored = some v
overlay (some BufferEntry.del) stored = none
overlay _ stored = stored

-- Each key of a scan's merged map, with the local entries in key order: a local put or delete wins,
-- and else the store's entry stands, even where the buffer holds an insertion.
pub get-override_local :
    (m : OrdMap Key BufferEntry) (s : OrdMap Key Value) (j : Key)
    → IsSorted m
    → OrdMap.get j (override_local m s) ≡ overlay (OrdMap.get j m) (OrdMap.get j s)
unfolding override_local OrdMap.get
get-override_local [] s j h = refl
get-override_local ((k, BufferEntry.put v) ∷ m) s j h = ground (
  arith,
  get-override_local m (OrdMap.insert k v s) j h.1,
  OrdMap.get-insert k j v s,
  get_below k m h.0,
  eqb_iff j k,
)
get-override_local ((k, BufferEntry.del) ∷ m) s j h = ground (
  arith,
  get-override_local m (OrdMap.remove k s) j h.1,
  OrdMap.get-remove k j s,
  get_below k m h.0,
  eqb_iff j k,
)
get-override_local ((k, BufferEntry.insert v) ∷ m) s j h =
    ground (arith, get-override_local m s j h.1, get_below k m h.0, eqb_iff j k)
get-override_local ((k, BufferEntry.cached v) ∷ m) s j h =
    ground (arith, get-override_local m s j h.1, get_below k m h.0, eqb_iff j k)
get-override_local ((k, BufferEntry.locked v) ∷ m) s j h =
    ground (arith, get-override_local m s j h.1, get_below k m h.0, eqb_iff j k)
get-override_local ((k, BufferEntry.check_not_exist) ∷ m) s j h =
    ground (arith, get-override_local m s j h.1, get_below k m h.0, eqb_iff j k)

-- The first pairs of a store's range: what it answers to a scan.
abbrev pub Answers : (BoundRange → ℕ → Result (List KvPair)) → OrdMap Key Value → Type 0
Answers f s = (r : BoundRange) (n : ℕ) → f r n ≡ ok (take n (to_pairs s))

-- How a scan that should find `o` ends, when `m` is what it has merged: without the caching of a
-- scan for keys alone it finds it, and leaves the buffer. With the caching either the buffer
-- contradicts no merged entry, the scan finds it and all these entries are cached; or there is one
-- that the buffer contradicts, and the scan ends with the mismatch of its key.
abbrev pub Scanned :
    Bool → Buffer → OrdMap Key Value → List KvPair → Buffer × Result (List KvPair) → Type 0
Scanned false b m o r = r ≡ (b, ok o)
Scanned true b m o (c, r) =
    (AllCached b m c × (r ≡ ok o))
    ⊎ ((k : Key) × (v : Value) × (kind : EntryKind) × (OrdMap.get k m ≡ some v)
        × ¬ Reads v (read_value_state b k)
        × (r ≡ err (cache_mismatch kind (length k))))
