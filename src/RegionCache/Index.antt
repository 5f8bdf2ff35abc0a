-- ===== src/RegionCache/Index.antt =====
-- src/region_cache.rs: the operations that change the cache's indexes, and the store cache.
use rust_tikv_client.Prelude.{
  ℕ, Bool, true, false, not, ◌&&◌, ◌||◌, Option, none, some, List, [], ◌∷◌, ◌++◌, reverse,
  if◌then◌else◌,
}
use rust_tikv_client.Order.{bytes_ord, nat_ord, before, eqb}
use rust_tikv_client.OrdMap
use rust_tikv_client.OrdMap.{OrdMap}
use rust_tikv_client.Key.{Key, is_empty}
use rust_tikv_client.Region.{
  RegionVerId, ver_id_ord, RegionWithLeader, Peer, start_key, end_key, region_id, ver_id,
}
use rust_tikv_client.RegionCache.Ttl.{next_ttl}
use rust_tikv_client.RegionCache.{
  CachedRegion, RegionCacheMap, RegionCache, Store, StoreLabel, StoreState, clear_key, clear_id,
  with_map,
}

-- `range(..end_key)`, and the whole index for an empty end key.
abbrev pub search_range : Key → OrdMap Key RegionVerId → OrdMap Key RegionVerId
search_range e m = OrdMap.retain (λ j v. is_empty e || before j e) m

abbrev pub overlaps : Key → CachedRegion → Bool
overlaps start c = is_empty (end_key c.region) || before start (end_key c.region)

-- The backward scan of `add_region`, on the entries in descending order: the start keys whose
-- region is gone, and the regions that overlap. It stops at the first region that does not.
unfoldable pub scan_back :
    OrdMap RegionVerId CachedRegion → Key → List (Key × RegionVerId) → List Key × List RegionVerId
scan_back regions start [] = ([], [])
scan_back regions start ((j, v) ∷ es) =
    let (stale, removed) = scan_back regions start es in
    elim (OrdMap.get v regions) [
      | none ↦ (j ∷ stale, removed)
      | some c ↦ if overlaps start c then (stale, v ∷ removed) else ([], [])
    ]

abbrev pub remove_keys : List Key → OrdMap Key RegionVerId → OrdMap Key RegionVerId
remove_keys [] m = m
remove_keys (k ∷ ks) m = remove_keys ks (OrdMap.remove k m)

abbrev pub drop_region : RegionCacheMap → RegionVerId → Option CachedRegion → RegionCacheMap
drop_region m v none = m
drop_region m v (some c) = record {
  ver_id_to_region = OrdMap.remove v m.ver_id_to_region;
  key_to_ver_id = OrdMap.remove (start_key c.region) m.key_to_ver_id;
  id_to_ver_id = OrdMap.remove (region_id c.region) m.id_to_ver_id;
}

-- The loop over `to_be_removed`. The set holds no version twice; a second removal finds nothing.
unfoldable pub drop_regions : List RegionVerId → RegionCacheMap → RegionCacheMap
drop_regions [] m = m
drop_regions (v ∷ vs) m = drop_regions vs (drop_region m v (OrdMap.get v m.ver_id_to_region))

-- The version cached under the region's id, when it is another one.
abbrev pub other_version : RegionVerId → Option RegionVerId → List RegionVerId
other_version v none = []
other_version v (some w) = if not (eqb w v) then w ∷ [] else []

-- The three insertions at the end of `add_region`.
abbrev pub index_region : RegionWithLeader → ℕ → RegionCacheMap → RegionCacheMap
index_region r ttl m = record {
  ver_id_to_region =
      OrdMap.insert (ver_id r) (record { region = r; ttl_epoch_sec = ttl }) m.ver_id_to_region;
  key_to_ver_id = OrdMap.insert (start_key r) (ver_id r) m.key_to_ver_id;
  id_to_ver_id = OrdMap.insert (region_id r) (ver_id r) m.id_to_ver_id;
}

unfoldable pub add_to_map : RegionWithLeader → ℕ → RegionCacheMap → RegionCacheMap
unfolding scan_back drop_regions
add_to_map r ttl m =
    let by_id = other_version (ver_id r) (OrdMap.get (region_id r) m.id_to_ver_id) in
    let (stale, overlapping) =
      scan_back m.ver_id_to_region (start_key r)
        (reverse (search_range (end_key r) m.key_to_ver_id)) in
    let m' : RegionCacheMap = record m { key_to_ver_id = remove_keys stale m.key_to_ver_id } in
    index_region r ttl (drop_regions (by_id ++ overlapping) m')

unfoldable pub add_region : (ℕ → ℕ) → ℕ → RegionWithLeader → RegionCache → RegionCache
unfolding add_to_map
add_region gen now r c = with_map c (add_to_map r (next_ttl gen c.ttl now) c.region_cache)

-- The end of a load by key or by id: `none` is an error of the placement driver.
abbrev pub add_fetched : (ℕ → ℕ) → ℕ → Option RegionWithLeader → RegionCache → RegionCache
add_fetched gen now none c = c
add_fetched gen now (some r) c = add_region gen now r c

unfoldable pub finish_by_key :
    (ℕ → ℕ) → ℕ → Key → Option RegionWithLeader → RegionCache → RegionCache
unfolding add_region
finish_by_key gen now k fetched c = clear_key (add_fetched gen now fetched c) k

unfoldable pub finish_by_id : (ℕ → ℕ) → ℕ → ℕ → Option RegionWithLeader → RegionCache → RegionCache
unfolding add_region
finish_by_id gen now i fetched c = clear_id (add_fetched gen now fetched c) i

abbrev pub set_leader :
    RegionCacheMap → RegionVerId → Peer → ℕ → Option CachedRegion → RegionCacheMap
set_leader m v leader ttl none = m
set_leader m v leader ttl (some c) = record m {
  ver_id_to_region =
      OrdMap.insert v
        (record { region = record c.region { leader = some leader }; ttl_epoch_sec = ttl })
        m.ver_id_to_region;
}

unfoldable pub update_leader : (ℕ → ℕ) → ℕ → RegionVerId → Peer → RegionCache → RegionCache
update_leader gen now v leader c = with_map c (
    set_leader c.region_cache v leader (next_ttl gen c.ttl now)
      (OrdMap.get v c.region_cache.ver_id_to_region))

unfoldable pub invalidate_region_cache : RegionVerId → RegionCache → RegionCache
invalidate_region_cache v c =
    with_map c (drop_region c.region_cache v (OrdMap.get v c.region_cache.ver_id_to_region))

unfoldable pub invalidate_store_cache : ℕ → RegionCache → RegionCache
invalidate_store_cache i c = record c { store_cache = OrdMap.remove i c.store_cache }

-- `get_store_by_id` with what the placement driver would answer; `none` is its error.
unfoldable pub get_store_by_id : ℕ → Option Store → RegionCache → RegionCache × Option Store
get_store_by_id i fetched c = elim (OrdMap.get i c.store_cache) [
  | some s ↦ (c, some s)
  | none ↦ elim fetched [
    | none ↦ (c, none)
    | some s ↦ (record c { store_cache = OrdMap.insert i s c.store_cache }, some s)
  ]
]

abbrev pub engine_label_key : List ℕ
engine_label_key = b'e' ∷ b'n' ∷ b'g' ∷ b'i' ∷ b'n' ∷ b'e' ∷ []

abbrev pub engine_label_tiflash : List ℕ
engine_label_tiflash = b't' ∷ b'i' ∷ b'f' ∷ b'l' ∷ b'a' ∷ b's' ∷ b'h' ∷ []

abbrev pub engine_label_tiflash_compute : List ℕ
engine_label_tiflash_compute =
    engine_label_tiflash ++ b'_' ∷ b'c' ∷ b'o' ∷ b'm' ∷ b'p' ∷ b'u' ∷ b't' ∷ b'e' ∷ []

abbrev pub is_tiflash : List StoreLabel → Bool
is_tiflash [] = false
is_tiflash (l ∷ ls) =
    eqb l.key engine_label_key
      && (eqb l.value engine_label_tiflash || eqb l.value engine_label_tiflash_compute)
    || is_tiflash ls

abbrev pub live : StoreState → Bool
live StoreState.tombstone = false
live StoreState.invalid = false
live StoreState.up = true
live StoreState.offline = true

unfoldable pub is_valid_tikv_store : Store → Bool
is_valid_tikv_store s = live s.state && not (is_tiflash s.labels)

abbrev pub valid_stores : List Store → List Store
valid_stores [] = []
valid_stores (s ∷ ss) =
    let rest = valid_stores ss in if is_valid_tikv_store s then s ∷ rest else rest

abbrev pub insert_stores : List Store → OrdMap ℕ Store → OrdMap ℕ Store
insert_stores [] m = m
insert_stores (s ∷ ss) m = insert_stores ss (OrdMap.insert s.id s m)

-- `read_through_all_stores` with the stores that the placement driver lists.
unfoldable pub read_through_all_stores : List Store → RegionCache → RegionCache × List Store
unfolding is_valid_tikv_store
read_through_all_stores all c =
    (record c { store_cache = insert_stores (valid_stores all) c.store_cache }, valid_stores all)
