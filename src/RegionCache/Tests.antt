-- ===== src/RegionCache/Tests.antt =====
-- Runs of the cache, and witnesses of its theorems.
use rust_tikv_client.Prelude.{ℕ, ◌≡◌, refl, false, none, List, [], ◌∷◌}
use rust_tikv_client.Order.{bytes_ord, nat_ord}
use rust_tikv_client.OrdMap
use rust_tikv_client.OrdMap.{get, insert, remove, retain}
use rust_tikv_client.Key.{Key}
use rust_tikv_client.Region.{RegionWithLeader, ver_id_ord, contains, ver_id}
use rust_tikv_client.RegionCache.Ttl.{
  RegionCacheTtl, next_ttl, check_and_refresh, refresh_loop, check_and_refresh-valid,
}
use rust_tikv_client.RegionCache.{
  RegionCache, hit, must_fetch, new_with_ttl, empty_map, get_region_by_key, cached_by_key,
  last_upto, StoreState,
}
use rust_tikv_client.RegionCache.Index.{
  add_region, add_to_map, scan_back, drop_regions, is_valid_tikv_store, engine_label_key,
  engine_label_tiflash,
}
use rust_tikv_client.RegionCache.Laws.{IsConsistent}
use rust_tikv_client.RegionCache.Reaches.{CacheEvent, perform_all, added, reached-IsConsistent}
use rust_tikv_client.RegionCache.Lookups.{Marked, get_region_by_key-Marked}

abbrev region_of : ℕ → Key → Key → RegionWithLeader
region_of i s e = record {
  region = record { id = i; start_key = s; end_key = e; region_epoch = none; peers = [] };
  leader = none;
}

abbrev minute : RegionCacheTtl
minute = record { base_sec = 60; jitter_sec = 0 }

abbrev least : ℕ → ℕ
least n = 0

abbrev left : RegionWithLeader
left = region_of 1 [] (10 ∷ [])

abbrev right : RegionWithLeader
right = region_of 2 (10 ∷ []) []

abbrev merged : RegionWithLeader
merged = region_of 3 (5 ∷ []) []

abbrev history : List CacheEvent
history = added least 100 left ∷ added least 100 right ∷ []

abbrev two_regions : RegionCache
two_regions = add_region least 100 right (add_region least 100 left (new_with_ttl minute))

lookup_right : (get_region_by_key least 101 101 (12 ∷ []) two_regions).1 ≡ hit right
unfolding get_region_by_key cached_by_key last_upto add_region add_to_map scan_back drop_regions
    check_and_refresh refresh_loop next_ttl new_with_ttl empty_map get insert remove retain contains
    ver_id
lookup_right = refl

-- A region that overlaps both of the others replaces them.
lookup_replaced :
    (get_region_by_key least 101 101 (2 ∷ []) (add_region least 100 merged two_regions)).1
    ≡ must_fetch
unfolding get_region_by_key cached_by_key last_upto add_region add_to_map scan_back drop_regions
    check_and_refresh refresh_loop next_ttl new_with_ttl empty_map get insert remove retain contains
    ver_id
lookup_replaced = refl

tiflash_store :
    is_valid_tikv_store (record {
      id = 1;
      state = StoreState.up;
      labels = record { key = engine_label_key; value = engine_label_tiflash } ∷ [];
    })
    ≡ false
unfolding is_valid_tikv_store
tiflash_store = refl

reached-IsConsistent_example : IsConsistent (perform_all history (new_with_ttl minute)).region_cache
reached-IsConsistent_example = reached-IsConsistent history minute

get_region_by_key-Marked_example :
    Marked
      (OrdMap.get (12 ∷ []) two_regions.in_flight_region_by_key)
      (OrdMap.get
        (12 ∷ [])
        (get_region_by_key least 101 101 (12 ∷ []) two_regions).0.in_flight_region_by_key)
      (get_region_by_key least 101 101 (12 ∷ []) two_regions).1
get_region_by_key-Marked_example = get_region_by_key-Marked least 101 101 (12 ∷ []) two_regions

check_and_refresh-valid_example : (check_and_refresh least minute 100 [] 99).1 ≡ false
check_and_refresh-valid_example = check_and_refresh-valid least minute 100 99
