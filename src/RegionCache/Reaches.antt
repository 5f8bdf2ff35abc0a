-- ===== src/RegionCache/Reaches.antt =====
-- The states of the cache that its operations reach, in any order and with any answers of the
-- placement driver, and what holds of all of them.
use rust_tikv_client.Prelude.{
  ℕ, ◌≡◌, refl, sym, subst, Bool, true, Option, none, some, List, [], ◌∷◌, arith,
}
use rust_tikv_client.Order.{bytes_ord, nat_ord}
use rust_tikv_client.OrdMap
use rust_tikv_client.OrdMap.{
  OrdMap, get, get-insert_self, get-insert_ne, get-remove_ne, remove-some, insert-some,
  insert-found,
}
use rust_tikv_client.Key.{Key}
use rust_tikv_client.Region.{RegionVerId, ver_id_ord, RegionWithLeader, Peer, contains, ver_id}
use rust_tikv_client.RegionCache.Ttl.{RegionCacheTtl, next_ttl, check_and_refresh}
use rust_tikv_client.RegionCache.{
  CachedRegion, RegionCacheMap, RegionCache, Store, new_with_ttl, empty_map, get_region_by_key,
  get_region_by_id, cached_by_key, cached_by_id, last_upto, use_cached, use_indexed, check_key,
  check_id, double_check_key, double_check_id, join_key, join_id, with_map,
}
use rust_tikv_client.RegionCache.Index.{
  add_region, finish_by_key, add_fetched, finish_by_id, update_leader, set_leader,
  invalidate_region_cache, invalidate_store_cache, get_store_by_id, read_through_all_stores,
}
use rust_tikv_client.RegionCache.Laws.{
  IsConsistent, add_to_map-IsConsistent, replace-IsConsistent, drop_region-IsConsistent,
}

-- One operation of the cache; a load is two, its start and its end. A load's end brings what the
-- placement driver answered.
pub data CacheEvent : Type 0 where
  by_key : (ℕ → ℕ) → ℕ → ℕ → Key → CacheEvent
  by_id : (ℕ → ℕ) → ℕ → ℕ → ℕ → CacheEvent
  loaded_key : (ℕ → ℕ) → ℕ → Key → Option RegionWithLeader → CacheEvent
  loaded_id : (ℕ → ℕ) → ℕ → ℕ → Option RegionWithLeader → CacheEvent
  added : (ℕ → ℕ) → ℕ → RegionWithLeader → CacheEvent
  led : (ℕ → ℕ) → ℕ → RegionVerId → Peer → CacheEvent
  invalidated : RegionVerId → CacheEvent
  store_invalidated : ℕ → CacheEvent
  store_read : ℕ → Option Store → CacheEvent
  stores_read : List Store → CacheEvent

unfoldable pub perform : CacheEvent → RegionCache → RegionCache
perform (by_key gen now later k) c = (get_region_by_key gen now later k c).0
perform (by_id gen now later i) c = (get_region_by_id gen now later i c).0
perform (loaded_key gen now k f) c = finish_by_key gen now k f c
perform (loaded_id gen now i f) c = finish_by_id gen now i f c
perform (added gen now r) c = add_region gen now r c
perform (led gen now v p) c = update_leader gen now v p c
perform (invalidated v) c = invalidate_region_cache v c
perform (store_invalidated i) c = invalidate_store_cache i c
perform (store_read i f) c = (get_store_by_id i f c).0
perform (stores_read all) c = (read_through_all_stores all c).0

unfoldable pub perform_all : List CacheEvent → RegionCache → RegionCache
unfolding perform
perform_all [] c = c
perform_all (e ∷ es) c = perform_all es (perform e c)

use_indexed-IsConsistent :
    (gen : ℕ → ℕ) (t : RegionCacheTtl) (now : ℕ) (ok : RegionWithLeader → Bool) (m : RegionCacheMap)
    (o : Option RegionVerId)
    → IsConsistent m
    → IsConsistent (use_indexed gen t now ok m o).0
use_indexed-IsConsistent gen t now ok m none w = w
use_indexed-IsConsistent gen t now ok m (some v) w = go (OrdMap.get v m.ver_id_to_region) refl
  where
    go :
        (o : Option CachedRegion)
        → OrdMap.get v m.ver_id_to_region ≡ o
        → IsConsistent (use_cached gen t now ok m v o).0
    go none e = w
    go (some c) e =
        replace-IsConsistent m v c
          (record c { ttl_epoch_sec = (check_and_refresh gen t now [] c.ttl_epoch_sec).0 }) e refl w

check_key-IsConsistent :
    (gen : ℕ → ℕ) (later : ℕ) (k : Key) (c : RegionCache)
    (p : RegionCacheMap × Option RegionWithLeader)
    → IsConsistent p.0
    → IsConsistent (check_key gen later k c p).0.region_cache
unfolding cached_by_key
check_key-IsConsistent gen later k c (m, some r) w = w
check_key-IsConsistent gen later k c (m, none) w = join (OrdMap.get k c.in_flight_region_by_key)
  where
    again :
        (d : RegionCache) (p : RegionCacheMap × Option RegionWithLeader)
        → IsConsistent p.0
        → IsConsistent (double_check_key gen later k d p).0.region_cache
    again d (x, some r) h = h
    again d (x, none) h = h

    join :
        (o : Option (Unit {0}))
        → IsConsistent (join_key gen later k (with_map c m) o).0.region_cache
    join (some u) = w
    join none =
        let d : RegionCache = record c {
          region_cache = m;
          in_flight_region_by_key = OrdMap.insert k tt c.in_flight_region_by_key;
        } in
        again d (cached_by_key gen c.ttl later m k) (
          use_indexed-IsConsistent gen c.ttl later (λ r. contains r k) m
            (last_upto k m.key_to_ver_id) w)

check_id-IsConsistent :
    (gen : ℕ → ℕ) (later i : ℕ) (c : RegionCache) (p : RegionCacheMap × Option RegionWithLeader)
    → IsConsistent p.0
    → IsConsistent (check_id gen later i c p).0.region_cache
unfolding cached_by_id
check_id-IsConsistent gen later i c (m, some r) w = w
check_id-IsConsistent gen later i c (m, none) w = join (OrdMap.get i c.in_flight_region_by_id)
  where
    again :
        (d : RegionCache) (p : RegionCacheMap × Option RegionWithLeader)
        → IsConsistent p.0
        → IsConsistent (double_check_id gen later i d p).0.region_cache
    again d (x, some r) h = h
    again d (x, none) h = h

    join :
        (o : Option (Unit {0})) → IsConsistent (join_id gen later i (with_map c m) o).0.region_cache
    join (some u) = w
    join none =
        let d : RegionCache = record c {
          region_cache = m;
          in_flight_region_by_id = OrdMap.insert i tt c.in_flight_region_by_id;
        } in
        again d (cached_by_id gen c.ttl later m i)
          (use_indexed-IsConsistent gen c.ttl later (λ r. true) m (OrdMap.get i m.id_to_ver_id) w)

get_region_by_key-IsConsistent :
    (gen : ℕ → ℕ) (now later : ℕ) (k : Key) (c : RegionCache)
    → IsConsistent c.region_cache
    → IsConsistent (get_region_by_key gen now later k c).0.region_cache
unfolding get_region_by_key cached_by_key
get_region_by_key-IsConsistent gen now later k c w =
    check_key-IsConsistent gen later k c (cached_by_key gen c.ttl now c.region_cache k) (
      use_indexed-IsConsistent gen c.ttl now (λ r. contains r k) c.region_cache
        (last_upto k c.region_cache.key_to_ver_id) w)

get_region_by_id-IsConsistent :
    (gen : ℕ → ℕ) (now later i : ℕ) (c : RegionCache)
    → IsConsistent c.region_cache
    → IsConsistent (get_region_by_id gen now later i c).0.region_cache
unfolding get_region_by_id cached_by_id
get_region_by_id-IsConsistent gen now later i c w =
    check_id-IsConsistent gen later i c (cached_by_id gen c.ttl now c.region_cache i) (
      use_indexed-IsConsistent gen c.ttl now (λ r. true) c.region_cache
        (OrdMap.get i c.region_cache.id_to_ver_id) w)

add_fetched-IsConsistent :
    (gen : ℕ → ℕ) (now : ℕ) (f : Option RegionWithLeader) (c : RegionCache)
    → IsConsistent c.region_cache
    → IsConsistent (add_fetched gen now f c).region_cache
unfolding add_region
add_fetched-IsConsistent gen now none c w = w
add_fetched-IsConsistent gen now (some r) c w =
    add_to_map-IsConsistent r (next_ttl gen c.ttl now) c.region_cache w

set_leader-IsConsistent :
    (m : RegionCacheMap) (v : RegionVerId) (p : Peer) (ttl : ℕ)
    → IsConsistent m
    → IsConsistent (set_leader m v p ttl (OrdMap.get v m.ver_id_to_region))
unfolding ver_id
set_leader-IsConsistent m v p ttl w = go (OrdMap.get v m.ver_id_to_region) refl
  where
    go :
        (o : Option CachedRegion)
        → OrdMap.get v m.ver_id_to_region ≡ o
        → IsConsistent (set_leader m v p ttl o)
    go none e = w
    go (some c) e =
        replace-IsConsistent m v c
          (record { region = record c.region { leader = some p }; ttl_epoch_sec = ttl }) e refl w

get_store-map :
    (i : ℕ) (f : Option Store) (c : RegionCache)
    → (get_store_by_id i f c).0.region_cache ≡ c.region_cache
unfolding get_store_by_id
get_store-map i f c = ground arith

perform-IsConsistent :
    (e : CacheEvent) (c : RegionCache)
    → IsConsistent c.region_cache
    → IsConsistent (perform e c).region_cache
unfolding perform finish_by_key finish_by_id add_region update_leader invalidate_region_cache
    invalidate_store_cache read_through_all_stores
perform-IsConsistent (by_key gen now later k) c w =
    get_region_by_key-IsConsistent gen now later k c w
perform-IsConsistent (by_id gen now later i) c w = get_region_by_id-IsConsistent gen now later i c w
perform-IsConsistent (loaded_key gen now k f) c w = add_fetched-IsConsistent gen now f c w
perform-IsConsistent (loaded_id gen now i f) c w = add_fetched-IsConsistent gen now f c w
perform-IsConsistent (added gen now r) c w = add_fetched-IsConsistent gen now (some r) c w
perform-IsConsistent (led gen now v p) c w =
    set_leader-IsConsistent c.region_cache v p (next_ttl gen c.ttl now) w
perform-IsConsistent (invalidated v) c w = drop_region-IsConsistent c.region_cache v w
perform-IsConsistent (store_invalidated i) c w = w
perform-IsConsistent (store_read i f) c w = subst IsConsistent (sym (get_store-map i f c)) w
perform-IsConsistent (stores_read all) c w = w

perform_all-IsConsistent :
    (es : List CacheEvent) (c : RegionCache)
    → IsConsistent c.region_cache
    → IsConsistent (perform_all es c).region_cache
unfolding perform_all
perform_all-IsConsistent [] c w = w
perform_all-IsConsistent (e ∷ es) c w =
    perform_all-IsConsistent es (perform e c) (perform-IsConsistent e c w)

-- In every state that the operations reach from an empty cache, in any order and with any answers
-- of the placement driver, each region stands under its own version, and each id of the index leads
-- to a region with that id.
pub reached-IsConsistent :
    (es : List CacheEvent) (t : RegionCacheTtl)
    → IsConsistent (perform_all es (new_with_ttl t)).region_cache
unfolding new_with_ttl empty_map get
reached-IsConsistent es t =
    perform_all-IsConsistent es (new_with_ttl t)
      (record { versions = λ v c h. ground (arith, h); ids = λ i v h. ground (arith, h) })
