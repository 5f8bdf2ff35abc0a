-- ===== src/RegionCache.antt =====
-- src/region_cache.rs: the client's cache of regions and stores. What the placement driver answers
-- is an argument of the operations that ask it, and so are the clock and the generator of random
-- numbers. An operation under the write lock is one step; a read lock is held for one lookup.
pub mod Ttl
pub mod Index
pub mod Laws
pub mod Reaches
pub mod Lookups
mod Tests
use rust_tikv_client.Prelude.{
  ℕ, Bool, true, false, not, ◌&&◌, ◌||◌, ◌==◌, Option, none, some, List, [], ◌∷◌, ◌++◌,
  if◌then◌else◌,
}
use rust_tikv_client.Order.{bytes_ord, nat_ord, before, upto, eqb}
use rust_tikv_client.OrdMap
use rust_tikv_client.OrdMap.{OrdMap}
use rust_tikv_client.Key.{Key, is_empty}
use rust_tikv_client.Region.{
  RegionVerId, ver_id_ord, RegionWithLeader, Peer, contains, start_key, end_key, region_id, ver_id,
}
use Ttl.{RegionCacheTtl, next_ttl, check_and_refresh}

pub record CachedRegion : Type 0 where
  pub region : RegionWithLeader
  pub ttl_epoch_sec : ℕ

pub record RegionCacheMap : Type 0 where
  pub ver_id_to_region : OrdMap RegionVerId CachedRegion
  pub key_to_ver_id : OrdMap Key RegionVerId
  pub id_to_ver_id : OrdMap ℕ RegionVerId

-- `metapb::StoreState`; `invalid` is a number that is none of its values.
pub data StoreState : Type 0 where
  up offline tombstone invalid : StoreState

pub record StoreLabel : Type 0 where
  pub key : List ℕ
  pub value : List ℕ

pub record Store : Type 0 where
  pub id : ℕ
  pub state : StoreState
  pub labels : List StoreLabel

-- A marker in one of the in-flight maps is the presence of its key.
pub record RegionCache : Type 0 where
  pub region_cache : RegionCacheMap
  pub store_cache : OrdMap ℕ Store
  pub in_flight_region_by_key : OrdMap Key (Unit {0})
  pub in_flight_region_by_id : OrdMap ℕ (Unit {0})
  pub ttl : RegionCacheTtl

unfoldable pub empty_map : RegionCacheMap
empty_map = record { ver_id_to_region = []; key_to_ver_id = []; id_to_ver_id = [] }

unfoldable pub new_with_ttl : RegionCacheTtl → RegionCache
unfolding empty_map
new_with_ttl t = record {
  region_cache = empty_map;
  store_cache = [];
  in_flight_region_by_key = [];
  in_flight_region_by_id = [];
  ttl = t;
}

-- `range(..=key).next_back()` on ascending entries.
unfoldable pub last_upto {ℓ} : {V : Type ℓ} → Key → OrdMap Key V → Option V
last_upto k [] = none
last_upto k ((j, v) ∷ m) =
    let rest = last_upto k m in
    if upto j k then elim rest [ none ↦ some v | some w ↦ some w ] else none

-- A refresh of the entry's expiry: the cell is shared, so it is stored under the read lock.
abbrev pub store_ttl : RegionCacheMap → RegionVerId → CachedRegion → ℕ → RegionCacheMap
store_ttl m v c t = record m {
  ver_id_to_region = OrdMap.insert v (record c { ttl_epoch_sec = t }) m.ver_id_to_region;
}

-- The test of a cached region found in the index.
abbrev pub use_cached :
    (ℕ → ℕ)
    → RegionCacheTtl
    → ℕ
    → (RegionWithLeader → Bool)
    → RegionCacheMap
    → RegionVerId
    → Option CachedRegion
    → RegionCacheMap × Option RegionWithLeader
use_cached gen t now ok m v none = (m, none)
use_cached gen t now ok m v (some c) =
    let (cell, valid) = check_and_refresh gen t now [] c.ttl_epoch_sec in
    (store_ttl m v c cell, if valid && ok c.region then some c.region else none)

abbrev pub use_indexed :
    (ℕ → ℕ)
    → RegionCacheTtl
    → ℕ
    → (RegionWithLeader → Bool)
    → RegionCacheMap
    → Option RegionVerId
    → RegionCacheMap × Option RegionWithLeader
use_indexed gen t now ok m none = (m, none)
use_indexed gen t now ok m (some v) = use_cached gen t now ok m v (OrdMap.get v m.ver_id_to_region)

unfoldable pub cached_by_key :
    (ℕ → ℕ) → RegionCacheTtl → ℕ → RegionCacheMap → Key → RegionCacheMap × Option RegionWithLeader
unfolding last_upto
cached_by_key gen t now m k =
    use_indexed gen t now (λ r. contains r k) m (last_upto k m.key_to_ver_id)

unfoldable pub cached_by_id :
    (ℕ → ℕ) → RegionCacheTtl → ℕ → RegionCacheMap → ℕ → RegionCacheMap × Option RegionWithLeader
cached_by_id gen t now m i = use_indexed gen t now (λ r. true) m (OrdMap.get i m.id_to_ver_id)

-- How a round of a lookup's loop ends: with a region, on another task's notification, or as the
-- loader that asks the placement driver.
pub data Lookup : Type 0 where
  hit : RegionWithLeader → Lookup
  must_wait must_fetch : Lookup

abbrev pub with_map : RegionCache → RegionCacheMap → RegionCache
with_map c m = record c { region_cache = m }

abbrev pub clear_key : RegionCache → Key → RegionCache
clear_key c k = record c { in_flight_region_by_key = OrdMap.remove k c.in_flight_region_by_key }

abbrev pub clear_id : RegionCache → ℕ → RegionCache
clear_id c i = record c { in_flight_region_by_id = OrdMap.remove i c.in_flight_region_by_id }

-- The check after becoming the loader.
abbrev pub double_check_key :
    (ℕ → ℕ)
    → ℕ
    → Key
    → RegionCache
    → RegionCacheMap × Option RegionWithLeader
    → RegionCache × Lookup
double_check_key gen now k c (m, some r) = (clear_key (with_map c m) k, hit r)
double_check_key gen now k c (m, none) = (with_map c m, must_fetch)

abbrev pub join_key : (ℕ → ℕ) → ℕ → Key → RegionCache → Option (Unit {0}) → RegionCache × Lookup
join_key gen now k c (some u) = (c, must_wait)
join_key gen now k c none =
    let c' : RegionCache = record c {
      in_flight_region_by_key = OrdMap.insert k tt c.in_flight_region_by_key;
    } in
    double_check_key gen now k c' (cached_by_key gen c'.ttl now c'.region_cache k)

-- The fast path, and else the slow path.
abbrev pub check_key :
    (ℕ → ℕ)
    → ℕ
    → Key
    → RegionCache
    → RegionCacheMap × Option RegionWithLeader
    → RegionCache × Lookup
check_key gen later k c (m, some r) = (with_map c m, hit r)
check_key gen later k c (m, none) =
    join_key gen later k (with_map c m) (OrdMap.get k c.in_flight_region_by_key)

-- `get_region_by_key` up to the request to the placement driver; the clock is read twice.
unfoldable pub get_region_by_key : (ℕ → ℕ) → ℕ → ℕ → Key → RegionCache → RegionCache × Lookup
unfolding cached_by_key
get_region_by_key gen now later k c =
    check_key gen later k c (cached_by_key gen c.ttl now c.region_cache k)

abbrev pub double_check_id :
    (ℕ → ℕ) → ℕ → ℕ → RegionCache → RegionCacheMap × Option RegionWithLeader → RegionCache × Lookup
double_check_id gen now i c (m, some r) = (clear_id (with_map c m) i, hit r)
double_check_id gen now i c (m, none) = (with_map c m, must_fetch)

abbrev pub join_id : (ℕ → ℕ) → ℕ → ℕ → RegionCache → Option (Unit {0}) → RegionCache × Lookup
join_id gen now i c (some u) = (c, must_wait)
join_id gen now i c none =
    let c' : RegionCache = record c {
      in_flight_region_by_id = OrdMap.insert i tt c.in_flight_region_by_id;
    } in
    double_check_id gen now i c' (cached_by_id gen c'.ttl now c'.region_cache i)

-- The fast path, and else the slow path.
abbrev pub check_id :
    (ℕ → ℕ) → ℕ → ℕ → RegionCache → RegionCacheMap × Option RegionWithLeader → RegionCache × Lookup
check_id gen later i c (m, some r) = (with_map c m, hit r)
check_id gen later i c (m, none) =
    join_id gen later i (with_map c m) (OrdMap.get i c.in_flight_region_by_id)

unfoldable pub get_region_by_id : (ℕ → ℕ) → ℕ → ℕ → ℕ → RegionCache → RegionCache × Lookup
unfolding cached_by_id
get_region_by_id gen now later i c =
    check_id gen later i c (cached_by_id gen c.ttl now c.region_cache i)
