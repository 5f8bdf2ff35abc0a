-- ===== src/RegionCache/Lookups.antt =====
-- What the lookups of the cache give.
use rust_tikv_client.Prelude.{
  ℕ, ◌≡◌, refl, sym, ap, subst, ◌∙◌, ◌⊎◌, inl, inr, Bool, true, false, ◌&&◌, Option, none, some,
  List, [], ◌++◌, reverse, arith, ltb, if◌then◌else◌,
}
use rust_tikv_client.Order.{bytes_ord, nat_ord}
use rust_tikv_client.OrdMap
use rust_tikv_client.OrdMap.{
  OrdMap, get-insert_self, get-insert_ne, get-remove_ne, get-remove_self, remove-some, insert-some,
  insert-found,
}
use rust_tikv_client.Key.{Key}
use rust_tikv_client.Region.{
  RegionVerId, ver_id_ord, RegionWithLeader, contains, start_key, end_key, region_id, ver_id,
}
use rust_tikv_client.RegionCache.Ttl.{RegionCacheTtl, next_ttl, check_and_refresh}
use rust_tikv_client.RegionCache.{
  CachedRegion, RegionCacheMap, RegionCache, Lookup, hit, must_wait, must_fetch, new_with_ttl,
  get_region_by_key, cached_by_key, cached_by_id, last_upto, use_cached, use_indexed, check_key,
  double_check_key, join_key, with_map,
}
use rust_tikv_client.RegionCache.Index.{
  add_region, add_to_map, index_region, drop_regions, scan_back, remove_keys, other_version,
  search_range,
}
use rust_tikv_client.RegionCache.Laws.{IsConsistent, ver_id-id}
use rust_tikv_client.RegionCache.Reaches.{CacheEvent, perform_all, reached-IsConsistent}
use rust_tikv_client.RegionCache.Ttl.{is_enabled, check_and_refresh-valid}

guarded :
    (b : Bool) (x r : RegionWithLeader)
    → (if b then some x else none) ≡ some r
    → (b ≡ true) × (x ≡ r)
guarded true x r h = (refl, ground (arith, h))
guarded false x r h = ground (arith, h)

-- A region found in the index passes the lookup's own test.
use_indexed-ok :
    (gen : ℕ → ℕ) (t : RegionCacheTtl) (now : ℕ) (ok : RegionWithLeader → Bool) (m : RegionCacheMap)
    (o : Option RegionVerId) (r : RegionWithLeader)
    → (use_indexed gen t now ok m o).1 ≡ some r
    → (ok r ≡ true)
      × (v : RegionVerId) × (c : CachedRegion) × (o ≡ some v)
      × (OrdMap.get v m.ver_id_to_region ≡ some c)
      × (c.region ≡ r)
use_indexed-ok gen t now ok m none r h = ground (arith, h)
use_indexed-ok gen t now ok m (some v) r h = go (OrdMap.get v m.ver_id_to_region) refl h
  where
    go :
        (o : Option CachedRegion)
        → OrdMap.get v m.ver_id_to_region ≡ o
        → (use_cached gen t now ok m v o).1 ≡ some r
        → (ok r ≡ true)
          × (w : RegionVerId) × (c : CachedRegion) × (some v ≡ some w)
          × (OrdMap.get w m.ver_id_to_region ≡ some c)
          × (c.region ≡ r)
    go none e g = ground (arith, g)
    go (some c) e g =
        let (b, same) =
          guarded ((check_and_refresh gen t now [] c.ttl_epoch_sec).1 && ok c.region) c.region r
            g in
        (subst (λ x. ok x ≡ true) same (ground (arith, b)), v, c, refl, e, same)

hit-injective : (x r : RegionWithLeader) → hit x ≡ hit r → x ≡ r
hit-injective x r h = ap region_of h
  where
    region_of : Lookup → RegionWithLeader
    region_of (hit y) = y
    region_of must_wait = r
    region_of must_fetch = r

-- A hit of the loop's round is a hit of one of its two looks into the cache.
check_key-hit :
    (gen : ℕ → ℕ) (later : ℕ) (k : Key) (c : RegionCache)
    (p : RegionCacheMap × Option RegionWithLeader) (r : RegionWithLeader)
    → (check_key gen later k c p).1 ≡ hit r
    → (p.1 ≡ some r) ⊎ ((cached_by_key gen c.ttl later p.0 k).1 ≡ some r)
check_key-hit gen later k c (m, some x) r h = inl (ap some (hit-injective x r h))
check_key-hit gen later k c (m, none) r h = join (OrdMap.get k c.in_flight_region_by_key) h
  where
    again :
        (d : RegionCache) (p : RegionCacheMap × Option RegionWithLeader)
        → (double_check_key gen later k d p).1 ≡ hit r
        → p.1 ≡ some r
    again d (y, some x) g = ap some (hit-injective x r g)
    again d (y, none) g = ground (arith, g)

    join :
        (o : Option (Unit {0}))
        → (join_key gen later k (with_map c m) o).1 ≡ hit r
        → (◌≡◌ {A = Option RegionWithLeader} none (some r))
          ⊎ ((cached_by_key gen c.ttl later m k).1 ≡ some r)
    join (some u) g = ground (arith, g)
    join none g =
        let d : RegionCache = record c {
          region_cache = m;
          in_flight_region_by_key = OrdMap.insert k tt c.in_flight_region_by_key;
        } in
        inr (again d (cached_by_key gen c.ttl later m k) g)

-- A hit by key is a region that holds the key.
pub get_region_by_key-contains :
    (gen : ℕ → ℕ) (now later : ℕ) (k : Key) (c : RegionCache) (r : RegionWithLeader)
    → (get_region_by_key gen now later k c).1 ≡ hit r
    → contains r k ≡ true
unfolding get_region_by_key cached_by_key
get_region_by_key-contains gen now later k c r h =
    let (m, found) = cached_by_key gen c.ttl now c.region_cache k in
    elim (check_key-hit gen later k c (m, found) r h) [
      | inl g ↦
          (use_indexed-ok gen c.ttl now (λ x. contains x k) c.region_cache
            (last_upto k c.region_cache.key_to_ver_id) r g).0
      | inr g ↦
          (use_indexed-ok gen c.ttl later (λ x. contains x k) m (last_upto k m.key_to_ver_id) r g).0
    ]

-- What a round does to the marker of its key, by its outcome: a hit leaves it, a task that waits
-- found it set, and a loader has set it.
abbrev pub Marked : Option (Unit {0}) → Option (Unit {0}) → Lookup → Type 0
Marked before after (hit r) = after ≡ before
Marked before after must_wait = (before ≡ some tt) × (after ≡ some tt)
Marked before after must_fetch = (before ≡ none) × (after ≡ some tt)

-- A round of a lookup by key leaves its key's marker on a hit, has found it set when it waits, and
-- has set it, unset before, when it becomes the loader.
pub get_region_by_key-Marked :
    (gen : ℕ → ℕ) (now later : ℕ) (k : Key) (c : RegionCache)
    → Marked
        (OrdMap.get k c.in_flight_region_by_key)
        (OrdMap.get k (get_region_by_key gen now later k c).0.in_flight_region_by_key)
        (get_region_by_key gen now later k c).1
unfolding get_region_by_key
get_region_by_key-Marked gen now later k c = check (cached_by_key gen c.ttl now c.region_cache k)
  where
    again :
        (d : RegionCache) (p : RegionCacheMap × Option RegionWithLeader)
        → OrdMap.get k d.in_flight_region_by_key ≡ some tt
        → Marked none
            (OrdMap.get k (double_check_key gen later k d p).0.in_flight_region_by_key)
            (double_check_key gen later k d p).1
    again d (y, some x) g = get-remove_self k d.in_flight_region_by_key
    again d (y, none) g = (refl, g)

    join :
        (m : RegionCacheMap) (o : Option (Unit {0}))
        → OrdMap.get k c.in_flight_region_by_key ≡ o
        → Marked o
            (OrdMap.get k (join_key gen later k (with_map c m) o).0.in_flight_region_by_key)
            (join_key gen later k (with_map c m) o).1
    join m (some tt) g = (refl, g)
    join m none g =
        let d : RegionCache = record c {
          region_cache = m;
          in_flight_region_by_key = OrdMap.insert k tt c.in_flight_region_by_key;
        } in
        again d (cached_by_key gen c.ttl later m k) (get-insert_self k tt c.in_flight_region_by_key)

    check :
        (p : RegionCacheMap × Option RegionWithLeader)
        → Marked
            (OrdMap.get k c.in_flight_region_by_key)
            (OrdMap.get k (check_key gen later k c p).0.in_flight_region_by_key)
            (check_key gen later k c p).1
    check (m, some x) = refl
    check (m, none) = join m (OrdMap.get k c.in_flight_region_by_key) refl

-- In every state that the operations reach from an empty cache, a region cached under an id has
-- that id.
pub cached_by_id-id :
    (gen : ℕ → ℕ) (es : List CacheEvent) (t : RegionCacheTtl) (now i : ℕ) (r : RegionWithLeader)
    → (cached_by_id gen t now (perform_all es (new_with_ttl t)).region_cache i).1 ≡ some r
    → region_id r ≡ i
unfolding cached_by_id
cached_by_id-id gen es t now i r h =
    let m = (perform_all es (new_with_ttl t)).region_cache in
    let w : IsConsistent m = reached-IsConsistent es t in
    let (y, v, c, there, at, same) =
      use_indexed-ok gen t now (λ x. true) m (OrdMap.get i m.id_to_ver_id) r h in
    sym (ap (λ x. region_id x) same)
    ∙ sym (ver_id-id c.region)
    ∙ ap (λ x. x.id) (w.versions v c at)
    ∙ (w.ids i v there).0

index_region-hit :
    (gen : ℕ → ℕ) (t : RegionCacheTtl) (now ttl : ℕ) (r : RegionWithLeader) (m : RegionCacheMap)
    → (is_enabled t && ltb ttl now) ≡ false
    → (cached_by_id gen t now (index_region r ttl m) (region_id r)).1 ≡ some r
unfolding cached_by_id
index_region-hit gen t now ttl r m h =
    let entry : CachedRegion = record { region = r; ttl_epoch_sec = ttl } in
    rw (get-insert_self (region_id r) (ver_id r) m.id_to_ver_id) (
      rw (get-insert_self (ver_id r) entry m.ver_id_to_region)
        (rw (check_and_refresh-valid gen t now ttl) (rw h refl)))

-- A region that was added is found under its id until its expiry, when enabled, is past.
pub add_region-hit :
    (gen draw : ℕ → ℕ) (at now : ℕ) (r : RegionWithLeader) (c : RegionCache)
    → (is_enabled c.ttl && ltb (next_ttl draw c.ttl at) now) ≡ false
    → (cached_by_id gen c.ttl now (add_region draw at r c).region_cache (region_id r)).1 ≡ some r
unfolding add_region add_to_map
add_region-hit gen draw at now r c h =
    let m = c.region_cache in
    let (stale, over) =
      scan_back m.ver_id_to_region (start_key r)
        (reverse (search_range (end_key r) m.key_to_ver_id)) in
    let m' : RegionCacheMap = record m { key_to_ver_id = remove_keys stale m.key_to_ver_id } in
    let vs = other_version (ver_id r) (OrdMap.get (region_id r) m.id_to_ver_id) ++ over in
    index_region-hit gen c.ttl now (next_ttl draw c.ttl at) r (drop_regions vs m') h
