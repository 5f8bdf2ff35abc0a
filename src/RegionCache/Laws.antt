-- ===== src/RegionCache/Laws.antt =====
-- The changes of the indexes keep them in agreement.
use rust_tikv_client.Prelude.{
  ℕ, ◌≡◌, refl, sym, ap, subst, ◌∙◌, ◌≢◌, inl, inr, Option, none, some, List, [], ◌∷◌, ◌++◌,
  reverse, arith,
}
use rust_tikv_client.Order.{bytes_ord, nat_ord}
use rust_tikv_client.OrdMap
use rust_tikv_client.OrdMap.{
  OrdMap, get-insert_self, get-insert_ne, get-remove_ne, remove-some, insert-some, insert-found,
}
use rust_tikv_client.Region.{
  RegionVerId, ver_id_ord, RegionWithLeader, start_key, end_key, region_id, ver_id,
}
use rust_tikv_client.RegionCache.{CachedRegion, RegionCacheMap}
use rust_tikv_client.RegionCache.Index.{
  add_to_map, index_region, drop_region, drop_regions, scan_back, remove_keys, other_version,
  search_range,
}

-- Each region stands under its own version, and each id of the index leads to a region with that
-- id.
pub record IsConsistent (m : RegionCacheMap) : Type 0 where
  pub versions :
      (v : RegionVerId) (c : CachedRegion)
      → OrdMap.get v m.ver_id_to_region ≡ some c
      → ver_id c.region ≡ v
  pub ids :
      (i : ℕ) (v : RegionVerId)
      → OrdMap.get i m.id_to_ver_id ≡ some v
      → (v.id ≡ i) × (c : CachedRegion) × (OrdMap.get v m.ver_id_to_region ≡ some c)

pub ver_id-id : (r : RegionWithLeader) → (ver_id r).id ≡ region_id r
unfolding ver_id
ver_id-id r = ground arith

pub drop_region-IsConsistent :
    (m : RegionCacheMap) (v : RegionVerId)
    → IsConsistent m
    → IsConsistent (drop_region m v (OrdMap.get v m.ver_id_to_region))
drop_region-IsConsistent m v w = go (OrdMap.get v m.ver_id_to_region) refl
  where
    go :
        (o : Option CachedRegion)
        → OrdMap.get v m.ver_id_to_region ≡ o
        → IsConsistent (drop_region m v o)
    go none e = w
    go (some c) e = record {
      versions = λ u d h. w.versions u d (remove-some v u d m.ver_id_to_region h).1;
      ids = λ i u h.
          let (n, old) = remove-some (region_id c.region) i u m.id_to_ver_id h in
          let (same, d, there) = w.ids i u old in
          let other : u ≢ v =
            λ p. n (sym same ∙ ap (λ x. x.id) (p ∙ sym (w.versions v c e)) ∙ ver_id-id c.region) in
          (same, d, get-remove_ne v u m.ver_id_to_region other ∙ there);
    }

index_region-IsConsistent :
    (m : RegionCacheMap) (r : RegionWithLeader) (ttl : ℕ)
    → IsConsistent m
    → IsConsistent (index_region r ttl m)
index_region-IsConsistent m r ttl w = record {
  versions = λ v c h. elim (insert-some (ver_id r) v entry c m.ver_id_to_region h) [
    | inl (p, q) ↦ ap (λ x. ver_id x.region) (sym q) ∙ sym p
    | inr (p, q) ↦ w.versions v c q
  ];
  ids = λ i v h. elim (insert-some (region_id r) i (ver_id r) v m.id_to_ver_id h) [
    | inl (p, q) ↦ (
      ap (λ x. x.id) (sym q) ∙ ver_id-id r ∙ sym p,
      entry,
      subst (λ x. OrdMap.get x (OrdMap.insert (ver_id r) entry m.ver_id_to_region) ≡ some entry) q
          (get-insert_self (ver_id r) entry m.ver_id_to_region),
    )
    | inr (p, q) ↦
        let (same, d, there) = w.ids i v q in
        let other : v ≢ ver_id r = λ e. p (sym same ∙ ap (λ x. x.id) e ∙ ver_id-id r) in
        (same, d, get-insert_ne (ver_id r) v entry m.ver_id_to_region other ∙ there)
  ];
}
  where
    entry : CachedRegion
    entry = record { region = r; ttl_epoch_sec = ttl }

drop_regions-IsConsistent :
    (vs : List RegionVerId) (m : RegionCacheMap) → IsConsistent m → IsConsistent (drop_regions vs m)
unfolding drop_regions
drop_regions-IsConsistent [] m w = w
drop_regions-IsConsistent (v ∷ vs) m w =
    drop_regions-IsConsistent vs (drop_region m v (OrdMap.get v m.ver_id_to_region))
      (drop_region-IsConsistent m v w)

pub add_to_map-IsConsistent :
    (r : RegionWithLeader) (ttl : ℕ) (m : RegionCacheMap)
    → IsConsistent m
    → IsConsistent (add_to_map r ttl m)
unfolding add_to_map
add_to_map-IsConsistent r ttl m w =
    let (stale, over) =
      scan_back m.ver_id_to_region (start_key r)
        (reverse (search_range (end_key r) m.key_to_ver_id)) in
    let m' : RegionCacheMap = record m { key_to_ver_id = remove_keys stale m.key_to_ver_id } in
    let w' : IsConsistent m' = record { versions = w.versions; ids = w.ids } in
    let vs = other_version (ver_id r) (OrdMap.get (region_id r) m.id_to_ver_id) ++ over in
    index_region-IsConsistent (drop_regions vs m') r ttl (drop_regions-IsConsistent vs m' w')

-- A change of a cached region that keeps its version.
pub replace-IsConsistent :
    (m : RegionCacheMap) (v : RegionVerId) (c d : CachedRegion)
    → OrdMap.get v m.ver_id_to_region ≡ some c
    → ver_id d.region ≡ ver_id c.region
    → IsConsistent m
    → IsConsistent (record m { ver_id_to_region = OrdMap.insert v d m.ver_id_to_region })
replace-IsConsistent m v c d e k w = record {
  versions = λ u x h. elim (insert-some v u d x m.ver_id_to_region h) [
    | inl (p, q) ↦ ap (λ y. ver_id y.region) (sym q) ∙ k ∙ w.versions v c e ∙ sym p
    | inr (p, q) ↦ w.versions u x q
  ];
  ids = λ i u h.
      let (same, x, there) = w.ids i u h in
      let (y, found) = insert-found v u d x m.ver_id_to_region there in (same, y, found);
}
