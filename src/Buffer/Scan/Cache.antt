-- ===== src/Buffer/Scan/Cache.antt =====
-- src/transaction/buffer.rs: the loop of `scan_and_fetch` that caches what it returns.
use rust_tikv_client.Prelude.{
  ◌≡◌, refl, sym, ap, ◌∙◌, subst, ◌⊎◌, inl, inr, arith, if-elim, true, false, Option, none, some,
  Bool-cases, [], ◌∷◌, All, if◌then◌else◌, length,
}
use rust_tikv_client.Order.{bytes_ord, eqb, eqb_iff}
use rust_tikv_client.OrdMap
use rust_tikv_client.OrdMap.{OrdMap}
use rust_tikv_client.OrdMap.Sorted.{IsSorted, Above, get_below}
use rust_tikv_client.Key.{Key, Value}
use rust_tikv_client.Buffer.Entry.{
  BufferEntry, EntryKind, ReadValueState, cache_mismatch, Result, ok, err, value_state,
}
use rust_tikv_client.Buffer.{
  Buffer, read_value_state, update_cache, update_entry, same_value, check,
}
use rust_tikv_client.Buffer.View.{learn, update, update_cache-view}
use rust_tikv_client.Buffer.Scan.{cache_results}

-- What the buffer says of a key does not contradict a value.
abbrev pub Reads : Value → ReadValueState → Type 0
Reads v (ReadValueState.local w) = w ≡ some v
Reads v (ReadValueState.cached w) = w ≡ some v
Reads v ReadValueState.undetermined = Unit

-- A value that is cached is read when nothing was known.
abbrev pub filled : Option Value → ReadValueState → ReadValueState
filled none s = s
filled (some v) s = learn (some v) s

-- The buffer contradicts the value of an entry.
abbrev pub Clash : Buffer → OrdMap Key Value → Result (Unit {0}) → Type 0
Clash b m o =
    (k : Key) × (v : Value) × (kind : EntryKind) × (OrdMap.get k m ≡ some v)
    × ¬ Reads v (read_value_state b k)
    × (o ≡ err (cache_mismatch kind (length k)))

-- The buffer contradicts no entry, and all are cached.
abbrev pub AllCached : Buffer → OrdMap Key Value → Buffer → Type 0
AllCached b m c =
    All (λ p. Reads p.1 (read_value_state b p.0)) m
    × ((j : Key) → read_value_state c j ≡ filled (OrdMap.get j m) (read_value_state b j))

abbrev Ends : Buffer → OrdMap Key Value → Buffer × Result (Unit {0}) → Type 0
Ends b m (c, o) = (AllCached b m c × (o ≡ ok tt)) ⊎ Clash b m o

same_value-reads :
    (v : Value) (w : Option Value)
    → ((same_value (some v) w ≡ true) × (w ≡ some v))
      ⊎ ((same_value (some v) w ≡ false) × ¬ (w ≡ some v))
same_value-reads v none = inr (refl, λ h. ground (arith, h))
same_value-reads v (some w) = elim (Bool-cases (eqb v w)) [
  | inl e ↦ inl (e, ap some (sym ((eqb_iff v w).0 e)))
  | inr e ↦ inr (e, λ h. ground (arith, e, eqb_iff v w, h))
]

module _ (b : Buffer) (k : Key) (v : Value) where
  -- One turn of the loop.
  abbrev Turn : ReadValueState → Buffer × Result (Unit {0}) → Type 0
  Turn s r =
      (Reads v s × (r.1 ≡ ok tt))
      ⊎ ((kind : EntryKind) × ¬ Reads v s × (r.1 ≡ err (cache_mismatch kind (length k))))

  checked :
      (kind : EntryKind) (w : Option Value)
      → let r = check b (same_value (some v) w) kind k in
        ((w ≡ some v) × (r.1 ≡ ok tt))
        ⊎ ((e : EntryKind) × ¬ (w ≡ some v) × (r.1 ≡ err (cache_mismatch e (length k))))
  checked kind w = elim (same_value-reads v w) [
    | inl h ↦ inl (h.1, ap (λ x. (check b x kind k).1) h.0)
    | inr h ↦ inr (kind, h.1, ap (λ x. (check b x kind k).1) h.0)
  ]

  update-Turn : Turn (read_value_state b k) (update_cache b k (some v))
  unfolding read_value_state update_cache value_state
  update-Turn = go (OrdMap.get k b.entry_map)
    where
      go : (o : Option BufferEntry) → Turn (value_state o) (update_entry b k (some v) o)
      go none = inl (tt, refl)
      go (some (BufferEntry.locked none)) = inl (tt, refl)
      go (some (BufferEntry.locked (some w))) = checked EntryKind.cached w
      go (some (BufferEntry.cached w)) = checked EntryKind.cached w
      go (some (BufferEntry.put w)) = checked EntryKind.put (some w)
      go (some BufferEntry.del) = checked EntryKind.del none
      go (some (BufferEntry.insert w)) = checked EntryKind.insert (some w)
      go (some BufferEntry.check_not_exist) = checked EntryKind.check_not_exist none

-- The buffer `c` after the first entry is cached, and the loop over the rest.
module _ (b c : Buffer) (k : Key) (v : Value)
    (view : (j : Key)
      → read_value_state c j
        ≡ update k (learn (some v) (read_value_state b k)) (read_value_state b) j) where
  at_other : (j : Key) → eqb j k ≡ false → read_value_state c j ≡ read_value_state b j
  at_other j e =
      view j ∙ ap (λ x. if x then learn (some v) (read_value_state b k) else read_value_state b j) e

  at_key : read_value_state c k ≡ learn (some v) (read_value_state b k)
  at_key =
      view k
      ∙ ap (λ x. if x then learn (some v) (read_value_state b k) else read_value_state b k)
          ((eqb_iff k k).1 refl)

  before_entries :
      (m : OrdMap Key Value)
      → Above k m
      → All (λ p. Reads p.1 (read_value_state c p.0)) m
      → All (λ p. Reads p.1 (read_value_state b p.0)) m
  before_entries [] a h = tt
  before_entries ((j, w) ∷ m) a (h, hs) = (
    subst (Reads w) (at_other j (ground (arith, a.0, bytes_ord.cmp_eq j k, bytes_ord.cmp_flip k j)))
        h,
    before_entries m a.1 hs,
  )

  module _ (m : OrdMap Key Value) (above : Above k m) where
    found_apart : (j : Key) (w : Value) → OrdMap.get j m ≡ some w → eqb j k ≡ false
    found_apart j w g =
        ground (arith, g, eqb_iff j k, get_below k m above, ap (λ i. OrdMap.get i m))

    filled-cons :
        (j : Key)
        → filled (OrdMap.get j m) (read_value_state c j)
          ≡ filled (OrdMap.get j ((k, v) ∷ m)) (read_value_state b j)
    unfolding OrdMap.get
    filled-cons j =
        if-elim
          (λ o. filled (OrdMap.get j m) (read_value_state c j) ≡ filled o (read_value_state b j))
          (eqb j k) _ _
          (λ e.
            subst
              (λ i.
                filled (OrdMap.get i m) (read_value_state c i)
                ≡ learn (some v) (read_value_state b i))
              (sym ((eqb_iff j k).0 e))
              (ap (λ o. filled o (read_value_state c k)) (get_below k m above) ∙ at_key))
          (λ e. ap (filled (OrdMap.get j m)) (at_other j e))

    Ends-cons :
        (r : Buffer × Result (Unit {0}))
        → Reads v (read_value_state b k)
        → Ends c m r
        → Ends b ((k, v) ∷ m) r
    unfolding OrdMap.get
    Ends-cons (d, o) reads (inl ((all, fill), q)) =
        inl (((reads, before_entries m above all), λ j. fill j ∙ filled-cons j), q)
    Ends-cons (d, o) reads (inr (j, w, kind, g, differs, q)) =
        let apart = found_apart j w g in
        inr (
          j,
          w,
          kind,
          ap (λ x. if x then some v else OrdMap.get j m) apart ∙ g,
          λ h. differs (subst (Reads w) (sym (at_other j apart)) h),
          q,
        )

-- The loop caches every entry, or ends at one that the buffer contradicts.
pub cache_results-Ends :
    (m : OrdMap Key Value) (b : Buffer)
    → IsSorted m
    → let r = cache_results b m in (AllCached b m r.0 × (r.1 ≡ ok tt)) ⊎ Clash b m r.1
unfolding cache_results OrdMap.get
cache_results-Ends [] b s = inl ((tt, λ j. refl), refl)
cache_results-Ends ((k, v) ∷ m) b s =
    let r = update_cache b k (some v) in
    let goal = λ (o : Result (Unit {0})).
      Ends b ((k, v) ∷ m) (elim o [ ok _ ↦ cache_results r.0 m | err e ↦ (r.0, err e) ]) in
    elim (update-Turn b k v) [
      | inl h ↦ subst goal (sym h.1) (
          Ends-cons b r.0 k v (update_cache-view b k (some v)) m s.0 (cache_results r.0 m) h.0
            (cache_results-Ends m r.0 s.1))
      | inr h ↦
          let (kind, differs, q) = h in
          subst goal (sym q) (
            inr (
              k,
              v,
              kind,
              ap (λ x. if x then some v else OrdMap.get k m) ((eqb_iff k k).1 refl),
              differs,
              refl,
            ))
    ]
