-- ===== src/Buffer/Fetch/Batch.antt =====
-- `batch_get_or_else` returns what the buffer then holds.
use rust_tikv_client.Prelude.{
  ◌≡◌, refl, ap, subst, sym, ◌∙◌, Option, some, List, [], ◌∷◌, ◌++◌, arith, All, All-append,
  All-imp,
}
use rust_tikv_client.Order.{bytes_ord, eqb_iff}
use rust_tikv_client.Key.{Key, Value}
use rust_tikv_client.Buffer.Entry.{MutationValue, Result, ok, err}
use rust_tikv_client.Buffer.{Buffer, get_from_mutations, update_cache}
use rust_tikv_client.Buffer.Fetch.Laws.{update_cache-value, Outcome, update_cache-Outcome}
use rust_tikv_client.Buffer.Fetch.{
  KvPair, batch_get_or_else, undetermined_keys, cached_results, update_all, fetch_many, then_ok,
}

abbrev pub Holds : Buffer → KvPair → Type 0
Holds b p = get_from_mutations b p.key ≡ MutationValue.determined (some p.value)

update_all-keeps :
    (b : Buffer) (ps : List KvPair) (j : Key) (w : Option Value)
    → get_from_mutations b j ≡ MutationValue.determined w
    → get_from_mutations (update_all b ps).0 j ≡ MutationValue.determined w
unfolding update_all
update_all-keeps b [] j w h = h
update_all-keeps b (p ∷ ps) j w h =
    let c = (update_cache b p.key (some p.value)).0 in
    let kept : get_from_mutations c j ≡ MutationValue.determined w =
      ground (arith, update_cache-value b p.key (some p.value) j, eqb_iff j p.key) in
    ground (arith, kept, update_all-keeps c ps j w kept)

abbrev after_update : List KvPair → Buffer × Result (Unit {0}) → Buffer × Result (Unit {0})
after_update ps r = elim r.1 [ ok _ ↦ update_all r.0 ps | err e ↦ (r.0, err e) ]

update_all-cons :
    (b : Buffer) (p : KvPair) (ps : List KvPair) (r : Buffer × Result (Unit {0}))
    → update_cache b p.key (some p.value) ≡ r
    → update_all b (p ∷ ps) ≡ after_update ps r
unfolding update_all
update_all-cons b p ps r e = ap (after_update ps) e

update_all-Holds :
    (b : Buffer) (ps : List KvPair)
    → (update_all b ps).1 ≡ ok tt
    → All (Holds (update_all b ps).0) ps
update_all-Holds b [] h = tt
update_all-Holds b (p ∷ ps) h =
    go (update_cache b p.key (some p.value)) refl (update_cache-Outcome b p.key (some p.value))
      (λ c. update_all-Holds c ps)
  where
    go :
        (r : Buffer × Result (Unit {0}))
        → update_cache b p.key (some p.value) ≡ r
        → Outcome b p.key (some p.value) r
        → ((c : Buffer) → (update_all c ps).1 ≡ ok tt → All (Holds (update_all c ps).0) ps)
        → All (Holds (update_all b (p ∷ ps)).0) (p ∷ ps)
    go (c, ok u) e o rest =
        let s = update_all-cons b p ps (c, ok u) e in
        subst (λ x. All (Holds x.0) (p ∷ ps)) (sym s)
          (update_all-keeps c ps p.key (some p.value) o, rest c (sym (ap (λ x. x.1) s) ∙ h))
    go (c, err x) e o rest =
        let g = sym (ap (λ x. x.1) (update_all-cons b p ps (c, err x) e)) ∙ h in cc

cached_results-Holds : (b : Buffer) (ks : List Key) → All (Holds b) (cached_results b ks)
unfolding cached_results
cached_results-Holds b [] = tt
cached_results-Holds b (k ∷ ks) = ground (arith, cached_results-Holds b ks)

-- Every pair that a batch read returns, buffered or fetched, is what the buffer holds for its key
-- afterwards.
pub batch_get_or_else-Holds :
    (b c : Buffer) (ks : List Key) (f : List Key → Result (List KvPair)) (ps : List KvPair)
    → batch_get_or_else b ks f ≡ (c, ok ps)
    → All (Holds c) ps
unfolding batch_get_or_else
batch_get_or_else-Holds b c ks f ps h = go (f (undetermined_keys b ks)) h
  where
    merged :
        (fetched : List KvPair) (r : Buffer × Result (Unit {0}))
        → update_all b fetched ≡ r
        → then_ok r (cached_results b ks ++ fetched) ≡ (c, ok ps)
        → All (Holds c) ps
    merged fetched (d, err e) g q = cc
    merged fetched (d, ok _) g q =
        let same : d ≡ c = cc in
        let list : cached_results b ks ++ fetched ≡ ps = cc in
        let here : (update_all b fetched).0 ≡ c = cc in
        subst (All (Holds c)) list (
          subst (λ x. All (Holds x) (cached_results b ks ++ fetched)) here
            (All-append (Holds (update_all b fetched).0) (cached_results b ks) fetched
              (All-imp (Holds b) (Holds (update_all b fetched).0) (cached_results b ks)
                (λ p held. update_all-keeps b fetched p.key (some p.value) held)
                (cached_results-Holds b ks))
              (update_all-Holds b fetched (ap (λ x. x.1) g))))

    go :
        (r : Result (List KvPair))
        → fetch_many b (cached_results b ks) r ≡ (c, ok ps)
        → All (Holds c) ps
    go (err e) q = cc
    go (ok fetched) q = merged fetched (update_all b fetched) refl q
