-- ===== src/Buffer/Fetch.antt =====
-- src/transaction/buffer.rs: reads through the buffer. The buffer is borrowed for the whole call,
-- so nothing else changes it while the store is asked; the answer of the store is an argument.
pub mod Laws
pub mod Batch
use rust_tikv_client.Prelude.{
  ℕ, Bool, true, false, Option, none, some, List, [], ◌∷◌, ◌++◌, if◌then◌else◌,
}
use rust_tikv_client.Key.{Key, Value}
use rust_tikv_client.Buffer.Entry.{MutationValue, Error, Result, ok, err}
use rust_tikv_client.Buffer.{Buffer, get_from_mutations, update_cache}

pub record KvPair : Type 0 where
  pub key : Key
  pub value : Value

-- `update_cache(..)?` and then `Ok(value)`.
abbrev pub then_ok {ℓ} : {A : Type ℓ} → Buffer × Result (Unit {0}) → A → Buffer × Result A
then_ok (b, ok _) a = (b, ok a)
then_ok (b, err e) a = (b, err e)

fetch_one : Buffer → Key → Result (Option Value) → Buffer × Result (Option Value)
fetch_one b k (err e) = (b, err e)
fetch_one b k (ok v) = then_ok (update_cache b k v) v

unfoldable pub get_or_else :
    Buffer → Key → (Key → Result (Option Value)) → Buffer × Result (Option Value)
unfolding fetch_one
get_or_else b k f = elim (get_from_mutations b k) [
  | MutationValue.determined v ↦ (b, ok v)
  | MutationValue.undetermined ↦ fetch_one b k (f k)
]

abbrev pub is_undetermined : MutationValue → Bool
is_undetermined MutationValue.undetermined = true
is_undetermined (MutationValue.determined v) = false

unfoldable pub undetermined_keys : Buffer → List Key → List Key
undetermined_keys b [] = []
undetermined_keys b (k ∷ ks) =
    if is_undetermined (get_from_mutations b k)
    then k ∷ undetermined_keys b ks
    else undetermined_keys b ks

abbrev pub cons_found : Key → MutationValue → List KvPair → List KvPair
cons_found k (MutationValue.determined (some v)) ps = record { key = k; value = v } ∷ ps
cons_found k (MutationValue.determined none) ps = ps
cons_found k MutationValue.undetermined ps = ps

unfoldable pub cached_results : Buffer → List Key → List KvPair
cached_results b [] = []
cached_results b (k ∷ ks) = cons_found k (get_from_mutations b k) (cached_results b ks)

-- The loop over the fetched pairs: it returns at the first mismatch.
unfoldable pub update_all : Buffer → List KvPair → Buffer × Result (Unit {0})
update_all b [] = (b, ok tt)
update_all b (p ∷ ps) =
    let r = update_cache b p.key (some p.value) in
    elim r.1 [ ok _ ↦ update_all r.0 ps | err e ↦ (r.0, err e) ]

fetch_many : Buffer → List KvPair → Result (List KvPair) → Buffer × Result (List KvPair)
fetch_many b found (err e) = (b, err e)
fetch_many b found (ok fetched) = then_ok (update_all b fetched) (found ++ fetched)

unfoldable pub batch_get_or_else :
    Buffer → List Key → (List Key → Result (List KvPair)) → Buffer × Result (List KvPair)
unfolding fetch_many
batch_get_or_else b ks f = fetch_many b (cached_results b ks) (f (undetermined_keys b ks))
