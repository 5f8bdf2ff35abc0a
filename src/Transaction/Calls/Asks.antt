-- ===== src/Transaction/Calls/Asks.antt =====
-- src/transaction/transaction.rs: what a pessimistic lock request asks.
use rust_tikv_client.Prelude.{
  ℕ, suc, ◌≡◌, refl, sym, ap, ◌∙◌, ◌==◌, length, List, [], ◌∷◌, not, ◌&&◌, map,
}
use rust_tikv_client.Order.{bytes_ord}
use rust_tikv_client.Key.{Key}
use rust_tikv_client.Buffer.{Buffer}
use rust_tikv_client.Buffer.Entry.{Assertion}
use rust_tikv_client.Transaction.Options.{push_for_update_ts}
use rust_tikv_client.Transaction.Requests.{saturating_add}
use rust_tikv_client.Transaction.Committer.{max_ttl}
use rust_tikv_client.Transaction.{Transaction, PessimisticLockRequest}
use rust_tikv_client.Transaction.Locking.{
  lock_request, presume_all, new_pessimistic_lock_request, or_key,
}

abbrev pub keys_of : List (Key × Assertion) → List Key
keys_of ls = map (λ l. l.0) ls

-- The transaction when the timestamp for the lock request is known.
abbrev pub pushed : Transaction → ℕ → Transaction
pushed t ts = record t { options = push_for_update_ts t.options ts }

-- The request for the locks, and what it asks: the keys, under the primary key of the transaction
-- or the first key, for its start version and the timestamp.
abbrev pub request_for : Transaction → ℕ → Key → List (Key × Assertion) → PessimisticLockRequest
request_for t ts k ls = lock_request (pushed t ts) k (presume_all t.buffer ls) ts

pub record AsksLocks (t : Transaction) (ts : ℕ) (k : Key) (ks : List Key)
    (q : PessimisticLockRequest) : Type 0 where
  pub keys : keys_of q.mutations ≡ ks
  pub primary : q.primary_lock ≡ or_key t.buffer.primary_key k
  pub version : q.start_version ≡ t.timestamp
  pub for_update : q.for_update_ts ≡ ts
  pub first : q.is_first_lock ≡ (not t.has_pessimistic_lock && length ks == 1)
  pub ttl : q.lock_ttl ≡ max_ttl
  pub min_commit : q.min_commit_ts ≡ saturating_add ts 1

pub presume_all-keys :
    (b : Buffer) (ls : List (Key × Assertion)) → keys_of (presume_all b ls) ≡ keys_of ls
unfolding presume_all
presume_all-keys b [] = refl
presume_all-keys b ((k, a) ∷ ls) = ap (◌∷◌ k) (presume_all-keys b ls)

length-keys_of : (ls : List (Key × Assertion)) → length (keys_of ls) ≡ length ls
length-keys_of [] = refl
length-keys_of (l ∷ ls) = ap (λ n. suc n) (length-keys_of ls)

pub request_for-AsksLocks :
    (t : Transaction) (ts : ℕ) (k : Key) (ls : List (Key × Assertion))
    → AsksLocks t ts k (keys_of ls) (request_for t ts k ls)
unfolding lock_request new_pessimistic_lock_request
request_for-AsksLocks t ts k ls = record {
  keys = presume_all-keys t.buffer ls;
  primary = refl;
  version = refl;
  for_update = refl;
  first =
      ap (λ n. not t.has_pessimistic_lock && n == 1)
        (sym (length-keys_of (presume_all t.buffer ls)) ∙ ap length (presume_all-keys t.buffer ls));
  ttl = refl;
  min_commit = refl;
}
