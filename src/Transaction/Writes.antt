-- ===== src/Transaction/Writes.antt =====
-- src/transaction/transaction.rs: the calls that write and lock.
use rust_tikv_client.Prelude.{Bool, false, List, [], ◌∷◌, if◌then◌else◌, map}
use rust_tikv_client.Key.{Key, Value}
use rust_tikv_client.Flags.{FlagsOp}
use rust_tikv_client.Keyspace.{Keyspace, txn, encode_keyspace}
use rust_tikv_client.Buffer
use rust_tikv_client.Buffer.{Buffer}
use rust_tikv_client.Buffer.Entry.{Assertion, Mutation}
use rust_tikv_client.Buffer.Primary.{is_some}
use rust_tikv_client.Transaction.Results.{ok, err, returns, duplicate_key_insertion}
use rust_tikv_client.Transaction.Options.{is_pessimistic}
use rust_tikv_client.Transaction.{
  Transaction, World, Done, done, and_then, set_buffer, check_allow_operation,
  pipelined_record_key_change, pipelined_maybe_flush,
}
use rust_tikv_client.Transaction.Locking.{pessimistic_lock}

abbrev pub discard {ℓ} : {A : Type ℓ} → Done A → Done (Unit {0})
discard d = and_then d (λ t a. done t [] (returns (ok tt)))

-- `if self.is_pessimistic() { self.pessimistic_lock(...).await?; }`
abbrev pub lock_if_pessimistic : World → Transaction → List (Key × Assertion) → Done (Unit {0})
lock_if_pessimistic w t ls =
    if is_pessimistic t.options
    then discard (pessimistic_lock w t false ls)
    else done t [] (returns (ok tt))

abbrev pub unasserted : Key → Key × Assertion
unasserted k = (k, Assertion.unasserted)

abbrev pub encoded : Transaction → Key → Key
encoded t k = encode_keyspace k t.keyspace txn

-- The buffer is changed, the change is recorded, and the pipelined state may be flushed.
abbrev pub write : World → Transaction → Key → Buffer → Done (Unit {0})
write w t k b = pipelined_maybe_flush w (pipelined_record_key_change (set_buffer t b) k)

unfoldable pub put : World → Transaction → Key → Value → Done (Unit {0})
unfolding check_allow_operation is_pessimistic pessimistic_lock encode_keyspace Buffer.put
    pipelined_record_key_change pipelined_maybe_flush
put w t key value = and_then (check_allow_operation t) (λ u x.
    let k = encoded u key in
    and_then (lock_if_pessimistic w u (unasserted k ∷ []))
      (λ v y. write w v k (Buffer.put v.buffer k value)))

unfoldable pub insert : World → Transaction → Key → Value → Done (Unit {0})
unfolding check_allow_operation is_pessimistic pessimistic_lock encode_keyspace Buffer.insert
    Buffer.get pipelined_record_key_change pipelined_maybe_flush
insert w t key value = and_then (check_allow_operation t) (λ u x.
    let k = encoded u key in
    if is_some (Buffer.get u.buffer k)
    then done u [] (returns (err duplicate_key_insertion))
    else and_then (lock_if_pessimistic w u ((k, Assertion.not_exist) ∷ []))
        (λ v y. write w v k (Buffer.insert v.buffer k value)))

unfoldable pub delete : World → Transaction → Key → Done (Unit {0})
unfolding check_allow_operation is_pessimistic pessimistic_lock encode_keyspace Buffer.delete
    pipelined_record_key_change pipelined_maybe_flush
delete w t key = and_then (check_allow_operation t) (λ u x.
    let k = encoded u key in
    and_then (lock_if_pessimistic w u (unasserted k ∷ []))
      (λ v y. write w v k (Buffer.delete v.buffer k)))

-- The calls that mark a key do not ask whether the transaction is operable.
unfoldable pub set_key_assertion : Transaction → Key → Assertion → Transaction
unfolding encode_keyspace Buffer.set_assertion pipelined_record_key_change
set_key_assertion t key assertion =
    let k = encoded t key in
    pipelined_record_key_change (set_buffer t (Buffer.set_assertion t.buffer k assertion)) k

unfoldable pub update_key_flags : Transaction → Key → List FlagsOp → Transaction
unfolding encode_keyspace Buffer.update_key_flags pipelined_record_key_change
update_key_flags t key ops =
    let k = encoded t key in
    pipelined_record_key_change (set_buffer t (Buffer.update_key_flags t.buffer k ops)) k

abbrev pub mutation_key : Mutation → Key
mutation_key (Mutation.put k v) = k
mutation_key (Mutation.delete k) = k

abbrev pub encode_mutation : Keyspace → Mutation → Mutation
encode_mutation ks (Mutation.put k v) = Mutation.put (encode_keyspace k ks txn) v
encode_mutation ks (Mutation.delete k) = Mutation.delete (encode_keyspace k ks txn)

unfoldable pub mutate_all : Transaction → List Mutation → Transaction
unfolding Buffer.mutate pipelined_record_key_change
mutate_all t [] = t
mutate_all t (m ∷ ms) =
    mutate_all
      (pipelined_record_key_change (set_buffer t (Buffer.mutate t.buffer m)) (mutation_key m)) ms

unfoldable pub batch_mutate : World → Transaction → List Mutation → Done (Unit {0})
unfolding check_allow_operation is_pessimistic pessimistic_lock encode_keyspace mutate_all
    pipelined_maybe_flush
batch_mutate w t mutations = and_then (check_allow_operation t) (λ u x.
    let ms = map (encode_mutation u.keyspace) mutations in
    and_then (lock_if_pessimistic w u (map (λ m. unasserted (mutation_key m)) ms))
      (λ v y. pipelined_maybe_flush w (mutate_all v ms)))

unfoldable pub lock_each : Transaction → List Key → Transaction
unfolding Buffer.lock pipelined_record_key_change
lock_each t [] = t
lock_each t (k ∷ ks) =
    lock_each (pipelined_record_key_change (set_buffer t (Buffer.lock t.buffer k)) k) ks

-- `force` is the wake-up mode of the options; `lock_keys` passes the default, which is not it.
unfoldable pub lock_keys_with_options : World → Transaction → Bool → List Key → Done (Unit {0})
unfolding check_allow_operation is_pessimistic pessimistic_lock encode_keyspace lock_each
    pipelined_maybe_flush
lock_keys_with_options w t force keys = and_then (check_allow_operation t) (λ u x.
    let ks = map (encoded u) keys in
    and_then
      (if is_pessimistic u.options
        then discard (pessimistic_lock w u force (map unasserted ks))
        else done (lock_each u ks) [] (returns (ok tt)))
      (λ v y. pipelined_maybe_flush w v))
