-- ===== src/Keyspace.antt =====
-- src/request/keyspace.rs: keys of a keyspace carry a prefix of four bytes, the key mode and the
-- three low bytes of the keyspace's id.
pub mod Laws
mod Tests
use rust_tikv_client.Prelude.{
  ℕ, suc, ◌+◌, ◌/◌, ◌%◌, ◌^◌, ◌-◌, Bool, true, false, not, ◌&&◌, Option, none, some, List, [], ◌∷◌,
  ◌++◌, ◌==◌, ltb, leb, if◌then◌else◌, length, drop, reverse,
}
use rust_tikv_client.Order.{bytes_ord, before, upto}
use rust_tikv_client.Key.{Key, Value, Bound, included, excluded, unbounded, is_empty}
use rust_tikv_client.Range.{BoundRange}
use rust_tikv_client.Buffer.Entry.{Mutation}

pub data Keyspace : Type 0 where
  disable : Keyspace
  enable : ℕ → Keyspace

pub data KeyMode : Type 0 where
  raw txn : KeyMode

abbrev pub raw_key_prefix : ℕ
raw_key_prefix = b'r'

abbrev pub txn_key_prefix : ℕ
txn_key_prefix = b'x'

abbrev pub keyspace_prefix_len : ℕ
keyspace_prefix_len = 4

abbrev pub max_keyspace_id : ℕ
max_keyspace_id = 2 ^ 24 - 1

pub data ApiVersion : Type 0 where
  v1 v2 : ApiVersion

unfoldable pub api_version : Keyspace → ApiVersion
api_version disable = v1
api_version (enable id) = v2

-- `none` is the error "invalid keyspace_id".
unfoldable pub try_enable : ℕ → Option Keyspace
try_enable id = if ltb max_keyspace_id id then none else some (enable id)

abbrev pub mode_byte : KeyMode → ℕ
mode_byte raw = raw_key_prefix
mode_byte txn = txn_key_prefix

-- `to_be_bytes` of a `u32`, with the first byte replaced by the mode.
unfoldable pub keyspace_prefix : ℕ → KeyMode → List ℕ
keyspace_prefix id mode = mode_byte mode ∷ id / 2 ^ 16 % 256 ∷ id / 2 ^ 8 % 256 ∷ id % 256 ∷ []

-- The loop of `keyspace_end_prefix` over the bytes from the last to the first: it stops at the
-- first byte that does not overflow.
unfoldable pub increment : List ℕ → List ℕ
increment [] = []
increment (b ∷ bs) = let rest = increment bs in if b == 255 then 0 ∷ rest else (b + 1) ∷ bs

unfoldable pub keyspace_end_prefix : ℕ → KeyMode → List ℕ
unfolding keyspace_prefix increment
keyspace_end_prefix id mode = reverse (increment (reverse (keyspace_prefix id mode)))

-- `prepend_bytes` and `pretruncate_bytes`: a key shorter than the prefix stays as it is.
abbrev pub prepend_bytes : List ℕ → Key → Key
prepend_bytes prefix k = prefix ++ k

abbrev pub pretruncate_bytes : ℕ → Key → Key
pretruncate_bytes n k = if ltb (length k) n then k else drop n k

unfoldable pub encode_keyspace : Key → Keyspace → KeyMode → Key
unfolding keyspace_prefix
encode_keyspace k disable mode = k
encode_keyspace k (enable id) mode = prepend_bytes (keyspace_prefix id mode) k

unfoldable pub truncate_keyspace : Key → Keyspace → Key
truncate_keyspace k disable = k
truncate_keyspace k (enable id) = pretruncate_bytes keyspace_prefix_len k

abbrev pub encode_from : Keyspace → KeyMode → Bound Key → Bound Key
encode_from ks mode (included k) = included (encode_keyspace k ks mode)
encode_from ks mode (excluded k) = excluded (encode_keyspace k ks mode)
encode_from ks mode unbounded = included (encode_keyspace [] ks mode)

abbrev pub keyspace_end : Keyspace → KeyMode → Key
keyspace_end disable mode = []
keyspace_end (enable id) mode = prepend_bytes (keyspace_end_prefix id mode) []

abbrev pub encode_to : Keyspace → KeyMode → Bound Key → Bound Key
encode_to ks mode (included k) =
    if not (is_empty k)
    then included (encode_keyspace k ks mode)
    else excluded (keyspace_end ks mode)
encode_to ks mode (excluded k) =
    if not (is_empty k)
    then excluded (encode_keyspace k ks mode)
    else excluded (keyspace_end ks mode)
encode_to ks mode unbounded = excluded (keyspace_end ks mode)

unfoldable pub encode_range : BoundRange → Keyspace → KeyMode → BoundRange
unfolding encode_keyspace keyspace_end_prefix
encode_range r ks mode = record { from = encode_from ks mode r.from; to = encode_to ks mode r.to }

unfoldable pub encode_mutation : Mutation → Keyspace → KeyMode → Mutation
unfolding encode_keyspace
encode_mutation (Mutation.put k v) ks mode = Mutation.put (encode_keyspace k ks mode) v
encode_mutation (Mutation.delete k) ks mode = Mutation.delete (encode_keyspace k ks mode)
