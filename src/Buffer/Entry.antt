-- ===== src/Buffer/Entry.antt =====
-- src/transaction/buffer.rs: the entries of the buffer, and the values and requests that they
-- stand for.
use rust_tikv_client.Prelude.{ℕ, Option, none, some, [], ◌+◌, length}
use rust_tikv_client.Key.{Key, Value}

pub data BufferEntry : Type 0 where
  cached : Option Value → BufferEntry
  locked : Option (Option Value) → BufferEntry
  put : Value → BufferEntry
  del : BufferEntry
  insert : Value → BufferEntry
  check_not_exist : BufferEntry

pub data MutationValue : Type 0 where
  determined : Option Value → MutationValue
  undetermined : MutationValue

pub data ReadValueState : Type 0 where
  local : Option Value → ReadValueState
  cached : Option Value → ReadValueState
  undetermined : ReadValueState

-- `kvrpcpb::Op`, `kvrpcpb::Assertion`, `kvrpcpb::AssertionLevel` and `kvrpcpb::Mutation`.
pub data Op : Type 0 where
  put del lock rollback insert pessimistic_lock check_not_exists : Op

pub data Assertion : Type 0 where
  unasserted exist not_exist : Assertion

pub data AssertionLevel : Type 0 where
  off fast strict : AssertionLevel

pub record ProtoMutation : Type 0 where
  pub op : Op
  pub key : Key
  pub value : Value
  pub assertion : Assertion

abbrev pub proto : Op → Key → Value → Option ProtoMutation
proto o k v = some (record { op = o; key = k; value = v; assertion = Assertion.unasserted })

unfoldable pub to_proto_with_key : BufferEntry → Key → Option ProtoMutation
to_proto_with_key (BufferEntry.cached v) k = none
to_proto_with_key (BufferEntry.put v) k = proto Op.put k v
to_proto_with_key BufferEntry.del k = proto Op.del k []
to_proto_with_key (BufferEntry.locked v) k = proto Op.lock k []
to_proto_with_key (BufferEntry.insert v) k = proto Op.insert k v
to_proto_with_key BufferEntry.check_not_exist k = proto Op.check_not_exists k []

unfoldable pub get_value : BufferEntry → MutationValue
get_value (BufferEntry.cached v) = MutationValue.determined v
get_value (BufferEntry.put v) = MutationValue.determined (some v)
get_value BufferEntry.del = MutationValue.determined none
get_value (BufferEntry.locked none) = MutationValue.undetermined
get_value (BufferEntry.locked (some v)) = MutationValue.determined v
get_value (BufferEntry.insert v) = MutationValue.determined (some v)
get_value BufferEntry.check_not_exist = MutationValue.determined none

-- One arm of `read_value_state`.
unfoldable pub value_state : Option BufferEntry → ReadValueState
value_state none = ReadValueState.undetermined
value_state (some (BufferEntry.put v)) = ReadValueState.local (some v)
value_state (some (BufferEntry.insert v)) = ReadValueState.local (some v)
value_state (some BufferEntry.del) = ReadValueState.local none
value_state (some BufferEntry.check_not_exist) = ReadValueState.local none
value_state (some (BufferEntry.cached v)) = ReadValueState.cached v
value_state (some (BufferEntry.locked (some v))) = ReadValueState.cached v
value_state (some (BufferEntry.locked none)) = ReadValueState.undetermined

-- An arm of the sum in `get_write_size`.
abbrev pub entry_size : Key → BufferEntry → ℕ
entry_size k (BufferEntry.put v) = length v + length k
entry_size k (BufferEntry.insert v) = length v + length k
entry_size k BufferEntry.del = length k
entry_size k _ = 0

pub data EntryKind : Type 0 where
  cached put del insert check_not_exist : EntryKind

-- `buffer cache mismatch (entry=…, key_len=…)`, or an error of the fetch.
pub data Error : Type 0 where
  cache_mismatch : EntryKind → ℕ → Error
  fetch_failed : ℕ → Error
  range_panicked : Error

pub data Result {ℓ} (A : Type ℓ) : Type ℓ where
  ok : A → Result A
  err : Error → Result A

-- `super::transaction::Mutation`
pub data Mutation : Type 0 where
  put : Key → Value → Mutation
  delete : Key → Mutation
