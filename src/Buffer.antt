-- ===== src/Buffer.antt =====
-- src/transaction/buffer.rs: the buffer of a transaction's reads and writes. A method returns the
-- buffer after it; the functions that fetch from the store are arguments.
pub mod Entry
pub mod View
pub mod Calls
pub mod Lowering
pub mod Primary
pub mod Lost
pub mod Fetch
pub mod Scan
mod Tests
use rust_tikv_client.Prelude.{
  ℕ, ◌+◌, Bool, true, false, not, ◌&&◌, ◌||◌, ◌==◌, Option, none, some, List, [], ◌∷◌, ◌++◌, arith,
  if◌then◌else◌, length,
}
use rust_tikv_client.Order.{bytes_ord, eqb}
use rust_tikv_client.OrdMap
use rust_tikv_client.OrdMap.{OrdMap}
use rust_tikv_client.Flags.{
  KeyFlags, FlagsOp, apply_all, set_prewrite_only, del_prewrite_only, set_assert_exist,
  set_assert_not_exist, set_assert_none, has_presume_key_not_exists, has_assert_exist,
  has_assert_not_exist,
}
use rust_tikv_client.Key.{Key, Value}
use Entry.{
  BufferEntry, MutationValue, ReadValueState, ProtoMutation, Assertion, AssertionLevel, Op,
  to_proto_with_key, get_value, value_state, entry_size, EntryKind, Error, cache_mismatch, Result,
  ok, err, Mutation,
}

pub record Buffer : Type 0 where
  pub primary_key : Option Key
  pub entry_map : OrdMap Key BufferEntry
  pub key_flags : OrdMap Key KeyFlags
  pub read_commit_ts : OrdMap Key ℕ
  pub is_pessimistic : Bool

unfoldable pub new : Bool → Buffer
new pessimistic = record {
  primary_key = none;
  entry_map = [];
  key_flags = [];
  read_commit_ts = [];
  is_pessimistic = pessimistic;
}

-- `get_or_insert_with` on the primary key.
abbrev pub or_key : Option Key → Key → Option Key
or_key none k = some k
or_key (some p) k = some p

unfoldable pub primary_key_or : Buffer → Key → Buffer
primary_key_or b k = record b { primary_key = or_key b.primary_key k }

abbrev pub or_undetermined : Option BufferEntry → MutationValue
or_undetermined none = MutationValue.undetermined
or_undetermined (some e) = get_value e

unfoldable pub get_from_mutations : Buffer → Key → MutationValue
get_from_mutations b k = or_undetermined (OrdMap.get k b.entry_map)

abbrev pub or_none : MutationValue → Option Value
or_none (MutationValue.determined v) = v
or_none MutationValue.undetermined = none

unfoldable pub get : Buffer → Key → Option Value
unfolding get_from_mutations
get b k = or_none (get_from_mutations b k)

unfoldable pub read_value_state : Buffer → Key → ReadValueState
unfolding value_state
read_value_state b k = value_state (OrdMap.get k b.entry_map)

unfoldable pub cached_commit_ts : Buffer → Key → Option ℕ
cached_commit_ts b k = OrdMap.get k b.read_commit_ts

-- `value != v` on cached values.
abbrev pub same_value : Option Value → Option Value → Bool
same_value none none = true
same_value none (some w) = false
same_value (some v) none = false
same_value (some v) (some w) = eqb v w

abbrev pub check : Buffer → Bool → EntryKind → Key → Buffer × Result (Unit {0})
check b true kind k = (b, ok tt)
check b false kind k = (b, err (cache_mismatch kind (length k)))

abbrev pub set_entry : Buffer → Key → BufferEntry → Buffer
set_entry b k e = record b { entry_map = OrdMap.insert k e b.entry_map }

update_entry : Buffer → Key → Option Value → Option BufferEntry → Buffer × Result (Unit {0})
update_entry b k v (some (BufferEntry.locked none)) =
    (set_entry b k (BufferEntry.locked (some v)), ok tt)
update_entry b k v none = (set_entry b k (BufferEntry.cached v), ok tt)
update_entry b k v (some (BufferEntry.cached w)) = check b (same_value v w) EntryKind.cached k
update_entry b k v (some (BufferEntry.locked (some w))) =
    check b (same_value v w) EntryKind.cached k
update_entry b k v (some (BufferEntry.put w)) = check b (same_value v (some w)) EntryKind.put k
update_entry b k v (some BufferEntry.del) = check b (same_value v none) EntryKind.del k
update_entry b k v (some (BufferEntry.insert w)) =
    check b (same_value v (some w)) EntryKind.insert k
update_entry b k v (some BufferEntry.check_not_exist) =
    check b (same_value v none) EntryKind.check_not_exist k

unfoldable pub update_cache : Buffer → Key → Option Value → Buffer × Result (Unit {0})
unfolding update_entry
update_cache b k v = update_entry b k v (OrdMap.get k b.entry_map)

-- The commit timestamp of a value that was read: 0 stands for none known.
abbrev pub note_commit_ts : Buffer → Key → Option Value → ℕ → Buffer
note_commit_ts b k none ts = record b { read_commit_ts = OrdMap.remove k b.read_commit_ts }
note_commit_ts b k (some v) ts =
    if ts == 0 then b else record b { read_commit_ts = OrdMap.insert k ts b.read_commit_ts }

unfoldable pub update_read_cache : Buffer → Key → Option Value → ℕ → Buffer × Result (Unit {0})
unfolding update_cache
update_read_cache b k v ts =
    let (b', r) = update_cache b k v in
    elim r [ ok _ ↦ (note_commit_ts b' k v ts, ok tt) | err e ↦ (b', err e) ]

-- The method `key_flags`.
abbrev pub or_default : Option KeyFlags → KeyFlags
or_default none = 0
or_default (some f) = f

unfoldable pub flags_of : Buffer → Key → KeyFlags
flags_of b k = or_default (OrdMap.get k b.key_flags)

abbrev pub store_flags : Buffer → Key → KeyFlags → Buffer
store_flags b k next =
    if next == 0
    then record b { key_flags = OrdMap.remove k b.key_flags }
    else record b { key_flags = OrdMap.insert k next b.key_flags }

unfoldable pub update_key_flags : Buffer → Key → List FlagsOp → Buffer
unfolding flags_of apply_all
update_key_flags b k ops = store_flags b k (apply_all (flags_of b k) ops)

-- `insert_entry`: the tests of its two `matches!`.
abbrev pub claims_primary : BufferEntry → Bool
claims_primary (BufferEntry.cached v) = false
claims_primary BufferEntry.check_not_exist = false
claims_primary _ = true

abbrev pub is_mutation : BufferEntry → Bool
is_mutation (BufferEntry.put v) = true
is_mutation BufferEntry.del = true
is_mutation (BufferEntry.insert v) = true
is_mutation _ = false

insert_entry : Buffer → Key → BufferEntry → Buffer
unfolding primary_key_or update_key_flags
insert_entry b k e =
    let b₁ = if claims_primary e then primary_key_or b k else b in
    let b₂ = if is_mutation e then update_key_flags b₁ k (del_prewrite_only ∷ []) else b₁ in
    set_entry b₂ k e

unfoldable pub lock : Buffer → Key → Buffer
unfolding primary_key_or
lock b k =
    let b' = primary_key_or b k in
    elim (OrdMap.get k b.entry_map) [
      | none ↦ set_entry b' k (BufferEntry.locked none)
      | some (BufferEntry.cached v) ↦ set_entry b' k (BufferEntry.locked (some v))
      | some _ ↦ b'
    ]

unfoldable pub unlock : Buffer → Key → Buffer
unlock b k = elim (OrdMap.get k b.entry_map) [
  | some (BufferEntry.locked (some v)) ↦ set_entry b k (BufferEntry.cached v)
  | some (BufferEntry.locked none) ↦ record b { entry_map = OrdMap.remove k b.entry_map }
  | _ ↦ b
]

unfoldable pub put : Buffer → Key → Value → Buffer
unfolding insert_entry
put b k v = elim (OrdMap.get k b.entry_map) [
  | some (BufferEntry.insert w) ↦ set_entry b k (BufferEntry.insert v)
  | some BufferEntry.check_not_exist ↦ set_entry b k (BufferEntry.insert v)
  | _ ↦ insert_entry b k (BufferEntry.put v)
]

unfoldable pub insert : Buffer → Key → Value → Buffer
unfolding insert_entry
insert b k v = elim (OrdMap.get k b.entry_map) [
  | some BufferEntry.del ↦ set_entry b k (BufferEntry.put v)
  | _ ↦ insert_entry b k (BufferEntry.insert v)
]

-- The guard of `delete`: what it replaces by a check, in an optimistic transaction.
abbrev pub deletes_to_check : Bool → Option BufferEntry → Bool
deletes_to_check presumed (some (BufferEntry.insert w)) = true
deletes_to_check presumed (some BufferEntry.check_not_exist) = true
deletes_to_check presumed (some (BufferEntry.put w)) = presumed
deletes_to_check presumed _ = false

unfoldable pub delete : Buffer → Key → Buffer
unfolding insert_entry flags_of update_key_flags
delete b k =
    let presumed = has_presume_key_not_exists (flags_of b k) in
    if not b.is_pessimistic && deletes_to_check presumed (OrdMap.get k b.entry_map)
    then update_key_flags (set_entry b k BufferEntry.check_not_exist) k (set_prewrite_only ∷ [])
    else insert_entry b k BufferEntry.del

unfoldable pub mutate : Buffer → Mutation → Buffer
unfolding put delete
mutate b (Mutation.put k v) = put b k v
mutate b (Mutation.delete k) = delete b k

unfoldable pub set_assertion : Buffer → Key → Assertion → Buffer
unfolding update_key_flags
set_assertion b k Assertion.exist = update_key_flags b k (set_assert_exist ∷ [])
set_assertion b k Assertion.not_exist = update_key_flags b k (set_assert_not_exist ∷ [])
set_assertion b k Assertion.unasserted = update_key_flags b k (set_assert_none ∷ [])
