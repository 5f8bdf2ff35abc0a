-- ===== src/Buffer/Lowering.antt =====
-- src/transaction/buffer.rs and src/transaction/transaction.rs: the mutations that a commit sends,
-- the keys that it commits, and the primary key that it chooses.
pub mod Laws
use rust_tikv_client.Prelude.{
  ℕ, ◌+◌, Bool, true, false, not, ◌&&◌, ◌||◌, ◌==◌, Option, none, some, List, [], ◌∷◌,
  if◌then◌else◌,
}
use rust_tikv_client.Order.{bytes_ord, eqb}
use rust_tikv_client.OrdMap
use rust_tikv_client.OrdMap.{OrdMap}
use rust_tikv_client.Flags.{
  KeyFlags, has_presume_key_not_exists, has_assert_exist, has_assert_not_exist, has_prewrite_only,
}
use rust_tikv_client.Key.{Key}
use rust_tikv_client.Buffer.Entry.{
  BufferEntry, ProtoMutation, Op, Assertion, AssertionLevel, to_proto_with_key, entry_size,
}
use rust_tikv_client.Buffer.{Buffer, flags_of}

unfoldable pub assertion_for_key : Buffer → Key → Assertion
unfolding flags_of
assertion_for_key b k =
    let flags = flags_of b k in
    if has_assert_exist flags
    then Assertion.exist
    else if has_assert_not_exist flags
    then Assertion.not_exist
    else Assertion.unasserted

abbrev pub is_put : Op → Bool
is_put Op.put = true
is_put _ = false

abbrev pub is_off : AssertionLevel → Bool
is_off AssertionLevel.off = true
is_off _ = false

-- What `to_proto_mutations` and `mutation_for_key` both do to an entry's mutation.
abbrev pub finish : Buffer → AssertionLevel → Key → ProtoMutation → ProtoMutation
finish b level k pb =
    let presumed = has_presume_key_not_exists (flags_of b k) in
    record pb {
      op = if is_put pb.op && presumed then Op.insert else pb.op;
      assertion = if is_off level then pb.assertion else assertion_for_key b k;
    }

abbrev pub map_option {ℓ κ} : {A : Type ℓ} {B : Type κ} → (A → B) → Option A → Option B
map_option f none = none
map_option f (some a) = some (f a)

abbrev pub lower : Buffer → AssertionLevel → Key → BufferEntry → Option ProtoMutation
lower b level k e = map_option (finish b level k) (to_proto_with_key e k)

abbrev pub cons_some {ℓ} : {A : Type ℓ} → Option A → List A → List A
cons_some none xs = xs
cons_some (some x) xs = x ∷ xs

unfoldable pub lower_all : Buffer → AssertionLevel → OrdMap Key BufferEntry → List ProtoMutation
lower_all b level [] = []
lower_all b level ((k, e) ∷ m) = cons_some (lower b level k e) (lower_all b level m)

unfoldable pub to_proto_mutations : Buffer → AssertionLevel → List ProtoMutation
unfolding lower_all
to_proto_mutations b level = lower_all b level b.entry_map

unfoldable pub mutation_for_key : Buffer → Key → AssertionLevel → Option ProtoMutation
mutation_for_key b k level = elim (OrdMap.get k b.entry_map) [
  | none ↦ none
  | some e ↦ lower b level k e
]

unfoldable pub write_size : OrdMap Key BufferEntry → ℕ
write_size [] = 0
write_size ((k, e) ∷ m) = entry_size k e + write_size m

unfoldable pub get_write_size : Buffer → ℕ
unfolding write_size
get_write_size b = write_size b.entry_map

abbrev pub is_check : Op → Bool
is_check Op.check_not_exists = true
is_check _ = false

-- The filter of `commit` (and of `rollback`) over the prewritten mutations.
abbrev pub is_committed : Buffer → ProtoMutation → Bool
is_committed b pb = not (is_check pb.op) && not (has_prewrite_only (flags_of b pb.key))

unfoldable pub commit_keys : Buffer → List ProtoMutation → List Key
commit_keys b [] = []
commit_keys b (pb ∷ pbs) =
    if is_committed b pb then pb.key ∷ commit_keys b pbs else commit_keys b pbs

unfoldable pub any_key : Key → List Key → Bool
any_key k [] = false
any_key k (j ∷ js) = eqb k j || any_key k js

abbrev pub first_key : List Key → Option Key
first_key [] = none
first_key (k ∷ ks) = some k

abbrev pub keep_primary : Option Key → List Key → Option Key
keep_primary none ks = first_key ks
keep_primary (some p) ks = if any_key p ks then some p else first_key ks

-- The primary key of a commit, from the buffer's and the keys to commit.
unfoldable pub choose_primary : Option Key → List Key → Option Key
unfolding any_key
choose_primary p [] = p
choose_primary p (k ∷ ks) = keep_primary p (k ∷ ks)
