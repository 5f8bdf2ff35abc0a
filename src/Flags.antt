-- ===== src/Flags.antt =====
-- src/transaction/key_flags.rs: the bit flags of a key, a `u16`.
pub mod Meaning
mod Tests
use Prim.Native.Nat.{bit_and, bit_or}
use rust_tikv_client.Prelude.{ℕ, ◌-◌, ◌^◌, Bool, true, false, not, ◌&&◌, ◌==◌, List, [], ◌∷◌}

-- `KeyFlags(u16)`
abbrev pub KeyFlags : Type 0
KeyFlags = ℕ

abbrev pub presume_key_not_exists : ℕ
presume_key_not_exists = 2 ^ 0

abbrev pub prewrite_only : ℕ
prewrite_only = 2 ^ 1

abbrev pub assert_exist : ℕ
assert_exist = 2 ^ 2

abbrev pub assert_not_exist : ℕ
assert_not_exist = 2 ^ 3

-- `!mask` on a `u16`.
abbrev pub complement : ℕ → ℕ
complement mask = 65535 - mask

abbrev pub is_set : KeyFlags → ℕ → Bool
is_set f mask = not (bit_and f mask == 0)

unfoldable pub has_presume_key_not_exists : KeyFlags → Bool
has_presume_key_not_exists f = is_set f presume_key_not_exists

unfoldable pub has_prewrite_only : KeyFlags → Bool
has_prewrite_only f = is_set f prewrite_only

unfoldable pub has_assert_exist : KeyFlags → Bool
has_assert_exist f = is_set f assert_exist && bit_and f assert_not_exist == 0

unfoldable pub has_assert_not_exist : KeyFlags → Bool
has_assert_not_exist f = is_set f assert_not_exist && bit_and f assert_exist == 0

unfoldable pub has_assert_unknown : KeyFlags → Bool
has_assert_unknown f = is_set f assert_exist && is_set f assert_not_exist

unfoldable pub has_assertion_flags : KeyFlags → Bool
has_assertion_flags f = is_set f (bit_or assert_exist assert_not_exist)

pub data FlagsOp : Type 0 where
  set_presume_key_not_exists del_presume_key_not_exists : FlagsOp
  set_prewrite_only del_prewrite_only : FlagsOp
  set_assert_exist set_assert_not_exist set_assert_unknown set_assert_none : FlagsOp

unfoldable pub apply : KeyFlags → FlagsOp → KeyFlags
apply f set_presume_key_not_exists = bit_or f presume_key_not_exists
apply f del_presume_key_not_exists = bit_and f (complement presume_key_not_exists)
apply f set_prewrite_only = bit_or f prewrite_only
apply f del_prewrite_only = bit_and f (complement prewrite_only)
apply f set_assert_exist = bit_or (bit_and f (complement assert_not_exist)) assert_exist
apply f set_assert_not_exist = bit_or (bit_and f (complement assert_exist)) assert_not_exist
apply f set_assert_unknown = bit_or f (bit_or assert_exist assert_not_exist)
apply f set_assert_none = bit_and f (complement (bit_or assert_exist assert_not_exist))

-- `fold(origin, KeyFlags::apply)`
unfoldable pub apply_all : KeyFlags → List FlagsOp → KeyFlags
apply_all f [] = f
apply_all f (op ∷ ops) = apply_all (apply f op) ops
