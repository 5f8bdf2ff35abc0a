-- ===== src/Flags/Tests.antt =====
-- Flags at concrete inputs.
use rust_tikv_client.Prelude.{◌≡◌, List, [], ◌∷◌}
use rust_tikv_client.Flags.{
  apply_all, FlagsOp, has_presume_key_not_exists, has_prewrite_only, has_assert_exist,
  has_assert_not_exist, has_assert_unknown, has_assertion_flags, set_prewrite_only,
  set_assert_exist, set_assert_not_exist,
}
use rust_tikv_client.Flags.Meaning.{
  act_all, empty_meaning, asserts_exist, asserts_not_exist, asserts_unknown, asserts_any,
  queries-apply_all,
}

abbrev ops : List FlagsOp
ops = set_prewrite_only ∷ set_assert_exist ∷ set_assert_not_exist ∷ []

queries-apply_all_example :
    let f = apply_all 0 ops in
    let m = act_all empty_meaning ops in
    (has_presume_key_not_exists f ≡ m.presumed_absent)
    × (has_prewrite_only f ≡ m.prewrite)
    × (has_assert_exist f ≡ asserts_exist m.assertion)
    × (has_assert_not_exist f ≡ asserts_not_exist m.assertion)
    × (has_assert_unknown f ≡ asserts_unknown m.assertion)
    × (has_assertion_flags f ≡ asserts_any m.assertion)
queries-apply_all_example = queries-apply_all ops
