-- ===== src/Flags/Meaning.antt =====
-- What the bits mean: two independent marks and one of four assertions. `apply` implements the
-- operations on that view, and the queries read it.
use rust_tikv_client.Prelude.{
  ◌+◌, ◌≡◌, Bool, true, false, arith, if◌then◌else◌, List, [], ◌∷◌, refl, ap, ◌∙◌,
}
use rust_tikv_client.Flags.{
  apply_all, KeyFlags, FlagsOp, apply, has_presume_key_not_exists, has_prewrite_only,
  has_assert_exist, has_assert_not_exist, has_assert_unknown, has_assertion_flags,
  set_presume_key_not_exists, del_presume_key_not_exists, set_prewrite_only, del_prewrite_only,
  set_assert_exist, set_assert_not_exist, set_assert_unknown, set_assert_none,
}

pub data Assertion : Type 0 where
  unasserted exist not_exist unknown : Assertion

pub record Meaning : Type 0 where
  pub presumed_absent : Bool
  pub prewrite : Bool
  pub assertion : Assertion

-- The bits that stand for a meaning.
unfoldable pub encode : Meaning → KeyFlags
encode m =
    (if m.presumed_absent then 1 else 0)
    + (if m.prewrite then 2 else 0)
    + elim m.assertion [ unasserted ↦ 0 | exist ↦ 4 | not_exist ↦ 8 | unknown ↦ 12 ]

abbrev pub act : Meaning → FlagsOp → Meaning
act m set_presume_key_not_exists = record m { presumed_absent = true }
act m del_presume_key_not_exists = record m { presumed_absent = false }
act m set_prewrite_only = record m { prewrite = true }
act m del_prewrite_only = record m { prewrite = false }
act m set_assert_exist = record m { assertion = exist }
act m set_assert_not_exist = record m { assertion = not_exist }
act m set_assert_unknown = record m { assertion = unknown }
act m set_assert_none = record m { assertion = unasserted }

abbrev pub asserts_exist : Assertion → Bool
asserts_exist exist = true
asserts_exist _ = false

abbrev pub asserts_not_exist : Assertion → Bool
asserts_not_exist not_exist = true
asserts_not_exist _ = false

abbrev pub asserts_unknown : Assertion → Bool
asserts_unknown unknown = true
asserts_unknown _ = false

abbrev pub asserts_any : Assertion → Bool
asserts_any unasserted = false
asserts_any _ = true

abbrev pub empty_meaning : Meaning
empty_meaning = record { presumed_absent = false; prewrite = false; assertion = unasserted }

pub apply-encode : (m : Meaning) (op : FlagsOp) → apply (encode m) op ≡ encode (act m op)
unfolding apply encode
apply-encode m op = ground arith

pub queries-encode :
    (m : Meaning)
    → (has_presume_key_not_exists (encode m) ≡ m.presumed_absent)
      × (has_prewrite_only (encode m) ≡ m.prewrite)
      × (has_assert_exist (encode m) ≡ asserts_exist m.assertion)
      × (has_assert_not_exist (encode m) ≡ asserts_not_exist m.assertion)
      × (has_assert_unknown (encode m) ≡ asserts_unknown m.assertion)
      × (has_assertion_flags (encode m) ≡ asserts_any m.assertion)
unfolding encode has_presume_key_not_exists has_prewrite_only has_assert_exist has_assert_not_exist
    has_assert_unknown has_assertion_flags
queries-encode m = ground arith

abbrev pub act_all : Meaning → List FlagsOp → Meaning
act_all m [] = m
act_all m (op ∷ ops) = act_all (act m op) ops

encode_empty : encode empty_meaning ≡ 0
unfolding encode
encode_empty = refl

pub apply_all-encode :
    (m : Meaning) (ops : List FlagsOp) → apply_all (encode m) ops ≡ encode (act_all m ops)
unfolding apply_all
apply_all-encode m [] = refl
apply_all-encode m (op ∷ ops) =
    ap (λ f. apply_all f ops) (apply-encode m op) ∙ apply_all-encode (act m op) ops

-- After any operations on empty flags the queries answer as on two marks and one assertion.
pub queries-apply_all :
    (ops : List FlagsOp)
    → let f = apply_all 0 ops in
      let m = act_all empty_meaning ops in
      (has_presume_key_not_exists f ≡ m.presumed_absent)
      × (has_prewrite_only f ≡ m.prewrite)
      × (has_assert_exist f ≡ asserts_exist m.assertion)
      × (has_assert_not_exist f ≡ asserts_not_exist m.assertion)
      × (has_assert_unknown f ≡ asserts_unknown m.assertion)
      × (has_assertion_flags f ≡ asserts_any m.assertion)
queries-apply_all ops =
    rw (← encode_empty, apply_all-encode empty_meaning ops)
      (queries-encode (act_all empty_meaning ops))
