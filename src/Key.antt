-- ===== src/Key.antt =====
-- src/kv/key.rs: keys are byte strings, compared lexicographically.
pub mod Successor
use Prim.Native.Nat.Ordering.{lt, eq, gt}
use rust_tikv_client.Prelude.{
  ℕ, suc, ◌+◌, ◌%◌, Bool, true, false, Option, none, some, List, [], ◌∷◌, ◌++◌, reverse, ◌==◌,
  if◌then◌else◌, length,
}

abbrev pub Key : Type 0
Key = List ℕ

abbrev pub Value : Type 0
Value = List ℕ

-- `std::ops::Bound`
pub data Bound {ℓ} (A : Type ℓ) : Type ℓ where
  included : A → Bound A
  excluded : A → Bound A
  unbounded : Bound A

abbrev pub is_empty : Key → Bool
is_empty [] = true
is_empty (b ∷ k) = false

abbrev pub get_last? : Key → Option ℕ
get_last? [] = none
get_last? (b ∷ []) = some b
get_last? (b ∷ c ∷ k) = get_last? (c ∷ k)

-- `Vec::pop` on a key that is not empty.
abbrev pub pop : Key → Key
pop [] = []
pop (b ∷ []) = []
pop (b ∷ c ∷ k) = b ∷ pop (c ∷ k)

unfoldable pub zero_terminated : Key → Bool
zero_terminated k = elim (get_last? k) [ none ↦ false | some b ↦ b == 0 ]

unfoldable pub next_key : Key → Key
next_key k = k ++ 0 ∷ []

unfoldable pub into_lower_bound : Key → Bound Key
unfolding zero_terminated
into_lower_bound k = if zero_terminated k then excluded (pop k) else included k

unfoldable pub into_upper_bound : Key → Bound Key
unfolding zero_terminated
into_upper_bound k = if zero_terminated k then included (pop k) else excluded k
