-- ===== src/Keyspace/Laws.antt =====
-- The prefix separates keyspaces and keeps the order of keys.
use rust_tikv_client.Prelude.{
  ℕ, ◌+◌, ◌*◌, ◌^◌, ◌/◌, ◌%◌, ◌≤◌, ◌<◌, ◌≡◌, refl, ◌∙◌, true, false, List, [], ◌∷◌, ◌++◌, arith,
  ◌==◌, reverse, Bool-cases, inl, inr,
}
use mathlib.Core.List.{append-nil}
use rust_tikv_client.Order.{bytes_ord, before, upto, cmp_bytes}
use rust_tikv_client.Key.{Key, Bound, included, excluded, unbounded}
use rust_tikv_client.Range.{BoundRange, contains, above_bound, below_bound, open_if_empty}
use rust_tikv_client.Keyspace.{
  Keyspace, KeyMode, disable, enable, raw, txn, keyspace_prefix, keyspace_end_prefix, increment,
  encode_keyspace, truncate_keyspace, encode_range, encode_from, encode_to, keyspace_end, mode_byte,
  max_keyspace_id,
}

-- A key comes back from its encoding.
pub truncate-encode_keyspace :
    (k : Key) (ks : Keyspace) (mode : KeyMode)
    → truncate_keyspace (encode_keyspace k ks mode) ks ≡ k
unfolding truncate_keyspace encode_keyspace
truncate-encode_keyspace k disable mode = refl
truncate-encode_keyspace k (enable id) mode = ground arith

cmp_bytes-append : (p j k : List ℕ) → cmp_bytes (p ++ j) (p ++ k) ≡ cmp_bytes j k
cmp_bytes-append [] j k = refl
cmp_bytes-append (b ∷ p) j k = ground (arith, cmp_bytes-append p j k)

-- The encoding keeps the order of keys.
pub cmp_bytes-encode_keyspace :
    (j k : Key) (ks : Keyspace) (mode : KeyMode)
    → cmp_bytes (encode_keyspace j ks mode) (encode_keyspace k ks mode) ≡ cmp_bytes j k
unfolding encode_keyspace
cmp_bytes-encode_keyspace j k disable mode = refl
cmp_bytes-encode_keyspace j k (enable id) mode = cmp_bytes-append (keyspace_prefix id mode) j k

id_of_bytes :
    (a b : ℕ)
    → a ≤ max_keyspace_id
    → b ≤ max_keyspace_id
    → a / 2 ^ 16 % 256 ≡ b / 2 ^ 16 % 256
    → a / 2 ^ 8 % 256 ≡ b / 2 ^ 8 % 256
    → a % 256 ≡ b % 256
    → a ≡ b
id_of_bytes a b p q x y z = omega arith

-- Keys of two keyspaces with valid ids, or of the two modes, are never equal.
pub encode_keyspace-injective :
    (j k : Key) (a b : ℕ) (m n : KeyMode)
    → a ≤ max_keyspace_id
    → b ≤ max_keyspace_id
    → encode_keyspace j (enable a) m ≡ encode_keyspace k (enable b) n
    → (a ≡ b) × (m ≡ n) × (j ≡ k)
unfolding encode_keyspace
encode_keyspace-injective j k a b m n p q h =
    (id_of_bytes a b p q (ground arith) (ground arith) (ground arith), ground arith, ground arith)

-- Four bytes and their increment bound the keys that start with them.
abbrev four : ℕ → ℕ → ℕ → ℕ → Key → Key
four m a b c k = m ∷ a ∷ b ∷ c ∷ k

four-before :
    (m a b c : ℕ) (k : Key)
    → m < 255
    → before (four m a b c k) (reverse (increment (reverse (four m a b c [])))) ≡ true
unfolding increment
four-before m a b c k h = ground arith

-- The number that four bytes stand for.
abbrev value : ℕ → ℕ → ℕ → ℕ → ℕ
value m a b c = ((m * 256 + a) * 256 + b) * 256 + c

abbrev AreBytes : ℕ → ℕ → ℕ → Type 0
AreBytes a b c = (a < 256) × (b < 256) × (c < 256)

value-le :
    (m a b c w x y z : ℕ) (v k : Key)
    → AreBytes a b c
    → AreBytes x y z
    → upto (four m a b c v) (four w x y z k) ≡ true
    → value m a b c ≤ value w x y z
value-le m a b c w x y z v k p q h = ground arith

upto_of_before : (j k : Key) → before j k ≡ true → upto j k ≡ true
upto_of_before j k h = ground arith

value-lt :
    (m a b c w x y z : ℕ) (k : Key)
    → AreBytes a b c
    → AreBytes x y z
    → before (four w x y z k) (four m a b c []) ≡ true
    → value w x y z < value m a b c
value-lt m a b c w x y z [] p q h = ground arith
value-lt m a b c w x y z (d ∷ k) p q h = ground arith

increment-value :
    (m a b c : ℕ)
    → m < 255
    → AreBytes a b c
    → (m' a' b' c' : ℕ) × (reverse (increment (reverse (four m a b c []))) ≡ four m' a' b' c' [])
      × AreBytes a' b' c'
      × (value m' a' b' c' ≡ value m a b c + 1)
unfolding increment
increment-value m a b c h p = elim (Bool-cases (c == 255)) [
  | inr e ↦ (m, a, b, c + 1, rw e, ground arith, omega arith)
  | inl e ↦ elim (Bool-cases (b == 255)) [
    | inr f ↦ (m, a, b + 1, 0, rw (e, f), ground arith, ground arith)
    | inl f ↦ elim (Bool-cases (a == 255)) [
      | inr g ↦ (m, a + 1, 0, 0, rw (e, f, g), ground arith, ground arith)
      | inl g ↦
          let i : (m == 255) ≡ false = ground arith in
          (m + 1, 0, 0, 0, rw (e, f, g, i), ground arith, ground arith)
    ]
  ]
]

value-injective :
    (m a b c w x y z : ℕ)
    → AreBytes a b c
    → AreBytes x y z
    → value m a b c ≡ value w x y z
    → (m ≡ w) × (a ≡ x) × (b ≡ y) × (c ≡ z)
value-injective m a b c w x y z p q h = omega arith

upto-append : (p j k : List ℕ) → upto (p ++ j) (p ++ k) ≡ upto j k
upto-append p j k = ground (arith, cmp_bytes-append p j k)

before-append : (p j k : List ℕ) → before (p ++ j) (p ++ k) ≡ before j k
before-append p j k = ground (arith, cmp_bytes-append p j k)

upto_nil : (k : List ℕ) → upto [] k ≡ true
upto_nil [] = refl
upto_nil (b ∷ k) = refl

encode_from-above :
    (id : ℕ) (mode : KeyMode) (f : Bound Key) (k : Key)
    → above_bound (encode_from (enable id) mode f) (encode_keyspace k (enable id) mode)
      ≡ above_bound f k
unfolding encode_keyspace
encode_from-above id mode (included v) k = upto-append (keyspace_prefix id mode) v k
encode_from-above id mode (excluded v) k = before-append (keyspace_prefix id mode) v k
encode_from-above id mode unbounded k = upto-append (keyspace_prefix id mode) [] k ∙ upto_nil k

mode_byte-lt : (mode : KeyMode) → mode_byte mode < 255
mode_byte-lt raw = omega arith
mode_byte-lt txn = omega arith

before-keyspace_end :
    (id : ℕ) (mode : KeyMode) (k : Key)
    → before (encode_keyspace k (enable id) mode) (keyspace_end (enable id) mode) ≡ true
unfolding encode_keyspace keyspace_end_prefix
before-keyspace_end id mode k = rw append-nil (
    four-before (mode_byte mode) (id / 2 ^ 16 % 256) (id / 2 ^ 8 % 256) (id % 256) k
      (mode_byte-lt mode))

open-below : (e k : Key) → before k e ≡ true → below_bound (open_if_empty (excluded e)) k ≡ true
open-below [] k h = refl
open-below (b ∷ e) k h = h

encode_to-below :
    (id : ℕ) (mode : KeyMode) (t : Bound Key) (k : Key)
    → below_bound
        (open_if_empty (encode_to (enable id) mode t))
        (encode_keyspace k (enable id) mode)
      ≡ below_bound (open_if_empty t) k
unfolding encode_keyspace
encode_to-below id mode (included []) k =
    open-below (keyspace_end (enable id) mode) _ (before-keyspace_end id mode k)
encode_to-below id mode (included (b ∷ v)) k = upto-append (keyspace_prefix id mode) k (b ∷ v)
encode_to-below id mode (excluded []) k =
    open-below (keyspace_end (enable id) mode) _ (before-keyspace_end id mode k)
encode_to-below id mode (excluded (b ∷ v)) k = before-append (keyspace_prefix id mode) k (b ∷ v)
encode_to-below id mode unbounded k =
    open-below (keyspace_end (enable id) mode) _ (before-keyspace_end id mode k)

-- An encoded range holds the encoding of a key exactly when the range holds the key.
pub encode_range-contains :
    (r : BoundRange) (id : ℕ) (mode : KeyMode) (k : Key)
    → contains (encode_range r (enable id) mode) (encode_keyspace k (enable id) mode) ≡ contains r k
unfolding contains encode_range
encode_range-contains r id mode k =
    rw (encode_from-above id mode r.from k) (rw (encode_to-below id mode r.to k))

module _ (id : ℕ) (mode : KeyMode) (w x y z : ℕ) (k : Key) (q : AreBytes x y z) where
  prefix_bytes : AreBytes (id / 2 ^ 16 % 256) (id / 2 ^ 8 % 256) (id % 256)
  prefix_bytes = omega arith

  abbrev prefix_value : ℕ
  prefix_value = value (mode_byte mode) (id / 2 ^ 16 % 256) (id / 2 ^ 8 % 256) (id % 256)

  encode_from-le :
      (f : Bound Key)
      → above_bound (encode_from (enable id) mode f) (four w x y z k) ≡ true
      → prefix_value ≤ value w x y z
  unfolding encode_keyspace
  encode_from-le (included v) h = value-le _ _ _ _ w x y z v k prefix_bytes q h
  encode_from-le (excluded v) h =
      value-le _ _ _ _ w x y z v k prefix_bytes q
        (upto_of_before (encode_keyspace v (enable id) mode) (four w x y z k) h)
  encode_from-le unbounded h = value-le _ _ _ _ w x y z [] k prefix_bytes q h

  below-keyspace_end :
      below_bound (open_if_empty (excluded (keyspace_end (enable id) mode))) (four w x y z k) ≡ true
      → value w x y z ≤ prefix_value
  unfolding keyspace_end_prefix
  below-keyspace_end h =
      let (m', a', b', c', e, p, v) =
        increment-value (mode_byte mode) _ _ _ (mode_byte-lt mode) prefix_bytes in
      omega (arith, v, value-lt m' a' b' c' w x y z k p q (rw (append-nil, e) at h))

  encode_to-le :
      (t : Bound Key)
      → below_bound (open_if_empty (encode_to (enable id) mode t)) (four w x y z k) ≡ true
      → value w x y z ≤ prefix_value
  unfolding encode_keyspace
  encode_to-le (included []) h = below-keyspace_end h
  encode_to-le (included (b ∷ v)) h = value-le w x y z _ _ _ _ k (b ∷ v) q prefix_bytes h
  encode_to-le (excluded []) h = below-keyspace_end h
  encode_to-le (excluded (b ∷ v)) h =
      value-le w x y z _ _ _ _ k (b ∷ v) q prefix_bytes
        (upto_of_before (four w x y z k) (encode_keyspace (b ∷ v) (enable id) mode) h)
  encode_to-le unbounded h = below-keyspace_end h

-- An encoded range holds no key of another keyspace: a key in it, of at least four bytes, has the
-- keyspace's prefix.
pub encode_range-prefix :
    (r : BoundRange) (id : ℕ) (mode : KeyMode) (w x y z : ℕ) (k : Key)
    → AreBytes x y z
    → contains (encode_range r (enable id) mode) (four w x y z k) ≡ true
    → four w x y z k ≡ encode_keyspace k (enable id) mode
unfolding contains encode_range encode_keyspace
encode_range-prefix r id mode w x y z k q h =
    let lower = encode_from-le id mode w x y z k q r.from (ground arith) in
    let upper = encode_to-le id mode w x y z k q r.to (ground arith) in
    let same =
      value-injective w x y z (mode_byte mode) (id / 2 ^ 16 % 256) (id / 2 ^ 8 % 256) (id % 256) q
        (prefix_bytes id mode w x y z k q) (omega (arith, lower, upper)) in
    λ i. four (same.0 i) (same.1 i) (same.2 i) (same.3 i) k
