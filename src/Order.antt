-- ===== src/Order.antt =====
-- Rust's `Ord` as an interface: one three-way comparison with the laws that `BTreeMap` relies on,
-- for numbers, for byte strings (`Vec<u8>` compares lexicographically) and for triples.

use Prim.Native.Nat.Ordering.{lt, eq, gt}
use rust_tikv_client.Prelude.{
  ℕ, compare, Ordering, ◌≡◌, refl, ◌↔◌, Bool, true, false, List, [], ◌∷◌, arith,
}

abbrev pub flip : Ordering → Ordering
flip lt = gt
flip eq = eq
flip gt = lt

-- The second comparison decides where the first finds no difference.
abbrev pub or_next : Ordering → Ordering → Ordering
or_next lt o = lt
or_next eq o = o
or_next gt o = gt

pub record Ord {ℓ} (K : Type ℓ) : Type ℓ where
  pub cmp : K → K → Ordering
  pub cmp_eq : (a b : K) → (cmp a b ≡ eq) ↔ (a ≡ b)
  pub cmp_flip : (a b : K) → cmp b a ≡ flip (cmp a b)
  pub cmp_trans : (a b c : K) → cmp a b ≡ lt → cmp b c ≡ lt → cmp a c ≡ lt

module _ {ℓ} {K : Type ℓ} ⦃o : Ord K⦄ where
  -- `a == b`, `a < b` and `a <= b` of the trait.
  abbrev pub eqb : K → K → Bool
  eqb a b = elim (o.cmp a b) [ eq ↦ true | _ ↦ false ]

  abbrev pub before : K → K → Bool
  before a b = elim (o.cmp a b) [ lt ↦ true | _ ↦ false ]

  abbrev pub upto : K → K → Bool
  upto a b = elim (o.cmp a b) [ gt ↦ false | _ ↦ true ]

  pub cmp_self : (a : K) → o.cmp a a ≡ eq
  cmp_self a = (o.cmp_eq a a).1 refl

  pub eqb_iff : (a b : K) → (eqb a b ≡ true) ↔ (a ≡ b)
  eqb_iff a b = ground (arith, o.cmp_eq a b)

pub compare-eq : (a b : ℕ) → (compare a b ≡ eq) ↔ (a ≡ b)
compare-eq a b = ground arith

pub compare-flip : (a b : ℕ) → compare b a ≡ flip (compare a b)
compare-flip a b = ground arith

pub compare_trans : (a b c : ℕ) → compare a b ≡ lt → compare b c ≡ lt → compare a c ≡ lt
compare_trans a b c = ground arith

instance abbrev pub nat_ord : Ord ℕ
nat_ord = record {
  cmp = compare;
  cmp_eq = compare-eq;
  cmp_flip = compare-flip;
  cmp_trans = compare_trans;
}

-- The order of byte strings.
abbrev pub cmp_bytes : List ℕ → List ℕ → Ordering
cmp_bytes [] [] = eq
cmp_bytes [] (y ∷ ys) = lt
cmp_bytes (x ∷ xs) [] = gt
cmp_bytes (x ∷ xs) (y ∷ ys) = or_next (compare x y) (cmp_bytes xs ys)

pub cmp_bytes-eq : (a b : List ℕ) → (cmp_bytes a b ≡ eq) ↔ (a ≡ b)
cmp_bytes-eq [] [] = ground arith
cmp_bytes-eq [] (y ∷ ys) = ground arith
cmp_bytes-eq (x ∷ xs) [] = ground arith
cmp_bytes-eq (x ∷ xs) (y ∷ ys) = ground (arith, cmp_bytes-eq xs ys)

pub cmp_bytes-flip : (a b : List ℕ) → cmp_bytes b a ≡ flip (cmp_bytes a b)
cmp_bytes-flip [] [] = refl
cmp_bytes-flip [] (y ∷ ys) = refl
cmp_bytes-flip (x ∷ xs) [] = refl
cmp_bytes-flip (x ∷ xs) (y ∷ ys) = ground (arith, cmp_bytes-flip xs ys)

pub cmp_bytes_trans :
    (a b c : List ℕ) → cmp_bytes a b ≡ lt → cmp_bytes b c ≡ lt → cmp_bytes a c ≡ lt
cmp_bytes_trans [] [] c p q = ground arith
cmp_bytes_trans [] (y ∷ ys) [] p q = ground arith
cmp_bytes_trans [] (y ∷ ys) (z ∷ zs) p q = refl
cmp_bytes_trans (x ∷ xs) [] c p q = ground arith
cmp_bytes_trans (x ∷ xs) (y ∷ ys) [] p q = ground arith
cmp_bytes_trans (x ∷ xs) (y ∷ ys) (z ∷ zs) p q = ground (arith, cmp_bytes_trans xs ys zs)

instance abbrev pub bytes_ord : Ord (List ℕ)
bytes_ord = record {
  cmp = cmp_bytes;
  cmp_eq = cmp_bytes-eq;
  cmp_flip = cmp_bytes-flip;
  cmp_trans = cmp_bytes_trans;
}
