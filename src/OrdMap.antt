-- ===== src/OrdMap.antt =====
-- The standard library's `BTreeMap` and `HashMap` as the code uses them: a list of entries in
-- ascending key order. Iteration is in key order; the code asks no order of a `HashMap`.
pub mod Sorted
use Prim.Native.Nat.Ordering.{lt, eq, gt}
use rust_tikv_client.Prelude.{
  ℕ, ◌≡◌, refl, sym, ap, ◌∙◌, ◌↔◌, ◌⊎◌, inl, inr, ◌≢◌, Bool, true, false, not, Option, none, some,
  List, [], ◌∷◌, arith, if◌then◌else◌, Bool-cases,
}
use rust_tikv_client.Order.{Ord, eqb, eqb_iff, flip}

abbrev pub OrdMap {ℓ κ} : Type ℓ → Type κ → Type (ℓ ⊔ κ)
OrdMap K V = List (K × V)

module _ {ℓ κ} {K : Type ℓ} {V : Type κ} ⦃o : Ord K⦄ where
  unfoldable pub get : K → OrdMap K V → Option V
  get k [] = none
  get k ((j, w) ∷ m) = if eqb k j then some w else get k m

  unfoldable pub insert : K → V → OrdMap K V → OrdMap K V
  insert k v [] = (k, v) ∷ []
  insert k v ((j, w) ∷ m) = elim (o.cmp k j) [
    | lt ↦ (k, v) ∷ (j, w) ∷ m
    | eq ↦ (k, v) ∷ m
    | gt ↦ (j, w) ∷ insert k v m
  ]

  unfoldable pub remove : K → OrdMap K V → OrdMap K V
  remove k [] = []
  remove k ((j, w) ∷ m) = if eqb k j then remove k m else (j, w) ∷ remove k m

  -- `retain`: keeps the entries that pass the test.
  unfoldable pub retain : (K → V → Bool) → OrdMap K V → OrdMap K V
  retain p [] = []
  retain p ((j, w) ∷ m) = if p j w then (j, w) ∷ retain p m else retain p m

  pub get-insert :
      (k j : K) (v : V) (m : OrdMap K V)
      → get j (insert k v m) ≡ (if eqb j k then some v else get j m)
  unfolding get insert
  get-insert k j v [] = refl
  get-insert k j v ((i, w) ∷ m) =
      ground (arith, get-insert k j v m, o.cmp_eq k i, o.cmp_eq j k, o.cmp_eq j i)

  pub get-remove :
      (k j : K) (m : OrdMap K V) → get j (remove k m) ≡ (if eqb j k then none else get j m)
  unfolding get remove
  get-remove k j [] = ground arith
  get-remove k j ((i, w) ∷ m) =
      ground (arith, get-remove k j m, o.cmp_eq k i, o.cmp_eq j k, o.cmp_eq j i)

  pub get-insert_self : (k : K) (v : V) (m : OrdMap K V) → get k (insert k v m) ≡ some v
  get-insert_self k v m = ground (arith, get-insert k k v m, o.cmp_eq k k)

  pub get-remove_self : (k : K) (m : OrdMap K V) → get k (remove k m) ≡ none
  get-remove_self k m = ground (arith, get-remove k k m, o.cmp_eq k k)

  pub get-insert_ne : (k j : K) (v : V) (m : OrdMap K V) → j ≢ k → get j (insert k v m) ≡ get j m
  get-insert_ne k j v m n = ground (arith, get-insert k j v m, o.cmp_eq j k)

  pub get-remove_ne : (k j : K) (m : OrdMap K V) → j ≢ k → get j (remove k m) ≡ get j m
  get-remove_ne k j m n = ground (arith, get-remove k j m, o.cmp_eq j k)

  -- What an entry that is found after a removal or an insertion was before.
  pub remove-some :
      (k j : K) (v : V) (m : OrdMap K V)
      → get j (remove k m) ≡ some v
      → (j ≢ k) × (get j m ≡ some v)
  remove-some k j v m h = ground (arith, h, get-remove k j m, o.cmp_eq j k)

  pub insert-some :
      (k j : K) (v w : V) (m : OrdMap K V)
      → get j (insert k v m) ≡ some w
      → ((j ≡ k) × (v ≡ w)) ⊎ ((j ≢ k) × (get j m ≡ some w))
  insert-some k j v w m h = ground (arith, h, get-insert k j v m, o.cmp_eq j k)

  -- An insertion loses no key.
  pub insert-found :
      (k j : K) (v w : V) (m : OrdMap K V)
      → get j m ≡ some w
      → (x : V) × (get j (insert k v m) ≡ some x)
  insert-found k j v w m h = elim (Bool-cases (eqb j k)) [
    | inl e ↦ (v, ground (arith, e, get-insert k j v m))
    | inr e ↦ (w, ground (arith, e, h, get-insert k j v m))
  ]

  -- An entry that is found either passes the test and stays, or fails it.
  pub get-retain :
      (p : K → V → Bool) (k : K) (v : V) (m : OrdMap K V)
      → get k m ≡ some v
      → (get k (retain p m) ≡ some v) ⊎ (p k v ≡ false)
  unfolding get retain
  get-retain p k v [] h = ground (arith, h)
  get-retain p k v ((j, w) ∷ m) h = elim (Bool-cases (eqb k j)) [
    | inr e ↦ elim (get-retain p k v m (rw e at h)) [
      | inl g ↦ inl (elim (Bool-cases (p j w)) [ inl f ↦ rw (f, e) g | inr f ↦ rw f g ])
      | inr g ↦ inr g
    ]
    | inl e ↦
        let same : k ≡ j = (eqb_iff k j).0 e in
        let there : w ≡ v = ground (arith, rw e at h) in
        elim (Bool-cases (p j w)) [
          | inl f ↦ inl (rw (f, e) (ap some there))
          | inr f ↦ inr (ap (λ x. p x v) same ∙ ap (λ x. p j x) (sym there) ∙ f)
        ]
  ]

pub ruleset map_laws = (get-insert, get-remove)
