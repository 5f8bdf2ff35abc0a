-- ===== src/OrdMap/Sorted.antt =====
-- The order of the entries, and what every entry of a map satisfies.
use Prim.Native.Nat.Ordering.{lt}
use rust_tikv_client.Prelude.{◌≡◌, refl, none, [], ◌∷◌, arith}
use rust_tikv_client.Order.{Ord}
use rust_tikv_client.OrdMap.{OrdMap, get, insert, remove}

module _ {ℓ κ} {K : Type ℓ} {V : Type κ} ⦃o : Ord K⦄ where
  -- Every key of the map lies above `k`.
  abbrev pub Above : K → OrdMap K V → Type 0
  Above k [] = Unit
  Above k ((j, w) ∷ m) = (o.cmp k j ≡ lt) × Above k m

  abbrev pub IsSorted : OrdMap K V → Type 0
  IsSorted [] = Unit
  IsSorted ((j, w) ∷ m) = Above j m × IsSorted m

  Above-mono : (k j : K) (m : OrdMap K V) → o.cmp k j ≡ lt → Above j m → Above k m
  Above-mono k j [] h a = tt
  Above-mono k j ((i, w) ∷ m) h a = (o.cmp_trans k j i h a.0, Above-mono k j m h a.1)

  Above-insert :
      (b k : K) (v : V) (m : OrdMap K V) → o.cmp b k ≡ lt → Above b m → Above b (insert k v m)
  unfolding insert
  Above-insert b k v [] h a = (h, tt)
  Above-insert b k v ((j, w) ∷ m) h a = ground (arith, Above-insert b k v m h a.1)

  pub insert-IsSorted : (k : K) (v : V) (m : OrdMap K V) → IsSorted m → IsSorted (insert k v m)
  unfolding insert
  insert-IsSorted k v [] s = (tt, tt)
  insert-IsSorted k v ((j, w) ∷ m) s = ground (
    arith,
    insert-IsSorted k v m s.1,
    Above-insert j k v m,
    Above-mono k j m,
    o.cmp_flip k j,
    o.cmp_eq k j,
  )

  Above-remove : (b k : K) (m : OrdMap K V) → Above b m → Above b (remove k m)
  unfolding remove
  Above-remove b k [] a = tt
  Above-remove b k ((j, w) ∷ m) a = ground (arith, Above-remove b k m a.1)

  pub remove-IsSorted : (k : K) (m : OrdMap K V) → IsSorted m → IsSorted (remove k m)
  unfolding remove
  remove-IsSorted k [] s = tt
  remove-IsSorted k ((j, w) ∷ m) s = ground (arith, remove-IsSorted k m s.1, Above-remove j k m s.0)

  -- A key below all entries is absent.
  pub get_below : (k : K) (m : OrdMap K V) → Above k m → get k m ≡ none
  unfolding get
  get_below k [] a = refl
  get_below k ((j, w) ∷ m) a = ground (arith, get_below k m a.1)
