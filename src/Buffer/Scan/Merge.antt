-- ===== src/Buffer/Scan/Merge.antt =====
-- Two ascending lists that agree on a prefix agree on a prefix after an override.
use Prim.Native.Nat.Ordering.{lt, eq, gt}
use rust_tikv_client.Prelude.{
  ℕ, zero, suc, ◌≡◌, refl, sym, ap, subst, ◌∙◌, [], ◌∷◌, arith, take, inl, inr, Bool-cases,
}
use rust_tikv_client.Order.{bytes_ord, Ord, eqb, eqb_iff}
use rust_tikv_client.OrdMap
use rust_tikv_client.OrdMap.{OrdMap}
use rust_tikv_client.OrdMap.Sorted.{IsSorted, Above}

module _ {ℓ κ} {K : Type ℓ} {V : Type κ} ⦃o : Ord K⦄ where
  remove-Above : (k : K) (m : OrdMap K V) → Above k m → OrdMap.remove k m ≡ m
  unfolding OrdMap.remove
  remove-Above k [] a = refl
  remove-Above k ((j, w) ∷ m) a = ground (arith, remove-Above k m a.1)

  take-take : (n : ℕ) (m : OrdMap K V) → take n (take (suc n) m) ≡ take n m
  take-take zero m = refl
  take-take (suc n) [] = refl
  take-take (suc n) (x ∷ m) = ap (◌∷◌ x) (take-take n m)

  pub take_self : (n : ℕ) (m : OrdMap K V) → take n (take n m) ≡ take n m
  take_self zero m = refl
  take_self (suc n) [] = refl
  take_self (suc n) (x ∷ m) = ap (◌∷◌ x) (take_self n m)

  take-cons-take : (n : ℕ) (x : K × V) (m : OrdMap K V) → take n (x ∷ take n m) ≡ take n (x ∷ m)
  take-cons-take zero x m = refl
  take-cons-take (suc n) x m = ap (◌∷◌ x) (take-take n m)

  Above-take : (k : K) (n : ℕ) (m : OrdMap K V) → Above k m → Above k (take n m)
  Above-take k zero m a = tt
  Above-take k (suc n) [] a = tt
  Above-take k (suc n) ((j, w) ∷ m) a = (a.0, Above-take k n m a.1)

  -- An insertion moves at most one entry out of the first `n`.
  take-insert :
      (n : ℕ) (k : K) (v : V) (m : OrdMap K V)
      → take n (OrdMap.insert k v (take n m)) ≡ take n (OrdMap.insert k v m)
  unfolding OrdMap.insert
  take-insert zero k v m = refl
  take-insert (suc n) k v [] = refl
  take-insert (suc n) k v ((j, w) ∷ m) = go (o.cmp k j) refl (take-insert n k v m)
    where
      go :
          (c : _)
          → o.cmp k j ≡ c
          → take n (OrdMap.insert k v (take n m)) ≡ take n (OrdMap.insert k v m)
          → take (suc n) (OrdMap.insert k v ((j, w) ∷ take n m))
            ≡ take (suc n) (OrdMap.insert k v ((j, w) ∷ m))
      go lt e ih = rw (e, OrdMap.insert) (ap (◌∷◌ (k, v)) (take-cons-take n (j, w) m))
      go eq e ih = rw (e, OrdMap.insert) (ap (◌∷◌ (k, v)) (take_self n m))
      go gt e ih = rw (e, OrdMap.insert) (ap (◌∷◌ (j, w)) ih)

  -- A removal moves at most one entry into them.
  take-remove :
      (n : ℕ) (k : K) (m : OrdMap K V)
      → IsSorted m
      → take n (OrdMap.remove k (take (suc n) m)) ≡ take n (OrdMap.remove k m)
  unfolding OrdMap.remove
  take-remove n k [] s = refl
  take-remove zero k ((j, w) ∷ m) s = refl
  take-remove (suc n) k ((j, w) ∷ m) s = elim (Bool-cases (eqb k j)) [
    | inl e ↦
        let a : Above k m = subst (λ x. Above x m) (sym ((eqb_iff k j).0 e)) s.0 in
        rw e (
          rw (remove-Above k m a, remove-Above k (take (suc n) m) (Above-take k (suc n) m a))
            (take_self (suc n) m))
    | inr e ↦ rw e (ap (◌∷◌ (j, w)) (take-remove n k m s.1))
  ]

  pub insert-agrees :
      (n : ℕ) (k : K) (v : V) (l m : OrdMap K V)
      → take n l ≡ take n m
      → take n (OrdMap.insert k v l) ≡ take n (OrdMap.insert k v m)
  insert-agrees n k v l m h =
      sym (take-insert n k v l) ∙ ap (λ x. take n (OrdMap.insert k v x)) h ∙ take-insert n k v m

  pub remove-agrees :
      (n : ℕ) (k : K) (l m : OrdMap K V)
      → IsSorted l
      → IsSorted m
      → take (suc n) l ≡ take (suc n) m
      → take n (OrdMap.remove k l) ≡ take n (OrdMap.remove k m)
  remove-agrees n k l m s t h =
      sym (take-remove n k l s) ∙ ap (λ x. take n (OrdMap.remove k x)) h ∙ take-remove n k m t

  pub IsSorted-take : (n : ℕ) (m : OrdMap K V) → IsSorted m → IsSorted (take n m)
  IsSorted-take zero m s = tt
  IsSorted-take (suc n) [] s = tt
  IsSorted-take (suc n) ((j, w) ∷ m) s = (Above-take j n m s.0, IsSorted-take n m s.1)
