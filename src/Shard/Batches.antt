-- ===== src/Shard/Batches.antt =====
-- src/request/shard.rs: the batches of a request.
use rust_tikv_client.Prelude.{
  ℕ, ◌+◌, ◌<◌, ◌≡◌, refl, sym, ap, ◌∙◌, Bool, true, false, ◌&&◌, leb, List, [], ◌∷◌, ◌++◌,
  if◌then◌else◌, All, arith,
}
use rust_tikv_client.Shard.{has_items, last_batch, batch_loop, batches}

abbrev pub concat {ℓ} : {A : Type ℓ} → List (List A) → List A
concat [] = []
concat (xs ∷ xss) = xs ++ concat xss

abbrev pub total {ℓ} : {A : Type ℓ} → (A → ℕ) → List A → ℕ
total f [] = 0
total f (x ∷ xs) = f x + total f xs

module _ {ℓ} {A : Type ℓ} where
  pub append_assoc : (xs ys zs : List A) → (xs ++ ys) ++ zs ≡ xs ++ (ys ++ zs)
  append_assoc [] ys zs = refl
  append_assoc (x ∷ xs) ys zs = ap (λ t. x ∷ t) (append_assoc xs ys zs)

  pub append_nil : (xs : List A) → xs ++ [] ≡ xs
  append_nil [] = refl
  append_nil (x ∷ xs) = ap (λ t. x ∷ t) (append_nil xs)

  total-append : (f : A → ℕ) (xs ys : List A) → total f (xs ++ ys) ≡ total f xs + total f ys
  total-append f [] ys = omega arith
  total-append f (x ∷ xs) ys = omega (arith, total-append f xs ys)

  concat-last_batch : (xs : List A) → concat (last_batch xs) ≡ xs
  concat-last_batch [] = refl
  concat-last_batch (x ∷ xs) = append_nil (x ∷ xs)

  concat-batch_step :
      (full : Bool) (rest : List A → ℕ → List (List A)) (batch : List A) (item : A) (items : List A)
      (one more : ℕ)
      → ((xs : List A) (n : ℕ) → concat (rest xs n) ≡ xs ++ items)
      → let r =
          rest (if full then item ∷ [] else batch ++ item ∷ []) (if full then one else more) in
        concat (if full then batch ∷ r else r) ≡ batch ++ item ∷ items
  concat-batch_step true rest batch item items one more h = ap (λ t. batch ++ t) (h (item ∷ []) one)
  concat-batch_step false rest batch item items one more h =
      h (batch ++ item ∷ []) more ∙ append_assoc batch (item ∷ []) items

  concat-batch_loop :
      (f : A → ℕ) (n : ℕ) (items batch : List A) (size : ℕ)
      → concat (batch_loop f n batch size items) ≡ batch ++ items
  unfolding batch_loop
  concat-batch_loop f n [] batch size = concat-last_batch batch ∙ sym (append_nil batch)
  concat-batch_loop f n (item ∷ items) batch size =
      concat-batch_step (leb n (size + f item) && has_items batch)
        (λ xs m. batch_loop f n xs m items) batch item items (f item) (size + f item)
        (λ xs m. concat-batch_loop f n items xs m)

  -- The batches hold the items in their order.
  pub concat-batches : (f : A → ℕ) (n : ℕ) (items : List A) → concat (batches f n items) ≡ items
  unfolding batches
  concat-batches f n items = concat-batch_loop f n items [] 0

  -- A batch is not empty, and one of several items is smaller than the limit.
  abbrev pub IsBatch : (A → ℕ) → ℕ → List A → Type 0
  IsBatch f n [] = ⊥
  IsBatch f n (x ∷ []) = Unit
  IsBatch f n (x ∷ y ∷ xs) = total f (x ∷ y ∷ xs) < n

  -- A batch that is filled: it may still be empty.
  abbrev Fills : (A → ℕ) → ℕ → List A → ℕ → Type 0
  Fills f n [] size = size ≡ 0
  Fills f n (x ∷ xs) size = IsBatch f n (x ∷ xs) × (size ≡ total f (x ∷ xs))

  last_batch-All :
      (f : A → ℕ) (n : ℕ) (xs : List A) (size : ℕ)
      → Fills f n xs size
      → All (IsBatch f n) (last_batch xs)
  last_batch-All f n [] size h = tt
  last_batch-All f n (x ∷ xs) size h = (h.0, tt)

  turn-All :
      (f : A → ℕ) (n : ℕ) (full : Bool) (rest : List A → ℕ → List (List A)) (batch : List A)
      (item : A) (one more : ℕ)
      → (full ≡ true → IsBatch f n batch)
      → (full ≡ true → Fills f n (item ∷ []) one)
      → (full ≡ false → Fills f n (batch ++ item ∷ []) more)
      → ((xs : List A) (m : ℕ) → Fills f n xs m → All (IsBatch f n) (rest xs m))
      → let r =
          rest (if full then item ∷ [] else batch ++ item ∷ []) (if full then one else more) in
        All (IsBatch f n) (if full then batch ∷ r else r)
  turn-All f n true rest batch item one more a b c h = (a refl, h (item ∷ []) one (b refl))
  turn-All f n false rest batch item one more a b c h = h (batch ++ item ∷ []) more (c refl)

  full-IsBatch :
      (f : A → ℕ) (n : ℕ) (batch : List A) (size more : ℕ)
      → Fills f n batch size
      → (leb n more && has_items batch) ≡ true
      → IsBatch f n batch
  full-IsBatch f n [] size more h e = ground (arith, e)
  full-IsBatch f n (x ∷ xs) size more h e = h.0

  grown-Fills :
      (f : A → ℕ) (n : ℕ) (batch : List A) (item : A) (size : ℕ)
      → Fills f n batch size
      → (leb n (size + f item) && has_items batch) ≡ false
      → Fills f n (batch ++ item ∷ []) (size + f item)
  grown-Fills f n [] item size h e = (tt, omega (arith, h))
  grown-Fills f n (x ∷ []) item size h e = (ground (arith, h.1, e), omega (arith, h.1))
  grown-Fills f n (x ∷ y ∷ xs) item size h e =
      let t = total-append f xs (item ∷ []) in (ground (arith, h.1, e, t), omega (arith, h.1, t))

  batch_loop-All :
      (f : A → ℕ) (n : ℕ) (items batch : List A) (size : ℕ)
      → Fills f n batch size
      → All (IsBatch f n) (batch_loop f n batch size items)
  unfolding batch_loop
  batch_loop-All f n [] batch size h = last_batch-All f n batch size h
  batch_loop-All f n (item ∷ items) batch size h =
      turn-All f n (leb n (size + f item) && has_items batch) (λ xs m. batch_loop f n xs m items)
        batch item (f item) (size + f item) (full-IsBatch f n batch size (size + f item) h)
        (λ e. (tt, omega arith)) (grown-Fills f n batch item size h)
        (λ xs m. batch_loop-All f n items xs m)

  -- No batch is empty, and a batch of several items is smaller than the limit.
  pub batches-IsBatch : (f : A → ℕ) (n : ℕ) (items : List A) → All (IsBatch f n) (batches f n items)
  unfolding batches
  batches-IsBatch f n items = batch_loop-All f n items [] 0 refl
