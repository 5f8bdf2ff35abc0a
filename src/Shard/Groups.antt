-- ===== src/Shard/Groups.antt =====
-- src/pd/client.rs: the groups of keys by region.
use rust_tikv_client.Prelude.{
  ◌≡◌, refl, ap, ◌∙◌, Bool, true, false, none, List, [], ◌∷◌, ◌++◌, map, All, All-append, arith,
}
use rust_tikv_client.Order.{bytes_ord}
use rust_tikv_client.Key.{Key}
use rust_tikv_client.Region.{RegionWithLeader, contains}
use rust_tikv_client.Transaction.Results.{Result, Error, ok, err}
use rust_tikv_client.Shard.{Stream, emit, grow, group_keys_by_region}
use rust_tikv_client.Shard.Batches.{concat, append_assoc}

branch {ℓ κ} :
    {S : Type ℓ} (P : S → Type κ) (b : Bool) (x y : S)
    → (b ≡ true → P x)
    → (b ≡ false → P y)
    → P (elim b [ true ↦ x | false ↦ y ])
branch P true x y h g = h refl
branch P false x y h g = g refl

answer {ℓ κ} :
    {S : Type ℓ} (P : S → Type κ) (o : Result RegionWithLeader) (f : RegionWithLeader → S)
    (g : Error → S)
    → ((r : RegionWithLeader) → o ≡ ok r → P (f r))
    → ((e : Error) → P (g e))
    → P (elim o [ ok r ↦ f r | err e ↦ g e ])
answer P (ok r) f g h k = h r refl
answer P (err e) f g h k = k e

-- The groups of a stream that no error has stopped hold the items in their order.
abbrev pub Covers {ℓ} : {A : Type ℓ} → List A → Stream (List A × RegionWithLeader) → Type ℓ
Covers as_ s = s.stopped ≡ none → concat (map (λ g. g.0) s.items) ≡ as_

module _ {ℓ} {A : Type ℓ} (key : A → Key) (region_for_key : Key → Result RegionWithLeader) where
  grow-Covers :
      (as_ group : List A) (region : RegionWithLeader)
      → Covers (group ++ as_) (grow key region_for_key region group as_)
  unfolding grow
  grow-Covers [] group region = λ e. refl
  grow-Covers (a ∷ as_) group region =
      branch (Covers (group ++ a ∷ as_)) (contains region (key a)) _ _
        (λ h e. grow-Covers as_ (group ++ a ∷ []) region e ∙ append_assoc group (a ∷ []) as_)
        (λ h.
          answer (λ s. Covers (group ++ a ∷ as_) (emit (group, region) s)) (region_for_key (key a))
            _ _ (λ r g e. ap (λ t. group ++ t) (grow-Covers as_ (a ∷ []) r e))
            (λ x e. absurd (ground (arith, e))))

  -- Unless an error ends the stream, its groups hold the keys in their order.
  pub group_keys_by_region-Covers :
      (as_ : List A) → Covers as_ (group_keys_by_region key region_for_key as_)
  unfolding group_keys_by_region
  group_keys_by_region-Covers [] = λ e. refl
  group_keys_by_region-Covers (a ∷ as_) =
      answer (Covers (a ∷ as_)) (region_for_key (key a)) _ _ (λ r g. grow-Covers as_ (a ∷ []) r)
        (λ x e. absurd (ground (arith, e)))

  -- The region of a group holds all its keys.
  abbrev pub IsHeld : List A × RegionWithLeader → Type 0
  IsHeld (group, region) = All (λ a. contains region (key a) ≡ true) group

  abbrev Held : Stream (List A × RegionWithLeader) → Type 0
  Held s = All IsHeld s.items

  module _
      (finds : (k : Key) (r : RegionWithLeader)
        → region_for_key k ≡ ok r
        → contains r k ≡ true) where
    grow-IsHeld :
        (as_ group : List A) (region : RegionWithLeader)
        → IsHeld (group, region)
        → All IsHeld (grow key region_for_key region group as_).items
    unfolding grow
    grow-IsHeld [] group region h = (h, tt)
    grow-IsHeld (a ∷ as_) group region h =
        branch Held (contains region (key a)) _ _
          (λ e.
            grow-IsHeld as_ (group ++ a ∷ []) region
              (All-append (λ b. contains region (key b) ≡ true) group (a ∷ []) h (e, tt)))
          (λ e.
            answer (λ s. Held (emit (group, region) s)) (region_for_key (key a)) _ _
              (λ r g. (h, grow-IsHeld as_ (a ∷ []) r (finds (key a) r g, tt))) (λ x. (h, tt)))

    -- When the lookup finds regions that hold their keys, every key of a group is in the region that
    -- the group is sent to.
    pub group_keys_by_region-IsHeld :
        (as_ : List A) → All IsHeld (group_keys_by_region key region_for_key as_).items
    unfolding group_keys_by_region
    group_keys_by_region-IsHeld [] = tt
    group_keys_by_region-IsHeld (a ∷ as_) =
        answer Held (region_for_key (key a)) _ _
          (λ r g. grow-IsHeld as_ (a ∷ []) r (finds (key a) r g, tt)) (λ x. tt)
