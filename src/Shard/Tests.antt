-- ===== src/Shard/Tests.antt =====
-- Runs of the cutting of requests, and witnesses of its theorems.
use mathlib.Core.List.{Perm}
use rust_tikv_client.Prelude.{
  ℕ, ◌≡◌, refl, ap, subst, true, ◌&&◌, none, [], ◌∷◌, All, if◌then◌else◌,
}
use rust_tikv_client.Order.{bytes_ord, before}
use rust_tikv_client.Key.{Key}
use rust_tikv_client.Region.{RegionWithLeader, contains}
use rust_tikv_client.Buffer.Entry.{ProtoMutation, Op, Assertion}
use rust_tikv_client.Transaction.Results.{Result, ok, err}
use rust_tikv_client.Transaction.Requests.{PrewriteRequest, new_prewrite_request}
use rust_tikv_client.Shard.{
  batches, batch_loop, group_keys_by_region, grow, prewrite_shards, sort_mutations, insert_mutation,
  region_shards, range_intersection,
}
use rust_tikv_client.Shard.Ranges.{in_range, in_range-range_intersection}
use rust_tikv_client.Shard.Groups.{IsHeld, group_keys_by_region-IsHeld}
use rust_tikv_client.Shard.Prewrite.{sent_mutations, prewrite_shards-perm}

abbrev region : ℕ → Key → Key → RegionWithLeader
region id low high = record {
  region = record { id = id; start_key = low; end_key = high; region_epoch = none; peers = [] };
  leader = none;
}

-- Two regions, cut at the key 5.
abbrev two_regions : Key → Result RegionWithLeader
two_regions k = if before k (5 ∷ []) then ok (region 1 [] (5 ∷ [])) else ok (region 2 (5 ∷ []) [])

abbrev change : ℕ → ProtoMutation
change n = record { op = Op.put; key = n ∷ []; value = []; assertion = Assertion.unasserted }

abbrev request : PrewriteRequest
request = new_prewrite_request (change 7 ∷ change 3 ∷ change 4 ∷ []) (3 ∷ []) 800 3000

four :
    batches (λ n. n) 10 (4 ∷ 5 ∷ 1 ∷ 20 ∷ 2 ∷ [])
    ≡ (4 ∷ 5 ∷ []) ∷ (1 ∷ []) ∷ (20 ∷ []) ∷ (2 ∷ []) ∷ []
unfolding batches batch_loop
four = refl

in_range-range_intersection_example :
    in_range (range_intersection (2 ∷ [], []) ([], 7 ∷ [])) (3 ∷ [])
    ≡ (in_range (2 ∷ [], []) (3 ∷ []) && in_range ([], 7 ∷ []) (3 ∷ []))
in_range-range_intersection_example = in_range-range_intersection (2 ∷ [], []) ([], 7 ∷ []) (3 ∷ [])

abbrev everywhere : RegionWithLeader
everywhere = region 1 [] []

everywhere-contains : (k : Key) → contains everywhere k ≡ true
unfolding contains
everywhere-contains [] = refl
everywhere-contains (b ∷ k) = refl

found :
    (r : RegionWithLeader)
    → ◌≡◌ {A = Result RegionWithLeader} (ok everywhere) (ok r)
    → everywhere ≡ r
found r e = ap (λ (o : Result RegionWithLeader). elim o [ ok t ↦ t | err x ↦ everywhere ]) e

group_keys_by_region-IsHeld_example :
    All
      (IsHeld (λ k. k) two_regions)
      (group_keys_by_region
        (λ k. k)
        (λ k. ok everywhere)
        ((3 ∷ []) ∷ (4 ∷ []) ∷ (7 ∷ []) ∷ [])).items
group_keys_by_region-IsHeld_example =
    group_keys_by_region-IsHeld (λ k. k) (λ k. ok everywhere)
      (λ k r e. subst (λ t. contains t k ≡ true) (found r e) (everywhere-contains k))
      ((3 ∷ []) ∷ (4 ∷ []) ∷ (7 ∷ []) ∷ [])

prewrite_shards-perm_example :
    Perm
      (sent_mutations (prewrite_shards two_regions request).items)
      (change 7 ∷ change 3 ∷ change 4 ∷ [])
unfolding prewrite_shards sort_mutations insert_mutation group_keys_by_region grow contains
    region_shards batches batch_loop new_prewrite_request
prewrite_shards-perm_example = prewrite_shards-perm two_regions request refl
