-- ===== src/Shard/Prewrite.antt =====
-- src/transaction/requests.rs: the shards of a prewrite hold its mutations.
use mathlib.Core.List.{Perm}
use mathlib.Core.List.Perm
use rust_tikv_client.Prelude.{
  ℕ, ◌≡◌, refl, sym, ap, subst, ◌∙◌, none, List, [], ◌∷◌, ◌++◌, map, length, if-elim,
}
use rust_tikv_client.Order.{bytes_ord, upto}
use rust_tikv_client.Key.{Key}
use rust_tikv_client.Region.{RegionWithLeader}
use rust_tikv_client.Buffer.Entry.{ProtoMutation}
use rust_tikv_client.Transaction.Results.{Result}
use rust_tikv_client.Transaction.Requests.{PrewriteRequest}
use rust_tikv_client.Transaction.Committer.{txn_commit_batch_size}
use rust_tikv_client.Shard.{
  PrewriteShard, batches, insert_mutation, sort_mutations, mutation_size, shard_of, region_shards,
  group_keys_by_region, prewrite_shards,
}
use rust_tikv_client.Shard.Batches.{concat, append_assoc, concat-batches}
use rust_tikv_client.Shard.Groups.{group_keys_by_region-Covers}

insert_mutation-perm :
    (m : ProtoMutation) (ns : List ProtoMutation) → Perm (insert_mutation m ns) (m ∷ ns)
unfolding insert_mutation
insert_mutation-perm m [] = Perm.refl (m ∷ [])
insert_mutation-perm m (n ∷ ns) =
    if-elim (λ l. Perm l (m ∷ n ∷ ns)) (upto m.key n.key) _ _ (λ e. Perm.refl (m ∷ n ∷ ns))
      (λ e. Perm.trans (Perm.cons n (insert_mutation-perm m ns)) (Perm.swap m n ns))

sort_mutations-perm : (ms : List ProtoMutation) → Perm (sort_mutations ms) ms
unfolding sort_mutations
sort_mutations-perm [] = Perm.refl []
sort_mutations-perm (m ∷ ms) =
    Perm.trans (insert_mutation-perm m (sort_mutations ms)) (Perm.cons m (sort_mutations-perm ms))

abbrev pub sent_mutations : List (PrewriteShard × RegionWithLeader) → List ProtoMutation
sent_mutations [] = []
sent_mutations ((shard, region) ∷ shards) = shard.mutations ++ sent_mutations shards

sent_mutations-shard_of :
    (n : ℕ) (region : RegionWithLeader) (bs : List (List ProtoMutation))
    (shards : List (PrewriteShard × RegionWithLeader))
    → sent_mutations (map (shard_of n region) bs ++ shards) ≡ concat bs ++ sent_mutations shards
sent_mutations-shard_of n region [] shards = refl
sent_mutations-shard_of n region (b ∷ bs) shards =
    ap (λ t. b ++ t) (sent_mutations-shard_of n region bs shards)
    ∙ sym (append_assoc b (concat bs) (sent_mutations shards))

region_shards-sent :
    (groups : List (List ProtoMutation × RegionWithLeader))
    → sent_mutations (region_shards groups) ≡ concat (map (λ g. g.0) groups)
unfolding region_shards
region_shards-sent [] = refl
region_shards-sent ((ms, region) ∷ groups) =
    sent_mutations-shard_of (length ms) region (batches mutation_size txn_commit_batch_size ms)
      (region_shards groups)
    ∙ ap (λ t. t ++ sent_mutations (region_shards groups))
        (concat-batches mutation_size txn_commit_batch_size ms)
    ∙ ap (λ t. ms ++ t) (region_shards-sent groups)

-- Unless an error ends the stream, the shards of a prewrite hold each of its mutations as often as the
-- request does.
pub prewrite_shards-perm :
    (region_for_key : Key → Result RegionWithLeader) (req : PrewriteRequest)
    → (prewrite_shards region_for_key req).stopped ≡ none
    → Perm (sent_mutations (prewrite_shards region_for_key req).items) req.mutations
unfolding prewrite_shards
prewrite_shards-perm region_for_key req e =
    let sorted = sort_mutations req.mutations in
    let key : ProtoMutation → Key = λ m. m.key in
    let groups = group_keys_by_region key region_for_key sorted in
    subst (λ l. Perm l req.mutations)
      (sym
        (region_shards-sent groups.items ∙ group_keys_by_region-Covers key region_for_key sorted e))
      (sort_mutations-perm req.mutations)
