-- ===== src/Shard.antt =====
-- src/request/shard.rs, src/store/mod.rs, src/pd/client.rs and src/transaction/requests.rs: how a
-- request is cut into parts, by region and by size. `region_for_key` is an argument.
pub mod Ranges
pub mod Batches
pub mod Groups
pub mod Prewrite
pub mod Tests
use rust_tikv_client.Prelude.{
  ℕ, ◌+◌, ◌*◌, Bool, true, false, not, ◌&&◌, ◌||◌, ◌==◌, leb, Option, none, some, List, [], ◌∷◌,
  ◌++◌, if◌then◌else◌, length, map,
}
use rust_tikv_client.Order.{bytes_ord, eqb, before, upto}
use rust_tikv_client.Key.{Key, is_empty}
use rust_tikv_client.Region.{RegionWithLeader, contains}
use rust_tikv_client.Buffer.Entry.{ProtoMutation}
use rust_tikv_client.Transaction.Results.{Result, Error, ok, err}
use rust_tikv_client.Transaction.Requests.{PrewriteRequest}
use rust_tikv_client.Transaction.Committer.{txn_commit_batch_size}

abbrev pub has_items {ℓ} : {A : Type ℓ} → List A → Bool
has_items [] = false
has_items (x ∷ xs) = true

abbrev pub last_batch {ℓ} : {A : Type ℓ} → List A → List (List A)
last_batch [] = []
last_batch (x ∷ xs) = (x ∷ xs) ∷ []

-- The loop of `Batchable::batches`, with the size of an item, the batch that is filled, and its
-- size.
unfoldable pub batch_loop {ℓ} : {A : Type ℓ} → (A → ℕ) → ℕ → List A → ℕ → List A → List (List A)
batch_loop item_size batch_size batch size [] = last_batch batch
batch_loop item_size batch_size batch size (item ∷ items) =
    let full = leb batch_size (size + item_size item) && has_items batch in
    let rest =
      batch_loop item_size batch_size (if full then item ∷ [] else batch ++ item ∷ [])
        (if full then item_size item else size + item_size item) items in
    if full then batch ∷ rest else rest

unfoldable pub batches {ℓ} : {A : Type ℓ} → (A → ℕ) → ℕ → List A → List (List A)
unfolding batch_loop
batches item_size batch_size items = batch_loop item_size batch_size [] 0 items

-- A stream of groups, and the error that ends it, if one does.
pub record Stream {ℓ} (A : Type ℓ) : Type ℓ where
  pub items : List A
  pub stopped : Option Error

abbrev pub emit {ℓ} : {A : Type ℓ} → A → Stream A → Stream A
emit a s = record s { items = a ∷ s.items }

-- `group_keys_by_region`, with the keys that a region holds so far.
module _ {ℓ} {A : Type ℓ} (key : A → Key) (region_for_key : Key → Result RegionWithLeader) where
  unfoldable pub grow : RegionWithLeader → List A → List A → Stream (List A × RegionWithLeader)
  unfolding contains
  grow region group [] = record { items = (group, region) ∷ []; stopped = none }
  grow region group (a ∷ as_) = elim (contains region (key a)) [
    | true ↦ grow region (group ++ a ∷ []) as_
    | false ↦
        emit (group, region)
          (elim (region_for_key (key a)) [
            | ok r ↦ grow r (a ∷ []) as_
            | err e ↦ record { items = []; stopped = some e }
          ])
  ]

  unfoldable pub group_keys_by_region : List A → Stream (List A × RegionWithLeader)
  unfolding grow
  group_keys_by_region [] = record { items = []; stopped = none }
  group_keys_by_region (a ∷ as_) = elim (region_for_key (key a)) [
    | ok r ↦ grow r (a ∷ []) as_
    | err e ↦ record { items = []; stopped = some e }
  ]

pub record PrewriteShard : Type 0 where
  pub mutations : List ProtoMutation
  pub txn_size : ℕ

abbrev pub mutation_size : ProtoMutation → ℕ
mutation_size m = length m.key + length m.value

-- `sort_by`, which is stable.
unfoldable pub insert_mutation : ProtoMutation → List ProtoMutation → List ProtoMutation
insert_mutation m [] = m ∷ []
insert_mutation m (n ∷ ns) =
    let rest = insert_mutation m ns in if upto m.key n.key then m ∷ n ∷ ns else n ∷ rest

unfoldable pub sort_mutations : List ProtoMutation → List ProtoMutation
unfolding insert_mutation
sort_mutations [] = []
sort_mutations (m ∷ ms) = insert_mutation m (sort_mutations ms)

abbrev pub shard_of : ℕ → RegionWithLeader → List ProtoMutation → PrewriteShard × RegionWithLeader
shard_of txn_size region ms = (record { mutations = ms; txn_size = txn_size }, region)

unfoldable pub region_shards :
    List (List ProtoMutation × RegionWithLeader) → List (PrewriteShard × RegionWithLeader)
unfolding batches
region_shards [] = []
region_shards ((ms, region) ∷ groups) =
    map (shard_of (length ms) region) (batches mutation_size txn_commit_batch_size ms)
    ++ region_shards groups

unfoldable pub prewrite_shards :
    (Key → Result RegionWithLeader) → PrewriteRequest → Stream (PrewriteShard × RegionWithLeader)
unfolding sort_mutations group_keys_by_region region_shards
prewrite_shards region_for_key req =
    let s =
      group_keys_by_region (λ (m : ProtoMutation). m.key) region_for_key
        (sort_mutations req.mutations) in
    record { items = region_shards s.items; stopped = s.stopped }

unfoldable pub any_mutation : Key → List ProtoMutation → Bool
any_mutation k [] = false
any_mutation k (m ∷ ms) = if eqb m.key k then true else any_mutation k ms

unfoldable pub apply_prewrite_shard : PrewriteRequest → PrewriteShard → PrewriteRequest
unfolding any_mutation
apply_prewrite_shard req shard =
    let primary = any_mutation req.primary_lock shard.mutations in
    let secondaries = if req.use_async_commit && not primary then [] else req.secondaries in
    record req {
      secondaries = secondaries;
      try_one_pc =
          if req.try_one_pc
            && (not primary || not (length shard.mutations == length secondaries + 1))
          then false
          else req.try_one_pc;
      txn_size = shard.txn_size;
      mutations = shard.mutations;
    }

abbrev pub min_key : Key → Key → Key
min_key a b = if upto a b then a else b

abbrev pub max_key : Key → Key → Key
max_key a b = if upto a b then b else a

unfoldable pub range_intersection : Key × Key → Key × Key → Key × Key
range_intersection (lower, upper) (low, high) = (
  max_key lower low,
  if is_empty upper then high else if is_empty high then upper else min_key upper high,
)
