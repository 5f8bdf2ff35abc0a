-- ===== src/Plan.antt =====
-- src/request/plan.rs: plans that retry. What the code asks of others is the record `World`: how a
-- plan is cut into shards, the clients of stores, and the answers of the servers, each of which may
-- depend on how much was asked before. `P` stands for plans, `A` for the rest of a response. The
-- client of the placement driver is the cache of regions that it keeps. Messages of errors, logs,
-- metrics, and the source and context of a request, which are only passed on, are left out.
pub mod RegionError
pub mod Pass
pub mod Retry
pub mod Stores
pub mod Locks
mod Tests
use rust_tikv_client.Prelude.{ℕ, ◌+◌, Bool, true, false, List, ◌∷◌, Option}
use rust_tikv_client.Region.{Peer, ProtoRegion, RegionVerId, RegionWithLeader}
use rust_tikv_client.RegionCache.{RegionCache}
use rust_tikv_client.Routing.{ReadRouting}

-- `errorpb::Error`, which the build generates: the fields that the client reads.
pub record ErrorPb : Type 0 where
  pub not_leader : Option (Option Peer)
  pub store_not_match : Bool
  pub epoch_not_match : Option (List ProtoRegion)
  pub region_not_found : Bool
  pub key_not_in_region : Bool
  pub stale_command : Bool
  pub server_is_busy : Bool
  pub max_timestamp_not_synced : Bool
  pub read_index_not_ready : Bool
  pub proposal_in_merging_mode : Bool
  pub raft_entry_too_large : Bool
  pub data_is_not_ready : Bool

-- The errors of a plan; `key_errors` stands for `MultipleKeyErrors`, of which only that they are
-- passed on matters, `backoff_exhausted` for a `RegionError` with a message only, and `other` for every
-- other error.
pub data PlanError : Type 0 where
  grpc_api grpc key_errors other : ℕ → PlanError
  leader_not_found : RegionVerId → PlanError
  region_error : ErrorPb → PlanError
  backoff_exhausted : PlanError

pub data Answer {ℓ} (A : Type ℓ) : Type ℓ where
  ok : A → Answer A
  err : PlanError → Answer A

-- `pending` is a loop that has run out of fuel; `panics` is a panic of the generator of random
-- numbers.
pub data Ends {ℓ} (A : Type ℓ) : Type ℓ where
  returns : Answer A → Ends A
  panics pending : Ends A

abbrev pub is_grpc_error : PlanError → Bool
is_grpc_error (PlanError.grpc_api n) = true
is_grpc_error (PlanError.grpc n) = true
is_grpc_error _ = false

pub record Response (A : Type 0) : Type 0 where
  pub key_errors : Option ℕ
  pub region_error : Option ErrorPb
  pub body : A

-- `RegionStore` with what the plan writes into it.
pub record RegionStore : Type 0 where
  pub region_with_leader : RegionWithLeader
  pub replica_read : Bool
  pub stale_read : Bool
  pub attempt : ℕ

-- The number given to each function counts the requests and sleeps so far. `gen n` draws a number
-- below n, which may differ each time.
pub record World (P A : Type 0) : Type 0 where
  pub shards : ℕ → P → List (Answer (P × RegionWithLeader))
  pub map_region_to_store : ℕ → RegionWithLeader → Answer (Unit {0})
  pub apply_store : RegionStore → P → Answer P
  pub execute : ℕ → RegionStore → P → Answer (Response A)
  pub now_ms : ℕ → ℕ
  pub now_epoch_sec : ℕ → ℕ
  pub gen : ℕ → ℕ → ℕ

-- What the handlers share: the cache of regions, the routing, how many requests were sent and sleeps
-- taken, and the sleeps, the last one first.
pub record State : Type 0 where
  pub cache : RegionCache
  pub routing : ReadRouting
  pub ticks : ℕ
  pub slept : List ℕ

abbrev pub sleep : ℕ → State → State
sleep d s = record s { ticks = s.ticks + 1; slept = d ∷ s.slept }
