-- ===== src/Lib.antt =====
-- Models of the core of the TiKV client for Rust, with the theorems that make it correct.
--
-- The program. A transaction collects its reads and writes in a buffer, and its commit lowers the
-- buffer to mutations for the store. Keys carry a prefix of their keyspace and are encoded so that
-- bytes compare as keys do. The commit prewrites every mutation, commits the primary key, and then
-- the others, or settles it in one phase or asynchronously; whoever meets a lock of another
-- transaction resolves it by that transaction's primary. Ranges of keys select what a scan reads.
-- Requests are cut by region and size, and routed by a cache of regions, which asks the placement
-- driver for what it does not hold; failed requests are tried again after a backoff; local latches
-- serialise the commits of one process. A read may be routed to a replica of its region.
--
-- The files.
--   Prelude, Order, OrdMap: shared names; Rust's Ord as an interface with its laws; BTreeMap and
--     HashMap as lists of entries in key order.
--   Flags: src/transaction/key_flags.rs. KeyFlags and FlagsOp; apply_all is a fold of apply.
--   Key, Range: src/kv/key.rs and src/kv/bound_range.rs. Keys are lists of bytes.
--   Codec: src/kv/codec.rs. BytesEncoder and decode_bytes_in_place, ascending and descending.
--   Keyspace: src/request/keyspace.rs. The prefixes and their truncation.
--   Buffer: src/transaction/buffer.rs, and from src/transaction/transaction.rs the choice of the
--     keys that commit sends. A method returns the buffer after it; the functions that fetch from
--     the store are arguments. Buffer/Entry has the entries, Buffer/Lowering the mutations,
--     Buffer/Fetch the reads that may ask the store, Buffer/Scan the merged scan and its caching.
--   Backoff: src/backoff.rs. A call returns the state after it and a delay, none or a panic.
--   Backoffer: src/backoffer.rs. The backoff with a budget for the total sleep; Backoffer/Sleep is
--     about one sleep, Backoffer/Budget about any number of them.
--   Region, RegionCache: src/region.rs and src/region_cache.rs. RegionCache/Ttl has the expiry,
--     RegionCache has the lookups, RegionCache/Index what changes the indexes and the stores.
--   Latch: src/transaction/latch.rs. Latch/Step takes and gives back latches, Latch/Owners is
--     about who owns a latch, Latch/Scheduler handles unlock events.
--   Transaction: src/transaction/transaction.rs, with the requests of src/transaction/requests.rs.
--     Transaction has the state and how calls chain, Results the errors and outcomes, Options the
--     options, Status the atomic status, Writes the calls that write, Locking the pessimistic locks,
--     Finish commit, rollback and drop. Committer is the two-phase committer: its prewrite, with
--     Commit for what follows it, and Protocol for the steps that a commit may take. Calls is about
--     sequences of the calls that write, lock and mark keys, end the transaction and keep it alive,
--     and about what a lock request leads to. A call returns the state after it, what it has sent, and its outcome.
--   Resolver: src/transaction/lock.rs and src/transaction/requests.rs. The status of a transaction
--     and its cache, Secondaries for the recovery of an asynchronous commit, Cleanup for
--     cleanup_locks.
--   Timestamp: src/timestamp.rs. Timestamps on signed integers, and their versions.
--   Health, Routing: src/store/health.rs, src/request/read_routing.rs, with
--     src/request/pending_backoff.rs and src/replica_read.rs. Which stores are slow, and which peer
--     serves a read: Routing has the state, the scores and what an attempt leaves for the next one,
--     Routing/Select the choice.
--   Plan: src/request/plan.rs. Plan has the errors, what is asked of others, and the shared state;
--     RegionError what is done about an error of a region, on the cache of RegionCache; Pass one
--     pass of the handler of a shard; Retry the handler of a plan, which retries; Stores the
--     requests to every store; Locks the plan that resolves locks. Retry/Total, Spins and Succeeds
--     are about when a plan ends and how.
--   Shard: src/request/shard.rs, src/store/mod.rs, src/pd/client.rs, src/transaction/requests.rs. The
--     batches of a request, the groups of keys by region, and the shards of a prewrite.
--
-- Bounds and fuel. Numbers are natural numbers; where the code shifts or adds on u64, u32 and i64,
-- the wrap-around, the saturation or the check is written out. The encoder's and the decoder's
-- loops are recursions on what is left of the input. Loops of the latches run for the number of
-- latches that are missing or held, which each round brings down by one. The loop that refreshes an
-- expiry runs for as long as other threads interfere, and these interferences are a list. A run of
-- a backoff asks as often as its argument says. The wait for a commit timestamp runs on fuel, of
-- which a tenth of the timeout and one more is enough, as each turn sleeps ten milliseconds. The
-- retries of a plan run on fuel, which counts those of one shard after another; how much is enough
-- and when none is, is proved. The shards of a plan are handled one after the other, in their order,
-- where the code polls them together; the handler of one shard is as in the code.
--
-- Not modelled: the network, the runtime and the placement driver, which are arguments where their
-- answers matter; the generated protobuf code, of which the fields that the code reads are records;
-- the hash of the latches, the generator of random numbers and the floating-point formula of the
-- time to live of a lock, which are arguments too. The answer of a request plan, with its retries
-- and the locks it resolves, is an argument of the calls of a transaction that send a request. The
-- loops of resolve_locks, the plan that cleans up locks, the state of pipelined transactions, the raw
-- client, snapshots, the setters of options, and the clients of the placement driver and the stores are not modelled.
mod Prelude
pub mod Order
pub mod OrdMap
pub mod Flags
pub mod Health
pub mod Key
pub mod Range
pub mod Buffer
pub mod Codec
pub mod Keyspace
pub mod Backoff
pub mod Backoffer
pub mod Region
pub mod RegionCache
pub mod Latch
pub mod Transaction
pub mod Plan
pub mod Resolver
pub mod Routing
pub mod Shard
pub mod Timestamp
