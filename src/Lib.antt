-- ===== src/Lib.antt =====
-- DTGProxy: a proxy for distributed temporal graphs. The crates under crates/ are modelled from the
-- bottom up, each module from the Rust source that its first line names.
--
-- The parts and how they interact. The kernel (crates/kernel/dtg-kernel) has the checked numbers and
-- intervals that all others hold. Storage (crates/storage/dtg-storage) has the typed mutations, the
-- bindings of replicas and their backend classes. Transactions (crates/execution/dtg-transaction)
-- take a start time from the timestamp authority, stage mutations in an overlay over a base snapshot,
-- check them against newer commits, and commit at a time that the authority reserves and later
-- resolves. Control (crates/execution/dtg-control) keeps the catalog: which replicas serve which
-- shard, from which generation, with retention pins on generations that must stay; a migration leads
-- a shard from one generation to the next. Queries (crates/execution/dtg-query) charge what they use
-- to a budget. Shards (crates/execution/dtg-shard) apply commands, which travel as bytes.
--
-- The files:
--   Base: the libraries' names, passed on; Boolean tests, lists, integers, maps (`BTreeMap` as a list
--     of entries in the order of the keys), results with `?` as bind, and texts.
--   Kernel: time.rs, id.rs, error.rs of the kernel. Kernel.Intervals: half-open intervals.
--   Storage: binding.rs, capability.rs, error.rs. Storage.Mutation: mutation.rs, and value.rs of the
--     kernel. Storage.Messages: the texts of error.rs.
--   Txn: the errors of lib.rs. Txn.Conflict: conflict.rs. Txn.Snapshot: snapshot.rs. Txn.Overlay and
--     Txn.Overlay.Validate: overlay.rs. Txn.Timestamp: the state machine of timestamp.rs. Txn.Codec:
--     its commands as bytes. Txn.Authority: its batches, its log and `open`. Txn.Participants:
--     `ParticipantWrite` of participant.rs and `validate_participants` of coordinator.rs. Txn.Stamping: its
--     `stamp_mutations`.
--   Control: lib.rs and binding.rs. Control.Placement: placement.rs. Control.Catalog: `CatalogState`
--     of catalog.rs. Control.Catalog.Replica: its `CatalogReplica`. Control.Observation: observation.rs.
--     Control.Reconcile: reconcile.rs. Control.Migration and Control.Migration.Receipt: migration.rs.
--     Control.Migration.Steps: its methods as a step relation.
--   Query.Budget: budget.rs.
--   Shard: the errors of state_machine.rs of crates/execution/dtg-shard. Shard.Codec: the limits of
--     command.rs. Shard.Codec.Encoder and Shard.Codec.Decoder: its two types of those names.
--     Shard.Online: migration.rs. Shard.Command: the commands of command.rs. Shard.Command.Checks: what
--     they check and the mutations they stand for. Shard.Command.Encode and Shard.Command.Decode: their
--     bytes. Shard.Messages: the texts of state_machine.rs. Shard.Durable and
--     Shard.Durable.States: what it keeps in the store for a transaction. Shard.History: its reads of the history of the store. Shard.Machine: the
--     state machine, its checks, and how it takes its intents from the store. Shard.Machine.Apply:
--     `new`, `stage_migration_state_store` and `apply_committed` with what it calls.
--     Shard.Machine.Batch: its `apply_committed_batch`. Shard.Machine.Intents: what a command does to the state. Storage.Replica: the batches, the
--     history and the interface of a store, from mutation.rs and read.rs of the storage crate.
--   The children of these modules hold the proofs and are named for what they prove; the modules
--     Examples and GraphExamples hold runs at concrete inputs.
--
-- How the code is rendered. A newtype over an unsigned number is the number. A `TransactionTime` is
-- an `i64` that its constructor keeps from being negative, and is a natural number; ends of intervals
-- are integers. Checked additions compare with the largest value of their machine type. A digest is
-- the number that its bytes spell. A method that changes `self` returns the new state; where the code
-- drops a state on an error, the result holds the error alone. Mutexes are held for a whole
-- operation, so that an operation is one step. Names of BTreeMap operations are those of Base.Map.
--
-- A value in a command is written and read with the number of levels that are left for nesting. Where
-- the code of a shard panics as unreachable, a partial function returns none.
--
-- Bounds. The one loop that is not structural, `advance_published_frontier`, is given one round for
-- each time between the frontier and the last time issued; its theorem says that it ends without an
-- error in a state where it can go no further.
--
-- Parameters. blake3 is an argument, with the length of its digests as hypothesis in Txn.Codec and
-- without one in Shard.Command and Shard.Machine. The store of a replica is an interface of operations
-- without laws, each a function of the store; the digest of a list of mutations is a function.
-- Whether an append to the log succeeds, whether a query was cancelled, and the clock are arguments
-- of the operations that read them.
--
-- Not modelled. The coordinator's calls of the shards, recovery, the ledger of actions, the storage
-- providers, the language front end, query execution and the processes. They are asynchronous calls of services, or parts that come after these.
pub mod Base
pub mod Kernel
pub mod Query
pub mod Shard
pub mod Storage
pub mod Control
pub mod Txn
