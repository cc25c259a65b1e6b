-- ===== src/Lib.antt =====
-- ElasticRelay copies changes from MySQL, PostgreSQL and MongoDB to Elasticsearch. This library models
-- the parts of its Go code that decide what is kept, retried, read and resumed. The names of files
-- below are paths from the repository's root, the names of modules stand in front of them.
--
-- - Gateway: the messages Checkpoint and ChangeEvent (api/gateway/v1/common.pb.go).
-- - Dlq: the dead letter queue (internal/dlq/dlq.go). Dlq.Item has the items and one attempt,
--   Dlq.Backoff shouldRetry, and Dlq.Queue the manager with NewDLQManager, AddFailedEvent,
--   processRetryBatch, GetStats, ListItems, DiscardItem and CleanupResolved. The other modules hold the
--   theorems: Invariant and Dedupe on reachable queues (a step relation over the operations), Rounds
--   on one round of retries, Attempts on repeated attempts, Delays on the delay, Views on the queries
--   and the clean-up, Races on an operation between the halves of a retry, Restarts on a restart there.
-- - Parallel: parallel snapshots (internal/parallel). Parallel.Task has the records of types.go,
--   Parallel.Chunks the cutting of a table (manager.go), Parallel.Worker the run of a chunk
--   (worker.go), Parallel.Progress the bookkeeping (progress.go). Cover, Batches and Retries hold
--   the theorems on the first three.
-- - Lsn: positions in PostgreSQL's log. Lsn.Hex models strconv.ParseUint in base 16 and the verb %X,
--   Lsn.Position the functions on LSNs of internal/connectors/postgresql/checkpoint.go and
--   lsn_manager.go, Lsn.Store the checkpoint file of LSNManager and CheckpointManager.performCheckpoint.
--   RoundTrip and Orders hold the theorems on Position.
-- - Checkpoints: the checkpoint managers. Checkpoints.Legacy has the interface CheckpointManager and
--   MigrateFromLegacy (internal/connectors/checkpoint.go), which relies on the law Recreates; Migrations
--   has the theorem on it;
--   Checkpoints.Postgres and Checkpoints.Mysql are its implementations, the latter with the order of
--   Checkpoints.Binlog (checkpoint.go in postgresql and mysql there).
-- - Masking: the masking of fields (internal/transform/masking/masking.go). Masking.Strategies has the
--   strategies and their parameters, Masking.Engine the registered templates and Apply, and
--   Masking.Hiding the theorems on them.
-- - Filter: the filter rules (internal/transform/filter/filter.go). Filter.Values has the values and
--   comparisons, Filter.Rules the evaluation of rules, Check and CompileRules, and Filter.Checks the
--   theorems on them.
-- - Transform: the mapper of fields (internal/transform/field_mapper.go), with the values of Filter.
--   Transform.Paths has setNestedValue and deleteNestedValue, Transform.Mapper Apply and
--   ProcessFieldConfigs; Walks, Deletions, Moves and Defaults hold the theorems on them.
-- - Wal: the decoder of PostgreSQL's changes (internal/connectors/postgresql/wal_parser.go). Wal.Reader
--   has readers of bytes, Wal.Messages the parsers of messages, Wal.Stream createChangeEvent,
--   parseSingleLogicalMessage, processBufferedLogicalMessages and the end of parseXLogData. Wal.Rows
--   writes INSERT messages as PostgreSQL does. Stability and Wholes are on what follows a message,
--   Chunks, Payloads and Places on a stream cut into messages of XLogData, Updates on UPDATE and TRUNCATE.
-- - Sync: the jobs (internal/orchestrator/multi_orchestrator.go). Sync.Job has the pipeline from
--   jobCDCStream.Send through cdcBatchProcessor and flushBatch to commitCheckpoint, and Sync.Flush the
--   lemmas on a flush, with the queue of Dlq; Sync.History runs the pipeline as a step relation, and
--   Sync.Accounts has its invariant. Sync.Initial has needsInitialSync, with the managers of
--   Checkpoints, and Sync.Decision its specification; Sync.Snapshot processSnapshotChunk; Sync.Retry
--   retryDLQItem, the callback of Dlq's retries; Sync.Orphans cleanupOrphanedDLQItems.
-- - Registry: the data sources (internal/connectors/manager.go) and CreateJob, up to the start of the job
--   (internal/orchestrator/multi_orchestrator.go). Registry.Links is on the sources of jobs.
-- - Mongo: the checkpoints of MongoDB (internal/connectors/mongodb/checkpoint.go), in Mongo.Store; Mongo.Saved
--   is on what the file holds.
-- - Common: Boolean tests, lists, Go strings as lists of bytes, Go maps with string keys as association
--   lists, decimal numbers, strings.Split, and integers with the wrap-around of int64.
--
-- Conventions. A method of a pointer receiver takes the state and returns the new one. What the code
-- gets from its surroundings (the clock, the outcome of a write, the rows and answers of a database, the
-- callback of a retry, encoding/json, fmt.Sscanf, hashes, regular expressions, floating point) is an
-- argument. Numbers are natural numbers; where the source computes in int64 or uint64 its wrap-around
-- is written out (Common.Int). Errors are values, whose texts are kept only where the state stores
-- them. A map is iterated in the order in which its association list holds it, where Go leaves the
-- order open.
--
-- Recursion is on the structure of the data but in Lsn.Hex and Common.Decimal, which print a number in
-- at most sixteen and twenty rounds, enough below 2 ^ 64, and in the loop over the chunks of a table,
-- which counts down the chunks that are left. The loop over the buffer of changes takes the number of its
-- bytes as fuel, which is enough since each message has a byte at least (Wal.Chunks).
--
-- Not modelled: the goroutines and channels themselves (the operations are atomic steps, in any order,
-- except where Dlq.Races splits a retry), logging, queries to the databases, HTTP, configuration files,
-- the options of jobs, the older orchestrator, the connectors beside their checkpoints and the decoder
-- of PostgreSQL, and the transform engine beside what is listed above: its rules, the conversions of types and the
-- expressions.
pub mod Common
pub mod Gateway
pub mod Dlq
pub mod Parallel
pub mod Lsn
pub mod Checkpoints
pub mod Masking
pub mod Filter
pub mod Wal
pub mod Sync
pub mod Transform
pub mod Registry
pub mod Mongo
