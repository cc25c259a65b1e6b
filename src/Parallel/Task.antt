-- ===== src/Parallel/Task.antt =====
-- The tasks of a parallel snapshot: internal/parallel/types.go. Times of creation, start and end are
-- left out, since no decision reads them; so are Dependencies, which nothing reads or writes.
use elasticrelay.Common.{ℕ, Bool, Bytes}
use elasticrelay.Common.Int.{ℤ}

-- TaskStatus
pub data TaskStatus : Type 0 where
  pending running completed failed cancelled : TaskStatus

-- ChunkStatus
pub data ChunkStatus : Type 0 where
  pending running completed failed retrying : ChunkStatus

-- The sizes are Go ints; negative ones are not modelled.
pub record SnapshotConfig : Type 0 where
  pub max_concurrent_tables : ℕ
  pub max_concurrent_chunks : ℕ
  pub chunk_size : ℕ
  pub worker_pool_size : ℕ

-- DefaultSnapshotConfig
abbrev pub default_snapshot_config : SnapshotConfig
default_snapshot_config = record {
  max_concurrent_tables = 3;
  max_concurrent_chunks = 8;
  chunk_size = 100000;
  worker_pool_size = 12;
}

pub record TableTask : Type 0 where
  pub job_id : Bytes
  pub table_name : Bytes
  pub primary_key_column : Bytes
  pub total_rows : ℤ
  pub chunk_size : ℕ
  pub priority : ℕ
  pub status : TaskStatus
  pub error_msg : Bytes

-- The pointer TableTask is read only for the table's name and key column, which do not change once
-- chunks exist; a copy of the task stands for it.
pub record ChunkTask : Type 0 where
  pub id : Bytes
  pub table_task : TableTask
  pub chunk_id : ℕ
  pub start_id : ℤ
  pub end_id : ℤ
  pub use_full_table_scan : Bool
  pub retry_count : ℕ
  pub status : ChunkStatus
  pub worker_id : ℕ
  pub processed_rows : ℕ
  pub error_msg : Bytes

pub record IndexInfo : Type 0 where
  pub has_auto_increment_pk : Bool
  pub primary_key_column : Bytes
