-- ===== src/Parallel/Progress.antt =====
-- The progress of a snapshot: internal/parallel/progress.go. The maps hold pointers to tasks; here
-- they hold the tasks' values as they are at the time of the query. UpdateChunkProgress, which works on
-- chunks that the worker has changed before through the same pointer, is left out. The percentages, speeds and times of GetOverallProgress, which are
-- floats, are left out. Counters are int64 in Go, and natural numbers here.
use elasticrelay.Common.{
  ℕ, ◌+◌, Option, none, some, Bool, true, false, ◌&&◌, List, [], ◌∷◌, ltb, ◌==◌, if◌then◌else◌,
  Bytes, str_eq, Dict, lookup, insert,
}
use elasticrelay.Common.{select}
use elasticrelay.Common.Int.{ℤ, pos, ◌+ℤ◌, wrap64}
use elasticrelay.Parallel.Task.{ChunkStatus, ChunkTask, TableTask}

pub record ProgressManager : Type 0 where
  pub table_tasks : Dict TableTask
  pub chunk_tasks : Dict ChunkTask
  pub completed_chunks : ℕ
  pub total_chunks : ℕ
  pub total_rows : ℤ
  pub processed_rows : ℕ

-- NewProgressManager, and what Reset leaves.
abbrev pub new_progress_manager : ProgressManager
new_progress_manager = record {
  table_tasks = [];
  chunk_tasks = [];
  completed_chunks = 0;
  total_chunks = 0;
  total_rows = pos 0;
  processed_rows = 0;
}

-- RegisterTableTask
unfoldable pub register_table_task : TableTask → ProgressManager → ProgressManager
register_table_task task pm = record pm {
  table_tasks = insert task.table_name task pm.table_tasks;
  total_rows = wrap64 (pm.total_rows +ℤ task.total_rows);
}

-- RegisterChunkTask
unfoldable pub register_chunk_task : ChunkTask → ProgressManager → ProgressManager
register_chunk_task chunk pm = record pm {
  chunk_tasks = insert chunk.id chunk pm.chunk_tasks;
  total_chunks = pm.total_chunks + 1;
}

abbrev pub is_completed_status : ChunkStatus → Bool
is_completed_status ChunkStatus.completed = true
is_completed_status _ = false

abbrev pub chunks_of : Dict ChunkTask → List ChunkTask
chunks_of [] = []
chunks_of ((id, chunk) ∷ rest) = chunk ∷ chunks_of rest

-- The counts of one table in GetTableProgress: all chunks, completed chunks, and their rows.
pub record TableProgress : Type 0 where
  pub total : ℕ
  pub completed_count : ℕ
  pub row_count : ℕ

-- The loop of GetTableProgress over the chunks.
unfoldable pub count_table : Bytes → List ChunkTask → TableProgress
count_table table [] = record { total = 0; completed_count = 0; row_count = 0 }
count_table table (chunk ∷ chunks) =
    let rest = count_table table chunks in
    if str_eq chunk.table_task.table_name table
    then (if is_completed_status chunk.status
        then record {
          total = rest.total + 1;
          completed_count = rest.completed_count + 1;
          row_count = rest.row_count + chunk.processed_rows;
        }
        else record rest { total = rest.total + 1 })
    else rest

-- GetTableProgress
unfoldable pub get_table_progress : Bytes → ProgressManager → Option TableProgress
get_table_progress table pm = elim (lookup table pm.table_tasks) [
  | none ↦ none
  | some task ↦ some (count_table table (chunks_of pm.chunk_tasks))
]

abbrev pub is_failed : ChunkTask → Bool
is_failed chunk = elim chunk.status [ ChunkStatus.failed ↦ true | _ ↦ false ]

abbrev pub is_retrying : ChunkTask → Bool
is_retrying chunk = elim chunk.status [ ChunkStatus.retrying ↦ true | _ ↦ false ]

-- GetFailedChunks
unfoldable pub get_failed_chunks : ProgressManager → List ChunkTask
get_failed_chunks pm = select is_failed (chunks_of pm.chunk_tasks)

-- GetRetryingChunks
unfoldable pub get_retrying_chunks : ProgressManager → List ChunkTask
get_retrying_chunks pm = select is_retrying (chunks_of pm.chunk_tasks)

-- IsCompleted
unfoldable pub is_completed : ProgressManager → Bool
is_completed pm = (pm.completed_chunks == pm.total_chunks) && ltb 0 pm.total_chunks
