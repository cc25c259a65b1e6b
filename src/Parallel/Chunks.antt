-- ===== src/Parallel/Chunks.antt =====
-- How a table is cut into chunks: internal/parallel/manager.go. What the database answers is an
-- argument: the rows of each query, or its failure.
use elasticrelay.Common.{
  ℕ, zero, suc, ◌+◌, Option, none, some, Bool, true, false, List, [], ◌∷◌, ◌++◌, ltb, ◌==◌,
  if◌then◌else◌, Bytes, codes, str_eq,
}
use elasticrelay.Common.Int.{ℤ, pos, negsuc, ◌+ℤ◌, ◌-ℤ◌, scale, quot, ltb_ℤ, eqb_ℤ, wrap64}
use elasticrelay.Common.Decimal
use elasticrelay.Parallel.Task.{
  SnapshotConfig, TableTask, ChunkTask, ChunkStatus, TaskStatus, IndexInfo,
}

-- A Go result with an error, or a panic.
pub data Outcome {ℓ} (A : Type ℓ) : Type ℓ where
  ok : A → Outcome A
  err : Bytes → Outcome A
  panic : Outcome A

infixl 5 ◌>>=◌
abbrev pub ◌>>=◌ {ℓ κ} : {A : Type ℓ} {B : Type κ} → Outcome A → (A → Outcome B) → Outcome B
ok a >>= f = f a
err e >>= f = err e
panic >>= f = panic

-- One row of information_schema.COLUMNS; a row that cannot be scanned is skipped.
pub record Column : Type 0 where
  pub column_name : Bytes
  pub column_key : Bytes
  pub extra : Bytes

-- The answer to SELECT TABLE_ROWS: an error, NULL, or a number.
pub data RowsAnswer : Type 0 where
  rows_error rows_null : RowsAnswer
  rows : ℤ → RowsAnswer

-- The answer to SELECT MIN, MAX: an error, a NULL on either side, or two numbers.
pub data RangeAnswer : Type 0 where
  range_error range_null : RangeAnswer
  range : ℤ → ℤ → RangeAnswer

pub record Answers : Type 0 where
  pub columns : Option (List (Option Column))
  pub table_rows : RowsAnswer
  pub counted_rows : Option ℤ
  pub id_range : RangeAnswer

-- min
unfoldable pub min_int : ℕ → ℕ → ℕ
min_int a b = if ltb a b then a else b

-- estimateTableRows
unfoldable pub estimate_table_rows : Answers → Outcome ℤ
estimate_table_rows db = elim db.table_rows [
  | rows_error ↦ elim db.counted_rows [ none ↦ err (codes "failed to count rows") | some n ↦ ok n ]
  | rows_null ↦ ok (pos 0)
  | rows n ↦ ok n
]

-- calculatePriority
unfoldable pub calculate_priority : ℤ → ℕ
calculate_priority total_rows =
    if ltb_ℤ total_rows (pos 10000)
    then 100
    else if ltb_ℤ total_rows (pos 100000)
    then 80
    else if ltb_ℤ total_rows (pos 1000000)
    then 60
    else if ltb_ℤ total_rows (pos 10000000)
    then 40
    else 20

-- optimizeChunkSize
unfoldable pub optimize_chunk_size : SnapshotConfig → ℤ → ℕ
unfolding min_int
optimize_chunk_size config total_rows =
    if ltb_ℤ total_rows (pos 10000)
    then min_int config.chunk_size 1000
    else if ltb_ℤ total_rows (pos 100000)
    then min_int config.chunk_size 5000
    else if ltb_ℤ total_rows (pos 1000000)
    then min_int config.chunk_size 10000
    else config.chunk_size

abbrev pub rows_or_zero : Outcome ℤ → ℤ
rows_or_zero (ok n) = n
rows_or_zero _ = pos 0

-- createTableTask: an estimate that fails counts as no rows.
unfoldable pub create_table_task : SnapshotConfig → Bytes → Bytes → Answers → TableTask
create_table_task config job_id table_name db =
    let total_rows = rows_or_zero (estimate_table_rows db) in
    record {
      job_id = job_id;
      table_name = table_name;
      primary_key_column = [];
      total_rows = total_rows;
      chunk_size = optimize_chunk_size config total_rows;
      priority = calculate_priority total_rows;
      status = TaskStatus.pending;
      error_msg = [];
    }

abbrev pub no_index : IndexInfo
no_index = record { has_auto_increment_pk = false; primary_key_column = [] }

-- The loop of analyzeTableIndexes: it stops at the first primary key column.
unfoldable pub first_key : List (Option Column) → IndexInfo
first_key [] = no_index
first_key (none ∷ columns) = first_key columns
first_key (some c ∷ columns) =
    let rest = first_key columns in
    if str_eq c.column_key (codes "PRI")
    then record {
      has_auto_increment_pk = str_eq c.extra (codes "auto_increment");
      primary_key_column = c.column_name;
    }
    else rest

-- analyzeTableIndexes
unfoldable pub analyze_table_indexes : Answers → Outcome IndexInfo
unfolding first_key
analyze_table_indexes db = elim db.columns [
  | none ↦ err (codes "failed to query table info")
  | some columns ↦ ok (first_key columns)
]

-- getIDRange: an empty table has the range (0, 0).
unfoldable pub get_id_range : Answers → Outcome (ℤ × ℤ)
get_id_range db = elim db.id_range [
  | range_error ↦ err (codes "failed to get ID range")
  | range_null ↦ ok (pos 0, pos 0)
  | range low high ↦ ok (low, high)
]

unfoldable pub chunk_name : TableTask → ℕ → Bytes
chunk_name task i = task.table_name ++ (codes "_chunk_" ++ Decimal.format i)

unfoldable pub new_chunk : TableTask → ℕ → ℤ → ℤ → Bool → ChunkTask
new_chunk task i start_id end_id full = record {
  id = chunk_name task i;
  table_task = task;
  chunk_id = i;
  start_id = start_id;
  end_id = end_id;
  use_full_table_scan = full;
  retry_count = 0;
  status = ChunkStatus.pending;
  worker_id = 0;
  processed_rows = 0;
  error_msg = [];
}

-- createFullTableChunk
unfoldable pub create_full_table_chunk : TableTask → List ChunkTask
create_full_table_chunk task = new_chunk task 0 (pos 0) (pos 0) true ∷ []

-- minID + int64(i)*step
unfoldable pub bound : ℤ → ℤ → ℕ → ℤ
bound min_id step i = wrap64 (min_id +ℤ wrap64 (scale i step))

-- The body of the loop of createIDBasedChunks, in round i of chunk_count.
unfoldable pub chunk_at : TableTask → ℤ → ℤ → ℤ → ℕ → ℕ → ChunkTask
chunk_at task min_id max_id step chunk_count i =
    new_chunk task i (bound min_id step i)
      (if i + 1 == chunk_count then wrap64 (max_id +ℤ pos 1) else bound min_id step (i + 1)) false

-- The rounds from i on, `left` of them.
unfoldable pub chunk_loop : TableTask → ℤ → ℤ → ℤ → ℕ → ℕ → ℕ → List ChunkTask
chunk_loop task min_id max_id step chunk_count zero i = []
chunk_loop task min_id max_id step chunk_count (suc left) i =
    chunk_at task min_id max_id step chunk_count i
    ∷ chunk_loop task min_id max_id step chunk_count left (i + 1)

-- maxID - minID + 1
unfoldable pub range_size : ℤ → ℤ → ℤ
range_size min_id max_id = wrap64 (wrap64 (max_id -ℤ min_id) +ℤ pos 1)

-- chunkCount, before the division by it.
unfoldable pub count_chunks : SnapshotConfig → TableTask → ℤ → ℤ
count_chunks config task total_range =
    let quotient = quot total_range task.chunk_size in
    let positive = if eqb_ℤ quotient (pos 0) then pos 1 else quotient in
    if ltb_ℤ (pos config.max_concurrent_chunks) positive
    then pos config.max_concurrent_chunks
    else positive

-- The division by chunkCount and the loop. A negative count makes no round.
unfoldable pub cut_range : TableTask → ℤ → ℤ → ℤ → ℤ → Outcome (List ChunkTask)
cut_range task min_id max_id total_range (pos zero) = panic
cut_range task min_id max_id total_range (pos (suc n)) =
    ok (chunk_loop task min_id max_id (quot total_range (suc n)) (suc n) (suc n) 0)
cut_range task min_id max_id total_range (negsuc n) = ok []

unfoldable pub chunks_of_range : SnapshotConfig → TableTask → ℤ → ℤ → Outcome (List ChunkTask)
chunks_of_range config task min_id max_id =
    if eqb_ℤ min_id max_id
    then ok (new_chunk task 0 min_id (wrap64 (max_id +ℤ pos 1)) false ∷ [])
    else if task.chunk_size == 0
    then panic
    else let total_range = range_size min_id max_id in
      cut_range task min_id max_id total_range (count_chunks config task total_range)

-- createIDBasedChunks
unfoldable pub create_id_based_chunks :
    SnapshotConfig → TableTask → Answers → Outcome (List ChunkTask)
create_id_based_chunks config task db = do
  (low, high) ← get_id_range db
  chunks_of_range config task low high

-- createTableChunks, with the task whose key column it has set.
unfoldable pub create_table_chunks :
    SnapshotConfig → TableTask → Answers → TableTask × Outcome (List ChunkTask)
create_table_chunks config task db = elim (analyze_table_indexes db) [
  | err e ↦ (task, err e)
  | panic ↦ (task, panic)
  | ok info ↦
      if str_eq info.primary_key_column []
      then (task, err (task.table_name ++ codes " has no primary key"))
      else let keyed = record task { primary_key_column = info.primary_key_column } in
        (
          keyed,
          if info.has_auto_increment_pk
              then create_id_based_chunks config keyed db
              else ok (create_full_table_chunk keyed),
        )
]
