-- ===== src/Parallel/Worker.antt =====
-- The snapshot worker: internal/parallel/worker.go. The database's rows, the client of Elasticsearch
-- and the cancellation of the context are arguments.
use elasticrelay.Common.{
  ℕ, ◌+◌, Option, none, some, Bool, true, false, List, [], ◌∷◌, ◌++◌, leb, ltb, if◌then◌else◌,
  length, Bytes, codes,
}
use elasticrelay.Parallel.Task.{ChunkTask, running, completed, failed, retrying}

-- Record, over the type of the driver's rows; the time of reading is left out.
pub record Record (Row : Type 0) : Type 0 where
  pub id : Bytes
  pub table_name : Bytes
  pub row : Row

-- ESDocument
pub record EsDocument (Row : Type 0) : Type 0 where
  pub id : Bytes
  pub source : Row

-- A worker and its counters.
pub record SnapshotWorker : Type 0 where
  pub id : ℕ
  pub processed_chunks : ℕ
  pub processed_rows : ℕ
  pub error_count : ℕ

-- What the query for a chunk gives: it fails, or it gives rows, each of which can be scanned or not,
-- and an error at the end or none.
pub data Query (Row : Type 0) : Type 0 where
  query_failed columns_failed : Query Row
  stream : List (Option (Record Row)) → Option Bytes → Query Row

-- What surrounds one run: whether the n-th bulk request succeeds, and whether the context is
-- cancelled after the n-th scanned row.
pub record Surroundings (Row : Type 0) : Type 0 where
  pub query : Query Row
  pub bulk_index : ℕ → Bytes → List (EsDocument Row) → Option Bytes
  pub cancelled : ℕ → Bool

-- The state of the loop of doProcessChunk: the requests that succeeded, the open batch, the number of
-- rows, and the error that ended the loop.
pub record Progress (Row : Type 0) : Type 0 where
  pub sent : List (List (EsDocument Row))
  pub batch : List (Record Row)
  pub processed : ℕ
  pub error : Option Bytes

module _ {Row : Type 0} where
  -- TransformBatch
  unfoldable pub transform_batch : List (Record Row) → List (EsDocument Row)
  transform_batch [] = []
  transform_batch (r ∷ records) = record { id = r.id; source = r.row } ∷ transform_batch records

  -- processBatch: the error of the bulk request, if any.
  unfoldable pub process_batch : Surroundings Row → ChunkTask → ℕ → List (Record Row) → Option Bytes
  process_batch env chunk n batch =
      env.bulk_index n (codes "elasticrelay-" ++ chunk.table_task.table_name)
        (transform_batch batch)

  -- The batch is sent, and a new one is begun; an error gets the label of the call.
  unfoldable pub flush : Bytes → Surroundings Row → ChunkTask → Progress Row → Progress Row
  flush label env chunk p = elim (process_batch env chunk (length p.sent) p.batch) [
    | some e ↦ record p { error = some (label ++ (codes "bulk index failed: " ++ e)) }
    | none ↦ record p { sent = p.sent ++ transform_batch p.batch ∷ []; batch = [] }
  ]

  unfoldable pub append_row : Record Row → Progress Row → Progress Row
  append_row r p = record p { batch = p.batch ++ r ∷ []; processed = p.processed + 1 }

  unfoldable pub flush_full : Surroundings Row → ChunkTask → Progress Row → Progress Row
  flush_full env chunk p =
      if leb 1000 (length p.batch) then flush (codes "process batch failed: ") env chunk p else p

  -- The check of the context, which an error of the flush comes before.
  unfoldable pub check_context : Surroundings Row → Progress Row → Progress Row
  check_context env p = elim p.error [
    | some e ↦ p
    | none ↦
        if env.cancelled p.processed
        then record p { error = some (codes "context canceled") }
        else p
  ]

  -- The body of the loop for a scanned row.
  unfoldable pub take_row : Surroundings Row → ChunkTask → Record Row → Progress Row → Progress Row
  take_row env chunk r p = check_context env (flush_full env chunk (append_row r p))

  -- The loop over the rows: a row that cannot be scanned is skipped, and an error ends the loop.
  unfoldable pub row_loop :
      Surroundings Row → ChunkTask → List (Option (Record Row)) → Progress Row → Progress Row
  row_loop env chunk [] p = p
  row_loop env chunk (none ∷ rows) p = row_loop env chunk rows p
  row_loop env chunk (some r ∷ rows) p =
      let p' = take_row env chunk r p in
      let rest = row_loop env chunk rows p' in elim p'.error [ some e ↦ p' | none ↦ rest ]

  abbrev pub started : Progress Row
  started = record { sent = []; batch = []; processed = 0; error = none }

  -- The last batch, if a row is left in it.
  unfoldable pub finish_batch : Surroundings Row → ChunkTask → Progress Row → Progress Row
  finish_batch env chunk p = elim p.error [
    | some e ↦ p
    | none ↦
        if leb 1 (length p.batch)
        then flush (codes "process final batch failed: ") env chunk p
        else p
  ]

  -- The end of doProcessChunk: the requests that succeeded, the chunk and the worker with their
  -- counts, and the error.
  unfoldable pub conclude :
      Progress Row
      → SnapshotWorker
      → ChunkTask
      → Option Bytes
      → List (List (EsDocument Row)) × ChunkTask × SnapshotWorker × Option Bytes
  conclude p w chunk ended = elim p.error [
    | some e ↦ (p.sent, chunk, w, some e)
    | none ↦ (
      p.sent,
      record chunk { processed_rows = p.processed },
      record w { processed_rows = w.processed_rows + p.processed },
      ended,
    )
  ]

  -- doProcessChunk
  unfoldable pub do_process_chunk :
      Surroundings Row
      → SnapshotWorker
      → ChunkTask
      → List (List (EsDocument Row)) × ChunkTask × SnapshotWorker × Option Bytes
  do_process_chunk env w chunk = elim env.query [
    | query_failed ↦ ([], chunk, w, some (codes "query failed"))
    | columns_failed ↦ ([], chunk, w, some (codes "get columns failed"))
    | stream rows ended ↦
        conclude (finish_batch env chunk (row_loop env chunk rows started)) w chunk ended
  ]

-- handleChunkError: the chunk, and whether it is to be queued again after the delay.
unfoldable pub handle_chunk_error : Bytes → ChunkTask → ChunkTask × Bool
handle_chunk_error error chunk =
    if ltb chunk.retry_count 3
    then (
      record chunk { error_msg = error; retry_count = chunk.retry_count + 1; status = retrying },
      true,
    )
    else (record chunk { error_msg = error; status = failed }, false)

-- updateChunkStatus, for the status that processChunk sets.
unfoldable pub start_chunk : SnapshotWorker → ChunkTask → ChunkTask
start_chunk w chunk = record chunk { status = running; worker_id = w.id }

-- The end of processChunk: the chunk, the worker, and whether the chunk is to be queued again.
unfoldable pub settle :
    ChunkTask → SnapshotWorker → Option Bytes → ChunkTask × SnapshotWorker × Bool
unfolding handle_chunk_error
settle chunk w none = (
  record chunk { status = completed },
  record w { processed_chunks = w.processed_chunks + 1 },
  false,
)
settle chunk w (some e) =
    let (chunk', again) = handle_chunk_error e chunk in
    (chunk', record w { error_count = w.error_count + 1 }, again)

-- processChunk. UpdateChunkProgress is called exactly when the chunk comes out completed.
unfoldable pub process_chunk :
    {Row : Type 0}
    → Surroundings Row
    → SnapshotWorker
    → ChunkTask
    → ChunkTask × SnapshotWorker × Bool
unfolding start_chunk
process_chunk env w chunk =
    let (sent, chunk', w', error) = do_process_chunk env w (start_chunk w chunk) in
    settle chunk' w' error

-- The resend of the retry goroutine: a full queue drops the chunk.
unfoldable pub requeue : ℕ → ChunkTask → List ChunkTask → List ChunkTask
requeue capacity chunk queue = if ltb (length queue) capacity then queue ++ chunk ∷ [] else queue
