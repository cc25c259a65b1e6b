-- ===== src/Parallel/Tests.antt =====
-- Runs of the parallel snapshot on small inputs, and its theorems at concrete inputs.
use elasticrelay.Common.{
  ℕ, ◌+◌, ◌≤◌, ◌<◌, ◌≡◌, ◌≢◌, ◌↔◌, ◌⊎◌, refl, Option, none, some, true, false, List, [], ◌∷◌, ◌++◌,
  map, arith, if◌then◌else◌, length, Bytes, codes,
}
use elasticrelay.Common.Int.{ℤ, pos, ◌+ℤ◌, ◌-ℤ◌, scale, quot, wrap64}
use elasticrelay.Parallel.Task.{TableTask, ChunkTask, ChunkStatus, TaskStatus}
use elasticrelay.Parallel.Chunks.{
  Outcome, ok, panic, rows, range, Answers, get_id_range, new_chunk, bound, chunk_at, chunk_loop,
  range_size, count_chunks, cut_range, chunks_of_range, create_id_based_chunks,
}
use elasticrelay.Parallel.Worker.{
  Record, EsDocument, SnapshotWorker, query_failed, stream, Surroundings, transform_batch,
  do_process_chunk, settle, process_chunk, conclude, finish_batch, row_loop, take_row, append_row,
  flush_full, check_context, flush, process_batch,
}
use elasticrelay.Parallel.Task.{default_snapshot_config}
use elasticrelay.Parallel.Cover.{Covers, create_id_based_chunks-Covers}
use elasticrelay.Parallel.Batches.{documents, scanned, do_process_chunk_sends}
use elasticrelay.Parallel.Retries.{run_error, process_chunk_outcome, Requeued}

abbrev answers : Answers
answers = record {
  columns = some (
      some (record {
        column_name = codes "id";
        column_key = codes "PRI";
        extra = codes "auto_increment";
      })
      ∷ []);
  table_rows = rows (pos 250000);
  counted_rows = none;
  id_range = range (pos 1) (pos 25);
}

abbrev task : TableTask
task = record {
  job_id = codes "job";
  table_name = codes "orders";
  primary_key_column = codes "id";
  total_rows = pos 25;
  chunk_size = 10;
  priority = 100;
  status = TaskStatus.running;
  error_msg = [];
}

edges : Outcome (List ChunkTask) → List (ℤ × ℤ)
edges (ok chunks) = map (λ (c : ChunkTask). (c.start_id, c.end_id)) chunks
edges _ = []

two_chunks :
    edges (create_id_based_chunks default_snapshot_config task answers)
    ≡ (pos 1, pos 13) ∷ (pos 13, pos 26) ∷ []
unfolding edges create_id_based_chunks get_id_range chunks_of_range range_size count_chunks
    cut_range chunk_loop chunk_at bound new_chunk scale quot wrap64 ◌+ℤ◌ ◌-ℤ◌
two_chunks = refl

no_chunk_size :
    create_id_based_chunks default_snapshot_config (record task { chunk_size = 0 }) answers ≡ panic
unfolding create_id_based_chunks get_id_range chunks_of_range
no_chunk_size = refl

create_id_based_chunks-Covers_example :
    (chunks : List ChunkTask) × (create_id_based_chunks default_snapshot_config task answers
      ≡ ok chunks)
    × (0 < length chunks)
    × (length chunks ≤ 8)
    × Covers (pos 1) (pos 25) chunks
unfolding ◌+ℤ◌ ◌-ℤ◌
create_id_based_chunks-Covers_example =
    create_id_based_chunks-Covers default_snapshot_config task answers (pos 1) (pos 25) refl
      (omega arith) (omega arith) (omega arith) (omega arith) (omega arith) (omega arith)

abbrev chunk : ChunkTask
chunk = record {
  id = codes "orders_chunk_0";
  table_task = task;
  chunk_id = 0;
  start_id = pos 1;
  end_id = pos 13;
  use_full_table_scan = false;
  retry_count = 0;
  status = ChunkStatus.pending;
  worker_id = 0;
  processed_rows = 0;
  error_msg = [];
}

abbrev worker : SnapshotWorker
worker = record { id = 1; processed_chunks = 0; processed_rows = 0; error_count = 0 }

abbrev row_of : ℕ → Option (Record ℕ)
row_of n = some (record { id = n ∷ []; table_name = codes "orders"; row = n })

abbrev sample_rows : List (Option (Record ℕ))
sample_rows = row_of 1 ∷ none ∷ row_of 2 ∷ []

abbrev good : Surroundings ℕ
good = record {
  query = stream sample_rows none;
  bulk_index = λ n index docs. none;
  cancelled = λ n. false;
}

abbrev down : Surroundings ℕ
down = record good { query = query_failed }

sent_rows : (do_process_chunk good worker chunk).1.processed_rows ≡ 2
unfolding do_process_chunk row_loop take_row append_row flush_full check_context finish_batch flush
    process_batch conclude
sent_rows = refl

do_process_chunk_sends_example :
    let (sent, chunk', w', error) = do_process_chunk good worker chunk in
    (rest : List (EsDocument ℕ)) × (documents sent ++ rest ≡ transform_batch (scanned sample_rows))
    × ((error ≢ none)
        ⊎ ((error ≡ none)
            × (rest ≡ [])
            × (chunk'.processed_rows ≡ 2)
            × (w'.processed_rows ≡ 0 + 2)
            × (◌≡◌ {A = Option Bytes} none none)))
do_process_chunk_sends_example = do_process_chunk_sends good worker chunk sample_rows none refl

process_chunk_outcome_example :
    let (chunk', w', again) = process_chunk down worker chunk in
    ((chunk'.status ≡ ChunkStatus.completed) ↔ (run_error down worker chunk ≡ none))
    × ((chunk'.status ≡ ChunkStatus.retrying) ↔ ((run_error down worker chunk ≢ none) × (0 < 3)))
    × ((chunk'.status ≡ ChunkStatus.failed) ↔ ((run_error down worker chunk ≢ none) × (3 ≤ 0)))
    × ((again ≡ true) ↔ (chunk'.status ≡ ChunkStatus.retrying))
    × (chunk'.retry_count ≡ (if again then 0 + 1 else 0))
    × (chunk'.id ≡ chunk.id)
process_chunk_outcome_example = process_chunk_outcome down worker chunk

-- Three runs against a database that is down.
abbrev three_runs : List (Surroundings ℕ × SnapshotWorker)
three_runs = (down, worker) ∷ (down, worker) ∷ (down, worker) ∷ []

three_runs-Requeued : Requeued chunk three_runs
unfolding process_chunk do_process_chunk settle
three_runs-Requeued = (refl, (refl, (refl, tt)))
