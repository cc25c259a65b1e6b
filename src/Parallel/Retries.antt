-- ===== src/Parallel/Retries.antt =====
-- How often a chunk is tried, and how it ends: processChunk and handleChunkError of
-- internal/parallel/worker.go.
use elasticrelay.Common.{
  ◌+◌, ◌≤◌, ◌<◌, ◌≡◌, ◌≢◌, ◌↔◌, ◌⊎◌, inl, inr, refl, ◌∙◌, Option, none, some, Bool, true, List, [],
  ◌∷◌, arith, if◌then◌else◌, Option-cases, length, Bytes,
}
use elasticrelay.Parallel.Task.{ChunkTask, completed, failed, retrying}
use elasticrelay.Parallel.Worker.{
  Record, SnapshotWorker, Query, query_failed, columns_failed, stream, Surroundings, Progress,
  conclude, do_process_chunk, start_chunk, settle, process_chunk,
}

-- What `settle` does to a chunk, by the error and the retries counted before.
record Settled (before after : ChunkTask) (error : Option Bytes) (again : Bool) : Type 0 where
  fine : (after.status ≡ completed) ↔ (error ≡ none)
  retried : (after.status ≡ retrying) ↔ ((error ≢ none) × (before.retry_count < 3))
  spent : (after.status ≡ failed) ↔ ((error ≢ none) × (3 ≤ before.retry_count))
  asked : (again ≡ true) ↔ (after.status ≡ retrying)
  counted : after.retry_count ≡ (if again then before.retry_count + 1 else before.retry_count)
  same : after.id ≡ before.id

settle-Settled :
    (chunk : ChunkTask) (w : SnapshotWorker) (error : Option Bytes)
    → Settled chunk (settle chunk w error).0 error (settle chunk w error).2
unfolding settle
settle-Settled chunk w none = ground arith
settle-Settled chunk w (some e) = ground arith

module _ {Row : Type 0} where
  chunk-conclude :
      (p : Progress Row) (w : SnapshotWorker) (chunk : ChunkTask) (ended : Option Bytes)
      → ((conclude p w chunk ended).1.retry_count ≡ chunk.retry_count)
        × ((conclude p w chunk ended).1.id ≡ chunk.id)
  unfolding conclude
  chunk-conclude p w chunk ended = elim (Option-cases p.error) [
    | inl fine ↦ rw (fine, conclude) (refl, refl)
    | inr (e, bad) ↦ rw (bad, conclude) (refl, refl)
  ]

  Query-cases :
      (q : Query Row)
      → ((q ≡ query_failed) ⊎ (q ≡ columns_failed))
        ⊎ ((rows : List (Option (Record Row))) × (ended : Option Bytes) × (q ≡ stream rows ended))
  Query-cases query_failed = inl (inl refl)
  Query-cases columns_failed = inl (inr refl)
  Query-cases (stream rows ended) = inr (rows, ended, refl)

  chunk-do_process_chunk :
      (env : Surroundings Row) (w : SnapshotWorker) (chunk : ChunkTask)
      → ((do_process_chunk env w chunk).1.retry_count ≡ chunk.retry_count)
        × ((do_process_chunk env w chunk).1.id ≡ chunk.id)
  unfolding do_process_chunk
  chunk-do_process_chunk env w chunk = elim (Query-cases env.query) [
    | inl (inl e) ↦ rw (e, do_process_chunk) (refl, refl)
    | inl (inr e) ↦ rw (e, do_process_chunk) (refl, refl)
    | inr (rows, ended, e) ↦ rw (e, do_process_chunk) (chunk-conclude _ w chunk ended)
  ]

  -- The error of a run of the chunk.
  abbrev pub run_error : Surroundings Row → SnapshotWorker → ChunkTask → Option Bytes
  run_error env w chunk = (do_process_chunk env w (start_chunk w chunk)).3

  -- A run completes the chunk exactly when it has no error. With an error the chunk is to be queued
  -- again, with one more retry counted, if fewer than three retries were counted, and has failed for
  -- good if not; it is queued again in no other case.
  pub process_chunk_outcome :
      (env : Surroundings Row) (w : SnapshotWorker) (chunk : ChunkTask)
      → let (chunk', w', again) = process_chunk env w chunk in
        ((chunk'.status ≡ completed) ↔ (run_error env w chunk ≡ none))
        × ((chunk'.status ≡ retrying) ↔ ((run_error env w chunk ≢ none) × (chunk.retry_count < 3)))
        × ((chunk'.status ≡ failed) ↔ ((run_error env w chunk ≢ none) × (3 ≤ chunk.retry_count)))
        × ((again ≡ true) ↔ (chunk'.status ≡ retrying))
        × (chunk'.retry_count ≡ (if again then chunk.retry_count + 1 else chunk.retry_count))
        × (chunk'.id ≡ chunk.id)
  unfolding process_chunk
  process_chunk_outcome env w chunk =
      let (sent, chunk', w', error) = do_process_chunk env w (start_chunk w chunk) in
      let (count, name) = chunk-do_process_chunk env w (start_chunk w chunk) in
      let s = settle-Settled chunk' w' error in
      let count' : chunk'.retry_count ≡ chunk.retry_count = count in
      (
        s.fine,
        rw count' at s.retried,
        rw count' at s.spent,
        s.asked,
        rw count' at s.counted,
        s.same ∙ name,
      )

  -- Successive runs of a chunk, each of which queues it again.
  abbrev pub Requeued : ChunkTask → List (Surroundings Row × SnapshotWorker) → Type 0
  Requeued chunk [] = Unit
  Requeued chunk ((env, w) ∷ runs) =
      ((process_chunk env w chunk).2 ≡ true) × Requeued (process_chunk env w chunk).0 runs

  -- A chunk with no retry counted is queued again at most three times, whatever the database, the
  -- bulk requests and the workers do; so it is run at most four times.
  pub Requeued-length :
      (chunk : ChunkTask) (runs : List (Surroundings Row × SnapshotWorker))
      → Requeued chunk runs
      → chunk.retry_count ≤ 3
      → chunk.retry_count + length runs ≤ 3
  Requeued-length chunk [] h le = omega arith
  Requeued-length chunk ((env, w) ∷ runs) (again, h) le =
      let (_, retried, _, asked, counted, _) = process_chunk_outcome env w chunk in
      let few : chunk.retry_count < 3 = (retried.0 (asked.0 again)).1 in
      ground (arith, Requeued-length (process_chunk env w chunk).0 runs h, counted, again, few)
