-- ===== src/Parallel/Batches.antt =====
-- The bulk requests of one chunk: doProcessChunk of internal/parallel/worker.go sends each scanned
-- row once and in order.
use elasticrelay.Common.{
  ◌+◌, ◌≡◌, ◌≢◌, ◌⊎◌, inl, inr, refl, sym, ◌∙◌, Option, none, some, false, List, [], ◌∷◌, ◌++◌,
  append_assoc, append-nil, arith, leb, if◌then◌else◌, Bool-cases, Option-cases, length, Bytes,
  codes,
}
use elasticrelay.Parallel.Task.{ChunkTask}
use elasticrelay.Parallel.Worker.{
  Record, EsDocument, SnapshotWorker, stream, Surroundings, Progress, transform_batch,
  process_batch, flush, take_row, append_row, flush_full, check_context, row_loop, started,
  finish_batch, conclude, do_process_chunk,
}

module _ {Row : Type 0} where
  abbrev pub documents : List (List (EsDocument Row)) → List (EsDocument Row)
  documents [] = []
  documents (b ∷ requests) = b ++ documents requests

  -- The rows that could be scanned.
  abbrev pub scanned : List (Option (Record Row)) → List (Record Row)
  scanned [] = []
  scanned (none ∷ rows) = scanned rows
  scanned (some r ∷ rows) = r ∷ scanned rows

  -- The documents that were sent or wait in the open batch.
  abbrev taken : Progress Row → List (EsDocument Row)
  taken p = documents p.sent ++ transform_batch p.batch

  documents-append :
      (a b : List (List (EsDocument Row))) → documents (a ++ b) ≡ documents a ++ documents b
  documents-append [] b = refl
  documents-append (x ∷ a) b = simp (documents-append a b, append_assoc)

  transform_batch-append :
      (a b : List (Record Row)) → transform_batch (a ++ b) ≡ transform_batch a ++ transform_batch b
  unfolding transform_batch
  transform_batch-append [] b = refl
  transform_batch-append (r ∷ a) b = simp (transform_batch-append a b)

  taken-flush :
      (label : Bytes) (env : Surroundings Row) (chunk : ChunkTask) (p : Progress Row)
      → taken (flush label env chunk p) ≡ taken p
  unfolding flush
  taken-flush label env chunk p =
      elim (Option-cases (process_batch env chunk (length p.sent) p.batch)) [
        | inl sent ↦
            rw (sent, flush) (unfold transform_batch in simp (documents-append, append-nil))
        | inr (e, refused) ↦ rw (refused, flush)
      ]

  processed-flush :
      (label : Bytes) (env : Surroundings Row) (chunk : ChunkTask) (p : Progress Row)
      → (flush label env chunk p).processed ≡ p.processed
  unfolding flush
  processed-flush label env chunk p = ground arith

  -- A step that keeps what was taken and the number of rows.
  Keeps : (Progress Row → Progress Row) → Type 0
  Keeps f = (p : Progress Row) → (taken (f p) ≡ taken p) × ((f p).processed ≡ p.processed)

  flush_full-Keeps : (env : Surroundings Row) (chunk : ChunkTask) → Keeps (flush_full env chunk)
  unfolding flush_full Keeps
  flush_full-Keeps env chunk p = elim (Bool-cases (leb 1000 (length p.batch))) [
    | inl full ↦ rw full (taken-flush _ env chunk p, processed-flush _ env chunk p)
    | inr room ↦ rw room (refl, refl)
  ]

  finish_batch-Keeps : (env : Surroundings Row) (chunk : ChunkTask) → Keeps (finish_batch env chunk)
  unfolding finish_batch Keeps
  finish_batch-Keeps env chunk p = elim (Option-cases p.error) [
    | inr (e, ended) ↦ rw (ended, finish_batch) (refl, refl)
    | inl open_loop ↦
        rw (open_loop, finish_batch)
          (elim (Bool-cases (leb 1 (length p.batch))) [
            | inl full ↦ rw full (taken-flush _ env chunk p, processed-flush _ env chunk p)
            | inr room ↦ rw room (refl, refl)
          ])
  ]

  check_context-Keeps : (env : Surroundings Row) → Keeps (check_context env)
  unfolding check_context Keeps
  check_context-Keeps env p = elim (Option-cases p.error) [
    | inr (e, ended) ↦ rw (ended, check_context) (refl, refl)
    | inl open_loop ↦
        rw (open_loop, check_context)
          (elim (Bool-cases (env.cancelled p.processed)) [
            | inl stop ↦ rw stop (refl, refl)
            | inr more ↦ rw more (refl, refl)
          ])
  ]

  take_row_lem :
      (env : Surroundings Row) (chunk : ChunkTask) (r : Record Row) (p : Progress Row)
      → (taken (take_row env chunk r p) ≡ taken p ++ transform_batch (r ∷ []))
        × ((take_row env chunk r p).processed ≡ p.processed + 1)
  unfolding take_row Keeps
  take_row_lem env chunk r p =
      let p' = append_row r p in
      let (same, count) = flush_full-Keeps env chunk p' in
      let (same', count') = check_context-Keeps env (flush_full env chunk p') in
      let appended : taken p' ≡ taken p ++ transform_batch (r ∷ []) =
        unfold append_row in rw (transform_batch-append, append_assoc) in
      (same' ∙ same ∙ appended, count' ∙ count ∙ (unfold append_row in refl))

  -- What is still to send when the loop stops: all of it is accounted for.
  record Accounts (p p' : Progress Row) (rows : List (Option (Record Row))) : Type 0 where
    rest : List (EsDocument Row)
    whole : taken p' ++ rest ≡ taken p ++ transform_batch (scanned rows)
    done : p'.error ≡ none → (rest ≡ []) × (p'.processed ≡ p.processed + length (scanned rows))

  row_loop-Accounts :
      (env : Surroundings Row) (chunk : ChunkTask) (rows : List (Option (Record Row)))
      (p : Progress Row)
      → Accounts p (row_loop env chunk rows p) rows
  unfolding row_loop transform_batch
  row_loop-Accounts env chunk [] p = record {
    rest = [];
    whole = refl;
    done = λ _. (refl, omega arith);
  }
  row_loop-Accounts env chunk (none ∷ rows) p =
      let h = row_loop-Accounts env chunk rows p in
      record { rest = h.rest; whole = h.whole; done = h.done }
  row_loop-Accounts env chunk (some r ∷ rows) p =
      let p' = take_row env chunk r p in
      let (took, counted) = take_row_lem env chunk r p in
      elim (Option-cases p'.error) [
        | inr (e, ended) ↦
            rw (ended, row_loop)
              (record {
                rest = transform_batch (scanned rows);
                whole = rw took (append_assoc (taken p) _ _);
                done = λ h. absurd (cc (ended, h));
              })
        | inl more ↦
            let h = row_loop-Accounts env chunk rows p' in
            rw (more, row_loop)
              (record {
                rest = h.rest;
                whole = h.whole ∙ (rw took (append_assoc (taken p) _ _));
                done = λ fine. ((h.done fine).0, omega (arith, (h.done fine).1, counted));
              })
      ]

  nil_of_length : (xs : List (Record Row)) → leb 1 (length xs) ≡ false → xs ≡ []
  nil_of_length [] h = refl
  nil_of_length (x ∷ xs) h = absurd (ground (arith, h))

  batch-flush :
      (label : Bytes) (env : Surroundings Row) (chunk : ChunkTask) (p : Progress Row)
      → (flush label env chunk p).error ≡ none
      → (flush label env chunk p).batch ≡ []
  unfolding flush
  batch-flush label env chunk p h =
      elim (Option-cases (process_batch env chunk (length p.sent) p.batch)) [
        | inl sent ↦ rw (sent, flush)
        | inr (e, refused) ↦ absurd (cc (rw (refused, flush) at h))
      ]

  batch-flush_rest :
      (env : Surroundings Row) (chunk : ChunkTask) (p : Progress Row)
      → p.error ≡ none
      → let p' =
          if leb 1 (length p.batch)
          then flush (codes "process final batch failed: ") env chunk p
          else p in
        p'.error ≡ none → p'.batch ≡ []
  batch-flush_rest env chunk p fine h = elim (Bool-cases (leb 1 (length p.batch))) [
    | inr empty ↦ rw empty (nil_of_length p.batch empty)
    | inl full ↦ rw full (batch-flush _ env chunk p (rw full at h))
  ]

  error-finish_batch :
      (env : Surroundings Row) (chunk : ChunkTask) (p : Progress Row)
      → (finish_batch env chunk p).error ≡ none
      → (p.error ≡ none) × ((finish_batch env chunk p).batch ≡ [])
  unfolding finish_batch flush
  error-finish_batch env chunk p h = elim (Option-cases p.error) [
    | inr (e, ended) ↦ absurd (cc (rw (ended, finish_batch) at h, ended))
    | inl fine ↦ (
      fine,
      rw (fine, finish_batch) (batch-flush_rest env chunk p fine (rw (fine, finish_batch) at h)),
    )
  ]

  -- After the last batch nothing waits, unless there was an error.
  record Delivers (p : Progress Row) (rows : List (Option (Record Row))) : Type 0 where
    rest : List (EsDocument Row)
    whole : documents p.sent ++ rest ≡ transform_batch (scanned rows)
    done : p.error ≡ none → (rest ≡ []) × (p.processed ≡ length (scanned rows))

  finish_batch-Accounts :
      (env : Surroundings Row) (chunk : ChunkTask) (rows : List (Option (Record Row)))
      → Delivers (finish_batch env chunk (row_loop env chunk rows started)) rows
  unfolding transform_batch Keeps
  finish_batch-Accounts env chunk rows =
      let p = row_loop env chunk rows started in
      let p' = finish_batch env chunk p in
      let h = row_loop-Accounts env chunk rows started in
      let (same, counted) = finish_batch-Keeps env chunk p in
      record {
        rest = transform_batch p'.batch ++ h.rest;
        whole = sym (append_assoc (documents p'.sent) _ h.rest) ∙ (rw same h.whole);
        done = λ fine.
            let (started_fine, empty) = error-finish_batch env chunk p fine in
            let (nothing, count) = h.done started_fine in
            (rw (empty, nothing), omega (arith, counted, count));
      }

  conclude_sends :
      (w : SnapshotWorker) (chunk : ChunkTask) (rows : List (Option (Record Row)))
      (ended : Option Bytes) (p : Progress Row)
      → Delivers p rows
      → let (sent, chunk', w', error) = conclude p w chunk ended in
        (rest : List (EsDocument Row)) × (documents sent ++ rest ≡ transform_batch (scanned rows))
        × ((error ≢ none)
            ⊎ ((error ≡ none)
                × (rest ≡ [])
                × (chunk'.processed_rows ≡ length (scanned rows))
                × (w'.processed_rows ≡ w.processed_rows + length (scanned rows))
                × (ended ≡ none)))
  unfolding conclude
  conclude_sends w chunk rows ended p h = elim (Option-cases p.error) [
    | inr (e, failed_with) ↦ rw (failed_with, conclude) (h.rest, h.whole, inl (λ fine. cc fine))
    | inl fine ↦
        rw (fine, conclude)
          (
            h.rest,
            h.whole,
            elim (Option-cases ended) [
              | inr (e, late) ↦ inl (λ clean. cc (late, clean))
              | inl clean ↦
                  inr
                    (clean, (h.done fine).0, (h.done fine).1, omega (arith, (h.done fine).1), clean)
            ],
          )
  ]

  -- For each query that gives rows: the documents of the requests that succeeded are the documents of
  -- the scanned rows, in order, up to some point, so none is sent twice. If no error is returned, that
  -- point is the end, and the chunk and the worker count exactly these rows.
  pub do_process_chunk_sends :
      (env : Surroundings Row) (w : SnapshotWorker) (chunk : ChunkTask)
      (rows : List (Option (Record Row))) (ended : Option Bytes)
      → env.query ≡ stream rows ended
      → let (sent, chunk', w', error) = do_process_chunk env w chunk in
        (rest : List (EsDocument Row)) × (documents sent ++ rest ≡ transform_batch (scanned rows))
        × ((error ≢ none)
            ⊎ ((error ≡ none)
                × (rest ≡ [])
                × (chunk'.processed_rows ≡ length (scanned rows))
                × (w'.processed_rows ≡ w.processed_rows + length (scanned rows))
                × (ended ≡ none)))
  unfolding do_process_chunk
  do_process_chunk_sends env w chunk rows ended query =
      rw (query, do_process_chunk)
        (conclude_sends w chunk rows ended
          (finish_batch env chunk (row_loop env chunk rows started))
          (finish_batch-Accounts env chunk rows))
