-- ===== src/Sync/Snapshot.antt =====
-- The chunks of a snapshot as a job sends them on: processSnapshotChunk and extractSnapshotPrimaryKey
-- of internal/orchestrator/multi_orchestrator.go. JSON, the text of a value and the clock are
-- parameters; a panic, of a record that is JSON's null, is `none`.
use elasticrelay.Common.{
  ℕ, suc, ◌≡◌, ◌⊎◌, refl, sym, ap, ◌∙◌, Option, none, some, Bool, List, [], ◌∷◌, ◌++◌, arith, All,
  leb, if◌then◌else◌, Bytes, codes, length, Dict, insert, lookup,
}
use elasticrelay.Gateway.{Checkpoint, ChangeEvent}
use elasticrelay.Wal.Reader.{ok}
use elasticrelay.Wal.Messages.{RelationInfo, RowData}
use elasticrelay.Wal.Stream.{key_text, values_by_name, join_key, extract_primary_key}
use elasticrelay.Sync.Job.{
  SyncJob, FlushRun, empty_checkpoint, commit_checkpoint, transform_events, send_to_sink, streamed,
  last_checkpoint,
}

pub record SnapshotChunk : Type 0 where
  pub records : List Bytes
  pub cursor : Bytes
  pub snapshot_binlog_file : Bytes
  pub snapshot_binlog_pos : ℕ

-- strings.Join with a colon
unfoldable pub join_parts : List Bytes → Bytes
join_parts [] = []
join_parts (p ∷ []) = p
join_parts (p ∷ q ∷ ps) = p ++ (b':' ∷ join_parts (q ∷ ps))

-- The checkpoint of the events of a chunk.
unfoldable pub chunk_checkpoint : Bool → Bytes → ℕ → SnapshotChunk → Checkpoint
chunk_checkpoint is_postgresql source now chunk =
    let lsn = if leb 1 (length chunk.cursor) then chunk.cursor else chunk.snapshot_binlog_file in
    if is_postgresql
    then record empty_checkpoint {
      source_type = source;
      position = lsn;
      postgres_lsn = lsn;
      timestamp = now;
    }
    else record empty_checkpoint {
      source_type = source;
      mysql_binlog_file = chunk.snapshot_binlog_file;
      mysql_binlog_pos = chunk.snapshot_binlog_pos;
    }

abbrev pub prepend : Bytes → Option (List Bytes) → Option (List Bytes)
prepend p none = none
prepend p (some ps) = some (p ∷ ps)

joined :
    (w : Bytes) (names parts : List Bytes)
    → length parts ≡ length names
    → elim names as (λ x. Bytes) [ [] ↦ w | n ∷ ns ↦ w ++ (b':' ∷ join_parts parts) ]
      ≡ join_parts (w ∷ parts)
unfolding join_parts
joined w [] [] h = refl
joined w [] (p ∷ ps) h = absurd (omega arith)
joined w (n ∷ ns) [] h = absurd (omega arith)
joined w (n ∷ ns) (p ∷ ps) h = refl

extract_primary_key-cols :
    (row : RowData) (relation : RelationInfo) (name : Bytes) (names : List Bytes)
    → relation.primary_key_cols ≡ name ∷ names
    → extract_primary_key row relation ≡ join_key (name ∷ names) (values_by_name row.columns [])
unfolding extract_primary_key
extract_primary_key-cols row relation name names cols = rw (cols, extract_primary_key) refl

module _ {Json : Type 0} (decode : Bytes → Option (Option (Dict Json)))
    (marshal : Dict Json → Option Bytes) (text : Bytes → Json) (show : Json → Bytes) where
  unfoldable pub key_parts : Dict Json → List Bytes → Option (List Bytes)
  key_parts m [] = some []
  key_parts m (name ∷ names) = elim (lookup name m) [
    | none ↦ none
    | some v ↦ prepend (show v) (key_parts m names)
  ]

  -- extractSnapshotPrimaryKey
  unfoldable pub extract_snapshot_primary_key : Dict Json → List Bytes → Option Bytes
  extract_snapshot_primary_key m [] = none
  extract_snapshot_primary_key m (name ∷ names) = elim (key_parts m (name ∷ names)) [
    | none ↦ none
    | some parts ↦ some (join_parts parts)
  ]

  -- The record with its table and its source.
  abbrev pub with_origin : Bytes → Bytes → Dict Json → Dict Json
  with_origin table source m =
      insert (codes "_source_id") (text source) (insert (codes "_table") (text table) m)

  abbrev pub insert_event : Checkpoint → Option Bytes → Option Bytes → List ChangeEvent
  insert_event c (some s) (some key) =
      record { op = codes "INSERT"; checkpoint = some c; primary_key = key; data_text = s } ∷ []
  insert_event c body key = []

  abbrev pub record_event :
      Bytes
      → Bytes
      → List Bytes
      → Checkpoint
      → Option (Option (Dict Json))
      → Option (List ChangeEvent)
  record_event table source key c none = some []
  record_event table source key c (some none) = none
  record_event table source key c (some (some m)) =
      let m' = with_origin table source m in
      some (insert_event c (marshal m') (extract_snapshot_primary_key m' key))

  -- The loop of processSnapshotChunk over the records: a record that cannot be converted is skipped.
  unfoldable pub snapshot_events :
      Bytes → Bytes → List Bytes → Checkpoint → List Bytes → Option (List ChangeEvent)
  snapshot_events table source key c [] = some []
  snapshot_events table source key c (r ∷ rs) = elim (record_event table source key c (decode r)) [
    | none ↦ none
    | some es ↦ elim (snapshot_events table source key c rs) [
      | none ↦ none
      | some more ↦ some (es ++ more)
    ]
  ]

  -- What a chunk leads to: the job, what has been sent to the sink, the checkpoints that are committed,
  -- and the error.
  abbrev pub Processed : Type 0
  Processed = SyncJob × List ChangeEvent × List Checkpoint × Option Bytes

  abbrev pub confirm : FlushRun → List ChangeEvent → SyncJob → Processed
  confirm run [] j = (j, [], [], none)
  confirm run (e ∷ es) j =
      let (j', cs) =
        commit_checkpoint run.now run.commit
          (record j { last_cp = last_checkpoint none (e ∷ es) }) in
      (j', e ∷ es, cs, none)

  -- The rest of processSnapshotChunk.
  unfoldable pub send_snapshot : FlushRun → List ChangeEvent → SyncJob → Processed
  send_snapshot run [] j = (j, [], [], none)
  send_snapshot run (e ∷ es) j = elim (send_to_sink run.sink) [
    | some error ↦ (
      j,
      streamed run.sink (transform_events run.transform (e ∷ es)),
      [],
      some (codes "failed to send snapshot events to sink: " ++ error),
    )
    | none ↦ confirm run (transform_events run.transform (e ∷ es)) j
  ]

  -- processSnapshotChunk
  unfoldable pub process_snapshot_chunk :
      FlushRun → Bool → ℕ → Bytes → List Bytes → SnapshotChunk → SyncJob → Option Processed
  process_snapshot_chunk run is_postgresql now table key chunk j =
      elim (snapshot_events table j.source_id key
        (chunk_checkpoint is_postgresql j.source_id now chunk) chunk.records) [
          | none ↦ none
          | some events ↦ some (send_snapshot run events j)
        ]

  -- Each column of the key has, in the record, a value that prints as it stands in the row.
  abbrev pub Agrees : Dict Json → Dict (Option Bytes) → Bytes → Type 0
  Agrees m row name =
      (x : Json) × (v : Option Bytes) × (lookup name m ≡ some x)
      × (lookup name row ≡ some v)
      × (show x ≡ key_text v)

  keys_agree :
      (m : Dict Json) (row : Dict (Option Bytes)) (names : List Bytes)
      → All (Agrees m row) names
      → (parts : List Bytes) × (key_parts m names ≡ some parts)
        × (length parts ≡ length names)
        × (join_key names row ≡ ok (join_parts parts))
  unfolding key_parts join_key join_parts
  keys_agree m row [] all = ([], refl, refl, refl)
  keys_agree m row (name ∷ names) ((x, v, found, found', same), all) =
      let (parts, is_parts, as_long, is_key) = keys_agree m row names all in
      (
        show x ∷ parts,
        rw (found, key_parts) (ap (prepend (show x)) is_parts),
        ap suc as_long,
        rw (found', join_key)
            (rw is_key (
              ap ok (
                joined (key_text v) names parts as_long
                ∙ ap (λ w. join_parts (w ∷ parts)) (sym same)))),
      )

  -- A row gets one key, whether it comes in a snapshot or in the stream of changes: the columns of the
  -- key are those of the relation, and the record of the snapshot has in each of them a value that
  -- prints as the text that the stream gives for it.
  pub extract_snapshot_primary_key-extract_primary_key :
      (m : Dict Json) (row : RowData) (relation : RelationInfo) (name : Bytes) (names : List Bytes)
      → relation.primary_key_cols ≡ name ∷ names
      → All (Agrees m (values_by_name row.columns [])) (name ∷ names)
      → (key : Bytes) × (extract_snapshot_primary_key m (name ∷ names) ≡ some key)
        × (extract_primary_key row relation ≡ ok key)
  unfolding extract_snapshot_primary_key
  extract_snapshot_primary_key-extract_primary_key m row relation name names cols all =
      let (parts, is_parts, as_long, is_key) =
        keys_agree m (values_by_name row.columns []) (name ∷ names) all in
      (
        join_parts parts,
        rw (is_parts, extract_snapshot_primary_key) refl,
        extract_primary_key-cols row relation name names cols ∙ is_key,
      )

  -- The events that should go to the sink.
  abbrev pub outgoing : FlushRun → List ChangeEvent → List ChangeEvent
  outgoing run [] = []
  outgoing run (e ∷ es) = transform_events run.transform (e ∷ es)

  -- All events are sent and the last checkpoint is that of the last one, if any; or there is an error, and
  -- the job stays as it was, whatever part of the events has been sent.
  abbrev pub IsSettled : SyncJob → List ChangeEvent → Processed → Type 0
  IsSettled j events p =
      ((p.3 ≡ none)
        × (p.1 ≡ events)
        × (p.0.last_cp ≡ last_checkpoint j.last_cp events)
        × (p.0.batch ≡ j.batch)
        × (p.0.cdc_events ≡ j.cdc_events)
        × (p.0.dlq_manager ≡ j.dlq_manager))
      ⊎ ((e : Bytes) × (p.3 ≡ some e)
          × (p.0 ≡ j)
          × (p.2 ≡ [])
          × (rest : List ChangeEvent) × (p.1 ++ rest ≡ events))
