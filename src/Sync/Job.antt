-- ===== src/Sync/Job.antt =====
-- The change pipeline of a job (MultiJob): the stream that a connector sends to, the batch processor,
-- the flush and the commit of checkpoints in internal/orchestrator/multi_orchestrator.go. JSON is a
-- parameter: `decode` gives `none` on an error and `some none` on null. What the transform service, the
-- sink and the connector service answer is given with each call.
use elasticrelay.Common.{
  ℕ, suc, ◌-◌, ◌*◌, Option, none, some, Bool, false, ◌||◌, List, [], ◌∷◌, ◌++◌, leb, ltb,
  if◌then◌else◌, Bytes, codes, length, str_eq, Dict, insert, has_key, take,
}
use elasticrelay.Common.Decimal
use elasticrelay.Gateway.{Checkpoint, ChangeEvent}
use elasticrelay.Dlq.Queue.{Manager, Write, Failure, add_failed_event}

abbrev pub batch_size : ℕ
batch_size = 100

-- commitInterval, in nanoseconds
abbrev pub commit_interval : ℕ
commit_interval = 5000000000

-- The capacity of the channel of events.
abbrev pub queue_size : ℕ
queue_size = batch_size * 20

-- What of MultiJob the pipeline reads and changes. No time stands for the zero time.
pub record SyncJob : Type 0 where
  pub id : Bytes
  pub source_id : Bytes
  pub batch : List ChangeEvent
  pub cdc_events : List ChangeEvent
  pub last_cp : Option Checkpoint
  pub last_committed_cp_position : Bytes
  pub last_checkpoint_commit_at : Option ℕ
  pub dlq_manager : Option Manager

abbrev pub empty_checkpoint : Checkpoint
empty_checkpoint = record {
  position = [];
  source_type = [];
  metadata = [];
  timestamp = 0;
  mysql_binlog_file = [];
  mysql_binlog_pos = 0;
  postgres_lsn = [];
  mongo_resume_token = [];
}

-- The checkpoint that Send sets.
abbrev pub with_source : Bytes → Option Checkpoint → Checkpoint
with_source source (some c) = record c { source_type = source }
with_source source none = record empty_checkpoint { source_type = source }

abbrev pub marked : Bytes → ChangeEvent → ChangeEvent
marked source e = record e { checkpoint = some (with_source source e.checkpoint) }

-- jobCDCStream.Send and addToBatch, where the context is not done and the channel has room.
unfoldable pub send : ChangeEvent → SyncJob → SyncJob
send e j = record j { cdc_events = j.cdc_events ++ (marked j.source_id e ∷ []) }

-- resetCDCBuffers
unfoldable pub reset_cdc_buffers : SyncJob → SyncJob
reset_cdc_buffers j = record j { batch = []; cdc_events = [] }

-- formatCheckpointPosition
unfoldable pub format_checkpoint_position : Option Checkpoint → Bytes
format_checkpoint_position none = codes "<nil>"
format_checkpoint_position (some c) =
    if leb 1 (length c.postgres_lsn)
    then c.postgres_lsn
    else if leb 1 (length c.mysql_binlog_file) || ltb 0 c.mysql_binlog_pos
    then c.mysql_binlog_file ++ (b':' ∷ Decimal.format c.mysql_binlog_pos)
    else if leb 1 (length c.mongo_resume_token)
    then c.mongo_resume_token
    else if leb 1 (length c.position)
    then c.position
    else codes "<empty>"

-- What the call of CommitCheckpoint comes to, with the time when it is done.
pub data CommitRun : Type 0 where
  dial_failed commit_failed : CommitRun
  committed : ℕ → CommitRun

abbrev pub commit_now : Bytes → Checkpoint → CommitRun → SyncJob → SyncJob × List Checkpoint
commit_now position c (committed at) j = (
  record j { last_committed_cp_position = position; last_checkpoint_commit_at = some at },
  c ∷ [],
)
commit_now position c failed j = (j, [])

-- Whether the last commit is not long enough ago.
abbrev pub is_early : ℕ → Option ℕ → Bool
is_early now none = false
is_early now (some at) = ltb (now - at) commit_interval

-- commitCheckpoint for what the job has as its last checkpoint.
unfoldable pub commit_of : ℕ → CommitRun → SyncJob → Option Checkpoint → SyncJob × List Checkpoint
commit_of now run j none = (j, [])
commit_of now run j (some c) =
    let position = format_checkpoint_position (some c) in
    if str_eq position j.last_committed_cp_position
    then (j, [])
    else if is_early now j.last_checkpoint_commit_at
    then (j, [])
    else commit_now position c run j

-- commitCheckpoint, with the checkpoint that it commits.
unfoldable pub commit_checkpoint : ℕ → CommitRun → SyncJob → SyncJob × List Checkpoint
unfolding commit_of
commit_checkpoint now run j = commit_of now run j j.last_cp

-- What the transform service comes to: no client, a stream that fails before its reply, or a reply that
-- ends or breaks off.
pub data TransformRun : Type 0 where
  no_client open_failed send_failed close_failed : TransformRun
  ended broken : List ChangeEvent → TransformRun

-- transformEvents, for events that are not none.
unfoldable pub transform_events : TransformRun → List ChangeEvent → List ChangeEvent
transform_events (ended replies) events = replies
transform_events (broken replies) events = replies
transform_events other events = events

-- What the sink comes to: the error text of the step that fails, and for a failing Send how many events
-- have been sent before.
pub data SinkRun : Type 0 where
  not_opened not_closed : Bytes → SinkRun
  not_sent : Bytes → ℕ → SinkRun
  accepted : SinkRun

-- sendToSink
unfoldable pub send_to_sink : SinkRun → Option Bytes
send_to_sink (not_opened text) = some (codes "failed to create sink stream: " ++ text)
send_to_sink (not_sent text n) = some (codes "failed to send event: " ++ text)
send_to_sink (not_closed text) = some text
send_to_sink accepted = none

-- The events that sendToSink has put into the stream, and that the sink may have indexed also where it
-- answers with an error.
unfoldable pub streamed : SinkRun → List ChangeEvent → List ChangeEvent
streamed (not_opened text) events = []
streamed (not_sent text n) events = take n events
streamed other events = events

-- The readings of the clock and the write when an event is put into the dead letter queue.
pub record Moment : Type 0 where
  pub stamp : ℕ
  pub now : ℕ
  pub write : Write

abbrev pub failure : Bytes → Bytes → Moment → ChangeEvent → Failure
failure id text m e = record {
  job_id = id;
  event = e;
  error_type = codes "sink";
  error_msg = text;
  checkpoint = e.checkpoint;
  stamp = m.stamp;
  now = m.now;
}

-- The loop of flushBatch over the events that the sink refused.
unfoldable pub queue_failures : Bytes → Bytes → List (Moment × ChangeEvent) → Manager → Manager
queue_failures id text [] d = d
queue_failures id text ((m, e) ∷ rest) d =
    queue_failures id text rest (add_failed_event (failure id text m e) m.write d).0

abbrev pub timed : (ℕ → Moment) → ℕ → List ChangeEvent → List (Moment × ChangeEvent)
timed at n [] = []
timed at n (e ∷ es) = (at n, e) ∷ timed at (suc n) es

abbrev pub queue_in : (Manager → Manager) → Option Manager → Option Manager
queue_in f none = none
queue_in f (some d) = some (f d)

-- The checkpoint of the last of some events, else the one before them.
abbrev pub last_checkpoint : Option Checkpoint → List ChangeEvent → Option Checkpoint
last_checkpoint c [] = c
last_checkpoint c (e ∷ es) = last_checkpoint e.checkpoint es

-- What the services come to in one flush.
pub record FlushRun : Type 0 where
  pub transform : TransformRun
  pub sink : SinkRun
  pub at : ℕ → Moment
  pub now : ℕ
  pub commit : CommitRun

-- A flush leads to a job, the events that the sink acknowledged, and the checkpoints that are committed.
abbrev pub Flushed : Type 0
Flushed = SyncJob × List ChangeEvent × List Checkpoint

-- flushBatch when the sink has acknowledged the events: the checkpoint is updated and committed.
abbrev pub advance : FlushRun → List ChangeEvent → SyncJob → Flushed
advance run events j =
    let (j', cs) =
      commit_checkpoint run.now run.commit (record j { last_cp = last_checkpoint none events }) in
    (record j' { batch = [] }, events, cs)

-- flushBatch behind the transformation.
unfoldable pub flush_transformed : FlushRun → List ChangeEvent → SyncJob → Flushed
flush_transformed run [] j = (record j { batch = [] }, [], [])
flush_transformed run (e ∷ es) j = elim (send_to_sink run.sink) [
  | some text ↦ (
    record j {
      batch = [];
      dlq_manager = queue_in (queue_failures j.id text (timed run.at 0 (e ∷ es))) j.dlq_manager;
    },
    [],
    [],
  )
  | none ↦ advance run (e ∷ es) j
]

abbrev pub batched : ChangeEvent → List ChangeEvent → SyncJob → SyncJob
batched e rest j = record j { cdc_events = rest; batch = j.batch ++ (e ∷ []) }

module _ {Json : Type 0} (decode : Bytes → Option (Option (Dict Json)))
    (marshal : Dict Json → Option Bytes) (text : Bytes → Json) where
  -- enrichEventWithSourceID; `none` is a panic, since JSON's null leaves a nil map that is written to.
  abbrev pub enriched : Bytes → ChangeEvent → Option (Option (Dict Json)) → Option ChangeEvent
  enriched source e none = some e
  enriched source e (some none) = none
  enriched source e (some (some m)) =
      if has_key (codes "_source_id") m
      then some e
      else elim (marshal (insert (codes "_source_id") (text source) m)) [
        | none ↦ some e
        | some s ↦ some (record e { data_text = s })
      ]

  unfoldable pub enrich_event : Bytes → ChangeEvent → Option ChangeEvent
  enrich_event source e =
      if str_eq e.data_text [] then some e else enriched source e (decode e.data_text)

  unfoldable pub enrich_all : Bytes → List ChangeEvent → Option (List ChangeEvent)
  enrich_all source [] = some []
  enrich_all source (e ∷ es) = elim (enrich_event source e) [
    | none ↦ none
    | some e' ↦ elim (enrich_all source es) [ none ↦ none | some es' ↦ some (e' ∷ es') ]
  ]

  -- flushBatch for what the job has as its batch.
  unfoldable pub flush_of : FlushRun → SyncJob → List ChangeEvent → Option Flushed
  flush_of run j [] = some (j, [], [])
  flush_of run j (e ∷ es) = elim (enrich_all j.source_id (e ∷ es)) [
    | none ↦ none
    | some events ↦ some (flush_transformed run (transform_events run.transform events) j)
  ]

  -- flushBatch
  unfoldable pub flush_batch : FlushRun → SyncJob → Option Flushed
  unfolding flush_of
  flush_batch run j = flush_of run j j.batch

  -- cdcBatchProcessor when it receives an event.
  unfoldable pub take_event : FlushRun → ChangeEvent → List ChangeEvent → SyncJob → Option Flushed
  take_event run e rest j =
      if leb batch_size (length (batched e rest j).batch)
      then flush_batch run (batched e rest j)
      else some (batched e rest j, [], [])
