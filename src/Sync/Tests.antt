-- ===== src/Sync/Tests.antt =====
-- Runs of a job on small inputs, and its theorems at concrete inputs.
use elasticrelay.Common.{
  ℕ, ◌≡◌, ◌↔◌, ◌⊎◌, refl, Option, none, some, true, false, List, [], ◌∷◌, ◌++◌, arith, Bytes, Dict,
  codes, str_eq, lookup, insert, has_key,
}
use elasticrelay.Common.Int.{ℤ, pos}
use elasticrelay.Gateway.{Checkpoint, ChangeEvent}
use elasticrelay.Dlq.Item.{Item, pending, resolved, begin, attempt}
use elasticrelay.Dlq.Queue.{Manager, written, missing}
use elasticrelay.Checkpoints.Legacy.{MysqlPosition}
use elasticrelay.Wal.Reader.{ok}
use elasticrelay.Wal.Messages.{RelationInfo, RowData}
use elasticrelay.Wal.Stream.{extract_primary_key, values_by_name}
use elasticrelay.Sync.Job.{
  SyncJob, FlushRun, Flushed, Moment, no_client, broken, not_closed, accepted, committed,
  empty_checkpoint, marked, send, send_to_sink, last_checkpoint, enrich_event, enrich_all,
  flush_batch, take_event, batched,
}
use elasticrelay.Sync.Flush.{flush_batch-accepted}
use elasticrelay.Sync.History.{History, sent, after_step, Step, Reach}
use elasticrelay.Sync.Accounts.{IsSound, Reach-IsSound}
use elasticrelay.Sync.Initial.{
  Start, Described, index, CheckpointFile, is_initial_sync_enabled, should_force_initial_sync,
  has_valid_checkpoint, needs_initial_sync,
}
use elasticrelay.Sync.Decision.{HasTarget, needs_initial_sync_iff}
use elasticrelay.Sync.Retry.{
  Services, finished, retry_dlq_item, WasDelivered, attempt-retry_dlq_item,
}
use elasticrelay.Sync.Snapshot.{
  SnapshotChunk, Processed, snapshot_events, chunk_checkpoint, extract_snapshot_primary_key,
  snapshot_events, extract_snapshot_primary_key-extract_primary_key,
}
use mathlib.Core.Option

-- Records as texts with one field, as a stand-in for JSON.
abbrev decode : Bytes → Option (Option (Dict Bytes))
decode s = some (some ((codes "id", s) ∷ []))

abbrev marshal : Dict Bytes → Option Bytes
marshal m = some (codes "{}")

abbrev text : Bytes → Bytes
text s = s

abbrev place : Checkpoint
place = record empty_checkpoint { postgres_lsn = codes "0/5" }

abbrev event : ChangeEvent
event = record {
  op = codes "INSERT";
  checkpoint = some place;
  primary_key = codes "1";
  data_text = codes "x";
}

abbrev queue : Manager
queue = record { max_retries = 3; retry_delay = 30; items = []; file = missing }

abbrev job : SyncJob
job = record {
  id = codes "job";
  source_id = codes "pg";
  batch = [];
  cdc_events = [];
  last_cp = none;
  last_committed_cp_position = [];
  last_checkpoint_commit_at = none;
  dlq_manager = some queue;
}

abbrev moment : ℕ → Moment
moment n = record { stamp = n; now = 0; write = written }

abbrev good : FlushRun
good = record {
  transform = no_client;
  sink = accepted;
  at = moment;
  now = 9;
  commit = committed 10;
}

abbrev cut_off : FlushRun
cut_off = record good { transform = broken [] }

abbrev bad : FlushRun
bad = record good { sink = not_closed (codes "down") }

abbrev waiting : SyncJob
waiting = record job { batch = event ∷ [] }

abbrev sourced : ChangeEvent
sourced = record event { data_text = codes "{}" }

abbrev start : History
start = record { job = job; accepted = []; settled = []; sunk = []; commits = [] }

start-IsSound : IsSound none start
start-IsSound = record {
  accounted = refl;
  short_batch = omega arith;
  short_queue = omega arith;
  last = refl;
  confirmed = tt;
}

abbrev arrived : History
arrived = sent event start

abbrev source_event : ChangeEvent
source_event = marked (codes "pg") event

abbrev held : Flushed
held = (batched source_event [] (send event job), [], [])

taken : take_event decode marshal text good source_event [] (send event job) ≡ some held
unfolding take_event send
taken = refl

queued : SyncJob.cdc_events (send event job) ≡ source_event ∷ []
unfolding send
queued = refl

Reach-IsSound_example :
    IsSound none (after_step (SyncJob.batch arrived.job ++ (source_event ∷ [])) held arrived)
Reach-IsSound_example =
    Reach-IsSound decode marshal text none
      (Reach.next (Reach.next Reach.here (Step.accept event start (omega arith)))
        (Step.take good source_event [] held arrived queued taken))
      start-IsSound

enriched_batch : enrich_all decode marshal text (codes "pg") (event ∷ []) ≡ some (sourced ∷ [])
unfolding enrich_all enrich_event str_eq has_key
enriched_batch = refl

sink_taken : send_to_sink cut_off.sink ≡ none
unfolding send_to_sink
sink_taken = refl

flush_batch-accepted_example :
    (delivered : List ChangeEvent) × (j' : SyncJob) × (cs : List Checkpoint) × (flush_batch decode
        marshal text cut_off waiting
      ≡ some (j', delivered, cs))
    × (delivered ≡ [])
    × (j'.batch ≡ [])
    × (j'.dlq_manager ≡ some queue)
    × (j'.last_cp ≡ last_checkpoint none delivered)
flush_batch-accepted_example =
    flush_batch-accepted decode marshal text cut_off waiting refl enriched_batch sink_taken

abbrev moved : SyncJob
moved = record job { last_cp = some place }

abbrev beginning : Start
beginning = record {
  id = codes "job";
  job_options = none;
  sink_config = none;
  connector = some (record { type = codes "postgresql"; table_filters = codes "orders" ∷ [] });
  has_sink = true;
}

abbrev print_position : MysqlPosition → Bytes
print_position p = p.file

abbrev read_position : Bytes → Option MysqlPosition
read_position s = none

abbrev scan : Bytes → ℤ
scan s = pos 0

abbrev empty_index : Bytes → Described
empty_index name = index true (pos 0)

needs_initial_sync_iff_example :
    (needs_initial_sync print_position read_position scan text empty_index CheckpointFile.missing
        beginning
      ≡ some true)
    ↔ ((is_initial_sync_enabled none ≡ true)
        × ((should_force_initial_sync none ≡ true)
            ⊎ ((has_valid_checkpoint print_position read_position scan text empty_index
                    CheckpointFile.missing beginning
                  ≡ some false)
                × ¬ HasTarget print_position read_position scan text empty_index beginning)))
needs_initial_sync_iff_example =
    needs_initial_sync_iff print_position read_position scan text empty_index CheckpointFile.missing
      beginning (refl, tt) (omega arith)

abbrev failed_item : Item
failed_item = record {
  id = codes "a";
  job_id = codes "job";
  event = event;
  error_msg = codes "down";
  error_type = codes "sink";
  retry_count = 0;
  max_retries = 3;
  first_failed = 0;
  last_retried = none;
  status = pending;
  metadata = record { operation = codes "INSERT"; primary_key = codes "1"; data_length = 1 };
  checkpoint = some place;
}

abbrev services : Services
services = record { transform = λ id. finished; sink = λ id. finished }

attempt-retry_dlq_item_example :
    ((attempt
        (λ it. (retry_dlq_item ((codes "job", true) ∷ []) services it).0)
        5
        failed_item).status
      ≡ resolved)
    ↔ WasDelivered ((codes "job", true) ∷ []) services (begin 5 failed_item)
attempt-retry_dlq_item_example =
    attempt-retry_dlq_item ((codes "job", true) ∷ []) services 5 failed_item refl

abbrev failed_queue : Manager
failed_queue = record queue { items = (codes "a", failed_item) ∷ [] }

abbrev row : RowData
row = record {
  relation_id = 42;
  tuple_type = b'N';
  columns =
      record {
        name = codes "id";
        value = some (codes "1");
        is_null = false;
        type_id = 25;
        type_name = [];
      }
      ∷ [];
}

abbrev relation : RelationInfo
relation = record {
  relation_id = 42;
  namespace = codes "public";
  relation_name = codes "orders";
  replica_identity = 0;
  columns = [];
  primary_key_cols = codes "id" ∷ [];
}

id_in_record : lookup (codes "id") ((codes "id", codes "1") ∷ []) ≡ some (codes "1")
unfolding lookup str_eq
id_in_record = refl

id_in_row : lookup (codes "id") (values_by_name row.columns []) ≡ some (some (codes "1"))
unfolding lookup str_eq values_by_name insert
id_in_row = refl

extract_snapshot_primary_key-extract_primary_key_example :
    (key : Bytes) × (extract_snapshot_primary_key decode marshal text text
        ((codes "id", codes "1") ∷ [])
        (codes "id" ∷ [])
      ≡ some key)
    × (extract_primary_key row relation ≡ ok key)
extract_snapshot_primary_key-extract_primary_key_example =
    extract_snapshot_primary_key-extract_primary_key decode marshal text text
      ((codes "id", codes "1") ∷ []) row relation (codes "id") [] refl
      ((codes "1", some (codes "1"), id_in_record, id_in_row, refl), tt)

abbrev chunk : SnapshotChunk
chunk = record {
  records = codes "1" ∷ [];
  cursor = codes "0/5";
  snapshot_binlog_file = [];
  snapshot_binlog_pos = 0;
}

abbrev chunk_events : List ChangeEvent
chunk_events =
    elim (snapshot_events decode marshal text text (codes "orders") (codes "pg") (codes "id" ∷ [])
      (chunk_checkpoint true (codes "pg") 7 chunk) chunk.records) [ none ↦ [] | some es ↦ es ]

abbrev refused_chunk : Processed decode marshal text text
refused_chunk = (job, chunk_events, [], some (codes "failed to send snapshot events to sink: down"))
