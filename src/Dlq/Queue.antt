-- ===== src/Dlq/Queue.antt =====
-- DLQManager: internal/dlq/dlq.go, all operations.
use elasticrelay.Common.{
  ℕ, ◌+◌, Option, none, some, Bool, true, false, ◌&&◌, ◌||◌, List, [], ◌∷◌, ◌++◌, Bytes, str_eq,
  leb, ltb, length, if◌then◌else◌, Dict, lookup, insert, modify,
}
use elasticrelay.Common.Decimal
use elasticrelay.Gateway.{Checkpoint, ChangeEvent}
use elasticrelay.Dlq.Item.{
  Item, Status, pending, retrying, exhausted, resolved, discarded, is_pending, is_active,
  is_settled, begin, finish,
}
use elasticrelay.Dlq.Backoff.{should_retry}

abbrev pub Items : Type 0
Items = Dict Item

-- dlq_items.json. JSON is read as the map that it stands for.
pub data File : Type 0 where
  missing unreadable garbled : File
  holds : Items → File

-- What os.WriteFile did: a write that fails may leave anything in the file.
pub data Write : Type 0 where
  written : Write
  failed : File → Write

pub record Manager : Type 0 where
  pub max_retries : ℕ
  pub retry_delay : ℕ
  pub items : Items
  pub file : File

-- The storage path only names the file, and is left out.
pub record DlqConfig : Type 0 where
  pub max_retries : ℕ
  pub retry_delay : ℕ
  pub enabled : Bool

-- loadFromDisk: on a failure the items stay as they are.
unfoldable pub load_from_disk : File → Items → Items
load_from_disk (holds items) old = items
load_from_disk _ old = old

-- The manager of NewDLQManager; a disabled queue is a nil manager, and so is one whose directory
-- cannot be made.
unfoldable pub new_dlq_manager : DlqConfig → Bool → File → Option Manager
unfolding load_from_disk
new_dlq_manager config made file =
    if config.enabled && made
    then some (record {
      max_retries = config.max_retries;
      retry_delay = config.retry_delay;
      items = load_from_disk file [];
      file = file;
    })
    else none

-- saveToDisk, with whether it returned an error.
unfoldable pub save_to_disk : Write → Manager → Manager × Bool
save_to_disk written d = (record d { file = holds d.items }, false)
save_to_disk (failed rest) d = (record d { file = rest }, true)

unfoldable pub binlog_pos : Option Checkpoint → Bytes
binlog_pos none = []
binlog_pos (some c) =
    if str_eq c.mysql_binlog_file []
    then []
    else c.mysql_binlog_file ++ (b':' ∷ Decimal.format c.mysql_binlog_pos)

-- getDedupeKey
unfoldable pub dedupe_key : Bytes → ChangeEvent → Option Checkpoint → Bytes
dedupe_key job_id event checkpoint =
    job_id ++ (b'|' ∷ (event.primary_key ++ (b'|' ∷ binlog_pos checkpoint)))

abbrev pub item_key : Item → Bytes
item_key item = dedupe_key item.job_id item.event item.checkpoint

-- The loop of AddFailedEvent over the items.
unfoldable pub has_active : Bytes → Items → Bool
has_active key [] = false
has_active key ((id, item) ∷ rest) =
    (str_eq (item_key item) key && is_active item.status) || has_active key rest

pub data AddResult : Type 0 where
  added duplicate : AddResult

unfoldable pub item_id : Bytes → ChangeEvent → ℕ → Bytes
item_id job_id event stamp = job_id ++ (b'_' ∷ (event.primary_key ++ (b'_' ∷ Decimal.format stamp)))

-- The arguments of AddFailedEvent, with the two readings of the clock.
pub record Failure : Type 0 where
  pub job_id : Bytes
  pub event : ChangeEvent
  pub error_type : Bytes
  pub error_msg : Bytes
  pub checkpoint : Option Checkpoint
  pub stamp : ℕ
  pub now : ℕ

unfoldable pub new_item : ℕ → Failure → Item
new_item max_retries f = record {
  id = item_id f.job_id f.event f.stamp;
  job_id = f.job_id;
  event = f.event;
  error_msg = f.error_msg;
  error_type = f.error_type;
  retry_count = 0;
  max_retries = max_retries;
  first_failed = f.now;
  last_retried = none;
  status = pending;
  metadata = record {
    operation = f.event.op;
    primary_key = f.event.primary_key;
    data_length = length f.event.data_text;
  };
  checkpoint = f.checkpoint;
}

-- AddFailedEvent; a failed write is only logged.
unfoldable pub add_failed_event : Failure → Write → Manager → Manager × AddResult
unfolding new_item save_to_disk
add_failed_event f write d =
    if has_active (dedupe_key f.job_id f.event f.checkpoint) d.items
    then (d, duplicate)
    else let item = new_item d.max_retries f in
      ((save_to_disk write (record d { items = insert item.id item d.items })).0, added)

-- The test of processRetryBatch's loop.
unfoldable pub is_eligible : ℕ → ℕ → Item → Bool
is_eligible retry_delay now item =
    is_pending item.status
    && ltb item.retry_count item.max_retries
    && should_retry retry_delay now item

-- What a retry round reads: the clock when an item is looked at and when it is retried, the callback,
-- and the result of each write.
pub record Round : Type 0 where
  pub seen_at : Bytes → ℕ
  pub tried_at : Bytes → ℕ
  pub retry_func : Item → Option Bytes
  pub write : Bytes → Write

unfoldable pub select_pending : ℕ → Round → Items → List Bytes
select_pending retry_delay r [] = []
select_pending retry_delay r ((id, item) ∷ rest) =
    let others = select_pending retry_delay r rest in
    if is_eligible retry_delay (r.seen_at id) item then id ∷ others else others

-- The two critical sections of retryItem; the second one also writes the file. They act on the item
-- that the map holds under `id`: an item that was removed in between is no part of the state.
unfoldable pub begin_retry : ℕ → Bytes → Manager → Manager
begin_retry now id d = record d { items = modify id (begin now) d.items }

unfoldable pub finish_retry : Option Bytes → Write → Bytes → Manager → Manager
unfolding save_to_disk
finish_retry outcome write id d =
    (save_to_disk write (record d { items = modify id (finish outcome) d.items })).0

-- retryItem with no other method between its sections. The callback sees the item after the first.
unfoldable pub retry_item : Round → Bytes → Manager → Manager
unfolding begin_retry finish_retry
retry_item r id d = elim (lookup id d.items) [
  | none ↦ d
  | some item ↦
      finish_retry (r.retry_func (begin (r.tried_at id) item)) (r.write id) id
        (begin_retry (r.tried_at id) id d)
]

unfoldable pub retry_all : Round → List Bytes → Manager → Manager
retry_all r [] d = d
retry_all r (id ∷ ids) d = retry_all r ids (retry_item r id d)

-- processRetryBatch, when no other method runs meanwhile.
unfoldable pub process_retry_batch : Round → Manager → Manager
process_retry_batch r d = retry_all r (select_pending d.retry_delay r d.items) d

pub record Stats : Type 0 where
  pub total : ℕ
  pub pending_count : ℕ
  pub retrying_count : ℕ
  pub exhausted_count : ℕ
  pub resolved_count : ℕ
  pub discarded_count : ℕ

-- stats[string(item.Status)]++
unfoldable pub count_status : Status → Stats → Stats
count_status pending s = record s { pending_count = s.pending_count + 1 }
count_status retrying s = record s { retrying_count = s.retrying_count + 1 }
count_status exhausted s = record s { exhausted_count = s.exhausted_count + 1 }
count_status resolved s = record s { resolved_count = s.resolved_count + 1 }
count_status discarded s = record s { discarded_count = s.discarded_count + 1 }

unfoldable pub count_items : Items → Stats → Stats
unfolding count_status
count_items [] s = s
count_items ((id, item) ∷ rest) s = count_items rest (count_status item.status s)

abbrev pub no_counts : ℕ → Stats
no_counts n = record {
  total = n;
  pending_count = 0;
  retrying_count = 0;
  exhausted_count = 0;
  resolved_count = 0;
  discarded_count = 0;
}

-- GetStats
unfoldable pub get_stats : Manager → Stats
get_stats d = count_items d.items (no_counts (length d.items))

abbrev pub same_status : Status → Status → Bool
same_status pending pending = true
same_status retrying retrying = true
same_status exhausted exhausted = true
same_status resolved resolved = true
same_status discarded discarded = true
same_status _ _ = false

-- `status != "" && item.Status != status`: `none` is the empty filter.
abbrev pub wanted : Option Status → Item → Bool
wanted none item = true
wanted (some s) item = same_status item.status s

-- The loop of ListItems; `count` is the number of items listed so far.
unfoldable pub list_loop : Option Status → ℕ → ℕ → Items → List Item
list_loop status limit count [] = []
list_loop status limit count ((id, item) ∷ rest) =
    let stop = ltb 0 limit && leb limit (count + 1) in
    let more = list_loop status limit (count + 1) rest in
    let skipped = list_loop status limit count rest in
    if wanted status item then item ∷ (if stop then [] else more) else skipped

-- ListItems; a negative limit acts as 0 does.
unfoldable pub list_items : Option Status → ℕ → Manager → List Item
list_items status limit d = list_loop status limit 0 d.items

pub data DiscardResult : Type 0 where
  done not_found unsaved : DiscardResult

-- DiscardItem
unfoldable pub discard_item : Bytes → Write → Manager → Manager × DiscardResult
unfolding save_to_disk
discard_item id write d = elim (lookup id d.items) [
  | none ↦ (d, not_found)
  | some item ↦
      let saved =
        save_to_disk write
          (record d { items = modify id (λ it. record it { status = discarded }) d.items }) in
      (saved.0, if saved.1 then unsaved else done)
]

-- Whether CleanupResolved deletes the item: settled, and first failed before the cutoff.
unfoldable pub is_stale : ℕ → Item → Bool
is_stale cutoff item = is_settled item.status && ltb item.first_failed cutoff

unfoldable pub sweep : ℕ → Items → Items × ℕ
sweep cutoff [] = ([], 0)
sweep cutoff ((id, item) ∷ rest) =
    let (kept, removed) = sweep cutoff rest in
    if is_stale cutoff item then (kept, removed + 1) else ((id, item) ∷ kept, removed)

-- CleanupResolved: the file is written only if something was removed.
unfoldable pub cleanup_resolved : ℕ → Write → Manager → Manager × ℕ
unfolding save_to_disk
cleanup_resolved cutoff write d =
    let (kept, removed) = sweep cutoff d.items in
    let d' = record d { items = kept } in
    if ltb 0 removed then ((save_to_disk write d').0, removed) else (d', removed)
