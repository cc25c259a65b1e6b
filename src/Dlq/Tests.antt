-- ===== src/Dlq/Tests.antt =====
-- Runs of the dead letter queue on small inputs, and its theorems at concrete inputs.
use elasticrelay.Common.{
  ℕ, ◌+◌, ◌*◌, ◌^◌, ◌≤◌, ◌<◌, ◌↔◌, ◌≡◌, refl, Option, none, some, true, [], ◌∷◌, map, arith, Bytes,
  codes, str_eq, lookup, insert, modify, has_key,
}
use elasticrelay.Gateway.{Checkpoint, ChangeEvent}
use elasticrelay.Dlq.Item.{Item, resolved, pending, exhausted, attempt, begin, finish}
use elasticrelay.Dlq.Queue.{
  missing, holds, Manager, DlqConfig, save_to_disk, Round, written, binlog_pos, dedupe_key,
  has_active, added, duplicate, item_id, Failure, add_failed_event, is_eligible, select_pending,
  begin_retry, finish_retry, retry_item, retry_all, process_retry_batch, discard_item,
}
use mathlib.Core.Option
use elasticrelay.Common.Decimal
use elasticrelay.Dlq.Backoff.{should_retry}
use elasticrelay.Dlq.Delays.{attempt-is_eligible}
use elasticrelay.Dlq.Attempts.{attempts, Fails, attempts_exhausted}
use elasticrelay.Dlq.Rounds.{one_round, lookup-process_retry_batch}
use elasticrelay.Dlq.Invariant.{IsValid, Step, Reach, Reach-IsValid}
use elasticrelay.Dlq.Dedupe.{UniqueActive, add_without_binlog, Reach-UniqueActive}
use elasticrelay.Dlq.Races.{discard_lost}
use elasticrelay.Dlq.Restarts

abbrev event : ChangeEvent
event = record {
  op = codes "UPDATE";
  checkpoint = none;
  primary_key = codes "7";
  data_text = codes "{}";
}

abbrev failure : ℕ → Failure
failure stamp = record {
  job_id = codes "orders";
  event = event;
  error_type = codes "sink";
  error_msg = codes "refused";
  checkpoint = none;
  stamp = stamp;
  now = 100;
}

abbrev first_item : Item
first_item = record {
  id = codes "orders_7_1";
  job_id = codes "orders";
  event = event;
  error_msg = codes "refused";
  error_type = codes "sink";
  retry_count = 0;
  max_retries = 2;
  first_failed = 100;
  last_retried = none;
  status = pending;
  metadata = record { operation = codes "UPDATE"; primary_key = codes "7"; data_length = 2 };
  checkpoint = none;
}

abbrev empty_queue : Manager
empty_queue = record { max_retries = 2; retry_delay = 5; items = []; file = missing }

abbrev one_queue : Manager
one_queue = record empty_queue {
  items = (codes "orders_7_1", first_item) ∷ [];
  file = holds ((codes "orders_7_1", first_item) ∷ []);
}

abbrev refuse : Item → Option Bytes
refuse item = some (codes "still down")

abbrev round : Round
round = record {
  seen_at = λ id. 200;
  tried_at = λ id. 201;
  retry_func = refuse;
  write = λ id. written;
}

add_first : add_failed_event (failure 1) written empty_queue ≡ (one_queue, added)
unfolding add_failed_event has_active insert item_id Decimal.format str_eq
add_first = refl

add_again : (add_failed_event (failure 2) written one_queue).1 ≡ duplicate
unfolding add_failed_event has_active dedupe_key binlog_pos str_eq
add_again = refl

round_once :
    map (λ (e : Bytes × Item). e.1.retry_count) (process_retry_batch round one_queue).items ≡ 1 ∷ []
unfolding process_retry_batch select_pending is_eligible should_retry retry_all retry_item begin
    finish lookup modify str_eq
round_once = refl

empty_queue-IsValid : IsValid empty_queue
empty_queue-IsValid = record { keyed = tt; sound = tt }

run :
    Reach empty_queue
      (process_retry_batch round (add_failed_event (failure 1) written empty_queue).0)
run =
    Reach.next (Reach.next Reach.here (Step.add (failure 1) written empty_queue))
      (Step.retry round (add_failed_event (failure 1) written empty_queue).0)

Reach-IsValid_example :
    IsValid (process_retry_batch round (add_failed_event (failure 1) written empty_queue).0)
Reach-IsValid_example = Reach-IsValid empty_queue-IsValid run

empty_queue-UniqueActive : UniqueActive empty_queue.items
unfolding lookup
empty_queue-UniqueActive i j a b found = absurd (cc)

Reach-UniqueActive_example :
    UniqueActive
      (process_retry_batch round (add_failed_event (failure 1) written empty_queue).0).items
Reach-UniqueActive_example = Reach-UniqueActive empty_queue-IsValid empty_queue-UniqueActive run

lookup-process_retry_batch_example :
    lookup (codes "orders_7_1") (process_retry_batch round one_queue).items
    ≡ Option.map
        (one_round 5 round (codes "orders_7_1"))
        (lookup (codes "orders_7_1") one_queue.items)
unfolding has_key
lookup-process_retry_batch_example =
    lookup-process_retry_batch round one_queue (codes "orders_7_1") (refl, tt)

refuse-Fails : Fails refuse
refuse-Fails item = (codes "still down", refl)

attempts_exhausted_example :
    ((attempts refuse (10 ∷ 20 ∷ []) first_item).status ≡ exhausted)
    × ((attempts refuse (10 ∷ 20 ∷ []) first_item).retry_count ≡ 2)
attempts_exhausted_example =
    attempts_exhausted refuse refuse-Fails (10 ∷ 20 ∷ []) first_item refl (omega arith)
      (omega arith)

abbrev tried_item : Item
tried_item = record first_item { retry_count = 1; max_retries = 3; last_retried = some 100 }

attempt-is_eligible_example :
    (is_eligible 30 400 (attempt refuse 100 tried_item) ≡ true)
    ↔ ((1 + 1 < 3) × (100 + 30 * 2 ^ (1 + 1) ≤ 400))
attempt-is_eligible_example = attempt-is_eligible refuse 30 100 400 tried_item refl (omega arith)

abbrev at_binlog : ℕ → Checkpoint
at_binlog pos = record {
  position = [];
  source_type = codes "mysql";
  metadata = [];
  timestamp = 0;
  mysql_binlog_file = codes "bin.1";
  mysql_binlog_pos = pos;
  postgres_lsn = [];
  mongo_resume_token = [];
}

found_first : lookup (codes "orders_7_1") one_queue.items ≡ some first_item
unfolding lookup str_eq
found_first = refl

add_without_binlog_example : add_failed_event (failure 9) written one_queue ≡ (one_queue, duplicate)
add_without_binlog_example =
    add_without_binlog (failure 9) written one_queue (codes "orders_7_1") found_first refl refl refl
      tt tt

discard_lost_example :
    (after : Item) × (lookup
        (codes "orders_7_1")
        (finish_retry none written
          (codes "orders_7_1")
          (discard_item
            (codes "orders_7_1")
            written
            (begin_retry 50 (codes "orders_7_1") one_queue)).0).items
      ≡ some after)
    × (after.status ≡ resolved)
    × (after.retry_count ≡ 0 + 1)
discard_lost_example =
    discard_lost 50 (codes "orders_7_1") written written none one_queue found_first

abbrev in_retry : Manager
in_retry = begin_retry 50 (codes "orders_7_1") one_queue

abbrev config : DlqConfig
config = record { enabled = true; max_retries = 2; retry_delay = 30 }

abbrev after_restart : Manager
after_restart = record {
  max_retries = 2;
  retry_delay = 30;
  items = in_retry.items;
  file = (save_to_disk written in_retry).0.file;
}
