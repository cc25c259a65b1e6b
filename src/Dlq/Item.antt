-- ===== src/Dlq/Item.antt =====
-- DLQItem and its life: internal/dlq/dlq.go, lines 26 to 49 and the item's part of retryItem.
use elasticrelay.Common.{
  ℕ, ◌+◌, Option, none, some, Bool, true, false, ◌++◌, Bytes, codes, leb, if◌then◌else◌,
}
use elasticrelay.Common.Decimal
use elasticrelay.Gateway.{Checkpoint, ChangeEvent}

-- DLQStatus
pub data Status : Type 0 where
  pending retrying exhausted resolved discarded : Status

pub record Metadata : Type 0 where
  pub operation : Bytes
  pub primary_key : Bytes
  pub data_length : ℕ

-- RetryCount and MaxRetries are Go ints that start at 0 and at the configured limit. A negative
-- limit acts as 0 does, in every test that reads it.
pub record Item : Type 0 where
  pub id : Bytes
  pub job_id : Bytes
  pub event : ChangeEvent
  pub error_msg : Bytes
  pub error_type : Bytes
  pub retry_count : ℕ
  pub max_retries : ℕ
  pub first_failed : ℕ
  pub last_retried : Option ℕ
  pub status : Status
  pub metadata : Metadata
  pub checkpoint : Option Checkpoint

abbrev pub is_pending : Status → Bool
is_pending pending = true
is_pending _ = false

-- The statuses that the duplicate check of AddFailedEvent counts as unresolved.
abbrev pub is_active : Status → Bool
is_active pending = true
is_active retrying = true
is_active _ = false

-- The statuses that CleanupResolved removes.
abbrev pub is_settled : Status → Bool
is_settled resolved = true
is_settled discarded = true
is_settled _ = false

-- The first critical section of retryItem.
unfoldable pub begin : ℕ → Item → Item
begin now item = record item { status = retrying; last_retried = some now }

failed_again : Bytes → Item → Item
failed_again error item =
    if leb item.max_retries item.retry_count
    then record item { status = exhausted; error_msg = codes "Final retry failed: " ++ error }
    else record item {
      status = pending;
      error_msg =
          codes "Retry " ++ (Decimal.format item.retry_count ++ (codes " failed: " ++ error));
    }

-- The second critical section of retryItem; `none` is a nil error.
unfoldable pub finish : Option Bytes → Item → Item
unfolding failed_again
finish none item = record item { retry_count = item.retry_count + 1; status = resolved }
finish (some error) item = failed_again error (record item { retry_count = item.retry_count + 1 })

-- retryItem on the item: the callback sees the item after the first section.
unfoldable pub attempt : (Item → Option Bytes) → ℕ → Item → Item
unfolding begin finish
attempt retry_func now item = finish (retry_func (begin now item)) (begin now item)
