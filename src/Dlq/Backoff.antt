-- ===== src/Dlq/Backoff.antt =====
-- shouldRetry of internal/dlq/dlq.go: the exponential backoff, in 64-bit arithmetic.
use elasticrelay.Common.{ℕ, ◌+◌, ◌*◌, ◌%◌, ◌^◌, none, some, Bool, true, leb, if◌then◌else◌}
use elasticrelay.Dlq.Item.{Item}

-- d.retryDelay * time.Duration(1<<item.RetryCount): a time.Duration is an int64, so the product is
-- taken modulo 2 ^ 64; a result from 2 ^ 63 on is a negative duration.
unfoldable pub backoff_word : ℕ → ℕ → ℕ
backoff_word retry_delay retry_count = (retry_delay * 2 ^ retry_count) % 2 ^ 64

-- time.Since(last) >= backoffDelay, in integers: the clock may stand behind `last`, which a file can
-- hold. That time.Since stops at the bounds of int64 makes no difference to the comparison but for
-- times that are centuries apart.
unfoldable pub should_retry : ℕ → ℕ → Item → Bool
unfolding backoff_word
should_retry retry_delay now item = elim item.last_retried [
  | none ↦ true
  | some last ↦
      let delay = backoff_word retry_delay item.retry_count in
      if leb (2 ^ 63) delay then leb (last + delay) (now + 2 ^ 64) else leb (last + delay) now
]
