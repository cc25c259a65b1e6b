-- ===== src/Dlq/Delays.antt =====
-- What the backoff of shouldRetry amounts to after a failed try (internal/dlq/dlq.go).
use elasticrelay.Common.{
  ℕ, ◌+◌, ◌*◌, ◌^◌, ◌≤◌, ◌<◌, ◌≡◌, ◌↔◌, Option, Bytes, Bool, ◌&&◌, some, true, arith,
}
use native.Mathlib.Nat.{mod-eq_of_lt}
use mathlib.Core.Path.{subst}
use elasticrelay.Dlq.Item.{Item, Status, pending, is_pending, begin, attempt}
use elasticrelay.Dlq.Queue.{is_eligible}
use elasticrelay.Dlq.Attempts.{attempt_outcome}
use elasticrelay.Dlq.Backoff.{backoff_word, should_retry}

due :
    (retry_delay now last : ℕ) (item : Item)
    → item.last_retried ≡ some last
    → retry_delay * 2 ^ item.retry_count < 2 ^ 63
    → (should_retry retry_delay now item ≡ true) ↔ (last + retry_delay * 2 ^ item.retry_count ≤ now)
unfolding should_retry
due retry_delay now last item tried small =
    let delay = retry_delay * 2 ^ item.retry_count in
    let e : backoff_word retry_delay item.retry_count ≡ delay =
      unfold backoff_word in mod-eq_of_lt (omega arith) in
    rw tried (rw e (ground arith))

parts :
    (s : Status) {b c : Bool}
    → (is_pending s && b && c) ≡ true
    → (s ≡ pending) × (b ≡ true) × (c ≡ true)
parts s h = ground arith

-- After a try at the time t that fails, an item is eligible for the next round exactly when its retries, with
-- this one, are below their limit, and the delay doubled once for each of them has passed since t. This is
-- so while that delay stays below 2 ^ 63 nanoseconds.
pub attempt-is_eligible :
    (retry_func : Item → Option Bytes) (retry_delay t now : ℕ) (item : Item) {error : Bytes}
    → retry_func (begin t item) ≡ some error
    → retry_delay * 2 ^ (item.retry_count + 1) < 2 ^ 63
    → (is_eligible retry_delay now (attempt retry_func t item) ≡ true) ↔ (
        (item.retry_count + 1 < item.max_retries)
        × (t + retry_delay * 2 ^ (item.retry_count + 1) ≤ now))
unfolding is_eligible
attempt-is_eligible retry_func retry_delay t now item fails small =
    let tried = attempt retry_func t item in
    let outcome = attempt_outcome retry_func t item in
    let small' : retry_delay * 2 ^ tried.retry_count < 2 ^ 63 = rw (outcome.0) small in
    let when_due : (should_retry retry_delay now tried ≡ true)
        ↔ (t + retry_delay * 2 ^ (item.retry_count + 1) ≤ now) =
      subst (λ n. (should_retry retry_delay now tried ≡ true) ↔ (t + retry_delay * 2 ^ n ≤ now))
        outcome.0 (due retry_delay now t tried outcome.1 small') in
    (
      λ eligible.
          let (waits, tries, passed) = parts tried.status eligible in
          ((outcome.4.0 waits).1, when_due.0 passed),
      λ (more, passed).
          let waits : tried.status ≡ pending = outcome.4.1 (λ fine. absurd (cc), more) in
          rw (when_due.1 passed) (rw waits (ground (arith, outcome, more))),
    )
