-- ===== src/Dlq/Restarts.antt =====
-- A restart in the middle of a retry: retryItem, saveToDisk and loadFromDisk of internal/dlq/dlq.go.
use elasticrelay.Common.{ℕ, ◌≡◌, some, List, [], ◌∷◌, Bytes, lookup}
use elasticrelay.Dlq.Item.{Item}
use elasticrelay.Dlq.Queue.{Manager, Round, Write, process_retry_batch, cleanup_resolved}
use elasticrelay.Dlq.Invariant.{IsValid}

-- What runs by itself: rounds of retries and clean-ups.
pub data Call : Type 0 where
  round : Round → Call
  cleanup : ℕ → Write → Call

unfoldable pub run_calls : List Call → Manager → Manager
run_calls [] d = d
run_calls (round r ∷ calls) d = run_calls calls (process_retry_batch r d)
run_calls (cleanup cutoff write ∷ calls) d = run_calls calls (cleanup_resolved cutoff write d).0

IsStuck : Bytes → Item → Manager → Type 0
IsStuck id item d = IsValid d × (lookup id d.items ≡ some item)
