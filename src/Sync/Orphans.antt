-- ===== src/Sync/Orphans.antt =====
-- The items of the dead letter queue that no job can take: cleanupOrphanedDLQItems of
-- internal/orchestrator/multi_orchestrator.go, on the queue of internal/dlq/dlq.go.
use elasticrelay.Common.{
  ℕ, ◌-◌, Option, none, some, Bool, true, false, not, ◌||◌, ◌&&◌, List, [], ◌∷◌, ltb, if◌then◌else◌,
  Bytes, str_eq, has_key,
}
use elasticrelay.Dlq.Item.{Item, pending, is_pending}
use elasticrelay.Dlq.Queue.{Manager, Write, list_items, discard_item}
use elasticrelay.Dlq.Lookups.{discarded_item}
use elasticrelay.Sync.Retry.{Jobs, first_enabled}
use mathlib.Core.Option

-- An hour, in nanoseconds.
abbrev pub hour : ℕ
hour = 3600000000000

abbrev pub has_enabled : Jobs → Bool
has_enabled jobs = elim (first_enabled jobs) [ none ↦ false | some id ↦ true ]

-- The item's job is gone, no job is enabled, and the item is older than an hour.
unfoldable pub is_orphan : Jobs → ℕ → Item → Bool
is_orphan jobs now item =
    not (has_key (Item.job_id item) jobs)
    && (not (has_enabled jobs) && ltb hour (now - Item.first_failed item))

-- One round over the pending items; the clock and the write of each are parameters.
unfoldable pub discard_orphans :
    Jobs → (Bytes → ℕ) → (Bytes → Write) → List Item → Manager → Manager
discard_orphans jobs clock writes [] d = d
discard_orphans jobs clock writes (item ∷ items) d = discard_orphans jobs clock writes items (
    if is_orphan jobs (clock (Item.id item)) item
    then (discard_item (Item.id item) (writes (Item.id item)) d).0
    else d)

-- A tick of cleanupOrphanedDLQItems.
unfoldable pub cleanup_orphaned_dlq_items : Jobs → (Bytes → ℕ) → (Bytes → Write) → Manager → Manager
cleanup_orphaned_dlq_items jobs clock writes d =
    discard_orphans jobs clock writes (list_items (some pending) 0 d) d

-- Whether some listed item of the id is an orphan.
unfoldable pub marks : Jobs → (Bytes → ℕ) → Bytes → List Item → Bool
marks jobs clock j [] = false
marks jobs clock j (item ∷ items) =
    (str_eq (Item.id item) j && is_orphan jobs (clock (Item.id item)) item)
    || marks jobs clock j items

abbrev pub discarded_if : Bool → Option Item → Option Item
discarded_if b x = if b then Option.map discarded_item x else x

-- What the list of the pending items marks, by the item under the id.
abbrev marked_by : Jobs → (Bytes → ℕ) → Option Item → Bool
marked_by jobs clock none = false
marked_by jobs clock (some item) = is_pending item.status && is_orphan jobs (clock item.id) item
