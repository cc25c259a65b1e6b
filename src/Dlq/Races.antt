-- ===== src/Dlq/Races.antt =====
-- What happens when other methods run between the two critical sections of retryItem, and after a
-- restart in the middle of a retry (internal/dlq/dlq.go).
use elasticrelay.Common.{
  ℕ, ◌+◌, ◌≡◌, ◌≤◌, ◌<◌, ◌⊎◌, leb, Bool-cases, inl, inr, refl, Option, none, some, arith, Bytes,
  str_eq_refl, lookup, lookup-modify,
}
use elasticrelay.Dlq.Item.{Item, resolved, exhausted, pending, begin, finish}
use elasticrelay.Dlq.Queue.{Manager, Write, begin_retry, finish_retry, discard_item}
use elasticrelay.Dlq.Lookups.{discarded_item, lookup-discard_item}
use elasticrelay.Dlq.Rounds.{items-finish_retry}

-- What the second section of a retry makes of an item, with its number of retries before.
abbrev pub IsFinished : Option Bytes → Item → Item → Type 0
IsFinished none item after = after.status ≡ resolved
IsFinished (some error) item after =
    ((after.status ≡ exhausted) × (item.max_retries ≤ item.retry_count + 1))
    ⊎ ((after.status ≡ pending) × (item.retry_count + 1 < item.max_retries))

finish-IsFinished :
    (outcome : Option Bytes) (item : Item)
    → IsFinished outcome item (finish outcome item)
      × ((finish outcome item).retry_count ≡ item.retry_count + 1)
unfolding finish
finish-IsFinished none item = (refl, refl)
finish-IsFinished (some error) item =
    elim (Bool-cases (leb item.max_retries (item.retry_count + 1))) [
      | inl over ↦ rw over (inl (refl, ground (arith, over)), refl)
      | inr under ↦ rw under (inr (refl, ground (arith, under)), refl)
    ]

lookup-finish_retry :
    (outcome : Option Bytes) (write : Write) (id : Bytes) (d : Manager) {item : Item}
    → lookup id d.items ≡ some item
    → lookup id (finish_retry outcome write id d).items ≡ some (finish outcome item)
lookup-finish_retry outcome write id d found =
    rw (items-finish_retry, lookup-modify, str_eq_refl, found)

pub lookup-begin_retry :
    (now : ℕ) (id : Bytes) (d : Manager) {item : Item}
    → lookup id d.items ≡ some item
    → lookup id (begin_retry now id d).items ≡ some (begin now item)
unfolding begin_retry
lookup-begin_retry now id d found = rw (lookup-modify, str_eq_refl, found)

-- An item that is discarded while its callback runs does not stay discarded: the second section of
-- the retry makes it resolved if the callback returns no error, and else exhausted or pending, by whether
-- its retries, with this one, have come to their limit.
pub discard_lost :
    (now : ℕ) (id : Bytes) (write rewrite : Write) (outcome : Option Bytes) (d : Manager)
    {item : Item}
    → lookup id d.items ≡ some item
    → (after : Item) × (lookup id
          (finish_retry outcome rewrite id (discard_item id write (begin_retry now id d)).0).items
        ≡ some after)
      × IsFinished outcome item after
      × (after.retry_count ≡ item.retry_count + 1)
unfolding begin
discard_lost now id write rewrite none d {item} found =
    let marked = discarded_item (begin now item) in
    let gone : lookup id (discard_item id write (begin_retry now id d)).0.items ≡ some marked =
      rw (lookup-discard_item, str_eq_refl, lookup-begin_retry now id d found) in
    let (status, counted) = finish-IsFinished none marked in
    (finish none marked, lookup-finish_retry none rewrite id _ gone, status, counted)
discard_lost now id write rewrite (some error) d {item} found =
    let marked = discarded_item (begin now item) in
    let gone : lookup id (discard_item id write (begin_retry now id d)).0.items ≡ some marked =
      rw (lookup-discard_item, str_eq_refl, lookup-begin_retry now id d found) in
    let (status, counted) = finish-IsFinished (some error) marked in
    (
      finish (some error) marked,
      lookup-finish_retry (some error) rewrite id _ gone,
      status,
      counted,
    )
