-- ===== src/Dlq/Attempts.antt =====
-- How the tries of one item go on: retryItem of internal/dlq/dlq.go, repeated.
use elasticrelay.Common.{
  ℕ, ◌+◌, ◌≤◌, ◌<◌, ◌≡◌, ◌≢◌, ◌↔◌, inl, inr, Option, none, some, List, [], ◌∷◌, arith, leb,
  if◌then◌else◌, Option-cases, length, Bytes,
}
use elasticrelay.Dlq.Item.{Item, pending, exhausted, resolved, begin, attempt}

-- Successive calls of retryItem, the earliest at the clock's last reading in the list's order.
abbrev pub attempts : (Item → Option Bytes) → List ℕ → Item → Item
attempts retry_func [] item = item
attempts retry_func (now ∷ clock) item = attempts retry_func clock (attempt retry_func now item)

-- The callback fails on every item.
abbrev pub Fails : (Item → Option Bytes) → Type 0
Fails retry_func = (item : Item) → (error : Bytes) × (retry_func item ≡ some error)

attempt_fails :
    (retry_func : Item → Option Bytes) (now : ℕ) (item : Item) {error : Bytes}
    → retry_func (begin now item) ≡ some error
    → ((attempt retry_func now item).retry_count ≡ item.retry_count + 1)
      × ((attempt retry_func now item).max_retries ≡ item.max_retries)
      × ((attempt retry_func now item).status
          ≡ (if leb item.max_retries (item.retry_count + 1) then exhausted else pending))
unfolding attempt
attempt_fails retry_func now item h = rw h (ground arith)

-- One try of an item: it counts as one retry whatever happens. The item is resolved exactly when the
-- callback returns no error; otherwise it is exhausted when the retry limit is reached, and pending
-- again when it is not. Nothing that identifies the item changes.
pub attempt_outcome :
    (retry_func : Item → Option Bytes) (now : ℕ) (item : Item)
    → let item' = attempt retry_func now item in
      (item'.retry_count ≡ item.retry_count + 1)
      × (item'.last_retried ≡ some now)
      × ((item'.status ≡ resolved) ↔ (retry_func (begin now item) ≡ none))
      × ((item'.status ≡ exhausted)
          ↔ ((retry_func (begin now item) ≢ none) × (item.max_retries ≤ item.retry_count + 1)))
      × ((item'.status ≡ pending)
          ↔ ((retry_func (begin now item) ≢ none) × (item.retry_count + 1 < item.max_retries)))
      × (item'.id ≡ item.id)
      × (item'.job_id ≡ item.job_id)
      × (item'.event ≡ item.event)
      × (item'.checkpoint ≡ item.checkpoint)
      × (item'.max_retries ≡ item.max_retries)
unfolding attempt
attempt_outcome retry_func now item = elim (Option-cases (retry_func (begin now item))) [
  | inl fine ↦ rw fine (ground arith)
  | inr (error, bad) ↦ rw bad (ground arith)
]

module _ (retry_func : Item → Option Bytes) (fails : Fails retry_func) where
  -- An item whose callback always fails stays pending for as many tries as are left but one.
  pub attempts_pending :
      (clock : List ℕ) (item : Item)
      → item.status ≡ pending
      → item.retry_count + length clock < item.max_retries
      → ((attempts retry_func clock item).status ≡ pending)
        × ((attempts retry_func clock item).retry_count ≡ item.retry_count + length clock)
        × ((attempts retry_func clock item).max_retries ≡ item.max_retries)
  attempts_pending [] item p few = ground arith
  attempts_pending (now ∷ clock) item p few =
      let (counted, same, status) = attempt_fails retry_func now item (fails (begin now item)).1 in
      ground (arith, attempts_pending clock (attempt retry_func now item), counted, same, status)

  -- An item whose callback always fails is exhausted, its retries counted up to the limit, when as many
  -- tries have been made as were left.
  pub attempts_exhausted :
      (clock : List ℕ) (item : Item)
      → item.status ≡ pending
      → item.retry_count < item.max_retries
      → item.retry_count + length clock ≡ item.max_retries
      → ((attempts retry_func clock item).status ≡ exhausted)
        × ((attempts retry_func clock item).retry_count ≡ item.max_retries)
  attempts_exhausted [] item p room last = absurd (omega arith)
  attempts_exhausted (now ∷ []) item p room last =
      let (counted, same, status) = attempt_fails retry_func now item (fails (begin now item)).1 in
      ground (arith, counted, same, status)
  attempts_exhausted (now ∷ next ∷ clock) item p room last =
      let (counted, same, status) = attempt_fails retry_func now item (fails (begin now item)).1 in
      ground (
        arith,
        attempts_exhausted (next ∷ clock) (attempt retry_func now item),
        counted,
        same,
        status,
      )
