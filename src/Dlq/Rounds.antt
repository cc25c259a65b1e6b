-- ===== src/Dlq/Rounds.antt =====
-- One round of retries: processRetryBatch of internal/dlq/dlq.go, against what it does to each item.
use elasticrelay.Common.{
  ℕ, ◌≡◌, inl, inr, refl, ◌∙◌, Option, none, some, Bool, false, ◌||◌, List, [], ◌∷◌, arith,
  if◌then◌else◌, Option-cases, Bytes, str_eq, str_eq_iff, lookup, modify, IsMap, lookup-modify,
  modify-modify, modify_agree, has_key-lookup,
}
use mathlib.Core.Option
use elasticrelay.Dlq.Item.{Item, begin, finish, attempt}
use elasticrelay.Dlq.Queue.{
  Items, Manager, Round, Write, begin_retry, finish_retry, retry_item, retry_all, select_pending,
  is_eligible, process_retry_batch,
}

pub items-finish_retry :
    (outcome : Option Bytes) (write : Write) (id : Bytes) (d : Manager)
    → (finish_retry outcome write id d).items ≡ modify id (finish outcome) d.items
unfolding finish_retry
items-finish_retry outcome Write.written id d = refl
items-finish_retry outcome (Write.failed rest) id d = refl

-- The two sections of retryItem together write one try of the item back.
pub items-retry_item :
    (r : Round) (id : Bytes) (d : Manager) {item : Item}
    → lookup id d.items ≡ some item
    → (retry_item r id d).items ≡ modify id (attempt r.retry_func (r.tried_at id)) d.items
unfolding retry_item begin_retry attempt
items-retry_item r id d {item} found =
    let now = r.tried_at id in
    rw (found, retry_item)
      (items-finish_retry (r.retry_func (begin now item)) (r.write id) id (begin_retry now id d)
        ∙ modify-modify id _ _ d.items
        ∙ modify_agree id _ _ d.items found refl)

mem_id : Bytes → List Bytes → Bool
mem_id id [] = false
mem_id id (j ∷ ids) = str_eq j id || mem_id id ids

abbrev Distinct : List Bytes → Type 0
Distinct [] = Unit
Distinct (id ∷ ids) = (mem_id id ids ≡ false) × Distinct ids

retried : Round → Bytes → Option Item → Option Item
retried r id = Option.map (attempt r.retry_func (r.tried_at id))

lookup-retry_item :
    (r : Round) (id j : Bytes) (d : Manager)
    → lookup j (retry_item r id d).items
      ≡ (if str_eq id j then retried r id (lookup j d.items) else lookup j d.items)
unfolding retried
lookup-retry_item r id j d = elim (Option-cases (lookup id d.items)) [
  | inl missing ↦
      unfold retry_item in rw (missing, retry_item) (ground (arith, str_eq_iff id j, missing))
  | inr (item, found) ↦ rw (items-retry_item r id d found) (lookup-modify id j _ d.items)
]

lookup-retry_all :
    (r : Round) (ids : List Bytes) (j : Bytes) (d : Manager)
    → Distinct ids
    → lookup j (retry_all r ids d).items
      ≡ (if mem_id j ids then retried r j (lookup j d.items) else lookup j d.items)
unfolding retry_all mem_id
lookup-retry_all r [] j d h = refl
lookup-retry_all r (id ∷ ids) j d h = ground (
  arith,
  lookup-retry_all r ids j (retry_item r id d) h.1,
  lookup-retry_item r id j d,
  str_eq_iff id j,
  h.0,
)

mem_id-select_pending :
    (retry_delay : ℕ) (r : Round) (j : Bytes) (m : Items)
    → IsMap m
    → mem_id j (select_pending retry_delay r m)
      ≡ elim (lookup j m) [ none ↦ false | some item ↦ is_eligible retry_delay (r.seen_at j) item ]
unfolding mem_id select_pending lookup
mem_id-select_pending retry_delay r j [] h = refl
mem_id-select_pending retry_delay r j ((id, item) ∷ m) h =
    ground
      (arith, mem_id-select_pending retry_delay r j m h.1, str_eq_iff id j, has_key-lookup j m, h.0)

select_pending-Distinct :
    (retry_delay : ℕ) (r : Round) (m : Items) → IsMap m → Distinct (select_pending retry_delay r m)
unfolding mem_id select_pending
select_pending-Distinct retry_delay r [] h = tt
select_pending-Distinct retry_delay r ((id, item) ∷ m) h = ground (
  arith,
  select_pending-Distinct retry_delay r m h.1,
  mem_id-select_pending retry_delay r id m h.1,
  has_key-lookup id m,
  h.0,
)

-- What one round should do to an item: try it once if it is eligible when the round looks at it.
abbrev pub one_round : ℕ → Round → Bytes → Item → Item
one_round retry_delay r id item =
    if is_eligible retry_delay (r.seen_at id) item
    then attempt r.retry_func (r.tried_at id) item
    else item

-- If no key stands twice, a round of retries tries each item once that was eligible when the round
-- looked at it, and leaves every other item as it was; no item is added or removed.
pub lookup-process_retry_batch :
    (r : Round) (d : Manager) (id : Bytes)
    → IsMap d.items
    → lookup id (process_retry_batch r d).items
      ≡ Option.map (one_round d.retry_delay r id) (lookup id d.items)
unfolding process_retry_batch retried
lookup-process_retry_batch r d id h =
    let ids = select_pending d.retry_delay r d.items in
    ground (
      arith,
      lookup-retry_all r ids id d (select_pending-Distinct d.retry_delay r d.items h),
      mem_id-select_pending d.retry_delay r id d.items h,
    )
