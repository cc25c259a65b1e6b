-- ===== src/Dlq/Invariant.antt =====
-- The invariant of the queue's map, kept by every operation of internal/dlq/dlq.go.
use elasticrelay.Common.{
  ℕ, ◌≤◌, ◌<◌, ◌≡◌, ◌⊎◌, inl, inr, refl, Option, some, false, List, [], ◌∷◌, arith, ltb, Bool-cases,
  Option-cases, Bytes, lookup, has_key, IsMap, AllEntries, insert-IsMap, modify-IsMap,
  insert-AllEntries, modify-AllEntries, lookup-AllEntries, AllEntries-of_lookup,
}
use elasticrelay.Dlq.Item.{Item, pending, exhausted, resolved, discarded, begin, attempt}
use elasticrelay.Dlq.Queue.{
  Items, Manager, Round, Write, written, failed, save_to_disk, dedupe_key, has_active, Failure,
  new_item, add_failed_event, is_eligible, select_pending, retry_item, retry_all,
  process_retry_batch, discard_item, is_stale, sweep, cleanup_resolved,
}
use mathlib.Core.Path.{subst}
use elasticrelay.Dlq.Rounds.{items-retry_item, one_round, lookup-process_retry_batch}

-- An item stands under its own id, its retries never pass its limit, and its status fits them.
pub record IsSound (id : Bytes) (item : Item) : Type 0 where
  pub named : item.id ≡ id
  pub counted : item.retry_count ≤ item.max_retries
  pub open_tries :
      item.status ≡ pending → (item.retry_count < item.max_retries) ⊎ (item.retry_count ≡ 0)
  pub spent : item.status ≡ exhausted → item.retry_count ≡ item.max_retries
  pub tried : item.status ≡ resolved → 0 < item.retry_count

pub record IsValid (d : Manager) : Type 0 where
  pub keyed : IsMap d.items
  pub sound : AllEntries IsSound d.items

new_item-IsSound : (n : ℕ) (f : Failure) → IsSound (new_item n f).id (new_item n f)
unfolding new_item
new_item-IsSound n f = ground arith

attempt-IsSound :
    (retry_func : Item → Option Bytes) (now : ℕ) (id : Bytes) (item : Item)
    → item.retry_count < item.max_retries
    → IsSound id item
    → IsSound id (attempt retry_func now item)
unfolding attempt
attempt-IsSound retry_func now id item room h = elim (Option-cases (retry_func (begin now item))) [
  | inl fine ↦ rw fine (ground arith)
  | inr (error, bad) ↦ rw bad (ground arith)
]

discard-IsSound :
    (id : Bytes) (item : Item) → IsSound id item → IsSound id (record item { status = discarded })
discard-IsSound id item h = ground arith

save_to_disk-IsValid : (write : Write) (d : Manager) → IsValid d → IsValid (save_to_disk write d).0
unfolding save_to_disk
save_to_disk-IsValid written d h = record { keyed = h.keyed; sound = h.sound }
save_to_disk-IsValid (failed rest) d h = record { keyed = h.keyed; sound = h.sound }

-- AddFailedEvent keeps the invariant, whether it adds an item or refuses a duplicate.
pub add_failed_event-IsValid :
    (f : Failure) (write : Write) (d : Manager) → IsValid d → IsValid (add_failed_event f write d).0
unfolding add_failed_event
add_failed_event-IsValid f write d h =
    let item = new_item d.max_retries f in
    elim (Bool-cases (has_active (dedupe_key f.job_id f.event f.checkpoint) d.items)) [
      | inl old ↦ rw old h
      | inr new ↦ rw new (
          save_to_disk-IsValid write _ (record {
            keyed = insert-IsMap item.id item d.items h.keyed;
            sound =
                insert-AllEntries IsSound item.id item d.items (new_item-IsSound d.max_retries f)
                  h.sound;
          }))
    ]

retry_item-IsMap :
    (r : Round) (id : Bytes) (d : Manager) → IsMap d.items → IsMap (retry_item r id d).items
retry_item-IsMap r id d h = elim (Option-cases (lookup id d.items)) [
  | inl absent ↦ unfold retry_item in rw (absent, retry_item) h
  | inr (item, found) ↦ rw (items-retry_item r id d found) (modify-IsMap id _ d.items h)
]

retry_all-IsMap :
    (r : Round) (ids : List Bytes) (d : Manager) → IsMap d.items → IsMap (retry_all r ids d).items
unfolding retry_all
retry_all-IsMap r [] d h = h
retry_all-IsMap r (id ∷ ids) d h =
    retry_all-IsMap r ids (retry_item r id d) (retry_item-IsMap r id d h)

one_round-IsSound :
    (retry_delay : ℕ) (r : Round) (id : Bytes) (item : Item)
    → IsSound id item
    → IsSound id (one_round retry_delay r id item)
unfolding is_eligible
one_round-IsSound retry_delay r id item h =
    elim (Bool-cases (is_eligible retry_delay (r.seen_at id) item)) [
      | inl due ↦ rw due (attempt-IsSound r.retry_func (r.tried_at id) id item (ground arith) h)
      | inr idle ↦ rw idle h
    ]

batch_item-IsSound :
    (r : Round) (d : Manager)
    → IsValid d
    → (id : Bytes) (item : Item) → lookup id (process_retry_batch r d).items ≡ some item
    → IsSound id item
batch_item-IsSound r d h id item found =
    let moved = lookup-process_retry_batch r d id h.keyed in
    elim (Option-cases (lookup id d.items)) [
      | inl absent ↦ absurd (ground (arith, moved, absent, found))
      | inr (old, was) ↦
          let same : one_round d.retry_delay r id old ≡ item = ground (arith, moved, was, found) in
          subst (IsSound id) same (
            one_round-IsSound d.retry_delay r id old
              (lookup-AllEntries IsSound id d.items h.sound was))
    ]

-- A round of retries keeps the invariant, whatever the callback returns.
pub process_retry_batch-IsValid :
    (r : Round) (d : Manager) → IsValid d → IsValid (process_retry_batch r d)
process_retry_batch-IsValid r d h =
    let keyed : IsMap (process_retry_batch r d).items =
      unfold process_retry_batch in
      retry_all-IsMap r (select_pending d.retry_delay r d.items) d h.keyed in
    record {
      keyed = keyed;
      sound =
          AllEntries-of_lookup IsSound (process_retry_batch r d).items keyed
            (λ id item found. batch_item-IsSound r d h id item found);
    }

-- DiscardItem keeps the invariant, also when it does not find the item.
pub discard_item-IsValid :
    (id : Bytes) (write : Write) (d : Manager) → IsValid d → IsValid (discard_item id write d).0
unfolding discard_item
discard_item-IsValid id write d h = elim (Option-cases (lookup id d.items)) [
  | inl absent ↦ rw (absent, discard_item) h
  | inr (item, found) ↦
      rw (found, discard_item)
        (save_to_disk-IsValid write _ (record {
          keyed = modify-IsMap id _ d.items h.keyed;
          sound = modify-AllEntries IsSound id _ d.items (λ it _. discard-IsSound id it) h.sound;
        }))
]

sweep-IsValid :
    (cutoff : ℕ) (m : Items)
    → IsMap m
    → AllEntries IsSound m
    → ((k : Bytes) → has_key k m ≡ false → has_key k (sweep cutoff m).0 ≡ false)
      × IsMap (sweep cutoff m).0
      × AllEntries IsSound (sweep cutoff m).0
unfolding sweep has_key
sweep-IsValid cutoff [] u h = (λ k e. refl, tt, tt)
sweep-IsValid cutoff ((id, item) ∷ m) u h =
    let (keys, keyed, sound) = sweep-IsValid cutoff m u.1 h.1 in
    elim (Bool-cases (is_stale cutoff item)) [
      | inl stale ↦ rw stale (λ k e. keys k (ground (arith, e)), keyed, sound)
      | inr fresh ↦ rw fresh (λ k e. ground (arith, keys k, e), (keys id u.0, keyed), (h.0, sound))
    ]

-- CleanupResolved keeps the invariant.
pub cleanup_resolved-IsValid :
    (cutoff : ℕ) (write : Write) (d : Manager)
    → IsValid d
    → IsValid (cleanup_resolved cutoff write d).0
unfolding cleanup_resolved
cleanup_resolved-IsValid cutoff write d h =
    let (keys, keyed, sound) = sweep-IsValid cutoff d.items h.keyed h.sound in
    let kept : IsValid (record d { items = (sweep cutoff d.items).0 }) = record {
      keyed = keyed;
      sound = sound;
    } in
    elim (Bool-cases (ltb 0 (sweep cutoff d.items).1)) [
      | inl some_gone ↦ rw some_gone (save_to_disk-IsValid write _ kept)
      | inr none_gone ↦ rw none_gone kept
    ]

-- The calls of the queue's methods, one after another, each with any arguments.
pub data Step : Manager → Manager → Type 0 where
  add : (f : Failure) (write : Write) (d : Manager) → Step d (add_failed_event f write d).0
  retry : (r : Round) (d : Manager) → Step d (process_retry_batch r d)
  discard : (id : Bytes) (write : Write) (d : Manager) → Step d (discard_item id write d).0
  cleanup : (cutoff : ℕ) (write : Write) (d : Manager) → Step d (cleanup_resolved cutoff write d).0

pub data Reach (s : Manager) : Manager → Type 0 where
  here : Reach s s
  next : {d e : Manager} → Reach s d → Step d e → Reach s e

pub Step-IsValid : {d e : Manager} → Step d e → IsValid d → IsValid e
Step-IsValid (add f write d) h = add_failed_event-IsValid f write d h
Step-IsValid (retry r d) h = process_retry_batch-IsValid r d h
Step-IsValid (discard id write d) h = discard_item-IsValid id write d h
Step-IsValid (cleanup cutoff write d) h = cleanup_resolved-IsValid cutoff write d h

-- After any sequence of AddFailedEvent, retry rounds, DiscardItem and CleanupResolved on a valid
-- queue, each item stands once, under its own id; no retry count passes its limit; an exhausted item
-- has used all its retries, a resolved one at least one, and a pending one has a retry left or was
-- never tried.
pub Reach-IsValid : {d e : Manager} → IsValid d → Reach d e → IsValid e
Reach-IsValid h here = h
Reach-IsValid h (next r step) = Step-IsValid step (Reach-IsValid h r)
