-- ===== src/Dlq/Dedupe.antt =====
-- The duplicate check of AddFailedEvent (internal/dlq/dlq.go): what its key tells apart, and what it
-- keeps true of the queue.
use elasticrelay.Common.{
  ℕ, ◌≡◌, ◌↔◌, inl, inr, refl, sym, ap, ◌∙◌, Option, none, some, true, false, [], ◌∷◌, ◌++◌, arith,
  Bool-cases, Option-cases, Bytes, str_eq, str_eq_iff, str_eq_refl, Lacks, lookup, insert, IsMap,
  lookup-insert,
}
use elasticrelay.Gateway.{Checkpoint, ChangeEvent}
use elasticrelay.Dlq.Item.{Item, is_active, begin, attempt}
use elasticrelay.Dlq.Queue.{
  Items, Manager, Round, Write, binlog_pos, dedupe_key, item_key, has_active, duplicate, Failure,
  new_item, add_failed_event, is_eligible, process_retry_batch, discard_item, cleanup_resolved,
}
use elasticrelay.Dlq.Lookups.{
  items-save_to_disk, lookup-discard_item, lookup-sweep, items-cleanup_resolved,
}
use elasticrelay.Dlq.Rounds.{one_round, lookup-process_retry_batch}
use elasticrelay.Dlq.Invariant.{IsValid, Step, Reach, Reach-IsValid}

split_at :
    (b : ℕ) (x y r s : Bytes)
    → Lacks b x
    → Lacks b y
    → x ++ (b ∷ r) ≡ y ++ (b ∷ s)
    → (x ≡ y) × (r ≡ s)
split_at b [] [] r s lx ly e = ground arith
split_at b [] (c ∷ y) r s lx ly e = ground arith
split_at b (c ∷ x) [] r s lx ly e = ground arith
split_at b (c ∷ x) (c' ∷ y) r s lx ly e = ground (arith, split_at b x y r s lx.1 ly.1)

-- If no job id and no primary key holds a vertical bar, two keys are equal exactly when the job ids,
-- the primary keys and the texts of the binlog positions are.
pub dedupe_key_iff :
    (j j' : Bytes) (e e' : ChangeEvent) (c c' : Option Checkpoint)
    → Lacks b'|' j
    → Lacks b'|' j'
    → Lacks b'|' e.primary_key
    → Lacks b'|' e'.primary_key
    → (dedupe_key j e c ≡ dedupe_key j' e' c')
      ↔ ((j ≡ j') × (e.primary_key ≡ e'.primary_key) × (binlog_pos c ≡ binlog_pos c'))
unfolding dedupe_key
dedupe_key_iff j j' e e' c c' lj lj' le le' = (
  λ same.
      let (jobs, rest) = split_at b'|' j j' _ _ lj lj' same in
      let (keys, places) = split_at b'|' e.primary_key e'.primary_key _ _ le le' rest in
      (jobs, keys, places),
  λ (jobs, keys, places). cc,
)

pub has_active_of_lookup :
    (key id : Bytes) (m : Items) {item : Item}
    → lookup id m ≡ some item
    → item_key item ≡ key
    → is_active item.status ≡ true
    → has_active key m ≡ true
unfolding has_active lookup
has_active_of_lookup key id [] found same active = cc
has_active_of_lookup key id ((i, it) ∷ m) {item} found same active =
    elim (Bool-cases (str_eq i id)) [
      | inl here ↦
          let e : it ≡ item = ground (arith, here, found) in
          rw e (rw (same, str_eq_refl key, active))
      | inr later ↦ ground (arith, has_active_of_lookup key id m (rw later at found) same active)
    ]

-- A checkpoint that carries no binlog file, as those of PostgreSQL and MongoDB do.
abbrev pub NoBinlog : Option Checkpoint → Type 0
NoBinlog none = Unit
NoBinlog (some c) = c.mysql_binlog_file ≡ []

binlog_pos-NoBinlog : (c : Option Checkpoint) → NoBinlog c → binlog_pos c ≡ []
unfolding binlog_pos
binlog_pos-NoBinlog none h = refl
binlog_pos-NoBinlog (some c) h = rw (h, str_eq_refl [])

-- While an item of a job and primary key waits for a retry, each later failure of the same job and
-- primary key is refused and leaves the queue as it was, whatever its data and its source position,
-- if neither checkpoint carries a MySQL binlog file.
pub add_without_binlog :
    (f : Failure) (write : Write) (d : Manager) (id : Bytes) {item : Item}
    → lookup id d.items ≡ some item
    → is_active item.status ≡ true
    → item.job_id ≡ f.job_id
    → item.event.primary_key ≡ f.event.primary_key
    → NoBinlog item.checkpoint
    → NoBinlog f.checkpoint
    → add_failed_event f write d ≡ (d, duplicate)
unfolding add_failed_event dedupe_key
add_without_binlog f write d id {item} found active jobs keys n n' =
    let same : item_key item ≡ dedupe_key f.job_id f.event f.checkpoint =
      cc (jobs, keys, binlog_pos-NoBinlog item.checkpoint n, binlog_pos-NoBinlog f.checkpoint n') in
    rw (has_active_of_lookup _ id d.items found same active)

-- At most one item of each key waits for a retry.
abbrev pub UniqueActive : Items → Type 0
UniqueActive m =
    (i j : Bytes) (a b : Item)
    → lookup i m ≡ some a
    → lookup j m ≡ some b
    → is_active a.status ≡ true
    → is_active b.status ≡ true
    → item_key a ≡ item_key b
    → i ≡ j

-- One map comes from another by changes that keep keys and activate nothing.
abbrev Calmer : Items → Items → Type 0
Calmer m m' =
    (i : Bytes) (a : Item)
    → lookup i m' ≡ some a
    → is_active a.status ≡ true
    → (b : Item) × (lookup i m ≡ some b) × (is_active b.status ≡ true) × (item_key b ≡ item_key a)

UniqueActive-of_Calmer : (m m' : Items) → Calmer m m' → UniqueActive m → UniqueActive m'
UniqueActive-of_Calmer m m' calm u i j a b la lb xa xb same =
    let (a', la', xa', sa) = calm i a la xa in
    let (b', lb', xb', sb) = calm j b lb xb in u i j a' b' la' lb' xa' xb' (sa ∙ same ∙ sym sb)

-- The new item's own entry, and an old one that is not replaced.
inserted :
    (id i : Bytes) (item : Item) (m : Items) {a : Item}
    → str_eq id i ≡ true
    → lookup i (insert id item m) ≡ some a
    → item ≡ a
inserted id i item m p l = ground (arith, lookup-insert id i item m, p, l)

kept :
    (id i : Bytes) (item : Item) (m : Items) {a : Item}
    → str_eq id i ≡ false
    → lookup i (insert id item m) ≡ some a
    → lookup i m ≡ some a
kept id i item m p l = ground (arith, lookup-insert id i item m, p, l)

clash :
    (key i : Bytes) (m : Items) {b : Item}
    → has_active key m ≡ false
    → lookup i m ≡ some b
    → is_active b.status ≡ true
    → item_key b ≡ key
    → ⊥
clash key i m h l x same = cc (has_active_of_lookup key i m l same x, h)

insert-UniqueActive :
    (id : Bytes) (item : Item) (m : Items)
    → has_active (item_key item) m ≡ false
    → UniqueActive m
    → UniqueActive (insert id item m)
insert-UniqueActive id item m h u i j a b la lb xa xb same = elim (Bool-cases (str_eq id i)) [
  | inl p ↦ elim (Bool-cases (str_eq id j)) [
    | inl q ↦ cc ((str_eq_iff id i).0 p, (str_eq_iff id j).0 q)
    | inr q ↦ absurd (
        clash (item_key item) j m h (kept id j item m q lb) xb
          (sym same ∙ ap item_key (sym (inserted id i item m p la))))
  ]
  | inr p ↦ elim (Bool-cases (str_eq id j)) [
    | inl q ↦ absurd (
        clash (item_key item) i m h (kept id i item m p la) xa
          (same ∙ ap item_key (sym (inserted id j item m q lb))))
    | inr q ↦ u i j a b (kept id i item m p la) (kept id j item m q lb) xa xb same
  ]
]

new_item_key :
    (n : ℕ) (f : Failure) → item_key (new_item n f) ≡ dedupe_key f.job_id f.event f.checkpoint
unfolding new_item
new_item_key n f = refl

add_failed_event-UniqueActive :
    (f : Failure) (write : Write) (d : Manager)
    → UniqueActive d.items
    → UniqueActive (add_failed_event f write d).0.items
unfolding add_failed_event
add_failed_event-UniqueActive f write d u =
    let item = new_item d.max_retries f in
    elim (Bool-cases (has_active (dedupe_key f.job_id f.event f.checkpoint) d.items)) [
      | inl old ↦ rw old u
      | inr new ↦ rw new (
          rw (items-save_to_disk write _)
            (insert-UniqueActive item.id item d.items (rw (new_item_key d.max_retries f) new) u))
    ]

item_key-attempt :
    (retry_func : Item → Option Bytes) (now : ℕ) (item : Item)
    → item_key (attempt retry_func now item) ≡ item_key item
unfolding attempt
item_key-attempt retry_func now item = elim (Option-cases (retry_func (begin now item))) [
  | inl fine ↦ rw fine
  | inr (error, bad) ↦ rw bad (ground arith)
]

one_round_calm :
    (retry_delay : ℕ) (r : Round) (id : Bytes) (item : Item)
    → is_active (one_round retry_delay r id item).status ≡ true
    → (is_active item.status ≡ true) × (item_key item ≡ item_key (one_round retry_delay r id item))
unfolding is_eligible
one_round_calm retry_delay r id item x =
    elim (Bool-cases (is_eligible retry_delay (r.seen_at id) item)) [
      | inl due ↦
          rw due (ground (arith, due), sym (item_key-attempt r.retry_func (r.tried_at id) item))
      | inr idle ↦ rw idle (rw idle at x, refl)
    ]

process_retry_batch-UniqueActive :
    (r : Round) (d : Manager)
    → IsMap d.items
    → UniqueActive d.items
    → UniqueActive (process_retry_batch r d).items
process_retry_batch-UniqueActive r d keyed = UniqueActive-of_Calmer d.items _ λ i a found x.
    let moved = lookup-process_retry_batch r d i keyed in
    elim (Option-cases (lookup i d.items)) [
      | inl absent ↦ absurd (ground (arith, moved, absent, found))
      | inr (old, was) ↦
          let same : one_round d.retry_delay r i old ≡ a = ground (arith, moved, was, found) in
          let (active, key) = one_round_calm d.retry_delay r i old (rw same x) in
          (old, was, active, key ∙ ap item_key same)
    ]

discard_item-UniqueActive :
    (id : Bytes) (write : Write) (d : Manager)
    → UniqueActive d.items
    → UniqueActive (discard_item id write d).0.items
discard_item-UniqueActive id write d = UniqueActive-of_Calmer d.items _ λ i a found x.
    let moved = lookup-discard_item id i write d in (a, ground (arith, moved, found, x), x, refl)

cleanup_resolved-UniqueActive :
    (cutoff : ℕ) (write : Write) (d : Manager)
    → IsMap d.items
    → UniqueActive d.items
    → UniqueActive (cleanup_resolved cutoff write d).0.items
cleanup_resolved-UniqueActive cutoff write d keyed = UniqueActive-of_Calmer d.items _ λ i a found x.
    let left = lookup-sweep cutoff i d.items keyed in
    let same = items-cleanup_resolved cutoff write d in
    (a, ground (arith, left, same, found, x), x, refl)

Step-UniqueActive :
    {d e : Manager} → Step d e → IsValid d → UniqueActive d.items → UniqueActive e.items
Step-UniqueActive (Step.add f write d) h u = add_failed_event-UniqueActive f write d u
Step-UniqueActive (Step.retry r d) h u = process_retry_batch-UniqueActive r d h.keyed u
Step-UniqueActive (Step.discard id write d) h u = discard_item-UniqueActive id write d u
Step-UniqueActive (Step.cleanup cutoff write d) h u =
    cleanup_resolved-UniqueActive cutoff write d h.keyed u

-- From a valid queue in which at most one item of each key waits for a retry (is pending or
-- retrying), every sequence of calls, each made when the one before has returned, leads to a queue
-- in which at most one does.
pub Reach-UniqueActive :
    {d e : Manager} → IsValid d → UniqueActive d.items → Reach d e → UniqueActive e.items
Reach-UniqueActive h u Reach.here = u
Reach-UniqueActive h u (Reach.next r step) =
    Step-UniqueActive step (Reach-IsValid h r) (Reach-UniqueActive h u r)
