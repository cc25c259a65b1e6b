-- ===== src/Dlq/Views.antt =====
-- What the queue reports and removes: GetStats, ListItems and CleanupResolved of internal/dlq/dlq.go.
use elasticrelay.Common.{
  ℕ, zero, suc, ◌+◌, ◌≡◌, inl, inr, refl, ap, Option, none, some, not, List, [], ◌∷◌, arith, ◌==◌,
  if◌then◌else◌, Bool-cases, length, Bytes,
}
use elasticrelay.Common.{take, select}
use elasticrelay.Dlq.Item.{Item, Status, pending, retrying, exhausted, resolved, discarded}
use elasticrelay.Dlq.Queue.{
  Items, Manager, Write, written, failed, Stats, count_status, count_items, get_stats, no_counts,
  same_status, wanted, list_loop, list_items, is_stale, sweep, cleanup_resolved,
}

unfoldable pub values : Items → List Item
values [] = []
values ((id, item) ∷ m) = item ∷ values m

list_loop_unlimited :
    (status : Option Status) (count : ℕ) (m : Items)
    → list_loop status 0 count m ≡ select (wanted status) (values m)
unfolding list_loop values
list_loop_unlimited status count [] = refl
list_loop_unlimited status count ((id, item) ∷ m) =
    ground (arith, list_loop_unlimited status (count + 1) m, list_loop_unlimited status count m)

list_loop_limited :
    (status : Option Status) (limit count left : ℕ) (m : Items)
    → limit ≡ count + suc left
    → list_loop status limit count m ≡ take (suc left) (select (wanted status) (values m))
unfolding list_loop values
list_loop_limited status limit count left [] h = refl
list_loop_limited status limit count zero ((id, item) ∷ m) h =
    ground (arith, list_loop_limited status limit count zero m)
list_loop_limited status limit count (suc left) ((id, item) ∷ m) h = ground (
  arith,
  list_loop_limited status limit (count + 1) left m,
  list_loop_limited status limit count (suc left) m,
)

-- ListItems gives the items of the wanted status, in the order of the iteration: all of them when the
-- limit is 0, and otherwise the first ones up to the limit.
pub list_items_lem :
    (status : Option Status) (limit : ℕ) (d : Manager)
    → list_items status limit d ≡ (
        if limit == 0
        then select (wanted status) (values d.items)
        else take limit (select (wanted status) (values d.items)))
unfolding list_items
list_items_lem status zero d = list_loop_unlimited status 0 d.items
list_items_lem status (suc n) d =
    rw (list_loop_limited status (suc n) 0 n d.items (omega arith)) (ground arith)

pub stat_of : Status → Stats → ℕ
stat_of pending s = s.pending_count
stat_of retrying s = s.retrying_count
stat_of exhausted s = s.exhausted_count
stat_of resolved s = s.resolved_count
stat_of discarded s = s.discarded_count

stat_of-count_status :
    (status other : Status) (s : Stats)
    → stat_of status (count_status other s)
      ≡ stat_of status s + (if same_status other status then 1 else 0)
unfolding stat_of count_status
stat_of-count_status status other s = ground arith

stat_of-count_items :
    (status : Status) (m : Items) (s : Stats)
    → stat_of status (count_items m s)
      ≡ stat_of status s + length (select (wanted (some status)) (values m))
unfolding count_items values
stat_of-count_items status [] s = omega arith
stat_of-count_items status ((id, item) ∷ m) s = ground (
  arith,
  stat_of-count_items status m (count_status item.status s),
  stat_of-count_status status item.status s,
)

stat_of-no_counts : (status : Status) (n : ℕ) → stat_of status (no_counts n) ≡ 0
unfolding stat_of
stat_of-no_counts status n = ground arith

total-count_items : (m : Items) (s : Stats) → (count_items m s).total ≡ s.total
unfolding count_items count_status
total-count_items [] s = refl
total-count_items ((id, item) ∷ m) s =
    ground (arith, total-count_items m (count_status item.status s))

length-values : (m : Items) → length (select (wanted none) (values m)) ≡ length m
unfolding values
length-values [] = refl
length-values ((id, item) ∷ m) = ap suc (length-values m)

-- GetStats agrees with ListItems without a limit: its total is the number of all items, and each of
-- its five counts is the number of items that ListItems gives for that status.
pub get_stats_lem :
    (d : Manager)
    → ((get_stats d).total ≡ length (list_items none 0 d))
      × ((status : Status) → stat_of status (get_stats d) ≡ length (list_items (some status) 0 d))
unfolding get_stats list_items
get_stats_lem d = (
  ground (
    arith,
    total-count_items d.items (no_counts (length d.items)),
    list_loop_unlimited none 0 d.items,
    length-values d.items,
  ),
  λ status. ground (
    arith,
    stat_of-count_items status d.items (no_counts (length d.items)),
    list_loop_unlimited (some status) 0 d.items,
    stat_of-no_counts status (length d.items),
  ),
)

sweep_lem :
    (cutoff : ℕ) (m : Items)
    → ((sweep cutoff m).0 ≡ select (λ (e : Bytes × Item). not (is_stale cutoff e.1)) m)
      × ((sweep cutoff m).1 + length (sweep cutoff m).0 ≡ length m)
unfolding sweep
sweep_lem cutoff [] = (refl, refl)
sweep_lem cutoff ((id, item) ∷ m) = elim (Bool-cases (is_stale cutoff item)) [
  | inl stale ↦ rw stale (ground (arith, sweep_lem cutoff m))
  | inr fresh ↦ rw fresh (ground (arith, sweep_lem cutoff m))
]

-- CleanupResolved keeps exactly the items that are not both settled (resolved or discarded) and first
-- failed before the cutoff, and returns the number of those that it removed.
pub cleanup_resolved_lem :
    (cutoff : ℕ) (write : Write) (d : Manager)
    → ((cleanup_resolved cutoff write d).0.items
        ≡ select (λ (e : Bytes × Item). not (is_stale cutoff e.1)) d.items)
      × ((cleanup_resolved cutoff write d).1 + length (cleanup_resolved cutoff write d).0.items
          ≡ length d.items)
unfolding cleanup_resolved
cleanup_resolved_lem cutoff written d = ground (arith, sweep_lem cutoff d.items)
cleanup_resolved_lem cutoff (failed rest) d = ground (arith, sweep_lem cutoff d.items)
