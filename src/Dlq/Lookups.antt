-- ===== src/Dlq/Lookups.antt =====
-- What a lookup finds after the single operations of internal/dlq/dlq.go.
use elasticrelay.Common.{
  ℕ, ◌≡◌, inl, inr, refl, none, some, [], ◌∷◌, arith, if◌then◌else◌, Option-cases, Bytes, str_eq,
  str_eq_iff, lookup, IsMap, lookup-modify, has_key-lookup,
}
use elasticrelay.Dlq.Item.{Item, discarded}
use elasticrelay.Dlq.Queue.{
  Items, Manager, Write, written, failed, save_to_disk, discard_item, is_stale, sweep,
  cleanup_resolved,
}
use mathlib.Core.Option

pub items-save_to_disk : (write : Write) (d : Manager) → (save_to_disk write d).0.items ≡ d.items
unfolding save_to_disk
items-save_to_disk written d = refl
items-save_to_disk (failed rest) d = refl

abbrev pub discarded_item : Item → Item
discarded_item item = record item { status = discarded }

pub lookup-discard_item :
    (id j : Bytes) (write : Write) (d : Manager)
    → lookup j (discard_item id write d).0.items
      ≡ (if str_eq id j then Option.map discarded_item (lookup j d.items) else lookup j d.items)
unfolding discard_item
lookup-discard_item id j write d = elim (Option-cases (lookup id d.items)) [
  | inl absent ↦ rw (absent, discard_item) (ground (arith, str_eq_iff id j, absent))
  | inr (item, found) ↦
      rw (found, discard_item)
        (rw (items-save_to_disk write _) (lookup-modify id j discarded_item d.items))
]

pub lookup-sweep :
    (cutoff : ℕ) (i : Bytes) (m : Items)
    → IsMap m
    → lookup i (sweep cutoff m).0
      ≡ elim (lookup i m) [ none ↦ none | some a ↦ if is_stale cutoff a then none else some a ]
unfolding sweep lookup
lookup-sweep cutoff i [] u = refl
lookup-sweep cutoff i ((id, item) ∷ m) u =
    ground (arith, lookup-sweep cutoff i m u.1, str_eq_iff id i, has_key-lookup i m, u.0)

pub items-cleanup_resolved :
    (cutoff : ℕ) (write : Write) (d : Manager)
    → (cleanup_resolved cutoff write d).0.items ≡ (sweep cutoff d.items).0
unfolding cleanup_resolved
items-cleanup_resolved cutoff written d = ground arith
items-cleanup_resolved cutoff (failed rest) d = ground arith
