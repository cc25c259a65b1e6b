-- ===== src/Common/Assoc.antt =====
-- A Go map with string keys, as an association list. The list's order stands for an order in which
-- an iteration over the map may run; no theorem depends on it.
use mathlib.Core.Path.{◌≡◌, refl, sym, ap, subst, subst₂}
use mathlib.Core.Logic.{inl, inr}
use mathlib.Core.Option
use mathlib.Core.Option.{Option, none, some}
use mathlib.Core.Bool.{Bool, true, false, ◌||◌}
use mathlib.Core.List.{List, [], ◌∷◌}
use native.Mathlib.Omega.{arith}
use elasticrelay.Common.Tests.{if◌then◌else◌, Bool-cases}
use elasticrelay.Common.Text.{Bytes, str_eq, str_eq_iff, str_eq_comm, str_eq_refl}

abbrev pub Dict {ℓ} : Type ℓ → Type ℓ
Dict V = List (Bytes × V)

module _ {ℓ} {V : Type ℓ} where
  -- v, ok := m[k]
  unfoldable pub lookup : Bytes → Dict V → Option V
  lookup k [] = none
  lookup k ((j, v) ∷ m) = if str_eq j k then some v else lookup k m

  -- m[k] = v
  unfoldable pub insert : Bytes → V → Dict V → Dict V
  insert k v [] = (k, v) ∷ []
  insert k v ((j, w) ∷ m) = if str_eq j k then (k, v) ∷ m else (j, w) ∷ insert k v m

  -- delete(m, k)
  unfoldable pub remove : Bytes → Dict V → Dict V
  remove k [] = []
  remove k ((j, v) ∷ m) = let rest = remove k m in if str_eq j k then rest else (j, v) ∷ rest

  pub lookup-insert :
      (k j : Bytes) (v : V) (m : Dict V)
      → lookup j (insert k v m) ≡ (if str_eq k j then some v else lookup j m)
  unfolding lookup insert
  lookup-insert k j v [] = refl
  lookup-insert k j v ((i, w) ∷ m) =
      ground (arith, str_eq_iff k j, str_eq_iff i k, str_eq_iff i j, lookup-insert k j v m)

  pub lookup-remove :
      (k j : Bytes) (m : Dict V) → lookup j (remove k m) ≡ (if str_eq k j then none else lookup j m)
  unfolding lookup remove
  lookup-remove k j [] = ground arith
  lookup-remove k j ((i, w) ∷ m) =
      ground (arith, str_eq_iff k j, str_eq_iff i k, str_eq_iff i j, lookup-remove k j m)

  -- A write through the pointer that `m[k]` holds.
  unfoldable pub modify : Bytes → (V → V) → Dict V → Dict V
  modify k f [] = []
  modify k f ((j, w) ∷ m) = if str_eq j k then (j, f w) ∷ m else (j, w) ∷ modify k f m

  -- No key stands twice, as in every Go map.
  unfoldable pub has_key : Bytes → Dict V → Bool
  has_key k [] = false
  has_key k ((j, w) ∷ m) = str_eq j k || has_key k m

  pub lookup-modify :
      (k j : Bytes) (f : V → V) (m : Dict V)
      → lookup j (modify k f m) ≡ (if str_eq k j then Option.map f (lookup j m) else lookup j m)
  unfolding lookup modify
  lookup-modify k j f [] = ground arith
  lookup-modify k j f ((i, w) ∷ m) =
      ground (arith, str_eq_iff k j, str_eq_iff i k, str_eq_iff i j, lookup-modify k j f m)

  pub modify-modify :
      (k : Bytes) (f g : V → V) (m : Dict V) → modify k f (modify k g m) ≡ modify k (λ v. f (g v)) m
  unfolding modify
  modify-modify k f g [] = refl
  modify-modify k f g ((i, w) ∷ m) = ground (arith, modify-modify k f g m)

  -- Only the value that the key has matters.
  pub modify_agree :
      (k : Bytes) (f g : V → V) (m : Dict V) {v : V}
      → lookup k m ≡ some v
      → f v ≡ g v
      → modify k f m ≡ modify k g m
  unfolding lookup modify
  modify_agree k f g [] h e = refl
  modify_agree k f g ((i, w) ∷ m) {v} h e = elim (Bool-cases (str_eq i k)) [
    | inl here ↦ rw here (ground (arith, h, e, here))
    | inr later ↦ rw later (ap (λ r. (i, w) ∷ r) (modify_agree k f g m (rw later at h) e))
  ]

  pub has_key-lookup :
      (k : Bytes) (m : Dict V) → has_key k m ≡ elim (lookup k m) [ none ↦ false | some v ↦ true ]
  unfolding has_key lookup
  has_key-lookup k [] = refl
  has_key-lookup k ((i, w) ∷ m) = ground (arith, has_key-lookup k m)

  pub has_key-insert :
      (k j : Bytes) (v : V) (m : Dict V) → has_key j (insert k v m) ≡ (str_eq k j || has_key j m)
  unfolding has_key insert
  has_key-insert k j v [] = refl
  has_key-insert k j v ((i, w) ∷ m) =
      ground (arith, has_key-insert k j v m, str_eq_iff i k, str_eq_iff i j, str_eq_iff k j)

  pub has_key-remove :
      (k j : Bytes) (m : Dict V) → has_key j m ≡ false → has_key j (remove k m) ≡ false
  unfolding has_key remove
  has_key-remove k j [] h = refl
  has_key-remove k j ((i, w) ∷ m) h = ground (arith, has_key-remove k j m)

  pub has_key-modify :
      (k j : Bytes) (f : V → V) (m : Dict V) → has_key j (modify k f m) ≡ has_key j m
  unfolding has_key modify
  has_key-modify k j f [] = refl
  has_key-modify k j f ((i, w) ∷ m) = ground (arith, has_key-modify k j f m)

  -- No key stands twice, as in every Go map.
  abbrev pub IsMap : Dict V → Type 0
  IsMap [] = Unit
  IsMap ((k, v) ∷ m) = (has_key k m ≡ false) × IsMap m

  pub insert-IsMap : (k : Bytes) (v : V) (m : Dict V) → IsMap m → IsMap (insert k v m)
  unfolding insert has_key
  insert-IsMap k v [] h = (refl, tt)
  insert-IsMap k v ((i, w) ∷ m) h =
      ground
        (arith, insert-IsMap k v m h.1, str_eq_iff i k, str_eq_comm i k, has_key-insert k i v m)

  pub remove-IsMap : (k : Bytes) (m : Dict V) → IsMap m → IsMap (remove k m)
  unfolding remove
  remove-IsMap k [] h = tt
  remove-IsMap k ((i, w) ∷ m) h = ground (arith, remove-IsMap k m h.1, has_key-remove k i m, h.0)

  pub modify-IsMap : (k : Bytes) (f : V → V) (m : Dict V) → IsMap m → IsMap (modify k f m)
  unfolding modify
  modify-IsMap k f [] h = tt
  modify-IsMap k f ((i, w) ∷ m) h = ground (arith, modify-IsMap k f m h.1, has_key-modify k i f m)

-- A property of every value, by the key that it stands under.
module _ {ℓ κ} {V : Type ℓ} (P : Bytes → V → Type κ) where
  abbrev pub AllEntries : Dict V → Type κ
  AllEntries [] = Unit
  AllEntries ((k, v) ∷ m) = P k v × AllEntries m

  pub insert-AllEntries :
      (k : Bytes) (v : V) (m : Dict V) → P k v → AllEntries m → AllEntries (insert k v m)
  unfolding insert
  insert-AllEntries k v [] p h = (p, tt)
  insert-AllEntries k v ((i, w) ∷ m) p (q, h) = elim (Bool-cases (str_eq i k)) [
    | inl here ↦ rw here (p, h)
    | inr later ↦ rw later (q, insert-AllEntries k v m p h)
  ]

  -- A write through a pointer keeps the property, if it does so at the value that is there.
  pub modify-AllEntries :
      (k : Bytes) (f : V → V) (m : Dict V)
      → ((v : V) → lookup k m ≡ some v → P k v → P k (f v))
      → AllEntries m
      → AllEntries (modify k f m)
  unfolding modify lookup
  modify-AllEntries k f [] keep h = tt
  modify-AllEntries k f ((i, w) ∷ m) keep (q, h) = elim (Bool-cases (str_eq i k)) [
    | inl here ↦ rw here (
        let e : i ≡ k = (str_eq_iff i k).0 here in
        let r : P k (f w) = keep w (rw here) (subst (λ j. P j w) e q) in
        (subst (λ j. P j (f w)) (sym e) r, h))
    | inr later ↦ rw later (q, modify-AllEntries k f m (λ v l. keep v (rw later l)) h)
  ]

  pub lookup-AllEntries :
      (k : Bytes) (m : Dict V) {v : V} → AllEntries m → lookup k m ≡ some v → P k v
  unfolding lookup
  lookup-AllEntries k [] h e = absurd (cc)
  lookup-AllEntries k ((i, w) ∷ m) {v} (q, h) e = elim (Bool-cases (str_eq i k)) [
    | inl here ↦
        let same : w ≡ v = ground (arith, e, here) in subst₂ P ((str_eq_iff i k).0 here) same q
    | inr later ↦ lookup-AllEntries k m h (rw later at e)
  ]

  -- What holds at every lookup holds of every entry.
  pub AllEntries-of_lookup :
      (m : Dict V) → IsMap m → ((k : Bytes) (v : V) → lookup k m ≡ some v → P k v) → AllEntries m
  unfolding lookup
  AllEntries-of_lookup [] u h = tt
  AllEntries-of_lookup ((i, w) ∷ m) u h = (
    h i w (rw (str_eq_refl i)),
    AllEntries-of_lookup m u.1
        (λ k v found. h k v (ground (arith, str_eq_iff i k, has_key-lookup i m, u.0, found))),
  )
