-- ===== src/Transform/Walks.antt =====
-- What a path finds after a write: internal/transform/field_mapper.go.
use elasticrelay.Common.{
  ◌≡◌, refl, sym, ap, ◌∙◌, inl, inr, Option, none, some, Bool, true, false, List, [], ◌∷◌, arith,
  if◌then◌else◌, Bool-cases, Bytes, str_eq, str_eq_iff, str_eq_refl,
}
use elasticrelay.Common.Split.{split}
use elasticrelay.Filter.Values.{
  Value, nil, text, boolean, numeric, object, array, strings, ints, floats, Fields, no_field, entry,
  field_of, walk,
}
use elasticrelay.Transform.Paths.{set_field, sub, set_walk}

-- Two paths differ in a part that both have.
unfoldable pub apart : List Bytes → List Bytes → Bool
apart [] qs = false
apart (p ∷ ps) [] = false
apart (p ∷ ps) (q ∷ qs) = let rest = apart ps qs in if str_eq p q then rest else true

abbrev pub IsApart : Bytes → Bytes → Type 0
IsApart p q = apart (split b'.' p) (split b'.' q) ≡ true

module _ {Number Float : Type 0} where
  pub field_of-set_field :
      (k j : Bytes) (v : Value Number Float) (fields : Fields Number Float)
      → field_of j (set_field k v fields) ≡ (if str_eq k j then some v else field_of j fields)
  unfolding field_of set_field
  field_of-set_field k j v no_field = refl
  field_of-set_field k j v (entry i w fields) =
      ground
        (arith, str_eq_iff k j, str_eq_iff i k, str_eq_iff i j, field_of-set_field k j v fields)

  -- The step of a walk from a map.
  unfoldable pub go_on : List Bytes → Option (Value Number Float) → Option (Value Number Float)
  go_on parts none = none
  go_on parts (some v) = walk parts v

  pub walk_object :
      (part : Bytes) (parts : List Bytes) (fields : Fields Number Float)
      → walk (part ∷ parts) (object fields) ≡ go_on parts (field_of part fields)
  unfolding walk go_on
  walk_object part parts fields = ground arith

  -- A walk with a part to go sees only the map that is there.
  go_on-sub :
      (q : Bytes) (qs : List Bytes) (found : Option (Value Number Float))
      → go_on (q ∷ qs) found ≡ walk (q ∷ qs) (object (sub found))
  unfolding walk field_of go_on
  go_on-sub q qs none = refl
  go_on-sub q qs (some nil) = refl
  go_on-sub q qs (some (text s)) = refl
  go_on-sub q qs (some (boolean b)) = refl
  go_on-sub q qs (some (numeric n)) = refl
  go_on-sub q qs (some (object f)) = refl
  go_on-sub q qs (some (array f)) = refl
  go_on-sub q qs (some (strings f)) = refl
  go_on-sub q qs (some (ints f)) = refl
  go_on-sub q qs (some (floats f)) = refl

  pub walk-set_field :
      (k q : Bytes) (qs : List Bytes) (v : Value Number Float) (fields : Fields Number Float)
      → walk (q ∷ qs) (object (set_field k v fields))
        ≡ (if str_eq k q then walk qs v else walk (q ∷ qs) (object fields))
  unfolding go_on
  walk-set_field k q qs v fields = elim (Bool-cases (str_eq k q)) [
    | inl same ↦
        walk_object q qs (set_field k v fields)
        ∙ ap (go_on qs) (field_of-set_field k q v fields)
        ∙ rw same refl
    | inr other ↦
        walk_object q qs (set_field k v fields)
        ∙ ap (go_on qs) (field_of-set_field k q v fields)
        ∙ rw other (sym (walk_object q qs fields))
  ]

  pub walk-set_walk :
      (p : Bytes) (ps : List Bytes) (v : Value Number Float) (fields : Fields Number Float)
      → walk (p ∷ ps) (object (set_walk (p ∷ ps) v fields)) ≡ some v
  unfolding set_walk walk
  walk-set_walk p [] v fields = walk-set_field p p [] v fields ∙ rw (str_eq_refl p) refl
  walk-set_walk p (n ∷ ps) v fields =
      walk-set_field p p (n ∷ ps) (object (set_walk (n ∷ ps) v (sub (field_of p fields)))) fields
      ∙ rw (str_eq_refl p) (walk-set_walk n ps v (sub (field_of p fields)))

  pub walk-sub :
      (p q m : Bytes) (qs : List Bytes) (fields : Fields Number Float)
      → str_eq p q ≡ true
      → walk (m ∷ qs) (object (sub (field_of p fields))) ≡ walk (q ∷ (m ∷ qs)) (object fields)
  walk-sub p q m qs fields same = sym (
      walk_object q (m ∷ qs) fields
      ∙ ap (λ x. go_on (m ∷ qs) (field_of x fields)) (sym ((str_eq_iff p q).0 same))
      ∙ go_on-sub m qs (field_of p fields))

  pub walk-set_walk-apart :
      (ps qs : List Bytes) (v : Value Number Float) (fields : Fields Number Float)
      → apart ps qs ≡ true
      → walk qs (object (set_walk ps v fields)) ≡ walk qs (object fields)
  unfolding set_walk apart walk
  walk-set_walk-apart [] qs v fields far = absurd (cc)
  walk-set_walk-apart (p ∷ ps) [] v fields far = absurd (cc)
  walk-set_walk-apart (p ∷ []) (q ∷ qs) v fields far = elim (Bool-cases (str_eq p q)) [
    | inl same ↦ absurd (ground (arith, far, same))
    | inr other ↦ walk-set_field p q qs v fields ∙ rw other refl
  ]
  walk-set_walk-apart (p ∷ (n ∷ ps)) (q ∷ []) v fields far = elim (Bool-cases (str_eq p q)) [
    | inl same ↦ absurd (ground (arith, far, same))
    | inr other ↦
        walk-set_field p q [] (object (set_walk (n ∷ ps) v (sub (field_of p fields)))) fields
        ∙ rw other refl
  ]
  walk-set_walk-apart (p ∷ (n ∷ ps)) (q ∷ (m ∷ qs)) v fields far =
      let new : Value Number Float = object (set_walk (n ∷ ps) v (sub (field_of p fields))) in
      elim (Bool-cases (str_eq p q)) [
        | inl same ↦
            walk-set_field p q (m ∷ qs) new fields
            ∙ rw same (
                walk-set_walk-apart (n ∷ ps) (m ∷ qs) v (sub (field_of p fields)) (rw same at far)
                ∙ walk-sub p q m qs fields same)
        | inr other ↦ walk-set_field p q (m ∷ qs) new fields ∙ rw other refl
      ]
