-- ===== src/Transform/Deletions.antt =====
-- What a path finds after a deletion: internal/transform/field_mapper.go.
use elasticrelay.Common.{
  ◌≡◌, ◌⊎◌, refl, sym, ap, ◌∙◌, inl, inr, Option, none, some, true, List, [], ◌∷◌, arith,
  if◌then◌else◌, Bool-cases, Bytes, str_eq, str_eq_iff, str_eq_refl,
}
use elasticrelay.Filter.Values.{
  Value, nil, text, boolean, numeric, object, array, strings, ints, floats, Fields, no_field, entry,
  field_of, walk,
}
use elasticrelay.Transform.Paths.{delete_field, sub, within, delete_walk}
use elasticrelay.Transform.Walks.{apart, go_on, walk_object, walk-set_field, walk-sub}

module _ {Number Float : Type 0} where
  field_of-delete_field :
      (k j : Bytes) (fields : Fields Number Float)
      → field_of j (delete_field k fields) ≡ (if str_eq k j then none else field_of j fields)
  unfolding field_of delete_field
  field_of-delete_field k j no_field = ground arith
  field_of-delete_field k j (entry i w fields) =
      ground
        (arith, str_eq_iff k j, str_eq_iff i k, str_eq_iff i j, field_of-delete_field k j fields)

  abbrev nothing : Fields Number Float
  nothing = no_field

  walk-delete_field :
      (k q : Bytes) (qs : List Bytes) (fields : Fields Number Float)
      → walk (q ∷ qs) (object (delete_field k fields))
        ≡ (if str_eq k q then none else walk (q ∷ qs) (object fields))
  unfolding go_on
  walk-delete_field k q qs fields = elim (Bool-cases (str_eq k q)) [
    | inl same ↦
        walk_object q qs (delete_field k fields)
        ∙ ap (go_on qs) (field_of-delete_field k q fields)
        ∙ rw same refl
    | inr other ↦
        walk_object q qs (delete_field k fields)
        ∙ ap (go_on qs) (field_of-delete_field k q fields)
        ∙ rw other (sym (walk_object q qs fields))
  ]

  abbrev IsNoMap : Option (Value Number Float) → Type 0
  IsNoMap found =
      (sub found ≡ no_field)
      × ((change : Fields Number Float → Fields Number Float) (p : Bytes) (f : Fields Number Float)
          → within change p f found ≡ f)

  map-cases :
      (found : Option (Value Number Float))
      → ((inner : Fields Number Float) × (found ≡ some (object inner))) ⊎ IsNoMap found
  map-cases none = inr (refl, λ c p f. refl)
  map-cases (some nil) = inr (refl, λ c p f. refl)
  map-cases (some (text s)) = inr (refl, λ c p f. refl)
  map-cases (some (boolean b)) = inr (refl, λ c p f. refl)
  map-cases (some (numeric n)) = inr (refl, λ c p f. refl)
  map-cases (some (object f)) = inl (f, refl)
  map-cases (some (array f)) = inr (refl, λ c p f. refl)
  map-cases (some (strings f)) = inr (refl, λ c p f. refl)
  map-cases (some (ints f)) = inr (refl, λ c p f. refl)
  map-cases (some (floats f)) = inr (refl, λ c p f. refl)

  -- A deletion keeps a map empty.
  delete_walk-nothing : (ps : List Bytes) → delete_walk ps nothing ≡ nothing
  unfolding delete_walk delete_field field_of
  delete_walk-nothing [] = refl
  delete_walk-nothing (p ∷ []) = refl
  delete_walk-nothing (p ∷ (n ∷ ps)) = refl

  walk-delete_within :
      (p n q m : Bytes) (ps qs : List Bytes) (fields : Fields Number Float)
      → walk (q ∷ (m ∷ qs)) (object (delete_walk (p ∷ (n ∷ ps)) fields)) ≡ (
          if str_eq p q
          then walk (m ∷ qs) (object (delete_walk (n ∷ ps) (sub (field_of p fields))))
          else walk (q ∷ (m ∷ qs)) (object fields))
  unfolding delete_walk
  walk-delete_within p n q m ps qs fields = elim (map-cases (field_of p fields)) [
    | inl (inner, is) ↦
        rw is (walk-set_field p q (m ∷ qs) (object (delete_walk (n ∷ ps) inner)) fields)
    | inr (empty, keeps) ↦ elim (Bool-cases (str_eq p q)) [
      | inl same ↦
          rw (keeps (delete_walk (n ∷ ps)) p fields, same)
            (sym (walk-sub p q m qs fields same)
              ∙ ap (λ f. walk (m ∷ qs) (object f))
                  (empty
                    ∙ sym (delete_walk-nothing (n ∷ ps))
                    ∙ ap (delete_walk (n ∷ ps)) (sym empty)))
      | inr other ↦ rw (keeps (delete_walk (n ∷ ps)) p fields, other) refl
    ]
  ]

  pub walk-delete_walk :
      (p : Bytes) (ps : List Bytes) (fields : Fields Number Float)
      → walk (p ∷ ps) (object (delete_walk (p ∷ ps) fields)) ≡ none
  unfolding delete_walk
  walk-delete_walk p [] fields = walk-delete_field p p [] fields ∙ rw (str_eq_refl p) refl
  walk-delete_walk p (n ∷ ps) fields =
      walk-delete_within p n p n ps ps fields
      ∙ rw (str_eq_refl p) (walk-delete_walk n ps (sub (field_of p fields)))

  pub walk-delete_walk-apart :
      (ps qs : List Bytes) (fields : Fields Number Float)
      → apart ps qs ≡ true
      → walk qs (object (delete_walk ps fields)) ≡ walk qs (object fields)
  unfolding delete_walk apart
  walk-delete_walk-apart [] qs fields far = absurd (cc)
  walk-delete_walk-apart (p ∷ ps) [] fields far = absurd (cc)
  walk-delete_walk-apart (p ∷ []) (q ∷ qs) fields far = elim (Bool-cases (str_eq p q)) [
    | inl same ↦ absurd (ground (arith, far, same))
    | inr other ↦ walk-delete_field p q qs fields ∙ rw other refl
  ]
  walk-delete_walk-apart (p ∷ (n ∷ ps)) (q ∷ (m ∷ qs)) fields far = elim (Bool-cases (str_eq p q)) [
    | inl same ↦
        walk-delete_within p n q m ps qs fields
        ∙ rw same (
            walk-delete_walk-apart (n ∷ ps) (m ∷ qs) (sub (field_of p fields)) (rw same at far)
            ∙ walk-sub p q m qs fields same)
    | inr other ↦ walk-delete_within p n q m ps qs fields ∙ rw other refl
  ]
  walk-delete_walk-apart (p ∷ (n ∷ ps)) (q ∷ []) fields far = elim (Bool-cases (str_eq p q)) [
    | inl same ↦ absurd (ground (arith, far, same))
    | inr other ↦ elim (map-cases (field_of p fields)) [
      | inl (inner, is) ↦
          rw is (walk-set_field p q [] (object (delete_walk (n ∷ ps) inner)) fields ∙ rw other refl)
      | inr (empty, keeps) ↦ rw (keeps (delete_walk (n ∷ ps)) p fields) refl
    ]
  ]
