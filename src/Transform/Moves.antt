-- ===== src/Transform/Moves.antt =====
-- What the mapper leaves under the paths of a record: internal/transform/field_mapper.go.
use elasticrelay.Common.{
  ℕ, ◌≡◌, refl, ◌∙◌, inl, inr, none, some, true, false, ◌||◌, List, [], ◌∷◌, ◌==◌, Bool-cases,
  Bytes, codes, str_eq,
}
use elasticrelay.Common.Split.{split}
use elasticrelay.Filter.Values.{Value, Fields, get_nested_value}
use elasticrelay.Transform.Paths.{set_nested_value, delete_nested_value}
use elasticrelay.Transform.Walks.{IsApart, walk-set_walk, walk-set_walk-apart}
use elasticrelay.Transform.Deletions.{walk-delete_walk, walk-delete_walk-apart}
use elasticrelay.Transform.Mapper.{FieldMapping, mapped, map_value, apply_mapping, apply_mappings}

split-cons : (sep : ℕ) (s : Bytes) → (p : Bytes) × (ps : List Bytes) × (split sep s ≡ p ∷ ps)
unfolding split
split-cons sep [] = ([], [], refl)
split-cons sep (c ∷ s) =
    let (p, ps, is) = split-cons sep s in
    elim (Bool-cases (c == sep)) [
      | inl here ↦ rw here ([], split sep s, refl)
      | inr not_here ↦ rw (not_here, is) (c ∷ p, ps, refl)
    ]

module _ {Number Float : Type 0} where
  pub get_nested_value-set_nested_value :
      (fields : Fields Number Float) (path : Bytes) (v : Value Number Float)
      → str_eq path [] ≡ false
      → get_nested_value (set_nested_value fields path v) path ≡ some v
  unfolding get_nested_value set_nested_value
  get_nested_value-set_nested_value fields path v there =
      let (p, ps, is) = split-cons b'.' path in rw (there, is) (walk-set_walk p ps v fields)

  pub get_nested_value-set_apart :
      (fields : Fields Number Float) (path q : Bytes) (v : Value Number Float)
      → IsApart path q
      → get_nested_value (set_nested_value fields path v) q ≡ get_nested_value fields q
  unfolding get_nested_value set_nested_value
  get_nested_value-set_apart fields path q v far = elim (Bool-cases (str_eq q [])) [
    | inl none_there ↦ rw none_there refl
    | inr there ↦ elim (Bool-cases (str_eq path [])) [
      | inl empty ↦ rw (there, empty) refl
      | inr full ↦
          rw (there, full) (walk-set_walk-apart (split b'.' path) (split b'.' q) v fields far)
    ]
  ]

  pub get_nested_value-delete_nested_value :
      (fields : Fields Number Float) (path : Bytes)
      → get_nested_value (delete_nested_value fields path) path ≡ none
  unfolding get_nested_value delete_nested_value
  get_nested_value-delete_nested_value fields path = elim (Bool-cases (str_eq path [])) [
    | inl empty ↦ rw empty refl
    | inr full ↦
        let (p, ps, is) = split-cons b'.' path in rw (full, is) (walk-delete_walk p ps fields)
  ]

  pub get_nested_value-delete_apart :
      (fields : Fields Number Float) (path q : Bytes)
      → IsApart path q
      → get_nested_value (delete_nested_value fields path) q ≡ get_nested_value fields q
  unfolding get_nested_value delete_nested_value
  get_nested_value-delete_apart fields path q far = elim (Bool-cases (str_eq q [])) [
    | inl none_there ↦ rw none_there refl
    | inr there ↦ elim (Bool-cases (str_eq path [])) [
      | inl empty ↦ rw (there, empty) refl
      | inr full ↦
          rw (there, full) (walk-delete_walk-apart (split b'.' path) (split b'.' q) fields far)
    ]
  ]

  abbrev moved : FieldMapping → Fields Number Float → Value Number Float → Fields Number Float
  moved m fields v = set_nested_value (delete_nested_value fields m.source_field) m.target_field v

  apply_mapping-moved :
      (m : FieldMapping) (fields : Fields Number Float) (v : Value Number Float)
      → (str_eq m.action (codes "rename") || str_eq m.action (codes "move")) ≡ true
      → get_nested_value fields m.source_field ≡ some v
      → apply_mapping m fields ≡ mapped (moved m fields v)
  unfolding apply_mapping map_value
  apply_mapping-moved m fields v moves found =
      rw (found, apply_mapping) (rw (moves, map_value) refl)

  apply_mappings_one :
      (m : FieldMapping) (fields : Fields Number Float) (v : Value Number Float)
      → (str_eq m.action (codes "rename") || str_eq m.action (codes "move")) ≡ true
      → get_nested_value fields m.source_field ≡ some v
      → apply_mappings (m ∷ []) fields ≡ mapped (moved m fields v)
  unfolding apply_mappings
  apply_mappings_one m fields v moves found =
      rw (apply_mapping-moved m fields v moves found, apply_mappings) refl

  -- A mapping that renames or moves a field with a value, to a target that is not empty and that differs from
  -- the source in a part that both have: Apply puts the value under the target, the source is gone, and a path
  -- that so differs from both finds what it found before.
  pub apply_mappings-moves :
      (m : FieldMapping) (fields : Fields Number Float) (v : Value Number Float) (q : Bytes)
      → (str_eq m.action (codes "rename") || str_eq m.action (codes "move")) ≡ true
      → get_nested_value fields m.source_field ≡ some v
      → str_eq m.target_field [] ≡ false
      → IsApart m.target_field m.source_field
      → IsApart m.source_field q
      → IsApart m.target_field q
      → (r : Fields Number Float) × (apply_mappings (m ∷ []) fields ≡ mapped r)
        × (get_nested_value r m.target_field ≡ some v)
        × (get_nested_value r m.source_field ≡ none)
        × (get_nested_value r q ≡ get_nested_value fields q)
  apply_mappings-moves m fields v q moves found full apart_source far_source far_target =
      let without : Fields Number Float = delete_nested_value fields m.source_field in
      (
        moved m fields v,
        apply_mappings_one m fields v moves found,
        get_nested_value-set_nested_value without m.target_field v full,
        get_nested_value-set_apart without m.target_field m.source_field v apart_source
            ∙ get_nested_value-delete_nested_value fields m.source_field,
        get_nested_value-set_apart without m.target_field q v far_target
            ∙ get_nested_value-delete_apart fields m.source_field q far_source,
      )
