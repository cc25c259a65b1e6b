-- ===== src/Transform/Defaults.antt =====
-- What the configuration of a field makes of its value: ProcessFieldConfigs of
-- internal/transform/field_mapper.go.
use elasticrelay.Common.{
  ◌≡◌, ◌⊎◌, refl, sym, ap, ◌∙◌, inl, inr, Option, none, some, Bool, true, false, ◌&&◌, not, List,
  [], ◌∷◌, ◌++◌, if◌then◌else◌, Bool-cases, some_injective, Bytes, codes, str_eq, str_eq_iff,
}
use elasticrelay.Filter.Values.{
  Value, nil, text, boolean, numeric, object, array, strings, ints, floats, Fields,
  get_nested_value,
}
use elasticrelay.Transform.Paths.{delete_nested_value}
use elasticrelay.Transform.Walks.{IsApart}
use elasticrelay.Transform.Mapper.{
  FieldConfig, is_null, set_default, null_handled, process_config, process_field_configs,
}
use elasticrelay.Transform.Moves.{
  get_nested_value-set_nested_value, get_nested_value-set_apart,
  get_nested_value-delete_nested_value, get_nested_value-delete_apart,
}

other_name : (s a b : Bytes) → str_eq s a ≡ true → str_eq a b ≡ false → str_eq s b ≡ false
other_name s a b same differ = ap (λ x. str_eq x b) ((str_eq_iff s a).0 same) ∙ differ

not_default : (s : Bytes) → str_eq s (codes "default") ≡ true → str_eq s (codes "error") ≡ false
unfolding str_eq
not_default s is = other_name s (codes "default") (codes "error") is refl

not_remove : (s : Bytes) → str_eq s (codes "remove") ≡ true → str_eq s (codes "error") ≡ false
unfolding str_eq
not_remove s is = other_name s (codes "remove") (codes "error") is refl

module _ {Number Float : Type 0} where
  -- The value that a configuration leaves under its field, from the one that was there.
  abbrev pub or_default :
      Value Number Float → Option (Value Number Float) → Option (Value Number Float)
  or_default nil found = found
  or_default v found = some v

  unfoldable pub settled :
      FieldConfig Number Float → Option (Value Number Float) → Option (Value Number Float)
  settled c found =
      if c.exclude
      then none
      else if is_null found
      then (if str_eq c.null_strategy (codes "default")
          then or_default c.default_value found
          else if str_eq c.null_strategy (codes "remove")
          then none
          else found)
      else found

  -- The configuration refuses the record.
  unfoldable pub refuses : FieldConfig Number Float → Option (Value Number Float) → Bool
  refuses c found =
      not c.exclude && (is_null found && (str_eq c.null_strategy (codes "error") && c.required))

  set_default-set :
      (c : FieldConfig Number Float) (v : Value Number Float) (fields : Fields Number Float)
      → str_eq c.field [] ≡ false
      → get_nested_value (set_default c v fields) c.field
        ≡ or_default v (get_nested_value fields c.field)
  set_default-set c nil fields full = refl
  set_default-set c (text s) fields full =
      get_nested_value-set_nested_value fields c.field (text s) full
  set_default-set c (boolean s) fields full =
      get_nested_value-set_nested_value fields c.field (boolean s) full
  set_default-set c (numeric s) fields full =
      get_nested_value-set_nested_value fields c.field (numeric s) full
  set_default-set c (object s) fields full =
      get_nested_value-set_nested_value fields c.field (object s) full
  set_default-set c (array s) fields full =
      get_nested_value-set_nested_value fields c.field (array s) full
  set_default-set c (strings s) fields full =
      get_nested_value-set_nested_value fields c.field (strings s) full
  set_default-set c (ints s) fields full =
      get_nested_value-set_nested_value fields c.field (ints s) full
  set_default-set c (floats s) fields full =
      get_nested_value-set_nested_value fields c.field (floats s) full

  set_default-apart :
      (c : FieldConfig Number Float) (v : Value Number Float) (fields : Fields Number Float)
      (q : Bytes)
      → IsApart c.field q
      → get_nested_value (set_default c v fields) q ≡ get_nested_value fields q
  set_default-apart c nil fields q far = refl
  set_default-apart c (text s) fields q far =
      get_nested_value-set_apart fields c.field q (text s) far
  set_default-apart c (boolean s) fields q far =
      get_nested_value-set_apart fields c.field q (boolean s) far
  set_default-apart c (numeric s) fields q far =
      get_nested_value-set_apart fields c.field q (numeric s) far
  set_default-apart c (object s) fields q far =
      get_nested_value-set_apart fields c.field q (object s) far
  set_default-apart c (array s) fields q far =
      get_nested_value-set_apart fields c.field q (array s) far
  set_default-apart c (strings s) fields q far =
      get_nested_value-set_apart fields c.field q (strings s) far
  set_default-apart c (ints s) fields q far =
      get_nested_value-set_apart fields c.field q (ints s) far
  set_default-apart c (floats s) fields q far =
      get_nested_value-set_apart fields c.field q (floats s) far

  -- The outcome of one configuration: refused, or settled under its field and unchanged apart from it.
  abbrev Settles : FieldConfig Number Float → Fields Number Float → Type 0
  Settles c fields =
      ((process_config c fields ≡ none) × (refuses c (get_nested_value fields c.field) ≡ true))
      ⊎ ((next : Fields Number Float) × (process_config c fields ≡ some next)
          × (refuses c (get_nested_value fields c.field) ≡ false)
          × (get_nested_value next c.field ≡ settled c (get_nested_value fields c.field))
          × ((q : Bytes) → IsApart c.field q → get_nested_value next q ≡ get_nested_value fields q))

  process_config-Settles :
      (c : FieldConfig Number Float) (fields : Fields Number Float)
      → str_eq c.field [] ≡ false
      → Settles c fields
  unfolding process_config null_handled refuses settled
  process_config-Settles c fields full = elim (Bool-cases c.exclude) [
    | inl excluded ↦ rw excluded (
        inr (
          delete_nested_value fields c.field,
          refl,
          refl,
          get_nested_value-delete_nested_value fields c.field,
          get_nested_value-delete_apart fields c.field,
        ))
    | inr included ↦ elim (Bool-cases (is_null (get_nested_value fields c.field))) [
      | inr there ↦ rw (included, there) (inr (fields, refl, refl, refl, λ q far. refl))
      | inl lacks ↦ elim (Bool-cases (str_eq c.null_strategy (codes "default"))) [
        | inl default ↦
            rw (included, lacks, default, not_default c.null_strategy default)
              (inr (
                set_default c c.default_value fields,
                refl,
                refl,
                set_default-set c c.default_value fields full,
                set_default-apart c c.default_value fields,
              ))
        | inr other ↦ elim (Bool-cases (str_eq c.null_strategy (codes "remove"))) [
          | inl removes ↦
              rw (included, lacks, other, removes, not_remove c.null_strategy removes)
                (inr (
                  delete_nested_value fields c.field,
                  refl,
                  refl,
                  get_nested_value-delete_nested_value fields c.field,
                  get_nested_value-delete_apart fields c.field,
                ))
          | inr keeps ↦ elim (Bool-cases (str_eq c.null_strategy (codes "error") && c.required)) [
            | inl fails ↦ rw (included, lacks, other, keeps, fails) (inl (refl, refl))
            | inr passes ↦
                rw (included, lacks, other, keeps, passes)
                  (inr (fields, refl, refl, refl, λ q far. refl))
          ]
        ]
      ]
    ]
  ]

  -- The fields of the configurations differ from a path in a part that both have.
  abbrev pub AllApart : List (FieldConfig Number Float) → Bytes → Type 0
  AllApart [] q = Unit
  AllApart (c ∷ cs) q = (str_eq c.field [] ≡ false) × IsApart c.field q × AllApart cs q

  process_field_configs-apart :
      (cs : List (FieldConfig Number Float)) (fields r : Fields Number Float) (q : Bytes)
      → AllApart cs q
      → process_field_configs cs fields ≡ some r
      → get_nested_value r q ≡ get_nested_value fields q
  unfolding process_field_configs
  process_field_configs-apart [] fields r q far ran =
      ap (λ f. get_nested_value f q) (sym (some_injective ran))
  process_field_configs-apart (c ∷ cs) fields r q (full, apart_c, far) ran =
      elim (process_config-Settles c fields full) [
        | inl (fails, why) ↦
            let no : none ≡ some r = rw (fails, process_field_configs) at ran in absurd (cc)
        | inr (next, now, passes, here, keeps) ↦
            process_field_configs-apart cs next r q far (rw (now, process_field_configs) at ran)
            ∙ keeps q apart_c
      ]

  -- Configurations that ProcessFieldConfigs lets through, one of which has a field that is not empty and that
  -- differs from the fields of the others in a part that both have: this one does not refuse the value that
  -- was under its field, and what is there in the end is that value, the default of the configuration or
  -- nothing, as its exclusion and its strategy for missing and null values say.
  pub process_field_configs-settled :
      (before : List (FieldConfig Number Float)) (c : FieldConfig Number Float)
      (after : List (FieldConfig Number Float)) (fields r : Fields Number Float)
      → str_eq c.field [] ≡ false
      → AllApart before c.field
      → AllApart after c.field
      → process_field_configs (before ++ (c ∷ after)) fields ≡ some r
      → (get_nested_value r c.field ≡ settled c (get_nested_value fields c.field))
        × (refuses c (get_nested_value fields c.field) ≡ false)
  unfolding process_field_configs
  process_field_configs-settled [] c after fields r full u far ran =
      elim (process_config-Settles c fields full) [
        | inl (fails, why) ↦
            let no : none ≡ some r = rw (fails, process_field_configs) at ran in absurd (cc)
        | inr (next, now, passes, here, keeps) ↦ (
          process_field_configs-apart after next r c.field far
                (rw (now, process_field_configs) at ran)
              ∙ here,
          passes,
        )
      ]
  process_field_configs-settled (b ∷ before) c after fields r full (full_b, apart_b, u) far ran =
      elim (process_config-Settles b fields full_b) [
        | inl (fails, why) ↦
            let no : none ≡ some r = rw (fails, process_field_configs) at ran in absurd (cc)
        | inr (next, now, passes, here, keeps) ↦
            let rest =
              process_field_configs-settled before c after next r full u far
                (rw (now, process_field_configs) at ran) in
            let same : get_nested_value next c.field ≡ get_nested_value fields c.field =
              keeps c.field apart_b in
            (rest.0 ∙ ap (settled c) same, ap (refuses c) (sym same) ∙ rest.1)
      ]
