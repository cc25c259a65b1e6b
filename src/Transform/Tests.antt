-- ===== src/Transform/Tests.antt =====
-- Mappings and configurations of fields at a concrete record.
use elasticrelay.Common.{ℕ, ◌≡◌, refl, none, some, true, false, [], ◌∷◌, codes, str_eq}
use elasticrelay.Common.Split.{split}
use elasticrelay.Filter.Values.{
  nil, text, numeric, object, Fields, no_field, entry, field_of, walk, get_nested_value,
}
use elasticrelay.Transform.Paths.{
  set_field, delete_field, set_walk, delete_walk, set_nested_value, delete_nested_value,
}
use elasticrelay.Transform.Walks.{apart}
use elasticrelay.Transform.Mapper.{
  FieldMapping, FieldConfig, mapped, apply_mappings, null_handled, process_config,
  process_field_configs,
}
use elasticrelay.Transform.Moves.{apply_mappings-moves}
use elasticrelay.Transform.Defaults.{settled, process_field_configs-settled}

abbrev person : Fields ℕ ℕ
person =
    entry (codes "a") (numeric 41)
      (entry (codes "b") (object (entry (codes "c") nil no_field)) no_field)

-- The field a goes to b.d.
abbrev move : FieldMapping
move = record { source_field = codes "a"; target_field = codes "b.d"; action = codes "move" }

apply_mappings-moves_example :
    (r : Fields ℕ ℕ) × (apply_mappings (move ∷ []) person ≡ mapped r)
    × (get_nested_value r (codes "b.d") ≡ some (numeric 41))
    × (get_nested_value r (codes "a") ≡ none)
    × (get_nested_value r (codes "b.c") ≡ get_nested_value person (codes "b.c"))
unfolding str_eq get_nested_value walk field_of split apart
apply_mappings-moves_example =
    apply_mappings-moves move person (numeric 41) (codes "b.c") refl refl refl refl refl refl

abbrev hide_age : FieldConfig ℕ ℕ
hide_age = record {
  field = codes "a";
  required = false;
  default_value = nil;
  null_strategy = [];
  exclude = true;
}

abbrev default_city : FieldConfig ℕ ℕ
default_city = record {
  field = codes "b.c";
  required = true;
  default_value = text (codes "Bern");
  null_strategy = codes "default";
  exclude = false;
}

abbrev settled_person : Fields ℕ ℕ
settled_person =
    entry (codes "b") (object (entry (codes "c") (text (codes "Bern")) no_field)) no_field

runs : process_field_configs (hide_age ∷ (default_city ∷ [])) person ≡ some settled_person
unfolding str_eq get_nested_value walk field_of split process_field_configs process_config
    null_handled set_nested_value delete_nested_value set_walk delete_walk set_field delete_field
runs = refl

process_field_configs-settled_example :
    get_nested_value settled_person (codes "b.c")
    ≡ settled default_city (get_nested_value person (codes "b.c"))
unfolding str_eq split apart
process_field_configs-settled_example =
    (process_field_configs-settled (hide_age ∷ []) default_city [] person settled_person refl
      (refl, refl, tt) tt runs).0
