-- ===== src/Transform/Mapper.antt =====
-- FieldMapper of internal/transform/field_mapper.go: Apply and ProcessFieldConfigs. Maps are values
-- here: a copy of an object would share it with its source, which `shared` reports, and deepCopy is the
-- identity. ProcessFieldConfigs puts a default that is an object into the data itself; what later writes
-- into it do to the configuration is left out.
use elasticrelay.Common.{
  Option, none, some, Bool, true, false, ◌||◌, ◌&&◌, List, [], ◌∷◌, Bytes, codes, str_eq,
  if◌then◌else◌,
}
use elasticrelay.Filter.Values.{Value, nil, object, Fields, get_nested_value}
use elasticrelay.Transform.Paths.{set_nested_value, delete_nested_value}

-- FieldMapping
pub record FieldMapping : Type 0 where
  pub source_field : Bytes
  pub target_field : Bytes
  pub action : Bytes

-- What of FieldConfig the mapper reads; a default of nil is none.
pub record FieldConfig (Number Float : Type 0) : Type 0 where
  pub field : Bytes
  pub required : Bool
  pub default_value : Value Number Float
  pub null_strategy : Bytes
  pub exclude : Bool

pub data Mapped (Number Float : Type 0) : Type 0 where
  mapped : Fields Number Float → Mapped Number Float
  unknown_action : Bytes → Mapped Number Float
  shared : Mapped Number Float

module _ {Number Float : Type 0} where
  abbrev pub copied : FieldMapping → Fields Number Float → Value Number Float → Mapped Number Float
  copied m fields (object inner) = if str_eq m.target_field [] then mapped fields else shared
  copied m fields v = mapped (set_nested_value fields m.target_field v)

  -- The switch on the action, for a source that exists.
  unfoldable pub map_value :
      FieldMapping → Fields Number Float → Value Number Float → Mapped Number Float
  map_value m fields v =
      if str_eq m.action (codes "rename") || str_eq m.action (codes "move")
      then mapped (set_nested_value (delete_nested_value fields m.source_field) m.target_field v)
      else if str_eq m.action (codes "copy")
      then copied m fields v
      else unknown_action m.action

  -- The body of the loop of Apply.
  unfoldable pub apply_mapping : FieldMapping → Fields Number Float → Mapped Number Float
  apply_mapping m fields = elim (get_nested_value fields m.source_field) [
    | none ↦ mapped fields
    | some v ↦ map_value m fields v
  ]

  -- Apply
  unfoldable pub apply_mappings : List FieldMapping → Fields Number Float → Mapped Number Float
  apply_mappings [] fields = mapped fields
  apply_mappings (m ∷ ms) fields = elim (apply_mapping m fields) [
    | mapped next ↦ apply_mappings ms next
    | unknown_action a ↦ unknown_action a
    | shared ↦ shared
  ]

  abbrev pub is_null : Option (Value Number Float) → Bool
  is_null none = true
  is_null (some nil) = true
  is_null (some v) = false

  abbrev pub set_default :
      FieldConfig Number Float → Value Number Float → Fields Number Float → Fields Number Float
  set_default c nil fields = fields
  set_default c v fields = set_nested_value fields c.field v

  -- The switch on the strategy, for a field that is missing or null; none is the error.
  unfoldable pub null_handled :
      FieldConfig Number Float → Fields Number Float → Option (Fields Number Float)
  null_handled c fields =
      if str_eq c.null_strategy (codes "default")
      then some (set_default c c.default_value fields)
      else if str_eq c.null_strategy (codes "remove")
      then some (delete_nested_value fields c.field)
      else if str_eq c.null_strategy (codes "error") && c.required
      then none
      else some fields

  -- The body of the loop of ProcessFieldConfigs.
  unfoldable pub process_config :
      FieldConfig Number Float → Fields Number Float → Option (Fields Number Float)
  process_config c fields =
      if c.exclude
      then some (delete_nested_value fields c.field)
      else if is_null (get_nested_value fields c.field)
      then null_handled c fields
      else some fields

  -- ProcessFieldConfigs
  unfoldable pub process_field_configs :
      List (FieldConfig Number Float) → Fields Number Float → Option (Fields Number Float)
  process_field_configs [] fields = some fields
  process_field_configs (c ∷ cs) fields = elim (process_config c fields) [
    | none ↦ none
    | some next ↦ process_field_configs cs next
  ]
