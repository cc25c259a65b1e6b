-- ===== src/Transform/Paths.antt =====
-- Paths into nested fields: setNestedValue and deleteNestedValue of internal/transform/field_mapper.go,
-- and its getNestedValue, whose code is the one of Filter.Values.
use elasticrelay.Common.{Option, some, List, [], ◌∷◌, if◌then◌else◌, Bytes, str_eq}
use elasticrelay.Common.Split.{split}
use elasticrelay.Filter.Values.{Value, object, Fields, no_field, entry, field_of}

module _ {Number Float : Type 0} where
  unfoldable pub set_field : Bytes → Value Number Float → Fields Number Float → Fields Number Float
  set_field k v no_field = entry k v no_field
  set_field k v (entry j w fields) =
      if str_eq j k then entry k v fields else entry j w (set_field k v fields)

  unfoldable pub delete_field : Bytes → Fields Number Float → Fields Number Float
  delete_field k no_field = no_field
  delete_field k (entry j w fields) =
      let rest = delete_field k fields in if str_eq j k then rest else entry j w rest

  -- The map to go on with: a new one, if there is none under the part.
  abbrev pub sub : Option (Value Number Float) → Fields Number Float
  sub (some (object fields)) = fields
  sub _ = no_field

  unfoldable pub set_walk :
      List Bytes → Value Number Float → Fields Number Float → Fields Number Float
  set_walk [] v fields = fields
  set_walk (part ∷ []) v fields = set_field part v fields
  set_walk (part ∷ (next ∷ parts)) v fields =
      set_field part (object (set_walk (next ∷ parts) v (sub (field_of part fields)))) fields

  -- setNestedValue
  unfoldable pub set_nested_value :
      Fields Number Float → Bytes → Value Number Float → Fields Number Float
  set_nested_value fields path v =
      if str_eq path [] then fields else set_walk (split b'.' path) v fields

  -- The fields with another value under a part that holds a map.
  abbrev pub within :
      (Fields Number Float → Fields Number Float)
      → Bytes
      → Fields Number Float
      → Option (Value Number Float)
      → Fields Number Float
  within change part fields (some (object inner)) = set_field part (object (change inner)) fields
  within change part fields _ = fields

  unfoldable pub delete_walk : List Bytes → Fields Number Float → Fields Number Float
  delete_walk [] fields = fields
  delete_walk (part ∷ []) fields = delete_field part fields
  delete_walk (part ∷ (next ∷ parts)) fields =
      within (delete_walk (next ∷ parts)) part fields (field_of part fields)

  -- deleteNestedValue
  unfoldable pub delete_nested_value : Fields Number Float → Bytes → Fields Number Float
  delete_nested_value fields path =
      if str_eq path [] then fields else delete_walk (split b'.' path) fields
