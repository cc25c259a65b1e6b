-- ===== src/Filter/Values.antt =====
-- The values that filters compare, and their comparisons: internal/transform/filter/filter.go. The
-- numbers of Go, json.Number among them, are a parameter with their conversions.
use elasticrelay.Common.{
  Option, none, some, Bool, true, false, ◌||◌, not, List, [], ◌∷◌, Bytes, str_eq, if◌then◌else◌,
}
use elasticrelay.Common.Int.{ℤ, eqb_ℤ}
use elasticrelay.Common.Split.{split}
use elasticrelay.Lsn.Position.{Sign, less, equal, greater}
use elasticrelay.Checkpoints.Binlog.{text_lt}

-- Values of type interface{}: the last three are the typed slices that isIn looks for.
mutual
  pub data Value (Number Float : Type 0) : Type 0 where
    nil : Value Number Float
    text : Bytes → Value Number Float
    boolean : Bool → Value Number Float
    numeric : Number → Value Number Float
    object : Fields Number Float → Value Number Float
    array : Items Number Float → Value Number Float
    strings : List Bytes → Value Number Float
    ints : List ℤ → Value Number Float
    floats : List Float → Value Number Float

  pub data Fields (Number Float : Type 0) : Type 0 where
    no_field : Fields Number Float
    entry : Bytes → Value Number Float → Fields Number Float → Fields Number Float

  pub data Items (Number Float : Type 0) : Type 0 where
    no_item : Items Number Float
    item : Value Number Float → Items Number Float → Items Number Float

-- The conversions of numbers (none if json.Number's method fails), the comparisons of float64,
-- fmt.Sprintf("%v"), reflect.DeepEqual, and regexp.Compile with MatchString.
pub record Library (Number Float : Type 0) : Type 0 where
  pub float_of : Number → Option Float
  pub int_of : Number → Option ℤ
  pub float_lt : Float → Float → Bool
  pub float_eq : Float → Float → Bool
  pub sprint : Value Number Float → Bytes
  pub deep_equal : Value Number Float → Value Number Float → Bool
  pub compile : Bytes → Option (Bytes → Bool)

abbrev pub any {ℓ} : {A : Type ℓ} → (A → Bool) → List A → Bool
any p [] = false
any p (x ∷ xs) = p x || any p xs

module _ {Number Float : Type 0} where
  unfoldable pub field_of : Bytes → Fields Number Float → Option (Value Number Float)
  field_of k no_field = none
  field_of k (entry j v fields) =
      let rest = field_of k fields in if str_eq j k then some v else rest

  -- The walk of getNestedValue over the parts of a path.
  unfoldable pub walk : List Bytes → Value Number Float → Option (Value Number Float)
  walk [] v = some v
  walk (part ∷ parts) (object fields) = elim (field_of part fields) [
    | none ↦ none
    | some v ↦ walk parts v
  ]
  walk (part ∷ parts) _ = none

  -- getNestedValue
  unfoldable pub get_nested_value : Fields Number Float → Bytes → Option (Value Number Float)
  get_nested_value fields path =
      if str_eq path [] then none else walk (split b'.' path) (object fields)

module _ {Number Float : Type 0} (lib : Library Number Float) where
  -- toFloat64
  unfoldable pub to_float64 : Value Number Float → Option Float
  to_float64 (numeric n) = lib.float_of n
  to_float64 _ = none

  -- toInt
  unfoldable pub to_int : Value Number Float → Option ℤ
  to_int (numeric n) = lib.int_of n
  to_int _ = none

  -- isEqual on two values that are not nil, and not both numbers.
  unfoldable pub equal_other : Value Number Float → Value Number Float → Bool
  equal_other (text s) (text t) = str_eq s t
  equal_other (boolean true) (boolean c) = c
  equal_other (boolean false) (boolean c) = not c
  equal_other a b = lib.deep_equal a b

  unfoldable pub equal_numbers :
      Option Float → Option Float → Value Number Float → Value Number Float → Bool
  equal_numbers (some x) (some y) a b = lib.float_eq x y
  equal_numbers _ _ a b = equal_other a b

  -- isEqual
  unfoldable pub is_equal : Value Number Float → Value Number Float → Bool
  is_equal nil nil = true
  is_equal nil b = false
  is_equal a nil = false
  is_equal a b = equal_numbers (to_float64 a) (to_float64 b) a b

  unfoldable pub compare_numbers :
      Option Float → Option Float → Value Number Float → Value Number Float → Sign
  compare_numbers (some x) (some y) a b =
      if lib.float_lt x y then less else if lib.float_lt y x then greater else equal
  compare_numbers _ _ a b =
      if text_lt (lib.sprint a) (lib.sprint b)
      then less
      else if text_lt (lib.sprint b) (lib.sprint a)
      then greater
      else equal

  -- compare
  unfoldable pub compare : Value Number Float → Value Number Float → Sign
  compare a b = compare_numbers (to_float64 a) (to_float64 b) a b

  unfoldable pub is_item : Value Number Float → Items Number Float → Bool
  is_item v no_item = false
  is_item v (item w items) = is_equal v w || is_item v items

  abbrev pub int_among : Option ℤ → List ℤ → Bool
  int_among none l = false
  int_among (some n) l = any (eqb_ℤ n) l

  abbrev pub float_among : Option Float → List Float → Bool
  float_among none l = false
  float_among (some x) l = any (lib.float_eq x) l

  -- isIn
  unfoldable pub is_in : Value Number Float → Value Number Float → Bool
  is_in v (array items) = is_item v items
  is_in v (strings l) = any (str_eq (lib.sprint v)) l
  is_in v (ints l) = int_among (to_int v) l
  is_in v (floats l) = float_among (to_float64 v) l
  is_in v _ = false

  abbrev pub run_regex : Option (Bytes → Bool) → Bytes → Bool
  run_regex none s = false
  run_regex (some test) s = test s

  -- matchesRegex
  unfoldable pub matches_regex :
      Value Number Float → Value Number Float → Option (Bytes → Bool) → Bool
  matches_regex v (text pattern') (some compiled) = compiled (lib.sprint v)
  matches_regex v (text pattern') none = run_regex (lib.compile pattern') (lib.sprint v)
  matches_regex v _ compiled = false
