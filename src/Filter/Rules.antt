-- ===== src/Filter/Rules.antt =====
-- Rules, their evaluation, Check and CompileRules: internal/transform/filter/filter.go.
use elasticrelay.Common.{
  Option, none, some, Bool, true, false, not, List, [], ◌∷◌, Bytes, codes, str_eq, if◌then◌else◌,
}
use elasticrelay.Lsn.Position.{Sign, less, greater}
use elasticrelay.Filter.Values.{
  Value, text, boolean, Fields, Library, get_nested_value, is_equal, compare, is_in, matches_regex,
}

-- Rule
pub record Rule (Number Float : Type 0) : Type 0 where
  pub field : Bytes
  pub operator : Bytes
  pub value : Value Number Float
  pub action : Bytes
  pub route_target : Bytes
  pub compiled_regex : Option (Bytes → Bool)

-- Result
pub record Result : Type 0 where
  pub include : Bool
  pub route : Bytes

abbrev pub is_greater : Sign → Bool
is_greater greater = true
is_greater _ = false

abbrev pub is_less : Sign → Bool
is_less less = true
is_less _ = false

module _ {Number Float : Type 0} (lib : Library Number Float) where
  -- The switch of evaluateRule, for a field that exists.
  unfoldable pub evaluate_found : Rule Number Float → Value Number Float → Bool
  evaluate_found rule v =
      if str_eq rule.operator (codes "eq")
      then is_equal lib v rule.value
      else if str_eq rule.operator (codes "ne")
      then not (is_equal lib v rule.value)
      else if str_eq rule.operator (codes "gt")
      then is_greater (compare lib v rule.value)
      else if str_eq rule.operator (codes "gte")
      then not (is_less (compare lib v rule.value))
      else if str_eq rule.operator (codes "lt")
      then is_less (compare lib v rule.value)
      else if str_eq rule.operator (codes "lte")
      then not (is_greater (compare lib v rule.value))
      else if str_eq rule.operator (codes "in")
      then is_in lib v rule.value
      else if str_eq rule.operator (codes "nin")
      then not (is_in lib v rule.value)
      else if str_eq rule.operator (codes "regex")
      then matches_regex lib v rule.value rule.compiled_regex
      else false

  -- The operator exists: whether the field should be there, and is as it should.
  abbrev pub as_expected : Value Number Float → Bool → Bool
  as_expected (boolean false) present = not present
  as_expected _ present = present

  abbrev pub is_some : Option (Value Number Float) → Bool
  is_some none = false
  is_some (some v) = true

  -- evaluateRule
  unfoldable pub evaluate_rule : Rule Number Float → Fields Number Float → Bool
  evaluate_rule rule fields =
      let found = get_nested_value fields rule.field in
      if str_eq rule.operator (codes "exists")
      then as_expected rule.value (is_some found)
      else elim found [ none ↦ false | some v ↦ evaluate_found rule v ]

  -- The loop of Check; an action of another name does nothing.
  unfoldable pub check_loop : List (Rule Number Float) → Fields Number Float → Result → Result
  check_loop [] fields result = result
  check_loop (rule ∷ rules) fields result =
      let matches = evaluate_rule rule fields in
      let same = check_loop rules fields result in
      let routed = check_loop rules fields (record result { route = rule.route_target }) in
      if str_eq rule.action (codes "include")
      then (if matches then same else record result { include = false })
      else if str_eq rule.action (codes "exclude")
      then (if matches then record result { include = false } else same)
      else if str_eq rule.action (codes "route")
      then (if matches then routed else same)
      else same

  -- Check
  unfoldable pub check : List (Rule Number Float) → Fields Number Float → Result
  check rules fields = check_loop rules fields (record { include = true; route = [] })

  -- The pattern of a rule has to be a text, and to compile.
  unfoldable pub compile_value : Value Number Float → Option (Bytes → Bool)
  compile_value (text pattern') = lib.compile pattern'
  compile_value _ = none

  -- The body of CompileRules's loop.
  unfoldable pub compile_rule : Rule Number Float → Option (Rule Number Float)
  compile_rule rule =
      if str_eq rule.operator (codes "regex")
      then elim (compile_value rule.value) [
        | none ↦ none
        | some test ↦ some (record rule { compiled_regex = some test })
      ]
      else some rule

  -- CompileRules
  unfoldable pub compile_rules : List (Rule Number Float) → Option (List (Rule Number Float))
  compile_rules [] = some []
  compile_rules (rule ∷ rules) = elim (compile_rule rule) [
    | none ↦ none
    | some rule' ↦ elim (compile_rules rules) [ none ↦ none | some rules' ↦ some (rule' ∷ rules') ]
  ]
