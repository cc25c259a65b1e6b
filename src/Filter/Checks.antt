-- ===== src/Filter/Checks.antt =====
-- What Check and CompileRules of internal/transform/filter/filter.go decide.
use elasticrelay.Common.{
  ◌≡◌, ◌∙◌, ap, refl, sym, none, some, some_injective, Bool, true, false, ◌&&◌, not, ◌⊎◌, inl, inr,
  List, [], ◌∷◌, Bytes, codes, str_eq, str_eq_iff, if◌then◌else◌, All, Bool-cases, Option-cases,
  arith,
}
use elasticrelay.Filter.Values.{
  Value, nil, text, boolean, numeric, object, array, strings, ints, floats, Fields, Library,
  get_nested_value, matches_regex,
}
use elasticrelay.Filter.Rules.{
  Rule, Result, evaluate_rule, evaluate_found, check_loop, check, compile_value, compile_rule,
  compile_rules,
}

include_apart :
    (action : Bytes)
    → str_eq action (codes "include") ≡ true
    → str_eq action (codes "route") ≡ false
include_apart action e =
    ap (λ s. str_eq s (codes "route")) ((str_eq_iff action (codes "include")).0 e)
    ∙ (unfold str_eq in refl)

exclude_apart :
    (action : Bytes)
    → str_eq action (codes "exclude") ≡ true
    → str_eq action (codes "route") ≡ false
exclude_apart action e =
    ap (λ s. str_eq s (codes "route")) ((str_eq_iff action (codes "exclude")).0 e)
    ∙ (unfold str_eq in refl)

module _ {Number Float : Type 0} (lib : Library Number Float) where
  -- A rule that does not keep the record out: an include rule that matches, an exclude rule that does
  -- not, or any other rule.
  abbrev pub passes : Fields Number Float → Rule Number Float → Bool
  passes fields rule =
      if str_eq (Rule.action rule) (codes "include")
      then evaluate_rule lib rule fields
      else if str_eq (Rule.action rule) (codes "exclude")
      then not (evaluate_rule lib rule fields)
      else true

  abbrev pub every : Fields Number Float → List (Rule Number Float) → Bool
  every fields [] = true
  every fields (rule ∷ rules) = passes fields rule && every fields rules

  -- The target of the last route rule that matches, or the given one.
  abbrev pub last_route : Fields Number Float → List (Rule Number Float) → Bytes → Bytes
  last_route fields [] start = start
  last_route fields (rule ∷ rules) start =
      let same = last_route fields rules start in
      let routed = last_route fields rules (Rule.route_target rule) in
      if str_eq (Rule.action rule) (codes "route") && evaluate_rule lib rule fields
      then routed
      else same

  check_loop-every :
      (rules : List (Rule Number Float)) (fields : Fields Number Float) (r : Result)
      → Result.include r ≡ true
      → (Result.include (check_loop lib rules fields r) ≡ every fields rules)
        × ((every fields rules ≡ false)
            ⊎ (Result.route (check_loop lib rules fields r)
                ≡ last_route fields rules (Result.route r)))
  unfolding check_loop
  check_loop-every [] fields r h = (h, inr refl)
  check_loop-every (rule ∷ rules) fields r h =
      let same = check_loop-every rules fields r h in
      let routed = check_loop-every rules fields (record r { route = Rule.route_target rule }) h in
      elim (Bool-cases (evaluate_rule lib rule fields)) [
        | inl matched ↦ rw matched (
            ground (
              arith,
              same,
              routed,
              include_apart (Rule.action rule),
              exclude_apart (Rule.action rule),
            ))
        | inr unmatched ↦ rw unmatched (
            ground (
              arith,
              same,
              routed,
              include_apart (Rule.action rule),
              exclude_apart (Rule.action rule),
            ))
      ]

  -- Check includes a record exactly if every rule passes it: each include rule matches and no exclude
  -- rule does. The route of a record that is included is the target of the last route rule that
  -- matches, or empty if none does.
  pub check-every :
      (rules : List (Rule Number Float)) (fields : Fields Number Float)
      → (Result.include (check lib rules fields) ≡ every fields rules)
        × ((every fields rules ≡ false)
            ⊎ (Result.route (check lib rules fields) ≡ last_route fields rules []))
  unfolding check
  check-every rules fields = check_loop-every rules fields _ refl

  matches_regex-compiled :
      (v w : Value Number Float) (test : Bytes → Bool)
      → compile_value lib w ≡ some test
      → matches_regex lib v w (some test) ≡ matches_regex lib v w none
  unfolding matches_regex compile_value
  matches_regex-compiled v (text pattern') test e = rw e refl
  matches_regex-compiled v nil test e = refl
  matches_regex-compiled v (boolean b) test e = refl
  matches_regex-compiled v (numeric n) test e = refl
  matches_regex-compiled v (object o) test e = refl
  matches_regex-compiled v (array a) test e = refl
  matches_regex-compiled v (strings l) test e = refl
  matches_regex-compiled v (ints l) test e = refl
  matches_regex-compiled v (floats l) test e = refl

  evaluate_found-compiled :
      (rule : Rule Number Float) (test : Bytes → Bool) (v : Value Number Float)
      → Rule.compiled_regex rule ≡ none
      → compile_value lib (Rule.value rule) ≡ some test
      → evaluate_found lib (record rule { compiled_regex = some test }) v
        ≡ evaluate_found lib rule v
  unfolding evaluate_found
  evaluate_found-compiled rule test v fresh e =
      rw (matches_regex-compiled v (Rule.value rule) test e, fresh) refl

  evaluate_rule-compiled :
      (rule : Rule Number Float) (test : Bytes → Bool) (fields : Fields Number Float)
      → Rule.compiled_regex rule ≡ none
      → compile_value lib (Rule.value rule) ≡ some test
      → evaluate_rule lib (record rule { compiled_regex = some test }) fields
        ≡ evaluate_rule lib rule fields
  unfolding evaluate_rule
  evaluate_rule-compiled rule test fields fresh e =
      elim (Option-cases (get_nested_value fields (Rule.field rule))) [
        | inl absent ↦ rw (absent, evaluate_rule) refl
        | inr (v, there) ↦
            rw (there, evaluate_rule, evaluate_found-compiled rule test v fresh e) refl
      ]

  -- A compiled rule acts as the rule does.
  compile_rule_lem :
      (rule rule' : Rule Number Float) (fields : Fields Number Float)
      → Rule.compiled_regex rule ≡ none
      → compile_rule lib rule ≡ some rule'
      → (evaluate_rule lib rule' fields ≡ evaluate_rule lib rule fields)
        × (Rule.action rule' ≡ Rule.action rule)
        × (Rule.route_target rule' ≡ Rule.route_target rule)
  unfolding compile_rule
  compile_rule_lem rule rule' fields fresh e =
      elim (Bool-cases (str_eq (Rule.operator rule) (codes "regex"))) [
        | inr plain ↦
            let same = sym (some_injective (rw (plain, compile_rule) at e)) in
            (
              ap (λ r. evaluate_rule lib r fields) same,
              ap Rule.action same,
              ap Rule.route_target same,
            )
        | inl regex ↦
            let e1 = rw (regex, compile_rule) at e in
            elim (Option-cases (compile_value lib (Rule.value rule))) [
              | inl bad ↦ absurd (cc (rw bad at e1))
              | inr (test, good) ↦
                  let same = sym (some_injective (rw good at e1)) in
                  (
                    ap (λ r. evaluate_rule lib r fields) same
                        ∙ evaluate_rule-compiled rule test fields fresh good,
                    ap Rule.action same,
                    ap Rule.route_target same,
                  )
            ]
      ]

  compile_rules_inv :
      (rule : Rule Number Float) (rules compiled : List (Rule Number Float))
      → compile_rules lib (rule ∷ rules) ≡ some compiled
      → (rule' : Rule Number Float) × (rules' : List (Rule Number Float)) × (compile_rule lib rule
          ≡ some rule')
        × (compile_rules lib rules ≡ some rules')
        × (compiled ≡ rule' ∷ rules')
  unfolding compile_rules
  compile_rules_inv rule rules compiled e = elim (Option-cases (compile_rule lib rule)) [
    | inl bad ↦ absurd (cc (rw (bad, compile_rules) at e))
    | inr (rule', good) ↦
        let e1 = rw (good, compile_rules) at e in
        elim (Option-cases (compile_rules lib rules)) [
          | inl bad ↦ absurd (cc (rw bad at e1))
          | inr (rules', rest) ↦ (rule', rules', good, rest, sym (some_injective (rw rest at e1)))
        ]
  ]

  compile_rules-nil : compile_rules lib [] ≡ some []
  unfolding compile_rules
  compile_rules-nil = refl

  check_loop-compile_rules :
      (rules compiled : List (Rule Number Float)) (fields : Fields Number Float) (r : Result)
      → All (λ rule. Rule.compiled_regex rule ≡ none) rules
      → compile_rules lib rules ≡ some compiled
      → check_loop lib compiled fields r ≡ check_loop lib rules fields r
  unfolding check_loop
  check_loop-compile_rules [] compiled fields r fresh e =
      let same = some_injective (sym e ∙ compile_rules-nil) in rw same refl
  check_loop-compile_rules (rule ∷ rules) compiled fields r (fresh, later) e =
      let (rule', rules', good, rest, shape) = compile_rules_inv rule rules compiled e in
      let (same, action, target) = compile_rule_lem rule rule' fields fresh good in
      rw (shape, check_loop)
        (rw (same, action, target)
          (rw
            (
              check_loop-compile_rules rules rules' fields r later rest,
              check_loop-compile_rules rules rules' fields
                  (record r { route = Rule.route_target rule }) later rest,
            )
            refl))

  -- If no rule has a cached expression yet and CompileRules succeeds, then Check decides the same with
  -- the compiled rules as with the given ones, on every record.
  pub check-compile_rules :
      (rules compiled : List (Rule Number Float)) (fields : Fields Number Float)
      → All (λ rule. Rule.compiled_regex rule ≡ none) rules
      → compile_rules lib rules ≡ some compiled
      → check lib compiled fields ≡ check lib rules fields
  unfolding check
  check-compile_rules rules compiled fields fresh e =
      check_loop-compile_rules rules compiled fields _ fresh e
