-- ===== src/Masking/Engine.antt =====
-- The masking engine with its registered strategies and templates, and Apply:
-- internal/transform/masking/masking.go.
use elasticrelay.Common.{
  ℕ, none, some, List, [], ◌∷◌, ◌++◌, Bytes, codes, str_eq, if◌then◌else◌, Dict, lookup, insert,
}
use elasticrelay.Common.Int.{pos}
use elasticrelay.Parallel.Chunks.{Outcome, ok, err, ◌>>=◌}
use elasticrelay.Masking.Strategies.{
  Value, text, integer, Library, Strategy, mask, hash, token, regex, value_to_string, run_strategy,
}

-- Template
pub record Template (Float Other : Type 0) : Type 0 where
  pub name : Bytes
  pub strategy : Bytes
  pub params : Dict (Value Float Other)

-- Engine
pub record Engine (Float Other : Type 0) : Type 0 where
  pub strategies : Dict Strategy
  pub templates : Dict (Template Float Other)

-- Rule; the field of the same name in `Rule.strategy` is a registered name.
pub record Rule (Float Other : Type 0) : Type 0 where
  pub field : Bytes
  pub strategy : Bytes
  pub params : Dict (Value Float Other)
  pub template : Bytes

module _ {Float Other : Type 0} where
  -- RegisterStrategy
  abbrev pub register_strategy : Bytes → Strategy → Engine Float Other → Engine Float Other
  register_strategy name s e = record e { strategies = insert name s e.strategies }

  -- RegisterTemplate
  abbrev pub register_template :
      Bytes → Template Float Other → Engine Float Other → Engine Float Other
  register_template name t e = record e { templates = insert name t e.templates }

  -- The template of a mask with the character *.
  abbrev pub mask_template : Bytes → ℕ → ℕ → Template Float Other
  mask_template name prefix suffix = record {
    name = name;
    strategy = codes "mask";
    params =
        (codes "prefix", integer (pos prefix))
        ∷ (codes "suffix", integer (pos suffix))
        ∷ (codes "char", text (codes "*"))
        ∷ [];
  }

  abbrev pub email_template : Template Float Other
  email_template = record {
    name = codes "email";
    strategy = codes "regex";
    params =
        (codes "pattern", text (codes "(.{2}).*(@.*)"))
        ∷ (codes "replace", text (codes "$1***$2"))
        ∷ [];
  }

  -- NewEngine
  unfoldable pub new_engine : Engine Float Other
  new_engine =
      let e0 : Engine Float Other = record { strategies = []; templates = [] } in
      let e1 = register_strategy (codes "mask") mask e0 in
      let e2 = register_strategy (codes "hash") hash e1 in
      let e3 = register_strategy (codes "token") token e2 in
      let e4 = register_strategy (codes "regex") regex e3 in
      let e5 = register_template (codes "phone") (mask_template (codes "phone") 3 4) e4 in
      let e6 = register_template (codes "id_card") (mask_template (codes "id_card") 4 4) e5 in
      let e7 = register_template (codes "email") email_template e6 in
      let e8 = register_template (codes "bank_card") (mask_template (codes "bank_card") 4 4) e7 in
      register_template (codes "name") (mask_template (codes "name") 1 0) e8

  -- applyStrategy
  unfoldable pub apply_strategy :
      Library Float Other
      → Engine Float Other
      → Bytes
      → Bytes
      → Dict (Value Float Other)
      → Outcome Bytes
  apply_strategy lib e name value params = elim (lookup name e.strategies) [
    | none ↦ err (codes "unknown strategy: " ++ name)
    | some s ↦ run_strategy s lib value params
  ]

  -- The masked text of a value under a rule.
  unfoldable pub masked_value :
      Library Float Other → Engine Float Other → Rule Float Other → Bytes → Outcome Bytes
  masked_value lib e rule value =
      if str_eq rule.template []
      then apply_strategy lib e rule.strategy value rule.params
      else elim (lookup rule.template e.templates) [
        | none ↦ err (codes "unknown template: " ++ rule.template)
        | some t ↦ apply_strategy lib e t.strategy value t.params
      ]

  -- The body of Apply's loop.
  unfoldable pub apply_rule :
      Library Float Other
      → Engine Float Other
      → Rule Float Other
      → Dict (Value Float Other)
      → Outcome (Dict (Value Float Other))
  apply_rule lib e rule fields = elim (lookup rule.field fields) [
    | none ↦ ok fields
    | some v ↦
        if str_eq (value_to_string lib v) []
        then ok fields
        else masked_value lib e rule (value_to_string lib v)
          >>= (λ s. ok (insert rule.field (text s) fields))
  ]

  -- Apply
  unfoldable pub apply :
      Library Float Other
      → Engine Float Other
      → List (Rule Float Other)
      → Dict (Value Float Other)
      → Outcome (Dict (Value Float Other))
  apply lib e [] fields = ok fields
  apply lib e (rule ∷ rules) fields = apply_rule lib e rule fields >>= apply lib e rules
