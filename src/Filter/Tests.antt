-- ===== src/Filter/Tests.antt =====
-- Filters at concrete inputs, with natural numbers for both kinds of numbers.
use elasticrelay.Common.{
  ℕ, ◌≡◌, ◌⊎◌, refl, none, some, true, false, List, [], ◌∷◌, ltb, ◌==◌, Bytes, codes, str_eq,
}
use elasticrelay.Common.Int.{pos}
use elasticrelay.Common.Split.{split}
use elasticrelay.Common.Decimal
use elasticrelay.Filter.Values.{
  Value, text, numeric, object, Fields, no_field, entry, Library, get_nested_value, walk, field_of,
  to_float64, compare, compare_numbers, matches_regex,
}
use elasticrelay.Filter.Rules.{
  Rule, Result, evaluate_rule, evaluate_found, check_loop, check, compile_value, compile_rule,
  compile_rules,
}
use elasticrelay.Filter.Checks.{every, last_route, check-every, check-compile_rules}

abbrev print : Value ℕ ℕ → Bytes
print (text s) = s
print (numeric n) = Decimal.format n
print _ = []

-- A pattern stands for the texts equal to it.
abbrev plain : Library ℕ ℕ
plain = record {
  float_of = λ n. some n;
  int_of = λ n. some (pos n);
  float_lt = ltb;
  float_eq = ◌==◌;
  sprint = print;
  deep_equal = λ a b. false;
  compile = λ pattern'. some (str_eq pattern');
}

-- A grown-up in Bern.
abbrev person : Fields ℕ ℕ
person = entry (codes "age") (numeric 41) (
    entry (codes "address") (object (entry (codes "city") (text (codes "Bern")) no_field)) no_field)

abbrev adults : Rule ℕ ℕ
adults = record {
  field = codes "age";
  operator = codes "gte";
  value = numeric 18;
  action = codes "include";
  route_target = [];
  compiled_regex = none;
}

abbrev to_bern : Rule ℕ ℕ
to_bern = record {
  field = codes "address.city";
  operator = codes "regex";
  value = text (codes "Bern");
  action = codes "route";
  route_target = codes "bern";
  compiled_regex = none;
}

abbrev rules : List (Rule ℕ ℕ)
rules = adults ∷ to_bern ∷ []

abbrev compiled : List (Rule ℕ ℕ)
compiled = adults ∷ record to_bern { compiled_regex = some (str_eq (codes "Bern")) } ∷ []

routed_to_bern : check plain rules person ≡ record { include = true; route = codes "bern" }
unfolding check check_loop evaluate_rule evaluate_found get_nested_value walk field_of split str_eq
    compare compare_numbers to_float64 matches_regex
routed_to_bern = refl

rules-compiled : compile_rules plain rules ≡ some compiled
unfolding compile_rules compile_rule compile_value str_eq
rules-compiled = refl

check-every_example :
    (Result.include (check plain rules person) ≡ every plain person rules)
    × ((every plain person rules ≡ false)
        ⊎ (Result.route (check plain rules person) ≡ last_route plain person rules []))
check-every_example = check-every plain rules person

check-compile_rules_example : check plain compiled person ≡ check plain rules person
check-compile_rules_example =
    check-compile_rules plain rules compiled person (refl, (refl, tt)) rules-compiled
