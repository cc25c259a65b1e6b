-- ===== src/Masking/Tests.antt =====
-- Masking at concrete inputs, with a library for texts of one-byte runes.
use elasticrelay.Common.{
  ℕ, ◌≡◌, refl, none, some, false, [], ◌∷◌, Bytes, codes, str_eq, Dict, lookup, insert, length,
  arith,
}
use elasticrelay.Common.Int.{pos, ◌+ℤ◌, wrap64, signed64}
use elasticrelay.Common.Decimal
use elasticrelay.Parallel.Chunks.{ok}
use elasticrelay.Masking.Strategies.{
  Value, text, integer, Library, get_int_param, get_string_param, value_to_string, repeat,
  mask_middle, mask_runes, mask_value, run_strategy,
}
use elasticrelay.Masking.Engine.{Rule, new_engine, apply_strategy, masked_value, apply_rule, apply}
use elasticrelay.Masking.Hiding.{mask_value_hides, lookup-apply}

abbrev ascii : Library ℕ Bytes
ascii = record {
  runes = λ s. s;
  string_of = λ s. s;
  whole = λ n. some (pos n);
  format_float = λ n. Decimal.format n;
  truncate = λ n. pos n;
  sprint = λ s. s;
  sha256_hex = λ s. Decimal.format (length s);
  sha256_token = λ s. Decimal.format (length s);
  md5_hex = λ s. Decimal.format (length s);
  replace_all = λ pattern'. none;
}

abbrev phone_params : Dict (Value ℕ Bytes)
phone_params = (codes "prefix", integer (pos 3)) ∷ (codes "suffix", integer (pos 4)) ∷ []

phone_prefix : get_int_param ascii phone_params (codes "prefix") (pos 3) ≡ pos 3
unfolding get_int_param lookup str_eq
phone_prefix = refl

phone_suffix : get_int_param ascii phone_params (codes "suffix") (pos 4) ≡ pos 4
unfolding get_int_param lookup str_eq
phone_suffix = refl

mask_value_hides_example :
    (out : Bytes) × (mask_value ascii (codes "13812345678") phone_params ≡ ok out)
    × (mask_value ascii (codes "13800005678") phone_params ≡ ok out)
mask_value_hides_example =
    mask_value_hides ascii phone_params 3 4 (codes "13812345678") (codes "13800005678") phone_prefix
      phone_suffix (omega arith) refl refl refl

abbrev person : Dict (Value ℕ Bytes)
person = (codes "phone", text (codes "13812345678")) ∷ (codes "city", text (codes "Bern")) ∷ []

abbrev hidden : Dict (Value ℕ Bytes)
hidden = (codes "phone", text (codes "138****5678")) ∷ (codes "city", text (codes "Bern")) ∷ []

abbrev phone_rule : Rule ℕ Bytes
phone_rule = record { field = codes "phone"; strategy = []; params = []; template = codes "phone" }

phone_hidden : apply ascii new_engine (phone_rule ∷ []) person ≡ ok hidden
unfolding apply apply_rule masked_value apply_strategy new_engine lookup insert str_eq
    value_to_string run_strategy mask_value mask_runes mask_middle get_int_param get_string_param
    repeat ◌+ℤ◌ wrap64 signed64
phone_hidden = refl

phone_apart : str_eq (codes "phone") (codes "city") ≡ false
unfolding str_eq
phone_apart = refl

lookup-apply_example : lookup (codes "city") hidden ≡ lookup (codes "city") person
lookup-apply_example =
    lookup-apply ascii new_engine (phone_rule ∷ []) person hidden (codes "city") (phone_apart, tt)
      phone_hidden
