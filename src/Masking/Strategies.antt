-- ===== src/Masking/Strategies.antt =====
-- The masking strategies and the helpers that read their parameters:
-- internal/transform/masking/masking.go. What comes from Go's libraries is a record of functions.
use elasticrelay.Common.{
  ℕ, zero, suc, ◌-◌, ◌+◌, Option, none, some, List, [], ◌∷◌, ◌++◌, ◌&&◌, leb, if◌then◌else◌, length,
  take, drop, Bytes, codes, str_eq, Dict, lookup,
}
use elasticrelay.Common.Decimal
use elasticrelay.Common.Int.{ℤ, pos, negsuc, ◌+ℤ◌, leb_ℤ, wrap64}
use elasticrelay.Parallel.Chunks.{Outcome, ok, err, panic}

-- Values of type interface{}: an integer of any width, a floating point number, and anything else,
-- whose text is the bytes of a []byte or made by fmt.Sprintf. A parameter that is an integer has the
-- type int or int64.
pub data Value (Float Other : Type 0) : Type 0 where
  nil : Value Float Other
  text : Bytes → Value Float Other
  integer : ℤ → Value Float Other
  real : Float → Value Float Other
  other : Other → Value Float Other

-- The conversions between strings and runes, the formats of package strconv and fmt, the hashes, and
-- regexp.Compile with ReplaceAllString (`none` for a pattern that does not compile). `sha256_token` is
-- the hexadecimal print of the first eight bytes of a hash.
pub record Library (Float Other : Type 0) : Type 0 where
  pub runes : Bytes → List ℕ
  pub string_of : List ℕ → Bytes
  pub whole : Float → Option ℤ
  pub format_float : Float → Bytes
  pub truncate : Float → ℤ
  pub sprint : Other → Bytes
  pub sha256_hex : Bytes → Bytes
  pub sha256_token : Bytes → Bytes
  pub md5_hex : Bytes → Bytes
  pub replace_all : Bytes → Option (Bytes → Bytes → Bytes)

-- strings.Repeat
unfoldable pub repeat : Bytes → ℕ → Bytes
repeat s zero = []
repeat s (suc n) = s ++ repeat s n

-- strconv.FormatInt in base 10
abbrev pub format_int : ℤ → Bytes
format_int (pos n) = Decimal.format n
format_int (negsuc n) = b'-' ∷ Decimal.format (n + 1)

pub data Strategy : Type 0 where
  mask hash token regex : Strategy

module _ {Float Other : Type 0} where
  abbrev pub int_value : Library Float Other → ℤ → Option (Value Float Other) → ℤ
  int_value lib default (some (integer n)) = n
  int_value lib default (some (real x)) = lib.truncate x
  int_value lib default _ = default

  -- getIntParam; a nil map is the empty one.
  unfoldable pub get_int_param : Library Float Other → Dict (Value Float Other) → Bytes → ℤ → ℤ
  get_int_param lib params key default = int_value lib default (lookup key params)

  abbrev pub string_value : Bytes → Option (Value Float Other) → Bytes
  string_value default (some (text s)) = s
  string_value default _ = default

  -- getStringParam
  unfoldable pub get_string_param : Dict (Value Float Other) → Bytes → Bytes → Bytes
  get_string_param params key default = string_value default (lookup key params)

  -- valueToString
  unfoldable pub value_to_string : Library Float Other → Value Float Other → Bytes
  value_to_string lib nil = []
  value_to_string lib (text s) = s
  value_to_string lib (integer n) = format_int n
  value_to_string lib (real x) = elim (lib.whole x) [
    | some n ↦ format_int n
    | none ↦ lib.format_float x
  ]
  value_to_string lib (other x) = lib.sprint x

  -- The middle of MaskStrategy.Mask: a slice outside of the runes panics.
  unfoldable pub mask_middle : Library Float Other → ℤ → ℤ → Bytes → List ℕ → Outcome Bytes
  mask_middle lib (pos prefix) (pos suffix) char rs =
      if leb prefix (length rs) && leb suffix (length rs)
      then ok (
          lib.string_of (take prefix rs)
          ++ (repeat char (length rs - prefix - suffix)
              ++ lib.string_of (drop (length rs - suffix) rs)))
      else panic
  mask_middle lib _ _ char rs = panic

  unfoldable pub mask_runes : Library Float Other → ℤ → ℤ → Bytes → List ℕ → Outcome Bytes
  mask_runes lib prefix suffix char rs =
      if leb_ℤ (pos (length rs)) (wrap64 (prefix +ℤ suffix))
      then ok (repeat char (length rs))
      else mask_middle lib prefix suffix char rs

  -- MaskStrategy.Mask
  unfoldable pub mask_value : Library Float Other → Bytes → Dict (Value Float Other) → Outcome Bytes
  mask_value lib value params =
      mask_runes lib (get_int_param lib params (codes "prefix") (pos 3))
        (get_int_param lib params (codes "suffix") (pos 4))
        (get_string_param params (codes "char") (codes "*")) (lib.runes value)

  -- HashStrategy.Mask
  unfoldable pub hash_value : Library Float Other → Bytes → Dict (Value Float Other) → Outcome Bytes
  hash_value lib value params =
      let algorithm = get_string_param params (codes "algorithm") (codes "sha256") in
      if str_eq algorithm (codes "sha256")
      then ok (lib.sha256_hex value)
      else if str_eq algorithm (codes "md5")
      then ok (lib.md5_hex value)
      else err (codes "unsupported hash algorithm: " ++ algorithm)

  -- TokenStrategy.Mask
  unfoldable pub token_value :
      Library Float Other → Bytes → Dict (Value Float Other) → Outcome Bytes
  token_value lib value params =
      ok (get_string_param params (codes "prefix") (codes "TOKEN_") ++ lib.sha256_token value)

  -- RegexStrategy.Mask
  unfoldable pub regex_value :
      Library Float Other → Bytes → Dict (Value Float Other) → Outcome Bytes
  regex_value lib value params =
      let pattern' = get_string_param params (codes "pattern") [] in
      let replacement = get_string_param params (codes "replace") (codes "***") in
      if str_eq pattern' [] then ok (codes "***") else elim (lib.replace_all pattern') [
        | none ↦ err (codes "invalid regex pattern")
        | some replace ↦ ok (replace value replacement)
      ]

  -- Strategy.Mask
  unfoldable pub run_strategy :
      Strategy → Library Float Other → Bytes → Dict (Value Float Other) → Outcome Bytes
  run_strategy mask lib value params = mask_value lib value params
  run_strategy hash lib value params = hash_value lib value params
  run_strategy token lib value params = token_value lib value params
  run_strategy regex lib value params = regex_value lib value params
