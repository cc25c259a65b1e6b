-- ===== src/Masking/Hiding.antt =====
-- What masking hides and what it leaves alone: MaskStrategy.Mask and Apply of
-- internal/transform/masking/masking.go.
use elasticrelay.Common.{
  ℕ, ◌+◌, ◌-◌, ◌^◌, ◌<◌, ◌≡◌, ◌∙◌, refl, ap, sym, false, inl, inr, List, [], ◌∷◌, ◌++◌, leb, length,
  take, drop, Bytes, codes, str_eq, if◌then◌else◌, Bool-cases, Option-cases, All, Dict, lookup,
  lookup-insert, arith,
}
use elasticrelay.Common.Int.{pos, ◌+ℤ◌, wrap64, wrap64-eq, add-pos}
use elasticrelay.Parallel.Chunks.{Outcome, ok, err, panic, ◌>>=◌}
use elasticrelay.Masking.Strategies.{
  Value, text, Library, get_int_param, get_string_param, value_to_string, repeat, mask_middle,
  mask_runes, mask_value,
}
use elasticrelay.Masking.Engine.{Engine, Rule, masked_value, apply_rule, apply}

ok_injective : {A : Type 0} {a b : A} → ok a ≡ ok b → a ≡ b
ok_injective {a = a} e = ap (λ o. elim o [ ok x ↦ x | err t ↦ a | panic ↦ a ]) e

bind_ok :
    {A B : Type 0} (x : Outcome A) (f : A → Outcome B) {b : B}
    → (x >>= f) ≡ ok b
    → (a : A) × (x ≡ ok a) × (f a ≡ ok b)
bind_ok (ok a) f e = (a, refl, e)
bind_ok (err t) f e = absurd (cc)
bind_ok panic f e = absurd (cc)

module _ {Float Other : Type 0} (lib : Library Float Other) where
  -- What is left of a text when prefix and suffix are kept.
  abbrev shown : ℕ → ℕ → Bytes → List ℕ → Bytes
  shown p s char rs =
      if leb (length rs) (p + s)
      then repeat char (length rs)
      else lib.string_of (take p rs)
        ++ (repeat char (length rs - p - s) ++ lib.string_of (drop (length rs - s) rs))

  mask_runes-shown :
      (p s : ℕ) (char : Bytes) (rs : List ℕ)
      → p + s < 2 ^ 63
      → mask_runes lib (pos p) (pos s) char rs ≡ ok (shown p s char rs)
  unfolding mask_runes mask_middle
  mask_runes-shown p s char rs h =
      let fits : wrap64 (pos p +ℤ pos s) ≡ pos (p + s) =
        ap wrap64 (add-pos p s) ∙ wrap64-eq (pos (p + s)) (h, omega arith) in
      rw fits (ground arith)

  shown_same :
      (p s : ℕ) (char : Bytes) (a b : List ℕ)
      → length a ≡ length b
      → take p a ≡ take p b
      → drop (length a - s) a ≡ drop (length b - s) b
      → shown p s char a ≡ shown p s char b
  shown_same p s char a b n front back = rw (front, back, n) refl

  -- If the parameters ask for prefix and suffix of p and s runes, with p + s below 2 ^ 63, Mask returns
  -- a text and neither fails nor panics, and it returns the same text for two values with the same
  -- number of runes that agree in the first p and in the last s runes: what is between is hidden.
  pub mask_value_hides :
      (params : Dict (Value Float Other)) (p s : ℕ) (a b : Bytes)
      → get_int_param lib params (codes "prefix") (pos 3) ≡ pos p
      → get_int_param lib params (codes "suffix") (pos 4) ≡ pos s
      → p + s < 2 ^ 63
      → length (lib.runes a) ≡ length (lib.runes b)
      → take p (lib.runes a) ≡ take p (lib.runes b)
      → drop (length (lib.runes a) - s) (lib.runes a)
        ≡ drop (length (lib.runes b) - s) (lib.runes b)
      → (out : Bytes) × (mask_value lib a params ≡ ok out) × (mask_value lib b params ≡ ok out)
  unfolding mask_value
  mask_value_hides params p s a b ep es h n front back =
      let char = get_string_param params (codes "char") (codes "*") in
      (
        shown p s char (lib.runes a),
        rw (ep, es) (mask_runes-shown p s char (lib.runes a) h),
        rw (ep, es)
            (mask_runes-shown p s char (lib.runes b) h
              ∙ ap ok (sym (shown_same p s char (lib.runes a) (lib.runes b) n front back))),
      )

  apply_rule-lookup :
      (e : Engine Float Other) (rule : Rule Float Other) (fields after : Dict (Value Float Other))
      (k : Bytes)
      → str_eq rule.field k ≡ false
      → apply_rule lib e rule fields ≡ ok after
      → lookup k after ≡ lookup k fields
  unfolding apply_rule
  apply_rule-lookup e rule fields after k apart done =
      elim (Option-cases (lookup rule.field fields)) [
        | inl absent ↦ ap (lookup k) (sym (ok_injective (rw (absent, apply_rule) at done)))
        | inr (v, there) ↦
            let done1 = rw (there, apply_rule) at done in
            elim (Bool-cases (str_eq (value_to_string lib v) [])) [
              | inl empty ↦ ap (lookup k) (sym (ok_injective (rw empty at done1)))
              | inr full ↦
                  let (s, _, put) =
                    bind_ok (masked_value lib e rule (value_to_string lib v)) _
                      (rw full at done1) in
                  ap (lookup k) (sym (ok_injective put))
                  ∙ lookup-insert rule.field k (text s) fields
                  ∙ rw apart refl
            ]
      ]

  -- If Apply returns data, every field that no rule names has in it the value that it had before.
  pub lookup-apply :
      (e : Engine Float Other) (rules : List (Rule Float Other))
      (fields after : Dict (Value Float Other)) (k : Bytes)
      → All (λ rule. str_eq (Rule.field rule) k ≡ false) rules
      → apply lib e rules fields ≡ ok after
      → lookup k after ≡ lookup k fields
  unfolding apply
  lookup-apply e [] fields after k apart done = ap (lookup k) (sym (ok_injective done))
  lookup-apply e (rule ∷ rules) fields after k (here, later) done =
      let (mid, first, rest) = bind_ok (apply_rule lib e rule fields) (apply lib e rules) done in
      lookup-apply e rules mid after k later rest ∙ apply_rule-lookup e rule fields mid k here first
