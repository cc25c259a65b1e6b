-- ===== src/Lsn/Hex.antt =====
-- Hexadecimal numbers as Go's standard library reads and prints them: strconv.ParseUint(s, 16, bits)
-- and the verb %X of package fmt.
use elasticrelay.Common.{
  ℕ, zero, suc, ◌+◌, ◌-◌, ◌*◌, ◌/◌, ◌%◌, ◌^◌, ◌≤◌, ◌<◌, ◌≡◌, ◌≢◌, refl, ◌∙◌, ap, sym, Option, none,
  some, false, ◌&&◌, inl, inr, [], ◌∷◌, length, Bytes, Lacks, ltb, leb, ◌==◌, if◌then◌else◌,
  Bool-cases, ==_iff, Option-cases, arith,
}
use native.Mathlib.Nat.{pow-suc}
use mathlib.Core.List.{cons-ne-nil}

unfoldable pub hex_value : ℕ → Option ℕ
hex_value c =
    if leb b'0' c && leb c b'9'
    then some (c - b'0')
    else if leb b'A' c && leb c b'F'
    then some (c - b'A' + 10)
    else if leb b'a' c && leb c b'f'
    then some (c - b'a' + 10)
    else none

-- The digits behind `n`; a number that reaches the limit is out of range.
unfoldable pub scan : ℕ → Bytes → ℕ → Option ℕ
scan limit [] n = some n
scan limit (c ∷ s) n = elim (hex_value c) [
  | none ↦ none
  | some d ↦ if leb limit (n * 16 + d) then none else scan limit s (n * 16 + d)
]

-- strconv.ParseUint(s, 16, bits), with the limit 2 ^ bits; the empty text is an error.
unfoldable pub parse_uint : ℕ → Bytes → Option ℕ
parse_uint limit [] = none
parse_uint limit (c ∷ s) = scan limit (c ∷ s) 0

unfoldable pub hex_digit : ℕ → ℕ
hex_digit d = if ltb d 10 then b'0' + d else b'A' + (d - 10)

-- One digit in each round, the last one first.
unfoldable pub emit : ℕ → ℕ → Bytes → Bytes
unfolding hex_digit
emit zero n out = out
emit (suc f) n out =
    let rest = emit f (n / 16) (hex_digit (n % 16) ∷ out) in if n == 0 then out else rest

-- fmt.Sprintf("%X", n); sixteen digits print every number below 2 ^ 64.
unfoldable pub format_hex : ℕ → Bytes
format_hex n = if n == 0 then b'0' ∷ [] else emit 16 n []

hex_value-hex_digit : (d : ℕ) → d < 16 → hex_value (hex_digit d) ≡ some d
unfolding hex_value hex_digit
hex_value-hex_digit d h = ground arith

scan_digit :
    (limit n : ℕ) (out : Bytes)
    → n < limit
    → scan limit (hex_digit (n % 16) ∷ out) (n / 16) ≡ scan limit out n
unfolding scan
scan_digit limit n out h =
    let whole : n / 16 * 16 + n % 16 ≡ n = omega arith in
    rw (hex_value-hex_digit (n % 16) (omega arith), scan) (rw whole (ground (arith, h)))

shrink : (f n : ℕ) → n < 16 ^ suc f → n / 16 < 16 ^ f
shrink f n h = let e = pow-suc 16 f in omega (arith, e)

scan-emit :
    (limit f n : ℕ) (out : Bytes)
    → n < 16 ^ f
    → n < limit
    → scan limit (emit f n out) 0 ≡ scan limit out n
unfolding emit
scan-emit limit zero n out h k = let e : n ≡ 0 = omega arith in rw e
scan-emit limit (suc f) n out h k = elim (Bool-cases (n == 0)) [
  | inl stop ↦ rw stop (let e = (==_iff n 0).0 stop in rw e)
  | inr more ↦
      rw more (scan-emit limit f (n / 16) _ (shrink f n h) (omega arith) ∙ scan_digit limit n out k)
]

emit-ne-nil : (f n : ℕ) (out : Bytes) → out ≢ [] → emit f n out ≢ []
unfolding emit
emit-ne-nil zero n out h = h
emit-ne-nil (suc f) n out h = elim (Bool-cases (n == 0)) [
  | inl stop ↦ rw stop h
  | inr more ↦ rw more (emit-ne-nil f (n / 16) (hex_digit (n % 16) ∷ out) (cons-ne-nil _ out))
]

emit-suc-ne-nil : (f n : ℕ) → (n == 0) ≡ false → emit (suc f) n [] ≢ []
unfolding emit
emit-suc-ne-nil f n more = rw more (emit-ne-nil f (n / 16) _ (cons-ne-nil (hex_digit (n % 16)) []))

format_hex-ne-nil : (n : ℕ) → format_hex n ≢ []
unfolding format_hex
format_hex-ne-nil n = elim (Bool-cases (n == 0)) [
  | inl z ↦ rw z (cons-ne-nil b'0' [])
  | inr more ↦ rw more (emit-suc-ne-nil 15 n more)
]

parse_uint-scan : (limit : ℕ) (s : Bytes) → s ≢ [] → parse_uint limit s ≡ scan limit s 0
unfolding parse_uint
parse_uint-scan limit [] h = absurd (h refl)
parse_uint-scan limit (c ∷ s) h = refl

scan_zero : (limit : ℕ) → 0 < limit → scan limit (b'0' ∷ []) 0 ≡ some 0
unfolding scan hex_value
scan_zero limit h = ground (arith, h)

scan_nil : (limit n : ℕ) → scan limit [] n ≡ some n
unfolding scan
scan_nil limit n = refl

scan-format_hex : (limit n : ℕ) → n < limit → n < 2 ^ 64 → scan limit (format_hex n) 0 ≡ some n
unfolding format_hex
scan-format_hex limit n h k = elim (Bool-cases (n == 0)) [
  | inl z ↦ rw z (scan_zero limit (omega arith) ∙ ap some (sym ((==_iff n 0).0 z)))
  | inr more ↦ rw more (scan-emit limit 16 n [] (omega arith) h ∙ scan_nil limit n)
]

-- A number below the limit is read back from its print.
pub parse_uint-format_hex :
    (limit n : ℕ) → n < limit → n < 2 ^ 64 → parse_uint limit (format_hex n) ≡ some n
parse_uint-format_hex limit n h k =
    parse_uint-scan limit (format_hex n) (format_hex-ne-nil n) ∙ scan-format_hex limit n h k

-- One accepted character.
scan_inv :
    (limit c : ℕ) (s : Bytes) (n : ℕ) {v : ℕ}
    → scan limit (c ∷ s) n ≡ some v
    → (d : ℕ) × (hex_value c ≡ some d) × (n * 16 + d < limit) × (scan limit s (n * 16 + d) ≡ some v)
unfolding scan
scan_inv limit c s n e = elim (Option-cases (hex_value c)) [
  | inl bad ↦ absurd (cc (rw (bad, scan) at e))
  | inr (d, digit) ↦
      let e' = rw (digit, scan) at e in
      elim (Bool-cases (leb limit (n * 16 + d))) [
        | inl over ↦ absurd (cc (rw over at e'))
        | inr fits ↦ (d, digit, ground arith, rw fits at e')
      ]
]

scan_step :
    (limit c : ℕ) (s : Bytes) (n : ℕ) {d : ℕ}
    → hex_value c ≡ some d
    → n * 16 + d < limit
    → scan limit (c ∷ s) n ≡ scan limit s (n * 16 + d)
unfolding scan
scan_step limit c s n digit fits = rw (digit, scan) (ground (arith, fits))

scan-lt : (limit : ℕ) (s : Bytes) (n : ℕ) {v : ℕ} → n < limit → scan limit s n ≡ some v → v < limit
scan-lt limit [] n h e = unfold scan in ground (arith, e)
scan-lt limit (c ∷ s) n h e =
    let (d, _, fits, rest) = scan_inv limit c s n e in scan-lt limit s (n * 16 + d) fits rest

scan_widen :
    (limit wide : ℕ) (s : Bytes) (n : ℕ) {v : ℕ}
    → limit ≤ wide
    → scan limit s n ≡ some v
    → scan wide s n ≡ some v
scan_widen limit wide [] n h e = unfold scan in e
scan_widen limit wide (c ∷ s) n h e =
    let (d, digit, fits, rest) = scan_inv limit c s n e in
    scan_step wide c s n digit (omega arith) ∙ scan_widen limit wide s (n * 16 + d) h rest

-- What is read stays below the limit.
pub parse_uint-lt :
    (limit : ℕ) (s : Bytes) {v : ℕ} → 0 < limit → parse_uint limit s ≡ some v → v < limit
unfolding parse_uint
parse_uint-lt limit [] h e = absurd (cc)
parse_uint-lt limit (c ∷ s) h e = scan-lt limit (c ∷ s) 0 h e

-- A wider limit reads the same number.
pub parse_uint_widen :
    (limit wide : ℕ) (s : Bytes) {v : ℕ}
    → limit ≤ wide
    → parse_uint limit s ≡ some v
    → parse_uint wide s ≡ some v
unfolding parse_uint
parse_uint_widen limit wide [] h e = e
parse_uint_widen limit wide (c ∷ s) h e = scan_widen limit wide (c ∷ s) 0 h e

-- The digits of a print are no slashes.
emit-Lacks : (f n : ℕ) (out : Bytes) → Lacks b'/' out → Lacks b'/' (emit f n out)
unfolding emit
emit-Lacks zero n out h = h
emit-Lacks (suc f) n out h = elim (Bool-cases (n == 0)) [
  | inl stop ↦ rw stop h
  | inr more ↦ rw more (emit-Lacks f (n / 16) _ (ground arith, h))
]

pub format_hex-Lacks : (n : ℕ) → Lacks b'/' (format_hex n)
unfolding format_hex
format_hex-Lacks n = elim (Bool-cases (n == 0)) [
  | inl z ↦ rw z (omega arith)
  | inr more ↦ rw more (emit-Lacks 16 n [] tt)
]

length-emit : (k f n : ℕ) (out : Bytes) → n < 16 ^ k → length (emit f n out) ≤ k + length out
unfolding emit
length-emit k zero n out h = omega arith
length-emit zero (suc f) n out h = let e : n ≡ 0 = omega arith in rw e (omega arith)
length-emit (suc k) (suc f) n out h = elim (Bool-cases (n == 0)) [
  | inl stop ↦ rw stop (omega arith)
  | inr more ↦
      rw more (omega (arith, length-emit k f (n / 16) (hex_digit (n % 16) ∷ out) (shrink k n h)))
]

-- A positive number below 16 ^ k has at most k digits.
pub length-format_hex : (k n : ℕ) → 0 < k → n < 16 ^ k → length (format_hex n) ≤ k
unfolding format_hex
length-format_hex k n h small = elim (Bool-cases (n == 0)) [
  | inl z ↦ rw z (omega arith)
  | inr more ↦ rw more (omega (arith, length-emit k 16 n [] small))
]
