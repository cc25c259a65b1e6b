-- ===== src/Common/Decimal.antt =====
-- The decimal print of an unsigned 64-bit number: the verb %d of Go's package fmt.
use elasticrelay.Common.{
  ℕ, zero, suc, ◌+◌, ◌/◌, ◌%◌, ◌≡◌, refl, [], ◌∷◌, Bytes, codes, ◌==◌, if◌then◌else◌,
}

-- One digit in each round, the last one first; twenty rounds print every number below 2 ^ 64.
emit : ℕ → ℕ → Bytes → Bytes
emit zero n out = out
emit (suc f) n out =
    let rest = emit f (n / 10) ((b'0' + n % 10) ∷ out) in if n == 0 then out else rest

unfoldable pub format : ℕ → Bytes
unfolding emit
format n = if n == 0 then b'0' ∷ [] else emit 20 n []

format_largest : format 18446744073709551615 ≡ codes "18446744073709551615"
unfolding format
format_largest = refl
