-- ===== src/Lsn/RoundTrip.antt =====
-- Positions read back from their prints: LSNToUint64, Uint64ToLSN and FormatLSN of checkpoint.go,
-- AdvanceLSN and ValidateLSN of lsn_manager.go (internal/connectors/postgresql).
use elasticrelay.Common.{
  some_injective, ℕ, ◌+◌, ◌*◌, ◌/◌, ◌%◌, ◌^◌, ◌<◌, ◌≡◌, refl, ap, ◌∙◌, some, false, ◌∷◌, ◌++◌,
  arith, Option-cases, Bytes, Lacks, inl, inr,
}
use elasticrelay.Common.Int.{ℤ}
use elasticrelay.Common.Split.{split_lacking, split_at_sep}
use elasticrelay.Lsn.Hex.{
  parse_uint, format_hex, parse_uint-format_hex, parse_uint-lt, format_hex-Lacks, length-format_hex,
}
use elasticrelay.Lsn.Position.{
  max_u32, max_u64, parts, two_parts, read_pair, combine, lsn_to_uint64, uint64_to_lsn, format_lsn,
  to_uint64, advance_lsn, valid_part, validate_lsn,
}

-- The two parts of a joined pair.
pub parts-join : (a b : Bytes) → Lacks b'/' a → Lacks b'/' b → parts (a ++ (b'/' ∷ b)) ≡ some (a, b)
unfolding parts
parts-join a b ha hb =
    ap two_parts (split_at_sep b'/' a b ha ∙ ap (◌∷◌ a) (split_lacking b'/' b hb))

parts-uint64_to_lsn :
    (v : ℕ) → parts (uint64_to_lsn v) ≡ some (format_hex (v / max_u32), format_hex (v % max_u32))
unfolding uint64_to_lsn
parts-uint64_to_lsn v = parts-join _ _ (format_hex-Lacks _) (format_hex-Lacks _)

read_pair-uint64_to_lsn :
    (v : ℕ) → v < max_u64 → read_pair max_u32 (uint64_to_lsn v) ≡ some (v / max_u32, v % max_u32)
unfolding read_pair
read_pair-uint64_to_lsn v h =
    rw
      (
        parts-uint64_to_lsn v,
        parse_uint-format_hex max_u32 (v / max_u32) (omega arith) (omega arith),
        parse_uint-format_hex max_u32 (v % max_u32) (omega arith) (omega arith),
      )
      refl

-- For every 64-bit value, LSNToUint64 reads the text that Uint64ToLSN prints for it back as that
-- value.
pub lsn_to_uint64-uint64_to_lsn : (v : ℕ) → v < 2 ^ 64 → lsn_to_uint64 (uint64_to_lsn v) ≡ some v
unfolding lsn_to_uint64
lsn_to_uint64-uint64_to_lsn v h =
    rw (read_pair-uint64_to_lsn v h)
      (let whole : v / max_u32 * max_u32 + v % max_u32 ≡ v = omega arith in ap some whole)

-- What a pair that was read consists of.
pub read_pair_inv :
    (limit : ℕ) (lsn : Bytes) {p : ℕ × ℕ}
    → read_pair limit lsn ≡ some p
    → (a : Bytes) × (b : Bytes) × (parts lsn ≡ some (a, b))
      × (parse_uint limit a ≡ some p.0)
      × (parse_uint limit b ≡ some p.1)
unfolding read_pair
read_pair_inv limit lsn e = elim (Option-cases (parts lsn)) [
  | inl bad ↦ absurd (cc (rw bad at e))
  | inr ((a, b), two) ↦
      let e1 = rw two at e in
      elim (Option-cases (parse_uint limit a)) [
        | inl bad ↦ absurd (cc (rw bad at e1))
        | inr (high, ea) ↦
            let e2 = rw ea at e1 in
            elim (Option-cases (parse_uint limit b)) [
              | inl bad ↦ absurd (cc (rw bad at e2))
              | inr (low, eb) ↦
                  let e3 = some_injective (rw eb at e2) in
                  (a, b, two, ea ∙ ap some (ap (λ q. q.0) e3), eb ∙ ap some (ap (λ q. q.1) e3))
            ]
      ]
]

-- Both numbers of a pair are below the limit.
pub read_pair-lt :
    (limit : ℕ) (lsn : Bytes) {p : ℕ × ℕ}
    → 0 < limit
    → read_pair limit lsn ≡ some p
    → (p.0 < limit) × (p.1 < limit)
read_pair-lt limit lsn h e =
    let (a, b, _, ea, eb) = read_pair_inv limit lsn e in
    (parse_uint-lt limit a h ea, parse_uint-lt limit b h eb)

pub lsn_to_uint64_inv :
    (lsn : Bytes) {v : ℕ}
    → lsn_to_uint64 lsn ≡ some v
    → (p : ℕ × ℕ) × (read_pair max_u32 lsn ≡ some p) × (combine p ≡ v)
unfolding lsn_to_uint64
lsn_to_uint64_inv lsn e = elim (Option-cases (read_pair max_u32 lsn)) [
  | inl bad ↦ absurd (cc (rw bad at e))
  | inr (p, good) ↦ (p, good, some_injective (rw good at e))
]

-- A value that was read has 64 bits.
pub lsn_to_uint64-lt : (lsn : Bytes) {v : ℕ} → lsn_to_uint64 lsn ≡ some v → v < max_u64
lsn_to_uint64-lt lsn e =
    let (p, good, total) = lsn_to_uint64_inv lsn e in
    let (high, low) = read_pair-lt max_u32 lsn (omega arith) good in omega (arith, high, low, total)

-- On a text that LSNToUint64 reads, FormatLSN returns a text with the same value, and FormatLSN
-- leaves the text it returned as it is.
pub format_lsn_stable :
    (lsn : Bytes) (v : ℕ)
    → lsn_to_uint64 lsn ≡ some v
    → (out : Bytes) × (format_lsn lsn ≡ some out)
      × (lsn_to_uint64 out ≡ some v)
      × (format_lsn out ≡ some out)
unfolding format_lsn
format_lsn_stable lsn v e =
    let back = lsn_to_uint64-uint64_to_lsn v (lsn_to_uint64-lt lsn e) in
    (uint64_to_lsn v, rw e refl, back, rw back refl)

advance_print :
    (v : ℕ)
    → v < max_u64
    → format_hex ((v / max_u32) % max_u32) ++ (b'/' ∷ format_hex (v % max_u32)) ≡ uint64_to_lsn v
unfolding uint64_to_lsn
advance_print v h = let e : (v / max_u32) % max_u32 ≡ v / max_u32 = omega arith in rw e refl

-- On a text that LSNToUint64 reads as v, AdvanceLSN returns the print of v + bytes, taken modulo
-- 2 ^ 64 with a negative number of bytes in two's complement, and LSNToUint64 reads that value back.
pub advance_lsn_adds :
    (lsn : Bytes) (bytes : ℤ) (v : ℕ)
    → lsn_to_uint64 lsn ≡ some v
    → (out : Bytes) × (advance_lsn lsn bytes ≡ some out)
      × (lsn_to_uint64 out ≡ some ((v + to_uint64 bytes) % 2 ^ 64))
unfolding advance_lsn
advance_lsn_adds lsn bytes v e =
    let (p, good, total) = lsn_to_uint64_inv lsn e in
    let (a, b, two, ea, eb) = read_pair_inv max_u32 lsn good in
    let sum = (v + to_uint64 bytes) % max_u64 in
    (
      uint64_to_lsn sum,
      rw (two, ea, eb, total) (ap some (advance_print sum (omega arith))),
      lsn_to_uint64-uint64_to_lsn sum (omega arith),
    )

valid_part_short : (n : ℕ) → n < 16 ^ 7 → valid_part (format_hex n) ≡ false
unfolding valid_part
valid_part_short n h = ground (arith, length-format_hex 7 n (omega arith) h)

-- Uint64ToLSN prints no padding, so ValidateLSN refuses what it prints for every value whose first
-- part has fewer than eight digits, although LSNToUint64 reads it.
pub validate_lsn-uint64_to_lsn :
    (v : ℕ)
    → v < 2 ^ 60
    → (validate_lsn (uint64_to_lsn v) ≡ false) × (lsn_to_uint64 (uint64_to_lsn v) ≡ some v)
unfolding validate_lsn
validate_lsn-uint64_to_lsn v h = (
  rw (validate_lsn, parts-uint64_to_lsn v)
      (ground (arith, valid_part_short (v / max_u32) (omega arith))),
  lsn_to_uint64-uint64_to_lsn v (omega arith),
)
