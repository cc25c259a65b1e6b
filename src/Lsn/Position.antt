-- ===== src/Lsn/Position.antt =====
-- Log sequence numbers as texts and as 64-bit values: isValidLSN, compareLSN, LSNToUint64,
-- Uint64ToLSN and FormatLSN of checkpoint.go, and CompareLSN, AdvanceLSN and ValidateLSN of
-- lsn_manager.go (internal/connectors/postgresql). An error is `none`: its text is left out.
use elasticrelay.Common.{
  ℕ, ◌+◌, ◌-◌, ◌*◌, ◌/◌, ◌%◌, ◌^◌, ◌≡◌, refl, Option, none, some, Bool, true, false, ◌&&◌, List, [],
  ◌∷◌, ◌++◌, ltb, ◌==◌, if◌then◌else◌, length, Bytes, codes, str_eq,
}
use elasticrelay.Common.Int.{ℤ, pos, negsuc}
use elasticrelay.Common.Split.{split}
use elasticrelay.Lsn.Hex.{hex_value, scan, parse_uint, emit, format_hex}

abbrev pub max_u32 : ℕ
max_u32 = 2 ^ 32

abbrev pub max_u64 : ℕ
max_u64 = 2 ^ 64

infixl 5 ◌>>=◌
abbrev pub ◌>>=◌ {ℓ κ} : {A : Type ℓ} {B : Type κ} → Option A → (A → Option B) → Option B
none >>= f = none
some a >>= f = f a

-- The results -1, 0 and 1 of a comparison.
pub data Sign : Type 0 where
  less equal greater : Sign

abbrev pub sign : ℕ → ℕ → Sign
sign a b = if ltb a b then less else if ltb b a then greater else equal

-- strings.Split(lsn, "/") with the test that there are two parts.
abbrev pub two_parts : List Bytes → Option (Bytes × Bytes)
two_parts (a ∷ b ∷ []) = some (a, b)
two_parts _ = none

unfoldable pub parts : Bytes → Option (Bytes × Bytes)
parts lsn = two_parts (split b'/' lsn)

-- Both parts are numbers of 64 bits; the test that a part is not empty is that of parse_uint.
unfoldable pub are_hex : Option (Bytes × Bytes) → Bool
are_hex none = false
are_hex (some (a, b)) = elim (parse_uint max_u64 a) [
  | none ↦ false
  | some high ↦ elim (parse_uint max_u64 b) [ none ↦ false | some low ↦ true ]
]

-- isValidLSN
unfoldable pub is_valid_lsn : Bytes → Bool
is_valid_lsn lsn =
    if str_eq lsn [] then false else if str_eq lsn (codes "0/0") then false else are_hex (parts lsn)

-- The two numbers of a position, each below the limit.
unfoldable pub read_pair : ℕ → Bytes → Option (ℕ × ℕ)
read_pair limit lsn = do
  (a, b) ← parts lsn
  high ← parse_uint limit a
  low ← parse_uint limit b
  some (high, low)

-- compareLSN: segments first, then offsets.
unfoldable pub compare_lsn : Bytes → Bytes → Option Sign
compare_lsn a b = if str_eq a b then some equal else do
  (segment, offset) ← read_pair max_u64 a
  (segment', offset') ← read_pair max_u64 b
  some (
      if ltb segment segment'
      then less
      else if ltb segment' segment
      then greater
      else if ltb offset offset'
      then less
      else if ltb offset' offset
      then greater
      else equal)

-- (segment << 32) | offset: the low 32 bits of the shifted segment are 0, and the offset has no
-- others, so the disjunction is a sum.
abbrev pub combine : ℕ × ℕ → ℕ
combine p = p.0 * max_u32 + p.1

-- LSNToUint64
unfoldable pub lsn_to_uint64 : Bytes → Option ℕ
lsn_to_uint64 lsn = do p ← read_pair max_u32 lsn; some (combine p)

-- Uint64ToLSN
unfoldable pub uint64_to_lsn : ℕ → Bytes
uint64_to_lsn v = format_hex (v / max_u32) ++ (b'/' ∷ format_hex (v % max_u32))

-- FormatLSN
unfoldable pub format_lsn : Bytes → Option Bytes
format_lsn lsn = do v ← lsn_to_uint64 lsn; some (uint64_to_lsn v)

-- LSNManager.CompareLSN: the number of parts of both is tested before any part is read.
unfoldable pub manager_compare_lsn : Bytes → Bytes → Option Sign
manager_compare_lsn lsn1 lsn2 = do
  (a1, b1) ← parts lsn1
  (a2, b2) ← parts lsn2
  high1 ← parse_uint max_u32 a1
  low1 ← parse_uint max_u32 b1
  high2 ← parse_uint max_u32 a2
  low2 ← parse_uint max_u32 b2
  some (sign (combine (high1, low1)) (combine (high2, low2)))

-- uint64(bytes)
unfoldable pub to_uint64 : ℤ → ℕ
to_uint64 (pos n) = n % max_u64
to_uint64 (negsuc n) = max_u64 - 1 - n % max_u64

-- LSNManager.AdvanceLSN; the sum is taken modulo 2 ^ 64.
unfoldable pub advance_lsn : Bytes → ℤ → Option Bytes
advance_lsn lsn bytes = do
  (a, b) ← parts lsn
  high ← parse_uint max_u32 a
  low ← parse_uint max_u32 b
  some (
      let val = (combine (high, low) + to_uint64 bytes) % max_u64 in
      format_hex ((val / max_u32) % max_u32) ++ (b'/' ∷ format_hex (val % max_u32)))

-- One part of ValidateLSN.
unfoldable pub valid_part : Bytes → Bool
valid_part part =
    (length part == 8) && elim (parse_uint max_u32 part) [ none ↦ false | some v ↦ true ]

-- LSNManager.ValidateLSN
unfoldable pub validate_lsn : Bytes → Bool
unfolding valid_part
validate_lsn lsn = elim (parts lsn) [ none ↦ false | some (a, b) ↦ valid_part a && valid_part b ]

read_sample : lsn_to_uint64 (codes "1/17B4538") ≡ some 4319823160
unfolding lsn_to_uint64 read_pair parts split parse_uint scan hex_value
read_sample = refl

print_sample : uint64_to_lsn 4319823160 ≡ codes "1/17B4538"
unfolding uint64_to_lsn format_hex emit
print_sample = refl

-- advanced by minus one byte
advance_sample : advance_lsn (codes "1/0") (negsuc 0) ≡ some (codes "0/FFFFFFFF")
unfolding advance_lsn to_uint64 parts split parse_uint scan hex_value format_hex emit
advance_sample = refl
