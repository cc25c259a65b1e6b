-- ===== src/Lsn/Orders.antt =====
-- Comparing positions: compareLSN of internal/connectors/postgresql/checkpoint.go and
-- LSNManager.CompareLSN of lsn_manager.go in the same directory.
use elasticrelay.Common.{
  some_injective, ℕ, ◌<◌, ◌≡◌, refl, sym, ap, ◌∙◌, some, true, arith, ltb, Bool-cases, Option-cases,
  [], inl, inr, Bytes, codes, str_eq, str_eq_iff, if◌then◌else◌,
}
use elasticrelay.Lsn.Hex.{parse_uint, parse_uint_widen}
use elasticrelay.Lsn.Position.{
  max_u32, max_u64, parts, Sign, less, equal, greater, sign, read_pair, are_hex, combine,
  lsn_to_uint64, compare_lsn, manager_compare_lsn, is_valid_lsn,
}
use elasticrelay.Lsn.RoundTrip.{read_pair_inv, read_pair-lt, lsn_to_uint64_inv}

-- The order on pairs that compareLSN computes.
abbrev pair_sign : ℕ × ℕ → ℕ × ℕ → Sign
pair_sign p q =
    if ltb p.0 q.0
    then less
    else if ltb q.0 p.0
    then greater
    else if ltb p.1 q.1
    then less
    else if ltb q.1 p.1
    then greater
    else equal

pair_sign-sign :
    (p q : ℕ × ℕ)
    → p.0 < max_u32
    → p.1 < max_u32
    → q.0 < max_u32
    → q.1 < max_u32
    → pair_sign p q ≡ sign (combine p) (combine q)
pair_sign-sign (a, b) (c, d) h1 h2 h3 h4 = ground arith

sign_refl : (n : ℕ) → sign n n ≡ equal
sign_refl n = ground arith

read_pair_widen :
    (lsn : Bytes) {p : ℕ × ℕ} → read_pair max_u32 lsn ≡ some p → read_pair max_u64 lsn ≡ some p
unfolding read_pair
read_pair_widen lsn e =
    let (a, b, two, ea, eb) = read_pair_inv max_u32 lsn e in
    rw
      (
        two,
        parse_uint_widen max_u32 max_u64 a (omega arith) ea,
        parse_uint_widen max_u32 max_u64 b (omega arith) eb,
      )
      refl

compare_lsn-sign :
    (a b : Bytes) (x y : ℕ)
    → lsn_to_uint64 a ≡ some x
    → lsn_to_uint64 b ≡ some y
    → compare_lsn a b ≡ some (sign x y)
unfolding compare_lsn
compare_lsn-sign a b x y ea eb = elim (Bool-cases (str_eq a b)) [
  | inl same ↦
      let ab = (str_eq_iff a b).0 same in
      let xy : x ≡ y = some_injective (sym ea ∙ ap lsn_to_uint64 ab ∙ eb) in
      rw same (ap some (sym (rw xy (sign_refl y))))
  | inr other ↦
      let (p, good, total) = lsn_to_uint64_inv a ea in
      let (q, good', total') = lsn_to_uint64_inv b eb in
      let (p0, p1) = read_pair-lt max_u32 a (omega arith) good in
      let (q0, q1) = read_pair-lt max_u32 b (omega arith) good' in
      rw (other, read_pair_widen a good, read_pair_widen b good')
        (ap some (pair_sign-sign p q p0 p1 q0 q1 ∙ rw (total, total') refl))
]

manager_compare_lsn-sign :
    (a b : Bytes) (x y : ℕ)
    → lsn_to_uint64 a ≡ some x
    → lsn_to_uint64 b ≡ some y
    → manager_compare_lsn a b ≡ some (sign x y)
unfolding manager_compare_lsn
manager_compare_lsn-sign a b x y ea eb =
    let (p, good, total) = lsn_to_uint64_inv a ea in
    let (q, good', total') = lsn_to_uint64_inv b eb in
    let (a1, b1, two, ea1, eb1) = read_pair_inv max_u32 a good in
    let (a2, b2, two', ea2, eb2) = read_pair_inv max_u32 b good' in
    rw (two, two', ea1, eb1, ea2, eb2) (rw (total, total') refl)

read_pair-are_hex :
    (lsn : Bytes) → are_hex (parts lsn) ≡ true → (p : ℕ × ℕ) × (read_pair max_u64 lsn ≡ some p)
unfolding are_hex read_pair
read_pair-are_hex lsn v = elim (Option-cases (parts lsn)) [
  | inl bad ↦ absurd (cc (rw (bad, are_hex) at v))
  | inr ((a, b), two) ↦
      let v1 = rw (two, are_hex) at v in
      elim (Option-cases (parse_uint max_u64 a)) [
        | inl bad ↦ absurd (cc (rw bad at v1))
        | inr (high, ea) ↦
            let v2 = rw ea at v1 in
            elim (Option-cases (parse_uint max_u64 b)) [
              | inl bad ↦ absurd (cc (rw bad at v2))
              | inr (low, eb) ↦ ((high, low), rw (two, ea, eb) refl)
            ]
      ]
]

is_valid_lsn-read_pair :
    (lsn : Bytes) → is_valid_lsn lsn ≡ true → (p : ℕ × ℕ) × (read_pair max_u64 lsn ≡ some p)
unfolding is_valid_lsn
is_valid_lsn-read_pair lsn v = elim (Bool-cases (str_eq lsn [])) [
  | inl empty ↦ absurd (cc (rw empty at v))
  | inr full ↦
      let v1 = rw full at v in
      elim (Bool-cases (str_eq lsn (codes "0/0"))) [
        | inl unset ↦ absurd (cc (rw unset at v1))
        | inr set ↦ read_pair-are_hex lsn (rw set at v1)
      ]
]

-- On two texts that LSNToUint64 reads as x and y, compareLSN and CompareLSN both return the order
-- of x and y, with no error.
pub compare_lsn_orders :
    (a b : Bytes) (x y : ℕ)
    → lsn_to_uint64 a ≡ some x
    → lsn_to_uint64 b ≡ some y
    → (compare_lsn a b ≡ some (sign x y)) × (manager_compare_lsn a b ≡ some (sign x y))
compare_lsn_orders a b x y ea eb =
    (compare_lsn-sign a b x y ea eb, manager_compare_lsn-sign a b x y ea eb)

-- For two texts that isValidLSN accepts, compareLSN returns an answer and no error.
pub is_valid_lsn-compare_lsn :
    (a b : Bytes)
    → is_valid_lsn a ≡ true
    → is_valid_lsn b ≡ true
    → (s : Sign) × (compare_lsn a b ≡ some s)
unfolding compare_lsn
is_valid_lsn-compare_lsn a b va vb = elim (Bool-cases (str_eq a b)) [
  | inl same ↦ (equal, rw same refl)
  | inr other ↦
      let ((h, l), ea) = is_valid_lsn-read_pair a va in
      let ((h', l'), eb) = is_valid_lsn-read_pair b vb in
      (pair_sign (h, l) (h', l'), rw (other, ea, eb) refl)
]
