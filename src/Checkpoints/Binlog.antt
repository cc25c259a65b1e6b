-- ===== src/Checkpoints/Binlog.antt =====
-- MySQL's binlog positions and their order: compareBinlogFiles, extractBinlogNumber and the end of
-- Compare in internal/connectors/mysql/checkpoint.go. `scan_int` is fmt.Sscanf with the verb %d: the
-- number that it leaves in a variable which is 0 before.
use elasticrelay.Common.{
  ℕ, ◌≡◌, ◌↔◌, ◌⊎◌, inl, inr, refl, Option, none, some, Bool, true, false, not, [], ◌∷◌, arith, ltb,
  ◌==◌, if◌then◌else◌, Bytes, str_eq, str_eq_iff, str_eq_refl, str_eq_comm,
}
use elasticrelay.Common.Int.{ℤ, pos, ltb_ℤ}
use elasticrelay.Lsn.Position.{Sign, less, equal, greater}
use elasticrelay.Checkpoints.Legacy.{MysqlPosition}

-- What stands behind the last dot.
unfoldable pub after_last_dot : Bytes → Option Bytes
after_last_dot [] = none
after_last_dot (c ∷ s) = elim (after_last_dot s) [
  | none ↦ if c == b'.' then some s else none
  | some t ↦ some t
]

-- The order `<` on strings: byte by byte.
unfoldable pub text_lt : Bytes → Bytes → Bool
text_lt s [] = false
text_lt [] (d ∷ t) = true
text_lt (c ∷ s) (d ∷ t) =
    let rest = text_lt s t in if ltb c d then true else if ltb d c then false else rest

text_lt_asym : (s t : Bytes) → (text_lt s t ≡ not (text_lt t s)) ⊎ (s ≡ t)
unfolding text_lt
text_lt_asym [] [] = inr refl
text_lt_asym [] (d ∷ t) = inl refl
text_lt_asym (c ∷ s) [] = inl refl
text_lt_asym (c ∷ s) (d ∷ t) = ground (arith, text_lt_asym s t)

abbrev pub flip : Sign → Sign
flip less = greater
flip equal = equal
flip greater = less

-- The offsets decide where the files agree.
abbrev pub then_by : Sign → ℕ → ℕ → Sign
then_by less n m = less
then_by greater n m = greater
then_by equal n m = if ltb n m then less else if ltb m n then greater else equal

then_by-flip : (s : Sign) (n m : ℕ) → then_by (flip s) m n ≡ flip (then_by s n m)
then_by-flip less n m = refl
then_by-flip greater n m = refl
then_by-flip equal n m = ground arith

then_by_equal : (s : Sign) (n m : ℕ) → then_by s n m ≡ equal → (s ≡ equal) × (n ≡ m)
then_by_equal less n m e = (e, absurd (cc))
then_by_equal greater n m e = (e, absurd (cc))
then_by_equal equal n m e = (refl, ground arith)

then_by_refl : (n : ℕ) → then_by equal n n ≡ equal
then_by_refl n = ground arith

module _ (scan_int : Bytes → ℤ) where
  -- extractBinlogNumber
  unfoldable pub extract_binlog_number : Bytes → ℤ
  extract_binlog_number filename = elim (after_last_dot filename) [
    | none ↦ pos 0
    | some digits ↦ if str_eq digits [] then pos 0 else scan_int digits
  ]

  -- compareBinlogFiles
  unfoldable pub compare_binlog_files : Bytes → Bytes → Sign
  compare_binlog_files a b =
      if str_eq a b
      then equal
      else if ltb_ℤ (extract_binlog_number a) (extract_binlog_number b)
      then less
      else if ltb_ℤ (extract_binlog_number b) (extract_binlog_number a)
      then greater
      else if text_lt a b
      then less
      else greater

  -- The positions that Compare has parsed.
  unfoldable pub compare_positions : MysqlPosition → MysqlPosition → Sign
  compare_positions p q =
      then_by (compare_binlog_files (MysqlPosition.file p) (MysqlPosition.file q))
        (MysqlPosition.pos p) (MysqlPosition.pos q)

  files_flip : (a b : Bytes) → compare_binlog_files b a ≡ flip (compare_binlog_files a b)
  unfolding compare_binlog_files
  files_flip a b = ground (arith, str_eq_comm a b, str_eq_iff a b, text_lt_asym a b)

  files_equal : (a b : Bytes) → compare_binlog_files a b ≡ equal → a ≡ b
  unfolding compare_binlog_files
  files_equal a b e = ground (arith, str_eq_iff a b)

  files_refl : (a : Bytes) → compare_binlog_files a a ≡ equal
  unfolding compare_binlog_files
  files_refl a = rw (str_eq_refl a) refl

  same_position : (p q : MysqlPosition) → compare_positions p q ≡ equal → p ≡ q
  unfolding compare_positions
  same_position p q e =
      let (files, offsets) = then_by_equal _ _ _ e in
      let names = files_equal (MysqlPosition.file p) (MysqlPosition.file q) files in cc

  compare_positions_refl : (p : MysqlPosition) → compare_positions p p ≡ equal
  unfolding compare_positions
  compare_positions_refl p =
      rw (files_refl (MysqlPosition.file p)) (then_by_refl (MysqlPosition.pos p))

  flipped : (p q : MysqlPosition) → compare_positions q p ≡ flip (compare_positions p q)
  unfolding compare_positions
  flipped p q = rw (files_flip (MysqlPosition.file p) (MysqlPosition.file q)) (
      then_by-flip (compare_binlog_files (MysqlPosition.file p) (MysqlPosition.file q))
        (MysqlPosition.pos p) (MysqlPosition.pos q))

  -- Two binlog positions compare as equal exactly if they are the same position, and exchanging them
  -- exchanges the answers -1 and 1.
  pub compare_positions_orders :
      (p q : MysqlPosition)
      → ((compare_positions p q ≡ equal) ↔ (p ≡ q))
        × (compare_positions q p ≡ flip (compare_positions p q))
  compare_positions_orders p q =
      ((λ e. same_position p q e, λ e. rw e (compare_positions_refl q)), flipped p q)
