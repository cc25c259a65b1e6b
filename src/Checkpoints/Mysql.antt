-- ===== src/Checkpoints/Mysql.antt =====
-- MySQLCheckpointManager: internal/connectors/mysql/checkpoint.go. json.Marshal and json.Unmarshal of
-- a position are parameters: Unmarshal is `none` on an error. `is_text` is the test for valid UTF-8.
use elasticrelay.Common.{
  ℕ, ◌≡◌, ◌≢◌, refl, Option, none, some, Bool, true, false, ◌&&◌, ◌⊎◌, inl, inr, [], Bytes, codes,
  arith, ltb, str_eq, str_eq_iff, str_eq_refl, if◌then◌else◌, Bool-cases, Option-cases,
}
use elasticrelay.Common.Int.{ℤ}
use elasticrelay.Gateway.{Checkpoint}
use elasticrelay.Lsn.Position.{Sign, ◌>>=◌}
use elasticrelay.Checkpoints.Legacy.{
  MysqlPosition, Position, text, text_pointer, mysql, mysql_pointer, other, Manager, Recreates,
  is_set,
}
use elasticrelay.Checkpoints.Binlog.{compare_positions}

abbrev pub mysql_name : Bytes
mysql_name = codes "mysql"

abbrev pub is_modern : Checkpoint → Bool
is_modern c = str_eq (Checkpoint.source_type c) mysql_name && is_set (Checkpoint.position c)

-- A file name and an offset that is not 0.
abbrev pub is_placed : MysqlPosition → Bool
is_placed p = is_set (MysqlPosition.file p) && ltb 0 (MysqlPosition.pos p)

-- The position in the fields of the old format.
abbrev pub legacy_position : Checkpoint → MysqlPosition
legacy_position c = record {
  file = Checkpoint.mysql_binlog_file c;
  pos = Checkpoint.mysql_binlog_pos c;
}

module _ (marshal : MysqlPosition → Bytes) (unmarshal : Bytes → Option MysqlPosition)
    (scan_int : Bytes → ℤ) where
  -- IsValid
  unfoldable pub is_valid : Option Checkpoint → Bool
  is_valid none = false
  is_valid (some c) =
      if is_modern c
      then elim (unmarshal (Checkpoint.position c)) [ none ↦ false | some p ↦ is_placed p ]
      else is_placed (legacy_position c)

  -- The position that CreateCheckpoint takes out of its argument.
  unfoldable pub position_of : Position → Option MysqlPosition
  position_of (text s) = unmarshal s
  position_of (text_pointer s) = none
  position_of (mysql p) = some p
  position_of (mysql_pointer p) = p
  position_of other = none

  unfoldable pub checkpoint_at : MysqlPosition → ℕ → Checkpoint
  checkpoint_at p now = record {
    position = marshal p;
    source_type = mysql_name;
    metadata = [];
    timestamp = now;
    mysql_binlog_file = MysqlPosition.file p;
    mysql_binlog_pos = MysqlPosition.pos p;
    postgres_lsn = [];
    mongo_resume_token = [];
  }

  -- CreateCheckpoint; json.Marshal does not fail on a position.
  unfoldable pub create_checkpoint : Position → ℕ → Option Checkpoint
  create_checkpoint position now = do
    p ← position_of position
    if is_placed p then some (checkpoint_at p now) else none

  -- ParseCheckpoint; what is returned is a MySQLPosition.
  unfoldable pub parse_position : Option Checkpoint → Option MysqlPosition
  parse_position none = none
  parse_position (some c) =
      if is_modern c
      then unmarshal (Checkpoint.position c)
      else if is_placed (legacy_position c)
      then some (legacy_position c)
      else none

  unfoldable pub parse_checkpoint : Option Checkpoint → Option Position
  parse_checkpoint c = parse_position c >>= (λ p. some (mysql p))

  -- Compare
  unfoldable pub compare : Option Checkpoint → Option Checkpoint → Option Sign
  compare a b = do p ← parse_position a; q ← parse_position b; some (compare_positions scan_int p q)

  abbrev pub manager : Manager
  manager = record {
    is_valid = is_valid;
    create_checkpoint = create_checkpoint;
    parse_checkpoint = parse_checkpoint;
    compare = compare;
  }

  -- Of a valid checkpoint, a position with a file name and an offset is parsed.
  pub is_valid-parse_position :
      (c : Option Checkpoint)
      → is_valid c ≡ true
      → (p : MysqlPosition) × (parse_position c ≡ some p) × (is_placed p ≡ true)
  unfolding is_valid parse_position
  is_valid-parse_position none v = absurd (cc)
  is_valid-parse_position (some c) v = elim (Bool-cases (is_modern c)) [
    | inl modern ↦
        let v1 = rw modern at v in
        elim (Option-cases (unmarshal (Checkpoint.position c))) [
          | inl bad ↦ absurd (cc (rw bad at v1))
          | inr (p, good) ↦ (p, rw modern good, rw good at v1)
        ]
    | inr old ↦ let v1 = rw old at v in (legacy_position c, rw (old, v1) refl, v1)
  ]

  -- What encoding/json documents: a position whose file name is UTF-8 is read back from its encoding,
  -- and an encoding is never the empty text.
  module _ (is_text : Bytes → Bool)
      (round_trip : (p : MysqlPosition)
        → is_text (MysqlPosition.file p) ≡ true
        → unmarshal (marshal p) ≡ some p)
      (nonempty : (p : MysqlPosition) → marshal p ≢ []) where
    marshal-is_set : (p : MysqlPosition) → is_set (marshal p) ≡ true
    marshal-is_set p = ground (arith, nonempty p, str_eq_iff (marshal p) [])

    checkpoint_at-parse :
        (p : MysqlPosition) (now : ℕ)
        → is_text (MysqlPosition.file p) ≡ true
        → is_placed p ≡ true
        → (is_valid (some (checkpoint_at p now)) ≡ true)
          × (parse_position (some (checkpoint_at p now)) ≡ some p)
    unfolding is_valid parse_position checkpoint_at
    checkpoint_at-parse p now utf8 placed =
        let set = marshal-is_set p in
        let read = round_trip p utf8 in
        (
          rw (str_eq_refl mysql_name, set, read, placed) refl,
          rw (str_eq_refl mysql_name, set, read) refl,
        )

    -- The checkpoint's position has a file name that is UTF-8.
    unfoldable pub keeps : Checkpoint → Bool
    keeps c = elim (parse_position (some c)) [
      | none ↦ false
      | some p ↦ is_text (MysqlPosition.file p)
    ]

    -- With an encoding that keeps UTF-8 file names, CreateCheckpoint of a MySQLPosition with a UTF-8
    -- file name fails if the name is empty or the offset is 0, and otherwise makes a checkpoint that is
    -- valid, carries the position in the old fields too, and is parsed to that position.
    pub create_checkpoint-mysql :
        (p : MysqlPosition) (now : ℕ)
        → is_text (MysqlPosition.file p) ≡ true
        → ((is_placed p ≡ false) × (create_checkpoint (mysql p) now ≡ none))
          ⊎ ((c : Checkpoint) × (create_checkpoint (mysql p) now ≡ some c)
              × (legacy_position c ≡ p)
              × (is_valid (some c) ≡ true)
              × (parse_checkpoint (some c) ≡ some (mysql p)))
    unfolding create_checkpoint position_of parse_checkpoint checkpoint_at
    create_checkpoint-mysql p now utf8 = elim (Bool-cases (is_placed p)) [
      | inr unplaced ↦ inl (unplaced, rw unplaced refl)
      | inl placed ↦
          let (valid, read) = checkpoint_at-parse p now utf8 placed in
          inr (checkpoint_at p now, rw placed refl, refl, valid, rw read refl)
    ]

    -- The interface's law, for the checkpoints whose file name is UTF-8.
    pub manager-Recreates : Recreates manager keeps
    unfolding create_checkpoint position_of parse_checkpoint keeps
    manager-Recreates c now valid kept =
        let (p, read, placed) = is_valid-parse_position (some c) valid in
        let utf8 = rw (keeps, read) at kept in
        let (valid', read') = checkpoint_at-parse p now utf8 placed in
        (mysql p, checkpoint_at p now, rw read refl, rw placed refl, valid', rw read' refl)
