-- ===== src/Checkpoints/Legacy.antt =====
-- The interface CheckpointManager and MigrateFromLegacy of internal/connectors/checkpoint.go.
use elasticrelay.Common.{
  ℕ, ◌≡◌, Option, none, some, Bool, true, not, ◌&&◌, [], Bytes, Dict, str_eq, if◌then◌else◌,
}
use elasticrelay.Gateway.{Checkpoint}
use elasticrelay.Lsn.Position.{Sign, ◌>>=◌}

-- MySQLPosition
pub record MysqlPosition : Type 0 where
  pub file : Bytes
  pub pos : ℕ

-- The dynamic types of a position; a pointer may be nil.
pub data Position : Type 0 where
  text : Bytes → Position
  text_pointer : Option Bytes → Position
  mysql : MysqlPosition → Position
  mysql_pointer : Option MysqlPosition → Position
  other : Position

-- CheckpointManager. The clock's reading is an argument of CreateCheckpoint, and an error is `none`.
pub record Manager : Type 0 where
  pub is_valid : Option Checkpoint → Bool
  pub create_checkpoint : Position → ℕ → Option Checkpoint
  pub parse_checkpoint : Option Checkpoint → Option Position
  pub compare : Option Checkpoint → Option Checkpoint → Option Sign

-- What MigrateFromLegacy relies on: of a valid checkpoint whose texts the manager's encoding keeps,
-- the position is read, and the checkpoint made of it is valid and has the same position.
abbrev pub Recreates : Manager → (Checkpoint → Bool) → Type 0
Recreates m keeps =
    (c : Checkpoint) (now : ℕ)
    → Manager.is_valid m (some c) ≡ true
    → keeps c ≡ true
    → (p : Position) × (c' : Checkpoint) × (Manager.parse_checkpoint m (some c) ≡ some p)
      × (Manager.create_checkpoint m p now ≡ some c')
      × (Manager.is_valid m (some c') ≡ true)
      × (Manager.parse_checkpoint m (some c') ≡ some p)

abbrev pub is_set : Bytes → Bool
is_set s = not (str_eq s [])

-- MigrateFromLegacy
unfoldable pub migrate_from_legacy : Manager → ℕ → Option Checkpoint → Option Checkpoint
migrate_from_legacy m now none = none
migrate_from_legacy m now (some legacy) =
    if is_set (Checkpoint.position legacy) && is_set (Checkpoint.source_type legacy)
    then some legacy
    else Manager.parse_checkpoint m (some legacy) >>= (λ p. Manager.create_checkpoint m p now)

-- NewCheckpointFromPosition; a nil map is the empty one.
unfoldable pub new_checkpoint_from_position : Bytes → Bytes → Dict Bytes → ℕ → Checkpoint
new_checkpoint_from_position source_type position metadata now = record {
  position = position;
  source_type = source_type;
  metadata = metadata;
  timestamp = now;
  mysql_binlog_file = [];
  mysql_binlog_pos = 0;
  postgres_lsn = [];
  mongo_resume_token = [];
}
