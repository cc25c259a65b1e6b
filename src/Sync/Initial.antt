-- ===== src/Sync/Initial.antt =====
-- The decision on the initial sync of a job: needsInitialSync and what it calls in
-- internal/orchestrator/multi_orchestrator.go. The encodings of MySQL positions, the answers of the
-- sink's DescribeIndex and strings.ToLower are parameters. A panic is `none`.
use elasticrelay.Common.{
  Option, none, some, Bool, true, false, ◌||◌, ◌&&◌, List, [], ◌∷◌, ◌++◌, leb, ltb, if◌then◌else◌,
  Bytes, codes, length, str_eq, Dict, lookup,
}
use elasticrelay.Common.Int.{ℤ, pos, ◌+ℤ◌, wrap64, ltb_ℤ}
use elasticrelay.Gateway.{Checkpoint}
use elasticrelay.Checkpoints.Mysql
use elasticrelay.Checkpoints.Legacy.{MysqlPosition}
use elasticrelay.Checkpoints.Postgres

-- A value of the options of a job or of a sink.
pub data Setting : Type 0 where
  boolean : Bool → Setting
  text : Bytes → Setting
  another : Setting

abbrev pub Settings : Type 0
Settings = Option (Dict Setting)

abbrev pub setting : Bytes → Settings → Option Setting
setting key none = none
setting key (some m) = lookup key m

-- The test of an option that counts only as a Boolean true.
abbrev pub is_on : Option Setting → Bool
is_on (some (boolean b)) = b
is_on other = false

abbrev pub unless_off : Option Setting → Bool
unless_off (some (boolean b)) = b
unless_off other = true

-- isInitialSyncEnabledInConfig
unfoldable pub is_initial_sync_enabled : Settings → Bool
is_initial_sync_enabled options = unless_off (setting (codes "initial_sync") options)

-- shouldForceInitialSync: the option consistency_check changes nothing yet.
unfoldable pub should_force_initial_sync : Settings → Bool
should_force_initial_sync options = is_on (setting (codes "force_initial_sync") options)

-- What loadCheckpointsFromFile finds; a null in the file is a nil checkpoint.
pub data CheckpointFile : Type 0 where
  missing unreadable garbled : CheckpointFile
  holds : Dict (Option Checkpoint) → CheckpointFile

unfoldable pub load_checkpoints_from_file : CheckpointFile → Option (Dict (Option Checkpoint))
load_checkpoints_from_file missing = some []
load_checkpoints_from_file (holds m) = some m
load_checkpoints_from_file other = none

-- hasValidCheckpointLegacy; a nil checkpoint panics.
unfoldable pub has_valid_checkpoint_legacy : Option Checkpoint → Option Bool
has_valid_checkpoint_legacy none = none
has_valid_checkpoint_legacy (some c) = some (
    (leb 1 (length c.mysql_binlog_file) && ltb 0 c.mysql_binlog_pos)
    || ((leb 1 (length c.postgres_lsn)
          && (if str_eq c.postgres_lsn (codes "0/0") then false else true))
        || leb 1 (length c.mongo_resume_token)))

-- An answer of DescribeIndex: an error of the call or of its JSON, or what it says of the index.
pub data Described : Type 0 where
  failed : Described
  index : Bool → ℤ → Described

-- The loop of targetSystemHasData: the sum of documents, as an int64.
unfoldable pub count_documents : List Described → ℤ → ℤ
count_documents [] total = total
count_documents (index true n ∷ ds) total = count_documents ds (wrap64 (total +ℤ n))
count_documents (other ∷ ds) total = count_documents ds total

-- The configuration of a connector.
pub record ConnectorConfig : Type 0 where
  pub type : Bytes
  pub table_filters : List Bytes

-- What of MultiJob the decision reads.
pub record Start : Type 0 where
  pub id : Bytes
  pub job_options : Settings
  pub sink_config : Settings
  pub connector : Option ConnectorConfig
  pub has_sink : Bool

abbrev pub index_prefix : Option Setting → Bytes
index_prefix (some (text [])) = codes "elasticrelay"
index_prefix (some (text (c ∷ s))) = c ∷ s
index_prefix other = codes "elasticrelay"

abbrev pub tables_of : Option ConnectorConfig → List Bytes
tables_of none = []
tables_of (some config) = config.table_filters

abbrev pub unless_valid : Bool → Option Bool → Option Bool
unless_valid data_there none = none
unless_valid data_there (some true) = some false
unless_valid data_there (some false) = some (if data_there then false else true)

module _ (marshal : MysqlPosition → Bytes) (unmarshal : Bytes → Option MysqlPosition)
    (scan_int : Bytes → ℤ) (to_lower : Bytes → Bytes) (describe : Bytes → Described) where
  -- getCheckpointManager, and the check by the manager that it gives.
  abbrev pub valid_for : Option ConnectorConfig → Option Checkpoint → Option Bool
  valid_for none c = has_valid_checkpoint_legacy c
  valid_for (some config) c =
      if str_eq config.type (codes "mysql")
      then some (Mysql.is_valid marshal unmarshal scan_int c)
      else if str_eq config.type (codes "postgresql")
      then some (Postgres.is_valid c)
      else has_valid_checkpoint_legacy c

  abbrev pub valid_entry : Option ConnectorConfig → Option (Option Checkpoint) → Option Bool
  valid_entry config none = some false
  valid_entry config (some c) = valid_for config c

  abbrev pub valid_among : Start → Option (Dict (Option Checkpoint)) → Option Bool
  valid_among j none = some false
  valid_among j (some m) = valid_entry j.connector (lookup j.id m)

  -- hasValidCheckpoint
  unfoldable pub has_valid_checkpoint : CheckpointFile → Start → Option Bool
  has_valid_checkpoint file j = valid_among j (load_checkpoints_from_file file)

  -- generateIndexName
  unfoldable pub generate_index_name : Start → Bytes → Bytes
  generate_index_name j [] =
      index_prefix (setting (codes "index_prefix") j.sink_config) ++ codes "-default"
  generate_index_name j (c ∷ name) =
      index_prefix (setting (codes "index_prefix") j.sink_config) ++ (b'-' ∷ to_lower (c ∷ name))

  -- The answers for the tables of the configuration.
  abbrev pub describe_all : Start → List Bytes → List Described
  describe_all j [] = []
  describe_all j (t ∷ ts) = describe (generate_index_name j t) ∷ describe_all j ts

  -- targetSystemHasData; with no tables there are no documents.
  unfoldable pub target_system_has_data : Start → Bool
  target_system_has_data j =
      if j.has_sink
      then ltb_ℤ (pos 0) (count_documents (describe_all j (tables_of j.connector)) (pos 0))
      else false

  -- needsInitialSync
  unfoldable pub needs_initial_sync : CheckpointFile → Start → Option Bool
  needs_initial_sync file j =
      if is_initial_sync_enabled j.job_options
      then (if should_force_initial_sync j.job_options
          then some true
          else unless_valid (target_system_has_data j) (has_valid_checkpoint file j))
      else some false
