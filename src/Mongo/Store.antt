-- ===== src/Mongo/Store.antt =====
-- CheckpointManager of internal/connectors/mongodb/checkpoint.go. A file stands for the JSON that it
-- holds; `utf8` is what encoding/json makes of the bytes of a string, in which it replaces what is not UTF-8. A
-- manager whose map is nil has no map, and a write to it panics, which is `none`. An entry of the map may
-- be a nil pointer, which the JSON text null leads to. A checkpoint belongs to the map once it is stored.
use elasticrelay.Common.{
  ℕ, Option, none, some, Bool, true, false, [], ◌∷◌, Bytes, Dict, lookup, insert, remove, modify,
}
use mathlib.Core.Option
use elasticrelay.Common.Int.{ℤ, pos, ◌+ℤ◌, wrap64}

pub record MongoCheckpoint : Type 0 where
  pub job_id : Bytes
  pub resume_token : Bytes
  pub database : Bytes
  pub collection : Bytes
  pub last_update : ℕ
  pub event_count : ℤ
  pub cluster_time : ℕ
  pub cluster_order : ℕ

abbrev pub Checkpoints : Type 0
Checkpoints = Dict (Option MongoCheckpoint)

-- What the file is for os.ReadFile and json.Unmarshal: garbled if it is not JSON, which is tested before the
-- map is changed.
pub data File : Type 0 where
  missing unreadable garbled null : File
  holds : Checkpoints → File

-- What os.WriteFile did: a write that fails may leave anything.
pub data Write : Type 0 where
  written : Write
  failed : File → Write

pub record CheckpointManager : Type 0 where
  pub file : File
  pub checkpoints : Option Checkpoints

-- NewCheckpointManager
unfoldable pub new_checkpoint_manager : File → CheckpointManager
new_checkpoint_manager file = record { file = file; checkpoints = some [] }

-- json.Unmarshal puts the entries into the map that is there.
unfoldable pub merge : Checkpoints → Checkpoints → Checkpoints
merge [] old = old
merge ((id, c) ∷ entries) old = merge entries (insert id c old)

abbrev pub or_empty : Option Checkpoints → Checkpoints
or_empty none = []
or_empty (some m) = m

abbrev pub loaded : File → Option Checkpoints → Option Checkpoints × Bool
loaded missing old = (some [], false)
loaded null old = (none, false)
loaded (holds m) old = (some (merge m (or_empty old)), false)
loaded other old = (old, true)

-- Load, with whether it returns an error.
unfoldable pub load : CheckpointManager → CheckpointManager × Bool
load cm = (
  record cm { checkpoints = (loaded cm.file cm.checkpoints).0 },
  (loaded cm.file cm.checkpoints).1,
)

abbrev pub put : ℕ → MongoCheckpoint → Option Checkpoints → Option Checkpoints
put now c none = none
put now c (some m) = some (insert c.job_id (some (record c { last_update = now })) m)

abbrev pub without : Bytes → Option Checkpoints → Option Checkpoints
without id none = none
without id (some m) = some (remove id m)

module _ (utf8 : Bytes → Bytes) where
  abbrev pub coerced : MongoCheckpoint → MongoCheckpoint
  coerced c = record c {
    job_id = utf8 c.job_id;
    resume_token = utf8 c.resume_token;
    database = utf8 c.database;
    collection = utf8 c.collection;
  }

  -- json.MarshalIndent
  unfoldable pub marshalled : Checkpoints → Checkpoints
  marshalled [] = []
  marshalled ((id, c) ∷ m) = (utf8 id, Option.map coerced c) ∷ marshalled m

  abbrev pub contents : Option Checkpoints → File
  contents none = null
  contents (some m) = holds (marshalled m)

  -- Save
  unfoldable pub save : Write → CheckpointManager → CheckpointManager × Bool
  save written cm = (record cm { file = contents cm.checkpoints }, false)
  save (failed rest) cm = (record cm { file = rest }, true)

  -- Update: the map changes also when the file cannot be written.
  unfoldable pub update :
      ℕ → MongoCheckpoint → Write → CheckpointManager → Option (CheckpointManager × Bool)
  update now c write cm = elim (put now c cm.checkpoints) [
    | none ↦ none
    | some m ↦ some (save write (record cm { checkpoints = some m }))
  ]

  -- Delete
  unfoldable pub delete : Bytes → Write → CheckpointManager → CheckpointManager × Bool
  delete id write cm = save write (record cm { checkpoints = without id cm.checkpoints })

-- Get: whether the key is there, and the pointer under it.
unfoldable pub get : Bytes → CheckpointManager → Option (Option MongoCheckpoint)
get id cm = lookup id (or_empty cm.checkpoints)

abbrev pub counted : MongoCheckpoint → MongoCheckpoint
counted c = record c { event_count = wrap64 (c.event_count +ℤ pos 1) }

abbrev pub count_in : Bytes → Option Checkpoints → Option Checkpoints
count_in id none = none
count_in id (some m) = some (modify id (Option.map counted) m)

abbrev pub unless_nil :
    CheckpointManager → Option (Option MongoCheckpoint) → Option CheckpointManager
unless_nil cm (some none) = none
unless_nil cm found = some cm

-- IncrementEventCount, in the map only; a nil pointer under the key panics.
unfoldable pub increment_event_count : Bytes → CheckpointManager → Option CheckpointManager
increment_event_count id cm =
    unless_nil (record cm { checkpoints = count_in id cm.checkpoints }) (get id cm)

abbrev pub count_of : Option (Option MongoCheckpoint) → Option ℤ
count_of none = some (pos 0)
count_of (some none) = none
count_of (some (some c)) = some c.event_count

-- GetEventCount, with the same panic.
unfoldable pub get_event_count : Bytes → CheckpointManager → Option ℤ
get_event_count id cm = count_of (get id cm)
