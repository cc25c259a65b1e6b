-- ===== src/Lsn/Store.antt =====
-- The checkpoints that LSNManager keeps in a file, one for each job, and the periodic commit of
-- CheckpointManager: internal/connectors/postgresql/lsn_manager.go. The file is what os.ReadFile
-- returns, the outcomes of os.WriteFile and of the replication slot's update are arguments, and
-- json.Marshal and json.Unmarshal of the map of checkpoints are parameters.
use mathlib.Core.Option
use elasticrelay.Common.{
  ℕ, ◌≡◌, ◌∙◌, refl, Option, none, some, Bool, true, false, ◌⊎◌, inl, inr, [], Bytes, str_eq,
  if◌then◌else◌, Bool-cases, Option-cases, Dict, lookup, insert, remove, lookup-insert,
}

-- LSNCheckpoint
pub record LsnCheckpoint : Type 0 where
  pub job_id : Bytes
  pub lsn : Bytes
  pub timeline : ℕ
  pub slot_name : Bytes
  pub publication : Bytes
  pub last_update : ℕ
  pub commit_frequency : ℕ
  pub batch_size : ℕ

-- What os.ReadFile returns for checkpointFile: the JSON text null, which Unmarshal makes a nil map of,
-- stands apart from other texts.
pub data FileState : Type 0 where
  absent : FileState
  unreadable : FileState
  null : FileState
  holds : Bytes → FileState

abbrev pub is_nil : FileState → Bool
is_nil null = true
is_nil _ = false

-- LSNManager; the connection pool is left out.
pub record LsnManager : Type 0 where
  pub checkpoint_file : FileState
  pub last_committed_lsn : Bytes
  pub last_received_lsn : Bytes

abbrev pub Checkpoints : Type 0
Checkpoints = Dict LsnCheckpoint

-- SetLastReceivedLSN
abbrev pub set_last_received_lsn : Bytes → LsnManager → LsnManager
set_last_received_lsn s lm = record lm { last_received_lsn = s }

-- SetLastCommittedLSN
abbrev pub set_last_committed_lsn : Bytes → LsnManager → LsnManager
set_last_committed_lsn s lm = record lm { last_committed_lsn = s }

-- The checkpoint that performCheckpoint saves.
abbrev pub checkpoint_for : Bytes → Bytes → ℕ → ℕ → LsnManager → LsnCheckpoint
checkpoint_for job slot frequency batch lm = record {
  job_id = job;
  lsn = LsnManager.last_received_lsn lm;
  timeline = 0;
  slot_name = slot;
  publication = [];
  last_update = 0;
  commit_frequency = frequency;
  batch_size = batch;
}

-- The end of performCheckpoint: the LSN is committed if the checkpoint was saved.
abbrev pub commit : Bytes → Bool × LsnManager → Bool × LsnManager
commit s (true, lm) = (true, set_last_committed_lsn s lm)
commit s (false, lm) = (false, lm)

abbrev pub or_empty : Option Checkpoints → Checkpoints
or_empty none = []
or_empty (some m) = m

nil-null : (file : FileState) → is_nil file ≡ true → file ≡ null
nil-null absent h = absurd (cc)
nil-null unreadable h = absurd (cc)
nil-null null h = refl
nil-null (holds text) h = absurd (cc)

module _ (marshal : Checkpoints → Bytes) (unmarshal : Bytes → Option Checkpoints) where
  -- loadCheckpointsFromFile, which is ListCheckpoints too
  unfoldable pub load_checkpoints_from_file : FileState → Option Checkpoints
  load_checkpoints_from_file absent = some []
  load_checkpoints_from_file null = some []
  load_checkpoints_from_file unreadable = none
  load_checkpoints_from_file (holds text) = unmarshal text

  -- os.WriteFile of the encoded map: on an error the file is `after`, whatever that is.
  abbrev pub write_file : Option FileState → Checkpoints → LsnManager → Bool × LsnManager
  write_file none m lm = (true, record lm { checkpoint_file = holds (marshal m) })
  write_file (some after) m lm = (false, record lm { checkpoint_file = after })

  -- SaveCheckpoint: whether it succeeded, and the state afterwards. The assignment to a nil map panics,
  -- which is none.
  unfoldable pub save_checkpoint :
      LsnCheckpoint → ℕ → Option FileState → LsnManager → Option (Bool × LsnManager)
  save_checkpoint checkpoint now outcome lm =
      if is_nil lm.checkpoint_file
      then none
      else some (
          write_file outcome
            (insert (LsnCheckpoint.job_id checkpoint) (record checkpoint { last_update = now })
              (or_empty (load_checkpoints_from_file (LsnManager.checkpoint_file lm))))
            lm)

  -- LoadCheckpoint
  unfoldable pub load_checkpoint : Bytes → LsnManager → Option LsnCheckpoint
  load_checkpoint job lm = elim (load_checkpoints_from_file (LsnManager.checkpoint_file lm)) [
    | none ↦ none
    | some m ↦ lookup job m
  ]

  -- A nil map is written as null.
  abbrev pub write_null : Option FileState → LsnManager → Bool × LsnManager
  write_null none lm = (true, record lm { checkpoint_file = null })
  write_null (some after) lm = (false, record lm { checkpoint_file = after })

  -- DeleteCheckpoint
  unfoldable pub delete_checkpoint : Bytes → Option FileState → LsnManager → Bool × LsnManager
  delete_checkpoint job outcome lm =
      elim (load_checkpoints_from_file (LsnManager.checkpoint_file lm)) [
        | none ↦ (false, lm)
        | some m ↦
            if is_nil lm.checkpoint_file
            then write_null outcome lm
            else write_file outcome (remove job m) lm
      ]

  -- performCheckpoint, with its manager's settings; the slot's update may fail without a consequence.
  unfoldable pub perform_checkpoint :
      Bytes → Bytes → ℕ → ℕ → ℕ → Option FileState → LsnManager → Option (Bool × LsnManager)
  perform_checkpoint job slot frequency batch now outcome lm =
      if str_eq (LsnManager.last_received_lsn lm) []
      then some (true, lm)
      else Option.map (commit (LsnManager.last_received_lsn lm))
          (save_checkpoint (checkpoint_for job slot frequency batch lm) now outcome lm)

  -- What encoding/json documents: a map whose texts are UTF-8 is read back from its encoding with the
  -- same entries, though not in the same order.
  module _ (is_text : Checkpoints → Bool)
      (round_trip : (m : Checkpoints)
        → is_text m ≡ true
        → (m' : Checkpoints) × (unmarshal (marshal m) ≡ some m')
          × ((k : Bytes) → lookup k m' ≡ lookup k m)) where
    written_back :
        (m : Checkpoints) (lm : LsnManager) (j : Bytes)
        → is_text m ≡ true
        → load_checkpoint j (record lm { checkpoint_file = holds (marshal m) }) ≡ lookup j m
    unfolding load_checkpoint load_checkpoints_from_file
    written_back m lm j utf8 = let (m', read, same) = round_trip m utf8 in rw read (same j)

    load-or_empty :
        (j : Bytes) (lm : LsnManager)
        → lookup j (or_empty (load_checkpoints_from_file (LsnManager.checkpoint_file lm)))
          ≡ load_checkpoint j lm
    unfolding load_checkpoint lookup
    load-or_empty j lm =
        elim (Option-cases (load_checkpoints_from_file (LsnManager.checkpoint_file lm))) [
          | inl bad ↦ rw (load_checkpoint, bad) refl
          | inr (m, good) ↦ rw (load_checkpoint, good) refl
        ]

    -- SaveCheckpoint panics if the file holds the JSON text null. Else, if the write succeeds on texts of
    -- UTF-8, it returns no error, and LoadCheckpoint then returns the saved checkpoint, with the time of
    -- the save, for its job, and what it returned before for any other.
    pub load_checkpoint-save_checkpoint :
        (checkpoint : LsnCheckpoint) (now : ℕ) (lm : LsnManager) (j : Bytes)
        → is_text (
            insert
              (LsnCheckpoint.job_id checkpoint)
              (record checkpoint { last_update = now })
              (or_empty (load_checkpoints_from_file (LsnManager.checkpoint_file lm))))
          ≡ true
        → ((lm.checkpoint_file ≡ null) × (save_checkpoint checkpoint now none lm ≡ none))
          ⊎ ((lm' : LsnManager) × (save_checkpoint checkpoint now none lm ≡ some (true, lm'))
              × (load_checkpoint j lm' ≡ (
                  if str_eq (LsnCheckpoint.job_id checkpoint) j
                  then some (record checkpoint { last_update = now })
                  else load_checkpoint j lm)))
    unfolding save_checkpoint
    load_checkpoint-save_checkpoint checkpoint now lm j utf8 =
        elim (Bool-cases (is_nil lm.checkpoint_file)) [
          | inl is_null ↦ inl (nil-null lm.checkpoint_file is_null, rw is_null refl)
          | inr has_map ↦
              let map =
                insert (LsnCheckpoint.job_id checkpoint) (record checkpoint { last_update = now })
                  (or_empty (load_checkpoints_from_file (LsnManager.checkpoint_file lm))) in
              inr (
                record lm { checkpoint_file = holds (marshal map) },
                rw has_map refl,
                written_back map lm j utf8
                    ∙ lookup-insert (LsnCheckpoint.job_id checkpoint) j
                        (record checkpoint { last_update = now }) _
                    ∙ rw (load-or_empty j lm) refl,
              )
        ]
