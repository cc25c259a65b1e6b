-- ===== src/Checkpoints/Postgres.antt =====
-- PostgreSQLCheckpointManager: internal/connectors/postgresql/checkpoint.go.
use elasticrelay.Common.{
  ℕ, ◌≡◌, refl, Option, none, some, Bool, true, false, ◌&&◌, inl, inr, [], Bytes, codes, str_eq,
  str_eq_refl, if◌then◌else◌, Bool-cases,
}
use elasticrelay.Gateway.{Checkpoint}
use elasticrelay.Lsn.Position.{Sign, ◌>>=◌, is_valid_lsn, compare_lsn}
use elasticrelay.Lsn.Orders.{is_valid_lsn-compare_lsn}
use elasticrelay.Checkpoints.Legacy.{
  Position, text, text_pointer, mysql, mysql_pointer, other, Manager, Recreates, is_set,
}

abbrev pub postgresql : Bytes
postgresql = codes "postgresql"

-- The test for the new format.
abbrev pub is_modern : Checkpoint → Bool
is_modern c = str_eq (Checkpoint.source_type c) postgresql && is_set (Checkpoint.position c)

-- IsValid
unfoldable pub is_valid : Option Checkpoint → Bool
is_valid none = false
is_valid (some c) =
    if is_modern c
    then is_valid_lsn (Checkpoint.position c)
    else if is_set (Checkpoint.postgres_lsn c)
    then is_valid_lsn (Checkpoint.postgres_lsn c)
    else false

-- The text that CreateCheckpoint takes out of a position.
abbrev pub lsn_of : Position → Option Bytes
lsn_of (text s) = some s
lsn_of (text_pointer p) = p
lsn_of (mysql p) = none
lsn_of (mysql_pointer p) = none
lsn_of other = none

abbrev pub checkpoint_at : Bytes → ℕ → Checkpoint
checkpoint_at lsn now = record {
  position = lsn;
  source_type = postgresql;
  metadata = [];
  timestamp = now;
  mysql_binlog_file = [];
  mysql_binlog_pos = 0;
  postgres_lsn = lsn;
  mongo_resume_token = [];
}

-- CreateCheckpoint
unfoldable pub create_checkpoint : Position → ℕ → Option Checkpoint
create_checkpoint position now = do
  lsn ← lsn_of position
  if is_valid_lsn lsn then some (checkpoint_at lsn now) else none

-- ParseCheckpoint; the position that it returns is a text.
unfoldable pub parse_lsn : Option Checkpoint → Option Bytes
parse_lsn none = none
parse_lsn (some c) =
    if is_modern c
    then (if is_valid_lsn (Checkpoint.position c) then some (Checkpoint.position c) else none)
    else if is_set (Checkpoint.postgres_lsn c)
    then (if is_valid_lsn (Checkpoint.postgres_lsn c)
        then some (Checkpoint.postgres_lsn c)
        else none)
    else none

unfoldable pub parse_checkpoint : Option Checkpoint → Option Position
parse_checkpoint c = parse_lsn c >>= (λ lsn. some (text lsn))

-- Compare; its tests that a parsed position is a text always hold.
unfoldable pub compare : Option Checkpoint → Option Checkpoint → Option Sign
compare a b = do lsn_a ← parse_lsn a; lsn_b ← parse_lsn b; compare_lsn lsn_a lsn_b

abbrev pub manager : Manager
manager = record {
  is_valid = is_valid;
  create_checkpoint = create_checkpoint;
  parse_checkpoint = parse_checkpoint;
  compare = compare;
}

is_valid_lsn-is_set : (lsn : Bytes) → is_valid_lsn lsn ≡ true → is_set lsn ≡ true
unfolding is_valid_lsn
is_valid_lsn-is_set lsn v = elim (Bool-cases (str_eq lsn [])) [
  | inl empty ↦ absurd (cc (rw empty at v))
  | inr full ↦ rw full refl
]

-- Of a valid checkpoint an LSN is parsed, and it is a valid one.
pub is_valid-parse_lsn :
    (c : Option Checkpoint)
    → is_valid c ≡ true
    → (lsn : Bytes) × (parse_lsn c ≡ some lsn) × (is_valid_lsn lsn ≡ true)
unfolding is_valid parse_lsn
is_valid-parse_lsn none v = absurd (cc)
is_valid-parse_lsn (some c) v = elim (Bool-cases (is_modern c)) [
  | inl modern ↦ let good = rw modern at v in (Checkpoint.position c, rw (modern, good) refl, good)
  | inr old ↦
      let v1 = rw old at v in
      elim (Bool-cases (is_set (Checkpoint.postgres_lsn c))) [
        | inl set ↦
            let good = rw set at v1 in (Checkpoint.postgres_lsn c, rw (old, set, good) refl, good)
        | inr unset ↦ absurd (cc (rw unset at v1))
      ]
]

-- The checkpoint made of a valid LSN is valid, and that LSN is parsed from it.
pub checkpoint_at-parse :
    (lsn : Bytes) (now : ℕ)
    → is_valid_lsn lsn ≡ true
    → (is_valid (some (checkpoint_at lsn now)) ≡ true)
      × (parse_lsn (some (checkpoint_at lsn now)) ≡ some lsn)
unfolding is_valid parse_lsn
checkpoint_at-parse lsn now v =
    let set = is_valid_lsn-is_set lsn v in
    (rw (str_eq_refl postgresql, set, v) refl, rw (str_eq_refl postgresql, set, v) refl)

-- The interface's law, for every checkpoint.
pub manager-Recreates : Recreates manager (λ c. true)
unfolding create_checkpoint parse_checkpoint
manager-Recreates c now valid kept =
    let (lsn, read, good) = is_valid-parse_lsn (some c) valid in
    let (valid', read') = checkpoint_at-parse lsn now good in
    (text lsn, checkpoint_at lsn now, rw read refl, rw good refl, valid', rw read' refl)

-- Compare answers for two checkpoints that IsValid accepts.
pub compare-total :
    (a b : Option Checkpoint)
    → is_valid a ≡ true
    → is_valid b ≡ true
    → (s : Sign) × (compare a b ≡ some s)
unfolding compare
compare-total a b va vb =
    let (lsn, read, good) = is_valid-parse_lsn a va in
    let (lsn', read', good') = is_valid-parse_lsn b vb in
    let (s, e) = is_valid_lsn-compare_lsn lsn lsn' good good' in (s, rw (read, read') e)
