-- ===== src/Checkpoints/Tests.antt =====
-- The theorems on checkpoint managers at concrete inputs.
use elasticrelay.Common.{
  ℕ, ◌+◌, ◌-◌, ◌*◌, ◌≡◌, ◌≢◌, refl, Option, none, some, Bool, true, [], ◌∷◌, Bytes, codes,
}
use elasticrelay.Common.Int.{ℤ, pos}
use elasticrelay.Gateway.{Checkpoint}
use elasticrelay.Checkpoints.Legacy.{MysqlPosition}
use elasticrelay.Checkpoints.Postgres

abbrev lsn : Bytes
lsn = codes "1/17B4538"

-- A checkpoint of the old format.
abbrev legacy : Checkpoint
legacy = record {
  position = [];
  source_type = [];
  metadata = [];
  timestamp = 0;
  mysql_binlog_file = [];
  mysql_binlog_pos = 0;
  postgres_lsn = lsn;
  mongo_resume_token = [];
}

-- A decimal number.
abbrev digits : Bytes → ℕ → ℕ
digits [] n = n
digits (c ∷ s) n = digits s (n * 10 + (c - b'0'))

abbrev scan_digits : Bytes → ℤ
scan_digits s = pos (digits s 0)

abbrev marshal : MysqlPosition → Bytes
marshal p = MysqlPosition.pos p ∷ MysqlPosition.file p

abbrev unmarshal : Bytes → Option MysqlPosition
unmarshal [] = none
unmarshal (n ∷ s) = some (record { file = s; pos = n })

abbrev any_text : Bytes → Bool
any_text s = true

read_back :
    (p : MysqlPosition) → any_text (MysqlPosition.file p) ≡ true → unmarshal (marshal p) ≡ some p
read_back p h = refl

marshal-nonempty : (p : MysqlPosition) → marshal p ≢ []
marshal-nonempty p e = absurd (cc)

abbrev at_120 : MysqlPosition
at_120 = record { file = codes "mysql-bin.000009"; pos = 120 }

abbrev at_4 : MysqlPosition
at_4 = record { file = codes "mysql-bin.000010"; pos = 4 }
