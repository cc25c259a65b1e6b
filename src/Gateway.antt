-- ===== src/Gateway.antt =====
-- The gateway's messages (api/gateway/v1/common.pb.go) as far as the components below read them.
-- The bookkeeping fields of the protobuf runtime are left out. Unsigned and Unix-second fields are
-- native numbers.
use elasticrelay.Common.{ℕ, Option, Bytes, Dict}

pub record Checkpoint : Type 0 where
  pub position : Bytes
  pub source_type : Bytes
  pub metadata : Dict Bytes
  pub timestamp : ℕ
  pub mysql_binlog_file : Bytes
  pub mysql_binlog_pos : ℕ
  pub postgres_lsn : Bytes
  pub mongo_resume_token : Bytes

-- `data_text` is the field Data.
pub record ChangeEvent : Type 0 where
  pub op : Bytes
  pub checkpoint : Option Checkpoint
  pub primary_key : Bytes
  pub data_text : Bytes
