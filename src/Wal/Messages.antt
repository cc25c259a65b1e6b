-- ===== src/Wal/Messages.antt =====
-- The messages of the plugin pgoutput and their parsers: internal/connectors/postgresql/wal_parser.go.
use elasticrelay.Common.{
  ℕ, zero, suc, ◌-◌, ◌*◌, ◌/◌, ◌%◌, ◌^◌, Option, none, some, Bool, true, false, ◌||◌, List, [], ◌∷◌,
  ◌++◌, ltb, ◌==◌, if◌then◌else◌, Bytes, codes, length,
}
use elasticrelay.Common.Int.{ℤ, pos, negsuc, signed64}
use elasticrelay.Lsn.Hex.{format_hex}
use elasticrelay.Wal.Reader.{
  Reader, ok, short, other, pure, fail, ◌>>=◌, ◌>>◌, need, byte, big_endian, bytes, cstring,
}

-- TransactionInfo; the commit time is in microseconds, as it is read.
pub record TransactionInfo : Type 0 where
  pub xid : ℕ
  pub commit_time : ℤ
  pub begin_lsn : Bytes
  pub commit_lsn : Bytes
  pub final_lsn : Bytes

-- ColumnInfo
pub record ColumnInfo : Type 0 where
  pub flags : ℕ
  pub name : Bytes
  pub type_id : ℕ
  pub type_mod : ℤ
  pub type_name : Bytes

-- RelationInfo
pub record RelationInfo : Type 0 where
  pub relation_id : ℕ
  pub namespace : Bytes
  pub relation_name : Bytes
  pub replica_identity : ℕ
  pub columns : List ColumnInfo
  pub primary_key_cols : List Bytes

-- ColumnData; the value is a string or nil.
pub record ColumnData : Type 0 where
  pub name : Bytes
  pub value : Option Bytes
  pub is_null : Bool
  pub type_id : ℕ
  pub type_name : Bytes

-- RowData
pub record RowData : Type 0 where
  pub relation_id : ℕ
  pub tuple_type : ℕ
  pub columns : List ColumnData

-- The map of relations, by their ids.
abbrev pub Relations : Type 0
Relations = List (ℕ × RelationInfo)

unfoldable pub find_relation : ℕ → Relations → Option RelationInfo
find_relation id [] = none
find_relation id ((i, r) ∷ rest) =
    let later = find_relation id rest in if i == id then some r else later

unfoldable pub set_relation : ℕ → RelationInfo → Relations → Relations
set_relation id r [] = (id, r) ∷ []
set_relation id r ((i, old) ∷ rest) =
    let later = set_relation id r rest in if i == id then (id, r) ∷ rest else (i, old) ∷ later

-- formatLSN
unfoldable pub format_lsn : ℕ → Bytes
format_lsn lsn = format_hex ((lsn / 2 ^ 32) % 2 ^ 32) ++ (b'/' ∷ format_hex (lsn % 2 ^ 32))

-- int32(v)
abbrev pub signed32 : ℕ → ℤ
signed32 v = if ltb v (2 ^ 31) then pos v else negsuc (2 ^ 32 - 1 - v)

-- parseBegin
unfoldable pub parse_begin : Reader TransactionInfo
parse_begin = do
  need 20
  lsn ← big_endian 8 0
  time ← big_endian 8 0
  xid ← big_endian 4 0
  pure (record {
    xid = xid;
    commit_time = signed64 time;
    begin_lsn = [];
    commit_lsn = [];
    final_lsn = format_lsn lsn;
  })

-- parseCommit: what it writes into the transaction is dropped with it.
unfoldable pub parse_commit : Reader (Unit {0})
parse_commit = do
  need 25
  flags ← byte
  commit_lsn ← big_endian 8 0
  end_lsn ← big_endian 8 0
  time ← big_endian 8 0
  pure tt

-- One column of a relation.
unfoldable pub parse_column : Reader ColumnInfo
parse_column = do
  flags ← byte
  name ← cstring
  need 8
  type_id ← big_endian 4 0
  type_mod ← big_endian 4 0
  pure (record {
    flags = flags;
    name = name;
    type_id = type_id;
    type_mod = signed32 type_mod;
    type_name = [];
  })

unfoldable pub parse_columns : ℕ → Reader (List ColumnInfo)
parse_columns zero = pure []
parse_columns (suc n) = do c ← parse_column; rest ← parse_columns n; pure (c ∷ rest)

-- The names of the columns with the lowest flag.
abbrev pub key_columns : List ColumnInfo → List Bytes
key_columns [] = []
key_columns (c ∷ rest) =
    let others = key_columns rest in
    if ColumnInfo.flags c % 2 == 1 then ColumnInfo.name c ∷ others else others

-- parseRelation
unfoldable pub parse_relation : Reader RelationInfo
parse_relation = do
  need 7
  id ← big_endian 4 0
  namespace ← cstring
  name ← cstring
  identity ← byte
  need 2
  count ← big_endian 2 0
  columns ← parse_columns count
  pure (record {
    relation_id = id;
    namespace = namespace;
    relation_name = name;
    replica_identity = identity;
    columns = columns;
    primary_key_cols = key_columns columns;
  })

abbrev pub column_data : ColumnInfo → Option Bytes → Bool → ColumnData
column_data info value is_null = record {
  name = ColumnInfo.name info;
  value = value;
  is_null = is_null;
  type_id = ColumnInfo.type_id info;
  type_name = ColumnInfo.type_name info;
}

-- A text value: its length and its bytes.
unfoldable pub parse_text : Reader Bytes
parse_text = do need 4; n ← big_endian 4 0; need n; bytes n

-- The switch of parseTupleData on the type of a column; a value that did not change is left out.
unfoldable pub parse_value : ColumnInfo → ℕ → Reader (Option ColumnData)
parse_value info kind =
    if kind == b'n'
    then pure (some (column_data info none true))
    else if kind == b't'
    then (do value ← parse_text; pure (some (column_data info (some value) false)))
    else if kind == b'u'
    then pure none
    else fail (other (codes "unknown tuple column type"))

abbrev pub append_some : Option ColumnData → List ColumnData → List ColumnData
append_some none rest = rest
append_some (some c) rest = c ∷ rest

-- The loop of parseTupleData: it ends with the count or with the relation's columns.
unfoldable pub parse_values : ℕ → List ColumnInfo → Reader (List ColumnData)
parse_values zero infos = pure []
parse_values (suc n) [] = pure []
parse_values (suc n) (info ∷ infos) = do
  kind ← byte
  c ← parse_value info kind
  rest ← parse_values n infos
  pure (append_some c rest)

-- The rest of parseTupleData, for the relation that the map holds.
unfoldable pub parse_tuple_of : Option RelationInfo → ℕ → ℕ → ℕ → Reader RowData
parse_tuple_of none id tuple_type count = fail (other (codes "unknown relation ID"))
parse_tuple_of (some relation) id tuple_type count = do
  columns ← parse_values count (RelationInfo.columns relation)
  (if ltb (length (RelationInfo.columns relation)) count
      then fail (other (codes "tuple data has more columns than the relation"))
      else pure (record { relation_id = id; tuple_type = tuple_type; columns = columns }))

-- parseTupleData
unfoldable pub parse_tuple_data : Relations → ℕ → ℕ → Reader RowData
parse_tuple_data relations id tuple_type = do
  need 2
  count ← big_endian 2 0
  parse_tuple_of (find_relation id relations) id tuple_type count

-- parseInsert, up to the event.
unfoldable pub parse_insert : Relations → Reader (ℕ × RowData)
parse_insert relations = do
  need 5
  id ← big_endian 4 0
  tuple_type ← byte
  (if tuple_type == b'N'
      then (do row ← parse_tuple_data relations id tuple_type; pure (id, row))
      else fail (other (codes "unexpected tuple type for INSERT")))

-- parseDelete, up to the event.
unfoldable pub parse_delete : Relations → Reader (ℕ × RowData)
parse_delete relations = do
  need 5
  id ← big_endian 4 0
  tuple_type ← byte
  (if (tuple_type == b'O') || (tuple_type == b'K')
      then (do row ← parse_tuple_data relations id tuple_type; pure (id, row))
      else fail (other (codes "unexpected tuple type for DELETE")))

-- The marker of the new tuple; its absence counts as an incomplete message.
unfoldable pub marker : Reader (Unit {0})
marker = do c ← byte; (if c == b'N' then pure tt else fail short)

-- The relation, the old tuple and the new one.
abbrev pub UpdateRows : Type 0
UpdateRows = ℕ × Option RowData × Option RowData

-- parseUpdate up to and with the marker behind an old tuple, or with the new tuple.
unfoldable pub update_head : Relations → Reader UpdateRows
update_head relations = do
  need 5
  id ← big_endian 4 0
  tuple_type ← byte
  (if (tuple_type == b'O') || (tuple_type == b'K')
      then (do old ← parse_tuple_data relations id tuple_type; marker; pure (id, some old, none))
      else if tuple_type == b'N'
      then (do row ← parse_tuple_data relations id tuple_type; pure (id, none, some row))
      else fail (other (codes "unexpected tuple type for UPDATE")))

-- The new tuple behind the marker.
unfoldable pub tuple_reader : Relations → ℕ → Option RowData → Reader UpdateRows
tuple_reader relations id old = do
  row ← parse_tuple_data relations id b'N'
  pure (id, old, some row)

-- The new tuple is read if any byte is there.
unfoldable pub update_tail : Relations → UpdateRows → Reader UpdateRows
update_tail relations (id, old, some row) s = ok ((id, old, some row), s)
update_tail relations (id, old, none) [] = ok ((id, old, none), [])
update_tail relations (id, old, none) (c ∷ s) = tuple_reader relations id old (c ∷ s)

-- parseUpdate, up to the event.
unfoldable pub parse_update : Relations → Reader UpdateRows
parse_update relations = do rows ← update_head relations; update_tail relations rows

unfoldable pub parse_ids : ℕ → Reader (List ℕ)
parse_ids zero = pure []
parse_ids (suc n) = do id ← big_endian 4 0; rest ← parse_ids n; pure (id ∷ rest)

-- parseTruncate, up to the events.
unfoldable pub parse_truncate : Reader (List ℕ)
parse_truncate = do
  need 5
  count ← big_endian 4 0
  options ← byte
  need (count * 4)
  parse_ids count

-- parseOriginMessage
unfoldable pub parse_origin_message : Reader (Unit {0})
parse_origin_message = do need 8; lsn ← bytes 8; name ← cstring; pure tt

-- parseTypeMessage
unfoldable pub parse_type_message : Reader (Unit {0})
parse_type_message = do need 4; id ← bytes 4; namespace ← cstring; name ← cstring; pure tt

-- parseGenericMessage
unfoldable pub parse_generic_message : Reader (Unit {0})
parse_generic_message = do
  need 13
  head ← bytes 9
  prefix ← cstring
  need 4
  n ← big_endian 4 0
  need n
  content ← bytes n
  pure tt
