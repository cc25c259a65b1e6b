-- ===== src/Wal/Stream.antt =====
-- Change events and the stream of messages: createChangeEvent, parseSingleLogicalMessage and what
-- stands around it in internal/connectors/postgresql/wal_parser.go. The conversion of values by the
-- type mapper, json.Marshal and the stream that events are sent to are parameters: `convert` is `none`
-- on an error, `raw` is the value as it is, and `send` gives the error of Send. The check that a
-- message has consumed bytes is left out: each one consumes its type at least.
use elasticrelay.Common.{
  ℕ, zero, suc, Option, none, some, Bool, true, false, ◌||◌, ◌&&◌, not, List, [], ◌∷◌, ◌++◌, leb,
  ◌==◌, if◌then◌else◌, Bytes, codes, length, str_eq, Dict, insert, lookup,
}
use elasticrelay.Gateway.{ChangeEvent}
use elasticrelay.Wal.Reader.{Reader, Result, ok, err, ParseError, short, other}
use elasticrelay.Wal.Messages.{
  format_lsn, TransactionInfo, RelationInfo, ColumnData, RowData, Relations, find_relation,
  set_relation, parse_begin, parse_commit, parse_relation, parse_insert, parse_delete, parse_update,
  parse_truncate, parse_origin_message, parse_type_message, parse_generic_message,
}

-- What of WALParser the messages read and change.
pub record WalParser : Type 0 where
  pub relations : Relations
  pub current_txn : Option TransactionInfo
  pub table_filters : List Bytes

-- WALParser with its buffer.
pub record Buffered : Type 0 where
  pub parser : WalParser
  pub logical_buf : Bytes

-- strings.Contains
abbrev pub has_prefix : Bytes → Bytes → Bool
has_prefix [] s = true
has_prefix (c ∷ p) [] = false
has_prefix (c ∷ p) (d ∷ s) = let rest = has_prefix p s in if c == d then rest else false

unfoldable pub contains : Bytes → Bytes → Bool
contains p [] = has_prefix p []
contains p (c ∷ s) = has_prefix p (c ∷ s) || contains p s

-- isIncompleteLogicalMessageError
unfoldable pub is_incomplete : ParseError → Bool
is_incomplete short = true
is_incomplete (other text) =
    contains (codes "too short") text
    || contains (codes "not null-terminated") text
    || contains (codes "missing new tuple marker") text

abbrev pub among : Bytes → List Bytes → Bool
among s [] = false
among s (t ∷ ts) = str_eq t s || among s ts

-- Whether createChangeEvent skips the table.
abbrev pub is_filtered : List Bytes → Bytes → Bool
is_filtered filters table = leb 1 (length filters) && not (among table filters)

-- primaryKeyValueString
abbrev pub key_text : Option Bytes → Bytes
key_text none = codes "<nil>"
key_text (some s) = s

-- valuesByName: a later column of the same name replaces an earlier one.
unfoldable pub values_by_name : List ColumnData → Dict (Option Bytes) → Dict (Option Bytes)
values_by_name [] m = m
values_by_name (c ∷ cs) m = values_by_name cs (insert (ColumnData.name c) (ColumnData.value c) m)

unfoldable pub join_key : List Bytes → Dict (Option Bytes) → Result Bytes
join_key [] m = ok []
join_key (name ∷ names) m = elim (lookup name m) [
  | none ↦ err (other (codes "primary key column " ++ (name ++ codes " not found in row data")))
  | some v ↦ elim (join_key names m) [
    | err e ↦ err e
    | ok rest ↦ ok (elim names [ [] ↦ key_text v | n ∷ ns ↦ key_text v ++ (b':' ∷ rest) ])
  ]
]

-- extractPrimaryKey
unfoldable pub extract_primary_key : RowData → RelationInfo → Result Bytes
extract_primary_key row relation = elim (RelationInfo.primary_key_cols relation) [
  | [] ↦ elim (RowData.columns row) [
    | [] ↦ err (other (codes "no columns available"))
    | c ∷ cs ↦ ok (key_text (ColumnData.value c))
  ]
  | n ∷ ns ↦ join_key (n ∷ ns) (values_by_name (RowData.columns row) [])
]

-- The message that createChangeEvent makes of the error of extractPrimaryKey.
abbrev pub key_error : RelationInfo → ParseError → ParseError
key_error relation short = short
key_error relation (other text) = other (
    codes "failed to extract primary key for "
    ++ (RelationInfo.namespace relation
        ++ (b'.' ∷ (RelationInfo.relation_name relation ++ (codes ": " ++ text)))))

abbrev pub first_row : Option RowData → Option RowData → Option RowData
first_row (some row) old = some row
first_row none old = old

-- What a message leads to: the parser, the events, and the bytes behind the message.
abbrev pub Parsed : Type 0
Parsed = WalParser × List ChangeEvent × Bytes

abbrev pub with_rest : Bytes → Result (WalParser × List ChangeEvent) → Result Parsed
with_rest r (err e) = err e
with_rest r (ok (wp, events)) = ok (wp, events, r)

-- A message is read, and then it takes effect.
abbrev pub after :
    {A : Type 0} → Reader A → (A → Result (WalParser × List ChangeEvent)) → Bytes → Result Parsed
after p f s = elim (p s) [ err e ↦ err e | ok (a, r) ↦ with_rest r (f a) ]

abbrev pub unchanged : WalParser → Result (List ChangeEvent) → Result (WalParser × List ChangeEvent)
unchanged wp (err e) = err e
unchanged wp (ok events) = ok (wp, events)

-- What the loop over the buffer has done: the parser, the events in order, the bytes that are left,
-- and an error that ends the stream.
pub record Drained : Type 0 where
  pub parser : WalParser
  pub events : List ChangeEvent
  pub rest : Bytes
  pub error : Option ParseError

abbrev pub add_events : List ChangeEvent → Drained → Drained
add_events events d = record d { events = events ++ d.events }

abbrev pub kept_buffer : Bytes → Drained → Bytes
kept_buffer whole d = elim d.error [ none ↦ d.rest | some e ↦ whole ]

-- What a payload leads to: the parser, the events that are sent, and the error.
abbrev pub Outcome : Type 0
Outcome = Buffered × List ChangeEvent × Option ParseError

abbrev pub settled : Bytes → Drained → Outcome
settled whole d =
    (record { parser = d.parser; logical_buf = kept_buffer whole d }, d.events, d.error)

abbrev pub behind : List ChangeEvent → Outcome → Outcome
behind events (b, more, e) = (b, events ++ more, e)

-- An error ends the stream.
abbrev pub and_then : Outcome → (Buffered → Outcome) → Outcome
and_then (b, events, none) next = behind events (next b)
and_then (b, events, some e) next = (b, events, some e)

-- XLogData, with the time when it is handled.
pub record XlogData : Type 0 where
  pub wal_start : ℕ
  pub server_wal_end : ℕ
  pub wal_data : Bytes
  pub now : ℕ

abbrev pub set_position : ℕ → Bytes → Bytes
set_position lsn at = if lsn == 0 then at else format_lsn lsn

-- The handler's currentLSN after the header of a message.
abbrev pub position_after : XlogData → Bytes → Bytes
position_after x at = set_position (if x.wal_start == 0 then x.server_wal_end else x.wal_start) at

module _ {Json : Type 0} (convert : Option Bytes → ℕ → Option Json) (raw : Option Bytes → Json)
    (marshal : Dict Json → Option Bytes) (send : ChangeEvent → Option Bytes) where
  abbrev pub converted : ColumnData → Json
  converted c = elim (convert (ColumnData.value c) (ColumnData.type_id c)) [
    | none ↦ raw (ColumnData.value c)
    | some v ↦ v
  ]

  unfoldable pub put_columns : List ColumnData → Dict Json → Dict Json
  put_columns [] m = m
  put_columns (c ∷ cs) m = put_columns cs (insert (ColumnData.name c) (converted c) m)

  -- dataMap
  unfoldable pub data_map : RelationInfo → RowData → Dict Json
  data_map relation row = put_columns (RowData.columns row) (
      insert (codes "_schema") (raw (some (RelationInfo.namespace relation)))
        (insert (codes "_table") (raw (some (RelationInfo.relation_name relation))) []))

  abbrev pub change_event : Bytes → Bytes → ℕ → Bytes → Bytes → ChangeEvent
  change_event operation lsn now key text = record {
    op = operation;
    checkpoint = some (record {
      position = lsn;
      source_type = [];
      metadata = [];
      timestamp = now;
      mysql_binlog_file = [];
      mysql_binlog_pos = 0;
      postgres_lsn = lsn;
      mongo_resume_token = [];
    });
    primary_key = key;
    data_text = text;
  }

  abbrev pub sent_event : ChangeEvent → Result (List ChangeEvent)
  sent_event e = elim (send e) [ none ↦ ok (e ∷ []) | some text ↦ err (other text) ]

  -- The event of a row: the text of the row first, then its key.
  unfoldable pub row_event : Bytes → Bytes → ℕ → RelationInfo → RowData → Result (List ChangeEvent)
  row_event operation lsn now relation row = elim (marshal (data_map relation row)) [
    | none ↦ err (other (codes "failed to marshal data to JSON"))
    | some text ↦ elim (extract_primary_key row relation) [
      | err e ↦ err (key_error relation e)
      | ok key ↦ sent_event (change_event operation lsn now key text)
    ]
  ]

  -- createChangeEvent: the events that it sends, one at most.
  unfoldable pub create_change_event :
      Bytes
      → Bytes
      → ℕ
      → WalParser
      → ℕ
      → Option RowData
      → Option RowData
      → Result (List ChangeEvent)
  create_change_event operation lsn now wp id new old =
      elim (find_relation id (WalParser.relations wp)) [
        | none ↦ err (other (codes "unknown relation ID"))
        | some relation ↦
            if is_filtered (WalParser.table_filters wp) (RelationInfo.relation_name relation)
            then ok []
            else elim (first_row new old) [
              | none ↦ err (other (codes "no data available for change event"))
              | some row ↦ row_event operation lsn now relation row
            ]
      ]

  -- The loop of parseTruncate: an error is logged.
  unfoldable pub truncate_events : ℕ → WalParser → List ℕ → List ChangeEvent
  truncate_events now wp [] = []
  truncate_events now wp (id ∷ ids) =
      elim (create_change_event (codes "TRUNCATE") [] now wp id none none) [
        | err e ↦ []
        | ok events ↦ events
      ]
      ++ truncate_events now wp ids

  -- parseSingleLogicalMessage, behind the type of the message.
  unfoldable pub parse_message : Bytes → ℕ → WalParser → ℕ → Bytes → Result Parsed
  parse_message lsn now wp kind s =
      if kind == b'B'
      then after parse_begin (λ txn. ok (record wp { current_txn = some txn }, [])) s
      else if kind == b'C'
      then after parse_commit (λ done. ok (record wp { current_txn = none }, [])) s
      else if kind == b'R'
      then after parse_relation
          (λ r. ok (
            record wp {
              relations = set_relation (RelationInfo.relation_id r) r (WalParser.relations wp);
            },
            [],
          ))
          s
      else if kind == b'I'
      then after (parse_insert (WalParser.relations wp))
          (λ m. unchanged wp (create_change_event (codes "INSERT") lsn now wp m.0 (some m.1) none))
          s
      else if kind == b'U'
      then after (parse_update (WalParser.relations wp))
          (λ m. unchanged wp (create_change_event (codes "UPDATE") lsn now wp m.0 m.2 m.1)) s
      else if kind == b'D'
      then after (parse_delete (WalParser.relations wp))
          (λ m. unchanged wp (create_change_event (codes "DELETE") lsn now wp m.0 none (some m.1)))
          s
      else if kind == b'T'
      then after parse_truncate (λ ids. ok (wp, truncate_events now wp ids)) s
      else if kind == b'Y'
      then after parse_type_message (λ done. ok (wp, [])) s
      else if kind == b'O'
      then after parse_origin_message (λ done. ok (wp, [])) s
      else if kind == b'M'
      then after parse_generic_message (λ done. ok (wp, [])) s
      else err (other (codes "unsupported logical replication message"))

  -- The loop of processBufferedLogicalMessages.
  unfoldable pub drain : Bytes → ℕ → ℕ → WalParser → Bytes → Drained
  drain lsn now fuel wp [] = record { parser = wp; events = []; rest = []; error = none }
  drain lsn now zero wp (c ∷ s) = record { parser = wp; events = []; rest = c ∷ s; error = none }
  drain lsn now (suc fuel) wp (c ∷ s) = elim (parse_message lsn now wp c s) [
    | ok (wp', events, r) ↦ add_events events (drain lsn now fuel wp' r)
    | err e ↦ record {
      parser = wp;
      events = [];
      rest = c ∷ s;
      error = if is_incomplete e then none else some e;
    }
  ]

  -- processBufferedLogicalMessages; each message has a byte at least, so that the number of bytes is
  -- enough fuel.
  unfoldable pub process_buffer : Bytes → ℕ → WalParser → Bytes → Outcome
  process_buffer lsn now wp whole = settled whole (drain lsn now (length whole) wp whole)

  -- The end of parseXLogData: the payload is put behind the buffer, and the buffer is processed.
  unfoldable pub process_payload : Bytes → ℕ → Buffered → Bytes → Outcome
  process_payload lsn now b [] = (b, [], none)
  process_payload lsn now b (c ∷ payload) =
      process_buffer lsn now (Buffered.parser b) (Buffered.logical_buf b ++ (c ∷ payload))

  -- Payloads that come at one position and time.
  unfoldable pub process_payloads : Bytes → ℕ → Buffered → List Bytes → Outcome
  process_payloads lsn now b [] = (b, [], none)
  process_payloads lsn now b (p ∷ ps) =
      and_then (process_payload lsn now b p) (λ b'. process_payloads lsn now b' ps)

  -- parseXLogData behind the parsing of the header: the position that the handler has, and the message.
  unfoldable pub parse_xlog_data : Bytes → XlogData → Buffered → Outcome
  parse_xlog_data at x b = process_payload (position_after x at) x.now b x.wal_data

  -- The messages of a stream in order.
  unfoldable pub parse_stream : Bytes → List XlogData → Buffered → Outcome
  parse_stream at [] b = (b, [], none)
  parse_stream at (x ∷ xs) b =
      and_then (parse_xlog_data at x b) (λ b'. parse_stream (position_after x at) xs b')
