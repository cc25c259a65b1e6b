-- ===== src/Wal/Tests.antt =====
-- Runs of the decoder on small streams, and its theorems at concrete inputs.
use elasticrelay.Common.{
  ℕ, ◌≡◌, refl, Option, none, some, true, false, List, [], ◌∷◌, ◌++◌, map, arith, Bytes, Dict,
  codes, take, drop, str_eq, insert, lookup,
}
use elasticrelay.Common.Int.{pos}
use elasticrelay.Gateway.{ChangeEvent}
use elasticrelay.Wal.Reader.{ok, need, byte, big_endian, bytes}
use elasticrelay.Wal.Messages.{
  ColumnInfo, RelationInfo, RowData, find_relation, parse_text, parse_value, parse_values,
  parse_tuple_of, parse_tuple_data, parse_insert, parse_truncate, parse_ids, update_head, marker,
}
use elasticrelay.Wal.Stream.{
  WalParser, Buffered, Outcome, XlogData, position_after, parse_xlog_data, parse_stream,
  change_event, is_filtered, is_incomplete, create_change_event, row_event, data_map, put_columns,
  values_by_name, join_key, extract_primary_key, parse_message, drain, process_buffer,
  process_payload, process_payloads,
}
use elasticrelay.Wal.Wholes.{cut_update}
use elasticrelay.Wal.Chunks.{uncut}
use elasticrelay.Wal.Payloads.{observed, join, are_clean}
use elasticrelay.Wal.Places.{bare_outcome, payloads, parse_stream-join}
use elasticrelay.Wal.Updates.{process_buffer-cut_update, parse_message-truncate}
use elasticrelay.Wal.Rows.{
  text, Row, put_cell, put_cells, put_insert, put16, put32, read_cells, infos, insert_row,
  parse_insert-put_insert,
}

abbrev column : Bytes → ColumnInfo
column name = record { flags = 0; name = name; type_id = 25; type_mod = pos 0; type_name = [] }

abbrev test_data : RelationInfo
test_data = record {
  relation_id = 42;
  namespace = codes "public";
  relation_name = codes "test_data";
  replica_identity = 0;
  columns = column (codes "id") ∷ column (codes "name") ∷ [];
  primary_key_cols = codes "id" ∷ [];
}

abbrev parser : WalParser
parser = record {
  relations = (42, test_data) ∷ [];
  current_txn = none;
  table_filters = codes "test_data" ∷ [];
}

abbrev idle : Buffered
idle = record { parser = parser; logical_buf = [] }

abbrev row : Bytes → Bytes → Row
row id name = (column (codes "id"), text id) ∷ (column (codes "name"), text name) ∷ []

abbrev tuple : Row → Bytes
tuple r = put16 2 ++ put_cells r

abbrev message : Bytes
message = b'I' ∷ put_insert 42 (row (codes "1") (codes "u"))

-- The values of a row in a text, as a stand-in for JSON.
abbrev convert : Option Bytes → ℕ → Option Bytes
convert v type_id = v

abbrev raw : Option Bytes → Bytes
raw none = []
raw (some s) = s

abbrev marshal : Dict Bytes → Option Bytes
marshal [] = some []
marshal ((k, v) ∷ m) = elim (marshal m) [ none ↦ none | some s ↦ some (v ++ (b';' ∷ s)) ]

abbrev send : ChangeEvent → Option Bytes
send e = none

abbrev keys : Outcome → List Bytes
keys (b, events, e) = map (λ (e : ChangeEvent). e.primary_key) events

-- The test of fragments of a message: split behind its first column.
fragments :
    keys (
      process_payloads convert raw marshal send
        (codes "0/1")
        7
        idle
        (take 13 message ∷ drop 13 message ∷ message ∷ []))
    ≡ codes "1" ∷ codes "1" ∷ []
unfolding process_payloads process_payload process_buffer drain parse_message parse_insert
    parse_tuple_data parse_tuple_of parse_values parse_value parse_text need byte big_endian bytes
    find_relation create_change_event row_event data_map put_columns values_by_name join_key
    extract_primary_key put_cell put_cells is_incomplete str_eq insert lookup
fragments = refl

abbrev xlog : ℕ → ℕ → Bytes → XlogData
xlog start now data' = record { wal_start = start; server_wal_end = 0; wal_data = data'; now = now }

-- The same stream, with a position and a time for each of its messages.
abbrev stream : List XlogData
stream = xlog 1 7 (take 13 message) ∷ xlog 2 8 (drop 13 message) ∷ xlog 0 9 message ∷ []

abbrev at_once : XlogData
at_once = xlog 5 7 (join (payloads stream))

stream_clean :
    are_clean convert raw marshal send (position_after at_once []) 7 idle (payloads stream) ≡ true
unfolding are_clean uncut cut_update process_payload process_buffer drain parse_message parse_insert
    parse_tuple_data parse_tuple_of parse_values parse_value parse_text need byte big_endian bytes
    find_relation create_change_event row_event data_map put_columns values_by_name join_key
    extract_primary_key put_cell put_cells is_incomplete str_eq insert lookup
stream_clean = refl

parse_stream-join_example :
    observed (bare_outcome (parse_stream convert raw marshal send [] stream idle))
    ≡ observed (bare_outcome (parse_xlog_data convert raw marshal send [] at_once idle))
parse_stream-join_example =
    parse_stream-join convert raw marshal send (λ e. refl) [] idle stream [] at_once refl
      stream_clean

parse_insert-put_insert_example :
    parse_insert parser.relations (put_insert 42 (row (codes "1") (codes "u")) ++ message)
    ≡ ok ((42, insert_row 42 (row (codes "1") (codes "u"))), message)
unfolding find_relation infos
parse_insert-put_insert_example =
    parse_insert-put_insert parser.relations test_data 42 (row (codes "1") (codes "u")) refl refl
      (omega arith) (omega arith) message (omega arith)

abbrev old_half : Bytes
old_half = put32 42 ++ (b'O' ∷ (tuple (row (codes "1") (codes "old")) ++ (b'N' ∷ [])))

abbrev old_row : RowData
old_row = record {
  relation_id = 42;
  tuple_type = b'O';
  columns = read_cells (row (codes "1") (codes "old"));
}

abbrev new_row : RowData
new_row = insert_row 42 (row (codes "1") (codes "new"))

old_half_head : update_head parser.relations old_half ≡ ok ((42, some old_row, none), [])
unfolding update_head marker parse_tuple_data parse_tuple_of parse_values parse_value parse_text
    need byte big_endian bytes find_relation put_cell put_cells read_cells
old_half_head = refl

new_half_tuple :
    parse_tuple_data parser.relations 42 b'N' (tuple (row (codes "1") (codes "new")))
    ≡ ok (new_row, [])
unfolding parse_tuple_data parse_tuple_of parse_values parse_value parse_text need byte big_endian
    bytes find_relation put_cell put_cells read_cells
new_half_tuple = refl

abbrev update_event : Bytes → ChangeEvent
update_event name =
    change_event convert raw marshal send (codes "UPDATE") (codes "0/1") 7 (codes "1")
      (codes "test_data;public;1;" ++ (name ++ codes ";"))

found_relation : find_relation 42 parser.relations ≡ some test_data
unfolding find_relation
found_relation = refl

table_wanted : is_filtered parser.table_filters (codes "test_data") ≡ false
unfolding str_eq
table_wanted = refl

new_sent :
    row_event convert raw marshal send (codes "UPDATE") (codes "0/1") 7 test_data new_row
    ≡ ok (update_event (codes "new") ∷ [])
unfolding row_event data_map put_columns values_by_name join_key extract_primary_key str_eq insert
    lookup read_cells
new_sent = refl

old_sent :
    row_event convert raw marshal send (codes "UPDATE") (codes "0/1") 7 test_data old_row
    ≡ ok (update_event (codes "old") ∷ [])
unfolding row_event data_map put_columns values_by_name join_key extract_primary_key str_eq insert
    lookup read_cells
old_sent = refl

process_buffer-cut_update_example :
    (process_buffer convert raw marshal send
        (codes "0/1")
        7
        parser
        (b'U' ∷ (old_half ++ tuple (row (codes "1") (codes "new"))))
      ≡ (idle, update_event (codes "new") ∷ [], none))
    × (process_buffer convert raw marshal send (codes "0/1") 7 parser (b'U' ∷ old_half)
        ≡ (idle, update_event (codes "old") ∷ [], none))
process_buffer-cut_update_example =
    process_buffer-cut_update convert raw marshal send (codes "0/1") 7 parser old_half
      (tuple (row (codes "1") (codes "new"))) old_half_head new_half_tuple found_relation
      table_wanted new_sent old_sent

truncate_read : parse_truncate (put32 1 ++ (0 ∷ put32 42)) ≡ ok (42 ∷ [], [])
unfolding parse_truncate parse_ids need byte big_endian
truncate_read = refl

parse_message-truncate_example :
    parse_message convert raw marshal send (codes "0/1") 7 parser b'T' (put32 1 ++ (0 ∷ put32 42))
    ≡ ok (parser, [], [])
parse_message-truncate_example =
    parse_message-truncate convert raw marshal send (codes "0/1") 7 parser
      (put32 1 ++ (0 ∷ put32 42)) truncate_read
