-- ===== src/Wal/Rows.antt =====
-- INSERT messages as PostgreSQL's logical replication protocol writes them, and what parseInsert of
-- internal/connectors/postgresql/wal_parser.go reads of them.
use elasticrelay.Common.{
  ℕ, suc, ◌/◌, ◌%◌, ◌^◌, ◌<◌, ◌≡◌, refl, ap, ◌∙◌, Option, none, some, true, false, List, [], ◌∷◌,
  ◌++◌, append_assoc, arith, Bytes, All, length, length-append,
}
use elasticrelay.Wal.Reader.{ok, bind-ok, ◌>>=◌, need, byte, big_endian, bytes}
use elasticrelay.Wal.Messages.{
  ColumnInfo, RelationInfo, ColumnData, RowData, Relations, find_relation, column_data, parse_text,
  parse_value, append_some, parse_values, parse_tuple_of, parse_tuple_data, parse_insert,
}

-- The value of a column as a message gives it.
pub data Cell : Type 0 where
  text : Bytes → Cell
  null : Cell
  unchanged : Cell

abbrev pub put16 : ℕ → Bytes
put16 x = x / 256 % 256 ∷ x % 256 ∷ []

abbrev pub put32 : ℕ → Bytes
put32 x = x / 2 ^ 24 % 256 ∷ x / 2 ^ 16 % 256 ∷ x / 2 ^ 8 % 256 ∷ x % 256 ∷ []

unfoldable pub put_cell : Cell → Bytes
put_cell (text s) = b't' ∷ (put32 (length s) ++ s)
put_cell null = b'n' ∷ []
put_cell unchanged = b'u' ∷ []

-- A row: the columns of the relation with their values.
abbrev pub Row : Type 0
Row = List (ColumnInfo × Cell)

unfoldable pub put_cells : Row → Bytes
put_cells [] = []
put_cells ((info, c) ∷ row) = put_cell c ++ put_cells row

abbrev pub put_insert : ℕ → Row → Bytes
put_insert id row = put32 id ++ (b'N' ∷ (put16 (length row) ++ put_cells row))

-- What is to be read of a row; a value that did not change is not there.
unfoldable pub read_cells : Row → List ColumnData
read_cells [] = []
read_cells ((info, text s) ∷ row) = column_data info (some s) false ∷ read_cells row
read_cells ((info, null) ∷ row) = column_data info none true ∷ read_cells row
read_cells ((info, unchanged) ∷ row) = read_cells row

-- The lengths of texts fit into 32 bits.
abbrev pub Fits : ColumnInfo × Cell → Type 0
Fits (info, text s) = length s < 2 ^ 32
Fits (info, null) = Unit {0}
Fits (info, unchanged) = Unit {0}

put16-big_endian : (x : ℕ) (s : Bytes) → x < 2 ^ 16 → big_endian 2 0 (put16 x ++ s) ≡ ok (x, s)
unfolding big_endian
put16-big_endian x s h = ground arith

put32-big_endian : (x : ℕ) (s : Bytes) → x < 2 ^ 32 → big_endian 4 0 (put32 x ++ s) ≡ ok (x, s)
unfolding big_endian
put32-big_endian x s h = ground arith

bytes-append : (t s : Bytes) → bytes (length t) (t ++ s) ≡ ok (t, s)
unfolding bytes byte
bytes-append [] s = refl
bytes-append (c ∷ t) s = rw (bytes-append t s, ◌>>=◌) refl

need-append : (t s : Bytes) → need (length t) (t ++ s) ≡ ok (tt, t ++ s)
unfolding need
need-append t s = ground (arith, length-append t s)

need_4 : (x : ℕ) (s : Bytes) → need 4 (put32 x ++ s) ≡ ok (tt, put32 x ++ s)
unfolding need
need_4 x s = ground arith

need_5 : (x c : ℕ) (s : Bytes) → need 5 (put32 x ++ (c ∷ s)) ≡ ok (tt, put32 x ++ (c ∷ s))
unfolding need
need_5 x c s = ground arith

need_2 : (x : ℕ) (s : Bytes) → need 2 (put16 x ++ s) ≡ ok (tt, put16 x ++ s)
unfolding need
need_2 x s = ground arith

parse_text-append :
    (t s : Bytes) → length t < 2 ^ 32 → parse_text (put32 (length t) ++ (t ++ s)) ≡ ok (t, s)
unfolding parse_text
parse_text-append t s h =
    bind-ok (need 4) _ _ (need_4 (length t) (t ++ s))
    ∙ bind-ok (big_endian 4 0) _ _ (put32-big_endian (length t) (t ++ s) h)
    ∙ bind-ok (need (length t)) _ _ (need-append t s)
    ∙ bytes-append t s

byte_first : (c : ℕ) (s : Bytes) → byte (c ∷ s) ≡ ok (c, s)
unfolding byte
byte_first c s = refl

-- What is read of one cell.
abbrev read_cell : ColumnInfo → Cell → Option ColumnData
read_cell info (text t) = some (column_data info (some t) false)
read_cell info null = some (column_data info none true)
read_cell info unchanged = none

cell_kind : Cell → ℕ
cell_kind (text t) = b't'
cell_kind null = b'n'
cell_kind unchanged = b'u'

cell_tail : Cell → Bytes
cell_tail (text t) = put32 (length t) ++ t
cell_tail null = []
cell_tail unchanged = []

byte-put_cell : (c : Cell) (s : Bytes) → byte (put_cell c ++ s) ≡ ok (cell_kind c, cell_tail c ++ s)
unfolding byte put_cell cell_kind cell_tail
byte-put_cell (text t) s = refl
byte-put_cell null s = refl
byte-put_cell unchanged s = refl

parse_value-put_cell :
    (info : ColumnInfo) (c : Cell) (s : Bytes)
    → Fits (info, c)
    → parse_value info (cell_kind c) (cell_tail c ++ s) ≡ ok (read_cell info c, s)
unfolding parse_value cell_kind cell_tail
parse_value-put_cell info (text t) s h = bind-ok parse_text _ _ (parse_text-append t s h)
parse_value-put_cell info null s h = refl
parse_value-put_cell info unchanged s h = refl

read_cells-step :
    (info : ColumnInfo) (c : Cell) (row : Row)
    → append_some (read_cell info c) (read_cells row) ≡ read_cells ((info, c) ∷ row)
unfolding read_cells
read_cells-step info (text t) row = refl
read_cells-step info null row = refl
read_cells-step info unchanged row = refl

unfoldable pub infos : Row → List ColumnInfo
infos [] = []
infos ((info, c) ∷ row) = info ∷ infos row

parse_values-put_cells :
    (row : Row) (s : Bytes)
    → All Fits row
    → parse_values (length row) (infos row) (put_cells row ++ s) ≡ ok (read_cells row, s)
unfolding parse_values put_cells infos
parse_values-put_cells [] s h = unfold read_cells in refl
parse_values-put_cells ((info, c) ∷ row) s h =
    ap (parse_values (suc (length row)) (info ∷ infos row))
      (append_assoc (put_cell c) (put_cells row) s)
    ∙ bind-ok byte _ _ (byte-put_cell c (put_cells row ++ s))
    ∙ bind-ok (parse_value info (cell_kind c)) _ _
        (parse_value-put_cell info c (put_cells row ++ s) h.0)
    ∙ bind-ok (parse_values (length row) (infos row)) _ _ (parse_values-put_cells row s h.1)
    ∙ ap (λ (cs : List ColumnData). ok (cs, s)) (read_cells-step info c row)

length-infos : (row : Row) → length (infos row) ≡ length row
unfolding infos
length-infos [] = refl
length-infos ((info, c) ∷ row) = ap suc (length-infos row)

abbrev pub insert_row : ℕ → Row → RowData
insert_row id row = record { relation_id = id; tuple_type = b'N'; columns = read_cells row }

module _ (relations : Relations) (relation : RelationInfo) (id : ℕ) (row : Row)
    (found : find_relation id relations ≡ some relation) (same : relation.columns ≡ infos row)
    (fits : All Fits row) (short_row : length row < 2 ^ 16) where
  parse_tuple_of-put_cells :
      (s : Bytes)
      → parse_tuple_of (some relation) id b'N' (length row) (put_cells row ++ s)
        ≡ ok (insert_row id row, s)
  unfolding parse_tuple_of
  parse_tuple_of-put_cells s = rw same (
      bind-ok (parse_values (length row) (infos row)) _ _ (parse_values-put_cells row s fits)
      ∙ rw (length-infos row) (ground arith))

  parse_tuple_data-put_cells :
      (s : Bytes)
      → parse_tuple_data relations id b'N' (put16 (length row) ++ (put_cells row ++ s))
        ≡ ok (insert_row id row, s)
  unfolding parse_tuple_data
  parse_tuple_data-put_cells s =
      bind-ok (need 2) _ _ (need_2 (length row) (put_cells row ++ s))
      ∙ bind-ok (big_endian 2 0) _ _ (put16-big_endian (length row) (put_cells row ++ s) short_row)
      ∙ rw found (parse_tuple_of-put_cells s)

  -- An INSERT message for a relation that the parser knows is read as the row that was written, with
  -- nothing of what follows it: each text and null stands in the row under its column, and a value that
  -- did not change is left out. The row has a cell for each column of the relation, fewer than 2 ^ 16,
  -- and its texts are shorter than 2 ^ 32.
  pub parse_insert-put_insert :
      (s : Bytes)
      → id < 2 ^ 32
      → parse_insert relations (put_insert id row ++ s) ≡ ok ((id, insert_row id row), s)
  unfolding parse_insert
  parse_insert-put_insert s small =
      let rest = put16 (length row) ++ (put_cells row ++ s) in
      bind-ok (need 5) _ _ (need_5 id b'N' (put16 (length row) ++ put_cells row ++ s))
      ∙ bind-ok (big_endian 4 0) _ _ (put32-big_endian id (b'N' ∷ rest) small)
      ∙ bind-ok byte _ (b'N' ∷ rest) (byte_first b'N' rest)
      ∙ bind-ok (parse_tuple_data relations id b'N') _ _ (parse_tuple_data-put_cells s)
