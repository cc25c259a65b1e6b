-- ===== src/Wal/Stability.antt =====
-- The parsers of internal/connectors/postgresql/wal_parser.go succeed in the same way whatever bytes
-- follow a message, with one exception: an UPDATE that ends behind the marker of its new tuple.
use elasticrelay.Common.{
  ℕ, zero, suc, ◌*◌, Option, none, some, Bool, true, false, ◌||◌, List, [], ◌∷◌, ◌==◌,
  if◌then◌else◌, codes,
}
use elasticrelay.Wal.Reader.{
  Reader, other, need, byte, big_endian, bytes, cstring, IsStable, bind-IsStable, pure-IsStable,
  fail-IsStable, need-IsStable, byte-IsStable, big_endian-IsStable, bytes-IsStable,
  cstring-IsStable,
}
use elasticrelay.Wal.Messages.{
  ColumnInfo, RelationInfo, Relations, find_relation, parse_begin, parse_commit, parse_column,
  parse_columns, parse_relation, parse_text, parse_value, parse_values, parse_tuple_of,
  parse_tuple_data, parse_insert, parse_delete, marker, update_head, parse_ids, parse_truncate,
  parse_origin_message, parse_type_message, parse_generic_message,
}

pub if-IsStable :
    {A : Type 0} (b : Bool) (p q : Reader A)
    → IsStable p
    → IsStable q
    → IsStable (if b then p else q)
if-IsStable true p q sp sq = sp
if-IsStable false p q sp sq = sq

pub parse_begin-IsStable : IsStable parse_begin
unfolding parse_begin
parse_begin-IsStable = bind-IsStable (need 20) _ (need-IsStable 20) λ _.
    bind-IsStable (big_endian 8 0) _ (big_endian-IsStable 8 0) λ lsn.
      bind-IsStable (big_endian 8 0) _ (big_endian-IsStable 8 0)
        λ time. bind-IsStable (big_endian 4 0) _ (big_endian-IsStable 4 0) λ xid. pure-IsStable _

pub parse_commit-IsStable : IsStable parse_commit
unfolding parse_commit
parse_commit-IsStable = bind-IsStable (need 25) _ (need-IsStable 25) λ _.
    bind-IsStable byte _ byte-IsStable λ flags.
      bind-IsStable (big_endian 8 0) _ (big_endian-IsStable 8 0) λ commit_lsn.
        bind-IsStable (big_endian 8 0) _ (big_endian-IsStable 8 0) λ end_lsn.
          bind-IsStable (big_endian 8 0) _ (big_endian-IsStable 8 0) λ time. pure-IsStable tt

pub parse_column-IsStable : IsStable parse_column
unfolding parse_column
parse_column-IsStable = bind-IsStable byte _ byte-IsStable λ flags.
    bind-IsStable cstring _ cstring-IsStable λ name. bind-IsStable (need 8) _ (need-IsStable 8) λ _.
      bind-IsStable (big_endian 4 0) _ (big_endian-IsStable 4 0)
        λ id. bind-IsStable (big_endian 4 0) _ (big_endian-IsStable 4 0) λ modifier. pure-IsStable _

pub parse_columns-IsStable : (n : ℕ) → IsStable (parse_columns n)
unfolding parse_columns
parse_columns-IsStable zero = pure-IsStable []
parse_columns-IsStable (suc n) = bind-IsStable parse_column _ parse_column-IsStable λ c.
    bind-IsStable (parse_columns n) _ (parse_columns-IsStable n) λ rest. pure-IsStable (c ∷ rest)

pub parse_relation-IsStable : IsStable parse_relation
unfolding parse_relation
parse_relation-IsStable = bind-IsStable (need 7) _ (need-IsStable 7) λ _.
    bind-IsStable (big_endian 4 0) _ (big_endian-IsStable 4 0) λ id.
      bind-IsStable cstring _ cstring-IsStable λ namespace.
        bind-IsStable cstring _ cstring-IsStable λ name.
          bind-IsStable byte _ byte-IsStable λ identity.
            bind-IsStable (need 2) _ (need-IsStable 2) λ _.
              bind-IsStable (big_endian 2 0) _ (big_endian-IsStable 2 0) λ count.
                bind-IsStable (parse_columns count) _ (parse_columns-IsStable count)
                  λ columns. pure-IsStable _

pub parse_text-IsStable : IsStable parse_text
unfolding parse_text
parse_text-IsStable = bind-IsStable (need 4) _ (need-IsStable 4) λ _.
    bind-IsStable (big_endian 4 0) _ (big_endian-IsStable 4 0)
      λ n. bind-IsStable (need n) _ (need-IsStable n) λ _. bytes-IsStable n

pub parse_value-IsStable : (info : ColumnInfo) (kind : ℕ) → IsStable (parse_value info kind)
unfolding parse_value
parse_value-IsStable info kind = if-IsStable (kind == b'n') _ _ (pure-IsStable _) (
    if-IsStable (kind == b't') _ _
      (bind-IsStable parse_text _ parse_text-IsStable λ value. pure-IsStable _)
      (if-IsStable (kind == b'u') _ _ (pure-IsStable none) (fail-IsStable _)))

pub parse_values-IsStable : (n : ℕ) (infos : List ColumnInfo) → IsStable (parse_values n infos)
unfolding parse_values
parse_values-IsStable zero infos = pure-IsStable []
parse_values-IsStable (suc n) [] = pure-IsStable []
parse_values-IsStable (suc n) (info ∷ infos) = bind-IsStable byte _ byte-IsStable λ kind.
    bind-IsStable (parse_value info kind) _ (parse_value-IsStable info kind) λ c.
      bind-IsStable (parse_values n infos) _ (parse_values-IsStable n infos) λ rest. pure-IsStable _

pub parse_tuple_of-IsStable :
    (relation : Option RelationInfo) (id tuple_type count : ℕ)
    → IsStable (parse_tuple_of relation id tuple_type count)
unfolding parse_tuple_of
parse_tuple_of-IsStable none id tuple_type count = fail-IsStable _
parse_tuple_of-IsStable (some relation) id tuple_type count =
    bind-IsStable (parse_values count relation.columns) _
      (parse_values-IsStable count relation.columns)
      λ columns. if-IsStable _ _ _ (fail-IsStable _) (pure-IsStable _)

pub parse_tuple_data-IsStable :
    (relations : Relations) (id tuple_type : ℕ)
    → IsStable (parse_tuple_data relations id tuple_type)
unfolding parse_tuple_data
parse_tuple_data-IsStable relations id tuple_type = bind-IsStable (need 2) _ (need-IsStable 2) λ _.
    bind-IsStable (big_endian 2 0) _ (big_endian-IsStable 2 0)
      λ count. parse_tuple_of-IsStable (find_relation id relations) id tuple_type count

pub parse_insert-IsStable : (relations : Relations) → IsStable (parse_insert relations)
unfolding parse_insert
parse_insert-IsStable relations = bind-IsStable (need 5) _ (need-IsStable 5) λ _.
    bind-IsStable (big_endian 4 0) _ (big_endian-IsStable 4 0) λ id.
      bind-IsStable byte _ byte-IsStable λ kind.
        if-IsStable _ _ _
          (bind-IsStable (parse_tuple_data relations id kind) _
            (parse_tuple_data-IsStable relations id kind) λ row. pure-IsStable _)
          (fail-IsStable _)

pub parse_delete-IsStable : (relations : Relations) → IsStable (parse_delete relations)
unfolding parse_delete
parse_delete-IsStable relations = bind-IsStable (need 5) _ (need-IsStable 5) λ _.
    bind-IsStable (big_endian 4 0) _ (big_endian-IsStable 4 0) λ id.
      bind-IsStable byte _ byte-IsStable λ kind.
        if-IsStable _ _ _
          (bind-IsStable (parse_tuple_data relations id kind) _
            (parse_tuple_data-IsStable relations id kind) λ row. pure-IsStable _)
          (fail-IsStable _)

pub marker-IsStable : IsStable marker
unfolding marker
marker-IsStable =
    bind-IsStable byte _ byte-IsStable λ c. if-IsStable _ _ _ (pure-IsStable tt) (fail-IsStable _)

pub update_head-IsStable : (relations : Relations) → IsStable (update_head relations)
unfolding update_head
update_head-IsStable relations = bind-IsStable (need 5) _ (need-IsStable 5) λ _.
    bind-IsStable (big_endian 4 0) _ (big_endian-IsStable 4 0) λ id.
      bind-IsStable byte _ byte-IsStable λ kind.
        if-IsStable ((kind == b'O') || (kind == b'K')) _ _
          (bind-IsStable (parse_tuple_data relations id kind) _
            (parse_tuple_data-IsStable relations id kind)
            λ old. bind-IsStable marker _ marker-IsStable λ _. pure-IsStable (id, some old, none))
          (if-IsStable (kind == b'N') _ _
            (bind-IsStable (parse_tuple_data relations id kind) _
              (parse_tuple_data-IsStable relations id kind)
              λ row. pure-IsStable (id, none, some row))
            (fail-IsStable (other (codes "unexpected tuple type for UPDATE"))))

pub parse_ids-IsStable : (n : ℕ) → IsStable (parse_ids n)
unfolding parse_ids
parse_ids-IsStable zero = pure-IsStable []
parse_ids-IsStable (suc n) =
    bind-IsStable (big_endian 4 0) _ (big_endian-IsStable 4 0)
      λ id. bind-IsStable (parse_ids n) _ (parse_ids-IsStable n) λ rest. pure-IsStable (id ∷ rest)

pub parse_truncate-IsStable : IsStable parse_truncate
unfolding parse_truncate
parse_truncate-IsStable = bind-IsStable (need 5) _ (need-IsStable 5) λ _.
    bind-IsStable (big_endian 4 0) _ (big_endian-IsStable 4 0) λ count.
      bind-IsStable byte _ byte-IsStable λ options.
        bind-IsStable (need (count * 4)) _ (need-IsStable (count * 4)) λ _. parse_ids-IsStable count

pub parse_origin_message-IsStable : IsStable parse_origin_message
unfolding parse_origin_message
parse_origin_message-IsStable = bind-IsStable (need 8) _ (need-IsStable 8) λ _.
    bind-IsStable (bytes 8) _ (bytes-IsStable 8)
      λ lsn. bind-IsStable cstring _ cstring-IsStable λ name. pure-IsStable tt

pub parse_type_message-IsStable : IsStable parse_type_message
unfolding parse_type_message
parse_type_message-IsStable = bind-IsStable (need 4) _ (need-IsStable 4) λ _.
    bind-IsStable (bytes 4) _ (bytes-IsStable 4) λ id.
      bind-IsStable cstring _ cstring-IsStable
        λ namespace. bind-IsStable cstring _ cstring-IsStable λ name. pure-IsStable tt

pub parse_generic_message-IsStable : IsStable parse_generic_message
unfolding parse_generic_message
parse_generic_message-IsStable = bind-IsStable (need 13) _ (need-IsStable 13) λ _.
    bind-IsStable (bytes 9) _ (bytes-IsStable 9) λ head.
      bind-IsStable cstring _ cstring-IsStable λ prefix.
        bind-IsStable (need 4) _ (need-IsStable 4) λ _.
          bind-IsStable (big_endian 4 0) _ (big_endian-IsStable 4 0) λ n.
            bind-IsStable (need n) _ (need-IsStable n)
              λ _. bind-IsStable (bytes n) _ (bytes-IsStable n) λ content. pure-IsStable tt
