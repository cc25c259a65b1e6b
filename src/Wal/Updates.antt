-- ===== src/Wal/Updates.antt =====
-- What parseUpdate and parseTruncate of internal/connectors/postgresql/wal_parser.go send.
use elasticrelay.Common.{
  ℕ, ◌≡◌, refl, ap, ◌∙◌, inl, inr, Option, none, some, false, List, [], ◌∷◌, ◌++◌, arith,
  Bool-cases, Option-cases, Bytes, Dict, codes,
}
use elasticrelay.Gateway.{ChangeEvent}
use elasticrelay.Wal.Reader.{Result, ok, err, short, ◌>>=◌, need}
use elasticrelay.Wal.Messages.{
  RowData, RelationInfo, Relations, UpdateRows, find_relation, parse_tuple_data, parse_truncate,
  update_head, update_tail, tuple_reader, parse_update,
}
use elasticrelay.Wal.Stream.{
  WalParser, first_row, row_event, drain, process_buffer, with_rest, after, unchanged, is_filtered,
  create_change_event, truncate_events, parse_message,
}
use elasticrelay.Wal.Stability.{update_head-IsStable}

nothing_short :
    (relations : Relations) (id : ℕ) {x : RowData × Bytes}
    → parse_tuple_data relations id b'N' [] ≡ ok x
    → ◌≡◌ {A = Result (RowData × Bytes)} (err short) (ok x)
unfolding parse_tuple_data need
nothing_short relations id e = e

tuple_reader-ok :
    (relations : Relations) (id : ℕ) (old : Option RowData) (t : Bytes) {row : RowData} {r : Bytes}
    → parse_tuple_data relations id b'N' t ≡ ok (row, r)
    → tuple_reader relations id old t ≡ ok ((id, old, some row), r)
unfolding tuple_reader
tuple_reader-ok relations id old t e = rw (e, ◌>>=◌)

update_tail-ok :
    (relations : Relations) (id : ℕ) (old : Option RowData) (t : Bytes) {row : RowData} {r : Bytes}
    → parse_tuple_data relations id b'N' t ≡ ok (row, r)
    → update_tail relations (id, old, none) t ≡ ok ((id, old, some row), r)
unfolding update_tail
update_tail-ok relations id old [] e = absurd (cc (nothing_short relations id e))
update_tail-ok relations id old (c ∷ t) e = tuple_reader-ok relations id old (c ∷ t) e

parse_update-cut :
    (relations : Relations) (s : Bytes) {rows : UpdateRows}
    → update_head relations s ≡ ok (rows, [])
    → parse_update relations s ≡ update_tail relations rows []
unfolding parse_update
parse_update-cut relations s e = rw (e, ◌>>=◌)

parse_update-whole :
    (relations : Relations) (s t : Bytes) {rows : UpdateRows}
    → update_head relations s ≡ ok (rows, [])
    → parse_update relations (s ++ t) ≡ update_tail relations rows t
unfolding parse_update
parse_update-whole relations s t {rows} e =
    rw ((update_head-IsStable relations s t rows [] e).0, ◌>>=◌)

module _ {Json : Type 0} (convert : Option Bytes → ℕ → Option Json) (raw : Option Bytes → Json)
    (marshal : Dict Json → Option Bytes) (send : ChangeEvent → Option Bytes) (lsn : Bytes) (now : ℕ)
    (wp : WalParser) where
  parse_message-update :
      (s : Bytes) {id : ℕ} {old new : Option RowData} {r : Bytes}
      → parse_update wp.relations s ≡ ok ((id, old, new), r)
      → parse_message convert raw marshal send lsn now wp b'U' s
        ≡ with_rest r (
            unchanged wp
              (create_change_event convert raw marshal send (codes "UPDATE") lsn now wp id new old))
  unfolding parse_message
  parse_message-update s e = rw (e, after)

  create_change_event-row_event :
      (operation : Bytes) (id : ℕ) (new old : Option RowData) {relation : RelationInfo}
      {row : RowData}
      → find_relation id wp.relations ≡ some relation
      → is_filtered wp.table_filters (RelationInfo.relation_name relation) ≡ false
      → first_row new old ≡ some row
      → create_change_event convert raw marshal send operation lsn now wp id new old
        ≡ row_event convert raw marshal send operation lsn now relation row
  unfolding create_change_event
  create_change_event-row_event operation id new old found wanted there =
      rw (found, create_change_event) (rw wanted (rw (there, create_change_event) refl))

  -- A buffer that is one message leads to the event of the message, and is empty then.
  process_buffer-one :
      (c : ℕ) (s : Bytes) {e : ChangeEvent}
      → parse_message convert raw marshal send lsn now wp c s ≡ ok (wp, e ∷ [], [])
      → process_buffer convert raw marshal send lsn now wp (c ∷ s)
        ≡ (record { parser = wp; logical_buf = [] }, e ∷ [], none)
  unfolding process_buffer drain
  process_buffer-one c s read = rw (read, drain) refl

  -- Take the bytes s of an UPDATE of a table that is not filtered which end behind the marker of its new tuple,
  -- and the bytes t of that tuple. If the buffer has both, it leads to the event of the new row. If the buffer
  -- has s alone, it leads to the event of the old row at once, and is empty then, so that t will be
  -- read as another message. Either row has an event that can be sent.
  pub process_buffer-cut_update :
      (s t : Bytes) {id : ℕ} {old row : RowData} {relation : RelationInfo} {e e' : ChangeEvent}
      → update_head wp.relations s ≡ ok ((id, some old, none), [])
      → parse_tuple_data wp.relations id b'N' t ≡ ok (row, [])
      → find_relation id wp.relations ≡ some relation
      → is_filtered wp.table_filters (RelationInfo.relation_name relation) ≡ false
      → row_event convert raw marshal send (codes "UPDATE") lsn now relation row ≡ ok (e ∷ [])
      → row_event convert raw marshal send (codes "UPDATE") lsn now relation old ≡ ok (e' ∷ [])
      → (process_buffer convert raw marshal send lsn now wp (b'U' ∷ (s ++ t))
          ≡ (record { parser = wp; logical_buf = [] }, e ∷ [], none))
        × (process_buffer convert raw marshal send lsn now wp (b'U' ∷ s)
            ≡ (record { parser = wp; logical_buf = [] }, e' ∷ [], none))
  unfolding update_tail
  process_buffer-cut_update s t {id} {old} {row} head tuple found wanted new_event old_event = (
    process_buffer-one b'U' (s ++ t) (
        parse_message-update (s ++ t) (
          parse_update-whole wp.relations s t head
          ∙ update_tail-ok wp.relations id (some old) t tuple)
        ∙ ap (λ x. with_rest [] (unchanged wp x))
            (create_change_event-row_event (codes "UPDATE") id (some row) (some old) found wanted
                refl
              ∙ new_event)),
    process_buffer-one b'U' s (
        parse_message-update s (parse_update-cut wp.relations s head)
        ∙ ap (λ x. with_rest [] (unchanged wp x))
            (create_change_event-row_event (codes "UPDATE") id none (some old) found wanted refl
              ∙ old_event)),
  )

  rowless :
      (operation at : Bytes) (id : ℕ)
      → elim (create_change_event convert raw marshal send operation at now wp id none none)
          as (λ x. List ChangeEvent) [ err e ↦ [] | ok events ↦ events ]
        ≡ []
  unfolding create_change_event
  rowless operation at id = elim (Option-cases (find_relation id wp.relations)) [
    | inl absent ↦ rw (absent, create_change_event)
    | inr (relation, found) ↦
        elim (Bool-cases (is_filtered wp.table_filters (RelationInfo.relation_name relation))) [
          | inl skipped ↦ ground (arith, found, skipped)
          | inr wanted ↦ ground (arith, found, wanted)
        ]
  ]

  pub no_truncate_events : (ids : List ℕ) → truncate_events convert raw marshal send now wp ids ≡ []
  unfolding truncate_events
  no_truncate_events [] = refl
  no_truncate_events (id ∷ ids) = rw (rowless (codes "TRUNCATE") [] id) (no_truncate_events ids)

  -- A TRUNCATE that is read changes nothing and sends no event, whatever relations it names.
  pub parse_message-truncate :
      (s : Bytes) {ids : List ℕ} {r : Bytes}
      → parse_truncate s ≡ ok (ids, r)
      → parse_message convert raw marshal send lsn now wp b'T' s ≡ ok (wp, [], r)
  unfolding parse_message
  parse_message-truncate s {ids} {r} e =
      rw (e, after) (ap (λ events. ok (wp, events, r)) (no_truncate_events ids))
