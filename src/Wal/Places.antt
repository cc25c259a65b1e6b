-- ===== src/Wal/Places.antt =====
-- The events of internal/connectors/postgresql/wal_parser.go but for their checkpoints, which tell the
-- position and the time of the message that they come with.
use elasticrelay.Common.{
  ℕ, zero, suc, ◌≡◌, ◌⊎◌, refl, sym, ap, ◌∙◌, inl, inr, Option, none, some, Bool, true, false, List,
  [], ◌∷◌, ◌++◌, ◌==◌, if◌then◌else◌, Bool-cases, Option-cases, Bytes, Dict, codes, length,
}
use elasticrelay.Gateway.{ChangeEvent}
use elasticrelay.Wal.Reader.{Reader, Result, ok, err, ParseError, Result-cases}
use elasticrelay.Wal.Messages.{
  RelationInfo, RowData, find_relation, parse_truncate, parse_insert, parse_update, parse_delete,
}
use elasticrelay.Wal.Stream.{
  WalParser, Buffered, Drained, Outcome, Parsed, XlogData, position_after, with_rest, after,
  unchanged, is_filtered, first_row, add_events, settled, behind, and_then, extract_primary_key,
  data_map, change_event, sent_event, row_event, create_change_event, truncate_events,
  parse_message, drain, process_buffer, process_payload, process_payloads, parse_xlog_data,
  parse_stream,
}
use elasticrelay.Wal.Chunks.{run, run-ok, run-err}
use elasticrelay.Wal.Updates.{no_truncate_events}
use elasticrelay.Wal.Payloads.{Observed, observed, are_clean, join, process_payloads-join}

-- An event without its checkpoint.
abbrev pub bare : ChangeEvent → ChangeEvent
bare e = record e { checkpoint = none }

abbrev pub bare_events : List ChangeEvent → List ChangeEvent
bare_events [] = []
bare_events (e ∷ es) = bare e ∷ bare_events es

abbrev bare_result : Result (List ChangeEvent) → Result (List ChangeEvent)
bare_result (err e) = err e
bare_result (ok events) = ok (bare_events events)

abbrev bare_parsed : Result Parsed → Result Parsed
bare_parsed (err e) = err e
bare_parsed (ok (wp, events, r)) = ok (wp, bare_events events, r)

abbrev bare_drained : Drained → Drained
bare_drained d = record d { events = bare_events d.events }

abbrev pub bare_outcome : Outcome → Outcome
bare_outcome (b, events, e) = (b, bare_events events, e)

bare-append : (xs ys : List ChangeEvent) → bare_events (xs ++ ys) ≡ bare_events xs ++ bare_events ys
bare-append [] ys = refl
bare-append (x ∷ xs) ys = ap (◌∷◌ (bare x)) (bare-append xs ys)

if-bare :
    (b : Bool) (x x' y y' : Result Parsed)
    → bare_parsed x ≡ bare_parsed x'
    → bare_parsed y ≡ bare_parsed y'
    → bare_parsed (if b then x else y) ≡ bare_parsed (if b then x' else y')
if-bare true x x' y y' h k = h
if-bare false x x' y y' h k = k

bare-with_rest :
    (wp : WalParser) (r : Bytes) (x : Result (List ChangeEvent))
    → bare_parsed (with_rest r (unchanged wp x)) ≡ with_rest r (unchanged wp (bare_result x))
bare-with_rest wp r (err e) = refl
bare-with_rest wp r (ok events) = refl

bare-after :
    {A : Type 0} (p : Reader A) (f g : A → Result (List ChangeEvent)) (wp : WalParser) (s : Bytes)
    → ((a : A) → bare_result (f a) ≡ bare_result (g a))
    → bare_parsed (after p (λ a. unchanged wp (f a)) s)
      ≡ bare_parsed (after p (λ a. unchanged wp (g a)) s)
bare-after p f g wp s h = elim (Result-cases (p s)) [
  | inl (e, bad) ↦ rw (bad, after) refl
  | inr ((a, r), good) ↦
      rw (good, after)
        (bare-with_rest wp r (f a)
          ∙ ap (λ x. with_rest r (unchanged wp x)) (h a)
          ∙ sym (bare-with_rest wp r (g a)))
]

-- Two results that are the same but for the checkpoints.
abbrev Matches : Result Parsed → Result Parsed → Type 0
Matches x y =
    ((e : ParseError) × (x ≡ err e) × (y ≡ err e))
    ⊎ ((wp : WalParser) × (es : List ChangeEvent) × (fs : List ChangeEvent) × (r : Bytes) × (x
          ≡ ok (wp, es, r))
        × (y ≡ ok (wp, fs, r))
        × (bare_events es ≡ bare_events fs))

matched : (x y : Result Parsed) → bare_parsed x ≡ bare_parsed y → Matches x y
matched (err e) (err e') h = inl (e, refl, cc)
matched (err e) (ok y) h = absurd (cc)
matched (ok x) (err e) h = absurd (cc)
matched (ok (wp, es, r)) (ok (wp', fs, r')) h = inr (wp, es, fs, r, refl, cc, cc)

bare-behind :
    (es : List ChangeEvent) (x : Outcome)
    → bare_outcome (behind es x) ≡ behind (bare_events es) (bare_outcome x)
bare-behind es (b, more, e) = ap (λ (ev : List ChangeEvent). (b, ev, e)) (bare-append es more)

bare-and_then :
    (x y : Outcome) (next next' : Buffered → Outcome)
    → bare_outcome x ≡ bare_outcome y
    → ((b : Buffered) → bare_outcome (next b) ≡ bare_outcome (next' b))
    → bare_outcome (and_then x next) ≡ bare_outcome (and_then y next')
bare-and_then (b, es, none) (b', fs, none) next next' h k =
    bare-behind es (next b)
    ∙ ap (λ (o : Outcome). behind o.1 (bare_outcome (next o.0))) h
    ∙ ap (behind (bare_events fs)) (k b')
    ∙ sym (bare-behind fs (next' b'))
bare-and_then (b, es, none) (b', fs, some e) next next' h k = absurd (cc)
bare-and_then (b, es, some e) (b', fs, none) next next' h k = absurd (cc)
bare-and_then (b, es, some e) (b', fs, some e') next next' h k = h

bare-add_events :
    (es : List ChangeEvent) (d : Drained)
    → bare_drained (add_events es d) ≡ add_events (bare_events es) (bare_drained d)
bare-add_events es d =
    ap (λ (ev : List ChangeEvent). record d { events = ev }) (bare-append es d.events)

observed-bare :
    (x y : Outcome)
    → observed x ≡ observed y
    → observed (bare_outcome x) ≡ observed (bare_outcome y)
observed-bare (b, es, e) (b', fs, e') h = ap (λ (o : Observed). (o.0, o.1, bare_events o.2, o.3)) h

abbrev pub payloads : List XlogData → List Bytes
payloads [] = []
payloads (x ∷ xs) = x.wal_data ∷ payloads xs

module _ {Json : Type 0} (convert : Option Bytes → ℕ → Option Json) (raw : Option Bytes → Json)
    (marshal : Dict Json → Option Bytes) (send : ChangeEvent → Option Bytes)
    (blind : (e : ChangeEvent) → send e ≡ send (bare e)) where
  bare-sent_event :
      (e f : ChangeEvent)
      → bare e ≡ bare f
      → bare_result (sent_event convert raw marshal send e)
        ≡ bare_result (sent_event convert raw marshal send f)
  bare-sent_event e f same =
      let alike : send e ≡ send f = blind e ∙ ap send same ∙ sym (blind f) in
      elim (Option-cases (send f)) [
        | inl fine ↦
            rw (alike ∙ fine, bare_result)
              (rw (fine, bare_result) (ap (λ (x : ChangeEvent). ok (x ∷ [])) same))
        | inr (text, bad) ↦ rw (alike ∙ bad, bare_result) (rw (bad, bare_result) refl)
      ]

  bare-row_event :
      (op lsn lsn' : Bytes) (now now' : ℕ) (relation : RelationInfo) (row : RowData)
      → bare_result (row_event convert raw marshal send op lsn now relation row)
        ≡ bare_result (row_event convert raw marshal send op lsn' now' relation row)
  unfolding row_event
  bare-row_event op lsn lsn' now now' relation row =
      elim (Option-cases (marshal (data_map convert raw marshal send relation row))) [
        | inl fails ↦ rw (fails, row_event) refl
        | inr (text, made) ↦ elim (Result-cases (extract_primary_key row relation)) [
          | inl (e, bad) ↦ rw (made, row_event) (rw (bad, row_event) refl)
          | inr (key, good) ↦
              rw (made, row_event)
                (rw (good, row_event)
                  (bare-sent_event (change_event convert raw marshal send op lsn now key text)
                    (change_event convert raw marshal send op lsn' now' key text) refl))
        ]
      ]

  bare-create_change_event :
      (op lsn lsn' : Bytes) (now now' : ℕ) (wp : WalParser) (id : ℕ) (new old : Option RowData)
      → bare_result (create_change_event convert raw marshal send op lsn now wp id new old)
        ≡ bare_result (create_change_event convert raw marshal send op lsn' now' wp id new old)
  unfolding create_change_event
  bare-create_change_event op lsn lsn' now now' wp id new old =
      elim (Option-cases (find_relation id (WalParser.relations wp))) [
        | inl absent ↦ rw (absent, create_change_event) refl
        | inr (relation, found) ↦
            elim (Bool-cases
              (is_filtered (WalParser.table_filters wp) (RelationInfo.relation_name relation))) [
                | inl skipped ↦ rw (found, create_change_event) (rw skipped refl)
                | inr wanted ↦ elim (Option-cases (first_row new old)) [
                  | inl nothing ↦
                      rw (found, create_change_event)
                        (rw wanted (rw (nothing, create_change_event) refl))
                  | inr (row, there) ↦
                      rw (found, create_change_event)
                        (rw wanted (
                          rw (there, create_change_event)
                            (bare-row_event op lsn lsn' now now' relation row)))
                ]
              ]
      ]

  bare-parse_message :
      (lsn lsn' : Bytes) (now now' : ℕ) (wp : WalParser) (c : ℕ) (s : Bytes)
      → bare_parsed (parse_message convert raw marshal send lsn now wp c s)
        ≡ bare_parsed (parse_message convert raw marshal send lsn' now' wp c s)
  unfolding parse_message
  bare-parse_message lsn lsn' now now' wp c s = if-bare (c == b'B') _ _ _ _ refl (
      if-bare (c == b'C') _ _ _ _ refl (
        if-bare (c == b'R') _ _ _ _ refl (
          if-bare (c == b'I') _ _ _ _
            (bare-after (parse_insert (WalParser.relations wp)) _ _ wp s (λ m.
              bare-create_change_event (codes "INSERT") lsn lsn' now now' wp m.0 (some m.1) none))
            (if-bare (c == b'U') _ _ _ _
              (bare-after (parse_update (WalParser.relations wp)) _ _ wp s
                (λ m. bare-create_change_event (codes "UPDATE") lsn lsn' now now' wp m.0 m.2 m.1))
              (if-bare (c == b'D') _ _ _ _
                (bare-after (parse_delete (WalParser.relations wp)) _ _ wp s (λ m.
                  bare-create_change_event (codes "DELETE") lsn lsn' now now' wp m.0 none
                    (some m.1)))
                (if-bare (c == b'T') _ _ _ _
                  (bare-after parse_truncate
                    (λ ids. ok (truncate_events convert raw marshal send now wp ids))
                    (λ ids. ok (truncate_events convert raw marshal send now' wp ids)) wp s
                    (λ ids.
                      ap (λ ev. ok (bare_events ev))
                        (no_truncate_events convert raw marshal send lsn now wp ids
                          ∙ sym (no_truncate_events convert raw marshal send lsn' now' wp ids))))
                  refl))))))

  bare-drain :
      (lsn lsn' : Bytes) (now now' fuel : ℕ) (wp : WalParser) (s : Bytes)
      → bare_drained (run convert raw marshal send lsn now fuel wp s)
        ≡ bare_drained (run convert raw marshal send lsn' now' fuel wp s)
  unfolding drain
  bare-drain lsn lsn' now now' fuel wp [] = refl
  bare-drain lsn lsn' now now' zero wp (c ∷ s) = refl
  bare-drain lsn lsn' now now' (suc fuel) wp (c ∷ s) =
      elim (matched _ _ (bare-parse_message lsn lsn' now now' wp c s)) [
        | inl (e, one, other) ↦ ap bare_drained (
            run-err convert raw marshal send lsn now fuel wp c s one
            ∙ sym (run-err convert raw marshal send lsn' now' fuel wp c s other))
        | inr (wp', es, fs, r, one, other, same) ↦
            ap bare_drained (run-ok convert raw marshal send lsn now fuel wp c s one)
            ∙ bare-add_events es (run convert raw marshal send lsn now fuel wp' r)
            ∙ ap (add_events (bare_events es)) (bare-drain lsn lsn' now now' fuel wp' r)
            ∙ ap
                (λ (ev : List ChangeEvent).
                  add_events ev (bare_drained (run convert raw marshal send lsn' now' fuel wp' r)))
                same
            ∙ sym (bare-add_events fs (run convert raw marshal send lsn' now' fuel wp' r))
            ∙ sym (ap bare_drained (run-ok convert raw marshal send lsn' now' fuel wp c s other))
      ]

  bare-process_payload :
      (lsn lsn' : Bytes) (now now' : ℕ) (b : Buffered) (p : Bytes)
      → bare_outcome (process_payload convert raw marshal send lsn now b p)
        ≡ bare_outcome (process_payload convert raw marshal send lsn' now' b p)
  unfolding process_payload process_buffer
  bare-process_payload lsn lsn' now now' b [] = refl
  bare-process_payload lsn lsn' now now' b (c ∷ p) =
      let whole = b.logical_buf ++ (c ∷ p) in
      ap (settled whole) (bare-drain lsn lsn' now now' (length whole) b.parser whole)

  bare-parse_stream :
      (at lsn : Bytes) (now : ℕ) (b : Buffered) (xs : List XlogData)
      → bare_outcome (parse_stream convert raw marshal send at xs b)
        ≡ bare_outcome (process_payloads convert raw marshal send lsn now b (payloads xs))
  unfolding parse_stream parse_xlog_data process_payloads
  bare-parse_stream at lsn now b [] = refl
  bare-parse_stream at lsn now b (x ∷ xs) =
      bare-and_then (parse_xlog_data convert raw marshal send at x b)
        (process_payload convert raw marshal send lsn now b x.wal_data)
        (λ b'. parse_stream convert raw marshal send (position_after x at) xs b')
        (λ b'. process_payloads convert raw marshal send lsn now b' (payloads xs))
        (bare-process_payload (position_after x at) lsn x.now now b x.wal_data)
        (λ b'. bare-parse_stream (position_after x at) lsn now b' xs)

  -- Let the error of a Send not depend on the checkpoint of the event. Then the messages of a stream, each with
  -- a position and a time of its own, lead to the same parser, error, buffer and events, but for the checkpoints of
  -- the events, as one message with the bytes of all of them, at any position and time. The messages but the last
  -- give no error, and no message of pgoutput ends behind the marker of a new tuple where one of them
  -- ends; the buffer counts where there is no error.
  pub parse_stream-join :
      (at : Bytes) (b : Buffered) (xs : List XlogData) (lsn : Bytes) (whole : XlogData)
      → whole.wal_data ≡ join (payloads xs)
      → are_clean convert raw marshal send (position_after whole lsn) whole.now b (payloads xs)
        ≡ true
      → observed (bare_outcome (parse_stream convert raw marshal send at xs b))
        ≡ observed (bare_outcome (parse_xlog_data convert raw marshal send lsn whole b))
  unfolding parse_xlog_data
  parse_stream-join at b xs lsn whole same clean =
      let here = position_after whole lsn in
      ap observed (bare-parse_stream at here whole.now b xs)
      ∙ observed-bare (process_payloads convert raw marshal send here whole.now b (payloads xs))
          (process_payload convert raw marshal send here whole.now b (join (payloads xs)))
          (process_payloads-join convert raw marshal send here whole.now b (payloads xs) clean)
      ∙ ap
          (λ p.
            observed (bare_outcome (process_payload convert raw marshal send here whole.now b p)))
          (sym same)
