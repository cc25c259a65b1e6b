-- ===== src/Wal/Payloads.antt =====
-- Payloads: parseXLogData of internal/connectors/postgresql/wal_parser.go on a stream that is cut into
-- payloads at any place.
use elasticrelay.Common.{
  ℕ, ◌≡◌, refl, sym, ap, ◌∙◌, Option, none, some, Bool, true, false, ◌&&◌, List, [], ◌∷◌, ◌++◌,
  append_assoc, append-nil, arith, Bytes, Dict, length, length-append,
}
use elasticrelay.Gateway.{ChangeEvent}
use elasticrelay.Wal.Reader.{ParseError}
use elasticrelay.Wal.Stream.{
  WalParser, Buffered, Drained, Outcome, add_events, kept_buffer, settled, behind, and_then,
  process_buffer, process_payload, process_payloads,
}
use elasticrelay.Wal.Chunks.{uncut, run, rest_shrinks, drain-enough_fuel, drain-append}

-- What is seen of an outcome: an error ends the stream, and the buffer is not read again.
abbrev pub Observed : Type 0
Observed = WalParser × Option Bytes × List ChangeEvent × Option ParseError

abbrev pub observed : Outcome → Observed
observed (b, events, e) =
    (Buffered.parser b, elim e [ none ↦ some (Buffered.logical_buf b) | some x ↦ none ], events, e)

abbrev pub has_no_error : Option ParseError → Bool
has_no_error none = true
has_no_error (some e) = false

abbrev pub join : List Bytes → Bytes
join [] = []
join (p ∷ ps) = p ++ join ps

observed-settled_parts :
    (w w' : Bytes) (events : List ChangeEvent) (wp : WalParser) (es : List ChangeEvent) (r : Bytes)
    (e : Option ParseError)
    → observed
        (settled w (add_events events (record { parser = wp; events = es; rest = r; error = e })))
      ≡ observed
          (behind events (settled w' (record { parser = wp; events = es; rest = r; error = e })))
observed-settled_parts w w' events wp es r none = refl
observed-settled_parts w w' events wp es r (some e) = refl

observed-settled :
    (w w' : Bytes) (events : List ChangeEvent) (d : Drained)
    → observed (settled w (add_events events d)) ≡ observed (behind events (settled w' d))
observed-settled w w' events d = observed-settled_parts w w' events d.parser d.events d.rest d.error

kept_buffer-none : (w : Bytes) (d : Drained) → d.error ≡ none → kept_buffer w d ≡ d.rest
kept_buffer-none w d e = rw (e, kept_buffer)

observed-stop : (x : Outcome) → x.2 ≡ none → observed x ≡ observed (behind x.1 (x.0, [], none))
observed-stop (b, events, none) h = rw append-nil
observed-stop (b, events, some e) h = absurd (cc)

and_then-none :
    (x : Outcome) (next : Buffered → Outcome) → x.2 ≡ none → and_then x next ≡ behind x.1 (next x.0)
and_then-none (b, events, none) next h = refl
and_then-none (b, events, some e) next h = absurd (cc)

has_no_error-eq : (e : Option ParseError) → has_no_error e ≡ true → e ≡ none
has_no_error-eq none h = refl
has_no_error-eq (some e) h = absurd (cc)

observed-behind :
    (events : List ChangeEvent) (x y : Outcome)
    → observed x ≡ observed y
    → observed (behind events x) ≡ observed (behind events y)
observed-behind events (b, xs, e) (b', ys, e') h =
    ap (λ (o : Observed). (o.0, o.1, events ++ o.2, o.3)) h

and_then-stop : (x : Outcome) → observed (and_then x (λ b. (b, [], none))) ≡ observed x
and_then-stop (b, events, none) = rw append-nil
and_then-stop (b, events, some e) = refl

conditions : {a b c : Bool} → (a && b && c) ≡ true → (a ≡ true) × (b ≡ true) × (c ≡ true)
conditions h = (ground arith, ground arith, ground arith)

module _ {Json : Type 0} (convert : Option Bytes → ℕ → Option Json) (raw : Option Bytes → Json)
    (marshal : Dict Json → Option Bytes) (send : ChangeEvent → Option Bytes) (lsn : Bytes)
    (now : ℕ) where
  abbrev buffered : WalParser → Bytes → Drained
  buffered wp w = run convert raw marshal send lsn now (length w) wp w

  process_buffer-append :
      (wp : WalParser) (w q : Bytes)
      → uncut convert raw marshal send lsn now (length w) wp w ≡ true
      → observed (process_buffer convert raw marshal send lsn now wp (w ++ q))
        ≡ observed (
            behind (Drained.events (buffered wp w)) (
              process_buffer convert raw marshal send lsn now
                (Drained.parser (buffered wp w))
                (Drained.rest (buffered wp w) ++ q)))
  unfolding process_buffer
  process_buffer-append wp w q u =
      let d = buffered wp w in
      let whole =
        drain-append convert raw marshal send lsn now (length w) (length (w ++ q)) wp w q
          (omega arith) (omega (arith, length-append w q)) u in
      let enough =
        drain-enough_fuel convert raw marshal send lsn now (length (w ++ q)) (length (d.rest ++ q))
          d.parser (d.rest ++ q)
          (omega (
            arith,
            length-append w q,
            length-append d.rest q,
            rest_shrinks convert raw marshal send lsn now (length w) wp w,
          ))
          (omega arith) in
      ap (λ (x : Drained). observed (settled (w ++ q) x)) (whole ∙ ap (add_events d.events) enough)
      ∙ observed-settled (w ++ q) (d.rest ++ q) d.events (buffered d.parser (d.rest ++ q))

  -- The payloads but the last give no error, and no message ends behind the marker of a new tuple where
  -- a payload ends.
  unfoldable pub are_clean : Buffered → List Bytes → Bool
  are_clean b [] = true
  are_clean b (p ∷ []) = true
  are_clean b (p ∷ q ∷ ps) =
      let w = Buffered.logical_buf b ++ p in
      uncut convert raw marshal send lsn now (length w) (Buffered.parser b) w
      && has_no_error (process_payload convert raw marshal send lsn now b p).2
      && are_clean (process_payload convert raw marshal send lsn now b p).0 (q ∷ ps)

  process_payload-append :
      (b : Buffered) (p q : Bytes)
      → uncut convert raw marshal send lsn now
          (length (b.logical_buf ++ p))
          b.parser
          (b.logical_buf ++ p)
        ≡ true
      → (process_payload convert raw marshal send lsn now b p).2 ≡ none
      → observed (process_payload convert raw marshal send lsn now b (p ++ q))
        ≡ observed (
            behind (process_payload convert raw marshal send lsn now b p).1 (
              process_payload convert raw marshal send lsn now
                (process_payload convert raw marshal send lsn now b p).0
                q))
  unfolding process_payload process_buffer
  process_payload-append b [] [] u e = refl
  process_payload-append b [] (d ∷ q) u e = refl
  process_payload-append b (c ∷ p) [] u e =
      ap (λ v. observed (process_payload convert raw marshal send lsn now b v)) (append-nil (c ∷ p))
      ∙ observed-stop (process_payload convert raw marshal send lsn now b (c ∷ p)) e
  process_payload-append b (c ∷ p) (d ∷ q) u e =
      let w = b.logical_buf ++ (c ∷ p) in
      ap (λ v. observed (process_buffer convert raw marshal send lsn now b.parser v))
        (sym (append_assoc b.logical_buf (c ∷ p) (d ∷ q)))
      ∙ process_buffer-append b.parser w (d ∷ q) u
      ∙ ap
          (λ r. observed (
            behind (Drained.events (buffered b.parser w)) (
              process_buffer convert raw marshal send lsn now (Drained.parser (buffered b.parser w))
                (r ++ (d ∷ q)))))
          (sym (kept_buffer-none w (buffered b.parser w) e))

  -- The law for payloads that come at one position and time.
  pub process_payloads-join :
      (b : Buffered) (ps : List Bytes)
      → are_clean b ps ≡ true
      → observed (process_payloads convert raw marshal send lsn now b ps)
        ≡ observed (process_payload convert raw marshal send lsn now b (join ps))
  unfolding process_payloads are_clean
  process_payloads-join b [] clean = unfold process_payload in refl
  process_payloads-join b (p ∷ []) clean =
      and_then-stop (process_payload convert raw marshal send lsn now b p)
      ∙ ap (λ v. observed (process_payload convert raw marshal send lsn now b v))
          (sym (append-nil p))
  process_payloads-join b (p ∷ q ∷ ps) clean =
      let (u, e, clean') = conditions clean in
      let x = process_payload convert raw marshal send lsn now b p in
      ap observed (
        and_then-none x (λ b'. process_payloads convert raw marshal send lsn now b' (q ∷ ps))
          (has_no_error-eq x.2 e))
      ∙ observed-behind x.1 _ _ (process_payloads-join x.0 (q ∷ ps) clean')
      ∙ sym (process_payload-append b p (join (q ∷ ps)) u (has_no_error-eq x.2 e))
