-- ===== src/Wal/Chunks.antt =====
-- How the stream of messages is cut into payloads: processBufferedLogicalMessages of
-- internal/connectors/postgresql/wal_parser.go keeps what is left of a message until the rest of it
-- comes.
use elasticrelay.Common.{
  ℕ, zero, suc, ◌+◌, ◌≤◌, ◌≡◌, refl, sym, ap, ◌∙◌, inl, inr, Option, none, some, Bool, true, false,
  ◌&&◌, not, List, [], ◌∷◌, ◌++◌, append_assoc, arith, if◌then◌else◌, Bytes, Dict, length,
  length-append,
}
use elasticrelay.Gateway.{ChangeEvent}
use elasticrelay.Wal.Reader.{ok, err, ParseError, Result-cases}
use elasticrelay.Wal.Stream.{WalParser, Drained, add_events, parse_message, drain, is_incomplete}
use elasticrelay.Wal.Wholes.{KeepsAt, cut_update, parse_message-KeepsAt}

ahead : (b : Bool) {c : Bool} → (not b && c) ≡ true → (b ≡ false) × (c ≡ true)
ahead true e = absurd (cc)
ahead false e = (refl, e)

module _ {Json : Type 0} (convert : Option Bytes → ℕ → Option Json) (raw : Option Bytes → Json)
    (marshal : Dict Json → Option Bytes) (send : ChangeEvent → Option Bytes) (lsn : Bytes)
    (now : ℕ) where
  -- No message of the run ends behind the marker of a new tuple.
  unfoldable pub uncut : ℕ → WalParser → Bytes → Bool
  uncut fuel wp [] = true
  uncut zero wp (c ∷ s) = true
  uncut (suc fuel) wp (c ∷ s) = elim (parse_message convert raw marshal send lsn now wp c s) [
    | err e ↦ true
    | ok (wp', events, r) ↦ not (cut_update wp c s) && uncut fuel wp' r
  ]

  abbrev pub run : ℕ → WalParser → Bytes → Drained
  run fuel wp s = drain convert raw marshal send lsn now fuel wp s

  -- A run up to an error goes on with what follows.
  abbrev resumed : ℕ → Bytes → Drained → Drained
  resumed fuel t d = add_events d.events (run fuel d.parser (d.rest ++ t))

  pub run-ok :
      (fuel : ℕ) (wp : WalParser) (c : ℕ) (s : Bytes) {wp' : WalParser} {events : List ChangeEvent}
      {r : Bytes}
      → parse_message convert raw marshal send lsn now wp c s ≡ ok (wp', events, r)
      → run (suc fuel) wp (c ∷ s) ≡ add_events events (run fuel wp' r)
  unfolding drain
  run-ok fuel wp c s e = rw (e, drain)

  pub run-err :
      (fuel : ℕ) (wp : WalParser) (c : ℕ) (s : Bytes) {e : ParseError}
      → parse_message convert raw marshal send lsn now wp c s ≡ err e
      → run (suc fuel) wp (c ∷ s) ≡ record {
        parser = wp;
        events = [];
        rest = c ∷ s;
        error = if is_incomplete e then none else some e;
      }
  unfolding drain
  run-err fuel wp c s e = rw (e, drain)

  uncut-ok :
      (fuel : ℕ) (wp : WalParser) (c : ℕ) (s : Bytes) {wp' : WalParser} {events : List ChangeEvent}
      {r : Bytes}
      → parse_message convert raw marshal send lsn now wp c s ≡ ok (wp', events, r)
      → uncut (suc fuel) wp (c ∷ s) ≡ (not (cut_update wp c s) && uncut fuel wp' r)
  unfolding uncut
  uncut-ok fuel wp c s e = rw (e, uncut)

  shrinks :
      (wp : WalParser) (c : ℕ) (s : Bytes) {wp' : WalParser} {events : List ChangeEvent} {r : Bytes}
      → parse_message convert raw marshal send lsn now wp c s ≡ ok (wp', events, r)
      → length r ≤ length s
  unfolding KeepsAt
  shrinks wp c s {wp'} {events} {r} e =
      (parse_message-KeepsAt convert raw marshal send lsn now wp c s [] wp' events r e).1

  -- What a run leaves is no longer than what it was given.
  pub rest_shrinks :
      (fuel : ℕ) (wp : WalParser) (s : Bytes) → length (Drained.rest (run fuel wp s)) ≤ length s
  unfolding drain
  rest_shrinks fuel wp [] = omega arith
  rest_shrinks zero wp (c ∷ s) = omega arith
  rest_shrinks (suc fuel) wp (c ∷ s) =
      elim (Result-cases (parse_message convert raw marshal send lsn now wp c s)) [
        | inl (e, bad) ↦ rw (run-err fuel wp c s bad) (omega arith)
        | inr ((wp', events, r), good) ↦
            rw (run-ok fuel wp c s good)
              (omega (arith, rest_shrinks fuel wp' r, shrinks wp c s good))
      ]

  -- Fuel for each byte is enough: more of it changes nothing.
  pub drain-enough_fuel :
      (f g : ℕ) (wp : WalParser) (s : Bytes) → length s ≤ f → length s ≤ g → run f wp s ≡ run g wp s
  unfolding drain
  drain-enough_fuel f g wp [] hf hg = refl
  drain-enough_fuel zero g wp (c ∷ s) hf hg = absurd (omega arith)
  drain-enough_fuel (suc f) zero wp (c ∷ s) hf hg = absurd (omega arith)
  drain-enough_fuel (suc f) (suc g) wp (c ∷ s) hf hg =
      elim (Result-cases (parse_message convert raw marshal send lsn now wp c s)) [
        | inl (e, bad) ↦ run-err f wp c s bad ∙ sym (run-err g wp c s bad)
        | inr ((wp', events, r), good) ↦
            run-ok f wp c s good
            ∙ ap (add_events events) (
                drain-enough_fuel f g wp' r (omega (arith, shrinks wp c s good))
                  (omega (arith, shrinks wp c s good)))
            ∙ sym (run-ok g wp c s good)
      ]

  add-resumed :
      (g : ℕ) (t : Bytes) (events : List ChangeEvent) (d : Drained)
      → length d.rest + length t ≤ g
      → add_events events (resumed g t d) ≡ resumed (suc g) t (add_events events d)
  add-resumed g t events d h =
      rw
        (drain-enough_fuel g (suc g) d.parser (d.rest ++ t) (omega (arith, length-append d.rest t))
          (omega (arith, length-append d.rest t)))
        (rw append_assoc)

  message-append :
      (wp : WalParser) (c : ℕ) (s t : Bytes) {wp' : WalParser} {events : List ChangeEvent}
      {r : Bytes}
      → parse_message convert raw marshal send lsn now wp c s ≡ ok (wp', events, r)
      → cut_update wp c s ≡ false
      → parse_message convert raw marshal send lsn now wp c (s ++ t) ≡ ok (wp', events, r ++ t)
  unfolding KeepsAt
  message-append wp c s t {wp'} {events} {r} e whole =
      (parse_message-KeepsAt convert raw marshal send lsn now wp c s t wp' events r e).0 whole

  -- A run over more bytes is the run over the first of them, and then a run over what it leaves and the
  -- others.
  pub drain-append :
      (f g : ℕ) (wp : WalParser) (s t : Bytes)
      → length s ≤ f
      → length s + length t ≤ g
      → uncut f wp s ≡ true
      → run g wp (s ++ t) ≡ resumed g t (run f wp s)
  unfolding drain
  drain-append f g wp [] t hf hg u = refl
  drain-append zero g wp (c ∷ s) t hf hg u = absurd (omega arith)
  drain-append (suc f) zero wp (c ∷ s) t hf hg u = absurd (omega arith)
  drain-append (suc f) (suc g) wp (c ∷ s) t hf hg u =
      elim (Result-cases (parse_message convert raw marshal send lsn now wp c s)) [
        | inl (e, bad) ↦ rw (run-err f wp c s bad) refl
        | inr ((wp', events, r), good) ↦
            let (whole, u') = ahead (cut_update wp c s) (sym (uncut-ok f wp c s good) ∙ u) in
            let less = shrinks wp c s good in
            run-ok g wp c (s ++ t) (message-append wp c s t good whole)
            ∙ ap (add_events events) (drain-append f g wp' r t (omega arith) (omega arith) u')
            ∙ add-resumed g t events (run f wp' r) (omega (arith, rest_shrinks f wp' r))
            ∙ ap (resumed (suc g) t) (sym (run-ok f wp c s good))
      ]
