-- ===== src/Wal/Wholes.antt =====
-- Whole messages: parseSingleLogicalMessage of internal/connectors/postgresql/wal_parser.go gives the
-- same parser and events whatever bytes follow a message, with one exception: an UPDATE that ends
-- behind the marker of its new tuple.
use elasticrelay.Common.{
  ℕ, ◌≤◌, ◌≡◌, refl, inl, inr, Option, none, some, Bool, true, false, ◌&&◌, List, [], ◌∷◌, ◌++◌,
  arith, ◌==◌, if◌then◌else◌, Bytes, Dict, codes, length,
}
use elasticrelay.Gateway.{ChangeEvent}
use elasticrelay.Wal.Reader.{
  Reader, Result, ok, err, ParseError, other, pure, ◌>>=◌, IsStable, Result-cases, bind_inv,
  ok_injective, bind-IsStable, pure-IsStable,
}
use elasticrelay.Wal.Messages.{
  RowData, RelationInfo, set_relation, Relations, UpdateRows, parse_begin, parse_commit,
  parse_relation, parse_tuple_data, parse_insert, parse_delete, tuple_reader, update_head,
  update_tail, parse_update, parse_truncate, parse_origin_message, parse_type_message,
  parse_generic_message,
}
use elasticrelay.Wal.Stream.{WalParser, Parsed, with_rest, after, truncate_events, parse_message}
use elasticrelay.Wal.Stability.{
  parse_begin-IsStable, parse_commit-IsStable, parse_relation-IsStable, parse_tuple_data-IsStable,
  parse_insert-IsStable, parse_delete-IsStable, update_head-IsStable, parse_truncate-IsStable,
  parse_origin_message-IsStable, parse_type_message-IsStable, parse_generic_message-IsStable,
}

-- Where P holds, a function of a message's bytes gives the same parser and events whatever follows
-- them; what it leaves is never longer than they are.
unfoldable pub KeepsAt : Type 0 → (Bytes → Result Parsed) → Bytes → Type 0
KeepsAt P g s =
    (t : Bytes) (wp : WalParser) (events : List ChangeEvent) (r : Bytes)
    → g s ≡ ok (wp, events, r)
    → (P → g (s ++ t) ≡ ok (wp, events, r ++ t)) × (length r ≤ length s)

pub after_inv :
    {A : Type 0} (p : Reader A) (f : A → Result (WalParser × List ChangeEvent)) (s : Bytes)
    {x : Parsed}
    → after p f s ≡ ok x
    → (a : A) × (r : Bytes) × (p s ≡ ok (a, r)) × (with_rest r (f a) ≡ ok x)
after_inv p f s e = elim (Result-cases (p s)) [
  | inl (f', bad) ↦ absurd (cc (rw (bad, after) at e))
  | inr ((a, r), good) ↦ (a, r, good, rw (good, after) at e)
]

with_rest-ok :
    (r t : Bytes) (x : Result (WalParser × List ChangeEvent)) (wp : WalParser)
    (events : List ChangeEvent) (r' : Bytes)
    → with_rest r x ≡ ok (wp, events, r')
    → (with_rest (r ++ t) x ≡ ok (wp, events, r' ++ t)) × (r' ≡ r)
with_rest-ok r t (err f) wp events r' e = absurd (cc)
with_rest-ok r t (ok (wp0, events0)) wp events r' e = (ground arith, ground arith)

-- A reader with this behaviour.
abbrev pub ReadsAt : {A : Type 0} → Type 0 → Reader A → Bytes → Type 0
ReadsAt {A} P p s =
    (t : Bytes) (a : A) (r : Bytes)
    → p s ≡ ok (a, r)
    → (P → p (s ++ t) ≡ ok (a, r ++ t)) × (length r ≤ length s)

IsStable-ReadsAt : {A : Type 0} (P : Type 0) (p : Reader A) (s : Bytes) → IsStable p → ReadsAt P p s
IsStable-ReadsAt P p s stable t a r e = let (more, less) = stable s t a r e in (λ h. more, less)

after-KeepsAt :
    {A : Type 0} (P : Type 0) (p : Reader A) (f : A → Result (WalParser × List ChangeEvent))
    (s : Bytes)
    → ReadsAt P p s
    → KeepsAt P (after p f) s
unfolding KeepsAt
after-KeepsAt P p f s reads t wp events r e =
    let (a, r1, first, second) = after_inv p f s e in
    let (more, less) = reads t a r1 first in
    let (same, left) = with_rest-ok r1 t (f a) wp events r second in
    (λ h. rw (more h, after) same, rw left less)

stable-KeepsAt :
    {A : Type 0} (P : Type 0) (p : Reader A) (f : A → Result (WalParser × List ChangeEvent))
    (s : Bytes)
    → IsStable p
    → KeepsAt P (after p f) s
stable-KeepsAt P p f s stable = after-KeepsAt P p f s (IsStable-ReadsAt P p s stable)

err-KeepsAt : (P : Type 0) (f : ParseError) (s : Bytes) → KeepsAt P (λ x. err f) s
unfolding KeepsAt
err-KeepsAt P f s t wp events r e = absurd (cc)

if-KeepsAt :
    (P : Type 0) (b : Bool) (p q : Bytes → Result Parsed) (s : Bytes)
    → (b ≡ true → KeepsAt P p s)
    → (b ≡ false → KeepsAt P q s)
    → KeepsAt P (λ x. if b then p x else q x) s
if-KeepsAt P true p q s kp kq = kp refl
if-KeepsAt P false p q s kp kq = kq refl

tuple_reader-IsStable :
    (relations : Relations) (id : ℕ) (old : Option RowData)
    → IsStable (tuple_reader relations id old)
unfolding tuple_reader
tuple_reader-IsStable relations id old =
    bind-IsStable (parse_tuple_data relations id b'N') _
      (parse_tuple_data-IsStable relations id b'N') λ row. pure-IsStable (id, old, some row)

-- Whether the bytes of an UPDATE end behind the marker of its new tuple.
abbrev pub is_cut : Result (UpdateRows × Bytes) → Bool
is_cut (err e) = false
is_cut (ok ((id, old, some row), r)) = false
is_cut (ok ((id, old, none), [])) = true
is_cut (ok ((id, old, none), c ∷ r)) = false

-- The case that the parser does not tell from a whole message.
unfoldable pub cut_update : WalParser → ℕ → Bytes → Bool
cut_update wp kind s = (kind == b'U') && is_cut (update_head (WalParser.relations wp) s)

update_tail-ReadsAt :
    (relations : Relations) (rows : UpdateRows) (s : Bytes)
    → ReadsAt (is_cut (ok (rows, s)) ≡ false) (update_tail relations rows) s
unfolding update_tail
update_tail-ReadsAt relations (id, old, some row) s t a r e =
    IsStable-ReadsAt _ (pure (id, old, some row)) s (pure-IsStable (id, old, some row)) t a r e
update_tail-ReadsAt relations (id, old, none) [] t a r e =
    (λ h. absurd (cc), ground (arith, ok_injective e))
update_tail-ReadsAt relations (id, old, none) (c ∷ s) t a r e =
    IsStable-ReadsAt _ (tuple_reader relations id old) (c ∷ s)
      (tuple_reader-IsStable relations id old) t a r e

parse_update-ReadsAt :
    (relations : Relations) (s : Bytes)
    → ReadsAt (is_cut (update_head relations s) ≡ false) (parse_update relations) s
unfolding parse_update
parse_update-ReadsAt relations s t a r e =
    let (rows, r1, first, second) = bind_inv (update_head relations) (update_tail relations) s e in
    let (more, less) = update_head-IsStable relations s t rows r1 first in
    let (more', less') = update_tail-ReadsAt relations rows r1 t a r second in
    (λ whole. rw (more, ◌>>=◌) (more' (rw first at whole)), omega arith)

module _ {Json : Type 0} (convert : Option Bytes → ℕ → Option Json) (raw : Option Bytes → Json)
    (marshal : Dict Json → Option Bytes) (send : ChangeEvent → Option Bytes) (lsn : Bytes) (now : ℕ)
    (wp : WalParser) where
  pub parse_message-KeepsAt :
      (kind : ℕ) (s : Bytes)
      → KeepsAt
          (cut_update wp kind s ≡ false)
          (parse_message convert raw marshal send lsn now wp kind)
          s
  unfolding parse_message cut_update
  parse_message-KeepsAt kind s =
      if-KeepsAt _ (kind == b'B') _ _ s
        (λ h.
          stable-KeepsAt _ parse_begin (λ txn. ok (record wp { current_txn = some txn }, [])) s
            parse_begin-IsStable)
        λ h.
          if-KeepsAt _ (kind == b'C') _ _ s
            (λ h.
              stable-KeepsAt _ parse_commit (λ done. ok (record wp { current_txn = none }, [])) s
                parse_commit-IsStable)
            λ h.
              if-KeepsAt _ (kind == b'R') _ _ s
                (λ h.
                  stable-KeepsAt _ parse_relation
                    (λ rel. ok (
                      record wp {
                        relations = set_relation (RelationInfo.relation_id rel) rel wp.relations;
                      },
                      [],
                    ))
                    s parse_relation-IsStable)
                λ h.
                  if-KeepsAt _ (kind == b'I') _ _ s
                    (λ h.
                      stable-KeepsAt _ (parse_insert wp.relations) _ s
                        (parse_insert-IsStable wp.relations))
                    λ h.
                      if-KeepsAt _ (kind == b'U') _ _ s
                        (λ h.
                          after-KeepsAt _ (parse_update wp.relations) _ s
                            (rw h (parse_update-ReadsAt wp.relations s)))
                        λ h.
                          if-KeepsAt _ (kind == b'D') _ _ s
                            (λ h.
                              stable-KeepsAt _ (parse_delete wp.relations) _ s
                                (parse_delete-IsStable wp.relations))
                            λ h.
                              if-KeepsAt _ (kind == b'T') _ _ s
                                (λ h.
                                  stable-KeepsAt _ parse_truncate
                                    (λ ids.
                                      ok (wp, truncate_events convert raw marshal send now wp ids))
                                    s parse_truncate-IsStable)
                                λ h.
                                  if-KeepsAt _ (kind == b'Y') _ _ s
                                    (λ h.
                                      stable-KeepsAt _ parse_type_message (λ done. ok (wp, [])) s
                                        parse_type_message-IsStable)
                                    λ h.
                                      if-KeepsAt _ (kind == b'O') _ _ s
                                        (λ h.
                                          stable-KeepsAt _ parse_origin_message
                                            (λ done. ok (wp, [])) s parse_origin_message-IsStable)
                                        λ h.
                                          if-KeepsAt _ (kind == b'M') _ _ s
                                            (λ h.
                                              stable-KeepsAt _ parse_generic_message
                                                (λ done. ok (wp, [])) s
                                                parse_generic_message-IsStable)
                                            (λ h.
                                              err-KeepsAt _
                                                (other
                                                  (codes "unsupported logical replication message"))
                                                s)
