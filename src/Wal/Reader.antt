-- ===== src/Wal/Reader.antt =====
-- Readers of bytes: what the parsers of internal/connectors/postgresql/wal_parser.go do with `data`
-- and `offset`. A reader takes the bytes from the offset on and returns what it leaves of them.
use elasticrelay.Common.{
  ℕ, zero, suc, ◌+◌, ◌*◌, ◌≤◌, ◌≡◌, refl, ap, ◌⊎◌, inl, inr, [], ◌∷◌, ◌++◌, arith, leb, ◌==◌,
  if◌then◌else◌, Bool-cases, Bytes, length, length-append,
}

-- The errors of the parsers. `short` stands for those whose message has the words "too short", "not
-- null-terminated" or "missing new tuple marker".
pub data ParseError : Type 0 where
  short : ParseError
  other : Bytes → ParseError

pub data Result {ℓ} (A : Type ℓ) : Type ℓ where
  ok : A → Result A
  err : ParseError → Result A

abbrev pub Reader : Type 0 → Type 0
Reader A = Bytes → Result (A × Bytes)

abbrev pub pure : {A : Type 0} → A → Reader A
pure a s = ok (a, s)

abbrev pub fail : {A : Type 0} → ParseError → Reader A
fail e s = err e

infixl 5 ◌>>=◌ ◌>>◌
abbrev pub ◌>>=◌ : {A B : Type 0} → Reader A → (A → Reader B) → Reader B
◌>>=◌ p f s = elim (p s) [ err e ↦ err e | ok (a, r) ↦ f a r ]

abbrev pub ◌>>◌ : {B : Type 0} → Reader (Unit {0}) → Reader B → Reader B
p >> q = p >>= λ _. q

-- The test that n bytes are left.
unfoldable pub need : ℕ → Reader (Unit {0})
need n s = if leb n (length s) then ok (tt, s) else err short

unfoldable pub byte : Reader ℕ
byte [] = err short
byte (c ∷ s) = ok (c, s)

-- n bytes in big-endian order, behind the number v.
unfoldable pub big_endian : ℕ → ℕ → Reader ℕ
big_endian zero v s = ok (v, s)
big_endian (suc n) v [] = err short
big_endian (suc n) v (c ∷ s) = big_endian n (v * 256 + c) s

-- n bytes as they are.
unfoldable pub bytes : ℕ → Reader Bytes
unfolding byte
bytes zero = pure []
bytes (suc n) = do c ← byte; t ← bytes n; pure (c ∷ t)

-- parseCString
unfoldable pub cstring : Reader Bytes
cstring [] = err short
cstring (c ∷ s) =
    let rest = cstring s in
    if c == 0 then ok ([], s) else elim rest [ err e ↦ err e | ok (t, r) ↦ ok (c ∷ t, r) ]

-- A reader whose success does not depend on what follows the bytes it reads, and which returns what
-- it leaves of them.
abbrev pub IsStable : {A : Type 0} → Reader A → Type 0
IsStable {A} p =
    (s t : Bytes) (a : A) (r : Bytes)
    → p s ≡ ok (a, r)
    → (p (s ++ t) ≡ ok (a, r ++ t)) × (length r ≤ length s)

pub Result-cases :
    {A : Type 0} (x : Result A) → ((e : ParseError) × (x ≡ err e)) ⊎ ((a : A) × (x ≡ ok a))
Result-cases (err e) = inl (e, refl)
Result-cases (ok a) = inr (a, refl)

pub ok_injective : {A : Type 0} {a b : A} → ok a ≡ ok b → a ≡ b
ok_injective {a = a} e = ap (λ x. elim x [ ok b ↦ b | err f ↦ a ]) e

pub bind_inv :
    {A B : Type 0} (p : Reader A) (f : A → Reader B) (s : Bytes) {b : B × Bytes}
    → (p >>= f) s ≡ ok b
    → (a : A) × (r : Bytes) × (p s ≡ ok (a, r)) × (f a r ≡ ok b)
bind_inv p f s e = elim (Result-cases (p s)) [
  | inl (f', bad) ↦ absurd (cc (rw (bad, ◌>>=◌) at e))
  | inr ((a, r), good) ↦ (a, r, good, rw (good, ◌>>=◌) at e)
]

pub bind-ok :
    {A B : Type 0} (p : Reader A) (f : A → Reader B) (s : Bytes) {a : A} {r : Bytes}
    → p s ≡ ok (a, r)
    → (p >>= f) s ≡ f a r
bind-ok p f s e = rw (e, ◌>>=◌)

pub bind-IsStable :
    {A B : Type 0} (p : Reader A) (f : A → Reader B)
    → IsStable p
    → ((a : A) → IsStable (f a))
    → IsStable (p >>= f)
bind-IsStable p f sp sf s t b r e =
    let (a, r1, first, second) = bind_inv p f s e in
    let (more, less) = sp s t a r1 first in
    let (more', less') = sf a r1 t b r second in (rw (more, ◌>>=◌) more', omega arith)

pub pure-IsStable : {A : Type 0} (a : A) → IsStable (pure a)
pure-IsStable a s t b r e = ground (arith, ok_injective e)

pub fail-IsStable : {A : Type 0} (e : ParseError) → IsStable (fail {A = A} e)
fail-IsStable e s t a r h = absurd (cc)

pub need-IsStable : (n : ℕ) → IsStable (need n)
unfolding need
need-IsStable n s t a r e = ground (arith, e, length-append s t)

pub byte-IsStable : IsStable byte
unfolding byte
byte-IsStable [] t a r e = absurd (cc)
byte-IsStable (c ∷ s) t a r e = ground (arith, ok_injective e)

pub big_endian-IsStable : (n v : ℕ) → IsStable (big_endian n v)
unfolding big_endian
big_endian-IsStable zero v s t a r e = ground (arith, ok_injective e)
big_endian-IsStable (suc n) v [] t a r e = absurd (cc)
big_endian-IsStable (suc n) v (c ∷ s) t a r e =
    ground (arith, big_endian-IsStable n (v * 256 + c) s t a r e)

pub bytes-IsStable : (n : ℕ) → IsStable (bytes n)
unfolding bytes
bytes-IsStable zero = pure-IsStable []
bytes-IsStable (suc n) =
    bind-IsStable byte _ byte-IsStable
      λ c. bind-IsStable (bytes n) _ (bytes-IsStable n) λ t. pure-IsStable (c ∷ t)

pub cstring-IsStable : IsStable cstring
unfolding cstring
cstring-IsStable [] t a r e = absurd (cc)
cstring-IsStable (c ∷ s) t a r e = elim (Bool-cases (c == 0)) [
  | inl zero_byte ↦ ground (arith, ok_injective (rw zero_byte at e), zero_byte)
  | inr more_bytes ↦
      let e1 = rw more_bytes at e in
      elim (Result-cases (cstring s)) [
        | inl (f, bad) ↦ absurd (cc (rw bad at e1))
        | inr ((u, r'), good) ↦
            let e' = ok_injective (rw good at e1) in
            let (more, less) = cstring-IsStable s t u r' good in
            (rw (more_bytes, more) (ap ok (ground (arith, e'))), ground (arith, e', less))
      ]
]
