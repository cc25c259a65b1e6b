-- ===== src/Common/Split.antt =====
-- strings.Split and strings.Join of Go, for a separator of one byte.
use elasticrelay.Common.{
  ℕ, ◌≡◌, refl, List, [], ◌∷◌, ◌++◌, arith, ◌==◌, if◌then◌else◌, Bytes, Lacks,
}

abbrev pub prepend : ℕ → List Bytes → List Bytes
prepend c [] = (c ∷ []) ∷ []
prepend c (p ∷ parts) = (c ∷ p) ∷ parts

unfoldable pub split : ℕ → Bytes → List Bytes
split sep [] = [] ∷ []
split sep (c ∷ s) = let rest = split sep s in if c == sep then [] ∷ rest else prepend c rest

pub split_lacking : (sep : ℕ) (s : Bytes) → Lacks sep s → split sep s ≡ s ∷ []
unfolding split
split_lacking sep [] h = refl
split_lacking sep (c ∷ s) h = ground (arith, split_lacking sep s h.1, h.0)

pub split_at_sep :
    (sep : ℕ) (a s : Bytes) → Lacks sep a → split sep (a ++ (sep ∷ s)) ≡ a ∷ split sep s
unfolding split
split_at_sep sep [] s h = ground arith
split_at_sep sep (c ∷ a) s h = ground (arith, split_at_sep sep a s h.1, h.0)
