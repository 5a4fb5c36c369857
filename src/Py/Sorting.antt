-- ===== src/Py/Sorting.antt =====
-- `sorted` of texts, which Python orders by their code points.
use highly_available_trailba.Prelude.{
  ℕ, ◌≡◌, refl, ◌∙◌, ap, Bool, true, false, ◌&&◌, ◌||◌, String, List, [], ◌∷◌, ◌==◌, nat_eq,
  string_eq, contains, ltb, if◌then◌else◌, arith, Bool-cases, inl, inr,
}
use highly_available_trailba.Py.Text.{codes}

-- `a <= b`, of code points
unfoldable pub codes_le : List ℕ → List ℕ → Bool
codes_le [] bs = true
codes_le (a ∷ as') [] = false
codes_le (a ∷ as') (b ∷ bs) = ltb a b || a == b && codes_le as' bs

unfoldable pub text_le : String → String → Bool
unfolding codes_le
text_le s t = codes_le (codes s) (codes t)

unfoldable pub insert : String → List String → List String
unfolding text_le
insert s [] = s ∷ []
insert s (t ∷ ts) = let rest = insert s ts in if text_le s t then s ∷ t ∷ ts else t ∷ rest

unfoldable pub sorted : List String → List String
unfolding insert
sorted [] = []
sorted (s ∷ ss) = insert s (sorted ss)

-- `len(set(l)) == len(l)`
unfoldable pub is_distinct : List String → Bool
unfolding contains
is_distinct [] = true
is_distinct (s ∷ ss) = elim (contains ss s) [ true ↦ false | false ↦ is_distinct ss ]

-- `set(l)`, as a list
unfoldable pub distinct : List String → List String
unfolding contains
distinct [] = []
distinct (s ∷ ss) = let rest = distinct ss in if contains ss s then rest else s ∷ rest

contains-insert :
    (s : String) (ts : List String) (u : String)
    → contains (insert s ts) u ≡ (s == u || contains ts u)
unfolding contains insert
contains-insert s [] u = refl
contains-insert s (t ∷ ts) u = elim (Bool-cases (text_le s t)) [
  | inl a ↦ rw (a) refl
  | inr b ↦ rw (b, contains-insert s ts u) (swapped (t == u) (s == u) (contains ts u))
]
  where
    swapped : (a b c : Bool) → (a || (b || c)) ≡ (b || (a || c))
    swapped a b c = ground arith

-- Sorting keeps what a list holds.
pub contains-sorted : (ss : List String) (u : String) → contains (sorted ss) u ≡ contains ss u
unfolding contains sorted
contains-sorted [] u = refl
contains-sorted (s ∷ ss) u =
    contains-insert s (sorted ss) u ∙ ap (λ b. s == u || b) (contains-sorted ss u)
