-- ===== src/Control/Phases/Marks.antt =====
-- How the rows of a transition grow: an intent and a completion for each phase, in order.
use highly_available_trailba.Prelude.{
  ℕ, zero, suc, ◌+◌, ◌<◌, ◌≡◌, refl, ap, ◌∙◌, sym, String, List, [], ◌∷◌, ◌++◌, append_assoc, some,
  length, take, drop, get_elem?, arith,
}
use highly_available_trailba.Control.Phases.{
  intent, done, Mark, expected, expected_from, boundary_marks,
}

-- `i + n`, counted on the first: the index of the n-th phase
abbrev shift : ℕ → ℕ → ℕ
shift i zero = i
shift i (suc n) = shift (suc i) n

shift-zero : (n : ℕ) (i : ℕ) → shift i n ≡ i + n
shift-zero zero i = omega arith
shift-zero (suc n) i = omega (arith, shift-zero n (suc i))

expected_from-take-suc :
    (i n : ℕ) (plan : List String) (p : String)
    → get_elem? plan n ≡ some p
    → expected_from i (take (suc n) plan)
      ≡ expected_from i (take n plan) ++ ((shift i n, (p, intent)) ∷ (shift i n, (p, done)) ∷ [])
expected_from-take-suc i n [] p h = cc
expected_from-take-suc i zero (q ∷ plan) p h = ground arith
expected_from-take-suc i (suc n) (q ∷ plan) p h =
    ap (λ (l : List Mark). (i, (q, intent)) ∷ (i, (q, done)) ∷ l)
      (expected_from-take-suc (suc i) n plan p h)

-- One more phase is one more intent and one more completion.
pub expected-take-suc :
    (n : ℕ) (plan : List String) (p : String)
    → get_elem? plan n ≡ some p
    → expected (take (suc n) plan)
      ≡ expected (take n plan) ++ ((n, (p, intent)) ∷ (n, (p, done)) ∷ [])
expected-take-suc n plan p h =
    let e : shift 0 n ≡ n = shift-zero n 0 ∙ omega arith in
    rw e at (expected_from-take-suc 0 n plan p h)

pub boundary_marks-intent :
    (n : ℕ) (plan : List String) (p : String)
    → get_elem? plan n ≡ some p
    → boundary_marks n plan ≡ expected (take n plan) ++ ((n, (p, intent)) ∷ [])
unfolding boundary_marks
boundary_marks-intent n plan p h = rw (boundary_marks, h) refl

-- The boundary of a phase, once it is done, is the run up to the next phase.
pub boundary_marks-done :
    (n : ℕ) (plan : List String) (p : String)
    → get_elem? plan n ≡ some p
    → boundary_marks n plan ++ ((n, (p, done)) ∷ []) ≡ expected (take (suc n) plan)
boundary_marks-done n plan p h =
    rw (boundary_marks-intent n plan p h, expected-take-suc n plan p h)
      (append_assoc (expected (take n plan)) _ _)

take_all : (plan : List String) → take (length plan) plan ≡ plan
take_all [] = refl
take_all (p ∷ plan) = ap (λ l. p ∷ l) (take_all plan)

pub expected-take_all :
    (n : ℕ) (plan : List String) → n ≡ length plan → expected (take n plan) ≡ expected plan
expected-take_all n plan e = rw e (ap expected (take_all plan))

pub get_elem?-lt :
    (n : ℕ) (plan : List String) {p : String} → get_elem? plan n ≡ some p → n < length plan
get_elem?-lt n [] h = cc
get_elem?-lt zero (q ∷ plan) h = omega arith
get_elem?-lt (suc n) (q ∷ plan) h = omega (arith, get_elem?-lt n plan h)

expected_from-split :
    (i n : ℕ) (plan : List String)
    → expected_from i (take n plan) ++ expected_from (shift i n) (drop n plan)
      ≡ expected_from i plan
expected_from-split i zero plan = refl
expected_from-split i (suc n) [] = refl
expected_from-split i (suc n) (p ∷ plan) =
    ap (λ (l : List Mark). (i, (p, intent)) ∷ (i, (p, done)) ∷ l)
      (expected_from-split (suc i) n plan)

-- A run of whole phases is a prefix of the plan's rows.
pub expected-take_prefix :
    (n : ℕ) (plan : List String)
    → (rest : List Mark) × (expected (take n plan) ++ rest ≡ expected plan)
expected-take_prefix n plan =
    (expected_from (shift 0 n) (drop n plan), expected_from-split 0 n plan)

-- The boundary of a phase is a prefix of the plan's rows.
pub boundary_marks-prefix :
    (n : ℕ) (plan : List String) (p : String)
    → get_elem? plan n ≡ some p
    → (rest : List Mark) × (boundary_marks n plan ++ rest ≡ expected plan)
boundary_marks-prefix n plan p h =
    let (rest, e) = expected-take_prefix (suc n) plan in
    (
      (n, (p, done)) ∷ rest,
      sym (append_assoc (boundary_marks n plan) ((n, (p, done)) ∷ []) rest)
          ∙ ap (λ (l : List Mark). l ++ rest) (boundary_marks-done n plan p h)
          ∙ e,
    )
