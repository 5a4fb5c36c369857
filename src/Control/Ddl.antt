-- ===== src/Control/Ddl.antt =====
-- hat/control.py: `_canonical_ddl`, the form in which the controller compares the statements of its journal's schema.
-- A statement is a list of ASCII code points.
pub mod Total
mod Examples
use highly_available_trailba.Prelude.{
  ℕ, zero, suc, ◌+◌, Bool, true, false, ◌&&◌, ◌||◌, List, [], ◌∷◌, ◌++◌, map, length, Option, none,
  some, ◌==◌, nat_eq, leb, Result, ok, raise, Exc, value_error, if◌then◌else◌,
}
use highly_available_trailba.Py.Text.{is_digit}
use highly_available_trailba.Control.Serving.{is_letter}

-- `str.isspace`
unfoldable pub is_blank : ℕ → Bool
is_blank c = leb 9 c && leb c 13 || leb 28 c && leb c 32

unfoldable pub is_letter_or_digit : ℕ → Bool
unfolding is_letter is_digit
is_letter_or_digit c = is_letter c || is_digit c

-- `str.lower_case`
unfoldable pub lower_case : ℕ → ℕ
lower_case c = if leb b'A' c && leb c b'Z' then c + 32 else c

unfoldable pub starts_with : ℕ → List ℕ → Bool
starts_with a [] = false
starts_with a (c ∷ cs) = c == a

unfoldable pub rest_of : List ℕ → List ℕ
rest_of [] = []
rest_of (c ∷ cs) = cs

-- what stands from the second of two characters on, where the two first follow each other
unfoldable pub from_second : ℕ → ℕ → List ℕ → Option (List ℕ)
from_second a b [] = none
from_second a b (c ∷ []) = none
from_second a b (c ∷ d ∷ cs) =
    let later = from_second a b (d ∷ cs) in if c == a && d == b then some (d ∷ cs) else later

-- `value.find('\\n', ...)`: the program looks for a backslash and the letter n
unfoldable pub after_comment : List ℕ → List ℕ
unfolding from_second
after_comment cs = elim (from_second b'\\' b'n' cs) [ none ↦ [] | some rest ↦ rest ]

abbrev pub malformed_ddl : Exc
malformed_ddl = value_error "malformed journal DDL"

unfoldable pub after_block : List ℕ → Result (List ℕ × List ℕ)
unfolding from_second rest_of
after_block cs = elim (from_second b'*' b'/' cs) [
  | none ↦ raise malformed_ddl
  | some rest ↦ ok ([], rest_of rest)
]

-- a literal after its first quote, and what follows it; two quotes stand for one
unfoldable pub literal : List ℕ → List ℕ × List ℕ
literal [] = ([], [])
literal (c ∷ []) = (c ∷ [], [])
literal (c ∷ d ∷ cs) =
    let paired = literal cs in
    let later = literal (d ∷ cs) in
    if c == b'\''
    then if d == b'\'' then (c ∷ d ∷ paired.0, paired.1) else (c ∷ [], d ∷ cs)
    else (c ∷ later.0, later.1)

-- the last character is a quote
unfoldable pub ends_quoted : List ℕ → Bool
ends_quoted [] = false
ends_quoted (c ∷ []) = c == b'\''
ends_quoted (c ∷ d ∷ cs) = ends_quoted (d ∷ cs)

unfoldable pub take_literal : List ℕ → Result (List ℕ × List ℕ)
unfolding literal ends_quoted
take_literal cs =
    let p = literal cs in
    if ends_quoted (b'\'' ∷ p.0) then ok (b'\'' ∷ p.0, p.1) else raise malformed_ddl

-- what stands before a character, and what after it
unfoldable pub until : ℕ → List ℕ → Option (List ℕ × List ℕ)
until k [] = none
until k (c ∷ cs) = elim (c == k) [
  | true ↦ some ([], cs)
  | false ↦ elim (until k cs) [ none ↦ none | some p ↦ some (c ∷ p.0, p.1) ]
]

-- `']' if ch=='[' else ch`
unfoldable pub closing : ℕ → ℕ
closing c = if c == b'[' then b']' else c

unfoldable pub take_identifier : ℕ → List ℕ → Result (List ℕ × List ℕ)
unfolding until closing lower_case
take_identifier c cs = elim (until (closing c) cs) [
  | none ↦ raise malformed_ddl
  | some p ↦ ok (map lower_case p.0, p.1)
]

unfoldable pub word : List ℕ → List ℕ × List ℕ
unfolding is_letter_or_digit
word [] = ([], [])
word (c ∷ cs) =
    let later = word cs in
    if is_letter_or_digit c || c == b'_' || c == b'$' then (c ∷ later.0, later.1) else ([], c ∷ cs)

-- one turn of the loop at a character: what it writes, and what it leaves
unfoldable pub turn : ℕ → List ℕ → Result (List ℕ × List ℕ)
unfolding is_blank starts_with rest_of after_comment after_block take_literal take_identifier
    is_letter_or_digit word lower_case
turn c cs =
    if is_blank c
    then ok ([], cs)
    else if c == b'-' && starts_with b'-' cs
    then ok ([], after_comment (rest_of cs))
    else if c == b'/' && starts_with b'*' cs
    then after_block (rest_of cs)
    else if c == b'\''
    then take_literal cs
    else if c == b'"' || c == b'`' || c == b'['
    then take_identifier c cs
    else if is_letter_or_digit c || c == b'_'
    then ok (map lower_case (c ∷ (word cs).0), (word cs).1)
    else ok (c ∷ [], cs)

-- the loop; `none` is out of fuel
unfoldable pub turns : ℕ → List ℕ → Option (Result (List ℕ))
unfolding turn
turns fuel [] = some (ok [])
turns zero (c ∷ cs) = none
turns (suc fuel) (c ∷ cs) = elim (turn c cs) [
  | raise e ↦ some (raise e)
  | ok p ↦ elim (turns fuel p.1) [
    | none ↦ none
    | some (raise e) ↦ some (raise e)
    | some (ok out) ↦ some (ok (p.0 ++ out))
  ]
]

-- `_canonical_ddl` of a text; that many turns are enough
unfoldable pub canonical_ddl : List ℕ → Result (List ℕ)
unfolding turns
canonical_ddl cs = elim (turns (length cs) cs) [ none ↦ raise malformed_ddl | some r ↦ r ]
