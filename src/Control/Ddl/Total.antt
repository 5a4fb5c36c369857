-- ===== src/Control/Ddl/Total.antt =====
-- The loop of `_canonical_ddl` ends.
use highly_available_trailba.Prelude.{
  ℕ, zero, suc, ◌≤◌, ◌≡◌, refl, ◌∙◌, sym, ap, subst, Bool, true, false, ◌&&◌, ◌||◌, List, [], ◌∷◌,
  ◌++◌, map, length, Option, none, some, ◌==◌, nat_eq, Result, ok, raise, ok-injective,
  if◌then◌else◌, arith,
}
use highly_available_trailba.Control.Ddl.{
  is_blank, is_letter_or_digit, lower_case, starts_with, rest_of, from_second, after_comment,
  malformed_ddl, after_block, literal, ends_quoted, take_literal, until, closing, take_identifier,
  word, turn, turns, canonical_ddl,
}

rest_of-le : (cs : List ℕ) → length (rest_of cs) ≤ length cs
unfolding rest_of
rest_of-le [] = omega arith
rest_of-le (c ∷ cs) = omega arith

from_second-le :
    (a b : ℕ) (cs : List ℕ) {rest : List ℕ}
    → from_second a b cs ≡ some rest
    → length rest ≤ length cs
unfolding from_second
from_second-le a b [] h = cc
from_second-le a b (c ∷ []) h = cc
from_second-le a b (c ∷ d ∷ cs) {rest} h =
    go (c == a && d == b) (λ e. from_second-le a b (d ∷ cs) e) h
  where
    go :
        (t : Bool)
        → (from_second a b (d ∷ cs) ≡ some rest → length rest ≤ suc (length cs))
        → (if t then some (d ∷ cs) else from_second a b (d ∷ cs)) ≡ some rest
        → length rest ≤ suc (suc (length cs))
    go true f h = subst (λ r. length r ≤ suc (suc (length cs))) (some_lem h) (omega arith)
      where
        some_lem : {x y : List ℕ} → some x ≡ some y → x ≡ y
        some_lem e = cc
    go false f h = let l = f h in omega arith

after_comment-le : (cs : List ℕ) → length (after_comment cs) ≤ length cs
unfolding after_comment
after_comment-le cs = go (from_second b'\\' b'n' cs) refl
  where
    go :
        (o : Option (List ℕ))
        → from_second b'\\' b'n' cs ≡ o
        → length (elim o as (λ _. List ℕ) [ none ↦ [] | some rest ↦ rest ]) ≤ length cs
    go none e = omega arith
    go (some rest) e = from_second-le b'\\' b'n' cs e

-- What a turn leaves is no longer than what it was given.
Leaves : Result (List ℕ × List ℕ) → ℕ → Type 0
Leaves r n = (p : List ℕ × List ℕ) → r ≡ ok p → length p.1 ≤ n

leaves : (p : List ℕ × List ℕ) (n : ℕ) → length p.1 ≤ n → Leaves (ok p) n
unfolding Leaves
leaves p n h q e = subst (λ (x : List ℕ × List ℕ). length x.1 ≤ n) (ok-injective e) h

after_block-Leaves : (cs : List ℕ) → Leaves (after_block cs) (length cs)
unfolding after_block Leaves
after_block-Leaves cs p h = go (from_second b'*' b'/' cs) refl h
  where
    go :
        (o : Option (List ℕ))
        → from_second b'*' b'/' cs ≡ o
        → elim o as (λ _. Result (List ℕ × List ℕ)) [
          | none ↦ raise malformed_ddl
          | some rest ↦ ok ([], rest_of rest)
        ]
          ≡ ok p
        → length p.1 ≤ length cs
    go none e h = cc
    go (some rest) e h =
        let a = rest_of-le rest in
        let b = from_second-le b'*' b'/' cs e in
        subst (λ (x : List ℕ × List ℕ). length x.1 ≤ length cs) (ok-injective h) (omega arith)

abbrev left : List ℕ × List ℕ → ℕ
left p = length p.1

literal-le : (cs : List ℕ) → length (literal cs).1 ≤ length cs
unfolding literal
literal-le [] = omega arith
literal-le (c ∷ []) = omega arith
literal-le (c ∷ d ∷ cs) = go (c == b'\'') (d == b'\'') (literal-le cs) (literal-le (d ∷ cs))
  where
    go :
        (s t : Bool)
        → length (literal cs).1 ≤ length cs
        → length (literal (d ∷ cs)).1 ≤ suc (length cs)
        → left (
            if s
            then if t then (c ∷ d ∷ (literal cs).0, (literal cs).1) else (c ∷ [], d ∷ cs)
            else (c ∷ (literal (d ∷ cs)).0, (literal (d ∷ cs)).1))
          ≤ suc (suc (length cs))
    go true true a b = omega arith
    go true false a b = omega arith
    go false t a b = omega arith

take_literal-Leaves : (cs : List ℕ) → Leaves (take_literal cs) (length cs)
unfolding take_literal Leaves
take_literal-Leaves cs p h = go (ends_quoted (b'\'' ∷ (literal cs).0)) h
  where
    go :
        (b : Bool)
        → (if b then ok (b'\'' ∷ (literal cs).0, (literal cs).1) else raise malformed_ddl) ≡ ok p
        → length p.1 ≤ length cs
    go true h =
        subst (λ (x : List ℕ × List ℕ). length x.1 ≤ length cs) (ok-injective h) (literal-le cs)
    go false h = cc

until-le :
    (k : ℕ) (cs : List ℕ) {p : List ℕ × List ℕ} → until k cs ≡ some p → length p.1 ≤ length cs
unfolding until
until-le k [] h = cc
until-le k (c ∷ cs) {p} h = go (c == k) (until k cs) (λ q e. until-le k cs {p = q} e) h
  where
    some_lem : {x y : List ℕ × List ℕ} → some x ≡ some y → x ≡ y
    some_lem e = cc

    go :
        (b : Bool) (o : Option (List ℕ × List ℕ))
        → ((q : List ℕ × List ℕ) → o ≡ some q → length q.1 ≤ length cs)
        → elim b as (λ _. Option (List ℕ × List ℕ)) [
          | true ↦ some ([], cs)
          | false ↦ elim o [ none ↦ none | some q ↦ some (c ∷ q.0, q.1) ]
        ]
          ≡ some p
        → length p.1 ≤ suc (length cs)
    go true o f h =
        subst (λ (x : List ℕ × List ℕ). length x.1 ≤ suc (length cs)) (some_lem h) (omega arith)
    go false none f h = cc
    go false (some q) f h =
        let l = f q refl in
        subst (λ (x : List ℕ × List ℕ). length x.1 ≤ suc (length cs)) (some_lem h) (omega arith)

take_identifier-Leaves : (c : ℕ) (cs : List ℕ) → Leaves (take_identifier c cs) (length cs)
unfolding take_identifier Leaves
take_identifier-Leaves c cs p h = go (until (closing c) cs) refl h
  where
    go :
        (o : Option (List ℕ × List ℕ))
        → until (closing c) cs ≡ o
        → elim o as (λ _. Result (List ℕ × List ℕ)) [
          | none ↦ raise malformed_ddl
          | some q ↦ ok (map lower_case q.0, q.1)
        ]
          ≡ ok p
        → length p.1 ≤ length cs
    go none e h = cc
    go (some q) e h =
        subst (λ (x : List ℕ × List ℕ). length x.1 ≤ length cs) (ok-injective h)
          (until-le (closing c) cs e)

word-le : (cs : List ℕ) → length (word cs).1 ≤ length cs
unfolding word
word-le [] = omega arith
word-le (c ∷ cs) = go (is_letter_or_digit c || c == b'_' || c == b'$') (word-le cs)
  where
    go :
        (b : Bool)
        → length (word cs).1 ≤ length cs
        → left (if b then (c ∷ (word cs).0, (word cs).1) else ([], c ∷ cs)) ≤ suc (length cs)
    go true h = omega arith
    go false h = omega arith

longer : (r : Result (List ℕ × List ℕ)) (m n : ℕ) → Leaves r m → m ≤ n → Leaves r n
unfolding Leaves
longer r m n h l p e = let k = h p e in omega arith

if-Leaves :
    (b : Bool) (r q : Result (List ℕ × List ℕ)) (n : ℕ)
    → Leaves r n
    → Leaves q n
    → Leaves (if b then r else q) n
if-Leaves true r q n h k = h
if-Leaves false r q n h k = k

turn-Leaves : (c : ℕ) (cs : List ℕ) → Leaves (turn c cs) (length cs)
unfolding turn
turn-Leaves c cs =
    let n = length cs in
    let comment = after_comment-le (rest_of cs) in
    let block = after_block-Leaves (rest_of cs) in
    let shorter = rest_of-le cs in
    if-Leaves (is_blank c) _ _ n (leaves ([], cs) n (omega arith)) (
      if-Leaves (c == b'-' && starts_with b'-' cs) _ _ n
        (leaves ([], after_comment (rest_of cs)) n (omega arith))
        (if-Leaves (c == b'/' && starts_with b'*' cs) _ _ n
          (longer (after_block (rest_of cs)) (length (rest_of cs)) n block shorter)
          (if-Leaves (c == b'\'') _ _ n (take_literal-Leaves cs) (
            if-Leaves (c == b'"' || c == b'`' || c == b'[') _ _ n (take_identifier-Leaves c cs) (
              if-Leaves (is_letter_or_digit c || c == b'_') _ _ n
                (leaves (map lower_case (c ∷ (word cs).0), (word cs).1) n (word-le cs))
                (leaves (c ∷ [], cs) n (omega arith)))))))

left_by : (c : ℕ) (cs : List ℕ) (p : List ℕ × List ℕ) → turn c cs ≡ ok p → length p.1 ≤ length cs
unfolding Leaves
left_by c cs p e = turn-Leaves c cs p e

too_long : (n : ℕ) {A : Type 0} → suc n ≤ 0 → A
too_long n h = let e : 0 ≡ suc 0 = omega arith in cc

-- With a turn for each character of a text there is a result, and more turns give the same one.
turns-total :
    (fuel more : ℕ) (cs : List ℕ)
    → length cs ≤ fuel
    → length cs ≤ more
    → (r : Result (List ℕ)) × (turns fuel cs ≡ some r) × (turns more cs ≡ some r)
unfolding turns
turns-total fuel more [] h k = (ok [], refl, refl)
turns-total zero more (c ∷ cs) h k = too_long (length cs) h
turns-total (suc fuel) zero (c ∷ cs) h k = too_long (length cs) k
turns-total (suc fuel) (suc more) (c ∷ cs) h k =
    go (turn c cs)
      (λ p e. let l = left_by c cs p e in turns-total fuel more p.1 (omega arith) (omega arith))
  where
    some_turn : (out : List ℕ) → Option (Result (List ℕ)) → Option (Result (List ℕ))
    some_turn out o = elim o [
      | none ↦ none
      | some (raise e) ↦ some (raise e)
      | some (ok more) ↦ some (ok (out ++ more))
    ]

    wrap :
        (out : List ℕ) (a b : Option (Result (List ℕ)))
        → (r : Result (List ℕ)) × (a ≡ some r) × (b ≡ some r)
        → (r : Result (List ℕ)) × (some_turn out a ≡ some r) × (some_turn out b ≡ some r)
    wrap out a b (raise e, x, y) = (raise e, ap (some_turn out) x, ap (some_turn out) y)
    wrap out a b (ok rest, x, y) = (ok (out ++ rest), ap (some_turn out) x, ap (some_turn out) y)

    go :
        (t : Result (List ℕ × List ℕ))
        → ((p : List ℕ × List ℕ)
            → t ≡ ok p
            → (r : Result (List ℕ)) × (turns fuel p.1 ≡ some r) × (turns more p.1 ≡ some r))
        → (r : Result (List ℕ)) × (elim t as (λ _. Option (Result (List ℕ))) [
          | raise e ↦ some (raise e)
          | ok p ↦ some_turn p.0 (turns fuel p.1)
        ]
            ≡ some r)
          × (elim t as (λ _. Option (Result (List ℕ))) [
            | raise e ↦ some (raise e)
            | ok p ↦ some_turn p.0 (turns more p.1)
          ]
              ≡ some r)
    go (raise e) f = (raise e, refl, refl)
    go (ok p) f = wrap p.0 (turns fuel p.1) (turns more p.1) (f p refl)

-- The loop of `_canonical_ddl` ends on every text: with at least as many turns as the text has characters the loop
-- comes to an end, with the result that `canonical_ddl` gives, which has just that many.
pub canonical_ddl_ends :
    (fuel : ℕ) (cs : List ℕ) → length cs ≤ fuel → turns fuel cs ≡ some (canonical_ddl cs)
unfolding canonical_ddl
canonical_ddl_ends fuel cs h =
    let (r, a, b) = turns-total fuel (length cs) cs h (omega arith) in
    a ∙ ap (λ (o : Option (Result (List ℕ))). some (result_of o)) (sym b)
  where
    result_of : Option (Result (List ℕ)) → Result (List ℕ)
    result_of o = elim o [ none ↦ raise malformed_ddl | some r ↦ r ]
