-- ===== src/S3/Text.antt =====
-- experiments/m1/s3.py: entity tags, header names and status codes.
use Prim.Native.Char.{code}
use Prim.Native.String.{◌++◌ as append}
use highly_available_trailba.Prelude.{
  ℕ, ◌+◌, ◌≡◌, refl, sym, subst, ◌∙◌, ap, Bool, true, false, ◌&&◌, ◌||◌, not, String, List, [], ◌∷◌,
  Option, none, some, ◌==◌, nat_eq, string_eq, leb, if◌then◌else◌, arith, Bool-cases, inl, inr, ◌⊎◌,
  &&-eq-true,
}
use text.Mathlib.TextLemmas.{nil-append, cons-append}
use highly_available_trailba.Py.Text.{codes}

-- `str.isspace` of a character
unfoldable pub is_space : ℕ → Bool
is_space c =
    leb 9 c && leb c 13
    || leb 28 c && leb c 32
    || c == 0x85
    || c == 0xa0
    || c == 0x1680
    || leb 0x2000 c && leb c 0x200a
    || c == 0x2028
    || c == 0x2029
    || c == 0x202f
    || c == 0x205f
    || c == 0x3000

unfoldable pub is_quote : ℕ → Bool
is_quote c = c == b'"'

unfoldable pub lstrip : (ℕ → Bool) → String → String
lstrip p String.[] = String.[]
lstrip p (String.◌∷◌ c s) = let rest = lstrip p s in if p (code c) then rest else String.◌∷◌ c s

-- `c + s` without the trailing characters that `p` accepts, `s` having none
abbrev pub keep : (ℕ → Bool) → Prim.Native.Char.Char → String → String
keep p c String.[] = if p (code c) then String.[] else String.◌∷◌ c String.[]
keep p c (String.◌∷◌ d s) = String.◌∷◌ c (String.◌∷◌ d s)

unfoldable pub rstrip : (ℕ → Bool) → String → String
rstrip p String.[] = String.[]
rstrip p (String.◌∷◌ c s) = keep p c (rstrip p s)

-- `s.strip(...)`
unfoldable pub strip : (ℕ → Bool) → String → String
unfolding lstrip rstrip
strip p s = rstrip p (lstrip p s)

unfoldable pub starts : (ℕ → Bool) → String → Bool
starts p String.[] = false
starts p (String.◌∷◌ c s) = p (code c)

unfoldable pub ends : (ℕ → Bool) → String → Bool
ends p String.[] = false
ends p (String.◌∷◌ c String.[]) = p (code c)
ends p (String.◌∷◌ c (String.◌∷◌ d s)) = ends p (String.◌∷◌ d s)

unfoldable pub quoted : String → String
unfolding starts ends strip is_quote
quoted v =
    if starts is_quote v && ends is_quote v then v else append "\"" (append (strip is_quote v) "\"")

unfoldable pub quote_etag : String → String
unfolding strip is_space quoted
quote_etag value = quoted (strip is_space value)

unfoldable pub classify_status : Option ℕ → String
classify_status none = "unknown"
classify_status (some n) =
    if n == 200 || n == 201 || n == 204
    then "ok"
    else if n == 409
    then "conflict"
    else if n == 412
    then "precondition"
    else "unknown"

unfoldable pub classify_precondition : Option ℕ → String
classify_precondition none = "unknown"
classify_precondition (some n) =
    if n == 200 || n == 201 || n == 204
    then "applied"
    else if n == 409
    then "conflict"
    else if n == 412
    then "refused"
    else "unknown"

-- `s.lower()` as code points, of ASCII letters; the names that are looked up have no other letters
lower : List ℕ → List ℕ
lower [] = []
lower (c ∷ cs) = (if leb b'A' c && leb c b'Z' then c + 32 else c) ∷ lower cs

unfoldable pub same_name : String → String → Bool
unfolding lower
same_name a b = highly_available_trailba.Prelude.list_beq (lower (codes a)) (lower (codes b))

unfoldable pub header_value : List (String × String) → String → String
unfolding same_name
header_value [] name = ""
header_value ((key, value) ∷ headers) name =
    let rest = header_value headers name in if same_name key name then value else rest

-- What begins or ends with a character that is not stripped keeps that end.
lstrip-starts :
    (p q : ℕ → Bool) (s : String)
    → ((c : ℕ) → q c ≡ true → p c ≡ false)
    → starts q s ≡ true
    → lstrip p s ≡ s
unfolding lstrip starts
lstrip-starts p q String.[] apart h = refl
lstrip-starts p q (String.◌∷◌ c s) apart h = rw (apart (code c) h) refl

rstrip-ends :
    (p q : ℕ → Bool) (s : String)
    → ((c : ℕ) → q c ≡ true → p c ≡ false)
    → ends q s ≡ true
    → rstrip p s ≡ s
unfolding rstrip ends
rstrip-ends p q String.[] apart h = refl
rstrip-ends p q (String.◌∷◌ c String.[]) apart h = rw (apart (code c) h) refl
rstrip-ends p q (String.◌∷◌ c (String.◌∷◌ d s)) apart h =
    ap (keep p c) (rstrip-ends p q (String.◌∷◌ d s) apart h)

quote-apart : (c : ℕ) → is_quote c ≡ true → is_space c ≡ false
unfolding is_quote is_space
quote-apart c h = ground arith

ends-cons :
    (q : ℕ → Bool) (c : Prim.Native.Char.Char) (s : String)
    → ends q s ≡ true
    → ends q (String.◌∷◌ c s) ≡ true
unfolding ends
ends-cons q c String.[] h = cc
ends-cons q c (String.◌∷◌ d s) h = h

ends-append : (q : ℕ → Bool) (s t : String) → ends q t ≡ true → ends q (append s t) ≡ true
ends-append q String.[] t h = subst (λ x. ends q x ≡ true) (sym (nil-append t)) h
ends-append q (String.◌∷◌ c s) t h =
    subst (λ x. ends q x ≡ true) (sym (cons-append c s t))
      (ends-cons q c (append s t) (ends-append q s t h))

-- a text in quotes
IsQuoted : String → Type 0
IsQuoted v = (starts is_quote v ≡ true) × (ends is_quote v ≡ true)

enclosed-IsQuoted : (v : String) → IsQuoted (append "\"" (append v "\""))
unfolding IsQuoted starts ends is_quote
enclosed-IsQuoted v = (
  subst (λ x. starts is_quote x ≡ true) (sym (cons-append _ String.[] (append v "\""))) refl,
  ends-append is_quote "\"" (append v "\"") (ends-append is_quote v "\"" refl),
)

quoted-IsQuoted : (v : String) → IsQuoted (quoted v)
unfolding quoted IsQuoted
quoted-IsQuoted v = elim (Bool-cases (starts is_quote v && ends is_quote v)) [
  | inl t ↦ rw (t) (&&-eq-true (starts is_quote v) (ends is_quote v) t)
  | inr f ↦ rw (f) (enclosed-IsQuoted (strip is_quote v))
]

strip-IsQuoted : (v : String) → IsQuoted v → strip is_space v ≡ v
unfolding strip IsQuoted
strip-IsQuoted v h =
    ap (rstrip is_space) (lstrip-starts is_space is_quote v quote-apart h.0)
    ∙ rstrip-ends is_space is_quote v quote-apart h.1

quoted_lem : (v : String) → IsQuoted v → quoted v ≡ v
unfolding quoted IsQuoted
quoted_lem v h = rw (h.0, h.1) refl

-- A quoted entity tag begins and ends with a quote, and quoting it again changes nothing.
pub quote_etag_idempotent :
    (value : String)
    → (starts is_quote (quote_etag value) ≡ true)
      × (ends is_quote (quote_etag value) ≡ true)
      × (quote_etag (quote_etag value) ≡ quote_etag value)
unfolding quote_etag IsQuoted
quote_etag_idempotent value =
    let q = quoted-IsQuoted (strip is_space value) in
    (
      q.0,
      q.1,
      ap quoted (strip-IsQuoted (quoted (strip is_space value)) q)
          ∙ quoted_lem (quoted (strip is_space value)) q,
    )
