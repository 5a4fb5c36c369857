-- ===== src/Py/Text.antt =====
-- The program's regular expressions, all used with `fullmatch`, as tests on the code points.
use Prim.Native.Char.{code}
use Prim.Native.String.{◌++◌ as append}
use highly_available_trailba.Prelude.{
  ℕ, zero, suc, ◌+◌, ◌-◌, ◌*◌, ◌/◌, ◌%◌, ◌++◌, ltb, ◌<◌, ◌^◌, ◌≡◌, Bool, true, false, ◌&&◌, ◌||◌,
  String, Option, none, some, List, [], ◌∷◌, ◌==◌, nat_eq, all, length, leb, if◌then◌else◌, arith,
  &&-eq-true, subst,
}

abbrev pub codes : String → List ℕ
codes String.[] = []
codes (String.◌∷◌ c s) = code c ∷ codes s

-- [0-9a-f]
unfoldable pub is_hex : ℕ → Bool
is_hex c = leb b'0' c && leb c b'9' || leb b'a' c && leb c b'f'

-- [a-z0-9-]
unfoldable pub is_slug : ℕ → Bool
is_slug c = leb b'0' c && leb c b'9' || leb b'a' c && leb c b'z' || c == b'-'

-- [A-Za-z0-9-]
unfoldable pub is_key_char : ℕ → Bool
unfolding is_slug
is_key_char c = is_slug c || leb b'A' c && leb c b'Z'

-- [0-9]
unfoldable pub is_digit : ℕ → Bool
is_digit c = leb b'0' c && leb c b'9'

-- `[0-9a-f]{n}`
unfoldable pub is_hex_of : ℕ → String → Bool
unfolding is_hex
is_hex_of n s = length (codes s) == n && all is_hex (codes s)

-- `[0-9a-f]{32}`, an operation's identity
unfoldable pub is_operation : String → Bool
unfolding is_hex_of
is_operation = is_hex_of 32

-- what follows `d1-` in an epoch, `[a-z0-9-]{1,n}`; the program's `+` has no upper bound
slug_tail : List ℕ → Bool
slug_tail [] = false
slug_tail (c ∷ cs) = all is_slug (c ∷ cs)

-- `d1-` or `d3-`, then what `tail` accepts
after_prefix : ℕ → (List ℕ → Bool) → List ℕ → Bool
after_prefix d tail (a ∷ b ∷ c ∷ rest) = a == b'd' && b == d && c == b'-' && tail rest
after_prefix d tail _ = false

-- `d1-[a-z0-9-]+`
unfoldable pub is_epoch : String → Bool
unfolding slug_tail after_prefix is_slug
is_epoch s = after_prefix b'1' slug_tail (codes s)

-- `{1,n}` of a class
bounded : ℕ → (ℕ → Bool) → List ℕ → Bool
bounded n p cs = leb 1 (length cs) && leb (length cs) n && all p cs

-- `d1-[a-z0-9-]{1,n}`
unfoldable pub is_epoch_upto : ℕ → String → Bool
unfolding bounded after_prefix is_slug
is_epoch_upto n s = after_prefix b'1' (bounded n is_slug) (codes s)

-- `d3-[A-Za-z0-9-]{1,125}`
unfoldable pub is_op_key : String → Bool
unfolding bounded after_prefix is_key_char
is_op_key s = after_prefix b'3' (bounded 125 is_key_char) (codes s)

-- `d1-[A-Za-z0-9-]{1,125}`
unfoldable pub is_base_key : String → Bool
unfolding bounded after_prefix is_key_char
is_base_key s = after_prefix b'1' (bounded 125 is_key_char) (codes s)

-- what follows a text at the head of another
unfoldable pub strip_prefix : List ℕ → List ℕ → Option (List ℕ)
strip_prefix [] cs = some cs
strip_prefix (p ∷ ps) [] = none
strip_prefix (p ∷ ps) (c ∷ cs) = let rest = strip_prefix ps cs in if p == c then rest else none

-- `(?:main|aux)_ops/d3-[A-Za-z0-9-]{1,125}`
unfoldable pub is_op_path : String → Bool
unfolding bounded after_prefix is_key_char strip_prefix
is_op_path s = elim (strip_prefix (codes "main_ops/") (codes s)) [
  | some rest ↦ after_prefix b'3' (bounded 125 is_key_char) rest
  | none ↦ elim (strip_prefix (codes "aux_ops/") (codes s)) [
    | some rest ↦ after_prefix b'3' (bounded 125 is_key_char) rest
    | none ↦ false
  ]
]

-- `int(s, 16)` of a text in `[0-9a-f]*`
unfoldable pub hex_digit : ℕ → ℕ
hex_digit c = if leb c b'9' then c - b'0' else c - b'a' + 10

hex_from : ℕ → List ℕ → ℕ
hex_from n [] = n
hex_from n (c ∷ cs) = hex_from (n * 16 + hex_digit c) cs

unfoldable pub hex_value : String → ℕ
unfolding hex_from hex_digit
hex_value s = hex_from 0 (codes s)

-- b * 16 ^ k, by repeated multiplication
grow : ℕ → ℕ → ℕ
grow b zero = b
grow b (suc k) = grow (b * 16) k

hex_digit-lt : (c : ℕ) → is_hex c ≡ true → hex_digit c < 16
unfolding is_hex hex_digit
hex_digit-lt c h = ground arith

hex_from-lt :
    (n b : ℕ) (cs : List ℕ) → n < b → all is_hex cs ≡ true → hex_from n cs < grow b (length cs)
unfolding hex_from grow
hex_from-lt n b [] h p = h
hex_from-lt n b (c ∷ cs) h p =
    let (q, r) = &&-eq-true (is_hex c) (all is_hex cs) p in
    hex_from-lt (n * 16 + hex_digit c) (b * 16) cs (omega (arith, hex_digit-lt c q)) r

-- A text of `[0-9a-f]{16}` reads as a number below 2 ^ 64.
pub hex_value-lt : (s : String) → is_hex_of 16 s ≡ true → hex_value s < 2 ^ 64
unfolding is_hex_of hex_value grow
hex_value-lt s h =
    let (n, p) = &&-eq-true (length (codes s) == 16) (all is_hex (codes s)) h in
    let e : length (codes s) ≡ 16 = ground arith in
    subst (λ k. hex_value s < grow 1 k) e (hex_from-lt 0 1 (codes s) (omega arith) p)

-- `'d1-' + ident`
unfoldable pub epoch_of : String → String
epoch_of ident = append "d1-" ident

-- the UTF-8 bytes of a code point
unfoldable pub utf8 : ℕ → List ℕ
utf8 c =
    if ltb c 0x80
    then c ∷ []
    else if ltb c 0x800
    then (0xc0 + c / 0x40) ∷ (0x80 + c % 0x40) ∷ []
    else if ltb c 0x10000
    then (0xe0 + c / 0x1000) ∷ (0x80 + c / 0x40 % 0x40) ∷ (0x80 + c % 0x40) ∷ []
    else (0xf0 + c / 0x40000)
      ∷ (0x80 + c / 0x1000 % 0x40)
      ∷ (0x80 + c / 0x40 % 0x40)
      ∷ (0x80 + c % 0x40)
      ∷ []

utf8_all : List ℕ → List ℕ
utf8_all [] = []
utf8_all (c ∷ cs) = utf8 c ++ utf8_all cs

-- `s.encode()`
unfoldable pub encode : String → List ℕ
unfolding utf8_all utf8
encode s = utf8_all (codes s)
