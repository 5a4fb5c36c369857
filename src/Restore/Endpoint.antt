-- ===== src/Restore/Endpoint.antt =====
-- hat/recovery.py: `restore_endpoint` and `_safe_timestamp`. Python's `datetime.fromisoformat` is the
-- argument `read_zone`: of the codes of a text, whether the date that they are has a time zone.
use Prim.Native.String.{◌++◌ as append}
use highly_available_trailba.Prelude.{
  ℕ, ◌^◌, Bool, false, ◌&&◌, not, String, List, [], ◌∷◌, Option, none, some, ◌==◌, nat_eq,
  string_eq, pair_eq, any, contains, length, ◌++◌, leb, ltb, Result, ok, raise, raise_if, Exc,
  value_error, if◌then◌else◌, bind,
}
use highly_available_trailba.Fallible.{◌>>=◌, ◌>>◌}
use highly_available_trailba.Py.Value.{Value, int, str, arr, items, has_keys, get, is_text}
use highly_available_trailba.Py.Text.{codes}
use highly_available_trailba.Node.Positions.{txid}

abbrev pub malformed : Exc
malformed = value_error "malformed native restore plan"

-- `except (...): raise ValueError('malformed native restore plan')`
unfoldable pub checked_txid : Value → Result ℕ
unfolding txid
checked_txid v = elim (txid v) [ ok n ↦ ok n | raise e ↦ raise malformed ]

-- `value.replace('Z', '+00:00')`
unfoldable pub with_offset : List ℕ → List ℕ
with_offset [] = []
with_offset (c ∷ cs) = (if c == b'Z' then codes "+00:00" else c ∷ []) ++ with_offset cs

-- `_safe_timestamp(value) is not None`
unfoldable pub has_zone : (List ℕ → Result Bool) → Value → Bool
unfolding with_offset
has_zone read_zone (str s) = elim (read_zone (with_offset (codes s))) [ ok b ↦ b | raise e ↦ false ]
has_zone read_zone v = false

-- level and name
abbrev pub FileKey : Type 0
FileKey = ℕ × String

-- first and last position
abbrev pub Span : Type 0
Span = ℕ × ℕ

-- `type(v) is int and v <= 9`
unfoldable pub level_of : Value → Option ℕ
level_of (int n) = if leb n 9 then some n else none
level_of v = none

unfoldable pub is_size : Value → Bool
is_size (int n) = ltb 0 n && ltb n (2 ^ 63)
is_size v = false

-- `f'{a:016x}-{b:016x}.ltx'`, of positions that were read from 16 hexadecimal digits
unfoldable pub file_name : Value → Value → String
file_name (str a) (str b) = append a (append "-" (append b ".ltx"))
file_name a b = ""

unfoldable pub files_of : Value → Option (List Value)
unfolding items
files_of (arr vs) =
    if leb 1 (length (items vs)) && leb (length (items vs)) 10000 then some (items vs) else none
files_of v = none

abbrev pub need {ℓ} : {A : Type ℓ} → Option A → Result A
need none = raise malformed
need (some a) = ok a

abbrev pub within : ℕ → ℕ → ℕ → ℕ → Bool
within low high a b = leb low a && (leb a b && leb b high)

module _ (is_zoned : Value → Bool) (low high : ℕ) where
  -- the file of a plan: its span, if it is between the plan's ends and its name says so
  unfoldable pub span_of : Value → List FileKey → ℕ → ℕ → ℕ → Result (FileKey × Span)
  unfolding file_name is_text get
  span_of v seen level a b =
      if within low high a b
        && (is_text (file_name (get v "min_txid") (get v "max_txid")) (get v "name")
            && not (contains seen (level, file_name (get v "min_txid") (get v "max_txid")))
            && is_zoned (get v "timestamp"))
      then ok ((level, file_name (get v "min_txid") (get v "max_txid")), (a, b))
      else raise malformed

  unfoldable pub read_file : Value → List FileKey → Result (FileKey × Span)
  unfolding has_keys get level_of is_size checked_txid span_of
  read_file v seen = do
    raise_if
        (not (has_keys ("level" ∷ "name" ∷ "min_txid" ∷ "max_txid" ∷ "size" ∷ "timestamp" ∷ []) v))
        malformed
    level ← need (level_of (get v "level"))
    raise_if (not (is_size (get v "size"))) malformed
    a ← checked_txid (get v "min_txid")
    b ← checked_txid (get v "max_txid")
    span_of v seen level a b

  unfoldable pub read_files : List Value → List FileKey → Result (List Span)
  unfolding read_file
  read_files [] seen = ok []
  read_files (v ∷ vs) seen =
      bind (read_file v seen) (λ f. bind (read_files vs (f.0 ∷ seen)) (λ spans. ok (f.1 ∷ spans)))

  -- `min(a for a, b in spans) == low and max(b for a, b in spans) == high`, of spans within
  unfoldable pub ends_agree : List Span → Bool
  ends_agree spans = any (λ (s : Span). s.0 == low) spans && any (λ (s : Span). s.1 == high) spans

  unfoldable pub endpoint : List Value → Result ℕ
  unfolding read_files ends_agree
  endpoint files = do
    spans ← read_files files []
    raise_if (not (ends_agree spans)) malformed
    ok high

unfoldable pub is_plan : Value → String → String → ℕ → Bool
unfolding has_keys get is_text
is_plan plan source target minimum =
    has_keys ("source" ∷ "target_path" ∷ "replica" ∷ "min_txid" ∷ "max_txid" ∷ "files" ∷ []) plan
    && is_text source (get plan "source")
    && is_text target (get plan "target_path")
    && is_text "s3" (get plan "replica")
    && ltb 0 minimum
    && ltb minimum (2 ^ 64)

unfoldable pub in_range : ℕ → ℕ → ℕ → Bool
in_range low high minimum = ltb 0 low && (leb low high && leb minimum high)

unfoldable pub endpoint_from : (Value → Bool) → List Value → ℕ → ℕ → ℕ → Result ℕ
unfolding endpoint in_range
endpoint_from is_zoned files minimum low high =
    if in_range low high minimum then endpoint is_zoned low high files else raise malformed

unfoldable pub restore_endpoint : (List ℕ → Result Bool) → Value → String → String → ℕ → Result ℕ
unfolding is_plan files_of checked_txid endpoint_from has_zone
restore_endpoint read_zone plan source target minimum = do
  raise_if (not (is_plan plan source target minimum)) malformed
  files ← need (files_of (get plan "files"))
  low ← checked_txid (get plan "min_txid")
  high ← checked_txid (get plan "max_txid")
  endpoint_from (has_zone read_zone) files minimum low high
