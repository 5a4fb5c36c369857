-- ===== src/Acceptance/Protected.antt =====
-- hat/recovery.py: `_protected_ledger`, the ledger of what the restored databases must hold. The parser of a line
-- is the argument `parse`. A record's identity is the number that its digits write.
pub mod Frames
pub mod Unique
mod Examples
use Prim.Native.String.{◌++◌ as append}
use highly_available_trailba.Prelude.{
  ℕ, ◌^◌, Bool, true, false, ◌&&◌, ◌||◌, not, String, List, [], ◌∷◌, ◌==◌, nat_eq, string_eq,
  pair_eq, list_eq, any, all, contains, length, ltb, leb, Option, none, some, Result, ok, raise,
  raise_if, Exc, value_error, type_error, if◌then◌else◌, bind, or_raise,
}
use highly_available_trailba.Fallible.{◌>>=◌, ◌>>◌}
use highly_available_trailba.Py.Value.{
  Value, str, int, neg, obj, dict, has_keys, get, item, is_text, is_str, is_dict, py_eq,
}
use highly_available_trailba.Py.Text.{codes, is_base_key}
use highly_available_trailba.Py.Access.{keys_are, get_of}
use highly_available_trailba.Ledger.Records.{is_short, is_positive}
use highly_available_trailba.Acceptance.Authority.{max_artifact}
use highly_available_trailba.Acceptance.Ledger.{is_canonical_id, decimal}

-- `_canonical_id`
unfoldable pub canonical_id : Value → Result ℕ
unfolding is_canonical_id decimal
canonical_id (int n) =
    if is_canonical_id (int n) then ok n else raise (value_error "invalid record identity")
canonical_id (str s) =
    if is_canonical_id (str s)
    then ok (decimal 0 (codes s))
    else raise (value_error "invalid record identity")
canonical_id v = raise (value_error "invalid record identity")

-- `seen_keys`, `seen_ids` and `auth_pairs`, the newest first
pub record SeenRecords : Type 0 where
  pub keys : List String
  pub ids : List ℕ
  pub pairs : List (String × String)

unfoldable pub is_seen : String → ℕ → SeenRecords → Bool
unfolding contains
is_seen key ident seen = contains seen.keys key || any (λ n. n == ident) seen.ids

abbrev pub add_record : String → ℕ → SeenRecords → SeenRecords
add_record key ident seen = record seen { keys = key ∷ seen.keys; ids = ident ∷ seen.ids }

abbrev pub add_pair : String × String → SeenRecords → SeenRecords
add_pair pair seen = record seen { pairs = pair ∷ seen.pairs }

-- a text that is not empty
unfoldable pub token : Value → Exc → Result String
token (str s) e = if s == "" then raise e else ok s
token v e = raise e

abbrev pub invalid_auth : Exc
invalid_auth = value_error "protected ledger auth frame is invalid"

-- the first frame
unfoldable pub auth_frame : Value → Result (String × String)
unfolding has_keys token get
auth_frame v = do
  raise_if (not (has_keys ("auth_token" ∷ "retained_refresh" ∷ "revoked_refresh" ∷ []) v))
      invalid_auth
  auth ← token (get v "auth_token") invalid_auth
  retained ← token (get v "retained_refresh") invalid_auth
  revoked ← token (get v "revoked_refresh") invalid_auth
  ok (retained, revoked)

-- `api + '/' + op_key`
unfoldable pub key_in : String → Value → Exc → Result String
key_in api (str op) e = ok (append api (append "/" op))
key_in api v e = raise e

unfoldable pub is_text_or_int : Value → Bool
is_text_or_int (str s) = true
is_text_or_int (int n) = true
is_text_or_int (neg n) = true
is_text_or_int v = false

abbrev pub invalid_operation : Exc
invalid_operation = value_error "protected ledger operation is invalid"

abbrev pub submitted_keys : List String
submitted_keys = "event" ∷ "api" ∷ "row" ∷ "time_ns" ∷ []

abbrev pub acknowledged_keys : List String
acknowledged_keys = "event" ∷ "api" ∷ "row" ∷ "id" ∷ "time_ns" ∷ []

-- the row of a submission and of its acknowledgement
unfoldable pub is_record : Value → Bool
unfolding has_keys is_str is_base_key is_short get
is_record row =
    has_keys ("op_key" ∷ "payload" ∷ []) row
    && is_str is_base_key (get row "op_key")
    && is_str is_short (get row "payload")

unfoldable pub is_current_pair : String → Value → Value → Bool
unfolding is_text get py_eq is_record is_positive is_text_or_int
is_current_pair api sub ack =
    is_text "acknowledged" (get ack "event")
    && is_text api (get ack "api")
    && py_eq (get sub "row") (get ack "row")
    && is_record (get sub "row")
    && is_positive (get sub "time_ns")
    && is_positive (get ack "time_ns")
    && is_text_or_int (get ack "id")

unfoldable pub is_submission_to : String → Value → Value → Bool
unfolding is_text get
is_submission_to api event sub = is_text "submitted" event && is_text api (get sub "api")

-- one of the two current pairs
unfoldable pub current_pair : String → Value → Value → SeenRecords → Result SeenRecords
unfolding keys_are get_of is_submission_to is_current_pair key_in canonical_id is_seen
current_pair api sub ack seen = do
  a ← keys_are submitted_keys sub
  raise_if (not a) invalid_operation
  event ← get_of sub "event"
  raise_if (not (is_submission_to api event sub)) invalid_operation
  b ← keys_are acknowledged_keys ack
  raise_if (not b) invalid_operation
  answer ← get_of ack "event"
  raise_if (not (is_current_pair api sub ack)) invalid_operation
  key ← key_in api (get (get sub "row") "op_key") invalid_operation
  ident ← canonical_id (get ack "id")
  raise_if (is_seen key ident seen) (value_error "protected ledger operation is duplicated")
  ok (add_record key ident seen)

abbrev pub invalid_history : Exc
invalid_history = value_error "protected ledger historical record is invalid"

unfoldable pub table_in : Value → Result String
table_in (str s) = if s == "main_ops" || s == "aux_ops" then ok s else raise invalid_history
table_in v = raise invalid_history

-- an acknowledgement of an earlier run
unfoldable pub historical_record : Value → SeenRecords → Result SeenRecords
unfolding get table_in has_keys key_in canonical_id is_record is_positive is_seen
historical_record row seen = do
  api ← table_in (get row "api")
  raise_if (not (has_keys ("op_key" ∷ "payload" ∷ []) (get row "row"))) invalid_history
  key ← key_in api (get (get row "row") "op_key") (type_error "can only concatenate str")
  ident ← or_raise (canonical_id (get row "id")) invalid_history
  raise_if
      (not (is_record (get row "row") && is_positive (get row "time_ns")) || is_seen key ident seen)
      invalid_history
  ok (add_record key ident seen)

abbrev pub invalid_history_auth : Exc
invalid_history_auth = value_error "protected ledger historical auth is invalid"

unfoldable pub is_pair_seen : String × String → SeenRecords → Bool
is_pair_seen pair seen = any (λ p. ◌==◌ {A = String × String} p pair) seen.pairs

-- the tokens of an earlier run
unfoldable pub historical_auth : Value → SeenRecords → Result SeenRecords
unfolding get token is_text is_pair_seen
historical_auth row seen = do
  retained ← token (get row "retained_refresh") invalid_history_auth
  revoked ← token (get row "revoked_refresh") invalid_history_auth
  raise_if
      (not (
          is_text "accepted" (get row "retained_expected")
          || is_text "denied" (get row "retained_expected"))
        || is_pair_seen (retained, revoked) seen)
      invalid_history_auth
  ok (add_pair (retained, revoked) seen)

abbrev pub is_historical_record : Value → Bool
is_historical_record row =
    has_keys acknowledged_keys row && is_text "acknowledged" (get row "event")

abbrev pub is_historical_auth : Value → Bool
is_historical_auth row =
    has_keys ("event" ∷ "retained_refresh" ∷ "revoked_refresh" ∷ "retained_expected" ∷ []) row
    && is_text "historical_auth" (get row "event")

-- one frame after the smoke marker
unfoldable pub historical : Value → SeenRecords → Result SeenRecords
unfolding has_keys is_text get historical_record historical_auth
historical row seen =
    if is_historical_record row
    then historical_record row seen
    else if is_historical_auth row
    then historical_auth row seen
    else raise (value_error "protected ledger historical frame is invalid")

unfoldable pub history : List Value → SeenRecords → Result SeenRecords
unfolding historical
history [] seen = ok seen
history (row ∷ rows) seen = bind (historical row seen) (history rows)

abbrev pub smoke_pass : Value
smoke_pass = obj (dict (("event", str "smoke_pass") ∷ []))

unfoldable pub after_smoke : List Value → SeenRecords → Result SeenRecords
unfolding py_eq history
after_smoke [] seen = raise (value_error "protected ledger smoke marker is invalid")
after_smoke (v ∷ rows) seen =
    if py_eq v smoke_pass
    then history rows seen
    else raise (value_error "protected ledger smoke marker is invalid")

-- `for api in ('main_ops','aux_ops')`, then the rest
unfoldable pub pairs : List String → List Value → SeenRecords → Result SeenRecords
unfolding current_pair after_smoke
pairs [] rows seen = after_smoke rows seen
pairs (api ∷ apis) (sub ∷ ack ∷ rows) seen = bind (current_pair api sub ack seen) (pairs apis rows)
pairs (api ∷ apis) rows seen = raise (value_error "protected ledger current pairs are incomplete")

-- what the frames of a ledger say
unfoldable pub judge_frames : List Value → Result SeenRecords
unfolding auth_frame pairs
judge_frames [] = raise (value_error "protected ledger is malformed")
judge_frames (v ∷ rows) = bind (auth_frame v) (λ pair.
    pairs ("main_ops" ∷ "aux_ops" ∷ []) rows (record { keys = []; ids = []; pairs = pair ∷ [] }))

-- `raw.split(b"\n")[:-1]` of bytes that end with a line break; the line so far stands in reverse
unfoldable pub lines_of : List ℕ → List ℕ → List (List ℕ)
lines_of line [] = []
lines_of line (c ∷ cs) =
    if c == 10 then reversed [] line ∷ lines_of [] cs else lines_of (c ∷ line) cs
  where
    reversed : List ℕ → List ℕ → List ℕ
    reversed acc [] = acc
    reversed acc (x ∷ xs) = reversed (x ∷ acc) xs

unfoldable pub ends_frame : List ℕ → Bool
ends_frame [] = false
ends_frame (c ∷ []) = c == 10
ends_frame (c ∷ d ∷ cs) = ends_frame (d ∷ cs)

unfoldable pub has_mark : List ℕ → Bool
has_mark (a ∷ b ∷ c ∷ rest) = a == 0xef && b == 0xbb && c == 0xbf
has_mark cs = false

unfoldable pub is_frame_line : List ℕ → Bool
is_frame_line line = not (length line == 0) && leb (length line) 8192

module _ (parse : List ℕ → Result Value) where
  unfoldable pub parse_lines : List (List ℕ) → Result (List Value)
  parse_lines [] = ok []
  parse_lines (line ∷ lines) = bind (parse line) (λ v. bind (parse_lines lines) (λ vs. ok (v ∷ vs)))

  unfoldable pub frames_of : List (List ℕ) → Result (List Value)
  unfolding is_frame_line parse_lines
  frames_of [] = raise (value_error "")
  frames_of (line ∷ lines) =
      if all is_frame_line (line ∷ lines)
      then parse_lines (line ∷ lines)
      else raise (value_error "")

  -- `_protected_ledger`
  unfoldable pub protected_ledger : List ℕ → Result (List Value)
  unfolding ends_frame has_mark lines_of frames_of judge_frames
  protected_ledger raw = do
    raise_if (not (leb (length raw) max_artifact) || any (λ c. c == 0) raw || not (ends_frame raw))
        (value_error "protected ledger is incomplete or oversized")
    raise_if (has_mark raw) (value_error "protected ledger encoding is invalid")
    rows ← or_raise (frames_of (lines_of [] raw)) (value_error "protected ledger is malformed")
    seen ← judge_frames rows
    ok rows
