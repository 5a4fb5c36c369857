-- ===== src/Faults/Classify.antt =====
-- hat/recovery.py: `classify_fault`. The rows that the image has of an operation are the argument
-- `image`: the id and the payload of each.
use highly_available_trailba.Prelude.{
  ℕ, Bool, true, false, ◌&&◌, not, String, List, [], ◌∷◌, ◌++◌, Option, none, some, ◌==◌, nat_eq,
  string_eq, pair_eq, all, contains, length, leb, Result, ok, raise, raise_if, Exc, value_error,
  if◌then◌else◌, bind,
}
use highly_available_trailba.Fallible.{◌>>=◌, ◌>>◌}
use highly_available_trailba.Py.Value.{
  Value, str, int, obj, has_keys, get, is_str, is_text, py_eq, keys,
}
use highly_available_trailba.Py.Text.{codes, is_digit}
use highly_available_trailba.Ledger.Records.{
  Kind, acknowledged, rejected, kind_of, is_submission, is_acknowledged, Key, api_of, op_key_of,
  is_short, need,
}
use highly_available_trailba.Ledger.Tally.{row_of, has_row}

pub record Event : Type 0 where
  pub kind : Kind
  pub key : Key
  pub row : Value
  pub id : Value

abbrev pub event_from : Kind → String → String → Value → Value → Event
event_from k a o r i = record { kind = k; key = (a, o); row = r; id = i }

abbrev pub invalid_operation : Exc
invalid_operation = value_error "invalid fault operation"

-- the keys that an event must have, and those that it may have
unfoldable pub has_event_keys : Value → Bool
unfolding keys contains
has_event_keys (obj fs) =
    all (contains (keys fs)) ("event" ∷ "api" ∷ "row" ∷ [])
    && all (contains ("event" ∷ "api" ∷ "row" ∷ "id" ∷ "time_ns" ∷ "status" ∷ "error" ∷ []))
        (keys fs)
has_event_keys v = false

-- the row of an event of this kind and this table
unfoldable pub event_row : Value → Kind → String → Result Event
unfolding op_key_of is_short has_keys get is_str
event_row v kind api = do
  raise_if (not (has_keys ("op_key" ∷ "payload" ∷ []) (get v "row"))) invalid_operation
  op ← need (op_key_of (get (get v "row") "op_key")) invalid_operation
  raise_if (not (is_str is_short (get (get v "row") "payload"))) invalid_operation
  ok (event_from kind api op (get v "row") (get v "id"))

unfoldable pub event_of : Value → Result Event
unfolding has_event_keys kind_of api_of event_row
event_of v = do
  raise_if (not (has_event_keys v)) (value_error "malformed fault event")
  kind ← need (kind_of (get v "event")) invalid_operation
  api ← need (api_of (get v "api")) invalid_operation
  event_row v kind api

-- `type(id) in (str, int) and str(id).isdigit()`, of ASCII digits
unfoldable pub is_id : Value → Bool
unfolding is_digit
is_id (int n) = true
is_id (str s) = leb 1 (length (codes s)) && all is_digit (codes s)
is_id v = false

-- `submitted`, in order of submission, and `outcomes`, the newest first
pub record Seen : Type 0 where
  pub rows : List (Key × Value)
  pub outcomes : List (Key × Event)

unfoldable pub outcome_of : Key → List (Key × Event) → Option Event
outcome_of k [] = none
outcome_of k ((j, e) ∷ es) =
    let rest = outcome_of k es in if ◌==◌ {A = String × String} j k then some e else rest

unfoldable pub is_unset : Option Event → Bool
is_unset none = true
is_unset (some e) = false

unfoldable pub has_same : Option Value → Value → Bool
unfolding py_eq
has_same none v = false
has_same (some r) v = py_eq r v

abbrev pub with_row : Event → Seen → Seen
with_row e s = record s { rows = s.rows ++ (e.key, e.row) ∷ [] }

abbrev pub with_outcome : Event → Seen → Seen
with_outcome e s = record s { outcomes = (e.key, e) ∷ s.outcomes }

unfoldable pub see : Event → Seen → Result Seen
unfolding is_submission is_acknowledged is_id has_row row_of outcome_of is_unset has_same
see e s =
    if is_submission e.kind
    then if has_row e.key s.rows
      then raise (value_error "duplicate submission")
      else ok (with_row e s)
    else if not (has_same (row_of e.key s.rows) e.row && is_unset (outcome_of e.key s.outcomes))
    then raise (value_error "unmatched or duplicate outcome")
    else if is_acknowledged e.kind && not (is_id e.id)
    then raise (value_error "invalid acknowledgement ID")
    else ok (with_outcome e s)

unfoldable pub see_all : List Value → Seen → Result Seen
unfolding event_of see
see_all [] s = ok s
see_all (v ∷ vs) s = bind (event_of v) (λ e. bind (see e s) (see_all vs))

pub data Category : Type 0 where
  recovered lost ambiguous unacknowledged_recovered : Category
  rejected_unwritten : Category

-- a row of the image
abbrev pub Found : Type 0
Found = String × String

-- `str(outcome['id'])`; `show` is the decimal text of a number
unfoldable pub id_text : (ℕ → String) → Value → String
id_text show (str s) = s
id_text show (int n) = show n
id_text show v = ""

unfoldable pub payload_differs : List Found → Value → Bool
unfolding is_text get
payload_differs [] row = false
payload_differs ((i, p) ∷ []) row = not (is_text p (get row "payload"))
payload_differs (f ∷ g ∷ fs) row = true

unfoldable pub is_found : List Found → Bool
is_found [] = false
is_found (f ∷ fs) = true

unfoldable pub id_differs : (ℕ → String) → List Found → Value → Bool
unfolding id_text
id_differs show [] id = false
id_differs show ((i, p) ∷ fs) id = not (i == id_text show id)

unfoldable pub judge_kind : (ℕ → String) → List Found → Kind → Value → Result Category
unfolding is_found id_differs
judge_kind show found acknowledged id =
    if id_differs show found id
    then raise (value_error "acknowledged row identity differs")
    else ok (if is_found found then recovered else lost)
judge_kind show found rejected id =
    if is_found found
    then raise (value_error "rejected operation exists in recovery image")
    else ok rejected_unwritten
judge_kind show found k id = ok (if is_found found then unacknowledged_recovered else ambiguous)

unfoldable pub judge_outcome : (ℕ → String) → List Found → Option Event → Result Category
unfolding is_found judge_kind
judge_outcome show found none = ok (if is_found found then unacknowledged_recovered else ambiguous)
judge_outcome show found (some e) = judge_kind show found e.kind e.id

unfoldable pub judge : (ℕ → String) → List Found → Value → Option Event → Result Category
unfolding payload_differs judge_outcome
judge show found row outcome =
    if payload_differs found row
    then raise (value_error "recovered payload differs")
    else judge_outcome show found outcome

-- the classification of the operations of one table, in order of submission
unfoldable pub sort_table :
    (ℕ → String)
    → (Key → List Found)
    → String
    → List (Key × Value)
    → List (Key × Event)
    → Result (List (Category × Key))
unfolding judge outcome_of
sort_table show image api [] outcomes = ok []
sort_table show image api ((k, row) ∷ rows) outcomes =
    if k.0 == api
    then bind (judge show (image k) row (outcome_of k outcomes))
        (λ c. bind (sort_table show image api rows outcomes) (λ cs. ok ((c, k) ∷ cs)))
    else sort_table show image api rows outcomes

-- `classify_fault`, with each category's operations in the order in which they were classified
unfoldable pub classify_fault :
    (ℕ → String) → (Key → List Found) → List Value → Result (List (Category × Key))
unfolding see_all sort_table
classify_fault show image events = do
  s ← see_all events (record { rows = []; outcomes = [] })
  main ← sort_table show image "main_ops" s.rows s.outcomes
  aux ← sort_table show image "aux_ops" s.rows s.outcomes
  ok (main ++ aux)
