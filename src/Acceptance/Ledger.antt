-- ===== src/Acceptance/Ledger.antt =====
-- hat/recovery.py: `_canonical_id` and `fault_operations`, the operations of a closed fault ledger. The
-- digits of a time stamp (`_safe_utc`) are ASCII digits.
use Prim.Native.String.{◌++◌ as append}
use highly_available_trailba.Prelude.{
  ℕ, ◌+◌, ◌-◌, ◌*◌, ◌^◌, Bool, false, ◌&&◌, ◌||◌, not, String, List, [], ◌∷◌, map, Option, none,
  some, nat_eq, string_eq, pair_eq, all, length, ltb, leb, Result, ok, raise, raise_if, Exc,
  value_error, type_error, if◌then◌else◌, bind,
}
use highly_available_trailba.Fallible.{◌>>=◌, ◌>>◌}
use highly_available_trailba.Py.Value.{
  Value, str, int, arr, items, has_keys, get, is_text, is_str, is_dict,
}
use highly_available_trailba.Py.Text.{codes, is_digit, is_epoch_upto}
use highly_available_trailba.Py.Access.{is_hashable, recast}
use highly_available_trailba.Py.Sorting.{sorted}
use highly_available_trailba.Ledger.Records.{
  Kind, acknowledged, kind_of, is_submission, is_acknowledged, Key, Event, api_of, op_key_of,
  is_short, is_positive, is_utc, need,
}
use highly_available_trailba.Ledger.Tally.{Tally, empty_tally, bump, has_row, matches}
use highly_available_trailba.Ledger.Read.{ends_of, is_run_id, counts_match, same_keys}

abbrev pub invalid_ledger : Exc
invalid_ledger = value_error "invalid closed fault ledger"

abbrev pub invalid_event : Exc
invalid_event = value_error "invalid fault event"

-- `int(s)` of digits
unfoldable pub decimal : ℕ → List ℕ → ℕ
decimal n [] = n
decimal n (c ∷ cs) = decimal (n * 10 + (c - b'0')) cs

unfoldable pub canonical_digits : List ℕ → Bool
unfolding decimal is_digit
canonical_digits [] = false
canonical_digits (c ∷ cs) =
    leb b'1' c
    && leb c b'9'
    && leb (length cs) 18
    && all is_digit cs
    && ltb (decimal 0 (c ∷ cs)) (2 ^ 63)

-- `_canonical_id(v)` does not raise
unfoldable pub is_canonical_id : Value → Bool
unfolding canonical_digits
is_canonical_id (int n) = ltb 0 n && ltb n (2 ^ 63)
is_canonical_id (str s) = canonical_digits (codes s)
is_canonical_id v = false

unfoldable pub is_fault_start : Value → Bool
unfolding has_keys get is_text is_str is_run_id is_epoch_upto is_positive is_utc
is_fault_start v =
    has_keys ("event" ∷ "run_id" ∷ "source_epoch" ∷ "time_ns" ∷ "utc" ∷ []) v
    && is_text "start" (get v "event")
    && is_str is_run_id (get v "run_id")
    && is_str (is_epoch_upto 125) (get v "source_epoch")
    && is_positive (get v "time_ns")
    && is_str is_utc (get v "utc")

unfoldable pub number_of : Value → ℕ
number_of (int n) = n
number_of v = 0

-- `type(v) is int and v > previous`
unfoldable pub is_after : ℕ → Value → Bool
is_after previous (int n) = ltb previous n
is_after previous v = false

abbrev fault_event_keys : Kind → List String
fault_event_keys acknowledged = "event" ∷ "api" ∷ "row" ∷ "time_ns" ∷ "id" ∷ []
fault_event_keys k = "event" ∷ "api" ∷ "row" ∷ "time_ns" ∷ []

abbrev event_from : Kind → String → String → Value → Value → Event
event_from k a o r i = record { kind = k; key = (a, o); row = r; id = i }

-- the row of an event of this kind and this table
unfoldable pub fault_row : Value → Kind → String → Result Event
unfolding has_keys get op_key_of is_str is_short
fault_row v kind api = do
  raise_if (not (has_keys ("op_key" ∷ "payload" ∷ []) (get v "row"))) invalid_event
  op ← need (op_key_of (get (get v "row") "op_key")) invalid_event
  raise_if (not (is_str is_short (get (get v "row") "payload"))) invalid_event
  ok (event_from kind api op (get v "row") (get v "id"))

-- one event of the loop, after an event of this time
unfoldable pub fault_event : ℕ → Value → Result Event
unfolding is_dict is_hashable get kind_of has_keys api_of is_after fault_row
fault_event previous v = do
  raise_if (not (is_dict v)) invalid_event
  raise_if (not (is_hashable (get v "event"))) (type_error "unhashable type")
  kind ← need (kind_of (get v "event")) invalid_event
  raise_if (not (has_keys (fault_event_keys kind) v)) invalid_event
  api ← need (api_of (get v "api")) invalid_event
  raise_if (not (is_after previous (get v "time_ns"))) invalid_event
  fault_row v kind api

abbrev pub submit : Event → Tally → Tally
submit e t = record t { rows = (e.key, e.row) ∷ t.rows; counts = bump e.kind t.counts }

abbrev pub settle : Event → Tally → Tally
settle e t = record t { outcomes = e.key ∷ t.outcomes; counts = bump e.kind t.counts }

unfoldable pub take_fault : Event → Tally → Result Tally
unfolding is_submission has_row matches is_acknowledged is_canonical_id
take_fault e t =
    if is_submission e.kind
    then if has_row e.key t.rows || leb 1000 (length t.rows)
      then raise (value_error "duplicate or excessive fault submission")
      else ok (submit e t)
    else if not (matches e t)
    then raise (value_error "invalid fault outcome ordering")
    else if is_acknowledged e.kind && not (is_canonical_id e.id)
    then raise (value_error "invalid record identity")
    else ok (settle e t)

-- What the loop has read: its events, its tally, and the time of the last event.
pub record Faults : Type 0 where
  pub events : List Event
  pub tally : Tally
  pub previous : ℕ

abbrev pub faults_from : List Event → Tally → ℕ → Faults
faults_from es t n = record { events = es; tally = t; previous = n }

unfoldable pub read_faults : List Value → Tally → ℕ → Result Faults
unfolding fault_event take_fault number_of get
read_faults [] t n = ok (faults_from [] t n)
read_faults (v ∷ vs) t n = bind (fault_event n v) (λ e. bind (take_fault e t) (λ u.
    bind (read_faults vs u (number_of (get v "time_ns")))
      (λ (r : Faults). ok (faults_from (e ∷ r.events) r.tally r.previous))))

unfoldable pub is_fault_stop : ℕ → Value → Bool
unfolding has_keys get is_text is_after is_str is_utc
is_fault_stop previous v =
    has_keys
      ("event" ∷ "submitted" ∷ "acknowledged" ∷ "rejected" ∷ "uncertain" ∷ "time_ns" ∷ "utc" ∷ []) v
    && is_text "stop" (get v "event")
    && is_after previous (get v "time_ns")
    && is_str is_utc (get v "utc")

-- the ends of the ledger, dicts both
unfoldable pub ends_of_ledger : Value → Option (Value × List Value × Value)
unfolding items ends_of is_dict
ends_of_ledger (arr vs) =
    if leb (length (items vs)) 2002
    then elim (ends_of (items vs)) [
      | none ↦ none
      | some (start, rows, stop) ↦
          if is_dict start && is_dict stop then some (start, rows, stop) else none
    ]
    else none
ends_of_ledger v = none

-- the loop and what follows it, between the two ends
unfoldable pub read_between : Value × List Value × Value → Result Faults
unfolding is_fault_start read_faults number_of get is_fault_stop counts_match same_keys
read_between (start, rows, stop) = do
  raise_if (not (is_fault_start start)) invalid_ledger
  r ← read_faults rows empty_tally (number_of (get start "time_ns"))
  raise_if (not (is_fault_stop r.previous stop)) (value_error "invalid fault stop")
  raise_if (not (counts_match stop r.tally.counts && same_keys r.tally))
      (value_error "incomplete fault ledger")
  ok r

unfoldable pub fault_ledger : Value → Result Faults
unfolding ends_of_ledger read_between recast
fault_ledger events =
    recast "invalid closed fault ledger"
      (bind (need (ends_of_ledger events) invalid_ledger) read_between)

-- `api+'/'+key`
abbrev pub operation_name : Key → String
operation_name k = append k.0 (append "/" k.1)

abbrev pub names : List (Key × Value) → List String
names rows = map (λ (r : Key × Value). operation_name r.0) rows

unfoldable pub fault_operations : Value → Result (List String)
unfolding fault_ledger sorted
fault_operations events =
    bind (fault_ledger events) (λ (r : Faults). ok (sorted (names r.tally.rows)))
