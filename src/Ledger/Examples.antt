-- ===== src/Ledger/Examples.antt =====
-- A ledger of one operation, and the theorem at it.
use highly_available_trailba.Prelude.{
  ℕ, ◌≤◌, ◌≡◌, refl, List, [], ◌∷◌, Result, ok, raise, value_error, pair_beq, if◌then◌else◌, ◌==◌,
  nat_eq,
}
use highly_available_trailba.Py.Value.{Value, str, int, obj, dict}
use highly_available_trailba.Py.Text.{is_hex}
use highly_available_trailba.Ledger.Records.{
  Event, Key, submitted, acknowledged, is_submission, event_of, is_utc, is_stamped,
}
use highly_available_trailba.Ledger.Tally.{count_of, is_outcome, take_event, bump}
use highly_available_trailba.Ledger.Read.{
  read_closed_ledger, framed, split_lines, loop, marked, closed, is_start, is_stop,
}
use highly_available_trailba.Ledger.Closed.{read_closed_ledger-IsClosed}

abbrev row : Value
row = obj (dict (("op_key", str "d3-1") ∷ ("payload", str "D3 fault main_ops") ∷ []))

abbrev start : Value
start = obj (
    dict (
      ("event", str "start")
      ∷ ("run_id", str "d3-0123456789abcdef0123456789abcdef")
      ∷ ("source_epoch", str "d1-a")
      ∷ ("time_ns", int 1)
      ∷ ("utc", str "2026-01-31T23:59:59Z")
      ∷ []))

abbrev stop : Value
stop = obj (
    dict (
      ("event", str "stop")
      ∷ ("submitted", int 1)
      ∷ ("acknowledged", int 1)
      ∷ ("rejected", int 0)
      ∷ ("uncertain", int 0)
      ∷ ("time_ns", int 4)
      ∷ ("utc", str "2026-01-31T23:59:59Z")
      ∷ []))

abbrev submission : Value
submission = obj (
    dict (
      ("event", str "submitted")
      ∷ ("api", str "main_ops")
      ∷ ("row", row)
      ∷ ("time_ns", int 2)
      ∷ []))

abbrev acknowledgement : Value
acknowledgement = obj (
    dict (
      ("event", str "acknowledged")
      ∷ ("api", str "main_ops")
      ∷ ("row", row)
      ∷ ("time_ns", int 3)
      ∷ ("id", str "17")
      ∷ []))

-- a parser of lines of one letter
abbrev parse : List ℕ → Result Value
parse (c ∷ cs) =
    if c == b'a'
    then ok start
    else if c == b'b'
    then ok submission
    else if c == b'c'
    then ok acknowledgement
    else ok stop
parse [] = raise (value_error "no line")

abbrev raw : List ℕ
raw = b'a' ∷ 10 ∷ b'b' ∷ 10 ∷ b'c' ∷ 13 ∷ 10 ∷ b'd' ∷ 10 ∷ []

abbrev key : Key
key = ("main_ops", "d3-1")

abbrev events : List Event
events =
    record { kind = submitted; key = key; row = row; id = Value.null }
    ∷ record { kind = acknowledged; key = key; row = row; id = str "17" }
    ∷ []

raw_ok : read_closed_ledger parse "d1-a" raw ≡ ok events
unfolding read_closed_ledger framed split_lines loop marked is_start is_stop is_stamped is_utc
    event_of take_event closed is_hex pair_beq bump
raw_ok = refl

read_closed_ledger-IsClosed_example :
    (count_of is_submission key events ≤ 1)
    × (count_of is_submission key events ≡ count_of is_outcome key events)
read_closed_ledger-IsClosed_example = read_closed_ledger-IsClosed parse "d1-a" raw raw_ok key
