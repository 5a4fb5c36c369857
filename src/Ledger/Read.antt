-- ===== src/Ledger/Read.antt =====
-- hat/client.py: `read_closed_ledger`, on the bytes of a ledger. `parse` is `_json_object`: the JSON
-- object that a line is, without repeated keys.
use highly_available_trailba.Prelude.{
  ℕ, ◌+◌, ◌*◌, Bool, true, false, ◌&&◌, not, String, List, [], ◌∷◌, ◌++◌, Option, none, some, ◌==◌,
  nat_eq, string_eq, pair_eq, all, length, leb, Result, ok, raise, raise_if, Exc, value_error,
  if◌then◌else◌, bind,
}
use highly_available_trailba.Fallible.{◌>>=◌, ◌>>◌}
use highly_available_trailba.Py.Value.{Value, int, has_keys, get, is_str, is_text}
use highly_available_trailba.Py.Text.{codes, is_epoch, is_hex}
use highly_available_trailba.Ledger.Records.{Event, Key, event_of, is_stamped}
use highly_available_trailba.Ledger.Tally.{
  Tally, Counts, empty_tally, take_event, has_row, has_outcome,
}

-- `raw.splitlines()`; `cr` says that the last byte was a carriage return
lines_from : Bool → List ℕ → List ℕ → List (List ℕ)
lines_from cr [] [] = []
lines_from cr (b ∷ bs) [] = (b ∷ bs) ∷ []
lines_from cr line (c ∷ cs) =
    let more = lines_from false (line ++ c ∷ []) cs in
    let after_lf = lines_from false [] cs in
    let after_cr = lines_from true [] cs in
    if c == 10
    then if cr then after_lf else line ∷ after_lf
    else if c == 13
    then line ∷ after_cr
    else more

unfoldable pub split_lines : List ℕ → List (List ℕ)
unfolding lines_from
split_lines raw = lines_from false [] raw

-- `raw.endswith(b'\n')`
unfoldable pub ends_line : List ℕ → Bool
ends_line [] = false
ends_line (c ∷ []) = c == 10
ends_line (c ∷ d ∷ cs) = ends_line (d ∷ cs)

-- 4 << 20
abbrev pub max_ledger : ℕ
max_ledger = 4194304

abbrev pub max_submissions : ℕ
max_submissions = 1000

-- `d3-[0-9a-f]{32}`
run_code : List ℕ → Bool
run_code (a ∷ b ∷ c ∷ rest) =
    a == b'd' && b == b'3' && c == b'-' && length rest == 32 && all is_hex rest
run_code _ = false

unfoldable pub is_run_id : String → Bool
unfolding run_code
is_run_id s = run_code (codes s)

unfoldable pub is_start : Value → String → Bool
unfolding has_keys get is_text is_str is_run_id
is_start v epoch =
    has_keys ("event" ∷ "run_id" ∷ "source_epoch" ∷ "time_ns" ∷ "utc" ∷ []) v
    && is_text "start" (get v "event")
    && is_str is_run_id (get v "run_id")
    && is_text epoch (get v "source_epoch")

unfoldable pub is_stop : Value → Bool
unfolding has_keys get is_text
is_stop v =
    has_keys
      ("event" ∷ "time_ns" ∷ "utc" ∷ "submitted" ∷ "acknowledged" ∷ "rejected" ∷ "uncertain" ∷ []) v
    && is_text "stop" (get v "event")

inner : Value → List Value → List Value
inner v [] = []
inner v (w ∷ ws) = v ∷ inner w ws

last : Value → List Value → Value
last v [] = v
last v (w ∷ ws) = last w ws

-- the first row, the rows between, and the last one
unfoldable pub ends_of : List Value → Option (Value × List Value × Value)
unfolding inner last
ends_of [] = none
ends_of (v ∷ []) = none
ends_of (v ∷ w ∷ ws) = some (v, inner w ws, last w ws)

unfoldable pub parse_all : (List ℕ → Result Value) → List (List ℕ) → Result (List Value)
parse_all parse [] = ok []
parse_all parse (l ∷ ls) = bind (parse l) (λ v. bind (parse_all parse ls) (λ vs. ok (v ∷ vs)))

-- the loop over the rows between the markers, with the events that it has read
unfoldable pub loop : List Value → Tally → Result (List Event × Tally)
unfolding take_event
loop [] t = ok ([], t)
loop (v ∷ vs) t =
    bind (event_of v) (λ e. bind (take_event e t) (λ u. bind (loop vs u) (λ r. ok (e ∷ r.0, r.1))))

-- `type(v) is int and v == n`
unfoldable pub is_number : ℕ → Value → Bool
is_number n (int m) = m == n
is_number n v = false

unfoldable pub counts_match : Value → Counts → Bool
unfolding get is_number
counts_match stop c =
    is_number c.submissions (get stop "submitted")
    && is_number c.acknowledgements (get stop "acknowledged")
    && is_number c.rejections (get stop "rejected")
    && is_number c.uncertainties (get stop "uncertain")

-- `set(submitted) == outcomes`
unfoldable pub same_keys : Tally → Bool
unfolding has_row has_outcome
same_keys t =
    all (λ (r : Key × Value). has_outcome r.0 t.outcomes) t.rows
    && all (λ k. has_row k t.rows) t.outcomes

unfoldable pub is_complete : Value → Tally → Bool
unfolding same_keys counts_match
is_complete stop t =
    same_keys t && leb (length t.rows) max_submissions && counts_match stop t.counts

abbrev pub incomplete : Exc
incomplete = value_error "incomplete or oversized ledger"

-- the end of `read_closed_ledger`: what the loop has counted is complete
unfoldable pub closed : Value → List Event × Tally → Result (List Event)
unfolding is_complete
closed stop r =
    if is_complete stop r.1
    then ok r.0
    else raise (value_error "incomplete outcomes or inconsistent counters")

unfoldable pub read_events : Value → List Value → Result (List Event)
unfolding loop closed
read_events stop rows = bind (loop rows empty_tally) (closed stop)

unfoldable pub marked : String → Value × List Value × Value → Result (List Event)
unfolding is_start is_stop is_stamped read_events
marked epoch (start, rows, stop) = do
  raise_if (not (is_start start epoch && is_stop stop))
      (value_error "invalid or mismatched ledger markers")
  raise_if (not (is_stamped start && is_stamped stop)) (value_error "invalid timestamp")
  read_events stop rows

unfoldable pub with_ends : String → Option (Value × List Value × Value) → Result (List Event)
with_ends epoch none = raise incomplete
with_ends epoch (some e) = marked epoch e

unfoldable pub is_line : List ℕ → Bool
is_line l = leb 1 (length l) && leb (length l) 8192

-- the tests on the bytes and the lines
unfoldable pub framed : String → List ℕ → Result (Unit {0})
unfolding is_epoch ends_line split_lines is_line
framed epoch raw = do
  raise_if (not (is_epoch epoch)) (value_error "invalid expected epoch")
  raise_if (not (leb (length raw) max_ledger && ends_line raw)) incomplete
  raise_if
      (not (
        leb 2 (length (split_lines raw))
        && leb (length (split_lines raw)) (2 * max_submissions + 2)))
      incomplete
  raise_if (not (all is_line (split_lines raw))) (value_error "invalid ledger line")

unfoldable pub read_closed_ledger : (List ℕ → Result Value) → String → List ℕ → Result (List Event)
unfolding framed parse_all with_ends ends_of split_lines
read_closed_ledger parse epoch raw = do
  framed epoch raw
  rows ← parse_all parse (split_lines raw)
  with_ends epoch (ends_of rows)
