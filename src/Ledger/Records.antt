-- ===== src/Ledger/Records.antt =====
-- hat/client.py: the records of a ledger, line by line (`_stamp`, `_valid_id`, and the tests of
-- `read_closed_ledger` on one event).
use highly_available_trailba.Prelude.{
  ℕ, suc, ◌+◌, ◌-◌, ◌*◌, ◌%◌, ◌^◌, Bool, true, false, ◌&&◌, ◌||◌, not, String, List, [], ◌∷◌,
  Option, none, some, ◌==◌, nat_eq, string_eq, all, length, leb, ltb, Result, ok, raise, raise_if,
  Exc, value_error, if◌then◌else◌, take, drop,
}
use highly_available_trailba.Fallible.{◌>>=◌, ◌>>◌}
use highly_available_trailba.Py.Value.{Value, str, int, has_keys, get, is_str}
use highly_available_trailba.Py.Text.{codes, is_digit, is_op_key}

pub data Kind : Type 0 where
  submitted acknowledged rejected uncertain : Kind

-- `counters`
unfoldable pub kind_of : Value → Option Kind
kind_of (str s) =
    if s == "submitted"
    then some submitted
    else if s == "acknowledged"
    then some acknowledged
    else if s == "rejected"
    then some rejected
    else if s == "uncertain"
    then some uncertain
    else none
kind_of v = none

unfoldable pub is_submission : Kind → Bool
is_submission submitted = true
is_submission k = false

unfoldable pub is_acknowledged : Kind → Bool
is_acknowledged acknowledged = true
is_acknowledged k = false

-- api and op_key
abbrev pub Key : Type 0
Key = String × String

pub record Event : Type 0 where
  pub kind : Kind
  pub key : Key
  pub row : Value
  pub id : Value

abbrev event_from : Kind → String → String → Value → Value → Event
event_from k a o r i = record { kind = k; key = (a, o); row = r; id = i }

-- `int(s)` of digits
decimal : ℕ → List ℕ → ℕ
decimal n [] = n
decimal n (c ∷ cs) = decimal (n * 10 + (c - b'0')) cs

-- `_valid_id`
unfoldable pub is_valid_id : Value → Bool
unfolding decimal is_digit
is_valid_id (int n) = ltb 0 n && ltb n (2 ^ 63)
is_valid_id (str s) =
    leb 1 (length (codes s))
    && leb (length (codes s)) 19
    && all is_digit (codes s)
    && ltb 0 (decimal 0 (codes s))
    && ltb (decimal 0 (codes s)) (2 ^ 63)
is_valid_id v = false

is_leap : ℕ → Bool
is_leap y = y % 4 == 0 && (not (y % 100 == 0) || y % 400 == 0)

month_days : ℕ → ℕ → ℕ
month_days y m =
    if m == 2
    then if is_leap y then 29 else 28
    else if m == 4 || m == 6 || m == 9 || m == 11
    then 30
    else 31

is_date : ℕ → ℕ → ℕ → Bool
is_date y m d = leb 1 y && leb 1 m && leb m 12 && leb 1 d && leb d (month_days y m)

is_time : ℕ → ℕ → ℕ → Bool
is_time h m s = ltb h 24 && ltb m 60 && ltb s 60

-- `n` digits and a mark
digits_then : ℕ → ℕ → List ℕ → Option (ℕ × List ℕ)
digits_then n mark cs = elim (drop n cs) [
  | [] ↦ none
  | c ∷ rest ↦
      if all is_digit (take n cs) && c == mark then some (decimal 0 (take n cs), rest) else none
]

-- a text in the form 2026-01-31T23:59:59Z, and a time that exists
unfoldable pub is_utc : String → Bool
unfolding digits_then is_date is_time month_days is_leap decimal is_digit
is_utc s = elim (digits_then 4 b'-' (codes s)) [
  | none ↦ false
  | some (y, r1) ↦ elim (digits_then 2 b'-' r1) [
    | none ↦ false
    | some (mo, r2) ↦ elim (digits_then 2 b'T' r2) [
      | none ↦ false
      | some (d, r3) ↦ elim (digits_then 2 b':' r3) [
        | none ↦ false
        | some (h, r4) ↦ elim (digits_then 2 b':' r4) [
          | none ↦ false
          | some (mi, r5) ↦ elim (digits_then 2 b'Z' r5) [
            | none ↦ false
            | some (se, r6) ↦ length r6 == 0 && is_date y mo d && is_time h mi se
          ]
        ]
      ]
    ]
  ]
]

unfoldable pub is_positive : Value → Bool
is_positive (int (suc n)) = true
is_positive v = false

-- `_stamp` of a marker, which has a `utc`
unfoldable pub is_stamped : Value → Bool
unfolding get is_positive is_str is_utc
is_stamped v = is_positive (get v "time_ns") && is_str is_utc (get v "utc")

abbrev pub invalid_event : Exc
invalid_event = value_error "invalid event"

abbrev pub need {ℓ} : {A : Type ℓ} → Option A → Exc → Result A
need none e = raise e
need (some a) e = ok a

unfoldable pub api_of : Value → Option String
api_of (str s) = if s == "main_ops" || s == "aux_ops" then some s else none
api_of v = none

unfoldable pub op_key_of : Value → Option String
unfolding is_op_key
op_key_of (str s) = if is_op_key s then some s else none
op_key_of v = none

unfoldable pub is_short : String → Bool
is_short s = leb (length (codes s)) 4096

abbrev event_keys : Kind → List String
event_keys acknowledged = "event" ∷ "api" ∷ "row" ∷ "time_ns" ∷ "id" ∷ []
event_keys k = "event" ∷ "api" ∷ "row" ∷ "time_ns" ∷ []

-- the tests of `read_closed_ledger` on one event, up to its time stamp
unfoldable pub event_of : Value → Result Event
unfolding kind_of api_of op_key_of is_positive has_keys get is_str is_short
event_of v = do
  kind ← need (kind_of (get v "event")) invalid_event
  raise_if (not (has_keys (event_keys kind) v)) (value_error "invalid event shape")
  api ← need (api_of (get v "api")) (value_error "invalid event shape")
  raise_if (not (has_keys ("op_key" ∷ "payload" ∷ []) (get v "row")))
      (value_error "invalid operation row")
  op ← need (op_key_of (get (get v "row") "op_key")) (value_error "invalid operation row")
  raise_if (not (is_str is_short (get (get v "row") "payload")))
      (value_error "invalid operation row")
  raise_if (not (is_positive (get v "time_ns"))) (value_error "invalid timestamp")
  ok (event_from kind api op (get v "row") (get v "id"))
