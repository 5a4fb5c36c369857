-- ===== src/Acceptance/Results.antt =====
-- hat/recovery.py: `validate_acceptance_result`.
pub mod Passed
use highly_available_trailba.Prelude.{
  ℕ, ◌≡◌, Bool, true, false, ◌&&◌, ◌||◌, not, String, List, [], ◌∷◌, Option, none, some, ◌==◌,
  nat_eq, string_eq, Result, ok, raise, raise_if, Exc, value_error, if◌then◌else◌, bind,
}
use highly_available_trailba.Fallible.{◌>>=◌, ◌>>◌}
use highly_available_trailba.Py.Value.{
  Value, str, int, neg, obj, end, field, has_keys, get, item, is_text, py_eq,
}
use highly_available_trailba.Py.Access.{hex64, keys_are, recast}
use highly_available_trailba.Node.Positions.{dbs}
use highly_available_trailba.Acceptance.Requests.{
  texts_in, recovery, digest_of, validate_acceptance_request,
}
use highly_available_trailba.Acceptance.Outcomes.{
  Outcomes, outcomes_of, are_complete, validate_fault_outcomes,
}

abbrev result_keys : List String
result_keys = "schema" ∷ "request" ∷ "request_sha256" ∷ "databases" ∷ "signature" ∷ "checks" ∷ []

abbrev pub invalid_result : Exc
invalid_result = value_error "invalid restore acceptance result"

-- `type(v) is int`
unfoldable pub is_int : Value → Bool
is_int (int n) = true
is_int (neg n) = true
is_int v = false

-- `item`'s position, against the request's
unfoldable pub same_position : Value → Value → Bool
unfolding is_int py_eq
same_position position asked = is_int position && py_eq position asked

unfoldable pub passes : Value → Result Bool
unfolding item is_text
passes database = do
  integrity ← item database "integrity"
  foreign_keys ← item database "foreign_keys"
  ok (is_text "PASS" integrity && is_text "PASS" foreign_keys)

-- one database of a result, against the positions of its request
unfoldable pub check_database : Value → Value → String → Result (Unit {0})
unfolding item keys_are same_position hex64 passes
check_database result positions db = do
  databases ← item result "databases"
  database ← item databases db
  named ← keys_are ("position" ∷ "sha256" ∷ "integrity" ∷ "foreign_keys" ∷ []) database
  raise_if (not named) (value_error "invalid restore database result")
  position ← item database "position"
  asked ← item positions db
  raise_if (not (same_position position asked)) (value_error "invalid restore database result")
  digest ← bind (item database "sha256") hex64
  raise_if (not digest) (value_error "invalid restore database result")
  passed ← passes database
  raise_if (not passed) (value_error "invalid restore database result")
  signature ← item result "signature"
  signed ← bind (item signature db) hex64
  raise_if (not signed) (value_error "invalid restore signature")

unfoldable pub check_databases : Value → Value → List String → Result (Unit {0})
unfolding check_database
check_databases result positions [] = ok tt
check_databases result positions (db ∷ rest) =
    bind (check_database result positions db) (λ _. check_databases result positions rest)

-- `validate_fault_outcomes`, if there are events to hold the outcomes against
unfoldable pub against : Option Value → Value → Result (Unit {0})
unfolding validate_fault_outcomes
against none outcomes = ok tt
against (some events) outcomes = bind (validate_fault_outcomes outcomes events) (λ _. ok tt)

unfoldable pub are_passed : Value → Bool
unfolding is_text get
are_passed checks =
    is_text "PASS" (get checks "records") && is_text "PASS" (get checks "authentication")

-- the texts of a list that was accepted in a request
unfoldable pub expected_of : Value → List String
unfolding texts_in
expected_of v = elim (texts_in v) [ none ↦ [] | some ops ↦ ops ]

-- the checks of a comparison after a fault, against the request's operations
unfoldable pub check_recovery : Value → Value → Option Value → Result (Unit {0})
unfolding keys_are item is_text outcomes_of are_complete expected_of against are_passed get
check_recovery checks request events = do
  named ←
      keys_are ("records" ∷ "authentication" ∷ "fault_outcomes" ∷ "acknowledged_loss" ∷ []) checks
  raise_if (not named) (value_error "invalid recovery restore checks")
  loss ← item checks "acknowledged_loss"
  raise_if (not (is_text "NONE" loss)) (value_error "invalid recovery restore checks")
  outcomes ← item checks "fault_outcomes"
  o ← outcomes_of outcomes (value_error "invalid recovery fault outcomes")
  raise_if (not (are_complete o (expected_of (get (get request "inputs") "fault_operations"))))
      (value_error "invalid recovery fault outcome binding")
  against events outcomes
  raise_if (not (are_passed checks)) (value_error "invalid restore checks")

abbrev pub plain_checks : Value
plain_checks = obj (field "records" (str "PASS") (field "authentication" (str "PASS") end))

unfoldable pub check_checks : Value → Value → Option Value → Result (Unit {0})
unfolding check_recovery is_text py_eq get
check_checks checks request events =
    if is_text recovery (get request "profile")
    then check_recovery checks request events
    else raise_if (not (py_eq checks plain_checks)) (value_error "invalid restore checks")

-- what a result says of its request, up to the digest
unfoldable pub is_result : Value → Value → Bool
unfolding has_keys is_text get py_eq
is_result result request =
    has_keys result_keys result
    && is_text "hat-restore-acceptance-1" (get result "schema")
    && py_eq (get result "request") request

module _ (canonical : Value → Result (List ℕ)) (sha256 : List ℕ → String) (root : List String) where
  -- `_validate_acceptance_result`
  unfoldable pub check_result : Value → Value → Value → Option Value → Result Value
  unfolding validate_acceptance_request is_result digest_of is_text keys_are item check_databases
      check_checks get
  check_result result request operation events = do
    accepted ← validate_acceptance_request canonical sha256 root request operation
    raise_if (not (is_result result request)) invalid_result
    digest ← digest_of canonical sha256 request
    raise_if (not (is_text digest (get result "request_sha256"))) invalid_result
    named ← keys_are dbs (get result "databases")
    raise_if (not named) (value_error "invalid restore result databases")
    signed ← keys_are dbs (get result "signature")
    raise_if (not signed) (value_error "invalid restore result databases")
    check_databases result (get request "positions") dbs
    check_checks (get result "checks") request events
    ok result

  unfoldable pub validate_acceptance_result : Value → Value → Value → Option Value → Result Value
  unfolding check_result recast
  validate_acceptance_result result request operation events =
      recast "invalid restore acceptance result" (check_result result request operation events)
