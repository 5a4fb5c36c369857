-- ===== src/Control/Accept.antt =====
-- hat/control.py: `accept_comparison` and `accept_verification`, which complete a pending phase from the
-- results of restores (hat/recovery.py). Canonical JSON and SHA-256 are the arguments `canonical` and
-- `sha256`.
pub mod Resumed
pub mod Proven
pub mod Examples
use highly_available_trailba.Prelude.{
  ℕ, ◌≡◌, Bool, true, false, ◌&&◌, ◌||◌, not, String, List, [], ◌∷◌, Option, none, some, ◌==◌,
  nat_eq, string_eq, leb, Result, ok, raise, raise_if, Exc, value_error, key_error, type_error,
  attribute_error, if◌then◌else◌, bind,
}
use highly_available_trailba.Fallible
use highly_available_trailba.Fallible.{◌>>=◌, ◌>>◌}
use highly_available_trailba.Exec
use highly_available_trailba.Exec.{Exec, lift}
use highly_available_trailba.Py.Value.{
  Value, bool, int, neg, str, obj, dict, Fields, end, field, has_keys, get, item, is_text, is_dict,
  py_eq, as_number,
}
use highly_available_trailba.Py.Access.{get_of}
use highly_available_trailba.Control.Phases.{done}
use highly_available_trailba.Control.Rows.{Operation, Db, dumps, insert_step}
use highly_available_trailba.Control.State.{State, transact}
use highly_available_trailba.Control.Journal.{comparison_boundary, verification_boundary, resume}
use highly_available_trailba.Control.Journal.Outcomes.{step_row}
use highly_available_trailba.Transition.Requests.{validate_cut}
use highly_available_trailba.Acceptance.Results.{validate_acceptance_result}

-- `dict(zip(('id','source','target','source_epoch','new_epoch'),row[:5]))`
unfoldable pub operation_value : Operation → Value
operation_value o = obj (
    dict (
      ("id", str o.id)
      ∷ ("source", str o.source)
      ∷ ("target", str o.target)
      ∷ ("source_epoch", str o.source_epoch)
      ∷ ("new_epoch", str o.new_epoch)
      ∷ []))

-- CONTROLLER_ROOT, by its parts
abbrev pub controller_root : List String
controller_root = "var" ∷ "lib" ∷ "hat-control" ∷ []

-- `previous[phase]`
unfoldable pub evidence_for : String → List (String × Value) → Result Value
evidence_for phase [] = raise (key_error phase)
evidence_for phase ((p, v) ∷ rest) = elim (p == phase) [
  | true ↦ ok v
  | false ↦ evidence_for phase rest
]

-- `INSERT INTO steps VALUES(ident, position, phase, 'done', json.dumps(result, allow_nan=False))`
unfoldable pub write_done : Operation → ℕ → String → Value → Db → Result Db
unfolding dumps insert_step
write_done o position phase result db =
    bind (dumps result) (λ e. insert_step (step_row o position phase done e) db)

-- what is written and set when the evidence of a pending phase is accepted
unfoldable pub settle : Operation → ℕ → ℕ → String → Value → Exec State (Unit {0})
unfolding transact write_done resume
settle o position next phase result =
    Exec.◌>>◌ (transact (write_done o position phase result)) (resume (some o) next)

-- a request of one of the two restores of a verification: what it is bound to
unfoldable pub is_request_for : Operation → String → String → Value → Bool
unfolding is_text get
is_request_for o phase profile request =
    is_text phase (get request "phase")
    && is_text o.source (get request "source")
    && is_text o.target (get request "target")
    && is_text profile (get request "profile")
    && is_text o.new_epoch (get request "epoch")

-- `a <= b` of two numbers
unfoldable pub number_le : Value → Value → Result Bool
unfolding as_number
number_le (int a) (int b) = ok (leb a b)
number_le (int a) (neg b) = ok false
number_le (int a) (bool b) = ok (leb a (as_number b))
number_le a b = raise (type_error "'<=' not supported")

-- `any(result['positions'][db]<=pos for db,pos in expected_positions.items())`
unfoldable pub any_behind : Value → Fields → Result Bool
unfolding item number_le
any_behind positions end = ok false
any_behind positions (field db pos rest) = Fallible.◌>>=◌ (item positions db) (λ new.
    Fallible.◌>>=◌ (number_le new pos)
      (λ behind. elim behind [ true ↦ ok true | false ↦ any_behind positions rest ]))

unfoldable pub behind : Value → Value → Result Bool
unfolding any_behind
behind positions (obj fs) = any_behind positions fs
behind positions v = raise (attribute_error "no attribute 'items'")

abbrev unreconciled : Exc
unreconciled = value_error "verification evidence does not reconcile baseline and fresh writes"

unfoldable pub has_request : Value → Bool
unfolding is_dict get
has_request v = is_dict v && is_dict (get v "request")

-- the restore of the plan's baseline, once it is accepted again
unfoldable pub is_rechecked : Operation → Value → Value → Value → Bool
unfolding is_request_for is_text get py_eq
is_rechecked o result baseline positions =
    is_text "B" (get result "writer")
    && is_text o.new_epoch (get result "epoch")
    && is_request_for o "verification-baseline" "baseline" (get baseline "request")
    && py_eq (get (get baseline "request") "positions") positions

-- the restore of the new writes, once it is accepted
unfoldable pub are_new_writes : Operation → Value → Value → Value → Value → Bool
unfolding is_request_for get py_eq
are_new_writes o result baseline fresh signature =
    py_eq (get baseline "signature") signature
    && is_request_for o "new-writes" "fresh-writes" (get fresh "request")
    && py_eq (get (get fresh "request") "positions") (get result "positions")

abbrev pub unmatched : Exc
unmatched = value_error "reconciled comparison does not match frozen cut"

-- a result's signature and checks
unfoldable pub is_matched : Value → Value → Bool
unfolding py_eq is_text get
is_matched result signature =
    py_eq (get result "signature") signature
    && is_text "PASS" (get (get result "checks") "records")
    && is_text "PASS" (get (get result "checks") "authentication")

module _ (canonical : Value → Result (List ℕ)) (sha256 : List ℕ → String) where
  abbrev pub validated : Operation → Value → Value → Result Value
  validated o result request =
      validate_acceptance_result canonical sha256 controller_root result request (operation_value o)
        none

  -- the tests of `accept_comparison`
  unfoldable pub check_comparison : Operation → List (String × Value) → Value → Result (Unit {0})
  unfolding get_of validate_acceptance_result operation_value evidence_for item py_eq is_matched get
  check_comparison o previous result = do
    request ← get_of result "request"
    accepted ← validated o result request
    frozen ← evidence_for "freeze" previous
    cut ← item frozen "cut"
    raise_if (not (py_eq (get request "positions") cut)) unmatched
    signature ← item frozen "signature"
    raise_if (not (is_matched result signature)) unmatched

  unfoldable pub accept_comparison : String → Value → Exec State (Unit {0})
  unfolding comparison_boundary check_comparison settle
  accept_comparison ident result =
      Exec.◌>>=◌ (comparison_boundary ident)
        (λ p. Exec.◌>>◌ (lift (check_comparison p.0 p.1 result)) (settle p.0 5 6 "compare" result))

  -- the tests of `accept_verification`
  unfoldable pub check_verification : Operation → List (String × Value) → Value → Result (Unit {0})
  unfolding has_keys get validate_cut has_request validate_acceptance_result operation_value
      evidence_for item is_rechecked are_new_writes behind
  check_verification o previous result = do
    raise_if
        (not (
          has_keys ("writer" ∷ "epoch" ∷ "positions" ∷ "baseline_recheck" ∷ "new_writes" ∷ [])
            result))
        (value_error "verification evidence shape differs")
    validate_cut (get result "positions")
    raise_if
        (not (has_request (get result "baseline_recheck") && has_request (get result "new_writes")))
        (value_error "verification evidence shape differs")
    rechecked ←
        validated o (get result "baseline_recheck") (get (get result "baseline_recheck") "request")
    fresh ← validated o (get result "new_writes") (get (get result "new_writes") "request")
    expected ← evidence_for "baseline" previous
    request ← item expected "request"
    positions ← item request "positions"
    raise_if (not (is_rechecked o result rechecked positions)) unreconciled
    signature ← item expected "signature"
    raise_if (not (are_new_writes o result rechecked fresh signature)) unreconciled
    old ← behind (get result "positions") positions
    raise_if old unreconciled

  unfoldable pub accept_verification : String → Value → Exec State (Unit {0})
  unfolding verification_boundary check_verification settle
  accept_verification ident result =
      Exec.◌>>=◌ (verification_boundary ident) (λ p.
        Exec.◌>>◌ (lift (check_verification p.0 p.1 result)) (settle p.0 9 10 "verify" result))
