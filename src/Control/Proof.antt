-- ===== src/Control/Proof.antt =====
-- hat/control.py: `_validate_d3_proof`, the evidence that a recovery from B to A stands on.
pub mod Beyond
pub mod Examples
use highly_available_trailba.Prelude.{
  ℕ, ◌≡◌, Bool, true, false, ◌&&◌, ◌||◌, not, String, List, [], ◌∷◌, Option, none, some, ◌==◌,
  string_eq, Result, ok, raise, raise_if, Exc, value_error, runtime_error, attribute_error,
  if◌then◌else◌, bind, or_raise,
}
use highly_available_trailba.Fallible.{◌>>=◌, ◌>>◌}
use highly_available_trailba.Py.Value.{
  Value, obj, Fields, end, field, has_keys, get, item, is_text, is_dict, is_str, py_eq,
}
use highly_available_trailba.Py.Text.{is_hex_of}
use highly_available_trailba.Node.Positions.{dbs}
use highly_available_trailba.Control.Rows.{Operation}
use highly_available_trailba.Control.Accept.{
  operation_value, controller_root, evidence_for, validated, number_le,
}
use highly_available_trailba.Transition.Requests.{validate_cut}
use highly_available_trailba.Acceptance.Results.{validate_acceptance_result}

abbrev pub wrong_proof : Exc
wrong_proof = value_error "invalid D3 restore report"

-- `positions is not None and request['positions'] != positions`, denied
unfoldable pub is_at : Option Value → Value → Bool
unfolding py_eq get
is_at none request = true
is_at (some positions) request = py_eq (get request "positions") positions

-- what a report's request is for
unfoldable pub is_report_for : String → String → String → Option Value → Value → Bool
unfolding is_text get is_at
is_report_for phase profile epoch positions request =
    is_text phase (get request "phase")
    && is_text profile (get request "profile")
    && is_text epoch (get request "epoch")
    && is_at positions request

-- `any(positions[db]<=baseline_positions[db] for db in positions)`
unfoldable pub any_not_beyond : Value → Value → Fields → Result Bool
unfolding item number_le
any_not_beyond positions baseline end = ok false
any_not_beyond positions baseline (field db v rest) = bind (item positions db) (λ new.
    bind (item baseline db) (λ old.
      bind (number_le new old) (λ behind. elim behind [
        | true ↦ ok true
        | false ↦ any_not_beyond positions baseline rest
      ])))

unfoldable pub not_beyond : Value → Value → Result Bool
unfolding any_not_beyond
not_beyond (obj fs) baseline = any_not_beyond (obj fs) baseline fs
not_beyond v baseline = raise (attribute_error "not a dict")

-- `route` and `verify`: A writes the operation's new epoch
unfoldable pub routes_to_a : Operation → Value → Value → Bool
unfolding is_dict is_text get is_str is_hex_of
routes_to_a o route verification =
    is_dict route
    && is_text "A" (get route "writer")
    && is_text o.new_epoch (get route "epoch")
    && is_str (is_hex_of 64) (get route "config_sha")
    && is_dict verification
    && is_text "A" (get verification "writer")
    && is_text o.new_epoch (get verification "epoch")

module _ (canonical : Value → Result (List ℕ)) (sha256 : List ℕ → String) (o : Operation) where
  -- `report`
  unfoldable pub report : Value → String → String → String → Option Value → Result Value
  unfolding has_keys item is_report_for validate_acceptance_result operation_value
  report value phase profile epoch positions = do
    raise_if
        (not (
          has_keys
            ("schema" ∷ "request" ∷ "request_sha256" ∷ "databases" ∷ "signature" ∷ "checks" ∷ [])
            value))
        wrong_proof
    request ← item value "request"
    accepted ← validated canonical sha256 o value request
    raise_if (not (is_report_for phase profile epoch positions request)) wrong_proof
    ok value

  -- the reports of the comparison and of the baseline
  unfoldable pub reported_proof : List (String × Value) → Value → Value → Value → Result Value
  unfolding evidence_for report py_eq get
  reported_proof evidence selected cut signature = do
    comparison ← evidence_for "compare" evidence
    compared ← report comparison "compare" "recovery-comparison" o.source_epoch (some selected)
    first ← evidence_for "baseline" evidence
    baseline ← report first "baseline" "baseline" o.new_epoch none
    raise_if (not (py_eq cut selected && py_eq signature (get compared "signature"))) wrong_proof
    ok baseline

  -- what a recovery has before its route is set: the restore of the selected cut, compared, and a baseline
  unfoldable pub restored_proof : List (String × Value) → Result Value
  unfolding evidence_for item validate_cut has_keys reported_proof
  restored_proof evidence = do
    raise_if (not (o.source == "B" && o.target == "A")) wrong_proof
    selection ← evidence_for "select_cut" evidence
    selected ← item selection "positions"
    validate_cut selected
    restored ← evidence_for "restore" evidence
    cut ← item restored "cut"
    validate_cut cut
    signature ← item restored "signature"
    raise_if (not (has_keys dbs signature)) wrong_proof
    reported_proof evidence selected cut signature

  -- what it has after verification: A's route, and new writes beyond the baseline
  unfoldable pub verified_proof : List (String × Value) → Value → Result (Unit {0})
  unfolding evidence_for routes_to_a item validate_cut report not_beyond get
  verified_proof evidence baseline = do
    route ← evidence_for "route" evidence
    verification ← evidence_for "verify" evidence
    raise_if (not (routes_to_a o route verification)) wrong_proof
    positions ← item verification "positions"
    validate_cut positions
    writes ← item verification "new_writes"
    fresh ← report writes "new-writes" "fresh-writes" o.new_epoch (some positions)
    stale ← not_beyond positions (get (get baseline "request") "positions")
    raise_if stale wrong_proof

  -- `_validate_d3_proof`, which makes one error of whatever is wrong
  unfoldable pub validate_d3_proof : List (String × Value) → Bool → Result (Unit {0})
  unfolding restored_proof verified_proof
  validate_d3_proof evidence verified =
      or_raise
        (bind (restored_proof evidence)
          (λ baseline. if verified then verified_proof evidence baseline else ok tt))
        (runtime_error "D3 recovery proof differs or is malformed")
