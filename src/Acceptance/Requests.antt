-- ===== src/Acceptance/Requests.antt =====
-- hat/recovery.py: `validate_acceptance_request`. JSON in its canonical form (`canonical_json`) and
-- SHA-256 are the arguments `canonical` and `sha256`.
pub mod Bound
use highly_available_trailba.Prelude.{
  ℕ, ◌≡◌, ◌^◌, Bool, true, false, ◌&&◌, ◌||◌, not, String, List, [], ◌∷◌, ◌++◌, Option, none, some,
  ◌==◌, nat_eq, string_eq, list_eq, list_beq, all, any, length, ltb, leb, Result, ok, raise,
  raise_if, Exc, value_error, type_error, if◌then◌else◌, bind,
}
use Prim.Native.String.{◌++◌ as append}
use highly_available_trailba.Fallible.{◌>>=◌, ◌>>◌}
use highly_available_trailba.Py.Value.{
  Value, bool, str, int, arr, items, has_keys, get, item, is_text, is_str, is_dict, is_int_between,
  py_eq,
}
use highly_available_trailba.Py.Text.{is_op_path}
use highly_available_trailba.Py.Access.{hex64, keys_are, values_of, recast}
use highly_available_trailba.Py.Sorting.{sorted, distinct}
use highly_available_trailba.Control.Rows.{Operation}
use highly_available_trailba.Node.Positions.{dbs}
use highly_available_trailba.Acceptance.Profiles.{acceptance_operation, Profile, in_matrix}
use highly_available_trailba.Acceptance.Authority.{authority, is_number}

abbrev request_keys : List String
request_keys =
    "schema" ∷ "operation" ∷ "phase" ∷ "source" ∷ "target" ∷ "epoch" ∷ "positions" ∷ "profile"
    ∷ "inputs" ∷ []

abbrev required_keys : List String
required_keys =
    "replica_config_sha256" ∷ "ledger_sha256" ∷ "ledger_authority" ∷ "restore_points" ∷ "support"
    ∷ "binaries" ∷ []

abbrev fault_keys : List String
fault_keys =
    "fault_ledger_sha256" ∷ "fault_operations" ∷ "fault_operation_count" ∷ "fault_operations_sha256"
    ∷ []

abbrev pub recovery : String
recovery = "recovery-comparison"

-- `expected`
unfoldable pub input_keys : String → List String
input_keys profile = if profile == recovery then required_keys ++ fault_keys else required_keys

-- `request['source'],request['target'],request['epoch'],request['profile']`, against what is derived
unfoldable pub is_bound : Operation → Profile → Value → Bool
unfolding is_text get
is_bound o p r =
    is_text o.source (get r "source")
    && is_text o.target (get r "target")
    && is_text p.epoch (get r "epoch")
    && is_text p.name (get r "profile")

unfoldable pub check_positions : Value → Result (Unit {0})
unfolding keys_are values_of is_int_between
check_positions v = do
  named ← keys_are dbs v
  raise_if (not named) (value_error "invalid restore positions")
  vs ← values_of v
  raise_if (not (all (is_int_between 0 (2 ^ 64)) vs)) (value_error "invalid restore positions")

-- `inputs['ledger_authority']`, against the other inputs
unfoldable pub is_authorised : Value → Bool
unfolding py_eq get
is_authorised inputs =
    py_eq (get (get (get inputs "ledger_authority") "ledger") "sha256") (get inputs "ledger_sha256")
    && py_eq (get inputs "support") (get (get inputs "ledger_authority") "support")
    && py_eq (get inputs "binaries") (get (get inputs "ledger_authority") "binaries")

-- `'/var/lib/hat-demo/depot/data/'+db+'.db'`
unfoldable pub point_source : String → String
point_source db = append "/var/lib/hat-demo/depot/data/" (append db ".db")

unfoldable pub check_point : Value → Value → String → Result (Unit {0})
unfolding keys_are item is_text point_source py_eq
check_point positions points db = do
  point ← item points db
  named ← keys_are ("source" ∷ "position" ∷ []) point
  raise_if (not named) (value_error "restore point binding differs")
  source ← item point "source"
  raise_if (not (is_text (point_source db) source)) (value_error "restore point binding differs")
  position ← item point "position"
  expected ← item positions db
  raise_if (not (py_eq position expected)) (value_error "restore point binding differs")

unfoldable pub check_points_of : Value → Value → List String → Result (Unit {0})
unfolding check_point
check_points_of positions points [] = ok tt
check_points_of positions points (db ∷ rest) =
    bind (check_point positions points db) (λ _. check_points_of positions points rest)

unfoldable pub check_points : Value → Value → Result (Unit {0})
unfolding check_points_of keys_are
check_points positions points = do
  named ← keys_are dbs points
  raise_if (not named) (value_error "invalid restore points")
  check_points_of positions points dbs

-- the texts of a list that holds nothing else
unfoldable pub texts : List Value → Option (List String)
texts [] = some []
texts (str s ∷ vs) = elim (texts vs) [ none ↦ none | some ss ↦ some (s ∷ ss) ]
texts (v ∷ vs) = none

unfoldable pub texts_in : Value → Option (List String)
unfolding items texts
texts_in (arr vs) = texts (items vs)
texts_in v = none

-- `type(v) is int and v == n`
unfoldable pub counts_items : Value → Value → Bool
unfolding items is_number
counts_items (arr vs) n = is_number (length (items vs)) n
counts_items v n = false

-- `ops == sorted(set(ops))`, each of them of the form of an operation's path. A list that holds something
-- else than texts is refused like one that is out of order.
unfoldable pub are_operations : Value → Bool
unfolding texts_in sorted distinct list_beq is_op_path
are_operations v = elim (texts_in v) [
  | none ↦ false
  | some ops ↦ ops == sorted (distinct ops) && all is_op_path ops
]

-- the schema and the operation of a request
unfoldable pub is_named : Operation → Value → Bool
unfolding is_text get
is_named o r =
    is_text "hat-restore-acceptance-1" (get r "schema") && is_text o.id (get r "operation")

module _ (canonical : Value → Result (List ℕ)) (sha256 : List ℕ → String) where
  -- `hashlib.sha256(canonical_json(v)).hexdigest()`
  unfoldable pub digest_of : Value → Result String
  digest_of v = bind (canonical v) (λ raw. ok (sha256 raw))

  unfoldable pub check_faults : Value → Result (Unit {0})
  unfolding counts_items are_operations hex64 digest_of is_text get
  check_faults inputs = do
    raise_if
        (not (counts_items (get inputs "fault_operations") (get inputs "fault_operation_count")))
        (value_error "invalid fault request binding")
    raise_if (not (are_operations (get inputs "fault_operations")))
        (value_error "invalid fault request operations")
    ledger ← hex64 (get inputs "fault_ledger_sha256")
    raise_if (not ledger) (value_error "invalid fault request hashes")
    digest ← digest_of (get inputs "fault_operations")
    raise_if (not (is_text digest (get inputs "fault_operations_sha256")))
        (value_error "invalid fault request hashes")

  -- the tests of `inputs`, of a request of this profile
  unfoldable pub check_inputs : List String → Operation → String → Value → Value → Result (Unit {0})
  unfolding has_keys input_keys get hex64 authority is_authorised check_points check_faults
  check_inputs root o profile positions inputs = do
    raise_if (not (has_keys (input_keys profile) inputs))
        (value_error "invalid restore request inputs")
    config ← hex64 (get inputs "replica_config_sha256")
    raise_if (not config) (value_error "invalid restore input hashes")
    ledger ← hex64 (get inputs "ledger_sha256")
    raise_if (not ledger) (value_error "invalid restore input hashes")
    authority root o profile (get inputs "ledger_authority")
    raise_if (not (is_authorised inputs)) (value_error "restore request authority mismatch")
    check_points positions (get inputs "restore_points")
    if profile == recovery then check_faults inputs else ok tt

  -- a request against its operation's profile
  unfoldable pub check_profile : List String → Operation → Value → Profile → Result (Unit {0})
  unfolding is_bound check_positions check_inputs get
  check_profile root o r p = do
    raise_if (not (is_bound o p r)) (value_error "restore request binding differs")
    check_positions (get r "positions")
    check_inputs root o p.name (get r "positions") (get r "inputs")

  -- `_validate_acceptance_request`
  unfoldable pub check_request : List String → Value → Value → Result Value
  unfolding acceptance_operation has_keys is_named in_matrix get is_text check_profile
  check_request root r operation = do
    o ← acceptance_operation operation
    raise_if (not (has_keys request_keys r)) (value_error "invalid restore acceptance request")
    raise_if (not (is_named o r)) (value_error "restore request identity differs")
    p ← in_matrix o (get r "phase") (is_text recovery (get r "profile"))
    check_profile root o r p
    ok r

  unfoldable pub validate_acceptance_request : List String → Value → Value → Result Value
  unfolding check_request recast
  validate_acceptance_request root r operation =
      recast "invalid restore acceptance request" (check_request root r operation)
