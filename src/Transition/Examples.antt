-- ===== src/Transition/Examples.antt =====
-- Requests at a standby and at a writer, and the theorems at them.
use highly_available_trailba.Prelude.{
  ℕ, suc, ◌≡◌, refl, true, false, String, List, [], ◌∷◌, some, none, Exc, Result, ok, raise, All,
  contains, string_eq, pair_beq,
}
use highly_available_trailba.Py.Value.{
  Value, null, bool, obj, arr, nil, str, int, Fields, dict, get,
}
use highly_available_trailba.Py.Text.{is_operation}
use highly_available_trailba.Node.Authority.{activation, authority}
use highly_available_trailba.Transition.Requests.{
  Config, Request, request_from, validate_request, checked, identity_of, role_error, cut_error,
  payload_error, is_look, needs_writer, needs_standby, shape,
}
use highly_available_trailba.Transition.Accepted.{validate_request-bound}
use highly_available_trailba.Transition.Standby.{standby_health, is_bool, followers_run}
use highly_available_trailba.Transition.Standby.Ready.{Reached, standby_health-Reached}
use highly_available_trailba.Transition.Activation.{inspect_authority, recovery_authority}
use highly_available_trailba.Transition.Activation.Refused.{authority-refused}
use highly_available_trailba.Transition.Dispatch.{
  intent, Node, Surroundings, key_of, record_of, dispatch, is_reading, mutate, write_record,
}
use highly_available_trailba.Transition.Dispatch.Once.{Outcome, dispatch-Outcome, dispatch-once}

abbrev operation : String
operation = "0123456789abcdef0123456789abcdef"

abbrev cut : Fields
cut = dict (("main", int 5) ∷ ("session", int 6) ∷ ("aux", int 7) ∷ [])

abbrev request : String → Value → Fields → Value
request action boot payload = obj (
    dict (
      ("action", str action)
      ∷ ("operation", str operation)
      ∷ ("epoch", str "d1-a")
      ∷ ("boot_id", boot)
      ∷ ("payload", obj payload)
      ∷ []))

abbrev standby_config : Config
standby_config = record { role = "standby"; epoch = "d1-a" }

abbrev writer_config : Config
writer_config = record { role = "writer"; epoch = "d1-a" }

abbrev freeze : Value
freeze = request "freeze" (str "boot-1") (dict (("cut", obj cut) ∷ []))

abbrev freeze_request : Request
freeze_request = request_from "freeze" operation (obj (dict (("cut", obj cut) ∷ [])))

freeze_ok : validate_request freeze standby_config "boot-1" ≡ ok freeze_request
unfolding validate_request checked identity_of role_error cut_error payload_error shape
freeze_ok = refl

validate_request-bound_example :
    (get freeze "epoch" ≡ str standby_config.epoch)
    × (is_operation freeze_request.operation ≡ true)
    × (is_look freeze_request.action ≡ false → get freeze "boot_id" ≡ str "boot-1")
    × (needs_writer freeze_request.action ≡ true → standby_config.role ≡ "writer")
    × (needs_standby freeze_request.action ≡ true → standby_config.role ≡ "standby")
validate_request-bound_example = validate_request-bound freeze standby_config "boot-1" freeze_ok

abbrev probe : Value
probe = request "probe" null (dict [])

abbrev probe_request : Request
probe_request = request_from "probe" operation (obj (dict []))

probe_standby : validate_request probe standby_config "boot-1" ≡ ok probe_request
unfolding validate_request checked identity_of role_error cut_error payload_error shape
probe_standby = refl

probe_writer : validate_request probe writer_config "boot-2" ≡ ok probe_request
unfolding validate_request checked identity_of role_error cut_error payload_error shape
probe_writer = refl

abbrev ready : Value
ready = obj (
    dict (
      ("role", str "standby")
      ∷ ("epoch", str "d1-a")
      ∷ ("healthy", bool true)
      ∷ ("refusals", arr nil)
      ∷ ("positions", obj cut)
      ∷ ("trailbase_running", bool false)
      ∷ (
        "processes",
        obj (dict (("main", bool true) ∷ ("session", bool true) ∷ ("aux", bool true) ∷ [])),
      )
      ∷ []))

abbrev required : List (String × ℕ)
required = ("main", 5) ∷ ("session", 3) ∷ []

ready_ok : standby_health ready "d1-a" required none ≡ ok tt
unfolding standby_health
ready_ok = refl

standby_health-Reached_example :
    (positions : Fields) × (get ready "positions" ≡ obj positions)
    × All (Reached positions) required
    × (followers_run (get ready "processes") ≡ true)
    × (is_bool false (get ready "trailbase_running") ≡ true)
unfolding contains is_bool get
standby_health-Reached_example =
    standby_health-Reached ready "d1-a" required none refl ready_ok refl

activated : authority "writer" "d1-a" "boot-1" (some (activation "d1-a" "boot-1")) ≡ true
unfolding authority activation
activated = refl

authority-refused_example :
    ((x : Exc) × (inspect_authority "writer" "d1-a" "boot-1" (some (activation "d1-a" "boot-1"))
        ≡ raise x))
    × ((x : Exc) × (recovery_authority "writer" "d1-a" "boot-1" (some (activation "d1-a" "boot-1"))
          ≡ raise x))
authority-refused_example =
    authority-refused "writer" "d1-a" "boot-1" (some (activation "d1-a" "boot-1")) activated

-- a standby whose actions count themselves
abbrev surroundings : Surroundings ℕ
surroundings = record {
  config = λ w. standby_config;
  boot_id = λ w. "boot-1";
  secure = λ w. ok tt;
  look = λ r w. ok null;
}

abbrev count_action : Request → ℕ → Result Value × ℕ
count_action r w = (ok (int w), suc w)

abbrev idle : Node ℕ
idle = record { records = []; writes = []; outside = 0 }

frozen_ok : (dispatch surroundings count_action freeze idle).0 ≡ ok (int 0)
unfolding dispatch validate_request checked identity_of role_error cut_error payload_error mutate
    write_record shape record_of
frozen_ok = refl

dispatch-Outcome_example :
    Outcome surroundings count_action freeze idle (dispatch surroundings count_action freeze idle)
dispatch-Outcome_example = dispatch-Outcome surroundings count_action freeze idle

abbrev interrupted_node : Node ℕ
interrupted_node = record idle { records = (key_of freeze_request, intent) ∷ [] }

freeze_recorded : record_of (key_of freeze_request) interrupted_node.records ≡ some intent
unfolding record_of pair_beq
freeze_recorded = refl

dispatch-once_example :
    (x : Exc) × (dispatch surroundings count_action freeze interrupted_node
      ≡ (raise x, interrupted_node))
unfolding is_reading contains
dispatch-once_example =
    dispatch-once surroundings count_action freeze interrupted_node freeze_request intent freeze_ok
      refl refl freeze_recorded
