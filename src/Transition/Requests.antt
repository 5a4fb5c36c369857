-- ===== src/Transition/Requests.antt =====
-- hat/transition.py: what is accepted as a request (`validate_cut`, `validate_request`), in the order
-- of the program's tests.
use highly_available_trailba.Prelude.{
  Bool, true, false, ◌&&◌, ◌||◌, not, String, List, [], ◌∷◌, Option, none, some, ◌==◌, string_eq,
  all, contains, Result, ok, raise, raise_if, Exc, value_error, type_error, if◌then◌else◌,
}
use highly_available_trailba.Fallible.{◌>>=◌, ◌>>◌}
use highly_available_trailba.Py.Value.{
  Value, null, str, arr, obj, has_keys, get, is_text, is_str, values,
}
use highly_available_trailba.Py.Text.{is_operation, is_epoch, is_hex_of, epoch_of}
use highly_available_trailba.Node.Positions.{dbs, is_cut}

-- The configuration of a node, as far as requests are held against it.
pub record Config : Type 0 where
  pub role : String
  pub epoch : String

-- A request with its fields checked.
pub record Request : Type 0 where
  pub action : String
  pub operation : String
  pub payload : Value

abbrev pub request_from : String → String → Value → Request
request_from a o p = record { action = a; operation = o; payload = p }

-- `shapes`: the actions, with the keys of their payloads
unfoldable pub shape : String → Option (List String)
shape a =
    if contains ("probe" ∷ "quiesce" ∷ "activate" ∷ "inspect-frozen" ∷ "inspect-cold" ∷ []) a
    then some []
    else if "freeze" == a || "restore" == a
    then some ("cut" ∷ [])
    else if "prepare" == a
    then some ("new_epoch" ∷ "signature" ∷ "fence_digest" ∷ [])
    else if "prepare-recovery" == a
    then some ("source_epoch" ∷ [])
    else if "restore-recovery" == a
    then some ("cut" ∷ "fence_digest" ∷ [])
    else if "rejoin" == a
    then some ("new_epoch" ∷ [])
    else none

abbrev pub invalid_cut : Exc
invalid_cut = value_error "invalid three-database cut"

-- `validate_cut`
unfoldable pub validate_cut : Value → Result (Unit {0})
unfolding is_cut
validate_cut cut = raise_if (not (is_cut cut)) invalid_cut

-- a text that is a value
unfoldable pub text_in : Value → Option String
text_in (str s) = some s
text_in v = none

unfoldable pub is_null : Value → Bool
is_null null = true
is_null v = false

unfoldable pub is_digest : Value → Bool
is_digest = is_str (is_hex_of 64)

unfoldable pub needs_writer : String → Bool
needs_writer = contains ("quiesce" ∷ "activate" ∷ "rejoin" ∷ "prepare-recovery" ∷ [])

unfoldable pub needs_standby : String → Bool
needs_standby =
    contains ("freeze" ∷ "restore" ∷ "prepare" ∷ "inspect-frozen" ∷ "restore-recovery" ∷ [])

unfoldable pub carries_cut : String → Bool
carries_cut = contains ("freeze" ∷ "restore" ∷ "restore-recovery" ∷ [])

-- the actions that only look at a node
unfoldable pub is_look : String → Bool
is_look = contains ("probe" ∷ "inspect-cold" ∷ [])

-- `r['boot_id'] == boot`, or none given to an action that only looks
unfoldable pub boot_matches : String → String → Value → Bool
unfolding is_text is_null is_look
boot_matches action boot v = is_text boot v || is_look action && is_null v

abbrev pub invalid_shape : Exc
invalid_shape = value_error "invalid request shape"

abbrev pub invalid_identity : Exc
invalid_identity = value_error "invalid operation, epoch, boot or payload"

-- the second test of `validate_request`, for texts as action and operation: identity, epoch, boot and
-- the payload's keys
unfoldable pub is_bound : Value → Config → String → String → String → List String → Bool
unfolding is_operation is_text get boot_matches has_keys
is_bound v c boot action operation payload_keys =
    is_operation operation
    && (is_text c.epoch (get v "epoch")
        && boot_matches action boot (get v "boot_id")
        && has_keys payload_keys (get v "payload"))

unfoldable pub bound_request :
    Value → Config → String → String → String → Option (List String) → Option Request
unfolding is_bound get
bound_request v c boot action operation none = none
bound_request v c boot action operation (some payload_keys) =
    if is_bound v c boot action operation payload_keys
    then some (request_from action operation (get v "payload"))
    else none

unfoldable pub identified : Value → Config → String → Option String → Option String → Option Request
unfolding bound_request
identified v c boot (some action) (some operation) =
    bound_request v c boot action operation (shape action)
identified v c boot action operation = none

unfoldable pub identity_of : Value → Config → String → Option Request
unfolding text_in get identified
identity_of v c boot = identified v c boot (text_in (get v "action")) (text_in (get v "operation"))

-- the values of `p['signature']`
unfoldable pub is_signature : Value → Bool
unfolding has_keys values is_digest
is_signature (obj fs) = has_keys dbs (obj fs) && all is_digest (values fs)
is_signature v = false

-- the tests of `validate_request` on the payload of each action
unfoldable pub payload_error : Request → Config → Option Exc
unfolding is_signature is_digest is_text get epoch_of is_str is_epoch
payload_error r c =
    if r.action == "prepare"
      && not (
          is_text (epoch_of r.operation) (get r.payload "new_epoch")
          && is_signature (get r.payload "signature")
          && is_digest (get r.payload "fence_digest"))
    then some (value_error "invalid activation identity or comparison")
    else if r.action == "prepare-recovery"
        && (is_text (epoch_of r.operation) (get r.payload "source_epoch")
            || is_text c.epoch (get r.payload "source_epoch")
            || not (is_str is_epoch (get r.payload "source_epoch")))
    then some (value_error "invalid recovery source epoch")
    else if r.action == "restore-recovery" && not (is_digest (get r.payload "fence_digest"))
    then some (value_error "invalid recovery fence")
    else if r.action == "rejoin"
        && (not (is_text (epoch_of r.operation) (get r.payload "new_epoch"))
            || is_text c.epoch (get r.payload "new_epoch"))
    then some (value_error "invalid rejoin epoch")
    else none

unfoldable pub role_error : Request → Config → Option Exc
unfolding needs_writer needs_standby
role_error r c =
    if needs_writer r.action && not (c.role == "writer")
    then some (value_error "not a writer")
    else if needs_standby r.action && not (c.role == "standby")
    then some (value_error "not a standby")
    else none

unfoldable pub cut_error : Request → Option Exc
unfolding carries_cut is_cut get
cut_error r =
    if carries_cut r.action && not (is_cut (get r.payload "cut")) then some invalid_cut else none

unfoldable pub raise_some : Option Exc → Result (Unit {0})
raise_some none = ok tt
raise_some (some e) = raise e

unfoldable pub accepted : Option Request → Result Request
accepted none = raise invalid_identity
accepted (some r) = ok r

-- `x in shapes` raises for an x that has no hash
unfoldable pub is_unhashable : Value → Bool
is_unhashable (arr vs) = true
is_unhashable (obj fs) = true
is_unhashable v = false

abbrev request_keys : List String
request_keys = "action" ∷ "operation" ∷ "epoch" ∷ "boot_id" ∷ "payload" ∷ []

-- the tests that follow the second
unfoldable pub checked : Config → Request → Result Request
unfolding raise_some
checked c r = do
  raise_some (role_error r c)
  raise_some (cut_error r)
  raise_some (payload_error r c)
  ok r

-- the first test
unfoldable pub shaped : Value → Result (Unit {0})
unfolding is_unhashable has_keys get
shaped v = do
  raise_if (not (has_keys request_keys v)) invalid_shape
  raise_if (is_unhashable (get v "action")) (type_error "unhashable type")

-- `validate_request`
unfoldable pub validate_request : Value → Config → String → Result Request
unfolding accepted shaped
validate_request v c boot = do shaped v; r ← accepted (identity_of v c boot); checked c r
