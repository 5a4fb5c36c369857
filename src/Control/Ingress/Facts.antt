-- ===== src/Control/Ingress/Facts.antt =====
-- hat/control.py: the tests that `_ingress_allowed_body` puts to the rows, the evidence and the
-- permit, and the exceptions that it turns into a refusal.
use highly_available_trailba.Prelude.{
  ℕ, Bool, true, false, ◌&&◌, ◌||◌, not, String, List, [], ◌∷◌, map, Option, none, some, ◌==◌,
  nat_eq, string_eq, list_eq, pair_eq, list_beq, Result, ok, raise, raise_if, Exc, type_error,
  attribute_error, timeout_expired, if◌then◌else◌, bind,
}
use highly_available_trailba.Py.Value.{Value, obj, end, get, is_text}
use highly_available_trailba.Py.Access.{keys_are, get_of}
use highly_available_trailba.Control.Phases.{Mark, status_eq, phases, d3_phases, boundary_marks}
use highly_available_trailba.Control.Rows.{
  Contract, legacy, acceptance, Operation, OperationRow, StepRow, mark, loads,
}
use highly_available_trailba.Control.Serving.{
  Failure, absent, unreadable, holds, exact_route, plain_intents,
}
use highly_available_trailba.Control.Ingress.{Inode, Reading, gone, failed, held, Place, Look}

-- `tracked[key]`: the identity of a file and the digest of its bytes, or None
abbrev pub Tracked : Type 0
Tracked = Option (List ℕ × String)

-- What the body decides, with the failure file that it tracks.
pub record Verdict : Type 0 where
  pub allowed : Bool
  pub tracked : List (Place × Tracked)

abbrev pub decision_of : Bool → List (Place × Tracked) → Verdict
decision_of allowed tracked = record { allowed = allowed; tracked = tracked }

abbrev pub not_allowed : Verdict
not_allowed = decision_of false []

-- `except (OSError, RuntimeError, ValueError, KeyError, TypeError, sqlite3.Error): return False`
unfoldable pub is_caught : Exc → Bool
is_caught (attribute_error e) = false
is_caught (timeout_expired e) = false
is_caught e = true

unfoldable pub catching : {A : Type 0} → A → Look A → Look A
unfolding is_caught
catching default m t =
    let (r, u) = m t in
    elim r [ ok v ↦ (ok v, u) | raise e ↦ if is_caught e then (ok default, u) else (raise e, u) ]

-- ORDER BY rowid DESC LIMIT 1
unfoldable pub newest : List OperationRow → Option OperationRow
newest [] = none
newest (r ∷ rs) = elim (newest rs) [ none ↦ some r | some q ↦ some q ]

-- the root before and after: `st_dev`, `st_ino`, `st_mtime_ns`
unfoldable pub same_root : Inode → Inode → Bool
same_root a b = ◌==◌ {A = ℕ × ℕ} a.stat.ident b.stat.ident && a.stamp == b.stamp

-- the evidence of a completed route, which must be exactly this one
unfoldable pub is_live_route : Option StepRow → String → String → String → Bool
unfolding loads exact_route
is_live_route none target epoch digest = false
is_live_route (some s) target epoch digest = elim (loads s.evidence) [
  | ok v ↦ exact_route v target epoch digest
  | raise e ↦ false
]

-- `kind == LEGACY_RESTORE_CONTRACT` says of an operation that its contract is the legacy one
unfoldable pub contract_of : Contract → OperationRow → Contract
contract_of legacy r = legacy
contract_of acceptance r = r.restore_contract

-- `if not b: return False`: the body returns what its `except` clause returns
unfoldable pub demand : Exc → Bool → Result (Unit {0})
demand e b = raise_if (not b) e

-- what `_d3_serving_state` makes of its own reading of the failure file
unfoldable pub failure_of : Reading → Failure
failure_of gone = absent
failure_of (failed e) = unreadable
failure_of (held raw id) = holds raw

-- a route in the evidence of a recovery whose verification is pending, by the configuration that is
-- read
unfoldable pub is_pending_route : Value → String → String → Result Bool
unfolding keys_are get_of is_text get
is_pending_route route epoch digest =
    bind (keys_are ("writer" ∷ "epoch" ∷ "config_sha" ∷ []) route) (λ named. elim named [
      | false ↦ ok false
      | true ↦ bind (get_of route "writer") (λ writer. ok (
          is_text "A" writer
          && is_text epoch (get route "epoch")
          && is_text digest (get route "config_sha")))
    ])

-- `evidence.get('route', {})`
unfoldable pub route_in : List (String × Value) → Value
route_in [] = obj end
route_in ((phase, v) ∷ rest) = let later = route_in rest in if phase == "route" then v else later

abbrev pub route_pending : List Mark
route_pending = boundary_marks 8 d3_phases

abbrev pub verify_pending : List Mark
verify_pending = boundary_marks 9 d3_phases

abbrev pub is_marked : List Mark → List StepRow → Bool
is_marked marks steps = map mark steps == marks

-- `value['operation']==ident and value['boot_id']==boot and birth is not None and
-- value['birth']==birth and value['config_sha']==digest`; a missing key is a KeyError, which is
-- False too
unfoldable pub is_permit : String → String → String → Option String → Value → Bool
unfolding is_text get
is_permit ident boot digest none v = false
is_permit ident boot digest (some birth) v =
    is_text ident (get v "operation")
    && is_text boot (get v "boot_id")
    && is_text birth (get v "birth")
    && is_text digest (get v "config_sha")

abbrev pub permit_keys : List String
permit_keys = "operation" ∷ "boot_id" ∷ "pid" ∷ "birth" ∷ "config_sha" ∷ []

abbrev pub is_tracked_absent : Tracked → Bool
is_tracked_absent none = true
is_tracked_absent (some x) = false

unfoldable pub row_epoch : Option OperationRow → Result String
row_epoch none = raise (type_error "'NoneType' object is not subscriptable")
row_epoch (some r) = ok r.source_epoch

-- the operation that `_validate_d3_proof` is asked about
abbrev pub recovery_of : String → String → String → Operation
recovery_of ident source_epoch new_epoch = record {
  id = ident;
  source = "B";
  target = "A";
  source_epoch = source_epoch;
  new_epoch = new_epoch;
}

-- the route of a switchover is intended, the marker names it, and nothing has failed
unfoldable pub is_route_intended : String → Value → Bool → List StepRow → Bool
unfolding is_text plain_intents boundary_marks list_beq
is_route_intended ident named has_failed steps =
    is_text ident named
    && not has_failed
    && is_marked (boundary_marks 8 phases) steps
    && plain_intents steps

-- the route of a recovery, or its verification, is intended, and nothing has failed
unfoldable pub is_recovery_pending : List StepRow → Tracked → Bool
unfolding plain_intents boundary_marks list_beq
is_recovery_pending steps tracked =
    (is_marked route_pending steps || is_marked verify_pending steps)
    && plain_intents steps
    && is_tracked_absent tracked
