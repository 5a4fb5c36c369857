-- ===== src/Control/Existing.antt =====
-- hat/control.py: `reconcile_existing`, what a controller that starts does about the last operation. The files
-- beside the journal are a state of their own.
pub mod Closed
mod Examples
use highly_available_trailba.Prelude.{
  ℕ, suc, ◌≡◌, Bool, true, false, ◌&&◌, ◌||◌, not, String, List, [], ◌∷◌, Option, none, some, ◌==◌,
  string_eq, find?, Result, ok, raise, raise_if, Exc, value_error, runtime_error, if◌then◌else◌,
  bind, or_raise, is_ok,
}
use highly_available_trailba.Exec
use highly_available_trailba.Exec.{Exec, ◌>>=◌, ◌>>◌, lift, gets, pure, throw, throw_if}
use highly_available_trailba.Py.Value.{Value, str, obj, dict, py_eq}
use highly_available_trailba.Control.Files.{Stat, private_file}
use highly_available_trailba.Control.Phases.{done, status_eq}
use highly_available_trailba.Control.Rows.{
  OperationRow, StepRow, Db, is_acceptance, loads, steps_of,
}
use highly_available_trailba.Control.State.{State, authority_of}
use highly_available_trailba.Control.Serving.{
  Failure, exact_route, last_complete, done_row, d3_serving_state,
}

-- The maintenance file: its status, and what `json.loads` makes of its text.
pub record Maintenance : Type 0 where
  pub stat : Stat
  pub content : Result Value

-- What the controller finds beside its journal. `ingress` is what reading the ingress file gives, `failure` what the
-- operation's failure file holds. `written` says how writing the maintenance file ends, with the status of the file that
-- it leaves, `stops` how stopping the ingress does, `removed` how removing the maintenance file does, and `synced` how
-- flushing its directory does.
-- `stopped` counts the calls that stop the ingress.
pub record Site : Type 0 where
  pub journal : State
  pub maintenance : Option Maintenance
  pub ingress : Result (List ℕ)
  pub failure : Failure
  pub written : Result Stat
  pub stops : Result (Unit {0})
  pub removed : Result (Unit {0})
  pub synced : Result (Unit {0})
  pub stopped : ℕ

-- SELECT ... WHERE complete=0, the first row
unfoldable pub unfinished_row : Db → Option OperationRow
unfinished_row db = find? (λ r. not r.complete) db.operations

-- {'operation': ident}
abbrev pub marker : String → Value
marker ident = obj (dict (("operation", str ident) ∷ []))

-- `private_file(maintenance)`, then `json.loads(maintenance.read_text())=={'operation':ident}`
unfoldable pub belongs : ℕ → String → Maintenance → Result Bool
unfolding private_file py_eq
belongs euid ident m =
    bind (private_file euid (some m.stat))
      (λ file. bind m.content (λ v. ok (py_eq v (marker ident))))

-- `atomic_json(maintenance, {'operation':ident})`
unfoldable pub write_marker : String → Exec Site (Unit {0})
write_marker ident s = elim s.written [
  | raise e ↦ (raise e, s)
  | ok stat ↦
      (ok tt, record s { maintenance = some (record { stat = stat; content = ok (marker ident) }) })
]

unfoldable pub stop_ingress : Exec Site (Unit {0})
stop_ingress s = (s.stops, record s { stopped = suc s.stopped })

-- `try: m  finally: n`
unfoldable pub finally : Exec Site (Unit {0}) → Exec Site (Unit {0}) → Exec Site (Unit {0})
finally m n s =
    let (r, s') = m s in let (q, t) = n s' in elim q [ raise e ↦ (raise e, t) | ok u ↦ (r, t) ]

-- `if not maintenance.exists(): atomic_json(...)`
unfoldable pub mark_maintenance : String → Exec Site (Unit {0})
unfolding write_marker
mark_maintenance ident s = elim s.maintenance [ some m ↦ (ok tt, s) | none ↦ write_marker ident s ]

abbrev pub preserved : Exc
preserved = runtime_error "verified D3 operation awaits explicit rejoin; safe A route preserved"

abbrev pub ingress_closed : Exc
ingress_closed =
    runtime_error "unfinished operation: ingress closed; explicit reconciliation required"

-- `maintenance.unlink()`, and its directory flushed
unfoldable pub unlink : Exec Site (Unit {0})
unlink s = elim s.removed [
  | raise e ↦ (raise e, s)
  | ok u ↦ (s.synced, record s { maintenance = none })
]

-- what is left of an operation's maintenance once it is complete
unfoldable pub clear_maintenance : String → Exec Site (Unit {0})
unfolding belongs unlink
clear_maintenance ident s = elim s.maintenance [
  | none ↦ (ok tt, s)
  | some m ↦
      (lift (belongs s.journal.disk.euid ident m) >>= λ b.
      throw_if (not b) (runtime_error "maintenance belongs to another operation") >> unlink)
        s
]

-- the evidence of a route that is done, or None
unfoldable pub route_text : Option StepRow → Result (Option Value)
unfolding loads
route_text none = ok none
route_text (some r) =
    or_raise (bind (loads r.evidence) (λ v. ok (some v)))
      (runtime_error "completed route differs; reconciliation refused")

unfoldable pub is_route_of : Option Value → OperationRow → String → Bool
unfolding exact_route
is_route_of none row digest = false
is_route_of (some v) row digest = row.target == "B" && exact_route v row.target row.new_epoch digest

module _ (canonical : Value → Result (List ℕ)) (sha256 : List ℕ → String)
    (loads_bytes : List ℕ → Result Value) where
  -- `safe`: a verified recovery, under its own maintenance
  unfoldable pub is_safe : Site → OperationRow → Maintenance → Result Bool
  unfolding belongs d3_serving_state
  is_safe s row m = bind (belongs s.journal.disk.euid row.id m) (λ mine. elim mine [
    | false ↦ ok false
    | true ↦ bind s.ingress (λ raw.
        ok (
          d3_serving_state canonical sha256 loads_bytes s.journal.db row.id (sha256 raw) s.failure))
  ])

  -- whatever is raised there is passed over
  unfoldable pub safe : Site → OperationRow → Bool
  unfolding is_acceptance is_safe
  safe s row = is_acceptance row.restore_contract && (elim s.maintenance [
    | none ↦ false
    | some m ↦ elim (is_safe s row m) [ ok b ↦ b | raise e ↦ false ]
  ])

  -- what is done of an unfinished operation
  unfoldable pub reconcile_unfinished : OperationRow → Exec Site Bool
  unfolding safe finally mark_maintenance stop_ingress
  reconcile_unfinished row = do
    s ← gets (λ s. s)
    throw_if (safe s row) preserved
    finally (mark_maintenance row.id) stop_ingress
    throw ingress_closed

  -- and of a completed one
  unfoldable pub reconcile_completed : OperationRow → Exec Site Bool
  unfolding done_row route_text is_route_of clear_maintenance
  reconcile_completed row = do
    s ← gets (λ s. s)
    raw ← lift s.ingress
    route ← lift (route_text (done_row "route" (steps_of row.id s.journal.db)))
    throw_if (not (is_route_of route row (sha256 raw)))
        (runtime_error "completed route differs; reconciliation refused")
    clear_maintenance row.id
    pure true

  -- `reconcile_existing` after `check_authority`
  unfoldable pub reconcile_last : Option OperationRow → Option OperationRow → Exec Site Bool
  unfolding reconcile_unfinished reconcile_completed
  reconcile_last (some row) completed = reconcile_unfinished row
  reconcile_last none (some row) = reconcile_completed row
  reconcile_last none none = pure false

  unfoldable pub reconcile_existing : Exec Site Bool
  unfolding unfinished_row last_complete reconcile_last
  reconcile_existing = do
    s ← gets (λ s. s)
    lift (authority_of s.journal.journal s.journal.disk)
    reconcile_last (unfinished_row s.journal.db) (last_complete s.journal.db.operations)
