-- ===== src/Control/Legacy.antt =====
-- hat/control.py: `_validate_legacy_rows`, the rows of a journal of the first generation.
pub mod Sound
pub mod Examples
use highly_available_trailba.Prelude.{
  ℕ, Bool, true, false, ◌&&◌, ◌||◌, not, String, List, [], ◌∷◌, map, ◌==◌, nat_eq, string_eq,
  list_eq, pair_eq, any, all, contains, length, take, Result, ok, raise, raise_if, Exc, value_error,
  bind, or_raise,
}
use highly_available_trailba.Fallible.{◌>>=◌, ◌>>◌}
use highly_available_trailba.Py.Value.{Value, is_dict}
use highly_available_trailba.Py.Text.{is_operation, is_epoch_upto, epoch_of}
use highly_available_trailba.Py.Sorting.{is_distinct}
use highly_available_trailba.Control.Phases.{Status, intent, done, status_eq, phase_plan, expected}
use highly_available_trailba.Control.Rows.{
  OperationRow, StepRow, Db, mark, is_empty, loads, steps_of,
}
use highly_available_trailba.Control.Serving.{plain_intents}
use highly_available_trailba.Acceptance.Json.{is_unique}
use highly_available_trailba.Acceptance.Profiles.{is_direction}

abbrev pub unrecognized_operation : Exc
unrecognized_operation = value_error "unrecognized legacy operation"

abbrev pub unrecognized_steps : Exc
unrecognized_steps = value_error "unrecognized legacy operation steps"

-- the columns of an operation
unfoldable pub is_legacy_operation : OperationRow → Bool
unfolding is_operation is_epoch_upto epoch_of
is_legacy_operation r =
    is_operation r.id
    && is_direction r.source r.target
    && is_epoch_upto 125 r.source_epoch
    && is_epoch_upto 125 r.new_epoch
    && r.new_epoch == epoch_of r.id
    && not (r.new_epoch == r.source_epoch)

-- the evidence of one row: '{}' of an intent, and a JSON object without a repeated key of what is
-- done
unfoldable pub check_step : StepRow → Result (Unit {0})
unfolding is_empty loads is_unique is_dict
check_step s = elim s.status [
  | intent ↦ raise_if (not (is_empty s.evidence)) unrecognized_steps
  | done ↦
      bind (or_raise (loads s.evidence) unrecognized_steps)
        (λ v. raise_if (not (is_unique v && is_dict v)) unrecognized_steps)
]

unfoldable pub check_steps : List StepRow → Result (Unit {0})
unfolding check_step
check_steps [] = ok tt
check_steps (s ∷ ss) = bind (check_step s) (λ u. check_steps ss)

-- `not steps or [step[:3] for step in steps] != expected[:len(steps)]`, denied
unfoldable pub is_begun : List String → List StepRow → Bool
is_begun plan steps =
    not (length steps == 0) && map mark steps == take (length steps) (expected plan)

-- one operation with its rows
unfoldable pub check_operation : Db → OperationRow → Result (Unit {0})
unfolding is_legacy_operation steps_of is_begun check_steps
check_operation db r = do
  raise_if (not (is_legacy_operation r)) unrecognized_operation
  plan ← phase_plan r.source r.target
  raise_if (not (is_begun plan (steps_of r.id db))) unrecognized_steps
  check_steps (steps_of r.id db)
  raise_if (r.complete && not (map mark (steps_of r.id db) == expected plan))
      (value_error "unrecognized legacy completed operation")

unfoldable pub check_operations : Db → List OperationRow → Result (Unit {0})
unfolding check_operation
check_operations db [] = ok tt
check_operations db (r ∷ rs) = bind (check_operation db r) (λ u. check_operations db rs)

-- SELECT operation FROM steps WHERE operation NOT IN (SELECT id FROM operations)
unfoldable pub is_outside : Db → StepRow → Bool
is_outside db s = not (any (λ r. r.id == s.operation) db.operations)

-- `_validate_legacy_rows`
unfoldable pub validate_legacy_rows : Db → Result (Unit {0})
unfolding is_distinct check_operations is_outside
validate_legacy_rows db = do
  raise_if (not (is_distinct (map (λ r. r.id) db.operations))) unrecognized_operation
  check_operations db db.operations
  raise_if (any (is_outside db) db.steps) (value_error "unrecognized legacy operation reference")
