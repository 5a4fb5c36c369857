-- ===== src/Control/Legacy/Examples.antt =====
-- Journals of the first generation.
use highly_available_trailba.Prelude.{
  ◌≡◌, refl, false, String, List, [], ◌∷◌, map, take, ok, raise, arith, pair_beq, list_beq,
}
use highly_available_trailba.Py.Value.{Value, obj, end, arr, nil}
use highly_available_trailba.Control.Phases.{phases, phase_plan, status_beq}
use highly_available_trailba.Control.Rows.{StepRow, Db, legacy}
use highly_available_trailba.Control.Journal.Sound.{IsSound}
use highly_available_trailba.Control.Accept.Examples.{rows, operation}
use highly_available_trailba.Control.Legacy.{validate_legacy_rows, unrecognized_steps}
use highly_available_trailba.Control.Legacy.Sound.{validate_legacy_rows-IsSound}

abbrev empty_of : List String → List (String × Value)
empty_of plan = map (λ p. (p, obj end)) plan

-- an operation with these rows
abbrev journal : List StepRow → Db
journal steps = record {
  operations = record { operation = operation; complete = false; restore_contract = legacy } ∷ [];
  steps = steps;
}

abbrev pub three_phases : Db
three_phases = journal (rows 0 (empty_of (take 3 phases)))

accepted : validate_legacy_rows three_phases ≡ ok tt
unfolding validate_legacy_rows phase_plan status_beq pair_beq list_beq
accepted = refl

-- a phase that is left out
skipping :
    validate_legacy_rows (journal (rows 0 (("preflight", obj end) ∷ ("quiesce", obj end) ∷ [])))
    ≡ raise unrecognized_steps
unfolding validate_legacy_rows phase_plan status_beq pair_beq list_beq
skipping = refl

-- evidence that is no object
not_object :
    validate_legacy_rows (journal (rows 0 (("preflight", arr nil) ∷ []))) ≡ raise unrecognized_steps
unfolding validate_legacy_rows phase_plan status_beq pair_beq list_beq
not_object = refl

validate_legacy_rows-IsSound_example : IsSound three_phases
validate_legacy_rows-IsSound_example =
    validate_legacy_rows-IsSound three_phases (omega arith) accepted
