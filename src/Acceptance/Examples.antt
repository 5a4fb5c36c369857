-- ===== src/Acceptance/Examples.antt =====
-- Runs on concrete restores, and the theorems at them.
use highly_available_trailba.Prelude.{
  ℕ, ◌≡◌, ◌≢◌, ◌↔◌, refl, false, ◌&&◌, String, List, [], ◌∷◌, none, some, nat_eq, string_eq, Result,
  ok, raise, value_error, get_elem?, leb, pair_beq,
}
use highly_available_trailba.Py.Value.{Value, str, bool, arr, nil}
use highly_available_trailba.Py.Sorting.{sorted}
use highly_available_trailba.Py.Text.{is_hex}
use highly_available_trailba.Ledger.Tally.{bump}
use highly_available_trailba.Control.Phases.{phase_plan}
use highly_available_trailba.Control.Rows.{Operation}
use highly_available_trailba.Acceptance.Profiles.{
  acceptance_operation, profile_from, derive_restore_profile,
}
use highly_available_trailba.Acceptance.Profiles.Matrix.{
  IsOperation, plan_step, epoch_at, derive_restore_profile-plan,
}
use highly_available_trailba.Acceptance.Requests.{validate_acceptance_request}
use highly_available_trailba.Acceptance.Requests.Bound.{
  IsAccepted, validate_acceptance_request-IsAccepted,
}
use highly_available_trailba.Acceptance.Results.{validate_acceptance_result}
use highly_available_trailba.Acceptance.Results.Passed.{
  IsPassed, validate_acceptance_result-IsPassed,
}
use highly_available_trailba.Acceptance.Ledger.{Faults, fault_ledger, fault_operations, names}
use highly_available_trailba.Acceptance.Outcomes.{
  Outcomes, outcomes_of, invalid_outcomes, validate_fault_outcomes,
}
use highly_available_trailba.Acceptance.Outcomes.Lossless.{
  Accounts, validate_fault_outcomes-Accounts,
}
use highly_available_trailba.Acceptance.Json.{
  parse_canonical_json, walk, nodes, is_walked, max_containers,
}
use highly_available_trailba.Acceptance.Json.Walk.{
  IsCanonical, is_shallow, containers, is_walked-bounds, parse_canonical_json_iff,
}
use highly_available_trailba.Acceptance.Samples.{
  print_nothing, digest_zero, root, operation_from, comparison, result_of, fault_events,
  outcomes_of_fault,
}

derived :
    derive_restore_profile (operation_from "A" "B") (str "compare") (bool false)
    ≡ ok (profile_from "comparison" "d1-a" 5 false)
unfolding derive_restore_profile
derived = refl

derive_restore_profile-plan_example :
    (o : Operation) × (acceptance_operation (operation_from "A" "B") ≡ ok o)
    × IsOperation o
    × (plan : List String) × (phase_plan o.source o.target ≡ ok plan)
    × (get_elem? plan 5 ≡ some (plan_step "compare"))
    × ("d1-a" ≡ epoch_at o 5)
derive_restore_profile-plan_example =
    derive_restore_profile-plan (operation_from "A" "B") "compare" false derived

accepted :
    validate_acceptance_request print_nothing digest_zero root comparison (operation_from "A" "B")
    ≡ ok comparison
unfolding validate_acceptance_request
accepted = refl

validate_acceptance_request-IsAccepted_example :
    (comparison ≡ comparison) × IsAccepted root (operation_from "A" "B") comparison
validate_acceptance_request-IsAccepted_example =
    validate_acceptance_request-IsAccepted print_nothing digest_zero root comparison
      (operation_from "A" "B") accepted

-- the same request, of the operation the other way
other_way :
    validate_acceptance_request print_nothing digest_zero root comparison (operation_from "B" "A")
    ≡ raise (value_error "unsupported restore acceptance phase")
unfolding validate_acceptance_request
other_way = refl

passed :
    validate_acceptance_result print_nothing digest_zero root
      (result_of comparison 1 2 3)
      comparison
      (operation_from "A" "B")
      none
    ≡ ok (result_of comparison 1 2 3)
unfolding validate_acceptance_result
passed = refl

-- a database that was restored at another position
displaced :
    validate_acceptance_result print_nothing digest_zero root
      (result_of comparison 1 2 4)
      comparison
      (operation_from "A" "B")
      none
    ≡ raise (value_error "invalid restore database result")
unfolding validate_acceptance_result
displaced = refl

validate_acceptance_result-IsPassed_example :
    (result_of comparison 1 2 3 ≡ result_of comparison 1 2 3)
    × IsPassed root (operation_from "A" "B") comparison (result_of comparison 1 2 3) none
validate_acceptance_result-IsPassed_example =
    validate_acceptance_result-IsPassed print_nothing digest_zero root (result_of comparison 1 2 3)
      comparison (operation_from "A" "B") none passed

submitted_names : fault_operations fault_events ≡ ok ("main_ops/d3-a" ∷ "main_ops/d3-b" ∷ [])
unfolding fault_operations pair_beq is_hex bump
submitted_names = refl

accounted :
    validate_fault_outcomes (outcomes_of_fault "main_ops/d3-b" "main_ops/d3-a") fault_events
    ≡ ok (outcomes_of_fault "main_ops/d3-b" "main_ops/d3-a")
unfolding validate_fault_outcomes pair_beq is_hex bump
accounted = refl

-- the acknowledged operation under `rejected`
swapped :
    validate_fault_outcomes (outcomes_of_fault "main_ops/d3-a" "main_ops/d3-b") fault_events
    ≡ raise (value_error "fault recovery semantics differ")
unfolding validate_fault_outcomes pair_beq is_hex bump
swapped = refl

validate_fault_outcomes-Accounts_example :
    (o : Outcomes) × (outcomes_of
        (outcomes_of_fault "main_ops/d3-b" "main_ops/d3-a")
        invalid_outcomes
      ≡ ok o)
    × (r : Faults) × (fault_ledger fault_events ≡ ok r)
    × Accounts o (sorted (names r.tally.rows)) r.events
validate_fault_outcomes-Accounts_example =
    validate_fault_outcomes-Accounts (outcomes_of_fault "main_ops/d3-b" "main_ops/d3-a")
      fault_events accounted

is_walked-bounds_example :
    (walk (nodes fault_events) ((fault_events, 0) ∷ []) 0 ≢ none)
    × (is_walked fault_events
        ≡ (is_shallow 0 fault_events && leb (containers fault_events) max_containers))
is_walked-bounds_example = is_walked-bounds fault_events

-- `[]`, and nothing else
abbrev brackets : List ℕ → Result Value
brackets raw = ok (arr nil)

abbrev print_brackets : Value → Result (List ℕ)
print_brackets v = ok (91 ∷ 93 ∷ [])

parsed : parse_canonical_json brackets print_brackets (91 ∷ 93 ∷ []) ≡ ok (arr nil)
unfolding parse_canonical_json
parsed = refl

spaced :
    parse_canonical_json brackets print_brackets (91 ∷ 32 ∷ 93 ∷ [])
    ≡ raise (value_error "invalid canonical JSON bytes")
unfolding parse_canonical_json
spaced = refl

parse_canonical_json_iff_example :
    (parse_canonical_json brackets print_brackets (91 ∷ 93 ∷ []) ≡ ok (arr nil)) ↔ (
      (brackets (91 ∷ 93 ∷ []) ≡ ok (arr nil))
      × IsCanonical print_brackets (91 ∷ 93 ∷ []) (arr nil))
parse_canonical_json_iff_example =
    parse_canonical_json_iff brackets print_brackets (91 ∷ 93 ∷ []) (arr nil)
