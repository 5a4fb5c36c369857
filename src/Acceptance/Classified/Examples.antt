-- ===== src/Acceptance/Classified/Examples.antt =====
-- The two operations of the sample ledger, in the right and in the wrong categories.
use highly_available_trailba.Prelude.{
  ◌≡◌, refl, String, List, [], ◌∷◌, ok, raise, value_error, runtime_error,
}
use highly_available_trailba.Py.Value.{Value, str, arr, cons, nil}
use highly_available_trailba.Acceptance.Classified.{fault_outcomes}
use highly_available_trailba.Acceptance.Samples.{dict_of, outcomes_of_fault}

abbrev submitted : String → Value
submitted op = dict_of (
    ("event", str "submitted")
    ∷ ("api", str "main_ops")
    ∷ ("row", dict_of (("op_key", str op) ∷ []))
    ∷ [])

abbrev two_events : List Value
two_events = submitted "d3-b" ∷ submitted "d3-a" ∷ []

classified :
    fault_outcomes (outcomes_of_fault "main_ops/d3-b" "main_ops/d3-a") two_events
    ≡ ok (outcomes_of_fault "main_ops/d3-b" "main_ops/d3-a")
unfolding fault_outcomes
classified = refl

-- one operation in two categories
overlapping :
    fault_outcomes (outcomes_of_fault "main_ops/d3-b" "main_ops/d3-b") two_events
    ≡ raise (value_error "fault outcome classifications overlap or omit operations")
unfolding fault_outcomes
overlapping = refl

lost_one :
    fault_outcomes
      (dict_of (
        ("recovered", arr nil)
        ∷ ("lost", arr (cons (str "main_ops/d3-a") nil))
        ∷ ("ambiguous", arr nil)
        ∷ ("unacknowledged_recovered", arr nil)
        ∷ ("rejected", arr nil)
        ∷ []))
      (submitted "d3-a" ∷ [])
    ≡ raise (runtime_error "acknowledged writes are missing from the recovery image")
unfolding fault_outcomes
lost_one = refl
