-- ===== src/Acceptance/Parsing.antt =====
-- hat/recovery.py: `parse_acceptance_request` and `parse_acceptance_result`, from bytes. The parser
-- and the printer of JSON are the arguments `tree` and `canonical`.
use highly_available_trailba.Prelude.{ℕ, String, List, none, Result, bind}
use highly_available_trailba.Py.Value.{Value}
use highly_available_trailba.Acceptance.Json.{parse_canonical_json}
use highly_available_trailba.Acceptance.Requests.{validate_acceptance_request}
use highly_available_trailba.Acceptance.Results.{validate_acceptance_result}

module _ (tree : List ℕ → Result Value) (canonical : Value → Result (List ℕ))
    (sha256 : List ℕ → String) (root : List String) where
  unfoldable pub parse_acceptance_request : List ℕ → Value → Result Value
  unfolding parse_canonical_json validate_acceptance_request
  parse_acceptance_request raw operation =
      bind (parse_canonical_json tree canonical raw)
        (λ r. validate_acceptance_request canonical sha256 root r operation)

  unfoldable pub parse_acceptance_result : List ℕ → Value → Value → Result Value
  unfolding parse_canonical_json validate_acceptance_result
  parse_acceptance_result raw request operation =
      bind (parse_canonical_json tree canonical raw)
        (λ r. validate_acceptance_result canonical sha256 root r request operation none)
