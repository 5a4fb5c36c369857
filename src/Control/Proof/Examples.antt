-- ===== src/Control/Proof/Examples.antt =====
-- The evidence of a recovery from B to A, and what the proof of it rejects.
use highly_available_trailba.Prelude.{
  ℕ, ◌≡◌, refl, true, String, List, [], ◌∷◌, ok, raise, runtime_error,
}
use highly_available_trailba.Py.Value.{Value, str}
use highly_available_trailba.Control.Rows.{Operation}
use highly_available_trailba.Control.Proof.{validate_d3_proof}
use highly_available_trailba.Control.Proof.Beyond.{HasRestores, HasWrites, validate_d3_proof-Stands}
use highly_available_trailba.Acceptance.Samples.{
  ident, zeros, print_nothing, digest_zero, dict_of, cut, signature, request_back, recovery_result,
  result_of,
}

abbrev pub new_epoch : String
new_epoch = "d1-0123456789abcdef0123456789abcdef"

abbrev pub operation : Operation
operation = record {
  id = ident;
  source = "B";
  target = "A";
  source_epoch = "d1-a";
  new_epoch = new_epoch;
}

abbrev baseline : Value
baseline =
    result_of
      (request_back "baseline" "baseline" new_epoch "d3-recovery-input" "ledger.jsonl" 4 5 6) 4 5 6

-- new writes, the auxiliary database's at position `n`
abbrev verification : ℕ → Value
verification n = dict_of (
    ("writer", str "A")
    ∷ ("epoch", str new_epoch)
    ∷ ("positions", cut 7 8 n)
    ∷ (
      "new_writes",
      result_of
          (request_back "new-writes" "fresh-writes" new_epoch "current-verify-exclusive"
            "new-writes.jsonl" 7 8 n)
          7 8 n,
    )
    ∷ [])

abbrev pub route : Value
route = dict_of (("writer", str "A") ∷ ("epoch", str new_epoch) ∷ ("config_sha", str zeros) ∷ [])

abbrev pub evidence : ℕ → List (String × Value)
evidence n =
    ("preflight", str "")
    ∷ ("close_ingress", str "")
    ∷ ("fence", str "")
    ∷ ("select_cut", dict_of (("positions", cut 1 2 3) ∷ []))
    ∷ ("restore", dict_of (("cut", cut 1 2 3) ∷ ("signature", signature) ∷ []))
    ∷ ("compare", recovery_result 1 2 3)
    ∷ ("activate", str "")
    ∷ ("baseline", baseline)
    ∷ ("route", route)
    ∷ ("verify", verification n)
    ∷ []

stands : validate_d3_proof print_nothing digest_zero operation (evidence 9) true ≡ ok tt
unfolding validate_d3_proof
stands = refl

-- new writes of the auxiliary database that end where the baseline does
not_beyond_baseline :
    validate_d3_proof print_nothing digest_zero operation (evidence 6) true
    ≡ raise (runtime_error "D3 recovery proof differs or is malformed")
unfolding validate_d3_proof
not_beyond_baseline = refl

validate_d3_proof-Stands_example :
    (first : Value) × HasRestores operation (evidence 9) first
    × HasWrites operation (evidence 9) first
validate_d3_proof-Stands_example =
    validate_d3_proof-Stands print_nothing digest_zero operation (evidence 9) stands
