-- ===== src/Control/Serving/Examples.antt =====
-- A controller whose last operation is complete, and a recovery that stopped in `rejoin_boot`.
use highly_available_trailba.Prelude.{
  ℕ, ◌≡◌, refl, true, false, String, List, [], ◌∷◌, ◌++◌, Result, ok, raise, runtime_error,
  pair_beq, list_beq,
}
use highly_available_trailba.Py.Value.{Value, str, obj, end}
use highly_available_trailba.Control.Phases.{intent, phase_plan, status_beq}
use highly_available_trailba.Control.Rows.{Operation, Db, dumped, acceptance}
use highly_available_trailba.Control.State.{State}
use highly_available_trailba.Control.Proof.{validate_d3_proof}
use highly_available_trailba.Control.Accept.Examples.{journal, disk, row, rows}
use highly_available_trailba.Control.Proof.Examples.{operation, new_epoch, evidence}
use highly_available_trailba.Control.Serving.{
  Authority, absent, holds, unreadable, current_writer, d3_serving_state,
}
use highly_available_trailba.Control.Serving.Writer.{Grants, current_writer-Grants}
use highly_available_trailba.Control.Serving.Recovered.{Serves, d3_serving_state-Serves}
use highly_available_trailba.Acceptance.Samples.{ident, zeros, print_nothing, digest_zero, dict_of}

abbrev forward : Operation
forward = record {
  id = ident;
  source = "A";
  target = "B";
  source_epoch = "d1-a";
  new_epoch = new_epoch;
}

abbrev route_to_b : Value
route_to_b =
    dict_of (("writer", str "B") ∷ ("epoch", str new_epoch) ∷ ("config_sha", str zeros) ∷ [])

abbrev all_phases : List (String × Value)
all_phases =
    ("preflight", str "")
    ∷ ("close_ingress", str "")
    ∷ ("quiesce", str "")
    ∷ ("fence", str "")
    ∷ ("freeze", str "")
    ∷ ("compare", str "")
    ∷ ("activate", str "")
    ∷ ("baseline", str "")
    ∷ ("route", route_to_b)
    ∷ ("verify", str "")
    ∷ []

abbrev pub completed : State
completed = record {
  journal = journal;
  disk = disk;
  db = record {
    operations =
        record { operation = forward; complete = true; restore_contract = acceptance } ∷ [];
    steps = rows 0 all_phases;
  };
  commits = [];
}

abbrev b_writes : Authority
b_writes = record { operation = ident; writer = "B"; epoch = new_epoch }

b_has_authority : current_writer digest_zero (ok []) completed ≡ ok b_writes
unfolding current_writer phase_plan pair_beq status_beq list_beq
b_has_authority = refl

current_writer-Grants_example : Grants digest_zero (ok []) completed b_writes
current_writer-Grants_example = current_writer-Grants digest_zero (ok []) completed b_has_authority

-- an ingress file of another digest
other_digest :
    current_writer (λ raw. "") (ok []) completed
    ≡ raise (runtime_error "completed route differs from writer authority")
unfolding current_writer phase_plan pair_beq status_beq list_beq
other_digest = refl

abbrev pub recovering : Db
recovering = record {
  operations =
      record { operation = operation; complete = false; restore_contract = acceptance } ∷ [];
  steps = rows 0 (evidence 9) ++ row 10 "rejoin_boot" intent (dumped (obj end)) ∷ [];
}

abbrev failed_in : String → List ℕ → Result Value
failed_in phase raw = ok (dict_of (("phase", str phase) ∷ ("error", str "RuntimeError") ∷ []))

served_after_failure :
    d3_serving_state print_nothing digest_zero
      (failed_in "rejoin_boot")
      recovering
      ident
      zeros
      (holds [])
    ≡ true
unfolding d3_serving_state validate_d3_proof pair_beq status_beq list_beq
served_after_failure = refl

d3_serving_state-Serves_example :
    Serves print_nothing digest_zero (failed_in "rejoin_boot") recovering ident zeros (holds [])
d3_serving_state-Serves_example =
    d3_serving_state-Serves print_nothing digest_zero (failed_in "rejoin_boot") recovering ident
      zeros (holds []) served_after_failure

-- a failure of another phase, one that cannot be read, and another digest
failed_elsewhere :
    d3_serving_state print_nothing digest_zero
      (failed_in "rejoin")
      recovering
      ident
      zeros
      (holds [])
    ≡ false
unfolding d3_serving_state validate_d3_proof pair_beq status_beq list_beq
failed_elsewhere = refl

unread :
    d3_serving_state print_nothing digest_zero
      (failed_in "rejoin_boot")
      recovering
      ident
      zeros
      unreadable
    ≡ false
unfolding d3_serving_state validate_d3_proof pair_beq status_beq list_beq
unread = refl

rerouted :
    d3_serving_state print_nothing digest_zero (failed_in "rejoin_boot") recovering ident "" absent
    ≡ false
unfolding d3_serving_state validate_d3_proof pair_beq status_beq list_beq
rerouted = refl
