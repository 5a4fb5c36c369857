-- ===== src/Control/Rejoin/Examples.antt =====
-- A recovery that is verified is taken up at `rejoin_boot`, once.
use highly_available_trailba.Prelude.{
  ℕ, ◌≡◌, refl, false, List, [], ◌∷◌, some, none, ok, raise, runtime_error, value_error, pair_beq,
  list_beq, Result,
}
use highly_available_trailba.Py.Value.{Value}
use highly_available_trailba.Control.Phases.{status_beq}
use highly_available_trailba.Control.Rows.{acceptance}
use highly_available_trailba.Control.State.{State, authority_of}
use highly_available_trailba.Control.Accept.Examples.{journal, disk, rows}
use highly_available_trailba.Control.Proof.{validate_d3_proof}
use highly_available_trailba.Control.Proof.Examples.{operation, evidence}
use highly_available_trailba.Control.Rejoin.{Directory, continue_rejoin}
use highly_available_trailba.Acceptance.Samples.{ident, print_nothing, digest_zero}

abbrev no_tree : List ℕ → Result Value
no_tree raw = raise (value_error "")

abbrev directory : Directory
directory = record {
  failed = false;
  marker_stat = none;
  archive_stat = none;
  marker = ok [];
  archive = ok [];
}

-- new writes at position `n` of the auxiliary database
abbrev verified : ℕ → State
verified n = record {
  journal = journal;
  disk = disk;
  db = record {
    operations =
        record { operation = operation; complete = false; restore_contract = acceptance } ∷ [];
    steps = rows 0 (evidence n);
  };
  commits = [];
}

taken_up : continue_rejoin no_tree print_nothing digest_zero directory ident false (verified 9) ≡ (
  ok (operation, evidence 9),
  record (verified 9) {
    journal = record journal { operation = some operation; next = 10; pending = false };
  },
)
unfolding continue_rejoin authority_of pair_beq status_beq list_beq validate_d3_proof
taken_up = refl

-- new writes that are not beyond the baseline
unproven :
    continue_rejoin no_tree print_nothing digest_zero directory ident false (verified 6)
    ≡ (raise (runtime_error "D3 recovery proof differs or is malformed"), verified 6)
unfolding continue_rejoin authority_of pair_beq status_beq list_beq validate_d3_proof
unproven = refl
