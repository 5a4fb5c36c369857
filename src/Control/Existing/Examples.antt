-- ===== src/Control/Existing/Examples.antt =====
-- Controllers that start after a completed operation, and in the middle of a recovery.
use highly_available_trailba.Prelude.{
  ℕ, ◌≡◌, refl, true, false, List, [], none, some, Option, Result, ok, raise, pair_beq, list_beq,
  os_error,
}
use highly_available_trailba.Py.Value.{Value}
use highly_available_trailba.Control.Phases.{status_beq}
use highly_available_trailba.Control.Rows.{OperationRow, acceptance}
use highly_available_trailba.Control.State.{State, authority_of}
use highly_available_trailba.Control.Accept.Examples.{journal, disk, file_stat}
use highly_available_trailba.Control.Proof.{validate_d3_proof}
use highly_available_trailba.Control.Proof.Examples.{operation}
use highly_available_trailba.Control.Serving.{Failure, absent, unreadable}
use highly_available_trailba.Control.Serving.Examples.{completed, recovering}
use highly_available_trailba.Control.Existing.{
  Site, Maintenance, marker, reconcile_existing, ingress_closed, preserved,
}
use highly_available_trailba.Control.Existing.Closed.{Settled, reconcile_existing-Settled}
use highly_available_trailba.Acceptance.Samples.{ident, print_nothing, digest_zero}

abbrev no_json : List ℕ → Result Value
no_json raw = raise (os_error "")

abbrev maintenance : Maintenance
maintenance = record { stat = file_stat 5 false 0o100600 1; content = ok (marker ident) }

abbrev site : State → Option Maintenance → Failure → Site
site s m failure = record {
  journal = s;
  maintenance = m;
  ingress = ok [];
  failure = failure;
  written = ok (file_stat 5 false 0o100600 1);
  stops = ok tt;
  removed = ok tt;
  synced = ok tt;
  stopped = 0;
}

abbrev recovering_state : State
recovering_state = record { journal = journal; disk = disk; db = recovering; commits = [] }

abbrev after_completed : Site
after_completed =
    (reconcile_existing print_nothing digest_zero no_json
      (site completed (some maintenance) absent)).1

lets_b_write :
    reconcile_existing print_nothing digest_zero no_json (site completed (some maintenance) absent)
    ≡ (ok true, after_completed)
unfolding reconcile_existing authority_of pair_beq status_beq list_beq
lets_b_write = refl

reconcile_existing-Settled_example :
    Settled print_nothing digest_zero no_json
      (site completed (some maintenance) absent)
      after_completed
      true
reconcile_existing-Settled_example =
    reconcile_existing-Settled print_nothing digest_zero no_json
      (site completed (some maintenance) absent) lets_b_write

-- a recovery under its own maintenance is left alone
leaves_recovery :
    reconcile_existing print_nothing digest_zero no_json
      (site recovering_state (some maintenance) absent)
    ≡ (raise preserved, site recovering_state (some maintenance) absent)
unfolding reconcile_existing authority_of pair_beq status_beq list_beq validate_d3_proof
leaves_recovery = refl

-- its failure cannot be read: the ingress is stopped
closes_recovery :
    reconcile_existing print_nothing digest_zero no_json (site recovering_state none unreadable) ≡ (
      raise ingress_closed,
      record (site recovering_state (some maintenance) unreadable) { stopped = 1 },
    )
unfolding reconcile_existing authority_of pair_beq status_beq list_beq
closes_recovery = refl

abbrev recovery_row : OperationRow
recovery_row = record { operation = operation; complete = false; restore_contract = acceptance }
