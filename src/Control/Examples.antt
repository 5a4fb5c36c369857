-- ===== src/Control/Examples.antt =====
-- The journal's operations on a small controller, and the theorems at it.
use native.Mathlib.Omega.{arith}
use highly_available_trailba.Prelude.{
  ℕ, ◌≡◌, refl, true, false, String, List, [], map, some, none, Exc, ok, raise, runtime_error,
  pair_beq,
}
use highly_available_trailba.Exec.{Exec, pure}
use highly_available_trailba.Py.Value.{Value, str, dump_error}
use highly_available_trailba.Py.Text.{is_epoch, is_operation}
use highly_available_trailba.Control.Files.{Stat, lstat, private_file}
use highly_available_trailba.Control.Phases.{phases, phase_plan, status_beq}
use highly_available_trailba.Control.Rows.{
  select_operation, has_unfinished, insert_operation, insert_step, is_acceptance, dumps,
}
use highly_available_trailba.Control.State.{Disk, Journal, State, authority_of}
use highly_available_trailba.Control.Journal.{
  begin, step, open_step, close_step, finish, boundary, new_operation, current_row, is_due,
}
use highly_available_trailba.Control.Journal.Sound.{Inv, marks_of}
use highly_available_trailba.Control.Journal.Machine.{Run, progress, Shows}
use highly_available_trailba.Control.Journal.Moves.{Reach-Run}
use highly_available_trailba.Control.Journal.Keeps.{AtBoundary}
use highly_available_trailba.Control.Journal.Closing.{IsQuiet}
use highly_available_trailba.Control.Journal.Reach.{
  Reach, here, next, begins, steps, new_state, Reach-Inv,
}
use highly_available_trailba.Control.Journal.Order.{Stepped, step-order, step-effect_after_intent}
use highly_available_trailba.Control.Journal.Stuck.{pending_refuses}
use highly_available_trailba.Control.Journal.Recovery.{boundary_after_crash}

abbrev root_stat : Stat
root_stat = record {
  ident = (1, 2);
  is_regular = false;
  is_directory = true;
  uid = 0;
  mode = 0o40700;
  nlink = 2;
}

abbrev file_stat : ℕ → Stat
file_stat n = record {
  ident = (1, n);
  is_regular = true;
  is_directory = false;
  uid = 0;
  mode = 0o100600;
  nlink = 1;
}

abbrev private_disk : Disk
private_disk = record {
  euid = 0;
  root = some root_stat;
  lock_file = some (file_stat 3);
  journal_file = some (file_stat 4);
}

abbrev entered : Journal
entered = record {
  lock = some (1, 3);
  db_open = true;
  directory_identity = (1, 2);
  database_identity = (1, 4);
  operation = none;
  next = 0;
  pending = false;
}

abbrev first : State
first = new_state entered private_disk []

abbrev ident : String
ident = "0123456789abcdef0123456789abcdef"

abbrev begun : State
begun = (begin "A" "B" (str "d1-initial") ident first).1

abbrev run_action : Exec State Value
run_action = pure (str "done")

begun_ok :
    (begin "A" "B" (str "d1-initial") ident first).0 ≡ ok (new_operation "A" "B" "d1-initial" ident)
unfolding begin authority_of lstat private_file phase_plan is_epoch has_unfinished insert_operation
    new_operation pair_beq
begun_ok = refl

first_step_ok : (step "preflight" run_action begun).0 ≡ ok (str "done")
unfolding step open_step close_step begin authority_of lstat private_file phase_plan is_epoch
    has_unfinished insert_operation new_operation pair_beq current_row select_operation
    is_acceptance is_due insert_step status_beq dumps dump_error
first_step_ok = refl

abbrev next_state : State
next_state = (step "preflight" run_action begun).1

second_out_of_order :
    (step "quiesce" run_action next_state).0
    ≡ raise (runtime_error "out-of-order or uncertain step; no retry")
unfolding step open_step close_step begin authority_of lstat private_file phase_plan is_epoch
    has_unfinished insert_operation new_operation pair_beq current_row select_operation
    is_acceptance is_due insert_step status_beq dumps dump_error
second_out_of_order = refl

run_action-IsQuiet : IsQuiet run_action
run_action-IsQuiet = record { journal = λ s. refl; db = λ s. refl }

abbrev run_to_next : Reach first next_state
run_to_next =
    next (next here (begins first "A" "B" (str "d1-initial") ident))
      (steps begun "preflight" run_action run_action-IsQuiet)

begun-Inv : Inv begun
begun-Inv =
    Reach-Inv entered private_disk [] refl
      (next here (begins first "A" "B" (str "d1-initial") ident))

Reach-Run_example :
    Run (progress ident begun.db) (progress ident next_state.db)
    × Shows (progress ident begun.db) (marks_of ident begun.db)
    × Shows (progress ident next_state.db) (marks_of ident next_state.db)
Reach-Run_example =
    Reach-Run entered private_disk [] ident refl
      (next here (begins first "A" "B" (str "d1-initial") ident))
      (next here (steps begun "preflight" run_action run_action-IsQuiet))

Reach-Inv_example : Inv next_state
Reach-Inv_example = Reach-Inv entered private_disk [] refl run_to_next

step-order_example : Stepped begun "preflight" (step "preflight" run_action begun).1
step-order_example =
    step-order "preflight" run_action run_action-IsQuiet begun begun-Inv first_step_ok

-- an action that fails where the journal has no operation
abbrev wary_action : Exec State Value
wary_action t = elim t.operation [
  | none ↦ (raise (runtime_error "no operation"), t)
  | some o ↦ (ok (str "done"), t)
]

wary-AtBoundary : (t : State) → AtBoundary t.journal t.db "preflight" → run_action t ≡ wary_action t
wary-AtBoundary t b = ground (arith, b.current)

step-effect_after_intent_example :
    step "preflight" run_action begun ≡ step "preflight" wary_action begun
step-effect_after_intent_example =
    step-effect_after_intent "preflight" run_action wary_action begun begun-Inv wary-AtBoundary

abbrev in_flight : State
in_flight = (open_step "preflight" begun).1

in_flight_current : in_flight.operation ≡ some (new_operation "A" "B" "d1-initial" ident)
unfolding open_step begin authority_of lstat private_file phase_plan is_epoch has_unfinished
    insert_operation new_operation pair_beq current_row select_operation is_acceptance is_due
    insert_step status_beq
in_flight_current = refl

in_flight_pending : in_flight.pending ≡ true
unfolding open_step begin authority_of lstat private_file phase_plan is_epoch has_unfinished
    insert_operation new_operation pair_beq current_row select_operation is_acceptance is_due
    insert_step status_beq
in_flight_pending = refl

pending_refuses_example :
    ((x : Exc) × (step "close_ingress" run_action in_flight ≡ (raise x, in_flight)))
    × ((x : Exc) × (begin "A" "B" (str "d1-x") "00" in_flight ≡ (raise x, in_flight)))
    × ((x : Exc) × (finish in_flight ≡ (raise x, in_flight)))
pending_refuses_example =
    pending_refuses in_flight (new_operation "A" "B" "d1-initial" ident) in_flight_current
      in_flight_pending "close_ingress" run_action "A" "B" (str "d1-x") "00"

-- a new process over the tables that the crash left
abbrev reentered : State
reentered = record in_flight { journal = entered; disk = private_disk }

boundary_after_crash_example :
    (ev : List (String × Value)) × (boundary ident 0 ("A", "B") reentered
      ≡ (ok (new_operation "A" "B" "d1-initial" ident, ev), reentered))
    × (map (λ p. p.0) ev ≡ [])
unfolding open_step begin authority_of lstat private_file phase_plan is_epoch has_unfinished
    insert_operation new_operation pair_beq current_row select_operation is_acceptance is_due
    insert_step status_beq is_operation
boundary_after_crash_example =
    boundary_after_crash "preflight" begun reentered (new_operation "A" "B" "d1-initial" ident)
      phases begun-Inv refl refl refl refl refl refl
