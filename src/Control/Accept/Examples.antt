-- ===== src/Control/Accept/Examples.antt =====
-- A controller that was stopped in `compare`, and one that was stopped in `verify`, with the results of
-- restores that complete these phases.
use highly_available_trailba.Prelude.{
  ℕ, ◌≡◌, refl, Bool, true, false, String, List, [], ◌∷◌, ◌++◌, none, some, ok, raise,
  runtime_error, not, pair_beq, suc,
}
use highly_available_trailba.Py.Value.{Value, str, obj, end, dump_error}
use highly_available_trailba.Control.Files.{Stat}
use highly_available_trailba.Control.Phases.{
  Status, intent, done, phase_plan, boundary_marks, status_beq,
}
use highly_available_trailba.Control.Rows.{Operation, StepRow, Column, dumped, acceptance, steps_of}
use highly_available_trailba.Control.State.{Disk, Journal, State, authority_of}
use highly_available_trailba.Control.Journal.{directed_row, find_unfinished, evidence_of}
use highly_available_trailba.Control.Accept.{accept_comparison, accept_verification}
use highly_available_trailba.Control.Accept.Proven.{
  Completes, IsCompared, IsVerified, accept_comparison-IsCompared, accept_verification-IsVerified,
}
use highly_available_trailba.Acceptance.Samples.{
  ident, print_nothing, digest_zero, dict_of, cut, signature, comparison, recheck, writes,
  result_of,
}

abbrev pub file_stat : ℕ → Bool → ℕ → ℕ → Stat
file_stat n directory mode links = record {
  ident = (1, n);
  is_regular = not directory;
  is_directory = directory;
  uid = 0;
  mode = mode;
  nlink = links;
}

abbrev pub disk : Disk
disk = record {
  euid = 0;
  root = some (file_stat 2 true 0o40700 2);
  lock_file = some (file_stat 3 false 0o100600 1);
  journal_file = some (file_stat 4 false 0o100600 1);
}

abbrev pub journal : Journal
journal = record {
  lock = some (1, 3);
  db_open = true;
  directory_identity = (1, 2);
  database_identity = (1, 4);
  operation = none;
  next = 0;
  pending = false;
}

abbrev pub operation : Operation
operation = record {
  id = ident;
  source = "A";
  target = "B";
  source_epoch = "d1-a";
  new_epoch = "d1-0123456789abcdef0123456789abcdef";
}

abbrev pub row : ℕ → String → Status → Column → StepRow
row n phase status evidence = record {
  operation = ident;
  position = n;
  phase = phase;
  status = status;
  evidence = evidence;
}

-- the rows of phases that are done, with their evidence
abbrev pub rows : ℕ → List (String × Value) → List StepRow
rows n [] = []
rows n ((phase, v) ∷ rest) =
    row n phase intent (dumped (obj end)) ∷ row n phase done (dumped v) ∷ rows (suc n) rest

abbrev state : List StepRow → State
state steps = record {
  journal = journal;
  disk = disk;
  db = record {
    operations =
        record { operation = operation; complete = false; restore_contract = acceptance } ∷ [];
    steps = steps;
  };
  commits = [];
}

abbrev frozen : Value
frozen = dict_of (("cut", cut 1 2 3) ∷ ("signature", signature) ∷ [])

abbrev to_freeze : List (String × Value)
to_freeze =
    ("preflight", str "")
    ∷ ("close_ingress", str "")
    ∷ ("quiesce", str "")
    ∷ ("fence", str "")
    ∷ ("freeze", frozen)
    ∷ []

abbrev comparing : State
comparing = state (rows 0 to_freeze ++ row 5 "compare" intent (dumped (obj end)) ∷ [])

abbrev compared : Value
compared = result_of comparison 1 2 3

abbrev after_comparison : State
after_comparison = (accept_comparison print_nothing digest_zero ident compared comparing).1

compared_ok :
    accept_comparison print_nothing digest_zero ident compared comparing ≡ (ok tt, after_comparison)
unfolding accept_comparison pair_beq authority_of directed_row find_unfinished phase_plan steps_of
    boundary_marks status_beq evidence_of dump_error
compared_ok = refl

-- a second time it is refused: the phase is not pending any more
compared_once :
    (accept_comparison print_nothing digest_zero ident compared after_comparison).0
    ≡ raise (runtime_error "not the exact pending boundary")
unfolding accept_comparison pair_beq authority_of directed_row find_unfinished phase_plan steps_of
    boundary_marks status_beq evidence_of dump_error
compared_once = refl

accept_comparison-IsCompared_example :
    (o : Operation) × (previous : List (String × Value)) × Completes ident 5 6 "compare" o previous
      compared comparing after_comparison
    × IsCompared o previous compared
accept_comparison-IsCompared_example =
    accept_comparison-IsCompared print_nothing digest_zero ident compared comparing compared_ok

abbrev baseline : Value
baseline =
    dict_of (("request", dict_of (("positions", cut 4 5 6) ∷ [])) ∷ ("signature", signature) ∷ [])

abbrev to_route : List (String × Value)
to_route =
    to_freeze
    ++ ("compare", str "") ∷ ("activate", str "") ∷ ("baseline", baseline) ∷ ("route", str "") ∷ []

abbrev verifying : State
verifying = state (rows 0 to_route ++ row 9 "verify" intent (dumped (obj end)) ∷ [])

abbrev verified : Value
verified = dict_of (
    ("writer", str "B")
    ∷ ("epoch", str "d1-0123456789abcdef0123456789abcdef")
    ∷ ("positions", cut 7 8 9)
    ∷ ("baseline_recheck", result_of recheck 4 5 6)
    ∷ ("new_writes", result_of writes 7 8 9)
    ∷ [])

abbrev after_verification : State
after_verification = (accept_verification print_nothing digest_zero ident verified verifying).1

verified_ok :
    accept_verification print_nothing digest_zero ident verified verifying
    ≡ (ok tt, after_verification)
unfolding accept_verification pair_beq authority_of directed_row find_unfinished phase_plan steps_of
    boundary_marks status_beq evidence_of dump_error
verified_ok = refl

accept_verification-IsVerified_example :
    (o : Operation) × (previous : List (String × Value)) × Completes ident 9 10 "verify" o previous
      verified verifying after_verification
    × IsVerified o previous verified
accept_verification-IsVerified_example =
    accept_verification-IsVerified print_nothing digest_zero ident verified verifying verified_ok
