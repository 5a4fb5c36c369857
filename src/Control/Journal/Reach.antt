-- ===== src/Control/Journal/Reach.antt =====
-- A controller over time: calls of the journal's methods, changes of the files around it, and
-- processes that die at any point and are started again.
use highly_available_trailba.Control.Accept.{accept_comparison, accept_verification}
use highly_available_trailba.Control.Accept.Proven.{accept_comparison-Inv, accept_verification-Inv}
use highly_available_trailba.Control.Rejoin.{Directory, continue_rejoin}
use highly_available_trailba.Control.Rejoin.Continued.{continue_rejoin-Inv}
use highly_available_trailba.Prelude.{ℕ, Result, ◌≡◌, refl, Bool, String, List, none, arith}
use highly_available_trailba.Exec.{Exec}
use highly_available_trailba.Py.Value.{Value}
use highly_available_trailba.Control.Rows.{empty_db, select_operation}
use highly_available_trailba.Control.State.{Disk, Journal, State}
use highly_available_trailba.Control.Journal.{begin, open_step, step, finish}
use highly_available_trailba.Control.Journal.Sound.{IsSound, Inv}
use highly_available_trailba.Control.Journal.Keeps.{open_step-Inv}
use highly_available_trailba.Control.Journal.Closing.{IsQuiet, step-Inv}
use highly_available_trailba.Control.Journal.Edges.{begin-Inv, finish-Inv}

pub data Move : State → State → Type 0 where
  begins :
      (s : State) (source target : String) (source_epoch : Value) (ident : String)
      → Move s (begin source target source_epoch ident s).1
  steps :
      (s : State) (phase : String) (action : Exec State Value)
      → IsQuiet action
      → Move s (step phase action s).1
  finishes : (s : State) → Move s (finish s).1
  -- the evidence of a pending phase is accepted from outside
  compares :
      (s : State) (canonical : Value → Result (List ℕ)) (sha256 : List ℕ → String) (ident : String)
      (result : Value)
      → Move s (accept_comparison canonical sha256 ident result s).1
  verifies :
      (s : State) (canonical : Value → Result (List ℕ)) (sha256 : List ℕ → String) (ident : String)
      (result : Value)
      → Move s (accept_verification canonical sha256 ident result s).1
  -- a recovery that is verified is taken up again
  continues :
      (s : State) (tree : List ℕ → Result Value) (canonical : Value → Result (List ℕ))
      (sha256 : List ℕ → String) (d : Directory) (ident : String) (boot_done : Bool)
      → Move s (continue_rejoin tree canonical sha256 d ident boot_done s).1
  -- the process dies while the action of a step runs
  dies_in : (s : State) (phase : String) → Move s (open_step phase s).1
  -- a new `Journal` is entered over the tables that are there
  reopens :
      (s : State) (j : Journal) (d : Disk) (c : List Bool)
      → j.operation ≡ none
      → Move s (record s { journal = j; disk = d; commits = c })
  -- something else changes the files, or the commits to come
  disturbs : (s : State) (d : Disk) (c : List Bool) → Move s (record s { disk = d; commits = c })

pub data Reach (s : State) : State → Type 0 where
  here : Reach s s
  next : {t u : State} → Reach s t → Move t u → Reach s u

pub Move-Inv : {s t : State} → Move s t → Inv s → Inv t
Move-Inv (begins s source target source_epoch ident) h =
    begin-Inv source target source_epoch ident s h
Move-Inv (steps s phase action quiet) h = step-Inv phase action quiet s h
Move-Inv (finishes s) h = finish-Inv s h
Move-Inv (compares s canonical sha256 ident result) h =
    accept_comparison-Inv canonical sha256 ident result s h
Move-Inv (verifies s canonical sha256 ident result) h =
    accept_verification-Inv canonical sha256 ident result s h
Move-Inv (continues s tree canonical sha256 d ident boot_done) h =
    (continue_rejoin-Inv s d ident boot_done tree canonical sha256 h).0
Move-Inv (dies_in s phase) h = open_step-Inv phase s h
Move-Inv (reopens s j d c idle) h = record { sound = h.sound; linked = λ o e. cc }
Move-Inv (disturbs s d c) h = h

pub empty-IsSound : IsSound empty_db
unfolding select_operation
empty-IsSound = record {
  rows = λ ident r e. cc;
  homed = λ ident e. refl;
  single = omega arith;
  clean = tt;
}

-- a journal object over new tables
abbrev pub new_state : Journal → Disk → List Bool → State
new_state j d c = record { journal = j; disk = d; db = empty_db; commits = c }

-- From new tables, whatever calls of its methods (reconcile_rejoin_boot_done left out), crashes,
-- lost commits and changes of files follow: at most one operation is unfinished, the rows of each
-- are a prefix of its plan's and all of them once it is complete, and a live journal object stands
-- where its rows say.
pub Reach-Inv :
    (j : Journal) (d : Disk) (c : List Bool) {s : State}
    → j.operation ≡ none
    → Reach (new_state j d c) s
    → Inv s
Reach-Inv j d c idle here = record { sound = empty-IsSound; linked = λ o e. cc }
Reach-Inv j d c idle (next r m) = Move-Inv m (Reach-Inv j d c idle r)
