-- ===== src/Control/Journal/Sound.antt =====
-- The invariant of the controller's journal: what its tables hold, and how a live `Journal` object
-- stands to them.
pub mod Tables
use highly_available_trailba.Prelude.{
  ℕ, zero, suc, ◌+◌, ◌≤◌, ◌≡◌, ◌⊎◌, Bool, true, false, not, String, List, [], ◌∷◌, ◌++◌, map,
  Option, none, some, get_elem?, take, length, ok, All,
}
use highly_available_trailba.Py.Value.{Value}
use highly_available_trailba.Control.Phases.{
  phase_plan, expected, boundary_marks, Mark, Status, intent,
}
use highly_available_trailba.Control.Rows.{
  Operation, OperationRow, StepRow, Db, mark, is_acceptance, dumped, is_empty, rows_of,
  select_operation,
}
use highly_available_trailba.Control.State.{Journal, State}

abbrev pub marks_of : String → Db → List Mark
marks_of ident db = map mark (rows_of ident db.steps)

-- An operation has a valid plan, its rows are a prefix of the plan's, and all of them once it is
-- complete.
pub record RowSound (db : Db) (r : OperationRow) : Type 0 where
  pub plan : List String
  pub is_plan : phase_plan r.source r.target ≡ ok plan
  pub rest : List Mark
  pub prefix : marks_of r.id db ++ rest ≡ expected plan
  pub full : r.complete ≡ true → marks_of r.id db ≡ expected plan

-- how many operations are not complete
abbrev pub unfinished : List OperationRow → ℕ
unfinished [] = 0
unfinished (r ∷ rs) = (elim r.complete [ true ↦ 0 | false ↦ 1 ]) + unfinished rs

-- An intent has the evidence '{}', and every evidence is JSON.
abbrev pub IsClean : StepRow → Type 0
IsClean s = (s.status ≡ intent → is_empty s.evidence ≡ true) × (v : Value) × (s.evidence ≡ dumped v)

pub record IsSound (db : Db) : Type 0 where
  pub rows :
      (ident : String) (r : OperationRow) → select_operation ident db ≡ some r → RowSound db r
  pub homed : (ident : String) → select_operation ident db ≡ none → marks_of ident db ≡ []
  pub single : unfinished db.operations ≤ 1
  pub clean : All IsClean db.steps

-- Where the live operation stands: `next` phases are done, and if a step is pending its intent may
-- have been committed.
pub record Linked (j : Journal) (db : Db) (o : Operation) : Type 0 where
  pub row : OperationRow
  pub selected : select_operation o.id db ≡ some row
  pub same : row.operation ≡ o
  pub open_row : row.complete ≡ false
  pub contract : is_acceptance row.restore_contract ≡ true
  pub plan : List String
  pub is_plan : phase_plan row.source row.target ≡ ok plan
  pub in_range : j.next ≤ length plan
  pub marks :
      (marks_of o.id db ≡ expected (take j.next plan))
      ⊎ ((j.pending ≡ true)
          × (p : String) × (get_elem? plan j.next ≡ some p)
          × (marks_of o.id db ≡ boundary_marks j.next plan))

pub record Holds (j : Journal) (db : Db) : Type 0 where
  pub sound : IsSound db
  pub linked : (o : Operation) → j.operation ≡ some o → Linked j db o

abbrev pub Inv : State → Type 0
Inv s = Holds s.journal s.db
