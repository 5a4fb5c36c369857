-- ===== src/Control/Rows.antt =====
-- The tables of the controller's journal (_OPERATIONS_SQL, _STEPS_SQL, _UNFINISHED_SQL of
-- hat/control.py), with the statements that the program runs on them. Rows stand in the order of
-- their rowids.
pub mod Queries
use highly_available_trailba.Prelude.{
  ℕ, ◌≡◌, refl, ◌↔◌, Bool, true, false, ◌&&◌, ◌||◌, not, String, List, [], ◌∷◌, ◌++◌, map, Option,
  none, some, ◌==◌, nat_eq, string_eq, Eq, any, find?, Result, ok, raise, sqlite_error, value_error,
  if◌then◌else◌, arith,
}
use highly_available_trailba.Py.Value.{Value, obj, end, dump_error}
use highly_available_trailba.Control.Phases.{Status, intent, done, status_eq, Mark}

pub data Contract : Type 0 where
  legacy acceptance : Contract

unfoldable pub is_acceptance : Contract → Bool
is_acceptance acceptance = true
is_acceptance legacy = false

-- The text of `steps.evidence`: what `json.dumps` gave, or a text that `json.loads` refuses.
pub data Column : Type 0 where
  dumped : Value → Column
  raw : String → Column

pub record Operation : Type 0 where
  pub id : String
  pub source : String
  pub target : String
  pub source_epoch : String
  pub new_epoch : String

pub record OperationRow : Type 0 where
  pub operation : Operation
  pub open operation use *
  pub complete : Bool
  pub restore_contract : Contract

pub record StepRow : Type 0 where
  pub operation : String
  pub position : ℕ
  pub phase : String
  pub status : Status
  pub evidence : Column

pub record Db : Type 0 where
  pub operations : List OperationRow
  pub steps : List StepRow

abbrev pub empty_db : Db
empty_db = record { operations = []; steps = [] }

-- `step[:3]`
abbrev pub mark : StepRow → Mark
mark s = (s.position, (s.phase, s.status))

-- `json.dumps(value, allow_nan=False)`
unfoldable pub dumps : Value → Result Column
dumps v = elim (dump_error v) [ none ↦ ok (dumped v) | some e ↦ raise e ]

-- `json.loads(column)`
unfoldable pub loads : Column → Result Value
loads (dumped v) = ok v
loads (raw s) = raise (value_error "not JSON")

-- `evidence == '{}'`
unfoldable pub is_empty : Column → Bool
is_empty (dumped (obj end)) = true
is_empty _ = false

-- SELECT ... WHERE id=?
unfoldable pub select_operation : String → Db → Option OperationRow
select_operation ident db = find? (λ r. r.id == ident) db.operations

-- SELECT ... WHERE complete=0
unfoldable pub has_unfinished : Db → Bool
has_unfinished db = any (λ r. not r.complete) db.operations

-- SELECT ... WHERE operation=? ORDER BY rowid
abbrev pub rows_of : String → List StepRow → List StepRow
rows_of ident [] = []
rows_of ident (s ∷ ss) =
    let rest = rows_of ident ss in if s.operation == ident then s ∷ rest else rest

unfoldable pub steps_of : String → Db → List StepRow
steps_of ident db = rows_of ident db.steps

-- INSERT INTO operations: the primary key, UNIQUE(new_epoch) and the index one_unfinished.
unfoldable pub insert_operation : OperationRow → Db → Result Db
unfolding has_unfinished
insert_operation r db =
    if any (λ q. q.id == r.id || q.new_epoch == r.new_epoch) db.operations
    then raise (sqlite_error "UNIQUE constraint failed")
    else if not r.complete && has_unfinished db
    then raise (sqlite_error "one_unfinished")
    else ok (record db { operations = db.operations ++ r ∷ [] })

-- INSERT INTO steps: the foreign key and PRIMARY KEY(operation,position,status).
unfoldable pub insert_step : StepRow → Db → Result Db
insert_step s db =
    if not (any (λ r. r.id == s.operation) db.operations)
    then raise (sqlite_error "FOREIGN KEY constraint failed")
    else if any
        (λ t. t.operation == s.operation && t.position == s.position && t.status == s.status)
        db.steps
    then raise (sqlite_error "UNIQUE constraint failed")
    else ok (record db { steps = db.steps ++ s ∷ [] })

-- the row that UPDATE operations SET complete=1 WHERE id=? AND restore_contract=? leaves
unfoldable pub completed : String → OperationRow → OperationRow
unfolding is_acceptance
completed ident r =
    if r.id == ident && is_acceptance r.restore_contract then record r { complete = true } else r

unfoldable pub set_complete : String → Db → Db
unfolding completed
set_complete ident db = record db { operations = map (completed ident) db.operations }
