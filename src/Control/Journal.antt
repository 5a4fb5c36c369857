-- ===== src/Control/Journal.antt =====
-- hat/control.py: the methods of class Journal.
pub mod Guards
pub mod Sound
pub mod Outcomes
pub mod Keeps
pub mod Closing
pub mod Edges
pub mod Reach
pub mod Order
pub mod Stuck
pub mod Recovery
pub mod Machine
pub mod Refines
pub mod Moves
use highly_available_trailba.Prelude.{
  ℕ, zero, suc, ◌+◌, Bool, true, false, ◌&&◌, ◌||◌, not, String, List, [], ◌∷◌, ◌++◌, Option, none,
  some, ◌==◌, nat_eq, string_eq, pair_eq, list_eq, get_elem?, length, ltb, take, map, Result, ok,
  raise, Exc, value_error, runtime_error, sqlite_error, type_error, if◌then◌else◌, raise_if, bind,
  or_raise, any, find?, all, list_beq, pair_beq,
}
use highly_available_trailba.Fallible
use highly_available_trailba.Exec.{Exec, lift, gets, modify, throw, throw_if, pure, ◌>>=◌, ◌>>◌}
use highly_available_trailba.Py.Value.{Value, obj, end, str}
use highly_available_trailba.Py.Text.{is_epoch, is_operation, epoch_of}
use highly_available_trailba.Control.Phases.{
  phase_plan, Status, intent, done, status_eq, Mark, expected, boundary_marks,
}
use highly_available_trailba.Control.Rows.{
  Contract, acceptance, is_acceptance, Column, dumped, Operation, OperationRow, StepRow, Db, mark,
  dumps, loads, is_empty, select_operation, has_unfinished, steps_of, insert_operation, insert_step,
  set_complete,
}
use highly_available_trailba.Control.State.{Journal, State, authority_of, check_authority, transact}

-- `isinstance(v, str) and re.fullmatch('d1-[a-z0-9-]+', v)`
unfoldable pub valid_epoch : Value → Result String
valid_epoch (str s) = if is_epoch s then ok s else raise (value_error "invalid source epoch")
valid_epoch _ = raise (value_error "invalid source epoch")

abbrev pub is_some {ℓ} : {A : Type ℓ} → Option A → Bool
is_some none = false
is_some (some a) = true

-- `self.operation = operation; self.next = n; self.pending = False`
unfoldable pub resume : Option Operation → ℕ → Exec State (Unit {0})
resume operation n s = (
  ok tt,
  record s { journal = record s.journal { operation = operation; next = n; pending = false } },
)

-- `dict(id=ident, source=source, target=target, source_epoch=..., new_epoch='d1-'+ident)`
unfoldable pub new_operation : String → String → String → String → Operation
unfolding epoch_of
new_operation source target epoch ident = record {
  id = ident;
  source = source;
  target = target;
  source_epoch = epoch;
  new_epoch = epoch_of ident;
}

-- the checks of `begin`; they give the source epoch
unfoldable pub may_begin : String → String → Value → State → Result String
unfolding valid_epoch
may_begin source target source_epoch s = Fallible.◌>>◌ (authority_of s.journal s.disk) (
    Fallible.◌>>=◌ (phase_plan source target) λ _.
      Fallible.◌>>=◌ (valid_epoch source_epoch) λ epoch.
        Fallible.◌>>◌
          (raise_if (is_some s.operation || has_unfinished s.db)
            (runtime_error "unfinished operation requires reconciliation; no retry or force"))
          (ok epoch))

abbrev pub new_row : Operation → OperationRow
new_row o = record { operation = o; complete = false; restore_contract = acceptance }

-- `begin`; `ident` is the `uuid4().hex` that it draws
unfoldable pub begin : String → String → Value → String → Exec State Operation
unfolding may_begin transact resume
begin source target source_epoch ident = do
  s ← gets (λ s. s)
  epoch ← lift (may_begin source target source_epoch s)
  let operation = new_operation source target epoch ident
  transact (insert_operation (new_row operation))
  resume (some operation) 0
  pure operation

-- `SELECT source,target,complete,restore_contract FROM operations WHERE id=?` for `self.operation`
unfoldable pub current_row : State → Option OperationRow
unfolding select_operation
current_row s = elim s.operation [ none ↦ none | some o ↦ select_operation o.id s.db ]

-- `phase_plan(*row[:2]) if row and not row[2] else ()`
unfoldable pub current_plan : Option OperationRow → Result (List String)
current_plan none = ok []
current_plan (some r) = if r.complete then ok [] else phase_plan r.source r.target

-- `row[:2]==(self.operation['source'],self.operation['target']) and row[3]==RESTORE_CONTRACT`
unfoldable pub row_matches : Option Operation → Option OperationRow → Bool
unfolding is_acceptance
row_matches (some o) (some r) =
    r.source == o.source && r.target == o.target && is_acceptance r.restore_contract
row_matches _ _ = false

-- `self.next < len(plan) and plan[self.next] == phase`
unfoldable pub is_due : ℕ → String → List String → Bool
is_due n phase plan = elim (get_elem? plan n) [ none ↦ false | some p ↦ p == phase ]

unfoldable pub out_of_order : State → String → List String → Bool
unfolding row_matches is_due current_row
out_of_order s phase plan =
    not (row_matches s.operation (current_row s)) || s.pending || not (is_due s.next phase plan)

-- `INSERT INTO steps VALUES(self.operation['id'], self.next, phase, status, evidence)`, committed
unfoldable pub record_step : String → Status → Column → Exec State (Unit {0})
unfolding transact insert_step
record_step phase status evidence s = elim s.operation [
  | none ↦ (raise (type_error "no operation"), s)
  | some o ↦
      transact
        (insert_step (record {
          operation = o.id;
          position = s.next;
          phase = phase;
          status = status;
          evidence = evidence;
        }))
        s
]

unfoldable pub set_pending : Exec State (Unit {0})
set_pending s = (ok tt, record s { journal = record s.journal { pending = true } })

-- `self.next += 1; self.pending = False`
unfoldable pub advance : Exec State (Unit {0})
advance s = (ok tt, record s { journal = record s.journal { next = s.next + 1; pending = false } })

-- the checks of `step` before it writes anything
unfoldable pub may_step : String → State → Result (Unit {0})
unfolding current_plan out_of_order
may_step phase s = Fallible.◌>>◌ (authority_of s.journal s.disk) (
    Fallible.◌>>=◌ (current_plan (current_row s)) λ plan.
      raise_if (out_of_order s phase plan)
        (runtime_error "out-of-order or uncertain step; no retry"))

-- `step` up to the call of its action: the intent is committed
unfoldable pub open_step : String → Exec State (Unit {0})
unfolding may_step set_pending record_step
open_step phase = do
  s ← gets (λ s. s)
  lift (may_step phase s)
  set_pending
  record_step phase intent (dumped (obj end))

-- `step` after its action
unfoldable pub close_step : String → Value → Exec State Value
unfolding check_authority dumps record_step advance
close_step phase result = do
  check_authority
  evidence ← lift (dumps result)
  record_step phase done evidence
  advance
  pure result

unfoldable pub step : String → Exec State Value → Exec State Value
step phase action = do open_step phase; result ← action; close_step phase result

-- The evidence of the rows that are done, by phase: `{p: json.loads(e) for ... if s=='done'}`.
unfoldable pub evidence_of : List StepRow → Result (List (String × Value))
unfolding loads
evidence_of [] = ok []
evidence_of (s ∷ ss) =
    let rest = evidence_of ss in
    if s.status == done
    then bind (loads s.evidence) (λ v. bind rest (λ more. ok ((s.phase, v) ∷ more)))
    else rest

unfoldable pub find_unfinished : String → Db → Option OperationRow
find_unfinished ident db = find? (λ r. r.id == ident && not r.complete) db.operations

-- `not row or row[1:3] != direction or row[5] != RESTORE_CONTRACT`, or else the row
unfoldable pub directed_row : String × String → Option OperationRow → Result OperationRow
unfolding is_acceptance
directed_row direction none =
    raise (runtime_error "operation direction, identity, or restore contract differs")
directed_row direction (some r) =
    if ◌==◌ {A = String × String} (r.source, r.target) direction && is_acceptance r.restore_contract
    then ok r
    else raise (runtime_error "operation direction, identity, or restore contract differs")

unfoldable pub boundary :
    String → ℕ → String × String → Exec State (Operation × List (String × Value))
unfolding check_authority
boundary ident position direction = do
  check_authority
  throw_if (not (is_operation ident)) (value_error "invalid operation")
  s ← gets (λ s. s)
  row ← lift (directed_row direction (find_unfinished ident s.db))
  plan ← lift (phase_plan row.source row.target)
  throw_if (not (ltb position (length plan))) (runtime_error "invalid operation boundary")
  throw_if (not (map mark (steps_of ident s.db) == boundary_marks position plan))
      (runtime_error "not the exact pending boundary")
  evidence ←
      lift (
        or_raise (evidence_of (steps_of ident s.db)) (runtime_error "malformed operation evidence"))
  pure (row.operation, evidence)

unfoldable pub comparison_boundary : String → Exec State (Operation × List (String × Value))
unfolding boundary
comparison_boundary ident = boundary ident 5 ("A", "B")

unfoldable pub verification_boundary : String → Exec State (Operation × List (String × Value))
unfolding boundary
verification_boundary ident = boundary ident 9 ("A", "B")

-- `self.db.execute('UPDATE operations SET complete=1 ...')`, refused if it changes no row
unfoldable pub complete_operation : String → Db → Result Db
unfolding set_complete is_acceptance
complete_operation ident db =
    if any (λ r. r.id == ident && is_acceptance r.restore_contract) db.operations
    then ok (set_complete ident db)
    else raise (runtime_error "operation restore contract differs")

-- `SELECT position,phase,status FROM steps WHERE operation=? ORDER BY rowid` for `self.operation`
unfoldable pub current_marks : State → List Mark
unfolding steps_of
current_marks s = elim s.operation [ none ↦ [] | some o ↦ map mark (steps_of o.id s.db) ]

unfoldable pub is_unfinished_run : State → List String → Bool
unfolding row_matches current_row current_marks
is_unfinished_run s plan =
    not (row_matches s.operation (current_row s))
    || s.pending
    || not (s.next == length plan)
    || not (current_marks s == expected plan)

unfoldable pub close_operation : Exec State (Unit {0})
unfolding transact complete_operation
close_operation s = elim s.operation [
  | none ↦ (raise (type_error "no operation"), s)
  | some o ↦ transact (complete_operation o.id) s
]

-- `self.operation = None`
unfoldable pub forget : Exec State (Unit {0})
forget s = (ok tt, record s { journal = record s.journal { operation = none } })

-- the checks of `finish`
unfoldable pub may_finish : State → Result (Unit {0})
unfolding current_plan is_unfinished_run
may_finish s = Fallible.◌>>◌ (authority_of s.journal s.disk) (
    Fallible.◌>>=◌ (current_plan (current_row s)) λ plan.
      raise_if (is_unfinished_run s plan)
        (runtime_error "cannot complete an unfinished transition"))

unfoldable pub finish : Exec State (Unit {0})
unfolding may_finish close_operation forget
finish = do s ← gets (λ s. s); lift (may_finish s); close_operation; forget
