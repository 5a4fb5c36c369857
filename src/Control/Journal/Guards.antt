-- ===== src/Control/Journal/Guards.antt =====
-- What the checks of `step` and `finish` establish when they pass.
use highly_available_trailba.Prelude.{
  ℕ, ◌≡◌, refl, true, false, not, ◌||◌, String, List, [], ◌∷◌, ◌≢◌, ap, sym, ◌∙◌, map, Option, none,
  some, ◌==◌, string_eq, nat_eq, list_eq, pair_eq, list_beq_iff, eq_iff, length, get_elem?, ok,
  raise_if-eq-ok, bind-eq-ok, ||-eq-false, not-eq-false, arith,
}
use highly_available_trailba.Control.Phases.{phase_plan, expected, status_eq}
use highly_available_trailba.Control.Rows.{
  Operation, OperationRow, mark, is_acceptance, select_operation, steps_of,
}
use highly_available_trailba.Control.State.{State, authority_of}
use highly_available_trailba.Control.Journal.{
  current_row, current_plan, row_matches, is_due, out_of_order, may_step, may_finish,
  is_unfinished_run, current_marks,
}

-- The journal's operation, with its row and its plan, as `step` and `finish` find them.
pub record Active (s : State) (plan : List String) : Type 0 where
  pub operation : Operation
  pub is_current : s.operation ≡ some operation
  pub row : OperationRow
  pub selected : select_operation operation.id s.db ≡ some row
  pub unfinished : row.complete ≡ false
  pub source : row.source ≡ operation.source
  pub target : row.target ≡ operation.target
  pub contract : is_acceptance row.restore_contract ≡ true
  pub is_plan : phase_plan row.source row.target ≡ ok plan
  pub idle : s.pending ≡ false

module _ (s : State) (plan : List String) (idle : s.pending ≡ false) (planned : plan ≢ []) where
  row_matches-Active :
      (o : Option Operation) (r : Option OperationRow)
      → s.operation ≡ o
      → current_row s ≡ r
      → row_matches o r ≡ true
      → current_plan r ≡ ok plan
      → Active s plan
  unfolding row_matches current_plan select_operation current_row
  row_matches-Active none none eo er m p = cc
  row_matches-Active none (some r) eo er m p = cc
  row_matches-Active (some o) none eo er m p = cc
  row_matches-Active (some o) (some r) eo er m p = record {
    operation = o;
    is_current = eo;
    row = r;
    selected = rw eo at er;
    unfinished = ground (arith, planned);
    source = ground (arith, eq_iff r.source o.source);
    target = ground (arith, eq_iff r.target o.target);
    contract = ground arith;
    is_plan = ground (arith, planned);
    idle = idle;
  }

get_elem?-nil : (n : ℕ) {p : String} (plan : List String) → get_elem? plan n ≡ some p → plan ≢ []
get_elem?-nil n [] h = cc
get_elem?-nil n (q ∷ plan) h = λ e. cc

is_due-get_elem? :
    (n : ℕ) (phase : String) (plan : List String)
    → is_due n phase plan ≡ true
    → get_elem? plan n ≡ some phase
unfolding is_due
is_due-get_elem? n phase plan h = go (get_elem? plan n) h
  where
    go : (o : Option String) → elim o [ none ↦ false | some p ↦ p == phase ] ≡ true → o ≡ some phase
    go none h = cc
    go (some p) h = ap some ((eq_iff p phase).0 h)

-- `step` passes its checks only for the phase that is due, on an idle journal.
pub may_step-Active :
    (phase : String) (s : State) {u : Unit {0}}
    → may_step phase s ≡ ok u
    → (plan : List String) × Active s plan
      × (get_elem? plan s.next ≡ some phase)
      × (authority_of s.journal s.disk ≡ ok tt)
unfolding may_step
may_step-Active phase s h =
    let (a, ea, h1) = bind-eq-ok (authority_of s.journal s.disk) _ h in
    let (plan, ep, h2) = bind-eq-ok (current_plan (current_row s)) _ h1 in
    let ordered = raise_if-eq-ok (out_of_order s phase plan) _ h2 in
    let (p, q) =
      ||-eq-false (not (row_matches s.operation (current_row s)) || s.pending)
        (not (is_due s.next phase plan)) ordered in
    let (m, i) = ||-eq-false (not (row_matches s.operation (current_row s))) s.pending p in
    let due = is_due-get_elem? s.next phase plan (not-eq-false _ q) in
    (
      plan,
      row_matches-Active s plan i (get_elem?-nil s.next plan due) s.operation (current_row s) refl
          refl (not-eq-false _ m) ep,
      due,
      ea,
    )

pub record Run (s : State) (plan : List String) : Type 0 where
  pub planned : current_plan (current_row s) ≡ ok plan
  pub matches : row_matches s.operation (current_row s) ≡ true
  pub idle : s.pending ≡ false
  pub at_end : s.next ≡ length plan
  pub marks : current_marks s ≡ expected plan

-- `finish` passes its checks only when every phase of the plan is recorded as done.
pub may_finish-Run :
    (s : State) {u : Unit {0}} → may_finish s ≡ ok u → (plan : List String) × Run s plan
unfolding may_finish
may_finish-Run s h =
    let (a, ea, h1) = bind-eq-ok (authority_of s.journal s.disk) _ h in
    let (plan, ep, h2) = bind-eq-ok (current_plan (current_row s)) _ h1 in
    let over = raise_if-eq-ok (is_unfinished_run s plan) _ h2 in
    let (p, q) =
      ||-eq-false
        (not (row_matches s.operation (current_row s)) || s.pending || not (s.next == length plan))
        (not (current_marks s == expected plan)) over in
    let (p', n) =
      ||-eq-false (not (row_matches s.operation (current_row s)) || s.pending)
        (not (s.next == length plan)) p in
    let (m, i) = ||-eq-false (not (row_matches s.operation (current_row s))) s.pending p' in
    (
      plan,
      record {
        planned = ep;
        matches = not-eq-false _ m;
        idle = i;
        at_end = ground arith;
        marks = (list_beq_iff (current_marks s) (expected plan)).0 (not-eq-false _ q);
      },
    )

row_matches-operation :
    (o : Option Operation) (r : Option OperationRow)
    → row_matches o r ≡ true
    → (p : Operation) × (o ≡ some p)
unfolding row_matches
row_matches-operation none none m = cc
row_matches-operation none (some r) m = cc
row_matches-operation (some o) r m = (o, refl)

-- A journal that may finish has an operation.
pub Run-operation :
    {s : State} {plan : List String} → Run s plan → (o : Operation) × (s.operation ≡ some o)
Run-operation {s} r = row_matches-operation s.operation (current_row s) r.matches

pub current_row_lem :
    (s : State) (o : Operation) → s.operation ≡ some o → current_row s ≡ select_operation o.id s.db
unfolding current_row
current_row_lem s o e = ground arith

current_plan_lem :
    (r : OperationRow) → r.complete ≡ false → phase_plan r.source r.target ≡ current_plan (some r)
unfolding current_plan
current_plan_lem r e = ground arith

current_marks_lem :
    (s : State) (o : Operation)
    → s.operation ≡ some o
    → map mark (steps_of o.id s.db) ≡ current_marks s
unfolding current_marks
current_marks_lem s o e = ground arith

-- With the row at hand, the checks of `finish` speak of its plan and its rows.
pub Run-plan :
    (s : State) (plan : List String) (o : Operation) (row : OperationRow)
    → Run s plan
    → s.operation ≡ some o
    → select_operation o.id s.db ≡ some row
    → row.complete ≡ false
    → (phase_plan row.source row.target ≡ ok plan) × (map mark (steps_of o.id s.db) ≡ expected plan)
Run-plan s plan o row r current sel open_row =
    let e : current_row s ≡ some row = current_row_lem s o current ∙ sel in
    (
      current_plan_lem row open_row ∙ ap current_plan (sym e) ∙ r.planned,
      current_marks_lem s o current ∙ r.marks,
    )
