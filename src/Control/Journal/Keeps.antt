-- ===== src/Control/Journal/Keeps.antt =====
-- Every method of class Journal keeps the journal's invariant, whether it returns or raises.
use highly_available_trailba.Prelude.{
  ◌≡◌, refl, inl, inr, ◌∙◌, sym, ap, true, false, String, List, [], ◌∷◌, ◌++◌, some, some-injective,
  ok, subst, take, get_elem?, ok-injective,
}
use highly_available_trailba.Py.Value.{obj, end}
use highly_available_trailba.Control.Phases.{intent, expected, boundary_marks, phase_plan, Mark}
use highly_available_trailba.Control.Phases.Marks.{boundary_marks-intent, boundary_marks-prefix}
use highly_available_trailba.Control.Rows.{
  dumped, Operation, OperationRow, StepRow, Db, is_empty, select_operation,
}
use highly_available_trailba.Control.State.{Journal, State}
use highly_available_trailba.Control.Journal.{may_step, open_step}
use highly_available_trailba.Control.Journal.Guards.{Active, may_step-Active}
use highly_available_trailba.Control.Journal.Sound.{marks_of, IsSound, Linked, Holds, Inv}
use highly_available_trailba.Control.Journal.Sound.Tables.{add_step-IsSound, add_step-marks_self}
use highly_available_trailba.Control.Journal.Outcomes.{open_step-cases, add_step, step_row}

-- The row and the plan that the checks found are those of the invariant.
row_agree :
    (s : State) (plan : List String) (o : Operation) (l : Linked s.journal s.db o)
    → s.operation ≡ some o
    → (a : Active s plan) → a.row ≡ l.row
row_agree s plan o l current a =
    let e = some-injective a.operation o (sym a.is_current ∙ current) in
    some-injective a.row l.row
      (sym a.selected ∙ ap (λ (p : Operation). select_operation p.id s.db) e ∙ l.selected)

plan_agree :
    (s : State) (plan : List String) (o : Operation) (l : Linked s.journal s.db o)
    → s.operation ≡ some o
    → Active s plan
    → plan ≡ l.plan
plan_agree s plan o l current a = ok-injective (
    sym a.is_plan
    ∙ ap (λ (r : OperationRow). phase_plan r.source r.target) (row_agree s plan o l current a)
    ∙ l.is_plan)

-- The journal stands at the boundary of a phase: its intent is durable and its action is out.
pub record AtBoundary (j : Journal) (db : Db) (phase : String) : Type 0 where
  pub sound : IsSound db
  pub operation : Operation
  pub current : j.operation ≡ some operation
  pub link : Linked j db operation
  pub due : get_elem? link.plan j.next ≡ some phase
  pub marks : marks_of operation.id db ≡ boundary_marks j.next link.plan

pub AtBoundary-Holds : {j : Journal} {db : Db} {phase : String} → AtBoundary j db phase → Holds j db
AtBoundary-Holds {j} {db} b = record {
  sound = b.sound;
  linked = λ p e. subst (Linked j db) (some-injective b.operation p (sym b.current ∙ e)) b.link;
}

-- On an idle journal the phases before `next` are done, and no more.
pub idle_marks :
    (j : Journal) (db : Db) (o : Operation) (l : Linked j db o)
    → j.pending ≡ false
    → marks_of o.id db ≡ expected (take j.next l.plan)
idle_marks j db o l idle = elim l.marks [ inl m ↦ m | inr (p, _, _, _) ↦ cc (p, idle) ]

-- What the invariant knows of a phase that `step` accepts.
pub record Due (s : State) (phase : String) (o : Operation) : Type 0 where
  pub link : Linked s.journal s.db o
  pub due : get_elem? link.plan s.next ≡ some phase
  pub marks : marks_of o.id s.db ≡ expected (take s.next link.plan)
  pub idle : s.pending ≡ false

pub may_step-Due :
    (s : State) (phase : String) (o : Operation)
    → Inv s
    → s.operation ≡ some o
    → may_step phase s ≡ ok tt
    → Due s phase o
may_step-Due s phase o h current allowed =
    let l = h.linked o current in
    let (plan, a, due, _) = may_step-Active phase s allowed in
    record {
      link = l;
      due = ap (λ q. get_elem? q s.next) (sym (plan_agree s plan o l current a)) ∙ due;
      marks = idle_marks s.journal s.db o l a.idle;
      idle = a.idle;
    }

abbrev pub intent_row : State → String → Operation → StepRow
intent_row s phase o = step_row o s.next phase intent (dumped (obj end))

module _ (s : State) (phase : String) (o : Operation) (h : Inv s) (current : s.operation ≡ some o)
    (d : Due s phase o) where
  open d use {link, due, marks}

  pub intent_marks :
      marks_of o.id (add_step (intent_row s phase o) s.db) ≡ boundary_marks s.next link.plan
  intent_marks =
      add_step-marks_self (intent_row s phase o) s.db
      ∙ ap (λ (l : List Mark). l ++ (s.next, (phase, intent)) ∷ []) marks
      ∙ sym (boundary_marks-intent s.next link.plan phase due)

  -- A committed intent puts the journal at the boundary of its phase.
  pub intent-AtBoundary :
      AtBoundary (record s.journal { pending = true }) (add_step (intent_row s phase o) s.db) phase
  intent-AtBoundary =
      let (rest, e) = boundary_marks-prefix s.next link.plan phase due in
      record {
        sound =
            add_step-IsSound (intent_row s phase o) link.row s.db link.plan rest h.sound
              link.selected link.open_row link.is_plan
              (ap (λ (l : List Mark). l ++ rest)
                  (sym (add_step-marks_self (intent_row s phase o) s.db) ∙ intent_marks)
                ∙ e)
              (λ _. unfold is_empty in refl, obj end, refl);
        operation = o;
        current = current;
        link = record {
          row = link.row;
          selected = unfold select_operation in link.selected;
          same = link.same;
          open_row = link.open_row;
          contract = link.contract;
          plan = link.plan;
          is_plan = link.is_plan;
          in_range = link.in_range;
          marks = inr (refl, phase, due, intent_marks);
        };
        due = due;
        marks = intent_marks;
      }

  -- An intent that was not committed leaves the tables alone and the journal pending.
  pub pending-Holds : Holds (record s.journal { pending = true }) s.db
  pending-Holds = record {
    sound = h.sound;
    linked = λ p e'.
        subst (Linked (record s.journal { pending = true }) s.db)
          (some-injective o p (sym current ∙ e'))
          (record {
            row = link.row;
            selected = link.selected;
            same = link.same;
            open_row = link.open_row;
            contract = link.contract;
            plan = link.plan;
            is_plan = link.is_plan;
            in_range = link.in_range;
            marks = inl marks;
          });
  }

-- `step` keeps the invariant up to the call of its action.
pub open_step-Inv : (phase : String) (s : State) → Inv s → Inv (open_step phase s).1
open_step-Inv phase s h = elim (open_step-cases phase s) [
  | inl (x, e) ↦ rw e h
  | inr (inl (allowed, (x, c, e))) ↦
      let (plan, a, _, _) = may_step-Active phase s allowed in
      rw e (
        pending-Holds s phase a.operation h a.is_current
          (may_step-Due s phase a.operation h a.is_current allowed))
  | inr (inr (allowed, (o, c, current, e))) ↦ rw e (
      AtBoundary-Holds
        (intent-AtBoundary s phase o h current (may_step-Due s phase o h current allowed)))
]
