-- ===== src/Control/Journal/Closing.antt =====
-- The second half of `step`, after its action, and `step` as a whole.
use highly_available_trailba.Prelude.{
  suc, ◌+◌, ◌≡◌, refl, inl, inr, ◌∙◌, sym, ap, String, List, [], ◌∷◌, ◌++◌, some-injective, Result,
  ok, raise, arith, subst, subst₂, take,
}
use highly_available_trailba.Exec.{Exec, continue}
use highly_available_trailba.Py.Value.{Value}
use highly_available_trailba.Control.Phases.{status_eq, done, expected, Mark}
use highly_available_trailba.Control.Phases.Marks.{
  boundary_marks-done, expected-take_prefix, get_elem?-lt,
}
use highly_available_trailba.Control.Rows.{Column, select_operation, dumps}
use highly_available_trailba.Control.Rows.Queries.{dumps_lem}
use highly_available_trailba.Control.State.{State}
use highly_available_trailba.Control.Journal.{open_step, close_step, step}
use highly_available_trailba.Control.Journal.Sound.{marks_of, Linked, Holds, Inv}
use highly_available_trailba.Control.Journal.Sound.Tables.{add_step-IsSound, add_step-marks_self}
use highly_available_trailba.Control.Journal.Outcomes.{
  open_step-cases, close_step-cases, add_step, step_row, advanced,
}
use highly_available_trailba.Control.Journal.Keeps.{
  AtBoundary, AtBoundary-Holds, may_step-Due, intent-AtBoundary, open_step-Inv,
}

module _ (s : State) (phase : String) (b : AtBoundary s.journal s.db phase) (v : Value) (e : Column)
    (written : dumps v ≡ ok e) where
  open b use {operation, current, link, due, marks}

  done_marks :
      marks_of operation.id (add_step (step_row operation s.next phase done e) s.db)
      ≡ expected (take (suc s.next) link.plan)
  done_marks =
      add_step-marks_self (step_row operation s.next phase done e) s.db
      ∙ ap (λ (l : List Mark). l ++ (s.next, (phase, done)) ∷ []) marks
      ∙ boundary_marks-done s.next link.plan phase due

  next_suc : s.next + 1 ≡ suc s.next
  next_suc = omega arith

  -- A committed completion makes the next phase due.
  pub done-Holds :
      Holds (advanced s).journal (add_step (step_row operation s.next phase done e) s.db)
  done-Holds =
      let (rest, p) = expected-take_prefix (suc s.next) link.plan in
      record {
        sound =
            add_step-IsSound (step_row operation s.next phase done e) link.row s.db link.plan rest
              b.sound link.selected link.open_row link.is_plan
              (ap (λ (l : List Mark). l ++ rest)
                  (sym (add_step-marks_self (step_row operation s.next phase done e) s.db)
                    ∙ done_marks)
                ∙ p)
              (λ i. cc, v, dumps_lem v written);
        linked = λ q e'.
            subst
              (Linked (advanced s).journal (add_step (step_row operation s.next phase done e) s.db))
              (some-injective operation q (sym current ∙ e'))
              (record {
                row = link.row;
                selected = unfold select_operation in link.selected;
                same = link.same;
                open_row = link.open_row;
                contract = link.contract;
                plan = link.plan;
                is_plan = link.is_plan;
                in_range = omega (arith, get_elem?-lt s.next link.plan due);
                marks = inl (done_marks ∙ ap (λ n. expected (take n link.plan)) (sym next_suc));
              });
      }

-- After its action `step` keeps the invariant.
pub close_step-Inv :
    (phase : String) (v : Value) (s : State)
    → AtBoundary s.journal s.db phase
    → Inv (close_step phase v s).1
close_step-Inv phase v s b = elim (close_step-cases phase v s b.operation b.current) [
  | inl (x, c, e) ↦ rw e (AtBoundary-Holds b)
  | inr (e, c, d, is) ↦ rw is (done-Holds s phase b v e d)
]

-- A committed intent leaves the journal at the boundary of its phase.
pub open_step-AtBoundary :
    (phase : String) (s : State)
    → Inv s
    → (open_step phase s).0 ≡ ok tt
    → AtBoundary (open_step phase s).1.journal (open_step phase s).1.db phase
open_step-AtBoundary phase s h opened = elim (open_step-cases phase s) [
  | inl (x, e) ↦ cc (opened, ap (λ (r : Result (Unit {0}) × State). r.0) e)
  | inr (inl (allowed, (x, c, e))) ↦ cc (opened, ap (λ (r : Result (Unit {0}) × State). r.0) e)
  | inr (inr (allowed, (o, c, current, e))) ↦
      rw e (intent-AtBoundary s phase o h current (may_step-Due s phase o h current allowed))
]

-- An action that leaves the journal object and its tables alone, as those of the drivers do.
pub record IsQuiet (action : Exec State Value) : Type 0 where
  pub journal : (s : State) → (action s).1.journal ≡ s.journal
  pub db : (s : State) → (action s).1.db ≡ s.db

-- Where a quiet action leaves the journal.
module _ (phase : String) (action : Exec State Value) (quiet : IsQuiet action) where
  pub action-AtBoundary :
      (s : State)
      → AtBoundary s.journal s.db phase
      → AtBoundary (action s).1.journal (action s).1.db phase
  action-AtBoundary s b =
      subst₂ (λ j db. AtBoundary j db phase) (sym (quiet.journal s)) (sym (quiet.db s)) b

  rest-Inv :
      (r : Result Value) (s : State)
      → AtBoundary s.journal s.db phase
      → Inv (continue r (close_step phase) s).1
  rest-Inv (ok v) s b = close_step-Inv phase v s b
  rest-Inv (raise x) s b = AtBoundary-Holds b

  opened-Inv :
      (r : Result (Unit {0})) (s : State)
      → Inv s
      → (r ≡ ok tt → AtBoundary s.journal s.db phase)
      → Inv (continue r (λ _ t. continue (action t).0 (close_step phase) (action t).1) s).1
  opened-Inv (raise x) s h b = h
  opened-Inv (ok u) s h b = rest-Inv (action s).0 (action s).1 (action-AtBoundary s (b refl))

  -- `step` keeps the invariant, whether it is refused, its action raises or a commit fails.
  pub step-Inv : (s : State) → Inv s → Inv (step phase action s).1
  unfolding step
  step-Inv s h =
      opened-Inv (open_step phase s).0 (open_step phase s).1 (open_step-Inv phase s h)
        (open_step-AtBoundary phase s h)
