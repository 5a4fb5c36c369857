-- ===== src/Control/Journal/Order.antt =====
-- What one call of `step` does to the journal, and when it runs its action.
use highly_available_trailba.Prelude.{
  ℕ, suc, ◌≡◌, refl, ◌⊎◌, inl, inr, ◌∙◌, sym, ap, false, String, List, ◌∷◌, some, Exc, Result, ok,
  raise, arith, subst, ap₂, ◌++◌, [], take, get_elem?,
}
use highly_available_trailba.Exec.{Exec, continue}
use highly_available_trailba.Py.Value.{Value}
use highly_available_trailba.Control.Phases.{expected, phase_plan, done, Mark}
use highly_available_trailba.Control.Rows.{Operation, Db}
use highly_available_trailba.Control.State.{Journal, State}
use highly_available_trailba.Control.Journal.{open_step, close_step, step}
use highly_available_trailba.Control.Journal.Sound.{marks_of, Inv}
use highly_available_trailba.Control.Journal.Outcomes.{
  open_step-cases, close_step-cases, pending_state, add_step, step_row,
}
use highly_available_trailba.Control.Journal.Keeps.{
  AtBoundary, Due, may_step-Due, intent_row, intent_marks,
}
use highly_available_trailba.Control.Journal.Closing.{IsQuiet, open_step-AtBoundary}
use highly_available_trailba.Control.Journal.Sound.Tables.{add_step-marks_self}
use highly_available_trailba.Control.Phases.Marks.{boundary_marks-done}

-- A step that has been made: it was the one that was due, and the next one is due now.
pub record Stepped (s : State) (phase : String) (t : State) : Type 0 where
  pub operation : Operation
  pub current : s.operation ≡ some operation
  pub kept : t.operation ≡ some operation
  pub plan : List String
  pub is_plan : phase_plan operation.source operation.target ≡ ok plan
  pub due : get_elem? plan s.next ≡ some phase
  pub before : marks_of operation.id s.db ≡ expected (take s.next plan)
  pub after : marks_of operation.id t.db ≡ expected (take (suc s.next) plan)
  pub advance : t.next ≡ suc s.next
  pub idle : (s.pending ≡ false) × (t.pending ≡ false)

abbrev pub then_close : String → Exec State Value → Result (Unit {0}) × State → Result Value × State
then_close phase action r =
    continue r.0 (λ _ t. continue (action t).0 (close_step phase) (action t).1) r.1

pub step_lem :
    (phase : String) (action : Exec State Value) (s : State)
    → step phase action s ≡ then_close phase action (open_step phase s)
unfolding step
step_lem phase action s = refl

-- the result and the state of a call, with its outcome
abbrev Outcome : State → String → Result Value × State → Type 0
Outcome s phase r =
    ((x : Exc) × (r.0 ≡ raise x)) ⊎ ((v : Value) × (r.0 ≡ ok v) × Stepped s phase r.1)

module _ (s : State) (phase : String) (o : Operation) (h : Inv s) (current : s.operation ≡ some o)
    (d : Due s phase o) where
  open d use {link}

  planned : phase_plan o.source o.target ≡ ok link.plan
  planned = ap (λ (p : Operation). phase_plan p.source p.target) (sym link.same) ∙ link.is_plan

  -- What the second half of `step` makes of the state that the action leaves.
  close-Outcome :
      (r : Result Value) (t : State)
      → t.journal ≡ (pending_state s).journal
      → t.db ≡ add_step (intent_row s phase o) s.db
      → Outcome s phase (continue r (close_step phase) t)
  close-Outcome (raise x) t ej ed = inl (x, refl)
  close-Outcome (ok v) t ej ed =
      elim (close_step-cases phase v t o (ap (λ (j : Journal). j.operation) ej ∙ current)) [
        | inl (x, c, e) ↦ inl (x, ap (λ (r : Result Value × State). r.0) e)
        | inr (e, c, _, is) ↦
            let n : t.next ≡ s.next = ap (λ (j : Journal). j.next) ej in
            subst (Outcome s phase) (sym is) (
              inr (
                v,
                refl,
                record {
                  operation = o;
                  current = current;
                  kept = ap (λ (j : Journal). j.operation) ej ∙ current;
                  plan = link.plan;
                  is_plan = planned;
                  due = d.due;
                  before = d.marks;
                  after =
                      add_step-marks_self (step_row o t.next phase done e) t.db
                      ∙ ap₂ (λ (db : Db) (k : ℕ). marks_of o.id db ++ (k, (phase, done)) ∷ []) ed n
                      ∙ ap (λ (l : List Mark). l ++ (s.next, (phase, done)) ∷ [])
                          (intent_marks s phase o h current d)
                      ∙ boundary_marks-done s.next link.plan phase d.due;
                  advance = omega (arith, n);
                  idle = (d.idle, refl);
                },
              ))
      ]

module _ (phase : String) (action : Exec State Value) (quiet : IsQuiet action) where
  step-Outcome : (s : State) → Inv s → Outcome s phase (step phase action s)
  step-Outcome s h =
      subst (Outcome s phase) (sym (step_lem phase action s)) (elim (open_step-cases phase s) [
        | inl (x, e) ↦
            subst (Outcome s phase) (sym (ap (then_close phase action) e)) (inl (x, refl))
        | inr (inl (allowed, (x, c, e))) ↦
            subst (Outcome s phase) (sym (ap (then_close phase action) e)) (inl (x, refl))
        | inr (inr (allowed, (o, c, current, e))) ↦
            let d = may_step-Due s phase o h current allowed in
            let t = record (pending_state s) {
              db = add_step (intent_row s phase o) s.db;
              commits = c;
            } in
            subst (Outcome s phase) (sym (ap (then_close phase action) e)) (
              close-Outcome s phase o h current d (action t).0 (action t).1 (quiet.journal t)
                (quiet.db t))
      ])

  -- A call of `step` that returns made exactly the step that was due: the journal was idle, the
  -- phase is the next one of the operation's plan, the rows before were those of the phases done,
  -- and the rows after are those with this phase too; the phase after it is due.
  pub step-order :
      (s : State)
      → Inv s
      → {v : Value} → (step phase action s).0 ≡ ok v
      → Stepped s phase (step phase action s).1
  step-order s h e = elim (step-Outcome s h) [ inl (x, r) ↦ cc (r, e) | inr (v, _, made) ↦ made ]

-- `step` calls its action at most once, and only with the phase's intent durable and the journal at
-- the boundary of that phase: two actions that do the same there give the same call.
pub step-effect_after_intent :
    (phase : String) (a b : Exec State Value) (s : State)
    → Inv s
    → ((t : State) → AtBoundary t.journal t.db phase → a t ≡ b t)
    → step phase a s ≡ step phase b s
step-effect_after_intent phase a b s h same =
    step_lem phase a s
    ∙ go (open_step phase s).0 (open_step phase s).1 (open_step-AtBoundary phase s h)
    ∙ sym (step_lem phase b s)
  where
    go :
        (r : Result (Unit {0})) (t : State)
        → (r ≡ ok tt → AtBoundary t.journal t.db phase)
        → then_close phase a (r, t) ≡ then_close phase b (r, t)
    go (raise x) t at = refl
    go (ok u) t at =
        ap (λ (q : Result Value × State). continue q.0 (close_step phase) q.1) (same t (at refl))
