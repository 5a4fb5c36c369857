-- ===== src/Control/Journal/Stuck.antt =====
-- A step whose outcome is not known is never tried again by the same journal object.
use highly_available_trailba.Prelude.{
  ◌≡◌, ◌∙◌, ap, inl, inr, true, false, String, some, Exc, ok, raise, Result-cases, bind-eq-ok,
  raise_if-eq-ok, ||-eq-false,
}
use highly_available_trailba.Exec.{Exec}
use highly_available_trailba.Py.Value.{Value}
use highly_available_trailba.Control.Phases.{phase_plan}
use highly_available_trailba.Control.Rows.{Operation, has_unfinished}
use highly_available_trailba.Control.State.{State, authority_of}
use highly_available_trailba.Control.Journal.{
  step, begin, finish, may_step, may_begin, may_finish, valid_epoch, is_some,
}
use highly_available_trailba.Control.Journal.Guards.{may_step-Active, may_finish-Run}
use highly_available_trailba.Control.Journal.Outcomes.{open_step-refused}
use highly_available_trailba.Control.Journal.Edges.{begin-refused, finish-refused}
use highly_available_trailba.Control.Journal.Order.{then_close, step_lem}

pub may_begin-idle :
    (source target : String) (source_epoch : Value) (s : State) {epoch : String}
    → may_begin source target source_epoch s ≡ ok epoch
    → (is_some s.operation ≡ false) × (has_unfinished s.db ≡ false)
unfolding may_begin
may_begin-idle source target source_epoch s h =
    let (a, ea, h1) = bind-eq-ok (authority_of s.journal s.disk) _ h in
    let (plan, ep, h2) = bind-eq-ok (phase_plan source target) _ h1 in
    let (epoch, ee, h3) = bind-eq-ok (valid_epoch source_epoch) _ h2 in
    let (u, eu, h4) = bind-eq-ok _ _ h3 in
    ||-eq-false (is_some s.operation) (has_unfinished s.db) (raise_if-eq-ok _ _ eu)

module _ (s : State) (o : Operation) (current : s.operation ≡ some o)
    (pending : s.pending ≡ true) where
  no_step :
      (phase : String) (action : Exec State Value)
      → (x : Exc) × (step phase action s ≡ (raise x, s))
  no_step phase action = elim (Result-cases (may_step phase s)) [
    | inl (x, e) ↦
        (x, step_lem phase action s ∙ ap (then_close phase action) (open_step-refused phase s x e))
    | inr (u, e) ↦ let (_, a, _, _) = may_step-Active phase s e in cc (a.idle, pending)
  ]

  no_begin :
      (source target : String) (source_epoch : Value) (ident : String)
      → (x : Exc) × (begin source target source_epoch ident s ≡ (raise x, s))
  no_begin source target source_epoch ident =
      elim (Result-cases (may_begin source target source_epoch s)) [
        | inl (x, e) ↦ (x, begin-refused source target source_epoch ident s x e)
        | inr (epoch, e) ↦
            let (idle, _) = may_begin-idle source target source_epoch s e in
            cc (idle, ap is_some current)
      ]

  no_finish : (x : Exc) × (finish s ≡ (raise x, s))
  no_finish = elim (Result-cases (may_finish s)) [
    | inl (x, e) ↦ (x, finish-refused s x e)
    | inr (u, e) ↦ let (_, r) = may_finish-Run s e in cc (r.idle, pending)
  ]

  -- While a step is pending, its outcome unknown, the journal object refuses every further step,
  -- every new operation and the completion of this one; a refused call writes no row and leaves the
  -- object as it is.
  pub pending_refuses :
      (phase : String) (action : Exec State Value) (source target : String) (source_epoch : Value)
      (ident : String)
      → ((x : Exc) × (step phase action s ≡ (raise x, s)))
        × ((x : Exc) × (begin source target source_epoch ident s ≡ (raise x, s)))
        × ((x : Exc) × (finish s ≡ (raise x, s)))
  pending_refuses phase action source target source_epoch ident =
      (no_step phase action, no_begin source target source_epoch ident, no_finish)
