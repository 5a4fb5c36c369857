-- ===== src/Control/Journal/Recovery.antt =====
-- After a crash inside a step, `_boundary` finds that step again.
use highly_available_trailba.Prelude.{
  ℕ, suc, ◌≡◌, refl, ◌∙◌, sym, ap, inl, inr, Bool, true, false, not, ◌&&◌, String, List, [], ◌∷◌,
  ◌++◌, map, some, Result, ok, arith, subst, some-injective, ok-injective, inr, take, get_elem?,
  length, ltb, All, find?, ◌==◌, string_eq, nat_eq, pair_eq, list_eq, append-nil, ◌⊎◌, pair_beq,
  beq_refl, Bool-cases,
}
use highly_available_trailba.Py.Value.{Value}
use highly_available_trailba.Py.Text.{is_operation}
use highly_available_trailba.Control.Phases.{
  expected_from, boundary_marks, phase_plan, Mark, intent, done, status_eq, status_beq,
}
use highly_available_trailba.Control.Phases.Marks.{boundary_marks-intent, get_elem?-lt}
use highly_available_trailba.Control.Rows.{
  Operation, OperationRow, StepRow, Db, dumped, mark, is_acceptance, select_operation, rows_of,
  steps_of,
}
use highly_available_trailba.Control.State.{State, authority_of}
use highly_available_trailba.Control.Journal.{
  open_step, boundary, evidence_of, find_unfinished, directed_row,
}
use highly_available_trailba.Control.Journal.Sound.{IsClean, Inv}
use highly_available_trailba.Control.Journal.Keeps.{
  AtBoundary, intent-AtBoundary, may_step-Due, intent_row,
}
use highly_available_trailba.Control.Journal.Outcomes.{open_step-cases, pending_state, add_step}

-- the phases that the rows say are done
abbrev done_phases : List Mark → List String
done_phases [] = []
done_phases ((n, (p, intent)) ∷ ms) = done_phases ms
done_phases ((n, (p, done)) ∷ ms) = p ∷ done_phases ms

rows_of-IsClean :
    (ident : String) (xs : List StepRow) → All IsClean xs → All IsClean (rows_of ident xs)
rows_of-IsClean ident [] h = tt
rows_of-IsClean ident (x ∷ xs) h = elim (Bool-cases (x.operation == ident)) [
  | inl t ↦ rw t (h.0, rows_of-IsClean ident xs h.1)
  | inr f ↦ rw f (rows_of-IsClean ident xs h.1)
]

evidence_of-intent :
    (x : StepRow) (xs : List StepRow) → x.status ≡ intent → evidence_of (x ∷ xs) ≡ evidence_of xs
unfolding evidence_of status_beq
evidence_of-intent x xs e = ground arith

evidence_of-done :
    (x : StepRow) (xs : List StepRow) {v : Value} {ev : List (String × Value)}
    → x.status ≡ done
    → x.evidence ≡ dumped v
    → evidence_of xs ≡ ok ev
    → evidence_of (x ∷ xs) ≡ ok ((x.phase, v) ∷ ev)
unfolding evidence_of status_beq
evidence_of-done x xs s d e = ground arith

done_phases-cons :
    (x : StepRow) (ms : List Mark)
    → ((x.status ≡ intent) × (done_phases (mark x ∷ ms) ≡ done_phases ms))
      ⊎ ((x.status ≡ done) × (done_phases (mark x ∷ ms) ≡ x.phase ∷ done_phases ms))
done_phases-cons x ms = ground arith

-- The evidence of clean rows can be read, a value for each phase that is done.
evidence_of-IsClean :
    (xs : List StepRow)
    → All IsClean xs
    → (ev : List (String × Value)) × (evidence_of xs ≡ ok ev)
      × (map (λ p. p.0) ev ≡ done_phases (map mark xs))
unfolding evidence_of
evidence_of-IsClean [] h = ([], refl, refl)
evidence_of-IsClean (x ∷ xs) h =
    let (ev, e, p) = evidence_of-IsClean xs h.1 in
    elim (done_phases-cons x (map mark xs)) [
      | inl (s, q) ↦ (ev, evidence_of-intent x xs s ∙ e, p ∙ sym q)
      | inr (s, q) ↦ (
        (x.phase, h.0.1) ∷ ev,
        evidence_of-done x xs s h.0.2 e,
        ap (λ (l : List String). x.phase ∷ l) p ∙ sym q,
      )
    ]

done_phases-expected :
    (i : ℕ) (plan : List String) (rest : List Mark)
    → done_phases (expected_from i plan ++ rest) ≡ plan ++ done_phases rest
done_phases-expected i [] rest = refl
done_phases-expected i (p ∷ plan) rest =
    ap (λ (l : List String). p ∷ l) (done_phases-expected (suc i) plan rest)

done_phases-boundary :
    (n : ℕ) (plan : List String) (p : String)
    → get_elem? plan n ≡ some p
    → done_phases (boundary_marks n plan) ≡ take n plan
done_phases-boundary n plan p due =
    ap done_phases (boundary_marks-intent n plan p due)
    ∙ done_phases-expected 0 (take n plan) ((n, (p, intent)) ∷ [])
    ∙ append-nil (take n plan)

find?-stronger :
    {A : Type 0} (p q : A → Bool) (xs : List A) {a : A}
    → find? p xs ≡ some a
    → q a ≡ true
    → find? (λ x. p x && q x) xs ≡ some a
find?-stronger p q [] h g = cc
find?-stronger p q (x ∷ xs) {a} h g = elim (Bool-cases (p x)) [
  | inl t ↦ let e : x ≡ a = ground arith in ground (arith, subst (λ y. q y ≡ true) (sym e) g)
  | inr f ↦ ground (arith, find?-stronger p q xs {a = a})
]

-- An operation that is selected and not complete is found among those not complete.
pub find_unfinished-select :
    (ident : String) (db : Db) {r : OperationRow}
    → select_operation ident db ≡ some r
    → r.complete ≡ false
    → find_unfinished ident db ≡ some r
unfolding select_operation find_unfinished
find_unfinished-select ident db sel open_row =
    find?-stronger (λ (q : OperationRow). q.id == ident) (λ q. not q.complete) db.operations sel
      (rw open_row refl)

directed_row_lem :
    (r : OperationRow)
    → is_acceptance r.restore_contract ≡ true
    → directed_row (r.source, r.target) (some r) ≡ ok r
unfolding directed_row pair_beq
directed_row_lem r c = rw (beq_refl r.source, beq_refl r.target, c) refl

ltb_of :
    (n : ℕ) (plan : List String) {p : String}
    → get_elem? plan n ≡ some p
    → ltb n (length plan) ≡ true
ltb_of n plan due = ground (arith, get_elem?-lt n plan due)

steps_of_lem : (ident : String) (db : Db) → steps_of ident db ≡ rows_of ident db.steps
unfolding steps_of
steps_of_lem ident db = refl

boundary_lem :
    (ident : String) (position : ℕ) (direction : String × String) (t : State) (row : OperationRow)
    (plan : List String) {ev : List (String × Value)}
    → authority_of t.journal t.disk ≡ ok tt
    → is_operation ident ≡ true
    → find_unfinished ident t.db ≡ some row
    → directed_row direction (some row) ≡ ok row
    → phase_plan row.source row.target ≡ ok plan
    → ltb position (length plan) ≡ true
    → (map mark (steps_of ident t.db) == boundary_marks position plan) ≡ true
    → evidence_of (steps_of ident t.db) ≡ ok ev
    → boundary ident position direction t ≡ (ok (row.operation, ev), t)
unfolding boundary
boundary_lem ident position direction t row plan owned named found directed is_plan inside rows e =
    rw (boundary, owned, named, found, directed, is_plan, inside, rows, e) refl

module _ (s : State) (phase : String) (b : AtBoundary s.journal s.db phase) (t : State)
    (same : t.db ≡ s.db) (owned : authority_of t.journal t.disk ≡ ok tt)
    (named : is_operation b.operation.id ≡ true) where
  open b use {operation, link, due, marks}

  at_boundary :
      (ev : List (String × Value)) × (boundary operation.id s.next
          (operation.source, operation.target)
          t
        ≡ (ok (operation, ev), t))
      × (map (λ p. p.0) ev ≡ take s.next link.plan)
  at_boundary =
      let (ev, e, p) =
        evidence_of-IsClean (rows_of operation.id s.db.steps)
          (rows_of-IsClean operation.id s.db.steps b.sound.clean) in
      let found : find_unfinished operation.id t.db ≡ some link.row =
        ap (find_unfinished operation.id) same
        ∙ find_unfinished-select operation.id s.db link.selected link.open_row in
      let rows : map mark (steps_of operation.id t.db) ≡ boundary_marks s.next link.plan =
        ap (λ (db : Db). map mark (steps_of operation.id db)) same
        ∙ ap (map mark) (steps_of_lem operation.id s.db)
        ∙ marks in
      (
        ev,
        boundary_lem operation.id s.next (operation.source, operation.target) t link.row link.plan
              owned named found
              (ap (λ (o : Operation). directed_row (o.source, o.target) (some link.row))
                  (sym link.same)
                ∙ directed_row_lem link.row link.contract)
              link.is_plan (ltb_of s.next link.plan due) ((list_eq.beq_iff _ _).1 rows)
              (ap (λ (db : Db). evidence_of (steps_of operation.id db)) same
                ∙ ap evidence_of (steps_of_lem operation.id s.db)
                ∙ e)
            ∙ ap (λ (o : Operation). (ok (o, ev), t)) link.same,
        p ∙ ap done_phases marks ∙ done_phases-boundary s.next link.plan phase due,
      )

-- The same, told of the operation and the plan that are known before the crash.
AtBoundary-of :
    (phase : String) (u t : State) (o : Operation) (plan : List String)
    → (b : AtBoundary u.journal u.db phase) → u.operation ≡ some o
    → phase_plan o.source o.target ≡ ok plan
    → is_operation o.id ≡ true
    → t.db ≡ u.db
    → authority_of t.journal t.disk ≡ ok tt
    → (ev : List (String × Value)) × (boundary o.id u.next (o.source, o.target) t ≡ (ok (o, ev), t))
      × (map (λ p. p.0) ev ≡ take u.next plan)
AtBoundary-of phase u t o plan b current is_plan named same owned =
    let q = some-injective b.operation o (sym b.current ∙ current) in
    let planned : b.link.plan ≡ plan = ok-injective (
      sym b.link.is_plan
      ∙ ap (λ (p : Operation). phase_plan p.source p.target) (b.link.same ∙ q)
      ∙ is_plan) in
    let (ev, e, p) =
      at_boundary u phase b t same owned (ap (λ (p : Operation). is_operation p.id) q ∙ named) in
    (
      ev,
      subst (λ (p : Operation). boundary p.id u.next (p.source, p.target) t ≡ (ok (p, ev), t)) q e,
      p ∙ ap (take u.next) planned,
    )

-- A process that dies while the action of a phase runs leaves its operation at a boundary that
-- `_boundary` accepts, in any later process that holds the journal: it gives the operation back,
-- with the evidence of exactly the phases of the plan before that one, and changes nothing.
pub boundary_after_crash :
    (phase : String) (s t : State) (o : Operation) (plan : List String)
    → Inv s
    → s.operation ≡ some o
    → phase_plan o.source o.target ≡ ok plan
    → is_operation o.id ≡ true
    → (open_step phase s).0 ≡ ok tt
    → t.db ≡ (open_step phase s).1.db
    → authority_of t.journal t.disk ≡ ok tt
    → (ev : List (String × Value)) × (boundary o.id s.next (o.source, o.target) t ≡ (ok (o, ev), t))
      × (map (λ p. p.0) ev ≡ take s.next plan)
boundary_after_crash phase s t o plan h current is_plan named opened same owned =
    elim (open_step-cases phase s) [
      | inl (x, e) ↦ cc (opened, ap (λ (r : Result (Unit {0}) × State). r.0) e)
      | inr (inl (allowed, (x, c, e))) ↦ cc (opened, ap (λ (r : Result (Unit {0}) × State). r.0) e)
      | inr (inr (allowed, (p, c, current', e))) ↦
          AtBoundary-of phase
            (record (pending_state s) { db = add_step (intent_row s phase p) s.db; commits = c }) t
            o plan
            (intent-AtBoundary s phase p h current' (may_step-Due s phase p h current' allowed))
            current is_plan named (same ∙ ap (λ (r : Result (Unit {0}) × State). r.1.db) e) owned
    ]
