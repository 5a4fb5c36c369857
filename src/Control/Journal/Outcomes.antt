-- ===== src/Control/Journal/Outcomes.antt =====
-- What the writes of class Journal can do: each leaves one of a few states.
use highly_available_trailba.Prelude.{
  ℕ, ◌+◌, ◌≡◌, refl, ◌⊎◌, inl, inr, ◌∙◌, ap, Bool, true, false, String, List, [], ◌∷◌, ◌++◌, some,
  Exc, Result, ok, raise, arith, Result-cases,
}
use highly_available_trailba.Exec.{continue}
use highly_available_trailba.Py.Value.{Value, obj, end}
use highly_available_trailba.Control.Phases.{Status, intent, done}
use highly_available_trailba.Control.Rows.{
  Column, dumped, dumps, Operation, StepRow, Db, insert_step,
}
use highly_available_trailba.Control.Rows.Queries.{insert_step_lem}
use highly_available_trailba.Control.State.{State, authority_of, commit, commit_failed, transact}
use highly_available_trailba.Control.Journal.{may_step, open_step, record_step, close_step}
use highly_available_trailba.Control.Journal.Guards.{may_step-Active}

-- The commit is made, or the transaction is rolled back.
commit-cases :
    (db : Db) (s : State)
    → ((x : Exc) × (c : List Bool) × (commit db s ≡ (raise x, record s { commits = c })))
      ⊎ ((c : List Bool) × (commit db s ≡ (ok tt, record s { db = db; commits = c })))
unfolding commit
commit-cases db s = go s.commits refl
  where
    go :
        (c : List Bool)
        → s.commits ≡ c
        → ((x : Exc) × (c : List Bool) × (commit db s ≡ (raise x, record s { commits = c })))
          ⊎ ((c : List Bool) × (commit db s ≡ (ok tt, record s { db = db; commits = c })))
    go [] e = inr ([], ground arith)
    go (true ∷ rest) e = inr (rest, ground arith)
    go (false ∷ rest) e = inl (commit_failed, rest, ground arith)

-- A transaction takes effect as a whole, or not at all.
pub transact-cases :
    (f : Db → Result Db) (s : State)
    → ((x : Exc) × (c : List Bool) × (transact f s ≡ (raise x, record s { commits = c })))
      ⊎ ((db : Db) × (c : List Bool) × (f s.db ≡ ok db)
          × (transact f s ≡ (ok tt, record s { db = db; commits = c })))
unfolding transact
transact-cases f s = go (f s.db) refl
  where
    go :
        (r : Result Db)
        → f s.db ≡ r
        → ((x : Exc) × (c : List Bool) × (transact f s ≡ (raise x, record s { commits = c })))
          ⊎ ((db : Db) × (c : List Bool) × (f s.db ≡ ok db)
              × (transact f s ≡ (ok tt, record s { db = db; commits = c })))
    go (raise x) e = inl (x, s.commits, rw (transact, e) refl)
    go (ok db) e = elim (commit-cases db s) [
      | inl (x, c, h) ↦ inl (x, c, rw (transact, e) (unfold commit in h))
      | inr (c, h) ↦ inr (db, c, e, rw (transact, e) (unfold commit in h))
    ]

-- the row that `step` writes
abbrev pub step_row : Operation → ℕ → String → Status → Column → StepRow
step_row o n phase status evidence = record {
  operation = o.id;
  position = n;
  phase = phase;
  status = status;
  evidence = evidence;
}

abbrev pub add_step : StepRow → Db → Db
add_step row db = record db { steps = db.steps ++ row ∷ [] }

record_step_lem :
    (phase : String) (status : Status) (evidence : Column) (s : State) (o : Operation)
    → s.operation ≡ some o
    → record_step phase status evidence s
      ≡ transact (insert_step (step_row o s.next phase status evidence)) s
unfolding record_step
record_step_lem phase status evidence s o e = ground arith

pub record_step-cases :
    (phase : String) (status : Status) (evidence : Column) (s : State) (o : Operation)
    → s.operation ≡ some o
    → ((x : Exc) × (c : List Bool) × (record_step phase status evidence s
          ≡ (raise x, record s { commits = c })))
      ⊎ ((c : List Bool) × (record_step phase status evidence s ≡ (
        ok tt,
        record s { db = add_step (step_row o s.next phase status evidence) s.db; commits = c },
      )))
record_step-cases phase status evidence s o e =
    elim (transact-cases (insert_step (step_row o s.next phase status evidence)) s) [
      | inl (x, c, h) ↦ inl (x, c, record_step_lem phase status evidence s o e ∙ h)
      | inr (db, c, i, h) ↦ inr (
        c,
        record_step_lem phase status evidence s o e
            ∙ h
            ∙ ap (λ (d : Db). (ok tt, record s { db = d; commits = c }))
                (insert_step_lem (step_row o s.next phase status evidence) s.db i),
      )
    ]

abbrev pub pending_state : State → State
pending_state s = record s { journal = record s.journal { pending = true } }

open_step_lem :
    (phase : String) (s : State) {u : Unit {0}}
    → may_step phase s ≡ ok u
    → open_step phase s ≡ record_step phase intent (dumped (obj end)) (pending_state s)
unfolding open_step
open_step_lem phase s h = rw (open_step, h) refl

pub open_step-refused :
    (phase : String) (s : State) (x : Exc)
    → may_step phase s ≡ raise x
    → open_step phase s ≡ (raise x, s)
unfolding open_step
open_step-refused phase s x h = rw (open_step, h) refl

-- `step` before its action: refused with nothing changed, its intent not committed and the journal
-- pending for good, or its intent durable.
pub open_step-cases :
    (phase : String) (s : State)
    → ((x : Exc) × (open_step phase s ≡ (raise x, s)))
      ⊎ ((may_step phase s ≡ ok tt)
          × ((x : Exc) × (c : List Bool) × (open_step phase s
                ≡ (raise x, record (pending_state s) { commits = c }))))
      ⊎ ((may_step phase s ≡ ok tt)
          × ((o : Operation) × (c : List Bool) × (s.operation ≡ some o)
              × (open_step phase s ≡ (
                ok tt,
                record (pending_state s) {
                  db = add_step (step_row o s.next phase intent (dumped (obj end))) s.db;
                  commits = c;
                },
              ))))
open_step-cases phase s = go (may_step phase s) refl
  where
    go :
        (r : Result (Unit {0}))
        → may_step phase s ≡ r
        → ((x : Exc) × (open_step phase s ≡ (raise x, s)))
          ⊎ ((may_step phase s ≡ ok tt)
              × ((x : Exc) × (c : List Bool) × (open_step phase s
                    ≡ (raise x, record (pending_state s) { commits = c }))))
          ⊎ ((may_step phase s ≡ ok tt)
              × ((o : Operation) × (c : List Bool) × (s.operation ≡ some o)
                  × (open_step phase s ≡ (
                    ok tt,
                    record (pending_state s) {
                      db = add_step (step_row o s.next phase intent (dumped (obj end))) s.db;
                      commits = c;
                    },
                  ))))
    go (raise x) e = inl (x, open_step-refused phase s x e)
    go (ok u) e =
        let (plan, a, due, _) = may_step-Active phase s e in
        elim (record_step-cases phase intent (dumped (obj end)) (pending_state s) a.operation
          a.is_current) [
            | inl (x, c, h) ↦ inr (inl (e, (x, c, open_step_lem phase s e ∙ h)))
            | inr (c, h) ↦
                inr (inr (e, (a.operation, c, a.is_current, open_step_lem phase s e ∙ h)))
          ]

abbrev pub advanced : State → State
advanced s = record s { journal = record s.journal { next = s.next + 1; pending = false } }

close_step_lem :
    (phase : String) (v : Value) (s : State) {u : Unit {0}} (e : Column)
    → authority_of s.journal s.disk ≡ ok u
    → dumps v ≡ ok e
    → close_step phase v s
      ≡ continue
          (record_step phase done e s).0
          (λ _ t. (ok v, advanced t))
          (record_step phase done e s).1
unfolding close_step
close_step_lem phase v s e a d = rw (close_step, a, d) refl

close_step-refused :
    (phase : String) (v : Value) (s : State)
    → ((x : Exc) × (authority_of s.journal s.disk ≡ raise x))
      ⊎ ((authority_of s.journal s.disk ≡ ok tt) × ((x : Exc) × (dumps v ≡ raise x)))
    → (x : Exc) × (close_step phase v s ≡ (raise x, s))
unfolding close_step
close_step-refused phase v s (inl (x, e)) = (x, rw (close_step, e) refl)
close_step-refused phase v s (inr (a, (x, e))) = (x, rw (close_step, a, e) refl)

-- `step` after its action: the completion is durable and the next phase is due, or nothing changed.
pub close_step-cases :
    (phase : String) (v : Value) (s : State) (o : Operation)
    → s.operation ≡ some o
    → ((x : Exc) × (c : List Bool) × (close_step phase v s ≡ (raise x, record s { commits = c })))
      ⊎ ((e : Column) × (c : List Bool) × (dumps v ≡ ok e)
          × (close_step phase v s ≡ (
            ok v,
            record (advanced s) {
              db = add_step (step_row o s.next phase done e) s.db;
              commits = c;
            },
          )))
close_step-cases phase v s o current = elim (Result-cases (authority_of s.journal s.disk)) [
  | inl refused ↦ let (x, e) = close_step-refused phase v s (inl refused) in inl (x, s.commits, e)
  | inr (u, a) ↦ elim (Result-cases (dumps v)) [
    | inl refused ↦
        let (x, e) = close_step-refused phase v s (inr (a, refused)) in inl (x, s.commits, e)
    | inr (e, d) ↦ elim (record_step-cases phase done e s o current) [
      | inl (x, c, h) ↦ inl (
        x,
        c,
        close_step_lem phase v s e a d
            ∙ ap (λ (r : Result (Unit {0}) × State). continue r.0 (λ _ t. (ok v, advanced t)) r.1)
                h,
      )
      | inr (c, h) ↦ inr (
        e,
        c,
        d,
        close_step_lem phase v s e a d
            ∙ ap (λ (r : Result (Unit {0}) × State). continue r.0 (λ _ t. (ok v, advanced t)) r.1)
                h,
      )
    ]
  ]
]
