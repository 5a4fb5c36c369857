-- ===== src/Control/Journal/Refines.antt =====
-- That the journal's methods, crashes and reopenings are moves of the machine.
use highly_available_trailba.Prelude.{
  ℕ, suc, ◌≡◌, refl, ◌⊎◌, inl, inr, ap, sym, ◌∙◌, subst, Bool, true, false, String, List, [], ◌∷◌,
  ◌++◌, append-nil, Option, none, some, ◌==◌, string_eq, eq_iff, find?, any, ◌||◌, ok, length,
  length-append, take, Bool-cases, arith,
}
use highly_available_trailba.Control.Phases.{Mark, phase_plan, expected}
use highly_available_trailba.Control.Rows.{
  OperationRow, StepRow, Db, mark, select_operation, insert_operation, completed, set_complete,
}
use highly_available_trailba.Control.Rows.Queries.{
  select_operation-id, insert_operation_lem, select-insert_self, select-set_complete,
}
use highly_available_trailba.Control.Journal.Sound.{marks_of, IsSound}
use highly_available_trailba.Control.Journal.Sound.Tables.{
  marks-add_step, add_step-marks_self, completed-cases,
}
use highly_available_trailba.Control.Journal.Outcomes.{add_step}
use highly_available_trailba.Control.Journal.Machine.{
  Progress, absent, running, closed, Advance, enters, writes, closes, Run, rests, moves, standing,
  progress, Shows,
}

-- What one statement does to the tables.
pub data Written (db : Db) : Db → Type 0 where
  untouched : Written db db
  added :
      (s : StepRow) (r : OperationRow)
      → select_operation s.operation db ≡ some r
      → r.complete ≡ false
      → Written db (add_step s db)
  entered :
      {db' : Db} (r : OperationRow)
      → r.complete ≡ false
      → insert_operation r db ≡ ok db'
      → Written db db'
  completes : (ident : String) → Written db (set_complete ident db)

standing-open :
    (r : OperationRow) (n : ℕ) → r.complete ≡ false → standing (some r) n ≡ running r.operation n
unfolding standing
standing-open r n h = rw (standing, h) refl

standing-closed :
    (r : OperationRow) (n : ℕ) → r.complete ≡ true → standing (some r) n ≡ closed r.operation
unfolding standing
standing-closed r n h = rw (standing, h) refl

-- Equal progress is no move.
pub stays : {p q : Progress} → p ≡ q → Run p q
stays {p} e = subst (λ q. Run p q) e rests

absent_lem : (n : ℕ) → standing none n ≡ absent
unfolding standing
absent_lem n = refl

step_of : {p p' q q' : Progress} → p ≡ p' → q ≡ q' → Advance p' q' → Run p q
step_of {p} {p'} {q} {q'} e f m =
    subst (λ x. Run p x) (sym f) (moves (subst (λ x. Run p x) e rests) m)

-- a row is added
module _ (db : Db) (s : StepRow) (r : OperationRow) (sel : select_operation s.operation db ≡ some r)
    (open_row : r.complete ≡ false) (sound : IsSound (add_step s db)) where
  longer : length (marks_of s.operation (add_step s db)) ≡ suc (length (marks_of s.operation db))
  longer =
      let e = ap (λ (l : List Mark). length l) (add_step-marks_self s db) in
      omega (arith, e, length-append {0} (marks_of s.operation db) (mark s ∷ []))

  written_here : Run (progress s.operation db) (progress s.operation (add_step s db))
  unfolding progress select_operation
  written_here =
      let n = length (marks_of s.operation db) in
      let row = sound.rows s.operation r sel in
      let whole =
        ap (λ (l : List Mark). length l)
          (ap (λ i. marks_of i (add_step s db) ++ row.rest)
              (sym (select_operation-id s.operation db sel))
            ∙ row.prefix) in
      let room = length-append {0} (marks_of s.operation (add_step s db)) row.rest in
      step_of (ap (λ o. standing o n) sel ∙ standing-open r n open_row)
        (ap (λ o. standing o (length (marks_of s.operation (add_step s db)))) sel
          ∙ ap (λ k. standing (some r) k) longer
          ∙ standing-open r (suc n) open_row)
        (writes r.operation row.plan n row.is_plan (omega (arith, longer, whole, room)))

  added-Run : (ident : String) → Run (progress ident db) (progress ident (add_step s db))
  unfolding progress
  added-Run ident = elim (Bool-cases (s.operation == ident)) [
    | inl t ↦
        subst (λ i. Run (progress i db) (progress i (add_step s db)))
          ((eq_iff s.operation ident).0 t) written_here
    | inr f ↦ other f
  ]
    where
      same_rows :
          marks_of ident db ≡ marks_of ident (add_step s db)
          → Run (progress ident db) (progress ident (add_step s db))
      same_rows e =
          stays (ap (λ (l : List Mark). standing (select_operation ident db) (length l)) e)

      other :
          (s.operation == ident) ≡ false → Run (progress ident db) (progress ident (add_step s db))
      other f = same_rows (sym (marks-add_step ident s db ∙ rw f (append-nil _)))

find?-append_other :
    {A : Type 0} (p : A → Bool) (xs : List A) (y : A)
    → p y ≡ false
    → find? p (xs ++ y ∷ []) ≡ find? p xs
find?-append_other p [] y h = ground arith
find?-append_other p (x ∷ xs) y h = ground (arith, find?-append_other p xs y h)

-- an operation is entered
module _ (db : Db) (r : OperationRow) (open_row : r.complete ≡ false)
    (fresh : any (λ q. q.id == r.id || q.new_epoch == r.new_epoch) db.operations ≡ false)
    (before : IsSound db)
    (sound : IsSound (record db { operations = db.operations ++ r ∷ [] })) where
  abbrev with_row : Db
  with_row = record db { operations = db.operations ++ r ∷ [] }

  entered_here : Run (progress r.id db) (progress r.id with_row)
  unfolding progress
  entered_here =
      let (none_before, selected) = select-insert_self r db fresh in
      let row = sound.rows r.id r selected in
      let empty = ap (λ (l : List Mark). length l) (before.homed r.id none_before) in
      step_of
        (ap (λ o. standing o (length (marks_of r.id db))) none_before
          ∙ absent_lem (length (marks_of r.id db)))
        (ap (λ o. standing o (length (marks_of r.id db))) selected
          ∙ ap (λ k. standing (some r) k) empty
          ∙ standing-open r 0 open_row)
        (enters r.operation row.plan row.is_plan)

  entered-Run : (ident : String) → Run (progress ident db) (progress ident with_row)
  unfolding progress
  entered-Run ident = elim (Bool-cases (r.id == ident)) [
    | inl t ↦
        subst (λ i. Run (progress i db) (progress i with_row)) ((eq_iff r.id ident).0 t)
          entered_here
    | inr f ↦ stays (
        ap (λ o. standing o (length (marks_of ident db)))
          (sym (
            unfold select_operation in
            find?-append_other (λ (q : OperationRow). q.id == ident) db.operations r f)))
  ]

-- an operation is completed
module _ (db : Db) (ident : String) (sound : IsSound (set_complete ident db)) where
  completes-Run : (k : String) → Run (progress k db) (progress k (set_complete ident db))
  unfolding progress set_complete
  completes-Run k = go (select_operation k db) refl (select-set_complete ident k db)
    where
      n : ℕ
      n = length (marks_of k db)

      row_of :
          (r : OperationRow) (b : Bool)
          → r.complete ≡ b
          → select_operation k (set_complete ident db) ≡ some (record r { complete = true })
          → Run (standing (some r) n) (closed r.operation)
      row_of r true c sel = stays (standing-closed r n c)
      row_of r false c sel =
          let row = sound.rows k (record r { complete = true }) sel in
          let full =
            ap (λ i. marks_of i (set_complete ident db))
              (sym (select_operation-id k (set_complete ident db) sel))
            ∙ row.full refl in
          step_of (standing-open r n c) refl
            (closes r.operation row.plan n row.is_plan (ap (λ (l : List Mark). length l) full))

      either :
          (r : OperationRow)
          → (completed ident r ≡ r)
            ⊎ ((r.id ≡ ident) × (completed ident r ≡ record r { complete = true }))
          → select_operation k (set_complete ident db) ≡ some (completed ident r)
          → Run (standing (some r) n) (standing (some (completed ident r)) n)
      either r (inl same) sel = stays (ap (λ (q : OperationRow). standing (some q) n) (sym same))
      either r (inr (_, changed)) sel =
          subst (λ p. Run (standing (some r) n) p)
            (sym (
              ap (λ (q : OperationRow). standing (some q) n) changed
              ∙ standing-closed (record r { complete = true }) n refl))
            (row_of r r.complete refl (sel ∙ ap some changed))

      go :
          (o : Option OperationRow)
          → select_operation k db ≡ o
          → select_operation k (set_complete ident db) ≡ elim o as (λ _. Option OperationRow) [
            | none ↦ none
            | some r ↦ some (completed ident r)
          ]
          → Run
              (standing (select_operation k db) n)
              (standing (select_operation k (set_complete ident db)) n)
      go none e f = stays (ap (λ o. standing o n) (e ∙ sym f))
      go (some r) e f =
          subst (λ o. Run (standing o n) (standing (select_operation k (set_complete ident db)) n))
            (sym e)
            (subst (λ o. Run (standing (some r) n) (standing o n)) (sym f)
              (either r (completed-cases ident r) f))

take-length : {A : Type 0} (xs ys : List A) → take (length xs) (xs ++ ys) ≡ xs
take-length [] ys = refl
take-length (x ∷ xs) ys = ap (λ l. x ∷ l) (take-length xs ys)

-- Every statement moves each operation's machine, or leaves it.
pub Written-Run :
    {db db' : Db}
    → Written db db'
    → IsSound db
    → IsSound db'
    → (ident : String) → Run (progress ident db) (progress ident db')
Written-Run untouched h h' ident = rests
Written-Run {db} (added s r sel open_row) h h' ident = added-Run db s r sel open_row h' ident
Written-Run {db} (entered r open_row i) h h' ident =
    let (is, fresh, _) = insert_operation_lem r db open_row i in
    subst (λ d. Run (progress ident db) (progress ident d)) (sym is)
      (entered-Run db r open_row fresh h (subst IsSound is h') ident)
Written-Run {db} (completes k) h h' ident = completes-Run db k h' ident

-- Sound tables show exactly the rows that the machine stands for.
pub progress-Shows :
    (db : Db) → IsSound db → (ident : String) → Shows (progress ident db) (marks_of ident db)
unfolding progress Shows standing
progress-Shows db h ident = go (select_operation ident db) refl
  where
    marks : List Mark
    marks = marks_of ident db

    begun :
        (r : OperationRow)
        → select_operation ident db ≡ some r
        → (plan : List String) × (phase_plan r.source r.target ≡ ok plan)
          × (marks ≡ take (length marks) (expected plan))
    begun r sel =
        let row = h.rows ident r sel in
        let whole =
          ap (λ i. marks_of i db ++ row.rest) (sym (select_operation-id ident db sel))
          ∙ row.prefix in
        (
          row.plan,
          row.is_plan,
          sym (take-length marks row.rest) ∙ ap (λ l. take (length marks) l) whole,
        )

    by_row :
        (r : OperationRow) (b : Bool)
        → r.complete ≡ b
        → select_operation ident db ≡ some r
        → Shows (standing (some r) (length marks)) marks
    by_row r true c sel =
        let row = h.rows ident r sel in
        subst (λ p. Shows p marks) (sym (standing-closed r (length marks) c))
          (
            row.plan,
            row.is_plan,
            ap (λ i. marks_of i db) (sym (select_operation-id ident db sel)) ∙ row.full c,
          )
    by_row r false c sel =
        subst (λ p. Shows p marks) (sym (standing-open r (length marks) c)) (begun r sel)

    go :
        (o : Option OperationRow)
        → select_operation ident db ≡ o
        → Shows (standing (select_operation ident db) (length marks)) marks
    go none e = subst (λ o. Shows (standing o (length marks)) marks) (sym e) (h.homed ident e)
    go (some r) e =
        subst (λ o. Shows (standing o (length marks)) marks) (sym e) (by_row r r.complete refl e)
