-- ===== src/Control/Journal/Sound/Tables.antt =====
-- The statements on the tables keep them sound.
use native.Mathlib.Nat.{le_trans}
use highly_available_trailba.Prelude.{
  ◌+◌, ◌≤◌, ◌≡◌, refl, sym, ap, ◌∙◌, subst, ◌⊎◌, inl, inr, beq_refl, ◌&&◌, ◌||◌, not, true, false,
  String, List, [], ◌∷◌, ◌++◌, append-nil, map, some-injective, Option, none, some, ◌==◌, string_eq,
  eq_iff, any, ok, All-append, Bool-cases, &&-eq-true, ok-injective, if◌then◌else◌, arith,
}
use highly_available_trailba.Control.Phases.{phase_plan, expected, Mark}
use highly_available_trailba.Control.Rows.{
  OperationRow, StepRow, Db, mark, is_acceptance, rows_of, select_operation, has_unfinished,
  insert_operation, completed, set_complete,
}
use highly_available_trailba.Control.Rows.Queries.{
  find?-append_some, select_operation-id, rows_of-snoc, map-mark-append, insert_operation_lem,
  select-insert_self, select-insert, select-set_complete,
}
use highly_available_trailba.Control.Journal.Sound.{
  marks_of, RowSound, unfinished, IsClean, IsSound,
}

unfinished-append :
    (xs ys : List OperationRow) → unfinished (xs ++ ys) ≡ unfinished xs + unfinished ys
unfinished-append [] ys = omega arith
unfinished-append (x ∷ xs) ys = omega (arith, unfinished-append xs ys)

unfinished-none :
    (xs : List OperationRow) → any (λ r. not r.complete) xs ≡ false → unfinished xs ≡ 0
unfinished-none [] h = refl
unfinished-none (x ∷ xs) h = ground (arith, unfinished-none xs)

unfinished-none_of : (db : Db) → has_unfinished db ≡ false → unfinished db.operations ≡ 0
unfolding has_unfinished
unfinished-none_of db h = unfinished-none db.operations h

unfinished-completed :
    (ident : String) (xs : List OperationRow)
    → unfinished (map (completed ident) xs) ≤ unfinished xs
unfolding completed
unfinished-completed ident [] = omega arith
unfinished-completed ident (x ∷ xs) = ground (arith, unfinished-completed ident xs)

select-append_none :
    (ident : String) (r : OperationRow) (db : Db)
    → select_operation ident (record db { operations = db.operations ++ r ∷ [] }) ≡ none
    → select_operation ident db ≡ none
unfolding select_operation
select-append_none ident r db h = go (select_operation ident db) refl
  where
    go :
        (o : Option OperationRow) → select_operation ident db ≡ o → select_operation ident db ≡ none
    go none e = e
    go (some q) e =
        cc (sym (find?-append_some (λ (p : OperationRow). p.id == ident) db.operations (r ∷ []) e))

-- A new operation with a valid plan.
pub insert_operation-IsSound :
    (r : OperationRow) (plan : List String) {db db' : Db}
    → IsSound db
    → r.complete ≡ false
    → phase_plan r.source r.target ≡ ok plan
    → insert_operation r db ≡ ok db'
    → IsSound db'
insert_operation-IsSound r plan {db} {db'} h open_row is_plan e =
    let (is, fresh, none_open) = insert_operation_lem r db open_row e in
    subst IsSound (sym is) (record {
      rows = λ ident q sel. added ident q (select-insert ident r db sel) fresh;
      homed = λ ident sel. h.homed ident (select-append_none ident r db sel);
      single = single' none_open;
      clean = h.clean;
    })
  where
    added :
        (ident : String) (q : OperationRow)
        → (select_operation ident db ≡ some q) ⊎ ((q ≡ r) × (select_operation ident db ≡ none))
        → any (λ q. q.id == r.id || q.new_epoch == r.new_epoch) db.operations ≡ false
        → RowSound (record db { operations = db.operations ++ r ∷ [] }) q
    added ident q (inl old) fresh =
        let s = h.rows ident q old in
        record {
          plan = s.plan;
          is_plan = s.is_plan;
          rest = s.rest;
          prefix = s.prefix;
          full = s.full;
        }
    added ident q (inr (is, _)) fresh =
        let empty = h.homed r.id (select-insert_self r db fresh).0 in
        subst (RowSound (record db { operations = db.operations ++ r ∷ [] })) (sym is) (record {
          plan = plan;
          is_plan = is_plan;
          rest = expected plan;
          prefix = ap (λ (l : List Mark). l ++ expected plan) empty;
          full = λ c. cc;
        })

    single' : has_unfinished db ≡ false → unfinished (db.operations ++ r ∷ []) ≤ 1
    single' u = ground (arith, unfinished-append db.operations (r ∷ []), unfinished-none_of db u)

-- The marks of an operation after a row is added.
pub marks-add_step :
    (ident : String) (s : StepRow) (db : Db)
    → marks_of ident (record db { steps = db.steps ++ s ∷ [] })
      ≡ marks_of ident db ++ (if s.operation == ident then mark s ∷ [] else [])
marks-add_step ident s db =
    ap (map mark) (rows_of-snoc ident db.steps s)
    ∙ map-mark-append (rows_of ident db.steps) _
    ∙ ground arith

pub add_step-marks_self :
    (s : StepRow) (db : Db)
    → marks_of s.operation (record db { steps = db.steps ++ s ∷ [] })
      ≡ marks_of s.operation db ++ mark s ∷ []
add_step-marks_self s db = marks-add_step s.operation s db ∙ rw (beq_refl s.operation) refl

module _ (s : StepRow) (r : OperationRow) (db : Db) (plan : List String) (rest : List Mark)
    (h : IsSound db) (sel : select_operation s.operation db ≡ some r)
    (open_row : r.complete ≡ false) (is_plan : phase_plan r.source r.target ≡ ok plan)
    (goes_on : (marks_of s.operation db ++ mark s ∷ []) ++ rest ≡ expected plan) where
  added_row : RowSound (record db { steps = db.steps ++ s ∷ [] }) r
  added_row =
      let same = select_operation-id s.operation db sel in
      record {
        plan = plan;
        is_plan = is_plan;
        rest = rest;
        prefix =
            ap (λ k. marks_of k (record db { steps = db.steps ++ s ∷ [] }) ++ rest) same
            ∙ ap (λ (l : List Mark). l ++ rest) (add_step-marks_self s db)
            ∙ goes_on;
        full = λ c. cc;
      }

  row_after :
      (ident : String) (q : OperationRow)
      → select_operation ident db ≡ some q
      → RowSound (record db { steps = db.steps ++ s ∷ [] }) q
  row_after ident q sel' = elim (Bool-cases (s.operation == q.id)) [
    | inl yes' ↦
        let e : s.operation ≡ ident =
          (eq_iff s.operation q.id).0 yes' ∙ select_operation-id ident db sel' in
        let is : r ≡ q = some-injective r q (sym sel ∙ ap (λ k. select_operation k db) e ∙ sel') in
        subst (RowSound (record db { steps = db.steps ++ s ∷ [] })) is added_row
    | inr no' ↦
        let old = h.rows ident q sel' in
        let keep : marks_of q.id (record db { steps = db.steps ++ s ∷ [] }) ≡ marks_of q.id db =
          marks-add_step q.id s db ∙ rw no' (append-nil _) in
        record {
          plan = old.plan;
          is_plan = old.is_plan;
          rest = old.rest;
          prefix = ap (λ (l : List Mark). l ++ old.rest) keep ∙ old.prefix;
          full = λ c. keep ∙ old.full c;
        }
  ]

  homed_after :
      (ident : String)
      → select_operation ident db ≡ none
      → marks_of ident (record db { steps = db.steps ++ s ∷ [] }) ≡ []
  homed_after ident n = elim (Bool-cases (s.operation == ident)) [
    | inl yes' ↦
        let e = (eq_iff s.operation ident).0 yes' in
        cc (sym sel ∙ ap (λ k. select_operation k db) e ∙ n)
    | inr no' ↦ marks-add_step ident s db ∙ rw no' (append-nil _ ∙ h.homed ident n)
  ]

  -- A row that goes on with the plan of an operation that is not complete.
  pub add_step-IsSound : IsClean s → IsSound (record db { steps = db.steps ++ s ∷ [] })
  unfolding select_operation
  add_step-IsSound clean = record {
    rows = row_after;
    homed = homed_after;
    single = h.single;
    clean = All-append IsClean db.steps (s ∷ []) h.clean (clean, tt);
  }

pub completed-cases :
    (ident : String) (r : OperationRow)
    → (completed ident r ≡ r)
      ⊎ ((r.id ≡ ident) × (completed ident r ≡ record r { complete = true }))
unfolding completed
completed-cases ident r = elim (Bool-cases (r.id == ident && is_acceptance r.restore_contract)) [
  | inl t ↦ inr ((eq_iff r.id ident).0 (&&-eq-true _ _ t).0, rw t refl)
  | inr f ↦ inl (rw f refl)
]

-- A row of the completed tables comes from one of the old ones.
pub selected_before :
    (ident k : String) (db : Db) {q : OperationRow}
    → select_operation k (set_complete ident db) ≡ some q
    → (r : OperationRow) × (select_operation k db ≡ some r) × (q ≡ completed ident r)
selected_before ident k db {q} e = go (select_operation k db) refl
  where
    go :
        (o : Option OperationRow)
        → select_operation k db ≡ o
        → (r : OperationRow) × (select_operation k db ≡ some r) × (q ≡ completed ident r)
    go none n = cc (sym e, select-set_complete ident k db, n)
    go (some r) s = (
      r,
      s,
      some-injective q (completed ident r) (sym e ∙ select-set_complete ident k db ∙ rw s refl),
    )

-- Completing an operation whose rows are all there.
module _ (ident : String) (r : OperationRow) (plan : List String) (db : Db) (h : IsSound db)
    (sel : select_operation ident db ≡ some r) (is_plan : phase_plan r.source r.target ≡ ok plan)
    (complete : marks_of ident db ≡ expected plan) where
  completed_row :
      (k : String) (q : OperationRow)
      → select_operation k db ≡ some q
      → RowSound (set_complete ident db) (completed ident q)
  unfolding set_complete
  completed_row k q sel' =
      let old = h.rows k q sel' in
      elim (completed-cases ident q) [
        | inl same ↦ rw same (record {
          plan = old.plan;
          is_plan = old.is_plan;
          rest = old.rest;
          prefix = old.prefix;
          full = old.full;
        })
        | inr (here, is) ↦
            let e : q ≡ r = some-injective q r (
              sym sel'
              ∙ ap (λ j. select_operation j db) (sym (select_operation-id k db sel') ∙ here)
              ∙ sel) in
            rw is (record {
              plan = old.plan;
              is_plan = old.is_plan;
              rest = old.rest;
              prefix = old.prefix;
              full = λ _.
                  ap (λ j. marks_of j db) here
                  ∙ complete
                  ∙ ap expected (plan_unique q e old.plan old.is_plan);
            })
      ]
    where
      plan_unique :
          (q : OperationRow)
          → q ≡ r
          → (p : List String) → phase_plan q.source q.target ≡ ok p
          → plan ≡ p
      plan_unique q e p is =
          ok-injective
            (sym is_plan ∙ ap (λ (x : OperationRow). phase_plan x.source x.target) (sym e) ∙ is)

  homed_completed :
      (k : String) → select_operation k (set_complete ident db) ≡ none → marks_of k db ≡ []
  homed_completed k n = h.homed k (go (select_operation k db) refl)
    where
      go : (o : Option OperationRow) → select_operation k db ≡ o → select_operation k db ≡ none
      go none e = e
      go (some q) e = cc (sym n, select-set_complete ident k db, e)

  pub set_complete-IsSound : IsSound (set_complete ident db)
  set_complete-IsSound = record {
    rows = λ k q e.
        let (q0, sel', is) = selected_before ident k db e in
        subst (RowSound (set_complete ident db)) (sym is) (completed_row k q0 sel');
    homed = unfold set_complete in λ k n. homed_completed k n;
    single = unfold set_complete in le_trans (unfinished-completed ident db.operations) h.single;
    clean = unfold set_complete in h.clean;
  }
