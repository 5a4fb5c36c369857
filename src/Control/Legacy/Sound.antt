-- ===== src/Control/Legacy/Sound.antt =====
-- A journal of the first generation that is accepted is sound.
use highly_available_trailba.Prelude.{
  ℕ, zero, suc, ◌≤◌, ◌≡◌, refl, ◌∙◌, sym, ap, subst, Bool, true, false, ◌&&◌, not, String, List, [],
  ◌∷◌, ◌++◌, map, none, some, ◌==◌, nat_eq, string_eq, eq_iff, list_eq, pair_eq, list_beq_iff, any,
  find?, length, take, drop, All, Result, ok, raise_if, raise_if-eq-ok, bind, bind-eq-ok, or_raise,
  Bool-cases, inl, inr, &&-eq-true, ||-eq-false, not-eq-false, after_not, arith, if◌then◌else◌,
}
use highly_available_trailba.Py.Value.{Value, is_dict}
use highly_available_trailba.Py.Sorting.{is_distinct}
use highly_available_trailba.Control.Phases.{Status, intent, done, status_eq, phase_plan, expected}
use highly_available_trailba.Control.Rows.{
  OperationRow, StepRow, Column, dumped, raw, Db, mark, is_empty, loads, rows_of, steps_of,
  select_operation,
}
use highly_available_trailba.Control.Rows.Queries.{find?-of_any, find?-passes}
use highly_available_trailba.Control.Journal.Sound.{RowSound, unfinished, IsClean, IsSound}
use highly_available_trailba.Acceptance.Json.{is_unique}
use highly_available_trailba.Control.Legacy.{
  unrecognized_operation, unrecognized_steps, is_legacy_operation, check_step, check_steps,
  is_begun, check_operation, check_operations, is_outside, validate_legacy_rows,
}

take-drop : {A : Type 0} (n : ℕ) (xs : List A) → take n xs ++ drop n xs ≡ xs
take-drop zero xs = refl
take-drop (suc n) [] = refl
take-drop (suc n) (x ∷ xs) = ap (λ l. x ∷ l) (take-drop n xs)

check_operation-RowSound :
    (db : Db) (r : OperationRow) {u : Unit {0}} → check_operation db r ≡ ok u → RowSound db r
unfolding check_operation steps_of is_begun
check_operation-RowSound db r h =
    let steps = rows_of r.id db.steps in
    let (_, h1) = after_not (is_legacy_operation r) unrecognized_operation _ h in
    let (plan, a, h2) = bind-eq-ok (phase_plan r.source r.target) _ h1 in
    let (b, h3) = after_not (is_begun plan steps) unrecognized_steps _ h2 in
    let (_, _, h4) = bind-eq-ok (check_steps steps) _ h3 in
    let c = raise_if-eq-ok (r.complete && not (map mark steps == expected plan)) _ h4 in
    let (_, d) =
      &&-eq-true (not (length steps == 0)) (map mark steps == take (length steps) (expected plan))
        b in
    let begun = (list_beq_iff (map mark steps) (take (length steps) (expected plan))).0 d in
    record {
      plan = plan;
      is_plan = a;
      rest = drop (length steps) (expected plan);
      prefix =
          ap (λ ms. ms ++ drop (length steps) (expected plan)) begun
          ∙ take-drop (length steps) (expected plan);
      full = λ t.
          (list_beq_iff (map mark steps) (expected plan)).0
            (whole r.complete (map mark steps == expected plan) t c);
    }
  where
    whole : (a b : Bool) → a ≡ true → (a && not b) ≡ false → b ≡ true
    whole a b t h = ground arith

check_operation-steps :
    (db : Db) (r : OperationRow) {u : Unit {0}}
    → check_operation db r ≡ ok u
    → check_steps (rows_of r.id db.steps) ≡ ok tt
unfolding check_operation steps_of
check_operation-steps db r h =
    let steps = rows_of r.id db.steps in
    let (_, h1) = after_not (is_legacy_operation r) unrecognized_operation _ h in
    let (plan, _, h2) = bind-eq-ok (phase_plan r.source r.target) _ h1 in
    let (_, h3) = after_not (is_begun plan steps) unrecognized_steps _ h2 in
    let (_, a, _) = bind-eq-ok (check_steps steps) _ h3 in a

check_operations-find? :
    (db : Db) (p : OperationRow → Bool) (rs : List OperationRow) {r : OperationRow} {u : Unit {0}}
    → check_operations db rs ≡ ok u
    → find? p rs ≡ some r
    → check_operation db r ≡ ok tt
unfolding check_operations
check_operations-find? db p [] h f = cc
check_operations-find? db p (q ∷ rs) {r} h f =
    let (_, a, h1) = bind-eq-ok (check_operation db q) (λ u. check_operations db rs) h in
    elim (Bool-cases (p q)) [
      | inl t ↦ let e : q ≡ r = ground arith in subst (λ x. check_operation db x ≡ ok tt) e a
      | inr n ↦ check_operations-find? db p rs {r = r} h1 (ground arith)
    ]

-- a row whose operation is there
known : Db → String → Bool
known db ident = any (λ (r : OperationRow). r.id == ident) db.operations

checked-known :
    (db : Db) (ident : String) {u : Unit {0}}
    → check_operations db db.operations ≡ ok u
    → known db ident ≡ true
    → check_steps (rows_of ident db.steps) ≡ ok tt
unfolding known
checked-known db ident h k =
    let (r, f) = find?-of_any (λ (r : OperationRow). r.id == ident) db.operations k in
    let same =
      (eq_iff r.id ident).0 (find?-passes (λ (r : OperationRow). r.id == ident) db.operations f) in
    subst (λ i. check_steps (rows_of i db.steps) ≡ ok tt) same
      (check_operation-steps db r
        (check_operations-find? db (λ (r : OperationRow). r.id == ident) db.operations h f))

-- checked rows without the first
check_steps-tail :
    (s : StepRow) (ss : List StepRow) (ident : String)
    → check_steps (rows_of ident (s ∷ ss)) ≡ ok tt
    → check_steps (rows_of ident ss) ≡ ok tt
unfolding check_steps
check_steps-tail s ss ident h = go (s.operation == ident) h
  where
    go :
        (b : Bool)
        → check_steps (if b then s ∷ rows_of ident ss else rows_of ident ss) ≡ ok tt
        → check_steps (rows_of ident ss) ≡ ok tt
    go true h =
        let (_, _, h1) = bind-eq-ok (check_step s) (λ u. check_steps (rows_of ident ss)) h in h1
    go false h = h

check_steps-head :
    (s : StepRow) (ss : List StepRow)
    → check_steps (rows_of s.operation (s ∷ ss)) ≡ ok tt
    → check_step s ≡ ok tt
unfolding check_steps
check_steps-head s ss h =
    go (s.operation == s.operation) ((eq_iff s.operation s.operation).1 refl) h
  where
    go :
        (b : Bool)
        → b ≡ true
        → check_steps (if b then s ∷ rows_of s.operation ss else rows_of s.operation ss) ≡ ok tt
        → check_step s ≡ ok tt
    go true t h =
        let (_, a, _) = bind-eq-ok (check_step s) (λ u. check_steps (rows_of s.operation ss)) h in a
    go false t h = cc

check_step-IsClean : (s : StepRow) → check_step s ≡ ok tt → IsClean s
unfolding check_step
check_step-IsClean s h = go s.status s.evidence refl h
  where
    empty_lem : (c : Column) → is_empty c ≡ true → (v : Value) × (c ≡ dumped v)
    empty_lem (dumped v) h = (v, refl)
    empty_lem (raw t) h = cc

    loads_lem :
        (c : Column) {v : Value}
        → or_raise (loads c) unrecognized_steps ≡ ok v
        → (v : Value) × (c ≡ dumped v)
    loads_lem (dumped v) h = (v, refl)
    loads_lem (raw t) h = cc

    go :
        (t : Status) (c : Column)
        → s.evidence ≡ c
        → elim t as (λ _. Result (Unit {0})) [
          | intent ↦ raise_if (not (is_empty c)) unrecognized_steps
          | done ↦
              bind
                (or_raise (loads c) unrecognized_steps)
                (λ v. raise_if (not (is_unique v && is_dict v)) unrecognized_steps)
        ]
          ≡ ok tt
        → (t ≡ intent → is_empty s.evidence ≡ true) × (v : Value) × (s.evidence ≡ dumped v)
    go intent c e h =
        let empty =
          not-eq-false (is_empty c) (raise_if-eq-ok (not (is_empty c)) unrecognized_steps h) in
        let (v, d) = empty_lem c empty in
        (λ _. subst (λ x. is_empty x ≡ true) (sym e) empty, v, e ∙ d)
    go done c e h =
        let (w, a, _) = bind-eq-ok (or_raise (loads c) unrecognized_steps) _ h in
        let (v, d) = loads_lem c a in (λ i. cc, v, e ∙ d)

clean_lem :
    (db : Db) (ss : List StepRow)
    → any (is_outside db) ss ≡ false
    → ((ident : String) → known db ident ≡ true → check_steps (rows_of ident ss) ≡ ok tt)
    → All IsClean ss
unfolding is_outside known
clean_lem db [] o h = tt
clean_lem db (s ∷ ss) o h =
    let (a, b) = ||-eq-false (is_outside db s) (any (is_outside db) ss) o in
    (
      check_step-IsClean s (check_steps-head s ss (h s.operation (not-eq-false _ a))),
      clean_lem db ss b (λ ident k. check_steps-tail s ss ident (h ident k)),
    )

unknown_rows :
    (db : Db) (ident : String) (ss : List StepRow)
    → any (is_outside db) ss ≡ false
    → known db ident ≡ false
    → rows_of ident ss ≡ []
unfolding is_outside known
unknown_rows db ident [] o k = refl
unknown_rows db ident (s ∷ ss) o k =
    let (a, b) = ||-eq-false (is_outside db s) (any (is_outside db) ss) o in
    let rest = unknown_rows db ident ss b k in
    elim (Bool-cases (s.operation == ident)) [
      | inl t ↦
          let there = not-eq-false _ a in
          let here =
            subst (λ i. any (λ (r : OperationRow). r.id == i) db.operations ≡ true)
              ((eq_iff s.operation ident).0 t) there in
          cc
      | inr f ↦ rw (f) rest
    ]

-- A journal of the first generation whose rows `_validate_legacy_rows` accepts, and of which the
-- index one_unfinished admits at most one unfinished operation, is sound: the rows of each
-- operation are a prefix of those of its plan, and all of them once it is complete, no row is
-- without its operation, every intent has the evidence '{}' and every evidence is JSON. It is what
-- the invariant asks of the tables that a controller starts from.
pub validate_legacy_rows-IsSound :
    (db : Db) {u : Unit {0}}
    → unfinished db.operations ≤ 1
    → validate_legacy_rows db ≡ ok u
    → IsSound db
unfolding validate_legacy_rows select_operation known
validate_legacy_rows-IsSound db single h =
    let (_, h1) =
      after_not (is_distinct (map (λ (r : OperationRow). r.id) db.operations))
        unrecognized_operation _ h in
    let (_, a, h2) = bind-eq-ok (check_operations db db.operations) _ h1 in
    let homed = raise_if-eq-ok (any (is_outside db) db.steps) _ h2 in
    record {
      rows = λ ident r f.
          check_operation-RowSound db r
            (check_operations-find? db (λ (q : OperationRow). q.id == ident) db.operations a f);
      homed = λ ident f. ap (map mark) (unknown_rows db ident db.steps homed (none_known ident f));
      single = single;
      clean = clean_lem db db.steps homed (λ ident k. checked-known db ident a k);
    }
  where
    none_known :
        (ident : String)
        → find? (λ (r : OperationRow). r.id == ident) db.operations ≡ none
        → any (λ (r : OperationRow). r.id == ident) db.operations ≡ false
    none_known ident f =
        elim (Bool-cases (any (λ (r : OperationRow). r.id == ident) db.operations)) [
          | inl t ↦
              let (r, g) = find?-of_any (λ (r : OperationRow). r.id == ident) db.operations t in
              let e = sym f ∙ g in cc
          | inr n ↦ n
        ]
