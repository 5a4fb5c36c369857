-- ===== src/Control/Accept/Resumed.antt =====
-- That accepting the evidence of a pending phase keeps the journal's invariant.
use highly_available_trailba.Prelude.{
  ℕ, zero, suc, ◌+◌, ◌<◌, ◌≡◌, refl, inl, inr, ◌⊎◌, ◌∙◌, sym, ap, Bool, true, false, not, ◌&&◌,
  String, List, [], ◌∷◌, map, Option, none, some, some-injective, Exc, Result, ok, raise, raise_if,
  runtime_error, value_error, ok-injective, bind, bind-eq-ok, Bool-cases, Result-cases, subst, take,
  length, length-append, get_elem?, ltb, find?, or_raise, &&-eq-true, after_not, ◌==◌, string_eq,
  nat_eq, pair_eq, list_eq, pair_beq_iff, arith,
}
use highly_available_trailba.Exec.{
  Exec, continue, throw_if, >>=-result, >>=-eq-ok, gets, lift, pure,
}
use highly_available_trailba.Exec
use highly_available_trailba.Py.Value.{Value}
use highly_available_trailba.Py.Text.{is_operation}
use highly_available_trailba.Control.Phases.{
  phase_plan, Mark, intent, done, status_eq, expected, expected_from, boundary_marks,
}
use highly_available_trailba.Control.Phases.Marks.{boundary_marks-intent}
use highly_available_trailba.Control.Rows.{
  Column, Operation, OperationRow, Db, mark, dumps, is_acceptance, select_operation, steps_of,
  insert_step,
}
use highly_available_trailba.Control.Rows.Queries.{insert_step_lem, select_operation-id}
use highly_available_trailba.Control.State.{State, authority_of, check_authority}
use highly_available_trailba.Control.Journal.{
  boundary, evidence_of, find_unfinished, directed_row, resume,
}
use highly_available_trailba.Control.Journal.Sound.{marks_of, IsSound, Linked, Holds, Inv}
use highly_available_trailba.Control.Journal.Keeps.{AtBoundary}
use highly_available_trailba.Control.Journal.Closing.{done-Holds}
use highly_available_trailba.Control.Journal.Outcomes.{transact-cases, step_row, add_step}
use highly_available_trailba.Control.Journal.Recovery.{find_unfinished-select}
use highly_available_trailba.Control.Accept.{write_done, settle}

-- What `_boundary` has found when it succeeds.
pub record Found (ident : String) (position : ℕ) (direction : String × String) (s : State)
    (o : Operation) : Type 0 where
  pub row : OperationRow
  pub plan : List String
  pub found : find_unfinished ident s.db ≡ some row
  pub same : row.operation ≡ o
  pub directed : (row.source, row.target) ≡ direction
  pub contract : is_acceptance row.restore_contract ≡ true
  pub is_plan : phase_plan row.source row.target ≡ ok plan
  pub inside : position < length plan
  pub marks : map mark (steps_of ident s.db) ≡ boundary_marks position plan

throw_if-eq-ok :
    (b : Bool) (e : Exc) (s : State) {u : Unit {0}} {t : State}
    → throw_if b e s ≡ (ok u, t)
    → (b ≡ false) × (t ≡ s)
throw_if-eq-ok true e s h = let x = ap (λ (r : Result (Unit {0}) × State). r.0) h in cc
throw_if-eq-ok false e s h = (refl, sym (ap (λ (r : Result (Unit {0}) × State). r.1) h))

pub directed_row-eq-ok :
    (direction : String × String) (o : Option OperationRow) {r : OperationRow}
    → directed_row direction o ≡ ok r
    → (o ≡ some r) × ((r.source, r.target) ≡ direction) × (is_acceptance r.restore_contract ≡ true)
unfolding directed_row
directed_row-eq-ok direction none h = cc
directed_row-eq-ok direction (some q) {r} h =
    elim (Bool-cases (
      ◌==◌ {A = String × String} (q.source, q.target) direction
      && is_acceptance q.restore_contract)) [
        | inl t ↦
            let k : ok q ≡ ok r = sym (rw (directed_row, t) refl) ∙ h in
            let e = ok-injective k in
            let (a, b) =
              &&-eq-true (◌==◌ {A = String × String} (q.source, q.target) direction) _ t in
            (
              ap some e,
              ap (λ (x : OperationRow). (x.source, x.target)) (sym e)
                  ∙ (pair_beq_iff (q.source, q.target) direction).0 a,
              ap (λ (x : OperationRow). is_acceptance x.restore_contract) (sym e) ∙ b,
            )
        | inr f ↦
            let k : raise
                  (runtime_error "operation direction, identity, or restore contract differs")
                ≡ ok r =
              sym (rw (directed_row, f) refl) ∙ h in
            cc
      ]

throw_if-result : (b : Bool) (e : Exc) (s : State) → throw_if b e s ≡ (raise_if b e, s)
throw_if-result true e s = refl
throw_if-result false e s = refl

module _ (ident : String) (position : ℕ) (direction : String × String) (s : State) where
  abbrev rows_match : List String → Bool
  rows_match plan = map mark (steps_of ident s.db) == boundary_marks position plan

  abbrev read_evidence : OperationRow → Result (Operation × List (String × Value))
  read_evidence row =
      bind
        (or_raise (evidence_of (steps_of ident s.db))
          (runtime_error "malformed operation evidence"))
        (λ ev. ok (row.operation, ev))

  abbrev match_plan : OperationRow → List String → Result (Operation × List (String × Value))
  match_plan row plan =
      bind
        (raise_if (not (ltb position (length plan))) (runtime_error "invalid operation boundary"))
        (λ _.
          bind (raise_if (not (rows_match plan)) (runtime_error "not the exact pending boundary"))
            (λ _. read_evidence row))

  abbrev boundary_result : Result (Operation × List (String × Value))
  boundary_result = bind (authority_of s.journal s.disk) (λ _.
      bind (raise_if (not (is_operation ident)) (value_error "invalid operation")) (λ _.
        bind (directed_row direction (find_unfinished ident s.db))
          (λ row. bind (phase_plan row.source row.target) (match_plan row))))

  boundary-result : boundary ident position direction s ≡ (boundary_result, s)
  unfolding boundary check_authority
  boundary-result = >>=-result check_authority _ (authority_of s.journal s.disk) _ s refl (λ _.
      >>=-result (throw_if (not (is_operation ident)) (value_error "invalid operation")) _ _ _ s
        (throw_if-result (not (is_operation ident)) (value_error "invalid operation") s)
        (λ _.
          >>=-result (lift (directed_row direction (find_unfinished ident s.db))) _ _ _ s refl
            (λ row. >>=-result (lift (phase_plan row.source row.target)) _ _ _ s refl (λ plan.
              >>=-result
                (throw_if (not (ltb position (length plan)))
                  (runtime_error "invalid operation boundary"))
                _ _ _ s
                (throw_if-result (not (ltb position (length plan)))
                  (runtime_error "invalid operation boundary") s)
                (λ _.
                  >>=-result
                    (throw_if (not (rows_match plan))
                      (runtime_error "not the exact pending boundary"))
                    _ _ _ s
                    (throw_if-result (not (rows_match plan))
                      (runtime_error "not the exact pending boundary") s)
                    (λ _.
                      >>=-result
                        (lift (
                          or_raise (evidence_of (steps_of ident s.db))
                            (runtime_error "malformed operation evidence")))
                        _ _ _ s refl (λ ev. refl)))))))

  boundary-Found :
      {o : Operation} {ev : List (String × Value)} {t : State}
      → boundary ident position direction s ≡ (ok (o, ev), t)
      → (t ≡ s) × Found ident position direction s o
  boundary-Found {o} {ev} {t} h =
      let e : (boundary_result, s) ≡ (ok (o, ev), t) = sym boundary-result ∙ h in
      let r : boundary_result ≡ ok (o, ev) =
        ap (λ (p : Result (Operation × List (String × Value)) × State). p.0) e in
      let (_, _, h1) =
        bind-eq-ok (authority_of s.journal s.disk)
          (λ _. bind (raise_if (not (is_operation ident)) (value_error "invalid operation")) (λ _.
            bind (directed_row direction (find_unfinished ident s.db))
              (λ row. bind (phase_plan row.source row.target) (match_plan row))))
          r in
      let (_, h2) = after_not (is_operation ident) _ _ h1 in
      let (row, a, h3) =
        bind-eq-ok (directed_row direction (find_unfinished ident s.db))
          (λ row. bind (phase_plan row.source row.target) (match_plan row)) h2 in
      let (plan, b, h4) = bind-eq-ok (phase_plan row.source row.target) (match_plan row) h3 in
      let (c, h5) = after_not (ltb position (length plan)) _ _ h4 in
      let (d, h6) = after_not (rows_match plan) _ _ h5 in
      let (_, _, h7) =
        bind-eq-ok
          (or_raise (evidence_of (steps_of ident s.db))
            (runtime_error "malformed operation evidence"))
          (λ ev. ok (row.operation, ev)) h6 in
      let (found, directed, contract) =
        directed_row-eq-ok direction (find_unfinished ident s.db) a in
      (
        sym (ap (λ (p : Result (Operation × List (String × Value)) × State). p.1) e),
        record {
          row = row;
          plan = plan;
          found = found;
          same = ap (λ (p : Operation × List (String × Value)). p.0) (ok-injective h7);
          directed = directed;
          contract = contract;
          is_plan = b;
          inside = ground arith;
          marks =
              (list_eq.beq_iff (map mark (steps_of ident s.db)) (boundary_marks position plan)).0 d;
        },
      )

pub length-expected_from :
    (i : ℕ) (plan : List String) → length (expected_from i plan) ≡ length plan + length plan
length-expected_from i [] = omega arith
length-expected_from i (p ∷ plan) = omega (arith, length-expected_from (suc i) plan)

get_elem?-of_lt :
    (n : ℕ) (plan : List String) → n < length plan → (p : String) × (get_elem? plan n ≡ some p)
get_elem?-of_lt n [] h = absurd (omega arith)
get_elem?-of_lt zero (p ∷ plan) h = (p, refl)
get_elem?-of_lt (suc n) (p ∷ plan) h = get_elem?-of_lt n plan (omega arith)

-- A run that stands inside a phase has an odd number of rows, one that is complete an even number.
boundary-incomplete :
    (n : ℕ) (plan other : List String)
    → n < length plan
    → boundary_marks n plan ≡ expected other
    → ⊥
boundary-incomplete n plan other h e =
    let (p, due) = get_elem?-of_lt n plan h in
    let m = sym (boundary_marks-intent n plan p due) ∙ e in
    let l = ap (λ (ms : List Mark). length ms) m in
    omega (
      arith,
      l,
      length-append {0} (expected (take n plan)) ((n, (p, intent)) ∷ []),
      length-expected_from 0 (take n plan),
      length-expected_from 0 other,
    )

pub find?-weaker :
    {A : Type 0} (p q : A → Bool) (xs : List A) {a : A}
    → find? (λ x. p x && q x) xs ≡ some a
    → (b : A) × (find? p xs ≡ some b)
find?-weaker p q [] h = cc
find?-weaker p q (x ∷ xs) {a} h = elim (Bool-cases (p x)) [
  | inl t ↦ (x, ground arith)
  | inr f ↦ let (b, e) = find?-weaker p q xs {a = a} (ground (arith, h, f)) in (b, ground arith)
]

module _ (ident : String) (position : ℕ) (direction : String × String) (s : State) (o : Operation)
    (f : Found ident position direction s o) (sound : IsSound s.db) where
  open f use {row, plan, found, same, directed, contract, is_plan, inside, marks}

  -- the state of a journal object that has just entered the phase
  abbrev pub entered : State
  entered = record s {
    journal = record s.journal { operation = some o; next = position; pending = true };
  }

  ident_marks : marks_of ident s.db ≡ boundary_marks position plan
  unfolding steps_of
  ident_marks = marks

  of_other :
      (other : OperationRow) (b : Bool)
      → select_operation ident s.db ≡ some other
      → other.complete ≡ b
      → (select_operation ident s.db ≡ some row) × (row.complete ≡ false)
  of_other other true first e =
      let r = sound.rows ident other first in
      let full : marks_of ident s.db ≡ expected r.plan =
        ap (λ i. marks_of i s.db) (sym (select_operation-id ident s.db first)) ∙ r.full e in
      absurd (boundary-incomplete position plan r.plan inside (sym ident_marks ∙ full))
  of_other other false first e =
      let same_row : other ≡ row =
        some-injective other row (sym (find_unfinished-select ident s.db first e) ∙ found) in
      (first ∙ ap some same_row, ap (λ (r : OperationRow). r.complete) (sym same_row) ∙ e)

  selected_row : (select_operation ident s.db ≡ some row) × (row.complete ≡ false)
  unfolding select_operation find_unfinished
  selected_row =
      let (other, first) =
        find?-weaker (λ (r : OperationRow). r.id == ident) (λ r. not r.complete) s.db.operations
          found in
      of_other other other.complete first refl

  named : o.id ≡ ident
  named = ap (λ (q : Operation). q.id) (sym same) ∙ select_operation-id ident s.db selected_row.0

  entered-Linked : Linked entered.journal s.db o
  entered-Linked =
      let (p, due) = get_elem?-of_lt position plan inside in
      record {
        row = row;
        selected = ap (λ i. select_operation i s.db) named ∙ selected_row.0;
        same = same;
        open_row = selected_row.1;
        contract = contract;
        plan = plan;
        is_plan = is_plan;
        in_range = omega arith;
        marks = inr (refl, p, due, ap (λ i. marks_of i s.db) named ∙ ident_marks);
      }

  -- The journal object stands at the boundary of the phase.
  pub entered-AtBoundary :
      {phase : String}
      → get_elem? plan position ≡ some phase
      → AtBoundary entered.journal s.db phase
  unfolding entered-Linked
  entered-AtBoundary due = record {
    sound = sound;
    operation = o;
    current = refl;
    link = entered-Linked;
    due = due;
    marks = ap (λ i. marks_of i s.db) named ∙ ident_marks;
  }

  -- The phase done, the journal object stands after it.
  pub settled-Holds :
      {phase : String} (next : ℕ) (v : Value) (e : Column)
      → get_elem? plan position ≡ some phase
      → next ≡ position + 1
      → dumps v ≡ ok e
      → Holds
          (record s.journal { operation = some o; next = next; pending = false })
          (add_step (step_row o position phase done e) s.db)
  unfolding entered-AtBoundary entered-Linked
  settled-Holds {phase} next v e due after written =
      subst
        (λ n.
          Holds (record s.journal { operation = some o; next = n; pending = false })
            (add_step (step_row o position phase done e) s.db))
        (sym after) (done-Holds entered phase (entered-AtBoundary due) v e written)

-- What a settled phase leaves behind: one more row, and a journal that stands after it.
pub record Settles (o : Operation) (position next : ℕ) (phase : String) (v : Value) (s t : State)
    : Type 0 where
  pub column : Column
  pub commits : List Bool
  pub written : dumps v ≡ ok column
  pub left : t ≡ record s {
    journal = record s.journal { operation = some o; next = next; pending = false };
    db = add_step (step_row o position phase done column) s.db;
    commits = commits;
  }

-- `settle` changes nothing but the commits to come, or it settles the phase.
pub settle-cases :
    (o : Operation) (position next : ℕ) (phase : String) (v : Value) (s : State)
    → ((x : Exc) × (c : List Bool) × (settle o position next phase v s
          ≡ (raise x, record s { commits = c })))
      ⊎ ((t : State) × (settle o position next phase v s ≡ (ok tt, t))
          × Settles o position next phase v s t)
unfolding settle resume write_done
settle-cases o position next phase v s = elim (transact-cases (write_done o position phase v) s) [
  | inl (x, c, h) ↦
      inl (
        x,
        c,
        ap (λ (r : Result (Unit {0}) × State). continue r.0 (λ _. resume (some o) next) r.1) h,
      )
  | inr (db, c, i, h) ↦
      let (e, d, j) = written_lem i in
      inr (
        record s {
          journal = record s.journal { operation = some o; next = next; pending = false };
          db = add_step (step_row o position phase done e) s.db;
          commits = c;
        },
        ap (λ (r : Result (Unit {0}) × State). continue r.0 (λ _. resume (some o) next) r.1)
            (h ∙ ap (λ (b : Db). (ok tt, record s { db = b; commits = c })) j),
        record { column = e; commits = c; written = d; left = refl },
      )
]
  where
    written_lem :
        {db : Db}
        → write_done o position phase v s.db ≡ ok db
        → (e : Column) × (dumps v ≡ ok e) × (db ≡ add_step (step_row o position phase done e) s.db)
    written_lem i =
        let (e, d, j) =
          bind-eq-ok (dumps v) (λ e. insert_step (step_row o position phase done e) s.db) i in
        (e, d, insert_step_lem (step_row o position phase done e) s.db j)

module _ (ident : String) (position : ℕ) (direction : String × String) (next : ℕ) (phase : String)
    (v : Value) (check : Operation → List (String × Value) → Result (Unit {0})) where
  -- a phase that is pending, completed by evidence that passes a check
  abbrev pub accepting : Exec State (Unit {0})
  accepting =
      Exec.◌>>=◌ (boundary ident position direction)
        (λ p. Exec.◌>>◌ (lift (check p.0 p.1)) (settle p.0 position next phase v))

  -- what a phase that was accepted went through
  pub record Accepted (s t : State) : Type 0 where
    pub o : Operation
    pub evidence : List (String × Value)
    pub bounded : boundary ident position direction s ≡ (ok (o, evidence), s)
    pub checked : check o evidence ≡ ok tt
    pub settled : Settles o position next phase v s t

  abbrev Cases : State → Type 0
  Cases s =
      ((x : Exc) × (c : List Bool) × (accepting s ≡ (raise x, record s { commits = c })))
      ⊎ ((t : State) × (accepting s ≡ (ok tt, t)) × Accepted s t)

  checked-Cases :
      (s : State) (o : Operation) (ev : List (String × Value))
      → boundary ident position direction s ≡ (ok (o, ev), s)
      → (r : Result (Unit {0})) → check o ev ≡ r
      → Cases s
  checked-Cases s o ev b (raise x) e =
      inl (x, s.commits, bound ∙ ap (λ q. continue q (λ _. settle o position next phase v) s) e)
    where
      bound : accepting s ≡ continue (check o ev) (λ _. settle o position next phase v) s
      bound =
          ap
            (λ (q : Result (Operation × List (String × Value)) × State).
              continue q.0
                (λ p. Exec.◌>>◌ (lift (check p.0 p.1)) (settle p.0 position next phase v)) q.1)
            b
  checked-Cases s o ev b (ok u) e = elim (settle-cases o position next phase v s) [
    | inl (x, c, h) ↦
        inl (x, c, bound ∙ ap (λ q. continue q (λ _. settle o position next phase v) s) e ∙ h)
    | inr (t, h, d) ↦ inr (
      t,
      bound ∙ ap (λ q. continue q (λ _. settle o position next phase v) s) e ∙ h,
      record { o = o; evidence = ev; bounded = b; checked = e; settled = d },
    )
  ]
    where
      bound : accepting s ≡ continue (check o ev) (λ _. settle o position next phase v) s
      bound =
          ap
            (λ (q : Result (Operation × List (String × Value)) × State).
              continue q.0
                (λ p. Exec.◌>>◌ (lift (check p.0 p.1)) (settle p.0 position next phase v)) q.1)
            b

  pub accepting-Cases : (s : State) → Cases s
  accepting-Cases s = elim (Result-cases (boundary_result ident position direction s)) [
    | inl (x, e) ↦ inl (
      x,
      s.commits,
      ap
          (λ (q : Result (Operation × List (String × Value)) × State).
            continue q.0 (λ p. Exec.◌>>◌ (lift (check p.0 p.1)) (settle p.0 position next phase v))
              q.1)
          (boundary-result ident position direction s ∙ ap (λ r. (r, s)) e),
    )
    | inr (p, e) ↦
        checked-Cases s p.0 p.1 (boundary-result ident position direction s ∙ ap (λ r. (r, s)) e)
          (check p.0 p.1) refl
  ]

  pub accepting-Accepted : (s : State) {t : State} → accepting s ≡ (ok tt, t) → Accepted s t
  accepting-Accepted s {t} h = elim (accepting-Cases s) [
    | inl (x, c, e) ↦ let k = ap (λ (r : Result (Unit {0}) × State). r.0) (sym e ∙ h) in cc
    | inr (u, e, a) ↦ subst (Accepted s) (ap (λ (r : Result (Unit {0}) × State). r.1) (sym e ∙ h)) a
  ]

  -- It keeps the journal's invariant, whether it is refused, a commit fails or it succeeds.
  pub accepting-Inv :
      ((plan : List String)
        → phase_plan direction.0 direction.1 ≡ ok plan
        → get_elem? plan position ≡ some phase)
      → next ≡ position + 1
      → (s : State) → Inv s
      → Inv (accepting s).1
  accepting-Inv due after s h = elim (accepting-Cases s) [
    | inl (x, c, e) ↦ rw (e) h
    | inr (t, e, a) ↦
        let (_, f) = boundary-Found ident position direction s a.bounded in
        let at : phase_plan direction.0 direction.1 ≡ ok f.plan =
          ap (λ (d : String × String). phase_plan d.0 d.1) (sym f.directed) ∙ f.is_plan in
        subst Inv (sym (ap (λ (r : Result (Unit {0}) × State). r.1) e)) (
          subst Inv (sym a.settled.left) (
            settled-Holds ident position direction s a.o f h.sound next v a.settled.column
              (due f.plan at) after a.settled.written))
  ]

  -- The operation of an accepted phase is in the table, and is not complete.
  pub Accepted-row :
      {s t : State}
      → IsSound s.db
      → (a : Accepted s t)
      → (r : OperationRow) × (select_operation a.o.id s.db ≡ some r) × (r.complete ≡ false)
  Accepted-row {s} sound a =
      let (_, f) = boundary-Found ident position direction s a.bounded in
      let (selected, open_row) = selected_row ident position direction s a.o f sound in
      (
        f.row,
        ap (λ i. select_operation i s.db) (named ident position direction s a.o f sound) ∙ selected,
        open_row,
      )
