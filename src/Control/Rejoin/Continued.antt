-- ===== src/Control/Rejoin/Continued.antt =====
-- That taking a recovery up again keeps the journal's invariant.
use highly_available_trailba.Prelude.{
  ℕ, ◌≤◌, ◌≡◌, refl, inl, inr, ◌⊎◌, ◌∙◌, sym, ap, Bool, true, false, not, ◌&&◌, ◌||◌, String, List,
  map, none, some, some-injective, Exc, Result, ok, raise, runtime_error, value_error, ok-injective,
  bind, bind-eq-ok, Bool-cases, Result-cases, subst, take, length, get_elem?, find?, or_raise,
  after_not, after_raise_if, ||-eq-false, not-eq-false, ◌==◌, string_eq, nat_eq, pair_eq, list_eq,
  list_beq_iff, arith,
}
use highly_available_trailba.Py.Value.{Value}
use highly_available_trailba.Py.Text.{is_operation}
use highly_available_trailba.Control.Phases.{
  phase_plan, phases, d3_phases, Mark, status_eq, expected,
}
use highly_available_trailba.Control.Rows.{
  Operation, OperationRow, mark, is_acceptance, select_operation, steps_of,
}
use highly_available_trailba.Control.Rows.Queries.{select_operation-id}
use highly_available_trailba.Control.State.{State, authority_of, check_authority}
use highly_available_trailba.Control.Journal.{find_unfinished, directed_row, is_some, evidence_of}
use highly_available_trailba.Control.Journal.Sound.{marks_of, IsSound, Linked, Holds, Inv}
use highly_available_trailba.Control.Journal.Recovery.{find_unfinished-select}
use highly_available_trailba.Control.Accept.Resumed.{directed_row-eq-ok, find?-weaker}
use highly_available_trailba.Control.Serving.{plain_intents}
use highly_available_trailba.Control.Rejoin.{
  check_boot, Directory, rejoin_marks, rejoin_row, next_of, may_continue, continue_rejoin,
  not_unused,
}

-- the rows are those of the first phases of the plan
rejoin_marks_lem : (b : Bool) → rejoin_marks b ≡ expected (take (next_of b) d3_phases)
unfolding rejoin_marks next_of
rejoin_marks_lem true = refl
rejoin_marks_lem false = refl

plan_cases :
    (source target : String) (plan : List String)
    → phase_plan source target ≡ ok plan
    → (plan ≡ phases) ⊎ (plan ≡ d3_phases)
unfolding phase_plan
plan_cases source target plan h = elim (Bool-cases (source == "A" && target == "B")) [
  | inl t ↦ inl (ground arith)
  | inr f ↦ elim (Bool-cases (source == "B" && target == "A")) [
    | inl t ↦ inr (ground arith)
    | inr g ↦ absurd (ground arith)
  ]
]

name_at : ℕ → List Mark → String
name_at n ms = elim (get_elem? ms n) [ none ↦ "" | some m ↦ m.1.0 ]

apart : ◌≡◌ {A = String} "fence" "quiesce" → ⊥
apart h = cc

apart_end : ◌≡◌ {A = String} "" "verify_redundancy" → ⊥
apart_end h = cc

not_forward : (b : Bool) → rejoin_marks b ≡ expected phases → ⊥
unfolding rejoin_marks name_at
not_forward true e = let h : ◌≡◌ {A = String} "fence" "quiesce" = ap (name_at 4) e in apart h
not_forward false e = let h : ◌≡◌ {A = String} "fence" "quiesce" = ap (name_at 4) e in apart h

not_whole : (b : Bool) → rejoin_marks b ≡ expected d3_phases → ⊥
unfolding rejoin_marks name_at
not_whole true e =
    let h : ◌≡◌ {A = String} "" "verify_redundancy" = ap (name_at 24) e in apart_end h
not_whole false e =
    let h : ◌≡◌ {A = String} "" "verify_redundancy" = ap (name_at 24) e in apart_end h

-- which no complete operation has
rejoin_marks-incomplete :
    (b : Bool) (source target : String) (plan : List String)
    → phase_plan source target ≡ ok plan
    → rejoin_marks b ≡ expected plan
    → ⊥
rejoin_marks-incomplete b source target plan p e = elim (plan_cases source target plan p) [
  | inl is ↦ not_forward b (e ∙ ap expected is)
  | inr is ↦ not_whole b (e ∙ ap expected is)
]

or_raise-ok : {A : Type 0} (r : Result A) (x : Exc) {a : A} → or_raise r x ≡ ok a → r ≡ ok a
or_raise-ok (ok a) x h = h
or_raise-ok (raise y) x h = cc

backward : phase_plan "B" "A" ≡ ok d3_phases
unfolding phase_plan
backward = refl

short : (b : Bool) → next_of b ≤ length d3_phases
unfolding next_of
short true = omega arith
short false = omega arith

module _ (s : State) (d : Directory) (ident : String) (b : Bool) where
  record Row (row : OperationRow) : Type 0 where
    found : find_unfinished ident s.db ≡ some row
    directed : ◌≡◌ {A = String × String} (row.source, row.target) ("B", "A")
    contract : is_acceptance row.restore_contract ≡ true
    marks : map mark (steps_of ident s.db) ≡ rejoin_marks b

  rejoin_row-Row : {row : OperationRow} → rejoin_row s.db d ident b ≡ ok row → Row row
  unfolding rejoin_row
  rejoin_row-Row {row} h =
      let (q, a, h1) =
        bind-eq-ok (or_raise (directed_row ("B", "A") (find_unfinished ident s.db)) not_unused) _
          h in
      let differs = not (map mark (steps_of ident s.db) == rejoin_marks b) in
      let (c, h2) =
        after_raise_if (differs || not (plain_intents (steps_of ident s.db)) || d.failed) not_unused
          (ok q) h1 in
      let (c1, _) = ||-eq-false (differs || not (plain_intents (steps_of ident s.db))) d.failed c in
      let (c2, _) = ||-eq-false differs (not (plain_intents (steps_of ident s.db))) c1 in
      let (found, directed, contract) =
        directed_row-eq-ok ("B", "A") (find_unfinished ident s.db) (or_raise-ok _ not_unused a) in
      let is = ok-injective h2 in
      subst Row is (record {
        found = found;
        directed = directed;
        contract = contract;
        marks =
            (list_beq_iff (map mark (steps_of ident s.db)) (rejoin_marks b)).0 (not-eq-false _ c2);
      })

  row_marks : {row : OperationRow} → Row row → marks_of ident s.db ≡ rejoin_marks b
  unfolding steps_of
  row_marks f = f.marks

  -- The operation that is asked for, in the tables.
  selected_row :
      {row : OperationRow}
      → IsSound s.db
      → Row row
      → (select_operation ident s.db ≡ some row) × (row.complete ≡ false)
  unfolding find_unfinished select_operation
  selected_row {row} sound f =
      let (other, first) =
        find?-weaker (λ (r : OperationRow). r.id == ident) (λ r. not r.complete) s.db.operations
          f.found in
      of_other other other.complete first refl
    where
      of_other :
          (other : OperationRow) (c : Bool)
          → find? (λ (r : OperationRow). r.id == ident) s.db.operations ≡ some other
          → other.complete ≡ c
          → (select_operation ident s.db ≡ some row) × (row.complete ≡ false)
      of_other other true first e =
          let r = sound.rows ident other first in
          let full : marks_of ident s.db ≡ expected r.plan =
            ap (λ i. marks_of i s.db) (sym (select_operation-id ident s.db first)) ∙ r.full e in
          absurd (
            rejoin_marks-incomplete b other.source other.target r.plan r.is_plan
              (sym (row_marks f) ∙ full))
      of_other other false first e =
          let same_row : other ≡ row =
            some-injective other row (sym (find_unfinished-select ident s.db first e) ∙ f.found) in
          (first ∙ ap some same_row, ap (λ (r : OperationRow). r.complete) (sym same_row) ∙ e)

  -- a journal object that took the recovery up
  abbrev pub taken_up : Operation → State
  taken_up o = record s {
    journal = record s.journal { operation = some o; next = next_of b; pending = false };
  }

  taken_up-Holds :
      {row : OperationRow} → IsSound s.db → Row row → Holds (taken_up row.operation).journal s.db
  taken_up-Holds {row} sound f =
      let (selected, open_row) = selected_row sound f in
      let named = select_operation-id ident s.db selected in
      record {
        sound = sound;
        linked = λ q e.
            subst (Linked (taken_up row.operation).journal s.db) (some-injective row.operation q e)
              (record {
                row = row;
                selected = ap (λ i. select_operation i s.db) named ∙ selected;
                same = refl;
                open_row = open_row;
                contract = f.contract;
                plan = d3_phases;
                is_plan = ap (λ (p : String × String). phase_plan p.0 p.1) f.directed ∙ backward;
                in_range = short b;
                marks = inl (ap (λ i. marks_of i s.db) named ∙ row_marks f ∙ rejoin_marks_lem b);
              });
      }

  module _ (tree : List ℕ → Result Value) (canonical : Value → Result (List ℕ))
      (sha256 : List ℕ → String) where
    may_continue-Row :
        {o : Operation} {previous : List (String × Value)}
        → may_continue tree canonical sha256 s d ident b ≡ ok (o, previous)
        → (row : OperationRow) × Row row × (row.operation ≡ o)
    unfolding may_continue
    may_continue-Row h =
        let (_, h1) =
          after_raise_if (is_some s.operation)
            (runtime_error "journal already has an active operation") _ h in
        let (_, h2) = after_not (is_operation ident) (value_error "invalid operation") _ h1 in
        let (row, a, h3) = bind-eq-ok (rejoin_row s.db d ident b) _ h2 in
        let (previous, _, h4) =
          bind-eq-ok
            (or_raise (evidence_of (steps_of ident s.db))
              (runtime_error "malformed operation evidence"))
            (λ previous.
              bind (check_boot tree canonical sha256 s.disk.euid d row.operation previous b)
                (λ _. ok (row.operation, previous)))
            h3 in
        let (_, _, h5) =
          bind-eq-ok (check_boot tree canonical sha256 s.disk.euid d row.operation previous b)
            (λ _. ok (row.operation, previous)) h4 in
        (
          row,
          rejoin_row-Row a,
          ap (λ (p : Operation × List (String × Value)). p.0) (ok-injective h5),
        )

    -- It changes nothing, or takes the operation up.
    continue_rejoin-cases :
        ((x : Exc) × (continue_rejoin tree canonical sha256 d ident b s ≡ (raise x, s)))
        ⊎ ((r : Operation × List (String × Value)) × (may_continue tree canonical sha256 s d ident b
              ≡ ok r)
            × (continue_rejoin tree canonical sha256 d ident b s ≡ (ok r, taken_up r.0)))
    unfolding continue_rejoin check_authority
    continue_rejoin-cases = elim (Result-cases (authority_of s.journal s.disk)) [
      | inl (x, e) ↦ inl (x, rw (continue_rejoin, e) refl)
      | inr (u, e) ↦ elim (Result-cases (may_continue tree canonical sha256 s d ident b)) [
        | inl (x, f) ↦ inl (x, rw (continue_rejoin, e, f) refl)
        | inr (r, f) ↦ inr (r, f, rw (continue_rejoin, e, f) refl)
      ]
    ]

    -- A recovery that is taken up stands where its rows say; a refusal changes nothing. Its tables
    -- stay as they are.
    pub continue_rejoin-Inv :
        Inv s
        → Inv (continue_rejoin tree canonical sha256 d ident b s).1
          × ((continue_rejoin tree canonical sha256 d ident b s).1.db ≡ s.db)
    continue_rejoin-Inv h = elim continue_rejoin-cases [
      | inl (x, e) ↦ rw e (h, refl)
      | inr (r, f, e) ↦
          let (row, found, is) = may_continue-Row f in
          rw e
            (subst (λ o. Holds (taken_up o).journal s.db) is (taken_up-Holds h.sound found), refl)
    ]
