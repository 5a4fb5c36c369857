-- ===== src/Control/Proof/Beyond.antt =====
-- What a recovery's evidence shows once it is accepted.
use highly_available_trailba.Prelude.{
  ℕ, ◌<◌, ◌≡◌, refl, ◌∙◌, sym, ap, subst, Bool, true, false, not, ◌&&◌, String, List, [], ◌∷◌,
  Option, none, some, Exc, Result, ok, raise, raise_if, raise_if-eq-ok, ok-injective, bind-eq-ok,
  or_raise, Bool-cases, inl, inr, contains, ◌==◌, string_eq, eq_iff, &&-eq-true, not-eq-false,
  after_not, arith, all, ◌^◌,
}
use highly_available_trailba.Fallible.{◌>>=◌, ◌>>◌}
use highly_available_trailba.Py.Value.{
  Value, int, obj, Fields, end, field, lookup, get, item, has_keys, py_eq, values, is_int_between,
}
use highly_available_trailba.Node.Positions.{dbs, is_cut}
use highly_available_trailba.Control.Rows.{Operation}
use highly_available_trailba.Transition.Requests.{validate_cut}
use highly_available_trailba.Acceptance.Results.Passed.{
  IsPassed, validate_acceptance_result-IsPassed,
}
use highly_available_trailba.Control.Accept.{
  operation_value, controller_root, evidence_for, validated, number_le,
}
use highly_available_trailba.Control.Accept.Proven.{Advances, not_stale, item-lookup, item_obj}
use highly_available_trailba.Acceptance.Requests.Bound.{IsPosition, IsPosition-of}
use highly_available_trailba.Control.Proof.{
  wrong_proof, is_report_for, any_not_beyond, not_beyond, routes_to_a, report, restored_proof,
  reported_proof, verified_proof, validate_d3_proof,
}

-- A report of a restore that was accepted for the operation.
pub record IsReport (o : Operation) (value : Value) (phase profile epoch : String)
    (positions : Option Value) : Type 0 where
  pub request : Value
  pub found : item value "request" ≡ ok request
  pub passed : IsPassed controller_root (operation_value o) request value none
  pub meant : is_report_for phase profile epoch positions request ≡ true

module _ (canonical : Value → Result (List ℕ)) (sha256 : List ℕ → String) (o : Operation) where
  report-IsReport :
      (value : Value) (phase profile epoch : String) (positions : Option Value) {v : Value}
      → report canonical sha256 o value phase profile epoch positions ≡ ok v
      → (v ≡ value) × IsReport o value phase profile epoch positions
  unfolding report
  report-IsReport value phase profile epoch positions h =
      let last = λ (request : Value).
        raise_if (not (is_report_for phase profile epoch positions request)) wrong_proof
        >> ok value in
      let (_, h1) =
        after_not
          (has_keys
            ("schema" ∷ "request" ∷ "request_sha256" ∷ "databases" ∷ "signature" ∷ "checks" ∷ [])
            value)
          _ _ h in
      let (request, a, h2) =
        bind-eq-ok (item value "request")
          (λ request. validated canonical sha256 o value request >>= λ _. last request) h1 in
      let (_, b, h3) =
        bind-eq-ok (validated canonical sha256 o value request) (λ _. last request) h2 in
      let (c, h4) =
        after_not (is_report_for phase profile epoch positions request) wrong_proof (ok value) h3 in
      (
        sym (ok-injective h4),
        record {
          request = request;
          found = a;
          passed =
              (validate_acceptance_result-IsPassed canonical sha256 controller_root value request
                (operation_value o) none b).1;
          meant = c;
        },
      )

get-item : (v : Value) (k : String) {x : Value} → item v k ≡ ok x → get v k ≡ x
unfolding get
get-item v k {x} h =
    let (fs, o) = item_obj v k h in
    let found = item-lookup fs k (subst (λ u. item u k ≡ ok x) o h) in
    ap (λ u. get u k) o ∙ rw (get, found) refl

le_false : (m n : ℕ) → number_le (int m) (int n) ≡ ok false → n < m
unfolding number_le
le_false m n h = ground arith

any_not_beyond_lem :
    (positions baseline : Value) (fs : Fields) (db : String) {w : Value}
    → any_not_beyond positions baseline fs ≡ ok false
    → lookup fs db ≡ some w
    → (new : Value) × (old : Value) × (item positions db ≡ ok new)
      × (item baseline db ≡ ok old)
      × (number_le new old ≡ ok false)
unfolding any_not_beyond lookup
any_not_beyond_lem positions baseline end db h l = cc
any_not_beyond_lem positions baseline (field k v rest) db h l =
    let on = λ (behind : Bool). elim behind as (λ _. Result Bool) [
      | true ↦ ok true
      | false ↦ any_not_beyond positions baseline rest
    ] in
    let (new, a, h1) =
      bind-eq-ok (item positions k) (λ new. item baseline k >>= λ old. number_le new old >>= on)
        h in
    let (old, b, h2) = bind-eq-ok (item baseline k) (λ old. number_le new old >>= on) h1 in
    let (behind, c, h3) = bind-eq-ok (number_le new old) on h2 in
    let (c', h4) = ahead (number_le new old) behind c h3 in
    elim (Bool-cases (k == db)) [
      | inl t ↦
          let same = (eq_iff k db).0 t in
          (
            new,
            old,
            subst (λ x. item positions x ≡ ok new) same a,
            subst (λ x. item baseline x ≡ ok old) same b,
            c',
          )
      | inr f ↦ any_not_beyond_lem positions baseline rest db h4 (sym (rw (lookup, f) refl) ∙ l)
    ]
  where
    ahead :
        (m : Result Bool) (b : Bool)
        → m ≡ ok b
        → elim b as (λ _. Result Bool) [
          | true ↦ ok true
          | false ↦ any_not_beyond positions baseline rest
        ]
          ≡ ok false
        → (m ≡ ok false) × (any_not_beyond positions baseline rest ≡ ok false)
    ahead m true c h = cc
    ahead m false c h = (c, h)

cut_lem :
    (v : Value) {u : Unit {0}}
    → validate_cut v ≡ ok u
    → (fs : Fields) × (v ≡ obj fs) × ((db : String) → contains dbs db ≡ true → IsPosition v db)
unfolding validate_cut is_cut
cut_lem (obj fs) h =
    let (a, b) =
      &&-eq-true (has_keys dbs (obj fs)) (all (is_int_between 0 (2 ^ 64)) (values fs))
        (not-eq-false _ (raise_if-eq-ok _ _ h)) in
    (fs, refl, λ db. IsPosition-of fs db a b)
cut_lem v h = cc

-- Positions none of which is at most the baseline's are later.
not_beyond-Advances :
    (positions baseline : Value) (db : String) {u : Unit {0}}
    → validate_cut positions ≡ ok u
    → IsPosition baseline db
    → not_beyond positions baseline ≡ ok false
    → contains dbs db ≡ true
    → Advances baseline positions db
unfolding not_beyond
not_beyond-Advances positions baseline db v p h c =
    let (fs, o, at) = cut_lem positions v in
    let new = at db c in
    let h' : any_not_beyond (obj fs) baseline fs ≡ ok false =
      subst (λ x. not_beyond x baseline ≡ ok false) o h in
    let found = item-lookup fs db (subst (λ x. item x db ≡ ok (int new.position)) o new.found) in
    let (n, m, a, b, l) = any_not_beyond_lem (obj fs) baseline fs db h' found in
    let is_new : n ≡ int new.position =
      ok-injective (sym a ∙ sym (ap (λ x. item x db) o) ∙ new.found) in
    let is_old : m ≡ int p.position = ok-injective (sym b ∙ p.found) in
    record {
      before = p.position;
      after = new.position;
      old_position = p.found;
      new_position = new.found;
      later = le_false new.position p.position (
          subst (λ x. number_le x (int p.position) ≡ ok false) is_new
            (subst (λ x. number_le n x ≡ ok false) is_old l));
    }

-- The two reports of a recovery: of the comparison at the selected cut, and of the baseline.
pub record HasReports (o : Operation) (evidence : List (String × Value))
    (selected cut signature baseline : Value) : Type 0 where
  pub comparison : Value
  pub compare : evidence_for "compare" evidence ≡ ok comparison
  pub compared :
      IsReport o comparison "compare" "recovery-comparison" o.source_epoch (some selected)
  pub same_cut : py_eq cut selected ≡ true
  pub same_signature : py_eq signature (get comparison "signature") ≡ true
  pub first : evidence_for "baseline" evidence ≡ ok baseline
  pub baseline_report : IsReport o baseline "baseline" "baseline" o.new_epoch none

-- The restores that a recovery from B to A has, and the cut that it took them at.
pub record HasRestores (o : Operation) (evidence : List (String × Value)) (baseline : Value)
    : Type 0 where
  pub source : o.source ≡ "B"
  pub target : o.target ≡ "A"
  pub selection : Value
  pub selected : Value
  pub restored : Value
  pub cut : Value
  pub signature : Value
  pub select_cut : evidence_for "select_cut" evidence ≡ ok selection
  pub selected_positions : item selection "positions" ≡ ok selected
  pub positions : (db : String) → contains dbs db ≡ true → IsPosition selected db
  pub restore : evidence_for "restore" evidence ≡ ok restored
  pub restored_cut : item restored "cut" ≡ ok cut
  pub restored_signature : item restored "signature" ≡ ok signature
  pub reports : HasReports o evidence selected cut signature baseline

-- What it has once it is verified: A is the writer of the new epoch, and the new writes were restored at later
-- positions than the baseline.
pub record HasWrites (o : Operation) (evidence : List (String × Value)) (baseline : Value)
    : Type 0 where
  pub route : Value
  pub verification : Value
  pub positions : Value
  pub writes : Value
  pub routed : evidence_for "route" evidence ≡ ok route
  pub verified : evidence_for "verify" evidence ≡ ok verification
  pub to_a : routes_to_a o route verification ≡ true
  pub listed : item verification "positions" ≡ ok positions
  pub new_writes : item verification "new_writes" ≡ ok writes
  pub fresh : IsReport o writes "new-writes" "fresh-writes" o.new_epoch (some positions)
  pub later :
      (db : String)
      → contains dbs db ≡ true
      → Advances (get (get baseline "request") "positions") positions db

module _ (canonical : Value → Result (List ℕ)) (sha256 : List ℕ → String) (o : Operation)
    (evidence : List (String × Value)) where
  reported_proof-HasReports :
      (selected cut signature : Value) {baseline : Value}
      → reported_proof canonical sha256 o evidence selected cut signature ≡ ok baseline
      → HasReports o evidence selected cut signature baseline
  unfolding reported_proof
  reported_proof-HasReports selected cut signature {baseline} h =
      let same = λ (compared baseline : Value).
        raise_if (not (py_eq cut selected && py_eq signature (get compared "signature")))
          wrong_proof
        >> ok baseline in
      let based = λ (compared first : Value).
        report canonical sha256 o first "baseline" "baseline" o.new_epoch none >>= same compared in
      let from = λ (compared : Value). evidence_for "baseline" evidence >>= based compared in
      let reported = λ (comparison : Value).
        report canonical sha256 o comparison "compare" "recovery-comparison" o.source_epoch
          (some selected)
        >>= from in
      let (comparison, a, h1) = bind-eq-ok (evidence_for "compare" evidence) reported h in
      let (compared, b, h2) =
        bind-eq-ok
          (report canonical sha256 o comparison "compare" "recovery-comparison" o.source_epoch
            (some selected))
          from h1 in
      let (first, c, h3) = bind-eq-ok (evidence_for "baseline" evidence) (based compared) h2 in
      let (found, d, h4) =
        bind-eq-ok (report canonical sha256 o first "baseline" "baseline" o.new_epoch none)
          (same compared) h3 in
      let (e, h5) =
        after_not (py_eq cut selected && py_eq signature (get compared "signature")) wrong_proof
          (ok found) h4 in
      ends comparison compared first found a b c d e (ok-injective h5)
    where
      ends :
          (comparison compared first found : Value)
          → evidence_for "compare" evidence ≡ ok comparison
          → report canonical sha256 o comparison "compare" "recovery-comparison" o.source_epoch
              (some selected)
            ≡ ok compared
          → evidence_for "baseline" evidence ≡ ok first
          → report canonical sha256 o first "baseline" "baseline" o.new_epoch none ≡ ok found
          → (py_eq cut selected && py_eq signature (get compared "signature")) ≡ true
          → found ≡ baseline
          → HasReports o evidence selected cut signature baseline
      ends comparison compared first found a b c d e is_found =
          let (same_cut, same_signature) =
            &&-eq-true (py_eq cut selected) (py_eq signature (get compared "signature")) e in
          let (is_compared, p) =
            report-IsReport canonical sha256 o comparison "compare" "recovery-comparison"
              o.source_epoch (some selected) b in
          let (is_first, q) =
            report-IsReport canonical sha256 o first "baseline" "baseline" o.new_epoch none d in
          let is_baseline : first ≡ baseline = sym is_first ∙ is_found in
          record {
            comparison = comparison;
            compare = a;
            compared = p;
            same_cut = same_cut;
            same_signature =
                subst (λ v. py_eq signature (get v "signature") ≡ true) is_compared same_signature;
            first = c ∙ ap ok is_baseline;
            baseline_report =
                subst (λ v. IsReport o v "baseline" "baseline" o.new_epoch none) is_baseline q;
          }

  restored_proof-HasRestores :
      {baseline : Value}
      → restored_proof canonical sha256 o evidence ≡ ok baseline
      → HasRestores o evidence baseline
  unfolding restored_proof
  restored_proof-HasRestores h =
      let signed = λ (selected cut signature : Value).
        raise_if (not (has_keys dbs signature)) wrong_proof
        >> reported_proof canonical sha256 o evidence selected cut signature in
      let at = λ (selected restored cut : Value).
        validate_cut cut >>= λ _. item restored "signature" >>= signed selected cut in
      let restored = λ (selected restored : Value). item restored "cut" >>= at selected restored in
      let chosen = λ (selected : Value).
        validate_cut selected >>= λ _. evidence_for "restore" evidence >>= restored selected in
      let (a, h1) =
        after_not (o.source == "B" && o.target == "A") wrong_proof
          (evidence_for "select_cut" evidence >>= λ s. item s "positions" >>= chosen) h in
      let (selection, b, h2) =
        bind-eq-ok (evidence_for "select_cut" evidence) (λ s. item s "positions" >>= chosen) h1 in
      let (selected, c, h3) = bind-eq-ok (item selection "positions") chosen h2 in
      let (_, d, h4) =
        bind-eq-ok (validate_cut selected)
          (λ _. evidence_for "restore" evidence >>= restored selected) h3 in
      let (restore, e, h5) = bind-eq-ok (evidence_for "restore" evidence) (restored selected) h4 in
      let (cut, f, h6) = bind-eq-ok (item restore "cut") (at selected restore) h5 in
      let (_, _, h7) =
        bind-eq-ok (validate_cut cut) (λ _. item restore "signature" >>= signed selected cut) h6 in
      let (signature, g, h8) = bind-eq-ok (item restore "signature") (signed selected cut) h7 in
      let (_, h9) =
        after_not (has_keys dbs signature) wrong_proof
          (reported_proof canonical sha256 o evidence selected cut signature) h8 in
      let (is_b, is_a) = &&-eq-true (o.source == "B") (o.target == "A") a in
      record {
        source = (eq_iff o.source "B").0 is_b;
        target = (eq_iff o.target "A").0 is_a;
        selection = selection;
        selected = selected;
        restored = restore;
        cut = cut;
        signature = signature;
        select_cut = b;
        selected_positions = c;
        positions = (cut_lem selected d).2;
        restore = e;
        restored_cut = f;
        restored_signature = g;
        reports = reported_proof-HasReports selected cut signature h9;
      }

  verified_proof-HasWrites :
      {baseline : Value}
      → IsReport o baseline "baseline" "baseline" o.new_epoch none
      → {u : Unit {0}} → verified_proof canonical sha256 o evidence baseline ≡ ok u
      → HasWrites o evidence baseline
  unfolding verified_proof
  verified_proof-HasWrites {baseline} r h =
      let old = get (get baseline "request") "positions" in
      let ahead =
        λ (positions : Value). not_beyond positions old >>= λ stale. raise_if stale wrong_proof in
      let written = λ (positions writes : Value).
        report canonical sha256 o writes "new-writes" "fresh-writes" o.new_epoch (some positions)
        >>= λ _. ahead positions in
      let placed = λ (verification positions : Value).
        validate_cut positions >>= λ _. item verification "new_writes" >>= written positions in
      let read = λ (verification : Value). item verification "positions" >>= placed verification in
      let routed = λ (route verification : Value).
        raise_if (not (routes_to_a o route verification)) wrong_proof >> read verification in
      let (route, a, h1) =
        bind-eq-ok (evidence_for "route" evidence)
          (λ r. evidence_for "verify" evidence >>= routed r) h in
      let (verification, b, h2) = bind-eq-ok (evidence_for "verify" evidence) (routed route) h1 in
      let (c, h3) =
        after_not (routes_to_a o route verification) wrong_proof (read verification) h2 in
      let (positions, d, h4) =
        bind-eq-ok (item verification "positions") (placed verification) h3 in
      let (_, e, h5) =
        bind-eq-ok (validate_cut positions)
          (λ _. item verification "new_writes" >>= written positions) h4 in
      let (writes, f, h6) = bind-eq-ok (item verification "new_writes") (written positions) h5 in
      let (_, g, h7) =
        bind-eq-ok
          (report canonical sha256 o writes "new-writes" "fresh-writes" o.new_epoch
            (some positions))
          (λ _. ahead positions) h6 in
      let (_, fresh) =
        report-IsReport canonical sha256 o writes "new-writes" "fresh-writes" o.new_epoch
          (some positions) g in
      let stale = not_stale (not_beyond positions old) wrong_proof h7 in
      let request = get-item baseline "request" r.found in
      record {
        route = route;
        verification = verification;
        positions = positions;
        writes = writes;
        routed = a;
        verified = b;
        to_a = c;
        listed = d;
        new_writes = f;
        fresh = fresh;
        later = λ db k.
            not_beyond-Advances positions old db e
              (subst (λ v. IsPosition (get v "positions") db) (sym request)
                (r.passed.accepted.positions db k))
              stale k;
      }

  -- The evidence of an operation that `_validate_d3_proof` accepts as verified is that of a recovery from B to A:
  -- the comparison, the baseline and the new writes are each a report of a restore that passed for this
  -- operation; the comparison was restored at the selected cut, to which the cut of the restore is equal, and has
  -- the signature of the restore; the route and the verification name A as the writer of the new epoch;
  -- and of each of the three databases the new writes were restored at a later position than the
  -- baseline.
  pub validate_d3_proof-Stands :
      {u : Unit {0}}
      → validate_d3_proof canonical sha256 o evidence true ≡ ok u
      → (baseline : Value) × HasRestores o evidence baseline × HasWrites o evidence baseline
  unfolding validate_d3_proof
  validate_d3_proof-Stands h =
      let (baseline, a, b) =
        bind-eq-ok (restored_proof canonical sha256 o evidence)
          (verified_proof canonical sha256 o evidence) (or_raise-eq-ok _ _ h) in
      let restores = restored_proof-HasRestores a in
      (baseline, restores, verified_proof-HasWrites restores.reports.baseline_report b)
    where
      or_raise-eq-ok :
          (m : Result (Unit {0})) (e : Exc) {u : Unit {0}} → or_raise m e ≡ ok u → m ≡ ok u
      or_raise-eq-ok (ok tt) e h = h
      or_raise-eq-ok (raise x) e h = cc
