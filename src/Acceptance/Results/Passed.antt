-- ===== src/Acceptance/Results/Passed.antt =====
-- What an accepted result of a restore shows.
use highly_available_trailba.Prelude.{
  ℕ, ◌≡◌, refl, sym, ◌∙◌, subst, true, false, not, String, List, [], ◌∷◌, Option, ◌==◌, string_eq,
  eq_iff, contains, Result, ok, raise_if, raise_if-eq-ok, value_error, arith, bind, bind-eq-ok,
  ok-injective, Bool-cases, inl, inr, &&-eq-true, not-eq-false, after_not, after_test,
}
use highly_available_trailba.Fallible.{◌>>=◌, ◌>>◌}
use highly_available_trailba.Py.Value.{Value, get, item, is_text, py_eq}
use highly_available_trailba.Py.Access.{hex64, keys_are, recast-eq-ok}
use highly_available_trailba.Node.Positions.{dbs}
use highly_available_trailba.Acceptance.Requests.{recovery, digest_of, validate_acceptance_request}
use highly_available_trailba.Acceptance.Requests.Bound.{
  IsAccepted, validate_acceptance_request-IsAccepted,
}
use highly_available_trailba.Acceptance.Outcomes.{Outcomes, outcomes_of, are_complete}
use highly_available_trailba.Acceptance.Results.{
  invalid_result, same_position, passes, check_database, check_databases, against, are_passed,
  expected_of, check_recovery, plain_checks, check_checks, is_result, check_result,
  validate_acceptance_result,
}

-- what a result shows of one database
pub record IsRestored (result positions : Value) (db : String) : Type 0 where
  pub databases : Value
  pub database : Value
  pub position : Value
  pub asked : Value
  pub listed : item result "databases" ≡ ok databases
  pub found : item databases db ≡ ok database
  pub at : item database "position" ≡ ok position
  pub requested : item positions db ≡ ok asked
  pub same : same_position position asked ≡ true
  pub passed : passes database ≡ ok true

check_database-IsRestored :
    (result positions : Value) (db : String) {u : Unit {0}}
    → check_database result positions db ≡ ok u
    → IsRestored result positions db
unfolding check_database
check_database-IsRestored result positions db h =
    let wrong = value_error "invalid restore database result" in
    let signature = item result "signature" >>= λ s.
    bind (item s db) hex64 >>= λ b. raise_if (not b) (value_error "invalid restore signature") in
    let passing = λ (d : Value). passes d >>= λ b. raise_if (not b) wrong >> signature in
    let digest =
      λ (d : Value). bind (item d "sha256") hex64 >>= λ b. raise_if (not b) wrong >> passing d in
    let compared = λ (d p a : Value). raise_if (not (same_position p a)) wrong >> digest d in
    let asked = λ (d p : Value). item positions db >>= compared d p in
    let placed = λ (d : Value). item d "position" >>= asked d in
    let shaped = λ (d : Value).
      keys_are ("position" ∷ "sha256" ∷ "integrity" ∷ "foreign_keys" ∷ []) d >>= λ b.
      raise_if (not b) wrong >> placed d in
    let (databases, a, h1) = bind-eq-ok (item result "databases") (λ ds. item ds db >>= shaped) h in
    let (database, b, h2) = bind-eq-ok (item databases db) shaped h1 in
    let (_, h4) =
      after_test (keys_are ("position" ∷ "sha256" ∷ "integrity" ∷ "foreign_keys" ∷ []) database)
        wrong (placed database) h2 in
    let (position, c, h5) = bind-eq-ok (item database "position") (asked database) h4 in
    let (request, d, h6) = bind-eq-ok (item positions db) (compared database position) h5 in
    let (e, h7) = after_not (same_position position request) wrong (digest database) h6 in
    let (_, h8) = after_test (bind (item database "sha256") hex64) wrong (passing database) h7 in
    let (f, _) = after_test (passes database) wrong signature h8 in
    record {
      databases = databases;
      database = database;
      position = position;
      asked = request;
      listed = a;
      found = b;
      at = c;
      requested = d;
      same = e;
      passed = f;
    }

check_databases-IsRestored :
    (result positions : Value) (names : List String) {u : Unit {0}}
    → check_databases result positions names ≡ ok u
    → (db : String) → contains names db ≡ true
    → IsRestored result positions db
unfolding check_databases contains
check_databases-IsRestored result positions [] h db c = cc
check_databases-IsRestored result positions (name ∷ rest) h db c =
    let (_, a, h1) =
      bind-eq-ok (check_database result positions name) (λ _. check_databases result positions rest)
        h in
    elim (Bool-cases (name == db)) [
      | inl t ↦
          subst (IsRestored result positions) ((eq_iff name db).0 t)
            (check_database-IsRestored result positions name a)
      | inr f ↦ check_databases-IsRestored result positions rest h1 db (ground (arith, c, f))
    ]

-- what the checks of a comparison after a fault show
pub record IsRecovered (checks request : Value) (events : Option Value) : Type 0 where
  pub outcomes : Value
  pub o : Outcomes
  pub listed : item checks "fault_outcomes" ≡ ok outcomes
  pub read : outcomes_of outcomes (value_error "invalid recovery fault outcomes") ≡ ok o
  pub complete : are_complete o (expected_of (get (get request "inputs") "fault_operations")) ≡ true
  pub reviewed : against events outcomes ≡ ok tt
  pub passed : are_passed checks ≡ true

check_recovery-IsRecovered :
    (checks request : Value) (events : Option Value) {u : Unit {0}}
    → check_recovery checks request events ≡ ok u
    → IsRecovered checks request events
unfolding check_recovery
check_recovery-IsRecovered checks request events h =
    let wrong = value_error "invalid recovery restore checks" in
    let malformed = value_error "invalid recovery fault outcomes" in
    let complete = λ (o : Outcomes).
      are_complete o (expected_of (get (get request "inputs") "fault_operations")) in
    let last = raise_if (not (are_passed checks)) (value_error "invalid restore checks") in
    let review = λ (v : Value). against events v >> last in
    let bound = λ (v : Value) (o : Outcomes).
      raise_if (not (complete o)) (value_error "invalid recovery fault outcome binding")
      >> review v in
    let shaped = λ (v : Value). outcomes_of v malformed >>= bound v in
    let lossless = λ (v : Value).
      raise_if (not (is_text "NONE" v)) wrong >> (item checks "fault_outcomes" >>= shaped) in
    let (named, _, h1) =
      bind-eq-ok
        (keys_are ("records" ∷ "authentication" ∷ "fault_outcomes" ∷ "acknowledged_loss" ∷ [])
          checks)
        (λ b. raise_if (not b) wrong >> (item checks "acknowledged_loss" >>= lossless)) h in
    let (_, h2) = after_not named _ _ h1 in
    let (loss, _, h3) = bind-eq-ok (item checks "acknowledged_loss") lossless h2 in
    let (_, h4) = after_not (is_text "NONE" loss) _ _ h3 in
    let (outcomes, a, h5) = bind-eq-ok (item checks "fault_outcomes") shaped h4 in
    let (o, b, h6) = bind-eq-ok (outcomes_of outcomes malformed) (bound outcomes) h5 in
    let (c, h7) = after_not (complete o) _ _ h6 in
    let (_, d, h8) = bind-eq-ok (against events outcomes) (λ _. last) h7 in
    record {
      outcomes = outcomes;
      o = o;
      listed = a;
      read = b;
      complete = c;
      reviewed = d;
      passed = not-eq-false _ (raise_if-eq-ok _ _ h8);
    }

-- What an accepted result shows: its request was accepted, and is the one that it carries; each of the
-- databases was restored at the request's position and passed; its checks passed.
pub record IsPassed (root : List String) (operation request result : Value) (events : Option Value)
    : Type 0 where
  pub accepted : IsAccepted root operation request
  pub same_request : py_eq (get result "request") request ≡ true
  pub restored :
      (db : String) → contains dbs db ≡ true → IsRestored result (get request "positions") db
  pub recovered :
      is_text recovery (get request "profile") ≡ true
      → IsRecovered (get result "checks") request events
  pub plain :
      is_text recovery (get request "profile") ≡ false
      → py_eq (get result "checks") plain_checks ≡ true

module _ (request : Value) (checks : Value) (events : Option Value) {u : Unit {0}}
    (h : check_checks checks request events ≡ ok u) where
  checks-IsRecovered :
      is_text recovery (get request "profile") ≡ true → IsRecovered checks request events
  unfolding check_checks
  checks-IsRecovered t =
      check_recovery-IsRecovered checks request events (sym (rw (check_checks, t) refl) ∙ h)

  checks_plain : is_text recovery (get request "profile") ≡ false → py_eq checks plain_checks ≡ true
  unfolding check_checks
  checks_plain f = not-eq-false (py_eq checks plain_checks) (
      raise_if-eq-ok (not (py_eq checks plain_checks)) (value_error "invalid restore checks")
        (sym (rw (check_checks, f) refl) ∙ h))

is_result_lem :
    (result request : Value)
    → is_result result request ≡ true
    → py_eq (get result "request") request ≡ true
unfolding is_result
is_result_lem result request h = (&&-eq-true _ (py_eq (get result "request") request) h).1

-- A restore result that is accepted is given back as it is; its request is accepted for the operation and
-- is the one that the result carries; of each of the three databases it shows a restore at the position
-- that the request asks for, with its integrity and its foreign keys passed; and its checks passed, after
-- a fault with outcomes that are complete and lose nothing.
pub validate_acceptance_result-IsPassed :
    (canonical : Value → Result (List ℕ)) (sha256 : List ℕ → String) (root : List String)
    (result request operation : Value) (events : Option Value) {s : Value}
    → validate_acceptance_result canonical sha256 root result request operation events ≡ ok s
    → (s ≡ result) × IsPassed root operation request result events
unfolding validate_acceptance_result check_result
validate_acceptance_result-IsPassed canonical sha256 root result request operation events h =
    let wrong = value_error "invalid restore result databases" in
    let checked = check_checks (get result "checks") request events >> ok result in
    let databases = check_databases result (get request "positions") dbs >> checked in
    let signed =
      keys_are dbs (get result "signature") >>= λ b. raise_if (not b) wrong >> databases in
    let named = keys_are dbs (get result "databases") >>= λ b. raise_if (not b) wrong >> signed in
    let digested = λ (d : String).
      raise_if (not (is_text d (get result "request_sha256"))) invalid_result >> named in
    let (_, a, h1) =
      bind-eq-ok (validate_acceptance_request canonical sha256 root request operation)
        (λ _.
          raise_if (not (is_result result request)) invalid_result
          >> (digest_of canonical sha256 request >>= digested))
        (recast-eq-ok "invalid restore acceptance result"
          (check_result canonical sha256 root result request operation events) h) in
    let (b, h2) = after_not (is_result result request) _ _ h1 in
    let (digest, _, h3) = bind-eq-ok (digest_of canonical sha256 request) digested h2 in
    let (_, h4) = after_not (is_text digest (get result "request_sha256")) _ _ h3 in
    let (_, h6) = after_test (keys_are dbs (get result "databases")) wrong signed h4 in
    let (_, h8) = after_test (keys_are dbs (get result "signature")) wrong databases h6 in
    let (_, c, h9) =
      bind-eq-ok (check_databases result (get request "positions") dbs) (λ _. checked) h8 in
    let (_, d, h10) =
      bind-eq-ok (check_checks (get result "checks") request events) (λ _. ok result) h9 in
    (
      sym (ok-injective h10),
      record {
        accepted =
            (validate_acceptance_request-IsAccepted canonical sha256 root request operation a).1;
        same_request = is_result_lem result request b;
        restored = check_databases-IsRestored result (get request "positions") dbs c;
        recovered = checks-IsRecovered request (get result "checks") events d;
        plain = checks_plain request (get result "checks") events d;
      },
    )
