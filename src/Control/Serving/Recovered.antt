-- ===== src/Control/Serving/Recovered.antt =====
-- What is served of a recovery that is not finished.
use highly_available_trailba.Prelude.{
  ℕ, ◌-◌, ◌%◌, ◌≤◌, ◌≡◌, ◌⊎◌, refl, Bool, true, false, not, ◌&&◌, String, List, [], ◌∷◌, ◌++◌, map,
  Option, none, some, Result, ok, raise, inl, inr, ◌==◌, list_eq, pair_eq, nat_eq, string_eq,
  list_beq_iff, &&-eq-true, arith, length, take, leb, contains,
}
use highly_available_trailba.Py.Value.{Value, str, get, is_text, has_keys}
use highly_available_trailba.Control.Phases.{status_eq, expected, expected_from}
use highly_available_trailba.Control.Rows.{
  Operation, OperationRow, StepRow, Db, mark, is_acceptance, select_operation, steps_of,
}
use highly_available_trailba.Control.Journal.{evidence_of}
use highly_available_trailba.Control.Accept.{evidence_for}
use highly_available_trailba.Control.Accept.Proven.{is_text_lem}
use highly_available_trailba.Control.Proof.{validate_d3_proof}
use highly_available_trailba.Control.Proof.Beyond.{HasRestores, HasWrites, validate_d3_proof-Stands}
use highly_available_trailba.Control.Serving.{
  Failure, absent, unreadable, holds, served, rejoining, last_phase, is_served_so_far,
  is_failure_of, is_failure_read, is_route_at, may_have_failed, is_proven, is_serving_row,
  d3_serving_state,
}

not-eq-true : (b : Bool) → not b ≡ true → b ≡ false
not-eq-true true h = cc
not-eq-true false h = refl

leb-eq-true : (m n : ℕ) → leb m n ≡ true → m ≤ n
leb-eq-true m n h = ground arith

module _ (canonical : Value → Result (List ℕ)) (sha256 : List ℕ → String)
    (loads_bytes : List ℕ → Result Value) where
  -- A failure is read only in the middle of a phase after the recovery, and names this phase.
  pub record FailedIn (steps : List StepRow) (raw : List ℕ) : Type 0 where
    pub value : Value
    pub odd : (length steps - 20) % 2 ≡ 1
    pub loaded : loads_bytes raw ≡ ok value
    pub phase : get value "phase" ≡ str (last_phase steps)
    pub rejoins : contains rejoining (last_phase steps) ≡ true

  -- What a served recovery shows.
  pub record Serves (db : Db) (ident digest : String) (failure : Failure) : Type 0 where
    pub row : OperationRow
    pub evidence : List (String × Value)
    pub baseline : Value
    pub route : Value
    pub selected : select_operation ident db ≡ some row
    pub unfinished : row.complete ≡ false
    pub at_least : 20 ≤ length (steps_of ident db)
    pub in_order :
        map mark (steps_of ident db)
        ≡ expected served ++ take (length (steps_of ident db) - 20) (expected_from 10 rejoining)
    pub loaded : evidence_of (steps_of ident db) ≡ ok evidence
    pub restores : HasRestores row.operation evidence baseline
    pub writes : HasWrites row.operation evidence baseline
    pub routed : evidence_for "route" evidence ≡ ok route
    pub digest_named : get route "config_sha" ≡ str digest
    pub failed :
        (failure ≡ absent)
        ⊎ ((raw : List ℕ) × (failure ≡ holds raw) × FailedIn (steps_of ident db) raw)

  may_have_failed_lem :
      (steps : List StepRow) (failure : Failure)
      → may_have_failed canonical sha256 loads_bytes steps failure ≡ true
      → (failure ≡ absent) ⊎ ((raw : List ℕ) × (failure ≡ holds raw) × FailedIn steps raw)
  unfolding may_have_failed is_failure_read is_failure_of
  may_have_failed_lem steps absent h = inl refl
  may_have_failed_lem steps unreadable h = cc
  may_have_failed_lem steps (holds raw) h =
      let (a, b) =
        &&-eq-true ((length steps - 20) % 2 == 1) (is_failure_read steps (loads_bytes raw)) h in
      let (value, l, c) = read (loads_bytes raw) b in
      let (c1, _) = &&-eq-true _ _ c in
      let (c2, d) = &&-eq-true _ (contains rejoining (last_phase steps)) c1 in
      let (_, e) =
        &&-eq-true (has_keys ("phase" ∷ "error" ∷ []) value)
          (is_text (last_phase steps) (get value "phase")) c2 in
      inr (
        raw,
        refl,
        record {
          value = value;
          odd = ground arith;
          loaded = l;
          phase = is_text_lem (last_phase steps) (get value "phase") e;
          rejoins = d;
        },
      )
    where
      read :
          (r : Result Value)
          → is_failure_read steps r ≡ true
          → (value : Value) × (r ≡ ok value) × (is_failure_of steps value ≡ true)
      read (ok value) h = (value, refl, h)
      read (raise e) h = cc

  route_lem :
      (digest : String) (r : Result Value)
      → is_route_at digest r ≡ true
      → (route : Value) × (r ≡ ok route) × (get route "config_sha" ≡ str digest)
  unfolding is_route_at
  route_lem digest (ok route) h =
      let (_, d) =
        &&-eq-true (has_keys ("writer" ∷ "epoch" ∷ "config_sha" ∷ []) route)
          (is_text digest (get route "config_sha")) h in
      (route, refl, is_text_lem digest (get route "config_sha") d)
  route_lem digest (raise e) h = cc

  is_proven_lem :
      (o : Operation) (digest : String) (steps : List StepRow) (failure : Failure)
      (r : Result (List (String × Value)))
      → is_proven canonical sha256 loads_bytes o digest steps failure r ≡ true
      → (evidence : List (String × Value)) × (r ≡ ok evidence)
        × (validate_d3_proof canonical sha256 o evidence true ≡ ok tt)
        × (is_route_at digest (evidence_for "route" evidence) ≡ true)
        × (may_have_failed canonical sha256 loads_bytes steps failure ≡ true)
  unfolding is_proven
  is_proven_lem o digest steps failure (raise e) h = cc
  is_proven_lem o digest steps failure (ok evidence) h =
      let (a, b) = go (validate_d3_proof canonical sha256 o evidence true) h in
      let (c, d) = &&-eq-true (is_route_at digest (evidence_for "route" evidence)) _ b in
      (evidence, refl, a, c, d)
    where
      go :
          (m : Result (Unit {0})) {b : Bool}
          → elim m as (λ _. Bool) [ raise e ↦ false | ok u ↦ b ] ≡ true
          → (m ≡ ok tt) × (b ≡ true)
      go (ok tt) h = (refl, h)
      go (raise e) h = cc

  serving_row_lem :
      (db : Db) (ident digest : String) (failure : Failure) (row : OperationRow)
      → select_operation ident db ≡ some row
      → is_serving_row canonical sha256 loads_bytes digest failure row (steps_of ident db) ≡ true
      → Serves db ident digest failure
  unfolding is_serving_row is_served_so_far
  serving_row_lem db ident digest failure row found h =
      let steps = steps_of ident db in
      let (h1, proven) =
        &&-eq-true _
          (is_proven canonical sha256 loads_bytes row.operation digest steps failure
            (evidence_of steps))
          h in
      let (h2, _) = &&-eq-true _ _ h1 in
      let (h3, so_far) = &&-eq-true _ (is_served_so_far steps) h2 in
      let (h4, _) = &&-eq-true _ (is_acceptance row.restore_contract) h3 in
      let (_, pending) =
        &&-eq-true (row.source == "B" && row.target == "A") (not row.complete) h4 in
      let (a, marks) =
        &&-eq-true (leb 20 (length steps) && leb (length steps) 26)
          (map mark steps
            == expected served ++ take (length steps - 20) (expected_from 10 rejoining))
          so_far in
      let (least, _) = &&-eq-true (leb 20 (length steps)) (leb (length steps) 26) a in
      let (evidence, loaded, valid, at, failing) =
        is_proven_lem row.operation digest steps failure (evidence_of steps) proven in
      let (baseline, restores, writes) =
        validate_d3_proof-Stands canonical sha256 row.operation evidence valid in
      let (route, routed, digested) = route_lem digest (evidence_for "route" evidence) at in
      record {
        row = row;
        evidence = evidence;
        baseline = baseline;
        route = route;
        selected = found;
        unfinished = not-eq-true row.complete pending;
        at_least = leb-eq-true 20 (length steps) least;
        in_order = (list_beq_iff (map mark steps) _).0 marks;
        loaded = loaded;
        restores = restores;
        writes = writes;
        routed = routed;
        digest_named = digested;
        failed = may_have_failed_lem steps failure failing;
      }

  -- `_d3_serving_state` says yes only of an operation from B to A that is not complete: its rows are those of the ten
  -- phases up to `verify`, followed by a first part of those of the three phases after it, in the plan's
  -- order; its evidence proves the recovery (its restores, and new writes restored at later positions
  -- than the baseline of each database); its route has the digest that is asked for; and there is no
  -- failure, or one that names the phase that was begun last, after `verify`.
  pub d3_serving_state-Serves :
      (db : Db) (ident digest : String) (failure : Failure)
      → d3_serving_state canonical sha256 loads_bytes db ident digest failure ≡ true
      → Serves db ident digest failure
  unfolding d3_serving_state
  d3_serving_state-Serves db ident digest failure h = go (select_operation ident db) refl h
    where
      go :
          (o : Option OperationRow)
          → select_operation ident db ≡ o
          → elim o as (λ _. Bool) [
            | none ↦ false
            | some row ↦
                is_serving_row canonical sha256 loads_bytes digest failure row (steps_of ident db)
          ]
            ≡ true
          → Serves db ident digest failure
      go none e h = cc
      go (some row) e h = serving_row_lem db ident digest failure row e h
