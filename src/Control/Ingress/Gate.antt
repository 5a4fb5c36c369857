-- ===== src/Control/Ingress/Gate.antt =====
-- hat/control.py: `_ingress_allowed_body`, the reasons for which the ingress may start. Its calls
-- of `_validate_legacy_rows` and `_d3_serving_state` see the tables at one moment each.
-- `json.loads` of a text is an argument.
use highly_available_trailba.Prelude.{
  ℕ, Bool, true, false, ◌&&◌, not, String, List, [], ◌∷◌, Option, none, some, ◌==◌, nat_eq,
  string_eq, list_eq, pair_eq, list_beq, Result, ok, raise, value_error, bind,
}
use highly_available_trailba.Exec.{◌>>=◌, ◌>>◌, pure, lift}
use highly_available_trailba.Py.Value.{Value, has_keys, item, py_eq}
use highly_available_trailba.Py.Text.{is_operation}
use highly_available_trailba.Control.Phases.{status_eq, boundary_marks}
use highly_available_trailba.Control.Rows.{
  Contract, legacy, acceptance, is_acceptance, OperationRow, select_operation, steps_of,
}
use highly_available_trailba.Control.Journal.{evidence_of}
use highly_available_trailba.Control.Proof.{validate_d3_proof}
use highly_available_trailba.Control.Serving.{
  Failure, unreadable, holds, done_row, d3_serving_state,
}
use highly_available_trailba.Control.Existing.{marker}
use highly_available_trailba.Control.Schema.{journal_schema}
use highly_available_trailba.Control.Legacy.{validate_legacy_rows}
use highly_available_trailba.Control.Ingress.{
  Reading, gone, failed, held, Place, root, journal_db, ingress, maintenance, permit, failure,
  Sights, Look, look, process_identity, reading, read_private, is_present, private_at, lstat_now,
}
use highly_available_trailba.Control.Ingress.Facts.{
  Tracked, Verdict, decision_of, not_allowed, catching, newest, same_root, is_live_route,
  contract_of, demand, failure_of, is_pending_route, route_in, verify_pending, is_marked, is_permit,
  permit_keys, row_epoch, recovery_of, is_route_intended, is_recovery_pending,
}

module _ (w : Sights) (canonical : Value → Result (List ℕ)) (sha256 : List ℕ → String)
    (loads_bytes : List ℕ → Result Value) (boot : String) where
  abbrev pub json_at : Place → Look Value
  json_at p = look (λ t. bind (w.text_at t p) loads_bytes)

  -- the journal and the ingress file are what they were
  unfoldable pub still : List ℕ → List ℕ → Look Bool
  unfolding read_private list_beq
  still journal_identity ingress_identity = read_private w true journal_db >>= λ j.
      elim (j.1 == journal_identity) [
        | false ↦ pure false
        | true ↦ read_private w false ingress >>= λ i. pure (i.1 == ingress_identity)
      ]

  -- no journal
  unfoldable pub without_journal : Bool → Bool → Look Bool
  unfolding lstat_now read_private same_root list_beq
  without_journal marked permitted = do
    root_before ← lstat_now w root
    before ← read_private w false ingress
    root_after ← lstat_now w root
    after ← read_private w false ingress
    pure (same_root root_before root_after && before.1 == after.1 && not marked && not permitted)

  -- a journal without an operation
  unfoldable pub without_operation : Bool → Bool → List ℕ → List ℕ → Look Bool
  unfolding still
  without_operation marked permitted j i =
      still j i >>= λ b. pure (b && not marked && not permitted)

  -- a completed operation
  unfoldable pub with_completed : Bool → Bool → List ℕ → List ℕ → String → OperationRow → Look Bool
  unfolding look done_row steps_of still is_live_route
  with_completed marked permitted j i digest r = do
    db ← look w.tables_at
    b ← still j i
    pure (
        b
        && not marked
        && not permitted
        && is_live_route (done_row "route" (steps_of r.id db)) r.target r.new_epoch digest)

  -- the permit of the process that starts the ingress
  unfoldable pub with_permit : String → String → List ℕ → List ℕ → Value → Look Bool
  unfolding look item process_identity still is_permit
  with_permit ident digest j i value = do
    pid ← lift (item value "pid")
    birth ← look (λ t. ok (process_identity (w.process_at t) pid))
    b ← still j i
    pure (b && is_permit ident boot digest birth value)

  -- a recovery whose route or whose verification is pending
  unfoldable pub with_pending_recovery :
      List ℕ → List ℕ → String → OperationRow → Tracked → Look Bool
  unfolding look steps_of is_recovery_pending evidence_of select_operation row_epoch
      validate_d3_proof is_pending_route route_in private_at has_keys with_permit demand
      boundary_marks list_beq
  with_pending_recovery j i digest r tracked = do
    db ← look w.tables_at
    lift (demand (value_error "") (is_recovery_pending (steps_of r.id db) tracked))
    evidence ← lift (evidence_of (steps_of r.id db))
    other ← look w.tables_at
    source_epoch ← lift (row_epoch (select_operation r.id other))
    lift (
        validate_d3_proof canonical sha256 (recovery_of r.id source_epoch r.new_epoch) evidence
          false)
    routed ← lift (elim (is_marked verify_pending (steps_of r.id db)) [
      | true ↦ is_pending_route (route_in evidence) r.new_epoch digest
      | false ↦ ok true
    ])
    lift (demand (value_error "") routed)
    file ← private_at w permit
    value ← json_at permit
    lift (demand (value_error "") (has_keys permit_keys value))
    with_permit r.id digest j i value

  -- what the failure file held when it was first read
  unfoldable pub tracked_of : Reading → Result Tracked
  tracked_of gone = ok none
  tracked_of (failed e) = raise e
  tracked_of (held raw id) = ok (some (id, sha256 raw))

  -- the failure that `_d3_serving_state` goes by: it reads again what was not there
  unfoldable pub serving_failure : String → Reading → Look Failure
  unfolding reading failure_of
  serving_failure ident gone = reading w false (failure ident) >>= λ again. pure (failure_of again)
  serving_failure ident (failed e) = pure unreadable
  serving_failure ident (held raw id) = pure (holds raw)

  -- a recovery: served, or pending
  unfoldable pub with_recovery :
      Bool → Bool → List ℕ → List ℕ → String → OperationRow → Look Verdict
  unfolding is_operation look py_eq reading tracked_of serving_failure d3_serving_state still
      with_pending_recovery demand
  with_recovery marked permitted j i digest r = do
    lift (demand (value_error "") (is_operation r.id && marked))
    text ← json_at maintenance
    lift (demand (value_error "") (py_eq text (marker r.id)))
    first ← reading w false (failure r.id)
    tracked ← lift (tracked_of first)
    db ← look w.tables_at
    state ← serving_failure r.id first
    allowed ← elim (d3_serving_state canonical sha256 loads_bytes db r.id digest state) [
      | true ↦ (still j i >>= λ b. pure (b && not permitted))
      | false ↦ with_pending_recovery j i digest r tracked
    ]
    pure (decision_of allowed ((failure r.id, tracked) ∷ []))

  -- a switchover whose route is pending
  unfoldable pub with_switchover : Bool → List ℕ → List ℕ → String → OperationRow → Look Bool
  unfolding look item steps_of is_route_intended private_at with_permit demand
  with_switchover marked j i digest r = do
    db ← look w.tables_at
    lift (demand (value_error "") marked)
    text ← json_at maintenance
    named ← lift (item text "operation")
    has_failed ← look (λ t. ok (w.exists_at t (failure r.id)))
    lift (demand (value_error "") (is_route_intended r.id named has_failed (steps_of r.id db)))
    file ← private_at w permit
    value ← json_at permit
    with_permit r.id digest j i value

  abbrev pub alone : Look Bool → Look Verdict
  alone m = m >>= λ b. pure (decision_of b [])

  -- the newest operation
  unfoldable pub with_operation :
      Bool → Bool → List ℕ → List ℕ → String → Contract → Option OperationRow → Look Verdict
  unfolding without_operation with_completed with_recovery with_switchover contract_of is_acceptance
  with_operation marked permitted j i digest kind none =
      alone (without_operation marked permitted j i)
  with_operation marked permitted j i digest kind (some r) = elim r.complete [
    | true ↦ alone (with_completed marked permitted j i digest r)
    | false ↦ elim (is_acceptance (contract_of kind r)) [
      | false ↦ pure not_allowed
      | true ↦ elim (r.source == "B" && r.target == "A") [
        | true ↦ with_recovery marked permitted j i digest r
        | false ↦ alone (with_switchover marked j i digest r)
      ]
    ]
  ]

  -- `if kind==LEGACY_RESTORE_CONTRACT: _validate_legacy_rows(db)`
  unfoldable pub check_rows_of : Contract → Look (Unit {0})
  unfolding look validate_legacy_rows
  check_rows_of legacy = look (λ t. bind (w.tables_at t) validate_legacy_rows)
  check_rows_of acceptance = pure tt

  unfoldable pub with_journal : Bool → Bool → Look Verdict
  unfolding look read_private journal_schema check_rows_of newest with_operation demand
  with_journal marked permitted = do
    j ← read_private w true journal_db
    i ← read_private w false ingress
    mode ← look w.mode_at
    lift (demand (value_error "") (mode == "delete"))
    kind ← look (λ t. bind (w.catalog_at t) journal_schema)
    check_rows_of kind
    db ← look w.tables_at
    with_operation marked permitted j.1 i.1 (sha256 i.0) kind (newest db.operations)

  unfoldable pub private_if : Bool → Look (Unit {0})
  unfolding private_at
  private_if true = private_at w maintenance >>= λ file. pure tt
  private_if false = pure tt

  -- the body of the `try`
  unfoldable pub ingress_body : Look Verdict
  unfolding is_present private_if look without_journal with_journal
  ingress_body = do
    marked ← is_present w maintenance
    permitted ← is_present w permit
    private_if marked
    there ← look (λ t. ok (w.exists_at t journal_db))
    elim there [
      | true ↦ with_journal marked permitted
      | false ↦ alone (without_journal marked permitted)
    ]

  -- `_ingress_allowed_body`
  unfoldable pub ingress_allowed_body : Look Verdict
  unfolding catching ingress_body
  ingress_allowed_body = catching not_allowed ingress_body
