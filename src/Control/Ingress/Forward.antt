-- ===== src/Control/Ingress/Forward.antt =====
-- Every look of `ingress_allowed` moves on in time.
use highly_available_trailba.Prelude.{
  ℕ, ◌≤◌, ◌≡◌, subst, arith, Bool, true, false, ◌&&◌, not, String, List, [], ◌∷◌, Option, none,
  some, ◌==◌, nat_eq, string_eq, list_eq, pair_eq, Result, ok, raise, value_error, bind,
}
use highly_available_trailba.Exec.{◌>>=◌, pure, lift, continue}
use highly_available_trailba.Py.Value.{Value, has_keys, item, py_eq}
use highly_available_trailba.Py.Text.{is_operation}
use highly_available_trailba.Control.Phases.{status_eq}
use highly_available_trailba.Control.Rows.{
  Contract, legacy, acceptance, is_acceptance, OperationRow, select_operation, steps_of,
}
use highly_available_trailba.Control.Journal.{evidence_of}
use highly_available_trailba.Control.Proof.{validate_d3_proof}
use highly_available_trailba.Control.Serving.{done_row, d3_serving_state}
use highly_available_trailba.Control.Existing.{marker}
use highly_available_trailba.Control.Schema.{journal_schema}
use highly_available_trailba.Control.Legacy.{validate_legacy_rows}
use highly_available_trailba.Control.Ingress.{
  Reading, gone, failed, held, Place, root, journal_db, ingress, maintenance, permit, failure,
  Sights, Look, look, process_identity, reading, read_private, is_present, private_at, lstat_now,
}
use highly_available_trailba.Control.Ingress.Facts.{
  Tracked, decision_of, newest, is_live_route, contract_of, demand, failure_of, is_pending_route,
  route_in, verify_pending, is_marked, is_permit, permit_keys, row_epoch, recovery_of,
  is_route_intended, is_recovery_pending,
}
use highly_available_trailba.Control.Ingress.Gate.{
  still, without_journal, without_operation, with_completed, with_permit, with_pending_recovery,
  tracked_of, serving_failure, with_recovery, with_switchover, alone, with_operation, check_rows_of,
  with_journal, private_if, ingress_body,
}

-- It ends at the moment it starts or later.
pub record IsForward {A : Type 0} (m : Look A) : Type 0 where
  pub later : (t : ℕ) → t ≤ (m t).1

pub ends_later :
    {A : Type 0} {m : Look A} → IsForward m → {t u : ℕ} {r : Result A} → m t ≡ (r, u) → t ≤ u
ends_later {A} {m} f {t} {u} h = subst (λ (p : Result A × ℕ). t ≤ p.1) h (f.later t)

module _ {A : Type 0} where
  pub pure-IsForward : (a : A) → IsForward (pure a)
  pure-IsForward a = record { later = λ t. omega arith }

  pub lift-IsForward : (r : Result A) → IsForward (lift r)
  lift-IsForward r = record { later = λ t. omega arith }

  pub look-IsForward : (f : ℕ → Result A) → IsForward (look f)
  unfolding look
  look-IsForward f = record { later = λ t. omega arith }

  pub choice-IsForward :
      (b : Bool) {m n : Look A}
      → IsForward m
      → IsForward n
      → IsForward (elim b as (λ _. Look A) [ true ↦ m | false ↦ n ])
  choice-IsForward true f g = f
  choice-IsForward false f g = g

module _ {A B : Type 0} where
  pub >>=-IsForward :
      (m : Look A) (f : A → Look B)
      → IsForward m
      → ((a : A) → IsForward (f a))
      → IsForward (m >>= f)
  >>=-IsForward m f g h = record { later = λ t. go (m t).0 (m t).1 t (g.later t) }
    where
      go : (r : Result A) (s t : ℕ) → t ≤ s → t ≤ (continue r f s).1
      go (ok a) s t le = let le' = (h a).later s in omega arith
      go (raise e) s t le = le

  -- after a look
  pub then-IsForward :
      (r : ℕ → Result A) (f : A → Look B) → ((a : A) → IsForward (f a)) → IsForward (look r >>= f)
  then-IsForward r f h = >>=-IsForward (look r) f (look-IsForward r) h

  -- after a result
  pub lifted-IsForward :
      (r : Result A) (f : A → Look B) → ((a : A) → IsForward (f a)) → IsForward (lift r >>= f)
  lifted-IsForward r f h = >>=-IsForward (lift r) f (lift-IsForward r) h

module _ (w : Sights) where
  pub reading-IsForward : (strict : Bool) (p : Place) → IsForward (reading w strict p)
  unfolding reading
  reading-IsForward strict p = look-IsForward _

  read_private-IsForward : (strict : Bool) (p : Place) → IsForward (read_private w strict p)
  unfolding read_private
  read_private-IsForward strict p = look-IsForward _

  private_at-IsForward : (p : Place) → IsForward (private_at w p)
  unfolding private_at
  private_at-IsForward p = look-IsForward _

  pub lstat_now-IsForward : (p : Place) → IsForward (lstat_now w p)
  unfolding lstat_now
  lstat_now-IsForward p = look-IsForward _

  is_present-IsForward : (p : Place) → IsForward (is_present w p)
  unfolding is_present
  is_present-IsForward p =
      then-IsForward (λ t. ok (w.exists_at t p)) _
        (λ there.
          choice-IsForward there (pure-IsForward true)
            (look-IsForward (λ t. ok (w.is_link_at t p))))

module _ (w : Sights) (canonical : Value → Result (List ℕ)) (sha256 : List ℕ → String)
    (loads_bytes : List ℕ → Result Value) (boot : String) where
  still-IsForward : (j i : List ℕ) → IsForward (still w canonical sha256 loads_bytes boot j i)
  unfolding still
  still-IsForward j i =
      >>=-IsForward (read_private w true journal_db) _ (read_private-IsForward w true journal_db)
        (λ seen.
          choice-IsForward (seen.1 == j)
            (>>=-IsForward (read_private w false ingress) _ (read_private-IsForward w false ingress)
              (λ later. pure-IsForward (later.1 == i)))
            (pure-IsForward false))

  without_journal-IsForward :
      (marked permitted : Bool)
      → IsForward (without_journal w canonical sha256 loads_bytes boot marked permitted)
  unfolding without_journal
  without_journal-IsForward marked permitted =
      >>=-IsForward (lstat_now w root) _ (lstat_now-IsForward w root) (λ _.
        >>=-IsForward (read_private w false ingress) _ (read_private-IsForward w false ingress)
          (λ _. >>=-IsForward (lstat_now w root) _ (lstat_now-IsForward w root) (λ _.
            >>=-IsForward (read_private w false ingress) _ (read_private-IsForward w false ingress)
              (λ _. pure-IsForward _))))

  with_permit-IsForward :
      (ident digest : String) (j i : List ℕ) (v : Value)
      → IsForward (with_permit w canonical sha256 loads_bytes boot ident digest j i v)
  unfolding with_permit
  with_permit-IsForward ident digest j i v = lifted-IsForward (item v "pid") _ (λ pid.
      then-IsForward (λ t. ok (process_identity (w.process_at t) pid)) _
        (λ birth.
          >>=-IsForward (still w canonical sha256 loads_bytes boot j i) _ (still-IsForward j i)
            (λ b. pure-IsForward (b && is_permit ident boot digest birth v))))

  with_pending_recovery-IsForward :
      (j i : List ℕ) (digest : String) (r : OperationRow) (tracked : Tracked)
      → IsForward (with_pending_recovery w canonical sha256 loads_bytes boot j i digest r tracked)
  unfolding with_pending_recovery
  with_pending_recovery-IsForward j i digest r tracked = then-IsForward w.tables_at _ (λ db.
      lifted-IsForward (demand (value_error "") (is_recovery_pending (steps_of r.id db) tracked)) _
        (λ _. lifted-IsForward (evidence_of (steps_of r.id db)) _ (λ evidence.
          then-IsForward w.tables_at _ (λ other.
            lifted-IsForward (row_epoch (select_operation r.id other)) _ (λ source_epoch.
              lifted-IsForward
                (validate_d3_proof canonical sha256 (recovery_of r.id source_epoch r.new_epoch)
                  evidence false)
                _
                (λ _.
                  lifted-IsForward
                    (elim (is_marked verify_pending (steps_of r.id db)) as (λ _. Result Bool) [
                      | true ↦ is_pending_route (route_in evidence) r.new_epoch digest
                      | false ↦ ok true
                    ])
                    _
                    (λ routed. lifted-IsForward (demand (value_error "") routed) _ (λ _.
                      >>=-IsForward (private_at w permit) _ (private_at-IsForward w permit) (λ _.
                        then-IsForward (λ t. bind (w.text_at t permit) loads_bytes) _
                          (λ value.
                            lifted-IsForward (demand (value_error "") (has_keys permit_keys value))
                              _ (λ _. with_permit-IsForward r.id digest j i value)))))))))))

  serving_failure-IsForward :
      (ident : String) (r : Reading)
      → IsForward (serving_failure w canonical sha256 loads_bytes boot ident r)
  unfolding serving_failure
  serving_failure-IsForward ident gone =
      >>=-IsForward (reading w false (failure ident)) _ (reading-IsForward w false (failure ident))
        (λ again. pure-IsForward (failure_of again))
  serving_failure-IsForward ident (failed e) = pure-IsForward _
  serving_failure-IsForward ident (held raw id) = pure-IsForward _

  with_recovery-IsForward :
      (marked permitted : Bool) (j i : List ℕ) (digest : String) (r : OperationRow)
      → IsForward (with_recovery w canonical sha256 loads_bytes boot marked permitted j i digest r)
  unfolding with_recovery
  with_recovery-IsForward marked permitted j i digest r =
      lifted-IsForward (demand (value_error "") (is_operation r.id && marked)) _ (λ _.
        then-IsForward (λ t. bind (w.text_at t maintenance) loads_bytes) _
          (λ text. lifted-IsForward (demand (value_error "") (py_eq text (marker r.id))) _ (λ _.
            >>=-IsForward (reading w false (failure r.id)) _
              (reading-IsForward w false (failure r.id))
              (λ first.
                lifted-IsForward (tracked_of w canonical sha256 loads_bytes boot first) _
                  (λ tracked. then-IsForward w.tables_at _ (λ db.
                    >>=-IsForward (serving_failure w canonical sha256 loads_bytes boot r.id first) _
                      (serving_failure-IsForward r.id first)
                      (λ state.
                        >>=-IsForward
                          (elim (d3_serving_state canonical sha256 loads_bytes db r.id digest state)
                            as (λ _. Look Bool) [
                              | true ↦
                                  (still w canonical sha256 loads_bytes boot j i >>= λ b.
                                  pure (b && not permitted))
                              | false ↦
                                  with_pending_recovery w canonical sha256 loads_bytes boot j i
                                    digest r tracked
                            ])
                          _
                          (choice-IsForward
                            (d3_serving_state canonical sha256 loads_bytes db r.id digest state)
                            (>>=-IsForward (still w canonical sha256 loads_bytes boot j i) _
                              (still-IsForward j i) (λ b. pure-IsForward (b && not permitted)))
                            (with_pending_recovery-IsForward j i digest r tracked))
                          (λ allowed.
                            pure-IsForward
                              (decision_of allowed ((failure r.id, tracked) ∷ []))))))))))

  with_switchover-IsForward :
      (marked : Bool) (j i : List ℕ) (digest : String) (r : OperationRow)
      → IsForward (with_switchover w canonical sha256 loads_bytes boot marked j i digest r)
  unfolding with_switchover
  with_switchover-IsForward marked j i digest r = then-IsForward w.tables_at _ (λ db.
      lifted-IsForward (demand (value_error "") marked) _ (λ _.
        then-IsForward (λ t. bind (w.text_at t maintenance) loads_bytes) _
          (λ text. lifted-IsForward (item text "operation") _ (λ named.
            then-IsForward (λ t. ok (w.exists_at t (failure r.id))) _
              (λ has_failed.
                lifted-IsForward
                  (demand (value_error "")
                    (is_route_intended r.id named has_failed (steps_of r.id db)))
                  _
                  (λ _. >>=-IsForward (private_at w permit) _ (private_at-IsForward w permit) (λ _.
                    then-IsForward (λ t. bind (w.text_at t permit) loads_bytes) _
                      (λ value. with_permit-IsForward r.id digest j i value))))))))

  alone-IsForward :
      (m : Look Bool) → IsForward m → IsForward (alone w canonical sha256 loads_bytes boot m)
  alone-IsForward m f = >>=-IsForward m _ f (λ b. pure-IsForward _)

  with_completed-IsForward :
      (marked permitted : Bool) (j i : List ℕ) (digest : String) (r : OperationRow)
      → IsForward (with_completed w canonical sha256 loads_bytes boot marked permitted j i digest r)
  unfolding with_completed
  with_completed-IsForward marked permitted j i digest r = then-IsForward w.tables_at _ (λ db.
      >>=-IsForward (still w canonical sha256 loads_bytes boot j i) _ (still-IsForward j i) (λ b.
        pure-IsForward (
          b
          && not marked
          && not permitted
          && is_live_route (done_row "route" (steps_of r.id db)) r.target r.new_epoch digest)))

  with_operation-IsForward :
      (marked permitted : Bool) (j i : List ℕ) (digest : String) (kind : Contract)
      (o : Option OperationRow)
      → IsForward
          (with_operation w canonical sha256 loads_bytes boot marked permitted j i digest kind o)
  unfolding with_operation without_operation
  with_operation-IsForward marked permitted j i digest kind none =
      alone-IsForward (without_operation w canonical sha256 loads_bytes boot marked permitted j i) (
        >>=-IsForward (still w canonical sha256 loads_bytes boot j i) _ (still-IsForward j i)
          (λ b. pure-IsForward (b && not marked && not permitted)))
  with_operation-IsForward marked permitted j i digest kind (some r) =
      choice-IsForward r.complete
        (alone-IsForward
          (with_completed w canonical sha256 loads_bytes boot marked permitted j i digest r)
          (with_completed-IsForward marked permitted j i digest r))
        (choice-IsForward (is_acceptance (contract_of kind r))
          (choice-IsForward (r.source == "B" && r.target == "A")
            (with_recovery-IsForward marked permitted j i digest r)
            (alone-IsForward
              (with_switchover w canonical sha256 loads_bytes boot marked j i digest r)
              (with_switchover-IsForward marked j i digest r)))
          (pure-IsForward _))

  check_rows_of-IsForward :
      (kind : Contract) → IsForward (check_rows_of w canonical sha256 loads_bytes boot kind)
  unfolding check_rows_of
  check_rows_of-IsForward legacy = look-IsForward (λ t. bind (w.tables_at t) validate_legacy_rows)
  check_rows_of-IsForward acceptance = pure-IsForward _

  with_journal-IsForward :
      (marked permitted : Bool)
      → IsForward (with_journal w canonical sha256 loads_bytes boot marked permitted)
  unfolding with_journal
  with_journal-IsForward marked permitted =
      >>=-IsForward (read_private w true journal_db) _ (read_private-IsForward w true journal_db)
        (λ j.
          >>=-IsForward (read_private w false ingress) _ (read_private-IsForward w false ingress)
            (λ i. then-IsForward w.mode_at _ (λ mode.
              lifted-IsForward (demand (value_error "") (mode == "delete")) _ (λ _.
                then-IsForward (λ t. bind (w.catalog_at t) journal_schema) _
                  (λ kind.
                    >>=-IsForward (check_rows_of w canonical sha256 loads_bytes boot kind) _
                      (check_rows_of-IsForward kind)
                      (λ _. then-IsForward w.tables_at _ (λ db.
                        with_operation-IsForward marked permitted j.1 i.1 (sha256 i.0) kind
                          (newest db.operations))))))))

  private_if-IsForward : (b : Bool) → IsForward (private_if w canonical sha256 loads_bytes boot b)
  unfolding private_if
  private_if-IsForward true =
      >>=-IsForward (private_at w maintenance) _ (private_at-IsForward w maintenance)
        (λ _. pure-IsForward tt)
  private_if-IsForward false = pure-IsForward tt

  pub ingress_body-IsForward : IsForward (ingress_body w canonical sha256 loads_bytes boot)
  unfolding ingress_body
  ingress_body-IsForward =
      >>=-IsForward (is_present w maintenance) _ (is_present-IsForward w maintenance) (λ marked.
        >>=-IsForward (is_present w permit) _ (is_present-IsForward w permit) (λ permitted.
          >>=-IsForward (private_if w canonical sha256 loads_bytes boot marked) _
            (private_if-IsForward marked)
            (λ _.
              then-IsForward (λ t. ok (w.exists_at t journal_db)) _
                (λ there. choice-IsForward there (with_journal-IsForward marked permitted) (
                  alone-IsForward
                    (without_journal w canonical sha256 loads_bytes boot marked permitted)
                    (without_journal-IsForward marked permitted))))))
