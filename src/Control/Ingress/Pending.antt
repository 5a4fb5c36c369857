-- ===== src/Control/Ingress/Pending.antt =====
-- The parts of `_ingress_allowed_body` that ask for a permit have their reason.
use highly_available_trailba.Prelude.{
  ℕ, suc, Bool, true, false, ◌≡◌, inl, inr, ap, ◌∙◌, String, List, some, nat_eq, string_eq, list_eq,
  pair_eq, Result, ok, value_error, bind,
}
use highly_available_trailba.Py.Value.{Value, has_keys, item, py_eq}
use highly_available_trailba.Control.Phases.{status_eq}
use highly_available_trailba.Control.Rows.{OperationRow, Db, select_operation, steps_of}
use highly_available_trailba.Control.Journal.{evidence_of}
use highly_available_trailba.Control.Proof.{validate_d3_proof}
use highly_available_trailba.Control.Existing.{marker}
use highly_available_trailba.Control.Ingress.{
  ingress, maintenance, permit, failure, Sights, private_at,
}
use highly_available_trailba.Control.Ingress.Facts.{
  Tracked, newest, demand, is_marked, verify_pending, recovery_of, row_epoch, is_pending_route,
  route_in, permit_keys, is_route_intended, is_recovery_pending,
}
use highly_available_trailba.Control.Ingress.Gate.{with_switchover, with_pending_recovery}
use highly_available_trailba.Control.Ingress.Looks.{
  after_look, after_lift, after_part, demand-eq-ok, IsHeld,
}
use highly_available_trailba.Control.Ingress.Reasons.{
  is_route_intended_lem, is_recovery_pending_lem, with_permit-IsPermitted, Reason, pending,
}

module _ (w : Sights) (canonical : Value → Result (List ℕ)) (sha256 : List ℕ → String)
    (loads_bytes : List ℕ → Result Value) (boot : String) where
  module _ (n : ℕ) (db : Db) (marked : Bool) (j i raw : List ℕ) (read : IsHeld w false ingress raw)
      (tables : w.tables_at n ≡ ok db) where
    pub with_switchover-Reason :
        (r : OperationRow) (t : ℕ) {u : ℕ}
        → newest db.operations ≡ some r
        → r.complete ≡ false
        → with_switchover w canonical sha256 loads_bytes boot marked j i (sha256 raw) r t
          ≡ (ok true, u)
        → Reason w canonical sha256 loads_bytes boot
    unfolding with_switchover
    with_switchover-Reason r t e c h = after_look w.tables_at _ t h (λ db' d h1.
        after_lift (demand (value_error "") marked) _ (suc t) h1 (λ _ _ h2.
          after_look (λ q. bind (w.text_at q maintenance) loads_bytes) _ (suc t) h2
            (λ text a h3. after_lift (item text "operation") _ (suc (suc t)) h3 (λ named b h4.
              after_lift
                (demand (value_error "") (
                  is_route_intended r.id named (w.exists_at (suc (suc t)) (failure r.id))
                    (steps_of r.id db')))
                _ (suc (suc (suc t))) h4
                (λ _ f h5. after_part (private_at w permit) _ (suc (suc (suc t))) h5 (λ _ s _ h6.
                  after_look (λ q. bind (w.text_at q permit) loads_bytes) _ s h6
                    (λ value l h7.
                      let (named_here, at, plain) =
                        is_route_intended_lem r.id named _ (steps_of r.id db')
                          (demand-eq-ok _ _ f) in
                      pending n t (suc t) db db' r raw text read tables e c a
                        (inr (b ∙ ap ok (named_here))) d (inr at) plain
                        (with_permit-IsPermitted w canonical sha256 loads_bytes boot r.id
                          (sha256 raw) j i value s (suc s) l h7))))))))

    pub with_pending_recovery-Reason :
        (r : OperationRow) (tracked : Tracked) (text : Value) (q t : ℕ) {u : ℕ}
        → newest db.operations ≡ some r
        → r.complete ≡ false
        → r.source ≡ "B"
        → r.target ≡ "A"
        → bind (w.text_at q maintenance) loads_bytes ≡ ok text
        → py_eq text (marker r.id) ≡ true
        → with_pending_recovery w canonical sha256 loads_bytes boot j i (sha256 raw) r tracked t
          ≡ (ok true, u)
        → Reason w canonical sha256 loads_bytes boot
    unfolding with_pending_recovery
    with_pending_recovery-Reason r tracked text q t e c from to a same h =
        after_look w.tables_at _ t h (λ db' d h1.
          let steps = steps_of r.id db' in
          after_lift (demand (value_error "") (is_recovery_pending steps tracked)) _ (suc t) h1
            (λ _ f h2. after_lift (evidence_of steps) _ (suc t) h2 (λ evidence b h3.
              after_look w.tables_at _ (suc t) h3 (λ other _ h4.
                after_lift (row_epoch (select_operation r.id other)) _ (suc (suc t)) h4
                  (λ epoch _ h5.
                    after_lift
                      (validate_d3_proof canonical sha256 (recovery_of r.id epoch r.new_epoch)
                        evidence false)
                      _ (suc (suc t)) h5
                      (λ _ proof h6.
                        after_lift
                          (elim (is_marked verify_pending steps) [
                            | true ↦ is_pending_route (route_in evidence) r.new_epoch (sha256 raw)
                            | false ↦ ok true
                          ])
                          _ (suc (suc t)) h6
                          (λ routed _ h7.
                            after_lift (demand (value_error "") routed) _ (suc (suc t)) h7
                              (λ _ _ h8.
                                after_part (private_at w permit) _ (suc (suc t)) h8 (λ _ s _ h9.
                                  after_look (λ q. bind (w.text_at q permit) loads_bytes) _ s h9
                                    (λ value l h10.
                                      after_lift
                                        (demand (value_error "") (has_keys permit_keys value)) _
                                        (suc s) h10
                                        (λ _ _ h11.
                                          let (at, plain, _) =
                                            is_recovery_pending_lem steps tracked
                                              (demand-eq-ok _ _ f) in
                                          pending n t q db db' r raw text read tables e c a
                                            (inl same) d
                                            (inl (from, to, at, (epoch, evidence, b, proof))) plain
                                            (with_permit-IsPermitted w canonical sha256 loads_bytes
                                              boot r.id (sha256 raw) j i value s (suc s) l
                                              h11))))))))))))
