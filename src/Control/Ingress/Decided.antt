-- ===== src/Control/Ingress/Decided.antt =====
-- Each part of `_ingress_allowed_body` that says yes has its reason.
use highly_available_trailba.Prelude.{
  ℕ, suc, Bool, true, false, ◌&&◌, not, ◌≡◌, refl, ap, ◌∙◌, subst, String, List, Option, none, some,
  ◌==◌, nat_eq, string_eq, list_eq, pair_eq, eq_iff, &&-eq-true, Result, ok, value_error, bind,
}
use highly_available_trailba.Exec.{◌>>=◌, pure}
use highly_available_trailba.Py.Value.{Value, py_eq}
use highly_available_trailba.Py.Text.{is_operation}
use highly_available_trailba.Control.Phases.{status_eq}
use highly_available_trailba.Control.Rows.{Contract, OperationRow, Db, is_acceptance}
use highly_available_trailba.Control.Existing.{marker}
use highly_available_trailba.Control.Serving.{Failure, d3_serving_state}
use highly_available_trailba.Control.Serving.Recovered.{d3_serving_state-Serves}
use highly_available_trailba.Control.Ingress.{
  root, journal_db, ingress, maintenance, permit, failure, Sights, Look, stable_private_bytes,
  read_private, lstat_now,
}
use highly_available_trailba.Control.Ingress.Facts.{
  Tracked, Verdict, newest, demand, not_allowed, contract_of,
}
use highly_available_trailba.Control.Ingress.Gate.{
  still, without_journal, without_operation, with_completed, with_switchover, with_pending_recovery,
  with_recovery, tracked_of, serving_failure, alone, with_operation,
}
use highly_available_trailba.Control.Ingress.Looks.{
  after_look, after_lift, after_part, pure-eq-ok, demand-eq-ok, IsAbsent, IsHeld,
}
use highly_available_trailba.Control.Ingress.Reasons.{
  not-true, both_absent, Reason, unjournalled, idle, completed, serving,
}
use highly_available_trailba.Control.Ingress.Pending.{
  with_switchover-Reason, with_pending_recovery-Reason,
}

module _ (w : Sights) (canonical : Value → Result (List ℕ)) (sha256 : List ℕ → String)
    (loads_bytes : List ℕ → Result Value) (boot : String) where
  pub without_journal-Reason :
      (n t : ℕ) (marked permitted : Bool) {u : ℕ}
      → (marked ≡ false → IsAbsent w maintenance)
      → (permitted ≡ false → IsAbsent w permit)
      → w.exists_at n journal_db ≡ false
      → without_journal w canonical sha256 loads_bytes boot marked permitted t ≡ (ok true, u)
      → Reason w canonical sha256 loads_bytes boot
  unfolding without_journal
  without_journal-Reason n t marked permitted m p none_there h =
      after_part (lstat_now w root) _ t h (λ a s1 _ h1.
        after_part (read_private w false ingress) _ s1 h1 (λ b s2 _ h2.
          after_part (lstat_now w root) _ s2 h2 (λ c s3 _ h3.
            after_part (read_private w false ingress) _ s3 h3 (λ d s4 _ h4.
              let (x, y) = both_absent _ marked permitted (pure-eq-ok h4) in
              unjournalled n (m x) (p y) none_there))))

  module _ (n : ℕ) (db : Db) (marked permitted : Bool) (j i raw : List ℕ)
      (m : marked ≡ false → IsAbsent w maintenance) (p : permitted ≡ false → IsAbsent w permit)
      (read : IsHeld w false ingress raw) (tables : w.tables_at n ≡ ok db) where
    without_operation-Reason :
        (t : ℕ) {u : ℕ}
        → newest db.operations ≡ none
        → without_operation w canonical sha256 loads_bytes boot marked permitted j i t
          ≡ (ok true, u)
        → Reason w canonical sha256 loads_bytes boot
    unfolding without_operation
    without_operation-Reason t e h =
        after_part (still w canonical sha256 loads_bytes boot j i) _ t h (λ b s _ h1.
          let (x, y) = both_absent b marked permitted (pure-eq-ok h1) in
          idle n db (m x) (p y) tables e)

    with_completed-Reason :
        (r : OperationRow) (t : ℕ) {u : ℕ}
        → newest db.operations ≡ some r
        → r.complete ≡ true
        → with_completed w canonical sha256 loads_bytes boot marked permitted j i (sha256 raw) r t
          ≡ (ok true, u)
        → Reason w canonical sha256 loads_bytes boot
    unfolding with_completed
    with_completed-Reason r t e c h = after_look w.tables_at _ t h (λ db' a h1.
        after_part (still w canonical sha256 loads_bytes boot j i) _ (suc t) h1 (λ b s _ h2.
          let (x, live) = &&-eq-true (b && not marked && not permitted) _ (pure-eq-ok h2) in
          let (y, z) = both_absent b marked permitted x in
          completed n t db db' r raw (m y) (p z) read tables e c a live))

    with_recovery-Reason :
        (r : OperationRow) (t : ℕ) {v : Verdict} {u : ℕ}
        → newest db.operations ≡ some r
        → r.complete ≡ false
        → r.source ≡ "B"
        → r.target ≡ "A"
        → with_recovery w canonical sha256 loads_bytes boot marked permitted j i (sha256 raw) r t
          ≡ (ok v, u)
        → v.allowed ≡ true
        → Reason w canonical sha256 loads_bytes boot
    unfolding with_recovery
    with_recovery-Reason r t {v} e c from to h is_yes =
        after_lift (demand (value_error "") (is_operation r.id && marked)) _ t h (λ _ _ h1.
          after_look (λ q. bind (w.text_at q maintenance) loads_bytes) _ t h1
            (λ text a h2.
              after_lift (demand (value_error "") (py_eq text (marker r.id))) _ (suc t) h2
                (λ _ same h3.
                  let first =
                    stable_private_bytes w.euid false (w.open_at (suc t) (failure r.id)) in
                  let s1 = suc (suc t) in
                  after_lift (tracked_of w canonical sha256 loads_bytes boot first) _ s1 h3
                    (λ tracked _ h5. after_look w.tables_at _ s1 h5 (λ db' d h6.
                      after_part (serving_failure w canonical sha256 loads_bytes boot r.id first) _
                        (suc s1) h6
                        (λ state s2 _ h7.
                          let here =
                            d3_serving_state canonical sha256 loads_bytes db' r.id (sha256 raw)
                              state in
                          after_part (either_way r tracked here) _ s2 h7 (λ allowed s3 k h8.
                            let met = demand-eq-ok _ _ same in
                            let is_true =
                              ap (λ (x : Verdict). x.allowed) (pure-eq-ok h8) ∙ is_yes in
                            decide text met a tracked d state here refl s2 s3 (
                              subst (λ x. either_way r tracked here s2 ≡ (ok x, s3)) is_true
                                k))))))))
      where
        either_way : OperationRow → Tracked → Bool → Look Bool
        either_way r tracked b = elim b [
          | true ↦
              (still w canonical sha256 loads_bytes boot j i >>= λ b. pure (b && not permitted))
          | false ↦
              with_pending_recovery w canonical sha256 loads_bytes boot j i (sha256 raw) r tracked
        ]

        decide :
            (text : Value)
            → py_eq text (marker r.id) ≡ true
            → bind (w.text_at t maintenance) loads_bytes ≡ ok text
            → (tracked : Tracked) {q : ℕ} {db' : Db} → w.tables_at q ≡ ok db'
            → (state : Failure) (b : Bool)
            → d3_serving_state canonical sha256 loads_bytes db' r.id (sha256 raw) state ≡ b
            → (s s' : ℕ) → either_way r tracked b s ≡ (ok true, s')
            → Reason w canonical sha256 loads_bytes boot
        decide text same a tracked {q} {db'} d state true g s s' k =
            after_part (still w canonical sha256 loads_bytes boot j i) _ s k (λ b s1 _ k1.
              let (_, z) = &&-eq-true b (not permitted) (pure-eq-ok k1) in
              serving n q t db db' r raw text state (p (not-true permitted z)) read tables e a same
                d
                (d3_serving_state-Serves canonical sha256 loads_bytes db' r.id (sha256 raw) state
                  g))
        decide text same a tracked d state false g s s' k =
            with_pending_recovery-Reason w canonical sha256 loads_bytes boot n db marked j i raw
              read tables r tracked text t s e c from to a same k

    alone-allowed :
        (x : Look Bool) (t : ℕ) {v : Verdict} {u : ℕ}
        → alone w canonical sha256 loads_bytes boot x t ≡ (ok v, u)
        → v.allowed ≡ true
        → (s : ℕ) × (x t ≡ (ok true, s))
    alone-allowed x t {v} h is_yes = after_part x _ t h (λ b s k h1. (
      s,
      subst (λ a. x t ≡ (ok a, s)) (ap (λ (y : Verdict). y.allowed) (pure-eq-ok h1) ∙ is_yes) k,
    ))

    pub with_operation-Reason :
        (kind : Contract) (o : Option OperationRow) (t : ℕ) {v : Verdict} {u : ℕ}
        → newest db.operations ≡ o
        → with_operation w canonical sha256 loads_bytes boot marked permitted j i
            (sha256 raw)
            kind
            o
            t
          ≡ (ok v, u)
        → v.allowed ≡ true
        → Reason w canonical sha256 loads_bytes boot
    unfolding with_operation
    with_operation-Reason kind none t e h is_yes =
        let (s, k) =
          alone-allowed (without_operation w canonical sha256 loads_bytes boot marked permitted j i)
            t h is_yes in
        without_operation-Reason t e k
    with_operation-Reason kind (some r) t {v} {u} e h is_yes = done_or_not r.complete refl h
      where
        unfinished : Bool → Look Verdict
        unfinished b = elim b [
          | true ↦
              with_recovery w canonical sha256 loads_bytes boot marked permitted j i (sha256 raw) r
          | false ↦
              alone w canonical sha256 loads_bytes boot
                (with_switchover w canonical sha256 loads_bytes boot marked j i (sha256 raw) r)
        ]

        by_accepted : Bool → Look Verdict
        by_accepted b = elim b [
          | false ↦ pure not_allowed
          | true ↦ unfinished (r.source == "B" && r.target == "A")
        ]

        recovers :
            (b : Bool)
            → (r.source == "B" && r.target == "A") ≡ b
            → r.complete ≡ false
            → unfinished b t ≡ (ok v, u)
            → Reason w canonical sha256 loads_bytes boot
        recovers true g c h =
            let (from, to) = &&-eq-true (r.source == "B") (r.target == "A") g in
            with_recovery-Reason r t e c ((eq_iff r.source "B").0 from) ((eq_iff r.target "A").0 to)
              h is_yes
        recovers false g c h =
            let (s, k) =
              alone-allowed
                (with_switchover w canonical sha256 loads_bytes boot marked j i (sha256 raw) r) t h
                is_yes in
            with_switchover-Reason w canonical sha256 loads_bytes boot n db marked j i raw read
              tables r t e c k

        accepted :
            (b : Bool)
            → r.complete ≡ false
            → by_accepted b t ≡ (ok v, u)
            → Reason w canonical sha256 loads_bytes boot
        accepted true c h = recovers (r.source == "B" && r.target == "A") refl c h
        accepted false c h = let bad = ap (λ (y : Verdict). y.allowed) (pure-eq-ok h) ∙ is_yes in cc

        done_or_not :
            (b : Bool)
            → r.complete ≡ b
            → (elim b as (λ _. Look Verdict) [
              | true ↦ alone w canonical sha256 loads_bytes boot (
                  with_completed w canonical sha256 loads_bytes boot marked permitted j i
                    (sha256 raw)
                    r)
              | false ↦ by_accepted (is_acceptance (contract_of kind r))
            ])
                t
              ≡ (ok v, u)
            → Reason w canonical sha256 loads_bytes boot
        done_or_not true c h =
            let (s, k) =
              alone-allowed
                (with_completed w canonical sha256 loads_bytes boot marked permitted j i
                  (sha256 raw) r)
                t h is_yes in
            with_completed-Reason r t e c k
        done_or_not false c h = accepted (is_acceptance (contract_of kind r)) c h
