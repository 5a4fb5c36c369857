-- ===== src/Control/Existing/Closed.antt =====
-- What a controller that starts leaves of the ingress.
use highly_available_trailba.Prelude.{
  ℕ, suc, ◌≡◌, ◌⊎◌, refl, ◌∙◌, sym, ap, subst, Bool, true, false, not, String, List, Option, none,
  some, Exc, Result, ok, raise, bind, bind-eq-ok, or_raise, runtime_error, ok-injective, Bool-cases,
  inl, inr, ◌==◌, string_eq, eq_iff, &&-eq-true, not-eq-false,
}
use highly_available_trailba.Exec.{
  Exec, ◌>>=◌, ◌>>◌, lift, pure, throw, throw_if, continue, >>=-eq-ok, lift-eq-ok, throw_if-eq-ok,
}
use highly_available_trailba.Py.Value.{Value}
use highly_available_trailba.Control.Rows.{is_acceptance, OperationRow, StepRow, loads, steps_of}
use highly_available_trailba.Control.Files.{Stat}
use highly_available_trailba.Control.State.{authority_of}
use highly_available_trailba.Control.Serving.{
  exact_route, last_complete, done_row, d3_serving_state,
}
use highly_available_trailba.Control.Serving.Writer.{
  IsLast, last_complete-IsLast, RoutesTo, exact_route-RoutesTo,
}
use highly_available_trailba.Control.Serving.Recovered.{Serves, d3_serving_state-Serves}
use highly_available_trailba.Control.Existing.{
  Site, Maintenance, marker, unfinished_row, belongs, write_marker, stop_ingress, finally,
  mark_maintenance, preserved, ingress_closed, unlink, clear_maintenance, route_text, is_route_of,
  is_safe, safe, reconcile_unfinished, reconcile_completed, reconcile_last, reconcile_existing,
}

-- The ingress was told to stop, once, and a maintenance file stands unless it could not be written.
pub record IsClosed (s t : Site) : Type 0 where
  pub stopped : t.stopped ≡ suc s.stopped
  pub marked : ((e : Exc) × (s.written ≡ raise e)) ⊎ ((m : Maintenance) × (t.maintenance ≡ some m))

-- what writing the maintenance file leaves
record IsMarked (s t : Site) : Type 0 where
  pub stopped : t.stopped ≡ s.stopped
  pub marked : ((e : Exc) × (s.written ≡ raise e)) ⊎ ((m : Maintenance) × (t.maintenance ≡ some m))

write_marker-IsMarked : (ident : String) (s : Site) → IsMarked s (write_marker ident s).1
unfolding write_marker
write_marker-IsMarked ident s = go s.written refl
  where
    go :
        (w : Result Stat)
        → s.written ≡ w
        → IsMarked s
            (elim w as (λ _. Result (Unit {0}) × Site) [
              | raise e ↦ (raise e, s)
              | ok stat ↦ (
                ok tt,
                record s {
                  maintenance = some (record { stat = stat; content = ok (marker ident) });
                },
              )
            ]).1
    go (raise e) h = record { stopped = refl; marked = inl (e, h) }
    go (ok stat) h = record { stopped = refl; marked = inr (_, refl) }

mark_maintenance-IsMarked : (ident : String) (s : Site) → IsMarked s (mark_maintenance ident s).1
unfolding mark_maintenance
mark_maintenance-IsMarked ident s = go s.maintenance refl
  where
    go :
        (m : Option Maintenance)
        → s.maintenance ≡ m
        → IsMarked s
            (elim m as (λ _. Result (Unit {0}) × Site) [
              | some m ↦ (ok tt, s)
              | none ↦ write_marker ident s
            ]).1
    go none h = write_marker-IsMarked ident s
    go (some m) h = record { stopped = refl; marked = inr (m, h) }

finally-state : (m n : Exec Site (Unit {0})) (s : Site) → (finally m n s).1 ≡ (n (m s).1).1
unfolding finally
finally-state m n s = go (n (m s).1).0 (n (m s).1).1 (m s).0
  where
    go :
        (q : Result (Unit {0})) (t : Site) (r : Result (Unit {0}))
        → (elim q as (λ _. Result (Unit {0}) × Site) [ raise e ↦ (raise e, t) | ok u ↦ (r, t) ]).1
          ≡ t
    go (raise e) t r = refl
    go (ok u) t r = refl

marking-IsClosed :
    (ident : String) (s : Site) → IsClosed s (finally (mark_maintenance ident) stop_ingress s).1
unfolding stop_ingress
marking-IsClosed ident s =
    let a = mark_maintenance-IsMarked ident s in
    subst (λ t. IsClosed s t) (sym (finally-state (mark_maintenance ident) stop_ingress s))
      (record { stopped = ap suc a.stopped; marked = a.marked })

module _ (canonical : Value → Result (List ℕ)) (sha256 : List ℕ → String)
    (loads_bytes : List ℕ → Result Value) where
  -- A recovery that is left as it is served: by the digest of the ingress file, and under its own maintenance.
  pub record IsPreserved (s t : Site) (row : OperationRow) : Type 0 where
    pub raw : List ℕ
    pub marked : Maintenance
    pub same : t ≡ s
    pub of_acceptance : is_acceptance row.restore_contract ≡ true
    pub stands : s.maintenance ≡ some marked
    pub mine : belongs s.journal.disk.euid row.id marked ≡ ok true
    pub read : s.ingress ≡ ok raw
    pub serves : Serves canonical sha256 loads_bytes s.journal.db row.id (sha256 raw) s.failure

  is_safe_lem :
      (s : Site) (row : OperationRow) (m : Maintenance)
      → is_safe canonical sha256 loads_bytes s row m ≡ ok true
      → (belongs s.journal.disk.euid row.id m ≡ ok true)
        × (raw : List ℕ) × (s.ingress ≡ ok raw)
        × (d3_serving_state canonical sha256 loads_bytes s.journal.db row.id (sha256 raw) s.failure
            ≡ true)
  unfolding is_safe
  is_safe_lem s row m h =
      let served = λ (raw : List ℕ).
        d3_serving_state canonical sha256 loads_bytes s.journal.db row.id (sha256 raw) s.failure in
      let (mine, a, h1) =
        bind-eq-ok (belongs s.journal.disk.euid row.id m)
          (λ mine. elim mine as (λ _. Result Bool) [
            | false ↦ ok false
            | true ↦ bind s.ingress (λ raw. ok (served raw))
          ])
          h in
      let (is_mine, h1') = mine_lem mine h1 in
      let (raw, b, h2) = bind-eq-ok s.ingress (λ raw. ok (served raw)) h1' in
      (a ∙ ap ok is_mine, raw, b, ok-injective h2)
    where
      mine_lem :
          (mine : Bool) {r : Result Bool}
          → elim mine as (λ _. Result Bool) [ false ↦ ok false | true ↦ r ] ≡ ok true
          → (mine ≡ true) × (r ≡ ok true)
      mine_lem true h = (refl, h)
      mine_lem false h = cc

  safe_lem :
      (s : Site) (row : OperationRow)
      → safe canonical sha256 loads_bytes s row ≡ true
      → (is_acceptance row.restore_contract ≡ true)
        × (m : Maintenance) × (s.maintenance ≡ some m)
        × (is_safe canonical sha256 loads_bytes s row m ≡ ok true)
  unfolding safe
  safe_lem s row h =
      let (a, b) = &&-eq-true (is_acceptance row.restore_contract) _ h in
      let (m, c, d) = go s.maintenance b in (a, m, c, d)
    where
      holds_true :
          (r : Result Bool)
          → elim r as (λ _. Bool) [ ok b ↦ b | raise e ↦ false ] ≡ true
          → r ≡ ok true
      holds_true (ok b) h = ap ok h
      holds_true (raise e) h = cc

      go :
          (o : Option Maintenance)
          → elim o as (λ _. Bool) [
            | none ↦ false
            | some m ↦ elim (is_safe canonical sha256 loads_bytes s row m) [
              | ok b ↦ b
              | raise e ↦ false
            ]
          ]
            ≡ true
          → (m : Maintenance) × (o ≡ some m)
            × (is_safe canonical sha256 loads_bytes s row m ≡ ok true)
      go none h = cc
      go (some m) h = (m, refl, holds_true (is_safe canonical sha256 loads_bytes s row m) h)

  -- how the reconciliation of an unfinished operation ends
  pub record Refuses (s : Site) (row : OperationRow) (r : Result Bool × Site) : Type 0 where
    pub reason : Exc
    pub raised : r.0 ≡ raise reason
    pub left : IsPreserved s r.1 row ⊎ IsClosed s r.1

  reconcile_unfinished-Refuses :
      (s : Site) (row : OperationRow)
      → Refuses s row (reconcile_unfinished canonical sha256 loads_bytes row s)
  unfolding reconcile_unfinished
  reconcile_unfinished-Refuses s row = elim (Bool-cases (safe canonical sha256 loads_bytes s row)) [
    | inl t ↦
        let (of_acceptance, m, stands, is_safe) = safe_lem s row t in
        let (mine, raw, read, serving) = is_safe_lem s row m is_safe in
        rw (t) record {
          reason = preserved;
          raised = refl;
          left = inl (record {
            raw = raw;
            marked = m;
            same = refl;
            of_acceptance = of_acceptance;
            stands = stands;
            mine = mine;
            read = read;
            serves =
                d3_serving_state-Serves canonical sha256 loads_bytes s.journal.db row.id
                  (sha256 raw) s.failure serving;
          });
        }
    | inr f ↦
        rw (f) (
          then_closed (finally (mark_maintenance row.id) stop_ingress s)
            (marking-IsClosed row.id s))
  ]
    where
      then_closed :
          (q : Result (Unit {0}) × Site)
          → IsClosed s q.1
          → Refuses s row (continue q.0 (λ _. throw ingress_closed) q.1)
      then_closed (ok u, t) c = record { reason = ingress_closed; raised = refl; left = inr c }
      then_closed (raise e, t) c = record { reason = e; raised = refl; left = inr c }

  -- A completed operation whose route is live: B writes, and no maintenance file is left.
  pub record IsLive (s t : Site) : Type 0 where
    pub row : OperationRow
    pub raw : List ℕ
    pub route_row : StepRow
    pub route : Value
    pub last : IsLast s.journal.db.operations row
    pub to_b : row.target ≡ "B"
    pub read : s.ingress ≡ ok raw
    pub listed : done_row "route" (steps_of row.id s.journal.db) ≡ some route_row
    pub loaded : loads route_row.evidence ≡ ok route
    pub exact : RoutesTo route row.target row.new_epoch (sha256 raw)
    pub cleared : t.maintenance ≡ none

  clear_maintenance_lem :
      (ident : String) (s : Site) {t : Site} {u : Unit {0}}
      → clear_maintenance ident s ≡ (ok u, t)
      → t.maintenance ≡ none
  unfolding clear_maintenance unlink
  clear_maintenance_lem ident s {t} {u} h = go s.maintenance refl h
    where
      unlinked :
          (r : Result (Unit {0}))
          → (elim r as (λ _. Result (Unit {0}) × Site) [
            | raise e ↦ (raise e, s)
            | ok u ↦ (s.synced, record s { maintenance = none })
          ])
            ≡ (ok u, t)
          → t.maintenance ≡ none
      unlinked (raise e) h = let e' = ap (λ (p : Result (Unit {0}) × Site). p.0) h in cc
      unlinked (ok u) h = ap (λ (p : Result (Unit {0}) × Site). p.1.maintenance) (sym h)

      go :
          (o : Option Maintenance)
          → s.maintenance ≡ o
          → elim o as (λ _. Result (Unit {0}) × Site) [
            | none ↦ (ok tt, s)
            | some m ↦
                (lift (belongs s.journal.disk.euid ident m) >>= λ b.
                throw_if (not b) (runtime_error "maintenance belongs to another operation")
                >> unlink)
                  s
          ]
            ≡ (ok u, t)
          → t.maintenance ≡ none
      go none e h = ap (λ (p : Result (Unit {0}) × Site). p.1.maintenance) (sym h) ∙ e
      go (some m) e h =
          let other = runtime_error "maintenance belongs to another operation" in
          let (b, _, h1) =
            lift-eq-ok (belongs s.journal.disk.euid ident m) (λ b. throw_if (not b) other >> unlink)
              s h in
          let (_, h2) = throw_if-eq-ok (not b) other unlink s h1 in unlinked s.removed h2

  route_text_lem :
      (o : Option StepRow) {v : Value}
      → route_text o ≡ ok (some v)
      → (r : StepRow) × (o ≡ some r) × (loads r.evidence ≡ ok v)
  unfolding route_text
  route_text_lem none h = cc
  route_text_lem (some r) {v} h = (r, refl, go (loads r.evidence) h)
    where
      go :
          (q : Result Value)
          → or_raise
              (bind q (λ w. ok (some w)))
              (runtime_error "completed route differs; reconciliation refused")
            ≡ ok (some v)
          → q ≡ ok v
      go (ok w) h = cc
      go (raise e) h = cc

  route_of_lem :
      (o : Option Value) (row : OperationRow) (digest : String)
      → is_route_of o row digest ≡ true
      → (v : Value) × (o ≡ some v) × (row.target ≡ "B") × RoutesTo v row.target row.new_epoch digest
  unfolding is_route_of
  route_of_lem none row digest h = cc
  route_of_lem (some v) row digest h =
      let (a, b) =
        &&-eq-true (row.target == "B") (exact_route v row.target row.new_epoch digest) h in
      (
        v,
        refl,
        (eq_iff row.target "B").0 a,
        exact_route-RoutesTo v row.target row.new_epoch digest b,
      )

  reconcile_completed-IsLive :
      (s : Site) (row : OperationRow) {t : Site} {b : Bool}
      → last_complete s.journal.db.operations ≡ some row
      → reconcile_completed canonical sha256 loads_bytes row s ≡ (ok b, t)
      → (b ≡ true) × IsLive s t
  unfolding reconcile_completed
  reconcile_completed-IsLive s row {t} {b} found h =
      let refused = runtime_error "completed route differs; reconciliation refused" in
      let steps = steps_of row.id s.journal.db in
      let cleared : Exec Site Bool = clear_maintenance row.id >> pure true in
      let judged = λ (raw : List ℕ) (route : Option Value).
        throw_if (not (is_route_of route row (sha256 raw))) refused >> cleared in
      let routed = λ (raw : List ℕ). lift (route_text (done_row "route" steps)) >>= judged raw in
      let (raw, a, h1) = lift-eq-ok s.ingress routed s h in
      let (route, c, h2) = lift-eq-ok (route_text (done_row "route" steps)) (judged raw) s h1 in
      let (d, h3) =
        throw_if-eq-ok (not (is_route_of route row (sha256 raw))) refused cleared s h2 in
      let (u, v, e, h4) = >>=-eq-ok (clear_maintenance row.id) (λ _. pure true) s h3 in
      let (value, is_value, to_b, exact) = route_of_lem route row (sha256 raw) (not-eq-false _ d) in
      let (route_row, listed, loaded) =
        route_text_lem (done_row "route" steps) (c ∙ ap ok is_value) in
      (
        sym (ok-injective (ap (λ (p : Result Bool × Site). p.0) h4)),
        record {
          row = row;
          raw = raw;
          route_row = route_row;
          route = value;
          last = last_complete-IsLast s.journal.db.operations found;
          to_b = to_b;
          read = a;
          listed = listed;
          loaded = loaded;
          exact = exact;
          cleared =
              subst (λ x. x.maintenance ≡ none) (ap (λ (p : Result Bool × Site). p.1) h4)
                (clear_maintenance_lem row.id s e);
        },
      )

  -- what a controller that starts may go on from
  pub record Settled (s t : Site) (b : Bool) : Type 0 where
    pub held : authority_of s.journal.journal s.journal.disk ≡ ok tt
    pub none_unfinished : unfinished_row s.journal.db ≡ none
    pub outcome :
        ((b ≡ true) × IsLive s t)
        ⊎ ((b ≡ false) × (last_complete s.journal.db.operations ≡ none) × (t ≡ s))

  -- When `reconcile_existing` returns, no operation is unfinished. It returns True of a last completed operation whose
  -- target is B and whose recorded route names B, its new epoch and the digest of the ingress file as it
  -- is read, and has then removed the maintenance file; it returns False only when no operation is
  -- complete, and has then changed nothing.
  pub reconcile_existing-Settled :
      (s : Site) {t : Site} {b : Bool}
      → reconcile_existing canonical sha256 loads_bytes s ≡ (ok b, t)
      → Settled s t b
  unfolding reconcile_existing reconcile_last
  reconcile_existing-Settled s {t} {b} h =
      let rest =
        reconcile_last canonical sha256 loads_bytes (unfinished_row s.journal.db)
          (last_complete s.journal.db.operations) in
      let (_, held, h1) =
        lift-eq-ok (authority_of s.journal.journal s.journal.disk) (λ _. rest) s h in
      let (none_unfinished, outcome) =
        go (unfinished_row s.journal.db) (last_complete s.journal.db.operations) refl h1 in
      record { held = held; none_unfinished = none_unfinished; outcome = outcome }
    where
      never :
          (row : OperationRow) {A : Type 0}
          → reconcile_unfinished canonical sha256 loads_bytes row s ≡ (ok b, t)
          → A
      never row h =
          let r = reconcile_unfinished-Refuses s row in
          let e = sym (ap (λ (p : Result Bool × Site). p.0) h) ∙ r.raised in cc

      go :
          (o c : Option OperationRow)
          → last_complete s.journal.db.operations ≡ c
          → reconcile_last canonical sha256 loads_bytes o c s ≡ (ok b, t)
          → (o ≡ none) × (((b ≡ true) × IsLive s t) ⊎ ((b ≡ false) × (c ≡ none) × (t ≡ s)))
      go (some row) c e h = never row h
      go none (some row) e h = (refl, inl (reconcile_completed-IsLive s row e h))
      go none none e h = (
        refl,
        inr (
          sym (ok-injective (ap (λ (p : Result Bool × Site). p.0) h)),
          refl,
          sym (ap (λ (p : Result Bool × Site). p.1) h),
        ),
      )
