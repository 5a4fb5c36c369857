-- ===== src/Transition/Dispatch/Once.antt =====
-- That an action of an operation runs at most once, with its intent on disk before.
use highly_available_trailba.Prelude.{
  ◌≡◌, refl, ap, subst, ◌⊎◌, inl, inr, Bool, true, false, List, [], ◌∷◌, none, some, ◌==◌,
  string_eq, pair_eq, beq_refl, Result, ok, raise, Exc, Bool-cases, Option-cases, Result-cases,
  os_error, runtime_error, arith,
}
use highly_available_trailba.Py.Value.{Value}
use highly_available_trailba.Transition.Requests.{Request, validate_request}
use highly_available_trailba.Transition.Dispatch.{
  Record, intent, done, Key, key_of, Node, Surroundings, record_of, is_reading, write_record,
  unless_recorded, settle, run_action, mutate, perform, locked, dispatch,
}

record_of_self :
    (k : Key) (r : Record) (rs : List (Key × Record)) → record_of k ((k, r) ∷ rs) ≡ some r
unfolding record_of
record_of_self k r rs = rw (beq_refl {A = Key} k) refl

module _ {W : Type 0} where
  -- a write stores the record, or changes no record
  write_record-cases :
      (k : Key) (r : Record) (n : Node W)
      → ((x : Exc) × (c : List Bool) × (write_record k r n ≡ (raise x, record n { writes = c })))
        ⊎ ((c : List Bool) × (write_record k r n
              ≡ (ok tt, record n { records = (k, r) ∷ n.records; writes = c })))
  unfolding write_record
  write_record-cases k r n = go n.writes refl
    where
      go :
          (l : List Bool)
          → n.writes ≡ l
          → ((x : Exc) × (c : List Bool) × (write_record k r n
                ≡ (raise x, record n { writes = c })))
            ⊎ ((c : List Bool) × (write_record k r n
                  ≡ (ok tt, record n { records = (k, r) ∷ n.records; writes = c })))
      go [] e = inr ([], ground arith)
      go (true ∷ rest) e = inr (rest, ground arith)
      go (false ∷ rest) e = inl (os_error "write failed", rest, ground arith)

  module _ (s : Surroundings W) (execute : Request → W → Result Value × W) where
    -- How a change of the node ends.
    pub data Ended (r : Request) (n : Node W) : Result Value × Node W → Type 0 where
      -- the intent could not be written, and nothing ran
      not_written : {x : Exc} {c : List Bool} → Ended r n (raise x, record n { writes = c })
      -- the action ran once, and the record is the intent still
      interrupted :
          {x : Exc} {c : List Bool}
          → Ended r n (
            raise x,
            record n {
              records = (key_of r, intent) ∷ n.records;
              writes = c;
              outside = (execute r n.outside).1;
            },
          )
      -- the action ran once, and the record has its result
      completed :
          {v : Value} {c : List Bool}
          → (execute r n.outside).0 ≡ ok v
          → Ended r n (
            ok v,
            record n {
              records = (key_of r, done v) ∷ (key_of r, intent) ∷ n.records;
              writes = c;
              outside = (execute r n.outside).1;
            },
          )

    settle-Ended :
        (r : Request) (n : Node W) (c : List Bool) (e : Result Value × W)
        → execute r n.outside ≡ e
        → Ended r n (
            settle s execute r e
              (record n { records = (key_of r, intent) ∷ n.records; writes = c }))
    unfolding settle
    settle-Ended r n c (raise x, w) q =
        subst
          (λ (v : W). Ended r n (
            raise x,
            record n { records = (key_of r, intent) ∷ n.records; writes = c; outside = v },
          ))
          (ap (λ (p : Result Value × W). p.1) q) interrupted
    settle-Ended r n c (ok v, w) q =
        elim (write_record-cases (key_of r) (done v)
          (record n { records = (key_of r, intent) ∷ n.records; writes = c; outside = w })) [
            | inl (x, d, e) ↦
                rw (settle, e)
                  (subst
                    (λ (u : W). Ended r n (
                      raise x,
                      record n {
                        records = (key_of r, intent) ∷ n.records;
                        writes = d;
                        outside = u;
                      },
                    ))
                    (ap (λ (p : Result Value × W). p.1) q) interrupted)
            | inr (d, e) ↦
                rw (settle, e)
                  (subst
                    (λ (u : W). Ended r n (
                      ok v,
                      record n {
                        records = (key_of r, done v) ∷ (key_of r, intent) ∷ n.records;
                        writes = d;
                        outside = u;
                      },
                    ))
                    (ap (λ (p : Result Value × W). p.1) q)
                    (completed (ap (λ (p : Result Value × W). p.0) q)))
          ]

    mutate-Ended : (r : Request) (n : Node W) → Ended r n (mutate s execute r n)
    unfolding mutate run_action
    mutate-Ended r n = elim (write_record-cases (key_of r) intent n) [
      | inl (x, c, e) ↦ rw (mutate, e) not_written
      | inr (c, e) ↦ rw (mutate, e) (settle-Ended r n c (execute r n.outside) refl)
    ]

    -- How any request ends: nothing has changed, or a request that was validated has changed the node
    -- under a record that was not there.
    pub data Outcome (v : Value) (n : Node W) (e : Result Value × Node W) : Type 0 where
      unchanged : e.1 ≡ n → Outcome v n e
      changed :
          (r : Request)
          → validate_request v (s.config n.outside) (s.boot_id n.outside) ≡ ok r
          → record_of (key_of r) n.records ≡ none
          → Ended r n e
          → Outcome v n e

    perform-Outcome :
        (v : Value) (r : Request) (n : Node W)
        → validate_request v (s.config n.outside) (s.boot_id n.outside) ≡ ok r
        → Outcome v n (perform s execute r n)
    unfolding perform unless_recorded
    perform-Outcome v r n valid = elim (Bool-cases (is_reading r)) [
      | inl t ↦ rw (perform, t) (unchanged refl)
      | inr f ↦ elim (Option-cases (record_of (key_of r) n.records)) [
        | inl fresh ↦ rw (perform, f, fresh) (changed r valid fresh (mutate-Ended r n))
        | inr (q, found) ↦ rw (perform, f, found) (unchanged refl)
      ]
    ]

    -- A request changes the node's records or anything outside only after it is validated, and only
    -- where its operation has no record of this action. Then either the intent could not be written
    -- and nothing ran, or the action ran exactly once and its record stays: the intent if the action
    -- or the last write failed, the result if both succeeded.
    pub dispatch-Outcome : (v : Value) (n : Node W) → Outcome v n (dispatch s execute v n)
    unfolding dispatch locked
    dispatch-Outcome v n =
        elim (Result-cases (validate_request v (s.config n.outside) (s.boot_id n.outside))) [
          | inl (x, e) ↦ rw (dispatch, e) (unchanged refl)
          | inr (r, e) ↦ rw (dispatch, e) (locked-Outcome r e)
        ]
      where
        locked-Outcome :
            (r : Request)
            → validate_request v (s.config n.outside) (s.boot_id n.outside) ≡ ok r
            → Outcome v n (locked s execute r n)
        locked-Outcome r e = elim (Bool-cases (r.action == "probe")) [
          | inl t ↦ rw (locked, t) (unchanged refl)
          | inr f ↦ elim (Result-cases (s.secure n.outside)) [
            | inl (x, q) ↦ rw (locked, f, q) (unchanged refl)
            | inr (u, q) ↦ rw (locked, f, q) (perform-Outcome v r n e)
          ]
        ]

    -- A valid request for a change whose operation has a record of this action already, finished or
    -- not, is refused, and nothing changes.
    pub dispatch-once :
        (v : Value) (n : Node W) (r : Request) (q : Record)
        → validate_request v (s.config n.outside) (s.boot_id n.outside) ≡ ok r
        → (r.action == "probe") ≡ false
        → is_reading r ≡ false
        → record_of (key_of r) n.records ≡ some q
        → (x : Exc) × (dispatch s execute v n ≡ (raise x, n))
    unfolding dispatch locked perform unless_recorded
    dispatch-once v n r q valid other changes found = elim (Result-cases (s.secure n.outside)) [
      | inl (x, e) ↦ (x, rw (dispatch, valid, locked, other, e) refl)
      | inr (u, e) ↦ (
        runtime_error "operation already attempted; reconciliation required",
        rw (dispatch, valid, locked, other, e, perform, changes, found) refl,
      )
    ]
