-- ===== src/Admission/Admit/Release.antt =====
-- When `admit` releases a response, and that an identity is used once.
use highly_available_trailba.Prelude.{
  ℕ, ◌≡◌, refl, ap, ◌⊎◌, inl, inr, Bool, true, String, List, none, some, Result, ok, raise,
  Result-cases, Exc, ok-injective, bind-eq-ok,
}
use highly_available_trailba.Py.Value.{Value}
use highly_available_trailba.Admission.Requests.{
  Request, Outcome, Binding, Proof, request_of, outcome_of, proof_of, digest_input,
}
use highly_available_trailba.Admission.Proofs.{IsProof, proof_of-IsProof}
use highly_available_trailba.Admission.Table.{proven, Row, State, select, new_row}
use highly_available_trailba.Admission.Table.Lookup.{begin-cases, begin-used}
use highly_available_trailba.Admission.Admit.{
  Decision, release, binding_of, attempt, admit_request, admit,
}
use highly_available_trailba.Admission.Admit.Settled.{
  Explains, before_answer, before_proof, forward_unknown, proof_unknown, proof_bound, settled,
  Recorded, Kept-new, settle_forward-Recorded,
}

-- What stands behind a released response: it is what `forward` answered to this request, the row of the
-- request is proven, and the value that `prove` gave, asked for this very request and in the world that
-- `forward` left, names the transaction and the evidence of the row.
pub record Backed (sha256 : List ℕ → String) {W : Type 0} (forward : Request → W → Result Value × W)
    (prove : Binding → W → Result Value × W) (q : Request) (database : String) (outside : W)
    (rows : List Row) (d : Decision) : Type 0 where
  pub upstream : Value
  pub outcome : Outcome
  pub value : Value
  pub proof : Proof
  pub forwarded : (forward q outside).0 ≡ ok upstream
  pub is_outcome : outcome_of upstream ≡ ok outcome
  pub proved :
      (prove (binding_of q (sha256 (digest_input q)) database) (forward q outside).1).0 ≡ ok value
  pub is_proof : IsProof value (binding_of q (sha256 (digest_input q)) database) proof
  pub answered : d ≡ release outcome
  pub found :
      select q.operation_id rows
      ≡ some (
          settled proven
            (some outcome.status)
            (some (sha256 outcome.response_body))
            (some proof.evidence_id)
            (some proof.txid)
            (new_row q (sha256 (digest_input q)) database))

module _ (sha256 : List ℕ → String) {W : Type 0} (forward : Request → W → Result Value × W)
    (prove : Binding → W → Result Value × W) where
  Explains-Backed :
      (q : Request) (database : String) (outside : W) (rows : List Row) (row : Row)
      (r : Result Decision) {d : Decision}
      → Explains sha256 forward prove q (sha256 (digest_input q)) database outside row r
      → select q.operation_id rows ≡ some row
      → r ≡ ok d
      → d.released ≡ true
      → Backed sha256 forward prove q database outside rows d
  Explains-Backed q database w rows row r before_answer f e t = cc
  Explains-Backed q database w rows row r (before_proof o a) f e t = cc
  Explains-Backed q database w rows row r {d} (forward_unknown x a) f e t =
      let released = ap (λ (c : Decision). c.released) (ok-injective e) in cc
  Explains-Backed q database w rows row r {d} (proof_unknown o x a b) f e t =
      let released = ap (λ (c : Decision). c.released) (ok-injective e) in cc
  Explains-Backed q database w rows row r (proof_bound o p a b) f e t =
      let asked = binding_of q (sha256 (digest_input q)) database in
      let (upstream, forwarded, is_outcome) = bind-eq-ok (forward q w).0 outcome_of a in
      let (value, proved, checked) =
        bind-eq-ok (prove asked (forward q w).1).0 (λ v. proof_of v asked) b in
      record {
        upstream = upstream;
        outcome = o;
        value = value;
        proof = p;
        forwarded = forwarded;
        is_outcome = is_outcome;
        proved = proved;
        is_proof = proof_of-IsProof value asked checked;
        answered = cc;
        found = f;
      }

  admit_request-cases :
      (q : Request) (database : String) (s : State W)
      → ((x : Exc) × (c : List Bool) × (admit_request sha256 forward prove q database s
            ≡ (raise x, record s { commits = c })))
        ⊎ ((select q.operation_id s.rows ≡ none)
            × Recorded sha256 forward prove q
                (sha256 (digest_input q))
                database
                s.rows
                s.outside
                (admit_request sha256 forward prove q database s))
  unfolding admit_request attempt
  admit_request-cases q database s = elim (begin-cases q (sha256 (digest_input q)) database s) [
    | inl (x, c, h) ↦ inl (x, c, rw (admit_request, h) refl)
    | inr (c, fresh, h) ↦ inr (
      fresh,
      rw (admit_request, h)
          (settle_forward-Recorded sha256 forward prove q (sha256 (digest_input q)) database s.rows
            s.outside _ _ refl refl (Kept-new q (sha256 (digest_input q)) database s.rows fresh)),
    )
  ]

  -- Whatever upstream and prover answer or raise, `admit` either changes nothing but the commits to
  -- come, the outside world included, or the request was accepted and its identity new: then the
  -- table holds one row for it, exactly the row that explains the answer, and every other row is as
  -- it was.
  pub admit-accounts :
      (v : Value) (s : State W)
      → ((x : Exc) × (c : List Bool) × (admit sha256 forward prove v s
            ≡ (raise x, record s { commits = c })))
        ⊎ ((q : Request) × (database : String) × (request_of v ≡ ok (q, database))
            × (select q.operation_id s.rows ≡ none)
            × Recorded sha256 forward prove q
                (sha256 (digest_input q))
                database
                s.rows
                s.outside
                (admit sha256 forward prove v s))
  unfolding admit
  admit-accounts v s = elim (Result-cases (request_of v)) [
    | inl (x, e) ↦ inl (x, s.commits, rw (admit, e) refl)
    | inr ((q, database), e) ↦ elim (admit_request-cases q database s) [
      | inl (x, c, h) ↦ inl (x, c, rw (admit, e) h)
      | inr (fresh, h) ↦ inr (q, database, e, fresh, rw (admit, e) h)
    ]
  ]

  -- A response that `admit` releases is the one that upstream answered to this request. The row of the
  -- request is proven, and what the prover answered, asked for this request after the forward, repeats
  -- its identity, digest, epoch, writer boot and database, and has a transaction of at least 1, the same
  -- for the replica, an image that is verified and a named evidence; the row has that transaction and that
  -- evidence.
  pub admit-release :
      (v : Value) (s : State W) {d : Decision}
      → (admit sha256 forward prove v s).0 ≡ ok d
      → d.released ≡ true
      → (q : Request) × (database : String) × (request_of v ≡ ok (q, database))
        × Backed sha256 forward prove q database s.outside (admit sha256 forward prove v s).1.rows d
  admit-release v s {d} h t = elim (admit-accounts v s) [
    | inl (x, c, e) ↦ let r = ap (λ (p : Result Decision × State W). p.0) e in cc
    | inr (q, database, e, fresh, (row, k, x)) ↦ (
      q,
      database,
      e,
      Explains-Backed q database s.outside (admit sha256 forward prove v s).1.rows row
          (admit sha256 forward prove v s).0 x k.found h t,
    )
  ]

  -- A request under an identity that the table has is refused: nothing is forwarded, nothing is
  -- proved, and nothing in the journal changes.
  pub admit-single_use :
      (v : Value) (s : State W) (q : Request) (database : String) (r : Row)
      → request_of v ≡ ok (q, database)
      → select q.operation_id s.rows ≡ some r
      → (x : Exc) × (admit sha256 forward prove v s ≡ (raise x, s))
  unfolding admit admit_request
  admit-single_use v s q database r e used =
      let (x, h) = begin-used q (sha256 (digest_input q)) database s used in
      (x, rw (admit, e, admit_request, h) refl)
