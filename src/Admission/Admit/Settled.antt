-- ===== src/Admission/Admit/Settled.antt =====
-- What `admit` leaves in the table, and what it answers.
use highly_available_trailba.Prelude.{
  ℕ, ◌≡◌, refl, sym, ◌∙◌, ap, inl, inr, true, false, String, List, [], ◌∷◌, ◌++◌, map, Option, none,
  some, ◌==◌, string_eq, nat_eq, eq_iff, beq_refl, Result, ok, raise, bind, Exc, arith,
}
use highly_available_trailba.Py.Value.{Value}
use highly_available_trailba.Admission.Requests.{
  Request, Outcome, Binding, Proof, outcome_of, proof_of,
}
use highly_available_trailba.Admission.Table.{
  Status, intent, forward_uncertain, awaiting_proof, proof_uncertain, proven, Row, State, select,
  updated, new_row, same_status, status_rank,
}
use highly_available_trailba.Admission.Table.Lookup.{
  select-append_self, select-append_other, select-updated, update-cases,
}
use highly_available_trailba.Admission.Admit.{
  Decision, refusal, release, binding_of, attempt, settle_proof, settle_forward,
}

-- A table that has this row under this identity, and that is the earlier table under every other.
pub record Kept (ident : String) (before after : List Row) (row : Row) : Type 0 where
  pub found : select ident after ≡ some row
  pub others : (k : String) → (ident == k) ≡ false → select k after ≡ select k before

abbrev pub settled : Status → Option ℕ → Option String → Option String → Option ℕ → Row → Row
settled new upstream digest evidence txid r = record r {
  status = new;
  upstream_status = upstream;
  upstream_digest = digest;
  proof_evidence = evidence;
  txid = txid;
}

select-id : (k : String) (rows : List Row) {r : Row} → select k rows ≡ some r → r.operation ≡ k
unfolding select
select-id k [] h = cc
select-id k (x ∷ xs) {r} h = ground (arith, select-id k xs {r = r}, eq_iff x.operation k)

same_status_refl : (s : Status) → same_status s s ≡ true
unfolding same_status status_rank
same_status_refl s = beq_refl (status_rank s)

module _ (ident : String) (old new : Status) (upstream : Option ℕ) (digest evidence : Option String)
    (txid : Option ℕ) where
  updated_self :
      (r : Row)
      → r.operation ≡ ident
      → r.status ≡ old
      → updated ident old new upstream digest evidence txid r
        ≡ settled new upstream digest evidence txid r
  unfolding updated
  updated_self r e s = ground (arith, eq_iff r.operation ident, same_status_refl old)

  updated_absent :
      (r : Row) (j : String)
      → r.operation ≡ j
      → (ident == j) ≡ false
      → updated ident old new upstream digest evidence txid r ≡ r
  unfolding updated
  updated_absent r j e n = ground (arith, eq_iff r.operation ident, eq_iff ident j)

  select-other :
      (j : String) (rows : List Row)
      → (ident == j) ≡ false
      → select j (map (updated ident old new upstream digest evidence txid) rows) ≡ select j rows
  select-other j rows n =
      select-updated ident old new upstream digest evidence txid j rows ∙ go (select j rows) refl
    where
      go :
          (o : Option Row)
          → select j rows ≡ o
          → elim o [
            | none ↦ none
            | some r ↦ some (updated ident old new upstream digest evidence txid r)
          ]
            ≡ o
      go none e = refl
      go (some r) e = ap some (updated_absent r j (select-id j rows e) n)

  Kept-updated :
      (before after : List Row) (row : Row)
      → Kept ident before after row
      → row.status ≡ old
      → Kept ident before
          (map (updated ident old new upstream digest evidence txid) after)
          (settled new upstream digest evidence txid row)
  Kept-updated before after row k s = record {
    found =
        select-updated ident old new upstream digest evidence txid ident after
        ∙ ground (arith, k.found, updated_self row (select-id ident after k.found) s);
    others = λ j n. select-other j after n ∙ k.others j n;
  }

pub Kept-new :
    (q : Request) (digest database : String) (before : List Row)
    → select q.operation_id before ≡ none
    → Kept q.operation_id before
        (before ++ new_row q digest database ∷ [])
        (new_row q digest database)
Kept-new q digest database before h = record {
  found = select-append_self (new_row q digest database) before h;
  others = λ k n. select-append_other k (new_row q digest database) before n;
}

-- `_proof(prove(required))`, in the world that it meets
abbrev pub proved : {W : Type 0} → (Binding → W → Result Value × W) → Binding → W → Result Proof
proved prove b w = bind (prove b w).0 (λ v. proof_of v b)

-- The row that `admit` leaves, with what it answers. `outside` is the world that `forward` meets, and `prove` meets the
-- world that `forward` leaves.
pub data Explains (sha256 : List ℕ → String) {W : Type 0} (forward : Request → W → Result Value × W)
    (prove : Binding → W → Result Value × W) (q : Request) (digest database : String) (outside : W)
    : Row → Result Decision → Type 0 where
  -- no answer was recorded
  before_answer :
      {x : Exc}
      → Explains sha256 forward prove q digest database outside
          (new_row q digest database)
          (raise x)
  before_proof :
      (o : Outcome) {x : Exc}
      → bind (forward q outside).0 outcome_of ≡ ok o
      → Explains sha256 forward prove q digest database outside
          (settled awaiting_proof
            (some o.status)
            (some (sha256 o.response_body))
            none
            none
            (new_row q digest database))
          (raise x)
  forward_unknown :
      (x : Exc)
      → bind (forward q outside).0 outcome_of ≡ raise x
      → Explains sha256 forward prove q digest database outside
          (settled forward_uncertain none none none none (new_row q digest database))
          (ok (refusal "admission forward uncertain" "forward_uncertain"))
  proof_unknown :
      (o : Outcome) (x : Exc)
      → bind (forward q outside).0 outcome_of ≡ ok o
      → proved prove (binding_of q digest database) (forward q outside).1 ≡ raise x
      → Explains sha256 forward prove q digest database outside
          (settled proof_uncertain
            (some o.status)
            (some (sha256 o.response_body))
            none
            none
            (new_row q digest database))
          (ok (refusal "admission proof uncertain" "proof_uncertain"))
  proof_bound :
      (o : Outcome) (p : Proof)
      → bind (forward q outside).0 outcome_of ≡ ok o
      → proved prove (binding_of q digest database) (forward q outside).1 ≡ ok p
      → Explains sha256 forward prove q digest database outside
          (settled proven
            (some o.status)
            (some (sha256 o.response_body))
            (some p.evidence_id)
            (some p.txid)
            (new_row q digest database))
          (ok (release o))

module _ (sha256 : List ℕ → String) {W : Type 0} (forward : Request → W → Result Value × W)
    (prove : Binding → W → Result Value × W) (q : Request) (digest database : String)
    (before : List Row) (outside : W) where
  -- A run that ends with its row in the table.
  abbrev pub Recorded : Result Decision × State W → Type 0
  Recorded r =
      (row : Row) × Kept q.operation_id before r.1.rows row
      × Explains sha256 forward prove q digest database outside row r.0

  settle_proof-Recorded :
      (o : Outcome) (p : Result Proof) (s : State W)
      → bind (forward q outside).0 outcome_of ≡ ok o
      → proved prove (binding_of q digest database) (forward q outside).1 ≡ p
      → Kept q.operation_id before s.rows (
          settled awaiting_proof
            (some o.status)
            (some (sha256 o.response_body))
            none
            none
            (new_row q digest database))
      → Recorded (settle_proof sha256 forward prove q.operation_id o p s)
  unfolding settle_proof
  settle_proof-Recorded o (raise e) s answer from k =
      elim (update-cases q.operation_id awaiting_proof proof_uncertain (some o.status)
        (some (sha256 o.response_body)) none none s) [
          | inl (x, c, h) ↦ rw (settle_proof, h) (_, k, before_proof o answer)
          | inr (c, h) ↦
              rw (settle_proof, h)
                (
                  _,
                  Kept-updated _ _ _ _ _ _ _ before s.rows _ k refl,
                  proof_unknown o e answer from,
                )
        ]
  settle_proof-Recorded o (ok p) s answer from k =
      elim (update-cases q.operation_id awaiting_proof proven (some o.status)
        (some (sha256 o.response_body)) (some p.evidence_id) (some p.txid) s) [
          | inl (x, c, h) ↦ rw (settle_proof, h) (_, k, before_proof o answer)
          | inr (c, h) ↦
              rw (settle_proof, h)
                (_, Kept-updated _ _ _ _ _ _ _ before s.rows _ k refl, proof_bound o p answer from)
        ]

  pub settle_forward-Recorded :
      (o : Result Outcome) (s : State W)
      → bind (forward q outside).0 outcome_of ≡ o
      → s.outside ≡ (forward q outside).1
      → Kept q.operation_id before s.rows (new_row q digest database)
      → Recorded (settle_forward sha256 forward prove q (binding_of q digest database) o s)
  unfolding settle_forward attempt
  settle_forward-Recorded (raise e) s answer met k =
      elim (update-cases q.operation_id intent forward_uncertain none none none none s) [
        | inl (x, c, h) ↦ rw (settle_forward, h) (_, k, before_answer)
        | inr (c, h) ↦
            rw (settle_forward, h)
              (_, Kept-updated _ _ _ _ _ _ _ before s.rows _ k refl, forward_unknown e answer)
      ]
  settle_forward-Recorded (ok o) s answer met k =
      elim (update-cases q.operation_id intent awaiting_proof (some o.status)
        (some (sha256 o.response_body)) none none s) [
          | inl (x, c, h) ↦ rw (settle_forward, h) (_, k, before_answer)
          | inr (c, h) ↦
              rw (settle_forward, h)
                (settle_proof-Recorded o _ _ answer
                  (ap (proved prove (binding_of q digest database)) (sym met))
                  (Kept-updated _ _ _ _ _ _ _ before s.rows _ k refl))
        ]
