-- ===== src/Admission/Admit.antt =====
-- experiments/d4/admission.py: `admit`, over an outside world that `forward` and `prove` change.
pub mod Settled
pub mod Release
use highly_available_trailba.Prelude.{
  ℕ, Bool, true, false, String, List, Option, none, some, Result, ok, raise, bind, Exc,
}
use highly_available_trailba.Exec.{Exec, pure, throw, ◌>>=◌, ◌>>◌}
use highly_available_trailba.Py.Value.{Value}
use highly_available_trailba.Py.Text.{encode}
use highly_available_trailba.Admission.Requests.{
  Request, Outcome, Binding, Proof, request_of, outcome_of, proof_of, digest_input,
}
use highly_available_trailba.Admission.Table.{
  Status, intent, forward_uncertain, awaiting_proof, proof_uncertain, proven, State, begin, update,
}

pub record Decision : Type 0 where
  pub released : Bool
  pub status : ℕ
  pub body : List ℕ
  pub reason : String

abbrev pub refusal : String → String → Decision
refusal body reason = record { released = false; status = 503; body = encode body; reason = reason }

-- `proof` is no part of a decision: it says why the response may go out.
abbrev pub release : Outcome → Decision
release o = record { released = true; status = o.status; body = o.response_body; reason = "proven" }

abbrev pub binding_of : Request → String → String → Binding
binding_of q digest database = record {
  operation_id = q.operation_id;
  request_digest = digest;
  epoch = q.epoch;
  writer_boot = q.writer_boot;
  database = database;
}

module _ {W : Type 0} where
  -- `try: check(action(...))`, an action that may change the outside world before it raises
  unfoldable pub attempt :
      {A : Type 0} → (W → Result Value × W) → (Value → Result A) → Exec (State W) (Result A)
  attempt action check s =
      let (r, w) = action s.outside in (ok (bind r check), record s { outside = w })

module _ (sha256 : List ℕ → String) {W : Type 0} (forward : Request → W → Result Value × W)
    (prove : Binding → W → Result Value × W) where
  -- `admit` from the answer of `prove` on
  unfoldable pub settle_proof : String → Outcome → Result Proof → Exec (State W) Decision
  settle_proof ident o (raise e) = do
    update ident awaiting_proof proof_uncertain (some o.status) (some (sha256 o.response_body)) none
        none
    pure (refusal "admission proof uncertain" "proof_uncertain")
  settle_proof ident o (ok p) = do
    update ident awaiting_proof proven (some o.status) (some (sha256 o.response_body))
        (some p.evidence_id) (some p.txid)
    pure (release o)

  -- `admit` from the answer of `forward` on
  unfoldable pub settle_forward : Request → Binding → Result Outcome → Exec (State W) Decision
  unfolding settle_proof attempt
  settle_forward q b (raise e) = do
    update q.operation_id intent forward_uncertain none none none none
    pure (refusal "admission forward uncertain" "forward_uncertain")
  settle_forward q b (ok o) = do
    update q.operation_id intent awaiting_proof (some o.status) (some (sha256 o.response_body)) none
        none
    p ← attempt (prove b) (λ v. proof_of v b)
    settle_proof q.operation_id o p

  unfoldable pub admit_request : Request → String → Exec (State W) Decision
  unfolding settle_forward attempt
  admit_request q database = do
    begin q (sha256 (digest_input q)) database
    o ← attempt (forward q) outcome_of
    settle_forward q (binding_of q (sha256 (digest_input q)) database) o

  unfoldable pub admit : Value → Exec (State W) Decision
  unfolding admit_request
  admit request s = elim (request_of request) [
    | raise e ↦ (raise e, s)
    | ok accepted ↦ admit_request accepted.0 accepted.1 s
  ]
