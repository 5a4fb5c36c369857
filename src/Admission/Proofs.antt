-- ===== src/Admission/Proofs.antt =====
-- experiments/d4/admission.py: what a value that passes `_proof` says.
use highly_available_trailba.Prelude.{
  ℕ, zero, suc, ◌<◌, ◌≡◌, refl, ap, sym, Bool, true, false, String, none, some, nat_eq, string_eq,
  eq_iff, nat_beq_iff, &&-eq-true, ok, raise_if, not, bind-eq-ok, subst, ok-injective, after_not,
  arith, if◌then◌else◌,
}
use highly_available_trailba.Fallible.{◌>>=◌, ◌>>◌}
use highly_available_trailba.Py.Value.{Value, bool, int, str, get, is_text, has_keys}
use highly_available_trailba.Admission.Requests.{
  Binding, Proof, proof_of, proof_from, proof_keys, invalid_proof, is_bound, positive, is_true,
  is_int, is_evidence, text_of, need,
}

-- The nine keys of a proof for this binding: five repeat it, and of the rest the transaction is at least 1, the
-- replica's is the same, the image is verified and the evidence is named.
pub record IsProof (v : Value) (b : Binding) (p : Proof) : Type 0 where
  pub keys : has_keys proof_keys v ≡ true
  pub operation_id : get v "operation_id" ≡ str b.operation_id
  pub request_digest : get v "request_digest" ≡ str b.request_digest
  pub epoch : get v "epoch" ≡ str b.epoch
  pub writer_boot : get v "writer_boot" ≡ str b.writer_boot
  pub database : get v "database" ≡ str b.database
  pub txid : get v "txid" ≡ int p.txid
  pub is_positive : 0 < p.txid
  pub replica_txid : get v "replica_txid" ≡ int p.txid
  pub image_verified : get v "image_verified" ≡ bool true
  pub evidence_id : get v "evidence_id" ≡ str p.evidence_id
  pub is_named : is_evidence p.evidence_id ≡ true

is_text_lem : (s : String) (v : Value) → is_text s v ≡ true → v ≡ str s
unfolding is_text
is_text_lem s (str t) h = ap str (sym ((eq_iff s t).0 h))
is_text_lem s v h = cc

is_true_lem : (v : Value) → is_true v ≡ true → v ≡ bool true
unfolding is_true
is_true_lem (bool b) h = ap bool h
is_true_lem v h = cc

is_int_lem : (n : ℕ) (v : Value) → is_int n v ≡ true → v ≡ int n
unfolding is_int
is_int_lem n (int m) h = ap int ((nat_beq_iff m n).0 h)
is_int_lem n v h = cc

positive_lem : (v : Value) {n : ℕ} → need (positive v) invalid_proof ≡ ok n → (v ≡ int n) × (0 < n)
unfolding positive
positive_lem (int zero) h = cc
positive_lem (int (suc n)) h =
    let e = ok-injective h in (ap int e, subst (λ k. 0 < k) e (omega arith))
positive_lem v h = cc

text_of_lem :
    (v : Value) {s : String}
    → need (text_of is_evidence v) invalid_proof ≡ ok s
    → (v ≡ str s) × (is_evidence s ≡ true)
unfolding text_of
text_of_lem (str t) {s} h = go (is_evidence t) refl h
  where
    go :
        (b : Bool)
        → is_evidence t ≡ b
        → need (if b then some t else none) invalid_proof ≡ ok s
        → (str t ≡ str s) × (is_evidence s ≡ true)
    go true e h =
        let same = ok-injective h in (ap str same, subst (λ x. is_evidence x ≡ true) same e)
    go false e h = cc
text_of_lem v h = cc

pub proof_of-IsProof : (v : Value) (b : Binding) {p : Proof} → proof_of v b ≡ ok p → IsProof v b p
unfolding proof_of is_bound
proof_of-IsProof v b {p} h =
    let named = λ (n : ℕ).
      need (text_of is_evidence (get v "evidence_id")) invalid_proof >>= λ e. ok (proof_from n e) in
    let verified =
      λ (n : ℕ). raise_if (not (is_true (get v "image_verified"))) invalid_proof >> named n in
    let copied =
      λ (n : ℕ). raise_if (not (is_int n (get v "replica_txid"))) invalid_proof >> verified n in
    let counted = need (positive (get v "txid")) invalid_proof >>= copied in
    let (keys, h1) =
      after_not (has_keys proof_keys v) invalid_proof
        (raise_if (not (is_bound v b)) invalid_proof >> counted) h in
    let (bound, h2) = after_not (is_bound v b) invalid_proof counted h1 in
    let (b4, database) = &&-eq-true _ (is_text b.database (get v "database")) bound in
    let (b3, boot) = &&-eq-true _ (is_text b.writer_boot (get v "writer_boot")) b4 in
    let (b2, epoch) = &&-eq-true _ (is_text b.epoch (get v "epoch")) b3 in
    let (operation, digest) =
      &&-eq-true (is_text b.operation_id (get v "operation_id"))
        (is_text b.request_digest (get v "request_digest")) b2 in
    let (n, a, h3) = bind-eq-ok (need (positive (get v "txid")) invalid_proof) copied h2 in
    let (txid, is_positive) = positive_lem (get v "txid") a in
    let (replica, h4) = after_not (is_int n (get v "replica_txid")) invalid_proof (verified n) h3 in
    let (image, h5) = after_not (is_true (get v "image_verified")) invalid_proof (named n) h4 in
    let (e, c, h6) =
      bind-eq-ok (need (text_of is_evidence (get v "evidence_id")) invalid_proof)
        (λ e. ok (proof_from n e)) h5 in
    let (evidence, is_named) = text_of_lem (get v "evidence_id") c in
    subst (λ x. IsProof v b x) (ok-injective h6)
      (record {
        keys = keys;
        operation_id = is_text_lem b.operation_id (get v "operation_id") operation;
        request_digest = is_text_lem b.request_digest (get v "request_digest") digest;
        epoch = is_text_lem b.epoch (get v "epoch") epoch;
        writer_boot = is_text_lem b.writer_boot (get v "writer_boot") boot;
        database = is_text_lem b.database (get v "database") database;
        txid = txid;
        is_positive = is_positive;
        replica_txid = is_int_lem n (get v "replica_txid") replica;
        image_verified = is_true_lem (get v "image_verified") image;
        evidence_id = evidence;
        is_named = is_named;
      })
