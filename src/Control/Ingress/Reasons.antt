-- ===== src/Control/Ingress/Reasons.antt =====
-- For what reason the ingress is allowed to start.
use highly_available_trailba.Prelude.{
  ℕ, suc, Bool, true, false, ◌&&◌, ◌||◌, not, ◌≡◌, ◌⊎◌, inl, inr, refl, String, List, map, Option,
  none, some, nat_eq, string_eq, list_eq, pair_eq, &&-eq-true, list_beq_iff, Result, ok, bind,
}
use highly_available_trailba.Py.Value.{Value, str, get, item, is_text, py_eq}
use highly_available_trailba.Control.Phases.{Mark, status_eq, phases, boundary_marks}
use highly_available_trailba.Control.Rows.{OperationRow, StepRow, Db, mark, steps_of}
use highly_available_trailba.Control.Journal.{evidence_of}
use highly_available_trailba.Control.Accept.Proven.{is_text_lem}
use highly_available_trailba.Control.Proof.{validate_d3_proof}
use highly_available_trailba.Control.Existing.{marker}
use highly_available_trailba.Control.Serving.{Failure, done_row, plain_intents}
use highly_available_trailba.Control.Serving.Recovered.{Serves}
use highly_available_trailba.Control.Ingress.{
  journal_db, ingress, maintenance, permit, Sights, process_identity,
}
use highly_available_trailba.Control.Ingress.Facts.{
  Tracked, is_live_route, newest, is_marked, route_pending, verify_pending, is_permit, recovery_of,
  is_route_intended, is_recovery_pending,
}
use highly_available_trailba.Control.Ingress.Gate.{still, with_permit}
use highly_available_trailba.Control.Ingress.Looks.{
  after_lift, after_part, pure-eq-ok, IsAbsent, IsHeld,
}

pub not-true : (b : Bool) → not b ≡ true → b ≡ false
not-true true h = cc
not-true false h = refl

pub both_absent : (a b c : Bool) → (a && not b && not c) ≡ true → (b ≡ false) × (c ≡ false)
both_absent a b c h =
    let (x, y) = &&-eq-true (a && not b) (not c) h in
    let (_, z) = &&-eq-true a (not b) x in (not-true b z, not-true c y)

is_marked_lem :
    (marks : List Mark) (steps : List StepRow)
    → is_marked marks steps ≡ true
    → map mark steps ≡ marks
is_marked_lem marks steps h = (list_beq_iff (map mark steps) marks).0 h

pub is_route_intended_lem :
    (ident : String) (named : Value) (has_failed : Bool) (steps : List StepRow)
    → is_route_intended ident named has_failed steps ≡ true
    → (named ≡ str ident)
      × (map mark steps ≡ boundary_marks 8 phases)
      × (plain_intents steps ≡ true)
unfolding is_route_intended
is_route_intended_lem ident named has_failed steps h =
    let (h1, plain) = &&-eq-true _ (plain_intents steps) h in
    let (h2, at) = &&-eq-true _ (is_marked (boundary_marks 8 phases) steps) h1 in
    let (h3, _) = &&-eq-true (is_text ident named) (not has_failed) h2 in
    (is_text_lem ident named h3, is_marked_lem (boundary_marks 8 phases) steps at, plain)

pub is_recovery_pending_lem :
    (steps : List StepRow) (tracked : Tracked)
    → is_recovery_pending steps tracked ≡ true
    → ((map mark steps ≡ route_pending) ⊎ (map mark steps ≡ verify_pending))
      × (plain_intents steps ≡ true)
      × (tracked ≡ none)
unfolding is_recovery_pending
is_recovery_pending_lem steps (some x) h = let (_, b) = &&-eq-true _ false h in cc
is_recovery_pending_lem steps none h =
    let (h1, _) = &&-eq-true _ true h in
    let (at, plain) =
      &&-eq-true (is_marked route_pending steps || is_marked verify_pending steps)
        (plain_intents steps) h1 in
    (
      either (is_marked route_pending steps) (is_marked verify_pending steps) at
          (is_marked_lem route_pending steps) (is_marked_lem verify_pending steps),
      plain,
      refl,
    )
  where
    either : {P Q : Type 0} (a b : Bool) → (a || b) ≡ true → (a ≡ true → P) → (b ≡ true → Q) → P ⊎ Q
    either true b h p q = inl (p refl)
    either false b h p q = inr (q h)

module _ (w : Sights) (canonical : Value → Result (List ℕ)) (sha256 : List ℕ → String)
    (loads_bytes : List ℕ → Result Value) (boot : String) where
  -- The permit names this operation, this boot and this digest, and a process that is alive, as it
  -- was born.
  pub record IsPermitted (ident digest : String) : Type 0 where
    pub value : Value
    pub pid : Value
    pub birth : String
    pub moment : ℕ
    pub loaded : bind (w.text_at moment permit) loads_bytes ≡ ok value
    pub pid_named : item value "pid" ≡ ok pid
    pub alive : (n : ℕ) × (process_identity (w.process_at n) pid ≡ some birth)
    pub operation_named : get value "operation" ≡ str ident
    pub boot_named : get value "boot_id" ≡ str boot
    pub birth_named : get value "birth" ≡ str birth
    pub digest_named : get value "config_sha" ≡ str digest

  -- What the rows of a pending operation are: of a recovery, the route or the verification is
  -- intended, and the evidence proves it; of another, the route is intended.
  abbrev pub IsPending : OperationRow → List StepRow → Type 0
  IsPending r steps =
      (r.source ≡ "B")
        × (r.target ≡ "A")
        × ((map mark steps ≡ route_pending) ⊎ (map mark steps ≡ verify_pending))
        × ((epoch : String) × (evidence : List (String × Value)) × (evidence_of steps ≡ ok evidence)
            × (validate_d3_proof canonical sha256 (recovery_of r.id epoch r.new_epoch) evidence
                  false
                ≡ ok tt))
      ⊎ (map mark steps ≡ boundary_marks 8 phases)

  is_permit-IsPermitted :
      (ident digest : String) (value pid : Value) (moment n : ℕ) (birth : Option String)
      → bind (w.text_at moment permit) loads_bytes ≡ ok value
      → item value "pid" ≡ ok pid
      → process_identity (w.process_at n) pid ≡ birth
      → is_permit ident boot digest birth value ≡ true
      → IsPermitted ident digest
  unfolding is_permit
  is_permit-IsPermitted ident digest value pid moment n none l p a h = cc
  is_permit-IsPermitted ident digest value pid moment n (some birth) l p a h =
      let (h1, d) = &&-eq-true _ (is_text digest (get value "config_sha")) h in
      let (h2, c) = &&-eq-true _ (is_text birth (get value "birth")) h1 in
      let (h3, b) =
        &&-eq-true (is_text ident (get value "operation")) (is_text boot (get value "boot_id"))
          h2 in
      record {
        value = value;
        pid = pid;
        birth = birth;
        moment = moment;
        loaded = l;
        pid_named = p;
        alive = (n, a);
        operation_named = is_text_lem ident (get value "operation") h3;
        boot_named = is_text_lem boot (get value "boot_id") b;
        birth_named = is_text_lem birth (get value "birth") c;
        digest_named = is_text_lem digest (get value "config_sha") d;
      }

  pub with_permit-IsPermitted :
      (ident digest : String) (j i : List ℕ) (value : Value) (moment t : ℕ) {u : ℕ}
      → bind (w.text_at moment permit) loads_bytes ≡ ok value
      → with_permit w canonical sha256 loads_bytes boot ident digest j i value t ≡ (ok true, u)
      → IsPermitted ident digest
  unfolding with_permit
  with_permit-IsPermitted ident digest j i value moment t l h =
      after_lift (item value "pid") _ t h (λ pid p h1.
        after_part (still w canonical sha256 loads_bytes boot j i) _ (suc t) h1 (λ b s _ h2.
          let (_, c) =
            &&-eq-true b (is_permit ident boot digest (process_identity (w.process_at t) pid) value)
              (pure-eq-ok h2) in
          is_permit-IsPermitted ident digest value pid moment t
            (process_identity (w.process_at t) pid) l p refl c))

  -- the marker of an operation, as a recovery or as a switchover asks for it
  abbrev pub IsMarkerOf : String → Value → Type 0
  IsMarkerOf ident text =
      (py_eq text (marker ident) ≡ true) ⊎ (item text "operation" ≡ ok (str ident))

  -- why the ingress may start; each fact was seen at some moment
  pub data Reason : Type 0 where
    -- there is no journal
    unjournalled :
        (n : ℕ)
        → IsAbsent w maintenance
        → IsAbsent w permit
        → w.exists_at n journal_db ≡ false
        → Reason
    -- a journal without an operation
    idle :
        (n : ℕ) (db : Db)
        → IsAbsent w maintenance
        → IsAbsent w permit
        → w.tables_at n ≡ ok db
        → newest db.operations ≡ none
        → Reason
    -- the newest operation is complete, and its route has the digest of the ingress file
    completed :
        (n m : ℕ) (db db' : Db) (r : OperationRow) (raw : List ℕ)
        → IsAbsent w maintenance
        → IsAbsent w permit
        → IsHeld w false ingress raw
        → w.tables_at n ≡ ok db
        → newest db.operations ≡ some r
        → r.complete ≡ true
        → w.tables_at m ≡ ok db'
        → is_live_route (done_row "route" (steps_of r.id db')) r.target r.new_epoch (sha256 raw)
          ≡ true
        → Reason
    -- the newest operation is a recovery that is served
    serving :
        (n m q : ℕ) (db db' : Db) (r : OperationRow) (raw : List ℕ) (text : Value) (state : Failure)
        → IsAbsent w permit
        → IsHeld w false ingress raw
        → w.tables_at n ≡ ok db
        → newest db.operations ≡ some r
        → bind (w.text_at q maintenance) loads_bytes ≡ ok text
        → py_eq text (marker r.id) ≡ true
        → w.tables_at m ≡ ok db'
        → Serves canonical sha256 loads_bytes db' r.id (sha256 raw) state
        → Reason
    -- the newest operation has its route, or its verification, pending, and a permit
    pending :
        (n m q : ℕ) (db db' : Db) (r : OperationRow) (raw : List ℕ) (text : Value)
        → IsHeld w false ingress raw
        → w.tables_at n ≡ ok db
        → newest db.operations ≡ some r
        → r.complete ≡ false
        → bind (w.text_at q maintenance) loads_bytes ≡ ok text
        → IsMarkerOf r.id text
        → w.tables_at m ≡ ok db'
        → IsPending r (steps_of r.id db')
        → plain_intents (steps_of r.id db') ≡ true
        → IsPermitted r.id (sha256 raw)
        → Reason
