-- ===== src/Control/Accept/Proven.antt =====
-- What stands behind a comparison or a verification that the controller accepts.
use highly_available_trailba.Prelude.{
  ℕ, ◌<◌, ◌≡◌, refl, inl, inr, ◌∙◌, sym, ap, subst, Bool, true, false, not, ◌&&◌, String, List, [],
  ◌∷◌, Option, none, some, Exc, Result, ok, raise, raise_if, raise_if-eq-ok, value_error,
  ok-injective, bind-eq-ok, Bool-cases, contains, ◌==◌, nat_eq, string_eq, arith, &&-eq-true,
  not-eq-false, after_not, get_elem?, eq_iff, some-injective, key_error,
}
use highly_available_trailba.Fallible.{◌>>=◌, ◌>>◌}
use highly_available_trailba.Exec.{Exec}
use highly_available_trailba.Py.Value.{
  Value, bool, int, str, obj, Fields, end, field, lookup, get, item, has_keys, is_text, py_eq,
  fields_sub, size, as_number,
}
use highly_available_trailba.Py.Access.{get_of}
use highly_available_trailba.Node.Positions.{dbs}
use highly_available_trailba.Control.Phases.{phase_plan}
use highly_available_trailba.Control.Rows.{Operation}
use highly_available_trailba.Control.State.{State}
use highly_available_trailba.Control.Journal.{boundary, comparison_boundary, verification_boundary}
use highly_available_trailba.Control.Journal.Sound.{Inv}
use highly_available_trailba.Transition.Requests.{validate_cut}
use highly_available_trailba.Acceptance.Results.Passed.{
  IsPassed, validate_acceptance_result-IsPassed,
}
use highly_available_trailba.Control.Accept.{
  operation_value, controller_root, evidence_for, validated, check_comparison, accept_comparison,
  number_le, any_behind, behind, has_request, is_rechecked, are_new_writes, unmatched, is_matched,
  check_verification, accept_verification, is_request_for,
}
use highly_available_trailba.Control.Accept.Resumed.{
  Settles, accepting, accepting-Accepted, accepting-Inv,
}

ForwardPlan : (n : ℕ) (phase : String) → Type 0
ForwardPlan n phase =
    (plan : List String) → phase_plan "A" "B" ≡ ok plan → get_elem? plan n ≡ some phase

compare_due : ForwardPlan 5 "compare"
unfolding ForwardPlan phase_plan
compare_due plan h = ap (λ p. get_elem? p 5) (sym (ok-injective h))

verify_due : ForwardPlan 9 "verify"
unfolding ForwardPlan phase_plan
verify_due plan h = ap (λ p. get_elem? p 9) (sym (ok-injective h))

module _ (canonical : Value → Result (List ℕ)) (sha256 : List ℕ → String) (ident : String)
    (result : Value) where
  abbrev pub comparing : Exec State (Unit {0})
  comparing =
      accepting ident 5 ("A", "B") 6 "compare" result
        (λ o previous. check_comparison canonical sha256 o previous result)

  abbrev pub verifying : Exec State (Unit {0})
  verifying =
      accepting ident 9 ("A", "B") 10 "verify" result
        (λ o previous. check_verification canonical sha256 o previous result)

  pub accept_comparison_lem :
      (s : State) → accept_comparison canonical sha256 ident result s ≡ comparing s
  unfolding accept_comparison comparison_boundary
  accept_comparison_lem s = refl

  pub accept_verification_lem :
      (s : State) → accept_verification canonical sha256 ident result s ≡ verifying s
  unfolding accept_verification verification_boundary
  accept_verification_lem s = refl

  pub accept_comparison-Inv :
      (s : State) → Inv s → Inv (accept_comparison canonical sha256 ident result s).1
  accept_comparison-Inv s h = rw (accept_comparison_lem s) (
      accepting-Inv ident 5 ("A", "B") 6 "compare" result
        (λ o previous. check_comparison canonical sha256 o previous result)
        (unfold ForwardPlan in compare_due) (omega arith) s h)

  pub accept_verification-Inv :
      (s : State) → Inv s → Inv (accept_verification canonical sha256 ident result s).1
  accept_verification-Inv s h = rw (accept_verification_lem s) (
      accepting-Inv ident 9 ("A", "B") 10 "verify" result
        (λ o previous. check_verification canonical sha256 o previous result)
        (unfold ForwardPlan in verify_due) (omega arith) s h)

-- Two numbers of a database, the second one later.
pub record Advances (old new : Value) (db : String) : Type 0 where
  pub before : ℕ
  pub after : ℕ
  pub old_position : item old db ≡ ok (int before)
  pub new_position : item new db ≡ ok (int after)
  pub later : before < after

number_le_lem :
    (n : ℕ) (w new : Value)
    → py_eq (int n) w ≡ true
    → number_le new w ≡ ok false
    → (m : ℕ) × (new ≡ int m) × (n < m)
unfolding py_eq number_le as_number
number_le_lem n (int k) (int m) e h = (m, refl, ground arith)
number_le_lem n (bool true) (int m) e h = (m, refl, ground arith)
number_le_lem n (bool false) (int m) e h = (m, refl, ground arith)
number_le_lem n (int k) new e h = cc
number_le_lem n (bool b) new e h = cc
number_le_lem n w new e h = cc

any_behind_lem :
    (positions : Value) (fs : Fields) (db : String) {w : Value}
    → any_behind positions fs ≡ ok false
    → lookup fs db ≡ some w
    → (new : Value) × (item positions db ≡ ok new) × (number_le new w ≡ ok false)
unfolding any_behind lookup
any_behind_lem positions end db h l = cc
any_behind_lem positions (field k v rest) db {w} h l =
    let (new, a, h1) =
      bind-eq-ok (item positions k)
        (λ new.
          number_le new v >>= λ b. elim b [ true ↦ ok true | false ↦ any_behind positions rest ])
        h in
    let (b, c, h2) =
      bind-eq-ok (number_le new v)
        (λ b. elim b [ true ↦ ok true | false ↦ any_behind positions rest ]) h1 in
    let (c', h3) = not_behind new b c h2 in
    elim (Bool-cases (k == db)) [
      | inl t ↦
          let e : some v ≡ some w = sym (rw (lookup, t) refl) ∙ l in
          (
            new,
            subst (λ x. item positions x ≡ ok new) ((eq_iff k db).0 t) a,
            subst (λ x. number_le new x ≡ ok false) (some-injective v w e) c',
          )
      | inr f ↦ any_behind_lem positions rest db h3 (sym (rw (lookup, f) refl) ∙ l)
    ]
  where
    not_behind :
        (new : Value) (b : Bool)
        → number_le new v ≡ ok b
        → elim b as (λ _. Result Bool) [ true ↦ ok true | false ↦ any_behind positions rest ]
          ≡ ok false
        → (number_le new v ≡ ok false) × (any_behind positions rest ≡ ok false)
    not_behind new true c h = cc
    not_behind new false c h = (c, h)

fields_sub-lookup :
    (fs gs : Fields) (k : String) {v : Value}
    → fields_sub fs gs ≡ true
    → lookup fs k ≡ some v
    → (w : Value) × (lookup gs k ≡ some w) × (py_eq v w ≡ true)
unfolding fields_sub lookup
fields_sub-lookup end gs k h l = cc
fields_sub-lookup (field j u fs) gs k {v} h l =
    let (a, b) =
      &&-eq-true (elim (lookup gs j) [ none ↦ false | some w ↦ py_eq u w ]) (fields_sub fs gs) h in
    elim (Bool-cases (j == k)) [
      | inl t ↦
          let e : some u ≡ some v = sym (rw (lookup, t) refl) ∙ l in
          let (w, c, d) = there (lookup gs j) a in
          (
            w,
            subst (λ x. lookup gs x ≡ some w) ((eq_iff j k).0 t) c,
            subst (λ x. py_eq x w ≡ true) (some-injective u v e) d,
          )
      | inr f ↦ fields_sub-lookup fs gs k b (sym (rw (lookup, f) refl) ∙ l)
    ]
  where
    there :
        (o : Option Value)
        → elim o as (λ _. Bool) [ none ↦ false | some w ↦ py_eq u w ] ≡ true
        → (w : Value) × (o ≡ some w) × (py_eq u w ≡ true)
    there none h = cc
    there (some w) h = (w, refl, h)

pub item-lookup :
    (fs : Fields) (k : String) {v : Value} → item (obj fs) k ≡ ok v → lookup fs k ≡ some v
unfolding item
item-lookup fs k h = go (lookup fs k) h
  where
    go :
        (o : Option Value) {v : Value}
        → elim o as (λ _. Result Value) [ none ↦ raise (key_error k) | some v ↦ ok v ] ≡ ok v
        → o ≡ some v
    go none h = cc
    go (some w) h = ap some (ok-injective h)

obj_eq : (fs gs : Fields) → py_eq (obj fs) (obj gs) ≡ true → fields_sub fs gs ≡ true
unfolding py_eq
obj_eq fs gs h = (&&-eq-true (size fs == size gs) (fields_sub fs gs) h).1

pub item_obj : (v : Value) (k : String) {x : Value} → item v k ≡ ok x → (fs : Fields) × (v ≡ obj fs)
unfolding item
item_obj (obj fs) k h = (fs, refl)
item_obj v k h = cc

behind_obj :
    (positions expected : Value)
    → behind positions expected ≡ ok false
    → (gs : Fields) × (expected ≡ obj gs) × (any_behind positions gs ≡ ok false)
unfolding behind
behind_obj positions (obj gs) h = (gs, refl, h)
behind_obj positions v h = cc

-- The positions that are not behind are later than those that equal the old ones.
behind-Advances :
    (old positions expected : Value) (db : String) (n : ℕ)
    → item old db ≡ ok (int n)
    → py_eq old expected ≡ true
    → behind positions expected ≡ ok false
    → Advances old positions db
behind-Advances old positions expected db n i e h =
    let (fs, o) = item_obj old db i in
    let (gs, x, b) = behind_obj positions expected h in
    let same : py_eq (obj fs) (obj gs) ≡ true =
      subst (λ v. py_eq (obj fs) v ≡ true) x (subst (λ v. py_eq v expected ≡ true) o e) in
    let found : item (obj fs) db ≡ ok (int n) = subst (λ v. item v db ≡ ok (int n)) o i in
    let (w, l, q) = fields_sub-lookup fs gs db (obj_eq fs gs same) (item-lookup fs db found) in
    let (new, a, c) = any_behind_lem positions gs db b l in
    let (m, is_new, lt) = number_le_lem n w new q c in
    record { before = n; after = m; old_position = i; new_position = a ∙ ap ok is_new; later = lt }

pub is_text_lem : (s : String) (v : Value) → is_text s v ≡ true → v ≡ str s
unfolding is_text
is_text_lem s (str t) h = ap str (sym ((eq_iff s t).0 h))
is_text_lem s v h = cc

-- the two ends of a comparison: what was frozen, and what was restored
pub record IsCompared (o : Operation) (previous : List (String × Value)) (result : Value)
    : Type 0 where
  pub request : Value
  pub frozen : Value
  pub cut : Value
  pub signature : Value
  pub requested : get_of result "request" ≡ ok request
  pub passed : IsPassed controller_root (operation_value o) request result none
  pub freeze : evidence_for "freeze" previous ≡ ok frozen
  pub frozen_cut : item frozen "cut" ≡ ok cut
  pub frozen_signature : item frozen "signature" ≡ ok signature
  pub same_positions : py_eq (get request "positions") cut ≡ true
  pub same_signature : py_eq (get result "signature") signature ≡ true

-- the restores of a verification: the new positions are later than the plan's baseline
pub record IsVerified (o : Operation) (previous : List (String × Value)) (result : Value)
    : Type 0 where
  pub baseline : Value
  pub fresh : Value
  pub baseline_listed : baseline ≡ get result "baseline_recheck"
  pub fresh_listed : fresh ≡ get result "new_writes"
  pub writer : get result "writer" ≡ str "B"
  pub epoch : get result "epoch" ≡ str o.new_epoch
  pub baseline_passed :
      IsPassed controller_root (operation_value o) (get baseline "request") baseline none
  pub fresh_passed : IsPassed controller_root (operation_value o) (get fresh "request") fresh none
  pub fresh_positions :
      py_eq (get (get fresh "request") "positions") (get result "positions") ≡ true
  pub later :
      (db : String)
      → contains dbs db ≡ true
      → Advances (get (get baseline "request") "positions") (get result "positions") db

pub not_stale :
    (m : Result Bool) (e : Exc) {u : Unit {0}} → (m >>= λ b. raise_if b e) ≡ ok u → m ≡ ok false
not_stale (ok true) e h = cc
not_stale (ok false) e h = refl
not_stale (raise x) e h = cc

is_rechecked_lem :
    (o : Operation) (result baseline positions : Value)
    → is_rechecked o result baseline positions ≡ true
    → (get result "writer" ≡ str "B")
      × (get result "epoch" ≡ str o.new_epoch)
      × (py_eq (get (get baseline "request") "positions") positions ≡ true)
unfolding is_rechecked
is_rechecked_lem o result baseline positions h =
    let (h1, d) = &&-eq-true _ (py_eq (get (get baseline "request") "positions") positions) h in
    let (h2, _) =
      &&-eq-true _ (is_request_for o "verification-baseline" "baseline" (get baseline "request"))
        h1 in
    let (a, b) =
      &&-eq-true (is_text "B" (get result "writer")) (is_text o.new_epoch (get result "epoch"))
        h2 in
    (is_text_lem "B" (get result "writer") a, is_text_lem o.new_epoch (get result "epoch") b, d)

are_new_writes_lem :
    (o : Operation) (result baseline fresh signature : Value)
    → are_new_writes o result baseline fresh signature ≡ true
    → (py_eq (get baseline "signature") signature ≡ true)
      × (py_eq (get (get fresh "request") "positions") (get result "positions") ≡ true)
unfolding are_new_writes
are_new_writes_lem o result baseline fresh signature h =
    let (h1, g) =
      &&-eq-true _ (py_eq (get (get fresh "request") "positions") (get result "positions")) h in
    let (a, _) = &&-eq-true (py_eq (get baseline "signature") signature) _ h1 in (a, g)

is_matched_lem :
    (result signature : Value)
    → is_matched result signature ≡ true
    → py_eq (get result "signature") signature ≡ true
unfolding is_matched
is_matched_lem result signature h =
    let (h1, _) = &&-eq-true _ (is_text "PASS" (get (get result "checks") "authentication")) h in
    (&&-eq-true (py_eq (get result "signature") signature)
      (is_text "PASS" (get (get result "checks") "records")) h1).0

module _ (canonical : Value → Result (List ℕ)) (sha256 : List ℕ → String) (o : Operation)
    (previous : List (String × Value)) (result : Value) where
  passed_lem :
      (v request : Value) {w : Value}
      → validated canonical sha256 o v request ≡ ok w
      → (w ≡ v) × IsPassed controller_root (operation_value o) request v none
  passed_lem v request h =
      validate_acceptance_result-IsPassed canonical sha256 controller_root v request
        (operation_value o) none h

  check_comparison-IsCompared :
      {u : Unit {0}}
      → check_comparison canonical sha256 o previous result ≡ ok u
      → IsCompared o previous result
  unfolding check_comparison
  check_comparison-IsCompared h =
      let signed = λ (frozen : Value). item frozen "signature" >>= λ signature.
      raise_if (not (is_matched result signature)) unmatched in
      let placed = λ (request frozen cut : Value).
        raise_if (not (py_eq (get request "positions") cut)) unmatched >> signed frozen in
      let froze = λ (request frozen : Value). item frozen "cut" >>= placed request frozen in
      let (request, a, h1) =
        bind-eq-ok (get_of result "request")
          (λ request. validated canonical sha256 o result request >>= λ _.
            evidence_for "freeze" previous >>= froze request)
          h in
      let (_, b, h2) =
        bind-eq-ok (validated canonical sha256 o result request)
          (λ _. evidence_for "freeze" previous >>= froze request) h1 in
      let (frozen, c, h3) = bind-eq-ok (evidence_for "freeze" previous) (froze request) h2 in
      let (cut, d, h4) = bind-eq-ok (item frozen "cut") (placed request frozen) h3 in
      let (positions, h5) =
        after_not (py_eq (get request "positions") cut) unmatched (signed frozen) h4 in
      let (signature, e, h6) =
        bind-eq-ok (item frozen "signature")
          (λ signature. raise_if (not (is_matched result signature)) unmatched) h5 in
      let signatures =
        is_matched_lem result signature
          (not-eq-false (is_matched result signature) (raise_if-eq-ok _ unmatched h6)) in
      record {
        request = request;
        frozen = frozen;
        cut = cut;
        signature = signature;
        requested = a;
        passed = (passed_lem result request b).1;
        freeze = c;
        frozen_cut = d;
        frozen_signature = e;
        same_positions = positions;
        same_signature = signatures;
      }

  later_lem :
      (baseline expected : Value)
      → IsPassed controller_root (operation_value o) (get baseline "request") baseline none
      → py_eq (get (get baseline "request") "positions") expected ≡ true
      → behind (get result "positions") expected ≡ ok false
      → (db : String) → contains dbs db ≡ true
      → Advances (get (get baseline "request") "positions") (get result "positions") db
  later_lem baseline expected p e b db c =
      let at = p.accepted.positions db c in
      behind-Advances (get (get baseline "request") "positions") (get result "positions") expected
        db at.position at.found e b

  check_verification-IsVerified :
      {u : Unit {0}}
      → check_verification canonical sha256 o previous result ≡ ok u
      → IsVerified o previous result
  unfolding check_verification
  check_verification-IsVerified h =
      let shape = value_error "verification evidence shape differs" in
      let wrong =
        value_error "verification evidence does not reconcile baseline and fresh writes" in
      let recheck = get result "baseline_recheck" in
      let writes = get result "new_writes" in
      let last = λ (b : Bool). raise_if b wrong in
      let compared = λ (old new positions signature : Value).
        raise_if (not (are_new_writes o result old new signature)) wrong
        >> (behind (get result "positions") positions >>= last) in
      let signed = λ (old new expected positions : Value).
        raise_if (not (is_rechecked o result old positions)) wrong
        >> (item expected "signature" >>= compared old new positions) in
      let placed = λ (old new expected request : Value).
        item request "positions" >>= signed old new expected in
      let asked =
        λ (old new expected : Value). item expected "request" >>= placed old new expected in
      let planned = λ (old new : Value). evidence_for "baseline" previous >>= asked old new in
      let rest = validated canonical sha256 o recheck (get recheck "request") >>= λ old.
      validated canonical sha256 o writes (get writes "request") >>= planned old in
      let (_, h1) =
        after_not
          (has_keys ("writer" ∷ "epoch" ∷ "positions" ∷ "baseline_recheck" ∷ "new_writes" ∷ [])
            result)
          _ _ h in
      let (_, _, h2) =
        bind-eq-ok (validate_cut (get result "positions"))
          (λ _. raise_if (not (has_request recheck && has_request writes)) shape >> rest) h1 in
      let (_, h3) = after_not (has_request recheck && has_request writes) shape rest h2 in
      let (old, a, h4) =
        bind-eq-ok (validated canonical sha256 o recheck (get recheck "request"))
          (λ old. validated canonical sha256 o writes (get writes "request") >>= planned old) h3 in
      let (new, b, h5) =
        bind-eq-ok (validated canonical sha256 o writes (get writes "request")) (planned old) h4 in
      let (expected, _, h6) = bind-eq-ok (evidence_for "baseline" previous) (asked old new) h5 in
      let (request, _, h7) = bind-eq-ok (item expected "request") (placed old new expected) h6 in
      let (positions, _, h8) = bind-eq-ok (item request "positions") (signed old new expected) h7 in
      let (known, h9) =
        after_not (is_rechecked o result old positions) wrong
          (item expected "signature" >>= compared old new positions) h8 in
      let (signature, _, h10) =
        bind-eq-ok (item expected "signature") (compared old new positions) h9 in
      let (newer, h11) =
        after_not (are_new_writes o result old new signature) wrong
          (behind (get result "positions") positions >>= last) h10 in
      let fresh = not_stale (behind (get result "positions") positions) wrong h11 in
      let (is_old, p) = passed_lem recheck (get recheck "request") a in
      let (is_new, q) = passed_lem writes (get writes "request") b in
      let (writer, epoch, d) = is_rechecked_lem o result old positions known in
      let (_, e) = are_new_writes_lem o result old new signature newer in
      let d' : py_eq (get (get recheck "request") "positions") positions ≡ true =
        subst (λ v. py_eq (get (get v "request") "positions") positions ≡ true) is_old d in
      record {
        baseline = recheck;
        fresh = writes;
        baseline_listed = refl;
        fresh_listed = refl;
        writer = writer;
        epoch = epoch;
        baseline_passed = p;
        fresh_passed = q;
        fresh_positions =
            subst (λ v. py_eq (get (get v "request") "positions") (get result "positions") ≡ true)
              is_new e;
        later = later_lem recheck positions p d' fresh;
      }

-- What an accepted phase has done to the journal: the pending phase of this position, of an unfinished
-- operation from A to B, is recorded as done with the evidence, and the object stands after it.
pub record Completes (ident : String) (position next : ℕ) (phase : String) (o : Operation)
    (previous : List (String × Value)) (result : Value) (s t : State) : Type 0 where
  pub pending : boundary ident position ("A", "B") s ≡ (ok (o, previous), s)
  pub settled : Settles o position next phase result s t

module _ (canonical : Value → Result (List ℕ)) (sha256 : List ℕ → String) (ident : String)
    (result : Value) (s : State) {t : State} where
  -- A comparison that `accept_comparison` accepts was restored at the positions that were frozen, and has the
  -- signature that was frozen: its request was accepted for the operation, each database was restored at
  -- the request's position and passed, and the request's positions are those of the evidence of `freeze`.
  -- The operation was pending in `compare`, which is recorded as done, and nothing else is written.
  pub accept_comparison-IsCompared :
      accept_comparison canonical sha256 ident result s ≡ (ok tt, t)
      → (o : Operation) × (previous : List (String × Value)) × Completes ident 5 6 "compare" o
          previous result s t
        × IsCompared o previous result
  accept_comparison-IsCompared h =
      let a =
        accepting-Accepted ident 5 ("A", "B") 6 "compare" result
          (λ o previous. check_comparison canonical sha256 o previous result) s
          (sym (accept_comparison_lem canonical sha256 ident result s) ∙ h) in
      (
        a.o,
        a.evidence,
        record { pending = a.bounded; settled = a.settled },
        check_comparison-IsCompared canonical sha256 a.o a.evidence result a.checked,
      )

  -- A verification that `accept_verification` accepts names B as the writer of the operation's new epoch. Its
  -- two restores were accepted for the operation, each database of each at its request's position and
  -- passed, and of each of the three databases the position of the new writes is later than the one of the
  -- baseline. The operation was pending in `verify`, which is recorded as done, and nothing else is
  -- written.
  pub accept_verification-IsVerified :
      accept_verification canonical sha256 ident result s ≡ (ok tt, t)
      → (o : Operation) × (previous : List (String × Value)) × Completes ident 9 10 "verify" o
          previous result s t
        × IsVerified o previous result
  accept_verification-IsVerified h =
      let a =
        accepting-Accepted ident 9 ("A", "B") 10 "verify" result
          (λ o previous. check_verification canonical sha256 o previous result) s
          (sym (accept_verification_lem canonical sha256 ident result s) ∙ h) in
      (
        a.o,
        a.evidence,
        record { pending = a.bounded; settled = a.settled },
        check_verification-IsVerified canonical sha256 a.o a.evidence result a.checked,
      )
