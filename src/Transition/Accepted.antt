-- ===== src/Transition/Accepted.antt =====
-- What holds of the requests that a node accepts.
use highly_available_trailba.Prelude.{
  ◌≡◌, refl, sym, ◌∙◌, ap, subst, inl, inr, true, false, ◌&&◌, ◌||◌, String, List, Option, none,
  some, string_eq, eq_iff, contains, ok, Exc, bind-eq-ok, arith, &&-eq-true, ok-injective,
  Bool-cases,
}
use highly_available_trailba.Fallible.{◌>>=◌, ◌>>◌}
use highly_available_trailba.Py.Value.{Value, str, has_keys, get, is_text}
use highly_available_trailba.Py.Text.{is_operation}
use highly_available_trailba.Transition.Requests.{
  Config, Request, shape, text_in, is_look, needs_writer, needs_standby, boot_matches, identified,
  bound_request, is_bound, request_from, identity_of, role_error, cut_error, payload_error,
  raise_some, accepted, shaped, checked, validate_request,
}

raise_some-eq-ok : (o : Option Exc) {u : Unit {0}} → raise_some o ≡ ok u → o ≡ none
unfolding raise_some
raise_some-eq-ok none h = refl
raise_some-eq-ok (some e) h = cc

accepted-eq-ok : (o : Option Request) {r : Request} → accepted o ≡ ok r → o ≡ some r
unfolding accepted
accepted-eq-ok none h = cc
accepted-eq-ok (some r) h = ap some (ok-injective h)

-- Every test passed.
record Passed (v : Value) (c : Config) (boot : String) (r : Request) : Type 0 where
  pub identity : identity_of v c boot ≡ some r
  pub role : role_error r c ≡ none
  pub cut : cut_error r ≡ none
  pub payload : payload_error r c ≡ none

checked_lem :
    (c : Config) (q : Request) {r : Request}
    → checked c q ≡ ok r
    → (q ≡ r) × (role_error q c ≡ none) × (cut_error q ≡ none) × (payload_error q c ≡ none)
unfolding checked
checked_lem c q {r} h =
    let (_, a, h1) =
      bind-eq-ok (raise_some (role_error q c))
        (λ _. raise_some (cut_error q) >> (raise_some (payload_error q c) >> ok q)) h in
    let (_, b, h2) =
      bind-eq-ok (raise_some (cut_error q)) (λ _. raise_some (payload_error q c) >> ok q) h1 in
    let (_, d, h3) = bind-eq-ok (raise_some (payload_error q c)) (λ _. ok q) h2 in
    (ok-injective h3, raise_some-eq-ok _ a, raise_some-eq-ok _ b, raise_some-eq-ok _ d)

validate_request-Passed :
    (v : Value) (c : Config) (boot : String) {r : Request}
    → validate_request v c boot ≡ ok r
    → Passed v c boot r
unfolding validate_request
validate_request-Passed v c boot {r} h =
    let (_, _, h1) = bind-eq-ok (shaped v) (λ _. accepted (identity_of v c boot) >>= checked c) h in
    let (q, i, h2) = bind-eq-ok (accepted (identity_of v c boot)) (checked c) h1 in
    let (same, a, b, d) = checked_lem c q h2 in
    record {
      identity = accepted-eq-ok _ i ∙ ap some same;
      role = subst (λ x. role_error x c ≡ none) same a;
      cut = subst (λ x. cut_error x ≡ none) same b;
      payload = subst (λ x. payload_error x c ≡ none) same d;
    }

is_text_lem : (s : String) (v : Value) → is_text s v ≡ true → v ≡ str s
unfolding is_text
is_text_lem s (str t) h = ap str (sym ((eq_iff s t).0 h))
is_text_lem s v h = cc

-- What the second test binds a request to.
record Identified (v : Value) (c : Config) (boot : String) (r : Request) : Type 0 where
  pub named : text_in (get v "action") ≡ some r.action
  pub keys_of : (ks : List String) × (shape r.action ≡ some ks) × (has_keys ks r.payload ≡ true)
  pub operation : is_operation r.operation ≡ true
  pub epoch : get v "epoch" ≡ str c.epoch
  pub boot_id : boot_matches r.action boot (get v "boot_id") ≡ true

bound_request-Identified :
    (v : Value) (c : Config) (boot action operation : String) (s : Option (List String))
    {r : Request}
    → text_in (get v "action") ≡ some action
    → shape action ≡ s
    → bound_request v c boot action operation s ≡ some r
    → Identified v c boot r
unfolding bound_request is_bound
bound_request-Identified v c boot action operation none n e h = cc
bound_request-Identified v c boot action operation (some ks) {r} n e h =
    elim (Bool-cases (is_bound v c boot action operation ks)) [
      | inl t ↦ subst (Identified v c boot) (found t) (found-Identified t)
      | inr f ↦ let k : none ≡ some r = sym (rw (bound_request, f) refl) ∙ h in cc
    ]
  where
    found :
        is_bound v c boot action operation ks ≡ true
        → request_from action operation (get v "payload") ≡ r
    found t =
        let k : some (request_from action operation (get v "payload")) ≡ some r =
          sym (rw (bound_request, t) refl) ∙ h in
        cc

    found-Identified :
        is_bound v c boot action operation ks ≡ true
        → Identified v c boot (request_from action operation (get v "payload"))
    found-Identified t =
        let (a, rest) = &&-eq-true (is_operation operation) _ t in
        let (front, k) =
          &&-eq-true (is_text c.epoch (get v "epoch") && boot_matches action boot (get v "boot_id"))
            _ rest in
        let (b, d) = &&-eq-true (is_text c.epoch (get v "epoch")) _ front in
        record {
          named = n;
          keys_of = (ks, e, k);
          operation = a;
          epoch = is_text_lem c.epoch _ b;
          boot_id = d;
        }

identified-Identified :
    (v : Value) (c : Config) (boot : String) (a o : Option String) {r : Request}
    → text_in (get v "action") ≡ a
    → identified v c boot a o ≡ some r
    → Identified v c boot r
unfolding identified
identified-Identified v c boot none o n h = cc
identified-Identified v c boot (some a) none n h = cc
identified-Identified v c boot (some a) (some o) n h =
    bound_request-Identified v c boot a o (shape a) n refl h

identity_of-Identified :
    (v : Value) (c : Config) (boot : String) {r : Request}
    → identity_of v c boot ≡ some r
    → Identified v c boot r
unfolding identity_of
identity_of-Identified v c boot h =
    identified-Identified v c boot (text_in (get v "action")) (text_in (get v "operation")) refl h

-- every action but the two that only look belongs to one role
action_role :
    (a : String) {ks : List String}
    → shape a ≡ some ks
    → is_look a ≡ false
    → (needs_writer a || needs_standby a) ≡ true
unfolding shape is_look needs_writer needs_standby contains
action_role a {ks} s l = ground arith

role_lem :
    (r : Request) (c : Config)
    → role_error r c ≡ none
    → (needs_writer r.action ≡ true → c.role ≡ "writer")
      × (needs_standby r.action ≡ true → c.role ≡ "standby")
unfolding role_error
role_lem r c h =
    (λ w. ground (arith, eq_iff c.role "writer"), λ s. ground (arith, eq_iff c.role "standby"))

boot_lem :
    (action boot : String) (v : Value)
    → boot_matches action boot v ≡ true
    → is_look action ≡ false
    → v ≡ str boot
unfolding boot_matches
boot_lem action boot v h l = is_text_lem boot v (ground arith)

-- A request that a node accepts names the node's own epoch and an operation of 32 hexadecimal
-- digits; unless it only looks, it names the node's own boot; and the node has the role that the
-- action needs.
pub validate_request-bound :
    (v : Value) (c : Config) (boot : String) {r : Request}
    → validate_request v c boot ≡ ok r
    → (get v "epoch" ≡ str c.epoch)
      × (is_operation r.operation ≡ true)
      × (is_look r.action ≡ false → get v "boot_id" ≡ str boot)
      × (needs_writer r.action ≡ true → c.role ≡ "writer")
      × (needs_standby r.action ≡ true → c.role ≡ "standby")
validate_request-bound v c boot {r} h =
    let p = validate_request-Passed v c boot h in
    let i = identity_of-Identified v c boot p.identity in
    let (w, s) = role_lem r c p.role in
    (i.epoch, i.operation, boot_lem r.action boot (get v "boot_id") i.boot_id, w, s)

-- A request that both a writer and a standby would accept, whatever their epochs and boots, only
-- looks at the node.
pub validate_request-exclusive :
    (v : Value) (c d : Config) (boot other : String) {r q : Request}
    → c.role ≡ "writer"
    → d.role ≡ "standby"
    → validate_request v c boot ≡ ok r
    → validate_request v d other ≡ ok q
    → is_look r.action ≡ true
validate_request-exclusive v c d boot other {r} {q} writer standby h k =
    let p = validate_request-Passed v c boot h in
    let p' = validate_request-Passed v d other k in
    let i = identity_of-Identified v c boot p.identity in
    let i' = identity_of-Identified v d other p'.identity in
    let (ks, s, _) = i.keys_of in
    let same : r.action ≡ q.action = same_text (sym i.named ∙ i'.named) in
    elim (Bool-cases (is_look r.action)) [
      | inl t ↦ t
      | inr n ↦ elim (Bool-cases (needs_standby r.action)) [
        | inl t ↦ let clash : writer_role ≡ "standby" = sym writer ∙ (role_lem r c p.role).1 t in cc
        | inr f ↦
            let w : needs_writer r.action ≡ true = ground (arith, action_role r.action s n, f) in
            let clash : writer_role ≡ "standby" =
              sym ((role_lem q d p'.role).0 (subst (λ a. needs_writer a ≡ true) same w))
              ∙ standby in
            cc
      ]
    ]
  where
    writer_role : String
    writer_role = "writer"

    same_text : {a b : String} → some a ≡ some b → a ≡ b
    same_text h = cc
