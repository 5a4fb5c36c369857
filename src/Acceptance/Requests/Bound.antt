-- ===== src/Acceptance/Requests/Bound.antt =====
-- What an accepted request of a restore says.
use highly_available_trailba.Prelude.{
  ℕ, ◌<◌, ◌^◌, ◌≡◌, refl, sym, ◌∙◌, ap, subst, Bool, true, not, String, List, [], ◌∷◌, some, ◌==◌,
  nat_eq, string_eq, all, contains, Result, ok, raise_if, raise_if-eq-ok, value_error,
  if◌then◌else◌, arith, bind-eq-ok, ok-injective, Bool-cases, inl, inr, &&-eq-true, not-eq-false,
  after_not, eq_iff,
}
use highly_available_trailba.Fallible.{◌>>=◌, ◌>>◌}
use highly_available_trailba.Py.Value.{
  Value, int, str, obj, Fields, end, field, keys, values, lookup, has_keys, get, item, is_text,
  is_int_between, py_eq,
}
use highly_available_trailba.Py.Access.{keys_are, values_of, recast-eq-ok, hex64}
use highly_available_trailba.Control.Rows.{Operation}
use highly_available_trailba.Node.Positions.{dbs}
use highly_available_trailba.Acceptance.Profiles.{acceptance_operation, Profile, in_matrix}
use highly_available_trailba.Acceptance.Authority.{authority}
use highly_available_trailba.Acceptance.Requests.{
  request_keys, is_bound, check_positions, is_authorised, point_source, check_point,
  check_points_of, check_points, check_inputs, is_named, check_profile, check_request,
  validate_acceptance_request, input_keys, recovery, check_faults,
}

-- a position of a database: a number that is not 0 and fits 64 bits
pub record IsPosition (positions : Value) (db : String) : Type 0 where
  pub position : ℕ
  pub found : item positions db ≡ ok (int position)
  pub bounded : position < 2 ^ 64
  pub positive : 0 < position

lookup-contains :
    (fs : Fields) (k : String) → contains (keys fs) k ≡ true → (v : Value) × (lookup fs k ≡ some v)
unfolding contains keys lookup
lookup-contains end k h = cc
lookup-contains (field j v fs) k h = elim (Bool-cases (j == k)) [
  | inl t ↦ (v, rw (t) refl)
  | inr f ↦ let (w, e) = lookup-contains fs k (ground (arith, h, f)) in (w, rw (f) e)
]

lookup-all :
    (p : Value → Bool) (fs : Fields) (k : String) {v : Value}
    → all p (values fs) ≡ true
    → lookup fs k ≡ some v
    → p v ≡ true
unfolding values lookup
lookup-all p end k a h = cc
lookup-all p (field j w fs) k {v} a h =
    let (pw, rest) = &&-eq-true (p w) (all p (values fs)) a in
    elim (Bool-cases (j == k)) [
      | inl t ↦
          let e : some w ≡ some v = sym (rw (lookup, t) refl) ∙ h in
          subst (λ x. p x ≡ true) (some-inj e) pw
      | inr f ↦ lookup-all p fs k rest (sym (rw (lookup, f) refl) ∙ h)
    ]
  where
    some-inj : {x y : Value} → some x ≡ some y → x ≡ y
    some-inj e = cc

between_lem :
    (v : Value)
    → is_int_between 0 (2 ^ 64) v ≡ true
    → (n : ℕ) × (v ≡ int n) × (0 < n) × (n < 2 ^ 64)
unfolding is_int_between
between_lem (int n) h = (n, refl, ground arith, ground arith)
between_lem v h = cc

all-contains :
    (ks : List String) (js : List String) (k : String)
    → all (contains js) ks ≡ true
    → contains ks k ≡ true
    → contains js k ≡ true
unfolding contains
all-contains [] js k a h = cc
all-contains (j ∷ ks) js k a h =
    let (x, y) = &&-eq-true (contains js j) (all (contains js) ks) a in
    elim (Bool-cases (j == k)) [
      | inl t ↦ subst (λ i. contains js i ≡ true) ((eq_iff j k).0 t) x
      | inr f ↦ all-contains ks js k y (ground (arith, h, f))
    ]

pub IsPosition-of :
    (fs : Fields) (db : String)
    → has_keys dbs (obj fs) ≡ true
    → all (is_int_between 0 (2 ^ 64)) (values fs) ≡ true
    → contains dbs db ≡ true
    → IsPosition (obj fs) db
unfolding has_keys item
IsPosition-of fs db h a c =
    let (_, k) = &&-eq-true (all (contains dbs) (keys fs)) _ h in
    let (v, e) = lookup-contains fs db (all-contains dbs (keys fs) db k c) in
    let (n, same, pos, lt) = between_lem v (lookup-all (is_int_between 0 (2 ^ 64)) fs db a e) in
    record { position = n; found = rw (item, e) (ap ok same); bounded = lt; positive = pos }

values_of_lem :
    (v : Value) {vs : List Value}
    → values_of v ≡ ok vs
    → (fs : Fields) × (v ≡ obj fs) × (vs ≡ values fs)
unfolding values_of
values_of_lem (obj fs) h = (fs, refl, sym (ok-injective h))
values_of_lem v h = cc

keys_are_obj :
    (ks : List String) (fs : Fields) {b : Bool}
    → keys_are ks (obj fs) ≡ ok b
    → has_keys ks (obj fs) ≡ b
unfolding keys_are
keys_are_obj ks fs h = ok-injective h

check_positions-IsPosition :
    (v : Value) {u : Unit {0}}
    → check_positions v ≡ ok u
    → (db : String) → contains dbs db ≡ true
    → IsPosition v db
unfolding check_positions
check_positions-IsPosition v h db c =
    let (named, n, h1) =
      bind-eq-ok (keys_are dbs v)
        (λ named.
          raise_if (not named) (value_error "invalid restore positions")
          >> (values_of v >>= λ vs.
              raise_if (not (all (is_int_between 0 (2 ^ 64)) vs))
                (value_error "invalid restore positions")))
        h in
    let (t, h2) = after_not named _ _ h1 in
    let (vs, a, h3) =
      bind-eq-ok (values_of v)
        (λ vs.
          raise_if (not (all (is_int_between 0 (2 ^ 64)) vs))
            (value_error "invalid restore positions"))
        h2 in
    let (fs, same, these) = values_of_lem v a in
    let between = not-eq-false _ (raise_if-eq-ok _ _ h3) in
    let k : keys_are dbs (obj fs) ≡ ok named = subst (λ w. keys_are dbs w ≡ ok named) same n in
    subst (λ w. IsPosition w db) (sym same)
      (IsPosition-of fs db (keys_are_obj dbs fs k ∙ t)
        (subst (λ ws. all (is_int_between 0 (2 ^ 64)) ws ≡ true) these between) c)

-- what a restore point says of its database
pub record IsPoint (positions points : Value) (db : String) : Type 0 where
  pub point : Value
  pub position : Value
  pub asked : Value
  pub found : item points db ≡ ok point
  pub source : item point "source" ≡ ok (str (point_source db))
  pub at : item point "position" ≡ ok position
  pub named : item positions db ≡ ok asked
  pub same : py_eq position asked ≡ true

is_text_lem : (s : String) (v : Value) → is_text s v ≡ true → v ≡ str s
unfolding is_text
is_text_lem s (str t) h = ap str (sym ((eq_iff s t).0 h))
is_text_lem s v h = cc

check_point-IsPoint :
    (positions points : Value) (db : String) {u : Unit {0}}
    → check_point positions points db ≡ ok u
    → IsPoint positions points db
unfolding check_point
check_point-IsPoint positions points db h =
    let differs = value_error "restore point binding differs" in
    let last = λ (position expected : Value). raise_if (not (py_eq position expected)) differs in
    let ends = λ (point : Value).
      item point "position" >>= λ position. item positions db >>= last position in
    let middle = λ (point : Value). item point "source" >>= λ source.
    raise_if (not (is_text (point_source db) source)) differs >> ends point in
    let (point, a, h1) =
      bind-eq-ok (item points db)
        (λ point. keys_are ("source" ∷ "position" ∷ []) point >>= λ named.
          raise_if (not named) differs >> middle point)
        h in
    let (named, _, h2) =
      bind-eq-ok (keys_are ("source" ∷ "position" ∷ []) point)
        (λ named. raise_if (not named) differs >> middle point) h1 in
    let (_, h3) = after_not named _ _ h2 in
    let (source, b, h4) =
      bind-eq-ok (item point "source")
        (λ source. raise_if (not (is_text (point_source db) source)) differs >> ends point) h3 in
    let (text, h5) = after_not (is_text (point_source db) source) _ _ h4 in
    let (position, c, h6) =
      bind-eq-ok (item point "position") (λ position. item positions db >>= last position) h5 in
    let (asked, d, h7) = bind-eq-ok (item positions db) (last position) h6 in
    record {
      point = point;
      position = position;
      asked = asked;
      found = a;
      source = b ∙ ap ok (is_text_lem (point_source db) source text);
      at = c;
      named = d;
      same = not-eq-false _ (raise_if-eq-ok _ _ h7);
    }

check_points_of-IsPoint :
    (positions points : Value) (names : List String) {u : Unit {0}}
    → check_points_of positions points names ≡ ok u
    → (db : String) → contains names db ≡ true
    → IsPoint positions points db
unfolding check_points_of contains
check_points_of-IsPoint positions points [] h db c = cc
check_points_of-IsPoint positions points (name ∷ rest) h db c =
    let (_, a, h1) =
      bind-eq-ok (check_point positions points name) (λ _. check_points_of positions points rest)
        h in
    elim (Bool-cases (name == db)) [
      | inl t ↦
          subst (IsPoint positions points) ((eq_iff name db).0 t)
            (check_point-IsPoint positions points name a)
      | inr f ↦ check_points_of-IsPoint positions points rest h1 db (ground (arith, c, f))
    ]

check_points-IsPoint :
    (positions points : Value) {u : Unit {0}}
    → check_points positions points ≡ ok u
    → (db : String) → contains dbs db ≡ true
    → IsPoint positions points db
unfolding check_points
check_points-IsPoint positions points h db c =
    let (named, _, h1) =
      bind-eq-ok (keys_are dbs points)
        (λ named.
          raise_if (not named) (value_error "invalid restore points")
          >> check_points_of positions points dbs)
        h in
    let (_, h2) = after_not named _ _ h1 in check_points_of-IsPoint positions points dbs h2 db c

-- What an accepted request says, of the operation that it was accepted for.
pub record IsAccepted (root : List String) (operation r : Value) : Type 0 where
  pub o : Operation
  pub p : Profile
  pub known : acceptance_operation operation ≡ ok o
  pub derived : in_matrix o (get r "phase") (is_text recovery (get r "profile")) ≡ ok p
  pub operation_named : get r "operation" ≡ str o.id
  pub source : get r "source" ≡ str o.source
  pub target : get r "target" ≡ str o.target
  pub epoch : get r "epoch" ≡ str p.epoch
  pub profile : get r "profile" ≡ str p.name
  pub positions : (db : String) → contains dbs db ≡ true → IsPosition (get r "positions") db
  pub points :
      (db : String)
      → contains dbs db ≡ true
      → IsPoint (get r "positions") (get (get r "inputs") "restore_points") db
  pub authorised : authority root o p.name (get (get r "inputs") "ledger_authority") ≡ ok tt
  pub sealed : is_authorised (get r "inputs") ≡ true

is_bound_lem :
    (o : Operation) (p : Profile) (r : Value)
    → is_bound o p r ≡ true
    → (get r "source" ≡ str o.source)
      × (get r "target" ≡ str o.target)
      × (get r "epoch" ≡ str p.epoch)
      × (get r "profile" ≡ str p.name)
unfolding is_bound
is_bound_lem o p r h =
    let (h1, d) = &&-eq-true _ (is_text p.name (get r "profile")) h in
    let (h2, c) = &&-eq-true _ (is_text p.epoch (get r "epoch")) h1 in
    let (a, b) =
      &&-eq-true (is_text o.source (get r "source")) (is_text o.target (get r "target")) h2 in
    (
      is_text_lem o.source (get r "source") a,
      is_text_lem o.target (get r "target") b,
      is_text_lem p.epoch (get r "epoch") c,
      is_text_lem p.name (get r "profile") d,
    )

module _ (canonical : Value → Result (List ℕ)) (sha256 : List ℕ → String) (root : List String) where
  check_inputs_lem :
      (o : Operation) (profile : String) (positions inputs : Value) {u : Unit {0}}
      → check_inputs canonical sha256 root o profile positions inputs ≡ ok u
      → (authority root o profile (get inputs "ledger_authority") ≡ ok tt)
        × (is_authorised inputs ≡ true)
        × (check_points positions (get inputs "restore_points") ≡ ok tt)
  unfolding check_inputs
  check_inputs_lem o profile positions inputs h =
      let hashes = value_error "invalid restore input hashes" in
      let faults : Result (Unit {0}) =
        if profile == recovery then check_faults canonical sha256 inputs else ok tt in
      let points = check_points positions (get inputs "restore_points") >> faults in
      let rest =
        authority root o profile (get inputs "ledger_authority")
        >> (raise_if (not (is_authorised inputs)) (value_error "restore request authority mismatch")
            >> points) in
      let ledger = hex64 (get inputs "ledger_sha256") >>= λ b. raise_if (not b) hashes >> rest in
      let (_, h1) = after_not (has_keys (input_keys profile) inputs) _ _ h in
      let (a, _, h2) =
        bind-eq-ok (hex64 (get inputs "replica_config_sha256"))
          (λ b. raise_if (not b) hashes >> ledger) h1 in
      let (_, h3) = after_not a _ _ h2 in
      let (b, _, h4) =
        bind-eq-ok (hex64 (get inputs "ledger_sha256")) (λ b. raise_if (not b) hashes >> rest) h3 in
      let (_, h5) = after_not b _ _ h4 in
      let (_, c, h6) =
        bind-eq-ok (authority root o profile (get inputs "ledger_authority"))
          (λ _.
            raise_if (not (is_authorised inputs)) (value_error "restore request authority mismatch")
            >> points)
          h5 in
      let (d, h7) = after_not (is_authorised inputs) _ _ h6 in
      let (_, e, _) =
        bind-eq-ok (check_points positions (get inputs "restore_points")) (λ _. faults) h7 in
      (c, d, e)

  check_request-IsAccepted :
      (r operation : Value) {s : Value}
      → check_request canonical sha256 root r operation ≡ ok s
      → (s ≡ r) × IsAccepted root operation r
  unfolding check_request check_profile is_named
  check_request-IsAccepted r operation h =
      let profiled =
        λ (o : Operation) (p : Profile). check_profile canonical sha256 root o r p >> ok r in
      let matrix = λ (o : Operation).
        in_matrix o (get r "phase") (is_text recovery (get r "profile")) >>= profiled o in
      let (o, a, h1) =
        bind-eq-ok (acceptance_operation operation)
          (λ o.
            raise_if (not (has_keys request_keys r))
              (value_error "invalid restore acceptance request")
            >> (raise_if (not (is_named o r)) (value_error "restore request identity differs")
                >> matrix o))
          h in
      let (_, h2) = after_not (has_keys request_keys r) _ _ h1 in
      let (n, h3) = after_not (is_named o r) _ _ h2 in
      let (p, b, h4) =
        bind-eq-ok (in_matrix o (get r "phase") (is_text recovery (get r "profile"))) (profiled o)
          h3 in
      let (_, c, h5) = bind-eq-ok (check_profile canonical sha256 root o r p) (λ _. ok r) h4 in
      let inputs =
        check_inputs canonical sha256 root o p.name (get r "positions") (get r "inputs") in
      let (d, c1) = after_not (is_bound o p r) _ _ c in
      let (_, e, c2) = bind-eq-ok (check_positions (get r "positions")) (λ _. inputs) c1 in
      let (f, g, i) = check_inputs_lem o p.name (get r "positions") (get r "inputs") c2 in
      let (_, named) = &&-eq-true (is_text "hat-restore-acceptance-1" (get r "schema")) _ n in
      let (source, target, epoch, profile) = is_bound_lem o p r d in
      (
        sym (ok-injective h5),
        record {
          o = o;
          p = p;
          known = a;
          derived = b;
          operation_named = is_text_lem o.id (get r "operation") named;
          source = source;
          target = target;
          epoch = epoch;
          profile = profile;
          positions = check_positions-IsPosition (get r "positions") e;
          points =
              check_points-IsPoint (get r "positions") (get (get r "inputs") "restore_points") i;
          authorised = f;
          sealed = g;
        },
      )

-- A restore request that is accepted for an operation is given back as it is. It names the operation, its
-- source and its target; its profile and epoch are the ones derived for its phase; its position of each of
-- the three databases is a number above 0 and below 2 ** 64, and the restore point of that database is at
-- this position, of that database's file; its inputs are those that their authority writes down, and the
-- authority is accepted for this operation and profile.
pub validate_acceptance_request-IsAccepted :
    (canonical : Value → Result (List ℕ)) (sha256 : List ℕ → String) (root : List String)
    (r operation : Value) {s : Value}
    → validate_acceptance_request canonical sha256 root r operation ≡ ok s
    → (s ≡ r) × IsAccepted root operation r
unfolding validate_acceptance_request
validate_acceptance_request-IsAccepted canonical sha256 root r operation h =
    check_request-IsAccepted canonical sha256 root r operation (
      recast-eq-ok "invalid restore acceptance request"
        (check_request canonical sha256 root r operation) h)
