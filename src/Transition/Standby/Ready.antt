-- ===== src/Transition/Standby/Ready.antt =====
-- That a standby accepted as healthy has reached the cut.
use highly_available_trailba.Prelude.{
  ℕ, ◌≡◌, ◌≤◌, refl, sym, ◌∙◌, ap, Bool, true, false, ◌&&◌, not, String, List, [], ◌∷◌, Option,
  none, some, ◌==◌, nat_eq, string_eq, eq_iff, all, contains, length, All, ok, raise_if,
  raise_if-eq-ok, Exc, bind-eq-ok, arith, &&-eq-true, not-eq-false, Bool-cases, inl, inr,
}
use highly_available_trailba.Fallible.{◌>>=◌, ◌>>◌}
use highly_available_trailba.Py.Value.{
  Value, bool, int, obj, Fields, end, field, has_keys, get, lookup, keys, values,
}
use highly_available_trailba.Node.Positions.{dbs, positive_int}
use highly_available_trailba.Transition.Standby.{
  is_bool, is_none, is_initial, positions_of, reaches, reaches_all, followers_run, refusals_of,
  is_consistent, unconfirmed, startup_health, position_health, judge, identity_health,
  sampled_health, standby_health, need,
}

need-eq-ok : {A : Type 0} (o : Option A) (e : Exc) {a : A} → need o e ≡ ok a → o ≡ some a
need-eq-ok none e h = cc
need-eq-ok (some x) e h = cc

-- A database that a list of keys has is found, and with a good value if all values are good.
lookup-positive :
    (fs : Fields) (k : String)
    → contains (keys fs) k ≡ true
    → all positive_int (values fs) ≡ true
    → (v : Value) × (lookup fs k ≡ some v) × (positive_int v ≡ true)
unfolding contains keys values lookup
lookup-positive end k h p = cc
lookup-positive (field j v fs) k h p = elim (Bool-cases (j == k)) [
  | inl t ↦ (v, ground arith, ground arith)
  | inr f ↦
      let (w, e, q) = lookup-positive fs k (ground arith) (ground arith) in
      (w, ground (arith, e, f), q)
]

positive_int-int : (v : Value) → positive_int v ≡ true → (n : ℕ) × (v ≡ int n)
unfolding positive_int
positive_int-int (int (Prim.Native.Nat.suc n)) h = (Prim.Native.Nat.suc n, refl)
positive_int-int v h = cc

bool_apart : (v : Value) → is_bool true v ≡ true → is_bool false v ≡ false
unfolding is_bool
bool_apart (bool b) h = ground (arith, h)
bool_apart v h = cc

-- A node that says that it is healthy is not in its very first state.
initial_unhealthy :
    (v : Value) (refusals : List String)
    → is_bool true (get v "healthy") ≡ true
    → is_initial v refusals ≡ false
unfolding is_initial
initial_unhealthy v refusals h = last_false _ _ (bool_apart (get v "healthy") h)
  where
    last_false : (a b : Bool) → b ≡ false → (a && b) ≡ false
    last_false true b e = e
    last_false false b e = refl

-- The standby is at this database at or beyond this position.
abbrev pub Reached : Fields → String × ℕ → Type 0
Reached positions p = (m : ℕ) × (lookup positions p.0 ≡ some (int m)) × (p.1 ≤ m)

reaches-Reached :
    (positions : Fields) (db : String) (n : ℕ)
    → contains (keys positions) db ≡ true
    → all positive_int (values positions) ≡ true
    → reaches positions db n ≡ true
    → Reached positions (db, n)
unfolding reaches
reaches-Reached positions db n k p h =
    let (v, e, q) = lookup-positive positions db k p in
    let (m, i) = positive_int-int v q in
    let found : lookup positions db ≡ some (int m) = e ∙ ap some i in
    (m, found, ground (arith, found))

has_keys_lem :
    (fs : Fields) (k : String)
    → has_keys dbs (obj fs) ≡ true
    → contains dbs k ≡ true
    → contains (keys fs) k ≡ true
unfolding has_keys contains
has_keys_lem fs k h c = ground (arith, eq_iff "main" k, eq_iff "session" k, eq_iff "aux" k)

positions_of_lem :
    (v : Value) {fs : Fields}
    → positions_of v ≡ some fs
    → (v ≡ obj fs) × (all positive_int (values fs) ≡ true)
unfolding positions_of
positions_of_lem (obj gs) {fs} h =
    elim (Bool-cases (all (contains dbs) (keys gs) && all positive_int (values gs))) [
      | inl t ↦ ground (arith, t)
      | inr f ↦ ground (arith, f)
    ]
positions_of_lem v h = cc

reaches_all-Reached :
    (positions : Fields) (cut : List (String × ℕ))
    → has_keys dbs (obj positions) ≡ true
    → all positive_int (values positions) ≡ true
    → all (λ (p : String × ℕ). contains dbs p.0) cut ≡ true
    → reaches_all positions cut ≡ true
    → All (Reached positions) cut
unfolding reaches_all
reaches_all-Reached positions [] k p c h = tt
reaches_all-Reached positions ((db, n) ∷ cut) k p c h =
    let (c1, c2) = &&-eq-true (contains dbs db) _ c in
    let (h1, h2) = &&-eq-true (reaches positions db n) _ h in
    (
      reaches-Reached positions db n (has_keys_lem positions db k c1) p h1,
      reaches_all-Reached positions cut k p c2 h2,
    )

position_lem :
    (v : Value) (cut : List (String × ℕ)) (refusals : List String) (positions : Fields)
    {u : Unit {0}}
    → position_health v cut refusals positions ≡ ok u
    → is_bool true (get v "healthy") ≡ true
    → (reaches_all positions cut ≡ true)
      × (followers_run (get v "processes") ≡ true)
      × (is_consistent v refusals positions ≡ true)
unfolding position_health
position_lem v cut refusals positions h healthy =
    let (_, a, h1) =
      bind-eq-ok
        (raise_if (not (reaches_all positions cut))
          (unconfirmed "standby cut is behind the required cut"))
        (λ _.
          raise_if (not (followers_run (get v "processes")))
            (unconfirmed "standby follower process exited")
          >> raise_if (is_bool true (get v "healthy") && not (is_consistent v refusals positions))
              (unconfirmed "standby readiness is incomplete or inconsistent"))
        h in
    let (_, b, h2) =
      bind-eq-ok
        (raise_if (not (followers_run (get v "processes")))
          (unconfirmed "standby follower process exited"))
        (λ _.
          raise_if (is_bool true (get v "healthy") && not (is_consistent v refusals positions))
            (unconfirmed "standby readiness is incomplete or inconsistent"))
        h1 in
    let d =
      raise_if-eq-ok (is_bool true (get v "healthy") && not (is_consistent v refusals positions)) _
        h2 in
    (
      not-eq-false _ (raise_if-eq-ok (not (reaches_all positions cut)) _ a),
      not-eq-false _ (raise_if-eq-ok (not (followers_run (get v "processes"))) _ b),
      not-eq-false _ (healthy_and (is_bool true (get v "healthy")) _ healthy d),
    )
  where
    healthy_and : (a b : Bool) → a ≡ true → (a && b) ≡ false → b ≡ false
    healthy_and true b h k = k
    healthy_and false b h k = cc

consistent_lem :
    (v : Value) (refusals : List String) (positions : Fields)
    → is_consistent v refusals positions ≡ true
    → (has_keys dbs (obj positions) ≡ true) × (is_bool false (get v "trailbase_running") ≡ true)
unfolding is_consistent
consistent_lem v refusals positions h =
    let (a, stopped) =
      &&-eq-true (has_keys dbs (obj positions) && length refusals == 0 && is_none (get v "phase")) _
        h in
    let (b, _) = &&-eq-true (has_keys dbs (obj positions) && length refusals == 0) _ a in
    ((&&-eq-true (has_keys dbs (obj positions)) _ b).0, stopped)

judge_lem :
    (v : Value) (cut : List (String × ℕ)) (refusals : List String) {u : Unit {0}}
    → judge v cut refusals ≡ ok u
    → is_bool true (get v "healthy") ≡ true
    → (positions : Fields) × (positions_of (get v "positions") ≡ some positions)
      × (reaches_all positions cut ≡ true)
      × (followers_run (get v "processes") ≡ true)
      × (is_consistent v refusals positions ≡ true)
unfolding judge sampled_health
judge_lem v cut refusals {u} h healthy =
    let sampled : sampled_health v cut refusals ≡ ok u = sym (rw (judge, not_initial) refl) ∙ h in
    let (_, _, h1) =
      bind-eq-ok (startup_health v refusals)
        (λ _.
          need (positions_of (get v "positions")) (unconfirmed "standby positions are unconfirmed")
          >>= position_health v cut refusals)
        sampled in
    let (positions, e, h2) =
      bind-eq-ok
        (need (positions_of (get v "positions")) (unconfirmed "standby positions are unconfirmed"))
        (position_health v cut refusals) h1 in
    let (r, f, k) = position_lem v cut refusals positions h2 healthy in
    (positions, need-eq-ok (positions_of (get v "positions")) _ e, r, f, k)
  where
    not_initial : is_initial v refusals ≡ false
    not_initial = initial_unhealthy v refusals healthy

-- A standby that is accepted and says that it is healthy is at or beyond each position of the cut,
-- if the cut is of the three databases; its three followers run, and it says that it has no writer.
pub standby_health-Reached :
    (v : Value) (epoch : String) (cut : List (String × ℕ)) (boot : Option String) {u : Unit {0}}
    → all (λ (p : String × ℕ). contains dbs p.0) cut ≡ true
    → standby_health v epoch cut boot ≡ ok u
    → is_bool true (get v "healthy") ≡ true
    → (positions : Fields) × (get v "positions" ≡ obj positions)
      × All (Reached positions) cut
      × (followers_run (get v "processes") ≡ true)
      × (is_bool false (get v "trailbase_running") ≡ true)
unfolding standby_health
standby_health-Reached v epoch cut boot c h healthy =
    let (_, _, h1) =
      bind-eq-ok (identity_health v epoch boot)
        (λ _.
          need (refusals_of (get v "refusals")) (unconfirmed "standby refusal state is unconfirmed")
          >>= judge v cut)
        h in
    let (refusals, _, h2) =
      bind-eq-ok
        (need (refusals_of (get v "refusals")) (unconfirmed "standby refusal state is unconfirmed"))
        (judge v cut) h1 in
    let (positions, e, r, f, k) = judge_lem v cut refusals h2 healthy in
    let (at, p) = positions_of_lem (get v "positions") e in
    let (keyed, stopped) = consistent_lem v refusals positions k in
    (positions, at, reaches_all-Reached positions cut keyed p c r, f, stopped)
