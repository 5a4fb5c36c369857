-- ===== src/Control/Serving/Writer.antt =====
-- What stands behind the writer that the journal names.
use highly_available_trailba.Prelude.{
  ℕ, ◌≡◌, refl, sym, ap, subst, true, false, not, ◌||◌, String, List, [], ◌∷◌, ◌++◌, map, Option,
  none, some, Result, ok, raise, raise_if, runtime_error, ok-injective, bind-eq-ok, or_raise,
  Bool-cases, inl, inr, ◌==◌, list_eq, pair_eq, nat_eq, string_eq, list_beq_iff, &&-eq-true,
  ||-eq-false, not-eq-false, after_not, after_raise_if, arith, any, if◌then◌else◌,
}
use highly_available_trailba.Fallible.{◌>>=◌, ◌>>◌}
use highly_available_trailba.Py.Value.{Value, str, get, is_text, has_keys}
use highly_available_trailba.Control.Phases.{status_eq, phase_plan, expected}
use highly_available_trailba.Control.Rows.{
  OperationRow, StepRow, mark, loads, has_unfinished, steps_of,
}
use highly_available_trailba.Control.State.{State, authority_of}
use highly_available_trailba.Control.Accept.Proven.{is_text_lem}
use highly_available_trailba.Control.Serving.{
  exact_route, plain_intents, last_complete, done_row, Authority, malformed_route, route_value,
  some_complete, writer_of, current_writer,
}

-- A value that routes to a writer in an epoch, by the configuration of this digest, and says nothing else.
pub record RoutesTo (value : Value) (writer epoch digest : String) : Type 0 where
  pub named : has_keys ("writer" ∷ "epoch" ∷ "config_sha" ∷ []) value ≡ true
  pub writer_named : get value "writer" ≡ str writer
  pub epoch_named : get value "epoch" ≡ str epoch
  pub digest_named : get value "config_sha" ≡ str digest

pub exact_route-RoutesTo :
    (value : Value) (writer epoch digest : String)
    → exact_route value writer epoch digest ≡ true
    → RoutesTo value writer epoch digest
unfolding exact_route
exact_route-RoutesTo value writer epoch digest h =
    let (h1, d) = &&-eq-true _ (is_text digest (get value "config_sha")) h in
    let (h2, c) = &&-eq-true _ (is_text epoch (get value "epoch")) h1 in
    let (a, b) =
      &&-eq-true (has_keys ("writer" ∷ "epoch" ∷ "config_sha" ∷ []) value)
        (is_text writer (get value "writer")) h2 in
    record {
      named = a;
      writer_named = is_text_lem writer (get value "writer") b;
      epoch_named = is_text_lem epoch (get value "epoch") c;
      digest_named = is_text_lem digest (get value "config_sha") d;
    }

-- The row that is complete and has no complete one after it.
pub record IsLast (rows : List OperationRow) (row : OperationRow) : Type 0 where
  pub older : List OperationRow
  pub newer : List OperationRow
  pub order : rows ≡ older ++ row ∷ newer
  pub complete : row.complete ≡ true
  pub none_newer : any (λ r. r.complete) newer ≡ false

last_complete-none :
    (rows : List OperationRow) → last_complete rows ≡ none → any (λ r. r.complete) rows ≡ false
unfolding last_complete
last_complete-none [] h = refl
last_complete-none (r ∷ rs) h = go (last_complete rs) (last_complete-none rs) h
  where
    go :
        (o : Option OperationRow)
        → (o ≡ none → any (λ r. r.complete) rs ≡ false)
        → elim o as (λ _. Option OperationRow) [
          | some q ↦ some q
          | none ↦ if r.complete then some r else none
        ]
          ≡ none
        → any (λ r. r.complete) (r ∷ rs) ≡ false
    go (some q) e h = cc
    go none f h = ground (arith, f refl, h)

pub last_complete-IsLast :
    (rows : List OperationRow) {row : OperationRow}
    → last_complete rows ≡ some row
    → IsLast rows row
unfolding last_complete
last_complete-IsLast [] h = cc
last_complete-IsLast (r ∷ rs) {row} h =
    go (last_complete rs) refl (λ q. last_complete-IsLast rs {row = q}) h
  where
    this :
        last_complete rs ≡ none
        → (if r.complete then some r else none) ≡ some row
        → IsLast (r ∷ rs) row
    this e h = elim (Bool-cases r.complete) [
      | inl t ↦
          let same : r ≡ row = ground arith in
          record {
            older = [];
            newer = rs;
            order = ap (λ q. q ∷ rs) same;
            complete = subst (λ q. q.complete ≡ true) same t;
            none_newer = last_complete-none rs e;
          }
      | inr f ↦ ground arith
    ]

    go :
        (o : Option OperationRow)
        → last_complete rs ≡ o
        → ((q : OperationRow) → o ≡ some q → IsLast rs q)
        → elim o as (λ _. Option OperationRow) [
          | some q ↦ some q
          | none ↦ if r.complete then some r else none
        ]
          ≡ some row
        → IsLast (r ∷ rs) row
    go (some q) e last h =
        let l = last row h in
        record {
          older = r ∷ l.older;
          newer = l.newer;
          order = ap (λ qs. r ∷ qs) l.order;
          complete = l.complete;
          none_newer = l.none_newer;
        }
    go none e last h = this e h

-- The journal and the file that authority to write rests on.
pub record Grants (sha256 : List ℕ → String) (ingress : Result (List ℕ)) (s : State) (a : Authority)
    : Type 0 where
  pub authorised : authority_of s.journal s.disk ≡ ok tt
  pub none_unfinished : has_unfinished s.db ≡ false
  pub row : OperationRow
  pub last : IsLast s.db.operations row
  pub authority : a ≡ record { operation = row.id; writer = row.target; epoch = row.new_epoch }
  pub plan : List String
  pub planned : phase_plan row.source row.target ≡ ok plan
  pub all_done : map mark (steps_of row.id s.db) ≡ expected plan
  pub route_row : StepRow
  pub route : Value
  pub listed : done_row "route" (steps_of row.id s.db) ≡ some route_row
  pub loaded : loads route_row.evidence ≡ ok route
  pub bytes : List ℕ
  pub read : ingress ≡ ok bytes
  pub exact : RoutesTo route row.target row.new_epoch (sha256 bytes)

route_value_lem :
    (o : Option StepRow) {v : Value}
    → route_value o ≡ ok v
    → (s : StepRow) × (o ≡ some s) × (loads s.evidence ≡ ok v)
unfolding route_value
route_value_lem none h = cc
route_value_lem (some s) {v} h = (s, refl, go (loads s.evidence) h)
  where
    go : (r : Result Value) → or_raise r malformed_route ≡ ok v → r ≡ ok v
    go (ok w) h = h
    go (raise e) h = cc

some_complete_lem :
    (o : Option OperationRow) {r : OperationRow} → some_complete o ≡ ok r → o ≡ some r
unfolding some_complete
some_complete_lem none h = cc
some_complete_lem (some q) h = ap some (ok-injective h)

module _ (sha256 : List ℕ → String) (ingress : Result (List ℕ)) (s : State) {a : Authority} where
  -- `current_writer` names a writer only of the completed operation with no later one, while none is
  -- unfinished and the journal's lock and files are the object's own: its rows are those of its whole plan, and the
  -- evidence of its route names the operation's target, its new epoch and the digest of the ingress
  -- file as it is read, which are the writer and the epoch that it returns.
  pub current_writer-Grants : current_writer sha256 ingress s ≡ ok a → Grants sha256 ingress s a
  unfolding current_writer writer_of
  current_writer-Grants h =
      let unfinished = runtime_error "unfinished operation has no current writer authority" in
      let chosen = λ (row : OperationRow). writer_of sha256 ingress row (steps_of row.id s.db) in
      let found = some_complete (last_complete s.db.operations) >>= chosen in
      let (u, held, h1) =
        bind-eq-ok (authority_of s.journal s.disk)
          (λ _. raise_if (has_unfinished s.db) unfinished >> found) h in
      let (idle, h2) = after_raise_if (has_unfinished s.db) unfinished found h1 in
      let (row, b, h3) = bind-eq-ok (some_complete (last_complete s.db.operations)) chosen h2 in
      let steps = steps_of row.id s.db in
      let named : Authority = record {
        operation = row.id;
        writer = row.target;
        epoch = row.new_epoch;
      } in
      let differs = runtime_error "completed operation journal differs" in
      let compared = λ (route : Value) (bytes : List ℕ).
        raise_if (not (exact_route route row.target row.new_epoch (sha256 bytes)))
          (runtime_error "completed route differs from writer authority")
        >> ok named in
      let routed = λ (route : Value). ingress >>= compared route in
      let loaded = route_value (done_row "route" steps) >>= routed in
      let marked = λ (plan : List String).
        raise_if (not (map mark steps == expected plan) || not (plain_intents steps)) differs
        >> loaded in
      let (plan, c, h4) = bind-eq-ok (phase_plan row.source row.target) marked h3 in
      let (d, h5) =
        after_raise_if (not (map mark steps == expected plan) || not (plain_intents steps)) differs
          loaded h4 in
      let (m, _) =
        ||-eq-false (not (map mark steps == expected plan)) (not (plain_intents steps)) d in
      let (route, e, h6) = bind-eq-ok (route_value (done_row "route" steps)) routed h5 in
      let (bytes, f, h7) = bind-eq-ok ingress (compared route) h6 in
      let (g, h8) =
        after_not (exact_route route row.target row.new_epoch (sha256 bytes)) _ (ok named) h7 in
      let (route_row, listed, loads_to) = route_value_lem (done_row "route" steps) e in
      record {
        authorised = held;
        none_unfinished = idle;
        row = row;
        last =
            last_complete-IsLast s.db.operations
              (some_complete_lem (last_complete s.db.operations) b);
        authority = sym (ok-injective h8);
        plan = plan;
        planned = c;
        all_done = (list_beq_iff (map mark steps) (expected plan)).0 (not-eq-false _ m);
        route_row = route_row;
        route = route;
        listed = listed;
        loaded = loads_to;
        bytes = bytes;
        read = f;
        exact = exact_route-RoutesTo route row.target row.new_epoch (sha256 bytes) g;
      }
