-- ===== src/Acceptance/Protected/Frames.antt =====
-- What one frame of a ledger adds to what was seen, and what many do.
use Prim.Native.String.{◌++◌ as append}
use highly_available_trailba.Prelude.{
  ℕ, ◌≡◌, refl, ◌∙◌, sym, ap, subst, Bool, true, false, not, ◌&&◌, ◌||◌, String, List, [], ◌∷◌,
  ◌==◌, nat_eq, string_eq, pair_eq, any, contains, All, Exc, Result, ok, raise, raise_if, or_raise,
  bind-eq-ok, ok-injective, value_error, type_error, if◌then◌else◌, ||-eq-false, &&-eq-true,
  after_not, after_raise_if, eq_iff,
}
use highly_available_trailba.Fallible.{◌>>=◌, ◌>>◌}
use highly_available_trailba.Py.Value.{Value, str, get, is_text, has_keys}
use highly_available_trailba.Py.Sorting.{is_distinct}
use highly_available_trailba.Py.Access.{keys_are, get_of}
use highly_available_trailba.Ledger.Records.{is_positive}
use highly_available_trailba.Acceptance.Protected.{
  SeenRecords, is_seen, add_record, add_pair, token, key_in, current_pair, submitted_keys,
  acknowledged_keys, invalid_operation, is_submission_to, is_current_pair, canonical_id, table_in,
  invalid_history, invalid_history_auth, is_record, is_pair_seen, historical_record,
  historical_auth, is_historical_record, is_historical_auth, historical, history,
}

-- no number of a list stands in it again
unfoldable pub are_distinct : List ℕ → Bool
are_distinct [] = true
are_distinct (n ∷ ns) = not (any (λ m. m == n) ns) && are_distinct ns

-- Neither a key nor an identity is there twice.
pub record IsUnique (seen : SeenRecords) : Type 0 where
  pub keys : is_distinct seen.keys ≡ true
  pub ids : are_distinct seen.ids ≡ true

add_record-IsUnique :
    (key : String) (ident : ℕ) (seen : SeenRecords)
    → is_seen key ident seen ≡ false
    → IsUnique seen
    → IsUnique (add_record key ident seen)
unfolding is_seen is_distinct are_distinct
add_record-IsUnique key ident seen h u =
    let (a, b) = ||-eq-false (contains seen.keys key) (any (λ n. n == ident) seen.ids) h in
    record { keys = rw (is_distinct, a) u.keys; ids = rw (are_distinct, b, u.ids) refl }

-- `api/op_key` of a row, as text
pub row_text : Value → String
row_text (str s) = s
row_text v = ""

pub row_key : Value → String
row_key row =
    append (row_text (get row "api")) (append "/" (row_text (get (get row "row") "op_key")))

-- the identity of a row, before those of `ids`
unfoldable pub with_id : Value → List ℕ → List ℕ
unfolding canonical_id
with_id row ids = elim (canonical_id (get row "id")) as (λ _. List ℕ) [
  | ok n ↦ n ∷ ids
  | raise e ↦ ids
]

-- the keys of the rows that are acknowledged, the last first, before those of `keys`
unfoldable pub acknowledged_in : List Value → List String → List String
unfolding is_text row_key row_text
acknowledged_in [] keys = keys
acknowledged_in (row ∷ rows) keys =
    acknowledged_in rows
      (if is_text "acknowledged" (get row "event") then row_key row ∷ keys else keys)

-- the identities of the rows that are acknowledged, the last first, before those of `ids`
unfoldable pub ids_in : List Value → List ℕ → List ℕ
unfolding is_text with_id
ids_in [] ids = ids
ids_in (row ∷ rows) ids =
    ids_in rows (if is_text "acknowledged" (get row "event") then with_id row ids else ids)

-- a row that is acknowledged has an identity
abbrev pub IsIdentified : Value → Type 0
IsIdentified row =
    is_text "acknowledged" (get row "event") ≡ true → (n : ℕ) × (canonical_id (get row "id") ≡ ok n)

-- what one frame adds
record Adds (row : Value) (seen seen' : SeenRecords) : Type 0 where
  pub identified : IsIdentified row
  pub ids :
      seen'.ids
      ≡ (if is_text "acknowledged" (get row "event") then with_id row seen.ids else seen.ids)
  pub unique : IsUnique seen → IsUnique seen'
  pub keys :
      seen'.keys
      ≡ (if is_text "acknowledged" (get row "event") then row_key row ∷ seen.keys else seen.keys)

table_in_lem : (v : Value) {api : String} → table_in v ≡ ok api → row_text v ≡ api
unfolding table_in row_text
table_in_lem (str s) {api} h = go (s == "main_ops" || s == "aux_ops") h
  where
    go : (b : Bool) → (if b then ok s else raise invalid_history) ≡ ok api → s ≡ api
    go true h = ok-injective h
    go false h = cc
table_in_lem v h = cc

key_in_lem :
    (api : String) (v : Value) (e : Exc) {key : String}
    → key_in api v e ≡ ok key
    → key ≡ append api (append "/" (row_text v))
unfolding key_in row_text
key_in_lem api (str s) e h = sym (ok-injective h)
key_in_lem api v e h = cc

or_raise-eq-ok : {A : Type 0} (r : Result A) (e : Exc) {a : A} → or_raise r e ≡ ok a → r ≡ ok a
or_raise-eq-ok (ok b) e h = h
or_raise-eq-ok (raise x) e h = cc

with_id_lem :
    (row : Value) (ids : List ℕ) {n : ℕ}
    → canonical_id (get row "id") ≡ ok n
    → with_id row ids ≡ n ∷ ids
unfolding with_id
with_id_lem row ids h = rw (with_id, h) refl

historical_record-Adds :
    (row : Value) (seen : SeenRecords) {seen' : SeenRecords}
    → is_text "acknowledged" (get row "event") ≡ true
    → historical_record row seen ≡ ok seen'
    → Adds row seen seen'
unfolding historical_record row_key
historical_record-Adds row seen {seen'} acked h =
    let wrong = type_error "can only concatenate str" in
    let fields = get row "row" in
    let test = λ (key : String) (ident : ℕ).
      not (is_record fields && is_positive (get row "time_ns")) || is_seen key ident seen in
    let last = λ (key : String) (ident : ℕ).
      raise_if (test key ident) invalid_history >> ok (add_record key ident seen) in
    let named =
      λ (key : String). or_raise (canonical_id (get row "id")) invalid_history >>= last key in
    let keyed = λ (api : String). key_in api (get fields "op_key") wrong >>= named in
    let shaped = λ (api : String).
      raise_if (not (has_keys ("op_key" ∷ "payload" ∷ []) fields)) invalid_history >> keyed api in
    let (api, a, h1) = bind-eq-ok (table_in (get row "api")) shaped h in
    let (_, h2) =
      after_not (has_keys ("op_key" ∷ "payload" ∷ []) fields) invalid_history (keyed api) h1 in
    let (key, b, h3) = bind-eq-ok (key_in api (get fields "op_key") wrong) named h2 in
    let (ident, i, h4) =
      bind-eq-ok (or_raise (canonical_id (get row "id")) invalid_history) (last key) h3 in
    let is_id = or_raise-eq-ok (canonical_id (get row "id")) invalid_history i in
    let (c, h5) =
      after_raise_if (test key ident) invalid_history (ok (add_record key ident seen)) h4 in
    let (_, fresh) =
      ||-eq-false (not (is_record fields && is_positive (get row "time_ns")))
        (is_seen key ident seen) c in
    let is_key : row_key row ≡ key =
      ap (λ t. append t (append "/" (row_text (get fields "op_key"))))
        (table_in_lem (get row "api") a)
      ∙ sym (key_in_lem api (get fields "op_key") wrong b) in
    subst (λ x. Adds row seen x) (ok-injective h5)
      (record {
        unique = add_record-IsUnique key ident seen fresh;
        keys = rw (acked, is_key) refl;
        ids = rw (acked) (sym (with_id_lem row seen.ids is_id));
        identified = λ _. (ident, is_id);
      })

historical_auth-Adds :
    (row : Value) (seen : SeenRecords) {seen' : SeenRecords}
    → is_text "historical_auth" (get row "event") ≡ true
    → historical_auth row seen ≡ ok seen'
    → Adds row seen seen'
unfolding historical_auth is_text
historical_auth-Adds row seen {seen'} named h =
    let test = λ (pair : String × String).
      not (
        is_text "accepted" (get row "retained_expected")
        || is_text "denied" (get row "retained_expected"))
      || is_pair_seen pair seen in
    let last = λ (pair : String × String).
      raise_if (test pair) invalid_history_auth >> ok (add_pair pair seen) in
    let revoking = λ (retained : String).
      token (get row "revoked_refresh") invalid_history_auth >>= λ revoked.
      last (retained, revoked) in
    let (retained, _, h1) =
      bind-eq-ok (token (get row "retained_refresh") invalid_history_auth) revoking h in
    let (revoked, _, h2) =
      bind-eq-ok (token (get row "revoked_refresh") invalid_history_auth)
        (λ revoked. last (retained, revoked)) h1 in
    let (_, h3) =
      after_raise_if (test (retained, revoked)) invalid_history_auth
        (ok (add_pair (retained, revoked) seen)) h2 in
    subst (λ x. Adds row seen x) (ok-injective h3)
      (record {
        unique = λ u. record { keys = u.keys; ids = u.ids };
        keys = rw (other (get row "event") named) refl;
        ids = rw (other (get row "event") named) refl;
        identified = λ acked. let no = other (get row "event") named in cc;
      })
  where
    other : (v : Value) → is_text "historical_auth" v ≡ true → is_text "acknowledged" v ≡ false
    other (str s) h =
        subst (λ t. ("acknowledged" == t) ≡ false) ((eq_iff "historical_auth" s).0 h) refl
    other v h = cc

historical-Adds :
    (row : Value) (seen : SeenRecords) {seen' : SeenRecords}
    → historical row seen ≡ ok seen'
    → Adds row seen seen'
unfolding historical
historical-Adds row seen {seen'} h =
    go (is_historical_record row) (is_historical_auth row) refl refl h
  where
    go :
        (a b : Bool)
        → is_historical_record row ≡ a
        → is_historical_auth row ≡ b
        → (if a
            then historical_record row seen
            else if b
            then historical_auth row seen
            else raise (value_error "protected ledger historical frame is invalid"))
          ≡ ok seen'
        → Adds row seen seen'
    go true b e f h =
        historical_record-Adds row seen
          (&&-eq-true _ (is_text "acknowledged" (get row "event")) e).1 h
    go false true e f h =
        historical_auth-Adds row seen
          (&&-eq-true _ (is_text "historical_auth" (get row "event")) f).1 h
    go false false e f h = cc

pub history-Adds :
    (rows : List Value) (seen : SeenRecords) {seen' : SeenRecords}
    → history rows seen ≡ ok seen'
    → (IsUnique seen → IsUnique seen')
      × (seen'.keys ≡ acknowledged_in rows seen.keys)
      × (seen'.ids ≡ ids_in rows seen.ids)
      × All IsIdentified rows
unfolding history acknowledged_in ids_in
history-Adds [] seen h = (
  λ u. subst IsUnique (ok-injective h) u,
  ap (λ (x : SeenRecords). x.keys) (sym (ok-injective h)),
  ap (λ (x : SeenRecords). x.ids) (sym (ok-injective h)),
  tt,
)
history-Adds (row ∷ rows) seen h =
    let (next, a, h1) = bind-eq-ok (historical row seen) (history rows) h in
    let one = historical-Adds row seen a in
    let (u, k, i, all) = history-Adds rows next h1 in
    (
      λ v. u (one.unique v),
      k ∙ ap (acknowledged_in rows) one.keys,
      i ∙ ap (ids_in rows) one.ids,
      (one.identified, all),
    )

-- what a current pair adds
pub record AddsPair (api : String) (sub ack : Value) (seen seen' : SeenRecords) : Type 0 where
  pub ident : ℕ
  pub unique : IsUnique seen → IsUnique seen'
  pub is_pair : is_current_pair api sub ack ≡ true
  pub is_id : canonical_id (get ack "id") ≡ ok ident
  pub keys : seen'.keys ≡ row_key sub ∷ seen.keys
  pub ids : seen'.ids ≡ ident ∷ seen.ids

is_submission_to_lem :
    (api : String) (event sub : Value)
    → is_submission_to api event sub ≡ true
    → row_text (get sub "api") ≡ api
unfolding is_submission_to is_text row_text
is_submission_to_lem api event sub h =
    go (get sub "api") (&&-eq-true (is_text "submitted" event) _ h).1
  where
    go : (v : Value) → is_text api v ≡ true → row_text v ≡ api
    go (str t) h = sym ((eq_iff api t).0 h)
    go v h = cc

pub current_pair-Adds :
    (api : String) (sub ack : Value) (seen : SeenRecords) {seen' : SeenRecords}
    → current_pair api sub ack seen ≡ ok seen'
    → AddsPair api sub ack seen seen'
unfolding current_pair row_key
current_pair-Adds api sub ack seen {seen'} h =
    let twice = value_error "protected ledger operation is duplicated" in
    let op_key = get (get sub "row") "op_key" in
    let last = λ (key : String) (ident : ℕ).
      raise_if (is_seen key ident seen) twice >> ok (add_record key ident seen) in
    let named = λ (key : String). canonical_id (get ack "id") >>= last key in
    let keyed = key_in api op_key invalid_operation >>= named in
    let answered =
      λ (answer : Value). raise_if (not (is_current_pair api sub ack)) invalid_operation >> keyed in
    let told =
      λ (b : Bool). raise_if (not b) invalid_operation >> (get_of ack "event" >>= answered) in
    let sent = λ (event : Value).
      raise_if (not (is_submission_to api event sub)) invalid_operation
      >> (keys_are acknowledged_keys ack >>= told) in
    let (a, _, h1) =
      bind-eq-ok (keys_are submitted_keys sub)
        (λ a. raise_if (not a) invalid_operation >> (get_of sub "event" >>= sent)) h in
    let (_, h2) = after_not a invalid_operation (get_of sub "event" >>= sent) h1 in
    let (event, _, h3) = bind-eq-ok (get_of sub "event") sent h2 in
    let (to_api, h4) =
      after_not (is_submission_to api event sub) invalid_operation
        (keys_are acknowledged_keys ack >>= told) h3 in
    let (b, _, h5) = bind-eq-ok (keys_are acknowledged_keys ack) told h4 in
    let (_, h6) = after_not b invalid_operation (get_of ack "event" >>= answered) h5 in
    let (answer, _, h7) = bind-eq-ok (get_of ack "event") answered h6 in
    let (is_pair, h8) = after_not (is_current_pair api sub ack) invalid_operation keyed h7 in
    let (key, k, h9) = bind-eq-ok (key_in api op_key invalid_operation) named h8 in
    let (ident, is_id, h10) = bind-eq-ok (canonical_id (get ack "id")) (last key) h9 in
    let (fresh, h11) =
      after_raise_if (is_seen key ident seen) twice (ok (add_record key ident seen)) h10 in
    let is_key : row_key sub ≡ key =
      ap (λ t. append t (append "/" (row_text op_key))) (is_submission_to_lem api event sub to_api)
      ∙ sym (key_in_lem api op_key invalid_operation k) in
    subst (λ x. AddsPair api sub ack seen x) (ok-injective h11)
      (record {
        ident = ident;
        unique = add_record-IsUnique key ident seen fresh;
        is_pair = is_pair;
        is_id = is_id;
        keys = ap (λ t. t ∷ seen.keys) (sym is_key);
        ids = refl;
      })
