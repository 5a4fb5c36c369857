-- ===== src/Acceptance/Protected/Unique.antt =====
-- What an accepted ledger does not say twice.
use highly_available_trailba.Prelude.{
  ℕ, ◌≡◌, refl, subst, Bool, true, false, String, List, [], ◌∷◌, nat_eq, string_eq, pair_eq, All,
  Result, ok, raise, raise_if, or_raise, bind-eq-ok, ok-injective, value_error, if◌then◌else◌,
  after_raise_if,
}
use highly_available_trailba.Fallible.{◌>>=◌, ◌>>◌}
use highly_available_trailba.Py.Value.{Value, get, py_eq}
use highly_available_trailba.Py.Sorting.{is_distinct}
use highly_available_trailba.Acceptance.Protected.{
  SeenRecords, smoke_pass, auth_frame, current_pair, is_current_pair, canonical_id, history,
  after_smoke, pairs, judge_frames, frames_of, lines_of, protected_ledger, has_mark,
}
use highly_available_trailba.Acceptance.Protected.Frames.{
  are_distinct, IsUnique, row_key, acknowledged_in, ids_in, IsIdentified, history-Adds,
  current_pair-Adds,
}

-- What the frames after the first are, and what they add to what was seen before: a pair for each table, the smoke
-- marker, and the rows of the past.
data Says (seen : SeenRecords) : List String → List Value → List String → List ℕ → Type 0 where
  says_past :
      (smoke : Value) (past : List Value) {keys : List String} {ids : List ℕ}
      → py_eq smoke smoke_pass ≡ true
      → All IsIdentified past
      → seen.keys ≡ acknowledged_in past keys
      → seen.ids ≡ ids_in past ids
      → Says seen [] (smoke ∷ past) keys ids
  says_pair :
      {api : String} {apis : List String} (sub ack : Value) {rows : List Value} (ident : ℕ)
      {keys : List String} {ids : List ℕ}
      → is_current_pair api sub ack ≡ true
      → canonical_id (get ack "id") ≡ ok ident
      → Says seen apis rows (row_key sub ∷ keys) (ident ∷ ids)
      → Says seen (api ∷ apis) (sub ∷ ack ∷ rows) keys ids

after_smoke-Says :
    (rows : List Value) (before : SeenRecords) {seen : SeenRecords}
    → after_smoke rows before ≡ ok seen
    → (IsUnique before → IsUnique seen) × Says seen [] rows before.keys before.ids
unfolding after_smoke
after_smoke-Says [] before h = cc
after_smoke-Says (v ∷ rows) before {seen} h = go (py_eq v smoke_pass) refl h
  where
    go :
        (b : Bool)
        → py_eq v smoke_pass ≡ b
        → (if b
            then history rows before
            else raise (value_error "protected ledger smoke marker is invalid"))
          ≡ ok seen
        → (IsUnique before → IsUnique seen) × Says seen [] (v ∷ rows) before.keys before.ids
    go true e h = let (u, k, i, all) = history-Adds rows before h in (u, says_past v rows e all k i)
    go false e h = cc

pairs-Says :
    (apis : List String) (rows : List Value) (before : SeenRecords) {seen : SeenRecords}
    → pairs apis rows before ≡ ok seen
    → (IsUnique before → IsUnique seen) × Says seen apis rows before.keys before.ids
unfolding pairs
pairs-Says [] rows before h = after_smoke-Says rows before h
pairs-Says (api ∷ apis) [] before h = cc
pairs-Says (api ∷ apis) (sub ∷ []) before h = cc
pairs-Says (api ∷ apis) (sub ∷ ack ∷ rows) before {seen} h =
    let (next, a, h1) = bind-eq-ok (current_pair api sub ack before) (pairs apis rows) h in
    let one = current_pair-Adds api sub ack before a in
    let (u, says) = pairs-Says apis rows next h1 in
    (
      λ v. u (one.unique v),
      says_pair sub ack one.ident one.is_pair one.is_id (
          subst (λ ids. Says seen apis rows (row_key sub ∷ before.keys) ids) one.ids
            (subst (λ keys. Says seen apis rows keys next.ids) one.keys says)),
    )

-- A ledger of a frame of tokens, a pair of each table, the smoke marker and the past, in which no key and no identity
-- is there twice: those of the rows of the past that are acknowledged, and one of each pair.
pub record IsUniqueLedger (rows : List Value) : Type 0 where
  pub first : Value
  pub sub_main : Value
  pub ack_main : Value
  pub sub_aux : Value
  pub ack_aux : Value
  pub smoke : Value
  pub past : List Value
  pub id_main : ℕ
  pub id_aux : ℕ
  pub shape : rows ≡ first ∷ sub_main ∷ ack_main ∷ sub_aux ∷ ack_aux ∷ smoke ∷ past
  pub main_pair : is_current_pair "main_ops" sub_main ack_main ≡ true
  pub aux_pair : is_current_pair "aux_ops" sub_aux ack_aux ≡ true
  pub main_id : canonical_id (get ack_main "id") ≡ ok id_main
  pub aux_id : canonical_id (get ack_aux "id") ≡ ok id_aux
  pub marker : py_eq smoke smoke_pass ≡ true
  pub identified : All IsIdentified past
  pub keys : is_distinct (acknowledged_in past (row_key sub_aux ∷ row_key sub_main ∷ [])) ≡ true
  pub ids : are_distinct (ids_in past (id_aux ∷ id_main ∷ [])) ≡ true

Says-IsUniqueLedger :
    (first : Value) (rows : List Value) (seen : SeenRecords)
    → IsUnique seen
    → Says seen ("main_ops" ∷ "aux_ops" ∷ []) rows [] []
    → IsUniqueLedger (first ∷ rows)
Says-IsUniqueLedger first rows seen u
      (says_pair sub_main ack_main id_main p i
        (says_pair sub_aux ack_aux id_aux q j (says_past smoke past e all k l))) =
    record {
      first = first;
      sub_main = sub_main;
      ack_main = ack_main;
      sub_aux = sub_aux;
      ack_aux = ack_aux;
      smoke = smoke;
      past = past;
      id_main = id_main;
      id_aux = id_aux;
      shape = refl;
      main_pair = p;
      aux_pair = q;
      main_id = i;
      aux_id = j;
      marker = e;
      identified = all;
      keys = subst (λ ks. is_distinct ks ≡ true) k u.keys;
      ids = subst (λ ns. are_distinct ns ≡ true) l u.ids;
    }

judge_frames-IsUniqueLedger :
    (rows : List Value) {seen : SeenRecords} → judge_frames rows ≡ ok seen → IsUniqueLedger rows
unfolding judge_frames is_distinct are_distinct
judge_frames-IsUniqueLedger [] h = cc
judge_frames-IsUniqueLedger (v ∷ rows) {seen} h =
    let (pair, _, h1) =
      bind-eq-ok (auth_frame v)
        (λ pair.
          pairs ("main_ops" ∷ "aux_ops" ∷ []) rows
            (record { keys = []; ids = []; pairs = pair ∷ [] }))
        h in
    let (u, says) =
      pairs-Says ("main_ops" ∷ "aux_ops" ∷ []) rows
        (record { keys = []; ids = []; pairs = pair ∷ [] }) h1 in
    Says-IsUniqueLedger v rows seen (u (record { keys = refl; ids = refl })) says

module _ (parse : List ℕ → Result Value) where
  -- A ledger that `_protected_ledger` accepts has a first frame, the pair of main_ops and that of aux_ops, the smoke
  -- marker and the rows of the past. Every row of the past that is acknowledged has an identity, as the two
  -- pairs have; of these rows and the two pairs together, no two have the same key `api/op_key` and no two
  -- the same identity.
  pub protected_ledger-IsUnique :
      (raw : List ℕ) {rows : List Value}
      → protected_ledger parse raw ≡ ok rows
      → IsUniqueLedger rows
  unfolding protected_ledger
  protected_ledger-IsUnique raw {rows} h =
      let judged = λ (rows : List Value). judge_frames rows >>= λ seen. ok rows in
      let read =
        or_raise (frames_of parse (lines_of [] raw))
          (value_error "protected ledger is malformed") in
      let (_, _, h1) =
        bind-eq-ok (raise_if _ _)
          (λ _.
            raise_if (has_mark raw) (value_error "protected ledger encoding is invalid")
            >> (read >>= judged))
          h in
      let (_, h2) =
        after_raise_if (has_mark raw) (value_error "protected ledger encoding is invalid")
          (read >>= judged) h1 in
      let (frames, _, h3) = bind-eq-ok read judged h2 in
      let (seen, a, h4) = bind-eq-ok (judge_frames frames) (λ seen. ok frames) h3 in
      subst IsUniqueLedger (ok-injective h4) (judge_frames-IsUniqueLedger frames a)
