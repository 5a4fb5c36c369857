-- ===== src/Admission/Table/Lookup.antt =====
-- What the statements on the admission table do to its rows.
use highly_available_trailba.Prelude.{
  ℕ, ◌≡◌, refl, sym, ◌∙◌, ◌⊎◌, inl, inr, Bool, true, false, String, List, [], ◌∷◌, ◌++◌, map,
  Option, none, some, ◌==◌, string_eq, nat_eq, eq_iff, find?, ok, raise, bind-eq-ok, Result-cases,
  Exc, arith,
}
use highly_available_trailba.Control.State.{commit_failed}
use highly_available_trailba.Control.Rows.Queries.{find?-append_none, find?-append_some}
use highly_available_trailba.Admission.Requests.{Request}
use highly_available_trailba.Admission.Table.{
  Status, Row, State, select, updated, new_row, commit, may_begin, begin, may_update, update,
  authority_of, unless_used,
}

-- An appended row is found under its own identity, if the table had none, and changes no other.
pub select-append_self :
    (r : Row) (rows : List Row)
    → select r.operation rows ≡ none
    → select r.operation (rows ++ r ∷ []) ≡ some r
unfolding select
select-append_self r rows h =
    find?-append_none (λ (q : Row). q.operation == r.operation) rows (r ∷ []) h
    ∙ ground (arith, eq_iff r.operation r.operation)

pub select-append_other :
    (k : String) (r : Row) (rows : List Row)
    → (r.operation == k) ≡ false
    → select k (rows ++ r ∷ []) ≡ select k rows
unfolding select
select-append_other k r rows h = go (find? (λ (q : Row). q.operation == k) rows) refl
  where
    go :
        (o : Option Row)
        → find? (λ (q : Row). q.operation == k) rows ≡ o
        → find? (λ (q : Row). q.operation == k) (rows ++ r ∷ [])
          ≡ find? (λ (q : Row). q.operation == k) rows
    go none e =
        find?-append_none (λ (q : Row). q.operation == k) rows (r ∷ []) e ∙ ground (arith, e)
    go (some x) e = find?-append_some (λ (q : Row). q.operation == k) rows (r ∷ []) e ∙ sym e

module _ (ident : String) (old new : Status) (upstream : Option ℕ) (digest evidence : Option String)
    (txid : Option ℕ) where
  -- An UPDATE keeps the identities, so each lookup gives the row that it gave, updated.
  pub select-updated :
      (k : String) (rows : List Row)
      → select k (map (updated ident old new upstream digest evidence txid) rows)
        ≡ elim (select k rows) [
          | none ↦ none
          | some r ↦ some (updated ident old new upstream digest evidence txid r)
        ]
  unfolding select updated
  select-updated k [] = refl
  select-updated k (x ∷ xs) = ground (arith, select-updated k xs)

module _ {W : Type 0} where
  pub commit-cases :
      (rows : List Row) (s : State W)
      → ((x : Exc) × (c : List Bool) × (commit rows s ≡ (raise x, record s { commits = c })))
        ⊎ ((c : List Bool) × (commit rows s ≡ (ok tt, record s { rows = rows; commits = c })))
  unfolding commit
  commit-cases rows s = go s.commits refl
    where
      go :
          (l : List Bool)
          → s.commits ≡ l
          → ((x : Exc) × (c : List Bool) × (commit rows s ≡ (raise x, record s { commits = c })))
            ⊎ ((c : List Bool) × (commit rows s ≡ (ok tt, record s { rows = rows; commits = c })))
      go [] e = inr ([], ground arith)
      go (true ∷ rest) e = inr (rest, ground arith)
      go (false ∷ rest) e = inl (commit_failed, rest, ground arith)

  may_begin-fresh :
      (ident : String) (s : State W) {u : Unit {0}}
      → may_begin ident s ≡ ok u
      → select ident s.rows ≡ none
  unfolding may_begin unless_used
  may_begin-fresh ident s h =
      let (a, ea, h1) = bind-eq-ok (authority_of s) (λ u. unless_used (select ident s.rows)) h in
      go (select ident s.rows) h1
    where
      go : (o : Option Row) {u : Unit {0}} → unless_used o ≡ ok u → o ≡ none
      go none h = refl
      go (some r) h = cc

  -- `begin` appends one row under an identity that the table did not have, or adds none.
  pub begin-cases :
      (q : Request) (digest database : String) (s : State W)
      → ((x : Exc) × (c : List Bool) × (begin q digest database s
            ≡ (raise x, record s { commits = c })))
        ⊎ ((c : List Bool) × (select q.operation_id s.rows ≡ none)
            × (begin q digest database s ≡ (
              ok tt,
              record s { rows = s.rows ++ new_row q digest database ∷ []; commits = c },
            )))
  unfolding begin
  begin-cases q digest database s = elim (Result-cases (may_begin q.operation_id s)) [
    | inl (x, e) ↦ inl (x, s.commits, rw (begin, e) refl)
    | inr (u, e) ↦ elim (commit-cases (s.rows ++ new_row q digest database ∷ []) s) [
      | inl (x, c, h) ↦ inl (x, c, rw (begin, e) h)
      | inr (c, h) ↦ inr (c, may_begin-fresh q.operation_id s e, rw (begin, e) h)
    ]
  ]

  -- An identity that the table has is refused, with nothing changed.
  pub begin-used :
      (q : Request) (digest database : String) (s : State W) {r : Row}
      → select q.operation_id s.rows ≡ some r
      → (x : Exc) × (begin q digest database s ≡ (raise x, s))
  unfolding begin
  begin-used q digest database s {r} used = elim (Result-cases (may_begin q.operation_id s)) [
    | inl (x, e) ↦ (x, rw (begin, e) refl)
    | inr (u, e) ↦ let f = may_begin-fresh q.operation_id s e in cc
  ]

  -- `update` rewrites the row, or leaves the table alone.
  pub update-cases :
      (ident : String) (old new : Status) (upstream : Option ℕ) (digest evidence : Option String)
      (txid : Option ℕ) (s : State W)
      → ((x : Exc) × (c : List Bool) × (update ident old new upstream digest evidence txid s
            ≡ (raise x, record s { commits = c })))
        ⊎ ((c : List Bool) × (update ident old new upstream digest evidence txid s ≡ (
          ok tt,
          record s {
            rows = map (updated ident old new upstream digest evidence txid) s.rows;
            commits = c;
          },
        )))
  unfolding update
  update-cases ident old new upstream digest evidence txid s =
      elim (Result-cases (may_update ident old s)) [
        | inl (x, e) ↦ inl (x, s.commits, rw (update, e) refl)
        | inr (u, e) ↦
            elim (commit-cases (map (updated ident old new upstream digest evidence txid) s.rows)
              s) [
                | inl (x, c, h) ↦ inl (x, c, rw (update, e) h)
                | inr (c, h) ↦ inr (c, rw (update, e) h)
              ]
      ]
