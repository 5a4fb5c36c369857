-- ===== src/Control/Rows/Queries.antt =====
-- What the statements on the journal's tables do to the queries.
use highly_available_trailba.Prelude.{
  ◌≡◌, refl, ap, sym, ◌∙◌, subst, ◌⊎◌, Bool, true, false, ◌||◌, String, List, [], ◌∷◌, ◌++◌, map,
  Option, none, some, ◌==◌, string_eq, nat_eq, eq_iff, any, find?, ok, if◌then◌else◌, Bool-cases,
  inl, inr, arith,
}
use highly_available_trailba.Py.Value.{Value}
use highly_available_trailba.Control.Phases.{status_eq}
use highly_available_trailba.Control.Rows.{
  OperationRow, StepRow, Db, mark, select_operation, has_unfinished, rows_of, Column, dumped, dumps,
  insert_operation, insert_step, completed, set_complete,
}

-- find? over an append and a map
module _ {ℓ} {A : Type ℓ} (p : A → Bool) where
  pub find?-append_some :
      (xs ys : List A) {a : A} → find? p xs ≡ some a → find? p (xs ++ ys) ≡ some a
  find?-append_some [] ys h = cc
  find?-append_some (x ∷ xs) ys {a} h = ground (arith, find?-append_some xs ys {a = a})

  pub find?-append_none : (xs ys : List A) → find? p xs ≡ none → find? p (xs ++ ys) ≡ find? p ys
  find?-append_none [] ys h = refl
  find?-append_none (x ∷ xs) ys h = ground (arith, find?-append_none xs ys)

  pub find?-passes : (xs : List A) {a : A} → find? p xs ≡ some a → p a ≡ true
  find?-passes [] h = cc
  find?-passes (x ∷ xs) {a} h = elim (Bool-cases (p x)) [
    | inl t ↦ let e : x ≡ a = ground arith in subst (λ y. p y ≡ true) e t
    | inr f ↦ find?-passes xs (ground arith)
  ]

  pub find?-none : (xs : List A) → any p xs ≡ false → find? p xs ≡ none
  find?-none [] h = refl
  find?-none (x ∷ xs) h = ground (arith, find?-none xs)

  pub any-find? : (xs : List A) {a : A} → find? p xs ≡ some a → any p xs ≡ true
  any-find? [] h = cc
  any-find? (x ∷ xs) {a} h = ground (arith, any-find? xs {a = a})

  pub find?-of_any : (xs : List A) → any p xs ≡ true → (a : A) × (find? p xs ≡ some a)
  find?-of_any [] h = cc
  find?-of_any (x ∷ xs) h = elim (Bool-cases (p x)) [
    | inl t ↦ (x, ground arith)
    | inr f ↦ let r = find?-of_any xs (ground arith) in (r.0, ground (arith, r.1))
  ]

-- The id of a selected row is the id asked for.
pub select_operation-id :
    (ident : String) (db : Db) {r : OperationRow}
    → select_operation ident db ≡ some r
    → r.id ≡ ident
unfolding select_operation
select_operation-id ident db {r} h =
    (eq_iff r.id ident).0 (find?-passes (λ (q : OperationRow). q.id == ident) db.operations h)

pub rows_of-append :
    (ident : String) (xs ys : List StepRow)
    → rows_of ident (xs ++ ys) ≡ rows_of ident xs ++ rows_of ident ys
rows_of-append ident [] ys = refl
rows_of-append ident (x ∷ xs) ys = ground (arith, rows_of-append ident xs ys)

-- A row that is added to the table is the last one of its operation, and of no other.
pub rows_of-snoc :
    (ident : String) (xs : List StepRow) (s : StepRow)
    → rows_of ident (xs ++ s ∷ [])
      ≡ rows_of ident xs ++ (if s.operation == ident then s ∷ [] else [])
rows_of-snoc ident xs s = rows_of-append ident xs (s ∷ [])

pub map-mark-append : (xs ys : List StepRow) → map mark (xs ++ ys) ≡ map mark xs ++ map mark ys
map-mark-append [] ys = refl
map-mark-append (x ∷ xs) ys = ap (λ l. mark x ∷ l) (map-mark-append xs ys)

-- An inserted step leaves the operations alone and comes last.
pub insert_step_lem :
    (s : StepRow) (db : Db) {db' : Db}
    → insert_step s db ≡ ok db'
    → db' ≡ record db { steps = db.steps ++ s ∷ [] }
unfolding insert_step
insert_step_lem s db h = ground arith

-- An inserted operation has a fresh id, is the only unfinished one, and comes last.
pub insert_operation_lem :
    (r : OperationRow) (db : Db) {db' : Db}
    → r.complete ≡ false
    → insert_operation r db ≡ ok db'
    → (db' ≡ record db { operations = db.operations ++ r ∷ [] })
      × (any (λ q. q.id == r.id || q.new_epoch == r.new_epoch) db.operations ≡ false)
      × (has_unfinished db ≡ false)
unfolding insert_operation
insert_operation_lem r db u h = ground arith

any-weaken :
    {A : Type 0} (p q : A → Bool) (xs : List A)
    → any (λ x. p x || q x) xs ≡ false
    → any p xs ≡ false
any-weaken p q [] h = refl
any-weaken p q (x ∷ xs) h = ground (arith, any-weaken p q xs)

pub select-insert_self :
    (r : OperationRow) (db : Db)
    → any (λ q. q.id == r.id || q.new_epoch == r.new_epoch) db.operations ≡ false
    → (select_operation r.id db ≡ none)
      × (select_operation r.id (record db { operations = db.operations ++ r ∷ [] }) ≡ some r)
unfolding select_operation
select-insert_self r db h =
    let fresh =
      find?-none (λ (q : OperationRow). q.id == r.id) db.operations
        (any-weaken (λ (q : OperationRow). q.id == r.id) (λ q. q.new_epoch == r.new_epoch)
          db.operations h) in
    (
      fresh,
      find?-append_none (λ (q : OperationRow). q.id == r.id) db.operations (r ∷ []) fresh
          ∙ ground (arith, eq_iff r.id r.id),
    )

pub select-insert :
    (ident : String) (r : OperationRow) (db : Db) {q : OperationRow}
    → select_operation ident (record db { operations = db.operations ++ r ∷ [] }) ≡ some q
    → (select_operation ident db ≡ some q) ⊎ ((q ≡ r) × (select_operation ident db ≡ none))
unfolding select_operation
select-insert ident r db {q} h = go (find? (λ (o : OperationRow). o.id == ident) db.operations) refl
  where
    go :
        (o : Option OperationRow)
        → find? (λ (o : OperationRow). o.id == ident) db.operations ≡ o
        → (find? (λ (o : OperationRow). o.id == ident) db.operations ≡ some q)
          ⊎ ((q ≡ r) × (find? (λ (o : OperationRow). o.id == ident) db.operations ≡ none))
    go (some x) e = inl (
        e
        ∙ sym (find?-append_some (λ (o : OperationRow). o.id == ident) db.operations (r ∷ []) e)
        ∙ h)
    go none e = inr (
      ground
          (arith, find?-append_none (λ (o : OperationRow). o.id == ident) db.operations (r ∷ []) e),
      e,
    )

-- Completing an operation keeps every id, and touches no other operation.
pub select-set_complete :
    (ident k : String) (db : Db)
    → select_operation k (set_complete ident db)
      ≡ elim (select_operation k db) [ none ↦ none | some r ↦ some (completed ident r) ]
unfolding select_operation set_complete
select-set_complete ident k db = go db.operations
  where
    go :
        (xs : List OperationRow)
        → find? (λ (o : OperationRow). o.id == k) (map (completed ident) xs)
          ≡ elim (find? (λ (o : OperationRow). o.id == k) xs) [
            | none ↦ none
            | some r ↦ some (completed ident r)
          ]
    go [] = refl
    go (x ∷ xs) = ground (arith, go xs)

pub dumps_lem : (v : Value) {e : Column} → dumps v ≡ ok e → e ≡ dumped v
unfolding dumps
dumps_lem v h = ground arith
