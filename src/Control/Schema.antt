-- ===== src/Control/Schema.antt =====
-- hat/control.py: `_journal_schema` with `_check_table`, `_check_indexes` and `_check_constraints`,
-- which recognise the generation of a journal. What SQLite says of the open database is a record,
-- Catalog.
pub mod Examples
use Prim.Native.String.{◌++◌ as append}
use highly_available_trailba.Prelude.{
  ℕ, Bool, true, false, ◌&&◌, ◌||◌, not, String, List, [], ◌∷◌, ◌++◌, map, Option, none, some, ◌==◌,
  nat_eq, string_eq, list_eq, pair_eq, any, all, contains, length, Result, ok, raise, raise_if, Exc,
  value_error, if◌then◌else◌, bind, list_beq,
}
use highly_available_trailba.Fallible.{◌>>=◌, ◌>>◌}
use highly_available_trailba.Py.Text.{codes, strip_prefix}
use highly_available_trailba.Control.Rows.{Contract, legacy, acceptance}
use highly_available_trailba.Control.Ddl.{canonical_ddl}

-- What a row of `PRAGMA table_xinfo` says after its number: the name and the declared type, whether
-- it may be null, its default, its place in the primary key, and whether it is hidden. NULL is the
-- empty list.
abbrev pub Column : Type 0
Column = String × (String × (ℕ × (List String × (ℕ × ℕ))))

-- a row of `PRAGMA index_list`: name, unique, origin, partial
abbrev pub Index : Type 0
Index = String × (ℕ × (String × ℕ))

-- how an insertion into the probe ends: done, refused with an IntegrityError, or failed
pub data Insertion : Type 0 where
  inserted refused : Insertion
  failed : Exc → Insertion

-- What SQLite says of the journal: `sqls` the statements of the schema, `objects` what it declares,
-- `intact` that the integrity check says ok and `foreign_key_errors` what the foreign key check
-- lists; `info` the columns of an index, by its number and name. `script` is how the schema's
-- statements run on an empty database, `good` and `bad` how the probes' insertions end there, in
-- the program's order.
pub record Catalog : Type 0 where
  pub sqls : List (String × List ℕ)
  pub objects : List (String × String)
  pub intact : Bool
  pub foreign_key_errors : ℕ
  pub operation_columns : List Column
  pub step_columns : List Column
  pub operation_indexes : List Index
  pub step_indexes : List Index
  pub info : String → List (ℕ × List String)
  pub foreign_keys : List (ℕ × (ℕ × List String))
  pub script : Result (Unit {0})
  pub good : List Insertion
  pub bad : List Insertion

-- _OPERATIONS_LEGACY_SQL, up to its last character
abbrev operations_head : String
operations_head =
    append
      "CREATE TABLE operations (\n    id TEXT PRIMARY KEY, source TEXT NOT NULL, target TEXT NOT NULL,\n"
      (append "    source_epoch TEXT NOT NULL, new_epoch TEXT NOT NULL UNIQUE,\n"
        "    complete INTEGER NOT NULL DEFAULT 0 CHECK(complete IN (0,1))")

abbrev pub operations_legacy_sql : String
operations_legacy_sql = append operations_head ")"

abbrev pub operations_sql : String
operations_sql =
    append operations_head
      ",\n    restore_contract TEXT NOT NULL DEFAULT 'legacy' CHECK(restore_contract IN ('legacy','hat-restore-acceptance-1')))"

abbrev pub steps_sql : String
steps_sql =
    append
      "CREATE TABLE steps (\n    operation TEXT NOT NULL REFERENCES operations(id), position INTEGER NOT NULL,\n"
      (append "    phase TEXT NOT NULL, status TEXT NOT NULL CHECK(status IN ('intent','done')),\n"
        "    evidence TEXT NOT NULL, PRIMARY KEY(operation,position,status))")

abbrev pub unfinished_sql : String
unfinished_sql = "CREATE UNIQUE INDEX one_unfinished ON operations(complete) WHERE complete=0"

abbrev pub damaged : Exc
damaged = value_error "unrecognized or damaged journal; reconciliation required"

unfoldable pub sql_of : String → List (String × List ℕ) → Option (List ℕ)
sql_of name [] = none
sql_of name ((n, sql) ∷ rest) =
    let later = sql_of name rest in if n == name then some sql else later

-- `name in actual_sql and _canonical_ddl(actual_sql[name]) == _canonical_ddl(expected_sql[name])`
unfoldable pub is_declared : List (String × List ℕ) → String → String → Result Bool
unfolding sql_of canonical_ddl list_beq
is_declared sqls name expected = elim (sql_of name sqls) [
  | none ↦ ok false
  | some sql ↦
      bind (canonical_ddl sql) (λ a. bind (canonical_ddl (codes expected)) (λ b. ok (a == b)))
]

-- the three declarations, the first that differs decides
unfoldable pub are_declared : List (String × List ℕ) → List (String × String) → Result Bool
unfolding is_declared
are_declared sqls [] = ok true
are_declared sqls ((name, expected) ∷ rest) =
    bind (is_declared sqls name expected)
      (λ b. elim b [ true ↦ are_declared sqls rest | false ↦ ok false ])

abbrev pub declarations : String → List (String × String)
declarations operations =
    ("operations", operations) ∷ ("steps", steps_sql) ∷ ("one_unfinished", unfinished_sql) ∷ []

-- the legacy generation or the new one
unfoldable pub check_declarations : List (String × List ℕ) → Result (Unit {0})
unfolding are_declared
check_declarations sqls = bind (are_declared sqls (declarations operations_legacy_sql)) (λ old.
    elim old [
      | true ↦ ok tt
      | false ↦
          bind (are_declared sqls (declarations operations_sql)) (λ new. raise_if (not new) damaged)
    ])

abbrev pub column : String → String → ℕ → List String → ℕ → Column
column name type not_null default key = (name, (type, (not_null, (default, (key, 0)))))

abbrev pub legacy_columns : List Column
legacy_columns =
    column "id" "TEXT" 0 [] 1
    ∷ column "source" "TEXT" 1 [] 0
    ∷ column "target" "TEXT" 1 [] 0
    ∷ column "source_epoch" "TEXT" 1 [] 0
    ∷ column "new_epoch" "TEXT" 1 [] 0
    ∷ column "complete" "INTEGER" 1 ("0" ∷ []) 0
    ∷ []

abbrev pub new_columns : List Column
new_columns = legacy_columns ++ column "restore_contract" "TEXT" 1 ("'legacy'" ∷ []) 0 ∷ []

abbrev pub steps_columns : List Column
steps_columns =
    column "operation" "TEXT" 1 [] 1
    ∷ column "position" "INTEGER" 1 [] 2
    ∷ column "phase" "TEXT" 1 [] 0
    ∷ column "status" "TEXT" 1 [] 3
    ∷ column "evidence" "TEXT" 1 [] 0
    ∷ []

unfoldable pub columns_beq : List Column → List Column → Bool
columns_beq a b = ◌==◌ {A = List (String × (String × (ℕ × (List String × (ℕ × ℕ)))))} a b

abbrev pub hidden : Column → ℕ
hidden c = c.1.1.1.1.1

-- `_check_table`
unfoldable pub check_table : List Column → List Column → Result (Unit {0})
unfolding columns_beq
check_table actual expected =
    raise_if (any (λ c. not (hidden c == 0)) actual || not (columns_beq actual expected))
      (value_error "unrecognized journal table")

abbrev is_unfinished_index : Index → Bool
is_unfinished_index r = r.0 == "one_unfinished" && r.1.0 == 1 && r.1.1.0 == "c" && r.1.1.1 == 1

-- an index of its own without columns
unfoldable pub is_bare : Catalog → Index → Bool
is_bare c r =
    not (r.1.1.1 == 0)
    && (elim (strip_prefix (codes "sqlite_autoindex_") (codes r.0)) [
      | none ↦ false
      | some rest ↦ true
    ])
    && length (c.info r.0) == 0

-- the first column of an index is one of those expected
unfoldable pub begins_in : Catalog → List String → Index → Bool
begins_in c names r = elim (c.info r.0) [
  | [] ↦ false
  | (n, name) ∷ rest ↦ any (λ e. name == e ∷ []) names
]

abbrev unrecognized_index : Exc
unrecognized_index = value_error "unrecognized journal index"

abbrev unrecognized_indexes : Exc
unrecognized_indexes = value_error "unrecognized journal indexes"

abbrev unfinished_info : List (ℕ × List String)
unfinished_info = (5, "complete" ∷ []) ∷ []

-- `_check_indexes`
unfoldable pub check_indexes : Catalog → Result (Unit {0})
unfolding is_bare begins_in list_beq strip_prefix
check_indexes c = do
  raise_if
      (not (length c.operation_indexes == 3) || not (any is_unfinished_index c.operation_indexes))
      unrecognized_indexes
  raise_if (not (length c.step_indexes == 0) && not (length c.step_indexes == 1))
      unrecognized_indexes
  raise_if (not (◌==◌ {A = List (ℕ × List String)} (c.info "one_unfinished") unfinished_info))
      unrecognized_index
  raise_if (any (is_bare c) c.operation_indexes) unrecognized_index
  raise_if (not (any (begins_in c ("id" ∷ "new_epoch" ∷ [])) c.operation_indexes))
      unrecognized_index
  raise_if (any (is_bare c) c.step_indexes) unrecognized_index

abbrev differs : Exc
differs = value_error "journal constraints differ"

-- insertions that must be done
unfoldable pub all_inserted : List Insertion → Result (Unit {0})
all_inserted [] = ok tt
all_inserted (inserted ∷ rest) = all_inserted rest
all_inserted (refused ∷ rest) = raise differs
all_inserted (failed e ∷ rest) = raise e

-- and those that must be refused
unfoldable pub all_refused : List Insertion → Result (Unit {0})
all_refused [] = ok tt
all_refused (inserted ∷ rest) = raise differs
all_refused (refused ∷ rest) = all_refused rest
all_refused (failed e ∷ rest) = raise e

abbrev steps_key : List (ℕ × (ℕ × List String))
steps_key =
    (0, (0, "operations" ∷ "operation" ∷ "id" ∷ "NO ACTION" ∷ "NO ACTION" ∷ "NONE" ∷ [])) ∷ []

-- `_check_constraints`
unfoldable pub check_constraints : Catalog → Result (Unit {0})
unfolding all_inserted all_refused
check_constraints c = do
  raise_if (not (◌==◌ {A = List (ℕ × (ℕ × List String))} c.foreign_keys steps_key))
      (value_error "unrecognized journal foreign key")
  c.script
  all_inserted c.good
  all_refused c.bad

unfoldable pub generation : List Column → Result Contract
unfolding columns_beq
generation columns =
    if columns_beq columns legacy_columns
    then ok legacy
    else if columns_beq columns new_columns
    then ok acceptance
    else raise damaged

abbrev is_object : String × String → Bool
is_object o =
    o.0 == "table" && (o.1 == "operations" || o.1 == "steps")
    || o.0 == "index" && o.1 == "one_unfinished"

abbrev has_object : List (String × String) → String × String → Bool
has_object os o = any (λ p. ◌==◌ {A = String × String} p o) os

-- `_schema_objects(db) == {...}`
unfoldable pub are_objects : List (String × String) → Bool
are_objects os =
    all is_object os
    && has_object os ("table", "operations")
    && has_object os ("table", "steps")
    && has_object os ("index", "one_unfinished")

-- `_journal_schema`; the column of contracts holds one of the two names by its type
unfoldable pub journal_schema : Catalog → Result Contract
unfolding check_declarations are_objects check_table check_indexes generation check_constraints
journal_schema c = do
  check_declarations c.sqls
  raise_if (not c.intact || not (c.foreign_key_errors == 0)) damaged
  raise_if (not (are_objects c.objects)) damaged
  check_table c.step_columns steps_columns
  check_indexes c
  contract ← generation c.operation_columns
  check_constraints c
  ok contract
