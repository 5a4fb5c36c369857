-- ===== src/Control/Schema/Examples.antt =====
-- The catalogs of the two generations.
use highly_available_trailba.Prelude.{
  ℕ, ◌≡◌, refl, true, String, List, [], ◌∷◌, ok, raise, ◌==◌, string_eq, if◌then◌else◌, list_beq,
  pair_beq,
}
use highly_available_trailba.Py.Text.{codes}
use highly_available_trailba.Control.Rows.{legacy, acceptance}
use highly_available_trailba.Control.Schema.{
  Catalog, Column, inserted, refused, operations_legacy_sql, operations_sql, steps_sql,
  unfinished_sql, legacy_columns, new_columns, steps_columns, journal_schema, damaged,
}

abbrev info : String → List (ℕ × List String)
info name =
    if name == "one_unfinished"
    then (5, "complete" ∷ []) ∷ []
    else if name == "sqlite_autoindex_operations_1"
    then (0, "id" ∷ []) ∷ []
    else (4, "new_epoch" ∷ []) ∷ []

abbrev pub catalog : String → List Column → Catalog
catalog sql columns = record {
  sqls =
      ("operations", codes sql)
      ∷ ("steps", codes steps_sql)
      ∷ ("one_unfinished", codes unfinished_sql)
      ∷ [];
  objects = ("table", "operations") ∷ ("index", "one_unfinished") ∷ ("table", "steps") ∷ [];
  intact = true;
  foreign_key_errors = 0;
  operation_columns = columns;
  step_columns = steps_columns;
  operation_indexes =
      ("one_unfinished", (1, ("c", 1)))
      ∷ ("sqlite_autoindex_operations_2", (1, ("u", 0)))
      ∷ ("sqlite_autoindex_operations_1", (1, ("pk", 0)))
      ∷ [];
  step_indexes = ("sqlite_autoindex_steps_1", (1, ("pk", 0))) ∷ [];
  info = info;
  foreign_keys =
      (0, (0, "operations" ∷ "operation" ∷ "id" ∷ "NO ACTION" ∷ "NO ACTION" ∷ "NONE" ∷ [])) ∷ [];
  script = ok tt;
  good = inserted ∷ inserted ∷ [];
  bad = refused ∷ refused ∷ refused ∷ refused ∷ [];
}

old_generation : journal_schema (catalog operations_legacy_sql legacy_columns) ≡ ok legacy
unfolding journal_schema list_beq pair_beq
old_generation = refl

new_generation : journal_schema (catalog operations_sql new_columns) ≡ ok acceptance
unfolding journal_schema list_beq pair_beq
new_generation = refl

-- another declaration of the table
other_table : journal_schema (catalog steps_sql legacy_columns) ≡ raise damaged
unfolding journal_schema list_beq pair_beq
other_table = refl
