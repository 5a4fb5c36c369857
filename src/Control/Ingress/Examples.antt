-- ===== src/Control/Ingress/Examples.antt =====
-- An ingress that starts_again after a completed operation.
use highly_available_trailba.Prelude.{
  ℕ, Bool, true, false, not, ◌≡◌, refl, List, [], ◌∷◌, some, Result, ok, leb, pair_beq, list_beq,
}
use highly_available_trailba.Py.Value.{Value, obj, end}
use highly_available_trailba.Control.Phases.{status_beq}
use highly_available_trailba.Control.Rows.{Db}
use highly_available_trailba.Control.Schema.{operations_sql, new_columns, journal_schema}
use highly_available_trailba.Control.Schema.Examples.{catalog}
use highly_available_trailba.Control.Serving.Examples.{completed, recovering}
use highly_available_trailba.Acceptance.Samples.{print_nothing, digest_zero}
use highly_available_trailba.Control.Ingress.{
  Inode, Opened, missing, opened, Place, journal_db, ingress, permit, Sights,
}
use highly_available_trailba.Control.Ingress.Snapshot.{ingress_allowed}
use highly_available_trailba.Control.Ingress.Allowed.{Allowed}

abbrev inode : ℕ → Bool → ℕ → Inode
inode n is_directory size = record {
  stat = record {
    ident = (1, n);
    is_regular = not is_directory;
    is_directory = is_directory;
    uid = 7;
    mode = 0o600;
    nlink = 1;
  };
  size = size;
  stamp = 5;
}

abbrev files : Place → Opened
files journal_db = opened (inode 3 false 1) (0 ∷ []) (inode 3 false 1)
files ingress = opened (inode 4 false 0) [] (inode 4 false 0)
files p = missing

abbrev exists : Place → Bool
exists journal_db = true
exists ingress = true
exists p = false

-- nothing changes from one moment to the next
abbrev world : Db → (ℕ → Place → Opened) → Sights
world db open_at = record {
  euid = 7;
  open_at = open_at;
  exists_at = λ t p. exists p;
  is_link_at = λ t p. false;
  lstat_at = λ t p. some (inode 2 true 0);
  text_at = λ t p. ok [];
  mode_at = λ t. ok "delete";
  catalog_at = λ t. ok (catalog operations_sql new_columns);
  tables_at = λ t. ok db;
  process_at = λ t pid. ok [];
}

abbrev steady : Sights
steady = world completed.db (λ t p. files p)

abbrev loads_nothing : List ℕ → Result Value
loads_nothing raw = ok (obj end)

-- an unfinished recovery without its marker
unmarked :
    (ingress_allowed
      (world recovering (λ t p. files p))
      print_nothing
      digest_zero
      loads_nothing
      "boot"
      0).0
    ≡ ok false
unfolding ingress_allowed pair_beq list_beq status_beq journal_schema
unmarked = refl

-- a permit that appears while the decision is taken
abbrev late : ℕ → Place → Opened
late t permit = elim (leb t 20) [
  | true ↦ missing
  | false ↦ opened (inode 6 false 0) [] (inode 6 false 0)
]
late t p = files p

disturbed :
    (ingress_allowed (world completed.db late) print_nothing digest_zero loads_nothing "boot" 0).0
    ≡ ok false
unfolding ingress_allowed pair_beq list_beq status_beq journal_schema
disturbed = refl
