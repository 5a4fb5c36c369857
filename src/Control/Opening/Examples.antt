-- ===== src/Control/Opening/Examples.antt =====
-- Entering a journal of the first generation, and a new one.
use native.Mathlib.Omega.{arith}
use highly_available_trailba.Prelude.{
  ℕ, ◌≤◌, ◌≡◌, refl, true, false, [], ◌∷◌, none, some, some-injective, subst, ap, sym, ◌∙◌, ok,
  pair_beq, list_beq,
}
use highly_available_trailba.Control.Files.{Stat}
use highly_available_trailba.Control.Phases.{phase_plan, status_beq}
use highly_available_trailba.Control.Rows.{legacy, acceptance}
use highly_available_trailba.Control.State.{Journal}
use highly_available_trailba.Control.Journal.Sound.{unfinished, IsSound}
use highly_available_trailba.Control.Schema.{
  Catalog, operations_legacy_sql, operations_sql, legacy_columns, new_columns, journal_schema,
}
use highly_available_trailba.Control.Schema.Examples.{catalog}
use highly_available_trailba.Control.Legacy.{validate_legacy_rows}
use highly_available_trailba.Control.Legacy.Examples.{three_phases}
use highly_available_trailba.Control.Opening.{Entry, Store, Opening, enter, with_contract}
use highly_available_trailba.Control.Opening.Sound.{Ends, enter-Ends}

abbrev file : ℕ → Stat
file n = record {
  ident = (1, n);
  is_regular = true;
  is_directory = false;
  uid = 7;
  mode = 0o600;
  nlink = 1;
}

abbrev directory : Stat
directory = record {
  ident = (1, 2);
  is_regular = false;
  is_directory = true;
  uid = 7;
  mode = 0o40700;
  nlink = 2;
}

abbrev current_catalog : Catalog
current_catalog = catalog operations_sql new_columns

abbrev entry : Entry
entry = record {
  euid = 7;
  root = some directory;
  has_linked_parent = false;
  lock_opened = ok (1, 3);
  lock_stat = some (file 3);
  locked = ok tt;
  candidates = record { is_wal = false; is_there = true; stat = some (file 4) } ∷ [];
  exists = true;
  size = 4096;
  created = ok tt;
  connected = ok tt;
  set_up = ok tt;
  begun = ok tt;
  altered = λ c. ok current_catalog;
  script = (ok tt, current_catalog);
  first_synced = ok tt;
  reopened = ok tt;
  journal_stat = some (file 4);
  last_synced = ok tt;
}

abbrev unentered : Journal
unentered = record {
  lock = none;
  db_open = false;
  directory_identity = (0, 0);
  database_identity = (0, 0);
  operation = none;
  next = 0;
  pending = false;
}

abbrev old_store : Store
old_store = record { catalog = catalog operations_legacy_sql legacy_columns; rows = three_phases }

abbrev old : Opening
old = record { journal = unentered; store = some old_store; commits = [] }

-- it is migrated
is_migrated : enter entry old ≡ (
  ok tt,
  record {
    journal = record unentered {
      lock = some (1, 3);
      db_open = true;
      directory_identity = (1, 2);
      database_identity = (1, 4);
    };
    store = some (record { catalog = current_catalog; rows = with_contract three_phases });
    commits = [];
  },
)
unfolding enter journal_schema validate_legacy_rows phase_plan status_beq pair_beq list_beq
is_migrated = refl

-- a commit that fails leaves the old tables
is_rolled_back : (enter entry (record old { commits = false ∷ [] })).1.store ≡ some old_store
unfolding enter journal_schema validate_legacy_rows phase_plan status_beq pair_beq list_beq
is_rolled_back = refl

is_old : journal_schema old_store.catalog ≡ ok legacy
unfolding journal_schema list_beq pair_beq
is_old = refl

few : (d : Store) → some old_store ≡ some d → unfinished d.rows.operations ≤ 1
few d h =
    subst (λ (x : Store). unfinished x.rows.operations ≤ 1) (some-injective old_store d h)
      (omega arith)

of_other_generation :
    (d : Store)
    → some old_store ≡ some d
    → journal_schema d.catalog ≡ ok acceptance
    → IsSound d.rows
of_other_generation d h k =
    let bad =
      sym is_old
      ∙ ap (λ (x : Store). journal_schema x.catalog) (some-injective old_store d h)
      ∙ k in
    cc

enter-Ends_example : Ends entry old (enter entry old)
enter-Ends_example = enter-Ends entry old refl few of_other_generation
