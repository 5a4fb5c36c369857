-- ===== src/Control/Opening.antt =====
-- hat/control.py: `Journal.__enter__` and `__exit__`: the lock, the files beside it, the migration
-- of a journal of the first generation. What each call on the file system and on SQLite gives is a
-- record, Entry.
pub mod Sound
mod Examples
use highly_available_trailba.Prelude.{
  ℕ, Bool, true, false, ◌&&◌, ◌||◌, not, List, [], ◌∷◌, map, Option, none, some, ◌==◌, nat_eq,
  Result, ok, raise, raise_if, bind, Exc, value_error, os_error, sqlite_error, if◌then◌else◌,
}
use highly_available_trailba.Exec.{Exec, ◌>>=◌, ◌>>◌, pure, lift, gets, modify}
use highly_available_trailba.Control.Files.{FileId, Stat, open_to_others, private_file}
use highly_available_trailba.Control.Rows.{Contract, legacy, acceptance, OperationRow, Db, empty_db}
use highly_available_trailba.Control.State.{Journal, commit_failed}
use highly_available_trailba.Control.Schema.{Catalog, journal_schema}
use highly_available_trailba.Control.Legacy.{validate_legacy_rows}

-- journal.db, or one of the files that SQLite keeps beside it, if it is there (`exists` or
-- `is_symlink`)
pub record Candidate : Type 0 where
  pub is_wal : Bool
  pub is_there : Bool
  pub stat : Option Stat

-- What the calls give, in their order. `script` is how the script of a new journal ends and what it
-- leaves; `altered` what SQLite says of the tables once a column is added to them; `reopened` how
-- connecting again ends.
pub record Entry : Type 0 where
  pub euid : ℕ
  pub root : Option Stat
  pub has_linked_parent : Bool
  pub lock_opened : Result FileId
  pub lock_stat : Option Stat
  pub locked : Result (Unit {0})
  pub candidates : List Candidate
  pub exists : Bool
  pub size : ℕ
  pub created : Result (Unit {0})
  pub connected : Result (Unit {0})
  pub set_up : Result (Unit {0})
  pub begun : Result (Unit {0})
  pub altered : Catalog → Result Catalog
  pub script : Result (Unit {0}) × Catalog
  pub first_synced : Result (Unit {0})
  pub reopened : Result (Unit {0})
  pub journal_stat : Option Stat
  pub last_synced : Result (Unit {0})

-- A database: what SQLite says of it, and its two tables.
pub record Store : Type 0 where
  pub catalog : Catalog
  pub rows : Db

-- The object that is entered and the database, if there are tables; `commits` as in State.
pub record Opening : Type 0 where
  pub journal : Journal
  pub store : Option Store
  pub commits : List Bool

-- the checks of the root
unfoldable pub owned_root : ℕ → Option Stat → Bool → Result FileId
unfolding open_to_others
owned_root euid none linked = raise (os_error "no such file")
owned_root euid (some s) linked =
    if not s.is_directory || not (s.uid == euid) || open_to_others s || linked
    then raise (value_error "controller directory must be private, owned and not symlinked")
    else ok s.ident

unfoldable pub check_candidates : ℕ → List Candidate → Result (Unit {0})
unfolding private_file
check_candidates euid [] = ok tt
check_candidates euid (c ∷ cs) =
    let rest = check_candidates euid cs in
    if c.is_there
    then bind (private_file euid c.stat) (λ file.
      bind (raise_if c.is_wal (value_error "WAL journal state is not accepted")) (λ _. rest))
    else rest

-- an existing file must not be empty, another one is created
unfoldable pub usable : Entry → Result (Unit {0})
usable e =
    if e.exists
    then raise_if (e.size == 0) (value_error "empty existing journal; reconciliation required")
    else e.created

-- `self.lock = ...`, `self.db = ...`, `self.directory_identity = ...`, `self.database_identity =
-- ...`
unfoldable pub hold_root : FileId → Exec Opening (Unit {0})
hold_root ident =
    modify (λ s. record s { journal = record s.journal { directory_identity = ident } })

unfoldable pub hold_lock : FileId → Exec Opening (Unit {0})
hold_lock ident = modify (λ s. record s { journal = record s.journal { lock = some ident } })

unfoldable pub hold_db : Exec Opening (Unit {0})
hold_db = modify (λ s. record s { journal = record s.journal { db_open = true } })

unfoldable pub hold_file : FileId → Exec Opening (Unit {0})
hold_file ident =
    modify (λ s. record s { journal = record s.journal { database_identity = ident } })

-- `__exit__`
unfoldable pub let_go : Opening → Opening
let_go s = record s { journal = record s.journal { lock = none; db_open = false } }

-- `_journal_schema(self.db)`
unfoldable pub schema_of : Option Store → Result Contract
unfolding journal_schema
schema_of none = raise (sqlite_error "file is not a database")
schema_of (some d) = journal_schema d.catalog

-- `if _journal_schema(self.db)!=RESTORE_CONTRACT: raise`
unfoldable pub require_acceptance : Exc → Result Contract → Result (Unit {0})
require_acceptance x (raise y) = raise y
require_acceptance x (ok legacy) = raise x
require_acceptance x (ok acceptance) = ok tt

-- the column that is added has the default 'legacy'
unfoldable pub with_contract : Db → Db
with_contract db = record db {
  operations = map (λ (r : OperationRow). record r { restore_contract = legacy }) db.operations;
}

-- the transaction of the migration: it is committed as a whole, or rolled back
unfoldable pub commit_store : Store → Exec Opening (Unit {0})
commit_store d s = elim s.commits [
  | [] ↦ (ok tt, record s { store = some d })
  | durable ∷ rest ↦
      if durable
      then (ok tt, record s { store = some d; commits = rest })
      else (raise commit_failed, record s { commits = rest })
]

unfoldable pub migrate : Entry → Store → Exec Opening (Unit {0})
unfolding journal_schema require_acceptance with_contract commit_store
migrate e d = do
  lift e.begun
  catalog ← lift (e.altered d.catalog)
  lift (require_acceptance (value_error "journal migration differs") (journal_schema catalog))
  commit_store (record { catalog = catalog; rows = with_contract d.rows })

-- an existing journal: whether it was changed
unfoldable pub recognise : Entry → Option Store → Exec Opening Bool
unfolding journal_schema validate_legacy_rows migrate
recognise e none = lift (raise (sqlite_error "file is not a database"))
recognise e (some d) = lift (journal_schema d.catalog) >>= λ kind. elim kind [
  | acceptance ↦ pure false
  | legacy ↦ (lift (validate_legacy_rows d.rows) >>= λ _. migrate e d >>= λ _. pure true)
]

-- a new one
unfoldable pub create : Entry → Exec Opening Bool
create e s = (
  bind e.script.0 (λ _. ok true),
  record s { store = some (record { catalog = e.script.1; rows = empty_db }) },
)

-- after a change: the root is synced, the database opened again and recognised again
unfoldable pub settle_change : Entry → Bool → Exec Opening (Unit {0})
unfolding schema_of require_acceptance
settle_change e false = pure tt
settle_change e true = do
  lift e.first_synced
  lift e.reopened
  s ← gets (λ (s : Opening). s)
  lift (require_acceptance (value_error "journal reopen differs") (schema_of s.store))

-- the body of the `try`
unfoldable pub opening : Entry → Exec Opening (Unit {0})
unfolding owned_root hold_root hold_lock private_file check_candidates usable hold_db recognise
    create schema_of require_acceptance settle_change hold_file
opening e = do
  root ← lift (owned_root e.euid e.root e.has_linked_parent)
  hold_root root
  lock ← lift e.lock_opened
  hold_lock lock
  own ← lift (private_file e.euid e.lock_stat)
  lift e.locked
  lift (check_candidates e.euid e.candidates)
  lift (usable e)
  lift e.connected
  hold_db
  lift e.set_up
  s ← gets (λ (s : Opening). s)
  changed ← elim e.exists [ true ↦ recognise e s.store | false ↦ create e ]
  t ← gets (λ (s : Opening). s)
  lift (require_acceptance (value_error "journal schema differs") (schema_of t.store))
  settle_change e changed
  file ← lift (private_file e.euid e.journal_stat)
  hold_file file
  lift e.last_synced

-- `__enter__`: what fails lets everything go
unfoldable pub enter : Entry → Exec Opening (Unit {0})
unfolding opening let_go
enter e s = let (r, t) = opening e s in elim r [ ok u ↦ (ok tt, t) | raise x ↦ (raise x, let_go t) ]
