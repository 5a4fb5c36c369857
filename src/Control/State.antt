-- ===== src/Control/State.antt =====
-- hat/control.py: the attributes of class Journal, what stands on disk beside it, and how it
-- commits. Its methods are in Control.Journal.
use highly_available_trailba.Prelude.{
  ℕ, Bool, not, List, [], ◌∷◌, Option, none, some, ◌==◌, nat_eq, pair_eq, Result, ok, raise, Exc,
  runtime_error, sqlite_error, if◌then◌else◌, raise_if,
}
use highly_available_trailba.Fallible.{◌>>=◌, ◌>>◌}
use highly_available_trailba.Exec.{Exec}
use highly_available_trailba.Control.Files.{FileId, Stat, lstat, private_file}
use highly_available_trailba.Control.Rows.{Operation, Db}

-- What stands under the journal's root, and who asks.
pub record Disk : Type 0 where
  pub euid : ℕ
  pub root : Option Stat
  pub lock_file : Option Stat
  pub journal_file : Option Stat

-- The attributes of a `Journal`. `lock` is the identity of the file behind the held descriptor.
pub record Journal : Type 0 where
  pub lock : Option FileId
  pub db_open : Bool
  pub directory_identity : FileId
  pub database_identity : FileId
  pub operation : Option Operation
  pub next : ℕ
  pub pending : Bool

-- `commits` says of each commit to come whether SQLite makes it durable; one that it does not is
-- rolled back, and when the list has run out every commit succeeds.
pub record State : Type 0 where
  pub journal : Journal
  pub open journal use *
  pub disk : Disk
  pub db : Db
  pub commits : List Bool

abbrev pub unlocked : Exc
unlocked = runtime_error "controller is not locked"

abbrev pub replaced : Exc
replaced = runtime_error "controller state or lock replaced; refuse further actions"

abbrev pub commit_failed : Exc
commit_failed = sqlite_error "commit failed"

-- `check_authority` with the lock held, over the files as they stand
unfoldable pub held_authority : FileId → Journal → Disk → Result (Unit {0})
unfolding lstat private_file
held_authority owned j d = do
  root ← lstat d.root
  raise_if (not (root.ident == j.directory_identity)) replaced
  lock ← private_file d.euid d.lock_file
  raise_if (not (lock == owned)) replaced
  file ← private_file d.euid d.journal_file
  raise_if (not (file == j.database_identity)) replaced

unfoldable pub authority_of : Journal → Disk → Result (Unit {0})
unfolding held_authority
authority_of j d = elim j.lock [
  | none ↦ raise unlocked
  | some owned ↦ if j.db_open then held_authority owned j d else raise unlocked
]

unfoldable pub check_authority : Exec State (Unit {0})
check_authority s = (authority_of s.journal s.disk, s)

-- `self.db.commit()` of a transaction that leaves these tables, and the rollback if it fails
unfoldable pub commit : Db → Exec State (Unit {0})
commit db s = elim s.commits [
  | [] ↦ (ok tt, record s { db = db })
  | durable ∷ rest ↦
      if durable
      then (ok tt, record s { db = db; commits = rest })
      else (raise commit_failed, record s { commits = rest })
]

-- `try: execute; self._commit(label)  except BaseException: self.db.rollback(); raise`
unfoldable pub transact : (Db → Result Db) → Exec State (Unit {0})
unfolding commit
transact statement s = elim (statement s.db) [ ok db ↦ commit db s | raise e ↦ (raise e, s) ]
