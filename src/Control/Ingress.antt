-- ===== src/Control/Ingress.antt =====
-- hat/control.py: `_stable_private_bytes`, `process_identity`, and the files that decide whether
-- the ingress may start, as they are seen one look after another.
pub mod Facts
pub mod Gate
pub mod Looks
pub mod Reasons
pub mod Pending
pub mod Decided
pub mod Forward
pub mod Unchanged
pub mod Snapshot
pub mod Allowed
mod Examples
use highly_available_trailba.Prelude.{
  ℕ, suc, Bool, true, false, ◌&&◌, ◌||◌, not, String, List, [], ◌∷◌, Option, none, some, ◌==◌,
  nat_eq, string_eq, list_eq, length, get_elem?, contains, Result, ok, raise, Exc, value_error,
  os_error, if◌then◌else◌, pair_eq, map,
}
use highly_available_trailba.Exec.{Exec, ◌>>=◌, pure}
use highly_available_trailba.Py.Value.{Value, int}
use highly_available_trailba.Control.Files.{Stat, open_to_others, private_file}
use highly_available_trailba.Control.Rows.{Db}
use highly_available_trailba.Control.Schema.{Catalog}

-- What `fstat` says of an open file: `stamp` is `st_mtime_ns`.
pub record Inode : Type 0 where
  pub stat : Stat
  pub size : ℕ
  pub stamp : ℕ

-- What opening a path without following a link gives: nothing is there, another error, or a file,
-- as `fstat` shows it, with what `os.read` then gives, and as `fstat` shows it afterwards.
pub data Opened : Type 0 where
  missing : Opened
  denied : Exc → Opened
  opened : Inode → List ℕ → Inode → Opened

-- `identity(s)`
unfoldable pub identity : Inode → List ℕ
identity i =
    i.stat.ident.0 ∷ i.stat.ident.1 ∷ i.size ∷ i.stamp ∷ i.stat.mode ∷ i.stat.uid ∷ i.stat.nlink
    ∷ []

-- How `_stable_private_bytes` ends: FileNotFoundError, another exception, or the bytes with their
-- identity.
pub data Reading : Type 0 where
  gone : Reading
  failed : Exc → Reading
  held : List ℕ → List ℕ → Reading

unfoldable pub is_unsafe : ℕ → Bool → Stat → Bool
unfolding open_to_others
is_unsafe euid strict s =
    not s.is_regular || not (s.uid == euid) || strict && open_to_others s || not (s.nlink == 1)

-- `_stable_private_bytes`
unfoldable pub stable_private_bytes : ℕ → Bool → Opened → Reading
unfolding is_unsafe identity
stable_private_bytes euid strict missing = gone
stable_private_bytes euid strict (denied e) = failed e
stable_private_bytes euid strict (opened before raw after) =
    if is_unsafe euid strict before.stat
    then failed (value_error "controller file is unsafe")
    else if not (length raw == before.size) || not (identity before == identity after)
    then failed (value_error "controller file changed")
    else held raw (identity after)

-- The paths; the programs that call `ingress_allowed` give different ones.
pub data Place : Type 0 where
  root journal_db wal shm rollback_journal ingress maintenance permit : Place
  failure : String → Place

-- Everything that may be seen, at each moment: what opening a path gives, whether `exists` and
-- `is_symlink` say yes of it, its `lstat`, its text; what SQLite says of the journal mode, of the
-- schema and of the tables; and the fields after the last parenthesis of a process's stat file.
-- Nothing relates one moment to the next: other processes may act between any two looks.
pub record Sights : Type 0 where
  pub euid : ℕ
  pub open_at : ℕ → Place → Opened
  pub exists_at : ℕ → Place → Bool
  pub is_link_at : ℕ → Place → Bool
  pub lstat_at : ℕ → Place → Option Inode
  pub text_at : ℕ → Place → Result (List ℕ)
  pub mode_at : ℕ → Result String
  pub catalog_at : ℕ → Result Catalog
  pub tables_at : ℕ → Result Db
  pub process_at : ℕ → ℕ → Result (List String)

-- The state is the moment; a look takes one.
abbrev pub Look : Type 0 → Type 0
Look A = Exec ℕ A

unfoldable pub look : {A : Type 0} → (ℕ → Result A) → Look A
look f t = (f t, suc t)

-- `process_identity`, of what the process's stat file says
unfoldable pub birth_of : Result (List String) → Option String
birth_of (raise e) = none
birth_of (ok fields) = elim (get_elem? fields 0) [
  | none ↦ none
  | some state ↦ if state == "Z" || state == "X" then none else get_elem? fields 19
]

unfoldable pub process_identity : (ℕ → Result (List String)) → Value → Option String
unfolding birth_of
process_identity fields (int (suc n)) = birth_of (fields (suc n))
process_identity fields v = none

module _ (w : Sights) where
  -- `_stable_private_bytes(path, strict)`
  unfoldable pub reading : Bool → Place → Look Reading
  unfolding look stable_private_bytes
  reading strict p = look (λ t. ok (stable_private_bytes w.euid strict (w.open_at t p)))

  -- what it returns, or what it raises
  unfoldable pub returned : Reading → Result (List ℕ × List ℕ)
  returned gone = raise (os_error "no such file")
  returned (failed e) = raise e
  returned (held raw id) = ok (raw, id)

  unfoldable pub read_private : Bool → Place → Look (List ℕ × List ℕ)
  unfolding look stable_private_bytes returned
  read_private strict p = look (λ t. returned (stable_private_bytes w.euid strict (w.open_at t p)))

  -- `path.exists() or path.is_symlink()`
  unfoldable pub is_present : Place → Look Bool
  unfolding look
  is_present p = look (λ t. ok (w.exists_at t p)) >>= λ there. elim there [
    | true ↦ pure true
    | false ↦ look (λ t. ok (w.is_link_at t p))
  ]

  unfoldable pub private_at : Place → Look (ℕ × ℕ)
  unfolding look private_file
  private_at p =
      look (λ t. private_file w.euid (elim (w.lstat_at t p) [ none ↦ none | some i ↦ some i.stat ]))

  unfoldable pub lstat_now : Place → Look Inode
  unfolding look
  lstat_now p =
      look (λ t. elim (w.lstat_at t p) [ none ↦ raise (os_error "no such file") | some i ↦ ok i ])
