-- ===== src/Control/Ingress/Snapshot.antt =====
-- hat/control.py: `_ingress_file_snapshot`, `_ingress_file_finalize` and `ingress_allowed`: the
-- files are read before and after the decision, and must be the same.
use highly_available_trailba.Prelude.{
  ℕ, Bool, true, false, ◌&&◌, ◌||◌, not, String, List, [], ◌∷◌, ◌++◌, none, some, ◌==◌, nat_eq,
  string_eq, list_eq, pair_eq, list_beq, any, Result, ok, raise, raise_if, Exc, value_error,
  os_error, if◌then◌else◌,
}
use highly_available_trailba.Exec.{◌>>=◌, ◌>>◌, pure, lift}
use highly_available_trailba.Py.Value.{Value}
use highly_available_trailba.Control.Files.{open_to_others}
use highly_available_trailba.Control.Ingress.{
  Inode, Reading, gone, failed, held, Place, root, journal_db, wal, shm, rollback_journal, ingress,
  maintenance, permit, Sights, Look, reading, lstat_now,
}
use highly_available_trailba.Control.Ingress.Facts.{Tracked, catching}
use highly_available_trailba.Control.Ingress.Gate.{ingress_allowed_body}

abbrev pub always_tracked : List Place
always_tracked = journal_db ∷ ingress ∷ maintenance ∷ permit ∷ wal ∷ shm ∷ rollback_journal ∷ []

-- `(s.st_dev, s.st_ino, s.st_mode, s.st_uid, s.st_nlink)` of the root
unfoldable pub root_identity : Inode → List ℕ
root_identity i = i.stat.ident.0 ∷ i.stat.ident.1 ∷ i.stat.mode ∷ i.stat.uid ∷ i.stat.nlink ∷ []

unfoldable pub is_unsafe_root : ℕ → Inode → Bool
unfolding open_to_others
is_unsafe_root euid i = not i.stat.is_directory || not (i.stat.uid == euid) || open_to_others i.stat

-- a file that exists, in the snapshot
unfoldable pub is_kept : Tracked → Bool
is_kept none = false
is_kept (some x) = true

unfoldable pub is_sidecar : Place → Bool
is_sidecar wal = true
is_sidecar shm = true
is_sidecar rollback_journal = true
is_sidecar p = false

-- `any(snapshot[str(path)] is not None for path in paths[-3:])`
unfoldable pub has_sidecar : List (Place × Tracked) → Bool
unfolding is_kept is_sidecar
has_sidecar files = any (λ (f : Place × Tracked). is_sidecar f.0 && is_kept f.1) files

-- `except (OSError, ValueError): return False`
unfoldable pub is_file_error : Exc → Bool
is_file_error (os_error e) = true
is_file_error (value_error e) = true
is_file_error e = false

-- `(identity, hashlib.sha256(raw).digest())`
unfoldable pub same_file : Tracked → List ℕ × String → Bool
same_file none new = false
same_file (some old) new = list_beq old.0 new.0 && old.1 == new.1

module _ (w : Sights) (sha256 : List ℕ → String) where
  -- what the snapshot keeps of a reading
  unfoldable pub kept : Reading → Result Tracked
  kept gone = ok none
  kept (failed e) = raise e
  kept (held raw id) = ok (some (id, sha256 raw))

  unfoldable pub snapshot_files : List Place → Look (List (Place × Tracked))
  unfolding reading kept
  snapshot_files [] = pure []
  snapshot_files (p ∷ ps) = do
    r ← reading w false p
    file ← lift (kept r)
    files ← snapshot_files ps
    pure ((p, file) ∷ files)

  -- `_ingress_file_snapshot`: the root, and every path
  unfoldable pub ingress_file_snapshot : List Place → Look (List ℕ × List (Place × Tracked))
  unfolding lstat_now is_unsafe_root root_identity snapshot_files
  ingress_file_snapshot paths = do
    parent ← lstat_now w root
    lift (raise_if (is_unsafe_root w.euid parent) (value_error "controller directory is unsafe"))
    files ← snapshot_files paths
    pure (root_identity parent, files)

  -- one path of `_ingress_file_finalize`: whether it is what it was
  unfoldable pub unchanged : Tracked → Reading → Result Bool
  unfolding is_kept is_file_error same_file
  unchanged old gone = ok (not (is_kept old))
  unchanged old (failed e) = if is_file_error e then ok false else raise e
  unchanged old (held raw id) = ok (same_file old (id, sha256 raw))

  unfoldable pub all_unchanged : List (Place × Tracked) → Look Bool
  unfolding reading unchanged
  all_unchanged [] = pure true
  all_unchanged ((p, old) ∷ rest) = do
    r ← reading w false p
    same ← lift (unchanged old r)
    elim same [ true ↦ all_unchanged rest | false ↦ pure false ]

  -- `_ingress_file_finalize`
  unfoldable pub ingress_file_finalize : List ℕ → List (Place × Tracked) → Bool → Look Bool
  unfolding lstat_now root_identity all_unchanged list_beq
  ingress_file_finalize before files allowed = do
    now ← lstat_now w root
    elim (list_beq (root_identity now) before) [
      | false ↦ pure false
      | true ↦ (all_unchanged files >>= λ same. pure (same && allowed))
    ]

module _ (w : Sights) (canonical : Value → Result (List ℕ)) (sha256 : List ℕ → String)
    (loads_bytes : List ℕ → Result Value) (boot : String) where
  -- the body of the `try`
  unfoldable pub decide_ingress : Look Bool
  unfolding ingress_file_snapshot has_sidecar ingress_allowed_body ingress_file_finalize
  decide_ingress = do
    before ← ingress_file_snapshot w sha256 always_tracked
    elim (has_sidecar before.1) [
      | true ↦ pure false
      | false ↦
          (ingress_allowed_body w canonical sha256 loads_bytes boot >>= λ v.
          ingress_file_finalize w sha256 before.0 (before.1 ++ v.tracked) v.allowed)
    ]

  -- `ingress_allowed`
  unfoldable pub ingress_allowed : Look Bool
  unfolding catching decide_ingress
  ingress_allowed = catching false decide_ingress
