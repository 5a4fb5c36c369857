-- ===== src/Admission/Table.antt =====
-- experiments/d4/admission.py: class AdmissionJournal, with the table that it keeps. The controller's
-- Disk says what stands under the journal's root, and each commit to come succeeds or does not.
pub mod Lookup
use highly_available_trailba.Prelude.{
  ℕ, Bool, true, false, ◌&&◌, ◌||◌, not, String, List, [], ◌∷◌, ◌++◌, map, Option, none, some, ◌==◌,
  nat_eq, string_eq, pair_eq, any, find?, Eq, ◌↔◌, ◌≡◌, refl, arith, Result, ok, raise, Exc,
  value_error, runtime_error, sqlite_error, raise_if, if◌then◌else◌,
}
use highly_available_trailba.Fallible
use highly_available_trailba.Exec.{Exec}
use highly_available_trailba.Control.Files.{FileId, Stat, lstat, open_to_others}
use highly_available_trailba.Control.State.{Disk, commit_failed}
use highly_available_trailba.Admission.Requests.{Request}

-- CHECK(status IN ...)
pub data Status : Type 0 where
  intent forward_uncertain awaiting_proof proof_uncertain proven : Status

unfoldable pub status_rank : Status → ℕ
status_rank intent = 0
status_rank forward_uncertain = 1
status_rank awaiting_proof = 2
status_rank proof_uncertain = 3
status_rank proven = 4

unfoldable pub same_status : Status → Status → Bool
unfolding status_rank
same_status a b = status_rank a == status_rank b

pub record Row : Type 0 where
  pub operation : String
  pub request_digest : String
  pub method : String
  pub path : String
  pub epoch : String
  pub writer_boot : String
  pub database_name : String
  pub status : Status
  pub upstream_status : Option ℕ
  pub upstream_digest : Option String
  pub proof_evidence : Option String
  pub txid : Option ℕ

-- The attributes of an `AdmissionJournal`, what stands on disk, and `outside`, everything else that
-- an upstream or a prover may change.
pub record State (W : Type 0) : Type 0 where
  pub lock : Option FileId
  pub db_open : Bool
  pub root_identity : FileId
  pub database_identity : FileId
  pub disk : Disk
  pub rows : List Row
  pub commits : List Bool
  pub outside : W

abbrev pub not_locked : Exc
not_locked = runtime_error "admission journal is not locked"

abbrev pub authority_lost : Exc
authority_lost = runtime_error "journal authority lost"

-- `_private_file`
unfoldable pub private_file : ℕ → Option Stat → Result FileId
unfolding open_to_others
private_file euid none = raise (Exc.os_error "no such file")
private_file euid (some s) =
    if not s.is_regular || not (s.uid == euid) || open_to_others s || not (s.nlink == 1)
    then raise (value_error "admission journal file must be private")
    else ok s.ident

-- `SELECT ... WHERE operation=?`
unfoldable pub select : String → List Row → Option Row
select ident rows = find? (λ (r : Row). r.operation == ident) rows

-- the row that UPDATE ... WHERE operation=? AND status=? leaves
unfoldable pub updated :
    String → Status → Status → Option ℕ → Option String → Option String → Option ℕ → Row → Row
updated ident old new upstream digest evidence txid r =
    if r.operation == ident && same_status r.status old
    then record r {
      status = new;
      upstream_status = upstream;
      upstream_digest = digest;
      proof_evidence = evidence;
      txid = txid;
    }
    else r

abbrev pub new_row : Request → String → String → Row
new_row q digest database = record {
  operation = q.operation_id;
  request_digest = digest;
  method = q.method;
  path = q.path;
  epoch = q.epoch;
  writer_boot = q.writer_boot;
  database_name = database;
  status = intent;
  upstream_status = none;
  upstream_digest = none;
  proof_evidence = none;
  txid = none;
}

unfoldable pub unless_used : Option Row → Result (Unit {0})
unless_used none = ok tt
unless_used (some r) = raise (runtime_error "operation identity already used")

module _ {W : Type 0} where
  -- the body of `check_authority` with the lock held
  unfoldable pub authority_held : FileId → State W → Result (Unit {0})
  unfolding lstat private_file
  authority_held owned s = Fallible.◌>>=◌ (lstat s.disk.root) λ root.
      Fallible.◌>>◌ (raise_if (not (root.ident == s.root_identity)) authority_lost) (
        Fallible.◌>>=◌ (private_file s.disk.euid s.disk.lock_file) λ held.
          Fallible.◌>>◌ (raise_if (not (held == owned)) authority_lost) (
            Fallible.◌>>=◌ (private_file s.disk.euid s.disk.journal_file)
              λ file. raise_if (not (file == s.database_identity)) authority_lost))

  unfoldable pub authority_of : State W → Result (Unit {0})
  unfolding authority_held
  authority_of s = elim s.lock [
    | none ↦ raise not_locked
    | some owned ↦ if s.db_open then authority_held owned s else raise not_locked
  ]

  -- the end of `with self.db`, of a transaction that leaves these rows
  unfoldable pub commit : List Row → Exec (State W) (Unit {0})
  commit rows s = elim s.commits [
    | [] ↦ (ok tt, record s { rows = rows })
    | durable ∷ rest ↦
        if durable
        then (ok tt, record s { rows = rows; commits = rest })
        else (raise commit_failed, record s { commits = rest })
  ]

  -- the checks of `begin`
  unfoldable pub may_begin : String → State W → Result (Unit {0})
  unfolding authority_of select unless_used
  may_begin ident s = Fallible.◌>>◌ (authority_of s) (unless_used (select ident s.rows))

  unfoldable pub begin : Request → String → String → Exec (State W) (Unit {0})
  unfolding may_begin commit
  begin q digest database s = elim (may_begin q.operation_id s) [
    | raise e ↦ (raise e, s)
    | ok u ↦ commit (s.rows ++ new_row q digest database ∷ []) s
  ]

  -- the checks of `update`: its UPDATE changes one row (the identity is the primary key)
  unfoldable pub may_update : String → Status → State W → Result (Unit {0})
  unfolding authority_of
  may_update ident old s = Fallible.◌>>◌ (authority_of s) (
      raise_if (not (any (λ (r : Row). r.operation == ident && same_status r.status old) s.rows))
        (runtime_error "admission journal state differs"))

  unfoldable pub update :
      String
      → Status
      → Status
      → Option ℕ
      → Option String
      → Option String
      → Option ℕ
      → Exec (State W) (Unit {0})
  unfolding may_update updated commit
  update ident old new upstream digest evidence txid s = elim (may_update ident old s) [
    | raise e ↦ (raise e, s)
    | ok u ↦ commit (map (updated ident old new upstream digest evidence txid) s.rows) s
  ]
