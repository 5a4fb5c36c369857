-- ===== src/Control/Rejoin.antt =====
-- hat/control.py: `_validate_rejoin_boot_boundary` and `continue_rejoin`, how a controller takes up a recovery that
-- is verified. The files that it reads are arguments.
pub mod Continued
mod Examples
use highly_available_trailba.Prelude.{
  ℕ, ◌≡◌, Bool, true, false, ◌&&◌, ◌||◌, not, String, List, [], ◌∷◌, ◌++◌, map, Option, none, some,
  ◌==◌, nat_eq, string_eq, list_eq, pair_eq, Result, ok, raise, raise_if, Exc, value_error,
  runtime_error, key_error, type_error, os_error, if◌then◌else◌, bind, or_raise,
}
use highly_available_trailba.Fallible
use highly_available_trailba.Fallible.{◌>>=◌, ◌>>◌}
use highly_available_trailba.Exec
use highly_available_trailba.Exec.{Exec, lift, gets, throw_if, pure}
use highly_available_trailba.Py.Value.{Value, has_keys, get, item, is_text, py_eq}
use highly_available_trailba.Py.Text.{is_hex_of, is_operation}
use highly_available_trailba.Py.Access.{get_of, keys_are, fullmatch}
use highly_available_trailba.Control.Files.{Stat, private_file}
use highly_available_trailba.Control.Phases.{Mark, Status, intent, done, status_eq, expected}
use highly_available_trailba.Control.Rows.{Operation, OperationRow, StepRow, Db, mark, steps_of}
use highly_available_trailba.Control.State.{State, check_authority}
use highly_available_trailba.Control.Journal.{
  is_some, resume, evidence_of, find_unfinished, directed_row,
}
use highly_available_trailba.Control.Proof.{validate_d3_proof}
use highly_available_trailba.Control.Serving.{served, plain_intents}
use highly_available_trailba.Acceptance.Json.{parse_canonical_json}

-- what a file that is named holds, or what reading it raises
abbrev pub File : Type 0
File = Option (Result (List ℕ))

-- `except (TypeError, ValueError, OSError, KeyError) as exc: raise RuntimeError(m)`
unfoldable pub caught : String → Result (Unit {0}) → Result (Unit {0})
caught m (raise (type_error e)) = raise (runtime_error m)
caught m (raise (value_error e)) = raise (runtime_error m)
caught m (raise (os_error e)) = raise (runtime_error m)
caught m (raise (key_error e)) = raise (runtime_error m)
caught m r = r

abbrev pub unbound : Exc
unbound = value_error "rejoin boot evidence binding differs"

-- `Path(path).read_bytes()`
unfoldable pub bytes_of : File → Result (List ℕ)
bytes_of none = raise (type_error "expected a path")
bytes_of (some r) = r

unfoldable pub is_rejoin_proof : Operation → Value → Bool
unfolding has_keys is_text get
is_rejoin_proof o proof =
    has_keys ("operation" ∷ "action" ∷ "failure_sha" ∷ "receipt_sha" ∷ "cold_sha" ∷ []) proof
    && is_text o.id (get proof "operation")
    && is_text "reconcile-rejoin-boot" (get proof "action")

-- What stands in the operation's directory: whether `failure.json` is there, and the marker and the archive of a boot
-- that was reconciled.
pub record Directory : Type 0 where
  pub failed : Bool
  pub marker_stat : Option Stat
  pub archive_stat : Option Stat
  pub marker : Result (List ℕ)
  pub archive : Result (List ℕ)

-- the rows of a recovery that is verified, and of its boot if that is done
unfoldable pub rejoin_marks : Bool → List Mark
rejoin_marks true =
    expected served ++ (10, ("rejoin_boot", intent)) ∷ (10, ("rejoin_boot", done)) ∷ []
rejoin_marks false = expected served

abbrev pub not_unused : Exc
not_unused = runtime_error "not the exact unused D3 rejoin boundary"

-- the checks of `continue_rejoin` on the tables
unfoldable pub rejoin_row : Db → Directory → String → Bool → Result OperationRow
unfolding directed_row find_unfinished steps_of rejoin_marks plain_intents
rejoin_row db d ident boot_done = do
  row ← or_raise (directed_row ("B", "A") (find_unfinished ident db)) not_unused
  raise_if
      (not (map mark (steps_of ident db) == rejoin_marks boot_done)
        || not (plain_intents (steps_of ident db))
        || d.failed)
      not_unused
  ok row

unfoldable pub next_of : Bool → ℕ
next_of true = 11
next_of false = 10

module _ (tree : List ℕ → Result Value) (canonical : Value → Result (List ℕ))
    (sha256 : List ℕ → String) where
  -- `proof[k] != sha256(canonical_json(value[part])).hexdigest()`, refused
  unfoldable pub is_bound_to : Value → String → Value → String → Result (Unit {0})
  unfolding item is_text
  is_bound_to proof k value part = do
    digest ← item proof k
    whole ← item value part
    raw ← canonical whole
    raise_if (not (is_text (sha256 raw) digest)) unbound

  -- `archive is not None and proof['failure_sha'] != ...`, refused
  unfoldable pub is_failure_archived : Value → File → Result (Unit {0})
  unfolding is_text get
  is_failure_archived proof none = ok tt
  is_failure_archived proof (some r) = bind r (λ raw.
      raise_if (not (is_text (sha256 raw) (get proof "failure_sha")))
        (value_error "rejoin boot failure hash differs"))

  -- the evidence of `rejoin_boot`
  unfoldable pub check_evidence : Operation → Value → File → Result (Unit {0})
  unfolding parse_canonical_json py_eq keys_are item is_rejoin_proof fullmatch is_hex_of is_bound_to
      is_failure_archived
  check_evidence o evidence archive = do
    raw ← canonical evidence
    value ← parse_canonical_json tree canonical raw
    raise_if (not (py_eq value evidence)) (value_error "rejoin boot evidence schema differs")
    named ←
        keys_are ("receipt" ∷ "fresh_provider" ∷ "cold" ∷ "reconciliation" ∷ "a_probe" ∷ []) value
    raise_if (not named) (value_error "rejoin boot evidence schema differs")
    proof ← item value "reconciliation"
    raise_if (not (is_rejoin_proof o proof)) unbound
    failure ← item proof "failure_sha"
    hex ← fullmatch (is_hex_of 64) failure
    raise_if (not hex) unbound
    is_bound_to proof "receipt_sha" value "receipt"
    is_bound_to proof "cold_sha" value "cold"
    is_failure_archived proof archive

  -- the marker of a reconciled boot, and the failure that was archived
  unfoldable pub check_marker : Operation → File → File → Result (Unit {0})
  unfolding bytes_of parse_canonical_json get_of is_text get
  check_marker o marker archive = do
    raw ← bytes_of marker
    proof ← parse_canonical_json tree canonical raw
    named ← get_of proof "operation"
    raise_if (not (is_text o.id named && is_text "reconcile-rejoin-boot" (get proof "action")))
        (value_error "")
    failure ← bytes_of archive
    raise_if (not (is_text (sha256 failure) (get proof "failure_sha"))) (value_error "")

  unfoldable pub check_given : Operation → Option Value → File → Result (Unit {0})
  unfolding check_evidence caught
  check_given o none archive = ok tt
  check_given o (some e) archive =
      caught "rejoin boot evidence is malformed" (check_evidence o e archive)

  -- `if marker is not None or archive is not None`
  unfoldable pub check_reconciled : Operation → File → File → Result (Unit {0})
  unfolding check_marker caught
  check_reconciled o none none = ok tt
  check_reconciled o marker archive =
      caught "reconciled boot provenance differs" (check_marker o marker archive)

  -- `_validate_rejoin_boot_boundary`
  unfoldable pub validate_rejoin_boot_boundary :
      Operation → List (String × Value) → Option Value → File → File → Result (Unit {0})
  unfolding validate_d3_proof check_given check_reconciled
  validate_rejoin_boot_boundary o previous evidence marker archive = do
    validate_d3_proof canonical sha256 o previous true
    check_given o evidence archive
    check_reconciled o marker archive

  -- the marker and the archive, if the boot is done
  unfoldable pub check_boot :
      ℕ → Directory → Operation → List (String × Value) → Bool → Result (Unit {0})
  unfolding private_file validate_rejoin_boot_boundary
  check_boot euid d o previous false = validate_rejoin_boot_boundary o previous none none none
  check_boot euid d o previous true = do
    marker ← private_file euid d.marker_stat
    archive ← private_file euid d.archive_stat
    validate_rejoin_boot_boundary o previous none (some d.marker) (some d.archive)

  unfoldable pub may_continue :
      State → Directory → String → Bool → Result (Operation × List (String × Value))
  unfolding is_operation rejoin_row evidence_of steps_of check_boot
  may_continue s d ident boot_done = do
    raise_if (is_some s.operation) (runtime_error "journal already has an active operation")
    raise_if (not (is_operation ident)) (value_error "invalid operation")
    row ← rejoin_row s.db d ident boot_done
    previous ←
        or_raise (evidence_of (steps_of ident s.db)) (runtime_error "malformed operation evidence")
    check_boot s.disk.euid d row.operation previous boot_done
    ok (row.operation, previous)

  -- `continue_rejoin`
  unfoldable pub continue_rejoin :
      Directory → String → Bool → Exec State (Operation × List (String × Value))
  unfolding check_authority may_continue resume next_of
  continue_rejoin d ident boot_done = Exec.◌>>◌ check_authority (
      Exec.◌>>=◌ (gets (λ s. s)) (λ s.
        Exec.◌>>=◌ (lift (may_continue s d ident boot_done))
          (λ r. Exec.◌>>◌ (resume (some r.0) (next_of boot_done)) (pure r))))
