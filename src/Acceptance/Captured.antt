-- ===== src/Acceptance/Captured.antt =====
-- hat/recovery.py: what a recovery demands of the nodes that it looks at (`_source_config`, `_cold`, `_writer`,
-- `_producer_proof`) and of a report (`_cut_report`).
pub mod Same
mod Examples
use highly_available_trailba.Prelude.{
  ℕ, Bool, true, false, ◌&&◌, ◌||◌, not, String, List, [], ◌∷◌, Option, none, some, ◌==◌, string_eq,
  all, contains, Result, ok, raise, raise_if, Exc, value_error, runtime_error, bind,
}
use highly_available_trailba.Fallible.{◌>>=◌, ◌>>◌}
use highly_available_trailba.Py.Value.{
  Value, bool, int, str, obj, Fields, end, field, keys, values, lookup, has_keys, get, item,
  is_text, is_str, is_dict, py_eq,
}
use highly_available_trailba.Py.Access.{get_of, is_hex64}
use highly_available_trailba.Node.Positions.{dbs}
use highly_available_trailba.Transition.Requests.{validate_cut}
use highly_available_trailba.Acceptance.Results.{plain_checks}

-- `required <= set(v)` of a dict
unfoldable pub has_all : List String → Value → Bool
unfolding contains keys
has_all ks (obj fs) = all (contains (keys fs)) ks
has_all ks v = false

-- a dict of exactly these keys, each with a SHA-256 in hexadecimal
unfoldable pub is_digest_table : List String → Value → Bool
unfolding has_keys values is_hex64
is_digest_table ks (obj fs) = has_keys ks (obj fs) && all is_hex64 (values fs)
is_digest_table ks v = false

unfoldable pub is_false : Value → Bool
is_false (bool b) = not b
is_false v = false

unfoldable pub is_on : Value → Bool
is_on (bool b) = b
is_on v = false

-- `v.get(k, default)` of a dict
unfoldable pub get_or : Value → String → Value → Value
unfolding lookup
get_or (obj fs) k default = elim (lookup fs k) [ none ↦ default | some v ↦ v ]
get_or v k default = default

abbrev pub not_empty : String → Bool
not_empty s = not (s == "")

-- the test of the configuration
unfoldable pub is_source : Value → Value → Bool
unfolding is_dict has_all is_text get py_eq is_str is_digest_table is_false get_or
is_source value epoch =
    is_dict value
    && has_all ("role" ∷ "epoch" ∷ "hostname" ∷ "binaries" ∷ "support" ∷ []) value
    && is_text "writer" (get value "role")
    && py_eq (get value "epoch") epoch
    && is_str not_empty (get value "hostname")
    && is_digest_table ("trail" ∷ "litestream" ∷ []) (get value "binaries")
    && is_false (get_or value "bootstrap" (bool false))

abbrev pub support_files : List String
support_files =
    "config.textproto" ∷ "migrations/main/U100__hat_ops.sql" ∷ "migrations/aux/U100__hat_ops.sql"
    ∷ "secrets/keys/private_key.pem" ∷ "secrets/keys/public_key.pem" ∷ []

-- `_source_config`
unfoldable pub source_config : Value → Value → Result Value
unfolding is_source is_digest_table get
source_config value epoch = do
  raise_if (not (is_source value epoch))
      (value_error "captured source config is not the existing writer config")
  raise_if (not (is_digest_table support_files (get value "support")))
      (value_error "captured source support identity is invalid")
  ok value

unfoldable pub is_dead : Value → Value → Bool
unfolding is_dict get is_text py_eq
is_dead value unit =
    is_dict value
    && py_eq (get value "unit") unit
    && is_text "loaded" (get value "load_state")
    && py_eq (get value "main_pid") (int 0)
    && (is_text "inactive" (get value "active_state")
        || is_text "failed" (get value "active_state"))
    && (is_text "absent" (get value "cgroup") || is_text "empty" (get value "cgroup"))

-- `_producer_proof`
unfoldable pub producer_proof : Value → Value → Result Value
unfolding is_dead
producer_proof value unit = do
  raise_if (not (is_dead value unit))
      (runtime_error "fault producer death is not independently proven")
  ok value

unfoldable pub is_idle : Value → Value → Value → Value → Bool
unfolding is_dict get py_eq is_text
is_idle value operation epoch boot =
    is_dict value
    && py_eq (get value "operation") operation
    && py_eq (get value "epoch") epoch
    && py_eq (get value "boot_id") boot
    && is_text "absent" (get value "authority")
    && is_text "empty" (get value "cgroup")
    && is_text "none" (get value "mutators")

unfoldable pub is_config_of : Value → Value → Value → Bool
unfolding is_dict get py_eq
is_config_of config role epoch =
    is_dict config && py_eq (get config "role") role && py_eq (get config "epoch") epoch

-- `config.get('binaries') != source['binaries'] or config.get('support') != source['support']`, denied
unfoldable pub same_release : Value → Value → Exc → Result (Unit {0})
unfolding item get py_eq
same_release config source e = do
  binaries ← item source "binaries"
  raise_if (not (py_eq (get config "binaries") binaries)) e
  support ← item source "support"
  raise_if (not (py_eq (get config "support") support)) e

abbrev pub other_release : Exc
other_release = runtime_error "candidate config, release, support, or replica identity differs"

-- `_cold`
unfoldable pub cold : Value → Value → Value → Value → Value → Value → Value → Result Value
unfolding is_idle is_config_of same_release get py_eq
cold value operation epoch boot role source replica = do
  raise_if (not (is_idle value operation epoch boot))
      (runtime_error "candidate cold identity or safety differs")
  raise_if (not (is_config_of (get value "config") role epoch)) other_release
  same_release (get value "config") source other_release
  raise_if (not (py_eq (get value "replica_config") replica)) other_release
  ok value

abbrev pub other_identity : Exc
other_identity = runtime_error "activated candidate identity differs"

unfoldable pub is_healthy_at : Value → Value → Value → Bool
unfolding py_eq get is_on
is_healthy_at epoch named status =
    py_eq named epoch && is_on (get status "healthy") && is_on (get status "trailbase_running")

-- `_writer`
unfoldable pub writer : Value → Value → Value → Value → Result Value
unfolding is_dict get py_eq get_or get_of is_text same_release is_healthy_at validate_cut
writer value epoch boot source = do
  raise_if (not (is_dict value && py_eq (get value "boot_id") boot)) other_identity
  role ← get_of (get_or value "config" (obj end)) "role"
  raise_if (not (is_text "writer" role && py_eq (get (get value "config") "epoch") epoch))
      other_identity
  same_release (get value "config") source other_identity
  named ← get_of (get_or value "status" (obj end)) "epoch"
  raise_if (not (is_healthy_at epoch named (get value "status")))
      (runtime_error "activated candidate is not a healthy writer")
  validate_cut (get (get value "status") "positions")
  ok value

unfoldable pub are_recovery_checks : Value → Value → Bool
unfolding is_text get has_keys
are_recovery_checks request checks =
    is_text "recovery-comparison" (get request "profile")
    && has_keys ("records" ∷ "authentication" ∷ "fault_outcomes" ∷ "acknowledged_loss" ∷ []) checks
    && is_text "PASS" (get checks "records")
    && is_text "PASS" (get checks "authentication")
    && is_text "NONE" (get checks "acknowledged_loss")

unfoldable pub is_epoch_asked : Option Value → Value → Bool
unfolding py_eq get
is_epoch_asked none request = true
is_epoch_asked (some epoch) request = py_eq (get request "epoch") epoch

-- `_cut_report`
unfoldable pub cut_report : Value → Option Value → Result Value
unfolding has_keys item validate_cut py_eq are_recovery_checks is_epoch_asked get
cut_report value epoch = do
  raise_if
      (not (
        has_keys
          ("schema" ∷ "request" ∷ "request_sha256" ∷ "databases" ∷ "signature" ∷ "checks" ∷ [])
          value))
      (value_error "restore report is not canonical")
  request ← item value "request"
  positions ← item request "positions"
  validate_cut positions
  raise_if
      (not (
        has_keys dbs (get value "signature")
        && (py_eq (get value "checks") plain_checks
            || are_recovery_checks request (get value "checks"))
        && is_epoch_asked epoch request))
      (value_error "restore report signature, checks, or epoch differs")
  ok value
