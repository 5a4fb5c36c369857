-- ===== src/Acceptance/Authority.antt =====
-- hat/recovery.py: `_authority`, the authority under which a restore's inputs were written down.
-- The controller's root is an absolute path, given by its parts.
use highly_available_trailba.Prelude.{
  ℕ, ◌*◌, Bool, true, false, ◌&&◌, ◌||◌, not, String, List, [], ◌∷◌, ◌++◌, map, length, Option,
  none, some, ◌==◌, nat_eq, string_eq, list_eq, list_beq, all, leb, Result, raise_if, value_error,
  type_error, if◌then◌else◌,
}
use highly_available_trailba.Fallible.{◌>>=◌, ◌>>◌}
use highly_available_trailba.Py.Value.{
  Value, int, obj, has_keys, get, is_text, is_dict, is_str, values,
}
use highly_available_trailba.Py.Text.{codes, is_hex}
use highly_available_trailba.Py.Access.{is_hashable, hex64, is_hex64}
use highly_available_trailba.Py.Paths.{is_normal_absolute, parts, relative_to, path_text}
use highly_available_trailba.Control.Rows.{Operation}

abbrev schema_keys : List String
schema_keys = "schema" ∷ "operation" ∷ "origin" ∷ "ledger" ∷ "support" ∷ "binaries" ∷ []

abbrev pub forward : Operation → Bool
forward o = o.source == "A" && o.target == "B"

abbrev pub backward : Operation → Bool
backward o = o.source == "B" && o.target == "A"

-- `valid_origin`, of one of the three origins
unfoldable pub is_origin : Operation → String → Value → Bool
unfolding is_text
is_origin o profile origin =
    is_text "d2-preflight" origin && forward o && (profile == "comparison" || profile == "baseline")
    || is_text "d3-recovery-input" origin
      && backward o
      && (profile == "recovery-comparison" || profile == "baseline")
    || is_text "current-verify-exclusive" origin && profile == "fresh-writes"

-- `type(v) is int and v >= 0`
unfoldable pub is_natural : Value → Bool
is_natural (int n) = true
is_natural v = false

unfoldable pub is_number : ℕ → Value → Bool
is_number k (int n) = n == k
is_number k v = false

unfoldable pub is_number_within : ℕ → ℕ → Value → Bool
is_number_within low high (int n) = leb low n && leb n high
is_number_within low high v = false

abbrev pub max_artifact : ℕ
max_artifact = 4 * 1048576

abbrev ledger_keys : List String
ledger_keys = "path" ∷ "device" ∷ "inode" ∷ "mode" ∷ "uid" ∷ "links" ∷ "bytes" ∷ "sha256" ∷ []

unfoldable pub is_ledger_path : String → Bool
unfolding is_normal_absolute
is_ledger_path s = is_normal_absolute (codes s)

-- the tests of a ledger's identity up to its digest
unfoldable pub is_ledger : Value → Bool
unfolding has_keys get is_str is_ledger_path is_natural is_number is_number_within
is_ledger v =
    has_keys ledger_keys v
    && is_str is_ledger_path (get v "path")
    && is_natural (get v "device")
    && is_natural (get v "uid")
    && is_natural (get v "inode")
    && not (is_number 0 (get v "inode"))
    && is_number 384 (get v "mode")
    && is_number 1 (get v "links")
    && is_number_within 1 max_artifact (get v "bytes")

-- `_OPERATION.fullmatch`, of code points
unfoldable pub is_operation_part : List ℕ → Bool
unfolding is_hex
is_operation_part cs = length cs == 32 && all is_hex cs

-- the parts of a recovery input's ledger under the controller's root
unfoldable pub is_recovery_input : Operation → Option (List (List ℕ)) → Bool
unfolding is_operation_part list_beq
is_recovery_input o (some (ident ∷ name ∷ [])) =
    name == codes "ledger.jsonl" && is_operation_part ident && not (ident == codes o.id)
is_recovery_input o ps = false

-- `Path(path).relative_to(controller_root).parts`, or `none`
unfoldable pub under : List String → String → Option (List (List ℕ))
unfolding parts relative_to
under root path = elim (parts (codes path)) [
  | none ↦ none
  | some ps ↦ relative_to (map codes root) ps
]

abbrev pub ledger_name : Value → String
ledger_name origin =
    if is_text "current-verify-exclusive" origin then "new-writes.jsonl" else "ledger.jsonl"

-- where the ledger must stand, by the origin of its authority
unfoldable pub is_place : List String → Operation → Value → String → Bool
unfolding is_text is_recovery_input under path_text list_beq
is_place root o origin path =
    if is_text "d3-recovery-input" origin
    then is_recovery_input o (under root path)
    else codes path == path_text (map codes (root ++ o.id ∷ ledger_name origin ∷ []))

-- `set(v) == set(names) and every value is a digest`, of a dict
unfoldable pub are_digests : List String → Value → Bool
unfolding has_keys is_hex64 values
are_digests names (obj fs) = has_keys names (obj fs) && all is_hex64 (values fs)
are_digests names v = false

abbrev support_names : List String
support_names =
    "config.textproto" ∷ "migrations/main/U100__hat_ops.sql" ∷ "migrations/aux/U100__hat_ops.sql"
    ∷ "secrets/keys/private_key.pem" ∷ "secrets/keys/public_key.pem" ∷ []

unfoldable pub is_placed : List String → Operation → Value → Bool
unfolding is_place is_str get
is_placed root o v = is_str (is_place root o (get v "origin")) (get (get v "ledger") "path")

unfoldable pub is_framed : Value → Bool
unfolding has_keys is_dict get
is_framed v = has_keys schema_keys v && is_dict (get v "support") && is_dict (get v "binaries")

unfoldable pub names_operation : Operation → Value → Bool
unfolding is_text get
names_operation o v =
    is_text "hat-restore-input-authority-1" (get v "schema") && is_text o.id (get v "operation")

unfoldable pub authority : List String → Operation → String → Value → Result (Unit {0})
unfolding is_hashable is_framed names_operation is_origin is_ledger hex64 is_placed are_digests get
authority root o profile v = do
  raise_if (not (is_framed v)) (value_error "invalid restore input authority")
  raise_if (not (names_operation o v)) (value_error "restore input authority differs")
  raise_if (not (is_hashable (get v "origin"))) (type_error "unhashable type")
  raise_if (not (is_origin o profile (get v "origin")))
      (value_error "restore input authority origin differs")
  raise_if (not (is_ledger (get v "ledger"))) (value_error "invalid restore ledger authority")
  digest ← hex64 (get (get v "ledger") "sha256")
  raise_if (not digest) (value_error "invalid restore ledger authority")
  raise_if (not (is_placed root o v)) (value_error "restore ledger authority path differs")
  raise_if (not (are_digests ("trail" ∷ "litestream" ∷ []) (get v "binaries")))
      (value_error "invalid restore binary authority")
  raise_if (not (are_digests support_names (get v "support")))
      (value_error "invalid restore support authority")
