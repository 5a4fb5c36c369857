-- ===== src/Acceptance/Samples.antt =====
-- Operations, requests, results and ledgers of restores, for the runs on concrete inputs.
use Prim.Native.String.{◌++◌ as append}
use highly_available_trailba.Prelude.{
  ℕ, String, List, [], ◌∷◌, ◌++◌, Result, ok, ◌==◌, string_eq, if◌then◌else◌,
}
use highly_available_trailba.Py.Value.{Value, str, int, obj, arr, cons, nil, dict}

abbrev pub ident : String
ident = "0123456789abcdef0123456789abcdef"

-- the operation whose ledger a recovery is judged by
abbrev other_ident : String
other_ident = "fedcba9876543210fedcba9876543210"

abbrev pub zeros : String
zeros = "0000000000000000000000000000000000000000000000000000000000000000"

abbrev pub print_nothing : Value → Result (List ℕ)
print_nothing v = ok []

abbrev pub digest_zero : List ℕ → String
digest_zero raw = zeros

abbrev pub root : List String
root = "var" ∷ "lib" ∷ "hat-control" ∷ []

abbrev pub dict_of : List (String × Value) → Value
dict_of fs = obj (dict fs)

abbrev pub operation_from : String → String → Value
operation_from source target = dict_of (
    ("id", str ident)
    ∷ ("source", str source)
    ∷ ("target", str target)
    ∷ ("source_epoch", str "d1-a")
    ∷ ("new_epoch", str "d1-0123456789abcdef0123456789abcdef")
    ∷ [])

abbrev pub cut : ℕ → ℕ → ℕ → Value
cut a b c = dict_of (("main", int a) ∷ ("session", int b) ∷ ("aux", int c) ∷ [])

abbrev point : String → ℕ → Value
point path n = dict_of (("source", str path) ∷ ("position", int n) ∷ [])

abbrev points : ℕ → ℕ → ℕ → Value
points a b c = dict_of (
    ("main", point "/var/lib/hat-demo/depot/data/main.db" a)
    ∷ ("session", point "/var/lib/hat-demo/depot/data/session.db" b)
    ∷ ("aux", point "/var/lib/hat-demo/depot/data/aux.db" c)
    ∷ [])

abbrev pub support : Value
support = dict_of (
    ("config.textproto", str zeros)
    ∷ ("migrations/main/U100__hat_ops.sql", str zeros)
    ∷ ("migrations/aux/U100__hat_ops.sql", str zeros)
    ∷ ("secrets/keys/private_key.pem", str zeros)
    ∷ ("secrets/keys/public_key.pem", str zeros)
    ∷ [])

abbrev pub binaries : Value
binaries = dict_of (("trail", str zeros) ∷ ("litestream", str zeros) ∷ [])

abbrev ledger : String → String → Value
ledger of_operation name = dict_of (
    ("path", str (append "/var/lib/hat-control/" (append of_operation (append "/" name))))
    ∷ ("device", int 1)
    ∷ ("inode", int 2)
    ∷ ("mode", int 384)
    ∷ ("uid", int 0)
    ∷ ("links", int 1)
    ∷ ("bytes", int 100)
    ∷ ("sha256", str zeros)
    ∷ [])

abbrev authority_from : String → String → Value
authority_from origin name = dict_of (
    ("schema", str "hat-restore-input-authority-1")
    ∷ ("operation", str ident)
    ∷ ("origin", str origin)
    ∷ ("ledger", ledger (if origin == "d3-recovery-input" then other_ident else ident) name)
    ∷ ("support", support)
    ∷ ("binaries", binaries)
    ∷ [])

abbrev inputs : String → String → ℕ → ℕ → ℕ → List (String × Value)
inputs origin name a b c =
    ("replica_config_sha256", str zeros)
    ∷ ("ledger_sha256", str zeros)
    ∷ ("ledger_authority", authority_from origin name)
    ∷ ("restore_points", points a b c)
    ∷ ("support", support)
    ∷ ("binaries", binaries)
    ∷ []

abbrev request_with :
    String → String → String → String → String → ℕ → ℕ → ℕ → List (String × Value) → Value
request_with phase source target profile epoch a b c inputs = dict_of (
    ("schema", str "hat-restore-acceptance-1")
    ∷ ("operation", str ident)
    ∷ ("phase", str phase)
    ∷ ("source", str source)
    ∷ ("target", str target)
    ∷ ("epoch", str epoch)
    ∷ ("positions", cut a b c)
    ∷ ("profile", str profile)
    ∷ ("inputs", dict_of inputs)
    ∷ [])

-- a request of a restore from A to B
abbrev pub request_from : String → String → String → String → String → ℕ → ℕ → ℕ → Value
request_from phase profile epoch origin name a b c =
    request_with phase "A" "B" profile epoch a b c (inputs origin name a b c)

-- and of one from B to A
abbrev pub request_back : String → String → String → String → String → ℕ → ℕ → ℕ → Value
request_back phase profile epoch origin name a b c =
    request_with phase "B" "A" profile epoch a b c (inputs origin name a b c)

-- the inputs of the comparison of a recovery, without a fault operation
abbrev no_faults : List (String × Value)
no_faults =
    ("fault_ledger_sha256", str zeros)
    ∷ ("fault_operations", arr nil)
    ∷ ("fault_operation_count", int 0)
    ∷ ("fault_operations_sha256", str zeros)
    ∷ []

abbrev pub recovery_comparison : ℕ → ℕ → ℕ → Value
recovery_comparison a b c =
    request_with "compare" "B" "A" "recovery-comparison" "d1-a" a b c
      (inputs "d3-recovery-input" "ledger.jsonl" a b c ++ no_faults)

abbrev restored : ℕ → Value
restored n = dict_of (
    ("position", int n)
    ∷ ("sha256", str zeros)
    ∷ ("integrity", str "PASS")
    ∷ ("foreign_keys", str "PASS")
    ∷ [])

abbrev pub signature : Value
signature = dict_of (("main", str zeros) ∷ ("session", str zeros) ∷ ("aux", str zeros) ∷ [])

abbrev result_with : List (String × Value) → Value → ℕ → ℕ → ℕ → Value
result_with checks request a b c = dict_of (
    ("schema", str "hat-restore-acceptance-1")
    ∷ ("request", request)
    ∷ ("request_sha256", str zeros)
    ∷ (
      "databases",
      dict_of (("main", restored a) ∷ ("session", restored b) ∷ ("aux", restored c) ∷ []),
    )
    ∷ ("signature", signature)
    ∷ ("checks", dict_of (("records", str "PASS") ∷ ("authentication", str "PASS") ∷ checks))
    ∷ [])

abbrev pub result_of : Value → ℕ → ℕ → ℕ → Value
result_of = result_with []

abbrev none_lost : Value
none_lost = dict_of (
    ("recovered", arr nil)
    ∷ ("lost", arr nil)
    ∷ ("ambiguous", arr nil)
    ∷ ("unacknowledged_recovered", arr nil)
    ∷ ("rejected", arr nil)
    ∷ [])

-- the result of a recovery's comparison
abbrev pub recovery_result : ℕ → ℕ → ℕ → Value
recovery_result a b c =
    result_with (("fault_outcomes", none_lost) ∷ ("acknowledged_loss", str "NONE") ∷ [])
      (recovery_comparison a b c) a b c

abbrev pub comparison : Value
comparison = request_from "compare" "comparison" "d1-a" "d2-preflight" "ledger.jsonl" 1 2 3

abbrev pub recheck : Value
recheck =
    request_from "verification-baseline" "baseline" "d1-0123456789abcdef0123456789abcdef"
      "d2-preflight" "ledger.jsonl" 4 5 6

abbrev pub writes : Value
writes =
    request_from "new-writes" "fresh-writes" "d1-0123456789abcdef0123456789abcdef"
      "current-verify-exclusive" "new-writes.jsonl" 7 8 9

-- a ledger of two operations, one acknowledged and one rejected
abbrev row : String → Value
row key = dict_of (("op_key", str key) ∷ ("payload", str "x") ∷ [])

abbrev event : String → String → ℕ → Value
event kind key n =
    dict_of
      (("event", str kind) ∷ ("api", str "main_ops") ∷ ("row", row key) ∷ ("time_ns", int n) ∷ [])

abbrev acknowledgement : String → ℕ → Value
acknowledgement key n = dict_of (
    ("event", str "acknowledged")
    ∷ ("api", str "main_ops")
    ∷ ("row", row key)
    ∷ ("time_ns", int n)
    ∷ ("id", str "17")
    ∷ [])

abbrev start : Value
start = dict_of (
    ("event", str "start")
    ∷ ("run_id", str "d3-0123456789abcdef0123456789abcdef")
    ∷ ("source_epoch", str "d1-a")
    ∷ ("time_ns", int 1)
    ∷ ("utc", str "2026-01-31T23:59:59Z")
    ∷ [])

abbrev stop : Value
stop = dict_of (
    ("event", str "stop")
    ∷ ("submitted", int 2)
    ∷ ("acknowledged", int 1)
    ∷ ("rejected", int 1)
    ∷ ("uncertain", int 0)
    ∷ ("time_ns", int 9)
    ∷ ("utc", str "2026-01-31T23:59:59Z")
    ∷ [])

abbrev pub fault_events : Value
fault_events = arr (
    cons start (
      cons (event "submitted" "d3-b" 2) (
        cons (event "submitted" "d3-a" 3)
          (cons (acknowledgement "d3-b" 4) (cons (event "rejected" "d3-a" 5) (cons stop nil))))))

abbrev pub outcomes_of_fault : String → String → Value
outcomes_of_fault recovered rejected = dict_of (
    ("recovered", arr (cons (str recovered) nil))
    ∷ ("lost", arr nil)
    ∷ ("ambiguous", arr nil)
    ∷ ("unacknowledged_recovered", arr nil)
    ∷ ("rejected", arr (cons (str rejected) nil))
    ∷ [])
