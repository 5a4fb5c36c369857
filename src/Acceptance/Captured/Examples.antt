-- ===== src/Acceptance/Captured/Examples.antt =====
-- A source, and a candidate before and after it is the writer.
use highly_available_trailba.Prelude.{
  ◌≡◌, ◌≢◌, refl, true, false, String, [], ◌∷◌, some, ok, raise, value_error, runtime_error,
}
use highly_available_trailba.Py.Value.{Value, str, bool}
use highly_available_trailba.Acceptance.Captured.{
  source_config, cold, writer, producer_proof, cut_report,
}
use highly_available_trailba.Acceptance.Captured.Same.{OneRelease, source_config-cold-writer}
use highly_available_trailba.Acceptance.Samples.{
  ident, dict_of, cut, support, binaries, comparison, result_of, recovery_result,
}

abbrev config : String → String → Value
config role epoch = dict_of (
    ("role", str role)
    ∷ ("epoch", str epoch)
    ∷ ("hostname", str "a")
    ∷ ("binaries", binaries)
    ∷ ("support", support)
    ∷ [])

abbrev candidate : Value
candidate = dict_of (
    ("operation", str ident)
    ∷ ("epoch", str "d1-b")
    ∷ ("boot_id", str "1")
    ∷ ("authority", str "absent")
    ∷ ("cgroup", str "empty")
    ∷ ("mutators", str "none")
    ∷ ("config", config "candidate" "d1-b")
    ∷ ("replica_config", str "")
    ∷ [])

abbrev activated : Value
activated = dict_of (
    ("boot_id", str "1")
    ∷ ("config", config "writer" "d1-c")
    ∷ (
      "status",
      dict_of (
          ("epoch", str "d1-c")
          ∷ ("healthy", bool true)
          ∷ ("trailbase_running", bool true)
          ∷ ("positions", cut 1 2 3)
          ∷ []),
    )
    ∷ [])

sourced : source_config (config "writer" "d1-a") (str "d1-a") ≡ ok (config "writer" "d1-a")
unfolding source_config
sourced = refl

is_cold :
    cold candidate
      (str ident)
      (str "d1-b")
      (str "1")
      (str "candidate")
      (config "writer" "d1-a")
      (str "")
    ≡ ok candidate
unfolding cold
is_cold = refl

writes : writer activated (str "d1-c") (str "1") (config "writer" "d1-a") ≡ ok activated
unfolding writer
writes = refl

source_config-cold-writer_example : OneRelease (config "writer" "d1-a") candidate activated
source_config-cold-writer_example =
    source_config-cold-writer (config "writer" "d1-a") (str "d1-a") candidate (str ident)
      (str "d1-b") (str "1") (str "candidate") (str "") activated (str "d1-c") (str "1") sourced
      is_cold writes

-- Python's False equals 0, so that it serves as the pid of no process
no_process :
    producer_proof
      (dict_of (
        ("unit", str "u")
        ∷ ("load_state", str "loaded")
        ∷ ("main_pid", bool false)
        ∷ ("active_state", str "failed")
        ∷ ("cgroup", str "empty")
        ∷ []))
      (str "u")
    ≢ raise (runtime_error "fault producer death is not independently proven")
unfolding producer_proof
no_process h = cc

reported : cut_report (recovery_result 1 2 3) (some (str "d1-a")) ≡ ok (recovery_result 1 2 3)
unfolding cut_report
reported = refl

other_epoch :
    cut_report (result_of comparison 1 2 3) (some (str "d1-b"))
    ≡ raise (value_error "restore report signature, checks, or epoch differs")
unfolding cut_report
other_epoch = refl
