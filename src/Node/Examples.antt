-- ===== src/Node/Examples.antt =====
-- A node's operations at concrete states, and the theorems at them.
use highly_available_trailba.Prelude.{
  ℕ, ◌+◌, ◌≤◌, ◌≡◌, refl, Bool, true, false, String, List, [], ◌∷◌, some, none, ok, all, contains,
  ◌==◌, string_eq, if◌then◌else◌,
}
use highly_available_trailba.Exec.{Exec}
use highly_available_trailba.Py.Value.{Value, obj, str, int, Fields, dict, keys}
use highly_available_trailba.Node.Positions.{
  NodeState, is_healthy, is_healthy_iff, has_positions, is_cut,
}
use highly_available_trailba.Node.Authority.{activation, authority}
use highly_available_trailba.Node.Logs.{log_bad, log_fields, values_of, text_at}
use highly_available_trailba.Prelude.{beq_refl, arith}
use highly_available_trailba.Node.Logs.Levels.{quiet_level, log_bad-quiet}
use highly_available_trailba.Node.Processes.{
  exited, killed_by, is_graceful, Children, Quiesced, quiesce_owned, graceful_stop, stop_uploader,
  checked_exit,
}
use highly_available_trailba.Node.Processes.Stopped.{ChildrenLaws, quiesce_owned-stopped}

abbrev cut : Fields
cut = dict (("main", int 5) ∷ ("session", int 6) ∷ ("aux", int 7) ∷ [])

abbrev sampled : NodeState
sampled = record { sampled_at = 100; positions = cut; refusals = [] }

is_healthy_iff_example :
    (is_healthy sampled 120 ≡ true
      → (sampled.refusals ≡ [])
        × (sampled.sampled_at ≤ 120)
        × (120 ≤ sampled.sampled_at + 30)
        × (has_positions sampled ≡ true))
    × ((sampled.refusals ≡ [])
        → sampled.sampled_at ≤ 120
        → 120 ≤ sampled.sampled_at + 30
        → has_positions sampled ≡ true
        → is_healthy sampled 120 ≡ true)
is_healthy_iff_example = is_healthy_iff sampled 120

abbrev node_role : String
node_role = "writer"

abbrev epoch : String
epoch = "d1-a"

abbrev boot : String
boot = "boot-1"

abbrev root : ℕ
root = 0

activated : authority "writer" "d1-a" "boot-1" (some (activation "d1-a" "boot-1")) ≡ true
unfolding authority activation
activated = refl

abbrev startup_line : Fields
startup_line = dict (
    ("time", str "t")
    ∷ ("level", str "INFO")
    ∷ ("msg", str "litestream")
    ∷ ("version", str "0.5.17")
    ∷ ("level", str "")
    ∷ [])

startup_accepted : log_bad (some (obj startup_line)) ≡ false
unfolding log_bad log_fields keys contains
startup_accepted = refl

log_bad-quiet_example :
    (fs : Fields) × (message : String) × (fields : List String) × (some (obj startup_line)
      ≡ some (obj fs))
    × (text_at "msg" fs ≡ some message)
    × (log_fields message ≡ some fields)
    × (all (quiet_level message) (values_of "level" fs) ≡ true)
log_bad-quiet_example = log_bad-quiet (some (obj startup_line)) startup_accepted

-- the processes that have not stopped, by name
abbrev Running : Type 0
Running = String → Bool

abbrev stop : String → Running → Running
stop name w other = if name == other then false else w other

stopped_self : (name : String) (w : Running) → stop name w name ≡ false
stopped_self name w = rw (beq_refl name) refl

stopped_keeps : (name other : String) (w : Running) → w other ≡ false → stop name w other ≡ false
stopped_keeps name other w h = ground (arith, h)

abbrev obedient : Children Running
obedient = record {
  poll = λ name w. if w name then none else some (exited 0);
  terminate = λ name w. w;
  wait = λ name w. (some (killed_by 15), stop name w);
  kill = stop;
}

abbrev obedient-laws : ChildrenLaws obedient
obedient-laws = record {
  runs = λ name w. w name;
  wait-stopped = λ name w e h. stopped_self name w;
  wait-keeps = λ name other w h. stopped_keeps name other w h;
  terminate-keeps = λ name other w h. h;
}

abbrev sync_all : Exec Running Value
sync_all w = (ok (obj cut), w)

abbrev verify_all : Exec Running (Unit {0})
verify_all w = (ok tt, w)

abbrev both : Running
both name = true

abbrev after : Running
after = stop "replicate" (stop "trail" both)

abbrev node_report : Quiesced
node_report = record { cut = obj cut; trail_exit = killed_by 15; uploader_exit = killed_by 15 }

quiesced_ok : quiesce_owned obedient sync_all verify_all both ≡ (ok node_report, after)
unfolding quiesce_owned graceful_stop stop_uploader is_cut checked_exit
quiesced_ok = refl

quiesce_owned-stopped_example :
    ((t : Running) × (u : Running) × (sync_all t ≡ (ok node_report.cut, u)) × (t "trail" ≡ false))
    × (is_cut node_report.cut ≡ true)
    × (is_graceful node_report.trail_exit ≡ true)
    × (is_graceful node_report.uploader_exit ≡ true)
    × (after "trail" ≡ false)
    × (after "replicate" ≡ false)
quiesce_owned-stopped_example =
    quiesce_owned-stopped obedient obedient-laws sync_all verify_all (λ name w h. h) (λ name w h. h)
      both quiesced_ok
