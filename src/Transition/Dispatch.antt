-- ===== src/Transition/Dispatch.antt =====
-- hat/transition.py: `main`, which runs one request under the node's lock. What an action does
-- (`execute`) and what the reading actions find are arguments, over an outside world that also says
-- the node's configuration, its boot, and whether the files of the node's own journal are safe.
pub mod Once
use highly_available_trailba.Prelude.{
  ℕ, Bool, true, false, ◌&&◌, ◌||◌, not, String, List, [], ◌∷◌, Option, none, some, ◌==◌, string_eq,
  pair_eq, contains, find?, Result, ok, raise, raise_if, Exc, value_error, runtime_error, os_error,
  if◌then◌else◌, leb,
}
use highly_available_trailba.Fallible
use highly_available_trailba.Exec.{Exec, lift, gets, pure, throw_if, ◌>>=◌, ◌>>◌}
use highly_available_trailba.Py.Value.{Value}
use highly_available_trailba.Transition.Requests.{Config, Request, validate_request}

-- What `<operation>/<action>.json` says.
pub data Record : Type 0 where
  intent : Record
  done : Value → Record

-- operation and action
abbrev pub Key : Type 0
Key = String × String

abbrev pub key_of : Request → Key
key_of r = (r.operation, r.action)

pub record Node (W : Type 0) : Type 0 where
  pub records : List (Key × Record)
  -- of each record to be written: whether the write succeeds; all do where the list ends
  pub writes : List Bool
  pub outside : W

-- What the node reads of its surroundings.
pub record Surroundings (W : Type 0) : Type 0 where
  pub config : W → Config
  pub boot_id : W → String
  pub secure : W → Result (Unit {0})
  pub look : Request → W → Result Value

-- what the file of a record says; the newest comes first
unfoldable pub record_of : Key → List (Key × Record) → Option Record
record_of k [] = none
record_of k ((j, r) ∷ rs) =
    let rest = record_of k rs in if ◌==◌ {A = String × String} j k then some r else rest

unfoldable pub is_reading : Request → Bool
is_reading r = contains ("inspect-cold" ∷ "inspect-frozen" ∷ []) r.action

unfoldable pub unless_recorded : Option Record → Result (Unit {0})
unless_recorded none = ok tt
unless_recorded (some r) =
    raise (runtime_error "operation already attempted; reconciliation required")

module _ {W : Type 0} where
  -- `atomic_json(record, ...)`
  unfoldable pub write_record : Key → Record → Exec (Node W) (Unit {0})
  write_record k r n = elim n.writes [
    | [] ↦ (ok tt, record n { records = (k, r) ∷ n.records })
    | good ∷ rest ↦
        if good
        then (ok tt, record n { records = (k, r) ∷ n.records; writes = rest })
        else (raise (os_error "write failed"), record n { writes = rest })
  ]

  module _ (s : Surroundings W) (execute : Request → W → Result Value × W) where
    -- what is recorded of an action that ended so
    unfoldable pub settle : Request → Result Value × W → Exec (Node W) Value
    settle r (raise e, w) n = (raise e, record n { outside = w })
    settle r (ok v, w) n = (write_record (key_of r) (done v) >> pure v) (record n { outside = w })

    unfoldable pub run_action : Request → Exec (Node W) Value
    unfolding settle
    run_action r n = settle r (execute r n.outside) n

    -- `main` for an action that changes the node
    unfoldable pub mutate : Request → Exec (Node W) Value
    unfolding run_action
    mutate r = write_record (key_of r) intent >> run_action r

    unfoldable pub perform : Request → Exec (Node W) Value
    unfolding is_reading unless_recorded
    perform r n =
        if is_reading r
        then (s.look r n.outside, n)
        else elim (unless_recorded (record_of (key_of r) n.records)) [
          | raise e ↦ (raise e, n)
          | ok u ↦ mutate r n
        ]

    -- `main` under the lock. The second validation sees the surroundings that the first one saw.
    unfoldable pub locked : Request → Exec (Node W) Value
    unfolding perform
    locked r n =
        if r.action == "probe"
        then (s.look r n.outside, n)
        else elim (s.secure n.outside) [ raise e ↦ (raise e, n) | ok u ↦ perform r n ]

    -- `main`
    unfoldable pub dispatch : Value → Exec (Node W) Value
    unfolding locked
    dispatch v n = elim (validate_request v (s.config n.outside) (s.boot_id n.outside)) [
      | raise e ↦ (raise e, n)
      | ok r ↦ locked r n
    ]
