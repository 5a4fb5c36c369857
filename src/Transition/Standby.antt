-- ===== src/Transition/Standby.antt =====
-- hat/transition.py: what is accepted as the health of a standby that starts (`_standby_health`).
pub mod Ready
use highly_available_trailba.Prelude.{
  ℕ, Bool, true, false, ◌&&◌, ◌||◌, not, String, List, [], ◌∷◌, Option, none, some, ◌==◌, nat_eq,
  string_eq, all, contains, length, leb, Result, ok, raise, raise_if, Exc, runtime_error,
  if◌then◌else◌,
}
use highly_available_trailba.Fallible.{◌>>=◌, ◌>>◌}
use highly_available_trailba.Py.Value.{
  Value, null, bool, int, str, arr, obj, Items, nil, cons, Fields, end, field, has_keys, get,
  is_text, lookup, keys, values, py_eq,
}
use highly_available_trailba.Node.Positions.{dbs, positive_int}

unfoldable pub is_bool : Bool → Value → Bool
is_bool true (bool b) = b
is_bool false (bool b) = not b
is_bool b v = false

unfoldable pub is_none : Value → Bool
is_none null = true
is_none v = false

unfoldable pub texts_of : Items → Option (List String)
texts_of nil = some []
texts_of (cons (str s) vs) =
    let rest = texts_of vs in elim rest [ none ↦ none | some ss ↦ some (s ∷ ss) ]
texts_of (cons v vs) = none

-- `refusals`, if it is a list of texts
unfoldable pub refusals_of : Value → Option (List String)
unfolding texts_of
refusals_of (arr vs) = texts_of vs
refusals_of v = none

abbrev initial : List String
initial =
    "starting" ∷ "position sample stale or clock changed"
    ∷ "required database positions unconfirmed" ∷ []

abbrev pub allowed : List String
allowed =
    "starting" ∷ "required database positions unconfirmed" ∷ "main: database not yet restored"
    ∷ "main: position unconfirmed" ∷ "session: database not yet restored"
    ∷ "session: position unconfirmed" ∷ "aux: database not yet restored"
    ∷ "aux: position unconfirmed" ∷ []

-- the very first state of a node, before its first sample
unfoldable pub is_initial : Value → List String → Bool
unfolding is_none is_bool py_eq get contains
is_initial v refusals =
    py_eq (get v "sampled_at") (int 0)
    && py_eq (get v "positions") (obj end)
    && is_none (get v "processes")
    && is_none (get v "phase")
    && all (contains initial) refusals
    && all (contains refusals) initial
    && length refusals == 3
    && is_bool false (get v "healthy")

unfoldable pub is_startup_phase : Value → Bool
unfolding is_none is_text
is_startup_phase v = is_none v || is_text "starting" v || is_text "restoring" v

unfoldable pub positions_of : Value → Option Fields
unfolding keys values positive_int contains
positions_of (obj fs) =
    if all (contains dbs) (keys fs) && all positive_int (values fs) then some fs else none
positions_of v = none

-- not `positions[db] < position`, where the standby has a position for the database
unfoldable pub reaches : Fields → String → ℕ → Bool
unfolding lookup
reaches positions db position = elim (lookup positions db) [
  | some (int n) ↦ leb position n
  | _ ↦ true
]

-- a cut, by database
unfoldable pub reaches_all : Fields → List (String × ℕ) → Bool
unfolding reaches
reaches_all positions [] = true
reaches_all positions ((db, position) ∷ cut) =
    reaches positions db position && reaches_all positions cut

-- every follower process is there and runs
unfoldable pub followers_run : Value → Bool
unfolding has_keys values is_bool
followers_run (obj fs) = has_keys dbs (obj fs) && all (is_bool true) (values fs)
followers_run v = false

unfoldable pub is_standby : Value → String → Bool
unfolding get is_text is_bool
is_standby v epoch =
    is_text "standby" (get v "role")
    && is_text epoch (get v "epoch")
    && (is_bool true (get v "healthy") || is_bool false (get v "healthy"))

-- `boot_id is not None and 'boot_id' in value and value['boot_id'] != boot_id`, denied
unfoldable pub boot_unchanged : Option String → Value → Bool
unfolding lookup is_text
boot_unchanged (some boot) (obj fs) = elim (lookup fs "boot_id") [
  | none ↦ true
  | some v ↦ is_text boot v
]
boot_unchanged boot v = true

unfoldable pub no_writer : Value → Bool
unfolding is_bool is_none get
no_writer v = is_bool false (get v "trailbase_running") || is_none (get v "trailbase_running")

-- a standby that is healthy is so altogether
unfoldable pub is_consistent : Value → List String → Fields → Bool
unfolding has_keys is_none is_bool get
is_consistent v refusals positions =
    has_keys dbs (obj positions)
    && length refusals == 0
    && is_none (get v "phase")
    && is_bool false (get v "trailbase_running")

abbrev pub unconfirmed : String → Exc
unconfirmed = runtime_error

abbrev pub need {ℓ} : {A : Type ℓ} → Option A → Exc → Result A
need none e = raise e
need (some a) e = ok a

-- the tests of a sample on its positions, followers and readiness
unfoldable pub position_health :
    Value → List (String × ℕ) → List String → Fields → Result (Unit {0})
unfolding reaches_all followers_run is_consistent
position_health v cut refusals positions = do
  raise_if (not (reaches_all positions cut)) (unconfirmed "standby cut is behind the required cut")
  raise_if (not (followers_run (get v "processes"))) (unconfirmed "standby follower process exited")
  raise_if (is_bool true (get v "healthy") && not (is_consistent v refusals positions))
      (unconfirmed "standby readiness is incomplete or inconsistent")

-- its refusals and its phase are those of a start
unfoldable pub startup_health : Value → List String → Result (Unit {0})
unfolding is_startup_phase
startup_health v refusals = do
  raise_if (not (all (contains allowed) refusals))
      (unconfirmed "standby refusal is not a bounded startup state")
  raise_if (not (is_startup_phase (get v "phase")))
      (unconfirmed "standby phase is not a bounded startup state")

unfoldable pub sampled_health : Value → List (String × ℕ) → List String → Result (Unit {0})
unfolding startup_health position_health positions_of
sampled_health v cut refusals = do
  startup_health v refusals
  positions ←
      need (positions_of (get v "positions")) (unconfirmed "standby positions are unconfirmed")
  position_health v cut refusals positions

unfoldable pub judge : Value → List (String × ℕ) → List String → Result (Unit {0})
unfolding is_initial sampled_health
judge v cut refusals = if is_initial v refusals then ok tt else sampled_health v cut refusals

-- who the node is, that its boot is the same, and that it has no writer
unfoldable pub identity_health : Value → String → Option String → Result (Unit {0})
unfolding is_standby boot_unchanged no_writer
identity_health v epoch boot = do
  raise_if (not (is_standby v epoch)) (unconfirmed "standby identity is unconfirmed")
  raise_if (not (boot_unchanged boot v)) (unconfirmed "standby boot binding changed")
  raise_if (not (no_writer v)) (unconfirmed "standby has a writer process")

unfoldable pub standby_health :
    Value → String → List (String × ℕ) → Option String → Result (Unit {0})
unfolding identity_health refusals_of judge
standby_health v epoch cut boot = do
  identity_health v epoch boot
  refusals ←
      need (refusals_of (get v "refusals")) (unconfirmed "standby refusal state is unconfirmed")
  judge v cut refusals
