-- ===== src/Control/Serving.antt =====
-- hat/control.py: which writer the journal gives authority to (`_exact_route`, `current_writer`), and whether a
-- recovery that is not finished may be served (`_d3_serving_state`). SHA-256, canonical JSON and `json.loads` of bytes
-- are arguments.
pub mod Writer
pub mod Recovered
pub mod Examples
use highly_available_trailba.Prelude.{
  ℕ, ◌+◌, ◌-◌, ◌%◌, ◌≡◌, Bool, true, false, ◌&&◌, ◌||◌, not, String, List, [], ◌∷◌, ◌++◌, map,
  Option, none, some, ◌==◌, nat_eq, string_eq, list_eq, pair_eq, leb, length, take, any, all,
  contains, find?, Result, ok, raise, raise_if, Exc, value_error, runtime_error, if◌then◌else◌,
  bind, or_raise,
}
use highly_available_trailba.Fallible.{◌>>=◌, ◌>>◌}
use highly_available_trailba.Py.Value.{Value, str, obj, has_keys, get, is_text, is_str}
use highly_available_trailba.Py.Text.{codes, is_digit}
use highly_available_trailba.Control.Phases.{
  Mark, Status, intent, done, status_eq, d3_phases, phase_plan, expected, expected_from,
}
use highly_available_trailba.Control.Rows.{
  Operation, OperationRow, StepRow, Db, mark, loads, is_empty, is_acceptance, select_operation,
  has_unfinished, steps_of,
}
use highly_available_trailba.Control.State.{State, authority_of}
use highly_available_trailba.Control.Journal.{evidence_of}
use highly_available_trailba.Control.Accept.{evidence_for}
use highly_available_trailba.Control.Proof.{validate_d3_proof}

-- `value == {'writer':writer,'epoch':epoch,'config_sha':digest}`
unfoldable pub exact_route : Value → String → String → String → Bool
unfolding has_keys is_text get
exact_route value writer epoch digest =
    has_keys ("writer" ∷ "epoch" ∷ "config_sha" ∷ []) value
    && is_text writer (get value "writer")
    && is_text epoch (get value "epoch")
    && is_text digest (get value "config_sha")

-- `any(e!='{}' for _,_,status,e in steps if status=='intent')`, denied
unfoldable pub plain_intents : List StepRow → Bool
unfolding is_empty
plain_intents steps = all (λ s. not (s.status == intent) || is_empty s.evidence) steps

-- SELECT ... WHERE complete=1 ORDER BY rowid DESC LIMIT 1
unfoldable pub last_complete : List OperationRow → Option OperationRow
last_complete [] = none
last_complete (r ∷ rs) = elim (last_complete rs) [
  | some q ↦ some q
  | none ↦ if r.complete then some r else none
]

-- the row of a phase that is done
unfoldable pub done_row : String → List StepRow → Option StepRow
done_row phase steps = find? (λ s. s.phase == phase && s.status == done) steps

-- Who writes, of which operation.
pub record Authority : Type 0 where
  pub operation : String
  pub writer : String
  pub epoch : String

abbrev pub malformed_route : Exc
malformed_route = runtime_error "completed route evidence is malformed"

unfoldable pub route_value : Option StepRow → Result Value
unfolding loads
route_value none = raise malformed_route
route_value (some s) = or_raise (loads s.evidence) malformed_route

unfoldable pub some_complete : Option OperationRow → Result OperationRow
some_complete none = raise (runtime_error "no completed writer authority")
some_complete (some r) = ok r

module _ (sha256 : List ℕ → String) where
  -- the part of `current_writer` that is about one completed operation
  unfoldable pub writer_of : Result (List ℕ) → OperationRow → List StepRow → Result Authority
  unfolding plain_intents done_row route_value exact_route
  writer_of ingress row steps = do
    plan ← phase_plan row.source row.target
    raise_if (not (map mark steps == expected plan) || not (plain_intents steps))
        (runtime_error "completed operation journal differs")
    route ← route_value (done_row "route" steps)
    bytes ← ingress
    raise_if (not (exact_route route row.target row.new_epoch (sha256 bytes)))
        (runtime_error "completed route differs from writer authority")
    ok (record { operation = row.id; writer = row.target; epoch = row.new_epoch })

  -- `current_writer`; `ingress` is what reading its file gives
  unfoldable pub current_writer : Result (List ℕ) → State → Result Authority
  unfolding has_unfinished last_complete some_complete writer_of authority_of steps_of
  current_writer ingress s = do
    authority_of s.journal s.disk
    raise_if (has_unfinished s.db)
        (runtime_error "unfinished operation has no current writer authority")
    row ← some_complete (last_complete s.db.operations)
    writer_of ingress row (steps_of row.id s.db)

-- What `failure.json` gives when it is read: nothing is there, it cannot be read safely, or its bytes. A snapshot that the
-- caller took holds bytes.
pub data Failure : Type 0 where
  absent unreadable : Failure
  holds : List ℕ → Failure

-- `D3_PHASES[:10]` and `D3_PHASES[10:]`
abbrev pub served : List String
served = take 10 d3_phases

abbrev pub rejoining : List String
rejoining = "rejoin_boot" ∷ "rejoin" ∷ "verify_redundancy" ∷ []

-- [A-Za-z], and with [0-9_]
unfoldable pub is_letter : ℕ → Bool
is_letter c = leb b'a' c && leb c b'z' || leb b'A' c && leb c b'Z'

unfoldable pub is_word : List ℕ → Bool
unfolding is_letter is_digit
is_word [] = false
is_word (c ∷ cs) = is_letter c && all (λ d. is_letter d || is_digit d || d == b'_') cs

-- the phase of the last row
unfoldable pub last_phase : List StepRow → String
last_phase [] = ""
last_phase (s ∷ []) = s.phase
last_phase (s ∷ t ∷ rest) = last_phase (t ∷ rest)

-- the rows of a recovery that is verified, and some of the rows after it
unfoldable pub is_served_so_far : List StepRow → Bool
is_served_so_far steps =
    leb 20 (length steps)
    && leb (length steps) 26
    && map mark steps == expected served ++ take (length steps - 20) (expected_from 10 rejoining)

-- what a failure of the last phase says
unfoldable pub is_failure_of : List StepRow → Value → Bool
unfolding has_keys is_text get last_phase is_str is_word
is_failure_of steps value =
    has_keys ("phase" ∷ "error" ∷ []) value
    && is_text (last_phase steps) (get value "phase")
    && contains rejoining (last_phase steps)
    && is_str (λ e. is_word (codes e)) (get value "error")

unfoldable pub is_failure_read : List StepRow → Result Value → Bool
unfolding is_failure_of
is_failure_read steps (ok value) = is_failure_of steps value
is_failure_read steps (raise e) = false

-- `set(route)=={...} and route['config_sha']==digest`
unfoldable pub is_route_at : String → Result Value → Bool
unfolding has_keys is_text get
is_route_at digest (ok route) =
    has_keys ("writer" ∷ "epoch" ∷ "config_sha" ∷ []) route
    && is_text digest (get route "config_sha")
is_route_at digest (raise e) = false

module _ (canonical : Value → Result (List ℕ)) (sha256 : List ℕ → String)
    (loads_bytes : List ℕ → Result Value) where
  -- the failure of a recovery that is served: none, or one of a phase that was begun after the recovery
  unfoldable pub may_have_failed : List StepRow → Failure → Bool
  unfolding is_failure_read
  may_have_failed steps absent = true
  may_have_failed steps unreadable = false
  may_have_failed steps (holds raw) =
      (length steps - 20) % 2 == 1 && is_failure_read steps (loads_bytes raw)

  -- the evidence of a recovery that is served
  unfoldable pub is_proven :
      Operation → String → List StepRow → Failure → Result (List (String × Value)) → Bool
  unfolding validate_d3_proof is_route_at evidence_for may_have_failed
  is_proven o digest steps failure (raise e) = false
  is_proven o digest steps failure (ok evidence) =
      elim (validate_d3_proof canonical sha256 o evidence true) [
        | raise e ↦ false
        | ok u ↦ is_route_at digest (evidence_for "route" evidence) && may_have_failed steps failure
      ]

  unfoldable pub is_serving_row : String → Failure → OperationRow → List StepRow → Bool
  unfolding is_acceptance is_served_so_far plain_intents is_proven evidence_of
  is_serving_row digest failure row steps =
      row.source == "B"
      && row.target == "A"
      && not row.complete
      && is_acceptance row.restore_contract
      && is_served_so_far steps
      && plain_intents steps
      && is_proven row.operation digest steps failure (evidence_of steps)

  -- `_d3_serving_state`
  unfoldable pub d3_serving_state : Db → String → String → Failure → Bool
  unfolding select_operation steps_of is_serving_row
  d3_serving_state db ident digest failure = elim (select_operation ident db) [
    | none ↦ false
    | some row ↦ is_serving_row digest failure row (steps_of ident db)
  ]
