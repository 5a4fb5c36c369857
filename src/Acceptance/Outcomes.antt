-- ===== src/Acceptance/Outcomes.antt =====
-- hat/recovery.py: `validate_fault_outcomes`.
pub mod Lossless
use highly_available_trailba.Prelude.{
  ℕ, ◌≡◌, Bool, true, false, ◌&&◌, ◌||◌, not, String, List, [], ◌∷◌, ◌++◌, map, Option, none, some,
  ◌==◌, string_eq, list_eq, list_beq, all, contains, Result, ok, raise, raise_if, Exc, value_error,
  key_error, if◌then◌else◌, bind,
}
use highly_available_trailba.Fallible.{◌>>=◌, ◌>>◌}
use highly_available_trailba.Py.Value.{Value, has_keys, get}
use highly_available_trailba.Py.Text.{is_op_path}
use highly_available_trailba.Py.Access.{recast}
use highly_available_trailba.Py.Sorting.{sorted, is_distinct}
use highly_available_trailba.Ledger.Records.{
  Kind, submitted, acknowledged, rejected, uncertain, is_submission, Event, need,
}
use highly_available_trailba.Acceptance.Requests.{texts_in}
use highly_available_trailba.Acceptance.Ledger.{Faults, fault_ledger, operation_name, names}

-- The outcomes of a fault: the names of the operations of each category.
pub record Outcomes : Type 0 where
  pub recovered : List String
  pub lost : List String
  pub ambiguous : List String
  pub unacknowledged_recovered : List String
  pub rejected : List String

abbrev pub categories : List String
categories = "recovered" ∷ "lost" ∷ "ambiguous" ∷ "unacknowledged_recovered" ∷ "rejected" ∷ []

-- A sorted list of the names of operations. A list that holds something else than texts is refused like
-- one that is out of order.
unfoldable pub category : Value → Option (List String)
unfolding texts_in sorted list_beq is_op_path
category v = elim (texts_in v) [
  | none ↦ none
  | some ops ↦ if ops == sorted ops && all is_op_path ops then some ops else none
]

abbrev outcomes_from :
    List String → List String → List String → List String → List String → Outcomes
outcomes_from a b c d e = record {
  recovered = a;
  lost = b;
  ambiguous = c;
  unacknowledged_recovered = d;
  rejected = e;
}

abbrev pub invalid_outcomes : Exc
invalid_outcomes = value_error "invalid fault outcomes"

-- the shape of the outcomes: a dict of the five categories
unfoldable pub outcomes_of : Value → Exc → Result Outcomes
unfolding has_keys category get
outcomes_of v e = do
  raise_if (not (has_keys categories v)) e
  a ← need (category (get v "recovered")) e
  b ← need (category (get v "lost")) e
  c ← need (category (get v "ambiguous")) e
  d ← need (category (get v "unacknowledged_recovered")) e
  f ← need (category (get v "rejected")) e
  ok (outcomes_from a b c d f)

-- `[item for k in categories for item in value[k]]`
abbrev pub flattened : Outcomes → List String
flattened o = o.recovered ++ (o.lost ++ (o.ambiguous ++ (o.unacknowledged_recovered ++ o.rejected)))

abbrev pub is_empty_list : List String → Bool
is_empty_list [] = true
is_empty_list (s ∷ ss) = false

-- each name once, the same names as the expected ones, and none lost
unfoldable pub are_complete : Outcomes → List String → Bool
unfolding is_distinct contains
are_complete o expected =
    is_distinct (flattened o)
    && all (contains expected) (flattened o)
    && all (contains (flattened o)) expected
    && is_empty_list o.lost

-- `kinds[name]`: the last outcome of this name
unfoldable pub kind_named : String → List Event → Option Kind
unfolding is_submission
kind_named name [] = none
kind_named name (e ∷ es) = elim (kind_named name es) [
  | some k ↦ some k
  | none ↦ if not (is_submission e.kind) && operation_name e.key == name then some e.kind else none
]

unfoldable pub same_kind : Kind → Kind → Bool
same_kind submitted submitted = true
same_kind acknowledged acknowledged = true
same_kind rejected rejected = true
same_kind uncertain uncertain = true
same_kind j k = false

-- `for item in names: if kinds[item] != kind: raise e`
unfoldable pub check_kind : List Event → Kind → Exc → List String → Result (Unit {0})
unfolding kind_named same_kind
check_kind events kind e [] = ok tt
check_kind events kind e (name ∷ rest) =
    bind (need (kind_named name events) (key_error name))
      (λ k. bind (raise_if (not (same_kind k kind)) e) (λ _. check_kind events kind e rest))

unfoldable pub check_kinds : Outcomes → List Event → Result (Unit {0})
unfolding check_kind
check_kinds o events = do
  check_kind events acknowledged (value_error "fault recovery semantics differ") o.recovered
  check_kind events rejected (value_error "fault rejection semantics differ") o.rejected
  check_kind events uncertain (value_error "fault uncertainty semantics differ") o.ambiguous
  check_kind events uncertain (value_error "fault uncertainty semantics differ")
      o.unacknowledged_recovered

unfoldable pub check_outcomes : Value → Value → Result Value
unfolding outcomes_of fault_ledger sorted are_complete check_kinds
check_outcomes v events = do
  o ← outcomes_of v invalid_outcomes
  r ← fault_ledger events
  raise_if (not (are_complete o (sorted (names r.tally.rows))))
      (value_error "fault outcomes are incomplete or acknowledge loss")
  check_kinds o r.events
  ok v

unfoldable pub validate_fault_outcomes : Value → Value → Result Value
unfolding check_outcomes recast
validate_fault_outcomes v events = recast "invalid fault outcomes" (check_outcomes v events)
