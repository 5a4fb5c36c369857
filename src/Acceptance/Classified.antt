-- ===== src/Acceptance/Classified.antt =====
-- hat/recovery.py: `_fault_outcomes`, the classification of a fault's operations that a recovery goes on from.
mod Examples
use Prim.Native.String.{◌++◌ as append}
use highly_available_trailba.Prelude.{
  Bool, true, false, ◌&&◌, not, String, List, [], ◌∷◌, ◌++◌, string_eq, all, contains, Result, ok,
  raise, raise_if, Exc, value_error, runtime_error, type_error, bind, if◌then◌else◌,
}
use highly_available_trailba.Fallible.{◌>>=◌, ◌>>◌}
use highly_available_trailba.Py.Value.{
  Value, str, arr, obj, Items, nil, cons, Fields, values, items, has_keys, get, item, is_text,
  is_str,
}
use highly_available_trailba.Py.Text.{is_op_path}
use highly_available_trailba.Py.Sorting.{is_distinct}

abbrev outcome_categories : List String
outcome_categories =
    "recovered" ∷ "lost" ∷ "ambiguous" ∷ "unacknowledged_recovered" ∷ "rejected" ∷ []

-- a list of operations' paths
unfoldable pub are_paths : Value → Bool
unfolding items is_str is_op_path
are_paths (arr vs) = all (is_str is_op_path) (items vs)
are_paths v = false

unfoldable pub is_classification : Value → Bool
unfolding has_keys values are_paths
is_classification (obj fs) = has_keys outcome_categories (obj fs) && all are_paths (values fs)
is_classification v = false

-- the texts of a list
unfoldable pub row_texts : Items → List String
row_texts nil = []
row_texts (cons (str s) vs) = s ∷ row_texts vs
row_texts (cons v vs) = row_texts vs

-- `[row for rows in value.values() for row in rows]`
unfoldable pub all_texts : List Value → List String
unfolding row_texts
all_texts [] = []
all_texts (arr vs ∷ rest) = row_texts vs ++ all_texts rest
all_texts (v ∷ rest) = all_texts rest

unfoldable pub all_paths : Value → List String
unfolding values all_texts
all_paths (obj fs) = all_texts (values fs)
all_paths v = []

-- `event['api'] + '/' + event['row']['op_key']`
unfoldable pub slash_joined : Value → Value → Result String
slash_joined (str api) (str op) = ok (append api (append "/" op))
slash_joined v w = raise (type_error "can only concatenate str")

unfoldable pub path_of : Value → Result String
unfolding item slash_joined
path_of event = do
  api ← item event "api"
  row ← item event "row"
  op ← item row "op_key"
  slash_joined api op

-- the paths of the events that are submissions
unfoldable pub submitted_paths : List Value → Result (List String)
unfolding item is_text path_of
submitted_paths [] = ok []
submitted_paths (event ∷ events) = bind (item event "event") (λ kind.
    elim (is_text "submitted" kind) [
      | true ↦ bind (path_of event) (λ p. bind (submitted_paths events) (λ ps. ok (p ∷ ps)))
      | false ↦ submitted_paths events
    ])

-- the two name the same paths
unfoldable pub same_names : List String → List String → Bool
unfolding contains
same_names ps qs = all (contains qs) ps && all (contains ps) qs

unfoldable pub has_lost : Value → Bool
has_lost (arr nil) = false
has_lost v = true

-- `_fault_outcomes`
unfoldable pub fault_outcomes : Value → List Value → Result Value
unfolding is_classification submitted_paths is_distinct all_paths same_names has_lost get
fault_outcomes value events = do
  raise_if (not (is_classification value)) (value_error "fault outcome classification is malformed")
  expected ← submitted_paths events
  raise_if (not (is_distinct (all_paths value) && same_names (all_paths value) expected))
      (value_error "fault outcome classifications overlap or omit operations")
  raise_if (has_lost (get value "lost"))
      (runtime_error "acknowledged writes are missing from the recovery image")
  ok value
