-- ===== src/Faults/Examples.antt =====
-- A fault of two operations, and the theorem at it.
use highly_available_trailba.Prelude.{
  ℕ, ◌≡◌, refl, String, List, [], ◌∷◌, All, ok, ◌==◌, string_eq, pair_beq, if◌then◌else◌,
}
use highly_available_trailba.Py.Value.{Value, str, int, obj, dict}
use highly_available_trailba.Ledger.Records.{Key}
use highly_available_trailba.Ledger.Tally.{has_row, one_if}
use highly_available_trailba.Faults.Classify.{
  Category, recovered, ambiguous, Found, Seen, see_all, classify_fault,
}
use highly_available_trailba.Faults.Sorted.{count_key, key_of_sorted, Right}
use highly_available_trailba.Faults.Complete.{unseen, classify_fault_complete}

abbrev row : String → Value
row key = obj (dict (("op_key", str key) ∷ ("payload", str "p") ∷ []))

abbrev event : String → String → String → Value
event kind api key =
    obj (dict (("event", str kind) ∷ ("api", str api) ∷ ("row", row key) ∷ ("id", int 7) ∷ []))

abbrev events : List Value
events =
    event "submitted" "main_ops" "d3-1"
    ∷ event "acknowledged" "main_ops" "d3-1"
    ∷ event "submitted" "aux_ops" "d3-2"
    ∷ event "uncertain" "aux_ops" "d3-2"
    ∷ []

abbrev show : ℕ → String
show n = "7"

-- the image has the acknowledged row only
abbrev image : Key → List Found
image k = if k.0 == "main_ops" then ("7", "p") ∷ [] else []

abbrev sorted : List (Category × Key)
sorted = (recovered, ("main_ops", "d3-1")) ∷ (ambiguous, ("aux_ops", "d3-2")) ∷ []

sorted_ok : classify_fault show image events ≡ ok sorted
unfolding classify_fault pair_beq
sorted_ok = refl

classify_fault_complete_example :
    (s : Seen) × (see_all events unseen ≡ ok s)
    × ((k : Key) → count_key key_of_sorted k sorted ≡ one_if (has_row k s.rows))
    × All (Right image s.outcomes) sorted
classify_fault_complete_example = classify_fault_complete show image events sorted_ok
