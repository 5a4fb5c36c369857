-- ===== src/Node/Logs.antt =====
-- hat/node.py: the log records that a node accepts (LOG_FIELDS, `log_bad`). A line is given as what
-- `json.loads` makes of it with `object_pairs_hook=lambda p: p`, or none if it is no JSON; the
-- pairs of an object keep their order and their repetitions.
pub mod Levels
use highly_available_trailba.Prelude.{
  ℕ, Bool, true, false, ◌&&◌, ◌||◌, not, String, List, [], ◌∷◌, ◌++◌, Option, none, some, ◌==◌,
  nat_eq, string_eq, all, any, contains, length, leb, Result, ok, raise, is_ok, if◌then◌else◌, Eq,
}
use highly_available_trailba.Py.Value.{
  Value, int, str, arr, obj, Items, nil, cons, Fields, end, field, keys,
}
use highly_available_trailba.Node.Positions.{txid}

-- LOG_FIELDS
unfoldable pub log_fields : String → Option (List String)
log_fields m =
    if m == "litestream"
    then some ("version" ∷ [])
    else if m == "retention disabled; cloud provider lifecycle policies must handle retention"
    then some ("hint" ∷ [])
    else if m == "control socket listening"
    then some ("system" ∷ "path" ∷ [])
    else if m == "initialized db"
    then some ("path" ∷ [])
    else if m == "replicating to"
    then some ("type" ∷ "sync-interval" ∷ "bucket" ∷ "path" ∷ "region" ∷ "endpoint" ∷ [])
    else if m == "starting compaction monitor"
    then some ("system" ∷ "interval" ∷ [])
    else if m == "starting L0 retention monitor"
    then some ("system" ∷ "interval" ∷ "retention" ∷ [])
    else if m == "snapshot complete" || m == "compaction complete"
    then some ("system" ∷ "db" ∷ "txid" ∷ "size" ∷ [])
    else if m == "signal received, litestream shutting down"
    then some ("signal" ∷ [])
    else if m == "litestream shut down"
    then some []
    else if m == "l0 retention enforced"
    then some ("system" ∷ "db" ∷ "deleted_count" ∷ "max_l1_txid" ∷ [])
    else if m == "entering follow mode"
    then some ("db" ∷ "replica" ∷ "output" ∷ "txid" ∷ "interval" ∷ [])
    else if m == "follow: applied updates"
    then some ("db" ∷ "replica" ∷ "from_txid" ∷ "to_txid" ∷ [])
    else none

-- `[v for k, v in pairs if k == name]`
unfoldable pub values_of : String → Fields → List Value
values_of name end = []
values_of name (field k v fs) = let rest = values_of name fs in if k == name then v ∷ rest else rest

-- the last of some values, which is what `dict(pairs)` keeps
unfoldable pub last_of : List Value → Option Value
last_of [] = none
last_of (v ∷ []) = some v
last_of (v ∷ w ∷ vs) = last_of (w ∷ vs)

unfoldable pub last_value : String → Fields → Option Value
unfolding last_of values_of
last_value name fs = last_of (values_of name fs)

-- the names that some pairs repeat
unfoldable pub has_duplicates : List String → Bool
has_duplicates [] = false
has_duplicates (k ∷ ks) = contains ks k || has_duplicates ks

-- `duplicates == ['level']`, where there are any: no other name is repeated
unfoldable pub only_level_repeats : List String → Bool
only_level_repeats [] = true
only_level_repeats (k ∷ ks) = (k == "level" || not (contains ks k)) && only_level_repeats ks

unfoldable pub as_text : Option Value → Option String
as_text (some (str s)) = some s
as_text v = none

unfoldable pub text_at : String → Fields → Option String
unfolding last_value as_text
text_at name fs = as_text (last_value name fs)

unfoldable pub equals_text : String → Option String → Bool
equals_text s none = false
equals_text s (some t) = t == s

unfoldable pub is_text_at : String → String → Fields → Bool
unfolding text_at equals_text
is_text_at name s fs = equals_text s (text_at name fs)

-- `levels == ['INFO', '']` of the pinned start-up record
unfoldable pub startup_levels : List Value → Bool
startup_levels (str a ∷ str b ∷ []) = a == "INFO" && b == ""
startup_levels _ = false

-- `['INFO', n]` with n a compaction level
unfoldable pub compaction_levels : List Value → Bool
compaction_levels (str a ∷ int n ∷ []) = a == "INFO" && (n == 1 || n == 2 || n == 3 || n == 9)
compaction_levels _ = false

unfoldable pub accepted_repeat : Fields → Bool
unfolding startup_levels compaction_levels is_text_at values_of only_level_repeats
accepted_repeat fs =
    only_level_repeats (keys fs)
    && (startup_levels (values_of "level" fs)
          && is_text_at "msg" "litestream" fs
          && is_text_at "version" "0.5.17" fs
        || compaction_levels (values_of "level" fs)
          && (is_text_at "msg" "starting compaction monitor" fs
              || is_text_at "msg" "compaction complete" fs))

-- `isinstance(item, str) and item`
unfoldable pub is_nonempty_text : Value → Bool
is_nonempty_text (str s) = not (s == "")
is_nonempty_text v = false

unfoldable pub is_count : Value → Bool
is_count (int n) = true
is_count v = false

-- the pairs of a list whose entries are lists of two, the first a text
pairs_of_items : Items → Option Fields
pairs_of_items nil = some end
pairs_of_items (cons (arr (cons (str k) (cons v nil))) vs) =
    let rest = pairs_of_items vs in elim rest [ none ↦ none | some fs ↦ some (field k v fs) ]
pairs_of_items _ = none

-- `not a > b`, of two positions that are given
unfoldable pub ordered : Result ℕ → Result ℕ → Bool
ordered (ok a) (ok b) = leb a b
ordered a b = false

-- `dict(item)`, for an item whose entries are pairs with a text first
unfoldable pub pairs_of : Value → Option Fields
unfolding pairs_of_items
pairs_of (obj fs) = some fs
pairs_of (arr vs) = pairs_of_items vs
pairs_of v = none

unfoldable pub in_order : Value → Bool
unfolding pairs_of txid ordered
in_order item = elim (pairs_of item) [
  | some (field a lo (field b hi end)) ↦
      (a == "min" && b == "max" && ordered (txid lo) (txid hi))
      || (a == "max" && b == "min" && ordered (txid hi) (txid lo))
  | _ ↦ false
]

-- whether a field of a record of this message has a good value
unfoldable pub good_field : String → String → Value → Bool
unfolding is_count in_order is_nonempty_text txid
good_field message name item =
    if contains
      ("interval" ∷ "retention" ∷ "sync-interval" ∷ "size" ∷ "signal" ∷ "deleted_count" ∷ []) name
    then is_count item
    else if name == "txid" && message == "compaction complete"
    then in_order item
    else if contains ("txid" ∷ "from_txid" ∷ "to_txid" ∷ "max_l1_txid" ∷ []) name
    then is_ok (txid item)
    else is_nonempty_text item

unfoldable pub good_fields : String → Fields → List String → Bool
unfolding good_field last_value
good_fields message fs [] = true
good_fields message fs (name ∷ names) =
    elim (last_value name fs) [ none ↦ false | some v ↦ good_field message name v ]
    && good_fields message fs names

-- `set(value) - {'time', 'level', 'msg'} == fields`
unfoldable pub has_fields : List String → List String → Bool
has_fields names fields =
    all (λ k. contains ("time" ∷ "level" ∷ "msg" ∷ []) k || contains fields k) names
    && all (contains names) fields

unfoldable pub level_of : String → String
level_of message =
    if message == "retention disabled; cloud provider lifecycle policies must handle retention"
    then "WARN"
    else "INFO"

-- the level that `value.get('level')` is compared with: a repeated one has become INFO
unfoldable pub good_level : String → Fields → Bool
unfolding is_text_at level_of has_duplicates
good_level message fs =
    if has_duplicates (keys fs)
    then level_of message == "INFO"
    else is_text_at "level" (level_of message) fs

-- a record with a message of these fields, or one that LOG_FIELDS does not name
unfoldable pub good_known : String → Fields → Option (List String) → Bool
unfolding has_fields good_level good_fields is_text_at
good_known message fs none = false
good_known message fs (some fields) =
    good_level message fs
    && (has_fields (keys fs) fields
        && good_fields message fs fields
        && (not (contains (keys fs) "time") || good_fields message fs ("time" ∷ []))
        && (not (message == "litestream") || is_text_at "version" "0.5.17" fs))

unfoldable pub good_record : Fields → Option String → Bool
unfolding good_known
good_record fs none = false
good_record fs (some message) = good_known message fs (log_fields message)

-- what the pairs of a line must be for `log_bad` to accept them
unfoldable pub good_pairs : Fields → Bool
unfolding text_at good_record accepted_repeat
good_pairs fs =
    (not (has_duplicates (keys fs)) || accepted_repeat fs) && good_record fs (text_at "msg" fs)

unfoldable pub log_bad : Option Value → Bool
unfolding good_pairs
log_bad (some (obj fs)) = not (good_pairs fs)
log_bad line = true
