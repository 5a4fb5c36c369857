-- ===== src/Acceptance/Json.antt =====
-- hat/recovery.py: `parse_canonical_json`, with `_unique_pairs`. The JSON parser and printer of Python are
-- arguments: `tree` gives the value of an ASCII JSON text with every pair of an object, in order, and
-- `canonical` the bytes of `canonical_json`, or what either raises.
pub mod Walk
use highly_available_trailba.Prelude.{
  ℕ, zero, suc, ◌+◌, ◌≡◌, Bool, true, false, ◌&&◌, ◌||◌, not, String, List, [], ◌∷◌, Option, none,
  some, ◌==◌, nat_eq, list_eq, list_beq, contains, string_eq, length, leb, ltb, Result, ok, raise,
  raise_if, Exc, value_error, if◌then◌else◌, bind, or_raise,
}
use highly_available_trailba.Fallible.{◌>>=◌, ◌>>◌}
use highly_available_trailba.Py.Value.{
  Value, obj, arr, Items, nil, cons, Fields, end, field, keys, items, values,
}

-- 1 << 20
abbrev pub max_input : ℕ
max_input = 1048576

abbrev pub max_depth : ℕ
max_depth = 512

abbrev pub max_containers : ℕ
max_containers = 100000

-- `_unique_pairs` of every object in a value raises nothing
unfoldable mutual
  unfolding contains keys

  pub is_unique : Value → Bool
  is_unique (obj fs) = is_unique_fields fs
  is_unique (arr vs) = is_unique_items vs
  is_unique v = true

  pub is_unique_items : Items → Bool
  is_unique_items nil = true
  is_unique_items (cons v vs) = is_unique v && is_unique_items vs

  pub is_unique_fields : Fields → Bool
  is_unique_fields end = true
  is_unique_fields (field k v fs) =
      not (contains (keys fs) k) && (is_unique v && is_unique_fields fs)

-- `item.values()` of a dict, a list itself
unfoldable pub children : Value → Option (List Value)
unfolding items values
children (obj fs) = some (values fs)
children (arr vs) = some (items vs)
children v = none

-- `stack.extend((child,depth+1) for child in children)`; the top of the stack stands first
unfoldable pub push : ℕ → List Value → List (Value × ℕ) → List (Value × ℕ)
push depth [] stack = stack
push depth (v ∷ vs) stack = push depth vs ((v, suc depth) ∷ stack)

-- The loop over the stack. It gives whether nothing was raised; `none` is out of fuel.
unfoldable pub walk : ℕ → List (Value × ℕ) → ℕ → Option Bool
unfolding children push
walk fuel [] containers = some true
walk zero (top ∷ stack) containers = none
walk (suc fuel) ((v, depth) ∷ stack) containers = elim (children v) [
  | none ↦ walk fuel stack containers
  | some vs ↦ elim (ltb max_depth depth || ltb max_containers (suc containers)) [
    | true ↦ some false
    | false ↦ walk fuel (push depth vs stack) (suc containers)
  ]
]

-- how many values a value holds, itself included
unfoldable mutual
  pub nodes : Value → ℕ
  nodes (obj fs) = suc (nodes_fields fs)
  nodes (arr vs) = suc (nodes_items vs)
  nodes v = 1

  pub nodes_items : Items → ℕ
  nodes_items nil = 0
  nodes_items (cons v vs) = nodes v + nodes_items vs

  pub nodes_fields : Fields → ℕ
  nodes_fields end = 0
  nodes_fields (field k v fs) = nodes v + nodes_fields fs

abbrev pub malformed : Exc
malformed = value_error "invalid canonical JSON bytes"

unfoldable pub is_walked : Value → Bool
unfolding walk nodes
is_walked v = elim (walk (nodes v) ((v, 0) ∷ []) 0) [ none ↦ false | some b ↦ b ]

module _ (tree : List ℕ → Result Value) (canonical : Value → Result (List ℕ)) where
  -- the value of a text, within the bounds
  unfoldable pub load : List ℕ → Result Value
  unfolding is_unique is_walked
  load raw = do
    v ← or_raise (tree raw) malformed
    raise_if (not (is_unique v)) malformed
    raise_if (not (is_walked v)) malformed
    ok v

  unfoldable pub parse_canonical_json : List ℕ → Result Value
  unfolding load list_beq
  parse_canonical_json raw = do
    raise_if (not (ltb 0 (length raw) && leb (length raw) max_input)) malformed
    v ← load raw
    printed ← or_raise (canonical v) malformed
    raise_if (not (printed == raw)) malformed
    ok v
