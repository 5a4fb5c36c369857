-- ===== src/Py/Value.antt =====
-- The values that cross the program's interfaces, as Python holds them: JSON, and bytes. A dict is its
-- entries in order of insertion, with distinct keys. A float is its text, and equals the same float
-- only; `nan` stands for the floats that `allow_nan=False` refuses.
use highly_available_trailba.Prelude.{
  ℕ, ◌+◌, Bool, true, false, ◌&&◌, String, Option, none, some, List, [], ◌∷◌, ◌==◌, nat_eq,
  string_eq, bool_eq, all, contains, Result, ok, raise, Exc, key_error, type_error, value_error,
  list_eq, list_beq, ltb, if◌then◌else◌,
}

mutual
  pub data Value : Type 0 where
    null nan : Value
    bool : Bool → Value
    int : ℕ → Value
    neg : ℕ → Value  -- `neg n` is -(n + 1)
    float : String → Value
    str : String → Value
    bytes : List ℕ → Value
    obj : Fields → Value
    arr : Items → Value

  pub data Items : Type 0 where
    cons : Value → Items → Items
    nil : Items

  pub data Fields : Type 0 where
    end : Fields
    field : String → Value → Fields → Fields

-- `d.get(k)`
unfoldable pub lookup : Fields → String → Option Value
lookup end k = none
lookup (field j v fs) k = if j == k then some v else lookup fs k

unfoldable pub keys : Fields → List String
keys end = []
keys (field k v fs) = k ∷ keys fs

unfoldable pub values : Fields → List Value
values end = []
values (field k v fs) = v ∷ values fs

unfoldable pub items : Items → List Value
items nil = []
items (cons v vs) = v ∷ items vs

unfoldable pub size : Fields → ℕ
size end = 0
size (field k v fs) = size fs + 1

-- Python's `bool` is an `int`: True == 1 and False == 0.
unfoldable pub as_number : Bool → ℕ
as_number true = 1
as_number false = 0

-- `a == b`. Two dicts are equal whatever the order of their entries.
unfoldable mutual
  unfolding lookup size as_number list_beq

  pub py_eq : Value → Value → Bool
  py_eq null null = true
  py_eq (bool a) (bool b) = a == b
  py_eq (bool a) (int n) = as_number a == n
  py_eq (int n) (bool b) = n == as_number b
  py_eq (int a) (int b) = a == b
  py_eq (neg a) (neg b) = a == b
  py_eq (float a) (float b) = a == b
  py_eq (str a) (str b) = a == b
  py_eq (bytes a) (bytes b) = a == b
  py_eq (arr a) (arr b) = items_eq a b
  py_eq (obj a) (obj b) = size a == size b && fields_sub a b
  py_eq _ _ = false

  pub items_eq : Items → Items → Bool
  items_eq nil nil = true
  items_eq (cons v vs) (cons w ws) = py_eq v w && items_eq vs ws
  items_eq _ _ = false

  -- every entry of the first dict is one of the second
  pub fields_sub : Fields → Fields → Bool
  fields_sub end g = true
  fields_sub (field k v fs) g =
      elim (lookup g k) [ none ↦ false | some w ↦ py_eq v w ] && fields_sub fs g

-- What `json.dumps(v, allow_nan=False)` raises, if anything.
unfoldable mutual
  pub dump_error : Value → Option Exc
  dump_error nan = some (value_error "Out of range float values are not JSON compliant")
  dump_error (bytes b) = some (type_error "Object of type bytes is not JSON serializable")
  dump_error (arr vs) = dump_error_items vs
  dump_error (obj fs) = dump_error_fields fs
  dump_error _ = none

  pub dump_error_items : Items → Option Exc
  dump_error_items nil = none
  dump_error_items (cons v vs) = elim (dump_error v) [
    | some e ↦ some e
    | none ↦ dump_error_items vs
  ]

  pub dump_error_fields : Fields → Option Exc
  dump_error_fields end = none
  dump_error_fields (field k v fs) = elim (dump_error v) [
    | some e ↦ some e
    | none ↦ dump_error_fields fs
  ]

-- `isinstance(v, dict)`
unfoldable pub is_dict : Value → Bool
is_dict (obj fs) = true
is_dict _ = false

-- `v[k]`
unfoldable pub item : Value → String → Result Value
unfolding lookup
item (obj fs) k = elim (lookup fs k) [ none ↦ raise (key_error k) | some v ↦ ok v ]
item _ k = raise (type_error "not a dict")

-- `v.get(k)` on a dict
unfoldable pub get : Value → String → Value
unfolding lookup
get (obj fs) k = elim (lookup fs k) [ none ↦ null | some v ↦ v ]
get _ k = null

-- `isinstance(v, dict) and set(v) == {...}`
unfoldable pub has_keys : List String → Value → Bool
unfolding keys contains
has_keys ks (obj fs) = all (contains ks) (keys fs) && all (contains (keys fs)) ks
has_keys ks _ = false

-- `isinstance(v, str) and p(v)`
unfoldable pub is_str : (String → Bool) → Value → Bool
is_str p (str s) = p s
is_str p _ = false

-- `type(v) is int and lo < v < hi`
unfoldable pub is_int_between : ℕ → ℕ → Value → Bool
is_int_between lo hi (int n) = ltb lo n && ltb n hi
is_int_between lo hi _ = false

-- `v == "..."`
unfoldable pub is_text : String → Value → Bool
is_text s (str t) = s == t
is_text s _ = false

-- `dict(...)` with these entries
abbrev pub dict : List (String × Value) → Fields
dict [] = end
dict ((k, v) ∷ fs) = field k v (dict fs)
