-- ===== src/Py/Access.antt =====
-- How the program takes values apart where it counts on an exception for the wrong kind of value.
use highly_available_trailba.Prelude.{
  if◌then◌else◌, ◌≡◌, Bool, true, false, ◌&&◌, String, List, all, any, Result, ok, raise,
  value_error, runtime_error, key_error, type_error, attribute_error, os_error, timeout_expired,
  sqlite_error,
}
use highly_available_trailba.Py.Value.{
  Value, str, bytes, obj, arr, items, values, has_keys, is_text, get,
}
use highly_available_trailba.Py.Text.{is_hex_of}

-- `hash(v)` exists
unfoldable pub is_hashable : Value → Bool
is_hashable (obj fs) = false
is_hashable (arr vs) = false
is_hashable v = true

-- `pattern.fullmatch(v)`, for the pattern that `p` decides
unfoldable pub fullmatch : (String → Bool) → Value → Result Bool
fullmatch p (str s) = ok (p s)
fullmatch p v = raise (type_error "expected string or bytes-like object")

-- `_HEX64.fullmatch(v)`
unfoldable pub hex64 : Value → Result Bool
unfolding fullmatch is_hex_of
hex64 = fullmatch (is_hex_of 64)

-- `isinstance(v, str) and _HEX64.fullmatch(v)`
unfoldable pub is_hex64 : Value → Bool
unfolding is_hex_of
is_hex64 (str s) = is_hex_of 64 s
is_hex64 v = false

-- `set(v) == {...}` of texts longer than one character; a list is compared by its elements
unfoldable pub keys_are : List String → Value → Result Bool
unfolding has_keys items is_hashable is_text
keys_are ks (obj fs) = ok (has_keys ks (obj fs))
keys_are ks (arr vs) =
    if all is_hashable (items vs)
    then ok (
        all (λ v. any (λ k. is_text k v) ks) (items vs) && all (λ k. any (is_text k) (items vs)) ks)
    else raise (type_error "unhashable type")
keys_are ks (str s) = ok false
keys_are ks (bytes b) = ok false
keys_are ks v = raise (type_error "object is not iterable")

-- `v.get(k)`, which only a dict has
unfoldable pub get_of : Value → String → Result Value
unfolding get
get_of (obj fs) k = ok (get (obj fs) k)
get_of v k = raise (attribute_error "no attribute 'get'")

-- `v.values()`
unfoldable pub values_of : Value → Result (List Value)
unfolding values
values_of (obj fs) = ok (values fs)
values_of v = raise (attribute_error "no attribute 'values'")

-- `except ValueError: raise` and then, for the errors of taking values apart, `raise ValueError(m)`
unfoldable pub recast {ℓ} : {A : Type ℓ} → String → Result A → Result A
recast m (ok a) = ok a
recast m (raise (key_error e)) = raise (value_error m)
recast m (raise (type_error e)) = raise (value_error m)
recast m (raise (attribute_error e)) = raise (value_error m)
recast m (raise e) = raise e

pub recast-eq-ok {ℓ} :
    {A : Type ℓ} (m : String) (r : Result A) {a : A} → recast m r ≡ ok a → r ≡ ok a
unfolding recast
recast-eq-ok m (ok x) h = h
recast-eq-ok m (raise (key_error e)) h = cc
recast-eq-ok m (raise (type_error e)) h = cc
recast-eq-ok m (raise (attribute_error e)) h = cc
recast-eq-ok m (raise (value_error e)) h = cc
recast-eq-ok m (raise (runtime_error e)) h = cc
recast-eq-ok m (raise (os_error e)) h = cc
recast-eq-ok m (raise (timeout_expired e)) h = cc
recast-eq-ok m (raise (sqlite_error e)) h = cc
