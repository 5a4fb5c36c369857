-- ===== src/Acceptance/Profiles.antt =====
-- hat/recovery.py: `_acceptance_operation` and `derive_restore_profile`.
pub mod Matrix
use highly_available_trailba.Prelude.{
  ℕ, ◌≡◌, Bool, true, false, ◌&&◌, ◌||◌, not, String, List, [], ◌∷◌, Option, none, some, ◌==◌,
  string_eq, bool_eq, Result, ok, raise, raise_if, Exc, value_error, type_error, if◌then◌else◌,
}
use highly_available_trailba.Fallible.{◌>>=◌, ◌>>◌}
use highly_available_trailba.Py.Value.{Value, str, bool, has_keys, get, is_text}
use highly_available_trailba.Py.Text.{is_operation, is_epoch_upto, epoch_of}
use highly_available_trailba.Py.Access.{is_hashable}
use highly_available_trailba.Control.Rows.{Operation}

unfoldable pub text_if : (String → Bool) → Value → Exc → Result String
text_if p (str s) e = if p s then ok s else raise e
text_if p v e = raise e

abbrev pub is_direction : String → String → Bool
is_direction source target = source == "A" && target == "B" || source == "B" && target == "A"

-- `(value['source'], value['target'])`, one of two pairs
unfoldable pub direction : Value → Value → Result (String × String)
direction (str s) (str t) =
    if is_direction s t then ok (s, t) else raise (value_error "invalid restore operation")
direction v w = raise (value_error "invalid restore operation")

abbrev pub operation_from : String → String → String → String → String → Operation
operation_from i s t a b = record {
  id = i;
  source = s;
  target = t;
  source_epoch = a;
  new_epoch = b;
}

-- the last test of `_acceptance_operation`
unfoldable pub epochs_bound : Operation → Bool
unfolding epoch_of
epochs_bound o = o.new_epoch == epoch_of o.id && not (o.source_epoch == o.new_epoch)

unfoldable pub acceptance_operation : Value → Result Operation
unfolding has_keys get text_if is_operation direction is_epoch_upto epochs_bound
acceptance_operation v = do
  raise_if (not (has_keys ("id" ∷ "source" ∷ "target" ∷ "source_epoch" ∷ "new_epoch" ∷ []) v))
      (value_error "invalid restore operation")
  ident ← text_if is_operation (get v "id") (value_error "invalid restore operation")
  way ← direction (get v "source") (get v "target")
  source_epoch ←
      text_if (is_epoch_upto 125) (get v "source_epoch") (value_error "invalid restore epoch")
  new_epoch ← text_if (is_epoch_upto 125) (get v "new_epoch") (value_error "invalid restore epoch")
  let o = operation_from ident way.0 way.1 source_epoch new_epoch
  raise_if (not (epochs_bound o)) (value_error "restore epoch binding differs")
  ok o

-- the name of a profile, the epoch that it restores, the position in the plan that it belongs to, and
-- whether it is reconciled after the fact
pub record Profile : Type 0 where
  pub name : String
  pub epoch : String
  pub position : ℕ
  pub reconciled : Bool

abbrev pub profile_from : String → String → ℕ → Bool → Profile
profile_from n e p r = record { name = n; epoch = e; position = p; reconciled = r }

-- `matrix`, for A to B
unfoldable pub forward_profile : Operation → String → Bool → Option Profile
forward_profile o phase true = none
forward_profile o phase false =
    if phase == "compare"
    then some (profile_from "comparison" o.source_epoch 5 false)
    else if phase == "reconciled-compare"
    then some (profile_from "comparison" o.source_epoch 5 true)
    else if phase == "baseline"
    then some (profile_from "baseline" o.new_epoch 7 false)
    else if phase == "verification-baseline"
    then some (profile_from "baseline" o.new_epoch 9 true)
    else if phase == "new-writes"
    then some (profile_from "fresh-writes" o.new_epoch 9 false)
    else none

-- `matrix`, for B to A
unfoldable pub backward_profile : Operation → String → Bool → Option Profile
backward_profile o phase true =
    if phase == "compare"
    then some (profile_from "recovery-comparison" o.source_epoch 5 false)
    else none
backward_profile o phase false =
    if phase == "baseline"
    then some (profile_from "baseline" o.new_epoch 7 false)
    else if phase == "new-writes"
    then some (profile_from "fresh-writes" o.new_epoch 9 false)
    else none

unfoldable pub profile_of : Operation → String → Bool → Option Profile
unfolding forward_profile backward_profile
profile_of o phase has_fault =
    if o.source == "A" && o.target == "B"
    then forward_profile o phase has_fault
    else if o.source == "B" && o.target == "A"
    then backward_profile o phase has_fault
    else none

abbrev pub unsupported : Exc
unsupported = value_error "unsupported restore acceptance phase"

unfoldable pub derived : Option Profile → Result Profile
derived none = raise unsupported
derived (some p) = ok p

-- `matrix[(source, target, phase, has_fault)]`
unfoldable pub in_matrix : Operation → Value → Bool → Result Profile
unfolding profile_of derived is_hashable
in_matrix o (str s) has_fault = derived (profile_of o s has_fault)
in_matrix o v has_fault =
    if is_hashable v then raise unsupported else raise (type_error "unhashable type")

-- the operation is checked before the flag
unfoldable pub derive_restore_profile : Value → Value → Value → Result Profile
unfolding acceptance_operation in_matrix
derive_restore_profile operation phase (bool has_fault) = do
  o ← acceptance_operation operation
  in_matrix o phase has_fault
derive_restore_profile operation phase has_fault = do
  o ← acceptance_operation operation
  raise (value_error "invalid restore fault selection")
