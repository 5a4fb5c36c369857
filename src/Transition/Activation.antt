-- ===== src/Transition/Activation.antt =====
-- hat/transition.py: the state of a node's activation file (`_authority_state`), and what its cold
-- inspection refuses (`inspect_cold`, `prepare_recovery`).
pub mod Refused
use Prim.Native.Nat.{bit_and}
use highly_available_trailba.Prelude.{
  ℕ, ◌≡◌, refl, sym, ◌∙◌, ap, subst, Bool, true, false, ◌&&◌, ◌||◌, not, String, List, [], ◌∷◌,
  Option, none, some, ◌==◌, nat_eq, string_eq, Result, ok, raise, raise_if, Exc, runtime_error,
  value_error, if◌then◌else◌, bind, bind-eq-ok, raise_if-eq-ok, arith, Bool-cases, inl, inr,
  not-eq-false, ok-injective,
}
use highly_available_trailba.Fallible.{◌>>=◌, ◌>>◌}
use highly_available_trailba.Py.Value.{Value, null, str, obj, has_keys, get, is_text, is_str}
use highly_available_trailba.Py.Text.{is_epoch}
use highly_available_trailba.Node.Authority.{AuthorityFile, authorized, authority, file_authority}

pub data AuthorityState : Type 0 where
  absent unsafe current stale : AuthorityState

unfoldable pub is_nonempty : String → Bool
is_nonempty s = not (s == "")

-- the text that a value is
unfoldable pub as_str : Value → String
as_str (str s) = s
as_str v = ""

-- the epoch and the boot of a well-formed activation
unfoldable pub activation_of : Value → Option (String × String)
unfolding has_keys get is_text is_str is_epoch is_nonempty as_str
activation_of v =
    if has_keys ("role" ∷ "epoch" ∷ "boot_id" ∷ []) v
      && is_text "writer" (get v "role")
      && is_str is_epoch (get v "epoch")
      && is_str is_nonempty (get v "boot_id")
    then some (as_str (get v "epoch"), as_str (get v "boot_id"))
    else none

-- the permissions and links that the file must have
unfoldable pub is_exact : AuthorityFile → Bool
is_exact f = not f.is_symlink && f.uid == 0 && bit_and f.mode 0o7777 == 0o644 && f.nlink == 1

unfoldable pub written : AuthorityFile → Result Value
written f =
    if f.is_regular
    then elim f.contents [
      | none ↦ raise (runtime_error "unsafe activation authority")
      | some v ↦ ok v
    ]
    else raise (runtime_error "unsafe activation authority")

-- the state of a well-formed activation, in a node of this role and epoch and in this boot
unfoldable pub activation_state :
    String → String → String → Value → Option (String × String) → Result AuthorityState
unfolding authorized
activation_state role epoch boot v none = raise (runtime_error "invalid activation authority")
activation_state role epoch boot v (some (e, b)) =
    if b == boot
    then if authorized role epoch boot v
      then ok current
      else raise (runtime_error "current-boot activation authority mismatch")
    else if authorized "writer" e b v
    then ok stale
    else raise (runtime_error "invalid activation authority")

unfoldable pub file_state : String → String → String → AuthorityFile → Result AuthorityState
file_state role epoch boot f =
    if is_exact f
    then bind (written f) (λ v. activation_state role epoch boot v (activation_of v))
    else ok unsafe

unfoldable pub authority_state :
    String → String → String → Option AuthorityFile → Result AuthorityState
unfolding file_state
authority_state role epoch boot none = ok absent
authority_state role epoch boot (some f) = file_state role epoch boot f

-- What `inspect_cold` refuses of a state.
unfoldable pub cold_refusal : String → AuthorityState → Result (Unit {0})
cold_refusal role unsafe = raise (runtime_error "unsafe activation authority")
cold_refusal role current =
    raise_if (role == "writer") (runtime_error "current-boot writable authority remains")
cold_refusal role s = ok tt

-- `inspect_cold` and `prepare_recovery`, as far as the activation file decides
unfoldable pub inspect_authority :
    String → String → String → Option AuthorityFile → Result (Unit {0})
unfolding authority_state cold_refusal
inspect_authority role epoch boot f = bind (authority_state role epoch boot f) (cold_refusal role)

unfoldable pub recovery_refusal : AuthorityState → Result (Unit {0})
recovery_refusal current = raise (runtime_error "current or unsafe writable authority remains")
recovery_refusal unsafe = raise (runtime_error "current or unsafe writable authority remains")
recovery_refusal s = ok tt

unfoldable pub recovery_authority :
    String → String → String → Option AuthorityFile → Result (Unit {0})
unfolding authority_state recovery_refusal
recovery_authority role epoch boot f = bind (authority_state role epoch boot f) recovery_refusal
