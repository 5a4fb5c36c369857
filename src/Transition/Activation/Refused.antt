-- ===== src/Transition/Activation/Refused.antt =====
-- That a node whose writer is authorised is neither inspected as cold nor prepared for recovery.
use highly_available_trailba.Prelude.{
  ◌≡◌, refl, sym, ◌∙◌, ap, subst, ◌⊎◌, inl, inr, true, String, Option, none, some, string_eq,
  beq_refl, Result, ok, raise, Exc, Bool-cases, bind, runtime_error, arith,
}
use highly_available_trailba.Py.Value.{Value, get}
use highly_available_trailba.Node.Authority.{
  AuthorityFile, authority, authorized, authority_lem, authorized_lem,
}
use highly_available_trailba.Transition.Activation.{
  AuthorityState, unsafe, current, as_str, activation_of, activation_state, is_exact, written,
  file_state, authority_state, cold_refusal, recovery_refusal, inspect_authority,
  recovery_authority,
}

-- a state that refuses whoever wants the node cold
data Refuses : Result AuthorityState → Type 0 where
  raised : {x : Exc} → Refuses (raise x)
  is_unsafe : Refuses (ok unsafe)
  is_current : Refuses (ok current)

activation_of-boot :
    (v : Value) {e b : String} → activation_of v ≡ some (e, b) → b ≡ as_str (get v "boot_id")
unfolding activation_of
activation_of-boot v {e} {b} h = ground (arith, h)

activation_state-Refuses :
    (role epoch boot : String) (v : Value) (o : Option (String × String))
    → authorized role epoch boot v ≡ true
    → activation_of v ≡ o
    → Refuses (activation_state role epoch boot v o)
unfolding activation_state as_str
activation_state-Refuses role epoch boot v none a e = raised
activation_state-Refuses role epoch boot v (some (e, b)) a h =
    let (_, _, k) = authorized_lem role epoch boot v a in
    let same : b ≡ boot = activation_of-boot v h ∙ ap as_str k in
    rw (same, beq_refl boot, a) is_current

written_lem :
    (f : AuthorityFile) (v : Value)
    → f.contents ≡ some v
    → ((x : Exc) × (written f ≡ raise x)) ⊎ (written f ≡ ok v)
unfolding written
written_lem f v c = elim (Bool-cases f.is_regular) [
  | inl t ↦ inr (ground (arith, t, c))
  | inr n ↦ inl (runtime_error "unsafe activation authority", ground (arith, n))
]

file_state-Refuses :
    (role epoch boot : String) (f : AuthorityFile) (v : Value)
    → f.contents ≡ some v
    → authorized role epoch boot v ≡ true
    → Refuses (file_state role epoch boot f)
unfolding file_state
file_state-Refuses role epoch boot f v c a = elim (Bool-cases (is_exact f)) [
  | inl t ↦ rw (file_state, t) (written-Refuses (written_lem f v c))
  | inr n ↦ rw (file_state, n) is_unsafe
]
  where
    written-Refuses :
        ((x : Exc) × (written f ≡ raise x)) ⊎ (written f ≡ ok v)
        → Refuses (bind (written f) (λ w. activation_state role epoch boot w (activation_of w)))
    written-Refuses (inl (x, e)) = rw (e) raised
    written-Refuses (inr e) =
        rw (e) (activation_state-Refuses role epoch boot v (activation_of v) a refl)

authority_state-Refuses :
    (role epoch boot : String) (f : Option AuthorityFile)
    → authority role epoch boot f ≡ true
    → Refuses (authority_state role epoch boot f)
unfolding authority_state
authority_state-Refuses role epoch boot f h =
    let (g, v, e, c, a) = authority_lem role epoch boot f h in
    subst (λ o. Refuses (authority_state role epoch boot o)) (sym e)
      (file_state-Refuses role epoch boot g v c a)

inspect_lem :
    (role : String) (r : Result AuthorityState)
    → role ≡ "writer"
    → Refuses r
    → (x : Exc) × (bind r (cold_refusal role) ≡ raise x)
unfolding cold_refusal
inspect_lem role r w (raised {x}) = (x, refl)
inspect_lem role r w is_unsafe = (runtime_error "unsafe activation authority", refl)
inspect_lem role r w is_current =
    (runtime_error "current-boot writable authority remains", rw (w) refl)

recovery_lem :
    (r : Result AuthorityState) → Refuses r → (x : Exc) × (bind r recovery_refusal ≡ raise x)
unfolding recovery_refusal
recovery_lem r (raised {x}) = (x, refl)
recovery_lem r is_unsafe = (runtime_error "current or unsafe writable authority remains", refl)
recovery_lem r is_current = (runtime_error "current or unsafe writable authority remains", refl)

-- Where the supervisor's own test says that the node may write, in this epoch and this boot, a cold
-- inspection of the node is refused, and so is its preparation for recovery.
pub authority-refused :
    (role epoch boot : String) (f : Option AuthorityFile)
    → authority role epoch boot f ≡ true
    → ((x : Exc) × (inspect_authority role epoch boot f ≡ raise x))
      × ((x : Exc) × (recovery_authority role epoch boot f ≡ raise x))
unfolding inspect_authority recovery_authority
authority-refused role epoch boot f h =
    let (g, v, e, c, a) = authority_lem role epoch boot f h in
    let (w, _, _) = authorized_lem role epoch boot v a in
    let r = authority_state-Refuses role epoch boot f h in
    (
      inspect_lem role (authority_state role epoch boot f) w r,
      recovery_lem (authority_state role epoch boot f) r,
    )
