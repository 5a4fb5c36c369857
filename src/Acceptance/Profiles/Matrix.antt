-- ===== src/Acceptance/Profiles/Matrix.antt =====
-- How the profiles of restores fit the plans of the transitions (hat/control.py, PHASES and D3_PHASES).
use highly_available_trailba.Prelude.{
  ℕ, ◌≡◌, refl, sym, ◌∙◌, subst, Bool, true, false, ◌&&◌, ◌||◌, not, String, List, [], ◌∷◌, Option,
  none, some, ◌==◌, string_eq, get_elem?, eq_iff, ok, raise_if, raise_if-eq-ok, Exc, value_error,
  if◌then◌else◌, arith, bind-eq-ok, ok-injective, Bool-cases, inl, inr, &&-eq-true, not-eq-false,
  not-eq-true, leb,
}
use highly_available_trailba.Fallible.{◌>>=◌, ◌>>◌}
use highly_available_trailba.Py.Value.{Value, str, bool, get, has_keys}
use highly_available_trailba.Py.Text.{is_operation, is_epoch_upto, epoch_of}
use highly_available_trailba.Control.Phases.{phases, d3_phases, phase_plan}
use highly_available_trailba.Control.Rows.{Operation}
use highly_available_trailba.Acceptance.Profiles.{
  text_if, direction, is_direction, operation_from, epochs_bound, acceptance_operation, Profile,
  forward_profile, backward_profile, profile_of, derived, in_matrix, derive_restore_profile,
}

-- the phase of a plan in which a restore of this name is made
unfoldable pub plan_step : String → String
plan_step phase =
    if phase == "compare" || phase == "reconciled-compare"
    then "compare"
    else if phase == "baseline"
    then "baseline"
    else "verify"

-- the epoch that writes before the plan's step at a position: the new one from activation (6) on
unfoldable pub epoch_at : Operation → ℕ → String
epoch_at o position = if leb position 6 then o.source_epoch else o.new_epoch

-- What an accepted operation is.
pub record IsOperation (o : Operation) : Type 0 where
  pub directed : is_direction o.source o.target ≡ true
  pub derived_epoch : o.new_epoch ≡ epoch_of o.id
  pub fresh_epoch : (o.source_epoch == o.new_epoch) ≡ false

record Fits (o : Operation) (plan : List String) (phase : String) (p : Profile) : Type 0 where
  pub step : get_elem? plan p.position ≡ some (plan_step phase)
  pub epoch : p.epoch ≡ epoch_at o p.position

forward_lem :
    (o : Operation) (phase : String) (f : Bool) {p : Profile}
    → forward_profile o phase f ≡ some p
    → Fits o phases phase p
unfolding forward_profile plan_step epoch_at
forward_lem o phase true h = cc
forward_lem o phase false h = record { step = ground (arith, h); epoch = ground (arith, h) }

backward_lem :
    (o : Operation) (phase : String) (f : Bool) {p : Profile}
    → backward_profile o phase f ≡ some p
    → Fits o d3_phases phase p
unfolding backward_profile plan_step epoch_at
backward_lem o phase true h = record { step = ground (arith, h); epoch = ground (arith, h) }
backward_lem o phase false {p} h = elim (Bool-cases (phase == "baseline")) [
  | inl t ↦
      at "baseline" (sym ((eq_iff phase "baseline").0 t))
        (λ k. record { step = ground (arith, k); epoch = ground (arith, k) })
  | inr f ↦ elim (Bool-cases (phase == "new-writes")) [
    | inl t ↦
        at "new-writes" (sym ((eq_iff phase "new-writes").0 t))
          (λ k. record { step = ground (arith, k); epoch = ground (arith, k) })
    | inr g ↦ let k : none ≡ some p = sym (rw (backward_profile, f, g) refl) ∙ h in cc
  ]
]
  where
    at :
        (s : String)
        → s ≡ phase
        → (backward_profile o s false ≡ some p → Fits o d3_phases s p)
        → Fits o d3_phases phase p
    at s e f = subst (λ x. backward_profile o x false ≡ some p → Fits o d3_phases x p) e f h

profile_of_lem :
    (o : Operation) (phase : String) (f : Bool) {p : Profile}
    → profile_of o phase f ≡ some p
    → (plan : List String) × (phase_plan o.source o.target ≡ ok plan) × Fits o plan phase p
unfolding profile_of phase_plan
profile_of_lem o phase f {p} h = elim (Bool-cases (o.source == "A" && o.target == "B")) [
  | inl t ↦ (phases, rw (t) refl, forward_lem o phase f (sym (rw (profile_of, t) refl) ∙ h))
  | inr n ↦ elim (Bool-cases (o.source == "B" && o.target == "A")) [
    | inl t ↦
        (d3_phases, rw (n, t) refl, backward_lem o phase f (sym (rw (profile_of, n, t) refl) ∙ h))
    | inr m ↦ let k : none ≡ some p = sym (rw (profile_of, n, m) refl) ∙ h in cc
  ]
]

text_if_lem :
    (p : String → Bool) (v : Value) (e : Exc) {s : String} → text_if p v e ≡ ok s → v ≡ str s
unfolding text_if
text_if_lem p (str s) e h = ground (arith, h)
text_if_lem p v e h = cc

direction_lem :
    (v w : Value) {d : String × String} → direction v w ≡ ok d → is_direction d.0 d.1 ≡ true
unfolding direction
direction_lem (str s) (str t) h = ground (arith, h)
direction_lem v w h = cc

epochs_lem :
    (o : Operation)
    → epochs_bound o ≡ true
    → (o.new_epoch ≡ epoch_of o.id) × ((o.source_epoch == o.new_epoch) ≡ false)
unfolding epochs_bound
epochs_lem o h =
    let (a, b) = &&-eq-true (o.new_epoch == epoch_of o.id) _ h in
    ((eq_iff o.new_epoch (epoch_of o.id)).0 a, not-eq-true _ b)

pub acceptance_operation-IsOperation :
    (v : Value) {o : Operation} → acceptance_operation v ≡ ok o → IsOperation o
unfolding acceptance_operation
acceptance_operation-IsOperation v h =
    let wrong = value_error "invalid restore epoch" in
    let last = λ (o : Operation).
      raise_if (not (epochs_bound o)) (value_error "restore epoch binding differs") >> ok o in
    let (_, _, h1) =
      bind-eq-ok
        (raise_if
          (not (has_keys ("id" ∷ "source" ∷ "target" ∷ "source_epoch" ∷ "new_epoch" ∷ []) v))
          (value_error "invalid restore operation"))
        (λ _. text_if is_operation (get v "id") (value_error "invalid restore operation") >>= λ i.
          direction (get v "source") (get v "target") >>= λ w.
          text_if (is_epoch_upto 125) (get v "source_epoch") wrong >>= λ a.
          text_if (is_epoch_upto 125) (get v "new_epoch") wrong >>= λ b.
          last (operation_from i w.0 w.1 a b))
        h in
    let (i, _, h2) =
      bind-eq-ok (text_if is_operation (get v "id") (value_error "invalid restore operation"))
        (λ i. direction (get v "source") (get v "target") >>= λ w.
          text_if (is_epoch_upto 125) (get v "source_epoch") wrong >>= λ a.
          text_if (is_epoch_upto 125) (get v "new_epoch") wrong >>= λ b.
          last (operation_from i w.0 w.1 a b))
        h1 in
    let (w, d, h3) =
      bind-eq-ok (direction (get v "source") (get v "target"))
        (λ w. text_if (is_epoch_upto 125) (get v "source_epoch") wrong >>= λ a.
          text_if (is_epoch_upto 125) (get v "new_epoch") wrong >>= λ b.
          last (operation_from i w.0 w.1 a b))
        h2 in
    let (a, _, h4) =
      bind-eq-ok (text_if (is_epoch_upto 125) (get v "source_epoch") wrong)
        (λ a. text_if (is_epoch_upto 125) (get v "new_epoch") wrong >>= λ b.
          last (operation_from i w.0 w.1 a b))
        h3 in
    let (b, _, h5) =
      bind-eq-ok (text_if (is_epoch_upto 125) (get v "new_epoch") wrong)
        (λ b. last (operation_from i w.0 w.1 a b)) h4 in
    checked (operation_from i w.0 w.1 a b) (direction_lem (get v "source") (get v "target") d) h5
  where
    checked :
        (o : Operation) {q : Operation}
        → is_direction o.source o.target ≡ true
        → (raise_if (not (epochs_bound o)) (value_error "restore epoch binding differs") >> ok o)
          ≡ ok q
        → IsOperation q
    checked o d h =
        let (_, e, h') =
          bind-eq-ok (raise_if (not (epochs_bound o)) (value_error "restore epoch binding differs"))
            (λ _. ok o) h in
        let (x, y) = epochs_lem o (not-eq-false _ (raise_if-eq-ok _ _ e)) in
        subst IsOperation (ok-injective h')
          (record { directed = d; derived_epoch = x; fresh_epoch = y })

in_matrix_lem :
    (o : Operation) (phase : String) (f : Bool) {p : Profile}
    → in_matrix o (str phase) f ≡ ok p
    → profile_of o phase f ≡ some p
unfolding in_matrix derived
in_matrix_lem o phase f h = go (profile_of o phase f) h
  where
    go : (q : Option Profile) {p : Profile} → derived q ≡ ok p → q ≡ some p
    go none h = cc
    go (some q) h = cc

-- A profile that is derived belongs to an operation between A and B whose new epoch is made of its
-- identity and differs from its source epoch. It stands at the position of the plan of that direction
-- where the phase of that name is made, and its epoch is the source epoch up to the plan's activation
-- and the new epoch after it.
pub derive_restore_profile-plan :
    (operation : Value) (phase : String) (has_fault : Bool) {p : Profile}
    → derive_restore_profile operation (str phase) (bool has_fault) ≡ ok p
    → (o : Operation) × (acceptance_operation operation ≡ ok o)
      × IsOperation o
      × (plan : List String) × (phase_plan o.source o.target ≡ ok plan)
      × (get_elem? plan p.position ≡ some (plan_step phase))
      × (p.epoch ≡ epoch_at o p.position)
unfolding derive_restore_profile
derive_restore_profile-plan operation phase has_fault h =
    let (o, a, h1) =
      bind-eq-ok (acceptance_operation operation) (λ o. in_matrix o (str phase) has_fault) h in
    let (plan, b, f) = profile_of_lem o phase has_fault (in_matrix_lem o phase has_fault h1) in
    (o, a, acceptance_operation-IsOperation operation a, plan, b, f.step, f.epoch)
