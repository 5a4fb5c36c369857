-- ===== src/Control/Phases.antt =====
-- hat/control.py: the phases of the two transitions, and the rows that a journal holds for them.
pub mod Marks
use highly_available_trailba.Prelude.{
  ℕ, zero, suc, ◌+◌, ◌≡◌, refl, ◌↔◌, Bool, true, false, ◌&&◌, String, List, [], ◌∷◌, ◌++◌, Option,
  none, some, ◌==◌, string_eq, Eq, Result, ok, raise, value_error, if◌then◌else◌, arith, take,
  get_elem?, ◌++◌, none, some,
}

abbrev pub phases : List String
phases =
    "preflight" ∷ "close_ingress" ∷ "quiesce" ∷ "fence" ∷ "freeze" ∷ "compare" ∷ "activate"
    ∷ "baseline" ∷ "route" ∷ "verify" ∷ []

abbrev pub d3_phases : List String
d3_phases =
    "preflight" ∷ "close_ingress" ∷ "fence" ∷ "select_cut" ∷ "restore" ∷ "compare" ∷ "activate"
    ∷ "baseline" ∷ "route" ∷ "verify" ∷ "rejoin_boot" ∷ "rejoin" ∷ "verify_redundancy" ∷ []

unfoldable pub phase_plan : String → String → Result (List String)
phase_plan source target =
    if source == "A" && target == "B"
    then ok phases
    else if source == "B" && target == "A"
    then ok d3_phases
    else raise (value_error "invalid demo transition")

pub data Status : Type 0 where
  intent done : Status

unfoldable pub status_beq : Status → Status → Bool
status_beq intent intent = true
status_beq done done = true
status_beq _ _ = false

pub status_beq_iff : (a b : Status) → (status_beq a b ≡ true) ↔ (a ≡ b)
unfolding status_beq
status_beq_iff intent intent = (λ h. refl, λ h. refl)
status_beq_iff done done = (λ h. refl, λ h. refl)
status_beq_iff intent done = (λ h. ground arith, λ h. ground arith)
status_beq_iff done intent = (λ h. ground arith, λ h. ground arith)

instance abbrev pub status_eq : Eq Status
status_eq = record { beq = status_beq; beq_iff = status_beq_iff }

-- `(position, phase, status)`
abbrev pub Mark : Type 0
Mark = ℕ × (String × Status)

-- `[(i,p,s) for i,p in enumerate(plan) for s in ('intent','done')]`, from the index `i` on
abbrev pub expected_from : ℕ → List String → List Mark
expected_from i [] = []
expected_from i (p ∷ ps) = (i, (p, intent)) ∷ (i, (p, done)) ∷ expected_from (suc i) ps

abbrev pub expected : List String → List Mark
expected plan = expected_from 0 plan

-- the rows of a transition that stands in `position`: what went before is done, it is intended
unfoldable pub boundary_marks : ℕ → List String → List Mark
boundary_marks position plan = elim (get_elem? plan position) [
  | none ↦ expected (take position plan)
  | some p ↦ expected (take position plan) ++ (position, (p, intent)) ∷ []
]
