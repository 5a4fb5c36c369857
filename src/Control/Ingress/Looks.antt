-- ===== src/Control/Ingress/Looks.antt =====
-- What a chain of looks that succeeds has seen.
use highly_available_trailba.Prelude.{
  ℕ, suc, if◌then◌else◌, List, Bool, true, false, ◌≡◌, ◌⊎◌, inl, inr, refl, ap, ◌∙◌, Result, ok,
  raise, Exc, pair_eq,
}
pub use highly_available_trailba.Exec.{after_lift, after_part}
use highly_available_trailba.Exec.{◌>>=◌, pure, continue, lift-eq-ok}
use highly_available_trailba.Control.Ingress.{
  Reading, gone, failed, held, Place, Sights, Look, look, read_private, is_present,
  stable_private_bytes, returned,
}
use highly_available_trailba.Control.Ingress.Facts.{catching, is_caught, demand}

module _ {A B C : Type 0} where
  -- what comes after a look
  pub after_look :
      (f : ℕ → Result A) (g : A → Look B) (t : ℕ) {b : B} {u : ℕ}
      → (look f >>= g) t ≡ (ok b, u)
      → ((a : A) → f t ≡ ok a → g a (suc t) ≡ (ok b, u) → C)
      → C
  unfolding look
  after_look f g t h k = let (a, e, h') = lift-eq-ok (f t) g (suc t) h in k a e h'

pub pure-eq-ok :
    {A : Type 0} {a b : A} {t u : ℕ} → ◌≡◌ {A = Result A × ℕ} (ok a, t) (ok b, u) → a ≡ b
pure-eq-ok {A} {a} {b} h = ap (λ (p : Result A × ℕ). elim p.0 [ ok v ↦ v | raise e ↦ b ]) h

-- a demand that was met
pub demand-eq-ok : (e : Exc) (c : Bool) {u : Unit {0}} → demand e c ≡ ok u → c ≡ true
unfolding demand
demand-eq-ok e true h = refl
demand-eq-ok e false h = cc

pub catching-eq-ok :
    {A : Type 0} (default : A) (m : Look A) (t : ℕ) {v : A} {u : ℕ}
    → catching default m t ≡ (ok v, u)
    → (m t ≡ (ok v, u)) ⊎ (default ≡ v)
unfolding catching
catching-eq-ok {A} default m t {v} {u} h = go (m t) refl h
  where
    recovered_from :
        (c : Bool) (e : Exc) (s : ℕ)
        → ◌≡◌ {A = Result A × ℕ} (if c then (ok default, s) else (raise e, s)) (ok v, u)
        → default ≡ v
    recovered_from true e s h = pure-eq-ok h
    recovered_from false e s h = let e' = ap (λ (p : Result A × ℕ). p.0) h in cc

    go :
        (p : Result A × ℕ)
        → m t ≡ p
        → elim p.0 as (λ _. Result A × ℕ) [
          | ok v ↦ (ok v, p.1)
          | raise e ↦ if is_caught e then (ok default, p.1) else (raise e, p.1)
        ]
          ≡ (ok v, u)
        → (m t ≡ (ok v, u)) ⊎ (default ≡ v)
    go (ok a, s) e h = inl (e ∙ h)
    go (raise x, s) e h = inr (recovered_from (is_caught x) x s h)

module _ (w : Sights) where
  -- Neither `exists` nor, just after, `is_symlink` saw it.
  abbrev pub IsAbsent : Place → Type 0
  IsAbsent p = (n : ℕ) × (w.exists_at n p ≡ false) × (w.is_link_at (suc n) p ≡ false)

  -- A file was read at some moment, with these bytes and this identity.
  abbrev pub IsHeld : Bool → Place → List ℕ → Type 0
  IsHeld strict p raw =
      (n : ℕ) × (id : List ℕ) × (stable_private_bytes w.euid strict (w.open_at n p) ≡ held raw id)

  pub is_present-IsAbsent :
      (p : Place) (t : ℕ) {b : Bool} {u : ℕ} → is_present w p t ≡ (ok b, u) → b ≡ false → IsAbsent p
  unfolding is_present look
  is_present-IsAbsent p t {b} {u} h none_there = go (w.exists_at t p) refl h
    where
      unlinked :
          {is_link : Bool}
          → ◌≡◌ {A = Result Bool × ℕ} (ok is_link, suc (suc t)) (ok b, u)
          → is_link ≡ false
      unlinked h = pure-eq-ok h ∙ none_there

      go :
          (there : Bool)
          → w.exists_at t p ≡ there
          → (elim there as (λ _. Look Bool) [
            | true ↦ pure true
            | false ↦ look (λ n. ok (w.is_link_at n p))
          ])
              (suc t)
            ≡ (ok b, u)
          → IsAbsent p
      go true a h = let e = pure-eq-ok h in cc
      go false a h = (t, a, unlinked h)

  pub after_read :
      {B C : Type 0} (strict : Bool) (p : Place) (g : List ℕ × List ℕ → Look B) (t : ℕ) {b : B}
      {u : ℕ}
      → (read_private w strict p >>= g) t ≡ (ok b, u)
      → ((raw id : List ℕ) → IsHeld strict p raw → g (raw, id) (suc t) ≡ (ok b, u) → C)
      → C
  unfolding read_private look returned
  after_read {B} {C} strict p g t {b} {u} h k =
      go (stable_private_bytes w.euid strict (w.open_at t p)) refl h
    where
      go :
          (r : Reading)
          → stable_private_bytes w.euid strict (w.open_at t p) ≡ r
          → continue (returned w r) g (suc t) ≡ (ok b, u)
          → C
      go gone e h = let e' = ap (λ (p : Result B × ℕ). p.0) h in cc
      go (failed x) e h = let e' = ap (λ (p : Result B × ℕ). p.0) h in cc
      go (held raw id) e h = k raw id (t, id, e) h
