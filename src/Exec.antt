-- ===== src/Exec.antt =====
-- `do` blocks for methods that change a state and may raise. What was written before a raise stays
-- written: the state comes back beside the error too.
use highly_available_trailba.Prelude.{
  ◌≡◌, refl, Exc, Result, ok, raise, Bool, true, false, ap, sym, ◌∙◌, bind,
}

abbrev pub Exec : Type 0 → Type 0 → Type 0
Exec S A = S → Result A × S

module _ {S A : Type 0} where
  abbrev pub pure : A → Exec S A
  pure a s = (ok a, s)

  abbrev pub throw : Exc → Exec S A
  throw e s = (raise e, s)

  abbrev pub lift : Result A → Exec S A
  lift r s = (r, s)

module _ {S : Type 0} where
  abbrev pub gets : {A : Type 0} → (S → A) → Exec S A
  gets f s = (ok (f s), s)

  abbrev pub modify : (S → S) → Exec S (Unit {0})
  modify f s = (ok tt, f s)

  -- `if b: raise e`
  abbrev pub throw_if : Bool → Exc → Exec S (Unit {0})
  throw_if true e s = (raise e, s)
  throw_if false e s = (ok tt, s)

module _ {S A B : Type 0} where
  abbrev pub continue : Result A → (A → Exec S B) → Exec S B
  continue (ok a) f s = f a s
  continue (raise e) f s = (raise e, s)

  infixl 5 ◌>>=◌ ◌>>◌
  abbrev pub ◌>>=◌ : Exec S A → (A → Exec S B) → Exec S B
  ◌>>=◌ m f s = let (r, s') = m s in continue r f s'

  abbrev pub ◌>>◌ : Exec S A → Exec S B → Exec S B
  m >> n = m >>= λ _. n

module _ {S A B : Type 0} where
  -- What a chain that succeeds went through.
  pub >>=-eq-ok :
      (m : Exec S A) (f : A → Exec S B) (s : S) {b : B} {t : S}
      → (m >>= f) s ≡ (ok b, t)
      → (a : A) × (u : S) × (m s ≡ (ok a, u)) × (f a u ≡ (ok b, t))
  >>=-eq-ok m f s {b} {t} h = go (m s) refl
    where
      go :
          (r : Result A × S) → m s ≡ r → (a : A) × (u : S) × (m s ≡ (ok a, u)) × (f a u ≡ (ok b, t))
      go (ok a, u) e = (a, u, e, ap (λ (r : Result A × S). continue r.0 f r.1) (sym e) ∙ h)
      go (raise x, u) e =
          let h' =
            ap (λ (r : Result A × S). (continue r.0 f r.1).0) (sym e)
            ∙ ap (λ (r : Result B × S). r.0) h in
          cc

module _ {S A B : Type 0} where
  -- A chain that leaves the state alone is a chain of results.
  pub >>=-result :
      (m : Exec S A) (f : A → Exec S B) (r : Result A) (g : A → Result B) (s : S)
      → m s ≡ (r, s)
      → ((a : A) → f a s ≡ (g a, s))
      → (m >>= f) s ≡ (bind r g, s)
  >>=-result m f r g s e h = ap (λ (q : Result A × S). continue q.0 f q.1) e ∙ go r
    where
      go : (r : Result A) → continue r f s ≡ (bind r g, s)
      go (ok a) = h a
      go (raise x) = refl

module _ {S A B : Type 0} where
  -- The same of a chain that begins with a result.
  pub lift-eq-ok :
      (r : Result A) (f : A → Exec S B) (s : S) {b : B} {t : S}
      → (lift r >>= f) s ≡ (ok b, t)
      → (a : A) × (r ≡ ok a) × (f a s ≡ (ok b, t))
  lift-eq-ok (ok a) f s h = (a, refl, h)
  lift-eq-ok (raise e) f s h = let e' = ap (λ (p : Result B × S). p.0) h in cc

module _ {S B : Type 0} where
  -- And of one that begins with a test.
  pub throw_if-eq-ok :
      (c : Bool) (e : Exc) (n : Exec S B) (s : S) {b : B} {t : S}
      → (throw_if c e >> n) s ≡ (ok b, t)
      → (c ≡ false) × (n s ≡ (ok b, t))
  throw_if-eq-ok true e n s h = let e' = ap (λ (p : Result B × S). p.0) h in cc
  throw_if-eq-ok false e n s h = (refl, h)

module _ {S A B C : Type 0} where
  -- The same, for a chain of several parts: what comes after a part, or after a result.
  pub after_part :
      (m : Exec S A) (f : A → Exec S B) (s : S) {b : B} {t : S}
      → (m >>= f) s ≡ (ok b, t)
      → ((a : A) (u : S) → m s ≡ (ok a, u) → f a u ≡ (ok b, t) → C)
      → C
  after_part m f s h k = let (a, u, e, h') = >>=-eq-ok m f s h in k a u e h'

  pub after_lift :
      (r : Result A) (f : A → Exec S B) (s : S) {b : B} {t : S}
      → (lift r >>= f) s ≡ (ok b, t)
      → ((a : A) → r ≡ ok a → f a s ≡ (ok b, t) → C)
      → C
  after_lift r f s h k = let (a, e, h') = lift-eq-ok r f s h in k a e h'
