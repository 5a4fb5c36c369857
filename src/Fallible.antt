-- ===== src/Fallible.antt =====
-- `do` blocks for pure functions that may raise.
use highly_available_trailba.Prelude.{Result, bind}

infixl 5 ◌>>=◌ ◌>>◌
abbrev pub ◌>>=◌ {ℓ κ} : {A : Type ℓ} {B : Type κ} → Result A → (A → Result B) → Result B
m >>= f = bind m f

abbrev pub ◌>>◌ {ℓ} : {B : Type ℓ} → Result (Unit {0}) → Result B → Result B
m >> k = bind m (λ _. k)
