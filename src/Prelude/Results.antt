-- ===== src/Prelude/Results.antt =====
-- Python's exceptions as values: the classes that the program raises or catches, with the message,
-- and a state monad for methods that mutate an object and may raise. What was written before a
-- raise stays written, so the state comes back beside the error too.
use Prim.Native.String.{String}
use mathlib.Core.Path.{◌≡◌, refl}
use mathlib.Core.Bool.{Bool, true, false, not}
use mathlib.Core.Logic.{◌⊎◌, inl, inr}

pub data Exc : Type 0 where
  value_error runtime_error key_error type_error attribute_error os_error timeout_expired
        sqlite_error :
      String → Exc

pub data Result {ℓ} (A : Type ℓ) : Type ℓ where
  ok : A → Result A
  raise : Exc → Result A

abbrev pub bind {ℓ κ} : {A : Type ℓ} {B : Type κ} → Result A → (A → Result B) → Result B
bind (ok a) f = f a
bind (raise e) f = raise e

-- `if b: raise e`
abbrev pub raise_if : Bool → Exc → Result (Unit {0})
raise_if true e = raise e
raise_if false e = ok tt

-- `try: r except ...: raise e`, for a clause that catches whatever `r` raises
abbrev pub or_raise {ℓ} : {A : Type ℓ} → Result A → Exc → Result A
or_raise (ok a) e = ok a
or_raise (raise x) e = raise e

abbrev pub is_ok {ℓ} : {A : Type ℓ} → Result A → Bool
is_ok (ok a) = true
is_ok (raise x) = false

pub bind-eq-ok {ℓ κ} :
    {A : Type ℓ} {B : Type κ} (m : Result A) (f : A → Result B) {b : B}
    → bind m f ≡ ok b
    → (a : A) × (m ≡ ok a) × (f a ≡ ok b)
bind-eq-ok (ok a) f h = (a, refl, h)
bind-eq-ok (raise e) f h = cc

pub raise_if-eq-ok : (b : Bool) (e : Exc) {u : Unit {0}} → raise_if b e ≡ ok u → b ≡ false
raise_if-eq-ok true e h = cc
raise_if-eq-ok false e h = refl

pub ok-injective {ℓ} : {A : Type ℓ} {a b : A} → ok a ≡ ok b → a ≡ b
ok-injective h = cc

pub Result-cases {ℓ} :
    {A : Type ℓ} (r : Result A) → ((x : Exc) × (r ≡ raise x)) ⊎ ((a : A) × (r ≡ ok a))
Result-cases (ok a) = inr (a, refl)
Result-cases (raise x) = inl (x, refl)

-- What a test that was passed leaves: the rest succeeds.
pub after_raise_if {ℓ} :
    {B : Type ℓ} (b : Bool) (e : Exc) (k : Result B) {x : B}
    → bind (raise_if b e) (λ _. k) ≡ ok x
    → (b ≡ false) × (k ≡ ok x)
after_raise_if true e k h = cc
after_raise_if false e k h = (refl, h)

pub after_not {ℓ} :
    {B : Type ℓ} (b : Bool) (e : Exc) (k : Result B) {x : B}
    → bind (raise_if (not b) e) (λ _. k) ≡ ok x
    → (b ≡ true) × (k ≡ ok x)
after_not true e k h = (refl, h)
after_not false e k h = cc

-- The same of a test that may itself raise.
pub after_test {ℓ} :
    {B : Type ℓ} (m : Result Bool) (e : Exc) (k : Result B) {x : B}
    → bind m (λ b. bind (raise_if (not b) e) (λ _. k)) ≡ ok x
    → (m ≡ ok true) × (k ≡ ok x)
after_test (ok true) e k h = (refl, h)
after_test (ok false) e k h = cc
after_test (raise y) e k h = cc
