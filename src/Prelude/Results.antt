-- ===== src/Prelude/Results.antt =====
-- What a run of C code ends in: a value, a call of `abort`, an access outside an array or another
-- operation whose behaviour the language leaves undefined, or more rounds of a loop than the fuel.
use mathlib.Core.Path.{◌≡◌, refl}

pub data Outcome {ℓ} (A : Type ℓ) : Type ℓ where
  ok : A → Outcome A
  aborted : Outcome A
  undefined : Outcome A
  out_of_fuel : Outcome A

infixl 5 ◌>>=◌ ◌>>◌
abbrev pub ◌>>=◌ {ℓ κ} : {A : Type ℓ} {B : Type κ} → Outcome A → (A → Outcome B) → Outcome B
ok a >>= f = f a
aborted >>= f = aborted
undefined >>= f = undefined
out_of_fuel >>= f = out_of_fuel

abbrev pub ◌>>◌ {ℓ κ} : {A : Type ℓ} {B : Type κ} → Outcome A → Outcome B → Outcome B
m >> k = m >>= λ _. k

module _ {ℓ κ} {A : Type ℓ} {B : Type κ} where
  pub bind_assoc {μ} :
      {C : Type μ} (m : Outcome A) (f : A → Outcome B) (g : B → Outcome C)
      → (m >>= f >>= g) ≡ (m >>= λ a. f a >>= g)
  bind_assoc (ok a) f g = refl
  bind_assoc aborted f g = refl
  bind_assoc undefined f g = refl
  bind_assoc out_of_fuel f g = refl

  pub bind_congr :
      (m : Outcome A) {f g : A → Outcome B} → ((a : A) → f a ≡ g a) → (m >>= f) ≡ (m >>= g)
  bind_congr m p = λ i. m >>= λ a. p a i

pub bind-ok {ℓ} : {A : Type ℓ} (m : Outcome A) → (m >>= ok) ≡ m
bind-ok (ok a) = refl
bind-ok aborted = refl
bind-ok undefined = refl
bind-ok out_of_fuel = refl

abbrev pub map_ok {ℓ κ} : {A : Type ℓ} {B : Type κ} → (A → B) → Outcome A → Outcome B
map_ok f (ok a) = ok (f a)
map_ok f aborted = aborted
map_ok f undefined = undefined
map_ok f out_of_fuel = out_of_fuel
