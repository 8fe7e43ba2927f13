-- ===== src/Base/Results.antt =====
-- How a call of the kernel ends: with a value, in `panic(PANIC_ERROR, ...)`, which never returns,
-- or in a loop that never ends (`spin`), such as the acquisition of a lock that nobody releases.
use mathlib.Core.Path.{◌≡◌, refl}

pub data Outcome {ℓ} (A : Type ℓ) : Type ℓ where
  done : A → Outcome A
  halt : Outcome A
  spin : Outcome A

infixl 5 ◌>>=◌
abbrev pub ◌>>=◌ {ℓ κ} : {A : Type ℓ} {B : Type κ} → Outcome A → (A → Outcome B) → Outcome B
done a >>= f = f a
halt >>= f = halt
spin >>= f = spin

-- The call returns, and its value satisfies `P`.
abbrev pub Returns {ℓ κ} : {A : Type ℓ} → Outcome A → (A → Type κ) → Type (ℓ ⊔ κ)
Returns {A} r P = (a : A) × (r ≡ done a) × P a

pub bind_assoc {ℓ κ μ} :
    {A : Type ℓ} {B : Type κ} {C : Type μ} (r : Outcome A) (f : A → Outcome B) (g : B → Outcome C)
    → r >>= f >>= g ≡ r >>= (λ a. f a >>= g)
bind_assoc (done a) f g = refl
bind_assoc halt f g = refl
bind_assoc spin f g = refl
