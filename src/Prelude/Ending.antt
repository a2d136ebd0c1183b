-- ===== src/Prelude/Ending.antt =====
-- How a part of an operation ends, for code that returns errors and can panic.
use mathlib.Core.Logic.{◌⊎◌, inl, inr}
use mathlib.Core.Option.{Option, none, some}
use mathlib.Core.Path.{◌≡◌, refl}

-- It goes on with a value, the operation returns an error, or it panics.
pub data Ending {ℓ} (E : Type 0) (A : Type ℓ) : Type ℓ where
  returns : A → Ending E A
  fails : E → Ending E A
  panics : Ending E A

infixl 5 ◌>>=◌
abbrev pub ◌>>=◌ {ℓ κ} :
    {E : Type 0} {A : Type ℓ} {B : Type κ} → Ending E A → (A → Ending E B) → Ending E B
returns a >>= f = f a
fails e >>= f = fails e
panics >>= f = panics

abbrev pub of_result : {E A : Type 0} → E ⊎ A → Ending E A
of_result (inl e) = fails e
of_result (inr a) = returns a

abbrev pub of_error : {E : Type 0} → Option E → Ending E (Unit {0})
of_error none = returns tt
of_error (some e) = fails e

pub bind_same {ℓ κ} :
    {E : Type 0} {A : Type ℓ} {B : Type κ} (m : Ending E A) (f g : A → Ending E B)
    → ((a : A) → m ≡ returns a → f a ≡ g a)
    → (m >>= f) ≡ (m >>= g)
bind_same (returns a) f g h = h a refl
bind_same (fails e) f g h = refl
bind_same panics f g h = refl
