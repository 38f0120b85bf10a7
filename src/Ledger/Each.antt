-- ===== src/Ledger/Each.antt =====
-- What every value of a chain of options satisfies.
use mu_5x_fibonacci_trading.Base.{◌≡◌, refl, Option, none, some}
use mathlib.Core.Path.{subst}
use mu_5x_fibonacci_trading.Execution.Intent.Codec.{◌>>=◌}

pub record Each {A : Type 0} (P : A → Type 0) (o : Option A) : Type 0 where
  pub at : (a : A) → o ≡ some a → P a

module _ {A : Type 0} {P : A → Type 0} where
  pub Each-some : (a : A) → P a → Each P (some a)
  Each-some a p = record { at = λ b e. subst P (cc e) p }

  pub Each-none : Each P none
  Each-none = record { at = λ b e. absurd (cc e) }

  pub Each-bind :
      {B : Type 0} (m : Option B) (f : B → Option A)
      → ((b : B) → m ≡ some b → Each P (f b))
      → Each P (m >>= f)
  Each-bind none f h = Each-none
  Each-bind (some b) f h = h b refl
