-- ===== src/Runtime/Floats.antt =====
-- Python's floats: their operations, the built-in `sum`, and what `<` satisfies even with NaN.
use mu_5x_fibonacci_trading.Base.{ℕ, ◌≡◌, Bool, true, false, List, if◌then◌else◌}

-- `of_nat` is `float` of an integer; `at_most` is `<=`, `equal` is `==`.
pub record Floats : Type 1 where
  pub Float : Type 0
  pub of_nat : ℕ → Float
  pub add : Float → Float → Float
  pub sub : Float → Float → Float
  pub mul : Float → Float → Float
  pub div : Float → Float → Float
  pub sum : List Float → Float
  pub less : Float → Float → Bool
  pub at_most : Float → Float → Bool
  pub equal : Float → Float → Bool

-- IEEE 754: `<` is a strict partial order.
pub record IsStrict (fl : Floats) : Type 0 where
  pub irreflexive : (x : fl.Float) → fl.less x x ≡ false
  pub transitive : (x y z : fl.Float) → fl.less x y ≡ true → fl.less y z ≡ true → fl.less x z ≡ true

module _ (fl : Floats) where
  open fl use {Float, less, equal, of_nat}

  -- The built-in `max(x, y)`: the first of the greatest.
  abbrev pub max_of : Float → Float → Float
  max_of x y = if less x y then y else x

  abbrev pub min_of : Float → Float → Float
  min_of x y = if less y x then y else x

  -- `not x`
  abbrev pub is_zero : Float → Bool
  is_zero x = equal x (of_nat 0)
