-- ===== src/Runtime.antt =====
-- What the package uses of Python's standard library: JSON values, digests and decimals.
pub mod Floats
use mu_5x_fibonacci_trading.Base.{ℕ, String, Bool, Option}

-- A JSON value, as `json.loads` returns it. A number other than a natural one keeps its text.
mutual
  pub data Json : Type 0 where
    null : Json
    bool : Bool → Json
    num : ℕ → Json
    real : String → Json
    text : String → Json
    array : Items → Json
    object : Fields → Json

  pub data Items : Type 0 where
    nil : Items
    cons : Json → Items → Items

  pub data Fields : Type 0 where
    end : Fields
    field : String → Json → Fields → Fields

-- `sha256_hex` is hashlib's SHA-256 of the canonical text of a JSON value (mu_strategy/canonical.py),
-- in lower-case hex; `sha256_upper` is that of an ASCII text, in upper-case hex; the rest is
-- `decimal.Decimal`: `decimal` is the constructor, with `none` for InvalidOperation, and `plain` is
-- `format(d.normalize(), "f")`.
pub record Runtime : Type 1 where
  pub sha256_hex : Json → String
  pub sha256_upper : String → String
  pub Decimal : Type 0
  pub decimal : String → Option Decimal
  pub is_finite : Decimal → Bool
  pub is_positive : Decimal → Bool
  pub less : Decimal → Decimal → Bool
  pub plain : Decimal → String
