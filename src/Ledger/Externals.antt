-- ===== src/Ledger/Externals.antt =====
-- What mu_strategy/manual_positions.py uses of the standard library: the digest of a form, the
-- digits of Unicode, the time of a text in Beijing and the decimals of the average price.
use mu_5x_fibonacci_trading.Base.{ℕ, ◌≡◌, ◌<◌, String, Option, some, List}

-- A form: its fields with their texts.
abbrev pub Payload : Type 0
Payload = List (String × String)

-- `digest` is SHA-256 of `json.dumps(payload, sort_keys=True)`; `wide_digit` is the value of a
-- decimal digit of Unicode outside ASCII; `beijing_ms` is `datetime.fromisoformat`, then the
-- milliseconds of that time at UTC+8, and `none` where this raises or the result is negative;
-- `Average` is `Decimal` in a context of 60 digits, and `of_units` a number of 10⁻¹² units in it.
pub record Externals : Type 1 where
  pub digest : Payload → String
  pub wide_digit : ℕ → Option ℕ
  pub beijing_ms : String → Option ℕ
  pub Average : Type 0
  pub of_units : ℕ → Average
  pub add : Average → Average → Average
  pub mul : Average → Average → Average
  pub div : Average → Average → Average

-- A digit has a value below ten.
abbrev pub DigitsBelowTen : Externals → Type 0
DigitsBelowTen x = (c d : ℕ) → x.wide_digit c ≡ some d → d < 10
