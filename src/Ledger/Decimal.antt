-- ===== src/Ledger/Decimal.antt =====
-- mu_strategy/manual_positions.py: `_decimal`, `_number` and `_stage`. An amount is kept as its
-- number of 10⁻¹² units, which is exact: the texts that `_decimal` accepts have at most twelve
-- decimals.
pub mod RoundTrip
pub mod Range
use Prim.Native.Char.{Char}
use mu_5x_fibonacci_trading.Base.{
  ℕ, zero, suc, ◌+◌, ◌-◌, ◌*◌, ◌/◌, ◌%◌, ◌^◌, String, Bool, true, false, ◌&&◌, Option, none, some,
  List, [], ◌∷◌, ltb, leb, ◌==◌, if◌then◌else◌, codes, length,
}
use mu_5x_fibonacci_trading.Execution.Intent.Codec.{◌>>=◌}

-- 10⁻¹² units in one.
abbrev pub one : ℕ
one = 1_000_000_000_000

-- The decimal digits of Unicode, which `\d`, `int` and `Decimal` take: those of ASCII, and
-- `wide_digit` for the others.
module _ (wide_digit : ℕ → Option ℕ) where
  abbrev pub digit : ℕ → Option ℕ
  digit c =
      if leb b'0' c && leb c b'9' then some (c - b'0') else if ltb c 128 then none else wide_digit c

  -- `\d*` to the end, read after the number `n`.
  unfoldable pub read_digits : ℕ → List ℕ → Option ℕ
  read_digits n [] = some n
  read_digits n (c ∷ cs) = elim (digit c) [ none ↦ none | some d ↦ read_digits (n * 10 + d) cs ]

  abbrev pub scaled : ℕ → Option ℕ → Option ℕ
  scaled k none = none
  scaled k (some n) = some (n * k)

  -- `(?:\.\d{1,12})?` to the end, in 10⁻¹² units.
  abbrev pub read_fraction : Option (List ℕ) → Option ℕ
  read_fraction none = some 0
  read_fraction (some ds) =
      if leb 1 (length ds) && leb (length ds) 12
      then scaled (10 ^ (12 - length ds)) (read_digits 0 ds)
      else none

  -- `(?:0|[1-9]\d{0,17})`
  abbrev pub read_integer : List ℕ → Option ℕ
  read_integer [] = none
  read_integer (c ∷ cs) =
      if leb b'1' c && leb c b'9' && leb (length cs) 17
      then read_digits (c - b'0') cs
      else if c == b'0' && length cs == 0
      then some 0
      else none

  -- What stands before the first point, and what stands after it.
  abbrev pub split_point : List ℕ → List ℕ × Option (List ℕ)
  split_point [] = ([], none)
  split_point (c ∷ cs) =
      let rest = split_point cs in if c == b'.' then ([], some cs) else (c ∷ rest.0, rest.1)

  abbrev pub positive : ℕ → Option ℕ
  positive n = if n == 0 then none else some n

  -- `_decimal`; `none` is its ValueError.
  unfoldable pub decimal : String → Option ℕ
  unfolding read_digits
  decimal s = do
    let parts = split_point (codes s)
    whole ← read_integer parts.0
    part ← read_fraction parts.1
    positive (whole * one + part)

  abbrev pub read_stage : List ℕ → Option (Option ℕ)
  read_stage [] = some none
  read_stage (c ∷ cs) =
      if leb b'1' c && leb c b'9' && leb (length cs) 1
      then elim (read_digits (c - b'0') cs) [ none ↦ none | some n ↦ some (some n) ]
      else none

  -- `_stage`; the outer `none` is its ValueError.
  unfoldable pub stage : String → Option (Option ℕ)
  unfolding read_digits
  stage s = read_stage (codes s)

abbrev pub digit_char : ℕ → Char
digit_char zero = "0"
digit_char (suc zero) = "1"
digit_char (suc (suc zero)) = "2"
digit_char (suc (suc (suc zero))) = "3"
digit_char (suc (suc (suc (suc zero)))) = "4"
digit_char (suc (suc (suc (suc (suc zero))))) = "5"
digit_char (suc (suc (suc (suc (suc (suc zero)))))) = "6"
digit_char (suc (suc (suc (suc (suc (suc (suc zero))))))) = "7"
digit_char (suc (suc (suc (suc (suc (suc (suc (suc zero)))))))) = "8"
digit_char n = "9"

-- Digits in front of a text.
abbrev pub text_onto : List ℕ → String → String
text_onto [] s = s
text_onto (d ∷ ds) s = String.◌∷◌ (digit_char d) (text_onto ds s)

-- The digits of `n` in front of others; `n` rounds are enough.
unfoldable pub digits_onto : ℕ → ℕ → List ℕ → List ℕ
digits_onto zero n ds = n ∷ ds
digits_onto (suc fuel) n ds = elim (ltb n 10) [
  | true ↦ n ∷ ds
  | false ↦ digits_onto fuel (n / 10) ((n % 10) ∷ ds)
]

-- `str` of an integer.
unfoldable pub nat_text : ℕ → String
unfolding digits_onto
nat_text n = text_onto (digits_onto n n []) ""

-- The decimals of `n` units of 10⁻ᵏ, up to the last that is not zero.
unfoldable pub fraction_digits : ℕ → ℕ → List ℕ
fraction_digits zero n = []
fraction_digits (suc k) n = elim (n == 0) [
  | true ↦ []
  | false ↦ (n / 10 ^ k) ∷ fraction_digits k (n % 10 ^ k)
]

abbrev pub fraction_text : ℕ → String
fraction_text n = if n == 0 then "" else String.◌∷◌ "." (text_onto (fraction_digits 12 n) "")

-- `_number`: the digits of `format(value, "f")`, without the zeros and the point that end it.
unfoldable pub number_text : ℕ → String
unfolding digits_onto fraction_digits
number_text n = text_onto (digits_onto (n / one) (n / one) []) (fraction_text (n % one))
