-- ===== src/Calendar/Minutes.antt =====
-- `_minute` of mu_strategy/core/trading_calendar.py: a text HH:MM as a minute of the day.
use mu_5x_fibonacci_trading.Base.{
  ℕ, ◌+◌, ◌*◌, ◌-◌, String, Bool, true, false, ◌&&◌, Option, none, some, List, [], ◌∷◌, leb, ltb,
  ◌==◌, if◌then◌else◌, codes, count_codes, is_space,
}
use mu_5x_fibonacci_trading.Execution.Intent.Codec.{◌>>=◌}

abbrev is_digit : ℕ → Bool
is_digit c = leb b'0' c && leb c b'9'

-- The digits of `int`: single underscores may stand between them. `ready` after a digit.
abbrev int_digits : Bool → ℕ → List ℕ → Option ℕ
int_digits ready acc [] = if ready then some acc else none
int_digits ready acc (c ∷ cs) =
    let more = int_digits true (acc * 10 + (c - b'0')) cs in
    let next = int_digits false acc cs in
    if is_digit c then more else if c == b'_' && ready then next else none

abbrev strip_left : List ℕ → List ℕ
strip_left [] = []
strip_left (c ∷ cs) = if is_space c then strip_left cs else c ∷ cs

-- The code points less the spaces at their end.
abbrev strip_right : List ℕ → List ℕ
strip_right [] = []
strip_right (c ∷ cs) =
    let rest = strip_right cs in
    elim rest [ [] ↦ if is_space c then [] else c ∷ [] | d ∷ ds ↦ c ∷ d ∷ ds ]

abbrev negative : Option ℕ → Option ℕ
negative (some n) = if n == 0 then some 0 else none
negative none = none

abbrev signed : List ℕ → Option ℕ
signed [] = none
signed (c ∷ cs) =
    if c == b'+'
    then int_digits false 0 cs
    else if c == b'-'
    then negative (int_digits false 0 cs)
    else int_digits false 0 (c ∷ cs)

-- `int` of a text, where it is not negative: the ranges that follow refuse a negative number.
-- Digits outside ASCII are not read.
int_of : List ℕ → Option ℕ
int_of cs = signed (strip_left (strip_right cs))

-- `value.split(":")` into exactly two parts.
abbrev split_colon : List ℕ → Option (List ℕ × List ℕ)
split_colon [] = none
split_colon (c ∷ cs) =
    let rest = split_colon cs in
    if c == b':' then some ([], cs) else elim rest [ none ↦ none | some (a, b) ↦ some (c ∷ a, b) ]

-- `_minute`; `none` is CalendarUnavailable. A second colon is refused by `int`.
unfoldable pub minute_of : String → Option ℕ
unfolding int_of
minute_of value = do
  (h, m) ← split_colon (codes value)
  hour ← int_of h
  minute ← int_of m
  if count_codes (codes value) == 5 && ltb hour 24 && ltb minute 60
      then some (hour * 60 + minute)
      else none
