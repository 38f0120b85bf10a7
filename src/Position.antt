-- ===== src/Position.antt =====
-- mu_strategy/strategies/position_rules.py: the position, its candles and the part of the
-- configuration that the rules read. `none` is a ValueError or an IndexError.
pub mod Stop
pub mod Pyramid
pub mod Adding
pub mod Exit
pub mod Laws
mod Tests
use mu_5x_fibonacci_trading.Base.{
  ℕ, zero, suc, ◌+◌, ◌-◌, String, Bool, true, false, Option, none, some, List, [], ◌∷◌, length, ltb,
  leb, if◌then◌else◌, map,
}
use mu_5x_fibonacci_trading.Runtime.Floats.{Floats, is_zero, min_of}
use mu_5x_fibonacci_trading.Calendar.{CalendarConfig}

-- `xs[n]` of an index that is not negative.
abbrev pub nth {ℓ} : {A : Type ℓ} → ℕ → List A → Option A
nth n [] = none
nth zero (x ∷ xs) = some x
nth (suc n) (x ∷ xs) = nth n xs

abbrev pub last_of {ℓ} : {A : Type ℓ} → List A → Option A
last_of [] = none
last_of (x ∷ []) = some x
last_of (x ∷ y ∷ ys) = last_of (y ∷ ys)

-- `xs[:-1]`
abbrev pub but_last {ℓ} : {A : Type ℓ} → List A → List A
but_last [] = []
but_last (x ∷ []) = []
but_last (x ∷ y ∷ ys) = x ∷ but_last (y ∷ ys)

abbrev pub drop {ℓ} : {A : Type ℓ} → ℕ → List A → List A
drop n [] = []
drop zero (x ∷ xs) = x ∷ xs
drop (suc n) (x ∷ xs) = drop n xs

abbrev pub take {ℓ} : {A : Type ℓ} → ℕ → List A → List A
take n [] = []
take zero (x ∷ xs) = []
take (suc n) (x ∷ xs) = x ∷ take n xs

module _ (fl : Floats) where
  open fl use {Float, of_nat, mul, div, sum}

  pub record Candle : Type 0 where
    pub open_time_ms : ℕ
    pub open_price : Float
    pub high : Float
    pub low : Float
    pub close : Float
    pub volume : Float

  pub record PositionFillSnapshot : Type 0 where
    pub time_ms : ℕ
    pub price : Float
    pub units : Float

  pub record PositionStateSnapshot : Type 0 where
    pub fills : List PositionFillSnapshot
    pub stop_price : Float
    pub entry_anchor : Float
    pub initial_stop_price : Float
    pub max_stage : ℕ
    pub stop_transition_fill_count : ℕ
    pub stop_transition_start : Float

  -- What the rules read of StrategyConfig; the calendar's part is a field.
  pub record PositionConfig : Type 0 where
    pub calendar : CalendarConfig
    pub leverage : Float
    pub margin_steps : List Float
    pub add_thresholds : List Float
    pub rsi_add_floor : Float
    pub full_size_regime : String
    pub stop_tightening : String
    pub yellow_stop_tightening : Option String
    pub green_stop_tightening : Option String
    pub stop_buffer_pct : Float
    pub green_wide_stop_buffer_pct : Float
    pub stop_transition_bars : ℕ
    pub stop_transition_curve : String

  abbrev prices : List PositionFillSnapshot → List Float
  prices [] = []
  prices (f ∷ fs) = mul f.price f.units ∷ prices fs

  abbrev units_of : List PositionFillSnapshot → List Float
  units_of [] = []
  units_of (f ∷ fs) = f.units ∷ units_of fs

  -- `_fills_entry_price`, and `entry_price` of all fills
  unfoldable pub fills_entry_price : List PositionFillSnapshot → Float
  fills_entry_price fills =
      let units = sum (units_of fills) in
      if is_zero fl units then of_nat 0 else div (sum (prices fills)) units

  -- `min(bar.low for bar in …)` of a first bar and those that follow it.
  abbrev lowest : Float → List Candle → Float
  lowest x [] = x
  lowest x (c ∷ cs) = lowest (min_of fl x c.low) cs

  abbrev lowest_of : List Candle → Option Float
  lowest_of [] = none
  lowest_of (c ∷ cs) = some (lowest c.low cs)

  abbrev recent_sample : List Candle → Option Float
  recent_sample sample =
      if ltb (length sample) 3 then none else lowest_of (drop (length sample - 4) sample)

  -- `recent_higher_low` of mu_strategy/strategy.py, with its default lookback of 8 bars.
  unfoldable pub recent_higher_low : List Candle → ℕ → Option Float
  recent_higher_low candles index =
      recent_sample (take (index - (index - 8)) (drop (index - 8) candles))
