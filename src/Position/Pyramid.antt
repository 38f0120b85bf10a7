-- ===== src/Position/Pyramid.antt =====
-- mu_strategy/strategies/position_rules.py: `decide_pyramid_add`.
use mu_5x_fibonacci_trading.Base.{
  ℕ, ◌+◌, ◌-◌, String, Bool, not, ◌&&◌, ◌||◌, Option, some, List, length, ltb, leb, ◌==◌, str_eq,
  if◌then◌else◌,
}
use mu_5x_fibonacci_trading.Runtime.{Runtime}
use mu_5x_fibonacci_trading.Runtime.Floats.{Floats, max_of}
use mu_5x_fibonacci_trading.Execution.Intent.Codec.{◌>>=◌}
use mu_5x_fibonacci_trading.Calendar.{EasternTime, evaluate_trading_window}
use mu_5x_fibonacci_trading.Position.{nth, last_of, Candle, PositionStateSnapshot, PositionConfig}

module _ (fl : Floats) where
  open fl use {Float, of_nat, add, mul, less}

  -- A decision that `__post_init__` accepts: all details, or none.
  pub data PyramidAddDecision : Type 0 where
    no_add : PyramidAddDecision
    add_stage :
        (stage : ℕ) (reference_price margin_fraction trigger_price : Float) (available_at_ms : ℕ)
        → PyramidAddDecision

  -- `config.add_thresholds[next_stage - 2]`, where an index of -1 is the last one.
  abbrev pub threshold_of : ℕ → List Float → Option Float
  threshold_of next_stage thresholds =
      if next_stage == 1 then last_of thresholds else nth (next_stage - 2) thresholds

  -- The price that the close has to confirm.
  abbrev pub trigger : PositionStateSnapshot fl → Float → Float
  trigger p threshold = mul p.entry_anchor (add (of_nat 1) threshold)

  -- The tests that refuse the candidate, from the trigger price on.
  abbrev pub refused :
      ℕ → Float → Candle fl → Float → Float → Float → String → PositionConfig fl → Bool
  refused next_stage trigger_price candle rsi_value macd_hist previous_macd_hist regime config =
      less candle.high trigger_price
      || less rsi_value config.rsi_add_floor
      || less macd_hist previous_macd_hist
      || (leb 3 next_stage && not (str_eq regime config.full_size_regime))

  -- `available_at_ms` is one bar after the opening of the candle.
  abbrev pub candidate : ℕ → Float → Float → Candle fl → PyramidAddDecision
  candidate next_stage trigger_price margin candle =
      add_stage next_stage (max_of fl candle.open_price trigger_price) margin trigger_price
        (candle.open_time_ms + 900000)

  unfoldable pub confirm_add :
      PositionStateSnapshot fl
      → Candle fl
      → Float
      → Float
      → Float
      → String
      → PositionConfig fl
      → Option PyramidAddDecision
  confirm_add p candle rsi_value macd_hist previous_macd_hist regime config = do
    threshold ← threshold_of (p.max_stage + 1) config.add_thresholds
    let price = trigger p threshold
    if refused (p.max_stage + 1) price candle rsi_value macd_hist previous_macd_hist regime config
        then some no_add
        else (do
          margin ← nth p.max_stage config.margin_steps
          some (candidate (p.max_stage + 1) price margin candle))

  -- `decide_pyramid_add`; `is_preferred_us_cash_window` is the calendar's decision.
  unfoldable pub decide_pyramid_add :
      Runtime
      → (ℕ → EasternTime)
      → PositionStateSnapshot fl
      → Candle fl
      → Float
      → Float
      → Float
      → String
      → PositionConfig fl
      → Option PyramidAddDecision
  unfolding confirm_add
  decide_pyramid_add rt eastern p candle rsi_value macd_hist previous_macd_hist regime config =
      if ltb (length config.margin_steps) (p.max_stage + 1) then some no_add else (do
        window ← evaluate_trading_window rt eastern candle.open_time_ms config.calendar
        if window.allowed
            then confirm_add p candle rsi_value macd_hist previous_macd_hist regime config
            else some no_add)
