-- ===== src/Position/Exit.antt =====
-- mu_strategy/live_exit.py: `evaluate_exit`, the shadow exit of a known position.
use mathlib.Core.Path.{subst}
use mu_5x_fibonacci_trading.Base.{
  ℕ, ◌≡◌, refl, ap, sym, ◌∙◌, String, Bool, true, false, Option, none, some, List, if◌then◌else◌,
}
use mu_5x_fibonacci_trading.Runtime.{Runtime}
use mu_5x_fibonacci_trading.Runtime.Floats.{Floats, IsStrict, max_of}
use mu_5x_fibonacci_trading.Execution.Intent.Codec.{◌>>=◌, bound}
use mu_5x_fibonacci_trading.Calendar.{EasternTime, TradingWindowDecision, evaluate_trading_window}
use mu_5x_fibonacci_trading.Position.{
  Candle, PositionStateSnapshot, PositionConfig, fills_entry_price,
}
use mu_5x_fibonacci_trading.Position.Stop.{StopTighteningOutcome, tighten_stop}
use mu_5x_fibonacci_trading.Position.Laws.{Rises, tighten_stop-Rises}

-- The texts of `exit_reason` and of `trigger_basis`.
pub data ExitReason : Type 0 where
  non_session_liquidation_risk stop : ExitReason

pub data TriggerBasis : Type 0 where
  liquidation_risk_price stop_before_candle calendar_unavailable no_basis : TriggerBasis

-- The risk outside the session, where the calendar says whether the candle is in one.
pub data SessionRisk : Type 0 where
  no_calendar : SessionRisk
  risk : Bool → SessionRisk

abbrev pub exit_of : SessionRisk → Bool → Option Bool
exit_of (risk true) stopped = some true
exit_of (risk false) stopped = if stopped then some true else some false
exit_of no_calendar stopped = if stopped then some true else none

abbrev pub reason_of : SessionRisk → Bool → Option ExitReason
reason_of (risk true) stopped = some non_session_liquidation_risk
reason_of _ stopped = if stopped then some stop else none

abbrev pub basis_of : SessionRisk → Bool → TriggerBasis
basis_of (risk true) stopped = liquidation_risk_price
basis_of (risk false) stopped = if stopped then stop_before_candle else no_basis
basis_of no_calendar stopped = if stopped then stop_before_candle else calendar_unavailable

abbrev has_error : SessionRisk → Bool
has_error no_calendar = true
has_error (risk b) = false

module _ (fl : Floats) where
  open fl use {Float, of_nat, sub, mul, div, at_most}

  -- `calendar_error` is whether there is one.
  pub record ExitObservation : Type 0 where
    pub candle_open_time_ms : ℕ
    pub latest_close : Float
    pub stop_before : Float
    pub stop_after_candle_if_open : Float
    pub exit_triggered : Option Bool
    pub exit_reason : Option ExitReason
    pub trigger_basis : TriggerBasis
    pub latest_close_at_or_below_tightened_stop : Bool
    pub transition_fill_count : ℕ
    pub transition_start : Float
    pub calendar_error : Bool

  abbrev liquidation_risk_price_of : PositionStateSnapshot fl → PositionConfig fl → Float
  liquidation_risk_price_of p config =
      mul (fills_entry_price fl p.fills)
        (max_of fl (of_nat 0) (sub (of_nat 1) (div (of_nat 1) config.leverage)))

  -- `_has_non_session_liquidation_risk` of the calendar's decision; `none` is the ValueError of a
  -- leverage that is not positive.
  abbrev pub session_risk :
      Option TradingWindowDecision
      → Candle fl
      → PositionStateSnapshot fl
      → PositionConfig fl
      → Option SessionRisk
  session_risk none candle p config = some no_calendar
  session_risk (some window) candle p config =
      if window.allowed
      then some (risk false)
      else if at_most config.leverage (of_nat 0)
      then none
      else some (risk (at_most candle.low (liquidation_risk_price_of p config)))

  abbrev pub observation :
      PositionStateSnapshot fl
      → Candle fl
      → SessionRisk
      → StopTighteningOutcome fl
      → ExitObservation
  observation p candle r outcome =
      let stopped = at_most candle.low p.stop_price in
      record {
        candle_open_time_ms = candle.open_time_ms;
        latest_close = candle.close;
        stop_before = p.stop_price;
        stop_after_candle_if_open = outcome.stop_price;
        exit_triggered = exit_of r stopped;
        exit_reason = reason_of r stopped;
        trigger_basis = basis_of r stopped;
        latest_close_at_or_below_tightened_stop = at_most candle.close outcome.stop_price;
        transition_fill_count = outcome.transition_fill_count;
        transition_start = outcome.transition_start;
        calendar_error = has_error r;
      }

  unfoldable pub evaluate_exit :
      Runtime
      → (ℕ → EasternTime)
      → PositionStateSnapshot fl
      → Candle fl
      → ℕ
      → List (Candle fl)
      → String
      → PositionConfig fl
      → Option ExitObservation
  evaluate_exit rt eastern p candle index candles regime config = do
    r ←
        session_risk (evaluate_trading_window rt eastern candle.open_time_ms config.calendar) candle
          p config
    outcome ← tighten_stop fl p candle index candles regime config
    some (observation p candle r outcome)

exit_of-stopped : (r : SessionRisk) → exit_of r true ≡ some true
exit_of-stopped (risk true) = refl
exit_of-stopped (risk false) = refl
exit_of-stopped no_calendar = refl

module _ (fl : Floats) (strict : IsStrict fl) (rt : Runtime) (eastern : ℕ → EasternTime) where
  open fl use {Float, at_most}

  -- Where it returns for a candle whose low is at or below the carried stop, the exit is triggered,
  -- whether or not the calendar is available, and the stop that it gives for the next candle is the
  -- carried one or strictly above it.
  pub evaluate_exit-stopped :
      (p : PositionStateSnapshot fl) (candle : Candle fl) (index : ℕ) (candles : List (Candle fl))
      (regime : String) (config : PositionConfig fl) (o : ExitObservation fl)
      → at_most candle.low p.stop_price ≡ true
      → evaluate_exit fl rt eastern p candle index candles regime config ≡ some o
      → (o.exit_triggered ≡ some true) × Rises fl strict p.stop_price o.stop_after_candle_if_open
  unfolding evaluate_exit
  evaluate_exit-stopped p candle index candles regime config o low h =
      let window = evaluate_trading_window rt eastern candle.open_time_ms config.calendar in
      let (r, q, h1) = bound (session_risk fl window candle p config) _ h in
      let (outcome, t, h2) = bound (tighten_stop fl p candle index candles regime config) _ h1 in
      let same : observation fl p candle r outcome ≡ o = cc h2 in
      (
        ap (λ (x : ExitObservation fl). x.exit_triggered) (sym same)
            ∙ ap (exit_of r) low
            ∙ exit_of-stopped r,
        subst (λ (x : ExitObservation fl). Rises fl strict p.stop_price x.stop_after_candle_if_open)
            same (tighten_stop-Rises fl strict p candle index candles regime config outcome t),
      )
