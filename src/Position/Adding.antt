-- ===== src/Position/Adding.antt =====
-- What a pyramid addition has been confirmed by.
use mathlib.Core.Path.{subst}
use mu_5x_fibonacci_trading.Base.{
  ℕ, zero, suc, ◌+◌, ◌-◌, ◌==◌, List, ◌≤◌, ◌≡◌, String, true, false, ◌||◌, some, length, ltb,
  str_eq, arith, inl, inr, Bool-cases,
}
use mu_5x_fibonacci_trading.Runtime.{Runtime}
use mu_5x_fibonacci_trading.Runtime.Floats.{Floats, max_of}
use mu_5x_fibonacci_trading.Execution.Intent.Codec.{◌>>=◌, bound}
use mu_5x_fibonacci_trading.Calendar.{EasternTime, TradingWindowDecision, evaluate_trading_window}
use mu_5x_fibonacci_trading.Position.{nth, last_of, Candle, PositionStateSnapshot, PositionConfig}
use mu_5x_fibonacci_trading.Position.Pyramid.{
  add_stage, threshold_of, trigger, refused, confirm_add, candidate, decide_pyramid_add,
}

module _ (fl : Floats) where
  open fl use {Float, of_nat, add, mul, less}

  -- The threshold of the stage after `m` filled ones: the one at m - 1, and the last for no stage.
  abbrev pub IsThreshold : ℕ → List Float → Float → Type 0
  IsThreshold zero thresholds t = last_of thresholds ≡ some t
  IsThreshold (suc m) thresholds t = nth m thresholds ≡ some t

  threshold_of-IsThreshold :
      (m : ℕ) (thresholds : List Float) {t : Float}
      → threshold_of fl (m + 1) thresholds ≡ some t
      → IsThreshold m thresholds t
  threshold_of-IsThreshold zero thresholds h = h
  threshold_of-IsThreshold (suc m) thresholds {t} h =
      let later : (suc m + 1 == 1) ≡ false = ground arith in
      let index : suc m + 1 - 2 ≡ m = omega arith in
      subst (λ i. nth i thresholds ≡ some t) index (rw later at h)

  -- The candidate and the tests that it has passed.
  pub record IsConfirmed (p : PositionStateSnapshot fl) (candle : Candle fl)
      (rsi macd previous : Float) (regime : String) (config : PositionConfig fl) (stage : ℕ)
      (reference margin trigger_price : Float) (at_ms : ℕ) : Type 0 where
    pub next : stage ≡ p.max_stage + 1
    pub margin_step : nth p.max_stage config.margin_steps ≡ some margin
    pub threshold : Float
    pub threshold_at : IsThreshold p.max_stage config.add_thresholds threshold
    pub trigger_at : trigger_price ≡ mul p.entry_anchor (add (of_nat 1) threshold)
    pub reached : less candle.high trigger_price ≡ false
    pub reference_price : reference ≡ max_of fl candle.open_price trigger_price
    pub rsi_floor : less rsi config.rsi_add_floor ≡ false
    pub momentum : less macd previous ≡ false
    pub regime_full : (ltb stage 3 || str_eq regime config.full_size_regime) ≡ true
    pub after_close : at_ms ≡ candle.open_time_ms + 900000

  module _ (p : PositionStateSnapshot fl) (candle : Candle fl) (rsi macd previous : Float)
      (regime : String) (config : PositionConfig fl) where
    not_refused :
        (stage : ℕ) (price : Float)
        → refused fl stage price candle rsi macd previous regime config ≡ false
        → (less candle.high price ≡ false)
          × (less rsi config.rsi_add_floor ≡ false)
          × (less macd previous ≡ false)
          × ((ltb stage 3 || str_eq regime config.full_size_regime) ≡ true)
    not_refused stage price h = (ground arith, ground arith, ground arith, ground arith)

    confirmed :
        (threshold : Float) {stage : ℕ} {reference margin price : Float} {at_ms : ℕ}
        → threshold_of fl (p.max_stage + 1) config.add_thresholds ≡ some threshold
        → refused fl
            (p.max_stage + 1)
            (trigger fl p threshold)
            candle
            rsi
            macd
            previous
            regime
            config
          ≡ false
        → (nth p.max_stage config.margin_steps >>= λ m.
            some (candidate fl (p.max_stage + 1) (trigger fl p threshold) m candle))
          ≡ some (add_stage stage reference margin price at_ms)
        → IsConfirmed p candle rsi macd previous regime config stage reference margin price at_ms
    confirmed threshold {stage} {price = price} t r h =
        let (m, step, h1) = bound (nth p.max_stage config.margin_steps) _ h in
        let (high, floor, trend, full) = not_refused (p.max_stage + 1) (trigger fl p threshold) r in
        let same_stage : stage ≡ p.max_stage + 1 = cc h1 in
        let same_price : price ≡ trigger fl p threshold = cc h1 in
        record {
          next = same_stage;
          margin_step = cc (step, h1);
          threshold = threshold;
          threshold_at = threshold_of-IsThreshold p.max_stage config.add_thresholds t;
          trigger_at = same_price;
          reached = rw same_price high;
          reference_price = cc h1;
          rsi_floor = floor;
          momentum = trend;
          regime_full = rw same_stage full;
          after_close = cc h1;
        }

    confirm_add_lem :
        {stage : ℕ} {reference margin price : Float} {at_ms : ℕ}
        → confirm_add fl p candle rsi macd previous regime config
          ≡ some (add_stage stage reference margin price at_ms)
        → IsConfirmed p candle rsi macd previous regime config stage reference margin price at_ms
    unfolding confirm_add
    confirm_add_lem h =
        let (threshold, t, h1) =
          bound (threshold_of fl (p.max_stage + 1) config.add_thresholds) _ h in
        elim (Bool-cases (
          refused fl (p.max_stage + 1) (trigger fl p threshold) candle rsi macd previous regime
            config)) [
              | inl stopped ↦ absurd (cc (rw stopped at h1))
              | inr passed ↦ confirmed threshold t passed (rw passed at h1)
            ]

    -- An addition that is decided is the next stage and no later than the last margin step, in a
    -- trading window, and has passed every test: the high has reached the trigger, which is the entry
    -- anchor raised by the threshold of that stage, the RSI is not below its floor, the MACD histogram
    -- not below the previous one, and from stage 3 on the regime is that of full size. It is executable from one bar after the candle on.
    pub decide_pyramid_add_lem :
        (rt : Runtime) (eastern : ℕ → EasternTime) (stage : ℕ) (reference margin price : Float)
        (at_ms : ℕ)
        → decide_pyramid_add fl rt eastern p candle rsi macd previous regime config
          ≡ some (add_stage stage reference margin price at_ms)
        → (stage ≤ length config.margin_steps)
          × ((window : TradingWindowDecision) × (evaluate_trading_window rt eastern
                  candle.open_time_ms config.calendar
                ≡ some window)
              × (window.allowed ≡ true))
          × IsConfirmed p candle rsi macd previous regime config stage reference margin price at_ms
    unfolding decide_pyramid_add
    decide_pyramid_add_lem rt eastern stage reference margin price at_ms h =
        elim (Bool-cases (ltb (length config.margin_steps) (p.max_stage + 1))) [
          | inl full ↦ absurd (cc (rw full at h))
          | inr room ↦
              let (window, w, h1) =
                bound (evaluate_trading_window rt eastern candle.open_time_ms config.calendar) _
                  (rw room at h) in
              elim (Bool-cases window.allowed) [
                | inr closed ↦ absurd (cc (rw closed at h1))
                | inl allowed ↦
                    let c = confirm_add_lem (rw allowed at h1) in
                    (ground (arith, c.next), (window, w, allowed), c)
              ]
        ]
