-- ===== src/Position/Tests.antt =====
-- The position rules at concrete inputs, with natural numbers for the floats.
use mu_5x_fibonacci_trading.Base.{
  ℕ, ◌+◌, ◌-◌, ◌*◌, ◌/◌, ◌≤◌, ◌≡◌, refl, true, false, none, some, List, [], ◌∷◌, length, ltb, leb,
  ◌==◌, arith,
}
use mu_5x_fibonacci_trading.Runtime.Floats.{Floats, IsStrict}
use mu_5x_fibonacci_trading.Execution.Sample.{toy, toy_digest}
use mu_5x_fibonacci_trading.Calendar.{
  EasternTime, session_of, windows_of, calendar_sha256, calendar_payload, legacy_calendar,
  us_equities_calendar, TradingWindowDecision, evaluate_trading_window, holidays, early_closes,
}
use mu_5x_fibonacci_trading.Calendar.Minutes.{minute_of}
use mu_5x_fibonacci_trading.Position.{
  Candle, PositionStateSnapshot, PositionConfig, fills_entry_price, recent_higher_low,
}
use mu_5x_fibonacci_trading.Position.Stop.{
  StopTighteningOutcome, tighten_stop, tighten_by_mode, resolved_stop_tightening, baseline_from,
}
use mu_5x_fibonacci_trading.Position.Pyramid.{add_stage, confirm_add, decide_pyramid_add}
use mu_5x_fibonacci_trading.Position.Exit.{
  ExitObservation, ExitReason, stop_before_candle, calendar_unavailable, evaluate_exit,
  evaluate_exit-stopped,
}
use mu_5x_fibonacci_trading.Position.Laws.{Rises, tighten_stop-Rises}
use mu_5x_fibonacci_trading.Position.Adding.{IsConfirmed, decide_pyramid_add_lem}

abbrev total_of : List ℕ → ℕ
total_of [] = 0
total_of (x ∷ xs) = x + total_of xs

abbrev whole : Floats
whole = record {
  Float = ℕ;
  of_nat = λ n. n;
  add = λ a b. a + b;
  sub = λ a b. a - b;
  mul = λ a b. a * b;
  div = λ a b. a / b;
  sum = total_of;
  less = ltb;
  at_most = leb;
  equal = λ a b. a == b;
}

whole-IsStrict : IsStrict whole
whole-IsStrict = record { irreflexive = λ x. ground arith; transitive = λ x y z h k. ground arith }

abbrev candle : Candle whole
candle = record {
  open_time_ms = 60000;
  open_price = 110;
  high = 120;
  low = 105;
  close = 118;
  volume = 7;
}

abbrev position : PositionStateSnapshot whole
position = record {
  fills = record { time_ms = 60000; price = 100; units = 2 } ∷ [];
  stop_price = 95;
  entry_anchor = 100;
  initial_stop_price = 0;
  max_stage = 2;
  stop_transition_fill_count = 0;
  stop_transition_start = 0;
}

abbrev config : PositionConfig whole
config = record {
  calendar = record {
    trading_calendar_id = legacy_calendar;
    trading_calendar_sha256 = some (toy_digest (calendar_payload legacy_calendar));
    trading_windows_et = ("09:45", "15:45") ∷ [];
  };
  leverage = 5;
  margin_steps = 20 ∷ 20 ∷ 20 ∷ 40 ∷ [];
  add_thresholds = 0 ∷ 0 ∷ 1 ∷ [];
  rsi_add_floor = 50;
  full_size_regime = "green";
  stop_tightening = "baseline";
  yellow_stop_tightening = none;
  green_stop_tightening = none;
  stop_buffer_pct = 0;
  green_wide_stop_buffer_pct = 0;
  stop_transition_bars = 8;
  stop_transition_curve = "linear";
}

abbrev risen : StopTighteningOutcome whole
risen = record { stop_price = 100; transition_fill_count = 0; transition_start = 0 }

tightened : tighten_stop whole position candle 0 (candle ∷ []) "green" config ≡ some risen
unfolding tighten_stop tighten_by_mode resolved_stop_tightening baseline_from fills_entry_price
    recent_higher_low
tightened = refl

tighten_stop-Rises_example : Rises whole whole-IsStrict 95 100
tighten_stop-Rises_example =
    tighten_stop-Rises whole whole-IsStrict position candle 0 (candle ∷ []) "green" config risen
      tightened

-- Ten o'clock on a Tuesday.
abbrev clock : ℕ → EasternTime
clock at_ms = record {
  day = record { year = 2026; key = "03-10"; weekday = 1; iso = "2026-03-10" };
  hour = 10;
  minute = 0;
}

added :
    decide_pyramid_add whole toy clock position candle 60 5 4 "green" config
    ≡ some (add_stage 3 110 20 100 960000)
unfolding decide_pyramid_add confirm_add evaluate_trading_window calendar_sha256 session_of
    windows_of minute_of holidays early_closes
added = refl

decide_pyramid_add_lem_example :
    (3 ≤ length config.margin_steps)
    × ((window : TradingWindowDecision) × (evaluate_trading_window toy clock candle.open_time_ms
            config.calendar
          ≡ some window)
        × (window.allowed ≡ true))
    × IsConfirmed whole position candle 60 5 4 "green" config 3 110 20 100 960000
decide_pyramid_add_lem_example =
    decide_pyramid_add_lem whole position candle 60 5 4 "green" config toy clock 3 110 20 100 960000
      added

abbrev falling : Candle whole
falling = record candle { low = 90 }

abbrev stopped : ExitObservation whole
stopped = record {
  candle_open_time_ms = 60000;
  latest_close = 118;
  stop_before = 95;
  stop_after_candle_if_open = 100;
  exit_triggered = some true;
  exit_reason = some ExitReason.stop;
  trigger_basis = stop_before_candle;
  latest_close_at_or_below_tightened_stop = false;
  transition_fill_count = 0;
  transition_start = 0;
  calendar_error = false;
}

stopped_out :
    evaluate_exit whole toy clock position falling 0 (falling ∷ []) "green" config ≡ some stopped
unfolding evaluate_exit tighten_stop tighten_by_mode resolved_stop_tightening baseline_from
    fills_entry_price recent_higher_low evaluate_trading_window calendar_sha256 session_of
    windows_of minute_of holidays early_closes
stopped_out = refl

evaluate_exit-stopped_example : (some true ≡ some true) × Rises whole whole-IsStrict 95 100
evaluate_exit-stopped_example =
    evaluate_exit-stopped whole whole-IsStrict toy clock position falling 0 (falling ∷ []) "green"
      config stopped refl stopped_out

-- A calendar that does not cover the year.
abbrev uncovered : PositionConfig whole
uncovered = record config {
  calendar = record {
    trading_calendar_id = us_equities_calendar;
    trading_calendar_sha256 = some (toy_digest (calendar_payload us_equities_calendar));
    trading_windows_et = [];
  };
}

abbrev later_clock : ℕ → EasternTime
later_clock at_ms = record {
  day = record { year = 2030; key = "03-12"; weekday = 1; iso = "2030-03-12" };
  hour = 10;
  minute = 0;
}

abbrev unknown_exit : ExitObservation whole
unknown_exit = record stopped {
  exit_triggered = none;
  exit_reason = none;
  trigger_basis = calendar_unavailable;
  calendar_error = true;
}

left_unknown :
    evaluate_exit whole toy later_clock position candle 0 (candle ∷ []) "green" uncovered
    ≡ some unknown_exit
unfolding evaluate_exit tighten_stop tighten_by_mode resolved_stop_tightening baseline_from
    fills_entry_price recent_higher_low evaluate_trading_window calendar_sha256 session_of
    windows_of minute_of holidays early_closes
left_unknown = refl
