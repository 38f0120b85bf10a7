-- ===== src/Calendar/Tests.antt =====
-- The calendar at concrete times: the early close after Thanksgiving 2026.
use mu_5x_fibonacci_trading.Base.{ℕ, ◌*◌, ◌/◌, ◌%◌, ◌≤◌, ◌<◌, ◌≡◌, refl, true, some, [], ◌∷◌, any}
use mu_5x_fibonacci_trading.Execution.Sample.{toy, toy_digest}
use mu_5x_fibonacci_trading.Calendar.{
  EasternTime, Session, SessionState, session_of, windows_of, calendar_sha256, calendar_payload,
  us_equities_calendar, CalendarConfig, TradingWindowDecision, allowed_reason,
  evaluate_trading_window, holidays, early_closes,
}
use mu_5x_fibonacci_trading.Calendar.Minutes.{minute_of}
use mu_5x_fibonacci_trading.Calendar.Laws.{allows, minute_at, evaluate_allowed}
use mu_5x_fibonacci_trading.Calendar.Hours.{evaluate_cash_hours, close_of}

-- Time runs in minutes of one day.
abbrev clock : ℕ → EasternTime
clock at_ms = record {
  day = record { year = 2026; key = "11-27"; weekday = 4; iso = "2026-11-27" };
  hour = at_ms / 60000 / 60;
  minute = (at_ms / 60000) % 60;
}

abbrev config : CalendarConfig
config = record {
  trading_calendar_id = us_equities_calendar;
  trading_calendar_sha256 = some (toy_digest (calendar_payload us_equities_calendar));
  trading_windows_et = ("09:45", "11:30") ∷ ("12:30", "15:45") ∷ [];
}

-- 12:59, the last minute before the early close.
abbrev last_minute : ℕ
last_minute = 779 * 60000

abbrev session : Session
session = record { state = SessionState.early_close; opening = 570; closing = 780 }

abbrev decision : TradingWindowDecision
decision = record {
  calendar_id = us_equities_calendar;
  calendar_sha256 = toy_digest (calendar_payload us_equities_calendar);
  evaluated_at_ms = last_minute;
  eastern_date = "2026-11-27";
  session = SessionState.early_close;
  allowed = true;
  reason = allowed_reason;
}

evaluated : evaluate_trading_window toy clock last_minute config ≡ some decision
unfolding evaluate_trading_window calendar_sha256 session_of windows_of minute_of holidays
    early_closes
evaluated = refl

session_found : session_of (clock last_minute).day us_equities_calendar ≡ some session
unfolding session_of holidays early_closes
session_found = refl

evaluate_allowed_example :
    (true ≡ any (allows (minute_at (clock last_minute)) session) config.trading_windows_et)
    × (SessionState.early_close ≡ SessionState.early_close)
evaluate_allowed_example =
    evaluate_allowed toy clock last_minute config session decision session_found evaluated

evaluate_cash_hours_example :
    ((clock last_minute).day.weekday < 5)
    × (570 ≤ minute_at (clock last_minute))
    × (minute_at (clock last_minute) < close_of SessionState.early_close)
evaluate_cash_hours_example =
    evaluate_cash_hours toy clock last_minute config decision refl evaluated refl
