-- ===== src/Calendar.antt =====
-- mu_strategy/core/trading_calendar.py: sessions of the reference market, the strategy's windows and
-- their intersection at a given time. The conversion to Eastern time is zoneinfo's, a parameter.
pub mod Minutes
pub mod Laws
pub mod Hours
mod Tests
use mu_5x_fibonacci_trading.Base.{
  ℕ, ◌+◌, ◌*◌, min, max, String, Bool, true, false, not, ◌&&◌, ◌||◌, Option, none, some, List, [],
  ◌∷◌, str_eq, leb, ltb, ◌==◌, if◌then◌else◌, contains_text, any, same_option,
}
use mu_5x_fibonacci_trading.Runtime.{Runtime, Json}
use mu_5x_fibonacci_trading.Runtime.Json.{num, text, bool, array, object}
use mu_5x_fibonacci_trading.Runtime.Items.{nil, cons}
use mu_5x_fibonacci_trading.Runtime.Fields.{end, field}
use mu_5x_fibonacci_trading.Execution.Intent.Codec.{◌>>=◌}
use Prim.Native.String.{◌++◌}
use Minutes.{minute_of}

abbrev pub legacy_calendar : String
legacy_calendar = "weekday_windows_v1"

abbrev pub us_equities_calendar : String
us_equities_calendar = "us_equities_2025_2028_v1"

abbrev pub continuous_calendar : String
continuous_calendar = "continuous_v1"

abbrev pub calendar_ids : List String
calendar_ids = legacy_calendar ∷ us_equities_calendar ∷ continuous_calendar ∷ []

abbrev holidays_2025 : List String
holidays_2025 =
    "01-01" ∷ "01-09" ∷ "01-20" ∷ "02-17" ∷ "04-18" ∷ "05-26" ∷ "06-19" ∷ "07-04" ∷ "09-01"
    ∷ "11-27" ∷ "12-25" ∷ []

abbrev holidays_2026 : List String
holidays_2026 =
    "01-01" ∷ "01-19" ∷ "02-16" ∷ "04-03" ∷ "05-25" ∷ "06-19" ∷ "07-03" ∷ "09-07" ∷ "11-26"
    ∷ "12-25" ∷ []

abbrev holidays_2027 : List String
holidays_2027 =
    "01-01" ∷ "01-18" ∷ "02-15" ∷ "03-26" ∷ "05-31" ∷ "06-18" ∷ "07-05" ∷ "09-06" ∷ "11-25"
    ∷ "12-24" ∷ []

abbrev holidays_2028 : List String
holidays_2028 =
    "01-17" ∷ "02-21" ∷ "04-14" ∷ "05-29" ∷ "06-19" ∷ "07-04" ∷ "09-04" ∷ "11-23" ∷ "12-25" ∷ []

-- `_HOLIDAYS`, its texts split; `none` is a year without entry.
unfoldable pub holidays : ℕ → Option (List String)
holidays year =
    if year == 2025
    then some holidays_2025
    else if year == 2026
    then some holidays_2026
    else if year == 2027
    then some holidays_2027
    else if year == 2028
    then some holidays_2028
    else none

-- `_EARLY_CLOSES`, for the years of `_HOLIDAYS`.
unfoldable pub early_closes : ℕ → List String
early_closes year =
    if year == 2025
    then "07-03" ∷ "11-28" ∷ "12-24" ∷ []
    else if year == 2026
    then "11-27" ∷ "12-24" ∷ []
    else if year == 2027
    then "11-26" ∷ []
    else "07-03" ∷ "11-24" ∷ []

-- An Eastern date: the year, `strftime("%m-%d")`, `weekday()` and `isoformat()`.
pub record Day : Type 0 where
  pub year : ℕ
  pub key : String
  pub weekday : ℕ
  pub iso : String

pub record EasternTime : Type 0 where
  pub day : Day
  pub hour : ℕ
  pub minute : ℕ

-- The state of a session, a text in the source.
pub data SessionState : Type 0 where
  weekend open_session holiday early_close : SessionState

pub record Session : Type 0 where
  pub state : SessionState
  pub opening : ℕ
  pub closing : ℕ

abbrev pub cash_session : Day → Option (List String) → Option Session
cash_session day none = none
cash_session day (some closed) =
    if contains_text day.key closed
    then some (record { state = holiday; opening = 0; closing = 0 })
    else if contains_text day.key (early_closes day.year)
    then some (record { state = early_close; opening = 570; closing = 780 })
    else some (record { state = open_session; opening = 570; closing = 960 })

abbrev pub has_year : Option (List String) → Bool
has_year none = false
has_year (some _) = true

-- `_session`; `none` is CalendarUnavailable.
unfoldable pub session_of : Day → String → Option Session
session_of day calendar_id =
    if str_eq calendar_id us_equities_calendar && not (has_year (holidays day.year))
    then none
    else if not (str_eq calendar_id continuous_calendar) && leb 5 day.weekday
    then some (record { state = weekend; opening = 0; closing = 0 })
    else if not (str_eq calendar_id us_equities_calendar)
    then some (record { state = open_session; opening = 0; closing = 1440 })
    else cash_session day (holidays day.year)

-- The fields of StrategyConfig that the calendar reads.
pub record CalendarConfig : Type 0 where
  pub trading_calendar_id : String
  pub trading_calendar_sha256 : Option String
  pub trading_windows_et : List (String × String)

-- `sorted` of pairs: insertion in the order of tuples.
abbrev pair_leb : ℕ × ℕ → ℕ × ℕ → Bool
pair_leb (a, b) (c, d) = ltb a c || (a == c && leb b d)

abbrev pub insert_window : ℕ × ℕ → List (ℕ × ℕ) → List (ℕ × ℕ)
insert_window w [] = w ∷ []
insert_window w (v ∷ vs) =
    let rest = insert_window w vs in if pair_leb w v then w ∷ v ∷ vs else v ∷ rest

-- One round of the loop of `_windows`, before the ones that follow it.
abbrev pub add_window : Session → ℕ → ℕ → List (ℕ × ℕ) → Option (List (ℕ × ℕ))
add_window s first last rest =
    if ltb last first
    then none
    else if ltb (max first s.opening) (min (last + 1) s.closing)
    then some (insert_window (max first s.opening, min (last + 1) s.closing) rest)
    else some rest

unfoldable pub windows_of : Session → List (String × String) → Option (List (ℕ × ℕ))
unfolding minute_of
windows_of s [] = some []
windows_of s ((start, finish) ∷ more) = do
  first ← minute_of start
  last ← minute_of finish
  rest ← windows_of s more
  add_window s first last rest

abbrev pub within : ℕ → ℕ × ℕ → Bool
within minute (start, finish) = leb start minute && ltb minute finish

pub data WindowReason : Type 0 where
  allowed_reason reference_market_closed current_bar_outside_trading_window : WindowReason

pub record TradingWindowDecision : Type 0 where
  pub calendar_id : String
  pub calendar_sha256 : String
  pub evaluated_at_ms : ℕ
  pub eastern_date : String
  pub session : SessionState
  pub allowed : Bool
  pub reason : WindowReason

abbrev is_closed : SessionState → Bool
is_closed holiday = true
is_closed weekend = true
is_closed _ = false

-- `allowed` and the rest of the decision, from the session and the windows of the day.
abbrev pub decide_window :
    String → String → ℕ → EasternTime → Session → List (ℕ × ℕ) → TradingWindowDecision
decide_window id digest at_ms t s windows =
    let allowed = any (within (t.hour * 60 + t.minute)) windows in
    record {
      calendar_id = id;
      calendar_sha256 = digest;
      evaluated_at_ms = at_ms;
      eastern_date = t.day.iso;
      session = s.state;
      allowed = allowed;
      reason =
          if allowed
          then allowed_reason
          else if is_closed s.state
          then reference_market_closed
          else current_bar_outside_trading_window;
    }

abbrev joined : List String → String
joined [] = ""
joined (s ∷ []) = s
joined (s ∷ t ∷ ts) = s ++ " " ++ joined (t ∷ ts)

abbrev closed_dates : (ℕ → List String) → Json
closed_dates dates = object (
    field "2025" (text (joined (dates 2025))) (
      field "2026" (text (joined (dates 2026))) (
        field "2027" (text (joined (dates 2027))) (field "2028" (text (joined (dates 2028))) end))))

abbrev or_empty : Option (List String) → List String
or_empty none = []
or_empty (some l) = l

abbrev pub calendar_payload : String → Json
calendar_payload id =
    if str_eq id us_equities_calendar
    then object (
        field "cash_close" (text "16:00") (
          field "cash_end" (text "exclusive") (
            field "cash_open" (text "09:30") (
              field "coverage" (array (cons (num 2025) (cons (num 2028) nil))) (
                field "early_close" (text "13:00") (
                  field "early_closes" (closed_dates early_closes) (
                    field "holidays" (closed_dates (λ year. or_empty (holidays year))) (
                      field "id" (text id) (
                        field "timezone" (text "America/New_York") (
                          field "weekends_closed" (bool true)
                            (field "window_end" (text "inclusive_minute") end)))))))))))
    else object (
        field "id" (text id) (
          field "timezone" (text "America/New_York") (
            field "weekends_closed" (bool (not (str_eq id continuous_calendar)))
              (field "window_end" (text "inclusive_minute") end))))

module _ (rt : Runtime) (eastern : ℕ → EasternTime) where
  -- `calendar_sha256`; `none` is CalendarUnavailable.
  unfoldable pub calendar_sha256 : String → Option String
  unfolding holidays early_closes
  calendar_sha256 id =
      if contains_text id calendar_ids then some (rt.sha256_hex (calendar_payload id)) else none

  abbrev pub checked_digest : CalendarConfig → String → Option String
  checked_digest config digest =
      if same_option config.trading_calendar_sha256 (some digest) then some digest else none

  -- `evaluate_trading_window`; `none` is CalendarUnavailable.
  unfoldable pub evaluate_trading_window : ℕ → CalendarConfig → Option TradingWindowDecision
  unfolding calendar_sha256 session_of windows_of
  evaluate_trading_window at_ms config = do
    digest ← calendar_sha256 config.trading_calendar_id
    checked ← checked_digest config digest
    let t = eastern at_ms
    s ← session_of t.day config.trading_calendar_id
    windows ← windows_of s config.trading_windows_et
    some (decide_window config.trading_calendar_id checked at_ms t s windows)
