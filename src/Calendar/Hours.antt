-- ===== src/Calendar/Hours.antt =====
-- The hours of the US equities calendar.
use mathlib.Core.Path.{subst}
use mu_5x_fibonacci_trading.Base.{
  ℕ, ◌≤◌, ◌<◌, ◌≡◌, ap, sym, ◌∙◌, String, true, Option, none, some, List, [], ◌∷◌, leb, any, arith,
  Bool-cases, inl, inr, contains_text,
}
use mu_5x_fibonacci_trading.Runtime.{Runtime}
use mu_5x_fibonacci_trading.Calendar.{
  Day, early_close, cash_session, us_equities_calendar, has_year, holidays, early_closes,
  EasternTime, Session, SessionState, session_of, CalendarConfig, TradingWindowDecision,
  calendar_sha256, checked_digest, evaluate_trading_window,
}
use mu_5x_fibonacci_trading.Calendar.Minutes.{minute_of}
use mu_5x_fibonacci_trading.Execution.Intent.Codec.{bound}
use mu_5x_fibonacci_trading.Calendar.Laws.{allows, allows_minutes, minute_at, evaluate_allowed}

evaluate_session :
    (rt : Runtime) (eastern : ℕ → EasternTime) (at_ms : ℕ) (config : CalendarConfig)
    (d : TradingWindowDecision)
    → evaluate_trading_window rt eastern at_ms config ≡ some d
    → (s : Session) × (session_of (eastern at_ms).day config.trading_calendar_id ≡ some s)
unfolding evaluate_trading_window
evaluate_session rt eastern at_ms config d h =
    let (digest, _, h1) = bound (calendar_sha256 rt eastern config.trading_calendar_id) _ h in
    let (checked, _, h2) = bound (checked_digest rt eastern config digest) _ h1 in
    let (s, p, h3) = bound (session_of (eastern at_ms).day config.trading_calendar_id) _ h2 in
    (s, p)

allows_session :
    (m : ℕ) (s : Session) (f l : Option ℕ)
    → allows_minutes m s f l ≡ true
    → (s.opening ≤ m) × (m < s.closing)
allows_session m s (some f) (some l) h = ground arith
allows_session m s (some f) none h = absurd (cc h)
allows_session m s none l h = absurd (cc h)

any-allows_session :
    (m : ℕ) (s : Session) (ws : List (String × String))
    → any (allows m s) ws ≡ true
    → (s.opening ≤ m) × (m < s.closing)
any-allows_session m s [] h = absurd (cc h)
any-allows_session m s ((start, finish) ∷ ws) h = elim (Bool-cases (allows m s (start, finish))) [
  | inl hit ↦ allows_session m s (minute_of start) (minute_of finish) hit
  | inr miss ↦ any-allows_session m s ws (rw miss at h)
]

-- The close of a cash session.
abbrev pub close_of : SessionState → ℕ
close_of early_close = 780
close_of _ = 960

abbrev CashHours : ℕ → SessionState → Type 0
CashHours m state = (570 ≤ m) × (m < close_of state)

-- The minutes of a session that has been found.
abbrev HasHours : ℕ → Session → Type 0
HasHours m s = s.opening ≤ m → m < s.closing → CashHours m s.state

carry : (P : Session → Type 0) {r s : Session} → some r ≡ some s → P r → P s
carry P h p = subst P (cc h) p

cash_session_hours :
    (m : ℕ) (day : Day) (closed : Option (List String)) (s : Session)
    → cash_session day closed ≡ some s
    → HasHours m s
cash_session_hours m day none s h = absurd (cc h)
cash_session_hours m day (some closed) s h = elim (Bool-cases (contains_text day.key closed)) [
  | inl hit ↦ carry (HasHours m) (rw hit at h) (λ low high. absurd (omega (arith, high)))
  | inr miss ↦ elim (Bool-cases (contains_text day.key (early_closes day.year))) [
    | inl early ↦ carry (HasHours m) (rw (miss, early) at h) (λ low high. (low, high))
    | inr late ↦ carry (HasHours m) (rw (miss, late) at h) (λ low high. (low, high))
  ]
]

session_hours :
    (m : ℕ) (day : Day) (s : Session)
    → session_of day us_equities_calendar ≡ some s
    → s.opening ≤ m
    → m < s.closing
    → (day.weekday < 5) × CashHours m s.state
unfolding session_of
session_hours m day s h = elim (Bool-cases (has_year (holidays day.year))) [
  | inr unknown ↦ absurd (cc (rw unknown at h))
  | inl known ↦ elim (Bool-cases (leb 5 day.weekday)) [
    | inl ended ↦
        carry (λ s. s.opening ≤ m → m < s.closing → (day.weekday < 5) × CashHours m s.state)
          (rw (known, ended) at h) (λ low high. absurd (omega (arith, high)))
    | inr weekday ↦ λ low high. (
      ground arith,
      cash_session_hours m day (holidays day.year) s (rw (known, weekday) at h) low high,
    )
  ]
]

-- With the US equities calendar an allowed time is on a weekday, from 9:30 on and before 16:00, or
-- before 13:00 on an early close.
pub evaluate_cash_hours :
    (rt : Runtime) (eastern : ℕ → EasternTime) (at_ms : ℕ) (config : CalendarConfig)
    (d : TradingWindowDecision)
    → config.trading_calendar_id ≡ us_equities_calendar
    → evaluate_trading_window rt eastern at_ms config ≡ some d
    → d.allowed ≡ true
    → ((eastern at_ms).day.weekday < 5)
      × (570 ≤ minute_at (eastern at_ms))
      × (minute_at (eastern at_ms) < close_of d.session)
evaluate_cash_hours rt eastern at_ms config d us h allowed =
    let m = minute_at (eastern at_ms) in
    let (s, p) = evaluate_session rt eastern at_ms config d h in
    let (same, state) = evaluate_allowed rt eastern at_ms config s d p h in
    let (low, high) = any-allows_session m s config.trading_windows_et (sym same ∙ allowed) in
    let (week, (first, last)) =
      session_hours m (eastern at_ms).day s (ap (session_of (eastern at_ms).day) (sym us) ∙ p) low
        high in
    (week, first, subst (λ x. m < close_of x) (sym state) last)
