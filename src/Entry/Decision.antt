-- ===== src/Entry/Decision.antt =====
-- mu_strategy/models.py: the closed catalogue of entry decisions.
use mu_5x_fibonacci_trading.Base.{
  String, ◌≡◌, refl, Option, none, some, List, [], ◌∷◌, str_eq, if◌then◌else◌,
}

pub data EntryDisposition : Type 0 where
  ready wait block undecided : EntryDisposition

pub data EntryDecisionStage : Type 0 where
  input signal pending_entry execution unstaged : EntryDecisionStage

pub data EntryDecisionCode : Type 0 where
  unknown : EntryDecisionCode
  market_data_unavailable : EntryDecisionCode
  no_candles : EntryDecisionCode
  current_bar_outside_trading_window : EntryDecisionCode
  reference_market_closed : EntryDecisionCode
  regime_blocked : EntryDecisionCode
  rsi_below_floor : EntryDecisionCode
  macd_weakening : EntryDecisionCode
  no_confirmed_fib_retest : EntryDecisionCode
  no_recent_confirmed_fib_retest : EntryDecisionCode
  signal_confirmed : EntryDecisionCode
  waiting_second_pullback : EntryDecisionCode
  second_pullback_limit_ready : EntryDecisionCode
  price_away_from_fib : EntryDecisionCode
  next_candle_required : EntryDecisionCode
  next_fill_outside_trading_window : EntryDecisionCode
  next_candle_did_not_break_signal_high : EntryDecisionCode
  execution_price_unavailable : EntryDecisionCode
  signal_candle_too_wide : EntryDecisionCode
  entry_too_far_above_fib : EntryDecisionCode
  entry_too_far_above_signal_close : EntryDecisionCode
  reverse_fib_resistance : EntryDecisionCode
  execution_accepted : EntryDecisionCode

pub record EntryDecisionMetadata : Type 0 where
  pub disposition : EntryDisposition
  pub stage : EntryDecisionStage

-- `ENTRY_DECISION_CATALOG`
unfoldable pub entry_decision_metadata : EntryDecisionCode → EntryDecisionMetadata
entry_decision_metadata unknown = record { disposition = undecided; stage = unstaged }
entry_decision_metadata market_data_unavailable = record { disposition = block; stage = input }
entry_decision_metadata no_candles = record { disposition = wait; stage = input }
entry_decision_metadata current_bar_outside_trading_window = record {
  disposition = wait;
  stage = input;
}
entry_decision_metadata reference_market_closed = record { disposition = wait; stage = input }
entry_decision_metadata regime_blocked = record { disposition = block; stage = signal }
entry_decision_metadata rsi_below_floor = record { disposition = block; stage = signal }
entry_decision_metadata macd_weakening = record { disposition = block; stage = signal }
entry_decision_metadata no_confirmed_fib_retest = record { disposition = wait; stage = signal }
entry_decision_metadata no_recent_confirmed_fib_retest = record {
  disposition = wait;
  stage = signal;
}
entry_decision_metadata signal_confirmed = record { disposition = ready; stage = signal }
entry_decision_metadata waiting_second_pullback = record {
  disposition = wait;
  stage = pending_entry;
}
entry_decision_metadata second_pullback_limit_ready = record {
  disposition = ready;
  stage = pending_entry;
}
entry_decision_metadata price_away_from_fib = record { disposition = wait; stage = pending_entry }
entry_decision_metadata next_candle_required = record { disposition = wait; stage = execution }
entry_decision_metadata next_fill_outside_trading_window = record {
  disposition = wait;
  stage = execution;
}
entry_decision_metadata next_candle_did_not_break_signal_high = record {
  disposition = wait;
  stage = execution;
}
entry_decision_metadata execution_price_unavailable = record {
  disposition = wait;
  stage = execution;
}
entry_decision_metadata signal_candle_too_wide = record { disposition = block; stage = execution }
entry_decision_metadata entry_too_far_above_fib = record { disposition = block; stage = execution }
entry_decision_metadata entry_too_far_above_signal_close = record {
  disposition = block;
  stage = execution;
}
entry_decision_metadata reverse_fib_resistance = record { disposition = block; stage = execution }
entry_decision_metadata execution_accepted = record { disposition = ready; stage = execution }

-- The text of a member of the enum.
unfoldable pub decision_value : EntryDecisionCode → String
decision_value unknown = "unknown"
decision_value market_data_unavailable = "market_data_unavailable"
decision_value no_candles = "no_candles"
decision_value current_bar_outside_trading_window = "current_bar_outside_trading_window"
decision_value reference_market_closed = "reference_market_closed"
decision_value regime_blocked = "regime_blocked"
decision_value rsi_below_floor = "rsi_below_floor"
decision_value macd_weakening = "macd_weakening"
decision_value no_confirmed_fib_retest = "no_confirmed_fib_retest"
decision_value no_recent_confirmed_fib_retest = "no_recent_confirmed_fib_retest"
decision_value signal_confirmed = "signal_confirmed"
decision_value waiting_second_pullback = "waiting_second_pullback"
decision_value second_pullback_limit_ready = "second_pullback_limit_ready"
decision_value price_away_from_fib = "price_away_from_fib"
decision_value next_candle_required = "next_candle_required"
decision_value next_fill_outside_trading_window = "next_fill_outside_trading_window"
decision_value next_candle_did_not_break_signal_high = "next_candle_did_not_break_signal_high"
decision_value execution_price_unavailable = "execution_price_unavailable"
decision_value signal_candle_too_wide = "signal_candle_too_wide"
decision_value entry_too_far_above_fib = "entry_too_far_above_fib"
decision_value entry_too_far_above_signal_close = "entry_too_far_above_signal_close"
decision_value reverse_fib_resistance = "reverse_fib_resistance"
decision_value execution_accepted = "execution_accepted"

abbrev every_code : List EntryDecisionCode
every_code =
    unknown ∷ market_data_unavailable ∷ no_candles ∷ current_bar_outside_trading_window
    ∷ reference_market_closed ∷ regime_blocked ∷ rsi_below_floor ∷ macd_weakening
    ∷ no_confirmed_fib_retest ∷ no_recent_confirmed_fib_retest ∷ signal_confirmed
    ∷ waiting_second_pullback ∷ second_pullback_limit_ready ∷ price_away_from_fib
    ∷ next_candle_required ∷ next_fill_outside_trading_window
    ∷ next_candle_did_not_break_signal_high ∷ execution_price_unavailable ∷ signal_candle_too_wide
    ∷ entry_too_far_above_fib ∷ entry_too_far_above_signal_close ∷ reverse_fib_resistance
    ∷ execution_accepted ∷ []

abbrev find_code : String → List EntryDecisionCode → Option EntryDecisionCode
find_code s [] = none
find_code s (c ∷ cs) = if str_eq s (decision_value c) then some c else find_code s cs

-- `EntryDecisionCode(value)`; `none` is its ValueError.
unfoldable pub parse_decision : String → Option EntryDecisionCode
unfolding decision_value
parse_decision s = find_code s every_code

pub parse-decision_value : (c : EntryDecisionCode) → parse_decision (decision_value c) ≡ some c
unfolding parse_decision
parse-decision_value unknown = refl
parse-decision_value market_data_unavailable = refl
parse-decision_value no_candles = refl
parse-decision_value current_bar_outside_trading_window = refl
parse-decision_value reference_market_closed = refl
parse-decision_value regime_blocked = refl
parse-decision_value rsi_below_floor = refl
parse-decision_value macd_weakening = refl
parse-decision_value no_confirmed_fib_retest = refl
parse-decision_value no_recent_confirmed_fib_retest = refl
parse-decision_value signal_confirmed = refl
parse-decision_value waiting_second_pullback = refl
parse-decision_value second_pullback_limit_ready = refl
parse-decision_value price_away_from_fib = refl
parse-decision_value next_candle_required = refl
parse-decision_value next_fill_outside_trading_window = refl
parse-decision_value next_candle_did_not_break_signal_high = refl
parse-decision_value execution_price_unavailable = refl
parse-decision_value signal_candle_too_wide = refl
parse-decision_value entry_too_far_above_fib = refl
parse-decision_value entry_too_far_above_signal_close = refl
parse-decision_value reverse_fib_resistance = refl
parse-decision_value execution_accepted = refl
