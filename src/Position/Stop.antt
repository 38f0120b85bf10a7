-- ===== src/Position/Stop.antt =====
-- mu_strategy/strategies/position_rules.py: `tighten_stop` and its modes.
use mu_5x_fibonacci_trading.Base.{
  ℕ, suc, ◌-◌, String, Bool, false, ◌&&◌, Option, none, some, List, [], ◌∷◌, length, leb, ◌==◌,
  str_eq, if◌then◌else◌, is_some,
}
use mu_5x_fibonacci_trading.Runtime.Floats.{Floats, is_zero, min_of, max_of}
use mu_5x_fibonacci_trading.Execution.Intent.Codec.{◌>>=◌}
use mu_5x_fibonacci_trading.Position.{
  nth, last_of, but_last, Candle, PositionStateSnapshot, PositionConfig, fills_entry_price,
  recent_higher_low,
}

module _ (fl : Floats) where
  open fl use {Float, of_nat, add, sub, mul, div}

  pub record StopTighteningOutcome : Type 0 where
    pub stop_price : Float
    pub transition_fill_count : ℕ
    pub transition_start : Float

  abbrev pub initial_stop_of : PositionStateSnapshot fl → Float
  initial_stop_of p = if is_zero fl p.initial_stop_price then p.stop_price else p.initial_stop_price

  -- `stop_price` raised to `target` from a stage on.
  abbrev pub from_stage : ℕ → ℕ → Float → Float → Float
  from_stage needed stage stop target = if leb needed stage then max_of fl stop target else stop

  -- The stop under a higher low, less the buffer.
  abbrev pub under : Float → Float → Float
  under low buffer = mul low (sub (of_nat 1) buffer)

  abbrev pub above_low : Float → Float → Option Float → Float
  above_low stop buffer none = stop
  above_low stop buffer (some low) =
      if is_zero fl low then stop else max_of fl stop (under low buffer)

  abbrev pub above_two : Float → Float → Float → Option Float → Float
  above_two stop other buffer none = stop
  above_two stop other buffer (some low) =
      if is_zero fl low then stop else max_of fl (max_of fl stop other) (under low buffer)

  -- `_tighten_stop_baseline` and `_baseline_stop_target`, from the stop or target to raise.
  unfoldable pub baseline_from :
      Float → PositionStateSnapshot fl → Float → Option Float → PositionConfig fl → Float
  baseline_from stop p first_entry low config =
      let second = from_stage 2 p.max_stage stop first_entry in
      let third = from_stage 3 p.max_stage second (fills_entry_price fl p.fills) in
      if leb 4 p.max_stage then above_low third config.stop_buffer_pct low else third

  abbrev halfway : PositionStateSnapshot fl → Float → Float
  halfway p first_entry = div (add (initial_stop_of p) first_entry) (of_nat 2)

  -- `_tighten_stop_half_protect`
  unfoldable pub tighten_stop_half_protect :
      PositionStateSnapshot fl → Float → Option Float → PositionConfig fl → Float
  tighten_stop_half_protect p first_entry low config =
      let second = from_stage 2 p.max_stage p.stop_price (halfway p first_entry) in
      let third = from_stage 3 p.max_stage second first_entry in
      if leb 4 p.max_stage
      then above_two third (fills_entry_price fl p.fills) config.stop_buffer_pct low
      else third

  -- `_tighten_stop_green_wide`
  unfoldable pub tighten_stop_green_wide :
      PositionStateSnapshot fl → Float → Option Float → PositionConfig fl → Float
  tighten_stop_green_wide p first_entry low config =
      let second = from_stage 2 p.max_stage p.stop_price (halfway p first_entry) in
      let third = from_stage 3 p.max_stage second first_entry in
      if leb 4 p.max_stage
      then above_two third first_entry config.green_wide_stop_buffer_pct low
      else third

  -- `_fill_index`
  abbrev pub fill_index : ℕ → List (Candle fl) → Option ℕ
  fill_index time [] = none
  fill_index time (c ∷ cs) =
      let rest = fill_index time cs in
      if c.open_time_ms == time then some 0 else elim rest [ none ↦ none | some n ↦ some (suc n) ]

  -- `_stop_transition_progress`
  unfoldable pub stop_transition_progress :
      PositionStateSnapshot fl → ℕ → List (Candle fl) → PositionConfig fl → Option Float
  stop_transition_progress p index candles config =
      if config.stop_transition_bars == 0 then some (of_nat 1) else (do
        fill ← last_of p.fills
        at ← fill_index fill.time_ms candles
        some
            (min_of fl (of_nat 1) (div (of_nat (index - at)) (of_nat config.stop_transition_bars))))

  -- `_apply_stop_transition_curve`
  unfoldable pub apply_stop_transition_curve : Float → String → Option Float
  apply_stop_transition_curve x curve =
      if str_eq curve "linear"
      then some x
      else if str_eq curve "slow_start"
      then some (mul x x)
      else if str_eq curve "fast_start"
      then some (sub (of_nat 1) (mul (sub (of_nat 1) x) (sub (of_nat 1) x)))
      else if str_eq curve "smooth"
      then some (sub (mul (mul (of_nat 3) x) x) (mul (mul (mul (of_nat 2) x) x) x))
      else none

  -- `_previous_baseline_stop_target`
  abbrev pub previous_baseline_stop_target : PositionStateSnapshot fl → Float → Float
  previous_baseline_stop_target p first_entry =
      if leb p.max_stage 2
      then initial_stop_of p
      else if p.max_stage == 3
      then first_entry
      else fills_entry_price fl (but_last p.fills)

  -- `_interpolate`
  abbrev pub interpolate : Float → Float → Float → Float
  interpolate start target progress = add start (mul (sub target start) progress)

  -- `_tighten_stop_delayed_baseline`
  unfoldable pub tighten_stop_delayed_baseline :
      PositionStateSnapshot fl
      → ℕ
      → List (Candle fl)
      → Float
      → PositionConfig fl
      → Float
      → Option Float
  unfolding baseline_from stop_transition_progress apply_stop_transition_curve
  tighten_stop_delayed_baseline p index candles first_entry config transition_start = do
    raw ← stop_transition_progress p index candles config
    progress ← apply_stop_transition_curve raw config.stop_transition_curve
    let start =
        if is_zero fl transition_start
        then previous_baseline_stop_target p first_entry
        else transition_start
    let target =
        baseline_from (initial_stop_of p) p first_entry (recent_higher_low fl candles index) config
    some (max_of fl p.stop_price (interpolate start target progress))

  abbrev or_mode : String → Option String → String → String
  or_mode regime none mode = mode
  or_mode regime (some chosen) mode = chosen

  -- `_resolved_stop_tightening`
  unfoldable pub resolved_stop_tightening : String → PositionConfig fl → String
  resolved_stop_tightening regime config =
      if str_eq regime "yellow" && is_some config.yellow_stop_tightening
      then or_mode regime config.yellow_stop_tightening ""
      else if str_eq regime "green" && is_some config.green_stop_tightening
      then or_mode regime config.green_stop_tightening ""
      else if str_eq config.stop_tightening "green_wide"
      then (if str_eq regime "green" then "wide" else "baseline")
      else if str_eq config.stop_tightening "half_protect_green_wide"
      then (if str_eq regime "green" then "wide" else "half_protect")
      else config.stop_tightening

  abbrev outcome : PositionStateSnapshot fl → Float → StopTighteningOutcome
  outcome p stop = record {
    stop_price = stop;
    transition_fill_count = p.stop_transition_fill_count;
    transition_start = p.stop_transition_start;
  }

  abbrev pub delayed_outcome : PositionStateSnapshot fl → Float → Float → StopTighteningOutcome
  delayed_outcome p start stop = record {
    stop_price = stop;
    transition_fill_count = length p.fills;
    transition_start = start;
  }

  -- The transition's anchor, taken anew where the number of fills has changed.
  abbrev pub anchor : PositionStateSnapshot fl → Float
  anchor p =
      if p.stop_transition_fill_count == length p.fills
      then p.stop_transition_start
      else p.stop_price

  -- The chain of modes; `none` is the ValueError of an unsupported one.
  unfoldable pub tighten_by_mode :
      String
      → PositionStateSnapshot fl
      → ℕ
      → List (Candle fl)
      → Float
      → PositionConfig fl
      → Option StopTighteningOutcome
  unfolding baseline_from tighten_stop_half_protect tighten_stop_green_wide
      tighten_stop_delayed_baseline
  tighten_by_mode mode p index candles first_entry config =
      let low = recent_higher_low fl candles index in
      if str_eq mode "baseline"
      then some (outcome p (baseline_from p.stop_price p first_entry low config))
      else if str_eq mode "half_protect"
      then some (outcome p (tighten_stop_half_protect p first_entry low config))
      else if str_eq mode "wide"
      then some (outcome p (tighten_stop_green_wide p first_entry low config))
      else if str_eq mode "delayed_baseline"
      then (do
        stop ← tighten_stop_delayed_baseline p index candles first_entry config (anchor p)
        some (delayed_outcome p (anchor p) stop))
      else none

  -- `candles[index].open_time_ms == candle.open_time_ms`, and the index in range.
  abbrev pub is_current : ℕ → Candle fl → List (Candle fl) → Bool
  is_current index candle candles = elim (nth index candles) [
    | none ↦ false
    | some c ↦ c.open_time_ms == candle.open_time_ms
  ]

  unfoldable pub tighten_stop :
      PositionStateSnapshot fl
      → Candle fl
      → ℕ
      → List (Candle fl)
      → String
      → PositionConfig fl
      → Option StopTighteningOutcome
  unfolding tighten_by_mode resolved_stop_tightening
  tighten_stop p candle index candles regime config =
      if is_current index candle candles
      then (do
        first ← nth 0 p.fills
        tighten_by_mode (resolved_stop_tightening regime config) p index candles first.price config)
      else none
