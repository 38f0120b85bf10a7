-- ===== src/Position/Laws.antt =====
-- The stop of a position only rises.
use mathlib.Core.Path.{subst}
use mu_5x_fibonacci_trading.Base.{
  ℕ, ◌≡◌, refl, String, Bool, true, false, Option, none, some, List, leb, ◌⊎◌, inl, inr, Bool-cases,
  str_eq, if◌then◌else◌,
}
use mu_5x_fibonacci_trading.Runtime.Floats.{Floats, IsStrict, is_zero, max_of}
use mu_5x_fibonacci_trading.Position.{
  nth, Candle, PositionStateSnapshot, PositionConfig, recent_higher_low,
}
use mu_5x_fibonacci_trading.Position.Stop.{
  StopTighteningOutcome, from_stage, above_low, above_two, under, baseline_from,
  tighten_stop_half_protect, tighten_stop_green_wide, tighten_stop_delayed_baseline,
  stop_transition_progress, apply_stop_transition_curve, tighten_by_mode, tighten_stop,
  resolved_stop_tightening, anchor, delayed_outcome, is_current,
}
use mu_5x_fibonacci_trading.Execution.Intent.Codec.{◌>>=◌, bound}

module _ (fl : Floats) (strict : IsStrict fl) where
  open fl use {Float, less}

  -- The stop is the old one, or strictly above it.
  pub record Rises (old new : Float) : Type 0 where
    pub at : (new ≡ old) ⊎ (less old new ≡ true)

  Rises-same : (x : Float) → Rises x x
  Rises-same x = record { at = inl refl }

  Rises-if :
      (b : Bool) (old x y : Float) → Rises old x → Rises old y → Rises old (if b then x else y)
  Rises-if true old x y h k = h
  Rises-if false old x y h k = k

  above : (old x y : Float) → Rises old x → less x y ≡ true → Rises old y
  above old x y h up = elim h.at [
    | inl same ↦ record { at = inr (subst (λ z. less z y ≡ true) same up) }
    | inr risen ↦ record { at = inr (strict.transitive old x y risen up) }
  ]

  Rises-max_of : (old x y : Float) → Rises old x → Rises old (max_of fl x y)
  Rises-max_of old x y h = elim (Bool-cases (less x y)) [
    | inl up ↦ rw up (above old x y h up)
    | inr not_up ↦ rw not_up h
  ]

  Rises-from_stage :
      (needed stage : ℕ) (old x target : Float)
      → Rises old x
      → Rises old (from_stage fl needed stage x target)
  Rises-from_stage needed stage old x target h =
      Rises-if (leb needed stage) old (max_of fl x target) x (Rises-max_of old x target h) h

  Rises-above_low :
      (old x buffer : Float) (low : Option Float)
      → Rises old x
      → Rises old (above_low fl x buffer low)
  Rises-above_low old x buffer none h = h
  Rises-above_low old x buffer (some low) h =
      Rises-if (is_zero fl low) old x (max_of fl x (under fl low buffer)) h
        (Rises-max_of old x (under fl low buffer) h)

  Rises-above_two :
      (old x other buffer : Float) (low : Option Float)
      → Rises old x
      → Rises old (above_two fl x other buffer low)
  Rises-above_two old x other buffer none h = h
  Rises-above_two old x other buffer (some low) h =
      Rises-if (is_zero fl low) old x (max_of fl (max_of fl x other) (under fl low buffer)) h
        (Rises-max_of old (max_of fl x other) (under fl low buffer) (Rises-max_of old x other h))

  ruleset rising_rules =
      (Rises-same, Rises-from_stage, Rises-if, Rises-above_low, Rises-above_two, Rises-max_of)

  baseline-Rises :
      (p : PositionStateSnapshot fl) (first : Float) (low : Option Float)
      (config : PositionConfig fl)
      → Rises p.stop_price (baseline_from fl p.stop_price p first low config)
  unfolding baseline_from
  baseline-Rises p first low config = search rising_rules depth 8

  half_protect-Rises :
      (p : PositionStateSnapshot fl) (first : Float) (low : Option Float)
      (config : PositionConfig fl)
      → Rises p.stop_price (tighten_stop_half_protect fl p first low config)
  unfolding tighten_stop_half_protect
  half_protect-Rises p first low config = search rising_rules depth 8

  green_wide-Rises :
      (p : PositionStateSnapshot fl) (first : Float) (low : Option Float)
      (config : PositionConfig fl)
      → Rises p.stop_price (tighten_stop_green_wide fl p first low config)
  unfolding tighten_stop_green_wide
  green_wide-Rises p first low config = search rising_rules depth 8

  raised : (old y : Float) {x : Float} → some (max_of fl old y) ≡ some x → Rises old x
  raised old y {x} h =
      let same : max_of fl old y ≡ x = cc h in
      subst (Rises old) same (Rises-max_of old old y (Rises-same old))

  delayed_baseline-Rises :
      (p : PositionStateSnapshot fl) (index : ℕ) (candles : List (Candle fl)) (first : Float)
      (config : PositionConfig fl) (start : Float) {x : Float}
      → tighten_stop_delayed_baseline fl p index candles first config start ≡ some x
      → Rises p.stop_price x
  unfolding tighten_stop_delayed_baseline
  delayed_baseline-Rises p index candles first config start h =
      let (raw, _, h1) = bound (stop_transition_progress fl p index candles config) _ h in
      let (progress, _, h2) =
        bound (apply_stop_transition_curve fl raw config.stop_transition_curve) _ h1 in
      raised p.stop_price _ h2

  carry :
      (old : Float) {o r : StopTighteningOutcome fl}
      → some r ≡ some o
      → Rises old r.stop_price
      → Rises old o.stop_price
  carry old {o} {r} h k =
      let same : r ≡ o = cc h in
      subst (λ (o : StopTighteningOutcome fl). Rises old o.stop_price) same k

  delayed_mode-Rises :
      (p : PositionStateSnapshot fl) (index : ℕ) (candles : List (Candle fl)) (first : Float)
      (config : PositionConfig fl) (o : StopTighteningOutcome fl)
      → (tighten_stop_delayed_baseline fl p index candles first config (anchor fl p) >>= λ stop.
          some (delayed_outcome fl p (anchor fl p) stop))
        ≡ some o
      → Rises p.stop_price o.stop_price
  delayed_mode-Rises p index candles first config o h =
      let (stop, q, h1) =
        bound (tighten_stop_delayed_baseline fl p index candles first config (anchor fl p)) _ h in
      carry p.stop_price h1 (delayed_baseline-Rises p index candles first config (anchor fl p) q)

  by_mode-Rises :
      (mode : String) (p : PositionStateSnapshot fl) (index : ℕ) (candles : List (Candle fl))
      (first : Float) (config : PositionConfig fl) (o : StopTighteningOutcome fl)
      → tighten_by_mode fl mode p index candles first config ≡ some o
      → Rises p.stop_price o.stop_price
  unfolding tighten_by_mode
  by_mode-Rises mode p index candles first config o h =
      let low = recent_higher_low fl candles index in
      elim (Bool-cases (str_eq mode "baseline")) [
        | inl a ↦ carry p.stop_price (rw a at h) (baseline-Rises p first low config)
        | inr a ↦ elim (Bool-cases (str_eq mode "half_protect")) [
          | inl b ↦ carry p.stop_price (rw (a, b) at h) (half_protect-Rises p first low config)
          | inr b ↦ elim (Bool-cases (str_eq mode "wide")) [
            | inl c ↦ carry p.stop_price (rw (a, b, c) at h) (green_wide-Rises p first low config)
            | inr c ↦ elim (Bool-cases (str_eq mode "delayed_baseline")) [
              | inl d ↦ delayed_mode-Rises p index candles first config o (rw (a, b, c, d) at h)
              | inr d ↦ absurd (cc (rw (a, b, c, d) at h))
            ]
          ]
        ]
      ]

  -- Where it returns, `tighten_stop` leaves the stop as it was or puts it strictly above, in every
  -- mode and for all inputs, NaN included.
  pub tighten_stop-Rises :
      (p : PositionStateSnapshot fl) (candle : Candle fl) (index : ℕ) (candles : List (Candle fl))
      (regime : String) (config : PositionConfig fl) (o : StopTighteningOutcome fl)
      → tighten_stop fl p candle index candles regime config ≡ some o
      → Rises p.stop_price o.stop_price
  unfolding tighten_stop
  tighten_stop-Rises p candle index candles regime config o h =
      elim (Bool-cases (is_current fl index candle candles)) [
        | inl current ↦
            let (first, _, h1) = bound (nth 0 p.fills) _ (rw current at h) in
            by_mode-Rises (resolved_stop_tightening fl regime config) p index candles first.price
              config o h1
        | inr other ↦ absurd (cc (rw other at h))
      ]
