-- ===== src/Service/Completes/Cycle.antt =====
-- mu_strategy/signal_service.py: in a run with a rising clock each step of the loop returns.
use mathlib.Core.Path.{subst}
use mu_5x_fibonacci_trading.Base.{
  ℕ, zero, suc, ◌+◌, ◌-◌, ◌*◌, ◌≤◌, ◌≡◌, refl, sym, true, Option, leb→le, ltb, length, pure, ◌>>=◌,
  arith,
}
use mu_5x_fibonacci_trading.Service.Health.{
  idle, refresh, scan, RefreshHealth, ScanHealth, CycleHealth,
}
use mu_5x_fibonacci_trading.Service.Valid.{refresh_valid}
use mu_5x_fibonacci_trading.Service.Facts.{IsValid}
use mu_5x_fibonacci_trading.Service.View.{problems}
use mu_5x_fibonacci_trading.Service.World.{Outside, World, sleep}
use mu_5x_fibonacci_trading.Service.Children.{run_refresh, run_scan}
use mu_5x_fibonacci_trading.Service.Memory.{record_event}
use mu_5x_fibonacci_trading.Service.Supervisor.{
  same_texts, event_of_problems, problems_of, keep_cycle, cycle_of, with_cycle, close_cycle,
  run_cycle, next_due, resting, wait, rest, turn, turns,
}
use mu_5x_fibonacci_trading.Service.Completes.Parts.{
  ExitsWell, refresh_health-refresh_valid, IsScan, scan_health-IsScan, problems_texts,
}
use mu_5x_fibonacci_trading.Service.Completes.Later.{later-IsValid, with_cycle-IsValid}
use mu_5x_fibonacci_trading.Service.Completes.Steady.{
  IsSteady, elsewhere-IsSteady, IsWithin, Ends, bound, either, after_write, after_phase,
  event-IsSteady,
}

module _ (o : Outside) (rising : (n : ℕ) → o.clock n ≤ o.clock (n + 1)) where
  keep_cycle-IsSteady :
      (previous : Option CycleHealth) (c : CycleHealth) (w : World)
      → IsSteady o (record w { memory = with_cycle c w.memory })
      → Ends o (IsSteady o) (keep_cycle o previous c w)
  keep_cycle-IsSteady previous c w i =
      let w' = record w { memory = with_cycle c w.memory } in
      either o (IsSteady o) (same_texts (problems c) (problems_of previous)) (pure tt)
        (record_event o (event_of_problems (problems c)) (problems c)) w' i
        (event-IsSteady o rising (event_of_problems (problems c)) (problems c) w' i
          (problems_texts c))

  close_cycle-IsSteady :
      (previous : Option CycleHealth) (b : ℕ) (refreshed : RefreshHealth) (scanned : ScanHealth)
      (w : World)
      → IsWithin o b w
      → refresh_valid refreshed ≡ true
      → IsScan o.symbols scanned
      → Ends o (IsSteady o) (close_cycle o previous b refreshed scanned w)
  unfolding close_cycle
  close_cycle-IsSteady previous b refreshed scanned w (i, begun, since) r s =
      let now = o.clock w.readings in
      keep_cycle-IsSteady previous (cycle_of previous b refreshed scanned w.memory now)
        (record w { readings = w.readings + 1 })
        (record {
          valid =
              with_cycle-IsValid w.memory previous b now refreshed scanned i.valid begun since
                i.past r (subst (λ symbols. IsScan symbols scanned) (sym i.watched) s);
          own = i.own;
          watched = i.watched;
          running = i.running;
          past = rising w.readings;
          none_refused = i.none_refused;
        })

  module _ (exits : (n : ℕ) → ExitsWell (o.refresh_child n)) where
    run_cycle-IsSteady : (w : World) → IsSteady o w → Ends o (IsSteady o) (run_cycle o w)
    unfolding run_cycle run_refresh run_scan
    run_cycle-IsSteady w i =
        let b = o.clock w.readings in
        let from : w.memory.started_at_ms ≤ w.memory.updated_at_ms = leb→le _ _ i.valid.begun in
        let j : IsSteady o (record w { readings = w.readings + 1 }) = record {
          valid = i.valid;
          own = i.own;
          watched = i.watched;
          running = i.running;
          past = omega (arith, rising w.readings, i.past);
          none_refused = i.none_refused;
        } in
        after_phase o rising (IsSteady o) b refresh _ _ _
          (j, omega (arith, i.past), rising w.readings)
          (λ w1 k.
            after_phase o rising (IsSteady o) b scan _ _ _
              (elsewhere-IsSteady o w1 _ _ _ _ k.0, k.1, k.2)
              (λ w2 l.
                close_cycle-IsSteady w.memory.last_cycle b _ _ _
                  (elsewhere-IsSteady o w2 _ _ _ _ l.0, l.1, l.2)
                  (refresh_health-refresh_valid (o.refresh_child (length w1.calls)) (exits _))
                  (scan_health-IsScan o.symbols (o.scan_child (length w2.calls)))))

    wait-IsSteady : (due : ℕ) (w : World) → IsSteady o w → Ends o (IsSteady o) (wait o due w)
    unfolding wait
    wait-IsSteady due w i =
        let current = o.monotonic w.ticks in
        either o (IsSteady o) (ltb current due) (sleep (due - current)) (pure tt)
          (record w { ticks = w.ticks + 1 }) (elsewhere-IsSteady o w _ _ _ _ i)
          (elsewhere-IsSteady o w _ _ _ _ i)

    rest-IsSteady : (due : ℕ) (w : World) → IsSteady o w → Ends o (IsSteady o) (rest o due w)
    unfolding rest
    rest-IsSteady due w i =
        let now = o.clock w.readings in
        let v : IsValid (
            resting now
              (next_due (o.interval_seconds * 1000) due (o.monotonic w.ticks) - o.monotonic w.ticks)
              w.memory) =
          later-IsValid w.memory idle w.memory.running now _ (rw i.running refl) i.past
            (omega arith) i.valid in
        after_write o rising (IsSteady o) _
          (λ _. pure (next_due (o.interval_seconds * 1000) due (o.monotonic w.ticks))) _ v i.own
          (λ small. record {
            valid = v;
            own = i.own;
            watched = i.watched;
            running = i.running;
            past = rising w.readings;
            none_refused = i.none_refused;
          })

    turn-IsSteady : (due : ℕ) (w : World) → IsSteady o w → Ends o (IsSteady o) (turn o due w)
    unfolding turn
    turn-IsSteady due w i =
        bound o (IsSteady o) (IsSteady o) (λ _. run_cycle o >>= λ _. rest o due) (wait o due w)
          (wait-IsSteady due w i)
          (λ _ w1 j.
            bound o (IsSteady o) (IsSteady o) (λ _. rest o due) (run_cycle o w1)
              (run_cycle-IsSteady w1 j) (λ _. rest-IsSteady due))

    pub turns-IsSteady :
        (n due : ℕ) (w : World) → IsSteady o w → Ends o (IsSteady o) (turns o n due w)
    unfolding turns
    turns-IsSteady zero due w i = i
    turns-IsSteady (suc n) due w i =
        bound o (IsSteady o) (IsSteady o) (turns o n) (turn o due w) (turn-IsSteady due w i)
          (turns-IsSteady n)
