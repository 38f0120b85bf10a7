-- ===== src/Service/Covered/Cycle.antt =====
-- mu_strategy/signal_service.py: in the loop each child starts after its phase has been written.
use mu_5x_fibonacci_trading.Base.{
  ℕ, zero, suc, ◌+◌, ◌-◌, ◌*◌, ◌≡◌, refl, String, Bool, true, false, Option, none, some, List, ltb,
  if◌then◌else◌, ok, err, pure, continue, ◌>>=◌, All,
}
use mu_5x_fibonacci_trading.Service.Health.{
  Phase, refresh, scan, is_idle, RefreshHealth, ScanHealth, CycleHealth, ServiceState,
}
use mu_5x_fibonacci_trading.Service.World.{Outside, Call, World, Supervised, sleep}
use mu_5x_fibonacci_trading.Service.Written.{Outcome, IsWritten, writes}
use mu_5x_fibonacci_trading.Service.View.{problems}
use mu_5x_fibonacci_trading.Service.Children.{run_refresh, run_scan}
use mu_5x_fibonacci_trading.Service.Memory.{add_event, record_event, set_phase}
use mu_5x_fibonacci_trading.Service.Supervisor.{
  wait, rest, same_texts, event_of_problems, record_change, keep_cycle, cycle_of, with_cycle,
  problems_of, close_cycle, run_cycle, next_due, turn, turns,
}

module _ (o : Outside) where
  -- The state in health.json is that of a run in this phase.
  abbrev pub Tells : Phase → Option ServiceState → Type 0
  Tells p none = ⊥
  Tells p (some s) = IsWritten o s × (s.running ≡ true) × (s.phase ≡ p) × (is_idle s.phase ≡ false)

  abbrev pub IsTold : Call → Type 0
  IsTold c = Tells c.phase c.disk

  abbrev pub IsRunning : World → Type 0
  IsRunning w = (w.memory.running ≡ true) × All IsTold w.calls

  bound :
      {A B : Type 0} (f : A → Supervised B) (out : Outcome A)
      → IsRunning out.1
      → ((a : A) (w : World) → IsRunning w → IsRunning (f a w).1)
      → IsRunning (continue out f).1
  bound f (ok a, w) i h = h a w i
  bound f (err e, w) i h = i

  either :
      {A : Type 0} (b : Bool) (m n : Supervised A) (w : World)
      → IsRunning (m w).1
      → IsRunning (n w).1
      → IsRunning ((if b then m else n) w).1
  either true m n w i j = i
  either false m n w i j = j

  after_phase :
      {A : Type 0} (p : Phase) (timeout : ℕ) (f : Unit {0} → Supervised A) (w : World)
      → is_idle p ≡ false
      → IsRunning w
      → ((w' : World) → IsRunning w' → Tells p w'.disk → IsRunning (f tt w').1)
      → IsRunning ((set_phase o p timeout >>= f) w).1
  unfolding set_phase
  after_phase p timeout f w busy i h =
      writes o (λ out. IsRunning (continue out f).1) _ _ i (λ large. i)
        (λ fine. h _ i (fine, i.0, refl, busy))

  record_change-IsRunning :
      (ps prior : List String) (w : World) → IsRunning w → IsRunning (record_change o ps prior w).1
  unfolding add_event
  record_change-IsRunning ps prior w i =
      either (same_texts ps prior) (pure tt) (record_event o (event_of_problems ps) ps) w i i

  keep_cycle-IsRunning :
      (previous : Option CycleHealth) (c : CycleHealth) (w : World)
      → IsRunning w
      → IsRunning (keep_cycle o previous c w).1
  keep_cycle-IsRunning previous c w i =
      record_change-IsRunning (problems c) (problems_of previous)
        (record w { memory = with_cycle c w.memory }) i

  close_cycle-IsRunning :
      (previous : Option CycleHealth) (begun : ℕ) (refreshed : RefreshHealth) (scanned : ScanHealth)
      (w : World)
      → IsRunning w
      → IsRunning (close_cycle o previous begun refreshed scanned w).1
  unfolding close_cycle
  close_cycle-IsRunning previous begun refreshed scanned w i =
      keep_cycle-IsRunning previous
        (cycle_of previous begun refreshed scanned w.memory (o.clock w.readings))
        (record w { readings = w.readings + 1 }) i

  run_cycle-IsRunning : (w : World) → IsRunning w → IsRunning (run_cycle o w).1
  unfolding run_cycle run_refresh run_scan
  run_cycle-IsRunning w i = after_phase refresh _ _ _ refl i (λ w1 j told.
      after_phase scan _ _ _ refl (j.0, (told, j.1))
        (λ w2 k again. close_cycle-IsRunning _ _ _ _ _ (k.0, (again, k.1))))

  wait-IsRunning : (due : ℕ) (w : World) → IsRunning w → IsRunning (wait o due w).1
  unfolding wait
  wait-IsRunning due w i =
      let current = o.monotonic w.ticks in
      either (ltb current due) (sleep (due - current)) (pure tt) (record w { ticks = w.ticks + 1 })
        i i

  rest-IsRunning : (due : ℕ) (w : World) → IsRunning w → IsRunning (rest o due w).1
  unfolding rest
  rest-IsRunning due w i =
      let f : Unit {0} → Supervised ℕ =
        λ _. pure (next_due (o.interval_seconds * 1000) due (o.monotonic w.ticks)) in
      writes o (λ out. IsRunning (continue out f).1) _ _ i (λ large. i) (λ fine. i)

  turn-IsRunning : (due : ℕ) (w : World) → IsRunning w → IsRunning (turn o due w).1
  unfolding turn
  turn-IsRunning due w i =
      bound (λ _. run_cycle o >>= λ _. rest o due) (wait o due w) (wait-IsRunning due w i)
        (λ _ w1 j.
          bound (λ _. rest o due) (run_cycle o w1) (run_cycle-IsRunning w1 j)
            (λ _. rest-IsRunning due))

  pub turns-IsRunning : (n due : ℕ) (w : World) → IsRunning w → IsRunning (turns o n due w).1
  unfolding turns
  turns-IsRunning zero due w i = i
  turns-IsRunning (suc n) due w i =
      bound (turns o n) (turn o due w) (turn-IsRunning due w i) (turns-IsRunning n)
