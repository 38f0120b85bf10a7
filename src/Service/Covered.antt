-- ===== src/Service/Covered.antt =====
-- When a child process starts, health.json tells of it: the phase is written first.
mod Cycle
use mu_5x_fibonacci_trading.Base.{
  All-map, ℕ, suc, ◌-◌, ◌≡◌, refl, false, not, Option, none, some, [], str_eq, ◌==◌, Result, ok,
  err, continue, ◌>>=◌, All, arith,
}
use mu_5x_fibonacci_trading.Service.Health.{Phase, ServiceState}
use mu_5x_fibonacci_trading.Service.Valid.{service_valid}
use mu_5x_fibonacci_trading.Service.World.{
  tick, Outside, ServiceError, interrupted_cycle, Call, World, Supervised, read_health, read_state,
}
use mu_5x_fibonacci_trading.Service.Memory.{add_event}
use mu_5x_fibonacci_trading.Service.Supervisor.{
  turns, stop, unless_err, after_all, finally, is_interrupted, start, run_service,
}
use mu_5x_fibonacci_trading.Service.Document.{within_limit}
use mu_5x_fibonacci_trading.Service.Written.{Outcome, guarded, writes}
use mu_5x_fibonacci_trading.Service.Covered.Cycle.{Tells, IsTold, turns-IsRunning}

module _ (o : Outside) where
  -- Every child that has been started was told of.
  abbrev pub AreTold : World → Type 0
  AreTold w = All (IsTold o) w.calls

  stop-AreTold : (w : World) → AreTold w → AreTold (stop o w).1
  unfolding stop
  stop-AreTold w told = writes o (λ out. AreTold out.1) _ _ told (λ large. told) (λ fine. told)

  finally-AreTold : (out : Outcome (Unit {0})) → AreTold out.1 → AreTold (after_all out (stop o)).1
  finally-AreTold (r, w) told = unless_err-AreTold r (stop o w) (stop-AreTold w told)
    where
      unless_err-AreTold :
          (r : Result ServiceError (Unit {0})) (out : Outcome (Unit {0}))
          → AreTold out.1
          → AreTold (unless_err r out).1
      unless_err-AreTold r (ok _, w) told = told
      unless_err-AreTold r (err e, w) told = told

  start-AreTold :
      (n : ℕ) (previous : Option ServiceState) (w : World)
      → AreTold w
      → AreTold ((start o previous >>= λ _. tick o >>= λ due. finally (turns o n due) (stop o)) w).1
  unfolding start add_event
  start-AreTold n previous w told =
      writes o
        (λ out. AreTold (continue out (λ _. tick o >>= λ due. finally (turns o n due) (stop o))).1)
        _ _ told (λ large. told)
        (λ fine. finally-AreTold _ (turns-IsRunning o n _ _ (refl, told)).1)

  reads_from :
      {A : Type 0} (Q : Outcome A → Type 0) (f : Option ServiceState → Supervised A)
      (d : Option ServiceState) (w : World)
      → ((e : ServiceError) → Q (err e, w))
      → Q (f d w)
      → Q ((read_state o d >>= f) w)
  reads_from Q f none w fails h = h
  reads_from Q f (some s) w fails h =
      let P : Outcome (Option ServiceState) → Type 0 = λ out. Q (continue out f) in
      guarded o P w (not (within_limit o.json_size s)) _ _ (fails _) (λ _.
        guarded o P w (not (service_valid s)) _ _ (fails _)
          (λ _. guarded o P w (not (str_eq s.data_dir o.data_dir)) _ _ (fails _) (λ _. h)))

  -- In a run, each child starts when health.json holds a valid state of this directory that is
  -- running and names that child as its phase.
  pub run_service-AreTold : (n : ℕ) (w : World) → AreTold w → AreTold (run_service o n w).1
  unfolding run_service read_health
  run_service-AreTold n w told =
      let P : Outcome (Unit {0}) → Type 0 = λ out. AreTold out.1 in
      guarded o P w (n == 0) _ _ told (λ _.
        reads_from P _ w.disk w (λ e. told)
          (guarded o P w (is_interrupted w.disk) _ _ told (λ _. start-AreTold n w.disk w told)))

-- health.json after a crash at the start of this child
abbrev pub crashed_at : Call → World → World
crashed_at c w = record w { disk = c.disk }

module _ (o : Outside) (n : ℕ) (w : World) where
  refuses :
      (d : Option ServiceState) (p : Phase)
      → w.disk ≡ d
      → Tells o p d
      → run_service o (suc n) w ≡ (err interrupted_cycle, w)
  unfolding run_service read_health
  refuses none p e told = absurd told
  refuses (some s) p e ((valid, own, fits), running, same, busy) =
      let many : (suc n == 0) ≡ false = ground arith in
      rw (many, e, fits, valid, own, running, busy) refl

Tells-transfer :
    (o o' : Outside)
    → o'.data_dir ≡ o.data_dir
    → o'.json_size ≡ o.json_size
    → (p : Phase) (d : Option ServiceState) → Tells o p d
    → Tells o' p d
Tells-transfer o o' own size p none told = told
Tells-transfer o o' own size p (some s) told = rw (own, size) told

-- A supervisor that finds what health.json held at the start of any child of a run, of its own data
-- directory and with the same JSON encoder, refuses to run: it starts no child and changes nothing.
pub crash_refused :
    (o o' : Outside) (n m : ℕ) (before after : World)
    → before.calls ≡ []
    → o'.data_dir ≡ o.data_dir
    → o'.json_size ≡ o.json_size
    → All
        (λ (c : Call).
          run_service o' (suc m) (crashed_at c after) ≡ (err interrupted_cycle, crashed_at c after))
        (run_service o n before).1.calls
crash_refused o o' n m before after none_yet own size =
    All-map
      (λ c told.
        refuses o' m (crashed_at c after) c.disk c.phase refl
          (Tells-transfer o o' own size c.phase c.disk told))
      (run_service o n before).1.calls (run_service-AreTold o n before (rw none_yet tt))
