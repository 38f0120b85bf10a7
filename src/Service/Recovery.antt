-- ===== src/Service/Recovery.antt =====
-- mu_strategy/signal_service.py: `recover_interrupted` lets the next run in.
use mu_5x_fibonacci_trading.Base.{
  ℕ, suc, ◌+◌, ◌≤◌, max, ◌≡◌, refl, ap, ◌∙◌, true, false, some, [], ◌∷◌, str_eq, eq_refl, ◌>>=◌,
  arith,
}
use mu_5x_fibonacci_trading.Service.Health.{idle, interruption_acknowledged, ServiceState}
use mu_5x_fibonacci_trading.Service.Valid.{is_health_text, service_valid}
use mu_5x_fibonacci_trading.Service.Facts.{IsValid, service_valid-IsValid, service_valid_complete}
use mu_5x_fibonacci_trading.Service.Document.{within_limit}
use mu_5x_fibonacci_trading.Service.World.{Outside, World, read_health}
use mu_5x_fibonacci_trading.Service.Memory.{add_event}
use mu_5x_fibonacci_trading.Service.Supervisor.{is_interrupted, acknowledged, recover, run_service}
use mu_5x_fibonacci_trading.Service.Events.{add_event-IsValid}
use mu_5x_fibonacci_trading.Service.Completes.{IsConfig, IsNew, CanStart, IsAtRest, run_completes}
use mu_5x_fibonacci_trading.Service.Completes.Parts.{ExitsWell}
use mu_5x_fibonacci_trading.Service.Completes.Steady.{Ends, bound, after_write}
use mu_5x_fibonacci_trading.Service.Completes.Later.{later-IsValid}

-- health.json holds a valid state of this directory, within the limit of size, that a crash left in the middle of a cycle.
abbrev pub IsInterrupted : Outside → ServiceState → Type 0
IsInterrupted o s =
    (service_valid s ≡ true)
    × (s.data_dir ≡ o.data_dir)
    × (within_limit o.json_size s ≡ true)
    × (is_interrupted (some s) ≡ true)
    × IsNew o.run_id s.last_cycle

acknowledged-IsValid : (s : ServiceState) (now : ℕ) → IsValid s → IsValid (acknowledged now s)
unfolding is_health_text
acknowledged-IsValid s now v =
    let u = max now s.updated_at_ms in
    add_event-IsValid _ interruption_acknowledged now ("runtime.interrupted" ∷ [])
      (later-IsValid s idle false u u refl (omega arith) (omega arith) v) refl

module _ (o : Outside) (rising : (n : ℕ) → o.clock n ≤ o.clock (n + 1)) where
  acknowledged-CanStart :
      (s : ServiceState) (now : ℕ)
      → IsInterrupted o s
      → within_limit o.json_size (acknowledged now s) ≡ true
      → CanStart o (some (acknowledged now s))
  unfolding add_event
  acknowledged-CanStart s now (valid, own, _, busy, new) small = (
    service_valid_complete _ (acknowledged-IsValid s now (service_valid-IsValid s valid)),
    ap (λ d. str_eq d o.data_dir) own ∙ eq_refl o.data_dir,
    small,
    refl,
    new,
  )

  recover-CanStart :
      (w : World) (s : ServiceState)
      → w.disk ≡ some s
      → IsInterrupted o s
      → w.refused ≡ []
      → Ends o (λ w'. CanStart o w'.disk × (w'.refused ≡ [])) (recover o w)
  unfolding recover read_health add_event
  recover-CanStart w s held (valid, own, small, busy, new) none_yet =
      let now = o.clock w.readings in
      let same : str_eq s.data_dir o.data_dir ≡ true =
        ap (λ d. str_eq d o.data_dir) own ∙ eq_refl o.data_dir in
      rw (held, small, valid, same, busy)
        (after_write o rising (λ w'. CanStart o w'.disk × (w'.refused ≡ [])) (acknowledged now s) _
          _ (acknowledged-IsValid s now (service_valid-IsValid s valid)) own
          (λ written.
            (acknowledged-CanStart s now (valid, own, small, busy, new) written, none_yet)))

-- Where a crash has interrupted a cycle, acknowledging it lets a run in: with a clock that does not go
-- back, a well-formed configuration, exit codes of at least -2 ^ 31 and a new id, the acknowledgement
-- and the run after it return and leave a valid state at rest, with no write refused; or they raise
-- HealthStateError, after a write that was refused because a valid state was larger than the limit.
pub recovered_run :
    (o : Outside) (n : ℕ) (w : World) (s : ServiceState)
    → ((m : ℕ) → o.clock m ≤ o.clock (m + 1))
    → ((m : ℕ) → ExitsWell (o.refresh_child m))
    → IsConfig o
    → w.disk ≡ some s
    → IsInterrupted o s
    → w.refused ≡ []
    → Ends o (IsAtRest o) ((recover o >>= λ _. run_service o (suc n)) w)
recovered_run o n w s rising exits config held i none_yet =
    bound o (λ w'. CanStart o w'.disk × (w'.refused ≡ [])) (IsAtRest o) (λ _. run_service o (suc n))
      (recover o w) (recover-CanStart o rising w s held i none_yet)
      (λ _ w' ready. run_completes o n w' rising exits config ready.0 ready.1)
