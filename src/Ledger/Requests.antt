-- ===== src/Ledger/Requests.antt =====
-- Sequences of calls of the ledger: the tables after each, whether it returned or raised. The clock
-- stands after 1970, and a form that creates a position meets the reminders of its time.
use mu_5x_fibonacci_trading.Base.{ℕ, suc, List, [], ◌∷◌}
use mu_5x_fibonacci_trading.Runtime.{Runtime}
use mu_5x_fibonacci_trading.Notification.Observation.{Observations}
use mu_5x_fibonacci_trading.Notification.Outbox.{Outbox}
use mu_5x_fibonacci_trading.Ledger.Externals.{Externals, Payload}
use mu_5x_fibonacci_trading.Ledger.Store.{Ledger}
use mu_5x_fibonacci_trading.Ledger.Form.{SignalFields}
use mu_5x_fibonacci_trading.Ledger.Save.{save}
use mu_5x_fibonacci_trading.Ledger.Confirm.{save_state}

pub data LedgerRequest : Type 0 where
  save_request : Outbox → Payload → ℕ → LedgerRequest
  state_request : Payload → ℕ → LedgerRequest

module _ (rt : Runtime) (obs : Observations) (fields : SignalFields obs) (x : Externals) where
  -- The call at `suc before_ms`.
  unfoldable pub step : LedgerRequest → Ledger → Ledger
  step (save_request outbox p before_ms) l = (save rt obs fields x outbox p (suc before_ms) l).1
  step (state_request p before_ms) l = (save_state x p (suc before_ms) l).1

  unfoldable pub run : List LedgerRequest → Ledger → Ledger
  unfolding step
  run [] l = l
  run (r ∷ rs) l = run rs (step r l)

  -- What every call keeps, every sequence of calls keeps.
  pub run_induction :
      (P : Ledger → Type 0)
      → ((r : LedgerRequest) (l : Ledger) → P l → P (step r l))
      → (rs : List LedgerRequest) (l : Ledger) → P l
      → P (run rs l)
  unfolding run
  run_induction P keep [] l h = h
  run_induction P keep (r ∷ rs) l h = run_induction P keep rs (step r l) (keep r l h)
