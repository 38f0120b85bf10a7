-- ===== src/Notification/Outbox/Calls.antt =====
-- Sequences of calls on the outbox, whether they return or raise.
use mu_5x_fibonacci_trading.Base.{ℕ, String, Bool, Option, List, [], ◌∷◌}
use mu_5x_fibonacci_trading.Runtime.{Runtime}
use mu_5x_fibonacci_trading.Notification.Observation.{Observations}
use mu_5x_fibonacci_trading.Notification.Event.{DeliveryState, AlertEvent}
use mu_5x_fibonacci_trading.Notification.Outbox.{Outbox, enqueue, suppress}
use mu_5x_fibonacci_trading.Notification.Outbox.Operations.{
  claim, finish, defer_unstarted, resolve, retry_failed,
}
use mu_5x_fibonacci_trading.Notification.Outbox.Moves.{Move}
use mu_5x_fibonacci_trading.Notification.Outbox.Unique.{IsUnique, Move-IsUnique}
use mu_5x_fibonacci_trading.Notification.Outbox.Refinement.{
  enqueue-Move, suppress-Move, finish-Move, defer_unstarted-Move, resolve-Move, retry_failed-Move,
}
use mu_5x_fibonacci_trading.Notification.Outbox.Claiming.{claim-Move}

module _ (rt : Runtime) (obs : Observations) where
  -- A claim is that of `deliver`, with the default of three attempts.
  pub data OutboxCall : Type 0 where
    enqueue_call : AlertEvent rt obs → ℕ → Option String → OutboxCall
    suppress_call : String → String → ℕ → OutboxCall
    claim_call : ℕ → OutboxCall
    finish_call : String → DeliveryState → ℕ → String → Bool → OutboxCall
    defer_call : String → ℕ → String → OutboxCall
    resolve_call : String → DeliveryState → ℕ → OutboxCall
    retry_call : String → ℕ → OutboxCall

  unfoldable pub outbox_step : OutboxCall → Outbox → Outbox
  outbox_step (enqueue_call event now reason) db = (enqueue rt obs event now reason db).1
  outbox_step (suppress_call id reason now) db = (suppress rt obs id reason now db).1
  outbox_step (claim_call now) db = (claim rt obs now 3 db).1
  outbox_step (finish_call id state now code retryable) db =
      (finish rt obs id state now code retryable db).1
  outbox_step (defer_call id now reason) db = (defer_unstarted rt obs id now reason db).1
  outbox_step (resolve_call id outcome now) db = (resolve rt obs id outcome now db).1
  outbox_step (retry_call id now) db = (retry_failed rt obs id now db).1

  unfoldable pub outbox_run : List OutboxCall → Outbox → Outbox
  outbox_run [] db = db
  outbox_run (c ∷ cs) db = outbox_run cs (outbox_step c db)

  -- On an outbox whose event ids differ, every method of the store, on every branch and whether it
  -- returns or raises, makes one move of the delivery state machine or none.
  pub outbox_step-Move :
      (c : OutboxCall) (db : Outbox) → IsUnique db.rows → Move db (outbox_step c db)
  unfolding outbox_step
  outbox_step-Move (enqueue_call event now reason) db u = enqueue-Move rt obs event now reason db
  outbox_step-Move (suppress_call id reason now) db u = suppress-Move rt obs id reason now db
  outbox_step-Move (claim_call now) db u = claim-Move rt obs now db u
  outbox_step-Move (finish_call id state now code retryable) db u =
      finish-Move rt obs id state now code retryable db
  outbox_step-Move (defer_call id now reason) db u = defer_unstarted-Move rt obs id now reason db
  outbox_step-Move (resolve_call id outcome now) db u = resolve-Move rt obs id outcome now db
  outbox_step-Move (retry_call id now) db u = retry_failed-Move rt obs id now db

  -- What every move keeps, and what holds of the empty outbox, holds after any calls.
  pub outbox_induction :
      (P : Outbox → Type 0)
      → ((db db' : Outbox) → IsUnique db.rows → P db → Move db db' → P db')
      → (cs : List OutboxCall) (db : Outbox) → IsUnique db.rows
      → P db
      → IsUnique (outbox_run cs db).rows × P (outbox_run cs db)
  unfolding outbox_run
  outbox_induction P keep [] db u h = (u, h)
  outbox_induction P keep (c ∷ cs) db u h =
      let m = outbox_step-Move c db u in
      outbox_induction P keep cs (outbox_step c db) (Move-IsUnique m u)
        (keep db (outbox_step c db) u h m)
