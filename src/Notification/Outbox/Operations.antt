-- ===== src/Notification/Outbox/Operations.antt =====
-- mu_strategy/notifications/store.py: claiming, finishing, deferring, resolving and retrying.
use mu_5x_fibonacci_trading.Base.{
  ℕ, ◌+◌, String, Bool, false, not, ◌||◌, Option, none, some, leb, contains_text, is_some, find,
  pure, raise, raise_if, gets, modify, or_raise, ◌>>=◌, ◌>>◌, transaction,
}
use mu_5x_fibonacci_trading.Runtime.{Runtime}
use mu_5x_fibonacci_trading.Notification.Observation.{Observations}
use mu_5x_fibonacci_trading.Notification.Event.{
  DeliveryState, pending, confirmed, failed, unknown, same_delivery, alert_event_id,
}
use mu_5x_fibonacci_trading.Notification.Outbox.{
  notification_error, attribute_error, OutboxRow, HistoryAction, Outbox, Notify, history, changed,
  claimed_row, finished_row, deferred_row, retried_row, claimable, retry_delay, defer_reasons,
  DeliveryRecord, delivery_record,
}

module _ (rt : Runtime) (obs : Observations) where
  abbrev pub claim_row : ℕ → Option OutboxRow → Notify (Option (DeliveryRecord rt obs))
  claim_row now none = pure none
  claim_row now (some r) = do
    found ← delivery_record rt obs r.event_id
    modify (changed r.event_id claimed_row)
    history r.event_id now HistoryAction.attempt_started "unknown"
    d ← or_raise found attribute_error
    delivery_record rt obs (alert_event_id rt obs d.event)

  unfoldable pub claim : ℕ → ℕ → Notify (Option (DeliveryRecord rt obs))
  unfolding delivery_record history
  claim now max_attempts = do
    row ← gets (λ (db : Outbox). find (claimable now max_attempts) db.rows)
    claim_row now row

  -- What follows `record` in `finish`.
  abbrev pub finish_record :
      String
      → DeliveryState
      → ℕ
      → String
      → Bool
      → Option (DeliveryRecord rt obs)
      → Notify (Unit {0})
  finish_record id state now code retryable none = raise notification_error
  finish_record id state now code retryable (some d) = do
    raise_if (not (same_delivery d.state unknown) || same_delivery state pending) notification_error
    modify (changed id (finished_row state retryable (now + retry_delay d.attempts)))
    history id now HistoryAction.attempt_finished code

  unfoldable pub finish : String → DeliveryState → ℕ → String → Bool → Notify (Unit {0})
  unfolding delivery_record history
  finish id state now code retryable = do
    found ← delivery_record rt obs id
    finish_record id state now code retryable found

  -- What follows `record` in `defer_unstarted`.
  abbrev pub defer_record : String → ℕ → String → Option (DeliveryRecord rt obs) → Notify (Unit {0})
  defer_record id now reason none = raise notification_error
  defer_record id now reason (some d) = do
    raise_if (not (same_delivery d.state unknown) || not (leb 1 d.attempts)) notification_error
    raise_if (not (contains_text reason defer_reasons)) notification_error
    modify (changed id (deferred_row (now + 30000)))
    history id now HistoryAction.attempt_not_started reason

  unfoldable pub defer_unstarted : String → ℕ → String → Notify (Unit {0})
  unfolding delivery_record history
  defer_unstarted id now reason = do
    found ← delivery_record rt obs id
    defer_record id now reason found

  -- `resolve`, after the test of the schema.
  unfoldable pub resolve : String → DeliveryState → ℕ → Notify (Unit {0})
  unfolding finish
  resolve id outcome now = do
    raise_if (not (same_delivery outcome confirmed || same_delivery outcome failed))
        notification_error
    transaction (finish id outcome now "operator_checked" false)

  -- What follows `record` in `retry_failed`.
  abbrev pub retry_record : String → ℕ → Option (DeliveryRecord rt obs) → Notify (Unit {0})
  retry_record id now none = raise notification_error
  retry_record id now (some d) = do
    raise_if (not (same_delivery d.state failed) || leb 3 d.attempts || is_some d.suppressed_reason)
        notification_error
    modify (changed id (retried_row now))
    history id now HistoryAction.operator_retry "cause_fixed"

  abbrev retry_body : String → ℕ → Notify (Unit {0})
  retry_body id now = do found ← delivery_record rt obs id; retry_record id now found

  -- `retry_failed`, after the test of the schema.
  unfoldable pub retry_failed : String → ℕ → Notify (Unit {0})
  unfolding delivery_record history
  retry_failed id now = transaction (retry_body id now)
