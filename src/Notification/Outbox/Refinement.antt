-- ===== src/Notification/Outbox/Refinement.antt =====
-- Every method of the outbox is a move of the state machine, whatever it returns or raises.
use mu_5x_fibonacci_trading.Base.{
  ℕ, ◌+◌, ◌≡◌, refl, String, Bool, true, false, not, ◌||◌, Option, none, some, find, leb,
  contains_text, is_some, Result, ok, err, inl, inr, Bool-cases, continue, settle, arith,
  transaction, raise_if, or_raise, ◌>>=◌,
}
use mu_5x_fibonacci_trading.Runtime.{Runtime}
use mu_5x_fibonacci_trading.Notification.Observation.{Observations}
use mu_5x_fibonacci_trading.Notification.Event.{
  DeliveryState, pending, confirmed, failed, unknown, same_delivery, AlertEvent, alert_event_id,
  alert_from_json, alert_to_dict, same_event,
}
use mu_5x_fibonacci_trading.Notification.Outbox.{
  NotifyError, notification_error, OutboxRow, HistoryAction, Outbox, has_event_id, DeliveryRecord,
  delivery_record, history, retry_delay, defer_reasons, suppressed_row, finished_row, deferred_row,
  retried_row, enqueue, suppress, suppress_unless, suppress_record, insert_or_verify, new_row,
  reason_or_pending,
}
use mu_5x_fibonacci_trading.Notification.Outbox.Operations.{
  finish, finish_record, defer_unstarted, defer_record, resolve, retry_failed, retry_record,
}
use mu_5x_fibonacci_trading.Notification.Outbox.Moves.{
  suppressing, finishing, releasing, retrying, Move, staying, recording, moving,
}
use mu_5x_fibonacci_trading.Notification.Outbox.Reading.{
  ReadOutcome, missing, present, failing, delivery_record_lem,
}

unknown_of_same : (s : DeliveryState) → same_delivery s unknown ≡ true → s ≡ unknown
unknown_of_same s h = ground arith

Move-settle :
    {A : Type 0} (db : Outbox) (out : Result NotifyError A × Outbox)
    → Move db out.1
    → Move db (settle db out).1
Move-settle db (ok a, db') h = h
Move-settle db (err e, db') h = staying

module _ (rt : Runtime) (obs : Observations) where
  finish_found :
      (id : String) (state : DeliveryState) (now : ℕ) (code : String) (retryable : Bool)
      (db : Outbox) (out : Result NotifyError (Option (DeliveryRecord rt obs)) × Outbox)
      → ReadOutcome rt obs id db out
      → Move db (continue out (finish_record rt obs id state now code retryable)).1
  unfolding history
  finish_found id state now code retryable db out (missing p) = staying
  finish_found id state now code retryable db out (failing e) = staying
  finish_found id state now code retryable db out (present r event p q c) =
      elim (Bool-cases (not (same_delivery r.state unknown) || same_delivery state pending)) [
        | inl bad ↦ rw bad staying
        | inr good ↦ rw good (
            moving HistoryAction.attempt_finished r
              (finished_row state retryable (now + retry_delay r.attempts)) id now code p
              (finishing state retryable (now + retry_delay r.attempts) (ground arith)
                (ground arith)))
      ]

  pub finish-Move :
      (id : String) (state : DeliveryState) (now : ℕ) (code : String) (retryable : Bool)
      (db : Outbox)
      → Move db (finish rt obs id state now code retryable db).1
  unfolding finish
  finish-Move id state now code retryable db =
      finish_found id state now code retryable db (delivery_record rt obs id db)
        (delivery_record_lem rt obs id db)

  defer_found :
      (id : String) (now : ℕ) (reason : String) (db : Outbox)
      (out : Result NotifyError (Option (DeliveryRecord rt obs)) × Outbox)
      → ReadOutcome rt obs id db out
      → Move db (continue out (defer_record rt obs id now reason)).1
  unfolding history
  defer_found id now reason db out (missing p) = staying
  defer_found id now reason db out (failing e) = staying
  defer_found id now reason db out (present r event p q c) =
      elim (Bool-cases (not (same_delivery r.state unknown) || not (leb 1 r.attempts))) [
        | inl bad ↦ rw bad staying
        | inr good ↦ rw good (elim (Bool-cases (contains_text reason defer_reasons)) [
          | inr bad ↦ rw bad staying
          | inl fine ↦ rw fine (
              moving HistoryAction.attempt_not_started r (deferred_row (now + 30000)) id now reason
                p (releasing (now + 30000) (ground arith) (ground arith)))
        ])
      ]

  pub defer_unstarted-Move :
      (id : String) (now : ℕ) (reason : String) (db : Outbox)
      → Move db (defer_unstarted rt obs id now reason db).1
  unfolding defer_unstarted
  defer_unstarted-Move id now reason db =
      defer_found id now reason db (delivery_record rt obs id db) (delivery_record_lem rt obs id db)

  retry_found :
      (id : String) (now : ℕ) (db : Outbox)
      (out : Result NotifyError (Option (DeliveryRecord rt obs)) × Outbox)
      → ReadOutcome rt obs id db out
      → Move db (continue out (retry_record rt obs id now)).1
  unfolding history
  retry_found id now db out (missing p) = staying
  retry_found id now db out (failing e) = staying
  retry_found id now db out (present r event p q c) =
      elim (Bool-cases
        (not (same_delivery r.state failed) || leb 3 r.attempts || is_some r.suppressed_reason)) [
          | inl bad ↦ rw bad staying
          | inr good ↦ rw good (
              moving HistoryAction.operator_retry r (retried_row now) id now "cause_fixed" p
                (retrying now (ground arith) (ground arith) (ground arith)))
        ]

  pub retry_failed-Move :
      (id : String) (now : ℕ) (db : Outbox) → Move db (retry_failed rt obs id now db).1
  unfolding retry_failed transaction
  retry_failed-Move id now db =
      Move-settle db (continue (delivery_record rt obs id db) (retry_record rt obs id now))
        (retry_found id now db (delivery_record rt obs id db) (delivery_record_lem rt obs id db))

  pub resolve-Move :
      (id : String) (outcome : DeliveryState) (now : ℕ) (db : Outbox)
      → Move db (resolve rt obs id outcome now db).1
  unfolding resolve transaction
  resolve-Move id outcome now db =
      elim (Bool-cases (same_delivery outcome confirmed || same_delivery outcome failed)) [
        | inr bad ↦ rw bad staying
        | inl fine ↦ rw fine (
            Move-settle db (finish rt obs id outcome now "operator_checked" false db)
              (finish-Move id outcome now "operator_checked" false db))
      ]

  suppress_present :
      (id : String) (reason : String) (now : ℕ) (db : Outbox) (r : OutboxRow)
      (earlier : Option String)
      → find (has_event_id id) db.rows ≡ some r
      → r.suppressed_reason ≡ earlier
      → Move db (suppress_unless rt obs id reason now earlier db).1
  unfolding history
  suppress_present id reason now db r none p q =
      moving HistoryAction.suppressed r (suppressed_row reason) id now reason p
        (suppressing reason q)
  suppress_present id reason now db r (some earlier) p q = staying

  suppress_found :
      (id : String) (reason : String) (now : ℕ) (db : Outbox)
      (out : Result NotifyError (Option (DeliveryRecord rt obs)) × Outbox)
      → ReadOutcome rt obs id db out
      → Move db (continue out (suppress_record rt obs id reason now)).1
  suppress_found id reason now db out (missing p) = staying
  suppress_found id reason now db out (failing e) = staying
  suppress_found id reason now db out (present r event p q c) =
      suppress_present id reason now db r r.suppressed_reason p refl

  pub suppress-Move :
      (id : String) (reason : String) (now : ℕ) (db : Outbox)
      → Move db (suppress rt obs id reason now db).1
  unfolding suppress
  suppress-Move id reason now db =
      suppress_found id reason now db (delivery_record rt obs id db)
        (delivery_record_lem rt obs id db)

  enqueue_present : (db : Outbox) (b : Bool) → Move db ((raise_if b notification_error) db).1
  enqueue_present db true = staying
  enqueue_present db false = staying

  enqueue_found :
      (event canonical : AlertEvent rt obs) (now : ℕ) (reason : Option String) (db : Outbox)
      (out : Result NotifyError (Option (DeliveryRecord rt obs)) × Outbox)
      → ReadOutcome rt obs (alert_event_id rt obs event) db out
      → Move db (continue out (insert_or_verify rt obs event canonical now reason)).1
  unfolding history
  enqueue_found event canonical now reason db out (missing p) =
      recording (new_row rt obs event canonical now reason) now (reason_or_pending reason) p refl
        refl refl
  enqueue_found event canonical now reason db out (failing e) = staying
  enqueue_found event canonical now reason db out (present r existing p q c) =
      enqueue_present db (not (same_event rt obs existing canonical))

  enqueue_canonical :
      (event : AlertEvent rt obs) (parsed : Option (AlertEvent rt obs)) (now : ℕ)
      (reason : Option String) (db : Outbox)
      → Move db
          (continue (or_raise parsed notification_error db) (λ canonical.
            delivery_record rt obs (alert_event_id rt obs event)
            >>= insert_or_verify rt obs event canonical now reason)).1
  enqueue_canonical event none now reason db = staying
  enqueue_canonical event (some canonical) now reason db =
      enqueue_found event canonical now reason db
        (delivery_record rt obs (alert_event_id rt obs event) db)
        (delivery_record_lem rt obs (alert_event_id rt obs event) db)

  pub enqueue-Move :
      (event : AlertEvent rt obs) (now : ℕ) (reason : Option String) (db : Outbox)
      → Move db (enqueue rt obs event now reason db).1
  unfolding enqueue
  enqueue-Move event now reason db =
      enqueue_canonical event (alert_from_json rt obs (alert_to_dict rt obs event)) now reason db
