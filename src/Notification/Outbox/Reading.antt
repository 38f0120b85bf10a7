-- ===== src/Notification/Outbox/Reading.antt =====
-- What `record` may return.
use mu_5x_fibonacci_trading.Base.{
  ◌≡◌, refl, String, Bool, true, false, Option, none, some, find, Result, ok, err, inl, inr,
  Bool-cases, if◌then◌else◌,
}
use mu_5x_fibonacci_trading.Runtime.{Runtime}
use mu_5x_fibonacci_trading.Notification.Observation.{Observations}
use mu_5x_fibonacci_trading.Notification.Event.{AlertEvent, alert_from_json, is_digest}
use mu_5x_fibonacci_trading.Notification.Outbox.{
  NotifyError, notification_error, some_record, OutboxRow, Outbox, has_event_id, DeliveryRecord,
  to_record, row_consistent, checked_event, row_record, optional_record, delivery_record,
}

module _ (rt : Runtime) (obs : Observations) where
  pub data ReadOutcome (id : String) (db : Outbox)
      : Result NotifyError (Option (DeliveryRecord rt obs)) × Outbox → Type 0 where
    missing : find (has_event_id id) db.rows ≡ none → ReadOutcome id db (ok none, db)
    present :
        (r : OutboxRow) (event : AlertEvent rt obs)
        → find (has_event_id id) db.rows ≡ some r
        → alert_from_json rt obs r.payload ≡ some event
        → row_consistent rt obs r event ≡ true
        → ReadOutcome id db (ok (some (to_record rt obs r event)), db)
    failing : (e : NotifyError) → ReadOutcome id db (err e, db)

  read_consistent :
      (id : String) (db : Outbox) (r : OutboxRow) (event : AlertEvent rt obs) (b : Bool)
      → find (has_event_id id) db.rows ≡ some r
      → alert_from_json rt obs r.payload ≡ some event
      → row_consistent rt obs r event ≡ b
      → ReadOutcome id db (
        some_record rt obs (if b then ok (to_record rt obs r event) else err notification_error),
        db,
      )
  read_consistent id db r event true p q c = present r event p q c
  read_consistent id db r event false p q c = failing notification_error

  read_payload :
      (id : String) (db : Outbox) (r : OutboxRow) (parsed : Option (AlertEvent rt obs))
      → find (has_event_id id) db.rows ≡ some r
      → alert_from_json rt obs r.payload ≡ parsed
      → ReadOutcome id db (some_record rt obs (checked_event rt obs r parsed), db)
  read_payload id db r none p q = failing notification_error
  read_payload id db r (some event) p q =
      read_consistent id db r event (row_consistent rt obs r event) p q refl

  read_row :
      (id : String) (db : Outbox) (found : Option OutboxRow)
      → find (has_event_id id) db.rows ≡ found
      → ReadOutcome id db (optional_record rt obs found, db)
  unfolding row_record
  read_row id db none p = missing p
  read_row id db (some r) p = read_payload id db r (alert_from_json rt obs r.payload) p refl

  pub delivery_record_lem :
      (id : String) (db : Outbox) → ReadOutcome id db (delivery_record rt obs id db)
  unfolding delivery_record
  delivery_record_lem id db = elim (Bool-cases (is_digest id)) [
    | inl hex ↦ rw hex (read_row id db (find (has_event_id id) db.rows) refl)
    | inr bad ↦ rw bad (failing notification_error)
  ]
