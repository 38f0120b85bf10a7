-- ===== src/Notification/Outbox/Claiming.antt =====
-- `claim` is a move of the state machine on an outbox whose event ids differ.
use mu_5x_fibonacci_trading.Base.{
  ℕ, ◌≡◌, refl, String, true, Option, none, some, find, Result, continue, or_raise, modify,
  find_test, ◌>>=◌, ◌>>◌,
}
use mu_5x_fibonacci_trading.Runtime.{Runtime}
use mu_5x_fibonacci_trading.Notification.Observation.{Observations}
use mu_5x_fibonacci_trading.Notification.Event.{alert_event_id}
use mu_5x_fibonacci_trading.Notification.Outbox.{
  NotifyError, attribute_error, Notify, OutboxRow, HistoryAction, Outbox, has_event_id,
  DeliveryRecord, delivery_record, history, claimable, claimed_row, changed, logged,
}
use mu_5x_fibonacci_trading.Notification.Outbox.Operations.{claim, claim_row}
use mu_5x_fibonacci_trading.Notification.Outbox.Moves.{starting, Move, staying, moving}
use mu_5x_fibonacci_trading.Notification.Outbox.Unique.{IsUnique, find_own}
use mu_5x_fibonacci_trading.Notification.Outbox.Reading.{
  ReadOutcome, missing, present, failing, delivery_record_lem,
}

module _ (rt : Runtime) (obs : Observations) where
  ReadOutcome-state :
      {id : String} {db : Outbox}
      {out : Result NotifyError (Option (DeliveryRecord rt obs)) × Outbox}
      → ReadOutcome rt obs id db out
      → out.1 ≡ db
  ReadOutcome-state (missing p) = refl
  ReadOutcome-state (present r event p q c) = refl
  ReadOutcome-state (failing e) = refl

  abbrev claim_rest :
      ℕ → OutboxRow → Option (DeliveryRecord rt obs) → Notify (Option (DeliveryRecord rt obs))
  claim_rest now r found = do
    modify (changed r.event_id claimed_row)
    history r.event_id now HistoryAction.attempt_started "unknown"
    d ← or_raise found attribute_error
    delivery_record rt obs (alert_event_id rt obs d.event)

  claim_found :
      (now : ℕ) (r : OutboxRow) (db : Outbox)
      (out : Result NotifyError (Option (DeliveryRecord rt obs)) × Outbox)
      → find (has_event_id r.event_id) db.rows ≡ some r
      → claimable now 3 r ≡ true
      → ReadOutcome rt obs r.event_id db out
      → Move db (continue out (claim_rest now r)).1
  unfolding history
  claim_found now r db out f h (missing p) = absurd (cc (f, p))
  claim_found now r db out f h (failing e) = staying
  claim_found now r db out f h (present r' event p q c) =
      rw
        (ReadOutcome-state (
          delivery_record_lem rt obs (alert_event_id rt obs event) (
            logged r.event_id now HistoryAction.attempt_started "unknown"
              (changed r.event_id claimed_row db))))
        (moving HistoryAction.attempt_started r claimed_row r.event_id now "unknown" f
          (starting now h))

  claim_search :
      (now : ℕ) (found : Option OutboxRow) (db : Outbox)
      → IsUnique db.rows
      → find (claimable now 3) db.rows ≡ found
      → Move db (claim_row rt obs now found db).1
  claim_search now none db u p = staying
  claim_search now (some r) db u p =
      claim_found now r db (delivery_record rt obs r.event_id db)
        (find_own (claimable now 3) db.rows u p) (find_test (claimable now 3) db.rows p)
        (delivery_record_lem rt obs r.event_id db)

  pub claim-Move : (now : ℕ) (db : Outbox) → IsUnique db.rows → Move db (claim rt obs now 3 db).1
  unfolding claim
  claim-Move now db u = claim_search now (find (claimable now 3) db.rows) db u refl
