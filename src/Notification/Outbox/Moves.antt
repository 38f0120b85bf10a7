-- ===== src/Notification/Outbox/Moves.antt =====
-- The outbox as a state machine: what a method may do to a row, and to the whole outbox.
use mu_5x_fibonacci_trading.Base.{
  ℕ, ◌≤◌, ◌<◌, ◌≡◌, String, Bool, true, false, none, some, [], ◌∷◌, ◌++◌, find,
}
use mu_5x_fibonacci_trading.Notification.Event.{
  DeliveryState, pending, failed, unknown, same_delivery,
}
use mu_5x_fibonacci_trading.Notification.Outbox.{
  OutboxRow, HistoryAction, Outbox, has_event_id, logged, changed, suppressed_row, claimed_row,
  finished_row, deferred_row, retried_row, claimable,
}

-- The moves of one row: the action that the history keeps, what the row must be, what it becomes.
-- The three attempts are the default of `claim`, which `deliver` takes.
pub data RowMove : HistoryAction → OutboxRow → (OutboxRow → OutboxRow) → Type 0 where
  suppressing :
      {r : OutboxRow} (reason : String)
      → r.suppressed_reason ≡ none
      → RowMove HistoryAction.suppressed r (suppressed_row reason)
  starting :
      {r : OutboxRow} (now : ℕ)
      → claimable now 3 r ≡ true
      → RowMove HistoryAction.attempt_started r claimed_row
  finishing :
      {r : OutboxRow} (state : DeliveryState) (retryable : Bool) (next : ℕ)
      → r.state ≡ unknown
      → same_delivery state pending ≡ false
      → RowMove HistoryAction.attempt_finished r (finished_row state retryable next)
  releasing :
      {r : OutboxRow} (next : ℕ)
      → r.state ≡ unknown
      → 1 ≤ r.attempts
      → RowMove HistoryAction.attempt_not_started r (deferred_row next)
  retrying :
      {r : OutboxRow} (next : ℕ)
      → r.state ≡ failed
      → r.attempts < 3
      → r.suppressed_reason ≡ none
      → RowMove HistoryAction.operator_retry r (retried_row next)

-- The moves of the outbox: nothing, a new pending row, or a move of the row of one event. A move of
-- a row and a new row write one entry of the history.
pub data Move (db : Outbox) : Outbox → Type 0 where
  staying : Move db db
  recording :
      (new : OutboxRow) (now : ℕ) (result : String)
      → find (has_event_id new.event_id) db.rows ≡ none
      → new.state ≡ pending
      → new.attempts ≡ 0
      → new.retryable ≡ false
      → Move db (
          logged new.event_id now HistoryAction.recorded result
            (record db { rows = db.rows ++ new ∷ [] }))
  moving :
      (action : HistoryAction) (r : OutboxRow) (change : OutboxRow → OutboxRow) (id : String)
      (now : ℕ) (result : String)
      → find (has_event_id id) db.rows ≡ some r
      → RowMove action r change
      → Move db (logged id now action result (changed id change db))
