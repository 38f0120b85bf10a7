-- ===== src/Notification/Outbox.antt =====
-- mu_strategy/notifications/store.py: the tables `outbox` and `delivery_history` and the methods
-- that read and write them inside a transaction. The CHECK constraints are the types of the
-- columns, and `payload` holds the value of which the stored text is the canonical text.
pub mod Operations
pub mod Moves
pub mod Reading
pub mod Unique
pub mod Refinement
pub mod Claiming
pub mod Calls
pub mod Sound
pub mod Ledger
pub mod Backoff
pub mod Claim
pub mod Due
pub mod Again
pub mod Laws
mod Tests
use mu_5x_fibonacci_trading.Base.{
  ℕ, ◌+◌, ◌-◌, ◌*◌, ◌^◌, min, max, String, Bool, true, false, not, ◌&&◌, ◌||◌, Option, none, some,
  List, [], ◌∷◌, ◌++◌, str_eq, leb, ltb, ◌==◌, if◌then◌else◌, contains_text, is_some, find,
  update_where, Exec, Result, ok, err, pure, raise, raise_if, lift, gets, modify, or_raise, ◌>>=◌,
  ◌>>◌, transaction,
}
use mu_5x_fibonacci_trading.Runtime.{Runtime, Json}
use mu_5x_fibonacci_trading.Notification.Observation.{Observations}
use mu_5x_fibonacci_trading.Notification.Event.{
  DeliveryState, pending, confirmed, failed, unknown, same_delivery, is_digest, AlertEvent,
  alert_event_id, alert_to_dict, alert_from_json, same_event,
}

-- NotificationError, and the AttributeError of `None.event`.
pub data NotifyError : Type 0 where
  notification_error attribute_error : NotifyError

pub record OutboxRow : Type 0 where
  pub event_id : String
  pub payload : Json
  pub state : DeliveryState
  pub attempts : ℕ
  pub next_attempt_ms : ℕ
  pub retryable : Bool
  pub suppressed_reason : Option String

-- The texts of the column `action`.
pub data HistoryAction : Type 0 where
  recorded suppressed attempt_started attempt_finished attempt_not_started operator_retry :
      HistoryAction

pub record HistoryRow : Type 0 where
  pub sequence : ℕ
  pub event_id : String
  pub at_ms : ℕ
  pub action : HistoryAction
  pub result : String

pub record Outbox : Type 0 where
  pub rows : List OutboxRow
  pub history : List HistoryRow

abbrev pub empty_outbox : Outbox
empty_outbox = record { rows = []; history = [] }

abbrev pub Notify : Type 0 → Type 0
Notify A = Exec Outbox NotifyError A

abbrev pub has_event_id : String → OutboxRow → Bool
has_event_id id r = str_eq r.event_id id

-- The row id that SQLite gives to a new row.
abbrev pub next_sequence : List HistoryRow → ℕ
next_sequence [] = 1
next_sequence (h ∷ hs) = max (h.sequence + 1) (next_sequence hs)

abbrev pub entry : String → ℕ → HistoryAction → String → List HistoryRow → HistoryRow
entry id now action result hs = record {
  sequence = next_sequence hs;
  event_id = id;
  at_ms = now;
  action = action;
  result = result;
}

abbrev pub logged : String → ℕ → HistoryAction → String → Outbox → Outbox
logged id now action result db = record db {
  history = db.history ++ entry id now action result db.history ∷ [];
}

-- `history`
unfoldable pub history : String → ℕ → HistoryAction → String → Notify (Unit {0})
history id now action result = modify (logged id now action result)

-- An UPDATE of the row of an event.
abbrev pub changed : String → (OutboxRow → OutboxRow) → Outbox → Outbox
changed id change db = record db { rows = update_where (has_event_id id) change db.rows }

abbrev pub suppressed_reasons : List String
suppressed_reasons =
    "review_expired" ∷ "decision_changed" ∷ "source_unavailable" ∷ "signal_replaced"
    ∷ "historical_event" ∷ []

abbrev pub reason_valid : Option String → Bool
reason_valid none = true
reason_valid (some reason) = contains_text reason suppressed_reasons

abbrev pub reason_or_pending : Option String → String
reason_or_pending none = "pending"
reason_or_pending (some reason) = reason

-- The row that each statement writes.
abbrev pub suppressed_row : String → OutboxRow → OutboxRow
suppressed_row reason r = record r { suppressed_reason = some reason }

abbrev pub claimed_row : OutboxRow → OutboxRow
claimed_row r = record r { state = unknown; attempts = r.attempts + 1; retryable = false }

abbrev pub finished_row : DeliveryState → Bool → ℕ → OutboxRow → OutboxRow
finished_row state retryable next r = record r {
  state = state;
  retryable = retryable && same_delivery state failed;
  next_attempt_ms = next;
}

abbrev pub deferred_row : ℕ → OutboxRow → OutboxRow
deferred_row next r = record r {
  state = pending;
  attempts = r.attempts - 1;
  retryable = false;
  next_attempt_ms = next;
}

abbrev pub retried_row : ℕ → OutboxRow → OutboxRow
retried_row next r = record r { retryable = true; next_attempt_ms = next }

-- The WHERE clause of `claim`.
abbrev pub claimable : ℕ → ℕ → OutboxRow → Bool
claimable now max_attempts r =
    not (is_some r.suppressed_reason)
    && ltb r.attempts max_attempts
    && leb r.next_attempt_ms now
    && (same_delivery r.state pending || (same_delivery r.state failed && r.retryable))

-- The backoff of `finish`, in milliseconds, of a row with an attempt; without one the source would give
-- half a minute, but `record` refuses such a row unless it is pending.
unfoldable pub retry_delay : ℕ → ℕ
retry_delay attempts = min 3600 (60 * 2 ^ min (attempts - 1) 6) * 1000

abbrev pub defer_reasons : List String
defer_reasons = "source_snapshot_unavailable" ∷ "source_not_caught_up" ∷ "entry_not_reviewable" ∷ []

module _ (rt : Runtime) (obs : Observations) where
  pub record DeliveryRecord : Type 0 where
    pub event : AlertEvent rt obs
    pub state : DeliveryState
    pub attempts : ℕ
    pub next_attempt_ms : ℕ
    pub retryable : Bool
    pub suppressed_reason : Option String

  abbrev pub to_record : OutboxRow → AlertEvent rt obs → DeliveryRecord
  to_record r event = record {
    event = event;
    state = r.state;
    attempts = r.attempts;
    next_attempt_ms = r.next_attempt_ms;
    retryable = r.retryable;
    suppressed_reason = r.suppressed_reason;
  }

  -- The tests of `record` on the parsed payload and the columns.
  abbrev pub row_consistent : OutboxRow → AlertEvent rt obs → Bool
  row_consistent r event =
      str_eq (alert_event_id rt obs event) r.event_id
      && (same_delivery r.state pending || not (r.attempts == 0))
      && reason_valid r.suppressed_reason

  abbrev pub checked_event :
      OutboxRow → Option (AlertEvent rt obs) → Result NotifyError DeliveryRecord
  checked_event r none = err notification_error
  checked_event r (some event) =
      if row_consistent r event then ok (to_record r event) else err notification_error

  unfoldable pub row_record : OutboxRow → Result NotifyError DeliveryRecord
  row_record r = checked_event r (alert_from_json rt obs r.payload)

  abbrev pub some_record :
      Result NotifyError DeliveryRecord → Result NotifyError (Option DeliveryRecord)
  some_record (ok d) = ok (some d)
  some_record (err e) = err e

  abbrev pub optional_record : Option OutboxRow → Result NotifyError (Option DeliveryRecord)
  optional_record none = ok none
  optional_record (some r) = some_record (row_record r)

  -- `record`
  unfoldable pub delivery_record : String → Notify (Option DeliveryRecord)
  unfolding row_record
  delivery_record id = do
    raise_if (not (is_digest id)) notification_error
    row ← gets (λ (db : Outbox). find (has_event_id id) db.rows)
    lift (optional_record row)

  abbrev pub new_row : AlertEvent rt obs → AlertEvent rt obs → ℕ → Option String → OutboxRow
  new_row event canonical now reason = record {
    event_id = alert_event_id rt obs event;
    payload = alert_to_dict rt obs canonical;
    state = pending;
    attempts = 0;
    next_attempt_ms = now;
    retryable = false;
    suppressed_reason = reason;
  }

  -- The INSERT, whose PRIMARY KEY `record` has found free, or the test of the existing event.
  abbrev pub insert_or_verify :
      AlertEvent rt obs
      → AlertEvent rt obs
      → ℕ
      → Option String
      → Option DeliveryRecord
      → Notify (Unit {0})
  insert_or_verify event canonical now reason none = do
    modify
        (λ (db : Outbox). record db { rows = db.rows ++ new_row event canonical now reason ∷ [] })
    history (alert_event_id rt obs event) now HistoryAction.recorded (reason_or_pending reason)
  insert_or_verify event canonical now reason (some existing) =
      raise_if (not (same_event rt obs existing.event canonical)) notification_error

  unfoldable pub enqueue : AlertEvent rt obs → ℕ → Option String → Notify (Unit {0})
  unfolding delivery_record history
  enqueue event now reason = do
    canonical ← or_raise (alert_from_json rt obs (alert_to_dict rt obs event)) notification_error
    existing ← delivery_record (alert_event_id rt obs event)
    insert_or_verify event canonical now reason existing

  abbrev pub suppress_unless : String → String → ℕ → Option String → Notify (Unit {0})
  suppress_unless id reason now none = do
    modify (changed id (suppressed_row reason))
    history id now HistoryAction.suppressed reason
  suppress_unless id reason now (some earlier) = pure tt

  -- What follows `record` in `suppress`.
  abbrev pub suppress_record : String → String → ℕ → Option DeliveryRecord → Notify (Unit {0})
  suppress_record id reason now none = raise notification_error
  suppress_record id reason now (some d) = suppress_unless id reason now d.suppressed_reason

  unfoldable pub suppress : String → String → ℕ → Notify (Unit {0})
  unfolding delivery_record history
  suppress id reason now = do found ← delivery_record id; suppress_record id reason now found
