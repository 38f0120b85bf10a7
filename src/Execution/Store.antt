-- ===== src/Execution/Store.antt =====
-- mu_strategy/execution/store.py: the tables of the execution database and its SQL statements.
-- A method is an `Exec Db StoreError`: what it wrote before a raise stays until its transaction
-- rolls back. The CHECK constraints on enumerations are the types of the columns, and `intent_json`
-- holds the value of which the stored text is the canonical text.
pub mod Identity
pub mod Load
pub mod Operations
pub mod Mutations
pub mod Requests
pub mod Atomic
pub mod Journal
pub mod Stable
pub mod History
mod Tests
use mu_5x_fibonacci_trading.Base.{
  ℕ, ◌+◌, String, Bool, true, false, not, ◌&&◌, ◌||◌, Option, none, some, List, [], ◌∷◌, ◌++◌,
  str_eq, ltb, ◌==◌, if◌then◌else◌, find, select, any, update_where, rowcount, max, Exec, Result,
  ok, err, pure, raise, raise_if, lift, gets, modify, or_raise, ◌>>=◌, ◌>>◌,
}
use mu_5x_fibonacci_trading.Runtime.{Json}
use mu_5x_fibonacci_trading.Execution.Reservation.{ReservationState, same_state}
use mu_5x_fibonacci_trading.Execution.Intent.{ExecutionEnvironment, same_environment}
use mu_5x_fibonacci_trading.Execution.Audit.{MutationOperation, same_operation, AuditEvent}

-- ExecutionStoreConflictError, ExecutionStoreInvariantError, ValueError, OrderIntentSchemaError and
-- sqlite3.IntegrityError.
pub data StoreError : Type 0 where
  conflict_error invariant_error value_error intent_schema_error integrity_error : StoreError

pub record IntentRow : Type 0 where
  pub intent_id : String
  pub environment : ExecutionEnvironment
  pub business_action_id : String
  pub intent_fingerprint : String
  pub source_scan_id : String
  pub created_at_ms : ℕ
  pub intent_json : Json

pub record ActionSelection : Type 0 where
  pub environment : ExecutionEnvironment
  pub business_action_id : String
  pub selected_intent_id : String
  pub selected_intent_fingerprint : String
  pub selection_version : ℕ
  pub mutation_reserved : Bool

pub record MutationReservation : Type 0 where
  pub environment : ExecutionEnvironment
  pub operation : MutationOperation
  pub mutation_action_id : String
  pub idempotency_key : String
  pub business_action_id : String
  pub selected_intent_id : String
  pub selected_intent_fingerprint : String
  pub order_lineage_id : String
  pub client_order_id : Option String
  pub cancel_reason_code : Option String
  pub cancel_policy_version : Option String
  pub state : ReservationState

pub record EventRow : Type 0 where
  pub event_id : String
  pub audit_correlation_id : String
  pub sequence : ℕ
  pub event : AuditEvent

pub record Db : Type 0 where
  pub intents : List IntentRow
  pub selections : List ActionSelection
  pub reservations : List MutationReservation
  pub events : List EventRow

abbrev pub empty_db : Db
empty_db = record { intents = []; selections = []; reservations = []; events = [] }

-- The conditions of the SQL statements.
abbrev pub intent_has_id : String → IntentRow → Bool
intent_has_id id r = str_eq r.intent_id id

abbrev pub intent_of_action : ExecutionEnvironment → String → IntentRow → Bool
intent_of_action env action r =
    same_environment r.environment env && str_eq r.business_action_id action

abbrev pub selection_of_action : ExecutionEnvironment → String → ActionSelection → Bool
selection_of_action env action s =
    same_environment s.environment env && str_eq s.business_action_id action

abbrev pub reservation_of_action : ExecutionEnvironment → String → MutationReservation → Bool
reservation_of_action env action r =
    same_environment r.environment env && str_eq r.business_action_id action

abbrev pub reservation_has_key :
    ExecutionEnvironment → MutationOperation → String → MutationReservation → Bool
reservation_has_key env op id r =
    same_environment r.environment env
    && same_operation r.operation op
    && str_eq r.mutation_action_id id

abbrev pub event_of_action : String → EventRow → Bool
event_of_action correlation e = str_eq e.audit_correlation_id correlation

-- Two values of a UNIQUE column that may be NULL.
abbrev pub clash : Option String → Option String → Bool
clash (some a) (some b) = str_eq a b
clash _ _ = false

-- The PRIMARY KEY, UNIQUE and FOREIGN KEY constraints of each INSERT.
abbrev pub intent_clash : IntentRow → IntentRow → Bool
intent_clash new r =
    str_eq r.intent_id new.intent_id
    || (intent_of_action new.environment new.business_action_id r
        && str_eq r.intent_fingerprint new.intent_fingerprint)

unfoldable pub insert_intent : IntentRow → Exec Db StoreError (Unit {0})
insert_intent new = do
  db ← gets (λ (db : Db). db)
  raise_if (any (intent_clash new) db.intents) integrity_error
  modify (λ db. record db { intents = db.intents ++ new ∷ [] })

unfoldable pub insert_selection : ActionSelection → Exec Db StoreError (Unit {0})
insert_selection new = do
  db ← gets (λ (db : Db). db)
  raise_if (any (selection_of_action new.environment new.business_action_id) db.selections)
      integrity_error
  raise_if (not (any (intent_has_id new.selected_intent_id) db.intents)) integrity_error
  raise_if (not (ltb 0 new.selection_version)) integrity_error
  modify (λ db. record db { selections = db.selections ++ new ∷ [] })

abbrev pub reservation_clash : MutationReservation → MutationReservation → Bool
reservation_clash new r =
    reservation_has_key new.environment new.operation new.mutation_action_id r
    || str_eq r.idempotency_key new.idempotency_key
    || clash r.client_order_id new.client_order_id

unfoldable pub insert_reservation : MutationReservation → Exec Db StoreError (Unit {0})
insert_reservation new = do
  db ← gets (λ (db : Db). db)
  raise_if (any (reservation_clash new) db.reservations) integrity_error
  raise_if (not (any (intent_has_id new.selected_intent_id) db.intents)) integrity_error
  raise_if (not (any (selection_of_action new.environment new.business_action_id) db.selections))
      integrity_error
  modify (λ db. record db { reservations = db.reservations ++ new ∷ [] })

abbrev pub event_clash : EventRow → EventRow → Bool
event_clash new r =
    str_eq r.event_id new.event_id
    || (str_eq r.audit_correlation_id new.audit_correlation_id && r.sequence == new.sequence)

unfoldable pub insert_event : EventRow → Exec Db StoreError (Unit {0})
insert_event new = do
  db ← gets (λ (db : Db). db)
  raise_if (any (event_clash new) db.events) integrity_error
  raise_if (not (ltb 0 new.sequence)) integrity_error
  modify (λ db. record db { events = db.events ++ new ∷ [] })

-- `COALESCE(MAX(sequence), 0)` over the events of an action.
abbrev pub max_sequence : String → List EventRow → ℕ
max_sequence correlation [] = 0
max_sequence correlation (e ∷ es) =
    let rest = max_sequence correlation es in
    if event_of_action correlation e then max e.sequence rest else rest
