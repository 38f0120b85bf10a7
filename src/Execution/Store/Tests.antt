-- ===== src/Execution/Store/Tests.antt =====
-- The execution store at concrete calls.
use mu_5x_fibonacci_trading.Base.{
  ◌≡◌, refl, String, true, find, some, Option, none, List, [], ◌∷◌, ◌++◌, length, is_token,
  transaction, is_hex_text, String-discrete,
}
use mu_5x_fibonacci_trading.Execution.Sample.{toy, first_intent, second_intent}
use mu_5x_fibonacci_trading.Execution.Reservation.{
  ReservationState, allowed_transitions, is_reservation_transition_allowed,
}
use mu_5x_fibonacci_trading.Execution.Intent.{
  ExecutionEnvironment, fingerprint_payload, validate, order_valid, times_valid, evidence_valid,
  identity_valid, content_hashes_valid, canonical_positive_decimal, is_symbol, is_prefixed_digest,
  signal_lineage_id_for, business_action_id_for, intent_fingerprint,
}
use mu_5x_fibonacci_trading.Entry.Decision.{entry_decision_metadata, parse_decision, decision_value}
use mu_5x_fibonacci_trading.Execution.Intent.Codec.{to_dict, from_dict, read_fields}
use mu_5x_fibonacci_trading.Execution.Intent.Equality.{
  same_intent, OrderIntent-discrete, EntryDecisionCode-discrete,
}
use native.Mathlib.Decide.{ℕ_discrete}
use mu_5x_fibonacci_trading.Execution.Intent.Revision.{classify_intent_revision}
use mu_5x_fibonacci_trading.Execution.Json.{same_json, Json-discrete}
use mu_5x_fibonacci_trading.Execution.Audit.{
  system, submit_entry, event_valid, payload_valid, mutation_identity_valid, reserved_facts_valid,
  idempotency_key, idempotency_key_for, client_order_id, okx_client_order_id_for,
}
use mu_5x_fibonacci_trading.Execution.Store.{
  IntentRow, ActionSelection, MutationReservation, intent_has_id, selection_of_action,
  reservation_has_key, EventRow, Db, empty_db, insert_intent, insert_selection, insert_reservation,
  insert_event,
}
use mu_5x_fibonacci_trading.Execution.Store.Operations.{
  EventMetadata, row_for, record_intent, record_body, record_first, record_revision, append_event,
  insert_or_verify_intent, require_event_metadata, catch_integrity, follow_plan, supersede,
}
use mathlib.Core.Bool.{decide}
use mu_5x_fibonacci_trading.Execution.Store.Mutations.{
  MutationRequest, reservation_for, transition_reservation, transition_body, reserve_body,
  reserve_mutation, reserve_new,
}
use mu_5x_fibonacci_trading.Execution.Store.Identity.{
  canonical_intent, validate_mutation_action, cancel_mutation_action_id,
  leverage_mutation_action_id,
}
use mu_5x_fibonacci_trading.Execution.Store.Load.{
  load_action_selection, load_intent, load_reservation, cancel_slot_free, checked_reservation,
  intent_from_row, load_source_scan_id, reservation_row_valid, validate_reservation_binding,
}
use mu_5x_fibonacci_trading.Execution.Store.Requests.{
  Request, record_request, reserve_request, transition_request, run, step,
}
use mu_5x_fibonacci_trading.Execution.Store.History.{
  Raises, step-atomic, run-IsNumbered, run-events_extend,
}
use mu_5x_fibonacci_trading.Execution.Store.Journal.Numbers.{IsNumbered}
use mu_5x_fibonacci_trading.Execution.Store.Stable.Facts.{
  intent_permanent, reserved_selection_fixed,
}
use mu_5x_fibonacci_trading.Execution.Store.Stable.Lifecycle.{
  HasFollowed, reservation_follows, final_reservation,
}

abbrev meta : String → EventMetadata
meta id = record { actor_kind = system; actor_id = "scanner"; occurred_at_ms = 5000; event_id = id }

abbrev recorded : Request
recorded = record_request first_intent "scan-1" (meta "event-1")

abbrev superseded : Request
superseded = record_request second_intent "scan-2" (meta "event-2")

abbrev untitled : Request
untitled = record_request first_intent "scan-1" (meta "")

abbrev second_request : MutationRequest
second_request = record {
  operation = submit_entry;
  mutation_action_id = second_intent.business_action_id;
  order_lineage_id = "lineage-1";
  cancel_reason_code = none;
  cancel_policy_version = none;
}

abbrev reserved_second : Request
reserved_second = reserve_request second_intent second_request (meta "event-3")

abbrev dispatched : Request
dispatched =
    transition_request ExecutionEnvironment.demo submit_entry second_intent.business_action_id
      ReservationState.reserved ReservationState.dispatching (meta "event-4")

abbrev script : List Request
script = recorded ∷ superseded ∷ reserved_second ∷ superseded ∷ dispatched ∷ []

-- The database after calls from the empty one; to unfold this is to unfold all that the calls run.
after : List Request → Db
unfolding run step transition_reservation is_token require_event_metadata
    is_reservation_transition_allowed catch_integrity transaction transition_body load_reservation
    record_intent canonical_intent from_dict to_dict read_fields parse_decision validate order_valid
    decide is_hex_text decision_value entry_decision_metadata client_order_id event_valid
    idempotency_key idempotency_key_for mutation_identity_valid okx_client_order_id_for
    payload_valid reserved_facts_valid same_intent classify_intent_revision business_action_id_for
    canonical_positive_decimal content_hashes_valid evidence_valid fingerprint_payload
    identity_valid intent_fingerprint is_prefixed_digest is_symbol signal_lineage_id_for times_valid
    same_json allowed_transitions cancel_mutation_action_id leverage_mutation_action_id
    validate_mutation_action cancel_slot_free checked_reservation intent_from_row
    load_action_selection load_intent load_source_scan_id reservation_row_valid
    validate_reservation_binding reserve_body reserve_mutation reserve_new append_event follow_plan
    insert_or_verify_intent record_body record_first record_revision supersede insert_event
    insert_intent insert_reservation insert_selection Json-discrete OrderIntent-discrete
    EntryDecisionCode-discrete ℕ_discrete String-discrete
after rs = run toy rs empty_db

-- The fourth call raises: it would replace the intent of a reserved action.
four_events : length (after script).events ≡ 4
unfolding after
four_events = refl

abbrev reserved_db : Db
reserved_db = run toy (recorded ∷ superseded ∷ reserved_second ∷ []) empty_db

again : Request
again = record_request first_intent "scan-3" (meta "event-5")

-- An action with a reserved mutation takes no other intent.
again-Raises : Raises toy again reserved_db
unfolding after again
again-Raises = tt

step-atomic_example : step toy again reserved_db ≡ reserved_db
step-atomic_example = step-atomic toy again reserved_db again-Raises

run-IsNumbered_example : IsNumbered (run toy script empty_db).events
run-IsNumbered_example = run-IsNumbered toy script

run-events_extend_example :
    (new : List EventRow) × ((run toy (dispatched ∷ []) reserved_db).events
      ≡ reserved_db.events ++ new)
run-events_extend_example = run-events_extend toy (dispatched ∷ []) reserved_db

abbrev second_row : IntentRow
second_row = row_for toy second_intent "scan-2"

intent_permanent_example :
    find
      (intent_has_id second_intent.intent_id)
      (run toy (again ∷ dispatched ∷ []) reserved_db).intents
    ≡ some second_row
unfolding after
intent_permanent_example =
    intent_permanent toy (again ∷ dispatched ∷ []) reserved_db second_intent.intent_id second_row
      refl

abbrev reserved_selection : ActionSelection
reserved_selection = record {
  environment = ExecutionEnvironment.demo;
  business_action_id = second_intent.business_action_id;
  selected_intent_id = second_intent.intent_id;
  selected_intent_fingerprint = intent_fingerprint toy second_intent;
  selection_version = 2;
  mutation_reserved = true;
}

reserved_selection_fixed_example :
    find
      (selection_of_action ExecutionEnvironment.demo second_intent.business_action_id)
      (run toy (again ∷ dispatched ∷ []) reserved_db).selections
    ≡ some reserved_selection
unfolding after
reserved_selection_fixed_example =
    reserved_selection_fixed toy (again ∷ dispatched ∷ []) reserved_db ExecutionEnvironment.demo
      second_intent.business_action_id reserved_selection refl refl

-- What a search finds, or the reservation that stands in for it.
abbrev found_reservation : Option MutationReservation → MutationReservation
found_reservation none = reservation_for toy second_intent second_request "" none
found_reservation (some r) = r

abbrev second_reservation : Db → MutationReservation
second_reservation db = found_reservation (
    find
      (reservation_has_key ExecutionEnvironment.demo submit_entry second_intent.business_action_id)
      db.reservations)

reservation_follows_example :
    HasFollowed toy ExecutionEnvironment.demo submit_entry second_intent.business_action_id
      (second_reservation reserved_db)
      (run toy (again ∷ dispatched ∷ []) reserved_db)
unfolding after
reservation_follows_example =
    reservation_follows toy (again ∷ dispatched ∷ []) reserved_db ExecutionEnvironment.demo
      submit_entry second_intent.business_action_id (second_reservation reserved_db) refl

abbrev unanswered : Request
unanswered =
    transition_request ExecutionEnvironment.demo submit_entry second_intent.business_action_id
      ReservationState.dispatching ReservationState.unknown (meta "event-6")

abbrev unknown_db : Db
unknown_db = run toy (dispatched ∷ unanswered ∷ []) reserved_db

final_reservation_example :
    find
      (reservation_has_key ExecutionEnvironment.demo submit_entry second_intent.business_action_id)
      (run toy (dispatched ∷ reserved_second ∷ []) unknown_db).reservations
    ≡ some (second_reservation unknown_db)
unfolding after
final_reservation_example =
    final_reservation toy (dispatched ∷ reserved_second ∷ []) unknown_db ExecutionEnvironment.demo
      submit_entry second_intent.business_action_id (second_reservation unknown_db) refl refl
