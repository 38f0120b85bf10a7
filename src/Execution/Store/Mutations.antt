-- ===== src/Execution/Store/Mutations.antt =====
-- `reserve_mutation` and `transition_reservation` of mu_strategy/execution/store.py.
use mu_5x_fibonacci_trading.Base.{
  ℕ, String, Bool, true, false, not, ◌&&◌, Option, none, some, List, str_eq, ◌==◌, if◌then◌else◌,
  find, select, update_where, rowcount, is_some, same_option, Result, ok, err, pure, raise,
  raise_if, lift, gets, modify, transaction, ◌>>=◌, ◌>>◌,
}
use mu_5x_fibonacci_trading.Runtime.{Runtime}
use mu_5x_fibonacci_trading.Execution.Reservation.{
  ReservationState, same_state, is_reservation_transition_allowed,
}
use mu_5x_fibonacci_trading.Execution.Intent.{
  OrderIntent, ExecutionEnvironment, same_environment, intent_fingerprint,
}
use mu_5x_fibonacci_trading.Execution.Intent.Equality.{same_intent}
use mu_5x_fibonacci_trading.Execution.Audit.{
  MutationOperation, same_operation, AuditPayload, idempotency_key_for, okx_client_order_id_for,
}
use mu_5x_fibonacci_trading.Execution.Store.{
  StoreError, conflict_error, invariant_error, value_error, ActionSelection, MutationReservation,
  Db, selection_of_action, reservation_has_key, insert_reservation,
}
use mu_5x_fibonacci_trading.Execution.Store.Load.{
  load_intent, load_source_scan_id, load_action_selection, load_reservation, cancel_slot_free,
}
use mu_5x_fibonacci_trading.Execution.Store.Identity.{
  or_error, require_token, canonical_intent, validate_mutation_action,
}
use mu_5x_fibonacci_trading.Execution.Store.Operations.{
  EventMetadata, Action, catch_integrity, require_event_metadata, append_event,
}

-- The arguments of `reserve_mutation` that say what is to be done.
pub record MutationRequest : Type 0 where
  pub operation : MutationOperation
  pub mutation_action_id : String
  pub order_lineage_id : String
  pub cancel_reason_code : Option String
  pub cancel_policy_version : Option String

-- `_reservation_facts(a) == _reservation_facts(b)`: all but the state.
abbrev pub same_facts : MutationReservation → MutationReservation → Bool
same_facts a b =
    same_environment a.environment b.environment
    && same_operation a.operation b.operation
    && str_eq a.mutation_action_id b.mutation_action_id
    && str_eq a.idempotency_key b.idempotency_key
    && str_eq a.business_action_id b.business_action_id
    && str_eq a.selected_intent_id b.selected_intent_id
    && str_eq a.selected_intent_fingerprint b.selected_intent_fingerprint
    && str_eq a.order_lineage_id b.order_lineage_id
    && same_option a.client_order_id b.client_order_id
    && same_option a.cancel_reason_code b.cancel_reason_code
    && same_option a.cancel_policy_version b.cancel_policy_version

-- The SELECT of `_require_cancel_slot`.
abbrev pub cancels_lineage : ExecutionEnvironment → String → MutationReservation → Bool
cancels_lineage env lineage r =
    same_environment r.environment env
    && same_operation r.operation MutationOperation.cancel_order
    && str_eq r.order_lineage_id lineage

module _ (rt : Runtime) where
  abbrev pub client_id_for : MutationOperation → String → Result StoreError (Option String)
  client_id_for MutationOperation.submit_entry key = elim (okx_client_order_id_for rt key) [
    | none ↦ err value_error
    | some id ↦ ok (some id)
  ]
  client_id_for _ key = ok none

  abbrev pub reservation_for :
      OrderIntent → MutationRequest → String → Option String → MutationReservation
  reservation_for i q key client = record {
    environment = i.environment;
    operation = q.operation;
    mutation_action_id = q.mutation_action_id;
    idempotency_key = key;
    business_action_id = i.business_action_id;
    selected_intent_id = i.intent_id;
    selected_intent_fingerprint = intent_fingerprint rt i;
    order_lineage_id = q.order_lineage_id;
    client_order_id = client;
    cancel_reason_code = q.cancel_reason_code;
    cancel_policy_version = q.cancel_policy_version;
    state = ReservationState.reserved;
  }

  abbrev pub reserved_payload : OrderIntent → MutationReservation → AuditPayload
  reserved_payload i r = AuditPayload.idempotency_reserved (record {
    operation = r.operation;
    mutation_action_id = r.mutation_action_id;
    idempotency_key = r.idempotency_key;
    order_lineage_id = r.order_lineage_id;
    client_order_id = r.client_order_id;
    selected_intent_fingerprint = intent_fingerprint rt i;
    cancel_reason_code = r.cancel_reason_code;
    cancel_policy_version = r.cancel_policy_version;
  })

  abbrev pub key_taken : String → MutationReservation → Bool
  key_taken key r = str_eq r.idempotency_key key

  -- The first row with the client order ID belongs to another key.
  abbrev pub client_taken_by : String → Option MutationReservation → Bool
  client_taken_by key none = false
  client_taken_by key (some r) = not (str_eq r.idempotency_key key)

  abbrev pub client_taken : Option String → String → List MutationReservation → Bool
  client_taken none key rows = false
  client_taken (some id) key rows =
      client_taken_by key (find (λ r. same_option r.client_order_id (some id)) rows)

  abbrev pub cancel_slot : OrderIntent → MutationRequest → Db → Result StoreError (Unit {0})
  cancel_slot i q db =
      if same_operation q.operation MutationOperation.cancel_order
      then cancel_slot_free rt db
          (select (cancels_lineage i.environment q.order_lineage_id) db.reservations)
      else ok tt

  -- The WHERE clause of the fence.
  abbrev pub selected_at : OrderIntent → ℕ → ActionSelection → Bool
  selected_at i version s =
      selection_of_action i.environment i.business_action_id s
      && s.selection_version == version
      && str_eq s.selected_intent_id i.intent_id
      && str_eq s.selected_intent_fingerprint (intent_fingerprint rt i)

  abbrev pub mark_reserved : ActionSelection → ActionSelection
  mark_reserved s = record s { mutation_reserved = true }

  -- A reservation that is not there yet, from the test of its key on.
  unfoldable pub reserve_new :
      OrderIntent
      → MutationRequest
      → ActionSelection
      → String
      → MutationReservation
      → EventMetadata
      → Action MutationReservation
  unfolding insert_reservation append_event
  reserve_new i q selection scan r m = do
    db ← gets (λ (db : Db). db)
    raise_if (is_some (find (key_taken r.idempotency_key) db.reservations)) conflict_error
    raise_if (client_taken r.client_order_id r.idempotency_key db.reservations) conflict_error
    lift (cancel_slot i q db)
    insert_reservation r
    fence ← gets (λ (db : Db). rowcount (selected_at i selection.selection_version) db.selections)
    modify (λ (db : Db). record db {
      selections =
          update_where (selected_at i selection.selection_version) mark_reserved db.selections;
    })
    raise_if (not (fence == 1)) conflict_error
    append_event rt i scan m (reserved_payload i r)
    pure r

  abbrev pub replay_or_reserve :
      OrderIntent
      → MutationRequest
      → ActionSelection
      → String
      → MutationReservation
      → EventMetadata
      → Option MutationReservation
      → Action MutationReservation
  replay_or_reserve i q selection scan r m none = reserve_new i q selection scan r m
  replay_or_reserve i q selection scan r m (some existing) =
      if same_facts existing r then pure existing else raise conflict_error

  abbrev pub targets : ActionSelection → OrderIntent → Bool
  targets s i =
      str_eq s.selected_intent_id i.intent_id
      && str_eq s.selected_intent_fingerprint (intent_fingerprint rt i)

  abbrev pub stored_is : OrderIntent → Option OrderIntent → Bool
  stored_is i none = false
  stored_is i (some stored) = same_intent stored i

  -- The body of the transaction of `reserve_mutation`.
  unfoldable pub reserve_body :
      OrderIntent
      → MutationRequest
      → MutationReservation
      → EventMetadata
      → Action MutationReservation
  unfolding reserve_new
  reserve_body i q r m = do
    db ← gets (λ (db : Db). db)
    found ← lift (load_action_selection rt db i.environment i.business_action_id)
    selection ← lift (or_error found conflict_error)
    raise_if (not (targets selection i)) conflict_error
    stored ← lift (load_intent rt db i.intent_id)
    raise_if (not (stored_is i stored)) invariant_error
    scan ← lift (load_source_scan_id db i.intent_id)
    existing ← lift (load_reservation rt db i.environment q.operation q.mutation_action_id)
    replay_or_reserve i q selection scan r m existing

  unfoldable pub reserve_mutation :
      OrderIntent → MutationRequest → EventMetadata → Action MutationReservation
  reserve_mutation given q m = do
    i ← lift (canonical_intent rt given)
    lift (require_token q.mutation_action_id)
    lift (require_token q.order_lineage_id)
    lift (require_event_metadata i.source_observation_id m)
    lift (
        validate_mutation_action rt i q.operation q.mutation_action_id q.order_lineage_id
          q.cancel_reason_code q.cancel_policy_version)
    key ← lift (
        or_error (idempotency_key_for rt i.environment q.operation q.mutation_action_id)
          value_error)
    client ← lift (client_id_for q.operation key)
    catch_integrity (transaction (reserve_body i q (reservation_for i q key client) m))

  abbrev pub in_state :
      ExecutionEnvironment
      → MutationOperation
      → String
      → ReservationState
      → MutationReservation
      → Bool
  in_state env op id state r = reservation_has_key env op id r && same_state r.state state

  abbrev pub set_state : ReservationState → MutationReservation → MutationReservation
  set_state state r = record r { state = state }

  -- The body of the transaction of `transition_reservation`.
  unfoldable pub transition_body :
      ExecutionEnvironment
      → MutationOperation
      → String
      → ReservationState
      → ReservationState
      → EventMetadata
      → Action MutationReservation
  unfolding append_event
  transition_body env op id expected new m = do
    db ← gets (λ (db : Db). db)
    found ← lift (load_reservation rt db env op id)
    r ← lift (or_error found conflict_error)
    raise_if (not (same_state r.state expected)) conflict_error
    loaded ← lift (load_intent rt db r.selected_intent_id)
    i ← lift (or_error loaded invariant_error)
    scan ← lift (load_source_scan_id db r.selected_intent_id)
    swapped ← gets (λ (db : Db). rowcount (in_state env op id expected) db.reservations)
    modify (λ (db : Db). record db {
      reservations = update_where (in_state env op id expected) (set_state new) db.reservations;
    })
    raise_if (not (swapped == 1)) conflict_error
    append_event rt i scan m (
        AuditPayload.reservation_state_changed (record {
          operation = op;
          mutation_action_id = id;
          idempotency_key = r.idempotency_key;
          old_state = expected;
          new_state = new;
        }))
    pure (set_state new r)

  unfoldable pub transition_reservation :
      ExecutionEnvironment
      → MutationOperation
      → String
      → ReservationState
      → ReservationState
      → EventMetadata
      → Action MutationReservation
  transition_reservation env op id expected new m = do
    lift (require_token id)
    lift (require_event_metadata "persisted-reservation" m)
    raise_if (not (is_reservation_transition_allowed expected new)) conflict_error
    catch_integrity (transaction (transition_body env op id expected new m))
