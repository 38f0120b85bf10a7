-- ===== src/Execution/Audit.antt =====
-- mu_strategy/execution/audit.py: the audit events, their validation, and the mutation identities.
use mu_5x_fibonacci_trading.Base.{
  ℕ, String, Bool, true, false, not, ◌&&◌, Option, none, some, str_eq, ltb, ◌==◌, if◌then◌else◌,
  is_hex_text, is_token, is_some,
}
use mu_5x_fibonacci_trading.Runtime.{Runtime, Json}
use mu_5x_fibonacci_trading.Runtime.Json.{text, object}
use mu_5x_fibonacci_trading.Runtime.Fields.{end, field}
use mu_5x_fibonacci_trading.Entry.Decision.{EntryDecisionCode, decision_value}
use mu_5x_fibonacci_trading.Execution.Reservation.{
  ReservationState, is_reservation_transition_allowed,
}
use mu_5x_fibonacci_trading.Execution.Intent.{
  OrderIntent, ExecutionEnvironment, environment_value, same_environment, is_prefixed_digest,
  intent_fingerprint,
}
use mu_5x_fibonacci_trading.Execution.Intent.Codec.{from_dict}
use Prim.Native.String.{◌++◌, slice}

pub data ActorKind : Type 0 where
  system operator : ActorKind

pub data MutationOperation : Type 0 where
  configure_leverage submit_entry cancel_order : MutationOperation

abbrev pub operation_value : MutationOperation → String
operation_value MutationOperation.configure_leverage = "configure_leverage"
operation_value MutationOperation.submit_entry = "submit_entry"
operation_value MutationOperation.cancel_order = "cancel_order"

abbrev pub same_operation : MutationOperation → MutationOperation → Bool
same_operation MutationOperation.configure_leverage MutationOperation.configure_leverage = true
same_operation MutationOperation.submit_entry MutationOperation.submit_entry = true
same_operation MutationOperation.cancel_order MutationOperation.cancel_order = true
same_operation _ _ = false

-- What a reserved mutation says of itself in its event.
pub record ReservedFacts : Type 0 where
  pub operation : MutationOperation
  pub mutation_action_id : String
  pub idempotency_key : String
  pub order_lineage_id : String
  pub client_order_id : Option String
  pub selected_intent_fingerprint : String
  pub cancel_reason_code : Option String
  pub cancel_policy_version : Option String

pub record StateChange : Type 0 where
  pub operation : MutationOperation
  pub mutation_action_id : String
  pub idempotency_key : String
  pub old_state : ReservationState
  pub new_state : ReservationState

-- A payload with exactly the fields of its event type (`_PAYLOAD_FIELDS`).
pub data AuditPayload : Type 0 where
  intent_created : Json → AuditPayload
  intent_reused :
      (existing_intent_id existing_intent_fingerprint duplicate_source_scan_id : String)
      → AuditPayload
  intent_superseded : (old_intent_id new_intent_id : String) (selection_version : ℕ) → AuditPayload
  idempotency_reserved : ReservedFacts → AuditPayload
  reservation_state_changed : StateChange → AuditPayload

pub record AuditEvent : Type 0 where
  pub schema_version : ℕ
  pub event_id : String
  pub sequence : ℕ
  pub occurred_at_ms : ℕ
  pub audit_correlation_id : String
  pub actor_kind : ActorKind
  pub actor_id : String
  pub source_scan_id : String
  pub signal_lineage_id : String
  pub business_action_id : String
  pub environment : ExecutionEnvironment
  pub intent_id : String
  pub intent_fingerprint : String
  pub decision_code : EntryDecisionCode
  pub payload : AuditPayload

module _ (rt : Runtime) where
  open rt use {sha256_hex, sha256_upper}

  -- `idempotency_key_for`, after its test of the token.
  unfoldable pub idempotency_key : ExecutionEnvironment → MutationOperation → String → String
  idempotency_key environment operation mutation_action_id = sha256_hex (
      object (
        field "environment" (text (environment_value environment)) (
          field "mutation_action_id" (text mutation_action_id)
            (field "operation" (text (operation_value operation)) end))))

  -- `none` is its ValueError.
  unfoldable pub idempotency_key_for :
      ExecutionEnvironment → MutationOperation → String → Option String
  idempotency_key_for environment operation mutation_action_id =
      if is_token mutation_action_id
      then some (idempotency_key environment operation mutation_action_id)
      else none

  -- `okx_client_order_id_for`, after its test of the key.
  unfoldable pub client_order_id : String → String
  client_order_id key = "OD" ++ slice (sha256_upper key) 0 20

  -- `none` is its ValueError.
  unfoldable pub okx_client_order_id_for : String → Option String
  okx_client_order_id_for key = if is_hex_text 64 key then some (client_order_id key) else none

  abbrev matches_intent : AuditEvent → Option OrderIntent → Bool
  matches_intent e none = false
  matches_intent e (some i) =
      str_eq e.audit_correlation_id i.audit_correlation_id
      && str_eq e.signal_lineage_id i.signal_lineage_id
      && str_eq e.business_action_id i.business_action_id
      && same_environment e.environment i.environment
      && str_eq e.intent_id i.intent_id
      && str_eq e.intent_fingerprint (intent_fingerprint rt i)
      && str_eq (decision_value e.decision_code) (decision_value i.decision_code)

  abbrev is_text : Option String → String → Bool
  is_text none s = false
  is_text (some t) s = str_eq t s

  abbrev is_token_option : Option String → Bool
  is_token_option none = false
  is_token_option (some s) = is_token s

  -- The identity of a mutation in its events, whatever the type of the event.
  unfoldable pub mutation_identity_valid : AuditEvent → MutationOperation → String → String → Bool
  mutation_identity_valid e operation mutation_action_id key =
      is_token mutation_action_id
      && is_token key
      && elim operation [
        | MutationOperation.submit_entry ↦ str_eq mutation_action_id e.business_action_id
        | MutationOperation.configure_leverage ↦ is_prefixed_digest "ma1_" mutation_action_id
        | MutationOperation.cancel_order ↦ is_prefixed_digest "ca1_" mutation_action_id
      ]
      && str_eq key (idempotency_key e.environment operation mutation_action_id)

  unfoldable pub reserved_facts_valid : AuditEvent → ReservedFacts → Bool
  unfolding okx_client_order_id_for
  reserved_facts_valid e r =
      is_token r.order_lineage_id
      && str_eq r.selected_intent_fingerprint e.intent_fingerprint
      && elim r.operation [
        | MutationOperation.submit_entry ↦
            elim (okx_client_order_id_for r.idempotency_key) [
              | none ↦ false
              | some id ↦ is_text r.client_order_id id
            ]
            && not (is_some r.cancel_reason_code)
            && not (is_some r.cancel_policy_version)
        | MutationOperation.cancel_order ↦
            not (is_some r.client_order_id)
            && is_token_option r.cancel_reason_code
            && is_token_option r.cancel_policy_version
        | MutationOperation.configure_leverage ↦
            not (is_some r.client_order_id)
            && not (is_some r.cancel_reason_code)
            && not (is_some r.cancel_policy_version)
      ]

  -- `_validate_payload`
  unfoldable pub payload_valid : AuditEvent → AuditPayload → Bool
  payload_valid e (intent_created j) = matches_intent e (from_dict rt j)
  payload_valid e (intent_reused id fingerprint scan) =
      str_eq id e.intent_id && str_eq fingerprint e.intent_fingerprint && is_token scan
  payload_valid e (intent_superseded old new version) =
      is_prefixed_digest "oi1_" old
      && is_prefixed_digest "oi1_" new
      && str_eq new e.intent_id
      && ltb 1 version
  payload_valid e (idempotency_reserved r) =
      mutation_identity_valid e r.operation r.mutation_action_id r.idempotency_key
      && reserved_facts_valid e r
  payload_valid e (reservation_state_changed c) =
      mutation_identity_valid e c.operation c.mutation_action_id c.idempotency_key
      && is_reservation_transition_allowed c.old_state c.new_state

  -- `__post_init__` passes; what it raises is a ValueError.
  unfoldable pub event_valid : AuditEvent → Bool
  unfolding payload_valid
  event_valid e =
      e.schema_version == 1
      && is_token e.event_id
      && ltb 0 e.sequence
      && is_token e.audit_correlation_id
      && is_token e.actor_id
      && is_token e.source_scan_id
      && is_token e.signal_lineage_id
      && is_token e.business_action_id
      && str_eq e.audit_correlation_id e.business_action_id
      && is_prefixed_digest "oi1_" e.intent_id
      && is_hex_text 64 e.intent_fingerprint
      && payload_valid e e.payload
