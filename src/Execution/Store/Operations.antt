-- ===== src/Execution/Store/Operations.antt =====
-- The operations of `SQLiteExecutionStore` in mu_strategy/execution/store.py that change the database.
use mu_5x_fibonacci_trading.Base.{
  ℕ, ◌+◌, String, Bool, false, not, ◌&&◌, ◌||◌, Option, none, some, ◌==◌, if◌then◌else◌, find,
  update_where, rowcount, is_token, is_some, Exec, Result, ok, err, pure, raise, raise_if, lift,
  gets, modify, transaction, ◌>>=◌, ◌>>◌,
}
use mu_5x_fibonacci_trading.Runtime.{Runtime}
use mu_5x_fibonacci_trading.Execution.Json.{same_json}
use mu_5x_fibonacci_trading.Execution.Intent.{OrderIntent, ExecutionEnvironment, intent_fingerprint}
use mu_5x_fibonacci_trading.Execution.Intent.Codec.{to_dict}
use mu_5x_fibonacci_trading.Execution.Intent.Equality.{same_intent}
use mu_5x_fibonacci_trading.Execution.Intent.Revision.{
  IntentRevisionAction, IntentRevisionPlan, classify_intent_revision,
}
use mu_5x_fibonacci_trading.Execution.Audit.{ActorKind, AuditPayload, AuditEvent, event_valid}
use mu_5x_fibonacci_trading.Execution.Store.{
  StoreError, conflict_error, invariant_error, value_error, integrity_error, IntentRow,
  ActionSelection, Db, intent_has_id, intent_of_action, selection_of_action, reservation_of_action,
  event_of_action, insert_intent, insert_selection, insert_event, max_sequence,
}
use mu_5x_fibonacci_trading.Execution.Store.Load.{
  intent_from_row, load_intent, load_action_selection,
}
use mu_5x_fibonacci_trading.Execution.Store.Identity.{or_error, require_token, canonical_intent}

-- Who caused an event, when, and the event's identity.
pub record EventMetadata : Type 0 where
  pub actor_kind : ActorKind
  pub actor_id : String
  pub occurred_at_ms : ℕ
  pub event_id : String

abbrev pub Action : Type 0 → Type 0
Action A = Exec Db StoreError A

-- `except sqlite3.IntegrityError` around a transaction.
abbrev pub as_conflict : {A : Type 0} → Result StoreError A → Result StoreError A
as_conflict (err integrity_error) = err conflict_error
as_conflict r = r

unfoldable pub catch_integrity : {A : Type 0} → Action A → Action A
catch_integrity m db = let (r, db') = m db in (as_conflict r, db')

-- `_require_event_metadata`
unfoldable pub require_event_metadata : String → EventMetadata → Result StoreError (Unit {0})
require_event_metadata scan m =
    if is_token scan && is_token m.actor_id && is_token m.event_id then ok tt else err value_error

module _ (rt : Runtime) where
  -- The event that `_append_event` builds.
  abbrev pub event_for : OrderIntent → String → EventMetadata → AuditPayload → ℕ → AuditEvent
  event_for i scan m payload sequence = record {
    schema_version = 1;
    event_id = m.event_id;
    sequence = sequence;
    occurred_at_ms = m.occurred_at_ms;
    audit_correlation_id = i.audit_correlation_id;
    actor_kind = m.actor_kind;
    actor_id = m.actor_id;
    source_scan_id = scan;
    signal_lineage_id = i.signal_lineage_id;
    business_action_id = i.business_action_id;
    environment = i.environment;
    intent_id = i.intent_id;
    intent_fingerprint = intent_fingerprint rt i;
    decision_code = i.decision_code;
    payload = payload;
  }

  -- `_append_event`
  unfoldable pub append_event :
      OrderIntent → String → EventMetadata → AuditPayload → Action (Unit {0})
  append_event i scan m payload = do
    db ← gets (λ (db : Db). db)
    let sequence = max_sequence i.audit_correlation_id db.events + 1
    let event = event_for i scan m payload sequence
    raise_if (not (event_valid rt event)) value_error
    catch_integrity (
        insert_event (record {
          event_id = m.event_id;
          audit_correlation_id = i.audit_correlation_id;
          sequence = sequence;
          event = event;
        }))

  abbrev pub row_for : OrderIntent → String → IntentRow
  row_for i scan = record {
    intent_id = i.intent_id;
    environment = i.environment;
    business_action_id = i.business_action_id;
    intent_fingerprint = intent_fingerprint rt i;
    source_scan_id = scan;
    created_at_ms = i.created_at_ms;
    intent_json = to_dict i;
  }

  abbrev pub verify_row : OrderIntent → String → Option IntentRow → Action (Unit {0})
  verify_row i scan none = insert_intent (row_for i scan)
  verify_row i scan (some r) = do
    existing ← lift (intent_from_row rt r)
    raise_if (not (same_intent existing i && same_json r.intent_json (to_dict i))) conflict_error

  -- `_insert_or_verify_intent`
  unfoldable pub insert_or_verify_intent : OrderIntent → String → Action (Unit {0})
  unfolding insert_intent
  insert_or_verify_intent i scan = do
    lift (require_token scan)
    row ← gets (λ (db : Db). find (intent_has_id i.intent_id) db.intents)
    verify_row i scan row

  -- `_require_no_orphaned_action_evidence`
  abbrev pub has_evidence : ExecutionEnvironment → String → Db → Bool
  has_evidence env action db =
      is_some (find (intent_of_action env action) db.intents)
      || is_some (find (reservation_of_action env action) db.reservations)
      || is_some (find (event_of_action action) db.events)

  abbrev pub created_plan : OrderIntent → IntentRevisionPlan
  created_plan i = record {
    action = IntentRevisionAction.create;
    intent = i;
    supersedes_intent_id = none;
  }

  -- The branch of `record_intent` for an action with no selection.
  unfoldable pub record_first : OrderIntent → String → EventMetadata → Action IntentRevisionPlan
  unfolding insert_or_verify_intent insert_selection append_event
  record_first i scan m = do
    evidence ← gets (has_evidence i.environment i.business_action_id)
    raise_if evidence invariant_error
    insert_or_verify_intent i scan
    insert_selection (record {
      environment = i.environment;
      business_action_id = i.business_action_id;
      selected_intent_id = i.intent_id;
      selected_intent_fingerprint = intent_fingerprint rt i;
      selection_version = 1;
      mutation_reserved = false;
    })
    append_event i scan m (AuditPayload.intent_created (to_dict i))
    pure (created_plan i)

  -- The WHERE clause of the supersession: the fence.
  abbrev pub unreserved_at : OrderIntent → ℕ → ActionSelection → Bool
  unreserved_at i version s =
      selection_of_action i.environment i.business_action_id s
      && s.selection_version == version
      && not s.mutation_reserved

  abbrev pub select_intent : OrderIntent → ℕ → ActionSelection → ActionSelection
  select_intent i version s = record s {
    selected_intent_id = i.intent_id;
    selected_intent_fingerprint = intent_fingerprint rt i;
    selection_version = version;
  }

  -- The SUPERSEDE branch.
  unfoldable pub supersede :
      OrderIntent → OrderIntent → ActionSelection → String → EventMetadata → Action (Unit {0})
  unfolding insert_or_verify_intent append_event
  supersede existing i selection scan m = do
    insert_or_verify_intent i scan
    let version = selection.selection_version + 1
    fence ← gets (λ (db : Db). rowcount (unreserved_at i selection.selection_version) db.selections)
    modify (λ (db : Db). record db {
      selections =
          update_where (unreserved_at i selection.selection_version) (select_intent i version)
            db.selections;
    })
    raise_if (not (fence == 1)) conflict_error
    append_event i scan m (AuditPayload.intent_superseded existing.intent_id i.intent_id version)

  -- The branches of `record_intent` by the plan.
  unfoldable pub follow_plan :
      OrderIntent
      → OrderIntent
      → ActionSelection
      → String
      → EventMetadata
      → IntentRevisionAction
      → Action (Unit {0})
  unfolding supersede append_event
  follow_plan existing i selection scan m IntentRevisionAction.conflict = raise conflict_error
  follow_plan existing i selection scan m IntentRevisionAction.reuse =
      append_event existing scan m
        (AuditPayload.intent_reused existing.intent_id (intent_fingerprint rt existing) scan)
  follow_plan existing i selection scan m IntentRevisionAction.supersede =
      supersede existing i selection scan m
  follow_plan existing i selection scan m IntentRevisionAction.create = raise invariant_error

  -- The branch of `record_intent` for an action that has a selection.
  unfoldable pub record_revision :
      OrderIntent → ActionSelection → String → EventMetadata → Action IntentRevisionPlan
  unfolding follow_plan
  record_revision i selection scan m = do
    db ← gets (λ (db : Db). db)
    loaded ← lift (load_intent rt db selection.selected_intent_id)
    existing ← lift (or_error loaded invariant_error)
    plan ← lift (
        or_error (classify_intent_revision rt (some existing) i selection.mutation_reserved)
          conflict_error)
    follow_plan existing i selection scan m plan.action
    pure plan

  abbrev pub record_by_selection :
      OrderIntent → String → EventMetadata → Option ActionSelection → Action IntentRevisionPlan
  record_by_selection i scan m none = record_first i scan m
  record_by_selection i scan m (some selection) = record_revision i selection scan m

  -- The body of the transaction of `record_intent`.
  unfoldable pub record_body : OrderIntent → String → EventMetadata → Action IntentRevisionPlan
  unfolding record_first record_revision
  record_body i scan m = do
    db ← gets (λ (db : Db). db)
    selection ← lift (load_action_selection rt db i.environment i.business_action_id)
    record_by_selection i scan m selection

  unfoldable pub record_intent : OrderIntent → String → EventMetadata → Action IntentRevisionPlan
  record_intent given scan m = do
    i ← lift (canonical_intent rt given)
    lift (require_event_metadata scan m)
    catch_integrity (transaction (record_body i scan m))
