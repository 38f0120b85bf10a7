-- ===== src/Execution/Store/Journal.antt =====
-- What the operations of the execution store do to the audit events.
pub mod Rules
pub mod Numbers
use mu_5x_fibonacci_trading.Base.{
  ℕ, ◌+◌, ◌≡◌, refl, inl, inr, String, Option, none, some, List, [], ◌∷◌, arith, raise_if, ◌>>=◌,
  ◌>>◌, Bool, true, false, Bool-cases, not, any, ltb, modify, ◌++◌,
}
use mu_5x_fibonacci_trading.Runtime.{Runtime}
use mu_5x_fibonacci_trading.Execution.Reservation.{ReservationState}
use mu_5x_fibonacci_trading.Execution.Intent.{OrderIntent, ExecutionEnvironment}
use mu_5x_fibonacci_trading.Execution.Intent.Revision.{IntentRevisionAction}
use mu_5x_fibonacci_trading.Execution.Audit.{MutationOperation, AuditPayload, event_valid}
use mu_5x_fibonacci_trading.Execution.Store.{
  StoreError, Db, IntentRow, ActionSelection, MutationReservation, insert_intent, insert_selection,
  insert_reservation, insert_event, EventRow, event_clash, max_sequence, value_error,
  integrity_error,
}
use mu_5x_fibonacci_trading.Execution.Store.Operations.{
  EventMetadata, event_for, catch_integrity, append_event, insert_or_verify_intent, verify_row,
  record_first, supersede, follow_plan, record_revision, record_by_selection, record_body,
  record_intent,
}
use mu_5x_fibonacci_trading.Execution.Store.Mutations.{
  MutationRequest, reserve_new, replay_or_reserve, reserve_body, reserve_mutation, transition_body,
  same_facts, transition_reservation,
}
use mu_5x_fibonacci_trading.Execution.Store.Journal.Rules.{
  IsQuiet, Logs, Appends, quiet_rules, IsQuiet-modify, Logs-bind, Logs-then, Logs-quiet,
  Logs-transaction, Logs-catch_integrity,
}

insert_intent-IsQuiet : (r : IntentRow) → IsQuiet (insert_intent r)
unfolding insert_intent
insert_intent-IsQuiet r = search (quiet_rules, IsQuiet-modify) depth 9

insert_selection-IsQuiet : (s : ActionSelection) → IsQuiet (insert_selection s)
unfolding insert_selection
insert_selection-IsQuiet s = search (quiet_rules, IsQuiet-modify) depth 9

insert_reservation-IsQuiet : (r : MutationReservation) → IsQuiet (insert_reservation r)
unfolding insert_reservation
insert_reservation-IsQuiet r = search (quiet_rules, IsQuiet-modify) depth 9

-- The two constraints on a new event.
constrained :
    (db : Db) (clash bad : Bool) (row : EventRow)
    → row.sequence ≡ max_sequence row.audit_correlation_id db.events + 1
    → Appends db.events
        ((raise_if clash integrity_error
            >> (raise_if bad integrity_error
                >> modify (λ db. record db { events = db.events ++ row ∷ [] })))
          db).1.events
constrained db true bad row h = inl refl
constrained db false true row h = inl refl
constrained db false false row h = inr (row, refl, h)

insert_event-Appends :
    (db : Db) (row : EventRow)
    → row.sequence ≡ max_sequence row.audit_correlation_id db.events + 1
    → Appends db.events (insert_event row db).1.events
unfolding insert_event
insert_event-Appends db row h =
    constrained db (any (event_clash row) db.events) (not (ltb 0 row.sequence)) row h

checked_event :
    (db : Db) (invalid : Bool) (row : EventRow)
    → row.sequence ≡ max_sequence row.audit_correlation_id db.events + 1
    → Appends db.events
        ((raise_if invalid value_error >> catch_integrity (insert_event row)) db).1.events
unfolding catch_integrity
checked_event db true row h = inl refl
checked_event db false row h = insert_event-Appends db row h

module _ (rt : Runtime) where
  verify_row-IsQuiet :
      (i : OrderIntent) (scan : String) (o : Option IntentRow) → IsQuiet (verify_row rt i scan o)
  verify_row-IsQuiet i scan none = insert_intent-IsQuiet _
  verify_row-IsQuiet i scan (some r) = search quiet_rules

  insert_or_verify_intent-IsQuiet :
      (i : OrderIntent) (scan : String) → IsQuiet (insert_or_verify_intent rt i scan)
  unfolding insert_or_verify_intent
  insert_or_verify_intent-IsQuiet i scan = search (quiet_rules, verify_row-IsQuiet)

  append_event-Logs :
      (i : OrderIntent) (scan : String) (m : EventMetadata) (p : AuditPayload)
      → Logs (append_event rt i scan m p)
  unfolding append_event
  append_event-Logs i scan m p = record {
    at = λ db.
        let sequence = max_sequence i.audit_correlation_id db.events + 1 in
        let row : EventRow = record {
          event_id = m.event_id;
          audit_correlation_id = i.audit_correlation_id;
          sequence = sequence;
          event = event_for rt i scan m p sequence;
        } in
        checked_event db (not (event_valid rt row.event)) row refl;
  }

  ruleset journal_rules = (
    quiet_rules, IsQuiet-modify, Logs-bind, Logs-then, insert_or_verify_intent-IsQuiet,
    insert_selection-IsQuiet, insert_reservation-IsQuiet, append_event-Logs,
  )

  record_first-Logs :
      (i : OrderIntent) (scan : String) (m : EventMetadata) → Logs (record_first rt i scan m)
  unfolding record_first
  record_first-Logs i scan m = search journal_rules depth 12

  supersede-Logs :
      (e i : OrderIntent) (s : ActionSelection) (scan : String) (m : EventMetadata)
      → Logs (supersede rt e i s scan m)
  unfolding supersede
  supersede-Logs e i s scan m = search journal_rules depth 12

  follow_plan-Logs :
      (e i : OrderIntent) (s : ActionSelection) (scan : String) (m : EventMetadata)
      (a : IntentRevisionAction)
      → Logs (follow_plan rt e i s scan m a)
  unfolding follow_plan
  follow_plan-Logs e i s scan m IntentRevisionAction.create = search (Logs-quiet, quiet_rules)
  follow_plan-Logs e i s scan m IntentRevisionAction.reuse = search append_event-Logs
  follow_plan-Logs e i s scan m IntentRevisionAction.supersede = supersede-Logs e i s scan m
  follow_plan-Logs e i s scan m IntentRevisionAction.conflict = search (Logs-quiet, quiet_rules)

  record_revision-Logs :
      (i : OrderIntent) (s : ActionSelection) (scan : String) (m : EventMetadata)
      → Logs (record_revision rt i s scan m)
  unfolding record_revision
  record_revision-Logs i s scan m = search (journal_rules, follow_plan-Logs) depth 12

  record_by_selection-Logs :
      (i : OrderIntent) (scan : String) (m : EventMetadata) (o : Option ActionSelection)
      → Logs (record_by_selection rt i scan m o)
  record_by_selection-Logs i scan m none = record_first-Logs i scan m
  record_by_selection-Logs i scan m (some s) = record_revision-Logs i s scan m

  pub record_intent-Logs :
      (i : OrderIntent) (scan : String) (m : EventMetadata) → Logs (record_intent rt i scan m)
  unfolding record_intent record_body
  record_intent-Logs i scan m =
      search (journal_rules, record_by_selection-Logs, Logs-transaction, Logs-catch_integrity) depth
        12

  reserve_new-Logs :
      (i : OrderIntent) (q : MutationRequest) (s : ActionSelection) (scan : String)
      (r : MutationReservation) (m : EventMetadata)
      → Logs (reserve_new rt i q s scan r m)
  unfolding reserve_new
  reserve_new-Logs i q s scan r m = search journal_rules depth 20

  replay_or_reserve-Logs :
      (i : OrderIntent) (q : MutationRequest) (s : ActionSelection) (scan : String)
      (r : MutationReservation) (m : EventMetadata) (o : Option MutationReservation)
      → Logs (replay_or_reserve rt i q s scan r m o)
  replay_or_reserve-Logs i q s scan r m none = reserve_new-Logs i q s scan r m
  replay_or_reserve-Logs i q s scan r m (some e) = elim (Bool-cases (same_facts e r)) [
    | inl same ↦ rw same (search (Logs-quiet, quiet_rules))
    | inr other ↦ rw other (search (Logs-quiet, quiet_rules))
  ]

  pub reserve_mutation-Logs :
      (i : OrderIntent) (q : MutationRequest) (m : EventMetadata) → Logs (reserve_mutation rt i q m)
  unfolding reserve_mutation reserve_body
  reserve_mutation-Logs i q m =
      search (journal_rules, replay_or_reserve-Logs, Logs-transaction, Logs-catch_integrity) depth
        24

  pub transition_reservation-Logs :
      (env : ExecutionEnvironment) (op : MutationOperation) (id : String)
      (expected new : ReservationState) (m : EventMetadata)
      → Logs (transition_reservation rt env op id expected new m)
  unfolding transition_reservation transition_body
  transition_reservation-Logs env op id expected new m =
      search (journal_rules, Logs-transaction, Logs-catch_integrity) depth 24
