-- ===== src/Execution/Store/Stable.antt =====
-- Predicates of the database that every call keeps, shown from its six kinds of write.
pub mod Rules
pub mod Facts
pub mod Lifecycle
use mu_5x_fibonacci_trading.Base.{
  ℕ, ◌+◌, ◌≡◌, refl, String, Bool, true, false, not, Option, none, some, List, [], ◌∷◌, ◌++◌,
  update_where, modify, raise_if, ◌>>=◌, ◌>>◌, Bool-cases, inl, inr, arith, transaction,
}
use mu_5x_fibonacci_trading.Runtime.{Runtime}
use mu_5x_fibonacci_trading.Execution.Reservation.{
  ReservationState, is_reservation_transition_allowed,
}
use mu_5x_fibonacci_trading.Execution.Intent.{OrderIntent, ExecutionEnvironment}
use mu_5x_fibonacci_trading.Execution.Intent.Revision.{IntentRevisionAction}
use mu_5x_fibonacci_trading.Execution.Audit.{MutationOperation, AuditPayload}
use mu_5x_fibonacci_trading.Execution.Store.{
  StoreError, conflict_error, Db, IntentRow, ActionSelection, MutationReservation, EventRow,
  insert_intent, insert_selection, insert_reservation, insert_event,
}
use mu_5x_fibonacci_trading.Execution.Store.Operations.{
  EventMetadata, catch_integrity, append_event, insert_or_verify_intent, verify_row, record_first,
  supersede, follow_plan, record_revision, record_by_selection, record_body, record_intent,
  unreserved_at, select_intent,
}
use mu_5x_fibonacci_trading.Execution.Store.Mutations.{
  MutationRequest, reserve_new, replay_or_reserve, reserve_body, reserve_mutation, transition_body,
  same_facts, transition_reservation, selected_at, mark_reserved, in_state, set_state,
}
use mu_5x_fibonacci_trading.Execution.Store.Requests.{
  Request, record_request, reserve_request, transition_request, step, run, run_induction,
}
use Rules.{Keeps, keep_rules, Keeps-modify, Keeps-guarded, Keeps-catch_integrity, Keeps-transaction}

-- The writes of the store keep the predicate: an INSERT into each table, the supersession of an
-- unreserved selection, the reservation of a selection, and an allowed transition.
pub record IsStable (rt : Runtime) (P : Db → Type 0) : Type 0 where
  pub intent : (r : IntentRow) (db : Db) → P db → P (record db { intents = db.intents ++ r ∷ [] })
  pub selection :
      (s : ActionSelection) (db : Db)
      → P db
      → P (record db { selections = db.selections ++ s ∷ [] })
  pub reservation :
      (r : MutationReservation) (db : Db)
      → P db
      → P (record db { reservations = db.reservations ++ r ∷ [] })
  pub event : (e : EventRow) (db : Db) → P db → P (record db { events = db.events ++ e ∷ [] })
  pub superseded :
      (i : OrderIntent) (version next : ℕ) (db : Db)
      → P db
      → P (record db {
        selections =
            update_where (unreserved_at rt i version) (select_intent rt i next) db.selections;
      })
  pub reserved :
      (i : OrderIntent) (version : ℕ) (db : Db)
      → P db
      → P (record db {
        selections = update_where (selected_at rt i version) (mark_reserved rt) db.selections;
      })
  pub transitioned :
      (env : ExecutionEnvironment) (op : MutationOperation) (id : String)
      (expected new : ReservationState)
      → is_reservation_transition_allowed expected new ≡ true
      → (db : Db) → P db
      → P (record db {
        reservations =
            update_where (in_state rt env op id expected) (set_state rt new) db.reservations;
      })

allowed_of_not : (b : Bool) → not b ≡ false → b ≡ true
allowed_of_not b h = ground arith

module _ (rt : Runtime) (P : Db → Type 0) (stable : IsStable rt P) where
  insert_intent-Keeps : (r : IntentRow) → Keeps P (insert_intent r)
  unfolding insert_intent
  insert_intent-Keeps r = search (keep_rules, Keeps-modify, stable.intent) depth 9

  insert_selection-Keeps : (s : ActionSelection) → Keeps P (insert_selection s)
  unfolding insert_selection
  insert_selection-Keeps s = search (keep_rules, Keeps-modify, stable.selection) depth 9

  insert_reservation-Keeps : (r : MutationReservation) → Keeps P (insert_reservation r)
  unfolding insert_reservation
  insert_reservation-Keeps r = search (keep_rules, Keeps-modify, stable.reservation) depth 9

  insert_event-Keeps : (e : EventRow) → Keeps P (insert_event e)
  unfolding insert_event
  insert_event-Keeps e = search (keep_rules, Keeps-modify, stable.event) depth 9

  append_event-Keeps :
      (i : OrderIntent) (scan : String) (m : EventMetadata) (p : AuditPayload)
      → Keeps P (append_event rt i scan m p)
  unfolding append_event
  append_event-Keeps i scan m p = search (keep_rules, insert_event-Keeps) depth 9

  verify_row-Keeps :
      (i : OrderIntent) (scan : String) (o : Option IntentRow) → Keeps P (verify_row rt i scan o)
  verify_row-Keeps i scan none = insert_intent-Keeps _
  verify_row-Keeps i scan (some r) = search keep_rules

  insert_or_verify_intent-Keeps :
      (i : OrderIntent) (scan : String) → Keeps P (insert_or_verify_intent rt i scan)
  unfolding insert_or_verify_intent
  insert_or_verify_intent-Keeps i scan = search (keep_rules, verify_row-Keeps)

  ruleset store_rules = (
    keep_rules, insert_or_verify_intent-Keeps, insert_selection-Keeps, insert_reservation-Keeps,
    append_event-Keeps,
  )

  record_first-Keeps :
      (i : OrderIntent) (scan : String) (m : EventMetadata) → Keeps P (record_first rt i scan m)
  unfolding record_first
  record_first-Keeps i scan m = search store_rules depth 12

  supersede-Keeps :
      (e i : OrderIntent) (s : ActionSelection) (scan : String) (m : EventMetadata)
      → Keeps P (supersede rt e i s scan m)
  unfolding supersede
  supersede-Keeps e i s scan m = search (store_rules, Keeps-modify, stable.superseded) depth 12

  follow_plan-Keeps :
      (e i : OrderIntent) (s : ActionSelection) (scan : String) (m : EventMetadata)
      (a : IntentRevisionAction)
      → Keeps P (follow_plan rt e i s scan m a)
  unfolding follow_plan
  follow_plan-Keeps e i s scan m IntentRevisionAction.create = search keep_rules
  follow_plan-Keeps e i s scan m IntentRevisionAction.reuse = search append_event-Keeps
  follow_plan-Keeps e i s scan m IntentRevisionAction.supersede = supersede-Keeps e i s scan m
  follow_plan-Keeps e i s scan m IntentRevisionAction.conflict = search keep_rules

  record_revision-Keeps :
      (i : OrderIntent) (s : ActionSelection) (scan : String) (m : EventMetadata)
      → Keeps P (record_revision rt i s scan m)
  unfolding record_revision
  record_revision-Keeps i s scan m = search (store_rules, follow_plan-Keeps) depth 12

  record_by_selection-Keeps :
      (i : OrderIntent) (scan : String) (m : EventMetadata) (o : Option ActionSelection)
      → Keeps P (record_by_selection rt i scan m o)
  record_by_selection-Keeps i scan m none = record_first-Keeps i scan m
  record_by_selection-Keeps i scan m (some s) = record_revision-Keeps i s scan m

  record_intent-Keeps :
      (i : OrderIntent) (scan : String) (m : EventMetadata) → Keeps P (record_intent rt i scan m)
  unfolding record_intent record_body
  record_intent-Keeps i scan m = search (store_rules, record_by_selection-Keeps) depth 12

  reserve_new-Keeps :
      (i : OrderIntent) (q : MutationRequest) (s : ActionSelection) (scan : String)
      (r : MutationReservation) (m : EventMetadata)
      → Keeps P (reserve_new rt i q s scan r m)
  unfolding reserve_new
  reserve_new-Keeps i q s scan r m = search (store_rules, Keeps-modify, stable.reserved) depth 20

  replay_or_reserve-Keeps :
      (i : OrderIntent) (q : MutationRequest) (s : ActionSelection) (scan : String)
      (r : MutationReservation) (m : EventMetadata) (o : Option MutationReservation)
      → Keeps P (replay_or_reserve rt i q s scan r m o)
  replay_or_reserve-Keeps i q s scan r m none = reserve_new-Keeps i q s scan r m
  replay_or_reserve-Keeps i q s scan r m (some e) = elim (Bool-cases (same_facts e r)) [
    | inl same ↦ rw same (search keep_rules)
    | inr other ↦ rw other (search keep_rules)
  ]

  reserve_mutation-Keeps :
      (i : OrderIntent) (q : MutationRequest) (m : EventMetadata)
      → Keeps P (reserve_mutation rt i q m)
  unfolding reserve_mutation reserve_body
  reserve_mutation-Keeps i q m = search (store_rules, replay_or_reserve-Keeps) depth 24

  transition_body-Keeps :
      (env : ExecutionEnvironment) (op : MutationOperation) (id : String)
      (expected new : ReservationState) (m : EventMetadata)
      → is_reservation_transition_allowed expected new ≡ true
      → Keeps P (transition_body rt env op id expected new m)
  unfolding transition_body
  transition_body-Keeps env op id expected new m allowed =
      search (store_rules, Keeps-modify, stable.transitioned) depth 24

  guarded_transition-Keeps :
      (env : ExecutionEnvironment) (op : MutationOperation) (id : String)
      (expected new : ReservationState) (m : EventMetadata)
      → Keeps P (
          raise_if (not (is_reservation_transition_allowed expected new)) conflict_error
          >> catch_integrity (transaction (transition_body rt env op id expected new m)))
  guarded_transition-Keeps env op id expected new m = Keeps-guarded _ _ _ (λ h.
      Keeps-catch_integrity _
        (Keeps-transaction _ (transition_body-Keeps env op id expected new m (allowed_of_not _ h))))

  transition_reservation-Keeps :
      (env : ExecutionEnvironment) (op : MutationOperation) (id : String)
      (expected new : ReservationState) (m : EventMetadata)
      → Keeps P (transition_reservation rt env op id expected new m)
  unfolding transition_reservation
  transition_reservation-Keeps env op id expected new m =
      search (keep_rules, guarded_transition-Keeps) depth 12

  step-Keeps : (r : Request) (db : Db) → P db → P (step rt r db)
  unfolding step
  step-Keeps (record_request i scan m) db h = (record_intent-Keeps i scan m).at db h
  step-Keeps (reserve_request i q m) db h = (reserve_mutation-Keeps i q m).at db h
  step-Keeps (transition_request env op id expected new m) db h =
      (transition_reservation-Keeps env op id expected new m).at db h

  -- What the writes keep, every sequence of calls keeps.
  pub run-Keeps : (rs : List Request) (db : Db) → P db → P (run rt rs db)
  run-Keeps rs db h = run_induction rt P step-Keeps rs db h
