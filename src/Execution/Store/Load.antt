-- ===== src/Execution/Store/Load.antt =====
-- The reads of mu_strategy/execution/store.py, each with the checks that it makes on what is stored.
use mu_5x_fibonacci_trading.Base.{
  String, Bool, true, false, not, ◌&&◌, Option, none, some, List, [], ◌∷◌, str_eq, ltb, ◌==◌,
  if◌then◌else◌, find, select, all, is_token, is_some, same_option, Result, ok, err,
}
use mu_5x_fibonacci_trading.Runtime.{Runtime}
use mu_5x_fibonacci_trading.Execution.Reservation.{ReservationState, same_state}
use mu_5x_fibonacci_trading.Execution.Intent.{
  OrderIntent, ExecutionEnvironment, same_environment, intent_fingerprint,
}
use mu_5x_fibonacci_trading.Execution.Intent.Codec.{to_dict, from_dict}
use mu_5x_fibonacci_trading.Execution.Audit.{
  MutationOperation, idempotency_key, okx_client_order_id_for,
}
use mu_5x_fibonacci_trading.Execution.Json.{same_json}
use mu_5x_fibonacci_trading.Execution.Store.Identity.{validate_mutation_action}
use mu_5x_fibonacci_trading.Execution.Store.{
  StoreError, invariant_error, conflict_error, IntentRow, ActionSelection, MutationReservation, Db,
  intent_has_id, selection_of_action, reservation_of_action, reservation_has_key,
}

abbrev scan_of_row : Option IntentRow → Result StoreError String
scan_of_row none = err invariant_error
scan_of_row (some r) =
    if is_token r.source_scan_id then ok r.source_scan_id else err invariant_error

-- `_load_intent_source_scan_id_connection`
unfoldable pub load_source_scan_id : Db → String → Result StoreError String
load_source_scan_id db id = scan_of_row (find (intent_has_id id) db.intents)

module _ (rt : Runtime) where
  -- The columns of a row are those of its intent.
  abbrev pub row_matches : IntentRow → OrderIntent → Bool
  row_matches r i =
      str_eq i.intent_id r.intent_id
      && same_environment i.environment r.environment
      && str_eq i.business_action_id r.business_action_id
      && str_eq (intent_fingerprint rt i) r.intent_fingerprint
      && i.created_at_ms == r.created_at_ms

  abbrev checked_row : IntentRow → Option OrderIntent → Result StoreError OrderIntent
  checked_row r none = err invariant_error
  checked_row r (some i) =
      if same_json (to_dict i) r.intent_json && is_token r.source_scan_id && row_matches r i
      then ok i
      else err invariant_error

  -- `_intent_from_row`
  unfoldable pub intent_from_row : IntentRow → Result StoreError OrderIntent
  intent_from_row r = checked_row r (from_dict rt r.intent_json)

  abbrev row_intent : Option IntentRow → Result StoreError (Option OrderIntent)
  row_intent none = ok none
  row_intent (some r) = elim (intent_from_row r) [ ok i ↦ ok (some i) | err e ↦ err e ]

  -- `_load_intent_connection`
  unfoldable pub load_intent : Db → String → Result StoreError (Option OrderIntent)
  load_intent db id = row_intent (find (intent_has_id id) db.intents)

  abbrev pub binds_intent : ActionSelection → OrderIntent → Bool
  binds_intent s i =
      same_environment s.environment i.environment
      && str_eq s.business_action_id i.business_action_id
      && str_eq s.selected_intent_fingerprint (intent_fingerprint rt i)

  abbrev pub reservation_binds : ActionSelection → MutationReservation → Bool
  reservation_binds s r =
      str_eq r.selected_intent_id s.selected_intent_id
      && str_eq r.selected_intent_fingerprint s.selected_intent_fingerprint

  abbrev is_nonempty : List MutationReservation → Bool
  is_nonempty [] = false
  is_nonempty (_ ∷ _) = true

  abbrev same_bool : Bool → Bool → Bool
  same_bool true b = b
  same_bool false b = not b

  abbrev selection_sound : ActionSelection → Option OrderIntent → List MutationReservation → Bool
  selection_sound s none rows = false
  selection_sound s (some i) rows =
      binds_intent s i
      && same_bool s.mutation_reserved (is_nonempty rows)
      && all (reservation_binds s) rows

  abbrev checked_selection :
      Db → Option ActionSelection → Result StoreError (Option ActionSelection)
  checked_selection db none = ok none
  checked_selection db (some s) =
      if not (ltb 0 s.selection_version)
      then err invariant_error
      else elim (load_intent db s.selected_intent_id) [
        | err e ↦ err e
        | ok found ↦
            if selection_sound s found
              (select (reservation_of_action s.environment s.business_action_id) db.reservations)
            then ok (some s)
            else err invariant_error
      ]

  -- `_load_action_selection_connection`
  unfoldable pub load_action_selection :
      Db → ExecutionEnvironment → String → Result StoreError (Option ActionSelection)
  load_action_selection db env action =
      checked_selection db (find (selection_of_action env action) db.selections)

  abbrev client_id_expected : MutationReservation → Option String
  client_id_expected r = elim r.operation [
    | MutationOperation.submit_entry ↦ okx_client_order_id_for rt r.idempotency_key
    | _ ↦ none
  ]

  abbrev cancel_metadata_complete : MutationReservation → Bool
  cancel_metadata_complete r = elim r.operation [
    | MutationOperation.cancel_order ↦
        is_some r.cancel_reason_code && is_some r.cancel_policy_version
    | _ ↦ not (is_some r.cancel_reason_code) && not (is_some r.cancel_policy_version)
  ]

  -- The checks of `_reservation_from_row`.
  unfoldable pub reservation_row_valid : MutationReservation → Bool
  reservation_row_valid r =
      is_token r.mutation_action_id
      && is_token r.business_action_id
      && is_token r.selected_intent_id
      && is_token r.selected_intent_fingerprint
      && is_token r.order_lineage_id
      && str_eq r.idempotency_key
          (idempotency_key rt r.environment r.operation r.mutation_action_id)
      && same_option r.client_order_id (client_id_expected r)
      && cancel_metadata_complete r

  abbrev pub reservation_matches_intent : MutationReservation → OrderIntent → Bool
  reservation_matches_intent r i =
      same_environment r.environment i.environment
      && str_eq r.business_action_id i.business_action_id
      && str_eq r.selected_intent_fingerprint (intent_fingerprint rt i)

  abbrev pub selection_holds : MutationReservation → Option ActionSelection → Bool
  selection_holds r none = false
  selection_holds r (some s) =
      str_eq s.selected_intent_id r.selected_intent_id
      && str_eq s.selected_intent_fingerprint r.selected_intent_fingerprint
      && s.mutation_reserved

  abbrev bound_action : MutationReservation → OrderIntent → Result StoreError (Unit {0})
  bound_action r i =
      elim (validate_mutation_action rt i r.operation r.mutation_action_id r.order_lineage_id
        r.cancel_reason_code r.cancel_policy_version) [ ok _ ↦ ok tt | err _ ↦ err invariant_error ]

  abbrev bound_selection :
      MutationReservation
      → OrderIntent
      → Result StoreError (Option ActionSelection)
      → Result StoreError (Unit {0})
  bound_selection r i (err e) = err e
  bound_selection r i (ok s) = if selection_holds r s then bound_action r i else err invariant_error

  abbrev bound_intent :
      Db
      → MutationReservation
      → Result StoreError (Option OrderIntent)
      → Result StoreError (Unit {0})
  bound_intent db r (err e) = err e
  bound_intent db r (ok none) = err invariant_error
  bound_intent db r (ok (some i)) =
      if reservation_matches_intent r i
      then bound_selection r i (load_action_selection db r.environment r.business_action_id)
      else err invariant_error

  -- `_validate_reservation_binding`
  unfoldable pub validate_reservation_binding :
      Db → MutationReservation → Result StoreError (Unit {0})
  validate_reservation_binding db r = bound_intent db r (load_intent db r.selected_intent_id)

  -- A row that passes both checks.
  unfoldable pub checked_reservation :
      Db → MutationReservation → Result StoreError MutationReservation
  checked_reservation db r =
      if reservation_row_valid r
      then elim (validate_reservation_binding db r) [ ok _ ↦ ok r | err e ↦ err e ]
      else err invariant_error

  abbrev row_reservation :
      Db → Option MutationReservation → Result StoreError (Option MutationReservation)
  row_reservation db none = ok none
  row_reservation db (some r) = elim (checked_reservation db r) [
    | ok r ↦ ok (some r)
    | err e ↦ err e
  ]

  -- `_load_reservation_connection`
  unfoldable pub load_reservation :
      Db
      → ExecutionEnvironment
      → MutationOperation
      → String
      → Result StoreError (Option MutationReservation)
  load_reservation db env op id =
      row_reservation db (find (reservation_has_key env op id) db.reservations)

  -- The loop of `_require_cancel_slot`.
  unfoldable pub cancel_slot_free : Db → List MutationReservation → Result StoreError (Unit {0})
  cancel_slot_free db [] = ok tt
  cancel_slot_free db (r ∷ rows) =
      let rest = cancel_slot_free db rows in
      elim (checked_reservation db r) [
        | err e ↦ err e
        | ok r ↦ if same_state r.state ReservationState.rejected then rest else err conflict_error
      ]
