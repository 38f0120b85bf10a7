-- ===== src/Execution/Store/Identity.antt =====
-- The identities of mutations and the tests of arguments of mu_strategy/execution/store.py.
use mu_5x_fibonacci_trading.Base.{
  String, not, ◌&&◌, ◌||◌, Option, none, some, str_eq, if◌then◌else◌, is_token, is_some, Result, ok,
  err,
}
use Prim.Native.String.{◌++◌}
use mu_5x_fibonacci_trading.Runtime.{Runtime}
use mu_5x_fibonacci_trading.Runtime.Json.{num, text, object}
use mu_5x_fibonacci_trading.Runtime.Fields.{end, field}
use mu_5x_fibonacci_trading.Execution.Intent.{OrderIntent, environment_value}
use mu_5x_fibonacci_trading.Execution.Intent.Codec.{to_dict, from_dict}
use mu_5x_fibonacci_trading.Execution.Audit.{MutationOperation, same_operation, operation_value}
use mu_5x_fibonacci_trading.Execution.Store.{
  StoreError, value_error, intent_schema_error, conflict_error,
}

abbrev pub or_error : {A : Type 0} → Option A → StoreError → Result StoreError A
or_error none e = err e
or_error (some a) e = ok a

-- `_require_token`
abbrev pub require_token : String → Result StoreError (Unit {0})
require_token s = if is_token s then ok tt else err value_error

abbrev pub require_token_option : Option String → Result StoreError (Unit {0})
require_token_option none = err value_error
require_token_option (some s) = require_token s

module _ (rt : Runtime) where
  open rt use {sha256_hex}

  -- `leverage_mutation_action_id`
  unfoldable pub leverage_mutation_action_id : OrderIntent → String
  leverage_mutation_action_id i =
      "ma1_"
      ++ sha256_hex (
          object (
            field "business_action_id" (text i.business_action_id) (
              field "environment" (text (environment_value i.environment)) (
                field "leverage" (num i.leverage) (
                  field "operation" (text (operation_value MutationOperation.configure_leverage))
                    (field "td_mode" (text i.td_mode) end))))))

  -- `cancel_mutation_action_id`, after its tests of the tokens.
  unfoldable pub cancel_mutation_action_id : OrderIntent → String → String → String → String
  cancel_mutation_action_id i lineage reason policy =
      "ca1_"
      ++ sha256_hex (
          object (
            field "business_action_id" (text i.business_action_id) (
              field "environment" (text (environment_value i.environment)) (
                field "operation" (text (operation_value MutationOperation.cancel_order)) (
                  field "order_lineage_id" (text lineage) (
                    field "policy_version" (text policy)
                      (field "reason_code" (text reason) end)))))))

  -- `_canonical_intent`: the intent again, through its dictionary.
  unfoldable pub canonical_intent : OrderIntent → Result StoreError OrderIntent
  canonical_intent i = or_error (from_dict rt (to_dict i)) intent_schema_error

  abbrev cancel_identity :
      OrderIntent → String → Option String → Option String → Result StoreError String
  cancel_identity i lineage (some reason) (some policy) =
      if is_token lineage && is_token reason && is_token policy
      then ok (cancel_mutation_action_id i lineage reason policy)
      else err value_error
  cancel_identity i lineage _ _ = err value_error

  abbrev expected_identity :
      OrderIntent
      → MutationOperation
      → String
      → Option String
      → Option String
      → Result StoreError String
  expected_identity i MutationOperation.submit_entry lineage reason policy = ok i.business_action_id
  expected_identity i MutationOperation.configure_leverage lineage reason policy =
      ok (leverage_mutation_action_id i)
  expected_identity i MutationOperation.cancel_order lineage reason policy =
      cancel_identity i lineage reason policy

  abbrev check_identity :
      MutationOperation
      → String
      → Option String
      → Option String
      → Result StoreError String
      → Result StoreError (Unit {0})
  check_identity op id reason policy (err e) = err e
  check_identity op id reason policy (ok expected) =
      if not (str_eq id expected)
      then err conflict_error
      else if not (same_operation op MutationOperation.cancel_order)
          && (is_some reason || is_some policy)
      then err value_error
      else ok tt

  -- `_validate_mutation_action`. Each identity first requires the intent to be valid
  -- (`_require_intent`).
  unfoldable pub validate_mutation_action :
      OrderIntent
      → MutationOperation
      → String
      → String
      → Option String
      → Option String
      → Result StoreError (Unit {0})
  unfolding canonical_intent
  validate_mutation_action i op id lineage reason policy = elim (canonical_intent i) [
    | err e ↦ err e
    | ok _ ↦ check_identity op id reason policy (expected_identity i op lineage reason policy)
  ]
