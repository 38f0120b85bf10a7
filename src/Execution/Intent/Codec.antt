-- ===== src/Execution/Intent/Codec.antt =====
-- `OrderIntent.to_dict` and `from_dict` of mu_strategy/execution/intents.py.
use mu_5x_fibonacci_trading.Base.{
  ℕ, ◌≡◌, refl, String, Bool, true, ◌&&◌, Option, none, some, List, [], ◌∷◌, str_eq, if◌then◌else◌,
  contains_text,
}
use mu_5x_fibonacci_trading.Runtime.{Runtime, Json, Items, Fields}
use mu_5x_fibonacci_trading.Runtime.Json.{num, text, array, object}
use mu_5x_fibonacci_trading.Runtime.Items.{nil, cons}
use mu_5x_fibonacci_trading.Runtime.Fields.{end, field}
use mu_5x_fibonacci_trading.Entry.Decision.{EntryDecisionCode, decision_value, parse_decision}
use mu_5x_fibonacci_trading.Execution.Intent.{
  OrderIntent, ExecutionEnvironment, demo, production, environment_value, hash_items, validate,
}

infixl 5 ◌>>=◌
abbrev pub ◌>>=◌ : {A B : Type 0} → Option A → (A → Option B) → Option B
none >>= f = none
some a >>= f = f a

-- A chain that gives a value: its first step gave one.
pub bound :
    {A B : Type 0} (m : Option A) (f : A → Option B) {b : B}
    → (m >>= f) ≡ some b
    → (a : A) × (m ≡ some a) × (f a ≡ some b)
bound none f h = absurd (cc h)
bound (some a) f h = (a, refl, h)

-- The dictionary, its keys in the order of the canonical text.
abbrev pub intent_fields : OrderIntent → Fields
intent_fields i = field "audit_correlation_id" (text i.audit_correlation_id) (
    field "business_action_id" (text i.business_action_id) (
      field "created_at_ms" (num i.created_at_ms) (
        field "data_content_sha256" (array (hash_items i.data_content_sha256)) (
          field "decision_code" (text (decision_value i.decision_code)) (
            field "environment" (text (environment_value i.environment)) (
              field "expires_at_ms" (num i.expires_at_ms) (
                field "initial_stop" (text i.initial_stop) (
                  field "intent_id" (text i.intent_id) (
                    field "leverage" (num i.leverage) (
                      field "limit_price" (text i.limit_price) (
                        field "observed_at_ms" (num i.observed_at_ms) (
                          field "order_type" (text i.order_type) (
                            field "pos_side" (text i.pos_side) (
                              field "schema_version" (num i.schema_version) (
                                field "second_pullback_wait_bars" (num i.second_pullback_wait_bars)
                                  (field "side" (text i.side) (
                                    field "signal_lineage_id" (text i.signal_lineage_id) (
                                      field "signal_time_ms" (num i.signal_time_ms) (
                                        field "size" (text i.size) (
                                          field "source_observation_id"
                                            (text i.source_observation_id)
                                            (field "strategy_config_sha256"
                                              (text i.strategy_config_sha256)
                                              (field "strategy_name" (text i.strategy_name) (
                                                field "strategy_release_id"
                                                  (text i.strategy_release_id)
                                                  (field "symbol" (text i.symbol) (
                                                    field "td_mode" (text i.td_mode) (
                                                      field "trusted_run_id" (text i.trusted_run_id)
                                                        end))))))))))))))))))))))))))

unfoldable pub to_dict : OrderIntent → Json
to_dict i = object (intent_fields i)

abbrev pub lookup_field : String → Fields → Option Json
lookup_field key end = none
lookup_field key (field name value rest) =
    if str_eq key name then some value else lookup_field key rest

abbrev pub field_names : Fields → List String
field_names end = []
field_names (field name value rest) = name ∷ field_names rest

abbrev all_in : List String → List String → Bool
all_in [] names = true
all_in (s ∷ rest) names = contains_text s names && all_in rest names

-- `set(a) == set(b)`
abbrev pub same_names : List String → List String → Bool
same_names a b = all_in a b && all_in b a

-- `fields(OrderIntent)`
abbrev expected_names : List String
expected_names =
    "audit_correlation_id" ∷ "business_action_id" ∷ "created_at_ms" ∷ "data_content_sha256"
    ∷ "decision_code" ∷ "environment" ∷ "expires_at_ms" ∷ "initial_stop" ∷ "intent_id" ∷ "leverage"
    ∷ "limit_price" ∷ "observed_at_ms" ∷ "order_type" ∷ "pos_side" ∷ "schema_version"
    ∷ "second_pullback_wait_bars" ∷ "side" ∷ "signal_lineage_id" ∷ "signal_time_ms" ∷ "size"
    ∷ "source_observation_id" ∷ "strategy_config_sha256" ∷ "strategy_name" ∷ "strategy_release_id"
    ∷ "symbol" ∷ "td_mode" ∷ "trusted_run_id" ∷ []

abbrev pub as_text : Option Json → Option String
as_text (some (text s)) = if str_eq s "" then none else some s
as_text _ = none

abbrev pub as_num : Option Json → Option ℕ
as_num (some (num n)) = some n
as_num _ = none

abbrev pub required_text : String → Fields → Option String
required_text key fs = as_text (lookup_field key fs)

abbrev pub required_int : String → Fields → Option ℕ
required_int key fs = as_num (lookup_field key fs)

abbrev pub parse_environment : Option Json → Option ExecutionEnvironment
parse_environment (some (text s)) =
    if str_eq s "demo" then some demo else if str_eq s "production" then some production else none
parse_environment _ = none

abbrev parse_decision_json : Option Json → Option EntryDecisionCode
parse_decision_json (some (text s)) = parse_decision s
parse_decision_json _ = none

abbrev prepend : String × String → Option (List (String × String)) → Option (List (String × String))
prepend p none = none
prepend p (some rest) = some (p ∷ rest)

-- Lists of two items; that the items are texts is tested by `_validate_content_hashes`.
abbrev pub parse_hashes : Items → Option (List (String × String))
parse_hashes nil = some []
parse_hashes (cons (array (cons (text a) (cons (text b) nil))) rest) =
    prepend (a, b) (parse_hashes rest)
parse_hashes _ = none

abbrev parse_hashes_json : Option Json → Option (List (String × String))
parse_hashes_json (some (array items)) = parse_hashes items
parse_hashes_json _ = none

-- The fields of the dictionary, before `__post_init__`.
unfoldable pub read_fields : Fields → Option OrderIntent
read_fields fs = do
  hashes ← parse_hashes_json (lookup_field "data_content_sha256" fs)
  schema_version ← required_int "schema_version" fs
  signal_lineage_id ← required_text "signal_lineage_id" fs
  business_action_id ← required_text "business_action_id" fs
  intent_id ← required_text "intent_id" fs
  audit_correlation_id ← required_text "audit_correlation_id" fs
  environment ← parse_environment (lookup_field "environment" fs)
  symbol ← required_text "symbol" fs
  side ← required_text "side" fs
  order_type ← required_text "order_type" fs
  size ← required_text "size" fs
  limit_price ← required_text "limit_price" fs
  td_mode ← required_text "td_mode" fs
  pos_side ← required_text "pos_side" fs
  leverage ← required_int "leverage" fs
  initial_stop ← required_text "initial_stop" fs
  source_observation_id ← required_text "source_observation_id" fs
  signal_time_ms ← required_int "signal_time_ms" fs
  decision_code ← parse_decision_json (lookup_field "decision_code" fs)
  trusted_run_id ← required_text "trusted_run_id" fs
  observed_at_ms ← required_int "observed_at_ms" fs
  strategy_release_id ← required_text "strategy_release_id" fs
  strategy_name ← required_text "strategy_name" fs
  strategy_config_sha256 ← required_text "strategy_config_sha256" fs
  second_pullback_wait_bars ← required_int "second_pullback_wait_bars" fs
  created_at_ms ← required_int "created_at_ms" fs
  expires_at_ms ← required_int "expires_at_ms" fs
  some (record {
    schema_version = schema_version;
    signal_lineage_id = signal_lineage_id;
    business_action_id = business_action_id;
    intent_id = intent_id;
    audit_correlation_id = audit_correlation_id;
    environment = environment;
    symbol = symbol;
    side = side;
    order_type = order_type;
    size = size;
    limit_price = limit_price;
    td_mode = td_mode;
    pos_side = pos_side;
    leverage = leverage;
    initial_stop = initial_stop;
    source_observation_id = source_observation_id;
    signal_time_ms = signal_time_ms;
    decision_code = decision_code;
    trusted_run_id = trusted_run_id;
    observed_at_ms = observed_at_ms;
    data_content_sha256 = hashes;
    strategy_release_id = strategy_release_id;
    strategy_name = strategy_name;
    strategy_config_sha256 = strategy_config_sha256;
    second_pullback_wait_bars = second_pullback_wait_bars;
    created_at_ms = created_at_ms;
    expires_at_ms = expires_at_ms;
  })

abbrev pub keep_valid : Runtime → Option OrderIntent → Option OrderIntent
keep_valid rt none = none
keep_valid rt (some i) = if validate rt i then some i else none

-- `from_dict`; `none` is OrderIntentSchemaError.
unfoldable pub from_dict : Runtime → Json → Option OrderIntent
from_dict rt (object fs) =
    if same_names (field_names fs) expected_names then keep_valid rt (read_fields fs) else none
from_dict rt _ = none
