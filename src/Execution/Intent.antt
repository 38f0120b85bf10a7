-- ===== src/Execution/Intent.antt =====
-- mu_strategy/execution/intents.py: the order intent, its identities and what makes it valid.
-- The `isinstance` tests of the source are the types here; times and counts are natural numbers.
pub mod Codec
pub mod Equality
pub mod Laws
pub mod Revision
mod Tests
use mu_5x_fibonacci_trading.Base.{
  ℕ, ◌+◌, ◌*◌, String, Bool, true, false, not, ◌&&◌, ◌||◌, Option, none, some, List, [], ◌∷◌,
  str_eq, codes, leb, ltb, ◌==◌, if◌then◌else◌, is_hex_text, all_hex, count_codes, contains_text,
}
use mu_5x_fibonacci_trading.Runtime.{Runtime, Json, Items, Fields}
use mu_5x_fibonacci_trading.Runtime.Json.{num, text, array, object}
use mu_5x_fibonacci_trading.Runtime.Items.{nil, cons}
use mu_5x_fibonacci_trading.Runtime.Fields.{end, field}
use mu_5x_fibonacci_trading.Entry.Decision.{
  EntryDisposition, EntryDecisionCode, entry_decision_metadata, decision_value,
}
use Prim.Native.String.{◌++◌}

pub data ExecutionEnvironment : Type 0 where
  demo production : ExecutionEnvironment

abbrev pub environment_value : ExecutionEnvironment → String
environment_value demo = "demo"
environment_value production = "production"

abbrev pub same_environment : ExecutionEnvironment → ExecutionEnvironment → Bool
same_environment demo demo = true
same_environment production production = true
same_environment _ _ = false

pub record OrderIntent : Type 0 where
  pub schema_version : ℕ
  pub signal_lineage_id : String
  pub business_action_id : String
  pub intent_id : String
  pub audit_correlation_id : String
  pub environment : ExecutionEnvironment
  pub symbol : String
  pub side : String
  pub order_type : String
  pub size : String
  pub limit_price : String
  pub td_mode : String
  pub pos_side : String
  pub leverage : ℕ
  pub initial_stop : String
  pub source_observation_id : String
  pub signal_time_ms : ℕ
  pub decision_code : EntryDecisionCode
  pub trusted_run_id : String
  pub observed_at_ms : ℕ
  pub data_content_sha256 : List (String × String)
  pub strategy_release_id : String
  pub strategy_name : String
  pub strategy_config_sha256 : String
  pub second_pullback_wait_bars : ℕ
  pub created_at_ms : ℕ
  pub expires_at_ms : ℕ

-- What follows a prefix of the code points, if they begin with it.
abbrev pub strip_prefix : List ℕ → List ℕ → Option (List ℕ)
strip_prefix [] cs = some cs
strip_prefix (p ∷ ps) [] = none
strip_prefix (p ∷ ps) (c ∷ cs) = if p == c then strip_prefix ps cs else none

abbrev pub is_hex_rest : Option (List ℕ) → Bool
is_hex_rest none = false
is_hex_rest (some cs) = all_hex cs && count_codes cs == 64

-- The patterns `^sig1_[0-9a-f]{64}$` and the like.
unfoldable pub is_prefixed_digest : String → String → Bool
is_prefixed_digest prefix s = is_hex_rest (strip_prefix (codes prefix) (codes s))

is_symbol_code : ℕ → Bool
is_symbol_code c = (leb b'A' c && leb c b'Z') || (leb b'0' c && leb c b'9')

-- `inside` a group of letters and digits; `joined` after the first dash.
symbol_codes : Bool → Bool → List ℕ → Bool
symbol_codes inside joined [] = inside && joined
symbol_codes inside joined (c ∷ cs) =
    let more = symbol_codes true joined cs in
    let next = symbol_codes false true cs in
    if is_symbol_code c then more else if c == b'-' && inside then next else false

-- `_SYMBOL_PATTERN.fullmatch`
unfoldable pub is_symbol : String → Bool
unfolding symbol_codes is_symbol_code
is_symbol s = symbol_codes false false (codes s)

-- Python's order of texts.
codes_le : List ℕ → List ℕ → Bool
codes_le [] ds = true
codes_le (c ∷ cs) [] = false
codes_le (c ∷ cs) (d ∷ ds) = if ltb c d then true else c == d && codes_le cs ds

pair_le : String × String → String × String → Bool
unfolding codes_le
pair_le (a, x) (b, y) =
    if str_eq a b then codes_le (codes x) (codes y) else codes_le (codes a) (codes b)

-- `tuple(sorted(value)) == value`
is_sorted : List (String × String) → Bool
is_sorted [] = true
is_sorted (p ∷ []) = true
is_sorted (p ∷ q ∷ rest) = pair_le p q && is_sorted (q ∷ rest)

abbrev pub intervals : List (String × String) → List String
intervals [] = []
intervals ((interval, digest) ∷ rest) = interval ∷ intervals rest

abbrev distinct : List String → Bool
distinct [] = true
distinct (s ∷ rest) = not (contains_text s rest) && distinct rest

abbrev digests_valid : List (String × String) → Bool
digests_valid [] = true
digests_valid ((interval, digest) ∷ rest) =
    not (str_eq interval "") && is_hex_text 64 digest && digests_valid rest

-- `_validate_content_hashes`
unfoldable pub content_hashes_valid : List (String × String) → Bool
unfolding is_sorted pair_le
content_hashes_valid hashes =
    digests_valid hashes
    && is_sorted hashes
    && distinct (intervals hashes)
    && contains_text "5m" (intervals hashes)
    && contains_text "15m" (intervals hashes)
    && contains_text "1h" (intervals hashes)

-- `[list(item) for item in self.data_content_sha256]`
abbrev pub hash_items : List (String × String) → Items
hash_items [] = nil
hash_items ((interval, digest) ∷ rest) =
    cons (array (cons (text interval) (cons (text digest) nil))) (hash_items rest)

-- `_SCANNER_INTERVAL_MS`
abbrev pub scanner_interval_ms : ℕ
scanner_interval_ms = 900000

-- The order of the times and the exclusive expiry.
unfoldable pub times_valid : OrderIntent → Bool
times_valid i =
    leb i.signal_time_ms i.observed_at_ms
    && leb i.observed_at_ms i.created_at_ms
    && ltb i.created_at_ms i.expires_at_ms
    && ltb 0 i.second_pullback_wait_bars
    && i.expires_at_ms == i.signal_time_ms + i.second_pullback_wait_bars * scanner_interval_ms

abbrev is_allowed_decision : EntryDecisionCode → Bool
is_allowed_decision EntryDecisionCode.signal_confirmed = true
is_allowed_decision EntryDecisionCode.second_pullback_limit_ready = true
is_allowed_decision _ = false

abbrev is_ready : EntryDisposition → Bool
is_ready EntryDisposition.ready = true
is_ready _ = false

-- The evidence that the intent cites.
unfoldable pub evidence_valid : OrderIntent → Bool
evidence_valid i =
    not (str_eq i.source_observation_id "")
    && is_allowed_decision i.decision_code
    && is_ready (entry_decision_metadata i.decision_code).disposition
    && is_hex_text 32 i.trusted_run_id
    && content_hashes_valid i.data_content_sha256
    && is_prefixed_digest "sr1_" i.strategy_release_id
    && not (str_eq i.strategy_name "")
    && is_hex_text 64 i.strategy_config_sha256

module _ (rt : Runtime) where
  open rt use {sha256_hex, Decimal, decimal, is_finite, is_positive, less, plain}

  abbrev checked_decimal : String → Decimal → Option Decimal
  checked_decimal value d =
      if is_finite d && is_positive d && str_eq (plain d) value then some d else none

  -- `_canonical_positive_decimal`; `none` is its error.
  unfoldable pub canonical_positive_decimal : String → Option Decimal
  canonical_positive_decimal value =
      if str_eq value ""
      then none
      else elim (decimal value) [ none ↦ none | some d ↦ checked_decimal value d ]

  -- `_signal_lineage_id`
  unfoldable pub signal_lineage_id_for : String → String → ℕ → String
  signal_lineage_id_for config symbol time =
      "sig1_"
      ++ sha256_hex (
          object (
            field "signal_time_ms" (num time) (
              field "strategy_config_sha256" (text config) (
                field "strategy_rule_id" (text "mu.baseline.second_pullback.long_limit.v1")
                  (field "symbol" (text symbol) end)))))

  -- `_business_action_id`
  unfoldable pub business_action_id_for : ExecutionEnvironment → String → String
  business_action_id_for environment lineage =
      "ba1_"
      ++ sha256_hex (
          object (
            field "action" (text "submit_entry") (
              field "environment" (text (environment_value environment))
                (field "signal_lineage_id" (text lineage) end))))

  -- `_fingerprint_payload`, its keys in the order of the canonical text.
  unfoldable pub fingerprint_payload : OrderIntent → Json
  fingerprint_payload i = object (
      field "business_action_id" (text i.business_action_id) (
        field "data_content_sha256" (array (hash_items i.data_content_sha256)) (
          field "decision_code" (text (decision_value i.decision_code)) (
            field "environment" (text (environment_value i.environment)) (
              field "expires_at_ms" (num i.expires_at_ms) (
                field "initial_stop" (text i.initial_stop) (
                  field "leverage" (num i.leverage) (
                    field "limit_price" (text i.limit_price) (
                      field "observed_at_ms" (num i.observed_at_ms) (
                        field "order_type" (text i.order_type) (
                          field "pos_side" (text i.pos_side) (
                            field "schema_version" (num i.schema_version) (
                              field "second_pullback_wait_bars" (num i.second_pullback_wait_bars) (
                                field "side" (text i.side) (
                                  field "signal_lineage_id" (text i.signal_lineage_id) (
                                    field "signal_time_ms" (num i.signal_time_ms) (
                                      field "size" (text i.size) (
                                        field "source_observation_id" (text i.source_observation_id)
                                          (field "strategy_config_sha256"
                                            (text i.strategy_config_sha256)
                                            (field "strategy_name" (text i.strategy_name) (
                                              field "strategy_release_id"
                                                (text i.strategy_release_id)
                                                (field "symbol" (text i.symbol) (
                                                  field "td_mode" (text i.td_mode) (
                                                    field "trusted_run_id" (text i.trusted_run_id)
                                                      end))))))))))))))))))))))))

  unfoldable pub intent_fingerprint : OrderIntent → String
  unfolding fingerprint_payload
  intent_fingerprint i = sha256_hex (fingerprint_payload i)

  abbrev stop_below : Option Decimal → Option Decimal → Bool
  stop_below (some stop) (some limit) = less stop limit
  stop_below _ _ = false

  -- `_validate`, from the schema version to the size.
  unfoldable pub order_valid : OrderIntent → Bool
  order_valid i =
      i.schema_version == 1
      && same_environment i.environment demo
      && is_symbol i.symbol
      && str_eq i.side "buy"
      && str_eq i.order_type "limit"
      && str_eq i.td_mode "isolated"
      && str_eq i.pos_side "long"
      && elim (canonical_positive_decimal i.size) [ none ↦ false | some _ ↦ true ]
      && stop_below (canonical_positive_decimal i.initial_stop)
          (canonical_positive_decimal i.limit_price)
      && ltb 0 i.leverage

  -- The identities are the digests of what they identify.
  unfoldable pub identity_valid : OrderIntent → Bool
  identity_valid i =
      is_prefixed_digest "sig1_" i.signal_lineage_id
      && str_eq i.signal_lineage_id
          (signal_lineage_id_for i.strategy_config_sha256 i.symbol i.signal_time_ms)
      && is_prefixed_digest "ba1_" i.business_action_id
      && str_eq i.business_action_id (business_action_id_for i.environment i.signal_lineage_id)
      && str_eq i.audit_correlation_id i.business_action_id
      && is_prefixed_digest "oi1_" i.intent_id
      && str_eq i.intent_id ("oi1_" ++ intent_fingerprint i)

  -- `_validate` passes; what it raises is always OrderIntentSchemaError.
  unfoldable pub validate : OrderIntent → Bool
  validate i = order_valid i && times_valid i && evidence_valid i && identity_valid i
