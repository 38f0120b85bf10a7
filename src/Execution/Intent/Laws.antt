-- ===== src/Execution/Intent/Laws.antt =====
-- What a valid order intent satisfies, and the round trip through its dictionary.
pub mod NonEmpty
use mu_5x_fibonacci_trading.Base.{
  ℕ, ◌+◌, ◌*◌, ◌≤◌, ◌<◌, ◌≡◌, refl, true, false, some, List, [], ◌∷◌, ap, arith, String, str_eq,
  eq_refl,
}
use mu_5x_fibonacci_trading.Runtime.{Runtime, Json}
use mu_5x_fibonacci_trading.Runtime.Json.{object, text}
use mu_5x_fibonacci_trading.Execution.Intent.{
  OrderIntent, ExecutionEnvironment, demo, production, environment_value, hash_items, times_valid,
  validate, scanner_interval_ms,
}
use mu_5x_fibonacci_trading.Entry.Decision.{decision_value, parse_decision, parse-decision_value}
use mu_5x_fibonacci_trading.Execution.Intent.Laws.NonEmpty.{
  HasTexts, validate_parts, validate-HasTexts,
}
use mu_5x_fibonacci_trading.Execution.Intent.Codec.{
  to_dict, from_dict, read_fields, intent_fields, parse_hashes, parse_environment,
}

parse_hashes-hash_items : (l : List (String × String)) → parse_hashes (hash_items l) ≡ some l
parse_hashes-hash_items [] = refl
parse_hashes-hash_items ((a, b) ∷ l) = rw (parse_hashes-hash_items l)

parse_environment_value :
    (e : ExecutionEnvironment) → parse_environment (some (text (environment_value e))) ≡ some e
parse_environment_value demo = refl
parse_environment_value production = refl

-- A valid intent was signalled, observed, created and expires in this order, and the expiry is one
-- scanner interval after the signal for each waiting bar.
pub validate_times :
    (rt : Runtime) (i : OrderIntent)
    → validate rt i ≡ true
    → (i.signal_time_ms ≤ i.observed_at_ms)
      × (i.observed_at_ms ≤ i.created_at_ms)
      × (i.created_at_ms < i.expires_at_ms)
      × (i.expires_at_ms ≡ i.signal_time_ms + i.second_pullback_wait_bars * scanner_interval_ms)
unfolding times_valid
validate_times rt i h = let (_, t, _, _) = validate_parts rt i h in ground arith

-- The fields of the dictionary are read back.
read_fields-intent_fields : (i : OrderIntent) → HasTexts i → read_fields (intent_fields i) ≡ some i
unfolding read_fields
read_fields-intent_fields i t = rw (
  parse_hashes-hash_items, t.signal_lineage_id, t.business_action_id, t.intent_id,
  t.audit_correlation_id, parse_environment_value, t.symbol, t.side, t.order_type, t.size,
  t.limit_price, t.td_mode, t.pos_side, t.initial_stop, t.source_observation_id,
  parse-decision_value, t.trusted_run_id, t.strategy_release_id, t.strategy_name,
  t.strategy_config_sha256,
)

-- A valid intent survives `to_dict` and `from_dict`.
pub from_dict-to_dict :
    (rt : Runtime) (i : OrderIntent) → validate rt i ≡ true → from_dict rt (to_dict i) ≡ some i
unfolding from_dict to_dict
from_dict-to_dict rt i h = rw (read_fields-intent_fields i (validate-HasTexts rt i h), h)

-- What `from_dict` returns is valid.
pub from_dict-validate :
    (rt : Runtime) (j : Json) (i : OrderIntent) → from_dict rt j ≡ some i → validate rt i ≡ true
unfolding from_dict
from_dict-validate rt (object fs) i h = ground arith
from_dict-validate rt j i h = cc
