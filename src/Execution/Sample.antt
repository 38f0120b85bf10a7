-- ===== src/Execution/Sample.antt =====
-- A concrete runtime and concrete intents, at which the theorems of the execution package are applied.
-- The digest of a JSON value is its sum of numbers modulo 16, as 64 hex digits; a decimal is a text of
-- digits with its value.
use mu_5x_fibonacci_trading.Base.{
  ℕ, ◌+◌, ◌*◌, ◌%◌, ◌-◌, String, ◌≡◌, refl, true, false, some, List, [], ◌∷◌, ltb, ◌==◌,
  if◌then◌else◌, is_hex_text, codes,
}
use Prim.Native.String.{◌++◌}
use mu_5x_fibonacci_trading.Runtime.{Runtime, Json, Items, Fields}
use mu_5x_fibonacci_trading.Entry.Decision.{EntryDecisionCode}
use mu_5x_fibonacci_trading.Execution.Intent.{
  OrderIntent, ExecutionEnvironment, signal_lineage_id_for, business_action_id_for,
  intent_fingerprint, validate, times_valid, order_valid, evidence_valid, identity_valid,
  content_hashes_valid, canonical_positive_decimal, is_symbol, is_prefixed_digest,
}
use mu_5x_fibonacci_trading.Entry.Decision.{entry_decision_metadata}

abbrev hex_digit : ℕ → String
hex_digit n =
    if n == 1
    then "1"
    else if n == 2
    then "2"
    else if n == 3
    then "3"
    else if n == 4
    then "4"
    else if n == 5
    then "5"
    else if n == 6
    then "6"
    else if n == 7
    then "7"
    else if n == 8
    then "8"
    else if n == 9
    then "9"
    else if n == 10
    then "a"
    else if n == 11
    then "b"
    else if n == 12
    then "c"
    else if n == 13
    then "d"
    else if n == 14
    then "e"
    else if n == 15
    then "f"
    else "0"

abbrev mutual
  pub total : Json → ℕ
  total Json.null = 0
  total (Json.bool b) = 0
  total (Json.num n) = n
  total (Json.real s) = 0
  total (Json.text s) = 0
  total (Json.array xs) = total_items xs
  total (Json.object fs) = total_fields fs

  pub total_items : Items → ℕ
  total_items Items.nil = 0
  total_items (Items.cons x xs) = total x + total_items xs

  pub total_fields : Fields → ℕ
  total_fields Fields.end = 0
  total_fields (Fields.field k v fs) = total v + total_fields fs

abbrev pub toy_digest : Json → String
toy_digest j =
    "000000000000000000000000000000000000000000000000000000000000000" ++ hex_digit (total j % 16)

abbrev digits_value : ℕ → List ℕ → ℕ
digits_value acc [] = acc
digits_value acc (c ∷ cs) = digits_value (acc * 10 + (c - 48)) cs

abbrev pub toy : Runtime
toy = record {
  sha256_hex = toy_digest;
  sha256_upper = λ s. "0123456789ABCDEF0123456789ABCDEF0123456789ABCDEF0123456789ABCDEF";
  Decimal = String × ℕ;
  decimal = λ s. some (s, digits_value 0 (codes s));
  is_finite = λ d. true;
  is_positive = λ d. ltb 0 d.1;
  less = λ d e. ltb d.1 e.1;
  plain = λ d. d.0;
}

abbrev pub hash_a : String
hash_a = "aaaaaaaaaaaaaaaaaaaaaaaaaaaaaaaaaaaaaaaaaaaaaaaaaaaaaaaaaaaaaaaa"

abbrev pub lineage : String
lineage = "sig1_0000000000000000000000000000000000000000000000000000000000000008"

abbrev pub action : String
action = "ba1_0000000000000000000000000000000000000000000000000000000000000000"

-- An intent made at time `created`, at the limit price `limit`.
abbrev pub sample : String → String → ℕ → ℕ → OrderIntent
sample id limit leverage created = record {
  schema_version = 1;
  signal_lineage_id = lineage;
  business_action_id = action;
  intent_id = id;
  audit_correlation_id = action;
  environment = ExecutionEnvironment.demo;
  symbol = "MU-USDT-SWAP";
  side = "buy";
  order_type = "limit";
  size = "3";
  limit_price = limit;
  td_mode = "isolated";
  pos_side = "long";
  leverage = leverage;
  initial_stop = "95";
  source_observation_id = "observation";
  signal_time_ms = 1000;
  decision_code = EntryDecisionCode.signal_confirmed;
  trusted_run_id = "00112233445566778899aabbccddeeff";
  observed_at_ms = 2000;
  data_content_sha256 = ("15m", hash_a) ∷ ("1h", hash_a) ∷ ("5m", hash_a) ∷ [];
  strategy_release_id = "sr1_aaaaaaaaaaaaaaaaaaaaaaaaaaaaaaaaaaaaaaaaaaaaaaaaaaaaaaaaaaaaaaaa";
  strategy_name = "baseline";
  strategy_config_sha256 = hash_a;
  second_pullback_wait_bars = 4;
  created_at_ms = created;
  expires_at_ms = 3601000;
}

-- Two revisions of one action: with leverage 5 and with leverage 4.
abbrev pub first_intent : OrderIntent
first_intent =
    sample "oi1_000000000000000000000000000000000000000000000000000000000000000a" "100" 5 3000

abbrev pub second_intent : OrderIntent
second_intent =
    sample "oi1_0000000000000000000000000000000000000000000000000000000000000009" "100" 4 4000

pub first-validate : validate toy first_intent ≡ true
unfolding validate order_valid times_valid evidence_valid identity_valid content_hashes_valid
    canonical_positive_decimal is_symbol is_prefixed_digest signal_lineage_id_for
    business_action_id_for intent_fingerprint entry_decision_metadata is_hex_text
first-validate = refl

pub second-validate : validate toy second_intent ≡ true
unfolding validate order_valid times_valid evidence_valid identity_valid content_hashes_valid
    canonical_positive_decimal is_symbol is_prefixed_digest signal_lineage_id_for
    business_action_id_for intent_fingerprint entry_decision_metadata is_hex_text
second-validate = refl

-- An order whose stop is not below its limit is refused.
crossed_stop : validate toy (record first_intent { initial_stop = "100" }) ≡ false
unfolding validate order_valid times_valid evidence_valid identity_valid content_hashes_valid
    canonical_positive_decimal is_symbol is_prefixed_digest signal_lineage_id_for
    business_action_id_for intent_fingerprint entry_decision_metadata is_hex_text
crossed_stop = refl
