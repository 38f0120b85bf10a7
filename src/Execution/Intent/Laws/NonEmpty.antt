-- ===== src/Execution/Intent/Laws/NonEmpty.antt =====
-- No text field of a valid order intent is empty.
use mu_5x_fibonacci_trading.Base.{
  ◌≡◌, Bool, true, false, String, str_eq, eq_iff, is_hex_text, Bool-cases, inl, inr, arith, refl,
  is_some,
}
use Prim.Native.String.{◌++◌}
use mu_5x_fibonacci_trading.Runtime.{Runtime}
use mu_5x_fibonacci_trading.Execution.Intent.{
  OrderIntent, demo, is_prefixed_digest, validate, intent_fingerprint, is_symbol, order_valid,
  evidence_valid, identity_valid, times_valid, canonical_positive_decimal,
}

-- A test that fails at the empty text passes only at others.
nonempty_of :
    (test : String → Bool) (s : String) → test "" ≡ false → test s ≡ true → str_eq s "" ≡ false
nonempty_of test s at_empty passed = elim (Bool-cases (str_eq s "")) [
  | inl same ↦ cc (at_empty, passed, (eq_iff s "").0 same)
  | inr other ↦ other
]

-- The texts of an intent, each with the test that it has passed.
pub record HasTexts (i : OrderIntent) : Type 0 where
  pub signal_lineage_id : str_eq i.signal_lineage_id "" ≡ false
  pub business_action_id : str_eq i.business_action_id "" ≡ false
  pub intent_id : str_eq i.intent_id "" ≡ false
  pub audit_correlation_id : str_eq i.audit_correlation_id "" ≡ false
  pub symbol : str_eq i.symbol "" ≡ false
  pub side : str_eq i.side "" ≡ false
  pub order_type : str_eq i.order_type "" ≡ false
  pub size : str_eq i.size "" ≡ false
  pub limit_price : str_eq i.limit_price "" ≡ false
  pub td_mode : str_eq i.td_mode "" ≡ false
  pub pos_side : str_eq i.pos_side "" ≡ false
  pub initial_stop : str_eq i.initial_stop "" ≡ false
  pub source_observation_id : str_eq i.source_observation_id "" ≡ false
  pub trusted_run_id : str_eq i.trusted_run_id "" ≡ false
  pub strategy_release_id : str_eq i.strategy_release_id "" ≡ false
  pub strategy_name : str_eq i.strategy_name "" ≡ false
  pub strategy_config_sha256 : str_eq i.strategy_config_sha256 "" ≡ false

module _ (rt : Runtime) (i : OrderIntent) where
  pub validate_parts :
      validate rt i ≡ true
      → (order_valid rt i ≡ true)
        × (times_valid i ≡ true)
        × (evidence_valid i ≡ true)
        × (identity_valid rt i ≡ true)
  unfolding validate
  validate_parts h = ground arith

  decimal_nonempty :
      (s : String) → is_some (canonical_positive_decimal rt s) ≡ true → str_eq s "" ≡ false
  unfolding canonical_positive_decimal
  decimal_nonempty s h = ground arith

  pub order_parts :
      order_valid rt i ≡ true
      → (i.environment ≡ demo)
        × (is_symbol i.symbol ≡ true)
        × (str_eq i.side "buy" ≡ true)
        × (str_eq i.order_type "limit" ≡ true)
        × (str_eq i.td_mode "isolated" ≡ true)
        × (str_eq i.pos_side "long" ≡ true)
        × (is_some (canonical_positive_decimal rt i.size) ≡ true)
        × (is_some (canonical_positive_decimal rt i.limit_price) ≡ true)
        × (is_some (canonical_positive_decimal rt i.initial_stop) ≡ true)
  unfolding order_valid
  order_parts h = ground arith

  pub evidence_parts :
      evidence_valid i ≡ true
      → (str_eq i.source_observation_id "" ≡ false)
        × (is_hex_text 32 i.trusted_run_id ≡ true)
        × (is_prefixed_digest "sr1_" i.strategy_release_id ≡ true)
        × (str_eq i.strategy_name "" ≡ false)
        × (is_hex_text 64 i.strategy_config_sha256 ≡ true)
  unfolding evidence_valid
  evidence_parts h = ground arith

  pub identity_parts :
      identity_valid rt i ≡ true
      → (is_prefixed_digest "sig1_" i.signal_lineage_id ≡ true)
        × (is_prefixed_digest "ba1_" i.business_action_id ≡ true)
        × (i.audit_correlation_id ≡ i.business_action_id)
        × (is_prefixed_digest "oi1_" i.intent_id ≡ true)
        × (i.intent_id ≡ "oi1_" ++ intent_fingerprint rt i)
  unfolding identity_valid
  identity_parts h = ground (
    arith,
    eq_iff i.audit_correlation_id i.business_action_id,
    eq_iff i.intent_id ("oi1_" ++ intent_fingerprint rt i),
  )

  pub validate-HasTexts : validate rt i ≡ true → HasTexts i
  unfolding is_prefixed_digest is_hex_text is_symbol
  validate-HasTexts h =
      let (o, _, e, d) = validate_parts h in
      let (_, symbol, side, order_type, td_mode, pos_side, size, limit_price, stop) =
        order_parts o in
      let (source, run, release, name, config) = evidence_parts e in
      let (lineage, action, same, intent, _) = identity_parts d in
      record {
        signal_lineage_id = nonempty_of (is_prefixed_digest "sig1_") _ refl lineage;
        business_action_id = nonempty_of (is_prefixed_digest "ba1_") _ refl action;
        intent_id = nonempty_of (is_prefixed_digest "oi1_") _ refl intent;
        audit_correlation_id = rw same (nonempty_of (is_prefixed_digest "ba1_") _ refl action);
        symbol = nonempty_of is_symbol _ refl symbol;
        side = nonempty_of (λ s. str_eq s "buy") _ refl side;
        order_type = nonempty_of (λ s. str_eq s "limit") _ refl order_type;
        size = decimal_nonempty _ size;
        limit_price = decimal_nonempty _ limit_price;
        td_mode = nonempty_of (λ s. str_eq s "isolated") _ refl td_mode;
        pos_side = nonempty_of (λ s. str_eq s "long") _ refl pos_side;
        initial_stop = decimal_nonempty _ stop;
        source_observation_id = source;
        trusted_run_id = nonempty_of (is_hex_text 32) _ refl run;
        strategy_release_id = nonempty_of (is_prefixed_digest "sr1_") _ refl release;
        strategy_name = name;
        strategy_config_sha256 = nonempty_of (is_hex_text 64) _ refl config;
      }
