-- ===== src/Market/Policy.antt =====
-- mu_strategy/market_data/trusted_data/policy.py, and of contracts.py what it reads: the states of a
-- dataset, the usability of a snapshot, freshness by the clock and the trust decision.
use mu_5x_fibonacci_trading.Base.{
  ℕ, ◌-◌, ◌*◌, max, String, Bool, true, false, not, ◌&&◌, ◌||◌, Option, none, some, List, [], ◌∷◌,
  ◌++◌, str_eq, ltb, if◌then◌else◌, contains_text, any,
}

pub data AvailabilityState : Type 0 where
  available missing : AvailabilityState

pub data IntegrityState : Type 0 where
  valid invalid unknown : IntegrityState

pub data FreshnessState : Type 0 where
  fresh stale unknown : FreshnessState

pub data RefreshAttemptStatus : Type 0 where
  success degraded failed : RefreshAttemptStatus

pub data SnapshotUsability : Type 0 where
  usable stale invalid : SnapshotUsability

-- The reasons that the policy gives by itself; `other` is any further member of the enum.
pub data HealthReason : Type 0 where
  ok cache_missing run_failed manifest_invalid manifest_stale freshness_unknown stale_by_clock
        future_timestamp :
      HealthReason
  other : String → HealthReason

-- What the policy reads of a dataset's health.
pub record DatasetHealth : Type 0 where
  pub availability : AvailabilityState
  pub integrity : IntegrityState
  pub freshness : FreshnessState
  pub reasons : List HealthReason
  pub rows : ℕ

abbrev pub is_available : DatasetHealth → Bool
is_available h = elim h.availability [ available ↦ true | missing ↦ false ]

abbrev pub is_valid : DatasetHealth → Bool
is_valid h = elim h.integrity [ valid ↦ true | invalid ↦ false | unknown ↦ false ]

abbrev pub is_fresh : DatasetHealth → Bool
is_fresh h = elim h.freshness [ fresh ↦ true | stale ↦ false | unknown ↦ false ]

abbrev pub is_stale : DatasetHealth → Bool
is_stale h = elim h.freshness [ fresh ↦ false | stale ↦ true | unknown ↦ false ]

abbrev pub is_unknown : DatasetHealth → Bool
is_unknown h = elim h.freshness [ fresh ↦ false | stale ↦ false | unknown ↦ true ]

abbrev is_ok : HealthReason → Bool
is_ok HealthReason.ok = true
is_ok _ = false

-- `primary_reason`
abbrev pub primary_reason : DatasetHealth → HealthReason
primary_reason h = elim h.reasons [ [] ↦ HealthReason.ok | r ∷ rs ↦ r ]

unfoldable pub is_usable : DatasetHealth → Bool
is_usable h = is_available h && is_valid h && is_fresh h && ltb 0 h.rows

-- `derive_snapshot_usability`
unfoldable pub derive_snapshot_usability : List DatasetHealth → SnapshotUsability
unfolding is_usable
derive_snapshot_usability datasets =
    if not (any is_usable datasets)
    then SnapshotUsability.invalid
    else if any (λ h. not (is_available h)) datasets
    then SnapshotUsability.invalid
    else if any (λ h. not (is_valid h)) datasets
    then SnapshotUsability.invalid
    else if any is_unknown datasets
    then SnapshotUsability.invalid
    else if any is_stale datasets
    then SnapshotUsability.stale
    else SnapshotUsability.usable

-- `now_ms - last_confirmed_open_time_ms`, with its sign.
pub data Age : Type 0 where
  past : ℕ → Age
  ahead : ℕ → Age

pub record FreshnessAssessment : Type 0 where
  pub state : FreshnessState
  pub reason : HealthReason
  pub age_ms : Option Age
  pub max_age_ms : Option ℕ

-- `FreshnessPolicy.assess`, of an interval in milliseconds.
unfoldable pub assess_freshness : ℕ → ℕ → ℕ → Option ℕ → FreshnessAssessment
assess_freshness max_staleness_bars now_ms interval_ms none = record {
  state = FreshnessState.stale;
  reason = HealthReason.cache_missing;
  age_ms = none;
  max_age_ms = none;
}
assess_freshness max_staleness_bars now_ms interval_ms (some last) =
    let max_age = interval_ms * max 1 max_staleness_bars in
    if ltb now_ms last
    then record {
      state = FreshnessState.unknown;
      reason = HealthReason.future_timestamp;
      age_ms = some (ahead (last - now_ms));
      max_age_ms = some max_age;
    }
    else if ltb max_age (now_ms - last)
    then record {
      state = FreshnessState.stale;
      reason = HealthReason.stale_by_clock;
      age_ms = some (past (now_ms - last));
      max_age_ms = some max_age;
    }
    else record {
      state = FreshnessState.fresh;
      reason = HealthReason.ok;
      age_ms = some (past (now_ms - last));
      max_age_ms = some max_age;
    }

-- `dict.fromkeys`: each text once, where it first stands, after those that are `seen`.
abbrev once : List String → List String → List String
once seen [] = []
once seen (s ∷ rest) =
    let later = once (s ∷ seen) rest in if contains_text s seen then once seen rest else s ∷ later

abbrev needs_base : List String → Bool
needs_base requested = any (λ s. str_eq s "15m" || str_eq s "1h") requested

abbrev add_missing : List String → List String → List String
add_missing effective [] = effective
add_missing effective (s ∷ rest) =
    add_missing (if contains_text s effective then effective else effective ++ s ∷ []) rest

-- `IntervalDependencyPlanner.plan`: the effective intervals.
unfoldable pub plan_intervals : List String → List String
plan_intervals requested =
    add_missing (if needs_base (once [] requested) then "5m" ∷ [] else []) (once [] requested)

pub record TrustPolicy : Type 0 where
  pub name : String
  pub require_manifest_success : Bool
  pub require_fresh : Bool
  pub allow_invalid : Bool

pub record TrustDecision : Type 0 where
  pub allowed : Bool
  pub reason : HealthReason

abbrev pub blocked : HealthReason → TrustDecision
blocked reason = record { allowed = false; reason = reason }

-- `health_by_interval.get`
abbrev pub health_of : String → List (String × DatasetHealth) → Option DatasetHealth
health_of interval [] = none
health_of interval ((key, h) ∷ rest) =
    let later = health_of interval rest in if str_eq key interval then some h else later

-- `_freshness_block_reason`
unfoldable pub freshness_block_reason : DatasetHealth → HealthReason
freshness_block_reason h =
    if not (is_ok (primary_reason h))
    then primary_reason h
    else if is_stale h
    then HealthReason.stale_by_clock
    else HealthReason.freshness_unknown

-- The body of the second loop, and what follows it.
abbrev pub fresh_or : TrustPolicy → Option DatasetHealth → TrustDecision → TrustDecision
fresh_or policy none rest = blocked HealthReason.cache_missing
fresh_or policy (some h) rest =
    if not (is_fresh h) && policy.require_fresh then blocked (freshness_block_reason h) else rest

abbrev pub fresh_loop : TrustPolicy → List (String × DatasetHealth) → List String → TrustDecision
fresh_loop policy healths [] = record { allowed = true; reason = HealthReason.ok }
fresh_loop policy healths (s ∷ rest) =
    fresh_or policy (health_of s healths) (fresh_loop policy healths rest)

-- The body of the first loop, and what follows it.
abbrev pub usable_or : TrustPolicy → Option DatasetHealth → TrustDecision → TrustDecision
usable_or policy none rest = blocked HealthReason.cache_missing
usable_or policy (some h) rest =
    if not (is_available h)
    then blocked (primary_reason h)
    else if not (is_valid h) && not policy.allow_invalid
    then blocked (primary_reason h)
    else rest

abbrev pub usable_loop :
    TrustPolicy → List (String × DatasetHealth) → List String → TrustDecision → TrustDecision
usable_loop policy healths [] after = after
usable_loop policy healths (s ∷ rest) after =
    usable_or policy (health_of s healths) (usable_loop policy healths rest after)

-- `freshness_intervals or required_intervals`
abbrev pub freshness_required : List String → Option (List String) → List String
freshness_required required none = required
freshness_required required (some []) = required
freshness_required required (some (s ∷ rest)) = s ∷ rest

abbrev pub is_none : Option (List String) → Bool
is_none none = true
is_none (some _) = false

abbrev pub manifest_or :
    RefreshAttemptStatus → SnapshotUsability → Option (List String) → TrustDecision → TrustDecision
manifest_or RefreshAttemptStatus.failed usability freshness rest = blocked HealthReason.run_failed
manifest_or _ SnapshotUsability.invalid freshness rest = blocked HealthReason.manifest_invalid
manifest_or _ SnapshotUsability.stale freshness rest =
    if is_none freshness then blocked HealthReason.manifest_stale else rest
manifest_or _ SnapshotUsability.usable freshness rest = rest

abbrev pub manifest_gate :
    TrustPolicy
    → RefreshAttemptStatus
    → SnapshotUsability
    → Option (List String)
    → TrustDecision
    → TrustDecision
manifest_gate policy attempt usability freshness rest =
    if policy.require_manifest_success then manifest_or attempt usability freshness rest else rest

-- `TrustPolicy.decide`, of the manifest's attempt status and snapshot usability.
unfoldable pub trust_decide :
    TrustPolicy
    → RefreshAttemptStatus
    → SnapshotUsability
    → List (String × DatasetHealth)
    → List String
    → Option (List String)
    → TrustDecision
unfolding freshness_block_reason
trust_decide policy attempt usability healths required freshness =
    manifest_gate policy attempt usability freshness (
      usable_loop policy healths required
        (fresh_loop policy healths (freshness_required required freshness)))

abbrev pub trading_strict_policy : TrustPolicy
trading_strict_policy = record {
  name = "trading_strict";
  require_manifest_success = true;
  require_fresh = true;
  allow_invalid = false;
}
